-- ===== src/System/Handover.antt =====
-- A remote runner gets a whole job only if it could start, and starts only a job that it got.
use journeyman.Base.{some, ℕ, true, List, String, ◌≡◌, refl, subst, arith, Bool-cases, inl, inr}
use journeyman.Runner.{Runner}
use journeyman.Job.{Job}
use journeyman.Concurrency.{is_queued}
use journeyman.Base.Text.{Python}
use journeyman.Dispatch.Claims.{locked-guards, look-locked}
use journeyman.Dispatch.{
  assigned_job, is_started, Look, taken, passed, gone, look_at, runner_can_claim, start_remote_job,
  job_assignment_matches,
}
use journeyman.System.{handed}
use journeyman.System.Moves.{is_assigned, is_busy, is_fresh, IsQuiet-refl}
use journeyman.System.Starts.{CanGo, IsStart, IsStart-quiet}

-- a remote runner gets a whole job
IsStart-assigned :
    (py : Python) (now : ℕ) (runner : Runner) (token : String) (jobs : List Job) (job : Job)
    → runner_can_claim py now runner jobs job ≡ true
    → IsStart jobs job (assigned_job runner token job)
unfolding runner_can_claim is_fresh is_busy CanGo
IsStart-assigned py now runner token jobs job h = record {
  same_id = refl;
  same_project = refl;
  same_policy = refl;
  busy_before = λ f b. inl b;
  stays_fresh = λ f. f;
  same_queued_at = refl;
  active_before = λ a. a;
  assigned_before = λ f a. inr (ground arith, ground arith);
}

row-injective : (a b : Runner) → some a ≡ some b → a ≡ b
row-injective a b h = cc

handed-CanGo :
    (py : Python) (now : ℕ) (runner : Runner) (token : String) (jobs : List Job) (job : Job)
    (look : Look)
    → look_at py now token runner (some runner) jobs job ≡ look
    → IsStart jobs job (handed job look)
handed-CanGo py now runner token jobs job passed e = IsStart-quiet jobs job job (IsQuiet-refl job)
handed-CanGo py now runner token jobs job gone e = IsStart-quiet jobs job job (IsQuiet-refl job)
handed-CanGo py now runner token jobs job (taken after) e =
    let (row, same, free, can, open_, to) =
      locked-guards py now token jobs job after (some runner)
        (look-locked py now token runner (some runner) jobs job after e) in
    subst (IsStart jobs job) to (IsStart-assigned py now row token jobs job can)

pub IsStart-claim_job :
    (py : Python) (now : ℕ) (runner : Runner) (token : String) (jobs : List Job) (job : Job)
    → IsStart jobs job (handed job (look_at py now token runner (some runner) jobs job))
IsStart-claim_job py now runner token jobs job =
    handed-CanGo py now runner token jobs job (look_at py now token runner (some runner) jobs job)
      refl

-- and starts it
matched-assigned :
    (job : Job) (runner : Runner) (token : String)
    → job_assignment_matches job runner token ≡ true
    → is_queued job.status ≡ true
    → is_fresh job ≡ true
    → is_assigned job ≡ true
unfolding job_assignment_matches is_fresh is_assigned
matched-assigned job runner token e q f = ground arith

pub IsStart-begin_job :
    (now : ℕ) (runner : Runner) (token : String) (jobs : List Job) (job : Job)
    → IsStart jobs job (start_remote_job now job runner token).0
unfolding start_remote_job is_fresh is_assigned
IsStart-begin_job now runner token jobs job =
    elim (Bool-cases (job_assignment_matches job runner token)) [
      | inr e ↦ simp e (IsStart-quiet jobs job job (IsQuiet-refl job))
      | inl e ↦ elim (Bool-cases (is_queued job.status)) [
        | inl q ↦
            simp (e, q)
              (record {
                same_id = refl;
                same_project = refl;
                same_policy = refl;
                busy_before = λ f b. inr (inr (matched-assigned job runner token e q f));
                stays_fresh = λ f. refl;
                same_queued_at = refl;
                active_before = λ a. ground arith;
                assigned_before = λ f a. absurd (ground arith);
              })
        | inr n ↦ elim (Bool-cases (is_started job.status)) [
          | inl k ↦ simp (e, n, k) (IsStart-quiet jobs job job (IsQuiet-refl job))
          | inr k ↦ simp (e, n, k) (IsStart-quiet jobs job job (IsQuiet-refl job))
        ]
      ]
    ]
