-- ===== src/System/Starts.antt =====
-- The operations that start a job: each asks `job_can_start` first.
use journeyman.Base.{
  Bool, ℕ, true, ◌&&◌, List, String, ◌≡◌, refl, sym, subst, arith, Bool-cases, inl, inr, ◌⊎◌,
}
use journeyman.Runner.{Runner}
use journeyman.Job.{Job, Step, Slice}
use journeyman.Oversight.{update_job_oversight_state}
use journeyman.Concurrency.{job_can_start, is_queued, is_active}
use journeyman.Claim.{Claim, runner_can_claim_slice, assign_slice, is_dispatched}
use journeyman.Lifecycle.{is_local_target, start_local_slice}
use journeyman.System.{
  after_claim, reconcile, claimed, claim_remote_on, claim_local_on, claim_whole_on,
  is_sliced_target,
}
use journeyman.System.Moves.{
  is_assigned, is_busy, is_fresh, IsQuiet, IsQuiet-refl, IsQuiet-trans, IsQuiet-steps,
  IsQuiet-review,
}

-- the job is queued and could start
unfoldable pub CanGo : List Job → Job → Type 0
CanGo jobs job = (job_can_start job jobs ≡ true) × (is_queued job.status ≡ true)

-- a change of a job's row that starts or assigns it only if the job could start, or starts it if it
-- was assigned
pub record IsStart (jobs : List Job) (job after : Job) : Type 0 where
  pub same_id : after.id ≡ job.id
  pub same_project : after.project_id ≡ job.project_id
  pub same_policy : after.concurrency_policy ≡ job.concurrency_policy
  pub busy_before :
      is_fresh job ≡ true
      → is_busy after ≡ true
      → (is_busy job ≡ true) ⊎ (CanGo jobs job ⊎ (is_assigned job ≡ true))
  pub stays_fresh : is_fresh job ≡ true → is_fresh after ≡ true
  pub same_queued_at : after.queued_at ≡ job.queued_at
  pub active_before : is_active after.status ≡ true → is_active job.status ≡ true
  pub assigned_before :
      is_fresh job ≡ true → is_assigned after ≡ true → (is_assigned job ≡ true) ⊎ CanGo jobs job

pub IsStart-quiet : (jobs : List Job) (job after : Job) → IsQuiet job after → IsStart jobs job after
IsStart-quiet jobs job after q = record {
  same_id = q.same_id;
  same_project = q.same_project;
  same_policy = q.same_policy;
  busy_before = λ f e. inl (q.busy_before f e);
  stays_fresh = q.stays_fresh;
  same_queued_at = q.same_queued_at;
  active_before = q.active_before;
  assigned_before = λ f e. inl (q.assigned_before f e);
}

-- a dispatched job that could start is queued, or at work already
dispatched-CanGo :
    (jobs : List Job) (job : Job)
    → job_can_start job jobs ≡ true
    → is_dispatched job.status ≡ true
    → (is_busy job ≡ true) ⊎ (CanGo jobs job ⊎ (is_assigned job ≡ true))
unfolding CanGo is_busy
dispatched-CanGo jobs job h d = elim (Bool-cases (is_queued job.status)) [
  | inl q ↦ inr (inl (h, q))
  | inr n ↦ inl (ground arith)
]

paused-review :
    (now : ℕ) (runner : Runner) (jobs : List Job) (job : Job) (step : Step) (s : Slice) (p : Job)
    → runner_can_claim_slice now runner jobs job step s ≡ Claim.paused p
    → p ≡ (update_job_oversight_state job).job
unfolding runner_can_claim_slice
paused-review now runner jobs job step s p h = ground arith

allowed-start :
    (now : ℕ) (runner : Runner) (jobs : List Job) (job : Job) (step : Step) (s : Slice)
    → runner_can_claim_slice now runner jobs job step s ≡ Claim.allowed
    → (job_can_start job jobs ≡ true) × (is_dispatched job.status ≡ true)
unfolding runner_can_claim_slice
allowed-start now runner jobs job step s h = ground arith

IsStart-claimed :
    (now : ℕ) (runner : Runner) (jobs : List Job) (job : Job) (step : Step) (s : Slice)
    (token : String)
    → job_can_start job jobs ≡ true
    → is_dispatched job.status ≡ true
    → IsStart jobs job (claimed job (assign_slice now token runner job step s))
unfolding assign_slice is_fresh is_assigned
IsStart-claimed now runner jobs job step s token h d = record {
  same_id = ground arith;
  same_project = ground arith;
  same_policy = ground arith;
  busy_before = λ f e. dispatched-CanGo jobs job h d;
  stays_fresh = λ f. ground arith;
  same_queued_at = ground arith;
  active_before = λ a. ground arith;
  assigned_before = λ f e. inl (ground arith);
}

IsStart-after_claim :
    (now : ℕ) (runner : Runner) (jobs : List Job) (step : Step) (s : Slice) (token : String)
    (job : Job) (c : Claim)
    → runner_can_claim_slice now runner jobs job step s ≡ c
    → IsStart jobs job (after_claim now runner step s token job c)
IsStart-after_claim now runner jobs step s token job Claim.declined e =
    IsStart-quiet jobs job job (IsQuiet-refl job)
IsStart-after_claim now runner jobs step s token job (Claim.paused p) e =
    subst (IsStart jobs job) (sym (paused-review now runner jobs job step s p e))
      (IsStart-quiet jobs job _ (IsQuiet-review job))
IsStart-after_claim now runner jobs step s token job Claim.allowed e =
    let (h, d) = allowed-start now runner jobs job step s e in
    IsStart-claimed now runner jobs job step s token h d

pub IsStart-claim_remote :
    (now : ℕ) (runner : Runner) (jobs : List Job) (step : Step) (s : Slice) (token : String)
    (job : Job)
    → IsStart jobs job (claim_remote_on now runner jobs step s token job)
IsStart-claim_remote now runner jobs step s token job =
    IsStart-after_claim now runner jobs step s token job
      (runner_can_claim_slice now runner jobs job step s) refl

-- once the job could start, nothing that it does is a start too many
IsStart-begun :
    (now : ℕ) (runner : Runner) (jobs : List Job) (job looked : Job) (step : Step) (s : Slice)
    → IsQuiet job looked
    → job_can_start job jobs ≡ true
    → is_dispatched job.status ≡ true
    → IsStart jobs job (start_local_slice now looked step s runner).0
unfolding start_local_slice is_fresh is_assigned
IsStart-begun now runner jobs job looked step s q h d = record {
  same_id = ground (arith, q.same_id);
  same_project = ground (arith, q.same_project);
  same_policy = ground (arith, q.same_policy);
  busy_before = λ f e. dispatched-CanGo jobs job h d;
  stays_fresh = λ f. ground (arith, q.stays_fresh f);
  same_queued_at = ground (arith, q.same_queued_at);
  active_before = λ a. ground arith;
  assigned_before = λ f e. inl (q.assigned_before f (ground arith));
}

pub IsStart-claim_local :
    (now : ℕ) (runner : Runner) (ready : Bool) (jobs : List Job) (step : Step) (s : Slice)
    (job : Job)
    → IsStart jobs job (claim_local_on now runner ready jobs step s job)
IsStart-claim_local now runner ready jobs step s job =
    let settled = reconcile now job in
    let looked = update_job_oversight_state settled in
    let quiet : IsQuiet job looked.job =
      IsQuiet-trans job settled looked.job (IsQuiet-steps job settled.steps)
        (IsQuiet-review settled) in
    elim (Bool-cases (
      is_sliced_target job.dispatch_target
      && is_dispatched job.status
      && job_can_start job jobs
      && ready)) [
        | inr e ↦ simp e (IsStart-quiet jobs job job (IsQuiet-refl job))
        | inl e ↦ elim (Bool-cases looked.changed) [
          | inl c ↦ simp (e, c) (IsStart-quiet jobs job looked.job quiet)
          | inr c ↦
              simp (e, c)
                (IsStart-begun now runner jobs job looked.job step s quiet (ground arith)
                  (ground arith))
        ]
      ]

pub IsStart-claim_whole :
    (now : ℕ) (ready : Bool) (jobs : List Job) (job : Job)
    → IsStart jobs job (claim_whole_on now ready jobs job)
unfolding is_fresh is_busy is_assigned CanGo
IsStart-claim_whole now ready jobs job =
    elim (Bool-cases (
      is_queued job.status
      && is_local_target job.dispatch_target
      && job_can_start job jobs
      && ready)) [
        | inr e ↦ simp e (IsStart-quiet jobs job job (IsQuiet-refl job))
        | inl e ↦ simp e (record {
          same_id = refl;
          same_project = refl;
          same_policy = refl;
          busy_before = λ f b. inr (inl (ground arith, ground arith));
          stays_fresh = λ f. refl;
          same_queued_at = refl;
          active_before = λ a. ground arith;
          assigned_before = λ f a. absurd (ground arith);
        })
      ]
