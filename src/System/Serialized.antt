-- ===== src/System/Serialized.antt =====
-- Whatever happens to the job table, a serialized Project has one job at work at a time.
use mathlib.Core.List.{Memᴰ}
use mathlib.Core.List.Memᴰ
use journeyman.Base.{
  ℕ, true, false, List, [], ◌∷◌, ◌≡◌, sym, ap, subst, ◌∙◌, arith, Bool-cases, inl, inr, ◌⊎◌,
}
use journeyman.Job.{Job, JobStatus}
use journeyman.Concurrency.{queued_le}
use journeyman.Lifecycle.Completion.{reconciled}
use journeyman.System.{
  Event, launch, claim_remote, claim_local, claim_whole, claim_job, start_job, complete_job, drain,
  progress, review, approve, cancel, recover, on_job, transact, run, is_new, is_last,
  can_be_launched, reconcile,
}
use journeyman.System.Moves.{
  is_busy, is_fresh, is_assigned, IsQuiet, IsQuiet-trans, IsQuiet-steps, IsQuiet-review,
  IsQuiet-close_job, IsQuiet-approve, IsQuiet-cancel,
}
use journeyman.System.Starts.{
  IsStart-quiet, IsStart-claim_remote, IsStart-claim_local, IsStart-claim_whole,
}
use journeyman.System.Handover.{IsStart-claim_job, IsStart-begin_job}
use journeyman.System.Remote.{IsQuiet-complete_job}
use journeyman.System.Pairs.{Rivals, IsFine}
use journeyman.System.Serial.{IsSerial, on_job-IsSerial, traced-IsSerial, recover-back, drain-back}

clash : true ≡ false → ⊥
clash e = cc

new-idle :
    (job : Job)
    → is_new job ≡ true
    → (is_busy job ≡ false) × (is_assigned job ≡ false) × (is_fresh job ≡ true)
unfolding is_busy is_assigned is_fresh
new-idle job h = ground arith

last-behind :
    (job y : Job) (jobs : List Job) → is_last job jobs ≡ true → Memᴰ y jobs → queued_le y job ≡ true
last-behind job y [] h m = absurd (Memᴰ.not-nil m)
last-behind job y (j ∷ js) h m = elim (Memᴰ.cases_cons m) [
  | inl e ↦ subst (λ x. queued_le x job ≡ true) (sym e) (ground arith)
  | inr k ↦ last-behind job y js (ground arith) k
]

two_ways-id : (x y : Job) → queued_le x y ≡ true → queued_le y x ≡ true → x.id ≡ y.id
two_ways-id x y h k = ground arith

-- a new row beside the others
new-IsFine : (job y : Job) → is_new job ≡ true → IsFine job y
new-IsFine job y h =
    let (idle, unassigned, fresh) = new-idle job h in
    record {
      alone = λ b. absurd (clash (sym b ∙ idle));
      idle = λ a. absurd (clash (sym a ∙ unassigned));
      ahead = λ a before. absurd (clash (sym a ∙ unassigned));
    }

IsFine-new :
    (job y : Job) (jobs : List Job)
    → is_new job ≡ true
    → is_last job jobs ≡ true
    → Memᴰ y jobs
    → Rivals y job
    → IsFine y job
IsFine-new job y jobs h last m r =
    let (idle, unassigned, fresh) = new-idle job h in
    record {
      alone = λ b. idle;
      idle = λ a. idle;
      ahead =
          λ a before. absurd (r.apart (two_ways-id y job (last-behind job y jobs last m) before));
    }

launch-IsSerial :
    (job : Job) (jobs : List Job)
    → is_new job ≡ true
    → is_last job jobs ≡ true
    → IsSerial jobs
    → IsSerial (job ∷ jobs)
launch-IsSerial job jobs h last inv = record {
  fine = λ x y mx my r. elim (Memᴰ.cases_cons mx) [
    | inl ex ↦ subst (λ j. IsFine j y) (sym ex) (new-IsFine job y h)
    | inr mx' ↦ elim (Memᴰ.cases_cons my) [
      | inl ey ↦
          subst (λ j. IsFine x j) (sym ey)
            (IsFine-new job x jobs h last mx' (subst (Rivals x) ey r))
      | inr my' ↦ inv.fine x y mx' my' r
    ]
  ];
  fresh = λ x mx. elim (Memᴰ.cases_cons mx) [
    | inl e ↦ ap is_fresh e ∙ (new-idle job h).2
    | inr mx' ↦ inv.fresh x mx'
  ];
}

on_quiet :
    (jobs : List Job) (id : ℕ) (f : Job → Job)
    → ((j : Job) → IsQuiet j (f j))
    → IsSerial jobs
    → IsSerial (on_job id f jobs)
on_quiet jobs id f q = on_job-IsSerial jobs id f (λ j. IsStart-quiet jobs j (f j) (q j))

-- every transaction keeps the invariant
transact-IsSerial : (e : Event) (jobs : List Job) → IsSerial jobs → IsSerial (transact e jobs)
unfolding transact
transact-IsSerial (launch job) jobs inv = elim (Bool-cases (can_be_launched job jobs)) [
  | inr e ↦ simp e inv
  | inl e ↦ simp e (launch-IsSerial job jobs (ground arith) (ground arith) inv)
]
transact-IsSerial (claim_remote now runner id step s token) jobs inv =
    on_job-IsSerial jobs id _ (IsStart-claim_remote now runner jobs step s token) inv
transact-IsSerial (claim_local now runner ready id step s) jobs inv =
    on_job-IsSerial jobs id _ (IsStart-claim_local now runner ready jobs step s) inv
transact-IsSerial (claim_whole now ready id) jobs inv =
    on_job-IsSerial jobs id _ (IsStart-claim_whole now ready jobs) inv
transact-IsSerial (claim_job py now runner id token) jobs inv =
    on_job-IsSerial jobs id _ (IsStart-claim_job py now runner token jobs) inv
transact-IsSerial (start_job now runner id token) jobs inv =
    on_job-IsSerial jobs id _ (IsStart-begin_job now runner token jobs) inv
transact-IsSerial (complete_job py now runner id token payload) jobs inv =
    on_quiet jobs id _ (IsQuiet-complete_job py now runner token payload) inv
transact-IsSerial (drain runner_id) jobs inv =
    traced-IsSerial jobs _ (drain-back runner_id jobs) inv
transact-IsSerial (progress now id steps) jobs inv =
    on_quiet jobs id _
      (λ j.
        let moved = record j { steps = steps } in
        IsQuiet-trans j moved _ (IsQuiet-steps j steps) (IsQuiet-close_job now moved))
      inv
transact-IsSerial (review now id) jobs inv =
    on_quiet jobs id _
      (λ j.
        IsQuiet-trans j (reconcile now j) _ (IsQuiet-steps j (reconciled now j.steps))
          (IsQuiet-review (reconcile now j)))
      inv
transact-IsSerial (approve id) jobs inv = on_quiet jobs id _ IsQuiet-approve inv
transact-IsSerial (cancel now source id) jobs inv =
    on_quiet jobs id _ (λ j. IsQuiet-cancel now source j []) inv
transact-IsSerial (recover now configured runners) jobs inv =
    traced-IsSerial jobs _ (recover-back now configured jobs runners) inv

run-IsSerial : (es : List Event) (jobs : List Job) → IsSerial jobs → IsSerial (run es jobs)
unfolding run
run-IsSerial [] jobs inv = inv
run-IsSerial (e ∷ es) jobs inv = run-IsSerial es (transact e jobs) (transact-IsSerial e jobs inv)

IsSerial-empty : IsSerial []
IsSerial-empty = record {
  fine = λ x y mx my r. absurd (Memᴰ.not-nil mx);
  fresh = λ x mx. absurd (Memᴰ.not-nil mx);
}

-- running, or being stopped
unfoldable pub IsAtWork : Job → Type 0
IsAtWork j = (j.status ≡ JobStatus.running) ⊎ (j.status ≡ JobStatus.cancelling)

work-is_busy : (j : Job) → IsAtWork j → is_busy j ≡ true
unfolding is_busy IsAtWork
work-is_busy j h = ground arith

-- From an empty table, whatever launches, claims of slices and of whole jobs, starts, reports, reviews,
-- approvals, drains, stops and recoveries follow in whatever order: while a serialized job is running
-- or being stopped, no other serialized job of its Project is. A launch counts only if its row stands
-- last by the time of queuing and then by the id.
pub run-serialized :
    (es : List Event) (x y : Job)
    → Memᴰ x (run es [])
    → Memᴰ y (run es [])
    → Rivals x y
    → IsAtWork x
    → ¬ IsAtWork y
run-serialized es x y mx my r wx wy =
    let f = (run-IsSerial es [] IsSerial-empty).fine x y mx my r in
    clash (sym (work-is_busy y wy) ∙ f.alone (work-is_busy x wx))
