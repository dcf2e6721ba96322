-- ===== src/System/Moves.antt =====
-- How each operation moves one job: which may make it execute, and which never do.
use journeyman.Base.{
  ℕ, Bool, true, false, ◌&&◌, ◌||◌, not, Option, List, [], ◌∷◌, String, ◌≡◌, refl, ◌∙◌, any, arith,
  is_none, Bool-cases, inl, inr,
}
use journeyman.Runner.{Runner}
use journeyman.Job.{Job, JobStatus, Step, Target, is_running}
use journeyman.Oversight.{
  is_waiting, is_closing, update_job_oversight_state, approve_current_oversight, pause,
}
use journeyman.Concurrency.{is_queued, is_active}
use journeyman.Lifecycle.{is_local_target, is_remote}
use journeyman.Lifecycle.Aggregate.{finalize_job_if_complete}
use journeyman.Lifecycle.Completion.{close_job, reconciled}
use journeyman.Cancellation.{cancel_job, finalize_abandoned_cancellation}

-- a job that runs, is being stopped, or goes on running once its oversight is completed
abbrev pub busy_with : JobStatus → Target → Option ℕ → Bool
busy_with JobStatus.running target started = true
busy_with JobStatus.cancelling target started = true
busy_with JobStatus.waiting_oversight target started =
    not (is_local_target target) && not (is_none started)
busy_with _ target started = false

unfoldable pub is_busy : Job → Bool
is_busy job = busy_with job.status job.dispatch_target job.started_at

-- a queued job has not started, unless the local runner executes it as a whole; a running one has
abbrev pub fresh_with : JobStatus → Target → Option ℕ → Bool
fresh_with JobStatus.queued target started = is_local_target target || is_none started
fresh_with JobStatus.running target started = not (is_none started)
fresh_with _ target started = true

unfoldable pub is_fresh : Job → Bool
is_fresh job = fresh_with job.status job.dispatch_target job.started_at

-- a job that a remote runner has as a whole, and that has not started
unfoldable pub is_assigned : Job → Bool
is_assigned job =
    (is_queued job.status || is_waiting job.status)
    && is_remote job.dispatch_target
    && is_none job.started_at
    && not (is_none job.assigned_runner_id)

-- a change of a job's row that starts nothing
pub record IsQuiet (job after : Job) : Type 0 where
  pub same_id : after.id ≡ job.id
  pub same_project : after.project_id ≡ job.project_id
  pub same_policy : after.concurrency_policy ≡ job.concurrency_policy
  pub busy_before : is_fresh job ≡ true → is_busy after ≡ true → is_busy job ≡ true
  pub stays_fresh : is_fresh job ≡ true → is_fresh after ≡ true
  pub same_queued_at : after.queued_at ≡ job.queued_at
  pub active_before : is_active after.status ≡ true → is_active job.status ≡ true
  pub assigned_before : is_fresh job ≡ true → is_assigned after ≡ true → is_assigned job ≡ true

pub IsQuiet-refl : (job : Job) → IsQuiet job job
IsQuiet-refl job = record {
  same_id = refl;
  same_project = refl;
  same_policy = refl;
  busy_before = λ f b. b;
  stays_fresh = λ f. f;
  same_queued_at = refl;
  active_before = λ a. a;
  assigned_before = λ f a. a;
}

pub IsQuiet-trans : (a b c : Job) → IsQuiet a b → IsQuiet b c → IsQuiet a c
IsQuiet-trans a b c h k = record {
  same_id = k.same_id ∙ h.same_id;
  same_project = k.same_project ∙ h.same_project;
  same_policy = k.same_policy ∙ h.same_policy;
  busy_before = λ f e. h.busy_before f (k.busy_before (h.stays_fresh f) e);
  stays_fresh = λ f. k.stays_fresh (h.stays_fresh f);
  same_queued_at = k.same_queued_at ∙ h.same_queued_at;
  active_before = λ a. h.active_before (k.active_before a);
  assigned_before = λ f a. h.assigned_before f (k.assigned_before (h.stays_fresh f) a);
}

IsQuiet-pause :
    (job : Job) (steps : List Step)
    → is_closing job.status ≡ false
    → IsQuiet job (pause job steps).job
unfolding is_busy is_fresh is_assigned
IsQuiet-pause job [] h = IsQuiet-refl job
IsQuiet-pause job (x ∷ xs) h = record {
  same_id = refl;
  same_project = refl;
  same_policy = refl;
  busy_before = λ f e. ground arith;
  stays_fresh = λ f. ground arith;
  same_queued_at = ground arith;
  active_before = λ a. ground arith;
  assigned_before = λ f a. ground arith;
}

pub IsQuiet-review : (job : Job) → IsQuiet job (update_job_oversight_state job).job
unfolding update_job_oversight_state
IsQuiet-review job = elim (Bool-cases job.oversight_required_between_all_steps) [
  | inr off ↦ simp off (IsQuiet-refl job)
  | inl on ↦ elim (Bool-cases (is_closing job.status)) [
    | inl c ↦ simp (on, c) (IsQuiet-refl job)
    | inr c ↦ elim (Bool-cases (any (λ s. is_running s.status) job.steps)) [
      | inl r ↦ simp (on, c, r) (IsQuiet-refl job)
      | inr r ↦ simp (on, c, r) (IsQuiet-pause job _ c)
    ]
  ]
]

-- new steps in a row
pub IsQuiet-steps : (job : Job) (steps : List Step) → IsQuiet job (record job { steps = steps })
unfolding is_busy is_fresh is_assigned
IsQuiet-steps job steps = record {
  same_id = refl;
  same_project = refl;
  same_policy = refl;
  busy_before = λ f e. e;
  stays_fresh = λ f. f;
  same_queued_at = refl;
  active_before = λ a. a;
  assigned_before = λ f a. a;
}

IsQuiet-finalize : (now : ℕ) (job : Job) → IsQuiet job (finalize_job_if_complete now job).0
unfolding finalize_job_if_complete is_busy is_fresh is_assigned
IsQuiet-finalize now job = record {
  same_id = ground arith;
  same_project = ground arith;
  same_policy = ground arith;
  busy_before = λ f e. ground arith;
  stays_fresh = λ f. ground arith;
  same_queued_at = ground arith;
  active_before = λ a. ground arith;
  assigned_before = λ f a. ground arith;
}

pub IsQuiet-close_job : (now : ℕ) (job : Job) → IsQuiet job (close_job now job)
unfolding close_job
IsQuiet-close_job now job =
    let settled = record job { steps = reconciled now job.steps } in
    let looked = (update_job_oversight_state settled).job in
    IsQuiet-trans job settled _ (IsQuiet-steps job (reconciled now job.steps))
      (IsQuiet-trans settled looked _ (IsQuiet-review settled) (IsQuiet-finalize now looked))

pub IsQuiet-approve : (job : Job) → IsQuiet job (approve_current_oversight job).0
unfolding approve_current_oversight is_busy is_fresh is_assigned
IsQuiet-approve job = record {
  same_id = ground arith;
  same_project = ground arith;
  same_policy = ground arith;
  busy_before = λ f e. ground arith;
  stays_fresh = λ f. ground arith;
  same_queued_at = ground arith;
  active_before = λ a. ground arith;
  assigned_before = λ f a. ground arith;
}

pub IsQuiet-cancel :
    (now : ℕ) (source : String) (job : Job) (runners : List Runner)
    → IsQuiet job (cancel_job now source job runners).job
unfolding cancel_job is_busy is_fresh is_assigned
IsQuiet-cancel now source job runners = record {
  same_id = ground arith;
  same_project = ground arith;
  same_policy = ground arith;
  busy_before = λ f e. ground arith;
  stays_fresh = λ f. ground arith;
  same_queued_at = ground arith;
  active_before = λ a. ground arith;
  assigned_before = λ f a. ground arith;
}

pub IsQuiet-recover :
    (now stale_seconds : ℕ) (job : Job)
    → IsQuiet job (finalize_abandoned_cancellation now stale_seconds job)
unfolding finalize_abandoned_cancellation is_busy is_fresh is_assigned
IsQuiet-recover now stale_seconds job = record {
  same_id = refl;
  same_project = refl;
  same_policy = refl;
  busy_before = λ f e. ground arith;
  stays_fresh = λ f. ground arith;
  same_queued_at = ground arith;
  active_before = λ a. ground arith;
  assigned_before = λ f a. ground arith;
}
