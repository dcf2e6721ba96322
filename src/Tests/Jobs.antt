-- ===== src/Tests/Jobs.antt =====
-- Witnesses on the outcome, the queue, the cancellation and the claim of jobs.
use journeyman.Base.{
  true, false, ◌&&◌, ◌||◌, not, none, some, [], ◌∷◌, ◌≡◌, ◌≢◌, ◌↔◌, ◌⊎◌, inl, ◌<◌, refl, arith, All,
  All₂, any, if◌then◌else◌,
}
use mathlib.Core.List.{Memᴰ}
use journeyman.Tests.{
  runner, slice_of, job_of, done_step, failed_step, next_step, busy_job, busy_step, reviewed_step,
}
use journeyman.Runner.{Health, runner_health, runner_environment_ready, is_subset}
use journeyman.Job.{
  Job, JobStatus, StepStatus, Slice, SliceStatus, Policy, is_running, is_cancelled, step_at,
}
use journeyman.Workflow.{DependencyState, dependency_state}
use journeyman.Oversight.{update_job_oversight_state, oversight_candidates}
use journeyman.Concurrency.{launch_blocking_job, serialized_blocking_job, job_can_start}
use journeyman.Concurrency.Exclusion.{serialized_at_most_one}
use journeyman.Concurrency.Blockers.{
  LetsStart, HasSameParameters, IsOver, job_can_start-queue_iff, launch_blocking_job-clear_iff,
}
use journeyman.Lifecycle.{is_slice_failed}
use journeyman.Lifecycle.Aggregate.{
  aggregate_step, finalize_job_if_complete, unfinished, slices_open,
}
use journeyman.Lifecycle.Outcome.{aggregate_step-status, finalize_job_if_complete-status, is_fine}
use journeyman.Cancellation.{cancel_job, recover_stale_cancelling_jobs, effective_stale_seconds}
use journeyman.Cancellation.Laws.{
  AfterCancel, cancel_job-AfterCancel, IsRecovery, recover_stale_cancelling_jobs-IsRecovery,
}
use journeyman.Cancellation.Stale.{IsSettled, recover_stale_cancelling_jobs-IsSettled}
use journeyman.Claim.{Claim, runner_can_claim_slice, runner_may_take, step_may_run}
use journeyman.Claim.Guards.{
  runner_can_claim_slice-guards, runner_can_claim_slice-oversight, runner_can_claim_slice-unguarded,
}

-- two queued jobs of one serialized Project, and one that runs
abbrev first_job : Job
first_job = job_of 5 JobStatus.queued (done_step ∷ next_step ∷ [])

abbrev second_job : Job
second_job = record (job_of 6 JobStatus.queued (next_step ∷ [])) { queued_at = 200 }

abbrev running_job : Job
running_job = job_of 5 JobStatus.running (done_step ∷ next_step ∷ [])

abbrev finished_job : Job
finished_job = job_of 5 JobStatus.running (done_step ∷ failed_step ∷ [])

abbrev hanging_job : Job
hanging_job = record (job_of 5 JobStatus.cancelling (done_step ∷ busy_step ∷ [])) {
  cancel_requested_at = some 100;
}

finalize_job_if_complete-status_example :
    let (after, done) = finalize_job_if_complete 1000 finished_job in
    (done ≡ not (unfinished (done_step ∷ failed_step ∷ [])))
    × (done ≡ false → after ≡ finished_job)
    × (done ≡ true
        → ((after.status ≡ JobStatus.successful)
            ↔ ((false ≡ false) × All (λ s. is_fine finished_job.steps s ≡ true) finished_job.steps))
          × ((after.status ≡ JobStatus.cancelled)
              ↔ ((false || any (λ s. is_cancelled s.status) finished_job.steps) ≡ true)))
finalize_job_if_complete-status_example = finalize_job_if_complete-status 1000 finished_job

aggregate_step-status_example :
    let (after, finished) = aggregate_step 1000 busy_step in
    (finished ≡ not (slices_open busy_step.execution_slices))
    × (finished ≡ false → after ≡ busy_step)
    × (finished ≡ true
        → ((after.status ≡ StepStatus.successful)
            ↔ All (λ s. s.status ≡ SliceStatus.successful) busy_step.execution_slices)
          × ((after.status ≡ StepStatus.failed)
              ↔ (any (λ s. is_slice_failed s.status) busy_step.execution_slices ≡ true)))
aggregate_step-status_example = aggregate_step-status 1000 busy_step

differs : first_job.id ≢ second_job.id
differs h = omega arith

serialized_at_most_one_example : ¬ (
    (job_can_start first_job (first_job ∷ second_job ∷ []) ≡ true)
    × (job_can_start second_job (first_job ∷ second_job ∷ []) ≡ true))
serialized_at_most_one_example =
    serialized_at_most_one first_job second_job (first_job ∷ second_job ∷ []) (Memᴰ.head refl)
      (Memᴰ.tail (Memᴰ.head refl)) refl refl refl differs refl refl

job_can_start-queue_iff_example :
    (job_can_start second_job (first_job ∷ second_job ∷ []) ≡ true)
    ↔ All
        (λ j.
          j.project_id ≡ second_job.project_id
          → j.id ≢ second_job.id
          → LetsStart j.status second_job j)
        (first_job ∷ second_job ∷ [])
job_can_start-queue_iff_example =
    job_can_start-queue_iff second_job (first_job ∷ second_job ∷ []) refl

may_start : job_can_start first_job (first_job ∷ second_job ∷ []) ≡ true
unfolding job_can_start serialized_blocking_job
may_start = refl

differs_back : second_job.id ≢ first_job.id
differs_back h = omega arith

launch_blocking_job-clear_iff_example :
    (launch_blocking_job (some 3) Policy.exclusive "" (some 6) (first_job ∷ second_job ∷ []) ≡ none)
    ↔ All
        (λ j.
          j.project_id ≡ 3
          → some 6 ≢ some j.id
          → HasSameParameters Policy.exclusive "" j.concurrency_signature
          → IsOver j.status)
        (first_job ∷ second_job ∷ [])
launch_blocking_job-clear_iff_example =
    launch_blocking_job-clear_iff 3 Policy.exclusive "" (some 6) (first_job ∷ second_job ∷ [])
      (inl refl)

cancel_job-AfterCancel_example :
    AfterCancel JobStatus.running running_job
      (cancel_job 1000 "the web" running_job (runner ∷ [])).job
cancel_job-AfterCancel_example = cancel_job-AfterCancel 1000 "the web" running_job (runner ∷ [])

recover_stale_cancelling_jobs-IsRecovery_example :
    All₂
      (IsRecovery 1000 (effective_stale_seconds 300))
      (hanging_job ∷ running_job ∷ [])
      (recover_stale_cancelling_jobs 1000 300 (hanging_job ∷ running_job ∷ []) (runner ∷ [])).0
recover_stale_cancelling_jobs-IsRecovery_example =
    recover_stale_cancelling_jobs-IsRecovery 1000 300 (hanging_job ∷ running_job ∷ []) (runner ∷ [])

recover_stale_cancelling_jobs-IsSettled_example :
    All₂
      (IsSettled 1000 (effective_stale_seconds 300) (runner ∷ []))
      (hanging_job ∷ running_job ∷ [])
      (recover_stale_cancelling_jobs 1000 300 (hanging_job ∷ running_job ∷ []) (runner ∷ [])).0
recover_stale_cancelling_jobs-IsSettled_example =
    recover_stale_cancelling_jobs-IsSettled 1000 300 (hanging_job ∷ running_job ∷ []) (runner ∷ [])

abbrev waiting_slice : Slice
waiting_slice = slice_of SliceStatus.pending

is_allowed :
    runner_can_claim_slice 1000 runner (running_job ∷ []) running_job next_step waiting_slice
    ≡ Claim.allowed
unfolding runner_can_claim_slice update_job_oversight_state job_can_start serialized_blocking_job
    runner_health dependency_state step_at
is_allowed = refl

runner_can_claim_slice-guards_example :
    (runner.drain_job_id ≡ none)
    × (runner_health 1000 runner ≡ Health.healthy)
    × (runner.running_steps < runner.max_concurrent_steps)
    × (serialized_blocking_job running_job (running_job ∷ []) ≡ none)
    × (dependency_state next_step running_job.steps ≡ DependencyState.eligible)
    × (is_subset waiting_slice.required_capabilities runner.capabilities ≡ true)
    × ((next_step.is_shell || runner_environment_ready runner next_step.requirement) ≡ true)
runner_can_claim_slice-guards_example =
    runner_can_claim_slice-guards 1000 runner (running_job ∷ []) running_job next_step waiting_slice
      is_allowed

runner_can_claim_slice-oversight_example :
    (oversight_candidates running_job ≡ [])
    ⊎ (any (λ x. is_running x.status) running_job.steps ≡ true)
runner_can_claim_slice-oversight_example =
    runner_can_claim_slice-oversight 1000 runner (running_job ∷ []) running_job next_step
      waiting_slice is_allowed

runner_can_claim_slice-unguarded_example :
    runner_can_claim_slice 1000 runner (busy_job ∷ []) busy_job reviewed_step waiting_slice ≡ (
      if runner_may_take 1000 runner (busy_job ∷ []) busy_job waiting_slice
        && step_may_run runner busy_job reviewed_step waiting_slice
      then Claim.allowed
      else Claim.declined)
runner_can_claim_slice-unguarded_example =
    runner_can_claim_slice-unguarded 1000 runner (busy_job ∷ []) busy_job reviewed_step
      waiting_slice refl

-- the step awaits a review, and may be claimed all the same
unreviewed_is_claimed :
    runner_can_claim_slice 1000 runner (busy_job ∷ []) busy_job reviewed_step waiting_slice
    ≡ Claim.allowed
unfolding runner_can_claim_slice update_job_oversight_state job_can_start serialized_blocking_job
    runner_health dependency_state step_at
unreviewed_is_claimed = refl

unreviewed_is_a_candidate : oversight_candidates busy_job ≡ reviewed_step ∷ []
unfolding oversight_candidates dependency_state step_at
unreviewed_is_a_candidate = refl
