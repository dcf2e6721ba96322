-- ===== src/Cancellation/Laws.antt =====
-- What stopping a job and recovering a job that hangs in `cancelling` achieve:
-- app/services/job_cancellation.py.
use journeyman.Base.{
  ℕ, true, false, ◌&&◌, ◌||◌, List, [], ◌∷◌, String, map, ◌≡◌, refl, is_none, ◌⊎◌, inl, inr, All,
  All₂, arith, Bool-cases,
}
use journeyman.Runner.{Runner, release_runner_drain_for_job}
use journeyman.Job.{Job, JobStatus, Step, Slice, is_pending, is_terminal, is_final}
use journeyman.Lifecycle.{is_slice_pending, is_slice_assigned}
use journeyman.Cancellation.{
  cancel_job, cancel_again, all_cancelled, drop_slice, drop_step, stop_slice, stop_step,
  abandon_slice, abandon_step, finalize_abandoned_cancellation, recover_stale_cancelling_jobs,
  is_recovered, is_stale, effective_stale_seconds,
}

pub IsDropped : Slice → Type 0
IsDropped s = (is_slice_pending s.status || is_slice_assigned s.status) ≡ false

pub HasNothingToStart : Step → Type 0
HasNothingToStart step = (is_pending step.status ≡ false) × All IsDropped step.execution_slices

pub IsStopped : Slice → Type 0
IsStopped s = is_slice_pending s.status ≡ false

pub IsAbandoned : Step → Type 0
IsAbandoned step =
    (is_terminal step.status ≡ true) × All (λ s. is_final s.status ≡ true) step.execution_slices

-- a predicate that a function establishes on every item
establishes :
    {A : Type 0} (P : A → Type 0) (f : A → A) (h : (x : A) → P (f x)) (xs : List A)
    → All P (map f xs)
establishes P f h [] = tt
establishes P f h (x ∷ xs) = (h x, establishes P f h xs)

drop_slice-IsDropped : (now : ℕ) (s : Slice) → IsDropped (drop_slice now s)
unfolding IsDropped
drop_slice-IsDropped now s = ground arith

drop_step-HasNothingToStart : (now : ℕ) (step : Step) → HasNothingToStart (drop_step now step)
unfolding HasNothingToStart
drop_step-HasNothingToStart now step = elim (Bool-cases (is_pending step.status)) [
  | inl e ↦ rw e (
    refl,
    establishes IsDropped (drop_slice now) (drop_slice-IsDropped now) step.execution_slices,
  )
  | inr e ↦
      rw e
        (e, establishes IsDropped (drop_slice now) (drop_slice-IsDropped now) step.execution_slices)
]

stop_slice-IsStopped : (now : ℕ) (s : Slice) → IsStopped (stop_slice now s)
unfolding IsStopped
stop_slice-IsStopped now s = ground arith

HasOnlyStopped : Step → Type 0
HasOnlyStopped step = All IsStopped step.execution_slices

stop_step-HasOnlyStopped : (now : ℕ) (step : Step) → HasOnlyStopped (stop_step now step)
unfolding HasOnlyStopped
stop_step-HasOnlyStopped now step =
    elim (Bool-cases
      (is_pending step.status && all_cancelled (map (stop_slice now) step.execution_slices))) [
        | inl e ↦ rw e (
            establishes IsStopped (stop_slice now) (stop_slice-IsStopped now) step.execution_slices)
        | inr e ↦ rw e (
            establishes IsStopped (stop_slice now) (stop_slice-IsStopped now) step.execution_slices)
      ]

cancel_again-keeps :
    (now : ℕ) (job : Job) (runners : List Runner)
    → ((cancel_again now job runners).job.status ≡ job.status)
      × ((cancel_again now job runners).job.steps ≡ job.steps)
cancel_again-keeps now job runners = elim (Bool-cases (is_none job.cancel_requested_at)) [
  | inl k ↦ rw k (refl, refl)
  | inr k ↦ rw k (refl, refl)
]

-- what `cancel_job` leaves, by the status that it finds
pub AfterCancel : JobStatus → Job → Job → Type 0
AfterCancel JobStatus.queued job job' =
    (job'.status ≡ JobStatus.cancelled) × All HasNothingToStart job'.steps
AfterCancel JobStatus.waiting_oversight job job' =
    (job'.status ≡ JobStatus.cancelled) × All HasNothingToStart job'.steps
AfterCancel JobStatus.running job job' =
    (job'.status ≡ JobStatus.cancelling) × All HasOnlyStopped job'.steps
AfterCancel _ job job' = (job'.status ≡ job.status) × (job'.steps ≡ job.steps)

-- `cancel_job`, for every job: one that is queued or waits for oversight becomes cancelled, and none
-- of its steps is pending and none of its slices pending or assigned any more; a running one becomes
-- cancelling and has no pending slice left that a runner could claim; any other keeps its status and
-- its steps.
pub cancel_job-AfterCancel :
    (now : ℕ) (source : String) (job : Job) (runners : List Runner)
    → AfterCancel job.status job (cancel_job now source job runners).job
unfolding AfterCancel cancel_job
cancel_job-AfterCancel now source job runners = after job.status refl
  where
    after :
        (st : JobStatus)
        → job.status ≡ st
        → AfterCancel job.status job (cancel_job now source job runners).job
    after JobStatus.queued e = rw e (
      refl,
      establishes HasNothingToStart (drop_step now) (drop_step-HasNothingToStart now) job.steps,
    )
    after JobStatus.waiting_oversight e = rw e (
      refl,
      establishes HasNothingToStart (drop_step now) (drop_step-HasNothingToStart now) job.steps,
    )
    after JobStatus.running e =
        rw e (
          refl,
          establishes HasOnlyStopped (stop_step now) (stop_step-HasOnlyStopped now) job.steps,
        )
    after JobStatus.cancelling e =
        rw e (cancel_again-keeps now (record job { status = JobStatus.cancelling }) runners)
    after JobStatus.successful e = rw e (refl, refl)
    after JobStatus.failed e = rw e (refl, refl)
    after JobStatus.cancelled e = rw e (refl, refl)

abandon_slice-is_final : (now : ℕ) (s : Slice) → is_final (abandon_slice now s).status ≡ true
abandon_slice-is_final now s = ground arith

abandon_step-IsAbandoned : (now : ℕ) (step : Step) → IsAbandoned (abandon_step now step)
unfolding IsAbandoned
abandon_step-IsAbandoned now step = elim (Bool-cases (is_terminal step.status)) [
  | inl e ↦ rw e (
    e,
    establishes (λ s. is_final s.status ≡ true) (abandon_slice now) (abandon_slice-is_final now)
        step.execution_slices,
  )
  | inr e ↦ rw e (
    refl,
    establishes (λ s. is_final s.status ≡ true) (abandon_slice now) (abandon_slice-is_final now)
        step.execution_slices,
  )
]

-- how the recovery may change one job: not at all, or, if the stop was requested at least
-- `stale_seconds` ago, to a cancelled job in which no step and no slice is open
pub IsRecovery : ℕ → ℕ → Job → Job → Type 0
IsRecovery now stale_seconds job job' =
    (job' ≡ job)
    ⊎ ((is_stale now stale_seconds job ≡ true)
        × (job'.status ≡ JobStatus.cancelled)
        × All IsAbandoned job'.steps)

-- `recover_stale_cancelling_jobs`, over all jobs: it leaves each job as it is, or the job was
-- cancelling, its stop was requested at least max(60, configured) seconds ago, and it ends cancelled
-- with every step terminal and every slice final.
pub recover_stale_cancelling_jobs-IsRecovery :
    (now configured : ℕ) (jobs : List Job) (runners : List Runner)
    → All₂
        (IsRecovery now (effective_stale_seconds configured))
        jobs
        (recover_stale_cancelling_jobs now configured jobs runners).0
unfolding recover_stale_cancelling_jobs IsRecovery finalize_abandoned_cancellation
recover_stale_cancelling_jobs-IsRecovery now configured [] runners = tt
recover_stale_cancelling_jobs-IsRecovery now configured (job ∷ jobs) runners =
    elim (Bool-cases (is_recovered now (effective_stale_seconds configured) runners job)) [
      | inl e ↦ rw e (
        inr (
          ground arith,
          refl,
          establishes IsAbandoned (abandon_step now) (abandon_step-IsAbandoned now) job.steps,
        ),
        recover_stale_cancelling_jobs-IsRecovery now configured jobs
            (release_runner_drain_for_job job.id runners),
      )
      | inr e ↦
          rw e (inl refl, recover_stale_cancelling_jobs-IsRecovery now configured jobs runners)
    ]
