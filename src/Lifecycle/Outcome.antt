-- ===== src/Lifecycle/Outcome.antt =====
-- How slices decide their step, and steps their job.
use journeyman.Base.{
  ℕ, Bool, true, false, ◌≡◌, refl, ◌↔◌, inl, inr, ◌||◌, not, List, [], ◌∷◌, any, All, arith,
  Bool-cases,
}
use mathlib.Core.Bool.{false≢true, true≢false}
use journeyman.Job.{
  Job, JobStatus, Step, StepStatus, Slice, SliceStatus, is_final, is_terminal, is_cancelled,
  is_blocked,
}
use journeyman.Workflow.{has_failure_branch}
use journeyman.Lifecycle.{is_slice_failed, is_slice_cancelled, is_cancelling}
use journeyman.Lifecycle.Aggregate.{
  slices_open, slices_status, aggregate_step, unfinished, is_unhandled, finalize_job_if_complete,
}

none_true : {A : Type 0} (p : A → Bool) (xs : List A) → any p xs ≡ false → All (λ x. p x ≡ false) xs
none_true p [] h = tt
none_true p (x ∷ xs) h = (ground arith, none_true p xs (ground arith))

All-false : {A : Type 0} (p : A → Bool) (xs : List A) → All (λ x. p x ≡ false) xs → any p xs ≡ false
All-false p [] h = refl
All-false p (x ∷ xs) h = ground (arith, All-false p xs h.1)

is_slice_successful : SliceStatus → Bool
is_slice_successful SliceStatus.successful = true
is_slice_successful _ = false

All-successful :
    (ss : List Slice)
    → any (λ s. not (is_final s.status)) ss ≡ false
    → any (λ s. is_slice_failed s.status) ss ≡ false
    → any (λ s. is_slice_cancelled s.status) ss ≡ false
    → All (λ s. s.status ≡ SliceStatus.successful) ss
All-successful [] f g h = tt
All-successful (s ∷ ss) f g h =
    (ground arith, All-successful ss (ground arith) (ground arith) (ground arith))

successful_none :
    (ss : List Slice)
    → All (λ s. s.status ≡ SliceStatus.successful) ss
    → (any (λ s. is_slice_failed s.status) ss ≡ false)
      × (any (λ s. is_slice_cancelled s.status) ss ≡ false)
      × (any (λ s. not (is_final s.status)) ss ≡ false)
successful_none [] h = (refl, refl, refl)
successful_none (s ∷ ss) h = ground (arith, successful_none ss h.1)

open_none :
    (ss : List Slice) → slices_open ss ≡ false → any (λ s. not (is_final s.status)) ss ≡ false
open_none [] h = refl
open_none (s ∷ ss) h = h

slices_status-successful :
    (ss : List Slice)
    → slices_open ss ≡ false
    → (slices_status ss ≡ StepStatus.successful) ↔ All (λ s. s.status ≡ SliceStatus.successful) ss
slices_status-successful ss h = (forth, λ all_done. ground (arith, successful_none ss all_done))
  where
    forth :
        slices_status ss ≡ StepStatus.successful → All (λ s. s.status ≡ SliceStatus.successful) ss
    forth e = All-successful ss (open_none ss h) (ground arith) (ground arith)

-- A step is aggregated exactly if it has slices and all of them are final, and is left as it is
-- otherwise. Once aggregated it is successful exactly if every slice is successful, and failed exactly
-- if some slice failed.
pub aggregate_step-status :
    (now : ℕ) (step : Step)
    → let (after, finished) = aggregate_step now step in
      (finished ≡ not (slices_open step.execution_slices))
      × (finished ≡ false → after ≡ step)
      × (finished ≡ true
          → ((after.status ≡ StepStatus.successful)
              ↔ All (λ s. s.status ≡ SliceStatus.successful) step.execution_slices)
            × ((after.status ≡ StepStatus.failed)
                ↔ (any (λ s. is_slice_failed s.status) step.execution_slices ≡ true)))
unfolding aggregate_step
aggregate_step-status now step = elim (Bool-cases (slices_open step.execution_slices)) [
  | inl e ↦ rw e (refl, (λ _. refl), λ f. absurd (false≢true f))
  | inr e ↦ rw e (
    refl,
    (λ f. absurd (true≢false f)),
    λ _. (slices_status-successful step.execution_slices e, (λ s. ground arith, λ s. ground arith)),
  )
]

-- a step that does not stand in the way of a successful job
abbrev pub is_fine : List Step → Step → Bool
is_fine steps s = elim s.status [
  | StepStatus.successful ↦ true
  | StepStatus.skipped ↦ true
  | StepStatus.failed ↦ has_failure_branch s steps
  | _ ↦ false
]

-- the three kinds of step that do
fine_none :
    (all_steps steps : List Step)
    → (any (λ s. not (is_terminal s.status)) steps ≡ false)
    → (any (λ s. is_cancelled s.status) steps ≡ false)
    → (any (is_unhandled all_steps) steps ≡ false)
    → (any (λ s. is_blocked s.status) steps ≡ false)
    → All (λ s. is_fine all_steps s ≡ true) steps
fine_none all_steps [] a b c d = tt
fine_none all_steps (s ∷ steps) a b c d = (
  ground arith,
  fine_none all_steps steps (ground arith) (ground arith) (ground arith) (ground arith),
)

fine-All :
    (all_steps steps : List Step)
    → All (λ s. is_fine all_steps s ≡ true) steps
    → (any (λ s. is_cancelled s.status) steps ≡ false)
      × (any (is_unhandled all_steps) steps ≡ false)
      × (any (λ s. is_blocked s.status) steps ≡ false)
fine-All all_steps [] h = (refl, refl, refl)
fine-All all_steps (s ∷ steps) h = ground (arith, fine-All all_steps steps h.1)

module _ (now : ℕ) (job : Job) (e : unfinished job.steps ≡ false) where
  finalize_fine :
      (finalize_job_if_complete now job).0.status ≡ JobStatus.successful
      → (is_cancelling job.status ≡ false) × All (λ s. is_fine job.steps s ≡ true) job.steps
  unfolding finalize_job_if_complete
  finalize_fine s =
      (ground arith, fine_none job.steps job.steps e (ground arith) (ground arith) (ground arith))

  fine_finalize :
      (is_cancelling job.status ≡ false) × All (λ s. is_fine job.steps s ≡ true) job.steps
      → (finalize_job_if_complete now job).0.status ≡ JobStatus.successful
  unfolding finalize_job_if_complete
  fine_finalize (open_job, fine) = ground (arith, fine-All job.steps job.steps fine)

  finalize_cancelled :
      ((finalize_job_if_complete now job).0.status ≡ JobStatus.cancelled)
      ↔ ((is_cancelling job.status || any (λ s. is_cancelled s.status) job.steps) ≡ true)
  unfolding finalize_job_if_complete
  finalize_cancelled = (λ s. ground arith, λ s. ground arith)

finished_of :
    (now : ℕ) (job : Job)
    → (finalize_job_if_complete now job).1 ≡ true
    → unfinished job.steps ≡ false
unfolding finalize_job_if_complete
finished_of now job h = ground arith

-- A job is finalized exactly if every step has a terminal status, and is left as it is otherwise.
-- It is then successful exactly if it was not being cancelled and every step is successful, skipped,
-- or failed with a failure branch; it is cancelled exactly if it was being cancelled or some step is
-- cancelled.
pub finalize_job_if_complete-status :
    (now : ℕ) (job : Job)
    → let (after, done) = finalize_job_if_complete now job in
      (done ≡ not (unfinished job.steps))
      × (done ≡ false → after ≡ job)
      × (done ≡ true
          → ((after.status ≡ JobStatus.successful) ↔ (
              (is_cancelling job.status ≡ false) × All (λ s. is_fine job.steps s ≡ true) job.steps))
            × ((after.status ≡ JobStatus.cancelled) ↔ (
                (is_cancelling job.status || any (λ s. is_cancelled s.status) job.steps) ≡ true)))
unfolding finalize_job_if_complete
finalize_job_if_complete-status now job = (
  ground arith,
  λ f. ground arith,
  λ d.
      let e = finished_of now job d in
      ((finalize_fine now job e, fine_finalize now job e), finalize_cancelled now job e),
)
