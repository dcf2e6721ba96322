-- ===== src/System/Remote.antt =====
-- The completion of a whole remote job and the drain of a runner start nothing.
use journeyman.Base.{ℕ, ◌&&◌, Option, none, some, List, String, refl, arith, Bool-cases, inl, inr}
use journeyman.Base.Text.{ℤ, Items, Fields, Python}
use journeyman.Runner.{Runner}
use journeyman.Job.{Job, JobStatus, Step}
use journeyman.Lifecycle.{Reason, is_cancelling}
use journeyman.Lifecycle.Report.{Final, Checked, ok, refused}
use journeyman.Dispatch.{job_assignment_matches, is_started}
use journeyman.Dispatch.Report.{
  has_job_status, finished_job, put_results, parsed_completion, answer_written, write_completion,
  complete_job_rows, complete_job_as, complete_remote_job,
}
use journeyman.Draining.{unassign_job}
use journeyman.System.Moves.{is_busy, is_fresh, is_assigned, IsQuiet, IsQuiet-refl, IsQuiet-steps}

IsQuiet-finished :
    (py : Python) (now : ℕ) (job : Job) (payload : Fields) (requested : Final) (code : Option ℤ)
    (steps : List Step)
    → IsQuiet job (finished_job py now job payload requested code steps)
unfolding is_busy is_fresh is_assigned
IsQuiet-finished py now job payload requested code steps = record {
  same_id = refl;
  same_project = refl;
  same_policy = refl;
  busy_before = λ f b. ground arith;
  stays_fresh = λ f. ground arith;
  same_queued_at = refl;
  active_before = λ a. ground arith;
  assigned_before = λ f a. ground arith;
}

written-IsQuiet :
    (py : Python) (now : ℕ) (job : Job) (payload : Fields) (requested : Final) (code : Option ℤ)
    (written : List Step × Option Reason)
    → IsQuiet job (answer_written py now job payload requested code written).0
written-IsQuiet py now job payload requested code (steps, none) =
    IsQuiet-finished py now job payload requested code steps
written-IsQuiet py now job payload requested code (steps, some r) = IsQuiet-steps job steps

completion-IsQuiet :
    (py : Python) (now : ℕ) (job : Job) (payload : Fields) (requested : Final)
    (checked : Checked (Option ℤ × Items))
    → IsQuiet job (write_completion py now job payload requested checked).0
completion-IsQuiet py now job payload requested (ok (code, items)) =
    written-IsQuiet py now job payload requested code (put_results py now job items job.steps)
completion-IsQuiet py now job payload requested (refused r) = IsQuiet-refl job

rows-IsQuiet :
    (py : Python) (now : ℕ) (job : Job) (payload : Fields) (requested : Final)
    → IsQuiet job (complete_job_rows py now job payload requested).0
unfolding complete_job_rows
rows-IsQuiet py now job payload requested =
    completion-IsQuiet py now job payload requested (parsed_completion py now payload)

complete_job_as-IsQuiet :
    (py : Python) (now : ℕ) (job : Job) (payload : Fields) (parsed : Option Final)
    → IsQuiet job (complete_job_as py now job payload parsed).0
complete_job_as-IsQuiet py now job payload none = IsQuiet-refl job
complete_job_as-IsQuiet py now job payload (some requested) =
    elim (Bool-cases (is_started job.status)) [
      | inr e ↦ elim (Bool-cases (has_job_status requested job.status)) [
        | inl k ↦ simp (e, k) (IsQuiet-refl job)
        | inr k ↦ simp (e, k) (IsQuiet-refl job)
      ]
      | inl e ↦
          elim (Bool-cases
            (is_cancelling job.status && has_job_status requested JobStatus.successful)) [
              | inl k ↦ simp (e, k) (IsQuiet-refl job)
              | inr k ↦ simp (e, k) (rows-IsQuiet py now job payload requested)
            ]
    ]

pub IsQuiet-complete_job :
    (py : Python) (now : ℕ) (runner : Runner) (token : String) (payload : Fields) (job : Job)
    → IsQuiet job (complete_remote_job py now job runner token payload).0
unfolding complete_remote_job
IsQuiet-complete_job py now runner token payload job =
    elim (Bool-cases (job_assignment_matches job runner token)) [
      | inr e ↦ simp e (IsQuiet-refl job)
      | inl e ↦ simp e (complete_job_as-IsQuiet py now job payload _)
    ]

pub IsQuiet-unassign : (runner_id : ℕ) (job : Job) → IsQuiet job (unassign_job runner_id job)
unfolding is_busy is_fresh is_assigned
IsQuiet-unassign runner_id job = record {
  same_id = ground arith;
  same_project = ground arith;
  same_policy = ground arith;
  busy_before = λ f b. ground arith;
  stays_fresh = λ f. ground arith;
  same_queued_at = ground arith;
  active_before = λ a. ground arith;
  assigned_before = λ f a. ground arith;
}
