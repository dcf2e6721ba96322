-- ===== src/Workflow/Local.antt =====
-- The local runner's scheduler: bin/journeyman-runner (`select_eligible_steps`,
-- `has_failure_branch`, `mark_remaining_steps_cancelled`, `mark_job_failed`).
use journeyman.Base.{
  ℕ, Bool, true, ◌&&◌, not, Option, none, some, List, [], ◌∷◌, ◌++◌, map, any, all, if◌then◌else◌,
  leb, length, String, is_none,
}
use journeyman.Base.Text.{pos}
use journeyman.Job.{Job, JobStatus, Step, StepStatus, is_pending, is_failed, is_running}
use journeyman.Workflow.{
  dependencies, is_missing, is_unfinished, has_failed, has_succeeded, no_dependencies,
  has_failure_branch,
}

-- What the first loop does with a pending step.
pub data Verdict : Type 0 where
  leave : Verdict
  block skip : String → Verdict

-- `has_failure_branch(dependency, job.steps)` for a dependency that failed
abbrev pub is_handled : List Step → Option Step → Bool
is_handled steps none = true
is_handled steps (some d) = if is_failed d.status then has_failure_branch d steps else true

-- `failed_dependencies and all(has_failure_branch(…) for … in failed_dependencies)`
abbrev pub failures_handled : List Step → List (Option Step) → Bool
failures_handled steps deps = any has_failed deps && all (is_handled steps) deps

abbrev pub verdict_of : List Step → Bool → List (Option Step) → Verdict
verdict_of steps failure_only deps =
    if any is_missing deps
    then block "One or more dependency steps could not be found."
    else if no_dependencies deps
    then if failure_only then block "Failure-only step has no dependency." else leave
    else if any is_unfinished deps
    then leave
    else if failure_only
    then if any has_failed deps
      then leave
      else skip "Failure-only branch was not selected because none of its dependencies failed."
    else if all has_succeeded deps
    then leave
    else if failures_handled steps deps
    then skip
        "Success-path branch was not selected because a dependency failed and its failure branch was used."
    else block "A dependency did not complete successfully."

unfoldable pub local_verdict : Step → List Step → Verdict
local_verdict step steps = verdict_of steps step.failure_only (dependencies step steps)

abbrev pub apply_verdict : ℕ → Verdict → Step → Step
apply_verdict now leave step = step
apply_verdict now (block reason) step = record step {
  status = StepStatus.blocked;
  finished_at = some now;
  exit_code = none;
  stderr = reason;
}
apply_verdict now (skip reason) step = record step {
  status = StepStatus.skipped;
  finished_at = some now;
  exit_code = none;
  stderr = reason;
}

-- the first loop: `done` holds the steps already visited
unfoldable pub close_steps : ℕ → List Step → List Step → List Step
unfolding local_verdict
close_steps now done [] = done
close_steps now done (step ∷ rest) =
    close_steps now
      (done
        ++ (if is_pending step.status
            then apply_verdict now (local_verdict step (done ++ step ∷ rest)) step
            else step)
          ∷ [])
      rest

-- the test by which the second loop appends a pending step to `eligible`
abbrev pub may_run_of : Bool → List (Option Step) → Bool
may_run_of failure_only deps =
    if no_dependencies deps
    then not failure_only
    else if failure_only
    then all (λ d. not (is_none d) && not (is_unfinished d)) deps && any has_failed deps
    else all has_succeeded deps

unfoldable pub may_run : Step → List Step → Bool
may_run step steps = may_run_of step.failure_only (dependencies step steps)

-- the second loop, with `eligible` so far and `break` once the limit is reached
unfoldable pub collect : ℕ → List Step → List Step → List Step → List Step
unfolding may_run
collect limit steps eligible [] = eligible
collect limit steps eligible (step ∷ rest) =
    let eligible' = (if may_run step steps then eligible ++ step ∷ [] else eligible) in
    let passed = collect limit steps eligible rest in
    let more = collect limit steps eligible' rest in
    if not (is_pending step.status)
    then passed
    else if leb limit (length eligible')
    then eligible'
    else more

-- the steps after the first loop, and the eligible ones
unfoldable pub select_eligible_steps : ℕ → ℕ → List Step → List Step × List Step
unfolding close_steps collect
select_eligible_steps now limit steps =
    let steps' = close_steps now [] steps in (steps', collect limit steps' [] steps')

-- `mark_remaining_steps_cancelled`
abbrev pub cancel_step : ℕ → Step → Step
cancel_step now step =
    if is_pending step.status
    then record step { status = StepStatus.cancelled; finished_at = some now; exit_code = none }
    else step

unfoldable pub mark_remaining_steps_cancelled : ℕ → Job → Job
mark_remaining_steps_cancelled now job = record job { steps = map (cancel_step now) job.steps }

-- `mark_job_failed`
abbrev pub fail_step : ℕ → String → Step → Step
fail_step now message step =
    if is_running step.status
    then record step {
      status = StepStatus.failed;
      finished_at = some now;
      exit_code = some (pos 1);
      stderr = message;
    }
    else cancel_step now step

unfoldable pub mark_job_failed : ℕ → String → Job → Job
mark_job_failed now message job = record job {
  status = JobStatus.failed;
  finished_at = some now;
  exit_code = some (pos 1);
  message = message;
  steps = map (fail_step now message) job.steps;
}
