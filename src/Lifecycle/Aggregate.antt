-- ===== src/Lifecycle/Aggregate.antt =====
-- Slices into their step, and steps into their job: `_aggregate_step` and `_finalize_job_if_complete`
-- of app/services/runner_slice_lifecycle.py.
use journeyman.Base.{
  ℕ, Bool, true, false, ◌&&◌, ◌||◌, not, Option, none, some, List, [], ◌∷◌, String, any, map, keep,
  length, if◌then◌else◌, str_eq,
}
use journeyman.Base.Text.{
  ℤ, pos, Json, Fields, end, field, concat, join_lines, is_empty, or_text, show,
}
use mathlib.Core.List.{reverse}
use journeyman.Job.{
  Job, JobStatus, Step, StepStatus, Slice, is_final, is_terminal, is_failed, is_cancelled,
  is_blocked,
}
use journeyman.Workflow.{has_failure_branch}
use journeyman.Lifecycle.{is_slice_failed, is_slice_cancelled, is_cancelling}

-- `dict.update` of statistics
abbrev pub set_key : String → Json → Fields → Fields
set_key k v end = field k v end
set_key k v (field j w fs) = if str_eq j k then field j v fs else field j w (set_key k v fs)

abbrev pub update_fields : Fields → Fields → Fields
update_fields fs end = fs
update_fields fs (field k v more) = update_fields (set_key k v fs) more

abbrev pub merge_stats : Fields → List Slice → Fields
merge_stats merged [] = merged
merge_stats merged (s ∷ ss) = merge_stats (update_fields merged s.custom_stats) ss

abbrev pub first_failed_code : List Slice → ℤ
first_failed_code [] = pos 1
first_failed_code (s ∷ ss) =
    let rest = first_failed_code ss in
    if is_slice_failed s.status then elim s.exit_code [ some c ↦ c | none ↦ rest ] else rest

abbrev pub labelled : Slice → String → String
labelled s text =
    concat
      ("[runner " ∷ or_text s.runner_hostname (or_text s.runner_name "remote") ∷ "]\n" ∷ text ∷ [])

-- the status and the exit code that finished slices give their step
abbrev pub slices_status : List Slice → StepStatus
slices_status slices =
    if any (λ s. is_slice_failed s.status) slices
    then StepStatus.failed
    else if any (λ s. is_slice_cancelled s.status) slices
    then StepStatus.cancelled
    else StepStatus.successful

abbrev pub slices_code : List Slice → Option ℤ
slices_code slices =
    if any (λ s. is_slice_failed s.status) slices
    then some (first_failed_code slices)
    else if any (λ s. is_slice_cancelled s.status) slices
    then none
    else some (pos 0)

-- `not slices or any(item.status not in FINAL_SLICE_STATUSES …)`
abbrev pub slices_open : List Slice → Bool
slices_open [] = true
slices_open (s ∷ ss) = any (λ x. not (is_final x.status)) (s ∷ ss)

-- `_aggregate_step`
unfoldable pub aggregate_step : ℕ → Step → Step × Bool
aggregate_step now step =
    let slices = step.execution_slices in
    if slices_open slices then (step, false) else (
      record step {
        status = slices_status slices;
        exit_code = slices_code slices;
        finished_at = some now;
        command = join_lines (map (λ s. s.command) (keep (λ s. not (is_empty s.command)) slices));
        stdout =
            join_lines
              (map (λ s. labelled s s.stdout) (keep (λ s. not (is_empty s.stdout)) slices));
        stderr =
            join_lines
              (map (λ s. labelled s s.stderr) (keep (λ s. not (is_empty s.stderr)) slices));
        custom_stats = merge_stats end slices;
      },
      true,
    )

abbrev pub is_unhandled : List Step → Step → Bool
is_unhandled steps step = is_failed step.status && not (has_failure_branch step steps)

abbrev pub first_code : List Step → ℤ
first_code [] = pos 1
first_code (s ∷ ss) = elim s.exit_code [ some c ↦ c | none ↦ first_code ss ]

abbrev pub unfinished : List Step → Bool
unfinished steps = any (λ s. not (is_terminal s.status)) steps

-- `_finalize_job_if_complete`
unfoldable pub finalize_job_if_complete : ℕ → Job → Job × Bool
finalize_job_if_complete now job =
    let unhandled = keep (is_unhandled job.steps) job.steps in
    let blocked = keep (λ s. is_blocked s.status) job.steps in
    if unfinished job.steps
    then (job, false)
    else if is_cancelling job.status || any (λ s. is_cancelled s.status) job.steps
    then (
      record job {
        status = JobStatus.cancelled;
        exit_code = none;
        message = "Project execution was cancelled.";
        finished_at = some now;
      },
      true,
    )
    else if any (is_unhandled job.steps) job.steps || any (λ s. is_blocked s.status) job.steps
    then (
      record job {
        status = JobStatus.failed;
        exit_code = some (first_code (reverse unhandled));
        message = concat (
            "Project execution completed with "
            ∷ show (length unhandled)
            ∷ " unhandled failed and "
            ∷ show (length blocked)
            ∷ " blocked step(s)."
            ∷ []);
        finished_at = some now;
      },
      true,
    )
    else (
      record job {
        status = JobStatus.successful;
        exit_code = some (pos 0);
        message = "Project execution completed successfully.";
        finished_at = some now;
      },
      true,
    )
