-- ===== src/Lifecycle/Completion.antt =====
-- Completion of a slice: `_complete_slice`, `complete_remote_slice`, `complete_local_slice` and
-- `fail_pending_remote_slice` of app/services/runner_slice_lifecycle.py.
-- The job given back is that of the session when the operation answers. A completion that is refused
-- after its first rows were written leaves them in the session: the view of remote completions
-- answers 409, and the audit of that answer (`audit_rejected_response` of app/security_logging.py)
-- commits them, while bin/journeyman-runner rolls a refused local completion back.
use journeyman.Base.{
  ℕ, Bool, true, false, ◌&&◌, ◌||◌, not, ◌⊎◌, inl, inr, Option, none, some, List, [], ◌∷◌, String,
  map, if◌then◌else◌, ◌==◌, is_none, opt_eq,
}
use journeyman.Base.Text.{pos, Fields, Python, concat, take_text, word, get, show}
use journeyman.Runner.{Runner}
use journeyman.Job.{Job, Step, StepStatus, Slice, SliceStatus, HostResult, Target, is_successful}
use journeyman.Workflow.{reconcile_steps}
use journeyman.Oversight.{update_job_oversight_state}
use journeyman.Lifecycle.{
  Reason, assignment_mismatch, invalid_state, invalid_slice, invalid_status, already_complete,
  completed, assignment_matches, is_local_target, is_slice_running, is_slice_assigned,
  is_slice_pending, max_text_length, put_slice, put_step,
}
use journeyman.Lifecycle.Aggregate.{aggregate_step, finalize_job_if_complete}
use journeyman.Lifecycle.Report.{Final, parse_final, has_status}
use journeyman.Lifecycle.Rows.{SliceWrite, rejected, stopped, written, effective, complete_rows}

-- `_reconcile_dependencies` and `_finalize_job_if_complete`
abbrev pub reconciled : ℕ → List Step → List Step
reconciled now steps = elim (reconcile_steps now steps) [ some result ↦ result | none ↦ steps ]

unfoldable pub close_job : ℕ → Job → Job
close_job now job =
    (finalize_job_if_complete now
      (update_job_oversight_state (record job { steps = reconciled now job.steps })).job).0

-- what `refresh_job_inventories_after_step` leaves behind: the job with its replanned steps, and the
-- number of refreshed snapshots or the text of its JobInventoryRefreshError
pub record Refreshed : Type 0 where
  pub job : Job
  pub result : ℕ ⊎ String

-- the step while its inventories are refreshed, and after that
abbrev pub hold_step : Step → Step
hold_step step = record step { status = StepStatus.running; finished_at = none }

abbrev pub refreshed_text : ℕ → String
refreshed_text count =
    if count == 0
    then ""
    else concat (
        "\nJourneyman refreshed and replanned "
        ∷ show count
        ∷ " dependent inventory snapshot(s).\n"
        ∷ [])

abbrev pub release_step : ℕ → ℕ ⊎ String → Step → Step
release_step now (inl count) step = record step {
  status = StepStatus.successful;
  exit_code = some (pos 0);
  finished_at = some now;
  stdout = concat (step.stdout ∷ refreshed_text count ∷ []);
}
release_step now (inr error) step = record step {
  status = StepStatus.failed;
  exit_code = some (pos 1);
  finished_at = some now;
  stderr =
      concat (step.stderr ∷ "\nJourneyman inventory refresh/replan failed: " ∷ error ∷ "\n" ∷ []);
}

abbrev pub is_sliced : Target → Bool
is_sliced Target.sliced = true
is_sliced _ = false

abbrev pub needs_refresh : Job → Step → Bool → Bool
needs_refresh job step finished =
    finished
    && is_successful step.status
    && step.refresh_inventory_after
    && is_sliced job.dispatch_target

-- the job as it is committed before a refresh
abbrev pub held_job : Job → Step → Job
held_job job step = put_step (hold_step step) job

abbrev pub valid_state : Bool → SliceStatus → Bool
valid_state is_local status =
    if is_local
    then is_slice_running status
    else is_slice_assigned status || is_slice_running status

-- a replay of the completion that the same runner has already reported
abbrev pub is_replay : Slice → Runner → Option Final → Bool
is_replay slice runner none = false
is_replay slice runner (some requested) =
    has_status requested slice.status && opt_eq slice.assigned_runner_id (some runner.id)

module _ (py : Python) (refresh : Job → Step → Refreshed) where
  -- the refresh of the inventories behind a step, with the held job committed before it
  abbrev pub refresh_after : ℕ → Job → Step → Job
  refresh_after now job step =
      let held = hold_step step in
      let after = refresh (held_job job step) held in
      record (after.job) {
        steps =
            map (λ s. if s.position == step.position then release_step now after.result s else s)
              (after.job).steps;
      }

  -- the step with its completed slice, aggregated, back in its job
  abbrev pub finish_step : ℕ → Job → Step → Slice → List HostResult → Job
  finish_step now job step slice rows =
      let (step', finished) =
        aggregate_step now (record (put_slice slice step) { host_results = rows }) in
      if needs_refresh job step' finished then refresh_after now job step' else put_step step' job

  abbrev pub completed_job : ℕ → Job → Step → SliceWrite → Job × Bool × Reason
  completed_job now job step (rejected reason) = (job, false, reason)
  completed_job now job step (stopped slice rows reason) =
      (put_step (record (put_slice slice step) { host_results = rows }) job, false, reason)
  completed_job now job step (written slice rows) =
      (close_job now (finish_step now job step slice rows), true, completed)

  abbrev pub complete_as :
      ℕ → Job → Step → Slice → Fields → Runner → Bool → Option Final → Job × Bool × Reason
  complete_as now job step slice payload runner is_local none = (job, false, invalid_status)
  complete_as now job step slice payload runner is_local (some requested) =
      if not (valid_state is_local slice.status)
      then if has_status requested slice.status
        then (job, true, already_complete)
        else (job, false, invalid_state)
      else completed_job now job step
          (complete_rows py now step slice payload runner is_local (effective job.status requested))

  -- `_complete_slice`
  unfoldable pub complete_slice :
      ℕ → Job → Step → Slice → Fields → Runner → Bool → Job × Bool × Reason
  complete_slice now job step slice payload runner is_local =
      complete_as now job step slice payload runner is_local
        (parse_final (word py (get payload "status")))

  unfoldable pub complete_remote_slice :
      ℕ → Job → Step → Slice → Runner → String → Fields → Job × Bool × Reason
  unfolding complete_slice
  complete_remote_slice now job step slice runner token payload =
      if is_replay slice runner (parse_final (word py (get payload "status")))
      then (job, true, already_complete)
      else if not (assignment_matches slice runner token)
      then (job, false, assignment_mismatch)
      else complete_slice now job step slice payload runner false

  unfoldable pub complete_local_slice :
      ℕ → Job → Step → Slice → Runner → Fields → Job × Bool × Reason
  unfolding complete_slice
  complete_local_slice now job step slice runner payload =
      if not (is_local_target slice.dispatch_target)
      then (job, false, invalid_slice)
      else if not
          (is_none slice.assigned_runner_id || opt_eq slice.assigned_runner_id (some runner.id))
      then (job, false, assignment_mismatch)
      else complete_slice now job step slice payload runner true

-- `fail_pending_remote_slice`
unfoldable pub fail_pending_remote_slice : ℕ → Job → Step → Slice → String → Job × Bool
fail_pending_remote_slice now job step slice message =
    if not (is_slice_pending slice.status)
    then (job, false)
    else let slice' = record slice {
      status = SliceStatus.failed;
      finished_at = some now;
      exit_code = some (pos 1);
      message = take_text max_text_length message;
      dispatch_token = "";
    } in
      (close_job now (put_step (aggregate_step now (put_slice slice' step)).0 job), true)
