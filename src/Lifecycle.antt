-- ===== src/Lifecycle.antt =====
-- The life of an execution slice: app/services/runner_slice_lifecycle.py. This file has the
-- assignment check, the starts, the live output and the control polls; the children have the
-- aggregation of slices into their step and of steps into their job, completion and loss.
-- `utcnow()` is read once for an operation.
pub mod Aggregate
pub mod Stats
pub mod Report
pub mod Rows
pub mod Completion
pub mod Outcome
pub mod Replay
pub mod Hosts
pub mod Held
pub mod Loss
pub mod Limits
use journeyman.Base.{
  ℕ, Bool, true, false, ◌&&◌, ◌||◌, not, Option, none, some, List, [], ◌∷◌, ◌++◌, String, any, all,
  map, keep, length, if◌then◌else◌, ◌==◌, is_none, str_eq, opt_eq,
}
use journeyman.Base.Text.{
  ℤ, pos, Json, Fields, end, field, Python, concat, join_lines, is_empty, or_text, take_text,
  truncate, text_or_empty, get, show,
}
use mathlib.Core.List.{reverse}
use journeyman.Runner.{Runner}
use journeyman.Job.{
  Job, JobStatus, Step, StepStatus, Slice, SliceStatus, Target, is_final, is_terminal, is_pending,
  is_failed, is_cancelled, is_blocked,
}
use journeyman.Workflow.{has_failure_branch}

-- what an operation answers, beside the new state
pub data Reason : Type 0 where
  assignment_mismatch already_started invalid_state started updated invalid_slice : Reason
  invalid_status already_complete invalid_exit_code invalid_host_results : Reason
  invalid_host_status invalid_custom_stats invalid_host_exit_code completed invalid_runner : Reason
  runner_mismatch cancel_pending invalid_steps unknown_step : Reason
  invalid_step_status invalid_step_exit_code : Reason
  lost : SliceStatus → Reason

abbrev pub is_remote : Target → Bool
is_remote Target.remote = true
is_remote _ = false

abbrev pub is_local_target : Target → Bool
is_local_target Target.local = true
is_local_target _ = false

abbrev pub is_slice_running : SliceStatus → Bool
is_slice_running SliceStatus.running = true
is_slice_running _ = false

abbrev pub is_slice_assigned : SliceStatus → Bool
is_slice_assigned SliceStatus.assigned = true
is_slice_assigned _ = false

abbrev pub is_slice_pending : SliceStatus → Bool
is_slice_pending SliceStatus.pending = true
is_slice_pending _ = false

abbrev pub is_slice_failed : SliceStatus → Bool
is_slice_failed SliceStatus.failed = true
is_slice_failed _ = false

abbrev pub is_slice_cancelled : SliceStatus → Bool
is_slice_cancelled SliceStatus.cancelled = true
is_slice_cancelled _ = false

unfoldable pub assignment_matches : Slice → Runner → String → Bool
assignment_matches slice runner token =
    is_remote slice.dispatch_target
    && opt_eq slice.assigned_runner_id (some runner.id)
    && not (is_empty slice.dispatch_token)
    && not (is_empty token)
    && str_eq slice.dispatch_token token

unfoldable pub start_remote_slice : ℕ → Slice → Runner → String → Slice × Bool × Reason
unfolding assignment_matches
start_remote_slice now slice runner token =
    if not (assignment_matches slice runner token)
    then (slice, false, assignment_mismatch)
    else if is_slice_running slice.status
    then (slice, true, already_started)
    else if not (is_slice_assigned slice.status)
    then (slice, false, invalid_state)
    else (
      record slice {
        status = SliceStatus.running;
        started_at = some now;
        finished_at = none;
        message = concat ("Running on remote runner " ∷ runner.name ∷ "." ∷ []);
      },
      true,
      started,
    )

-- the limits of the stored texts
abbrev pub max_output_length : ℕ
max_output_length = 2097152

abbrev pub max_text_length : ℕ
max_text_length = 4000

-- `_trim`
abbrev pub trim : Python → Json → String
trim py value =
    truncate max_output_length "\n[output truncated by Journeyman]\n" (text_or_empty py value)

unfoldable pub update_remote_slice_output :
    Python → Slice → Runner → String → Fields → Slice × Bool × Reason
unfolding assignment_matches
update_remote_slice_output py slice runner token payload =
    if not (assignment_matches slice runner token)
    then (slice, false, assignment_mismatch)
    else if not (is_slice_running slice.status)
    then (slice, false, invalid_state)
    else (
      record slice {
        command = take_text max_text_length (text_or_empty py (get payload "command"));
        stdout = trim py (get payload "stdout");
        stderr = trim py (get payload "stderr");
      },
      true,
      updated,
    )

-- `update_local_slice_output`; the source also takes None, and answers false
unfoldable pub update_local_slice_output : Python → Slice → Json → Json → Json → Slice × Bool
update_local_slice_output py slice command stdout stderr =
    if not (is_local_target slice.dispatch_target)
    then (slice, false)
    else if not (is_slice_running slice.status)
    then (slice, false)
    else (
      record slice {
        command = take_text max_text_length (text_or_empty py command);
        stdout = trim py stdout;
        stderr = trim py stderr;
      },
      true,
    )

abbrev pub is_cancelling : JobStatus → Bool
is_cancelling JobStatus.cancelling = true
is_cancelling _ = false

-- what a runner that polls a slice learns
pub record Control : Type 0 where
  pub job_id : ℕ
  pub slice_id : ℕ
  pub slice_status : SliceStatus
  pub cancel_requested : Bool

abbrev pub control_of : Job → Slice → Control
control_of job slice = record {
  job_id = job.id;
  slice_id = slice.id;
  slice_status = slice.status;
  cancel_requested = is_cancelling job.status;
}

unfoldable pub remote_slice_control : Job → Slice → Runner → String → Option Control
unfolding assignment_matches
remote_slice_control job slice runner token =
    if not (assignment_matches slice runner token) then none else some (control_of job slice)

unfoldable pub local_slice_control : Job → Slice → Option Control
local_slice_control job slice =
    if not (is_local_target slice.dispatch_target) then none else some (control_of job slice)

-- replacing the row of a slice in its step, and of a step in its job
abbrev pub put_slice : Slice → Step → Step
put_slice slice step = record step {
  execution_slices = map (λ s. if s.id == slice.id then slice else s) step.execution_slices;
}

abbrev pub put_step : Step → Job → Job
put_step step job = record job {
  steps = map (λ s. if s.position == step.position then step else s) job.steps;
}

abbrev pub is_job_queued : JobStatus → Bool
is_job_queued JobStatus.queued = true
is_job_queued _ = false

-- what a start does to the job and to the step of a slice
abbrev pub begin_job : ℕ → String → Job → Job
begin_job now message job =
    if is_job_queued job.status
    then record job {
      status = JobStatus.running;
      started_at = some now;
      finished_at = none;
      exit_code = none;
      message = message;
    }
    else job

abbrev pub begin_step : ℕ → Step → Step
begin_step now step =
    if is_pending step.status
    then record step {
      status = StepStatus.running;
      started_at = some now;
      finished_at = none;
      exit_code = none;
    }
    else step

-- `start_local_slice`, for a slice of a step of a job
unfoldable pub start_local_slice : ℕ → Job → Step → Slice → Runner → Job × Bool × Reason
start_local_slice now job step slice runner =
    if not (is_local_target slice.dispatch_target)
    then (job, false, invalid_slice)
    else if is_slice_running slice.status
    then (job, true, already_started)
    else if not (is_slice_pending slice.status)
    then (job, false, invalid_state)
    else let slice' = record slice {
      status = SliceStatus.running;
      assigned_runner_id = some runner.id;
      assigned_at = some now;
      started_at = some now;
      finished_at = none;
      runner_name = or_text runner.name "local";
      runner_hostname = or_text runner.hostname "localhost";
      message =
          concat
            ("Running on built-in local runner " ∷ or_text runner.hostname "localhost" ∷ "." ∷ []);
    } in
      let job' = begin_job now "Executing using per-host runner slices." job in
      (put_step (begin_step now (put_slice slice' step)) job', true, started)
