-- ===== src/Cancellation.antt =====
-- Stopping a job: app/services/job_cancellation.py.
pub mod Laws
pub mod Stale
use journeyman.Base.{
  ℕ, ◌+◌, max, Bool, true, false, ◌&&◌, ◌||◌, not, Option, none, some, List, [], ◌∷◌, String, any,
  all, map, keep, sort_by, first, if◌then◌else◌, ◌==◌, leb, ltb, is_none,
}
use journeyman.Base.Text.{concat, show}
use journeyman.Runner.{Runner, runner_health, is_offline, release_runner_drain_for_job}
use journeyman.Job.{
  Job, JobStatus, Step, StepStatus, Slice, SliceStatus, Target, is_pending, is_terminal, is_final,
}
use journeyman.Lifecycle.{
  is_slice_pending, is_slice_assigned, is_slice_running, is_slice_cancelled, is_cancelling,
}

-- JobCancellationResult, with the audit event that was recorded: the status before and after
pub record Cancellation : Type 0 where
  pub job : Job
  pub runners : List Runner
  pub changed : Bool
  pub status : JobStatus
  pub message : String
  pub audit : Option (JobStatus × JobStatus)

abbrev pub status_text : JobStatus → String
status_text JobStatus.queued = "queued"
status_text JobStatus.running = "running"
status_text JobStatus.waiting_oversight = "waiting_oversight"
status_text JobStatus.cancelling = "cancelling"
status_text JobStatus.successful = "successful"
status_text JobStatus.failed = "failed"
status_text JobStatus.cancelled = "cancelled"

abbrev pub job_text : Job → String → String
job_text job rest = concat ("Job #" ∷ show job.id ∷ rest ∷ [])

-- a job that had not started: its pending steps, and its slices that nobody runs
abbrev pub drop_slice : ℕ → Slice → Slice
drop_slice now s =
    if is_slice_pending s.status || is_slice_assigned s.status
    then record s { status = SliceStatus.cancelled; finished_at = some now; dispatch_token = "" }
    else s

abbrev pub drop_step : ℕ → Step → Step
drop_step now step =
    let sliced = record step { execution_slices = map (drop_slice now) step.execution_slices } in
    if is_pending step.status
    then record sliced { status = StepStatus.cancelled; finished_at = some now }
    else sliced

abbrev pub was_oversight_text : JobStatus → String
was_oversight_text JobStatus.waiting_oversight = "Stopped while waiting for oversight."
was_oversight_text _ = "Cancelled before execution started."

abbrev pub cancel_waiting : ℕ → Job → List Runner → Cancellation
cancel_waiting now job runners = record {
  job = record job {
    status = JobStatus.cancelled;
    cancel_requested_at = some now;
    finished_at = some now;
    message = was_oversight_text job.status;
    steps = map (drop_step now) job.steps;
  };
  runners = release_runner_drain_for_job job.id runners;
  changed = true;
  status = JobStatus.cancelled;
  message = job_text job " cancelled.";
  audit = some (job.status, JobStatus.cancelled);
}

-- a running job: only what is still pending
abbrev pub stop_slice : ℕ → Slice → Slice
stop_slice now s =
    if is_slice_pending s.status
    then record s { status = SliceStatus.cancelled; finished_at = some now }
    else s

-- `step.execution_slices and all(… == "cancelled" …)`
abbrev pub all_cancelled : List Slice → Bool
all_cancelled [] = false
all_cancelled (s ∷ ss) = all (λ x. is_slice_cancelled x.status) (s ∷ ss)

abbrev pub stop_step : ℕ → Step → Step
stop_step now step =
    let sliced = record step { execution_slices = map (stop_slice now) step.execution_slices } in
    if is_pending step.status && all_cancelled (map (stop_slice now) step.execution_slices)
    then record sliced { status = StepStatus.cancelled; finished_at = some now }
    else sliced

abbrev pub cancel_running : ℕ → String → Job → List Runner → Cancellation
cancel_running now source job runners = record {
  job = record job {
    status = JobStatus.cancelling;
    cancel_requested_at = some now;
    message = concat ("Stop requested from " ∷ source ∷ "." ∷ []);
    steps = map (stop_step now) job.steps;
  };
  runners = runners;
  changed = true;
  status = JobStatus.cancelling;
  message = concat ("Stop requested for Job #" ∷ show job.id ∷ "." ∷ []);
  audit = some (job.status, JobStatus.cancelling);
}

abbrev pub cancel_again : ℕ → Job → List Runner → Cancellation
cancel_again now job runners = record {
  job =
      if is_none job.cancel_requested_at
      then record job { cancel_requested_at = some now }
      else job;
  runners = runners;
  changed = false;
  status = JobStatus.cancelling;
  message = job_text job " is already stopping.";
  audit = none;
}

abbrev pub cancel_finished : Job → List Runner → Cancellation
cancel_finished job runners = record {
  job = job;
  runners = runners;
  changed = false;
  status = job.status;
  message = job_text job (concat (" is already " ∷ status_text job.status ∷ "." ∷ []));
  audit = none;
}

unfoldable pub cancel_job : ℕ → String → Job → List Runner → Cancellation
cancel_job now source job runners = elim job.status [
  | JobStatus.queued ↦ cancel_waiting now job runners
  | JobStatus.waiting_oversight ↦ cancel_waiting now job runners
  | JobStatus.running ↦ cancel_running now source job runners
  | JobStatus.cancelling ↦ cancel_again now job runners
  | _ ↦ cancel_finished job runners
]

-- `assigned_runner or required_runner`, through the runner table
abbrev pub runner_by_id : List Runner → Option ℕ → Option Runner
runner_by_id runners none = none
runner_by_id runners (some id) = first (λ r. r.id == id) runners

abbrev pub or_runner : Option Runner → Option Runner → Option Runner
or_runner (some r) other = some r
or_runner none other = other

abbrev pub either_runner : List Runner → Option ℕ → Option ℕ → Option Runner
either_runner runners assigned required =
    or_runner (runner_by_id runners assigned) (runner_by_id runners required)

-- `_runner_reports_active_work`
abbrev pub runner_reports_active_work : ℕ → Option Runner → Bool
runner_reports_active_work now none = false
runner_reports_active_work now (some r) =
    not (is_offline (runner_health now r)) && ltb 0 r.running_steps

abbrev pub slice_may_run : ℕ → List Runner → Slice → Bool
slice_may_run now runners s =
    (is_slice_assigned s.status || is_slice_running s.status)
    && runner_reports_active_work now
        (either_runner runners s.assigned_runner_id s.required_runner_id)

-- `_job_may_still_be_executing`
unfoldable pub job_may_still_be_executing : ℕ → List Runner → Job → Bool
job_may_still_be_executing now runners job = elim job.dispatch_target [
  | Target.sliced ↦ any (λ step. any (slice_may_run now runners) step.execution_slices) job.steps
  | Target.local ↦ runner_reports_active_work now (first (λ r. r.is_local) runners)
  | Target.remote ↦
      runner_reports_active_work now
        (either_runner runners job.assigned_runner_id job.required_runner_id)
]

abbrev pub abandon_slice : ℕ → Slice → Slice
abandon_slice now s = if is_final s.status then s else record s {
  status = SliceStatus.cancelled;
  finished_at = some now;
  exit_code = none;
  dispatch_token = "";
  message = "Cancellation finalized after no runner reported active execution.";
}

abbrev pub abandon_step : ℕ → Step → Step
abandon_step now step =
    let sliced = record step { execution_slices = map (abandon_slice now) step.execution_slices } in
    if is_terminal step.status
    then sliced
    else record sliced { status = StepStatus.cancelled; finished_at = some now; exit_code = none }

-- `_finalize_abandoned_cancellation`
unfoldable pub finalize_abandoned_cancellation : ℕ → ℕ → Job → Job
finalize_abandoned_cancellation now stale_seconds job = record job {
  steps = map (abandon_step now) job.steps;
  status = JobStatus.cancelled;
  finished_at = some now;
  exit_code = none;
  dispatch_token = "";
  message = concat (
      "Cancellation finalized after the Job remained in stopping state for at least "
      ∷ show stale_seconds
      ∷ " seconds and no runner reported active execution."
      ∷ []);
}

-- the filters of `recover_stale_cancelling_jobs` on a job: stopping, since `stale_seconds` at least
abbrev pub requested_before : ℕ → ℕ → Option ℕ → Bool
requested_before now stale_seconds none = false
requested_before now stale_seconds (some at) = leb (at + stale_seconds) now

abbrev pub is_stale : ℕ → ℕ → Job → Bool
is_stale now stale_seconds job =
    is_cancelling job.status && requested_before now stale_seconds job.cancel_requested_at

abbrev pub effective_stale_seconds : ℕ → ℕ
effective_stale_seconds configured = max 60 configured

-- whether the loop recovers a job; a recovery also releases the drains that the job holds
abbrev pub is_recovered : ℕ → ℕ → List Runner → Job → Bool
is_recovered now stale_seconds runners job =
    is_stale now stale_seconds job && not (job_may_still_be_executing now runners job)

-- the loop over the jobs: the jobs and runners after it, and the recovered ids
unfoldable pub recover_stale_cancelling_jobs :
    ℕ → ℕ → List Job → List Runner → List Job × List Runner × List ℕ
recover_stale_cancelling_jobs now configured [] runners = ([], runners, [])
recover_stale_cancelling_jobs now configured (job ∷ jobs) runners =
    let stale_seconds = effective_stale_seconds configured in
    let recovered = is_recovered now stale_seconds runners job in
    let runners' = (if recovered then release_runner_drain_for_job job.id runners else runners) in
    let job' = (if recovered then finalize_abandoned_cancellation now stale_seconds job else job) in
    let (jobs', runners'', ids) = recover_stale_cancelling_jobs now configured jobs runners' in
    (job' ∷ jobs', runners'', if recovered then job.id ∷ ids else ids)
