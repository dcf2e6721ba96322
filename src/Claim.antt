-- ===== src/Claim.antt =====
-- What a remote runner may claim: `runner_can_claim_slice` and the conditional UPDATE of
-- `claim_next_remote_slice` in app/services/runner_slice_dispatch.py.
pub mod Guards
use journeyman.Base.{
  ℕ, Bool, true, false, ◌&&◌, ◌||◌, not, Option, none, some, List, [], ◌∷◌, String, if◌then◌else◌,
  ◌==◌, leb, is_none, opt_eq,
}
use journeyman.Base.Text.{concat}
use journeyman.Runner.{Runner, runner_health, is_healthy, runner_environment_ready, is_subset}
use journeyman.Job.{
  Job, JobStatus, Step, StepStatus, Slice, SliceStatus, Target, is_pending, is_running,
}
use journeyman.Lifecycle.{is_slice_pending, is_remote}
use journeyman.Workflow.{dependency_state}
use journeyman.Workflow.Engines.{is_eligible}
use journeyman.Concurrency.{job_can_start}
use journeyman.Oversight.{update_job_oversight_state}

abbrev pub is_dispatched : JobStatus → Bool
is_dispatched JobStatus.queued = true
is_dispatched JobStatus.running = true
is_dispatched _ = false

-- `None`/False, False with a job that the look at the oversight gate paused, or True
pub data Claim : Type 0 where
  declined : Claim
  paused : Job → Claim
  allowed : Claim

-- the tests before the look at the oversight gate, in the order of the code
abbrev pub runner_may_take : ℕ → Runner → List Job → Job → Slice → Bool
runner_may_take now runner jobs job s =
    is_none runner.drain_job_id
    && is_healthy (runner_health now runner)
    && not (leb runner.max_concurrent_steps runner.running_steps)
    && is_remote s.dispatch_target
    && is_slice_pending s.status
    && opt_eq s.required_runner_id (some runner.id)
    && is_dispatched job.status
    && job_can_start job jobs

-- the tests after it
abbrev pub step_may_run : Runner → Job → Step → Slice → Bool
step_may_run runner job step s =
    (is_pending step.status || is_running step.status)
    && is_eligible (dependency_state step job.steps)
    && is_subset s.required_capabilities runner.capabilities
    && (step.is_shell || runner_environment_ready runner step.requirement)

-- `jobs` is the job table, `step` a step of `job` and `s` a slice of `step`
unfoldable pub runner_can_claim_slice : ℕ → Runner → List Job → Job → Step → Slice → Claim
runner_can_claim_slice now runner jobs job step s =
    if not (runner_may_take now runner jobs job s)
    then Claim.declined
    else if (update_job_oversight_state job).changed
    then Claim.paused (update_job_oversight_state job).job
    else if step_may_run runner job step s
    then Claim.allowed
    else Claim.declined

-- the rows after the UPDATE that assigns a slice, or none when it matched no row
pub record Assigned : Type 0 where
  pub job : Job
  pub step : Step
  pub assigned : Slice

abbrev assigned_slice : ℕ → String → Runner → Slice → Slice
assigned_slice now token runner s = record s {
  assigned_runner_id = some runner.id;
  assigned_at = some now;
  dispatch_token = token;
  status = SliceStatus.assigned;
  message = concat ("Assigned to remote runner " ∷ runner.name ∷ "." ∷ []);
}

abbrev starting_job : ℕ → Job → Job
starting_job now job = elim job.status [
  | JobStatus.queued ↦ record job {
    status = JobStatus.running;
    started_at = some now;
    finished_at = none;
    exit_code = none;
    message = "Execution slices are running.";
  }
  | _ ↦ job
]

abbrev starting_step : ℕ → Step → Step
starting_step now step = elim step.status [
  | StepStatus.pending ↦ record step {
    status = StepStatus.running;
    started_at = some now;
    finished_at = none;
    exit_code = none;
  }
  | _ ↦ step
]

unfoldable pub assign_slice : ℕ → String → Runner → Job → Step → Slice → Option Assigned
assign_slice now token runner job step s =
    if is_slice_pending s.status && is_none s.assigned_runner_id
    then some (record {
      job = starting_job now job;
      step = starting_step now step;
      assigned = assigned_slice now token runner s;
    })
    else none
