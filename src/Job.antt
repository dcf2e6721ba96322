-- ===== src/Job.antt =====
-- The rows that the services read and write: app/models/job.py (Job, JobStep),
-- app/models/job_step_execution_slice.py and the host results of a step.
-- A row's relationships are kept as containment: a job holds its steps in position order, a step
-- holds its slices and its host results. Times are numbers of seconds.
pub mod Columns
use journeyman.Base.{
  ℕ, Bool, true, false, Option, List, String, none, some, if◌then◌else◌, ◌==◌, [], ◌∷◌,
}
use journeyman.Base.Text.{ℤ, Fields}
use journeyman.Runner.{Requirement}

-- Job.status
pub data JobStatus : Type 0 where
  queued running waiting_oversight cancelling successful failed cancelled : JobStatus

-- JobStep.status
pub data StepStatus : Type 0 where
  pending running successful failed cancelled blocked skipped : StepStatus

-- JobStepExecutionSlice.status
pub data SliceStatus : Type 0 where
  pending assigned running successful failed cancelled blocked skipped : SliceStatus

-- JobStepHostResult.status
pub data HostStatus : Type 0 where
  successful failed unreachable cancelled : HostStatus

-- Job.dispatch_target and JobStepExecutionSlice.dispatch_target
pub data Target : Type 0 where
  local remote sliced : Target

-- Job.concurrency_policy
pub data Policy : Type 0 where
  unrestricted distinct_parameters serialized exclusive : Policy

pub record Slice : Type 0 where
  pub id : ℕ
  pub position : ℕ
  pub dispatch_target : Target
  pub required_runner_id : Option ℕ
  pub assigned_runner_id : Option ℕ
  pub runner_name : String
  pub runner_hostname : String
  pub required_capabilities : List String
  pub hosts : List String
  pub host_count : ℕ
  pub status : SliceStatus
  pub assigned_at : Option ℕ
  pub started_at : Option ℕ
  pub finished_at : Option ℕ
  pub exit_code : Option ℤ
  pub dispatch_token : String
  pub message : String
  pub command : String
  pub stdout : String
  pub stderr : String
  pub custom_stats : Fields

pub record HostResult : Type 0 where
  pub host : String
  pub status : HostStatus
  pub exit_code : Option ℤ
  pub stdout : String
  pub stderr : String
  pub runner_id : Option ℕ
  pub runner_name : String
  pub runner_hostname : String
  pub runner_local : Bool

pub record Step : Type 0 where
  pub position : ℕ
  pub depends_on : List ℕ  -- get_dependency_positions()
  pub failure_only : Bool
  pub oversight_required_before : Bool
  pub oversight_approved : Bool
  pub refresh_inventory_after : Bool
  pub is_shell : Bool  -- (execution_type or job.execution_type) == "shell"
  pub requirement : Option Requirement  -- job_step_environment_requirement(step)
  pub status : StepStatus
  pub started_at : Option ℕ
  pub finished_at : Option ℕ
  pub exit_code : Option ℤ
  pub command : String
  pub stdout : String
  pub stderr : String
  pub custom_stats : Fields
  pub execution_slices : List Slice
  pub host_results : List HostResult

pub record Job : Type 0 where
  pub id : ℕ
  pub project_id : ℕ
  pub status : JobStatus
  pub dispatch_target : Target
  pub assigned_runner_id : Option ℕ
  pub required_runner_id : Option ℕ
  pub required_runner_site : String
  pub required_capabilities : List String  -- _required_capabilities(job)
  pub oversight_required_between_all_steps : Bool
  pub concurrency_policy : Policy
  pub concurrency_signature : Option String
  pub queued_at : ℕ
  pub started_at : Option ℕ
  pub finished_at : Option ℕ
  pub cancel_requested_at : Option ℕ
  pub exit_code : Option ℤ
  pub dispatch_token : String
  pub message : String
  pub steps : List Step

-- TERMINAL_STEP_STATUSES
abbrev pub is_terminal : StepStatus → Bool
is_terminal StepStatus.pending = false
is_terminal StepStatus.running = false
is_terminal _ = true

abbrev pub is_pending : StepStatus → Bool
is_pending StepStatus.pending = true
is_pending _ = false

abbrev pub is_running : StepStatus → Bool
is_running StepStatus.running = true
is_running _ = false

abbrev pub is_successful : StepStatus → Bool
is_successful StepStatus.successful = true
is_successful _ = false

abbrev pub is_failed : StepStatus → Bool
is_failed StepStatus.failed = true
is_failed _ = false

abbrev pub is_cancelled : StepStatus → Bool
is_cancelled StepStatus.cancelled = true
is_cancelled _ = false

abbrev pub is_blocked : StepStatus → Bool
is_blocked StepStatus.blocked = true
is_blocked _ = false

-- FINAL_SLICE_STATUSES
abbrev pub is_final : SliceStatus → Bool
is_final SliceStatus.successful = true
is_final SliceStatus.failed = true
is_final SliceStatus.cancelled = true
is_final _ = false

-- an item, or what stands in for it
abbrev pub or_else : Option Step → Option Step → Option Step
or_else (some s) other = some s
or_else none other = other

abbrev pub here_at : Step → ℕ → Option Step
here_at s p = if s.position == p then some s else none

-- `{step.position: step for step in job.steps}.get(position)`: the last step at a position
unfoldable pub step_at : List Step → ℕ → Option Step
step_at [] p = none
step_at (s ∷ ss) p = or_else (step_at ss p) (here_at s p)
