-- ===== src/Tests.antt =====
-- Concrete rows for the witnesses: two steps, the second after the first, on one remote runner.
pub mod Workflow
pub mod Jobs
pub mod Slices
pub mod Approvals
pub mod Tables
pub mod Remote
pub mod Planning
use journeyman.Base.{ℕ, true, false, none, some, List, [], ◌∷◌, String}
use journeyman.Base.Text.{Python, Json, Fields, pos, concat}
use journeyman.Runner.{Runner}
use journeyman.Job.{Job, JobStatus, Step, StepStatus, Slice, SliceStatus, Target, Policy}

-- an interpreter that takes texts as they are
abbrev pub plain : Python
plain = record {
  text_of = text;
  int_of_text = λ s. none;
  strip = λ s. s;
  lower = λ s. s;
  casefold = λ s. s;
  json_size = λ v. 0;
  sha256 = λ s. s;
}
  where
    text : Json → String
    text (Json.str s) = s
    text _ = "?"

abbrev pub runner : Runner
runner = record {
  id = 7;
  name = "edge";
  hostname = "edge.example";
  runner_uuid = "";
  site = "";
  enabled = true;
  is_local = false;
  is_registered = true;
  pki_quarantined = false;
  drain_job_id = none;
  drain_requested_at = none;
  drain_reason = "";
  status_message = "";
  last_heartbeat_at = some 990;
  running_steps = 0;
  max_concurrent_steps = 2;
  capabilities = "ansible" ∷ [];
  environments = [];
}

abbrev pub slice_of : SliceStatus → Slice
slice_of status = record {
  id = 31;
  position = 1;
  dispatch_target = Target.remote;
  required_runner_id = some 7;
  assigned_runner_id = none;
  runner_name = "";
  runner_hostname = "";
  required_capabilities = "ansible" ∷ [];
  hosts = "web1" ∷ [];
  host_count = 1;
  status = status;
  assigned_at = none;
  started_at = none;
  finished_at = none;
  exit_code = none;
  dispatch_token = "";
  message = "";
  command = "";
  stdout = "";
  stderr = "";
  custom_stats = Fields.end;
}

abbrev pub step_of : ℕ → List ℕ → StepStatus → List Slice → Step
step_of position depends_on status slices = record {
  position = position;
  depends_on = depends_on;
  failure_only = false;
  oversight_required_before = false;
  oversight_approved = false;
  refresh_inventory_after = false;
  is_shell = true;
  requirement = none;
  status = status;
  started_at = none;
  finished_at = none;
  exit_code = none;
  command = "";
  stdout = "";
  stderr = "";
  custom_stats = Fields.end;
  execution_slices = slices;
  host_results = [];
}

abbrev pub job_of : ℕ → JobStatus → List Step → Job
job_of id status steps = record {
  id = id;
  project_id = 3;
  status = status;
  dispatch_target = Target.sliced;
  assigned_runner_id = none;
  required_runner_id = none;
  required_runner_site = "";
  required_capabilities = [];
  oversight_required_between_all_steps = false;
  concurrency_policy = Policy.serialized;
  concurrency_signature = none;
  queued_at = 100;
  started_at = none;
  finished_at = none;
  cancel_requested_at = none;
  exit_code = none;
  dispatch_token = "";
  message = "";
  steps = steps;
}

-- a finished first step, and a pending second one behind it
abbrev pub done_step : Step
done_step = step_of 1 [] StepStatus.successful (slice_of SliceStatus.successful ∷ [])

abbrev pub failed_step : Step
failed_step = step_of 1 [] StepStatus.failed (slice_of SliceStatus.failed ∷ [])

abbrev pub next_step : Step
next_step = step_of 2 (1 ∷ []) StepStatus.pending (slice_of SliceStatus.pending ∷ [])

-- the second step, held back until it has been reviewed
abbrev pub reviewed_step : Step
reviewed_step = record next_step { oversight_required_before = true }

abbrev pub gated_job : JobStatus → Job
gated_job status = record (job_of 5 status (done_step ∷ reviewed_step ∷ [])) {
  oversight_required_between_all_steps = true;
}

-- a step that is running beside the two
abbrev pub busy_step : Step
busy_step = step_of 3 [] StepStatus.running (slice_of SliceStatus.running ∷ [])

abbrev pub busy_job : Job
busy_job = record (job_of 5 JobStatus.running (done_step ∷ reviewed_step ∷ busy_step ∷ [])) {
  oversight_required_between_all_steps = true;
}

-- the step that runs only after the failure of the first
abbrev pub cleanup_step : Step
cleanup_step = record (step_of 3 (1 ∷ []) StepStatus.pending []) { failure_only = true }
