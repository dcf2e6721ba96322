-- ===== src/Routing/Planning/Rows.antt =====
-- The rows for the plans of a step: `materialize_step_execution_slices` of
-- app/services/execution_slices.py, with `set_hosts` and `set_required_capabilities` of
-- app/models/job_step_execution_slice.py.
use journeyman.Base.{ℕ, suc, none, List, [], ◌∷◌, String, length}
use journeyman.Base.Text.{end, Python}
use journeyman.Job.{Step, Slice, SliceStatus}
use journeyman.Lifecycle.Report.{sorted_hosts}
use journeyman.Job.Columns.{stripped, required_set}
use journeyman.Routing.Planning.{Plan}

module _ (py : Python) (capabilities : List String) where
  -- the row for a plan; its id comes with the database, and the other columns hold their defaults
  abbrev pub new_slice : ℕ → Plan → Slice
  new_slice position plan = record {
    id = 0;
    position = position;
    dispatch_target = plan.dispatch_target;
    required_runner_id = plan.required_runner_id;
    assigned_runner_id = none;
    runner_name = plan.runner_name;
    runner_hostname = plan.runner_hostname;
    required_capabilities = sorted_hosts (required_set py capabilities);
    hosts = sorted_hosts (stripped py plan.hosts);
    host_count = length (sorted_hosts (stripped py plan.hosts));
    status = SliceStatus.pending;
    assigned_at = none;
    started_at = none;
    finished_at = none;
    exit_code = none;
    dispatch_token = "";
    message = "";
    command = "";
    stdout = "";
    stderr = "";
    custom_stats = end;
  }

  abbrev pub enumerate_plans : ℕ → List Plan → List Slice
  enumerate_plans position [] = []
  enumerate_plans position (p ∷ ps) = new_slice position p ∷ enumerate_plans (suc position) ps

  -- `materialize_step_execution_slices`
  abbrev pub materialize_step_execution_slices : Step → List Plan → Step
  materialize_step_execution_slices step plans = record step {
    execution_slices = enumerate_plans 1 plans;
  }
