-- ===== src/Draining.antt =====
-- Draining a runner for a management job: app/services/runner_draining.py. The tables of runners, jobs
-- and environment syncs are arguments.
pub mod Ready
pub mod Idle
use journeyman.Base.{
  ℕ, Bool, true, false, ◌&&◌, ◌||◌, not, Option, none, some, List, [], ◌∷◌, String, any, map, keep,
  first, if◌then◌else◌, ◌==◌, opt_eq, is_none, ltb, str_eq,
}
use journeyman.Base.Text.{
  Json, Fields, obj, Python, is_empty, concat, show, text_or_empty, take_text, get, or_text,
}
use Prim.Native.String
use journeyman.Runner.{Runner}
use journeyman.Job.{Job, JobStatus, Step, Slice, SliceStatus, Target}
use journeyman.Lifecycle.{is_remote, is_slice_assigned, is_slice_running}
use journeyman.Concurrency.{is_queued}
use journeyman.Propagation.{contains}

-- RunnerEnvironmentSync, with `status == "building"`
pub record EnvironmentSync : Type 0 where
  pub runner_id : ℕ
  pub is_building : Bool

-- `_unassign_not_started_work`: both UPDATEs, on a job and the slices of its steps
abbrev pub returned : String
returned = "Returned to the queue because the runner is draining."

abbrev pub holds_job : ℕ → Job → Bool
holds_job id job =
    opt_eq job.assigned_runner_id (some id) && is_remote job.dispatch_target && is_queued job.status

abbrev pub holds_slice : ℕ → Slice → Bool
holds_slice id s = opt_eq s.assigned_runner_id (some id) && is_slice_assigned s.status

abbrev pub unassign_slice : ℕ → Slice → Slice
unassign_slice id s =
    if holds_slice id s
    then record s {
      assigned_runner_id = none;
      assigned_at = none;
      dispatch_token = "";
      status = SliceStatus.pending;
      message = returned;
    }
    else s

abbrev pub unassign_step : ℕ → Step → Step
unassign_step id step = record step {
  execution_slices = map (unassign_slice id) step.execution_slices;
}

abbrev pub unassign_row : ℕ → Job → Job
unassign_row id job =
    if holds_job id job
    then record job { assigned_runner_id = none; dispatch_token = ""; message = returned }
    else job

abbrev pub unassign_job : ℕ → Job → Job
unassign_job id job = record (unassign_row id job) { steps = map (unassign_step id) job.steps }

unfoldable pub unassign_not_started_work : ℕ → List Job → List Job
unassign_not_started_work id jobs = map (unassign_job id) jobs

-- an answer, with the tables after it
pub record Drained : Type 0 where
  pub granted : Bool
  pub runners : List Runner
  pub jobs : List Job

abbrev pub drain_reason_of : String → ℕ → String
drain_reason_of action job_id =
    take_text 255 (concat ("Runner management: " ∷ action ∷ " (Job #" ∷ show job_id ∷ ")" ∷ []))

-- the columns of a drain; a drain that the job has already stays as it is
abbrev pub drain_row : ℕ → ℕ → String → Runner → Runner
drain_row now job_id action runner =
    if is_none runner.drain_job_id
    then record runner {
      drain_job_id = some job_id;
      drain_requested_at = some now;
      drain_reason = drain_reason_of action job_id;
    }
    else runner

-- the row that the drain locks
abbrev pub row_of : ℕ → List Runner → Option Runner
row_of id runners = first (λ r. r.id == id) runners

abbrev pub may_drain : ℕ → Runner → Bool
may_drain job_id locked =
    not locked.is_local && (is_none locked.drain_job_id || opt_eq locked.drain_job_id (some job_id))

abbrev pub drain_locked : ℕ → List Runner → List Job → ℕ → String → ℕ → Option Runner → Drained
drain_locked now runners jobs job_id action id none = record {
  granted = false;
  runners = runners;
  jobs = jobs;
}
drain_locked now runners jobs job_id action id (some locked) =
    if may_drain job_id locked
    then record {
      granted = true;
      runners = map (λ r. if r.id == id then drain_row now job_id action r else r) runners;
      jobs = unassign_not_started_work id jobs;
    }
    else record { granted = false; runners = runners; jobs = jobs }

-- `request_runner_drain`, for a runner that is there
unfoldable pub request_runner_drain : ℕ → List Runner → List Job → Runner → ℕ → String → Drained
request_runner_drain now runners jobs runner job_id action =
    if runner.is_local
    then record { granted = false; runners = runners; jobs = jobs }
    else drain_locked now runners jobs job_id action runner.id (row_of runner.id runners)

-- `runner_has_active_work`
abbrev pub runs_job : ℕ → Job → Bool
runs_job id job =
    opt_eq job.assigned_runner_id (some id)
    && elim job.status [ JobStatus.running ↦ true | JobStatus.cancelling ↦ true | _ ↦ false ]

abbrev pub runs_slice : ℕ → Job → Bool
runs_slice id job =
    any
      (λ step.
        any (λ s. opt_eq s.assigned_runner_id (some id) && is_slice_running s.status)
          step.execution_slices)
      job.steps

unfoldable pub runner_has_active_work : List Job → List EnvironmentSync → Runner → Bool
runner_has_active_work jobs syncs runner =
    any (runs_job runner.id) jobs
    || any (runs_slice runner.id) jobs
    || any (λ e. e.runner_id == runner.id && e.is_building) syncs
    || ltb 0 runner.running_steps
