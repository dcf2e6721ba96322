-- ===== src/System.antt =====
-- The jobs of the table under every operation that moves one: launches, claims (of
-- app/services/runner_slice_dispatch.py and bin/journeyman-runner), progress, oversight, stops and the
-- recovery of hanging stops, as one sequence of transactions. A transaction is a function of the
-- table; the runners, steps and times that it reads are part of the event.
pub mod Moves
pub mod Starts
pub mod Handover
pub mod Remote
pub mod Pairs
pub mod Serial
pub mod Serialized
use journeyman.Base.{
  ℕ, Bool, true, false, ◌&&◌, ◌||◌, not, Option, none, some, List, [], ◌∷◌, String, any, all, map,
  if◌then◌else◌, ◌==◌, is_none,
}
use journeyman.Base.Text.{Python, Fields}
use journeyman.Runner.{Runner}
use journeyman.Job.{Job, JobStatus, Step, Slice, Target}
use journeyman.Workflow.{reconcile_steps}
use journeyman.Oversight.{update_job_oversight_state, approve_current_oversight}
use journeyman.Concurrency.{job_can_start, is_queued, queued_le}
use journeyman.Claim.{Claim, runner_can_claim_slice, Assigned, assign_slice, is_dispatched}
use journeyman.Lifecycle.{Reason, put_slice, put_step, is_local_target, start_local_slice}
use journeyman.Lifecycle.Completion.{reconciled, close_job}
use journeyman.Dispatch.{Look, taken, look_at, start_remote_job}
use journeyman.Dispatch.Report.{complete_remote_job}
use journeyman.Draining.{unassign_not_started_work}
use journeyman.Cancellation.{cancel_job, recover_stale_cancelling_jobs}

pub data Event : Type 0 where
  -- a job row that is new and last in the queue; its columns for a start are empty
  launch : Job → Event
  -- a remote runner claims a slice of a step of a job, with a fresh token
  claim_remote :
      (now : ℕ) (runner : Runner) (job_id : ℕ) (step : Step) (s : Slice) (token : String) → Event
  -- the local runner claims a slice, or a whole job
  claim_local :
      (now : ℕ) (runner : Runner) (ready : Bool) (job_id : ℕ) (step : Step) (s : Slice) → Event
  claim_whole : (now : ℕ) (ready : Bool) (job_id : ℕ) → Event
  -- a remote runner claims a whole job, starts it and completes it
  claim_job : (py : Python) (now : ℕ) (runner : Runner) (job_id : ℕ) (token : String) → Event
  start_job : (now : ℕ) (runner : Runner) (job_id : ℕ) (token : String) → Event
  complete_job :
      (py : Python) (now : ℕ) (runner : Runner) (job_id : ℕ) (token : String) (payload : Fields)
      → Event
  -- a drain takes the work that has not started from a runner
  drain : (runner_id : ℕ) → Event
  -- runners report: the steps of the job become any others, and the job is closed if they are done
  progress : (now : ℕ) (job_id : ℕ) (steps : List Step) → Event
  -- a poll settles the steps of a job and looks at its oversight gate
  review : (now : ℕ) (job_id : ℕ) → Event
  approve : (job_id : ℕ) → Event
  cancel : (now : ℕ) (source : String) (job_id : ℕ) → Event
  recover : (now : ℕ) (configured : ℕ) (runners : List Runner) → Event

-- an UPDATE of the row with an id
abbrev pub on_job : ℕ → (Job → Job) → List Job → List Job
on_job id f jobs = map (λ j. if j.id == id then f j else j) jobs

abbrev pub is_known : ℕ → List Job → Bool
is_known id jobs = any (λ j. j.id == id) jobs

-- what a launch leaves in a new row
abbrev pub is_new : Job → Bool
is_new job = is_queued job.status && is_none job.started_at && is_none job.assigned_runner_id

-- `queued_at` is the time of the launch and ids grow, so that a new row is behind all others
abbrev pub is_last : Job → List Job → Bool
is_last job jobs = all (λ j. queued_le j job) jobs

abbrev pub can_be_launched : Job → List Job → Bool
can_be_launched job jobs = not (is_known job.id jobs) && is_new job && is_last job jobs

-- the job after the UPDATE of a claim
abbrev pub claimed : Job → Option Assigned → Job
claimed job none = job
claimed job (some a) = put_step (put_slice a.assigned a.step) a.job

abbrev pub after_claim : ℕ → Runner → Step → Slice → String → Job → Claim → Job
after_claim now runner step s token job Claim.declined = job
after_claim now runner step s token job (Claim.paused paused) = paused
after_claim now runner step s token job Claim.allowed =
    claimed job (assign_slice now token runner job step s)

abbrev pub claim_remote_on : ℕ → Runner → List Job → Step → Slice → String → Job → Job
claim_remote_on now runner jobs step s token job =
    after_claim now runner step s token job (runner_can_claim_slice now runner jobs job step s)

-- `reconcile_non_runnable_steps(job)`
abbrev pub reconcile : ℕ → Job → Job
reconcile now job = record job { steps = reconciled now job.steps }

abbrev pub is_sliced_target : Target → Bool
is_sliced_target Target.sliced = true
is_sliced_target _ = false

-- the body of the loop of `claim_next_local_slice` on a job, up to the slice that it starts; `ready` is
-- the answer of `management_job_ready_to_start`; its drain is the event `drain`, its message is left out
abbrev pub claim_local_on : ℕ → Runner → Bool → List Job → Step → Slice → Job → Job
claim_local_on now runner ready jobs step s job =
    let looked = update_job_oversight_state (reconcile now job) in
    if is_sliced_target job.dispatch_target
      && is_dispatched job.status
      && job_can_start job jobs
      && ready
    then if looked.changed then looked.job else (start_local_slice now looked.job step s runner).0
    else job

-- `claim_next_job` on a job, with the same answer
abbrev pub claim_whole_on : ℕ → Bool → List Job → Job → Job
claim_whole_on now ready jobs job =
    if is_queued job.status
      && is_local_target job.dispatch_target
      && job_can_start job jobs
      && ready
    then record job {
      status = JobStatus.running;
      started_at = some now;
      finished_at = none;
      exit_code = none;
      message = "Claimed by Journeyman runner.";
    }
    else job

-- a round of the loop of `claim_next_remote_job`, for a runner whose row is as it was read
abbrev pub handed : Job → Look → Job
handed job (taken after) = after
handed job _ = job

-- one transaction on the table
unfoldable pub transact : Event → List Job → List Job
transact (launch job) jobs = if can_be_launched job jobs then job ∷ jobs else jobs
transact (claim_remote now runner id step s token) jobs =
    on_job id (claim_remote_on now runner jobs step s token) jobs
transact (claim_local now runner ready id step s) jobs =
    on_job id (claim_local_on now runner ready jobs step s) jobs
transact (claim_whole now ready id) jobs = on_job id (claim_whole_on now ready jobs) jobs
transact (claim_job py now runner id token) jobs =
    on_job id (λ job. handed job (look_at py now token runner (some runner) jobs job)) jobs
transact (start_job now runner id token) jobs =
    on_job id (λ job. (start_remote_job now job runner token).0) jobs
transact (complete_job py now runner id token payload) jobs =
    on_job id (λ job. (complete_remote_job py now job runner token payload).0) jobs
transact (drain runner_id) jobs = unassign_not_started_work runner_id jobs
transact (progress now id steps) jobs =
    on_job id (λ job. close_job now (record job { steps = steps })) jobs
transact (review now id) jobs =
    on_job id (λ job. (update_job_oversight_state (reconcile now job)).job) jobs
transact (approve id) jobs = on_job id (λ job. (approve_current_oversight job).0) jobs
transact (cancel now source id) jobs = on_job id (λ job. (cancel_job now source job []).job) jobs
transact (recover now configured runners) jobs =
    (recover_stale_cancelling_jobs now configured jobs runners).0

unfoldable pub run : List Event → List Job → List Job
unfolding transact
run [] jobs = jobs
run (e ∷ es) jobs = run es (transact e jobs)
