-- ===== src/Dispatch.antt =====
-- Jobs that a remote runner executes as a whole: the claim of app/services/runner_dispatch.py and the
-- start and control poll of app/services/runner_job_lifecycle.py.
pub mod Report
pub mod Claims
pub mod Once
use journeyman.Base.{
  ℕ, Bool, true, false, ◌&&◌, ◌||◌, not, Option, none, some, List, [], ◌∷◌, String, all, map, keep,
  sort_with, first, if◌then◌else◌, ◌==◌, leb, is_none, opt_eq, str_eq,
}
use journeyman.Base.Text.{Python, is_empty, concat}
use journeyman.Runner.{Runner, runner_health, is_healthy, runner_environment_ready, is_subset}
use journeyman.Job.{Job, JobStatus, Step, Target}
use journeyman.Lifecycle.{
  Reason, assignment_mismatch, already_started, invalid_state, started, is_remote, is_cancelling,
}
use journeyman.Concurrency.{job_can_start, queued_le, is_queued}

-- `_runner_has_required_environments`
abbrev pub has_required_environments : Runner → Job → Bool
has_required_environments runner job =
    all (λ step. step.is_shell || runner_environment_ready runner step.requirement) job.steps

-- `str(site or "").strip().lower()`
abbrev pub site_word : Python → String → String
site_word py site = py.lower (py.strip site)

abbrev pub site_allows : Python → Runner → Job → Bool
site_allows py runner job =
    is_empty (site_word py job.required_runner_site)
    || str_eq (site_word py runner.site) (site_word py job.required_runner_site)

unfoldable pub runner_can_claim : Python → ℕ → Runner → List Job → Job → Bool
runner_can_claim py now runner jobs job =
    is_none runner.drain_job_id
    && is_healthy (runner_health now runner)
    && not (leb runner.max_concurrent_steps runner.running_steps)
    && is_remote job.dispatch_target
    && is_queued job.status
    && job_can_start job jobs
    && (is_none job.required_runner_id || opt_eq job.required_runner_id (some runner.id))
    && site_allows py runner job
    && is_subset job.required_capabilities runner.capabilities
    && has_required_environments runner job

-- the columns of the conditional UPDATE
abbrev pub assigned_job : Runner → String → Job → Job
assigned_job runner token job = record job {
  assigned_runner_id = some runner.id;
  dispatch_token = token;
  message = concat ("Assigned to remote runner " ∷ runner.name ∷ "." ∷ []);
}

-- the rows that the UPDATE matches
abbrev pub is_unassigned : Job → Bool
is_unassigned job =
    is_queued job.status && is_remote job.dispatch_target && is_none job.assigned_runner_id

-- what a look at one candidate gives: the assigned row, the next candidate, or the end of the loop
pub data Look : Type 0 where
  taken : Job → Look
  passed gone : Look

abbrev pub look_locked : Python → ℕ → String → List Job → Job → Option Runner → Look
look_locked py now token jobs job none = gone
look_locked py now token jobs job (some locked) =
    if not (is_none locked.drain_job_id)
    then gone
    else if runner_can_claim py now locked jobs job && is_unassigned job
    then taken (assigned_job locked token job)
    else passed

-- `locked` is the runner's row as the lock reads it
abbrev pub look_at : Python → ℕ → String → Runner → Option Runner → List Job → Job → Look
look_at py now token runner locked jobs job =
    if runner_can_claim py now runner jobs job
    then look_locked py now token jobs job locked
    else passed

abbrev pub claim_first :
    Python → ℕ → String → Runner → Option Runner → List Job → List Job → Option Job
claim_first py now token runner locked jobs [] = none
claim_first py now token runner locked jobs (c ∷ cs) =
    let rest = claim_first py now token runner locked jobs cs in
    elim (look_at py now token runner locked jobs c) [
      | taken job ↦ some job
      | passed ↦ rest
      | gone ↦ none
    ]

abbrev pub candidates_of : List Job → List Job
candidates_of jobs =
    sort_with queued_le (keep (λ j. is_queued j.status && is_remote j.dispatch_target) jobs)

-- `claim_next_remote_job`: the row after the claim, with the token
unfoldable pub claim_next_remote_job :
    Python → ℕ → String → Runner → Option Runner → List Job → Option Job
claim_next_remote_job py now token runner locked jobs =
    claim_first py now token runner locked jobs (candidates_of jobs)

-- `assignment_matches` of a job
unfoldable pub job_assignment_matches : Job → Runner → String → Bool
job_assignment_matches job runner token =
    is_remote job.dispatch_target
    && opt_eq job.assigned_runner_id (some runner.id)
    && not (is_empty job.dispatch_token)
    && not (is_empty token)
    && str_eq job.dispatch_token token

abbrev pub is_started : JobStatus → Bool
is_started JobStatus.running = true
is_started JobStatus.cancelling = true
is_started _ = false

abbrev pub started_row : ℕ → Runner → Job → Job
started_row now runner job = record job {
  status = JobStatus.running;
  started_at = some now;
  finished_at = none;
  exit_code = none;
  message = concat ("Running on remote runner " ∷ runner.name ∷ "." ∷ []);
}

unfoldable pub start_remote_job : ℕ → Job → Runner → String → Job × Bool × Reason
unfolding job_assignment_matches
start_remote_job now job runner token =
    if not (job_assignment_matches job runner token)
    then (job, false, assignment_mismatch)
    else if is_queued job.status
    then (started_row now runner job, true, started)
    else if is_started job.status
    then (job, true, already_started)
    else (job, false, invalid_state)

-- the status and cancel_requested
unfoldable pub remote_job_control : Job → Runner → String → Option (JobStatus × Bool)
unfolding job_assignment_matches
remote_job_control job runner token =
    if job_assignment_matches job runner token
    then some (job.status, is_cancelling job.status)
    else none
