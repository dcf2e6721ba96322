-- ===== src/Concurrency.antt =====
-- Concurrent executions of one Project: app/services/project_concurrency.py.
-- The Job table is a list of jobs; a query filters it and sorts it by `(queued_at, id)`.
pub mod Exclusion
pub mod Blockers
use journeyman.Base.{
  ℕ, Bool, true, false, ◌&&◌, ◌||◌, not, Option, none, some, List, String, keep, sort_with, head?,
  first, if◌then◌else◌, ◌==◌, ltb, leb, is_none, str_eq,
}
use journeyman.Base.Text.{concat, show}
use journeyman.Job.{Job, JobStatus, Policy}

-- ACTIVE_PROJECT_JOB_STATUSES
abbrev pub is_active : JobStatus → Bool
is_active JobStatus.queued = true
is_active JobStatus.running = true
is_active JobStatus.waiting_oversight = true
is_active JobStatus.cancelling = true
is_active _ = false

-- EXECUTING_PROJECT_JOB_STATUSES
abbrev pub is_executing : JobStatus → Bool
is_executing JobStatus.running = true
is_executing JobStatus.waiting_oversight = true
is_executing JobStatus.cancelling = true
is_executing _ = false

abbrev pub is_queued : JobStatus → Bool
is_queued JobStatus.queued = true
is_queued _ = false

-- `order_by(Job.queued_at.asc(), Job.id.asc())`
abbrev pub queued_le : Job → Job → Bool
queued_le a b = ltb a.queued_at b.queued_at || (a.queued_at == b.queued_at && leb a.id b.id)

-- `(other.queued_at, other.id) < (job.queued_at, job.id)`
abbrev pub queued_before : Job → Job → Bool
queued_before a b = ltb a.queued_at b.queued_at || (a.queued_at == b.queued_at && ltb a.id b.id)

abbrev pub excludes : Option ℕ → Job → Bool
excludes none j = true
excludes (some id) j = not (j.id == id)

-- `(Job.concurrency_signature == signature) | Job.concurrency_signature.is_(None)`
abbrev pub same_signature : String → Option String → Bool
same_signature signature none = true
same_signature signature (some other) = str_eq other signature

abbrev pub policy_matches : Policy → String → Job → Bool
policy_matches Policy.distinct_parameters signature j =
    same_signature signature j.concurrency_signature
policy_matches _ signature j = true

-- the filters of the query of `launch_blocking_job`
abbrev pub blocks_launch : ℕ → Policy → String → Option ℕ → Job → Bool
blocks_launch project_id policy signature exclude_job_id j =
    j.project_id == project_id
    && is_active j.status
    && excludes exclude_job_id j
    && policy_matches policy signature j

abbrev pub launches_freely : Policy → Bool
launches_freely Policy.unrestricted = true
launches_freely Policy.serialized = true
launches_freely _ = false

unfoldable pub launch_blocking_job : Option ℕ → Policy → String → Option ℕ → List Job → Option Job
launch_blocking_job none policy signature exclude_job_id jobs = none
launch_blocking_job (some project_id) policy signature exclude_job_id jobs =
    if launches_freely policy
    then none
    else head?
        (sort_with queued_le (keep (blocks_launch project_id policy signature exclude_job_id) jobs))

abbrev pub is_serialized : Policy → Bool
is_serialized Policy.serialized = true
is_serialized _ = false

-- the filters of the query of `serialized_blocking_job`
abbrev pub is_other : Job → Job → Bool
is_other job j = j.project_id == job.project_id && not (j.id == job.id) && is_active j.status

-- the tests of its loop
abbrev pub goes_first : Job → Job → Bool
goes_first job other =
    is_executing other.status || (is_queued other.status && queued_before other job)

unfoldable pub serialized_blocking_job : Job → List Job → Option Job
serialized_blocking_job job jobs =
    if not (is_serialized job.concurrency_policy)
    then none
    else first (goes_first job) (sort_with queued_le (keep (is_other job) jobs))

unfoldable pub job_can_start : Job → List Job → Bool
unfolding serialized_blocking_job
job_can_start job jobs = is_none (serialized_blocking_job job jobs)
