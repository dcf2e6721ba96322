-- ===== src/Oversight.antt =====
-- Execution-time oversight gates: app/services/project_oversight.py.
pub mod Laws
use journeyman.Base.{
  ℕ, Bool, true, false, ◌&&◌, ◌||◌, not, Option, none, some, List, [], ◌∷◌, map, any, keep, sort_by,
  if◌then◌else◌, is_none, String,
}
use journeyman.Base.Text.{concat, join_commas, show}
use journeyman.Job.{Job, JobStatus, Step, Target, is_pending, is_running}
use journeyman.Workflow.{DependencyState, dependency_state}
use journeyman.Workflow.Engines.{is_eligible}

-- the condition of the comprehension in `oversight_candidates`
abbrev pub needs_review : List Step → Step → Bool
needs_review steps step =
    is_pending step.status
    && step.oversight_required_before
    && not step.oversight_approved
    && is_eligible (dependency_state step steps)

unfoldable pub oversight_candidates : Job → List Step
oversight_candidates job =
    if not job.oversight_required_between_all_steps
    then []
    else keep (needs_review job.steps) (sort_by (λ s. s.position) job.steps)

-- the statuses that end `update_job_oversight_state`
abbrev pub is_closing : JobStatus → Bool
is_closing JobStatus.successful = true
is_closing JobStatus.failed = true
is_closing JobStatus.cancelled = true
is_closing JobStatus.cancelling = true
is_closing _ = false

abbrev pub positions_text : List Step → String
positions_text steps = join_commas (map (λ s. show s.position) steps)

-- the job, whether it was paused, and the steps that `queue_oversight_required` is told of
pub record Paused : Type 0 where
  pub job : Job
  pub changed : Bool
  pub notified : List Step

abbrev pub unpaused : Job → Paused
unpaused job = record { job = job; changed = false; notified = [] }

abbrev pub pause : Job → List Step → Paused
pause job [] = unpaused job
pause job (s ∷ ss) = record {
  job = record job {
    status = JobStatus.waiting_oversight;
    message = concat ("Oversight required before step(s) " ∷ positions_text (s ∷ ss) ∷ "." ∷ []);
  };
  changed = true;
  notified = s ∷ ss;
}

unfoldable pub update_job_oversight_state : Job → Paused
unfolding oversight_candidates
update_job_oversight_state job =
    if not job.oversight_required_between_all_steps
    then unpaused job
    else if is_closing job.status
    then unpaused job
    else if any (λ s. is_running s.status) job.steps
    then unpaused job
    else pause job (oversight_candidates job)

abbrev pub is_waiting : JobStatus → Bool
is_waiting JobStatus.waiting_oversight = true
is_waiting _ = false

-- where an approved job goes on: only a local one goes back to the queue whatever its start
abbrev pub resumed_status : Target → Option ℕ → JobStatus
resumed_status Target.local started = JobStatus.queued
resumed_status _ started = if is_none started then JobStatus.queued else JobStatus.running

-- `step.oversight_approved = True` on the candidates
abbrev pub approve_step : List Step → Step → Step
approve_step steps step =
    if needs_review steps step then record step { oversight_approved = true } else step

abbrev pub resume : Job → List Step → Job × List Step
resume job [] = (job, [])
resume job (s ∷ ss) = (
  record job {
    steps = map (approve_step job.steps) job.steps;
    status = resumed_status job.dispatch_target job.started_at;
    message =
        concat ("Oversight completed; step(s) " ∷ positions_text (s ∷ ss) ∷ " may proceed." ∷ []);
  },
  s ∷ ss,
)

unfoldable pub approve_current_oversight : Job → Job × List Step
unfolding oversight_candidates
approve_current_oversight job =
    if not (is_waiting job.status) then (job, []) else resume job (oversight_candidates job)
