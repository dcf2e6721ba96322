-- ===== src/Oversight/Laws.antt =====
-- What a pause and its approval do.
use journeyman.Base.{
  true, false, ◌≡◌, ◌≢◌, sym, subst, ◌⊎◌, inl, inr, ◌&&◌, List, [], ◌∷◌, map, any, All, All₂,
  sort_with-All, keep_none, Bool-cases, arith,
}
use journeyman.Job.{Job, JobStatus, Step, is_pending, is_running}
use journeyman.Workflow.{DependencyState, dependency_state}
use journeyman.Workflow.Engines.{is_eligible}
use journeyman.Workflow.Stability.{Evolves, dependency_state_final}
use journeyman.Oversight.{
  needs_review, oversight_candidates, is_closing, update_job_oversight_state, approve_step,
  approve_current_oversight,
}

-- If `update_job_oversight_state` pauses a job, the job waits for oversight with its steps as they
-- were, no step of it runs, it was not closing, and the reviewer is told of exactly its candidates.
pub update_job_oversight_state-pauses :
    (job : Job)
    → (update_job_oversight_state job).changed ≡ true
    → let after = update_job_oversight_state job in
      (after.job.status ≡ JobStatus.waiting_oversight)
      × (after.job.steps ≡ job.steps)
      × (any (λ s. is_running s.status) job.steps ≡ false)
      × (is_closing job.status ≡ false)
      × (after.notified ≡ oversight_candidates job)
      × (oversight_candidates job ≢ [])
unfolding update_job_oversight_state
update_job_oversight_state-pauses job h = ground arith

-- If it does not pause the job, it changes nothing of it.
pub update_job_oversight_state_idle :
    (job : Job)
    → (update_job_oversight_state job).changed ≡ false
    → (update_job_oversight_state job).job ≡ job
unfolding update_job_oversight_state
update_job_oversight_state_idle job h = ground arith

approve_step-Evolves : (old : List Step) (s : Step) → Evolves (approve_step old s) s
approve_step-Evolves old s = ground arith

approved-Evolves : (old steps : List Step) → All₂ Evolves (map (approve_step old) steps) steps
approved-Evolves old [] = tt
approved-Evolves old (s ∷ steps) = (approve_step-Evolves old s, approved-Evolves old steps)

needs_review-approve_step :
    (old new : List Step) (s : Step)
    → All₂ Evolves new old
    → needs_review new (approve_step old s) ≡ false
needs_review-approve_step old new s h = elim (Bool-cases (needs_review old s)) [
  | inl reviewed ↦ rw reviewed (approved_passes (dependency_state _ new))
  | inr passed ↦ rw passed (ground (arith, dependency_state_final s new old h))
]
  where
    approved_passes :
        (d : DependencyState)
        → (is_pending s.status && s.oversight_required_before && false && is_eligible d) ≡ false
    approved_passes d = ground arith

none_left :
    (old new steps : List Step)
    → All₂ Evolves new old
    → All (λ s. needs_review new s ≡ false) (map (approve_step old) steps)
none_left old new [] h = tt
none_left old new (s ∷ steps) h = (needs_review-approve_step old new s h, none_left old new steps h)

candidates-approved :
    (job after : Job)
    → after.steps ≡ map (approve_step job.steps) job.steps
    → oversight_candidates after ≡ []
unfolding oversight_candidates
candidates-approved job after e = elim (Bool-cases after.oversight_required_between_all_steps) [
  | inl on ↦ rw on (
      keep_none (needs_review after.steps) _
        (sort_with-All _ (λ s. needs_review after.steps s ≡ false) after.steps clear))
  | inr off ↦ rw off
]
  where
    clear : All (λ s. needs_review after.steps s ≡ false) after.steps
    clear =
        subst (λ steps. All (λ s. needs_review steps s ≡ false) steps) (sym e)
          (none_left job.steps _ job.steps (approved-Evolves job.steps job.steps))

-- If an approval lets some steps proceed, the job was waiting for oversight, exactly its candidates
-- were approved, no candidate is left, the job is queued or running, and the next look at the gate
-- does not pause it again.
pub approve_current_oversight-clears :
    (job : Job)
    → (approve_current_oversight job).1 ≢ []
    → let (after, approved) = approve_current_oversight job in
      (job.status ≡ JobStatus.waiting_oversight)
      × (approved ≡ oversight_candidates job)
      × (after.steps ≡ map (approve_step job.steps) job.steps)
      × (oversight_candidates after ≡ [])
      × ((after.status ≡ JobStatus.queued) ⊎ (after.status ≡ JobStatus.running))
      × ((update_job_oversight_state after).changed ≡ false)
unfolding approve_current_oversight update_job_oversight_state
approve_current_oversight-clears job h =
    let after = (approve_current_oversight job).0 in ground (arith, candidates-approved job after)
