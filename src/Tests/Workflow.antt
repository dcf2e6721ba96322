-- ===== src/Tests/Workflow.antt =====
-- Witnesses on the dependency graph, the engines and the oversight gate.
use journeyman.Base.{
  true, false, some, List, [], ◌∷◌, ◌≡◌, refl, map, take, keep, All, All₂, arith, ◌≢◌, ◌⊎◌,
}
use journeyman.Tests.{done_step, failed_step, next_step, cleanup_step, gated_job}
use journeyman.Job.{JobStatus, Step, StepStatus, step_at}
use journeyman.Workflow.{DependencyState, has_failure_branch, dependency_state, reconcile_steps}
use journeyman.Workflow.Stability.{Evolves, Evolves-refl, dependency_state_final}
use journeyman.Workflow.Reconcile.{IsJust, IsSettled, reconcile_steps-total}
use journeyman.Workflow.Local.{local_verdict, select_eligible_steps}
use journeyman.Workflow.Engines.{
  handled_failure_differs, select_eligible_steps-take, is_skip, is_runnable,
}
use journeyman.Oversight.{
  update_job_oversight_state, approve_current_oversight, approve_step, oversight_candidates,
}
use journeyman.Oversight.Laws.{approve_current_oversight-clears}

reconcile_steps-total_example :
    (result : List Step) × (reconcile_steps 1000 (failed_step ∷ next_step ∷ []) ≡ some result)
    × All₂ (IsJust result) (failed_step ∷ next_step ∷ []) result
    × All (IsSettled result) result
reconcile_steps-total_example = reconcile_steps-total 1000 (failed_step ∷ next_step ∷ [])

handled_failure_differs_example :
    (dependency_state next_step (failed_step ∷ next_step ∷ cleanup_step ∷ [])
      ≡ DependencyState.blocked)
    × (is_skip (local_verdict next_step (failed_step ∷ next_step ∷ cleanup_step ∷ [])) ≡ true)
unfolding step_at has_failure_branch
handled_failure_differs_example =
    handled_failure_differs next_step (failed_step ∷ next_step ∷ cleanup_step ∷ []) refl refl refl
      refl

select_eligible_steps-take_example :
    let (closed, eligible) = select_eligible_steps 1000 1 (done_step ∷ next_step ∷ []) in
    eligible ≡ take 1 (keep (is_runnable closed) closed)
select_eligible_steps-take_example =
    select_eligible_steps-take 1000 1 (done_step ∷ next_step ∷ []) (omega arith)

started_step : Step
started_step = record next_step { status = StepStatus.running; started_at = some 1000 }

next-Evolves : Evolves next_step started_step
unfolding started_step
next-Evolves = record { same_position = refl; terminal_stays = λ h. absurd (clash h) }
  where
    clash : false ≡ true → ⊥
    clash h = cc

is_not_waiting : dependency_state next_step (done_step ∷ next_step ∷ []) ≢ DependencyState.waiting
unfolding dependency_state step_at
is_not_waiting h = cc

dependency_state_final_example :
    dependency_state next_step (done_step ∷ started_step ∷ [])
    ≡ dependency_state next_step (done_step ∷ next_step ∷ [])
dependency_state_final_example =
    dependency_state_final next_step (done_step ∷ next_step ∷ []) (done_step ∷ started_step ∷ [])
      (Evolves-refl done_step, (next-Evolves, tt)) is_not_waiting

has_approved : (approve_current_oversight (gated_job JobStatus.waiting_oversight)).1 ≢ []
unfolding approve_current_oversight oversight_candidates dependency_state step_at
has_approved h = cc

approve_current_oversight-clears_example :
    let job = gated_job JobStatus.waiting_oversight in
    let (after, approved) = approve_current_oversight job in
    (job.status ≡ JobStatus.waiting_oversight)
    × (approved ≡ oversight_candidates job)
    × (after.steps ≡ map (approve_step job.steps) job.steps)
    × (oversight_candidates after ≡ [])
    × ((after.status ≡ JobStatus.queued) ⊎ (after.status ≡ JobStatus.running))
    × ((update_job_oversight_state after).changed ≡ false)
approve_current_oversight-clears_example =
    approve_current_oversight-clears (gated_job JobStatus.waiting_oversight) has_approved
