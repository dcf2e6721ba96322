-- ===== src/Claim/Guards.antt =====
-- What a claim that `runner_can_claim_slice` allows is guarded by: app/services/runner_slice_dispatch.py.
use journeyman.Base.{
  keep, sort_by, ℕ, true, false, ◌&&◌, ◌||◌, none, List, [], ◌∷◌, ◌≡◌, refl, ◌⊎◌, inl, inr, arith,
  any, ◌<◌, Bool-cases, if◌then◌else◌,
}
use journeyman.Runner.{Runner, Health, runner_health, runner_environment_ready, is_subset}
use journeyman.Job.{Job, Step, Slice, is_running}
use journeyman.Workflow.{DependencyState, dependency_state}
use journeyman.Concurrency.{serialized_blocking_job, job_can_start}
use journeyman.Oversight.{
  needs_review, update_job_oversight_state, oversight_candidates, is_closing, pause,
}
use journeyman.Claim.{Claim, runner_can_claim_slice, runner_may_take, step_may_run}

-- A claim that `runner_can_claim_slice` allows: the runner is not draining, is healthy and has a free
-- place, no earlier job of a serialized Project blocks the job, the step is eligible, the runner has
-- the slice's capabilities, and its environment is ready unless the step is a shell step.
pub runner_can_claim_slice-guards :
    (now : ℕ) (runner : Runner) (jobs : List Job) (job : Job) (step : Step) (s : Slice)
    → runner_can_claim_slice now runner jobs job step s ≡ Claim.allowed
    → (runner.drain_job_id ≡ none)
      × (runner_health now runner ≡ Health.healthy)
      × (runner.running_steps < runner.max_concurrent_steps)
      × (serialized_blocking_job job jobs ≡ none)
      × (dependency_state step job.steps ≡ DependencyState.eligible)
      × (is_subset s.required_capabilities runner.capabilities ≡ true)
      × ((step.is_shell || runner_environment_ready runner step.requirement) ≡ true)
unfolding runner_can_claim_slice job_can_start
runner_can_claim_slice-guards now runner jobs job step s h = ground arith

no_oversight :
    (job : Job) → job.oversight_required_between_all_steps ≡ false → oversight_candidates job ≡ []
unfolding oversight_candidates
no_oversight job h = ground arith

pause_nothing : (job : Job) (steps : List Step) → (pause job steps).changed ≡ false → steps ≡ []
pause_nothing job [] h = refl
pause_nothing job (x ∷ xs) h = absurd (clash h)
  where
    clash : true ≡ false → ⊥
    clash e = cc

not_paused :
    (job : Job)
    → (update_job_oversight_state job).changed ≡ false
    → is_closing job.status ≡ false
    → (oversight_candidates job ≡ []) ⊎ (any (λ x. is_running x.status) job.steps ≡ true)
unfolding update_job_oversight_state oversight_candidates
not_paused job h k = elim (Bool-cases job.oversight_required_between_all_steps) [
  | inr off ↦ inl (no_oversight job off)
  | inl on ↦ elim (Bool-cases (any (λ x. is_running x.status) job.steps)) [
    | inl r ↦ inr r
    | inr r ↦ inl (
        simp on (
          pause_nothing job (keep (needs_review job.steps) (sort_by (λ s. s.position) job.steps))
            (simp (on, k, r) at h)))
  ]
]

running_goes_on :
    (job : Job)
    → any (λ x. is_running x.status) job.steps ≡ true
    → (update_job_oversight_state job).changed ≡ false
unfolding update_job_oversight_state
running_goes_on job h = elim (Bool-cases job.oversight_required_between_all_steps) [
  | inr off ↦ rw off refl
  | inl on ↦ elim (Bool-cases (is_closing job.status)) [
    | inl c ↦ rw (on, c) refl
    | inr c ↦ rw (on, c, h) refl
  ]
]

allowed-unpaused :
    (now : ℕ) (runner : Runner) (jobs : List Job) (job : Job) (step : Step) (s : Slice)
    → runner_can_claim_slice now runner jobs job step s ≡ Claim.allowed
    → ((update_job_oversight_state job).changed ≡ false) × (is_closing job.status ≡ false)
unfolding runner_can_claim_slice
allowed-unpaused now runner jobs job step s h = ground arith

-- A claim that `runner_can_claim_slice` allows finds no step of the job that awaits oversight, or some
-- step of the job is running.
pub runner_can_claim_slice-oversight :
    (now : ℕ) (runner : Runner) (jobs : List Job) (job : Job) (step : Step) (s : Slice)
    → runner_can_claim_slice now runner jobs job step s ≡ Claim.allowed
    → (oversight_candidates job ≡ []) ⊎ (any (λ x. is_running x.status) job.steps ≡ true)
runner_can_claim_slice-oversight now runner jobs job step s h =
    let (hu, hc) = allowed-unpaused now runner jobs job step s h in not_paused job hu hc

-- While a step of the job is running, `runner_can_claim_slice` answers as if the job needed no
-- oversight at all: a step that awaits oversight is claimed like any other.
pub runner_can_claim_slice-unguarded :
    (now : ℕ) (runner : Runner) (jobs : List Job) (job : Job) (step : Step) (s : Slice)
    → any (λ x. is_running x.status) job.steps ≡ true
    → runner_can_claim_slice now runner jobs job step s ≡ (
        if runner_may_take now runner jobs job s && step_may_run runner job step s
        then Claim.allowed
        else Claim.declined)
unfolding runner_can_claim_slice
runner_can_claim_slice-unguarded now runner jobs job step s h =
    ground (arith, running_goes_on job h)
