-- ===== src/Lifecycle/Held.antt =====
-- What the inventory refresh of a completion works on: the step is held while it runs, in
-- `_complete_slice` of app/services/runner_slice_lifecycle.py.
use journeyman.Base.{
  ℕ, Bool, true, false, ◌≡◌, ◌≢◌, refl, ◌⊎◌, inl, inr, Option, none, some, List, [], ◌∷◌, any, map,
  arith, if◌then◌else◌, ◌==◌, Bool-cases,
}
use journeyman.Base.Text.{Fields, Python, get, word}
use mathlib.Core.Bool.{false≢true}
use journeyman.Runner.{Runner}
use journeyman.Job.{Job, Step, Slice, HostResult, step_at, is_terminal}
use journeyman.Workflow.{DependencyState, dependency_state, state_of, dependencies, is_unfinished}
use journeyman.Claim.{Claim, runner_can_claim_slice}
use journeyman.Claim.Guards.{runner_can_claim_slice-guards}
use journeyman.Lifecycle.{put_slice}
use journeyman.Lifecycle.Aggregate.{aggregate_step}
use journeyman.Lifecycle.Report.{Final, parse_final}
use journeyman.Lifecycle.Rows.{SliceWrite, rejected, stopped, written, effective, complete_rows}
use journeyman.Lifecycle.Completion.{
  hold_step, held_job, Refreshed, needs_refresh, refresh_after, finish_step, completed_job,
  complete_as, complete_slice,
}

-- replacing the row at a position is seen by a lookup of it
step_at-put :
    (h : Step) (ss : List Step)
    → let after = map (λ s. if s.position == h.position then h else s) ss in
      (step_at after h.position ≡ some h)
      ⊎ ((step_at after h.position ≡ none) × (step_at ss h.position ≡ none))
unfolding step_at
step_at-put h [] = inr (refl, refl)
step_at-put h (s ∷ ss) = ground (arith, step_at-put h ss)

unfinished_at :
    (steps : List Step) (p : ℕ) (h : Step) (ps : List ℕ)
    → step_at steps p ≡ some h
    → is_terminal h.status ≡ false
    → any (λ q. q == p) ps ≡ true
    → any is_unfinished (map (step_at steps) ps) ≡ true
unfinished_at steps p h [] e f m = absurd (false≢true m)
unfinished_at steps p h (q ∷ ps) e f m = elim (Bool-cases (q == p)) [
  | inl same ↦ let q_p : q ≡ p = ground arith in rw (q_p, e) (ground arith)
  | inr other ↦ ground (arith, unfinished_at steps p h ps e f)
]

state_of_unfinished :
    (failure_only : Bool) (deps : List (Option Step))
    → any is_unfinished deps ≡ true
    → state_of failure_only deps ≢ DependencyState.eligible
state_of_unfinished failure_only [] h = λ e. false≢true h
state_of_unfinished failure_only (d ∷ deps) h = ground arith

-- no step that depends on a held step is eligible
held_job-gates :
    (job : Job) (step dependent : Step)
    → step_at job.steps step.position ≢ none
    → any (λ p. p == step.position) dependent.depends_on ≡ true
    → dependency_state dependent (held_job job step).steps ≢ DependencyState.eligible
unfolding dependency_state
held_job-gates job step dependent here depends =
    state_of_unfinished dependent.failure_only (dependencies dependent (held_job job step).steps) (
      unfinished_at (held_job job step).steps step.position (hold_step step) dependent.depends_on
        (found (step_at-put (hold_step step) job.steps)) refl depends)
  where
    found :
        (step_at (held_job job step).steps step.position ≡ some (hold_step step))
          ⊎ ((step_at (held_job job step).steps step.position ≡ none)
              × (step_at job.steps step.position ≡ none))
        → step_at (held_job job step).steps step.position ≡ some (hold_step step)
    found (inl e) = e
    found (inr (_, e)) = absurd (here e)

module _ (now : ℕ) (runner : Runner) (jobs : List Job) (dependent : Step) (s : Slice) where
  -- no runner may take a slice behind a held step
  held_job-unclaimed :
      (job : Job) (step : Step)
      → step_at job.steps step.position ≢ none
      → any (λ p. p == step.position) dependent.depends_on ≡ true
      → runner_can_claim_slice now runner jobs (held_job job step) dependent s ≢ Claim.allowed
  held_job-unclaimed job step here depends h =
      let (_, _, _, _, eligible, _, _) =
        runner_can_claim_slice-guards now runner jobs (held_job job step) dependent s h in
      held_job-gates job step dependent here depends eligible

  module _ (py : Python) (refresh refresh' : Job → Step → Refreshed)
      (agree : (j : Job) (held : Step)
        → runner_can_claim_slice now runner jobs j dependent s ≢ Claim.allowed
        → refresh j held ≡ refresh' j held) where
    refresh_after-agrees :
        (time : ℕ) (job : Job) (step : Step)
        → step_at job.steps step.position ≢ none
        → any (λ p. p == step.position) dependent.depends_on ≡ true
        → refresh_after py refresh time job step ≡ refresh_after py refresh' time job step
    refresh_after-agrees time job step here depends =
        rw (agree (held_job job step) (hold_step step) (held_job-unclaimed job step here depends))
          refl

    aggregate_step-position :
        (time : ℕ) (step : Step) → (aggregate_step time step).0.position ≡ step.position
    unfolding aggregate_step
    aggregate_step-position time step = ground arith

    finish_step-agrees :
        (time : ℕ) (job : Job) (step : Step) (slice : Slice) (rows : List HostResult)
        → step_at job.steps step.position ≢ none
        → any (λ p. p == step.position) dependent.depends_on ≡ true
        → finish_step py refresh time job step slice rows
          ≡ finish_step py refresh' time job step slice rows
    finish_step-agrees time job step slice rows here depends =
        let same : (done step slice rows).0.position ≡ step.position =
          aggregate_step-position time (record (put_slice slice step) { host_results = rows }) in
        let here' : step_at job.steps (done step slice rows).0.position ≢ none = rw same here in
        elim (Bool-cases (needs_refresh job (done step slice rows).0 (done step slice rows).1)) [
          | inl e ↦
              simp e
                (refresh_after-agrees time job (done step slice rows).0 here' (rw same depends))
          | inr e ↦ simp e refl
        ]
      where
        done : Step → Slice → List HostResult → Step × Bool
        done step slice rows =
            aggregate_step time (record (put_slice slice step) { host_results = rows })

    completed_job-agrees :
        (time : ℕ) (job : Job) (step : Step) (w : SliceWrite)
        → step_at job.steps step.position ≢ none
        → any (λ p. p == step.position) dependent.depends_on ≡ true
        → completed_job py refresh time job step w ≡ completed_job py refresh' time job step w
    completed_job-agrees time job step (rejected r) here depends = refl
    completed_job-agrees time job step (stopped slice rows r) here depends = refl
    completed_job-agrees time job step (written slice rows) here depends =
        rw (finish_step-agrees time job step slice rows here depends) refl

    complete_as-agrees :
        (time : ℕ) (job : Job) (step : Step) (slice : Slice) (payload : Fields) (reporter : Runner)
        (is_local : Bool) (parsed : Option Final)
        → step_at job.steps step.position ≢ none
        → any (λ p. p == step.position) dependent.depends_on ≡ true
        → complete_as py refresh time job step slice payload reporter is_local parsed
          ≡ complete_as py refresh' time job step slice payload reporter is_local parsed
    complete_as-agrees time job step slice payload reporter is_local none here depends = refl
    complete_as-agrees time job step slice payload reporter is_local (some requested) here depends =
        rw
          (completed_job-agrees time job step
            (complete_rows py time step slice payload reporter is_local
              (effective job.status requested))
            here depends)
          refl

    -- `complete_slice`, for a step of the job, and the claim by any runner of a slice of a step that
    -- depends on it: two inventory refreshes that agree on every job in which `runner_can_claim_slice`
    -- does not allow that claim lead to the same job and the same answer. So the completion refreshes
    -- only jobs in which no such slice can be claimed.
    pub complete_slice-gated :
        (time : ℕ) (job : Job) (step : Step) (slice : Slice) (payload : Fields) (reporter : Runner)
        (is_local : Bool)
        → step_at job.steps step.position ≢ none
        → any (λ p. p == step.position) dependent.depends_on ≡ true
        → complete_slice py refresh time job step slice payload reporter is_local
          ≡ complete_slice py refresh' time job step slice payload reporter is_local
    unfolding complete_slice
    complete_slice-gated time job step slice payload reporter is_local here depends =
        complete_as-agrees time job step slice payload reporter is_local
          (parse_final (word py (get payload "status"))) here depends
