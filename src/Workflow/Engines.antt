-- ===== src/Workflow/Engines.antt =====
-- The three schedulers against each other: the server's `dependency_state`, the local runner's
-- loops and the remote runner's `remote_dependency_state`.
use journeyman.Base.{
  ℕ, zero, suc, ◌+◌, ◌≡◌, ◌≢◌, ◌<◌, Bool, true, false, ◌&&◌, Option, none, some, List, [], ◌∷◌,
  ◌++◌, map, any, all, keep, take, length, length-append, arith, refl, sym, not, is_none,
}
use mathlib.Core.Bool.{false≢true}
use mathlib.Core.List.{append-nil, append_assoc}
use journeyman.Job.{Step, StepStatus, is_pending, is_terminal}
use journeyman.Workflow.{
  DependencyState, dependency_state, state_of, dependencies, is_missing, is_unfinished, has_failed,
  has_succeeded, no_dependencies,
}
use journeyman.Workflow.Local.{
  Verdict, leave, skip, local_verdict, verdict_of, may_run, may_run_of, failures_handled, collect,
  select_eligible_steps, close_steps,
}
use journeyman.Workflow.Remote.{
  Completed, remote_dependency_state, status_failed, status_successful, is_leaf,
}

abbrev pub is_eligible : DependencyState → Bool
is_eligible DependencyState.eligible = true
is_eligible _ = false

-- what a remote runner's `completed` says of a dependency: its status if it has finished
abbrev pub ReportsAt : Option StepStatus → Option Step → Type 0
ReportsAt none d = is_unfinished d ≡ true
ReportsAt (some status) none = ⊥
ReportsAt (some status) (some d) = (d.status ≡ status) × (is_terminal status ≡ true)

-- How the local verdicts correspond to the server's states.
abbrev pub Corresponds : DependencyState → Verdict → Type 0
Corresponds DependencyState.blocked v = v ≢ leave
Corresponds DependencyState.skipped v = v ≢ leave
Corresponds DependencyState.eligible v = v ≡ leave
Corresponds DependencyState.waiting v = v ≡ leave

verdict_of-Corresponds :
    (steps : List Step) (failure_only : Bool) (deps : List (Option Step))
    → Corresponds (state_of failure_only deps) (verdict_of steps failure_only deps)
verdict_of-Corresponds steps failure_only deps = ground arith

all_ready :
    (deps : List (Option Step))
    → all (λ d. not (is_none d) && not (is_unfinished d)) deps
      ≡ (not (any is_missing deps) && not (any is_unfinished deps))
all_ready [] = refl
all_ready (none ∷ deps) = refl
all_ready (some d ∷ deps) = ground (arith, all_ready deps)

all_succeeded :
    (deps : List (Option Step))
    → all has_succeeded deps ≡ true
    → (any is_missing deps ≡ false) × (any is_unfinished deps ≡ false)
all_succeeded [] h = (refl, refl)
all_succeeded (none ∷ deps) h = cc
all_succeeded (some d ∷ deps) h = ground (arith, all_succeeded deps)

no_dependencies-present :
    (deps : List (Option Step)) → no_dependencies deps ≡ true → any is_missing deps ≡ false
no_dependencies-present [] h = refl
no_dependencies-present (d ∷ deps) h = cc

may_run_of-eligible :
    (failure_only : Bool) (deps : List (Option Step))
    → may_run_of failure_only deps ≡ is_eligible (state_of failure_only deps)
may_run_of-eligible failure_only deps =
    ground (arith, all_ready deps, all_succeeded deps, no_dependencies-present deps)

may_run-eligible :
    (step : Step) (steps : List Step)
    → may_run step steps ≡ is_eligible (dependency_state step steps)
unfolding may_run dependency_state
may_run-eligible step steps = may_run_of-eligible step.failure_only (dependencies step steps)

-- `select_eligible_steps` closes (blocks or skips) a pending step exactly when the server's
-- `dependency_state` is blocked or skipped, and leaves it exactly when that is eligible or waiting.
pub local_verdict-Corresponds :
    (step : Step) (steps : List Step)
    → Corresponds (dependency_state step steps) (local_verdict step steps)
unfolding dependency_state local_verdict
local_verdict-Corresponds step steps =
    verdict_of-Corresponds steps step.failure_only (dependencies step steps)

-- a pending step that the server holds to be eligible
abbrev pub is_runnable : List Step → Step → Bool
is_runnable steps s = is_pending s.status && is_eligible (dependency_state s steps)

collect-take :
    (limit k : ℕ) (steps eligible rest : List Step)
    → length eligible + suc k ≡ limit
    → collect limit steps eligible rest ≡ eligible ++ take (suc k) (keep (is_runnable steps) rest)
unfolding collect
collect-take limit k steps eligible [] h = sym (append-nil eligible)
collect-take limit zero steps eligible (s ∷ rest) h = ground (
  arith,
  may_run-eligible s steps,
  collect-take limit zero steps eligible rest h,
  length-append eligible (s ∷ []),
)
collect-take limit (suc k) steps eligible (s ∷ rest) h = ground (
  arith,
  may_run-eligible s steps,
  collect-take limit (suc k) steps eligible rest h,
  length-append eligible (s ∷ []),
  collect-take limit k steps (eligible ++ s ∷ []) rest,
  append_assoc eligible (s ∷ []) (take (suc k) (keep (is_runnable steps) rest)),
)

-- The local runner starts the first `limit` pending steps, in order, that the server holds to be
-- eligible after the runner's first loop, for every limit of at least one.
pub select_eligible_steps-take :
    (now limit : ℕ) (steps : List Step)
    → 0 < limit
    → let (closed, eligible) = select_eligible_steps now limit steps in
      eligible ≡ take limit (keep (is_runnable closed) closed)
unfolding select_eligible_steps
select_eligible_steps-take now zero steps h = elim h [ ]
select_eligible_steps-take now (suc k) steps h =
    let closed = close_steps now [] steps in collect-take (suc k) k closed [] closed (omega arith)

-- `completed` holds the status of exactly the finished dependencies, none of which is missing
abbrev pub Reports : List (Option StepStatus) → List (Option Step) → Type 0
Reports [] [] = Unit
Reports [] (d ∷ ds) = ⊥
Reports (c ∷ cs) [] = ⊥
Reports (c ∷ cs) (d ∷ ds) = ReportsAt c d × Reports cs ds

record Agree (cs : List (Option StepStatus)) (ds : List (Option Step)) : Type 0 where
  present : any is_missing ds ≡ false
  unfinished : any is_unfinished ds ≡ any is_none cs
  failed : any is_none cs ≡ false → any has_failed ds ≡ any status_failed cs
  succeeded : any is_none cs ≡ false → all has_succeeded ds ≡ all status_successful cs
  leaf : no_dependencies ds ≡ is_leaf cs

Reports-Agree :
    (cs : List (Option StepStatus)) (ds : List (Option Step)) → Reports cs ds → Agree cs ds
Reports-Agree [] [] h = ground arith
Reports-Agree [] (d ∷ ds) h = absurd h
Reports-Agree (c ∷ cs) [] h = absurd h
Reports-Agree (none ∷ cs) (none ∷ ds) h = absurd (false≢true h.0)
Reports-Agree (none ∷ cs) (some d ∷ ds) h = ground (arith, Reports-Agree cs ds h.1)
Reports-Agree (some c ∷ cs) (none ∷ ds) h = absurd h.0
Reports-Agree (some c ∷ cs) (some d ∷ ds) h = ground (arith, Reports-Agree cs ds h.1)

-- a state as the remote runner knows it: it has no `skipped`
abbrev pub without_skipped : DependencyState → DependencyState
without_skipped DependencyState.skipped = DependencyState.blocked
without_skipped state = state

-- If a remote runner's `completed` holds the status of exactly the finished dependencies of a step,
-- and none of them is missing from the job, then the remote runner's state of the step is the
-- server's, with blocked in the place of skipped.
pub remote_dependency_state-server :
    (step : Step) (steps : List Step) (completed : Completed)
    → Reports (map completed step.depends_on) (dependencies step steps)
    → remote_dependency_state step completed ≡ without_skipped (dependency_state step steps)
unfolding remote_dependency_state dependency_state
remote_dependency_state-server step steps completed h =
    ground (arith, Reports-Agree (map completed step.depends_on) (dependencies step steps) h)

failed_not_all_succeeded :
    (deps : List (Option Step)) → any has_failed deps ≡ true → all has_succeeded deps ≡ false
failed_not_all_succeeded [] h = cc
failed_not_all_succeeded (none ∷ deps) h = refl
failed_not_all_succeeded (some d ∷ deps) h = ground (arith, failed_not_all_succeeded deps)

abbrev pub is_skip : Verdict → Bool
is_skip (skip reason) = true
is_skip _ = false

-- The engines differ on the success path behind a failure that a failure branch handles: for a step
-- that is not failure-only, whose dependencies all exist and have finished, one of them failed, and
-- each failed one has a failure branch, the server says blocked and the local runner skips the step.
pub handled_failure_differs :
    (step : Step) (steps : List Step)
    → step.failure_only ≡ false
    → any is_missing (dependencies step steps) ≡ false
    → any is_unfinished (dependencies step steps) ≡ false
    → failures_handled steps (dependencies step steps) ≡ true
    → (dependency_state step steps ≡ DependencyState.blocked)
      × (is_skip (local_verdict step steps) ≡ true)
unfolding dependency_state local_verdict
handled_failure_differs step steps normal present finished handled =
    ground (arith, failed_not_all_succeeded deps, some_dependency deps)
  where
    deps : List (Option Step)
    deps = dependencies step steps

    some_dependency :
        (ds : List (Option Step)) → any has_failed ds ≡ true → no_dependencies ds ≡ false
    some_dependency [] h = cc
    some_dependency (d ∷ ds) h = refl
