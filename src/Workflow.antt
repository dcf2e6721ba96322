-- ===== src/Workflow.antt =====
-- The dependency graph of a job's steps: app/services/project_oversight.py (`dependency_state`) and
-- app/services/runner_slice_dispatch.py (`reconcile_non_runnable_steps`).
pub mod Stability
pub mod Reconcile
pub mod Local
pub mod Remote
pub mod Engines
use journeyman.Base.{
  ℕ, zero, suc, Bool, true, false, ◌&&◌, ◌||◌, not, Option, none, some, List, [], ◌∷◌, ◌++◌, map,
  any, all, if◌then◌else◌, ◌==◌, is_none, length, String,
}
use journeyman.Base.Text.{ℤ, pos}
use journeyman.Job.{
  Step, StepStatus, Slice, SliceStatus, Job, is_terminal, is_pending, is_successful, is_failed,
  step_at,
}

pub data DependencyState : Type 0 where
  blocked skipped eligible waiting : DependencyState

-- the tests of `dependency_state` on one item of `dependencies`
abbrev pub is_missing : Option Step → Bool
is_missing d = is_none d

abbrev pub is_unfinished : Option Step → Bool
is_unfinished none = false
is_unfinished (some d) = not (is_terminal d.status)

abbrev pub has_failed : Option Step → Bool
has_failed none = false
has_failed (some d) = is_failed d.status

abbrev pub has_succeeded : Option Step → Bool
has_succeeded none = false
has_succeeded (some d) = is_successful d.status

-- `dependencies` of a step
abbrev pub dependencies : Step → List Step → List (Option Step)
dependencies step steps = map (step_at steps) step.depends_on

abbrev pub no_dependencies : List (Option Step) → Bool
no_dependencies [] = true
no_dependencies (_ ∷ _) = false

abbrev pub state_of : Bool → List (Option Step) → DependencyState
state_of failure_only deps =
    if any is_missing deps
    then DependencyState.blocked
    else if no_dependencies deps
    then if failure_only then DependencyState.skipped else DependencyState.eligible
    else if any is_unfinished deps
    then DependencyState.waiting
    else if failure_only
    then if any has_failed deps then DependencyState.eligible else DependencyState.skipped
    else if all has_succeeded deps
    then DependencyState.eligible
    else DependencyState.blocked

unfoldable pub dependency_state : Step → List Step → DependencyState
dependency_state step steps = state_of step.failure_only (dependencies step steps)

-- `_has_failure_branch` of runner_slice_dispatch.py and runner_slice_lifecycle.py
unfoldable pub has_failure_branch : Step → List Step → Bool
has_failure_branch step steps =
    any (λ c. c.failure_only && any (λ p. p == step.position) c.depends_on) steps

-- `item.host_count == 0 and item.status == "successful"`
abbrev pub is_empty_success : Slice → Bool
is_empty_success s = elim s.status [ SliceStatus.successful ↦ s.host_count == 0 | _ ↦ false ]

-- `slices and all(…)`
abbrev pub is_no_op : List Slice → Bool
is_no_op [] = false
is_no_op (s ∷ ss) = all is_empty_success (s ∷ ss)

-- the status and the message that a pending slice takes over from its step
abbrev pub close_slice : ℕ → SliceStatus → String → Slice → Slice
close_slice now status message s = elim s.status [
  | SliceStatus.pending ↦ record s { status = status; finished_at = some now; message = message }
  | _ ↦ s
]

abbrev pub mark_blocked : ℕ → Step → Step
mark_blocked now step = record step {
  status = StepStatus.blocked;
  finished_at = some now;
  execution_slices =
      map (close_slice now SliceStatus.blocked "Workflow dependency did not succeed.")
        step.execution_slices;
}

abbrev pub mark_skipped : ℕ → Step → Step
mark_skipped now step = record step {
  status = StepStatus.skipped;
  finished_at = some now;
  execution_slices =
      map (close_slice now SliceStatus.skipped "Workflow failure branch was not selected.")
        step.execution_slices;
}

abbrev pub mark_no_op : ℕ → Step → Step
mark_no_op now step = record step {
  status = StepStatus.successful;
  exit_code = some (pos 0);
  finished_at = some now;
}

-- what the loop body does with a pending step of a given state
abbrev pub settle : ℕ → DependencyState → Step → Step × Bool
settle now DependencyState.blocked step = (mark_blocked now step, true)
settle now DependencyState.skipped step = (mark_skipped now step, true)
settle now DependencyState.eligible step =
    if is_no_op step.execution_slices then (mark_no_op now step, true) else (step, false)
settle now DependencyState.waiting step = (step, false)

-- the body of the `for` loop on one step, with the progress that it made
unfoldable pub visit : ℕ → List Step → Step → Step × Bool
visit now steps step =
    if is_pending step.status then settle now (dependency_state step steps) step else (step, false)

-- the `for` loop: `done` holds the steps already visited, which later steps see as they are now
unfoldable pub sweep : ℕ → List Step → List Step → List Step × Bool
unfolding visit
sweep now done [] = (done, false)
sweep now done (step ∷ rest) =
    let (step', progress) = visit now (done ++ step ∷ rest) step in
    let (steps, more) = sweep now (done ++ step' ∷ []) rest in (steps, progress || more)

-- the `while True` loop, on fuel; `none` means that the fuel ran out
unfoldable pub reconcile_within : ℕ → ℕ → List Step → Option (List Step)
unfolding sweep
reconcile_within zero now steps = none
reconcile_within (suc fuel) now steps =
    let (steps', progress) = sweep now [] steps in
    let again = reconcile_within fuel now steps' in if progress then again else some steps'

-- every round but the last settles a step, so one round more than there are steps is enough
unfoldable pub reconcile_steps : ℕ → List Step → Option (List Step)
unfolding reconcile_within
reconcile_steps now steps = reconcile_within (suc (length steps)) now steps
