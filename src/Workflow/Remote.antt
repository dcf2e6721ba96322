-- ===== src/Workflow/Remote.antt =====
-- The remote runner's scheduler of a whole job: bin/journeyman-remote-runner
-- (`remote_dependency_state`, `remote_has_failure_branch`).
use journeyman.Base.{
  ℕ, Bool, true, false, ◌&&◌, Option, none, some, List, [], ◌∷◌, map, any, all, if◌then◌else◌, ◌==◌,
  is_none,
}
use journeyman.Job.{Step, StepStatus, is_failed, is_successful}
use journeyman.Workflow.{DependencyState}

-- `completed`: the status of each finished position
abbrev pub Completed : Type 0
Completed = ℕ → Option StepStatus

abbrev pub status_failed : Option StepStatus → Bool
status_failed none = false
status_failed (some s) = is_failed s

abbrev pub status_successful : Option StepStatus → Bool
status_successful none = false
status_successful (some s) = is_successful s

abbrev pub is_leaf : List (Option StepStatus) → Bool
is_leaf [] = true
is_leaf (_ ∷ _) = false

abbrev pub remote_state_of : Bool → List (Option StepStatus) → DependencyState
remote_state_of failure_only statuses =
    if is_leaf statuses
    then if failure_only then DependencyState.blocked else DependencyState.eligible
    else if any is_none statuses
    then DependencyState.waiting
    else if failure_only
    then if any status_failed statuses then DependencyState.eligible else DependencyState.blocked
    else if all status_successful statuses
    then DependencyState.eligible
    else DependencyState.blocked

unfoldable pub remote_dependency_state : Step → Completed → DependencyState
remote_dependency_state step completed =
    remote_state_of step.failure_only (map completed step.depends_on)

unfoldable pub remote_has_failure_branch : ℕ → List Step → Bool
remote_has_failure_branch position steps =
    any (λ c. c.failure_only && any (λ p. p == position) c.depends_on) steps
