-- ===== src/Approval/Standing.antt =====
-- What an approval state is worth: the operational gate against the stale transition
-- (app/services/project_operational_approval.py and project_approval_staleness.py).
use journeyman.Base.{ℕ, true, ◌||◌, not, some, ◌≡◌, arith}
use journeyman.Base.Text.{Python}
use journeyman.Approval.{Store, project_revision_matches_project}
use journeyman.Approval.Gate.{
  project_operational_approval_error, project_is_operationally_approved,
  refresh_project_approval_staleness, is_state_approved,
}

-- After `refresh_project_approval_staleness` with the workflow enabled, the operational gate lets a
-- Project run exactly when it is built in, exempt, or its state is still `approved`: no state that
-- the refresh leaves `approved` is refused by the second check of the definition.
pub refresh_project_approval_staleness-gate :
    (py : Python) (now : ℕ) (store : Store)
    → project_is_operationally_approved py true
        (some (refresh_project_approval_staleness py now true store).0)
      ≡ (store.project.is_builtin
          || not store.project.approval_required
          || is_state_approved
              (refresh_project_approval_staleness py now true store).0.project.approval_state)
unfolding project_is_operationally_approved project_operational_approval_error
    refresh_project_approval_staleness project_revision_matches_project
refresh_project_approval_staleness-gate py now store = ground arith
