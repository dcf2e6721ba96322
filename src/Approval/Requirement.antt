-- ===== src/Approval/Requirement.antt =====
-- Per-Project exemptions: app/services/project_approval_exemption.py.
use journeyman.Base.{ℕ, Bool, true, false, ◌&&◌, not, Option, none, some, String, if◌then◌else◌}
use journeyman.Base.Text.{Python}
use journeyman.Approval.{
  ApprovalState, DecisionStatus, Project, Review, Approval, Store, is_undecided, is_approved,
  latest_review, latest_approval, put_review, put_approval, project_revision_matches_project,
}
use journeyman.Approval.Technical.{closed_review}
use journeyman.Approval.Management.{closed_approval}

abbrev pub exemption_stale_comment : String
exemption_stale_comment =
    "Project approval requirement was disabled before the decision was completed."

abbrev pub project_requires_approval : Option Project → Bool
project_requires_approval none = false
project_requires_approval (some project) = not project.is_builtin && project.approval_required

abbrev drop_review : ℕ → Option Review → Store → Store
drop_review now none store = store
drop_review now (some r) store = record store {
  reviews =
      put_review (closed_review now DecisionStatus.stale exemption_stale_comment r) store.reviews;
}

abbrev drop_approval : ℕ → Option Approval → Store → Store
drop_approval now none store = store
drop_approval now (some a) store = record store {
  approvals =
      put_approval (closed_approval now DecisionStatus.stale exemption_stale_comment a)
        store.approvals;
}

-- `_close_pending_decisions`
abbrev pub close_pending_decisions : ℕ → Store → Store
close_pending_decisions now store =
    drop_approval now (latest_approval is_undecided store.approvals)
      (drop_review now (latest_review is_undecided store.reviews) store)

-- ProjectApprovalRequirementError, or the rows and the previous value
pub data Changed : Type 0 where
  refused : String → Changed
  changed : Store → Bool → Changed

module _ (py : Python) where
  -- whether `_current_approved_revision` finds one
  abbrev has_current_approval : Project → Option Approval → Bool
  has_current_approval project none = false
  has_current_approval project (some a) = project_revision_matches_project py a.revision project

  abbrev exempt : ℕ → Store → Store
  exempt now store = record (close_pending_decisions now store) {
    project = record (store.project) {
      approval_required = false;
      approval_state = ApprovalState.development;
    };
  }

  abbrev require : Store → Store
  require store = record store {
    project = record (store.project) {
      approval_required = true;
      approval_state =
          if has_current_approval store.project (latest_approval is_approved store.approvals)
          then ApprovalState.approved
          else ApprovalState.development;
    };
  }

  abbrev change_requirement : ℕ → Bool → Bool → Store → Changed
  change_requirement now true true store = Changed.changed store true
  change_requirement now false false store = Changed.changed store false
  change_requirement now false true store = Changed.changed (exempt now store) true
  change_requirement now true false store = Changed.changed (require store) false

  -- of a Project that is not None: the new value, then the rows
  unfoldable pub set_project_approval_required : ℕ → Bool → Store → Changed
  unfolding project_revision_matches_project
  set_project_approval_required now required store =
      if store.project.is_builtin
      then Changed.refused "Built-in Projects do not participate in the approval workflow."
      else change_requirement now required store.project.approval_required store
