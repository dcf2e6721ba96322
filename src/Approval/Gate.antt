-- ===== src/Approval/Gate.antt =====
-- The gate before operational execution and the transition to `stale`:
-- app/services/project_operational_approval.py, project_approval_staleness.py and
-- approval_workflow.py (`four_eyes_enabled`, an argument here).
use journeyman.Base.{
  ℕ, Bool, true, false, ◌||◌, not, Option, none, some, String, if◌then◌else◌, is_none,
}
use journeyman.Base.Text.{Python}
use journeyman.Approval.{
  ApprovalState, DecisionStatus, Project, Review, Approval, Revision, Store, is_undecided,
  is_approved, latest_review, latest_approval, put_review, put_approval,
  project_revision_matches_project,
}
use journeyman.Approval.Technical.{with_state, closed_review}
use journeyman.Approval.Management.{closed_approval}

abbrev pub approval_required_message : String
approval_required_message = "Project is not approved for operational execution."

abbrev pub approval_stale_message : String
approval_stale_message = "Project approval is stale because its executable definition changed."

abbrev pub record_missing_message : String
record_missing_message = "Project has no recorded management approval for operational execution."

abbrev pub stale_comment : String
stale_comment = "Project executable definition changed after approval workflow submission."

abbrev pub is_state_approved : ApprovalState → Bool
is_state_approved ApprovalState.approved = true
is_state_approved _ = false

abbrev pub is_state_stale : ApprovalState → Bool
is_state_stale ApprovalState.stale = true
is_state_stale _ = false

abbrev review_revision : Option Review → Option Revision
review_revision none = none
review_revision (some r) = some r.revision

abbrev approval_revision : Option Approval → Option Revision
approval_revision none = none
approval_revision (some a) = some a.revision

-- `.revision` of the pending approval, else of the approved review
abbrev either_revision : Option Approval → Option Review → Option Revision
either_revision none review = review_revision review
either_revision (some a) review = some a.revision

abbrev pub compared_revision : Store → Option Revision
compared_revision store = elim store.project.approval_state [
  | ApprovalState.review_requested ↦ review_revision (latest_review is_undecided store.reviews)
  | ApprovalState.technically_approved ↦
      either_revision (latest_approval is_undecided store.approvals)
        (latest_review is_approved store.reviews)
  | ApprovalState.approved ↦ approval_revision (latest_approval is_approved store.approvals)
  | _ ↦ none
]

-- the states that `refresh_project_approval_staleness` compares
abbrev pub is_in_workflow : ApprovalState → Bool
is_in_workflow ApprovalState.review_requested = true
is_in_workflow ApprovalState.technically_approved = true
is_in_workflow ApprovalState.approved = true
is_in_workflow _ = false

abbrev close_review : ℕ → Option Review → Store → Store
close_review now none store = store
close_review now (some r) store = record store {
  reviews = put_review (closed_review now DecisionStatus.stale stale_comment r) store.reviews;
}

abbrev close_approval : ℕ → Option Approval → Store → Store
close_approval now none store = store
close_approval now (some a) store = record store {
  approvals =
      put_approval (closed_approval now DecisionStatus.stale stale_comment a) store.approvals;
}

-- the pending row that the state stands on is closed with it
abbrev pub close_pending : ℕ → Store → Store
close_pending now store = elim store.project.approval_state [
  | ApprovalState.review_requested ↦
      close_review now (latest_review is_undecided store.reviews) store
  | ApprovalState.technically_approved ↦
      close_approval now (latest_approval is_undecided store.approvals) store
  | _ ↦ store
]

abbrev pub become_stale : ℕ → Store → Store
become_stale now store = record (close_pending now store) {
  project = with_state ApprovalState.stale store.project;
}

module _ (py : Python) where
  abbrev matches : Project → Option Revision → Bool
  matches project none = false
  matches project (some revision) = project_revision_matches_project py revision project

  abbrev approval_error : Project → Option Approval → Option String
  approval_error project none = some record_missing_message
  approval_error project (some approval) =
      if not (project_revision_matches_project py approval.revision project)
      then some approval_stale_message
      else none

  unfoldable pub project_operational_approval_error : Bool → Option Store → Option String
  project_operational_approval_error four_eyes none = some approval_required_message
  project_operational_approval_error four_eyes (some store) =
      if not four_eyes
      then none
      else if store.project.is_builtin
      then none
      else if not store.project.approval_required
      then none
      else if not (is_state_approved store.project.approval_state)
      then some approval_required_message
      else approval_error store.project (latest_approval is_approved store.approvals)

  unfoldable pub project_is_operationally_approved : Bool → Option Store → Bool
  unfolding project_operational_approval_error
  project_is_operationally_approved four_eyes store =
      is_none (project_operational_approval_error four_eyes store)

  -- of a Project that is not None: the rows after it, and whether it was this call that made the Project stale
  unfoldable pub refresh_project_approval_staleness : ℕ → Bool → Store → Store × Bool
  unfolding project_revision_matches_project
  refresh_project_approval_staleness now four_eyes store =
      if store.project.is_builtin
        || not store.project.approval_required
        || not four_eyes
        || is_state_stale store.project.approval_state
      then (store, false)
      else if not (is_in_workflow store.project.approval_state)
      then (store, false)
      else if matches store.project (compared_revision store)
      then (store, false)
      else (become_stale now store, true)
