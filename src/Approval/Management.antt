-- ===== src/Approval/Management.antt =====
-- Management approvals: app/services/project_management_approvals.py.
use journeyman.Base.{
  ℕ, Bool, true, false, ◌&&◌, not, Option, none, some, List, [], ◌∷◌, ◌++◌, String, if◌then◌else◌,
  keep, any, str_eq,
}
use journeyman.Base.Text.{Python, is_empty}
use journeyman.Approval.{
  ApprovalState, DecisionStatus, Project, Review, Approval, Account, Store, is_undecided,
  is_approved, latest_review, latest_approval, next_approval_id, username_of, same_user,
  get_user_account, has_right, user_has_right, project_revision_matches_project,
}
use journeyman.Approval.Technical.{with_state, project_review_is_current, is_enabled_account}

-- RIGHT_APPROVER
abbrev pub right_approver : String
right_approver = "Approver"

-- `_approved_technical_review` and `_pending_management_approval`
abbrev pub approved_technical_review : Store → Option Review
approved_technical_review store = latest_review is_approved store.reviews

abbrev pub pending_management_approval : Store → Option Approval
pending_management_approval store = latest_approval is_undecided store.approvals

-- ProjectManagementApprovalError with the project as the call left it, or the rows and the new row
pub data Submitted : Type 0 where
  refused : Project → String → Submitted
  submitted : Store → Approval → Submitted

pub data Concluded : Type 0 where
  refused : String → Concluded
  concluded : Project → Approval → Concluded

abbrev pub closed_approval : ℕ → DecisionStatus → String → Approval → Approval
closed_approval now status comment approval = record approval {
  status = status;
  decided_at = some now;
  decision_comment = comment;
}

abbrev pub new_approval : ℕ → String → Account → Review → Store → Approval
new_approval now requested_by approver review store = record {
  id = next_approval_id store.approvals;
  revision = review.revision;
  technical_review_id = review.id;
  technical_reviewer = review.reviewer_username;
  reviewed_revision = review.revision;
  requested_by = requested_by;
  approver_username = approver.username;
  status = DecisionStatus.pending;
  requested_at = now;
  decided_at = none;
  decision_comment = "";
}

abbrev pub add_approval : ℕ → String → Account → Review → Store → Submitted
add_approval now requested_by approver review store =
    let row = new_approval now requested_by approver review store in
    Submitted.submitted (record store { approvals = store.approvals ++ (row ∷ []) }) row

module _ (py : Python) where
  -- `eligible_project_approvers`, of the accounts in the order of the query
  abbrev pub eligible_project_approvers : List String → List Account → List Account
  eligible_project_approvers exclude_usernames accounts =
      let named = keep (λ value. not (is_empty (username_of py value))) exclude_usernames in
      keep
        (λ account.
          account.enabled
          && has_right py right_approver account
          && not (
              any
                (λ value.
                  str_eq (py.casefold (username_of py value)) (py.casefold account.username))
                named))
        accounts

  -- the checks against the approved technical review
  abbrev pub submit_reviewed : ℕ → String → Account → Option Review → Store → Submitted
  submit_reviewed now requested_by approver none store =
      Submitted.refused store.project "Project has no approved technical review."
  submit_reviewed now requested_by approver (some review) store =
      if not (project_review_is_current py review store.project)
      then Submitted.refused (with_state ApprovalState.stale store.project)
          "Project changed after technical review and must be reviewed again."
      else if same_user py approver.username review.reviewer_username
      then Submitted.refused store.project
          "The technical Reviewer cannot also approve the same revision."
      else elim (pending_management_approval store) [
        | some _ ↦
            Submitted.refused store.project
              "This Project already has a pending management approval."
        | none ↦ add_approval now requested_by approver review store
      ]

  -- the checks on the approver's account
  abbrev pub submit_for : ℕ → String → Option Account → Store → Submitted
  submit_for now requested_by none store =
      Submitted.refused store.project "Approver must be an enabled Journeyman user."
  submit_for now requested_by (some approver) store =
      if not approver.enabled
      then Submitted.refused store.project "Approver must be an enabled Journeyman user."
      else if not (has_right py right_approver approver)
      then Submitted.refused store.project "Selected approver does not have the Approver right."
      else submit_reviewed now requested_by approver (approved_technical_review store) store

  abbrev is_technically_approved : ApprovalState → Bool
  is_technically_approved ApprovalState.technically_approved = true
  is_technically_approved _ = false

  unfoldable pub request_project_management_approval :
      ℕ → List Account → String → String → Store → Submitted
  unfolding project_review_is_current
  request_project_management_approval now accounts requester approver store =
      let requested_by = username_of py requester in
      let approver_username = username_of py approver in
      if not store.project.approval_required
      then Submitted.refused store.project "Approval is not required for this Project."
      else if not (is_technically_approved store.project.approval_state)
      then Submitted.refused store.project
          "Project must be technically approved before management approval."
      else if is_empty requested_by
      then Submitted.refused store.project "Management approval requester is required."
      else if is_empty approver_username
      then Submitted.refused store.project "Approver is required."
      else if same_user py requested_by approver_username
      then Submitted.refused store.project
          "A Project requester cannot approve their own submission."
      else if not (is_enabled_account (get_user_account py accounts requested_by))
      then Submitted.refused store.project
          "Management approval requester must be an enabled Journeyman user."
      else submit_for now requested_by (get_user_account py accounts approver_username) store

  unfoldable pub project_management_approval_is_current : Approval → Project → Bool
  project_management_approval_is_current approval project =
      project_revision_matches_project py approval.reviewed_revision project

  -- the effects of a decision, once the caller may decide
  abbrev pub conclude_approval : ℕ → Bool → String → Project → Approval → Concluded
  conclude_approval now approved comment project approval =
      if not (project_management_approval_is_current approval project)
      then Concluded.concluded (with_state ApprovalState.stale project) (
          closed_approval now DecisionStatus.stale
            "Project executable definition changed after technical approval." approval)
      else if approved
      then Concluded.concluded (with_state ApprovalState.approved project)
          (closed_approval now DecisionStatus.approved comment approval)
      else Concluded.concluded (with_state ApprovalState.development project)
          (closed_approval now DecisionStatus.rejected comment approval)

  unfoldable pub decide_project_management_approval :
      ℕ → List Account → String → Bool → String → Project → Approval → Concluded
  unfolding project_management_approval_is_current
  decide_project_management_approval now accounts approver approved comment project approval =
      let approver_username = username_of py approver in
      if not (is_undecided approval.status)
      then Concluded.refused "Only a pending management approval can be decided."
      else if is_empty approver_username
      then Concluded.refused "Approver identity is required."
      else if not (same_user py approver_username approval.approver_username)
      then Concluded.refused "Only the assigned Approver can decide this approval."
      else if same_user py approver_username approval.requested_by
      then Concluded.refused "A Project requester cannot approve their own submission."
      else if same_user py approver_username approval.technical_reviewer
      then Concluded.refused "The technical Reviewer cannot also approve the same revision."
      else if not (user_has_right py accounts approver_username right_approver)
      then Concluded.refused "Approver no longer has the Approver right."
      else conclude_approval now approved (py.strip comment) project approval
