-- ===== src/Approval/FourEyes.antt =====
-- When a decision counts as an approval, and how many persons an approval takes:
-- app/services/project_reviews.py and app/services/project_management_approvals.py.
use journeyman.Base.{
  ℕ, Bool, true, false, ◌&&◌, not, List, String, ◌≡◌, sym, ◌∙◌, subst, arith, str_eq, eq_iff,
}
use journeyman.Base.Text.{Python, is_empty}
use journeyman.Approval.{
  Project, Review, Approval, Account, is_undecided, is_approved, username_of, same_user,
  user_has_right, project_revision_matches_project,
}
use journeyman.Approval.Technical.{
  Decided, decide_project_review, project_review_is_current, right_reviewer,
}
use journeyman.Approval.Management.{
  Concluded, decide_project_management_approval, project_management_approval_is_current,
  right_approver,
}

-- whether a decision approved its row
abbrev pub approves_review : Decided → Bool
approves_review (Decided.refused message) = false
approves_review (Decided.decided project review) = is_approved review.status

abbrev pub approves : Concluded → Bool
approves (Concluded.refused message) = false
approves (Concluded.concluded project approval) = is_approved approval.status

-- what the caller of a decision must satisfy
pub may_review : Python → List Account → String → Review → Bool
may_review py accounts reviewer review =
    is_undecided review.status
    && not (is_empty (username_of py reviewer))
    && same_user py (username_of py reviewer) review.reviewer_username
    && not (same_user py (username_of py reviewer) review.requested_by)
    && user_has_right py accounts (username_of py reviewer) right_reviewer

pub may_approve : Python → List Account → String → Approval → Bool
may_approve py accounts approver approval =
    is_undecided approval.status
    && not (is_empty (username_of py approver))
    && same_user py (username_of py approver) approval.approver_username
    && not (same_user py (username_of py approver) approval.requested_by)
    && not (same_user py (username_of py approver) approval.technical_reviewer)
    && user_has_right py accounts (username_of py approver) right_approver

-- `decide_project_review` approves a review exactly when the caller may decide it, the decision is
-- to approve and the Project still has the submitted definition.
pub decide_project_review-approves :
    (py : Python) (now : ℕ) (accounts : List Account) (reviewer : String) (approved : Bool)
    (comment : String) (project : Project) (review : Review)
    → approves_review
        (decide_project_review py now accounts reviewer approved comment project review)
      ≡ (may_review py accounts reviewer review
          && project_review_is_current py review project
          && approved)
unfolding decide_project_review may_review
decide_project_review-approves py now accounts reviewer approved comment project review =
    ground arith

-- A decision by `decide_project_management_approval` approves exactly when the caller may decide the
-- approval, the decision is to approve and the Project still has the definition that was reviewed.
pub decide_project_management_approval-approves :
    (py : Python) (now : ℕ) (accounts : List Account) (approver : String) (approved : Bool)
    (comment : String) (project : Project) (approval : Approval)
    → approves (
        decide_project_management_approval py now accounts approver approved comment project
          approval)
      ≡ (may_approve py accounts approver approval
          && project_management_approval_is_current py approval project
          && approved)
unfolding decide_project_management_approval may_approve
decide_project_management_approval-approves py now accounts approver approved comment project
      approval =
    ground arith

-- two names of one user are told apart from a third alike
same_user-stranger :
    (py : Python) (a b c : String)
    → same_user py a b ≡ true
    → same_user py a c ≡ false
    → same_user py b c ≡ false
same_user-stranger py a b c h k =
    subst (λ t. str_eq t (py.casefold (username_of py c)) ≡ false)
      ((eq_iff (py.casefold (username_of py a)) (py.casefold (username_of py b))).0 h) k

-- Four eyes: where `decide_project_management_approval` approves, the Approver on the row is neither
-- the user who asked for the approval nor the technical Reviewer of the revision, and the Project
-- has the definition that was reviewed.
pub decide_project_management_approval-four_eyes :
    (py : Python) (now : ℕ) (accounts : List Account) (approver : String) (approved : Bool)
    (comment : String) (project : Project) (approval : Approval)
    → approves (
        decide_project_management_approval py now accounts approver approved comment project
          approval)
      ≡ true
    → (same_user py approval.approver_username approval.requested_by ≡ false)
      × (same_user py approval.approver_username approval.technical_reviewer ≡ false)
      × (project_revision_matches_project py approval.reviewed_revision project ≡ true)
unfolding project_management_approval_is_current may_approve
decide_project_management_approval-four_eyes py now accounts approver approved comment project
      approval h =
    let k : (may_approve py accounts approver approval
          && project_management_approval_is_current py approval project
          && approved)
        ≡ true =
      sym (
        decide_project_management_approval-approves py now accounts approver approved comment
          project approval)
      ∙ h in
    (
      same_user-stranger py (username_of py approver) approval.approver_username
          approval.requested_by (ground arith) (ground arith),
      same_user-stranger py (username_of py approver) approval.approver_username
          approval.technical_reviewer (ground arith) (ground arith),
      ground arith,
    )
