-- ===== src/Tests/Approvals.antt =====
-- Witnesses on the approval workflow: ann submits, bob reviews, cas approves.
use journeyman.Base.{true, false, ◌&&◌, ◌||◌, none, some, List, [], ◌∷◌, ◌≡◌, refl}
use journeyman.Tests.{plain}
use journeyman.Approval.{
  ApprovalState, DecisionStatus, Project, Review, Approval, Account, Revision, Store, same_user,
  get_user_account, user_has_right, project_revision_matches_project,
}
use journeyman.Approval.Submission.{
  request_project_review-pending, request_project_management_approval-pending,
}
use journeyman.Approval.Technical.{
  Requested, request_project_review, pending_review, decide_project_review,
  project_review_is_current,
}
use journeyman.Approval.Management.{
  Submitted, request_project_management_approval, pending_management_approval,
  decide_project_management_approval, project_management_approval_is_current,
}
use journeyman.Approval.FourEyes.{
  approves, approves_review, may_review, may_approve, decide_project_review-approves,
  decide_project_management_approval-approves, decide_project_management_approval-four_eyes,
}
use journeyman.Approval.Gate.{
  project_is_operationally_approved, refresh_project_approval_staleness, is_state_approved,
}
use journeyman.Approval.Standing.{refresh_project_approval_staleness-gate}

abbrev project : Project
project = record {
  is_builtin = false;
  approval_required = true;
  approval_state = ApprovalState.technically_approved;
  definition = "deploy";
}

abbrev revision : Revision
revision = record { sequence = 1; definition = "deploy"; created_by = "ann" }

abbrev review : Review
review = record {
  id = 1;
  revision = revision;
  requested_by = "ann";
  reviewer_username = "bob";
  status = DecisionStatus.pending;
  requested_at = 10;
  decided_at = none;
  decision_comment = "";
}

abbrev approval : Approval
approval = record {
  id = 1;
  revision = revision;
  technical_review_id = 1;
  technical_reviewer = "bob";
  reviewed_revision = revision;
  requested_by = "ann";
  approver_username = "cas";
  status = DecisionStatus.pending;
  requested_at = 20;
  decided_at = none;
  decision_comment = "";
}

abbrev accounts : List Account
accounts =
    record { username = "bob"; enabled = true; rights = "Reviewer" ∷ [] }
    ∷ record { username = "cas"; enabled = true; rights = "Approver" ∷ [] }
    ∷ []

-- a Project whose definition changed after it had been approved, and an exempt one
abbrev edited : Store
edited = record {
  project = record project { approval_state = ApprovalState.approved; definition = "deploy twice" };
  revisions = revision ∷ [];
  reviews = [];
  approvals = record approval { status = DecisionStatus.approved } ∷ [];
}

decide_project_review-approves_example :
    approves_review (decide_project_review plain 30 accounts "bob" true "fine" project review) ≡ (
      may_review plain accounts "bob" review
      && project_review_is_current plain review project
      && true)
decide_project_review-approves_example =
    decide_project_review-approves plain 30 accounts "bob" true "fine" project review

decide_project_management_approval-approves_example :
    approves
      (decide_project_management_approval plain 30 accounts "cas" true "fine" project approval)
    ≡ (may_approve plain accounts "cas" approval
        && project_management_approval_is_current plain approval project
        && true)
decide_project_management_approval-approves_example =
    decide_project_management_approval-approves plain 30 accounts "cas" true "fine" project approval

is_approved_by_cas :
    approves
      (decide_project_management_approval plain 30 accounts "cas" true "fine" project approval)
    ≡ true
unfolding decide_project_management_approval user_has_right get_user_account
    project_management_approval_is_current project_revision_matches_project
is_approved_by_cas = refl

decide_project_management_approval-four_eyes_example :
    (same_user plain "cas" "ann" ≡ false)
    × (same_user plain "cas" "bob" ≡ false)
    × (project_revision_matches_project plain revision project ≡ true)
decide_project_management_approval-four_eyes_example =
    decide_project_management_approval-four_eyes plain 30 accounts "cas" true "fine" project
      approval is_approved_by_cas

refresh_project_approval_staleness-gate_example :
    project_is_operationally_approved plain true
      (some (refresh_project_approval_staleness plain 30 true edited).0)
    ≡ (false
        || false
        || is_state_approved
            (refresh_project_approval_staleness plain 30 true edited).0.project.approval_state)
refresh_project_approval_staleness-gate_example =
    refresh_project_approval_staleness-gate plain 30 edited

-- ann asks bob for a review, and then cas for the approval of what bob has approved
abbrev team : List Account
team = record { username = "ann"; enabled = true; rights = [] } ∷ accounts

abbrev fresh : Store
fresh = record {
  project = record project { approval_state = ApprovalState.development };
  revisions = [];
  reviews = [];
  approvals = [];
}

abbrev reviewed : Store
reviewed = record {
  project = project;
  revisions = revision ∷ [];
  reviews = record review { status = DecisionStatus.approved } ∷ [];
  approvals = [];
}

after_request : Requested → Store × Review
after_request (Requested.requested store row) = (store, row)
after_request (Requested.refused message) = (fresh, review)

sent : Store × Review
sent = after_request (request_project_review plain 10 team "ann" "bob" fresh)

is_sent : request_project_review plain 10 team "ann" "bob" fresh ≡ Requested.requested sent.0 sent.1
unfolding sent after_request request_project_review get_user_account
is_sent = refl

request_project_review-pending_example :
    (pending_review fresh ≡ none)
    × (pending_review sent.0 ≡ some sent.1)
    × (sent.0.project.approval_state ≡ ApprovalState.review_requested)
    × (project_review_is_current plain sent.1 sent.0.project ≡ true)
request_project_review-pending_example =
    request_project_review-pending plain 10 team "ann" "bob" fresh sent.0 sent.1 is_sent

after_submission : Submitted → Store × Approval
after_submission (Submitted.submitted store row) = (store, row)
after_submission (Submitted.refused changed message) = (reviewed, approval)

filed : Store × Approval
filed = after_submission (request_project_management_approval plain 20 team "ann" "cas" reviewed)

is_filed :
    request_project_management_approval plain 20 team "ann" "cas" reviewed
    ≡ Submitted.submitted filed.0 filed.1
unfolding filed after_submission request_project_management_approval get_user_account
    project_review_is_current project_revision_matches_project
is_filed = refl

request_project_management_approval-pending_example :
    (pending_management_approval reviewed ≡ none)
    × (pending_management_approval filed.0 ≡ some filed.1)
    × (filed.0.project ≡ project)
    × (same_user plain filed.1.approver_username filed.1.technical_reviewer ≡ false)
    × (project_management_approval_is_current plain filed.1 filed.0.project ≡ true)
request_project_management_approval-pending_example =
    request_project_management_approval-pending plain 20 team "ann" "cas" reviewed filed.0 filed.1
      is_filed
