-- ===== src/Approval/Technical.antt =====
-- Technical reviews: app/services/project_reviews.py.
use journeyman.Base.{
  ℕ, Bool, false, ◌&&◌, not, Option, none, some, List, [], ◌∷◌, ◌++◌, String, if◌then◌else◌, keep,
  str_eq,
}
use journeyman.Base.Text.{Python, is_empty}
use journeyman.Approval.{
  ApprovalState, DecisionStatus, Project, Review, Account, Store, is_undecided, latest_review,
  put_review, next_review_id, username_of, same_user, get_user_account, has_right, user_has_right,
  project_revision_matches_project, capture_project_revision,
}

-- RIGHT_REVIEWER
abbrev pub right_reviewer : String
right_reviewer = "Reviewer"

abbrev pub changed_after_request : String
changed_after_request = "Project executable definition changed after review was requested."

-- `_pending_review`
abbrev pub pending_review : Store → Option Review
pending_review store = latest_review is_undecided store.reviews

-- ProjectReviewError, or the rows and the row that was added
pub data Requested : Type 0 where
  refused : String → Requested
  requested : Store → Review → Requested

-- ProjectReviewError, or the decided row and its project
pub data Decided : Type 0 where
  refused : String → Decided
  decided : Project → Review → Decided

abbrev pub is_enabled_account : Option Account → Bool
is_enabled_account none = false
is_enabled_account (some account) = account.enabled

abbrev pub closed_review : ℕ → DecisionStatus → String → Review → Review
closed_review now status comment review = record review {
  status = status;
  decided_at = some now;
  decision_comment = comment;
}

abbrev pub with_state : ApprovalState → Project → Project
with_state state project = record project { approval_state = state }

module _ (py : Python) where
  -- `eligible_project_reviewers`, of the accounts in the order of the query
  abbrev pub eligible_project_reviewers : String → List Account → List Account
  eligible_project_reviewers exclude_username accounts =
      let excluded = py.casefold (username_of py exclude_username) in
      keep
        (λ account.
          account.enabled
          && has_right py right_reviewer account
          && not (str_eq (py.casefold account.username) excluded))
        accounts

  -- the row that a request adds
  abbrev pub new_review : ℕ → String → Account → Store → Review
  new_review now requested_by reviewer store = record {
    id = next_review_id store.reviews;
    revision = capture_project_revision py requested_by store;
    requested_by = requested_by;
    reviewer_username = reviewer.username;
    status = DecisionStatus.pending;
    requested_at = now;
    decided_at = none;
    decision_comment = "";
  }

  -- the effects, once every check has passed
  abbrev pub submit_review : ℕ → String → Account → Store → Requested
  submit_review now requested_by reviewer store =
      let row = new_review now requested_by reviewer store in
      Requested.requested
        (record store {
          project = with_state ApprovalState.review_requested store.project;
          revisions = store.revisions ++ (row.revision ∷ []);
          reviews = store.reviews ++ (row ∷ []);
        })
        row

  -- the checks on the reviewer's account and on a pending review
  abbrev pub submit_to : ℕ → String → Option Account → Store → Requested
  submit_to now requested_by none store =
      Requested.refused "Reviewer must be an enabled Journeyman user."
  submit_to now requested_by (some reviewer) store =
      if not reviewer.enabled
      then Requested.refused "Reviewer must be an enabled Journeyman user."
      else if not (has_right py right_reviewer reviewer)
      then Requested.refused "Selected reviewer does not have the Reviewer right."
      else elim (pending_review store) [
        | some _ ↦ Requested.refused "This Project already has a pending technical review."
        | none ↦ submit_review now requested_by reviewer store
      ]

  unfoldable pub request_project_review : ℕ → List Account → String → String → Store → Requested
  request_project_review now accounts requester reviewer store =
      let requested_by = username_of py requester in
      let reviewer_username = username_of py reviewer in
      if not store.project.approval_required
      then Requested.refused "Approval is not required for this Project."
      else if is_empty requested_by
      then Requested.refused "Review requester is required."
      else if is_empty reviewer_username
      then Requested.refused "Reviewer is required."
      else if same_user py requested_by reviewer_username
      then Requested.refused "A Project requester cannot review their own submission."
      else if not (is_enabled_account (get_user_account py accounts requested_by))
      then Requested.refused "Review requester must be an enabled Journeyman user."
      else submit_to now requested_by (get_user_account py accounts reviewer_username) store

  unfoldable pub project_review_is_current : Review → Project → Bool
  project_review_is_current review project =
      project_revision_matches_project py review.revision project

  -- `refresh_project_review_staleness`: the rows after it, and the review that it returns
  abbrev pub refresh_review : ℕ → Option Review → Store → Store × Option Review
  refresh_review now none store = (store, none)
  refresh_review now (some review) store =
      if project_review_is_current review store.project
      then (store, some review)
      else let closed = closed_review now DecisionStatus.stale changed_after_request review in
        (
          record store {
            project = with_state ApprovalState.stale store.project;
            reviews = put_review closed store.reviews;
          },
          some closed,
        )

  unfoldable pub refresh_project_review_staleness : ℕ → Store → Store × Option Review
  unfolding project_review_is_current
  refresh_project_review_staleness now store = refresh_review now (pending_review store) store

  -- the effects of a decision, once the caller may decide
  abbrev pub conclude_review : ℕ → Bool → String → Project → Review → Decided
  conclude_review now approved comment project review =
      if not (project_review_is_current review project)
      then Decided.decided (with_state ApprovalState.stale project)
          (closed_review now DecisionStatus.stale changed_after_request review)
      else if approved
      then Decided.decided (with_state ApprovalState.technically_approved project)
          (closed_review now DecisionStatus.approved comment review)
      else Decided.decided (with_state ApprovalState.development project)
          (closed_review now DecisionStatus.rejected comment review)

  unfoldable pub decide_project_review :
      ℕ → List Account → String → Bool → String → Project → Review → Decided
  unfolding project_review_is_current
  decide_project_review now accounts reviewer approved comment project review =
      let reviewer_username = username_of py reviewer in
      if not (is_undecided review.status)
      then Decided.refused "Only a pending technical review can be decided."
      else if is_empty reviewer_username
      then Decided.refused "Reviewer identity is required."
      else if not (same_user py reviewer_username review.reviewer_username)
      then Decided.refused "Only the assigned Reviewer can decide this review."
      else if same_user py reviewer_username review.requested_by
      then Decided.refused "A Project requester cannot review their own submission."
      else if not (user_has_right py accounts reviewer_username right_reviewer)
      then Decided.refused "Reviewer no longer has the Reviewer right."
      else conclude_review now approved (py.strip comment) project review
