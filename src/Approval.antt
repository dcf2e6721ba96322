-- ===== src/Approval.antt =====
-- The approval workflow of Projects: rows (app/models/project.py, project_review.py,
-- project_management_approval.py, project_revision.py, user_account.py), accounts and rights
-- (app/services/authorization.py) and the comparison of revisions (app/services/project_revisions.py).
-- One Project is modelled with all its rows: a query by `project_id` is a query of these lists, and an
-- unsaved Project has none.
pub mod Technical
pub mod Management
pub mod Requirement
pub mod FourEyes
pub mod Gate
pub mod Standing
pub mod Submission
use journeyman.Base.{
  ℕ, suc, Bool, true, false, ◌&&◌, Option, none, some, List, [], ◌∷◌, String, any, map, first, max,
  if◌then◌else◌, leb, ◌==◌, str_eq,
}
use journeyman.Base.Text.{Python, is_empty, or_text}

-- VALID_PROJECT_APPROVAL_STATES
pub data ApprovalState : Type 0 where
  development review_requested technically_approved approved stale : ApprovalState

-- the statuses of a technical review and of a management approval
pub data DecisionStatus : Type 0 where
  pending approved rejected stale : DecisionStatus

-- `definition` stands for the canonical JSON of the approval-relevant part of the stored snapshot,
-- `canonical_project_revision_json(project_revision_semantic_snapshot(revision.snapshot()))`
pub record Revision : Type 0 where
  pub sequence : ℕ
  pub definition : String
  pub created_by : String

-- `definition` stands for the same text of `build_project_revision_snapshot(project)`
pub record Project : Type 0 where
  pub is_builtin : Bool  -- bool(builtin_key)
  pub approval_required : Bool
  pub approval_state : ApprovalState
  pub definition : String

pub record Review : Type 0 where
  pub id : ℕ
  pub revision : Revision
  pub requested_by : String
  pub reviewer_username : String
  pub status : DecisionStatus
  pub requested_at : ℕ
  pub decided_at : Option ℕ
  pub decision_comment : String

-- of `technical_review` the services read the reviewer and the revision, which never change
pub record Approval : Type 0 where
  pub id : ℕ
  pub revision : Revision
  pub technical_review_id : ℕ
  pub technical_reviewer : String  -- technical_review.reviewer_username
  pub reviewed_revision : Revision  -- technical_review.revision
  pub requested_by : String
  pub approver_username : String
  pub status : DecisionStatus
  pub requested_at : ℕ
  pub decided_at : Option ℕ
  pub decision_comment : String

pub record Account : Type 0 where
  pub username : String
  pub enabled : Bool
  pub rights : List String  -- the names of account.rights

-- the rows that the services read and write
pub record Store : Type 0 where
  pub project : Project
  pub revisions : List Revision
  pub reviews : List Review
  pub approvals : List Approval

abbrev pub is_undecided : DecisionStatus → Bool
is_undecided DecisionStatus.pending = true
is_undecided _ = false

abbrev pub is_approved : DecisionStatus → Bool
is_approved DecisionStatus.approved = true
is_approved _ = false

-- `.order_by(id.desc()).first()` of the rows that pass a test
abbrev pub later_review : Review → Option Review → Review
later_review r none = r
later_review r (some s) = if leb s.id r.id then r else s

abbrev pub latest_review : (DecisionStatus → Bool) → List Review → Option Review
latest_review p [] = none
latest_review p (r ∷ rs) =
    let rest = latest_review p rs in if p r.status then some (later_review r rest) else rest

abbrev pub later_approval : Approval → Option Approval → Approval
later_approval a none = a
later_approval a (some b) = if leb b.id a.id then a else b

abbrev pub latest_approval : (DecisionStatus → Bool) → List Approval → Option Approval
latest_approval p [] = none
latest_approval p (a ∷ rest) =
    let later = latest_approval p rest in
    if p a.status then some (later_approval a later) else later

-- a changed row in place of the row with its id
abbrev pub put_review : Review → List Review → List Review
put_review r rows = map (λ s. if s.id == r.id then r else s) rows

abbrev pub put_approval : Approval → List Approval → List Approval
put_approval a rows = map (λ b. if b.id == a.id then a else b) rows

-- the id of a new row: greater than every id in use
abbrev pub next_review_id : List Review → ℕ
next_review_id [] = 1
next_review_id (r ∷ rs) = max (suc r.id) (next_review_id rs)

abbrev pub next_approval_id : List Approval → ℕ
next_approval_id [] = 1
next_approval_id (a ∷ rest) = max (suc a.id) (next_approval_id rest)

abbrev pub last_sequence : List Revision → ℕ
last_sequence [] = 0
last_sequence (r ∷ rs) = max r.sequence (last_sequence rs)

module _ (py : Python) where
  -- `_username` on a text
  abbrev pub username_of : String → String
  username_of value = py.strip value

  -- `_same_user`
  abbrev pub same_user : String → String → Bool
  same_user left right = str_eq (py.casefold (username_of left)) (py.casefold (username_of right))

  -- `lower(UserAccount.username)` of the database is taken to be `py.lower`; usernames are unique, so
  -- `one_or_none` is the first match
  abbrev pub is_named : String → Account → Bool
  is_named wanted account = str_eq (py.lower account.username) (py.casefold wanted)

  unfoldable pub get_user_account : List Account → String → Option Account
  get_user_account accounts name =
      let wanted = py.strip name in
      if is_empty wanted then none else first (is_named wanted) accounts

  -- `account.has_right(name)`
  abbrev pub has_right : String → Account → Bool
  has_right name account =
      any (λ right. str_eq (py.casefold right) (py.casefold (py.strip name))) account.rights

  abbrev pub right_holder : String → Option Account → Bool
  right_holder name none = false
  right_holder name (some account) = account.enabled && has_right name account

  unfoldable pub user_has_right : List Account → String → String → Bool
  unfolding get_user_account
  user_has_right accounts username name = right_holder name (get_user_account accounts username)

  -- the digests of the two definitions agree
  unfoldable pub project_revision_matches_project : Revision → Project → Bool
  project_revision_matches_project revision project =
      str_eq (py.sha256 project.definition) (py.sha256 revision.definition)

  -- `capture_project_revision`, with a known project
  abbrev pub capture_project_revision : String → Store → Revision
  capture_project_revision created_by store = record {
    sequence = suc (last_sequence store.revisions);
    definition = store.project.definition;
    created_by = or_text (py.strip (or_text created_by "system")) "system";
  }
