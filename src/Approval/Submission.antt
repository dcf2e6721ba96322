-- ===== src/Approval/Submission.antt =====
-- What a submission leaves behind: `request_project_review` of app/services/project_reviews.py and
-- `request_project_management_approval` of app/services/project_management_approvals.py.
use journeyman.Base.{
  ℕ, Bool, true, false, Option, none, some, List, [], ◌∷◌, ◌++◌, String, inl, inr, eq_iff, ◌≡◌,
  refl, ap, ◌∙◌, arith, Bool-cases, str_eq,
}
use journeyman.Base.Text.{Python}
use journeyman.Approval.{
  ApprovalState, DecisionStatus, Project, Review, Approval, Account, Store, is_undecided,
  latest_review, latest_approval, get_user_account, username_of, later_review, later_approval,
  same_user, project_revision_matches_project,
}
use journeyman.Approval.Technical.{
  Requested, request_project_review, submit_to, pending_review, project_review_is_current,
}
use journeyman.Approval.Management.{
  Submitted, request_project_management_approval, pending_management_approval,
  approved_technical_review, submit_for, submit_reviewed, project_management_approval_is_current,
}

some≢none : {A : Type 0} (a : A) → some a ≡ none → ⊥
some≢none a h = cc

-- a row put behind rows of which none passes the test is the latest that passes
latest_review-append :
    (p : DecisionStatus → Bool) (rs : List Review) (r : Review)
    → latest_review p rs ≡ none
    → p r.status ≡ true
    → latest_review p (rs ++ (r ∷ [])) ≡ some r
latest_review-append p [] r h e = rw e refl
latest_review-append p (s ∷ rs) r h e = elim (Bool-cases (p s.status)) [
  | inl k ↦ absurd (some≢none (later_review s (latest_review p rs)) (simp k at h))
  | inr k ↦ simp k (latest_review-append p rs r (simp k at h) e)
]

latest_approval-append :
    (p : DecisionStatus → Bool) (rows : List Approval) (a : Approval)
    → latest_approval p rows ≡ none
    → p a.status ≡ true
    → latest_approval p (rows ++ (a ∷ [])) ≡ some a
latest_approval-append p [] a h e = rw e refl
latest_approval-append p (b ∷ rows) a h e = elim (Bool-cases (p b.status)) [
  | inl k ↦ absurd (some≢none (later_approval b (latest_approval p rows)) (simp k at h))
  | inr k ↦ simp k (latest_approval-append p rows a (simp k at h) e)
]

str_eq_refl : (s : String) → str_eq s s ≡ true
str_eq_refl s = (eq_iff s s).1 refl

submit_to-pending :
    (py : Python) (now : ℕ) (requested_by : String) (reviewer : Option Account)
    (store after : Store) (row : Review)
    → submit_to py now requested_by reviewer store ≡ Requested.requested after row
    → (pending_review store ≡ none)
      × (after.reviews ≡ store.reviews ++ (row ∷ []))
      × (is_undecided row.status ≡ true)
      × (after.project.approval_state ≡ ApprovalState.review_requested)
      × (row.revision.definition ≡ after.project.definition)
submit_to-pending py now requested_by reviewer store after row h = ground arith

request_project_review-submit_to :
    (py : Python) (now : ℕ) (accounts : List Account) (requester reviewer : String)
    (store after : Store) (row : Review)
    → request_project_review py now accounts requester reviewer store
      ≡ Requested.requested after row
    → submit_to py now
        (username_of py requester)
        (get_user_account py accounts (username_of py reviewer))
        store
      ≡ Requested.requested after row
unfolding request_project_review
request_project_review-submit_to py now accounts requester reviewer store after row h = ground arith

-- A technical review that `request_project_review` adds: no other was pending, it is now the pending
-- review of the Project, the Project waits for it, and the Project still has its definition.
pub request_project_review-pending :
    (py : Python) (now : ℕ) (accounts : List Account) (requester reviewer : String)
    (store after : Store) (row : Review)
    → request_project_review py now accounts requester reviewer store
      ≡ Requested.requested after row
    → (pending_review store ≡ none)
      × (pending_review after ≡ some row)
      × (after.project.approval_state ≡ ApprovalState.review_requested)
      × (project_review_is_current py row after.project ≡ true)
unfolding project_review_is_current project_revision_matches_project
request_project_review-pending py now accounts requester reviewer store after row h =
    let (none_pending, rows, undecided, state, same) =
      submit_to-pending py now (username_of py requester)
        (get_user_account py accounts (username_of py reviewer)) store after row
        (request_project_review-submit_to py now accounts requester reviewer store after row h) in
    (
      none_pending,
      ap (latest_review is_undecided) rows
          ∙ latest_review-append is_undecided store.reviews row none_pending undecided,
      state,
      ap (λ d. str_eq (py.sha256 after.project.definition) (py.sha256 d)) same
          ∙ str_eq_refl (py.sha256 after.project.definition),
    )

request_project_management_approval-submit_for :
    (py : Python) (now : ℕ) (accounts : List Account) (requester approver : String)
    (store after : Store) (row : Approval)
    → request_project_management_approval py now accounts requester approver store
      ≡ Submitted.submitted after row
    → submit_for py now
        (username_of py requester)
        (get_user_account py accounts (username_of py approver))
        store
      ≡ Submitted.submitted after row
unfolding request_project_management_approval
request_project_management_approval-submit_for py now accounts requester approver store after row
      h =
    ground arith

submit_for-reviewed :
    (py : Python) (now : ℕ) (requested_by : String) (approver : Option Account)
    (store after : Store) (row : Approval)
    → submit_for py now requested_by approver store ≡ Submitted.submitted after row
    → (account : Account) × (submit_reviewed py now requested_by account
          (approved_technical_review store)
          store
        ≡ Submitted.submitted after row)
submit_for-reviewed py now requested_by none store after row h = absurd (clash h)
  where
    clash : {p : Project} {m : String} → Submitted.refused p m ≡ Submitted.submitted after row → ⊥
    clash e = cc
submit_for-reviewed py now requested_by (some account) store after row h = (account, ground arith)

submit_reviewed-pending :
    (py : Python) (now : ℕ) (requested_by : String) (approver : Account) (found : Option Review)
    (store after : Store) (row : Approval)
    → submit_reviewed py now requested_by approver found store ≡ Submitted.submitted after row
    → (pending_management_approval store ≡ none)
      × (after.approvals ≡ store.approvals ++ (row ∷ []))
      × (is_undecided row.status ≡ true)
      × (after.project ≡ store.project)
      × (same_user py row.approver_username row.technical_reviewer ≡ false)
      × (project_management_approval_is_current py row store.project ≡ true)
unfolding project_review_is_current project_management_approval_is_current
submit_reviewed-pending py now requested_by approver found store after row h = ground arith

-- A management approval that `request_project_management_approval` adds: no other was pending, it is
-- now the pending approval of the Project, which is unchanged and still has the reviewed definition,
-- and its Approver is not the technical Reviewer.
pub request_project_management_approval-pending :
    (py : Python) (now : ℕ) (accounts : List Account) (requester approver : String)
    (store after : Store) (row : Approval)
    → request_project_management_approval py now accounts requester approver store
      ≡ Submitted.submitted after row
    → (pending_management_approval store ≡ none)
      × (pending_management_approval after ≡ some row)
      × (after.project ≡ store.project)
      × (same_user py row.approver_username row.technical_reviewer ≡ false)
      × (project_management_approval_is_current py row after.project ≡ true)
request_project_management_approval-pending py now accounts requester approver store after row h =
    let (account, e) =
      submit_for-reviewed py now (username_of py requester)
        (get_user_account py accounts (username_of py approver)) store after row
        (request_project_management_approval-submit_for py now accounts requester approver store
          after row h) in
    let (none_pending, rows, undecided, same, apart, current) =
      submit_reviewed-pending py now (username_of py requester) account
        (approved_technical_review store) store after row e in
    (
      none_pending,
      ap (latest_approval is_undecided) rows
          ∙ latest_approval-append is_undecided store.approvals row none_pending undecided,
      same,
      apart,
      ap (project_management_approval_is_current py row) same ∙ current,
    )
