-- ===== src/Dispatch/Claims.antt =====
-- What `claim_next_remote_job` hands out: app/services/runner_dispatch.py.
use mathlib.Core.List.{Memᴰ}
use mathlib.Core.List.Memᴰ
use journeyman.Base.{
  ℕ, true, false, ◌&&◌, Option, none, some, List, [], ◌∷◌, String, ◌≡◌, refl, arith, Bool-cases,
  inl, inr, ◌⊎◌, sort_with-IsSorted, IsSorted, All, keep, ap, ◌∙◌, sym, subst,
}
use journeyman.Base.Members.{keep-Memᴰ, Memᴰ-keep, sort_with-Memᴰ, Memᴰ-sort_with}
use journeyman.Base.Text.{Python}
use journeyman.Runner.{Runner}
use journeyman.Job.{Job}
use journeyman.Concurrency.{queued_le, is_queued}
use journeyman.Lifecycle.{is_remote}
use journeyman.Dispatch.{
  runner_can_claim, assigned_job, is_unassigned, Look, taken, passed, gone, look_locked, look_at,
  claim_first, candidates_of, claim_next_remote_job,
}

queued_le_total : (a b : Job) → queued_le a b ≡ false → queued_le b a ≡ true
queued_le_total a b h = ground arith

queued_le_trans : (a b c : Job) → queued_le a b ≡ true → queued_le b c ≡ true → queued_le a c ≡ true
queued_le_trans a b c h k = ground arith

All-Memᴰ : (P : Job → Type 0) (xs : List Job) (x : Job) → All P xs → Memᴰ x xs → P x
All-Memᴰ P [] x h m = absurd (Memᴰ.not-nil m)
All-Memᴰ P (y ∷ ys) x h m = elim (Memᴰ.cases_cons m) [
  | inl e ↦ subst P (sym e) h.0
  | inr k ↦ All-Memᴰ P ys x h.1 k
]

Look-cases : (l : Look) → ((job : Job) × (l ≡ taken job)) ⊎ ((l ≡ passed) ⊎ (l ≡ gone))
Look-cases (taken job) = inl (job, refl)
Look-cases passed = inr (inl refl)
Look-cases gone = inr (inr refl)

some-injective : (a b : Job) → some a ≡ some b → a ≡ b
some-injective a b h = cc

module _ (py : Python) (now : ℕ) (token : String) (runner : Runner) (locked : Option Runner)
    (jobs : List Job) where
  abbrev look : Job → Look
  look job = look_at py now token runner locked jobs job

  -- the candidate that the loop takes, and what it did with those that do not stand behind
  first-taken :
      (cs : List Job) (after : Job)
      → IsSorted queued_le cs
      → claim_first py now token runner locked jobs cs ≡ some after
      → (job : Job) × Memᴰ job cs
        × (look job ≡ taken after)
        × ((other : Job) → Memᴰ other cs → (queued_le job other ≡ true) ⊎ (look other ≡ passed))
  first-taken [] after sorted h = absurd (cc)
  first-taken (c ∷ cs) after sorted h = elim (Look-cases (look c)) [
    | inl (job, e) ↦ (
      c,
      Memᴰ.head refl,
      e ∙ ap taken (some-injective job after (ground arith)),
      λ other m. elim (Memᴰ.cases_cons m) [
        | inl same ↦ inl (ground (arith, ap (λ j. j.queued_at) same, ap (λ j. j.id) same))
        | inr k ↦ inl (All-Memᴰ (λ y. queued_le c y ≡ true) cs other sorted.0 k)
      ],
    )
    | inr (inl e) ↦
        let (job, m, t, rest) = first-taken cs after sorted.1 (ground arith) in
        (
          job,
          Memᴰ.tail m,
          t,
          λ other k. elim (Memᴰ.cases_cons k) [
            | inl same ↦ inr (ap look same ∙ e)
            | inr below ↦ rest other below
          ],
        )
    | inr (inr e) ↦ absurd (ground arith)
  ]

-- the row that the runner gets: assigned to it, and the first in the queue that could be
pub record IsHanded (py : Python) (now : ℕ) (token : String) (runner : Runner)
    (locked : Option Runner) (jobs : List Job) (after : Job) : Type 0 where
  pub row : Runner
  pub locked_row : locked ≡ some row
  pub not_draining : row.drain_job_id ≡ none
  pub job : Job
  pub known : Memᴰ job jobs
  pub can_claim : runner_can_claim py now row jobs job ≡ true
  pub unassigned : is_unassigned job ≡ true
  pub assigned : after ≡ assigned_job row token job
  pub in_order :
      (other : Job)
      → Memᴰ other jobs
      → (is_queued other.status && is_remote other.dispatch_target) ≡ true
      → (queued_le job other ≡ true) ⊎ (look_at py now token runner locked jobs other ≡ passed)

pub locked-guards :
    (py : Python) (now : ℕ) (token : String) (jobs : List Job) (job after : Job)
    (locked : Option Runner)
    → look_locked py now token jobs job locked ≡ taken after
    → (row : Runner) × (locked ≡ some row)
      × (row.drain_job_id ≡ none)
      × (runner_can_claim py now row jobs job ≡ true)
      × (is_unassigned job ≡ true)
      × (assigned_job row token job ≡ after)
locked-guards py now token jobs job after none h = absurd (cc)
locked-guards py now token jobs job after (some row) h = (
  row,
  refl,
  ground arith,
  ground arith,
  ground arith,
  taken-injective (assigned_job row token job) after (ground arith),
)
  where
    taken-injective : (a b : Job) → taken a ≡ taken b → a ≡ b
    taken-injective a b e = cc

pub look-locked :
    (py : Python) (now : ℕ) (token : String) (runner : Runner) (locked : Option Runner)
    (jobs : List Job) (job after : Job)
    → look_at py now token runner locked jobs job ≡ taken after
    → look_locked py now token jobs job locked ≡ taken after
look-locked py now token runner locked jobs job after h =
    elim (Bool-cases (runner_can_claim py now runner jobs job)) [
      | inl e ↦ simp e at h
      | inr e ↦ absurd (ground arith)
    ]

-- A job that `claim_next_remote_job` answers is a row of the table, assigned to the locked runner with
-- the token. The runner is not draining, it may claim the job, and nobody had it; and every queued
-- remote job that does not stand behind it in the queue is one that the runner was passed over for.
pub claim_next_remote_job-IsHanded :
    (py : Python) (now : ℕ) (token : String) (runner : Runner) (locked : Option Runner)
    (jobs : List Job) (after : Job)
    → claim_next_remote_job py now token runner locked jobs ≡ some after
    → IsHanded py now token runner locked jobs after
unfolding claim_next_remote_job
claim_next_remote_job-IsHanded py now token runner locked jobs after h =
    let waiting = keep (λ j. is_queued j.status && is_remote j.dispatch_target) jobs in
    let (job, m, t, order) =
      first-taken py now token runner locked jobs (candidates_of jobs) after
        (sort_with-IsSorted queued_le queued_le_total queued_le_trans waiting) h in
    let (row, e, free, can, open_, same) =
      locked-guards py now token jobs job after locked
        (look-locked py now token runner locked jobs job after t) in
    record {
      row = row;
      locked_row = e;
      not_draining = free;
      job = job;
      known = (keep-Memᴰ _ job jobs (sort_with-Memᴰ queued_le job waiting m)).0;
      can_claim = can;
      unassigned = open_;
      assigned = sym same;
      in_order = λ other k w.
          order other (Memᴰ-sort_with queued_le other waiting (Memᴰ-keep _ other jobs k w));
    }
