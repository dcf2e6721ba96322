-- ===== src/Concurrency/Exclusion.antt =====
-- What the concurrency policies exclude.
use journeyman.Base.{
  ℕ, Bool, true, false, ◌≡◌, refl, sym, ap, ◌∙◌, ◌↔◌, Option, none, some, List, [], ◌∷◌, String,
  keep, sort_with, head?, first, All, keep-All, All-map, sort_with-All, All-sort_with, Bool-cases,
  inl, inr, arith, is_none, ◌⊎◌, ◌≢◌,
}
use mathlib.Core.List.{Memᴰ}
use journeyman.Job.{Job, JobStatus, Policy}
use journeyman.Concurrency.{
  is_active, is_executing, queued_le, queued_before, blocks_launch, launches_freely,
  launch_blocking_job, is_other, goes_first, serialized_blocking_job, job_can_start,
}

module _ {A : Type 0} (p : A → Bool) where
  first-none : (xs : List A) → first p xs ≡ none → All (λ x. p x ≡ false) xs
  first-none [] h = tt
  first-none (x ∷ xs) h = elim (Bool-cases (p x)) [
    | inl e ↦ absurd (clash (rw e at h))
    | inr e ↦ (e, first-none xs (rw e at h))
  ]
    where
      clash : {a : A} → some a ≡ none → ⊥
      clash h = cc

  first-none_of : (xs : List A) → All (λ x. p x ≡ false) xs → first p xs ≡ none
  first-none_of [] h = refl
  first-none_of (x ∷ xs) h = rw (h.0) (first-none_of xs h.1)

  All-keep : (P : A → Type 0) (xs : List A) → All P (keep p xs) → All (λ x. p x ≡ true → P x) xs
  All-keep P [] h = tt
  All-keep P (x ∷ xs) h = elim (Bool-cases (p x)) [
    | inl e ↦ let (hx, hs) = rw e at h in (λ _. hx, All-keep P xs hs)
    | inr e ↦ (λ f. absurd (clash (p x) e f), All-keep P xs (rw e at h))
  ]
    where
      clash : (b : Bool) → b ≡ false → b ≡ true → ⊥
      clash b h k = cc

  keep_of_none : (xs : List A) → All (λ x. p x ≡ false) xs → keep p xs ≡ []
  keep_of_none [] h = refl
  keep_of_none (x ∷ xs) h = rw (h.0) (keep_of_none xs h.1)

pub All-Memᴰ : {A : Type 0} (P : A → Type 0) (xs : List A) {x : A} → All P xs → Memᴰ x xs → P x
All-Memᴰ P [] h m = elim m [ ]
All-Memᴰ P (y ∷ ys) h (Memᴰ.head e) = rw e h.0
All-Memᴰ P (y ∷ ys) h (Memᴰ.tail m) = All-Memᴰ P ys h.1 m

is_none_iff : {A : Type 0} (o : Option A) → is_none o ≡ true → o ≡ none
is_none_iff none h = refl
is_none_iff (some a) h = cc

serialized_first :
    (job : Job) (jobs : List Job)
    → job.concurrency_policy ≡ Policy.serialized
    → serialized_blocking_job job jobs
      ≡ first (goes_first job) (sort_with queued_le (keep (is_other job) jobs))
unfolding serialized_blocking_job
serialized_first job jobs s = simp s

-- A serialized job may start exactly if, among the other active jobs of its Project, none is
-- executing and no queued one stands before it in the queue.
pub job_can_start_iff :
    (job : Job) (jobs : List Job)
    → job.concurrency_policy ≡ Policy.serialized
    → (job_can_start job jobs ≡ true)
      ↔ All (λ j. is_other job j ≡ true → goes_first job j ≡ false) jobs
unfolding job_can_start
job_can_start_iff job jobs s = (forth, back)
  where
    forth :
        job_can_start job jobs ≡ true
        → All (λ j. is_other job j ≡ true → goes_first job j ≡ false) jobs
    forth h =
        All-keep (is_other job) (λ j. goes_first job j ≡ false) jobs
          (All-sort_with queued_le (λ j. goes_first job j ≡ false) (keep (is_other job) jobs)
            (first-none (goes_first job) _ (sym (serialized_first job jobs s) ∙ is_none_iff _ h)))

    back :
        All (λ j. is_other job j ≡ true → goes_first job j ≡ false) jobs
        → job_can_start job jobs ≡ true
    back h = rw (serialized_first job jobs s) (
        ap is_none (
          first-none_of (goes_first job) _ (
            sort_with-All queued_le (λ j. goes_first job j ≡ false) _
              (keep-All (λ j. goes_first job j ≡ false) (is_other job) jobs h))))

queued_before_total :
    (a b : Job) → a.id ≢ b.id → (queued_before a b ≡ true) ⊎ (queued_before b a ≡ true)
queued_before_total a b h = ground arith

-- Of two different queued jobs of one Project in the table, both serialized, at most one may start.
pub serialized_at_most_one :
    (a b : Job) (jobs : List Job)
    → Memᴰ a jobs
    → Memᴰ b jobs
    → a.concurrency_policy ≡ Policy.serialized
    → b.concurrency_policy ≡ Policy.serialized
    → a.project_id ≡ b.project_id
    → a.id ≢ b.id
    → a.status ≡ JobStatus.queued
    → b.status ≡ JobStatus.queued
    → ¬ ((job_can_start a jobs ≡ true) × (job_can_start b jobs ≡ true))
serialized_at_most_one a b jobs ma mb sa sb project ids qa qb (ha, hb) = ground (
  arith,
  All-Memᴰ _ jobs ((job_can_start_iff a jobs sa).0 ha) mb,
  All-Memᴰ _ jobs ((job_can_start_iff b jobs sb).0 hb) ma,
  queued_before_total a b ids,
)

-- A serialized job that may start has no other executing job of its Project beside it.
pub job_can_start-alone :
    (job other : Job) (jobs : List Job)
    → job.concurrency_policy ≡ Policy.serialized
    → job_can_start job jobs ≡ true
    → Memᴰ other jobs
    → other.project_id ≡ job.project_id
    → other.id ≢ job.id
    → is_executing other.status ≡ false
job_can_start-alone job other jobs s h m project ids =
    ground (arith, All-Memᴰ _ jobs ((job_can_start_iff job jobs s).0 h) m)

head?-none : {A : Type 0} (xs : List A) → head? xs ≡ none → xs ≡ []
head?-none [] h = refl
head?-none (x ∷ xs) h = cc

-- the policies that reject a launch
abbrev pub IsExclusive : Policy → Type 0
IsExclusive policy = launches_freely policy ≡ false

launch_head :
    (project_id : ℕ) (policy : Policy) (signature : String) (exclude : Option ℕ) (jobs : List Job)
    → IsExclusive policy
    → launch_blocking_job (some project_id) policy signature exclude jobs
      ≡ head? (sort_with queued_le (keep (blocks_launch project_id policy signature exclude) jobs))
unfolding launch_blocking_job
launch_head project_id policy signature exclude jobs h = rw h

All-nil : {A : Type 0} (P : A → Type 0) (xs : List A) → xs ≡ [] → All P xs
All-nil P [] h = tt
All-nil P (x ∷ xs) h = cc

-- Under a policy that rejects launches, a launch is let through exactly if no job in the table
-- passes all four filters: its Project, an active status, not the excluded job, and under distinct
-- parameters the same signature or none.
pub launch_blocking_job-none_iff :
    (project_id : ℕ) (policy : Policy) (signature : String) (exclude : Option ℕ) (jobs : List Job)
    → IsExclusive policy
    → (launch_blocking_job (some project_id) policy signature exclude jobs ≡ none)
      ↔ All (λ j. blocks_launch project_id policy signature exclude j ≡ false) jobs
launch_blocking_job-none_iff project_id policy signature exclude jobs h = (forth, back)
  where
    blocks : Job → Bool
    blocks = blocks_launch project_id policy signature exclude

    never : (j : Job) → (blocks j ≡ true → ⊥) → blocks j ≡ false
    never j no_block = elim (Bool-cases (blocks j)) [ inl e ↦ absurd (no_block e) | inr e ↦ e ]

    forth :
        launch_blocking_job (some project_id) policy signature exclude jobs ≡ none
        → All (λ j. blocks j ≡ false) jobs
    forth e = All-map _ _ never jobs (
        All-keep blocks (λ j. ⊥) jobs
          (All-sort_with queued_le (λ j. ⊥) (keep blocks jobs)
            (All-nil (λ j. ⊥) _
              (head?-none _ (sym (launch_head project_id policy signature exclude jobs h) ∙ e)))))

    back :
        All (λ j. blocks j ≡ false) jobs
        → launch_blocking_job (some project_id) policy signature exclude jobs ≡ none
    back none_blocks =
        rw
          (
            launch_head project_id policy signature exclude jobs h,
            keep_of_none blocks jobs none_blocks,
          )
          refl

-- Once a launch under the exclusive policy has put its job into the table as an active one of the
-- Project, every further launch of the Project under that policy is rejected.
pub exclusive_rejects_second :
    (project_id : ℕ) (signature : String) (job : Job) (jobs : List Job)
    → job.project_id ≡ project_id
    → is_active job.status ≡ true
    → launch_blocking_job (some project_id) Policy.exclusive signature none (job ∷ jobs) ≢ none
exclusive_rejects_second project_id signature job jobs p active e = ground (
  arith,
  (launch_blocking_job-none_iff project_id Policy.exclusive signature none (job ∷ jobs) refl).0 e,
)
