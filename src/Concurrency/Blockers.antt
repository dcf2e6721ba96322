-- ===== src/Concurrency/Blockers.antt =====
-- The decisions of app/services/project_concurrency.py against the queue and the policies, written
-- without the tests of the code.
use journeyman.Base.{
  ℕ, true, false, ◌≡◌, ◌≢◌, ◌<◌, refl, ◌↔◌, Option, none, some, List, String, All, All-map,
  Bool-cases, inl, inr, arith, ◌⊎◌, ◌==◌, eq_iff, ap,
}
use journeyman.Job.{Job, JobStatus, Policy}
use journeyman.Concurrency.{
  blocks_launch, launch_blocking_job, is_other, goes_first, job_can_start, is_active,
  same_signature, policy_matches, excludes,
}
use journeyman.Concurrency.Exclusion.{job_can_start_iff, launch_blocking_job-none_iff, IsExclusive}

-- the queue: by the time of queuing, then by the id
pub Precedes : Job → Job → Type 0
Precedes a b = (a.queued_at < b.queued_at) ⊎ ((a.queued_at ≡ b.queued_at) × (a.id < b.id))

-- what the start of a job asks of another one of its Project, by the other's status
pub LetsStart : JobStatus → Job → Job → Type 0
LetsStart JobStatus.queued job other = Precedes job other
LetsStart JobStatus.running job other = ⊥
LetsStart JobStatus.waiting_oversight job other = ⊥
LetsStart JobStatus.cancelling job other = ⊥
LetsStart _ job other = Unit

lets_start :
    (job j : Job)
    → (is_other job j ≡ true → goes_first job j ≡ false)
    → j.project_id ≡ job.project_id
    → j.id ≢ job.id
    → LetsStart j.status job j
unfolding LetsStart Precedes
lets_start job j h p d = at j.status refl
  where
    at : (st : JobStatus) → j.status ≡ st → LetsStart st job j
    at JobStatus.queued e = ground arith
    at JobStatus.running e = ground arith
    at JobStatus.waiting_oversight e = ground arith
    at JobStatus.cancelling e = ground arith
    at JobStatus.successful e = tt
    at JobStatus.failed e = tt
    at JobStatus.cancelled e = tt

goes_not_first :
    (job j : Job)
    → (j.project_id ≡ job.project_id → j.id ≢ job.id → LetsStart j.status job j)
    → is_other job j ≡ true
    → goes_first job j ≡ false
unfolding LetsStart Precedes
goes_not_first job j h o =
    let p : j.project_id ≡ job.project_id = ground arith in
    let d : j.id ≢ job.id = ground arith in at j.status refl (h p d)
  where
    at : (st : JobStatus) → j.status ≡ st → LetsStart st job j → goes_first job j ≡ false
    at JobStatus.queued e y = ground arith
    at JobStatus.running e y = absurd y
    at JobStatus.waiting_oversight e y = absurd y
    at JobStatus.cancelling e y = absurd y
    at JobStatus.successful e y = ground arith
    at JobStatus.failed e y = ground arith
    at JobStatus.cancelled e y = ground arith

-- `job_can_start`, for a job of a serialized Project: it may start exactly if no other job of the
-- Project in the table is running, waits for oversight or is being cancelled, and it precedes every
-- other queued job of the Project by the time of queuing and then by the id.
pub job_can_start-queue_iff :
    (job : Job) (jobs : List Job)
    → job.concurrency_policy ≡ Policy.serialized
    → (job_can_start job jobs ≡ true)
      ↔ All (λ j. j.project_id ≡ job.project_id → j.id ≢ job.id → LetsStart j.status job j) jobs
job_can_start-queue_iff job jobs s =
    let (forth, back) = job_can_start_iff job jobs s in
    (
      λ h. All-map _ _ (lets_start job) jobs (forth h),
      λ h. back (All-map _ _ (goes_not_first job) jobs h),
    )

-- the parameters that a policy compares with those of a launch: distinct_parameters takes a job
-- without a signature for one with the same
pub HasSameParameters : Policy → String → Option String → Type 0
HasSameParameters Policy.distinct_parameters signature other =
    (other ≡ none) ⊎ (other ≡ some signature)
HasSameParameters _ signature other = Unit

-- the statuses from which a job does nothing any more
pub IsOver : JobStatus → Type 0
IsOver JobStatus.successful = Unit
IsOver JobStatus.failed = Unit
IsOver JobStatus.cancelled = Unit
IsOver _ = ⊥

some-injective : {A : Type 0} {a b : A} → some a ≡ some b → a ≡ b
some-injective e = cc

ended_iff :
    (st : JobStatus) → (is_active st ≡ false → IsOver st) × (IsOver st → is_active st ≡ false)
unfolding IsOver
ended_iff JobStatus.queued = (λ h. absurd (cc), λ h. absurd h)
ended_iff JobStatus.running = (λ h. absurd (cc), λ h. absurd h)
ended_iff JobStatus.waiting_oversight = (λ h. absurd (cc), λ h. absurd h)
ended_iff JobStatus.cancelling = (λ h. absurd (cc), λ h. absurd h)
ended_iff JobStatus.successful = (λ _. tt, λ _. refl)
ended_iff JobStatus.failed = (λ _. tt, λ _. refl)
ended_iff JobStatus.cancelled = (λ _. tt, λ _. refl)

matches_iff :
    (policy : Policy) (signature : String) (j : Job)
    → (policy_matches policy signature j ≡ true
        → HasSameParameters policy signature j.concurrency_signature)
      × (HasSameParameters policy signature j.concurrency_signature
          → policy_matches policy signature j ≡ true)
unfolding HasSameParameters
matches_iff Policy.unrestricted signature j = (λ _. tt, λ _. refl)
matches_iff Policy.serialized signature j = (λ _. tt, λ _. refl)
matches_iff Policy.exclusive signature j = (λ _. tt, λ _. refl)
matches_iff Policy.distinct_parameters signature j = of_signature j.concurrency_signature
  where
    of_signature :
        (other : Option String)
        → (same_signature signature other ≡ true → (other ≡ none) ⊎ (other ≡ some signature))
          × ((other ≡ none) ⊎ (other ≡ some signature) → same_signature signature other ≡ true)
    of_signature none = (λ _. inl refl, λ _. refl)
    of_signature (some t) = (
      λ h. inr (ap some ((eq_iff t signature).0 h)),
      λ e. elim e [
        | inl none_given ↦ absurd (cc)
        | inr same ↦ (eq_iff t signature).1 (some-injective same)
      ],
    )

excludes_iff :
    (exclude : Option ℕ) (j : Job)
    → (exclude ≢ some j.id → excludes exclude j ≡ true)
      × (excludes exclude j ≡ true → exclude ≢ some j.id)
excludes_iff none j = (λ _. refl, λ _ e. cc)
excludes_iff (some id) j = (
  λ h. elim (Bool-cases (j.id == id)) [
    | inl e ↦ let same : id ≡ j.id = ground arith in absurd (h (ap some same))
    | inr e ↦ rw e refl
  ],
  λ h e. let same : id ≡ j.id = some-injective e in ground arith,
)

module _ (project_id : ℕ) (policy : Policy) (signature : String) (exclude : Option ℕ) where
  ended_unless_blocking :
      (j : Job)
      → blocks_launch project_id policy signature exclude j ≡ false
      → j.project_id ≡ project_id
      → exclude ≢ some j.id
      → HasSameParameters policy signature j.concurrency_signature
      → IsOver j.status
  ended_unless_blocking j h p d same =
      let kept = (excludes_iff exclude j).0 d in
      let matched = (matches_iff policy signature j).1 same in
      let inactive : is_active j.status ≡ false = ground arith in (ended_iff j.status).0 inactive

  blocks_not :
      (j : Job)
      → (j.project_id ≡ project_id
          → exclude ≢ some j.id
          → HasSameParameters policy signature j.concurrency_signature
          → IsOver j.status)
      → blocks_launch project_id policy signature exclude j ≡ false
  blocks_not j h = elim (Bool-cases (blocks_launch project_id policy signature exclude j)) [
    | inr e ↦ e
    | inl e ↦
        let p : j.project_id ≡ project_id = ground arith in
        let kept : excludes exclude j ≡ true = ground arith in
        let matched : policy_matches policy signature j ≡ true = ground arith in
        let active : is_active j.status ≡ true = ground arith in
        let inactive =
          (ended_iff j.status).1
            (h p ((excludes_iff exclude j).1 kept) ((matches_iff policy signature j).0 matched)) in
        absurd (cc)
  ]

-- `launch_blocking_job`, under the policies exclusive and distinct_parameters: it lets a launch of a
-- Project through exactly if every job of that Project in the table, other than the excluded one and
-- under distinct_parameters only those without a signature or with the launch's, has ended as
-- successful, failed or cancelled.
pub launch_blocking_job-clear_iff :
    (project_id : ℕ) (policy : Policy) (signature : String) (exclude : Option ℕ) (jobs : List Job)
    → (policy ≡ Policy.exclusive) ⊎ (policy ≡ Policy.distinct_parameters)
    → (launch_blocking_job (some project_id) policy signature exclude jobs ≡ none)
      ↔ All
          (λ j.
            j.project_id ≡ project_id
            → exclude ≢ some j.id
            → HasSameParameters policy signature j.concurrency_signature
            → IsOver j.status)
          jobs
launch_blocking_job-clear_iff project_id policy signature exclude jobs h =
    let rejects : IsExclusive policy = ground arith in
    let (forth, back) =
      launch_blocking_job-none_iff project_id policy signature exclude jobs rejects in
    (
      λ e. All-map _ _ (ended_unless_blocking project_id policy signature exclude) jobs (forth e),
      λ a. back (All-map _ _ (blocks_not project_id policy signature exclude) jobs a),
    )
