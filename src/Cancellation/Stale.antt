-- ===== src/Cancellation/Stale.antt =====
-- Which jobs are still cancelling after a pass of `recover_stale_cancelling_jobs` of
-- app/services/job_cancellation.py. A recovery releases drains, which no later decision of the pass
-- reads.
use journeyman.Base.{
  ℕ, ◌+◌, ◌<◌, ◌≡◌, ◌≢◌, refl, Option, none, some, Bool, true, false, List, [], ◌∷◌, map, any,
  first, All₂, Bool-cases, ◌⊎◌, inl, inr, arith, leb, ◌&&◌,
}
use journeyman.Runner.{Runner, runner_health, release_drain, release_runner_drain_for_job}
use journeyman.Lifecycle.{is_cancelling}
use journeyman.Job.{Job, JobStatus, Slice, Target}
use journeyman.Cancellation.{
  runner_by_id, or_runner, either_runner, runner_reports_active_work, slice_may_run,
  job_may_still_be_executing, finalize_abandoned_cancellation, recover_stale_cancelling_jobs,
  is_recovered, effective_stale_seconds,
}

-- the row that a release leaves of the one that was found
released : ℕ → Option Runner → Option Runner
released id none = none
released id (some r) = some (release_drain id r)

first-released :
    (id : ℕ) (p : Runner → Bool) (runners : List Runner)
    → ((r : Runner) → p (release_drain id r) ≡ p r)
    → first p (map (release_drain id) runners) ≡ released id (first p runners)
unfolding released
first-released id p [] same = refl
first-released id p (r ∷ rs) same = elim (Bool-cases (p r)) [
  | inl e ↦ rw (same r, e) refl
  | inr e ↦ rw (same r, e, first-released id p rs same) refl
]

by_id_released :
    (id : ℕ) (runners : List Runner) (key : Option ℕ)
    → runner_by_id (map (release_drain id) runners) key ≡ released id (runner_by_id runners key)
unfolding released
by_id_released id runners none = refl
by_id_released id runners (some k) = first-released id _ runners (λ r. ground arith)

or_released :
    (id : ℕ) (a b : Option Runner)
    → or_runner (released id a) (released id b) ≡ released id (or_runner a b)
unfolding released
or_released id none b = refl
or_released id (some r) b = refl

either_released :
    (id : ℕ) (runners : List Runner) (assigned required : Option ℕ)
    → either_runner (map (release_drain id) runners) assigned required
      ≡ released id (either_runner runners assigned required)
either_released id runners assigned required =
    rw (by_id_released id runners assigned, by_id_released id runners required)
      (or_released id (runner_by_id runners assigned) (runner_by_id runners required))

-- a release hides no work: a runner that counts as active after it did so before
works_released :
    (now id : ℕ) (found : Option Runner)
    → runner_reports_active_work now (released id found) ≡ true
    → runner_reports_active_work now found ≡ true
unfolding released runner_health
works_released now id none h = h
works_released now id (some r) h = ground arith

any_mono :
    {A : Type 0} (p q : A → Bool) (h : (x : A) → p x ≡ true → q x ≡ true) (xs : List A)
    → any p xs ≡ true
    → any q xs ≡ true
any_mono p q h [] e = e
any_mono p q h (x ∷ xs) e = elim (Bool-cases (p x)) [
  | inl k ↦ rw (h x k) refl
  | inr k ↦ let later : any q xs ≡ true = any_mono p q h xs (rw k at e) in ground arith
]

slice_may_released :
    (now id : ℕ) (runners : List Runner) (s : Slice)
    → slice_may_run now (map (release_drain id) runners) s ≡ true
    → slice_may_run now runners s ≡ true
slice_may_released now id runners s h =
    let works =
      works_released now id (either_runner runners s.assigned_runner_id s.required_runner_id) in
    let same = either_released id runners s.assigned_runner_id s.required_runner_id in ground arith

job_may_released :
    (now id : ℕ) (runners : List Runner) (job : Job)
    → job_may_still_be_executing now (release_runner_drain_for_job id runners) job ≡ true
    → job_may_still_be_executing now runners job ≡ true
unfolding job_may_still_be_executing release_runner_drain_for_job
job_may_released now id runners job h = at job.dispatch_target refl
  where
    at : (t : Target) → job.dispatch_target ≡ t → job_may_still_be_executing now runners job ≡ true
    at Target.sliced e = rw e (
        any_mono _ _
          (λ step. any_mono _ _ (slice_may_released now id runners) step.execution_slices) job.steps
          (rw e at h))
    at Target.local e = rw e (
        works_released now id (first (λ r. r.is_local) runners)
          (rw (first-released id (λ r. r.is_local) runners (λ r. ground arith)) at (rw e at h)))
    at Target.remote e = rw e (
        works_released now id (either_runner runners job.assigned_runner_id job.required_runner_id)
          (rw (either_released id runners job.assigned_runner_id job.required_runner_id) at
            (rw e at h)))

-- why a pass leaves a job cancelling: its stop has no time, or it was requested less than
-- `stale_seconds` ago, or a runner reports work that may be the job's
pub IsExcused : ℕ → ℕ → List Runner → Job → Type 0
IsExcused now stale_seconds runners job =
    (job.cancel_requested_at ≡ none)
    ⊎ (((requested : ℕ) × (job.cancel_requested_at ≡ some requested)
          × (now < requested + stale_seconds))
        ⊎ (job_may_still_be_executing now runners job ≡ true))

excused :
    (now stale_seconds : ℕ) (runners : List Runner) (job : Job)
    → job.status ≡ JobStatus.cancelling
    → is_recovered now stale_seconds runners job ≡ false
    → IsExcused now stale_seconds runners job
unfolding IsExcused
excused now stale_seconds runners job c h = at job.cancel_requested_at refl
  where
    late :
        {requested : ℕ}
        → job.cancel_requested_at ≡ some requested
        → job_may_still_be_executing now runners job ≡ false
        → now < requested + stale_seconds
    late {requested} e k =
        let early : (leb (requested + stale_seconds) now && true) ≡ false = simp (c, e, k) at h in
        ground arith

    at : (o : Option ℕ) → job.cancel_requested_at ≡ o → IsExcused now stale_seconds runners job
    at none e = inl e
    at (some requested) e = elim (Bool-cases (job_may_still_be_executing now runners job)) [
      | inl k ↦ inr (inr k)
      | inr k ↦ inr (inl (requested, e, late e k))
    ]

IsExcused-mono :
    (now stale_seconds : ℕ) (before current : List Runner) (job : Job)
    → (job_may_still_be_executing now current job ≡ true
        → job_may_still_be_executing now before job ≡ true)
    → IsExcused now stale_seconds current job
    → IsExcused now stale_seconds before job
unfolding IsExcused
IsExcused-mono now stale_seconds before current job lead (inl e) = inl e
IsExcused-mono now stale_seconds before current job lead (inr (inl e)) = inr (inl e)
IsExcused-mono now stale_seconds before current job lead (inr (inr e)) = inr (inr (lead e))

-- how a job stands after a pass that found these runners
pub IsSettled : ℕ → ℕ → List Runner → Job → Job → Type 0
IsSettled now stale_seconds runners job job' =
    (job'.status ≢ JobStatus.cancelling)
    ⊎ ((job.status ≡ JobStatus.cancelling) × IsExcused now stale_seconds runners job)

kept-IsSettled :
    (now stale_seconds : ℕ) (before current : List Runner) (job : Job)
    → (job_may_still_be_executing now current job ≡ true
        → job_may_still_be_executing now before job ≡ true)
    → is_recovered now stale_seconds current job ≡ false
    → IsSettled now stale_seconds before job job
unfolding IsSettled
kept-IsSettled now stale_seconds before current job lead h =
    elim (Bool-cases (is_cancelling job.status)) [
      | inl c ↦
          let same : job.status ≡ JobStatus.cancelling = ground arith in
          inr (
            same,
            IsExcused-mono now stale_seconds before current job lead
                (excused now stale_seconds current job same h),
          )
      | inr c ↦ inl (λ e. ground arith)
    ]

settles_from :
    (now configured : ℕ) (before current : List Runner) (jobs : List Job)
    → ((job : Job)
        → job_may_still_be_executing now current job ≡ true
        → job_may_still_be_executing now before job ≡ true)
    → All₂
        (IsSettled now (effective_stale_seconds configured) before)
        jobs
        (recover_stale_cancelling_jobs now configured jobs current).0
unfolding recover_stale_cancelling_jobs IsSettled finalize_abandoned_cancellation
settles_from now configured before current [] lead = tt
settles_from now configured before current (job ∷ jobs) lead =
    elim (Bool-cases (is_recovered now (effective_stale_seconds configured) current job)) [
      | inl e ↦ rw e (
        inl (λ k. ground arith),
        settles_from now configured before (release_runner_drain_for_job job.id current) jobs
            (λ j h. lead j (job_may_released now job.id current j h)),
      )
      | inr e ↦ rw e (
        kept-IsSettled now (effective_stale_seconds configured) before current job (lead job) e,
        settles_from now configured before current jobs lead,
      )
    ]

-- `recover_stale_cancelling_jobs`, over all jobs: after a pass a job is cancelling only if it was so
-- before and its stop has no time, or was requested less than max(60, configured) seconds ago, or
-- before the pass a runner that is not offline reported running steps that could be the job's.
pub recover_stale_cancelling_jobs-IsSettled :
    (now configured : ℕ) (jobs : List Job) (runners : List Runner)
    → All₂
        (IsSettled now (effective_stale_seconds configured) runners)
        jobs
        (recover_stale_cancelling_jobs now configured jobs runners).0
recover_stale_cancelling_jobs-IsSettled now configured jobs runners =
    settles_from now configured runners runners jobs (λ job h. h)
