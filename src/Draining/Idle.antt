-- ===== src/Draining/Idle.antt =====
-- What a drain that was granted guarantees: the runner has no work that has not started, and it takes
-- no more.
use journeyman.Base.{
  ℕ, Bool, true, false, ◌&&◌, ◌||◌, not, Option, none, some, List, [], ◌∷◌, String, ◌≡◌, refl, sym,
  ap, subst, ◌∙◌, arith, any, map, if◌then◌else◌, ◌==◌, opt_eq, is_none, All, Bool-cases, inl, inr,
  ◌⊎◌,
}
use journeyman.Base.Text.{Python, Json}
use journeyman.Runner.{Runner}
use journeyman.Job.{Job, Step, Slice}
use journeyman.Claim.{Claim, runner_can_claim_slice}
use journeyman.Draining.{
  EnvironmentSync, holds_job, holds_slice, unassign_slice, unassign_step, unassign_job,
  unassign_not_started_work, Drained, drain_row, row_of, may_drain, drain_locked,
  request_runner_drain, runs_job, runs_slice, runner_has_active_work,
}
use journeyman.Draining.Ready.{
  put_message, ready_after, management_job_ready_to_start, management_values, management_job_target,
}

-- neither the job nor a slice of it waits on the runner
abbrev pub holds_unstarted : ℕ → Job → Bool
holds_unstarted id job =
    holds_job id job || any (λ step. any (holds_slice id) step.execution_slices) job.steps

unassign_slices-free :
    (id : ℕ) (ss : List Slice) → any (holds_slice id) (map (unassign_slice id) ss) ≡ false
unassign_slices-free id [] = refl
unassign_slices-free id (s ∷ ss) = ground (arith, unassign_slices-free id ss)

unassign_steps-free :
    (id : ℕ) (steps : List Step)
    → any (λ step. any (holds_slice id) step.execution_slices) (map (unassign_step id) steps)
      ≡ false
unassign_steps-free id [] = refl
unassign_steps-free id (step ∷ steps) =
    rw (unassign_slices-free id step.execution_slices) (unassign_steps-free id steps)

unassign_job-free : (id : ℕ) (job : Job) → holds_unstarted id (unassign_job id job) ≡ false
unassign_job-free id job = rw (unassign_steps-free id job.steps) (ground arith)

unassign-free :
    (id : ℕ) (jobs : List Job)
    → All (λ j. holds_unstarted id j ≡ false) (unassign_not_started_work id jobs)
unfolding unassign_not_started_work
unassign-free id [] = tt
unassign-free id (j ∷ js) = (unassign_job-free id j, unassign-free id js)

opt_eq-some : (o : Option ℕ) (n : ℕ) → opt_eq o (some n) ≡ true → o ≡ some n
opt_eq-some none n h = absurd (cc)
opt_eq-some (some m) n h = ap some (ground arith)

drain_row-owner :
    (now job_id : ℕ) (action : String) (r : Runner)
    → may_drain job_id r ≡ true
    → ((drain_row now job_id action r).id ≡ r.id)
      × ((drain_row now job_id action r).drain_job_id ≡ some job_id)
drain_row-owner now job_id action r m = elim (Bool-cases (is_none r.drain_job_id)) [
  | inl e ↦ simp e (refl, refl)
  | inr e ↦ simp e (refl, opt_eq-some r.drain_job_id job_id (ground arith))
]

drain_row-id :
    (now job_id : ℕ) (action : String) (r : Runner) → (drain_row now job_id action r).id ≡ r.id
drain_row-id now job_id action r = ground arith

some-injective : (a b : Runner) → some a ≡ some b → a ≡ b
some-injective a b h = cc

-- the row of the runner after the drain
row-drained :
    (now id job_id : ℕ) (action : String) (runners : List Runner) (locked : Runner)
    → row_of id runners ≡ some locked
    → may_drain job_id locked ≡ true
    → (row : Runner) × (row_of id
          (map (λ r. if r.id == id then drain_row now job_id action r else r) runners)
        ≡ some row)
      × (row.drain_job_id ≡ some job_id)
row-drained now id job_id action [] locked e m = absurd (cc)
row-drained now id job_id action (r ∷ rs) locked e m = elim (Bool-cases (r.id == id)) [
  | inl k ↦
      let here = some-injective r locked (simp k at e) in
      let (same, owner) =
        drain_row-owner now job_id action r (subst (λ x. may_drain job_id x ≡ true) (sym here) m) in
      (drain_row now job_id action r, simp (k, same) refl, owner)
  | inr k ↦
      let (row, found, owner) = row-drained now id job_id action rs locked (simp k at e) m in
      (row, simp k found, owner)
]

draining-declines :
    (row : Runner) (job_id now : ℕ) (jobs : List Job) (job : Job) (step : Step) (s : Slice)
    → row.drain_job_id ≡ some job_id
    → runner_can_claim_slice now row jobs job step s ≡ Claim.declined
unfolding runner_can_claim_slice
draining-declines row job_id now jobs job step s h = ground (arith, h)

-- a runner that waits for the job alone: its row names the job, and no job or slice waits on it, and
-- it is allowed none
pub record IsDrained (id job_id : ℕ) (d : Drained) : Type 0 where
  pub row : Runner
  pub found : row_of id d.runners ≡ some row
  pub owner : row.drain_job_id ≡ some job_id
  pub unstarted : All (λ j. holds_unstarted id j ≡ false) d.jobs
  pub declines :
      (now : ℕ) (jobs : List Job) (job : Job) (step : Step) (s : Slice)
      → runner_can_claim_slice now row jobs job step s ≡ Claim.declined

-- the answer, for a runner that may be drained and for one that may not
pub IsDrainAnswer : List Runner → List Job → ℕ → ℕ → Drained → Type 0
IsDrainAnswer runners jobs id job_id d =
    ((d.granted ≡ true) × IsDrained id job_id d)
    ⊎ ((d.granted ≡ false) × (d.runners ≡ runners) × (d.jobs ≡ jobs))

locked-IsDrainAnswer :
    (now : ℕ) (runners : List Runner) (jobs : List Job) (job_id : ℕ) (action : String) (id : ℕ)
    → (o : Option Runner) → row_of id runners ≡ o
    → IsDrainAnswer runners jobs id job_id (drain_locked now runners jobs job_id action id o)
unfolding IsDrainAnswer
locked-IsDrainAnswer now runners jobs job_id action id none e = inr (refl, refl, refl)
locked-IsDrainAnswer now runners jobs job_id action id (some locked) e =
    elim (Bool-cases (may_drain job_id locked)) [
      | inr m ↦ simp m (inr (refl, refl, refl))
      | inl m ↦
          let (row, found, owner) = row-drained now id job_id action runners locked e m in
          simp m (
            inl (
              refl,
              record {
                row = row;
                found = found;
                owner = owner;
                unstarted = unassign-free id jobs;
                declines = λ t js j st x. draining-declines row job_id t js j st x owner;
              },
            ))
    ]

request-IsDrainAnswer :
    (now : ℕ) (runners : List Runner) (jobs : List Job) (runner : Runner) (job_id : ℕ)
    (action : String)
    → IsDrainAnswer runners jobs runner.id job_id
        (request_runner_drain now runners jobs runner job_id action)
unfolding request_runner_drain IsDrainAnswer
request-IsDrainAnswer now runners jobs runner job_id action = elim (Bool-cases runner.is_local) [
  | inl e ↦ simp e (inr (refl, refl, refl))
  | inr e ↦ simp e (
      locked-IsDrainAnswer now runners jobs job_id action runner.id (row_of runner.id runners) refl)
]

-- the row is remote, and no other job drains it
abbrev pub is_free_for : ℕ → Option Runner → Bool
is_free_for job_id none = false
is_free_for job_id (some locked) =
    not locked.is_local && (is_none locked.drain_job_id || opt_eq locked.drain_job_id (some job_id))

locked-granted :
    (now : ℕ) (runners : List Runner) (jobs : List Job) (job_id : ℕ) (action : String) (id : ℕ)
    (o : Option Runner)
    → (drain_locked now runners jobs job_id action id o).granted ≡ is_free_for job_id o
locked-granted now runners jobs job_id action id none = refl
locked-granted now runners jobs job_id action id (some locked) = ground arith

-- `request_runner_drain` grants the drain of a remote runner exactly if the runner's row is there, is
-- remote and is drained by no other job. Then the row names the job, neither a queued job nor an
-- assigned slice waits on the runner any more, and `runner_can_claim_slice` declines every slice for
-- that row; a refusal changes nothing.
pub request_runner_drain-IsDrainAnswer :
    (now : ℕ) (runners : List Runner) (jobs : List Job) (runner : Runner) (job_id : ℕ)
    (action : String)
    → runner.is_local ≡ false
    → ((request_runner_drain now runners jobs runner job_id action).granted
        ≡ is_free_for job_id (row_of runner.id runners))
      × IsDrainAnswer runners jobs runner.id job_id
          (request_runner_drain now runners jobs runner job_id action)
unfolding request_runner_drain
request_runner_drain-IsDrainAnswer now runners jobs runner job_id action e = (
  simp e (locked-granted now runners jobs job_id action runner.id (row_of runner.id runners)),
  request-IsDrainAnswer now runners jobs runner job_id action,
)

-- a message changes no assignment
put_message-free :
    (id job_id : ℕ) (message : String) (jobs : List Job)
    → All (λ j. holds_unstarted id j ≡ false) jobs
    → All (λ j. holds_unstarted id j ≡ false) (put_message job_id message jobs)
put_message-free id job_id message [] h = tt
put_message-free id job_id message (j ∷ js) h =
    (ground (arith, h.0), put_message-free id job_id message js h.1)

put_message-idle :
    (job_id : ℕ) (message : String) (jobs : List Job) (syncs : List EnvironmentSync)
    (runner : Runner)
    → runner_has_active_work (put_message job_id message jobs) syncs runner
      ≡ runner_has_active_work jobs syncs runner
unfolding runner_has_active_work
put_message-idle job_id message jobs syncs runner = rw (running jobs, slices jobs) refl
  where
    running :
        (js : List Job)
        → any (runs_job runner.id) (put_message job_id message js) ≡ any (runs_job runner.id) js
    running [] = refl
    running (j ∷ js) = ground (arith, running js)

    slices :
        (js : List Job)
        → any (runs_slice runner.id) (put_message job_id message js) ≡ any (runs_slice runner.id) js
    slices [] = refl
    slices (j ∷ js) = ground (arith, slices js)

ready_after-IsIdle :
    (runners : List Runner) (jobs : List Job) (syncs : List EnvironmentSync) (job_id : ℕ)
    (runner : Runner) (d : Drained)
    → IsDrainAnswer runners jobs runner.id job_id d
    → (ready_after syncs job_id runner d).granted ≡ true
    → IsDrained runner.id job_id (ready_after syncs job_id runner d)
      × (runner_has_active_work (ready_after syncs job_id runner d).jobs syncs runner ≡ false)
unfolding IsDrainAnswer
ready_after-IsIdle runners jobs syncs job_id runner d (inr (refused, _, _)) h =
    absurd (ground arith)
ready_after-IsIdle runners jobs syncs job_id runner d (inl (ok, drained)) h =
    elim (Bool-cases (runner_has_active_work d.jobs syncs runner)) [
      | inl busy ↦ absurd (ground arith)
      | inr idle ↦
          simp (ok, idle)
            (
              record {
                row = drained.row;
                found = drained.found;
                owner = drained.owner;
                unstarted = put_message-free runner.id job_id _ d.jobs drained.unstarted;
                declines = drained.declines;
              },
              put_message-idle job_id _ d.jobs syncs runner ∙ idle,
            )
    ]

-- If `management_job_ready_to_start` lets a management job start that updates, unregisters or deletes
-- a runner, then the runner's row names that job, nothing queued or assigned waits on the runner, it is
-- allowed no slice, and no job, slice or environment build runs on it.
pub management_job_ready_to_start-IsIdle :
    (py : Python) (now : ℕ) (runners : List Runner) (jobs : List Job) (syncs : List EnvironmentSync)
    (values : Option (List Json)) (job_id : ℕ) (runner : Runner)
    → management_job_target py runners (management_values py values) ≡ some runner
    → (management_job_ready_to_start py now runners jobs syncs values job_id).granted ≡ true
    → IsDrained runner.id job_id
        (management_job_ready_to_start py now runners jobs syncs values job_id)
      × (runner_has_active_work
            (management_job_ready_to_start py now runners jobs syncs values job_id).jobs
            syncs
            runner
          ≡ false)
unfolding management_job_ready_to_start
management_job_ready_to_start-IsIdle py now runners jobs syncs values job_id runner e h =
    let m = management_values py values in
    rw e (
      ready_after-IsIdle runners jobs syncs job_id runner
        (request_runner_drain now runners jobs runner job_id m.action)
        (request-IsDrainAnswer now runners jobs runner job_id m.action) (rw e at h))
