-- ===== src/Workflow/Reconcile.antt =====
-- What `reconcile_non_runnable_steps` achieves: it ends, and leaves only steps that wait or can run.
use journeyman.Base.{
  ℕ, zero, suc, ◌+◌, ◌≤◌, ◌<◌, Bool, true, false, ◌||◌, ◌≡◌, refl, sym, ◌∙◌, ap, subst, ◌≢◌, ◌⊎◌,
  inl, inr, some, List, [], ◌∷◌, ◌++◌, All, All₂, All₂-refl, All₂-trans, All₂-map, All₂-append,
  length, count_if, count_if-append, Bool-cases, arith, if◌then◌else◌,
}
use mathlib.Core.List.{append-nil, append_assoc}
use journeyman.Job.{Step, StepStatus, is_pending, is_terminal}
use journeyman.Workflow.{
  DependencyState, dependency_state, is_no_op, visit, sweep, reconcile_within, reconcile_steps,
}
use journeyman.Workflow.Stability.{Evolves, Evolves-refl, Evolves-trans, dependency_state_final}

abbrev pub pending_count : List Step → ℕ
pending_count = count_if (λ s. is_pending s.status)

-- A pending step is left alone only if it waits, or may run and has work to do.
abbrev pub IsSettled : List Step → Step → Type 0
IsSettled steps s =
    is_pending s.status ≡ true
    → (dependency_state s steps ≡ DependencyState.waiting)
      ⊎ ((dependency_state s steps ≡ DependencyState.eligible)
          × (is_no_op s.execution_slices ≡ false))

-- How a verdict shows in the step that it settles; a waiting step is never settled.
abbrev pub ShowsVerdict : DependencyState → Step → Step → Type 0
ShowsVerdict DependencyState.blocked s t = t.status ≡ StepStatus.blocked
ShowsVerdict DependencyState.skipped s t = t.status ≡ StepStatus.skipped
ShowsVerdict DependencyState.eligible s t =
    (t.status ≡ StepStatus.successful) × (is_no_op s.execution_slices ≡ true)
ShowsVerdict DependencyState.waiting s t = ⊥

-- A step is as it was, or it was pending and now shows the verdict of its dependencies.
abbrev pub IsJust : List Step → Step → Step → Type 0
IsJust steps s t =
    (t ≡ s)
    ⊎ ((is_pending s.status ≡ true)
        × (is_terminal t.status ≡ true)
        × ShowsVerdict (dependency_state s steps) s t)

visit_idle :
    (now : ℕ) (steps : List Step) (s : Step)
    → (visit now steps s).1 ≡ false
    → ((visit now steps s).0 ≡ s) × IsSettled steps s
unfolding visit
visit_idle now steps s h = ground arith

visit_busy :
    (now : ℕ) (steps : List Step) (s : Step)
    → (visit now steps s).1 ≡ true
    → (is_pending s.status ≡ true) × (is_terminal (visit now steps s).0.status ≡ true)
unfolding visit
visit_busy now steps s h = ground arith

visit-Evolves : (now : ℕ) (steps : List Step) (s : Step) → Evolves s (visit now steps s).0
unfolding visit
visit-Evolves now steps s = ground arith

visit-IsJust : (now : ℕ) (steps : List Step) (s : Step) → IsJust steps s (visit now steps s).0
unfolding visit
visit-IsJust now steps s = ground arith

IsJust-final :
    (steps later : List Step) (s t : Step)
    → All₂ Evolves steps later
    → IsJust steps s t
    → IsJust later s t
IsJust-final steps later s t h (inl same) = inl same
IsJust-final steps later s t h (inr (was, is, shows)) =
    inr (was, is, rw (dependency_state_final s steps later h decided) shows)
  where
    decided : dependency_state s steps ≢ DependencyState.waiting
    decided e = rw e at shows

IsJust-trans :
    (steps : List Step) (s t u : Step) → IsJust steps s t → IsJust steps t u → IsJust steps s u
IsJust-trans steps s t u (inl same) k = rw same at k
IsJust-trans steps s t u (inr j) (inl same) = inr (rw same j)
IsJust-trans steps s t u (inr (was, is, shows)) (inr (was', is', shows')) =
    absurd (clash t.status is was')
  where
    clash : (x : StepStatus) → is_terminal x ≡ true → is_pending x ≡ true → ⊥
    clash x h k = ground arith

sweep-Evolves :
    (now : ℕ) (done rest : List Step) → All₂ Evolves (done ++ rest) (sweep now done rest).0
unfolding sweep
sweep-Evolves now done [] = rw append-nil (All₂-refl Evolves Evolves-refl done)
sweep-Evolves now done (s ∷ rest) =
    All₂-trans Evolves Evolves-trans (done ++ s ∷ rest) (done ++ s' ∷ rest) _
      (All₂-append Evolves done done (s ∷ rest) (s' ∷ rest) (All₂-refl Evolves Evolves-refl done)
        (visit-Evolves now (done ++ s ∷ rest) s, All₂-refl Evolves Evolves-refl rest))
      (rw (append_assoc done (s' ∷ []) rest) at (sweep-Evolves now (done ++ s' ∷ []) rest))
  where
    s' : Step
    s' = (visit now (done ++ s ∷ rest) s).0

sweep-IsJust :
    (now : ℕ) (done rest : List Step)
    → (tail : List Step) × ((sweep now done rest).0 ≡ done ++ tail)
      × All₂ (IsJust (sweep now done rest).0) rest tail
unfolding sweep
sweep-IsJust now done [] = ([], sym (append-nil done), tt)
sweep-IsJust now done (s ∷ rest) =
    let (tail, e, js) = sweep-IsJust now (done ++ s' ∷ []) rest in
    (s' ∷ tail, e ∙ append_assoc done (s' ∷ []) tail, (head, js))
  where
    s' : Step
    s' = (visit now (done ++ s ∷ rest) s).0

    head : IsJust (sweep now (done ++ s' ∷ []) rest).0 s s'
    head =
        IsJust-final (done ++ s ∷ rest) _ s s' (sweep-Evolves now done (s ∷ rest))
          (visit-IsJust now (done ++ s ∷ rest) s)

or_false : (a b : Bool) → (a || b) ≡ false → (a ≡ false) × (b ≡ false)
or_false a b h = ground arith

sweep_idle :
    (now : ℕ) (done rest : List Step)
    → (sweep now done rest).1 ≡ false
    → ((sweep now done rest).0 ≡ done ++ rest) × All (IsSettled (done ++ rest)) rest
unfolding sweep
sweep_idle now done [] h = (sym (append-nil done), tt)
sweep_idle now done (s ∷ rest) h =
    let (idle, quiet) = or_false _ _ h in
    let (same, settled) = visit_idle now (done ++ s ∷ rest) s idle in
    let (e, more) = sweep_idle now (done ++ s' ∷ []) rest quiet in
    let regroup : (done ++ s' ∷ []) ++ rest ≡ done ++ s ∷ rest =
      append_assoc done (s' ∷ []) rest ∙ ap (λ x. done ++ x ∷ rest) same in
    (e ∙ regroup, (settled, subst (λ l. All (IsSettled l) rest) regroup more))
  where
    s' : Step
    s' = (visit now (done ++ s ∷ rest) s).0

visit_one_less :
    (now : ℕ) (steps : List Step) (s : Step)
    → (if is_pending (visit now steps s).0.status then 1 else 0)
        + (if (visit now steps s).1 then 1 else 0)
      ≡ (if is_pending s.status then 1 else 0)
unfolding visit
visit_one_less now steps s = ground arith

visit-pending_count :
    (now : ℕ) (done rest : List Step) (s : Step)
    → let (s', progress) = visit now (done ++ s ∷ rest) s in
      pending_count ((done ++ s' ∷ []) ++ rest) + (if progress then 1 else 0)
      ≡ pending_count (done ++ s ∷ rest)
visit-pending_count now done rest s = omega (
  arith,
  count_if-append {0} (λ (x : Step). is_pending x.status) done (s' ∷ []),
  count_if-append {0} (λ (x : Step). is_pending x.status) (done ++ s' ∷ []) rest,
  count_if-append {0} (λ (x : Step). is_pending x.status) done (s ∷ rest),
  one_less,
)
  where
    s' : Step
    s' = (visit now (done ++ s ∷ rest) s).0

    one_less :
        pending_count (s' ∷ [])
          + (if (visit now (done ++ s ∷ rest) s).1 then 1 else 0)
          + pending_count rest
        ≡ pending_count (s ∷ rest)
    one_less = ground (arith, visit_one_less now (done ++ s ∷ rest) s)

sweep-pending_count :
    (now : ℕ) (done rest : List Step)
    → pending_count (sweep now done rest).0 + (if (sweep now done rest).1 then 1 else 0)
      ≤ pending_count (done ++ rest)
unfolding sweep
sweep-pending_count now done [] = rw append-nil (omega arith)
sweep-pending_count now done (s ∷ rest) =
    ground
      (arith, visit-pending_count now done rest s, sweep-pending_count now (done ++ s' ∷ []) rest)
  where
    s' : Step
    s' = (visit now (done ++ s ∷ rest) s).0

sweep-IsJust' :
    (now : ℕ) (steps : List Step)
    → All₂ (IsJust (sweep now [] steps).0) steps (sweep now [] steps).0
sweep-IsJust' now steps =
    let (tail, split, just) = sweep-IsJust now [] steps in
    subst (All₂ (IsJust (sweep now [] steps).0) steps) (sym split) just

-- The loop ends once it has more fuel than there are pending steps, with every step settled, and
-- with every change a verdict on the final dependencies.
reconcile_within-total :
    (fuel now : ℕ) (steps : List Step)
    → pending_count steps < fuel
    → (result : List Step) × (reconcile_within fuel now steps ≡ some result)
      × All₂ Evolves steps result
      × All₂ (IsJust result) steps result
      × All (IsSettled result) result
unfolding reconcile_within
reconcile_within-total zero now steps h = elim h [ ]
reconcile_within-total (suc fuel) now steps h = elim (Bool-cases (sweep now [] steps).1) [
  | inl busy ↦
      let (result, e, evolves, just, settled) =
        reconcile_within-total fuel now (sweep now [] steps).0
          (fewer _ (rw busy at (sweep-pending_count now [] steps))) in
      (
        result,
        rw busy e,
        All₂-trans Evolves Evolves-trans steps _ result (sweep-Evolves now [] steps) evolves,
        All₂-trans (IsJust result) (IsJust-trans result) steps _ result
            (All₂-map _ _ (λ s t. IsJust-final _ result s t evolves) steps _
              (sweep-IsJust' now steps))
            just,
        settled,
      )
  | inr idle ↦
      let (same, settled) = sweep_idle now [] steps idle in
      (
        steps,
        rw (idle, same),
        All₂-refl Evolves Evolves-refl steps,
        All₂-refl (IsJust steps) (λ s. inl refl) steps,
        settled,
      )
]
  where
    fewer : (k : ℕ) → k + 1 ≤ pending_count steps → k < fuel
    fewer k room = omega arith

pending_count-le : (steps : List Step) → pending_count steps ≤ length steps
pending_count-le [] = omega arith
pending_count-le (s ∷ steps) = ground (arith, pending_count-le steps)

-- Whatever the steps, the loop ends within one round more than there are steps. Then each step is
-- as it was or was pending and shows the verdict of its dependencies in the result (blocked,
-- skipped, or successful as a step of empty successful slices), and each step still pending waits
-- for a dependency or may run and has work to do.
pub reconcile_steps-total :
    (now : ℕ) (steps : List Step)
    → (result : List Step) × (reconcile_steps now steps ≡ some result)
      × All₂ (IsJust result) steps result
      × All (IsSettled result) result
unfolding reconcile_steps
reconcile_steps-total now steps =
    let (result, e, _, just, settled) =
      reconcile_within-total (suc (length steps)) now steps
        (omega (arith, pending_count-le steps)) in
    (result, e, just, settled)
