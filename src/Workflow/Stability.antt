-- ===== src/Workflow/Stability.antt =====
-- A verdict of `dependency_state` is final: steps that run on later do not change it.
use journeyman.Base.{
  ℕ, Bool, true, false, ◌≡◌, refl, ◌≢◌, Option, none, some, List, [], ◌∷◌, map, any, all, All₂,
  arith, if◌then◌else◌, ◌==◌,
}
use journeyman.Job.{Step, is_terminal, step_at, or_else, here_at}
use journeyman.Workflow.{
  DependencyState, dependency_state, state_of, dependencies, is_missing, is_unfinished, has_failed,
  has_succeeded, no_dependencies,
}

-- A later version of a step: it keeps its position, and a terminal status stays as it is.
pub record Evolves (s t : Step) : Type 0 where
  pub same_position : t.position ≡ s.position
  pub terminal_stays : is_terminal s.status ≡ true → t.status ≡ s.status

pub Evolves-refl : (s : Step) → Evolves s s
Evolves-refl s = record { same_position = refl; terminal_stays = λ h. refl }

pub Evolves-trans : (s t u : Step) → Evolves s t → Evolves t u → Evolves s u
Evolves-trans s t u h k = record {
  same_position = cc (h.same_position, k.same_position);
  terminal_stays = λ e. ground (arith, h.terminal_stays e, k.terminal_stays);
}

-- the same of what a lookup returns
abbrev OptEvolves : Option Step → Option Step → Type 0
OptEvolves none none = Unit
OptEvolves none (some _) = ⊥
OptEvolves (some _) none = ⊥
OptEvolves (some s) (some t) = Evolves s t

or_else-evolves :
    (a b c d : Option Step)
    → OptEvolves a b
    → OptEvolves c d
    → OptEvolves (or_else a c) (or_else b d)
or_else-evolves none none c d h k = k
or_else-evolves none (some _) c d h k = absurd h
or_else-evolves (some _) none c d h k = absurd h
or_else-evolves (some _) (some _) c d h k = h

here_at-Evolves : (s t : Step) (p : ℕ) → Evolves s t → OptEvolves (here_at s p) (here_at t p)
here_at-Evolves s t p h = simp h.same_position (same (s.position == p))
  where
    same : (b : Bool) → OptEvolves (if b then some s else none) (if b then some t else none)
    same true = h
    same false = tt

step_at-Evolves :
    (xs ys : List Step) (p : ℕ) → All₂ Evolves xs ys → OptEvolves (step_at xs p) (step_at ys p)
unfolding step_at
step_at-Evolves [] [] p h = tt
step_at-Evolves [] (y ∷ ys) p h = absurd h
step_at-Evolves (x ∷ xs) [] p h = absurd h
step_at-Evolves (x ∷ xs) (y ∷ ys) p h =
    or_else-evolves _ _ _ _ (step_at-Evolves xs ys p h.1) (here_at-Evolves x y p h.0)

abbrev AllEvolve : List (Option Step) → List (Option Step) → Type 0
AllEvolve = All₂ OptEvolves

lookups-evolve :
    (xs ys : List Step) (ps : List ℕ)
    → All₂ Evolves xs ys
    → AllEvolve (map (step_at xs) ps) (map (step_at ys) ps)
lookups-evolve xs ys [] h = tt
lookups-evolve xs ys (p ∷ ps) h = (step_at-Evolves xs ys p h, lookups-evolve xs ys ps h)

any_missing-evolves :
    (ds es : List (Option Step)) → AllEvolve ds es → any is_missing es ≡ any is_missing ds
any_missing-evolves [] [] h = refl
any_missing-evolves [] (e ∷ es) h = absurd h
any_missing-evolves (d ∷ ds) [] h = absurd h
any_missing-evolves (none ∷ ds) (none ∷ es) h = refl
any_missing-evolves (none ∷ ds) (some _ ∷ es) h = absurd h.0
any_missing-evolves (some _ ∷ ds) (none ∷ es) h = absurd h.0
any_missing-evolves (some _ ∷ ds) (some _ ∷ es) h = any_missing-evolves ds es h.1

-- Once every dependency has finished, nothing that the verdict reads can change.
record Fixed (ds es : List (Option Step)) : Type 0 where
  unfinished : any is_unfinished es ≡ false
  failed : any has_failed es ≡ any has_failed ds
  succeeded : all has_succeeded es ≡ all has_succeeded ds
  empty : no_dependencies es ≡ no_dependencies ds

finished-Fixed :
    (ds es : List (Option Step)) → AllEvolve ds es → any is_unfinished ds ≡ false → Fixed ds es
finished-Fixed [] [] h f = ground arith
finished-Fixed [] (e ∷ es) h f = absurd h
finished-Fixed (d ∷ ds) [] h f = absurd h
finished-Fixed (none ∷ ds) (none ∷ es) h f = ground (arith, finished-Fixed ds es h.1)
finished-Fixed (none ∷ ds) (some _ ∷ es) h f = absurd h.0
finished-Fixed (some _ ∷ ds) (none ∷ es) h f = absurd h.0
finished-Fixed (some s ∷ ds) (some t ∷ es) h f =
    ground (arith, finished-Fixed ds es h.1, h.0.terminal_stays)

state_of-evolves :
    (failure_only : Bool) (ds es : List (Option Step))
    → AllEvolve ds es
    → state_of failure_only ds ≢ DependencyState.waiting
    → state_of failure_only es ≡ state_of failure_only ds
state_of-evolves failure_only ds es h decided =
    ground (arith, any_missing-evolves ds es h, finished-Fixed ds es h, empty ds es h)
  where
    empty : (ds es : List (Option Step)) → AllEvolve ds es → no_dependencies es ≡ no_dependencies ds
    empty [] [] h = refl
    empty [] (e ∷ es) h = absurd h
    empty (d ∷ ds) [] h = absurd h
    empty (d ∷ ds) (e ∷ es) h = refl

-- If the steps of a job evolve, each keeping its position and keeping its status once that is
-- terminal, then a step whose dependency state is not `waiting` has the same dependency state among
-- the later steps.
pub dependency_state_final :
    (step : Step) (steps later : List Step)
    → All₂ Evolves steps later
    → dependency_state step steps ≢ DependencyState.waiting
    → dependency_state step later ≡ dependency_state step steps
unfolding dependency_state
dependency_state_final step steps later h decided =
    state_of-evolves step.failure_only (dependencies step steps) (dependencies step later)
      (lookups-evolve steps later step.depends_on h) decided
