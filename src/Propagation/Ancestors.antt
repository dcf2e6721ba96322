-- ===== src/Propagation/Ancestors.antt =====
-- `dependency_ancestors` finds exactly the positions that the dependencies of a step lead to.
use mathlib.Core.List.{reverse, reverse-cons}
use journeyman.Base.{
  ℕ, zero, suc, ◌+◌, ◌≤◌, ◌<◌, true, false, ◌||◌, some, List, [], ◌∷◌, ◌++◌, ◌≡◌, refl, subst, ap,
  ◌∙◌, ◌↔◌, inl, inr, length, any-append, length-append, arith, if◌then◌else◌, ◌==◌, Bool-cases,
}
use journeyman.Job.{Step, step_at}
use journeyman.Propagation.{contains, targets, collect_within, edge_count, dependency_ancestors}

-- a position is reached if a dependency names it, or a step that is reached depends on it
pub data Reaches (next : ℕ → List ℕ) (start : List ℕ) : ℕ → Type 0 where
  direct : {p : ℕ} → contains p start ≡ true → Reaches next start p
  through : {q p : ℕ} → Reaches next start q → contains p (next q) ≡ true → Reaches next start p

contains-reverse : (p : ℕ) (xs : List ℕ) → contains p (reverse xs) ≡ contains p xs
contains-reverse p [] = refl
contains-reverse p (x ∷ xs) =
    rw (reverse-cons x xs, any-append (λ q. q == p) (reverse xs) (x ∷ []))
      (ground (arith, contains-reverse p xs))

length-reverse : (xs : List ℕ) → length (reverse xs) ≡ length xs
length-reverse [] = refl
length-reverse (x ∷ xs) =
    rw (reverse-cons x xs, length-append (reverse xs) (x ∷ [])) (omega (arith, length-reverse xs))

-- the edges that the collected positions have not yet put on the stack
weight : List Step → List ℕ → ℕ
weight [] result = 0
weight (s ∷ ss) result =
    (if contains s.position result then 0 else length s.depends_on) + weight ss result

weight-targets :
    (steps : List Step) (p : ℕ) (result : List ℕ)
    → contains p result ≡ false
    → length (targets steps p) + weight steps (p ∷ result) ≤ weight steps result
unfolding weight step_at
weight-targets [] p result h = omega arith
weight-targets (s ∷ ss) p result h = ground (arith, weight-targets ss p result)

within-total :
    (steps : List Step) (fuel : ℕ) (stack result : List ℕ)
    → length stack + weight steps result < fuel
    → (out : List ℕ) × (collect_within fuel (targets steps) stack result ≡ some out)
unfolding collect_within
within-total steps zero stack result h = absurd (omega arith)
within-total steps (suc fuel) [] result h = (result, refl)
within-total steps (suc fuel) (p ∷ stack) result h = elim (Bool-cases (contains p result)) [
  | inl e ↦ rw e (within-total steps fuel stack result (omega arith))
  | inr e ↦ rw e (
      within-total steps fuel (reverse (targets steps p) ++ stack) (p ∷ result) (
        omega (
          arith,
          length-append (reverse (targets steps p)) stack,
          length-reverse (targets steps p),
          weight-targets steps p result e,
        )))
]

module _ (next : ℕ → List ℕ) (start : List ℕ) where
  -- what each round keeps: all that is collected or waits is reached, and all that a collected
  -- position leads to is collected or waits
  record Inv (stack result : List ℕ) : Type 0 where
    sound : (p : ℕ) → (contains p stack || contains p result) ≡ true → Reaches next start p
    closed :
        (q p : ℕ)
        → contains q result ≡ true
        → contains p (next q) ≡ true
        → (contains p stack || contains p result) ≡ true
    started : (p : ℕ) → contains p start ≡ true → (contains p stack || contains p result) ≡ true

  contains-pushed :
      (r p : ℕ) (stack : List ℕ)
      → contains r (reverse (next p) ++ stack) ≡ (contains r (next p) || contains r stack)
  contains-pushed r p stack =
      any-append (λ q. q == r) (reverse (next p)) stack
      ∙ ap (λ b. b || contains r stack) (contains-reverse r (next p))

  Inv-skip :
      (p : ℕ) (stack result : List ℕ)
      → contains p result ≡ true
      → Inv (p ∷ stack) result
      → Inv stack result
  Inv-skip p stack result e h = record {
    sound = λ r m. h.sound r (ground arith);
    closed = λ q r m k. ground (arith, h.closed q r m k);
    started = λ r m. ground (arith, h.started r m);
  }

  Inv-push :
      (p : ℕ) (stack result : List ℕ)
      → Inv (p ∷ stack) result
      → Inv (reverse (next p) ++ stack) (p ∷ result)
  Inv-push p stack result h = record {
    sound = λ r m. elim (Bool-cases (contains r (next p))) [
      | inl e ↦ through (h.sound p (ground arith)) e
      | inr e ↦ h.sound r (ground (arith, contains-pushed r p stack))
    ];
    closed = λ q r m k.
        ground (arith, contains-pushed r p stack, h.closed q r, ap (λ x. contains r (next x)));
    started = λ r m. ground (arith, contains-pushed r p stack, h.started r m);
  }

  collected : (out : List ℕ) → Inv [] out → (p : ℕ) → (contains p out ≡ true) ↔ Reaches next start p
  collected out h p = (h.sound p, found)
    where
      found : {r : ℕ} → Reaches next start r → contains r out ≡ true
      found (direct {p} e) = h.started p e
      found (through {q} {p} w e) = h.closed q p (found w) e

  within-Exact :
      (fuel : ℕ) (stack result out : List ℕ)
      → Inv stack result
      → collect_within fuel next stack result ≡ some out
      → (p : ℕ) → (contains p out ≡ true) ↔ Reaches next start p
  unfolding collect_within
  within-Exact zero stack result out h e = absurd (cc)
  within-Exact (suc fuel) [] result out h e = collected out (subst (Inv []) (ground arith) h)
  within-Exact (suc fuel) (p ∷ stack) result out h e = elim (Bool-cases (contains p result)) [
    | inl k ↦ within-Exact fuel stack result out (Inv-skip p stack result k h) (simp k at e)
    | inr k ↦
        within-Exact fuel (reverse (next p) ++ stack) (p ∷ result) out (Inv-push p stack result h)
          (simp k at e)
  ]

weight-empty : (steps : List Step) → weight steps [] ≡ edge_count steps
unfolding weight
weight-empty [] = refl
weight-empty (s ∷ ss) = omega (arith, weight-empty ss)

-- The search ends for every step, and it collects exactly the positions that the step depends on,
-- directly or through steps of the job that are reached, cycles included.
pub dependency_ancestors-Exact :
    (step : Step) (steps : List Step)
    → (out : List ℕ) × (dependency_ancestors step steps ≡ some out)
      × ((p : ℕ) → (contains p out ≡ true) ↔ Reaches (targets steps) step.depends_on p)
unfolding dependency_ancestors
dependency_ancestors-Exact step steps =
    let (out, e) =
      within-total steps (suc (length step.depends_on + edge_count steps)) (reverse step.depends_on)
        [] (omega (arith, length-reverse step.depends_on, weight-empty steps)) in
    (
      out,
      e,
      within-Exact (targets steps) step.depends_on (suc (length step.depends_on + edge_count steps))
          (reverse step.depends_on) [] out
          (record {
            sound = λ p m. direct (ground (arith, contains-reverse p step.depends_on));
            closed = λ q p m k. absurd (ground arith);
            started = λ p m. ground (arith, contains-reverse p step.depends_on);
          })
          e,
    )
