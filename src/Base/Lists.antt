-- ===== src/Base/Lists.antt =====
-- Lists over the native numbers: Python's `any`, `all`, comprehensions and slices.
use Prim.Native.Nat.{ℕ, zero, suc, ◌+◌}
use mathlib.Core.Path.{◌≡◌, refl}
use mathlib.Core.Logic.{inl, inr}
use mathlib.Core.Bool.{Bool, true, false, ◌&&◌, ◌||◌}
use mathlib.Core.List.{List, [], ◌∷◌, ◌++◌}
use mathlib.Core.Option.{Option, none, some}
use native.Mathlib.Omega.{arith}
use journeyman.Base.Tests.{if◌then◌else◌, leb, Bool-cases}

module _ {ℓ} {A : Type ℓ} where
  abbrev pub length : List A → ℕ
  length [] = 0
  length (x ∷ xs) = suc (length xs)

  abbrev pub take : ℕ → List A → List A
  take zero xs = []
  take (suc n) [] = []
  take (suc n) (x ∷ xs) = x ∷ take n xs

  -- `any(p(x) for x in xs)`
  abbrev pub any : (A → Bool) → List A → Bool
  any p [] = false
  any p (x ∷ xs) = p x || any p xs

  -- `all(p(x) for x in xs)`
  abbrev pub all : (A → Bool) → List A → Bool
  all p [] = true
  all p (x ∷ xs) = p x && all p xs

  -- `[x for x in xs if p(x)]`
  abbrev pub keep : (A → Bool) → List A → List A
  keep p [] = []
  keep p (x ∷ xs) = let rest = keep p xs in if p x then x ∷ rest else rest

  -- how many items pass a test
  abbrev pub count_if : (A → Bool) → List A → ℕ
  count_if p [] = 0
  count_if p (x ∷ xs) = let rest = count_if p xs in if p x then suc rest else rest

  -- `next((x for x in xs if p(x)), None)`
  abbrev pub first : (A → Bool) → List A → Option A
  first p [] = none
  first p (x ∷ xs) = let rest = first p xs in if p x then some x else rest

  -- a predicate of every item
  abbrev pub All {κ} : (A → Type κ) → List A → Type κ
  All P [] = Unit
  All P (x ∷ xs) = P x × All P xs

-- a stable sort, where `le x y` says that `x` may stand before `y`
module _ {ℓ} {A : Type ℓ} (le : A → A → Bool) where
  abbrev pub insert_with : A → List A → List A
  insert_with x [] = x ∷ []
  insert_with x (y ∷ ys) = let later = insert_with x ys in if le x y then x ∷ y ∷ ys else y ∷ later

  abbrev pub sort_with : List A → List A
  sort_with [] = []
  sort_with (x ∷ xs) = insert_with x (sort_with xs)

-- `sorted(xs, key=…)` by a number
abbrev pub sort_by {ℓ} : {A : Type ℓ} → (A → ℕ) → List A → List A
sort_by key = sort_with (λ x y. leb (key x) (key y))

abbrev pub head? {ℓ} : {A : Type ℓ} → List A → Option A
head? [] = none
head? (x ∷ xs) = some x

module _ {ℓ} {A : Type ℓ} where
  pub length-append : (xs ys : List A) → length (xs ++ ys) ≡ length xs + length ys
  length-append [] ys = omega arith
  length-append (x ∷ xs) ys = omega (arith, length-append xs ys)

  pub any-append : (p : A → Bool) (xs ys : List A) → any p (xs ++ ys) ≡ (any p xs || any p ys)
  any-append p [] ys = refl
  any-append p (x ∷ xs) ys = ground (arith, any-append p xs ys)

  pub count_if-append :
      (p : A → Bool) (xs ys : List A) → count_if p (xs ++ ys) ≡ count_if p xs + count_if p ys
  count_if-append p [] ys = omega arith
  count_if-append p (x ∷ xs) ys = ground (arith, count_if-append p xs ys)

  pub All-append {κ} : (P : A → Type κ) (xs ys : List A) → All P xs → All P ys → All P (xs ++ ys)
  All-append P [] ys hx hy = hy
  All-append P (x ∷ xs) ys hx hy = (hx.0, All-append P xs ys hx.1 hy)

-- a relation item by item, on lists of one length
module _ {A : Type 0} where
  abbrev pub All₂ : (A → A → Type 0) → List A → List A → Type 0
  All₂ R [] [] = Unit
  All₂ R [] (y ∷ ys) = ⊥
  All₂ R (x ∷ xs) [] = ⊥
  All₂ R (x ∷ xs) (y ∷ ys) = R x y × All₂ R xs ys

  pub All₂-refl : (R : A → A → Type 0) (r : (x : A) → R x x) (xs : List A) → All₂ R xs xs
  All₂-refl R r [] = tt
  All₂-refl R r (x ∷ xs) = (r x, All₂-refl R r xs)

  pub All₂-trans :
      (R : A → A → Type 0) (t : (x y z : A) → R x y → R y z → R x z) (xs ys zs : List A)
      → All₂ R xs ys
      → All₂ R ys zs
      → All₂ R xs zs
  All₂-trans R t [] [] [] h k = tt
  All₂-trans R t [] [] (z ∷ zs) h k = absurd k
  All₂-trans R t [] (y ∷ ys) zs h k = absurd h
  All₂-trans R t (x ∷ xs) [] zs h k = absurd h
  All₂-trans R t (x ∷ xs) (y ∷ ys) [] h k = absurd k
  All₂-trans R t (x ∷ xs) (y ∷ ys) (z ∷ zs) h k = (t x y z h.0 k.0, All₂-trans R t xs ys zs h.1 k.1)

  pub All₂-append :
      (R : A → A → Type 0) (xs ys us vs : List A)
      → All₂ R xs ys
      → All₂ R us vs
      → All₂ R (xs ++ us) (ys ++ vs)
  All₂-append R [] [] us vs h k = k
  All₂-append R [] (y ∷ ys) us vs h k = absurd h
  All₂-append R (x ∷ xs) [] us vs h k = absurd h
  All₂-append R (x ∷ xs) (y ∷ ys) us vs h k = (h.0, All₂-append R xs ys us vs h.1 k)

  pub All₂-map :
      (R S : A → A → Type 0) (f : (x y : A) → R x y → S x y) (xs ys : List A)
      → All₂ R xs ys
      → All₂ S xs ys
  All₂-map R S f [] [] h = tt
  All₂-map R S f [] (y ∷ ys) h = absurd h
  All₂-map R S f (x ∷ xs) [] h = absurd h
  All₂-map R S f (x ∷ xs) (y ∷ ys) h = (f x y h.0, All₂-map R S f xs ys h.1)

module _ {A : Type 0} (le : A → A → Bool) where
  insert_with-All :
      (P : A → Type 0) (x : A) (ys : List A) → P x → All P ys → All P (insert_with le x ys)
  insert_with-All P x [] h k = (h, tt)
  insert_with-All P x (y ∷ ys) h k = elim (Bool-cases (le x y)) [
    | inl e ↦ rw e (h, k)
    | inr e ↦ rw e (k.0, insert_with-All P x ys h k.1)
  ]

  pub sort_with-All : (P : A → Type 0) (xs : List A) → All P xs → All P (sort_with le xs)
  sort_with-All P [] h = tt
  sort_with-All P (x ∷ xs) h = insert_with-All P x (sort_with le xs) h.0 (sort_with-All P xs h.1)

  insert_with-All' :
      (P : A → Type 0) (x : A) (ys : List A) → All P (insert_with le x ys) → P x × All P ys
  insert_with-All' P x [] h = h
  insert_with-All' P x (y ∷ ys) h = elim (Bool-cases (le x y)) [
    | inl e ↦ rw e at h
    | inr e ↦
        let (hy, rest) = rw e at h in
        let (hx, hys) = insert_with-All' P x ys rest in (hx, (hy, hys))
  ]

  -- what holds of every item of the sorted list holds of every item of the list
  pub All-sort_with : (P : A → Type 0) (xs : List A) → All P (sort_with le xs) → All P xs
  All-sort_with P [] h = tt
  All-sort_with P (x ∷ xs) h =
      let (hx, hs) = insert_with-All' P x (sort_with le xs) h in (hx, All-sort_with P xs hs)

module _ {A : Type 0} where
  pub keep-All :
      (P : A → Type 0) (p : A → Bool) (xs : List A)
      → All (λ x. p x ≡ true → P x) xs
      → All P (keep p xs)
  keep-All P p [] h = tt
  keep-All P p (x ∷ xs) h = elim (Bool-cases (p x)) [
    | inl e ↦ rw e (h.0 e, keep-All P p xs h.1)
    | inr e ↦ rw e (keep-All P p xs h.1)
  ]

  pub All-map : (P Q : A → Type 0) (f : (x : A) → P x → Q x) (xs : List A) → All P xs → All Q xs
  All-map P Q f [] h = tt
  All-map P Q f (x ∷ xs) h = (f x h.0, All-map P Q f xs h.1)

  pub keep_none : (p : A → Bool) (xs : List A) → All (λ x. p x ≡ false) xs → keep p xs ≡ []
  keep_none p [] h = refl
  keep_none p (x ∷ xs) h = rw (h.0) (keep_none p xs h.1)

module _ {A : Type 0} (le : A → A → Bool) (p : A → Bool) where
  count_if-insert_with :
      (x : A) (ys : List A) → count_if p (insert_with le x ys) ≡ count_if p (x ∷ ys)
  count_if-insert_with x [] = refl
  count_if-insert_with x (y ∷ ys) = ground (arith, count_if-insert_with x ys)

  pub count_if-sort_with : (xs : List A) → count_if p (sort_with le xs) ≡ count_if p xs
  count_if-sort_with [] = refl
  count_if-sort_with (x ∷ xs) =
      ground (arith, count_if-insert_with x (sort_with le xs), count_if-sort_with xs)

module _ {A : Type 0} (le : A → A → Bool) (p : A → Bool) where
  any-insert_with : (x : A) (ys : List A) → any p (insert_with le x ys) ≡ any p (x ∷ ys)
  any-insert_with x [] = refl
  any-insert_with x (y ∷ ys) = ground (arith, any-insert_with x ys)

  pub any-sort_with : (xs : List A) → any p (sort_with le xs) ≡ any p xs
  any-sort_with [] = refl
  any-sort_with (x ∷ xs) = ground (arith, any-insert_with x (sort_with le xs), any-sort_with xs)

-- each item may stand before all that follow it
abbrev pub IsSorted {ℓ} : {A : Type ℓ} → (A → A → Bool) → List A → Type 0
IsSorted le [] = Unit
IsSorted le (x ∷ xs) = All (λ y. le x y ≡ true) xs × IsSorted le xs

module _ {A : Type 0} (le : A → A → Bool) (le_total : (x y : A) → le x y ≡ false → le y x ≡ true)
    (le_trans : (x y z : A) → le x y ≡ true → le y z ≡ true → le x z ≡ true) where
  below-All :
      (x y : A) (ys : List A)
      → le x y ≡ true
      → All (λ z. le y z ≡ true) ys
      → All (λ z. le x z ≡ true) ys
  below-All x y [] e h = tt
  below-All x y (z ∷ zs) e h = (le_trans x y z e h.0, below-All x y zs e h.1)

  insert_with-IsSorted : (x : A) (ys : List A) → IsSorted le ys → IsSorted le (insert_with le x ys)
  insert_with-IsSorted x [] h = (tt, tt)
  insert_with-IsSorted x (y ∷ ys) h = elim (Bool-cases (le x y)) [
    | inl e ↦ rw e ((e, below-All x y ys e h.0), h)
    | inr e ↦ rw e (
      insert_with-All le (λ z. le y z ≡ true) x ys (le_total x y e) h.0,
      insert_with-IsSorted x ys h.1,
    )
  ]

  pub sort_with-IsSorted : (xs : List A) → IsSorted le (sort_with le xs)
  sort_with-IsSorted [] = tt
  sort_with-IsSorted (x ∷ xs) = insert_with-IsSorted x (sort_with le xs) (sort_with-IsSorted xs)
