-- ===== src/Base/Members.antt =====
-- Membership in filtered and sorted lists.
use mathlib.Core.List.{Memᴰ}
use mathlib.Core.List.Memᴰ
use mathlib.Core.Path.{◌≡◌, ap, ◌∙◌}
use mathlib.Core.Logic.{inl, inr, ◌⊎◌}
use mathlib.Core.Bool.{Bool, true}
use mathlib.Core.List.{List, [], ◌∷◌}
use journeyman.Base.Tests.{Bool-cases}
use journeyman.Base.Lists.{keep, insert_with, sort_with}

-- membership in a filtered list
pub keep-Memᴰ :
    {A : Type 0} (p : A → Bool) (x : A) (xs : List A)
    → Memᴰ x (keep p xs)
    → Memᴰ x xs × (p x ≡ true)
keep-Memᴰ p x [] m = absurd (Memᴰ.not-nil m)
keep-Memᴰ p x (y ∷ ys) m = elim (Bool-cases (p y)) [
  | inr e ↦ let (below, k) = keep-Memᴰ p x ys (simp e at m) in (Memᴰ.tail below, k)
  | inl e ↦ elim (Memᴰ.cases_cons (simp e at m)) [
    | inl same ↦ (Memᴰ.head same, ap p same ∙ e)
    | inr m' ↦ let (below, k) = keep-Memᴰ p x ys m' in (Memᴰ.tail below, k)
  ]
]

pub Memᴰ-keep :
    {A : Type 0} (p : A → Bool) (x : A) (xs : List A) → Memᴰ x xs → p x ≡ true → Memᴰ x (keep p xs)
Memᴰ-keep p x [] m k = absurd (Memᴰ.not-nil m)
Memᴰ-keep p x (y ∷ ys) m k = elim (Bool-cases (p y)) [
  | inr e ↦ elim (Memᴰ.cases_cons m) [
    | inl same ↦ absurd (cc)
    | inr m' ↦ simp e (Memᴰ-keep p x ys m' k)
  ]
  | inl e ↦ elim (Memᴰ.cases_cons m) [
    | inl same ↦ simp e (Memᴰ.head same)
    | inr m' ↦ simp e (Memᴰ.tail (Memᴰ-keep p x ys m' k))
  ]
]

module _ {A : Type 0} (le : A → A → Bool) where
  Memᴰ-insert_with : (z x : A) (ys : List A) → (z ≡ x) ⊎ Memᴰ z ys → Memᴰ z (insert_with le x ys)
  Memᴰ-insert_with z x [] (inl e) = Memᴰ.head e
  Memᴰ-insert_with z x [] (inr m) = absurd (Memᴰ.not-nil m)
  Memᴰ-insert_with z x (y ∷ ys) h = elim (Bool-cases (le x y)) [
    | inl e ↦ simp e (elim h [ inl same ↦ Memᴰ.head same | inr m ↦ Memᴰ.tail m ])
    | inr e ↦ simp e (elim h [
      | inl same ↦ Memᴰ.tail (Memᴰ-insert_with z x ys (inl same))
      | inr m ↦ elim (Memᴰ.cases_cons m) [
        | inl here ↦ Memᴰ.head here
        | inr below ↦ Memᴰ.tail (Memᴰ-insert_with z x ys (inr below))
      ]
    ])
  ]

  insert_with-Memᴰ : (z x : A) (ys : List A) → Memᴰ z (insert_with le x ys) → (z ≡ x) ⊎ Memᴰ z ys
  insert_with-Memᴰ z x [] m = elim (Memᴰ.cases_cons m) [ inl e ↦ inl e | inr k ↦ inr k ]
  insert_with-Memᴰ z x (y ∷ ys) m = elim (Bool-cases (le x y)) [
    | inl e ↦ elim (Memᴰ.cases_cons (simp e at m)) [ inl here ↦ inl here | inr k ↦ inr k ]
    | inr e ↦ elim (Memᴰ.cases_cons (simp e at m)) [
      | inl here ↦ inr (Memᴰ.head here)
      | inr k ↦ elim (insert_with-Memᴰ z x ys k) [
        | inl same ↦ inl same
        | inr below ↦ inr (Memᴰ.tail below)
      ]
    ]
  ]

  pub Memᴰ-sort_with : (z : A) (xs : List A) → Memᴰ z xs → Memᴰ z (sort_with le xs)
  Memᴰ-sort_with z [] m = m
  Memᴰ-sort_with z (x ∷ xs) m =
      Memᴰ-insert_with z x (sort_with le xs)
        (elim (Memᴰ.cases_cons m) [ inl e ↦ inl e | inr k ↦ inr (Memᴰ-sort_with z xs k) ])

  pub sort_with-Memᴰ : (z : A) (xs : List A) → Memᴰ z (sort_with le xs) → Memᴰ z xs
  sort_with-Memᴰ z [] m = m
  sort_with-Memᴰ z (x ∷ xs) m = elim (insert_with-Memᴰ z x (sort_with le xs) m) [
    | inl e ↦ Memᴰ.head e
    | inr k ↦ Memᴰ.tail (sort_with-Memᴰ z xs k)
  ]
