-- ===== src/Inventory/Lineage/Owned.antt =====
-- Members whose sources all get an owner have disjoint sources.
use journeyman.Base.{
  ℕ, true, false, List, [], ◌∷◌, ◌≡◌, refl, ap, subst, ◌∙◌, ◌⊎◌, inl, inr, String, any-sort_with,
  All, All-map, arith, ◌==◌, Bool-cases, Option-cases, is_none, sort_by, leb,
}
use journeyman.Propagation.{contains}
use journeyman.Inventory.{Inventory}
use journeyman.Inventory.Lineage.{owner_of, Owners, owners, clash, own_leaves, own_members}
use journeyman.Inventory.Lineage.Sources.{equal_numbers}

Owners-cases : (o : Owners) → ((s : List (ℕ × ℕ)) × (o ≡ owners s)) ⊎ ((e : String) × (o ≡ clash e))
Owners-cases (owners s) = inl (s, refl)
Owners-cases (clash e) = inr (e, refl)

owners-injective : (xs ys : List (ℕ × ℕ)) → owners xs ≡ owners ys → xs ≡ ys
owners-injective xs ys h = cc

-- leaves that get an owner had none, and have one from then on
own_leaves-free :
    (inventories : List Inventory) (member p : ℕ) (ls : List ℕ) (seen out : List (ℕ × ℕ))
    → own_leaves inventories member ls seen ≡ owners out
    → (is_none (owner_of p seen) ≡ false → is_none (owner_of p out) ≡ false)
      × (contains p ls ≡ true
          → (is_none (owner_of p seen) ≡ true) × (is_none (owner_of p out) ≡ false))
own_leaves-free inventories member p [] seen out h = (
  λ k. subst (λ z. is_none (owner_of p z) ≡ false) (owners-injective seen out h) k,
  λ m. absurd (ground arith),
)
own_leaves-free inventories member p (l ∷ ls) seen out h = elim (Option-cases (owner_of l seen)) [
  | inr (previous, e) ↦ absurd (ground arith)
  | inl e ↦
      let (kept, mine) =
        own_leaves-free inventories member p ls ((l, member) ∷ seen) out (ground arith) in
      (
        λ k. kept (ground arith),
        λ m. elim (Bool-cases (l == p)) [
          | inl same ↦ (
            ground (arith, ap (λ z. is_none (owner_of z seen)) (equal_numbers l p same)),
            kept (ground arith),
          )
          | inr other ↦ let (free, owned) = mine (ground arith) in (ground arith, owned)
        ],
      )
]

-- members with disjoint leaves
abbrev pub IsApart : List (ℕ × List ℕ) → Type 0
IsApart [] = Unit
IsApart ((i, ls) ∷ rest) =
    All (λ m. (p : ℕ) → contains p ls ≡ true → contains p m.1 ≡ false) rest × IsApart rest

contains-sorted : (p : ℕ) (ls : List ℕ) → contains p (sort_by (λ l. l) ls) ≡ contains p ls
contains-sorted p ls = any-sort_with (λ x y. leb x y) (λ q. q == p) ls

-- a leaf of a member has no owner, or one, in some table of owners
abbrev pub IsFree : List (ℕ × ℕ) → ℕ × List ℕ → Type 0
IsFree seen m = (p : ℕ) → contains p m.1 ≡ true → is_none (owner_of p seen) ≡ true

free-before :
    (p : ℕ) (seen more : List (ℕ × ℕ))
    → (is_none (owner_of p seen) ≡ false → is_none (owner_of p more) ≡ false)
    → is_none (owner_of p more) ≡ true
    → is_none (owner_of p seen) ≡ true
free-before p seen more kept h = elim (Bool-cases (is_none (owner_of p seen))) [
  | inl free ↦ free
  | inr owned ↦ absurd (ground (arith, kept owned))
]

free-apart :
    (p : ℕ) (ls : List ℕ) (more : List (ℕ × ℕ))
    → is_none (owner_of p more) ≡ false
    → (contains p ls ≡ true → is_none (owner_of p more) ≡ true)
    → contains p ls ≡ false
free-apart p ls more owned free = elim (Bool-cases (contains p ls)) [
  | inr out ↦ out
  | inl inside ↦ absurd (ground (arith, free inside))
]

-- no leaf of the members has an owner before, and no two members share one
pub own_members-IsFree :
    (inventories : List Inventory) (ms : List (ℕ × List ℕ)) (seen out : List (ℕ × ℕ))
    → own_members inventories ms seen ≡ owners out
    → All (IsFree seen) ms × IsApart ms
own_members-IsFree inventories [] seen out h = (tt, tt)
own_members-IsFree inventories ((i, ls) ∷ ms) seen out h =
    elim (Owners-cases (own_leaves inventories i (sort_by (λ l. l) ls) seen)) [
      | inr (e, k) ↦ absurd (ground arith)
      | inl (more, k) ↦
          let (free, apart) = own_members-IsFree inventories ms more out (ground arith) in
          (
            (
              λ p m.
                  ((own_leaves-free inventories i p (sort_by (λ l. l) ls) seen more k).1
                    (contains-sorted p ls ∙ m)).0,
              All-map (IsFree more) (IsFree seen)
                  (λ x f p m.
                    free-before p seen more
                      (own_leaves-free inventories i p (sort_by (λ l. l) ls) seen more k).0 (f p m))
                  ms free,
            ),
            (
              All-map (IsFree more) (λ x. (p : ℕ) → contains p ls ≡ true → contains p x.1 ≡ false)
                  (λ x f p m.
                    free-apart p x.1 more
                      ((own_leaves-free inventories i p (sort_by (λ l. l) ls) seen more k).1
                        (contains-sorted p ls ∙ m)).1
                      (f p))
                  ms free,
              apart,
            ),
          )
    ]
