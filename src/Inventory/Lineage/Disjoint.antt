-- ===== src/Inventory/Lineage/Disjoint.antt =====
-- Members that `validate_composite_source_lineages` accepts share no source.
use journeyman.Base.{
  ℕ, Bool, true, false, List, [], ◌∷◌, ◌≡◌, ◌≢◌, refl, sym, subst, ◌⊎◌, inl, inr, String, All,
  arith,
}
use journeyman.Propagation.{contains}
use journeyman.Inventory.{Inventory, Validated, accepted, rejected, out_of_fuel}
use journeyman.Inventory.Lineage.{
  sources, inventory_leaf_source_ids, Owners, owners, clash, Members, members, failed, unfinished,
  composite_member_leaf_sources, own_members, lineage_answer, check_lineages,
}
use journeyman.Inventory.Lineage.Sources.{
  IsSource, inventory-ends, inventory_complete, Lineage-cases,
}
use journeyman.Inventory.Lineage.Owned.{IsApart, own_members-IsFree}

Members-cases :
    (m : Members)
    → ((ms : List (ℕ × List ℕ)) × (m ≡ members ms))
      ⊎ (((e : String) × (m ≡ failed e)) ⊎ (m ≡ unfinished))
Members-cases (members ms) = inl (ms, refl)
Members-cases (failed e) = inr (inl (e, refl))
Members-cases unfinished = inr (inr refl)

-- no source of the first inventory is one of the second
AreApart : List Inventory → ℕ → ℕ → Type 0
AreApart inventories i j = (p : ℕ) → IsSource inventories i p → ¬ IsSource inventories j p

-- no two ids at different places of the list share a source
pub IsIndependent : List Inventory → List ℕ → Type 0
IsIndependent inventories [] = Unit
IsIndependent inventories (i ∷ ids) =
    All (AreApart inventories i) ids × IsIndependent inventories ids

members-injective : (xs ys : List (ℕ × List ℕ)) → members xs ≡ members ys → xs ≡ ys
members-injective xs ys h = cc

-- the members, one for each id, with its sources
composite-cons :
    (inventories : List Inventory) (i : ℕ) (ids : List ℕ) (ms : List (ℕ × List ℕ))
    → composite_member_leaf_sources inventories (i ∷ ids) ≡ members ms
    → (ls : List ℕ) × (rest : List (ℕ × List ℕ)) × (inventory_leaf_source_ids inventories i
        ≡ sources ls)
      × (composite_member_leaf_sources inventories ids ≡ members rest)
      × ((i, ls) ∷ rest ≡ ms)
composite-cons inventories i ids ms h =
    elim (Lineage-cases (inventory_leaf_source_ids inventories i)) [
      | inr (inl (e, k)) ↦ absurd (ground arith)
      | inr (inr k) ↦ absurd (ground arith)
      | inl (ls, k) ↦ elim (Members-cases (composite_member_leaf_sources inventories ids)) [
        | inl (rest, r) ↦ (ls, rest, k, r, members-injective ((i, ls) ∷ rest) ms (ground arith))
        | inr (inl (e, r)) ↦ absurd (ground arith)
        | inr (inr r) ↦ absurd (ground arith)
      ]
    ]

IsApartFrom : List ℕ → List (ℕ × List ℕ) → Type 0
IsApartFrom ls ms = All (λ m. (p : ℕ) → contains p ls ≡ true → contains p m.1 ≡ false) ms

members-apart :
    (inventories : List Inventory) (ids : List ℕ) (ms : List (ℕ × List ℕ)) (i : ℕ) (ls : List ℕ)
    → composite_member_leaf_sources inventories ids ≡ members ms
    → inventory_leaf_source_ids inventories i ≡ sources ls
    → IsApartFrom ls ms
    → All (AreApart inventories i) ids
unfolding AreApart IsApartFrom
members-apart inventories [] ms i ls h k apart = tt
members-apart inventories (j ∷ ids) ms i ls h k apart =
    let (more, rest, e, r, same) = composite-cons inventories j ids ms h in
    let both = subst (IsApartFrom ls) (sym same) apart in
    (
      λ p mine other.
          clash_of (contains p more) (both.0 p (inventory_complete inventories i p ls k mine))
            (inventory_complete inventories j p more e other),
      members-apart inventories ids rest i ls r k both.1,
    )
  where
    clash_of : (b : Bool) → b ≡ false → b ≡ true → ⊥
    clash_of b x y = cc

members-IsIndependent :
    (inventories : List Inventory) (ids : List ℕ) (ms : List (ℕ × List ℕ))
    → composite_member_leaf_sources inventories ids ≡ members ms
    → IsApart ms
    → IsIndependent inventories ids
unfolding IsIndependent IsApartFrom
members-IsIndependent inventories [] ms h apart = tt
members-IsIndependent inventories (i ∷ ids) ms h apart =
    let (ls, rest, e, r, same) = composite-cons inventories i ids ms h in
    let both = subst IsApart (sym same) apart in
    (
      members-apart inventories ids rest i ls r e both.0,
      members-IsIndependent inventories ids rest r both.1,
    )

composite-ends :
    (inventories : List Inventory) (ids : List ℕ)
    → composite_member_leaf_sources inventories ids ≢ unfinished
composite-ends inventories [] e = cc
composite-ends inventories (i ∷ ids) e =
    elim (Lineage-cases (inventory_leaf_source_ids inventories i)) [
      | inr (inl (m, k)) ↦ ground arith
      | inr (inr k) ↦ inventory-ends inventories i k
      | inl (ls, k) ↦ elim (Members-cases (composite_member_leaf_sources inventories ids)) [
        | inl (rest, r) ↦ ground arith
        | inr (inl (m, r)) ↦ ground arith
        | inr (inr r) ↦ composite-ends inventories ids r
      ]
    ]

-- what an answer says of the ids
pub IsLineageAnswer : List Inventory → List ℕ → Validated → Type 0
IsLineageAnswer inventories ids (accepted out) = (out ≡ ids) × IsIndependent inventories ids
IsLineageAnswer inventories ids (rejected e) = Unit
IsLineageAnswer inventories ids out_of_fuel = ⊥

answer-IsIndependent :
    (inventories : List Inventory) (ids : List ℕ) (ms : List (ℕ × List ℕ)) (o : Owners)
    → composite_member_leaf_sources inventories ids ≡ members ms
    → own_members inventories ms [] ≡ o
    → IsLineageAnswer inventories ids (lineage_answer ids o)
unfolding IsLineageAnswer
answer-IsIndependent inventories ids ms (owners seen) h k = (
  refl,
  members-IsIndependent inventories ids ms h (own_members-IsFree inventories ms [] seen k).1,
)
answer-IsIndependent inventories ids ms (clash e) h k = tt

-- `check_lineages` always answers, and members that it accepts, unchanged, are independent: no two of
-- them lead to the same inventory without dependencies.
pub check_lineages-IsLineageAnswer :
    (inventories : List Inventory) (ids : List ℕ)
    → IsLineageAnswer inventories ids (check_lineages inventories ids)
unfolding check_lineages IsLineageAnswer
check_lineages-IsLineageAnswer inventories ids =
    elim (Members-cases (composite_member_leaf_sources inventories ids)) [
      | inl (ms, h) ↦ simp h (answer-IsIndependent inventories ids ms _ h refl)
      | inr (inl (e, h)) ↦ simp h tt
      | inr (inr h) ↦ absurd (composite-ends inventories ids h)
    ]
