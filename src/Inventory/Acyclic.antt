-- ===== src/Inventory/Acyclic.antt =====
-- An update that `validate_inventory_dependency_update` accepts keeps the inventories free of cycles.
use journeyman.Base.{
  ℕ, suc, true, false, List, [], ◌∷◌, map, ◌≡◌, ◌≢◌, refl, subst, ◌⊎◌, inl, inr, length, String,
  arith, ◌==◌, Bool-cases,
}
use journeyman.Propagation.{contains}
use journeyman.Inventory.{
  Inventory, Graph, Found, path, absent, exhausted, Validated, accepted, rejected, out_of_fuel,
  dependency_graph, replace_node, proposed_graph, check_each, check_update, find_dependency_path,
}
use journeyman.Inventory.Search.{
  Leads, here, along, Avoids, Found-cases, find-misses_none, find-Leads, find-ends, remaining,
}

-- no edge closes a cycle
unfoldable pub IsAcyclic : Graph → Type 0
IsAcyclic g = (a b : ℕ) → contains b (g a) ≡ true → ¬ Leads g b a

trans : {g : Graph} {a b c : ℕ} → Leads g a b → Leads g b c → Leads g a c
trans here v = v
trans (along e w) v = along e (trans w v)

-- what acceptance says of the search from each dependency
each-accepted :
    (look : ℕ → Found) (inventories : List Inventory) (i : ℕ) (ds ids out : List ℕ)
    → check_each look inventories i ds ids ≡ accepted out
    → (out ≡ ids) × ((d : ℕ) → contains d ds ≡ true → look d ≡ absent)
each-accepted look inventories i [] ids out h = (ground arith, λ d m. absurd (cc))
each-accepted look inventories i (d ∷ ds) ids out h = elim (Found-cases (look d)) [
  | inl (p, e) ↦ absurd (ground arith)
  | inr (inl e) ↦
      let (same, rest) = each-accepted look inventories i ds ids out (ground arith) in
      (
        same,
        λ y m. elim (Bool-cases (d == y)) [
          | inl k ↦ subst (λ z. look z ≡ absent) (ground arith) e
          | inr k ↦ rest y (ground arith)
        ],
      )
  | inr (inr e) ↦ absurd (ground arith)
]

each-rejected :
    (look : ℕ → Found) (inventories : List Inventory) (i : ℕ) (ds ids : List ℕ) (message : String)
    → check_each look inventories i ds ids ≡ rejected message
    → (d : ℕ) × (p : List ℕ) × (contains d ds ≡ true) × (look d ≡ path p)
each-rejected look inventories i [] ids message h = absurd (cc)
each-rejected look inventories i (d ∷ ds) ids message h = elim (Found-cases (look d)) [
  | inl (p, e) ↦ (d, p, ground arith, e)
  | inr (inl e) ↦
      let (y, p, m, k) = each-rejected look inventories i ds ids message (ground arith) in
      (y, p, ground arith, k)
  | inr (inr e) ↦ absurd (ground arith)
]

each-ends :
    (look : ℕ → Found) (inventories : List Inventory) (i : ℕ) (ds ids : List ℕ)
    → ((d : ℕ) → look d ≢ exhausted)
    → check_each look inventories i ds ids ≢ out_of_fuel
each-ends look inventories i [] ids h e = cc
each-ends look inventories i (d ∷ ds) ids h e = elim (Found-cases (look d)) [
  | inl (p, k) ↦ ground arith
  | inr (inl k) ↦ each-ends look inventories i ds ids h (ground arith)
  | inr (inr k) ↦ h d k
]

-- the nodes that may have edges, and their number
pub keys : List Inventory → List ℕ
keys inventories = map (λ v. v.id) inventories

pub graph_leaf :
    (inventories : List Inventory) (k : ℕ)
    → contains k (keys inventories) ≡ false
    → dependency_graph inventories k ≡ []
unfolding keys
graph_leaf [] k h = refl
graph_leaf (v ∷ rest) k h = ground (arith, graph_leaf rest k)

proposed_leaf :
    (inventories : List Inventory) (i : ℕ) (ids : List ℕ) (k : ℕ)
    → contains k (i ∷ keys inventories) ≡ false
    → proposed_graph inventories i ids k ≡ []
proposed_leaf inventories i ids k h = ground (arith, graph_leaf inventories k)

pub remaining-keys :
    (inventories : List Inventory) → remaining (keys inventories) [] ≡ length inventories
unfolding keys remaining
remaining-keys [] = refl
remaining-keys (v ∷ rest) = omega (arith, remaining-keys rest)

-- what the answer of `check_update` says of the graph that the update makes
pub Answers : List Inventory → ℕ → List ℕ → Validated → Type 0
Answers inventories i ids (accepted out) =
    (out ≡ ids) × ((d : ℕ) → contains d ids ≡ true → ¬ Leads (proposed_graph inventories i ids) d i)
Answers inventories i ids (rejected message) =
    (d : ℕ) × (contains d ids ≡ true) × Leads (proposed_graph inventories i ids) d i
Answers inventories i ids out_of_fuel = ⊥

Validated-cases :
    (v : Validated)
    → ((out : List ℕ) × (v ≡ accepted out))
      ⊎ (((m : String) × (v ≡ rejected m)) ⊎ (v ≡ out_of_fuel))
Validated-cases (accepted out) = inl (out, refl)
Validated-cases (rejected m) = inr (inl (m, refl))
Validated-cases out_of_fuel = inr (inr refl)

-- the loop over the ids, with the search on the graph that the update makes
module _ (inventories : List Inventory) (i : ℕ) (ids : List ℕ) where
  abbrev look : ℕ → Found
  look =
      find_dependency_path (suc (suc (length inventories))) (proposed_graph inventories i ids) i []

  look-ends : (d : ℕ) → look d ≢ exhausted
  unfolding remaining
  look-ends d =
      find-ends (suc (suc (length inventories))) (proposed_graph inventories i ids)
        (i ∷ keys inventories) i [] d (proposed_leaf inventories i ids)
        (omega (arith, remaining-keys inventories))

  look-absent : (d : ℕ) → look d ≡ absent → ¬ Leads (proposed_graph inventories i ids) d i
  unfolding Avoids
  look-absent d e w =
      find-misses_none (suc (suc (length inventories))) (proposed_graph inventories i ids) i [] d w
        (λ n k. refl) e

  each-Answers : Answers inventories i ids (check_each look inventories i ids ids)
  unfolding Answers
  each-Answers = elim (Validated-cases (check_each look inventories i ids ids)) [
    | inl (out, e) ↦
        let (same, none_leads) = each-accepted look inventories i ids ids out e in
        rw e (same, λ d m. look-absent d (none_leads d m))
    | inr (inl (message, e)) ↦
        let (d, p, m, k) = each-rejected look inventories i ids ids message e in
        rw e (
          d,
          m,
          find-Leads (suc (suc (length inventories))) (proposed_graph inventories i ids) i [] d p k,
        )
    | inr (inr e) ↦ absurd (each-ends look inventories i ids ids look-ends e)
  ]

-- `check_update` always answers: it accepts the proposed ids unchanged exactly if none of them leads
-- back to the inventory in the graph with the update, and it refuses exactly if one does.
pub check_update-Answers :
    (inventories : List Inventory) (i : ℕ) (ids : List ℕ)
    → Answers inventories i ids (check_update inventories i ids)
unfolding check_update Answers
check_update-Answers inventories i ids = elim (Bool-cases (contains i ids)) [
  | inl self ↦ simp self (i, self, here)
  | inr other ↦ simp other (each-Answers inventories i ids)
]

-- a walk in the new graph that leaves the updated node, or a walk of the old graph
through_update :
    (g : Graph) (i : ℕ) (ids : List ℕ) {a b : ℕ}
    → Leads (replace_node i ids g) a b
    → Leads g a b
      ⊎ (Leads (replace_node i ids g) a i
          × ((d : ℕ) × (contains d ids ≡ true) × Leads (replace_node i ids g) d b))
through_update g i ids here = inl here
through_update g i ids (along {a} {b} {c} e w) = elim (Bool-cases (i == a)) [
  | inl same ↦
      inr (subst (Leads (replace_node i ids g) a) (ground arith) here, (b, simp same at e, w))
  | inr other ↦ elim (through_update g i ids w) [
    | inl old ↦ inl (along (simp other at e) old)
    | inr (to, (d, m, back)) ↦ inr (along e to, (d, m, back))
  ]
]

-- If the inventories have no cycle and `check_update` accepts new dependencies for one of them, then
-- they have no cycle with these dependencies either.
pub check_update-IsAcyclic :
    (inventories : List Inventory) (i : ℕ) (ids out : List ℕ)
    → IsAcyclic (dependency_graph inventories)
    → check_update inventories i ids ≡ accepted out
    → IsAcyclic (proposed_graph inventories i out)
unfolding IsAcyclic Answers
check_update-IsAcyclic inventories i ids out acyclic h =
    let (same, clear) =
      subst (Answers inventories i ids) h (check_update-Answers inventories i ids) in
    rw same λ a b e w. elim (Bool-cases (i == a)) [
      | inl k ↦
          clear b (simp k at e)
            (subst (Leads (proposed_graph inventories i ids) b) (ground arith) w)
      | inr k ↦ elim (through_update (dependency_graph inventories) i ids w) [
        | inl old ↦ acyclic a b (simp k at e) old
        | inr (to, (d, m, back)) ↦ clear d m (trans back (along e to))
      ]
    ]
