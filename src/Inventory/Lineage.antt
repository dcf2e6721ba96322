-- ===== src/Inventory/Lineage.antt =====
-- The sources that an inventory rests on, and Composite inventories whose members share one: the
-- second half of app/services/inventory_dependencies.py. Sets are lists without repetitions.
pub mod Sources
pub mod Owned
pub mod Disjoint
use journeyman.Base.{
  ℕ, zero, suc, Bool, true, false, Option, none, some, List, [], ◌∷◌, ◌++◌, String, any, length,
  if◌then◌else◌, ◌==◌, sort_by, not,
}
use journeyman.Base.Text.{Json, Python, concat}
use journeyman.Propagation.{contains}
use journeyman.Inventory.{
  Inventory, Graph, dependency_graph, Validated, accepted, rejected, out_of_fuel, Parsed, parsed,
  invalid, normalise_ids, name_of, cycle_message,
}

-- a set of sources, InventoryDependencyError, or no fuel left
pub data Lineage : Type 0 where
  sources : List ℕ → Lineage
  refused : String → Lineage
  unresolved : Lineage

-- `leaves.update(…)`
abbrev pub union : List ℕ → List ℕ → List ℕ
union xs [] = xs
union xs (y ∷ ys) = union (if contains y xs then xs else xs ++ y ∷ []) ys

-- `path[path.index(id):]`
abbrev pub from_first : ℕ → List ℕ → List ℕ
from_first i [] = []
from_first i (p ∷ ps) = let later = from_first i ps in if p == i then p ∷ ps else later

-- the loop over the dependencies
abbrev pub gather : (ℕ → Lineage) → List ℕ → List ℕ → Lineage
gather look leaves [] = sources leaves
gather look leaves (d ∷ ds) = elim (look d) [
  | sources more ↦ gather look (union leaves more) ds
  | refused e ↦ refused e
  | unresolved ↦ unresolved
]

abbrev pub is_leaf : List ℕ → Bool
is_leaf [] = true
is_leaf (d ∷ ds) = false

-- `_leaf_source_inventory_ids`, on fuel
unfoldable pub leaf_sources : ℕ → List Inventory → List ℕ → ℕ → Lineage
leaf_sources zero inventories path i = unresolved
leaf_sources (suc fuel) inventories path i =
    let below =
      gather (λ d. leaf_sources fuel inventories (path ++ i ∷ []) d) []
        (dependency_graph inventories i) in
    if contains i path
    then refused (cycle_message inventories (from_first i path ++ i ∷ []))
    else if is_leaf (dependency_graph inventories i)
    then sources (i ∷ [])
    else below

abbrev pub is_inventory : List Inventory → ℕ → Bool
is_inventory inventories i = any (λ v. v.id == i) inventories

-- `inventory_leaf_source_ids`, and the body of the loop of `composite_member_leaf_sources`; a path
-- has as many ids as there are rows at most
unfoldable pub inventory_leaf_source_ids : List Inventory → ℕ → Lineage
unfolding leaf_sources
inventory_leaf_source_ids inventories i =
    if is_inventory inventories i
    then leaf_sources (suc (length inventories)) inventories [] i
    else refused (concat ("Inventory \"" ∷ name_of inventories i ∷ "\" no longer exists." ∷ []))

-- `seen_leaf_owner.get(leaf_id)`
abbrev pub owner_of : ℕ → List (ℕ × ℕ) → Option ℕ
owner_of leaf [] = none
owner_of leaf ((k, member) ∷ rest) =
    let later = owner_of leaf rest in if k == leaf then some member else later

abbrev pub conflict : List Inventory → ℕ → ℕ → ℕ → String
conflict inventories previous member leaf = concat (
    "Composite inventory lineage conflict: \""
    ∷ name_of inventories previous
    ∷ "\" and \""
    ∷ name_of inventories member
    ∷ "\" both derive from source inventory \""
    ∷ name_of inventories leaf
    ∷ "\". Select only one branch from each underlying source inventory."
    ∷ [])

-- the owners after the leaves of a member, or the conflict
pub data Owners : Type 0 where
  owners : List (ℕ × ℕ) → Owners
  clash : String → Owners

abbrev pub own_leaf : List Inventory → ℕ → ℕ → Option ℕ → List (ℕ × ℕ) → Owners
own_leaf inventories member leaf none seen = owners ((leaf, member) ∷ seen)
own_leaf inventories member leaf (some previous) seen =
    clash (conflict inventories previous member leaf)

abbrev pub own_leaves : List Inventory → ℕ → List ℕ → List (ℕ × ℕ) → Owners
own_leaves inventories member [] seen = owners seen
own_leaves inventories member (leaf ∷ rest) seen =
    elim (own_leaf inventories member leaf (owner_of leaf seen) seen) [
      | owners more ↦ own_leaves inventories member rest more
      | clash e ↦ clash e
    ]

-- `composite_member_leaf_sources`
pub data Members : Type 0 where
  members : List (ℕ × List ℕ) → Members
  failed : String → Members
  unfinished : Members

abbrev pub add_member : ℕ → List ℕ → Members → Members
add_member i leaves (members rest) = members ((i, leaves) ∷ rest)
add_member i leaves (failed e) = failed e
add_member i leaves unfinished = unfinished

abbrev pub composite_member_leaf_sources : List Inventory → List ℕ → Members
composite_member_leaf_sources inventories [] = members []
composite_member_leaf_sources inventories (i ∷ ids) =
    let rest = composite_member_leaf_sources inventories ids in
    elim (inventory_leaf_source_ids inventories i) [
      | sources leaves ↦ add_member i leaves rest
      | refused e ↦ failed e
      | unresolved ↦ unfinished
    ]

-- the loops over the members and their sorted leaves
abbrev pub own_members : List Inventory → List (ℕ × List ℕ) → List (ℕ × ℕ) → Owners
own_members inventories [] seen = owners seen
own_members inventories ((member, leaves) ∷ rest) seen =
    elim (own_leaves inventories member (sort_by (λ l. l) leaves) seen) [
      | owners more ↦ own_members inventories rest more
      | clash e ↦ clash e
    ]

abbrev pub lineage_answer : List ℕ → Owners → Validated
lineage_answer ids (owners seen) = accepted ids
lineage_answer ids (clash e) = rejected e

abbrev pub check_members : List Inventory → List ℕ → Members → Validated
check_members inventories ids (members ms) = lineage_answer ids (own_members inventories ms [])
check_members inventories ids (failed e) = rejected e
check_members inventories ids unfinished = out_of_fuel

-- the checks on ids that are positive
unfoldable pub check_lineages : List Inventory → List ℕ → Validated
unfolding inventory_leaf_source_ids
check_lineages inventories ids =
    check_members inventories ids (composite_member_leaf_sources inventories ids)

abbrev pub check_parsed_lineages : List Inventory → Parsed → Validated
check_parsed_lineages inventories (parsed ids) = check_lineages inventories ids
check_parsed_lineages inventories (invalid e) = rejected e

unfoldable pub validate_composite_source_lineages : Python → List Json → List Inventory → Validated
unfolding check_lineages
validate_composite_source_lineages py ids inventories =
    check_parsed_lineages inventories (normalise_ids py [] ids)
