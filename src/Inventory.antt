-- ===== src/Inventory.antt =====
-- Dependencies between inventories: app/services/inventory_dependencies.py
-- (`_find_dependency_path`, `validate_inventory_dependency_update`).
pub mod Search
pub mod Acyclic
pub mod Lineage
use journeyman.Base.{
  ℕ, zero, suc, Bool, true, false, Option, none, some, List, [], ◌∷◌, ◌++◌, map, length, any,
  String, if◌then◌else◌, ◌==◌,
}
use journeyman.Base.Text.{ℤ, pos, negsuc, Json, Python, int_of, concat, show}
use journeyman.Propagation.{contains}

-- `dependencies` stands for `inventory_dependency_ids(inventory)`, in the order of the set
pub record Inventory : Type 0 where
  pub id : ℕ
  pub name : String
  pub dependencies : List ℕ

abbrev pub Graph : Type 0
Graph = ℕ → List ℕ

-- `graph.get(id, set())` of `_inventory_dependency_graph`
abbrev pub dependency_graph : List Inventory → Graph
dependency_graph [] i = []
dependency_graph (v ∷ rest) i =
    let later = dependency_graph rest i in if v.id == i then v.dependencies else later

-- `graph[inventory_id] = set(dependency_ids)`
abbrev pub replace_node : ℕ → List ℕ → Graph → Graph
replace_node i deps g j = if i == j then deps else g j

-- a path, None, or no fuel left
pub data Found : Type 0 where
  path : List ℕ → Found
  absent exhausted : Found

-- the `for` loop over the dependencies
abbrev pub first_path : (ℕ → Found) → List ℕ → Found
first_path look [] = absent
first_path look (d ∷ ds) = elim (look d) [
  | path p ↦ path p
  | absent ↦ first_path look ds
  | exhausted ↦ exhausted
]

unfoldable pub find_dependency_path : ℕ → Graph → ℕ → List ℕ → ℕ → Found
find_dependency_path zero g target visited start = exhausted
find_dependency_path (suc fuel) g target visited start =
    let below =
      first_path (λ d. find_dependency_path fuel g target (visited ++ start ∷ []) d) (g start) in
    if contains start visited
    then absent
    else if start == target
    then path (visited ++ start ∷ [])
    else below

-- InventoryDependencyError, or the ids; `out_of_fuel` never happens (`Acyclic`)
pub data Validated : Type 0 where
  accepted : List ℕ → Validated
  rejected : String → Validated
  out_of_fuel : Validated

-- one id of `_normalise_dependency_ids`
pub data Parsed : Type 0 where
  parsed : List ℕ → Parsed
  invalid : String → Parsed

abbrev pub add_id : ℕ → List ℕ → Parsed → Parsed
add_id i seen (parsed rest) = parsed (if contains i seen then rest else i ∷ rest)
add_id i seen (invalid e) = invalid e

-- ids below 1 are refused
abbrev pub positive : ℤ → Option ℕ
positive (pos zero) = none
positive (pos (suc n)) = some (suc n)
positive (negsuc n) = none

abbrev pub normalise_ids : Python → List ℕ → List Json → Parsed
normalise_ids py seen [] = parsed []
normalise_ids py seen (v ∷ vs) = elim (int_of py v) [
  | none ↦ invalid "Inventory dependency IDs must be integers."
  | some n ↦ elim (positive n) [
    | none ↦ invalid "Inventory dependency IDs must be positive."
    | some i ↦ add_id i seen (normalise_ids py (i ∷ seen) vs)
  ]
]

abbrev pub name_of : List Inventory → ℕ → String
name_of [] i = concat ("Inventory " ∷ show i ∷ [])
name_of (v ∷ rest) i = let later = name_of rest i in if v.id == i then v.name else later

abbrev pub join_arrows : List String → String
join_arrows [] = ""
join_arrows (s ∷ []) = s
join_arrows (s ∷ t ∷ rest) = concat (s ∷ " → " ∷ join_arrows (t ∷ rest) ∷ [])

abbrev pub cycle_message : List Inventory → List ℕ → String
cycle_message inventories ids = concat (
    "Inventory dependency cycle detected: "
    ∷ join_arrows (map (name_of inventories) ids)
    ∷ "."
    ∷ [])

-- the loop over the proposed ids; a path has one id more than there are rows at most
abbrev pub check_each : (ℕ → Found) → List Inventory → ℕ → List ℕ → List ℕ → Validated
check_each look inventories i [] ids = accepted ids
check_each look inventories i (d ∷ ds) ids = elim (look d) [
  | path p ↦ rejected (cycle_message inventories (i ∷ p))
  | absent ↦ check_each look inventories i ds ids
  | exhausted ↦ out_of_fuel
]

abbrev pub proposed_graph : List Inventory → ℕ → List ℕ → Graph
proposed_graph inventories i ids = replace_node i ids (dependency_graph inventories)

-- the checks on ids that are integers, for an inventory with an id
unfoldable pub check_update : List Inventory → ℕ → List ℕ → Validated
unfolding find_dependency_path
check_update inventories i ids =
    if contains i ids
    then rejected "An inventory cannot use itself as a source."
    else check_each
        (find_dependency_path (suc (suc (length inventories))) (proposed_graph inventories i ids) i
          [])
        inventories i ids ids

abbrev pub check_parsed : List Inventory → Option ℕ → Parsed → Validated
check_parsed inventories none (parsed ids) = accepted ids
check_parsed inventories (some i) (parsed ids) = check_update inventories i ids
check_parsed inventories i (invalid e) = rejected e

unfoldable pub validate_inventory_dependency_update :
    Python → Option ℕ → List Json → List Inventory → Validated
unfolding check_update
validate_inventory_dependency_update py i ids inventories =
    check_parsed inventories i (normalise_ids py [] ids)
