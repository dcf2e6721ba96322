-- ===== src/Routing.antt =====
-- Which runner an inventory asks for: app/services/inventory_runner_routing.py.
-- An inventory is decoded JSON, the values of a host are the fields of an object, and the table of
-- runners is an argument where the source queries it.
pub mod Crews
pub mod Planning
use journeyman.Base.{
  ℕ, Bool, true, false, ◌&&◌, ◌||◌, not, Option, none, some, List, [], ◌∷◌, ◌++◌, String, any, map,
  keep, first, if◌then◌else◌, ◌==◌, str_eq,
}
use journeyman.Base.Text.{
  Json, Items, Fields, nil, cons, end, field, arr, obj, null, str, Python, is_empty, concat,
  join_commas, text_or_empty, is_falsy, get, find_field,
}
use journeyman.Runner.{Runner}
use journeyman.Lifecycle.Report.{member, sorted_hosts}

-- a value, InventoryRunnerRoutingError, or another exception
pub data Routed {ℓ} (A : Type ℓ) : Type ℓ where
  routed : A → Routed A
  unroutable : String → Routed A
  raised : Routed A

infixl 5 ◌>>=◌
abbrev pub ◌>>=◌ {ℓ κ} : {A : Type ℓ} {B : Type κ} → Routed A → (A → Routed B) → Routed B
routed a >>= f = f a
unroutable e >>= f = unroutable e
raised >>= f = raised

abbrev pub local_host_names : List String
local_host_names = "localhost" ∷ "127.0.0.1" ∷ "::1" ∷ []

-- `inventory_data.get("_meta", {})`, before its method `get`
abbrev pub meta_of : Option Json → Routed Fields
meta_of none = routed end
meta_of (some (obj fs)) = routed fs
meta_of (some v) = raised

abbrev pub mapping_of : Json → Routed Fields
mapping_of (obj fs) = routed fs
mapping_of v = unroutable "Resolved inventory has no hostvars mapping."

-- `_hostvars`
abbrev pub hostvars : Json → Routed Fields
hostvars (obj inventory) = do
  meta ← meta_of (find_field "_meta" inventory)
  mapping_of (get meta "hostvars")
hostvars v = unroutable "Resolved inventory is invalid."

-- `value if isinstance(value, dict) else {}`
abbrev pub fields_of : Json → Fields
fields_of (obj fs) = fs
fields_of v = end

-- `variables or {}`, before its method `get`
abbrev pub variables_of : Json → Routed Fields
variables_of (obj fs) = routed fs
variables_of v = if is_falsy v then routed end else raised

abbrev pub values_of : Items → List Json
values_of nil = []
values_of (cons v vs) = v ∷ values_of vs

-- `tags.get("journeyman_runner", [])`, as a list
abbrev pub tag_values : Option Json → List Json
tag_values none = []
tag_values (some (arr items)) = values_of items
tag_values (some v) = v ∷ []

module _ (py : Python) where
  -- `_clean`
  abbrev pub clean : Json → String
  clean v = py.strip (text_or_empty py v)

  -- `_is_local_target`
  abbrev pub is_local_target_host : String → Fields → Bool
  is_local_target_host host variables =
      member (py.lower (py.strip host)) local_host_names
      || str_eq (py.lower (clean (get variables "ansible_connection"))) "local"

  -- one round of the loops that collect the values that differ
  abbrev pub add_explicit : List String → String → List String
  add_explicit values value =
      if is_empty value || member (py.lower value) (map py.lower values)
      then values
      else values ++ value ∷ []

  abbrev pub add_all : List String → List String → List String
  add_all values [] = values
  add_all values (v ∷ vs) = add_all (add_explicit values v) vs

  -- no value, one, or a conflict
  abbrev pub only_one : String → Routed String → List String → Routed String
  only_one message default [] = default
  only_one message default (v ∷ []) = routed v
  only_one message default (v ∷ w ∷ rest) =
      unroutable (concat (message ∷ join_commas (sorted_hosts (v ∷ w ∷ rest)) ∷ "." ∷ []))

  -- the tags of Zabbix, asked last
  abbrev pub zabbix_reference : Json → Routed String
  zabbix_reference (obj zabbix) = elim (get zabbix "tags_by_name") [
    | obj tags ↦
        only_one "Zabbix host has multiple different journeyman_runner tag values: " (routed "")
          (add_all [] (map clean (tag_values (find_field "journeyman_runner" tags))))
    | _ ↦ routed ""
  ]
  zabbix_reference v = routed ""

  abbrev pub conflict_message : String
  conflict_message =
      "Host has conflicting journeyman_runner values from inventory host variables and Foreman/Satellite parameters: "

  -- `_runner_reference`
  abbrev pub runner_reference : Fields → Routed String
  runner_reference variables =
      only_one conflict_message (zabbix_reference (get variables "zabbix")) (
        add_all [] (
          clean (get variables "journeyman_runner")
          ∷ clean (get (fields_of (get variables "foreman_params")) "journeyman_runner")
          ∷ []))

  -- `is_builtin_runner_reference`
  abbrev pub is_builtin_runner_reference : String → Bool
  is_builtin_runner_reference reference = str_eq (py.lower (py.strip reference)) "builtin"

  abbrev pub has_identity : String → Runner → Bool
  has_identity requested runner = member requested (
      py.lower (py.strip runner.name)
      ∷ py.lower (py.strip runner.runner_uuid)
      ∷ py.lower (py.strip runner.hostname)
      ∷ [])

  -- `registered_remote_runner`
  abbrev pub registered_remote_runner : List Runner → String → Option Runner
  registered_remote_runner runners reference =
      if is_empty (py.strip reference)
      then none
      else first (λ r. has_identity (py.lower (py.strip reference)) r && r.is_registered)
          (keep (λ r. r.enabled && not r.is_local) runners)

  abbrev pub unknown_runner : String → String → String
  unknown_runner host reference = concat (
      "Host \"" ∷ host ∷ "\" requests runner \"" ∷ reference
      ∷ "\", but no enabled registered remote runner with that name, hostname or UUID exists. Use 'builtin' to select the built-in Journeyman runner."
      ∷ [])

  -- `assignments[host] = runner`
  abbrev pub assign :
      String → Option Runner → List (String × Option Runner) → List (String × Option Runner)
  assign host runner [] = (host, runner) ∷ []
  assign host runner ((h, r) ∷ rest) =
      let later = assign host runner rest in
      if str_eq h host then (host, runner) ∷ rest else (h, r) ∷ later

  -- the assignment of one host with an explicit reference
  abbrev pub override_of :
      List Runner
      → String
      → String
      → List (String × Option Runner)
      → Routed (List (String × Option Runner))
  override_of runners host reference assignments =
      if is_empty reference
      then routed assignments
      else if is_builtin_runner_reference reference
      then routed (assign host none assignments)
      else elim (registered_remote_runner runners reference) [
        | none ↦ unroutable (unknown_runner host reference)
        | some runner ↦ routed (assign host (some runner) assignments)
      ]

  abbrev pub override_hosts :
      List Runner → Fields → List (String × Option Runner) → Routed (List (String × Option Runner))
  override_hosts runners end assignments = routed assignments
  override_hosts runners (field host v fs) assignments = do
    variables ← variables_of v
    reference ← runner_reference variables
    more ← override_of runners host reference assignments
    override_hosts runners fs more

  abbrev pub override_inventories :
      List Runner
      → List Json
      → List (String × Option Runner)
      → Routed (List (String × Option Runner))
  override_inventories runners [] assignments = routed assignments
  override_inventories runners (v ∷ vs) assignments = do
    hosts ← hostvars v
    more ← override_hosts runners hosts assignments
    override_inventories runners vs more

  -- `validate_inventory_runner_overrides`
  unfoldable pub validate_inventory_runner_overrides :
      List Runner → List Json → Routed (List (String × Option Runner))
  validate_inventory_runner_overrides runners inventories =
      override_inventories runners inventories []

abbrev pub no_default_runner : String
no_default_runner =
    "The Project default runner is no longer an enabled registered remote runner. Edit the Project and select a valid default runner."

-- `validate_default_runner`, with the row of `default_runner_id`
abbrev pub default_runner_of : Option Runner → Routed (Option Runner)
default_runner_of none = unroutable no_default_runner
default_runner_of (some runner) =
    if runner.is_local || not runner.enabled || not runner.is_registered
    then unroutable no_default_runner
    else routed (some runner)

unfoldable pub validate_default_runner : List Runner → Option ℕ → Routed (Option Runner)
validate_default_runner runners none = routed none
validate_default_runner runners (some id) = default_runner_of (first (λ r. r.id == id) runners)
