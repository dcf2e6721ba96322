-- ===== src/Propagation.antt =====
-- Statistics that reach a step from the steps before it: app/services/job_stats.py
-- (`dependency_ancestors`, `add_step_stats`, `propagated_stats_for_step`, `build_step_extra_vars`), of
-- which bin/journeyman-runner has the first and the third word for word.
pub mod Ancestors
use mathlib.Core.List.{reverse}
use journeyman.Base.{
  ℕ, zero, suc, ◌+◌, Bool, true, false, Option, none, some, List, [], ◌∷◌, ◌++◌, length, any,
  if◌then◌else◌, ◌==◌, is_none, not, sort_by, str_eq, String,
}
use journeyman.Base.Text.{
  Json, Fields, end, field, obj, null, Python, concat, show, is_empty, is_falsy, find_field, get,
}
use journeyman.Job.{Step, step_at, is_successful}
use journeyman.Lifecycle.Aggregate.{set_key, update_fields}
use journeyman.Lifecycle.Stats.{json_safe_copy}

abbrev pub contains : ℕ → List ℕ → Bool
contains p xs = any (λ q. q == p) xs

-- `dependency.get_dependency_positions()` of the step at a position, if there is one
abbrev pub targets_of : Option Step → List ℕ
targets_of none = []
targets_of (some d) = d.depends_on

abbrev pub targets : List Step → ℕ → List ℕ
targets steps p = targets_of (step_at steps p)

-- the `while stack` loop, on fuel; the last item of the Python list is the head here, and the set
-- is the list of its members
unfoldable pub collect_within : ℕ → (ℕ → List ℕ) → List ℕ → List ℕ → Option (List ℕ)
collect_within zero next stack result = none
collect_within (suc fuel) next [] result = some result
collect_within (suc fuel) next (p ∷ stack) result =
    let again = collect_within fuel next stack result in
    let more = collect_within fuel next (reverse (next p) ++ stack) (p ∷ result) in
    if contains p result then again else more

-- how many edges the steps have
abbrev pub edge_count : List Step → ℕ
edge_count [] = 0
edge_count (s ∷ ss) = length s.depends_on + edge_count ss

-- one round for each item that the stack ever holds, and one to see it empty
unfoldable pub dependency_ancestors : Step → List Step → Option (List ℕ)
unfolding collect_within
dependency_ancestors step steps =
    collect_within (suc (length step.depends_on + edge_count steps)) (targets steps)
      (reverse step.depends_on) []

-- `key in fields`
abbrev pub has_key : String → Fields → Bool
has_key k fs = not (is_none (find_field k fs))

-- `dict(value or {})` of a decoded value, with `none` for what `dict` refuses
abbrev pub dict_of : Json → Option Fields
dict_of (obj fs) = some fs
dict_of v = if is_falsy v then some end else none

-- `values["_hosts"] = per_host` where there are such values
abbrev pub with_hosts : Json → Fields → Fields
with_hosts hosts values = if is_falsy hosts then values else set_key "_hosts" hosts values

-- The name of a step and the regular expression are arguments: `clean step` is
-- `_SAFE_KEY_PATTERN.sub("_", str(step.name or "").strip().lower()).strip("_")`, and `is_digit` is
-- `key[0].isdigit()`.
module _ (py : Python) (clean : Step → String) (is_digit : String → Bool) where
  abbrev pub numbered : Step → String
  numbered step = concat ("step_" ∷ show step.position ∷ [])

  abbrev pub base_key : Step → String
  base_key step =
      let key = (if is_empty (clean step) then numbered step else clean step) in
      if is_digit key then concat ("step_" ∷ key ∷ []) else key

  abbrev pub stats_namespace_for_step : Step → Fields → String
  stats_namespace_for_step step existing =
      if has_key (base_key step) existing
      then concat (base_key step ∷ "_step_" ∷ show step.position ∷ [])
      else base_key step

  abbrev pub put_stats : Fields → Step → Option Fields → Option Fields
  put_stats propagated step none = none
  put_stats propagated step (some values) = elim (json_safe_copy py values) [
    | some safe ↦ some (set_key (stats_namespace_for_step step propagated) (obj safe) propagated)
    | none ↦ none
  ]

  -- `none` stands for an exception
  abbrev pub add_step_stats : Fields → Step → Fields → Option Fields
  add_step_stats propagated step end = some propagated
  add_step_stats propagated step (field k v fs) =
      let stats = field k v fs in
      elim (dict_of (get stats "data")) [
        | none ↦ none
        | some values ↦ put_stats propagated step (some (with_hosts (get stats "per_host") values))
      ]

  abbrev pub add_ancestor : Fields → Option Step → Option Fields
  add_ancestor propagated none = some propagated
  add_ancestor propagated (some d) =
      if is_successful d.status then add_step_stats propagated d d.custom_stats else some propagated

  -- the `for` loop over the sorted positions
  abbrev pub propagate : List Step → Fields → List ℕ → Option Fields
  propagate steps propagated [] = some propagated
  propagate steps propagated (p ∷ ps) = elim (add_ancestor propagated (step_at steps p)) [
    | none ↦ none
    | some more ↦ propagate steps more ps
  ]

  unfoldable pub propagated_stats_for_step : Step → List Step → Option Fields
  unfolding dependency_ancestors
  propagated_stats_for_step step steps = elim (dependency_ancestors step steps) [
    | none ↦ none
    | some positions ↦ propagate steps end (sort_by (λ p. p) positions)
  ]

-- `build_step_extra_vars`
abbrev pub reserved_extra_var : String
reserved_extra_var = "journeyman_stats"

-- the values of one namespace but those of hosts, over what there is
abbrev pub merge_namespace : Fields → Fields → Fields
merge_namespace result end = result
merge_namespace result (field k v fs) =
    merge_namespace (if str_eq k "_hosts" then result else set_key k v result) fs

abbrev pub merge_value : Fields → Json → Fields
merge_value result (obj fs) = merge_namespace result fs
merge_value result _ = result

abbrev pub merge_namespaces : Fields → Fields → Fields
merge_namespaces result end = result
merge_namespaces result (field k v fs) = merge_namespaces (merge_value result v) fs

abbrev pub with_stats : Python → Fields → Fields → Option Fields
with_stats py result end = some result
with_stats py result (field k v fs) = elim (json_safe_copy py (field k v fs)) [
  | none ↦ none
  | some safe ↦ some (set_key reserved_extra_var (obj safe) (merge_namespaces result safe))
]

-- of values that are objects; `none` stands for JobStatsError
unfoldable pub build_step_extra_vars : Python → Fields → Fields → Fields → Option Fields
build_step_extra_vars py base propagated step_values =
    if has_key reserved_extra_var base
    then none
    else if has_key reserved_extra_var step_values
    then none
    else with_stats py (update_fields base step_values) propagated
