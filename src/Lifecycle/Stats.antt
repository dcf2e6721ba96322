-- ===== src/Lifecycle/Stats.antt =====
-- Ansible custom statistics of a completed step: app/services/job_stats.py
-- (`normalise_ansible_custom_stats`, `_json_safe_copy`).
use journeyman.Base.{ℕ, Bool, true, false, ◌&&◌, Option, none, some, if◌then◌else◌, ltb, str_eq}
use journeyman.Base.Text.{Json, Fields, end, field, obj, null, Python, is_falsy, find_field}

-- MAX_STATS_BYTES
abbrev pub max_stats_bytes : ℕ
max_stats_bytes = 1048576

abbrev pub is_object : Json → Bool
is_object (obj _) = true
is_object _ = false

-- `{host: values for host, values in custom.items() if host != "_run"}`
abbrev pub per_host : Fields → Fields
per_host end = end
per_host (field k v fs) = if str_eq k "_run" then per_host fs else field k v (per_host fs)

abbrev pub all_objects : Fields → Bool
all_objects end = true
all_objects (field k v fs) = is_object v && all_objects fs

-- `custom.get("_run", {})`, where a null also stands for the empty object
abbrev pub global_stats : Fields → Option Fields
global_stats custom = elim (find_field "_run" custom) [
  | none ↦ some end
  | some null ↦ some end
  | some (obj fs) ↦ some fs
  | some _ ↦ none
]

abbrev pub stats_result : Fields → Fields → Fields
stats_result end end = end
stats_result (field k v fs) end = field "data" (obj (field k v fs)) end
stats_result end (field k v fs) = field "per_host" (obj (field k v fs)) end
stats_result (field k v fs) (field j w gs) =
    field "data" (obj (field k v fs)) (field "per_host" (obj (field j w gs)) end)

-- `_json_safe_copy`: decoded JSON is JSON-safe, so the size is all that can fail
abbrev pub json_safe_copy : Python → Fields → Option Fields
json_safe_copy py fs = if ltb max_stats_bytes (py.json_size (obj fs)) then none else some fs

abbrev pub normalise_custom : Python → Json → Option Fields
normalise_custom py (obj custom) = elim (global_stats custom) [
  | none ↦ none
  | some run ↦
      if all_objects (per_host custom)
      then json_safe_copy py (stats_result run (per_host custom))
      else none
]
normalise_custom py _ = none

-- `none` stands for JobStatsError
abbrev pub normalise_object : Python → Json → Option Fields
normalise_object py (obj fs) = elim (find_field "custom" fs) [
  | some custom ↦ normalise_custom py custom
  | none ↦ normalise_custom py (obj fs)
]
normalise_object py _ = none

unfoldable pub normalise_ansible_custom_stats : Python → Json → Option Fields
normalise_ansible_custom_stats py payload =
    if is_falsy payload then some end else normalise_object py payload
