-- ===== src/Draining/Ready.antt =====
-- When a management job may start: the second half of app/services/runner_draining.py, with
-- `find_runner_for_management` of app/services/runners.py. A job's package snapshot is the list of its
-- display values.
use journeyman.Base.{
  ℕ, Bool, true, false, ◌&&◌, ◌||◌, not, Option, none, some, List, [], ◌∷◌, String, any, map, keep,
  if◌then◌else◌, ◌==◌, str_eq,
}
use journeyman.Base.Text.{
  Json, obj, Python, is_empty, concat, text_or_empty, take_text, get, or_text,
}
use journeyman.Runner.{Runner}
use journeyman.Job.{Job}
use journeyman.Draining.{EnvironmentSync, Drained, request_runner_drain, runner_has_active_work}

-- `_management_values`: the action and the runner that the values name; later values win
pub record Management : Type 0 where
  pub action : String
  pub runner_name : String
  pub runner_host : String

abbrev pub no_values : Management
no_values = record { action = ""; runner_name = ""; runner_host = "" }

-- `value.split(".", 1)[0]`
abbrev pub first_label : String → String
first_label String.[] = ""
first_label (String.◌∷◌ c s) =
    let rest = first_label s in
    if str_eq (String.◌∷◌ c String.[]) "." then "" else String.◌∷◌ c rest

module _ (py : Python) where
  abbrev pub read_value : Json → Management → Management
  read_value (obj item) m =
      let variable = text_or_empty py (get item "variable_name") in
      let value = py.strip (text_or_empty py (get item "value")) in
      if str_eq variable "journeyman_manage_action"
      then record m { action = take_text 32 (py.lower value) }
      else if str_eq variable "journeyman_runner_name"
      then record m { runner_name = value }
      else if str_eq variable "journeyman_runner_host"
      then record m { runner_host = value }
      else m
  read_value v m = m

  abbrev pub read_values : List Json → Management → Management
  read_values [] m = m
  read_values (v ∷ vs) m = read_values vs (read_value v m)

  -- without a snapshot, or with one that cannot be decoded, nothing is read
  abbrev pub management_values : Option (List Json) → Management
  management_values none = no_values
  management_values (some values) = read_values values no_values

  -- `value.split(".", 1)[0].lower()`
  abbrev pub short_name : String → String
  short_name value = py.lower (first_label value)

  abbrev pub has_short_name : String → Runner → Bool
  has_short_name short runner =
      any (λ name. str_eq (short_name name) short && not (is_empty (py.strip name)))
        (runner.name ∷ runner.hostname ∷ [])

  -- one row, or none for RunnerRemovalError
  abbrev pub only_row : List Runner → Option Runner
  only_row (r ∷ []) = some r
  only_row rows = none

  abbrev pub find_short : List Runner → String → Option Runner
  find_short runners value = only_row (keep (has_short_name (short_name value)) runners)

  abbrev pub find_exact : List Runner → String → List Runner → Option Runner
  find_exact runners value [] = find_short runners value
  find_exact runners value (r ∷ rs) = only_row (r ∷ rs)

  -- `find_runner_for_management`
  unfoldable pub find_runner_for_management : List Runner → String → Option Runner
  find_runner_for_management runners reference =
      let value = py.strip reference in
      if is_empty value
      then none
      else find_exact runners value (
          keep (λ r. str_eq r.name value || str_eq r.hostname value || str_eq r.runner_uuid value)
            runners)

  abbrev pub is_draining_action : String → Bool
  is_draining_action action =
      str_eq action "update" || str_eq action "unregister" || str_eq action "delete"

  -- the runner that `management_job_target` answers, for a job with these values
  unfoldable pub management_job_target : List Runner → Management → Option Runner
  management_job_target runners m =
      if not (is_draining_action m.action) || is_empty (or_text m.runner_name m.runner_host)
      then none
      else find_runner_for_management runners (or_text m.runner_name m.runner_host)

-- `job.message = …` on the row of the job
abbrev pub put_message : ℕ → String → List Job → List Job
put_message id message jobs =
    map (λ j. if j.id == id then record j { message = message } else j) jobs

abbrev pub ready_after : List EnvironmentSync → ℕ → Runner → Drained → Drained
ready_after syncs job_id runner d =
    if not d.granted
    then record d {
      jobs =
          put_message job_id
            (concat (
              "Waiting: target runner " ∷ runner.name
              ∷ " is already draining for another management Job." ∷ []))
            d.jobs;
    }
    else if runner_has_active_work d.jobs syncs runner
    then record d {
      granted = false;
      jobs =
          put_message job_id
            (concat ("Waiting for target runner " ∷ runner.name ∷ " to drain." ∷ [])) d.jobs;
    }
    else record d {
      jobs =
          put_message job_id
            (concat
              ("Target runner " ∷ runner.name ∷ " drained; management operation may start." ∷ []))
            d.jobs;
    }

abbrev pub ready_with :
    ℕ → List Runner → List Job → List EnvironmentSync → ℕ → String → Option Runner → Drained
ready_with now runners jobs syncs job_id action none = record {
  granted = true;
  runners = runners;
  jobs = jobs;
}
ready_with now runners jobs syncs job_id action (some runner) =
    ready_after syncs job_id runner (request_runner_drain now runners jobs runner job_id action)

-- `values` are the display values of the job's package snapshot
unfoldable pub management_job_ready_to_start :
    Python → ℕ → List Runner → List Job → List EnvironmentSync → Option (List Json) → ℕ → Drained
management_job_ready_to_start py now runners jobs syncs values job_id =
    let m = management_values py values in
    ready_with now runners jobs syncs job_id m.action (management_job_target py runners m)
