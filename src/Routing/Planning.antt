-- ===== src/Routing/Planning.antt =====
-- The execution slices of a step: `plan_step_execution_slices` of
-- app/services/execution_slices.py.
pub mod Partition
pub mod Served
pub mod Answer
pub mod Rows
use journeyman.Base.{
  ℕ, suc, Bool, true, false, ◌&&◌, not, Option, none, some, List, [], ◌∷◌, ◌++◌, String, map,
  length, keep, if◌then◌else◌, ltb, leb, opt_eq, sort_with,
}
use journeyman.Base.Text.{Json, Fields, end, Python, is_empty, concat, join_commas, find_field}
use Prim.Native.String.{compare}
use text.Mathlib.Text.{is_le, is_lt}
use journeyman.Runner.{
  Runner, Requirement, EnvironmentState, ready, building, failed, out_of_date, not_installed,
  is_subset, runner_environment_state, runner_environment_ready,
}
use journeyman.Job.{Target}
use journeyman.Job.Columns.{required_set}
use journeyman.Lifecycle.Report.{sorted_hosts}
use journeyman.Routing.{
  Routed, routed, unroutable, raised, ◌>>=◌, fields_of, hostvars, is_local_target_host,
  runner_reference, is_builtin_runner_reference, registered_remote_runner, unknown_runner,
}
use journeyman.Routing.Crews.{Crew, Loads, select_crew_runner}

-- StepExecutionSlicePlan, and also a value of the dictionary `groups`: its key is the target and the
-- runner's id
pub record Plan : Type 0 where
  pub dispatch_target : Target
  pub required_runner_id : Option ℕ
  pub runner_name : String
  pub runner_hostname : String
  pub hosts : List String

abbrev pub same_target : Target → Target → Bool
same_target Target.local Target.local = true
same_target Target.remote Target.remote = true
same_target Target.sliced Target.sliced = true
same_target _ _ = false

abbrev pub same_key : Plan → Plan → Bool
same_key p q =
    same_target p.dispatch_target q.dispatch_target
    && opt_eq p.required_runner_id q.required_runner_id

-- `groups.setdefault(key, group)["hosts"].append(host)`, where the group is new and has no hosts
abbrev pub add_host : Plan → String → List Plan → List Plan
add_host group host [] = record group { hosts = group.hosts ++ host ∷ [] } ∷ []
add_host group host (p ∷ ps) =
    let later = add_host group host ps in
    if same_key p group then record p { hosts = p.hosts ++ host ∷ [] } ∷ ps else p ∷ later

abbrev pub local_group : Plan
local_group = record {
  dispatch_target = Target.local;
  required_runner_id = none;
  runner_name = "local";
  runner_hostname = "localhost";
  hosts = [];
}

abbrev pub group_of : Runner → Plan
group_of runner = record {
  dispatch_target = Target.remote;
  required_runner_id = some runner.id;
  runner_name = runner.name;
  runner_hostname = runner.hostname;
  hosts = [];
}

-- `state.replace("_", " ")`
abbrev pub state_words : EnvironmentState → String
state_words ready = "ready"
state_words building = "building"
state_words failed = "failed"
state_words out_of_date = "out of date"
state_words not_installed = "not installed"

-- `require_runner_environment`
abbrev pub require_runner_environment : Runner → Option Requirement → Routed (Unit {0})
require_runner_environment runner none = routed tt
require_runner_environment runner (some requirement) =
    if runner_environment_ready runner (some requirement)
    then routed tt
    else unroutable (
        concat (
          "Runner \""
          ∷ runner.name
          ∷ "\" does not have execution environment \""
          ∷ requirement.name
          ∷ "\" ready ("
          ∷ state_words (runner_environment_state runner (some requirement))
          ∷ ")."
          ∷ []))

-- where a host goes: to the built-in runner, to a remote one, or with the hosts of the crew
pub data Route : Type 0 where
  built_in : Route
  on_runner : Runner → Route
  by_crew : Route

-- what the loop has so far: `groups` and `crew_hosts`
pub record Grouped : Type 0 where
  pub groups : List Plan
  pub crew_hosts : List String

abbrev pub target_rank : Target → ℕ
target_rank Target.local = 0
target_rank _ = 1

abbrev pub id_or_zero : Option ℕ → ℕ
id_or_zero none = 0
id_or_zero (some n) = n

-- `sort_key(p) <= sort_key(q)`, on the tuples
abbrev pub text_before : String → String → Bool → Bool
text_before s t rest =
    if is_lt (compare s t) then true else if is_lt (compare t s) then false else rest

unfoldable pub plan_before : Python → Plan → Plan → Bool
plan_before py p q =
    let ids = leb (id_or_zero p.required_runner_id) (id_or_zero q.required_runner_id) in
    let hostnames = text_before (py.lower p.runner_hostname) (py.lower q.runner_hostname) ids in
    let names = text_before (py.lower p.runner_name) (py.lower q.runner_name) hostnames in
    if ltb (target_rank p.dispatch_target) (target_rank q.dispatch_target)
    then true
    else if ltb (target_rank q.dispatch_target) (target_rank p.dispatch_target)
    then false
    else names

-- the tuple of the answer
abbrev pub sorted_texts : List String → List String
sorted_texts hosts = sort_with (λ a b. is_le (compare a b)) hosts

abbrev pub sort_hosts : Plan → Plan
sort_hosts p = record p { hosts = sorted_texts p.hosts }

abbrev pub sort_plans : Python → List Plan → List Plan
sort_plans py groups = map sort_hosts (sort_with (plan_before py) groups)

module _ (py : Python) (capabilities : List String) (requirement : Option Requirement) where
  abbrev pub lacks : Runner → String
  lacks runner = concat (
      "Runner \""
      ∷ runner.name
      ∷ "\" does not provide required execution capabilities: "
      ∷ join_commas (sorted_hosts (required_set py capabilities))
      ∷ "."
      ∷ [])

  -- `add_remote`
  abbrev pub add_remote : Runner → String → List Plan → Routed (List Plan)
  add_remote runner host groups =
      if not (is_subset (required_set py capabilities) runner.capabilities)
      then unroutable (lacks runner)
      else do
        installed ← require_runner_environment runner requirement
        routed (add_host (group_of runner) host groups)

  -- what the loop does with a host, by its route
  abbrev pub place : Route → String → Grouped → Routed Grouped
  place built_in host g = routed (record g { groups = add_host local_group host g.groups })
  place (on_runner runner) host g = do
    groups ← add_remote runner host g.groups
    routed (record g { groups = groups })
  place by_crew host g = routed (record g { crew_hosts = g.crew_hosts ++ host ∷ [] })

  -- the last loop
  abbrev pub add_crew_hosts : Runner → List String → List Plan → Routed (List Plan)
  add_crew_hosts runner [] groups = routed groups
  add_crew_hosts runner (h ∷ hs) groups = do
    more ← add_remote runner h groups
    add_crew_hosts runner hs more

  module _ (runners : List Runner) (default_runner : Option Runner)
      (default_crew : Option Crew) where
    -- the rules behind an explicit reference
    abbrev pub default_route : Option Runner → Option Crew → Route
    default_route (some runner) crew = on_runner runner
    default_route none (some crew) = by_crew
    default_route none none = built_in

    abbrev pub explicit_route : String → String → Routed Route
    explicit_route host reference =
        if is_builtin_runner_reference py reference
        then routed built_in
        else if is_empty reference
        then routed (default_route default_runner default_crew)
        else elim (registered_remote_runner py runners reference) [
          | none ↦ unroutable (unknown_runner py host reference)
          | some runner ↦ routed (on_runner runner)
        ]

    -- `variables` of a host
    abbrev pub host_variables : Fields → String → Fields
    host_variables vars host = elim (find_field host vars) [ none ↦ end | some v ↦ fields_of v ]

    -- the body of the loop up to the group that takes the host
    unfoldable pub route_of : Fields → String → Routed Route
    route_of vars host =
        if is_local_target_host py host (host_variables vars host) then routed built_in else do
          reference ← runner_reference py (host_variables vars host)
          explicit_route host reference

    -- the loop over the hosts
    abbrev pub group_hosts : Fields → List String → Grouped → Routed Grouped
    group_hosts vars [] g = routed g
    group_hosts vars (h ∷ hs) g = do
      route ← route_of vars h
      more ← place route h g
      group_hosts vars hs more

    -- the runner that the crew gives is asked for only if a host goes to the crew
    abbrev pub resolve_crew : Routed Runner → Grouped → Routed (List Plan)
    resolve_crew chosen g = elim g.crew_hosts [
      | [] ↦ routed g.groups
      | h ∷ hs ↦ do runner ← chosen; add_crew_hosts runner (h ∷ hs) g.groups
    ]

    abbrev pub plan_routed : Routed Runner → List String → Fields → Routed (List Plan)
    plan_routed chosen targets vars = do
      grouped ← group_hosts vars (sorted_hosts targets) (record { groups = []; crew_hosts = [] })
      groups ← resolve_crew chosen grouped
      routed (sort_plans py groups)

    unfoldable pub plan_step_execution_slices :
        Loads → (ℕ → ℕ) → ℕ → Json → List String → Routed (List Plan)
    plan_step_execution_slices loads additional now inventory targets = do
      vars ← hostvars inventory
      plan_routed (select_crew_runner py loads additional now default_crew capabilities requirement)
          targets vars
