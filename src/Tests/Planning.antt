-- ===== src/Tests/Planning.antt =====
-- Witnesses on the routing of hosts, Runner Crews and the columns of a slice.
use journeyman.Base.{
  ℕ, true, none, some, List, [], ◌∷◌, String, ◌≡◌, refl, ltb, if◌then◌else◌, length, str_eq,
}
use journeyman.Base.Text.{Json, Fields, end, field, obj, str}
use journeyman.Tests.{plain, runner}
use journeyman.Lifecycle.Report.{member, sorted_hosts}
use journeyman.Job.{Target}
use journeyman.Job.Columns.{
  JsonText, IsText, hosts_value, stripped, required_set, set_hosts, get_hosts,
  set_required_capabilities, get_required_capabilities, get_hosts-set_hosts,
  get_required_capabilities-set_required_capabilities,
}
use journeyman.Routing.{Routed, routed, hostvars}
use journeyman.Routing.Crews.{Crew, Loads, select_crew_runner}
use journeyman.Routing.Crews.LeastBusy.{IsSelection, select_crew_runner-IsSelection}
use journeyman.Routing.Planning.{Plan, plan_step_execution_slices, route_of, plan_before}
use journeyman.Routing.Planning.Served.{IsPlanned}
use journeyman.Routing.Planning.Answer.{plan_step_execution_slices-IsPartition}

-- loads that are whole numbers, all unknown
abbrev no_loads : Loads
no_loads = record { Load = ℕ; is_below = ltb; one_minute = λ r. none; five_minutes = λ r. none }

abbrev crew : Crew
crew = record { id = 1; name = "edges"; enabled = true; runners = runner ∷ [] }

select_crew_runner-IsSelection_example :
    IsSelection plain no_loads
      (λ i. 0)
      1000
      crew
      []
      none
      (select_crew_runner plain no_loads (λ i. 0) 1000 (some crew) [] none)
select_crew_runner-IsSelection_example =
    select_crew_runner-IsSelection plain no_loads (λ i. 0) 1000 crew [] none

-- one host asks for the runner by its name, the other for nothing
abbrev inventory : Json
inventory = obj (
    field "_meta"
      (obj (
        field "hostvars"
          (obj (
            field "db1" (obj (field "journeyman_runner" (str "edge") end))
              (field "web1" (obj end) end)))
          end))
      end)

abbrev plan_of : List String → Routed (List Plan)
plan_of targets =
    plan_step_execution_slices plain [] none (runner ∷ []) none none no_loads (λ i. 0) 1000
      inventory targets

abbrev local_plan : Plan
local_plan = record {
  dispatch_target = Target.local;
  required_runner_id = none;
  runner_name = "local";
  runner_hostname = "localhost";
  hosts = "web1" ∷ [];
}

abbrev edge_plan : Plan
edge_plan = record {
  dispatch_target = Target.remote;
  required_runner_id = some 7;
  runner_name = "edge";
  runner_hostname = "edge.example";
  hosts = "db1" ∷ [];
}

is_planned : plan_of ("web1" ∷ "db1" ∷ "web1" ∷ []) ≡ routed (local_plan ∷ edge_plan ∷ [])
unfolding plan_step_execution_slices route_of plan_before
is_planned = refl

plan_step_execution_slices-IsPartition_example :
    (vars : Fields) × (hostvars inventory ≡ routed vars)
    × IsPlanned plain [] none
        (runner ∷ [])
        none
        none
        (select_crew_runner plain no_loads (λ i. 0) 1000 none [] none)
        vars
        (λ h. if member h ("web1" ∷ "db1" ∷ "web1" ∷ []) then 1 else 0)
        (λ h. 0)
        (local_plan ∷ edge_plan ∷ [])
plan_step_execution_slices-IsPartition_example =
    plan_step_execution_slices-IsPartition plain [] none (runner ∷ []) none none no_loads (λ i. 0)
      1000 inventory ("web1" ∷ "db1" ∷ "web1" ∷ []) (local_plan ∷ edge_plan ∷ []) is_planned

plain-IsText : IsText plain
plain-IsText = record {
  text_of_str = λ s. refl;
  strip_strip = λ s. refl;
  strip_lower = λ s. refl;
  lower_lower = λ s. refl;
  lower_not_empty = λ s. refl;
}

abbrev two_hosts : List String
two_hosts = "web2" ∷ "web1" ∷ "web2" ∷ []

-- the one text that is stored here
abbrev stored_text : String
stored_text = "[\"web1\",\"web2\"]"

abbrev small_json : JsonText
small_json = record {
  loads = λ text. if str_eq text stored_text then some (hosts_value plain two_hosts) else none;
  dumps = λ v. stored_text;
}

get_hosts-set_hosts_example :
    (get_hosts plain small_json (set_hosts plain small_json two_hosts).0
      ≡ sorted_hosts (stripped plain two_hosts))
    × ((set_hosts plain small_json two_hosts).1
        ≡ length (get_hosts plain small_json (set_hosts plain small_json two_hosts).0))
get_hosts-set_hosts_example =
    get_hosts-set_hosts plain small_json plain-IsText two_hosts
      (record { loads_dumps = refl; dumps_not_empty = refl })

get_required_capabilities-set_required_capabilities_example :
    get_required_capabilities plain small_json
      (set_required_capabilities plain small_json two_hosts)
    ≡ sorted_hosts (required_set plain two_hosts)
get_required_capabilities-set_required_capabilities_example =
    get_required_capabilities-set_required_capabilities plain small_json plain-IsText two_hosts
      (record { loads_dumps = refl; dumps_not_empty = refl })
