-- ===== src/Routing/Crews.antt =====
-- Runner Crews: app/services/runner_crews.py and app/models/runner_crew.py, with
-- `validate_default_runner_crew` of app/services/inventory_runner_routing.py.
pub mod LeastBusy
use journeyman.Base.{
  ℕ, ◌+◌, Bool, true, false, ◌&&◌, ◌||◌, not, Option, none, some, List, [], ◌∷◌, String, any, keep,
  map, first, if◌then◌else◌, ◌==◌, ltb, leb, is_none,
}
use journeyman.Base.Text.{Python, is_empty, concat, join_commas, or_text}
use Prim.Native.String.{compare}
use text.Mathlib.Text.{is_lt}
use journeyman.Runner.{
  Runner, Requirement, Health, runner_health, is_healthy, is_subset, runner_environment_ready,
}
use journeyman.Job.Columns.{required_set}
use journeyman.Lifecycle.Report.{sorted_hosts}
use journeyman.Routing.{Routed, routed, unroutable}

-- the members in the order of their names
pub record Crew : Type 0 where
  pub id : ℕ
  pub name : String
  pub enabled : Bool
  pub runners : List Runner

abbrev pub no_default_crew : String
no_default_crew =
    "The Project default Runner Crew no longer exists or is disabled. Edit the Project and select a valid execution destination."

-- `validate_default_runner_crew`, with the row of `default_runner_crew_id`
abbrev pub default_crew_of : Option Crew → Routed (Option Crew)
default_crew_of none = unroutable no_default_crew
default_crew_of (some crew) =
    if not crew.enabled then unroutable no_default_crew else elim crew.runners [
      | [] ↦
          unroutable
            (concat ("The Project default Runner Crew \"" ∷ crew.name ∷ "\" has no members." ∷ []))
      | r ∷ rs ↦ routed (some crew)
    ]

unfoldable pub validate_default_runner_crew : List Crew → Option ℕ → Routed (Option Crew)
validate_default_runner_crew crews none = routed none
validate_default_runner_crew crews (some id) = default_crew_of (first (λ c. c.id == id) crews)

-- the tests of the loop, on one member
unfoldable pub is_eligible_member : ℕ → List String → Option Requirement → Runner → Bool
is_eligible_member now required requirement runner =
    not (runner.is_local || not runner.enabled || not runner.is_registered)
    && is_healthy (runner_health now runner)
    && not (leb runner.max_concurrent_steps runner.running_steps)
    && is_subset required runner.capabilities
    && (is_none requirement || runner_environment_ready runner requirement)

abbrev pub eligible_crew_runners :
    Python → ℕ → Option Crew → List String → Option Requirement → List Runner
eligible_crew_runners py now none capabilities requirement = []
eligible_crew_runners py now (some crew) capabilities requirement =
    if not crew.enabled
    then []
    else keep (is_eligible_member now (required_set py capabilities) requirement) crew.runners

-- The load averages are floating-point numbers: `Load` with their order, and `normalized_load` with
-- 1 and 5 minutes, where `none` is an unknown load.
pub record Loads : Type 1 where
  pub Load : Type 0
  pub is_below : Load → Load → Bool
  pub one_minute : Runner → Option Load
  pub five_minutes : Runner → Option Load

-- `runner.running_steps + additional_loads.get(runner.id, 0)`
abbrev pub planned_load : (ℕ → ℕ) → Runner → ℕ
planned_load additional runner = runner.running_steps + additional runner.id

module _ (py : Python) (loads : Loads) (additional : ℕ → ℕ) where
  -- a known load stands before an unknown one; `rest` compares what stands behind the loads
  abbrev pub load_less : Option loads.Load → Option loads.Load → Bool → Bool
  load_less none none rest = rest
  load_less (some a) none rest = true
  load_less none (some b) rest = false
  load_less (some a) (some b) rest =
      if loads.is_below a b then true else if loads.is_below b a then false else rest

  abbrev pub name_less : Runner → Runner → Bool
  name_less r s =
      if is_lt (compare (py.lower r.name) (py.lower s.name))
      then true
      else if is_lt (compare (py.lower s.name) (py.lower r.name))
      then false
      else ltb r.id s.id

  -- `score(r) < score(s)`, on the tuples
  unfoldable pub score_less : Runner → Runner → Bool
  score_less r s =
      if ltb (planned_load additional r) (planned_load additional s)
      then true
      else if ltb (planned_load additional s) (planned_load additional r)
      then false
      else load_less (loads.one_minute r) (loads.one_minute s)
          (load_less (loads.five_minutes r) (loads.five_minutes s) (name_less r s))

  -- `min(eligible, key=score)`: the first of the least
  abbrev pub least : Runner → List Runner → Runner
  least best [] = best
  least best (r ∷ rs) = least (if score_less r best then r else best) rs

  abbrev pub crew_name : Option Crew → String
  crew_name none = ""
  crew_name (some crew) = crew.name

  abbrev pub requirement_text : Option Requirement → String → String
  requirement_text none required = required
  requirement_text (some r) required =
      concat (required ∷ " and execution environment \"" ∷ r.name ∷ "\" ready" ∷ [])

  abbrev pub nobody : Option Crew → List String → Option Requirement → String
  nobody crew capabilities requirement = concat (
      "Runner Crew \""
      ∷ crew_name crew
      ∷ "\" has no healthy available runners satisfying "
      ∷ requirement_text requirement
          (or_text (join_commas (sorted_hosts capabilities)) "required capabilities")
      ∷ "."
      ∷ [])

  abbrev pub choose : String → List Runner → Routed Runner
  choose message [] = unroutable message
  choose message (r ∷ rs) = routed (least r rs)

  -- `select_crew_runner`; RunnerCrewSelectionError is `unroutable` here, which is what its callers make
  -- of it
  unfoldable pub select_crew_runner :
      ℕ → Option Crew → List String → Option Requirement → Routed Runner
  select_crew_runner now crew capabilities requirement =
      choose (nobody crew capabilities requirement)
        (eligible_crew_runners py now crew capabilities requirement)
