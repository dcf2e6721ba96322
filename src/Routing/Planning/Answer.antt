-- ===== src/Routing/Planning/Answer.antt =====
-- The answer of `plan_step_execution_slices`, after its groups are sorted.
use journeyman.Base.{
  ℕ, Option, List, [], ◌∷◌, String, ◌≡◌, arith, map, All, sort_with-All, sort_with, subst,
  if◌then◌else◌,
}
use journeyman.Base.Text.{Python, Json, Fields}
use Prim.Native.String.{compare}
use text.Mathlib.Text.{is_le}
use journeyman.Runner.{Runner, Requirement}
use journeyman.Lifecycle.Report.{member, sorted_hosts}
use journeyman.Routing.{Routed, routed, hostvars}
use journeyman.Routing.Crews.{Crew, Loads, select_crew_runner}
use journeyman.Routing.Planning.{
  Plan, group_hosts, resolve_crew, sort_plans, sort_hosts, plan_before, plan_routed,
  plan_step_execution_slices,
}
use journeyman.Routing.Planning.Partition.{
  routed-bind, routed-injective, times-sorted_hosts, occurrences-sort_plans, rivals-sort_plans,
}
use journeyman.Routing.Planning.Served.{
  Serves, IsPlanned, group_hosts-IsGrouped, resolve_crew-IsPlanned,
}

module _ (py : Python) (capabilities : List String) (requirement : Option Requirement)
    (runners : List Runner) (default_runner : Option Runner) (default_crew : Option Crew)
    (chosen : Routed Runner) (vars : Fields) where
  -- a slice serves its hosts
  abbrev Good : Plan → Type 0
  Good p =
      All (Serves py capabilities requirement runners default_runner default_crew chosen vars p)
        p.hosts

  abbrev Planned : (String → ℕ) → List Plan → Type 0
  Planned all ps =
      IsPlanned py capabilities requirement runners default_runner default_crew chosen vars all
        (λ h. 0) ps

  sort_hosts-Good : (ps : List Plan) → All Good ps → All Good (map sort_hosts ps)
  unfolding Serves
  sort_hosts-Good [] h = tt
  sort_hosts-Good (p ∷ ps) h = (
    sort_with-All (λ a b. is_le (compare a b))
        (Serves py capabilities requirement runners default_runner default_crew chosen vars p)
        p.hosts h.0,
    sort_hosts-Good ps h.1,
  )

  sort_plans-Planned :
      (all : String → ℕ) (ps : List Plan) → Planned all ps → Planned all (sort_plans py ps)
  sort_plans-Planned all ps inv = record {
    once = λ h. omega (arith, occurrences-sort_plans py h ps, inv.once h);
    separate = λ k. omega (arith, rivals-sort_plans py k ps, inv.separate k);
    served =
        sort_hosts-Good (sort_with (plan_before py) ps)
          (sort_with-All (plan_before py) Good ps inv.served);
  }

  plan_routed-Planned :
      (targets : List String) (plans : List Plan)
      → plan_routed py capabilities requirement runners default_runner default_crew chosen targets
          vars
        ≡ routed plans
      → Planned (λ h. if member h targets then 1 else 0) plans
  plan_routed-Planned targets plans h =
      let (g, e, k) =
        routed-bind
          (group_hosts py capabilities requirement runners default_runner default_crew vars
            (sorted_hosts targets) (record { groups = []; crew_hosts = [] }))
          _ plans h in
      let (ps, e', k') =
        routed-bind
          (resolve_crew py capabilities requirement runners default_runner default_crew chosen g) _
          plans k in
      subst (Planned (λ h. if member h targets then 1 else 0)) (routed-injective _ plans k') (
        sort_plans-Planned (λ h. if member h targets then 1 else 0) ps
          (resolve_crew-IsPlanned py capabilities requirement runners default_runner default_crew
            chosen vars (λ h. if member h targets then 1 else 0) g ps e'
            (group_hosts-IsGrouped py capabilities requirement runners default_runner default_crew
              chosen vars (λ h. if member h targets then 1 else 0) (sorted_hosts targets) _ g e
              (
                tt,
                record {
                  once = λ h. omega (arith, times-sorted_hosts h targets);
                  separate = λ k. omega arith;
                  served = tt;
                },
              ))))

-- A plan that `plan_step_execution_slices` answers is a partition of the target hosts: every target
-- host stands in the slices once, no other host does, no two slices are for one runner, and each host
-- is in the slice of the runner that its route names (for a host of the crew, the runner that
-- `select_crew_runner` gives), which has the required capabilities if it is remote.
pub plan_step_execution_slices-IsPartition :
    (py : Python) (capabilities : List String) (requirement : Option Requirement)
    (runners : List Runner) (default_runner : Option Runner) (default_crew : Option Crew)
    (loads : Loads) (additional : ℕ → ℕ) (now : ℕ) (inventory : Json) (targets : List String)
    (plans : List Plan)
    → plan_step_execution_slices py capabilities requirement runners default_runner default_crew
        loads additional now inventory targets
      ≡ routed plans
    → (vars : Fields) × (hostvars inventory ≡ routed vars)
      × IsPlanned py capabilities requirement runners default_runner default_crew
          (select_crew_runner py loads additional now default_crew capabilities requirement)
          vars
          (λ h. if member h targets then 1 else 0)
          (λ h. 0)
          plans
unfolding plan_step_execution_slices
plan_step_execution_slices-IsPartition py capabilities requirement runners default_runner
      default_crew loads additional now inventory targets plans h =
    let (vars, e, k) = routed-bind (hostvars inventory) _ plans h in
    (
      vars,
      e,
      plan_routed-Planned py capabilities requirement runners default_runner default_crew
          (select_crew_runner py loads additional now default_crew capabilities requirement) vars
          targets plans k,
    )
