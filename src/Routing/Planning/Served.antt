-- ===== src/Routing/Planning/Served.antt =====
-- What `plan_step_execution_slices` answers: a partition of the target hosts, in which every host is
-- with the runner that its route names.
use journeyman.Base.{
  ℕ, ◌+◌, ◌≤◌, true, Option, none, some, List, [], ◌∷◌, String, ◌≡◌, refl, sym, subst, arith, All,
  All-append, count_if-append, Bool-cases, inl, inr, str_eq,
}
use journeyman.Base.Text.{Python, Fields}
use journeyman.Runner.{Runner, Requirement, is_subset}
use journeyman.Job.{Target}
use journeyman.Job.Columns.{required_set}
use journeyman.Routing.{Routed, routed, ◌>>=◌}
use journeyman.Routing.Crews.{Crew}
use journeyman.Routing.Planning.{
  Plan, same_key, add_host, local_group, group_of, require_runner_environment, Route, built_in,
  on_runner, by_crew, Grouped, add_remote, place, add_crew_hosts, route_of, group_hosts,
  resolve_crew,
}
use journeyman.Routing.Planning.Partition.{
  times, occurrences, routed-bind, routed-injective, occurrences-add_host, same_key_iff, rivals,
  rivals-add_host,
}

-- a target and a runner's id are those of a runner that has the required capabilities
pub record IsFor (required : List String) (runner : Runner) (target : Target) (id : Option ℕ)
    : Type 0 where
  pub remote : target ≡ Target.remote
  pub named : id ≡ some runner.id
  pub capable : is_subset required runner.capabilities ≡ true

-- where a route leads; `chosen` is the runner of the crew
unfoldable pub Takes : List String → Routed Runner → Route → Target → Option ℕ → Type 0
Takes required chosen built_in target id = (target ≡ Target.local) × (id ≡ none)
Takes required chosen (on_runner runner) target id = IsFor required runner target id
Takes required chosen by_crew target id =
    (runner : Runner) × (chosen ≡ routed runner) × IsFor required runner target id

module _ (py : Python) (capabilities : List String) (requirement : Option Requirement)
    (runners : List Runner) (default_runner : Option Runner) (default_crew : Option Crew)
    (chosen : Routed Runner) (vars : Fields) where
  abbrev routes : String → Routed Route
  routes h = route_of py capabilities requirement runners default_runner default_crew vars h

  -- a host of a slice is there because its route leads to the slice
  unfoldable pub Serves : Plan → String → Type 0
  Serves p h =
      (route : Route) × (routes h ≡ routed route)
      × Takes (required_set py capabilities) chosen route p.dispatch_target p.required_runner_id

  -- slices for all hosts but those that `rest` counts
  pub record IsPlanned (all : String → ℕ) (rest : String → ℕ) (ps : List Plan) : Type 0 where
    pub once : (h : String) → occurrences h ps + rest h ≡ all h
    pub separate : (k : Plan) → rivals k ps ≤ 1
    pub served : All (λ p. All (Serves p) p.hosts) ps

  Serves-key : (p q : Plan) (h : String) → same_key p q ≡ true → Serves q h → Serves p h
  unfolding Serves
  Serves-key p q h k (route, e, t) =
      let (target, id) = same_key_iff p q k in (route, e, subst₂ target id t)
    where
      subst₂ :
          p.dispatch_target ≡ q.dispatch_target
          → p.required_runner_id ≡ q.required_runner_id
          → Takes (required_set py capabilities) chosen route q.dispatch_target q.required_runner_id
          → Takes (required_set py capabilities) chosen route p.dispatch_target p.required_runner_id
      subst₂ a b t = rw (a, b) t

  served-add_host :
      (group : Plan) (host : String) (ps : List Plan)
      → group.hosts ≡ []
      → Serves group host
      → All (λ p. All (Serves p) p.hosts) ps
      → All (λ p. All (Serves p) p.hosts) (add_host group host ps)
  unfolding Serves
  served-add_host group host [] e s h = (rw e (s, tt), tt)
  served-add_host group host (p ∷ ps) e s h = elim (Bool-cases (same_key p group)) [
    | inl k ↦
        simp k
          ((All-append (Serves p) p.hosts (host ∷ []) h.0 (Serves-key p group host k s, tt), h.1))
    | inr k ↦ simp k (h.0, served-add_host group host ps e s h.1)
  ]

  add_host-IsPlanned :
      (all rest later : String → ℕ) (group : Plan) (host : String) (ps : List Plan)
      → group.hosts ≡ []
      → Serves group host
      → ((h : String) → rest h ≡ times h (host ∷ []) + later h)
      → IsPlanned all rest ps
      → IsPlanned all later (add_host group host ps)
  add_host-IsPlanned all rest later group host ps e s less inv = record {
    once = λ h. omega (arith, inv.once h, less h, occurrences-add_host h group host ps e);
    separate = λ k. ground (arith, inv.separate k, rivals-add_host k group host ps);
    served = served-add_host group host ps e s inv.served;
  }

  add_remote-routed :
      (runner : Runner) (host : String) (ps out : List Plan)
      → add_remote py capabilities requirement runner host ps ≡ routed out
      → (out ≡ add_host (group_of runner) host ps)
        × (is_subset (required_set py capabilities) runner.capabilities ≡ true)
  add_remote-routed runner host ps out h =
      elim (Bool-cases (is_subset (required_set py capabilities) runner.capabilities)) [
        | inr e ↦ absurd (ground arith)
        | inl e ↦
            let (installed, _, k) =
              routed-bind (require_runner_environment runner requirement) _ out (simp e at h) in
            (ground arith, e)
      ]

  -- the loop over the hosts, with `later` counting those that are still to come
  abbrev IsGrouped : (String → ℕ) → (String → ℕ) → Grouped → Type 0
  IsGrouped all later g =
      All (λ h. routes h ≡ routed by_crew) g.crew_hosts
      × IsPlanned all (λ h. times h g.crew_hosts + later h) g.groups

  place-IsGrouped :
      (all : String → ℕ) (route : Route) (host : String) (later : String → ℕ) (g out : Grouped)
      → routes host ≡ routed route
      → place py capabilities requirement route host g ≡ routed out
      → IsGrouped all (λ h. times h (host ∷ []) + later h) g
      → IsGrouped all later out
  unfolding Serves Takes
  place-IsGrouped all built_in host later g out r h (w, inv) =
      subst (IsGrouped all later) (routed-injective _ out h) (
        w,
        add_host-IsPlanned all _ _ local_group host g.groups refl (built_in, r, (refl, refl))
            (λ x. omega arith) inv,
      )
  place-IsGrouped all (on_runner runner) host later g out r h (w, inv) =
      let (ps, e, k) =
        routed-bind (add_remote py capabilities requirement runner host g.groups) _ out h in
      let (same, capable) = add_remote-routed runner host g.groups ps e in
      subst (IsGrouped all later) (routed-injective _ out k) (
        w,
        subst (IsPlanned all (λ x. times x g.crew_hosts + later x)) (sym same) (
            add_host-IsPlanned all _ _ (group_of runner) host g.groups refl
              (on_runner runner, r, record { remote = refl; named = refl; capable = capable })
              (λ x. omega arith) inv),
      )
  place-IsGrouped all by_crew host later g out r h (w, inv) =
      subst (IsGrouped all later) (routed-injective _ out h) (
        All-append (λ h. routes h ≡ routed by_crew) g.crew_hosts (host ∷ []) w (r, tt),
        record {
          once = λ x.
              omega (arith, inv.once x, count_if-append (λ y. str_eq y x) g.crew_hosts (host ∷ []));
          separate = inv.separate;
          served = inv.served;
        },
      )

  pub group_hosts-IsGrouped :
      (all : String → ℕ) (hosts : List String) (g out : Grouped)
      → group_hosts py capabilities requirement runners default_runner default_crew vars hosts g
        ≡ routed out
      → IsGrouped all (λ h. times h hosts) g
      → IsGrouped all (λ h. 0) out
  group_hosts-IsGrouped all [] g out h inv =
      subst (IsGrouped all (λ h. 0)) (routed-injective g out h) inv
  group_hosts-IsGrouped all (x ∷ xs) g out h (w, inv) =
      let (route, e, k) = routed-bind (routes x) _ out h in
      let (g', e', k') = routed-bind (place py capabilities requirement route x g) _ out k in
      group_hosts-IsGrouped all xs g' out k' (
        place-IsGrouped all route x (λ h. times h xs) g g' e e'
          (
            w,
            record {
              once = λ y. ground (arith, inv.once y);
              separate = inv.separate;
              served = inv.served;
            },
          ))

  add_crew_hosts-IsPlanned :
      (all : String → ℕ) (runner : Runner) (hosts : List String) (ps out : List Plan)
      → chosen ≡ routed runner
      → add_crew_hosts py capabilities requirement runner hosts ps ≡ routed out
      → All (λ h. routes h ≡ routed by_crew) hosts
      → IsPlanned all (λ h. times h hosts) ps
      → IsPlanned all (λ h. 0) out
  unfolding Serves Takes
  add_crew_hosts-IsPlanned all runner [] ps out c h w inv =
      subst (IsPlanned all (λ h. 0)) (routed-injective ps out h) inv
  add_crew_hosts-IsPlanned all runner (x ∷ xs) ps out c h w inv =
      let (more, e, k) = routed-bind (add_remote py capabilities requirement runner x ps) _ out h in
      let (same, capable) = add_remote-routed runner x ps more e in
      add_crew_hosts-IsPlanned all runner xs more out c k w.1 (
        subst (IsPlanned all (λ h. times h xs)) (sym same) (
          add_host-IsPlanned all _ _ (group_of runner) x ps refl
            (by_crew, w.0, (runner, c, record { remote = refl; named = refl; capable = capable }))
            (λ y. ground arith) inv))

  pub resolve_crew-IsPlanned :
      (all : String → ℕ) (g : Grouped) (out : List Plan)
      → resolve_crew py capabilities requirement runners default_runner default_crew chosen g
        ≡ routed out
      → IsGrouped all (λ h. 0) g
      → IsPlanned all (λ h. 0) out
  resolve_crew-IsPlanned all g out h (w, inv) =
      elim g.crew_hosts
          as (λ c.
            (elim c [
              | [] ↦ routed g.groups
              | x ∷ xs ↦
                  chosen >>= λ r. add_crew_hosts py capabilities requirement r (x ∷ xs) g.groups
            ])
              ≡ routed out
            → All (λ h. routes h ≡ routed by_crew) c
            → IsPlanned all (λ h. times h c + 0) g.groups
            → IsPlanned all (λ h. 0) out) [
              | [] ↦ λ h w inv. subst (IsPlanned all (λ h. 0)) (routed-injective g.groups out h) inv
              | x ∷ xs ↦ λ h w inv.
                  let (r, e, k) = routed-bind chosen _ out h in
                  add_crew_hosts-IsPlanned all r (x ∷ xs) g.groups out e k w (record {
                    once = λ y. omega (arith, inv.once y);
                    separate = inv.separate;
                    served = inv.served;
                  })
            ]
        h w inv
