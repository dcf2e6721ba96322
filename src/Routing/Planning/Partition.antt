-- ===== src/Routing/Planning/Partition.antt =====
-- Every target host is in exactly one slice of the plan, and every runner has at most one slice.
use journeyman.Base.{
  ℕ, ◌+◌, true, ◌&&◌, Option, none, some, List, [], ◌∷◌, String, ◌≡◌, refl, ap, ◌∙◌, arith, map,
  count_if, count_if-append, count_if-sort_with, Bool-cases, inl, inr, if◌then◌else◌, ◌==◌, opt_eq,
  str_eq, eq_iff, sort_with, insert_with,
}
use journeyman.Base.Text.{Python}
use Prim.Native.String.{compare}
use text.Mathlib.Text.{is_le}
use journeyman.Job.{Target}
use journeyman.Lifecycle.Report.{member, distinct, sorted_hosts}
use journeyman.Routing.{Routed, routed, unroutable, raised, ◌>>=◌}
use journeyman.Routing.Planning.{
  Plan, same_target, same_key, add_host, sort_plans, sort_hosts, plan_before,
}

-- how often a host stands in a list, and in the slices
abbrev pub times : String → List String → ℕ
times h hosts = count_if (λ x. str_eq x h) hosts

abbrev pub occurrences : String → List Plan → ℕ
occurrences h [] = 0
occurrences h (p ∷ ps) = times h p.hosts + occurrences h ps

-- `m >>= f` gives a value only through a value of `m`
pub routed-bind {ℓ κ} :
    {A : Type ℓ} {B : Type κ} (m : Routed A) (f : A → Routed B) (b : B)
    → (m >>= f) ≡ routed b
    → (a : A) × (m ≡ routed a) × (f a ≡ routed b)
routed-bind (routed a) f b h = (a, refl, h)
routed-bind (unroutable e) f b h = absurd (cc)
routed-bind raised f b h = absurd (cc)

pub routed-injective {ℓ} : {A : Type ℓ} (a b : A) → routed a ≡ routed b → a ≡ b
routed-injective a b h = cc

times-distinct :
    (h : String) (hosts : List String)
    → times h (distinct hosts) ≡ (if member h hosts then 1 else 0)
times-distinct h [] = refl
times-distinct h (x ∷ xs) = elim (Bool-cases (str_eq x h)) [
  | inr e ↦ ground (arith, times-distinct h xs)
  | inl e ↦ ground (arith, times-distinct h xs, ap (λ y. member y xs) ((eq_iff x h).0 e))
]

pub times-sorted_hosts :
    (h : String) (hosts : List String)
    → times h (sorted_hosts hosts) ≡ (if member h hosts then 1 else 0)
times-sorted_hosts h hosts =
    count_if-sort_with (λ a b. is_le (compare a b)) (λ x. str_eq x h) (distinct hosts)
    ∙ times-distinct h hosts

pub occurrences-add_host :
    (h : String) (group : Plan) (host : String) (ps : List Plan)
    → group.hosts ≡ []
    → occurrences h (add_host group host ps) ≡ occurrences h ps + times h (host ∷ [])
occurrences-add_host h group host [] e = simp e (omega arith)
occurrences-add_host h group host (p ∷ ps) e = ground (
  arith,
  occurrences-add_host h group host ps e,
  count_if-append (λ x. str_eq x h) p.hosts (host ∷ []),
)

pub occurrences-sort_plans :
    (py : Python) (h : String) (ps : List Plan)
    → occurrences h (sort_plans py ps) ≡ occurrences h ps
occurrences-sort_plans py h ps = of_hosts (sort_with (plan_before py) ps) ∙ of_sorted ps
  where
    of_hosts : (qs : List Plan) → occurrences h (map sort_hosts qs) ≡ occurrences h qs
    of_hosts [] = refl
    of_hosts (q ∷ qs) = omega (
      arith,
      of_hosts qs,
      count_if-sort_with (λ a b. is_le (compare a b)) (λ x. str_eq x h) q.hosts,
    )

    of_insert :
        (p : Plan) (qs : List Plan)
        → occurrences h (insert_with (plan_before py) p qs) ≡ times h p.hosts + occurrences h qs
    of_insert p [] = refl
    of_insert p (q ∷ qs) = ground (arith, of_insert p qs)

    of_sorted : (qs : List Plan) → occurrences h (sort_with (plan_before py) qs) ≡ occurrences h qs
    of_sorted [] = refl
    of_sorted (q ∷ qs) = omega (arith, of_insert q (sort_with (plan_before py) qs), of_sorted qs)

-- a key has one group at most, and grouping keeps this
opt_eq_iff : (a b : Option ℕ) → opt_eq a b ≡ true → a ≡ b
opt_eq_iff none none h = refl
opt_eq_iff none (some b) h = absurd (cc)
opt_eq_iff (some a) none h = absurd (cc)
opt_eq_iff (some a) (some b) h = ap some (ground arith)

same_target_iff : (a b : Target) → same_target a b ≡ true → a ≡ b
same_target_iff a b h = ground arith

pub same_key_iff :
    (p q : Plan)
    → same_key p q ≡ true
    → (p.dispatch_target ≡ q.dispatch_target) × (p.required_runner_id ≡ q.required_runner_id)
same_key_iff p q h = (
  same_target_iff p.dispatch_target q.dispatch_target (ground arith),
  opt_eq_iff p.required_runner_id q.required_runner_id (ground arith),
)

same_key-left : (k p q : Plan) → same_key p q ≡ true → same_key p k ≡ same_key q k
same_key-left k p q h =
    let (t, r) = same_key_iff p q h in
    ap (λ x. same_target x k.dispatch_target && opt_eq p.required_runner_id k.required_runner_id) t
    ∙ ap (λ x. same_target q.dispatch_target k.dispatch_target && opt_eq x k.required_runner_id) r

-- how many slices have a key
abbrev pub rivals : Plan → List Plan → ℕ
rivals k ps = count_if (λ p. same_key p k) ps

pub rivals-add_host :
    (k group : Plan) (host : String) (ps : List Plan)
    → rivals k (add_host group host ps)
      ≡ (if same_key group k && rivals k ps == 0 then 1 else rivals k ps)
rivals-add_host k group host [] = ground arith
rivals-add_host k group host (p ∷ ps) = elim (Bool-cases (same_key p group)) [
  | inl e ↦ ground (arith, same_key-left k p group e)
  | inr e ↦ ground (arith, rivals-add_host k group host ps)
]

pub rivals-sort_plans :
    (py : Python) (k : Plan) (ps : List Plan) → rivals k (sort_plans py ps) ≡ rivals k ps
rivals-sort_plans py k ps =
    of_hosts (sort_with (plan_before py) ps)
    ∙ count_if-sort_with (plan_before py) (λ p. same_key p k) ps
  where
    of_hosts : (qs : List Plan) → rivals k (map sort_hosts qs) ≡ rivals k qs
    of_hosts [] = refl
    of_hosts (q ∷ qs) = ground (arith, of_hosts qs)
