-- ===== src/Tests/Tables.antt =====
-- Witnesses on sequences of transactions, statistics of earlier steps and inventory dependencies.
use mathlib.Core.List.{Memᴰ}
use journeyman.Base.{
  ℕ, true, some, List, [], ◌∷◌, ◌≡◌, ◌==◌, ◌↔◌, refl, sym, subst, inl, arith, Bool-cases, inr,
}
use journeyman.Tests.{job_of, step_of, done_step, next_step}
use journeyman.Job.{Job, JobStatus, Step, StepStatus, Target}
use journeyman.Concurrency.{job_can_start, serialized_blocking_job}
use journeyman.System.{Event, launch, claim_whole, run, transact}
use journeyman.System.Pairs.{Rivals}
use journeyman.System.Serialized.{IsAtWork, run-serialized}
use journeyman.Propagation.{contains, targets, dependency_ancestors}
use journeyman.Propagation.Ancestors.{Reaches, dependency_ancestors-Exact}
use journeyman.Inventory.{
  Inventory, accepted, rejected, dependency_graph, proposed_graph, check_update,
  find_dependency_path,
}
use journeyman.Inventory.Lineage.{check_lineages, inventory_leaf_source_ids, leaf_sources}
use journeyman.Inventory.Lineage.Disjoint.{IsLineageAnswer, check_lineages-IsLineageAnswer}
use journeyman.Inventory.Search.{Leads, here, along}
use journeyman.Inventory.Acyclic.{IsAcyclic, Answers, check_update-Answers, check_update-IsAcyclic}

abbrev local_job : ℕ → Job
local_job id = record (job_of id JobStatus.queued (next_step ∷ [])) {
  dispatch_target = Target.local;
}

abbrev started_job : Job
started_job = record (local_job 5) {
  status = JobStatus.running;
  started_at = some 1000;
  message = "Claimed by Journeyman runner.";
}

-- two jobs of one serialized Project; the local runner asks for both
abbrev both : List Event
both =
    launch (local_job 5)
    ∷ launch (local_job 6)
    ∷ claim_whole 1000 true 5
    ∷ claim_whole 1010 true 6
    ∷ []

after_both : run both [] ≡ local_job 6 ∷ started_job ∷ []
unfolding run transact job_can_start serialized_blocking_job
after_both = refl

rivals : Rivals started_job (local_job 6)
rivals = record {
  apart = λ e. ground arith;
  one_project = refl;
  left_serialized = refl;
  right_serialized = refl;
}

run-serialized_example : ¬ IsAtWork (local_job 6)
unfolding IsAtWork
run-serialized_example =
    run-serialized both started_job (local_job 6)
      (subst (Memᴰ started_job) (sym after_both) (Memᴰ.tail (Memᴰ.head refl)))
      (subst (Memᴰ (local_job 6)) (sym after_both) (Memᴰ.head refl)) rivals (inl refl)

-- a third step behind the second
abbrev third_step : Step
third_step = step_of 3 (2 ∷ []) StepStatus.pending []

abbrev chain : List Step
chain = done_step ∷ next_step ∷ third_step ∷ []

dependency_ancestors-Exact_example :
    (out : List ℕ) × (dependency_ancestors third_step chain ≡ some out)
    × ((p : ℕ) → (contains p out ≡ true) ↔ Reaches (targets chain) (2 ∷ []) p)
dependency_ancestors-Exact_example = dependency_ancestors-Exact third_step chain

abbrev source : Inventory
source = record { id = 1; name = "hosts"; dependencies = [] }

abbrev filtered : Inventory
filtered = record { id = 2; name = "web"; dependencies = 1 ∷ [] }

abbrev inventories : List Inventory
inventories = source ∷ filtered ∷ []

check_update-Answers_example : Answers inventories 1 (2 ∷ []) (check_update inventories 1 (2 ∷ []))
check_update-Answers_example = check_update-Answers inventories 1 (2 ∷ [])

-- the first inventory has no dependencies
from_source : {a b : ℕ} → Leads (dependency_graph inventories) a b → a ≡ 1 → b ≡ 1
from_source here e = e
from_source (along k w) e = absurd (ground arith)

inventories-IsAcyclic : IsAcyclic (dependency_graph inventories)
unfolding IsAcyclic
inventories-IsAcyclic a b e w = elim (Bool-cases (1 == b)) [
  | inl k ↦ ground (arith, from_source w (ground arith))
  | inr k ↦ ground arith
]

third_is_accepted : check_update inventories 3 (2 ∷ 1 ∷ []) ≡ accepted (2 ∷ 1 ∷ [])
unfolding check_update find_dependency_path
third_is_accepted = refl

check_update-IsAcyclic_example : IsAcyclic (proposed_graph inventories 3 (2 ∷ 1 ∷ []))
check_update-IsAcyclic_example =
    check_update-IsAcyclic inventories 3 (2 ∷ 1 ∷ []) (2 ∷ 1 ∷ []) inventories-IsAcyclic
      third_is_accepted

-- a third inventory that rests on nothing
abbrev other_source : Inventory
other_source = record { id = 4; name = "switches"; dependencies = [] }

check_lineages-IsLineageAnswer_example :
    IsLineageAnswer
      (other_source ∷ inventories)
      (2 ∷ 4 ∷ [])
      (check_lineages (other_source ∷ inventories) (2 ∷ 4 ∷ []))
check_lineages-IsLineageAnswer_example =
    check_lineages-IsLineageAnswer (other_source ∷ inventories) (2 ∷ 4 ∷ [])

independent_are_accepted :
    check_lineages (other_source ∷ inventories) (2 ∷ 4 ∷ []) ≡ accepted (2 ∷ 4 ∷ [])
unfolding check_lineages inventory_leaf_source_ids leaf_sources
independent_are_accepted = refl

one_lineage_is_refused :
    check_lineages inventories (1 ∷ 2 ∷ [])
    ≡ rejected
        "Composite inventory lineage conflict: \"hosts\" and \"web\" both derive from source inventory \"hosts\". Select only one branch from each underlying source inventory."
unfolding check_lineages inventory_leaf_source_ids leaf_sources
one_lineage_is_refused = refl
