-- ===== src/Inventory/Lineage/Sources.antt =====
-- The search for the sources of an inventory ends, and it misses none.
use journeyman.Base.{
  ℕ, zero, suc, ◌<◌, true, false, ◌||◌, List, [], ◌∷◌, ◌++◌, ◌≡◌, ◌≢◌, refl, sym, ap, subst, ◌∙◌,
  ◌⊎◌, inl, inr, String, any-append, length, arith, ◌==◌, Bool-cases,
}
use journeyman.Propagation.{contains}
use journeyman.Inventory.{Inventory, dependency_graph}
use journeyman.Inventory.Search.{Leads, here, along, remaining, remaining-lt}
use journeyman.Inventory.Acyclic.{keys, remaining-keys, graph_leaf}
use journeyman.Inventory.Lineage.{
  Lineage, sources, refused, unresolved, union, gather, is_leaf, leaf_sources, is_inventory,
  inventory_leaf_source_ids,
}

pub Lineage-cases :
    (l : Lineage)
    → ((xs : List ℕ) × (l ≡ sources xs)) ⊎ (((e : String) × (l ≡ refused e)) ⊎ (l ≡ unresolved))
Lineage-cases (sources xs) = inl (xs, refl)
Lineage-cases (refused e) = inr (inl (e, refl))
Lineage-cases unresolved = inr (inr refl)

sources-injective : (xs ys : List ℕ) → sources xs ≡ sources ys → xs ≡ ys
sources-injective xs ys h = cc

pub equal_numbers : (a b : ℕ) → (a == b) ≡ true → a ≡ b
equal_numbers a b h = ground arith

contains-union :
    (p : ℕ) (xs ys : List ℕ) → contains p (union xs ys) ≡ (contains p xs || contains p ys)
contains-union p xs [] = ground arith
contains-union p xs (y ∷ ys) = elim (Bool-cases (contains y xs)) [
  | inl e ↦ simp e (
      contains-union p xs ys ∙ elim (Bool-cases (y == p)) [
        | inl k ↦ ground (arith, ap (λ z. contains z xs) (equal_numbers y p k))
        | inr k ↦ ground arith
      ])
  | inr e ↦
      simp e
        (contains-union p (xs ++ y ∷ []) ys ∙ ground (arith, any-append (λ q. q == p) xs (y ∷ [])))
]

-- what the loop over the dependencies has in the end
gather-contains :
    (look : ℕ → Lineage) (acc ds out : List ℕ)
    → gather look acc ds ≡ sources out
    → ((p : ℕ) → contains p acc ≡ true → contains p out ≡ true)
      × ((d p : ℕ) (ls : List ℕ)
          → contains d ds ≡ true
          → look d ≡ sources ls
          → contains p ls ≡ true
          → contains p out ≡ true)
gather-contains look acc [] out h = (
  λ p m. subst (λ z. contains p z ≡ true) (sources-injective acc out h) m,
  λ d p ls m e k. absurd (ground arith),
)
gather-contains look acc (d ∷ ds) out h = elim (Lineage-cases (look d)) [
  | inr (inl (e, k)) ↦ absurd (ground arith)
  | inr (inr k) ↦ absurd (ground arith)
  | inl (more, k) ↦
      let (kept, found) = gather-contains look (union acc more) ds out (ground arith) in
      (
        λ p m. kept p (ground (arith, contains-union p acc more)),
        λ x p ls m e mine. elim (Bool-cases (d == x)) [
          | inl same ↦
              let one : more ≡ ls =
                sources-injective more ls (sym k ∙ ap look (equal_numbers d x same) ∙ e) in
              let inside = subst (λ z. contains p z ≡ true) (sym one) mine in
              kept p (ground (arith, contains-union p acc more, inside))
          | inr other ↦ found x p ls (ground arith) e mine
        ],
      )
]

-- a dependency of an inventory whose sources are known has its sources among them
gather-found :
    (look : ℕ → Lineage) (acc ds out : List ℕ) (d : ℕ)
    → gather look acc ds ≡ sources out
    → contains d ds ≡ true
    → (ls : List ℕ) × (look d ≡ sources ls)
gather-found look acc [] out d h m = absurd (ground arith)
gather-found look acc (x ∷ ds) out d h m = elim (Lineage-cases (look x)) [
  | inr (inl (e, k)) ↦ absurd (ground arith)
  | inr (inr k) ↦ absurd (ground arith)
  | inl (more, k) ↦ elim (Bool-cases (x == d)) [
    | inl same ↦ (more, subst (λ z. look z ≡ sources more) (ground arith) k)
    | inr other ↦ gather-found look (union acc more) ds out d (ground arith) (ground arith)
  ]
]

abbrev pub IsSource : List Inventory → ℕ → ℕ → Type 0
IsSource inventories i p =
    Leads (dependency_graph inventories) i p × (is_leaf (dependency_graph inventories p) ≡ true)

leaf-empty : (ds : List ℕ) (b : ℕ) → contains b ds ≡ true → is_leaf ds ≡ false
leaf-empty [] b h = absurd (cc)
leaf-empty (d ∷ ds) b h = refl

-- the sources that are found are all that the inventory rests on
leaf_sources_complete :
    (fuel : ℕ) (inventories : List Inventory) (before : List ℕ) (i p : ℕ) (ls : List ℕ)
    → leaf_sources fuel inventories before i ≡ sources ls
    → Leads (dependency_graph inventories) i p
    → is_leaf (dependency_graph inventories p) ≡ true
    → contains p ls ≡ true
unfolding leaf_sources
leaf_sources_complete zero inventories before i p ls h w leaf = absurd (cc)
leaf_sources_complete (suc fuel) inventories before i p ls h here leaf =
    elim (Bool-cases (contains i before)) [
      | inl seen ↦ absurd (ground arith)
      | inr new ↦
          subst (λ z. contains i z ≡ true) (sources-injective (i ∷ []) ls (simp (new, leaf) at h))
            (ground arith)
    ]
leaf_sources_complete (suc fuel) inventories before i p ls h (along {b} e w) leaf =
    let look : ℕ → Lineage = λ d. leaf_sources fuel inventories (before ++ i ∷ []) d in
    let deps = dependency_graph inventories i in
    elim (Bool-cases (contains i before)) [
      | inl seen ↦ absurd (ground arith)
      | inr new ↦
          let below : gather look [] deps ≡ sources ls = simp (new, leaf-empty deps b e) at h in
          let (more, k) = gather-found look [] deps ls b below e in
          (gather-contains look [] deps ls below).1 b p more e k
            (leaf_sources_complete fuel inventories (before ++ i ∷ []) b p more k w leaf)
    ]

gather-ends :
    (look : ℕ → Lineage) (acc ds : List ℕ)
    → ((d : ℕ) → look d ≢ unresolved)
    → gather look acc ds ≢ unresolved
gather-ends look acc [] h e = cc
gather-ends look acc (d ∷ ds) h e = elim (Lineage-cases (look d)) [
  | inl (more, k) ↦ gather-ends look (union acc more) ds h (ground arith)
  | inr (inl (m, k)) ↦ ground arith
  | inr (inr k) ↦ h d k
]

leaf_sources-ends :
    (fuel : ℕ) (inventories : List Inventory) (before : List ℕ) (i : ℕ)
    → remaining (keys inventories) before < fuel
    → leaf_sources fuel inventories before i ≢ unresolved
unfolding leaf_sources
leaf_sources-ends zero inventories before i lt e = absurd (omega arith)
leaf_sources-ends (suc fuel) inventories before i lt e = elim (Bool-cases (contains i before)) [
  | inl seen ↦ ground arith
  | inr new ↦ elim (Bool-cases (contains i (keys inventories))) [
    | inr other ↦ ground (arith, graph_leaf inventories i other)
    | inl key ↦ elim (Bool-cases (is_leaf (dependency_graph inventories i))) [
      | inl leaf ↦ ground arith
      | inr inner ↦
          gather-ends (λ d. leaf_sources fuel inventories (before ++ i ∷ []) d) []
            (dependency_graph inventories i)
            (λ d.
              leaf_sources-ends fuel inventories (before ++ i ∷ []) d
                (omega (arith, remaining-lt (keys inventories) before i key new)))
            (simp (new, inner) at e)
    ]
  ]
]

pub inventory-ends :
    (inventories : List Inventory) (i : ℕ) → inventory_leaf_source_ids inventories i ≢ unresolved
unfolding inventory_leaf_source_ids
inventory-ends inventories i e = elim (Bool-cases (is_inventory inventories i)) [
  | inr gone ↦ ground arith
  | inl known ↦
      leaf_sources-ends (suc (length inventories)) inventories [] i
        (omega (arith, remaining-keys inventories)) (simp known at e)
]

pub inventory_complete :
    (inventories : List Inventory) (i p : ℕ) (ls : List ℕ)
    → inventory_leaf_source_ids inventories i ≡ sources ls
    → IsSource inventories i p
    → contains p ls ≡ true
unfolding inventory_leaf_source_ids
inventory_complete inventories i p ls h (w, leaf) = elim (Bool-cases (is_inventory inventories i)) [
  | inr gone ↦ absurd (ground arith)
  | inl known ↦
      leaf_sources_complete (suc (length inventories)) inventories [] i p ls (simp known at h) w
        leaf
]
