-- ===== src/Inventory/Search.antt =====
-- The depth-first search for a dependency path ends, and it misses no path.
use journeyman.Base.{
  ℕ, zero, suc, ◌+◌, ◌≤◌, ◌<◌, true, false, ◌||◌, List, [], ◌∷◌, ◌++◌, ◌≡◌, ◌≢◌, refl, ap, subst,
  ◌⊎◌, inl, inr, any-append, arith, if◌then◌else◌, ◌==◌, Bool-cases,
}
use journeyman.Propagation.{contains}
use journeyman.Inventory.{Graph, Found, path, absent, exhausted, first_path, find_dependency_path}

-- a node leads to another along the edges of a graph
pub data Leads (g : Graph) : ℕ → ℕ → Type 0 where
  here : {a : ℕ} → Leads g a a
  along : {a b c : ℕ} → contains b (g a) ≡ true → Leads g b c → Leads g a c

-- the nodes of a walk
pub nodes : {g : Graph} {a b : ℕ} → Leads g a b → List ℕ
nodes (here {a}) = a ∷ []
nodes (along {a} e w) = a ∷ nodes w

unfoldable pub Avoids : List ℕ → List ℕ → Type 0
Avoids ns visited = (n : ℕ) → contains n ns ≡ true → contains n visited ≡ false

-- where a walk leaves a node for the last time
last_exit :
    {g : Graph} (a t x : ℕ) (w : Leads g a t)
    → contains x (nodes w) ≡ true
    → x ≢ t
    → (y : ℕ) × (contains y (g x) ≡ true)
      × (v : Leads g y t) × (contains x (nodes v) ≡ false)
      × ((n : ℕ) → contains n (nodes v) ≡ true → contains n (nodes w) ≡ true)
unfolding nodes
last_exit a t x here m ne = absurd (ne (ground arith))
last_exit {g} a t x (along {b} e w) m ne = elim (Bool-cases (contains x (nodes w))) [
  | inl later ↦
      let (y, edge, v, off, sub) = last_exit b t x w later ne in
      (y, edge, v, off, λ n k. ground (arith, sub n k))
  | inr never ↦ (b, ground (arith, ap (λ z. contains b (g z))), w, never, λ n k. ground arith)
]

nodes-head : {g : Graph} (a t : ℕ) (w : Leads g a t) → contains a (nodes w) ≡ true
unfolding nodes
nodes-head a t here = ground arith
nodes-head a t (along e w) = ground arith

contains-concat :
    (n a : ℕ) (visited : List ℕ)
    → contains n (visited ++ a ∷ []) ≡ (contains n visited || (a == n || false))
contains-concat n a visited = any-append (λ q. q == n) visited (a ∷ [])

pub Found-cases : (f : Found) → ((p : List ℕ) × (f ≡ path p)) ⊎ ((f ≡ absent) ⊎ (f ≡ exhausted))
Found-cases (path p) = inl (p, refl)
Found-cases absent = inr (inl refl)
Found-cases exhausted = inr (inr refl)

first_path-absent :
    (look : ℕ → Found) (ds : List ℕ) (y : ℕ)
    → first_path look ds ≡ absent
    → contains y ds ≡ true
    → look y ≡ absent
first_path-absent look [] y h m = absurd (cc)
first_path-absent look (d ∷ ds) y h m = elim (Found-cases (look d)) [
  | inl (p, e) ↦ ground arith
  | inr (inl e) ↦ elim (Bool-cases (d == y)) [
    | inl same ↦ subst (λ z. look z ≡ absent) (ground arith) e
    | inr other ↦ first_path-absent look ds y (ground arith) (ground arith)
  ]
  | inr (inr e) ↦ ground arith
]

-- If a walk leads from a node to the target and avoids what was visited, the search on any fuel
-- does not answer that there is no path.
pub find-misses_none :
    (fuel : ℕ) (g : Graph) (t : ℕ) (visited : List ℕ) (a : ℕ) (w : Leads g a t)
    → Avoids (nodes w) visited
    → find_dependency_path fuel g t visited a ≢ absent
unfolding find_dependency_path Avoids
find-misses_none zero g t visited a w h e = cc
find-misses_none (suc fuel) g t visited a w h e = elim (Bool-cases (a == t)) [
  | inl same ↦ clash (simp (h a (nodes-head a t w), same) at e)
  | inr other ↦
      let (y, edge, v, off, sub) = last_exit a t a w (nodes-head a t w) (λ q. ground arith) in
      find-misses_none fuel g t (visited ++ a ∷ []) y v
        (λ n k.
          ground
            (arith, contains-concat n a visited, h n, sub n k, off, ap (λ z. contains z (nodes v))))
        (first_path-absent (find_dependency_path fuel g t (visited ++ a ∷ [])) (g a) y
          (simp (h a (nodes-head a t w), other) at e) edge)
]
  where
    clash : {p : List ℕ} → path p ≡ absent → ⊥
    clash k = cc

first_path-found :
    (look : ℕ → Found) (ds p : List ℕ)
    → first_path look ds ≡ path p
    → (y : ℕ) × (contains y ds ≡ true) × (look y ≡ path p)
first_path-found look [] p h = absurd (cc)
first_path-found look (d ∷ ds) p h = elim (Found-cases (look d)) [
  | inl (q, e) ↦ (d, ground arith, ground arith)
  | inr (inl e) ↦ let (y, m, k) = first_path-found look ds p (ground arith) in (y, ground arith, k)
  | inr (inr e) ↦ absurd (ground arith)
]

-- a path that the search returns is one
pub find-Leads :
    (fuel : ℕ) (g : Graph) (t : ℕ) (visited : List ℕ) (a : ℕ) (p : List ℕ)
    → find_dependency_path fuel g t visited a ≡ path p
    → Leads g a t
unfolding find_dependency_path
find-Leads zero g t visited a p e = absurd (cc)
find-Leads (suc fuel) g t visited a p e = elim (Bool-cases (contains a visited)) [
  | inl seen ↦ absurd (clash (simp seen at e))
  | inr new ↦ elim (Bool-cases (a == t)) [
    | inl same ↦ subst (Leads g a) (ground arith) here
    | inr other ↦
        let (y, m, k) =
          first_path-found (find_dependency_path fuel g t (visited ++ a ∷ [])) (g a) p
            (simp (new, other) at e) in
        along m (find-Leads fuel g t (visited ++ a ∷ []) y p k)
  ]
]
  where
    clash : absent ≡ path p → ⊥
    clash k = cc

-- how many of the nodes that have edges are not visited
unfoldable pub remaining : List ℕ → List ℕ → ℕ
remaining [] visited = 0
remaining (k ∷ ks) visited = (if contains k visited then 0 else 1) + remaining ks visited

remaining-le :
    (ks visited : List ℕ) (a : ℕ) → remaining ks (visited ++ a ∷ []) ≤ remaining ks visited
unfolding remaining
remaining-le [] visited a = omega arith
remaining-le (k ∷ ks) visited a =
    ground (arith, remaining-le ks visited a, contains-concat k a visited)

pub remaining-lt :
    (ks visited : List ℕ) (a : ℕ)
    → contains a ks ≡ true
    → contains a visited ≡ false
    → remaining ks (visited ++ a ∷ []) < remaining ks visited
unfolding remaining
remaining-lt [] visited a m n = absurd (cc)
remaining-lt (k ∷ ks) visited a m n = elim (Bool-cases (k == a)) [
  | inl same ↦
      let e : k ≡ a = ground arith in
      ground (
        arith,
        remaining-le ks visited a,
        contains-concat k a visited,
        ap (λ z. contains z visited) e,
      )
  | inr other ↦
      ground (arith, remaining-lt ks visited a (ground arith) n, contains-concat k a visited)
]

first_path-ends :
    (look : ℕ → Found) (ds : List ℕ)
    → ((d : ℕ) → look d ≢ exhausted)
    → first_path look ds ≢ exhausted
first_path-ends look [] h e = cc
first_path-ends look (d ∷ ds) h e = elim (Found-cases (look d)) [
  | inl (q, k) ↦ ground arith
  | inr (inl k) ↦ first_path-ends look ds h (ground arith)
  | inr (inr k) ↦ h d k
]

-- With more fuel than there are unvisited nodes with edges, the search ends.
pub find-ends :
    (fuel : ℕ) (g : Graph) (keys : List ℕ) (t : ℕ) (visited : List ℕ) (a : ℕ)
    → ((k : ℕ) → contains k keys ≡ false → g k ≡ [])
    → remaining keys visited < fuel
    → find_dependency_path fuel g t visited a ≢ exhausted
unfolding find_dependency_path
find-ends zero g keys t visited a h lt e = absurd (omega arith)
find-ends (suc fuel) g keys t visited a h lt e = elim (Bool-cases (contains a visited)) [
  | inl seen ↦ absent_clash (simp seen at e)
  | inr new ↦ elim (Bool-cases (a == t)) [
    | inl same ↦ path_clash (simp (new, same) at e)
    | inr other ↦ elim (Bool-cases (contains a keys)) [
      | inl key ↦
          first_path-ends (find_dependency_path fuel g t (visited ++ a ∷ [])) (g a)
            (λ d.
              find-ends fuel g keys t (visited ++ a ∷ []) d h
                (omega (arith, remaining-lt keys visited a key new)))
            (simp (new, other) at e)
      | inr leaf ↦ absent_clash (simp (new, other, h a leaf) at e)
    ]
  ]
]
  where
    absent_clash : absent ≡ exhausted → ⊥
    absent_clash k = cc

    path_clash : {p : List ℕ} → path p ≡ exhausted → ⊥
    path_clash k = cc
