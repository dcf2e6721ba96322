-- ===== src/Job/Columns.antt =====
-- The columns of a slice that hold JSON as text: `get_hosts`, `set_hosts`,
-- `get_required_capabilities` and `set_required_capabilities` of
-- app/models/job_step_execution_slice.py.
use journeyman.Base.{
  ℕ, Bool, false, not, Option, some, List, [], ◌∷◌, String, ◌≡◌, refl, sym, ap, ◌∙◌, map, length,
  keep, All, All-map, sort_with-All, Bool-cases, inl, inr, if◌then◌else◌,
}
use journeyman.Base.Text.{Json, Items, nil, cons, arr, str, Python, is_empty, or_text}
use Prim.Native.String.{compare}
use text.Mathlib.Text.{is_le}
use journeyman.Lifecycle.Report.{member, distinct, sorted_hosts}

-- the module `json`: `loads` with `none` for TypeError and ValueError, and `dumps`
pub record JsonText : Type 0 where
  pub loads : String → Option Json
  pub dumps : Json → String

abbrev pub items_of : List String → Items
items_of [] = nil
items_of (t ∷ ts) = cons (str t) (items_of ts)

module _ (py : Python) where
  abbrev pub is_blank : String → Bool
  is_blank t = is_empty (py.strip t)

  -- `{str(host).strip() for host in hosts if str(host).strip()}`, before duplicates are dropped
  abbrev pub stripped : List String → List String
  stripped hosts = map py.strip (keep (λ t. not (is_blank t)) hosts)

  -- `{str(item).strip().lower() for item in capabilities if str(item).strip()}`
  abbrev pub required_set : List String → List String
  required_set capabilities =
      map (λ t. py.lower (py.strip t)) (keep (λ t. not (is_blank t)) capabilities)

  -- `[str(item) for item in value if str(item).strip()]`
  abbrev pub texts_in : Items → List String
  texts_in nil = []
  texts_in (cons v vs) =
      let rest = texts_in vs in if is_blank (py.text_of v) then rest else py.text_of v ∷ rest

  -- nothing but a list counts
  abbrev pub texts_of_list : Option Json → List String
  texts_of_list (some (arr items)) = texts_in items
  texts_of_list _ = []

  module _ (json : JsonText) where
    -- hosts_json and host_count
    abbrev pub set_hosts : List String → String × ℕ
    set_hosts hosts =
        let normalized = sorted_hosts (stripped hosts) in
        (json.dumps (arr (items_of normalized)), length normalized)

    unfoldable pub get_hosts : String → List String
    get_hosts hosts_json = texts_of_list (json.loads (or_text hosts_json "[]"))

    abbrev pub set_required_capabilities : List String → String
    set_required_capabilities capabilities =
        json.dumps (arr (items_of (sorted_hosts (required_set capabilities))))

    -- a set, as the list of its members
    unfoldable pub get_required_capabilities : String → List String
    get_required_capabilities text = required_set (texts_of_list (json.loads (or_text text "[]")))

-- what the interpreter promises of texts
pub record IsText (py : Python) : Type 0 where
  pub text_of_str : (s : String) → py.text_of (str s) ≡ s
  pub strip_strip : (s : String) → py.strip (py.strip s) ≡ py.strip s
  pub strip_lower : (s : String) → py.strip (py.lower (py.strip s)) ≡ py.lower (py.strip s)
  pub lower_lower : (s : String) → py.lower (py.lower s) ≡ py.lower s
  pub lower_not_empty : (s : String) → is_empty (py.lower s) ≡ is_empty s

-- what the library promises of a value
pub record IsStored (json : JsonText) (v : Json) : Type 0 where
  pub loads_dumps : json.loads (json.dumps v) ≡ some v
  pub dumps_not_empty : is_empty (json.dumps v) ≡ false

-- the values that the columns store
abbrev pub hosts_value : Python → List String → Json
hosts_value py hosts = arr (items_of (sorted_hosts (stripped py hosts)))

abbrev pub capabilities_value : Python → List String → Json
capabilities_value py capabilities = arr (items_of (sorted_hosts (required_set py capabilities)))

module _ (py : Python) (json : JsonText) (texts : IsText py) where
  -- a text that `strip` leaves alone and that is not empty
  abbrev IsClean : String → Type 0
  IsClean t = (py.strip t ≡ t) × (is_empty t ≡ false)

  -- and that is in lower case
  abbrev IsLower : String → Type 0
  IsLower t = (py.lower t ≡ t) × IsClean t

  stripped-IsClean : (hosts : List String) → All IsClean (stripped py hosts)
  stripped-IsClean [] = tt
  stripped-IsClean (h ∷ hs) = elim (Bool-cases (is_blank py h)) [
    | inl e ↦ simp e (stripped-IsClean hs)
    | inr e ↦ simp e ((texts.strip_strip h, refl), stripped-IsClean hs)
  ]

  required_set-IsLower : (cs : List String) → All IsLower (required_set py cs)
  required_set-IsLower [] = tt
  required_set-IsLower (c ∷ cs) = elim (Bool-cases (is_blank py c)) [
    | inl e ↦ simp e (required_set-IsLower cs)
    | inr e ↦ simp e (
      (
        texts.lower_lower (py.strip c),
        (texts.strip_lower c, texts.lower_not_empty (py.strip c) ∙ e),
      ),
      required_set-IsLower cs,
    )
  ]

  required_set-lower : (cs : List String) → All IsLower cs → required_set py cs ≡ cs
  required_set-lower [] h = refl
  required_set-lower (c ∷ cs) h =
      simp (h.0.1.0, h.0.1.1, h.0.0) (ap (λ t. c ∷ t) (required_set-lower cs h.1))

  distinct-All : (P : String → Type 0) (xs : List String) → All P xs → All P (distinct xs)
  distinct-All P [] h = tt
  distinct-All P (x ∷ xs) h = elim (Bool-cases (member x xs)) [
    | inl e ↦ simp e (distinct-All P xs h.1)
    | inr e ↦ simp e (h.0, distinct-All P xs h.1)
  ]

  sorted_hosts-All : (P : String → Type 0) (xs : List String) → All P xs → All P (sorted_hosts xs)
  sorted_hosts-All P xs h =
      sort_with-All (λ a b. is_le (compare a b)) P (distinct xs) (distinct-All P xs h)

  texts_in-items_of : (ts : List String) → All IsClean ts → texts_in py (items_of ts) ≡ ts
  texts_in-items_of [] h = refl
  texts_in-items_of (t ∷ ts) h =
      simp (texts.text_of_str t, h.0.0, h.0.1) (ap (λ x. t ∷ x) (texts_in-items_of ts h.1))

  texts-dumps :
      (ts : List String)
      → All IsClean ts
      → IsStored json (arr (items_of ts))
      → texts_of_list py (json.loads (or_text (json.dumps (arr (items_of ts))) "[]")) ≡ ts
  texts-dumps ts h stored =
      simp (stored.dumps_not_empty, stored.loads_dumps) (texts_in-items_of ts h)

  -- What `set_hosts` stores, `get_hosts` reads back: the hosts without surrounding blanks, empty texts
  -- and duplicates, sorted, and as many as host_count says; if `json.loads` inverts `json.dumps` on
  -- that list, with a text that is not empty, and `str` and `strip` keep what they have made.
  pub get_hosts-set_hosts :
      (hosts : List String)
      → IsStored json (hosts_value py hosts)
      → (get_hosts py json (set_hosts py json hosts).0 ≡ sorted_hosts (stripped py hosts))
        × ((set_hosts py json hosts).1 ≡ length (get_hosts py json (set_hosts py json hosts).0))
  unfolding get_hosts
  get_hosts-set_hosts hosts stored =
      let back =
        texts-dumps (sorted_hosts (stripped py hosts))
          (sorted_hosts-All IsClean (stripped py hosts) (stripped-IsClean hosts)) stored in
      (back, ap length (sym back))

  -- What `set_required_capabilities` stores, `get_required_capabilities` reads back: the set of the
  -- capabilities in lower case, without surrounding blanks and empty texts; under the same promises of
  -- `json`, `str` and `strip`, and if `lower` is idempotent and makes no blanks.
  pub get_required_capabilities-set_required_capabilities :
      (capabilities : List String)
      → IsStored json (capabilities_value py capabilities)
      → get_required_capabilities py json (set_required_capabilities py json capabilities)
        ≡ sorted_hosts (required_set py capabilities)
  unfolding get_required_capabilities
  get_required_capabilities-set_required_capabilities capabilities stored =
      let lower =
        sorted_hosts-All IsLower (required_set py capabilities)
          (required_set-IsLower capabilities) in
      ap (required_set py) (
        texts-dumps (sorted_hosts (required_set py capabilities))
          (All-map IsLower IsClean (λ x h. h.1) _ lower) stored)
      ∙ required_set-lower (sorted_hosts (required_set py capabilities)) lower
