-- ===== src/Base/Text.antt =====
-- Python's texts and decoded JSON values, as far as the services use them.
-- The conversions that rest on Unicode tables or on `repr` are fields of `Python`, an interface to
-- the interpreter; truncation, joining and the `or ""` idiom are written out.
use Prim.Native.Nat.{ℕ, zero, suc, ◌-◌, ◌/◌, ◌%◌}
use Prim.Native.String
use Prim.Native.String.{String, count}
use mathlib.Core.Bool.{Bool, true, false}
use mathlib.Core.Option.{Option, none, some}
use mathlib.Core.List.{List, [], ◌∷◌}
use text.Mathlib.Text.{◌==◌}
use journeyman.Base.Tests.{ltb, leb, if◌then◌else◌}

-- Exit codes are Python integers; `negsuc n` is -(n + 1).
pub data ℤ : Type 0 where
  pos : ℕ → ℤ
  negsuc : ℕ → ℤ

-- A decoded JSON value. Fractions are not modelled.
mutual
  pub data Json : Type 0 where
    null : Json
    bool : Bool → Json
    num : ℤ → Json
    str : String → Json
    arr : Items → Json
    obj : Fields → Json

  pub data Items : Type 0 where
    nil : Items
    cons : Json → Items → Items

  pub data Fields : Type 0 where
    end : Fields
    field : String → Json → Fields → Fields

-- The interpreter: `str(value)`, `int(text)` with `none` for ValueError, `text.strip()`,
-- `text.lower()`, `text.casefold()`, the number of bytes of `json.dumps(value)` in UTF-8,
-- and `hashlib.sha256(text.encode("utf-8")).hexdigest()`.
pub record Python : Type 0 where
  pub text_of : Json → String
  pub int_of_text : String → Option ℤ
  pub strip : String → String
  pub lower : String → String
  pub casefold : String → String
  pub json_size : Json → ℕ
  pub sha256 : String → String

-- `"".join(parts)`, which also stands for `"…{}…".format(…)`
abbrev pub concat : List String → String
concat [] = ""
concat (s ∷ rest) = String.◌++◌ s (concat rest)

-- `"\n".join(parts)`
abbrev pub join_lines : List String → String
join_lines [] = ""
join_lines (s ∷ []) = s
join_lines (s ∷ t ∷ rest) = concat (s ∷ "\n" ∷ join_lines (t ∷ rest) ∷ [])

-- `", ".join(parts)`
abbrev pub join_commas : List String → String
join_commas [] = ""
join_commas (s ∷ []) = s
join_commas (s ∷ t ∷ rest) = concat (s ∷ ", " ∷ join_commas (t ∷ rest) ∷ [])

-- `text[:n]`
abbrev pub take_text : ℕ → String → String
take_text zero s = ""
take_text (suc n) String.[] = ""
take_text (suc n) (String.◌∷◌ c s) = String.◌∷◌ c (take_text n s)

-- `bool(text)`
abbrev pub is_empty : String → Bool
is_empty String.[] = true
is_empty (String.◌∷◌ c s) = false

abbrev pub or_text : String → String → String
or_text s t = if is_empty s then t else s

abbrev digit : ℕ → String
digit zero = "0"
digit (suc zero) = "1"
digit (suc (suc zero)) = "2"
digit (suc (suc (suc zero))) = "3"
digit (suc (suc (suc (suc zero)))) = "4"
digit (suc (suc (suc (suc (suc zero))))) = "5"
digit (suc (suc (suc (suc (suc (suc zero)))))) = "6"
digit (suc (suc (suc (suc (suc (suc (suc zero))))))) = "7"
digit (suc (suc (suc (suc (suc (suc (suc (suc zero)))))))) = "8"
digit _ = "9"

show_within : ℕ → ℕ → String → String
show_within zero n rest = rest
show_within (suc fuel) n rest =
    let shown = String.◌++◌ (digit (n % 10)) rest in
    let more = show_within fuel (n / 10) shown in if ltb n 10 then shown else more

-- `str(n)` of a number: a number below 10 ^ (n + 1) has at most n + 1 digits
unfoldable pub show : ℕ → String
unfolding show_within
show n = show_within (suc n) n ""

abbrev pub is_falsy_int : ℤ → Bool
is_falsy_int (pos zero) = true
is_falsy_int _ = false

-- `not value`
abbrev pub is_falsy : Json → Bool
is_falsy null = true
is_falsy (bool b) = if b then false else true
is_falsy (num n) = is_falsy_int n
is_falsy (str s) = is_empty s
is_falsy (arr nil) = true
is_falsy (arr (cons _ _)) = false
is_falsy (obj end) = true
is_falsy (obj (field _ _ _)) = false

-- the last binding of a key, as `json.loads` keeps it
abbrev pub find_field : String → Fields → Option Json
find_field k end = none
find_field k (field j v fs) = elim (find_field k fs) [
  | some w ↦ some w
  | none ↦ if j == k then some v else none
]

-- `payload.get(key)` on an object
abbrev pub get : Fields → String → Json
get fs k = elim (find_field k fs) [ some v ↦ v | none ↦ null ]

module _ (py : Python) where
  -- `str(value or "")`
  abbrev pub text_or_empty : Json → String
  text_or_empty v = if is_falsy v then "" else py.text_of v

  -- `str(value or "").strip().lower()`
  abbrev pub word : Json → String
  word v = py.lower (py.strip (text_or_empty v))

  -- `int(value)`, with `none` for TypeError and ValueError
  abbrev pub int_of : Json → Option ℤ
  int_of (num n) = some n
  int_of (bool b) = some (pos (if b then 1 else 0))
  int_of (str s) = py.int_of_text s
  int_of _ = none

  -- `None if value is None else int(value)`
  abbrev pub optional_int : Json → Option (Option ℤ)
  optional_int null = some none
  optional_int v = elim (int_of v) [ some n ↦ some (some n) | none ↦ none ]

-- the length check of `_trim_output` and `_trim`, with the limit and the marker as arguments
abbrev pub truncate : ℕ → String → String → String
truncate limit marker text =
    if leb (count text) limit
    then text
    else String.◌++◌ (take_text (limit - count marker) text) marker
