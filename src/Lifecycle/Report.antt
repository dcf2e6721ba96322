-- ===== src/Lifecycle/Report.antt =====
-- What a runner reports of a finished slice, and its checks: the part of `_complete_slice` of
-- app/services/runner_slice_lifecycle.py before the first row is written.
use journeyman.Base.{
  sort_with, ◌≡◌, refl, subst, Bool, true, false, ◌||◌, not, Option, none, some, List, [], ◌∷◌,
  String, any, if◌then◌else◌, str_eq,
}
use journeyman.Base.Text.{
  Json, Items, Fields, nil, cons, end, arr, obj, Python, is_empty, text_or_empty, word, get,
  is_falsy,
}
use text.Mathlib.Text.{is_le}
use Prim.Native.String.{compare}
use journeyman.Job.{SliceStatus, HostStatus}
use journeyman.Lifecycle.{Reason, invalid_host_results, invalid_host_status}

-- the statuses that a runner may report
pub data Final : Type 0 where
  successful failed cancelled : Final

abbrev pub final_status : Final → SliceStatus
final_status Final.successful = SliceStatus.successful
final_status Final.failed = SliceStatus.failed
final_status Final.cancelled = SliceStatus.cancelled

abbrev pub parse_final : String → Option Final
parse_final text =
    if str_eq text "successful"
    then some Final.successful
    else if str_eq text "failed"
    then some Final.failed
    else if str_eq text "cancelled"
    then some Final.cancelled
    else none

abbrev pub has_status : Final → SliceStatus → Bool
has_status Final.successful SliceStatus.successful = true
has_status Final.failed SliceStatus.failed = true
has_status Final.cancelled SliceStatus.cancelled = true
has_status _ _ = false

abbrev pub parse_host_status : String → Option HostStatus
parse_host_status text =
    if str_eq text "successful"
    then some HostStatus.successful
    else if str_eq text "failed"
    then some HostStatus.failed
    else if str_eq text "unreachable"
    then some HostStatus.unreachable
    else none

-- one entry of `parsed`: the host, its status and the reported item
pub record HostReport : Type 0 where
  pub host : String
  pub status : HostStatus
  pub item : Fields

pub data Checked {ℓ} (A : Type ℓ) : Type ℓ where
  ok : A → Checked A
  refused : Reason → Checked A

-- binding of checks, so that the first refusal ends the operation
infixl 5 ◌>>=◌
unfoldable pub ◌>>=◌ {ℓ κ} : {A : Type ℓ} {B : Type κ} → Checked A → (A → Checked B) → Checked B
ok a >>= f = f a
refused r >>= f = refused r

-- what holds of the value, if the checks pass
pub data Ensures {A : Type 0} (P : A → Type 0) : Checked A → Type 0 where
  passes : {a : A} → P a → Ensures P (ok a)
  stops : {r : Reason} → Ensures P (refused r)

pub Ensures-bind :
    {A B : Type 0} {P : B → Type 0} (m : Checked A) (f : A → Checked B)
    → ((a : A) → m ≡ ok a → Ensures P (f a))
    → Ensures P (m >>= f)
unfolding ◌>>=◌
Ensures-bind (ok a) f h = h a refl
Ensures-bind (refused r) f h = stops

pub Ensures-ok :
    {A : Type 0} (P : A → Type 0) (c : Checked A) (a : A) → Ensures P c → c ≡ ok a → P a
Ensures-ok P (ok b) a (passes h) e = subst P (ok-injective e) h
  where
    ok-injective : ok b ≡ ok a → b ≡ a
    ok-injective e = cc
Ensures-ok P (refused r) a stops e = cc

abbrev pub or_refuse {ℓ} : {A : Type ℓ} → Option A → Reason → Checked A
or_refuse (some a) r = ok a
or_refuse none r = refused r

abbrev pub member : String → List String → Bool
member s xs = any (λ x. str_eq x s) xs

-- `not host or host in seen or (allowed_hosts and host not in allowed_hosts)`
abbrev pub is_bad_host : String → List String → List String → Bool
is_bad_host host seen [] = is_empty host || member host seen
is_bad_host host seen (a ∷ allowed) =
    is_empty host || member host seen || not (member host (a ∷ allowed))

-- `step_results[0] if isinstance(step_results, list) and step_results else {}`
abbrev pub first_result : Json → Json
first_result (arr (cons v vs)) = v
first_result _ = obj end

-- `result.get("host_results") or [] if isinstance(result, dict) else []`, checked to be a list
abbrev pub reported_hosts : Json → Checked Items
reported_hosts (obj result) =
    if is_falsy (get result "host_results") then ok nil else elim (get result "host_results") [
      | arr items ↦ ok items
      | _ ↦ refused invalid_host_results
    ]
reported_hosts _ = ok nil

-- `set(hosts)`, sorted
abbrev pub distinct : List String → List String
distinct [] = []
distinct (h ∷ hs) = let rest = distinct hs in if member h hs then rest else h ∷ rest

abbrev pub sorted_hosts : List String → List String
sorted_hosts hosts = sort_with (λ a b. is_le (compare a b)) (distinct hosts)

module _ (py : Python) where
  -- the loop over the reported host results, with the hosts seen so far
  unfoldable pub parse_hosts : List String → List String → Items → Checked (List HostReport)
  parse_hosts allowed seen nil = ok []
  parse_hosts allowed seen (cons (obj item) items) =
      let host = py.strip (text_or_empty py (get item "host")) in
      let rest = parse_hosts allowed (host ∷ seen) items in
      if is_bad_host host seen allowed
      then refused invalid_host_results
      else or_refuse (parse_host_status (word py (get item "status"))) invalid_host_status
        >>= λ status.
            rest >>= λ more. ok (record { host = host; status = status; item = item } ∷ more)
  parse_hosts allowed seen (cons _ items) = refused invalid_host_results
