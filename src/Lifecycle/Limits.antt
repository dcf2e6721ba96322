-- ===== src/Lifecycle/Limits.antt =====
-- The lengths of the texts that live output stores: `_trim` and `update_remote_slice_output` of
-- app/services/runner_slice_lifecycle.py.
use Prim.Native.String.{count}
use text.Mathlib.TextLemmas.{length-append, length-cons}
use journeyman.Base.{
  ℕ, zero, suc, ◌-◌, ◌≤◌, true, false, String, ◌≡◌, refl, arith, leb, Bool-cases, inl, inr, ◌⊎◌,
}
use journeyman.Base.Text.{text_or_empty, get, Python, Json, Fields, truncate, take_text}
use journeyman.Runner.{Runner}
use journeyman.Job.{Slice}
use journeyman.Lifecycle.{
  is_slice_running, assignment_matches, trim, max_output_length, max_text_length,
  update_remote_slice_output,
}

take_text-length : (n : ℕ) (s : String) → count (take_text n s) ≤ n
take_text-length zero s = omega arith
take_text-length (suc n) String.[] = omega arith
take_text-length (suc n) (String.◌∷◌ c s) =
    omega (arith, length-cons c (take_text n s), take_text-length n s)

truncate-length :
    (limit : ℕ) (marker s : String) → count marker ≤ limit → count (truncate limit marker s) ≤ limit
truncate-length limit marker s h = elim (Bool-cases (leb (count s) limit)) [
  | inl e ↦ rw e (ground arith)
  | inr e ↦ rw e (
      omega (
        arith,
        length-append (take_text (limit - count marker) s) marker,
        take_text-length (limit - count marker) s,
      ))
]

trim-length : (py : Python) (v : Json) → count (trim py v) ≤ max_output_length
trim-length py v =
    truncate-length max_output_length "\n[output truncated by Journeyman]\n" (text_or_empty py v)
      (omega arith)

-- A slice after `update_remote_slice_output`: it is the slice as it was, or its command has at most
-- 4,000 characters and each of its two outputs at most 2,097,152, the truncation mark included.
pub update_remote_slice_output-bounds :
    (py : Python) (slice : Slice) (runner : Runner) (token : String) (payload : Fields)
    → let (after, accepted, answer) = update_remote_slice_output py slice runner token payload in
      ((accepted ≡ false) × (after ≡ slice))
      ⊎ ((accepted ≡ true)
          × (count after.command ≤ max_text_length)
          × (count after.stdout ≤ max_output_length)
          × (count after.stderr ≤ max_output_length))
unfolding update_remote_slice_output
update_remote_slice_output-bounds py slice runner token payload =
    elim (Bool-cases (assignment_matches slice runner token)) [
      | inr e ↦ simp e (inl (refl, refl))
      | inl e ↦ elim (Bool-cases (is_slice_running slice.status)) [
        | inr r ↦ simp (e, r) (inl (refl, refl))
        | inl r ↦
            simp (e, r)
              (inr (
                refl,
                take_text-length max_text_length (text_or_empty py (get payload "command")),
                trim-length py (get payload "stdout"),
                trim-length py (get payload "stderr"),
              ))
      ]
    ]
