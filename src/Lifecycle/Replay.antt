-- ===== src/Lifecycle/Replay.antt =====
-- Completions that come again: final slices absorb them, the replay of a lost answer, and what a
-- completion leaves that was refused after its first rows.
use journeyman.Base.{
  ℕ, Bool, true, false, ◌≡◌, ◌≢◌, refl, ap, subst, ◌∙◌, ◌⊎◌, inl, inr, Option, none, some, List,
  String, arith, opt_eq,
}
use journeyman.Base.Text.{
  ℤ, is_empty, Json, null, bool, num, str, arr, obj, Fields, Python, word, get,
}
use journeyman.Runner.{Runner}
use journeyman.Job.{Job, Step, Slice, HostResult, is_final}
use journeyman.Lifecycle.{Reason, already_complete, assignment_mismatch, assignment_matches}
use journeyman.Lifecycle.Report.{
  Final, final_status, parse_final, has_status, HostReport, Checked, ok, refused,
}
use journeyman.Lifecycle.Rows.{
  SliceWrite, rejected, stopped, written, set_stats, result_fields, checked_report, write_hosts,
  write_result, write_report, complete_rows,
}
use journeyman.Lifecycle.Completion.{Refreshed, is_replay, complete_slice, complete_remote_slice}

module _ (py : Python) (refresh : Job → Step → Refreshed) where
  -- A final slice absorbs every completion: whatever a runner reports, the job stays as it is.
  pub complete_slice-final :
      (now : ℕ) (job : Job) (step : Step) (slice : Slice) (payload : Fields) (runner : Runner)
      (is_local : Bool)
      → is_final slice.status ≡ true
      → (complete_slice py refresh now job step slice payload runner is_local).0 ≡ job
  unfolding complete_slice
  complete_slice-final now job step slice payload runner is_local h = ground arith

-- what a completion leaves in its slice, if it is carried out
record IsWritten (now : ℕ) (slice : Slice) (status : Final) (after : Slice) : Type 0 where
  pub status_set : after.status ≡ final_status status
  pub token_cleared : after.dispatch_token ≡ ""
  pub same_runner : after.assigned_runner_id ≡ slice.assigned_runner_id
  pub time_set : after.finished_at ≡ some now

-- a refusal that comes after the first rows has already set the status
unfoldable HasStatus : ℕ → Slice → Final → SliceWrite → Type 0
HasStatus now slice status (rejected r) = Unit
HasStatus now slice status (stopped after rows r) = after.status ≡ final_status status
HasStatus now slice status (written after rows) = IsWritten now slice status after

module _ (py : Python) where
  set_stats-keeps :
      (stats : Option Fields) (slice : Slice)
      → ((set_stats py stats slice).0.status ≡ slice.status)
        × ((set_stats py stats slice).0.assigned_runner_id ≡ slice.assigned_runner_id)
        × ((set_stats py stats slice).0.finished_at ≡ slice.finished_at)
  set_stats-keeps none slice = (refl, refl, refl)
  set_stats-keeps (some stats) slice = (refl, refl, refl)

  result_fields-keeps :
      (status : Final) (result : Json) (slice : Slice)
      → ((result_fields py status result slice).0.status ≡ slice.status)
        × ((result_fields py status result slice).0.assigned_runner_id ≡ slice.assigned_runner_id)
        × ((result_fields py status result slice).0.finished_at ≡ slice.finished_at)
  result_fields-keeps status (obj result) slice = set_stats-keeps _ _
  result_fields-keeps status null slice = (refl, refl, refl)
  result_fields-keeps status (bool b) slice = (refl, refl, refl)
  result_fields-keeps status (num n) slice = (refl, refl, refl)
  result_fields-keeps status (str t) slice = (refl, refl, refl)
  result_fields-keeps status (arr items) slice = (refl, refl, refl)

  hosts-HasStatus :
      (now : ℕ) (slice after : Slice) (status : Final) (rows : List HostResult × Option Reason)
      → IsWritten now slice status after
      → HasStatus now slice status (write_hosts py after rows)
  unfolding HasStatus
  hosts-HasStatus now slice after status (rows, none) w = w
  hosts-HasStatus now slice after status (rows, some r) w = w.status_set

  result-HasStatus :
      (now : ℕ) (slice before : Slice) (status : Final) (step : Step) (runner : Runner)
      (is_local : Bool) (reports : List HostReport) (fields : Slice × Option Reason)
      → fields.0.status ≡ final_status status
      → fields.0.assigned_runner_id ≡ slice.assigned_runner_id
      → fields.0.finished_at ≡ some now
      → HasStatus now slice status (write_result py step runner is_local reports fields)
  unfolding HasStatus
  result-HasStatus now slice before status step runner is_local reports (after, some r) s a f = s
  result-HasStatus now slice before status step runner is_local reports (after, none) s a f =
      hosts-HasStatus now slice _ status _
        (record { status_set = s; token_cleared = refl; same_runner = a; time_set = f })

  report-HasStatus :
      (now : ℕ) (step : Step) (slice : Slice) (payload : Fields) (runner : Runner) (is_local : Bool)
      (status : Final) (checked : Checked (Option ℤ × List HostReport))
      → HasStatus now slice status
          (write_report py now step slice payload runner is_local status checked)
  unfolding HasStatus
  report-HasStatus now step slice payload runner is_local status (refused r) = tt
  report-HasStatus now step slice payload runner is_local status (ok (code, parsed)) =
      let (s, a, f) = result_fields-keeps status _ _ in
      result-HasStatus now slice slice status step runner is_local _ _ s a f

  complete_rows-HasStatus :
      (now : ℕ) (step : Step) (slice : Slice) (payload : Fields) (runner : Runner) (is_local : Bool)
      (status : Final)
      → HasStatus now slice status (complete_rows py now step slice payload runner is_local status)
  unfolding complete_rows
  complete_rows-HasStatus now step slice payload runner is_local status =
      report-HasStatus now step slice payload runner is_local status
        (checked_report py slice payload)

  IsWritten-of :
      (now : ℕ) (step : Step) (slice : Slice) (payload : Fields) (runner : Runner) (is_local : Bool)
      (status : Final) (after : Slice) (rows : List HostResult)
      → complete_rows py now step slice payload runner is_local status ≡ written after rows
      → IsWritten now slice status after
  unfolding HasStatus
  IsWritten-of now step slice payload runner is_local status after rows h =
      subst (HasStatus now slice status) h
        (complete_rows-HasStatus now step slice payload runner is_local status)

has_status_self : (status : Final) → has_status status (final_status status) ≡ true
has_status_self status = ground arith

has_status_other : (a b : Final) → a ≢ b → has_status a (final_status b) ≡ false
has_status_other a b h = ground arith

opt_eq_self : (k : ℕ) → opt_eq (some k) (some k) ≡ true
opt_eq_self k = ground arith

cleared_mismatch :
    (slice : Slice) (runner : Runner) (token : String)
    → slice.dispatch_token ≡ ""
    → assignment_matches slice runner token ≡ false
unfolding assignment_matches
cleared_mismatch slice runner token h =
    let empty : is_empty slice.dispatch_token ≡ true = ap is_empty h in ground arith

-- a replay of another runner, or with another status
no_replay :
    (after : Slice) (runner other : Runner) (status : Final) (parsed : Option Final)
    → after.status ≡ final_status status
    → after.assigned_runner_id ≡ some runner.id
    → (other.id ≢ runner.id) ⊎ (parsed ≢ some status)
    → is_replay after other parsed ≡ false
no_replay after runner other status none s a h = refl
no_replay after runner other status (some again) s a (inl h) = rw (s, a) (ground arith)
no_replay after runner other status (some again) s a (inr h) =
    let differs : again ≢ status = λ e. h (ap some e) in
    rw (s, has_status_other again status differs) refl

module _ (py : Python) (refresh : Job → Step → Refreshed) (now : ℕ) (step : Step) (slice : Slice)
    (payload : Fields) (runner : Runner) (status : Final) (after : Slice) (rows : List HostResult)
    (completion : complete_rows py now step slice payload runner false status ≡ written after rows)
    (owned : slice.assigned_runner_id ≡ some runner.id) where
  -- After the assigned runner's completion with a status was carried out and written into a slice, a
  -- completion by the same runner that reports that status again is acknowledged, whatever its token
  -- and its other contents, and changes nothing.
  pub replay_acknowledged :
      (later : ℕ) (job' : Job) (step' : Step) (token : String) (again : Fields)
      → parse_final (word py (get again "status")) ≡ some status
      → complete_remote_slice py refresh later job' step' after runner token again
        ≡ (job', true, already_complete)
  unfolding complete_remote_slice
  replay_acknowledged later job' step' token again h =
      let w = IsWritten-of py now step slice payload runner false status after rows completion in
      rw (h, w.status_set, has_status_self status, w.same_runner, owned, opt_eq_self runner.id) refl

  -- After the assigned runner's completion with a status was carried out and written into a slice, a
  -- completion of the slice by another runner, or one that reports another status or none that is
  -- known, is refused as a mismatch, whatever its token, and changes nothing.
  pub replay_conflict_refused :
      (later : ℕ) (job' : Job) (step' : Step) (other : Runner) (token : String) (again : Fields)
      → (other.id ≢ runner.id) ⊎ (parse_final (word py (get again "status")) ≢ some status)
      → complete_remote_slice py refresh later job' step' after other token again
        ≡ (job', false, assignment_mismatch)
  unfolding complete_remote_slice
  replay_conflict_refused later job' step' other token again h =
      let w = IsWritten-of py now step slice payload runner false status after rows completion in
      rw
        (
          no_replay after runner other status _ w.status_set (w.same_runner ∙ owned) h,
          cleared_mismatch after other token w.token_cleared,
        )
        refl
