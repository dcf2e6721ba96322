-- ===== src/Lifecycle/Loss.antt =====
-- A slice whose runner is lost: `mark_lost_remote_slice` of app/services/runner_slice_lifecycle.py.
use journeyman.Base.{
  ℕ, Bool, true, false, ◌||◌, not, Option, none, some, List, [], ◌∷◌, String, any, if◌then◌else◌,
  opt_eq, str_eq, ◌≡◌, arith,
}
use journeyman.Base.Text.{ℤ, pos, concat, or_text}
use journeyman.Runner.{Runner}
use journeyman.Job.{Job, Step, Slice, SliceStatus, HostStatus, HostResult, is_final}
use journeyman.Lifecycle.{
  Reason, invalid_slice, already_complete, invalid_state, runner_mismatch, lost, is_remote,
  is_slice_pending, is_slice_assigned, is_slice_running, put_slice, put_step,
}
use journeyman.Lifecycle.Aggregate.{aggregate_step}
use journeyman.Lifecycle.Rows.{put_row}
use journeyman.Lifecycle.Completion.{close_job}

abbrev pub lost_status : Bool → SliceStatus
lost_status cancelling = if cancelling then SliceStatus.cancelled else SliceStatus.failed

abbrev pub lost_host_status : Bool → HostStatus
lost_host_status cancelling = if cancelling then HostStatus.cancelled else HostStatus.failed

abbrev pub lost_code : Bool → Option ℤ
lost_code cancelling = if cancelling then none else some (pos 1)

abbrev pub or_id : Option ℕ → ℕ → Option ℕ
or_id (some id) other = some id
or_id none other = some other

-- `reason` is already stripped and not empty
abbrev pub lost_message : Runner → Bool → String → String
lost_message runner cancelling reason = concat (
    "Remote runner "
    ∷ or_text runner.name "remote runner"
    ∷ " "
    ∷ reason
    ∷ "; this execution slice was "
    ∷ (if cancelling then "cancelled" else "failed")
    ∷ " and was not automatically retried."
    ∷ [])

abbrev pub lost_slice : ℕ → Slice → Runner → Bool → String → Slice
lost_slice now slice runner cancelling reason = record slice {
  status = lost_status cancelling;
  assigned_runner_id = or_id slice.assigned_runner_id runner.id;
  runner_name = or_text slice.runner_name (or_text runner.name "remote runner");
  runner_hostname =
      or_text slice.runner_hostname (or_text runner.hostname (or_text runner.name "remote runner"));
  finished_at = some now;
  exit_code = lost_code cancelling;
  dispatch_token = "";
  message = lost_message runner cancelling reason;
}

-- the row of a host of the lost slice; the output of a row that is there stays
abbrev pub find_row : String → List HostResult → HostResult → HostResult
find_row host [] new = new
find_row host (r ∷ rs) new =
    let later = find_row host rs new in
    if any (λ x. str_eq x.host host) rs then later else if str_eq r.host host then r else later

abbrev pub lost_row : Slice → Bool → List HostResult → String → HostResult
lost_row slice cancelling rows host =
    let old = find_row host rows (record {
      host = host;
      status = lost_host_status cancelling;
      exit_code = none;
      stdout = "";
      stderr = "";
      runner_id = none;
      runner_name = "";
      runner_hostname = "";
      runner_local = false;
    }) in
    record old {
      status = lost_host_status cancelling;
      exit_code = slice.exit_code;
      stderr = slice.message;
      runner_id = slice.assigned_runner_id;
      runner_name = slice.runner_name;
      runner_hostname = slice.runner_hostname;
      runner_local = false;
    }

abbrev pub lost_rows : Slice → Bool → List String → List HostResult → List HostResult
lost_rows slice cancelling [] rows = rows
lost_rows slice cancelling (h ∷ hs) rows =
    lost_rows slice cancelling hs (put_row (lost_row slice cancelling rows h) rows)

abbrev pub is_open : SliceStatus → Bool
is_open status = is_slice_pending status || is_slice_assigned status || is_slice_running status

unfoldable pub mark_lost_remote_slice :
    ℕ → Job → Step → Slice → Runner → Bool → String → Job × Bool × Reason
mark_lost_remote_slice now job step slice runner cancelling reason =
    if not (is_remote slice.dispatch_target)
    then (job, false, invalid_slice)
    else if is_final slice.status
    then (job, true, already_complete)
    else if not (is_open slice.status)
    then (job, false, invalid_state)
    else if not (
        opt_eq slice.required_runner_id (some runner.id)
        || opt_eq slice.assigned_runner_id (some runner.id))
    then (job, false, runner_mismatch)
    else let slice' = lost_slice now slice runner cancelling reason in
      let step' = record (put_slice slice' step) {
        host_results = lost_rows slice' cancelling slice.hosts step.host_results;
      } in
      (
        close_job now (put_step (aggregate_step now step').0 job),
        true,
        lost (lost_status cancelling),
      )

-- A lost runner never touches a slice that has finished, that is not remote, or that is neither
-- required nor assigned to it: the job stays as it is, and a finished slice is acknowledged.
pub mark_lost_remote_slice-spares :
    (now : ℕ) (job : Job) (step : Step) (slice : Slice) (runner : Runner) (cancelling : Bool)
    (reason : String)
    → let (after, accepted, answer) =
        mark_lost_remote_slice now job step slice runner cancelling reason in
      (is_final slice.status ≡ true → after ≡ job)
      × (accepted ≡ false → after ≡ job)
      × (is_remote slice.dispatch_target ≡ false → accepted ≡ false)
      × (opt_eq slice.required_runner_id (some runner.id) ≡ false
          → opt_eq slice.assigned_runner_id (some runner.id) ≡ false
          → is_final slice.status ≡ false
          → accepted ≡ false)
unfolding mark_lost_remote_slice
mark_lost_remote_slice-spares now job step slice runner cancelling reason = ground arith
