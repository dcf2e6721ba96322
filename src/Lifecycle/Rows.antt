-- ===== src/Lifecycle/Rows.antt =====
-- The rows that a completion writes before the aggregation: the middle of `_complete_slice` of
-- app/services/runner_slice_lifecycle.py. Two of its refusals come after the first rows are written,
-- and keep what was written.
use journeyman.Base.{
  ℕ, Bool, false, Option, none, some, List, [], ◌∷◌, String, any, map, if◌then◌else◌, str_eq,
}
use journeyman.Base.Text.{
  ℤ, Json, Fields, end, field, obj, num, null, str, Python, or_text, take_text, text_or_empty,
  optional_int, get,
}
use journeyman.Runner.{Runner}
use journeyman.Job.{JobStatus, Step, Slice, HostStatus, HostResult}
use journeyman.Lifecycle.Stats.{normalise_ansible_custom_stats}
use journeyman.Lifecycle.{
  Reason, invalid_exit_code, invalid_custom_stats, invalid_host_exit_code, max_text_length, trim,
}
use journeyman.Lifecycle.Report.{
  sorted_hosts, Final, final_status, HostReport, Checked, ok, refused, ◌>>=◌, or_refuse,
  first_result, reported_hosts, parse_hosts,
}

abbrev pub synthetic_status : Final → HostStatus
synthetic_status Final.successful = HostStatus.successful
synthetic_status Final.failed = HostStatus.failed
synthetic_status Final.cancelled = HostStatus.cancelled

abbrev pub code_json : Option ℤ → Json
code_json none = null
code_json (some n) = num n

abbrev pub synthetic : Final → Option ℤ → String → HostReport
synthetic status code host = record {
  host = host;
  status = synthetic_status status;
  item = field "exit_code" (code_json code) (field "stdout" (str "") (field "stderr" (str "") end));
}

-- a completion with no host results stands for one result of each host of the slice
abbrev pub or_synthetic : Final → Option ℤ → List String → List HostReport → List HostReport
or_synthetic status code hosts [] = map (synthetic status code) (sorted_hosts hosts)
or_synthetic status code hosts (p ∷ ps) = p ∷ ps

-- the last row of the host is overwritten, or a new one is appended
abbrev pub put_row : HostResult → List HostResult → List HostResult
put_row row [] = row ∷ []
put_row row (r ∷ rs) =
    let later = put_row row rs in
    if any (λ x. str_eq x.host row.host) rs
    then r ∷ later
    else if str_eq r.host row.host
    then row ∷ rs
    else r ∷ later

-- `existing_by_host.get(host)`
abbrev pub last_row : String → List HostResult → Option HostResult
last_row host [] = none
last_row host (r ∷ rs) =
    let later = last_row host rs in
    elim later [ some row ↦ some row | none ↦ if str_eq r.host host then some r else none ]

-- what a completion writes before it answers: nothing, the slice and host rows up to a late refusal,
-- or all of them
pub data SliceWrite : Type 0 where
  rejected : Reason → SliceWrite
  stopped : Slice → List HostResult → Reason → SliceWrite
  written : Slice → List HostResult → SliceWrite

-- a success that comes while the job is being stopped counts as cancelled
abbrev pub effective : JobStatus → Final → Final
effective JobStatus.cancelling Final.successful = Final.cancelled
effective _ status = status

module _ (py : Python) where
  -- the row of a host as its loop starts: found or new, with the reported status
  abbrev pub started_row : HostReport → List HostResult → HostResult
  started_row report rows = started_of (last_row report.host rows)
    where
      started_of : Option HostResult → HostResult
      started_of (some row) = record row { status = report.status }
      started_of none = record {
        host = report.host;
        status = report.status;
        exit_code = none;
        stdout = "";
        stderr = "";
        runner_id = none;
        runner_name = "";
        runner_hostname = "";
        runner_local = false;
      }

  abbrev pub report_row : Slice → Runner → Bool → HostReport → Option ℤ → HostResult
  report_row slice runner is_local report code = record {
    host = report.host;
    status = report.status;
    exit_code = code;
    stdout = trim py (get report.item "stdout");
    stderr = trim py (get report.item "stderr");
    runner_id = slice.assigned_runner_id;
    runner_name = or_text slice.runner_name runner.name;
    runner_hostname = or_text slice.runner_hostname runner.hostname;
    runner_local = is_local;
  }

  -- the loop over the reports: the rows after it, and the refusal that ended it
  unfoldable pub put_reports :
      Slice → Runner → Bool → List HostReport → List HostResult → List HostResult × Option Reason
  put_reports slice runner is_local [] rows = (rows, none)
  put_reports slice runner is_local (p ∷ ps) rows =
      elim (optional_int py (get p.item "exit_code")) [
        | none ↦ (put_row (started_row p rows) rows, some invalid_host_exit_code)
        | some code ↦
            put_reports slice runner is_local ps
              (put_row (report_row slice runner is_local p code) rows)
      ]

  -- statistics count for a successful slice only
  abbrev pub reported_stats : Final → Json → Option Fields
  reported_stats Final.successful stats = normalise_ansible_custom_stats py stats
  reported_stats _ stats = some end

  abbrev pub set_stats : Option Fields → Slice → Slice × Option Reason
  set_stats none slice = (slice, some invalid_custom_stats)
  set_stats (some stats) slice = (record slice { custom_stats = stats }, none)

  -- the fields of the slice that the reported result sets, and the refusal of its statistics
  abbrev pub result_fields : Final → Json → Slice → Slice × Option Reason
  result_fields status (obj result) slice =
      set_stats (reported_stats status (get result "custom_stats")) (record slice {
        command = take_text max_text_length (text_or_empty py (get result "command"));
        stdout = trim py (get result "stdout");
        stderr = trim py (get result "stderr");
      })
  result_fields status _ slice = (slice, none)

  -- what is checked before the first row is written
  abbrev pub checked_report : Slice → Fields → Checked (Option ℤ × List HostReport)
  checked_report slice payload =
      or_refuse (optional_int py (get payload "exit_code")) invalid_exit_code >>= λ code.
      reported_hosts (first_result (get payload "steps")) >>= λ items.
      parse_hosts py slice.hosts [] items >>= λ parsed. ok (code, parsed)

  abbrev pub write_hosts : Slice → List HostResult × Option Reason → SliceWrite
  write_hosts slice (rows, none) = written slice rows
  write_hosts slice (rows, some r) = stopped slice rows r

  abbrev pub write_result :
      Step → Runner → Bool → List HostReport → Slice × Option Reason → SliceWrite
  write_result step runner is_local reports (slice, some r) = stopped slice step.host_results r
  write_result step runner is_local reports (slice, none) =
      let slice' = record slice { dispatch_token = "" } in
      write_hosts slice' (put_reports slice' runner is_local reports step.host_results)

  abbrev pub write_report :
      ℕ
      → Step
      → Slice
      → Fields
      → Runner
      → Bool
      → Final
      → Checked (Option ℤ × List HostReport)
      → SliceWrite
  write_report now step slice payload runner is_local status (refused r) = rejected r
  write_report now step slice payload runner is_local status (ok (code, parsed)) =
      write_result step runner is_local (or_synthetic status code slice.hosts parsed) (
        result_fields status (first_result (get payload "steps")) (record slice {
          status = final_status status;
          finished_at = some now;
          exit_code = code;
          message = take_text max_text_length (text_or_empty py (get payload "message"));
        }))

  -- what a completion writes into the slice and into the host results of its step
  unfoldable pub complete_rows : ℕ → Step → Slice → Fields → Runner → Bool → Final → SliceWrite
  complete_rows now step slice payload runner is_local status =
      write_report now step slice payload runner is_local status (checked_report slice payload)
