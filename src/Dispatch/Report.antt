-- ===== src/Dispatch/Report.antt =====
-- The completion of a whole job: `complete_remote_job` of app/services/runner_job_lifecycle.py. A
-- completion that is refused at a later result has already overwritten the steps of the earlier ones,
-- and those rows are given back with the refusal: the view answers 400 or 409, and the audit of that
-- answer (`audit_rejected_response` of app/security_logging.py) commits the session.
use journeyman.Base.{
  ℕ, Bool, true, false, ◌&&◌, ◌||◌, not, Option, none, some, List, [], ◌∷◌, String, map,
  if◌then◌else◌, ◌==◌, ltb, is_none, str_eq,
}
use journeyman.Base.Text.{
  ℤ, pos, negsuc, Json, Items, Fields, nil, cons, obj, arr, Python, is_empty, concat, or_text,
  take_text, text_or_empty, word, int_of, optional_int, get, is_falsy,
}
use Prim.Native.String.{count}
use journeyman.Runner.{Runner}
use journeyman.Job.{Job, JobStatus, Step, StepStatus, HostResult, is_pending, step_at}
use journeyman.Lifecycle.{
  Reason, assignment_mismatch, invalid_status, already_complete, invalid_state, invalid_exit_code,
  invalid_host_results, invalid_host_status, invalid_host_exit_code, completed, cancel_pending,
  invalid_steps, unknown_step, invalid_step_status, invalid_step_exit_code, trim, max_text_length,
  is_cancelling,
}
use journeyman.Lifecycle.Report.{
  Final, parse_final, parse_host_status, Checked, ok, refused, ◌>>=◌, or_refuse, member,
}
use journeyman.Dispatch.{job_assignment_matches, is_started}

abbrev pub job_status_of : Final → JobStatus
job_status_of Final.successful = JobStatus.successful
job_status_of Final.failed = JobStatus.failed
job_status_of Final.cancelled = JobStatus.cancelled

abbrev pub has_job_status : Final → JobStatus → Bool
has_job_status Final.successful JobStatus.successful = true
has_job_status Final.failed JobStatus.failed = true
has_job_status Final.cancelled JobStatus.cancelled = true
has_job_status _ _ = false

-- the statuses of a step in a report
abbrev pub parse_step_status : String → Option StepStatus
parse_step_status text =
    if str_eq text "successful"
    then some StepStatus.successful
    else if str_eq text "failed"
    then some StepStatus.failed
    else if str_eq text "cancelled"
    then some StepStatus.cancelled
    else if str_eq text "skipped"
    then some StepStatus.skipped
    else none

-- a list, or `[]` for what is false
abbrev pub list_or_empty : Json → Reason → Checked Items
list_or_empty (arr items) r = ok items
list_or_empty v r = if is_falsy v then ok nil else refused r

abbrev pub step_at_int : List Step → ℤ → Option Step
step_at_int steps (pos n) = step_at steps n
step_at_int steps (negsuc n) = none

-- the rows of the last step at a position; the others stay
abbrev pub put_at : Step → List Step → List Step
put_at step [] = []
put_at step (s ∷ ss) =
    let later = put_at step ss in
    if s.position == step.position && is_none (step_at ss step.position)
    then step ∷ ss
    else s ∷ later

abbrev pub or_started : Option ℕ → ℕ → Option ℕ
or_started none now = some now
or_started (some t) now = some t

module _ (py : Python) (now : ℕ) where
  abbrev pub host_row : String → Fields → Checked HostResult
  host_row host item =
      or_refuse (parse_host_status (word py (get item "status"))) invalid_host_status >>= λ status.
      or_refuse (optional_int py (get item "exit_code")) invalid_host_exit_code >>= λ code.
      ok (record {
        host = host;
        status = status;
        exit_code = code;
        stdout = trim py (get item "stdout");
        stderr = trim py (get item "stderr");
        runner_id = none;
        runner_name = "";
        runner_hostname = "";
        runner_local = false;
      })

  -- the loop over the host results of a step, with the hosts seen so far
  unfoldable pub host_rows : List String → Items → Checked (List HostResult)
  host_rows seen nil = ok []
  host_rows seen (cons (obj item) items) =
      let host = py.strip (text_or_empty py (get item "host")) in
      let rest = host_rows (host ∷ seen) items in
      if is_empty host || ltb 255 (count host) || member host seen
      then refused invalid_host_results
      else host_row host item >>= λ row. rest >>= λ more. ok (row ∷ more)
  host_rows seen (cons v items) = refused invalid_host_results

  -- the row of a step that a result names
  abbrev pub reported_step : Job → Fields → Step → StepStatus → Option ℤ → List HostResult → Step
  reported_step job result step status code rows = record step {
    host_results = rows;
    status = status;
    exit_code = code;
    command = take_text max_text_length (text_or_empty py (get result "command"));
    stdout = trim py (get result "stdout");
    stderr = trim py (get result "stderr");
    started_at = or_started (or_started_job step.started_at job.started_at) now;
    finished_at = some now;
  }
    where
      or_started_job : Option ℕ → Option ℕ → Option ℕ
      or_started_job (some t) other = some t
      or_started_job none other = other

  abbrev pub put_result : Job → Fields → List Step → Checked (List Step)
  put_result job result steps =
      or_refuse (int_of py (get result "position")) invalid_steps >>= λ position.
      or_refuse (step_at_int steps position) unknown_step >>= λ step.
      or_refuse (parse_step_status (word py (get result "status"))) invalid_step_status
      >>= λ status.
          or_refuse (optional_int py (get result "exit_code")) invalid_step_exit_code >>= λ code.
          list_or_empty (get result "host_results") invalid_host_results >>= λ items.
          host_rows [] items >>= λ rows.
          ok (put_at (reported_step job result step status code rows) steps)

  -- the loop over the results: the steps after it, and the refusal that ended it
  unfoldable pub put_results : Job → Items → List Step → List Step × Option Reason
  put_results job nil steps = (steps, none)
  put_results job (cons (obj result) items) steps = elim (put_result job result steps) [
    | ok more ↦ put_results job items more
    | refused r ↦ (steps, some r)
  ]
  put_results job (cons v items) steps = (steps, some invalid_steps)

  -- what no result names is closed
  abbrev pub unreported_status : Final → StepStatus
  unreported_status Final.cancelled = StepStatus.cancelled
  unreported_status _ = StepStatus.skipped

  abbrev pub close_unreported : Final → Step → Step
  close_unreported requested step =
      if is_pending step.status
      then record step { status = unreported_status requested; finished_at = some now }
      else step

  abbrev pub final_text : Final → String
  final_text Final.successful = "successful"
  final_text Final.failed = "failed"
  final_text Final.cancelled = "cancelled"

  abbrev pub finished_job : Job → Fields → Final → Option ℤ → List Step → Job
  finished_job job payload requested code steps = record job {
    status = job_status_of requested;
    finished_at = some now;
    exit_code = code;
    message =
        or_text (take_text max_text_length (text_or_empty py (get payload "message")))
          (concat ("Remote runner reported Job " ∷ final_text requested ∷ "." ∷ []));
    dispatch_token = "";
    steps = map (close_unreported requested) steps;
  }

  -- the job with its written steps, finished if no result was refused
  abbrev pub answer_written :
      Job → Fields → Final → Option ℤ → List Step × Option Reason → Job × Bool × Reason
  answer_written job payload requested code ((steps, none)) =
      (finished_job job payload requested code steps, true, completed)
  answer_written job payload requested code ((steps, some r)) =
      (record job { steps = steps }, false, r)

  -- what is checked before the first row is written
  abbrev pub parsed_completion : Fields → Checked (Option ℤ × Items)
  parsed_completion payload =
      or_refuse (optional_int py (get payload "exit_code")) invalid_exit_code >>= λ code.
      list_or_empty (get payload "steps") invalid_steps >>= λ items. ok (code, items)

  abbrev pub write_completion :
      Job → Fields → Final → Checked (Option ℤ × Items) → Job × Bool × Reason
  write_completion job payload requested (refused r) = (job, false, r)
  write_completion job payload requested (ok (code, items)) =
      answer_written job payload requested code (put_results job items job.steps)

  unfoldable pub complete_job_rows : Job → Fields → Final → Job × Bool × Reason
  complete_job_rows job payload requested =
      write_completion job payload requested (parsed_completion payload)

  abbrev pub complete_job_as : Job → Fields → Option Final → Job × Bool × Reason
  complete_job_as job payload none = (job, false, invalid_status)
  complete_job_as job payload (some requested) =
      if not (is_started job.status)
      then (if has_job_status requested job.status
          then (job, true, already_complete)
          else (job, false, invalid_state))
      else if is_cancelling job.status && has_job_status requested JobStatus.successful
      then (job, false, cancel_pending)
      else complete_job_rows job payload requested

  unfoldable pub complete_remote_job : Job → Runner → String → Fields → Job × Bool × Reason
  unfolding job_assignment_matches
  complete_remote_job job runner token payload =
      if not (job_assignment_matches job runner token)
      then (job, false, assignment_mismatch)
      else complete_job_as job payload (parse_final (word py (get payload "status")))
