-- ===== src/Dispatch/Once.antt =====
-- A whole job is completed once: what `complete_remote_job` writes, and what the runner's calls answer
-- from then on.
use journeyman.Base.{
  ℕ, true, false, Option, none, some, List, [], ◌∷◌, String, ◌≡◌, ◌≢◌, refl, sym, ap, arith, map,
  All, Bool-cases, inl, inr,
}
use journeyman.Base.Text.{ℤ, Items, Fields, Python, get, word}
use journeyman.Runner.{Runner}
use journeyman.Job.{Job, JobStatus, Step, is_pending}
use journeyman.Lifecycle.{Reason, assignment_mismatch, completed, is_cancelling}
use journeyman.Lifecycle.Report.{Final, parse_final, Checked, ok, refused}
use journeyman.Dispatch.{job_assignment_matches, is_started, start_remote_job, remote_job_control}
use journeyman.Dispatch.Report.{
  job_status_of, has_job_status, close_unreported, finished_job, put_results, parsed_completion,
  answer_written, write_completion, complete_job_rows, complete_job_as, complete_remote_job,
}

-- a job that ended as the report says, with nothing left open
pub record IsEnded (requested : Final) (now : ℕ) (job : Job) : Type 0 where
  pub as_reported : job.status ≡ job_status_of requested
  pub ended : job.finished_at ≡ some now
  pub closed : All (λ s. is_pending s.status ≡ false) job.steps
  pub token_spent : job.dispatch_token ≡ ""

closed-steps :
    (py : Python) (now : ℕ) (requested : Final) (steps : List Step)
    → All (λ s. is_pending s.status ≡ false) (map (close_unreported py now requested) steps)
closed-steps py now requested [] = tt
closed-steps py now requested (s ∷ ss) = (one requested, closed-steps py now requested ss)
  where
    one : (f : Final) → is_pending (close_unreported py now f s).status ≡ false
    one f = ground arith

written-IsEnded :
    (py : Python) (now : ℕ) (job : Job) (payload : Fields) (requested : Final) (code : Option ℤ)
    (written : List Step × Option Reason) (after : Job)
    → answer_written py now job payload requested code written ≡ (after, true, completed)
    → IsEnded requested now after
written-IsEnded py now job payload requested code (steps, none) after h =
    let same : finished_job py now job payload requested code steps ≡ after = ap (λ x. x.0) h in
    rw (sym same) (record {
      as_reported = refl;
      ended = refl;
      closed = closed-steps py now requested steps;
      token_spent = refl;
    })
written-IsEnded py now job payload requested code (steps, some r) after h = absurd (ground arith)

completion-IsEnded :
    (py : Python) (now : ℕ) (job : Job) (payload : Fields) (requested : Final)
    (checked : Checked (Option ℤ × Items)) (after : Job)
    → write_completion py now job payload requested checked ≡ (after, true, completed)
    → IsEnded requested now after
completion-IsEnded py now job payload requested (ok (code, items)) after h =
    written-IsEnded py now job payload requested code (put_results py now job items job.steps) after
      h
completion-IsEnded py now job payload requested (refused r) after h = absurd (ground arith)

rows-IsEnded :
    (py : Python) (now : ℕ) (job : Job) (payload : Fields) (requested : Final) (after : Job)
    → complete_job_rows py now job payload requested ≡ (after, true, completed)
    → IsEnded requested now after
unfolding complete_job_rows
rows-IsEnded py now job payload requested after h =
    completion-IsEnded py now job payload requested (parsed_completion py now payload) after h

-- what a completed report says of the job before and after it
pub record IsCompletion (py : Python) (now : ℕ) (job : Job) (payload : Fields) (after : Job)
    : Type 0 where
  pub requested : Final
  pub named : parse_final (word py (get payload "status")) ≡ some requested
  pub was_started : is_started job.status ≡ true
  pub not_cancelled : is_cancelling job.status ≡ true → requested ≢ Final.successful
  pub is_ended : IsEnded requested now after

as-IsCompletion :
    (py : Python) (now : ℕ) (job : Job) (payload : Fields) (parsed : Option Final) (after : Job)
    → parse_final (word py (get payload "status")) ≡ parsed
    → complete_job_as py now job payload parsed ≡ (after, true, completed)
    → IsCompletion py now job payload after
as-IsCompletion py now job payload none after e h = absurd (ground arith)
as-IsCompletion py now job payload (some requested) after e h = record {
  requested = requested;
  named = e;
  was_started = ground arith;
  not_cancelled = λ c k. ground (arith, ap (λ f. has_job_status f JobStatus.successful) k);
  is_ended = rows-IsEnded py now job payload requested after (ground arith);
}

-- A completion that `complete_remote_job` carries out reports a final status of a job that was running
-- or being stopped, and not success of one that was being stopped. It leaves the job with that status
-- and the time, without its token, and without a pending step.
pub complete_remote_job-IsCompletion :
    (py : Python) (now : ℕ) (job : Job) (runner : Runner) (token : String) (payload : Fields)
    (after : Job)
    → complete_remote_job py now job runner token payload ≡ (after, true, completed)
    → IsCompletion py now job payload after
unfolding complete_remote_job
complete_remote_job-IsCompletion py now job runner token payload after h =
    elim (Bool-cases (job_assignment_matches job runner token)) [
      | inr e ↦ absurd (ground arith)
      | inl e ↦ as-IsCompletion py now job payload _ after refl (simp e at h)
    ]

spent-mismatch :
    (job : Job) (runner : Runner) (token : String)
    → job.dispatch_token ≡ ""
    → job_assignment_matches job runner token ≡ false
unfolding job_assignment_matches
spent-mismatch job runner token h = rw h (ground arith)

-- Once `complete_remote_job` has completed a job, no runner gets through to the job again with any
-- token: the replay of the completion and another start are refused as assignment_mismatch, and a
-- control poll is answered with nothing.
pub complete_remote_job-once :
    (py : Python) (now : ℕ) (job : Job) (runner : Runner) (token : String) (payload : Fields)
    (after : Job) (later : ℕ) (other : Runner) (key : String) (replay : Fields)
    → complete_remote_job py now job runner token payload ≡ (after, true, completed)
    → (complete_remote_job py later after other key replay ≡ (after, false, assignment_mismatch))
      × (start_remote_job later after other key ≡ (after, false, assignment_mismatch))
      × (remote_job_control after other key ≡ none)
unfolding complete_remote_job start_remote_job remote_job_control
complete_remote_job-once py now job runner token payload after later other key replay h =
    let done = complete_remote_job-IsCompletion py now job runner token payload after h in
    let shut = spent-mismatch after other key done.is_ended.token_spent in
    (simp shut refl, simp shut refl, simp shut refl)
