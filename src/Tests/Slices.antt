-- ===== src/Tests/Slices.antt =====
-- Witnesses on the completions of slices: a runner reports the success of one host.
use journeyman.Base.{
  ◌⊎◌, ◌≤◌, true, false, none, some, List, [], ◌∷◌, ◌≡◌, ◌≢◌, refl, inl, inr, arith,
}
use journeyman.Base.Text.{Fields, cons, nil, arr, field, end, num, str, obj, pos, get, word}
use journeyman.Tests.{plain, runner, slice_of, job_of, done_step, next_step, busy_step}
use journeyman.Job.{Job, JobStatus, Target, Step, Slice, SliceStatus, HostResult, step_at}
use Prim.Native.String.{count}
use journeyman.Claim.{Claim, runner_can_claim_slice}
use journeyman.Lifecycle.Limits.{update_remote_slice_output-bounds}
use journeyman.Lifecycle.{
  update_remote_slice_output, max_text_length, max_output_length, already_complete,
  assignment_mismatch,
}
use journeyman.Lifecycle.Report.{Final, parse_hosts, ◌>>=◌, parse_final}
use journeyman.Lifecycle.Rows.{SliceWrite, rejected, stopped, written, complete_rows, put_reports}
use journeyman.Lifecycle.Completion.{Refreshed, complete_slice, complete_remote_slice}
use journeyman.Lifecycle.Replay.{replay_acknowledged, replay_conflict_refused}
use journeyman.Lifecycle.Stats.{normalise_ansible_custom_stats}
use journeyman.Lifecycle.Held.{complete_slice-gated}

-- no inventory changes
abbrev no_refresh : Job → Step → Refreshed
no_refresh job step = record { job = job; result = inl 0 }

abbrev the_slice : Slice
the_slice = record (slice_of SliceStatus.running) {
  assigned_runner_id = some 7;
  dispatch_token = "t1";
}

abbrev the_job : Job
the_job = job_of 5 JobStatus.running (done_step ∷ busy_step ∷ [])

abbrev success : Fields
success = field "status" (str "successful") (field "exit_code" (num (pos 0)) end)

-- the last slice of a step whose inventories are refreshed after it
abbrev refreshed_step : Step
refreshed_step = record busy_step {
  refresh_inventory_after = true;
  execution_slices = the_slice ∷ [];
}

abbrev refreshed_job : Job
refreshed_job = record (job_of 5 JobStatus.running (done_step ∷ refreshed_step ∷ [])) {
  dispatch_target = Target.sliced;
}

is_there : step_at refreshed_job.steps refreshed_step.position ≢ none
unfolding step_at
is_there h = cc

abbrev behind_step : Step
behind_step = record next_step { position = 4; depends_on = 3 ∷ [] }

abbrev behind_slice : Slice
behind_slice = slice_of SliceStatus.pending

abbrev unless_allowed : Claim → Refreshed → Refreshed → Refreshed
unless_allowed Claim.allowed seen closed = seen
unless_allowed _ seen closed = closed

-- a refresh that fails if it finds the slice open to a claim
abbrev watchful_refresh : Job → Step → Refreshed
watchful_refresh job step =
    unless_allowed
      (runner_can_claim_slice 1000 runner (refreshed_job ∷ []) job behind_step behind_slice)
      (record { job = job; result = inr "open" }) (no_refresh job step)

unless_allowed-closed :
    (c : Claim) (seen closed : Refreshed)
    → c ≢ Claim.allowed
    → closed ≡ unless_allowed c seen closed
unless_allowed-closed c seen closed h = ground arith

complete_slice-gated_example :
    complete_slice plain no_refresh 1000 refreshed_job refreshed_step the_slice success runner false
    ≡ complete_slice plain watchful_refresh 1000 refreshed_job refreshed_step the_slice success
        runner false
complete_slice-gated_example =
    complete_slice-gated 1000 runner (refreshed_job ∷ []) behind_step behind_slice plain no_refresh
      watchful_refresh (λ j held h. unless_allowed-closed _ _ _ h) 1000 refreshed_job refreshed_step
      the_slice success runner false is_there refl

written_of : SliceWrite → Slice × List HostResult
written_of (written slice rows) = (slice, rows)
written_of (stopped slice rows r) = (slice, rows)
written_of (rejected r) = (the_slice, [])

rows_of_success : Slice × List HostResult
rows_of_success =
    written_of (complete_rows plain 1000 busy_step the_slice success runner false Final.successful)

is_accepted :
    complete_rows plain 1000 busy_step the_slice success runner false Final.successful
    ≡ written rows_of_success.0 rows_of_success.1
unfolding rows_of_success written_of complete_rows ◌>>=◌ parse_hosts put_reports
    normalise_ansible_custom_stats
is_accepted = refl

replay_acknowledged_example :
    complete_remote_slice plain no_refresh 1010 the_job busy_step rows_of_success.0 runner "t1"
      success
    ≡ (the_job, true, already_complete)
replay_acknowledged_example =
    replay_acknowledged plain no_refresh 1000 busy_step the_slice success runner Final.successful
      rows_of_success.0 rows_of_success.1 is_accepted refl 1010 the_job busy_step "t1" success refl

abbrev failure : Fields
failure = field "status" (str "failed") end

is_another : parse_final (word plain (get failure "status")) ≢ some Final.successful
is_another h = cc

replay_conflict_refused_example :
    complete_remote_slice plain no_refresh 1010 the_job busy_step rows_of_success.0 runner "t1"
      failure
    ≡ (the_job, false, assignment_mismatch)
replay_conflict_refused_example =
    replay_conflict_refused plain no_refresh 1000 busy_step the_slice success runner
      Final.successful rows_of_success.0 rows_of_success.1 is_accepted refl 1010 the_job busy_step
      runner "t1" failure (inr is_another)

-- a success whose statistics are not an object
abbrev bad_stats : Fields
bad_stats =
    field "status" (str "successful")
      (field "steps" (arr (cons (obj (field "custom_stats" (str "none") end)) nil)) end)

rows_of_refusal : Slice × List HostResult
rows_of_refusal =
    written_of
      (complete_rows plain 1000 busy_step the_slice bad_stats runner false Final.successful)

abbrev live : Fields
live = field "command" (str "ansible-playbook site.yml") (field "stdout" (str "PLAY [all]") end)

update_remote_slice_output-bounds_example :
    let (after, accepted, answer) = update_remote_slice_output plain the_slice runner "t1" live in
    ((accepted ≡ false) × (after ≡ the_slice))
    ⊎ ((accepted ≡ true)
        × (count after.command ≤ max_text_length)
        × (count after.stdout ≤ max_output_length)
        × (count after.stderr ≤ max_output_length))
update_remote_slice_output-bounds_example =
    update_remote_slice_output-bounds plain the_slice runner "t1" live
