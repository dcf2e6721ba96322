-- ===== src/Tests/Remote.antt =====
-- Witnesses on jobs of a remote runner and on the draining of runners.
use journeyman.Base.{true, false, Option, none, some, List, [], ◌∷◌, ◌≡◌, refl}
use journeyman.Base.Text.{Json, Fields, end, field, obj, str}
use journeyman.Tests.{plain, runner, job_of, next_step}
use journeyman.Runner.{runner_health, runner_environment_ready, runner_environment_state}
use journeyman.Job.{Job, JobStatus, Target}
use journeyman.Lifecycle.{assignment_mismatch, completed}
use journeyman.Lifecycle.Report.{◌>>=◌}
use journeyman.Concurrency.{job_can_start, serialized_blocking_job}
use journeyman.Dispatch.{
  assigned_job, runner_can_claim, claim_next_remote_job, start_remote_job, remote_job_control,
}
use journeyman.Dispatch.Report.{complete_remote_job, complete_job_rows, put_results}
use journeyman.Dispatch.Once.{
  IsCompletion, complete_remote_job-IsCompletion, complete_remote_job-once,
}
use journeyman.Dispatch.Claims.{IsHanded, claim_next_remote_job-IsHanded}
use journeyman.Draining.{
  request_runner_drain, row_of, unassign_not_started_work, runner_has_active_work,
}
use journeyman.Draining.Ready.{
  management_values, management_job_target, find_runner_for_management,
  management_job_ready_to_start,
}
use journeyman.Draining.Idle.{
  is_free_for, IsDrainAnswer, IsDrained, request_runner_drain-IsDrainAnswer,
  management_job_ready_to_start-IsIdle,
}

abbrev waiting_job : Job
waiting_job = record (job_of 5 JobStatus.queued (next_step ∷ [])) {
  dispatch_target = Target.remote;
}

abbrev handed_job : Job
handed_job = assigned_job runner "secret" waiting_job

is_handed :
    claim_next_remote_job plain 1000 "secret" runner (some runner) (waiting_job ∷ [])
    ≡ some handed_job
unfolding claim_next_remote_job runner_can_claim runner_health job_can_start serialized_blocking_job
    runner_environment_ready runner_environment_state
is_handed = refl

claim_next_remote_job-IsHanded_example :
    IsHanded plain 1000 "secret" runner (some runner) (waiting_job ∷ []) handed_job
claim_next_remote_job-IsHanded_example =
    claim_next_remote_job-IsHanded plain 1000 "secret" runner (some runner) (waiting_job ∷ [])
      handed_job is_handed

-- the job is running, and its runner reports success
abbrev remote_job : Job
remote_job = record handed_job { status = JobStatus.running; started_at = some 1000 }

abbrev success : Fields
success = field "status" (str "successful") end

abbrev done_job : Job
done_job = (complete_remote_job plain 1100 remote_job runner "secret" success).0

is_done :
    complete_remote_job plain 1100 remote_job runner "secret" success ≡ (done_job, true, completed)
unfolding complete_remote_job complete_job_rows put_results ◌>>=◌
is_done = refl

complete_remote_job-IsCompletion_example : IsCompletion plain 1100 remote_job success done_job
complete_remote_job-IsCompletion_example =
    complete_remote_job-IsCompletion plain 1100 remote_job runner "secret" success done_job is_done

complete_remote_job-once_example :
    (complete_remote_job plain 1200 done_job runner "secret" success
      ≡ (done_job, false, assignment_mismatch))
    × (start_remote_job 1200 done_job runner "secret" ≡ (done_job, false, assignment_mismatch))
    × (remote_job_control done_job runner "secret" ≡ none)
complete_remote_job-once_example =
    complete_remote_job-once plain 1100 remote_job runner "secret" success done_job 1200 runner
      "secret" success is_done

request_runner_drain-IsDrainAnswer_example :
    ((request_runner_drain 1000 (runner ∷ []) (handed_job ∷ []) runner 9 "update").granted
      ≡ is_free_for 9 (row_of 7 (runner ∷ [])))
    × IsDrainAnswer
        (runner ∷ [])
        (handed_job ∷ [])
        7
        9
        (request_runner_drain 1000 (runner ∷ []) (handed_job ∷ []) runner 9 "update")
request_runner_drain-IsDrainAnswer_example =
    request_runner_drain-IsDrainAnswer 1000 (runner ∷ []) (handed_job ∷ []) runner 9 "update" refl

-- a management job that updates the runner
abbrev update_values : Option (List Json)
update_values = some (
    obj (field "variable_name" (str "journeyman_manage_action") (field "value" (str "update") end))
    ∷ obj (field "variable_name" (str "journeyman_runner_name") (field "value" (str "edge") end))
    ∷ [])

is_target :
    management_job_target plain (runner ∷ []) (management_values plain update_values) ≡ some runner
unfolding management_job_target find_runner_for_management
is_target = refl

is_ready :
    (management_job_ready_to_start plain 1000
      (runner ∷ [])
      (handed_job ∷ [])
      []
      update_values
      9).granted
    ≡ true
unfolding management_job_ready_to_start management_job_target find_runner_for_management
    request_runner_drain unassign_not_started_work runner_has_active_work
is_ready = refl

management_job_ready_to_start-IsIdle_example :
    IsDrained 7 9
      (management_job_ready_to_start plain 1000 (runner ∷ []) (handed_job ∷ []) [] update_values 9)
    × (runner_has_active_work
          (management_job_ready_to_start plain 1000
            (runner ∷ [])
            (handed_job ∷ [])
            []
            update_values
            9).jobs
          []
          runner
        ≡ false)
management_job_ready_to_start-IsIdle_example =
    management_job_ready_to_start-IsIdle plain 1000 (runner ∷ []) (handed_job ∷ []) [] update_values
      9 runner is_target is_ready
