-- ===== src/Lib.antt =====
-- Verification of the execution core of Journeyman, an automation platform: which step of a job may
-- run, who may run it, what its completion means, how a job is stopped, and which Projects may run.
--
-- The parts and where they are modelled
--   Job.antt           rows of jobs, steps, execution slices and host results (app/models)
--                      Job/Columns has the JSON columns of a slice and their round trips
--   Runner.antt        runner rows, `runner_health`, reported environments, release of a drain
--   Draining.antt      drains of runners, app/services/runner_draining.py; Draining/Ready is the start of
--                      the management job that drains one
--   Routing.antt       which runner a host asks for, app/services/inventory_runner_routing.py;
--                      Routing/Crews is app/services/runner_crews.py, and Routing/Planning with its
--                      child Rows app/services/execution_slices.py
--   Workflow.antt      `dependency_state` (app/services/project_oversight.py) and
--                      `reconcile_non_runnable_steps` (app/services/runner_slice_dispatch.py, here
--                      `reconcile_steps`); Workflow/Local is `select_eligible_steps` of
--                      bin/journeyman-runner and Workflow/Remote the dependency test of
--                      bin/journeyman-remote-runner; Workflow/Engines compares the three
--   Oversight.antt     the gate of app/services/project_oversight.py
--   Concurrency.antt   launch and start under a policy, app/services/project_concurrency.py
--   Claim.antt         the guards and the assignment of app/services/runner_slice_dispatch.py
--   Lifecycle.antt     app/services/runner_slice_lifecycle.py; Lifecycle/Aggregate sums up slices and steps,
--                      Lifecycle/Report validates a report, Lifecycle/Rows writes it,
--                      Lifecycle/Completion closes step and job, Lifecycle/Loss is
--                      `mark_lost_remote_slice`, Lifecycle/Stats app/services/job_stats.py
--   Dispatch.antt      jobs that a remote runner executes as a whole: app/services/runner_dispatch.py
--                      and app/services/runner_job_lifecycle.py, whose completion is Dispatch/Report
--   Propagation.antt   statistics of earlier steps, app/services/job_stats.py
--   Inventory.antt     dependencies of inventories, app/services/inventory_dependencies.py, whose second
--                      half is Inventory/Lineage
--   Cancellation.antt  app/services/job_cancellation.py
--   System.antt        the job table under every operation that moves a job, one transaction after
--                      the other. It assumes that launches come in the order of `(queued_at, id)`:
--                      app/services/project_execution.py takes `queued_at` from the clock of its own
--                      process, and a launch that a slow clock puts before a row of the table is
--                      left out
--   Approval.antt      the rows of the approval workflow; Approval/Technical, Management, Gate and
--                      Requirement are app/services/project_reviews.py,
--                      project_management_approvals.py, project_operational_approval.py with
--                      project_approval_staleness.py, and project_approval_exemption.py
--   Base.antt          shared tests, lists and texts; Tests.antt holds concrete rows and witnesses
--
-- How they interact: a runner's poll reconciles the steps of the active jobs and looks at the
-- oversight gate; a claim passes the guards of Claim, which ask Workflow, Oversight, Concurrency and
-- Runner; a completion passes Lifecycle, which aggregates slices into their step, reconciles the
-- steps again, looks at the gate and finalizes the job. Stopping a job ends what has not started.
--
-- Conventions. A row is a record and an operation a function from the rows before to the rows
-- after, with the answer of the source beside them; a job contains its steps and a step its
-- slices, in the order of their positions. A query is a filter of a list. Times are numbers of
-- seconds, and `utcnow()` is read once for an operation. An operation that refuses after it has
-- written rows gives these rows with its refusal. For a completion by a remote runner they are
-- committed: app/views/runners.py answers 400 or 409, and `audit_rejected_response` of
-- app/security_logging.py commits the session with the audit of that answer.
-- bin/journeyman-runner rolls a refused local one back. The text conversions of the Python
-- interpreter and SHA-256 are fields of the record `Python`, an argument of what uses them;
-- `json.loads` and `json.dumps` are the record `JsonText`, and load averages the record `Loads`.
-- Four loops run on fuel. The reconciliation takes one round more than there are steps, which is
-- enough because each round but the last settles one. The search for the steps before a step
-- takes one round more than there are edges, because every round but the last takes an item off
-- the stack and every edge puts one there once. The search for a path between inventories takes
-- two levels more than there are inventories, and the search for their sources one, because a
-- path repeats none of them.
--
-- Not modelled: sessions, locks and rollbacks of the database; the refresh of inventories, which
-- is an argument of the completion; the loop over the candidates of a slice claim; assignment
-- manifests; how an executable definition is rendered to text; views, configuration, the sources
-- of inventories, credentials, certificates, notifications and the command line.
pub mod Base
pub mod Runner
pub mod Job
pub mod Workflow
pub mod Oversight
pub mod Concurrency
pub mod Lifecycle
pub mod Cancellation
pub mod Claim
pub mod Propagation
pub mod Inventory
pub mod Dispatch
pub mod Draining
pub mod Routing
pub mod System
pub mod Approval
pub mod Tests
