-- ===== src/Runner.antt =====
-- Runner rows (app/models/runner.py), their health (app/services/runners.py, `runner_health`), what
-- they report of execution environments (app/services/runner_environments.py) and the release of a
-- drain (app/services/runner_draining.py).
use journeyman.Base.{
  ℕ, ◌-◌, Bool, true, false, ◌&&◌, not, Option, none, some, List, String, any, all, if◌then◌else◌,
  leb, ◌==◌, is_none, str_eq, map, opt_eq, first,
}

-- RunnerEnvironment.status, stripped and lowered
pub data EnvironmentStatus : Type 0 where
  ready building failed other : EnvironmentStatus

pub record ReportedEnvironment : Type 0 where
  pub environment_id : ℕ
  pub status : EnvironmentStatus
  pub environment_revision : String

pub record Runner : Type 0 where
  pub id : ℕ
  pub name : String
  pub hostname : String
  pub runner_uuid : String
  pub site : String
  pub enabled : Bool
  pub is_local : Bool
  pub is_registered : Bool
  pub pki_quarantined : Bool
  pub drain_job_id : Option ℕ
  pub drain_requested_at : Option ℕ
  pub drain_reason : String
  pub status_message : String
  pub last_heartbeat_at : Option ℕ
  pub running_steps : ℕ
  pub max_concurrent_steps : ℕ
  pub capabilities : List String  -- capabilities()
  pub environments : List ReportedEnvironment

pub data Health : Type 0 where
  disabled quarantined draining offline pending warning healthy : Health

-- RUNNER_HEARTBEAT_WARNING_SECONDS and RUNNER_HEARTBEAT_OFFLINE_SECONDS
abbrev pub heartbeat_warning_seconds : ℕ
heartbeat_warning_seconds = 90

abbrev pub heartbeat_offline_seconds : ℕ
heartbeat_offline_seconds = 180

-- `-` on ℕ stops at 0, as `max(0, …)` does
abbrev pub health_of_age : ℕ → Health
health_of_age age =
    if leb heartbeat_offline_seconds age
    then Health.offline
    else if leb heartbeat_warning_seconds age
    then Health.warning
    else Health.healthy

abbrev pub heartbeat_health : ℕ → Option ℕ → Health
heartbeat_health now none = Health.offline
heartbeat_health now (some heartbeat) = health_of_age (now - heartbeat)

unfoldable pub runner_health : ℕ → Runner → Health
runner_health now runner =
    if not runner.enabled
    then Health.disabled
    else if not runner.is_local && runner.pki_quarantined
    then Health.quarantined
    else if not (is_none runner.drain_job_id)
    then Health.draining
    else if runner.is_local && str_eq runner.status_message "Stopped"
    then Health.offline
    else if not runner.is_local && not runner.is_registered
    then Health.pending
    else heartbeat_health now runner.last_heartbeat_at

abbrev pub is_healthy : Health → Bool
is_healthy Health.healthy = true
is_healthy _ = false

abbrev pub is_offline : Health → Bool
is_offline Health.offline = true
is_offline _ = false

-- EnvironmentRequirement
pub record Requirement : Type 0 where
  pub environment_id : ℕ
  pub name : String
  pub revision : String

pub data EnvironmentState : Type 0 where
  ready building failed out_of_date not_installed : EnvironmentState

abbrev pub reported_state : Requirement → Option ReportedEnvironment → EnvironmentState
reported_state requirement none = EnvironmentState.not_installed
reported_state requirement (some row) = elim row.status [
  | EnvironmentStatus.ready ↦
      if str_eq row.environment_revision requirement.revision
      then EnvironmentState.ready
      else EnvironmentState.out_of_date
  | EnvironmentStatus.building ↦ EnvironmentState.building
  | EnvironmentStatus.failed ↦ EnvironmentState.failed
  | EnvironmentStatus.other ↦ EnvironmentState.not_installed
]

-- `_reported_row`
abbrev pub reported_row : Runner → Requirement → Option ReportedEnvironment
reported_row runner requirement =
    first (λ row. row.environment_id == requirement.environment_id) runner.environments

unfoldable pub runner_environment_state : Runner → Option Requirement → EnvironmentState
runner_environment_state runner none = EnvironmentState.ready
runner_environment_state runner (some requirement) =
    reported_state requirement (reported_row runner requirement)

unfoldable pub runner_environment_ready : Runner → Option Requirement → Bool
unfolding runner_environment_state
runner_environment_ready runner requirement = elim (runner_environment_state runner requirement) [
  | EnvironmentState.ready ↦ true
  | _ ↦ false
]

-- `required.issubset(capabilities)`
abbrev pub is_subset : List String → List String → Bool
is_subset required available = all (λ c. any (λ d. str_eq d c) available) required

-- `release_runner_drain_for_job`, on every runner that the job drains (at most one row)
abbrev pub release_drain : ℕ → Runner → Runner
release_drain job_id runner =
    if opt_eq runner.drain_job_id (some job_id)
    then record runner { drain_job_id = none; drain_requested_at = none; drain_reason = "" }
    else runner

unfoldable pub release_runner_drain_for_job : ℕ → List Runner → List Runner
release_runner_drain_for_job job_id runners = map (release_drain job_id) runners
