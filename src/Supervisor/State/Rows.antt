-- ===== src/Supervisor/State/Rows.antt =====
-- The rows of incidents, attempts and the worker lease, ManagedProcess, SupervisorOptions and the attributes of
-- MinerSupervisor, of controller/miner_supervisor.py and controller/models.py.
use twitch_car_factory.Base.{ℕ, Bool, Option, List, nat_eq}
use twitch_car_factory.Base.Dict.{Dict}
use twitch_car_factory.Base.Exec.{Exec}
use twitch_car_factory.Json.{ℤ}
use twitch_car_factory.Control.Text.{Text}
use twitch_car_factory.Control.Model.{Account, StopReason, Database}
use twitch_car_factory.Control.Resolve.{ServiceError, Platform}
use twitch_car_factory.Control.Calls.{Call}

pub data IncidentKind : Type 0 where
  exited_unexpectedly unclean_supervisor : IncidentKind

pub data IncidentStatus : Type 0 where
  opened recovered : IncidentStatus

pub data Outcome : Type 0 where
  scheduled started done failed : Outcome

-- MinerIncident
pub record Incident : Type 0 where
  pub incident_id : ℕ
  pub account_id : Option ℕ
  pub run_id : Option ℕ
  pub kind : IncidentKind
  pub status : IncidentStatus
  pub details : Text
  pub opened_at : ℕ
  pub recovered_at : Option ℕ

-- RestartAttempt
pub record Attempt : Type 0 where
  pub attempt_id : ℕ
  pub incident_id : ℕ
  pub run_id : Option ℕ
  pub attempt_number : ℕ
  pub scheduled_at : ℕ
  pub started_at : Option ℕ
  pub finished_at : Option ℕ
  pub outcome : Outcome
  pub error : Text

-- WorkerLease
pub record WorkerLease : Type 0 where
  pub owner_id : Text
  pub acquired_at : ℕ
  pub heartbeat_at : ℕ
  pub expires_at : ℕ

-- The database. Drafts are pairs of a key and `expires_at`.
pub record Farm : Type 0 where
  pub control : Database
  pub incidents : List Incident
  pub attempts : List Attempt
  pub lease : Option WorkerLease
  pub drafts : List (ℕ × ℕ)
  pub next_incident : ℕ
  pub next_attempt : ℕ

-- What a child reports, as _parse_control_event lets it through.
pub data ControlEvent : Type 0 where
  device_code : Text → Text → ℕ → ControlEvent
  authenticated : ControlEvent
  authentication_failed : Text → ControlEvent
  watching_channels : List Text → List Text → ControlEvent

-- ManagedProcess, whose process is named by a number. The queue of control events is a list.
pub record ManagedProcess : Type 0 where
  pub process : ℕ
  pub account_id : ℕ
  pub run_id : ℕ
  pub spawned_monotonic : ℕ
  pub confirmed : Bool
  pub command_id : Option ℕ
  pub restart_attempt_id : Option ℕ
  pub cleanup_required : Bool
  pub cleanup_error : Text
  pub pending_stop_reason : Option StopReason
  pub pending_stop_forced : Bool
  pub auth_required : Bool
  pub is_authenticated : Bool
  pub authentication_deadline : Option ℕ
  pub control_events : List ControlEvent
  pub latest_watching_event : Option ControlEvent

-- SupervisorOptions, in microseconds.
pub record SupervisorOptions : Type 0 where
  pub health_poll : ℕ
  pub fingerprint_poll : ℕ
  pub startup_grace : ℕ
  pub authentication_handshake : ℕ
  pub rapid_restart_backoff : List ℕ
  pub degraded_retry : ℕ
  pub stable_reset : ℕ
  pub command_lease : ℕ
  pub worker_lease : ℕ
  pub worker_heartbeat : ℕ
  pub require_authentication_events : Bool
  pub fake_miner : Bool

-- The exceptions: of the services, of the database, of the host, and those that the methods raise.
pub data SupervisorError : Type 0 where
  service_error : ServiceError → SupervisorError
  database_error : Text → SupervisorError
  host_error : Text → SupervisorError
  runtime_error value_error : Text → SupervisorError
  already_running lease_lost not_found : SupervisorError
  -- The errors of a group, from the second one on in the tail.
  grouped : SupervisorError → SupervisorError → SupervisorError

-- What signalling a process, or waiting for it, comes to. `lookup_error` is a ProcessLookupError.
pub data Signalled : Type 0 where
  sent lookup_error : Signalled
  refused : Text → Signalled

pub data Waited : Type 0 where
  exited : ℤ → Waited
  timed_out unreported : Waited
  broken : Text → Waited

-- What is not in the repository: the clocks, the processes, the database's failures, and the web
-- requests that other processes serve between two statements. `spawn` is everything that may fail
-- before the child is there.
pub record Host (W : Type 0) : Type 0 where
  pub now : W → ℕ × W
  pub monotonic : W → ℕ × W
  pub spawn : List Text → W → Option Text × W
  pub poll : ℕ → W → Option ℤ × W
  pub terminate : ℕ → W → Signalled × W
  pub kill : ℕ → W → Signalled × W
  pub wait : ℕ → W → Waited × W
  pub database_fault : W → Option Text × W
  pub web : W → List Call × W
  pub arrivals : W → List (ℕ × ControlEvent) × W
  pub remove_session : Account → W → Option Text × W

-- One supervisor: its host, its options, and the functions on texts that it uses. `redact` is the
-- pair of substitutions of safe_error, and the last three are
-- `str` of an exception, of a number and of a return code.
pub record Setup (W : Type 0) : Type 0 where
  pub host : Host W
  pub platform : Platform
  pub options : SupervisorOptions
  pub worker : Text
  pub redact : Text → Text
  pub describe : SupervisorError → Text
  pub show_number : ℕ → Text
  pub show_code : Option ℤ → Text

-- (account, return code, reason, error)
abbrev pub Pending : Type 0
Pending = ℕ × Option ℤ × StopReason × Text

-- MinerSupervisor with the database and the world. `live` is not in the code: the children that
-- were started and that no poll and no wait has reported as ended. `locked` is true in a transaction.
pub record Worker (W : Type 0) : Type 0 where
  pub farm : Farm
  pub processes : Dict ℕ ManagedProcess
  pub pending_run_finalizations : Dict ℕ Pending
  pub is_started : Bool
  pub shutdown_incomplete : Bool
  pub recovered_stale_lease : Bool
  pub last_health : Option ℕ
  pub last_fingerprint : Option ℕ
  pub last_heartbeat : Option ℕ
  pub next_process : ℕ
  pub live : List ℕ
  pub locked : Bool
  pub world : W

abbrev pub Act : Type 0 → Type 0 → Type 0
Act W A = Exec SupervisorError (Worker W) A
