-- ===== src/Tests/Worker.antt =====
-- Startups, exits, recoveries and leases of the supervisor of one account.
pub mod Fixture
unfoldable pub use Fixture.*
use twitch_car_factory.Base.{
  ℕ, suc, ◌≤◌, ◌<◌, ◌↔◌, true, false, none, some, List, [], ◌∷◌, ◌≡◌, ◌⊎◌, refl, Member, All, arith,
  inl, inr,
}
use twitch_car_factory.Base.Result.{ok, err}
use twitch_car_factory.Json.{pos}
use twitch_car_factory.Control.Model.{
  Account, Database, new_state, running, twitch_tv, default, admin_stop,
}
use twitch_car_factory.Control.Resolve.{Platform}
use twitch_car_factory.Supervisor.State.{
  Host, Setup, Farm, Worker, SupervisorOptions, SupervisorError, Attempt, scheduled, exited, sent,
  already_running, ManagedProcess,
}
use twitch_car_factory.Supervisor.Process.{terminate_owned_process, flush_pending_run_finalizations}
use twitch_car_factory.Supervisor.Exit.{handle_unexpected_exit}
use twitch_car_factory.Supervisor.Startup.{acquire_database_lease}
use twitch_car_factory.Supervisor.Execute.{heartbeat, owns_lease}
use twitch_car_factory.Supervisor.Lifetime.{shutdown}
use twitch_car_factory.Supervisor.Recovery.{new_attempt, soonest, scheduled_of}
use twitch_car_factory.Supervisor.Safety.{
  Task, starting, round, IsFresh, live_through, IsHeld, live_children-IsHeld, shutdown-alone,
  terminate_owned_process-ended,
}
use twitch_car_factory.Supervisor.Schedule.{new_attempt-after, Picks, soonest-scheduled_of}
use twitch_car_factory.Supervisor.Pending.{IsFaultless, flush-done}
use twitch_car_factory.Supervisor.Acquire.{IsTaken, Acquired, acquire_database_lease-exclusive}
use twitch_car_factory.Supervisor.Rollback.{Undone, handle_unexpected_exit-Undone, heartbeat-lost}

live_children-IsHeld_example :
    All (IsHeld (live_through setup tasks fresh)) (live_through setup tasks fresh).live
live_children-IsHeld_example = live_children-IsHeld setup tasks fresh fresh-IsFresh

shutdown-alone_example :
    ((shutdown setup (live_through setup tasks fresh)).1.live ≡ [])
    ⊎ ((e : SupervisorError) × ((shutdown setup (live_through setup tasks fresh)).0 ≡ err e))
shutdown-alone_example = shutdown-alone setup tasks fresh fresh-IsFresh

-- The child with which the others begin.
abbrev child : ManagedProcess
child = record {
  process = 0;
  account_id = 1;
  run_id = 1;
  spawned_monotonic = 100;
  confirmed = true;
  command_id = none;
  restart_attempt_id = none;
  cleanup_required = false;
  cleanup_error = [];
  pending_stop_reason = none;
  pending_stop_forced = false;
  auth_required = false;
  is_authenticated = false;
  authentication_deadline = none;
  control_events = [];
  latest_watching_event = none;
}

abbrev busy : Worker ℕ
busy = record fresh {
  processes = (1, child) ∷ [];
  pending_run_finalizations = (7, (1, some (pos 0), admin_stop, [])) ∷ [];
  is_started = true;
  next_process = 1;
  live = 0 ∷ [];
}

terminate_owned_process-ended_example :
    (¬ Member 0 (terminate_owned_process setup 0 busy).1.live)
    ⊎ ((e : SupervisorError) × ((terminate_owned_process setup 0 busy).0 ≡ err e))
terminate_owned_process-ended_example = terminate_owned_process-ended setup 0 busy

handle_unexpected_exit-Undone_example :
    ((handle_unexpected_exit setup child (some (pos 1)) true false busy).0 ≡ ok true)
    ⊎ (((handle_unexpected_exit setup child (some (pos 1)) true false busy).0 ≡ ok false)
        × Undone setup busy (handle_unexpected_exit setup child (some (pos 1)) true false busy).1)
handle_unexpected_exit-Undone_example =
    handle_unexpected_exit-Undone setup child (some (pos 1)) true false busy

setup-IsFaultless : IsFaultless setup
setup-IsFaultless = record { faultless = λ w. refl }

flush-done_example :
    ((flush_pending_run_finalizations setup none busy).0 ≡ ok 0)
    × ((flush_pending_run_finalizations setup none busy).1.pending_run_finalizations ≡ [])
flush-done_example = flush-done setup setup-IsFaultless busy

-- The lease of another worker until 500.
abbrev held : Worker ℕ
held = record fresh {
  farm = record farm {
    lease =
        some (record { owner_id = 2 ∷ []; acquired_at = 90; heartbeat_at = 90; expires_at = 500 });
  };
}

acquire_database_lease-exclusive_example :
    (((acquire_database_lease setup held).0 ≡ err already_running)
      ↔ IsTaken setup 100 held.farm.lease)
    × Acquired setup 100 held
        (acquire_database_lease setup held).0
        (acquire_database_lease setup held).1
acquire_database_lease-exclusive_example = acquire_database_lease-exclusive setup held

abbrev attempt_at : ℕ → ℕ → Attempt
attempt_at number at = record {
  attempt_id = number;
  incident_id = 1;
  run_id = none;
  attempt_number = number;
  scheduled_at = at;
  started_at = none;
  finished_at = none;
  outcome = scheduled;
  error = [];
}

abbrev tried : Farm
tried = record farm { attempts = attempt_at 1 300 ∷ attempt_at 2 200 ∷ [] }

new_attempt-after_example : 2 < (new_attempt 1 400 tried).attempt_number
new_attempt-after_example = new_attempt-after 1 400 tried (attempt_at 2 200) (inr (inl refl)) refl

soonest-scheduled_of_example : Picks 1 tried.attempts (soonest (scheduled_of 1 tried.attempts))
soonest-scheduled_of_example = soonest-scheduled_of 1 tried.attempts

-- The lease is the other worker's.
worker_owns_none : owns_lease setup.worker held.farm.lease ≡ false
worker_owns_none = refl

heartbeat-lost_example :
    ((e : SupervisorError) × ((heartbeat setup true held).0 ≡ err e))
    × (((heartbeat setup true held).1.farm.lease ≡ held.farm.lease)
        × ((heartbeat setup true held).1.last_heartbeat ≡ held.last_heartbeat))
heartbeat-lost_example = heartbeat-lost setup held worker_owns_none
