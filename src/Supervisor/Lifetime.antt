-- ===== src/Supervisor/Lifetime.antt =====
-- startup, run_once, _cleanup_released_shutdown_process and shutdown of
-- controller/miner_supervisor.py.
use twitch_car_factory.Base.{
  ℕ, Bool, true, false, not, ◌&&◌, ◌||◌, Option, none, some, List, [], ◌∷◌, ◌++◌, ◌==◌, nat_eq,
  text_eq, is_empty, or_else, if◌then◌else◌,
}
use twitch_car_factory.Base.Dict.{lookup, insert, keys}
use twitch_car_factory.Base.Result.{Result, ok, err}
use twitch_car_factory.Base.Exec.{pure, raise, gets, modify, attempt, on_option, ◌>>=◌, ◌>>◌}
use twitch_car_factory.Control.Text.{Text, text}
use twitch_car_factory.Control.Model.{InstanceState, supervisor_shutdown, unknown}
use twitch_car_factory.Control.Launch.{purge_expired}
use twitch_car_factory.Supervisor.State.{
  Setup, Act, Worker, Farm, ManagedProcess, SupervisorError, grouped, runtime_error, now, monotonic,
  write, with_control, get_account, managed_of, update_managed,
}
use twitch_car_factory.Supervisor.Process.{
  terminate_owned_process, close_run, flush_pending_run_finalizations,
}
use twitch_car_factory.Supervisor.Recovery.{fail_restart_attempt}
use twitch_car_factory.Supervisor.Exit.{drop_managed, reason_label}
use twitch_car_factory.Supervisor.Stop.{rescue, stop_account}
use twitch_car_factory.Supervisor.Rounds.{check_health, reconcile_desired_state}
use twitch_car_factory.Supervisor.Due.{perform_due_recoveries}
use twitch_car_factory.Supervisor.Refresh.{reconcile_fingerprints}
use twitch_car_factory.Supervisor.Execute.{owns_lease, within, heartbeat, process_pending_commands}
use twitch_car_factory.Supervisor.Startup.{acquire_database_lease, reconcile_startup}

-- The row of a run that is this worker's still.
abbrev pub names_run : Text → ℕ → InstanceState → Bool
names_run worker run_id t =
    t.worker_id == worker && (elim t.current_run [ none ↦ false | some r ↦ r == run_id ])

abbrev pub left_behind : ℕ → InstanceState → InstanceState
left_behind at t = record t {
  current_run = none;
  advisory_pid = none;
  worker_id = [];
  observed_state = unknown;
  next_retry_at = none;
  stable_since = none;
  watching_channels = [];
  online_channels = [];
  watching_updated_at = none;
  last_heartbeat = some at;
  last_error = [];
}

unfoldable pub leave_state : Text → ManagedProcess → ℕ → Farm → Farm
leave_state worker m at = with_control λ db. elim (lookup m.account_id db.states) [
  | none ↦ db
  | some t ↦
      if names_run worker m.run_id t
      then record db { states = insert m.account_id (left_behind at t) db.states }
      else db
]

unfoldable pub shutdown_failure : List SupervisorError → Option SupervisorError
shutdown_failure [] = none
shutdown_failure (e ∷ es) =
    let rest = shutdown_failure es in elim rest [ none ↦ some e | some g ↦ some (grouped e g) ]

abbrev pub errors_of : {A : Type 0} → Result SupervisorError A → List SupervisorError
errors_of (ok _) = []
errors_of (err e) = e ∷ []

module _ {W : Type 0} (u : Setup W) where
  -- `WorkerLease.objects.filter(owner_id=...).delete()`
  unfoldable pub release_lease : Act W (Unit {0})
  release_lease =
      write u (λ f. if owns_lease u.worker f.lease then record f { lease = none } else f)

  unfoldable pub purge_drafts : Act W (Unit {0})
  purge_drafts = do at ← now u; write u (λ f. record f { drafts = purge_expired at f.drafts })

  abbrev pub command_limit : ℕ
  command_limit = 100

  -- The block of startup.
  unfoldable pub start_up : Act W (Unit {0})
  start_up = do
    acquire_database_lease u
    purge_drafts
    reconcile_startup u
    heartbeat u true
    modify (λ s. record s { is_started = true })
    process_pending_commands u command_limit
    reconcile_desired_state u
    perform_due_recoveries u
    pure tt

  -- startup
  unfoldable pub startup : Act W (Unit {0})
  startup = do
    begun ← gets (λ s. s.is_started)
    if begun then pure tt else rescue u start_up (λ _. release_lease)

  unfoldable pub check_if_due : Bool → ℕ → Act W (Unit {0})
  check_if_due force clock = do
    last ← gets (λ s. s.last_health)
    if force || not (within last clock u.options.health_poll)
        then (check_health u >> modify (λ s. record s { last_health = some clock }))
        else pure tt

  unfoldable pub refresh_if_due : Bool → ℕ → Act W (Unit {0})
  refresh_if_due force clock = do
    last ← gets (λ s. s.last_fingerprint)
    if force || not (within last clock u.options.fingerprint_poll)
        then (do
          purge_drafts
          reconcile_fingerprints u
          modify (λ s. record s { last_fingerprint = some clock }))
        else pure tt

  -- run_once
  unfoldable pub run_once : Bool → Act W (Unit {0})
  run_once force = do
    begun ← gets (λ s. s.is_started)
    if not begun
        then raise (runtime_error (text "MinerSupervisor.startup() must run before the loop."))
        else (do
          heartbeat u force
          flush_pending_run_finalizations u none
          process_pending_commands u command_limit
          clock ← monotonic u
          check_if_due force clock
          perform_due_recoveries u
          refresh_if_due force clock)

  -- _cleanup_released_shutdown_process
  unfoldable pub cleanup_released : ManagedProcess → Act W (Unit {0})
  cleanup_released managed = do
    (returncode, forced_now) ← terminate_owned_process u managed.process
    let forced = managed.pending_stop_forced || forced_now
    let reason = or_else managed.pending_stop_reason supervisor_shutdown
    update_managed u managed
        (λ m. record m { pending_stop_reason = some reason; pending_stop_forced = forced })
    fail_restart_attempt u managed.restart_attempt_id (
        text "Recovery attempt was superseded by planned stop reason "
        ++ reason_label reason
        ++ text ".")
    close_run u managed.run_id (some returncode) reason
        (if forced then text "Forced kill after graceful-stop timeout." else [])
    at ← now u
    write u (leave_state u.worker managed at)
    drop_managed u managed

  -- One round of the loop of shutdown.
  unfoldable pub shut_child : Bool → ℕ → Act W (Unit {0})
  shut_child owns id =
      if owns
      then (do
        get_account u id
        stop_account u id supervisor_shutdown true (some unknown) none
        pure tt)
      else (do managed ← managed_of u id; on_option managed (pure tt) cleanup_released)

  unfoldable pub shut_children : Bool → List ℕ → Act W (List SupervisorError)
  shut_children owns [] = pure []
  shut_children owns (id ∷ ids) = do
    outcome ← attempt (shut_child owns id)
    rest ← shut_children owns ids
    pure (errors_of outcome ++ rest)

  unfoldable pub shut_down : Act W (Unit {0})
  shut_down = do
    modify (λ s. record s { shutdown_incomplete = true })
    owns ← gets (λ s. s.is_started)
    ids ← gets (λ s. keys s.processes)
    errors ← shut_children owns ids
    released ← attempt release_lease
    modify (λ s. record s { is_started = false })
    on_option (shutdown_failure (errors ++ errors_of released))
        (modify (λ s. record s { shutdown_incomplete = false })) raise

  abbrev pub has_nothing_to_shut : Worker W → Bool
  has_nothing_to_shut s = not s.is_started && is_empty s.processes && not s.shutdown_incomplete

  -- shutdown
  unfoldable pub shutdown : Act W (Unit {0})
  shutdown = do idle ← gets has_nothing_to_shut; if idle then pure tt else shut_down
