-- ===== src/Supervisor/Start.antt =====
-- start_account, restart_account, authenticate_account and _remove_runtime_session of
-- controller/miner_supervisor.py. Their argument prepared_run is never given.
pub mod Begin
unfoldable pub use Begin.*
use twitch_car_factory.Base.{
  ℕ, ◌+◌, Bool, true, false, not, ◌&&◌, ◌||◌, Option, none, some, ◌++◌, ◌==◌, nat_eq, is_some,
  if◌then◌else◌,
}
use twitch_car_factory.Base.Dict.{lookup, erase}
use twitch_car_factory.Base.Exec.{pure, raise, attempt, on_option, ◌>>=◌, ◌>>◌}
use twitch_car_factory.Control.Text.{Text, text}
use twitch_car_factory.Control.Model.{
  Run, StopReason, start_failed, authentication_failed, authentication_reset, starting, is_running,
  restarting, degraded, is_stopped, unknown, unlinked, cancelled, wants_running,
}
use twitch_car_factory.Control.Launch.{create_launch_snapshot}
use twitch_car_factory.Supervisor.State.{
  Setup, Act, ManagedProcess, SupervisorError, runtime_error, value_error, host_error, sense, now,
  read, write, with_control, service, get_account, get_state, get_or_create_state, update_state,
  update_managed, managed_of,
}
use twitch_car_factory.Supervisor.Process.{
  poll, finalize_or_remember, flush_pending_run_finalizations, safe_exception,
}
use twitch_car_factory.Supervisor.Recovery.{
  take_over_recovery, scheduled_recovery_attempt, schedule_open_recovery_if_unowned,
}
use twitch_car_factory.Supervisor.Exit.{end_command, handle_unexpected_exit}
use twitch_car_factory.Supervisor.Stop.{
  rescue, stop_account, without_login, reconcile_required_cleanup,
}
use twitch_car_factory.Supervisor.Spawn.{owns, spawn_snapshot_if_desired_running}

module _ {W : Type 0} (u : Setup W) where
  unfoldable pub old_child : Option Run → Option ManagedProcess → Act W (Option ManagedProcess)
  old_child run none = pure none
  old_child run (some m) =
      if elim run [ none ↦ false | some r ↦ owns u r (some m) ]
      then pure none
      else (do code ← poll u m.process; pure (if is_some code then none else some m))

  abbrev has_confirmed : Option ManagedProcess → Bool
  has_confirmed none = false
  has_confirmed (some m) = m.confirmed

  unfoldable pub record_restart_failure :
      ℕ → Option Run → Option ManagedProcess → Bool → SupervisorError → Act W (Unit {0})
  record_restart_failure id run owned taken_over e = do
    get_or_create_state u id
    state ← get_state u id
    alive ← old_child run owned
    scheduled ← scheduled_recovery_attempt u id
    if not (wants_running state.desired_state)
        then update_state u id (λ t. record t {
          observed_state = is_stopped;
          last_error = safe_exception u e;
          next_retry_at = none;
        })
        else if not taken_over && is_some scheduled
        then update_state u id (λ t. record t { last_error = safe_exception u e })
        else (do
          at ← now u
          update_state u id (λ t. record t {
            observed_state = if has_confirmed alive then is_running else degraded;
            last_error = safe_exception u e;
            next_retry_at = if is_some alive then none else some (at + u.options.degraded_retry);
          })
          schedule_open_recovery_if_unowned u id state.desired_state
          pure tt)

  -- The handler of restart_account: an exception of its own bookkeeping is only logged.
  unfoldable pub restart_did_fail : ℕ → Option Run → Bool → SupervisorError → Act W (Unit {0})
  restart_did_fail id run taken_over e = do
    owned ← managed_of u id
    on_option run (pure tt) (close_unowned u id start_failed e)
    attempt (record_restart_failure id run owned taken_over e)
    pure tt

  -- The attempt of a recovery child that lives, which keeps it until it is stopped.
  unfoldable pub preserved_attempt : Option ManagedProcess → Act W (Option ℕ)
  preserved_attempt none = pure none
  preserved_attempt (some m) = do
    code ← poll u m.process
    pure (if is_some code then none else m.restart_attempt_id)

  unfoldable pub take_over_restart : ℕ → Bool → Act W (Unit {0})
  take_over_restart id reset_failures = do
    existing ← managed_of u id
    preserved ← preserved_attempt existing
    take_over_recovery u id (text "restart") reset_failures preserved

  unfoldable pub swap_child : ℕ → StopReason → Run → Option ℕ → Act W ManagedProcess
  swap_child id reason run command = do
    update_state u id (λ t. record t { observed_state = restarting })
    stop_account u id reason true (some restarting) command
    spawn_snapshot_if_desired_running u run command

  -- restart_account
  unfoldable pub restart_account : ℕ → StopReason → Bool → Option ℕ → Act W ManagedProcess
  restart_account id reason reset_failures command = do
    require_flushed u id (text "restart")
    run ← rescue u (snapshot u id false) (restart_did_fail id none false)
    rescue u (take_over_restart id reset_failures) (restart_did_fail id (some run) false)
    rescue u (swap_child id reason run command) (restart_did_fail id (some run) true)

  -- _remove_runtime_session
  unfoldable pub remove_runtime_session : ℕ → Act W (Unit {0})
  remove_runtime_session id = do
    account ← get_account u id
    fault ← sense (u.host.remove_session account)
    on_option fault
        (write u (with_control λ db. record db { session_seeds = erase id db.session_seeds }))
        λ e. raise (host_error e)

  unfoldable pub handshake : ℕ → Run → ℕ → Act W ManagedProcess
  handshake id run command = do
    stop_account u id authentication_reset true (some starting) (some command)
    remove_runtime_session id
    get_or_create_state u id
    at ← now u
    update_state u id (without_login unlinked at)
    spawn_snapshot_if_desired_running u run (some command)

  -- authenticate_account
  unfoldable pub authenticate_account : ℕ → ℕ → Act W ManagedProcess
  authenticate_account id command = do
    run ← snapshot u id true
    rescue u (handshake id run command) (λ e. close_unowned u id authentication_failed e run)
