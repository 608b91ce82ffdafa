-- ===== src/Supervisor/Start/Begin.antt =====
-- start_account of controller/miner_supervisor.py.
use twitch_car_factory.Base.{
  ℕ, ◌+◌, Bool, true, false, not, ◌&&◌, ◌||◌, Option, none, some, ◌++◌, ◌==◌, nat_eq, is_some,
  if◌then◌else◌,
}
use twitch_car_factory.Base.Dict.{lookup}
use twitch_car_factory.Base.Exec.{pure, raise, on_option, ◌>>=◌, ◌>>◌}
use twitch_car_factory.Control.Text.{Text, text}
use twitch_car_factory.Control.Model.{
  Run, StopReason, start_failed, degraded, is_stopped, unknown, cancelled, wants_running,
}
use twitch_car_factory.Control.Launch.{create_launch_snapshot}
use twitch_car_factory.Supervisor.State.{
  Setup, Act, ManagedProcess, SupervisorError, runtime_error, value_error, now, read, service,
  get_account, get_state, get_or_create_state, update_state, update_managed, managed_of,
}
use twitch_car_factory.Supervisor.Process.{
  poll, finalize_or_remember, flush_pending_run_finalizations, safe_exception,
}
use twitch_car_factory.Supervisor.Recovery.{
  take_over_recovery, scheduled_recovery_attempt, schedule_open_recovery_if_unowned,
}
use twitch_car_factory.Supervisor.Exit.{end_command, handle_unexpected_exit}
use twitch_car_factory.Supervisor.Stop.{rescue, stop_account, reconcile_required_cleanup}
use twitch_car_factory.Supervisor.Spawn.{owns, spawn_snapshot_if_desired_running}

module _ {W : Type 0} (u : Setup W) where
  abbrev pub not_flushed : Text → Text
  not_flushed verb =
      text "A previous launch is still awaiting durable run finalization; a replacement will not "
      ++ verb
      ++ text " yet."

  -- No launch starts while an earlier run of the account is not closed.
  unfoldable pub require_flushed : ℕ → Text → Act W (Unit {0})
  require_flushed id verb = do
    left ← flush_pending_run_finalizations u (some id)
    if left == 0 then pure tt else raise (runtime_error (not_flushed verb))

  unfoldable pub settle_cleanup : ℕ → Act W (Unit {0})
  settle_cleanup id = do
    existing ← managed_of u id
    on_option existing (pure tt)
        λ m. if m.cleanup_required then reconcile_required_cleanup u m else pure tt

  unfoldable pub settle_stop : ℕ → Act W (Unit {0})
  settle_stop id = do
    existing ← managed_of u id
    on_option existing (pure tt) λ m.
        on_option m.pending_stop_reason (pure tt)
          λ reason. stop_account u id reason true (some unknown) none >> pure tt

  -- A child that lives on is the one that is asked for.
  unfoldable pub reuse : ManagedProcess → Option ℕ → Act W ManagedProcess
  reuse m command = on_option (if m.confirmed then none else command) (pure m) λ id. do
    on_option m.command_id (pure tt) λ old.
        if old == id
        then pure tt
        else end_command u old cancelled (text "Superseded by another start command.")
    update_managed u m (λ n. record n { command_id = some id })
    pure (record m { command_id = some id })

  -- What the launch's run and the account's row come to when a start fails.
  unfoldable pub close_unowned : ℕ → StopReason → SupervisorError → Run → Act W (Unit {0})
  close_unowned id reason e run = do
    owned ← managed_of u id
    if owns u run owned
        then pure tt
        else (finalize_or_remember u run.run_id run.account_id none reason (u.describe e)
            >> pure tt)

  unfoldable pub degrade_start : ℕ → Bool → SupervisorError → Act W (Unit {0})
  degrade_start id taken_over e = do
    state ← get_state u id
    scheduled ← scheduled_recovery_attempt u id
    if not (wants_running state.desired_state)
        then update_state u id (λ t. record t {
          observed_state = is_stopped;
          next_retry_at = none;
          last_error = safe_exception u e;
        })
        else if not taken_over && is_some scheduled
        then update_state u id (λ t. record t { last_error = safe_exception u e })
        else (do
          at ← now u
          update_state u id (λ t. record t {
            observed_state = degraded;
            last_error = safe_exception u e;
            next_retry_at = some (at + u.options.degraded_retry);
          })
          schedule_open_recovery_if_unowned u id state.desired_state
          pure tt)

  unfoldable pub start_did_fail : ℕ → Option Run → Bool → SupervisorError → Act W (Unit {0})
  start_did_fail id run taken_over e = do
    on_option run (pure tt) (close_unowned id start_failed e)
    degrade_start id taken_over e

  unfoldable pub snapshot : ℕ → Bool → Act W Run
  snapshot id reset_session =
      service u (create_launch_snapshot u.platform id u.worker reset_session)

  -- The second half of start_account, where no child is left.
  unfoldable pub launch : ℕ → Bool → Option ℕ → Act W ManagedProcess
  launch id reset_failures command = do
    run ← rescue u (snapshot id false) (start_did_fail id none false)
    rescue u (take_over_recovery u id (text "start") reset_failures none)
        (start_did_fail id (some run) false)
    rescue u (spawn_snapshot_if_desired_running u run command) (start_did_fail id (some run) true)

  unfoldable pub launch_if_able : ℕ → Bool → Option ℕ → Act W ManagedProcess
  launch_if_able id reset_failures command = do
    get_or_create_state u id
    account ← get_account u id
    credential ← read u (λ f. lookup id f.control.credentials)
    if not account.is_active || not (is_some credential)
        then (do
          let error =
              if account.is_active
              then text "Account has no stored Twitch password."
              else text "Account is archived."
          at ← now u
          update_state u id (λ t. record t {
            observed_state = degraded;
            last_error = error;
            next_retry_at = some (at + u.options.degraded_retry);
          })
          raise (value_error error))
        else launch id reset_failures command

  -- A child that has died is recorded before another one takes its place.
  unfoldable pub replace_dead : ℕ → ManagedProcess → Bool → Option ℕ → Act W ManagedProcess
  replace_dead id m reset_failures command = do
    code ← poll u m.process
    finalized ← handle_unexpected_exit u m code (not (is_some command)) false
    if not finalized
        then raise (
            runtime_error (
              text
                "An existing miner exit is still awaiting durable bookkeeping; a replacement will not start yet."))
        else if not (is_some command)
        then raise (
            runtime_error
              (text "An existing miner exit was detected and scheduled for supervised recovery."))
        else launch_if_able id reset_failures command

  unfoldable pub start_over : ℕ → ManagedProcess → Bool → Option ℕ → Act W ManagedProcess
  start_over id m reset_failures command =
      if m.cleanup_required || is_some m.pending_stop_reason
      then raise (
          runtime_error (
            text
              "A previous miner run is still awaiting durable finalization; a replacement will not start yet."))
      else (do
        code ← poll u m.process
        on_option code (reuse m command) λ c. replace_dead id m reset_failures command)

  -- start_account
  unfoldable pub start_account : ℕ → Bool → Option ℕ → Act W ManagedProcess
  start_account id reset_failures command = do
    require_flushed id (text "start")
    settle_cleanup id
    settle_stop id
    existing ← managed_of u id
    on_option existing (launch_if_able id reset_failures command)
        λ m. start_over id m reset_failures command
  -- Whether the child before the restart lives on.
