-- ===== src/Supervisor/Spawn.antt =====
-- _spawn_snapshot and _spawn_snapshot_if_desired_running of controller/miner_supervisor.py.
use twitch_car_factory.Base.{
  ℕ, suc, ◌+◌, Bool, true, false, ◌||◌, Option, none, some, [], ◌∷◌, ◌++◌, ◌==◌, nat_eq,
  if◌then◌else◌,
}
use twitch_car_factory.Base.Dict.{insert}
use twitch_car_factory.Base.Result.{Result, ok, err}
use twitch_car_factory.Base.Exec.{pure, raise, attempt, on_option, ◌>>=◌, ◌>>◌}
use twitch_car_factory.Json.{ℤ}
use twitch_car_factory.Control.Text.{Text, text}
use twitch_car_factory.Control.Model.{
  Run, is_tv, starting, degraded, is_stopped, start_failed, wants_running,
}
use twitch_car_factory.Supervisor.State.{
  Setup, Act, ManagedProcess, SupervisorError, runtime_error, host_error, sense, now, monotonic,
  write, transaction, get_state, get_or_create_state, update_state, update_managed, managed_of,
}
use twitch_car_factory.Supervisor.Process.{
  build_process_command, terminate_owned_process, close_run, update_runs, finalize_or_remember,
  safe_error, safe_exception,
}
use twitch_car_factory.Supervisor.Exit.{drop_managed}
use twitch_car_factory.Supervisor.Stop.{rescue, released, reconcile_required_cleanup}

module _ {W : Type 0} (u : Setup W) where
  -- A launch that made no child.
  unfoldable pub launch_failed : Run → Text → Act W (Unit {0})
  launch_failed run e = do
    finalize_or_remember u run.run_id run.account_id none start_failed e
    get_or_create_state u run.account_id
    at ← now u
    update_state u run.account_id (λ t. record t {
      current_run = none;
      advisory_pid = none;
      worker_id = [];
      observed_state = degraded;
      last_error = safe_error u e;
      next_retry_at = some (at + u.options.degraded_retry);
    })

  abbrev pub needs_login : Run → Bool
  needs_login run = u.options.require_authentication_events || is_tv run.method

  abbrev pub new_managed : Run → Option ℕ → Option ℕ → ℕ → ℕ → ManagedProcess
  new_managed run command attempt_id at h = record {
    process = h;
    account_id = run.account_id;
    run_id = run.run_id;
    spawned_monotonic = at;
    confirmed = false;
    command_id = command;
    restart_attempt_id = attempt_id;
    cleanup_required = false;
    cleanup_error = [];
    pending_stop_reason = none;
    pending_stop_forced = false;
    auth_required = needs_login run;
    is_authenticated = false;
    authentication_deadline =
        if needs_login run then some (at + u.options.authentication_handshake) else none;
    control_events = [];
    latest_watching_event = none;
  }

  -- The new child is registered as soon as it is there. One reading of the clock serves for both
  -- `spawned_monotonic` and the deadline.
  unfoldable pub register : Run → Option ℕ → Option ℕ → ℕ → Act W ManagedProcess
  register run command attempt_id at s =
      let managed = new_managed run command attempt_id at s.next_process in
      (
        ok managed,
        record s {
          processes = insert run.account_id managed s.processes;
          next_process = suc s.next_process;
          live = s.next_process ∷ s.live;
        },
      )

  -- The rows that show the new child.
  unfoldable pub publish : Run → ManagedProcess → Act W (Unit {0})
  publish run managed = do
    write u (
        update_runs u (λ r. r.run_id == run.run_id)
          (λ r. record r { pid = some managed.process; worker_id = u.worker }))
    get_or_create_state u run.account_id
    at ← now u
    update_state u run.account_id (λ t. record t {
      current_run = some run.run_id;
      advisory_pid = some managed.process;
      worker_id = u.worker;
      observed_state = starting;
      last_heartbeat = some at;
      last_error = [];
      next_retry_at = none;
      stable_since = none;
      watching_channels = [];
      online_channels = [];
      watching_updated_at = none;
    })

  abbrev pub require_cleanup : ManagedProcess → Text → Act W (Unit {0})
  require_cleanup managed error =
      update_managed u managed (λ m. record m { cleanup_required = true; cleanup_error = error })

  unfoldable pub abandon_closed :
      ManagedProcess → Text → Result SupervisorError (Unit {0}) → Act W (Unit {0})
  abandon_closed managed error (ok _) = drop_managed u managed
  abandon_closed managed error (err e) =
      require_cleanup managed
        (safe_error u (error ++ text "; run finalization failed: " ++ u.describe e))

  unfoldable pub abandon_terminated :
      ManagedProcess → Text → Result SupervisorError (ℤ × Bool) → Act W (Unit {0})
  abandon_terminated managed error (ok (returncode, forced)) = do
    closed ← attempt (
        close_run u managed.run_id (some returncode) start_failed
          (if forced then error ++ text " Forced kill was required." else error))
    abandon_closed managed error closed
  abandon_terminated managed error (err e) =
      require_cleanup managed
        (safe_error u (error ++ text "; child cleanup failed: " ++ u.describe e))

  -- A child whose rows could not be written.
  unfoldable pub abandon : ManagedProcess → SupervisorError → Act W (Unit {0})
  abandon managed e = do
    terminated ← attempt (terminate_owned_process u managed.process)
    abandon_terminated managed
        (safe_error u (text "Could not persist spawned miner ownership: " ++ u.describe e))
        terminated

  -- `self.process_factory(...)` and what comes before it.
  unfoldable pub start_child : Run → Act W (Unit {0})
  start_child run = do
    fault ← sense (u.host.spawn (build_process_command u run))
    on_option fault (pure tt) λ e. raise (host_error e)

  -- _spawn_snapshot
  unfoldable pub spawn_snapshot : Run → Option ℕ → Option ℕ → Act W ManagedProcess
  spawn_snapshot run command attempt_id = do
    rescue u (start_child run) (λ e. launch_failed run (safe_exception u e))
    at ← monotonic u
    managed ← register run command attempt_id at
    rescue u (publish run managed) (abandon managed)
    pure managed

  -- A launch that comes after a stop. The exception takes these writes back with the transaction.
  unfoldable pub cancel_launch : Run → Act W ManagedProcess
  cancel_launch run = do
    let error = text "Launch was cancelled because desired state changed before spawn."
    close_run u run.run_id none start_failed error
    update_state u run.account_id
        (λ t. record (released t) { next_retry_at = none; observed_state = is_stopped })
    raise (runtime_error error)

  abbrev pub owns : Run → Option ManagedProcess → Bool
  owns run none = false
  owns run (some m) = m.run_id == run.run_id

  -- A child whose transaction was not committed.
  unfoldable pub disown : Run → Text → SupervisorError → Act W (Unit {0})
  disown run label e = do
    owned ← managed_of u run.account_id
    on_option owned (pure tt) λ m.
        if owns run (some m)
        then (do
          let error =
              if m.cleanup_required then m.cleanup_error else safe_error u (label ++ u.describe e)
          require_cleanup m error
          reconcile_required_cleanup u
              (record m { cleanup_required = true; cleanup_error = error }))
        else pure tt

  -- _spawn_snapshot_if_desired_running
  unfoldable pub spawn_snapshot_if_desired_running : Run → Option ℕ → Act W ManagedProcess
  spawn_snapshot_if_desired_running run command =
      rescue u
        (transaction u (do
          state ← get_state u run.account_id
          if wants_running state.desired_state
              then spawn_snapshot run command none
              else cancel_launch run))
        (disown run (text "Launch ownership transaction did not commit: "))
