-- ===== src/Supervisor/Stop.antt =====
-- stop_account and _reconcile_required_cleanup of controller/miner_supervisor.py.
use twitch_car_factory.Base.{
  ℕ, ◌+◌, Bool, true, false, not, ◌&&◌, ◌||◌, Option, none, some, [], ◌++◌, ◌==◌, nat_eq, is_some,
  or_else, if◌then◌else◌,
}
use twitch_car_factory.Base.Result.{Result, ok, err}
use twitch_car_factory.Base.Exec.{pure, raise, attempt, on_option, ◌>>=◌, ◌>>◌}
use twitch_car_factory.Json.{ℤ}
use twitch_car_factory.Control.Text.{Text, text}
use twitch_car_factory.Control.Model.{
  InstanceState, ObservedState, stopping, is_stopped, degraded, unknown, AuthenticationStatus,
  unlinked, pending, authenticated, reauth_required, StopReason, start_failed, failed, cancelled,
  wants_running,
}
use twitch_car_factory.Supervisor.State.{
  Setup, Act, ManagedProcess, SupervisorError, runtime_error, now, get_account, get_state,
  get_or_create_state, update_state, update_managed, managed_of, read,
}
use twitch_car_factory.Supervisor.Process.{poll, terminate_owned_process, close_run, safe_error}
use twitch_car_factory.Supervisor.Recovery.{
  fail_restart_attempt, open_incident, schedule_recovery, close_incident_for_intentional_stop,
}
use twitch_car_factory.Supervisor.Exit.{
  reason_label, drop_managed, end_command, handle_unexpected_exit,
}

abbrev pub is_pending : AuthenticationStatus → Bool
is_pending unlinked = false
is_pending pending = true
is_pending authenticated = false
is_pending reauth_required = false

-- The fields of a login, cleared.
unfoldable pub without_login : AuthenticationStatus → ℕ → InstanceState → InstanceState
without_login status at t = record t {
  authentication_status = status;
  authentication_uri = [];
  authentication_code = [];
  authentication_expires_at = none;
  authentication_error = [];
  authentication_updated_at = some at;
}

-- The row of an account that has no child any more.
unfoldable pub released : InstanceState → InstanceState
released t = record t {
  current_run = none;
  advisory_pid = none;
  worker_id = [];
  stable_since = none;
}

module _ {W : Type 0} (u : Setup W) where
  unfoldable pub rescued :
      {A : Type 0} → (SupervisorError → Act W (Unit {0})) → Result SupervisorError A → Act W A
  rescued handler (ok a) = pure a
  rescued handler (err e) = handler e >> raise e

  -- `try` with a handler that raises again.
  abbrev pub rescue : {A : Type 0} → Act W A → (SupervisorError → Act W (Unit {0})) → Act W A
  rescue m handler = attempt m >>= rescued handler

  -- An account whose child could not be stopped, or its run not be ended.
  unfoldable pub degrade : ℕ → Text → SupervisorError → Act W (Unit {0})
  degrade id label e = do
    at ← now u
    update_state u id (λ t. record t {
      observed_state = degraded;
      last_error = safe_error u (label ++ u.describe e);
      last_heartbeat = some at;
    })

  -- _cancel_attached_start
  unfoldable pub cancel_attached_start : ManagedProcess → Option ℕ → Act W (Unit {0})
  cancel_attached_start managed except = on_option managed.command_id (pure tt) λ id.
      if elim except [ none ↦ false | some e ↦ id == e ]
      then pure tt
      else end_command u id cancelled (text "A newer lifecycle command stopped this startup.")

  -- What a poll says of a child that is to be stopped.
  unfoldable pub settle_polled : ManagedProcess → Option ℤ → Act W (Option ManagedProcess)
  settle_polled managed code =
      if is_some code && not (is_some managed.pending_stop_reason)
      then (do
        finalized ← handle_unexpected_exit u managed code false true
        if finalized
            then pure none
            else raise
                (runtime_error (text "The exited miner is still awaiting durable bookkeeping.")))
      else pure (some managed)

  -- A child that died before the stop reached it is an accident; it leaves no child to stop.
  unfoldable pub settle_dead : ManagedProcess → Act W (Option ManagedProcess)
  settle_dead managed = poll u managed.process >>= settle_polled managed

  -- The part of stop_account for a child.
  unfoldable pub stop_owned : ℕ → StopReason → Option ℕ → ManagedProcess → Act W (Unit {0})
  stop_owned id reason except managed = do
    cancel_attached_start managed except
    (returncode, forced_now) ←
        rescue (terminate_owned_process u managed.process)
          (degrade id (text "Could not stop owned miner process: "))
    let forced = managed.pending_stop_forced || forced_now
    let planned = or_else managed.pending_stop_reason reason
    update_managed u managed
        (λ m. record m { pending_stop_reason = some planned; pending_stop_forced = forced })
    fail_restart_attempt u managed.restart_attempt_id (
        text "Recovery attempt was superseded by planned stop reason "
        ++ reason_label reason
        ++ text ".")
    rescue
        (close_run u managed.run_id (some returncode) planned
          (if forced then text "Forced kill after graceful-stop timeout." else []))
        (degrade id (text "Could not finalize stopped miner run: "))
    drop_managed u managed

  -- The part of stop_account for an account without a child: stored process numbers are not signalled.
  unfoldable pub stop_unowned : ℕ → StopReason → Act W (Unit {0})
  stop_unowned id reason = do
    state ← get_state u id
    on_option state.current_run (pure tt)
        λ run_id. close_run u run_id none reason (text "No process owned by this supervisor.")

  unfoldable pub clear_stopped : ℕ → Bool → Option ObservedState → Act W (Unit {0})
  clear_stopped id preserve_desired final_observed = do
    at ← now u
    update_state u id (λ t.
        let base = record (released t) {
          last_heartbeat = some at;
          last_error = [];
          observed_state =
              or_else final_observed (if preserve_desired then unknown else is_stopped);
        } in
        if is_pending t.authentication_status then without_login unlinked at base else base)

  -- stop_account, which returns whether there was a child to stop.
  unfoldable pub stop_account : ℕ → StopReason → Bool → Option ObservedState → Option ℕ → Act W Bool
  stop_account id reason preserve_desired final_observed except = do
    get_or_create_state u id
    owned ← managed_of u id
    managed ← on_option owned (pure none) settle_dead
    update_state u id (λ t. record t { observed_state = stopping; next_retry_at = none })
    on_option managed (stop_unowned id reason) (stop_owned id reason except)
    clear_stopped id preserve_desired final_observed
    if preserve_desired
        then pure tt
        else close_incident_for_intentional_stop u id
            (text "Recovery was cancelled by an intentional stop.")
            (text "Recovery was cancelled by an intentional admin stop.")
    pure (is_some managed)

  -- What follows the end of a child's run in _reconcile_required_cleanup.
  unfoldable pub cleanup_closed : ManagedProcess → Act W (Unit {0})
  cleanup_closed managed = do
    drop_managed u managed
    on_option managed.command_id (pure tt) λ id. end_command u id failed managed.cleanup_error
    fail_restart_attempt u managed.restart_attempt_id managed.cleanup_error
    update_state u managed.account_id
        (λ t. record (released t) { last_error = managed.cleanup_error })
    state ← get_state u managed.account_id
    incident ← read u (open_incident managed.account_id)
    let wanted = wants_running state.desired_state
    on_option (if wanted then incident else none)
        (do
          at ← now u
          update_state u managed.account_id (λ t. record t {
            observed_state = if wanted then degraded else is_stopped;
            next_retry_at = if wanted then some (at + u.options.degraded_retry) else none;
          }))
        λ i. schedule_recovery u managed.account_id i.incident_id false >> pure tt

  unfoldable pub cleanup_recorded :
      ManagedProcess → Result SupervisorError (Unit {0}) → Act W (Unit {0})
  cleanup_recorded managed (ok _) = cleanup_closed managed
  cleanup_recorded managed (err e) =
      degrade managed.account_id (text "Spawn cleanup could not finalize its run: ") e

  unfoldable pub cleanup_terminated :
      ManagedProcess → Result SupervisorError (ℤ × Bool) → Act W (Unit {0})
  cleanup_terminated managed (ok (returncode, forced)) = do
    closed ← attempt (
        close_run u managed.run_id (some returncode) start_failed (
          if forced
          then managed.cleanup_error ++ text " Forced kill was required."
          else managed.cleanup_error))
    cleanup_recorded managed closed
  cleanup_terminated managed (err e) =
      degrade managed.account_id
        (text "Spawn cleanup is still pending: " ++ managed.cleanup_error ++ text "; ") e

  -- _reconcile_required_cleanup
  unfoldable pub reconcile_required_cleanup : ManagedProcess → Act W (Unit {0})
  reconcile_required_cleanup managed = do
    get_account u managed.account_id
    get_or_create_state u managed.account_id
    terminated ← attempt (terminate_owned_process u managed.process)
    cleanup_terminated managed terminated
