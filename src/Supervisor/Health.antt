-- ===== src/Supervisor/Health.antt =====
-- The health of one child in controller/miner_supervisor.py: put_control_event,
-- _consume_control_events, _persist_watching_event, _confirm_startup and _fail_authentication.
use twitch_car_factory.Base.{
  ℕ, ◌+◌, min, Bool, true, false, not, ◌&&◌, ◌||◌, Option, none, some, List, [], ◌∷◌, ◌++◌, ◌==◌,
  nat_eq, text_eq, contains, map, filter_by, any_of, all_of, first, is_empty, if◌then◌else◌,
}
use twitch_car_factory.Base.Exec.{pure, raise, on_option, ◌>>=◌, ◌>>◌}
use twitch_car_factory.Control.Text.{Text, text}
use twitch_car_factory.Control.Model.{
  Run, pending, authenticated, reauth_required, is_running, stopped, DesiredState, wants_running,
  restart, same_action, Command, succeeded, failed, authentication_failed,
}
use twitch_car_factory.Control.Commands.{is_active}
use twitch_car_factory.Supervisor.State.{
  Setup, Act, ManagedProcess, ControlEvent, device_code, watching_channels, Farm, done,
  runtime_error, now, monotonic, read, write, transaction, get_state, update_state, update_managed,
  managed_of,
}
use twitch_car_factory.Supervisor.Process.{update_runs, is_unended, safe_error}
use twitch_car_factory.Supervisor.Recovery.{
  open_for, is_started, update_attempts, update_incidents, recovered_at_time,
}
use twitch_car_factory.Supervisor.Exit.{end_command}
use twitch_car_factory.Supervisor.Stop.{without_login, stop_account}

-- ManagedProcess.put_control_event: the reader keeps the latest watching event only.
unfoldable pub put_control_event : ControlEvent → ManagedProcess → ManagedProcess
put_control_event (watching_channels cs online) m = record m {
  latest_watching_event = some (watching_channels cs online);
}
put_control_event (device_code code uri expires) m = record m {
  control_events = m.control_events ++ (device_code code uri expires ∷ []);
}
put_control_event ControlEvent.authenticated m = record m {
  control_events = m.control_events ++ (ControlEvent.authenticated ∷ []);
}
put_control_event (ControlEvent.authentication_failed e) m = record m {
  control_events = m.control_events ++ (ControlEvent.authentication_failed e ∷ []);
}

-- An active RESTART of the account.
abbrev pub restart_waits : ℕ → Farm → Bool
restart_waits id farm =
    any_of (λ (c : Command). c.account_id == id && is_active c && same_action restart c.action)
      farm.control.commands

module _ {W : Type 0} (u : Setup W) where
  -- Whether a recovery child may close the incident when it is confirmed.
  unfoldable pub may_close_incident : ManagedProcess → DesiredState → ℕ → Act W Bool
  may_close_incident managed desired at = on_option managed.restart_attempt_id (pure true) λ id. do
    won ← read u (λ f. any_of (λ a. a.attempt_id == id && is_started a.outcome) f.attempts)
    write u (
        update_attempts (λ a. a.attempt_id == id && is_started a.outcome)
          (λ a. record a { outcome = done; finished_at = some at; error = [] }))
    waits ← read u (restart_waits managed.account_id)
    pure (won || (wants_running desired && not waits))

  -- The transaction of _confirm_startup.
  unfoldable pub record_startup : ManagedProcess → ℕ → Act W (Unit {0})
  record_startup managed at = do
    active ←
        read u
          (λ f. any_of (λ (r : Run). r.run_id == managed.run_id && is_unended u r) f.control.runs)
    if active
        then pure tt
        else raise (
            runtime_error (
              text "Run "
              ++ u.show_number managed.run_id
              ++ text " could not be confirmed because it is no longer active."))
    write u (
        update_runs u (λ r. r.run_id == managed.run_id)
          (λ r. record r { startup_confirmed_at = some at }))
    state ← get_state u managed.account_id
    update_state u managed.account_id (λ t. record (without_login authenticated at t) {
      observed_state = is_running;
      stable_since = some at;
      next_retry_at = none;
      last_error = [];
      last_heartbeat = some at;
    })
    on_option managed.command_id (pure tt) λ id. end_command u id succeeded []
    may_close ← may_close_incident managed state.desired_state at
    if may_close
        then write u (update_incidents (open_for managed.account_id) (recovered_at_time at))
        else pure tt

  -- _confirm_startup
  unfoldable pub confirm_startup : ManagedProcess → Act W (Unit {0})
  confirm_startup managed = do
    at ← now u
    transaction u (record_startup managed at)
    update_managed u managed
        (λ m. record m { confirmed = true; command_id = none; restart_attempt_id = none })

  abbrev fold : Text → Text
  fold t = u.platform.casefold t

  unfoldable pub write_watching : ManagedProcess → Run → List Text → List Text → Act W (Unit {0})
  write_watching managed run channels online =
      let wanted = map fold channels in
      let wanted_online = map fold online in
      if all_of (λ c. contains c (map fold run.channels)) (wanted ++ wanted_online)
      then (do
        at ← now u
        update_state u managed.account_id (λ t. record t {
          watching_channels = filter_by (λ c. contains (fold c) wanted) run.channels;
          online_channels = filter_by (λ c. contains (fold c) wanted_online) run.channels;
          watching_updated_at = some at;
        }))
      else pure tt

  abbrev pub same_process : ManagedProcess → Option ManagedProcess → Bool
  same_process m none = false
  same_process m (some n) = m.process == n.process

  abbrev same_run : ManagedProcess → Option ℕ → Bool
  same_run m none = false
  same_run m (some n) = m.run_id == n

  -- _persist_watching_event
  unfoldable pub persist_watching_event : ManagedProcess → List Text → List Text → Act W (Unit {0})
  persist_watching_event managed channels online = do
    state ← get_state u managed.account_id
    current ← managed_of u managed.account_id
    run ← read u (λ f. first (filter_by (λ (r : Run). r.run_id == managed.run_id) f.control.runs))
    if same_process managed current
          && same_run managed state.current_run
          && state.worker_id == u.worker
        then on_option run (pure tt) (λ r. write_watching managed r channels online)
        else pure tt

  abbrev sooner_deadline : Option ℕ → ℕ → ℕ
  sooner_deadline none at = at
  sooner_deadline (some d) at = min d at

  -- One round of the loop of _consume_control_events, with the terminal error if it ends it.
  unfoldable pub consume_event : ManagedProcess → ControlEvent → Act W (Option Text)
  consume_event managed (device_code code uri expires_in) = do
    at ← now u
    get_state u managed.account_id
    update_state u managed.account_id (λ t. record t {
      authentication_status = pending;
      authentication_uri = uri;
      authentication_code = code;
      authentication_expires_at = some (at + expires_in);
      authentication_error = [];
      authentication_updated_at = some at;
    })
    clock ← monotonic u
    update_managed u managed (λ m. record m {
      authentication_deadline =
          some (sooner_deadline m.authentication_deadline (clock + expires_in));
    })
    pure none
  consume_event managed ControlEvent.authenticated = do
    at ← now u
    get_state u managed.account_id
    update_managed u managed (λ m. record m { is_authenticated = true })
    update_state u managed.account_id (without_login authenticated at)
    pure none
  consume_event managed (ControlEvent.authentication_failed e) = do
    get_state u managed.account_id
    pure (some (safe_error u (if is_empty e then text "Twitch authentication failed." else e)))
  consume_event managed (watching_channels cs online) = pure none

  unfoldable pub consume_events : ManagedProcess → List ControlEvent → Act W (Option Text)
  consume_events managed [] = pure none
  consume_events managed (e ∷ es) = do
    update_managed u managed (λ m. record m { control_events = es })
    failure ← consume_event managed e
    on_option failure (consume_events managed es) λ t. pure (some t)

  unfoldable pub persist_latest : ManagedProcess → ControlEvent → Act W (Unit {0})
  persist_latest managed (watching_channels cs online) = persist_watching_event managed cs online
  persist_latest managed (device_code _ _ _) = pure tt
  persist_latest managed ControlEvent.authenticated = pure tt
  persist_latest managed (ControlEvent.authentication_failed _) = pure tt

  -- _consume_control_events
  unfoldable pub consume_control_events : ManagedProcess → Act W (Option Text)
  consume_control_events managed = do
    failure ← consume_events managed managed.control_events
    on_option failure
        (do
          update_managed u managed (λ m. record m { latest_watching_event = none })
          on_option managed.latest_watching_event (pure tt) (persist_latest managed)
          pure none)
        λ t. pure (some t)

  -- _fail_authentication
  unfoldable pub fail_authentication : ManagedProcess → Text → Act W (Unit {0})
  fail_authentication managed error = do
    let safe = safe_error u error
    get_state u managed.account_id
    at ← now u
    update_state u managed.account_id (λ t. record (without_login reauth_required at t) {
      desired_state = stopped;
      authentication_error = safe;
    })
    update_managed u managed (λ m. record m { pending_stop_reason = some authentication_failed })
    stop_account u managed.account_id authentication_failed false none managed.command_id
    on_option managed.command_id (pure tt) λ id. end_command u id failed safe
