-- ===== src/Supervisor/Rounds.antt =====
-- check_health and reconcile_desired_state of controller/miner_supervisor.py.
use twitch_car_factory.Base.{
  ℕ, ◌+◌, ◌-◌, Bool, true, false, not, ◌&&◌, ◌||◌, Option, none, some, List, [], ◌∷◌, ◌==◌, nat_eq,
  text_eq, leb, is_some, if◌then◌else◌,
}
use twitch_car_factory.Base.Dict.{Dict, lookup, values}
use twitch_car_factory.Base.Exec.{pure, gets, attempt, on_option, ◌>>=◌, ◌>>◌}
use twitch_car_factory.Control.Text.{text}
use twitch_car_factory.Control.Model.{
  Account, InstanceState, admin_stop, restarting, is_stopped, stopped, wants_running,
}
use twitch_car_factory.Supervisor.State.{
  Setup, Act, ManagedProcess, ControlEvent, now, monotonic, sense, read, transaction, get_account,
  get_state, update_state, update_managed, managed_of,
}
use twitch_car_factory.Supervisor.Process.{poll}
use twitch_car_factory.Supervisor.Recovery.{close_incident_for_intentional_stop}
use twitch_car_factory.Supervisor.Exit.{handle_unexpected_exit}
use twitch_car_factory.Supervisor.Stop.{stop_account, reconcile_required_cleanup}
use twitch_car_factory.Supervisor.Start.{start_account}
use twitch_car_factory.Supervisor.Health.{
  put_control_event, consume_control_events, confirm_startup, fail_authentication,
}

abbrev pub reached : Option ℕ → ℕ → Bool
reached none at = false
reached (some d) at = leb d at

module _ {W : Type 0} (u : Setup W) where
  -- The retry counter of a child that has been stable for long.
  unfoldable pub reset_retries : ℕ → ℕ → Act W (Unit {0})
  reset_retries id at = do
    state ← get_state u id
    if not (state.retry_count == 0)
          && reached state.stable_since at
          && reached (some u.options.stable_reset)
              (at - (elim state.stable_since [ none ↦ at | some s ↦ s ]))
        then update_state u id (λ t. record t { retry_count = 0 })
        else pure tt

  -- A child that is alive.
  unfoldable pub check_alive : ManagedProcess → ℕ → Act W (Unit {0})
  check_alive m at = do
    clock ← monotonic u
    let ready = not m.auth_required || m.is_authenticated
    if not ready && reached m.authentication_deadline clock
        then fail_authentication u m
            (text "Twitch activation expired or the authentication handshake timed out.")
        else (do
          let confirms =
              not m.confirmed
              && ready
              && reached (some (m.spawned_monotonic + u.options.startup_grace)) clock
          if confirms then confirm_startup u m else pure tt
          if m.confirmed || confirms then reset_retries m.account_id at else pure tt)

  unfoldable pub check_running : ManagedProcess → ℕ → Act W (Unit {0})
  check_running m at = do
    code ← poll u m.process
    on_option code (check_alive m at) λ c.
        if m.auth_required && not m.is_authenticated
        then fail_authentication u m
            (text "The miner exited before Twitch authentication completed.")
        else (handle_unexpected_exit u m (some c) true false >> pure tt)

  -- A child whose events are consumed.
  unfoldable pub check_consumed : ManagedProcess → InstanceState → ℕ → Act W (Unit {0})
  check_consumed m state at = do
    let wanted = wants_running state.desired_state
    on_option m.pending_stop_reason
        (if wanted
          then check_running m at
          else (stop_account u m.account_id admin_stop false none none >> pure tt))
        λ reason.
          stop_account u m.account_id reason wanted
            (some (if wanted then restarting else is_stopped)) none
          >> pure tt

  -- One round of the loop of check_health.
  unfoldable pub check_child : ℕ → ManagedProcess → Act W (Unit {0})
  check_child at managed =
      if managed.cleanup_required then reconcile_required_cleanup u managed else (do
        state ← get_state u managed.account_id
        failure ← consume_control_events u managed
        current ← managed_of u managed.account_id
        on_option failure (on_option current (pure tt) λ m. check_consumed m state at)
            (fail_authentication u managed))

  unfoldable pub check_children : ℕ → List ManagedProcess → Act W (Unit {0})
  check_children at [] = pure tt
  check_children at (m ∷ ms) = check_child at m >> check_children at ms

  -- The rows of an account that is to be stopped and has no child.
  unfoldable pub settle_stopped : ℕ → Act W (Unit {0})
  settle_stopped id = transaction u (do
    state ← get_state u id
    account ← get_account u id
    if wants_running state.desired_state then pure tt else (do
      update_state u id (λ t. record t {
        observed_state = is_stopped;
        advisory_pid = none;
        current_run = none;
        worker_id = [];
        next_retry_at = none;
      })
      if account.is_active
          then close_incident_for_intentional_stop u id
              (text "Recovery was cancelled by an intentional stop.")
              (text "Recovery was cancelled by an intentional admin stop.")
          else close_incident_for_intentional_stop u id
              (text "Recovery was cancelled because the account is archived.")
              (text "Recovery was cancelled because this account is archived.")))

  unfoldable pub stop_unable : ℕ → Account → Act W (Unit {0})
  stop_unable id account = transaction u (
      update_state u id (λ t. record t {
        desired_state = stopped;
        observed_state = is_stopped;
        next_retry_at = none;
        last_error =
            if account.is_active
            then text "Account has no stored Twitch password."
            else text "Account is archived.";
      }))

  unfoldable pub stop_if_owned : ℕ → Option ManagedProcess → Act W (Unit {0})
  stop_if_owned id none = pure tt
  stop_if_owned id (some m) = stop_account u id admin_stop false none none >> pure tt

  -- One round of the loop of reconcile_desired_state.
  unfoldable pub reconcile_account : ℕ → InstanceState → Act W (Unit {0})
  reconcile_account id state = do
    account ← get_account u id
    credential ← read u (λ f. lookup id f.control.credentials)
    managed ← managed_of u id
    if not (wants_running state.desired_state)
        then (if is_some managed then stop_if_owned id managed else settle_stopped id)
        else if not account.is_active || not (is_some credential)
        then (stop_unable id account >> stop_if_owned id managed)
        else if is_some managed || is_some state.next_retry_at
        then pure tt
        else (attempt (start_account u id false none) >> pure tt)

  unfoldable pub reconcile_accounts : Dict ℕ InstanceState → Act W (Unit {0})
  reconcile_accounts [] = pure tt
  reconcile_accounts ((id, state) ∷ rest) = reconcile_account id state >> reconcile_accounts rest

  -- reconcile_desired_state
  unfoldable pub reconcile_desired_state : Act W (Unit {0})
  reconcile_desired_state = read u (λ f. f.control.states) >>= reconcile_accounts

  -- The readers of the children's output deliver what has come.
  unfoldable pub deliver : List (ℕ × ControlEvent) → Act W (Unit {0})
  deliver [] = pure tt
  deliver ((id, e) ∷ rest) = do
    managed ← managed_of u id
    on_option managed (pure tt) λ m. update_managed u m (put_control_event e)
    deliver rest

  -- check_health
  unfoldable pub check_health : Act W (Unit {0})
  check_health = do
    sense u.host.arrivals >>= deliver
    at ← now u
    children ← gets (λ s. values s.processes)
    check_children at children
    reconcile_desired_state
