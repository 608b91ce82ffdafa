-- ===== src/Supervisor/Execute.antt =====
-- execute_command, process_pending_commands, heartbeat and
-- _recover_incident_for_healthy_fallback of controller/miner_supervisor.py.
use twitch_car_factory.Base.{
  ℕ, zero, suc, ◌+◌, ◌-◌, Bool, true, false, not, ◌&&◌, ◌||◌, Option, none, some, List, [], ◌∷◌,
  ◌==◌, nat_eq, text_eq, ltb, map, filter_by, any_of, contains, first, is_empty, is_some,
  if◌then◌else◌,
}
use twitch_car_factory.Base.Dict.{Dict, values}
use twitch_car_factory.Base.Result.{Result, ok, err}
use twitch_car_factory.Base.Exec.{pure, raise, gets, modify, attempt, on_option, ◌>>=◌, ◌>>◌}
use twitch_car_factory.Control.Text.{Text, text}
use twitch_car_factory.Control.Model.{
  InstanceState, Command, CommandAction, start, stop, restart, authenticate, succeeded, failed,
  cancelled, is_queued, is_leased, StopReason, admin_stop, config_restart, admin_restart,
  wants_running,
}
use twitch_car_factory.Supervisor.State.{
  Setup, Act, Farm, WorkerLease, ManagedProcess, SupervisorError, lease_lost, not_found, now,
  monotonic, read, write, transaction, with_control, get_state, get_or_create_state, managed_of,
}
use twitch_car_factory.Supervisor.Lease.{lease_next_command, command_lease_duration, is_superseded}
use twitch_car_factory.Supervisor.Process.{poll}
use twitch_car_factory.Supervisor.Recovery.{
  open_incident, open_for, update_incidents, recovered_at_time,
}
use twitch_car_factory.Supervisor.Exit.{end_command}
use twitch_car_factory.Supervisor.Stop.{stop_account}
use twitch_car_factory.Supervisor.Start.{start_account, restart_account, authenticate_account}

abbrev pub is_restart : CommandAction → Bool
is_restart start = false
is_restart stop = false
is_restart restart = true
is_restart authenticate = false

abbrev pub is_stop : CommandAction → Bool
is_stop start = false
is_stop stop = true
is_stop restart = false
is_stop authenticate = false

-- `prefix` begins the text, and `part in s`.
abbrev pub starts_with : Text → Text → Bool
starts_with [] s = true
starts_with (c ∷ cs) [] = false
starts_with (c ∷ cs) (d ∷ ds) = c == d && starts_with cs ds

unfoldable pub has_part : Text → Text → Bool
has_part part [] = starts_with part []
has_part part (c ∷ cs) = starts_with part (c ∷ cs) || has_part part cs

-- A restart of an account that still waits or runs.
abbrev pub pending_restart : ℕ → Command → Bool
pending_restart id c =
    c.account_id == id && is_restart c.action && (is_queued c.status || is_leased c.status)

abbrev pub owns_lease : Text → Option WorkerLease → Bool
owns_lease worker none = false
owns_lease worker (some l) = l.owner_id == worker

-- `WorkerLease.objects.filter(owner_id=...).update(...)`
abbrev pub renew_lease : Text → ℕ → ℕ → Option WorkerLease → Option WorkerLease
renew_lease worker at until none = none
renew_lease worker at until (some l) =
    some (if l.owner_id == worker then record l { heartbeat_at = at; expires_at = until } else l)

-- A rate limit that never holds before the first time (`float("-inf")`).
abbrev pub within : Option ℕ → ℕ → ℕ → Bool
within none clock period = false
within (some last) clock period = ltb (clock - last) period

module _ {W : Type 0} (u : Setup W) where
  abbrev pub lease_duration : ℕ
  lease_duration =
      command_lease_duration u.options.command_lease u.options.startup_grace
        u.options.worker_heartbeat

  abbrev pub with_commands : (List Command → List Command) → Farm → Farm
  with_commands f = with_control λ db. record db { commands = f db.commands }

  -- _lease_next_command
  unfoldable pub lease_command : Act W (Option Command)
  lease_command = do
    at ← now u
    claimed ← transaction u (do
      next ← read u (λ f. (lease_next_command u.worker at lease_duration f.control.commands).0)
      on_option next (pure none) λ c. do
        write u (with_commands (λ cs. (lease_next_command u.worker at lease_duration cs).1))
        pure (some c))
    on_option claimed (pure none) λ c. do
      row ←
          read u (λ f. filter_by (λ (d : Command). d.command_id == c.command_id) f.control.commands)
      on_option (first row) (raise not_found) λ d. pure (some d)

  -- The transaction of _recover_incident_for_healthy_fallback.
  unfoldable pub recover_if_current : ℕ → ManagedProcess → Act W Bool
  recover_if_current id m = do
    state ← get_state u id
    waits ← read u (λ f. any_of (pending_restart id) f.control.commands)
    if not (wants_running state.desired_state)
          || not (elim state.current_run [ none ↦ false | some r ↦ r == m.run_id ])
          || waits
        then pure false
        else (do
          at ← now u
          incident ← read u (open_incident id)
          write u (update_incidents (open_for id) (recovered_at_time at))
          pure (is_some incident))

  -- _recover_incident_for_healthy_fallback
  unfoldable pub recover_incident_for_healthy_fallback : ℕ → Act W Bool
  recover_incident_for_healthy_fallback id = do
    owned ← managed_of u id
    on_option owned (pure false) λ m.
        if not m.confirmed || m.cleanup_required || is_some m.pending_stop_reason
        then pure false
        else (do
          code ← poll u m.process
          if is_some code then pure false else transaction u (recover_if_current id m))

  unfoldable pub fall_back : Command → Act W (Unit {0})
  fall_back c =
      if is_restart c.action
      then (recover_incident_for_healthy_fallback c.account_id >> pure tt)
      else pure tt

  unfoldable pub cancel : Command → Text → Act W Bool
  cancel c error = do end_command u c.command_id cancelled error; fall_back c; pure false

  -- The end of a command that has started a child: whether its confirmation is pending.
  unfoldable pub await_confirmation : Command → ManagedProcess → Act W Bool
  await_confirmation c m =
      if m.confirmed then (end_command u c.command_id succeeded [] >> pure false) else pure true

  unfoldable pub restart_reason : Command → StopReason
  restart_reason c =
      if has_part (text "config") (u.platform.casefold c.reason)
      then config_restart
      else admin_restart

  -- What a command does.
  unfoldable pub carry_out : Command → CommandAction → Act W Bool
  carry_out c stop = do
    stop_account u c.account_id admin_stop false none (some c.command_id)
    end_command u c.command_id succeeded []
    pure false
  carry_out c start = start_account u c.account_id true (some c.command_id) >>= await_confirmation c
  carry_out c restart =
      restart_account u c.account_id (restart_reason c) true (some c.command_id)
      >>= await_confirmation c
  carry_out c authenticate =
      authenticate_account u c.account_id c.command_id >>= await_confirmation c

  unfoldable pub carried_out : Command → Result SupervisorError Bool → Act W Bool
  carried_out c (ok pending) = pure pending
  carried_out c (err e) = do
    end_command u c.command_id failed (u.describe e)
    fall_back c
    pure false

  -- `state.desired_state != expected_desired`
  abbrev pub is_unexpected : Command → InstanceState → Bool
  is_unexpected c state =
      if is_stop c.action
      then wants_running state.desired_state
      else not (wants_running state.desired_state)

  -- execute_command: whether the confirmation of the start is pending.
  unfoldable pub execute_command : Command → Act W Bool
  execute_command c = do
    superseded ← read u (λ f. is_superseded c f.control.commands)
    if superseded then cancel c (text "Superseded by a newer command for this account.") else (do
      state ← get_or_create_state u c.account_id
      if is_unexpected c state
          then cancel c (text "Desired state changed after this command was queued.")
          else (attempt (carry_out c c.action) >>= carried_out c))

  -- The runs whose children are alive.
  unfoldable pub alive_runs : List ManagedProcess → Act W (List ℕ)
  alive_runs [] = pure []
  alive_runs (m ∷ ms) = if m.cleanup_required then alive_runs ms else (do
    code ← poll u m.process
    rest ← alive_runs ms
    pure (if is_some code then rest else m.run_id ∷ rest))

  abbrev pub command_ids : List ManagedProcess → List ℕ
  command_ids [] = []
  command_ids (m ∷ ms) =
      let rest = command_ids ms in elim m.command_id [ none ↦ rest | some id ↦ id ∷ rest ]

  abbrev pub is_running : List ℕ → InstanceState → Bool
  is_running runs state =
      state.worker_id == u.worker
      && (elim state.current_run [ none ↦ false | some r ↦ contains r runs ])

  abbrev pub beat : List ℕ → ℕ → Dict ℕ InstanceState → Dict ℕ InstanceState
  beat runs at = map λ row.
      if is_running runs row.1 then (row.0, record row.1 { last_heartbeat = some at }) else row

  abbrev pub prolong : List ℕ → ℕ → List Command → List Command
  prolong ids until = map λ c.
      if contains c.command_id ids && is_leased c.status && c.lease_owner == u.worker
      then record c { lease_expires_at = some until }
      else c

  -- A heartbeat that is due.
  unfoldable pub beat_now : ℕ → Act W (Unit {0})
  beat_now clock = do
    at ← now u
    owned ← read u (λ f. owns_lease u.worker f.lease)
    write u
        (λ f. record f { lease = renew_lease u.worker at (at + u.options.worker_lease) f.lease })
    if not owned then raise lease_lost else (do
      children ← gets (λ s. values s.processes)
      runs ← alive_runs children
      if is_empty runs
          then pure tt
          else write u (with_control λ db. record db { states = beat runs at db.states })
      let ids = command_ids children
      if is_empty ids then pure tt else write u (with_commands (prolong ids (at + lease_duration)))
      modify (λ s. record s { last_heartbeat = some clock }))

  -- heartbeat
  unfoldable pub heartbeat : Bool → Act W (Unit {0})
  heartbeat force = do
    clock ← monotonic u
    last ← gets (λ s. s.last_heartbeat)
    if not force && within last clock u.options.worker_heartbeat then pure tt else beat_now clock

  -- process_pending_commands: the number of the commands, `limit` at most.
  unfoldable pub process_pending_commands : ℕ → Act W ℕ
  process_pending_commands zero = pure 0
  process_pending_commands (suc limit) = do
    command ← lease_command
    on_option command (pure 0) λ c. do
      execute_command c
      heartbeat true
      rest ← process_pending_commands limit
      pure (suc rest)
