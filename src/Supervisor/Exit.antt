-- ===== src/Supervisor/Exit.antt =====
-- _handle_unexpected_exit of controller/miner_supervisor.py, and what it shares with the other
-- methods: the end of a command, and the child that leaves self.processes.
use twitch_car_factory.Base.{
  ℕ, Bool, true, false, not, ◌&&◌, Option, none, some, [], ◌++◌, ◌==◌, nat_eq, is_empty,
  if◌then◌else◌,
}
use twitch_car_factory.Base.Dict.{Dict, lookup, erase}
use twitch_car_factory.Base.Result.{Result, ok, err}
use twitch_car_factory.Base.Exec.{pure, modify, attempt, on_option, ◌>>=◌, ◌>>◌}
use twitch_car_factory.Json.{ℤ}
use twitch_car_factory.Control.Text.{Text, text}
use twitch_car_factory.Control.Model.{
  StopReason, admin_stop, config_restart, admin_restart, supervisor_shutdown, unexpected_exit,
  start_failed, authentication_failed, authentication_reset, not_stopped, CommandStatus, failed,
  is_stopped, unknown, wants_running,
}
use twitch_car_factory.Supervisor.Lease.{finish_command}
use twitch_car_factory.Supervisor.State.{
  Setup, Act, ManagedProcess, SupervisorError, with_control, now, write, transaction, get_account,
  get_or_create_state, update_state,
}
use twitch_car_factory.Supervisor.Process.{safe_error, close_run}
use twitch_car_factory.Supervisor.Recovery.{
  open_exit_incident, schedule_recovery, fail_restart_attempt, update_incidents, recovered_at_time,
}

abbrev pub reason_label : StopReason → Text
reason_label not_stopped = []
reason_label admin_stop = text "admin_stop"
reason_label config_restart = text "config_restart"
reason_label admin_restart = text "admin_restart"
reason_label supervisor_shutdown = text "supervisor_shutdown"
reason_label unexpected_exit = text "unexpected_exit"
reason_label start_failed = text "start_failed"
reason_label authentication_failed = text "authentication_failed"
reason_label authentication_reset = text "authentication_reset"

-- `if self.processes.get(...) is managed: self.processes.pop(...)`
unfoldable pub without : ManagedProcess → Dict ℕ ManagedProcess → Dict ℕ ManagedProcess
without managed d = elim (lookup managed.account_id d) [
  | none ↦ d
  | some m ↦ if m.process == managed.process then erase managed.account_id d else d
]

module _ {W : Type 0} (u : Setup W) where
  unfoldable pub drop_managed : ManagedProcess → Act W (Unit {0})
  drop_managed managed = modify λ s. record s { processes = without managed s.processes }

  -- _finish_command
  unfoldable pub end_command : ℕ → CommandStatus → Text → Act W (Unit {0})
  end_command id status error = do
    at ← now u
    write u (
        with_control λ db. record db {
          commands =
              finish_command u.worker id status at
                (if is_empty error then [] else safe_error u error) db.commands;
        })

  -- The end of an exit that no recovery follows at once.
  unfoldable pub leave_unscheduled : ℕ → ℕ → Text → Bool → Act W (Unit {0})
  leave_unscheduled account incident details desired_stopped = do
    update_state u account (λ t. record t {
      observed_state = if desired_stopped then is_stopped else unknown;
      next_retry_at = none;
    })
    if desired_stopped
        then (do
          at ← now u
          write u (
              update_incidents (λ i. i.incident_id == incident)
                (λ i. record (recovered_at_time at i) {
                  details = safe_error u (
                      details
                      ++ text
                          " Recovery was not started because an intentional stop had already become the desired state.");
                })))
        else pure tt

  -- The transaction of _handle_unexpected_exit.
  unfoldable pub record_exit : ManagedProcess → Option ℤ → Bool → Bool → Act W (Unit {0})
  record_exit managed returncode recovers record_when_stopped = do
    let code = u.show_code returncode
    close_run u managed.run_id returncode unexpected_exit
        (text "Process exited unexpectedly with return code " ++ code ++ text ".")
    on_option managed.command_id (pure tt) λ id.
        end_command id failed
          (text "Miner exited during startup with return code " ++ code ++ text ".")
    fail_restart_attempt u managed.restart_attempt_id
        (text "Miner exited with return code " ++ code ++ text ".")
    account ← get_account u managed.account_id
    state ← get_or_create_state u managed.account_id
    update_state u managed.account_id (λ t. record t {
      current_run = none;
      advisory_pid = none;
      worker_id = [];
      stable_since = none;
      last_error = safe_error u (text "Miner exited with return code " ++ code ++ text ".");
    })
    let desired_stopped = not (wants_running state.desired_state)
    if desired_stopped && not record_when_stopped
        then update_state u managed.account_id
            (λ t. record t { observed_state = is_stopped; next_retry_at = none })
        else (do
          incident ← open_exit_incident u managed.account_id managed.run_id returncode
          if recovers
              then (schedule_recovery u managed.account_id incident.incident_id false >> pure tt)
              else leave_unscheduled managed.account_id incident.incident_id incident.details
                  desired_stopped)

  unfoldable pub after_exit : ManagedProcess → Result SupervisorError (Unit {0}) → Act W Bool
  after_exit managed (ok _) = drop_managed managed >> pure true
  after_exit managed (err _) = pure false

  -- _handle_unexpected_exit
  unfoldable pub handle_unexpected_exit : ManagedProcess → Option ℤ → Bool → Bool → Act W Bool
  handle_unexpected_exit managed returncode recovers record_when_stopped = do
    recorded ← attempt (transaction u (record_exit managed returncode recovers record_when_stopped))
    after_exit managed recorded
