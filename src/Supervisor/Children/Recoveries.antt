-- ===== src/Supervisor/Children/Recoveries.antt =====
-- Incidents and attempts of controller/miner_supervisor.py leave the entries of the children alone.
use twitch_car_factory.Base.{ℕ, Bool, Option}
use twitch_car_factory.Json.{ℤ}
use twitch_car_factory.Control.Text.{Text}
use twitch_car_factory.Control.Model.{DesiredState, CommandStatus}
use twitch_car_factory.Supervisor.State.{Setup}
use twitch_car_factory.Supervisor.Recovery.{
  close_incident_for_intentional_stop, fail_restart_attempt, open_exit_incident,
  schedule_open_recovery_if_unowned, schedule_recovery, scheduled_attempt,
  scheduled_recovery_attempt, take_over_recovery,
}
use twitch_car_factory.Supervisor.Exit.{end_command, leave_unscheduled, record_exit}
use twitch_car_factory.Supervisor.Stop.{cancel_attached_start, clear_stopped, degrade, stop_unowned}
use twitch_car_factory.Supervisor.State.{ManagedProcess, SupervisorError}
use twitch_car_factory.Supervisor.Children.{IsQuiet}
use twitch_car_factory.Supervisor.Children.Processes.{process_rules}

module _ {W : Type 0} (u : Setup W) where
  scheduled_attempt-IsQuiet :
      (incident retry_count : ℕ) (immediate : Bool)
      → IsQuiet (scheduled_attempt u incident retry_count immediate)
  unfolding scheduled_attempt
  scheduled_attempt-IsQuiet incident retry_count immediate = search process_rules depth 24

  pub schedule_recovery-IsQuiet :
      (account incident : ℕ) (immediate : Bool)
      → IsQuiet (schedule_recovery u account incident immediate)
  unfolding schedule_recovery
  schedule_recovery-IsQuiet account incident immediate =
      search (process_rules, scheduled_attempt-IsQuiet) depth 24

  pub open_exit_incident-IsQuiet :
      (account run_id : ℕ) (code : Option ℤ) → IsQuiet (open_exit_incident u account run_id code)
  unfolding open_exit_incident
  open_exit_incident-IsQuiet account run_id code = search process_rules depth 24

  pub fail_restart_attempt-IsQuiet :
      (attempt_id : Option ℕ) (error : Text) → IsQuiet (fail_restart_attempt u attempt_id error)
  unfolding fail_restart_attempt
  fail_restart_attempt-IsQuiet attempt_id error = search process_rules depth 16

  pub take_over_recovery-IsQuiet :
      (account : ℕ) (operation : Text) (reset : Bool) (preserved : Option ℕ)
      → IsQuiet (take_over_recovery u account operation reset preserved)
  unfolding take_over_recovery
  take_over_recovery-IsQuiet account operation reset preserved = search process_rules depth 24

  pub scheduled_recovery_attempt-IsQuiet :
      (account : ℕ) → IsQuiet (scheduled_recovery_attempt u account)
  unfolding scheduled_recovery_attempt
  scheduled_recovery_attempt-IsQuiet account = search process_rules

  pub schedule_open-IsQuiet :
      (account : ℕ) (desired : DesiredState)
      → IsQuiet (schedule_open_recovery_if_unowned u account desired)
  unfolding schedule_open_recovery_if_unowned
  schedule_open-IsQuiet account desired = search (process_rules, schedule_recovery-IsQuiet) depth 24

  pub close_incident-IsQuiet :
      (account : ℕ) (attempt_error details : Text)
      → IsQuiet (close_incident_for_intentional_stop u account attempt_error details)
  unfolding close_incident_for_intentional_stop
  close_incident-IsQuiet account attempt_error details = search process_rules depth 16

  pub end_command-IsQuiet :
      (id : ℕ) (status : CommandStatus) (error : Text) → IsQuiet (end_command u id status error)
  unfolding end_command
  end_command-IsQuiet id status error = search process_rules

  leave_unscheduled-IsQuiet :
      (account incident : ℕ) (details : Text) (stopped : Bool)
      → IsQuiet (leave_unscheduled u account incident details stopped)
  unfolding leave_unscheduled
  leave_unscheduled-IsQuiet account incident details stopped = search process_rules depth 24

  pub record_exit-IsQuiet :
      (m : ManagedProcess) (code : Option ℤ) (recovers records : Bool)
      → IsQuiet (record_exit u m code recovers records)
  unfolding record_exit
  record_exit-IsQuiet m code recovers records =
      search
        (
          process_rules, end_command-IsQuiet, fail_restart_attempt-IsQuiet,
          open_exit_incident-IsQuiet, schedule_recovery-IsQuiet, leave_unscheduled-IsQuiet,
        )
        depth 40

  pub degrade-IsQuiet :
      (id : ℕ) (label : Text) (e : SupervisorError) → IsQuiet (degrade u id label e)
  unfolding degrade
  degrade-IsQuiet id label e = search process_rules

  pub cancel_attached_start-IsQuiet :
      (m : ManagedProcess) (except : Option ℕ) → IsQuiet (cancel_attached_start u m except)
  unfolding cancel_attached_start
  cancel_attached_start-IsQuiet m except = search (process_rules, end_command-IsQuiet) depth 16

  pub stop_unowned-IsQuiet : (id : ℕ) (reason : _) → IsQuiet (stop_unowned u id reason)
  unfolding stop_unowned
  stop_unowned-IsQuiet id reason = search process_rules depth 16

  pub clear_stopped-IsQuiet :
      (id : ℕ) (preserve : Bool) (final : _) → IsQuiet (clear_stopped u id preserve final)
  unfolding clear_stopped
  clear_stopped-IsQuiet id preserve final = search process_rules

pub ruleset recovery_rules = (
  process_rules, schedule_recovery-IsQuiet, open_exit_incident-IsQuiet,
  fail_restart_attempt-IsQuiet, take_over_recovery-IsQuiet, scheduled_recovery_attempt-IsQuiet,
  schedule_open-IsQuiet, close_incident-IsQuiet, end_command-IsQuiet, record_exit-IsQuiet,
  degrade-IsQuiet, cancel_attached_start-IsQuiet, stop_unowned-IsQuiet, clear_stopped-IsQuiet,
)
