-- ===== src/Supervisor/Recovery.antt =====
-- Incidents and restart attempts of controller/miner_supervisor.py: _open_exit_incident,
-- _schedule_recovery, _fail_restart_attempt, _take_over_recovery, _scheduled_recovery_attempt,
-- _schedule_open_recovery_if_unowned and _close_incident_for_intentional_stop.
pub mod Tables
unfoldable pub use Tables.*
use twitch_car_factory.Base.{
  ℕ, zero, suc, ◌+◌, max, Bool, true, false, not, ◌&&◌, ◌||◌, Option, none, some, List, [], ◌∷◌,
  ◌++◌, ◌==◌, nat_eq, ltb, leb, map, filter_by, first, length, any_of, is_some, if◌then◌else◌,
}
use twitch_car_factory.Base.Exec.{pure, on_option, ◌>>=◌, ◌>>◌}
use twitch_car_factory.Json.{ℤ}
use twitch_car_factory.Control.Text.{Text, text}
use twitch_car_factory.Control.Model.{
  ObservedState, restarting, degraded, DesiredState, wants_running,
}
use twitch_car_factory.Supervisor.State.{
  Setup, Act, Incident, exited_unexpectedly, IncidentStatus, opened, recovered, Attempt, Outcome,
  scheduled, started, done, failed, Farm, SupervisorOptions, now, read, write, transaction,
  get_state, update_state, managed_of, get_or_create_state,
}
use twitch_car_factory.Supervisor.Process.{safe_error}

module _ {W : Type 0} (u : Setup W) where
  -- The attempt that is scheduled for an incident, a new one if there is none.
  unfoldable pub scheduled_attempt : ℕ → ℕ → Bool → Act W Attempt
  scheduled_attempt incident retry_count immediate = do
    old ← read u (λ f. soonest (scheduled_of incident f.attempts))
    on_option old
        (do
          at ← now u
          a ← read u (new_attempt incident (at + recovery_delay u.options immediate retry_count))
          write u (add_attempt a)
          pure a)
        pure

  -- _schedule_recovery
  unfoldable pub schedule_recovery : ℕ → ℕ → Bool → Act W Attempt
  schedule_recovery account incident immediate = transaction u (do
    state ← get_state u account
    a ← scheduled_attempt incident state.retry_count immediate
    update_state u account (λ t. record t {
      next_retry_at = some a.scheduled_at;
      observed_state = recovery_state u.options state.retry_count;
    })
    pure a)

  -- _open_exit_incident, where the constraint of one open incident cannot fail: the caller holds the
  -- database.
  unfoldable pub open_exit_incident : ℕ → ℕ → Option ℤ → Act W Incident
  open_exit_incident account run_id returncode = do
    old ← read u (open_incident account)
    on_option old
        (do
          at ← now u
          let details =
              text "Miner run "
              ++ u.show_number run_id
              ++ text " exited with return code "
              ++ u.show_code returncode
              ++ text "."
          i ← read u (new_incident account run_id (safe_error u details) at)
          transaction u (write u (add_incident i))
          pure i)
        pure

  -- _fail_restart_attempt
  unfoldable pub fail_restart_attempt : Option ℕ → Text → Act W (Unit {0})
  fail_restart_attempt attempt_id error = on_option attempt_id (pure tt) λ id. do
    at ← now u
    write u (
        update_attempts (λ a. a.attempt_id == id && not (has_ended a.outcome))
          (failed_at at (safe_error u error)))

  -- The unfinished attempts of an account's open incident, less the one that is preserved.
  abbrev pub active_attempt : ℕ → Option ℕ → Farm → Attempt → Bool
  active_attempt account preserved farm a =
      of_open_incident account farm a
      && (is_scheduled a.outcome || is_started a.outcome)
      && not (names_account preserved a.attempt_id)

  -- _take_over_recovery
  unfoldable pub take_over_recovery : ℕ → Text → Bool → Option ℕ → Act W (Unit {0})
  take_over_recovery account operation reset_failures preserved = do
    at ← now u
    transaction u (do
      state ← get_or_create_state u account
      write u (λ farm.
          update_attempts (active_attempt account preserved farm)
            (failed_at at (
              text "Recovery attempt was superseded by an explicit "
              ++ operation
              ++ text " command."))
            farm)
      update_state u account (λ t. record t {
        retry_count = if reset_failures then 0 else t.retry_count;
        next_retry_at = none;
        last_error = [];
      }))

  -- _scheduled_recovery_attempt
  unfoldable pub scheduled_recovery_attempt : ℕ → Act W (Option Attempt)
  scheduled_recovery_attempt account = read u (λ farm.
      soonest
        (filter_by (λ a. of_open_incident account farm a && is_scheduled a.outcome) farm.attempts))

  -- _schedule_open_recovery_if_unowned
  unfoldable pub schedule_open_recovery_if_unowned : ℕ → DesiredState → Act W Bool
  schedule_open_recovery_if_unowned account desired = do
    managed ← managed_of u account
    if is_some managed || not (wants_running desired) then pure false else (do
      incident ← read u (open_incident account)
      on_option incident (pure false)
          λ i. do schedule_recovery account i.incident_id false; pure true)

  -- _close_incident_for_intentional_stop
  unfoldable pub close_incident_for_intentional_stop : ℕ → Text → Text → Act W (Unit {0})
  close_incident_for_intentional_stop account attempt_error incident_details = do
    at ← now u
    write u (λ farm.
        update_attempts (active_attempt account none farm) (failed_at at attempt_error) farm)
    write u (
        update_incidents (open_for account)
          (λ i. record (recovered_at_time at i) { details = incident_details }))
