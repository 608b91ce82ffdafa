-- ===== src/Supervisor/Children/Launches.antt =====
-- The rows of a launch, of a failed start and of a child's reports, in controller/miner_supervisor.py,
-- leave the entries of the children alone.
use twitch_car_factory.Base.{ℕ, Bool, Option, none, some, List, [], ◌∷◌}
use twitch_car_factory.Control.Text.{Text}
use twitch_car_factory.Control.Model.{DesiredState, Run, StopReason, Account}
use twitch_car_factory.Supervisor.State.{
  ControlEvent, ManagedProcess, Setup, SupervisorError, device_code, watching_channels,
}
use twitch_car_factory.Supervisor.Spawn.{cancel_launch, launch_failed, publish, start_child}
use twitch_car_factory.Supervisor.Start.{
  close_unowned, degrade_start, old_child, preserved_attempt, record_restart_failure,
  remove_runtime_session, require_flushed, restart_did_fail, reuse, snapshot, start_did_fail,
  take_over_restart,
}
use twitch_car_factory.Supervisor.Health.{
  confirm_startup, consume_control_events, consume_event, consume_events, may_close_incident,
  persist_latest, persist_watching_event, record_startup, write_watching,
}
use twitch_car_factory.Supervisor.Rounds.{deliver, reset_retries, settle_stopped, stop_unable}
use twitch_car_factory.Supervisor.Due.{claim_attempt}
use twitch_car_factory.Supervisor.Children.{IsQuiet, IsQuiet-bind, IsQuiet-on_option}
use twitch_car_factory.Supervisor.Children.Recoveries.{recovery_rules}

module _ {W : Type 0} (u : Setup W) where
  pub launch_failed-IsQuiet : (run : Run) (e : Text) → IsQuiet (launch_failed u run e)
  unfolding launch_failed
  launch_failed-IsQuiet run e = search recovery_rules depth 16

  pub publish-IsQuiet : (run : Run) (m : ManagedProcess) → IsQuiet (publish u run m)
  unfolding publish
  publish-IsQuiet run m = search recovery_rules depth 16

  pub start_child-IsQuiet : (run : Run) → IsQuiet (start_child u run)
  unfolding start_child
  start_child-IsQuiet run = search recovery_rules depth 16

  pub cancel_launch-IsQuiet : (run : Run) → IsQuiet (cancel_launch u run)
  unfolding cancel_launch
  cancel_launch-IsQuiet run = search recovery_rules depth 16

  pub require_flushed-IsQuiet : (id : ℕ) (verb : Text) → IsQuiet (require_flushed u id verb)
  unfolding require_flushed
  require_flushed-IsQuiet id verb = search recovery_rules depth 16

  pub reuse-IsQuiet : (m : ManagedProcess) (command : Option ℕ) → IsQuiet (reuse u m command)
  unfolding reuse
  reuse-IsQuiet m command = search recovery_rules depth 16

  pub close_unowned-IsQuiet :
      (id : ℕ) (reason : StopReason) (e : SupervisorError) (run : Run)
      → IsQuiet (close_unowned u id reason e run)
  unfolding close_unowned
  close_unowned-IsQuiet id reason e run = search recovery_rules depth 16

  degrade_start-IsQuiet :
      (id : ℕ) (taken_over : Bool) (e : SupervisorError) → IsQuiet (degrade_start u id taken_over e)
  unfolding degrade_start
  degrade_start-IsQuiet id taken_over e = search recovery_rules depth 24

  pub start_did_fail-IsQuiet :
      (id : ℕ) (run : Option Run) (taken_over : Bool) (e : SupervisorError)
      → IsQuiet (start_did_fail u id run taken_over e)
  unfolding start_did_fail
  start_did_fail-IsQuiet id run taken_over e =
      search (recovery_rules, close_unowned-IsQuiet, degrade_start-IsQuiet) depth 16

  pub snapshot-IsQuiet : (id : ℕ) (reset : Bool) → IsQuiet (snapshot u id reset)
  unfolding snapshot
  snapshot-IsQuiet id reset = search recovery_rules

  old_child-IsQuiet : (run : Option Run) (m : Option ManagedProcess) → IsQuiet (old_child u run m)
  unfolding old_child
  old_child-IsQuiet run none = search recovery_rules
  old_child-IsQuiet run (some m) = search recovery_rules depth 16

  record_restart_failure-IsQuiet :
      (id : ℕ) (run : Option Run) (m : Option ManagedProcess) (taken_over : Bool)
      (e : SupervisorError)
      → IsQuiet (record_restart_failure u id run m taken_over e)
  unfolding record_restart_failure
  record_restart_failure-IsQuiet id run m taken_over e =
      search (recovery_rules, old_child-IsQuiet) depth 32

  pub restart_did_fail-IsQuiet :
      (id : ℕ) (run : Option Run) (taken_over : Bool) (e : SupervisorError)
      → IsQuiet (restart_did_fail u id run taken_over e)
  unfolding restart_did_fail
  restart_did_fail-IsQuiet id run taken_over e =
      search (recovery_rules, close_unowned-IsQuiet, record_restart_failure-IsQuiet) depth 24

  preserved_attempt-IsQuiet : (m : Option ManagedProcess) → IsQuiet (preserved_attempt u m)
  unfolding preserved_attempt
  preserved_attempt-IsQuiet none = search recovery_rules
  preserved_attempt-IsQuiet (some m) = search recovery_rules depth 16

  pub take_over_restart-IsQuiet : (id : ℕ) (reset : Bool) → IsQuiet (take_over_restart u id reset)
  unfolding take_over_restart
  take_over_restart-IsQuiet id reset = search (recovery_rules, preserved_attempt-IsQuiet) depth 16

  pub remove_runtime_session-IsQuiet : (id : ℕ) → IsQuiet (remove_runtime_session u id)
  unfolding remove_runtime_session
  remove_runtime_session-IsQuiet id = search recovery_rules depth 16

  may_close_incident-IsQuiet :
      (m : ManagedProcess) (desired : DesiredState) (at : ℕ)
      → IsQuiet (may_close_incident u m desired at)
  unfolding may_close_incident
  may_close_incident-IsQuiet m desired at = search recovery_rules depth 16

  record_startup-IsQuiet : (m : ManagedProcess) (at : ℕ) → IsQuiet (record_startup u m at)
  unfolding record_startup
  record_startup-IsQuiet m at = search (recovery_rules, may_close_incident-IsQuiet) depth 40

  pub confirm_startup-IsQuiet : (m : ManagedProcess) → IsQuiet (confirm_startup u m)
  unfolding confirm_startup
  confirm_startup-IsQuiet m = search (recovery_rules, record_startup-IsQuiet) depth 16

  write_watching-IsQuiet :
      (m : ManagedProcess) (run : Run) (channels online : List Text)
      → IsQuiet (write_watching u m run channels online)
  unfolding write_watching
  write_watching-IsQuiet m run channels online = search recovery_rules depth 16

  persist_watching_event-IsQuiet :
      (m : ManagedProcess) (channels online : List Text)
      → IsQuiet (persist_watching_event u m channels online)
  unfolding persist_watching_event
  persist_watching_event-IsQuiet m channels online =
      search (recovery_rules, write_watching-IsQuiet) depth 16

  consume_event-IsQuiet : (m : ManagedProcess) (e : ControlEvent) → IsQuiet (consume_event u m e)
  unfolding consume_event
  consume_event-IsQuiet m (device_code code uri expires_in) = search recovery_rules depth 24
  consume_event-IsQuiet m ControlEvent.authenticated = search recovery_rules depth 24
  consume_event-IsQuiet m (ControlEvent.authentication_failed e) = search recovery_rules depth 24
  consume_event-IsQuiet m (watching_channels cs online) = search recovery_rules

  consume_events-IsQuiet :
      (m : ManagedProcess) (es : List ControlEvent) → IsQuiet (consume_events u m es)
  unfolding consume_events
  consume_events-IsQuiet m [] = search recovery_rules
  consume_events-IsQuiet m (e ∷ es) = IsQuiet-bind _ _ (search recovery_rules) (λ _.
      IsQuiet-bind _ _ (consume_event-IsQuiet m e) (λ failure.
        IsQuiet-on_option failure _ _ (consume_events-IsQuiet m es) (λ t. search recovery_rules)))

  persist_latest-IsQuiet : (m : ManagedProcess) (e : ControlEvent) → IsQuiet (persist_latest u m e)
  unfolding persist_latest
  persist_latest-IsQuiet m (device_code code uri expires_in) = search recovery_rules
  persist_latest-IsQuiet m ControlEvent.authenticated = search recovery_rules
  persist_latest-IsQuiet m (ControlEvent.authentication_failed e) = search recovery_rules
  persist_latest-IsQuiet m (watching_channels cs online) =
      persist_watching_event-IsQuiet m cs online

  pub consume_control_events-IsQuiet : (m : ManagedProcess) → IsQuiet (consume_control_events u m)
  unfolding consume_control_events
  consume_control_events-IsQuiet m =
      search (recovery_rules, consume_events-IsQuiet, persist_latest-IsQuiet) depth 24

  pub reset_retries-IsQuiet : (id at : ℕ) → IsQuiet (reset_retries u id at)
  unfolding reset_retries
  reset_retries-IsQuiet id at = search recovery_rules depth 16

  pub settle_stopped-IsQuiet : (id : ℕ) → IsQuiet (settle_stopped u id)
  unfolding settle_stopped
  settle_stopped-IsQuiet id = search recovery_rules depth 24

  pub stop_unable-IsQuiet : (id : ℕ) (account : Account) → IsQuiet (stop_unable u id account)
  unfolding stop_unable
  stop_unable-IsQuiet id account = search recovery_rules

  pub deliver-IsQuiet : (es : List (ℕ × ControlEvent)) → IsQuiet (deliver u es)
  unfolding deliver
  deliver-IsQuiet [] = search recovery_rules
  deliver-IsQuiet ((id, e) ∷ rest) =
      IsQuiet-bind _ _ (search recovery_rules)
        (λ _. IsQuiet-bind _ _ (search recovery_rules) (λ _. deliver-IsQuiet rest))

  pub claim_attempt-IsQuiet : (id attempt_id at : ℕ) → IsQuiet (claim_attempt u id attempt_id at)
  unfolding claim_attempt
  claim_attempt-IsQuiet id attempt_id at = search recovery_rules depth 24

pub ruleset launch_rules = (
  recovery_rules, launch_failed-IsQuiet, publish-IsQuiet, start_child-IsQuiet,
  require_flushed-IsQuiet, reuse-IsQuiet, close_unowned-IsQuiet, start_did_fail-IsQuiet,
  snapshot-IsQuiet, restart_did_fail-IsQuiet, take_over_restart-IsQuiet,
  remove_runtime_session-IsQuiet, confirm_startup-IsQuiet, consume_control_events-IsQuiet,
  reset_retries-IsQuiet, settle_stopped-IsQuiet, stop_unable-IsQuiet, deliver-IsQuiet,
  claim_attempt-IsQuiet,
)
