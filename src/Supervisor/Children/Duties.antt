-- ===== src/Supervisor/Children/Duties.antt =====
-- The command queue, the heartbeat and the startup of controller/miner_supervisor.py leave the
-- entries of the children alone.
use twitch_car_factory.Base.{ℕ, Bool, true, Option, some, List, [], ◌∷◌}
use twitch_car_factory.Base.Exec.{modify}
use twitch_car_factory.Control.Text.{Text}
use twitch_car_factory.Control.Model.{Run, InstanceState, Command}
use twitch_car_factory.Supervisor.State.{ManagedProcess, Setup, WorkerLease}
use twitch_car_factory.Supervisor.Execute.{
  alive_runs, await_confirmation, beat_now, cancel, fall_back, heartbeat, lease_command,
  recover_if_current, recover_incident_for_healthy_fallback,
}
use twitch_car_factory.Supervisor.Startup.{
  acquire_database_lease, close_orphans, disown_state, disown_states, reconcile_startup,
  record_stale, reschedule, take_lease,
}
use twitch_car_factory.Supervisor.Lifetime.{purge_drafts, release_lease}
use twitch_car_factory.Supervisor.Children.{IsQuiet, IsQuiet-bind, IsQuiet-if}
use twitch_car_factory.Supervisor.Children.Recoveries.{recovery_rules}

module _ {W : Type 0} (u : Setup W) where
  pub lease_command-IsQuiet : IsQuiet (lease_command u)
  unfolding lease_command
  lease_command-IsQuiet = search recovery_rules depth 24

  recover_if_current-IsQuiet : (id : ℕ) (m : ManagedProcess) → IsQuiet (recover_if_current u id m)
  unfolding recover_if_current
  recover_if_current-IsQuiet id m = search recovery_rules depth 24

  fallback-IsQuiet : (id : ℕ) → IsQuiet (recover_incident_for_healthy_fallback u id)
  unfolding recover_incident_for_healthy_fallback
  fallback-IsQuiet id = search (recovery_rules, recover_if_current-IsQuiet) depth 24

  pub fall_back-IsQuiet : (c : Command) → IsQuiet (fall_back u c)
  unfolding fall_back
  fall_back-IsQuiet c = search (recovery_rules, fallback-IsQuiet) depth 16

  pub cancel-IsQuiet : (c : Command) (error : Text) → IsQuiet (cancel u c error)
  unfolding cancel
  cancel-IsQuiet c error = search (recovery_rules, fall_back-IsQuiet) depth 16

  pub await_confirmation-IsQuiet :
      (c : Command) (m : ManagedProcess) → IsQuiet (await_confirmation u c m)
  unfolding await_confirmation
  await_confirmation-IsQuiet c m = search recovery_rules depth 16

  alive_runs-IsQuiet : (ms : List ManagedProcess) → IsQuiet (alive_runs u ms)
  unfolding alive_runs
  alive_runs-IsQuiet [] = search recovery_rules
  alive_runs-IsQuiet (m ∷ ms) = IsQuiet-if _ _ _ (alive_runs-IsQuiet ms) (
      IsQuiet-bind _ _ (search recovery_rules)
        (λ _. IsQuiet-bind _ _ (alive_runs-IsQuiet ms) (λ _. search recovery_rules)))

  beaten-IsQuiet :
      (clock : ℕ) → IsQuiet {W = W} (modify (λ s. record s { last_heartbeat = some clock }))
  unfolding modify
  beaten-IsQuiet clock = record { quiet = λ s. record { keep = λ t b. b } }

  beat_now-IsQuiet : (clock : ℕ) → IsQuiet (beat_now u clock)
  unfolding beat_now
  beat_now-IsQuiet clock = search (recovery_rules, alive_runs-IsQuiet, beaten-IsQuiet) depth 40

  pub heartbeat-IsQuiet : (force : Bool) → IsQuiet (heartbeat u force)
  unfolding heartbeat
  heartbeat-IsQuiet force = search (recovery_rules, beat_now-IsQuiet) depth 16

  stale-IsQuiet : IsQuiet {W = W} (modify (λ s. record s { recovered_stale_lease = true }))
  unfolding modify
  stale-IsQuiet = record { quiet = λ s. record { keep = λ t b. b } }

  record_stale-IsQuiet : (at : ℕ) (old : Option WorkerLease) → IsQuiet (record_stale u at old)
  unfolding record_stale
  record_stale-IsQuiet at old = search (recovery_rules, stale-IsQuiet) depth 16

  take_lease-IsQuiet : (at : ℕ) → IsQuiet (take_lease u at)
  unfolding take_lease
  take_lease-IsQuiet at = search (recovery_rules, record_stale-IsQuiet) depth 16

  pub acquire_database_lease-IsQuiet : IsQuiet (acquire_database_lease u)
  unfolding acquire_database_lease
  acquire_database_lease-IsQuiet = search (recovery_rules, take_lease-IsQuiet) depth 16

  disown_state-IsQuiet :
      (at id : ℕ) (t : InstanceState) (run : Option Run) → IsQuiet (disown_state u at id t run)
  unfolding disown_state
  disown_state-IsQuiet at id t run = search recovery_rules depth 16

  disown_states-IsQuiet :
      (at : ℕ) (rows : List ((ℕ × InstanceState) × Option Run)) → IsQuiet (disown_states u at rows)
  unfolding disown_states
  disown_states-IsQuiet at [] = search recovery_rules
  disown_states-IsQuiet at (((id, t), run) ∷ rest) =
      IsQuiet-bind _ _ (disown_state-IsQuiet at id t run)
        (λ _. IsQuiet-bind _ _ (disown_states-IsQuiet at rest) (λ _. search recovery_rules))

  close_orphans-IsQuiet : (at : ℕ) → IsQuiet (close_orphans u at)
  unfolding close_orphans
  close_orphans-IsQuiet at = search recovery_rules depth 16

  reschedule-IsQuiet : (ids : List ℕ) → IsQuiet (reschedule u ids)
  unfolding reschedule
  reschedule-IsQuiet [] = search recovery_rules
  reschedule-IsQuiet (id ∷ ids) =
      IsQuiet-bind _ _ (search recovery_rules)
        (λ _. IsQuiet-bind _ _ (search recovery_rules depth 16) (λ _. reschedule-IsQuiet ids))

  pub reconcile_startup-IsQuiet : IsQuiet (reconcile_startup u)
  unfolding reconcile_startup
  reconcile_startup-IsQuiet =
      search (recovery_rules, disown_states-IsQuiet, close_orphans-IsQuiet, reschedule-IsQuiet)
        depth 40

  pub release_lease-IsQuiet : IsQuiet (release_lease u)
  unfolding release_lease
  release_lease-IsQuiet = search recovery_rules

  pub purge_drafts-IsQuiet : IsQuiet (purge_drafts u)
  unfolding purge_drafts
  purge_drafts-IsQuiet = search recovery_rules

pub ruleset duty_rules = (
  recovery_rules, lease_command-IsQuiet, fall_back-IsQuiet, cancel-IsQuiet,
  await_confirmation-IsQuiet, heartbeat-IsQuiet, acquire_database_lease-IsQuiet,
  reconcile_startup-IsQuiet, release_lease-IsQuiet, purge_drafts-IsQuiet,
)
