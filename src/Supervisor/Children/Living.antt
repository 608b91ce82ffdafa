-- ===== src/Supervisor/Children/Living.antt =====
-- The commands, the startup, the rounds and the shutdown of controller/miner_supervisor.py keep each
-- child that lives held by self.processes.
use twitch_car_factory.Base.{ℕ, zero, suc, Bool, some, nat_eq}
use twitch_car_factory.Base.Result.{Result, ok, err}
use twitch_car_factory.Base.Exec.{modify}
use twitch_car_factory.Control.Model.{Command, CommandAction, start, stop, restart, authenticate}
use twitch_car_factory.Supervisor.State.{Setup, SupervisorError}
use twitch_car_factory.Supervisor.Stop.{rescue}
use twitch_car_factory.Supervisor.Execute.{
  carried_out, carry_out, execute_command, process_pending_commands,
}
use twitch_car_factory.Supervisor.Lifetime.{
  check_if_due, refresh_if_due, release_lease, run_once, start_up, startup,
}
use twitch_car_factory.Supervisor.Children.{IsQuiet, Stable-Owned, Keeps-quiet}
use twitch_car_factory.Supervisor.Children.Duties.{duty_rules, release_lease-IsQuiet}
use twitch_car_factory.Supervisor.Children.Stopping.{rescue-Safe}
use twitch_car_factory.Supervisor.Children.Guarded.{
  IsGuarded, IsGuarded-bind, IsGuarded-on_option, IsGuarded-pure, guarded_rules,
}
use twitch_car_factory.Supervisor.Children.Rounding.{
  check_health-IsGuarded, reconcile_desired_state-IsGuarded, reconcile_fingerprints-IsGuarded,
}
use twitch_car_factory.Supervisor.Children.Recovering.{perform_due_recoveries-IsGuarded}

module _ {W : Type 0} (u : Setup W) where
  carry_out-IsGuarded : (c : Command) (a : CommandAction) → IsGuarded (carry_out u c a)
  unfolding carry_out
  carry_out-IsGuarded c stop = search (guarded_rules, duty_rules)
  carry_out-IsGuarded c start = search (guarded_rules, duty_rules)
  carry_out-IsGuarded c restart = search (guarded_rules, duty_rules)
  carry_out-IsGuarded c authenticate = search (guarded_rules, duty_rules)

  carried_out-IsGuarded :
      (c : Command) (r : Result SupervisorError Bool) → IsGuarded (carried_out u c r)
  unfolding carried_out
  carried_out-IsGuarded c (ok pending) = search (guarded_rules, duty_rules)
  carried_out-IsGuarded c (err e) = search (guarded_rules, duty_rules)

  execute_command-IsGuarded : (c : Command) → IsGuarded (execute_command u c)
  unfolding execute_command
  execute_command-IsGuarded c =
      search (carry_out-IsGuarded, carried_out-IsGuarded, guarded_rules, duty_rules) depth 24

  process_pending_commands-IsGuarded : (n : ℕ) → IsGuarded (process_pending_commands u n)
  unfolding process_pending_commands
  process_pending_commands-IsGuarded zero = search (guarded_rules, duty_rules)
  process_pending_commands-IsGuarded (suc n) =
      IsGuarded-bind _ _ (search (guarded_rules, duty_rules)) (λ command.
        IsGuarded-on_option command _ _ (IsGuarded-pure 0) (λ c.
          IsGuarded-bind _ _ (execute_command-IsGuarded c) (λ _.
            IsGuarded-bind _ _ (search (guarded_rules, duty_rules)) (λ _.
              IsGuarded-bind _ _ (process_pending_commands-IsGuarded n) (λ _. IsGuarded-pure _)))))

  set_started-IsQuiet : (b : Bool) → IsQuiet {W = W} (modify (λ s. record s { is_started = b }))
  unfolding modify
  set_started-IsQuiet b = record { quiet = λ s. record { keep = λ t c. c } }

  start_up-IsGuarded : IsGuarded (start_up u)
  unfolding start_up
  start_up-IsGuarded =
      search
        (
          process_pending_commands-IsGuarded, set_started-IsQuiet,
          reconcile_desired_state-IsGuarded, perform_due_recoveries-IsGuarded, guarded_rules,
          duty_rules,
        )
        depth 40

  rescued_start-IsGuarded : IsGuarded (rescue u (start_up u) (λ _. release_lease u))
  rescued_start-IsGuarded = record {
    guards =
        rescue-Safe u _ _ start_up-IsGuarded.guards
          (λ e. Keeps-quiet Stable-Owned _ (release_lease-IsQuiet u));
  }

  pub startup-IsGuarded : IsGuarded (startup u)
  unfolding startup
  startup-IsGuarded = search (rescued_start-IsGuarded, guarded_rules, duty_rules)

  checked-IsQuiet :
      (clock : ℕ) → IsQuiet {W = W} (modify (λ s. record s { last_health = some clock }))
  unfolding modify
  checked-IsQuiet clock = record { quiet = λ s. record { keep = λ t c. c } }

  refreshed-IsQuiet :
      (clock : ℕ) → IsQuiet {W = W} (modify (λ s. record s { last_fingerprint = some clock }))
  unfolding modify
  refreshed-IsQuiet clock = record { quiet = λ s. record { keep = λ t c. c } }

  check_if_due-IsGuarded : (force : Bool) (clock : ℕ) → IsGuarded (check_if_due u force clock)
  unfolding check_if_due
  check_if_due-IsGuarded force clock =
      search (check_health-IsGuarded, checked-IsQuiet, guarded_rules, duty_rules) depth 16

  refresh_if_due-IsGuarded : (force : Bool) (clock : ℕ) → IsGuarded (refresh_if_due u force clock)
  unfolding refresh_if_due
  refresh_if_due-IsGuarded force clock =
      search (reconcile_fingerprints-IsGuarded, refreshed-IsQuiet, guarded_rules, duty_rules) depth
        16

  pub run_once-IsGuarded : (force : Bool) → IsGuarded (run_once u force)
  unfolding run_once
  run_once-IsGuarded force =
      search
        (
          process_pending_commands-IsGuarded, check_if_due-IsGuarded, refresh_if_due-IsGuarded,
          perform_due_recoveries-IsGuarded, guarded_rules, duty_rules,
        )
        depth 32
