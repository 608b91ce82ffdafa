-- ===== src/Supervisor/Children/Rounding.antt =====
-- check_health, _perform_due_recoveries, reconcile_desired_state and reconcile_fingerprints of
-- controller/miner_supervisor.py keep each child that lives held.
use twitch_car_factory.Base.{ℕ, true, false, not, ◌&&◌, Option, none, some, List, [], ◌∷◌, nat_eq}
use twitch_car_factory.Base.Dict.{Dict}
use twitch_car_factory.Base.Result.{Result, ok, err}
use twitch_car_factory.Base.Safe.{Safe-bind, Safe-weaken, Safe-pure, Safe-if}
use twitch_car_factory.Control.Text.{Text}
use twitch_car_factory.Control.Model.{Run, InstanceState}
use twitch_car_factory.Supervisor.State.{ManagedProcess, Setup, SupervisorError}
use twitch_car_factory.Supervisor.Rounds.{
  check_alive, check_child, check_children, check_consumed, check_health, check_running,
  reconcile_account, reconcile_accounts, reconcile_desired_state, stop_if_owned,
}
use twitch_car_factory.Supervisor.Refresh.{
  reconcile_fingerprints, refresh_child, refresh_children, refresh_failed, refresh_run,
}
use twitch_car_factory.Supervisor.Health.{fail_authentication}
use twitch_car_factory.Supervisor.Children.{Owned, Stable-Owned}
use twitch_car_factory.Supervisor.Children.Launches.{launch_rules}
use twitch_car_factory.Supervisor.Children.Guard.{Guard-Owned, Reaped}
use twitch_car_factory.Supervisor.Children.Stopping.{handle_unexpected_exit-Safe, poll-Safe}
use twitch_car_factory.Supervisor.Children.Guarded.{
  IsGuarded, IsGuarded-bind, guarded_rules, on_Reaped,
}

module _ {W : Type 0} (u : Setup W) where
  fail_authentication-IsGuarded :
      (m : ManagedProcess) (error : Text) → IsGuarded (fail_authentication u m error)
  unfolding fail_authentication
  fail_authentication-IsGuarded m error = search (guarded_rules, launch_rules) depth 24

  check_alive-IsGuarded : (m : ManagedProcess) (at : ℕ) → IsGuarded (check_alive u m at)
  unfolding check_alive
  check_alive-IsGuarded m at =
      search (fail_authentication-IsGuarded, guarded_rules, launch_rules) depth 24

  check_running-IsGuarded : (m : ManagedProcess) (at : ℕ) → IsGuarded (check_running u m at)
  unfolding check_running
  check_running-IsGuarded m at = record {
    guards =
        Safe-bind (λ code s. Owned s × Reaped m.process code s) _ _
          (poll-Safe u m.process Stable-Owned)
          (λ code. on_Reaped m.process code _ _ (check_alive-IsGuarded m at) (λ c.
            Safe-if (m.auth_required && not m.is_authenticated) _ _
              (Safe-weaken _ (λ s p. p.0) (λ a s o. o) (λ s o. o)
                (fail_authentication-IsGuarded m _).guards)
              (Safe-bind (λ _. Owned) _ _
                (handle_unexpected_exit-Safe u Guard-Owned m (some c) true false)
                (λ _. Safe-pure tt (λ s o. o)))));
  }

  check_consumed-IsGuarded :
      (m : ManagedProcess) (state : InstanceState) (at : ℕ)
      → IsGuarded (check_consumed u m state at)
  unfolding check_consumed
  check_consumed-IsGuarded m state at =
      search (check_running-IsGuarded, guarded_rules, launch_rules) depth 24

  check_child-IsGuarded : (at : ℕ) (m : ManagedProcess) → IsGuarded (check_child u at m)
  unfolding check_child
  check_child-IsGuarded at m =
      search (check_consumed-IsGuarded, fail_authentication-IsGuarded, guarded_rules, launch_rules)
        depth 24

  check_children-IsGuarded :
      (at : ℕ) (ms : List ManagedProcess) → IsGuarded (check_children u at ms)
  unfolding check_children
  check_children-IsGuarded at [] = search (guarded_rules, launch_rules)
  check_children-IsGuarded at (m ∷ ms) =
      IsGuarded-bind _ _ (check_child-IsGuarded at m) (λ _. check_children-IsGuarded at ms)

  stop_if_owned-IsGuarded : (id : ℕ) (o : Option ManagedProcess) → IsGuarded (stop_if_owned u id o)
  unfolding stop_if_owned
  stop_if_owned-IsGuarded id none = search (guarded_rules, launch_rules)
  stop_if_owned-IsGuarded id (some m) = search (guarded_rules, launch_rules)

  reconcile_account-IsGuarded :
      (id : ℕ) (state : InstanceState) → IsGuarded (reconcile_account u id state)
  unfolding reconcile_account
  reconcile_account-IsGuarded id state =
      search (stop_if_owned-IsGuarded, guarded_rules, launch_rules) depth 32

  reconcile_accounts-IsGuarded : (d : Dict ℕ InstanceState) → IsGuarded (reconcile_accounts u d)
  unfolding reconcile_accounts
  reconcile_accounts-IsGuarded [] = search (guarded_rules, launch_rules)
  reconcile_accounts-IsGuarded ((id, state) ∷ rest) =
      IsGuarded-bind _ _ (reconcile_account-IsGuarded id state)
        (λ _. reconcile_accounts-IsGuarded rest)

  pub reconcile_desired_state-IsGuarded : IsGuarded (reconcile_desired_state u)
  unfolding reconcile_desired_state
  reconcile_desired_state-IsGuarded =
      search (reconcile_accounts-IsGuarded, guarded_rules, launch_rules)

  pub check_health-IsGuarded : IsGuarded (check_health u)
  unfolding check_health
  check_health-IsGuarded =
      search
        (check_children-IsGuarded, reconcile_desired_state-IsGuarded, guarded_rules, launch_rules)
        depth 24

  refresh_run-IsGuarded : (run : Run) → IsGuarded (refresh_run u run)
  unfolding refresh_run
  refresh_run-IsGuarded run = search (guarded_rules, launch_rules) depth 24

  refresh_failed-IsGuarded :
      (m : ManagedProcess) (r : Result SupervisorError (Unit {0}))
      → IsGuarded (refresh_failed u m r)
  unfolding refresh_failed
  refresh_failed-IsGuarded m (ok _) = search (guarded_rules, launch_rules)
  refresh_failed-IsGuarded m (err e) = search (guarded_rules, launch_rules)

  refresh_child-IsGuarded : (m : ManagedProcess) → IsGuarded (refresh_child u m)
  unfolding refresh_child
  refresh_child-IsGuarded m =
      search (refresh_run-IsGuarded, refresh_failed-IsGuarded, guarded_rules, launch_rules) depth 24

  refresh_children-IsGuarded : (ms : List ManagedProcess) → IsGuarded (refresh_children u ms)
  unfolding refresh_children
  refresh_children-IsGuarded [] = search (guarded_rules, launch_rules)
  refresh_children-IsGuarded (m ∷ ms) =
      IsGuarded-bind _ _ (refresh_child-IsGuarded m) (λ _. refresh_children-IsGuarded ms)

  pub reconcile_fingerprints-IsGuarded : IsGuarded (reconcile_fingerprints u)
  unfolding reconcile_fingerprints
  reconcile_fingerprints-IsGuarded =
      search
        (reconcile_desired_state-IsGuarded, refresh_children-IsGuarded, guarded_rules, launch_rules)
        depth 24
