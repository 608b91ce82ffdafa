-- ===== src/Supervisor/Children/Starting.antt =====
-- start_account, restart_account and authenticate_account of controller/miner_supervisor.py keep each
-- child that lives held.
use twitch_car_factory.Base.{
  ℕ, Bool, true, false, not, ◌||◌, Option, none, some, nat_eq, ◌≡◌, is_some, arith,
}
use twitch_car_factory.Base.Exec.{pure, on_option, ◌>>◌}
use twitch_car_factory.Base.Safe.{
  Safe, Safe-bind, Safe-weaken, Safe-pure, Safe-raise, Safe-if, Safe-on_option, Safe-fact,
}
use twitch_car_factory.Json.{ℤ}
use twitch_car_factory.Control.Model.{ObservedState, Run, StopReason}
use twitch_car_factory.Supervisor.State.{ManagedProcess, Setup}
use twitch_car_factory.Supervisor.Stop.{stop_account}
use twitch_car_factory.Supervisor.Start.{
  authenticate_account, handshake, launch, launch_if_able, replace_dead, restart_account, reuse,
  settle_cleanup, settle_stop, start_account, start_over, swap_child,
}
use twitch_car_factory.Supervisor.Children.{
  Owned, Holds, Keeps-quiet, Stable-both, Stable-Dead, Dead, Stable-Owned, Stable-Holds,
}
use twitch_car_factory.Supervisor.Children.Launches.{
  launch_rules, start_did_fail-IsQuiet, restart_did_fail-IsQuiet,
}
use twitch_car_factory.Supervisor.Children.Guard.{Reaped, Free-Dead, Guard-Owned, Guard-Free}
use twitch_car_factory.Supervisor.Children.Stopping.{
  Held, Safe-quiet, handle_unexpected_exit-Safe, managed_of-Held, poll-Safe, quiet_then,
  rescue-Safe, stop_account-Safe,
}
use twitch_car_factory.Supervisor.Children.Cleaning.{reconcile_required_cleanup-Safe}
use twitch_car_factory.Supervisor.Children.Spawning.{
  Vacant, Stable-Vacant, snapshot-Safe, spawn_for-Safe,
}

module _ {W : Type 0} (u : Setup W) where
  launch-Safe :
      (id : ℕ) (reset : Bool) (command : Option ℕ)
      → Safe (Vacant id) (launch u id reset command) (λ _. Owned) Owned
  unfolding launch
  launch-Safe id reset command =
      Safe-bind (λ run s. Vacant id s × (run.account_id ≡ id)) _ _
        (rescue-Safe u _ _
          (Safe-weaken _ (λ s v. v) (λ a s q. q) (λ s v. v.0)
            (snapshot-Safe u id false (Stable-Vacant id)))
          (λ e. Keeps-quiet Stable-Owned _ (start_did_fail-IsQuiet u id none false e)))
        (λ run. Safe-fact _ (λ same.
          Safe-bind (λ _. Vacant id) _ _
            (rescue-Safe u _ _ (Safe-quiet _ (Stable-Vacant id) (λ s v. v.0) (search launch_rules))
              (λ e. Keeps-quiet Stable-Owned _ (start_did_fail-IsQuiet u id (some run) false e)))
            (λ _.
              rescue-Safe u _ _ (spawn_for-Safe u id run command same)
                (λ e. Keeps-quiet Stable-Owned _ (start_did_fail-IsQuiet u id (some run) true e)))))

  launch_if_able-Safe :
      (id : ℕ) (reset : Bool) (command : Option ℕ)
      → Safe (Vacant id) (launch_if_able u id reset command) (λ _. Owned) Owned
  unfolding launch_if_able
  launch_if_able-Safe id reset command =
      quiet_then _ _ (Stable-Vacant id) (λ s v. v.0) (search launch_rules)
        (λ _.
          quiet_then _ _ (Stable-Vacant id) (λ s v. v.0) (search launch_rules)
            (λ account.
              quiet_then _ _ (Stable-Vacant id) (λ s v. v.0) (search launch_rules)
                (λ credential.
                  Safe-if (not account.is_active || not (is_some credential)) _ _
                    (quiet_then _ _ (Stable-Vacant id) (λ s v. v.0) (search launch_rules)
                      (λ at.
                        quiet_then _ _ (Stable-Vacant id) (λ s v. v.0) (search launch_rules)
                          (λ _. Safe-raise _ (λ s v. v.0))))
                    (launch-Safe id reset command))))

  replace_dead-Safe :
      (id : ℕ) (m : ManagedProcess) (reset : Bool) (command : Option ℕ)
      → Safe
          (λ s. Vacant id s × Dead m.process s)
          (replace_dead u id m reset command)
          (λ _. Owned)
          Owned
  unfolding replace_dead
  replace_dead-Safe id m reset command =
      quiet_then _ _ (Stable-both (Stable-Vacant id) (Stable-Dead m.process)) (λ s v. v.0.0)
        (search launch_rules)
        (λ code.
          Safe-bind (λ _. Vacant id) _ _
            (Safe-weaken _ (λ s v. v) (λ a s v. v) (λ s v. v.0)
              (handle_unexpected_exit-Safe u (Guard-Free id Guard-Owned) m code _ false))
            (λ finalized. Safe-if (not finalized) _ _ (Safe-raise _ (λ s v. v.0)) (
              Safe-if (not (is_some command)) _ _ (Safe-raise _ (λ s v. v.0))
                (launch_if_able-Safe id reset command))))

  start_polled-Safe :
      (id : ℕ) (m : ManagedProcess) (reset : Bool) (command : Option ℕ) (code : Option ℤ)
      → Safe
          (λ s. (Owned s × Holds id m.process s) × Reaped m.process code s)
          (on_option code (reuse u m command) (λ c. replace_dead u id m reset command))
          (λ _. Owned)
          Owned
  unfolding on_option
  start_polled-Safe id m reset command none =
      Safe-weaken _ (λ s p. p.0.0) (λ a s o. o) (λ s o. o)
        (Safe-quiet _ Stable-Owned (λ s o. o) (search launch_rules))
  start_polled-Safe id m reset command (some c) =
      Safe-weaken _ (λ s p. ((p.0.0, Free-Dead id m.process s p.0.1 p.1), p.1)) (λ a s o. o)
        (λ s o. o) (replace_dead-Safe id m reset command)

  start_over-Safe :
      (id : ℕ) (m : ManagedProcess) (reset : Bool) (command : Option ℕ)
      → Safe
          (λ s. Owned s × Holds id m.process s)
          (start_over u id m reset command)
          (λ _. Owned)
          Owned
  unfolding start_over
  start_over-Safe id m reset command = Safe-if _ _ _ (Safe-raise _ (λ s p. p.0)) (
      Safe-bind (λ code s. (Owned s × Holds id m.process s) × Reaped m.process code s) _ _
        (Safe-weaken _ (λ s p. p) (λ a s q. q) (λ s p. p.0)
          (poll-Safe u m.process (Stable-both Stable-Owned (Stable-Holds id m.process))))
        (start_polled-Safe id m reset command))

  begin-Safe :
      (id : ℕ) (o : Option ManagedProcess) (reset : Bool) (command : Option ℕ)
      → Safe
          (λ s. Owned s × Held id o s)
          (on_option o (launch_if_able u id reset command) (λ m. start_over u id m reset command))
          (λ _. Owned)
          Owned
  unfolding on_option
  begin-Safe id none reset command =
      Safe-weaken _ (λ s p. (p.0, λ h l e. ground (arith, p.1, e))) (λ a s o. o) (λ s o. o)
        (launch_if_able-Safe id reset command)
  begin-Safe id (some m) reset command = start_over-Safe id m reset command

  settle_cleanup-Safe : (id : ℕ) → Safe Owned (settle_cleanup u id) (λ _. Owned) Owned
  unfolding settle_cleanup
  settle_cleanup-Safe id =
      quiet_then _ _ Stable-Owned (λ s o. o) (search launch_rules)
        (λ existing. Safe-on_option existing _ _ (Safe-pure tt (λ s o. o)) (λ m.
          Safe-if _ _ _ (reconcile_required_cleanup-Safe u Guard-Owned m)
            (Safe-pure tt (λ s o. o))))

  pub stop_then-Safe :
      {B : Type 0} (id : ℕ) (reason : StopReason) (preserve : Bool) (final : Option ObservedState)
      (except : Option ℕ) (b : B)
      → Safe Owned (stop_account u id reason preserve final except >> pure b) (λ _. Owned) Owned
  stop_then-Safe id reason preserve final except b =
      Safe-bind (λ _. Vacant id) _ _
        (stop_account-Safe u Guard-Owned id reason preserve final except)
        (λ _. Safe-pure b (λ s v. v.0))

  settle_stop-Safe : (id : ℕ) → Safe Owned (settle_stop u id) (λ _. Owned) Owned
  unfolding settle_stop
  settle_stop-Safe id =
      quiet_then _ _ Stable-Owned (λ s o. o) (search launch_rules)
        (λ existing. Safe-on_option existing _ _ (Safe-pure tt (λ s o. o)) (λ m.
          Safe-on_option m.pending_stop_reason _ _ (Safe-pure tt (λ s o. o))
            (λ reason. stop_then-Safe id reason true _ none tt)))

  -- start_account
  pub start_account-Safe :
      (id : ℕ) (reset : Bool) (command : Option ℕ)
      → Safe Owned (start_account u id reset command) (λ _. Owned) Owned
  unfolding start_account
  start_account-Safe id reset command =
      quiet_then _ _ Stable-Owned (λ s o. o) (search launch_rules)
        (λ _.
          Safe-bind (λ _. Owned) _ _ (settle_cleanup-Safe id)
            (λ _.
              Safe-bind (λ _. Owned) _ _ (settle_stop-Safe id)
                (λ _.
                  Safe-bind (λ o s. Owned s × Held id o s) _ _ (managed_of-Held u id)
                    (λ o. begin-Safe id o reset command))))

  swap_child-Safe :
      (id : ℕ) (reason : StopReason) (run : Run) (command : Option ℕ)
      → run.account_id ≡ id
      → Safe Owned (swap_child u id reason run command) (λ _. Owned) Owned
  unfolding swap_child
  swap_child-Safe id reason run command same =
      quiet_then _ _ Stable-Owned (λ s o. o) (search launch_rules)
        (λ _.
          Safe-bind (λ _. Vacant id) _ _ (stop_account-Safe u Guard-Owned id reason true _ command)
            (λ _. spawn_for-Safe u id run command same))

  -- restart_account
  pub restart_account-Safe :
      (id : ℕ) (reason : StopReason) (reset : Bool) (command : Option ℕ)
      → Safe Owned (restart_account u id reason reset command) (λ _. Owned) Owned
  unfolding restart_account
  restart_account-Safe id reason reset command =
      quiet_then _ _ Stable-Owned (λ s o. o) (search launch_rules)
        (λ _.
          Safe-bind (λ run s. Owned s × (run.account_id ≡ id)) _ _
            (rescue-Safe u _ _ (snapshot-Safe u id false Stable-Owned)
              (λ e. Keeps-quiet Stable-Owned _ (restart_did_fail-IsQuiet u id none false e)))
            (λ run. Safe-fact _ (λ same.
              Safe-bind (λ _. Owned) _ _
                (rescue-Safe u _ _ (Safe-quiet _ Stable-Owned (λ s o. o) (search launch_rules))
                  (λ e.
                    Keeps-quiet Stable-Owned _ (restart_did_fail-IsQuiet u id (some run) false e)))
                (λ _. rescue-Safe u _ _ (swap_child-Safe id reason run command same) (λ e.
                  Keeps-quiet Stable-Owned _ (restart_did_fail-IsQuiet u id (some run) true e))))))

  handshake-Safe :
      (id : ℕ) (run : Run) (command : ℕ)
      → run.account_id ≡ id
      → Safe Owned (handshake u id run command) (λ _. Owned) Owned
  unfolding handshake
  handshake-Safe id run command same =
      Safe-bind (λ _. Vacant id) _ _ (stop_account-Safe u Guard-Owned id _ true _ (some command))
        (λ _.
          quiet_then _ _ (Stable-Vacant id) (λ s v. v.0) (search launch_rules)
            (λ _.
              quiet_then _ _ (Stable-Vacant id) (λ s v. v.0) (search launch_rules)
                (λ _.
                  quiet_then _ _ (Stable-Vacant id) (λ s v. v.0) (search launch_rules)
                    (λ at.
                      quiet_then _ _ (Stable-Vacant id) (λ s v. v.0) (search launch_rules)
                        (λ _. spawn_for-Safe u id run (some command) same)))))

  -- authenticate_account
  pub authenticate_account-Safe :
      (id command : ℕ) → Safe Owned (authenticate_account u id command) (λ _. Owned) Owned
  unfolding authenticate_account
  authenticate_account-Safe id command =
      Safe-bind (λ run s. Owned s × (run.account_id ≡ id)) _ _
        (snapshot-Safe u id true Stable-Owned)
        (λ run. Safe-fact _ (λ same.
          rescue-Safe u _ _ (handshake-Safe id run command same)
            (λ e. Keeps-quiet Stable-Owned _ (search launch_rules))))
