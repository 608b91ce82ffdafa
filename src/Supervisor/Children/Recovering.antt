-- ===== src/Supervisor/Children/Recovering.antt =====
-- _perform_due_recoveries of controller/miner_supervisor.py keeps each child that lives held.
use twitch_car_factory.Base.{
  ℕ, Bool, true, false, not, ◌&&◌, Option, none, some, List, [], ◌∷◌, nat_eq, ◌≡◌, ◌==◌,
}
use mathlib.Core.Path.{subst}
use twitch_car_factory.Base.Result.{Result, ok, err}
use twitch_car_factory.Base.Exec.{pure, attempt, ◌>>=◌}
use twitch_car_factory.Base.Safe.{
  Safe, AtEnd, Safe-bind, Safe-weaken, Safe-attempt, Safe-pure, Safe-if, Safe-on_option, Safe-fact,
  at_any_end,
}
use twitch_car_factory.Control.Model.{Run, wants_running}
use twitch_car_factory.Supervisor.State.{Setup, SupervisorError}
use twitch_car_factory.Supervisor.Due.{
  claimed, is_ok, launch_recovery, perform_due_recoveries, provisional_child, recover_account,
  recover_accounts, recover_incident, recovery_failed, recovery_launched, recovery_snapshot,
  spawn_recovery,
}
use twitch_car_factory.Supervisor.Spawn.{spawn_snapshot}
use twitch_car_factory.Supervisor.Start.{start_account}
use twitch_car_factory.Supervisor.Recovery.{is_started}
use twitch_car_factory.Supervisor.Children.{Owned, IsQuiet, Stable-Owned}
use twitch_car_factory.Supervisor.Children.Launches.{launch_rules}
use twitch_car_factory.Supervisor.Children.Stopping.{Held, Safe-quiet, managed_of-Held, quiet_then}
use twitch_car_factory.Supervisor.Children.Spawning.{
  Stable-Vacant, Vacant, snapshot-Safe, spawn_snapshot-Safe, transaction-Safe,
}
use twitch_car_factory.Supervisor.Children.Guarded.{
  IsGuarded, IsGuarded-bind, IsGuarded-pure, guarded_rules, on_Vacant,
}

module _ {W : Type 0} (u : Setup W) where
  spawn_recovery-Safe :
      (id attempt_id : ℕ) (run : Run)
      → run.account_id ≡ id
      → Safe (Vacant id) (spawn_recovery u id attempt_id run) (λ _. Owned) Owned
  unfolding spawn_recovery
  spawn_recovery-Safe id attempt_id run same =
      quiet_then _ _ (Stable-Vacant id) (λ s v. v.0) (search launch_rules)
        (λ state.
          quiet_then _ _ (Stable-Vacant id) (λ s v. v.0) (search launch_rules)
            (λ row.
              quiet_then _ _ (Stable-Vacant id) (λ s v. v.0) (search launch_rules)
                (λ a.
                  Safe-if (wants_running state.desired_state && is_started a.outcome) _ _
                    (Safe-bind (λ _. Owned) _ _
                      (subst
                        (λ k.
                          Safe (Vacant k) (spawn_snapshot u run none (some attempt_id)) (λ _. Owned)
                            Owned)
                        same (spawn_snapshot-Safe u run none (some attempt_id)))
                      (λ _. Safe-pure true (λ s o. o)))
                    (Safe-weaken _ (λ s v. v.0) (λ a s o. o) (λ s o. o)
                      (Safe-quiet _ Stable-Owned (λ s o. o) (search launch_rules depth 24))))))

  launch_recovery-Safe :
      (id attempt_id : ℕ) (run : Run)
      → run.account_id ≡ id
      → Safe (Vacant id) (launch_recovery u id attempt_id run) (λ _. Owned) Owned
  unfolding launch_recovery
  launch_recovery-Safe id attempt_id run same =
      quiet_then _ _ (Stable-Vacant id) (λ s v. v.0) (search launch_rules)
        (λ _. transaction-Safe u _ (λ s f l w v. v) (spawn_recovery-Safe id attempt_id run same))

  provisional_child-IsQuiet :
      (id : ℕ) (e : SupervisorError) (run : Option Run) → IsQuiet (provisional_child u id e run)
  unfolding provisional_child
  provisional_child-IsQuiet id e none = search launch_rules
  provisional_child-IsQuiet id e (some run) = search launch_rules depth 24

  recovery_failed-IsGuarded :
      (id incident attempt_id : ℕ) (run : Option Run) (e : SupervisorError)
      → IsGuarded (recovery_failed u id incident attempt_id run e)
  unfolding recovery_failed
  recovery_failed-IsGuarded id incident attempt_id run e =
      search (provisional_child-IsQuiet, guarded_rules, launch_rules) depth 40

  recovery_launched-IsGuarded :
      (id incident attempt_id : ℕ) (run : Option Run) (r : Result SupervisorError Bool)
      → IsGuarded (recovery_launched u id incident attempt_id run r)
  unfolding recovery_launched
  recovery_launched-IsGuarded id incident attempt_id run (ok b) =
      search (guarded_rules, launch_rules)
  recovery_launched-IsGuarded id incident attempt_id run (err e) =
      recovery_failed-IsGuarded id incident attempt_id run e

  recovery_snapshot-Safe :
      (id incident attempt_id : ℕ) (r : Result SupervisorError Run)
      → Safe
          (AtEnd (λ run s. Vacant id s × (run.account_id ≡ id)) (Vacant id) r)
          (recovery_snapshot u id incident attempt_id r)
          (λ _. Owned)
          Owned
  unfolding recovery_snapshot
  recovery_snapshot-Safe id incident attempt_id (ok run) = Safe-fact _ (λ same.
      Safe-bind (λ _. Owned) _ _
        (Safe-weaken _ (λ s v. v) (λ r s o. at_any_end Owned r s o) (λ s o. o)
          (Safe-attempt _ (launch_recovery-Safe id attempt_id run same)))
        (λ r. (recovery_launched-IsGuarded id incident attempt_id (some run) r).guards))
  recovery_snapshot-Safe id incident attempt_id (err e) =
      Safe-weaken _ (λ s v. v.0) (λ a s o. o) (λ s o. o)
        (recovery_failed-IsGuarded id incident attempt_id none e).guards

  recover_incident-Safe :
      (id incident at : ℕ) → Safe (Vacant id) (recover_incident u id incident at) (λ _. Owned) Owned
  unfolding recover_incident
  recover_incident-Safe id incident at =
      quiet_then _ _ (Stable-Vacant id) (λ s v. v.0) (search launch_rules)
        (λ due.
          Safe-on_option due _ _
            (Safe-weaken _ (λ s v. v.0) (λ a s o. o) (λ s o. o)
              (Safe-quiet _ Stable-Owned (λ s o. o) (search launch_rules)))
            (λ a.
              quiet_then _ _ (Stable-Vacant id) (λ s v. v.0) (search launch_rules)
                (λ claim.
                  Safe-if (claimed u claim) _ _
                    (Safe-bind (AtEnd (λ run s. Vacant id s × (run.account_id ≡ id)) (Vacant id)) _
                      _ (Safe-attempt _ (snapshot-Safe u id false (Stable-Vacant id)))
                      (recovery_snapshot-Safe id incident a.attempt_id))
                    (Safe-pure false (λ s v. v.0)))))

  begun-IsGuarded :
      (id : ℕ)
      → IsGuarded (do begun ← attempt (start_account u id false none); pure (is_ok u begun))
  begun-IsGuarded id = search (guarded_rules, launch_rules)

  recover_account-IsGuarded : (at id : ℕ) → IsGuarded (recover_account u at id)
  unfolding recover_account
  recover_account-IsGuarded at id = record {
    guards =
        Safe-bind (λ o s. Owned s × Held id o s) _ _ (managed_of-Held u id)
          (λ owned. on_Vacant id owned _ _ (search (guarded_rules, launch_rules)) (
            quiet_then _ _ (Stable-Vacant id) (λ s v. v.0) (search launch_rules)
              (λ left.
                quiet_then _ _ (Stable-Vacant id) (λ s v. v.0) (search launch_rules)
                  (λ incident. Safe-if (not (left == 0)) _ _ (Safe-pure false (λ s v. v.0)) (
                    Safe-on_option incident _ _
                      (Safe-weaken _ (λ s v. v.0) (λ a s o. o) (λ s o. o)
                        (begun-IsGuarded id).guards)
                      (λ i. recover_incident-Safe id i.incident_id at))))));
  }

  recover_accounts-IsGuarded : (at : ℕ) (ids : List ℕ) → IsGuarded (recover_accounts u at ids)
  unfolding recover_accounts
  recover_accounts-IsGuarded at [] = search (guarded_rules, launch_rules)
  recover_accounts-IsGuarded at (id ∷ ids) =
      IsGuarded-bind _ _ (recover_account-IsGuarded at id)
        (λ _. IsGuarded-bind _ _ (recover_accounts-IsGuarded at ids) (λ _. IsGuarded-pure _))

  pub perform_due_recoveries-IsGuarded : IsGuarded (perform_due_recoveries u)
  unfolding perform_due_recoveries
  perform_due_recoveries-IsGuarded =
      search (recover_accounts-IsGuarded, guarded_rules, launch_rules)
