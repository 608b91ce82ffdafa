-- ===== src/Supervisor/Children/Cleaning.antt =====
-- _reconcile_required_cleanup of controller/miner_supervisor.py, and the children whose rows could not
-- be written.
use twitch_car_factory.Base.{Bool}
use twitch_car_factory.Base.Result.{Result, ok, err}
use twitch_car_factory.Base.Safe.{
  Safe, AtEnd, Safe-bind, Safe-weaken, Safe-attempt, Safe-pure, Safe-if, Safe-on_option,
}
use twitch_car_factory.Json.{ℤ}
use twitch_car_factory.Control.Text.{Text}
use twitch_car_factory.Control.Model.{Run}
use twitch_car_factory.Supervisor.State.{ManagedProcess, Setup, SupervisorError, Worker}
use twitch_car_factory.Supervisor.Stop.{
  cleanup_closed, cleanup_recorded, cleanup_terminated, reconcile_required_cleanup,
}
use twitch_car_factory.Supervisor.Spawn.{abandon, abandon_closed, abandon_terminated, disown}
use twitch_car_factory.Supervisor.Children.{Stable, Stable-both, Stable-Dead, Dead}
use twitch_car_factory.Supervisor.Children.Recoveries.{recovery_rules}
use twitch_car_factory.Supervisor.Children.Quiet.{managed_of-IsQuiet, update_managed-IsQuiet}
use twitch_car_factory.Supervisor.Children.Guard.{Guard}
use twitch_car_factory.Supervisor.Children.Stopping.{
  Safe-quiet, drop_managed-Safe, quiet_then, terminate-Safe,
}

module _ {W : Type 0} (u : Setup W) {P : Worker W → Type 0} (g : Guard P) where
  gone : (m : ManagedProcess) → Stable (λ s. P s × Dead m.process s)
  gone m = Stable-both g.stable (Stable-Dead m.process)

  cleanup_closed-Safe :
      (m : ManagedProcess) → Safe (λ s. P s × Dead m.process s) (cleanup_closed u m) (λ _. P) P
  unfolding cleanup_closed
  cleanup_closed-Safe m =
      Safe-bind (λ _. P) _ _ (drop_managed-Safe u g m)
        (λ _. Safe-quiet _ g.stable (λ s p. p) (search recovery_rules depth 24))

  cleanup_recorded-Safe :
      (m : ManagedProcess) (r : Result SupervisorError (Unit {0}))
      → Safe (λ s. P s × Dead m.process s) (cleanup_recorded u m r) (λ _. P) P
  unfolding cleanup_recorded
  cleanup_recorded-Safe m (ok _) = cleanup_closed-Safe m
  cleanup_recorded-Safe m (err e) =
      Safe-weaken _ (λ s p. p) (λ a s p. p.0) (λ s p. p)
        (Safe-quiet _ (gone m) (λ s p. p.0) (search recovery_rules))

  cleanup_terminated-Safe :
      (m : ManagedProcess) (r : Result SupervisorError (ℤ × Bool))
      → Safe (AtEnd (λ _ s. P s × Dead m.process s) P r) (cleanup_terminated u m r) (λ _. P) P
  unfolding cleanup_terminated
  cleanup_terminated-Safe m (ok (code, forced)) =
      quiet_then _ _ (gone m) (λ s p. p.0) (search recovery_rules) (cleanup_recorded-Safe m)
  cleanup_terminated-Safe m (err e) = Safe-quiet _ g.stable (λ s p. p) (search recovery_rules)

  -- _reconcile_required_cleanup
  pub reconcile_required_cleanup-Safe :
      (m : ManagedProcess) → Safe P (reconcile_required_cleanup u m) (λ _. P) P
  unfolding reconcile_required_cleanup
  reconcile_required_cleanup-Safe m =
      quiet_then _ _ g.stable (λ s p. p) (search recovery_rules)
        (λ _.
          quiet_then _ _ g.stable (λ s p. p) (search recovery_rules)
            (λ _.
              Safe-bind (AtEnd (λ _ s. P s × Dead m.process s) P) _ _
                (Safe-attempt _ (terminate-Safe u m.process g.stable)) (cleanup_terminated-Safe m)))

  abandon_closed-Safe :
      (m : ManagedProcess) (error : Text) (r : Result SupervisorError (Unit {0}))
      → Safe (λ s. P s × Dead m.process s) (abandon_closed u m error r) (λ _. P) P
  unfolding abandon_closed
  abandon_closed-Safe m error (ok _) = drop_managed-Safe u g m
  abandon_closed-Safe m error (err e) =
      Safe-weaken _ (λ s p. p) (λ a s p. p.0) (λ s p. p)
        (Safe-quiet _ (gone m) (λ s p. p.0) (search recovery_rules))

  abandon_terminated-Safe :
      (m : ManagedProcess) (error : Text) (r : Result SupervisorError (ℤ × Bool))
      → Safe (AtEnd (λ _ s. P s × Dead m.process s) P r) (abandon_terminated u m error r) (λ _. P) P
  unfolding abandon_terminated
  abandon_terminated-Safe m error (ok (code, forced)) =
      quiet_then _ _ (gone m) (λ s p. p.0) (search recovery_rules) (abandon_closed-Safe m error)
  abandon_terminated-Safe m error (err e) = Safe-quiet _ g.stable (λ s p. p) (search recovery_rules)

  pub abandon-Safe : (m : ManagedProcess) (e : SupervisorError) → Safe P (abandon u m e) (λ _. P) P
  unfolding abandon
  abandon-Safe m e =
      Safe-bind (AtEnd (λ _ s. P s × Dead m.process s) P) _ _
        (Safe-attempt _ (terminate-Safe u m.process g.stable)) (abandon_terminated-Safe m _)

  pub disown-Safe :
      (run : Run) (label : Text) (e : SupervisorError) → Safe P (disown u run label e) (λ _. P) P
  unfolding disown
  disown-Safe run label e =
      quiet_then _ _ g.stable (λ s p. p) (managed_of-IsQuiet u run.account_id)
        (λ owned. Safe-on_option owned _ _ (Safe-pure tt (λ s p. p)) (λ m.
          Safe-if _ _ _
            (quiet_then _ _ g.stable (λ s p. p) (update_managed-IsQuiet u m _)
              (λ _. reconcile_required_cleanup-Safe _))
            (Safe-pure tt (λ s p. p))))
