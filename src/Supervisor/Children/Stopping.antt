-- ===== src/Supervisor/Children/Stopping.antt =====
-- The children that controller/miner_supervisor.py stops, records as ended or cleans up.
pub mod Steps
unfoldable pub use Steps.*
use twitch_car_factory.Base.{ℕ, Bool, true, false, Option, none, some, nat_eq, ◌≡◌, refl, arith}
use twitch_car_factory.Base.Result.{Result, ok, err}
use twitch_car_factory.Base.Exec.{pure, modify, on_option, ◌>>=◌, Keeps}
use twitch_car_factory.Base.Safe.{
  Safe, AtEnd, Safe-bind, Safe-weaken, Safe-Keeps, Safe-attempt, Safe-pure, Safe-raise,
  Safe-ensured, Safe-if, Safe-gets,
}
use twitch_car_factory.Json.{ℤ}
use twitch_car_factory.Control.Model.{StopReason, ObservedState}
use twitch_car_factory.Supervisor.State.{
  Act, ManagedProcess, Setup, SupervisorError, Worker, managed_of,
}
use twitch_car_factory.Supervisor.Process.{poll, terminate_owned_process}
use twitch_car_factory.Supervisor.Exit.{after_exit, drop_managed, handle_unexpected_exit}
use twitch_car_factory.Supervisor.Stop.{
  rescue, rescued, settle_dead, settle_polled, stop_account, stop_owned, stop_unowned,
}
use twitch_car_factory.Supervisor.Children.{
  slot, process_of, IsQuiet, Keeps-quiet, Stable, Stable-both, Stable-Dead, Stable-Holds,
  Stable-Free, Holds, Free, Dead,
}
use twitch_car_factory.Supervisor.Children.Recoveries.{
  recovery_rules, stop_unowned-IsQuiet, cancel_attached_start-IsQuiet, degrade-IsQuiet,
  fail_restart_attempt-IsQuiet,
}
use twitch_car_factory.Supervisor.Children.Quiet.{
  update_managed-IsQuiet, get_or_create_state-IsQuiet, update_state-IsQuiet,
}
use twitch_car_factory.Supervisor.Children.Processes.{
  poll-IsQuiet, terminate_owned_process-IsQuiet, close_run-IsQuiet,
}
use twitch_car_factory.Supervisor.Children.Guard.{
  Guard, Guard-Free, Free-Dead, Reaped, poll-Reaped, terminate_owned_process-Dead,
}

module _ {W : Type 0} where
  -- The child of an account, after settle_dead.
  abbrev Settled : ℕ → Option ManagedProcess → Worker W → Type 0
  Settled id none s = Free id s
  Settled id (some m) s = Holds id m.process s

  Stable-Settled : (id : ℕ) (o : Option ManagedProcess) → Stable (Settled id o)
  Stable-Settled id none = Stable-Free id
  Stable-Settled id (some m) = Stable-Holds id m.process

  -- What self.processes holds for the account.
  abbrev pub Held : ℕ → Option ManagedProcess → Worker W → Type 0
  Held id o s = slot id s.processes ≡ process_of o

module _ {W : Type 0} (u : Setup W) {P : Worker W → Type 0} where
  pub managed_of-Held : (id : ℕ) → Safe P (managed_of u id) (λ o s. P s × Held id o s) P
  unfolding managed_of
  managed_of-Held id = Safe-gets _ (λ s p. (p, refl))

module _ {W : Type 0} (u : Setup W) {P : Worker W → Type 0} (g : Guard P) (id : ℕ) where
  held : (m : ManagedProcess) → Stable (λ s. P s × Holds id m.process s)
  held m = Stable-both g.stable (Stable-Holds id m.process)

  free : Guard (λ s. P s × Free id s)
  free = Guard-Free id g

  Stable-Free-Dead : (m : ManagedProcess) → Stable (λ s. (P s × Free id s) × Dead m.process s)
  Stable-Free-Dead m = Stable-both free.stable (Stable-Dead m.process)

  settle_ended-Safe :
      (m : ManagedProcess) (code : Option ℤ)
      → Safe
          (λ s. (P s × Holds id m.process s) × Dead m.process s)
          (handle_unexpected_exit u m code false true)
          (λ _ s. P s × Free id s)
          P
  settle_ended-Safe m code =
      Safe-weaken _ (λ s p. ((p.0.0, Free-Dead id m.process s p.0.1 p.1), p.1)) (λ a s q. q)
        (λ s q. q.0) (handle_unexpected_exit-Safe u free m code false true)

  settle_polled-Safe :
      (m : ManagedProcess) (code : Option ℤ)
      → Safe
          (λ s. (P s × Holds id m.process s) × Reaped m.process code s)
          (settle_polled u m code)
          (λ r s. P s × Settled id r s)
          P
  unfolding settle_polled
  settle_polled-Safe m none = Safe-pure (some m) (λ s p. p.0)
  settle_polled-Safe m (some c) =
      Safe-if _ _ _
        (Safe-bind (λ _ s. P s × Free id s) _ _ (settle_ended-Safe m (some c))
          (λ finalized.
            Safe-if finalized _ _ (Safe-pure none (λ s p. p)) (Safe-raise _ (λ s p. p.0))))
        (Safe-pure (some m) (λ s p. p.0))

  settle_dead-Safe :
      (m : ManagedProcess)
      → Safe (λ s. P s × Holds id m.process s) (settle_dead u m) (λ r s. P s × Settled id r s) P
  unfolding settle_dead
  settle_dead-Safe m =
      Safe-bind (λ code s. (P s × Holds id m.process s) × Reaped m.process code s) _ _
        (Safe-weaken _ (λ s p. p) (λ a s q. q) (λ s p. p.0) (poll-Safe u m.process (held m)))
        (settle_polled-Safe m)

  stop_owned-Safe :
      (reason : StopReason) (except : Option ℕ) (m : ManagedProcess)
      → Safe
          (λ s. P s × Holds id m.process s)
          (stop_owned u id reason except m)
          (λ _ s. P s × Free id s)
          P
  unfolding stop_owned
  stop_owned-Safe reason except m =
      quiet_then _ _ (held m) (λ s p. p.0) (cancel_attached_start-IsQuiet u m except)
        (λ _.
          Safe-bind (λ _ s. (P s × Free id s) × Dead m.process s) _ _
            (rescue-Safe u _ _
              (Safe-weaken _ (λ s p. p)
                (λ a s q. ((q.0.0, Free-Dead id m.process s q.0.1 q.1), q.1)) (λ s p. p.0)
                (terminate-Safe u m.process (held m)))
              (λ e. Keeps-quiet g.stable _ (degrade-IsQuiet u id _ e)))
            (λ x.
              quiet_then _ _ (Stable-Free-Dead m) (λ s p. p.0.0) (update_managed-IsQuiet u m _)
                (λ _.
                  quiet_then _ _ (Stable-Free-Dead m) (λ s p. p.0.0)
                    (fail_restart_attempt-IsQuiet u _ _)
                    (λ _.
                      Safe-bind (λ _ s. (P s × Free id s) × Dead m.process s) _ _
                        (rescue-Safe u _ _
                          (Safe-quiet _ (Stable-Free-Dead m) (λ s p. p.0.0)
                            (close_run-IsQuiet u _ _ _ _))
                          (λ e. Keeps-quiet g.stable _ (degrade-IsQuiet u id _ e)))
                        (λ _.
                          Safe-weaken _ (λ s p. p) (λ a s q. q) (λ s p. p.0)
                            (drop_managed-Safe u free m))))))

  stop_after-Safe :
      (reason : StopReason) (except : Option ℕ) (o : Option ManagedProcess)
      → Safe
          (λ s. P s × Settled id o s)
          (on_option o (stop_unowned u id reason) (stop_owned u id reason except))
          (λ _ s. P s × Free id s)
          P
  unfolding on_option
  stop_after-Safe reason except none =
      Safe-quiet _ free.stable (λ s p. p.0) (stop_unowned-IsQuiet u id reason)
  stop_after-Safe reason except (some m) = stop_owned-Safe reason except m

  settle_owned-Safe :
      (o : Option ManagedProcess)
      → Safe
          (λ s. P s × Held id o s)
          (on_option o (pure none) (settle_dead u))
          (λ r s. P s × Settled id r s)
          P
  unfolding on_option
  settle_owned-Safe none = Safe-pure none (λ s p. (p.0, λ h l e. ground (arith, p.1, e)))
  settle_owned-Safe (some m) = settle_dead-Safe m

  -- stop_account returns where the account has no child any more.
  pub stop_account-Safe :
      (reason : StopReason) (preserve : Bool) (final : Option ObservedState) (except : Option ℕ)
      → Safe P (stop_account u id reason preserve final except) (λ _ s. P s × Free id s) P
  unfolding stop_account
  stop_account-Safe reason preserve final except =
      quiet_then _ _ g.stable (λ s p. p) (get_or_create_state-IsQuiet u id)
        (λ _.
          Safe-bind (λ o s. P s × Held id o s) _ _ (managed_of-Held u id)
            (λ owned.
              Safe-bind (λ r s. P s × Settled id r s) _ _ (settle_owned-Safe owned)
                (λ m.
                  quiet_then _ _ (Stable-both g.stable (Stable-Settled id m)) (λ s p. p.0)
                    (update_state-IsQuiet u id _)
                    (λ _.
                      Safe-bind (λ _ s. P s × Free id s) _ _ (stop_after-Safe reason except m)
                        (λ _.
                          Safe-quiet _ free.stable (λ s p. p.0)
                            (search recovery_rules depth 16))))))
