-- ===== src/Supervisor/Children/Stopping/Steps.antt =====
-- The steps of stop_account of controller/miner_supervisor.py that keep each living child held.
use twitch_car_factory.Base.{ℕ, Bool, true, false, Option, nat_eq}
use twitch_car_factory.Base.Result.{Result, ok, err}
use twitch_car_factory.Base.Exec.{modify, ◌>>=◌, Keeps}
use twitch_car_factory.Base.Safe.{
  Safe, AtEnd, Safe-bind, Safe-weaken, Safe-Keeps, Safe-attempt, Safe-pure, Safe-raise,
  Safe-ensured,
}
use twitch_car_factory.Json.{ℤ}
use twitch_car_factory.Supervisor.State.{Act, ManagedProcess, Setup, SupervisorError, Worker}
use twitch_car_factory.Supervisor.Process.{poll, terminate_owned_process}
use twitch_car_factory.Supervisor.Exit.{after_exit, drop_managed, handle_unexpected_exit}
use twitch_car_factory.Supervisor.Stop.{rescue, rescued}
use twitch_car_factory.Supervisor.Children.{
  IsQuiet, Keeps-quiet, Stable, Stable-both, Stable-Dead, Dead,
}
use twitch_car_factory.Supervisor.Children.Recoveries.{recovery_rules}
use twitch_car_factory.Supervisor.Children.Processes.{poll-IsQuiet, terminate_owned_process-IsQuiet}
use twitch_car_factory.Supervisor.Children.Guard.{
  Guard, Reaped, poll-Reaped, terminate_owned_process-Dead,
}

module _ {W A : Type 0} {P R : Worker W → Type 0} where
  -- A quiet block, where what it keeps implies what is wanted of an exception.
  pub Safe-quiet :
      (m : Act W A) → Stable P → ((s : Worker W) → P s → R s) → IsQuiet m → Safe P m (λ _. P) R
  Safe-quiet m st f q = Safe-weaken m (λ s p. p) (λ a s p. p) f (Safe-Keeps m (Keeps-quiet st m q))

module _ {W A B : Type 0} {P R : Worker W → Type 0} {Q : B → Worker W → Type 0} where
  -- A block that begins with a quiet one.
  pub quiet_then :
      (m : Act W A) (f : A → Act W B)
      → Stable P
      → ((s : Worker W) → P s → R s)
      → IsQuiet m
      → ((a : A) → Safe P (f a) Q R)
      → Safe P (m >>= f) Q R
  quiet_then m f st w q k = Safe-bind (λ _. P) m f (Safe-quiet m st w q) k

module _ {W A : Type 0} (u : Setup W) {R : Worker W → Type 0} {Q : A → Worker W → Type 0} where
  pub rescued-Safe :
      (handler : SupervisorError → Act W (Unit {0})) (r : Result SupervisorError A)
      → ((e : SupervisorError) → Keeps R (handler e))
      → Safe (AtEnd Q R r) (rescued u handler r) Q R
  unfolding rescued
  rescued-Safe handler (ok a) k = Safe-pure a (λ s q. q)
  rescued-Safe handler (err e) k =
      Safe-bind (λ _. R) _ _ (Safe-Keeps _ (k e)) (λ _. Safe-raise e (λ s r. r))

module _ {W A : Type 0} (u : Setup W) {P R : Worker W → Type 0} {Q : A → Worker W → Type 0} where
  -- A handler that raises again.
  pub rescue-Safe :
      (m : Act W A) (handler : SupervisorError → Act W (Unit {0}))
      → Safe P m Q R
      → ((e : SupervisorError) → Keeps R (handler e))
      → Safe P (rescue u m handler) Q R
  rescue-Safe m handler h k =
      Safe-bind (AtEnd Q R) _ _ (Safe-attempt m h) (λ r. rescued-Safe u handler r k)

module _ {W : Type 0} (u : Setup W) {X : Worker W → Type 0} where
  pub terminate-Safe :
      (h : ℕ) → Stable X → Safe X (terminate_owned_process u h) (λ _ s. X s × Dead h s) X
  terminate-Safe h st =
      Safe-ensured _ (Keeps-quiet st _ (terminate_owned_process-IsQuiet u h))
        (record { run = λ s _. (terminate_owned_process-Dead u h).run s tt })

  pub poll-Safe : (h : ℕ) → Stable X → Safe X (poll u h) (λ o s. X s × Reaped h o s) X
  poll-Safe h st =
      Safe-ensured _ (Keeps-quiet st _ (poll-IsQuiet u h))
        (record { run = λ s _. (poll-Reaped u h).run s tt })

module _ {W : Type 0} (u : Setup W) {P : Worker W → Type 0} (g : Guard P) where
  pub drop_managed-Safe :
      (m : ManagedProcess) → Safe (λ s. P s × Dead m.process s) (drop_managed u m) (λ _. P) P
  unfolding drop_managed modify
  drop_managed-Safe m = record { run = λ s p. g.dropped m s p.0 p.1 }

  pub Stable-Dead-with : (h : ℕ) → Stable (λ s. P s × Dead h s)
  Stable-Dead-with h = Stable-both g.stable (Stable-Dead h)

  pub after_exit-Safe :
      (m : ManagedProcess) (r : Result SupervisorError (Unit {0}))
      → Safe (λ s. P s × Dead m.process s) (after_exit u m r) (λ _. P) P
  unfolding after_exit
  after_exit-Safe m (ok _) =
      Safe-bind (λ _. P) _ _ (drop_managed-Safe m) (λ _. Safe-pure true (λ s p. p))
  after_exit-Safe m (err _) = Safe-pure false (λ s p. p.0)

  -- _handle_unexpected_exit, for a child that has ended.
  pub handle_unexpected_exit-Safe :
      (m : ManagedProcess) (code : Option ℤ) (recovers records : Bool)
      → Safe
          (λ s. P s × Dead m.process s)
          (handle_unexpected_exit u m code recovers records)
          (λ _. P)
          P
  unfolding handle_unexpected_exit
  handle_unexpected_exit-Safe m code recovers records =
      Safe-bind (λ _ s. P s × Dead m.process s) _ _
        (Safe-quiet _ (Stable-Dead-with m.process) (λ s p. p.0) (search recovery_rules))
        (after_exit-Safe m)
