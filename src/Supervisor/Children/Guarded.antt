-- ===== src/Supervisor/Children/Guarded.antt =====
-- The steps of controller/miner_supervisor.py after which each child that lives is still held by
-- self.processes.
use twitch_car_factory.Base.{ℕ, Bool, Option, none, some, nat_eq, is_some, if◌then◌else◌, arith}
use twitch_car_factory.Base.Result.{Result}
use twitch_car_factory.Base.Exec.{pure, attempt, on_option, ◌>>=◌}
use twitch_car_factory.Base.Safe.{
  Safe, AtEnd, Safe-bind, Safe-weaken, Safe-attempt, Safe-pure, Safe-if, Safe-on_option, at_any_end,
}
use twitch_car_factory.Json.{ℤ}
use twitch_car_factory.Control.Model.{StopReason, ObservedState}
use twitch_car_factory.Supervisor.State.{
  Setup, Act, Worker, ManagedProcess, SupervisorError, transaction,
}
use twitch_car_factory.Supervisor.Stop.{stop_account, reconcile_required_cleanup}
use twitch_car_factory.Supervisor.Start.{start_account, restart_account, authenticate_account}
use twitch_car_factory.Supervisor.Children.{Owned, Dead, IsQuiet, Stable-Owned}
use twitch_car_factory.Supervisor.Children.Guard.{Guard-Owned, Reaped}
use twitch_car_factory.Supervisor.Children.Stopping.{Safe-quiet, stop_account-Safe, Held}
use twitch_car_factory.Supervisor.Children.Cleaning.{reconcile_required_cleanup-Safe}
use twitch_car_factory.Supervisor.Children.Spawning.{Vacant, transaction-Safe}
use twitch_car_factory.Supervisor.Children.Starting.{
  start_account-Safe, restart_account-Safe, authenticate_account-Safe,
}

pub record IsGuarded {W A : Type 0} (m : Act W A) : Type 0 where
  pub guards : Safe Owned m (λ _. Owned) Owned

module _ {W A : Type 0} where
  pub IsGuarded-quiet : (m : Act W A) → IsQuiet m → IsGuarded m
  IsGuarded-quiet m q = record { guards = Safe-quiet m Stable-Owned (λ s o. o) q }

  pub IsGuarded-pure : (a : A) → IsGuarded {W = W} (pure a)
  IsGuarded-pure a = record { guards = Safe-pure a (λ s o. o) }

  pub IsGuarded-if :
      (b : Bool) (m n : Act W A) → IsGuarded m → IsGuarded n → IsGuarded (if b then m else n)
  IsGuarded-if b m n h k = record { guards = Safe-if b m n h.guards k.guards }

  Owned-at_end :
      (r : Result SupervisorError A) (s : Worker W) → AtEnd (λ _. Owned) Owned r s → Owned s
  Owned-at_end r s h = at_any_end Owned r s h

  pub IsGuarded-attempt : (m : Act W A) → IsGuarded m → IsGuarded (attempt m)
  IsGuarded-attempt m h = record {
    guards =
        Safe-weaken (attempt m) (λ s o. o) (λ r s o. Owned-at_end r s o) (λ s o. o)
          (Safe-attempt m h.guards);
  }

  pub IsGuarded-transaction :
      (u : Setup W) (m : Act W A) → IsGuarded m → IsGuarded (transaction u m)
  IsGuarded-transaction u m h = record { guards = transaction-Safe u m (λ s f l w o. o) h.guards }

module _ {W A B : Type 0} where
  pub IsGuarded-bind :
      (m : Act W A) (f : A → Act W B)
      → IsGuarded m
      → ((a : A) → IsGuarded (f a))
      → IsGuarded (m >>= f)
  IsGuarded-bind m f h k = record {
    guards = Safe-bind (λ _. Owned) m f h.guards (λ a. (k a).guards);
  }

  pub IsGuarded-on_option :
      (o : Option A) (m : Act W B) (k : A → Act W B)
      → IsGuarded m
      → ((a : A) → IsGuarded (k a))
      → IsGuarded (on_option o m k)
  IsGuarded-on_option o m k h g = record {
    guards = Safe-on_option o m k h.guards (λ a. (g a).guards);
  }

module _ {W : Type 0} (u : Setup W) where
  pub stop_account-IsGuarded :
      (id : ℕ) (reason : StopReason) (preserve : Bool) (final : Option ObservedState)
      (except : Option ℕ)
      → IsGuarded (stop_account u id reason preserve final except)
  stop_account-IsGuarded id reason preserve final except = record {
    guards =
        Safe-weaken _ (λ s o. o) (λ a s v. v.0) (λ s o. o)
          (stop_account-Safe u Guard-Owned id reason preserve final except);
  }

  pub cleanup-IsGuarded : (m : ManagedProcess) → IsGuarded (reconcile_required_cleanup u m)
  cleanup-IsGuarded m = record { guards = reconcile_required_cleanup-Safe u Guard-Owned m }

  pub start_account-IsGuarded :
      (id : ℕ) (reset : Bool) (command : Option ℕ) → IsGuarded (start_account u id reset command)
  start_account-IsGuarded id reset command = record {
    guards = start_account-Safe u id reset command;
  }

  pub restart_account-IsGuarded :
      (id : ℕ) (reason : StopReason) (reset : Bool) (command : Option ℕ)
      → IsGuarded (restart_account u id reason reset command)
  restart_account-IsGuarded id reason reset command = record {
    guards = restart_account-Safe u id reason reset command;
  }

  pub authenticate_account-IsGuarded :
      (id command : ℕ) → IsGuarded (authenticate_account u id command)
  authenticate_account-IsGuarded id command = record {
    guards = authenticate_account-Safe u id command;
  }

module _ {W B : Type 0} where
  -- What follows a poll may rely on the end that it reports.
  pub on_Reaped :
      (h : ℕ) (code : Option ℤ) (m : Act W B) (k : ℤ → Act W B)
      → IsGuarded m
      → ((c : ℤ) → Safe (λ s. Owned s × Dead h s) (k c) (λ _. Owned) Owned)
      → Safe (λ s. Owned s × Reaped h code s) (on_option code m k) (λ _. Owned) Owned
  unfolding on_option
  on_Reaped h none m k g f = Safe-weaken m (λ s p. p.0) (λ a s o. o) (λ s o. o) g.guards
  on_Reaped h (some c) m k g f = f c

  -- An account of which self.processes holds no child.
  pub on_Vacant :
      (id : ℕ) (o : Option ManagedProcess) (m n : Act W B)
      → IsGuarded m
      → Safe (Vacant id) n (λ _. Owned) Owned
      → Safe (λ s. Owned s × Held id o s) (if is_some o then m else n) (λ _. Owned) Owned
  on_Vacant id none m n g f =
      Safe-weaken n (λ s p. (p.0, λ h l e. ground (arith, p.1, e))) (λ a s o. o) (λ s o. o) f
  on_Vacant id (some c) m n g f = Safe-weaken m (λ s p. p.0) (λ a s o. o) (λ s o. o) g.guards

pub ruleset guarded_rules = (
  stop_account-IsGuarded, cleanup-IsGuarded, start_account-IsGuarded, restart_account-IsGuarded,
  authenticate_account-IsGuarded, IsGuarded-pure, IsGuarded-if, IsGuarded-attempt,
  IsGuarded-transaction, IsGuarded-bind, IsGuarded-on_option, IsGuarded-quiet,
)
