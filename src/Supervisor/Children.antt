-- ===== src/Supervisor/Children.antt =====
-- The children of a supervisor: which entry of self.processes holds which process, which children
-- live, and the steps of controller/miner_supervisor.py that leave that alone.
mod Quiet
mod Processes
pub mod Recoveries
mod Launches
mod Duties
pub mod Guard
mod Stopping
mod Cleaning
mod Spawning
mod Starting
mod Guarded
mod Rounding
mod Recovering
pub mod Living
pub mod Shutting
use twitch_car_factory.Base.{
  ℕ, Bool, true, false, not, Option, none, some, List, [], ◌∷◌, ◌==◌, nat_eq, ◌≡◌, ◌≢◌, refl, sym,
  ◌∙◌, ap, Member, Member-filter_by, filter_by, if◌then◌else◌,
}
use twitch_car_factory.Base.Dict.{
  Dict, lookup, insert, lookup-insert, NodupKeys, insert-NodupKeys, lookup-erase,
}
use twitch_car_factory.Base.Result.{Result, ok, err}
use twitch_car_factory.Base.Exec.{
  Exec, pure, raise, gets, attempt, on_option, ◌>>=◌, Keeps, Keeps-pure, Keeps-raise, Keeps-gets,
  Keeps-attempt, Keeps-if, Keeps-bind, Keeps-on_option,
}
use twitch_car_factory.Control.Text.{Text}
use twitch_car_factory.Base.Safe.{Safe, AtEnd}
use twitch_car_factory.Supervisor.State.{
  Setup, Act, Worker, ManagedProcess, SupervisorError, Farm, sense, transaction, committed,
}

-- The process that the entry of an account holds.
abbrev pub process_of : Option ManagedProcess → Option ℕ
process_of none = none
process_of (some m) = some m.process

abbrev pub slot : ℕ → Dict ℕ ManagedProcess → Option ℕ
slot id d = process_of (lookup id d)

-- The entries hold what they held, and no child has come to live.
pub record Calmer (d : Dict ℕ ManagedProcess) (l : List ℕ) (d' : Dict ℕ ManagedProcess)
    (l' : List ℕ) : Type 0 where
  pub slots : (id : ℕ) → slot id d' ≡ slot id d
  pub fewer : (h : ℕ) → Member h l' → Member h l
  pub nodup : NodupKeys d → NodupKeys d'

-- Each child that lives is held by the entry of an account.
pub record IsOwned (d : Dict ℕ ManagedProcess) (l : List ℕ) : Type 0 where
  pub owner : (h : ℕ) → Member h l → (id : ℕ) × (slot id d ≡ some h)
  pub nodup : NodupKeys d

module _ {W : Type 0} where
  abbrev pub Below : Worker W → Worker W → Type 0
  Below s t = Calmer s.processes s.live t.processes t.live

  abbrev pub Owned : Worker W → Type 0
  Owned s = IsOwned s.processes s.live

  abbrev pub Dead : ℕ → Worker W → Type 0
  Dead h s = ¬ Member h s.live

  -- No child that lives is held for an account.
  abbrev pub Free : ℕ → Worker W → Type 0
  Free id s = (h : ℕ) → Member h s.live → slot id s.processes ≢ some h

  abbrev pub Holds : ℕ → ℕ → Worker W → Type 0
  Holds id h s = slot id s.processes ≡ some h

  abbrev pub Stable : (Worker W → Type 0) → Type 0
  Stable P = (s t : Worker W) → P s → Below s t → P t

  -- What is said of no more than the children.
  abbrev pub Detached : (Worker W → Type 0) → Type 0
  Detached P =
      (s : Worker W) (f : Farm) (l : Bool) (w : W)
      → P s
      → P (record s { farm = f; locked = l; world = w })

  pub Below-refl : (s : Worker W) → Below s s
  Below-refl s = record { slots = λ id. refl; fewer = λ h m. m; nodup = λ n. n }

  pub Stable-Owned : Stable Owned
  Stable-Owned s t o b = record {
    owner = λ h m. let (id, e) = o.owner h (b.fewer h m) in (id, b.slots id ∙ e);
    nodup = b.nodup o.nodup;
  }

  pub Stable-Dead : (h : ℕ) → Stable (Dead h)
  Stable-Dead h s t d b = λ m. d (b.fewer h m)

  pub Stable-Free : (id : ℕ) → Stable (Free id)
  Stable-Free id s t f b = λ h m e. f h (b.fewer h m) (sym (b.slots id) ∙ e)

  pub Stable-Holds : (id h : ℕ) → Stable (Holds id h)
  Stable-Holds id h s t e b = b.slots id ∙ e

  pub Stable-both : {P Q : Worker W → Type 0} → Stable P → Stable Q → Stable (λ s. P s × Q s)
  Stable-both p q s t h b = (p s t h.0 b, q s t h.1 b)

module _ {W A : Type 0} where
  -- What is said of no more than the children outlives a transaction, committed or not.
  settled :
      (P : Worker W → Type 0)
      → Detached P
      → (r : Result SupervisorError A) (fault : Option Text) (s t : Worker W) → P t
      → P (committed r fault s t).1
  settled P detached (ok a) none s t p = detached t _ _ _ p
  settled P detached (ok a) (some e) s t p = detached t _ _ _ p
  settled P detached (err e) fault s t p = detached t _ _ _ p

  pub Keeps-transaction :
      (P : Worker W → Type 0)
      → Detached P
      → (m : Act W A) (u : Setup W) → Keeps P m
      → Keeps P (transaction u m)
  unfolding transaction
  Keeps-transaction P detached m u k = record {
    keep = λ s p.
        let start = record s { locked = true } in
        let (r, t) = m start in
        let (fault, w) = u.host.database_fault t.world in
        settled P detached r fault s (record t { world = w })
          (detached t _ _ _ (k.keep start (detached s _ _ _ p)));
  }

-- `m` leaves the entries of the children alone, whether it returns or raises.
pub record IsQuiet {W A : Type 0} (m : Act W A) : Type 0 where
  pub quiet : (s : Worker W) → Keeps (Below s) m

module _ {W A : Type 0} where
  pub IsQuiet-pure : (a : A) → IsQuiet {W = W} (pure a)
  IsQuiet-pure a = record { quiet = λ s. Keeps-pure a }

  pub IsQuiet-raise : (e : SupervisorError) → IsQuiet {W = W} {A = A} (raise e)
  IsQuiet-raise e = record { quiet = λ s. Keeps-raise e }

  pub IsQuiet-gets : (f : Worker W → A) → IsQuiet (gets f)
  IsQuiet-gets f = record { quiet = λ s. Keeps-gets f }

  pub IsQuiet-attempt : (m : Act W A) → IsQuiet m → IsQuiet (attempt m)
  IsQuiet-attempt m q = record { quiet = λ s. Keeps-attempt m (q.quiet s) }

  pub IsQuiet-if : (b : Bool) (m n : Act W A) → IsQuiet m → IsQuiet n → IsQuiet (if b then m else n)
  IsQuiet-if b m n q r = record { quiet = λ s. Keeps-if b m n (q.quiet s) (r.quiet s) }

  pub IsQuiet-sense : (call : W → A × W) → IsQuiet (sense call)
  unfolding sense
  IsQuiet-sense call = record { quiet = λ s. record { keep = λ t b. b } }

  pub IsQuiet-transaction : (u : Setup W) (m : Act W A) → IsQuiet m → IsQuiet (transaction u m)
  IsQuiet-transaction u m q = record {
    quiet = λ s. Keeps-transaction (Below s) (λ t f l w b. b) m u (q.quiet s);
  }

module _ {W A B : Type 0} where
  pub IsQuiet-bind :
      (m : Act W A) (f : A → Act W B) → IsQuiet m → ((a : A) → IsQuiet (f a)) → IsQuiet (m >>= f)
  IsQuiet-bind m f q r = record { quiet = λ s. Keeps-bind m f (q.quiet s) (λ a. (r a).quiet s) }

  pub IsQuiet-on_option :
      (o : Option A) (m : Act W B) (k : A → Act W B)
      → IsQuiet m
      → ((a : A) → IsQuiet (k a))
      → IsQuiet (on_option o m k)
  IsQuiet-on_option o m k q r = record {
    quiet = λ s. Keeps-on_option o m k (q.quiet s) (λ a. (r a).quiet s);
  }

module _ {W A : Type 0} {P : Worker W → Type 0} (stable : Stable P) where
  -- Quiet steps keep what is stable.
  pub Keeps-quiet : (m : Act W A) → IsQuiet m → Keeps P m
  Keeps-quiet m q = record { keep = λ s p. stable s _ p ((q.quiet s).keep s (Below-refl s)) }

pub ruleset quiet_rules = (
  IsQuiet-pure, IsQuiet-raise, IsQuiet-gets, IsQuiet-attempt, IsQuiet-if, IsQuiet-sense,
  IsQuiet-transaction, IsQuiet-bind, IsQuiet-on_option,
)
