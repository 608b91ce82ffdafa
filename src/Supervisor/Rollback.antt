-- ===== src/Supervisor/Rollback.antt =====
-- The transactions of controller/miner_supervisor.py that fail: an exit that could not be recorded, and
-- a lease that another worker holds.
use mathlib.Core.Path.{subst}
use twitch_car_factory.Base.{
  sym, not, ◌∙◌, if◌then◌else◌, inl, inr, ◌⊎◌, ℕ, Bool, true, false, Option, none, some, ◌≡◌, refl,
  nat_eq, arith,
}
use twitch_car_factory.Base.Result.{Result, ok, err}
use twitch_car_factory.Base.Exec.{
  pure, raise, attempt, ◌>>=◌, modify, Keeps, Keeps-bind, Keeps-on_option, Keeps-modify,
  Keeps-raise,
}
use twitch_car_factory.Base.Safe.{
  Safe, Safe-bind, Safe-Keeps, Safe-fact, Safe-gets, Safe-raise, AtEnd,
}
use twitch_car_factory.Json.{ℤ}
use twitch_car_factory.Control.Text.{Text}
use twitch_car_factory.Supervisor.State.{
  Setup, Farm, Worker, WorkerLease, Act, ManagedProcess, SupervisorError, transaction, committed,
  read, let_others, sense, write, lease_lost, database_error,
}
use twitch_car_factory.Supervisor.Exit.{
  handle_unexpected_exit, record_exit, after_exit, drop_managed,
}
use twitch_car_factory.Supervisor.Execute.{heartbeat, beat_now, owns_lease, renew_lease}
use twitch_car_factory.Supervisor.Children.{slot, Below-refl, IsQuiet-transaction}
use twitch_car_factory.Supervisor.Children.Recoveries.{record_exit-IsQuiet}

module _ {W A : Type 0} where
  committed-undone :
      (r : Result SupervisorError A) (fault : Option Text) (s t : Worker W) (e : SupervisorError)
      → (committed r fault s t).0 ≡ err e
      → (committed r fault s t).1.farm ≡ s.farm
  committed-undone (ok a) none s t e h = ground (arith, h)
  committed-undone (ok a) (some x) s t e h = refl
  committed-undone (err x) fault s t e h = refl

  -- A transaction that raises leaves the database as it was.
  transaction-undone :
      (u : Setup W) (m : Act W A) (s : Worker W) (e : SupervisorError)
      → (transaction u m s).0 ≡ err e
      → (transaction u m s).1.farm ≡ s.farm
  unfolding transaction
  transaction-undone u m s e h =
      let (r, t) = m (record s { locked = true }) in
      let (fault, w) = u.host.database_fault t.world in
      committed-undone r fault s (record t { world = w }) e h

module _ {W : Type 0} (u : Setup W) where
  -- The same database, and the same process in each account's entry.
  abbrev pub Undone : Worker W → Worker W → Type 0
  Undone s t = (t.farm ≡ s.farm) × ((id : ℕ) → slot id t.processes ≡ slot id s.processes)

  after_exit-Undone :
      (m : ManagedProcess) (s t : Worker W) (r : Result SupervisorError (Unit {0}))
      → ((e : SupervisorError) → r ≡ err e → t.farm ≡ s.farm)
      → ((id : ℕ) → slot id t.processes ≡ slot id s.processes)
      → ((after_exit u m r t).0 ≡ ok true)
        ⊎ (((after_exit u m r t).0 ≡ ok false) × Undone s (after_exit u m r t).1)
  unfolding after_exit drop_managed modify ◌>>=◌ pure
  after_exit-Undone m s t (ok _) f g = inl refl
  after_exit-Undone m s t (err e) f g = inr (refl, (f e refl, g))

  -- _handle_unexpected_exit never raises. It returns true, or it returns false and the database is as it
  -- was before, and each account's entry holds the process that it held, so that the exit is met again.
  pub handle_unexpected_exit-Undone :
      (m : ManagedProcess) (code : Option ℤ) (recovers records : Bool) (s : Worker W)
      → ((handle_unexpected_exit u m code recovers records s).0 ≡ ok true)
        ⊎ (((handle_unexpected_exit u m code recovers records s).0 ≡ ok false)
            × Undone s (handle_unexpected_exit u m code recovers records s).1)
  unfolding handle_unexpected_exit attempt ◌>>=◌
  handle_unexpected_exit-Undone m code recovers records s =
      let block = record_exit u m code recovers records in
      let (r, t) = transaction u block s in
      let quiet = IsQuiet-transaction u block (record_exit-IsQuiet u m code recovers records) in
      let calm = (quiet.quiet s).keep s (Below-refl s) in
      after_exit-Undone m s t r (λ e. transaction-undone u block s e) calm.slots

  -- What others do to the database outside of a transaction leaves the worker's lease alone.
  pub let_others-lease : (s : Worker W) → (let_others u s).1.farm.lease ≡ s.farm.lease
  unfolding let_others
  let_others-lease s = ground arith

  renew_lease-other :
      (worker : Text) (at until : ℕ) (l : Option WorkerLease)
      → owns_lease worker l ≡ false
      → renew_lease worker at until l ≡ l
  renew_lease-other worker at until none h = refl
  renew_lease-other worker at until (some l) h = ground (arith, h)

  module _ (lease : Option WorkerLease) (last : Option ℕ) where
    -- The lease and the last heartbeat.
    abbrev Stands : Worker W → Type 0
    Stands s = (s.farm.lease ≡ lease) × (s.last_heartbeat ≡ last)

    Keeps-sense : {A : Type 0} (call : W → A × W) → Keeps Stands (sense call)
    unfolding sense
    Keeps-sense call = record { keep = λ s h. h }

    Keeps-let_others : Keeps Stands (let_others u)
    unfolding let_others
    Keeps-let_others = record { keep = λ s h. ground (arith, h) }

    Keeps-write :
        (f : Farm → Farm)
        → ((farm : Farm) → farm.lease ≡ lease → (f farm).lease ≡ lease)
        → Keeps Stands (write u f)
    unfolding write
    Keeps-write f h = Keeps-bind _ _ Keeps-let_others (λ _.
        Keeps-bind _ _ (Keeps-sense u.host.database_fault) (λ fault.
          Keeps-on_option fault _ _ (Keeps-modify _ (λ s k. (h s.farm k.0, k.1)))
            (λ e. Keeps-raise (database_error e))))

    unless_owned :
        (owned : Bool) (m : Act W (Unit {0}))
        → owned ≡ false
        → Safe Stands (if not owned then raise lease_lost else m) (λ _ _. ⊥) Stands
    unless_owned true m e = absurd (cc)
    unless_owned false m e = Safe-raise lease_lost (λ s k. k)

    Safe-beat_now :
        (clock : ℕ)
        → owns_lease u.worker lease ≡ false
        → Safe Stands (beat_now u clock) (λ _ _. ⊥) Stands
    unfolding beat_now read
    Safe-beat_now clock h = Safe-bind _ _ _ (Safe-Keeps _ (Keeps-sense u.host.now)) (λ at.
        Safe-bind (λ owned s. Stands s × (owned ≡ false)) _ _
          (Safe-bind _ _ _ (Safe-Keeps _ Keeps-let_others)
            (λ _. Safe-gets _ (λ s k. (k, subst (λ l. owns_lease u.worker l ≡ false) (sym k.0) h))))
          (λ owned. Safe-fact _ (λ e.
            Safe-bind _ _ _
              (Safe-Keeps _ (
                Keeps-write _ (λ farm k.
                  renew_lease-other u.worker _ _ farm.lease
                    (subst (λ l. owns_lease u.worker l ≡ false) (sym k) h)
                  ∙ k)))
              (λ _. unless_owned owned _ e))))

    Safe-heartbeat :
        owns_lease u.worker lease ≡ false → Safe Stands (heartbeat u true) (λ _ _. ⊥) Stands
    unfolding heartbeat
    Safe-heartbeat h =
        Safe-bind (λ _. Stands) _ _ (Safe-Keeps _ (Keeps-sense u.host.monotonic))
          (λ clock.
            Safe-bind (λ _. Stands) _ _ (Safe-gets _ (λ t k. k)) (λ last'. Safe-beat_now clock h))

  raised :
      (R : Worker W → Type 0) (r : Result SupervisorError (Unit {0})) (t : Worker W)
      → AtEnd (λ _ _. ⊥) R r t
      → ((e : SupervisorError) × (r ≡ err e)) × R t
  raised R (ok _) t h = absurd h
  raised R (err e) t h = ((e, refl), h)

  -- A forced heartbeat of a worker that does not own the lease raises, and leaves the lease and the time of
  -- the last heartbeat as they are.
  pub heartbeat-lost :
      (s : Worker W)
      → owns_lease u.worker s.farm.lease ≡ false
      → ((e : SupervisorError) × ((heartbeat u true s).0 ≡ err e))
        × (((heartbeat u true s).1.farm.lease ≡ s.farm.lease)
            × ((heartbeat u true s).1.last_heartbeat ≡ s.last_heartbeat))
  heartbeat-lost s h =
      raised (Stands s.farm.lease s.last_heartbeat) (heartbeat u true s).0 (heartbeat u true s).1
        ((Safe-heartbeat s.farm.lease s.last_heartbeat h).run s (refl, refl))
