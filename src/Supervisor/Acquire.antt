-- ===== src/Supervisor/Acquire.antt =====
-- Who gets the lease in _acquire_database_lease of controller/miner_supervisor.py.
use mathlib.Core.Path.{subst}
use mathlib.Core.Option.{some-injective}
use twitch_car_factory.Base.{
  ℕ, ◌+◌, ◌<◌, true, false, Bool-cases, Option, none, some, ◌≡◌, ◌≢◌, refl, sym, inl, inr, ◌⊎◌, ◌↔◌,
  text_eq, arith, ◌==◌,
}
use twitch_car_factory.Base.Result.{Result, ok, err}
use twitch_car_factory.Base.Exec.{raise, gets, ◌>>=◌}
use twitch_car_factory.Control.Text.{Text}
use twitch_car_factory.Supervisor.State.{
  Setup, Worker, WorkerLease, SupervisorError, already_running, transaction, committed, read,
  let_others, sense, database_error,
}
use twitch_car_factory.Supervisor.Startup.{acquire_database_lease, take_lease, is_held, own_lease}
use twitch_car_factory.Supervisor.Taking.{IsFault, Goes, take_lease-Goes}

already_running-ne : (e : SupervisorError) → IsFault e → e ≢ already_running
already_running-ne e (x, h) k = absurd (cc)

module _ {W : Type 0} (u : Setup W) where
  -- Another worker holds the lease and it has not expired.
  abbrev pub IsTaken : ℕ → Option WorkerLease → Type 0
  IsTaken at lease =
      (l : WorkerLease) × (lease ≡ some l) × (l.owner_id ≢ u.worker) × (at < l.expires_at)

  -- The lease is the worker's own from now on, or nothing was written: another worker holds it, or the
  -- database refused.
  abbrev pub Acquired : ℕ → Worker W → Result SupervisorError (Unit {0}) → Worker W → Type 0
  Acquired at s (ok _) t =
      (l : WorkerLease) × (t.farm.lease ≡ some l)
      × (l.owner_id ≡ u.worker)
      × (l.expires_at ≡ at + u.options.worker_lease)
  Acquired at s (err e) t =
      (t.farm ≡ s.farm) × ((e ≡ already_running) ⊎ ((x : Text) × (e ≡ database_error x)))

  other_holds :
      (l : WorkerLease) (at : ℕ)
      → l.owner_id ≢ u.worker
      → at < l.expires_at
      → is_held u.worker at (some l) ≡ true
  unfolding is_held
  other_holds l at n lt = elim (Bool-cases (l.owner_id == u.worker)) [
    | inl q ↦ absurd (n ((text_eq.agrees l.owner_id u.worker).0 q))
    | inr q ↦ ground (arith, q, lt)
  ]

  is_held_iff :
      (at : ℕ) (lease : Option WorkerLease) → (is_held u.worker at lease ≡ true) ↔ IsTaken at lease
  unfolding is_held
  is_held_iff at none = (λ h. absurd (cc), λ (l, e, n, lt). absurd (cc))
  is_held_iff at (some l) = (
    λ h. (
      l,
      refl,
      λ e. absurd (ground (arith, h, (text_eq.agrees l.owner_id u.worker).1 e)),
      ground (arith, h),
    ),
    λ (k, e, n, lt).
        let same : l ≡ k = some-injective l k e in
        subst (λ (x : WorkerLease). is_held u.worker at (some x) ≡ true) (sym same)
          (other_holds k at n lt),
  )

  taken_held :
      (at : ℕ) (lease : Option WorkerLease)
      → IsTaken at lease
      → is_held u.worker at lease ≡ false
      → ⊥
  taken_held at lease k h =
      let t : is_held u.worker at lease ≡ true = (is_held_iff at lease).1 k in cc

  -- The outcome where nobody else holds the lease.
  abbrev Free : ℕ → Worker W → Result SupervisorError (Unit {0}) → Worker W → Type 0
  Free at s (ok _) t = t.farm.lease ≡ some (own_lease u at)
  Free at s (err e) t = (t.farm ≡ s.farm) × IsFault e

  committed-Free :
      (at : ℕ) (s t : Worker W) (w : W) (r : Result SupervisorError (Unit {0}))
      (fault : Option Text)
      → Goes (own_lease u at) r t
      → (let out = committed r fault s (record t { world = w }) in Free at s out.0 out.1)
  committed-Free at s t w (ok _) none h = h
  committed-Free at s t w (ok _) (some x) h = (refl, (x, refl))
  committed-Free at s t w (err e) fault h = (refl, h)

  acquire_database_lease-Free :
      (s : Worker W)
      → is_held u.worker (u.host.now s.world).0 s.farm.lease ≡ false
      → Free (u.host.now s.world).0 s (acquire_database_lease u s).0 (acquire_database_lease u s).1
  unfolding acquire_database_lease transaction sense ◌>>=◌
  acquire_database_lease-Free s h =
      let (at, w) = u.host.now s.world in
      let inside = record s { world = w; locked = true } in
      let (fault, v) = u.host.database_fault (take_lease u at inside).1.world in
      committed-Free at (record s { world = w }) (take_lease u at inside).1 v
        (take_lease u at inside).0 fault (take_lease-Goes u at inside refl h)

  acquire_database_lease-refused :
      (s : Worker W)
      → is_held u.worker (u.host.now s.world).0 s.farm.lease ≡ true
      → ((acquire_database_lease u s).0 ≡ err already_running)
        × ((acquire_database_lease u s).1.farm ≡ s.farm)
  unfolding acquire_database_lease transaction take_lease read let_others sense ◌>>=◌ gets raise
  acquire_database_lease-refused s h = ground (arith, h)

  Free-Acquired :
      (at : ℕ) (s t : Worker W) (r : Result SupervisorError (Unit {0}))
      → Free at s r t
      → ((r ≡ err already_running) → ⊥) × Acquired at s r t
  Free-Acquired at s t (ok _) h = (λ e. absurd (cc), (own_lease u at, h, refl, refl))
  Free-Acquired at s t (err e) (same, fault) =
      (λ k. already_running-ne e fault (cc), (same, inr fault))

  refused-Acquired :
      (at : ℕ) (s t : Worker W) (r : Result SupervisorError (Unit {0}))
      → r ≡ err already_running
      → t.farm ≡ s.farm
      → Acquired at s r t
  refused-Acquired at s t (ok _) h same = absurd (cc)
  refused-Acquired at s t (err e) h same = (same, inl (cc))

  -- _acquire_database_lease refuses the worker exactly where another worker's lease is stored and has not
  -- expired by the clock that it reads. Where it returns, the stored lease is the worker's own and ends
  -- after the time of a lease; where it raises, the database stays as it is, and the error is the refusal
  -- or one of the database.
  pub acquire_database_lease-exclusive :
      (s : Worker W)
      → (((acquire_database_lease u s).0 ≡ err already_running)
          ↔ IsTaken (u.host.now s.world).0 s.farm.lease)
        × Acquired
            (u.host.now s.world).0
            s
            (acquire_database_lease u s).0
            (acquire_database_lease u s).1
  acquire_database_lease-exclusive s =
      let at = (u.host.now s.world).0 in
      let (r, t) = acquire_database_lease u s in
      elim (Bool-cases (is_held u.worker at s.farm.lease)) [
        | inl h ↦
            let (e, same) = acquire_database_lease-refused s h in
            ((λ _. (is_held_iff at s.farm.lease).0 h, λ _. e), refused-Acquired at s t r e same)
        | inr h ↦
            let (free, acquired) = Free-Acquired at s t r (acquire_database_lease-Free s h) in
            ((λ e. absurd (free e), λ k. absurd (taken_held at s.farm.lease k h)), acquired)
      ]
