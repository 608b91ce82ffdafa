-- ===== src/Supervisor/Taking.antt =====
-- What the transaction of _acquire_database_lease in controller/miner_supervisor.py stores.
use mathlib.Core.Path.{subst}
use twitch_car_factory.Base.{
  ℕ, Bool, true, false, Option, none, some, ◌≡◌, refl, sym, ◌∙◌, text_eq, arith, if_both,
  if◌then◌else◌,
}
use twitch_car_factory.Base.Result.{Result, ok, err}
use twitch_car_factory.Base.Exec.{
  pure, raise, gets, modify, on_option, continue, ◌>>=◌, ◌>>◌, >>=-ok,
}
use twitch_car_factory.Control.Text.{Text}
use twitch_car_factory.Supervisor.State.{
  Setup, Farm, Worker, WorkerLease, Act, SupervisorError, already_running, read, let_others, sense,
  write, database_error,
}
use twitch_car_factory.Supervisor.Recovery.{add_incident}
use twitch_car_factory.Supervisor.Rollback.{let_others-lease}
use twitch_car_factory.Supervisor.Startup.{take_lease, record_stale, is_held, is_stale, own_lease}

-- The error of a write or a commit that the database refuses.
abbrev pub IsFault : SupervisorError → Type 0
IsFault e = (x : Text) × (e ≡ database_error x)

module _ {W : Type 0} where
  -- A step returns where that lease is stored, or the database refuses a write of its.
  abbrev pub Goes : WorkerLease → Result SupervisorError (Unit {0}) → Worker W → Type 0
  Goes l (ok _) t = t.farm.lease ≡ some l
  Goes l (err e) t = IsFault e

  Goes-continue :
      (l : WorkerLease) (r : Result SupervisorError (Unit {0})) (s : Worker W)
      (n : Act W (Unit {0}))
      → Goes l r s
      → ((t : Worker W) → t.farm.lease ≡ some l → Goes l (n t).0 (n t).1)
      → Goes l (continue r (λ _. n) s).0 (continue r (λ _. n) s).1
  Goes-continue l (ok _) s n h k = k s h
  Goes-continue l (err e) s n h k = h

module _ {W : Type 0} (u : Setup W) where
  fault-Goes :
      (l : WorkerLease) (f : Farm → Farm) (fault : Option Text) (s : Worker W)
      → (f s.farm).lease ≡ some l
      → (let out =
            on_option fault
              (modify λ (t : Worker W). record t { farm = f t.farm })
              (λ e. raise (database_error e))
              s in
          Goes l out.0 out.1)
  unfolding on_option modify raise
  fault-Goes l f none s h = h
  fault-Goes l f (some x) s h = (x, refl)

  let_others-ok : (s : Worker W) → let_others u s ≡ (ok tt, (let_others u s).1)
  unfolding let_others
  let_others-ok s =
      if_both (λ (x : Result SupervisorError (Unit {0}) × Worker W). x ≡ (ok tt, x.1)) s.locked _ _
        refl refl

  -- The write after what others may have done before it.
  written-Goes :
      (l : WorkerLease) (f : Farm → Farm) (s t : Worker W)
      → t.farm.lease ≡ s.farm.lease
      → ((farm : Farm) → farm.lease ≡ s.farm.lease → (f farm).lease ≡ some l)
      → (let out =
            (sense u.host.database_fault >>= λ fault.
            on_option fault
              (modify λ (t : Worker W). record t { farm = f t.farm })
              λ e. raise (database_error e))
              t in
          Goes l out.0 out.1)
  unfolding sense ◌>>=◌
  written-Goes l f s t e h =
      let (fault, w) = u.host.database_fault t.world in
      fault-Goes l f fault (record t { world = w }) (h t.farm e)

  write-Goes :
      (l : WorkerLease) (f : Farm → Farm) (s : Worker W)
      → ((farm : Farm) → farm.lease ≡ s.farm.lease → (f farm).lease ≡ some l)
      → Goes l (write u f s).0 (write u f s).1
  unfolding write
  write-Goes l f s h =
      subst (λ (x : Result SupervisorError (Unit {0}) × Worker W). Goes l x.0 x.1)
        (sym (>>=-ok (let_others u) _ s tt (let_others u s).1 (let_others-ok s)))
        (written-Goes l f s (let_others u s).1 (let_others-lease u s) h)

  record_stale-Goes :
      (l : WorkerLease) (at : ℕ) (old : Option WorkerLease) (s : Worker W)
      → s.farm.lease ≡ some l
      → Goes l (record_stale u at old s).0 (record_stale u at old s).1
  unfolding record_stale add_incident ◌>>=◌ modify
  record_stale-Goes l at old s h =
      Goes-continue l _ _ _ (write-Goes l _ s (λ farm e. e ∙ h)) (λ t k. k)

  stale-Goes :
      (l : WorkerLease) (at : ℕ) (old : Option WorkerLease) (s : Worker W)
      → s.farm.lease ≡ some l
      → (b : Bool)
      → (let m = if b then record_stale u at old else pure tt in Goes l (m s).0 (m s).1)
  unfolding pure
  stale-Goes l at old s h true = record_stale-Goes l at old s h
  stale-Goes l at old s h false = h

  -- The transaction where nobody else holds the lease.
  free-Goes :
      (at : ℕ) (old : Option WorkerLease) (s : Worker W)
      → (b : Bool) → b ≡ false
      → (let m = if b then raise already_running else (do
        write u (λ f. record f { lease = some (own_lease u at) })
        if is_stale u.worker at old then record_stale u at old else pure tt) in
          Goes (own_lease u at) (m s).0 (m s).1)
  unfolding ◌>>=◌
  free-Goes at old s true e = absurd (cc)
  free-Goes at old s false e =
      Goes-continue (own_lease u at) _ _ _ (write-Goes (own_lease u at) _ s (λ farm k. refl))
        (λ t k. stale-Goes (own_lease u at) at old t k (is_stale u.worker at old))

  locked-read :
      {A : Type 0} (f : Farm → A) (s : Worker W) → s.locked ≡ true → read u f s ≡ (ok (f s.farm), s)
  unfolding read let_others gets ◌>>=◌
  locked-read f s k = ground (arith, k)

  pub take_lease-Goes :
      (at : ℕ) (s : Worker W)
      → s.locked ≡ true
      → is_held u.worker at s.farm.lease ≡ false
      → Goes (own_lease u at) (take_lease u at s).0 (take_lease u at s).1
  unfolding take_lease
  take_lease-Goes at s k h =
      subst (λ (x : Result SupervisorError (Unit {0}) × Worker W). Goes (own_lease u at) x.0 x.1)
        (sym (>>=-ok (read u (λ f. f.lease)) _ s s.farm.lease s (locked-read (λ f. f.lease) s k)))
        (free-Goes at s.farm.lease s (is_held u.worker at s.farm.lease) h)
