-- ===== src/Supervisor/Pending.antt =====
-- _flush_pending_run_finalizations of controller/miner_supervisor.py: where the database works, no
-- finalization stays pending.
use twitch_car_factory.Base.{
  ℕ, true, Option, none, [], ◌∷◌, ◌≡◌, refl, sym, ◌∙◌, nat_eq, length, filter_by, arith,
}
use mathlib.Core.Path.{subst, ap}
use twitch_car_factory.Base.Dict.{Dict, erase}
use twitch_car_factory.Base.Result.{Result, ok, err}
use twitch_car_factory.Base.Exec.{raise, modify, on_option}
use twitch_car_factory.Base.Safe.{
  Safe, AtEnd, Safe-bind, Safe-weaken, Safe-attempt, Safe-pure, Safe-gets, Safe-fact,
}
use twitch_car_factory.Json.{ℤ}
use twitch_car_factory.Control.Text.{Text}
use twitch_car_factory.Control.Model.{StopReason}
use twitch_car_factory.Supervisor.State.{
  Setup, Worker, Pending, SupervisorError, database_error, Farm, sense, let_others, write, now,
}
use twitch_car_factory.Supervisor.Process.{
  close_run, keep_pending, finalize_or_remember, flush_each, flush_pending_run_finalizations,
  concerns, forget,
}

-- The database takes each write.
pub record IsFaultless {W : Type 0} (u : Setup W) : Type 0 where
  pub faultless : (w : W) → (u.host.database_fault w).0 ≡ none

module _ {W : Type 0} where
  -- The finalizations that are pending.
  abbrev Waits : Dict ℕ Pending → Worker W → Type 0
  Waits d s = s.pending_run_finalizations ≡ d

  abbrev Never : Worker W → Type 0
  Never s = ⊥

-- The finalizations that are left after those of some runs are done.
abbrev erase_all : Dict ℕ Pending → Dict ℕ Pending → Dict ℕ Pending
erase_all [] d = d
erase_all ((k, _) ∷ ks) d = erase_all ks (erase k d)

erase-head : (k : ℕ) (e : Pending) (d : Dict ℕ Pending) → d ≡ erase k ((k, e) ∷ d)
unfolding erase
erase-head k e d = ground (arith, nat_eq.agrees k k)

erase_all_self : (d : Dict ℕ Pending) → erase_all d d ≡ []
erase_all_self [] = refl
erase_all_self ((k, e) ∷ d) = subst (λ x. erase_all d x ≡ []) (erase-head k e d) (erase_all_self d)

module _ {W : Type 0} (u : Setup W) (clean : IsFaultless u) (d : Dict ℕ Pending) where
  let_others-Waits : Safe (Waits d) (let_others u) (λ _. Waits d) Never
  unfolding let_others
  let_others-Waits = record { run = λ s p. ground (arith, p) }

  fault-Waits :
      Safe (Waits d) (sense u.host.database_fault) (λ fault s. Waits d s × (none ≡ fault)) Never
  unfolding sense
  fault-Waits = record { run = λ s p. (p, sym (clean.faultless s.world)) }

  farm-Waits :
      (f : Farm → Farm)
      → Safe {E = SupervisorError} {S = Worker W}
          (Waits d)
          (modify (λ s. record s { farm = f s.farm }))
          (λ _. Waits d)
          Never
  unfolding modify
  farm-Waits f = record { run = λ s p. p }

  write-Waits : (f : Farm → Farm) → Safe (Waits d) (write u f) (λ _. Waits d) Never
  unfolding write on_option
  write-Waits f =
      Safe-bind (λ _. Waits d) _ _ let_others-Waits
        (λ _.
          Safe-bind (λ fault s. Waits d s × (none ≡ fault)) _ _ fault-Waits
            (λ fault. Safe-fact _ (λ e.
              subst
                (λ o.
                  Safe (Waits {W = W} d)
                    (on_option o (modify (λ s. record s { farm = f s.farm }))
                      (λ x. raise (database_error x)))
                    (λ _. Waits {W = W} d) Never)
                e (farm-Waits f))))

  now-Waits : Safe (Waits d) (now u) (λ _. Waits d) Never
  unfolding sense
  now-Waits = record { run = λ s p. p }

  close_run-Waits :
      (run_id : ℕ) (code : Option ℤ) (reason : StopReason) (error : Text)
      → Safe (Waits d) (close_run u run_id code reason error) (λ _. Waits d) Never
  unfolding close_run
  close_run-Waits run_id code reason error =
      Safe-bind (λ _. Waits d) _ _ now-Waits (λ at. write-Waits _)

  forget-Waits : (run_id : ℕ) → Safe (Waits d) (forget u run_id) (λ _. Waits (erase run_id d)) Never
  unfolding modify
  forget-Waits run_id = record { run = λ s p. ap (erase run_id) p }

  keep_pending-Waits :
      (run_id : ℕ) (entry : Pending) (r : Result SupervisorError (Unit {0}))
      → Safe
          (AtEnd (λ _. Waits d) Never r)
          (keep_pending u run_id entry r)
          (λ _. Waits (erase run_id d))
          Never
  unfolding keep_pending
  keep_pending-Waits run_id entry (ok _) =
      Safe-bind (λ _. Waits (erase run_id d)) _ _ (forget-Waits run_id)
        (λ _. Safe-pure true (λ s p. p))
  keep_pending-Waits run_id entry (err e) = record { run = λ s n. elim n [ ] }

  finalize-Waits :
      (run_id account : ℕ) (code : Option ℤ) (reason : StopReason) (error : Text)
      → Safe
          (Waits d)
          (finalize_or_remember u run_id account code reason error)
          (λ _. Waits (erase run_id d))
          Never
  unfolding finalize_or_remember
  finalize-Waits run_id account code reason error =
      Safe-bind (AtEnd (λ _. Waits d) Never) _ _
        (Safe-attempt _ (close_run-Waits run_id code reason _)) (keep_pending-Waits run_id _)

module _ {W : Type 0} (u : Setup W) (clean : IsFaultless u) where
  flush_each-Waits :
      (entries d : Dict ℕ Pending)
      → Safe (Waits d) (flush_each u none entries) (λ _. Waits (erase_all entries d)) Never
  unfolding flush_each concerns
  flush_each-Waits [] d = Safe-pure tt (λ s p. p)
  flush_each-Waits ((run_id, entry) ∷ rest) d =
      Safe-bind (λ _. Waits (erase run_id d)) _ _
        (Safe-bind (λ _. Waits (erase run_id d)) _ _ (finalize-Waits u clean d run_id _ _ _ _)
          (λ _. Safe-pure tt (λ s p. p)))
        (λ _. flush_each-Waits rest (erase run_id d))

  flush-Waits :
      (d : Dict ℕ Pending)
      → Safe (Waits d) (flush_pending_run_finalizations u none) (λ n s. Waits [] s × (n ≡ 0)) Never
  unfolding flush_pending_run_finalizations
  flush-Waits d =
      Safe-bind (λ entries s. Waits entries s) _ _ (Safe-gets _ (λ s p. refl))
        (λ entries.
          Safe-bind (λ _. Waits []) _ _
            (Safe-weaken _ (λ s p. p) (λ a s p. p ∙ erase_all_self entries) (λ s n. n)
              (flush_each-Waits entries entries))
            (λ _.
              Safe-gets _
                (λ s p. (p, ap (λ q. length (filter_by (λ e. concerns u none e.1) q)) p))))

  -- Where the database takes each write, the flush returns, it reports that no finalization is left, and
  -- none is.
  pub flush-done :
      (s : Worker W)
      → ((flush_pending_run_finalizations u none s).0 ≡ ok 0)
        × ((flush_pending_run_finalizations u none s).1.pending_run_finalizations ≡ [])
  flush-done s = flushed _ _ ((flush-Waits s.pending_run_finalizations).run s refl)
    where
      flushed :
          (r : Result SupervisorError ℕ) (t : Worker W)
          → AtEnd (λ n x. Waits [] x × (n ≡ 0)) Never r t
          → (r ≡ ok 0) × (t.pending_run_finalizations ≡ [])
      flushed (ok n) t h = (ap ok h.1, h.0)
      flushed (err e) t h = elim h [ ]
