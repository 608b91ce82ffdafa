-- ===== src/Supervisor/Children/Shutting/Clearing.antt =====
-- What the shutdown of controller/miner_supervisor.py does with one child.
use twitch_car_factory.Base.{
  ℕ, Bool, true, Option, none, some, List, [], ◌∷◌, ◌++◌, nat_eq, ◌≡◌, refl, Member, All, inr,
  arith,
}
use twitch_car_factory.Base.Dict.{Dict, lookup, keys}
use twitch_car_factory.Base.Result.{Result, ok, err}
use twitch_car_factory.Base.Exec.{pure, on_option, ◌>>=◌}
use twitch_car_factory.Base.Safe.{
  Safe, AtEnd, Safe-bind, Safe-weaken, Safe-attempt, Safe-pure, Safe-if,
}
use twitch_car_factory.Supervisor.State.{Act, ManagedProcess, Setup, SupervisorError, Worker}
use twitch_car_factory.Supervisor.Lifetime.{cleanup_released, errors_of, shut_child, shut_children}
use twitch_car_factory.Supervisor.Children.{
  Dead, Free, Holds, Stable, Stable-both, Stable-Free, Stable-Holds, Stable-Dead,
}
use twitch_car_factory.Supervisor.Children.Duties.{duty_rules}
use twitch_car_factory.Supervisor.Children.Quiet.{get_account-IsQuiet}
use twitch_car_factory.Supervisor.Children.Guard.{Free-Dead, Guard, Guard-Free}
use twitch_car_factory.Supervisor.Children.Stopping.{
  Held, drop_managed-Safe, managed_of-Held, quiet_then, stop_account-Safe, terminate-Safe,
}

module _ {W : Type 0} (u : Setup W) {P : Worker W → Type 0} (g : Guard P) where
  pub cleanup_released-Safe :
      (id : ℕ) (m : ManagedProcess)
      → Safe (λ s. P s × Holds id m.process s) (cleanup_released u m) (λ _ s. P s × Free id s) P
  unfolding cleanup_released
  cleanup_released-Safe id m =
      Safe-bind (λ _ s. (P s × Free id s) × Dead m.process s) _ _
        (Safe-weaken _ (λ s p. p) (λ a s q. ((q.0.0, Free-Dead id m.process s q.0.1 q.1), q.1))
          (λ s p. p.0)
          (terminate-Safe u m.process (Stable-both g.stable (Stable-Holds id m.process))))
        (λ x.
          quiet_then _ _ (left id m) (λ s p. p.0.0) (search duty_rules)
            (λ _.
              quiet_then _ _ (left id m) (λ s p. p.0.0) (search duty_rules)
                (λ _.
                  quiet_then _ _ (left id m) (λ s p. p.0.0) (search duty_rules)
                    (λ _.
                      quiet_then _ _ (left id m) (λ s p. p.0.0) (search duty_rules)
                        (λ at.
                          quiet_then _ _ (left id m) (λ s p. p.0.0) (search duty_rules)
                            (λ _.
                              Safe-weaken _ (λ s p. p) (λ a s q. q) (λ s p. p.0)
                                (drop_managed-Safe u (Guard-Free id g) m)))))))
    where
      left : (id : ℕ) (m : ManagedProcess) → Stable (λ s. (P s × Free id s) × Dead m.process s)
      left id m = Stable-both (Stable-both g.stable (Stable-Free id)) (Stable-Dead m.process)

  pub release_child-Safe :
      (id : ℕ) (o : Option ManagedProcess)
      → Safe
          (λ s. P s × Held id o s)
          (on_option o (pure tt) (cleanup_released u))
          (λ _ s. P s × Free id s)
          P
  unfolding on_option
  release_child-Safe id none = Safe-pure tt (λ s p. (p.0, λ h l e. ground (arith, p.1, e)))
  release_child-Safe id (some m) = cleanup_released-Safe id m

  pub shut_child-Safe :
      (owns : Bool) (id : ℕ) → Safe P (shut_child u owns id) (λ _ s. P s × Free id s) P
  unfolding shut_child
  shut_child-Safe owns id =
      Safe-if owns _ _
        (quiet_then _ _ g.stable (λ s p. p) (get_account-IsQuiet u id)
          (λ _.
            Safe-bind (λ _ s. P s × Free id s) _ _ (stop_account-Safe u g id _ true _ none)
              (λ _. Safe-pure tt (λ s q. q))))
        (Safe-bind (λ o s. P s × Held id o s) _ _ (managed_of-Held u id) (release_child-Safe id))

module _ {W : Type 0} where
  abbrev pub AllFree : List ℕ → Worker W → Type 0
  AllFree ids s = All (λ id. Free id s) ids

  pub Stable-AllFree : (ids : List ℕ) → Stable (AllFree ids)
  Stable-AllFree [] s t a b = tt
  Stable-AllFree (id ∷ ids) s t a b = (Stable-Free id s t a.0 b, Stable-AllFree ids s t a.1 b)

  -- Where no error was met, no child of these accounts lives.
  abbrev pub Cleared : List ℕ → List SupervisorError → Worker W → Type 0
  Cleared ids es s = es ≡ [] → AllFree ids s

module _ {W : Type 0} {P : Worker W → Type 0} (id : ℕ) (ids : List ℕ)
    (rest : Act W (List SupervisorError)) where
  pub shut_rest-Safe :
      (r : Result SupervisorError (Unit {0}))
      → Safe
          (λ s. P s × Free id s)
          rest
          (λ es s. (P s × Free id s) × Cleared ids es s)
          (λ s. P s × Free id s)
      → Safe P rest (λ es s. P s × Cleared ids es s) P
      → Safe
          (AtEnd (λ _ s. P s × Free id s) P r)
          (rest >>= λ errors. pure (errors_of r ++ errors))
          (λ es s. P s × Cleared (id ∷ ids) es s)
          P
  shut_rest-Safe (ok _) h k =
      Safe-bind (λ es s. (P s × Free id s) × Cleared ids es s) _ _
        (Safe-weaken _ (λ s p. p) (λ a s q. q) (λ s p. p.0) h)
        (λ es. Safe-pure es (λ s q. (q.0.0, λ e. (q.0.1, q.1 e))))
  shut_rest-Safe (err x) h k =
      Safe-bind (λ es s. P s × Cleared ids es s) _ _ k
        (λ es. Safe-pure (x ∷ es) (λ s q. (q.0, λ e. ground (arith, e))))

module _ {W : Type 0} (u : Setup W) (owns : Bool) where
  pub shut_children-Safe :
      (ids : List ℕ) {P : Worker W → Type 0}
      → Guard P
      → Safe P (shut_children u owns ids) (λ es s. P s × Cleared ids es s) P
  unfolding shut_children
  shut_children-Safe [] g = Safe-pure [] (λ s p. (p, λ _. tt))
  shut_children-Safe (id ∷ ids) g =
      Safe-bind _ _ _ (Safe-attempt _ (shut_child-Safe u g owns id)) (λ r.
        shut_rest-Safe id ids _ r (shut_children-Safe ids (Guard-Free id g))
          (shut_children-Safe ids g))

pub lookup-absent : (k : ℕ) (d : Dict ℕ ManagedProcess) → ¬ Member k (keys d) → lookup k d ≡ none
unfolding lookup
lookup-absent k [] n = refl
lookup-absent k ((j, m) ∷ d) n =
    ground (arith, nat_eq.agrees j k, n, lookup-absent k d (λ x. n (inr x)))
