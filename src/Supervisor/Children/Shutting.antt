-- ===== src/Supervisor/Children/Shutting.antt =====
-- shutdown of controller/miner_supervisor.py returns where no child lives.
pub mod Clearing
unfoldable pub use Clearing.*
use twitch_car_factory.Base.{
  ℕ, Bool, true, false, Option, none, some, List, [], ◌∷◌, ◌++◌, nat_eq, ◌≡◌, refl, ◌∙◌, ap,
  is_empty, is_some, Member, All, All-member, inl, inr, ◌⊎◌, if◌then◌else◌, arith,
}
use twitch_car_factory.Base.Dict.{Dict, lookup, keys, NodupKeys}
use twitch_car_factory.Base.Result.{Result, ok, err}
use twitch_car_factory.Base.Exec.{pure, raise, modify, on_option, ◌>>=◌}
use twitch_car_factory.Base.Safe.{
  Safe, AtEnd, Safe-bind, Safe-weaken, Safe-attempt, Safe-pure, Safe-raise, Safe-gets, Safe-if,
}
use twitch_car_factory.Supervisor.State.{Act, ManagedProcess, Setup, SupervisorError, Worker}
use twitch_car_factory.Supervisor.Exit.{without}
use twitch_car_factory.Supervisor.Lifetime.{
  cleanup_released, errors_of, shutdown_failure, has_nothing_to_shut, shut_child, shut_children,
  shut_down, shutdown,
}
use twitch_car_factory.Supervisor.Children.{
  Below, Owned, Dead, Free, Holds, Stable, Stable-Owned, Stable-both, Stable-Free, Stable-Holds,
  Stable-Dead, IsQuiet, slot, process_of,
}
use twitch_car_factory.Supervisor.Children.Duties.{duty_rules}
use twitch_car_factory.Supervisor.Children.Quiet.{get_account-IsQuiet}
use twitch_car_factory.Supervisor.Children.Guard.{
  Free-Dead, Guard, Guard-Free, Guard-Owned, Guard-also, slot-without,
}
use twitch_car_factory.Supervisor.Children.Stopping.{
  Held, Safe-quiet, drop_managed-Safe, managed_of-Held, quiet_then, stop_account-Safe,
  terminate-Safe,
}

module _ {W : Type 0} where
  -- self.processes holds children of these accounts only.
  abbrev Elsewhere : List ℕ → Worker W → Type 0
  Elsewhere ids s = (k : ℕ) → ¬ Member k ids → slot k s.processes ≡ none

  Elsewhere-without :
      (ids : List ℕ) (m : ManagedProcess) (s : Worker W)
      → NodupKeys s.processes
      → Elsewhere ids s
      → Elsewhere ids (record s { processes = without m s.processes })
  Elsewhere-without ids m s n e k absent = elim (slot-without m s.processes n k) [
    | inl same ↦ same ∙ e k absent
    | inr (gone, was) ↦ gone
  ]

  Guard-Elsewhere : (ids : List ℕ) → Guard (λ s. Owned s × Elsewhere ids s)
  Guard-Elsewhere ids =
      Guard-also Guard-Owned (λ s t e b k absent. b.slots k ∙ e k absent) (Elsewhere-without ids)

  -- No child lives.
  abbrev pub Alone : Worker W → Type 0
  Alone s = (h : ℕ) → ¬ Member h s.live

  Alone-AllFree :
      (ids : List ℕ) (s : Worker W) → Owned s → Elsewhere ids s → AllFree ids s → Alone s
  Alone-AllFree ids s o e a h l =
      let (k, holds) = o.owner h l in
      elim (member_or_not k ids) [
        | inl m ↦ All-member (λ id. Free id s) k ids a m h l holds
        | inr absent ↦ ground (arith, e k absent, holds)
      ]
    where
      member_or_not : (k : ℕ) (ids : List ℕ) → Member k ids ⊎ (¬ Member k ids)
      member_or_not k [] = inr (λ x. x)
      member_or_not k (j ∷ js) = ground (arith, nat_eq.agrees j k, member_or_not k js)

slot-empty : (k : ℕ) (d : Dict ℕ ManagedProcess) → is_empty d ≡ true → slot k d ≡ none
unfolding lookup
slot-empty k [] e = refl
slot-empty k (x ∷ d) e = ground (arith, e)

-- There is a failure where there is an error.
shutdown_failure-some :
    (e : SupervisorError) (es : List SupervisorError) → is_some (shutdown_failure (e ∷ es)) ≡ true
unfolding shutdown_failure
shutdown_failure-some e es = ground arith

module _ {W : Type 0} (ids : List ℕ) where
  -- What holds when the children have been dealt with.
  abbrev Over : List SupervisorError → Worker W → Type 0
  Over es s = (Owned s × Elsewhere ids s) × Cleared ids es s

  Stable-Over : (es : List SupervisorError) → Stable (Over es)
  Stable-Over es =
      Stable-both (Guard-Elsewhere ids).stable (λ s t c b e. Stable-AllFree ids s t (c e) b)

  raise_failure :
      (es : List SupervisorError) (o : Option SupervisorError) (m : Act W (Unit {0}))
      → is_some o ≡ true
      → Safe (Over es) (on_option o m raise) (λ _ s. Owned s × Alone s) Owned
  unfolding on_option
  raise_failure es none m h = ground (arith, h)
  raise_failure es (some e) m h = Safe-raise e (λ s p. p.0.0)

  end-Safe :
      (m : Act W (Unit {0}))
      → IsQuiet m
      → (es : List SupervisorError) (r : Result SupervisorError (Unit {0}))
      → Safe
          (Over es)
          (on_option (shutdown_failure (es ++ errors_of r)) m raise)
          (λ _ s. Owned s × Alone s)
          Owned
  unfolding shutdown_failure on_option
  end-Safe m q [] (ok _) =
      Safe-weaken m (λ s p. p) (λ a s p. (p.0.0, Alone-AllFree ids s p.0.0 p.0.1 (p.1 refl)))
        (λ s o. o) (Safe-quiet m (Stable-Over []) (λ s p. p.0.0) q)
  end-Safe m q [] (err e) = Safe-raise e (λ s p. p.0.0)
  end-Safe m q (e ∷ es) r = raise_failure (e ∷ es) _ m (shutdown_failure-some e (es ++ errors_of r))

module _ {W : Type 0} (u : Setup W) where
  frame-IsQuiet :
      (f : Worker W → Worker W)
      → ((s t : Worker W) → Below s t → Below s (f t))
      → IsQuiet (modify f)
  unfolding modify
  frame-IsQuiet f h = record { quiet = λ s. record { keep = h s } }

  shut_down-Safe : Safe Owned (shut_down u) (λ _ s. Owned s × Alone s) Owned
  unfolding shut_down
  shut_down-Safe =
      quiet_then _ _ Stable-Owned (λ s o. o) (frame-IsQuiet _ (λ s t b. b))
        (λ _.
          quiet_then _ _ Stable-Owned (λ s o. o) (search duty_rules)
            (λ owns.
              Safe-bind (λ ids s. Owned s × Elsewhere ids s) _ _
                (Safe-gets _ (λ s o. (o, λ k n. ap process_of (lookup-absent k s.processes n))))
                (λ ids.
                  Safe-bind (Over ids) _ _
                    (Safe-weaken _ (λ s p. p) (λ a s p. p) (λ s p. p.0)
                      (shut_children-Safe u owns ids (Guard-Elsewhere ids)))
                    (λ es.
                      quiet_then _ _ (Stable-Over ids es) (λ s p. p.0.0) (search duty_rules)
                        (λ released.
                          quiet_then _ _ (Stable-Over ids es) (λ s p. p.0.0)
                            (frame-IsQuiet _ (λ s t b. b))
                            (λ _. end-Safe ids _ (frame-IsQuiet _ (λ s t b. b)) es released))))))

  idle-Alone : (s : Worker W) → Owned s → has_nothing_to_shut u s ≡ true → Alone s
  idle-Alone s o e h l =
      let (k, holds) = o.owner h l in
      let empty : is_empty s.processes ≡ true = ground (arith, e) in
      ground (arith, holds, slot-empty k s.processes empty)

  -- shutdown returns where no child lives.
  pub shutdown-Safe : Safe Owned (shutdown u) (λ _ s. Owned s × Alone s) Owned
  unfolding shutdown
  shutdown-Safe =
      Safe-bind (λ idle s. Owned s × (has_nothing_to_shut u s ≡ idle)) _ _
        (Safe-gets _ (λ s o. (o, refl))) shut_unless
    where
      shut_unless :
          (idle : Bool)
          → Safe
              (λ s. Owned s × (has_nothing_to_shut u s ≡ idle))
              (if idle then pure tt else shut_down u)
              (λ _ s. Owned s × Alone s)
              Owned
      shut_unless true = Safe-pure tt (λ s p. (p.0, idle-Alone s p.0 p.1))
      shut_unless false = Safe-weaken _ (λ s p. p.0) (λ a s p. p) (λ s o. o) shut_down-Safe
