-- ===== src/Supervisor/Children/Guard.antt =====
-- A child that has ended may leave self.processes, and what is guarded outlives it:
-- _terminate_owned_process of controller/miner_supervisor.py returns for a child that has ended.
use twitch_car_factory.Base.{
  ℕ, Bool, true, false, not, Option, none, some, ◌==◌, nat_eq, ◌≡◌, sym, ◌∙◌, Member,
  Member-filter_by, Option-cases, inl, inr, ◌⊎◌, arith,
}
use mathlib.Core.Path.{subst}
use twitch_car_factory.Base.Dict.{Dict, lookup, NodupKeys, lookup-erase, erase-NodupKeys}
use twitch_car_factory.Base.Exec.{modify}
use twitch_car_factory.Base.Ensures.{
  Ensures, Ensures-bind, Ensures-any, Ensures-pure, Ensures-raise, Ensures-on_option, Ensures-pre,
}
use twitch_car_factory.Json.{ℤ}
use twitch_car_factory.Supervisor.State.{
  ManagedProcess, Setup, Signalled, Waited, Worker, broken, exited, lookup_error, refused, sent,
  timed_out, unreported,
}
use twitch_car_factory.Supervisor.Process.{
  after_kill, after_last_wait, after_terminate, after_wait, confirm_exit, poll, reap, reap_exited,
  terminate_owned_process, wait,
}
use twitch_car_factory.Supervisor.Exit.{without}
use twitch_car_factory.Supervisor.Children.{
  slot, Owned, Dead, Free, Holds, Stable, Stable-Owned, Stable-Free, Stable-Dead, Stable-both,
}

-- The slots after an entry is dropped.
pub slot-without :
    (m : ManagedProcess) (d : Dict ℕ ManagedProcess)
    → NodupKeys d
    → (id : ℕ)
    → (slot id (without m d) ≡ slot id d)
      ⊎ ((slot id (without m d) ≡ none) × (slot id d ≡ some m.process))
unfolding without
slot-without m d n id = elim (Option-cases (lookup m.account_id d)) [
  | inl e ↦ ground (arith, e)
  | inr (k, e) ↦ ground (
    arith,
    e,
    lookup-erase m.account_id id d n,
    nat_eq.agrees m.account_id id,
    nat_eq.agrees k.process m.process,
  )
]

pub without-NodupKeys :
    (m : ManagedProcess) (d : Dict ℕ ManagedProcess) → NodupKeys d → NodupKeys (without m d)
unfolding without
without-NodupKeys m d n = elim (Option-cases (lookup m.account_id d)) [
  | inl e ↦ ground (arith, e)
  | inr (k, e) ↦ ground (arith, e, erase-NodupKeys m.account_id d n)
]

module _ {W : Type 0} where
  owner_without :
      (m : ManagedProcess) (s : Worker W)
      → Owned s
      → Dead m.process s
      → (h : ℕ) → Member h s.live
      → (id : ℕ) × (slot id (without m s.processes) ≡ some h)
  owner_without m s o dead h l =
      let (id, e) = o.owner h l in
      elim (slot-without m s.processes o.nodup id) [
        | inl same ↦ (id, same ∙ e)
        | inr (gone, was) ↦
            let same : h ≡ m.process = ground (arith, e, was) in
            elim (dead (subst (λ k. Member k s.live) same l)) [ ]
      ]

  -- What quiet steps keep, and what is kept when the entry of an ended child is dropped.
  pub record Guard (P : Worker W → Type 0) : Type 0 where
    pub stable : Stable P
    pub owned : (s : Worker W) → P s → Owned s
    pub dropped :
        (m : ManagedProcess) (s : Worker W)
        → P s
        → Dead m.process s
        → P (record s { processes = without m s.processes })

  pub Guard-Owned : Guard Owned
  Guard-Owned = record {
    stable = Stable-Owned;
    owned = λ s o. o;
    dropped = λ m s o dead. record {
      owner = owner_without m s o dead;
      nodup = without-NodupKeys m s.processes o.nodup;
    };
  }

  pub Free-without :
      (id : ℕ) (m : ManagedProcess) (s : Worker W)
      → NodupKeys s.processes
      → Free id s
      → Free id (record s { processes = without m s.processes })
  Free-without id m s n free h l e = elim (slot-without m s.processes n id) [
    | inl same ↦ free h l (sym same ∙ e)
    | inr (gone, was) ↦ ground (arith, gone, e)
  ]

  pub Guard-also :
      {P X : Worker W → Type 0}
      → Guard P
      → Stable X
      → ((m : ManagedProcess) (s : Worker W)
          → NodupKeys s.processes
          → X s
          → X (record s { processes = without m s.processes }))
      → Guard (λ s. P s × X s)
  Guard-also g st d = record {
    stable = Stable-both g.stable st;
    owned = λ s p. g.owned s p.0;
    dropped = λ m s p dead. (g.dropped m s p.0 dead, d m s (g.owned s p.0).nodup p.1);
  }

  pub Guard-Free : {P : Worker W → Type 0} (id : ℕ) → Guard P → Guard (λ s. P s × Free id s)
  Guard-Free id g = Guard-also g (Stable-Free id) (Free-without id)

  -- The child of the entry has ended.
  pub Free-Dead : (id h : ℕ) (s : Worker W) → Holds id h s → Dead h s → Free id s
  Free-Dead id h s e dead k l f =
      let same : k ≡ h = ground (arith, e, f) in dead (subst (λ x. Member x s.live) same l)

  -- A child that a poll has reported.
  abbrev pub Reaped : ℕ → Option ℤ → Worker W → Type 0
  Reaped h none s = Unit
  Reaped h (some c) s = Dead h s

  abbrev Ended : ℕ → Waited → Worker W → Type 0
  Ended h (exited c) s = Dead h s
  Ended h timed_out s = Unit
  Ended h unreported s = Unit
  Ended h (broken e) s = Unit

  pub Stable-Reaped : (h : ℕ) (o : Option ℤ) → Stable (Reaped h o)
  Stable-Reaped h none s t r b = tt
  Stable-Reaped h (some c) s t r b = Stable-Dead h s t r b

  abbrev Any : Worker W → Type 0
  Any s = Unit

module _ {W : Type 0} (u : Setup W) (h : ℕ) where
  reap-Dead : Ensures Any (reap u h) (λ _. Dead h)
  unfolding reap modify
  reap-Dead = record {
    run = λ s _ l.
        let kept = ((Member-filter_by (λ k. not (k == h)) h s.live).0 l).1 in
        ground (arith, kept, nat_eq.agrees h h);
  }

  pub poll-Reaped : Ensures Any (poll u h) (Reaped h)
  unfolding poll
  poll-Reaped =
      Ensures-bind (λ _. Any) _ _ (Ensures-any _)
        (λ code.
          Ensures-on_option code _ _ (Ensures-pure none)
            (λ c e. Ensures-bind (λ _. Dead h) _ _ reap-Dead (λ _. Ensures-pure (some c))))

  reap_exited-Ended : (o : Waited) → Ensures Any (reap_exited u h o) (λ _. Ended h o)
  reap_exited-Ended (exited c) = reap-Dead
  reap_exited-Ended timed_out = Ensures-pure tt
  reap_exited-Ended unreported = Ensures-pure tt
  reap_exited-Ended (broken e) = Ensures-pure tt

  wait-Ended : Ensures Any (wait u h) (Ended h)
  unfolding wait
  wait-Ended =
      Ensures-bind (λ _. Any) _ _ (Ensures-any _)
        (λ o. Ensures-bind (λ _. Ended h o) _ _ (reap_exited-Ended o) (λ _. Ensures-pure o))

  confirm_exit-Dead : (forced : Bool) → Ensures Any (confirm_exit u h forced) (λ _. Dead h)
  unfolding confirm_exit
  confirm_exit-Dead forced = Ensures-bind (Reaped h) _ _ poll-Reaped (λ code.
      Ensures-on_option code _ _ (Ensures-raise _)
        (λ c e. Ensures-pre _ (λ s r. subst (λ o. Reaped h o s) e r) (Ensures-pure (c, forced))))

  after_last_wait-Dead : (o : Waited) → Ensures (Ended h o) (after_last_wait u o) (λ _. Dead h)
  unfolding after_last_wait
  after_last_wait-Dead (exited c) = Ensures-pure (c, true)
  after_last_wait-Dead timed_out = Ensures-raise _
  after_last_wait-Dead unreported = Ensures-raise _
  after_last_wait-Dead (broken e) = Ensures-raise _

  after_kill-Dead : (o : Signalled) → Ensures Any (after_kill u h o) (λ _. Dead h)
  unfolding after_kill
  after_kill-Dead sent = Ensures-bind (Ended h) _ _ wait-Ended after_last_wait-Dead
  after_kill-Dead lookup_error = confirm_exit-Dead true
  after_kill-Dead (refused e) = Ensures-raise _

  after_wait-Dead : (o : Waited) → Ensures (Ended h o) (after_wait u h o) (λ _. Dead h)
  unfolding after_wait
  after_wait-Dead (exited c) = Ensures-pure (c, false)
  after_wait-Dead timed_out = Ensures-bind (λ _. Any) _ _ (Ensures-any _) after_kill-Dead
  after_wait-Dead unreported = Ensures-raise _
  after_wait-Dead (broken e) = Ensures-raise _

  after_terminate-Dead : (o : Signalled) → Ensures Any (after_terminate u h o) (λ _. Dead h)
  unfolding after_terminate
  after_terminate-Dead sent = Ensures-bind (Ended h) _ _ wait-Ended after_wait-Dead
  after_terminate-Dead lookup_error = confirm_exit-Dead false
  after_terminate-Dead (refused e) = Ensures-raise _

  -- _terminate_owned_process returns only where the child is known to have ended.
  pub terminate_owned_process-Dead : Ensures Any (terminate_owned_process u h) (λ _. Dead h)
  unfolding terminate_owned_process
  terminate_owned_process-Dead = Ensures-bind (Reaped h) _ _ poll-Reaped (λ code.
      Ensures-on_option code _ _ (Ensures-bind (λ _. Any) _ _ (Ensures-any _) after_terminate-Dead)
        (λ c e. Ensures-pre _ (λ s r. subst (λ o. Reaped h o s) e r) (Ensures-pure (c, false))))
