-- ===== src/Supervisor/Safety.antt =====
-- The life of a MinerSupervisor of controller/miner_supervisor.py, as its command runs it: startup,
-- rounds and shutdown in any order, each of them returning or raising.
use twitch_car_factory.Base.{
  ℕ, Bool, Option, some, none, List, [], ◌∷◌, ◌≡◌, ◌⊎◌, inl, inr, refl, sym, Member, All, nat_eq,
  arith,
}
use mathlib.Core.Path.{subst}
use twitch_car_factory.Base.Dict.{lookup, NodupKeys}
use twitch_car_factory.Base.Result.{Result, ok, err}
use twitch_car_factory.Base.Safe.{Safe, AtEnd, at_any_end, Safe-weaken}
use twitch_car_factory.Base.Ensures.{AtReturn}
use twitch_car_factory.Supervisor.State.{Setup, Worker, ManagedProcess, SupervisorError}
use twitch_car_factory.Supervisor.Process.{terminate_owned_process}
use twitch_car_factory.Supervisor.Lifetime.{startup, run_once, shutdown}
use twitch_car_factory.Supervisor.Children.{Dead, Owned, process_of}
use twitch_car_factory.Supervisor.Children.Guard.{terminate_owned_process-Dead}
use twitch_car_factory.Supervisor.Children.Living.{startup-IsGuarded, run_once-IsGuarded}
use twitch_car_factory.Supervisor.Children.Shutting.{Alone, shutdown-Safe}

-- A call of the supervisor.
pub data Task : Type 0 where
  starting shutting : Task
  round : Bool → Task

module _ {W : Type 0} (u : Setup W) where
  unfoldable pub perform : Task → Worker W → Worker W
  perform starting s = (startup u s).1
  perform (round force) s = (run_once u force s).1
  perform shutting s = (shutdown u s).1

  unfoldable pub live_through : List Task → Worker W → Worker W
  live_through [] s = s
  live_through (t ∷ ts) s = live_through ts (perform t s)

  -- A supervisor that has started no child yet.
  pub record IsFresh (s : Worker W) : Type 0 where
    pub none_held : s.processes ≡ []
    pub none_live : s.live ≡ []

module _ {W : Type 0} where
  -- The process is that of an entry.
  abbrev pub IsHeld : Worker W → ℕ → Type 0
  IsHeld s h = (id : ℕ) × (m : ManagedProcess) × (lookup id s.processes ≡ some m) × (m.process ≡ h)

All-tabulate : (P : ℕ → Type 0) (hs : List ℕ) → ((h : ℕ) → Member h hs → P h) → All P hs
All-tabulate P [] f = tt
All-tabulate P (h ∷ hs) f = (f h (inl refl), All-tabulate P hs (λ k m. f k (inr m)))

no_members : (hs : List ℕ) → ((h : ℕ) → ¬ Member h hs) → hs ≡ []
no_members [] f = refl
no_members (h ∷ hs) f = absurd (f h (inl refl))

module _ {W : Type 0} (u : Setup W) where
  shutdown-guarded : Safe Owned (shutdown u) (λ _. Owned) Owned
  shutdown-guarded = Safe-weaken _ (λ s o. o) (λ a s q. q.0) (λ s o. o) (shutdown-Safe u)

  perform-Owned : (t : Task) (s : Worker W) → Owned s → Owned (perform u t s)
  unfolding perform
  perform-Owned starting s o = at_any_end Owned _ _ ((startup-IsGuarded u).guards.run s o)
  perform-Owned (round force) s o =
      at_any_end Owned _ _ ((run_once-IsGuarded u force).guards.run s o)
  perform-Owned shutting s o = at_any_end Owned _ _ (shutdown-guarded.run s o)

  live_through-Owned : (ts : List Task) (s : Worker W) → Owned s → Owned (live_through u ts s)
  unfolding live_through
  live_through-Owned [] s o = o
  live_through-Owned (t ∷ ts) s o = live_through-Owned ts (perform u t s) (perform-Owned t s o)

  fresh-Owned : (s : Worker W) → IsFresh u s → Owned s
  fresh-Owned s f = record {
    owner = λ h l. elim (subst (Member h) f.none_live l) [ ];
    nodup = subst NodupKeys (sym f.none_held) tt;
  }

  cleared :
      (r : Result SupervisorError (Unit {0})) (t : Worker W)
      → AtEnd (λ _ x. Owned x × Alone x) Owned r t
      → (t.live ≡ []) ⊎ ((e : SupervisorError) × (r ≡ err e))
  cleared (ok a) t h = inl (no_members t.live h.1)
  cleared (err e) t h = inr (e, refl)

  holder :
      (h : ℕ) (o : Option ManagedProcess)
      → process_of o ≡ some h
      → (m : ManagedProcess) × (o ≡ some m) × (m.process ≡ h)
  holder h none e = ground (arith, e)
  holder h (some m) e = (m, refl, ground (arith, e))

  -- Each child that was started, in all the startups, rounds and shutdowns of a fresh supervisor, each of
  -- them returning or raising, and was not reported as ended is the process of an entry of
  -- self.processes.
  pub live_children-IsHeld :
      (ts : List Task) (s : Worker W)
      → IsFresh u s
      → All (IsHeld (live_through u ts s)) (live_through u ts s).live
  live_children-IsHeld ts s f =
      let end = live_through u ts s in
      let o = live_through-Owned ts s (fresh-Owned s f) in
      All-tabulate (IsHeld end) end.live (λ h l.
        let (id, e) = o.owner h l in let (m, found, same) = holder h _ e in (id, m, found, same))

  -- After all that a fresh supervisor has gone through, shutdown raises, or no child is left that was
  -- started and not reported as ended.
  pub shutdown-alone :
      (ts : List Task) (s : Worker W)
      → IsFresh u s
      → ((shutdown u (live_through u ts s)).1.live ≡ [])
        ⊎ ((e : SupervisorError) × ((shutdown u (live_through u ts s)).0 ≡ err e))
  shutdown-alone ts s f =
      cleared _ _ ((shutdown-Safe u).run _ (live_through-Owned ts s (fresh-Owned s f)))

  ended_or_raised :
      {A : Type 0} (h : ℕ) (r : Result SupervisorError A) (t : Worker W)
      → AtReturn (λ _. Dead h) r t
      → (¬ Member h t.live) ⊎ ((e : SupervisorError) × (r ≡ err e))
  ended_or_raised h (ok a) t d = inl d
  ended_or_raised h (err e) t d = inr (e, refl)

  -- _terminate_owned_process raises, or a poll or a wait has reported the end of the child.
  pub terminate_owned_process-ended :
      (h : ℕ) (s : Worker W)
      → (¬ Member h (terminate_owned_process u h s).1.live)
        ⊎ ((e : SupervisorError) × ((terminate_owned_process u h s).0 ≡ err e))
  terminate_owned_process-ended h s =
      ended_or_raised h _ _ ((terminate_owned_process-Dead u h).run s tt)
