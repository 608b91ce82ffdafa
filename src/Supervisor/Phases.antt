-- ===== src/Supervisor/Phases.antt =====
-- The commands of one account and action, of controller/miner_supervisor.py, as one small state machine.
use mathlib.Core.Path.{subst}
use twitch_car_factory.Base.{
  ℕ, Bool, true, false, not, ◌&&◌, Option, none, some, List, [], ◌∷◌, map, length, ◌≤◌, ◌≡◌, refl,
  sym, ap, arith, inl, inr, if◌then◌else◌, Member, Member-filter_by, ◌==◌, nat_eq, text_eq, ◌||◌,
  ◌⊎◌, ◌∙◌, Bool-cases,
}
use twitch_car_factory.Control.Text.{Text}
use twitch_car_factory.Control.Coalescing.{earliest-Member}
use twitch_car_factory.Control.Model.{
  Command, CommandAction, CommandStatus, same_action, is_leased, is_queued,
}
use twitch_car_factory.Control.Commands.{is_active, active_of, earliest}
use twitch_car_factory.Control.Consistent.{OneActive}
use twitch_car_factory.Supervisor.Lease.{
  waiting, claim, lease_found, lease_next_command, finished, WorkerStep, leasing, finishing,
  recovering, work, finish_command, requeued, recover_claims,
}
use twitch_car_factory.Supervisor.Claims.{
  Calm, KeyNames, finished-Calm, requeued-Calm, claimed-Calm,
}

-- Nobody asks for the action; the command of that key waits for it; a worker has claimed the command.
pub data Phase : Type 0 where
  idle : Phase
  waits : ℕ → Phase
  held : ℕ → Text → Phase

abbrev phase_at : Command → Phase
phase_at c = if is_queued c.status then waits c.command_id else held c.command_id c.lease_owner

abbrev phase : List Command → Phase
phase [] = idle
phase (c ∷ _) = phase_at c

-- The phase of an account's action.
abbrev pub phase_of : ℕ → CommandAction → List Command → Phase
phase_of id a cs = phase (active_of id (same_action a) cs)

-- The worker claims the command `key`, if that one waits.
abbrev taken : Text → ℕ → Phase → Phase
taken worker key idle = idle
taken worker key (waits k) = if k == key then held k worker else waits k
taken worker key (held k owner) = held k owner

-- The worker ends the command `key`, if it holds that one.
abbrev ended : Text → ℕ → Phase → Phase
ended worker key idle = idle
ended worker key (waits k) = waits k
ended worker key (held k owner) = if k == key && owner == worker then idle else held k owner

-- The worker takes back what another one holds.
abbrev taken_back : Text → Phase → Phase
taken_back worker idle = idle
taken_back worker (waits k) = waits k
taken_back worker (held k owner) = if owner == worker then held k owner else waits k

abbrev taken_first : Text → Option Command → Phase → Phase
taken_first worker none p = p
taken_first worker (some c) p = taken worker c.command_id p

-- The phase after a worker's step on the queue.
abbrev pub advance : Text → WorkerStep → List Command → Phase → Phase
advance worker (leasing _ _) cs p = taken_first worker (earliest (waiting cs)) p
advance worker (finishing key _ _ _) cs p = ended worker key p
advance worker recovering cs p = taken_back worker p

CommandStatus-cases :
    (s : CommandStatus)
    → (is_queued s || is_leased s) ≡ true
    → ((is_queued s ≡ true) × (is_leased s ≡ false))
      ⊎ ((is_queued s ≡ false) × (is_leased s ≡ true))
CommandStatus-cases s h = elim (Bool-cases (is_queued s)) [
  | inl q ↦ inl (q, ground (arith, q))
  | inr q ↦ inr (q, ground (arith, q, h))
]

-- Only the active commands matter to a step that wakes none.
active_of-map :
    (f : Command → Command) (id : ℕ) (which : CommandAction → Bool) (cs : List Command)
    → ((c : Command) → Member c cs → Calm c (f c))
    → active_of id which (map f cs) ≡ active_of id which (map f (active_of id which cs))
active_of-map f id which [] k = refl
active_of-map f id which (c ∷ cs) k =
    let rest = active_of-map f id which cs (λ d m. k d (inr m)) in
    ground (arith, k c (inl refl), rest)

module _ (worker : Text) where
  -- The phase after a step on the one active command.
  abbrev phase_after : Command → Phase
  phase_after d = if is_active d then phase_at d else idle

  only_active :
      (f : Command → Command) (id : ℕ) (a : CommandAction) (c : Command)
      → (c.account_id == id && is_active c && same_action a c.action) ≡ true
      → Calm c (f c)
      → phase_of id a (map f (c ∷ [])) ≡ phase_after (f c)
  only_active f id a c h k = ground (arith, h, k)

  -- The phase follows `g`, where each active command does.
  phase_of-active :
      (f : Command → Command) (g : Phase → Phase) (id : ℕ) (a : CommandAction)
      (cs active : List Command)
      → g idle ≡ idle
      → active_of id (same_action a) cs ≡ active
      → length active ≤ 1
      → ((c : Command) → Member c cs → Calm c (f c))
      → ((c : Command) → Member c cs → is_active c ≡ true → phase_after (f c) ≡ g (phase_at c))
      → phase_of id a (map f active) ≡ g (phase active)
  phase_of-active f g id a cs [] z e h k m = sym z
  phase_of-active f g id a cs (c ∷ []) z e h k m =
      let (n, t) =
        (Member-filter_by (λ x. x.account_id == id && is_active x && same_action a x.action) c cs).0
          (subst (λ l. Member c l) (sym e) (inl refl)) in
      only_active f id a c t (k c n) ∙ m c n (ground (arith, t))
  phase_of-active f g id a cs (c ∷ (d ∷ ds)) z e h k m = absurd (omega (arith, h))

  phase_of-map :
      (f : Command → Command) (g : Phase → Phase) (id : ℕ) (a : CommandAction) (cs : List Command)
      → g idle ≡ idle
      → OneActive cs
      → ((c : Command) → Member c cs → Calm c (f c))
      → ((c : Command) → Member c cs → is_active c ≡ true → phase_after (f c) ≡ g (phase_at c))
      → phase_of id a (map f cs) ≡ g (phase_of id a cs)
  phase_of-map f g id a cs z o k m =
      ap phase (active_of-map f id (same_action a) cs k)
      ∙ phase_of-active f g id a cs (active_of id (same_action a) cs) z refl (o id a) k m

  -- The command ends with a status that is neither QUEUED nor LEASED.
  abbrev pub IsFinal : WorkerStep → Type 0
  IsFinal (leasing _ _) = Unit
  IsFinal (finishing _ status _ _) = (is_queued status ≡ false) × (is_leased status ≡ false)
  IsFinal recovering = Unit

  finished-ended :
      (id : ℕ) (status : CommandStatus) (now : ℕ) (e : Text) (c : Command)
      → is_queued status ≡ false
      → is_leased status ≡ false
      → is_active c ≡ true
      → phase_after (
          if c.command_id == id && is_leased c.status && c.lease_owner == worker
          then finished status now e c
          else c)
        ≡ ended worker id (phase_at c)
  unfolding finished
  finished-ended id status now e c q l t = elim (CommandStatus-cases c.status t) [
    | inl (h, n) ↦ ground (arith, q, l, h, n, t)
    | inr (h, n) ↦ ground (arith, q, l, h, n, t)
  ]

  requeued-taken_back :
      (c : Command)
      → is_active c ≡ true
      → phase_after (if is_leased c.status && not (c.lease_owner == worker) then requeued c else c)
        ≡ taken_back worker (phase_at c)
  unfolding requeued
  requeued-taken_back c t = elim (CommandStatus-cases c.status t) [
    | inl (h, n) ↦ ground (arith, h, n, t)
    | inr (h, n) ↦ ground (arith, h, n, t)
  ]

  claim-taken :
      (now duration : ℕ) (c d : Command)
      → is_queued c.status ≡ true
      → (c.command_id ≡ d.command_id → c ≡ d)
      → is_active d ≡ true
      → (b : Bool) → (d.command_id == c.command_id) ≡ b
      → phase_after (if b then claim worker now duration d else d)
        ≡ taken worker c.command_id (phase_at d)
  unfolding claim
  claim-taken now duration c d q k t true h =
      let same : c ≡ d = k (sym ((nat_eq.agrees d.command_id c.command_id).0 h)) in
      let waits' : is_queued d.status ≡ true = subst (λ x. is_queued x.status ≡ true) same q in
      ground (arith, waits', h)
  claim-taken now duration c d q k t false h = elim (CommandStatus-cases d.status t) [
    | inl (e, n) ↦ ground (arith, e, n, t, h)
    | inr (e, n) ↦ ground (arith, e, n, t, h)
  ]

  leased-taken :
      (now duration : ℕ) (id : ℕ) (a : CommandAction) (cs : List Command) (found : Option Command)
      → earliest (waiting cs) ≡ found
      → KeyNames cs
      → OneActive cs
      → phase_of id a (lease_found worker now duration cs found).1
        ≡ taken_first worker found (phase_of id a cs)
  leased-taken now duration id a cs none e k o = refl
  leased-taken now duration id a cs (some c) e k o =
      let (m, q) =
        (Member-filter_by (λ x. is_queued x.status) c cs).0 (earliest-Member (waiting cs) c e) in
      phase_of-map (λ d. if d.command_id == c.command_id then claim worker now duration d else d)
        (taken worker c.command_id) id a cs refl o
        (λ d n. claimed-Calm worker now duration c d q (k c d m n))
        (λ d n t. claim-taken now duration c d q (k c d m n) t (d.command_id == c.command_id) refl)

-- Where the key of a command names one row, no action of an account has two active commands, and a
-- command that is ended gets neither QUEUED nor LEASED for its status, a worker's step on the queue moves
-- the phase of each action of each account exactly as `advance` says. A lease takes the command that is
-- earliest of those that wait, wherever it is the action's; ending a command makes the action idle if the
-- worker itself holds that command; recovery makes what another worker holds wait again; and nothing
-- else moves.
pub work-advance :
    (worker : Text) (w : WorkerStep) (cs : List Command) (id : ℕ) (a : CommandAction)
    → KeyNames cs
    → OneActive cs
    → IsFinal worker w
    → phase_of id a (work worker w cs) ≡ advance worker w cs (phase_of id a cs)
unfolding work lease_next_command finish_command recover_claims
work-advance worker (leasing now duration) cs id a k o f =
    leased-taken worker now duration id a cs (earliest (waiting cs)) refl k o
work-advance worker (finishing key status now e) cs id a k o f =
    phase_of-map worker _ (ended worker key) id a cs refl o
      (λ c m. finished-Calm worker key status now e c)
      (λ c m t. finished-ended worker key status now e c f.0 f.1 t)
work-advance worker recovering cs id a k o f =
    phase_of-map worker _ (taken_back worker) id a cs refl o (λ c m. requeued-Calm worker c)
      (λ c m t. requeued-taken_back worker c t)
