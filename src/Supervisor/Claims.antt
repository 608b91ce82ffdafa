-- ===== src/Supervisor/Claims.antt =====
-- The worker's steps on the queue, of controller/miner_supervisor.py, and the commands they leave.
use mathlib.Core.Path.{subst}
use twitch_car_factory.Control.Coalescing.{earliest-Member}
use twitch_car_factory.Base.{
  ℕ, Bool, true, not, ◌&&◌, Option, none, some, List, [], ◌∷◌, map, length, ◌≤◌, ◌≡◌, refl, arith,
  inl, inr, if◌then◌else◌, Member, Member-filter_by, Bool-cases, sym, ◌==◌, nat_eq, text_eq,
}
use twitch_car_factory.Control.Text.{Text}
use twitch_car_factory.Control.Model.{
  Command, CommandAction, CommandStatus, same_action, is_leased, is_queued,
}
use twitch_car_factory.Control.Commands.{is_active, active_of, earliest}
use twitch_car_factory.Control.Consistent.{OneActive}
use twitch_car_factory.Supervisor.Lease.{
  waiting, claim, lease_found, lease_next_command, finished, WorkerStep, leasing, finishing,
  recovering, work, finish_command, requeued, recover_claims,
}

-- A row that stays with its account and action, and becomes active only if it was.
abbrev pub Calm : Command → Command → Type 0
Calm c d =
    (d.account_id ≡ c.account_id)
    × (d.action ≡ c.action)
    × (is_active d ≡ true → is_active c ≡ true)

active_of-Calm :
    (f : Command → Command) (id : ℕ) (which : CommandAction → Bool) (cs : List Command)
    → ((c : Command) → Member c cs → Calm c (f c))
    → length (active_of id which (map f cs)) ≤ length (active_of id which cs)
active_of-Calm f id which [] k = omega arith
active_of-Calm f id which (c ∷ cs) k =
    let rest = active_of-Calm f id which cs (λ d m. k d (inr m)) in
    ground (arith, k c (inl refl), rest)

OneActive-Calm :
    (f : Command → Command) (cs : List Command)
    → ((c : Command) → Member c cs → Calm c (f c))
    → OneActive cs
    → OneActive (map f cs)
OneActive-Calm f cs k o id a = omega (arith, o id a, active_of-Calm f id (same_action a) cs k)

pub finished-Calm :
    (worker : Text) (id : ℕ) (status : CommandStatus) (now : ℕ) (e : Text) (c : Command)
    → Calm c (
        if c.command_id == id && is_leased c.status && c.lease_owner == worker
        then finished status now e c
        else c)
unfolding finished
finished-Calm worker id status now e c = ground arith

pub requeued-Calm :
    (worker : Text) (c : Command)
    → Calm c (if is_leased c.status && not (c.lease_owner == worker) then requeued c else c)
unfolding requeued
requeued-Calm worker c = ground arith

-- The primary key of a command names one row.
abbrev pub KeyNames : List Command → Type 0
KeyNames cs = (c d : Command) → Member c cs → Member d cs → c.command_id ≡ d.command_id → c ≡ d

pub claimed-Calm :
    (worker : Text) (now duration : ℕ) (c d : Command)
    → is_queued c.status ≡ true
    → (c.command_id ≡ d.command_id → c ≡ d)
    → Calm d (if d.command_id == c.command_id then claim worker now duration d else d)
unfolding claim
claimed-Calm worker now duration c d q k = elim (Bool-cases (d.command_id == c.command_id)) [
  | inl e ↦
      let same : c ≡ d = k (sym ((nat_eq.agrees d.command_id c.command_id).0 e)) in
      let waits : is_queued d.status ≡ true = subst (λ x. is_queued x.status ≡ true) same q in
      ground (arith, e, waits)
  | inr e ↦ ground (arith, e)
]

leased-OneActive :
    (worker : Text) (now duration : ℕ) (cs : List Command) (found : Option Command)
    → earliest (waiting cs) ≡ found
    → KeyNames cs
    → OneActive cs
    → OneActive (lease_found worker now duration cs found).1
leased-OneActive worker now duration cs none e k o = o
leased-OneActive worker now duration cs (some c) e k o =
    let (m, q) =
      (Member-filter_by (λ x. is_queued x.status) c cs).0 (earliest-Member (waiting cs) c e) in
    OneActive-Calm _ cs (λ d n. claimed-Calm worker now duration c d q (k c d m n)) o

-- Leasing, finishing and recovering commands, where a primary key names one row, never makes a second
-- active command of one account and action.
pub work-OneActive :
    (worker : Text) (w : WorkerStep) (cs : List Command)
    → KeyNames cs
    → OneActive cs
    → OneActive (work worker w cs)
unfolding work lease_next_command finish_command recover_claims
work-OneActive worker (leasing now duration) cs k o =
    leased-OneActive worker now duration cs (earliest (waiting cs)) refl k o
work-OneActive worker (finishing id status now e) cs k o =
    OneActive-Calm _ cs (λ c m. finished-Calm worker id status now e c) o
work-OneActive worker recovering cs k o = OneActive-Calm _ cs (λ c m. requeued-Calm worker c) o
