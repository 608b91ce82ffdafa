-- ===== src/Supervisor/Order.antt =====
-- _lease_next_command of controller/miner_supervisor.py takes the oldest command that waits.
use mathlib.Core.Path.{subst}
use twitch_car_factory.Base.{
  ℕ, true, false, none, some, List, [], ◌∷◌, Member, ◌≡◌, ◌⊎◌, inl, inr, Option-cases, Bool-cases,
  arith, nat_eq,
}
use twitch_car_factory.Control.Text.{Text}
use twitch_car_factory.Control.Model.{Command}
use twitch_car_factory.Control.Commands.{earliest, earlier}
use twitch_car_factory.Control.Coalescing.{earliest-Member}
use twitch_car_factory.Supervisor.Lease.{claim, waiting, lease_next_command}

earlier_asym : (b x : Command) → earlier b x ≡ true → earlier x b ≡ false
earlier_asym b x h = ground (arith, nat_eq.agrees b.created_at x.created_at)

earlier_irrefl : (x : Command) → earlier x x ≡ false
earlier_irrefl x = ground arith

not_earlier_trans :
    (d b x : Command) → earlier d b ≡ false → earlier b x ≡ false → earlier d x ≡ false
not_earlier_trans d b x h k = ground arith

earliest-none-Member : (cs : List Command) (d : Command) → earliest cs ≡ none → Member d cs → ⊥
unfolding earliest
earliest-none-Member [] d h m = elim m [ ]
earliest-none-Member (c ∷ cs) d h m = absurd (ground arith)

earliest_least :
    (cs : List Command) (c d : Command) → earliest cs ≡ some c → Member d cs → earlier d c ≡ false
unfolding earliest
earliest_least [] c d h m = elim m [ ]
earliest_least (x ∷ xs) c d h m = elim (Option-cases (earliest xs)) [
  | inl e ↦ elim m [
    | inl p ↦ ground (arith, e, earlier_irrefl x)
    | inr q ↦ absurd (earliest-none-Member xs d e q)
  ]
  | inr (b, e) ↦ elim (Bool-cases (earlier b x)) [
    | inl q ↦
        let r : b ≡ c = ground (arith, e, q) in
        subst (λ y. earlier d y ≡ false) r
          (elim m [
            | inl p ↦ subst (λ y. earlier y b ≡ false) p (earlier_asym b x q)
            | inr n ↦ earliest_least xs b d e n
          ])
    | inr q ↦
        let r : x ≡ c = ground (arith, e, q) in
        subst (λ y. earlier d y ≡ false) r
          (elim m [
            | inl p ↦ subst (λ y. earlier y x ≡ false) p (earlier_irrefl x)
            | inr n ↦ not_earlier_trans d b x (earliest_least xs b d e n) q
          ])
  ]
]

-- Where no command is leased none waits; a command that is leased waited in the queue, and none that
-- waited with it is older.
pub lease_next_command-oldest :
    (worker : Text) (now duration : ℕ) (cs : List Command)
    → ((lease_next_command worker now duration cs).0 ≡ none
        × ((d : Command) → Member d (waiting cs) → ⊥))
      ⊎ ((c : Command) × (Member c (waiting cs))
          × ((d : Command) → Member d (waiting cs) → earlier d c ≡ false)
          × ((lease_next_command worker now duration cs).0 ≡ some (claim worker now duration c)))
unfolding lease_next_command
lease_next_command-oldest worker now duration cs = elim (Option-cases (earliest (waiting cs))) [
  | inl e ↦ inl (ground (arith, e), λ d m. earliest-none-Member (waiting cs) d e m)
  | inr (c, e) ↦ inr (
    c,
    earliest-Member (waiting cs) c e,
    λ d m. earliest_least (waiting cs) c d e m,
    ground (arith, e),
  )
]
