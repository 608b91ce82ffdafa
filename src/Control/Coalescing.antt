-- ===== src/Control/Coalescing.antt =====
-- The command that coalesce_command finds or creates, at the end of enqueue_command of
-- controller/services.py.
use mathlib.Core.Path.{subst}
use twitch_car_factory.Base.{
  ℕ, true, Option, none, some, List, [], ◌∷◌, ◌++◌, nat_eq, Member, Member-filter_by, ◌≡◌, refl,
  inl, inr, Option-cases, arith, Bool-cases,
}
use twitch_car_factory.Base.Dict.{Dict}
use twitch_car_factory.Base.Exec.{pure, gets, modify, on_option, ◌>>=◌}
use twitch_car_factory.Base.Ensures.{AtReturn, Ensures, Ensures-bind, Ensures-frame, Ensures-pure}
use twitch_car_factory.Control.Text.{Text}
use twitch_car_factory.Control.Model.{InstanceState, CommandAction, same_action, Command, Database}
use twitch_car_factory.Control.Commands.{
  Request, is_active, active_of, earliest, earlier, create_command, find_or_create,
  coalesce_command, log_action,
}
use twitch_car_factory.Control.Consistent.{same_action-eq}

-- `c` is an active command of the account that asks for that very action.
abbrev pub Asks : ℕ → CommandAction → Command → List Command → Type 0
Asks id a c cs = Member c cs × (c.account_id ≡ id) × (is_active c ≡ true) × (c.action ≡ a)

pub earliest-Member : (cs : List Command) (c : Command) → earliest cs ≡ some c → Member c cs
unfolding earliest
earliest-Member [] c h = absurd (cc)
earliest-Member (d ∷ cs) c h = elim (Option-cases (earliest cs)) [
  | inl e ↦ inl (ground (arith, e))
  | inr (b, e) ↦ elim (Bool-cases (earlier b d)) [
    | inl q ↦ inr (subst (λ x. Member x cs) (ground (arith, e, q)) (earliest-Member cs b e))
    | inr q ↦ inl (ground (arith, e, q))
  ]
]

Member-last : (cs : List Command) (c : Command) → Member c (cs ++ (c ∷ []))
Member-last [] c = inl refl
Member-last (d ∷ cs) c = inr (Member-last cs c)

pub earliest-active_of :
    (id : ℕ) (a : CommandAction) (cs : List Command) (c : Command)
    → earliest (active_of id (same_action a) cs) ≡ some c
    → Asks id a c cs
earliest-active_of id a cs c h = ground (
  arith,
  (Member-filter_by _ c cs).0 (earliest-Member _ c h),
  nat_eq.agrees c.account_id id,
  same_action-eq a c.action,
)

-- What holds of the states and the queue, and of a queue with one more command of the action.
module _ (id : ℕ) (a : CommandAction) (P : Dict ℕ InstanceState → List Command → Type 0)
    (adds : (ts : Dict ℕ InstanceState) (cs : List Command) (c : Command)
      → c.action ≡ a
      → P ts cs
      → P ts (cs ++ (c ∷ []))) where
  -- The branches of find_or_create, on what it found.
  found-Asks :
      (r : Request) (reason : Text) (found : Option Command) (db : Database)
      → earliest (active_of id (same_action a) db.commands) ≡ found
      → P db.states db.commands
      → (let out = on_option found (create_command id a r reason) pure db in
          AtReturn
            (λ c after. P after.states after.commands × Asks id a c after.commands)
            out.0
            out.1)
  unfolding on_option create_command modify gets ◌>>=◌ pure
  found-Asks r reason (some c) db e h = (h, earliest-active_of id a db.commands c e)
  found-Asks r reason none db e h =
      (adds db.states db.commands _ refl h, (Member-last db.commands _, refl, refl, refl))

  find_or_create-Asks :
      (r : Request) (reason : Text)
      → Ensures
          (λ db. P db.states db.commands)
          (find_or_create id a r reason)
          (λ c db. P db.states db.commands × Asks id a c db.commands)
  unfolding find_or_create ◌>>=◌ gets
  find_or_create-Asks r reason = record { run = λ db h. found-Asks r reason _ db refl h }

  -- The log leaves the states and the queue alone.
  pub coalesce_command-Asks :
      (key : Text) (r : Request) (reason : Text)
      → Ensures
          (λ db. P db.states db.commands)
          (coalesce_command id key a r reason)
          (λ c db. P db.states db.commands × Asks id a c db.commands)
  unfolding coalesce_command log_action
  coalesce_command-Asks key r reason =
      Ensures-bind (λ c db. P db.states db.commands × Asks id a c db.commands) _ _
        (find_or_create-Asks r reason)
        (λ c.
          Ensures-bind (λ _ db. P db.states db.commands × Asks id a c db.commands) _ _
            (Ensures-frame _ (λ db h. h)) (λ _. Ensures-pure c))
