-- ===== src/Control/Consistent.antt =====
-- What every transaction of controller/services.py keeps of the database.
use mathlib.Core.Path.{subst}
use twitch_car_factory.Base.{
  ℕ, ◌+◌, Bool, true, false, ◌&&◌, Option, none, some, List, [], ◌∷◌, ◌++◌, map, length, ◌≤◌, All,
  is_some, if◌then◌else◌, ◌≡◌, refl, arith, nat_eq, ◌==◌, Bool-cases, and-true, sym, inl, inr,
}
use twitch_car_factory.Base.Result.{Result, ok, err}
use twitch_car_factory.Base.Exec.{pure, raise, ◌>>=◌, Keeps}
use twitch_car_factory.Control.Text.{Text}
use twitch_car_factory.Control.Channels.{Problem}
use twitch_car_factory.Control.Normalized.{IsNormalized}
use twitch_car_factory.Control.Model.{
  CommandAction, same_action, Command, default, custom, preset, Selection, Preset,
  FarmConfiguration, Database,
}
use twitch_car_factory.Control.Resolve.{Service, check}
use twitch_car_factory.Control.Commands.{active_of, cancel_command, earliest}

-- Each account has at most one active command of each action.
abbrev pub OneActive : List Command → Type 0
OneActive cs = (id : ℕ) (a : CommandAction) → length (active_of id (same_action a) cs) ≤ 1

-- The constraint controller_selection_mode_matches_preset.
abbrev pub Matches : Selection → Type 0
Matches s = elim s.mode [
  | default ↦ is_some s.preset_id ≡ false
  | custom ↦ is_some s.preset_id ≡ false
  | preset ↦ is_some s.preset_id ≡ true
]

abbrev pub DefaultsNormalized : Option FarmConfiguration → Type 0
DefaultsNormalized none = Unit
DefaultsNormalized (some c) = IsNormalized c.default_channels

pub record IsConsistent (db : Database) : Type 0 where
  pub one_active : OneActive db.commands
  pub matched : All (λ (r : ℕ × Selection). Matches r.1) db.selections
  pub presets_normal : All (λ (r : ℕ × Preset). IsNormalized r.1.channels) db.presets
  pub custom_normal : All (λ (r : ℕ × List Text). IsNormalized r.1) db.custom_channels
  pub defaults_normal : DefaultsNormalized db.configuration

-- Writes to the other tables.
pub IsConsistent-frame :
    (s t : Database)
    → s.commands ≡ t.commands
    → s.selections ≡ t.selections
    → s.presets ≡ t.presets
    → s.custom_channels ≡ t.custom_channels
    → s.configuration ≡ t.configuration
    → IsConsistent s
    → IsConsistent t
IsConsistent-frame s t a b c d e i = record {
  one_active = subst OneActive a i.one_active;
  matched = subst (All (λ (r : ℕ × Selection). Matches r.1)) b i.matched;
  presets_normal = subst (All (λ (r : ℕ × Preset). IsNormalized r.1.channels)) c i.presets_normal;
  custom_normal = subst (All (λ (r : ℕ × List Text). IsNormalized r.1)) d i.custom_normal;
  defaults_normal = subst DefaultsNormalized e i.defaults_normal;
}

-- A write to the queue.
pub IsConsistent-commands :
    (s t : Database)
    → OneActive t.commands
    → s.selections ≡ t.selections
    → s.presets ≡ t.presets
    → s.custom_channels ≡ t.custom_channels
    → s.configuration ≡ t.configuration
    → IsConsistent s
    → IsConsistent t
IsConsistent-commands s t o b c d e i =
    let j = IsConsistent-frame s (record t { commands = s.commands }) refl b c d e i in
    record {
      one_active = o;
      matched = j.matched;
      presets_normal = j.presets_normal;
      custom_normal = j.custom_normal;
      defaults_normal = j.defaults_normal;
    }

-- A cancelled command is not active.
pub active_of-cancelled :
    (id : ℕ) (which : CommandAction → Bool) (p : Command → Bool) (now : ℕ) (e : Text)
    (cs : List Command)
    → length (active_of id which (map (λ c. if p c then cancel_command now e c else c) cs))
      ≤ length (active_of id which cs)
unfolding cancel_command
active_of-cancelled id which p now e [] = omega arith
active_of-cancelled id which p now e (c ∷ cs) =
    ground (arith, active_of-cancelled id which p now e cs)

pub active_of-append :
    (id : ℕ) (which : CommandAction → Bool) (cs : List Command) (c : Command)
    → length (active_of id which (cs ++ (c ∷ [])))
      ≡ length (active_of id which cs) + length (active_of id which (c ∷ []))
active_of-append id which [] c = omega arith
active_of-append id which (d ∷ cs) c = ground (arith, active_of-append id which cs c)

pub earliest-none : (cs : List Command) → earliest cs ≡ none → length cs ≡ 0
unfolding earliest
earliest-none [] h = refl
earliest-none (c ∷ cs) h = absurd (ground arith)

pub OneActive-cancelled :
    (p : Command → Bool) (now : ℕ) (e : Text) (cs : List Command)
    → OneActive cs
    → OneActive (map (λ c. if p c then cancel_command now e c else c) cs)
OneActive-cancelled p now e cs o id a =
    omega (arith, o id a, active_of-cancelled id (same_action a) p now e cs)

pub same_action-eq : (a b : CommandAction) → same_action a b ≡ true → a ≡ b
same_action-eq a b h = ground arith

-- The new command counts for its own account and action only.
active_of-other :
    (id : ℕ) (a : CommandAction) (c : Command)
    → (c.account_id == id && same_action a c.action) ≡ false
    → length (active_of id (same_action a) (c ∷ [])) ≡ 0
active_of-other id a c h = ground arith

active_of-one :
    (id : ℕ) (a : CommandAction) (c : Command) → length (active_of id (same_action a) (c ∷ [])) ≤ 1
active_of-one id a c = ground arith

none-active :
    (id : ℕ) (a : CommandAction) (cs : List Command) (c : Command)
    → c.account_id ≡ id
    → a ≡ c.action
    → earliest (active_of c.account_id (same_action c.action) cs) ≡ none
    → length (active_of id (same_action a) cs) ≡ 0
none-active id a cs c p q h = earliest-none (active_of id (same_action a) cs) (
    subst (λ i. earliest (active_of i (same_action a) cs) ≡ none) p
      (subst (λ b. earliest (active_of c.account_id (same_action b) cs) ≡ none) (sym q) h))

pub OneActive-append :
    (cs : List Command) (c : Command)
    → earliest (active_of c.account_id (same_action c.action) cs) ≡ none
    → OneActive cs
    → OneActive (cs ++ (c ∷ []))
OneActive-append cs c h o id a = elim (Bool-cases (c.account_id == id && same_action a c.action)) [
  | inr e ↦
      omega (arith, o id a, active_of-append id (same_action a) cs c, active_of-other id a c e)
  | inl e ↦
      let (p, q) = and-true (c.account_id == id) (same_action a c.action) e in
      let z =
        none-active id a cs c ((nat_eq.agrees c.account_id id).0 p) (same_action-eq a c.action q)
          h in
      omega (arith, z, active_of-append id (same_action a) cs c, active_of-one id a c)
]

module _ {A B : Type 0} {P : Database → Type 0} where
  pub Keeps-check :
      (r : Result Problem A) (k : A → Service B)
      → ((a : A) → r ≡ ok a → Keeps P (k a))
      → Keeps P (check r >>= k)
  unfolding check ◌>>=◌ pure raise
  Keeps-check (ok a) k h = record { keep = (h a refl).keep }
  Keeps-check (err p) k h = record { keep = λ s i. i }
