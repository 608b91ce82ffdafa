-- ===== src/Control/KeepsQueue/Shared.antt =====
-- What the shared steps of controller/services.py keep of the tables.
use twitch_car_factory.Base.{
  ℕ, or_else, Bool, true, false, Option, none, some, [], nat_eq, ◌≡◌, refl,
}
use twitch_car_factory.Base.Result.{Result, ok, err}
use twitch_car_factory.Base.Exec.{
  pure, gets, modify, on_option, ◌>>=◌, Keeps, keeps_rules, Keeps-modify, Keeps-bind,
  Keeps-on_option, Keeps-pure,
}
use twitch_car_factory.Control.Text.{Text}
use twitch_car_factory.Control.Channels.{Problem}
use twitch_car_factory.Control.Model.{
  Account, FarmConfiguration, InstanceState, CommandAction, start, stop, restart, authenticate,
  same_action, ActionLog, Command, Database,
}
use twitch_car_factory.Control.Resolve.{
  ServiceError, check, required, require, get_account, put_account, load_configuration,
}
use twitch_car_factory.Control.Commands.{
  Request, get_or_create_state, save_state, log_action, is_pending, cancel_pending, active_of,
  earliest, create_command, find_or_create, coalesce_command, supersede,
}
use twitch_car_factory.Control.Normalized.{IsNormalized}
use twitch_car_factory.Control.Consistent.{
  IsConsistent, IsConsistent-frame, IsConsistent-commands, OneActive-cancelled, OneActive-append,
  DefaultsNormalized,
}

module _ {A : Type 0} where
  pub Keeps-checked : (r : Result Problem A) → Keeps IsConsistent (check r)
  unfolding check
  Keeps-checked (ok a) = search keeps_rules
  Keeps-checked (err p) = search keeps_rules

  pub Keeps-required : (e : ServiceError) (o : Option A) → Keeps IsConsistent (required e o)
  unfolding required
  Keeps-required e none = search keeps_rules
  Keeps-required e (some a) = search keeps_rules

pub Keeps-require : (b : Bool) (p : Problem) → Keeps IsConsistent (require b p)
unfolding require
Keeps-require true p = search keeps_rules
Keeps-require false p = search keeps_rules

pub Keeps-get_account : (id : ℕ) → Keeps IsConsistent (get_account id)
unfolding get_account
Keeps-get_account id = search (keeps_rules, Keeps-required)

pub Keeps-put_account : (id : ℕ) (a : Account) → Keeps IsConsistent (put_account id a)
unfolding put_account
Keeps-put_account id a = Keeps-modify _ (λ s i. IsConsistent-frame s _ refl refl refl refl refl i)

pub Keeps-log_action : (entry : ActionLog) → Keeps IsConsistent (log_action entry)
unfolding log_action
Keeps-log_action entry = Keeps-modify _ (λ s i. IsConsistent-frame s _ refl refl refl refl refl i)

pub Keeps-save_state : (id : ℕ) (t : InstanceState) → Keeps IsConsistent (save_state id t)
unfolding save_state
Keeps-save_state id t = Keeps-modify _ (λ s i. IsConsistent-frame s _ refl refl refl refl refl i)

pub Keeps-get_or_create_state : (id : ℕ) → Keeps IsConsistent (get_or_create_state id)
unfolding get_or_create_state
Keeps-get_or_create_state id = Keeps-bind _ _ (search keeps_rules) (λ found.
    Keeps-on_option found _ _
      (Keeps-bind _ _ (Keeps-modify _ (λ s i. IsConsistent-frame s _ refl refl refl refl refl i))
        (λ _. Keeps-pure _))
      (λ a. Keeps-pure a))

pub Keeps-cancel_pending :
    (id : ℕ) (which : CommandAction → Bool) (now : ℕ) (e : Text)
    → Keeps IsConsistent (cancel_pending id which now e)
unfolding cancel_pending
Keeps-cancel_pending id which now e = Keeps-modify _ (λ s i.
    IsConsistent-commands s _
      (OneActive-cancelled (is_pending id which) now e s.commands i.one_active) refl refl refl refl
      i)

pub Keeps-supersede :
    (id : ℕ) (a : CommandAction) (r : Request) → Keeps IsConsistent (supersede id a r)
unfolding supersede
Keeps-supersede id start r = search (keeps_rules, Keeps-cancel_pending)
Keeps-supersede id stop r = search (keeps_rules, Keeps-cancel_pending)
Keeps-supersede id restart r = search (keeps_rules, Keeps-cancel_pending)
Keeps-supersede id authenticate r = search (keeps_rules, Keeps-cancel_pending)

-- A command is created only where none of its account and action is active.
pub created :
    (id : ℕ) (a : CommandAction) (r : Request) (reason : Text) (found : Option Command)
    (s : Database)
    → earliest (active_of id (same_action a) s.commands) ≡ found
    → IsConsistent s
    → IsConsistent (on_option found (create_command id a r reason) pure s).1
unfolding on_option create_command modify gets ◌>>=◌ pure
created id a r reason (some c) s e i = i
created id a r reason none s e i =
    IsConsistent-commands s _ (OneActive-append s.commands _ e i.one_active) refl refl refl refl i

pub Keeps-find_or_create :
    (id : ℕ) (a : CommandAction) (r : Request) (reason : Text)
    → Keeps IsConsistent (find_or_create id a r reason)
unfolding find_or_create ◌>>=◌ gets
Keeps-find_or_create id a r reason = record { keep = λ s i. created id a r reason _ s refl i }

pub Keeps-coalesce_command :
    (id : ℕ) (key : Text) (a : CommandAction) (r : Request) (reason : Text)
    → Keeps IsConsistent (coalesce_command id key a r reason)
unfolding coalesce_command
Keeps-coalesce_command id key a r reason =
    search (keeps_rules, Keeps-find_or_create, Keeps-log_action)

pub loaded-normal :
    (c : Option FarmConfiguration)
    → DefaultsNormalized c
    → IsNormalized
        (or_else c
          (record { default_channels = []; autostart_new_accounts = false })).default_channels
loaded-normal none n = (tt, tt)
loaded-normal (some c) n = n

-- The row that FarmConfiguration.load makes has no channels.
pub keeps-load : (s : Database) → IsConsistent s → IsConsistent (load_configuration s).1
unfolding load_configuration ◌>>=◌ gets modify pure
keeps-load s i = record {
  one_active = i.one_active;
  matched = i.matched;
  presets_normal = i.presets_normal;
  custom_normal = i.custom_normal;
  defaults_normal = loaded-normal s.configuration i.defaults_normal;
}

pub Keeps-load_configuration : Keeps IsConsistent load_configuration
Keeps-load_configuration = record { keep = keeps-load }
