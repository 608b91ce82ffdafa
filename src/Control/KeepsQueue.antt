-- ===== src/Control/KeepsQueue.antt =====
-- The command queue's transactions keep the database consistent.
pub mod Shared
unfoldable pub use Shared.*
use twitch_car_factory.Base.{
  ℕ, or_else, Bool, true, false, Option, none, some, List, [], ◌∷◌, nat_eq, ◌≡◌, refl,
}
use twitch_car_factory.Base.Result.{Result, ok, err}
use twitch_car_factory.Base.Exec.{
  pure, gets, modify, on_option, ◌>>=◌, Keeps, keeps_rules, Keeps-modify, Keeps-bind, Keeps-attempt,
  Keeps-on_option, Keeps-pure,
}
use twitch_car_factory.Control.Text.{Text}
use twitch_car_factory.Control.Channels.{Problem}
use twitch_car_factory.Control.Model.{
  Account, Selection, Mode, default, custom, preset, FarmConfiguration, InstanceState,
  CommandAction, start, stop, restart, authenticate, same_action, ActionLog, Command, Database,
}
use twitch_car_factory.Control.Resolve.{
  ServiceError, invalid, no_account, no_selection, no_credential, no_preset, Platform, check,
  required, require, get_account, put_account, load_configuration, ChannelResolution, source_in,
  resolve_channels, best_source, best_effort_fingerprint, or_empty, settle_fingerprint,
  refresh_account_fingerprint,
}
use twitch_car_factory.Control.Commands.{
  Request, get_or_create_state, save_state, log_action, is_pending, cancel_pending, active_of,
  earliest, create_command, find_or_create, coalesce_command, supersede, require_launchable,
  enqueue_action, enqueue_command, enqueue_each, enqueue_all,
}
use twitch_car_factory.Control.Normalized.{IsNormalized}
use twitch_car_factory.Control.Consistent.{
  IsConsistent, IsConsistent-frame, IsConsistent-commands, OneActive-cancelled, OneActive-append,
  DefaultsNormalized,
}

module _ (p : Platform) where
  Keeps-source_in :
      (m : Mode) (id : ℕ) (account : Account) (key : Option ℕ)
      → Keeps IsConsistent (source_in p m id account key)
  unfolding source_in
  Keeps-source_in default id account key =
      search (keeps_rules, Keeps-load_configuration, Keeps-checked)
  Keeps-source_in custom id account key = search (keeps_rules, Keeps-checked)
  Keeps-source_in preset id account key =
      search (keeps_rules, Keeps-checked, Keeps-required) depth 10

  pub Keeps-resolve_channels :
      (id : ℕ) (account : Account) (cached : Option Selection)
      → Keeps IsConsistent (resolve_channels p id account cached)
  unfolding resolve_channels
  Keeps-resolve_channels id account cached =
      search (keeps_rules, Keeps-require, Keeps-source_in) depth 12

  Keeps-best_source :
      (m : Mode) (id : ℕ) (account : Account) (key : Option ℕ)
      → Keeps IsConsistent (best_source p m id account key)
  unfolding best_source
  Keeps-best_source default id account key = search keeps_rules
  Keeps-best_source custom id account key = search (keeps_rules, Keeps-source_in)
  Keeps-best_source preset id account key = search (keeps_rules, Keeps-source_in)

  Keeps-best_effort_fingerprint :
      (id : ℕ) (account : Account) → Keeps IsConsistent (best_effort_fingerprint p id account)
  unfolding best_effort_fingerprint
  Keeps-best_effort_fingerprint id account =
      search (keeps_rules, Keeps-best_source, Keeps-required) depth 12

  Keeps-or_empty : (r : Result ServiceError Text) → Keeps IsConsistent (or_empty p r)
  unfolding or_empty
  Keeps-or_empty (ok t) = search keeps_rules
  Keeps-or_empty (err (invalid _)) = search keeps_rules
  Keeps-or_empty (err no_selection) = search keeps_rules
  Keeps-or_empty (err no_account) = search keeps_rules
  Keeps-or_empty (err no_credential) = search keeps_rules
  Keeps-or_empty (err no_preset) = search keeps_rules

  Keeps-settle_fingerprint :
      (id : ℕ) (account : Account) (r : Result ServiceError ChannelResolution)
      → Keeps IsConsistent (settle_fingerprint p id account r)
  unfolding settle_fingerprint
  Keeps-settle_fingerprint id account (ok r) = search keeps_rules
  Keeps-settle_fingerprint id account (err (invalid _)) =
      search (keeps_rules, Keeps-attempt, Keeps-best_effort_fingerprint, Keeps-or_empty)
  Keeps-settle_fingerprint id account (err no_selection) = search keeps_rules
  Keeps-settle_fingerprint id account (err no_account) = search keeps_rules
  Keeps-settle_fingerprint id account (err no_credential) = search keeps_rules
  Keeps-settle_fingerprint id account (err no_preset) = search keeps_rules

  pub Keeps-refresh :
      (id : ℕ) (account : Account) → Keeps IsConsistent (refresh_account_fingerprint p id account)
  unfolding refresh_account_fingerprint
  Keeps-refresh id account = search (
    keeps_rules, Keeps-attempt, Keeps-resolve_channels, Keeps-settle_fingerprint, Keeps-put_account,
  )

  Keeps-require_launchable :
      (id : ℕ) (account : Account) → Keeps IsConsistent (require_launchable p id account)
  unfolding require_launchable
  Keeps-require_launchable id account =
      search (keeps_rules, Keeps-require, Keeps-resolve_channels) depth 12

  Keeps-enqueue_action :
      (id : ℕ) (a : CommandAction) (r : Request) (reason : Text)
      → Keeps IsConsistent (enqueue_action p id a r reason)
  unfolding enqueue_action
  Keeps-enqueue_action id a r reason =
      search
        (
          keeps_rules, Keeps-get_account, Keeps-require_launchable, Keeps-get_or_create_state,
          Keeps-save_state, Keeps-supersede, Keeps-coalesce_command,
        )
        depth 20

  pub Keeps-enqueue_command :
      (id : ℕ) (action : Text) (r : Request) (reason : Text)
      → Keeps IsConsistent (enqueue_command p id action r reason)
  unfolding enqueue_command
  Keeps-enqueue_command id action r reason = search (keeps_rules, Keeps-enqueue_action)

  Keeps-enqueue_each :
      (as' : List (ℕ × Account)) (action : Text) (r : Request) (reason : Text)
      → Keeps IsConsistent (enqueue_each p as' action r reason)
  unfolding enqueue_each
  Keeps-enqueue_each [] action r reason = search keeps_rules
  Keeps-enqueue_each (a ∷ as') action r reason =
      Keeps-bind _ _ (Keeps-enqueue_command a.0 action r reason)
        (λ c. Keeps-bind _ _ (Keeps-enqueue_each as' action r reason) (λ cs. Keeps-pure _))

  pub Keeps-enqueue_all :
      (action : Text) (r : Request) (reason : Text)
      → Keeps IsConsistent (enqueue_all p action r reason)
  unfolding enqueue_all
  Keeps-enqueue_all action r reason = search (keeps_rules, Keeps-enqueue_each)
