-- ===== src/Control/Resolve.antt =====
-- compute_configuration_fingerprint, resolve_channels and the upkeep of an account's fingerprint, of
-- controller/services.py.
use twitch_car_factory.Base.{
  ℕ, Bool, true, false, Option, none, some, List, [], nat_eq, map, is_some, or_else,
}
use twitch_car_factory.Base.Dict.{lookup, insert}
use twitch_car_factory.Base.Result.{Result, ok, err}
use twitch_car_factory.Base.Exec.{Exec, pure, raise, gets, modify, attempt, on_option, ◌>>=◌, ◌>>◌}
use twitch_car_factory.Control.Text.{Text, text}
use twitch_car_factory.Control.Channels.{
  Problem, archived, no_credentials, preset_required, normalize_channels, names,
}
use twitch_car_factory.Control.Model.{
  Account, Selection, Mode, default, custom, preset, mode_label, FarmConfiguration, Database,
}

-- ValidationError, and the DoesNotExist of a table.
pub data ServiceError : Type 0 where
  invalid : Problem → ServiceError
  no_account no_selection no_credential no_preset : ServiceError

abbrev pub Service : Type 0 → Type 0
Service A = Exec ServiceError Database A

-- What compute_configuration_fingerprint hashes.
pub record Payload : Type 0 where
  pub account_key : Text
  pub username : Text
  pub mode : Text
  pub source_name : Text
  pub channels : List Text

-- The code that is not in the repository: str.casefold on a text of any script, the JSON text that
-- json.dumps makes of a payload with sorted keys, the hexadecimal SHA-256 digest of a text, and the
-- cipher of passwords.
pub record Platform : Type 0 where
  pub casefold : Text → Text
  pub encode : Payload → Text
  pub digest : Text → Text
  pub encrypt : Text → Text
  pub decrypt : Text → Text

-- ChannelResolution
pub record ChannelResolution : Type 0 where
  pub mode : Mode
  pub source_name : Text
  pub channels : List Text
  pub fingerprint : Text

module _ {A : Type 0} where
  -- The ValidationError of a pure function.
  unfoldable pub check : Result Problem A → Service A
  check (ok a) = pure a
  check (err p) = raise (invalid p)

  -- A row that must be there.
  unfoldable pub required : ServiceError → Option A → Service A
  required e none = raise e
  required e (some a) = pure a

unfoldable pub require : Bool → Problem → Service (Unit {0})
require true p = pure tt
require false p = raise (invalid p)

unfoldable pub get_account : ℕ → Service Account
get_account id = gets (λ db. lookup id db.accounts) >>= required no_account

-- A write to one row of MinerAccount.
unfoldable pub put_account : ℕ → Account → Service (Unit {0})
put_account id account = modify λ db. record db { accounts = insert id account db.accounts }

-- FarmConfiguration.load
unfoldable pub load_configuration : Service FarmConfiguration
load_configuration = do
  stored ← gets (λ db. db.configuration)
  let fresh : FarmConfiguration = record { default_channels = []; autostart_new_accounts = false }
  modify λ db. record db { configuration = some (or_else stored fresh) }
  pure (or_else stored fresh)

-- `account.custom_channels.order_by("position", "id")`
abbrev pub custom_of : ℕ → Database → List Text
custom_of id db = or_else (lookup id db.custom_channels) []

module _ (p : Platform) where
  unfoldable pub compute_configuration_fingerprint : Text → Text → Mode → Text → List Text → Text
  compute_configuration_fingerprint account_key username mode source_name channels =
      let payload : Payload = record {
        account_key = account_key;
        username = p.casefold username;
        mode = mode_label mode;
        source_name = p.casefold source_name;
        channels = map p.casefold channels;
      } in
      p.digest (p.encode payload)

  -- The source of a selection's channels: its name and the names of the channels.
  unfoldable pub source_in : Mode → ℕ → Account → Option ℕ → Service (Text × List Text)
  source_in default id account preset_id = do
    configuration ← load_configuration
    channels ← check (normalize_channels (names configuration.default_channels) true)
    pure (text "farm defaults", channels)
  source_in custom id account preset_id = do
    stored ← gets (custom_of id)
    channels ← check (normalize_channels (names stored) true)
    pure (account.config_key, channels)
  source_in preset id account preset_id =
      on_option preset_id (raise (invalid preset_required)) λ key. do
        found ← gets (λ db. lookup key db.presets)
        chosen ← required no_preset found
        channels ← check (normalize_channels (names chosen.channels) true)
        pure (chosen.name, channels)

  -- resolve_channels, where `cached` is the selection that the account's object holds, if it does.
  unfoldable pub resolve_channels : ℕ → Account → Option Selection → Service ChannelResolution
  resolve_channels id account cached = do
    require account.is_active archived
    credential ← gets (λ db. lookup id db.credentials)
    require (is_some credential) no_credentials
    stored ← gets (λ db. lookup id db.selections)
    let absent : Selection = record { mode = default; preset_id = none }
    let selection = or_else cached (or_else stored absent)
    (source_name, channels) ← source_in selection.mode id account selection.preset_id
    pure (record {
      mode = selection.mode;
      source_name = source_name;
      channels = channels;
      fingerprint =
          compute_configuration_fingerprint account.config_key account.display_username
            selection.mode source_name channels;
    })

  -- The source that _best_effort_fingerprint looks at, if it does.
  unfoldable pub best_source : Mode → ℕ → Account → Option ℕ → Service (Option (Text × List Text))
  best_source default id account preset_id = pure none
  best_source custom id account preset_id = do
    source ← source_in custom id account preset_id
    pure (some source)
  best_source preset id account preset_id =
      on_option preset_id (pure none)
        λ key. do source ← source_in preset id account (some key); pure (some source)

  -- _best_effort_fingerprint
  unfoldable pub best_effort_fingerprint : ℕ → Account → Service Text
  best_effort_fingerprint id account = do
    stored ← gets (λ db. lookup id db.selections)
    selection ← required no_selection stored
    found ← best_source selection.mode id account selection.preset_id
    on_option found (pure []) λ source. pure (
        compute_configuration_fingerprint account.config_key account.display_username selection.mode
          source.0 source.1)

  -- `except (AccountChannelSelection.DoesNotExist, ValidationError): fingerprint = ""`
  unfoldable pub or_empty : Result ServiceError Text → Service Text
  or_empty (ok fingerprint) = pure fingerprint
  or_empty (err (invalid _)) = pure []
  or_empty (err no_selection) = pure []
  or_empty (err no_account) = raise no_account
  or_empty (err no_credential) = raise no_credential
  or_empty (err no_preset) = raise no_preset

  -- The outcome of resolve_channels, with the handler of its ValidationError.
  unfoldable pub settle_fingerprint :
      ℕ → Account → Result ServiceError ChannelResolution → Service Text
  settle_fingerprint id account (ok r) = pure r.fingerprint
  settle_fingerprint id account (err (invalid _)) =
      attempt (best_effort_fingerprint id account) >>= or_empty
  settle_fingerprint id account (err no_account) = raise no_account
  settle_fingerprint id account (err no_selection) = raise no_selection
  settle_fingerprint id account (err no_credential) = raise no_credential
  settle_fingerprint id account (err no_preset) = raise no_preset

  -- _refresh_account_fingerprint
  unfoldable pub refresh_account_fingerprint : ℕ → Account → Service (Unit {0})
  refresh_account_fingerprint id account = do
    resolved ← attempt (resolve_channels id account none)
    fingerprint ← settle_fingerprint id account resolved
    put_account id (record account { configuration_fingerprint = fingerprint })
