-- ===== src/Control/Accounts.antt =====
-- create_account, update_account, request_tv_authentication and get_account_password of
-- controller/services.py.
pub mod Parts
unfoldable pub use Parts.*
use twitch_car_factory.Base.{
  ℕ, suc, Bool, true, false, not, ◌&&◌, ◌||◌, Option, none, some, [], ◌∷◌, ◌++◌, ◌==◌, text_eq,
  nat_eq, is_some, is_empty, any_of, ltb, length, or_else, if◌then◌else◌,
}
use twitch_car_factory.Base.Dict.{lookup, insert, erase}
use twitch_car_factory.Base.Result.{Result, ok, err}
use twitch_car_factory.Base.Exec.{pure, raise, gets, modify, atomic, on_option, ◌>>=◌, ◌>>◌}
use twitch_car_factory.Control.Text.{Text, text, strip, valid_channel, fold_case}
use twitch_car_factory.Control.Channels.{
  Problem, ChannelInput, bad_key, bad_username, empty_password, long_password, key_taken,
  username_taken, tv_login_only, unknown_auth_method, no_password, archived,
}
use twitch_car_factory.Control.Model.{
  Account, AuthMethod, twitch_tv, legacy_password, is_tv, as_auth_method, auth_label, Selection,
  default, new_state, unlinked, authenticated, words, flag, number, wants_running, saved, Command,
  Database,
}
use twitch_car_factory.Control.Resolve.{
  invalid, no_credential, Service, Platform, check, required, require, get_account, put_account,
  resolve_channels, refresh_account_fingerprint,
}
use twitch_car_factory.Control.Commands.{
  Request, get_or_create_state, save_state, log_action, enqueue_command,
}
use twitch_car_factory.Control.Selections.{PresetRef, set_account_channel_selection}

module _ (p : Platform) where
  -- The durable start of a new account.
  unfoldable pub start_created : ℕ → AuthMethod → Request → Service (Unit {0})
  start_created id method request = do
    account ← get_account id
    resolve_channels p id account (some created_selection)
    enqueue_command p id (if is_tv method then text "authenticate" else text "start") request
        (text "Start requested while creating the account.")
    pure tt

  unfoldable pub create_account : AccountForm → Request → Service ℕ
  create_account form request = atomic (do
    (key, username) ← check (normalize_account_identity form.config_key form.username)
    method ←
        on_option (as_auth_method (requested_method form)) (raise (invalid unknown_auth_method))
          pure
    secret ← if is_tv method then pure [] else check (validate_password form.password)
    taken ← gets (key_in_use key)
    require (not taken) key_taken
    managed ← gets (username_in_use username none)
    require (not managed) username_taken
    id ← insert_account p key username method secret request
    if not (form.mode == text "default") || is_some form.channels || is_some form.preset_ref
        then (set_account_channel_selection p id form.mode form.channels form.preset_ref request
              false
            >> pure tt)
        else (get_account id >>= refresh_account_fingerprint p id)
    log_action (record {
      actor = request.actor;
      account = some id;
      action = text "account_created";
      message = text "Created account " ++ key ++ text ".";
      details = ("username", words username) ∷ ("auth_method", words (auth_label method)) ∷ [];
    })
    if form.start_after_save then start_created id method request else pure tt
    pure id)

  -- The new password of update_account.
  unfoldable pub replace_password : ℕ → Text → Service (Unit {0})
  replace_password id password = do
    found ← gets (λ db. lookup id db.credentials)
    credential ← required no_credential found
    require (not (is_tv credential.auth_method)) tv_login_only
    secret ← check (validate_password password)
    modify λ db. record db {
      credentials =
          insert id
            (record { auth_method = legacy_password; password_ciphertext = p.encrypt secret })
            db.credentials;
    }

  -- The new user name of update_account.
  unfoldable pub rename_account : ℕ → Account → Text → Service (Unit {0})
  rename_account id account username = do
    put_account id (record account { display_username = username })
    modify λ db. record db { session_seeds = erase id db.session_seeds }

  unfoldable pub update_account : ℕ → Text → Option Text → Request → Service (Unit {0})
  update_account id username password request = atomic (do
    account ← get_account id
    (_, clean_username) ← check (normalize_account_identity account.config_key username)
    managed ← gets (username_in_use clean_username (some id))
    require (not managed) username_taken
    let username_changed = not (account.display_username == clean_username)
    let secret = or_else password []
    let credential_changed = not (is_empty secret)
    if username_changed then rename_account id account clean_username else pure tt
    if credential_changed then replace_password id secret else pure tt
    renamed ← get_account id
    refresh_account_fingerprint p id renamed
    log_action (record {
      actor = request.actor;
      account = some id;
      action = text "account_updated";
      message = text "Updated account " ++ account.config_key ++ text ".";
      details =
          ("username_changed", flag username_changed)
          ∷ ("credential_changed", flag credential_changed)
          ∷ [];
    })
    state ← get_or_create_state id
    if account.is_active
          && (username_changed || credential_changed)
          && wants_running state.desired_state
        then (enqueue_command p id (text "restart") request (text "Account credentials changed.")
            >> pure tt)
        else pure tt)

  unfoldable pub request_tv_authentication : ℕ → Request → Service Command
  request_tv_authentication id request = atomic (do
    account ← get_account id
    require account.is_active archived
    modify λ db. record db {
      credentials =
          insert id (record { auth_method = twitch_tv; password_ciphertext = [] }) db.credentials;
    }
    state ← get_or_create_state id
    save_state id (record state {
      authentication_status = unlinked;
      authentication_uri = [];
      authentication_code = [];
      authentication_expires_at = none;
      authentication_error = [];
      authentication_updated_at = some request.now;
    })
    command ←
        enqueue_command p id (text "authenticate") request
          (text "Twitch TV connection requested from the web control room.")
    log_action (record {
      actor = request.actor;
      account = some id;
      action = text "authentication_tv_requested";
      message = text "Requested Twitch TV authentication for " ++ account.config_key ++ text ".";
      details = ("command_id", number command.command_id) ∷ [];
    })
    pure command)

  unfoldable pub get_account_password : ℕ → Service Text
  get_account_password id = do
    found ← gets (λ db. lookup id db.credentials)
    on_option found (raise (invalid no_password)) λ credential.
        if is_tv credential.auth_method
        then pure []
        else if is_empty credential.password_ciphertext
        then raise (invalid no_password)
        else pure (p.decrypt credential.password_ciphertext)
