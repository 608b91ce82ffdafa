-- ===== src/Control/Accounts/Parts.antt =====
-- The parts of create_account and update_account of controller/services.py that need no platform.
use twitch_car_factory.Base.{
  ℕ, suc, Bool, true, false, not, ◌&&◌, ◌||◌, Option, none, some, [], ◌==◌, text_eq, nat_eq,
  is_empty, any_of, ltb, length, or_else, if◌then◌else◌,
}
use twitch_car_factory.Base.Dict.{insert}
use twitch_car_factory.Base.Result.{Result, ok, err}
use twitch_car_factory.Base.Exec.{pure, gets, modify, ◌>>=◌, ◌>>◌}
use twitch_car_factory.Control.Text.{Text, strip, valid_channel, fold_case}
use twitch_car_factory.Control.Channels.{
  Problem, ChannelInput, bad_key, bad_username, empty_password, long_password,
}
use twitch_car_factory.Control.Model.{
  AuthMethod, twitch_tv, legacy_password, is_tv, auth_label, Selection, default, new_state,
  unlinked, authenticated, saved, Database,
}
use twitch_car_factory.Control.Resolve.{Service, Platform}
use twitch_car_factory.Control.Commands.{Request}
use twitch_car_factory.Control.Selections.{PresetRef}

-- _normalize_account_identity
unfoldable pub normalize_account_identity : Text → Text → Result Problem (Text × Text)
normalize_account_identity config_key username =
    let key = strip config_key in
    let clean_username = strip username in
    if is_empty key || ltb 150 (length key)
    then err bad_key
    else if not (valid_channel clean_username)
    then err bad_username
    else ok (key, clean_username)

-- _validate_password
unfoldable pub validate_password : Text → Result Problem Text
validate_password password =
    if is_empty (strip password)
    then err empty_password
    else if ltb 4096 (length password)
    then err long_password
    else ok password

-- `MinerAccount.objects.filter(config_key__iexact=key).exists()`
abbrev pub key_in_use : Text → Database → Bool
key_in_use key db = any_of (λ a. fold_case a.1.config_key == fold_case key) db.accounts

-- The same test on user names, which passes over the account `except`.
abbrev pub username_in_use : Text → Option ℕ → Database → Bool
username_in_use username except db =
    any_of
      (λ a.
        (not (elim except [ none ↦ false | some id ↦ a.0 == id ]))
        && fold_case a.1.display_username == fold_case username)
      db.accounts

-- The arguments of create_account.
pub record AccountForm : Type 0 where
  pub config_key : Text
  pub username : Text
  pub password : Text
  pub auth_method : Option Text
  pub mode : Text
  pub channels : Option ChannelInput
  pub preset_ref : Option PresetRef
  pub start_after_save : Bool

-- `auth_method or (LEGACY_PASSWORD if password else TWITCH_TV)`
unfoldable pub requested_method : AccountForm → Text
requested_method form =
    let given = or_else form.auth_method [] in
    if not (is_empty given)
    then given
    else if is_empty form.password
    then auth_label twitch_tv
    else auth_label legacy_password

-- `x` and a password's ciphertext, where an empty secret is not encrypted.
abbrev pub sealed : Platform → Text → Text
sealed p secret = if is_empty secret then [] else p.encrypt secret

-- The rows of a new account.
unfoldable pub insert_account : Platform → Text → Text → AuthMethod → Text → Request → Service ℕ
insert_account p key username method secret request = do
  id ← gets (λ db. db.next_account)
  modify λ db. record db {
    next_account = suc id;
    accounts =
        insert id
          (record {
            config_key = key;
            display_username = username;
            is_active = true;
            channel_revision = 1;
            configuration_fingerprint = [];
          })
          db.accounts;
    credentials =
        insert id (record { auth_method = method; password_ciphertext = sealed p secret })
          db.credentials;
    selections = insert id (record { mode = default; preset_id = none }) db.selections;
    states =
        insert id
          (saved (record new_state {
            authentication_status = if is_tv method then unlinked else authenticated;
            authentication_updated_at = some request.now;
          }))
          db.states;
  }
  pure id

-- What the object `account` of create_account goes on to hold as its selection: the row that was
-- created with it, also when set_account_channel_selection has changed the table since.
abbrev pub created_selection : Selection
created_selection = record { mode = default; preset_id = none }
