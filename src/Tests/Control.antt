-- ===== src/Tests/Control.antt =====
-- The transactions of the control room on small databases.
use twitch_car_factory.Base.{
  true, false, none, some, List, [], ◌∷◌, ◌≡◌, refl, arith, map, is_empty,
}
use twitch_car_factory.Base.Result.{Result, ok, err, fold_ok}
use twitch_car_factory.Base.Dict.{lookup, insert}
use twitch_car_factory.Base.Exec.{atomic, on_option, raise, gets, modify, pure, ◌>>=◌}
use twitch_car_factory.Control.Text.{
  Text, text, valid_channel, fold_case, is_word, split, is_separator, strip, is_space,
}
use twitch_car_factory.Control.Channels.{
  append_channel, add_entry, joined, names, normalize_channels, no_channels,
}
use twitch_car_factory.Control.Normalized.{
  IsNormalized, normalize_channels-IsNormalized, normalize_channels-idempotent,
}
use twitch_car_factory.Control.Model.{
  as_action, saved, is_queued, Command, CommandAction, stop, queued, Account, twitch_tv, custom,
  FarmConfiguration, Database,
}
use twitch_car_factory.Control.Resolve.{
  resolve_channels, source_in, require, required, check, get_account,
  compute_configuration_fingerprint, ServiceError, Platform, invalid,
}
use twitch_car_factory.Control.Commands.{
  Request, enqueue_command, enqueue_action, require_launchable, get_or_create_state, save_state,
  log_action, earliest, cancel_command, cancel_pending, create_command, find_or_create,
  coalesce_command, supersede, stronger_than,
}
use twitch_car_factory.Control.Accounts.{AccountForm, start_created}
use twitch_car_factory.Control.Consistent.{IsConsistent}
use twitch_car_factory.Control.Calls.{
  Call, creating, configuring, enqueuing, perform, perform_all, perform_all-IsConsistent,
}
use twitch_car_factory.Control.Serving.{IsServed, enqueue_command-IsServed}
use twitch_car_factory.Control.Stopping.{IsStopping, enqueue_command-stop}
use twitch_car_factory.Control.Starting.{start_created-no_defaults}

-- "Ann, bob,,ANN"
abbrev typed : Text
typed = 65 ∷ 110 ∷ 110 ∷ 44 ∷ 32 ∷ 98 ∷ 111 ∷ 98 ∷ 44 ∷ 44 ∷ 65 ∷ 78 ∷ 78 ∷ []

abbrev ann_and_bob : List Text
ann_and_bob = (65 ∷ 110 ∷ 110 ∷ []) ∷ (98 ∷ 111 ∷ 98 ∷ []) ∷ []

typed_channels : normalize_channels (joined typed) true ≡ ok ann_and_bob
unfolding normalize_channels fold_ok add_entry split is_separator append_channel strip is_space
    valid_channel is_word fold_case
typed_channels = refl

normalize_channels-IsNormalized_example :
    IsNormalized ann_and_bob × (true ≡ true → is_empty ann_and_bob ≡ false)
normalize_channels-IsNormalized_example =
    normalize_channels-IsNormalized (joined typed) true ann_and_bob typed_channels

normalize_channels-idempotent_example : normalize_channels (names ann_and_bob) true ≡ ok ann_and_bob
normalize_channels-idempotent_example =
    normalize_channels-idempotent (joined typed) ann_and_bob typed_channels

abbrev platform : Platform
platform = record {
  casefold = λ t. t;
  encode = λ p. p.account_key;
  digest = λ t. t;
  encrypt = λ t. 1 ∷ t;
  decrypt = λ t. t;
}

abbrev request : Request
request = record { actor = some 1; now = 100 }

abbrev empty_database : Database
empty_database = record {
  accounts = [];
  credentials = [];
  session_seeds = [];
  selections = [];
  custom_channels = [];
  presets = [];
  configuration = none;
  states = [];
  commands = [];
  runs = [];
  action_logs = [];
  next_account = 1;
  next_preset = 1;
  next_command = 1;
  next_run = 1;
}

empty_database-IsConsistent : IsConsistent empty_database
empty_database-IsConsistent = record {
  one_active = λ id a. omega arith;
  matched = tt;
  presets_normal = tt;
  custom_normal = tt;
  defaults_normal = tt;
}

-- An account is made and started twice.
abbrev ann : AccountForm
ann = record {
  config_key = 65 ∷ [];
  username = 65 ∷ 110 ∷ 110 ∷ [];
  password = [];
  auth_method = none;
  mode = text "default";
  channels = none;
  preset_ref = none;
  start_after_save = true;
}

abbrev calls : List Call
calls =
    configuring (joined typed) false request
    ∷ creating ann request
    ∷ enqueuing 1 (text "start") request []
    ∷ enqueuing 1 (text "stop") request []
    ∷ enqueuing 1 (text "restart") request []
    ∷ enqueuing 1 (text "restart") request []
    ∷ []

perform_all-IsConsistent_example : IsConsistent (perform_all platform calls empty_database)
perform_all-IsConsistent_example =
    perform_all-IsConsistent platform calls empty_database empty_database-IsConsistent

-- An account with channels of its own, on a farm without default channels.
abbrev own_account : Account
own_account = record {
  config_key = 65 ∷ [];
  display_username = 65 ∷ 110 ∷ 110 ∷ [];
  is_active = true;
  channel_revision = 2;
  configuration_fingerprint = [];
}

abbrev bare_configuration : FarmConfiguration
bare_configuration = record { default_channels = []; autostart_new_accounts = false }

abbrev own_channels : Database
own_channels = record empty_database {
  accounts = (1, own_account) ∷ [];
  credentials = (1, record { auth_method = twitch_tv; password_ciphertext = [] }) ∷ [];
  selections = (1, record { mode = custom; preset_id = none }) ∷ [];
  custom_channels = (1, ann_and_bob) ∷ [];
  configuration = some bare_configuration;
}

start_created-no_defaults_example :
    (start_created platform 1 twitch_tv request own_channels).0 ≡ err (invalid no_channels)
unfolding lookup
start_created-no_defaults_example =
    start_created-no_defaults platform 1 twitch_tv request own_channels own_account
      bare_configuration refl refl refl refl refl

-- Two starts, a stop and two restarts leave a cancelled start, a cancelled stop and one restart.
abbrev presses : List Call
presses =
    map (λ a. enqueuing 1 (text a) request [])
      ("start" ∷ "start" ∷ "stop" ∷ "restart" ∷ "restart" ∷ [])

three_commands :
    map (λ c. is_queued c.status) (perform_all platform presses own_channels).commands
    ≡ (false ∷ false ∷ true ∷ [])
unfolding perform_all perform enqueue_command atomic on_option as_action text raise enqueue_action
    require_launchable resolve_channels source_in require required check get_account gets modify
    pure ◌>>=◌ lookup insert get_or_create_state save_state saved log_action earliest cancel_command
    cancel_pending create_command find_or_create coalesce_command supersede stronger_than
    compute_configuration_fingerprint normalize_channels fold_ok add_entry split is_separator
    append_channel strip is_space valid_channel is_word fold_case
three_commands = refl

-- A stop on the farm of `own_channels`.
abbrev stop_outcome : Result ServiceError Command × Database
stop_outcome = enqueue_command platform 1 (text "stop") request [] own_channels

abbrev stop_command : Command
stop_command = record {
  command_id = 1;
  account_id = 1;
  action = stop;
  status = queued;
  actor = some 1;
  reason = [];
  lease_owner = [];
  lease_expires_at = none;
  attempts = 0;
  error = [];
  created_at = 100;
  leased_at = none;
  completed_at = none;
}

stop_returns : stop_outcome ≡ (ok stop_command, stop_outcome.1)
unfolding enqueue_command atomic on_option as_action text raise enqueue_action get_account required
    gets modify pure ◌>>=◌ lookup insert get_or_create_state save_state saved log_action earliest
    cancel_command cancel_pending create_command find_or_create coalesce_command supersede
    stronger_than
stop_returns = refl

enqueue_command-IsServed_example :
    (a : CommandAction) × (as_action (text "stop") ≡ some a)
    × IsServed 1 a stop_command stop_outcome.1
enqueue_command-IsServed_example =
    enqueue_command-IsServed platform 1 (text "stop") request [] own_channels stop_outcome.1
      stop_command stop_returns

enqueue_command-stop_example :
    (c : Command) × (after : Database) × (enqueue_command platform 1
        (text "stop")
        request
        []
        own_channels
      ≡ (ok c, after))
    × IsStopping 1 c after
unfolding lookup
enqueue_command-stop_example =
    enqueue_command-stop platform 1 request [] own_channels own_account refl
