-- ===== src/Control/Model/Rows.antt =====
-- The rows of controller/models.py. A table with one row for each account is a dict from the
-- account's primary key, and keys grow, so a dict's order is the order of the keys.
use twitch_car_factory.Base.{ℕ, String, Bool, Option, List, text_eq}
use twitch_car_factory.Base.Dict.{Dict}
use twitch_car_factory.Control.Text.{Text}

pub data AuthMethod : Type 0 where
  twitch_tv legacy_password : AuthMethod

pub data Mode : Type 0 where
  default custom preset : Mode

pub data DesiredState : Type 0 where
  stopped running : DesiredState

pub data ObservedState : Type 0 where
  starting is_running stopping is_stopped restarting degraded unknown : ObservedState

pub data AuthenticationStatus : Type 0 where
  unlinked pending authenticated reauth_required : AuthenticationStatus

pub data CommandAction : Type 0 where
  start stop restart authenticate : CommandAction

pub data CommandStatus : Type 0 where
  queued leased succeeded failed cancelled : CommandStatus

pub data StopReason : Type 0 where
  not_stopped admin_stop config_restart admin_restart supervisor_shutdown unexpected_exit
        start_failed authentication_failed authentication_reset :
      StopReason

-- MinerAccount
pub record Account : Type 0 where
  pub config_key : Text
  pub display_username : Text
  pub is_active : Bool
  pub channel_revision : ℕ
  pub configuration_fingerprint : Text

-- AccountCredential
pub record Credential : Type 0 where
  pub auth_method : AuthMethod
  pub password_ciphertext : Text

-- AccountChannelSelection
pub record Selection : Type 0 where
  pub mode : Mode
  pub preset_id : Option ℕ

-- ChannelPreset with its PresetChannel rows in the order of their positions.
pub record Preset : Type 0 where
  pub name : Text
  pub channels : List Text

pub record FarmConfiguration : Type 0 where
  pub default_channels : List Text
  pub autostart_new_accounts : Bool

-- MinerRun
pub record Run : Type 0 where
  pub run_id : ℕ
  pub account_id : ℕ
  pub source_mode : Mode
  pub source_name : Text
  pub channels : List Text
  pub fingerprint : Text
  pub revision : ℕ
  pub method : AuthMethod
  pub reset_session : Bool
  pub worker_id : Text
  pub pid : Option ℕ
  pub startup_confirmed_at : Option ℕ
  pub ended_at : Option ℕ
  pub exit_code : Option ℕ
  pub exit_signal : Option ℕ
  pub stop_reason : StopReason
  pub error : Text

-- MinerInstanceState
pub record InstanceState : Type 0 where
  pub desired_state : DesiredState
  pub observed_state : ObservedState
  pub current_run : Option ℕ
  pub advisory_pid : Option ℕ
  pub worker_id : Text
  pub retry_count : ℕ
  pub next_retry_at : Option ℕ
  pub stable_since : Option ℕ
  pub last_heartbeat : Option ℕ
  pub watching_channels : List Text
  pub online_channels : List Text
  pub watching_updated_at : Option ℕ
  pub last_error : Text
  pub authentication_status : AuthenticationStatus
  pub authentication_uri : Text
  pub authentication_code : Text
  pub authentication_expires_at : Option ℕ
  pub authentication_error : Text
  pub authentication_updated_at : Option ℕ

-- MinerCommand
pub record Command : Type 0 where
  pub command_id : ℕ
  pub account_id : ℕ
  pub action : CommandAction
  pub status : CommandStatus
  pub actor : Option ℕ
  pub reason : Text
  pub lease_owner : Text
  pub lease_expires_at : Option ℕ
  pub attempts : ℕ
  pub error : Text
  pub created_at : ℕ
  pub leased_at : Option ℕ
  pub completed_at : Option ℕ

-- A value in the details of an ActionLog.
pub data Detail : Type 0 where
  flag : Bool → Detail
  number : ℕ → Detail
  words : Text → Detail
  listing : List Text → Detail
  nothing : Detail

pub record ActionLog : Type 0 where
  pub actor : Option ℕ
  pub account : Option ℕ
  pub action : Text
  pub message : Text
  pub details : List (String × Detail)

pub record Database : Type 0 where
  pub accounts : Dict ℕ Account
  pub credentials : Dict ℕ Credential
  pub session_seeds : Dict ℕ Text
  pub selections : Dict ℕ Selection
  pub custom_channels : Dict ℕ (List Text)
  pub presets : Dict ℕ Preset
  pub configuration : Option FarmConfiguration
  pub states : Dict ℕ InstanceState
  pub commands : List Command
  pub runs : List Run
  pub action_logs : List ActionLog
  pub next_account : ℕ
  pub next_preset : ℕ
  pub next_command : ℕ
  pub next_run : ℕ
