-- ===== src/Control/Model.antt =====
-- The labels of the enumerations, the new rows and the save hooks of controller/models.py.
pub mod Rows
unfoldable pub use Rows.*
use twitch_car_factory.Base.{
  ℕ, String, Bool, true, false, ◌||◌, Option, none, some, List, [], nat_beq, ◌==◌, text_eq, is_some,
  is_empty, any_of, not, if◌then◌else◌,
}
use twitch_car_factory.Base.Dict.{Dict}
use twitch_car_factory.Base.Result.{Result, ok, err}
use twitch_car_factory.Control.Text.{Text, text, strip}
use twitch_car_factory.Control.Channels.{Problem, bad_snapshot, Entry, name, other}

abbrev action_number : CommandAction → ℕ
action_number start = 0
action_number stop = 1
action_number restart = 2
action_number authenticate = 3

abbrev pub same_action : CommandAction → CommandAction → Bool
same_action a b = nat_beq (action_number a) (action_number b)

abbrev pub is_queued : CommandStatus → Bool
is_queued queued = true
is_queued leased = false
is_queued succeeded = false
is_queued failed = false
is_queued cancelled = false

abbrev pub is_leased : CommandStatus → Bool
is_leased queued = false
is_leased leased = true
is_leased succeeded = false
is_leased failed = false
is_leased cancelled = false

abbrev pub wants_running : DesiredState → Bool
wants_running stopped = false
wants_running running = true

abbrev pub is_tv : AuthMethod → Bool
is_tv twitch_tv = true
is_tv legacy_password = false

abbrev pub is_default : Mode → Bool
is_default default = true
is_default custom = false
is_default preset = false

abbrev pub action_label : CommandAction → Text
action_label start = text "start"
action_label stop = text "stop"
action_label restart = text "restart"
action_label authenticate = text "authenticate"

abbrev pub mode_label : Mode → Text
mode_label default = text "default"
mode_label custom = text "custom"
mode_label preset = text "preset"

abbrev pub auth_label : AuthMethod → Text
auth_label twitch_tv = text "twitch_tv"
auth_label legacy_password = text "legacy_password"

-- `MinerCommand.Action(value)`, and the other enumerations of texts, where `none` is a ValueError.
unfoldable pub as_action : Text → Option CommandAction
as_action t =
    if t == text "start"
    then some start
    else if t == text "stop"
    then some stop
    else if t == text "restart"
    then some restart
    else if t == text "authenticate"
    then some authenticate
    else none

unfoldable pub as_mode : Text → Option Mode
as_mode t =
    if t == text "default"
    then some default
    else if t == text "custom"
    then some custom
    else if t == text "preset"
    then some preset
    else none

unfoldable pub as_auth_method : Text → Option AuthMethod
as_auth_method t =
    if t == text "twitch_tv"
    then some twitch_tv
    else if t == text "legacy_password"
    then some legacy_password
    else none

-- A new row of MinerInstanceState.
abbrev pub new_state : InstanceState
new_state = record {
  desired_state = stopped;
  observed_state = unknown;
  current_run = none;
  advisory_pid = none;
  worker_id = [];
  retry_count = 0;
  next_retry_at = none;
  stable_since = none;
  last_heartbeat = none;
  watching_channels = [];
  online_channels = [];
  watching_updated_at = none;
  last_error = [];
  authentication_status = unlinked;
  authentication_uri = [];
  authentication_code = [];
  authentication_expires_at = none;
  authentication_error = [];
  authentication_updated_at = none;
}

abbrev is_watching : ObservedState → Bool
is_watching starting = true
is_watching is_running = true
is_watching stopping = false
is_watching is_stopped = false
is_watching restarting = false
is_watching degraded = false
is_watching unknown = false

-- MinerInstanceState.save, for the row that is written.
unfoldable pub saved : InstanceState → InstanceState
saved s =
    if not (is_some s.current_run) || not (is_watching s.observed_state)
    then record s { watching_channels = []; online_channels = []; watching_updated_at = none }
    else s

-- validate_channel_snapshot
unfoldable pub validate_channel_snapshot : List Entry → Result Problem (Unit {0})
validate_channel_snapshot value =
    if is_empty value
    then err bad_snapshot
    else if any_of (λ e. elim e [ name t ↦ is_empty (strip t) | other ↦ true ]) value
    then err bad_snapshot
    else ok tt
