-- ===== src/Control/Channels.antt =====
-- normalize_channels of controller/services.py.
use twitch_car_factory.Base.{
  Bool, not, ◌&&◌, List, [], ◌∷◌, ◌++◌, contains, text_eq, is_empty, map, if◌then◌else◌,
}
use twitch_car_factory.Base.Result.{Result, ok, err, ◌>>=◌, fold_ok}
use twitch_car_factory.Control.Text.{Text, split, strip, valid_channel, fold_case}

-- What a ValidationError of controller/services.py says.
pub data Problem : Type 0 where
  not_iterable not_a_string invalid_channel no_channels archived no_credentials preset_required
        unknown_mode no_password bad_key bad_username empty_password long_password key_taken
        username_taken tv_login_only unknown_action unknown_auth_method unexpected_preset
        channels_required unexpected_channels bad_preset_name preset_taken preset_assigned
        bad_snapshot :
      Problem

-- An argument `value` of normalize_channels, and one of its entries.
pub data Entry : Type 0 where
  name : Text → Entry
  other : Entry

pub data ChannelInput : Type 0 where
  joined : Text → ChannelInput
  entries : List Entry → ChannelInput
  scalar : ChannelInput

-- The lists `channels` and `seen`.
abbrev pub Progress : Type 0
Progress = List Text × List Text

unfoldable pub append_channel : Text → Progress → Result Problem Progress
append_channel raw (channels, seen) =
    let channel = strip raw in
    if is_empty channel
    then ok (channels, seen)
    else if not (valid_channel channel)
    then err invalid_channel
    else if contains (fold_case channel) seen
    then ok (channels, seen)
    else ok (channels ++ (channel ∷ []), seen ++ (fold_case channel ∷ []))

unfoldable pub add_entry : Entry → Progress → Result Problem Progress
add_entry (name raw) p = fold_ok append_channel (split raw) p
add_entry other p = err not_a_string

abbrev pub raw_values : ChannelInput → Result Problem (List Entry)
raw_values (joined s) = ok (name s ∷ [])
raw_values (entries es) = ok es
raw_values scalar = err not_iterable

abbrev pub finish : Bool → Progress → Result Problem (List Text)
finish require_nonempty p = if require_nonempty && is_empty p.0 then err no_channels else ok p.0

unfoldable pub normalize_channels : ChannelInput → Bool → Result Problem (List Text)
normalize_channels value require_nonempty = do
  values ← raw_values value
  p ← fold_ok add_entry values ([], [])
  finish require_nonempty p

-- A list of names as an argument.
abbrev pub names : List Text → ChannelInput
names cs = entries (map name cs)
