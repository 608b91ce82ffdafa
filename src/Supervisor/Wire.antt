-- ===== src/Supervisor/Wire.antt =====
-- _parse_control_event of controller/miner_supervisor.py: what a child may report.
pub mod Device
unfoldable pub use Device.*
use twitch_car_factory.Base.{
  ℕ, Bool, false, not, ◌&&◌, ◌||◌, Option, none, some, List, [], ◌∷◌, ◌==◌, nat_eq, string_eq,
  text_eq, ltb, leb, length, map, any_of, all_of, contains, if◌then◌else◌,
}
use twitch_car_factory.Base.Result.{Result, ok, err}
use twitch_car_factory.Json.{
  Value, Fields, obj, arr, str, null, int, float, bool, end, field, find, items_of, pos, negsuc,
}
use twitch_car_factory.Control.Text.{Text, text}
use twitch_car_factory.Control.Channels.{Problem, Entry, name, other, entries, normalize_channels}
use twitch_car_factory.Supervisor.State.{
  Setup, ControlEvent, device_code, authenticated, authentication_failed, watching_channels,
}
use twitch_car_factory.Supervisor.Process.{bounded_error}
use twitch_car_factory.Supervisor.Execute.{starts_with}

module _ {W : Type 0} (u : Setup W) where
  unfoldable pub failed_event : Fields → Option Text → Parsed
  failed_event fs none = err (text "Authentication-failure event has an invalid shape.")
  failed_event fs (some error) =
      if not (same_fields (text "event" ∷ text "error" ∷ []) fs)
      then err (text "Authentication-failure event has an invalid shape.")
      else ok (authentication_failed (bounded_error u 500 error))

  unfoldable pub watched :
      List Value → List Value → Result Problem (List Text) → Result Problem (List Text) → Parsed
  watched channels online (ok cs) (ok os) =
      if not (length cs == length channels) || not (length os == length online)
      then err (text "Watching-channels event has duplicate or empty channel names.")
      else if not
          (all_of (λ c. contains (u.platform.casefold c) (map (λ o. u.platform.casefold o) os)) cs)
      then err (text "Watching channels must be included in online channels.")
      else ok (watching_channels cs os)
  watched channels online (ok cs) (err p) =
      err (text "Watching-channels event has invalid channel names.")
  watched channels online (err p) r =
      err (text "Watching-channels event has invalid channel names.")

  unfoldable pub watching_lists : List Value → Option (List Value) → Parsed
  watching_lists channels none =
      err (text "Watching-channels event has an invalid online-channel list.")
  watching_lists channels (some online) =
      if ltb 2 (length channels) || ltb 1000 (length online)
      then err (text "Watching-channels event exceeded the channel limit.")
      else watched channels online (normalize_channels (entries (map entry_of channels)) false)
          (normalize_channels (entries (map entry_of online)) false)

  -- `event.get("online_channels", channels)`
  abbrev pub online_list : List Value → Option Value → Option (List Value)
  online_list channels none = some channels
  online_list channels (some v) = list_of (some v)

  unfoldable pub watching_event : Fields → Option (List Value) → Parsed
  watching_event fs none = err (text "Watching-channels event has an invalid shape.")
  watching_event fs (some channels) =
      if not (
        same_fields (text "event" ∷ text "channels" ∷ []) fs
        || same_fields (text "event" ∷ text "channels" ∷ text "online_channels" ∷ []) fs)
      then err (text "Watching-channels event has an invalid shape.")
      else watching_lists channels (online_list channels (find "online_channels" fs))

  unfoldable pub parse_kind : Decoder → Text → Text → Fields → Parsed
  parse_kind d payload kind fs =
      if any_of (λ k. contains (u.platform.casefold k) forbidden) (field_names fs)
      then err (text "Control event contained a forbidden secret field.")
      else if not (kind == text "watching_channels") && ltb 2048 (length payload)
      then err (text "Control event exceeded the size limit.")
      else if kind == text "device_code"
      then device_code_event d fs
      else if kind == text "authenticated"
      then (if not (same_fields (text "event" ∷ []) fs)
          then err (text "Authenticated event has unexpected fields.")
          else ok authenticated)
      else if kind == text "authentication_failed"
      then failed_event fs (text_of (find "error" fs))
      else if kind == text "watching_channels"
      then watching_event fs (list_of (find "channels" fs))
      else err (text "Control event type is unsupported.")

  abbrev pub bad_shape : Parsed
  bad_shape = err (text "Control event has an invalid shape.")

  abbrev pub parse_fields : Decoder → Text → Fields → Option Text → Parsed
  parse_fields d payload fs none = bad_shape
  parse_fields d payload fs (some kind) = parse_kind d payload kind fs

  unfoldable pub parse_value : Decoder → Text → Option Value → Parsed
  parse_value d payload none = err (text "Control event was not valid JSON.")
  parse_value d payload (some (obj fs)) = parse_fields d payload fs (text_of (find "event" fs))
  parse_value d payload (some (arr _)) = bad_shape
  parse_value d payload (some (str _)) = bad_shape
  parse_value d payload (some null) = bad_shape
  parse_value d payload (some (int _)) = bad_shape
  parse_value d payload (some (float _ _)) = bad_shape
  parse_value d payload (some (bool _)) = bad_shape

  unfoldable pub parse_payload : Decoder → Text → Parsed
  parse_payload d payload =
      if ltb 65536 (length payload)
      then err (text "Control event exceeded the size limit.")
      else parse_value d payload (d.loads payload)

  -- _parse_control_event: no event where the line has no prefix.
  unfoldable pub parse_control_event : Decoder → Text → Option Parsed
  parse_control_event d line =
      if not (starts_with control_event_prefix line)
      then none
      else some (parse_payload d (after control_event_prefix line))
