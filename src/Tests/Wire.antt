-- ===== src/Tests/Wire.antt =====
-- What a child reports, on a decoder that knows one payload.
use twitch_car_factory.Base.{
  false, none, some, [], ◌∷◌, ◌≡◌, refl, ◌++◌, any_of, contains, true, arith,
}
use twitch_car_factory.Base.Equality.{text_eq, nat_eq}
use twitch_car_factory.Base.Result.{ok, fold_ok}
use twitch_car_factory.Base.Yields.{OnOk}
use twitch_car_factory.Json.{obj, arr, cons, nil, str, field, end, find}
use twitch_car_factory.Control.Text.{
  text, is_space, strip, is_word, valid_channel, fold_case, split, is_separator,
}
use twitch_car_factory.Control.Channels.{append_channel, add_entry, normalize_channels}
use twitch_car_factory.Supervisor.State.{device_code, watching_channels}
use twitch_car_factory.Supervisor.Wire.{
  Decoder, Url, control_event_prefix, forbidden, field_names, valid_code, is_activation,
  parse_payload, parse_control_event, parse_value, parse_kind, watching_event, watching_lists,
  watched, same_fields,
}
use twitch_car_factory.Supervisor.Accepted.{IsWithin, parse_payload-IsWithin}
use twitch_car_factory.Supervisor.Delivered.{printed, parse_control_event-device_code}
use twitch_car_factory.Tests.Worker.{setup}

abbrev activation : Url
activation = record {
  scheme = text "https";
  hostname = text "www.twitch.tv";
  path = text "/activate";
}

-- `{}` stands for a device code.
abbrev decoder : Decoder
decoder = record {
  loads = λ t. some (obj (printed "AB-12" "https://www.twitch.tv/activate" 900));
  urlparse = λ t. some activation;
}

-- `[]` stands for one watched channel.
abbrev watcher : Decoder
watcher = record {
  loads = λ t. some (
      obj (
        field "event" (str "watching_channels")
          (field "channels" (arr (cons (str "ann_b") nil)) end)));
  urlparse = λ t. none;
}

watched_is_read :
    parse_payload setup watcher (91 ∷ 93 ∷ [])
    ≡ ok (watching_channels (text "ann_b" ∷ []) (text "ann_b" ∷ []))
unfolding parse_payload parse_value parse_kind watching_event watching_lists watched same_fields
    find text normalize_channels add_entry append_channel is_space strip is_word valid_channel
    fold_case fold_ok split is_separator
watched_is_read = refl

parse_payload-IsWithin_example : OnOk (IsWithin setup) (parse_payload setup watcher (91 ∷ 93 ∷ []))
parse_payload-IsWithin_example = parse_payload-IsWithin setup watcher (91 ∷ 93 ∷ [])

no_secret :
    any_of
      (λ k. contains k forbidden)
      (field_names (printed "AB-12" "https://www.twitch.tv/activate" 900))
    ≡ false
unfolding text
no_secret = refl

is_activated : is_activation activation ≡ true
unfolding is_activation text
is_activated = refl

code_is_valid : valid_code (text "AB-12") ≡ true
unfolding valid_code text
code_is_valid = refl

parse_control_event-device_code_example :
    parse_control_event setup decoder (control_event_prefix ++ (123 ∷ 125 ∷ []))
    ≡ some (ok (device_code (text "AB-12") (text "https://www.twitch.tv/activate") 900))
parse_control_event-device_code_example =
    parse_control_event-device_code setup decoder (123 ∷ 125 ∷ []) "AB-12"
      "https://www.twitch.tv/activate" activation 900 refl (omega arith) no_secret refl is_activated
      code_is_valid (omega arith) (omega arith)
