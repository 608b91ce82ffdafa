-- ===== src/Supervisor/Delivered.antt =====
-- What _parse_control_event of controller/miner_supervisor.py reads of a device code that a child reports.
use twitch_car_factory.Base.{
  if_true, if_false, ℕ, ◌≤◌, true, false, not, ◌&&◌, Option, none, some, [], ◌∷◌, ◌≡◌, refl, String,
  ltb, arith, length, ◌∙◌, ◌++◌, ap, any_of, contains, ◌==◌, nat_eq, text_eq,
}
use twitch_car_factory.Base.Result.{ok, err}
use twitch_car_factory.Json.{Fields, end, field, str, int, pos, obj, find}
use twitch_car_factory.Control.Text.{Text, text}
use twitch_car_factory.Supervisor.State.{Setup, device_code}
use twitch_car_factory.Supervisor.Execute.{starts_with}
use twitch_car_factory.Supervisor.Wire.{
  Decoder, Url, Parsed, is_activation, valid_code, expiring, activating, device_event,
  device_code_event, same_fields, parse_kind, parse_value, parse_payload, parse_control_event,
  control_event_prefix, after, forbidden, field_names,
}

-- The event of a device code.
abbrev pub printed : String → String → ℕ → Fields
printed code uri n = field "event" (str "device_code") (
    field "user_code" (str code)
      (field "verification_uri" (str uri) (field "expires_in" (int (pos n)) end)))

device_event-valid :
    (code uri : Text) (url : Url) (n : ℕ)
    → valid_code code ≡ true
    → is_activation url ≡ true
    → 1 ≤ n
    → n ≤ 3600
    → device_event (some code) uri url (some n) ≡ ok (device_code code uri n)
unfolding device_event activating expiring
device_event-valid code uri url n v a h k = ground (arith, v, a, h, k)

urlparsed_at :
    (o : Option Url) (url : Url) (code : Option Text) (uri : Text) (n : Option ℕ)
    → o ≡ some url
    → elim o as (λ _. Parsed) [
      | none ↦ err (text "urlparse")
      | some url ↦ device_event code uri url n
    ]
      ≡ device_event code uri url n
urlparsed_at o url code uri n e = rw e

device_code_event-printed :
    (d : Decoder) (code uri : String) (url : Url) (n : ℕ)
    → d.urlparse (text uri) ≡ some url
    → valid_code (text code) ≡ true
    → is_activation url ≡ true
    → 1 ≤ n
    → n ≤ 3600
    → device_code_event d (printed code uri n) ≡ ok (device_code (text code) (text uri) n)
unfolding device_code_event same_fields find text
device_code_event-printed d code uri url n e v a h k =
    urlparsed_at (d.urlparse (text uri)) url (some (text code)) (text uri) (some n) e
    ∙ device_event-valid (text code) (text uri) url n v a h k

same_event : (text "device_code" == text "device_code") ≡ true
unfolding text
same_event = refl

other_event : (text "device_code" == text "watching_channels") ≡ false
unfolding text
other_event = refl

starts_with-append : (p t : Text) → starts_with p (p ++ t) ≡ true
starts_with-append [] t = refl
starts_with-append (c ∷ p) t = grind (arith, starts_with-append p t, nat_eq.agrees c c)

after-append : (p t : Text) → after p (p ++ t) ≡ t
after-append [] t = refl
after-append (c ∷ p) t = after-append p t

module _ {W : Type 0} (u : Setup W) where
  parse_kind-printed :
      (d : Decoder) (payload : Text) (code uri : String) (n : ℕ)
      → any_of (λ k. contains (u.platform.casefold k) forbidden) (field_names (printed code uri n))
        ≡ false
      → length payload ≤ 2048
      → parse_kind u d payload (text "device_code") (printed code uri n)
        ≡ device_code_event d (printed code uri n)
  unfolding parse_kind
  parse_kind-printed d payload code uri n f h =
      if_false
        (any_of (λ k. contains (u.platform.casefold k) forbidden)
          (field_names (printed code uri n)))
        _ _ f
      ∙ if_false (not (text "device_code" == text "watching_channels") && ltb 2048 (length payload))
          _ _ (ground (arith, h, other_event))
      ∙ if_true (text "device_code" == text "device_code") _ _ same_event

  parse_payload-long :
      (d : Decoder) (payload : Text)
      → length payload ≤ 2048
      → parse_payload u d payload ≡ parse_value u d payload (d.loads payload)
  unfolding parse_payload
  parse_payload-long d payload h = ground (arith, h)

  parse_value-printed :
      (d : Decoder) (payload : Text) (code uri : String) (n : ℕ)
      → parse_value u d payload (some (obj (printed code uri n)))
        ≡ parse_kind u d payload (text "device_code") (printed code uri n)
  unfolding parse_value find
  parse_value-printed d payload code uri n = refl

  parse_control_event-prefixed :
      (d : Decoder) (payload : Text)
      → parse_control_event u d (control_event_prefix ++ payload) ≡ some (parse_payload u d payload)
  unfolding parse_control_event
  parse_control_event-prefixed d payload =
      rw
        (starts_with-append control_event_prefix payload, after-append control_event_prefix payload)

  -- A line of the prefix and a payload of 2048 characters at most that is the JSON of a device-code event,
  -- none of whose field names folds to a forbidden one, is read as that device code, where the code has 4
  -- to 32 characters of A-Z, 0-9 and "-", the URI is that of the activation page, and the code expires in
  -- 1 to 3600 seconds.
  pub parse_control_event-device_code :
      (d : Decoder) (payload : Text) (code uri : String) (url : Url) (n : ℕ)
      → d.loads payload ≡ some (obj (printed code uri n))
      → length payload ≤ 2048
      → any_of (λ k. contains (u.platform.casefold k) forbidden) (field_names (printed code uri n))
        ≡ false
      → d.urlparse (text uri) ≡ some url
      → is_activation url ≡ true
      → valid_code (text code) ≡ true
      → 1 ≤ n
      → n ≤ 3600
      → parse_control_event u d (control_event_prefix ++ payload)
        ≡ some (ok (device_code (text code) (text uri) n))
  parse_control_event-device_code d payload code uri url n l s f e a v h k =
      parse_control_event-prefixed d payload
      ∙ ap some (
          parse_payload-long d payload s
          ∙ ap (parse_value u d payload) l
          ∙ parse_value-printed d payload code uri n
          ∙ parse_kind-printed d payload code uri n f s
          ∙ device_code_event-printed d code uri url n e v a h k)
