-- ===== src/Supervisor/Accepted.antt =====
-- What _parse_control_event of controller/miner_supervisor.py lets through.
use twitch_car_factory.Base.{
  ℕ, zero, suc, ◌≤◌, Bool, true, false, not, ◌&&◌, ◌||◌, Option, none, some, List, [], ◌∷◌, ◌≡◌,
  refl, ◌==◌, nat_eq, text_eq, leb, ltb, length, take, map, all_of, any_of, filter_by, contains,
  arith,
}
use twitch_car_factory.Base.Result.{Result, ok, err}
use twitch_car_factory.Base.Yields.{OnOk, OnOk-unless, OnOk-if}
use twitch_car_factory.Json.{Value, Fields, obj, arr, str, null, int, float, bool, find}
use twitch_car_factory.Control.Text.{Text, text}
use twitch_car_factory.Control.Channels.{Problem, entries}
use twitch_car_factory.Control.Normalized.{IsNormalized, normalize_channels-IsNormalized}
use twitch_car_factory.Supervisor.State.{
  Setup, ControlEvent, device_code, authenticated, authentication_failed, watching_channels,
}
use twitch_car_factory.Supervisor.Process.{bounded_error}
use twitch_car_factory.Supervisor.Wire.{
  Decoder, Url, Parsed, valid_code, is_activation, expiring, activating, device_event,
  device_code_event, failed_event, watched, watching_lists, watching_event, parse_kind,
  parse_fields, parse_value, parse_payload, forbidden, field_names, entry_of, text_of, list_of,
  count_of, online_list, same_fields, blank_or,
}

length-take : {A : Type 0} (n : ℕ) (xs : List A) → length (take n xs) ≤ n
length-take zero xs = omega arith
length-take (suc n) [] = omega arith
length-take (suc n) (x ∷ xs) = omega (arith, length-take n xs)

module _ {W : Type 0} (u : Setup W) where
  -- Each of the channels that are watched is online, in any case.
  abbrev pub all_online : List Text → List Text → Bool
  all_online cs os =
      all_of (λ c. contains (u.platform.casefold c) (map (λ o. u.platform.casefold o) os)) cs

  -- An event within the limits.
  abbrev pub IsWithin : ControlEvent → Type 0
  IsWithin (device_code code uri n) = (valid_code code ≡ true) × (1 ≤ n) × (n ≤ 3600)
  IsWithin authenticated = Unit
  IsWithin (authentication_failed error) = length error ≤ 500
  IsWithin (watching_channels cs os) =
      IsNormalized cs
      × IsNormalized os
      × (length cs ≤ 2)
      × (length os ≤ 1000)
      × (all_online cs os ≡ true)

  expiring-IsWithin :
      (code uri : Text) (n : Option ℕ)
      → valid_code code ≡ true
      → OnOk IsWithin (expiring code uri n)
  unfolding expiring
  expiring-IsWithin code uri none v = tt
  expiring-IsWithin code uri (some n) v =
      OnOk-unless IsWithin (not (leb 1 n && leb n 3600)) _ _
        (λ h. (v, ground (arith, h), ground (arith, h)))

  device_event-IsWithin :
      (code : Option Text) (uri : Text) (url : Url) (n : Option ℕ)
      → OnOk IsWithin (device_event code uri url n)
  unfolding device_event activating
  device_event-IsWithin none uri url n = tt
  device_event-IsWithin (some code) uri url n =
      OnOk-unless IsWithin (not (valid_code code)) _ _ (λ h.
        OnOk-unless IsWithin (not (is_activation url)) _ _
          (λ k. expiring-IsWithin code uri n (ground (arith, h))))

  urlparsed :
      (o : Option Url) (code : Option Text) (uri : Text) (n : Option ℕ)
      → OnOk IsWithin (elim o as (λ _. Parsed) [
        | none ↦ err (text "urlparse")
        | some url ↦ device_event code uri url n
      ])
  urlparsed none code uri n = tt
  urlparsed (some url) code uri n = device_event-IsWithin code uri url n

  device_code_event-IsWithin : (d : Decoder) (fs : Fields) → OnOk IsWithin (device_code_event d fs)
  unfolding device_code_event
  device_code_event-IsWithin d fs =
      OnOk-unless IsWithin
        (not (
          same_fields
            (text "event" ∷ text "user_code" ∷ text "verification_uri" ∷ text "expires_in" ∷ [])
            fs))
        _ _
        (λ h.
          urlparsed (d.urlparse (blank_or (text_of (find "verification_uri" fs))))
            (text_of (find "user_code" fs)) (blank_or (text_of (find "verification_uri" fs)))
            (count_of (find "expires_in" fs)))

  failed_event-IsWithin :
      (fs : Fields) (error : Option Text) → OnOk IsWithin (failed_event u fs error)
  unfolding failed_event bounded_error
  failed_event-IsWithin fs none = tt
  failed_event-IsWithin fs (some error) =
      OnOk-unless IsWithin (not (same_fields (text "event" ∷ text "error" ∷ []) fs)) _ _
        (λ h. length-take 500 (u.redact (filter_by (λ c. not (c == 0)) error)))

  watched-IsWithin :
      (channels online : List Value) (r r' : Result Problem (List Text))
      → length channels ≤ 2
      → length online ≤ 1000
      → ((cs : List Text) → r ≡ ok cs → IsNormalized cs)
      → ((os : List Text) → r' ≡ ok os → IsNormalized os)
      → OnOk IsWithin (watched u channels online r r')
  unfolding watched
  watched-IsWithin channels online (ok cs) (ok os) h k f g =
      OnOk-unless IsWithin (not (length cs == length channels) || not (length os == length online))
        _ _
        (λ e. OnOk-unless IsWithin (not (all_online cs os)) _ _ (λ o. (
          f cs refl,
          g os refl,
          ground (arith, e, h, nat_eq.agrees (length cs) (length channels)),
          ground (arith, e, k, nat_eq.agrees (length os) (length online)),
          ground (arith, o),
        )))
  watched-IsWithin channels online (ok cs) (err p) h k f g = tt
  watched-IsWithin channels online (err p) r h k f g = tt

  watching_lists-IsWithin :
      (channels : List Value) (online : Option (List Value))
      → OnOk IsWithin (watching_lists u channels online)
  unfolding watching_lists
  watching_lists-IsWithin channels none = tt
  watching_lists-IsWithin channels (some online) =
      OnOk-unless IsWithin (ltb 2 (length channels) || ltb 1000 (length online)) _ _ (λ h.
        watched-IsWithin channels online _ _ (ground (arith, h)) (ground (arith, h))
          (λ cs e. (normalize_channels-IsNormalized (entries (map entry_of channels)) false cs e).0)
          (λ os e. (normalize_channels-IsNormalized (entries (map entry_of online)) false os e).0))

  watching_event-IsWithin :
      (fs : Fields) (channels : Option (List Value)) → OnOk IsWithin (watching_event u fs channels)
  unfolding watching_event
  watching_event-IsWithin fs none = tt
  watching_event-IsWithin fs (some channels) =
      OnOk-unless IsWithin
        (not (
          same_fields (text "event" ∷ text "channels" ∷ []) fs
          || same_fields (text "event" ∷ text "channels" ∷ text "online_channels" ∷ []) fs))
        _ _
        (λ h. watching_lists-IsWithin channels (online_list u channels (find "online_channels" fs)))

  parse_kind-IsWithin :
      (d : Decoder) (payload kind : Text) (fs : Fields)
      → OnOk IsWithin (parse_kind u d payload kind fs)
  unfolding parse_kind
  parse_kind-IsWithin d payload kind fs =
      OnOk-unless IsWithin
        (any_of (λ k. contains (u.platform.casefold k) forbidden) (field_names fs)) _ _
        (λ h.
          OnOk-unless IsWithin (not (kind == text "watching_channels") && ltb 2048 (length payload))
            _ _
            (λ k.
              OnOk-if IsWithin (kind == text "device_code") _ _ (device_code_event-IsWithin d fs) (
                OnOk-if IsWithin (kind == text "authenticated") _ _
                  (OnOk-unless IsWithin (not (same_fields (text "event" ∷ []) fs)) _ _ (λ _. tt))
                  (OnOk-if IsWithin (kind == text "authentication_failed") _ _
                    (failed_event-IsWithin fs (text_of (find "error" fs)))
                    (OnOk-if IsWithin (kind == text "watching_channels") _ _
                      (watching_event-IsWithin fs (list_of (find "channels" fs))) tt)))))

  parse_fields-IsWithin :
      (d : Decoder) (payload : Text) (fs : Fields) (kind : Option Text)
      → OnOk IsWithin (parse_fields u d payload fs kind)
  parse_fields-IsWithin d payload fs none = tt
  parse_fields-IsWithin d payload fs (some kind) = parse_kind-IsWithin d payload kind fs

  parse_value-IsWithin :
      (d : Decoder) (payload : Text) (v : Option Value) → OnOk IsWithin (parse_value u d payload v)
  unfolding parse_value
  parse_value-IsWithin d payload none = tt
  parse_value-IsWithin d payload (some (obj fs)) =
      parse_fields-IsWithin d payload fs (text_of (find "event" fs))
  parse_value-IsWithin d payload (some (arr _)) = tt
  parse_value-IsWithin d payload (some (str _)) = tt
  parse_value-IsWithin d payload (some null) = tt
  parse_value-IsWithin d payload (some (int _)) = tt
  parse_value-IsWithin d payload (some (float _ _)) = tt
  parse_value-IsWithin d payload (some (bool _)) = tt

  -- Whatever a child prints: where the rest of the line after the prefix is let through as an event, a
  -- device code has its form and an expiry of 1 to 3600 seconds, an error is of 500 characters at most, and
  -- the watched channels are valid and distinct, two at most, and, with their case folded, among the online
  -- ones, which are valid and distinct and 1000 at most.
  pub parse_payload-IsWithin :
      (d : Decoder) (payload : Text) → OnOk IsWithin (parse_payload u d payload)
  unfolding parse_payload
  parse_payload-IsWithin d payload =
      OnOk-unless IsWithin (ltb 65536 (length payload)) _ _
        (λ h. parse_value-IsWithin d payload (d.loads payload))
