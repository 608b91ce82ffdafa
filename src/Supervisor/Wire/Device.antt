-- ===== src/Supervisor/Wire/Device.antt =====
-- The fields of a control event, and the device-code event, of controller/miner_supervisor.py.
use twitch_car_factory.Base.{
  ℕ, Bool, not, ◌&&◌, ◌||◌, Option, none, some, List, [], ◌∷◌, ◌==◌, nat_eq, string_eq, text_eq,
  leb, length, all_of, contains, if◌then◌else◌,
}
use twitch_car_factory.Base.Result.{Result, ok, err}
use twitch_car_factory.Json.{
  Value, Fields, obj, arr, str, null, int, float, bool, end, field, find, items_of, pos, negsuc,
}
use twitch_car_factory.Control.Text.{Text, text}
use twitch_car_factory.Control.Channels.{Entry, name, other}
use twitch_car_factory.Supervisor.State.{ControlEvent, device_code}

-- The scheme, the host and the path of a URL.
pub record Url : Type 0 where
  pub scheme : Text
  pub hostname : Text
  pub path : Text

-- json.loads and urlparse, which may raise.
pub record Decoder : Type 0 where
  pub loads : Text → Option Value
  pub urlparse : Text → Option Url

-- CONTROL_EVENT_PREFIX
abbrev pub control_event_prefix : Text
control_event_prefix = text "@@TWITCH_FARM_EVENT@@"

abbrev pub after : Text → Text → Text
after [] line = line
after (c ∷ prefix) [] = []
after (c ∷ prefix) (d ∷ line) = after prefix line

-- A field's name as a text.
abbrev pub field_names : Fields → List Text
field_names end = []
field_names (field k _ fs) = text k ∷ field_names fs

-- `set(event) == {...}`
unfoldable pub same_fields : List Text → Fields → Bool
same_fields names fs =
    all_of (λ n. contains n (field_names fs)) names
    && all_of (λ n. contains n names) (field_names fs)

abbrev pub forbidden : List Text
forbidden =
    text "token"
    ∷ text "device_code"
    ∷ text "access_token"
    ∷ text "refresh_token"
    ∷ text "password"
    ∷ []

-- `[A-Z0-9-]{4,32}`
unfoldable pub valid_code : Text → Bool
valid_code code =
    all_of (λ c. (leb 65 c && leb c 90) || (leb 48 c && leb c 57) || c == 45) code
    && leb 4 (length code)
    && leb (length code) 32

unfoldable pub is_activation : Url → Bool
is_activation url =
    url.scheme == text "https"
    && url.hostname == text "www.twitch.tv"
    && url.path == text "/activate"

abbrev pub text_of : Option Value → Option Text
text_of (some (str s)) = some (text s)
text_of (some (obj _)) = none
text_of (some (arr _)) = none
text_of (some null) = none
text_of (some (int _)) = none
text_of (some (float _ _)) = none
text_of (some (bool _)) = none
text_of none = none

abbrev pub list_of : Option Value → Option (List Value)
list_of (some (arr vs)) = some (items_of vs)
list_of (some (str _)) = none
list_of (some (obj _)) = none
list_of (some null) = none
list_of (some (int _)) = none
list_of (some (float _ _)) = none
list_of (some (bool _)) = none
list_of none = none

-- A whole number that is no bool.
abbrev pub count_of : Option Value → Option ℕ
count_of (some (int (pos n))) = some n
count_of (some (int (negsuc _))) = none
count_of (some (arr _)) = none
count_of (some (str _)) = none
count_of (some (obj _)) = none
count_of (some null) = none
count_of (some (float _ _)) = none
count_of (some (bool _)) = none
count_of none = none

abbrev pub entry_of : Value → Entry
entry_of (str s) = name (text s)
entry_of (obj _) = other
entry_of (arr _) = other
entry_of null = other
entry_of (int _) = other
entry_of (float _ _) = other
entry_of (bool _) = other

-- An event, or the text of the ValueError.
abbrev pub Parsed : Type 0
Parsed = Result Text ControlEvent

unfoldable pub expiring : Text → Text → Option ℕ → Parsed
expiring code uri none = err (text "Device-code event has an invalid expiry.")
expiring code uri (some n) =
    if not (leb 1 n && leb n 3600)
    then err (text "Device-code event has an invalid expiry.")
    else ok (device_code code uri n)

abbrev pub blank_or : Option Text → Text
blank_or none = []
blank_or (some t) = t

unfoldable pub activating : Text → Text → Url → Option ℕ → Parsed
activating code uri url expires_in =
    if not (is_activation url)
    then err (text "Device-code event has an invalid activation URL.")
    else expiring code uri expires_in

unfoldable pub device_event : Option Text → Text → Url → Option ℕ → Parsed
device_event none uri url expires_in = err (text "Device-code event has an invalid user code.")
device_event (some code) uri url expires_in =
    if not (valid_code code)
    then err (text "Device-code event has an invalid user code.")
    else activating code uri url expires_in

unfoldable pub device_code_event : Decoder → Fields → Parsed
device_code_event d fs =
    if not (
      same_fields
        (text "event" ∷ text "user_code" ∷ text "verification_uri" ∷ text "expires_in" ∷ []) fs)
    then err (text "Device-code event has unexpected fields.")
    else elim (d.urlparse (blank_or (text_of (find "verification_uri" fs)))) [
      | none ↦ err (text "urlparse")
      | some url ↦
          device_event (text_of (find "user_code" fs))
            (blank_or (text_of (find "verification_uri" fs))) url (count_of (find "expires_in" fs))
    ]
