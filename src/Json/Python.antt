-- ===== src/Json/Python.antt =====
-- What controller/twitch_miner/inventory.py calls in Python's datetime and str, and the readers of a
-- text, an identifier and a number that stand on it.
use Prim.Native.Char.{code}
use Prim.Native.String.{◌++◌ as append}
use twitch_car_factory.Base.{ℕ, String, ◌==◌, nat_eq, if◌then◌else◌}
use twitch_car_factory.Base.Result.{Result, ok, err}
use twitch_car_factory.Json.{PyError, value_error, Value, int, str, pos}

-- The three outcomes of `datetime.fromisoformat`: an exception, a stamp with no timezone, and one
-- with a timezone, as the UTC instant in microseconds.
pub data IsoStamp : Type 0 where
  malformed naive : IsoStamp
  aware : ℕ → IsoStamp

pub record Python : Type 0 where
  pub fromisoformat : String → IsoStamp
  pub isoformat : ℕ → String
  -- `str(v)` of a value that is no text
  pub repr : Value → String

-- `s.replace("Z", "+00:00")`
unfoldable pub replace_z : String → String
replace_z String.[] = String.[]
replace_z (String.◌∷◌ c s) =
    if code c == b'Z' then append "+00:00" (replace_z s) else String.◌∷◌ c (replace_z s)

module _ (py : Python) where
  -- `_timestamp`
  unfoldable pub timestamp : Value → Result PyError ℕ
  timestamp (str s) = elim (py.fromisoformat (replace_z s)) [
    | malformed ↦ err value_error
    | naive ↦ err value_error
    | aware t ↦ ok t
  ]
  timestamp _ = err value_error

  -- `str(v)`
  unfoldable pub to_text : Value → String
  to_text (str s) = s
  to_text v = py.repr v

-- `_identifier`
unfoldable pub identifier : Value → Result PyError String
identifier (str String.[]) = err value_error
identifier (str (String.◌∷◌ c s)) = ok (String.◌∷◌ c s)
identifier _ = err value_error

-- `_minutes`: a Boolean is an int in Python and is refused before.
unfoldable pub minutes : Value → Result PyError ℕ
minutes (int (pos n)) = ok n
minutes _ = err value_error
