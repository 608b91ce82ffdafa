-- ===== src/Json/Lookup.antt =====
-- Laws of dicts of JSON values.
use twitch_car_factory.Base.{
  String, none, some, ◌≡◌, ◌≢◌, refl, arith, ◌==◌, string_eq, if◌then◌else◌,
}
use twitch_car_factory.Json.{Value, Fields, end, field, find, set_field}

pub find-set_field :
    (k j : String) (v : Value) (fs : Fields)
    → find j (set_field k v fs) ≡ (if k == j then some v else find j fs)
unfolding find set_field
find-set_field k j v end = refl
find-set_field k j v (field i w fs) = ground (
  arith,
  string_eq.agrees k j,
  string_eq.agrees i k,
  string_eq.agrees i j,
  find-set_field k j v fs,
)

-- No key stands twice, as in every Python dict.
abbrev pub IsDict : Fields → Type 0
IsDict end = Unit
IsDict (field k _ fs) = (find k fs ≡ none) × IsDict fs

pub find-set_field_ne :
    (k j : String) (v : Value) (fs : Fields) → k ≢ j → find j (set_field k v fs) ≡ find j fs
find-set_field_ne k j v fs h = ground (arith, string_eq.agrees k j, find-set_field k j v fs)

pub find-set_field_self :
    (k : String) (v : Value) (fs : Fields) → find k (set_field k v fs) ≡ some v
find-set_field_self k v fs = ground (arith, string_eq.agrees k k, find-set_field k k v fs)
