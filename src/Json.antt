-- ===== src/Json.antt =====
-- Decoded JSON as controller/twitch_miner/inventory.py handles it: dicts, lists, texts, numbers, and
-- the exceptions of Python's operations on a value of the wrong kind.
pub mod Python
pub mod Lookup
use twitch_car_factory.Base.{
  ℕ, zero, suc, ◌*◌, ◌+◌, String, Bool, true, false, Option, none, some, List, [], ◌∷◌, ◌==◌,
  nat_eq, string_eq, if◌then◌else◌,
}
use twitch_car_factory.Base.Result.{Result, ok, err}

-- The exceptions that the engine catches together: ValueError, KeyError, TypeError, AttributeError.
pub data PyError : Type 0 where
  value_error key_error type_error attribute_error : PyError

-- `negsuc n` is -(n + 1).
pub data ℤ : Type 0 where
  pos : ℕ → ℤ
  negsuc : ℕ → ℤ

-- `float z d` is the finite float z / (d + 1).
mutual
  pub data Value : Type 0 where
    obj : Fields → Value
    arr : Items → Value
    str : String → Value
    null : Value
    int : ℤ → Value
    float : ℤ → ℕ → Value
    bool : Bool → Value

  pub data Fields : Type 0 where
    end : Fields
    field : String → Value → Fields → Fields

  pub data Items : Type 0 where
    nil : Items
    cons : Value → Items → Items

-- `d.get(k)` where `none` is a missing key.
unfoldable pub find : String → Fields → Option Value
find k end = none
find k (field j v fs) = if j == k then some v else find k fs

-- `d[k] = v`
unfoldable pub set_field : String → Value → Fields → Fields
set_field k v end = field k v end
set_field k v (field j w fs) = if j == k then field j v fs else field j w (set_field k v fs)

abbrev pub or_null : Option Value → Value
or_null none = null
or_null (some v) = v

abbrev is_zero : ℤ → Bool
is_zero (pos zero) = true
is_zero (pos (suc _)) = false
is_zero (negsuc _) = false

-- `bool(v)`
abbrev pub truthy : Value → Bool
truthy null = false
truthy (bool b) = b
truthy (int z) = if is_zero z then false else true
truthy (float z d) = if is_zero z then false else true
truthy (str String.[]) = false
truthy (str (String.◌∷◌ _ _)) = true
truthy (arr nil) = false
truthy (arr (cons _ _)) = true
truthy (obj end) = false
truthy (obj (field _ _ _)) = true

-- `v or w`
abbrev pub or_value : Value → Value → Value
or_value v w = if truthy v then v else w

abbrev pub empty_list : Value
empty_list = arr nil

abbrev pub empty_dict : Value
empty_dict = obj end

abbrev pub items_of : Items → List Value
items_of nil = []
items_of (cons v vs) = v ∷ items_of vs

abbrev pub arr_of : List Value → Items
arr_of [] = nil
arr_of (v ∷ vs) = cons v (arr_of vs)

abbrev keys_of : Fields → List Value
keys_of end = []
keys_of (field k _ fs) = str k ∷ keys_of fs

abbrev chars_of : String → List Value
chars_of String.[] = []
chars_of (String.◌∷◌ c s) = str (String.◌∷◌ c String.[]) ∷ chars_of s

-- `v.get(k)`
unfoldable pub get : String → Value → Result PyError Value
get k (obj fs) = ok (or_null (find k fs))
get k _ = err attribute_error

-- `v.get(k, w)`
unfoldable pub get_default : String → Value → Value → Result PyError Value
get_default k w (obj fs) = ok (elim (find k fs) [ none ↦ w | some v ↦ v ])
get_default k w _ = err attribute_error

-- `v[k]` for a text `k`
unfoldable pub index : String → Value → Result PyError Value
index k (obj fs) = elim (find k fs) [ none ↦ err key_error | some v ↦ ok v ]
index k _ = err type_error

-- `for x in v`: a dict gives its keys and a text its characters.
unfoldable pub iterate : Value → Result PyError (List Value)
iterate (arr vs) = ok (items_of vs)
iterate (obj fs) = ok (keys_of fs)
iterate (str s) = ok (chars_of s)
iterate _ = err type_error

-- `isinstance(v, dict)`
abbrev pub is_dict : Value → Bool
is_dict (obj _) = true
is_dict _ = false

-- The dict that a value is.
abbrev pub as_dict : Value → Option Fields
as_dict (obj fs) = some fs
as_dict _ = none

-- Lists and dicts cannot be keys of a dict or members of a set.
abbrev pub is_hashable : Value → Bool
is_hashable (arr _) = false
is_hashable (obj _) = false
is_hashable _ = true

abbrev ints_equal : ℤ → ℤ → Bool
ints_equal (pos a) (pos b) = a == b
ints_equal (negsuc a) (negsuc b) = a == b
ints_equal _ _ = false

abbrev scale : ℕ → ℤ → ℤ
scale n (pos a) = pos (a * n)
scale n (negsuc a) = elim n [ zero ↦ pos 0 | suc m ↦ negsuc (a * suc m + m) ]

-- The number that a hashable value is: `True == 1 == 1.0`.
abbrev number_of : Value → Option (ℤ × ℕ)
number_of (bool true) = some (pos 1, 0)
number_of (bool false) = some (pos 0, 0)
number_of (int z) = some (z, 0)
number_of (float z d) = some (z, d)
number_of _ = none

abbrev numbers_equal : Option (ℤ × ℕ) → Option (ℤ × ℕ) → Bool
numbers_equal (some (a, c)) (some (b, d)) = ints_equal (scale (suc d) a) (scale (suc c) b)
numbers_equal _ _ = false

-- `v == w` between hashable values
unfoldable pub keys_equal : Value → Value → Bool
keys_equal (str s) (str t) = s == t
keys_equal null null = true
keys_equal v w = numbers_equal (number_of v) (number_of w)
