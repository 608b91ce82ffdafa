-- ===== src/Inventory/Merge.antt =====
-- merge_campaign of controller/twitch_miner/inventory.py: an inventory response over a details
-- response, timed drops by their identifier. `deepcopy` is the identity on values.
use twitch_car_factory.Base.{
  String, true, false, List, [], ◌∷◌, ◌++◌, ◌==◌, string_eq, if◌then◌else◌, is_some,
}
use twitch_car_factory.Base.Result.{Result, ok, err, ◌>>=◌, fold_ok}
use twitch_car_factory.Json.{
  PyError, type_error, Value, null, arr, obj, Items, nil, cons, Fields, end, field, find, set_field,
  or_null, or_value, empty_list, arr_of, iterate, index, is_hashable, keys_equal, truthy,
}

abbrev pub time_based : String
time_based = "timeBasedDrops"

-- The dict from identifiers to drops; every drop in it is a dict, since it was indexed.
abbrev pub ById : Type 0
ById = List (Value × Fields)

unfoldable pub put_by_id : Value → Fields → ById → ById
put_by_id k fs [] = (k, fs) ∷ []
put_by_id k fs ((j, gs) ∷ d) = if keys_equal j k then (j, fs) ∷ d else (j, gs) ∷ put_by_id k fs d

-- One entry of `{drop["id"]: deepcopy(drop) for drop in ...}`.
unfoldable pub index_drop : Value → ById → Result PyError ById
index_drop (obj fs) d = do
  k ← index "id" (obj fs)
  if is_hashable k then ok (put_by_id k fs d) else err type_error
index_drop v d = err type_error

unfoldable pub index_drops : Value → Result PyError ById
index_drops v = do drops ← iterate v; fold_ok index_drop drops []

unfoldable pub find_by_id : Value → ById → Fields
find_by_id k [] = end
find_by_id k ((j, gs) ∷ d) = if keys_equal j k then gs else find_by_id k d

unfoldable pub drop_by_id : Value → ById → ById
drop_by_id k [] = []
drop_by_id k ((j, gs) ∷ d) = if keys_equal j k then d else (j, gs) ∷ drop_by_id k d

-- `by_id.pop(k, {})`; CPython answers on an empty dict before it hashes the key.
unfoldable pub pop_by_id : Value → ById → Result PyError (Fields × ById)
pop_by_id k [] = ok (end, [])
pop_by_id k (e ∷ d) =
    if is_hashable k then ok (find_by_id k (e ∷ d), drop_by_id k (e ∷ d)) else err type_error

abbrev pub left_over : ById → List Value
left_over [] = []
left_over ((_, fs) ∷ d) = obj fs ∷ left_over d

-- `merged[key] = ordered + list(by_id.values())`
abbrev pub finish_drops : Fields → List Value × ById → Fields
finish_drops merged (ordered, by_id) =
    set_field time_based (arr (arr_of (ordered ++ left_over by_id))) merged

-- `elif value is not None or key not in merged`
unfoldable pub put_value : String → Value → Fields → Fields
put_value k null merged = if is_some (find k merged) then merged else set_field k null merged
put_value k v merged = set_field k v merged

-- The loop over a value that is no list: what is falsy counts as no drops, and a drop cannot be
-- looked up in a text, a number or a dict's key.
unfoldable pub no_list : Value → ById → Result PyError (List Value × ById)
no_list v by_id = if truthy v then err type_error else ok ([], by_id)

-- The branch of `timeBasedDrops`: index the details' drops, loop over the inventory's, and store
-- what was merged before what is left over.
unfoldable pub merge_time_based :
    (ById → Result PyError (List Value × ById)) → Fields → Fields → Result PyError Fields
merge_time_based loop details merged = do
  by_id ← index_drops (or_value (or_null (find time_based details)) empty_list)
  drops ← loop by_id
  ok (finish_drops merged drops)

unfoldable mutual
  pub merge_fields : Fields → Fields → Fields → Result PyError Fields
  merge_fields end details merged = ok merged
  merge_fields (field k v rest) details merged = do
    next ← merge_value v k details merged
    merge_fields rest details next

  pub merge_value : Value → String → Fields → Fields → Result PyError Fields
  merge_value (arr vs) k details merged = elim (k == time_based) [
    | true ↦ merge_time_based (merge_drops vs) details merged
    | false ↦ ok (put_value k (arr vs) merged)
  ]
  merge_value (obj fs) k details merged = elim (k == time_based) [
    | true ↦ merge_time_based (no_list (obj fs)) details merged
    | false ↦ elim (or_null (find k merged)) [
      | obj gs ↦ do inner ← merge_fields fs gs gs; ok (set_field k (obj inner) merged)
      | _ ↦ ok (put_value k (obj fs) merged)
    ]
  ]
  merge_value v k details merged = elim (k == time_based) [
    | true ↦ merge_time_based (no_list v) details merged
    | false ↦ ok (put_value k v merged)
  ]

  pub merge_drops : Items → ById → Result PyError (List Value × ById)
  merge_drops nil by_id = ok ([], by_id)
  merge_drops (cons v vs) by_id = do
    k ← index "id" v
    popped ← pop_by_id k by_id
    one ← merge_drop v popped.0
    rest ← merge_drops vs popped.1
    ok (obj one ∷ rest.0, rest.1)

  pub merge_drop : Value → Fields → Result PyError Fields
  merge_drop (obj fs) details = merge_fields fs details details
  merge_drop v details = err type_error

unfoldable pub merge_campaign : Fields → Fields → Result PyError Fields
merge_campaign inventory details = merge_fields inventory details details
