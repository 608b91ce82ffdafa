-- ===== src/Inventory/DropMerge.antt =====
-- The timed drops that merge_campaign returns: the inventory's first, then what only the details have.
use twitch_car_factory.Base.{String, some, List, [], ◌++◌, ◌≡◌, Member}
use twitch_car_factory.Base.Result.{ok}
use twitch_car_factory.Json.{
  Value, str, arr, Items, Fields, find, or_null, or_value, empty_list, arr_of,
}
use twitch_car_factory.Inventory.Merge.{time_based, ById, index_drops, find_by_id, left_over}
use twitch_car_factory.Inventory.Popped.{Lacks}
use twitch_car_factory.Inventory.Ordered.{HaveIds, AreMerged}

-- The list of timed drops that a merged response has.
pub record MergedDrops (details : Fields) (vs : Items) (ids : List String) (out : Fields)
    : Type 0 where
  pub by_id : ById
  pub ordered : List Value
  pub rest : ById
  pub indexed : index_drops (or_value (or_null (find time_based details)) empty_list) ≡ ok by_id
  pub stored : find time_based out ≡ some (arr (arr_of (ordered ++ left_over rest)))
  pub in_order : HaveIds ordered ids
  pub merged : AreMerged by_id [] vs ids ordered
  pub none_twice : (t : String) → Member t ids → Lacks t rest
  pub none_lost :
      (t : String) → (Member t ids → ⊥) → find_by_id (str t) rest ≡ find_by_id (str t) by_id
