-- ===== src/Tests/Inventory.antt =====
-- A campaign of two drops, as inventory.py reads it.
use twitch_car_factory.Base.{
  ℕ, String, Bool, true, false, none, some, [], ◌∷◌, ◌≡◌, ◌↔◌, refl, inl, Member, string_eq,
  if◌then◌else◌, ◌==◌,
}
use twitch_car_factory.Base.Dict.{lookup, insert, values}
use twitch_car_factory.Base.Result.{ok, map_ok, fold_ok}
use twitch_car_factory.Json.{
  bool, int, pos, str, arr, obj, nil, cons, Fields, end, field, find, set_field, get, get_default,
  iterate, index, keys_equal,
}
use twitch_car_factory.Json.Python.{
  Python, IsoStamp, timestamp, to_text, identifier, minutes, replace_z,
}
use twitch_car_factory.Inventory.Merge.{
  time_based, merge_campaign, merge_fields, merge_time_based, put_value, no_list, index_drops,
  index_drop, put_by_id, find_by_id, drop_by_id, pop_by_id,
}
use twitch_car_factory.Inventory.MergeLaws.{merge_campaign-find}
use twitch_car_factory.Inventory.Campaign.{
  Drop, Campaign, can_earn, can_claim, is_open, earnable_drops, eligible_for, claimable_drops,
  prerequisites_met, is_prerequisite,
}
use twitch_car_factory.Inventory.Conditions.{CanEarn, CanClaim}
use twitch_car_factory.Inventory.Eligibility.{
  IsOpen, FitsGame, FitsChannel, earnable_drops_iff, claimable_drops_iff, earnable-then-claimable,
  eligible_for_iff,
}
use twitch_car_factory.Inventory.Parse.{
  from_data, header_from, add_drop, read_drop, drop_from, id_of, ids_of, is_badge_or_emote,
  any_badge, link_state, optional_identifier, optional_minutes, all_awarded,
}
use twitch_car_factory.Inventory.WellFormed.{IsWellFormed, from_data-IsWellFormed}

-- A clock that reads three stamps; "1Z" is read with the offset written out.
abbrev pub py : Python
py = record {
  fromisoformat = λ s.
      if s == "1+00:00"
      then IsoStamp.aware 1_000_000
      else if s == "9+00:00"
      then IsoStamp.aware 9_000_000
      else if s == "5"
      then IsoStamp.naive
      else IsoStamp.malformed;
  isoformat = λ n. "1Z";
  repr = λ v. "value";
}

abbrev drop_fields : String → ℕ → Fields
drop_fields k minutes_watched = field "id" (str k) (
    field "requiredMinutesWatched" (int (pos 30)) (
      field "self" (obj (field "currentMinutesWatched" (int (pos minutes_watched)) end)) (
        field "benefitEdges"
          (arr (cons (obj (field "benefit" (obj (field "id" (str "reward") end)) end)) nil)) end)))

abbrev inventory_fields : Fields
inventory_fields = field "id" (str "c") (
    field "status" (str "ACTIVE")
      (field "timeBasedDrops" (arr (cons (obj (drop_fields "a" 12)) nil)) end))

abbrev details_fields : Fields
details_fields = field "status" (str "EXPIRED") (
    field "game" (obj (field "id" (str "g") end)) (
      field "startAt" (str "1Z") (
        field "endAt" (str "9Z") (
          field "self" (obj (field "isAccountConnected" (bool true) end)) (
            field "timeBasedDrops"
              (arr (cons (obj (drop_fields "b" 0)) (cons (obj (drop_fields "a" 0)) nil))) end)))))

abbrev merged_fields : Fields
merged_fields = field "status" (str "ACTIVE") (
    field "game" (obj (field "id" (str "g") end)) (
      field "startAt" (str "1Z") (
        field "endAt" (str "9Z") (
          field "self" (obj (field "isAccountConnected" (bool true) end)) (
            field "timeBasedDrops"
              (arr (cons (obj (drop_fields "a" 12)) (cons (obj (drop_fields "b" 0)) nil)))
              (field "id" (str "c") end))))))

merge_run : merge_campaign inventory_fields details_fields ≡ ok merged_fields
unfolding merge_campaign merge_fields merge_time_based put_value no_list index_drops index_drop
    put_by_id find_by_id drop_by_id pop_by_id find set_field iterate index keys_equal fold_ok
merge_run = refl

merge_campaign-find_example : find "status" merged_fields ≡ some (str "ACTIVE")
unfolding find
merge_campaign-find_example =
    merge_campaign-find "status"
      (λ e. let h : ◌≡◌ {A = Bool} false true = (string_eq.agrees "status" time_based).1 e in cc)
      inventory_fields details_fields merged_fields (refl, (refl, (refl, tt))) merge_run

abbrev pub drop_of : String → ℕ → Drop
drop_of k minutes_watched = record {
  id = k;
  name = "";
  current_minutes = minutes_watched;
  required_minutes = 30;
  required_subscriptions = 0;
  claim_id = none;
  is_claimed = false;
  starts_at = 1_000_000;
  ends_at = 9_000_000;
  prerequisite_ids = [];
  benefit_ids = "reward" ∷ [];
}

abbrev pub campaign : Campaign
campaign = record {
  id = "c";
  name = "";
  game_id = "g";
  linked = some true;
  starts_at = 1_000_000;
  ends_at = 9_000_000;
  status = "ACTIVE";
  allowed_channel_ids = [];
  has_badge_or_emote = false;
  advertised_channel_ids = "7" ∷ [];
  drops = ("a", drop_of "a" 12) ∷ ("b", drop_of "b" 0) ∷ [];
}

from_data_run : from_data py merged_fields [] ("7" ∷ []) ≡ ok campaign
unfolding from_data header_from add_drop read_drop drop_from id_of ids_of is_badge_or_emote
    any_badge link_state optional_identifier optional_minutes all_awarded timestamp to_text
    identifier minutes replace_z find get get_default iterate index fold_ok map_ok lookup insert
from_data_run = refl

from_data-IsWellFormed_example : IsWellFormed campaign
from_data-IsWellFormed_example =
    from_data-IsWellFormed py [] merged_fields ("7" ∷ []) campaign from_data_run

abbrev a : Drop
a = drop_of "a" 12

a_is_earnable : Member a (earnable_drops campaign 5_000_000 false)
unfolding earnable_drops is_open can_earn prerequisites_met is_prerequisite
a_is_earnable = inl refl

earnable_drops_iff_example : Member a (earnable_drops campaign 5_000_000 false) ↔ (
    Member a (values campaign.drops)
    × IsOpen campaign 5_000_000 false
    × CanEarn campaign.drops a 5_000_000)
earnable_drops_iff_example = earnable_drops_iff campaign 5_000_000 false a

claimable_drops_iff_example :
    Member a (claimable_drops campaign 5_000_000)
    ↔ (Member a (values campaign.drops) × CanClaim campaign a 5_000_000)
claimable_drops_iff_example = claimable_drops_iff campaign 5_000_000 a

earnable-then-claimable_example :
    (can_claim campaign (record a { current_minutes = 30 }) 5_000_000 ≡ true)
    × (can_earn campaign.drops (record a { current_minutes = 30 }) 5_000_000 ≡ false)
    × (can_claim campaign a 5_000_000 ≡ false)
earnable-then-claimable_example = earnable-then-claimable campaign 5_000_000 false a a_is_earnable

eligible_for_iff_example : (eligible_for campaign "7" "g" 5_000_000 ≡ true) ↔ (
    FitsGame campaign 5_000_000 "g"
    × FitsChannel campaign 5_000_000 "7"
    × IsOpen campaign 5_000_000 true
    × ((d : Drop) × Member d (values campaign.drops) × CanEarn campaign.drops d 5_000_000))
eligible_for_iff_example = eligible_for_iff campaign 5_000_000 "7" "g"
