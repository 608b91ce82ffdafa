-- ===== src/Inventory/Parse.antt =====
-- Campaign.from_data and the readers around it in controller/twitch_miner/inventory.py: JSON to
-- campaigns, with every exception of the Python text.
use twitch_car_factory.Base.{
  ℕ, String, Bool, true, false, not, ◌&&◌, ◌||◌, Option, none, some, List, [], ◌∷◌, ltb, leb, min,
  ◌==◌, string_eq, is_empty, all_of, if◌then◌else◌, is_some,
}
use twitch_car_factory.Base.Dict.{Dict, lookup, insert}
use twitch_car_factory.Base.Result.{Result, ok, err, ◌>>=◌, map_ok, fold_ok}
use twitch_car_factory.Json.{
  PyError, value_error, type_error, Value, null, bool, int, str, arr, obj, pos, Fields, find,
  set_field, or_null, or_value, empty_list, empty_dict, iterate, index, get, get_default, truthy,
  is_dict,
}
use twitch_car_factory.Json.Python.{Python, timestamp, to_text, identifier, minutes}
use twitch_car_factory.Inventory.Merge.{time_based}
use twitch_car_factory.Inventory.Campaign.{Drop, Campaign}

-- `x.get(k)` where `x` is known to be a dict.
abbrev pub entry : String → Fields → Value
entry k fs = or_null (find k fs)

-- `_identifier(x.get("id"))`
unfoldable pub id_of : Value → Result PyError String
id_of v = do k ← get "id" v; identifier k

unfoldable pub ids_of : Value → Result PyError (List String)
ids_of v = do vs ← iterate v; map_ok id_of vs

-- `value in {"BADGE", "EMOTE"}`
unfoldable pub is_badge_or_emote : Value → Result PyError Bool
is_badge_or_emote (str s) = ok (s == "BADGE" || s == "EMOTE")
is_badge_or_emote (arr _) = err type_error
is_badge_or_emote (obj _) = err type_error
is_badge_or_emote _ = ok false

-- `any(... for benefit in benefits)`, which stops at the first hit.
unfoldable pub any_badge : List Value → Result PyError Bool
any_badge [] = ok false
any_badge (v ∷ vs) = do
  kind ← get "distributionType" v
  hit ← is_badge_or_emote kind
  if hit then ok true else any_badge vs

-- `isinstance(link, bool)` or None
unfoldable pub link_state : Value → Result PyError (Option Bool)
link_state null = ok none
link_state (bool b) = ok (some b)
link_state _ = err value_error

abbrev pub is_true : Value → Bool
is_true (bool b) = b
is_true _ = false

-- `None` stays `None`, anything else must be an identifier.
unfoldable pub optional_identifier : Value → Result PyError (Option String)
optional_identifier null = ok none
optional_identifier v = do s ← identifier v; ok (some s)

-- `_minutes(0 if current_value is None else current_value)`
unfoldable pub optional_minutes : Value → Result PyError ℕ
optional_minutes null = ok 0
optional_minutes v = minutes v

-- Every benefit was awarded inside the drop's window.
unfoldable pub all_awarded : Dict String ℕ → ℕ → ℕ → List String → Bool
all_awarded claimed_benefits start end ids =
    all_of
      (λ k. elim (lookup k claimed_benefits) [
        | none ↦ false
        | some at ↦ leb start at && ltb at end
      ])
      ids

module _ (py : Python) where
  -- The least stamp of a list, for `min(starts)`.
  abbrev least : ℕ → List ℕ → ℕ
  least a [] = a
  least a (b ∷ bs) = least (min a b) bs

  -- `min(starts).isoformat()`, with the exception for no drops.
  unfoldable pub earliest_of : List ℕ → Result PyError String
  earliest_of [] = err value_error
  earliest_of (a ∷ as') = ok (py.isoformat (least a as'))

  unfoldable pub drop_start : Value → Result PyError ℕ
  drop_start v = do start ← get "startAt" v; timestamp py start

  -- The window is filled, and the drops are iterated, only where the response has no start.
  unfoldable pub fill_start : Fields → Result PyError Fields
  fill_start fs = elim (truthy (entry "startAt" fs)) [
    | true ↦ ok fs
    | false ↦ do
      drops ← iterate (or_value (entry time_based fs) empty_list)
      starts ← map_ok drop_start drops
      start ← earliest_of starts
      ok (set_field "startAt" (str start) fs)
  ]

  unfoldable pub normalize_discovered_campaign : Fields → Result PyError Fields
  normalize_discovered_campaign campaign_data = do
    filled ← fill_start campaign_data
    ok (if truthy (entry "status" filled) then filled else set_field "status" (str "ACTIVE") filled)

  -- One round of the loop: a malformed item is skipped.
  unfoldable pub claimed_benefit : Value → Dict String ℕ → Dict String ℕ
  claimed_benefit item result =
      let stamp : Result PyError ℕ = (do at ← get "lastAwardedAt" item; timestamp py at) in
      let key : Result PyError String = id_of item in
      elim stamp [
        | err _ ↦ result
        | ok at ↦ elim key [ err _ ↦ result | ok k ↦ insert k at result ]
      ]

  abbrev claimed_benefits_loop : List Value → Dict String ℕ → Dict String ℕ
  claimed_benefits_loop [] result = result
  claimed_benefits_loop (v ∷ vs) result = claimed_benefits_loop vs (claimed_benefit v result)

  unfoldable pub claimed_benefits_from_inventory : Value → Result PyError (Dict String ℕ)
  claimed_benefits_from_inventory values = do
    vs ← iterate (or_value values empty_list)
    ok (claimed_benefits_loop vs [])

  -- The fields of one drop that do not depend on the campaign parsed so far.
  unfoldable pub drop_from :
      Dict String ℕ → Fields → String → Value → List String → Result PyError Drop
  drop_from claimed_benefits campaign_data key item benefit_ids = do
    own ← get "self" item
    let self_edge = or_value own empty_dict
    watched ← get "requiredMinutesWatched" item
    required ← minutes watched
    progress ← get "currentMinutesWatched" self_edge
    current ← optional_minutes progress
    first ← get "startAt" item
    start ← timestamp py (or_value first (entry "startAt" campaign_data))
    last ← get "endAt" item
    end_at ← timestamp py (or_value last (entry "endAt" campaign_data))
    if leb end_at start then err value_error else do
      flag ← get "isClaimed" self_edge
      let claimed =
          if not (truthy self_edge) && not (is_empty benefit_ids)
          then all_awarded claimed_benefits start end_at benefit_ids
          else is_true flag
      instance_id ← get "dropInstanceID" self_edge
      claim ← optional_identifier instance_id
      title ← get "name" item
      subs ← get "requiredSubs" item
      subscriptions ← minutes (or_value subs (int (pos 0)))
      before ← get "preconditionDrops" item
      prerequisites ← ids_of (or_value before empty_list)
      ok (record {
        id = key;
        name = to_text py (or_value title (str ""));
        current_minutes = if claimed then required else min current required;
        required_minutes = required;
        required_subscriptions = subscriptions;
        claim_id = claim;
        is_claimed = claimed;
        starts_at = start;
        ends_at = end_at;
        prerequisite_ids = prerequisites;
        benefit_ids = benefit_ids;
      })

  -- The drop that an item describes, and whether it awards a badge or an emote.
  unfoldable pub read_drop : Dict String ℕ → Fields → String → Value → Result PyError (Bool × Drop)
  read_drop claimed_benefits campaign_data key item = do
    edges ← get "benefitEdges" item
    edge_list ← iterate (or_value edges empty_list)
    benefits ← map_ok (index "benefit") edge_list
    benefit_ids ← map_ok id_of benefits
    badge ← any_badge benefits
    d ← drop_from claimed_benefits campaign_data key item benefit_ids
    ok (badge, d)

  -- One round of the loop over `timeBasedDrops`.
  unfoldable pub add_drop : Dict String ℕ → Fields → Value → Campaign → Result PyError Campaign
  add_drop claimed_benefits campaign_data item c = do
    key ← id_of item
    if is_some (lookup key c.drops) then err value_error else do
      one ← read_drop claimed_benefits campaign_data key item
      ok (record c {
        has_badge_or_emote = c.has_badge_or_emote || one.0;
        drops = insert key one.1 c.drops;
      })

  -- The campaign before the loop over its drops.
  unfoldable pub header_from : Fields → List String → Result PyError Campaign
  header_from campaign_data advertised =
      let game = entry "game" campaign_data in
      if not (is_dict game) then err value_error else do
        let allowed = or_value (entry "allow" campaign_data) empty_dict
        listed ← get "channels" allowed
        starts ← timestamp py (entry "startAt" campaign_data)
        ends ← timestamp py (entry "endAt" campaign_data)
        if leb ends starts then err value_error else do
          connected ← get "isAccountConnected" (or_value (entry "self" campaign_data) empty_dict)
          linked ← link_state connected
          key ← identifier (entry "id" campaign_data)
          game_key ← id_of game
          enabled ← get_default "isEnabled" (bool true) allowed
          channels ← (if truthy enabled then ids_of (or_value listed empty_list) else ok [])
          ok (record {
            id = key;
            name = to_text py (or_value (entry "name" campaign_data) (str ""));
            game_id = game_key;
            linked = linked;
            starts_at = starts;
            ends_at = ends;
            status = to_text py (or_value (entry "status" campaign_data) (str ""));
            allowed_channel_ids = channels;
            has_badge_or_emote = false;
            advertised_channel_ids = advertised;
            drops = [];
          })

  unfoldable pub from_data : Fields → Dict String ℕ → List String → Result PyError Campaign
  from_data campaign_data claimed_benefits advertised = do
    header ← header_from campaign_data advertised
    items ← iterate (or_value (entry time_based campaign_data) empty_list)
    fold_ok (add_drop claimed_benefits campaign_data) items header
