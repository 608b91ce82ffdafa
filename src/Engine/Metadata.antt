-- ===== src/Engine/Metadata.antt =====
-- refresh_inventory of controller/twitch_miner/engine.py: which campaigns exist and how far they are.
use twitch_car_factory.Base.{
  ℕ, ◌+◌, String, Bool, true, false, not, ◌||◌, ◌&&◌, Option, none, some, List, [], ◌∷◌, ◌++◌, map,
  leb, ◌==◌, string_eq, contains, if◌then◌else◌, is_some, or_else,
}
use twitch_car_factory.Base.Dict.{Dict, keys, lookup, insert}
use twitch_car_factory.Base.Result.{Result, ok, err}
use twitch_car_factory.Base.Result
use twitch_car_factory.Base.Exec.{pure, raise, gets, modify, on_option, ◌>>=◌, ◌>>◌}
use twitch_car_factory.Json.{
  PyError, Value, str, Fields, end, field, get, or_value, or_null, find, empty_dict, empty_list,
  is_dict, as_dict, iterate,
}
use twitch_car_factory.Json.Python.{Python, to_text}
use twitch_car_factory.Inventory.Campaign.{Drop, Campaign}
use twitch_car_factory.Inventory.Merge.{merge_campaign}
use twitch_car_factory.Inventory.Parse.{
  normalize_discovered_campaign, claimed_benefits_from_inventory, from_data,
}
use twitch_car_factory.Engine.State.{
  twitch, Channel, Client, Miner, Action, ask, sense, try_python, recover, refresh_interval,
  discovery_interval,
}
use twitch_car_factory.Engine.Channels.{keyed, index_items}

-- `(campaign id, drop id) in self.claimed`
abbrev pub was_claimed : List (String × String) → String → String → Bool
was_claimed [] cid did = false
was_claimed ((c, d) ∷ rest) cid did = (c == cid && d == did) || was_claimed rest cid did

-- `drop.is_claimed = True` for each drop that was claimed before.
abbrev pub mark_drops : List (String × String) → String → Dict String Drop → Dict String Drop
mark_drops claimed cid [] = []
mark_drops claimed cid ((k, d) ∷ ds) =
    (k, if was_claimed claimed cid d.id then record d { is_claimed = true } else d)
    ∷ mark_drops claimed cid ds

unfoldable pub mark_claimed : List (String × String) → String → Campaign → Campaign
mark_claimed claimed cid c = record c { drops = mark_drops claimed cid c.drops }

-- The channels that advertise each campaign, `advertised_channels.setdefault(cid, set()).add(id)`.
abbrev pub advertise : String → List String → Dict String (List String) → Dict String (List String)
advertise channel_id [] d = d
advertise channel_id (cid ∷ cids) d =
    advertise channel_id cids (insert cid (channel_id ∷ or_else (lookup cid d) []) d)

abbrev pub advertisers : List Channel → Dict String (List String) → Dict String (List String)
advertisers [] d = d
advertisers (c ∷ cs) d = advertisers cs (advertise c.id (keys c.discovered_campaigns) d)

abbrev fields_or_empty : Option Fields → Fields
fields_or_empty none = end
fields_or_empty (some fs) = fs

-- The union of three sets of keys, each once.
abbrev pub add_keys : List String → List String → List String
add_keys [] seen = seen
add_keys (k ∷ ks) seen = add_keys ks (if contains k seen then seen else seen ++ k ∷ [])

-- `status not in ("ACTIVE", "UPCOMING")` skips a campaign.
abbrev pub is_current : Value → Bool
is_current (str s) = s == "ACTIVE" || s == "UPCOMING"
is_current _ = false

module _ (py : Python) where
  -- `discovered`: a malformed campaign is skipped.
  abbrev discover_entries : Dict String Fields → Dict String Fields → Dict String Fields
  discover_entries [] d = d
  discover_entries ((cid, fs) ∷ rest) d =
      discover_entries rest
        (elim (normalize_discovered_campaign py fs) [ ok gs ↦ insert cid gs d | err _ ↦ d ])

  unfoldable pub discovered_campaigns : List Channel → Dict String Fields → Dict String Fields
  discovered_campaigns [] d = d
  discovered_campaigns (c ∷ cs) d =
      discovered_campaigns cs (discover_entries c.discovered_campaigns d)

  -- Details under discovery, then the inventory over both.
  unfoldable pub parse_campaign :
      Dict String Fields
      → Dict String Fields
      → Dict String Fields
      → Dict String ℕ
      → Dict String (List String)
      → String
      → Result PyError Campaign
  parse_campaign details ongoing discovered benefits advertised cid =
      Result.◌>>=◌
        (merge_campaign (fields_or_empty (lookup cid details))
          (fields_or_empty (lookup cid discovered)))
        (λ detail.
          Result.◌>>=◌ (merge_campaign (fields_or_empty (lookup cid ongoing)) detail)
            (λ merged. from_data py merged benefits (or_else (lookup cid advertised) [])))

  -- The loop over the campaigns' keys; a malformed campaign is skipped.
  unfoldable pub build_campaigns :
      (String → Result PyError Campaign)
      → List (String × String)
      → List String
      → Dict String Campaign
      → Dict String Campaign
  build_campaigns parse claimed [] d = d
  build_campaigns parse claimed (cid ∷ cids) d =
      build_campaigns parse claimed cids
        (elim (parse cid) [ ok c ↦ insert cid (mark_claimed claimed cid c) d | err _ ↦ d ])

  module _ {W : Type 0} (client : Client W) where
    -- `gql("CampaignDetails", ...)`, or `none` where the request failed.
    unfoldable pub request_detail : String → Action W (Option Value)
    request_detail cid =
        recover
          (do
            v ← ask (
                client.gql "CampaignDetails"
                  (field "channelLogin" (str client.user_id) (field "dropID" (str cid) end)))
            pure (some v))
          none

    -- What is stored for a campaign whose detail request was answered.
    unfoldable pub store_detail :
        String → Fields → Value → Dict String Fields → Action W (Dict String Fields)
    store_detail cid campaign response details = do
      user ← try_python (get "user" response)
      detail ← try_python (get "dropCampaign" (or_value user empty_dict))
      on_option (as_dict detail) (pure (insert cid campaign details)) (λ fs. do
        merged ← try_python (merge_campaign campaign fs)
        pure (insert cid merged details))

    -- Cached details stand in where the request failed, and the retry is noted.
    unfoldable pub detail_round :
        String → Fields → Dict String Fields → Action W (Dict String Fields × Bool)
    detail_round cid campaign details = do
      answer ← request_detail cid
      cached ← gets (λ s. lookup cid s.details)
      on_option answer
          (pure (elim cached [ none ↦ details | some fs ↦ insert cid fs details ], true))
          (λ response. do stored ← store_detail cid campaign response details; pure (stored, false))

    -- Whether a dashboard campaign concerns this account.
    unfoldable pub is_relevant :
        List String → List String → Dict String Fields → String → Fields → Result PyError Bool
    is_relevant games advertised ongoing cid campaign =
        Result.◌>>=◌ (get "id" (or_value (or_null (find "game" campaign)) empty_dict)) (λ g. ok (
          contains (to_text py g) games || contains cid advertised || is_some (lookup cid ongoing)))

    -- The loop over the dashboard; `none` where the miner was stopped.
    unfoldable pub dashboard_loop :
        List String
        → List String
        → Dict String Fields
        → List Value
        → Dict String Fields
        → Bool
        → Action W (Option (Dict String Fields × Bool))
    dashboard_loop games advertised ongoing [] details retry = pure (some (details, retry))
    dashboard_loop games advertised ongoing (v ∷ vs) details retry = do
      stopped ← sense client.is_set
      if stopped then pure none else do
        (cid, campaign) ← try_python (keyed py v)
        let go_on = dashboard_loop games advertised ongoing vs
        if not (is_current (or_null (find "status" campaign))) then go_on details retry else do
          relevant ← try_python (is_relevant games advertised ongoing cid campaign)
          if not relevant then go_on details retry else do
            (stored, failed) ← detail_round cid campaign details
            go_on stored (retry || failed)

    abbrev advertised_ids : List Channel → List String
    advertised_ids [] = []
    advertised_ids (c ∷ cs) = c.campaigns ++ advertised_ids cs

    -- What the loop found, and when the next discovery is due.
    unfoldable pub store_details : ℕ → Dict String Fields → Bool → Miner W → Miner W
    store_details now details retry s = record s {
      details = details;
      next_discovery = now + (if retry then refresh_interval else discovery_interval);
    }

    -- The dashboard part; false where the miner was stopped in its loop.
    unfoldable pub refresh_details : ℕ → Dict String Fields → Action W Bool
    refresh_details now ongoing = do
      dashboard ← ask (client.gql "Campaigns" end)
      user ← try_python (get "currentUser" dashboard)
      if not (is_dict user) then raise twitch else do
        online ← gets (λ s. s.online)
        listed ← try_python (get "dropCampaigns" user)
        campaigns ← try_python (iterate (or_value listed empty_list))
        let games = map (λ c. c.game_id) online ++ "509663" ∷ "509672" ∷ []
        found ← dashboard_loop games (advertised_ids online) ongoing campaigns [] false
        on_option found (pure false)
            (λ (details, retry). do modify (store_details now details retry); pure true)

    -- The last part: parse every known campaign anew. `set_order` is the order in which the
    -- interpreter runs through the union of three sets of keys.
    unfoldable pub rebuild_campaigns :
        (List String → List String) → Dict String Fields → Dict String ℕ → Action W (Unit {0})
    rebuild_campaigns set_order ongoing benefits = modify (λ s.
        let discovered = discovered_campaigns s.online [] in
        let cids =
          set_order
            (add_keys (keys discovered) (add_keys (keys ongoing) (add_keys (keys s.details) []))) in
        record s {
          campaigns =
              build_campaigns
                (parse_campaign s.details ongoing discovered benefits (advertisers s.online []))
                s.claimed cids [];
        })

    unfoldable pub refresh_inventory : (List String → List String) → ℕ → Action W (Unit {0})
    refresh_inventory set_order now = do
      answer ← ask (client.gql "Inventory" end)
      user ← try_python (get "currentUser" answer)
      inventory ← try_python (get "inventory" (or_value user empty_dict))
      if not (is_dict inventory) then raise twitch else do
        in_progress ← try_python (get "dropCampaignsInProgress" inventory)
        started ← try_python (iterate (or_value in_progress empty_list))
        ongoing ← try_python (index_items py started [])
        due ← gets (λ s. leb s.next_discovery now)
        go_on ← (if due then refresh_details now ongoing else pure true)
        if not go_on then pure tt else do
          awarded ← try_python (get "gameEventDrops" inventory)
          benefits ← try_python (claimed_benefits_from_inventory py awarded)
          rebuild_campaigns set_order ongoing benefits
