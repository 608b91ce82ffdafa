-- ===== src/Engine/Channels.antt =====
-- refresh_channels and refresh_current_sessions of controller/twitch_miner/engine.py.
use twitch_car_factory.Base.{
  ℕ, String, not, Option, none, some, List, [], ◌∷◌, ◌++◌, ◌==◌, string_eq, if◌then◌else◌, is_some,
}
use twitch_car_factory.Base.Dict.{Dict, keys, values, lookup, insert}
use twitch_car_factory.Base.Result.{Result, ok, err}
use twitch_car_factory.Base.Result
use twitch_car_factory.Base.Exec.{pure, gets, modify, on_option, ◌>>=◌, ◌>>◌}
use twitch_car_factory.Json.{
  PyError, type_error, Value, int, pos, str, obj, Fields, end, field, index, get, get_default,
  or_value, or_null, find, empty_dict, truthy, is_dict, as_dict,
}
use twitch_car_factory.Json.Python.{Python, to_text}
use twitch_car_factory.Inventory.Campaign.{Campaign}
use twitch_car_factory.Engine.State.{Channel, Client, Action, ask, sense, try_python, recover}

-- `isinstance(minutes, int) and not isinstance(minutes, bool) and minutes >= 0`
abbrev pub valid_minutes : Value → Option ℕ
valid_minutes (int (pos n)) = some n
valid_minutes _ = none

-- The first campaign that has the drop.
unfoldable pub campaign_with : String → List Campaign → Option String
campaign_with drop_id [] = none
campaign_with drop_id (c ∷ cs) =
    if is_some (lookup drop_id c.drops) then some c.id else campaign_with drop_id cs

module _ (py : Python) where
  -- `str(item["id"])` with the dict that it stands in.
  unfoldable pub keyed : Value → Result PyError (String × Fields)
  keyed (obj fs) = Result.◌>>=◌ (index "id" (obj fs)) (λ k. ok (to_text py k, fs))
  keyed v = err type_error

  -- `{str(item["id"]): item for item in items}`
  unfoldable pub index_items : List Value → Dict String Fields → Result PyError (Dict String Fields)
  index_items [] d = ok d
  index_items (v ∷ vs) d = Result.◌>>=◌ (keyed v) (λ e. index_items vs (insert e.0 e.1 d))

  abbrev pub drop_id_of : Fields → String
  drop_id_of current = to_text py (elim (find "dropID" current) [ none ↦ str "" | some v ↦ v ])

  -- `self.current_drop = current`, and the campaign is confirmed; a set has no duplicates.
  unfoldable pub confirm : Fields → List Campaign → Channel → Channel
  confirm current campaigns c = elim (campaign_with (drop_id_of current) campaigns) [
    | none ↦ c
    | some k ↦ record c {
      current_drop = some current;
      confirmed_campaigns = k ∷ c.confirmed_campaigns;
    }
  ]

  -- The session is the channel's own, and its minutes are a count.
  unfoldable pub accept_session : Fields → List Campaign → Channel → Result PyError Channel
  accept_session current campaigns c =
      let owner = or_value (or_null (find "channel" current)) empty_dict in
      if not (is_dict owner)
      then ok c
      else Result.◌>>=◌ (get_default "id" (str "") owner) (λ k. ok (
          if not (to_text py k == c.id)
          then c
          else if is_some (valid_minutes (or_null (find "currentMinutesWatched" current)))
          then confirm current campaigns c
          else c))

  module _ {W : Type 0} (client : Client W) where
    -- The campaigns that a channel advertises; none where Twitch cannot tell.
    unfoldable pub discover : String → Action W (Dict String Fields)
    discover channel_id =
        recover
          (do
            items ← ask (client.available_drop_campaigns channel_id)
            try_python (index_items items []))
          []

    unfoldable pub read_channel : String → Value → Value → Action W Channel
    read_channel login user live = do
      settings ← try_python (get "broadcastSettings" user)
      played ← try_python (get "game" (or_value settings empty_dict))
      let game = or_value played empty_dict
      channel_id ← try_python (index "id" user)
      game_id ← try_python (get_default "id" (str "") game)
      broadcast_id ← try_python (index "id" live)
      game_name ← try_python (get_default "name" (str "") game)
      discovered ← discover (to_text py channel_id)
      pure (record {
        login = login;
        id = to_text py channel_id;
        game_id = to_text py game_id;
        campaigns = keys discovered;
        broadcast_id = to_text py broadcast_id;
        game_name = to_text py game_name;
        discovered_campaigns = discovered;
        confirmed_campaigns = [];
        current_drop = none;
      })

    -- `not user or not user.get("stream")` skips the login.
    unfoldable pub add_channel : String → List Channel → Action W (List Channel)
    add_channel login online = do
      user ← ask (client.stream login)
      if not (truthy user) then pure online else do
        live ← try_python (get "stream" user)
        if not (truthy live)
            then pure online
            else do channel ← read_channel login user live; pure (online ++ channel ∷ [])

    -- `none` where the miner was stopped during the loop.
    unfoldable pub channel_loop : List String → List Channel → Action W (Option (List Channel))
    channel_loop [] online = pure (some online)
    channel_loop (login ∷ rest) online = do
      stopped ← sense client.is_set
      if stopped then pure none else do more ← add_channel login online; channel_loop rest more

    unfoldable pub refresh_channels : List String → Action W (Unit {0})
    refresh_channels channels = do
      found ← channel_loop channels []
      on_option found (pure tt) (λ online. modify (λ s. record s { online = online }))

    unfoldable pub read_session : Channel → Value → Action W Channel
    read_session c answer = do
      user ← try_python (get "currentUser" answer)
      session ← try_python (get "dropCurrentSession" (or_value user empty_dict))
      campaigns ← gets (λ s. values s.campaigns)
      on_option (as_dict session) (pure c)
          (λ current. try_python (accept_session current campaigns c))

    -- One round; a check that fails leaves the channel for the next minute.
    unfoldable pub check_session : Channel → Action W Channel
    check_session c = do
      answer ←
          recover
            (do
              v ← ask (client.gql "CurrentDrop" (field "channelID" (str c.id) end))
              pure (some v))
            none
      on_option answer (pure c) (read_session c)

    -- The channels are objects of `self.online`: each is written back before the next round.
    unfoldable pub session_loop : List Channel → List Channel → Action W (Unit {0})
    session_loop done [] = pure tt
    session_loop done (c ∷ rest) = do
      stopped ← sense client.is_set
      if stopped then pure tt else do
        checked ← check_session c
        modify (λ s. record s { online = done ++ checked ∷ rest })
        session_loop (done ++ checked ∷ []) rest

    unfoldable pub refresh_current_sessions : Action W (Unit {0})
    refresh_current_sessions = do online ← gets (λ s. s.online); session_loop [] online
