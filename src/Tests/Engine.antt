-- ===== src/Tests/Engine.antt =====
-- Rounds of the engine against a client that answers from fixed values.
use twitch_car_factory.Base.{
  ℕ, suc, ◌+◌, String, true, false, none, some, List, [], ◌∷◌, ◌≡◌, ◌⊎◌, refl, is_empty, leb,
  if◌then◌else◌, ◌==◌, string_eq,
}
use twitch_car_factory.Base.Result.{ok, err}
use twitch_car_factory.Json.{Value, null, str, obj, end, field}
use twitch_car_factory.Engine.State.{Client, Channel, Miner, Point, twitch, new, sense, ask, emit}
use twitch_car_factory.Engine.Confined.{IsConfined}
use twitch_car_factory.Engine.Step.{run, run_loop, round, settle, step, refresh, report}
use twitch_car_factory.Engine.Selection.{choose}
use twitch_car_factory.Engine.Priority.{Chosen, choose-Chosen}
use twitch_car_factory.Engine.Safety.Step.{run-IsConfined}
use twitch_car_factory.Base.Exec.{Keeps, ◌>>=◌, attempt, gets, modify, raise, pure}
use twitch_car_factory.Engine.Channels.{refresh_channels, channel_loop, add_channel}
use twitch_car_factory.Engine.Metadata.{refresh_inventory}
use twitch_car_factory.Engine.Progress.{update_progress, differs}
use twitch_car_factory.Engine.Raised.{RaisedCampaigns, update_progress-Raised}
use twitch_car_factory.Engine.Verdict.{error_of, verdict, outcomes, run-verdict}
use twitch_car_factory.Engine.Memory.{IsMindful, refresh_inventory-IsMindful}
use twitch_car_factory.Tests.Inventory.{py, campaign}

-- Only "b" is live; no campaigns are known. The world counts the calls.
abbrev live_user : Value
live_user = obj (field "id" (str "7") (field "stream" (obj (field "id" (str "s") end)) end))

abbrev gql_answer : String → Value
gql_answer name =
    if name == "Inventory"
    then obj (field "currentUser" (obj (field "inventory" (obj end) end)) end)
    else if name == "Campaigns"
    then obj (field "currentUser" (obj (field "id" (str "u") end)) end)
    else obj end

abbrev pub client : Client ℕ
client = record {
  user_id = "u";
  stream = λ login w. (ok (if login == "b" then live_user else null), suc w);
  available_drop_campaigns = λ c w. (ok [], suc w);
  gql = λ name v w. (ok (gql_answer name), suc w);
  watch = λ login w. (ok true, suc w);
  send_points_watch = λ a b c d e w. (ok true, suc w);
  claim_points = λ login w. (ok false, suc w);
  reset_playback = λ login w. (ok tt, suc w);
  is_set = λ w. (leb 30 w, w);
  clock = λ w. ((w, w), w);
  wait = λ n w. w + 10;
}

run-IsConfined_example :
    IsConfined ("a" ∷ "b" ∷ []) none (run py (λ ks. ks) client ("a" ∷ "b" ∷ []) 9 (new 0)).1
run-IsConfined_example = run-IsConfined py (λ ks. ks) client ("a" ∷ "b" ∷ []) 9 0

abbrev channel_of : String → Channel
channel_of l = record {
  login = l;
  id = "7";
  game_id = "g";
  campaigns = "c" ∷ [];
  broadcast_id = "s";
  game_name = "";
  discovered_campaigns = [];
  confirmed_campaigns = [];
  current_drop = none;
}

abbrev two_online : Miner ℕ
two_online = record (unfold new in new 0) {
  online = record (channel_of "a") { campaigns = [] } ∷ channel_of "b" ∷ [];
  campaigns = ("c", campaign) ∷ [];
}

choose-Chosen_example : Chosen 5 5_000_000 two_online (choose 5 5_000_000 two_online)
choose-Chosen_example = choose-Chosen 5 5_000_000 two_online

abbrev failing : Client ℕ
failing = record client { stream = λ login w. (err twitch, suc w); is_set = λ w. (false, w) }

fails_at_last : (run py (λ ks. ks) failing ("a" ∷ []) 5 (new 0)).0 ≡ err twitch
unfolding run run_loop ◌>>=◌ sense round attempt settle step gets new refresh refresh_channels
    channel_loop add_channel ask report emit modify raise pure
fails_at_last = refl

run-verdict_example :
    error_of (run py (λ ks. ks) failing ("a" ∷ []) 5 (new 0)).0
    ≡ verdict 0 (outcomes py (λ ks. ks) failing ("a" ∷ []) 5 0 (new 0))
run-verdict_example = run-verdict py (λ ks. ks) failing ("a" ∷ []) 5 (new 0)

refresh_inventory-IsMindful_example :
    Keeps (IsMindful py client) (refresh_inventory py client (λ ks. ks) 100)
refresh_inventory-IsMindful_example = refresh_inventory-IsMindful py client (λ ks. ks) 100

update_progress-Raised_example :
    RaisedCampaigns two_online.campaigns
      (update_progress py (channel_of "b") 7 5_000_000 two_online).campaigns
    × ((((update_progress py (channel_of "b") 7 5_000_000 two_online).progress_at
            ≡ two_online.progress_at)
          × ((update_progress py (channel_of "b") 7 5_000_000 two_online).progress
              ≡ two_online.progress))
        ⊎ (((update_progress py (channel_of "b") 7 5_000_000 two_online).progress_at ≡ 7)
            × ((noted : List Point) × ((update_progress py
                    (channel_of "b")
                    7
                    5_000_000
                    two_online).progress
                  ≡ some noted)
                × (is_empty noted ≡ false)
                × (differs noted two_online.progress ≡ true))))
update_progress-Raised_example = update_progress-Raised py (channel_of "b") 7 5_000_000 two_online
