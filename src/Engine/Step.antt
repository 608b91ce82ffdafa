-- ===== src/Engine/Step.antt =====
-- step and run of controller/twitch_miner/engine.py.
use twitch_car_factory.Base.{
  ℕ, zero, suc, ◌+◌, ◌-◌, max, String, Bool, true, false, not, ◌&&◌, Option, none, some, List, [],
  ◌∷◌, map, leb, ltb, ◌==◌, string_eq, contains, all_of, length, is_empty, if◌then◌else◌, or_else,
}
use twitch_car_factory.Base.Dict.{lookup, insert}
use twitch_car_factory.Base.Result.{Result, ok, err}
use twitch_car_factory.Base.Exec.{pure, raise, gets, modify, attempt, on_option, ◌>>=◌, ◌>>◌}
use twitch_car_factory.Json.Python.{Python}
use twitch_car_factory.Engine.State.{
  EngineError, twitch, Channel, Client, Miner, Action, ask, sense, recover, emit, refresh_interval,
  stall_interval, watch_interval, second,
}
use twitch_car_factory.Engine.Channels.{refresh_channels, refresh_current_sessions}
use twitch_car_factory.Engine.Metadata.{refresh_inventory}
use twitch_car_factory.Engine.Claims.{claim_drops}
use twitch_car_factory.Engine.Selection.{choose, eligible_channels}
use twitch_car_factory.Engine.Progress.{update_progress}

-- Two sets of games are one.
unfoldable pub same_games : List Channel → List Channel → Bool
same_games xs ys =
    let games = λ (cs : List Channel). map (λ c. c.game_id) cs in
    all_of (λ g. contains g (games ys)) (games xs) && all_of (λ g. contains g (games xs)) (games ys)

abbrev pub watches : Channel → Option Channel → Bool
watches channel none = false
watches channel (some c) = channel.login == c.login

module _ {W : Type 0} where
  -- `self.report`
  unfoldable pub report : Option Channel → Action W (Unit {0})
  report watched = do
    online ← gets (λ s. s.online)
    emit (elim watched [ none ↦ [] | some c ↦ c.login ∷ [] ]) (map (λ c. c.login) online)

  -- `self.watching is None or channel.login != self.watching.login` restarts the progress.
  unfoldable pub start_watching : Channel → ℕ → Miner W → Miner W
  start_watching channel now s =
      if watches channel s.watching
      then record s { watching = some channel }
      else record s { watching = some channel; progress = none; progress_at = now }

  -- Playback failed: the channel rests for a minute, and the next step refreshes.
  unfoldable pub give_up : Channel → ℕ → Miner W → Miner W
  give_up channel now s = record s {
    cooldowns = insert channel.login (now + refresh_interval) s.cooldowns;
    watching = none;
    next_refresh = 0;
  }

  -- No confirmed progress: a channel with an eligible rival rests.
  unfoldable pub rotate : Channel → ℕ → Bool → Miner W → Miner W
  rotate channel now rivals s = record s {
    cooldowns =
        if rivals then insert channel.login (now + stall_interval) s.cooldowns else s.cooldowns;
    watching = none;
  }

module _ (py : Python) (set_order : List String → List String) {W : Type 0} (client : Client W)
    (channels : List String) where
  unfoldable pub refresh : ℕ → ℕ → Action W (Unit {0})
  refresh now wall_now = do
    previous ← gets (λ s. s.online)
    refresh_channels py client channels
    modify (λ s. if same_games s.online previous then s else record s { next_discovery = 0 })
    recover (refresh_inventory py client set_order now) tt
    refresh_current_sessions py client
    claim_drops client wall_now
    modify (λ s. record s { next_refresh = now + refresh_interval })

  -- The heartbeat, and the bonus at most once a minute; the minute is noted before the claim.
  unfoldable pub earn_points : Channel → ℕ → Action W (Unit {0})
  earn_points channel now = do
    sent ← ask (
        client.send_points_watch channel.login channel.id channel.broadcast_id channel.game_id
          channel.game_name)
    due ← gets (λ s. leb (or_else (lookup channel.login s.next_points) 0) now)
    if not due then pure tt else do
      modify (λ s. record s {
        next_points = insert channel.login (now + refresh_interval) s.next_points;
      })
      claimed ← ask (client.claim_points channel.login)
      pure tt

  -- Progress and claims after a refresh, and the rotation of a stalled channel.
  unfoldable pub follow_progress : Channel → List Channel → ℕ → ℕ → Action W (Unit {0})
  follow_progress channel eligible now wall_now = do
    modify (update_progress py channel now wall_now)
    claim_drops client wall_now
    stalled ← gets (λ s. leb (s.progress_at + stall_interval) now)
    if not stalled then pure tt else do
      ask (client.reset_playback channel.login)
      modify (rotate channel now (ltb 1 (length eligible)))

  unfoldable pub watch_channel : Bool → Channel → List Channel → ℕ → ℕ → Action W (Unit {0})
  watch_channel refreshed channel eligible now wall_now = do
    modify (start_watching channel now)
    played ← ask (client.watch channel.login)
    if not played then (do modify (give_up channel now); report none) else do
      report (some channel)
      recover (earn_points channel now) tt
      if refreshed && not (is_empty eligible)
          then follow_progress channel eligible now wall_now
          else pure tt

  unfoldable pub step : ℕ → ℕ → Action W (Unit {0})
  step now wall_now = do
    due ← gets (λ s. leb s.next_refresh now)
    if due then refresh now wall_now else pure tt
    stopped ← sense client.is_set
    if stopped then pure tt else do
      chosen ← gets (choose now wall_now)
      eligible ← gets (eligible_channels now wall_now)
      on_option chosen (do modify (λ s. record s { watching = none }); report none)
          (λ channel. watch_channel due channel eligible now wall_now)

  -- How a round ends: the count of failures in a row, or the exception that ends the loop.
  unfoldable pub settle : ℕ → Result EngineError (Unit {0}) → Action W ℕ
  settle failures (ok _) = pure 0
  settle failures (err twitch) = do
    report none
    if leb 5 (failures + 1) then raise twitch else pure (failures + 1)
  settle failures (err e) = raise e

  -- `try: self.step(...)`
  unfoldable pub round : ℕ → Action W ℕ
  round failures = do
    (started, wall_now) ← sense client.clock
    outcome ← attempt (step started wall_now)
    failures' ← settle failures outcome
    (ended, _) ← sense client.clock
    modify (λ s. record s {
      world = client.wait (max second (watch_interval - (ended - started))) s.world;
    })
    pure failures'

  -- The while loop; false where the fuel ran out.
  unfoldable pub run_loop : ℕ → ℕ → Action W Bool
  run_loop zero failures = pure false
  run_loop (suc fuel) failures = do
    stopped ← sense client.is_set
    if stopped then pure true else do failures' ← round failures; run_loop fuel failures'

  -- `finally`: whatever ended the loop, nothing is watched any more.
  unfoldable pub run : ℕ → Action W Bool
  run fuel s = let (r, s') = run_loop fuel 0 s in let (_, s'') = emit [] [] s' in (r, s'')
