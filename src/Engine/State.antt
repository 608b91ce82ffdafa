-- ===== src/Engine/State.antt =====
-- The state of DropsMiner, the Twitch client as the engine uses it, and its exceptions. Monotonic
-- times and wall clock instants are microseconds.
use twitch_car_factory.Base.{ℕ, String, Bool, Option, none, List, [], ◌∷◌, ◌++◌}
use twitch_car_factory.Base.Dict.{Dict}
use twitch_car_factory.Base.Result.{Result, ok, err}
use twitch_car_factory.Base.Exec.{Exec, modify}
use twitch_car_factory.Json.{PyError, Value, Fields}
use twitch_car_factory.Inventory.Campaign.{Campaign}

-- AuthenticationError is a TwitchError that the engine never swallows; `python` is an exception of
-- the interpreter, which no handler of the engine catches.
pub data EngineError : Type 0 where
  authentication twitch : EngineError
  python : PyError → EngineError

abbrev pub second : ℕ
second = 1_000_000

abbrev pub watch_interval : ℕ
watch_interval = 20_000_000

abbrev pub refresh_interval : ℕ
refresh_interval = 60_000_000

abbrev pub discovery_interval : ℕ
discovery_interval = 600_000_000

abbrev pub stall_interval : ℕ
stall_interval = 300_000_000

-- `current_drop` is the dict of the current session, which was checked before it was stored.
pub record Channel : Type 0 where
  pub login : String
  pub id : String
  pub game_id : String
  pub campaigns : List String
  pub broadcast_id : String
  pub game_name : String
  pub discovered_campaigns : Dict String Fields
  pub confirmed_campaigns : List String
  pub current_drop : Option Fields

-- What the operations of TwitchClient answer; `W` is whatever the answers depend on. `is_set` and
-- `clock` are the stop event and the two clocks, `wait` the pause on the stop event.
pub record Client (W : Type 0) : Type 0 where
  pub user_id : String
  pub stream : String → W → Result EngineError Value × W
  pub available_drop_campaigns : String → W → Result EngineError (List Value) × W
  pub gql : String → Fields → W → Result EngineError Value × W
  pub watch : String → W → Result EngineError Bool × W
  pub send_points_watch :
      String → String → String → String → String → W → Result EngineError Bool × W
  pub claim_points : String → W → Result EngineError Bool × W
  pub reset_playback : String → W → Result EngineError (Unit {0}) × W
  pub is_set : W → Bool × W
  pub clock : W → (ℕ × ℕ) × W
  pub wait : ℕ → W → W

-- A "watching_channels" event of the emitter.
pub record Event : Type 0 where
  pub channels : List String
  pub online_channels : List String

-- (campaign id, drop id, minutes)
abbrev pub Point : Type 0
Point = String × String × ℕ

-- The attributes of DropsMiner that change, the events emitted so far, and the world.
pub record Miner (W : Type 0) : Type 0 where
  pub online : List Channel
  pub campaigns : Dict String Campaign
  pub details : Dict String Fields
  pub claimed : List (String × String)
  pub cooldowns : Dict String ℕ
  pub next_refresh : ℕ
  pub next_discovery : ℕ
  pub next_points : Dict String ℕ
  pub watching : Option Channel
  pub progress : Option (List Point)
  pub progress_at : ℕ
  pub events : List Event
  pub world : W

-- `__init__`
unfoldable pub new : {W : Type 0} → W → Miner W
new w = record {
  online = [];
  campaigns = [];
  details = [];
  claimed = [];
  cooldowns = [];
  next_refresh = 0;
  next_discovery = 0;
  next_points = [];
  watching = none;
  progress = none;
  progress_at = 0;
  events = [];
  world = w;
}

abbrev pub Action : Type 0 → Type 0 → Type 0
Action W A = Exec EngineError (Miner W) A

abbrev pub caught : {A : Type 0} → A → Result EngineError A → Result EngineError A
caught fallback (err twitch) = ok fallback
caught fallback r = r

module _ {W A : Type 0} where
  -- A call of the client.
  unfoldable pub ask : (W → Result EngineError A × W) → Action W A
  ask call s = let (r, w) = call s.world in (r, record s { world = w })

  -- A reading of the stop event or of the clocks.
  unfoldable pub sense : (W → A × W) → Action W A
  sense call s = let (a, w) = call s.world in (ok a, record s { world = w })

  -- Python code that may raise.
  unfoldable pub try_python : Result PyError A → Action W A
  try_python (ok a) s = (ok a, s)
  try_python (err e) s = (err (python e), s)

  -- `except AuthenticationError: raise` and `except TwitchError`: go on with a fallback.
  unfoldable pub recover : Action W A → A → Action W A
  recover m fallback s = let (r, s') = m s in (caught fallback r, s')

module _ {W : Type 0} where
  -- `self.report`
  unfoldable pub emit : List String → List String → Action W (Unit {0})
  emit channels online_channels = modify (λ s. record s {
    events = s.events ++ record { channels = channels; online_channels = online_channels } ∷ [];
  })
