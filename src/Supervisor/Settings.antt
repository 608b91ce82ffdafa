-- ===== src/Supervisor/Settings.antt =====
-- The settings of controller/miner_supervisor.py: _number_setting, _backoff_setting and
-- SupervisorOptions.from_settings.
use twitch_car_factory.Base.{
  ℕ, Bool, true, not, ◌||◌, Option, none, some, List, [], ◌∷◌, filter_by, any_of, is_empty,
  contains, text_eq, or_else, if◌then◌else◌,
}
use twitch_car_factory.Base.Result.{Result, ok, err, ◌>>=◌, map_ok}
use twitch_car_factory.Control.Text.{Text, text, strip}

-- A value of django.conf.settings: a tuple or a list, a text, or another value.
pub data Setting (V : Type 0) : Type 0 where
  many : List V → Setting V
  words : Text → Setting V
  scalar : V → Setting V

-- What is not in the repository: the environment, the settings, `float(v)` and `float(s)`, which may raise,
-- `str(v)`, `s.split(",")`, `s.lower()`, and the numbers that the source writes.
pub record Surroundings (F V : Type 0) : Type 0 where
  pub environ : Text → Option Text
  pub settings : Text → Option (Setting V)
  pub float_of : V → Option F
  pub float_text : Text → Option F
  pub is_negative : F → Bool
  pub show : Setting V → Text
  pub split_commas : Text → List Text
  pub lower : Text → Text
  pub literal : ℕ → V

-- The exceptions: the ValueErrors of the source, and what `float` raises past them.
pub data SettingsError : Type 0 where
  no_number negative_number : Text → SettingsError
  no_delays negative_delays unhandled : SettingsError

-- SupervisorOptions, with the numbers as `float` gives them.
pub record Timings (F : Type 0) : Type 0 where
  pub command_poll : F
  pub health_poll : F
  pub fingerprint_poll : F
  pub startup_grace : F
  pub authentication_handshake : F
  pub stop_timeout : F
  pub rapid_restart_backoff : List F
  pub degraded_retry : F
  pub stable_reset : F
  pub command_lease : F
  pub worker_lease : F
  pub worker_heartbeat : F
  pub require_authentication_events : Bool
  pub fake_miner : Bool

module _ {F V : Type 0} (s : Surroundings F V) where
  abbrev pub float_raw : Setting V → Option F
  float_raw (many _) = none
  float_raw (words t) = s.float_text t
  float_raw (scalar v) = s.float_of v

  -- `os.environ.get(name)`, or `getattr(settings, name, fallback)`
  abbrev pub raw_setting : Text → Setting V → Setting V
  raw_setting name fallback = elim (s.environ name) [
    | some t ↦ words t
    | none ↦ or_else (s.settings name) fallback
  ]

  unfoldable pub checked : Text → Option F → Result SettingsError F
  checked name none = err (no_number name)
  checked name (some value) = if s.is_negative value then err (negative_number name) else ok value

  -- _number_setting
  unfoldable pub number_setting : Text → ℕ → Result SettingsError F
  number_setting name fallback =
      checked name (float_raw (raw_setting name (scalar (s.literal fallback))))

  abbrev number_or : SettingsError → Option F → Result SettingsError F
  number_or e none = err e
  number_or e (some x) = ok x

  abbrev pub delays_of : Setting V → Result SettingsError (List F)
  delays_of (many vs) = map_ok (λ v. number_or unhandled (s.float_of v)) vs
  delays_of (words t) =
      map_ok (λ piece. number_or no_delays (s.float_text (strip piece)))
        (filter_by (λ piece. not (is_empty (strip piece))) (s.split_commas t))
  delays_of (scalar v) =
      map_ok (λ piece. number_or no_delays (s.float_text (strip piece)))
        (filter_by (λ piece. not (is_empty (strip piece))) (s.split_commas (s.show (scalar v))))

  unfoldable pub checked_delays : List F → Result SettingsError (List F)
  checked_delays values =
      if is_empty values || any_of s.is_negative values then err negative_delays else ok values

  -- _backoff_setting
  unfoldable pub backoff_setting : Result SettingsError (List F)
  backoff_setting = do
    values ←
        delays_of (raw_setting (text "MINER_RAPID_RESTART_BACKOFF") (words (text "5,15,30,60,120")))
    checked_delays values

  -- The text of the setting for a simulated miner.
  abbrev fake_raw : Text
  fake_raw = elim (s.environ (text "TWITCH_FARM_FAKE_MINER")) [
    | some t ↦ t
    | none ↦ s.show (or_else (s.settings (text "TWITCH_FARM_FAKE_MINER")) (words (text "0")))
  ]

  abbrev is_fake : Bool
  is_fake =
      contains (s.lower (strip fake_raw)) (text "1" ∷ text "true" ∷ text "yes" ∷ text "on" ∷ [])

  unfoldable pub poll_setting : Option F → Result SettingsError F
  poll_setting (some seconds) = ok seconds
  poll_setting none = number_setting (text "MINER_COMMAND_POLL_SECONDS") 1

  -- SupervisorOptions.from_settings
  unfoldable pub from_settings : Option F → Result SettingsError (Timings F)
  from_settings command_poll_seconds = do
    command_poll ← poll_setting command_poll_seconds
    health_poll ← number_setting (text "MINER_HEALTH_POLL_SECONDS") 5
    fingerprint_poll ← number_setting (text "MINER_FINGERPRINT_POLL_SECONDS") 30
    startup_grace ← number_setting (text "MINER_STARTUP_GRACE_SECONDS") 15
    handshake ← number_setting (text "MINER_AUTHENTICATION_HANDSHAKE_SECONDS") 1900
    stop_timeout ← number_setting (text "MINER_STOP_TIMEOUT_SECONDS") 10
    backoff ← backoff_setting
    degraded_retry ← number_setting (text "MINER_DEGRADED_RETRY_SECONDS") 300
    stable_reset ← number_setting (text "MINER_STABLE_RESET_SECONDS") 600
    command_lease ← number_setting (text "MINER_COMMAND_LEASE_SECONDS") 45
    worker_lease ← number_setting (text "MINER_WORKER_LEASE_SECONDS") 20
    worker_heartbeat ← number_setting (text "MINER_WORKER_HEARTBEAT_SECONDS") 5
    ok (record {
      command_poll = command_poll;
      health_poll = health_poll;
      fingerprint_poll = fingerprint_poll;
      startup_grace = startup_grace;
      authentication_handshake = handshake;
      stop_timeout = stop_timeout;
      rapid_restart_backoff = backoff;
      degraded_retry = degraded_retry;
      stable_reset = stable_reset;
      command_lease = command_lease;
      worker_lease = worker_lease;
      worker_heartbeat = worker_heartbeat;
      require_authentication_events = true;
      fake_miner = is_fake;
    })
