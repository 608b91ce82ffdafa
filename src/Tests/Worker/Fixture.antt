-- ===== src/Tests/Worker/Fixture.antt =====
-- A supervisor of one account, whose host answers each call and whose world counts the clock.
use twitch_car_factory.Base.{ℕ, suc, true, false, none, some, List, [], ◌∷◌, refl}
use twitch_car_factory.Json.{pos}
use twitch_car_factory.Control.Model.{Account, Database, new_state, running, twitch_tv, default}
use twitch_car_factory.Control.Resolve.{Platform}
use twitch_car_factory.Supervisor.State.{Host, Setup, Farm, Worker, SupervisorOptions, exited, sent}
use twitch_car_factory.Supervisor.Safety.{Task, starting, round, IsFresh}

abbrev pub platform : Platform
platform = record {
  casefold = λ t. t;
  encode = λ p. p.account_key;
  digest = λ t. t;
  encrypt = λ t. 1 ∷ t;
  decrypt = λ t. t;
}

abbrev pub host : Host ℕ
host = record {
  now = λ w. (w, suc w);
  monotonic = λ w. (w, suc w);
  spawn = λ command w. (none, w);
  poll = λ h w. (none, w);
  terminate = λ h w. (sent, w);
  kill = λ h w. (sent, w);
  wait = λ h w. (exited (pos 0), w);
  database_fault = λ w. (none, w);
  web = λ w. ([], w);
  arrivals = λ w. ([], w);
  remove_session = λ a w. (none, w);
}

abbrev pub options : SupervisorOptions
options = record {
  health_poll = 5;
  fingerprint_poll = 60;
  startup_grace = 10;
  authentication_handshake = 900;
  rapid_restart_backoff = 5 ∷ 30 ∷ 120 ∷ [];
  degraded_retry = 600;
  stable_reset = 3600;
  command_lease = 60;
  worker_lease = 30;
  worker_heartbeat = 5;
  require_authentication_events = false;
  fake_miner = true;
}

abbrev pub setup : Setup ℕ
setup = record {
  host = host;
  platform = platform;
  options = options;
  worker = 1 ∷ [];
  redact = λ t. t;
  describe = λ e. [];
  show_number = λ n. n ∷ [];
  show_code = λ c. [];
}

-- An account that is to run, with the channel "ann" of the farm.
abbrev pub account : Account
account = record {
  config_key = 65 ∷ [];
  display_username = 65 ∷ [];
  is_active = true;
  channel_revision = 0;
  configuration_fingerprint = [];
}

abbrev pub database : Database
database = record {
  accounts = (1, account) ∷ [];
  credentials = (1, record { auth_method = twitch_tv; password_ciphertext = 1 ∷ [] }) ∷ [];
  session_seeds = [];
  selections = (1, record { mode = default; preset_id = none }) ∷ [];
  custom_channels = [];
  presets = [];
  configuration =
      some
        (record { default_channels = (65 ∷ 110 ∷ 110 ∷ []) ∷ []; autostart_new_accounts = false });
  states = (1, record new_state { desired_state = running }) ∷ [];
  commands = [];
  runs = [];
  action_logs = [];
  next_account = 2;
  next_preset = 1;
  next_command = 1;
  next_run = 1;
}

abbrev pub farm : Farm
farm = record {
  control = database;
  incidents = [];
  attempts = [];
  lease = none;
  drafts = [];
  next_incident = 1;
  next_attempt = 1;
}

abbrev pub fresh : Worker ℕ
fresh = record {
  farm = farm;
  processes = [];
  pending_run_finalizations = [];
  is_started = false;
  shutdown_incomplete = false;
  recovered_stale_lease = false;
  last_health = none;
  last_fingerprint = none;
  last_heartbeat = none;
  next_process = 0;
  live = [];
  locked = false;
  world = 100;
}

pub fresh-IsFresh : IsFresh setup fresh
fresh-IsFresh = record { none_held = refl; none_live = refl }

-- A startup, which starts the child of the account, and a round.
abbrev pub tasks : List Task
tasks = starting ∷ round true ∷ []
