-- ===== src/Lib.antt =====
-- Twitch farm control room: a Django control plane for Twitch accounts, a supervisor that owns one
-- miner process for each running account, and the engine that each miner runs.
--
-- Base and its children hold what the parts share: tests and lists over the native numbers, equality
-- as an instance, dicts in insertion order, and two ways to run code that may raise: Result for
-- pure code, Exec for methods that keep what they wrote before a raise, whose atomic is a
-- transaction. Exec, Yields, Ensures, Safe and Total have the rules by
-- which an action's invariants, results, ends and returns are proved.
--
-- A module with a child that it passes on (Model and Model/Rows, State and State/Rows, Recovery and
-- Recovery/Tables, Start and Start/Begin, Wire and Wire/Device, Accounts and Accounts/Parts) has its
-- first part there.
--
-- Json: decoded JSON with the exceptions of Python's operations on it. Json.Python holds what is
-- not in the repository as parameters (datetime.fromisoformat and isoformat, str of a value that is
-- no text) and the readers _timestamp, _identifier and _minutes.
--
-- Inventory: controller/twitch_miner/inventory.py. Merge is merge_campaign; Campaign has Drop,
-- Campaign, can_earn, can_claim, earnable_drops, eligible_for and claimable_drops, where a drop's back
-- reference is the dict of its campaign's drops; Parse is Campaign.from_data, normalize_discovered_campaign
-- and claimed_benefits_from_inventory. Conditions, Eligibility, WellFormed, MergeLaws, Popped,
-- Ordered and DropMerge hold the proofs. Instants are UTC microseconds.
--
-- Engine: controller/twitch_miner/engine.py. State has Channel, the attributes of DropsMiner with the
-- events emitted so far, and the interface of TwitchClient, of the stop event and of the clocks over
-- an abstract world; Channels is refresh_channels and refresh_current_sessions, Metadata
-- refresh_inventory, Claims claim_drops, Selection eligible and the choice of a channel, Progress
-- update_progress, Step step and run. AuthenticationError and the interpreter's exceptions pass every
-- handler, as in the source. The order in which the interpreter runs through a set of keys is the
-- parameter set_order. The while loop of run takes fuel, the number of rounds: it ends only when the
-- stop event is set or an exception leaves it, so the theorems hold for every fuel. Logging is not
-- modelled. Rules, Refreshing, Confined, Priority, Raised, Memory, Verdict and Safety hold the proofs.
--
-- Control: controller/services.py on the tables of controller/models.py. Text holds Python's and
-- SQLite's operations on texts, as lists of code points; Channels is normalize_channels; Model the rows
-- and their save hooks; Resolve compute_configuration_fingerprint, resolve_channels and the refresh of
-- an account's fingerprint; Commands enqueue_command, enqueue_all and record_action; Selections
-- set_account_channel_selection; Accounts create_account, update_account, request_tv_authentication
-- and get_account_password; Presets save_preset, delete_preset and update_farm_configuration; Launch
-- create_launch_snapshot and the purge of drafts. A transaction that raises is rolled back. The JSON text
-- of a payload, the SHA-256 digest of a text, casefold outside ASCII and the cipher of passwords are the
-- parameter Platform; one instant stands for the calls of timezone.now in a request. Normalized,
-- Reference, Consistent, Calls, Coalescing, Serving, Stopping, Starting and the modules whose names start
-- with Keeps hold the proofs.
--
-- Supervisor: controller/miner_supervisor.py. Lease has the claims on the command queue. State has the
-- rows of incidents, attempts and the worker lease, ManagedProcess, SupervisorOptions and the attributes
-- of MinerSupervisor; Host is what is not in the repository: the clocks, the processes, the failures of
-- the database, the requests that the web serves between two statements outside a transaction, and what
-- the readers of the children's output deliver. Durations and instants are in microseconds. Process has
-- safe_error, _terminate_owned_process, _close_run and the finalizations that wait for the database;
-- Recovery the incidents, the attempts and the backoff; Exit _handle_unexpected_exit; Stop stop_account
-- and _reconcile_required_cleanup; Spawn _spawn_snapshot and _spawn_snapshot_if_desired_running; Start
-- start_account, restart_account and authenticate_account; Health _confirm_startup and the control
-- events; Rounds check_health and reconcile_desired_state; Due _perform_due_recoveries; Refresh
-- reconcile_fingerprints; Execute execute_command, process_pending_commands and heartbeat; Startup
-- _acquire_database_lease and reconcile_startup; Lifetime startup, run_once and shutdown. `live` is added
-- to the attributes: the children that were started and that no poll and no wait has reported as ended.
-- A write may fail, a query does not; a row of an account that a method is given is read anew where the
-- method uses it; the identity of a ManagedProcess is the number of its process. process_pending_commands
-- is bounded by its own limit, and no other loop but run_forever, which is a list of calls in Safety, is
-- unbounded. The file lock and its path, the log writers with their threads, and prepared_run, which no
-- caller gives, are not modelled. Wire is _parse_control_event, where json.loads and urlparse are
-- parameters that may raise; Settings is SupervisorOptions.from_settings, where the environment, float
-- and the numbers are parameters. Children has the steps that leave
-- the entries of the children alone and those that keep each living child held; Safety, Schedule,
-- Pending, Rollback, Taking, Acquire, Accepted, Delivered, Timely, Order, Claims and Phases hold the
-- other proofs.
--
-- Not modelled: the client of Twitch and its login, the archives of run logs, the import of the former
-- files, the child that runs a miner, the encryption of credentials, the API with its forms, the look-up
-- of channels, management commands, migrations, settings and the frontend. The parts above meet them as
-- parameters.
pub mod Base
pub mod Control
pub mod Engine
pub mod Inventory
pub mod Json
pub mod Supervisor
pub mod Tests
