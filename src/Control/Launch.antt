-- ===== src/Control/Launch.antt =====
-- create_launch_snapshot and purge_expired_legacy_import_drafts of controller/services.py, and
-- MinerRun.save and MinerAccount.save of controller/models.py.
use twitch_car_factory.Base.{
  ℕ, suc, Bool, not, ◌&&◌, Option, none, some, List, [], ◌∷◌, ◌++◌, ◌==◌, text_eq, Bool_eq, nat_eq,
  leb, length, filter_by, map, if◌then◌else◌,
}
use twitch_car_factory.Base.Dict.{lookup}
use twitch_car_factory.Base.Exec.{pure, gets, modify, atomic, ◌>>=◌, ◌>>◌}
use twitch_car_factory.Control.Text.{Text}
use twitch_car_factory.Control.Channels.{bad_snapshot, name}
use twitch_car_factory.Control.Model.{
  Account, Run, not_stopped, mode_label, auth_label, validate_channel_snapshot,
}
use twitch_car_factory.Control.Resolve.{
  no_credential, Service, Platform, check, required, require, get_account, put_account,
  resolve_channels,
}
use twitch_car_factory.Control.Presets.{same_texts}

-- The fields of IMMUTABLE_FIELDS.
unfoldable pub same_launch : Run → Run → Bool
same_launch a b =
    a.account_id == b.account_id
    && mode_label a.source_mode == mode_label b.source_mode
    && a.source_name == b.source_name
    && same_texts a.channels b.channels
    && a.fingerprint == b.fingerprint
    && a.revision == b.revision
    && auth_label a.method == auth_label b.method
    && a.reset_session == b.reset_session

-- MinerRun.save on a row that is stored, where `none` is the ValidationError.
unfoldable pub save_run : Run → List Run → Option (List Run)
save_run run [] = some []
save_run run (r ∷ rs) =
    let rest = save_run run rs in
    if r.run_id == run.run_id
    then if same_launch r run then some (run ∷ rs) else none
    else elim rest [ none ↦ none | some saved ↦ some (r ∷ saved) ]

-- `run.full_clean()`: the validator of the channels and the lengths of the fields.
unfoldable pub clean_run : Run → Service (Unit {0})
clean_run run = do
  check (validate_channel_snapshot (map name run.channels))
  require (leb (length run.source_name) 150) bad_snapshot
  require (leb 1 (length run.fingerprint) && leb (length run.fingerprint) 64) bad_snapshot
  require (leb (length run.worker_id) 200) bad_snapshot

-- MinerAccount.save on the row `stored`, where `none` is the ValidationError.
unfoldable pub save_account : Account → Account → Option Account
save_account stored account = if stored.config_key == account.config_key then some account else none

-- The drafts that purge_expired_legacy_import_drafts leaves, of pairs of a key and `expires_at`.
unfoldable pub purge_expired : ℕ → List (ℕ × ℕ) → List (ℕ × ℕ)
purge_expired at drafts = filter_by (λ d. not (leb d.1 at)) drafts

module _ (p : Platform) where
  unfoldable pub create_launch_snapshot : ℕ → Text → Bool → Service Run
  create_launch_snapshot id worker_id reset_session = atomic (do
    account ← get_account id
    resolution ← resolve_channels p id account none
    found ← gets (λ db. lookup id db.credentials)
    credential ← required no_credential found
    key ← gets (λ db. db.next_run)
    let run : Run = record {
      run_id = key;
      account_id = id;
      source_mode = resolution.mode;
      source_name = resolution.source_name;
      channels = resolution.channels;
      fingerprint = resolution.fingerprint;
      revision = account.channel_revision;
      method = credential.auth_method;
      reset_session = reset_session;
      worker_id = worker_id;
      pid = none;
      startup_confirmed_at = none;
      ended_at = none;
      exit_code = none;
      exit_signal = none;
      stop_reason = not_stopped;
      error = [];
    }
    clean_run run
    modify λ db. record db { runs = db.runs ++ (run ∷ []); next_run = suc key }
    if account.configuration_fingerprint == resolution.fingerprint
        then pure tt
        else put_account id (record account { configuration_fingerprint = resolution.fingerprint })
    pure run)
