-- ===== src/Supervisor/Refresh.antt =====
-- reconcile_fingerprints of controller/miner_supervisor.py.
use twitch_car_factory.Base.{
  ℕ, some, true, false, not, none, List, [], ◌∷◌, ◌++◌, ◌==◌, nat_eq, text_eq, filter_by, first,
  is_some, if◌then◌else◌,
}
use twitch_car_factory.Base.Dict.{values, lookup, insert}
use twitch_car_factory.Base.Result.{Result, ok, err}
use twitch_car_factory.Base.Exec.{pure, gets, attempt, ◌>>=◌, ◌>>◌}
use twitch_car_factory.Control.Text.{Text, text}
use twitch_car_factory.Control.Model.{Run, config_restart}
use twitch_car_factory.Control.Resolve.{resolve_channels}
use twitch_car_factory.Supervisor.State.{
  Farm, write, with_control, Setup, Act, ManagedProcess, SupervisorError, read, service, found,
  get_account,
}
use twitch_car_factory.Supervisor.Process.{poll, safe_error}
use twitch_car_factory.Supervisor.Start.{restart_account}
use twitch_car_factory.Supervisor.Rounds.{reconcile_desired_state}

-- `MinerInstanceState.objects.filter(account_id=...).update(last_error=...)`
unfoldable pub note_error : ℕ → Text → Farm → Farm
note_error id error = with_control λ db. elim (lookup id db.states) [
  | none ↦ db
  | some t ↦ record db { states = insert id (record t { last_error = error }) db.states }
]

module _ {W : Type 0} (u : Setup W) where
  unfoldable pub refresh_run : Run → Act W (Unit {0})
  refresh_run run = do
    account ← get_account u run.account_id
    resolution ← service u (resolve_channels u.platform run.account_id account none)
    if resolution.fingerprint == run.fingerprint
        then pure tt
        else (restart_account u run.account_id config_restart false none >> pure tt)

  unfoldable pub refresh_failed :
      ManagedProcess → Result SupervisorError (Unit {0}) → Act W (Unit {0})
  refresh_failed m (ok _) = pure tt
  refresh_failed m (err e) =
      write u (
        note_error m.account_id
          (safe_error u (text "Configuration check failed: " ++ u.describe e)))

  -- One round of the loop of reconcile_fingerprints.
  unfoldable pub refresh_child : ManagedProcess → Act W (Unit {0})
  refresh_child m = do
    ended ← if not m.confirmed then pure true else (do code ← poll u m.process; pure (is_some code))
    if ended then pure tt else (do
      row ← read u (λ f. first (filter_by (λ (r : Run). r.run_id == m.run_id) f.control.runs))
      run ← found u row
      attempt (refresh_run run) >>= refresh_failed m)

  unfoldable pub refresh_children : List ManagedProcess → Act W (Unit {0})
  refresh_children [] = pure tt
  refresh_children (m ∷ ms) = refresh_child m >> refresh_children ms

  -- reconcile_fingerprints
  unfoldable pub reconcile_fingerprints : Act W (Unit {0})
  reconcile_fingerprints = do
    reconcile_desired_state u
    children ← gets (λ s. values s.processes)
    refresh_children children
