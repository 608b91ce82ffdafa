-- ===== src/Supervisor/Due.antt =====
-- _perform_due_recoveries of controller/miner_supervisor.py.
use twitch_car_factory.Base.{
  ltb, ℕ, suc, Bool, true, false, not, ◌&&◌, Option, none, some, List, [], ◌∷◌, ◌++◌, ◌==◌, nat_eq,
  text_eq, leb, filter_by, first, is_some, if◌then◌else◌,
}
use twitch_car_factory.Base.Dict.{lookup, keys}
use twitch_car_factory.Base.Result.{Result, ok, err}
use twitch_car_factory.Base.Exec.{pure, attempt, on_option, ◌>>=◌, ◌>>◌}
use twitch_car_factory.Control.Text.{Text, text}
use twitch_car_factory.Control.Model.{
  InstanceState, Run, start_failed, restarting, is_stopped, unknown, wants_running,
}
use twitch_car_factory.Supervisor.State.{
  Setup, Act, ManagedProcess, Attempt, started, failed, Farm, SupervisorError, now, read, write,
  transaction, found, get_state, update_state, managed_of,
}
use twitch_car_factory.Supervisor.Process.{
  close_run, finalize_or_remember, flush_pending_run_finalizations, safe_error, safe_exception,
}
use twitch_car_factory.Supervisor.Recovery.{
  open_incident, is_scheduled, is_started, schedule_recovery, update_attempts, fail_restart_attempt,
}
use twitch_car_factory.Supervisor.Stop.{released, reconcile_required_cleanup}
use twitch_car_factory.Supervisor.Spawn.{spawn_snapshot, require_cleanup}
use twitch_car_factory.Supervisor.Start.{snapshot, start_account}
use twitch_car_factory.Supervisor.Health.{same_process}
use twitch_car_factory.Supervisor.Rounds.{reached}

-- `order_by("attempt_number").first()`
unfoldable pub lowest : List Attempt → Option Attempt
lowest [] = none
lowest (a ∷ as') =
    let rest = lowest as' in
    elim rest [
      | none ↦ some a
      | some b ↦ some (if ltb b.attempt_number a.attempt_number then b else a)
    ]

module _ {W : Type 0} (u : Setup W) where
  -- The transaction that claims a due attempt: whether it is claimed.
  unfoldable pub claim_attempt : ℕ → ℕ → ℕ → Act W Bool
  claim_attempt id attempt_id at = do
    state ← get_state u id
    row ← read u (λ f. first (filter_by (λ (a : Attempt). a.attempt_id == attempt_id) f.attempts))
    a ← found u row
    if wants_running state.desired_state
          && reached state.next_retry_at at
          && is_scheduled a.outcome
          && leb a.scheduled_at at
        then (do
          update_state u id (λ t. record t {
            retry_count = suc t.retry_count;
            next_retry_at = none;
            observed_state = restarting;
          })
          write u (
              update_attempts (λ b. b.attempt_id == attempt_id)
                (λ b. record b { started_at = some at; outcome = started }))
          pure true)
        else pure false

  abbrev cancelled : Text
  cancelled =
      text
        "Recovery launch was cancelled because desired state or attempt ownership changed before spawn."

  -- The transaction that starts the child of a claimed attempt: whether it does.
  unfoldable pub spawn_recovery : ℕ → ℕ → Run → Act W Bool
  spawn_recovery id attempt_id run = do
    state ← get_state u id
    row ← read u (λ f. first (filter_by (λ (a : Attempt). a.attempt_id == attempt_id) f.attempts))
    a ← found u row
    if wants_running state.desired_state && is_started a.outcome
        then (spawn_snapshot u run none (some attempt_id) >> pure true)
        else (do
          close_run u run.run_id none start_failed cancelled
          at ← now u
          write u (
              update_attempts (λ b. b.attempt_id == attempt_id)
                (λ b. record b { outcome = failed; finished_at = some at; error = cancelled }))
          update_state u id (λ t. record (released t) {
            next_retry_at = none;
            observed_state = if wants_running t.desired_state then unknown else is_stopped;
          })
          pure false)

  -- The child that a failed recovery leaves behind, marked for cleanup.
  unfoldable pub provisional_child :
      ℕ → SupervisorError → Option Run → Act W (Option ManagedProcess)
  provisional_child id e none = pure none
  provisional_child id e (some run) = do
    owned ← managed_of u id
    on_option owned
        (finalize_or_remember u run.run_id run.account_id none start_failed (u.describe e)
          >> pure none)
        λ m.
          if m.run_id == run.run_id
          then (do
            let error =
                if m.cleanup_required
                then m.cleanup_error
                else safe_error u
                    (text "Recovery spawn transaction did not commit: " ++ u.describe e)
            require_cleanup u m error
            pure (some (record m { cleanup_required = true; cleanup_error = error })))
          else (finalize_or_remember u run.run_id run.account_id none start_failed (u.describe e)
              >> pure none)

  -- The handler of a recovery that failed.
  unfoldable pub recovery_failed : ℕ → ℕ → ℕ → Option Run → SupervisorError → Act W Bool
  recovery_failed id incident attempt_id run e = do
    provisional ← provisional_child id e run
    fail_restart_attempt u (some attempt_id) (u.describe e)
    state ← get_state u id
    update_state u id (λ t. record t {
      current_run = none;
      advisory_pid = none;
      worker_id = [];
      last_error = safe_exception u e;
    })
    if wants_running state.desired_state
        then (schedule_recovery u id incident false >> pure tt)
        else update_state u id (λ t. record t { observed_state = is_stopped; next_retry_at = none })
    current ← managed_of u id
    on_option provisional (pure tt)
        λ m. if same_process u m current then reconcile_required_cleanup u m else pure tt
    pure false

  unfoldable pub launch_recovery : ℕ → ℕ → Run → Act W Bool
  launch_recovery id attempt_id run = do
    write u (
        update_attempts (λ a. a.attempt_id == attempt_id)
          (λ a. record a { run_id = some run.run_id }))
    transaction u (spawn_recovery id attempt_id run)

  unfoldable pub recovery_launched :
      ℕ → ℕ → ℕ → Option Run → Result SupervisorError Bool → Act W Bool
  recovery_launched id incident attempt_id run (ok b) = pure b
  recovery_launched id incident attempt_id run (err e) =
      recovery_failed id incident attempt_id run e

  unfoldable pub recovery_snapshot : ℕ → ℕ → ℕ → Result SupervisorError Run → Act W Bool
  recovery_snapshot id incident attempt_id (ok run) = do
    launched ← attempt (launch_recovery id attempt_id run)
    recovery_launched id incident attempt_id (some run) launched
  recovery_snapshot id incident attempt_id (err e) = recovery_failed id incident attempt_id none e

  unfoldable pub claimed : Result SupervisorError Bool → Bool
  claimed (ok b) = b
  claimed (err e) = false

  -- A due attempt of an open incident.
  unfoldable pub recover_incident : ℕ → ℕ → ℕ → Act W Bool
  recover_incident id incident at = do
    due ← read u (λ f. lowest (
        filter_by
          (λ (a : Attempt).
            a.incident_id == incident && is_scheduled a.outcome && leb a.scheduled_at at)
          f.attempts))
    on_option due (schedule_recovery u id incident false >> pure false) λ a. do
      claim ← attempt (transaction u (claim_attempt id a.attempt_id at))
      if claimed claim
          then (attempt (snapshot u id false) >>= recovery_snapshot id incident a.attempt_id)
          else pure false

  unfoldable pub is_ok : Result SupervisorError ManagedProcess → Bool
  is_ok (ok _) = true
  is_ok (err _) = false

  -- One round of the loop of _perform_due_recoveries.
  unfoldable pub recover_account : ℕ → ℕ → Act W Bool
  recover_account at id = do
    owned ← managed_of u id
    if is_some owned then pure false else (do
      left ← flush_pending_run_finalizations u (some id)
      incident ← read u (open_incident id)
      if not (left == 0)
          then pure false
          else on_option incident
              (do begun ← attempt (start_account u id false none); pure (is_ok begun))
              λ i. recover_incident id i.incident_id at)

  unfoldable pub recover_accounts : ℕ → List ℕ → Act W ℕ
  recover_accounts at [] = pure 0
  recover_accounts at (id ∷ ids) = do
    begun ← recover_account at id
    rest ← recover_accounts at ids
    pure (if begun then suc rest else rest)

  -- The accounts whose retry is due.
  abbrev pub is_due : ℕ → Farm → ℕ × InstanceState → Bool
  is_due at f row =
      wants_running row.1.desired_state
      && reached row.1.next_retry_at at
      && (elim (lookup row.0 f.control.accounts) [ none ↦ false | some a ↦ a.is_active ])
      && is_some (lookup row.0 f.control.credentials)

  -- _perform_due_recoveries
  unfoldable pub perform_due_recoveries : Act W ℕ
  perform_due_recoveries = do
    at ← now u
    ids ← read u (λ f. keys (filter_by (is_due at f) f.control.states))
    recover_accounts at ids
