-- ===== src/Supervisor/Startup.antt =====
-- _acquire_database_lease and reconcile_startup of controller/miner_supervisor.py.
use twitch_car_factory.Base.{
  ℕ, ◌+◌, Bool, true, false, not, ◌&&◌, ◌||◌, Option, none, some, List, [], ◌∷◌, ◌++◌, ◌==◌, nat_eq,
  text_eq, leb, map, filter_by, any_of, first, is_some, if◌then◌else◌,
}
use twitch_car_factory.Base.Dict.{keys}
use twitch_car_factory.Base.Exec.{pure, raise, gets, modify, on_option, ◌>>=◌, ◌>>◌}
use twitch_car_factory.Control.Text.{Text, text}
use twitch_car_factory.Control.Model.{
  InstanceState, Run, StopReason, unexpected_exit, start_failed, unlinked, unknown, is_stopped,
  wants_running,
}
use twitch_car_factory.Supervisor.State.{
  Setup, Act, Farm, Incident, unclean_supervisor, recovered, WorkerLease, already_running, now,
  read, write, transaction, update_state,
}
use twitch_car_factory.Supervisor.Lease.{recover_claims}
use twitch_car_factory.Supervisor.Process.{is_unended, update_runs}
use twitch_car_factory.Supervisor.Recovery.{
  open_incident, schedule_recovery, update_attempts, is_scheduled, is_started, add_incident,
  failed_at,
}
use twitch_car_factory.Supervisor.Stop.{is_pending, without_login}
use twitch_car_factory.Supervisor.Execute.{with_commands}

-- An incident of a supervisor that was not shut down.
unfoldable pub unclean_incident : Text → ℕ → ℕ → Farm → Incident
unclean_incident details opened_at at farm = record {
  incident_id = farm.next_incident;
  account_id = none;
  run_id = none;
  kind = unclean_supervisor;
  status = recovered;
  details = details;
  opened_at = opened_at;
  recovered_at = some at;
}

-- Another worker's lease that has not expired, and one that has.
unfoldable pub is_held : Text → ℕ → Option WorkerLease → Bool
is_held worker at none = false
is_held worker at (some l) = not (l.owner_id == worker) && not (leb l.expires_at at)

unfoldable pub is_stale : Text → ℕ → Option WorkerLease → Bool
is_stale worker at none = false
is_stale worker at (some l) = not (l.owner_id == worker) && leb l.expires_at at

abbrev pub expiry : ℕ → Option WorkerLease → ℕ
expiry at none = at
expiry at (some l) = l.expires_at

-- The row of an account whose worker is gone. The fields of the login are written back as they were
-- read.
unfoldable pub unowned : ℕ → InstanceState → InstanceState → InstanceState
unowned at seen t =
    let login =
      if is_pending seen.authentication_status then without_login unlinked at seen else seen in
    record t {
      current_run = none;
      advisory_pid = none;
      worker_id = [];
      last_heartbeat = none;
      stable_since = none;
      next_retry_at = none;
      authentication_status = login.authentication_status;
      authentication_uri = login.authentication_uri;
      authentication_code = login.authentication_code;
      authentication_expires_at = login.authentication_expires_at;
      authentication_error = login.authentication_error;
      authentication_updated_at = login.authentication_updated_at;
      observed_state = if wants_running seen.desired_state then unknown else is_stopped;
    }

unfoldable pub lost_run : ℕ → StopReason → Text → Run → Run
lost_run at reason error run = record run {
  ended_at = some at;
  stop_reason = reason;
  error = error;
}

abbrev pub was_confirmed : Run → Bool
was_confirmed r = is_some r.startup_confirmed_at

module _ {W : Type 0} (u : Setup W) where
  abbrev pub own_lease : ℕ → WorkerLease
  own_lease at = record {
    owner_id = u.worker;
    acquired_at = at;
    heartbeat_at = at;
    expires_at = at + u.options.worker_lease;
  }

  unfoldable pub record_stale : ℕ → Option WorkerLease → Act W (Unit {0})
  record_stale at old = do
    write u (λ farm.
        add_incident
          (unclean_incident (text "A stale worker lease was recovered by " ++ u.worker ++ text ".")
            (expiry at old) at farm)
          farm)
    modify (λ s. record s { recovered_stale_lease = true })

  -- The transaction of _acquire_database_lease.
  unfoldable pub take_lease : ℕ → Act W (Unit {0})
  take_lease at = do
    old ← read u (λ f. f.lease)
    if is_held u.worker at old then raise already_running else (do
      write u (λ f. record f { lease = some (own_lease at) })
      if is_stale u.worker at old then record_stale at old else pure tt)

  -- _acquire_database_lease
  unfoldable pub acquire_database_lease : Act W (Unit {0})
  acquire_database_lease = do at ← now u; transaction u (take_lease at)

  -- The run that a row of MinerInstanceState names, if it is open.
  abbrev pub open_run : InstanceState → Farm → Option Run
  open_run state f = elim state.current_run [
    | none ↦ none
    | some r ↦ first (filter_by (λ (run : Run). run.run_id == r && is_unended u run) f.control.runs)
  ]

  -- One round of the first loop of reconcile_startup: whether a run was lost.
  unfoldable pub disown_state : ℕ → ℕ → InstanceState → Option Run → Act W Bool
  disown_state at id state run = do
    on_option run (pure tt) λ r. write u (
        update_runs u (λ q. q.run_id == r.run_id)
          (lost_run at unexpected_exit
            (text "Process ownership was lost before supervisor reconciliation.")))
    update_state u id (unowned at state)
    pure (is_some run)

  unfoldable pub disown_states : ℕ → List ((ℕ × InstanceState) × Option Run) → Act W Bool
  disown_states at [] = pure false
  disown_states at (((id, state), run) ∷ rest) = do
    lost ← disown_state at id state run
    others ← disown_states at rest
    pure (lost || others)

  -- The runs that no row names.
  unfoldable pub close_orphans : ℕ → Act W Bool
  close_orphans at = do
    orphaned ← read u (λ f. any_of (is_unended u) f.control.runs)
    if orphaned
        then (do
          write u (
              update_runs u (λ r. not (was_confirmed r))
                (lost_run at start_failed
                  (text "Unattached launch was finalized during supervisor startup.")))
          write u (
              update_runs u was_confirmed (
                lost_run at unexpected_exit
                  (text "Confirmed process ownership was lost before supervisor startup.")))
          pure true)
        else pure false

  unfoldable pub reschedule : List ℕ → Act W (Unit {0})
  reschedule [] = pure tt
  reschedule (id ∷ ids) = do
    incident ← read u (open_incident id)
    on_option incident (pure tt) λ i. schedule_recovery u id i.incident_id true >> pure tt
    reschedule ids

  abbrev pub lost_ownership : ℕ → Farm → Incident
  lost_ownership at farm =
      unclean_incident (text "Persisted process IDs were discarded and desired state was restored.")
        at at farm

  -- reconcile_startup
  unfoldable pub reconcile_startup : Act W (Unit {0})
  reconcile_startup = do
    at ← now u
    write u (with_commands u (recover_claims u.worker))
    rows ← read u (λ f. map (λ row. (row, open_run row.1 f)) f.control.states)
    lost ← disown_states at rows
    orphaned ← close_orphans at
    write u (
        update_attempts (λ a. is_scheduled a.outcome || is_started a.outcome)
          (failed_at at
            (text "Recovery attempt was superseded by supervisor startup reconciliation.")))
    running ←
        read u (λ f. keys (filter_by (λ row. wants_running row.1.desired_state) f.control.states))
    reschedule running
    known ← gets (λ s. s.recovered_stale_lease)
    if (lost || orphaned) && not known
        then write u (λ farm. add_incident (lost_ownership at farm) farm)
        else pure tt
