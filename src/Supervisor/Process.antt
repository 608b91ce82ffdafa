-- ===== src/Supervisor/Process.antt =====
-- Children and run records of controller/miner_supervisor.py: safe_error, build_process_command,
-- _terminate_owned_process, _close_run, _finalize_or_remember and
-- _flush_pending_run_finalizations.
use twitch_car_factory.Base.{
  ℕ, suc, Bool, true, false, not, Option, none, some, List, [], ◌∷◌, ◌==◌, nat_eq, map, filter_by,
  take, length, is_empty, if◌then◌else◌,
}
use twitch_car_factory.Base.Dict.{Dict, insert, erase}
use twitch_car_factory.Base.Result.{Result, ok, err}
use twitch_car_factory.Base.Exec.{pure, raise, gets, modify, attempt, on_option, ◌>>=◌, ◌>>◌}
use twitch_car_factory.Json.{ℤ, pos, negsuc}
use twitch_car_factory.Control.Text.{Text, text}
use twitch_car_factory.Control.Model.{Run, StopReason}
use twitch_car_factory.Supervisor.State.{
  Setup, Act, Pending, Farm, SupervisorError, runtime_error, host_error, Signalled, sent,
  lookup_error, refused, Waited, exited, timed_out, unreported, broken, sense, write, with_control,
  now,
}

module _ {W : Type 0} (u : Setup W) where
  -- safe_error, which takes `limit` characters after the substitutions.
  unfoldable pub bounded_error : ℕ → Text → Text
  bounded_error limit t = take limit (u.redact (filter_by (λ c. not (c == 0)) t))

  abbrev pub safe_error : Text → Text
  safe_error t = bounded_error 2000 t

  abbrev pub safe_exception : SupervisorError → Text
  safe_exception e = safe_error (u.describe e)

  -- build_process_command, after `sys.executable`.
  unfoldable pub build_process_command : Run → List Text
  build_process_command run =
      let identifiers = u.show_number run.run_id ∷ u.show_number run.account_id ∷ [] in
      if u.options.fake_miner
      then text "manage.py" ∷ text "run_fake_miner" ∷ identifiers
      else text "-m" ∷ text "controller.miner_runner" ∷ identifiers

  -- The child is known to have ended.
  unfoldable pub reap : ℕ → Act W (Unit {0})
  reap h = modify λ s. record s { live = filter_by (λ l. not (l == h)) s.live }

  -- `process.poll()`
  unfoldable pub poll : ℕ → Act W (Option ℤ)
  poll h = do code ← sense (u.host.poll h); on_option code (pure none) λ c. do reap h; pure (some c)

  abbrev pub reap_exited : ℕ → Waited → Act W (Unit {0})
  reap_exited h (exited _) = reap h
  reap_exited h timed_out = pure tt
  reap_exited h unreported = pure tt
  reap_exited h (broken _) = pure tt

  -- `process.wait(timeout=...)`
  unfoldable pub wait : ℕ → Act W Waited
  wait h = do outcome ← sense (u.host.wait h); reap_exited h outcome; pure outcome

  -- What follows a ProcessLookupError.
  unfoldable pub confirm_exit : ℕ → Bool → Act W (ℤ × Bool)
  confirm_exit h forced = do
    code ← poll h
    on_option code
        (raise (runtime_error (text "Process disappeared but its exit could not be confirmed.")))
        λ c. pure (c, forced)

  unfoldable pub after_last_wait : Waited → Act W (ℤ × Bool)
  after_last_wait (exited c) = pure (c, true)
  after_last_wait timed_out = raise (host_error (text "timed out"))
  after_last_wait unreported =
      raise (runtime_error (text "Process did not report an exit after termination."))
  after_last_wait (broken e) = raise (host_error e)

  unfoldable pub after_kill : ℕ → Signalled → Act W (ℤ × Bool)
  after_kill h sent = wait h >>= after_last_wait
  after_kill h lookup_error = confirm_exit h true
  after_kill h (refused e) = raise (host_error e)

  unfoldable pub after_wait : ℕ → Waited → Act W (ℤ × Bool)
  after_wait h (exited c) = pure (c, false)
  after_wait h timed_out = sense (u.host.kill h) >>= after_kill h
  after_wait h unreported =
      raise (runtime_error (text "Process did not report an exit after termination."))
  after_wait h (broken e) = raise (host_error e)

  unfoldable pub after_terminate : ℕ → Signalled → Act W (ℤ × Bool)
  after_terminate h sent = wait h >>= after_wait h
  after_terminate h lookup_error = confirm_exit h false
  after_terminate h (refused e) = raise (host_error e)

  -- _terminate_owned_process: the return code, and whether the child was killed.
  unfoldable pub terminate_owned_process : ℕ → Act W (ℤ × Bool)
  terminate_owned_process h = do
    first ← poll h
    on_option first (sense (u.host.terminate h) >>= after_terminate h) λ c. pure (c, false)

  abbrev pub exit_code : Option ℤ → Option ℕ
  exit_code none = none
  exit_code (some (pos n)) = some n
  exit_code (some (negsuc n)) = none

  abbrev pub exit_signal : Option ℤ → Option ℕ
  exit_signal none = none
  exit_signal (some (pos n)) = none
  exit_signal (some (negsuc n)) = some (suc n)

  abbrev pub is_unended : Run → Bool
  is_unended run = elim run.ended_at [ none ↦ true | some _ ↦ false ]

  unfoldable pub ended : ℕ → Option ℤ → StopReason → Text → Run → Run
  ended at returncode reason error run = record run {
    ended_at = some at;
    exit_code = exit_code returncode;
    exit_signal = exit_signal returncode;
    stop_reason = reason;
    error = if is_empty error then [] else safe_error error;
  }

  -- `MinerRun.objects.filter(ended_at__isnull=True, ...).update(...)`
  abbrev pub update_runs : (Run → Bool) → (Run → Run) → Farm → Farm
  update_runs which f = with_control λ db. record db {
    runs = map (λ r. if is_unended r then (if which r then f r else r) else r) db.runs;
  }

  -- _close_run
  unfoldable pub close_run : ℕ → Option ℤ → StopReason → Text → Act W (Unit {0})
  close_run run_id returncode reason error = do
    at ← now u
    write u (update_runs (λ r. r.run_id == run_id) (ended at returncode reason error))

  abbrev pub remember : ℕ → Pending → Act W (Unit {0})
  remember run_id entry =
      modify λ s. record s {
        pending_run_finalizations = insert run_id entry s.pending_run_finalizations;
      }

  abbrev pub forget : ℕ → Act W (Unit {0})
  forget run_id =
      modify λ s. record s { pending_run_finalizations = erase run_id s.pending_run_finalizations }

  unfoldable pub keep_pending : ℕ → Pending → Result SupervisorError (Unit {0}) → Act W Bool
  keep_pending run_id entry (ok _) = forget run_id >> pure true
  keep_pending run_id entry (err _) = remember run_id entry >> pure false

  -- _finalize_or_remember
  unfoldable pub finalize_or_remember : ℕ → ℕ → Option ℤ → StopReason → Text → Act W Bool
  finalize_or_remember run_id account_id returncode reason error = do
    closed ← attempt (close_run run_id returncode reason (safe_error error))
    keep_pending run_id (account_id, returncode, reason, safe_error error) closed

  unfoldable pub concerns : Option ℕ → Pending → Bool
  concerns none entry = true
  concerns (some id) entry = entry.0 == id

  unfoldable pub flush_each : Option ℕ → Dict ℕ Pending → Act W (Unit {0})
  flush_each account [] = pure tt
  flush_each account ((run_id, entry) ∷ rest) = do
    if concerns account entry
        then (finalize_or_remember run_id entry.0 entry.1 entry.2 entry.3 >> pure tt)
        else pure tt
    flush_each account rest

  -- _flush_pending_run_finalizations
  unfoldable pub flush_pending_run_finalizations : Option ℕ → Act W ℕ
  flush_pending_run_finalizations account = do
    entries ← gets (λ s. s.pending_run_finalizations)
    flush_each account entries
    gets (λ s. length (filter_by (λ e. concerns account e.1) s.pending_run_finalizations))
