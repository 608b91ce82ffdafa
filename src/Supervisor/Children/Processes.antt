-- ===== src/Supervisor/Children/Processes.antt =====
-- The ends of processes and of runs, in controller/miner_supervisor.py, leave the entries of the
-- children alone.
use twitch_car_factory.Base.{ℕ, Bool, Option, [], ◌∷◌}
use twitch_car_factory.Base.Dict.{Dict}
use twitch_car_factory.Base.Result.{Result, ok, err}
use twitch_car_factory.Base.Exec.{modify}
use twitch_car_factory.Json.{ℤ}
use twitch_car_factory.Control.Text.{Text}
use twitch_car_factory.Control.Model.{StopReason}
use twitch_car_factory.Supervisor.State.{
  Pending, Setup, Signalled, SupervisorError, Waited, broken, exited, lookup_error, refused, sent,
  timed_out, unreported,
}
use twitch_car_factory.Supervisor.Process.{
  after_kill, after_last_wait, after_terminate, after_wait, close_run, confirm_exit,
  finalize_or_remember, flush_each, flush_pending_run_finalizations, forget, keep_pending, poll,
  reap_exited, remember, terminate_owned_process, wait,
}
use twitch_car_factory.Supervisor.Children.{IsQuiet, IsQuiet-bind}
use twitch_car_factory.Supervisor.Children.Quiet.{step_rules}

module _ {W : Type 0} (u : Setup W) where
  pub poll-IsQuiet : (h : ℕ) → IsQuiet (poll u h)
  unfolding poll
  poll-IsQuiet h = search step_rules depth 16

  reap_exited-IsQuiet : (h : ℕ) (o : Waited) → IsQuiet (reap_exited u h o)
  reap_exited-IsQuiet h (exited _) = search step_rules
  reap_exited-IsQuiet h timed_out = search step_rules
  reap_exited-IsQuiet h unreported = search step_rules
  reap_exited-IsQuiet h (broken _) = search step_rules

  pub wait-IsQuiet : (h : ℕ) → IsQuiet (wait u h)
  unfolding wait
  wait-IsQuiet h = search (step_rules, reap_exited-IsQuiet) depth 16

  pub confirm_exit-IsQuiet : (h : ℕ) (forced : Bool) → IsQuiet (confirm_exit u h forced)
  unfolding confirm_exit
  confirm_exit-IsQuiet h forced = search (step_rules, poll-IsQuiet) depth 16

  pub after_last_wait-IsQuiet : (o : Waited) → IsQuiet (after_last_wait u o)
  unfolding after_last_wait
  after_last_wait-IsQuiet (exited _) = search step_rules
  after_last_wait-IsQuiet timed_out = search step_rules
  after_last_wait-IsQuiet unreported = search step_rules
  after_last_wait-IsQuiet (broken _) = search step_rules

  pub after_kill-IsQuiet : (h : ℕ) (o : Signalled) → IsQuiet (after_kill u h o)
  unfolding after_kill
  after_kill-IsQuiet h sent = search (step_rules, wait-IsQuiet, after_last_wait-IsQuiet)
  after_kill-IsQuiet h lookup_error = confirm_exit-IsQuiet h _
  after_kill-IsQuiet h (refused _) = search step_rules

  pub after_wait-IsQuiet : (h : ℕ) (o : Waited) → IsQuiet (after_wait u h o)
  unfolding after_wait
  after_wait-IsQuiet h (exited _) = search step_rules
  after_wait-IsQuiet h timed_out = search (step_rules, after_kill-IsQuiet)
  after_wait-IsQuiet h unreported = search step_rules
  after_wait-IsQuiet h (broken _) = search step_rules

  pub after_terminate-IsQuiet : (h : ℕ) (o : Signalled) → IsQuiet (after_terminate u h o)
  unfolding after_terminate
  after_terminate-IsQuiet h sent = search (step_rules, wait-IsQuiet, after_wait-IsQuiet)
  after_terminate-IsQuiet h lookup_error = confirm_exit-IsQuiet h _
  after_terminate-IsQuiet h (refused _) = search step_rules

  pub terminate_owned_process-IsQuiet : (h : ℕ) → IsQuiet (terminate_owned_process u h)
  unfolding terminate_owned_process
  terminate_owned_process-IsQuiet h =
      search (step_rules, poll-IsQuiet, after_terminate-IsQuiet) depth 16

  pub close_run-IsQuiet :
      (run_id : ℕ) (code : Option ℤ) (reason : StopReason) (error : Text)
      → IsQuiet (close_run u run_id code reason error)
  unfolding close_run
  close_run-IsQuiet run_id code reason error = search step_rules

  remember-IsQuiet : (run_id : ℕ) (entry : Pending) → IsQuiet (remember u run_id entry)
  unfolding modify
  remember-IsQuiet run_id entry = record { quiet = λ s. record { keep = λ t b. b } }

  forget-IsQuiet : (run_id : ℕ) → IsQuiet (forget u run_id)
  unfolding modify
  forget-IsQuiet run_id = record { quiet = λ s. record { keep = λ t b. b } }

  keep_pending-IsQuiet :
      (run_id : ℕ) (entry : Pending) (r : Result SupervisorError (Unit {0}))
      → IsQuiet (keep_pending u run_id entry r)
  unfolding keep_pending
  keep_pending-IsQuiet run_id entry (ok _) = search (step_rules, forget-IsQuiet)
  keep_pending-IsQuiet run_id entry (err _) = search (step_rules, remember-IsQuiet)

  pub finalize_or_remember-IsQuiet :
      (run_id account : ℕ) (code : Option ℤ) (reason : StopReason) (error : Text)
      → IsQuiet (finalize_or_remember u run_id account code reason error)
  unfolding finalize_or_remember
  finalize_or_remember-IsQuiet run_id account code reason error =
      search (step_rules, close_run-IsQuiet, keep_pending-IsQuiet)

  flush_each-IsQuiet : (account : Option ℕ) (d : Dict ℕ Pending) → IsQuiet (flush_each u account d)
  unfolding flush_each
  flush_each-IsQuiet account [] = search step_rules
  flush_each-IsQuiet account ((run_id, entry) ∷ rest) =
      IsQuiet-bind _ _ (search (step_rules, finalize_or_remember-IsQuiet))
        (λ _. flush_each-IsQuiet account rest)

  pub flush-IsQuiet : (account : Option ℕ) → IsQuiet (flush_pending_run_finalizations u account)
  unfolding flush_pending_run_finalizations
  flush-IsQuiet account = search (step_rules, flush_each-IsQuiet)

pub ruleset process_rules = (
  step_rules, poll-IsQuiet, terminate_owned_process-IsQuiet, close_run-IsQuiet,
  finalize_or_remember-IsQuiet, flush-IsQuiet,
)
