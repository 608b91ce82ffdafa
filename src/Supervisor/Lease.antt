-- ===== src/Supervisor/Lease.antt =====
-- The claims of a worker on commands, in controller/miner_supervisor.py: _lease_next_command,
-- _finish_command, _is_superseded, _command_lease_duration and the recovery of claims at startup.
use twitch_car_factory.Base.{
  ℕ, suc, ◌+◌, max, Bool, not, ◌&&◌, Option, none, some, List, [], map, filter_by, any_of, ◌==◌,
  nat_eq, text_eq, if◌then◌else◌,
}
use twitch_car_factory.Control.Text.{Text}
use twitch_car_factory.Control.Model.{Command, CommandStatus, queued, leased, is_queued, is_leased}
use twitch_car_factory.Control.Commands.{is_active, earliest, earlier}

-- _command_lease_duration, in microseconds.
unfoldable pub command_lease_duration : ℕ → ℕ → ℕ → ℕ
command_lease_duration lease grace heartbeat = max lease (grace + heartbeat + 1_000_000)

unfoldable pub claim : Text → ℕ → ℕ → Command → Command
claim worker now duration c = record c {
  status = leased;
  lease_owner = worker;
  leased_at = some now;
  lease_expires_at = some (now + duration);
  attempts = suc c.attempts;
  error = [];
}

-- `MinerCommand.objects.filter(status=QUEUED)`
abbrev pub waiting : List Command → List Command
waiting = filter_by λ c. is_queued c.status

-- A write to the row of a command.
abbrev pub rewrite : ℕ → (Command → Command) → List Command → List Command
rewrite id f = map λ c. if c.command_id == id then f c else c

abbrev pub lease_found :
    Text → ℕ → ℕ → List Command → Option Command → Option Command × List Command
lease_found worker now duration cs none = (none, cs)
lease_found worker now duration cs (some c) =
    (some (claim worker now duration c), rewrite c.command_id (claim worker now duration) cs)

-- _lease_next_command: the command that is claimed, if one waits, and the queue after it.
unfoldable pub lease_next_command : Text → ℕ → ℕ → List Command → Option Command × List Command
lease_next_command worker now duration cs =
    lease_found worker now duration cs (earliest (waiting cs))

unfoldable pub finished : CommandStatus → ℕ → Text → Command → Command
finished status now error c = record c {
  status = status;
  completed_at = some now;
  lease_owner = [];
  lease_expires_at = none;
  error = error;
}

-- _finish_command, where `error` is what safe_error makes of the exception.
unfoldable pub finish_command : Text → ℕ → CommandStatus → ℕ → Text → List Command → List Command
finish_command worker id status now error = map λ c.
    if c.command_id == id && is_leased c.status && c.lease_owner == worker
    then finished status now error c
    else c

-- _is_superseded
unfoldable pub is_superseded : Command → List Command → Bool
is_superseded c = any_of λ d. d.account_id == c.account_id && is_active d && earlier c d

unfoldable pub requeued : Command → Command
requeued c = record c {
  status = queued;
  lease_owner = [];
  lease_expires_at = none;
  leased_at = none;
  error = [];
}

-- The claims that reconcile_startup takes from workers that are gone.
unfoldable pub recover_claims : Text → List Command → List Command
recover_claims worker =
    map λ c. if is_leased c.status && not (c.lease_owner == worker) then requeued c else c

-- What a worker does to the queue by itself.
pub data WorkerStep : Type 0 where
  leasing : ℕ → ℕ → WorkerStep
  finishing : ℕ → CommandStatus → ℕ → Text → WorkerStep
  recovering : WorkerStep

unfoldable pub work : Text → WorkerStep → List Command → List Command
work worker (leasing now duration) cs = (lease_next_command worker now duration cs).1
work worker (finishing id status now error) cs = finish_command worker id status now error cs
work worker recovering cs = recover_claims worker cs
