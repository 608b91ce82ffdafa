-- ===== src/Tests/Supervisor.antt =====
-- A worker's steps on a queue of one command.
use twitch_car_factory.Base.{none, some, List, [], ◌∷◌, ◌≡◌, false, Member, ◌⊎◌, arith}
use twitch_car_factory.Control.Model.{Command, start, queued}
use twitch_car_factory.Control.Consistent.{OneActive}
use twitch_car_factory.Supervisor.Lease.{waiting, claim, lease_next_command, leasing, work}
use twitch_car_factory.Control.Commands.{earlier}
use twitch_car_factory.Supervisor.Order.{lease_next_command-oldest}
use twitch_car_factory.Supervisor.Claims.{KeyNames, work-OneActive}

abbrev waiting_start : Command
waiting_start = record {
  command_id = 1;
  account_id = 1;
  action = start;
  status = queued;
  actor = none;
  reason = [];
  lease_owner = [];
  lease_expires_at = none;
  attempts = 0;
  error = [];
  created_at = 100;
  leased_at = none;
  completed_at = none;
}

abbrev pub queue : List Command
queue = waiting_start ∷ []

pub queue-KeyNames : KeyNames queue
queue-KeyNames c d m n e = ground arith

pub queue-OneActive : OneActive queue
queue-OneActive id a = ground arith

work-OneActive_example : OneActive (work (1 ∷ []) (leasing 5 10) queue)
work-OneActive_example = work-OneActive (1 ∷ []) (leasing 5 10) queue queue-KeyNames queue-OneActive

lease_next_command-oldest_example :
    ((lease_next_command (1 ∷ []) 5 10 queue).0 ≡ none
      × ((d : Command) → Member d (waiting queue) → ⊥))
    ⊎ ((c : Command) × (Member c (waiting queue))
        × ((d : Command) → Member d (waiting queue) → earlier d c ≡ false)
        × ((lease_next_command (1 ∷ []) 5 10 queue).0 ≡ some (claim (1 ∷ []) 5 10 c)))
lease_next_command-oldest_example = lease_next_command-oldest (1 ∷ []) 5 10 queue
