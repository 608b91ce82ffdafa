-- ===== src/Tests/Settings.antt =====
-- Options, names and commands at concrete values.
use twitch_car_factory.Base.{
  ℕ, true, false, not, ◌&&◌, none, some, [], ◌∷◌, ◌≡◌, all_of, is_empty, if◌then◌else◌,
}
use twitch_car_factory.Base.Result.{ok, err}
use twitch_car_factory.Base.Yields.{OnOk}
use twitch_car_factory.Control.Text.{text, valid_channel}
use twitch_car_factory.Control.Channels.{normalize_channels, names, invalid_channel, no_channels}
use twitch_car_factory.Control.Model.{start}
use twitch_car_factory.Control.Reference.{typed, first_spellings, normalize_channels-reference}
use twitch_car_factory.Supervisor.Settings.{Surroundings, from_settings}
use twitch_car_factory.Supervisor.Timely.{IsTimely, from_settings-IsTimely}
use twitch_car_factory.Supervisor.Lease.{leasing, work}
use twitch_car_factory.Supervisor.Phases.{advance, phase_of, work-advance}
use twitch_car_factory.Tests.Supervisor.{queue, queue-KeyNames, queue-OneActive}

-- Nothing is set, and a text is read as the number of its first character.
abbrev unset : Surroundings ℕ ℕ
unset = record {
  environ = λ _. none;
  settings = λ _. none;
  float_of = λ v. some v;
  float_text = λ t. some 5;
  is_negative = λ x. false;
  show = λ _. text "0";
  split_commas = λ t. text "5" ∷ text "15" ∷ [];
  lower = λ t. t;
  literal = λ n. n;
}

from_settings-IsTimely_example : OnOk (IsTimely unset (some 2)) (from_settings unset (some 2))
from_settings-IsTimely_example = from_settings-IsTimely unset (some 2)

normalize_channels-reference_example :
    normalize_channels (names (text "Ann, ,ann" ∷ text "bob" ∷ [])) true ≡ (
      if not (all_of valid_channel (typed (text "Ann, ,ann" ∷ text "bob" ∷ [])))
      then err invalid_channel
      else if true && is_empty (typed (text "Ann, ,ann" ∷ text "bob" ∷ []))
      then err no_channels
      else ok (first_spellings (typed (text "Ann, ,ann" ∷ text "bob" ∷ []))))
normalize_channels-reference_example =
    normalize_channels-reference (text "Ann, ,ann" ∷ text "bob" ∷ []) true

work-advance_example :
    phase_of 1 start (work (1 ∷ []) (leasing 5 10) queue)
    ≡ advance (1 ∷ []) (leasing 5 10) queue (phase_of 1 start queue)
work-advance_example =
    work-advance (1 ∷ []) (leasing 5 10) queue 1 start queue-KeyNames queue-OneActive tt
