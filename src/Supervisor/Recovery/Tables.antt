-- ===== src/Supervisor/Recovery/Tables.antt =====
-- The changes of the incidents and the attempts in the recovery of controller/miner_supervisor.py, and its
-- delays.
use twitch_car_factory.Base.{
  ℕ, zero, suc, max, Bool, true, false, ◌&&◌, ◌||◌, Option, none, some, List, [], ◌∷◌, ◌++◌, ◌==◌,
  nat_eq, ltb, leb, map, filter_by, first, length, any_of, if◌then◌else◌,
}
use twitch_car_factory.Control.Text.{Text}
use twitch_car_factory.Control.Model.{ObservedState, restarting, degraded}
use twitch_car_factory.Supervisor.State.{
  Incident, exited_unexpectedly, IncidentStatus, opened, recovered, Attempt, Outcome, scheduled,
  started, done, failed, Farm, SupervisorOptions,
}

abbrev pub is_opened : IncidentStatus → Bool
is_opened opened = true
is_opened recovered = false

abbrev pub is_scheduled : Outcome → Bool
is_scheduled scheduled = true
is_scheduled started = false
is_scheduled done = false
is_scheduled failed = false

abbrev pub is_started : Outcome → Bool
is_started scheduled = false
is_started started = true
is_started done = false
is_started failed = false

abbrev pub has_ended : Outcome → Bool
has_ended scheduled = false
has_ended started = false
has_ended done = true
has_ended failed = false

abbrev pub names_account : Option ℕ → ℕ → Bool
names_account none id = false
names_account (some n) id = n == id

-- `MinerIncident.objects.filter(account=..., status=OPEN)`
abbrev pub open_for : ℕ → Incident → Bool
open_for id i = is_opened i.status && names_account i.account_id id

unfoldable pub open_incident : ℕ → Farm → Option Incident
open_incident id farm = first (filter_by (open_for id) farm.incidents)

-- `incident__account=..., incident__status=OPEN`
abbrev pub of_open_incident : ℕ → Farm → Attempt → Bool
of_open_incident id farm a =
    any_of (λ i. open_for id i && i.incident_id == a.incident_id) farm.incidents

abbrev pub update_attempts : (Attempt → Bool) → (Attempt → Attempt) → Farm → Farm
update_attempts which f farm = record farm {
  attempts = map (λ a. if which a then f a else a) farm.attempts;
}

unfoldable pub failed_at : ℕ → Text → Attempt → Attempt
failed_at at error a = record a { outcome = failed; finished_at = some at; error = error }

-- `order_by("scheduled_at", "attempt_number", "id")`
abbrev pub sooner : Attempt → Attempt → Bool
sooner a b =
    ltb a.scheduled_at b.scheduled_at
    || (a.scheduled_at == b.scheduled_at
        && (ltb a.attempt_number b.attempt_number
            || (a.attempt_number == b.attempt_number && ltb a.attempt_id b.attempt_id)))

unfoldable pub soonest : List Attempt → Option Attempt
soonest [] = none
soonest (a ∷ as') = elim (soonest as') [
  | none ↦ some a
  | some b ↦ some (if sooner b a then b else a)
]

unfoldable pub scheduled_of : ℕ → List Attempt → List Attempt
scheduled_of incident = filter_by λ a. a.incident_id == incident && is_scheduled a.outcome

-- `aggregate(value=Max("attempt_number"))["value"] or 0`
unfoldable pub last_ordinal : ℕ → List Attempt → ℕ
last_ordinal incident [] = 0
last_ordinal incident (a ∷ as') =
    let rest = last_ordinal incident as' in
    if a.incident_id == incident then max a.attempt_number rest else rest

-- The n-th delay of the backoff, counted from 1, and the degraded delay beyond it.
unfoldable pub nth_delay : List ℕ → ℕ → ℕ → ℕ
nth_delay [] n beyond = beyond
nth_delay (d ∷ ds) zero beyond = beyond
nth_delay (d ∷ ds) (suc n) beyond = if n == 0 then d else nth_delay ds n beyond

module _ (o : SupervisorOptions) where
  abbrev is_rapid : ℕ → Bool
  is_rapid retry_count = leb (suc retry_count) (length o.rapid_restart_backoff)

  unfoldable pub recovery_delay : Bool → ℕ → ℕ
  recovery_delay immediate retry_count =
      if immediate then 0 else nth_delay o.rapid_restart_backoff (suc retry_count) o.degraded_retry

  unfoldable pub recovery_state : ℕ → ObservedState
  recovery_state retry_count = if is_rapid retry_count then restarting else degraded

-- `RestartAttempt.objects.create(...)`
unfoldable pub new_attempt : ℕ → ℕ → Farm → Attempt
new_attempt incident at farm = record {
  attempt_id = farm.next_attempt;
  incident_id = incident;
  run_id = none;
  attempt_number = suc (last_ordinal incident farm.attempts);
  scheduled_at = at;
  started_at = none;
  finished_at = none;
  outcome = scheduled;
  error = [];
}

unfoldable pub add_attempt : Attempt → Farm → Farm
add_attempt a farm = record farm {
  attempts = farm.attempts ++ (a ∷ []);
  next_attempt = suc farm.next_attempt;
}

unfoldable pub new_incident : ℕ → ℕ → Text → ℕ → Farm → Incident
new_incident account run_id details at farm = record {
  incident_id = farm.next_incident;
  account_id = some account;
  run_id = some run_id;
  kind = exited_unexpectedly;
  status = opened;
  details = details;
  opened_at = at;
  recovered_at = none;
}

unfoldable pub add_incident : Incident → Farm → Farm
add_incident i farm = record farm {
  incidents = farm.incidents ++ (i ∷ []);
  next_incident = suc farm.next_incident;
}

abbrev pub update_incidents : (Incident → Bool) → (Incident → Incident) → Farm → Farm
update_incidents which f farm = record farm {
  incidents = map (λ i. if which i then f i else i) farm.incidents;
}

unfoldable pub recovered_at_time : ℕ → Incident → Incident
recovered_at_time at i = record i { status = recovered; recovered_at = some at }
