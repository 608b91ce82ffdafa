-- ===== src/Supervisor/Schedule.antt =====
-- The delays and the attempts of controller/miner_supervisor.py's recoveries.
use twitch_car_factory.Base.{
  ℕ, zero, suc, ◌≤◌, ◌<◌, true, false, none, some, List, [], ◌∷◌, ◌≡◌, refl, nat_eq, Member, inl,
  inr, Option-cases, Bool-cases, sym, if◌then◌else◌, arith, ◌==◌, ◌&&◌, ◌↔◌, Member-filter_by,
  Option,
}
use mathlib.Core.Path.{subst, ap, ◌∙◌}
use twitch_car_factory.Supervisor.State.{Attempt, Farm, Outcome, scheduled, started, done, failed}
use twitch_car_factory.Supervisor.Recovery.{
  last_ordinal, new_attempt, soonest, sooner, scheduled_of, is_scheduled,
}

-- The values of a function at 0, 1, 2, ..., so many of them.
abbrev pub first_of : (ℕ → ℕ) → ℕ → List ℕ
first_of f zero = []
first_of f (suc n) = f 0 ∷ first_of (λ i. f (suc i)) n

own_number :
    {incident : ℕ} (b : Attempt) (bs : List Attempt)
    → b.incident_id ≡ incident
    → b.attempt_number ≤ last_ordinal incident (b ∷ bs)
unfolding last_ordinal
own_number {incident = incident} b bs same = ground (arith, nat_eq.agrees b.incident_id incident)

last_ordinal-bound :
    (incident : ℕ) (as' : List Attempt) (a : Attempt)
    → Member a as'
    → a.incident_id ≡ incident
    → a.attempt_number ≤ last_ordinal incident as'
unfolding last_ordinal
last_ordinal-bound incident [] a m same = elim m [ ]
last_ordinal-bound incident (b ∷ bs) a (inl e) same =
    subst (λ x. x.attempt_number ≤ last_ordinal incident (b ∷ bs)) e
      (own_number b bs (ap (λ x. x.incident_id) e ∙ same))
last_ordinal-bound incident (b ∷ bs) a (inr m) same =
    ground (arith, last_ordinal-bound incident bs a m same)

-- A new attempt of an incident is numbered after each attempt of that incident that is stored.
pub new_attempt-after :
    (incident at : ℕ) (farm : Farm) (a : Attempt)
    → Member a farm.attempts
    → a.incident_id ≡ incident
    → a.attempt_number < (new_attempt incident at farm).attempt_number
unfolding new_attempt
new_attempt-after incident at farm a m same =
    omega (arith, last_ordinal-bound incident farm.attempts a m same)

sooner_asym : (b x : Attempt) → sooner b x ≡ true → sooner x b ≡ false
sooner_asym b x h = ground (
  arith,
  nat_eq.agrees b.scheduled_at x.scheduled_at,
  nat_eq.agrees b.attempt_number x.attempt_number,
)

sooner_irrefl : (x : Attempt) → sooner x x ≡ false
sooner_irrefl x = ground arith

not_sooner_trans : (d b x : Attempt) → sooner d b ≡ false → sooner b x ≡ false → sooner d x ≡ false
not_sooner_trans d b x h k = ground arith

soonest-none : (as' : List Attempt) → soonest as' ≡ none → as' ≡ []
unfolding soonest
soonest-none [] h = refl
soonest-none (a ∷ as') h = elim (Option-cases (soonest as')) [
  | inl e ↦ ground (arith, e, h)
  | inr (b, e) ↦ ground (arith, e, h)
]

-- The attempts of a list none of which is sooner than `a`, which is one of them.
abbrev IsSoonest : Attempt → List Attempt → Type 0
IsSoonest a as' = Member a as' × ((b : Attempt) → Member b as' → sooner b a ≡ false)

extend-IsSoonest :
    (x b : Attempt) (xs : List Attempt)
    → IsSoonest b xs
    → IsSoonest (if sooner b x then b else x) (x ∷ xs)
extend-IsSoonest x b xs h = elim (Bool-cases (sooner b x)) [
  | inl q ↦
      subst (λ y. IsSoonest y (x ∷ xs)) (ground (arith, q))
        (
          inr h.0,
          λ d m. elim m [
            | inl p ↦ subst (λ y. sooner y b ≡ false) p (sooner_asym b x q)
            | inr n ↦ h.1 d n
          ],
        )
  | inr q ↦
      subst (λ y. IsSoonest y (x ∷ xs)) (ground (arith, q))
        (
          inl refl,
          λ d m. elim m [
            | inl p ↦ subst (λ y. sooner y x ≡ false) p (sooner_irrefl x)
            | inr n ↦ not_sooner_trans d b x (h.1 d n) q
          ],
        )
]

soonest-IsSoonest : (as' : List Attempt) (a : Attempt) → soonest as' ≡ some a → IsSoonest a as'
unfolding soonest
soonest-IsSoonest [] a h = ground (arith, h)
soonest-IsSoonest (x ∷ xs) a h = elim (Option-cases (soonest xs)) [
  | inl e ↦
      let same : x ≡ a = ground (arith, e, h) in
      subst (λ y. IsSoonest y (x ∷ xs)) same
        (subst (λ l. IsSoonest x (x ∷ l)) (sym (soonest-none xs e))
          (
            inl refl,
            λ d m. elim m [
              | inl p ↦ subst (λ y. sooner y x ≡ false) p (sooner_irrefl x)
              | inr n ↦ elim n [ ]
            ],
          ))
  | inr (b, e) ↦
      let same : (if sooner b x then b else x) ≡ a = ground (arith, e, h) in
      subst (λ y. IsSoonest y (x ∷ xs)) same (extend-IsSoonest x b xs (soonest-IsSoonest xs b e))
]

-- The attempts that scheduling looks for: those of the incident that are scheduled.
abbrev pub IsScheduledFor : ℕ → Attempt → List Attempt → Type 0
IsScheduledFor incident a as' = Member a as' × (a.incident_id ≡ incident) × (a.outcome ≡ scheduled)

is_scheduled-eq : (o : Outcome) → (is_scheduled o ≡ true) ↔ (o ≡ scheduled)
is_scheduled-eq scheduled = (λ _. refl, λ _. refl)
is_scheduled-eq started = (λ h. absurd (cc), λ h. absurd (cc))
is_scheduled-eq done = (λ h. absurd (cc), λ h. absurd (cc))
is_scheduled-eq failed = (λ h. absurd (cc), λ h. absurd (cc))

scheduled_of_iff :
    (incident : ℕ) (as' : List Attempt) (a : Attempt)
    → Member a (scheduled_of incident as') ↔ IsScheduledFor incident a as'
unfolding scheduled_of
scheduled_of_iff incident as' a =
    let member =
      Member-filter_by (λ b. b.incident_id == incident && is_scheduled b.outcome) a as' in
    let number = nat_eq.agrees a.incident_id incident in
    let state = is_scheduled-eq a.outcome in
    (
      λ m.
          let (n, t) = member.0 m in (n, number.0 (ground (arith, t)), state.0 (ground (arith, t))),
      λ (n, i, o). member.1 (n, ground (arith, number.1 i, state.1 o)),
    )

-- What is found among the attempts: the attempt of the incident that is SCHEDULED and before which no other
-- one stands, or nothing, where there is none.
abbrev pub Picks : ℕ → List Attempt → Option Attempt → Type 0
Picks incident as' none = (b : Attempt) → IsScheduledFor incident b as' → ⊥
Picks incident as' (some a) =
    IsScheduledFor incident a as'
    × ((b : Attempt) → IsScheduledFor incident b as' → sooner b a ≡ false)

-- The attempt that scheduling a recovery finds is stored, of the incident and SCHEDULED, and no attempt
-- of the incident that is SCHEDULED stands before it by date, number and key. Where it finds none, no
-- attempt of the incident is SCHEDULED.
pub soonest-scheduled_of :
    (incident : ℕ) (as' : List Attempt) → Picks incident as' (soonest (scheduled_of incident as'))
soonest-scheduled_of incident as' =
    let among = scheduled_of_iff incident as' in
    elim (Option-cases (soonest (scheduled_of incident as'))) [
      | inl e ↦ subst (Picks incident as') (sym e) (λ b k.
          elim (subst (λ l. Member b l) (soonest-none (scheduled_of incident as') e)
            ((among b).1 k)) [ ])
      | inr (a, e) ↦
          let (m, least) = soonest-IsSoonest (scheduled_of incident as') a e in
          subst (Picks incident as') (sym e) ((among a).0 m, λ b k. least b ((among b).1 k))
    ]
