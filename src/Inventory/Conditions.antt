-- ===== src/Inventory/Conditions.antt =====
-- can_earn and can_claim of controller/twitch_miner/inventory.py as propositions.
use twitch_car_factory.Base.{
  ℕ, ◌+◌, ◌≤◌, ◌<◌, String, true, false, ◌≡◌, ◌⊎◌, ◌↔◌, inl, inr, some, arith, Option-cases,
  Bool-cases, not, string_eq, Member, is_empty,
}
use twitch_car_factory.Base.Membership.{
  contains_iff, all_of-Member, all_of-intro, any_of-Member, any_of-intro,
}
use twitch_car_factory.Base.Dict.{Dict, lookup, values}
use twitch_car_factory.Inventory.Campaign.{
  Drop, Campaign, day, is_claimed_in, prerequisites_met, is_prerequisite, can_earn, can_claim,
}

-- The drop that stands under `k` was claimed.
abbrev pub IsClaimed : Dict String Drop → String → Type 0
IsClaimed drops k = (d : Drop) × (lookup k drops ≡ some d) × (d.is_claimed ≡ true)

-- What earning and claiming share: a timed drop that is unclaimed and behind no unclaimed drop.
pub record IsUnlocked (drops : Dict String Drop) (d : Drop) : Type 0 where
  pub unclaimed : d.is_claimed ≡ false
  pub timed : 0 < d.required_minutes
  pub unpaid : d.required_subscriptions ≡ 0
  pub prerequisites : (k : String) → Member k d.prerequisite_ids → IsClaimed drops k

is_claimed_in_iff :
    (drops : Dict String Drop) (k : String) → (is_claimed_in drops k ≡ true) ↔ IsClaimed drops k
is_claimed_in_iff drops k = elim (Option-cases (lookup k drops)) [
  | inl e ↦ rw (e, is_claimed_in) ((λ h. cc), (λ (d, p, q). cc))
  | inr (d, e) ↦ ((λ h. (d, e, ground arith)), (λ (d', p, q). ground arith))
]

-- The whole condition of `Drop.can_earn`.
pub record CanEarn (drops : Dict String Drop) (d : Drop) (now : ℕ) : Type 0 where
  pub unlocked : IsUnlocked drops d
  pub unfinished : d.current_minutes < d.required_minutes
  pub started : d.starts_at ≤ now
  pub running : now < d.ends_at
  pub worthwhile :
      (not (is_empty d.benefit_ids) ≡ true)
      ⊎ ((other : Drop) × Member other (values drops) × Member d.id other.prerequisite_ids)

-- The whole condition of `Drop.can_claim`.
pub record CanClaim (c : Campaign) (d : Drop) (now : ℕ) : Type 0 where
  pub unlocked : IsUnlocked c.drops d
  pub finished : d.required_minutes ≤ d.current_minutes
  pub started : d.starts_at ≤ now
  pub within_grace : now < c.ends_at + day

prerequisites_met_iff :
    (drops : Dict String Drop) (d : Drop)
    → (prerequisites_met drops d ≡ true)
      ↔ ((k : String) → Member k d.prerequisite_ids → IsClaimed drops k)
unfolding prerequisites_met
prerequisites_met_iff drops d = (
  λ h k m. (is_claimed_in_iff drops k).0 (all_of-Member _ d.prerequisite_ids h k m),
  λ h. all_of-intro _ d.prerequisite_ids (λ k m. (is_claimed_in_iff drops k).1 (h k m)),
)

is_prerequisite_iff :
    (drops : Dict String Drop) (d : Drop)
    → (is_prerequisite drops d ≡ true)
      ↔ ((other : Drop) × Member other (values drops) × Member d.id other.prerequisite_ids)
unfolding is_prerequisite
is_prerequisite_iff drops d = (
  λ h.
      let (other, m, q) = any_of-Member _ (values drops) h in
      (other, m, (contains_iff d.id other.prerequisite_ids).0 q),
  λ (other, m, q).
      any_of-intro _ (values drops) other m ((contains_iff d.id other.prerequisite_ids).1 q),
)

pub can_earn-CanEarn :
    (drops : Dict String Drop) (d : Drop) (now : ℕ)
    → can_earn drops d now ≡ true
    → CanEarn drops d now
unfolding can_earn
can_earn-CanEarn drops d now h = record {
  unlocked = record {
    unclaimed = ground arith;
    timed = ground arith;
    unpaid = ground arith;
    prerequisites = (prerequisites_met_iff drops d).0 (ground arith);
  };
  unfinished = ground arith;
  started = ground arith;
  running = ground arith;
  worthwhile = elim (Bool-cases (not (is_empty d.benefit_ids))) [
    | inl e ↦ inl e
    | inr e ↦ inr ((is_prerequisite_iff drops d).0 (ground arith))
  ];
}

pub CanEarn-can_earn :
    (drops : Dict String Drop) (d : Drop) (now : ℕ)
    → CanEarn drops d now
    → can_earn drops d now ≡ true
unfolding can_earn
CanEarn-can_earn drops d now w =
    let met = (prerequisites_met_iff drops d).1 w.unlocked.prerequisites in
    elim w.worthwhile [
      | inl e ↦ ground (arith, w.unlocked)
      | inr p ↦ ground (arith, w.unlocked, (is_prerequisite_iff drops d).1 p)
    ]

pub can_claim-CanClaim :
    (c : Campaign) (d : Drop) (now : ℕ) → can_claim c d now ≡ true → CanClaim c d now
unfolding can_claim
can_claim-CanClaim c d now h = record {
  unlocked = record {
    unclaimed = ground arith;
    timed = ground arith;
    unpaid = ground arith;
    prerequisites = (prerequisites_met_iff c.drops d).0 (ground arith);
  };
  finished = ground arith;
  started = ground arith;
  within_grace = ground arith;
}

pub CanClaim-can_claim :
    (c : Campaign) (d : Drop) (now : ℕ) → CanClaim c d now → can_claim c d now ≡ true
unfolding can_claim
CanClaim-can_claim c d now w =
    let met = (prerequisites_met_iff c.drops d).1 w.unlocked.prerequisites in
    ground (arith, w.unlocked)
