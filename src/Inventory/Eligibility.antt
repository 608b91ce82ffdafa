-- ===== src/Inventory/Eligibility.antt =====
-- Which drops of a campaign are earned and claimed: earnable_drops, eligible_for and claimable_drops
-- of controller/twitch_miner/inventory.py.
use twitch_car_factory.Base.{
  ℕ, ◌≤◌, ◌<◌, String, Bool, true, false, ◌≡◌, ◌⊎◌, ◌↔◌, inl, inr, none, some, [], ◌||◌, ◌&&◌,
  arith, Bool-cases, not, ◌==◌, string_eq, contains, Member, Member-filter_by, is_empty, filter_by,
}
use mathlib.Core.Path.{sym, subst}
use twitch_car_factory.Base.Membership.{contains_iff, nonempty-Member, Member-nonempty}
use twitch_car_factory.Base.Dict.{values}
use twitch_car_factory.Inventory.Campaign.{
  Drop, Campaign, can_earn, can_claim, is_open, earnable_drops, eligible_for, claimable_drops,
  special_game_ids,
}
use twitch_car_factory.Inventory.Conditions.{
  CanEarn, CanClaim, can_earn-CanEarn, CanEarn-can_earn, can_claim-CanClaim, CanClaim-can_claim,
}

-- The account may earn: linked, or rewarded by a badge or an emote, or not known to be unlinked on
-- a channel that advertises the campaign.
abbrev pub MayEarn : Campaign → Bool → Type 0
MayEarn c allow_unknown_link =
    (c.linked ≡ some true)
    ⊎ (c.has_badge_or_emote ≡ true)
    ⊎ ((c.linked ≡ none) × (allow_unknown_link ≡ true))

pub record IsOpen (c : Campaign) (now : ℕ) (allow_unknown_link : Bool) : Type 0 where
  pub served : (c.status ≡ "ACTIVE") ⊎ (c.status ≡ "UPCOMING")
  pub started : c.starts_at ≤ now
  pub running : now < c.ends_at
  pub link : MayEarn c allow_unknown_link

is_open_iff : (c : Campaign) (now : ℕ) (u : Bool) → (is_open c now u ≡ true) ↔ IsOpen c now u
unfolding is_open
is_open_iff c now u =
    ground (arith, string_eq.agrees c.status "ACTIVE", string_eq.agrees c.status "UPCOMING")

and₃_iff :
    {P Q R S : Type 0} (x y z : Bool)
    → (x ≡ true) ↔ P
    → (y ≡ true) ↔ Q
    → (z ≡ true) ↔ (R × S)
    → ((x && y && z) ≡ true) ↔ (P × Q × R × S)
and₃_iff x y z p q r = (
  λ h. let rs = r.0 (ground arith) in (p.0 (ground arith), q.0 (ground arith), rs.0, rs.1),
  λ (a, b, c, d). let ex = p.1 a in let ey = q.1 b in let ez = r.1 (c, d) in ground arith,
)

module _ (c : Campaign) (now : ℕ) where
  earnable_open :
      (u : Bool)
      → is_open c now u ≡ true
      → earnable_drops c now u ≡ filter_by (λ d. can_earn c.drops d now) (values c.drops)
  unfolding earnable_drops
  earnable_open u h = rw (h, earnable_drops)

  earnable_closed : (u : Bool) → is_open c now u ≡ false → earnable_drops c now u ≡ []
  unfolding earnable_drops
  earnable_closed u h = rw (h, earnable_drops)

  earnable_drops-Member :
      (u : Bool) (d : Drop)
      → Member d (earnable_drops c now u)
      → Member d (values c.drops) × IsOpen c now u × CanEarn c.drops d now
  earnable_drops-Member u d m = elim (Bool-cases (is_open c now u)) [
    | inl e ↦
        let (place, q) =
          (Member-filter_by (λ d. can_earn c.drops d now) d (values c.drops)).0
            (subst (Member d) (earnable_open u e) m) in
        (place, (is_open_iff c now u).0 e, can_earn-CanEarn c.drops d now q)
    | inr e ↦ absurd (subst (Member d) (earnable_closed u e) m)
  ]

  -- A drop is earnable exactly when it is a drop of the campaign, the campaign is open to the
  -- account, and the drop's own conditions hold.
  pub earnable_drops_iff :
      (u : Bool) (d : Drop)
      → Member d (earnable_drops c now u)
        ↔ (Member d (values c.drops) × IsOpen c now u × CanEarn c.drops d now)
  earnable_drops_iff u d = (
    earnable_drops-Member u d,
    λ (m, open_now, w).
        subst (Member d) (sym (earnable_open u ((is_open_iff c now u).1 open_now))) (
          (Member-filter_by (λ d. can_earn c.drops d now) d (values c.drops)).1
            (m, CanEarn-can_earn c.drops d now w)),
  )

  -- A drop is claimable exactly when it is a drop of the campaign whose claim conditions hold.
  pub claimable_drops_iff :
      (d : Drop) → Member d (claimable_drops c now) ↔ (Member d (values c.drops) × CanClaim c d now)
  unfolding claimable_drops
  claimable_drops_iff d =
      let split = Member-filter_by (λ d. can_claim c d now) d (values c.drops) in
      (
        λ m. let (place, q) = split.0 m in (place, can_claim-CanClaim c d now q),
        λ (place, w). split.1 (place, CanClaim-can_claim c d now w),
      )

  claimable_when_full :
      (d : Drop)
      → CanEarn c.drops d now
      → now < c.ends_at
      → CanClaim c (record d { current_minutes = d.required_minutes }) now
  claimable_when_full d w h = record {
    unlocked = record {
      unclaimed = w.unlocked.unclaimed;
      timed = w.unlocked.timed;
      unpaid = w.unlocked.unpaid;
      prerequisites = w.unlocked.prerequisites;
    };
    finished = omega arith;
    started = w.started;
    within_grace = omega arith;
  }

  not_earnable : (d : Drop) → (CanEarn c.drops d now → ⊥) → can_earn c.drops d now ≡ false
  not_earnable d h = elim (Bool-cases (can_earn c.drops d now)) [
    | inl e ↦ absurd (h (can_earn-CanEarn c.drops d now e))
    | inr e ↦ e
  ]

  not_claimable : (d : Drop) → (CanClaim c d now → ⊥) → can_claim c d now ≡ false
  not_claimable d h = elim (Bool-cases (can_claim c d now)) [
    | inl e ↦ absurd (h (can_claim-CanClaim c d now e))
    | inr e ↦ e
  ]

  -- Once an earnable drop shows all of its minutes, it is claimable at once: nothing else stands
  -- between earning and claiming, and it is not earnable any more.
  pub earnable-then-claimable :
      (u : Bool) (d : Drop)
      → Member d (earnable_drops c now u)
      → (can_claim c (record d { current_minutes = d.required_minutes }) now ≡ true)
        × (can_earn c.drops (record d { current_minutes = d.required_minutes }) now ≡ false)
        × (can_claim c d now ≡ false)
  earnable-then-claimable u d m =
      let (place, open_now, w) = earnable_drops-Member u d m in
      let full = record d { current_minutes = d.required_minutes } in
      (
        CanClaim-can_claim c full now (claimable_when_full d w open_now.running),
        not_earnable full (λ e. absurd (omega (arith, e.unfinished))),
        not_claimable d (λ e. absurd (omega (arith, e.finished, w.unfinished))),
      )

  abbrev pub FitsGame : String → Type 0
  FitsGame game_id = (game_id ≡ c.game_id) ⊎ Member c.game_id special_game_ids

  abbrev pub FitsChannel : String → Type 0
  FitsChannel channel_id =
      (is_empty c.allowed_channel_ids ≡ true) ⊎ Member channel_id c.allowed_channel_ids

  FitsGame-iff :
      (game_id : String)
      → ((game_id == c.game_id || contains c.game_id special_game_ids) ≡ true) ↔ FitsGame game_id
  FitsGame-iff game_id =
      ground (arith, string_eq.agrees game_id c.game_id, contains_iff c.game_id special_game_ids)

  FitsChannel-iff :
      (channel_id : String)
      → ((is_empty c.allowed_channel_ids || contains channel_id c.allowed_channel_ids) ≡ true)
        ↔ FitsChannel channel_id
  FitsChannel-iff channel_id = ground (arith, contains_iff channel_id c.allowed_channel_ids)

  some_earnable_iff :
      (u : Bool)
      → (not (is_empty (earnable_drops c now u)) ≡ true)
        ↔ (IsOpen c now u × ((d : Drop) × Member d (values c.drops) × CanEarn c.drops d now))
  some_earnable_iff u = (
    λ h.
        let (d, m) = nonempty-Member (earnable_drops c now u) h in
        let (place, open_now, w) = earnable_drops-Member u d m in (open_now, (d, place, w)),
    λ (open_now, (d, place, w)).
        Member-nonempty (earnable_drops c now u) d
          ((earnable_drops_iff u d).1 (place, open_now, w)),
  )

  -- A channel is eligible exactly when its game and the channel are the campaign's, and some drop of
  -- the open campaign can be earned; an unknown link is good enough only on an advertising channel.
  pub eligible_for_iff :
      (channel_id game_id : String)
      → (eligible_for c channel_id game_id now ≡ true) ↔ (
          FitsGame game_id
          × FitsChannel channel_id
          × IsOpen c now (contains channel_id c.advertised_channel_ids)
          × ((d : Drop) × Member d (values c.drops) × CanEarn c.drops d now))
  unfolding eligible_for
  eligible_for_iff channel_id game_id =
      let u = contains channel_id c.advertised_channel_ids in
      and₃_iff _ _ _ (FitsGame-iff game_id) (FitsChannel-iff channel_id) (some_earnable_iff u)
