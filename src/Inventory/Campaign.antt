-- ===== src/Inventory/Campaign.antt =====
-- Drop and Campaign of controller/twitch_miner/inventory.py. A drop's back reference to its campaign
-- is the dict of the campaign's drops, which the operations take as an argument. Instants are UTC
-- microseconds, which compare like the datetimes.
use twitch_car_factory.Base.{
  ℕ, ◌+◌, String, Bool, true, false, not, ◌&&◌, ◌||◌, Option, none, some, List, [], ◌∷◌, ltb, leb,
  ◌==◌, nat_eq, string_eq, contains, is_empty, any_of, all_of, filter_by,
}
use twitch_car_factory.Base.Dict.{Dict, lookup, values}

pub record Drop : Type 0 where
  pub id : String
  pub name : String
  pub current_minutes : ℕ
  pub required_minutes : ℕ
  pub required_subscriptions : ℕ
  pub claim_id : Option String
  pub is_claimed : Bool
  pub starts_at : ℕ
  pub ends_at : ℕ
  pub prerequisite_ids : List String
  pub benefit_ids : List String

pub record Campaign : Type 0 where
  pub id : String
  pub name : String
  pub game_id : String
  pub linked : Option Bool
  pub starts_at : ℕ
  pub ends_at : ℕ
  pub status : String
  pub allowed_channel_ids : List String
  pub has_badge_or_emote : Bool
  pub advertised_channel_ids : List String
  pub drops : Dict String Drop

-- timedelta(hours=24)
abbrev pub day : ℕ
day = 86_400_000_000

abbrev pub special_game_ids : List String
special_game_ids = "509663" ∷ "509672" ∷ []

abbrev pub is_claimed_in : Dict String Drop → String → Bool
is_claimed_in drops k = elim (lookup k drops) [ none ↦ false | some d ↦ d.is_claimed ]

unfoldable pub prerequisites_met : Dict String Drop → Drop → Bool
prerequisites_met drops d = all_of (is_claimed_in drops) d.prerequisite_ids

unfoldable pub is_prerequisite : Dict String Drop → Drop → Bool
is_prerequisite drops d = any_of (λ other. contains d.id other.prerequisite_ids) (values drops)

unfoldable pub can_earn : Dict String Drop → Drop → ℕ → Bool
can_earn drops d now =
    not d.is_claimed
    && ltb 0 d.required_minutes
    && d.required_subscriptions == 0
    && ltb d.current_minutes d.required_minutes
    && (leb d.starts_at now && ltb now d.ends_at)
    && prerequisites_met drops d
    && (not (is_empty d.benefit_ids) || is_prerequisite drops d)

unfoldable pub can_claim : Campaign → Drop → ℕ → Bool
can_claim c d now =
    not d.is_claimed
    && ltb 0 d.required_minutes
    && d.required_subscriptions == 0
    && leb d.required_minutes d.current_minutes
    && leb d.starts_at now
    && ltb now (c.ends_at + day)
    && prerequisites_met c.drops d

abbrev pub is_link_open : Option Bool → Bool → Bool → Bool
is_link_open (some true) badge unknown_ok = true
is_link_open (some false) badge unknown_ok = badge
is_link_open none badge unknown_ok = badge || unknown_ok

unfoldable pub is_open : Campaign → ℕ → Bool → Bool
is_open c now allow_unknown_link =
    (c.status == "ACTIVE" || c.status == "UPCOMING")
    && (leb c.starts_at now && ltb now c.ends_at)
    && is_link_open c.linked c.has_badge_or_emote allow_unknown_link

unfoldable pub earnable_drops : Campaign → ℕ → Bool → List Drop
earnable_drops c now allow_unknown_link = elim (is_open c now allow_unknown_link) [
  | true ↦ filter_by (λ d. can_earn c.drops d now) (values c.drops)
  | false ↦ []
]

unfoldable pub eligible_for : Campaign → String → String → ℕ → Bool
eligible_for c channel_id game_id now =
    (game_id == c.game_id || contains c.game_id special_game_ids)
    && (is_empty c.allowed_channel_ids || contains channel_id c.allowed_channel_ids)
    && not (is_empty (earnable_drops c now (contains channel_id c.advertised_channel_ids)))

unfoldable pub claimable_drops : Campaign → ℕ → List Drop
claimable_drops c now = filter_by (λ d. can_claim c d now) (values c.drops)
