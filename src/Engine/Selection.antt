-- ===== src/Engine/Selection.antt =====
-- Which channel DropsMiner.step watches: the first configured online channel with an eligible drop,
-- and otherwise the first online one.
use twitch_car_factory.Base.{
  ℕ, String, Bool, ◌&&◌, ◌||◌, Option, List, leb, string_eq, contains, any_of, filter_by, first,
  is_empty, if◌then◌else◌, or_else,
}
use twitch_car_factory.Base.Dict.{Dict, lookup, values}
use twitch_car_factory.Inventory.Campaign.{Campaign, eligible_for}
use twitch_car_factory.Engine.State.{Channel, Miner}

-- `campaign.id in (channel.campaigns | channel.confirmed_campaigns) and campaign.eligible_for(...)`
unfoldable pub serves : Channel → ℕ → Campaign → Bool
serves channel wall_now c =
    (contains c.id channel.campaigns || contains c.id channel.confirmed_campaigns)
    && eligible_for c channel.id channel.game_id wall_now

unfoldable pub is_eligible : Dict String Campaign → ℕ → Channel → Bool
is_eligible campaigns wall_now channel = any_of (serves channel wall_now) (values campaigns)

-- `self.cooldowns.get(c.login, 0) <= now`
unfoldable pub is_candidate : Dict String ℕ → ℕ → Channel → Bool
is_candidate cooldowns now channel = leb (or_else (lookup channel.login cooldowns) 0) now

module _ {W : Type 0} where
  unfoldable pub candidates : ℕ → Miner W → List Channel
  candidates now s = filter_by (is_candidate s.cooldowns now) s.online

  unfoldable pub eligible_channels : ℕ → ℕ → Miner W → List Channel
  eligible_channels now wall_now s = filter_by (is_eligible s.campaigns wall_now) (candidates now s)

  -- `next(iter(eligible or candidates), None)`
  unfoldable pub choose : ℕ → ℕ → Miner W → Option Channel
  choose now wall_now s =
      let eligible = eligible_channels now wall_now s in
      first (if is_empty eligible then candidates now s else eligible)
