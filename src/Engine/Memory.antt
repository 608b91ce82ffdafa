-- ===== src/Engine/Memory.antt =====
-- The memory of claims of controller/twitch_miner/engine.py.
use mathlib.Core.Path.{subst}
use twitch_car_factory.Base.{
  ℕ, String, Bool, true, false, List, [], ◌∷◌, ◌≡◌, refl, sym, arith, All, string_eq, if◌then◌else◌,
}
use twitch_car_factory.Base.Dict.{Dict, insert, insert-All}
use twitch_car_factory.Base.Result.{Result, ok, err}
use twitch_car_factory.Base.Exec.{Keeps, Keeps-modify}
use twitch_car_factory.Json.{PyError}
use twitch_car_factory.Json.Python.{Python}
use twitch_car_factory.Inventory.Campaign.{Drop, Campaign}
use twitch_car_factory.Engine.State.{Client, Miner}
use twitch_car_factory.Engine.Refreshing.{Keeps-refresh_inventory}
use twitch_car_factory.Engine.Metadata.{
  was_claimed, mark_drops, mark_claimed, build_campaigns, rebuild_campaigns, store_details,
  refresh_inventory,
}

-- Each drop of a campaign that is in the memory of claims is claimed.
abbrev pub Remembers : List (String × String) → String × Campaign → Type 0
Remembers claimed (cid, c) =
    All (λ (r : String × Drop). was_claimed claimed cid r.1.id ≡ true → r.1.is_claimed ≡ true)
      c.drops

mark_drops-claimed :
    (claimed : List (String × String)) (cid : String) (ds : Dict String Drop)
    → All
        (λ (r : String × Drop). was_claimed claimed cid r.1.id ≡ true → r.1.is_claimed ≡ true)
        (mark_drops claimed cid ds)
mark_drops-claimed claimed cid [] = tt
mark_drops-claimed claimed cid ((k, d) ∷ ds) =
    (marked (was_claimed claimed cid d.id) refl, mark_drops-claimed claimed cid ds)
  where
    marked :
        (b : Bool)
        → was_claimed claimed cid d.id ≡ b
        → was_claimed claimed cid (if b then record d { is_claimed = true } else d).id ≡ true
        → (if b then record d { is_claimed = true } else d).is_claimed ≡ true
    marked true e h = refl
    marked false e h = ground (arith, e, h)

module _ (py : Python) where
  build_campaigns-Remembers :
      (parse : String → Result PyError Campaign) (claimed : List (String × String))
      (cids : List String) (d : Dict String Campaign)
      → All (Remembers claimed) d
      → All (Remembers claimed) (build_campaigns py parse claimed cids d)
  unfolding build_campaigns mark_claimed
  build_campaigns-Remembers parse claimed [] d a = a
  build_campaigns-Remembers parse claimed (cid ∷ cids) d a =
      build_campaigns-Remembers parse claimed cids _ (parsed (parse cid))
    where
      parsed :
          (r : Result PyError Campaign)
          → All (Remembers claimed) (elim r as (λ _. Dict String Campaign) [
            | ok c ↦ insert cid (mark_claimed claimed cid c) d
            | err _ ↦ d
          ])
      parsed (ok c) =
          insert-All (Remembers claimed) cid (mark_claimed claimed cid c) d
            (λ j e.
              subst (λ k. Remembers claimed (k, mark_claimed claimed cid c)) (sym e)
                (mark_drops-claimed claimed cid c.drops))
            a
      parsed (err _) = a

  module _ {W : Type 0} (client : Client W) where
    -- Every campaign remembers the claims.
    abbrev pub IsMindful : Miner W → Type 0
    IsMindful s = All (Remembers s.claimed) s.campaigns

    -- However refresh_inventory ends, each drop of its campaigns that is in the memory of claims is claimed
    -- afterwards where that was so before, whatever Twitch says of the drop.
    pub refresh_inventory-IsMindful :
        (set_order : List String → List String) (now : ℕ)
        → Keeps IsMindful (refresh_inventory py client set_order now)
    unfolding store_details rebuild_campaigns
    refresh_inventory-IsMindful set_order now =
        Keeps-refresh_inventory py client IsMindful (λ s w h. h) (λ now details retry s h. h)
          set_order now
          (λ ongoing benefits.
            Keeps-modify _ (λ s h. build_campaigns-Remembers _ s.claimed _ [] tt))
