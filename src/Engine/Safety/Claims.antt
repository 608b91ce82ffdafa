-- ===== src/Engine/Safety/Claims.antt =====
-- Claiming keeps the engine confined.
use twitch_car_factory.Base.{ℕ, String, Option, List, [], ◌∷◌, refl, string_eq}
use twitch_car_factory.Base.Exec.{
  keeps_rules, Keeps-if, Keeps-bind, Keeps-gets, Keeps-on_option, modify, Keeps-modify,
}
use twitch_car_factory.Base.Dict.{lookup}
use twitch_car_factory.Inventory.Campaign.{Drop, claimable_drops}
use twitch_car_factory.Engine.State.{Client}
use twitch_car_factory.Engine.Rules.{Keeps-recover}
use twitch_car_factory.Engine.Confined.{IsConfined-frame}
use twitch_car_factory.Engine.Safety.Rules.{Safe, Safe-ask, Safe-sense, Safe-try_python}
use twitch_car_factory.Engine.Claims.{
  request_claim, record_claim, claim_one, claim_loop, claim_campaigns, claim_drops,
}

module _ {W : Type 0} (channels : List String) (focus : Option String) (client : Client W) where
  Safe-request_claim : (k : String) → Safe channels focus (request_claim client k)
  unfolding request_claim
  Safe-request_claim k = search (keeps_rules, Keeps-recover, Safe-ask channels focus)

  Safe-record_claim :
      (cid campaign_id : String) (d : Drop)
      → Safe channels focus (modify (record_claim client cid campaign_id d))
  unfolding record_claim
  Safe-record_claim cid campaign_id d =
      Keeps-modify _ (λ s h. IsConfined-frame s _ refl refl refl h)

  Safe-claim_one :
      (cid campaign_id : String) (d : Drop)
      → Safe channels focus (claim_one client cid campaign_id d)
  unfolding claim_one
  Safe-claim_one cid campaign_id d =
      search (keeps_rules, Safe-request_claim, Safe-try_python channels focus, Safe-record_claim)

  Safe-claim_loop :
      (cid campaign_id : String) (ds : List Drop)
      → Safe channels focus (claim_loop client cid campaign_id ds)
  unfolding claim_loop
  Safe-claim_loop cid campaign_id [] = search keeps_rules
  Safe-claim_loop cid campaign_id (d ∷ ds) =
      Keeps-bind _ _ (Safe-sense channels focus client.is_set) (λ stopped.
        Keeps-if stopped _ _ (search keeps_rules) (
          Keeps-bind _ _ (Safe-claim_one cid campaign_id d)
            (λ _. Safe-claim_loop cid campaign_id ds)))

  Safe-claim_campaigns :
      (wall_now : ℕ) (cids : List String)
      → Safe channels focus (claim_campaigns client wall_now cids)
  unfolding claim_campaigns
  Safe-claim_campaigns wall_now [] = search keeps_rules
  Safe-claim_campaigns wall_now (cid ∷ cids) =
      Keeps-bind _ _ (Keeps-gets (λ s. lookup ⦃e = string_eq⦄ cid s.campaigns)) (λ found.
        let rest = Safe-claim_campaigns wall_now cids in
        Keeps-on_option found _ _ rest (λ c.
          Keeps-bind _ _ (Safe-claim_loop cid c.id (claimable_drops c wall_now))
            (λ go_on. Keeps-if go_on _ _ rest (search keeps_rules))))

  pub Safe-claim_drops : (wall_now : ℕ) → Safe channels focus (claim_drops client wall_now)
  unfolding claim_drops
  Safe-claim_drops wall_now = search (keeps_rules, Safe-claim_campaigns)
