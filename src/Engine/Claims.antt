-- ===== src/Engine/Claims.antt =====
-- claim_drops of controller/twitch_miner/engine.py.
use Prim.Native.String.{◌++◌ as append}
use twitch_car_factory.Base.{
  ℕ, String, Bool, true, false, ◌||◌, Option, none, some, List, [], ◌∷◌, ◌==◌, string_eq,
  if◌then◌else◌, or_else,
}
use twitch_car_factory.Base.Dict.{Dict, keys, lookup}
use twitch_car_factory.Base.Result.{Result, ok, err}
use twitch_car_factory.Base.Result
use twitch_car_factory.Base.Exec.{pure, gets, modify, on_option, ◌>>=◌, ◌>>◌}
use twitch_car_factory.Json.{
  PyError, Value, str, obj, end, field, get, or_value, empty_dict, truthy,
}
use twitch_car_factory.Inventory.Campaign.{Drop, Campaign, claimable_drops}
use twitch_car_factory.Engine.State.{Client, Miner, Action, ask, sense, try_python, recover}

unfoldable pub update_in : String → (Drop → Drop) → Dict String Drop → Dict String Drop
update_in did f [] = []
update_in did f ((j, d) ∷ ds) = if j == did then (j, f d) ∷ ds else (j, d) ∷ update_in did f ds

-- A write to one drop of one campaign; the objects are those of `self.campaigns`.
unfoldable pub update_drop :
    String → String → (Drop → Drop) → Dict String Campaign → Dict String Campaign
update_drop cid did f [] = []
update_drop cid did f ((k, c) ∷ cs) =
    if k == cid
    then (k, record c { drops = update_in did f c.drops }) ∷ cs
    else (k, c) ∷ update_drop cid did f cs

unfoldable pub set_claimed : Drop → Drop
set_claimed d = record d { is_claimed = true }

abbrev is_done : Value → Bool
is_done (str s) = s == "ELIGIBLE_FOR_ALL" || s == "DROP_INSTANCE_ALREADY_CLAIMED"
is_done _ = false

-- Twitch confirmed the claim, now or before.
unfoldable pub is_confirmed : Value → Result PyError Bool
is_confirmed response = Result.◌>>=◌ (get "claimDropRewards" response) (λ rewards.
    Result.◌>>=◌ (get "errors" response) (λ errors.
      if truthy errors
      then ok false
      else Result.◌>>=◌ (get "status" (or_value rewards empty_dict))
          (λ status. ok (is_done status))))

module _ {W : Type 0} (client : Client W) where
  -- `drop.claim_id or f"{user_id}#{campaign.id}#{drop.id}"`
  unfoldable pub claim_id_of : String → Drop → String
  claim_id_of campaign_id d =
      or_else d.claim_id (append client.user_id (append "#" (append campaign_id (append "#" d.id))))

  unfoldable pub request_claim : String → Action W (Option Value)
  request_claim claim_id =
      recover
        (do
          v ← ask (
              client.gql "ClaimDrop"
                (field "input" (obj (field "dropInstanceID" (str claim_id) end)) end))
          pure (some v))
        none

  -- `drop.is_claimed = True; self.claimed.add((campaign.id, drop.id))`
  unfoldable pub record_claim : String → String → Drop → Miner W → Miner W
  record_claim cid campaign_id d s = record s {
    campaigns = update_drop cid d.id set_claimed s.campaigns;
    claimed = (campaign_id, d.id) ∷ s.claimed;
  }

  unfoldable pub claim_one : String → String → Drop → Action W (Unit {0})
  claim_one cid campaign_id d = do
    answer ← request_claim (claim_id_of campaign_id d)
    on_option answer (pure tt) (λ response. do
      confirmed ← try_python (is_confirmed response)
      if confirmed then modify (record_claim cid campaign_id d) else pure tt)

  -- The loop over the drops of one campaign; false where the miner was stopped.
  unfoldable pub claim_loop : String → String → List Drop → Action W Bool
  claim_loop cid campaign_id [] = pure true
  claim_loop cid campaign_id (d ∷ ds) = do
    stopped ← sense client.is_set
    if stopped then pure false else do claim_one cid campaign_id d; claim_loop cid campaign_id ds

  unfoldable pub claim_campaigns : ℕ → List String → Action W (Unit {0})
  claim_campaigns wall_now [] = pure tt
  claim_campaigns wall_now (cid ∷ cids) = do
    found ← gets (λ s. lookup cid s.campaigns)
    on_option found (claim_campaigns wall_now cids) (λ c. do
      go_on ← claim_loop cid c.id (claimable_drops c wall_now)
      if go_on then claim_campaigns wall_now cids else pure tt)

  unfoldable pub claim_drops : ℕ → Action W (Unit {0})
  claim_drops wall_now = do cids ← gets (λ s. keys s.campaigns); claim_campaigns wall_now cids
