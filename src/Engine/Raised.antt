-- ===== src/Engine/Raised.antt =====
-- What update_progress of controller/twitch_miner/engine.py does to the minutes of the drops.
use twitch_car_factory.Base.{
  ℕ, String, Bool, true, false, not, ◌&&◌, Option, none, some, List, [], ◌∷◌, ◌≡◌, refl, ◌≤◌, ◌⊎◌,
  inl, inr, max, arith, Bool-cases, ◌==◌, string_eq, is_empty, if◌then◌else◌,
}
use twitch_car_factory.Base.Dict.{Dict}
use twitch_car_factory.Json.{Fields, or_null, find}
use twitch_car_factory.Json.Python.{Python}
use twitch_car_factory.Inventory.Campaign.{Drop, Campaign}
use twitch_car_factory.Engine.State.{Channel, Miner, Point}
use twitch_car_factory.Engine.Channels.{valid_minutes, drop_id_of}
use twitch_car_factory.Engine.Claims.{update_drop, update_in}
use twitch_car_factory.Engine.Progress.{
  raise_minutes, apply_session, update_progress, first_with, serving, restrict, points, sorted,
  differs,
}

-- The same drop, with as many minutes or more, and not more than it had or wants.
abbrev pub Raised : Drop → Drop → Type 0
Raised d e =
    (e ≡ record d { current_minutes = e.current_minutes })
    × (d.current_minutes ≤ e.current_minutes)
    × (e.current_minutes ≤ max d.current_minutes d.required_minutes)

abbrev pub RaisedDrops : Dict String Drop → Dict String Drop → Type 0
RaisedDrops [] [] = Unit
RaisedDrops [] (_ ∷ _) = ⊥
RaisedDrops (_ ∷ _) [] = ⊥
RaisedDrops ((j, d) ∷ ds) ((k, e) ∷ es) = (j ≡ k) × Raised d e × RaisedDrops ds es

-- The same campaigns, where drops have been raised.
abbrev pub RaisedCampaigns : Dict String Campaign → Dict String Campaign → Type 0
RaisedCampaigns [] [] = Unit
RaisedCampaigns [] (_ ∷ _) = ⊥
RaisedCampaigns (_ ∷ _) [] = ⊥
RaisedCampaigns ((j, a) ∷ as') ((k, b) ∷ bs) =
    (j ≡ k)
    × (b ≡ record a { drops = b.drops })
    × RaisedDrops a.drops b.drops
    × RaisedCampaigns as' bs

Raised-refl : (d : Drop) → Raised d d
Raised-refl d = (refl, omega arith, omega arith)

RaisedDrops-refl : (ds : Dict String Drop) → RaisedDrops ds ds
RaisedDrops-refl [] = tt
RaisedDrops-refl ((k, d) ∷ ds) = (refl, Raised-refl d, RaisedDrops-refl ds)

RaisedCampaigns-refl : (cs : Dict String Campaign) → RaisedCampaigns cs cs
RaisedCampaigns-refl [] = tt
RaisedCampaigns-refl ((k, c) ∷ cs) = (refl, refl, RaisedDrops-refl c.drops, RaisedCampaigns-refl cs)

raise_minutes-Raised : (n : ℕ) (d : Drop) → Raised d (raise_minutes n d)
unfolding raise_minutes
raise_minutes-Raised n d = (refl, omega arith, omega arith)

either_way : {A : Type 0} (P : A → Type 0) (b : Bool) (x y : A) → P x → P y → P (if b then x else y)
either_way P true x y p q = p
either_way P false x y p q = q

update_in-Raised :
    (did : String) (n : ℕ) (ds : Dict String Drop)
    → RaisedDrops ds (update_in did (raise_minutes n) ds)
unfolding update_in
update_in-Raised did n [] = tt
update_in-Raised did n ((j, d) ∷ ds) =
    either_way (RaisedDrops ((j, d) ∷ ds)) (j == did) ((j, raise_minutes n d) ∷ ds)
      ((j, d) ∷ update_in did (raise_minutes n) ds)
      (refl, raise_minutes-Raised n d, RaisedDrops-refl ds)
      (refl, Raised-refl d, update_in-Raised did n ds)

update_drop-Raised :
    (cid did : String) (n : ℕ) (cs : Dict String Campaign)
    → RaisedCampaigns cs (update_drop cid did (raise_minutes n) cs)
unfolding update_drop
update_drop-Raised cid did n [] = tt
update_drop-Raised cid did n ((k, c) ∷ cs) =
    either_way (RaisedCampaigns ((k, c) ∷ cs)) (k == cid)
      ((k, record c { drops = update_in did (raise_minutes n) c.drops }) ∷ cs)
      ((k, c) ∷ update_drop cid did (raise_minutes n) cs)
      (refl, refl, update_in-Raised did n c.drops, RaisedCampaigns-refl cs)
      (refl, refl, RaisedDrops-refl c.drops, update_drop-Raised cid did n cs)

module _ (py : Python) where
  first_with-Raised :
      (did : String) (n : ℕ) (found : Option String) (cs : Dict String Campaign)
      → RaisedCampaigns cs (elim found as (λ _. Dict String Campaign) [
        | none ↦ cs
        | some k ↦ update_drop k did (raise_minutes n) cs
      ])
  first_with-Raised did n none cs = RaisedCampaigns-refl cs
  first_with-Raised did n (some k) cs = update_drop-Raised k did n cs

  minutes-Raised :
      (did : String) (reported : Option ℕ) (found : Option String) (cs : Dict String Campaign)
      → RaisedCampaigns cs (elim reported as (λ _. Dict String Campaign) [
        | none ↦ cs
        | some n ↦ elim found [ none ↦ cs | some k ↦ update_drop k did (raise_minutes n) cs ]
      ])
  minutes-Raised did none found cs = RaisedCampaigns-refl cs
  minutes-Raised did (some n) found cs = first_with-Raised did n found cs

  apply_session-Raised :
      (current : Option Fields) (active cs : Dict String Campaign)
      → RaisedCampaigns cs (apply_session py current active cs)
  unfolding apply_session
  apply_session-Raised none active cs = RaisedCampaigns-refl cs
  apply_session-Raised (some current) active cs =
      minutes-Raised (drop_id_of py current)
        (valid_minutes (or_null (find "currentMinutesWatched" current)))
        (first_with (drop_id_of py current) active) cs

  -- update_progress leaves every campaign and every drop in its place and as it is, but for the minutes
  -- of drops, which never fall, and never pass what the drop wants where they had not passed it before.
  -- The clock of the last progress is left alone or set to now; where it is set, the noted progress is not
  -- empty and is another one than before.
  pub update_progress-Raised :
      {W : Type 0} (channel : Channel) (now wall_now : ℕ) (s : Miner W)
      → RaisedCampaigns s.campaigns (update_progress py channel now wall_now s).campaigns
        × ((((update_progress py channel now wall_now s).progress_at ≡ s.progress_at)
              × ((update_progress py channel now wall_now s).progress ≡ s.progress))
            ⊎ (((update_progress py channel now wall_now s).progress_at ≡ now)
                × ((noted : List Point) × ((update_progress py channel now wall_now s).progress
                      ≡ some noted)
                    × (is_empty noted ≡ false)
                    × (differs noted s.progress ≡ true))))
  unfolding update_progress
  update_progress-Raised channel now wall_now s =
      let active = serving channel wall_now s.campaigns in
      let campaigns = apply_session py channel.current_drop active s.campaigns in
      let noted = sorted (points (restrict active campaigns)) in
      let raised = apply_session-Raised channel.current_drop active s.campaigns in
      elim (Bool-cases (not (is_empty noted) && differs noted s.progress)) [
        | inl e ↦ rw e (raised, inr (refl, (noted, refl, ground (arith, e), ground (arith, e))))
        | inr e ↦ rw e (raised, inl (refl, refl))
      ]
