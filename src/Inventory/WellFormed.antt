-- ===== src/Inventory/WellFormed.antt =====
-- What every campaign that Campaign.from_data returns satisfies.
use twitch_car_factory.Base.{
  ℕ, ◌≤◌, ◌<◌, String, Bool, true, ◌≡◌, inl, inr, List, arith, All, string_eq,
}
use twitch_car_factory.Base.Dict.{Dict, insert, NodupKeys, insert-NodupKeys, insert-All}
use twitch_car_factory.Base.Result.{Result-cases, ok, >>=-eq-ok, fold_ok-invariant}
use mathlib.Core.Path.{subst, sym}
use twitch_car_factory.Json.{Value, Fields, iterate, or_value, empty_list}
use twitch_car_factory.Json.Python.{Python}
use twitch_car_factory.Inventory.Merge.{time_based}
use twitch_car_factory.Inventory.Campaign.{Drop, Campaign}
use twitch_car_factory.Inventory.Parse.{
  entry, id_of, drop_from, read_drop, add_drop, header_from, from_data,
}

-- A drop that stands under `key`: its own identifier, bounded minutes and an ordered window; what
-- is claimed shows all of its minutes.
pub record IsSound (key : String) (d : Drop) : Type 0 where
  pub own_key : d.id ≡ key
  pub bounded : d.current_minutes ≤ d.required_minutes
  pub window : d.starts_at < d.ends_at
  pub claimed_full : d.is_claimed ≡ true → d.current_minutes ≡ d.required_minutes

abbrev pub AreSound : Dict String Drop → Type 0
AreSound drops = All (λ e. IsSound e.0 e.1) drops

pub record IsWellFormed (c : Campaign) : Type 0 where
  pub window : c.starts_at < c.ends_at
  pub unique : NodupKeys c.drops
  pub sound : AreSound c.drops

module _ (py : Python) (claimed_benefits : Dict String ℕ) (campaign_data : Fields) where
  pub drop_from-IsSound :
      (key : String) (item : Value) (benefit_ids : List String) (d : Drop)
      → drop_from py claimed_benefits campaign_data key item benefit_ids ≡ ok d
      → IsSound key d
  unfolding drop_from
  drop_from-IsSound key item benefit_ids d h = ground arith

  read_drop-IsSound :
      (key : String) (item : Value) (badge : Bool) (d : Drop)
      → read_drop py claimed_benefits campaign_data key item ≡ ok (badge, d)
      → IsSound key d
  unfolding read_drop drop_from
  read_drop-IsSound key item badge d h = ground arith

  -- The campaign that a round leaves, from the drop that it read.
  add_drop_lem :
      (item : Value) (b c : Campaign)
      → add_drop py claimed_benefits campaign_data item b ≡ ok c
      → (key : String) × (d : Drop) × IsSound key d
        × (c.drops ≡ insert key d b.drops)
        × (c.starts_at ≡ b.starts_at)
        × (c.ends_at ≡ b.ends_at)
  unfolding add_drop
  add_drop_lem item b c h = elim (Result-cases (id_of item)) [
    | inl (key, p) ↦ elim (Result-cases (read_drop py claimed_benefits campaign_data key item)) [
      | inl ((badge, d), q) ↦
          (key, d, read_drop-IsSound key item badge d q, ground arith, ground arith, ground arith)
      | inr (e, q) ↦ absurd (ground arith)
    ]
    | inr (e, p) ↦ absurd (ground arith)
  ]

  add_drop-IsWellFormed :
      (item : Value) (b c : Campaign)
      → add_drop py claimed_benefits campaign_data item b ≡ ok c
      → IsWellFormed b
      → IsWellFormed c
  add_drop-IsWellFormed item b c h w =
      let (key, d, sound, e, s, t) = add_drop_lem item b c h in
      record {
        window = ground arith;
        unique = subst NodupKeys (sym e) (insert-NodupKeys key d b.drops w.unique);
        sound =
            subst AreSound (sym e)
              (insert-All _ key d b.drops (λ j p. subst (λ k. IsSound k d) (sym p) sound) w.sound);
      }

  header_from-IsWellFormed :
      (advertised : List String) (c : Campaign)
      → header_from py campaign_data advertised ≡ ok c
      → IsWellFormed c
  unfolding header_from
  header_from-IsWellFormed advertised c h = ground arith

  -- Whatever Twitch answers, a campaign that is accepted is well formed.
  pub from_data-IsWellFormed :
      (advertised : List String) (c : Campaign)
      → from_data py campaign_data claimed_benefits advertised ≡ ok c
      → IsWellFormed c
  unfolding from_data
  from_data-IsWellFormed advertised c h =
      let (header, e, h1) = >>=-eq-ok (header_from py campaign_data advertised) _ c h in
      let (items, _, h2) =
        >>=-eq-ok (iterate (or_value (entry time_based campaign_data) empty_list)) _ c h1 in
      fold_ok-invariant IsWellFormed (add_drop py claimed_benefits campaign_data)
        add_drop-IsWellFormed items header c h2 (header_from-IsWellFormed advertised header e)
