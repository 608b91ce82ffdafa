-- ===== src/Engine/Safety/Metadata.antt =====
-- Refreshing the inventory keeps the engine confined, at every focus.
use twitch_car_factory.Base.{ℕ, String, Option, List, refl}
use twitch_car_factory.Base.Exec.{Keeps-modify}
use twitch_car_factory.Json.Python.{Python}
use twitch_car_factory.Engine.State.{Client}
use twitch_car_factory.Engine.Confined.{IsConfined, IsConfined-frame, IsConfined-world}
use twitch_car_factory.Engine.Refreshing.{Keeps-refresh_inventory}
use twitch_car_factory.Engine.Safety.Rules.{Safe}
use twitch_car_factory.Engine.Metadata.{store_details, rebuild_campaigns, refresh_inventory}

module _ (py : Python) {W : Type 0} (client : Client W) (channels : List String)
    (focus : Option String) where
  pub Safe-refresh_inventory :
      (set_order : List String → List String) (now : ℕ)
      → Safe channels focus (refresh_inventory py client set_order now)
  unfolding store_details rebuild_campaigns
  Safe-refresh_inventory set_order now =
      Keeps-refresh_inventory py client (IsConfined channels focus) IsConfined-world
        (λ now details retry s h. IsConfined-frame s _ refl refl refl h) set_order now
        (λ ongoing benefits. Keeps-modify _ (λ s h. IsConfined-frame s _ refl refl refl h))
