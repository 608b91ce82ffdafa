-- ===== src/Engine/Refreshing.antt =====
-- What refresh_inventory of controller/twitch_miner/engine.py keeps: whatever does not depend on the world,
-- and holds after the details are stored and after the campaigns are rebuilt.
use twitch_car_factory.Base.{ℕ, String, Bool, not, List, [], ◌∷◌}
use twitch_car_factory.Base.Dict.{Dict}
use twitch_car_factory.Base.Exec.{
  Keeps, keeps_rules, Keeps-bind, Keeps-if, Keeps-pure, Keeps-modify, modify,
}
use twitch_car_factory.Json.{Value, Fields}
use twitch_car_factory.Json.Python.{Python}
use twitch_car_factory.Engine.State.{EngineError, Client, Miner}
use twitch_car_factory.Engine.Rules.{
  IgnoresWorld, Keeps-recover, Keeps-ask, Keeps-sense, Keeps-try_python,
}
use twitch_car_factory.Engine.Metadata.{
  request_detail, store_detail, detail_round, dashboard_loop, store_details, refresh_details,
  rebuild_campaigns, refresh_inventory,
}

module _ (py : Python) {W : Type 0} (client : Client W) (P : Miner W → Type 0)
    (frame : IgnoresWorld P)
    (stored : (now : ℕ) (details : Dict String Fields) (retry : Bool) (s : Miner W)
      → P s
      → P (store_details py client now details retry s)) where
  Keeps-detail_round :
      (cid : String) (campaign : Fields) (details : Dict String Fields)
      → Keeps P (detail_round py client cid campaign details)
  unfolding detail_round request_detail store_detail
  Keeps-detail_round cid campaign details =
      search (keeps_rules, Keeps-ask frame, Keeps-try_python, Keeps-recover) depth 10

  Keeps-dashboard_loop :
      (games advertised : List String) (ongoing : Dict String Fields) (vs : List Value)
      (details : Dict String Fields) (retry : Bool)
      → Keeps P (dashboard_loop py client games advertised ongoing vs details retry)
  unfolding dashboard_loop
  Keeps-dashboard_loop games advertised ongoing [] details retry = Keeps-pure _
  Keeps-dashboard_loop games advertised ongoing (v ∷ vs) details retry =
      let go_on = Keeps-dashboard_loop games advertised ongoing vs in
      Keeps-bind _ _ (Keeps-sense frame client.is_set) (λ stopped.
        Keeps-if stopped _ _ (Keeps-pure _) (
          Keeps-bind _ _ (Keeps-try_python _) (λ e. Keeps-if _ _ _ (go_on details retry) (
            Keeps-bind _ _ (Keeps-try_python _) (λ relevant.
              Keeps-if (not relevant) _ _ (go_on details retry)
                (Keeps-bind _ _ (Keeps-detail_round e.0 e.1 details) (λ f. go_on f.0 _)))))))

  Keeps-store_details :
      (now : ℕ) (details : Dict String Fields) (retry : Bool)
      → Keeps {E = EngineError} P (modify (store_details py client now details retry))
  Keeps-store_details now details retry = Keeps-modify _ (stored now details retry)

  Keeps-refresh_details :
      (now : ℕ) (ongoing : Dict String Fields) → Keeps P (refresh_details py client now ongoing)
  unfolding refresh_details
  Keeps-refresh_details now ongoing =
      search
        (keeps_rules, Keeps-ask frame, Keeps-try_python, Keeps-dashboard_loop, Keeps-store_details)
        depth 16

  pub Keeps-refresh_inventory :
      (set_order : List String → List String) (now : ℕ)
      → ((ongoing : Dict String Fields) (benefits : Dict String ℕ)
          → Keeps P (rebuild_campaigns py client set_order ongoing benefits))
      → Keeps P (refresh_inventory py client set_order now)
  unfolding refresh_inventory
  Keeps-refresh_inventory set_order now rebuilt =
      search (keeps_rules, Keeps-ask frame, Keeps-try_python, Keeps-refresh_details, rebuilt) depth
        14
