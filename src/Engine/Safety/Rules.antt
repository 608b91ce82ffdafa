-- ===== src/Engine/Safety/Rules.antt =====
-- The rules for confinement, at every focus.
use twitch_car_factory.Base.{String, Option, List}
use twitch_car_factory.Base.Result.{Result}
use twitch_car_factory.Base.Exec.{Keeps}
use twitch_car_factory.Json.{PyError}
use twitch_car_factory.Engine.State.{EngineError, Action, ask, sense, try_python}
use twitch_car_factory.Engine.Rules.{Keeps-ask, Keeps-sense, Keeps-try_python}
use twitch_car_factory.Engine.Confined.{IsConfined, IsConfined-world}

module _ {W : Type 0} (channels : List String) (focus : Option String) where
  abbrev pub Safe : {A : Type 0} → Action W A → Type 0
  Safe m = Keeps (IsConfined channels focus) m

  pub Safe-ask : {A : Type 0} (call : W → Result EngineError A × W) → Safe (ask call)
  Safe-ask call = Keeps-ask IsConfined-world call

  pub Safe-sense : {A : Type 0} (call : W → A × W) → Safe (sense call)
  Safe-sense call = Keeps-sense IsConfined-world call

  pub Safe-try_python : {A : Type 0} (r : Result PyError A) → Safe (try_python r)
  Safe-try_python r = Keeps-try_python r
