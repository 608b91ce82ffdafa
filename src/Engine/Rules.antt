-- ===== src/Engine/Rules.antt =====
-- Rules for what the engine's actions keep, for a property that does not depend on the world.
use mathlib.Core.Path.{◌≡◌, refl}
use twitch_car_factory.Base.Yields.{Yields}
use twitch_car_factory.Base.Result.{Result, ok, err}
use twitch_car_factory.Base.Exec.{Keeps, ◌>>=◌, gets}
use twitch_car_factory.Json.{PyError}
use twitch_car_factory.Engine.State.{EngineError, Miner, Action, ask, sense, try_python, recover}

-- `P` says nothing of the world.
abbrev pub IgnoresWorld : {W : Type 0} → (Miner W → Type 0) → Type 0
IgnoresWorld {W} P = (s : Miner W) (w : W) → P s → P (record s { world = w })

module _ {W A : Type 0} {P : Miner W → Type 0} (frame : IgnoresWorld P) where
  pub Keeps-ask : (call : W → Result EngineError A × W) → Keeps P (ask call)
  unfolding ask
  Keeps-ask call = record { keep = λ s h. frame s (call s.world).1 h }

  pub Keeps-sense : (call : W → A × W) → Keeps P (sense call)
  unfolding sense
  Keeps-sense call = record { keep = λ s h. frame s (call s.world).1 h }

module _ {W A : Type 0} {P : Miner W → Type 0} where
  pub Keeps-try_python : (r : Result PyError A) → Keeps P (try_python r)
  unfolding try_python
  Keeps-try_python (ok a) = record { keep = λ s h. h }
  Keeps-try_python (err e) = record { keep = λ s h. h }

  pub Keeps-recover : (m : Action W A) (fallback : A) → Keeps P m → Keeps P (recover m fallback)
  unfolding recover
  Keeps-recover m fallback k = record { keep = k.keep }

module _ {W A B : Type 0} {P : Miner W → Type 0} where
  -- The rest of the block may use what was read.
  pub Keeps-gets-bind :
      (f : Miner W → A) (k : A → Action W B)
      → ((s : Miner W) → P s → P (k (f s) s).1)
      → Keeps P (gets f >>= k)
  unfolding ◌>>=◌ gets
  Keeps-gets-bind f k h = record { keep = h }

module _ {W A B C : Type 0} {P : Miner W → Type 0} where
  -- Two readings of one state.
  pub Keeps-gets_two :
      (f : Miner W → A) (g : Miner W → B) (k : A → B → Action W C)
      → ((s : Miner W) → P s → P (k (f s) (g s) s).1)
      → Keeps P (gets f >>= λ a. gets g >>= λ b. k a b)
  unfolding ◌>>=◌ gets
  Keeps-gets_two f g k h = record { keep = h }

module _ {W A : Type 0} {Q : A → Type 0} where
  pub Yields-try_python :
      (r : Result PyError A) → ((a : A) → r ≡ ok a → Q a) → Yields Q (try_python {W = W} r)
  unfolding try_python
  Yields-try_python (ok a) h = record { keep = λ s. h a refl }
  Yields-try_python (err e) h = record { keep = λ s. tt }
