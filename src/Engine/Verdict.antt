-- ===== src/Engine/Verdict.antt =====
-- The failure policy of run of controller/twitch_miner/engine.py, as a function of how its rounds end.
use mathlib.Core.Path.{subst}
use twitch_car_factory.Base.{
  ℕ, zero, suc, ◌+◌, String, Bool, true, false, Option, none, some, List, [], ◌∷◌, ◌≡◌, refl, sym,
  ◌∙◌, leb, if◌then◌else◌, if_true, if_false, Bool-cases, inl, inr,
}
use twitch_car_factory.Base.Result.{Result, ok, err}
use twitch_car_factory.Base.Exec.{pure, raise, gets, modify, attempt, continue, ◌>>=◌}
use twitch_car_factory.Json.Python.{Python}
use twitch_car_factory.Engine.State.{
  EngineError, twitch, authentication, python, Client, Miner, Action, sense, emit,
}
use twitch_car_factory.Engine.Step.{report, settle, step, round, run_loop, run}

abbrev pub Outcome : Type 0
Outcome = Result EngineError (Unit {0})

abbrev pub error_of : {A : Type 0} → Result EngineError A → Option EngineError
error_of (ok _) = none
error_of (err e) = some e

-- Four failures of Twitch in a row are borne, the fifth ends the run, a success starts the count anew, and
-- every other exception ends the run at once.
abbrev pub verdict : ℕ → List Outcome → Option EngineError
verdict failures [] = none
verdict failures (ok _ ∷ os) = verdict 0 os
verdict failures (err twitch ∷ os) =
    let rest = verdict (failures + 1) os in if leb 5 (failures + 1) then some twitch else rest
verdict failures (err authentication ∷ os) = some authentication
verdict failures (err (python e) ∷ os) = some (python e)

-- The outcomes that follow a round.
abbrev pub following : Result EngineError ℕ → (ℕ → List Outcome) → List Outcome
following (ok n) rest = rest n
following (err _) rest = []

module _ (py : Python) (set_order : List String → List String) {W : Type 0} (client : Client W)
    (channels : List String) where
  -- How the step of a round ends.
  abbrev pub outcome : Miner W → Outcome
  outcome s =
      let ((started, wall_now), w) = client.clock s.world in
      (step py set_order client channels started wall_now (record s { world = w })).0

  abbrev pub asked : Miner W → Miner W
  asked s = record s { world = (client.is_set s.world).1 }

  -- How the steps of a run end, one after the other.
  abbrev pub outcomes : ℕ → ℕ → Miner W → List Outcome
  outcomes zero failures s = []
  outcomes (suc fuel) failures s = elim (client.is_set s.world).0 [
    | true ↦ []
    | false ↦
        outcome (asked s)
        ∷ following (round py set_order client channels failures (asked s)).0
            (λ n. outcomes fuel n (round py set_order client channels failures (asked s)).1)
  ]

  -- What a round's outcome makes of the count.
  abbrev Settled : ℕ → Outcome → Result EngineError ℕ → Type 0
  Settled failures (ok _) r = r ≡ ok 0
  Settled failures (err twitch) r =
      r ≡ (if leb 5 (failures + 1) then err twitch else ok (failures + 1))
  Settled failures (err authentication) r = r ≡ err authentication
  Settled failures (err (python e)) r = r ≡ err (python e)

  settle-Settled :
      (failures : ℕ) (o : Outcome) (s : Miner W)
      → Settled failures o (settle py set_order client channels failures o s).0
  unfolding settle report emit ◌>>=◌ gets modify pure raise
  settle-Settled failures (ok _) s = refl
  settle-Settled failures (err twitch) s = elim (Bool-cases (leb 5 (failures + 1))) [
    | inl e ↦ rw e refl
    | inr e ↦ rw e refl
  ]
  settle-Settled failures (err authentication) s = refl
  settle-Settled failures (err (python _)) s = refl

  continue-same :
      (r : Result EngineError ℕ) (f : ℕ → Action W ℕ) (s : Miner W)
      → ((n : ℕ) (t : Miner W) → (f n t).0 ≡ ok n)
      → (continue r f s).0 ≡ r
  continue-same (ok n) f s h = h n s
  continue-same (err e) f s h = refl

  round-Settled :
      (failures : ℕ) (s : Miner W)
      → Settled failures (outcome s) (round py set_order client channels failures s).0
  unfolding round attempt sense ◌>>=◌ modify pure
  round-Settled failures s =
      let ((started, wall_now), w) = client.clock s.world in
      let (o, t) = step py set_order client channels started wall_now (record s { world = w }) in
      subst (Settled failures o)
        (sym (
          continue-same (settle py set_order client channels failures o t).0 _
            (settle py set_order client channels failures o t).1 (λ n t. refl)))
        (settle-Settled failures o t)

  after_round :
      (failures : ℕ) (o : Outcome) (r : Result EngineError ℕ) (t : Miner W)
      (rest : ℕ → List Outcome) (k : ℕ → Action W Bool)
      → Settled failures o r
      → ((n : ℕ) → error_of (k n t).0 ≡ verdict n (rest n))
      → error_of (continue r k t).0 ≡ verdict failures (o ∷ following r rest)
  after_round failures (ok u) r t rest k e h =
      subst (λ q. error_of (continue q k t).0 ≡ verdict failures (ok u ∷ following q rest)) (sym e)
        (h 0)
  after_round failures (err twitch) r t rest k e h = elim (Bool-cases (leb 5 (failures + 1))) [
    | inl b ↦
        let e' : r ≡ err twitch = e ∙ if_true _ _ _ b in
        subst (λ q. error_of (continue q k t).0 ≡ verdict failures (err twitch ∷ following q rest))
          (sym e') (rw b refl)
    | inr b ↦
        let e' : r ≡ ok (failures + 1) = e ∙ if_false _ _ _ b in
        subst (λ q. error_of (continue q k t).0 ≡ verdict failures (err twitch ∷ following q rest))
          (sym e') (rw b (h (failures + 1)))
  ]
  after_round failures (err authentication) r t rest k e h =
      subst
        (λ q.
          error_of (continue q k t).0 ≡ verdict failures (err authentication ∷ following q rest))
        (sym e) refl
  after_round failures (err (python x)) r t rest k e h =
      subst
        (λ q. error_of (continue q k t).0 ≡ verdict failures (err (python x) ∷ following q rest))
        (sym e) refl

  either_end :
      (stopped : Bool) (failures : ℕ) (m : Action W Bool) (t : Miner W) (os : List Outcome)
      → error_of (m t).0 ≡ verdict failures os
      → error_of ((if stopped then pure true else m) t).0
        ≡ verdict failures (elim stopped as (λ _. List Outcome) [ true ↦ [] | false ↦ os ])
  unfolding pure
  either_end true failures m t os h = refl
  either_end false failures m t os h = h

  run_loop-verdict :
      (fuel failures : ℕ) (s : Miner W)
      → error_of (run_loop py set_order client channels fuel failures s).0
        ≡ verdict failures (outcomes fuel failures s)
  unfolding run_loop sense ◌>>=◌ pure
  run_loop-verdict zero failures s = refl
  run_loop-verdict (suc fuel) failures s =
      let t = asked s in
      let (r, t') = round py set_order client channels failures t in
      either_end (client.is_set s.world).0 failures _ t _ (
        after_round failures (outcome t) r t' (λ n. outcomes fuel n t')
          (run_loop py set_order client channels fuel) (round-Settled failures t)
          (λ n. run_loop-verdict fuel n t'))

  -- Whether a run raises, and what, is decided by how the steps of its rounds end: four failures of Twitch in
  -- a row are borne and the fifth is raised, a step that succeeds starts the count anew, and every other
  -- exception is raised at once.
  pub run-verdict :
      (fuel : ℕ) (s : Miner W)
      → error_of (run py set_order client channels fuel s).0 ≡ verdict 0 (outcomes fuel 0 s)
  unfolding run emit modify
  run-verdict fuel s = run_loop-verdict fuel 0 s
