-- ===== src/Engine/Safety/Step.antt =====
-- A round of the engine keeps it confined, and so does the whole loop.
pub mod Choice
unfoldable pub use Choice.*
use mathlib.Core.Path.{subst}
use twitch_car_factory.Base.{
  ℕ, zero, suc, String, Bool, Option, none, some, List, [], ◌∷◌, ◌++◌, ◌≡◌, refl, arith, All,
  All-append, All-member, Member, if_both,
}
use twitch_car_factory.Base.Result.{Result, ok, err}
use twitch_car_factory.Base.Exec.{
  keeps_rules, Keeps-bind, Keeps-if, Keeps-pure, Keeps-raise, Keeps-attempt, Keeps-modify, modify,
  on_option, gets, ◌>>=◌, ◌>>◌,
}
use twitch_car_factory.Json.Python.{Python}
use twitch_car_factory.Engine.State.{
  EngineError, authentication, twitch, python, Channel, Event, Miner, Client, emit, new,
}
use twitch_car_factory.Engine.Rules.{Keeps-recover, Keeps-gets-bind, Keeps-gets_two}
use twitch_car_factory.Engine.Confined.{
  IsConfined, IsConfined-frame, IsHonest, logins, All-logins, Focus, Watches,
}
use twitch_car_factory.Engine.Progress.{update_progress}
use twitch_car_factory.Engine.Selection.{choose, eligible_channels}
use twitch_car_factory.Engine.Priority.{choose-Chosen, Chosen, Chosen-Member}
use twitch_car_factory.Engine.Safety.Rules.{Safe, Safe-ask, Safe-sense}
use twitch_car_factory.Engine.Safety.Claims.{Safe-claim_drops}
use twitch_car_factory.Engine.Safety.Channels.{Safe-refresh_channels, Safe-refresh_current_sessions}
use twitch_car_factory.Engine.Safety.Metadata.{Safe-refresh_inventory}
use twitch_car_factory.Engine.Step.{
  report, start_watching, give_up, rotate, refresh, earn_points, follow_progress, watch_channel,
  step, settle, round, run_loop, run,
}

module _ (py : Python) (set_order : List String → List String) {W : Type 0} (client : Client W)
    (channels : List String) where
  Safe-earn_points :
      (focus : Option String) (c : Channel) (now : ℕ)
      → Safe channels focus (earn_points py set_order client channels c now)
  unfolding earn_points
  Safe-earn_points focus c now = Keeps-bind _ _ (Safe-ask channels focus _) (λ sent.
      Keeps-gets-bind _ _ (λ s.
        (Keeps-if _ _ _ (Keeps-pure _) (
            Keeps-bind _ _ (Keeps-modify _ (λ t i. IsConfined-frame t _ refl refl refl i))
              (λ _. Keeps-bind _ _ (Safe-ask channels focus _) (λ claimed. Keeps-pure _)))).keep
          s))

  Safe-follow_progress :
      (c : Channel) (eligible : List Channel) (now wall_now : ℕ)
      → Safe channels
          (some c.login)
          (follow_progress py set_order client channels c eligible now wall_now)
  unfolding follow_progress
  Safe-follow_progress c eligible now wall_now =
      search
        (
          keeps_rules,
          Safe-update_progress channels py (some c.login),
          Safe-claim_drops channels (some c.login),
          Safe-ask channels (some c.login),
          Safe-rotate channels c,
        )
        depth 10

  Safe-watch_channel :
      (refreshed : Bool) (c : Channel) (eligible : List Channel) (now wall_now : ℕ)
      → Safe channels
          (some c.login)
          (watch_channel py set_order client channels refreshed c eligible now wall_now)
  unfolding watch_channel
  Safe-watch_channel refreshed c eligible now wall_now =
      search
        (
          keeps_rules,
          Keeps-recover,
          Safe-start_watching channels c,
          Safe-ask channels (some c.login),
          Safe-give_up channels c,
          Safe-report-none channels,
          Safe-report-some channels c,
          Safe-earn_points,
          Safe-follow_progress,
        )
        depth 12

  Safe-refresh :
      (now wall_now : ℕ) → Safe channels none (refresh py set_order client channels now wall_now)
  unfolding refresh
  Safe-refresh now wall_now = Keeps-gets-bind _ _ (λ s.
      (Keeps-bind _ _ (Safe-refresh_channels py client channels) (λ _.
          Keeps-bind _ _
            (Keeps-modify _ (λ t i.
              if_both (IsConfined channels none) _ _ _ i (IsConfined-frame t _ refl refl refl i)))
            (λ _.
              Keeps-bind _ _
                (Keeps-recover _ _ (Safe-refresh_inventory py client channels none set_order now))
                (λ _. Keeps-bind _ _ (Safe-refresh_current_sessions py client channels) (λ _.
                  Keeps-bind _ _ (Safe-claim_drops channels none client wall_now)
                    (λ _. Keeps-modify _ (λ t i. IsConfined-frame t _ refl refl refl i))))))).keep
        s)

  -- A login that is online may be put in focus, and out of it again.
  focus_on :
      (l : String) (s : Miner W)
      → Member l (logins s.online)
      → IsConfined channels none s
      → IsConfined channels (some l) s
  focus_on l s m h = record {
    online = h.online;
    focused = m;
    watching = h.watching;
    events = h.events;
  }

  unfocus : (l : String) (s : Miner W) → IsConfined channels (some l) s → IsConfined channels none s
  unfocus l s h = record {
    online = h.online;
    focused = tt;
    watching = h.watching;
    events = h.events;
  }

  -- What follows the choice, at the state in which it was made.
  on_choice :
      (due : Bool) (eligible : List Channel) (now wall_now : ℕ) (s : Miner W) (o : Option Channel)
      → Chosen now wall_now s o
      → IsConfined channels none s
      → IsConfined channels none
          (on_option o
            (do modify (λ t. record t { watching = none }); report none)
            (λ c. watch_channel py set_order client channels due c eligible now wall_now)
            s).1
  unfolding on_option
  on_choice due eligible now wall_now s none chosen h =
      (Keeps-bind _ _
          (Keeps-modify _
            (λ t i. record { online = i.online; focused = tt; watching = tt; events = i.events }))
          (λ _. Safe-report-none channels none)).keep
        s h
  on_choice due eligible now wall_now s (some c) chosen h = unfocus c.login _ (
      (Safe-watch_channel due c eligible now wall_now).keep s
        (focus_on c.login s (Chosen-Member now wall_now s c chosen) h))

  pub Safe-step :
      (now wall_now : ℕ) → Safe channels none (step py set_order client channels now wall_now)
  unfolding step
  Safe-step now wall_now = Keeps-gets-bind _ _ (λ s.
      (Keeps-bind _ _ (Keeps-if _ _ _ (Safe-refresh now wall_now) (Keeps-pure _)) (λ _.
          Keeps-bind _ _ (Safe-sense channels none client.is_set) (λ stopped.
            Keeps-if stopped _ _ (Keeps-pure _) (
              Keeps-gets_two (choose now wall_now) (eligible_channels now wall_now) _
                (λ t i. on_choice _ _ now wall_now t _ (choose-Chosen now wall_now t) i))))).keep
        s)

  Safe-settle :
      (failures : ℕ) (r : Result EngineError (Unit {0}))
      → Safe {W = W} channels none (settle py set_order client channels failures r)
  unfolding settle
  Safe-settle failures (ok _) = Keeps-pure _
  Safe-settle failures (err twitch) =
      Keeps-bind _ _ (Safe-report-none channels none)
        (λ _. Keeps-if _ _ _ (Keeps-raise _) (Keeps-pure _))
  Safe-settle failures (err authentication) = Keeps-raise _
  Safe-settle failures (err (python e)) = Keeps-raise _

  Safe-round : (failures : ℕ) → Safe channels none (round py set_order client channels failures)
  unfolding round
  Safe-round failures = Keeps-bind _ _ (Safe-sense channels none client.clock) (λ t.
      Keeps-bind _ _ (Keeps-attempt _ (Safe-step t.0 t.1)) (λ outcome.
        Keeps-bind _ _ (Safe-settle failures outcome) (λ failures'.
          Keeps-bind _ _ (Safe-sense channels none client.clock) (λ e.
            Keeps-bind _ _ (Keeps-modify _ (λ s h. IsConfined-frame s _ refl refl refl h))
              (λ _. Keeps-pure _)))))

  Safe-run_loop :
      (fuel failures : ℕ) → Safe channels none (run_loop py set_order client channels fuel failures)
  unfolding run_loop
  Safe-run_loop zero failures = Keeps-pure _
  Safe-run_loop (suc fuel) failures =
      Keeps-bind _ _ (Safe-sense channels none client.is_set) (λ stopped.
        Keeps-if stopped _ _ (Keeps-pure _)
          (Keeps-bind _ _ (Safe-round failures) (λ failures'. Safe-run_loop fuel failures')))

  -- Whatever Twitch answers and however the miner ends, after any number of rounds: every channel
  -- that is held or watched is one of the configured ones, and every event that was emitted shows
  -- at most one watched channel, which is among its online channels, all of them configured.
  pub run-IsConfined :
      (fuel : ℕ) (w : W)
      → IsConfined channels none (run py set_order client channels fuel (new w)).1
  unfolding run emit modify new
  run-IsConfined fuel w =
      add_event channels none _ _ (record { single = omega arith; shown = tt; configured = tt })
        ((Safe-run_loop fuel 0).keep (new w)
          (record { online = tt; focused = tt; watching = tt; events = tt }))
