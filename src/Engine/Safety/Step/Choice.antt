-- ===== src/Engine/Safety/Step/Choice.antt =====
-- What the choice of a channel and the reports of controller/twitch_miner/engine.py keep confined.
use mathlib.Core.Path.{subst}
use twitch_car_factory.Base.{
  ℕ, String, Bool, Option, none, some, List, [], ◌∷◌, ◌++◌, ◌≡◌, refl, arith, All, All-append,
  All-member, Member, if_both,
}
use twitch_car_factory.Base.Exec.{Keeps-modify, modify, gets, ◌>>=◌}
use twitch_car_factory.Json.Python.{Python}
use twitch_car_factory.Engine.State.{Channel, Event, Miner, emit}
use twitch_car_factory.Engine.Confined.{
  IsConfined, IsConfined-frame, IsHonest, logins, All-logins, Focus, Watches,
}
use twitch_car_factory.Engine.Progress.{update_progress}
use twitch_car_factory.Engine.Safety.Rules.{Safe}
use twitch_car_factory.Engine.Step.{report, start_watching, give_up, rotate}

module _ {W : Type 0} (channels : List String) where
  pub add_event :
      (focus : Option String) (s : Miner W) (e : Event)
      → IsHonest channels e
      → IsConfined channels focus s
      → IsConfined channels focus (record s { events = s.events ++ e ∷ [] })
  add_event focus s e honest h = record {
    online = h.online;
    focused = h.focused;
    watching = h.watching;
    events = All-append (IsHonest channels) s.events (e ∷ []) h.events (honest, tt);
  }

  pub Safe-report-none : (focus : Option String) → Safe {W = W} channels focus (report none)
  unfolding report emit gets ◌>>=◌ modify
  Safe-report-none focus = record {
    keep = λ s h.
        add_event focus s _
          (record {
            single = omega arith;
            shown = tt;
            configured = All-logins channels s.online h.online;
          })
          h;
  }

  pub Safe-report-some : (c : Channel) → Safe {W = W} channels (some c.login) (report (some c))
  unfolding report emit gets ◌>>=◌ modify
  Safe-report-some c = record {
    keep = λ s h.
        add_event (some c.login) s _
          (record {
            single = omega arith;
            shown = (h.focused, tt);
            configured = All-logins channels s.online h.online;
          })
          h;
  }

  pub Safe-update_progress :
      (py : Python) (focus : Option String) (c : Channel) (now wall_now : ℕ)
      → Safe {W = W} channels focus (modify (update_progress py c now wall_now))
  unfolding update_progress
  Safe-update_progress py focus c now wall_now = Keeps-modify _ (λ s h.
      if_both (IsConfined channels focus) _ _ _ (IsConfined-frame s _ refl refl refl h)
        (IsConfined-frame s _ refl refl refl h))

  -- The login in focus is configured.
  pub focus_configured :
      (c : Channel) (s : Miner W) → IsConfined channels (some c.login) s → Member c.login channels
  focus_configured c s h =
      All-member (λ l. Member l channels) c.login (logins s.online)
        (All-logins channels s.online h.online) h.focused

  pub Safe-start_watching :
      (c : Channel) (now : ℕ) → Safe {W = W} channels (some c.login) (modify (start_watching c now))
  unfolding start_watching
  Safe-start_watching c now = Keeps-modify _ (λ s h.
      if_both (IsConfined channels (some c.login)) _ _ _ (settled c s _ refl refl refl h)
        (settled c s _ refl refl refl h))
    where
      settled :
          (c : Channel) (s t : Miner W)
          → s.online ≡ t.online
          → some c ≡ t.watching
          → s.events ≡ t.events
          → IsConfined channels (some c.login) s
          → IsConfined channels (some c.login) t
      settled c s t p q r h = record {
        online = subst (All (λ c. Member c.login channels)) p h.online;
        focused = subst (Focus (some c.login)) p h.focused;
        watching = subst (Watches channels) q (focus_configured c s h);
        events = subst (All (IsHonest channels)) r h.events;
      }

  pub Safe-give_up :
      (c : Channel) (now : ℕ) → Safe {W = W} channels (some c.login) (modify (give_up c now))
  unfolding give_up
  Safe-give_up c now =
      Keeps-modify _
        (λ s h. record { online = h.online; focused = h.focused; watching = tt; events = h.events })

  pub Safe-rotate :
      (c : Channel) (now : ℕ) (rivals : Bool)
      → Safe {W = W} channels (some c.login) (modify (rotate c now rivals))
  unfolding rotate
  Safe-rotate c now rivals =
      Keeps-modify _
        (λ s h. record { online = h.online; focused = h.focused; watching = tt; events = h.events })
