-- ===== src/Engine/Confined.antt =====
-- The engine never leaves its configured channels: what it holds, watches and reports.
use twitch_car_factory.Base.{
  ◌≤◌, String, Option, none, some, List, [], ◌∷◌, map, ◌≡◌, refl, All, Member, length,
}
use mathlib.Core.Path.{subst}
use twitch_car_factory.Engine.State.{Channel, Event, Miner}
use twitch_car_factory.Engine.Rules.{IgnoresWorld}

abbrev pub logins : List Channel → List String
logins = map (λ c. c.login)

-- An event of one watched channel at most, which is online, and online channels of the configuration.
pub record IsHonest (channels : List String) (e : Event) : Type 0 where
  pub single : length e.channels ≤ 1
  pub shown : All (λ l. Member l e.online_channels) e.channels
  pub configured : All (λ l. Member l channels) e.online_channels

-- The login that the current round watches, if it watches one, is online.
abbrev pub Focus : Option String → List Channel → Type 0
Focus none online = Unit
Focus (some l) online = Member l (logins online)

abbrev pub Watches : List String → Option Channel → Type 0
Watches channels none = Unit
Watches channels (some c) = Member c.login channels

pub record IsConfined {W : Type 0} (channels : List String) (focus : Option String) (s : Miner W)
    : Type 0 where
  pub online : All (λ c. Member c.login channels) s.online
  pub focused : Focus focus s.online
  pub watching : Watches channels s.watching
  pub events : All (IsHonest channels) s.events

module _ {W : Type 0} {channels : List String} {focus : Option String} where
  -- Only the three fields matter.
  pub IsConfined-frame :
      (s t : Miner W)
      → s.online ≡ t.online
      → s.watching ≡ t.watching
      → s.events ≡ t.events
      → IsConfined channels focus s
      → IsConfined channels focus t
  IsConfined-frame s t p q r h = record {
    online = subst (All (λ c. Member c.login channels)) p h.online;
    focused = subst (Focus focus) p h.focused;
    watching = subst (Watches channels) q h.watching;
    events = subst (All (IsHonest channels)) r h.events;
  }

  pub IsConfined-world : IgnoresWorld (IsConfined {W = W} channels focus)
  IsConfined-world s w h = IsConfined-frame s (record s { world = w }) refl refl refl h

-- A new list of channels, all of them configured, while no login is in focus.
pub IsConfined-set_online :
    {W : Type 0} {channels : List String} (s : Miner W) (cs : List Channel)
    → All (λ c. Member c.login channels) cs
    → IsConfined channels none s
    → IsConfined channels none (record s { online = cs })
IsConfined-set_online s cs h i = record {
  online = h;
  focused = tt;
  watching = i.watching;
  events = i.events;
}

pub All-logins :
    (channels : List String) (cs : List Channel)
    → All (λ c. Member c.login channels) cs
    → All (λ l. Member l channels) (logins cs)
All-logins channels [] h = tt
All-logins channels (c ∷ cs) h = (h.0, All-logins channels cs h.1)
