-- ===== src/Engine/Safety/Channels.antt =====
-- Refreshing the channels and their sessions keeps the engine confined.
use twitch_car_factory.Base.{
  String, Option, none, some, List, [], ◌∷◌, ◌++◌, ◌≡◌, refl, arith, All, All-append, Member,
  string_eq, inl, inr,
}
use mathlib.Core.Path.{sym, subst}
use twitch_car_factory.Base.Result.{ok}
use twitch_car_factory.Base.Exec.{
  keeps_rules, Keeps-bind, Keeps-if, Keeps-pure, Keeps-modify, on_option, pure, modify,
}
use twitch_car_factory.Base.Yields.{
  Yields, yields_rules, Yields-pure, Yields-if, Yields-then, Yields-bind, Yields-on_option,
  Keeps-bind-Yields,
}
use twitch_car_factory.Json.{Value, Fields}
use twitch_car_factory.Json.Python.{Python}
use twitch_car_factory.Inventory.Campaign.{Campaign}
use twitch_car_factory.Engine.State.{Channel, Client}
use twitch_car_factory.Engine.Rules.{Keeps-recover, Keeps-gets-bind, Yields-try_python}
use twitch_car_factory.Engine.Confined.{IsConfined-set_online}
use twitch_car_factory.Engine.Safety.Rules.{Safe, Safe-ask, Safe-sense, Safe-try_python}
use twitch_car_factory.Engine.Channels.{
  discover, read_channel, add_channel, channel_loop, refresh_channels, confirm, accept_session,
  read_session, check_session, session_loop, refresh_current_sessions,
}

abbrev pub Configured : List String → Channel → Type 0
Configured channels c = Member c.login channels

abbrev AllConfigured : List String → List Channel → Type 0
AllConfigured channels cs = All (Configured channels) cs

abbrev FoundConfigured : List String → Option (List Channel) → Type 0
FoundConfigured channels none = Unit
FoundConfigured channels (some cs) = AllConfigured channels cs

module _ (py : Python) {W : Type 0} (client : Client W) (channels : List String) where
  read_channel-login :
      (login : String) (user live : Value)
      → Yields (λ c. c.login ≡ login) (read_channel py client login user live)
  unfolding read_channel
  read_channel-login login user live = search yields_rules depth 12

  add_channel-Configured :
      (login : String) (online : List Channel)
      → Member login channels
      → AllConfigured channels online
      → Yields (AllConfigured channels) (add_channel py client login online)
  unfolding add_channel
  add_channel-Configured login online m h = Yields-then _ _ (λ user.
      Yields-if _ _ _ (Yields-pure online h) (
        Yields-then _ _ (λ live. Yields-if _ _ _ (Yields-pure online h) (
          Yields-bind (λ c. c.login ≡ login) _ _ (read_channel-login login user live)
            (λ c e.
              Yields-pure _
                (All-append _ online (c ∷ []) h (subst (λ l. Member l channels) (sym e) m, tt)))))))

  channel_loop-Configured :
      (rest : List String) (online : List Channel)
      → All (λ l. Member l channels) rest
      → AllConfigured channels online
      → Yields (FoundConfigured channels) (channel_loop py client rest online)
  unfolding channel_loop
  channel_loop-Configured [] online m h = Yields-pure _ h
  channel_loop-Configured (login ∷ rest) online m h = Yields-then _ _ (λ stopped.
      Yields-if stopped _ _ (Yields-pure _ tt) (
        Yields-bind (AllConfigured channels) _ _ (add_channel-Configured login online m.0 h)
          (λ more k. channel_loop-Configured rest more m.1 k)))

  module _ (focus : Option String) where
    Safe-read_channel :
        (login : String) (user live : Value)
        → Safe channels focus (read_channel py client login user live)
    unfolding read_channel discover
    Safe-read_channel login user live =
        search (keeps_rules, Safe-ask channels focus, Safe-try_python channels focus, Keeps-recover)
          depth 14

    Safe-add_channel :
        (login : String) (online : List Channel)
        → Safe channels focus (add_channel py client login online)
    unfolding add_channel
    Safe-add_channel login online =
        search
          (keeps_rules, Safe-ask channels focus, Safe-try_python channels focus, Safe-read_channel)
          depth 8

    Safe-channel_loop :
        (rest : List String) (online : List Channel)
        → Safe channels focus (channel_loop py client rest online)
    unfolding channel_loop
    Safe-channel_loop [] online = Keeps-pure _
    Safe-channel_loop (login ∷ rest) online =
        Keeps-bind _ _ (Safe-sense channels focus client.is_set) (λ stopped.
          Keeps-if stopped _ _ (Keeps-pure _)
            (Keeps-bind _ _ (Safe-add_channel login online) (λ more. Safe-channel_loop rest more)))

  All-Member :
      (xs ys : List String) → ((x : String) → Member x xs → Member x ys) → All (λ l. Member l ys) xs
  All-Member [] ys h = tt
  All-Member (x ∷ xs) ys h = (h x (inl refl), All-Member xs ys (λ y m. h y (inr m)))

  store_found :
      (found : Option (List Channel))
      → FoundConfigured channels found
      → Safe {W = W} channels none
          (on_option found (pure tt) (λ online. modify (λ s. record s { online = online })))
  unfolding on_option
  store_found none h = Keeps-pure _
  store_found (some online) h = Keeps-modify _ (λ s i. IsConfined-set_online s online h i)

  pub Safe-refresh_channels : Safe channels none (refresh_channels py client channels)
  unfolding refresh_channels
  Safe-refresh_channels =
      Keeps-bind-Yields (FoundConfigured channels) _ _ (Safe-channel_loop none channels [])
        (channel_loop-Configured channels [] (All-Member channels channels (λ x m. m)) tt)
        store_found

  -- A session never changes the login.
  accept_session-login :
      (current : Fields) (campaigns : List Campaign) (c d : Channel)
      → accept_session py current campaigns c ≡ ok d
      → d.login ≡ c.login
  unfolding accept_session confirm
  accept_session-login current campaigns c d h = ground arith

  check_session-login : (c : Channel) → Yields (λ d. d.login ≡ c.login) (check_session py client c)
  unfolding check_session read_session
  check_session-login c = Yields-then _ _ (λ answer.
      Yields-on_option answer _ _ (Yields-pure c refl) (λ v. Yields-then _ _ (λ user.
        Yields-then _ _ (λ session. Yields-then _ _ (λ campaigns.
          Yields-on_option _ _ _ (Yields-pure c refl) (λ current.
            Yields-try_python _ (λ d e. accept_session-login current campaigns c d e)))))))

  Safe-check_session : (c : Channel) → Safe channels none (check_session py client c)
  unfolding check_session read_session
  Safe-check_session c =
      search (keeps_rules, Safe-ask channels none, Safe-try_python channels none, Keeps-recover)
        depth 10

  Safe-session_loop :
      (done rest : List Channel)
      → AllConfigured channels done
      → AllConfigured channels rest
      → Safe channels none (session_loop py client done rest)
  unfolding session_loop
  Safe-session_loop done [] h k = Keeps-pure _
  Safe-session_loop done (c ∷ rest) h k =
      Keeps-bind _ _ (Safe-sense channels none client.is_set) (λ stopped.
        Keeps-if stopped _ _ (Keeps-pure _) (
          Keeps-bind-Yields (λ d. d.login ≡ c.login) _ _ (Safe-check_session c)
            (check_session-login c)
            (λ d e.
              let placed : Member d.login channels = subst (λ l. Member l channels) (sym e) k.0 in
              Keeps-bind _ _
                (Keeps-modify _ (λ s i.
                  IsConfined-set_online s _ (All-append _ done (d ∷ rest) h (placed, k.1)) i))
                (λ _.
                  Safe-session_loop (done ++ d ∷ []) rest
                    (All-append _ done (d ∷ []) h (placed, tt)) k.1))))

  pub Safe-refresh_current_sessions : Safe channels none (refresh_current_sessions py client)
  unfolding refresh_current_sessions
  Safe-refresh_current_sessions =
      Keeps-gets-bind _ _ (λ s h. (Safe-session_loop [] s.online tt h.online).keep s h)
