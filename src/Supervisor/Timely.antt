-- ===== src/Supervisor/Timely.antt =====
-- What SupervisorOptions.from_settings of controller/miner_supervisor.py lets through.
use twitch_car_factory.Base.{
  ℕ, false, ◌||◌, Option, none, some, List, [], ◌∷◌, any_of, is_empty, All, ◌≡◌, refl, arith,
}
use twitch_car_factory.Base.Result.{Result, ok, err, ◌>>=◌}
use twitch_car_factory.Base.Yields.{OnOk, OnOk-unless, OnOk-bind}
use twitch_car_factory.Control.Text.{Text, text}
use twitch_car_factory.Supervisor.Settings.{
  words, scalar, Surroundings, SettingsError, negative_number, negative_delays, Timings,
  raw_setting, checked, number_setting, checked_delays, delays_of, backoff_setting, poll_setting,
  from_settings, float_raw,
}

module _ {F V : Type 0} (s : Surroundings F V) where
  -- A number that is not negative.
  abbrev pub NotNegative : F → Type 0
  NotNegative x = s.is_negative x ≡ false

  -- Delays, at least one, and none negative.
  abbrev pub AreDelays : List F → Type 0
  AreDelays xs = All NotNegative xs × (is_empty xs ≡ false)

  -- The poll of the commands is a number that is not negative, where the caller gives none.
  abbrev pub Polls : Option F → F → Type 0
  Polls none x = NotNegative x
  Polls (some given) x = x ≡ given

  abbrev pub IsTimely : Option F → Timings F → Type 0
  IsTimely given t =
      Polls given t.command_poll
      × NotNegative t.health_poll
      × NotNegative t.fingerprint_poll
      × NotNegative t.startup_grace
      × NotNegative t.authentication_handshake
      × NotNegative t.stop_timeout
      × AreDelays t.rapid_restart_backoff
      × NotNegative t.degraded_retry
      × NotNegative t.stable_reset
      × NotNegative t.command_lease
      × NotNegative t.worker_lease
      × NotNegative t.worker_heartbeat

  checked-NotNegative : (name : Text) (r : Option F) → OnOk NotNegative (checked s name r)
  unfolding checked
  checked-NotNegative name none = tt
  checked-NotNegative name (some x) =
      OnOk-unless NotNegative (s.is_negative x) (negative_number name) (ok x) (λ h. h)

  number_setting-NotNegative : (name : Text) (n : ℕ) → OnOk NotNegative (number_setting s name n)
  unfolding number_setting
  number_setting-NotNegative name n =
      checked-NotNegative name (float_raw s (raw_setting s name (scalar (s.literal n))))

  any_negative : (xs : List F) → any_of s.is_negative xs ≡ false → All NotNegative xs
  any_negative [] h = tt
  any_negative (x ∷ xs) h = ground (arith, h, any_negative xs)

  checked_delays-AreDelays : (xs : List F) → OnOk AreDelays (checked_delays s xs)
  unfolding checked_delays
  checked_delays-AreDelays xs =
      OnOk-unless AreDelays (is_empty xs || any_of s.is_negative xs) negative_delays (ok xs)
        (λ h. (any_negative xs (ground (arith, h)), ground (arith, h)))

  returned : {E A : Type 0} (r : Result E A) → OnOk (λ _. Unit {0}) r
  returned (ok _) = tt
  returned (err _) = tt

  backoff_setting-AreDelays : OnOk AreDelays (backoff_setting s)
  unfolding backoff_setting
  backoff_setting-AreDelays =
      OnOk-bind (λ _. Unit {0}) AreDelays
        (delays_of s
          (raw_setting s (text "MINER_RAPID_RESTART_BACKOFF") (words (text "5,15,30,60,120"))))
        (checked_delays s) (returned _) (λ xs _. checked_delays-AreDelays xs)

  poll_setting-Polls : (given : Option F) → OnOk (Polls given) (poll_setting s given)
  unfolding poll_setting
  poll_setting-Polls none = number_setting-NotNegative (text "MINER_COMMAND_POLL_SECONDS") 1
  poll_setting-Polls (some x) = refl

  -- The next number of the settings.
  with_number :
      (R : Timings F → Type 0) (name : Text) (n : ℕ) (f : F → Result SettingsError (Timings F))
      → ((x : F) → NotNegative x → OnOk R (f x))
      → OnOk R (number_setting s name n >>= f)
  with_number R name n f h =
      OnOk-bind NotNegative R (number_setting s name n) f (number_setting-NotNegative name n) h

  -- Where the settings are let through, no number of theirs is negative, the backoff has a delay at least
  -- and no negative one, and the poll of the commands is the caller's, where the caller gives one.
  pub from_settings-IsTimely : (given : Option F) → OnOk (IsTimely given) (from_settings s given)
  unfolding from_settings
  from_settings-IsTimely given =
      OnOk-bind (Polls given) (IsTimely given) (poll_setting s given) _ (poll_setting-Polls given)
        (λ x1 h1. with_number (IsTimely given) (text "MINER_HEALTH_POLL_SECONDS") 5 _ (λ x2 h2.
          with_number (IsTimely given) (text "MINER_FINGERPRINT_POLL_SECONDS") 30 _ (λ x3 h3.
            with_number (IsTimely given) (text "MINER_STARTUP_GRACE_SECONDS") 15 _ (λ x4 h4.
              with_number (IsTimely given) (text "MINER_AUTHENTICATION_HANDSHAKE_SECONDS") 1900 _
                (λ x5 h5.
                  with_number (IsTimely given) (text "MINER_STOP_TIMEOUT_SECONDS") 10 _ (λ x6 h6.
                    OnOk-bind AreDelays (IsTimely given) (backoff_setting s) _
                      backoff_setting-AreDelays
                      (λ xs hs.
                        with_number (IsTimely given) (text "MINER_DEGRADED_RETRY_SECONDS") 300 _
                          (λ x7 h7.
                            with_number (IsTimely given) (text "MINER_STABLE_RESET_SECONDS") 600 _
                              (λ x8 h8.
                                with_number (IsTimely given) (text "MINER_COMMAND_LEASE_SECONDS") 45
                                  _
                                  (λ x9 h9.
                                    with_number (IsTimely given) (text "MINER_WORKER_LEASE_SECONDS")
                                      20 _
                                      (λ y1 k1.
                                        with_number (IsTimely given)
                                          (text "MINER_WORKER_HEARTBEAT_SECONDS") 5 _
                                          (λ y2 k2. (
                                            h1, h2, h3, h4, h5, h6, hs, h7, h8, h9, k1, k2,
                                          )))))))))))))
