-- ===== src/Control/Selections.antt =====
-- set_account_channel_selection of controller/services.py.
use twitch_car_factory.Base.{
  ℕ, suc, Bool, true, Option, none, some, [], ◌∷◌, ◌++◌, ◌==◌, text_eq, nat_eq, if◌then◌else◌,
}
use twitch_car_factory.Base.Dict.{Dict, lookup, insert}
use twitch_car_factory.Base.Exec.{pure, raise, gets, modify, atomic, on_option, ◌>>=◌, ◌>>◌}
use twitch_car_factory.Control.Text.{Text, text}
use twitch_car_factory.Control.Channels.{
  ChannelInput, names, normalize_channels, preset_required, unexpected_preset, channels_required,
  unexpected_channels, unknown_mode,
}
use twitch_car_factory.Control.Model.{
  Account, Selection, Preset, Mode, default, custom, preset, as_mode, mode_label, words, number,
  nothing, wants_running,
}
use twitch_car_factory.Control.Resolve.{
  invalid, no_preset, Service, Platform, check, required, get_account, put_account,
  refresh_account_fingerprint,
}
use twitch_car_factory.Control.Commands.{Request, get_or_create_state, log_action, enqueue_command}

-- The argument `preset`: a row or its primary key, a name, or something else.
pub data PresetRef : Type 0 where
  keyed : ℕ → PresetRef
  called : Text → PresetRef
  unusable : PresetRef

abbrev find_called : Text → Dict ℕ Preset → Option ℕ
find_called t [] = none
find_called t ((id, row) ∷ rest) = if row.name == t then some id else find_called t rest

-- The preset that a PresetRef means.
unfoldable pub find_preset : PresetRef → Service ℕ
find_preset (keyed id) = do
  found ← gets (λ db. lookup id db.presets)
  row ← required no_preset found
  pure id
find_preset (called t) = gets (λ db. find_called t db.presets) >>= required no_preset
find_preset unusable = raise (invalid preset_required)

-- `channel_revision = F("channel_revision") + 1`
unfoldable pub bump_revision : ℕ → Service Account
bump_revision id = do
  account ← get_account id
  let bumped = record account { channel_revision = suc account.channel_revision }
  put_account id bumped
  pure bumped

-- The preset of the selection that is saved.
unfoldable pub choose_preset : Mode → Option PresetRef → Service (Option ℕ)
choose_preset preset ref = do
  id ← on_option ref (raise (invalid preset_required)) find_preset
  found ← gets (λ db. lookup id db.presets)
  row ← required no_preset found
  check (normalize_channels (names row.channels) true)
  pure (some id)
choose_preset default ref = on_option ref (pure none) λ _. raise (invalid unexpected_preset)
choose_preset custom ref = on_option ref (pure none) λ _. raise (invalid unexpected_preset)

-- The account's own channels, which only the mode CUSTOM replaces.
unfoldable pub replace_custom : ℕ → Mode → Option ChannelInput → Service (Unit {0})
replace_custom id custom channels = on_option channels (raise (invalid channels_required)) λ value.
    do
      normalized ← check (normalize_channels value true)
      modify λ db. record db { custom_channels = insert id normalized db.custom_channels }
replace_custom id default channels =
    on_option channels (pure tt) λ _. raise (invalid unexpected_channels)
replace_custom id preset channels =
    on_option channels (pure tt) λ _. raise (invalid unexpected_channels)

module _ (p : Platform) where
  -- Restarts an account that is meant to run.
  unfoldable pub restart_running : ℕ → Request → Text → Service (Unit {0})
  restart_running id request reason = do
    state ← get_or_create_state id
    if wants_running state.desired_state
        then (enqueue_command p id (text "restart") request reason >> pure tt)
        else pure tt

  unfoldable pub save_selection :
      ℕ → Mode → Option ChannelInput → Option PresetRef → Request → Bool → Service Selection
  save_selection id mode channels ref request enqueue_restart = do
    account ← get_account id
    chosen ← choose_preset mode ref
    replace_custom id mode channels
    let selection : Selection = record { mode = mode; preset_id = chosen }
    modify λ db. record db { selections = insert id selection db.selections }
    bumped ← bump_revision id
    refresh_account_fingerprint p id bumped
    log_action (record {
      actor = request.actor;
      account = some id;
      action = text "channel_selection_changed";
      message =
          text "Changed "
          ++ account.config_key
          ++ text " channel source to "
          ++ mode_label mode
          ++ text ".";
      details =
          ("mode", words (mode_label mode))
          ∷ ("preset_id", elim chosen [ none ↦ nothing | some n ↦ number n ])
          ∷ [];
    })
    state ← get_or_create_state id
    if enqueue_restart
        then restart_running id request (text "Channel selection changed.")
        else pure tt
    pure selection

  unfoldable pub set_account_channel_selection :
      ℕ → Text → Option ChannelInput → Option PresetRef → Request → Bool → Service Selection
  set_account_channel_selection id mode channels ref request enqueue_restart = atomic (
      on_option (as_mode mode) (raise (invalid unknown_mode))
        λ m. save_selection id m channels ref request enqueue_restart)
