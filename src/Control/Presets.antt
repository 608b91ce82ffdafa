-- ===== src/Control/Presets.antt =====
-- save_preset, delete_preset and update_farm_configuration of controller/services.py.
use twitch_car_factory.Base.{
  ℕ, suc, Bool, true, false, not, ◌&&◌, ◌||◌, Option, none, some, List, [], ◌∷◌, ◌++◌, ◌==◌,
  text_eq, Bool_eq, nat_eq, is_some, is_empty, any_of, filter_by, ltb, length, or_else,
  if◌then◌else◌,
}
use twitch_car_factory.Base.Equality.{list_beq}
use twitch_car_factory.Base.Dict.{lookup, insert, erase}
use twitch_car_factory.Base.Exec.{pure, gets, modify, atomic, ◌>>=◌, ◌>>◌}
use twitch_car_factory.Control.Text.{Text, text, strip, fold_case}
use twitch_car_factory.Control.Channels.{
  ChannelInput, normalize_channels, bad_preset_name, preset_taken, preset_assigned,
}
use twitch_car_factory.Control.Model.{
  Account, Selection, Preset, is_default, FarmConfiguration, number, listing, flag, Database,
}
use twitch_car_factory.Control.Resolve.{
  no_preset, Service, Platform, check, required, require, refresh_account_fingerprint,
}
use twitch_car_factory.Control.Commands.{Request, log_action}
use twitch_car_factory.Control.Selections.{bump_revision, restart_running}

abbrev pub same_texts : List Text → List Text → Bool
same_texts [] [] = true
same_texts [] (_ ∷ _) = false
same_texts (_ ∷ _) [] = false
same_texts (a ∷ as') (b ∷ bs) = list_beq a b && same_texts as' bs

-- The accounts whose selection `which` takes, in the order of their keys.
abbrev pub selecting : (Selection → Bool) → Database → List (ℕ × Account)
selecting which db =
    filter_by (λ a. elim (lookup a.0 db.selections) [ none ↦ false | some s ↦ which s ]) db.accounts

-- `selection__preset=preset`
abbrev pub assigned_to : ℕ → Selection → Bool
assigned_to id s = elim s.preset_id [ none ↦ false | some n ↦ n == id ]

-- `ChannelPreset.objects.filter(name__iexact=name)`, less the preset that is saved.
abbrev pub name_in_use : Text → Option ℕ → Database → Bool
name_in_use name except db =
    any_of
      (λ row.
        (not (elim except [ none ↦ false | some id ↦ row.0 == id ]))
        && fold_case row.1.name == fold_case name)
      db.presets

abbrev write_preset : ℕ → Preset → Service (Unit {0})
write_preset id row = modify λ db. record db { presets = insert id row db.presets }

-- A row of ChannelPreset with its channels: a new one, or the old one written anew.
unfoldable pub put_preset : Option ℕ → Preset → Service ℕ
put_preset (some id) row = write_preset id row >> pure id
put_preset none row = do
  id ← gets (λ db. db.next_preset)
  modify λ db. record db { next_preset = suc id }
  write_preset id row
  pure id

module _ (p : Platform) where
  -- The loop over the accounts that a change affects.
  unfoldable pub touch_accounts : List (ℕ × Account) → Request → Text → Service (Unit {0})
  touch_accounts [] request reason = pure tt
  touch_accounts ((id, _) ∷ rest) request reason = do
    bumped ← bump_revision id
    refresh_account_fingerprint p id bumped
    restart_running p id request reason
    touch_accounts rest request reason

  -- `ChannelPreset.objects.select_for_update().get(pk=preset.pk)`, where one is given.
  unfoldable pub require_preset : Option ℕ → Service (Unit {0})
  require_preset none = pure tt
  require_preset (some id) = do
    found ← gets (λ db. lookup id db.presets)
    row ← required no_preset found
    pure tt

  unfoldable pub save_preset : Text → ChannelInput → Option ℕ → Request → Service ℕ
  save_preset name channels given request = atomic (do
    let normalized_name = strip name
    require (not (is_empty normalized_name || ltb 150 (length normalized_name))) bad_preset_name
    normalized ← check (normalize_channels channels true)
    require_preset given
    duplicate ← gets (name_in_use normalized_name given)
    require (not duplicate) preset_taken
    id ← put_preset given (record { name = normalized_name; channels = normalized })
    affected ← gets (selecting (assigned_to id))
    touch_accounts affected request (text "Preset " ++ normalized_name ++ text " changed.")
    log_action (record {
      actor = request.actor;
      account = none;
      action = if is_some given then text "preset_updated" else text "preset_created";
      message =
          (if is_some given then text "Updated" else text "Created")
          ++ text " preset "
          ++ normalized_name
          ++ text ".";
      details = ("preset_id", number id) ∷ ("channels", listing normalized) ∷ [];
    })
    pure id)

  unfoldable pub delete_preset : ℕ → Request → Service (Unit {0})
  delete_preset id request = atomic (do
    found ← gets (λ db. lookup id db.presets)
    row ← required no_preset found
    assigned ← gets (λ db. any_of (λ s. assigned_to id s.1) db.selections)
    require (not assigned) preset_assigned
    modify λ db. record db { presets = erase id db.presets }
    log_action (record {
      actor = request.actor;
      account = none;
      action = text "preset_deleted";
      message = text "Deleted preset " ++ row.name ++ text ".";
      details = ("preset_id", number id) ∷ [];
    }))

  abbrev settings_entry : List Text → Bool → Request → Service (Unit {0})
  settings_entry channels autostart request = log_action (record {
    actor = request.actor;
    account = none;
    action = text "farm_settings_updated";
    message = text "Updated farm defaults.";
    details =
        ("default_channels", listing channels) ∷ ("autostart_new_accounts", flag autostart) ∷ [];
  })

  unfoldable pub update_farm_configuration :
      ChannelInput → Bool → Request → Service FarmConfiguration
  update_farm_configuration default_channels autostart request = atomic (do
    channels ← check (normalize_channels default_channels true)
    stored ← gets (λ db. db.configuration)
    let fresh : FarmConfiguration = record { default_channels = []; autostart_new_accounts = false }
    let before = or_else stored fresh
    let channels_changed = not (same_texts before.default_channels channels)
    let preference_changed = not (before.autostart_new_accounts == autostart)
    let configuration : FarmConfiguration = record {
      default_channels = channels;
      autostart_new_accounts = autostart;
    }
    modify λ db. record db { configuration = some configuration }
    affected ← gets (λ db. filter_by (λ a. a.1.is_active) (selecting (λ s. is_default s.mode) db))
    if channels_changed
        then touch_accounts affected request (text "Farm default channels changed.")
        else pure tt
    if channels_changed || preference_changed
        then settings_entry channels autostart request
        else pure tt
    pure configuration)
