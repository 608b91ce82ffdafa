-- ===== src/Control/KeepsTables.antt =====
-- set_account_channel_selection of controller/services.py keeps the database consistent.
use twitch_car_factory.Base.{ℕ, Bool, true, Option, List, nat_eq}
use twitch_car_factory.Base.Dict.{insert, insert-All}
use twitch_car_factory.Base.Exec.{
  pure, raise, gets, modify, attempt, on_option, ◌>>=◌, Keeps, keeps_rules, Keeps-modify,
  Keeps-bind, Keeps-atomic, Keeps-on_option, Keeps-if, Keeps-pure,
}
use twitch_car_factory.Base.Yields.{Yields, yields_rules, Keeps-bind-Yields}
use twitch_car_factory.Control.Text.{Text}
use twitch_car_factory.Control.Channels.{ChannelInput, normalize_channels}
use twitch_car_factory.Control.Normalized.{IsNormalized, normalize_channels-IsNormalized}
use twitch_car_factory.Control.Model.{Selection, Mode, default, custom, preset, Database}
use twitch_car_factory.Control.Resolve.{Platform}
use twitch_car_factory.Control.Commands.{Request}
use twitch_car_factory.Control.Selections.{
  PresetRef, keyed, called, unusable, find_preset, bump_revision, choose_preset, replace_custom,
  restart_running, save_selection, set_account_channel_selection,
}
use twitch_car_factory.Control.Consistent.{IsConsistent, Matches, Keeps-check}
use twitch_car_factory.Control.KeepsQueue.{
  Keeps-checked, Keeps-required, Keeps-require, Keeps-get_account, Keeps-put_account,
  Keeps-log_action, Keeps-save_state, Keeps-get_or_create_state, Keeps-refresh,
  Keeps-resolve_channels, Keeps-enqueue_command,
}

pub ruleset table_rules = (
  keeps_rules, Keeps-checked, Keeps-required, Keeps-require, Keeps-get_account, Keeps-put_account,
  Keeps-log_action, Keeps-save_state, Keeps-get_or_create_state,
)

-- The tables that hold channels and selections after a write.
pub write_selection :
    (id : ℕ) (t : Selection) (s : Database)
    → Matches t
    → IsConsistent s
    → IsConsistent (record s { selections = insert id t s.selections })
write_selection id t s m i = record {
  one_active = i.one_active;
  matched = insert-All (λ (r : ℕ × Selection). Matches r.1) id t s.selections (λ j e. m) i.matched;
  presets_normal = i.presets_normal;
  custom_normal = i.custom_normal;
  defaults_normal = i.defaults_normal;
}

write_custom :
    (id : ℕ) (cs : List Text) (s : Database)
    → IsNormalized cs
    → IsConsistent s
    → IsConsistent (record s { custom_channels = insert id cs s.custom_channels })
write_custom id cs s n i = record {
  one_active = i.one_active;
  matched = i.matched;
  presets_normal = i.presets_normal;
  custom_normal =
      insert-All (λ (r : ℕ × List Text). IsNormalized r.1) id cs s.custom_channels (λ j e. n)
        i.custom_normal;
  defaults_normal = i.defaults_normal;
}

Keeps-find_preset : (ref : PresetRef) → Keeps IsConsistent (find_preset ref)
unfolding find_preset
Keeps-find_preset (keyed id) = search table_rules
Keeps-find_preset (called t) = search table_rules
Keeps-find_preset unusable = search table_rules

pub Keeps-bump_revision : (id : ℕ) → Keeps IsConsistent (bump_revision id)
unfolding bump_revision
Keeps-bump_revision id = search table_rules

Keeps-choose_preset : (m : Mode) (ref : Option PresetRef) → Keeps IsConsistent (choose_preset m ref)
unfolding choose_preset
Keeps-choose_preset preset ref = search (table_rules, Keeps-find_preset) depth 12
Keeps-choose_preset default ref = search table_rules
Keeps-choose_preset custom ref = search table_rules

-- The preset of a selection fits its mode.
choose_preset-Matches :
    (m : Mode) (ref : Option PresetRef)
    → Yields (λ chosen. Matches (record { mode = m; preset_id = chosen })) (choose_preset m ref)
unfolding choose_preset
choose_preset-Matches preset ref = search yields_rules depth 12
choose_preset-Matches default ref = search yields_rules
choose_preset-Matches custom ref = search yields_rules

Keeps-replace_custom :
    (id : ℕ) (m : Mode) (cs : Option ChannelInput) → Keeps IsConsistent (replace_custom id m cs)
unfolding replace_custom
Keeps-replace_custom id custom cs = Keeps-on_option cs _ _ (search table_rules) (λ value.
    Keeps-check (normalize_channels value true) _ (λ ns e.
      Keeps-modify _
        (λ s i. write_custom id ns s (normalize_channels-IsNormalized value true ns e).0 i)))
Keeps-replace_custom id default cs = search table_rules
Keeps-replace_custom id preset cs = search table_rules

module _ (p : Platform) where
  pub Keeps-restart_running :
      (id : ℕ) (r : Request) (reason : Text) → Keeps IsConsistent (restart_running p id r reason)
  unfolding restart_running
  Keeps-restart_running id r reason = search (table_rules, Keeps-enqueue_command) depth 12

  Keeps-save_selection :
      (id : ℕ) (m : Mode) (cs : Option ChannelInput) (ref : Option PresetRef) (r : Request)
      (b : Bool)
      → Keeps IsConsistent (save_selection p id m cs ref r b)
  unfolding save_selection
  Keeps-save_selection id m cs ref r b = Keeps-bind _ _ (Keeps-get_account id) (λ account.
      Keeps-bind-Yields (λ o. Matches (record { mode = m; preset_id = o })) _ _
        (Keeps-choose_preset m ref) (choose_preset-Matches m ref)
        (λ chosen fits. Keeps-bind _ _ (Keeps-replace_custom id m cs) (λ _.
          Keeps-bind _ _ (Keeps-modify _ (λ s i. write_selection id _ s fits i)) (λ _.
            search (table_rules, Keeps-bump_revision, Keeps-refresh, Keeps-restart_running) depth
              20))))

  pub Keeps-set_account_channel_selection :
      (id : ℕ) (mode : Text) (cs : Option ChannelInput) (ref : Option PresetRef) (r : Request)
      (b : Bool)
      → Keeps IsConsistent (set_account_channel_selection p id mode cs ref r b)
  unfolding set_account_channel_selection
  Keeps-set_account_channel_selection id mode cs ref r b =
      search (keeps_rules, Keeps-save_selection)
