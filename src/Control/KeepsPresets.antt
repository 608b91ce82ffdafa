-- ===== src/Control/KeepsPresets.antt =====
-- The transactions on presets and farm defaults, and create_launch_snapshot, of
-- controller/services.py keep the database consistent.
use twitch_car_factory.Base.{
  ℕ, Bool, true, Option, none, some, List, [], ◌∷◌, nat_eq, All, if_both, refl, ◌==◌,
}
use twitch_car_factory.Base.Dict.{Dict, insert, erase, insert-All}
use twitch_car_factory.Base.Exec.{
  Keeps, Keeps-modify, Keeps-bind, Keeps-atomic, Keeps-pure, Keeps-gets,
}
use twitch_car_factory.Control.Text.{Text}
use twitch_car_factory.Control.Channels.{ChannelInput, normalize_channels}
use twitch_car_factory.Control.Normalized.{IsNormalized, normalize_channels-IsNormalized}
use twitch_car_factory.Control.Model.{Account, Preset, Run, FarmConfiguration, Database}
use twitch_car_factory.Control.Resolve.{Platform}
use twitch_car_factory.Control.Commands.{Request}
use twitch_car_factory.Control.Presets.{
  put_preset, touch_accounts, require_preset, save_preset, delete_preset, update_farm_configuration,
}
use twitch_car_factory.Control.Launch.{clean_run, create_launch_snapshot}
use twitch_car_factory.Control.Consistent.{IsConsistent, IsConsistent-frame, Keeps-check}
use twitch_car_factory.Control.KeepsQueue.{
  Keeps-required, Keeps-require, Keeps-get_account, Keeps-refresh, Keeps-resolve_channels,
  Keeps-log_action,
}
use twitch_car_factory.Control.KeepsTables.{table_rules, Keeps-bump_revision, Keeps-restart_running}

write_row :
    (id : ℕ) (row : Preset) (s : Database)
    → IsNormalized row.channels
    → IsConsistent s
    → IsConsistent (record s { presets = insert id row s.presets })
write_row id row s n i = record {
  one_active = i.one_active;
  matched = i.matched;
  presets_normal =
      insert-All (λ (r : ℕ × Preset). IsNormalized r.1.channels) id row s.presets (λ j e. n)
        i.presets_normal;
  custom_normal = i.custom_normal;
  defaults_normal = i.defaults_normal;
}

All-erase : {V : Type 0} (P : ℕ × V → Type 0) (id : ℕ) (d : Dict ℕ V) → All P d → All P (erase id d)
unfolding erase
All-erase P id [] h = tt
All-erase P id ((j, v) ∷ d) h =
    if_both (All P) (j == id) d ((j, v) ∷ erase id d) h.1 (h.0, All-erase P id d h.1)

erase_row :
    (id : ℕ) (s : Database)
    → IsConsistent s
    → IsConsistent (record s { presets = erase id s.presets })
erase_row id s i = record {
  one_active = i.one_active;
  matched = i.matched;
  presets_normal =
      All-erase (λ (r : ℕ × Preset). IsNormalized r.1.channels) id s.presets i.presets_normal;
  custom_normal = i.custom_normal;
  defaults_normal = i.defaults_normal;
}

write_defaults :
    (c : FarmConfiguration) (s : Database)
    → IsNormalized c.default_channels
    → IsConsistent s
    → IsConsistent (record s { configuration = some c })
write_defaults c s n i = record {
  one_active = i.one_active;
  matched = i.matched;
  presets_normal = i.presets_normal;
  custom_normal = i.custom_normal;
  defaults_normal = n;
}

Keeps-put_preset :
    (given : Option ℕ) (row : Preset)
    → IsNormalized row.channels
    → Keeps IsConsistent (put_preset given row)
unfolding put_preset
Keeps-put_preset (some id) row n =
    Keeps-bind _ _ (Keeps-modify _ (λ s i. write_row id row s n i)) (λ _. Keeps-pure _)
Keeps-put_preset none row n = Keeps-bind _ _ (Keeps-gets _) (λ id.
    Keeps-bind _ _ (Keeps-modify _ (λ s i. IsConsistent-frame s _ refl refl refl refl refl i))
      (λ _. Keeps-bind _ _ (Keeps-modify _ (λ s i. write_row id row s n i)) (λ _. Keeps-pure _)))

Keeps-clean_run : (run : Run) → Keeps IsConsistent (clean_run run)
unfolding clean_run
Keeps-clean_run run = search table_rules

module _ (p : Platform) where
  Keeps-touch_accounts :
      (as' : List (ℕ × Account)) (r : Request) (reason : Text)
      → Keeps IsConsistent (touch_accounts p as' r reason)
  unfolding touch_accounts
  Keeps-touch_accounts [] r reason = Keeps-pure _
  Keeps-touch_accounts (a ∷ as') r reason = Keeps-bind _ _ (Keeps-bump_revision a.0) (λ b.
      Keeps-bind _ _ (Keeps-refresh p a.0 b) (λ _.
        Keeps-bind _ _ (Keeps-restart_running p a.0 r reason)
          (λ _. Keeps-touch_accounts as' r reason)))

  Keeps-require_preset : (given : Option ℕ) → Keeps IsConsistent (require_preset p given)
  unfolding require_preset
  Keeps-require_preset none = search table_rules
  Keeps-require_preset (some id) = search table_rules

  pub Keeps-save_preset :
      (name : Text) (cs : ChannelInput) (given : Option ℕ) (r : Request)
      → Keeps IsConsistent (save_preset p name cs given r)
  unfolding save_preset
  Keeps-save_preset name cs given r = Keeps-atomic _ (
      Keeps-bind _ _ (Keeps-require _ _) (λ _. Keeps-check (normalize_channels cs true) _ (λ ns e.
        let n = (normalize_channels-IsNormalized cs true ns e).0 in
        Keeps-bind _ _ (Keeps-require_preset given) (λ _.
          Keeps-bind _ _ (Keeps-gets _) (λ duplicate. Keeps-bind _ _ (Keeps-require _ _) (λ _.
            Keeps-bind _ _ (Keeps-put_preset given _ n)
              (λ id. search (table_rules, Keeps-touch_accounts) depth 12)))))))

  pub Keeps-delete_preset : (id : ℕ) (r : Request) → Keeps IsConsistent (delete_preset p id r)
  unfolding delete_preset
  Keeps-delete_preset id r = Keeps-atomic _ (
      Keeps-bind _ _ (Keeps-gets _) (λ found. Keeps-bind _ _ (Keeps-required _ found) (λ row.
        Keeps-bind _ _ (Keeps-gets _) (λ assigned. Keeps-bind _ _ (Keeps-require _ _) (λ _.
          Keeps-bind _ _ (Keeps-modify _ (λ s i. erase_row id s i)) (λ _. Keeps-log_action _))))))

  pub Keeps-update_farm_configuration :
      (cs : ChannelInput) (b : Bool) (r : Request)
      → Keeps IsConsistent (update_farm_configuration p cs b r)
  unfolding update_farm_configuration
  Keeps-update_farm_configuration cs b r = Keeps-atomic _ (
      Keeps-check (normalize_channels cs true) _ (λ ns e.
        let n = (normalize_channels-IsNormalized cs true ns e).0 in
        Keeps-bind _ _ (Keeps-gets _) (λ stored.
          Keeps-bind _ _ (Keeps-modify _ (λ s i. write_defaults _ s n i))
            (λ _. search (table_rules, Keeps-touch_accounts) depth 14))))

  pub Keeps-create_launch_snapshot :
      (id : ℕ) (worker : Text) (reset : Bool)
      → Keeps IsConsistent (create_launch_snapshot p id worker reset)
  unfolding create_launch_snapshot
  Keeps-create_launch_snapshot id worker reset = Keeps-atomic _ (
      Keeps-bind _ _ (Keeps-get_account id) (λ account.
        Keeps-bind _ _ (Keeps-resolve_channels p id account none) (λ resolution.
          Keeps-bind _ _ (Keeps-gets _) (λ found.
            Keeps-bind _ _ (Keeps-required _ found) (λ credential.
              Keeps-bind _ _ (Keeps-gets _) (λ key. Keeps-bind _ _ (Keeps-clean_run _) (λ _.
                Keeps-bind _ _
                  (Keeps-modify _ (λ s i. IsConsistent-frame s _ refl refl refl refl refl i))
                  (λ _. search table_rules))))))))
