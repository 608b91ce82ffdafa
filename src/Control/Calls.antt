-- ===== src/Control/Calls.antt =====
-- Sequences of calls of controller/services.py.
use twitch_car_factory.Base.{ℕ, Bool, Option, none, List, [], ◌∷◌}
use twitch_car_factory.Base.Result.{Result, ok, err}
use twitch_car_factory.Control.Text.{Text}
use twitch_car_factory.Control.Channels.{ChannelInput}
use twitch_car_factory.Control.Model.{Database}
use twitch_car_factory.Control.Resolve.{ServiceError, Service, Platform}
use twitch_car_factory.Control.Commands.{Request, enqueue_command, enqueue_all}
use twitch_car_factory.Control.Selections.{PresetRef, set_account_channel_selection}
use twitch_car_factory.Control.Accounts.{
  AccountForm, create_account, update_account, request_tv_authentication,
}
use twitch_car_factory.Control.Presets.{save_preset, delete_preset, update_farm_configuration}
use twitch_car_factory.Control.Launch.{create_launch_snapshot}
use twitch_car_factory.Control.Consistent.{IsConsistent}
use twitch_car_factory.Control.KeepsQueue.{Keeps-enqueue_command, Keeps-enqueue_all}
use twitch_car_factory.Control.KeepsTables.{Keeps-set_account_channel_selection}
use twitch_car_factory.Control.KeepsPresets.{
  Keeps-save_preset, Keeps-delete_preset, Keeps-update_farm_configuration,
  Keeps-create_launch_snapshot,
}
use twitch_car_factory.Control.KeepsAccounts.{
  Keeps-create_account, Keeps-update_account, Keeps-request_tv_authentication,
}

-- A transaction with its arguments.
pub data Call : Type 0 where
  creating : AccountForm → Request → Call
  updating : ℕ → Text → Option Text → Request → Call
  connecting : ℕ → Request → Call
  configuring : ChannelInput → Bool → Request → Call
  enqueuing : ℕ → Text → Request → Text → Call
  enqueuing_all : Text → Request → Text → Call
  selecting_channels : ℕ → Text → Option ChannelInput → Option PresetRef → Request → Bool → Call
  saving_preset : Text → ChannelInput → Option ℕ → Request → Call
  deleting_preset : ℕ → Request → Call
  launching : ℕ → Text → Bool → Call

abbrev failure : {A : Type 0} → Result ServiceError A → Option ServiceError
failure (ok _) = none
failure (err e) = Option.some e

abbrev outcome : {A : Type 0} → Service A → Database → Option ServiceError × Database
outcome m db = let (r, after) = m db in (failure r, after)

module _ (p : Platform) where
  -- The exception of a call, if it raises one, and the database after it.
  unfoldable pub perform : Call → Database → Option ServiceError × Database
  perform (creating form r) = outcome (create_account p form r)
  perform (updating id username password r) = outcome (update_account p id username password r)
  perform (connecting id r) = outcome (request_tv_authentication p id r)
  perform (configuring cs b r) = outcome (update_farm_configuration p cs b r)
  perform (enqueuing id action r reason) = outcome (enqueue_command p id action r reason)
  perform (enqueuing_all action r reason) = outcome (enqueue_all p action r reason)
  perform (selecting_channels id mode cs ref r b) =
      outcome (set_account_channel_selection p id mode cs ref r b)
  perform (saving_preset name cs given r) = outcome (save_preset p name cs given r)
  perform (deleting_preset id r) = outcome (delete_preset p id r)
  perform (launching id worker reset) = outcome (create_launch_snapshot p id worker reset)

  unfoldable pub perform_all : List Call → Database → Database
  perform_all [] db = db
  perform_all (c ∷ cs) db = perform_all cs (perform c db).1

  perform-IsConsistent :
      (c : Call) (db : Database) → IsConsistent db → IsConsistent (perform c db).1
  unfolding perform
  perform-IsConsistent (creating form r) db i = (Keeps-create_account p form r).keep db i
  perform-IsConsistent (updating id u w r) db i = (Keeps-update_account p id u w r).keep db i
  perform-IsConsistent (connecting id r) db i = (Keeps-request_tv_authentication p id r).keep db i
  perform-IsConsistent (configuring cs b r) db i =
      (Keeps-update_farm_configuration p cs b r).keep db i
  perform-IsConsistent (enqueuing id a r t) db i = (Keeps-enqueue_command p id a r t).keep db i
  perform-IsConsistent (enqueuing_all a r t) db i = (Keeps-enqueue_all p a r t).keep db i
  perform-IsConsistent (selecting_channels id m cs ref r b) db i =
      (Keeps-set_account_channel_selection p id m cs ref r b).keep db i
  perform-IsConsistent (saving_preset n cs g r) db i = (Keeps-save_preset p n cs g r).keep db i
  perform-IsConsistent (deleting_preset id r) db i = (Keeps-delete_preset p id r).keep db i
  perform-IsConsistent (launching id w b) db i = (Keeps-create_launch_snapshot p id w b).keep db i

  -- Any sequence of calls, failed ones included, leaves a consistent database consistent: an account
  -- has at most one active command of each action, a selection has a preset just when its mode is
  -- PRESET, and the channels stored for presets, accounts and the farm are valid and distinct.
  pub perform_all-IsConsistent :
      (cs : List Call) (db : Database) → IsConsistent db → IsConsistent (perform_all cs db)
  unfolding perform_all
  perform_all-IsConsistent [] db i = i
  perform_all-IsConsistent (c ∷ cs) db i =
      perform_all-IsConsistent cs (perform c db).1 (perform-IsConsistent c db i)
