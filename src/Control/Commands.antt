-- ===== src/Control/Commands.antt =====
-- enqueue_command, enqueue_all and record_action of controller/services.py.
use twitch_car_factory.Base.{
  ℕ, suc, String, Bool, not, ◌&&◌, ◌||◌, Option, none, some, List, [], ◌∷◌, ◌++◌, ◌==◌, nat_eq, ltb,
  map, filter_by, take, is_some, if◌then◌else◌,
}
use twitch_car_factory.Base.Dict.{lookup, insert}
use twitch_car_factory.Base.Exec.{pure, raise, gets, modify, atomic, on_option, ◌>>=◌, ◌>>◌}
use twitch_car_factory.Control.Text.{Text, text, text_leb}
use twitch_car_factory.Control.Channels.{unknown_action, archived, no_credentials}
use twitch_car_factory.Control.Model.{
  Account, InstanceState, new_state, DesiredState, stopped, running, CommandAction, start, stop,
  restart, authenticate, same_action, action_label, as_action, queued, cancelled, is_queued,
  is_leased, Command, Detail, number, words, ActionLog, saved,
}
use twitch_car_factory.Control.Resolve.{
  invalid, Service, Platform, get_account, require, resolve_channels,
}

-- Who asks, and when.
pub record Request : Type 0 where
  pub actor : Option ℕ
  pub now : ℕ

-- `MinerInstanceState.objects.get_or_create(account=account)`
unfoldable pub get_or_create_state : ℕ → Service InstanceState
get_or_create_state id = do
  found ← gets (λ db. lookup id db.states)
  on_option found
      (do
        modify λ db. record db { states = insert id (saved new_state) db.states }
        pure (saved new_state))
      pure

-- `state.save()`
unfoldable pub save_state : ℕ → InstanceState → Service (Unit {0})
save_state id s = modify λ db. record db { states = insert id (saved s) db.states }

unfoldable pub log_action : ActionLog → Service (Unit {0})
log_action entry = modify λ db. record db { action_logs = db.action_logs ++ (entry ∷ []) }

-- record_action
unfoldable pub record_action :
    Text → Option ℕ → Option ℕ → Text → List (String × Detail) → Service (Unit {0})
record_action action actor account message details = log_action (record {
  actor = actor;
  account = account;
  action = action;
  message = take 255 message;
  details = details;
})

-- The statuses QUEUED and LEASED.
abbrev pub is_active : Command → Bool
is_active c = is_queued c.status || is_leased c.status

-- The querysets `active` and `pending` of an account, at the actions that `which` takes.
abbrev pub active_of : ℕ → (CommandAction → Bool) → List Command → List Command
active_of id which = filter_by λ c. c.account_id == id && is_active c && which c.action

abbrev pub is_pending : ℕ → (CommandAction → Bool) → Command → Bool
is_pending id which c = c.account_id == id && is_queued c.status && which c.action

abbrev pub earlier : Command → Command → Bool
earlier c d =
    ltb c.created_at d.created_at || (c.created_at == d.created_at && ltb c.command_id d.command_id)

-- `order_by("created_at", "id").first()`
unfoldable pub earliest : List Command → Option Command
earliest [] = none
earliest (c ∷ cs) = elim (earliest cs) [
  | none ↦ some c
  | some d ↦ some (if earlier d c then d else c)
]

unfoldable pub cancel_command : ℕ → Text → Command → Command
cancel_command now error c = record c { status = cancelled; completed_at = some now; error = error }

-- `pending.filter(...).update(status=CANCELLED, ...)`
unfoldable pub cancel_pending : ℕ → (CommandAction → Bool) → ℕ → Text → Service (Unit {0})
cancel_pending id which now error = modify λ db. record db {
  commands = map (λ c. if is_pending id which c then cancel_command now error c else c) db.commands;
}

-- `MinerCommand.objects.create(...)`
unfoldable pub create_command : ℕ → CommandAction → Request → Text → Service Command
create_command id action request reason = do
  key ← gets (λ db. db.next_command)
  let command : Command = record {
    command_id = key;
    account_id = id;
    action = action;
    status = queued;
    actor = request.actor;
    reason = take 255 reason;
    lease_owner = [];
    lease_expires_at = none;
    attempts = 0;
    error = [];
    created_at = request.now;
    leased_at = none;
    completed_at = none;
  }
  modify λ db. record db { commands = db.commands ++ (command ∷ []); next_command = suc key }
  pure command

-- `active.filter(action=action).order_by("created_at", "id").first()`, or a new command.
unfoldable pub find_or_create : ℕ → CommandAction → Request → Text → Service Command
find_or_create id action request reason = do
  found ← gets (λ db. earliest (active_of id (same_action action) db.commands))
  on_option found (create_command id action request reason) pure

-- The end of enqueue_command, with its entry in the log.
unfoldable pub coalesce_command : ℕ → Text → CommandAction → Request → Text → Service Command
coalesce_command id key action request reason = do
  command ← find_or_create id action request reason
  log_action (record {
    actor = request.actor;
    account = some id;
    action = text "miner_" ++ action_label action;
    message = text "Requested " ++ action_label action ++ text " for " ++ key ++ text ".";
    details = ("command_id", number command.command_id) ∷ ("reason", words (take 255 reason)) ∷ [];
  })
  pure command

abbrev pub desired_by : CommandAction → DesiredState
desired_by stop = stopped
desired_by start = running
desired_by restart = running
desired_by authenticate = running

-- The pending commands that a command takes the place of, once no stronger one is active.
unfoldable pub supersede : ℕ → CommandAction → Request → Service (Unit {0})
supersede id stop request =
    cancel_pending id (λ a. not (same_action a stop)) request.now
      (text "Superseded by a stop command.")
supersede id authenticate request =
    cancel_pending id (λ a. not (same_action a authenticate)) request.now
      (text "Superseded by a Twitch authentication command.")
supersede id start request =
    cancel_pending id (same_action stop) request.now (text "Superseded by a start command.")
supersede id restart request = do
  cancel_pending id (same_action stop) request.now (text "Superseded by a restart command.")
  cancel_pending id (same_action start) request.now (text "Superseded by a restart command.")

-- The active AUTHENTICATE command that a START or a RESTART leaves in charge.
unfoldable pub stronger_than : ℕ → CommandAction → List Command → Option Command
stronger_than id stop cs = none
stronger_than id authenticate cs = none
stronger_than id start cs = earliest (active_of id (same_action authenticate) cs)
stronger_than id restart cs = earliest (active_of id (same_action authenticate) cs)

module _ (p : Platform) where
  -- What an action other than STOP needs.
  unfoldable pub require_launchable : ℕ → Account → Service (Unit {0})
  require_launchable id account = do
    require account.is_active archived
    credential ← gets (λ db. lookup id db.credentials)
    require (is_some credential) no_credentials
    resolve_channels p id account none
    pure tt

  unfoldable pub enqueue_action : ℕ → CommandAction → Request → Text → Service Command
  enqueue_action id action request reason = do
    account ← get_account id
    if same_action action stop then pure tt else require_launchable id account
    state ← get_or_create_state id
    save_state id (record state { desired_state = desired_by action })
    stronger ← gets (λ db. stronger_than id action db.commands)
    on_option stronger
        (do
          supersede id action request
          coalesce_command id account.config_key action request reason)
        pure

  unfoldable pub enqueue_command : ℕ → Text → Request → Text → Service Command
  enqueue_command id action request reason = atomic (
      on_option (as_action action) (raise (invalid unknown_action))
        λ a. enqueue_action id a request reason)

  abbrev place : ℕ × Account → List (ℕ × Account) → List (ℕ × Account)
  place a [] = a ∷ []
  place a (b ∷ bs) = if text_leb a.1.config_key b.1.config_key then a ∷ b ∷ bs else b ∷ place a bs

  -- `.order_by("config_key")`
  unfoldable pub by_key : List (ℕ × Account) → List (ℕ × Account)
  by_key [] = []
  by_key (a ∷ as') = place a (by_key as')

  unfoldable pub enqueue_each : List (ℕ × Account) → Text → Request → Text → Service (List Command)
  enqueue_each [] action request reason = pure []
  enqueue_each ((id, _) ∷ rest) action request reason = do
    command ← enqueue_command id action request reason
    commands ← enqueue_each rest action request reason
    pure (command ∷ commands)

  unfoldable pub enqueue_all : Text → Request → Text → Service (List Command)
  enqueue_all action request reason = atomic (do
    found ← gets (λ db.
        by_key (filter_by (λ a. a.1.is_active && is_some (lookup a.0 db.credentials)) db.accounts))
    enqueue_each found action request reason)
