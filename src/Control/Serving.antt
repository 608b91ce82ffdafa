-- ===== src/Control/Serving.antt =====
-- What enqueue_command of controller/services.py gives back.
use mathlib.Core.Path.{subst}
use twitch_car_factory.Base.{
  ℕ, true, Option, none, some, List, nat_eq, Member, if_both, ◌≡◌, refl, ◌⊎◌, inl, inr, arith,
  eq_self,
}
use twitch_car_factory.Base.Dict.{lookup, lookup-insert}
use twitch_car_factory.Base.Result.{Result, ok}
use twitch_car_factory.Base.Exec.{pure, modify, on_option, ◌>>=◌, ◌>>◌}
use twitch_car_factory.Base.Ensures.{
  AtReturn, Ensures, Ensures-bind, Ensures-any, Ensures-gets, Ensures-on_option, Ensures-atomic,
  Ensures-raise, AtReturn-map,
}
use twitch_car_factory.Control.Text.{Text}
use twitch_car_factory.Control.Model.{
  InstanceState, DesiredState, CommandAction, start, stop, restart, authenticate, Command, Database,
  saved, as_action,
}
use twitch_car_factory.Control.Resolve.{ServiceError, Platform}
use twitch_car_factory.Control.Commands.{
  Request, is_active, save_state, desired_by, coalesce_command, supersede, stronger_than,
  cancel_pending, enqueue_action, enqueue_command,
}
use twitch_car_factory.Control.Coalescing.{Asks, earliest-active_of, coalesce_command-Asks}

-- The desired state that is stored for an account.
abbrev pub Desires : ℕ → DesiredState → Database → Type 0
Desires id d db = (t : InstanceState) × (lookup id db.states ≡ some t) × (t.desired_state ≡ d)

-- `c` is an active command of the account, of the action or of AUTHENTICATE.
abbrev pub Serves : ℕ → CommandAction → Command → List Command → Type 0
Serves id a c cs =
    Member c cs
    × (c.account_id ≡ id)
    × (is_active c ≡ true)
    × ((c.action ≡ a) ⊎ (c.action ≡ authenticate))

abbrev pub IsServed : ℕ → CommandAction → Command → Database → Type 0
IsServed id a c db = Desires id (desired_by a) db × Serves id a c db.commands

saved-desired : (t : InstanceState) → (saved t).desired_state ≡ t.desired_state
unfolding saved
saved-desired t = if_both (λ (u : InstanceState). u.desired_state ≡ t.desired_state) _ _ _ refl refl

pub save_state-Desires :
    (id : ℕ) (t : InstanceState)
    → Ensures (λ _. Unit) (save_state id t) (λ _ db. Desires id t.desired_state db)
unfolding save_state modify
save_state-Desires id t = record {
  run = λ db _. (
    saved t,
    ground (arith, lookup-insert id id (saved t) db.states, eq_self id),
    saved-desired t,
  );
}

-- Supersession leaves the states alone.
supersede-Desires :
    (id : ℕ) (a : CommandAction) (r : Request) (d : DesiredState)
    → Ensures (λ db. Desires id d db) (supersede id a r) (λ _ db. Desires id d db)
unfolding supersede cancel_pending modify ◌>>=◌
supersede-Desires id start r d = record { run = λ db h. h }
supersede-Desires id stop r d = record { run = λ db h. h }
supersede-Desires id restart r d = record { run = λ db h. h }
supersede-Desires id authenticate r d = record { run = λ db h. h }

coalesce_command-Serves :
    (id : ℕ) (key : Text) (a : CommandAction) (r : Request) (reason : Text) (d : DesiredState)
    → Ensures
        (λ db. Desires id d db)
        (coalesce_command id key a r reason)
        (λ c db. Desires id d db × Serves id a c db.commands)
coalesce_command-Serves id key a r reason d = record {
  run = λ db h.
      AtReturn-map (λ c after. Desires id d after × Asks id a c after.commands)
        (λ c after. Desires id d after × Serves id a c after.commands)
        (λ c after (k, (m, i, v, q)). (k, (m, i, v, inl q))) _ _
        ((coalesce_command-Asks id a
            (λ ts cs. (t : InstanceState) × (lookup id ts ≡ some t) × (t.desired_state ≡ d))
            (λ ts cs c e k. k) key r reason).run
          db h);
}

stronger_than-Serves :
    (id : ℕ) (a : CommandAction) (cs : List Command) (c : Command)
    → stronger_than id a cs ≡ some c
    → Serves id a c cs
unfolding stronger_than
stronger_than-Serves id start cs c h =
    let (m, i, v, q) = earliest-active_of id authenticate cs c h in (m, i, v, inr q)
stronger_than-Serves id restart cs c h =
    let (m, i, v, q) = earliest-active_of id authenticate cs c h in (m, i, v, inr q)
stronger_than-Serves id stop cs c h = absurd (cc)
stronger_than-Serves id authenticate cs c h = absurd (cc)

module _ (p : Platform) where
  -- The end of enqueue_action, on the stronger command that it found.
  ending-IsServed :
      (id : ℕ) (key : Text) (a : CommandAction) (r : Request) (reason : Text)
      (found : Option Command) (db : Database)
      → stronger_than id a db.commands ≡ found
      → Desires id (desired_by a) db
      → (let out =
            on_option found (do supersede id a r; coalesce_command id key a r reason) pure db in
          AtReturn (IsServed id a) out.0 out.1)
  unfolding on_option pure
  ending-IsServed id key a r reason (some c) db e h = (h, stronger_than-Serves id a db.commands c e)
  ending-IsServed id key a r reason none db e h =
      (Ensures-bind (λ _ after. Desires id (desired_by a) after) _ _
          (supersede-Desires id a r (desired_by a))
          (λ _. coalesce_command-Serves id key a r reason (desired_by a))).run
        db h

  enqueue_action-IsServed :
      (id : ℕ) (a : CommandAction) (r : Request) (reason : Text)
      → Ensures (λ _. Unit) (enqueue_action p id a r reason) (IsServed id a)
  unfolding enqueue_action
  enqueue_action-IsServed id a r reason =
      Ensures-bind (λ _ _. Unit) _ _ (Ensures-any _)
        (λ account.
          Ensures-bind (λ _ _. Unit) _ _ (Ensures-any _)
            (λ _.
              Ensures-bind (λ _ _. Unit) _ _ (Ensures-any _)
                (λ state.
                  Ensures-bind (λ _ db. Desires id (desired_by a) db) _ _
                    (save_state-Desires id (record state { desired_state = desired_by a }))
                    (λ _.
                      Ensures-gets _ _
                        (λ db h. ending-IsServed id account.config_key a r reason _ db refl h)))))

  -- Where enqueue_command returns a command, the desired state of the account is the one that the
  -- action asks for, and the command is in the queue, active, the account's own, and of that action or
  -- of AUTHENTICATE.
  pub enqueue_command-IsServed :
      (id : ℕ) (action : Text) (r : Request) (reason : Text) (db after : Database) (c : Command)
      → enqueue_command p id action r reason db ≡ (ok c, after)
      → (a : CommandAction) × (as_action action ≡ some a) × IsServed id a c after
  unfolding enqueue_command
  enqueue_command-IsServed id action r reason db after c h =
      let Q = λ (d : Command) (t : Database).
        (a : CommandAction) × (as_action action ≡ some a) × IsServed id a d t in
      let all : Ensures (λ _. Unit) (enqueue_command p id action r reason) Q = Ensures-atomic _ (
        Ensures-on_option (as_action action) _ _ (Ensures-raise _) (λ a e. record {
          run = λ s u.
              AtReturn-map (IsServed id a) Q (λ d t i. (a, e, i)) _ _
                ((enqueue_action-IsServed id a r reason).run s u);
        })) in
      subst (λ (x : Result ServiceError Command × Database). AtReturn Q x.0 x.1) h (all.run db tt)
