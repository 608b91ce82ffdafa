-- ===== src/Control/Stopping.antt =====
-- A STOP in enqueue_command of controller/services.py.
use mathlib.Core.Path.{subst}
use twitch_car_factory.Base.{
  ℕ, Bool, true, false, not, List, [], ◌∷◌, ◌++◌, map, Member, inl, inr, nat_eq, some, ◌≡◌, refl,
  ap, ◌∙◌, arith, if◌then◌else◌,
}
use twitch_car_factory.Base.Dict.{Dict, lookup}
use twitch_car_factory.Base.Result.{Result, ok}
use twitch_car_factory.Base.Exec.{
  pure, gets, modify, atomic, rolled_back, on_option, ◌>>=◌, ◌>>◌, >>=-ok,
}
use twitch_car_factory.Base.Ensures.{AtReturn, Ensures, Ensures-bind, Ensures-any, Ensures-gets}
use twitch_car_factory.Base.Total.{Total, total_rules}
use twitch_car_factory.Control.Text.{Text, text}
use twitch_car_factory.Control.Model.{
  InstanceState, Account, stop, stopped, as_action, Command, Database, is_queued, same_action,
}
use twitch_car_factory.Control.Resolve.{ServiceError, Platform}
use twitch_car_factory.Control.Commands.{
  Request, get_or_create_state, save_state, log_action, create_command, find_or_create,
  coalesce_command, cancel_pending, cancel_command, is_pending, supersede, stronger_than,
  enqueue_action, enqueue_command,
}
use twitch_car_factory.Control.Consistent.{same_action-eq}
use twitch_car_factory.Control.Coalescing.{Asks, coalesce_command-Asks}
use twitch_car_factory.Control.Starting.{get_account-some}
use twitch_car_factory.Control.Serving.{Desires, save_state-Desires}

Total-coalesce_command :
    (id : ℕ) (key : Text) (r : Request) (reason : Text)
    → Total (coalesce_command id key stop r reason)
unfolding coalesce_command find_or_create create_command log_action
Total-coalesce_command id key r reason = search total_rules depth 14

Total-supersede : (id : ℕ) (r : Request) → Total (supersede id stop r)
unfolding supersede cancel_pending
Total-supersede id r = search total_rules

Total-get_or_create_state : (id : ℕ) → Total (get_or_create_state id)
unfolding get_or_create_state
Total-get_or_create_state id = search total_rules

-- Of the account's commands that wait, each one is a STOP.
abbrev pub OnlyStops : ℕ → List Command → Type 0
OnlyStops id cs =
    (d : Command) → Member d cs → d.account_id ≡ id → is_queued d.status ≡ true → d.action ≡ stop

add-OnlyStops :
    (id : ℕ) (cs : List Command) (c : Command)
    → c.action ≡ stop
    → OnlyStops id cs
    → OnlyStops id (cs ++ (c ∷ []))
add-OnlyStops id [] c q h d m = elim m [
  | inl e ↦ λ _ _. subst (λ x. x.action ≡ stop) e q
  | inr n ↦ elim n [ ]
]
add-OnlyStops id (b ∷ cs) c q h d m = elim m [
  | inl e ↦ h d (inl e)
  | inr n ↦ add-OnlyStops id cs c q (λ x k. h x (inr k)) d n
]

-- A command of the account that waits and is no STOP is cancelled.
cancelled-waits :
    (id now : ℕ) (error : Text) (c : Command)
    → (b : Bool) → is_pending id (λ a. not (same_action a stop)) c ≡ b
    → (let d = if b then cancel_command now error c else c in
        d.account_id ≡ id → is_queued d.status ≡ true → d.action ≡ stop)
unfolding cancel_command
cancelled-waits id now error c true h i q = absurd (cc)
cancelled-waits id now error c false h i q =
    same_action-eq c.action stop (ground (arith, h, q, nat_eq.agrees c.account_id id, i))

cancel-OnlyStops :
    (id now : ℕ) (error : Text) (cs : List Command)
    → OnlyStops id (
        map
          (λ c.
            if is_pending id (λ a. not (same_action a stop)) c
            then cancel_command now error c
            else c)
          cs)
cancel-OnlyStops id now error [] d m = elim m [ ]
cancel-OnlyStops id now error (c ∷ cs) d m = elim m [
  | inl e ↦
      subst (λ (x : Command). x.account_id ≡ id → is_queued x.status ≡ true → x.action ≡ stop) e
        (cancelled-waits id now error c (is_pending id (λ a. not (same_action a stop)) c) refl)
  | inr n ↦ cancel-OnlyStops id now error cs d n
]

-- The account is to stop, and nothing else of it waits.
abbrev Halts : ℕ → Dict ℕ InstanceState → List Command → Type 0
Halts id ts cs =
    ((t : InstanceState) × (lookup id ts ≡ some t) × (t.desired_state ≡ stopped)) × OnlyStops id cs

supersede-Halts :
    (id : ℕ) (r : Request)
    → Ensures
        (λ db. Desires id stopped db)
        (supersede id stop r)
        (λ _ db. Halts id db.states db.commands)
unfolding supersede cancel_pending modify
supersede-Halts id r = record { run = λ db h. (h, cancel-OnlyStops id r.now _ db.commands) }

-- The end of enqueue_action.
ending-Halts :
    (id : ℕ) (key : Text) (r : Request) (reason : Text) (db : Database)
    → Desires id stopped db
    → (let out =
          on_option
            (stronger_than id stop db.commands)
            (do supersede id stop r; coalesce_command id key stop r reason)
            pure
            db in
        AtReturn
          (λ c after. Halts id after.states after.commands × Asks id stop c after.commands)
          out.0
          out.1)
unfolding on_option stronger_than
ending-Halts id key r reason db h =
    (Ensures-bind (λ _ after. Halts id after.states after.commands) _ _ (supersede-Halts id r)
        (λ _.
          coalesce_command-Asks id stop (Halts id)
            (λ ts cs c e k. (k.0, add-OnlyStops id cs c e k.1)) key r reason)).run
      db h

-- What a STOP leaves behind.
abbrev pub IsStopping : ℕ → Command → Database → Type 0
IsStopping id c after =
    Desires id stopped after × Asks id stop c after.commands × OnlyStops id after.commands

module _ (p : Platform) where
  stop-Total :
      (id : ℕ) (r : Request) (reason : Text) (db : Database) (a : Account)
      → lookup id db.accounts ≡ some a
      → (c : Command) × (after : Database) × (enqueue_action p id stop r reason db ≡ (ok c, after))
  unfolding enqueue_action stronger_than save_state on_option
  stop-Total id r reason db a h =
      let rest : Total (do
        pure tt
        state ← get_or_create_state id
        save_state id (record state { desired_state = stopped })
        stronger ← gets (λ s. stronger_than id stop s.commands)
        on_option stronger (do supersede id stop r; coalesce_command id a.config_key stop r reason)
            pure) =
        search (total_rules, Total-get_or_create_state, Total-supersede, Total-coalesce_command)
          depth 14 in
      let (c, after, e) = rest.returns db in
      (c, after, >>=-ok _ _ db a db (get_account-some id db a h) ∙ e)

  enqueue_action-Halts :
      (id : ℕ) (r : Request) (reason : Text)
      → Ensures
          (λ _. Unit)
          (enqueue_action p id stop r reason)
          (λ c after. Halts id after.states after.commands × Asks id stop c after.commands)
  unfolding enqueue_action
  enqueue_action-Halts id r reason =
      Ensures-bind (λ _ _. Unit) _ _ (Ensures-any _)
        (λ account.
          Ensures-bind (λ _ _. Unit) _ _ (Ensures-any _)
            (λ _.
              Ensures-bind (λ _ _. Unit) _ _ (Ensures-any _)
                (λ state.
                  Ensures-bind (λ _ db. Desires id stopped db) _ _
                    (save_state-Desires id (record state { desired_state = stopped }))
                    (λ _.
                      Ensures-gets _ _
                        (λ db h. ending-Halts id account.config_key r reason db h)))))

  -- For every account that is stored, STOP returns a command, which is in the queue, active, the
  -- account's own, and a STOP; the account's desired state is STOPPED, and each command of the account
  -- that is QUEUED is a STOP.
  pub enqueue_command-stop :
      (id : ℕ) (r : Request) (reason : Text) (db : Database) (a : Account)
      → lookup id db.accounts ≡ some a
      → (c : Command) × (after : Database) × (enqueue_command p id (text "stop") r reason db
          ≡ (ok c, after))
        × IsStopping id c after
  unfolding enqueue_command atomic on_option as_action text
  enqueue_command-stop id r reason db a h =
      let (c, after, e) = stop-Total id r reason db a h in
      let e' : enqueue_command p id (text "stop") r reason db ≡ (ok c, after) =
        ap (λ (x : Result ServiceError Command × Database). rolled_back x.0 db x.1) e in
      let (halts, asks) =
        subst
          (λ (x : Result ServiceError Command × Database).
            AtReturn
              (λ c after. Halts id after.states after.commands × Asks id stop c after.commands) x.0
              x.1)
          e ((enqueue_action-Halts id r reason).run db tt) in
      (c, after, e', (halts.0, asks, halts.1))
