-- ===== src/Supervisor/State.antt =====
-- The state of MinerSupervisor in controller/miner_supervisor.py, with the rows of MinerIncident,
-- RestartAttempt and WorkerLease of controller/models.py, and the steps that all of its methods
-- take: a read, a write that the database may refuse, a transaction, and a call of the host.
pub mod Rows
unfoldable pub use Rows.*
use twitch_car_factory.Base.{ℕ, Bool, true, Option, none, some, List, nat_eq, ◌==◌, if◌then◌else◌}
use twitch_car_factory.Base.Dict.{Dict, lookup, insert}
use twitch_car_factory.Base.Result.{Result, ok, err}
use twitch_car_factory.Base.Exec.{Exec, pure, raise, gets, modify, on_option, ◌>>=◌, ◌>>◌}
use twitch_car_factory.Json.{ℤ}
use twitch_car_factory.Control.Text.{Text}
use twitch_car_factory.Control.Model.{
  Account, InstanceState, new_state, StopReason, Database, saved,
}
use twitch_car_factory.Control.Resolve.{ServiceError, Service, Platform}
use twitch_car_factory.Control.Calls.{Call, perform_all}

module _ {W A : Type 0} where
  -- A call of the host.
  unfoldable pub sense : (W → A × W) → Act W A
  sense call s = let (a, w) = call s.world in (ok a, record s { world = w })

  abbrev pub committed :
      Result SupervisorError A
      → Option Text
      → Worker W
      → Worker W
      → Result SupervisorError A × Worker W
  committed (ok a) none s t = (ok a, record t { locked = s.locked })
  committed (ok a) (some e) s t =
      (err (database_error e), record t { farm = s.farm; locked = s.locked })
  committed (err e) fault s t = (err e, record t { farm = s.farm; locked = s.locked })

abbrev pub with_control : (Database → Database) → Farm → Farm
with_control f farm = record farm { control = f farm.control }

-- A child whose entry changes and whose process does not.
abbrev pub renewed : ManagedProcess → (ManagedProcess → ManagedProcess) → ManagedProcess
renewed m f = record (f m) { process = m.process; account_id = m.account_id }

-- The entry of an account, where it is of the process of `managed`.
unfoldable pub put_managed :
    ManagedProcess
    → (ManagedProcess → ManagedProcess)
    → Dict ℕ ManagedProcess
    → Dict ℕ ManagedProcess
put_managed managed f d = elim (lookup managed.account_id d) [
  | none ↦ d
  | some m ↦ if m.process == managed.process then insert managed.account_id (renewed m f) d else d
]

module _ {W : Type 0} (u : Setup W) where
  abbrev pub host : Host W
  host = u.host

  abbrev pub now : Act W ℕ
  now = sense host.now

  abbrev pub monotonic : Act W ℕ
  monotonic = sense host.monotonic

  -- Outside of a transaction other processes may write first.
  unfoldable pub let_others : Act W (Unit {0})
  let_others s =
      if s.locked
      then (ok tt, s)
      else (let (calls, w) = host.web s.world in
          (
            ok tt,
            record s { farm = with_control (perform_all u.platform calls) s.farm; world = w },
          ))

  -- A query.
  unfoldable pub read : {A : Type 0} → (Farm → A) → Act W A
  read f = let_others >> gets (λ s. f s.farm)

  abbrev pub fault_or : Option Text → Act W (Unit {0})
  fault_or none = pure tt
  fault_or (some e) = raise (database_error e)

  -- A write, which the database may refuse.
  unfoldable pub write : (Farm → Farm) → Act W (Unit {0})
  write f = do
    let_others
    fault ← sense host.database_fault
    on_option fault (modify λ s. record s { farm = f s.farm }) λ e. raise (database_error e)

  -- `with transaction.atomic()`: the database, not the supervisor's own attributes, is rolled back
  -- where the block raises or the commit fails.
  unfoldable pub transaction : {A : Type 0} → Act W A → Act W A
  transaction m s =
      let (r, t) = m (record s { locked = true }) in
      let (fault, w) = host.database_fault t.world in committed r fault s (record t { world = w })

  abbrev pub served :
      {A : Type 0}
      → Result ServiceError A × Database
      → Worker W
      → Result SupervisorError A × Worker W
  served (ok a, db) s = (ok a, record s { farm = record s.farm { control = db } })
  served (err e, db) s = (err (service_error e), record s { farm = record s.farm { control = db } })

  -- A call of controller/services.py.
  unfoldable pub run_service : {A : Type 0} → Service A → Act W A
  run_service m s = served (m s.farm.control) s

  unfoldable pub service : {A : Type 0} → Service A → Act W A
  service m = do
    let_others
    fault ← sense host.database_fault
    on_option fault (run_service m) λ e. raise (database_error e)

  -- A row that must be there.
  unfoldable pub found : {A : Type 0} → Option A → Act W A
  found none = raise not_found
  found (some a) = pure a

  unfoldable pub get_state : ℕ → Act W InstanceState
  get_state id = read (λ f. lookup id f.control.states) >>= found

  unfoldable pub get_account : ℕ → Act W Account
  get_account id = read (λ f. lookup id f.control.accounts) >>= found

  -- `state.save(update_fields=...)`: the named fields are written on the row that is stored.
  abbrev pub put_state : ℕ → (InstanceState → InstanceState) → Farm → Farm
  put_state id f = with_control λ db. elim (lookup id db.states) [
    | none ↦ db
    | some t ↦ record db { states = insert id (saved (f t)) db.states }
  ]

  unfoldable pub update_state : ℕ → (InstanceState → InstanceState) → Act W (Unit {0})
  update_state id f = write (put_state id f)

  -- `MinerInstanceState.objects.get_or_create(account=account)`
  unfoldable pub get_or_create_state : ℕ → Act W InstanceState
  get_or_create_state id = do
    row ← read (λ f. lookup id f.control.states)
    on_option row
        (do
          write (with_control λ db. record db { states = insert id (saved new_state) db.states })
          pure (saved new_state))
        pure

  -- `self.processes.get(account)`
  unfoldable pub managed_of : ℕ → Act W (Option ManagedProcess)
  managed_of id = gets (λ s. lookup id s.processes)

  -- A write to the child that `self.processes` holds for an account, where it is that very child.
  unfoldable pub update_managed :
      ManagedProcess → (ManagedProcess → ManagedProcess) → Act W (Unit {0})
  update_managed managed f = modify λ s. record s { processes = put_managed managed f s.processes }
