-- ===== src/Supervisor/Children/Spawning.antt =====
-- _spawn_snapshot and _spawn_snapshot_if_desired_running of controller/miner_supervisor.py keep each
-- child that lives held, where the account has none.
use twitch_car_factory.Base.{
  ℕ, Bool, true, Option, none, some, ◌∷◌, nat_eq, ◌≡◌, inl, inr, Member, arith,
}
use mathlib.Core.Path.{subst}
use twitch_car_factory.Base.Dict.{insert, lookup-insert, insert-NodupKeys}
use twitch_car_factory.Base.Result.{Result, ok, err}
use twitch_car_factory.Base.Yields.{
  Yields, Yields-atomic, Ensures-Yields, yields_rules, OnOk, Yields-then, Yields-on_option,
  Yields-raise,
}
use twitch_car_factory.Base.Safe.{
  Safe, AtEnd, Safe-bind, Safe-weaken, Keeps-Safe, Safe-pure, Safe-if, Safe-ensured, at_any_end,
}
use twitch_car_factory.Control.Text.{Text}
use twitch_car_factory.Control.Model.{Database, Run}
use twitch_car_factory.Control.Resolve.{Service, Platform, ServiceError}
use twitch_car_factory.Control.Launch.{create_launch_snapshot}
use twitch_car_factory.Supervisor.State.{
  Act, served, ManagedProcess, Setup, SupervisorError, Worker, committed, run_service, service,
  transaction,
}
use twitch_car_factory.Supervisor.Spawn.{
  register, spawn_snapshot, spawn_snapshot_if_desired_running,
}
use twitch_car_factory.Supervisor.Start.{snapshot}
use twitch_car_factory.Supervisor.Children.{
  slot, Owned, Free, Keeps-quiet, Detached, Stable, Stable-both, Stable-Owned, Stable-Free,
}
use twitch_car_factory.Supervisor.Children.Launches.{
  launch_rules, cancel_launch-IsQuiet, publish-IsQuiet, launch_failed-IsQuiet, snapshot-IsQuiet,
  start_child-IsQuiet,
}
use twitch_car_factory.Supervisor.Children.Guard.{Guard-Owned}
use twitch_car_factory.Supervisor.Children.Stopping.{Safe-quiet, quiet_then, rescue-Safe}
use twitch_car_factory.Supervisor.Children.Cleaning.{abandon-Safe, disown-Safe}

snapshot_account :
    (p : Platform) (id : ℕ) (worker : Text) (reset : Bool)
    → Yields (λ run. run.account_id ≡ id) (create_launch_snapshot p id worker reset)
unfolding create_launch_snapshot
snapshot_account p id worker reset = Yields-atomic _ (search yields_rules depth 24)

module _ {W : Type 0} where
  -- An account without a child that lives.
  abbrev pub Vacant : ℕ → Worker W → Type 0
  Vacant id s = Owned s × Free id s

  pub Stable-Vacant : (id : ℕ) → Stable (Vacant id)
  Stable-Vacant id = Stable-both Stable-Owned (Stable-Free id)

  owner_inserted :
      (id : ℕ) (m : ManagedProcess) (s : Worker W)
      → Vacant id s
      → (h : ℕ) → Member h (m.process ∷ s.live)
      → (k : ℕ) × (slot k (insert id m s.processes) ≡ some h)
  owner_inserted id m s v h (inl e) =
      (id, ground (arith, e, lookup-insert id id m s.processes, nat_eq.agrees id id))
  owner_inserted id m s v h (inr l) =
      let (k, e) = v.0.owner h l in
      (k, ground (arith, e, v.1 h l, lookup-insert id k m s.processes, nat_eq.agrees id k))

module _ {W : Type 0} (u : Setup W) where
  OnOk-served :
      {A : Type 0} (Q : A → Type 0) (r : Result ServiceError A) (db : Database) (s : Worker W)
      → OnOk Q r
      → OnOk Q (served u (r, db) s).0
  OnOk-served Q (ok a) db s q = q
  OnOk-served Q (err e) db s q = tt

  run_service-Yields :
      {A : Type 0} {Q : A → Type 0} (m : Service A) → Yields Q m → Yields Q (run_service u m)
  unfolding run_service
  run_service-Yields {Q = Q} m y = record {
    keep = λ s. let (r, db) = m s.farm.control in OnOk-served Q r db s (y.keep s.farm.control);
  }

  -- The run of a snapshot is of the account that it is taken for.
  snapshot-Yields :
      (id : ℕ) (reset : Bool) → Yields (λ run. run.account_id ≡ id) (snapshot u id reset)
  unfolding snapshot service
  snapshot-Yields id reset = Yields-then _ _ (λ _. Yields-then _ _ (λ fault.
      Yields-on_option fault _ _
        (run_service-Yields _ (snapshot_account u.platform id u.worker reset))
        (λ e. Yields-raise _)))

  pub snapshot-Safe :
      {P : Worker W → Type 0} (id : ℕ) (reset : Bool)
      → Stable P
      → Safe P (snapshot u id reset) (λ run s. P s × (run.account_id ≡ id)) P
  snapshot-Safe id reset st =
      Safe-ensured _ (Keeps-quiet st _ (snapshot-IsQuiet u id reset))
        (Ensures-Yields _ (snapshot-Yields id reset))

  register-Safe :
      (run : Run) (command attempt_id : Option ℕ) (at : ℕ)
      → Safe (Vacant run.account_id) (register u run command attempt_id at) (λ _. Owned) Owned
  unfolding register
  register-Safe run command attempt_id at = record {
    run = λ s v. record {
      owner = owner_inserted run.account_id _ s v;
      nodup = insert-NodupKeys run.account_id _ s.processes v.0.nodup;
    };
  }

  -- _spawn_snapshot, for an account without a child that lives.
  pub spawn_snapshot-Safe :
      (run : Run) (command attempt_id : Option ℕ)
      → Safe (Vacant run.account_id) (spawn_snapshot u run command attempt_id) (λ _. Owned) Owned
  unfolding spawn_snapshot
  spawn_snapshot-Safe run command attempt_id =
      Safe-bind (λ _. Vacant run.account_id) _ _
        (rescue-Safe u _ _
          (Safe-quiet _ (Stable-Vacant run.account_id) (λ s v. v.0) (start_child-IsQuiet u run))
          (λ e. Keeps-quiet Stable-Owned _ (launch_failed-IsQuiet u run _)))
        (λ _.
          quiet_then _ _ (Stable-Vacant run.account_id) (λ s v. v.0) (search launch_rules)
            (λ at.
              Safe-bind (λ _. Owned) _ _ (register-Safe run command attempt_id at)
                (λ m.
                  Safe-bind (λ _. Owned) _ _
                    (rescue-Safe u _ _
                      (Safe-quiet _ Stable-Owned (λ s o. o) (publish-IsQuiet u run m))
                      (λ e. Keeps-Safe _ (abandon-Safe u Guard-Owned m e)))
                    (λ _. Safe-pure m (λ s o. o)))))

  committed-Owned :
      {A : Type 0} (r : Result SupervisorError A) (fault : Option Text) (s t : Worker W)
      → Owned t
      → AtEnd {A = A} (λ _. Owned) Owned (committed r fault s t).0 (committed r fault s t).1
  committed-Owned (ok a) none s t o = o
  committed-Owned (ok a) (some e) s t o = o
  committed-Owned (err e) fault s t o = o

  pub transaction-Safe :
      {A : Type 0} {P : Worker W → Type 0} (m : Act W A)
      → Detached P
      → Safe P m (λ _. Owned) Owned
      → Safe P (transaction u m) (λ _. Owned) Owned
  unfolding transaction
  transaction-Safe m d h = record {
    run = λ s p.
        let start = record s { locked = true } in
        let (r, t) = m start in
        let (fault, w) = u.host.database_fault t.world in
        committed-Owned r fault s (record t { world = w })
          (at_any_end Owned r t (h.run start (d s _ _ _ p)));
  }

  -- _spawn_snapshot_if_desired_running, for an account without a child that lives.
  spawn_if_desired-Safe :
      (run : Run) (command : Option ℕ)
      → Safe
          (Vacant run.account_id)
          (spawn_snapshot_if_desired_running u run command)
          (λ _. Owned)
          Owned
  unfolding spawn_snapshot_if_desired_running
  spawn_if_desired-Safe run command =
      rescue-Safe u _ _
        (transaction-Safe _ (λ s f l w v. v)
          (quiet_then _ _ (Stable-Vacant run.account_id) (λ s v. v.0) (search launch_rules)
            (λ state. Safe-if _ _ _ (spawn_snapshot-Safe run command none) (
              Safe-weaken _ (λ s v. v.0) (λ a s o. o) (λ s o. o)
                (Safe-quiet _ Stable-Owned (λ s o. o) (cancel_launch-IsQuiet u run))))))
        (λ e. Keeps-Safe _ (disown-Safe u Guard-Owned run _ e))

  pub spawn_for-Safe :
      (id : ℕ) (run : Run) (command : Option ℕ)
      → run.account_id ≡ id
      → Safe (Vacant id) (spawn_snapshot_if_desired_running u run command) (λ _. Owned) Owned
  spawn_for-Safe id run command same =
      subst
        (λ k. Safe (Vacant k) (spawn_snapshot_if_desired_running u run command) (λ _. Owned) Owned)
        same (spawn_if_desired-Safe run command)
