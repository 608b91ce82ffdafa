-- ===== src/Supervisor/Children/Quiet.antt =====
-- The steps, the children and the recoveries of controller/miner_supervisor.py that leave the entries
-- of the children alone.
use twitch_car_factory.Base.{
  ℕ, not, Option, none, some, ◌==◌, nat_eq, ◌≡◌, ◌∙◌, Member-filter_by, Option-cases, inl, inr,
  arith,
}
use twitch_car_factory.Base.Dict.{Dict, lookup, insert, lookup-insert, NodupKeys, insert-NodupKeys}
use twitch_car_factory.Base.Exec.{modify}
use twitch_car_factory.Control.Model.{InstanceState}
use twitch_car_factory.Control.Resolve.{Service}
use twitch_car_factory.Supervisor.State.{
  Farm, ManagedProcess, Setup, found, get_account, get_or_create_state, get_state, let_others,
  managed_of, put_managed, read, renewed, run_service, service, update_managed, update_state, write,
}
use twitch_car_factory.Supervisor.Process.{reap}
use twitch_car_factory.Supervisor.Children.{
  Calmer, Below, slot, process_of, IsQuiet, quiet_rules, IsQuiet-bind, IsQuiet-sense, IsQuiet-raise,
  IsQuiet-on_option, IsQuiet-transaction,
}

module _ {W : Type 0} (u : Setup W) where
  pub let_others-IsQuiet : IsQuiet (let_others u)
  unfolding let_others
  let_others-IsQuiet = record { quiet = λ s. record { keep = λ t b. ground arith } }

  pub read-IsQuiet : {A : Type 0} (f : Farm → A) → IsQuiet (read u f)
  unfolding read
  read-IsQuiet f = search (quiet_rules, let_others-IsQuiet)

  modify_farm-IsQuiet :
      (f : Farm → Farm) → IsQuiet {W = W} (modify (λ s. record s { farm = f s.farm }))
  unfolding modify
  modify_farm-IsQuiet f = record { quiet = λ s. record { keep = λ t b. b } }

  pub write-IsQuiet : (f : Farm → Farm) → IsQuiet (write u f)
  unfolding write
  write-IsQuiet f = IsQuiet-bind _ _ let_others-IsQuiet (λ _.
      IsQuiet-bind _ _ (IsQuiet-sense _)
        (λ fault. IsQuiet-on_option fault _ _ (modify_farm-IsQuiet f) (λ e. IsQuiet-raise _)))

  run_service-IsQuiet : {A : Type 0} (m : Service A) → IsQuiet (run_service u m)
  unfolding run_service
  run_service-IsQuiet m = record { quiet = λ s. record { keep = λ t b. ground arith } }

  pub service-IsQuiet : {A : Type 0} (m : Service A) → IsQuiet (service u m)
  unfolding service
  service-IsQuiet m = IsQuiet-bind _ _ let_others-IsQuiet (λ _.
      IsQuiet-bind _ _ (IsQuiet-sense _)
        (λ fault. IsQuiet-on_option fault _ _ (run_service-IsQuiet m) (λ e. IsQuiet-raise _)))

  pub found-IsQuiet : {A : Type 0} (o : Option A) → IsQuiet (found u o)
  unfolding found
  found-IsQuiet none = search quiet_rules
  found-IsQuiet (some a) = search quiet_rules

  pub get_state-IsQuiet : (id : ℕ) → IsQuiet (get_state u id)
  unfolding get_state
  get_state-IsQuiet id = search (quiet_rules, read-IsQuiet, found-IsQuiet)

  pub get_account-IsQuiet : (id : ℕ) → IsQuiet (get_account u id)
  unfolding get_account
  get_account-IsQuiet id = search (quiet_rules, read-IsQuiet, found-IsQuiet)

  pub update_state-IsQuiet :
      (id : ℕ) (f : InstanceState → InstanceState) → IsQuiet (update_state u id f)
  unfolding update_state
  update_state-IsQuiet id f = write-IsQuiet _

  pub get_or_create_state-IsQuiet : (id : ℕ) → IsQuiet (get_or_create_state u id)
  unfolding get_or_create_state
  get_or_create_state-IsQuiet id = search (quiet_rules, read-IsQuiet, write-IsQuiet) depth 12

  pub managed_of-IsQuiet : (id : ℕ) → IsQuiet (managed_of u id)
  unfolding managed_of
  managed_of-IsQuiet id = search quiet_rules

-- The entry that is written anew holds the process that it held.
slot-renewed :
    (k id : ℕ) (n : ManagedProcess) (f : ManagedProcess → ManagedProcess)
    (d : Dict ℕ ManagedProcess)
    → lookup k d ≡ some n
    → slot id (insert k (renewed n f) d) ≡ slot id d
slot-renewed k id n f d e = ground (arith, lookup-insert k id (renewed n f) d, nat_eq.agrees k id)

slot-put_managed :
    (m : ManagedProcess) (f : ManagedProcess → ManagedProcess) (d : Dict ℕ ManagedProcess) (id : ℕ)
    → slot id (put_managed m f d) ≡ slot id d
unfolding put_managed
slot-put_managed m f d id = elim (Option-cases (lookup m.account_id d)) [
  | inl e ↦ ground (arith, e)
  | inr (n, e) ↦ ground (arith, e, slot-renewed m.account_id id n f d e)
]

put_managed-NodupKeys :
    (m : ManagedProcess) (f : ManagedProcess → ManagedProcess) (d : Dict ℕ ManagedProcess)
    → NodupKeys d
    → NodupKeys (put_managed m f d)
unfolding put_managed
put_managed-NodupKeys m f d u = elim (Option-cases (lookup m.account_id d)) [
  | inl e ↦ ground (arith, e)
  | inr (n, e) ↦ ground (arith, e, insert-NodupKeys m.account_id (renewed n f) d u)
]

module _ {W : Type 0} (u : Setup W) where
  pub update_managed-IsQuiet :
      (m : ManagedProcess) (f : ManagedProcess → ManagedProcess) → IsQuiet (update_managed u m f)
  unfolding update_managed modify
  update_managed-IsQuiet m f = record {
    quiet = λ s. record {
      keep = λ t b. record {
        slots = λ id. slot-put_managed m f t.processes id ∙ b.slots id;
        fewer = b.fewer;
        nodup = λ n. put_managed-NodupKeys m f t.processes (b.nodup n);
      };
    };
  }

  pub reap-IsQuiet : (h : ℕ) → IsQuiet (reap u h)
  unfolding reap modify
  reap-IsQuiet h = record {
    quiet = λ s. record {
      keep = λ t b. record {
        slots = b.slots;
        fewer = λ l m. b.fewer l ((Member-filter_by (λ k. not (k == h)) l t.live).0 m).0;
        nodup = b.nodup;
      };
    };
  }

pub ruleset step_rules = (
  quiet_rules, read-IsQuiet, write-IsQuiet, service-IsQuiet, found-IsQuiet, get_state-IsQuiet,
  get_account-IsQuiet, update_state-IsQuiet, get_or_create_state-IsQuiet, managed_of-IsQuiet,
  update_managed-IsQuiet, reap-IsQuiet,
)
