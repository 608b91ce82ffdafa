-- ===== src/Control/KeepsAccounts.antt =====
-- The transactions on accounts of controller/services.py keep the database consistent.
use twitch_car_factory.Base.{ℕ, Option, none, refl}
use twitch_car_factory.Base.Exec.{
  Keeps, Keeps-modify, Keeps-bind, Keeps-atomic, Keeps-pure, Keeps-gets,
}
use twitch_car_factory.Control.Text.{Text}
use twitch_car_factory.Control.Model.{Account, AuthMethod, default}
use twitch_car_factory.Control.Resolve.{Platform}
use twitch_car_factory.Control.Commands.{Request}
use twitch_car_factory.Control.Accounts.{
  AccountForm, insert_account, start_created, create_account, replace_password, rename_account,
  update_account, request_tv_authentication,
}
use twitch_car_factory.Control.Consistent.{IsConsistent, IsConsistent-frame}
use twitch_car_factory.Control.KeepsQueue.{
  Keeps-checked, Keeps-required, Keeps-require, Keeps-get_account, Keeps-refresh,
  Keeps-resolve_channels, Keeps-enqueue_command, Keeps-put_account,
}
use twitch_car_factory.Control.KeepsTables.{
  table_rules, write_selection, Keeps-set_account_channel_selection,
}

module _ (p : Platform) where
  Keeps-insert_account :
      (key username : Text) (m : AuthMethod) (secret : Text) (r : Request)
      → Keeps IsConsistent (insert_account p key username m secret r)
  unfolding insert_account
  Keeps-insert_account key username m secret r = Keeps-bind _ _ (Keeps-gets _) (λ id.
      Keeps-bind _ _
        (Keeps-modify _ (λ s i.
          IsConsistent-frame _ _ refl refl refl refl refl
            (write_selection id (record { mode = default; preset_id = none }) s refl i)))
        (λ _. Keeps-pure _))

  Keeps-start_created :
      (id : ℕ) (m : AuthMethod) (r : Request) → Keeps IsConsistent (start_created p id m r)
  unfolding start_created
  Keeps-start_created id m r =
      search (table_rules, Keeps-resolve_channels, Keeps-enqueue_command) depth 12

  pub Keeps-create_account :
      (form : AccountForm) (r : Request) → Keeps IsConsistent (create_account p form r)
  unfolding create_account
  Keeps-create_account form r =
      search
        (
          table_rules, Keeps-insert_account, Keeps-start_created, Keeps-refresh,
          Keeps-set_account_channel_selection,
        )
        depth 30

  Keeps-replace_password :
      (id : ℕ) (password : Text) → Keeps IsConsistent (replace_password p id password)
  unfolding replace_password
  Keeps-replace_password id password = Keeps-bind _ _ (Keeps-gets _) (λ found.
      Keeps-bind _ _ (Keeps-required _ found) (λ credential.
        Keeps-bind _ _ (Keeps-require _ _) (λ _.
          Keeps-bind _ _ (Keeps-checked _)
            (λ secret. Keeps-modify _ (λ s i. IsConsistent-frame s _ refl refl refl refl refl i)))))

  Keeps-rename_account :
      (id : ℕ) (account : Account) (username : Text)
      → Keeps IsConsistent (rename_account p id account username)
  unfolding rename_account
  Keeps-rename_account id account username =
      Keeps-bind _ _ (Keeps-put_account id _)
        (λ _. Keeps-modify _ (λ s i. IsConsistent-frame s _ refl refl refl refl refl i))

  pub Keeps-update_account :
      (id : ℕ) (username : Text) (password : Option Text) (r : Request)
      → Keeps IsConsistent (update_account p id username password r)
  unfolding update_account
  Keeps-update_account id username password r =
      search
        (
          table_rules, Keeps-rename_account, Keeps-replace_password, Keeps-refresh,
          Keeps-enqueue_command,
        )
        depth 30

  pub Keeps-request_tv_authentication :
      (id : ℕ) (r : Request) → Keeps IsConsistent (request_tv_authentication p id r)
  unfolding request_tv_authentication
  Keeps-request_tv_authentication id r = Keeps-atomic _ (
      Keeps-bind _ _ (Keeps-get_account id) (λ account. Keeps-bind _ _ (Keeps-require _ _) (λ _.
        Keeps-bind _ _ (Keeps-modify _ (λ s i. IsConsistent-frame s _ refl refl refl refl refl i))
          (λ _. search (table_rules, Keeps-enqueue_command) depth 14))))
