-- ===== src/Control/Starting.antt =====
-- The start of a new account in create_account of controller/services.py.
use twitch_car_factory.Base.{
  ℕ, Bool, true, false, some, List, [], nat_eq, is_some, ◌≡◌, refl, ap, ◌∙◌, or_else,
}
use twitch_car_factory.Base.Dict.{lookup}
use twitch_car_factory.Base.Result.{ok, err}
use twitch_car_factory.Base.Exec.{>>=-ok, >>=-err, pure, raise, gets, modify, ◌>>=◌}
use twitch_car_factory.Control.Text.{Text}
use twitch_car_factory.Control.Channels.{
  Problem, no_channels, archived, no_credentials, names, normalize_channels,
}
use twitch_car_factory.Base.Result.{fold_ok}
use twitch_car_factory.Control.Model.{Account, AuthMethod, FarmConfiguration, Database}
use twitch_car_factory.Control.Resolve.{
  invalid, no_account, Platform, get_account, required, require, check, load_configuration,
  source_in, resolve_channels,
}
use twitch_car_factory.Control.Commands.{Request}
use twitch_car_factory.Control.Accounts.{created_selection, start_created}

pub get_account-some :
    (id : ℕ) (db : Database) (a : Account)
    → lookup id db.accounts ≡ some a
    → get_account id db ≡ (ok a, db)
unfolding get_account required gets ◌>>=◌ pure
get_account-some id db a h = ap (λ o. required no_account o db) h

require-true : (b : Bool) (q : Problem) (db : Database) → b ≡ true → require b q db ≡ (ok tt, db)
unfolding require pure
require-true b q db h = ap (λ x. require x q db) h

load_configuration-some :
    (db : Database) (c : FarmConfiguration)
    → db.configuration ≡ some c
    → load_configuration db ≡ (ok c, record db { configuration = some c })
unfolding load_configuration ◌>>=◌ gets modify pure
load_configuration-some db c h =
    ap
      (λ o.
        let fresh : FarmConfiguration = record {
          default_channels = [];
          autostart_new_accounts = false;
        } in
        (ok (or_else o fresh), record db { configuration = some (or_else o fresh) }))
      h

check-empty :
    (cs : List Text) (db : Database)
    → cs ≡ []
    → check (normalize_channels (names cs) true) db ≡ (err (invalid no_channels), db)
unfolding check normalize_channels fold_ok raise
check-empty cs db h = ap (λ ns. check (normalize_channels (names ns) true) db) h

module _ (p : Platform) where
  -- An account whose object holds the selection that create_account made.
  resolve_channels-no_defaults :
      (id : ℕ) (db : Database) (a : Account) (c : FarmConfiguration)
      → a.is_active ≡ true
      → is_some (lookup id db.credentials) ≡ true
      → db.configuration ≡ some c
      → c.default_channels ≡ []
      → resolve_channels p id a (some created_selection) db
        ≡ (err (invalid no_channels), record db { configuration = some c })
  unfolding resolve_channels source_in gets
  resolve_channels-no_defaults id db a c active cred conf empty =
      >>=-ok _ _ db tt db (require-true a.is_active archived db active)
      ∙ >>=-ok _ _ db _ db refl
      ∙ >>=-ok _ _ db tt db (require-true _ no_credentials db cred)
      ∙ >>=-ok _ _ db _ db refl
      ∙ >>=-err _ _ db _ _ (
          >>=-ok _ _ db c _ (load_configuration-some db c conf)
          ∙ >>=-err _ _ _ _ _ (check-empty c.default_channels _ empty))

  -- Where the farm's default channels are empty, an active account with credentials is not started,
  -- whatever channels its own selection has: the exception is that of an empty list.
  pub start_created-no_defaults :
      (id : ℕ) (method : AuthMethod) (r : Request) (db : Database) (a : Account)
      (c : FarmConfiguration)
      → lookup id db.accounts ≡ some a
      → a.is_active ≡ true
      → is_some (lookup id db.credentials) ≡ true
      → db.configuration ≡ some c
      → c.default_channels ≡ []
      → (start_created p id method r db).0 ≡ err (invalid no_channels)
  unfolding start_created
  start_created-no_defaults id method r db a c found active cred conf empty =
      ap (λ x. x.0)
        (>>=-ok _ _ db a db (get_account-some id db a found)
          ∙ >>=-err _ _ db _ _ (resolve_channels-no_defaults id db a c active cred conf empty))
