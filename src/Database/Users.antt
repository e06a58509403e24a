-- ===== src/Database/Users.antt =====
-- services/db_handler.py: the tables `users`, `user_credentials` and `sessions`. The hash of a token is
-- the caller's, since `hashlib` makes it, and so is the token itself.
use crypto_trading_system.Base.{
  Bool, Option, [], false, if◌then◌else◌, list_eq, nat_eq, none, option_eq, some, ℕ, ◌*◌, ◌+◌, ◌==◌,
  ◌||◌, ◌∷◌,
}
use crypto_trading_system.Base.Dict.{Dict, erase, insert, lookup}
use crypto_trading_system.Base.Text.{Text}
use crypto_trading_system.Database.{
  Credentials, Session, Stored, Tables, User, done, for_user, refused_by, username_taken,
}
use crypto_trading_system.Database.Instants.{text_before}
use crypto_trading_system.Models.Common.{Timestamp, second}

unfoldable pub is_named : Text → Dict ℕ User → Bool
is_named username [] = false
is_named username ((id, user) ∷ users) = user.username == username || is_named username users

-- The new id, and the `UNIQUE` constraint on the name.
unfoldable pub create_user : Timestamp → Tables → Text → Text → Text → Tables × Stored ℕ
create_user now db username display_name password_hash =
    if is_named username db.users then (db, refused_by username_taken) else (
      record db {
        users =
            insert db.next_user_id
              (record {
                username = username;
                display_name = display_name;
                password_hash = password_hash;
                created_at = now;
              })
              db.users;
        next_user_id = db.next_user_id + 1;
      },
      done db.next_user_id,
    )

unfoldable pub named_user : Text → Dict ℕ User → Option (ℕ × User)
named_user username [] = none
named_user username ((id, user) ∷ users) =
    if user.username == username then some (id, user) else named_user username users

unfoldable pub get_user_by_username : Tables → Text → Option (ℕ × User)
get_user_by_username db username = named_user username db.users

unfoldable pub with_id : ℕ → Option User → Option (ℕ × User)
with_id id none = none
with_id id (some user) = some (id, user)

unfoldable pub get_user_by_id : Tables → ℕ → Option (ℕ × User)
get_user_by_id db user_id = with_id user_id (lookup user_id db.users)

-- The rows of other accounts, for `ON DELETE CASCADE`.
module _ {ℓ κ} {K : Type ℓ} {V : Type κ} (owner : K → V → ℕ) where
  unfoldable pub without_user : ℕ → Dict K V → Dict K V
  without_user user_id [] = []
  without_user user_id ((k, v) ∷ d) =
      if owner k v == user_id then without_user user_id d else (k, v) ∷ without_user user_id d

-- `position_history` does not reference `users`.
unfoldable pub delete_user : Tables → ℕ → Tables
delete_user db user_id = record db {
  users = erase user_id db.users;
  credentials = erase user_id db.credentials;
  sessions = without_user (λ token s. s.user_id) user_id db.sessions;
  strategy_settings = erase user_id db.strategy_settings;
  strategy_symbols = without_user (λ key v. key.0) user_id db.strategy_symbols;
  user_positions = without_user (λ key v. key.0) user_id db.user_positions;
  order_log = without_user (λ key v. key.0) user_id db.order_log;
  order_matches = without_user (λ key v. key.0) user_id db.order_matches;
}

unfoldable pub set_user_credentials : Tables → ℕ → Text → Text → Stored Tables
set_user_credentials db user_id api_key_enc api_secret_enc = for_user db user_id (record db {
  credentials =
      insert user_id
        (record {
          api_key_enc = api_key_enc;
          api_secret_enc = api_secret_enc;
          last_verified_at = none;
        })
        db.credentials;
})

unfoldable pub get_user_credentials : Tables → ℕ → Option Credentials
get_user_credentials db user_id = lookup user_id db.credentials

unfoldable pub verified_row :
    Timestamp → ℕ → Option Credentials → Dict ℕ Credentials → Dict ℕ Credentials
verified_row now user_id none d = d
verified_row now user_id (some c) d = insert user_id (record c { last_verified_at = some now }) d

unfoldable pub mark_credentials_verified : Timestamp → Tables → ℕ → Tables
mark_credentials_verified now db user_id = record db {
  credentials = verified_row now user_id (lookup user_id db.credentials) db.credentials;
}

-- `_SESSION_TTL`: seven days.
abbrev pub session_ttl : ℕ
session_ttl = 604800 * second

-- The primary key is taken only if two tokens have one hash, which is not modelled.
unfoldable pub create_session : Timestamp → Tables → Text → ℕ → Stored Tables
create_session now db token_hash user_id = for_user db user_id (record db {
  sessions =
      insert token_hash
        (record { user_id = user_id; created_at = now; expires_at = now + session_ttl })
        db.sessions;
})

-- The join with `users`, for a session that has not expired.
unfoldable pub live_user : Timestamp → Tables → Option Session → Option (ℕ × User)
live_user now db none = none
live_user now db (some s) =
    if text_before s.expires_at now then none else with_id s.user_id (lookup s.user_id db.users)

unfoldable pub get_session_user : Timestamp → Tables → Text → Option (ℕ × User)
get_session_user now db token_hash = live_user now db (lookup token_hash db.sessions)

unfoldable pub delete_session : Tables → Text → Tables
delete_session db token_hash = record db { sessions = erase token_hash db.sessions }

unfoldable pub delete_user_sessions : Tables → ℕ → Tables
delete_user_sessions db user_id = record db {
  sessions = without_user (λ token s. s.user_id) user_id db.sessions;
}

unfoldable pub without_expired : Timestamp → Dict Text Session → Dict Text Session
without_expired now [] = []
without_expired now ((token, s) ∷ d) =
    if text_before s.expires_at now
    then without_expired now d
    else (token, s) ∷ without_expired now d

unfoldable pub delete_expired_sessions : Timestamp → Tables → Tables
delete_expired_sessions now db = record db { sessions = without_expired now db.sessions }
