-- ===== src/Accounts.antt =====
-- api/auth_routes.py and api/security.py: sign-up, sign-in, sign-out and the keys of an account, on the
-- tables and the sessions of the order service. Hashing and encryption are libraries and come as
-- parameters, and so do random salts and tokens and what the exchange answers for an account.
pub mod Passwords
pub mod Bearer
pub mod Keys
pub mod Restart
pub mod Signup
pub mod Access
mod Tests
use crypto_trading_system.Accounts.Passwords.{Digest, hash_password, verify_password}
use crypto_trading_system.Base.{
  Bool, Option, false, if◌then◌else◌, is_empty, leb, length, none, not, some, true, ℕ, ◌&&◌, ◌||◌,
}
use crypto_trading_system.Base.Dict.{Dict, get_or}
use crypto_trading_system.Base.Text.{Text, strip}
use crypto_trading_system.Database.{Credentials, Stored, Tables, User, after, done, refused_by}
use crypto_trading_system.Database.Users.{
  create_session, create_user, delete_session, delete_user, get_session_user, get_user_by_username,
  get_user_credentials, mark_credentials_verified, set_user_credentials,
}
use crypto_trading_system.Exchange.Result.{Result, err, ok, order_error}
use crypto_trading_system.Models.Common.{Timestamp}
use crypto_trading_system.Models.Strategy.{Position}
use crypto_trading_system.Orders.Sessions.{SessionBook, connect_user, deactivate_user_session}
use crypto_trading_system.Positions.{PositionKey}

-- An answer of the API, or the status of an `HTTPException`; 500 is any other exception.
pub data Reply {ℓ} (A : Type ℓ) : Type ℓ where
  reply : A → Reply A
  http_error : ℕ → Reply A

-- What becomes of the verification of a new account: the exchange answers, or raises a
-- `BinanceOrderError`; the request raises another exception, such as a body that is no JSON; or the
-- exchange lets the keys trade, and the write of the keys or of their verification raises.
pub data Course : Type 0 where
  answered : Result Bool → Course
  unreadable : Course
  unsaved : Course
  unmarked : Course

-- The tables, the sessions in memory and the positions.
pub record Site : Type 0 where
  pub db : Tables
  pub book : SessionBook
  pub held_positions : Dict PositionKey Position

-- The libraries: SHA-256 of a token, Fernet, and those of the passwords.
pub record Crypto : Type 0 where
  pub hash_token : Text → Text
  pub encrypt_secret : Text → Text
  -- `none` is the `ValueError` of a text that the key does not open.
  pub decrypt_secret : Text → Option Text
  pub digest : Digest

pub record SignupRequest : Type 0 where
  pub username : Text
  pub display_name : Option Text
  pub password : Text
  pub api_key : Text
  pub api_secret : Text

abbrev pub is_blank : Text → Bool
is_blank s = is_empty (strip s)

abbrev pub within : ℕ → ℕ → Text → Bool
within low high s = leb low (length s) && leb (length s) high

abbrev pub optional_within : ℕ → ℕ → Option Text → Bool
optional_within low high none = true
optional_within low high (some s) = within low high s

-- The field constraints of `SignupRequest`.
unfoldable pub signup_accepts : SignupRequest → Bool
signup_accepts r =
    within 1 32 r.username
    && (optional_within 1 64 r.display_name
        && (within 6 128 r.password && (not (is_empty r.api_key) && not (is_empty r.api_secret))))

-- `verified` and `can_trade` of what `connect_user_credentials` reports.
unfoldable pub is_tradable : Result Bool → Bool
is_tradable (ok can_trade) = can_trade
is_tradable (err e) = false

unfoldable pub user_reply : Option (ℕ × User) → Reply (ℕ × User)
user_reply none = http_error 401
user_reply (some found) = reply found

unfoldable pub both : Option Text → Option Text → Option (Text × Text)
both none b = none
both (some a) none = none
both (some a) (some b) = some (a, b)

module _ (c : Crypto) (now : Timestamp) where
  -- `_persist_credentials`, of an account that exists.
  unfoldable pub persist : ℕ → Text → Text → Tables → Tables
  persist user_id api_key api_secret db =
      after db
        (set_user_credentials db user_id (c.encrypt_secret api_key) (c.encrypt_secret api_secret))

  -- `_activate`; `answer` is what the exchange says of the account with these keys.
  unfoldable pub activate : Bool → ℕ → Text → Text → Result Bool → Site → Site
  activate keep user_id api_key api_secret answer site =
      let connected = record site { book = connect_user user_id answer site.book } in
      if is_tradable answer
      then record connected {
        db =
            mark_credentials_verified now
              (if keep then persist user_id api_key api_secret site.db else site.db) user_id;
      }
      else connected

  unfoldable pub session_reply : Text → ℕ → Site → Stored Tables → Site × Reply (Text × ℕ)
  session_reply token user_id site (done db) = (record site { db = db }, reply (token, user_id))
  session_reply token user_id site (refused_by e) = (site, http_error 500)

  -- `create_session` for the answer; the token goes to the client.
  unfoldable pub open_session : Text → ℕ → Site → Site × Reply (Text × ℕ)
  open_session token user_id site =
      session_reply token user_id site (create_session now site.db (c.hash_token token) user_id)

  -- The end of `signup`: an account that cannot trade is deleted again.
  unfoldable pub finish_signup : Text → ℕ → Result Bool → Site → Site × Reply (Text × ℕ)
  finish_signup token user_id answer site =
      if is_tradable answer then open_session token user_id site else (
        record site {
          book = deactivate_user_session now user_id site.held_positions site.book;
          db = delete_user site.db user_id;
        },
        http_error 403,
      )

  unfoldable pub signup_created :
      Text → Text → Text → Course → Site → Tables × Stored ℕ → Site × Reply (Text × ℕ)
  signup_created token api_key api_secret course site (db, refused_by e) =
      (record site { db = db }, http_error 409)
  signup_created token api_key api_secret (answered answer) site (db, done user_id) =
      finish_signup token user_id answer
        (activate true user_id api_key api_secret answer (record site { db = db }))
  signup_created token api_key api_secret unreadable site (db, done user_id) = (
    record site { db = db; book = connect_user user_id (err (order_error 500 false)) site.book },
    http_error 500,
  )
  signup_created token api_key api_secret unsaved site (db, done user_id) =
      (record site { db = db; book = connect_user user_id (ok true) site.book }, http_error 500)
  signup_created token api_key api_secret unmarked site (db, done user_id) = (
    record site {
      db = persist user_id api_key api_secret db;
      book = connect_user user_id (ok true) site.book;
    },
    http_error 500,
  )

  unfoldable pub signup : Text → Text → SignupRequest → Course → Site → Site × Reply (Text × ℕ)
  signup salt token r course site =
      let username = strip r.username in
      if not (signup_accepts r)
        || (is_blank r.username || (is_blank r.api_key || is_blank r.api_secret))
      then (site, http_error 422)
      else signup_created token (strip r.api_key) (strip r.api_secret) course site (
          create_user now site.db username (strip (get_or r.display_name username))
            (hash_password c.digest r.password salt))

  -- Both keys, if the master key opens them.
  unfoldable pub decrypted : Credentials → Option (Text × Text)
  decrypted stored =
      both (c.decrypt_secret stored.api_key_enc) (c.decrypt_secret stored.api_secret_enc)

  unfoldable pub login_with :
      Text → ℕ → Result Bool → Site → Option (Text × Text) → Site × Reply (Text × ℕ)
  login_with token user_id answer site none = (site, http_error 500)
  login_with token user_id answer site (some keys) =
      if is_blank keys.0 || is_blank keys.1
      then (site, http_error 500)
      else open_session token user_id (activate false user_id keys.0 keys.1 answer site)

  unfoldable pub login_stored :
      Text → ℕ → Result Bool → Site → Option Credentials → Site × Reply (Text × ℕ)
  login_stored token user_id answer site none = (site, http_error 409)
  login_stored token user_id answer site (some stored) =
      login_with token user_id answer site (decrypted stored)

  unfoldable pub login_user :
      Text → Text → Result Bool → Site → Option (ℕ × User) → Site × Reply (Text × ℕ)
  login_user password token answer site none = (site, http_error 401)
  login_user password token answer site (some (user_id, user)) =
      if verify_password c.digest password user.password_hash
      then login_stored token user_id answer site (get_user_credentials site.db user_id)
      else (site, http_error 401)

  -- The field constraints of `LoginRequest` are those of the two texts.
  unfoldable pub login : Text → Text → Text → Result Bool → Site → Site × Reply (Text × ℕ)
  login username password token answer site =
      if within 1 32 username && within 1 128 password
      then login_user password token answer site (get_user_by_username site.db (strip username))
      else (site, http_error 422)

  -- `require_user`: the account of a token.
  unfoldable pub require_user : Text → Site → Reply (ℕ × User)
  require_user token site = user_reply (get_session_user now site.db (c.hash_token token))

  unfoldable pub sign_out : Text → Site → Reply (ℕ × User) → Site × Reply (Unit {0})
  sign_out token site (http_error status) = (site, http_error status)
  sign_out token site (reply (user_id, user)) = (
    record site {
      db = delete_session site.db (c.hash_token token);
      book = deactivate_user_session now user_id site.held_positions site.book;
    },
    reply tt,
  )

  unfoldable pub logout : Text → Site → Site × Reply (Unit {0})
  logout token site = sign_out token site (require_user token site)
