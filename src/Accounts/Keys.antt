-- ===== src/Accounts/Keys.antt =====
-- api/auth_routes.py: `verify_binance`, `update_credentials` and `_session_status`, of an account that
-- `require_user` has found.
use crypto_trading_system.Accounts.{
  Crypto, Reply, Site, activate, decrypted, http_error, is_blank, is_tradable, persist, reply,
  within,
}
use crypto_trading_system.Accounts.Passwords.{verify_password}
use crypto_trading_system.Base.{
  Bool, Option, false, if◌then◌else◌, is_empty, none, not, some, ℕ, ◌&&◌, ◌||◌,
}
use crypto_trading_system.Base.Text.{Text, strip}
use crypto_trading_system.Database.{Credentials, User}
use crypto_trading_system.Database.Users.{get_user_credentials, mark_credentials_verified}
use crypto_trading_system.Exchange.Result.{Result}
use crypto_trading_system.Models.Common.{Timestamp}
use crypto_trading_system.Orders.Sessions.{connect_user, has_active_session}

module _ (c : Crypto) (now : Timestamp) where
  unfoldable pub check_again :
      ℕ → Result Bool → Site → Option (Text × Text) → Site × Reply (Unit {0})
  check_again user_id answer site none = (site, http_error 500)
  check_again user_id answer site (some keys) =
      if is_blank keys.0 || is_blank keys.1 then (site, http_error 500) else (
        activate c now false user_id keys.0 keys.1 answer site,
        if is_tradable answer then reply tt else http_error 403,
      )

  unfoldable pub verify_stored :
      ℕ → Result Bool → Site → Option Credentials → Site × Reply (Unit {0})
  verify_stored user_id answer site none = (site, http_error 409)
  verify_stored user_id answer site (some stored) =
      check_again user_id answer site (decrypted c now stored)

  unfoldable pub verify_binance : ℕ → Result Bool → Site → Site × Reply (Unit {0})
  verify_binance user_id answer site =
      verify_stored user_id answer site (get_user_credentials site.db user_id)

  -- The old keys again, with what the exchange answers for them.
  unfoldable pub reconnect : ℕ → Result Bool → Site → Option (Text × Text) → Site × Reply (Unit {0})
  reconnect user_id answer site none = (site, http_error 500)
  reconnect user_id answer site (some keys) =
      if is_blank keys.0 || is_blank keys.1
      then (site, http_error 500)
      else (record site { book = connect_user user_id answer site.book }, http_error 422)

  unfoldable pub keep_old : ℕ → Result Bool → Site → Option Credentials → Site × Reply (Unit {0})
  keep_old user_id answer site none = (site, http_error 422)
  keep_old user_id answer site (some stored) =
      reconnect user_id answer site (decrypted c now stored)

  unfoldable pub replace_keys :
      ℕ → Text → Text → Result Bool → Result Bool → Site → Site × Reply (Unit {0})
  replace_keys user_id api_key api_secret answer old_answer site =
      let connected = record site { book = connect_user user_id answer site.book } in
      if is_tradable answer
      then (
        record connected {
          db =
              mark_credentials_verified now (persist c now user_id api_key api_secret site.db)
                user_id;
        },
        reply tt,
      )
      else keep_old user_id old_answer connected (get_user_credentials site.db user_id)

  unfoldable pub update_credentials :
      ℕ × User → Text → Text → Text → Result Bool → Result Bool → Site → Site × Reply (Unit {0})
  update_credentials (user_id, user) password api_key api_secret answer old_answer site =
      if not (within 1 128 password && (not (is_empty api_key) && not (is_empty api_secret)))
      then (site, http_error 422)
      else if not (verify_password c.digest password user.password_hash)
      then (site, http_error 403)
      else if is_blank api_key || is_blank api_secret
      then (site, http_error 422)
      else replace_keys user_id (strip api_key) (strip api_secret) answer old_answer site

  -- `_session_status`: keys that are not in memory are activated first.
  unfoldable pub restore_keys : ℕ → Result Bool → Site → Option (Text × Text) → Site
  restore_keys user_id answer site none = site
  restore_keys user_id answer site (some keys) =
      if is_blank keys.0 || is_blank keys.1
      then site
      else activate c now false user_id keys.0 keys.1 answer site

  unfoldable pub restore_stored : ℕ → Result Bool → Site → Option Credentials → Site
  restore_stored user_id answer site none = site
  restore_stored user_id answer site (some stored) =
      restore_keys user_id answer site (decrypted c now stored)

  unfoldable pub session_status : ℕ → Result Bool → Site → Site
  session_status user_id answer site =
      if has_active_session user_id site.book
      then site
      else restore_stored user_id answer site (get_user_credentials site.db user_id)
