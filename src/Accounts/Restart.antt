-- ===== src/Accounts/Restart.antt =====
-- services/order_service.py: what a new process restores of the accounts. `answers` is what the exchange
-- says of an account, `decrypt` the database's `decrypt_secret`; the clock is read once.
pub mod Loaded
pub mod Rows
pub mod Windows
pub mod Watching
pub mod Kept
pub mod Resumed
mod Tests
use crypto_trading_system.Accounts.{both, is_blank}
use crypto_trading_system.Base.{
  Bool, List, Option, [], if◌then◌else◌, leb, list_eq, nat_eq, none, option_eq, some, ℕ, ◌||◌, ◌∷◌,
}
use crypto_trading_system.Base.Dict.{Dict, insert, lookup}
use crypto_trading_system.Base.Text.{Text}
use crypto_trading_system.Database.{Credentials, SymbolSetting, Tables}
use crypto_trading_system.Database.Strategies.{get_automated_users, get_user_strategy_symbols}
use crypto_trading_system.Database.Users.{get_user_credentials}
use crypto_trading_system.Exchange.Result.{Result}
use crypto_trading_system.Models.Common.{Timestamp, is_open}
use crypto_trading_system.Models.Strategy.{Position}
use crypto_trading_system.Orders.Sessions.{
  SessionBook, connect_user, has_active_session, user_symbol_eq,
}
use crypto_trading_system.Positions.{PositionKey}

-- The accounts that hold an open position, each as often as it holds one.
unfoldable pub open_owners : Dict PositionKey Position → List ℕ
open_owners [] = []
open_owners (((none, symbol, variant), p) ∷ d) = open_owners d
open_owners (((some user, symbol, variant), p) ∷ d) =
    if is_open p.status then user ∷ open_owners d else open_owners d

-- `item["symbol"] == symbol` and its `expires_at`.
unfoldable pub expiry_of : Option SymbolSetting → Option Timestamp
expiry_of none = none
expiry_of (some setting) = setting.expires_at

module _ (decrypt : Text → Option Text) (answers : ℕ → Result Bool) (db : Tables) where
  -- Blank keys raise in `connect_user_credentials`, which is logged.
  unfoldable pub connect_keys : ℕ → SessionBook → Option (Text × Text) → SessionBook
  connect_keys user s none = s
  connect_keys user s (some keys) =
      if is_blank keys.0 || is_blank keys.1 then s else connect_user user (answers user) s

  unfoldable pub connect_stored : ℕ → SessionBook → Option Credentials → SessionBook
  connect_stored user s none = s
  connect_stored user s (some stored) =
      connect_keys user s (both (decrypt stored.api_key_enc) (decrypt stored.api_secret_enc))

  unfoldable pub reconnect_user : ℕ → SessionBook → SessionBook
  reconnect_user user s =
      if has_active_session user s then s else connect_stored user s (get_user_credentials db user)

  unfoldable pub automate : Timestamp → ℕ × Text → SessionBook → Option Timestamp → SessionBook
  automate now key s none = s
  automate now key s (some expires_at) =
      if leb expires_at now
      then s
      else reconnect_user key.0
          (record s { strategy_symbols = insert key expires_at s.strategy_symbols })

  unfoldable pub automate_each : Timestamp → List (ℕ × Text) → SessionBook → SessionBook
  automate_each now [] s = s
  automate_each now (key ∷ keys) s =
      automate_each now keys
        (automate now key s (expiry_of (lookup key.1 (get_user_strategy_symbols db key.0))))

  unfoldable pub reconnect_each : List ℕ → SessionBook → SessionBook
  reconnect_each [] s = s
  reconnect_each (user ∷ users) s = reconnect_each users (reconnect_user user s)

  -- `_restore_open_position_users`
  unfoldable pub restore_open_position_users : Dict PositionKey Position → SessionBook → SessionBook
  restore_open_position_users positions s = reconnect_each (open_owners positions) s

  unfoldable pub restore_automated_users :
      Timestamp → Dict PositionKey Position → SessionBook → SessionBook
  restore_automated_users now positions s =
      restore_open_position_users positions (automate_each now (get_automated_users now db) s)
