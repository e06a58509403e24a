-- ===== src/Database/Strategies.antt =====
-- services/db_handler.py: the tables `user_strategy_settings` and `user_strategy_symbols`.
use crypto_trading_system.Base.{
  Bool, List, Option, [], false, if◌then◌else◌, list_eq, nat_eq, none, option_eq, some, true, ℕ,
  ◌&&◌, ◌==◌, ◌∷◌,
}
use crypto_trading_system.Base.Dict.{Dict, get_or, insert, lookup}
use crypto_trading_system.Base.Text.{Text}
use crypto_trading_system.Database.{Stored, SymbolSetting, Tables, for_user}
use crypto_trading_system.Database.Instants.{text_before}
use crypto_trading_system.Models.Common.{Timestamp}
use crypto_trading_system.Orders.Sessions.{user_symbol_eq}

unfoldable pub get_user_strategy_enabled : Tables → ℕ → Bool
get_user_strategy_enabled db user_id = get_or (lookup user_id db.strategy_settings) true

unfoldable pub set_user_strategy_enabled : Tables → ℕ → Bool → Stored Tables
set_user_strategy_enabled db user_id enabled =
    for_user db user_id
      (record db { strategy_settings = insert user_id enabled db.strategy_settings })

unfoldable pub symbols_of : ℕ → Dict (ℕ × Text) SymbolSetting → Dict Text SymbolSetting
symbols_of user_id [] = []
symbols_of user_id (((owner, symbol), setting) ∷ d) =
    if owner == user_id then (symbol, setting) ∷ symbols_of user_id d else symbols_of user_id d

unfoldable pub get_user_strategy_symbols : Tables → ℕ → Dict Text SymbolSetting
get_user_strategy_symbols db user_id = symbols_of user_id db.strategy_symbols

unfoldable pub set_user_strategy_symbol :
    Tables → ℕ → Text → Bool → Option Timestamp → Stored Tables
set_user_strategy_symbol db user_id symbol enabled expires_at = for_user db user_id (record db {
  strategy_symbols =
      insert (user_id, symbol) (record { enabled = enabled; expires_at = expires_at })
        db.strategy_symbols;
})

-- `expires_at > ?`: false of a missing time.
unfoldable pub is_after : Timestamp → Option Timestamp → Bool
is_after now none = false
is_after now (some expires_at) = text_before now expires_at

unfoldable pub automated : Timestamp → Dict (ℕ × Text) SymbolSetting → List (ℕ × Text)
automated now [] = []
automated now ((key, setting) ∷ d) =
    if setting.enabled && is_after now setting.expires_at
    then key ∷ automated now d
    else automated now d

unfoldable pub get_automated_users : Timestamp → Tables → List (ℕ × Text)
get_automated_users now db = automated now db.strategy_symbols
