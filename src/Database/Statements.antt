-- ===== src/Database/Statements.antt =====
-- services/db_handler.py: every statement that writes, as data, and any sequence of them.
use crypto_trading_system.Base.{Bool, List, Option, [], arith, ℕ, ◌∷◌}
use crypto_trading_system.Base.Text.{Text}
use crypto_trading_system.Database.{MatchRow, OrderRecord, Tables, after}
use crypto_trading_system.Database.Cascade.{delete_user-MeetsSchema}
use crypto_trading_system.Database.Holdings.{
  record_position_history, save_position, save_user_position,
}
use crypto_trading_system.Database.Keeps.{
  create_session-MeetsSchema, delete_expired_sessions-MeetsSchema, delete_session-MeetsSchema,
  delete_user_sessions-MeetsSchema, log_user_order-MeetsSchema,
  mark_credentials_verified-MeetsSchema, record_order_match_row-MeetsSchema,
  save_user_position-MeetsSchema, set_user_credentials-MeetsSchema,
  set_user_strategy_enabled-MeetsSchema, set_user_strategy_symbol-MeetsSchema,
}
use crypto_trading_system.Database.Log.{log_user_order, save_order}
use crypto_trading_system.Database.Reports.{
  delete_risk_reservation, record_order_match_row, save_risk_reservation,
}
use crypto_trading_system.Database.Schema.{MeetsSchema, create_user-MeetsSchema}
use crypto_trading_system.Database.Strategies.{set_user_strategy_enabled, set_user_strategy_symbol}
use crypto_trading_system.Database.Users.{
  create_session, create_user, delete_expired_sessions, delete_session, delete_user,
  delete_user_sessions, mark_credentials_verified, set_user_credentials,
}
use crypto_trading_system.Decimal.{Decimal}
use crypto_trading_system.Models.Common.{Timestamp}
use crypto_trading_system.Models.Strategy.{Position}
use crypto_trading_system.Risk.{RiskReservation}

-- The statements that write.
pub data Statement : Type 0 where
  insert_user : (username display_name password_hash : Text) → Statement
  drop_user drop_user_sessions mark_verified : ℕ → Statement
  write_credentials : ℕ → Text → Text → Statement
  insert_session : Text → ℕ → Statement
  drop_session : Text → Statement
  drop_expired : Statement
  write_enabled : ℕ → Bool → Statement
  write_symbol : ℕ → Text → Bool → Option Timestamp → Statement
  write_user_position : ℕ → Position → Statement
  write_position : Position → Statement
  append_history : ℕ → Position → Text → Statement
  write_log : ℕ → OrderRecord → Text → Statement
  write_order : OrderRecord → Statement
  append_match : ℕ → MatchRow → Statement
  write_reservation : RiskReservation → Text → Statement
  drop_reservation : Text → Statement

module _ (iso : Timestamp → Text) (ratio : Decimal → Decimal → Decimal) where
  pub execute : Timestamp → Statement → Tables → Tables
  execute now (insert_user name shown hash) db = (create_user now db name shown hash).0
  execute now (drop_user id) db = delete_user db id
  execute now (drop_user_sessions id) db = delete_user_sessions db id
  execute now (mark_verified id) db = mark_credentials_verified now db id
  execute now (write_credentials id k s) db = after db (set_user_credentials db id k s)
  execute now (insert_session token id) db = after db (create_session now db token id)
  execute now (drop_session token) db = delete_session db token
  execute now drop_expired db = delete_expired_sessions now db
  execute now (write_enabled id b) db = after db (set_user_strategy_enabled db id b)
  execute now (write_symbol id symbol b t) db = after db (set_user_strategy_symbol db id symbol b t)
  execute now (write_user_position id p) db = after db (save_user_position db id p)
  execute now (write_position p) db = save_position db p
  execute now (append_history id p reason) db = record_position_history db id p reason
  execute now (write_log id r source) db = after db (log_user_order ratio iso now db id r source)
  execute now (write_order r) db = save_order iso db r
  execute now (append_match id row) db = after db (record_order_match_row db id row)
  execute now (write_reservation r status) db = save_risk_reservation db r status
  execute now (drop_reservation id) db = delete_risk_reservation db id

  pub execute_each : List (Timestamp × Statement) → Tables → Tables
  execute_each [] db = db
  execute_each ((now, s) ∷ rest) db = execute_each rest (execute now s db)

  execute-MeetsSchema :
      (now : Timestamp) (s : Statement) (db : Tables)
      → MeetsSchema db
      → MeetsSchema (execute now s db)
  unfolding execute save_position record_position_history save_order save_risk_reservation
      delete_risk_reservation
  execute-MeetsSchema now (insert_user name shown hash) db h =
      create_user-MeetsSchema now db name shown hash h
  execute-MeetsSchema now (drop_user id) db h = delete_user-MeetsSchema db id h
  execute-MeetsSchema now (drop_user_sessions id) db h = delete_user_sessions-MeetsSchema db id h
  execute-MeetsSchema now (mark_verified id) db h =
      mark_credentials_verified-MeetsSchema now db id h
  execute-MeetsSchema now (write_credentials id k s) db h =
      set_user_credentials-MeetsSchema db id k s h
  execute-MeetsSchema now (insert_session token id) db h =
      create_session-MeetsSchema now db token id h
  execute-MeetsSchema now (drop_session token) db h = delete_session-MeetsSchema db token h
  execute-MeetsSchema now drop_expired db h = delete_expired_sessions-MeetsSchema now db h
  execute-MeetsSchema now (write_enabled id b) db h =
      set_user_strategy_enabled-MeetsSchema db id b h
  execute-MeetsSchema now (write_symbol id symbol b t) db h =
      set_user_strategy_symbol-MeetsSchema db id symbol b t h
  execute-MeetsSchema now (write_user_position id p) db h = save_user_position-MeetsSchema db id p h
  execute-MeetsSchema now (write_position p) db h = ground arith
  execute-MeetsSchema now (append_history id p reason) db h = ground arith
  execute-MeetsSchema now (write_log id r source) db h =
      log_user_order-MeetsSchema iso ratio now db id r source h
  execute-MeetsSchema now (write_order r) db h = ground arith
  execute-MeetsSchema now (append_match id row) db h =
      record_order_match_row-MeetsSchema db id row h
  execute-MeetsSchema now (write_reservation r status) db h = ground arith
  execute-MeetsSchema now (drop_reservation id) db h = ground arith

-- Whatever statements run, at whatever times and whichever of them are refused, every row that
-- references an account has one, every id is fresh, and names, ids and tokens are unique.
pub execute_each-MeetsSchema :
    (iso : Timestamp → Text) (ratio : Decimal → Decimal → Decimal)
    (statements : List (Timestamp × Statement)) (db : Tables)
    → MeetsSchema db
    → MeetsSchema (execute_each iso ratio statements db)
unfolding execute_each
execute_each-MeetsSchema iso ratio [] db h = h
execute_each-MeetsSchema iso ratio ((now, s) ∷ rest) db h =
    execute_each-MeetsSchema iso ratio rest (execute iso ratio now s db)
      (execute-MeetsSchema iso ratio now s db h)
