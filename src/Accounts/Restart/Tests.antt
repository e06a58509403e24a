-- ===== src/Accounts/Restart/Tests.antt =====
-- A new process that finds a running window of one account and a position of another.
use crypto_trading_system.Accounts.Restart.{expiry_of, restore_automated_users}
use crypto_trading_system.Accounts.Restart.Loaded.{
  keep_position, load_both, load_owned, load_shared, restore_positions,
}
use crypto_trading_system.Accounts.Restart.Resumed.{CanConnect, Needs, restart-sessions, runs}
use crypto_trading_system.Accounts.Restart.Rows.{running}
use crypto_trading_system.Accounts.Restart.Watching.{its_key, restart-watches}
use crypto_trading_system.Accounts.Restart.Windows.{restart-windows}
use crypto_trading_system.Base.{
  [], arith, list_eq, nat_eq, none, option_eq, refl, some, true, ◌*◌, ◌+◌, ◌∷◌, ◌≡◌,
}
use crypto_trading_system.Base.Dict.{lookup, mem}
use crypto_trading_system.Base.Text.{Text, codes, is_space, lstrip, strip}
use crypto_trading_system.Database.{Credentials, Tables}
use crypto_trading_system.Database.Holdings.{
  load_positions, load_user_positions, read_after, read_positions,
}
use crypto_trading_system.Database.Users.{get_user_credentials}
use crypto_trading_system.Decimal.{decimal}
use crypto_trading_system.Exchange.Result.{ok}
use crypto_trading_system.Models.Common.{open_status, second, stop_loss_reason, variant_a}
use crypto_trading_system.Models.Market.{Tick}
use crypto_trading_system.Models.Strategy.{Position, position_accepts}
use crypto_trading_system.Orders.Sessions.{SessionBook, is_before, user_symbol_eq}
use crypto_trading_system.Positions.{
  process_tick, PositionBook, PositionKey, exit_reason, mark_price, position_key_eq,
}
use crypto_trading_system.Positions.Watch.{keys_of}

abbrev credentials_of : Text → Credentials
credentials_of name = record { api_key_enc = name; api_secret_enc = name; last_verified_at = none }

abbrev watched : Position
watched = record {
  symbol = codes "BTC";
  variant = variant_a;
  status = open_status;
  quantity = decimal 2;
  entry_price = decimal 100;
  current_price = decimal 100;
  current_pnl = decimal 0;
  stop_loss_price = decimal 90;
  take_profit_price = decimal 120;
  opened_at = 5;
  closed_at = none;
  entry_order_id = some 1;
  stop_loss_order_id = some 2;
  take_profit_order_id = some 3;
  exit_order_ids = [];
}

abbrev stored : Tables
stored = record {
  users = [];
  next_user_id = 3;
  credentials = (1, credentials_of (codes "one")) ∷ (2, credentials_of (codes "two")) ∷ [];
  sessions = [];
  strategy_settings = [];
  strategy_symbols =
      ((1, codes "BTCUSDT"), record { enabled = true; expires_at = some (9 * second) })
      ∷ ((1, codes "ETHUSDT"), record { enabled = true; expires_at = some (3 * second) })
      ∷ [];
  user_positions = ((2, codes "BTC", variant_a), watched) ∷ [];
  order_log = [];
  next_log_id = 1;
  positions = [];
  position_history = [];
  order_matches = [];
  orders = [];
  risk_reservations = [];
}

abbrev empty_book : SessionBook
empty_book = record { user_sessions = []; strategy_symbols = [] }

restart-windows_example :
    lookup
      (1, codes "ETHUSDT")
      (restore_automated_users
        (λ s. some s)
        (λ user. ok true)
        stored
        (5 * second)
        []
        empty_book).strategy_symbols
    ≡ running (5 * second) (lookup (1, codes "ETHUSDT") stored.strategy_symbols)
unfolding expiry_of
restart-windows_example =
    restart-windows (λ s. some s) (λ user. ok true) stored (5 * second) [] empty_book
      (1, codes "ETHUSDT") (refl, (refl, tt)) refl refl

opened : CanConnect (λ s. some s) (λ user. ok true) stored 1
unfolding get_user_credentials
opened = record {
  stored = credentials_of (codes "one");
  found = refl;
  api_key = codes "one";
  api_secret = codes "one";
  opens_key = refl;
  opens_secret = refl;
  no_blank = unfold strip lstrip is_space in refl;
}

running_window : Needs (λ s. some s) (λ user. ok true) stored (5 * second + 1) [] 1
unfolding is_before
running_window = runs (codes "BTCUSDT") (9 * second) refl refl

restart-sessions_example :
    lookup 1
      (restore_automated_users
        (λ s. some s)
        (λ user. ok true)
        stored
        (5 * second + 1)
        []
        empty_book).user_sessions
    ≡ some (record { verified = true; enabled = true })
restart-sessions_example =
    restart-sessions (λ s. some s) (λ user. ok true) stored (5 * second + 1) [] 1 empty_book opened
      (refl, (refl, tt)) running_window refl

abbrev watched_key : PositionKey
watched_key = (some 2, codes "BTC", variant_a)

abbrev loaded_book : PositionBook
loaded_book = record {
  positions = (watched_key, watched) ∷ [];
  positions_by_symbol = (codes "BTC", watched_key ∷ []) ∷ [];
  inflight = [];
  pending_entries = [];
  reconciled_positions = [];
}

loads : restore_positions stored ≡ some loaded_book
unfolding restore_positions load_positions load_user_positions read_positions read_after load_both
    load_owned load_shared keep_position position_accepts
loads = refl

abbrev low_tick : Tick
low_tick = record { symbol = codes "BTC"; price = decimal 80; quantity = decimal 1; timestamp = 9 }

reaches : exit_reason low_tick.price (mark_price low_tick.price watched) ≡ some stop_loss_reason
unfolding exit_reason mark_price
reaches = ground arith

restart-watches_example :
    mem (its_key 2 watched) (keys_of (process_tick (λ owner. true) low_tick loaded_book).1) ≡ true
restart-watches_example =
    restart-watches stored loaded_book 2 watched (λ owner. true) low_tick stop_loss_reason loads
      (refl, tt) (refl, tt) refl refl refl refl reaches
