-- ===== src/Accounts/Restart/Loaded.antt =====
-- services/order_service.py, `__init__`: the positions that a new process loads. `none` is a payload that
-- the model refuses, and then the process does not start.
use crypto_trading_system.Base.{
  Option, [], if◌then◌else◌, list_eq, nat_eq, none, option_eq, some, ◌∷◌,
}
use crypto_trading_system.Base.Dict.{Dict, add, get_or, insert, lookup}
use crypto_trading_system.Base.Text.{Text, codes}
use crypto_trading_system.Database.{OwnerKey, Tables}
use crypto_trading_system.Database.Holdings.{
  load_positions, load_user_positions, record_position_history,
}
use crypto_trading_system.Database.Schema.{owned}
use crypto_trading_system.Models.Common.{StrategyVariant, is_open}
use crypto_trading_system.Models.Strategy.{Position}
use crypto_trading_system.Positions.{PositionBook, PositionKey, position_key_eq}

-- `self._positions[key] = position`, and the index by symbol.
unfoldable pub keep_position : PositionKey → Position → PositionBook → PositionBook
keep_position key p book = record book {
  positions = insert key p book.positions;
  positions_by_symbol =
      insert p.symbol (add key (get_or (lookup p.symbol book.positions_by_symbol) []))
        book.positions_by_symbol;
}

unfoldable pub load_shared : Dict (Text × StrategyVariant) Position → PositionBook → PositionBook
load_shared [] book = book
load_shared ((k, p) ∷ d) book = load_shared d (keep_position (none, p.symbol, p.variant) p book)

unfoldable pub load_owned : Dict OwnerKey Position → PositionBook → PositionBook
load_owned [] book = book
load_owned ((k, p) ∷ d) book = load_owned d (keep_position (some k.0, p.symbol, p.variant) p book)

-- A closed position is written to the history, where it is only if it was not yet.
unfoldable pub note_closed : Dict OwnerKey Position → Tables → Tables
note_closed [] db = db
note_closed ((k, p) ∷ d) db =
    note_closed d
      (if is_open p.status then db else record_position_history db k.0 p (codes "RESTORED"))

unfoldable pub load_both :
    Option (Dict (Text × StrategyVariant) Position)
    → Option (Dict OwnerKey Position)
    → PositionBook
    → Option PositionBook
load_both none owned book = none
load_both (some shared) none book = none
load_both (some shared) (some owned) book = some (load_owned owned (load_shared shared book))

abbrev pub empty_book : PositionBook
empty_book = record {
  positions = [];
  positions_by_symbol = [];
  inflight = [];
  pending_entries = [];
  reconciled_positions = [];
}

unfoldable pub restore_positions : Tables → Option PositionBook
restore_positions db = load_both (load_positions db) (load_user_positions db) empty_book
