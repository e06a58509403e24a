-- ===== src/Database/Holdings.antt =====
-- services/db_handler.py: the tables `user_positions`, `positions` and `position_history`.
-- `Position.model_validate_json` raises for a payload that the model refuses, and then nothing is
-- loaded.
use crypto_trading_system.Base.{
  Bool, Eq, List, Option, [], if◌then◌else◌, is_empty, is_some, list_eq, nat_eq, none, option_eq,
  some, true, ℕ, ◌&&◌, ◌==◌, ◌||◌, ◌∷◌,
}
use crypto_trading_system.Base.Dict.{Dict, get_or, insert, lookup}
use crypto_trading_system.Base.Text.{Text}
use crypto_trading_system.Database.{
  HistoryKey, HistoryRow, OwnerKey, Stored, Tables, for_user, history_key_eq, owner_key_eq,
}
use crypto_trading_system.Database.Newest.{newest}
use crypto_trading_system.Models.Common.{StrategyVariant}
use crypto_trading_system.Models.Strategy.{Position, position_accepts}
use crypto_trading_system.Positions.{exit_reason}
use crypto_trading_system.Strategy.{signal_key_eq}

unfoldable pub read_after {ℓ} :
    {K : Type ℓ} → K → Position → Option (Dict K Position) → Option (Dict K Position)
read_after k p none = none
read_after k p (some d) = if position_accepts p then some ((k, p) ∷ d) else none

unfoldable pub read_positions {ℓ} : {K : Type ℓ} → Dict K Position → Option (Dict K Position)
read_positions [] = some []
read_positions ((k, p) ∷ d) = read_after k p (read_positions d)

unfoldable pub load_user_positions : Tables → Option (Dict OwnerKey Position)
load_user_positions db = read_positions db.user_positions

unfoldable pub save_user_position : Tables → ℕ → Position → Stored Tables
save_user_position db user_id p =
    for_user db user_id
      (record db { user_positions = insert (user_id, p.symbol, p.variant) p db.user_positions })

unfoldable pub load_positions : Tables → Option (Dict (Text × StrategyVariant) Position)
load_positions db = read_positions db.positions

unfoldable pub save_position : Tables → Position → Tables
save_position db p = record db { positions = insert (p.symbol, p.variant) p db.positions }

unfoldable pub history_row : Position → Text → HistoryRow
history_row p exit_reason = record {
  symbol = p.symbol;
  variant = p.variant;
  entry_price = p.entry_price;
  exit_price = p.current_price;
  quantity = p.quantity;
  realized_pnl = p.current_pnl;
  exit_reason = exit_reason;
  opened_at = p.opened_at;
  closed_at = get_or p.closed_at p.opened_at;
}

-- `ON CONFLICT DO NOTHING`
unfoldable pub insert_new {ℓ κ} : {K : Type ℓ} {V : Type κ} ⦃e : Eq K⦄ → K → V → Dict K V → Dict K V
insert_new k v d = if is_some (lookup k d) then d else insert k v d

unfoldable pub record_position_history : Tables → ℕ → Position → Text → Tables
record_position_history db user_id p exit_reason =
    let row = history_row p exit_reason in
    record db {
      position_history =
          insert_new (user_id, p.symbol, p.variant, row.closed_at) row db.position_history;
    }

-- No symbol, or an empty one, is any.
unfoldable pub is_wanted : Option Text → Text → Bool
is_wanted none symbol = true
is_wanted (some wanted) symbol = is_empty wanted || wanted == symbol

unfoldable pub history_of : ℕ → Option Text → Dict HistoryKey HistoryRow → List HistoryRow
history_of user_id symbol [] = []
history_of user_id symbol ((key, row) ∷ d) =
    if key.0 == user_id && is_wanted symbol row.symbol
    then row ∷ history_of user_id symbol d
    else history_of user_id symbol d

unfoldable pub get_position_history : Tables → ℕ → Option Text → ℕ → List HistoryRow
get_position_history db user_id symbol max_rows =
    newest (λ (r : HistoryRow). r.closed_at) max_rows
      (history_of user_id symbol db.position_history)
