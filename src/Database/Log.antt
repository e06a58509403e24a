-- ===== src/Database/Log.antt =====
-- services/db_handler.py: the tables `order_log` and `orders`. Times of the exchange count
-- milliseconds. `iso` is the text of an instant, and `ratio` the division of two amounts as floats,
-- written with eight digits.
use mathlib.Core.List.{reverse}
use crypto_trading_system.Base.{
  Bool, List, Option, [], arith, count, if◌then◌else◌, is_empty, list_eq, ltb, nat_eq, none,
  option_eq, option_map, refl, some, suc, take, zero, ℕ, ◌%◌, ◌&&◌, ◌*◌, ◌+◌, ◌/◌, ◌==◌, ◌||◌, ◌∙◌,
  ◌∷◌, ◌≡◌,
}
use crypto_trading_system.Base.Dict.{Dict, get_or, insert, lookup, values}
use crypto_trading_system.Base.Int.{leb_ℤ}
use crypto_trading_system.Base.Text.{Text, codes}
use crypto_trading_system.Database.{LogRow, OrderRecord, Stored, Tables, for_user}
use crypto_trading_system.Database.Holdings.{is_wanted}
use crypto_trading_system.Database.Newest.{IsNewestFirst, newest, newest-AreNewest}
use crypto_trading_system.Decimal.{Decimal, nought}
use crypto_trading_system.Models.Common.{Timestamp}
use crypto_trading_system.Orders.History.{next_id}
use crypto_trading_system.Orders.Sessions.{user_symbol_eq}

-- `str` of a number.
unfoldable pub digits_from : ℕ → ℕ → Text → Text
digits_from zero n rest = rest
digits_from (suc fuel) n rest =
    let more = digits_from fuel (n / 10) ((n % 10 + 48) ∷ rest) in
    if ltb n 10 then (n % 10 + 48) ∷ rest else more

unfoldable pub str : ℕ → Text
str n = digits_from (n + 1) n []

-- A text that is not empty.
unfoldable pub given : Option Text → Option Text
given none = none
given (some []) = none
given (some (c ∷ s)) = some (c ∷ s)

-- A number other than 0.
unfoldable pub given_id : Option ℕ → Option Text
given_id none = none
given_id (some n) = if n == 0 then none else some (str n)

abbrev pub or_next {ℓ} : {A : Type ℓ} → Option A → Option A → Option A
or_next none b = b
or_next (some a) b = some a

module _ (iso : Timestamp → Text) where
  unfoldable pub record_key : OrderRecord → Text
  record_key r =
      get_or
        (or_next (given r.client_order_id) (
          or_next (given r.new_client_order_id)
            (or_next (given_id r.order_id) (option_map iso r.recorded_at))))
        (codes "None")

-- `_binance_time`; 0 is a time.
unfoldable pub binance_time : Option ℕ → Option Timestamp
binance_time none = none
binance_time (some milliseconds) = some (milliseconds * 1000)

-- `record.get(a) or record.get(b)`: 0 counts as missing in the first.
unfoldable pub time_or : Option ℕ → Option ℕ → Option ℕ
time_or none b = b
time_or (some a) b = if a == 0 then b else some a

-- The last price is the fallback where the quantity or the quote is missing.
module _ (ratio : Decimal → Decimal → Decimal) where
  unfoldable pub ratio_price : Decimal → Decimal → Option Decimal
  ratio_price executed quote = if leb_ℤ executed nought then none else some (ratio quote executed)

  unfoldable pub average_price_of :
      Option Decimal → Option Decimal → Option Decimal → Option Decimal → Option Decimal
  average_price_of none quote price avg_price = or_next price avg_price
  average_price_of (some executed) none price avg_price = or_next price avg_price
  average_price_of (some executed) (some quote) price avg_price = ratio_price executed quote

  unfoldable pub log_row : Timestamp → ℕ → Text → OrderRecord → LogRow
  log_row now row_id source r =
      let recorded = get_or r.recorded_at now in
      record {
        row_id = row_id;
        symbol = get_or r.symbol [];
        side = r.side;
        order_type = r.order_type;
        status = get_or (given r.status) (codes "UNKNOWN");
        price = r.price;
        orig_qty = or_next r.orig_qty r.quantity;
        executed_qty = get_or (or_next r.executed_qty (or_next r.orig_qty r.quantity)) nought;
        avg_price = average_price_of r.executed_qty r.quote_qty r.price r.avg_price;
        strategy_variant = r.strategy_variant;
        source = source;
        order_time = binance_time (time_or r.time r.transact_time);
        status_time = get_or (binance_time (time_or r.update_time r.transact_time)) recorded;
        recorded_at = recorded;
        payload = r;
      }

  -- The new row, or what `DO UPDATE` makes of the old one: `id` and `source` stay.
  unfoldable pub upserted : Timestamp → ℕ → Text → OrderRecord → Option LogRow → LogRow
  upserted now next_id source r none = log_row now next_id source r
  upserted now next_id source r (some old) = log_row now old.row_id old.source r

  unfoldable pub log_user_order :
      (Timestamp → Text) → Timestamp → Tables → ℕ → OrderRecord → Text → Stored Tables
  log_user_order iso now db user_id r source =
      let key : ℕ × Text = (user_id, record_key iso r) in
      for_user db user_id (record db {
        order_log =
            insert key (upserted now db.next_log_id source r (lookup key db.order_log))
              db.order_log;
        next_log_id = db.next_log_id + 1;
      })

unfoldable pub log_of : ℕ → Option Text → Dict (ℕ × Text) LogRow → List LogRow
log_of user_id symbol [] = []
log_of user_id symbol ((key, row) ∷ d) =
    if key.0 == user_id && is_wanted symbol row.symbol
    then row ∷ log_of user_id symbol d
    else log_of user_id symbol d

unfoldable pub get_user_orders : Tables → ℕ → Option Text → ℕ → List LogRow
get_user_orders db user_id symbol max_rows =
    newest (λ (r : LogRow). r.recorded_at) max_rows (log_of user_id symbol db.order_log)

-- `save_order`; `record["recordedAt"]` raises where there is none, but `_record` always sets it.
unfoldable pub save_order : (Timestamp → Text) → Tables → OrderRecord → Tables
save_order iso db r = record db { orders = insert (record_key iso r) r db.orders }

-- `load_orders`: the newest, and of these the oldest first.
unfoldable pub load_orders : ℕ → Tables → List OrderRecord
load_orders history_limit db =
    reverse (newest (λ (r : OrderRecord). get_or r.recorded_at 0) history_limit (values db.orders))

-- A row of the account, and of the symbol if one is given that is not empty.
abbrev pub is_asked_for : ℕ → Option Text → (ℕ × Text) × LogRow → Bool
is_asked_for user_id none (key, row) = key.0 == user_id
is_asked_for user_id (some symbol) (key, row) =
    key.0 == user_id && (is_empty symbol || symbol == row.symbol)

-- The rows are cut off an ordering, newest first, of exactly the rows of the table that are asked for.
pub record AreNewestOrders (db : Tables) (user_id : ℕ) (symbol : Option Text) (max_rows : ℕ)
    (found : List LogRow) : Type 0 where
  pub ordering : List LogRow
  pub is_ordered : IsNewestFirst (λ (r : LogRow). r.recorded_at) ordering
  pub same_rows :
      (p : LogRow → Bool)
      → count p ordering ≡ count (λ e. is_asked_for user_id symbol e && p e.1) db.order_log
  pub cut : found ≡ take max_rows ordering

count-log_of :
    (user_id : ℕ) (symbol : Option Text) (p : LogRow → Bool) (d : Dict (ℕ × Text) LogRow)
    → count p (log_of user_id symbol d) ≡ count (λ e. is_asked_for user_id symbol e && p e.1) d
unfolding log_of is_wanted
count-log_of user_id symbol p [] = refl
count-log_of user_id none p ((key, row) ∷ d) = ground (arith, count-log_of user_id none p d)
count-log_of user_id (some s) p ((key, row) ∷ d) = ground (arith, count-log_of user_id (some s) p d)

-- `get_user_orders` gives the newest rows of the account, and of the symbol if one is given that is not
-- empty: the first `max_rows` of an ordering of exactly these rows of the table in which no row is
-- newer than one before it.
pub get_user_orders-AreNewest :
    (db : Tables) (user_id : ℕ) (symbol : Option Text) (max_rows : ℕ)
    → AreNewestOrders db user_id symbol max_rows (get_user_orders db user_id symbol max_rows)
unfolding get_user_orders
get_user_orders-AreNewest db user_id symbol max_rows =
    let sorted =
      newest-AreNewest (λ (r : LogRow). r.recorded_at) max_rows
        (log_of user_id symbol db.order_log) in
    record {
      ordering = sorted.ordering;
      is_ordered = sorted.is_ordered;
      same_rows = λ p. sorted.same_rows p ∙ count-log_of user_id symbol p db.order_log;
      cut = sorted.cut;
    }
