-- ===== src/Orders/Matches.antt =====
-- services/order_service.py: what of each filled order is still open. `_record` notes a filled order
-- of an account, `_record_order_match` takes off what an exit has closed, and `square_off_order`
-- closes the rest once at a time.
pub mod Remaining
use crypto_trading_system.Base.{
  Bool, Eq, List, Option, arith, false, if◌then◌else◌, is_some, list_beq_iff, list_eq, nat_beq_iff,
  nat_eq, none, not, option_eq, some, true, ℕ, ◌&&◌, ◌==◌, ◌||◌, ◌↔◌, ◌≡◌,
}
use crypto_trading_system.Base.Dict.{Dict, add, discard, erase, get_or, insert, lookup, mem}
use crypto_trading_system.Base.Int.{int_eq, leb_ℤ, ltb_ℤ}
use crypto_trading_system.Base.Text.{Text, codes}
use crypto_trading_system.Decimal.{Decimal, min, nought, ◌⊖◌, ◌⊗◌, ◌⊘◌}
use crypto_trading_system.Exchange.{Response}
use crypto_trading_system.Exchange.Result.{Result, err, ok, order_error}
use crypto_trading_system.Models.Common.{OrderSide, buy, sell}

pub record OrderMatch : Type 0 where
  pub symbol : Text
  pub entry_order_id : ℕ
  pub exit_order_id : ℕ
  pub entry_side : OrderSide
  pub exit_side : OrderSide
  pub quantity : Decimal
  pub entry_price : Decimal
  pub exit_price : Decimal
  pub realized_pnl : Decimal

-- The account, the symbol and the order.
abbrev pub OrderKey : Type 0
OrderKey = ℕ × Text × ℕ

abbrev pub order_key_beq : OrderKey → OrderKey → Bool
order_key_beq a b = a.0 == b.0 && (a.1 == b.1 && a.2 == b.2)

pub order_key_beq_iff : (a b : OrderKey) → (order_key_beq a b ≡ true) ↔ (a ≡ b)
order_key_beq_iff a b =
    ground (arith, nat_beq_iff a.0 b.0, list_beq_iff a.1 b.1, nat_beq_iff a.2 b.2)

instance abbrev pub order_key_eq : Eq OrderKey
order_key_eq = record { beq_iff = order_key_beq_iff; beq = order_key_beq }

-- The account, the entry and the exit.
abbrev pub MatchKey : Type 0
MatchKey = ℕ × ℕ × ℕ

abbrev pub match_key_beq : MatchKey → MatchKey → Bool
match_key_beq a b = a.0 == b.0 && (a.1 == b.1 && a.2 == b.2)

pub match_key_beq_iff : (a b : MatchKey) → (match_key_beq a b ≡ true) ↔ (a ≡ b)
match_key_beq_iff a b =
    ground (arith, nat_beq_iff a.0 b.0, nat_beq_iff a.1 b.1, nat_beq_iff a.2 b.2)

instance abbrev pub match_key_eq : Eq MatchKey
match_key_eq = record { beq_iff = match_key_beq_iff; beq = match_key_beq }

abbrev pub symbol_order_beq : Text × ℕ → Text × ℕ → Bool
symbol_order_beq a b = a.0 == b.0 && a.1 == b.1

pub symbol_order_beq_iff : (a b : Text × ℕ) → (symbol_order_beq a b ≡ true) ↔ (a ≡ b)
symbol_order_beq_iff a b = ground (arith, list_beq_iff a.0 b.0, nat_beq_iff a.1 b.1)

instance abbrev pub symbol_order_eq : Eq (Text × ℕ)
symbol_order_eq = record { beq_iff = symbol_order_beq_iff; beq = symbol_order_beq }

pub record MatchBook : Type 0 where
  pub open_order_positions : Dict OrderKey Decimal
  pub order_matches : Dict MatchKey OrderMatch
  pub squaring_orders : List (Text × ℕ)

-- `executedQty or origQty or …`
abbrev pub first_of : Option Decimal → Option Decimal → Decimal → Decimal
first_of (some a) b d = a
first_of none (some b) d = b
first_of none none d = d

pub note_fill : ℕ → Text → Option ℕ → Response → MatchBook → MatchBook
note_fill user symbol none response book = book
note_fill user symbol (some id) response book = record book {
  open_order_positions =
      insert (user, symbol, id) (first_of response.executed_qty response.orig_qty nought)
        book.open_order_positions;
}

-- The part of `_record` for a signed-in account; `side` is that of the answer or of the request.
pub record_filled : Option ℕ → Text → Option OrderSide → Response → MatchBook → MatchBook
record_filled none symbol side response book = book
record_filled (some user) symbol side response book =
    if is_some side && response.status == some (codes "FILLED")
    then note_fill user symbol response.order_id response book
    else book

-- The price of an order: its own, or what it cost by the quantity.
pub price_of : Response → Decimal → Decimal
price_of response quantity =
    let price = get_or response.price nought in
    if leb_ℤ price nought && not (quantity == nought)
    then get_or response.quote_qty nought ⊘ quantity
    else price

pub make_match : Text → ℕ → ℕ → Response → Response → Decimal → Decimal → Decimal → OrderMatch
make_match symbol entry_id exit_id entry exit quantity entry_price exit_price = record {
  symbol = symbol;
  entry_order_id = entry_id;
  exit_order_id = exit_id;
  entry_side = get_or entry.side buy;
  exit_side = get_or exit.side sell;
  quantity = quantity;
  entry_price = entry_price;
  exit_price = exit_price;
  realized_pnl = (exit_price ⊖ entry_price) ⊗ quantity;
}

-- What is left of an entry; nothing left is no entry.
pub lower_open : OrderKey → Decimal → Dict OrderKey Decimal → Dict OrderKey Decimal
lower_open key remaining d = if ltb_ℤ nought remaining then insert key remaining d else erase key d

-- The locked block of `_record_order_match`.
pub write_match : ℕ → OrderMatch → Decimal → MatchBook → MatchBook
write_match user m entry_quantity book =
    let key : OrderKey = (user, m.symbol, m.entry_order_id) in
    let remaining = get_or (lookup key book.open_order_positions) entry_quantity ⊖ m.quantity in
    record book {
      order_matches = insert (user, m.entry_order_id, m.exit_order_id) m book.order_matches;
      open_order_positions =
          erase (user, m.symbol, m.exit_order_id)
            (lower_open key remaining book.open_order_positions);
    }

pub match_orders : ℕ → Text → Option ℕ → Option ℕ → Response → Response → MatchBook → MatchBook
match_orders user symbol none exit_id entry exit book = book
match_orders user symbol (some entry_id) none entry exit book = book
match_orders user symbol (some entry_id) (some exit_id) entry exit book =
    let quantity = get_or exit.executed_qty nought in
    let entry_quantity = first_of entry.executed_qty entry.orig_qty quantity in
    let entry_price = price_of entry entry_quantity in
    let exit_price = price_of exit quantity in
    if leb_ℤ quantity nought || (leb_ℤ entry_price nought || leb_ℤ exit_price nought)
    then book
    else write_match user
        (make_match symbol entry_id exit_id entry exit quantity entry_price exit_price)
        entry_quantity book

-- `_record_order_match`
pub record_order_match : Option ℕ → Text → Response → Response → MatchBook → MatchBook
record_order_match none symbol entry exit book = book
record_order_match (some user) symbol entry exit book =
    match_orders user symbol entry.order_id exit.order_id entry exit book

-- The locked block at the head of `square_off_order`.
pub admit_square_order : Text × ℕ → MatchBook → MatchBook × Result (Unit {0})
admit_square_order key book =
    if mem key book.squaring_orders
    then (book, err (order_error 409 false))
    else (record book { squaring_orders = add key book.squaring_orders }, ok tt)

-- Its `finally` block.
pub finish_square_order : Text × ℕ → MatchBook → MatchBook
finish_square_order key book = record book { squaring_orders = discard key book.squaring_orders }

-- What is still to close: by the fills, or if they are closed by the tracked quantity, and at most
-- that.
unfoldable pub closing_quantity : Decimal → Option Decimal → Decimal
closing_quantity remaining none = remaining
closing_quantity remaining (some tracked) =
    min (if remaining == nought then tracked else remaining) tracked

unfoldable pub quantity_to_close : Option Decimal → Option Decimal → Result Decimal
quantity_to_close by_fills tracked =
    let closing = closing_quantity (get_or by_fills nought) tracked in
    if leb_ℤ closing nought then err (order_error 409 false) else ok closing

pub is_filled : Response → Bool
is_filled source = is_some source.side && source.status == some (codes "FILLED")

pub close_side : OrderSide → OrderSide
close_side buy = sell
close_side sell = buy
