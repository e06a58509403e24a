-- ===== src/Streams/Messages.antt =====
-- services/market_data.py: `_handle_message`, `_parse_tick` and `_parse_order_book`.
use crypto_trading_system.Base.{
  List, Option, [], filter, if◌then◌else◌, list_eq, nat_eq, none, option_eq, some, take, ℕ, ◌*◌,
  ◌==◌, ◌∷◌,
}
use crypto_trading_system.Base.Int.{ltb_ℤ}
use crypto_trading_system.Base.Text.{Text, upper}
use crypto_trading_system.Decimal.{Decimal, decimal, nought, ◌⊕◌, ◌⊘◌}
use crypto_trading_system.Models.Common.{Timestamp, normalize_symbol}
use crypto_trading_system.Models.Market.{
  OrderBookLevel, PartialOrderBook, Tick, book_accepts, tick_accepts,
}
use crypto_trading_system.Streams.{StreamClient}

-- A market event by its type. Times are milliseconds since the epoch; the quote of a book ticker
-- carries none.
pub data MarketEvent : Type 0 where
  trade_event ticker_event : Text → Decimal → Decimal → ℕ → MarketEvent
  book_ticker : Text → Decimal → Decimal → Decimal → Decimal → MarketEvent
  other_event : MarketEvent

pub record DepthEvent : Type 0 where
  pub update_id : ℕ
  pub bid_levels : List OrderBookLevel
  pub ask_levels : List OrderBookLevel

-- A message, by the branch of `_handle_message` that its JSON takes. In `malformed` no JSON object
-- with an object as its data was found, in an event of the other two a field may be missing: it is
-- `none`.
pub data Message : Type 0 where
  malformed control_response server_shutdown : Message
  depth_message : Text → Option DepthEvent → Message
  market_message : Option MarketEvent → Message

-- `Tick(…)` of a symbol that was normalized or not: none is a `ValidationError`.
pub named_tick : Option Text → Decimal → Decimal → Timestamp → Option Tick
named_tick none price quantity timestamp = none
named_tick (some name) price quantity timestamp =
    let made : Tick = record {
      symbol = name;
      price = price;
      quantity = quantity;
      timestamp = timestamp;
    } in
    if tick_accepts made then some made else none

pub make_tick : Text → Decimal → Decimal → Timestamp → Option Tick
make_tick symbol price quantity timestamp =
    named_tick (normalize_symbol symbol) price quantity timestamp

-- The tick of an event; an event of another kind has none.
pub parse_tick : Timestamp → MarketEvent → Option Tick
parse_tick now (trade_event symbol price quantity time) =
    make_tick symbol price quantity (time * 1000)
parse_tick now (ticker_event symbol price quantity time) =
    make_tick symbol price quantity (time * 1000)
parse_tick now (book_ticker symbol bid bid_quantity ask ask_quantity) =
    make_tick symbol ((bid ⊕ ask) ⊘ decimal 2) (bid_quantity ⊕ ask_quantity) now
parse_tick now other_event = none

-- `stream_name.split("@", 1)[0]`
pub before_at : Text → Text
before_at [] = []
before_at (c ∷ s) = if c == 64 then [] else c ∷ before_at s

-- The best levels that are not empty.
pub best_levels : ℕ → List OrderBookLevel → List OrderBookLevel
best_levels depth levels = filter (λ l. ltb_ℤ nought l.quantity) (take depth levels)

-- `PartialOrderBook(…)`: none is a `ValidationError`.
pub named_book : ℕ → Timestamp → Option Text → DepthEvent → Option PartialOrderBook
named_book depth now none event = none
named_book depth now (some name) event =
    let book : PartialOrderBook = record {
      symbol = name;
      last_update_id = event.update_id;
      timestamp = now;
      bids = best_levels depth event.bid_levels;
      asks = best_levels depth event.ask_levels;
    } in
    if book_accepts book then some book else none

pub parse_order_book : ℕ → Timestamp → Text → DepthEvent → Option PartialOrderBook
parse_order_book depth now stream_name event =
    named_book depth now (normalize_symbol (upper (before_at stream_name))) event

-- What the handlers are given.
pub data Notice : Type 0 where
  no_notice : Notice
  tick_notice : Tick → Notice
  book_notice : PartialOrderBook → Notice
  shutdown_notice : Notice

pub store_tick : StreamClient → Option Tick → StreamClient × Notice
store_tick c none = (c, no_notice)
store_tick c (some t) =
    let (ticks, stored) = crypto_trading_system.Stores.Ticks.update c.ticks t in
    (record c { ticks = ticks }, if stored then tick_notice t else no_notice)

pub store_book : StreamClient → Option PartialOrderBook → StreamClient × Notice
store_book c none = (c, no_notice)
store_book c (some b) =
    let (books, stored) = crypto_trading_system.Stores.Books.update c.books b in
    (record c { books = books }, if stored then book_notice b else no_notice)

-- `a.and_then(f)` on what is there.
abbrev pub bind_option : {A B : Type 0} → Option A → (A → Option B) → Option B
bind_option none f = none
bind_option (some a) f = f a

-- `_handle_message`; `now` is the wall clock.
pub handle_message : ℕ → Timestamp → Message → StreamClient → StreamClient × Notice
handle_message depth now malformed c = (c, no_notice)
handle_message depth now control_response c = (c, no_notice)
handle_message depth now server_shutdown c = (c, shutdown_notice)
handle_message depth now (depth_message stream_name event) c =
    store_book c (bind_option event (λ e. parse_order_book depth now stream_name e))
handle_message depth now (market_message event) c =
    store_tick c (bind_option event (λ e. parse_tick now e))
