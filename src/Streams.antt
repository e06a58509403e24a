-- ===== src/Streams.antt =====
-- services/market_data.py: `BinanceStreamClient`, its subscriptions and the handling of a message.
-- The websocket is not modelled: whether a control message could be sent is given to the operation
-- that sends it, and a message is what its JSON says. An operation that waits for the send is one
-- step here, although the code lets go of its lock before the send: what other operations do in that
-- time is not modelled.
pub mod Messages
pub mod Subscriptions
mod Tests
use crypto_trading_system.Base.{
  Bool, List, Option, if◌then◌else◌, leb, length, list_eq, nat_eq, none, not, option_eq, some, ℕ,
  ◌+◌,
}
use crypto_trading_system.Base.Dict.{add, discard, mem}
use crypto_trading_system.Base.Text.{Text}
use crypto_trading_system.Models.Common.{normalize_symbol}
use crypto_trading_system.Stores.Books.{OrderBookStore}
use crypto_trading_system.Stores.Ticks.{TickStore}

-- `tick_store` and `order_book_store` are those of the client.
pub record StreamClient : Type 0 where
  pub symbols : List Text
  pub depth_symbols : List Text
  pub ticks : TickStore
  pub books : OrderBookStore

pub data StreamError : Type 0 where
  invalid_symbol too_many_streams inactive_symbol send_failed : StreamError

-- What an operation returns or raises.
pub data Answer : Type 0 where
  changed unchanged : Answer
  raised : StreamError → Answer

pub stream_count : StreamClient → ℕ
stream_count c = length c.symbols + length c.depth_symbols

-- `normalize_symbol` at the head of each operation.
pub at_name : Option Text → (Text → StreamClient × Answer) → StreamClient → StreamClient × Answer
at_name none f c = (c, raised invalid_symbol)
at_name (some name) f c = f name

pub for_symbol : Text → (Text → StreamClient × Answer) → StreamClient → StreamClient × Answer
for_symbol symbol f c = at_name (normalize_symbol symbol) f c

pub add_name : ℕ → Text → Bool → StreamClient → StreamClient × Answer
add_name max_streams name sent c =
    if mem name c.symbols
    then (c, unchanged)
    else if leb max_streams (stream_count c)
    then (c, raised too_many_streams)
    else if sent
    then (record c { symbols = add name c.symbols }, changed)
    else (record c { symbols = discard name (add name c.symbols) }, raised send_failed)

pub add_symbol : ℕ → Text → Bool → StreamClient → StreamClient × Answer
add_symbol max_streams symbol sent c =
    for_symbol symbol (λ name. add_name max_streams name sent c) c

pub add_back_if : Bool → Text → List Text → List Text
add_back_if b name names = if b then add name names else names

pub remove_name : Text → Bool → StreamClient → StreamClient × Answer
remove_name name sent c =
    let had_depth = mem name c.depth_symbols in
    if not (mem name c.symbols)
    then (c, unchanged)
    else if sent
    then (
      record c {
        symbols = discard name c.symbols;
        depth_symbols = discard name c.depth_symbols;
        ticks = crypto_trading_system.Stores.Ticks.remove c.ticks name;
        books = crypto_trading_system.Stores.Books.remove c.books name;
      },
      changed,
    )
    else (
      record c {
        symbols = add name (discard name c.symbols);
        depth_symbols = add_back_if had_depth name (discard name c.depth_symbols);
      },
      raised send_failed,
    )

pub remove_symbol : Text → Bool → StreamClient → StreamClient × Answer
remove_symbol symbol sent c = for_symbol symbol (λ name. remove_name name sent c) c

pub add_depth_name : ℕ → Text → Bool → StreamClient → StreamClient × Answer
add_depth_name max_streams name sent c =
    if not (mem name c.symbols)
    then (c, raised inactive_symbol)
    else if mem name c.depth_symbols
    then (c, unchanged)
    else if leb max_streams (stream_count c)
    then (c, raised too_many_streams)
    else if sent
    then (record c { depth_symbols = add name c.depth_symbols }, changed)
    else (record c { depth_symbols = discard name (add name c.depth_symbols) }, raised send_failed)

pub add_depth_symbol : ℕ → Text → Bool → StreamClient → StreamClient × Answer
add_depth_symbol max_streams symbol sent c =
    for_symbol symbol (λ name. add_depth_name max_streams name sent c) c

pub remove_depth_name : Text → Bool → StreamClient → StreamClient × Answer
remove_depth_name name sent c =
    if not (mem name c.depth_symbols)
    then (c, unchanged)
    else if sent
    then (
      record c {
        depth_symbols = discard name c.depth_symbols;
        books = crypto_trading_system.Stores.Books.remove c.books name;
      },
      changed,
    )
    else (record c { depth_symbols = add name (discard name c.depth_symbols) }, raised send_failed)

pub remove_depth_symbol : Text → Bool → StreamClient → StreamClient × Answer
remove_depth_symbol symbol sent c = for_symbol symbol (λ name. remove_depth_name name sent c) c
