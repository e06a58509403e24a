-- ===== src/Broadcast.antt =====
-- services/tick_broadcaster.py: the browser clients, the values that wait for them and who watches
-- the order book of which symbol. A client is a number; sending to it is not modelled.
pub mod Depth
mod Tests
use crypto_trading_system.Base.{
  Bool, List, Option, [], false, if◌then◌else◌, is_empty, length, list_eq, nat_eq, none, option_eq,
  some, ℕ, ◌∷◌,
}
use crypto_trading_system.Base.Dict.{Dict, add, discard, erase, get_or, insert, lookup, values}
use crypto_trading_system.Base.Text.{Text}
use crypto_trading_system.Models.Common.{StrategyVariant, pending}
use crypto_trading_system.Models.Market.{Candle, PartialOrderBook, Tick}
use crypto_trading_system.Models.Strategy.{IndicatorPoint, Signal}
use crypto_trading_system.Strategy.{signal_key_eq}

pub record Broadcaster : Type 0 where
  pub clients : List ℕ
  pub pending : Dict Text Tick
  pub pending_candles : Dict Text Candle
  pub pending_books : Dict Text PartialOrderBook
  pub pending_indicators : Dict Text IndicatorPoint
  pub pending_signals : Dict (Text × StrategyVariant) Signal
  pub depth_clients : Dict Text (List ℕ)
  pub client_depth_symbols : Dict ℕ (List Text)

pub client_count : Broadcaster → ℕ
client_count b = length b.clients

pub connect : Broadcaster → ℕ → Broadcaster
connect b client = record b { clients = add client b.clients }

-- A set of clients without one; a symbol that nobody watches is dropped.
pub keep_watchers : Text → List ℕ → Dict Text (List ℕ) → Dict Text (List ℕ)
keep_watchers symbol rest d = if is_empty rest then erase symbol d else insert symbol rest d

pub drop_from : ℕ → Text → Option (List ℕ) → Dict Text (List ℕ) → Dict Text (List ℕ)
drop_from client symbol none d = d
drop_from client symbol (some watchers) d = keep_watchers symbol (discard client watchers) d

pub drop_watcher : ℕ → Text → Dict Text (List ℕ) → Dict Text (List ℕ)
drop_watcher client symbol d = drop_from client symbol (lookup symbol d) d

pub drop_each : ℕ → List Text → Dict Text (List ℕ) → Dict Text (List ℕ)
drop_each client [] d = d
drop_each client (s ∷ symbols) d = drop_each client symbols (drop_watcher client s d)

pub disconnect : Broadcaster → ℕ → Broadcaster
disconnect b client = record b {
  clients = discard client b.clients;
  client_depth_symbols = erase client b.client_depth_symbols;
  depth_clients =
      drop_each client (get_or (lookup client b.client_depth_symbols) []) b.depth_clients;
}

-- True for the first viewer of a symbol.
pub subscribe_depth : Broadcaster → ℕ → Text → Broadcaster × Bool
subscribe_depth b client symbol =
    let watchers = get_or (lookup symbol b.depth_clients) [] in
    (
      record b {
        depth_clients = insert symbol (add client watchers) b.depth_clients;
        client_depth_symbols =
            insert client (add symbol (get_or (lookup client b.client_depth_symbols) []))
              b.client_depth_symbols;
      },
      is_empty watchers,
    )

-- The symbols of a client without one; a client that watches nothing is dropped.
pub keep_symbols : ℕ → List Text → Dict ℕ (List Text) → Dict ℕ (List Text)
keep_symbols client rest d = if is_empty rest then erase client d else insert client rest d

pub drop_symbol_from : ℕ → Text → Option (List Text) → Dict ℕ (List Text) → Dict ℕ (List Text)
drop_symbol_from client symbol none d = d
drop_symbol_from client symbol (some symbols) d = keep_symbols client (discard symbol symbols) d

pub drop_symbol : ℕ → Text → Dict ℕ (List Text) → Dict ℕ (List Text)
drop_symbol client symbol d = drop_symbol_from client symbol (lookup client d) d

pub unsubscribe_from : ℕ → Text → Option (List ℕ) → Broadcaster → Broadcaster × Bool
unsubscribe_from client symbol none b = (b, false)
unsubscribe_from client symbol (some watchers) b = (
  record b {
    depth_clients = keep_watchers symbol (discard client watchers) b.depth_clients;
    client_depth_symbols = drop_symbol client symbol b.client_depth_symbols;
  },
  is_empty (discard client watchers),
)

-- True when no viewer of the symbol remains.
pub unsubscribe_depth : Broadcaster → ℕ → Text → Broadcaster × Bool
unsubscribe_depth b client symbol = unsubscribe_from client symbol (lookup symbol b.depth_clients) b

pub depth_symbols_for : Broadcaster → ℕ → List Text
depth_symbols_for b client = get_or (lookup client b.client_depth_symbols) []

pub publish : Broadcaster → Tick → Broadcaster
publish b t = record b { pending = insert t.symbol t b.pending }

pub publish_candle : Broadcaster → Candle → Broadcaster
publish_candle b c = record b { pending_candles = insert c.symbol c b.pending_candles }

pub publish_order_book : Broadcaster → PartialOrderBook → Broadcaster
publish_order_book b k = record b { pending_books = insert k.symbol k b.pending_books }

pub publish_indicator : Broadcaster → IndicatorPoint → Broadcaster
publish_indicator b p = record b { pending_indicators = insert p.symbol p b.pending_indicators }

pub publish_signal : Broadcaster → Signal → Broadcaster
publish_signal b s = record b { pending_signals = insert (s.symbol, s.variant) s b.pending_signals }

-- What a round of `_run` sends.
pub record Batch : Type 0 where
  pub ticks : List Tick
  pub candles : List Candle
  pub books : List PartialOrderBook
  pub indicators : List IndicatorPoint
  pub signals : List Signal

-- A round of `_run` behind its wait: everything that waits is taken.
pub take_batch : Broadcaster → Broadcaster × Batch
take_batch b = (
  record b {
    pending = [];
    pending_candles = [];
    pending_books = [];
    pending_indicators = [];
    pending_signals = [];
  },
  record {
    ticks = values b.pending;
    candles = values b.pending_candles;
    books = values b.pending_books;
    indicators = values b.pending_indicators;
    signals = values b.pending_signals;
  },
)

-- `_broadcast_book`: the clients that a book goes to.
pub book_receivers : Broadcaster → Text → List ℕ
book_receivers b symbol = get_or (lookup symbol b.depth_clients) []

-- `_send_to_clients`: a client whose send failed is dropped from the clients.
pub drop_failed : List ℕ → Broadcaster → Broadcaster
drop_failed [] b = b
drop_failed (client ∷ failed) b =
    drop_failed failed (record b { clients = discard client b.clients })
