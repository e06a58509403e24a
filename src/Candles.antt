-- ===== src/Candles.antt =====
-- services/candle_service.py: `CandleService`. A method that holds the lock is one step on the
-- service's state; the candles that it hands to `_notify` are returned. Fetching klines over HTTP
-- and the sleep of the boundary loop are not modelled.
pub mod Ohlc
pub mod Order
pub mod Track
pub mod Service
pub mod Contiguous
pub mod Gapless
mod Tests
use crypto_trading_system.Base.{
  Bool, List, Option, [], all, deque_append, false, filter, if◌then◌else◌, last?, last_slice, leb,
  list_eq, ltb, map, nat_eq, none, option_eq, some, suc, true, zero, ℕ, ◌%◌, ◌*◌, ◌++◌, ◌+◌, ◌-◌,
  ◌/◌, ◌∷◌,
}
use crypto_trading_system.Base.Dict.{Dict, erase, get_or, insert, lookup}
use crypto_trading_system.Base.Text.{Text, strip_upper}
use crypto_trading_system.Decimal.{Decimal, max, min}
use crypto_trading_system.Models.Common.{Timestamp, second}
use crypto_trading_system.Models.Market.{Candle, Tick, candle_accepts}

pub record CandleService : Type 0 where
  pub history_size : ℕ
  pub interval_seconds : ℕ
  pub current : Dict Text Candle
  pub history : Dict Text (List Candle)

-- `timedelta(seconds=self._interval_seconds)`
abbrev pub interval : CandleService → ℕ
interval svc = svc.interval_seconds * second

-- `_bucket_start`
pub bucket_start : ℕ → Timestamp → Timestamp
bucket_start seconds timestamp =
    let epoch_seconds = timestamp / second in (epoch_seconds - epoch_seconds % seconds) * second

pub filler : Text → Decimal → ℕ → Timestamp → Candle
filler symbol price step cursor = record {
  symbol = symbol;
  interval_start = cursor;
  interval_end = cursor + step;
  open_price = price;
  high = price;
  low = price;
  close = price;
  tick_count = 0;
  volume = none;
  is_final = true;
}

-- The `while` loop of `_append_gap_fillers`; `room` is `history_size - filled`.
pub gap_fillers : ℕ → Text → Decimal → ℕ → Timestamp → Timestamp → List Candle
gap_fillers zero symbol price step cursor target_start = []
gap_fillers (suc room) symbol price step cursor target_start =
    if ltb cursor target_start
    then filler symbol price step cursor
      ∷ gap_fillers room symbol price step (cursor + step) target_start
    else []

-- `history.append(candle)` for each candle in turn.
pub append_each : ℕ → List Candle → List Candle → List Candle
append_each size history [] = history
append_each size history (c ∷ cs) = append_each size (deque_append size history c) cs

pub fillers_after : ℕ → ℕ → Text → Option Candle → Timestamp → List Candle
fillers_after size step symbol none target_start = []
fillers_after size step symbol (some last) target_start =
    gap_fillers size symbol last.close step (last.interval_start + step) target_start

pub first_candle : Tick → Timestamp → ℕ → Candle
first_candle tick start step = record {
  symbol = tick.symbol;
  interval_start = start;
  interval_end = start + step;
  open_price = tick.price;
  high = tick.price;
  low = tick.price;
  close = tick.price;
  tick_count = 1;
  volume = none;
  is_final = false;
}

pub grow_candle : Candle → Decimal → Candle
grow_candle current price = record current {
  high = max current.high price;
  low = min current.low price;
  close = price;
  tick_count = current.tick_count + 1;
}

pub next_candle : Tick → Timestamp → ℕ → Option Candle → Candle
next_candle tick start step none = first_candle tick start step
next_candle tick start step (some c) = grow_candle c tick.price

-- What `process_tick` writes for the symbol of the tick, and what it notifies.
pub record Outcome : Type 0 where
  pub candle : Option Candle
  pub candles : List Candle
  pub notified : List Candle

-- The part of `process_tick` behind the two early steps: gap fillers, then the open candle.
pub settle :
    ℕ → ℕ → Tick → Timestamp → Option Candle → List Candle → List Candle → Option Candle → Outcome
settle size step tick start current history notified last =
    let fillers = fillers_after size step tick.symbol last start in
    let next = next_candle tick start step current in
    record {
      candle = some next;
      candles = append_each size history fillers;
      notified = notified ++ (fillers ++ next ∷ []);
    }

pub finalize : Candle → Candle
finalize c = record c { is_final = true }

pub is_late : Option Candle → Timestamp → Bool
is_late none start = false
is_late (some last) start = leb start last.interval_start

-- The open candle is finalised when the tick begins a later interval.
pub roll : ℕ → ℕ → Tick → Timestamp → Option Candle → List Candle → Outcome
roll size step tick start none history = settle size step tick start none history [] (last? history)
roll size step tick start (some c) history =
    if ltb c.interval_start start
    then settle size step tick start none (deque_append size history (finalize c)) (finalize c ∷ [])
        (some (finalize c))
    else settle size step tick start (some c) history [] (last? history)

-- `process_tick` for one symbol.
pub tick_outcome : ℕ → ℕ → Tick → Timestamp → Option Candle → List Candle → Outcome
tick_outcome size step tick start current history =
    if is_late (last? history) start
    then record { candle = current; candles = history; notified = [] }
    else roll size step tick start current history

pub write_current : Text → Option Candle → Dict Text Candle → Dict Text Candle
write_current symbol none d = d
write_current symbol (some c) d = insert symbol c d

pub history_of : CandleService → Text → List Candle
history_of svc symbol = get_or (lookup symbol svc.history) []

pub process_tick : CandleService → Tick → CandleService × List Candle
process_tick svc tick =
    let start = bucket_start svc.interval_seconds tick.timestamp in
    let out =
      tick_outcome svc.history_size (interval svc) tick start (lookup tick.symbol svc.current)
        (history_of svc tick.symbol) in
    (
      record svc {
        current = write_current tick.symbol out.candle svc.current;
        history = insert tick.symbol out.candles svc.history;
      },
      out.notified,
    )

-- One round of the loop of `_finalize_due`.
pub finalize_one : Timestamp → Text → Candle → CandleService → CandleService × List Candle
finalize_one boundary symbol candle svc =
    if leb candle.interval_end boundary
    then (
      record svc {
        current = erase symbol svc.current;
        history =
            insert symbol (deque_append svc.history_size (history_of svc symbol) (finalize candle))
              svc.history;
      },
      finalize candle ∷ [],
    )
    else (svc, [])

-- The loop, over `tuple(self._current.items())`.
pub finalize_each : Timestamp → Dict Text Candle → CandleService → CandleService × List Candle
finalize_each boundary [] svc = (svc, [])
finalize_each boundary ((symbol, candle) ∷ items) svc =
    let (svc', closed) = finalize_one boundary symbol candle svc in
    let (svc'', finalized) = finalize_each boundary items svc' in (svc'', closed ++ finalized)

pub finalize_due : CandleService → Timestamp → CandleService × List Candle
finalize_due svc boundary = finalize_each boundary svc.current svc

-- `current` and `history`, the two readers.
pub current_candle : CandleService → Text → Option Candle
current_candle svc symbol = lookup (strip_upper symbol) svc.current

pub recent_candles : CandleService → Text → ℕ → List Candle
recent_candles svc symbol limit = last_slice limit (history_of svc (strip_upper symbol))

-- A row of the exchange's kline answer, its numbers read; times are in milliseconds.
pub record Kline : Type 0 where
  pub open_ms : ℕ
  pub open_price : Decimal
  pub high : Decimal
  pub low : Decimal
  pub close : Decimal
  pub volume : Decimal
  pub close_ms : ℕ
  pub trades : ℕ

pub kline_candle : Text → Kline → Candle
kline_candle symbol row = record {
  symbol = symbol;
  interval_start = row.open_ms * 1000;
  interval_end = (row.close_ms + 1) * 1000;
  open_price = row.open_price;
  high = row.high;
  low = row.low;
  close = row.close;
  tick_count = row.trades;
  volume = some row.volume;
  is_final = true;
}

pub kline_candles : Text → ℕ → List Kline → List Candle
kline_candles symbol now_ms rows =
    map (kline_candle symbol) (filter (λ row. ltb row.close_ms now_ms) rows)

-- `bootstrap_history`, from the rows that the exchange returned. A candle that the validator
-- refuses raises, and the handler leaves the state alone.
pub load_history : CandleService → Text → List Kline → ℕ → ℕ → CandleService
load_history svc symbol rows now_ms limit =
    let candles = kline_candles symbol now_ms rows in
    if all candle_accepts candles
    then record svc {
      history =
          insert symbol (append_each svc.history_size [] (last_slice limit candles)) svc.history;
    }
    else svc

pub remove_symbol : CandleService → Text → CandleService
remove_symbol svc symbol = record svc {
  current = erase (strip_upper symbol) svc.current;
  history = erase (strip_upper symbol) svc.history;
}
