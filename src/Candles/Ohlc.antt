-- ===== src/Candles/Ohlc.antt =====
-- Every candle that the service builds passes the validator of models/market.py, also those that
-- `model_copy` makes, which pydantic does not validate.
use native.Mathlib.Nat.{mod-eq-sub-mul-div, mul-div-le, mul_comm}
use crypto_trading_system.Base.{ap, arith, refl, some, ℕ, ◌%◌, ◌*◌, ◌+◌, ◌-◌, ◌/◌, ◌≡◌}
use crypto_trading_system.Base.Int.{◌<ℤ◌, ◌≤ℤ◌}
use crypto_trading_system.Base.Text.{Text}
use crypto_trading_system.Candles.{bucket_start, filler, finalize, first_candle, grow_candle}
use crypto_trading_system.Decimal.{Decimal, nought}
use crypto_trading_system.Models.Common.{Timestamp, second}
use crypto_trading_system.Models.Market.{Candle, Tick}

-- A candle of the symbol, on the grid of the interval, with its prices in order.
pub record IsSound (seconds : ℕ) (symbol : Text) (c : Candle) : Type 0 where
  pub named : c.symbol ≡ symbol
  pub aligned : (m : ℕ) × (c.interval_start ≡ m * seconds * second)
  pub ends : c.interval_end ≡ c.interval_start + seconds * second
  pub low_pos : nought <ℤ c.low
  pub low_open : c.low ≤ℤ c.open_price
  pub low_close : c.low ≤ℤ c.close
  pub open_high : c.open_price ≤ℤ c.high
  pub close_high : c.close ≤ℤ c.high
  pub volume_nonneg : (v : Decimal) → c.volume ≡ some v → nought ≤ℤ v

floor_multiple : (e n : ℕ) → e - e % n ≡ e / n * n
floor_multiple e n = omega (arith, mod-eq-sub-mul-div e n, mul_comm (e / n) n, mul-div-le e n)

pub bucket_start-aligned :
    (seconds : ℕ) (t : Timestamp) → (m : ℕ) × (bucket_start seconds t ≡ m * seconds * second)
unfolding bucket_start
bucket_start-aligned seconds t =
    (t / second / seconds, ap (λ x. x * second) (floor_multiple (t / second) seconds))

pub first_candle-IsSound :
    (seconds : ℕ) (tick : Tick) (start : Timestamp)
    → nought <ℤ tick.price
    → (m : ℕ) × (start ≡ m * seconds * second)
    → IsSound seconds tick.symbol (first_candle tick start (seconds * second))
unfolding first_candle
first_candle-IsSound seconds tick start p a = record {
  named = refl;
  aligned = a;
  ends = refl;
  low_pos = p;
  low_open = omega arith;
  low_close = omega arith;
  open_high = omega arith;
  close_high = omega arith;
  volume_nonneg = λ v e. cc;
}

pub grow_candle-IsSound :
    (seconds : ℕ) (symbol : Text) (c : Candle) (price : Decimal)
    → nought <ℤ price
    → IsSound seconds symbol c
    → IsSound seconds symbol (grow_candle c price)
unfolding grow_candle
grow_candle-IsSound seconds symbol c price p h = record {
  named = h.named;
  aligned = h.aligned;
  ends = h.ends;
  low_pos = ground (arith, h.low_pos);
  low_open = ground (arith, h.low_open);
  low_close = ground arith;
  open_high = ground (arith, h.open_high);
  close_high = ground arith;
  volume_nonneg = h.volume_nonneg;
}

pub finalize-IsSound :
    (seconds : ℕ) (symbol : Text) (c : Candle)
    → IsSound seconds symbol c
    → IsSound seconds symbol (finalize c)
unfolding finalize
finalize-IsSound seconds symbol c h = record {
  named = h.named;
  aligned = h.aligned;
  ends = h.ends;
  low_pos = h.low_pos;
  low_open = h.low_open;
  low_close = h.low_close;
  open_high = h.open_high;
  close_high = h.close_high;
  volume_nonneg = h.volume_nonneg;
}

pub filler-IsSound :
    (seconds : ℕ) (symbol : Text) (price : Decimal) (cursor : Timestamp)
    → nought <ℤ price
    → (m : ℕ) × (cursor ≡ m * seconds * second)
    → IsSound seconds symbol (filler symbol price (seconds * second) cursor)
unfolding filler
filler-IsSound seconds symbol price cursor p a = record {
  named = refl;
  aligned = a;
  ends = refl;
  low_pos = p;
  low_open = omega arith;
  low_close = omega arith;
  open_high = omega arith;
  close_high = omega arith;
  volume_nonneg = λ v e. cc;
}
