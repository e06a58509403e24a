-- ===== src/Models/Market.antt =====
-- models/market.py: ticks, candles and partial order books.
use crypto_trading_system.Base.{
  Bool, List, Option, [], all, arith, false, list_beq_iff, list_eq, ltb, nat_beq, nat_eq, none, not,
  option_eq, some, true, ℕ, ◌%◌, ◌&&◌, ◌-◌, ◌/◌, ◌==◌, ◌||◌, ◌↔◌, ◌∷◌, ◌≡◌,
}
use crypto_trading_system.Base.Int.{int_beq_iff, int_eq, leb_ℤ, ltb_ℤ}
use crypto_trading_system.Base.Text.{Text}
use crypto_trading_system.Decimal.{Decimal, max, min, nought}
use crypto_trading_system.Models.Common.{Timestamp, second}

pub record Tick : Type 0 where
  pub symbol : Text
  pub price : Decimal
  pub quantity : Decimal
  pub timestamp : Timestamp

pub record Candle : Type 0 where
  pub symbol : Text
  pub interval_start : Timestamp
  pub interval_end : Timestamp
  pub open_price : Decimal
  pub high : Decimal
  pub low : Decimal
  pub close : Decimal
  pub tick_count : ℕ
  pub volume : Option Decimal
  pub is_final : Bool

pub record OrderBookLevel : Type 0 where
  pub price : Decimal
  pub quantity : Decimal

pub record PartialOrderBook : Type 0 where
  pub symbol : Text
  pub last_update_id : ℕ
  pub timestamp : Timestamp
  pub bids : List OrderBookLevel
  pub asks : List OrderBookLevel

-- `existing == tick`
unfoldable pub tick_beq : Tick → Tick → Bool
tick_beq a b =
    a.symbol == b.symbol
    && (a.price == b.price && (a.quantity == b.quantity && a.timestamp == b.timestamp))

pub tick_beq_iff : (a b : Tick) → (tick_beq a b ≡ true) ↔ (a ≡ b)
unfolding tick_beq
tick_beq_iff a b = ground (
  arith,
  list_beq_iff a.symbol b.symbol,
  int_beq_iff a.price b.price,
  int_beq_iff a.quantity b.quantity,
)

-- `PositiveDecimal` on every price and quantity of a tick.
unfoldable pub tick_accepts : Tick → Bool
tick_accepts t = ltb_ℤ nought t.price && ltb_ℤ nought t.quantity

unfoldable pub volume_accepts : Option Decimal → Bool
volume_accepts none = true
volume_accepts (some v) = leb_ℤ nought v

-- The field constraints of `Candle`.
unfoldable pub prices_accept : Candle → Bool
unfolding volume_accepts
prices_accept c =
    ltb_ℤ nought c.open_price
    && (ltb_ℤ nought c.high
        && (ltb_ℤ nought c.low && (ltb_ℤ nought c.close && volume_accepts c.volume)))

-- The interval is a whole number of seconds, and starts on a boundary.
unfoldable pub times_accept : Candle → Bool
times_accept c =
    ltb c.interval_start c.interval_end
    && (nat_beq ((c.interval_end - c.interval_start) % second) 0
        && nat_beq (c.interval_start / second % ((c.interval_end - c.interval_start) / second)) 0)

unfoldable pub range_accepts : Candle → Bool
range_accepts c =
    leb_ℤ (max (max c.open_price c.close) c.low) c.high
    && leb_ℤ c.low (min (min c.open_price c.close) c.high)

-- `Candle.validate_candle`, with the field constraints.
unfoldable pub candle_accepts : Candle → Bool
candle_accepts c = prices_accept c && (times_accept c && range_accepts c)

-- `any(left.price < right.price for left, right in zip(bids, bids[1:]))`
unfoldable pub any_rise : List OrderBookLevel → Bool
any_rise [] = false
any_rise (l ∷ []) = false
any_rise (l ∷ r ∷ ls) = ltb_ℤ l.price r.price || any_rise (r ∷ ls)

-- `any(left.price > right.price for left, right in zip(asks, asks[1:]))`
unfoldable pub any_fall : List OrderBookLevel → Bool
any_fall [] = false
any_fall (l ∷ []) = false
any_fall (l ∷ r ∷ ls) = ltb_ℤ r.price l.price || any_fall (r ∷ ls)

unfoldable pub level_accepts : OrderBookLevel → Bool
level_accepts l = ltb_ℤ nought l.price && leb_ℤ nought l.quantity

unfoldable pub book_accepts : PartialOrderBook → Bool
unfolding any_rise any_fall level_accepts
book_accepts b =
    (all level_accepts b.bids && all level_accepts b.asks)
    && (not (any_rise b.bids) && not (any_fall b.asks))
