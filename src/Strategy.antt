-- ===== src/Strategy.antt =====
-- services/strategy_service.py: `StrategyService`, the SMA/EMA crossover on finalized candles. A
-- method that holds the lock is one step on the service's state. The handlers that `_notify`
-- calls are outside: `process_candle` returns what it hands to them.
pub mod Window
pub mod Seed
pub mod Crossover
mod Tests
use crypto_trading_system.Base.{
  Bool, Eq, List, Option, [], arith, deque_append, false, filter, if◌then◌else◌, last_slice, leb,
  length, list_beq_iff, list_eq, nat_beq, nat_eq, none, option_eq, some, true, ℕ, ◌&&◌, ◌+◌, ◌==◌,
  ◌↔◌, ◌∷◌, ◌≡◌,
}
use crypto_trading_system.Base.Dict.{Dict, erase, get_or, insert, lookup}
use crypto_trading_system.Base.Int.{leb_ℤ, ltb_ℤ, pos, ℤ, ◌-ℤ◌}
use crypto_trading_system.Base.Text.{Text, strip_upper}
use crypto_trading_system.Decimal.{Decimal, decimal, nought, ◌⊕◌, ◌⊖◌, ◌⊗◌, ◌⊘◌}
use crypto_trading_system.Models.Common.{
  SignalAction, StrategyVariant, enter, leave, variant_a, variant_b, variant_beq_iff, variant_eq,
}
use crypto_trading_system.Models.Market.{Candle}
use crypto_trading_system.Models.Strategy.{IndicatorPoint, Signal}

pub record StrategyService : Type 0 where
  pub fast_period : ℕ
  pub slow_period : ℕ
  pub indicator_history_size : ℕ
  pub signal_history_size : ℕ
  pub closes : Dict Text (List Decimal)
  pub sums : Dict Text Decimal
  pub emas : Dict Text Decimal
  pub sample_counts : Dict Text ℕ
  pub relations : Dict Text ℤ
  pub indicators : Dict Text (List IndicatorPoint)
  pub signals : List Signal
  pub latest_signals : Dict (Text × StrategyVariant) Signal

abbrev pub signal_key_beq : Text × StrategyVariant → Text × StrategyVariant → Bool
signal_key_beq a b = a.0 == b.0 && a.1 == b.1

pub signal_key_beq_iff : (a b : Text × StrategyVariant) → (signal_key_beq a b ≡ true) ↔ (a ≡ b)
signal_key_beq_iff a b = ground (arith, list_beq_iff a.0 b.0, variant_beq_iff a.1 b.1)

instance abbrev pub signal_key_eq : Eq (Text × StrategyVariant)
signal_key_eq = record { beq = signal_key_beq; beq_iff = signal_key_beq_iff }

-- `self._alpha`
pub alpha : StrategyService → Decimal
alpha svc = decimal 2 ⊘ decimal (svc.slow_period + 1)

-- `_compare`: (left > right) - (left < right).
pub compare : Decimal → Decimal → ℤ
compare left right =
    (if ltb_ℤ right left then pos 1 else pos 0) -ℤ (if ltb_ℤ left right then pos 1 else pos 0)

-- `closes[0]` of a window that is full.
pub head_or_nought : List Decimal → Decimal
head_or_nought [] = nought
head_or_nought (c ∷ cs) = c

-- The running sum: the close that leaves the window is taken off first.
pub next_sum : ℕ → List Decimal → Decimal → Decimal → Decimal
next_sum fast_period closes sum close =
    (if nat_beq (length closes) fast_period then sum ⊖ head_or_nought closes else sum) ⊕ close

pub next_ema : Decimal → Option Decimal → Decimal → Decimal
next_ema alpha none close = close
next_ema alpha (some previous_ema) close = (close ⊖ previous_ema) ⊗ alpha ⊕ previous_ema

-- The relation of an indicator that has both values.
pub relation_of : Option Decimal → Option Decimal → Option ℤ
relation_of (some sma) (some ema) = some (compare sma ema)
relation_of (some sma) none = none
relation_of none ema = none

pub write_relation : Text → Option ℤ → Dict Text ℤ → Dict Text ℤ
write_relation symbol none relations = relations
write_relation symbol (some r) relations = insert symbol r relations

pub when : Bool → Decimal → Option Decimal
when true d = some d
when false d = none

-- `_calculate`, with a fast period that is not 0.
pub calculate : StrategyService → Candle → StrategyService × IndicatorPoint
calculate svc candle =
    let symbol = candle.symbol in
    let closes = get_or (lookup symbol svc.closes) [] in
    let closes' = deque_append svc.fast_period closes candle.close in
    let sum' =
      next_sum svc.fast_period closes (get_or (lookup symbol svc.sums) nought) candle.close in
    let samples = get_or (lookup symbol svc.sample_counts) 0 + 1 in
    let ema = next_ema (alpha svc) (lookup symbol svc.emas) candle.close in
    let ready = leb svc.slow_period samples in
    let full = nat_beq (length closes') svc.fast_period in
    let point : IndicatorPoint = record {
      symbol = symbol;
      timestamp = candle.interval_start;
      close = candle.close;
      sma = when (ready && full) (sum' ⊘ decimal svc.fast_period);
      ema = when ready ema;
      fast_period = svc.fast_period;
      slow_period = svc.slow_period;
    } in
    (
      record svc {
        closes = insert symbol closes' svc.closes;
        sums = insert symbol sum' svc.sums;
        emas = insert symbol ema svc.emas;
        sample_counts = insert symbol samples svc.sample_counts;
        indicators =
            insert symbol
              (deque_append svc.indicator_history_size (get_or (lookup symbol svc.indicators) [])
                point)
              svc.indicators;
        relations = write_relation symbol (relation_of point.sma point.ema) svc.relations;
      },
      point,
    )

-- `_reset_symbol`
pub reset_symbol : StrategyService → Text → StrategyService
reset_symbol svc symbol = record svc {
  closes = erase symbol svc.closes;
  sums = erase symbol svc.sums;
  emas = erase symbol svc.emas;
  sample_counts = erase symbol svc.sample_counts;
  relations = erase symbol svc.relations;
  indicators = erase symbol svc.indicators;
}

pub calculate_each : StrategyService → List Candle → StrategyService
calculate_each svc [] = svc
calculate_each svc (c ∷ cs) = calculate_each (if c.is_final then (calculate svc c).0 else svc) cs

pub seed : StrategyService → Text → List Candle → StrategyService
seed svc symbol candles = calculate_each (reset_symbol svc symbol) candles

-- The crossover test on the relation before and after the candle.
pub action_of : Option ℤ → Option ℤ → Option SignalAction
action_of (some previous) (some relation) =
    if leb_ℤ previous (pos 0) && ltb_ℤ (pos 0) relation
    then some enter
    else if leb_ℤ (pos 0) previous && ltb_ℤ relation (pos 0)
    then some leave
    else none
action_of (some previous) none = none
action_of none relation = none

pub signal_at : Candle → IndicatorPoint → SignalAction → StrategyVariant → Signal
signal_at candle point action variant = record {
  symbol = candle.symbol;
  variant = variant;
  action = action;
  timestamp = candle.interval_end;
  price = candle.close;
  fast_value = get_or point.sma nought;
  slow_value = get_or point.ema nought;
}

-- One signal for each variant, in the order of `StrategyVariant`.
pub signals_of : Candle → IndicatorPoint → Option SignalAction → List Signal
signals_of candle point none = []
signals_of candle point (some action) =
    signal_at candle point action variant_a ∷ signal_at candle point action variant_b ∷ []

pub record_signal : StrategyService → Signal → StrategyService
record_signal svc s = record svc {
  signals = deque_append svc.signal_history_size svc.signals s;
  latest_signals = insert (s.symbol, s.variant) s svc.latest_signals;
}

pub record_signals : StrategyService → List Signal → StrategyService
record_signals svc [] = svc
record_signals svc (s ∷ ss) = record_signals (record_signal svc s) ss

-- The new state, the indicator point for its handler if the candle is final, and the signals.
pub process_candle :
    StrategyService → Candle → StrategyService × Option IndicatorPoint × List Signal
process_candle svc candle =
    if candle.is_final
    then (let previous = lookup candle.symbol svc.relations in
        let (svc', point) = calculate svc candle in
        let signals =
          signals_of candle point (action_of previous (relation_of point.sma point.ema)) in
        (record_signals svc' signals, some point, signals))
    else (svc, none, [])

-- The readers.
pub recent_indicators : StrategyService → Text → ℕ → List IndicatorPoint
recent_indicators svc symbol limit = elim (lookup (strip_upper symbol) svc.indicators) [
  | none ↦ []
  | some points ↦ last_slice limit points
]

pub has_symbol : Option Text → Text → Bool
has_symbol none symbol = true
has_symbol (some wanted) symbol = symbol == wanted

-- `symbol.strip().upper() if symbol else None`
pub wanted_symbol : Option Text → Option Text
wanted_symbol none = none
wanted_symbol (some []) = none
wanted_symbol (some (c ∷ s)) = some (strip_upper (c ∷ s))

pub recent_signals : StrategyService → Option Text → ℕ → List Signal
recent_signals svc symbol limit =
    last_slice limit (filter (λ s. has_symbol (wanted_symbol symbol) s.symbol) svc.signals)

pub relation : StrategyService → Text → Option ℤ
relation svc symbol = lookup (strip_upper symbol) svc.relations

pub latest_for : Text → Dict (Text × StrategyVariant) Signal → Dict StrategyVariant Signal
latest_for symbol [] = []
latest_for symbol (((s, v), signal) ∷ d) =
    if s == symbol then (v, signal) ∷ latest_for symbol d else latest_for symbol d

pub latest_signals_of : StrategyService → Text → Dict StrategyVariant Signal
latest_signals_of svc symbol = latest_for (strip_upper symbol) svc.latest_signals

pub drop_latest : Text → Dict (Text × StrategyVariant) Signal → Dict (Text × StrategyVariant) Signal
drop_latest symbol [] = []
drop_latest symbol ((k, signal) ∷ d) =
    if k.0 == symbol then drop_latest symbol d else (k, signal) ∷ drop_latest symbol d

pub remove_symbol : StrategyService → Text → StrategyService
remove_symbol svc symbol =
    let normalized = strip_upper symbol in
    let reset = reset_symbol svc normalized in
    record reset {
      indicators = erase normalized reset.indicators;
      latest_signals = drop_latest normalized reset.latest_signals;
    }
