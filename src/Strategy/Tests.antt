-- ===== src/Strategy/Tests.antt =====
-- Runs of the strategy, and the theorems about it at these runs.
use crypto_trading_system.Base.{
  List, [], arith, deque_append, false, list_eq, nat_eq, none, option_eq, refl, some, true, ℕ, ◌*◌,
  ◌++◌, ◌+◌, ◌↔◌, ◌∷◌, ◌≡◌, ◌≤◌,
}
use crypto_trading_system.Base.Dict.{get_or, lookup}
use crypto_trading_system.Base.Int.{◌+ℤ◌, ◌-ℤ◌}
use crypto_trading_system.Base.Text.{codes}
use crypto_trading_system.Decimal.{Decimal, decimal, round_signed, ◌⊕◌, ◌⊖◌, ◌⊗◌, ◌⊘◌}
use crypto_trading_system.Models.Common.{enter, leave, second}
use crypto_trading_system.Models.Market.{Candle}
use crypto_trading_system.Strategy.{
  StrategyService, action_of, alpha, calculate, calculate_each, compare, head_or_nought, next_ema,
  next_sum, process_candle, record_signal, record_signals, relation_of, reset_symbol, seed,
  signal_at, signals_of, when, write_relation,
}
use crypto_trading_system.Strategy.Crossover.{
  IsAbove, IsBelow, WasNotAbove, WasNotBelow, emits, enter_not_twice, process_candle-emits,
}
use crypto_trading_system.Strategy.Seed.{IsExactRun, calculate-sma, final_closes, seed-HasWindow}
use crypto_trading_system.Strategy.Window.{HasWindow, IsExactStep, last_n, total}

abbrev candle_at : ℕ → ℕ → Candle
candle_at t price = record {
  symbol = codes "BTC";
  interval_start = t * second;
  interval_end = (t + 60) * second;
  open_price = decimal price;
  high = decimal price;
  low = decimal price;
  close = decimal price;
  tick_count = 1;
  volume = none;
  is_final = true;
}

-- A fast window of two and a slow one of three samples.
abbrev fresh : StrategyService
fresh = record {
  fast_period = 2;
  slow_period = 3;
  indicator_history_size = 10;
  signal_history_size = 10;
  closes = [];
  sums = [];
  emas = [];
  sample_counts = [];
  relations = [];
  indicators = [];
  signals = [];
  latest_signals = [];
}

abbrev prices : List Candle
prices = candle_at 0 30 ∷ candle_at 60 20 ∷ candle_at 120 10 ∷ candle_at 180 60 ∷ []

abbrev seeded : StrategyService
seeded = seed fresh (codes "BTC") prices

-- The second close after the rise crosses over.
rise_enters : emits enter (process_candle seeded (candle_at 240 60)).2 ≡ true
unfolding seed reset_symbol deque_append ◌⊕◌ ◌⊖◌ ◌⊗◌ ◌⊘◌ ◌-ℤ◌ calculate_each calculate
    process_candle alpha compare head_or_nought next_sum next_ema relation_of write_relation when
    action_of signal_at signals_of record_signal record_signals
rise_enters = refl

process_candle-emits_example :
    ((emits enter (process_candle seeded (candle_at 240 60)).2 ≡ true)
      ↔ (WasNotAbove seeded (codes "BTC") × IsAbove (calculate seeded (candle_at 240 60)).1))
    × ((emits leave (process_candle seeded (candle_at 240 60)).2 ≡ true)
        ↔ (WasNotBelow seeded (codes "BTC") × IsBelow (calculate seeded (candle_at 240 60)).1))
process_candle-emits_example = process_candle-emits seeded (candle_at 240 60) refl

enter_not_twice_example :
    emits enter (process_candle (process_candle seeded (candle_at 240 60)).0 (candle_at 300 90)).2
    ≡ false
enter_not_twice_example =
    enter_not_twice seeded (candle_at 240 60) (candle_at 300 90) refl refl refl rise_enters

prices_exact : IsExactRun 2 [] (final_closes prices)
unfolding final_closes round_signed total last_n ◌-ℤ◌ head_or_nought deque_append ◌+ℤ◌
prices_exact = (
  record { taken_off = refl; put_on = refl },
  (
    record { taken_off = refl; put_on = refl },
    (record { taken_off = refl; put_on = refl }, (record { taken_off = refl; put_on = refl }, tt)),
  ),
)

seed-HasWindow_example :
    HasWindow (seed fresh (codes "BTC") prices) (codes "BTC") (final_closes prices)
seed-HasWindow_example =
    seed-HasWindow fresh (codes "BTC") prices (omega arith) (refl, (refl, (refl, (refl, tt))))
      prices_exact

step_exact : IsExactStep 2 (last_n 2 (final_closes prices)) (decimal 60)
unfolding final_closes round_signed total last_n ◌-ℤ◌ head_or_nought deque_append ◌+ℤ◌
step_exact = record { taken_off = refl; put_on = refl }

abbrev sixty : Decimal
sixty = decimal 60

reports_sixty : (calculate seeded (candle_at 240 60)).1.sma ≡ some sixty
unfolding seed reset_symbol calculate_each calculate alpha head_or_nought next_sum next_ema
    relation_of write_relation when deque_append ◌⊕◌ ◌⊖◌ ◌⊗◌ ◌⊘◌ compare ◌-ℤ◌
reports_sixty = refl

seeded-HasWindow : HasWindow seeded (codes "BTC") (final_closes prices)
seeded-HasWindow =
    seed-HasWindow fresh (codes "BTC") prices (omega arith) (refl, (refl, (refl, (refl, tt))))
      prices_exact

calculate-sma_example :
    (sixty ≡ total (last_n 2 (final_closes prices ++ decimal 60 ∷ [])) ⊘ decimal 2)
    × (3 ≤ get_or (lookup (codes "BTC") seeded.sample_counts) 0 + 1)
unfolding seed reset_symbol calculate_each calculate
calculate-sma_example =
    calculate-sma seeded (codes "BTC") (final_closes prices) (candle_at 240 60) sixty (omega arith)
      refl step_exact seeded-HasWindow reports_sixty
