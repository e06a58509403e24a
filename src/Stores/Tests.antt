-- ===== src/Stores/Tests.antt =====
-- Runs of the stores, and the theorems about them at these runs.
use crypto_trading_system.Base.{List, [], list_eq, nat_eq, option_eq, ℕ, ◌∷◌}
use crypto_trading_system.Base.Dict.{lookup}
use crypto_trading_system.Base.Text.{codes}
use crypto_trading_system.Decimal.{decimal}
use crypto_trading_system.Models.Market.{Tick}
use crypto_trading_system.Stores.Ticks.{AtMost, run_updates, run_updates-AtMost, time_of}

abbrev tick_at : ℕ → ℕ → Tick
tick_at t price = record {
  symbol = codes "BTC";
  price = decimal price;
  quantity = decimal 1;
  timestamp = t;
}

-- The second tick is older than the first.
abbrev out_of_order : List Tick
out_of_order = tick_at 5 10 ∷ tick_at 3 11 ∷ tick_at 6 12 ∷ []

run_updates-AtMost_example :
    AtMost (codes "BTC") (time_of (lookup (codes "BTC") (run_updates [] out_of_order))) out_of_order
run_updates-AtMost_example = run_updates-AtMost [] out_of_order (codes "BTC")
