-- ===== src/Risk/Samples.antt =====
-- An engine, an order and an account for the tests.
use crypto_trading_system.Base.{[], ap, none, refl, some, true, ◌∷◌, ◌≡◌}
use crypto_trading_system.Base.Int.{pos, ◌+ℤ◌}
use crypto_trading_system.Base.Text.{Text, codes}
use crypto_trading_system.Decimal.{Decimal, IsExact, decimal, nought, round_signed, ◌⊖◌, ◌⊗◌, ◌⊘◌}
use crypto_trading_system.Exchange.{Account, Order, Rules, free_balance, gtc, limit}
use crypto_trading_system.Exchange.Result.{Result, err, ok}
use crypto_trading_system.Models.Common.{OrderSide, buy, sell}
use crypto_trading_system.Risk.{
  Demand, RiskEngine, RiskReservation, add_reservation, approve, buy_required, commit_reservation,
  demand, exceeds, is_over_utilized, new_reservation, reserve, reserve_for, reserve_side,
  unit_price,
}
use crypto_trading_system.Risk.Ledger.{Represents, held}
use crypto_trading_system.Risk.Reserve.{FitsLedger}

abbrev pub empty_engine : RiskEngine
empty_engine = record {
  maximum = decimal 100;
  maximum_order_notional = none;
  reserved = [];
  uncertain = [];
  repository = none;
}

-- Two for ten each.
abbrev pub buy_order : Order
buy_order = record {
  symbol = codes "BTCUSDT";
  side = some buy;
  order_type = some limit;
  quantity = some (decimal 2);
  quote_order_qty = none;
  price = some (decimal 10);
  stop_price = none;
  trailing_delta = none;
  iceberg_qty = none;
  time_in_force = some gtc;
  new_client_order_id = some (codes "c");
}

abbrev pub rules : Rules
rules = record {
  base_asset = some (codes "BTC");
  quote_asset = some (codes "USDT");
  lot_size = none;
  market_lot_size = none;
  price_filter = none;
  notional = none;
  min_notional = none;
}

abbrev pub account : Account
account = (codes "USDT", some (decimal 50)) ∷ []

abbrev pub reservation : Text → RiskReservation
reservation id = record {
  reservation_id = id;
  account_id = some 1;
  asset = codes "USDT";
  amount = decimal 20;
  client_order_id = codes "c";
  symbol = codes "BTCUSDT";
  side = buy;
}

-- The engine with two reservations of 20 outstanding.
abbrev pub two_held : RiskEngine
two_held =
    add_reservation (add_reservation empty_engine (reservation (codes "b")))
      (reservation (codes "a"))

pub granted :
    (reserve empty_engine
      (some 1)
      buy_order
      rules
      (ok account)
      (ok (decimal 10))
      true
      (codes "a")
      true).1
    ≡ ok (some (reservation (codes "a")))
unfolding reserve reserve_for reserve_side demand buy_required unit_price approve exceeds
    is_over_utilized commit_reservation new_reservation add_reservation ◌⊗◌ ◌⊖◌ free_balance ◌⊘◌
granted = refl

pub empty-Represents : Represents empty_engine []
unfolding held
empty-Represents = record { amounts = λ k. refl; positive = tt }

abbrev pub required_of : Result Demand → Decimal
required_of (ok d) = d.required
required_of (err e) = nought

pub required-IsExact :
    (side : OrderSide) (d : Demand)
    → demand side buy_order rules (ok (decimal 10)) ≡ ok d
    → IsExact (pos 0 +ℤ d.required)
unfolding demand buy_required unit_price ◌⊗◌ round_signed ◌+ℤ◌
required-IsExact buy d e =
    let r : required_of (demand buy buy_order rules (ok (decimal 10))) ≡ d.required =
      ap required_of e in
    rw (← r) refl
required-IsExact sell d e =
    let r : required_of (demand sell buy_order rules (ok (decimal 10))) ≡ d.required =
      ap required_of e in
    rw (← r) refl

pub fits :
    FitsLedger empty_engine
      (some 1)
      buy_order
      rules
      (ok account)
      (ok (decimal 10))
      true
      (codes "a")
      true
      []
unfolding held round_signed
fits = record { sum = required-IsExact; held_now = λ asset. refl }
