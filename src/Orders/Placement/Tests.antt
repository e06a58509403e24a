-- ===== src/Orders/Placement/Tests.antt =====
-- Runs of `place_order` and of what it calls, and the theorems about them at these runs.
use mathlib.Core.Path.{subst}
use crypto_trading_system.Base.{[], ap, false, none, refl, some, sym, true, ◌*◌, ◌∙◌, ◌∷◌, ◌≡◌}
use crypto_trading_system.Base.Int.{pos, ◌+ℤ◌}
use crypto_trading_system.Base.Text.{
  codes, is_alnum, is_alnum_char, is_space, lstrip, strip, strip_upper, upper, upper_char,
}
use crypto_trading_system.Decimal.{
  Decimal, IsExact, decimal, nought, round_down, round_signed, ◌⊗◌, ◌⊘◌,
}
use crypto_trading_system.Exchange.{Order, Response, Rules, gtc, limit}
use crypto_trading_system.Exchange.Result.{Result, err, ok, order_error}
use crypto_trading_system.Models.Common.{OrderSide, buy, second, sell}
use crypto_trading_system.Orders.Normalization.{
  enforce_min_notional, floored, has_required, is_gtc, is_market, is_stop, known_time,
  minimum_notional, normalize_order, normalize_typed, quantity_lot, validate_filters,
  validate_notional, validate_price, validate_quantity, validate_required,
}
use crypto_trading_system.Orders.Placement.{OrderState, Settings, World, place_order, prepare}
use crypto_trading_system.Orders.Placement.Conserve.{Fits, Settles, place_order-Settles, taken}
use crypto_trading_system.Orders.Quantities.{floor_to, has_step}
use crypto_trading_system.Risk.{Demand, buy_required, demand, unit_price}
use crypto_trading_system.Risk.Ledger.{Represents, held}
use crypto_trading_system.Risk.Reserve.{FitsLedger}

abbrev settings : Settings
settings = record {
  max_consecutive_order_failures = 2;
  cooldown = 30;
  max_market_data_age = 5 * second;
  max_price_deviation_percent = decimal 5;
  reconciliation_attempts = 3;
}

-- Two and a half for ten each, on a grid of whole units.
abbrev raw_order : Order
raw_order = record {
  symbol = codes " btcusdt";
  side = some buy;
  order_type = some limit;
  quantity = some (pos 25000000000000000000000000000000000000000000000000000000000000000);
  quote_order_qty = none;
  price = some (decimal 10);
  stop_price = none;
  trailing_delta = none;
  iceberg_qty = none;
  time_in_force = some gtc;
  new_client_order_id = some (codes "c");
}

abbrev normal_order : Order
normal_order = record raw_order { symbol = codes "BTCUSDT"; quantity = some (decimal 2) }

abbrev rules : Rules
rules = record {
  base_asset = some (codes "BTC");
  quote_asset = some (codes "USDT");
  lot_size = some (record {
    step_size = some (decimal 1);
    min_qty = some (decimal 1);
    max_qty = some (decimal 100);
  });
  market_lot_size = none;
  price_filter = none;
  notional = some (some (decimal 5));
  min_notional = none;
}

normalizes : normalize_order (ok rules) raw_order ≡ ok normal_order
unfolding normalize_order normalize_typed validate_required has_required is_market is_stop
    known_time is_gtc validate_filters validate_quantity validate_price validate_notional
    minimum_notional floored floor_to quantity_lot has_step strip_upper strip lstrip upper
    upper_char is_space is_alnum is_alnum_char round_down ◌⊘◌ ◌⊗◌
normalizes = refl

abbrev timeout : Result Response
timeout = err (order_error 502 true)

abbrev live_answer : Response
live_answer = record {
  order_id = some 7;
  client_order_id = some (codes "c");
  status = some (codes "NEW");
  side = some buy;
  price = some (decimal 10);
  executed_qty = none;
  orig_qty = some (decimal 2);
  quote_qty = none;
}

-- The request times out and the second query finds the order live.
abbrev world : World
world = record {
  start = 0;
  failed_at = 1;
  now = 0;
  user = some 1;
  rules = ok rules;
  account = ok ((codes "USDT", some (decimal 50)) ∷ []);
  price = ok (decimal 10);
  live_tick = none;
  answer = some timeout;
  queries = err (order_error 502 true) ∷ ok live_answer ∷ [];
  reservation_id = codes "a";
  row_saved = true;
}

abbrev idle : OrderState
idle = record {
  engine = record {
    maximum = decimal 100;
    maximum_order_notional = none;
    reserved = [];
    uncertain = [];
    repository = none;
  };
  consecutive_order_failures = 1;
  circuit_open_until = 0;
  risk_rejections = 0;
  reconciliations = 0;
  recorded = [];
}

empty-Represents : Represents idle.engine []
unfolding held
empty-Represents = record { amounts = λ k. refl; positive = tt }

abbrev required_of : Result Demand → Decimal
required_of (ok d) = d.required
required_of (err e) = nought

abbrev order_of : Result (Order × Rules) → Order × Rules
order_of (ok p) = p
order_of (err e) = (normal_order, rules)

prepares : prepare world raw_order ≡ ok (normal_order, rules)
unfolding prepare enforce_min_notional
prepares = rw normalizes refl

amount-IsExact :
    (side : OrderSide) (d : Demand)
    → demand side normal_order rules (ok (decimal 10)) ≡ ok d
    → IsExact (pos 0 +ℤ d.required)
unfolding demand buy_required unit_price ◌⊗◌ round_signed ◌+ℤ◌
amount-IsExact buy d e =
    let r : required_of (demand buy normal_order rules (ok (decimal 10))) ≡ d.required =
      ap required_of e in
    rw (← r) refl
amount-IsExact sell d e =
    let r : required_of (demand sell normal_order rules (ok (decimal 10))) ≡ d.required =
      ap required_of e in
    rw (← r) refl

normal-FitsLedger :
    FitsLedger idle.engine
      (some 1)
      normal_order
      rules
      world.account
      world.price
      true
      (codes "a")
      true
      []
unfolding held round_signed
normal-FitsLedger = record { sum = amount-IsExact; held_now = λ asset. refl }

all-Fits : Fits world false raw_order [] idle.engine
all-Fits o r e =
    let same : (normal_order, rules) ≡ (o, r) = ap order_of (sym prepares ∙ e) in
    subst
      (λ (p : Order × Rules).
        FitsLedger idle.engine (some 1) p.0 p.1 world.account world.price true (codes "a") true [])
      same normal-FitsLedger

place_order-Settles_example :
    Settles
      (place_order settings true false false world raw_order idle)
      world.answer
      (taken settings true false world raw_order idle)
      []
place_order-Settles_example =
    place_order-Settles settings true false world raw_order [] idle all-Fits empty-Represents
