-- ===== src/Orders/Normalization.antt =====
-- services/order_service.py: `_normalize_order` with `_validate_required` and `_validate_filters`,
-- and `_enforce_min_notional`. The side and the type of an order are read without case, and a text
-- that names none is `none`.
use crypto_trading_system.Base.{
  Bool, Option, false, if◌then◌else◌, is_some, list_eq, nat_eq, none, not, option_eq, option_map,
  some, true, ◌&&◌, ◌==◌, ◌||◌,
}
use crypto_trading_system.Base.Dict.{get_or}
use crypto_trading_system.Base.Int.{int_eq, leb_ℤ, ltb_ℤ}
use crypto_trading_system.Base.Text.{is_alnum, strip_upper}
use crypto_trading_system.Decimal.{Decimal, nought, ◌⊗◌}
use crypto_trading_system.Exchange.{
  LotFilter, NotionalFilter, Order, OrderType, PriceFilter, Rules, TimeInForce, fok, gtc, ioc,
  limit, limit_maker, market, other_time, stop_loss, stop_loss_limit, take_profit,
  take_profit_limit,
}
use crypto_trading_system.Exchange.Result.{
  Failure, Result, err, ok, order_error, raise_if, ◌>>=◌, ◌>>◌,
}
use crypto_trading_system.Orders.Quantities.{floor_to, has_step, no_lot}

unfoldable pub is_market : OrderType → Bool
is_market market = true
is_market limit = false
is_market stop_loss = false
is_market stop_loss_limit = false
is_market take_profit = false
is_market take_profit_limit = false
is_market limit_maker = false

-- The parameters that the type requires are there.
unfoldable pub has_required : OrderType → Order → Bool
has_required market order = true
has_required limit order =
    is_some order.time_in_force && (is_some order.quantity && is_some order.price)
has_required stop_loss order = is_some order.quantity
has_required stop_loss_limit order =
    is_some order.time_in_force && (is_some order.quantity && is_some order.price)
has_required take_profit order = is_some order.quantity
has_required take_profit_limit order =
    is_some order.time_in_force && (is_some order.quantity && is_some order.price)
has_required limit_maker order = is_some order.quantity && is_some order.price

-- An order of one of the four stop types.
unfoldable pub is_stop : OrderType → Bool
is_stop market = false
is_stop limit = false
is_stop stop_loss = true
is_stop stop_loss_limit = true
is_stop take_profit = true
is_stop take_profit_limit = true
is_stop limit_maker = false

unfoldable pub known_time : Option TimeInForce → Bool
known_time none = true
known_time (some gtc) = true
known_time (some ioc) = true
known_time (some fok) = true
known_time (some other_time) = false

unfoldable pub is_gtc : Option TimeInForce → Bool
is_gtc none = false
is_gtc (some gtc) = true
is_gtc (some ioc) = false
is_gtc (some fok) = false
is_gtc (some other_time) = false

-- `a == b` of two tests.
abbrev pub both_or_neither : Bool → Bool → Bool
both_or_neither a b = if a then b else not b

abbrev pub invalid : Failure
invalid = order_error 422 false

-- `_validate_required`
unfoldable pub validate_required : OrderType → Order → Result (Unit {0})
validate_required t order = do
  raise_if (not (has_required t order)) invalid
  raise_if (is_market t && both_or_neither (is_some order.quantity) (is_some order.quote_order_qty))
      invalid
  raise_if (is_stop t && (not (is_some order.stop_price) && not (is_some order.trailing_delta)))
      invalid
  raise_if (not (known_time order.time_in_force)) invalid
  raise_if (is_some order.iceberg_qty && not (is_gtc order.time_in_force)) invalid

-- The filter for the quantity of an order.
unfoldable pub quantity_lot : OrderType → Rules → LotFilter
quantity_lot t rules =
    if is_market t && has_step (get_or rules.market_lot_size no_lot)
    then get_or rules.market_lot_size no_lot
    else get_or rules.lot_size no_lot

abbrev pub no_price_filter : PriceFilter
no_price_filter = record { tick_size = none; min_price = none }

abbrev pub or_else : Option NotionalFilter → Option NotionalFilter → Option NotionalFilter
or_else none other = other
or_else (some f) other = some f

-- `rules.get("NOTIONAL") or rules.get("MIN_NOTIONAL") or {}`, and its minimum.
unfoldable pub minimum_notional : Rules → Decimal
minimum_notional rules = get_or (get_or (or_else rules.notional rules.min_notional) none) nought

unfoldable pub validate_quantity : LotFilter → Option Decimal → Result (Unit {0})
validate_quantity lot none = ok tt
validate_quantity lot (some quantity) = do
  raise_if (leb_ℤ quantity nought || ltb_ℤ quantity (get_or lot.min_qty nought)) invalid
  let maximum = get_or lot.max_qty nought
  raise_if (not (maximum == nought) && ltb_ℤ maximum quantity) invalid

unfoldable pub validate_price : PriceFilter → Option Decimal → Result (Unit {0})
validate_price rule none = ok tt
validate_price rule (some price) =
    raise_if (leb_ℤ price nought || ltb_ℤ price (get_or rule.min_price nought)) invalid

unfoldable pub validate_notional : Decimal → Option Decimal → Option Decimal → Result (Unit {0})
validate_notional minimum none price = ok tt
validate_notional minimum (some quantity) none = ok tt
validate_notional minimum (some quantity) (some price) =
    raise_if (ltb_ℤ (quantity ⊗ price) minimum) invalid

-- `_validate_filters`
unfoldable pub validate_filters : OrderType → Order → Rules → Result (Unit {0})
validate_filters t order rules = do
  validate_quantity (quantity_lot t rules) order.quantity
  validate_price (get_or rules.price_filter no_price_filter) order.price
  validate_notional (minimum_notional rules) order.quantity order.price

-- The four fields on the grid of their filters.
unfoldable pub floored : OrderType → Rules → Order → Order
floored t rules order = record order {
  quantity = option_map (floor_to (quantity_lot t rules).step_size) order.quantity;
  iceberg_qty = option_map (floor_to (get_or rules.lot_size no_lot).step_size) order.iceberg_qty;
  price = option_map (floor_to (get_or rules.price_filter no_price_filter).tick_size) order.price;
  stop_price =
      option_map (floor_to (get_or rules.price_filter no_price_filter).tick_size) order.stop_price;
}

-- `_normalize_order` behind the test on the type.
unfoldable pub normalize_typed : Option OrderType → Result Rules → Order → Result Order
normalize_typed none rules_loader order = err invalid
normalize_typed (some t) rules_loader order = do
  raise_if (not (is_alnum order.symbol) || not (is_some order.side)) invalid
  validate_required t order
  rules ← rules_loader
  validate_filters t (floored t rules order) rules
  ok (floored t rules order)

-- `_normalize_order`
unfoldable pub normalize_order : Result Rules → Order → Result Order
normalize_order rules_loader order =
    normalize_typed order.order_type rules_loader
      (record order { symbol = strip_upper order.symbol })

-- The value of an order without a price.
pub notional_of : Order → Result Decimal → Option (Result Decimal)
notional_of order price_loader = elim order.quote_order_qty [
  | some quote ↦ some (ok quote)
  | none ↦ elim order.quantity [
    | some quantity ↦ some (price_loader >>= λ price. ok (quantity ⊗ price))
    | none ↦ none
  ]
]

pub check_notional : Decimal → Option (Result Decimal) → Result (Unit {0})
check_notional minimum none = ok tt
check_notional minimum (some loaded) = do
  notional ← loaded
  raise_if (ltb_ℤ notional minimum) invalid

-- `_enforce_min_notional`
unfoldable pub enforce_min_notional : Order → Rules → Result Decimal → Result (Unit {0})
enforce_min_notional order rules price_loader =
    if is_some order.price && is_some order.quantity
    then ok tt
    else if leb_ℤ (minimum_notional rules) nought
    then ok tt
    else check_notional (minimum_notional rules) (notional_of order price_loader)
