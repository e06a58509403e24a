-- ===== src/Orders/Quantities.antt =====
-- services/order_service.py: quantities and prices on the grid of the symbol's filters.
use crypto_trading_system.Base.{
  Bool, Option, false, if◌then◌else◌, is_some, list_eq, nat_eq, none, not, option_eq, some, ◌&&◌,
  ◌==◌, ◌||◌,
}
use crypto_trading_system.Base.Dict.{get_or}
use crypto_trading_system.Base.Int.{int_eq, leb_ℤ, ltb_ℤ}
use crypto_trading_system.Base.Text.{Text, codes}
use crypto_trading_system.Decimal.{Decimal, min, nought, round_down, ◌⊗◌, ◌⊘◌}
use crypto_trading_system.Exchange.{Account, LotFilter, Response, Rules, free_balance}
use crypto_trading_system.Exchange.Result.{Result, err, ok, order_error, raise_if, ◌>>=◌, ◌>>◌}

-- `_floor`: a missing or zero increment leaves the value as it is.
unfoldable pub floor_to : Option Decimal → Decimal → Decimal
floor_to none value = value
floor_to (some step) value = if step == nought then value else round_down (value ⊘ step) ⊗ step

-- A filter that the symbol does not have is an empty dictionary.
abbrev pub no_lot : LotFilter
no_lot = record { step_size = none; min_qty = none; max_qty = none }

-- `stepSize not in {None, "0.00000000"}`: the exchange writes its numbers with eight decimals.
unfoldable pub has_step : LotFilter → Bool
has_step lot = is_some lot.step_size && not (lot.step_size == some nought)

-- The filter for the quantity of a market order.
pub market_lot : Rules → LotFilter
market_lot rules =
    if has_step (get_or rules.market_lot_size no_lot)
    then get_or rules.market_lot_size no_lot
    else get_or rules.lot_size no_lot

-- The amount on the grid, unless it is nothing or below the minimum.
pub accept_quantity : LotFilter → Decimal → Result Decimal
accept_quantity lot available =
    let normalized = floor_to lot.step_size available in
    if leb_ℤ normalized nought || ltb_ℤ normalized (get_or lot.min_qty nought)
    then err (order_error 422 false)
    else ok normalized

-- `_sellable_quantity`; the fallback for a missing base asset is the symbol without its "USDT".
pub sellable_quantity : Text → Result Rules → Result Account → Decimal → Result Decimal
sellable_quantity fallback_asset rules_loader account_loader requested = do
  rules ← rules_loader
  account ← account_loader
  let free = free_balance account (get_or rules.base_asset fallback_asset)
  accept_quantity (market_lot rules) (min requested free)

-- `_buyable_quantity`
pub buyable_quantity : Result Rules → Result Account → Result Decimal → Decimal → Result Decimal
buyable_quantity rules_loader account_loader price_loader requested = do
  rules ← rules_loader
  account ← account_loader
  let free_quote = free_balance account (get_or rules.quote_asset (codes "USDT"))
  price ← price_loader
  raise_if (leb_ℤ price nought) (order_error 503 false)
  accept_quantity (market_lot rules) (min requested (free_quote ⊘ price))

-- `_execution`: the quantity that was filled, and its price.
pub execution : Response → Decimal → Decimal × Decimal
execution response fallback =
    let quantity = get_or response.executed_qty nought in
    let quote = get_or response.quote_qty nought in
    (quantity, if ltb_ℤ nought quantity && ltb_ℤ nought quote then quote ⊘ quantity else fallback)
