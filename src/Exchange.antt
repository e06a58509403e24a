-- ===== src/Exchange.antt =====
-- What the services exchange with Binance and hand to one another: orders, symbol rules, account
-- balances, answers and errors. The exchange's JSON objects are records of the fields that the
-- code reads, a missing key is `none`, and a number in a text is its value.
pub mod Result
use crypto_trading_system.Base.{
  List, Option, [], if◌then◌else◌, list_eq, nat_eq, option_eq, ℕ, ◌==◌, ◌∷◌,
}
use crypto_trading_system.Base.Dict.{get_or}
use crypto_trading_system.Base.Text.{Text}
use crypto_trading_system.Decimal.{Decimal, nought}
use crypto_trading_system.Models.Common.{OrderSide}

-- services/order_service.py, `ORDER_TYPES`.
pub data OrderType : Type 0 where
  market limit stop_loss stop_loss_limit take_profit take_profit_limit limit_maker : OrderType

-- `TIME_IN_FORCE`; `other_time` is any other text.
pub data TimeInForce : Type 0 where
  gtc ioc fok other_time : TimeInForce

-- The parameters of an order, after `_audit` is taken out.
pub record Order : Type 0 where
  pub symbol : Text
  pub side : Option OrderSide
  pub order_type : Option OrderType
  pub quantity : Option Decimal
  pub quote_order_qty : Option Decimal
  pub price : Option Decimal
  pub stop_price : Option Decimal
  pub trailing_delta : Option Decimal
  pub iceberg_qty : Option Decimal
  pub time_in_force : Option TimeInForce
  pub new_client_order_id : Option Text

-- The `LOT_SIZE` and `MARKET_LOT_SIZE` filters.
pub record LotFilter : Type 0 where
  pub step_size : Option Decimal
  pub min_qty : Option Decimal
  pub max_qty : Option Decimal

pub record PriceFilter : Type 0 where
  pub tick_size : Option Decimal
  pub min_price : Option Decimal

-- The `NOTIONAL` and `MIN_NOTIONAL` filters: `minNotional`.
abbrev pub NotionalFilter : Type 0
NotionalFilter = Option Decimal

-- An entry of `_symbol_rules`.
pub record Rules : Type 0 where
  pub base_asset : Option Text
  pub quote_asset : Option Text
  pub lot_size : Option LotFilter
  pub market_lot_size : Option LotFilter
  pub price_filter : Option PriceFilter
  pub notional : Option NotionalFilter
  pub min_notional : Option NotionalFilter

-- `account["balances"]`: the asset and its free amount, in the exchange's order.
abbrev pub Account : Type 0
Account = List (Text × Option Decimal)

-- `next((item for item in balances if item.get("asset") == asset), None)`, and its free amount.
unfoldable pub free_balance : Account → Text → Decimal
free_balance [] asset = nought
free_balance ((name, free) ∷ items) asset =
    if name == asset then get_or free nought else free_balance items asset

-- An order as the exchange reports it.
pub record Response : Type 0 where
  pub order_id : Option ℕ
  pub client_order_id : Option Text
  pub status : Option Text
  pub side : Option OrderSide
  pub price : Option Decimal
  pub executed_qty : Option Decimal
  pub orig_qty : Option Decimal
  pub quote_qty : Option Decimal
