-- ===== src/Models/Trade.antt =====
-- models/trade.py: the audit record of an order.
use crypto_trading_system.Base.{Bool, Option, [], false, none, some, true, ◌&&◌, ◌∷◌}
use crypto_trading_system.Base.Int.{ltb_ℤ}
use crypto_trading_system.Base.Text.{Text, strip}
use crypto_trading_system.Decimal.{Decimal, nought}
use crypto_trading_system.Models.Common.{
  ExitReason, OrderSide, StrategyVariant, Timestamp, TradeStatus, buy, filled, sell,
}

pub record Trade : Type 0 where
  pub timestamp : Timestamp
  pub symbol : Text
  pub side : OrderSide
  pub quantity : Decimal
  pub price : Option Decimal
  pub binance_order_id : Option Text
  pub client_order_id : Text
  pub strategy_variant : StrategyVariant
  pub status : TradeStatus
  pub exit_reason : Option ExitReason

has_text : Text → Bool
has_text [] = false
has_text (c ∷ s) = true

price_accepts : TradeStatus → Option Decimal → Bool
price_accepts filled none = false
price_accepts _ none = true
price_accepts _ (some p) = ltb_ℤ nought p

reason_accepts : OrderSide → Option ExitReason → Bool
reason_accepts buy (some r) = false
reason_accepts buy none = true
reason_accepts sell _ = true

-- The field constraints and the checks of `Trade.validate_trade`.
unfoldable pub trade_accepts : Trade → Bool
unfolding has_text price_accepts reason_accepts
trade_accepts t =
    ltb_ℤ nought t.quantity
    && (has_text (strip t.client_order_id)
        && (price_accepts t.status t.price && reason_accepts t.side t.exit_reason))
