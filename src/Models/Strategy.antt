-- ===== src/Models/Strategy.antt =====
-- models/strategy.py: signals, indicator points and positions.
use crypto_trading_system.Base.{Bool, List, Option, false, leb, none, some, true, ℕ, ◌&&◌, ◌≡◌, ◌≤◌}
use crypto_trading_system.Base.Int.{ltb_ℤ, ◌<ℤ◌}
use crypto_trading_system.Base.Text.{Text}
use crypto_trading_system.Decimal.{Decimal, nought}
use crypto_trading_system.Models.Common.{
  PositionStatus, SignalAction, StrategyVariant, Timestamp, closed_status, open_status,
}

-- The text `reason` of a signal is left out.
pub record Signal : Type 0 where
  pub symbol : Text
  pub variant : StrategyVariant
  pub action : SignalAction
  pub timestamp : Timestamp
  pub price : Decimal
  pub fast_value : Decimal
  pub slow_value : Decimal

pub record IndicatorPoint : Type 0 where
  pub symbol : Text
  pub timestamp : Timestamp
  pub close : Decimal
  pub sma : Option Decimal
  pub ema : Option Decimal
  pub fast_period : ℕ
  pub slow_period : ℕ

pub record Position : Type 0 where
  pub symbol : Text
  pub variant : StrategyVariant
  pub status : PositionStatus
  pub quantity : Decimal
  pub entry_price : Decimal
  pub current_price : Decimal
  pub current_pnl : Decimal
  pub stop_loss_price : Decimal
  pub take_profit_price : Decimal
  pub opened_at : Timestamp
  pub closed_at : Option Timestamp
  pub entry_order_id : Option ℕ
  pub stop_loss_order_id : Option ℕ
  pub take_profit_order_id : Option ℕ
  pub exit_order_ids : List ℕ

closed_at_accepts : PositionStatus → Option Timestamp → Timestamp → Bool
closed_at_accepts open_status none opened = true
closed_at_accepts open_status (some closed) opened = false
closed_at_accepts closed_status none opened = false
closed_at_accepts closed_status (some closed) opened = leb opened closed

-- The field constraints, then the checks of `Position.validate_position`.
unfoldable pub position_accepts : Position → Bool
unfolding closed_at_accepts
position_accepts p =
    (ltb_ℤ nought p.quantity
      && (ltb_ℤ nought p.entry_price
          && (ltb_ℤ nought p.current_price
              && (ltb_ℤ nought p.stop_loss_price && ltb_ℤ nought p.take_profit_price))))
    && (ltb_ℤ p.stop_loss_price p.entry_price
        && (ltb_ℤ p.entry_price p.take_profit_price
            && closed_at_accepts p.status p.closed_at p.opened_at))

-- The reading of a position that has passed the validator.
pub record IsConsistent (p : Position) : Type 0 where
  pub quantity_pos : nought <ℤ p.quantity
  pub stop_below : p.stop_loss_price <ℤ p.entry_price
  pub target_above : p.entry_price <ℤ p.take_profit_price
  pub stop_pos : nought <ℤ p.stop_loss_price
  pub open_not_closed : p.status ≡ open_status → p.closed_at ≡ none
  pub closed_after :
      p.status ≡ closed_status → (t : Timestamp) × (p.closed_at ≡ some t) × (p.opened_at ≤ t)
