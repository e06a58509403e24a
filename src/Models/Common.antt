-- ===== src/Models/Common.antt =====
-- models/common.py: the enumerations and `normalize_symbol`.
-- Microseconds since 1970 in UTC: an aware `datetime` after `require_utc`.
use crypto_trading_system.Base.{
  Bool, Eq, Option, arith, false, if◌then◌else◌, none, some, true, ℕ, ◌↔◌, ◌≡◌,
}
use crypto_trading_system.Base.Text.{Text, is_alnum, strip_upper}

abbrev pub Timestamp : Type 0
Timestamp = ℕ

abbrev pub second : ℕ
second = 1000000

pub data OrderSide : Type 0 where
  buy sell : OrderSide

pub data StrategyVariant : Type 0 where
  variant_a variant_b : StrategyVariant

pub data SignalAction : Type 0 where
  enter leave : SignalAction

pub data PositionStatus : Type 0 where
  open_status closed_status : PositionStatus

pub data TradeStatus : Type 0 where
  pending filled partially_filled rejected canceled : TradeStatus

pub data ExitReason : Type 0 where
  signal_reason stop_loss_reason take_profit_reason manual_reason : ExitReason

abbrev pub variant_beq : StrategyVariant → StrategyVariant → Bool
variant_beq variant_a variant_a = true
variant_beq variant_b variant_b = true
variant_beq _ _ = false

pub variant_beq_iff : (a b : StrategyVariant) → (variant_beq a b ≡ true) ↔ (a ≡ b)
variant_beq_iff variant_a variant_a = ground arith
variant_beq_iff variant_a variant_b = ground arith
variant_beq_iff variant_b variant_a = ground arith
variant_beq_iff variant_b variant_b = ground arith

instance abbrev pub variant_eq : Eq StrategyVariant
variant_eq = record { beq = variant_beq; beq_iff = variant_beq_iff }

-- `status is PositionStatus.OPEN`
abbrev pub is_open : PositionStatus → Bool
is_open open_status = true
is_open closed_status = false

-- `none` is the `ValueError`. The argument is a text, so the type check has passed.
unfoldable pub normalize_symbol : Text → Option Text
normalize_symbol value =
    let symbol = strip_upper value in if is_alnum symbol then some symbol else none
