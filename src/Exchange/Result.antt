-- ===== src/Exchange/Result.antt =====
-- Errors as values: `BinanceOrderError` and `PreTradeRiskError`, without their messages.
use crypto_trading_system.Base.{Bool, false, true, ℕ}
use crypto_trading_system.Models.Common.{second}

pub data RiskRefusal : Type 0 where
  not_calculable notional_exceeds nothing_unreserved insufficient_balance over_utilized :
      RiskRefusal
  no_live_tick stale_tick price_deviation_exceeds storage_failed : RiskRefusal

pub data Failure : Type 0 where
  order_error : (status_code : ℕ) (uncertain : Bool) → Failure
  risk_error : RiskRefusal → Failure

pub data Result {ℓ} (A : Type ℓ) : Type ℓ where
  ok : A → Result A
  err : Failure → Result A

-- What comes after a call that may raise: an error passes it by.
abbrev pub and_then {ℓ κ} : {A : Type ℓ} {B : Type κ} → (A → Result B) → Result A → Result B
and_then next (err raised) = err raised
and_then next (ok value) = next value

infixl 5 ◌>>=◌ ◌>>◌
abbrev pub ◌>>=◌ {ℓ κ} : {A : Type ℓ} {B : Type κ} → Result A → (A → Result B) → Result B
first >>= next = and_then next first

abbrev pub ◌>>◌ {ℓ} : {B : Type ℓ} → Result (Unit {0}) → Result B → Result B
first >> second = and_then (λ _. second) first

-- `if c: raise e`
abbrev pub raise_if : Bool → Failure → Result (Unit {0})
raise_if true e = err e
raise_if false e = ok tt

abbrev pub has_result {ℓ} : {A : Type ℓ} → Result A → Bool
has_result (ok a) = true
has_result (err e) = false
