-- ===== src/Positions/Exit.antt =====
-- What `_exit` writes to a position when its fill is known.
use crypto_trading_system.Base.{Bool-cases, Option, arith, inl, inr, true, ℕ, ◌≡◌, ◌≤◌}
use crypto_trading_system.Base.Int.{ltb_ℤ, ◌<ℤ◌}
use crypto_trading_system.Decimal.{Decimal, nought, ◌⊖◌}
use crypto_trading_system.Models.Common.{Timestamp}
use crypto_trading_system.Models.Strategy.{Position, position_accepts}
use crypto_trading_system.Positions.{exited}

-- The exit of a position that passes its validator is valid again, if the price is positive and
-- the exit is not before the entry: `model_validate` does not raise.
pub exited-accepts :
    (p : Position) (executed price : Decimal) (timestamp : Timestamp) (id : Option ℕ)
    → position_accepts p ≡ true
    → nought <ℤ price
    → p.opened_at ≤ timestamp
    → position_accepts (exited p executed price timestamp id) ≡ true
unfolding exited position_accepts
exited-accepts p executed price timestamp id a q t =
    elim (Bool-cases (ltb_ℤ nought (p.quantity ⊖ executed))) [
      | inl partial ↦ rw partial (rw partial (ground (arith, a, q, t, partial)))
      | inr whole ↦ rw whole (ground (arith, a, q, t, whole))
    ]
