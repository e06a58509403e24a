-- ===== src/Decimal/Rounding.antt =====
-- Rounding to 28 digits: the fuel of its loop is enough.
use crypto_trading_system.Base.{
  ap, arith, if◌then◌else◌, ltb, refl, suc, zero, ℕ, ◌*◌, ◌+◌, ◌<◌, ◌≡◌,
}
use crypto_trading_system.Decimal.{half_even, round_from, round_quot, significand_limit}

-- The exponents left to try suffice while they can still bring `n` below the limit.
reaches : (n a limit fuel : ℕ) → n < a * limit * (suc fuel + 1) → n < a * 10 * limit * (fuel + 1)
reaches n a limit fuel h = grind arith

reach10 :
    (d s limit fuel n : ℕ)
    → n < d * s * limit * (suc fuel + 1)
    → n < d * (s * 10) * limit * (fuel + 1)
reach10 d s limit fuel n h = grind (arith, reaches n (d * s) limit fuel h)

starts : (n d limit : ℕ) → 0 < d → 0 < limit → n < d * 1 * limit * (n + 1)
starts n d limit h k = grind arith

add_zero : (a : ℕ) → 0 + a ≡ a
add_zero a = omega arith

add_suc : (a b : ℕ) → suc a + b ≡ suc (a + b)
add_suc a b = omega arith

round_from-enough :
    (fuel extra n d s : ℕ)
    → n < d * s * significand_limit * (fuel + 1)
    → round_from (fuel + extra) n d s ≡ round_from fuel n d s
unfolding round_from
round_from-enough zero zero n d s h = refl
round_from-enough zero (suc extra) n d s h =
    rw (add_zero (suc extra))
      (let fits : n < d * s * significand_limit = grind (arith, h) in ground (arith, fits))
round_from-enough (suc fuel) extra n d s h =
    let rest = round_from-enough fuel extra n d (s * 10) (reach10 d s significand_limit fuel n h) in
    rw (add_suc fuel extra)
      (ap (λ r. if ltb n (d * s * significand_limit) then half_even n (d * s) * s else r) rest)

-- However much fuel the loop has beyond what `round_quot` gives it, it returns the same.
round_quot-enough : (extra n d : ℕ) → 0 < d → round_from (n + extra) n d 1 ≡ round_quot n d
unfolding round_quot
round_quot-enough extra n d h =
    round_from-enough n extra n d 1 (starts n d significand_limit h (ground arith))
