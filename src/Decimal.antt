-- ===== src/Decimal.antt =====
-- Python's `decimal.Decimal`, as every service uses it for prices, quantities and balances.
-- A finite value is counted in quanta of 10^-64, so comparisons are exact, and an arithmetic
-- operation rounds its exact result half-even to the 28 significant digits of the default
-- context. `Decimal("NaN")` and the infinities are not values of the model.
pub mod Rounding
use crypto_trading_system.Base.{if◌then◌else◌, ltb, nat_beq, suc, zero, ℕ, ◌%◌, ◌*◌, ◌+◌, ◌/◌, ◌≡◌}
use crypto_trading_system.Base.Int.{ltb_ℤ, negsuc, pos, sub_ℕ, ℤ, ◌*ℤ◌, ◌+ℤ◌, ◌-ℤ◌}

-- `decimal.getcontext().prec`: a significand is below 10^28.
abbrev pub significand_limit : ℕ
significand_limit = 10000000000000000000000000000

-- The quanta in `Decimal(1)`.
abbrev pub one_unit : ℕ
one_unit = 10000000000000000000000000000000000000000000000000000000000000000

abbrev pub Decimal : Type 0
Decimal = ℤ

-- `Decimal(n)`.
abbrev pub decimal : ℕ → Decimal
decimal n = pos (n * one_unit)

abbrev pub nought : Decimal
nought = pos 0

-- n / d to the nearest whole number, ties to the even one.
half_even : ℕ → ℕ → ℕ
half_even n d =
    let q = n / d in
    let r = n % d in
    if ltb (2 * r) d
    then q
    else if ltb d (2 * r)
    then q + 1
    else if nat_beq (q % 2) 0
    then q
    else q + 1

-- n / d rounded to 28 significant digits: tries the exponents 10^0, 10^1, … from `s` on until the
-- significand fits.
round_from : ℕ → ℕ → ℕ → ℕ → ℕ
round_from zero n d s = half_even n (d * s) * s
round_from (suc fuel) n d s =
    let rest = round_from fuel n d (s * 10) in
    if ltb n (d * s * significand_limit) then half_even n (d * s) * s else rest

-- A quotient has at most as many digits as `n`, so `n` rounds are enough.
round_quot : ℕ → ℕ → ℕ
round_quot n d = round_from n n d 1

unfoldable pub round_signed : ℤ → ℕ → Decimal
unfolding round_quot round_from half_even
round_signed (pos n) d = pos (round_quot n d)
round_signed (negsuc n) d = sub_ℕ 0 (round_quot (suc n) d)

infixl 65 ◌⊕◌ ◌⊖◌
infixl 70 ◌⊗◌ ◌⊘◌
-- `a + b`
unfoldable pub ◌⊕◌ : Decimal → Decimal → Decimal
unfolding round_signed ◌+ℤ◌
a ⊕ b = round_signed (a +ℤ b) 1

-- `a - b`
unfoldable pub ◌⊖◌ : Decimal → Decimal → Decimal
unfolding round_signed ◌-ℤ◌
a ⊖ b = round_signed (a -ℤ b) 1

-- `a * b`
unfoldable pub ◌⊗◌ : Decimal → Decimal → Decimal
unfolding round_signed ◌*ℤ◌
a ⊗ b = round_signed (a *ℤ b) one_unit

-- `a / b`, for a divisor that is not zero: every call in the program is guarded.
unfoldable pub ◌⊘◌ : Decimal → Decimal → Decimal
unfolding round_signed ◌*ℤ◌
a ⊘ pos d = round_signed (a *ℤ pos one_unit) d
a ⊘ negsuc d = round_signed (pos 0 -ℤ a *ℤ pos one_unit) (suc d)

-- `a.to_integral_value(rounding=ROUND_DOWN)`: towards zero.
unfoldable pub round_down : Decimal → Decimal
round_down (pos n) = pos (n / one_unit * one_unit)
round_down (negsuc n) = sub_ℕ 0 (suc n / one_unit * one_unit)

unfoldable pub abs : Decimal → Decimal
abs (pos n) = pos n
abs (negsuc n) = pos (suc n)

-- `max(a, b)` and `min(a, b)`: the first one if neither is better.
abbrev pub max : Decimal → Decimal → Decimal
max a b = if ltb_ℤ a b then b else a

abbrev pub min : Decimal → Decimal → Decimal
min a b = if ltb_ℤ b a then b else a

-- An exact result is not changed by rounding.
abbrev pub IsExact : ℤ → Type 0
IsExact a = round_signed a 1 ≡ a
