-- ===== src/Database/Instants.antt =====
-- services/db_handler.py, `_now`: instants as texts, `isoformat` with `Z`, and the order in which the
-- database compares them. The fraction has six digits, and is left out when it is zero; `.` comes
-- before `Z`, so a whole second comes behind the fractions of it.
use crypto_trading_system.Base.{
  Bool, arith, false, if◌then◌else◌, list_eq, ltb, nat_eq, option_eq, true, ℕ, ◌%◌, ◌*◌, ◌+◌, ◌/◌,
  ◌<◌, ◌==◌, ◌≡◌, ◌≤◌,
}
use crypto_trading_system.Models.Common.{Timestamp, second}

-- Where the text of an instant stands among the texts of the years 1000 to 9999.
abbrev pub text_rank : Timestamp → ℕ
text_rank t = t / second * (second + 1) + (if t % second == 0 then second else t % second)

-- `a < b` of the texts.
abbrev pub text_before : Timestamp → Timestamp → Bool
text_before a b = ltb (text_rank a) (text_rank b)

-- The texts of instants in different seconds stand as the instants do, and so do those of one second
-- unless one of the two is the whole second, which then comes last.
pub text_before-other_second : (a b : Timestamp) → a / second < b / second → text_before a b ≡ true
text_before-other_second a b h = ground arith

pub text_before-fractions :
    (a b : Timestamp) → 0 < a % second → 0 < b % second → text_before a b ≡ ltb a b
text_before-fractions a b h k = ground arith

-- An instant is not before one that is a second earlier.
pub not_before : (a b : Timestamp) → b + second ≤ a → text_before a b ≡ false
not_before a b h = ground (arith, h)
