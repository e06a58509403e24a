-- ===== src/Models/Tests.antt =====
-- Runs of the model validators on concrete values.
use crypto_trading_system.Base.{none, refl, some, ◌≡◌}
use crypto_trading_system.Base.Text.{
  codes, is_alnum, is_alnum_char, is_space, lstrip, strip, strip_upper, upper, upper_char,
}
use crypto_trading_system.Models.Common.{normalize_symbol}

normalize_btc : normalize_symbol (codes " btcusdt ") ≡ some (codes "BTCUSDT")
unfolding normalize_symbol strip_upper upper upper_char strip lstrip is_space is_alnum is_alnum_char
normalize_btc = refl

normalize_slash : normalize_symbol (codes "btc/usdt") ≡ none
unfolding normalize_symbol strip_upper upper upper_char strip lstrip is_space is_alnum is_alnum_char
normalize_slash = refl
