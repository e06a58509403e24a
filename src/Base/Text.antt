-- ===== src/Base/Text.antt =====
-- Texts as lists of ASCII code points, with the `str` methods that the program calls on symbols.
use Prim.Native.Nat.{ℕ, ◌-◌}
use Prim.Native.Char.{code}
use Prim.Native.String.{String}
use mathlib.Core.Bool.{Bool, false, ◌&&◌, ◌||◌}
use mathlib.Core.List.{List, [], ◌∷◌, map, reverse}
use crypto_trading_system.Base.Bools.{leb, if◌then◌else◌}
use crypto_trading_system.Base.Lists.{all}

abbrev pub Text : Type 0
Text = List ℕ

-- The code points of a literal.
abbrev pub codes : String → Text
codes String.[] = []
codes (String.◌∷◌ c s) = code c ∷ codes s

-- ASCII white space, as `str.strip` removes it.
unfoldable pub is_space : ℕ → Bool
is_space c = (leb 9 c && leb c 13) || (leb 28 c && leb c 32)

unfoldable pub upper_char : ℕ → ℕ
upper_char c = if leb b'a' c && leb c b'z' then c - 32 else c

unfoldable pub is_alnum_char : ℕ → Bool
is_alnum_char c =
    (leb b'0' c && leb c b'9') || ((leb b'A' c && leb c b'Z') || (leb b'a' c && leb c b'z'))

unfoldable pub lstrip : Text → Text
lstrip [] = []
lstrip (c ∷ s) = if is_space c then lstrip s else c ∷ s

unfoldable pub strip : Text → Text
strip s = reverse (lstrip (reverse (lstrip s)))

unfoldable pub upper : Text → Text
upper = map upper_char

-- `str.isalnum()`: false of the empty text.
unfoldable pub is_alnum : Text → Bool
is_alnum [] = false
is_alnum (c ∷ s) = is_alnum_char c && all is_alnum_char s

-- `symbol.strip().upper()`
unfoldable pub strip_upper : Text → Text
strip_upper s = upper (strip s)
