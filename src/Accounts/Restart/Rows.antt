-- ===== src/Accounts/Restart/Rows.antt =====
-- Which rows of the strategy symbols a new process reads as running.
use crypto_trading_system.Base.{
  Bool, Bool-cases, Option, [], ap, arith, false, if◌then◌else◌, inl, inr, list_eq, ltb, nat_eq,
  none, option_eq, refl, some, sym, true, ℕ, ◌%◌, ◌&&◌, ◌==◌, ◌∙◌, ◌∷◌, ◌≡◌,
}
use crypto_trading_system.Base.Dict.{Dict, HasUniqueKeys, lookup, mem}
use crypto_trading_system.Base.Text.{Text}
use crypto_trading_system.Database.{SymbolSetting}
use crypto_trading_system.Database.Instants.{text_before}
use crypto_trading_system.Database.Strategies.{automated, is_after, symbols_of}
use crypto_trading_system.Exchange.Result.{Result, err, ok}
use crypto_trading_system.Models.Common.{Timestamp, second}
use crypto_trading_system.Orders.Sessions.{
  SessionBook, connect_user, is_before, user_symbol_beq_iff, user_symbol_eq,
}

-- The first row of a symbol among those of an account is the row of its key.
pub lookup-symbols_of :
    (user : ℕ) (symbol : Text) (d : Dict (ℕ × Text) SymbolSetting)
    → lookup symbol (symbols_of user d) ≡ lookup (user, symbol) d
unfolding symbols_of
lookup-symbols_of user symbol [] = refl
lookup-symbols_of user symbol (((owner, item_symbol), setting) ∷ d) =
    elim (Bool-cases (owner == user)) [
      | inl same ↦ rw same (rw (lookup-symbols_of user symbol d) refl)
      | inr other ↦ rw other (lookup-symbols_of user symbol d)
    ]

mem-automated-none :
    (now : Timestamp) (key : ℕ × Text) (d : Dict (ℕ × Text) SymbolSetting)
    → lookup key d ≡ none
    → mem key (automated now d) ≡ false
unfolding automated
mem-automated-none now key [] h = refl
mem-automated-none now key ((k, setting) ∷ d) h = elim (Bool-cases (k == key)) [
  | inl same ↦ absurd (ground (arith, same, h))
  | inr other ↦ ground (arith, other, h, mem-automated-none now key d (rw other at h))
]

-- The time until which a row lets the strategy run, if it is not over.
abbrev pub running : Timestamp → Option SymbolSetting → Option Timestamp
running now none = none
running now (some setting) =
    if setting.enabled && is_before now setting.expires_at then setting.expires_at else none

-- The database compares texts; an end at a whole second stands behind all times before it.
pub text_before-whole :
    (now t : Timestamp) → t % second ≡ 0 → ltb now t ≡ true → text_before now t ≡ true
text_before-whole now t h k = ground arith

-- What `set_strategy_enabled` writes are whole seconds.
abbrev pub is_whole : Option Timestamp → Bool
is_whole none = true
is_whole (some t) = t % second == 0

unfoldable pub chosen : Timestamp → Option SymbolSetting → Bool
chosen now none = false
chosen now (some setting) = setting.enabled && is_after now setting.expires_at

pub mem-automated :
    (now : Timestamp) (key : ℕ × Text) (d : Dict (ℕ × Text) SymbolSetting)
    → HasUniqueKeys d
    → mem key (automated now d) ≡ chosen now (lookup key d)
unfolding automated chosen
mem-automated now key [] u = refl
mem-automated now key ((k, setting) ∷ d) u = elim (Bool-cases (k == key)) [
  | inl same ↦
      let later : mem key (automated now d) ≡ false =
        mem-automated-none now key d
          (ap (λ j. lookup j d) (sym ((user_symbol_beq_iff k key).0 same)) ∙ u.0) in
      rw same (elim (Bool-cases (setting.enabled && is_after now setting.expires_at)) [
        | inl runs ↦ rw runs (rw same refl)
        | inr over ↦ rw over later
      ])
  | inr other ↦ rw other (elim (Bool-cases (setting.enabled && is_after now setting.expires_at)) [
    | inl runs ↦ rw runs (rw other (mem-automated now key d u.1))
    | inr over ↦ rw over (mem-automated now key d u.1)
  ])
]

pub connect_user-symbols :
    (user : ℕ) (answer : Result Bool) (s : SessionBook)
    → (connect_user user answer s).strategy_symbols ≡ s.strategy_symbols
unfolding connect_user
connect_user-symbols user (ok can_trade) s = refl
connect_user-symbols user (err e) s = refl
