-- ===== src/Orders/Sessions/Access.antt =====
-- Who may trade after a sign-out, and for how long the strategy may.
use crypto_trading_system.Base.{
  [], ap, arith, list_beq_iff, list_eq, ltb, nat_beq_iff, nat_eq, option_eq, refl, some, true, ℕ,
  ◌&&◌, ◌*◌, ◌+◌, ◌/◌, ◌<◌, ◌∷◌, ◌≡◌,
}
use crypto_trading_system.Base.Dict.{Dict, HasUniqueKeys, insert, lookup, lookup-insert, mem}
use crypto_trading_system.Base.Text.{Text}
use crypto_trading_system.Models.Common.{second}
use crypto_trading_system.Models.Strategy.{Position}
use crypto_trading_system.Orders.Sessions.{
  SessionBook, deactivate_user_session, is_before, keeps_automation, may_trade,
  set_strategy_enabled, strategy_users, user_symbol_eq, window,
}
use crypto_trading_system.Positions.{PositionKey}

running-keeps_automation :
    (now user : ℕ) (symbol : Text) (expires_at : ℕ) (d : Dict (ℕ × Text) ℕ)
    → lookup (user, symbol) d ≡ some expires_at
    → ltb now expires_at ≡ true
    → keeps_automation now user d ≡ true
unfolding keeps_automation
running-keeps_automation now user symbol expires_at [] h later = absurd (ground (arith, h))
running-keeps_automation now user symbol expires_at (((owner, name), until) ∷ d) h later = ground (
  arith,
  nat_beq_iff owner user,
  list_beq_iff name symbol,
  h,
  later,
  running-keeps_automation now user symbol expires_at d,
)

-- An account whose strategy was switched on at `start` keeps its sessions when it signs out before
-- 24 hours have passed since the second in which `start` lies, whatever it holds.
pub deactivate_user_session-window :
    (start now user : ℕ) (symbol : Text) (positions : Dict PositionKey Position) (s : SessionBook)
    → now < start / second * second + window
    → let enabled = set_strategy_enabled start user symbol true s in
      deactivate_user_session now user positions enabled ≡ enabled
unfolding deactivate_user_session set_strategy_enabled
deactivate_user_session-window start now user symbol positions s early = ground (
  arith,
  early,
  lookup-insert (user, symbol) (user, symbol) (start / second * second + window) s.strategy_symbols,
  user_symbol_eq.beq_iff (user, symbol) (user, symbol),
  running-keeps_automation now user symbol (start / second * second + window)
      (insert (user, symbol) (start / second * second + window) s.strategy_symbols),
)

mem-strategy_users :
    (now user : ℕ) (symbol : Text) (s : SessionBook) (d : Dict (ℕ × Text) ℕ)
    → HasUniqueKeys d
    → mem user (strategy_users now symbol s d)
      ≡ (is_before now (lookup (user, symbol) d) && may_trade (lookup user s.user_sessions))
unfolding strategy_users is_before
mem-strategy_users now user symbol s [] unique = refl
mem-strategy_users now user symbol s (((owner, name), until) ∷ d) unique =
    let rest = mem-strategy_users now user symbol s d unique.1 in
    ground (
      arith,
      nat_beq_iff owner user,
      list_beq_iff name symbol,
      unique.0,
      rest,
      ap (λ i. may_trade (lookup i s.user_sessions)) {x = owner} {y = user},
    )
