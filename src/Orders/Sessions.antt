-- ===== src/Orders/Sessions.antt =====
-- services/order_service.py: for whom the service may trade: the sessions that hold an account's
-- keys, and the windows of its automatic strategy. The keys themselves are not modelled. `now` is
-- the wall clock.
pub mod Access
use crypto_trading_system.Base.{
  Bool, Eq, List, Option, [], arith, false, if◌then◌else◌, is_some, list_beq_iff, list_eq, ltb,
  nat_beq_iff, nat_eq, none, not, option_eq, some, true, ℕ, ◌&&◌, ◌*◌, ◌+◌, ◌/◌, ◌==◌, ◌||◌, ◌↔◌,
  ◌∷◌, ◌≡◌,
}
use crypto_trading_system.Base.Dict.{Dict, erase, insert, lookup}
use crypto_trading_system.Base.Text.{Text}
use crypto_trading_system.Exchange.Result.{Result, err, ok}
use crypto_trading_system.Models.Common.{Timestamp, is_open, second}
use crypto_trading_system.Models.Strategy.{Position}
use crypto_trading_system.Positions.{PositionKey}

-- `_UserSession`, without its keys.
pub record UserSession : Type 0 where
  pub verified : Bool
  pub enabled : Bool

pub record SessionBook : Type 0 where
  pub user_sessions : Dict ℕ UserSession
  -- `_strategy_symbols`: until when the strategy may trade the symbol for the account.
  pub strategy_symbols : Dict (ℕ × Text) Timestamp

abbrev pub user_symbol_beq : ℕ × Text → ℕ × Text → Bool
user_symbol_beq a b = a.0 == b.0 && a.1 == b.1

pub user_symbol_beq_iff : (a b : ℕ × Text) → (user_symbol_beq a b ≡ true) ↔ (a ≡ b)
user_symbol_beq_iff a b = ground (arith, nat_beq_iff a.0 b.0, list_beq_iff a.1 b.1)

instance abbrev pub user_symbol_eq : Eq (ℕ × Text)
user_symbol_eq = record { beq_iff = user_symbol_beq_iff; beq = user_symbol_beq }

-- What `connect_user_credentials` finds: `canTrade` of the account, or that it could not ask.
unfoldable pub connect_user : ℕ → Result Bool → SessionBook → SessionBook
connect_user user (err e) s = record s {
  user_sessions = insert user (record { verified = false; enabled = false }) s.user_sessions;
}
connect_user user (ok can_trade) s = record s {
  user_sessions = insert user (record { verified = true; enabled = can_trade }) s.user_sessions;
}

-- `_has_open_positions`
unfoldable pub has_open_positions : ℕ → Dict PositionKey Position → Bool
has_open_positions user [] = false
has_open_positions user ((key, p) ∷ d) =
    (key.0 == some user && is_open p.status) || has_open_positions user d

unfoldable pub keeps_automation : Timestamp → ℕ → Dict (ℕ × Text) Timestamp → Bool
keeps_automation now user [] = false
keeps_automation now user (((owner, symbol), expires_at) ∷ d) =
    (owner == user && ltb now expires_at) || keeps_automation now user d

-- `deactivate_user_session`
unfoldable pub deactivate_user_session :
    Timestamp → ℕ → Dict PositionKey Position → SessionBook → SessionBook
deactivate_user_session now user positions s =
    if not (keeps_automation now user s.strategy_symbols) && not (has_open_positions user positions)
    then record s { user_sessions = erase user s.user_sessions }
    else s

unfoldable pub has_active_session : ℕ → SessionBook → Bool
has_active_session user s = is_some (lookup user s.user_sessions)

unfoldable pub may_trade : Option UserSession → Bool
may_trade none = false
may_trade (some session) = session.verified && session.enabled

-- `_user_execution_enabled`; `execution_enabled` is the service's own switch.
unfoldable pub user_execution_enabled : Bool → Option ℕ → SessionBook → Bool
user_execution_enabled execution_enabled none s = execution_enabled
user_execution_enabled execution_enabled (some user) s = may_trade (lookup user s.user_sessions)

-- `active_strategy_user_ids`
pub strategy_users : Timestamp → Text → SessionBook → Dict (ℕ × Text) Timestamp → List ℕ
strategy_users now symbol s [] = []
strategy_users now symbol s (((user, item_symbol), expires_at) ∷ d) =
    if item_symbol == symbol && (ltb now expires_at && may_trade (lookup user s.user_sessions))
    then user ∷ strategy_users now symbol s d
    else strategy_users now symbol s d

pub active_strategy_user_ids : Timestamp → Text → SessionBook → List ℕ
active_strategy_user_ids now symbol s = strategy_users now symbol s s.strategy_symbols

-- `active_execution_user_ids`
pub verified_users : Dict ℕ UserSession → List ℕ
verified_users [] = []
verified_users ((user, session) ∷ d) =
    if session.verified then user ∷ verified_users d else verified_users d

pub active_execution_user_ids : SessionBook → List ℕ
active_execution_user_ids s = verified_users s.user_sessions

-- `enabled` of `strategy_status`
unfoldable pub is_before : Timestamp → Option Timestamp → Bool
is_before now none = false
is_before now (some expires_at) = ltb now expires_at

unfoldable pub strategy_enabled : Timestamp → ℕ → Text → SessionBook → Bool
strategy_enabled now user symbol s = is_before now (lookup (user, symbol) s.strategy_symbols)

-- 24 hours.
abbrev pub window : ℕ
window = 86400 * second

-- `set_strategy_enabled`: the window begins at the whole second.
pub set_strategy_enabled : Timestamp → ℕ → Text → Bool → SessionBook → SessionBook
set_strategy_enabled now user symbol true s = record s {
  strategy_symbols = insert (user, symbol) (now / second * second + window) s.strategy_symbols;
}
set_strategy_enabled now user symbol false s = record s {
  strategy_symbols = erase (user, symbol) s.strategy_symbols;
}
