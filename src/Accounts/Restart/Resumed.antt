-- ===== src/Accounts/Restart/Resumed.antt =====
-- After a restart every account that holds a position or runs the strategy has its keys again.
use crypto_trading_system.Accounts.{both, is_blank}
use crypto_trading_system.Accounts.Restart.{
  automate, automate_each, connect_keys, connect_stored, expiry_of, open_owners, reconnect_each,
  reconnect_user, restore_automated_users, restore_open_position_users,
}
use crypto_trading_system.Accounts.Restart.Kept.{
  IsAnswered, connect_user-IsAnswered, connect_user-connected, connect_user-has_active,
  keep_automation, keep_each, session_of, windows_keep,
}
use crypto_trading_system.Accounts.Restart.Rows.{is_whole, mem-automated, running}
use crypto_trading_system.Accounts.Restart.Windows.{end_of, row-of, running-chosen}
use crypto_trading_system.Base.{
  Bool, Bool-cases, List, Option, [], ap, arith, false, inl, inr, is_some, leb, list_eq,
  nat_beq_iff, nat_eq, none, option_eq, refl, some, sym, true, ℕ, ◌==◌, ◌||◌, ◌∙◌, ◌∷◌, ◌≡◌,
}
use crypto_trading_system.Base.Dict.{Dict, HasUniqueKeys, insert, lookup, mem}
use crypto_trading_system.Base.Text.{Text}
use crypto_trading_system.Database.{Credentials, Tables}
use crypto_trading_system.Database.Strategies.{automated, get_automated_users}
use crypto_trading_system.Database.Users.{get_user_credentials}
use crypto_trading_system.Exchange.Result.{Result}
use crypto_trading_system.Models.Common.{StrategyVariant, Timestamp, is_open}
use crypto_trading_system.Models.Strategy.{Position}
use crypto_trading_system.Orders.Sessions.{
  SessionBook, has_active_session, user_symbol_beq_iff, user_symbol_eq,
}
use crypto_trading_system.Positions.{PositionKey, position_key_beq, position_key_eq}

mem-open_owners :
    (user : ℕ) (symbol : Text) (variant : StrategyVariant) (p : Position)
    (d : Dict PositionKey Position)
    → lookup (some user, symbol, variant) d ≡ some p
    → is_open p.status ≡ true
    → mem user (open_owners d) ≡ true
unfolding open_owners
mem-open_owners user symbol variant p [] h o = absurd (ground (arith, h))
mem-open_owners user symbol variant p (((none, s, v), q) ∷ d) h o =
    mem-open_owners user symbol variant p d (ground (arith, h)) o
mem-open_owners user symbol variant p (((some w, s, v), q) ∷ d) h o =
    elim (Bool-cases (position_key_beq (some w, s, v) (some user, symbol, variant))) [
      | inl same ↦ ground (arith, same, h, o)
      | inr other ↦ ground (arith, mem-open_owners user symbol variant p d (rw other at h) o)
    ]

module _ (decrypt : Text → Option Text) (answers : ℕ → Result Bool) (db : Tables) where
  -- The keys of an account are stored and the master key opens them.
  pub record CanConnect (user : ℕ) : Type 0 where
    pub stored : Credentials
    pub found : get_user_credentials db user ≡ some stored
    pub api_key : Text
    pub api_secret : Text
    pub opens_key : decrypt stored.api_key_enc ≡ some api_key
    pub opens_secret : decrypt stored.api_secret_enc ≡ some api_secret
    pub no_blank : (is_blank api_key || is_blank api_secret) ≡ false

  -- An account that can connect has a session afterwards.
  reconnect_user-has_active :
      (user : ℕ) (s : SessionBook)
      → CanConnect user
      → has_active_session user (reconnect_user decrypt answers db user s) ≡ true
  unfolding reconnect_user connect_stored connect_keys both
  reconnect_user-has_active user s c = elim (Bool-cases (has_active_session user s)) [
    | inl old ↦ rw old old
    | inr new ↦ rw new (
        rw c.found (
          rw (c.opens_key, c.opens_secret)
            (rw c.no_blank (connect_user-connected user (answers user) s))))
  ]

  reconnect_each-has_active :
      (user : ℕ) (users : List ℕ) (s : SessionBook)
      → CanConnect user
      → mem user users ≡ true
      → has_active_session user (reconnect_each decrypt answers db users s) ≡ true
  unfolding reconnect_each
  reconnect_each-has_active user [] s c h = absurd (ground (arith, h))
  reconnect_each-has_active user (v ∷ users) s c h = elim (Bool-cases (v == user)) [
    | inl same ↦
        let v_is : v ≡ user = (nat_beq_iff v user).0 same in
        keep_each decrypt answers db (λ b. has_active_session user b ≡ true)
          (λ w b k. connect_user-has_active decrypt answers db w user b k) users
          (reconnect_user decrypt answers db v s)
          (ap (λ w. has_active_session user (reconnect_user decrypt answers db w s)) v_is
            ∙ reconnect_user-has_active user s c)
    | inr other ↦
        reconnect_each-has_active user users (reconnect_user decrypt answers db v s) c
          (ground (arith, h, other))
  ]

  automate-has_active :
      (now : Timestamp) (key : ℕ × Text) (t : Timestamp) (s : SessionBook) (e : Option Timestamp)
      → CanConnect key.0
      → e ≡ some t
      → leb t now ≡ false
      → has_active_session key.0 (automate decrypt answers db now key s e) ≡ true
  unfolding automate
  automate-has_active now key t s none c q h = absurd (ground (arith, q))
  automate-has_active now key t s (some end) c q h =
      let later : leb end now ≡ false = ground (arith, q, h) in
      rw later (
        reconnect_user-has_active key.0
          (record s { strategy_symbols = insert key end s.strategy_symbols }) c)

  automate_each-has_active :
      (now : Timestamp) (keys : List (ℕ × Text)) (key : ℕ × Text) (t : Timestamp) (s : SessionBook)
      → CanConnect key.0
      → end_of decrypt answers db key ≡ some t
      → leb t now ≡ false
      → mem key keys ≡ true
      → has_active_session key.0 (automate_each decrypt answers db now keys s) ≡ true
  unfolding automate_each
  automate_each-has_active now [] key t s c q h m = absurd (ground (arith, m))
  automate_each-has_active now (j ∷ keys) key t s c q h m = elim (Bool-cases (j == key)) [
    | inl same ↦
        let j_is : j ≡ key = (user_symbol_beq_iff j key).0 same in
        keep_automation decrypt answers db (λ b. has_active_session key.0 b ≡ true)
          (λ w b k. connect_user-has_active decrypt answers db w key.0 b k)
          (windows_keep decrypt answers db key.0) now keys
          (automate decrypt answers db now j s (end_of decrypt answers db j))
          (ap
              (λ i.
                has_active_session key.0
                  (automate decrypt answers db now i s (end_of decrypt answers db i)))
              j_is
            ∙ automate-has_active now key t s (end_of decrypt answers db key) c q h)
    | inr other ↦ automate_each-has_active now keys key t _ c q h (ground (arith, m, other))
  ]

  -- Why an account needs its keys: it holds an open position, or its strategy is running.
  pub data Needs (now : Timestamp) (positions : Dict PositionKey Position) (user : ℕ) : Type 0 where
    holds :
        (symbol : Text) (variant : StrategyVariant) (p : Position)
        → lookup (some user, symbol, variant) positions ≡ some p
        → is_open p.status ≡ true
        → Needs now positions user
    runs :
        (symbol : Text) (t : Timestamp)
        → is_whole (some t) ≡ true
        → running now (lookup (user, symbol) db.strategy_symbols) ≡ some t
        → Needs now positions user

  module _ (now : Timestamp) (positions : Dict PositionKey Position) (user : ℕ)
      (c : CanConnect user) where
    restart-has_active :
        (s : SessionBook)
        → HasUniqueKeys db.strategy_symbols
        → Needs now positions user
        → has_active_session user (restore_automated_users decrypt answers db now positions s)
          ≡ true
    unfolding restore_automated_users restore_open_position_users get_automated_users
    restart-has_active s u need =
        has (automate_each decrypt answers db now (automated now db.strategy_symbols) s) refl need
      where
        has :
            (b : SessionBook)
            → automate_each decrypt answers db now (automated now db.strategy_symbols) s ≡ b
            → Needs now positions user
            → has_active_session user (reconnect_each decrypt answers db (open_owners positions) b)
              ≡ true
        has b q (holds symbol variant p found is_held) =
            reconnect_each-has_active user (open_owners positions) b c
              (mem-open_owners user symbol variant p positions found is_held)
        has b q (runs symbol t whole running_to) =
            let row =
              running-chosen now t (lookup (user, symbol) db.strategy_symbols) whole running_to in
            keep_each decrypt answers db (λ b. has_active_session user b ≡ true)
              (λ w b k. connect_user-has_active decrypt answers db w user b k)
              (open_owners positions) b
              (ap (has_active_session user) (sym q)
                ∙ automate_each-has_active now (automated now db.strategy_symbols) (user, symbol) t
                    s c (ap expiry_of (row-of decrypt answers db (user, symbol)) ∙ row.1) row.2
                    (mem-automated now (user, symbol) db.strategy_symbols u ∙ row.0))

    restart-IsAnswered :
        (s : SessionBook)
        → IsAnswered decrypt answers db user s
        → IsAnswered decrypt answers db user
            (restore_automated_users decrypt answers db now positions s)
    unfolding restore_automated_users restore_open_position_users has_active_session
    restart-IsAnswered s h =
        let q = IsAnswered decrypt answers db user in
        let step = λ (v : ℕ) (b : SessionBook) (k : q b).
          connect_user-IsAnswered decrypt answers db v user b k in
        keep_each decrypt answers db q step (open_owners positions) _ (
          keep_automation decrypt answers db q step (λ b d k. k) now (get_automated_users now db) s
            h)

-- In a new process, an account whose keys are stored and can be opened, and which holds an open position
-- or has a running window, has the session that the exchange's answer makes of these keys.
pub restart-sessions :
    (decrypt : Text → Option Text) (answers : ℕ → Result Bool) (db : Tables) (now : Timestamp)
    (positions : Dict PositionKey Position) (user : ℕ) (s : SessionBook)
    → CanConnect decrypt answers db user
    → HasUniqueKeys db.strategy_symbols
    → Needs decrypt answers db now positions user
    → s.user_sessions ≡ []
    → lookup user (restore_automated_users decrypt answers db now positions s).user_sessions
      ≡ some (session_of (answers user))
unfolding has_active_session
restart-sessions decrypt answers db now positions user s c u need fresh =
    restart-IsAnswered decrypt answers db now positions user c s
      (λ active. absurd (ground (arith, active, ap (λ d. is_some (lookup user d)) fresh)))
      (restart-has_active decrypt answers db now positions user c s u need)
