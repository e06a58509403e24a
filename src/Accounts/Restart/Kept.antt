-- ===== src/Accounts/Restart/Kept.antt =====
-- What connecting an account keeps is kept by the whole restart.
use crypto_trading_system.Accounts.{both, is_blank}
use crypto_trading_system.Accounts.Restart.{
  automate, automate_each, connect_keys, connect_stored, reconnect_each, reconnect_user,
}
use crypto_trading_system.Accounts.Restart.Windows.{end_of}
use crypto_trading_system.Base.{
  Bool, Bool-cases, List, Option, [], ap, arith, false, inl, inr, leb, list_eq, nat_beq_iff, nat_eq,
  none, option_eq, refl, some, true, ℕ, ◌==◌, ◌||◌, ◌∷◌, ◌≡◌,
}
use crypto_trading_system.Base.Dict.{Dict, insert, lookup, lookup-insert}
use crypto_trading_system.Base.Text.{Text}
use crypto_trading_system.Database.{Credentials, Tables}
use crypto_trading_system.Database.Users.{get_user_credentials}
use crypto_trading_system.Exchange.Result.{Result, err, ok}
use crypto_trading_system.Models.Common.{Timestamp}
use crypto_trading_system.Orders.Sessions.{
  SessionBook, UserSession, connect_user, has_active_session, user_symbol_eq,
}

-- The session that an answer of the exchange makes.
abbrev pub session_of : Result Bool → UserSession
session_of (ok can_trade) = record { verified = true; enabled = can_trade }
session_of (err e) = record { verified = false; enabled = false }

pub connect_user-session :
    (user : ℕ) (answer : Result Bool) (s : SessionBook)
    → (connect_user user answer s).user_sessions ≡ insert user (session_of answer) s.user_sessions
unfolding connect_user
connect_user-session user (ok can_trade) s = refl
connect_user-session user (err e) s = refl

pub connect_user-connected :
    (user : ℕ) (answer : Result Bool) (s : SessionBook)
    → has_active_session user (connect_user user answer s) ≡ true
unfolding has_active_session
connect_user-connected user answer s =
    let self : (user == user) ≡ true = (nat_beq_iff user user).1 refl in
    rw (connect_user-session user answer s)
      (rw (lookup-insert user user (session_of answer) s.user_sessions) (rw self refl))

module _ (decrypt : Text → Option Text) (answers : ℕ → Result Bool) (db : Tables) where
  -- The account has no session, or the one that the exchange's answer makes.
  abbrev pub IsAnswered : ℕ → SessionBook → Type 0
  IsAnswered user s =
      (has_active_session user s ≡ true)
      → lookup user s.user_sessions ≡ some (session_of (answers user))

  pub connect_user-IsAnswered :
      (v user : ℕ) (s : SessionBook)
      → IsAnswered user s
      → IsAnswered user (connect_user v (answers v) s)
  unfolding has_active_session
  connect_user-IsAnswered v user s h = rw (connect_user-session v (answers v) s) (
      rw (lookup-insert v user (session_of (answers v)) s.user_sessions)
        (elim (Bool-cases (v == user)) [
          | inl same ↦
              rw same (λ x. ap (λ i. some (session_of (answers i))) ((nat_beq_iff v user).0 same))
          | inr other ↦ rw other h
        ]))

  pub windows_keep :
      (user : ℕ) (b : SessionBook) (d : Dict (ℕ × Text) Timestamp)
      → has_active_session user b ≡ true
      → has_active_session user (record b { strategy_symbols = d }) ≡ true
  unfolding has_active_session
  windows_keep user b d k = k

  pub connect_user-has_active :
      (v user : ℕ) (s : SessionBook)
      → has_active_session user s ≡ true
      → has_active_session user (connect_user v (answers v) s) ≡ true
  unfolding has_active_session
  connect_user-has_active v user s h =
      rw (connect_user-session v (answers v) s)
        (rw (lookup-insert v user (session_of (answers v)) s.user_sessions) (ground (arith, h)))

  -- What connecting an account keeps is kept by the whole restart.
  module _ (Q : SessionBook → Type 0)
      (connects : (v : ℕ) (s : SessionBook) → Q s → Q (connect_user v (answers v) s)) where
    keep_stored :
        (v : ℕ) (s : SessionBook) (stored : Option Credentials)
        → Q s
        → Q (connect_stored decrypt answers db v s stored)
    unfolding connect_stored connect_keys
    keep_stored v s none h = h
    keep_stored v s (some c) h = keep_keys (both (decrypt c.api_key_enc) (decrypt c.api_secret_enc))
      where
        keep_keys : (keys : Option (Text × Text)) → Q (connect_keys decrypt answers db v s keys)
        keep_keys none = h
        keep_keys (some keys) = elim (Bool-cases (is_blank keys.0 || is_blank keys.1)) [
          | inl blank ↦ rw blank h
          | inr given_keys ↦ rw given_keys (connects v s h)
        ]

    keep_user : (v : ℕ) (s : SessionBook) → Q s → Q (reconnect_user decrypt answers db v s)
    unfolding reconnect_user
    keep_user v s h = elim (Bool-cases (has_active_session v s)) [
      | inl old ↦ rw old h
      | inr new ↦ rw new (keep_stored v s (get_user_credentials db v) h)
    ]

    pub keep_each :
        (users : List ℕ) (s : SessionBook) → Q s → Q (reconnect_each decrypt answers db users s)
    unfolding reconnect_each
    keep_each [] s h = h
    keep_each (v ∷ users) s h =
        keep_each users (reconnect_user decrypt answers db v s) (keep_user v s h)

    module _
        (windows : (s : SessionBook) (d : Dict (ℕ × Text) Timestamp)
          → Q s
          → Q (record s { strategy_symbols = d })) where
      keep_one :
          (now : Timestamp) (key : ℕ × Text) (s : SessionBook) (e : Option Timestamp)
          → Q s
          → Q (automate decrypt answers db now key s e)
      unfolding automate
      keep_one now key s none h = h
      keep_one now key s (some t) h = elim (Bool-cases (leb t now)) [
        | inl over ↦ rw over h
        | inr runs ↦ rw runs (keep_user key.0 _ (windows s (insert key t s.strategy_symbols) h))
      ]

      pub keep_automation :
          (now : Timestamp) (keys : List (ℕ × Text)) (s : SessionBook)
          → Q s
          → Q (automate_each decrypt answers db now keys s)
      unfolding automate_each
      keep_automation now [] s h = h
      keep_automation now (key ∷ keys) s h =
          keep_automation now keys _ (keep_one now key s (end_of decrypt answers db key) h)
