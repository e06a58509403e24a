-- ===== src/Accounts/Restart/Windows.antt =====
-- After a restart the strategy runs in the windows that the tables hold.
use crypto_trading_system.Accounts.{both}
use crypto_trading_system.Accounts.Restart.{
  automate, automate_each, connect_keys, connect_stored, expiry_of, open_owners, reconnect_each,
  reconnect_user, restore_automated_users, restore_open_position_users,
}
use crypto_trading_system.Accounts.Restart.Rows.{
  chosen, connect_user-symbols, is_whole, lookup-symbols_of, mem-automated, running,
  text_before-whole,
}
use crypto_trading_system.Base.{
  Bool, Bool-cases, List, Option, [], ap, arith, false, if◌then◌else◌, inl, inr, leb, list_eq, ltb,
  nat_eq, none, option_eq, refl, some, true, ℕ, ◌&&◌, ◌==◌, ◌∙◌, ◌∷◌, ◌≡◌,
}
use crypto_trading_system.Base.Dict.{Dict, HasUniqueKeys, insert, lookup, lookup-insert, mem}
use crypto_trading_system.Base.Text.{Text}
use crypto_trading_system.Database.{Credentials, SymbolSetting, Tables}
use crypto_trading_system.Database.Strategies.{
  automated, get_automated_users, get_user_strategy_symbols, is_after,
}
use crypto_trading_system.Database.Users.{get_user_credentials}
use crypto_trading_system.Exchange.Result.{Result}
use crypto_trading_system.Models.Common.{Timestamp}
use crypto_trading_system.Models.Strategy.{Position}
use crypto_trading_system.Orders.Sessions.{
  SessionBook, is_before, user_symbol_beq_iff, user_symbol_eq,
}
use crypto_trading_system.Positions.{PositionKey}

-- Until when the strategy runs after an expiry is read, which is compared once more.
abbrev pub later_end : Timestamp → Option Timestamp → Option Timestamp → Option Timestamp
later_end now none old = old
later_end now (some t) old = if leb t now then old else some t

later_end-twice :
    (now : Timestamp) (e old : Option Timestamp)
    → later_end now e (later_end now e old) ≡ later_end now e old
later_end-twice now none old = refl
later_end-twice now (some t) old = ground arith

module _ (decrypt : Text → Option Text) (answers : ℕ → Result Bool) (db : Tables) where
  connect_stored-symbols :
      (user : ℕ) (s : SessionBook) (stored : Option Credentials)
      → (connect_stored decrypt answers db user s stored).strategy_symbols ≡ s.strategy_symbols
  unfolding connect_stored connect_keys both
  connect_stored-symbols user s none = refl
  connect_stored-symbols user s (some c) =
      keys_keep (both (decrypt c.api_key_enc) (decrypt c.api_secret_enc))
    where
      keys_keep :
          (keys : Option (Text × Text))
          → (connect_keys decrypt answers db user s keys).strategy_symbols ≡ s.strategy_symbols
      keys_keep none = refl
      keys_keep (some keys) = ground (arith, connect_user-symbols user (answers user) s)

  reconnect_user-symbols :
      (user : ℕ) (s : SessionBook)
      → (reconnect_user decrypt answers db user s).strategy_symbols ≡ s.strategy_symbols
  unfolding reconnect_user
  reconnect_user-symbols user s =
      ground (arith, connect_stored-symbols user s (get_user_credentials db user))

  reconnect_each-symbols :
      (users : List ℕ) (s : SessionBook)
      → (reconnect_each decrypt answers db users s).strategy_symbols ≡ s.strategy_symbols
  unfolding reconnect_each
  reconnect_each-symbols [] s = refl
  reconnect_each-symbols (user ∷ users) s =
      reconnect_each-symbols users (reconnect_user decrypt answers db user s)
      ∙ reconnect_user-symbols user s

  abbrev pub end_of : ℕ × Text → Option Timestamp
  end_of key = expiry_of (lookup key.1 (get_user_strategy_symbols db key.0))

  automate-symbols :
      (now : Timestamp) (j key : ℕ × Text) (s : SessionBook) (e : Option Timestamp)
      → lookup key (automate decrypt answers db now j s e).strategy_symbols ≡ (
          if j == key
          then later_end now e (lookup key s.strategy_symbols)
          else lookup key s.strategy_symbols)
  unfolding automate
  automate-symbols now j key s none = ground arith
  automate-symbols now j key s (some t) = elim (Bool-cases (leb t now)) [
    | inl over ↦ rw over (ground arith)
    | inr runs ↦ rw runs (
        ap (lookup key) (
          reconnect_user-symbols j.0
            (record s { strategy_symbols = insert j t s.strategy_symbols }))
        ∙ lookup-insert j key t s.strategy_symbols)
  ]

  automate_each-symbols :
      (now : Timestamp) (keys : List (ℕ × Text)) (key : ℕ × Text) (s : SessionBook)
      → lookup key (automate_each decrypt answers db now keys s).strategy_symbols ≡ (
          if mem key keys
          then later_end now (end_of key) (lookup key s.strategy_symbols)
          else lookup key s.strategy_symbols)
  unfolding automate_each
  automate_each-symbols now [] key s = refl
  automate_each-symbols now (j ∷ keys) key s =
      automate_each-symbols now keys key (automate decrypt answers db now j s (end_of j))
      ∙ elim (Bool-cases (j == key)) [
        | inl same ↦ rw (automate-symbols now j key s (end_of j)) (
            rw same (
              let e : end_of j ≡ end_of key = ap end_of ((user_symbol_beq_iff j key).0 same) in
              rw e
                (ground (arith, later_end-twice now (end_of key) (lookup key s.strategy_symbols)))))
        | inr other ↦ rw (automate-symbols now j key s (end_of j)) (rw other refl)
      ]

  pub row-of :
      (key : ℕ × Text)
      → lookup key.1 (get_user_strategy_symbols db key.0) ≡ lookup key db.strategy_symbols
  unfolding get_user_strategy_symbols
  row-of (user, symbol) = lookup-symbols_of user symbol db.strategy_symbols

  ends_as_stored :
      (now : Timestamp) (row : Option SymbolSetting)
      → is_whole (expiry_of row) ≡ true
      → (if chosen now row then later_end now (expiry_of row) none else none) ≡ running now row
  unfolding expiry_of chosen is_after is_before
  ends_as_stored now none w = refl
  ends_as_stored now (some setting) w = ends setting.enabled setting.expires_at w
    where
      ends :
          (b : Bool) (o : Option Timestamp)
          → is_whole o ≡ true
          → (if b && is_after now o then later_end now o none else none)
            ≡ (if b && is_before now o then o else none)
      ends b none v = ground arith
      ends b (some t) v = elim (Bool-cases (ltb now t)) [
        | inl runs ↦
            rw (runs, text_before-whole now t (ground (arith, v)) runs) (ground (arith, runs))
        | inr over ↦ rw over (ground (arith, over))
      ]

  -- A new process has the windows that the table says are running, and no others.
  pub restart-windows :
      (now : Timestamp) (positions : Dict PositionKey Position) (s : SessionBook) (key : ℕ × Text)
      → HasUniqueKeys db.strategy_symbols
      → is_whole (expiry_of (lookup key db.strategy_symbols)) ≡ true
      → s.strategy_symbols ≡ []
      → lookup key (restore_automated_users decrypt answers db now positions s).strategy_symbols
        ≡ running now (lookup key db.strategy_symbols)
  unfolding restore_automated_users restore_open_position_users get_automated_users
  restart-windows now positions s key u w fresh =
      ap (lookup key) (
        reconnect_each-symbols (open_owners positions)
          (automate_each decrypt answers db now (automated now db.strategy_symbols) s))
      ∙ automate_each-symbols now (automated now db.strategy_symbols) key s
      ∙ rw (mem-automated now key db.strategy_symbols u, row-of key, ap (lookup key) fresh)
          (ends_as_stored now (lookup key db.strategy_symbols) w)

-- What is running was chosen by the query and has not ended.
pub running-chosen :
    (now t : Timestamp) (row : Option SymbolSetting)
    → is_whole (some t) ≡ true
    → running now row ≡ some t
    → (chosen now row ≡ true) × (expiry_of row ≡ some t) × (leb t now ≡ false)
unfolding chosen is_after is_before expiry_of
running-chosen now t none w h = absurd (ground (arith, h))
running-chosen now t (some setting) w h = ends setting.enabled setting.expires_at h
  where
    ends :
        (b : Bool) (o : Option Timestamp)
        → (if b && is_before now o then o else none) ≡ some t
        → (b && is_after now o ≡ true) × (o ≡ some t) × (leb t now ≡ false)
    ends b none e = absurd (ground (arith, e))
    ends b (some end) e =
        let end_is : end ≡ t = ground (arith, e) in
        let before : ltb now t ≡ true = ground (arith, e) in
        (
          rw (end_is, text_before-whole now t (ground (arith, w)) before) (ground (arith, e)),
          rw end_is refl,
          ground (arith, before),
        )
