-- ===== src/Database/Keeps.antt =====
-- Each statement on the tables keeps the constraints of the schema.
use crypto_trading_system.Base.{
  Bool, Bool-cases, Option, [], arith, inl, inr, is_some, list_eq, nat_eq, none, option_eq, refl,
  some, true, ℕ, ◌+◌, ◌∷◌, ◌≡◌,
}
use crypto_trading_system.Base.Dict.{
  Dict, HasUniqueKeys, erase-HasUniqueKeys, insert-HasUniqueKeys, lookup,
}
use crypto_trading_system.Base.Text.{Text}
use crypto_trading_system.Database.{
  Credentials, MatchRow, OrderRecord, Session, SymbolSetting, Tables, User, after, for_user,
  has_user, owner_key_eq,
}
use crypto_trading_system.Database.Holdings.{insert_new, save_user_position}
use crypto_trading_system.Database.Instants.{text_before}
use crypto_trading_system.Database.Log.{log_user_order, record_key, upserted}
use crypto_trading_system.Database.Owners.{
  Every, Every-erase, Every-insert, Every-lookup, Every-without_user, without_user-HasUniqueKeys,
}
use crypto_trading_system.Database.Reports.{record_order_match_row}
use crypto_trading_system.Database.Schema.{MeetsSchema, owned}
use crypto_trading_system.Database.Strategies.{set_user_strategy_enabled, set_user_strategy_symbol}
use crypto_trading_system.Database.Users.{
  create_session, delete_expired_sessions, delete_session, delete_user_sessions,
  mark_credentials_verified, session_ttl, set_user_credentials, verified_row, without_expired,
}
use crypto_trading_system.Decimal.{Decimal}
use crypto_trading_system.Models.Common.{Timestamp}
use crypto_trading_system.Models.Strategy.{Position}
use crypto_trading_system.Orders.Matches.{MatchKey, match_key_eq}
use crypto_trading_system.Orders.Sessions.{user_symbol_eq}

for_user-MeetsSchema :
    (db written : Tables) (user_id : ℕ)
    → MeetsSchema db
    → (owned db.users user_id ≡ true → MeetsSchema written)
    → MeetsSchema (after db (for_user db user_id written))
unfolding for_user has_user
for_user-MeetsSchema db written user_id h keep = elim (Bool-cases (owned db.users user_id)) [
  | inl yes_user ↦ rw yes_user (keep yes_user)
  | inr no_user ↦ rw no_user h
]

pub set_user_credentials-MeetsSchema :
    (db : Tables) (user_id : ℕ) (k s : Text)
    → MeetsSchema db
    → MeetsSchema (after db (set_user_credentials db user_id k s))
unfolding set_user_credentials
set_user_credentials-MeetsSchema db user_id k s h = for_user-MeetsSchema db _ user_id h (λ o.
    let c : Credentials = record { api_key_enc = k; api_secret_enc = s; last_verified_at = none } in
    let rows =
      Every-insert (λ i r. owned db.users i) user_id c db.credentials o h.credentials_owned in
    ground (arith, rows))

pub create_session-MeetsSchema :
    (now : Timestamp) (db : Tables) (token : Text) (user_id : ℕ)
    → MeetsSchema db
    → MeetsSchema (after db (create_session now db token user_id))
unfolding create_session
create_session-MeetsSchema now db token user_id h = for_user-MeetsSchema db _ user_id h (λ o.
    let s : Session = record {
      user_id = user_id;
      created_at = now;
      expires_at = now + session_ttl;
    } in
    let rows =
      Every-insert (λ t r. owned db.users r.user_id) token s db.sessions o h.sessions_owned in
    let keys = insert-HasUniqueKeys token s db.sessions h.unique_tokens in
    ground (arith, rows, keys))

verified_row-owned :
    (now : Timestamp) (users : Dict ℕ User) (user_id : ℕ) (found : Option Credentials)
    (d : Dict ℕ Credentials)
    → lookup user_id d ≡ found
    → Every (λ id c. owned users id) d
    → Every (λ id c. owned users id) (verified_row now user_id found d)
unfolding verified_row
verified_row-owned now users user_id none d q a = a
verified_row-owned now users user_id (some c) d q a =
    Every-insert (λ id r. owned users id) user_id (record c { last_verified_at = some now }) d
      (Every-lookup (λ id r. owned users id) user_id c d a q) a

pub mark_credentials_verified-MeetsSchema :
    (now : Timestamp) (db : Tables) (user_id : ℕ)
    → MeetsSchema db
    → MeetsSchema (mark_credentials_verified now db user_id)
unfolding mark_credentials_verified
mark_credentials_verified-MeetsSchema now db user_id h =
    let rows =
      verified_row-owned now db.users user_id (lookup user_id db.credentials) db.credentials refl
        h.credentials_owned in
    ground (arith, rows)

pub delete_session-MeetsSchema :
    (db : Tables) (token : Text) → MeetsSchema db → MeetsSchema (delete_session db token)
unfolding delete_session
delete_session-MeetsSchema db token h =
    let rows = Every-erase (λ t r. owned db.users r.user_id) token db.sessions h.sessions_owned in
    let keys = erase-HasUniqueKeys token db.sessions h.unique_tokens in ground (arith, rows, keys)

pub delete_user_sessions-MeetsSchema :
    (db : Tables) (user_id : ℕ) → MeetsSchema db → MeetsSchema (delete_user_sessions db user_id)
unfolding delete_user_sessions
delete_user_sessions-MeetsSchema db user_id h =
    let rows =
      Every-without_user (λ t s. s.user_id) (λ t r. owned db.users r.user_id) user_id db.sessions
        h.sessions_owned in
    let keys = without_user-HasUniqueKeys (λ t s. s.user_id) user_id db.sessions h.unique_tokens in
    ground (arith, rows, keys)

lookup-without_expired :
    (now : Timestamp) (token : Text) (d : Dict Text Session)
    → lookup token d ≡ none
    → lookup token (without_expired now d) ≡ none
unfolding without_expired
lookup-without_expired now token [] q = refl
lookup-without_expired now token ((t, s) ∷ d) q =
    ground (arith, q, lookup-without_expired now token d)

without_expired-owned :
    (now : Timestamp) (users : Dict ℕ User) (d : Dict Text Session)
    → Every (λ t r. owned users r.user_id) d
    → HasUniqueKeys d
    → Every (λ t r. owned users r.user_id) (without_expired now d)
      × HasUniqueKeys (without_expired now d)
unfolding without_expired
without_expired-owned now users [] a u = (tt, tt)
without_expired-owned now users ((t, s) ∷ d) a u =
    elim (Bool-cases (text_before s.expires_at now)) [
      | inl expired ↦ rw expired (without_expired-owned now users d a.1 u.1)
      | inr live ↦
          let rest = without_expired-owned now users d a.1 u.1 in
          rw live ((a.0, rest.0), (lookup-without_expired now t d u.0, rest.1))
    ]

pub delete_expired_sessions-MeetsSchema :
    (now : Timestamp) (db : Tables) → MeetsSchema db → MeetsSchema (delete_expired_sessions now db)
unfolding delete_expired_sessions
delete_expired_sessions-MeetsSchema now db h =
    let kept_rows =
      without_expired-owned now db.users db.sessions h.sessions_owned h.unique_tokens in
    ground (arith, kept_rows)

pub set_user_strategy_enabled-MeetsSchema :
    (db : Tables) (user_id : ℕ) (enabled : Bool)
    → MeetsSchema db
    → MeetsSchema (after db (set_user_strategy_enabled db user_id enabled))
unfolding set_user_strategy_enabled
set_user_strategy_enabled-MeetsSchema db user_id enabled h =
    for_user-MeetsSchema db _ user_id h (λ o.
      let rows =
        Every-insert (λ i r. owned db.users i) user_id enabled db.strategy_settings o
          h.settings_owned in
      ground (arith, rows))

pub set_user_strategy_symbol-MeetsSchema :
    (db : Tables) (user_id : ℕ) (symbol : Text) (enabled : Bool) (expires_at : Option Timestamp)
    → MeetsSchema db
    → MeetsSchema (after db (set_user_strategy_symbol db user_id symbol enabled expires_at))
unfolding set_user_strategy_symbol
set_user_strategy_symbol-MeetsSchema db user_id symbol enabled expires_at h =
    for_user-MeetsSchema db _ user_id h (λ o.
      let s : SymbolSetting = record { enabled = enabled; expires_at = expires_at } in
      let rows =
        Every-insert (λ i r. owned db.users i.0) (user_id, symbol) s db.strategy_symbols o
          h.symbols_owned in
      ground (arith, rows))

pub save_user_position-MeetsSchema :
    (db : Tables) (user_id : ℕ) (p : Position)
    → MeetsSchema db
    → MeetsSchema (after db (save_user_position db user_id p))
unfolding save_user_position
save_user_position-MeetsSchema db user_id p h = for_user-MeetsSchema db _ user_id h (λ o.
    let rows =
      Every-insert (λ i r. owned db.users i.0) (user_id, p.symbol, p.variant) p db.user_positions o
        h.positions_owned in
    ground (arith, rows))

pub record_order_match_row-MeetsSchema :
    (db : Tables) (user_id : ℕ) (row : MatchRow)
    → MeetsSchema db
    → MeetsSchema (after db (record_order_match_row db user_id row))
unfolding record_order_match_row insert_new
record_order_match_row-MeetsSchema db user_id row h = for_user-MeetsSchema db _ user_id h (λ o.
    let key : MatchKey = (user_id, row.match.entry_order_id, row.match.exit_order_id) in
    let rows =
      Every-insert (λ i r. owned db.users i.0) key row db.order_matches o h.matches_owned in
    elim (Bool-cases (is_some (lookup key db.order_matches))) [
      | inl old ↦ rw old h
      | inr new ↦ rw new (ground (arith, rows))
    ])

module _ (iso : Timestamp → Text) (ratio : Decimal → Decimal → Decimal) (now : Timestamp) where
  pub log_user_order-MeetsSchema :
      (db : Tables) (user_id : ℕ) (r : OrderRecord) (source : Text)
      → MeetsSchema db
      → MeetsSchema (after db (log_user_order ratio iso now db user_id r source))
  unfolding log_user_order
  log_user_order-MeetsSchema db user_id r source h = for_user-MeetsSchema db _ user_id h (λ o.
      let key : ℕ × Text = (user_id, record_key iso r) in
      let rows =
        Every-insert (λ i w. owned db.users i.0) key
          (upserted ratio now db.next_log_id source r (lookup key db.order_log)) db.order_log o
          h.log_owned in
      ground (arith, rows))
