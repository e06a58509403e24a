-- ===== src/Database/Forget.antt =====
-- What `delete_user` leaves to be found: nothing of the account, and all of the others.
use crypto_trading_system.Base.{
  Bool, Bool-cases, List, Option, [], ap, arith, false, if◌then◌else◌, inl, inr, list_eq, nat_eq,
  none, option_eq, refl, some, suc, true, zero, ℕ, ◌==◌, ◌∙◌, ◌∷◌, ◌≡◌,
}
use crypto_trading_system.Base.Dict.{Dict, HasUniqueKeys, lookup, lookup-erase}
use crypto_trading_system.Base.Text.{Text}
use crypto_trading_system.Database.{LogRow, MatchRow, Session, SymbolSetting, Tables, User}
use crypto_trading_system.Database.Holdings.{get_position_history}
use crypto_trading_system.Database.Log.{get_user_orders, log_of}
use crypto_trading_system.Database.Newest.{newest, sort_newest}
use crypto_trading_system.Database.Owners.{kept, lookup-without_user}
use crypto_trading_system.Database.Reports.{get_order_matches, matches_of}
use crypto_trading_system.Database.Strategies.{
  get_user_strategy_enabled, get_user_strategy_symbols, symbols_of,
}
use crypto_trading_system.Database.Users.{
  delete_user, get_session_user, get_user_by_id, get_user_credentials, live_user, with_id,
  without_user,
}
use crypto_trading_system.Models.Common.{Timestamp}
use crypto_trading_system.Orders.Matches.{MatchKey}
use crypto_trading_system.Stores.Books.{rank}

log_of-without_user :
    (user_id v : ℕ) (symbol : Option Text) (d : Dict (ℕ × Text) LogRow)
    → log_of v symbol (without_user (λ key row. key.0) user_id d)
      ≡ (if v == user_id then [] else log_of v symbol d)
unfolding log_of without_user
log_of-without_user user_id v symbol [] = ground arith
log_of-without_user user_id v symbol ((key, row) ∷ d) =
    ground (arith, log_of-without_user user_id v symbol d)

matches_of-without_user :
    (user_id v : ℕ) (symbol : Option Text) (d : Dict MatchKey MatchRow)
    → matches_of v symbol (without_user (λ key row. key.0) user_id d)
      ≡ (if v == user_id then [] else matches_of v symbol d)
unfolding matches_of without_user
matches_of-without_user user_id v symbol [] = ground arith
matches_of-without_user user_id v symbol ((key, row) ∷ d) =
    ground (arith, matches_of-without_user user_id v symbol d)

symbols_of-without_user :
    (user_id v : ℕ) (d : Dict (ℕ × Text) SymbolSetting)
    → symbols_of v (without_user (λ key row. key.0) user_id d)
      ≡ (if v == user_id then [] else symbols_of v d)
unfolding symbols_of without_user
symbols_of-without_user user_id v [] = ground arith
symbols_of-without_user user_id v ((key, row) ∷ d) =
    ground (arith, symbols_of-without_user user_id v d)

-- An account that is found, unless it is the deleted one.
abbrev pub other_than : ℕ → Option (ℕ × User) → Option (ℕ × User)
other_than user_id none = none
other_than user_id (some found) = if found.0 == user_id then none else some found

other-with_id :
    (user_id id : ℕ) (found : Option User)
    → other_than user_id (with_id id found) ≡ (if id == user_id then none else with_id id found)
unfolding with_id
other-with_id user_id id none = ground arith
other-with_id user_id id (some u) = refl

live_user-delete :
    (now : Timestamp) (db : Tables) (user_id : ℕ) (found : Option Session)
    → live_user now
        (delete_user db user_id)
        (kept (λ (t : Text) (s : Session). s.user_id) user_id [] found)
      ≡ other_than user_id (live_user now db found)
unfolding live_user delete_user with_id
live_user-delete now db user_id none = refl
live_user-delete now db user_id (some s) = elim (Bool-cases (s.user_id == user_id)) [
  | inl dropped ↦
      rw dropped
        (ground (arith, dropped, other-with_id user_id s.user_id (lookup s.user_id db.users)))
  | inr stays ↦ rw stays (
      ground (
        arith,
        stays,
        other-with_id user_id s.user_id (lookup s.user_id db.users),
        lookup-erase user_id s.user_id db.users,
      ))
]

-- What each query finds after the deletion, against what it found before.
pub record Forgets (user_id : ℕ) (db left : Tables) : Type 0 where
  pub by_id : (v : ℕ) → get_user_by_id left v ≡ (if v == user_id then none else get_user_by_id db v)
  pub keys :
      (v : ℕ)
      → get_user_credentials left v ≡ (if v == user_id then none else get_user_credentials db v)
  pub signed_in :
      (now : Timestamp) (token : Text)
      → get_session_user now left token ≡ other_than user_id (get_session_user now db token)
  pub enabled :
      (v : ℕ)
      → get_user_strategy_enabled left v
        ≡ (if v == user_id then true else get_user_strategy_enabled db v)
  pub automation :
      (v : ℕ)
      → get_user_strategy_symbols left v
        ≡ (if v == user_id then [] else get_user_strategy_symbols db v)
  pub orders :
      (v : ℕ) (symbol : Option Text) (max_rows : ℕ)
      → get_user_orders left v symbol max_rows
        ≡ (if v == user_id then [] else get_user_orders db v symbol max_rows)
  pub matches :
      (v : ℕ) (symbol : Option Text) (max_rows : ℕ)
      → get_order_matches left v symbol max_rows
        ≡ (if v == user_id then [] else get_order_matches db v symbol max_rows)
  pub history :
      (v : ℕ) (symbol : Option Text) (max_rows : ℕ)
      → get_position_history left v symbol max_rows ≡ get_position_history db v symbol max_rows

newest-nothing {ℓ} : {A : Type ℓ} (rank : A → ℕ) (max_rows : ℕ) → newest rank max_rows [] ≡ []
unfolding newest sort_newest
newest-nothing rank zero = refl
newest-nothing rank (suc n) = refl

newest_unless {ℓ} :
    {A : Type ℓ} (rank : A → ℕ) (max_rows : ℕ) (b : Bool) (rows : List A)
    → newest rank max_rows (if b then [] else rows) ≡ (if b then [] else newest rank max_rows rows)
newest_unless rank max_rows true rows = newest-nothing rank max_rows
newest_unless rank max_rows false rows = refl

-- If the session tokens of the table are distinct, then after `delete_user` `get_user_by_id`,
-- `get_user_credentials`, `get_session_user`, `get_user_strategy_symbols`, `get_user_orders` and
-- `get_order_matches` find nothing of the deleted account, `get_user_strategy_enabled` answers its
-- default for it, each of them finds of every other account what it found before, and
-- `get_position_history` is unchanged, also for the deleted account.
pub delete_user-Forgets :
    (db : Tables) (user_id : ℕ)
    → HasUniqueKeys db.sessions
    → Forgets user_id db (delete_user db user_id)
unfolding delete_user get_user_strategy_enabled get_user_by_id get_user_credentials get_session_user
    get_user_strategy_symbols get_user_orders get_order_matches get_position_history with_id
delete_user-Forgets db user_id unique = record {
  by_id = λ v. ground (arith, lookup-erase user_id v db.users);
  keys = λ v. ground (arith, lookup-erase user_id v db.credentials);
  signed_in = λ now token.
      ap (live_user now (delete_user db user_id))
        (lookup-without_user (λ t s. s.user_id) user_id token db.sessions unique)
      ∙ live_user-delete now db user_id (lookup token db.sessions);
  enabled = λ v. ground (arith, lookup-erase user_id v db.strategy_settings);
  automation = λ v. symbols_of-without_user user_id v db.strategy_symbols;
  orders = λ v symbol n.
      ap (newest (λ (r : LogRow). r.recorded_at) n)
        (log_of-without_user user_id v symbol db.order_log)
      ∙ newest_unless (λ (r : LogRow). r.recorded_at) n (v == user_id)
          (log_of v symbol db.order_log);
  matches = λ v symbol n.
      ap (newest (λ (r : MatchRow). r.recorded_at) n)
        (matches_of-without_user user_id v symbol db.order_matches)
      ∙ newest_unless (λ (r : MatchRow). r.recorded_at) n (v == user_id)
          (matches_of v symbol db.order_matches);
  history = λ v symbol n. refl;
}
