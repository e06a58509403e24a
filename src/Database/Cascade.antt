-- ===== src/Database/Cascade.antt =====
-- `delete_user` keeps the constraints of the schema, with the rows that reference the account.
use crypto_trading_system.Base.{Eq, list_eq, ltb, nat_eq, not, option_eq, ℕ, ◌==◌}
use crypto_trading_system.Base.Dict.{Dict, erase, erase-HasUniqueKeys}
use crypto_trading_system.Database.{Tables, owner_key_eq}
use crypto_trading_system.Database.Owners.{
  Every, Every-both, Every-erase, Every-without_user, erase-Foreign, without_user-Foreign,
  without_user-HasUniqueKeys,
}
use crypto_trading_system.Database.Schema.{MeetsSchema, erase-HasUniqueNames, owned, owned-erase}
use crypto_trading_system.Database.Users.{delete_user, without_user}
use crypto_trading_system.Orders.Matches.{match_key_eq}
use crypto_trading_system.Orders.Sessions.{user_symbol_eq}

module _ (db : Tables) (user_id : ℕ) (h : MeetsSchema db) where
  module _ {ℓ κ} {K : Type ℓ} {V : Type κ} ⦃e : Eq K⦄ (owner : K → V → ℕ) where
    -- The rows of other accounts keep their owners.
    others :
        (d : Dict K V)
        → Every (λ k v. owned db.users (owner k v)) d
        → Every (λ k v. owned (erase user_id db.users) (owner k v)) (without_user owner user_id d)
    others d a =
        Every-both (λ k v. not (owner k v == user_id)) (λ k v. owned db.users (owner k v))
          (λ k v. owned (erase user_id db.users) (owner k v))
          (λ k v p q. owned-erase user_id db.users (owner k v) p q) (without_user owner user_id d)
          (without_user-Foreign owner user_id d)
          (Every-without_user owner (λ k v. owned db.users (owner k v)) user_id d a)

  others_by_id :
      {V : Type 0} (d : Dict ℕ V)
      → Every (λ k v. owned db.users k) d
      → Every (λ k v. owned (erase user_id db.users) k) (erase user_id d)
  others_by_id d a =
      Every-both (λ k v. not (k == user_id)) (λ k v. owned db.users k)
        (λ k v. owned (erase user_id db.users) k) (λ k v p q. owned-erase user_id db.users k p q)
        (erase user_id d) (erase-Foreign user_id d)
        (Every-erase (λ k v. owned db.users k) user_id d a)

  pub delete_user-MeetsSchema : MeetsSchema (delete_user db user_id)
  unfolding delete_user
  delete_user-MeetsSchema = record {
    unique_ids = erase-HasUniqueKeys user_id db.users h.unique_ids;
    unique_names = erase-HasUniqueNames user_id db.users h.unique_names;
    unique_tokens =
        without_user-HasUniqueKeys (λ token s. s.user_id) user_id db.sessions h.unique_tokens;
    fresh = Every-erase (λ id u. ltb id db.next_user_id) user_id db.users h.fresh;
    credentials_owned = others_by_id db.credentials h.credentials_owned;
    sessions_owned = others (λ token s. s.user_id) db.sessions h.sessions_owned;
    settings_owned = others_by_id db.strategy_settings h.settings_owned;
    symbols_owned = others (λ key v. key.0) db.strategy_symbols h.symbols_owned;
    positions_owned = others (λ key v. key.0) db.user_positions h.positions_owned;
    log_owned = others (λ key v. key.0) db.order_log h.log_owned;
    matches_owned = others (λ key v. key.0) db.order_matches h.matches_owned;
  }
