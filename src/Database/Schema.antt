-- ===== src/Database/Schema.antt =====
-- The constraints of the schema as an invariant of the tables, whatever statements run: every row that
-- references an account has one, ids are fresh, and no two accounts have one name.
use crypto_trading_system.Base.{
  Bool, Bool-cases, [], arith, false, inl, inr, is_some, list_beq_iff, list_eq, ltb, nat_eq, none,
  not, option_eq, refl, true, ℕ, ◌+◌, ◌==◌, ◌||◌, ◌∷◌, ◌≡◌, ◌≤◌,
}
use crypto_trading_system.Base.Dict.{
  Dict, HasUniqueKeys, erase, insert, insert-HasUniqueKeys, lookup, lookup-erase, lookup-insert,
}
use crypto_trading_system.Base.Text.{Text}
use crypto_trading_system.Database.{Tables, User, owner_key_eq}
use crypto_trading_system.Database.Owners.{Every, Every-imp, Every-insert}
use crypto_trading_system.Database.Users.{create_user, is_named}
use crypto_trading_system.Models.Common.{Timestamp}
use crypto_trading_system.Orders.Matches.{match_key_eq}
use crypto_trading_system.Orders.Sessions.{user_symbol_eq}

-- `users(id)` has the id.
abbrev pub owned : Dict ℕ User → ℕ → Bool
owned users user_id = is_some (lookup user_id users)

abbrev pub HasUniqueNames : Dict ℕ User → Type 0
HasUniqueNames [] = Unit {0}
HasUniqueNames ((id, user) ∷ users) = (is_named user.username users ≡ false) × HasUniqueNames users

pub record MeetsSchema (db : Tables) : Type 0 where
  pub unique_ids : HasUniqueKeys db.users
  pub unique_names : HasUniqueNames db.users
  pub unique_tokens : HasUniqueKeys db.sessions
  pub fresh : Every (λ id u. ltb id db.next_user_id) db.users
  pub credentials_owned : Every (λ id c. owned db.users id) db.credentials
  pub sessions_owned : Every (λ token s. owned db.users s.user_id) db.sessions
  pub settings_owned : Every (λ id b. owned db.users id) db.strategy_settings
  pub symbols_owned : Every (λ key s. owned db.users key.0) db.strategy_symbols
  pub positions_owned : Every (λ key p. owned db.users key.0) db.user_positions
  pub log_owned : Every (λ key row. owned db.users key.0) db.order_log
  pub matches_owned : Every (λ key row. owned db.users key.0) db.order_matches

-- The new id is behind all ids, so it has no row.
new_id-absent :
    (n m : ℕ) (users : Dict ℕ User) → n ≤ m → Every (λ id u. ltb id n) users → lookup m users ≡ none
new_id-absent n m [] h a = refl
new_id-absent n m ((id, u) ∷ users) h a = ground (arith, h, a.0, new_id-absent n m users h a.1)

pub next_id-absent : (db : Tables) → MeetsSchema db → lookup db.next_user_id db.users ≡ none
next_id-absent db h = new_id-absent db.next_user_id db.next_user_id db.users (omega arith) h.fresh

-- More accounts own no less.
owned-insert :
    (id : ℕ) (u : User) (users : Dict ℕ User) (i : ℕ)
    → owned users i ≡ true
    → owned (insert id u users) i ≡ true
owned-insert id u users i h = ground (arith, h, lookup-insert id i u users)

pub owned-erase :
    (id : ℕ) (users : Dict ℕ User) (i : ℕ)
    → not (i == id) ≡ true
    → owned users i ≡ true
    → owned (erase id users) i ≡ true
owned-erase id users i n h = ground (arith, n, h, lookup-erase id i users)

is_named-insert :
    (name : Text) (id : ℕ) (u : User) (users : Dict ℕ User)
    → lookup id users ≡ none
    → is_named name (insert id u users) ≡ (is_named name users || u.username == name)
unfolding is_named
is_named-insert name id u [] h = ground arith
is_named-insert name id u ((j, w) ∷ users) h = elim (Bool-cases (j == id)) [
  | inl same ↦ absurd (ground (arith, same, h))
  | inr other ↦ rw other (ground (arith, is_named-insert name id u users (rw other at h)))
]

insert-HasUniqueNames :
    (id : ℕ) (u : User) (users : Dict ℕ User)
    → lookup id users ≡ none
    → is_named u.username users ≡ false
    → HasUniqueNames users
    → HasUniqueNames (insert id u users)
unfolding is_named
insert-HasUniqueNames id u [] h n a = (refl, tt)
insert-HasUniqueNames id u ((j, w) ∷ users) h n a = elim (Bool-cases (j == id)) [
  | inl same ↦ absurd (ground (arith, same, h))
  | inr other ↦ rw other (
    ground (
      arith,
      n,
      a.0,
      is_named-insert w.username id u users (rw other at h),
      list_beq_iff w.username u.username,
      list_beq_iff u.username w.username,
    ),
    insert-HasUniqueNames id u users (rw other at h) (ground (arith, n)) a.1,
  )
]

is_named-erase :
    (name : Text) (id : ℕ) (users : Dict ℕ User)
    → is_named name users ≡ false
    → is_named name (erase id users) ≡ false
unfolding is_named
is_named-erase name id [] h = refl
is_named-erase name id ((j, w) ∷ users) h = ground (arith, h, is_named-erase name id users)

pub erase-HasUniqueNames :
    (id : ℕ) (users : Dict ℕ User) → HasUniqueNames users → HasUniqueNames (erase id users)
erase-HasUniqueNames id [] a = tt
erase-HasUniqueNames id ((j, w) ∷ users) a =
    ground (arith, a.0, is_named-erase w.username id users a.0, erase-HasUniqueNames id users a.1)

pub create_user-MeetsSchema :
    (now : Timestamp) (db : Tables) (username display_name password_hash : Text)
    → MeetsSchema db
    → MeetsSchema (create_user now db username display_name password_hash).0
unfolding create_user
create_user-MeetsSchema now db username display_name password_hash h =
    elim (Bool-cases (is_named username db.users)) [
      | inl taken ↦ rw taken h
      | inr free ↦ rw free (
          let u : User = record {
            username = username;
            display_name = display_name;
            password_hash = password_hash;
            created_at = now;
          } in
          let absent = next_id-absent db h in
          let grows = λ (i : ℕ). owned-insert db.next_user_id u db.users i in
          record {
            unique_ids = insert-HasUniqueKeys db.next_user_id u db.users h.unique_ids;
            unique_names =
                insert-HasUniqueNames db.next_user_id u db.users absent free h.unique_names;
            unique_tokens = h.unique_tokens;
            fresh =
                Every-insert (λ id w. ltb id (db.next_user_id + 1)) db.next_user_id u db.users
                  (ground arith)
                  (Every-imp (λ id w. ltb id db.next_user_id) (λ id w. ltb id (db.next_user_id + 1))
                    (λ id w p. ground (arith, p)) db.users h.fresh);
            credentials_owned =
                Every-imp _ _ (λ k v p. grows k p) db.credentials h.credentials_owned;
            sessions_owned =
                Every-imp _ _ (λ k v p. grows v.user_id p) db.sessions h.sessions_owned;
            settings_owned =
                Every-imp _ _ (λ k v p. grows k p) db.strategy_settings h.settings_owned;
            symbols_owned =
                Every-imp _ _ (λ k v p. grows k.0 p) db.strategy_symbols h.symbols_owned;
            positions_owned =
                Every-imp _ _ (λ k v p. grows k.0 p) db.user_positions h.positions_owned;
            log_owned = Every-imp _ _ (λ k v p. grows k.0 p) db.order_log h.log_owned;
            matches_owned = Every-imp _ _ (λ k v p. grows k.0 p) db.order_matches h.matches_owned;
          })
    ]
