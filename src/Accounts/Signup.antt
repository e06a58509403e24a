-- ===== src/Accounts/Signup.antt =====
-- api/auth_routes.py: a sign-up that is refused leaves no account behind.
use crypto_trading_system.Accounts.{
  Course, Crypto, Reply, SignupRequest, Site, activate, answered, finish_signup, http_error,
  is_blank, is_tradable, open_session, persist, reply, session_reply, signup, signup_accepts,
  signup_created, unmarked, unreadable, unsaved,
}
use crypto_trading_system.Accounts.Passwords.{hash_password}
use crypto_trading_system.Base.{
  Bool, Bool-cases, Eq, [], ap, arith, false, inl, inr, list_eq, nat_beq_iff, nat_eq, none, not,
  option_eq, refl, sym, true, ℕ, ◌+◌, ◌==◌, ◌||◌, ◌∙◌, ◌∷◌, ◌≡◌, ◌≢◌,
}
use crypto_trading_system.Base.Dict.{Dict, erase-absent, get_or, insert, lookup, lookup-insert}
use crypto_trading_system.Base.Text.{Text, strip}
use crypto_trading_system.Database.{Stored, Tables, User, done, for_user, has_user, owner_key_eq}
use crypto_trading_system.Database.Owners.{
  Every, Every-imp, Foreign, erase-insert_new, without_user-id,
}
use crypto_trading_system.Database.Schema.{MeetsSchema, next_id-absent, owned}
use crypto_trading_system.Database.Users.{
  create_session, create_user, delete_user, is_named, mark_credentials_verified,
  set_user_credentials,
}
use crypto_trading_system.Exchange.Result.{Result}
use crypto_trading_system.Models.Common.{Timestamp}
use crypto_trading_system.Orders.Matches.{match_key_eq}
use crypto_trading_system.Orders.Normalization.{invalid}
use crypto_trading_system.Orders.Placement.{refused}
use crypto_trading_system.Orders.Sessions.{user_symbol_eq}

-- Rows of accounts are no rows of an id that no account has.
owned-Foreign {ℓ κ} :
    {K : Type ℓ} {V : Type κ} ⦃e : Eq K⦄ (owner : K → V → ℕ) (users : Dict ℕ User) (id : ℕ)
    → lookup id users ≡ none
    → (d : Dict K V) → Every (λ k v. owned users (owner k v)) d
    → Foreign owner id d
owned-Foreign owner users id absent d a =
    Every-imp (λ k v. owned users (owner k v)) (λ k v. not (owner k v == id))
      (λ k v p. differs (owner k v) p) d a
  where
    differs : (i : ℕ) → owned users i ≡ true → not (i == id) ≡ true
    differs i p = elim (Bool-cases (i == id)) [
      | inl same ↦
          absurd (ground (arith, p, absent, ap (λ j. lookup j users) ((nat_beq_iff i id).0 same)))
      | inr other ↦ rw other refl
    ]

owned-absent :
    {V : Type 0} (users : Dict ℕ User) (id : ℕ)
    → lookup id users ≡ none
    → (d : Dict ℕ V) → Every (λ k v. owned users k) d
    → lookup id d ≡ none
owned-absent users id absent [] a = refl
owned-absent users id absent ((k, v) ∷ d) a = ground (
  arith,
  a.0,
  absent,
  ap (λ j. lookup j users) {x = k} {y = id},
  owned-absent users id absent d a.1,
)

-- What `create_user` adds.
abbrev with_user : Tables → User → Tables
with_user db u = record db {
  users = insert db.next_user_id u db.users;
  next_user_id = db.next_user_id + 1;
}

delete-with_user :
    (db : Tables) (u : User)
    → MeetsSchema db
    → delete_user (with_user db u) db.next_user_id
      ≡ record db { next_user_id = db.next_user_id + 1 }
unfolding delete_user
delete-with_user db u h =
    let id = db.next_user_id in
    let absent = next_id-absent db h in
    rw
      (
        erase-insert_new id u db.users absent,
        erase-absent id db.credentials
            (owned-absent db.users id absent db.credentials h.credentials_owned),
        without_user-id (λ t s. s.user_id) id db.sessions
            (owned-Foreign (λ t s. s.user_id) db.users id absent db.sessions h.sessions_owned),
        erase-absent id db.strategy_settings
            (owned-absent db.users id absent db.strategy_settings h.settings_owned),
        without_user-id (λ key v. key.0) id db.strategy_symbols
            (owned-Foreign (λ key v. key.0) db.users id absent db.strategy_symbols h.symbols_owned),
        without_user-id (λ key v. key.0) id db.user_positions
            (owned-Foreign (λ key v. key.0) db.users id absent db.user_positions h.positions_owned),
        without_user-id (λ key v. key.0) id db.order_log
            (owned-Foreign (λ key v. key.0) db.users id absent db.order_log h.log_owned),
        without_user-id (λ key v. key.0) id db.order_matches
            (owned-Foreign (λ key v. key.0) db.users id absent db.order_matches h.matches_owned),
      )
      refl

-- The tables with another next id.
abbrev pub IsUnchanged : Tables → Tables → Type 0
IsUnchanged db left = (n : ℕ) × (left ≡ record db { next_user_id = n })

module _ (c : Crypto) (now : Timestamp) where
  persist-users :
      (user_id : ℕ) (k s : Text) (db : Tables) → (persist c now user_id k s db).users ≡ db.users
  unfolding persist set_user_credentials for_user
  persist-users user_id k s db = ground arith

  activate-users :
      (keep : Bool) (user_id : ℕ) (k s : Text) (answer : Result Bool) (site : Site)
      → (activate c now keep user_id k s answer site).db.users ≡ site.db.users
  unfolding activate mark_credentials_verified
  activate-users true user_id k s answer site = ground (arith, persist-users user_id k s site.db)
  activate-users false user_id k s answer site = ground arith

  -- An account that exists gets its session.
  pub opens :
      (token : Text) (user_id : ℕ) (site : Site)
      → owned site.db.users user_id ≡ true
      → (open_session c now token user_id site).1 ≡ reply (token, user_id)
  unfolding open_session create_session for_user has_user session_reply
  opens token user_id site h = rw h refl

  not_both : (x : Text × ℕ) (status : ℕ) → reply x ≡ http_error status → ⊥
  not_both x status e = ground (arith, e)

  code_of : Reply (Text × ℕ) → ℕ
  code_of (reply x) = 0
  code_of (http_error status) = status

  other : (status : ℕ) (r : Reply (Text × ℕ)) → r ≡ http_error status → status ≡ code_of r
  unfolding code_of
  other status r e = sym (ap code_of e)

  -- An account that cannot trade is deleted from the tables as they were before its keys came.
  rejected :
      (token : Text) (user_id : ℕ) (k s : Text) (answer : Result Bool) (site : Site)
      → is_tradable answer ≡ false
      → (finish_signup c now token user_id answer
          (activate c now true user_id k s answer site)).0.db
        ≡ delete_user site.db user_id
  unfolding finish_signup activate
  rejected token user_id k s answer site refused = rw refused refl

  finish-IsUnchanged :
      (token : Text) (k s : Text) (answer : Result Bool) (site : Site) (u : User) (status : ℕ)
      → MeetsSchema site.db
      → let created = record site { db = with_user site.db u } in
        let (left, r) =
          finish_signup c now token site.db.next_user_id answer
            (activate c now true site.db.next_user_id k s answer created) in
        r ≡ http_error status → IsUnchanged site.db left.db
  unfolding finish_signup
  finish-IsUnchanged token k s answer site u status h r = elim (Bool-cases (is_tradable answer)) [
    | inl trades ↦
        let created = record site { db = with_user site.db u } in
        let active = activate c now true site.db.next_user_id k s answer created in
        let has_row : owned active.db.users site.db.next_user_id ≡ true =
          ap (λ users. owned users site.db.next_user_id)
            (activate-users true site.db.next_user_id k s answer created)
          ∙ ground
              (arith, lookup-insert site.db.next_user_id site.db.next_user_id u site.db.users) in
        let stays : (open_session c now token site.db.next_user_id active).1 ≡ http_error status =
          (rw trades at r) in
        absurd (
          not_both (token, site.db.next_user_id) status
            (sym (opens token site.db.next_user_id active has_row) ∙ stays))
    | inr refused ↦ (
      site.db.next_user_id + 1,
      rejected token site.db.next_user_id k s answer (record site { db = with_user site.db u })
            refused
          ∙ delete-with_user site.db u h,
    )
  ]

  created-IsUnchanged :
      (token k s : Text) (course : Course) (site : Site) (u : User) (status : ℕ)
      → MeetsSchema site.db
      → status ≢ 500
      → let created : Tables × Stored ℕ = (with_user site.db u, done site.db.next_user_id) in
        (signup_created c now token k s course site created).1 ≡ http_error status
        → IsUnchanged site.db (signup_created c now token k s course site created).0.db
  unfolding signup_created code_of
  created-IsUnchanged token k s (answered answer) site u status h not_500 r =
      finish-IsUnchanged token k s answer site u status h r
  created-IsUnchanged token k s unreadable site u status h not_500 r =
      absurd (not_500 (other status (http_error 500) r))
  created-IsUnchanged token k s unsaved site u status h not_500 r =
      absurd (not_500 (other status (http_error 500) r))
  created-IsUnchanged token k s unmarked site u status h not_500 r =
      absurd (not_500 (other status (http_error 500) r))

  signup_created-IsUnchanged :
      (token k s : Text) (course : Course) (site : Site) (name shown hash : Text) (status : ℕ)
      → MeetsSchema site.db
      → status ≢ 500
      → (signup_created c now token k s course site (create_user now site.db name shown hash)).1
        ≡ http_error status
      → IsUnchanged site.db
          (signup_created c now token k s course site
            (create_user now site.db name shown hash)).0.db
  unfolding signup_created create_user
  signup_created-IsUnchanged token k s course site name shown hash status h not_500 r =
      elim (Bool-cases (is_named name site.db.users)) [
        | inl taken ↦ rw taken (site.db.next_user_id, refl)
        | inr free ↦
            let u : User = record {
              username = name;
              display_name = shown;
              password_hash = hash;
              created_at = now;
            } in
            rw free (created-IsUnchanged token k s course site u status h not_500 (rw free at r))
      ]

-- A sign-up that ends in an `HTTPException`, so in any error but a 500, leaves every table as it was,
-- except that an id may be used up: whether the form was refused, the name was taken or the exchange
-- did not let the keys trade.
pub signup-IsUnchanged :
    (c : Crypto) (now : Timestamp) (salt token : Text) (request : SignupRequest) (course : Course)
    (site : Site) (status : ℕ)
    → MeetsSchema site.db
    → status ≢ 500
    → (signup c now salt token request course site).1 ≡ http_error status
    → IsUnchanged site.db (signup c now salt token request course site).0.db
unfolding signup
signup-IsUnchanged c now salt token request course site status h not_500 r =
    let bad =
      not (signup_accepts request)
      || (is_blank request.username || (is_blank request.api_key || is_blank request.api_secret)) in
    elim (Bool-cases bad) [
      | inl invalid ↦ rw invalid (site.db.next_user_id, refl)
      | inr valid ↦ rw valid (
          signup_created-IsUnchanged c now token (strip request.api_key) (strip request.api_secret)
            course site (strip request.username)
            (strip (get_or request.display_name (strip request.username)))
            (hash_password c.digest request.password salt) status h not_500 (rw valid at r))
    ]
