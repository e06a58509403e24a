-- ===== src/Accounts/Access.antt =====
-- Who is let in: a sign-in lets its token in for a week, a sign-out shuts it out.
use crypto_trading_system.Accounts.{
  Crypto, Reply, Site, activate, decrypted, http_error, is_blank, login, login_stored, login_user,
  login_with, logout, open_session, reply, require_user, session_reply, sign_out, user_reply,
  within,
}
use crypto_trading_system.Accounts.Passwords.{verify_password}
use crypto_trading_system.Accounts.Signup.{opens}
use crypto_trading_system.Base.{
  Bool, Bool-cases, Option, [], ap, arith, false, inl, inr, is_some, list_beq_iff, list_eq, nat_eq,
  none, option_eq, refl, some, true, ℕ, ◌&&◌, ◌+◌, ◌==◌, ◌||◌, ◌∙◌, ◌∷◌, ◌≡◌, ◌≤◌,
}
use crypto_trading_system.Base.Dict.{
  Dict, HasUniqueKeys, erase, insert, lookup, lookup-erase, lookup-insert,
}
use crypto_trading_system.Base.Text.{Text, strip}
use crypto_trading_system.Database.{Credentials, Session, Tables, User, for_user, has_user}
use crypto_trading_system.Database.Instants.{not_before}
use crypto_trading_system.Database.Schema.{MeetsSchema, owned}
use crypto_trading_system.Database.Users.{
  create_session, delete_session, get_session_user, get_user_by_id, get_user_by_username,
  get_user_credentials, live_user, mark_credentials_verified, named_user, session_ttl, with_id,
}
use crypto_trading_system.Exchange.Result.{Result}
use crypto_trading_system.Models.Common.{Timestamp, second}
use crypto_trading_system.Orders.Placement.{refused}

named_user-found :
    (name : Text) (users : Dict ℕ User) (id : ℕ) (u : User)
    → HasUniqueKeys users
    → named_user name users ≡ some (id, u)
    → (lookup id users ≡ some u) × (u.username ≡ name)
unfolding named_user
named_user-found name [] id u k h = absurd (ground (arith, h))
named_user-found name ((j, w) ∷ users) id u k h = elim (Bool-cases (w.username == name)) [
  | inl same ↦
      let found : some (j, w) ≡ some (id, u) = (rw same at h) in
      (ground (arith, found), ground (arith, found, (list_beq_iff w.username name).0 same))
  | inr other ↦
      let rest = named_user-found name users id u k.1 (rw other at h) in
      (ground (arith, rest.0, k.0, ap (λ i. lookup i users) {x = j} {y = id}), rest.1)
]

module _ (c : Crypto) (now : Timestamp) where
  live-session :
      (later : Timestamp) (db : Tables) (user_id : ℕ)
      → later + second ≤ now + session_ttl
      → live_user later db
          (some (record { user_id = user_id; created_at = now; expires_at = now + session_ttl }))
        ≡ with_id user_id (lookup user_id db.users)
  unfolding live_user
  live-session later db user_id h = rw (not_before (now + session_ttl) later h) refl

  -- The token of a new session stands for its account until a second before it expires.
  pub session-signs_in :
      (later : Timestamp) (token : Text) (user_id : ℕ) (site : Site)
      → owned site.db.users user_id ≡ true
      → later + second ≤ now + session_ttl
      → require_user c later token (open_session c now token user_id site).0
        ≡ user_reply (get_user_by_id site.db user_id)
  unfolding require_user open_session create_session for_user has_user session_reply
      get_session_user get_user_by_id
  session-signs_in later token user_id site o h =
      let s : Session = record {
        user_id = user_id;
        created_at = now;
        expires_at = now + session_ttl;
      } in
      let key = c.hash_token token in
      let self : (key == key) ≡ true = (list_beq_iff key key).1 refl in
      let stored : lookup key (insert key s site.db.sessions) ≡ some s =
        lookup-insert key key s site.db.sessions ∙ rw self refl in
      rw o (
        rw stored (
          ap user_reply (
            live-session later (record site.db { sessions = insert key s site.db.sessions }) user_id
              h)))

  activate-accounts :
      (user_id : ℕ) (k s : Text) (answer : Result Bool) (site : Site)
      → (activate c now false user_id k s answer site).db.users ≡ site.db.users
  unfolding activate mark_credentials_verified
  activate-accounts user_id k s answer site = ground arith

  -- The answers of `login` and what they say of the account.
  abbrev SignsIn : Text → Timestamp → ℕ → User → Site × Reply (Text × ℕ) → Type 0
  SignsIn token later user_id u end =
      (end.1 ≡ reply (token, user_id)) × (require_user c later token end.0 ≡ reply (user_id, u))

  login_with-cases :
      (token : Text) (user_id : ℕ) (u : User) (answer : Result Bool) (site : Site)
      (keys : Option (Text × Text)) (later : Timestamp) (x : Text × ℕ)
      → lookup user_id site.db.users ≡ some u
      → later + second ≤ now + session_ttl
      → (login_with c now token user_id answer site keys).1 ≡ reply x
      → SignsIn token later user_id u (login_with c now token user_id answer site keys)
  unfolding login_with user_reply get_user_by_id with_id
  login_with-cases token user_id u answer site none later x found h e = absurd (ground (arith, e))
  login_with-cases token user_id u answer site (some keys) later x found h e =
      elim (Bool-cases (is_blank keys.0 || is_blank keys.1)) [
        | inl blank ↦ absurd (ground (arith, blank, e))
        | inr given_keys ↦
            let active = activate c now false user_id keys.0 keys.1 answer site in
            let users = activate-accounts user_id keys.0 keys.1 answer site in
            let row : owned active.db.users user_id ≡ true =
              ap (λ d. owned d user_id) users ∙ ap is_some found in
            rw given_keys (
              opens c now token user_id active row,
              session-signs_in later token user_id active row h
                  ∙ ap (λ d. user_reply (with_id user_id (lookup user_id d))) users
                  ∙ ap (λ o. user_reply (with_id user_id o)) found,
            )
      ]

  login_stored-cases :
      (token : Text) (user_id : ℕ) (u : User) (answer : Result Bool) (site : Site)
      (stored : Option Credentials) (later : Timestamp) (x : Text × ℕ)
      → lookup user_id site.db.users ≡ some u
      → later + second ≤ now + session_ttl
      → (login_stored c now token user_id answer site stored).1 ≡ reply x
      → SignsIn token later user_id u (login_stored c now token user_id answer site stored)
  unfolding login_stored
  login_stored-cases token user_id u answer site none later x found h e = absurd (ground (arith, e))
  login_stored-cases token user_id u answer site (some row) later x found h e =
      login_with-cases token user_id u answer site (decrypted c now row) later x found h e

  -- The account that a sign-in lets in.
  abbrev pub LetsIn : Text → Text → Text → Timestamp → Site × Reply (Text × ℕ) → Type 0
  LetsIn username password token later end =
      (user_id : ℕ) × (u : User) × (end.1 ≡ reply (token, user_id))
      × (require_user c later token end.0 ≡ reply (user_id, u))
      × (u.username ≡ strip username)
      × (verify_password c.digest password u.password_hash ≡ true)

  login_user-cases :
      (username password token : Text) (answer : Result Bool) (site : Site)
      (found : Option (ℕ × User)) (later : Timestamp) (x : Text × ℕ)
      → ((id : ℕ) (u : User)
          → found ≡ some (id, u)
          → (lookup id site.db.users ≡ some u) × (u.username ≡ strip username))
      → later + second ≤ now + session_ttl
      → (login_user c now password token answer site found).1 ≡ reply x
      → LetsIn username password token later (login_user c now password token answer site found)
  unfolding login_user
  login_user-cases username password token answer site none later x named h e =
      absurd (ground (arith, e))
  login_user-cases username password token answer site (some (id, u)) later x named h e =
      elim (Bool-cases (verify_password c.digest password u.password_hash)) [
        | inl right ↦
            let row = named id u refl in
            let end =
              login_stored-cases token id u answer site (get_user_credentials site.db id) later x
                row.0 h (rw right at e) in
            (id, u, rw right end.0, rw right end.1, row.1, right)
        | inr wrong ↦ absurd (ground (arith, wrong, e))
      ]

-- A sign-in that is answered has checked the password of the account with the given name, and its token
-- stands for this account until a second before the seven days are over.
pub login-LetsIn :
    (c : Crypto) (now : Timestamp) (username password token : Text) (answer : Result Bool)
    (site : Site) (later : Timestamp) (x : Text × ℕ)
    → MeetsSchema site.db
    → later + second ≤ now + session_ttl
    → (login c now username password token answer site).1 ≡ reply x
    → LetsIn c now username password token later (login c now username password token answer site)
unfolding login get_user_by_username
login-LetsIn c now username password token answer site later x schema h e =
    elim (Bool-cases (within 1 32 username && within 1 128 password)) [
      | inl fits ↦ rw fits (
          login_user-cases c now username password token answer site
            (named_user (strip username) site.db.users) later x
            (λ id u q. named_user-found (strip username) site.db.users id u schema.unique_ids q) h
            (rw fits at e))
      | inr refused ↦ absurd (ground (arith, refused, e))
    ]

sign_out-shuts_out :
    (c : Crypto) (now : Timestamp) (token : Text) (site : Site) (found : Reply (ℕ × User))
    → (sign_out c now token site found).1 ≡ reply tt
    → (later : Timestamp)
    → require_user c later token (sign_out c now token site found).0 ≡ http_error 401
unfolding sign_out delete_session require_user get_session_user live_user user_reply
sign_out-shuts_out c now token site (http_error status) e later = absurd (ground (arith, e))
sign_out-shuts_out c now token site (reply (id, u)) e later =
    let key = c.hash_token token in
    let self : (key == key) ≡ true = (list_beq_iff key key).1 refl in
    let gone : lookup key (erase key site.db.sessions) ≡ none =
      lookup-erase key key site.db.sessions ∙ rw self refl in
    rw gone refl

sign_out-others :
    (c : Crypto) (now : Timestamp) (token other : Text) (site : Site) (found : Reply (ℕ × User))
    (later : Timestamp)
    → (c.hash_token token == c.hash_token other) ≡ false
    → require_user c later other (sign_out c now token site found).0
      ≡ require_user c later other site
unfolding sign_out delete_session require_user get_session_user live_user
sign_out-others c now token other site (http_error status) later d = refl
sign_out-others c now token other site (reply (id, u)) later d =
    let same : lookup (c.hash_token other) (erase (c.hash_token token) site.db.sessions)
        ≡ lookup (c.hash_token other) site.db.sessions =
      lookup-erase (c.hash_token token) (c.hash_token other) site.db.sessions ∙ rw d refl in
    rw same refl

-- After a sign-out that is answered its token is refused at every time, and every token with another
-- hash, also of the same account, stands for what it stood for.
pub logout_lem :
    (c : Crypto) (now : Timestamp) (token other : Text) (site : Site) (later : Timestamp)
    → (logout c now token site).1 ≡ reply tt
    → (c.hash_token token == c.hash_token other) ≡ false
    → let left = (logout c now token site).0 in
      (require_user c later token left ≡ http_error 401)
      × (require_user c later other left ≡ require_user c later other site)
unfolding logout
logout_lem c now token other site later e d = (
  sign_out-shuts_out c now token site (require_user c now token site) e later,
  sign_out-others c now token other site (require_user c now token site) later d,
)
