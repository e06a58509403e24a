-- ===== src/Accounts/Tests.antt =====
-- Sign-ups, sign-ins and sign-outs of two people, and the theorems about them at these.
use crypto_trading_system.Accounts.{
  Crypto, SignupRequest, Site, activate, answered, both, decrypted, finish_signup, http_error,
  is_tradable, login, login_stored, login_user, login_with, logout, open_session, reply,
  require_user, session_reply, sign_out, signup, signup_accepts, signup_created, user_reply,
}
use crypto_trading_system.Accounts.Access.{LetsIn, login-LetsIn, logout_lem}
use crypto_trading_system.Accounts.Passwords.{
  Digest, first_part, hash_password, same_digest, second_part, split_once, split_stored, third_part,
  verify-hash, verify_parts, verify_password,
}
use crypto_trading_system.Accounts.Signup.{IsUnchanged, signup-IsUnchanged}
use crypto_trading_system.Base.{
  [], arith, false, none, refl, some, true, ◌*◌, ◌++◌, ◌+◌, ◌↔◌, ◌∷◌, ◌≡◌,
}
use crypto_trading_system.Base.Text.{Text, codes, is_space, lstrip, strip}
use crypto_trading_system.Database.{OrderRecord, Session, Tables, User, after, for_user, has_user}
use crypto_trading_system.Database.Forget.{Forgets, delete_user-Forgets}
use crypto_trading_system.Database.Log.{
  AreNewestOrders, digits_from, get_user_orders, get_user_orders-AreNewest, log_user_order, str,
}
use crypto_trading_system.Database.Schema.{MeetsSchema}
use crypto_trading_system.Database.Statements.{
  drop_user, execute_each, execute_each-MeetsSchema, insert_user,
}
use crypto_trading_system.Database.Users.{
  create_session, create_user, delete_user, get_session_user, get_user_by_username,
  get_user_credentials, is_named, live_user, mark_credentials_verified, named_user, session_ttl,
  verified_row, with_id,
}
use crypto_trading_system.Exchange.{market}
use crypto_trading_system.Exchange.Result.{ok}
use crypto_trading_system.Models.Common.{Timestamp, buy, second}
use crypto_trading_system.Orders.Sessions.{
  connect_user, deactivate_user_session, has_open_positions, keeps_automation,
}

-- A digest that is the password itself behind its salt, written as it is.
abbrev plain_digest : Digest
plain_digest = record {
  pbkdf2 = λ password salt rounds. salt ++ password;
  encode = λ s. s;
  decode = λ s. some s;
  parse_int = λ s. some 260000;
}

abbrev plain : Crypto
plain = record {
  hash_token = λ t. t;
  encrypt_secret = λ s. s;
  decrypt_secret = λ s. some s;
  digest = plain_digest;
}

verify-hash_example :
    (verify_password plain_digest
        (codes "secret")
        (hash_password plain_digest (codes "secret") (codes "salt"))
      ≡ true)
    × ((verify_password plain_digest
            (codes "other")
            (hash_password plain_digest (codes "secret") (codes "salt"))
          ≡ true)
        ↔ (codes "saltother" ≡ codes "saltsecret"))
verify-hash_example =
    verify-hash plain_digest (codes "salt") refl refl refl (codes "secret") (codes "other")

abbrev ada : User
ada = record {
  username = codes "ada";
  display_name = codes "Ada";
  password_hash = hash_password plain_digest (codes "secret") (codes "salt");
  created_at = 5;
}

abbrev no_session : Session
no_session = record { user_id = 1; created_at = 5; expires_at = 5 + session_ttl }

abbrev tables : Tables
tables = record {
  users = (1, ada) ∷ [];
  next_user_id = 2;
  credentials =
      (
        1,
        record {
          api_key_enc = codes "key";
          api_secret_enc = codes "hidden";
          last_verified_at = none;
        },
      )
      ∷ [];
  sessions = (codes "old", no_session) ∷ [];
  strategy_settings = [];
  strategy_symbols =
      ((1, codes "BTCUSDT"), record { enabled = true; expires_at = some (9 * second) }) ∷ [];
  user_positions = [];
  order_log = [];
  next_log_id = 1;
  positions = [];
  position_history = [];
  order_matches = [];
  orders = [];
  risk_reservations = [];
}

tables-MeetsSchema : MeetsSchema tables
unfolding is_named
tables-MeetsSchema = record {
  unique_ids = (refl, tt);
  unique_names = (refl, tt);
  unique_tokens = (refl, tt);
  fresh = (refl, tt);
  credentials_owned = (refl, tt);
  sessions_owned = (refl, tt);
  settings_owned = tt;
  symbols_owned = (refl, tt);
  positions_owned = tt;
  log_owned = tt;
  matches_owned = tt;
}

abbrev site : Site
site = record {
  db = tables;
  book = record { user_sessions = []; strategy_symbols = [] };
  held_positions = [];
}

abbrev form : SignupRequest
form = record {
  username = codes "bob";
  display_name = none;
  password = codes "hunter2";
  api_key = codes "k";
  api_secret = codes "s";
}

signup_refused :
    (signup plain 7 (codes "salt") (codes "new") form (answered (ok false)) site).1 ≡ http_error 403
unfolding signup signup_accepts signup_created create_user is_named finish_signup is_tradable
    activate connect_user deactivate_user_session keeps_automation has_open_positions strip lstrip
    is_space
signup_refused = refl

signup-IsUnchanged_example :
    IsUnchanged tables
      (signup plain 7 (codes "salt") (codes "new") form (answered (ok false)) site).0.db
signup-IsUnchanged_example =
    signup-IsUnchanged plain 7 (codes "salt") (codes "new") form (answered (ok false)) site 403
      tables-MeetsSchema (λ e. ground (arith, e)) signup_refused

login_answered :
    (login plain (9 * second) (codes "ada") (codes "secret") (codes "new") (ok true) site).1
    ≡ reply (codes "new", 1)
unfolding login login_user get_user_by_username named_user verify_password split_stored split_once
    first_part second_part third_part verify_parts same_digest hash_password str digits_from
    login_stored get_user_credentials decrypted both login_with open_session activate is_tradable
    connect_user mark_credentials_verified verified_row create_session for_user has_user
    session_reply strip lstrip is_space
login_answered = refl

login-LetsIn_example :
    LetsIn plain
      (9 * second)
      (codes "ada")
      (codes "secret")
      (codes "new")
      (99 * second)
      (login plain (9 * second) (codes "ada") (codes "secret") (codes "new") (ok true) site)
login-LetsIn_example =
    login-LetsIn plain (9 * second) (codes "ada") (codes "secret") (codes "new") (ok true) site
      (99 * second) (codes "new", 1) tables-MeetsSchema (omega arith) login_answered

logout_answered : (logout plain (9 * second) (codes "old") site).1 ≡ reply tt
unfolding logout require_user user_reply get_session_user live_user with_id sign_out
logout_answered = refl

logout_lem_example :
    let left = (logout plain (9 * second) (codes "old") site).0 in
    (require_user plain (10 * second) (codes "old") left ≡ http_error 401)
    × (require_user plain (10 * second) (codes "new") left
        ≡ require_user plain (10 * second) (codes "new") site)
logout_lem_example =
    logout_lem plain (9 * second) (codes "old") (codes "new") site (10 * second) logout_answered
      refl

execute_each-MeetsSchema_example : MeetsSchema (
    execute_each
      (λ t. [])
      (λ a b. a)
      ((8, insert_user (codes "bob") (codes "Bob") (codes "x")) ∷ (9, drop_user 1) ∷ [])
      tables)
execute_each-MeetsSchema_example =
    execute_each-MeetsSchema (λ t. []) (λ a b. a)
      ((8, insert_user (codes "bob") (codes "Bob") (codes "x")) ∷ (9, drop_user 1) ∷ []) tables
      tables-MeetsSchema

delete_user-Forgets_example : Forgets 1 tables (delete_user tables 1)
delete_user-Forgets_example = delete_user-Forgets tables 1 (refl, tt)

-- Two orders of the account, recorded at these times.
abbrev order_at : Text → Timestamp → OrderRecord
order_at name t = record {
  client_order_id = some name;
  new_client_order_id = none;
  order_id = some 7;
  recorded_at = some t;
  symbol = some (codes "BTCUSDT");
  side = some buy;
  order_type = some market;
  status = some (codes "NEW");
  price = none;
  orig_qty = none;
  quantity = none;
  executed_qty = none;
  quote_qty = none;
  avg_price = none;
  strategy_variant = none;
  time = none;
  update_time = none;
  transact_time = none;
}

abbrev with_order : Text → Timestamp → Tables → Tables
with_order name t db =
    after db (log_user_order (λ a b. a) (λ s. []) t db 1 (order_at name t) (codes "manual"))

abbrev two_orders : Tables
two_orders = with_order (codes "late") 20 (with_order (codes "early") 10 tables)

get_user_orders-AreNewest_example :
    AreNewestOrders two_orders 1 none 5 (get_user_orders two_orders 1 none 5)
get_user_orders-AreNewest_example = get_user_orders-AreNewest two_orders 1 none 5
