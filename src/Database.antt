-- ===== src/Database.antt =====
-- services/db_handler.py: the tables of `_initialize` and, in the children, the statements on them. A
-- table with a primary or unique key is a dictionary from the key to the row. `updated_at`, which
-- nothing reads, is left out, and so is the JSON text of a payload, which stands for the value that
-- it is read back as. `now` is the wall clock.
pub mod Instants
pub mod Newest
pub mod Users
pub mod Owners
pub mod Strategies
pub mod Holdings
pub mod Log
pub mod Reports
pub mod Schema
pub mod Cascade
pub mod Keeps
pub mod Statements
pub mod Forget
use crypto_trading_system.Base.{
  Bool, Eq, Option, arith, if◌then◌else◌, is_some, list_beq_iff, list_eq, nat_beq_iff, nat_eq,
  option_eq, true, ℕ, ◌&&◌, ◌==◌, ◌↔◌, ◌≡◌,
}
use crypto_trading_system.Base.Dict.{Dict, lookup}
use crypto_trading_system.Base.Text.{Text}
use crypto_trading_system.Decimal.{Decimal}
use crypto_trading_system.Exchange.{OrderType}
use crypto_trading_system.Models.Common.{
  OrderSide, StrategyVariant, Timestamp, variant_beq_iff, variant_eq,
}
use crypto_trading_system.Models.Strategy.{Position}
use crypto_trading_system.Orders.Matches.{MatchKey, OrderMatch}
use crypto_trading_system.Positions.{exit_reason}
use crypto_trading_system.Risk.{RiskReservation}

pub record User : Type 0 where
  pub username : Text
  pub display_name : Text
  pub password_hash : Text
  pub created_at : Timestamp

pub record Credentials : Type 0 where
  pub api_key_enc : Text
  pub api_secret_enc : Text
  pub last_verified_at : Option Timestamp

-- A row of `sessions`, under the hash of its token.
pub record Session : Type 0 where
  pub user_id : ℕ
  pub created_at : Timestamp
  pub expires_at : Timestamp

pub record SymbolSetting : Type 0 where
  pub enabled : Bool
  pub expires_at : Option Timestamp

-- A closed position in `position_history`.
pub record HistoryRow : Type 0 where
  pub symbol : Text
  pub variant : StrategyVariant
  pub entry_price : Decimal
  pub exit_price : Decimal
  pub quantity : Decimal
  pub realized_pnl : Decimal
  pub exit_reason : Text
  pub opened_at : Timestamp
  pub closed_at : Timestamp

-- What `_record` hands to `log_user_order`: the request, the audit and the answer in one object.
pub record OrderRecord : Type 0 where
  pub client_order_id : Option Text
  pub new_client_order_id : Option Text
  pub order_id : Option ℕ
  pub recorded_at : Option Timestamp
  pub symbol : Option Text
  pub side : Option OrderSide
  pub order_type : Option OrderType
  pub status : Option Text
  pub price : Option Decimal
  pub orig_qty : Option Decimal
  pub quantity : Option Decimal
  pub executed_qty : Option Decimal
  pub quote_qty : Option Decimal
  pub avg_price : Option Decimal
  pub strategy_variant : Option StrategyVariant
  pub time : Option ℕ
  pub update_time : Option ℕ
  pub transact_time : Option ℕ

-- A row of `order_log`, under its account and record key.
pub record LogRow : Type 0 where
  pub row_id : ℕ
  pub symbol : Text
  pub side : Option OrderSide
  pub order_type : Option OrderType
  pub status : Text
  pub price : Option Decimal
  pub orig_qty : Option Decimal
  pub executed_qty : Decimal
  pub avg_price : Option Decimal
  pub strategy_variant : Option StrategyVariant
  pub source : Text
  pub order_time : Option Timestamp
  pub status_time : Timestamp
  pub recorded_at : Timestamp
  pub payload : OrderRecord

-- A row of `order_matches`, under its account, entry and exit.
pub record MatchRow : Type 0 where
  pub match : OrderMatch
  pub recorded_at : Timestamp

abbrev pub HistoryKey : Type 0
HistoryKey = ℕ × Text × StrategyVariant × Timestamp

abbrev pub history_key_beq : HistoryKey → HistoryKey → Bool
history_key_beq a b = a.0 == b.0 && (a.1 == b.1 && (a.2 == b.2 && a.3 == b.3))

pub history_key_beq_iff : (a b : HistoryKey) → (history_key_beq a b ≡ true) ↔ (a ≡ b)
history_key_beq_iff a b =
    ground (
      arith,
      nat_beq_iff a.0 b.0,
      list_beq_iff a.1 b.1,
      variant_beq_iff a.2 b.2,
      nat_beq_iff a.3 b.3,
    )

instance abbrev pub history_key_eq : Eq HistoryKey
history_key_eq = record { beq_iff = history_key_beq_iff; beq = history_key_beq }

-- The account, the symbol and the variant.
abbrev pub OwnerKey : Type 0
OwnerKey = ℕ × Text × StrategyVariant

abbrev pub owner_key_beq : OwnerKey → OwnerKey → Bool
owner_key_beq a b = a.0 == b.0 && (a.1 == b.1 && a.2 == b.2)

pub owner_key_beq_iff : (a b : OwnerKey) → (owner_key_beq a b ≡ true) ↔ (a ≡ b)
owner_key_beq_iff a b =
    ground (arith, nat_beq_iff a.0 b.0, list_beq_iff a.1 b.1, variant_beq_iff a.2 b.2)

instance abbrev pub owner_key_eq : Eq OwnerKey
owner_key_eq = record { beq_iff = owner_key_beq_iff; beq = owner_key_beq }

pub record Tables : Type 0 where
  pub users : Dict ℕ User
  -- `AUTOINCREMENT`: an id is never given twice.
  pub next_user_id : ℕ
  pub credentials : Dict ℕ Credentials
  pub sessions : Dict Text Session
  pub strategy_settings : Dict ℕ Bool
  pub strategy_symbols : Dict (ℕ × Text) SymbolSetting
  pub user_positions : Dict OwnerKey Position
  pub order_log : Dict (ℕ × Text) LogRow
  pub next_log_id : ℕ
  pub positions : Dict (Text × StrategyVariant) Position
  pub position_history : Dict HistoryKey HistoryRow
  pub order_matches : Dict MatchKey MatchRow
  -- The table `orders`: the payloads by their record key.
  pub orders : Dict Text OrderRecord
  -- Each reservation with its status.
  pub risk_reservations : Dict Text (RiskReservation × Text)

-- `username_taken` is the `ValueError` of `create_user`, `no_such_user` the violation of a foreign key.
pub data StoreError : Type 0 where
  username_taken no_such_user : StoreError

pub data Stored (A : Type 0) : Type 0 where
  done : A → Stored A
  refused_by : StoreError → Stored A

unfoldable pub has_user : Tables → ℕ → Bool
has_user db user_id = is_some (lookup user_id db.users)

-- A row that references an account is refused where there is none.
unfoldable pub for_user : Tables → ℕ → Tables → Stored Tables
for_user db user_id written = if has_user db user_id then done written else refused_by no_such_user

-- What a refused statement leaves.
abbrev pub after : Tables → Stored Tables → Tables
after db (done written) = written
after db (refused_by e) = db
