-- ===== src/Risk.antt =====
-- services/pretrade_risk.py: `PreTradeRiskEngine`. A critical section under the lock of an account
-- and asset is one step on the engine. The answers of the two loaders, the new id and whether the
-- repository's write returns are arguments; `release`, `mark_uncertain` and `acknowledge` are those whose
-- write returns, and `release_saving`, `mark_uncertain_saving` and `acknowledge_saving` are either.
pub mod Ledger
pub mod Reserve
pub mod Grants
pub mod Release
pub mod Restart
pub mod Saved
pub mod Inserted
pub mod Samples
mod Tests
use crypto_trading_system.Base.{
  Bool, Eq, List, Option, [], arith, count, false, filter, if◌then◌else◌, is_some, list_beq_iff,
  list_eq, nat_eq, none, not, option_beq_iff, option_eq, some, true, ℕ, ◌&&◌, ◌==◌, ◌||◌, ◌↔◌, ◌∷◌,
  ◌≡◌,
}
use crypto_trading_system.Base.Dict.{Dict, erase, get_or, insert, lookup, values}
use crypto_trading_system.Base.Int.{leb_ℤ, ltb_ℤ}
use crypto_trading_system.Base.Text.{Text, codes, upper}
use crypto_trading_system.Decimal.{Decimal, decimal, nought, ◌⊕◌, ◌⊖◌, ◌⊗◌, ◌⊘◌}
use crypto_trading_system.Exchange.{Account, Order, Rules, free_balance}
use crypto_trading_system.Exchange.Result.{
  Result, err, insufficient_balance, not_calculable, nothing_unreserved, notional_exceeds, ok,
  over_utilized, raise_if, risk_error, storage_failed, ◌>>=◌, ◌>>◌,
}
use crypto_trading_system.Models.Common.{OrderSide, buy, sell}

pub record RiskReservation : Type 0 where
  pub reservation_id : Text
  pub account_id : Option ℕ
  pub asset : Text
  pub amount : Decimal
  pub client_order_id : Text
  pub symbol : Text
  pub side : OrderSide

-- A key of `_reserved` and of `_locks`.
abbrev pub CapitalKey : Type 0
CapitalKey = Option ℕ × Text

abbrev pub capital_key_beq : CapitalKey → CapitalKey → Bool
capital_key_beq a b = a.0 == b.0 && a.1 == b.1

pub capital_key_beq_iff : (a b : CapitalKey) → (capital_key_beq a b ≡ true) ↔ (a ≡ b)
capital_key_beq_iff a b = ground (arith, option_beq_iff a.0 b.0, list_beq_iff a.1 b.1)

instance abbrev pub capital_key_eq : Eq CapitalKey
capital_key_eq = record { beq = capital_key_beq; beq_iff = capital_key_beq_iff }

pub record RiskEngine : Type 0 where
  pub maximum : Decimal
  pub maximum_order_notional : Option Decimal
  pub reserved : Dict CapitalKey Decimal
  pub uncertain : Dict Text RiskReservation
  -- The table `risk_reservations`, if there is a repository: each row with its status.
  pub repository : Option (Dict Text (RiskReservation × Text))

-- `TERMINAL_STATUSES`
pub is_terminal : Text → Bool
is_terminal status =
    status == codes "FILLED"
    || (status == codes "CANCELED"
        || (status == codes "REJECTED"
            || (status == codes "EXPIRED" || status == codes "EXPIRED_IN_MATCH")))

pub key_of : RiskReservation → CapitalKey
key_of r = (r.account_id, r.asset)

-- `price` is given, or the price loader is asked.
unfoldable pub unit_price : Order → Result Decimal → Result Decimal
unit_price order loaded = elim order.price [ some p ↦ ok p | none ↦ loaded ]

-- What an order asks of the account.
pub record Demand : Type 0 where
  pub asset : Text
  pub required : Decimal
  pub notional : Decimal

unfoldable pub buy_required : Order → Result Decimal → Result Decimal
buy_required order loaded = elim order.quote_order_qty [
  | some q ↦ ok q
  | none ↦ unit_price order loaded >>= λ p. ok (get_or order.quantity nought ⊗ p)
]

unfoldable pub demand : OrderSide → Order → Rules → Result Decimal → Result Demand
demand buy order rules loaded = do
  required ← buy_required order loaded
  ok (record {
    asset = get_or rules.quote_asset (codes "USDT");
    required = required;
    notional = required;
  })
demand sell order rules loaded = do
  let required = get_or order.quantity nought
  p ← unit_price order loaded
  ok (record { asset = get_or rules.base_asset []; required = required; notional = required ⊗ p })

pub exceeds : Option Decimal → Decimal → Bool
exceeds none d = false
exceeds (some m) d = ltb_ℤ m d

-- `required / free * Decimal(100) > self._maximum`, for a BUY that is not exempt.
pub is_over_utilized : RiskEngine → OrderSide → Bool → Decimal → Decimal → Bool
is_over_utilized engine buy enforce required free =
    enforce && ltb_ℤ engine.maximum (required ⊘ free ⊗ decimal 100)
is_over_utilized engine sell enforce required free = false

-- The checks of `reserve` up to the reservation.
pub approve : RiskEngine → Option ℕ → OrderSide → Bool → Demand → Result Account → Result (Unit {0})
approve engine account_id side enforce d account_loader = do
  raise_if (leb_ℤ d.required nought) (risk_error not_calculable)
  raise_if (exceeds engine.maximum_order_notional d.notional) (risk_error notional_exceeds)
  account ← account_loader
  let free =
      free_balance account d.asset ⊖ get_or (lookup (account_id, d.asset) engine.reserved) nought
  raise_if (leb_ℤ free nought) (risk_error nothing_unreserved)
  raise_if (ltb_ℤ free d.required) (risk_error insufficient_balance)
  raise_if (is_over_utilized engine side enforce d.required free) (risk_error over_utilized)

pub new_reservation : Text → Option ℕ → OrderSide → Order → Demand → RiskReservation
new_reservation id account_id side order d = record {
  reservation_id = id;
  account_id = account_id;
  asset = d.asset;
  amount = d.required;
  client_order_id = get_or order.new_client_order_id [];
  symbol = order.symbol;
  side = side;
}

pub save_row :
    Text
    → RiskReservation
    → Option (Dict Text (RiskReservation × Text))
    → Option (Dict Text (RiskReservation × Text))
save_row status r none = none
save_row status r (some rows) = some (insert r.reservation_id (r, status) rows)

pub delete_row :
    Text → Option (Dict Text (RiskReservation × Text)) → Option (Dict Text (RiskReservation × Text))
delete_row id none = none
delete_row id (some rows) = some (erase id rows)

-- The amount of a key goes down, and a key with nothing left is dropped.
pub lower : CapitalKey → Decimal → Dict CapitalKey Decimal → Dict CapitalKey Decimal
lower key remaining reserved =
    if ltb_ℤ nought remaining then insert key remaining reserved else erase key reserved

pub add_reservation : RiskEngine → RiskReservation → RiskEngine
add_reservation engine r = record engine {
  reserved =
      insert (key_of r) (get_or (lookup (key_of r) engine.reserved) nought ⊕ r.amount)
        engine.reserved;
  repository = save_row (codes "PENDING") r engine.repository;
}

-- `self._reserved[key] -= required` after a write that raised.
pub undo_reservation : RiskEngine → RiskReservation → RiskEngine
undo_reservation engine r =
    let raised = get_or (lookup (key_of r) engine.reserved) nought ⊕ r.amount in
    record engine { reserved = lower (key_of r) (raised ⊖ r.amount) engine.reserved }

-- The write of the new row, which raises where there is a repository and `saves` is false.
pub commit_reservation :
    RiskEngine → RiskReservation → Bool → RiskEngine × Result (Option RiskReservation)
commit_reservation engine r saves =
    if is_some engine.repository && not saves
    then (undo_reservation engine r, err (risk_error storage_failed))
    else (add_reservation engine r, ok (some r))

pub reserve_side :
    RiskEngine
    → Option ℕ
    → OrderSide
    → Order
    → Rules
    → Result Account
    → Result Decimal
    → Bool
    → Text
    → Bool
    → RiskEngine × Result (Option RiskReservation)
reserve_side engine account_id side order rules account_loader price_loader enforce id saves =
    elim (demand side order rules price_loader) [
      | err e ↦ (engine, err e)
      | ok d ↦ elim (approve engine account_id side enforce d account_loader) [
        | err e ↦ (engine, err e)
        | ok _ ↦ commit_reservation engine (new_reservation id account_id side order d) saves
      ]
    ]

-- An order that is no BUY and no SELL reserves nothing.
pub reserve_for :
    RiskEngine
    → Option ℕ
    → Option OrderSide
    → Order
    → Rules
    → Result Account
    → Result Decimal
    → Bool
    → Text
    → Bool
    → RiskEngine × Result (Option RiskReservation)
reserve_for engine account_id none order rules account_loader price_loader enforce id saves =
    (engine, ok none)
reserve_for engine account_id (some side) order rules account_loader price_loader enforce id saves =
    reserve_side engine account_id side order rules account_loader price_loader enforce id saves

pub reserve :
    RiskEngine
    → Option ℕ
    → Order
    → Rules
    → Result Account
    → Result Decimal
    → Bool
    → Text
    → Bool
    → RiskEngine × Result (Option RiskReservation)
reserve engine account_id order rules account_loader price_loader enforce id saves =
    reserve_for engine account_id order.side order rules account_loader price_loader enforce id
      saves

pub release_one : RiskEngine → RiskReservation → RiskEngine
release_one engine r = record engine {
  uncertain = erase r.reservation_id engine.uncertain;
  reserved =
      lower (key_of r) (get_or (lookup (key_of r) engine.reserved) nought ⊖ r.amount)
        engine.reserved;
  repository = delete_row r.reservation_id engine.repository;
}

pub release : RiskEngine → Option RiskReservation → RiskEngine
release engine none = engine
release engine (some r) = release_one engine r

pub keep_uncertain : RiskEngine → RiskReservation → Text → RiskEngine
keep_uncertain engine r status = record engine {
  uncertain = insert r.reservation_id r engine.uncertain;
  repository = save_row status r engine.repository;
}

pub mark_uncertain : RiskEngine → Option RiskReservation → RiskEngine
mark_uncertain engine none = engine
mark_uncertain engine (some r) = keep_uncertain engine r (codes "UNKNOWN")

-- `status.upper() or "OPEN"`
pub status_or_open : Text → Text
status_or_open [] = codes "OPEN"
status_or_open (c ∷ s) = c ∷ s

pub acknowledge_one : RiskEngine → RiskReservation → Text → RiskEngine
acknowledge_one engine r status =
    if is_terminal (upper status)
    then release_one engine r
    else keep_uncertain engine r (status_or_open (upper status))

pub acknowledge : RiskEngine → Option RiskReservation → Text → RiskEngine
acknowledge engine none status = engine
acknowledge engine (some r) status = acknowledge_one engine r status

-- The end of an operation that changes the memory first and then the table: where the write raises, the
-- change in memory stays.
abbrev pub written : Bool → RiskEngine → RiskEngine → RiskEngine × Result (Unit {0})
written saves engine left =
    if saves || not (is_some engine.repository)
    then (left, ok tt)
    else (record left { repository = engine.repository }, err (risk_error storage_failed))

pub release_saving : Bool → RiskEngine → Option RiskReservation → RiskEngine × Result (Unit {0})
release_saving saves engine none = (engine, ok tt)
release_saving saves engine (some r) = written saves engine (release_one engine r)

pub mark_uncertain_saving :
    Bool → RiskEngine → Option RiskReservation → RiskEngine × Result (Unit {0})
mark_uncertain_saving saves engine none = (engine, ok tt)
mark_uncertain_saving saves engine (some r) =
    written saves engine (keep_uncertain engine r (codes "UNKNOWN"))

pub acknowledge_saving :
    Bool → RiskEngine → Option RiskReservation → Text → RiskEngine × Result (Unit {0})
acknowledge_saving saves engine none status = (engine, ok tt)
acknowledge_saving saves engine (some r) status =
    written saves engine (acknowledge_one engine r status)

-- `pending`
unfoldable pub pending_reservations : RiskEngine → Option ℕ → List RiskReservation
pending_reservations engine account_id =
    filter (λ r. r.account_id == account_id) (values engine.uncertain)

pub first_of_client : Text → List RiskReservation → Option RiskReservation
first_of_client id [] = none
first_of_client id (r ∷ rs) = if r.client_order_id == id then some r else first_of_client id rs

-- `acknowledge_client`: the first pending reservation with the client order id.
pub acknowledge_client : RiskEngine → Option ℕ → Text → Text → RiskEngine
acknowledge_client engine account_id id status =
    acknowledge engine (first_of_client id (pending_reservations engine account_id)) status

-- `_restore`, for one stored row.
unfoldable pub restore_one : RiskEngine → RiskReservation → RiskEngine
restore_one engine r = record engine {
  reserved =
      insert (key_of r) (get_or (lookup (key_of r) engine.reserved) nought ⊕ r.amount)
        engine.reserved;
  uncertain = insert r.reservation_id r engine.uncertain;
}

pub restore_each : RiskEngine → Dict Text (RiskReservation × Text) → RiskEngine
restore_each engine [] = engine
restore_each engine ((id, row) ∷ rows) = restore_each (restore_one engine row.0) rows

-- `__init__`: a repository's rows are restored.
pub new_engine : Decimal → Option Decimal → Option (Dict Text (RiskReservation × Text)) → RiskEngine
new_engine maximum notional repository =
    let engine : RiskEngine = record {
      maximum = maximum;
      maximum_order_notional = notional;
      reserved = [];
      uncertain = [];
      repository = repository;
    } in
    restore_each engine (get_or repository [])

pub held_by : Option ℕ → Dict CapitalKey Decimal → Dict Text Decimal
held_by account_id [] = []
held_by account_id (((owner, asset), amount) ∷ d) =
    if owner == account_id then (asset, amount) ∷ held_by account_id d else held_by account_id d

-- `snapshot`: the amounts of the account by asset, and the number of its uncertain orders.
pub snapshot : RiskEngine → Option ℕ → Dict Text Decimal × ℕ
snapshot engine account_id = (
  held_by account_id engine.reserved,
  count (λ r. r.account_id == account_id) (values engine.uncertain),
)
