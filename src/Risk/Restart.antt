-- ===== src/Risk/Restart.antt =====
-- The stored rows of the engine, and what a new process makes of them.
use crypto_trading_system.Base.{
  Bool-cases, List, Option, [], inl, inr, list_eq, nat_eq, option_eq, refl, some, sym, ◌==◌, ◌∙◌,
  ◌∷◌, ◌≡◌,
}
use crypto_trading_system.Base.Dict.{Dict, HasUniqueKeys, get_or, lookup}
use crypto_trading_system.Base.Int.{int_laws, ◌+ℤ◌, ◌<ℤ◌}
use crypto_trading_system.Base.Text.{Text}
use crypto_trading_system.Decimal.{Decimal, IsExact, nought}
use crypto_trading_system.Risk.{
  CapitalKey, RiskEngine, RiskReservation, add_reservation, capital_key_eq, key_of, new_engine,
  restore_each, restore_one,
}
use crypto_trading_system.Risk.Ledger.{AllPositive, Represents, held}
use crypto_trading_system.Risk.Reserve.{add_reservation-Represents}

-- The reservations of the table, in its order.
abbrev pub stored_of : Dict Text (RiskReservation × Text) → List RiskReservation
stored_of [] = []
stored_of ((id, row) ∷ rows) = row.0 ∷ stored_of rows

-- The table holds exactly the outstanding reservations.
pub record IsSaved (engine : RiskEngine) : Type 0 where
  pub rows : Dict Text (RiskReservation × Text)
  pub saved : engine.repository ≡ some rows
  pub unique : HasUniqueKeys rows
  pub counts : Represents engine (stored_of rows)

-- Each sum that the restore forms fits in 28 digits.
abbrev pub FitsRestore : List RiskReservation → Dict Text (RiskReservation × Text) → Type 0
FitsRestore ledger [] = Unit {0}
FitsRestore ledger ((id, row) ∷ rows) =
    IsExact (held (key_of row.0) ledger +ℤ row.0.amount) × FitsRestore (row.0 ∷ ledger) rows

-- The rows that were restored, the last one first.
abbrev push : Dict Text (RiskReservation × Text) → List RiskReservation → List RiskReservation
push [] ledger = ledger
push ((id, row) ∷ rows) ledger = push rows (row.0 ∷ ledger)

held-push :
    (key : CapitalKey) (rows : Dict Text (RiskReservation × Text)) (ledger : List RiskReservation)
    → held key (push rows ledger) ≡ held key (stored_of rows) +ℤ held key ledger
unfolding held
held-push key [] ledger = omega int_laws
held-push key ((id, row) ∷ rows) ledger =
    held-push key rows (row.0 ∷ ledger) ∙ elim (Bool-cases (key_of row.0 == key)) [
      | inl same ↦ rw same (omega int_laws)
      | inr other ↦ rw other refl
    ]

pub restore_one-Represents :
    (engine : RiskEngine) (ledger : List RiskReservation) (r : RiskReservation)
    → nought <ℤ r.amount
    → IsExact (held (key_of r) ledger +ℤ r.amount)
    → Represents engine ledger
    → Represents (restore_one engine r) (r ∷ ledger)
unfolding restore_one add_reservation
restore_one-Represents engine ledger r p x h =
    let added = add_reservation-Represents engine ledger r p x h in
    record { amounts = added.amounts; positive = added.positive }

restore_each-Represents :
    (rows : Dict Text (RiskReservation × Text)) (engine : RiskEngine)
    (ledger : List RiskReservation)
    → AllPositive (stored_of rows)
    → FitsRestore ledger rows
    → Represents engine ledger
    → Represents (restore_each engine rows) (push rows ledger)
unfolding restore_each
restore_each-Represents [] engine ledger p x h = h
restore_each-Represents ((id, row) ∷ rows) engine ledger p x h =
    restore_each-Represents rows (restore_one engine row.0) (row.0 ∷ ledger) p.1 x.1
      (restore_one-Represents engine ledger row.0 p.0 x.0 h)

empty-Represents :
    (maximum : Decimal) (notional : Option Decimal) (rows : Dict Text (RiskReservation × Text))
    → Represents
        (record {
          maximum = maximum;
          maximum_order_notional = notional;
          reserved = [];
          uncertain = [];
          repository = some rows;
        })
        []
unfolding held
empty-Represents maximum notional rows = record { amounts = λ key. refl; positive = tt }

-- A new process counts, for every account and asset, exactly what the engine counted whose rows it loads.
pub restart_counts :
    (engine : RiskEngine) (s : IsSaved engine)
    → FitsRestore [] s.rows
    → (maximum : Decimal) (notional : Option Decimal) (key : CapitalKey)
    → get_or (lookup key (new_engine maximum notional engine.repository).reserved) nought
      ≡ get_or (lookup key engine.reserved) nought
unfolding new_engine held
restart_counts engine s x maximum notional key =
    let restored =
      restore_each-Represents s.rows _ [] s.counts.positive x
        (empty-Represents maximum notional s.rows) in
    rw s.saved
      (restored.amounts key ∙ held-push key s.rows [] ∙ omega int_laws ∙ sym (s.counts.amounts key))
