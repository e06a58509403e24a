-- ===== src/Risk/Inserted.antt =====
-- A new reservation is in the table and in the engine, or in neither.
use crypto_trading_system.Base.{
  Bool, Bool-cases, List, Option, [], ap, arith, inl, inr, is_some, list_eq, nat_eq, none, not,
  option_eq, refl, some, sym, ℕ, ◌&&◌, ◌++◌, ◌==◌, ◌∙◌, ◌∷◌, ◌≡◌,
}
use crypto_trading_system.Base.Dict.{Dict, insert, insert-HasUniqueKeys, lookup}
use crypto_trading_system.Base.Int.{int_laws, ◌<ℤ◌}
use crypto_trading_system.Base.Text.{Text, codes}
use crypto_trading_system.Decimal.{Decimal, nought}
use crypto_trading_system.Exchange.{Account, Order, Rules}
use crypto_trading_system.Exchange.Result.{Result, err, ok}
use crypto_trading_system.Models.Common.{OrderSide}
use crypto_trading_system.Risk.{
  CapitalKey, Demand, RiskEngine, RiskReservation, add_reservation, approve, capital_key_eq,
  commit_reservation, demand, key_of, new_reservation, reserve, reserve_for, reserve_side, save_row,
  undo_reservation,
}
use crypto_trading_system.Risk.Ledger.{AllPositive, Represents, held}
use crypto_trading_system.Risk.Reserve.{FitsLedger, ledger_after, reserve-Represents}
use crypto_trading_system.Risk.Restart.{IsSaved, stored_of}

-- A new row comes last, and the ledger is counted whatever its order.
stored_of-insert :
    (id status : Text) (r : RiskReservation) (rows : Dict Text (RiskReservation × Text))
    → lookup id rows ≡ none
    → stored_of (insert id (r, status) rows) ≡ stored_of rows ++ r ∷ []
stored_of-insert id status r [] h = refl
stored_of-insert id status r ((j, row) ∷ rows) h = elim (Bool-cases (j == id)) [
  | inl same ↦ absurd (ground (arith, same, h))
  | inr other ↦ rw other (ap (λ l. row.0 ∷ l) (stored_of-insert id status r rows (rw other at h)))
]

held-end :
    (key : CapitalKey) (xs : List RiskReservation) (r : RiskReservation)
    → held key (xs ++ r ∷ []) ≡ held key (r ∷ xs)
unfolding held
held-end key [] r = refl
held-end key (x ∷ xs) r = rw (held-end key xs r) (elim (Bool-cases (key_of x == key)) [
  | inl same ↦ rw same (elim (Bool-cases (key_of r == key)) [
    | inl also ↦ rw also (omega int_laws)
    | inr not_it ↦ rw not_it refl
  ])
  | inr other ↦ rw other refl
])

AllPositive-end :
    (xs : List RiskReservation) (r : RiskReservation)
    → nought <ℤ r.amount
    → AllPositive xs
    → AllPositive (xs ++ r ∷ [])
AllPositive-end [] r p h = (p, tt)
AllPositive-end (x ∷ xs) r p h = (h.0, AllPositive-end xs r p h.1)

-- The table after `reserve`.
abbrev rows_after :
    Result (Option RiskReservation)
    → Option (Dict Text (RiskReservation × Text))
    → Option (Dict Text (RiskReservation × Text))
rows_after (ok (some r)) repository = save_row (codes "PENDING") r repository
rows_after (ok none) repository = repository
rows_after (err e) repository = repository

abbrev Writes : Text → RiskEngine → RiskEngine × Result (Option RiskReservation) → Type 0
Writes id engine end =
    (end.0.repository ≡ rows_after end.1 engine.repository)
    × ((r : RiskReservation) → end.1 ≡ ok (some r) → r.reservation_id ≡ id)

module _ (engine : RiskEngine) (account_id : Option ℕ) (order : Order) (rules : Rules)
    (account_loader : Result Account) (price_loader : Result Decimal) (enforce : Bool) (id : Text)
    (saves : Bool) where
  same_of : (r q : RiskReservation) → ok (some r) ≡ ok (some q) → r ≡ q
  same_of r q e = ground (arith, e)

  commit-Writes :
      (r : RiskReservation)
      → r.reservation_id ≡ id
      → Writes id engine (commit_reservation engine r saves)
  unfolding commit_reservation undo_reservation add_reservation
  commit-Writes r named = elim (Bool-cases (is_some engine.repository && not saves)) [
    | inl fails ↦ rw fails (refl, λ q e. absurd (ground (arith, e)))
    | inr works ↦
        rw works (
          refl,
          λ q e. ap (λ (x : RiskReservation). x.reservation_id) (sym (same_of r q e)) ∙ named,
        )
  ]

  approved-Writes :
      (side : OrderSide) (d : Demand) (checks : Result (Unit {0}))
      → Writes id engine (elim checks as (λ _. RiskEngine × Result (Option RiskReservation)) [
        | err e ↦ (engine, err e)
        | ok _ ↦ commit_reservation engine (new_reservation id account_id side order d) saves
      ])
  approved-Writes side d (err e) = (refl, λ q h. absurd (ground (arith, h)))
  approved-Writes side d (ok u) =
      commit-Writes (new_reservation id account_id side order d) (unfold new_reservation in refl)

  demanded-Writes :
      (side : OrderSide) (r : Result Demand)
      → Writes id engine (elim r as (λ _. RiskEngine × Result (Option RiskReservation)) [
        | err e ↦ (engine, err e)
        | ok d ↦ elim (approve engine account_id side enforce d account_loader) [
          | err e ↦ (engine, err e)
          | ok _ ↦ commit_reservation engine (new_reservation id account_id side order d) saves
        ]
      ])
  demanded-Writes side (err e) = (refl, λ q h. absurd (ground (arith, h)))
  demanded-Writes side (ok d) =
      approved-Writes side d (approve engine account_id side enforce d account_loader)

  reserve-Writes :
      (side : Option OrderSide)
      → Writes id engine (
          reserve_for engine account_id side order rules account_loader price_loader enforce id
            saves)
  unfolding reserve_for reserve_side
  reserve-Writes none = (refl, λ q h. absurd (ground (arith, h)))
  reserve-Writes (some side) = demanded-Writes side (demand side order rules price_loader)

  after-IsSaved :
      (s : IsSaved engine) (end : RiskEngine) (result : Result (Option RiskReservation))
      → lookup id s.rows ≡ none
      → Writes id engine (end, result)
      → Represents end (ledger_after result (stored_of s.rows))
      → IsSaved end
  unfolding save_row
  after-IsSaved s end (err e) absent w h = record {
    rows = s.rows;
    saved = w.0 ∙ s.saved;
    unique = s.unique;
    counts = h;
  }
  after-IsSaved s end (ok none) absent w h = record {
    rows = s.rows;
    saved = w.0 ∙ s.saved;
    unique = s.unique;
    counts = h;
  }
  after-IsSaved s end (ok (some r)) absent w h =
      let named = w.1 r refl in
      let new : lookup r.reservation_id s.rows ≡ none = ap (λ i. lookup i s.rows) named ∙ absent in
      record {
        rows = insert r.reservation_id (r, codes "PENDING") s.rows;
        saved = w.0 ∙ ap (save_row (codes "PENDING") r) s.saved;
        unique = insert-HasUniqueKeys r.reservation_id (r, codes "PENDING") s.rows s.unique;
        counts = rw (stored_of-insert r.reservation_id (codes "PENDING") r s.rows new) (record {
          amounts = λ key. h.amounts key ∙ sym (held-end key (stored_of s.rows) r);
          positive = AllPositive-end (stored_of s.rows) r h.positive.0 h.positive.1;
        });
      }

  -- Whatever `reserve` returns or raises, the table and the engine stay in step, if the new id is not in
  -- the table and the sums fit in 28 digits.
  pub reserve-IsSaved :
      (s : IsSaved engine)
      → lookup id s.rows ≡ none
      → FitsLedger engine account_id order rules account_loader price_loader enforce id saves
          (stored_of s.rows)
      → IsSaved
          (reserve engine account_id order rules account_loader price_loader enforce id saves).0
  unfolding reserve
  reserve-IsSaved s absent x =
      let (end, result) =
        reserve_for engine account_id order.side order rules account_loader price_loader enforce id
          saves in
      after-IsSaved s end result absent (reserve-Writes order.side) (
        reserve-Represents engine account_id order rules account_loader price_loader enforce id
          saves (stored_of s.rows) x s.counts)
