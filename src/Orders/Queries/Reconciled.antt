-- ===== src/Orders/Queries/Reconciled.antt =====
-- What a round of reconciliation leaves in the ledger of outstanding reservations.
use crypto_trading_system.Base.{
  Bool, Bool-cases, List, [], ap, false, filter, if◌then◌else◌, inl, inr, is_empty, not, refl, some,
  ℕ, ◌++◌, ◌||◌, ◌∷◌, ◌≡◌,
}
use crypto_trading_system.Base.Text.{codes, upper}
use crypto_trading_system.Decimal.{IsExact}
use crypto_trading_system.Exchange.{Response}
use crypto_trading_system.Exchange.Result.{Result, err, ok}
use crypto_trading_system.Orders.Queries.{
  reconcile_account_reservations, reconcile_answer, reconcile_each, reconcile_one, status_or,
}
use crypto_trading_system.Risk.{
  RiskEngine, RiskReservation, is_terminal, key_of, pending_reservations,
}
use crypto_trading_system.Risk.Ledger.{Represents, held}
use crypto_trading_system.Risk.Release.{acknowledge-Represents}

append_one {ℓ} :
    {A : Type ℓ} (xs : List A) (x : A) (ys : List A) → (xs ++ x ∷ []) ++ ys ≡ xs ++ x ∷ ys
append_one [] x ys = refl
append_one (w ∷ xs) x ys = ap (λ l. w ∷ l) (append_one xs x ys)

module _ (answers : RiskReservation → Result Response) where
  -- The exchange says that the order of the reservation is over.
  abbrev ends_with : Result Response → Bool
  ends_with (err e) = false
  ends_with (ok response) = is_terminal (upper (status_or (codes "UNKNOWN") response))

  abbrev pub is_outstanding : RiskReservation → Bool
  is_outstanding r = is_empty r.client_order_id || not (ends_with (answers r))

  -- The sums that the releases form fit in 28 digits.
  abbrev pub FitsReconcile :
      List RiskReservation → List RiskReservation → List RiskReservation → Type 0
  FitsReconcile before [] others = Unit {0}
  FitsReconcile before (r ∷ rs) others =
      IsExact (held (key_of r) (before ++ (rs ++ others)))
      × FitsReconcile (if is_outstanding r then before ++ r ∷ [] else before) rs others

  reconcile_answer-Represents :
      (engine : RiskEngine) (xs ys : List RiskReservation) (r : RiskReservation)
      (answer : Result Response)
      → IsExact (held (key_of r) (xs ++ ys))
      → Represents engine (xs ++ r ∷ ys)
      → Represents
          (reconcile_answer r answer engine)
          (if not (ends_with answer) then xs ++ r ∷ ys else xs ++ ys)
  unfolding reconcile_answer
  reconcile_answer-Represents engine xs ys r (err e) x h = h
  reconcile_answer-Represents engine xs ys r (ok response) x h =
      let acknowledged =
        acknowledge-Represents engine xs ys r (status_or (codes "UNKNOWN") response) x h in
      elim (Bool-cases (is_terminal (upper (status_or (codes "UNKNOWN") response)))) [
        | inl over ↦ rw over (rw over at acknowledged)
        | inr live ↦ rw live (rw live at acknowledged)
      ]

  reconcile_one-Represents :
      (engine : RiskEngine) (xs ys : List RiskReservation) (r : RiskReservation)
      → IsExact (held (key_of r) (xs ++ ys))
      → Represents engine (xs ++ r ∷ ys)
      → Represents
          (reconcile_one answers r engine)
          (if is_outstanding r then xs ++ r ∷ ys else xs ++ ys)
  unfolding reconcile_one
  reconcile_one-Represents engine xs ys r x h = elim (Bool-cases (is_empty r.client_order_id)) [
    | inl no_id ↦ rw no_id h
    | inr has_id ↦ rw has_id (reconcile_answer-Represents engine xs ys r (answers r) x h)
  ]

  reconcile_each-Represents :
      (before rs others : List RiskReservation) (engine : RiskEngine)
      → FitsReconcile before rs others
      → Represents engine (before ++ (rs ++ others))
      → Represents
          (reconcile_each answers rs engine)
          (before ++ (filter is_outstanding rs ++ others))
  unfolding reconcile_each
  reconcile_each-Represents before [] others engine x h = h
  reconcile_each-Represents before (r ∷ rs) others engine x h =
      let one = reconcile_one-Represents engine before (rs ++ others) r x.0 h in
      elim (Bool-cases (is_outstanding r)) [
        | inl stays ↦ rw stays (
            rw (← append_one before r (filter is_outstanding rs ++ others)) (
              reconcile_each-Represents (before ++ r ∷ []) rs others
                (reconcile_one answers r engine) (rw stays at x.1)
                (rw (append_one before r (rs ++ others)) (rw stays at one))))
        | inr over ↦ rw over (
            reconcile_each-Represents before rs others (reconcile_one answers r engine)
              (rw over at x.1) (rw over at one))
      ]

  -- A round for an account gives back the capital of exactly its pending orders that the exchange says are
  -- over: those without a client order id, those whose query fails and all other reservations stay.
  pub reconcile_account-Represents :
      (user : ℕ) (others : List RiskReservation) (engine : RiskEngine)
      → FitsReconcile [] (pending_reservations engine (some user)) others
      → Represents engine (pending_reservations engine (some user) ++ others)
      → Represents
          (reconcile_account_reservations answers user engine)
          (filter is_outstanding (pending_reservations engine (some user)) ++ others)
  unfolding reconcile_account_reservations
  reconcile_account-Represents user others engine x h =
      reconcile_each-Represents [] (pending_reservations engine (some user)) others engine x h
