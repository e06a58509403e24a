-- ===== src/Risk/Reserve.antt =====
-- What `reserve` guarantees: on every branch the engine still represents the outstanding
-- reservations, and a reservation is only made of capital that no other one holds.
use crypto_trading_system.Base.{
  Bool, Bool-cases, List, Option, [], ap, arith, false, if◌then◌else◌, inl, inr, is_some, list_eq,
  nat_eq, none, not, option_eq, refl, some, true, ℕ, ◌&&◌, ◌==◌, ◌∙◌, ◌∷◌, ◌≡◌,
}
use crypto_trading_system.Base.Dict.{get_or, lookup}
use crypto_trading_system.Base.Int.{int_laws, ltb_ℤ, pos, ℤ, ◌+ℤ◌, ◌-ℤ◌, ◌<ℤ◌, ◌≤ℤ◌}
use crypto_trading_system.Base.Text.{Text}
use crypto_trading_system.Decimal.{Decimal, IsExact, nought, ◌⊕◌, ◌⊖◌}
use crypto_trading_system.Exchange.{Account, Order, Rules, free_balance}
use crypto_trading_system.Exchange.Result.{Failure, Result, err, ok, raise_if, ◌>>=◌, ◌>>◌}
use crypto_trading_system.Models.Common.{OrderSide}
use crypto_trading_system.Risk.{
  CapitalKey, Demand, RiskEngine, RiskReservation, add_reservation, approve, capital_key_beq_iff,
  capital_key_eq, commit_reservation, demand, exceeds, is_over_utilized, key_of, new_reservation,
  reserve, reserve_for, reserve_side, undo_reservation,
}
use crypto_trading_system.Risk.Ledger.{
  Represents, amount_of_insert, amount_of_lower, held, held-remove, held_nonneg,
}

ok_of_raise_if : (b : Bool) (e : Failure) (u : Unit {0}) → raise_if b e ≡ ok u → b ≡ false
ok_of_raise_if true e u h = absurd (cc)
ok_of_raise_if false e u h = refl

pub >>-eq-ok {ℓ} :
    {B : Type ℓ} (b : Bool) (e : Failure) (k : Result B) {r : B}
    → (raise_if b e >> k) ≡ ok r
    → (b ≡ false) × (k ≡ ok r)
>>-eq-ok true e k h = absurd (cc)
>>-eq-ok false e k h = (refl, h)

pub >>=-eq-ok {ℓ κ} :
    {A : Type ℓ} {B : Type κ} (m : Result A) (f : A → Result B) {r : B}
    → (m >>= f) ≡ ok r
    → (a : A) × (m ≡ ok a) × (f a ≡ ok r)
>>=-eq-ok (ok a) f h = (a, refl, h)
>>=-eq-ok (err e) f h = absurd (cc)

-- The capital that is free for a new order.
abbrev pub unreserved : RiskEngine → CapitalKey → Account → Decimal
unreserved engine key account =
    free_balance account key.1 ⊖ get_or (lookup key engine.reserved) nought

pub record IsApproved (engine : RiskEngine) (account_id : Option ℕ) (side : OrderSide)
    (enforce : Bool) (d : Demand) (account : Account) : Type 0 where
  pub required_pos : nought <ℤ d.required
  pub within_notional : exceeds engine.maximum_order_notional d.notional ≡ false
  pub covered : d.required ≤ℤ unreserved engine (account_id, d.asset) account
  pub utilized :
      is_over_utilized engine side enforce d.required
        (unreserved engine (account_id, d.asset) account)
      ≡ false

-- The checks pass only if the order is covered by unreserved capital, within the notional limit
-- and, for a BUY that is not exempt, within the utilization limit.
pub approve-IsApproved :
    (engine : RiskEngine) (account_id : Option ℕ) (side : OrderSide) (enforce : Bool) (d : Demand)
    (loader : Result Account)
    → approve engine account_id side enforce d loader ≡ ok tt
    → (account : Account) × (loader ≡ ok account)
      × IsApproved engine account_id side enforce d account
unfolding approve
approve-IsApproved engine account_id side enforce d (err e) h = absurd (ground arith)
approve-IsApproved engine account_id side enforce d (ok account) h = (
  account,
  refl,
  record {
    required_pos = ground arith;
    within_notional = ground arith;
    covered = ground arith;
    utilized = ground arith;
  },
)

exact_sum : (a b : ℤ) → IsExact (a +ℤ b) → a ⊕ b ≡ b +ℤ a
unfolding ◌⊕◌
exact_sum a b x = rw x (omega int_laws)

pub add_reservation-Represents :
    (engine : RiskEngine) (ledger : List RiskReservation) (r : RiskReservation)
    → nought <ℤ r.amount
    → IsExact (held (key_of r) ledger +ℤ r.amount)
    → Represents engine ledger
    → Represents (add_reservation engine r) (r ∷ ledger)
unfolding add_reservation
add_reservation-Represents engine ledger r p x h = record {
  amounts = λ key.
      rw
        (amount_of_insert (key_of r) key
          (get_or (lookup (key_of r) engine.reserved) nought ⊕ r.amount) engine.reserved)
        (elim (Bool-cases (key_of r == key)) [
          | inl same ↦ rw same (
              let k = (capital_key_beq_iff (key_of r) key).0 same in
              sum_of ∙ ap (λ k. r.amount +ℤ held k ledger) k ∙ (rw (held_head key) (rw same)))
          | inr other ↦ rw other (h.amounts key ∙ (rw (held_head key) (rw other)))
        ]);
  positive = (p, h.positive);
}
  where
    held_head :
        (key : CapitalKey)
        → held key (r ∷ ledger)
          ≡ (if key_of r == key then r.amount +ℤ held key ledger else held key ledger)
    held_head key = held-remove key [] ledger r

    sum_of :
        get_or (lookup (key_of r) engine.reserved) nought ⊕ r.amount
        ≡ r.amount +ℤ held (key_of r) ledger
    sum_of = rw (h.amounts (key_of r)) (exact_sum (held (key_of r) ledger) r.amount x)

cancel_right : (a b : ℤ) → a +ℤ b -ℤ b ≡ a
cancel_right a b = omega int_laws

nonneg_part : (d : Decimal) → pos 0 ≤ℤ d → (if ltb_ℤ nought d then d else nought) ≡ d
nonneg_part d h = ground arith

exact_undo : (a b : ℤ) → IsExact (a +ℤ b) → IsExact a → (a ⊕ b) ⊖ b ≡ a
unfolding ◌⊕◌ ◌⊖◌
exact_undo a b x y = rw (x, cancel_right a b) y

undo_reservation-Represents :
    (engine : RiskEngine) (ledger : List RiskReservation) (r : RiskReservation)
    → IsExact (held (key_of r) ledger +ℤ r.amount)
    → IsExact (held (key_of r) ledger)
    → Represents engine ledger
    → Represents (undo_reservation engine r) ledger
unfolding undo_reservation
undo_reservation-Represents engine ledger r x y h =
    let k = key_of r in
    let now = get_or (lookup k engine.reserved) nought ⊕ r.amount ⊖ r.amount in
    let same_amount : now ≡ held k ledger =
      rw (h.amounts k) (exact_undo (held k ledger) r.amount x y) in
    let after : (if ltb_ℤ nought now then now else nought) ≡ held k ledger =
      rw same_amount (nonneg_part (held k ledger) (held_nonneg k ledger h.positive)) in
    record {
      amounts = λ key.
          rw (amount_of_lower k key now engine.reserved) (elim (Bool-cases (k == key)) [
            | inl same ↦
                rw same (after ∙ ap (λ j. held j ledger) ((capital_key_beq_iff k key).0 same))
            | inr other ↦ rw other (h.amounts key)
          ]);
      positive = h.positive;
    }

-- A reservation that is returned is outstanding; on any other end the ledger is as it was.
abbrev pub ledger_after :
    Result (Option RiskReservation) → List RiskReservation → List RiskReservation
ledger_after (ok (some r)) ledger = r ∷ ledger
ledger_after (ok none) ledger = ledger
ledger_after (err e) ledger = ledger

commit_reservation-Represents :
    (engine : RiskEngine) (ledger : List RiskReservation) (r : RiskReservation) (saves : Bool)
    → nought <ℤ r.amount
    → IsExact (held (key_of r) ledger +ℤ r.amount)
    → IsExact (held (key_of r) ledger)
    → Represents engine ledger
    → let (engine', result) = commit_reservation engine r saves in
      Represents engine' (ledger_after result ledger)
unfolding commit_reservation
commit_reservation-Represents engine ledger r saves p x y h =
    elim (Bool-cases (is_some engine.repository && not saves)) [
      | inl fails ↦ rw fails (undo_reservation-Represents engine ledger r x y h)
      | inr works ↦ rw works (add_reservation-Represents engine ledger r p x h)
    ]

module _ (engine : RiskEngine) (account_id : Option ℕ) (order : Order) (rules : Rules)
    (account_loader : Result Account) (price_loader : Result Decimal) (enforce : Bool) (id : Text)
    (saves : Bool) where
  -- The sums that the reservation of an order forms fit in 28 digits.
  pub record FitsLedger (ledger : List RiskReservation) : Type 0 where
    pub sum :
        (side : OrderSide) (d : Demand)
        → demand side order rules price_loader ≡ ok d
        → IsExact (held (account_id, d.asset) ledger +ℤ d.required)
    pub held_now : (asset : Text) → IsExact (held (account_id, asset) ledger)

  approved-Represents :
      (ledger : List RiskReservation) (side : OrderSide) (d : Demand) (checks : Result (Unit {0}))
      → approve engine account_id side enforce d account_loader ≡ checks
      → demand side order rules price_loader ≡ ok d
      → FitsLedger ledger
      → Represents engine ledger
      → let (engine', result) = elim checks as (λ _. RiskEngine × Result (Option RiskReservation)) [
        | err e ↦ (engine, err e)
        | ok _ ↦ commit_reservation engine (new_reservation id account_id side order d) saves
      ] in
        Represents engine' (ledger_after result ledger)
  approved-Represents ledger side d (err e) a q x h = h
  approved-Represents ledger side d (ok u) a q x h =
      commit_reservation-Represents engine ledger (new_reservation id account_id side order d) saves
        (unfold new_reservation in
          (approve-IsApproved engine account_id side enforce d account_loader a).2.required_pos)
        (unfold new_reservation key_of in x.sum side d q)
        (unfold new_reservation key_of in x.held_now d.asset) h

  demanded-Represents :
      (ledger : List RiskReservation) (side : OrderSide) (r : Result Demand)
      → demand side order rules price_loader ≡ r
      → FitsLedger ledger
      → Represents engine ledger
      → let (engine', result) = elim r as (λ _. RiskEngine × Result (Option RiskReservation)) [
        | err e ↦ (engine, err e)
        | ok d ↦ elim (approve engine account_id side enforce d account_loader) [
          | err e ↦ (engine, err e)
          | ok _ ↦ commit_reservation engine (new_reservation id account_id side order d) saves
        ]
      ] in
        Represents engine' (ledger_after result ledger)
  demanded-Represents ledger side (err e) q x h = h
  demanded-Represents ledger side (ok d) q x h =
      approved-Represents ledger side d (approve engine account_id side enforce d account_loader)
        refl q x h

  reserve_for-Represents :
      (ledger : List RiskReservation) (side : Option OrderSide)
      → FitsLedger ledger
      → Represents engine ledger
      → let (engine', result) =
          reserve_for engine account_id side order rules account_loader price_loader enforce id
            saves in
        Represents engine' (ledger_after result ledger)
  unfolding reserve_for reserve_side
  reserve_for-Represents ledger none x h = h
  reserve_for-Represents ledger (some side) x h =
      demanded-Represents ledger side (demand side order rules price_loader) refl x h

  -- Whatever `reserve` returns or raises, a failing write included, the engine represents the
  -- outstanding reservations, to which exactly the returned one is added, if the sums fit in 28
  -- digits.
  pub reserve-Represents :
      (ledger : List RiskReservation)
      → FitsLedger ledger
      → Represents engine ledger
      → let (engine', result) =
          reserve engine account_id order rules account_loader price_loader enforce id saves in
        Represents engine' (ledger_after result ledger)
  unfolding reserve
  reserve-Represents ledger x h = reserve_for-Represents ledger order.side x h
