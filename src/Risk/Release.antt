-- ===== src/Risk/Release.antt =====
-- Releasing and acknowledging against the ledger of outstanding reservations.
use crypto_trading_system.Base.{
  Bool-cases, List, Option, [], ap, arith, if◌then◌else◌, inl, inr, list_eq, nat_eq, none,
  option_eq, refl, some, true, ◌++◌, ◌==◌, ◌∙◌, ◌∷◌, ◌≡◌,
}
use crypto_trading_system.Base.Dict.{get_or, lookup}
use crypto_trading_system.Base.Int.{int_laws, ltb_ℤ, pos, ℤ, ◌+ℤ◌, ◌-ℤ◌, ◌≤ℤ◌}
use crypto_trading_system.Base.Text.{Text, upper}
use crypto_trading_system.Decimal.{Decimal, IsExact, nought, ◌⊖◌}
use crypto_trading_system.Risk.{
  RiskEngine, RiskReservation, acknowledge, acknowledge_one, capital_key_beq_iff, capital_key_eq,
  is_terminal, keep_uncertain, key_of, mark_uncertain, release, release_one,
}
use crypto_trading_system.Risk.Ledger.{
  AllPositive-remove, Represents, amount_of_lower, held, held-remove, held_nonneg,
}

cancel_amount : (a b : ℤ) → a +ℤ b -ℤ a ≡ b
cancel_amount a b = omega int_laws

nonneg_part : (d : Decimal) → pos 0 ≤ℤ d → (if ltb_ℤ nought d then d else nought) ≡ d
nonneg_part d h = ground arith

-- The amount that stays reserved when a reservation of the ledger is released.
left_after :
    (engine : RiskEngine) (xs ys : List RiskReservation) (r : RiskReservation)
    → IsExact (held (key_of r) (xs ++ ys))
    → Represents engine (xs ++ r ∷ ys)
    → get_or (lookup (key_of r) engine.reserved) nought ⊖ r.amount ≡ held (key_of r) (xs ++ ys)
unfolding ◌⊖◌
left_after engine xs ys r x h =
    let self : (key_of r == key_of r) ≡ true = (capital_key_beq_iff (key_of r) (key_of r)).1 refl in
    let e : get_or (lookup (key_of r) engine.reserved) nought
        ≡ r.amount +ℤ held (key_of r) (xs ++ ys) =
      h.amounts (key_of r) ∙ (rw (held-remove (key_of r) xs ys r) (rw self)) in
    rw (e, cancel_amount r.amount (held (key_of r) (xs ++ ys))) x

-- A reservation that is released leaves the ledger, and nothing else does, if what the other ones
-- hold of its account and asset fits in 28 digits.
pub release_one-Represents :
    (engine : RiskEngine) (xs ys : List RiskReservation) (r : RiskReservation)
    → IsExact (held (key_of r) (xs ++ ys))
    → Represents engine (xs ++ r ∷ ys)
    → Represents (release_one engine r) (xs ++ ys)
unfolding release_one
release_one-Represents engine xs ys r x h =
    let (rest, amount_pos) = AllPositive-remove xs ys r h.positive in
    let now = get_or (lookup (key_of r) engine.reserved) nought ⊖ r.amount in
    let after : (if ltb_ℤ nought now then now else nought) ≡ held (key_of r) (xs ++ ys) =
      rw (left_after engine xs ys r x h)
        (nonneg_part (held (key_of r) (xs ++ ys)) (held_nonneg (key_of r) (xs ++ ys) rest)) in
    record {
      amounts = λ key.
          rw (amount_of_lower (key_of r) key now engine.reserved)
            (elim (Bool-cases (key_of r == key)) [
              | inl same ↦ rw same (
                  after ∙ ap (λ k. held k (xs ++ ys)) ((capital_key_beq_iff (key_of r) key).0 same))
              | inr other ↦ rw other (h.amounts key ∙ (rw (held-remove key xs ys r) (rw other)))
            ]);
      positive = rest;
    }

-- An order whose status is not terminal keeps its capital, a terminal one gives it back.
pub acknowledge-Represents :
    (engine : RiskEngine) (xs ys : List RiskReservation) (r : RiskReservation) (status : Text)
    → IsExact (held (key_of r) (xs ++ ys))
    → Represents engine (xs ++ r ∷ ys)
    → Represents
        (acknowledge engine (some r) status)
        (if is_terminal (upper status) then xs ++ ys else xs ++ r ∷ ys)
unfolding acknowledge acknowledge_one keep_uncertain
acknowledge-Represents engine xs ys r status x h = elim (Bool-cases (is_terminal (upper status))) [
  | inl terminal ↦ rw terminal (release_one-Represents engine xs ys r x h)
  | inr live ↦ rw live (record { amounts = h.amounts; positive = h.positive })
]

-- A second release of the same reservation takes its amount out of what the others hold: where
-- they hold at least that much, the engine counts less than the outstanding reservations.
pub release_twice :
    (engine : RiskEngine) (xs ys : List RiskReservation) (r : RiskReservation)
    → IsExact (held (key_of r) (xs ++ ys))
    → IsExact (held (key_of r) (xs ++ ys) -ℤ r.amount)
    → Represents engine (xs ++ r ∷ ys)
    → r.amount ≤ℤ held (key_of r) (xs ++ ys)
    → let twice = release (release engine (some r)) (some r) in
      get_or (lookup (key_of r) twice.reserved) nought ≡ held (key_of r) (xs ++ ys) -ℤ r.amount
unfolding release
release_twice engine xs ys r x x' h b =
    let once = release_one-Represents engine xs ys r x h in
    let self : (key_of r == key_of r) ≡ true = (capital_key_beq_iff (key_of r) (key_of r)).1 refl in
    unfold release_one ◌⊖◌ in
    rw
      (amount_of_lower (key_of r) (key_of r)
        (get_or (lookup (key_of r) (release_one engine r).reserved) nought ⊖ r.amount)
        (release_one engine r).reserved)
      (rw self (rw (once.amounts (key_of r), x') (nonneg_part _ (omega int_laws))))

-- The reservation of an order, if it took one, and the others.
abbrev pub with_reservation : Option RiskReservation → List RiskReservation → List RiskReservation
with_reservation none ledger = ledger
with_reservation (some r) ledger = r ∷ ledger

pub acknowledge-none :
    (engine : RiskEngine) (status : Text) → acknowledge engine none status ≡ engine
unfolding acknowledge
acknowledge-none engine status = refl

pub mark_uncertain-Represents :
    (engine : RiskEngine) (o : Option RiskReservation) (ledger : List RiskReservation)
    → Represents engine ledger
    → Represents (mark_uncertain engine o) ledger
unfolding mark_uncertain keep_uncertain
mark_uncertain-Represents engine none ledger h = h
mark_uncertain-Represents engine (some r) ledger h = record {
  amounts = h.amounts;
  positive = h.positive;
}

pub release-Represents :
    (engine : RiskEngine) (o : Option RiskReservation) (ledger : List RiskReservation)
    → ((r : RiskReservation) → o ≡ some r → IsExact (held (key_of r) ledger))
    → Represents engine (with_reservation o ledger)
    → Represents (release engine o) ledger
unfolding release
release-Represents engine none ledger x h = h
release-Represents engine (some r) ledger x h =
    release_one-Represents engine [] ledger r (x r refl) h
