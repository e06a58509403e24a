-- ===== src/Risk/Ledger.antt =====
-- The abstract view of the engine: the list of the reservations that are outstanding. `_reserved`
-- holds, for each account and asset, the sum of their amounts.
use crypto_trading_system.Base.{
  All, Bool-cases, List, [], arith, if◌then◌else◌, inl, inr, list_eq, nat_eq, option_eq, refl, ◌++◌,
  ◌==◌, ◌∷◌, ◌≡◌,
}
use crypto_trading_system.Base.Dict.{Dict, get_or, insert, lookup, lookup-erase, lookup-insert}
use crypto_trading_system.Base.Int.{int_laws, ltb_ℤ, pos, ℤ, ◌+ℤ◌, ◌<ℤ◌, ◌≤ℤ◌}
use crypto_trading_system.Decimal.{Decimal, nought}
use crypto_trading_system.Risk.{
  CapitalKey, RiskEngine, RiskReservation, capital_key_eq, key_of, lower,
}

-- What the outstanding reservations hold of one account and asset.
unfoldable pub held : CapitalKey → List RiskReservation → ℤ
held key [] = pos 0
held key (r ∷ rs) = if key_of r == key then r.amount +ℤ held key rs else held key rs

abbrev pub AllPositive : List RiskReservation → Type 0
AllPositive = All (λ r. nought <ℤ r.amount)

pub record Represents (engine : RiskEngine) (ledger : List RiskReservation) : Type 0 where
  pub amounts : (key : CapitalKey) → get_or (lookup key engine.reserved) nought ≡ held key ledger
  pub positive : AllPositive ledger

pub held_nonneg :
    (key : CapitalKey) (rs : List RiskReservation) → AllPositive rs → pos 0 ≤ℤ held key rs
unfolding held
held_nonneg key [] h = omega arith
held_nonneg key (r ∷ rs) h = elim (Bool-cases (key_of r == key)) [
  | inl same ↦ simp same (omega (int_laws, held_nonneg key rs h.1))
  | inr other ↦ simp other (held_nonneg key rs h.1)
]

-- Taking one reservation out of the ledger.
pub held-remove :
    (key : CapitalKey) (xs ys : List RiskReservation) (r : RiskReservation)
    → held key (xs ++ r ∷ ys)
      ≡ (if key_of r == key then r.amount +ℤ held key (xs ++ ys) else held key (xs ++ ys))
unfolding held
held-remove key [] ys r = refl
held-remove key (x ∷ xs) ys r = elim (Bool-cases (key_of x == key)) [
  | inl same ↦
      simp (same, held-remove key xs ys r)
        (elim (Bool-cases (key_of r == key)) [
          | inl also ↦ simp also (omega int_laws)
          | inr not_it ↦ simp not_it
        ])
  | inr other ↦ simp (other, held-remove key xs ys r)
]

pub AllPositive-remove :
    (xs ys : List RiskReservation) (r : RiskReservation)
    → AllPositive (xs ++ r ∷ ys)
    → AllPositive (xs ++ ys) × (nought <ℤ r.amount)
AllPositive-remove [] ys r h = (h.1, h.0)
AllPositive-remove (x ∷ xs) ys r h =
    let rest = AllPositive-remove xs ys r h.1 in ((h.0, rest.0), rest.1)

-- A key that is not in the dictionary counts as nothing.
pub amount_of_lower :
    (key j : CapitalKey) (remaining : Decimal) (d : Dict CapitalKey Decimal)
    → get_or (lookup j (lower key remaining d)) nought ≡ (
        if key == j
        then (if ltb_ℤ nought remaining then remaining else nought)
        else get_or (lookup j d) nought)
unfolding lower
amount_of_lower key j remaining d = elim (Bool-cases (ltb_ℤ nought remaining)) [
  | inl left ↦ rw (left, lookup-insert key j remaining d) (ground arith)
  | inr nothing ↦ rw (nothing, lookup-erase key j d) (ground arith)
]

pub amount_of_insert :
    (key j : CapitalKey) (amount : Decimal) (d : Dict CapitalKey Decimal)
    → get_or (lookup j (insert key amount d)) nought
      ≡ (if key == j then amount else get_or (lookup j d) nought)
amount_of_insert key j amount d = rw (lookup-insert key j amount d) (ground arith)
