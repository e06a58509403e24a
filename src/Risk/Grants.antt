-- ===== src/Risk/Grants.antt =====
-- When `reserve` returns a reservation, and what the reservations cover.
use crypto_trading_system.Base.{
  Bool, List, Option, [], arith, list_eq, nat_eq, none, option_eq, refl, some, true, ℕ, ◌==◌, ◌∷◌,
  ◌≡◌,
}
use crypto_trading_system.Base.Int.{int_laws, ℤ, ◌+ℤ◌, ◌-ℤ◌, ◌≤ℤ◌}
use crypto_trading_system.Base.Text.{Text}
use crypto_trading_system.Decimal.{Decimal, IsExact, ◌⊖◌}
use crypto_trading_system.Exchange.{Account, Order, Rules, free_balance}
use crypto_trading_system.Exchange.Result.{Result, err, ok}
use crypto_trading_system.Models.Common.{OrderSide}
use crypto_trading_system.Risk.{
  Demand, RiskEngine, RiskReservation, approve, capital_key_beq_iff, capital_key_eq,
  commit_reservation, demand, key_of, new_reservation, reserve, reserve_for, reserve_side,
}
use crypto_trading_system.Risk.Ledger.{Represents, held, held-remove}
use crypto_trading_system.Risk.Reserve.{IsApproved, approve-IsApproved}

module _ (engine : RiskEngine) (account_id : Option ℕ) (order : Order) (rules : Rules)
    (account_loader : Result Account) (price_loader : Result Decimal) (enforce : Bool) (id : Text)
    (saves : Bool) where
  -- How a reservation came about.
  pub record IsGranted (r : RiskReservation) : Type 0 where
    pub granted_side : OrderSide
    pub granted_demand : Demand
    pub balances : Account
    pub given : order.side ≡ some granted_side
    pub asked : demand granted_side order rules price_loader ≡ ok granted_demand
    pub loaded : account_loader ≡ ok balances
    pub approved : IsApproved engine account_id granted_side enforce granted_demand balances
    pub made : r ≡ new_reservation id account_id granted_side order granted_demand

  approved-IsGranted :
      (side : OrderSide) (d : Demand) (checks : Result (Unit {0})) (r : RiskReservation)
      → order.side ≡ some side
      → demand side order rules price_loader ≡ ok d
      → approve engine account_id side enforce d account_loader ≡ checks
      → (elim checks as (λ _. RiskEngine × Result (Option RiskReservation)) [
        | err e ↦ (engine, err e)
        | ok _ ↦ commit_reservation engine (new_reservation id account_id side order d) saves
      ]).1
        ≡ ok (some r)
      → IsGranted r
  unfolding commit_reservation
  approved-IsGranted side d (err e) r g k a q = absurd (cc)
  approved-IsGranted side d (ok u) r g k a q =
      let (account, l, h) = approve-IsApproved engine account_id side enforce d account_loader a in
      record {
        granted_side = side;
        granted_demand = d;
        balances = account;
        given = g;
        asked = k;
        loaded = l;
        approved = h;
        made = ground arith;
      }

  demanded-IsGranted :
      (side : OrderSide) (w : Result Demand) (r : RiskReservation)
      → order.side ≡ some side
      → demand side order rules price_loader ≡ w
      → (elim w as (λ _. RiskEngine × Result (Option RiskReservation)) [
        | err e ↦ (engine, err e)
        | ok d ↦ elim (approve engine account_id side enforce d account_loader) [
          | err e ↦ (engine, err e)
          | ok _ ↦ commit_reservation engine (new_reservation id account_id side order d) saves
        ]
      ]).1
        ≡ ok (some r)
      → IsGranted r
  demanded-IsGranted side (err e) r g k q = absurd (cc)
  demanded-IsGranted side (ok d) r g k q =
      approved-IsGranted side d (approve engine account_id side enforce d account_loader) r g k refl
        q

  reserve_for-IsGranted :
      (side : Option OrderSide) (r : RiskReservation)
      → order.side ≡ side
      → (reserve_for engine account_id side order rules account_loader price_loader enforce id
          saves).1
        ≡ ok (some r)
      → IsGranted r
  unfolding reserve_for reserve_side
  reserve_for-IsGranted none r g q = absurd (cc)
  reserve_for-IsGranted (some side) r g q =
      demanded-IsGranted side (demand side order rules price_loader) r g refl q

  -- A reservation that is returned has passed every check against the account as it was loaded.
  pub reserve-IsGranted :
      (r : RiskReservation)
      → (reserve engine account_id order rules account_loader price_loader enforce id saves).1
        ≡ ok (some r)
      → IsGranted r
  unfolding reserve
  reserve-IsGranted r q = reserve_for-IsGranted order.side r refl q

  pub reserve-key :
      (r : RiskReservation)
      → (reserve engine account_id order rules account_loader price_loader enforce id saves).1
        ≡ ok (some r)
      → key_of r ≡ (account_id, r.asset)
  reserve-key r q =
      let g = reserve-IsGranted r q in unfold key_of new_reservation in ground (arith, g.made)

  covered_sum : (a f h : ℤ) → IsExact (f -ℤ h) → a ≤ℤ f ⊖ h → a +ℤ h ≤ℤ f
  unfolding ◌⊖◌
  covered_sum a f h x b = let c = rw x at b in omega int_laws

  -- If the difference of the free balance that the exchange reported and what was reserved fits in 28
  -- digits, then with the new one the outstanding reservations of the account and asset come to at
  -- most that balance: no two of them hold the same capital.
  pub reserve_covers :
      (ledger : List RiskReservation) (r : RiskReservation) (account : Account)
      → account_loader ≡ ok account
      → Represents engine ledger
      → IsExact (free_balance account r.asset -ℤ held (key_of r) ledger)
      → (reserve engine account_id order rules account_loader price_loader enforce id saves).1
        ≡ ok (some r)
      → held (key_of r) (r ∷ ledger) ≤ℤ free_balance account r.asset
  reserve_covers ledger r account l h x q =
      let g = reserve-IsGranted r q in
      let self : (key_of r == key_of r) ≡ true =
        (capital_key_beq_iff (key_of r) (key_of r)).1 refl in
      let same : g.balances ≡ account = ground (arith, g.loaded) in
      let key : key_of r ≡ (account_id, r.asset) =
        unfold key_of new_reservation in ground (arith, g.made) in
      let amount : r.amount ≡ g.granted_demand.required =
        unfold new_reservation in ground (arith, g.made) in
      let asset : r.asset ≡ g.granted_demand.asset =
        unfold new_reservation in ground (arith, g.made) in
      let c : r.amount ≤ℤ free_balance account r.asset ⊖ held (key_of r) ledger =
        rw (key, amount, ← h.amounts (account_id, r.asset), asset, ← same) g.approved.covered in
      rw (held-remove (key_of r) [] ledger r, self)
        (covered_sum r.amount (free_balance account r.asset) (held (key_of r) ledger) x c)
