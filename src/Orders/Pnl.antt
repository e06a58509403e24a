-- ===== src/Orders/Pnl.antt =====
-- services/order_service.py: `pnl`, realized and unrealized gains of a symbol from the fills of the
-- exchange and the recorded matches.
use crypto_trading_system.Base.{
  Bool, List, [], if◌then◌else◌, list_eq, ltb, nat_beq, nat_eq, not, option_eq, ℕ, ◌&&◌, ◌==◌, ◌||◌,
  ◌∷◌,
}
use crypto_trading_system.Base.Dict.{Dict, get_or, insert, lookup}
use crypto_trading_system.Base.Int.{int_eq, ltb_ℤ, pos, ◌-ℤ◌}
use crypto_trading_system.Base.Text.{Text, codes}
use crypto_trading_system.Decimal.{Decimal, max, nought, ◌⊕◌, ◌⊖◌, ◌⊗◌, ◌⊘◌}
use crypto_trading_system.Exchange.{Rules}
use crypto_trading_system.Models.Common.{OrderSide, buy, sell}
use crypto_trading_system.Orders.Matches.{OrderMatch}
use crypto_trading_system.Orders.Normalization.{minimum_notional}
use crypto_trading_system.Strategy.Window.{total}

-- A fill as the exchange reports it.
pub record Fill : Type 0 where
  pub time : ℕ
  pub fill_id : ℕ
  pub order_id : ℕ
  pub is_buyer : Bool
  pub qty : Decimal
  pub quote_qty : Decimal
  pub commission : Decimal
  pub commission_asset : Text

-- `(time, id)` in the order of tuples.
pub comes_after : Fill → Fill → Bool
comes_after a b = ltb b.time a.time || (nat_beq a.time b.time && ltb b.fill_id a.fill_id)

pub insert_fill : Fill → List Fill → List Fill
insert_fill f [] = f ∷ []
insert_fill f (g ∷ gs) =
    let rest = insert_fill f gs in if comes_after f g then g ∷ rest else f ∷ g ∷ gs

-- `sorted(trades, key=…)`
pub sort_fills : List Fill → List Fill
sort_fills [] = []
sort_fills (f ∷ fs) = insert_fill f (sort_fills fs)

-- What the fills of an order come to.
pub record OrderTotal : Type 0 where
  pub side : OrderSide
  pub quantity : Decimal
  pub quote : Decimal

pub side_of : Fill → OrderSide
side_of f = if f.is_buyer then buy else sell

-- A BUY that pays its commission in the base asset gets less of it.
pub net_quantity : Text → Fill → Decimal
net_quantity base_asset f =
    if f.is_buyer && f.commission_asset == base_asset then f.qty ⊖ f.commission else f.qty

-- A commission in the quote asset makes a BUY dearer and a SELL bring less.
pub quote_value : Text → Fill → Decimal
quote_value quote_asset f =
    if f.commission_asset == quote_asset
    then (if f.is_buyer then f.quote_qty ⊕ f.commission else f.quote_qty ⊖ f.commission)
    else f.quote_qty

pub add_fill : Text → Text → Fill → Dict ℕ OrderTotal → Dict ℕ OrderTotal
add_fill base_asset quote_asset f orders =
    let item =
      get_or (lookup f.order_id orders)
        (record { side = side_of f; quantity = nought; quote = nought }) in
    insert f.order_id
      (record item {
        quantity = item.quantity ⊕ net_quantity base_asset f;
        quote = item.quote ⊕ quote_value quote_asset f;
      })
      orders

pub total_fills : Text → Text → List Fill → Dict ℕ OrderTotal → Dict ℕ OrderTotal
total_fills base_asset quote_asset [] orders = orders
total_fills base_asset quote_asset (f ∷ fs) orders =
    total_fills base_asset quote_asset fs (add_fill base_asset quote_asset f orders)

-- Commissions in another asset, by asset.
pub other_fees : Text → Text → List Fill → Dict Text Decimal → Dict Text Decimal
other_fees base_asset quote_asset [] fees = fees
other_fees base_asset quote_asset (f ∷ fs) fees = other_fees base_asset quote_asset fs (
    if not (f.commission_asset == base_asset || f.commission_asset == quote_asset)
      && ltb_ℤ nought f.commission
    then insert f.commission_asset (get_or (lookup f.commission_asset fees) nought ⊕ f.commission)
        fees
    else fees)

-- What the matches of the symbol say of each order.
pub record Realized : Type 0 where
  pub matched_quantity : Dict ℕ Decimal
  pub realized_by_order : Dict ℕ Decimal
  pub realized_total : Decimal

abbrev pub add_to : ℕ → Decimal → Dict ℕ Decimal → Dict ℕ Decimal
add_to id amount d = insert id (get_or (lookup id d) nought ⊕ amount) d

pub add_match : Text → OrderMatch → Realized → Realized
add_match symbol m r =
    if m.symbol == symbol
    then record {
      matched_quantity =
          add_to m.exit_order_id m.quantity (add_to m.entry_order_id m.quantity r.matched_quantity);
      realized_by_order =
          add_to m.exit_order_id m.realized_pnl
            (add_to m.entry_order_id m.realized_pnl r.realized_by_order);
      realized_total = r.realized_total ⊕ m.realized_pnl;
    }
    else r

pub add_matches : Text → List OrderMatch → Realized → Realized
add_matches symbol [] r = r
add_matches symbol (m ∷ ms) r = add_matches symbol ms (add_match symbol m r)

-- What of an order is not matched.
pub remaining_of : Dict ℕ Decimal → ℕ → OrderTotal → Decimal
remaining_of matched id total = max nought (total.quantity ⊖ get_or (lookup id matched) nought)

pub average_price : OrderTotal → Decimal
average_price total = if total.quantity == nought then nought else total.quote ⊘ total.quantity

pub negate : Decimal → Decimal
negate d = pos 0 -ℤ d

pub by_side : OrderSide → Decimal → Decimal
by_side buy d = d
by_side sell d = negate d

-- The open quantity and its cost, over the orders.
pub record Open : Type 0 where
  pub open_quantity : Decimal
  pub open_cost : Decimal

pub sum_open : Dict ℕ Decimal → Dict ℕ OrderTotal → Open → Open
sum_open matched [] o = o
sum_open matched ((id, total) ∷ orders) o =
    let remaining = remaining_of matched id total in
    sum_open matched orders (record {
      open_quantity = o.open_quantity ⊕ by_side total.side remaining;
      open_cost = o.open_cost ⊕ by_side total.side (average_price total ⊗ remaining);
    })

pub unrealized_of : Decimal → Dict ℕ Decimal → ℕ → OrderTotal → Decimal
unrealized_of current_price matched id total =
    let remaining = remaining_of matched id total in
    let cost = average_price total ⊗ remaining in
    elim total.side [
      | buy ↦ current_price ⊗ remaining ⊖ cost
      | sell ↦ cost ⊖ current_price ⊗ remaining
    ]

pub record Pnl : Type 0 where
  pub open_quantity : Decimal
  pub open_cost : Decimal
  pub market_value : Decimal
  pub realized_pnl : Decimal
  pub unrealized_pnl : Decimal
  pub total_pnl : Decimal
  pub min_notional : Decimal
  pub unconverted_commissions : Dict Text Decimal

-- The totals that `pnl` returns; `fallback_base` is the symbol without its "USDT".
pub pnl : Text → Text → Rules → List Fill → List OrderMatch → Decimal → Pnl
pnl symbol fallback_base rules fills matches current_price =
    let base_asset = get_or rules.base_asset fallback_base in
    let quote_asset = get_or rules.quote_asset (codes "USDT") in
    let sorted = sort_fills fills in
    let orders = total_fills base_asset quote_asset sorted [] in
    let realized =
      add_matches symbol matches
        (record { matched_quantity = []; realized_by_order = []; realized_total = nought }) in
    let o =
      sum_open realized.matched_quantity orders
        (record { open_quantity = nought; open_cost = nought }) in
    record {
      open_quantity = o.open_quantity;
      open_cost = o.open_cost;
      market_value = o.open_quantity ⊗ current_price;
      realized_pnl = realized.realized_total;
      unrealized_pnl = o.open_quantity ⊗ current_price ⊖ o.open_cost;
      total_pnl = realized.realized_total ⊕ o.open_quantity ⊗ current_price ⊖ o.open_cost;
      min_notional = minimum_notional rules;
      unconverted_commissions = other_fees base_asset quote_asset sorted [];
    }
