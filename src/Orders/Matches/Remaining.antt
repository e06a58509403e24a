-- ===== src/Orders/Matches/Remaining.antt =====
-- What a match leaves of an entry, and what may be closed of an order.
use crypto_trading_system.Base.{
  Bool-cases, Option, ap, arith, if◌then◌else◌, inl, inr, list_eq, nat_eq, none, option_eq, some, ℕ,
  ◌∙◌, ◌≡◌,
}
use crypto_trading_system.Base.Dict.{Dict, get_or, lookup, lookup-erase, lookup-insert}
use crypto_trading_system.Base.Int.{ltb_ℤ, ◌<ℤ◌, ◌≤ℤ◌}
use crypto_trading_system.Decimal.{Decimal, nought, ◌⊖◌}
use crypto_trading_system.Exchange.Result.{ok}
use crypto_trading_system.Orders.Matches.{
  MatchBook, OrderKey, OrderMatch, closing_quantity, lower_open, order_key_beq, order_key_eq,
  quantity_to_close, write_match,
}

lookup-lower_open :
    (entry : OrderKey) (left : Decimal) (key : OrderKey) (d : Dict OrderKey Decimal)
    → lookup key (lower_open entry left d) ≡ (
        if order_key_beq entry key
        then (if ltb_ℤ nought left then some left else none)
        else lookup key d)
unfolding lower_open
lookup-lower_open entry left key d = elim (Bool-cases (ltb_ℤ nought left)) [
  | inl e ↦ rw e (lookup-insert entry key left d)
  | inr e ↦ rw e (lookup-erase entry key d)
]

-- A match takes its quantity off the open part of its entry, which is gone when nothing is left; the
-- exit is not open after it, and no other order of any account changes.
pub write_match-open :
    (user : ℕ) (m : OrderMatch) (entry_quantity : Decimal) (book : MatchBook) (key : OrderKey)
    → let left =
        get_or (lookup (user, m.symbol, m.entry_order_id) book.open_order_positions) entry_quantity
        ⊖ m.quantity in
      lookup key (write_match user m entry_quantity book).open_order_positions ≡ (
        if order_key_beq (user, m.symbol, m.exit_order_id) key
        then none
        else if order_key_beq (user, m.symbol, m.entry_order_id) key
        then (if ltb_ℤ nought left then some left else none)
        else lookup key book.open_order_positions)
unfolding write_match
write_match-open user m entry_quantity book key =
    let entry : OrderKey = (user, m.symbol, m.entry_order_id) in
    let exit : OrderKey = (user, m.symbol, m.exit_order_id) in
    let left = get_or (lookup entry book.open_order_positions) entry_quantity ⊖ m.quantity in
    lookup-erase exit key (lower_open entry left book.open_order_positions)
    ∙ ap (λ w. if order_key_beq exit key then none else w)
        (lookup-lower_open entry left key book.open_order_positions)

-- What may be closed of an order is positive and at most what is tracked of it.
pub quantity_to_close-bounds :
    (by_fills : Option Decimal) (tracked closing : Decimal)
    → quantity_to_close by_fills (some tracked) ≡ ok closing
    → (nought <ℤ closing) × (closing ≤ℤ tracked)
unfolding quantity_to_close closing_quantity
quantity_to_close-bounds by_fills tracked closing h = ground (arith, h)
