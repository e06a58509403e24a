-- ===== src/Positions/Watch.antt =====
-- A tick that reaches the stop or the target of an open position exits it.
use crypto_trading_system.Base.{
  Bool, Bool-cases, List, Option, [], ap, arith, false, inl, inr, list_eq, map, nat_eq, none, not,
  option_eq, refl, some, true, ℕ, ◌&&◌, ◌++◌, ◌==◌, ◌||◌, ◌∙◌, ◌∷◌, ◌≡◌,
}
use crypto_trading_system.Base.Dict.{get_or, lookup, lookup-insert, mem, mem-add}
use crypto_trading_system.Models.Common.{ExitReason, is_open}
use crypto_trading_system.Models.Market.{Tick}
use crypto_trading_system.Models.Strategy.{Position}
use crypto_trading_system.Positions.{
  PositionBook, PositionKey, exit_reason, mark_price, position_key_beq_iff, position_key_eq,
  process_tick, start_flow, tick_each, tick_position, trigger,
}

abbrev pub keys_of : List (PositionKey × ExitReason) → List PositionKey
keys_of exits = map (λ (e : PositionKey × ExitReason). e.0) exits

mem-keys_of-append :
    (key : PositionKey) (xs ys : List (PositionKey × ExitReason))
    → mem key (keys_of (xs ++ ys)) ≡ (mem key (keys_of xs) || mem key (keys_of ys))
mem-keys_of-append key [] ys = refl
mem-keys_of-append key (x ∷ xs) ys = ground (arith, mem-keys_of-append key xs ys)

-- The position stands in the book and no order flow runs for it.
pub record IsWatched (key : PositionKey) (p : Position) (book : PositionBook) : Type 0 where
  pub stands : lookup key book.positions ≡ some p
  pub idle : mem key book.inflight ≡ false

module _ (enabled : Option ℕ → Bool) (tick : Tick) (key : PositionKey) (p : Position)
    (reason : ExitReason) (of_symbol : (key.1 == tick.symbol) ≡ true)
    (opened : is_open p.status ≡ true) (allowed : enabled key.0 ≡ true)
    (reaches : exit_reason tick.price (mark_price tick.price p) ≡ some reason) where
  trigger-other :
      (j : PositionKey) (b : Bool) (r : Option ExitReason) (book : PositionBook)
      → (j == key) ≡ false
      → IsWatched key p book
      → IsWatched key p (trigger b j r book).0
  unfolding trigger start_flow
  trigger-other j b none book d h = h
  trigger-other j b (some r) book d h = elim (Bool-cases (b && not (mem j book.inflight))) [
    | inl starts ↦
        rw starts (record { stands = h.stands; idle = mem-add j key book.inflight ∙ rw d h.idle })
    | inr stays ↦ rw stays h
  ]

  tick-other :
      (j : PositionKey) (found : Option Position) (book : PositionBook)
      → (j == key) ≡ false
      → IsWatched key p book
      → IsWatched key p (tick_position enabled tick j found book).0
  unfolding tick_position
  tick-other j none book d h = h
  tick-other j (some q) book d h = elim (Bool-cases (j.1 == tick.symbol && is_open q.status)) [
    | inl marked ↦ rw marked (
        trigger-other j (enabled j.0) (exit_reason tick.price (mark_price tick.price q)) _ d
          (record {
            stands = lookup-insert j key (mark_price tick.price q) book.positions ∙ rw d h.stands;
            idle = h.idle;
          }))
    | inr passed ↦ rw passed h
  ]

  tick-it :
      (book : PositionBook)
      → IsWatched key p book
      → mem key (keys_of (tick_position enabled tick key (lookup key book.positions) book).1) ≡ true
  unfolding tick_position trigger
  tick-it book h =
      let self : (key == key) ≡ true = (position_key_beq_iff key key).1 refl in
      rw h.stands (rw (of_symbol, opened) (rw reaches (rw (allowed, h.idle) (rw self refl))))

  tick_each-finds :
      (keys : List PositionKey) (book : PositionBook)
      → mem key keys ≡ true
      → IsWatched key p book
      → mem key (keys_of (tick_each enabled tick keys book).1) ≡ true
  unfolding tick_each
  tick_each-finds [] book m h = absurd (ground (arith, m))
  tick_each-finds (j ∷ keys) book m h =
      let one = tick_position enabled tick j (lookup j book.positions) book in
      mem-keys_of-append key one.1 (tick_each enabled tick keys one.0).1
      ∙ elim (Bool-cases (j == key)) [
        | inl same ↦
            let j_is : j ≡ key = (position_key_beq_iff j key).0 same in
            let found : mem key (keys_of one.1) ≡ true =
              ap
                (λ i.
                  mem key (keys_of (tick_position enabled tick i (lookup i book.positions) book).1))
                j_is
              ∙ tick-it book h in
            rw found refl
        | inr other ↦
            let later =
              tick_each-finds keys one.0 (ground (arith, m, other))
                (tick-other j (lookup j book.positions) book other h) in
            ground (arith, later)
      ]

  -- Where the index by symbol has the position, `process_tick` starts its exit.
  pub process_tick-finds :
      (book : PositionBook)
      → mem key (get_or (lookup tick.symbol book.positions_by_symbol) []) ≡ true
      → IsWatched key p book
      → mem key (keys_of (process_tick enabled tick book).1) ≡ true
  unfolding process_tick
  process_tick-finds book m h =
      tick_each-finds (get_or (lookup tick.symbol book.positions_by_symbol) []) book m h
