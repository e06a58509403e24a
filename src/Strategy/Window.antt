-- ===== src/Strategy/Window.antt =====
-- The rolling window and the running sum against their plain definitions: the last `fast_period`
-- closes, and their sum.
use crypto_trading_system.Base.{
  Bool-cases, List, [], ap, arith, deque_append, drop, inl, inr, length, length-append, length-drop,
  list_beq_iff, list_eq, nat_beq, nat_eq, option_eq, refl, suc, sym, true, zero, ℕ, ◌++◌, ◌+◌, ◌-◌,
  ◌<◌, ◌==◌, ◌∙◌, ◌∷◌, ◌≡◌, ◌≤◌,
}
use crypto_trading_system.Base.Dict.{get_or, lookup, lookup-insert}
use crypto_trading_system.Base.Int.{int_laws, pos, ℤ, ◌+ℤ◌, ◌-ℤ◌}
use crypto_trading_system.Base.Text.{Text}
use crypto_trading_system.Decimal.{Decimal, IsExact, nought, ◌⊕◌, ◌⊖◌}
use crypto_trading_system.Models.Market.{Candle}
use crypto_trading_system.Strategy.{StrategyService, calculate, head_or_nought, next_sum}

unfoldable pub total : List Decimal → ℤ
total [] = pos 0
total (c ∷ cs) = c +ℤ total cs

-- The last n closes.
unfoldable pub last_n : ℕ → List Decimal → List Decimal
last_n n xs = drop (length xs - n) xs

drop-nil : (n : ℕ) → drop {A = Decimal} n [] ≡ []
drop-nil zero = refl
drop-nil (suc n) = refl

drop-drop : (a b : ℕ) (xs : List Decimal) → drop a (drop b xs) ≡ drop (b + a) xs
drop-drop a zero xs = let e : 0 + a ≡ a = omega arith in rw e
drop-drop a (suc b) [] = let e : suc b + a ≡ suc (b + a) = omega arith in rw e (drop-nil a)
drop-drop a (suc b) (x ∷ xs) =
    let e : suc b + a ≡ suc (b + a) = omega arith in rw e (drop-drop a b xs)

drop-append : (k : ℕ) (xs ys : List Decimal) → k ≤ length xs → drop k (xs ++ ys) ≡ drop k xs ++ ys
drop-append zero xs ys h = refl
drop-append (suc k) [] ys h = absurd (omega arith)
drop-append (suc k) (x ∷ xs) ys h = drop-append k xs ys (omega arith)

-- The bounded deque of the last n closes, one close later.
deque_append-last_n :
    (n : ℕ) (xs : List Decimal) (x : Decimal)
    → deque_append n (last_n n xs) x ≡ last_n n (xs ++ x ∷ [])
unfolding deque_append last_n
deque_append-last_n n xs x =
    let k = length xs - n in
    let b : k ≤ length xs = omega arith in
    let m : k + (length (drop k xs) + 1 - n) ≡ length (xs ++ x ∷ []) - n =
      omega (arith, length-drop k xs, length-append xs (x ∷ [])) in
    rw (← drop-append k xs (x ∷ []) b)
      (drop-drop (length (drop k xs) + 1 - n) k (xs ++ x ∷ []) ∙ ap (λ j. drop j (xs ++ x ∷ [])) m)

total-append : (xs ys : List Decimal) → total (xs ++ ys) ≡ total xs +ℤ total ys
unfolding total
total-append [] ys = omega int_laws
total-append (x ∷ xs) ys = rw (total-append xs ys) (omega int_laws)

-- What leaves a full window is its first close.
total-drop_one : (xs : List Decimal) → total (drop 1 xs) ≡ total xs -ℤ head_or_nought xs
unfolding total head_or_nought
total-drop_one [] = omega int_laws
total-drop_one (x ∷ xs) = omega int_laws

total-one : (x : Decimal) → total (x ∷ []) ≡ x
unfolding total
total-one x = omega int_laws

-- A full window loses its first close, any other window loses none.
full_sum :
    (n : ℕ) (window : List Decimal) (close : Decimal)
    → 0 < n
    → length window ≡ n
    → total window -ℤ head_or_nought window +ℤ close ≡ total (deque_append n window close)
unfolding deque_append
full_sum n window close p full =
    let k : length window + 1 - n ≡ 1 = omega arith in
    rw
      (
        k,
        drop-append 1 window (close ∷ []) (omega arith),
        total-append (drop 1 window) (close ∷ []),
        total-one close,
      )
      (ap (λ t. t +ℤ close) (sym (total-drop_one window)))

room_sum :
    (n : ℕ) (window : List Decimal) (close : Decimal)
    → length window < n
    → total window +ℤ close ≡ total (deque_append n window close)
unfolding deque_append
room_sum n window close room =
    let k : length window + 1 - n ≡ 0 = omega arith in
    rw (k, total-append window (close ∷ []), total-one close)

-- The two operations on the running sum are exact: their results fit in 28 digits.
pub record IsExactStep (fast_period : ℕ) (window : List Decimal) (close : Decimal) : Type 0 where
  pub taken_off : IsExact (total window -ℤ head_or_nought window)
  pub put_on : IsExact (total (deque_append fast_period window close))

next_sum-total :
    (n : ℕ) (window : List Decimal) (sum close : Decimal)
    → 0 < n
    → length window ≤ n
    → IsExactStep n window close
    → sum ≡ total window
    → next_sum n window sum close ≡ total (deque_append n window close)
unfolding next_sum ◌⊕◌ ◌⊖◌
next_sum-total n window sum close p b x e = elim (Bool-cases (nat_beq (length window) n)) [
  | inl full ↦
      rw (full, e, x.taken_off)
        (let s : total window -ℤ head_or_nought window +ℤ close
              ≡ total (deque_append n window close) =
            full_sum n window close p (ground arith) in
          rw s x.put_on)
  | inr room ↦
      rw (room, e)
        (let s : total window +ℤ close ≡ total (deque_append n window close) =
            room_sum n window close (ground arith) in
          rw s x.put_on)
]

-- What the service holds of one symbol after a series of closes.
pub record HasWindow (svc : StrategyService) (symbol : Text) (series : List Decimal) : Type 0 where
  pub window : get_or (lookup symbol svc.closes) [] ≡ last_n svc.fast_period series
  pub sum : get_or (lookup symbol svc.sums) nought ≡ total (last_n svc.fast_period series)

length-last_n : (n : ℕ) (xs : List Decimal) → length (last_n n xs) ≤ n
unfolding last_n
length-last_n n xs = omega (arith, length-drop (length xs - n) xs)

pub next_sum-HasWindow :
    (svc : StrategyService) (symbol : Text) (series : List Decimal) (close : Decimal)
    → 0 < svc.fast_period
    → IsExactStep svc.fast_period (last_n svc.fast_period series) close
    → HasWindow svc symbol series
    → next_sum svc.fast_period
        (get_or (lookup symbol svc.closes) [])
        (get_or (lookup symbol svc.sums) nought)
        close
      ≡ total (last_n svc.fast_period (series ++ close ∷ []))
next_sum-HasWindow svc symbol series close p x h =
    let n = svc.fast_period in
    rw h.window (
      next_sum-total n (last_n n series) (get_or (lookup symbol svc.sums) nought) close p
        (length-last_n n series) x h.sum
      ∙ ap total (deque_append-last_n n series close))

pub calculate-HasWindow :
    (svc : StrategyService) (symbol : Text) (series : List Decimal) (c : Candle)
    → 0 < svc.fast_period
    → c.symbol ≡ symbol
    → IsExactStep svc.fast_period (last_n svc.fast_period series) c.close
    → HasWindow svc symbol series
    → HasWindow (calculate svc c).0 symbol (series ++ c.close ∷ [])
unfolding calculate
calculate-HasWindow svc symbol series c p e x h =
    let n = svc.fast_period in
    let self : (symbol == symbol) ≡ true = (list_beq_iff symbol symbol).1 refl in
    record {
      window =
          rw
            (
              e,
              lookup-insert symbol symbol
                  (deque_append n (get_or (lookup symbol svc.closes) []) c.close) svc.closes,
              self,
              h.window,
            )
            (deque_append-last_n n series c.close);
      sum =
          rw
            (
              e,
              lookup-insert symbol symbol
                  (next_sum n (get_or (lookup symbol svc.closes) [])
                    (get_or (lookup symbol svc.sums) nought) c.close)
                  svc.sums,
              self,
            )
            (next_sum-HasWindow svc symbol series c.close p x h);
    }
