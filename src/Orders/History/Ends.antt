-- ===== src/Orders/History/Ends.antt =====
-- The loop of `_all_trades` ends: each page begins behind the one before, and ids are bounded.
use mathlib.Core.Path.{subst}
use crypto_trading_system.Base.{
  All, List, Option, [], arith, is_some, last?, none, refl, some, suc, true, zero, ℕ, ◌++◌, ◌+◌,
  ◌<◌, ◌∷◌, ◌≡◌, ◌≤◌,
}
use crypto_trading_system.Exchange.Result.{Result, err, ok}
use crypto_trading_system.Orders.History.{
  after_fill, all_trades, at_next, fetch_pages, go_on, next_id, on_page, page_size,
}
use crypto_trading_system.Orders.Pnl.{Fill}

-- The fuel left covers the ids left.
abbrev IsCovered : ℕ → ℕ → Option ℕ → Type 0
IsCovered bound fuel none = bound < fuel
IsCovered bound fuel (some from_id) = (from_id ≤ bound) × (bound < fuel + from_id)

last?-All : (P : Fill → Type 0) (xs : List Fill) (f : Fill) → All P xs → last? xs ≡ some f → P f
last?-All P [] f h e = absurd (ground (arith, e))
last?-All P (x ∷ []) f h e = subst P (ground (arith, e)) h.0
last?-All P (x ∷ y ∷ ys) f h e = last?-All P (y ∷ ys) f h.1 e

at_next-IsCovered :
    (bound fuel following : ℕ) (from_id : Option ℕ) (j : ℕ)
    → 0 < following
    → following ≤ bound
    → IsCovered bound (suc fuel) from_id
    → at_next from_id following ≡ some j
    → IsCovered bound fuel (some j)
unfolding at_next
at_next-IsCovered bound fuel following none j p b c e = ground (arith, p, b, c, e)
at_next-IsCovered bound fuel following (some i) j p b c e = ground (arith, p, b, c.0, c.1, e)

after_fill-IsCovered :
    (bound fuel : ℕ) (from_id : Option ℕ) (last : Option Fill) (j : ℕ)
    → ((f : Fill) → last ≡ some f → f.fill_id < bound)
    → IsCovered bound (suc fuel) from_id
    → after_fill from_id last ≡ some j
    → IsCovered bound fuel (some j)
unfolding after_fill
after_fill-IsCovered bound fuel from_id none j b c e = absurd (ground (arith, e))
after_fill-IsCovered bound fuel from_id (some f) j b c e =
    let below = b f refl in
    at_next-IsCovered bound fuel (f.fill_id + 1) from_id j (omega arith) (omega (arith, below)) c e

next_id-IsCovered :
    (bound fuel size : ℕ) (from_id : Option ℕ) (fills : List Fill) (j : ℕ)
    → All (λ (f : Fill). f.fill_id < bound) fills
    → IsCovered bound (suc fuel) from_id
    → next_id size from_id fills ≡ some j
    → IsCovered bound fuel (some j)
unfolding next_id
next_id-IsCovered bound fuel size from_id fills j b c e =
    let go : after_fill from_id (last? fills) ≡ some j = ground (arith, e) in
    after_fill-IsCovered bound fuel from_id (last? fills) j
      (λ f q. last?-All (λ (g : Fill). g.fill_id < bound) fills f b q) c go

module _ (bound size : ℕ) (page : Option ℕ → Result (List Fill))
    (bounded : (o : Option ℕ) (fills : List Fill)
      → page o ≡ ok fills
      → All (λ (f : Fill). f.fill_id < bound) fills) where
  go_on-ends :
      (continue : ℕ → List Fill → Option (Result (List Fill))) (following : Option ℕ)
      (collected : List Fill)
      → ((j : ℕ) → following ≡ some j → is_some (continue j collected) ≡ true)
      → is_some (go_on continue following collected) ≡ true
  unfolding go_on
  go_on-ends continue none collected h = refl
  go_on-ends continue (some j) collected h = h j refl

  on_page-ends :
      (continue : ℕ → List Fill → Option (Result (List Fill))) (from_id : Option ℕ)
      (collected : List Fill) (answer : Result (List Fill))
      → ((fills : List Fill) (j : ℕ)
          → answer ≡ ok fills
          → next_id size from_id fills ≡ some j
          → is_some (continue j (collected ++ fills)) ≡ true)
      → is_some (on_page continue size from_id collected answer) ≡ true
  unfolding on_page
  on_page-ends continue from_id collected (err e) h = refl
  on_page-ends continue from_id collected (ok fills) h =
      go_on-ends continue (next_id size from_id fills) (collected ++ fills)
        (λ j q. h fills j refl q)

  fetch_pages-ends :
      (fuel : ℕ) (from_id : Option ℕ) (collected : List Fill)
      → IsCovered bound fuel from_id
      → is_some (fetch_pages fuel size page from_id collected) ≡ true
  unfolding fetch_pages
  fetch_pages-ends zero none collected c = absurd (omega (arith, c))
  fetch_pages-ends zero (some i) collected c = absurd (omega (arith, c.0, c.1))
  fetch_pages-ends (suc fuel) from_id collected c =
      on_page-ends (λ i d. fetch_pages fuel size page (some i) d) from_id collected (page from_id)
        (λ fills j q e.
          fetch_pages-ends fuel (some j) (collected ++ fills)
            (next_id-IsCovered bound fuel size from_id fills j (bounded from_id fills q) c e))

-- Whatever pages the exchange answers, `_all_trades` ends, by an error or with what it collected,
-- after at most as many requests as there are ids below the bound of its ids, and one more.
pub all_trades-ends :
    (bound fuel : ℕ) (page : Option ℕ → Result (List Fill))
    → ((o : Option ℕ) (fills : List Fill)
        → page o ≡ ok fills
        → All (λ (f : Fill). f.fill_id < bound) fills)
    → bound < fuel
    → is_some (all_trades fuel page) ≡ true
unfolding all_trades
all_trades-ends bound fuel page bounded enough =
    fetch_pages-ends bound page_size page bounded fuel none [] enough
