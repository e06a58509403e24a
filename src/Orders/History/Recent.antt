-- ===== src/Orders/History/Recent.antt =====
-- What `_all_trades` collects from an exchange that answers a request without a first id by the
-- latest fills, and one with a first id by the earliest fills from it on.
use crypto_trading_system.Base.{
  All, Bool-cases, List, Option, [], ap, arith, drop, filter, inl, inr, last?, leb, length, ltb,
  none, refl, some, suc, take, true, zero, ℕ, ◌++◌, ◌+◌, ◌-◌, ◌<◌, ◌∙◌, ◌∷◌, ◌≡◌, ◌≤◌,
}
use crypto_trading_system.Exchange.Result.{Result, ok}
use crypto_trading_system.Orders.History.{
  after_fill, all_trades, at_next, fetch_pages, go_on, next_id, on_page, page_size,
}
use crypto_trading_system.Orders.Pnl.{Fill}

-- A history in the order of its ids.
unfoldable pub IsAscending : List Fill → Type 0
IsAscending [] = Unit
IsAscending (f ∷ fs) = All (λ (g : Fill). f.fill_id < g.fill_id) fs × IsAscending fs

abbrev pub latest_fills : ℕ → List Fill → List Fill
latest_fills size history = drop (length history - size) history

abbrev pub from_fill : ℕ → ℕ → List Fill → List Fill
from_fill size id history = take size (filter (λ (f : Fill). leb id f.fill_id) history)

last?-cons : (x f : Fill) (xs : List Fill) → last? xs ≡ some f → last? (x ∷ xs) ≡ some f
last?-cons x f [] h = absurd (ground (arith, h))
last?-cons x f (y ∷ ys) h = h

last?-drop : (n : ℕ) (xs : List Fill) (f : Fill) → last? (drop n xs) ≡ some f → last? xs ≡ some f
last?-drop zero xs f h = h
last?-drop (suc n) [] f h = h
last?-drop (suc n) (x ∷ xs) f h = last?-cons x f xs (last?-drop n xs f h)

ascending-last :
    (xs : List Fill) (f : Fill)
    → IsAscending xs
    → last? xs ≡ some f
    → All (λ (g : Fill). g.fill_id ≤ f.fill_id) xs
unfolding IsAscending
ascending-last [] f h e = tt
ascending-last (x ∷ []) f h e = (
  let q : x ≡ f = ground (arith, e) in
      let i : x.fill_id ≡ f.fill_id = ap (λ (z : Fill). z.fill_id) q in omega (arith, i),
  tt,
)
ascending-last (x ∷ y ∷ ys) f h e =
    let rest = ascending-last (y ∷ ys) f h.1 e in (omega (arith, h.0.0, rest.0), rest)

filter-none :
    (m : ℕ) (xs : List Fill)
    → All (λ (g : Fill). g.fill_id ≤ m) xs
    → filter (λ (g : Fill). leb (m + 1) g.fill_id) xs ≡ []
filter-none m [] h = refl
filter-none m (x ∷ xs) h = ground (arith, h.0, filter-none m xs h.1)

take-nil : (n : ℕ) → take {A = Fill} n [] ≡ []
take-nil zero = refl
take-nil (suc n) = refl

-- A page behind the latest fill is empty.
page-after_last :
    (size : ℕ) (history : List Fill) (f : Fill)
    → IsAscending history
    → last? (latest_fills size history) ≡ some f
    → from_fill size (f.fill_id + 1) history ≡ []
page-after_last size history f h e =
    ap (take size) (
      filter-none f.fill_id history
        (ascending-last history f h (last?-drop (length history - size) history f e)))
    ∙ take-nil size

append_nothing : (xs : List Fill) → xs ++ [] ≡ xs
append_nothing [] = refl
append_nothing (x ∷ xs) = ap (λ ys. x ∷ ys) (append_nothing xs)

empty_page :
    (continue : ℕ → List Fill → Option (Result (List Fill))) (size : ℕ) (from_id : Option ℕ)
    (collected : List Fill)
    → 0 < size
    → on_page continue size from_id collected (ok []) ≡ some (ok collected)
unfolding on_page next_id go_on
empty_page continue size from_id collected h =
    let short : ltb 0 size ≡ true = ground (arith, h) in rw (short, append_nothing collected) refl

module _ (fuel size : ℕ) (page : Option ℕ → Result (List Fill)) (history : List Fill) where
  after_latest :
      (o : Option Fill)
      → 0 < size
      → ((id : ℕ) → page (some id) ≡ ok (from_fill size id history))
      → IsAscending history
      → last? (latest_fills size history) ≡ o
      → go_on
          (λ i c. fetch_pages (suc fuel) size page (some i) c)
          (after_fill none o)
          (latest_fills size history)
        ≡ some (ok (latest_fills size history))
  unfolding go_on after_fill at_next fetch_pages
  after_latest none s onward h e = refl
  after_latest (some f) s onward h e =
      ap
        (on_page (λ i c. fetch_pages fuel size page (some i) c) size (some (f.fill_id + 1))
          (latest_fills size history))
        (onward (f.fill_id + 1) ∙ ap ok (page-after_last size history f h e))
      ∙ empty_page (λ i c. fetch_pages fuel size page (some i) c) size (some (f.fill_id + 1))
          (latest_fills size history) s

  fetch_latest :
      0 < size
      → page none ≡ ok (latest_fills size history)
      → ((id : ℕ) → page (some id) ≡ ok (from_fill size id history))
      → IsAscending history
      → fetch_pages (suc (suc fuel)) size page none [] ≡ some (ok (latest_fills size history))
  unfolding fetch_pages on_page next_id go_on
  fetch_latest s recent onward h =
      rw recent (elim (Bool-cases (ltb (length (latest_fills size history)) size)) [
        | inl short ↦ rw short refl
        | inr full ↦ rw full (after_latest (last? (latest_fills size history)) s onward h refl)
      ])

-- From an exchange that answers a request without a first id by the latest 1000 fills, and one with
-- a first id by the earliest 1000 from it on, `_all_trades` collects the latest 1000 fills and no
-- others, after at most two requests, however long the history is.
pub all_trades-latest :
    (fuel : ℕ) (page : Option ℕ → Result (List Fill)) (history : List Fill)
    → page none ≡ ok (latest_fills page_size history)
    → ((id : ℕ) → page (some id) ≡ ok (from_fill page_size id history))
    → IsAscending history
    → all_trades (suc (suc fuel)) page ≡ some (ok (latest_fills page_size history))
unfolding all_trades
all_trades-latest fuel page history recent onward h =
    fetch_latest fuel page_size page history (omega arith) recent onward h
