-- ===== src/Orders/History/Tests.antt =====
-- A history of 1200 fills, and `_all_trades` on it.
use mathlib.Core.Path.{subst}
use crypto_trading_system.Base.{
  All, List, Option, [], arith, is_some, none, refl, some, suc, true, zero, ℕ, ◌+◌, ◌<◌, ◌∷◌, ◌≡◌,
  ◌≤◌,
}
use crypto_trading_system.Decimal.{decimal, nought}
use crypto_trading_system.Exchange.Result.{Result, ok}
use crypto_trading_system.Orders.History.{all_trades, page_size}
use crypto_trading_system.Orders.History.Ends.{all_trades-ends}
use crypto_trading_system.Orders.History.Recent.{
  IsAscending, all_trades-latest, from_fill, latest_fills,
}
use crypto_trading_system.Orders.Pnl.{Fill}

abbrev fill_at : ℕ → Fill
fill_at id = record {
  time = id;
  fill_id = id;
  order_id = 1;
  is_buyer = true;
  qty = decimal 1;
  quote_qty = decimal 10;
  commission = nought;
  commission_asset = [];
}

run_from : ℕ → ℕ → List Fill
run_from zero id = []
run_from (suc n) id = fill_at id ∷ run_from n (id + 1)

run_from-after : (m n id : ℕ) → m < id → All (λ (f : Fill). m < f.fill_id) (run_from n id)
unfolding run_from
run_from-after m zero id h = tt
run_from-after m (suc n) id h = (h, run_from-after m n (id + 1) (omega (arith, h)))

run_from-below :
    (bound n id : ℕ) → id + n ≤ bound → All (λ (f : Fill). f.fill_id < bound) (run_from n id)
unfolding run_from
run_from-below bound zero id h = tt
run_from-below bound (suc n) id h =
    (omega (arith, h), run_from-below bound n (id + 1) (omega (arith, h)))

run_from-IsAscending : (n id : ℕ) → IsAscending (run_from n id)
unfolding run_from IsAscending
run_from-IsAscending zero id = tt
run_from-IsAscending (suc n) id =
    (run_from-after id n (id + 1) (omega arith), run_from-IsAscending n (id + 1))

abbrev history : List Fill
history = run_from 1200 1

-- The exchange as it is documented.
abbrev pages : Option ℕ → Result (List Fill)
pages none = ok (latest_fills page_size history)
pages (some id) = ok (from_fill page_size id history)

all_trades-latest_example : all_trades 2 pages ≡ some (ok (latest_fills page_size history))
all_trades-latest_example =
    all_trades-latest 0 pages history refl (λ id. refl) (run_from-IsAscending 1200 1)

-- A first page that is full, and nothing behind it.
abbrev one_page : Option ℕ → Result (List Fill)
one_page none = ok (run_from 1000 201)
one_page (some id) = ok []

one_page-bounded :
    (o : Option ℕ) (fills : List Fill)
    → one_page o ≡ ok fills
    → All (λ (f : Fill). f.fill_id < 1201) fills
one_page-bounded none fills h =
    let same : run_from 1000 201 ≡ fills = ground (arith, h) in
    subst (All (λ (f : Fill). f.fill_id < 1201)) same (run_from-below 1201 1000 201 (omega arith))
one_page-bounded (some id) fills h =
    let same : [] ≡ fills = ground (arith, h) in
    subst (All (λ (f : Fill). f.fill_id < 1201)) same tt

all_trades-ends_example : is_some (all_trades 1202 one_page) ≡ true
all_trades-ends_example = all_trades-ends 1201 1202 one_page one_page-bounded (omega arith)
