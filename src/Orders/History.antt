-- ===== src/Orders/History.antt =====
-- services/order_service.py, `_all_trades`: the fills of a symbol, fetched page by page. `page` is
-- what the exchange answers to a request with or without a first id.
pub mod Recent
pub mod Ends
mod Tests
use crypto_trading_system.Base.{
  List, Option, [], if◌then◌else◌, last?, leb, length, ltb, none, some, suc, zero, ℕ, ◌++◌, ◌+◌,
}
use crypto_trading_system.Exchange.Result.{Result, err, ok}
use crypto_trading_system.Orders.Pnl.{Fill}

-- The limit of a page.
abbrev pub page_size : ℕ
page_size = 1000

pub at_next : Option ℕ → ℕ → Option ℕ
at_next none next_id = some next_id
at_next (some from_id) next_id = if leb next_id from_id then none else some next_id

pub after_fill : Option ℕ → Option Fill → Option ℕ
after_fill from_id none = none
after_fill from_id (some f) = at_next from_id (f.fill_id + 1)

-- Where the next page begins; none when this page is the last.
pub next_id : ℕ → Option ℕ → List Fill → Option ℕ
next_id size from_id fills =
    if ltb (length fills) size then none else after_fill from_id (last? fills)

pub go_on :
    (ℕ → List Fill → Option (Result (List Fill)))
    → Option ℕ
    → List Fill
    → Option (Result (List Fill))
go_on continue none collected = some (ok collected)
go_on continue (some from_id) collected = continue from_id collected

pub on_page :
    (ℕ → List Fill → Option (Result (List Fill)))
    → ℕ
    → Option ℕ
    → List Fill
    → Result (List Fill)
    → Option (Result (List Fill))
on_page continue size from_id collected (err e) = some (err e)
on_page continue size from_id collected (ok fills) =
    go_on continue (next_id size from_id fills) (collected ++ fills)

-- `none` when the fuel is used up.
pub fetch_pages :
    ℕ → ℕ → (Option ℕ → Result (List Fill)) → Option ℕ → List Fill → Option (Result (List Fill))
fetch_pages zero size page from_id collected = none
fetch_pages (suc fuel) size page from_id collected =
    on_page (λ i c. fetch_pages fuel size page (some i) c) size from_id collected (page from_id)

pub all_trades : ℕ → (Option ℕ → Result (List Fill)) → Option (Result (List Fill))
all_trades fuel page = fetch_pages fuel page_size page none []
