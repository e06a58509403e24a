-- ===== src/Stores/Books.antt =====
-- services/order_book_store.py: `OrderBookStore`.
-- `OrderBookStore._books`.
use crypto_trading_system.Base.{
  Bool, Option, false, if◌then◌else◌, leb, list_eq, nat_eq, none, option_eq, some, true, ℕ, ◌+◌,
}
use crypto_trading_system.Base.Dict.{Dict, erase, insert, lookup}
use crypto_trading_system.Base.Text.{Text, strip_upper}
use crypto_trading_system.Models.Market.{PartialOrderBook}

abbrev pub OrderBookStore : Type 0
OrderBookStore = Dict Text PartialOrderBook

stores_book : Option PartialOrderBook → PartialOrderBook → Bool
stores_book none book = true
stores_book (some current) book =
    if leb book.last_update_id current.last_update_id then false else true

unfoldable pub update : OrderBookStore → PartialOrderBook → OrderBookStore × Bool
unfolding stores_book
update books book =
    if stores_book (lookup book.symbol books) book
    then (insert book.symbol book books, true)
    else (books, false)

unfoldable pub get : OrderBookStore → Text → Option PartialOrderBook
get books symbol = lookup (strip_upper symbol) books

unfoldable pub remove : OrderBookStore → Text → OrderBookStore
remove books symbol = erase (strip_upper symbol) books

-- The id of the stored book, counted from 1; 0 where there is none.
abbrev pub rank : Option PartialOrderBook → ℕ
rank none = 0
rank (some b) = b.last_update_id + 1
