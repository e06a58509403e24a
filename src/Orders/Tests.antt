-- ===== src/Orders/Tests.antt =====
-- Accounts and orders at which the theorems about matches and sessions are applied.
use crypto_trading_system.Base.{[], list_eq, nat_eq, option_eq, refl, some, true, ◌*◌, ◌∷◌, ◌≡◌}
use crypto_trading_system.Base.Dict.{lookup}
use crypto_trading_system.Base.Text.{codes}
use crypto_trading_system.Decimal.{decimal, ◌⊖◌}
use crypto_trading_system.Exchange.Result.{ok}
use crypto_trading_system.Models.Common.{buy, second, sell}
use crypto_trading_system.Orders.Matches.{
  MatchBook, OrderMatch, closing_quantity, order_key_eq, quantity_to_close, write_match,
}
use crypto_trading_system.Orders.Matches.Remaining.{write_match-open}
use crypto_trading_system.Orders.Sessions.{SessionBook, UserSession}

abbrev tom_match : OrderMatch
tom_match = record {
  symbol = codes "BTCUSDT";
  entry_order_id = 7;
  exit_order_id = 8;
  entry_side = buy;
  exit_side = sell;
  quantity = decimal 2;
  entry_price = decimal 10;
  exit_price = decimal 12;
  realized_pnl = decimal 4;
}

abbrev tom_book : MatchBook
tom_book = record {
  open_order_positions =
      ((1, codes "BTCUSDT", 7), decimal 5) ∷ ((2, codes "BTCUSDT", 7), decimal 1) ∷ [];
  order_matches = [];
  squaring_orders = [];
}

-- Two of the five that order 7 bought are sold.
write_match-open_example :
    lookup
      (1, codes "BTCUSDT", 7)
      (write_match 1 tom_match (decimal 5) tom_book).open_order_positions
    ≡ some (decimal 5 ⊖ decimal 2)
unfolding ◌⊖◌
write_match-open_example = write_match-open 1 tom_match (decimal 5) tom_book (1, codes "BTCUSDT", 7)

closes_three : quantity_to_close (some (decimal 4)) (some (decimal 3)) ≡ ok (decimal 3)
unfolding quantity_to_close closing_quantity
closes_three = refl

abbrev live : UserSession
live = record { verified = true; enabled = true }

abbrev sessions : SessionBook
sessions = record {
  user_sessions = (1, live) ∷ (2, live) ∷ [];
  strategy_symbols = ((2, codes "BTCUSDT"), 9 * second) ∷ [];
}
