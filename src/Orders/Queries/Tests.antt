-- ===== src/Orders/Queries/Tests.antt =====
-- A round of reconciliation and the protective orders of a position at concrete answers.
use crypto_trading_system.Base.{
  [], arith, filter, if◌then◌else◌, list_eq, nat_eq, none, not, option_eq, refl, some, ℕ, ◌++◌,
  ◌==◌, ◌∷◌, ◌≡◌,
}
use crypto_trading_system.Base.Int.{◌+ℤ◌}
use crypto_trading_system.Base.Text.{Text, codes}
use crypto_trading_system.Decimal.{IsExact, decimal, round_signed}
use crypto_trading_system.Exchange.{Response}
use crypto_trading_system.Exchange.Result.{Result, ok}
use crypto_trading_system.Models.Common.{buy, open_status, sell, variant_a}
use crypto_trading_system.Models.Strategy.{Position}
use crypto_trading_system.Orders.Queries.{
  QueryState, cancel_each, cancel_order, cancel_rest, keep_filled, order_id_of, order_reference,
  protective_ids, query_each, query_order, reconcile_account_reservations, referred,
  resolve_protectives, settle, settled,
}
use crypto_trading_system.Orders.Queries.Protectives.{IsFirstFilled, resolve_protectives_lem}
use crypto_trading_system.Orders.Queries.Reconciled.{is_outstanding, reconcile_account-Represents}
use crypto_trading_system.Risk.{
  RiskEngine, RiskReservation, key_of, pending_reservations, restore_one,
}
use crypto_trading_system.Risk.Ledger.{Represents, held}
use crypto_trading_system.Risk.Restart.{restore_one-Represents}

abbrev report : ℕ → Text → Response
report id status = record {
  order_id = some id;
  client_order_id = some (codes "c");
  status = some status;
  side = some sell;
  price = none;
  executed_qty = some (decimal 2);
  orig_qty = some (decimal 2);
  quote_qty = none;
}

abbrev position : Position
position = record {
  symbol = codes "BTC";
  variant = variant_a;
  status = open_status;
  quantity = decimal 2;
  entry_price = decimal 100;
  current_price = decimal 100;
  current_pnl = decimal 0;
  stop_loss_price = decimal 90;
  take_profit_price = decimal 120;
  opened_at = 5;
  closed_at = none;
  entry_order_id = some 1;
  stop_loss_order_id = some 2;
  take_profit_order_id = some 3;
  exit_order_ids = [];
}

abbrev empty_engine : RiskEngine
empty_engine = record {
  maximum = decimal 100;
  maximum_order_notional = none;
  reserved = [];
  uncertain = [];
  repository = none;
}

abbrev idle : QueryState
idle = record {
  engine = empty_engine;
  book = record { open_order_positions = []; order_matches = []; squaring_orders = [] };
  recorded = [];
}

-- The stop loss is still open, the take profit is filled.
abbrev protective_answers : ℕ → Result Response
protective_answers id =
    if id == 3 then ok (report 3 (codes "FILLED")) else ok (report id (codes "NEW"))

resolve_protectives_lem_example :
    let (left, found, asked) =
      resolve_protectives
        (some 1)
        (codes "BTC")
        protective_answers
        protective_answers
        position
        idle in
    IsFirstFilled protective_answers (protective_ids position) found
    × (asked ≡ filter (λ id. not (some id == order_id_of found)) (protective_ids position))
resolve_protectives_lem_example =
    resolve_protectives_lem (some 1) (codes "BTC") protective_answers protective_answers position
      idle

cancels_stop_loss :
    (resolve_protectives
      (some 1)
      (codes "BTC")
      protective_answers
      protective_answers
      position
      idle).2
    ≡ 2 ∷ []
unfolding resolve_protectives protective_ids query_each keep_filled cancel_rest cancel_each
    order_id_of query_order cancel_order order_reference referred settled settle
cancels_stop_loss = refl

abbrev pending : RiskReservation
pending = record {
  reservation_id = codes "a";
  account_id = some 1;
  asset = codes "USDT";
  amount = decimal 20;
  client_order_id = codes "c";
  symbol = codes "BTCUSDT";
  side = buy;
}

-- One order whose outcome is unknown.
abbrev uncertain_engine : RiskEngine
uncertain_engine = restore_one empty_engine pending

empty-Represents : Represents empty_engine []
unfolding held
empty-Represents = record { amounts = λ k. refl; positive = tt }

first-IsExact : IsExact (held (key_of pending) [] +ℤ decimal 20)
unfolding held round_signed ◌+ℤ◌
first-IsExact = refl

nothing-IsExact : IsExact (held (key_of pending) [])
unfolding held round_signed
nothing-IsExact = refl

abbrev all_filled : RiskReservation → Result Response
all_filled r = ok (report 7 (codes "FILLED"))

reconcile_account-Represents_example :
    Represents
      (reconcile_account_reservations all_filled 1 uncertain_engine)
      (filter (is_outstanding all_filled) (pending_reservations uncertain_engine (some 1)) ++ [])
unfolding pending_reservations restore_one
reconcile_account-Represents_example =
    reconcile_account-Represents all_filled 1 [] uncertain_engine (nothing-IsExact, tt)
      (restore_one-Represents empty_engine [] pending (ground arith) first-IsExact empty-Represents)
