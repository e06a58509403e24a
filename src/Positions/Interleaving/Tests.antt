-- ===== src/Positions/Interleaving/Tests.antt =====
-- Runs of the position book, and the theorems about it at these runs.
use crypto_trading_system.Base.{
  [], arith, list_eq, nat_eq, none, option_eq, refl, some, true, ◌≡◌, ◌≤◌,
}
use crypto_trading_system.Base.Text.{codes}
use crypto_trading_system.Decimal.{decimal}
use crypto_trading_system.Models.Common.{enter, open_status, variant_a}
use crypto_trading_system.Models.Market.{Tick}
use crypto_trading_system.Models.Strategy.{Position, Signal, position_accepts}
use crypto_trading_system.Positions.{
  PositionBook, PositionKey, admit_by_action, admit_entry, admit_reconcile, admit_signal,
  exit_reason, exited, finish_flow, finish_signal, mark_price, open_at, open_count, pending_count,
  position_key_eq, process_tick, signal_key, start_flow, store_entry, tick_each, tick_position,
  trigger,
}
use crypto_trading_system.Positions.Counts.{occupied}
use crypto_trading_system.Positions.Exit.{exited-accepts}
use crypto_trading_system.Positions.Flows.{end_flow, entered, from_block}
use crypto_trading_system.Positions.Interleaving.{
  IsUndisturbed, Reach, System, begin_if, close_flow, end_step, entry_step, fill_step, flow_of,
  here, launch, next, on_end, on_entry, on_fill, on_reconcile, on_signal, on_tick, reconcile_step,
  signal_step, tick_step,
}
use crypto_trading_system.Positions.Interleaving.Safety.{IsStart, within_limit}

abbrev empty_book : PositionBook
empty_book = record {
  positions = [];
  positions_by_symbol = [];
  inflight = [];
  pending_entries = [];
  reconciled_positions = [];
}

abbrev idle_system : System
idle_system = record { book = empty_book; flows = [] }

abbrev buy_signal : Signal
buy_signal = record {
  symbol = codes "BTC";
  variant = variant_a;
  action = enter;
  timestamp = 5;
  price = decimal 100;
  fast_value = decimal 100;
  slow_value = decimal 99;
}

abbrev bought : Position
bought = record {
  symbol = codes "BTC";
  variant = variant_a;
  status = open_status;
  quantity = decimal 2;
  entry_price = decimal 100;
  current_price = decimal 100;
  current_pnl = decimal 0;
  stop_loss_price = decimal 90;
  take_profit_price = decimal 120;
  opened_at = 5;
  closed_at = none;
  entry_order_id = some 1;
  stop_loss_order_id = some 2;
  take_profit_order_id = some 3;
  exit_order_ids = [];
}

abbrev key : PositionKey
key = (some 1, codes "BTC", variant_a)

abbrev crash : Tick
crash = record { symbol = codes "BTC"; price = decimal 80; quantity = decimal 1; timestamp = 9 }

-- A reconciliation that finds no position, the entry of a signal, its fill and its end; then a tick
-- below the stop loss and the exit's fill.
abbrev entered_system : System
entered_system =
    on_end key entered
      (on_entry key bought (on_signal 1 (some 1) buy_signal (on_reconcile key idle_system)))

abbrev exited_system : System
exited_system =
    on_fill key from_block (decimal 2) (decimal 80) 10 (some 4)
      (on_tick (λ o. true) crash entered_system)

run : Reach 1 idle_system exited_system
unfolding begin_if on_reconcile admit_reconcile finish_flow on_signal flow_of admit_signal
    signal_key admit_by_action open_at admit_entry open_count pending_count start_flow on_entry
    store_entry end_flow on_end close_flow finish_signal on_tick process_tick tick_each
    tick_position mark_price exit_reason trigger launch
run =
    next
      (next
        (next
          (next (next (next here (reconcile_step key)) (signal_step (some 1) buy_signal)) (
            entry_step key bought refl
              (record { symbol = refl; variant = refl; is_opened = refl })))
          (end_step key entered refl))
        (tick_step (λ o. true) crash))
      (fill_step key from_block (decimal 2) (decimal 80) 10 (some 4) refl)

run-IsUndisturbed : IsUndisturbed 1 idle_system exited_system run
unfolding run
run-IsUndisturbed = ((((((tt, refl), tt), tt), tt), tt), tt)

idle-IsStart : IsStart 1 empty_book
unfolding open_count
idle-IsStart = record { no_inflight = refl; no_pending = refl; limit = λ o. omega arith }

within_limit_example :
    (occupied (some 1) exited_system.book ≤ 1)
    × (open_count (some 1) exited_system.book.positions ≤ 1)
within_limit_example =
    within_limit 1 empty_book exited_system idle-IsStart run run-IsUndisturbed (some 1)

bought_accepted : position_accepts bought ≡ true
unfolding position_accepts
bought_accepted = refl

exited-accepts_example :
    position_accepts (exited bought (decimal 1) (decimal 80) 10 (some 4)) ≡ true
exited-accepts_example =
    exited-accepts bought (decimal 1) (decimal 80) 10 (some 4) bought_accepted (ground arith)
      (omega arith)
