-- ===== src/Positions.antt =====
-- services/order_service.py: the positions of the strategy and the guards around them: which signal,
-- tick or request may start an order flow for a position, and what a fill writes. Each function is
-- one block of the source that runs under `self._lock`; what happens between the blocks is in
-- `Positions.Interleaving`.
pub mod Counts
pub mod Flows
pub mod Exit
pub mod Watch
pub mod Interleaving
use crypto_trading_system.Base.{
  Bool, Eq, List, Option, [], arith, count, false, if◌then◌else◌, leb, list_beq_iff, list_eq,
  nat_eq, none, not, option_beq_iff, option_eq, some, true, ℕ, ◌&&◌, ◌++◌, ◌+◌, ◌==◌, ◌↔◌, ◌∷◌, ◌≡◌,
}
use crypto_trading_system.Base.Dict.{Dict, add, discard, get_or, insert, lookup, mem}
use crypto_trading_system.Base.Int.{leb_ℤ, ltb_ℤ, pos, ℤ}
use crypto_trading_system.Base.Text.{Text}
use crypto_trading_system.Decimal.{Decimal, max, nought, ◌⊖◌, ◌⊗◌}
use crypto_trading_system.Exchange.Result.{Result, err, ok, order_error}
use crypto_trading_system.Models.Common.{
  ExitReason, SignalAction, StrategyVariant, Timestamp, closed_status, enter, is_open, leave,
  open_status, stop_loss_reason, take_profit_reason, variant_beq_iff, variant_eq,
}
use crypto_trading_system.Models.Market.{Tick}
use crypto_trading_system.Models.Strategy.{Position, Signal, position_accepts}

-- The account, if any, the symbol and the variant.
abbrev pub PositionKey : Type 0
PositionKey = Option ℕ × Text × StrategyVariant

abbrev pub position_key_beq : PositionKey → PositionKey → Bool
position_key_beq a b = a.0 == b.0 && (a.1 == b.1 && a.2 == b.2)

pub position_key_beq_iff : (a b : PositionKey) → (position_key_beq a b ≡ true) ↔ (a ≡ b)
position_key_beq_iff a b =
    ground (arith, option_beq_iff a.0 b.0, list_beq_iff a.1 b.1, variant_beq_iff a.2 b.2)

instance abbrev pub position_key_eq : Eq PositionKey
position_key_eq = record { beq = position_key_beq; beq_iff = position_key_beq_iff }

pub record PositionBook : Type 0 where
  pub positions : Dict PositionKey Position
  pub positions_by_symbol : Dict Text (List PositionKey)
  pub inflight : List PositionKey
  pub pending_entries : List PositionKey
  pub reconciled_positions : List PositionKey

-- `position and position.status is PositionStatus.OPEN`
abbrev pub is_open_position : Option Position → Bool
is_open_position none = false
is_open_position (some p) = is_open p.status

pub open_at : PositionBook → PositionKey → Bool
open_at book key = is_open_position (lookup key book.positions)

-- `sum(1 for (owner, _, _), item in positions.items() if …)`
pub open_count : Option ℕ → Dict PositionKey Position → ℕ
open_count owner [] = 0
open_count owner ((key, p) ∷ d) =
    (if key.0 == owner && is_open p.status then 1 else 0) + open_count owner d

pub pending_count : Option ℕ → List PositionKey → ℕ
pending_count owner entries = count (λ (k : PositionKey). k.0 == owner) entries

pub signal_key : Option ℕ → Signal → PositionKey
signal_key owner signal = (owner, signal.symbol, signal.variant)

pub start_flow : PositionKey → PositionBook → PositionBook
start_flow key book = record book { inflight = add key book.inflight }

-- The BUY branch: room for one more position of the account.
pub admit_entry : ℕ → PositionKey → PositionBook → PositionBook × Bool
admit_entry max_open key book =
    if leb max_open (open_count key.0 book.positions + pending_count key.0 book.pending_entries)
    then (book, false)
    else (start_flow key (record book { pending_entries = add key book.pending_entries }), true)

pub admit_by_action : SignalAction → ℕ → PositionKey → PositionBook → PositionBook × Bool
admit_by_action enter max_open key book =
    if open_at book key then (book, false) else admit_entry max_open key book
admit_by_action leave max_open key book =
    if open_at book key then (start_flow key book, true) else (book, false)

-- The locked block at the head of `process_signal`, behind the kill switch `execution_enabled`;
-- false is an early return.
pub admit_signal : ℕ → Option ℕ → Signal → PositionBook → PositionBook × Bool
admit_signal max_open owner signal book =
    let key = signal_key owner signal in
    if mem key book.inflight then (book, false) else admit_by_action signal.action max_open key book

-- The `finally` block of `process_signal`.
pub finish_signal : PositionKey → PositionBook → PositionBook
finish_signal key book = record book {
  inflight = discard key book.inflight;
  pending_entries = discard key book.pending_entries;
}

-- The `finally` block of the other flows.
pub finish_flow : PositionKey → PositionBook → PositionBook
finish_flow key book = record book { inflight = discard key book.inflight }

-- `process_tick` on one open position.
unfoldable pub mark_price : Decimal → Position → Position
mark_price price p = record p {
  current_price = price;
  current_pnl = (price ⊖ p.entry_price) ⊗ p.quantity;
}

unfoldable pub exit_reason : Decimal → Position → Option ExitReason
exit_reason price p =
    if leb_ℤ price p.stop_loss_price
    then some stop_loss_reason
    else if leb_ℤ p.take_profit_price price
    then some take_profit_reason
    else none

-- The exit is taken only for an account that may trade and a position with no order in flight.
pub trigger :
    Bool
    → PositionKey
    → Option ExitReason
    → PositionBook
    → PositionBook × List (PositionKey × ExitReason)
trigger allowed key none book = (book, [])
trigger allowed key (some reason) book =
    if allowed && not (mem key book.inflight)
    then (start_flow key book, (key, reason) ∷ [])
    else (book, [])

pub tick_position :
    (Option ℕ → Bool)
    → Tick
    → PositionKey
    → Option Position
    → PositionBook
    → PositionBook × List (PositionKey × ExitReason)
tick_position enabled tick key none book = (book, [])
tick_position enabled tick key (some p) book =
    if key.1 == tick.symbol && is_open p.status
    then trigger (enabled key.0) key (exit_reason tick.price (mark_price tick.price p))
        (record book { positions = insert key (mark_price tick.price p) book.positions })
    else (book, [])

pub tick_each :
    (Option ℕ → Bool)
    → Tick
    → List PositionKey
    → PositionBook
    → PositionBook × List (PositionKey × ExitReason)
tick_each enabled tick [] book = (book, [])
tick_each enabled tick (key ∷ keys) book =
    let (book', exits) = tick_position enabled tick key (lookup key book.positions) book in
    let (book'', more) = tick_each enabled tick keys book' in (book'', exits ++ more)

-- The locked block of `process_tick`: the exits for which a task is created. `enabled` is
-- `_user_execution_enabled`.
pub process_tick :
    (Option ℕ → Bool) → Tick → PositionBook → PositionBook × List (PositionKey × ExitReason)
process_tick enabled tick book =
    tick_each enabled tick (get_or (lookup tick.symbol book.positions_by_symbol) []) book

-- The locked block of `square_off`: 404 without an open position, 409 with an order in flight.
pub admit_square_off : PositionKey → PositionBook → PositionBook × Result (Unit {0})
admit_square_off key book =
    if open_at book key
    then (if mem key book.inflight
        then (book, err (order_error 409 false))
        else (start_flow key book, ok tt))
    else (book, err (order_error 404 false))

-- The candidates of `_reconcile_strategy_positions`.
pub reconcile_candidates : Option ℕ → PositionBook → Dict PositionKey Position → List PositionKey
reconcile_candidates user book [] = []
reconcile_candidates user book ((key, p) ∷ d) =
    if (key.0 == user && is_open p.status)
      && (not (mem key book.inflight) && not (mem key book.reconciled_positions))
    then key ∷ reconcile_candidates user book d
    else reconcile_candidates user book d

-- Its inner locked block, for a candidate whose symbol is not in an uptrend.
pub admit_reconcile : PositionKey → PositionBook → PositionBook × Bool
admit_reconcile key book =
    if open_at book key && not (mem key book.inflight)
    then (
      start_flow key (record book { reconciled_positions = add key book.reconciled_positions }),
      true,
    )
    else (book, false)

-- `relation is None or relation > 0`: the position is left alone.
pub is_uptrend_or_unknown : Option ℤ → Bool
is_uptrend_or_unknown none = true
is_uptrend_or_unknown (some r) = ltb_ℤ (pos 0) r

-- The locked block of `_enter`.
pub store_entry : Option ℕ → Position → PositionBook → PositionBook
store_entry owner p book =
    let key : PositionKey = (owner, p.symbol, p.variant) in
    record book {
      positions = insert key p book.positions;
      positions_by_symbol =
          insert p.symbol (add key (get_or (lookup p.symbol book.positions_by_symbol) []))
            book.positions_by_symbol;
      reconciled_positions = discard key book.reconciled_positions;
    }

pub append_order : Option ℕ → List ℕ → List ℕ
append_order none ids = ids
append_order (some id) ids = ids ++ id ∷ []

-- The position after a fill of `executed` at `price`.
pub exited : Position → Decimal → Decimal → Timestamp → Option ℕ → Position
exited p executed price timestamp order_id =
    let remaining = max nought (p.quantity ⊖ executed) in
    let partial = ltb_ℤ nought remaining in
    record p {
      current_price = price;
      current_pnl = (price ⊖ p.entry_price) ⊗ executed;
      quantity = if partial then remaining else p.quantity;
      status = if partial then open_status else closed_status;
      closed_at = if partial then none else some timestamp;
      exit_order_ids = append_order order_id p.exit_order_ids;
      stop_loss_order_id = none;
      take_profit_order_id = none;
    }

-- The locked block of `_exit` behind the fill; `none` is the `ValidationError` of `model_validate`.
pub apply_exit_to :
    PositionKey
    → Option Position
    → Decimal
    → Decimal
    → Timestamp
    → Option ℕ
    → PositionBook
    → Option PositionBook
apply_exit_to key none executed price timestamp order_id book = some book
apply_exit_to key (some p) executed price timestamp order_id book =
    if position_accepts (exited p executed price timestamp order_id)
    then some (record book {
      positions = insert key (exited p executed price timestamp order_id) book.positions;
    })
    else none

pub apply_exit :
    PositionKey → Decimal → Decimal → Timestamp → Option ℕ → PositionBook → Option PositionBook
apply_exit key executed price timestamp order_id book =
    apply_exit_to key (lookup key book.positions) executed price timestamp order_id book
