-- ===== src/Positions/Interleaving.antt =====
-- services/order_service.py: the order flows between the locked blocks. `process_signal`,
-- `_execute_risk_exit`, `square_off` and `_reconcile_strategy_positions` each pass a guard, run for
-- a while outside the lock, and end with their `finally` block. A step is one locked block, so a run
-- is any interleaving of them.
pub mod Invariant
pub mod Blocks
pub mod Safety
mod Tests
use crypto_trading_system.Base.{
  Bool, List, Option, [], false, if◌then◌else◌, list_eq, nat_eq, option_eq, some, true, ℕ, ◌∷◌, ◌≡◌,
}
use crypto_trading_system.Base.Dict.{get_or, lookup, mem}
use crypto_trading_system.Decimal.{Decimal}
use crypto_trading_system.Exchange.Result.{Result, err, ok}
use crypto_trading_system.Models.Common.{ExitReason, SignalAction, Timestamp, enter, is_open, leave}
use crypto_trading_system.Models.Market.{Tick}
use crypto_trading_system.Models.Strategy.{Position, Signal}
use crypto_trading_system.Positions.{
  PositionBook, PositionKey, admit_reconcile, admit_signal, admit_square_off, apply_exit,
  finish_flow, finish_signal, position_key_eq, process_tick, signal_key, store_entry,
}
use crypto_trading_system.Positions.Flows.{
  Flow, Flows, Origin, end_flow, entered, entering, exited_flow, exiting, from_block, from_signal,
}

-- What the service has of its positions, and the flows under way.
pub record System : Type 0 where
  pub book : PositionBook
  pub flows : Flows

pub flow_of : SignalAction → Flow
flow_of enter = entering
flow_of leave = exiting from_signal

-- A flow begins where its guard says so.
pub begin_if : PositionKey → Flow → Flows → PositionBook × Bool → System
begin_if k f flows (book, true) = record { book = book; flows = (k, f) ∷ flows }
begin_if k f flows (book, false) = record { book = book; flows = flows }

pub on_signal : ℕ → Option ℕ → Signal → System → System
on_signal max_open owner signal s =
    begin_if (signal_key owner signal) (flow_of signal.action) s.flows
      (admit_signal max_open owner signal s.book)

-- A task for each exit of the tick.
pub launch : List (PositionKey × ExitReason) → Flows → Flows
launch [] flows = flows
launch ((k, reason) ∷ exits) flows = launch exits ((k, exiting from_block) ∷ flows)

pub on_tick : (Option ℕ → Bool) → Tick → System → System
on_tick enabled tick s = record {
  book = (process_tick enabled tick s.book).0;
  flows = launch (process_tick enabled tick s.book).1 s.flows;
}

abbrev pub is_ok : {A : Type 0} → Result A → Bool
is_ok (ok a) = true
is_ok (err e) = false

pub on_square_off : PositionKey → System → System
on_square_off k s =
    begin_if k (exiting from_block) s.flows
      ((admit_square_off k s.book).0, is_ok (admit_square_off k s.book).1)

-- The guard of `_reconcile_strategy_positions` stands inside its `try`, so the `finally` block takes
-- the key out of `_inflight` also where the guard fails, and then whoever put it there.
pub on_reconcile : PositionKey → System → System
on_reconcile k s =
    if (admit_reconcile k s.book).1
    then record { book = (admit_reconcile k s.book).0; flows = (k, exiting from_block) ∷ s.flows }
    else record { book = finish_flow k (admit_reconcile k s.book).0; flows = s.flows }

-- The locked block of `_enter`.
pub on_entry : PositionKey → Position → System → System
on_entry k p s = record {
  book = store_entry k.0 p s.book;
  flows = (k, entered) ∷ end_flow k s.flows;
}

-- The locked block of `_exit` behind the fill; a `ValidationError` writes nothing.
pub on_fill : PositionKey → Origin → Decimal → Decimal → Timestamp → Option ℕ → System → System
on_fill k origin executed price timestamp order_id s = record {
  book = get_or (apply_exit k executed price timestamp order_id s.book) s.book;
  flows = (k, exited_flow origin) ∷ end_flow k s.flows;
}

pub close_flow : Flow → PositionKey → PositionBook → PositionBook
close_flow entering k book = finish_signal k book
close_flow entered k book = finish_signal k book
close_flow (exiting from_signal) k book = finish_signal k book
close_flow (exited_flow from_signal) k book = finish_signal k book
close_flow (exiting from_block) k book = finish_flow k book
close_flow (exited_flow from_block) k book = finish_flow k book

-- The `finally` block; a flow comes to it from wherever it is, an error included.
pub on_end : PositionKey → Flow → System → System
on_end k f s = record { book = close_flow f k s.book; flows = end_flow k s.flows }

-- The position is the one that `_enter` builds for the key.
pub record IsEntryFor (k : PositionKey) (p : Position) : Type 0 where
  pub symbol : p.symbol ≡ k.1
  pub variant : p.variant ≡ k.2
  pub is_opened : is_open p.status ≡ true

pub data Step (max_open : ℕ) (s : System) : System → Type 0 where
  signal_step : (owner : Option ℕ) (sg : Signal) → Step max_open s (on_signal max_open owner sg s)
  tick_step : (enabled : Option ℕ → Bool) (t : Tick) → Step max_open s (on_tick enabled t s)
  square_off_step : (k : PositionKey) → Step max_open s (on_square_off k s)
  reconcile_step : (k : PositionKey) → Step max_open s (on_reconcile k s)
  entry_step :
      (k : PositionKey) (p : Position)
      → lookup k s.flows ≡ some entering
      → IsEntryFor k p
      → Step max_open s (on_entry k p s)
  fill_step :
      (k : PositionKey) (origin : Origin) (executed price : Decimal) (timestamp : Timestamp)
      (order_id : Option ℕ)
      → lookup k s.flows ≡ some (exiting origin)
      → Step max_open s (on_fill k origin executed price timestamp order_id s)
  end_step :
      (k : PositionKey) (f : Flow) → lookup k s.flows ≡ some f → Step max_open s (on_end k f s)

pub data Reach (max_open : ℕ) (s : System) : System → Type 0 where
  here : Reach max_open s s
  next : {t u : System} → Reach max_open s t → Step max_open t u → Reach max_open s u

-- A reconciliation that does not find its key in flight when it comes to its guard.
abbrev pub FindsFree : (max_open : ℕ) (s t : System) → Step max_open s t → Type 0
FindsFree max_open s t (signal_step owner sg) = Unit {0}
FindsFree max_open s t (tick_step enabled k) = Unit {0}
FindsFree max_open s t (square_off_step k) = Unit {0}
FindsFree max_open s t (reconcile_step k) = mem k s.book.inflight ≡ false
FindsFree max_open s t (entry_step k p h q) = Unit {0}
FindsFree max_open s t (fill_step k origin executed price timestamp id h) = Unit {0}
FindsFree max_open s t (end_step k f h) = Unit {0}

-- No reconciliation of the run takes the key of another flow out of `_inflight`.
abbrev pub IsUndisturbed : (max_open : ℕ) (s t : System) → Reach max_open s t → Type 0
IsUndisturbed max_open s t here = Unit {0}
IsUndisturbed max_open s t (next {t = u} r m) =
    IsUndisturbed max_open s u r × FindsFree max_open u t m
