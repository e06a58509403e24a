-- ===== src/Candles/Tests.antt =====
-- Runs of the candle service, and the theorems about it at these runs.
use crypto_trading_system.Base.{
  List, Option, [], ap, arith, deque_append, list_eq, map, nat_eq, none, option_eq, refl, some, sym,
  ℕ, ◌*◌, ◌+◌, ◌/◌, ◌∙◌, ◌∷◌, ◌≡◌, ◌≤◌,
}
use crypto_trading_system.Base.Dict.{lookup}
use crypto_trading_system.Base.Text.{codes}
use crypto_trading_system.Candles.{
  CandleService, append_each, bucket_start, filler, fillers_after, finalize, finalize_due,
  finalize_each, finalize_one, first_candle, gap_fillers, grow_candle, history_of, interval,
  is_late, next_candle, process_tick, roll, settle, tick_outcome, write_current,
}
use crypto_trading_system.Candles.Gapless.{IsGapless, newest, process_tick-IsGapless}
use crypto_trading_system.Candles.Service.{
  Event, IsValid, boundary_event, handle_event, handle_events, handle_events-IsValid, new_service,
  new_service-IsValid, tick_event,
}
use crypto_trading_system.Decimal.{Decimal, decimal}
use crypto_trading_system.Models.Common.{second}
use crypto_trading_system.Models.Market.{Candle, Tick}

abbrev tick_at : ℕ → ℕ → Tick
tick_at t price = record {
  symbol = codes "BTC";
  price = decimal price;
  quantity = decimal 1;
  timestamp = t * second;
}

-- Two ticks of one interval, one of a later interval, one that is late, then the timer.
abbrev stream : List Event
stream =
    tick_event (tick_at 60 10)
    ∷ tick_event (tick_at 70 12)
    ∷ tick_event (tick_at 250 9)
    ∷ tick_event (tick_at 80 50)
    ∷ boundary_event (400 * second)
    ∷ []

abbrev fresh : CandleService
fresh = new_service 10 60

-- The start, the close and the ticks of a candle.
abbrev summary : Candle → ℕ × Decimal × ℕ
summary c = (c.interval_start / second, c.close, c.tick_count)

-- The history holds the first candle, two fillers at its close, and the candle of the last tick.
stream_closes :
    map summary (history_of (handle_events fresh stream) (codes "BTC"))
    ≡ (60, decimal 12, 2) ∷ (120, decimal 12, 0) ∷ (180, decimal 12, 0) ∷ (240, decimal 9, 1) ∷ []
unfolding handle_events handle_event process_tick finalize_due finalize_each finalize_one
    tick_outcome roll settle fillers_after gap_fillers append_each filler bucket_start history_of
    new_service write_current is_late next_candle first_candle grow_candle finalize deque_append
stream_closes = refl

handle_events-IsValid_example : IsValid (handle_events fresh stream)
handle_events-IsValid_example =
    handle_events-IsValid fresh stream
      (ground arith, (ground arith, (ground arith, (ground arith, (tt, tt)))))
      (new_service-IsValid 10 60 (omega arith))

-- One finished candle, a filler, and an open candle.
abbrev begun : CandleService
begun = handle_events fresh (tick_event (tick_at 60 10) ∷ tick_event (tick_at 190 12) ∷ [])

abbrev starts : CandleService → List ℕ
starts svc = map (λ c. c.interval_start / second) (history_of svc (codes "BTC"))

begun-IsValid : IsValid begun
begun-IsValid =
    handle_events-IsValid fresh (tick_event (tick_at 60 10) ∷ tick_event (tick_at 190 12) ∷ [])
      (ground arith, (ground arith, tt)) (new_service-IsValid 10 60 (omega arith))

abbrev start_of : Option Candle → ℕ
start_of none = 0
start_of (some c) = c.interval_start

begun-IsGapless :
    IsGapless (interval begun) (lookup (codes "BTC") begun.current) (history_of begun (codes "BTC"))
unfolding handle_events handle_event process_tick tick_outcome roll settle fillers_after gap_fillers
    append_each filler bucket_start history_of new_service write_current is_late next_candle
    first_candle grow_candle finalize deque_append
begun-IsGapless = record {
  contiguous = (refl, tt);
  continued = λ c e. record {
    contiguous = (refl, tt);
    next = λ l q. ap start_of (sym e) ∙ ap (λ n. n + 60000000) (ap start_of q);
  };
}

-- The newest candle is the open one, from 180 seconds on.
in_time :
    (l : Candle)
    → newest (lookup (codes "BTC") begun.current) (history_of begun (codes "BTC")) ≡ some l
    → bucket_start begun.interval_seconds (tick_at 400 9).timestamp
      ≤ l.interval_start + (begun.history_size + 1) * interval begun
unfolding handle_events handle_event process_tick tick_outcome roll settle fillers_after gap_fillers
    append_each filler bucket_start history_of new_service write_current is_late next_candle
    first_candle grow_candle finalize deque_append
in_time l e = let s : 180000000 ≡ l.interval_start = ap start_of e in omega (arith, s)

process_tick-IsGapless_example :
    let svc' = (process_tick begun (tick_at 400 9)).0 in
    IsGapless (interval begun) (lookup (codes "BTC") svc'.current) (history_of svc' (codes "BTC"))
process_tick-IsGapless_example =
    process_tick-IsGapless begun (tick_at 400 9) begun-IsValid in_time begun-IsGapless
