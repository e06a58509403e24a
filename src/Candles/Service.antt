-- ===== src/Candles/Service.antt =====
-- The invariant of the whole candle service, under any sequence of ticks and minute boundaries.
use mathlib.Core.Path.{subst}
use crypto_trading_system.Base.{
  All, Bool-cases, List, Option, [], arith, deque_append, if◌then◌else◌, inl, inr, leb,
  list_beq_iff, list_eq, nat_eq, none, option_eq, refl, some, sym, ℕ, ◌<◌, ◌==◌, ◌∷◌, ◌≡◌,
}
use crypto_trading_system.Base.Dict.{
  AllHeld, AllHeld-erase, AllHeld-self, Dict, HasUniqueKeys, erase-HasUniqueKeys,
  insert-HasUniqueKeys, lookup, lookup-erase, lookup-insert,
}
use crypto_trading_system.Base.Int.{◌<ℤ◌}
use crypto_trading_system.Base.Text.{Text}
use crypto_trading_system.Candles.{
  CandleService, bucket_start, finalize, finalize_due, finalize_each, finalize_one, history_of,
  interval, process_tick, roll, settle, tick_outcome, write_current,
}
use crypto_trading_system.Candles.Ohlc.{bucket_start-aligned}
use crypto_trading_system.Candles.Order.{IsTrack, IsTrack-finalize}
use crypto_trading_system.Candles.Track.{tick_outcome-IsTrack}
use crypto_trading_system.Decimal.{nought}
use crypto_trading_system.Models.Common.{Timestamp}
use crypto_trading_system.Models.Market.{Candle, Tick}

pub record IsValid (svc : CandleService) : Type 0 where
  pub pos_seconds : 0 < svc.interval_seconds
  pub keys : HasUniqueKeys svc.current
  pub tracks :
      (s : Text)
      → IsTrack svc.interval_seconds svc.history_size s (lookup s svc.current) (history_of svc s)

-- The service as `__init__` leaves it.
unfoldable pub new_service : ℕ → ℕ → CandleService
new_service history_size interval_seconds = record {
  history_size = history_size;
  interval_seconds = interval_seconds;
  current = [];
  history = [];
}

IsTrack-empty : (seconds size : ℕ) (s : Text) → IsTrack seconds size s none []
IsTrack-empty seconds size s = record {
  sound = tt;
  live = λ c e. absurd (cc);
  bounded = omega arith;
  ascends = tt;
  before = λ c e. tt;
}

pub new_service-IsValid : (size seconds : ℕ) → 0 < seconds → IsValid (new_service size seconds)
unfolding new_service history_of
new_service-IsValid size seconds h = record {
  pos_seconds = h;
  keys = tt;
  tracks = λ s. IsTrack-empty seconds size s;
}

-- A tick writes the open candle, or leaves it as it is.
pub outcome_writes :
    (size step : ℕ) (tick : Tick) (start : Timestamp) (cur : Option Candle) (cs : List Candle)
    → (tick_outcome size step tick start cur cs).candle ≡ none
    → cur ≡ none
unfolding tick_outcome roll settle
outcome_writes size step tick start none cs h = refl
outcome_writes size step tick start (some c) cs h = ground arith

pub lookup-write_current :
    (k s : Text) (o : Option Candle) (d : Dict Text Candle)
    → (o ≡ none → lookup k d ≡ none)
    → lookup s (write_current k o d) ≡ (if k == s then o else lookup s d)
unfolding write_current
lookup-write_current k s none d h = elim (Bool-cases (k == s)) [
  | inl same ↦
      rw same (let e = (list_beq_iff k s).0 same in subst (λ x. lookup x d ≡ none) e (h refl))
  | inr other ↦ rw other
]
lookup-write_current k s (some c) d h = lookup-insert k s c d

write_current-HasUniqueKeys :
    (k : Text) (o : Option Candle) (d : Dict Text Candle)
    → HasUniqueKeys d
    → HasUniqueKeys (write_current k o d)
unfolding write_current
write_current-HasUniqueKeys k none d h = h
write_current-HasUniqueKeys k (some c) d h = insert-HasUniqueKeys k c d h

pub process_tick-IsValid :
    (svc : CandleService) (tick : Tick)
    → nought <ℤ tick.price
    → IsValid svc
    → IsValid (process_tick svc tick).0
unfolding process_tick history_of
process_tick-IsValid svc tick p v =
    let start = bucket_start svc.interval_seconds tick.timestamp in
    let out =
      tick_outcome svc.history_size (interval svc) tick start (lookup tick.symbol svc.current)
        (history_of svc tick.symbol) in
    record {
      pos_seconds = v.pos_seconds;
      keys = write_current-HasUniqueKeys tick.symbol out.candle svc.current v.keys;
      tracks = λ s.
          rw
            (lookup-write_current tick.symbol s out.candle svc.current (outcome_writes _ _ _ _ _ _))
            (rw (lookup-insert tick.symbol s out.candles svc.history)
              (elim (Bool-cases (tick.symbol == s)) [
                | inl same ↦ rw same (
                    let e = (list_beq_iff tick.symbol s).0 same in
                    tick_outcome-IsTrack svc.interval_seconds svc.history_size s v.pos_seconds tick
                      start (lookup tick.symbol svc.current) (history_of svc tick.symbol) e p
                      (bucket_start-aligned svc.interval_seconds tick.timestamp)
                      (subst
                        (λ x.
                          IsTrack svc.interval_seconds svc.history_size s (lookup x svc.current)
                            (history_of svc x))
                        (sym e) (v.tracks s)))
                | inr other ↦ rw other (v.tracks s)
              ]));
    }

pub finalize_one-IsValid :
    (boundary : Timestamp) (symbol : Text) (c : Candle) (svc : CandleService)
    → lookup symbol svc.current ≡ some c
    → IsValid svc
    → IsValid (finalize_one boundary symbol c svc).0
unfolding finalize_one history_of
finalize_one-IsValid boundary symbol c svc held v =
    elim (Bool-cases (leb c.interval_end boundary)) [
      | inl due ↦ rw due (record {
        pos_seconds = v.pos_seconds;
        keys = erase-HasUniqueKeys symbol svc.current v.keys;
        tracks = λ s. rw (lookup-erase symbol s svc.current) (
            rw
              (lookup-insert symbol s
                (deque_append svc.history_size (history_of svc symbol) (finalize c)) svc.history)
              (elim (Bool-cases (symbol == s)) [
                | inl same ↦ rw same (
                    let e = (list_beq_iff symbol s).0 same in
                    IsTrack-finalize svc.interval_seconds svc.history_size s c
                      (history_of svc symbol)
                      (let t = rw held at (v.tracks symbol) in
                        subst
                          (λ x.
                            IsTrack svc.interval_seconds svc.history_size x (some c)
                              (history_of svc symbol))
                          e t))
                | inr other ↦ rw other (v.tracks s)
              ]));
      })
      | inr not_due ↦ rw not_due v
    ]

finalize_one-AllHeld :
    (boundary : Timestamp) (symbol : Text) (c : Candle) (svc : CandleService)
    (items : Dict Text Candle)
    → lookup symbol items ≡ none
    → AllHeld svc.current items
    → AllHeld (finalize_one boundary symbol c svc).0.current items
unfolding finalize_one
finalize_one-AllHeld boundary symbol c svc items n h =
    elim (Bool-cases (leb c.interval_end boundary)) [
      | inl due ↦ rw due (AllHeld-erase symbol svc.current items n h)
      | inr not_due ↦ rw not_due h
    ]

finalize_each-IsValid :
    (boundary : Timestamp) (items : Dict Text Candle) (svc : CandleService)
    → HasUniqueKeys items
    → AllHeld svc.current items
    → IsValid svc
    → IsValid (finalize_each boundary items svc).0
unfolding finalize_each
finalize_each-IsValid boundary [] svc u h v = v
finalize_each-IsValid boundary ((symbol, c) ∷ items) svc u h v =
    finalize_each-IsValid boundary items (finalize_one boundary symbol c svc).0 u.1
      (finalize_one-AllHeld boundary symbol c svc items u.0 h.1)
      (finalize_one-IsValid boundary symbol c svc h.0 v)

pub finalize_due-IsValid :
    (svc : CandleService) (boundary : Timestamp)
    → IsValid svc
    → IsValid (finalize_due svc boundary).0
unfolding finalize_due
finalize_due-IsValid svc boundary v =
    finalize_each-IsValid boundary svc.current svc v.keys (AllHeld-self svc.current v.keys) v

-- What reaches the service: ticks of the stream, and the timer of `_boundary_loop`.
pub data Event : Type 0 where
  tick_event : Tick → Event
  boundary_event : Timestamp → Event

unfoldable pub handle_event : CandleService → Event → CandleService
handle_event svc (tick_event t) = (process_tick svc t).0
handle_event svc (boundary_event b) = (finalize_due svc b).0

unfoldable pub handle_events : CandleService → List Event → CandleService
handle_events svc [] = svc
handle_events svc (e ∷ es) = handle_events (handle_event svc e) es

-- `PositiveDecimal` on the price of a tick.
abbrev pub HasPositivePrice : Event → Type 0
HasPositivePrice (tick_event t) = nought <ℤ t.price
HasPositivePrice (boundary_event b) = Unit

handle_event-IsValid :
    (svc : CandleService) (e : Event)
    → HasPositivePrice e
    → IsValid svc
    → IsValid (handle_event svc e)
unfolding handle_event
handle_event-IsValid svc (tick_event t) p v = process_tick-IsValid svc t p v
handle_event-IsValid svc (boundary_event b) p v = finalize_due-IsValid svc b v

-- Whatever sequence of ticks with positive prices and of boundaries reaches a valid service, in
-- any order and late ticks included, the service is valid again: each history is within its
-- bound and strictly ascending, its candles are final, the open candle is later than all of them
-- and not final, and every candle is aligned with its prices in order.
pub handle_events-IsValid :
    (svc : CandleService) (es : List Event)
    → All HasPositivePrice es
    → IsValid svc
    → IsValid (handle_events svc es)
unfolding handle_events
handle_events-IsValid svc [] h v = v
handle_events-IsValid svc (e ∷ es) h v =
    handle_events-IsValid (handle_event svc e) es h.1 (handle_event-IsValid svc e h.0 v)
