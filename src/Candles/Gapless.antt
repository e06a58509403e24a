-- ===== src/Candles/Gapless.antt =====
-- A tick leaves no hole in the series of its symbol.
use mathlib.Core.Path.{subst}
use crypto_trading_system.Base.{
  Bool-cases, List, Option, Option-cases, [], arith, deque_append, false, inl, inr, last?,
  list_beq_iff, list_eq, ltb, ltb→lt, nat_eq, none, option_eq, refl, some, suc, true, zero, ℕ, ◌*◌,
  ◌+◌, ◌<◌, ◌==◌, ◌∷◌, ◌≡◌, ◌≤◌,
}
use crypto_trading_system.Base.Dict.{lookup, lookup-insert}
use crypto_trading_system.Base.Text.{Text}
use crypto_trading_system.Candles.{
  CandleService, append_each, bucket_start, fillers_after, finalize, first_candle, gap_fillers,
  grow_candle, history_of, interval, is_late, next_candle, process_tick, roll, settle, tick_outcome,
}
use crypto_trading_system.Candles.Contiguous.{
  Contiguous, Continues, Continues-deque_append, fillers_after-Continues,
}
use crypto_trading_system.Candles.Ohlc.{IsSound, bucket_start-aligned, finalize-IsSound}
use crypto_trading_system.Candles.Order.{IsClosed, IsTrack}
use crypto_trading_system.Candles.Service.{IsValid, lookup-write_current, outcome_writes}
use crypto_trading_system.Candles.Track.{All-last}
use crypto_trading_system.Decimal.{Decimal}
use crypto_trading_system.Models.Common.{Timestamp, second}
use crypto_trading_system.Models.Market.{Candle, Tick}

-- The series of a symbol, its open candle last, has no hole.
pub record IsGapless (step : ℕ) (open_candle : Option Candle) (cs : List Candle) : Type 0 where
  pub contiguous : Contiguous step cs
  pub continued : (c : Candle) → open_candle ≡ some c → Continues step c.interval_start cs

-- The candle that the tick is compared with.
abbrev pub newest : Option Candle → List Candle → Option Candle
newest (some c) cs = some c
newest none cs = last? cs

no_fillers :
    (room : ℕ) (symbol : Text) (price : Decimal) (step : ℕ) (cursor target_start : Timestamp)
    → target_start ≤ cursor
    → gap_fillers room symbol price step cursor target_start ≡ []
unfolding gap_fillers
no_fillers zero symbol price step cursor target_start h = refl
no_fillers (suc room) symbol price step cursor target_start h = ground arith

Continues-last :
    (step : ℕ) (l : Candle) (cs : List Candle)
    → Contiguous step cs
    → last? cs ≡ some l
    → Continues step (l.interval_start + step) cs
Continues-last step l cs h e = record { contiguous = h; next = λ k q. ground arith }

Continues-none :
    (step : ℕ) (t : Timestamp) (cs : List Candle)
    → Contiguous step cs
    → last? cs ≡ none
    → Continues step t cs
Continues-none step t cs h e = record { contiguous = h; next = λ k q. absurd (cc) }

before_of_not_late :
    (cs : List Candle) (l : Candle) (start : Timestamp)
    → is_late (last? cs) start ≡ false
    → last? cs ≡ some l
    → l.interval_start < start
unfolding is_late
before_of_not_late cs l start h e = let q = rw e at h in ground arith

module _ (seconds size : ℕ) (symbol : Text) (pos_seconds : 0 < seconds) where
  abbrev step : ℕ
  step = seconds * second

  -- A candle of the history that the tick follows after a pause of at most `size` intervals.
  opened :
      (tick : Tick) (start : Timestamp) (cs noted : List Candle) (last : Option Candle)
      → tick.symbol ≡ symbol
      → Continues step start (append_each size cs (fillers_after size step symbol last start))
      → let out = settle size step tick start none cs noted last in
        IsGapless step out.candle out.candles
  unfolding settle next_candle first_candle
  opened tick start cs noted last e k = record {
    contiguous = rw e k.contiguous;
    continued = λ c q.
        let s : start ≡ c.interval_start = ground arith in
        subst
          (λ x.
            Continues step x (append_each size cs (fillers_after size step tick.symbol last start)))
          s (rw e k);
  }

  grown :
      (tick : Tick) (start : Timestamp) (c : Candle) (cs : List Candle)
      → start ≤ c.interval_start
      → Continues step c.interval_start cs
      → let out = settle size step tick start (some c) cs [] (last? cs) in
        IsGapless step out.candle out.candles
  unfolding settle next_candle grow_candle append_each
  grown tick start c cs b k =
      let e : fillers_after size step tick.symbol (last? cs) start ≡ [] = none_needed in
      rw e (record {
        contiguous = k.contiguous;
        continued = λ d q. subst (λ (x : Timestamp). Continues step x cs) (ground arith) k;
      })
    where
      none_needed : fillers_after size step tick.symbol (last? cs) start ≡ []
      none_needed = elim (Option-cases (last? cs)) [
        | inl p ↦ rw p (unfold fillers_after in refl)
        | inr (l, p) ↦ rw p (
            unfold fillers_after in
            no_fillers size tick.symbol l.close step (l.interval_start + step) start
              (omega (arith, k.next l p)))
      ]

  -- If the symbol's newest candle is at most `size + 1` intervals before the tick, or there is
  -- none, the tick keeps the series without holes: a late tick changes nothing, one of the open
  -- interval grows its candle, and a later one fills every interval in between.
  pub tick_outcome-IsGapless :
      (tick : Tick) (start : Timestamp) (open_candle : Option Candle) (cs : List Candle)
      → tick.symbol ≡ symbol
      → (m : ℕ) × (start ≡ m * seconds * second)
      → IsTrack seconds size symbol open_candle cs
      → ((l : Candle)
          → newest open_candle cs ≡ some l
          → start ≤ l.interval_start + (size + 1) * step)
      → IsGapless step open_candle cs
      → let out = tick_outcome size step tick start open_candle cs in
        IsGapless step out.candle out.candles
  unfolding tick_outcome roll
  tick_outcome-IsGapless tick start none cs e a h b g =
      elim (Bool-cases (is_late (last? cs) start)) [
        | inl late ↦ rw late g
        | inr fresh ↦ rw fresh (
            opened tick start cs [] (last? cs) e (
              fillers_after-Continues seconds size symbol pos_seconds (last? cs) start cs a
                (λ l q. (
                  (All-last (IsClosed seconds symbol) cs l h.sound q).0,
                  before_of_not_late cs l start fresh q,
                  b l q,
                  Continues-last step l cs g.contiguous q,
                ))
                (Continues-none step start cs g.contiguous)))
      ]
  tick_outcome-IsGapless tick start (some c) cs e a h b g =
      elim (Bool-cases (is_late (last? cs) start)) [
        | inl late ↦ rw late g
        | inr fresh ↦ rw fresh (elim (Bool-cases (ltb c.interval_start start)) [
          | inl later ↦ rw later (
              opened tick start (deque_append size cs (finalize c)) (finalize c ∷ [])
                (some (finalize c)) e
                (fillers_after-Continues seconds size symbol pos_seconds (some (finalize c)) start
                  (deque_append size cs (finalize c)) a
                  (λ l q.
                    subst
                      (λ (x : Candle).
                        IsSound seconds symbol x
                        × (x.interval_start < start)
                        × (start ≤ x.interval_start + (size + 1) * step)
                        × Continues step (x.interval_start + step)
                            (deque_append size cs (finalize c)))
                      (ground arith)
                      (
                        finalize-IsSound seconds symbol c (h.live c refl).0,
                        unfold finalize in ltb→lt c.interval_start start later,
                        unfold finalize in b c refl,
                        Continues-deque_append step size cs (finalize c)
                            (unfold finalize in g.continued c refl),
                      ))
                  (λ q. absurd (cc))))
          | inr same ↦ rw same (grown tick start c cs (ground arith) (g.continued c refl))
        ])
      ]

-- In a valid service whose history and open candle of a symbol have no hole, a tick of the symbol that
-- comes at most `history_size + 1` intervals after its newest candle leaves them without holes.
pub process_tick-IsGapless :
    (svc : CandleService) (tick : Tick)
    → IsValid svc
    → ((l : Candle)
        → newest (lookup tick.symbol svc.current) (history_of svc tick.symbol) ≡ some l
        → bucket_start svc.interval_seconds tick.timestamp
          ≤ l.interval_start + (svc.history_size + 1) * interval svc)
    → IsGapless (interval svc) (lookup tick.symbol svc.current) (history_of svc tick.symbol)
    → let svc' = (process_tick svc tick).0 in
      IsGapless (interval svc) (lookup tick.symbol svc'.current) (history_of svc' tick.symbol)
unfolding process_tick history_of
process_tick-IsGapless svc tick v b g =
    let k = tick.symbol in
    let out =
      tick_outcome svc.history_size (interval svc) tick
        (bucket_start svc.interval_seconds tick.timestamp) (lookup k svc.current)
        (history_of svc k) in
    let self : (k == k) ≡ true = (list_beq_iff k k).1 refl in
    rw (lookup-write_current k k out.candle svc.current (outcome_writes _ _ _ _ _ _)) (
      rw (lookup-insert k k out.candles svc.history) (
        rw self (
          tick_outcome-IsGapless svc.interval_seconds svc.history_size k v.pos_seconds tick
            (bucket_start svc.interval_seconds tick.timestamp) (lookup k svc.current)
            (history_of svc k) refl (bucket_start-aligned svc.interval_seconds tick.timestamp)
            (v.tracks k) b g)))
