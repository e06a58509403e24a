-- ===== src/Candles/Track.antt =====
-- A tick keeps the invariant of its symbol, on every branch of `process_tick`.
use crypto_trading_system.Base.{
  All, Bool-cases, List, Option, [], arith, deque_append, false, inl, inr, last?, ltb, ltb→lt, none,
  refl, some, suc, zero, ℕ, ◌*◌, ◌+◌, ◌<◌, ◌∷◌, ◌≡◌, ◌≤◌,
}
use crypto_trading_system.Base.Int.{◌<ℤ◌}
use crypto_trading_system.Base.Text.{Text}
use crypto_trading_system.Candles.{
  append_each, filler, fillers_after, finalize, first_candle, gap_fillers, grow_candle, is_late,
  next_candle, roll, settle, tick_outcome,
}
use crypto_trading_system.Candles.Ohlc.{
  IsSound, filler-IsSound, finalize-IsSound, first_candle-IsSound, grow_candle-IsSound,
}
use crypto_trading_system.Candles.Order.{
  AllBefore, AllBefore-last, AllBefore-weaken, AllBefore-of_not_late, Ascending, IsClosed, IsReady,
  IsReady-deque_append, IsTrack, IsTrack-finalize,
}
use crypto_trading_system.Decimal.{Decimal, nought}
use crypto_trading_system.Models.Common.{Timestamp, second}
use crypto_trading_system.Models.Market.{Candle, Tick}
use mathlib.Core.Path.{subst}

pub All-last {κ} :
    (P : Candle → Type κ) (cs : List Candle) (l : Candle) → All P cs → last? cs ≡ some l → P l
All-last P [] l h e = cc
All-last P (c ∷ []) l h e = subst P (ground arith) h.0
All-last P (c ∷ d ∷ cs) l h e = All-last P (d ∷ cs) l h.1 e

next_aligned :
    (seconds : ℕ) (t : Timestamp)
    → (m : ℕ) × (t ≡ m * seconds * second)
    → (m : ℕ) × (t + seconds * second ≡ m * seconds * second)
next_aligned seconds t (m, e) = (m + 1, grind (arith, e))

module _ (seconds size : ℕ) (symbol : Text) (pos_seconds : 0 < seconds) where
  abbrev Ready : Timestamp → List Candle → Type 0
  Ready = IsReady seconds size symbol

  filler_step : (t : Timestamp) → t < t + seconds * second
  filler_step t = grind arith

  fillers-IsReady :
      (room : ℕ) (price : Decimal) (cursor target_start : Timestamp) (cs : List Candle)
      → nought <ℤ price
      → (m : ℕ) × (cursor ≡ m * seconds * second)
      → Ready cursor cs
      → Ready target_start cs
      → Ready target_start (
          append_each size cs
            (gap_fillers room symbol price (seconds * second) cursor target_start))
  unfolding gap_fillers append_each
  fillers-IsReady zero price cursor target_start cs p a h k = k
  fillers-IsReady (suc room) price cursor target_start cs p a h k =
      elim (Bool-cases (ltb cursor target_start)) [
        | inl more ↦ rw more (
            let c = filler symbol price (seconds * second) cursor in
            let closed : IsClosed seconds symbol c =
              (filler-IsSound seconds symbol price cursor p a, unfold filler in refl) in
            let at : Ready c.interval_start cs = unfold filler in h in
            let begins : c.interval_start ≡ cursor = unfold filler in refl in
            fillers-IsReady room price (cursor + seconds * second) target_start
              (deque_append size cs c) p (next_aligned seconds cursor a)
              (IsReady-deque_append seconds size symbol (cursor + seconds * second) cs c at closed
                (rw begins (filler_step cursor)))
              (IsReady-deque_append seconds size symbol target_start cs c at closed
                (rw begins (ltb→lt cursor target_start more))))
        | inr done ↦ rw done k
      ]

  fillers_after-IsReady :
      (last : Option Candle) (target_start : Timestamp) (cs : List Candle)
      → ((l : Candle)
          → last ≡ some l
          → IsSound seconds symbol l × AllBefore (l.interval_start + seconds * second) cs)
      → Ready target_start cs
      → Ready target_start
          (append_each size cs (fillers_after size (seconds * second) symbol last target_start))
  unfolding fillers_after append_each
  fillers_after-IsReady none target_start cs h k = k
  fillers_after-IsReady (some l) target_start cs h k =
      let s = (h l refl).0 in
      fillers-IsReady size l.close (l.interval_start + seconds * second) target_start cs
        (omega (arith, s.low_pos, s.low_close)) (next_aligned seconds l.interval_start s.aligned)
        (record {
          sound = k.sound;
          bounded = k.bounded;
          ascends = k.ascends;
          before = (h l refl).1;
        })
        k

  -- The candle that the tick opens or grows.
  next_candle-live :
      (tick : Tick) (start : Timestamp) (open_candle : Option Candle)
      → tick.symbol ≡ symbol
      → nought <ℤ tick.price
      → (m : ℕ) × (start ≡ m * seconds * second)
      → ((c : Candle) → open_candle ≡ some c → IsSound seconds symbol c × (c.is_final ≡ false))
      → let c = next_candle tick start (seconds * second) open_candle in
        IsSound seconds symbol c × (c.is_final ≡ false)
  unfolding next_candle
  next_candle-live tick start none e p a h = (
    subst (λ s. IsSound seconds s (first_candle tick start (seconds * second))) e
        (first_candle-IsSound seconds tick start p a),
    unfold first_candle in refl,
  )
  next_candle-live tick start (some c) e p a h = (
    grow_candle-IsSound seconds symbol c tick.price p (h c refl).0,
    unfold grow_candle in (h c refl).1,
  )

  next_candle-start :
      (tick : Tick) (start : Timestamp) (open_candle : Option Candle)
      → ((c : Candle) → open_candle ≡ some c → start ≤ c.interval_start)
      → start ≤ (next_candle tick start (seconds * second) open_candle).interval_start
  unfolding next_candle first_candle grow_candle
  next_candle-start tick start none h = omega arith
  next_candle-start tick start (some c) h = h c refl

  settle-IsTrack :
      (tick : Tick) (start : Timestamp) (open_candle : Option Candle) (cs noted : List Candle)
      (last : Option Candle)
      → tick.symbol ≡ symbol
      → nought <ℤ tick.price
      → (m : ℕ) × (start ≡ m * seconds * second)
      → ((c : Candle) → open_candle ≡ some c → IsSound seconds symbol c × (c.is_final ≡ false))
      → ((c : Candle) → open_candle ≡ some c → start ≤ c.interval_start)
      → ((l : Candle)
          → last ≡ some l
          → IsSound seconds symbol l × AllBefore (l.interval_start + seconds * second) cs)
      → Ready start cs
      → let out = settle size (seconds * second) tick start open_candle cs noted last in
        IsTrack seconds size symbol out.candle out.candles
  unfolding settle
  settle-IsTrack tick start open_candle cs noted last e p a live later lasts ready =
      let next = next_candle tick start (seconds * second) open_candle in
      let r : Ready start
          (append_each size cs (fillers_after size (seconds * second) tick.symbol last start)) =
        rw e (fillers_after-IsReady last start cs lasts ready) in
      record {
        sound = r.sound;
        live = λ c q.
            subst (λ (x : Candle). IsSound seconds symbol x × (x.is_final ≡ false)) (ground arith)
              (next_candle-live tick start open_candle e p a live);
        bounded = r.bounded;
        ascends = r.ascends;
        before = λ c q.
            AllBefore-weaken _
              (let s = next_candle-start tick start open_candle later in
                let k : next ≡ c = ground arith in rw k at s)
              r.before;
      }

  lasts-before :
      (cs : List Candle) (l : Candle)
      → All (IsClosed seconds symbol) cs
      → Ascending cs
      → last? cs ≡ some l
      → IsSound seconds symbol l × AllBefore (l.interval_start + seconds * second) cs
  lasts-before cs l h k e = (
    (All-last (IsClosed seconds symbol) cs l h e).0,
    AllBefore-last cs l (l.interval_start + seconds * second) k e (filler_step l.interval_start),
  )

  -- A tick of the symbol keeps the invariant, whether it is late, grows the open candle or opens one.
  pub tick_outcome-IsTrack :
      (tick : Tick) (start : Timestamp) (open_candle : Option Candle) (cs : List Candle)
      → tick.symbol ≡ symbol
      → nought <ℤ tick.price
      → (m : ℕ) × (start ≡ m * seconds * second)
      → IsTrack seconds size symbol open_candle cs
      → let out = tick_outcome size (seconds * second) tick start open_candle cs in
        IsTrack seconds size symbol out.candle out.candles
  unfolding tick_outcome roll
  tick_outcome-IsTrack tick start none cs e p a h = elim (Bool-cases (is_late (last? cs) start)) [
    | inl late ↦ rw late h
    | inr fresh ↦ rw fresh (
        settle-IsTrack tick start none cs [] (last? cs) e p a h.live (λ c q. absurd (cc))
          (λ l q. lasts-before cs l h.sound h.ascends q)
          (record {
            sound = h.sound;
            bounded = h.bounded;
            ascends = h.ascends;
            before = AllBefore-of_not_late cs start h.ascends fresh;
          }))
  ]
  tick_outcome-IsTrack tick start (some c) cs e p a h =
      elim (Bool-cases (is_late (last? cs) start)) [
        | inl late ↦ rw late h
        | inr fresh ↦ rw fresh (elim (Bool-cases (ltb c.interval_start start)) [
          | inl later ↦ rw later (
              let k = IsTrack-finalize seconds size symbol c cs h in
              let same : (finalize c).interval_start ≡ c.interval_start = unfold finalize in refl in
              let r : Ready start (deque_append size cs (finalize c)) =
                IsReady-deque_append seconds size symbol start cs (finalize c)
                  (record {
                    sound = h.sound;
                    bounded = h.bounded;
                    ascends = h.ascends;
                    before = rw same (h.before c refl);
                  })
                  (finalize-IsSound seconds symbol c (h.live c refl).0, unfold finalize in refl)
                  (rw same (ltb→lt c.interval_start start later)) in
              let r' : Ready ((finalize c).interval_start + seconds * second)
                  (deque_append size cs (finalize c)) =
                IsReady-deque_append seconds size symbol
                  ((finalize c).interval_start + seconds * second) cs (finalize c)
                  (record {
                    sound = h.sound;
                    bounded = h.bounded;
                    ascends = h.ascends;
                    before = rw same (h.before c refl);
                  })
                  (finalize-IsSound seconds symbol c (h.live c refl).0, unfold finalize in refl)
                  (filler_step (finalize c).interval_start) in
              settle-IsTrack tick start none (deque_append size cs (finalize c)) (finalize c ∷ [])
                (some (finalize c)) e p a (λ d q. absurd (cc)) (λ d q. absurd (cc))
                (λ l q.
                  let s : finalize c ≡ l = ground arith in
                  subst
                    (λ (x : Candle).
                      IsSound seconds symbol x
                      × AllBefore (x.interval_start + seconds * second)
                          (deque_append size cs (finalize c)))
                    s (finalize-IsSound seconds symbol c (h.live c refl).0, r'.before))
                r)
          | inr same ↦ rw same (
              settle-IsTrack tick start (some c) cs [] (last? cs) e p a h.live (λ d q. ground arith)
                (λ l q. lasts-before cs l h.sound h.ascends q)
                (record {
                  sound = h.sound;
                  bounded = h.bounded;
                  ascends = h.ascends;
                  before = AllBefore-of_not_late cs start h.ascends fresh;
                }))
        ])
      ]
