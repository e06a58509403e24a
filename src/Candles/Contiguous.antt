-- ===== src/Candles/Contiguous.antt =====
-- The history has no holes: `_append_gap_fillers` fills every interval without a tick, as long as
-- a pause is not longer than the history itself.
use native.Mathlib.Nat.{lt_of_mul-lt-mul_right, le_of_mul-le-mul_right, mul_assoc}
use crypto_trading_system.Base.{
  List, Option, [], ap, arith, deque_append, drop, false, last?, length, ltb, lt→ltb, none, refl,
  some, suc, true, zero, ℕ, ◌*◌, ◌++◌, ◌+◌, ◌-◌, ◌<◌, ◌∙◌, ◌∷◌, ◌≡◌, ◌≤◌,
}
use crypto_trading_system.Base.Text.{Text}
use crypto_trading_system.Candles.{append_each, filler, fillers_after, gap_fillers}
use crypto_trading_system.Candles.Ohlc.{IsSound}
use crypto_trading_system.Decimal.{Decimal}
use crypto_trading_system.Models.Common.{Timestamp, second}
use crypto_trading_system.Models.Market.{Candle}

abbrev pub Contiguous : ℕ → List Candle → Type 0
Contiguous step [] = Unit
Contiguous step (c ∷ []) = Unit
Contiguous step (c ∷ d ∷ cs) =
    (d.interval_start ≡ c.interval_start + step) × Contiguous step (d ∷ cs)

-- A candle that starts at `t` continues the history without a hole.
pub record Continues (step : ℕ) (t : Timestamp) (cs : List Candle) : Type 0 where
  pub contiguous : Contiguous step cs
  pub next : (l : Candle) → last? cs ≡ some l → t ≡ l.interval_start + step

Contiguous-snoc :
    (step : ℕ) (cs : List Candle) (d : Candle)
    → Continues step d.interval_start cs
    → Contiguous step (cs ++ d ∷ [])
Contiguous-snoc step [] d h = tt
Contiguous-snoc step (c ∷ []) d h = (h.next c refl, tt)
Contiguous-snoc step (c ∷ e ∷ cs) d h = (
  h.contiguous.0,
  Contiguous-snoc step (e ∷ cs) d (record { contiguous = h.contiguous.1; next = h.next }),
)

Contiguous-tail :
    (step : ℕ) (c : Candle) (cs : List Candle) → Contiguous step (c ∷ cs) → Contiguous step cs
Contiguous-tail step c [] h = tt
Contiguous-tail step c (d ∷ cs) h = h.1

Contiguous-drop : (step n : ℕ) (cs : List Candle) → Contiguous step cs → Contiguous step (drop n cs)
Contiguous-drop step zero cs h = h
Contiguous-drop step (suc n) [] h = h
Contiguous-drop step (suc n) (c ∷ cs) h = Contiguous-drop step n cs (Contiguous-tail step c cs h)

last?-snoc : (cs : List Candle) (d : Candle) → last? (cs ++ d ∷ []) ≡ some d
last?-snoc [] d = refl
last?-snoc (c ∷ []) d = refl
last?-snoc (c ∷ e ∷ cs) d = last?-snoc (e ∷ cs) d

last?-tail : (c l : Candle) (cs : List Candle) → last? cs ≡ some l → last? (c ∷ cs) ≡ some l
last?-tail c l [] h = cc
last?-tail c l (d ∷ cs) h = h

last?-drop :
    (n : ℕ) (cs : List Candle) (l : Candle) → last? (drop n cs) ≡ some l → last? cs ≡ some l
last?-drop zero cs l h = h
last?-drop (suc n) [] l h = h
last?-drop (suc n) (c ∷ cs) l h = last?-tail c l cs (last?-drop n cs l h)

pub Continues-deque_append :
    (step size : ℕ) (cs : List Candle) (d : Candle)
    → Continues step d.interval_start cs
    → Continues step (d.interval_start + step) (deque_append size cs d)
unfolding deque_append
Continues-deque_append step size cs d h = record {
  contiguous =
      Contiguous-drop step (length cs + 1 - size) (cs ++ d ∷ []) (Contiguous-snoc step cs d h);
  next =
      λ l e. ground (arith, last?-drop (length cs + 1 - size) (cs ++ d ∷ []) l e, last?-snoc cs d);
}

-- The loop fills exactly the intervals up to the tick, if its bound leaves room for them.
fillers-Continues :
    (step size room k : ℕ) (symbol : Text) (price : Decimal) (cursor : Timestamp) (cs : List Candle)
    → 0 < step
    → k ≤ room
    → Continues step cursor cs
    → Continues step
        (cursor + k * step)
        (append_each size cs (gap_fillers room symbol price step cursor (cursor + k * step)))
unfolding gap_fillers append_each filler
fillers-Continues step size zero k symbol price cursor cs p b h =
    let e : k ≡ 0 = omega arith in rw e (let z : cursor + 0 * step ≡ cursor = omega arith in rw z h)
fillers-Continues step size (suc room) zero symbol price cursor cs p b h =
    let z : cursor + 0 * step ≡ cursor = omega arith in
    let t : ltb cursor cursor ≡ false = ground arith in rw (z, t) h
fillers-Continues step size (suc room) (suc k) symbol price cursor cs p b h =
    let c = filler symbol price step cursor in
    let more : ltb cursor (cursor + suc k * step) ≡ true =
      grind (arith, lt→ltb cursor (cursor + suc k * step)) in
    let z : cursor + suc k * step ≡ cursor + step + k * step = grind arith in
    rw (more, z)
      (fillers-Continues step size room k symbol price (cursor + step) (deque_append size cs c) p
        (omega arith) (Continues-deque_append step size cs c h))

-- Two starts on the grid are a whole number of intervals apart.
gap_count :
    (w size m n : ℕ)
    → 0 < w
    → m * w < n * w
    → n * w ≤ m * w + (size + 1) * w
    → (k : ℕ) × (n * w ≡ m * w + w + k * w) × (k ≤ size)
gap_count w size m n p lt le =
    let a : m < n = lt_of_mul-lt-mul_right w lt in
    let d : m * w + (size + 1) * w ≡ (m + (size + 1)) * w = omega arith in
    let b : n ≤ m + (size + 1) = le_of_mul-le-mul_right (rw d at le) p in
    let e : n ≡ m + 1 + (n - m - 1) = omega arith in
    (n - m - 1, omega (arith, ap (λ (x : ℕ). x * w) e), omega arith)

module _ (seconds size : ℕ) (symbol : Text) (pos_seconds : 0 < seconds) where
  pub grid_gap :
      (a b : Timestamp)
      → (m : ℕ) × (a ≡ m * seconds * second)
      → (m : ℕ) × (b ≡ m * seconds * second)
      → a < b
      → b ≤ a + (size + 1) * (seconds * second)
      → (k : ℕ) × (b ≡ a + seconds * second + k * (seconds * second)) × (k ≤ size)
  grid_gap a b (m, p) (n, q) lt le =
      let p' : a ≡ m * (seconds * second) = p ∙ mul_assoc m seconds second in
      let q' : b ≡ n * (seconds * second) = q ∙ mul_assoc n seconds second in
      let g =
        gap_count (seconds * second) size m n (omega arith) (rw (p', q') at lt)
          (rw (p', q') at le) in
      (g.0, rw (p', q') g.1, g.2)

  pub fillers_after-Continues :
      (last : Option Candle) (start : Timestamp) (cs : List Candle)
      → (m : ℕ) × (start ≡ m * seconds * second)
      → ((l : Candle)
          → last ≡ some l
          → IsSound seconds symbol l
            × (l.interval_start < start)
            × (start ≤ l.interval_start + (size + 1) * (seconds * second))
            × Continues (seconds * second) (l.interval_start + seconds * second) cs)
      → (last ≡ none → Continues (seconds * second) start cs)
      → Continues
          (seconds * second)
          start
          (append_each size cs (fillers_after size (seconds * second) symbol last start))
  unfolding fillers_after append_each
  fillers_after-Continues none start cs a h k = k refl
  fillers_after-Continues (some l) start cs a h k =
      let (s, lt, le, c) = h l refl in
      let (n, e, b) = grid_gap l.interval_start start s.aligned a lt le in
      rw e (
        fillers-Continues (seconds * second) size size n symbol l.close
          (l.interval_start + seconds * second) cs (omega arith) b c)
