-- ===== src/Candles/Order.antt =====
-- The invariant of the candle service, symbol by symbol: a bounded history of final candles in
-- strictly ascending order, all before the open candle, each as the validator wants it.
use crypto_trading_system.Base.{
  All, All-append, All-deque_append, List, Option, Option-cases, [], arith, deque_append, drop,
  false, inl, inr, last?, length, length-deque_append, none, refl, some, suc, true, zero, ℕ, ◌++◌,
  ◌+◌, ◌-◌, ◌<◌, ◌∷◌, ◌≡◌, ◌≢◌, ◌≤◌,
}
use crypto_trading_system.Base.Text.{Text}
use crypto_trading_system.Candles.{finalize, is_late}
use crypto_trading_system.Candles.Ohlc.{IsSound, finalize-IsSound}
use crypto_trading_system.Models.Common.{Timestamp}
use crypto_trading_system.Models.Market.{Candle}

-- Each candle starts after those before it.
abbrev pub Ascending : List Candle → Type 0
Ascending [] = Unit
Ascending (c ∷ cs) = All (λ d. c.interval_start < d.interval_start) cs × Ascending cs

abbrev pub AllBefore : Timestamp → List Candle → Type 0
AllBefore t = All (λ c. c.interval_start < t)

abbrev pub IsClosed : ℕ → Text → Candle → Type 0
IsClosed seconds symbol c = IsSound seconds symbol c × (c.is_final ≡ true)

-- The state of one symbol: its open candle, if there is one, and its history.
pub record IsTrack (seconds size : ℕ) (symbol : Text) (open_candle : Option Candle)
    (cs : List Candle) : Type 0 where
  pub sound : All (IsClosed seconds symbol) cs
  pub live : (c : Candle) → open_candle ≡ some c → IsSound seconds symbol c × (c.is_final ≡ false)
  pub bounded : length cs ≤ size
  pub ascends : Ascending cs
  pub before : (c : Candle) → open_candle ≡ some c → AllBefore c.interval_start cs

Ascending-snoc :
    (cs : List Candle) (d : Candle)
    → Ascending cs
    → AllBefore d.interval_start cs
    → Ascending (cs ++ d ∷ [])
Ascending-snoc [] d h b = (tt, tt)
Ascending-snoc (c ∷ cs) d h b = (
  All-append (λ e. c.interval_start < e.interval_start) cs (d ∷ []) h.0 (b.0, tt),
  Ascending-snoc cs d h.1 b.1,
)

Ascending-drop : (n : ℕ) (cs : List Candle) → Ascending cs → Ascending (drop n cs)
Ascending-drop zero cs h = h
Ascending-drop (suc n) [] h = h
Ascending-drop (suc n) (c ∷ cs) h = Ascending-drop n cs h.1

Ascending-deque_append :
    (n : ℕ) (cs : List Candle) (d : Candle)
    → Ascending cs
    → AllBefore d.interval_start cs
    → Ascending (deque_append n cs d)
unfolding deque_append
Ascending-deque_append n cs d h b =
    Ascending-drop (length cs + 1 - n) (cs ++ d ∷ []) (Ascending-snoc cs d h b)

pub AllBefore-weaken :
    {t u : Timestamp} (cs : List Candle) → t ≤ u → AllBefore t cs → AllBefore u cs
AllBefore-weaken [] h b = tt
AllBefore-weaken (c ∷ cs) h b = (omega arith, AllBefore-weaken cs h b.1)

-- The last candle of an ascending history bounds it.
pub AllBefore-last :
    (cs : List Candle) (l : Candle) (t : Timestamp)
    → Ascending cs
    → last? cs ≡ some l
    → l.interval_start < t
    → AllBefore t cs
AllBefore-last [] l t h e b = tt
AllBefore-last (c ∷ []) l t h e b = (ground arith, tt)
AllBefore-last (c ∷ d ∷ cs) l t h e b =
    let rest = AllBefore-last (d ∷ cs) l t h.1 e b in (omega arith, rest)

last?-ne-none : (c : Candle) (cs : List Candle) → last? (c ∷ cs) ≢ none
last?-ne-none c [] e = cc
last?-ne-none c (d ∷ cs) e = last?-ne-none d cs e

AllBefore-none : (cs : List Candle) (t : Timestamp) → last? cs ≡ none → AllBefore t cs
AllBefore-none [] t e = tt
AllBefore-none (c ∷ cs) t e = absurd (last?-ne-none c cs e)

-- A tick that is not late begins after all of the history.
pub AllBefore-of_not_late :
    (cs : List Candle) (t : Timestamp)
    → Ascending cs
    → is_late (last? cs) t ≡ false
    → AllBefore t cs
unfolding is_late
AllBefore-of_not_late cs t h e = elim (Option-cases (last? cs)) [
  | inl p ↦ AllBefore-none cs t p
  | inr (l, p) ↦ AllBefore-last cs l t h p (let q = rw p at e in ground arith)
]

-- Closing the open candle.
pub IsTrack-finalize :
    (seconds size : ℕ) (symbol : Text) (c : Candle) (cs : List Candle)
    → IsTrack seconds size symbol (some c) cs
    → IsTrack seconds size symbol none (deque_append size cs (finalize c))
unfolding finalize
IsTrack-finalize seconds size symbol c cs h = record {
  sound =
      All-deque_append (IsClosed seconds symbol) size cs (finalize c) h.sound
        (finalize-IsSound seconds symbol c (h.live c refl).0, refl);
  live = λ d e. absurd (cc);
  bounded = length-deque_append size cs (finalize c) h.bounded;
  ascends = Ascending-deque_append size cs (finalize c) h.ascends (h.before c refl);
  before = λ d e. absurd (cc);
}

-- One more candle at the end.
module _ (seconds size : ℕ) (symbol : Text) where
  pub record IsReady (t : Timestamp) (cs : List Candle) : Type 0 where
    pub sound : All (IsClosed seconds symbol) cs
    pub bounded : length cs ≤ size
    pub ascends : Ascending cs
    pub before : AllBefore t cs

  pub IsReady-deque_append :
      (t : Timestamp) (cs : List Candle) (d : Candle)
      → IsReady d.interval_start cs
      → IsClosed seconds symbol d
      → d.interval_start < t
      → IsReady t (deque_append size cs d)
  IsReady-deque_append t cs d h k b = record {
    sound = All-deque_append (IsClosed seconds symbol) size cs d h.sound k;
    bounded = length-deque_append size cs d h.bounded;
    ascends = Ascending-deque_append size cs d h.ascends h.before;
    before =
        All-deque_append (λ c. c.interval_start < t) size cs d
          (AllBefore-weaken cs (omega arith) h.before) b;
  }
