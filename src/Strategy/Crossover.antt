-- ===== src/Strategy/Crossover.antt =====
-- When `process_candle` emits, and what it emits.
use mathlib.Core.Path.{subst}
use crypto_trading_system.Base.{
  Bool, Bool-cases, List, Option, [], arith, false, inl, inr, list_beq_iff, list_eq, nat_eq, none,
  option_eq, refl, some, true, ◌==◌, ◌||◌, ◌↔◌, ◌∷◌, ◌≡◌,
}
use crypto_trading_system.Base.Dict.{lookup, lookup-insert}
use crypto_trading_system.Base.Int.{pos, ℤ, ◌-ℤ◌, ◌<ℤ◌, ◌≤ℤ◌}
use crypto_trading_system.Base.Text.{Text}
use crypto_trading_system.Decimal.{Decimal}
use crypto_trading_system.Models.Common.{SignalAction, enter, leave}
use crypto_trading_system.Models.Market.{Candle}
use crypto_trading_system.Models.Strategy.{IndicatorPoint, Signal}
use crypto_trading_system.Strategy.{
  StrategyService, action_of, calculate, compare, process_candle, record_signal, record_signals,
  relation_of, signal_at, signals_of, write_relation,
}

abbrev pub action_beq : SignalAction → SignalAction → Bool
action_beq enter enter = true
action_beq leave leave = true
action_beq enter leave = false
action_beq leave enter = false

-- A signal of the kind is among them.
abbrev pub emits : SignalAction → List Signal → Bool
emits a [] = false
emits a (s ∷ ss) = action_beq a s.action || emits a ss

-- The relation of two averages tells their order.
compare-above : (l r : Decimal) → (pos 0 <ℤ compare l r) ↔ (r <ℤ l)
unfolding compare ◌-ℤ◌
compare-above l r = ground arith

compare-below : (l r : Decimal) → (compare l r <ℤ pos 0) ↔ (l <ℤ r)
unfolding compare ◌-ℤ◌
compare-below l r = ground arith

-- The last known relation of the symbol.
abbrev pub known : StrategyService → Text → Option ℤ
known svc symbol = lookup symbol svc.relations

-- Both averages of a point are there, and the first is above the second.
pub record IsAbove (point : IndicatorPoint) : Type 0 where
  pub sma : Decimal
  pub ema : Decimal
  pub has_sma : point.sma ≡ some sma
  pub has_ema : point.ema ≡ some ema
  pub above : ema <ℤ sma

pub record IsBelow (point : IndicatorPoint) : Type 0 where
  pub sma : Decimal
  pub ema : Decimal
  pub has_sma : point.sma ≡ some sma
  pub has_ema : point.ema ≡ some ema
  pub below : sma <ℤ ema

emits-signals_of :
    (c : Candle) (p : IndicatorPoint) (a : SignalAction) (o : Option SignalAction)
    → (emits a (signals_of c p o) ≡ true) ↔ (o ≡ some a)
unfolding signals_of signal_at
emits-signals_of c p enter none = ground arith
emits-signals_of c p leave none = ground arith
emits-signals_of c p enter (some enter) = ground arith
emits-signals_of c p leave (some enter) = ground arith
emits-signals_of c p enter (some leave) = ground arith
emits-signals_of c p leave (some leave) = ground arith

relation_of-some :
    (s e : Option Decimal) (r : ℤ)
    → relation_of s e ≡ some r
    → (x y : Decimal) × (s ≡ some x) × (e ≡ some y) × (r ≡ compare x y)
unfolding relation_of
relation_of-some (some x) (some y) r h = (x, y, refl, refl, ground arith)
relation_of-some (some x) none r h = absurd (cc)
relation_of-some none e r h = absurd (cc)

action_of-enter :
    (q n : Option ℤ)
    → (action_of q n ≡ some enter)
      ↔ ((a : ℤ) × (b : ℤ) × (q ≡ some a) × (n ≡ some b) × (a ≤ℤ pos 0) × (pos 0 <ℤ b))
unfolding action_of
action_of-enter none n = (λ h. absurd (cc), λ h. cc (h.2))
action_of-enter (some a) none = (λ h. absurd (cc), λ h. cc (h.3))
action_of-enter (some a) (some b) =
    (λ h. (a, b, refl, refl, ground arith, ground arith), λ h. ground arith)

action_of-leave :
    (q n : Option ℤ)
    → (action_of q n ≡ some leave)
      ↔ ((a : ℤ) × (b : ℤ) × (q ≡ some a) × (n ≡ some b) × (pos 0 ≤ℤ a) × (b <ℤ pos 0))
unfolding action_of
action_of-leave none n = (λ h. absurd (cc), λ h. cc (h.2))
action_of-leave (some a) none = (λ h. absurd (cc), λ h. cc (h.3))
action_of-leave (some a) (some b) =
    (λ h. (a, b, refl, refl, ground arith, ground arith), λ h. ground arith)

-- The symbol had a relation, and its fast average was not above the slow one.
pub record WasNotAbove (svc : StrategyService) (symbol : Text) : Type 0 where
  pub previous : ℤ
  pub held : known svc symbol ≡ some previous
  pub not_above : previous ≤ℤ pos 0

pub record WasNotBelow (svc : StrategyService) (symbol : Text) : Type 0 where
  pub previous : ℤ
  pub held : known svc symbol ≡ some previous
  pub not_below : pos 0 ≤ℤ previous

process_candle-signals :
    (svc : StrategyService) (c : Candle)
    → c.is_final ≡ true
    → let point = (calculate svc c).1 in
      (process_candle svc c).2
      ≡ signals_of c point (action_of (known svc c.symbol) (relation_of point.sma point.ema))
unfolding process_candle
process_candle-signals svc c final = simp final

emits_enter :
    (svc : StrategyService) (symbol : Text) (point : IndicatorPoint)
    → (action_of (known svc symbol) (relation_of point.sma point.ema) ≡ some enter)
      ↔ (WasNotAbove svc symbol × IsAbove point)
emits_enter svc symbol point = (
  λ h.
      let (a, b, ea, eb, la, lb) =
        (action_of-enter (known svc symbol) (relation_of point.sma point.ema)).0 h in
      let (x, y, ex, ey, r) = relation_of-some point.sma point.ema b eb in
      (
        record { previous = a; held = ea; not_above = la },
        record {
          sma = x;
          ema = y;
          has_sma = ex;
          has_ema = ey;
          above = (compare-above x y).0 (rw r at lb);
        },
      ),
  λ h. (action_of-enter (known svc symbol) (relation_of point.sma point.ema)).1 (
    h.0.previous,
    compare h.1.sma h.1.ema,
    h.0.held,
    rw (h.1.has_sma, h.1.has_ema) (unfold relation_of in refl),
    h.0.not_above,
    (compare-above h.1.sma h.1.ema).1 h.1.above,
  ),
)

emits_leave :
    (svc : StrategyService) (symbol : Text) (point : IndicatorPoint)
    → (action_of (known svc symbol) (relation_of point.sma point.ema) ≡ some leave)
      ↔ (WasNotBelow svc symbol × IsBelow point)
emits_leave svc symbol point = (
  λ h.
      let (a, b, ea, eb, la, lb) =
        (action_of-leave (known svc symbol) (relation_of point.sma point.ema)).0 h in
      let (x, y, ex, ey, r) = relation_of-some point.sma point.ema b eb in
      (
        record { previous = a; held = ea; not_below = la },
        record {
          sma = x;
          ema = y;
          has_sma = ex;
          has_ema = ey;
          below = (compare-below x y).0 (rw r at lb);
        },
      ),
  λ h. (action_of-leave (known svc symbol) (relation_of point.sma point.ema)).1 (
    h.0.previous,
    compare h.1.sma h.1.ema,
    h.0.held,
    rw (h.1.has_sma, h.1.has_ema) (unfold relation_of in refl),
    h.0.not_below,
    (compare-below h.1.sma h.1.ema).1 h.1.below,
  ),
)

-- A finalized candle emits BUY exactly when the symbol's stored relation was not above and the
-- candle's averages are there with the fast one above; it emits EXIT exactly when the relation
-- was not below and the fast average is below.
pub process_candle-emits :
    (svc : StrategyService) (c : Candle)
    → c.is_final ≡ true
    → ((emits enter (process_candle svc c).2 ≡ true)
        ↔ (WasNotAbove svc c.symbol × IsAbove (calculate svc c).1))
      × ((emits leave (process_candle svc c).2 ≡ true)
          ↔ (WasNotBelow svc c.symbol × IsBelow (calculate svc c).1))
process_candle-emits svc c final =
    let point = (calculate svc c).1 in
    let o = action_of (known svc c.symbol) (relation_of point.sma point.ema) in
    let i = emits-signals_of c point enter o in
    let j = emits-signals_of c point leave o in
    let k = emits_enter svc c.symbol point in
    let l = emits_leave svc c.symbol point in
    rw (process_candle-signals svc c final)
      ((λ h. k.0 (i.0 h), λ h. i.1 (k.1 h)), (λ h. l.0 (j.0 h), λ h. j.1 (l.1 h)))

relations-record_signals :
    (svc : StrategyService) (ss : List Signal) → (record_signals svc ss).relations ≡ svc.relations
unfolding record_signals record_signal
relations-record_signals svc [] = refl
relations-record_signals svc (s ∷ ss) = relations-record_signals (record_signal svc s) ss

known-calculate :
    (svc : StrategyService) (c : Candle) (r : ℤ)
    → relation_of (calculate svc c).1.sma (calculate svc c).1.ema ≡ some r
    → known (calculate svc c).0 c.symbol ≡ some r
unfolding calculate
known-calculate svc c r h =
    let self : (c.symbol == c.symbol) ≡ true = (list_beq_iff c.symbol c.symbol).1 refl in
    rw h (unfold write_relation in rw (lookup-insert c.symbol c.symbol r svc.relations, self))

-- The relation that a finalized candle leaves behind is the one of its own averages.
known-process_candle :
    (svc : StrategyService) (c : Candle) (r : ℤ)
    → c.is_final ≡ true
    → relation_of (calculate svc c).1.sma (calculate svc c).1.ema ≡ some r
    → known (process_candle svc c).0 c.symbol ≡ some r
unfolding process_candle
known-process_candle svc c r final h =
    simp (final, relations-record_signals) (known-calculate svc c r h)

-- Two candles of a symbol, one straight after the other, never both emit BUY.
pub enter_not_twice :
    (svc : StrategyService) (c d : Candle)
    → c.is_final ≡ true
    → d.is_final ≡ true
    → d.symbol ≡ c.symbol
    → emits enter (process_candle svc c).2 ≡ true
    → emits enter (process_candle (process_candle svc c).0 d).2 ≡ false
enter_not_twice svc c d fc fd e h =
    elim (Bool-cases (emits enter (process_candle (process_candle svc c).0 d).2)) [
      | inr quiet ↦ quiet
      | inl again ↦
          (let first = ((process_candle-emits svc c fc).0.0 h).1 in
            let second = ((process_candle-emits (process_candle svc c).0 d fd).0.0 again).0 in
            let r : relation_of (calculate svc c).1.sma (calculate svc c).1.ema
                ≡ some (compare first.sma first.ema) =
              rw (first.has_sma, first.has_ema) (unfold relation_of in refl) in
            let k = known-process_candle svc c (compare first.sma first.ema) fc r in
            let up = (compare-above first.sma first.ema).1 first.above in
            let q : known (process_candle svc c).0 c.symbol ≡ some second.previous =
              subst (λ s. known (process_candle svc c).0 s ≡ some second.previous) e second.held in
            let same : second.previous ≡ compare first.sma first.ema = ground arith in
            let low = rw same at second.not_above in absurd (omega arith))
    ]
