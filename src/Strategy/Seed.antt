-- ===== src/Strategy/Seed.antt =====
-- Seeding from history, and the moving average against its definition.
use mathlib.Core.List.{append-nil, append_assoc}
use crypto_trading_system.Base.{
  All, Bool, Bool-cases, List, [], ap, arith, false, if◌then◌else◌, inl, inr, list_beq_iff, list_eq,
  nat_eq, option_eq, refl, some, true, ℕ, ◌++◌, ◌+◌, ◌-◌, ◌<◌, ◌==◌, ◌∙◌, ◌∷◌, ◌≡◌, ◌≤◌,
}
use crypto_trading_system.Base.Dict.{get_or, lookup, lookup-erase}
use crypto_trading_system.Base.Text.{Text}
use crypto_trading_system.Decimal.{Decimal, decimal, ◌⊘◌}
use crypto_trading_system.Models.Market.{Candle}
use crypto_trading_system.Strategy.{
  StrategyService, calculate, calculate_each, reset_symbol, seed, when,
}
use crypto_trading_system.Strategy.Window.{
  HasWindow, IsExactStep, calculate-HasWindow, last_n, next_sum-HasWindow, total,
}

-- The closes of the finalized candles, oldest first.
unfoldable pub final_closes : List Candle → List Decimal
final_closes [] = []
final_closes (c ∷ cs) = if c.is_final then c.close ∷ final_closes cs else final_closes cs

-- Every step over the candles is exact, for a symbol that has had `series`.
abbrev pub IsExactRun : ℕ → List Decimal → List Decimal → Type 0
IsExactRun n series [] = Unit
IsExactRun n series (x ∷ xs) =
    IsExactStep n (last_n n series) x × IsExactRun n (series ++ x ∷ []) xs

fast_period-calculate :
    (svc : StrategyService) (c : Candle) → (calculate svc c).0.fast_period ≡ svc.fast_period
unfolding calculate
fast_period-calculate svc c = refl

calculate_each-HasWindow :
    (svc : StrategyService) (symbol : Text) (series : List Decimal) (cs : List Candle) (n : ℕ)
    → svc.fast_period ≡ n
    → 0 < n
    → All (λ c. c.symbol ≡ symbol) cs
    → IsExactRun n series (final_closes cs)
    → HasWindow svc symbol series
    → HasWindow (calculate_each svc cs) symbol (series ++ final_closes cs)
unfolding calculate_each final_closes
calculate_each-HasWindow svc symbol series [] n q p e x h = rw append-nil h
calculate_each-HasWindow svc symbol series (c ∷ cs) n q p e x h = elim (Bool-cases c.is_final) [
  | inl final ↦ simp final (
      let x' : IsExactRun n series (c.close ∷ final_closes cs) = rw final at x in
      rw (← append_assoc series (c.close ∷ []) (final_closes cs)) (
        calculate_each-HasWindow (calculate svc c).0 symbol (series ++ c.close ∷ []) cs n
          (fast_period-calculate svc c ∙ q) p e.1 x'.1
          (calculate-HasWindow svc symbol series c (rw q p) e.0 (rw q x'.0) h)))
  | inr live ↦ simp live (calculate_each-HasWindow svc symbol series cs n q p e.1 (rw live at x) h)
]

last_n-nil : (n : ℕ) → last_n n [] ≡ []
unfolding last_n
last_n-nil n = let z : 0 - n ≡ 0 = omega arith in rw z

reset_symbol-HasWindow :
    (svc : StrategyService) (symbol : Text) → HasWindow (reset_symbol svc symbol) symbol []
unfolding reset_symbol total
reset_symbol-HasWindow svc symbol =
    let self : (symbol == symbol) ≡ true = (list_beq_iff symbol symbol).1 refl in
    record {
      window = rw (lookup-erase symbol symbol svc.closes, self, last_n-nil svc.fast_period);
      sum = rw (lookup-erase symbol symbol svc.sums, self, last_n-nil svc.fast_period);
    }

-- After a seed with candles of the symbol, the window holds the last `fast_period` finalized
-- closes and the running sum is their sum, whatever the symbol had before, as long as each of
-- the sums fits in 28 digits.
pub seed-HasWindow :
    (svc : StrategyService) (symbol : Text) (cs : List Candle)
    → 0 < svc.fast_period
    → All (λ c. c.symbol ≡ symbol) cs
    → IsExactRun svc.fast_period [] (final_closes cs)
    → HasWindow (seed svc symbol cs) symbol (final_closes cs)
unfolding seed
seed-HasWindow svc symbol cs p e x =
    calculate_each-HasWindow (reset_symbol svc symbol) symbol [] cs svc.fast_period
      (unfold reset_symbol in refl) p e x (reset_symbol-HasWindow svc symbol)

-- Seeding emits nothing and leaves the recorded signals alone.
calculate_each-signals :
    (svc : StrategyService) (cs : List Candle)
    → ((calculate_each svc cs).signals ≡ svc.signals)
      × ((calculate_each svc cs).latest_signals ≡ svc.latest_signals)
unfolding calculate_each calculate
calculate_each-signals svc [] = (refl, refl)
calculate_each-signals svc (c ∷ cs) = elim (Bool-cases c.is_final) [
  | inl final ↦ simp final (calculate_each-signals (calculate svc c).0 cs)
  | inr live ↦ simp live (calculate_each-signals svc cs)
]

when-some : (b : Bool) (d x : Decimal) → when b d ≡ some x → (b ≡ true) × (x ≡ d)
unfolding when
when-some true d x e = (refl, ground arith)
when-some false d x e = absurd (cc)

-- If the window of the symbol holds the last closes of its series and the running sum is their sum, and
-- if the sum that the candle makes fits in 28 digits, then the average that the candle reports is the
-- mean of the last `fast_period` closes, its own included, and it is reported only once `slow_period`
-- samples have been seen.
pub calculate-sma :
    (svc : StrategyService) (symbol : Text) (series : List Decimal) (c : Candle) (x : Decimal)
    → 0 < svc.fast_period
    → c.symbol ≡ symbol
    → IsExactStep svc.fast_period (last_n svc.fast_period series) c.close
    → HasWindow svc symbol series
    → (calculate svc c).1.sma ≡ some x
    → (x ≡ total (last_n svc.fast_period (series ++ c.close ∷ [])) ⊘ decimal svc.fast_period)
      × (svc.slow_period ≤ get_or (lookup symbol svc.sample_counts) 0 + 1)
unfolding calculate
calculate-sma svc symbol series c x p e exact h r =
    let n = svc.fast_period in
    let r' = rw e at r in
    let (shown, value) = when-some _ _ x r' in
    (
      value ∙ ap (λ s. s ⊘ decimal n) (next_sum-HasWindow svc symbol series c.close p exact h),
      ground arith,
    )
