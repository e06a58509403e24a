-- ===== src/Stores/Ticks.antt =====
-- services/tick_store.py: `TickStore`.
-- `TickStore._ticks`.
use crypto_trading_system.Base.{
  Bool, List, Option, [], arith, false, if◌then◌else◌, list_beq_iff, list_eq, ltb, nat_eq, none,
  option_eq, some, true, ℕ, ◌∷◌, ◌≡◌, ◌≤◌,
}
use crypto_trading_system.Base.Dict.{Dict, erase, get_or, insert, lookup, lookup-insert}
use crypto_trading_system.Base.Text.{Text, strip_upper}
use crypto_trading_system.Models.Market.{Tick, tick_beq, tick_beq_iff}

abbrev pub TickStore : Type 0
TickStore = Dict Text Tick

stores_tick : Option Tick → Tick → Bool
stores_tick none tick = true
stores_tick (some existing) tick =
    if ltb tick.timestamp existing.timestamp
    then false
    else if tick_beq existing tick
    then false
    else true

unfoldable pub update : TickStore → Tick → TickStore × Bool
unfolding stores_tick tick_beq
update ticks tick =
    if stores_tick (lookup tick.symbol ticks) tick
    then (insert tick.symbol tick ticks, true)
    else (ticks, false)

unfoldable pub get : TickStore → Text → Option Tick
get ticks symbol = lookup (strip_upper symbol) ticks

unfoldable pub remove : TickStore → Text → TickStore
remove ticks symbol = erase (strip_upper symbol) ticks

-- `snapshot` copies the dictionary, and `clear` empties it.
unfoldable pub snapshot : TickStore → TickStore
snapshot ticks = ticks

unfoldable pub clear : TickStore → TickStore
clear ticks = []

-- The latest time stored for a symbol.
abbrev pub time_of : Option Tick → ℕ
time_of none = 0
time_of (some t) = t.timestamp

-- An update never moves a symbol back in time: neither its own symbol nor another.
pub update-monotone :
    (ticks : TickStore) (tick : Tick) (s : Text)
    → time_of (lookup s ticks) ≤ time_of (lookup s (update ticks tick).0)
unfolding update
update-monotone ticks tick s =
    ground (arith, lookup-insert tick.symbol s tick ticks, list_beq_iff tick.symbol s)

-- The stored tick is at least as late as the one that was offered.
pub update-le-stored :
    (ticks : TickStore) (tick : Tick) (s : Text)
    → tick.symbol ≡ s
    → tick.timestamp ≤ time_of (lookup s (update ticks tick).0)
unfolding update
update-le-stored ticks tick s e = ground (
  arith,
  lookup-insert tick.symbol s tick ticks,
  list_beq_iff tick.symbol s,
  tick_beq_iff (get_or (lookup tick.symbol ticks) tick) tick,
)

-- Ticks offered one after the other, in the order in which they arrive.
pub run_updates : TickStore → List Tick → TickStore
run_updates ticks [] = ticks
run_updates ticks (t ∷ ts) = run_updates (update ticks t).0 ts

run_updates-monotone :
    (ticks : TickStore) (ts : List Tick) (s : Text)
    → time_of (lookup s ticks) ≤ time_of (lookup s (run_updates ticks ts))
unfolding run_updates
run_updates-monotone ticks [] s = omega arith
run_updates-monotone ticks (t ∷ ts) s =
    omega (arith, update-monotone ticks t s, run_updates-monotone (update ticks t).0 ts s)

-- No tick of the symbol is later than the stored one.
abbrev pub AtMost : Text → ℕ → List Tick → Type 0
AtMost s n [] = Unit
AtMost s n (t ∷ ts) = (t.symbol ≡ s → t.timestamp ≤ n) × AtMost s n ts

-- After any sequence of updates, in whatever order they arrive, no tick that was offered for a
-- symbol is later than the one that the store holds for it.
pub run_updates-AtMost :
    (ticks : TickStore) (ts : List Tick) (s : Text)
    → AtMost s (time_of (lookup s (run_updates ticks ts))) ts
unfolding run_updates
run_updates-AtMost ticks [] s = tt
run_updates-AtMost ticks (t ∷ ts) s = (
  λ e. omega (arith, update-le-stored ticks t s e, run_updates-monotone (update ticks t).0 ts s),
  run_updates-AtMost (update ticks t).0 ts s,
)
