-- ===== src/Orders/Placement/Breaker.antt =====
-- The circuit breaker of `place_order`: when it opens and what it refuses.
use crypto_trading_system.Base.{Bool, List, [], false, true, ◌∷◌}
use crypto_trading_system.Exchange.{Order, Response}
use crypto_trading_system.Exchange.Result.{Result, err, ok, order_error}
use crypto_trading_system.Orders.Placement.{
  OrderState, Settings, World, place_let_through, place_order,
}

-- The calls of a list that are no tests, one after the other; each has its order and its environment.
pub place_each : Settings → Bool → List (World × Order) → OrderState → OrderState
place_each settings square_off [] s = s
place_each settings square_off ((world, order) ∷ calls) s =
    place_each settings square_off calls
      (place_order settings true false square_off world order s).0

-- What the calls answer, one after the other.
pub answers_each : Settings → Bool → List (World × Order) → OrderState → List (Result Response)
answers_each settings square_off [] s = []
answers_each settings square_off ((world, order) ∷ calls) s =
    let (t, answer) = place_order settings true false square_off world order s in
    answer ∷ answers_each settings square_off calls t

abbrev pub refusals : List (World × Order) → List (Result Response)
refusals [] = []
refusals (call ∷ calls) = err (order_error 503 false) ∷ refusals calls

abbrev after_breaker :
    Settings → Bool → World → Order → OrderState × Result (Unit {0}) → OrderState × Result Response
after_breaker settings square_off world order (s, passed) = elim passed [
  | err e ↦ (s, err e)
  | ok _ ↦ place_let_through settings false square_off world order s
]
