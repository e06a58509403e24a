-- ===== src/Orders/Placement.antt =====
-- services/order_service.py: `place_order` with the circuit breaker, the check on the market data,
-- the reservation of capital and the answer of the exchange; services/reconciliation_service.py:
-- `reconcile_unknown`. A call is one run of the method here: what the exchange, the loaders and the
-- clocks give it is in `World`, and other calls do not come between.
pub mod Breaker
pub mod Conserve
mod Tests
use crypto_trading_system.Base.{
  Bool, List, Option, [], false, if◌then◌else◌, is_some, leb, ltb, none, not, some, suc, true, zero,
  ℕ, ◌&&◌, ◌++◌, ◌+◌, ◌-◌, ◌∷◌,
}
use crypto_trading_system.Base.Dict.{get_or}
use crypto_trading_system.Base.Int.{ltb_ℤ}
use crypto_trading_system.Base.Text.{Text, codes}
use crypto_trading_system.Decimal.{Decimal, abs, decimal, ◌⊖◌, ◌⊗◌, ◌⊘◌}
use crypto_trading_system.Exchange.{Account, Order, Response, Rules}
use crypto_trading_system.Exchange.Result.{
  Failure, Result, err, insufficient_balance, no_live_tick, not_calculable, nothing_unreserved,
  notional_exceeds, ok, order_error, over_utilized, price_deviation_exceeds, raise_if, risk_error,
  stale_tick, storage_failed, ◌>>=◌, ◌>>◌,
}
use crypto_trading_system.Models.Common.{OrderSide, Timestamp, buy, sell}
use crypto_trading_system.Models.Market.{Tick}
use crypto_trading_system.Orders.Normalization.{enforce_min_notional, normalize_order}
use crypto_trading_system.Risk.{
  RiskEngine, RiskReservation, acknowledge, mark_uncertain, release, reserve,
}

-- The settings that the method reads; `max_market_data_age` is in microseconds.
pub record Settings : Type 0 where
  pub max_consecutive_order_failures : ℕ
  pub cooldown : ℕ
  pub max_market_data_age : ℕ
  pub max_price_deviation_percent : Decimal
  pub reconciliation_attempts : ℕ

-- What the environment gives to one call. `start` and `failed_at` are readings of `monotonic`,
-- `now` is the wall clock; the market tick loader is there or not, and finds a tick or not; the
-- queries are the answers of `_query_by_client_id`, one for each attempt.
pub record World : Type 0 where
  pub start : ℕ
  pub failed_at : ℕ
  pub now : Timestamp
  pub user : Option ℕ
  pub rules : Result Rules
  pub account : Result Account
  pub price : Result Decimal
  pub live_tick : Option (Option Tick)
  -- `none` if the request ends in another exception than a `BinanceOrderError`, such as a body that
  -- is no JSON.
  pub answer : Option (Result Response)
  pub queries : List (Result Response)
  pub reservation_id : Text
  pub row_saved : Bool

pub record OrderState : Type 0 where
  pub engine : RiskEngine
  pub consecutive_order_failures : ℕ
  pub circuit_open_until : ℕ
  pub risk_rejections : ℕ
  pub reconciliations : ℕ
  -- The orders that were recorded, each with the answer.
  pub recorded : List (Order × Response)

-- `age > max_market_data_age_seconds`; a tick of the future has no age.
pub is_stale : Settings → World → Tick → Bool
is_stale settings world tick = ltb settings.max_market_data_age (world.now - tick.timestamp)

pub price_deviation : Decimal → Tick → Decimal
price_deviation price tick = abs (price ⊖ tick.price) ⊘ tick.price ⊗ decimal 100

pub deviates : Settings → Tick → Option Decimal → Bool
deviates settings tick none = false
deviates settings tick (some price) =
    ltb_ℤ settings.max_price_deviation_percent (price_deviation price tick)

pub check_tick : Settings → World → Option Decimal → Option Tick → Result (Unit {0})
check_tick settings world price none = err (risk_error no_live_tick)
check_tick settings world price (some tick) = do
  raise_if (is_stale settings world tick) (risk_error stale_tick)
  raise_if (deviates settings tick price) (risk_error price_deviation_exceeds)

pub is_buy : Option OrderSide → Bool
is_buy none = false
is_buy (some buy) = true
is_buy (some sell) = false

-- `_ensure_market_fresh`
pub ensure_market_fresh : Settings → World → Order → Result (Unit {0})
ensure_market_fresh settings world order =
    if not (is_buy order.side) then ok tt else elim world.live_tick [
      | none ↦ ok tt
      | some found ↦ check_tick settings world order.price found
    ]

-- `reconcile_unknown`: up to `attempts` queries, and the first answer with an order id.
pub query_attempts : ℕ → List (Result Response) → Option Response
query_attempts zero queries = none
query_attempts (suc n) [] = none
query_attempts (suc n) (err e ∷ queries) = query_attempts n queries
query_attempts (suc n) (ok result ∷ queries) =
    let rest = query_attempts n queries in if is_some result.order_id then some result else rest

pub is_given : Option Text → Bool
is_given none = false
is_given (some []) = false
is_given (some (c ∷ s)) = true

pub reconcile_unknown : ℕ → Order → List (Result Response) → Option Response
reconcile_unknown attempts order queries =
    if is_given order.new_client_order_id && is_given (some order.symbol)
    then query_attempts attempts queries
    else none

-- `str(response.get("status") or "UNKNOWN")`
pub status_of : Response → Text
status_of response = if is_given response.status then get_or response.status [] else codes "UNKNOWN"

-- The circuit breaker lets an order through, and forgets the failures when its time is over.
pub breaker : Settings → Bool → World → OrderState → OrderState × Result (Unit {0})
breaker settings test world s =
    if not test && leb settings.max_consecutive_order_failures s.consecutive_order_failures
    then (if ltb world.start s.circuit_open_until
        then (s, err (order_error 503 false))
        else (record s { consecutive_order_failures = 0 }, ok tt))
    else (s, ok tt)

-- What is known of an order before it is reserved: its normal form.
pub prepare : World → Order → Result (Order × Rules)
prepare world order = do
  normalized ← normalize_order world.rules order
  rules ← world.rules
  enforce_min_notional normalized rules world.price
  ok (normalized, rules)

-- A refusal of the risk engine is counted and becomes a 422.
pub refused : Failure → OrderState → OrderState × Failure
refused (order_error code uncertain) s = (s, order_error code uncertain)
refused (risk_error not_calculable) s =
    (record s { risk_rejections = s.risk_rejections + 1 }, order_error 422 false)
refused (risk_error notional_exceeds) s =
    (record s { risk_rejections = s.risk_rejections + 1 }, order_error 422 false)
refused (risk_error nothing_unreserved) s =
    (record s { risk_rejections = s.risk_rejections + 1 }, order_error 422 false)
refused (risk_error insufficient_balance) s =
    (record s { risk_rejections = s.risk_rejections + 1 }, order_error 422 false)
refused (risk_error over_utilized) s =
    (record s { risk_rejections = s.risk_rejections + 1 }, order_error 422 false)
refused (risk_error no_live_tick) s =
    (record s { risk_rejections = s.risk_rejections + 1 }, order_error 422 false)
refused (risk_error stale_tick) s =
    (record s { risk_rejections = s.risk_rejections + 1 }, order_error 422 false)
refused (risk_error price_deviation_exceeds) s =
    (record s { risk_rejections = s.risk_rejections + 1 }, order_error 422 false)
refused (risk_error storage_failed) s = (s, risk_error storage_failed)

-- `_risk.reserve`, behind the check on the market data.
pub reserve_capital :
    Settings
    → World
    → Bool
    → Order
    → Rules
    → OrderState
    → OrderState × Result (Option RiskReservation)
reserve_capital settings world square_off order rules s =
    elim (ensure_market_fresh settings world order) [
      | err e ↦ (s, err e)
      | ok _ ↦
          (let (engine, result) =
              reserve s.engine world.user order rules world.account world.price (not square_off)
                world.reservation_id world.row_saved in
            (record s { engine = engine }, result))
    ]

-- An answer of the exchange: the reservation follows its status, and the failures are forgotten.
pub answered :
    Bool → Order → Option RiskReservation → Response → OrderState → OrderState × Result Response
answered test order reservation response s =
    let engine = acknowledge s.engine reservation (status_of response) in
    if test then (record s { engine = engine }, ok response) else (
      record s {
        engine = engine;
        consecutive_order_failures = 0;
        circuit_open_until = 0;
        recorded = s.recorded ++ (order, response) ∷ [];
      },
      ok response,
    )

-- An order whose outcome is unknown keeps its capital until a query finds it.
pub unknown_outcome :
    Settings → World → Order → Option RiskReservation → OrderState → OrderState × Result Response
unknown_outcome settings world order reservation s =
    let marked = record s {
      engine = mark_uncertain s.engine reservation;
      reconciliations = s.reconciliations + 1;
    } in
    elim (reconcile_unknown settings.reconciliation_attempts order world.queries) [
      | none ↦ (marked, err (order_error 503 true))
      | some response ↦ answered false order reservation response marked
    ]

-- A request that failed for sure gives its capital back and counts for the breaker.
pub failed_request :
    Settings → World → Option RiskReservation → Failure → OrderState → OrderState × Result Response
failed_request settings world reservation e s =
    let failures = s.consecutive_order_failures + 1 in
    (
      record s {
        engine = release s.engine reservation;
        consecutive_order_failures = failures;
        circuit_open_until =
            if leb settings.max_consecutive_order_failures failures
            then world.failed_at + settings.cooldown
            else s.circuit_open_until;
      },
      err e,
    )

pub is_uncertain : Failure → Bool
is_uncertain (order_error code uncertain) = uncertain
is_uncertain (risk_error r) = false

-- The request and what follows it. An exception that is no `BinanceOrderError` passes by every handler
-- of the method, and the API answers a 500.
pub send :
    Settings
    → Bool
    → World
    → Order
    → Option RiskReservation
    → OrderState
    → OrderState × Result Response
send settings test world order reservation s = elim world.answer [
  | none ↦ (s, err (order_error 500 false))
  | some answer ↦ elim answer [
    | ok response ↦ answered test order reservation response s
    | err e ↦
        if not test && is_uncertain e
        then unknown_outcome settings world order reservation s
        else failed_request settings world reservation e s
  ]
]

-- A failure before the request was sent.
pub stopped : Failure → OrderState → OrderState × Result Response
stopped e s = let (s', e') = refused e s in (s', err e')

pub place_prepared :
    Settings → Bool → Bool → World → Order → Rules → OrderState → OrderState × Result Response
place_prepared settings true square_off world order rules s = send settings true world order none s
place_prepared settings false square_off world order rules s =
    let (s', reserved) = reserve_capital settings world square_off order rules s in
    elim reserved [
      | err e ↦ stopped e s'
      | ok reservation ↦ send settings false world order reservation s'
    ]

pub place_let_through :
    Settings → Bool → Bool → World → Order → OrderState → OrderState × Result Response
place_let_through settings test square_off world order s = elim (prepare world order) [
  | err e ↦ (s, err e)
  | ok (normalized, rules) ↦ place_prepared settings test square_off world normalized rules s
]

-- `place_order`; `enabled` is `execution_enabled`, and `square_off` the mark in `_audit`.
pub place_order :
    Settings → Bool → Bool → Bool → World → Order → OrderState → OrderState × Result Response
place_order settings enabled test square_off world order s =
    if not test && not enabled
    then (s, err (order_error 409 false))
    else (let (s', passed) = breaker settings test world s in
        elim passed [
          | err e ↦ (s', err e)
          | ok _ ↦ place_let_through settings test square_off world order s'
        ])
