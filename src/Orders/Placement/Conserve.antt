-- ===== src/Orders/Placement/Conserve.antt =====
-- What a call of `place_order` leaves reserved.
use mathlib.Core.Path.{subst}
use crypto_trading_system.Base.{
  Bool, Bool-cases, List, Option, [], ap, arith, false, if◌then◌else◌, inl, inr, none, not, refl,
  some, true, ◌&&◌, ◌+◌, ◌≡◌,
}
use crypto_trading_system.Base.Text.{upper}
use crypto_trading_system.Decimal.{IsExact}
use crypto_trading_system.Exchange.{Order, Response, Rules}
use crypto_trading_system.Exchange.Result.{
  Failure, Result, err, insufficient_balance, no_live_tick, not_calculable, nothing_unreserved,
  notional_exceeds, ok, order_error, over_utilized, price_deviation_exceeds, risk_error, stale_tick,
  storage_failed,
}
use crypto_trading_system.Orders.Placement.{
  OrderState, Settings, World, answered, breaker, ensure_market_fresh, failed_request, is_uncertain,
  place_let_through, place_order, place_prepared, prepare, reconcile_unknown, refused,
  reserve_capital, send, status_of, stopped, unknown_outcome,
}
use crypto_trading_system.Risk.{
  RiskEngine, RiskReservation, is_terminal, key_of, mark_uncertain, reserve,
}
use crypto_trading_system.Risk.Grants.{reserve-key}
use crypto_trading_system.Risk.Ledger.{Represents, held}
use crypto_trading_system.Risk.Release.{
  acknowledge-Represents, acknowledge-none, mark_uncertain-Represents, release-Represents,
  with_reservation,
}
use crypto_trading_system.Risk.Reserve.{FitsLedger, ledger_after, reserve-Represents}

-- The capital of an order that was sent stays reserved: the exchange answered with a status that is not
-- terminal, or its answer is unknown.
pub kept : Result Response → Bool
kept (ok response) = not (is_terminal (upper (status_of response)))
kept (err e) = is_uncertain e

-- The ledger that a call leaves, for the reservation that it took and the answer to its request.
abbrev pub left_ledger :
    Option (Result Response)
    → Result Response
    → Option RiskReservation
    → List RiskReservation
    → List RiskReservation
left_ledger none result o ledger = with_reservation o ledger
left_ledger (some answer) result o ledger =
    if kept result then with_reservation o ledger else ledger

-- The reservation that the engine gives to a call, if the call gets as far.
abbrev pub reserved_by : OrderState × Result (Option RiskReservation) → Option RiskReservation
reserved_by (s, err e) = none
reserved_by (s, ok o) = o

abbrev pub prepared_takes :
    Settings → Bool → World → OrderState → Result (Order × Rules) → Option RiskReservation
prepared_takes settings square_off world s (err e) = none
prepared_takes settings square_off world s (ok (order, rules)) =
    reserved_by (reserve_capital settings world square_off order rules s)

abbrev pub passed_takes :
    Settings → Bool → World → Order → OrderState × Result (Unit {0}) → Option RiskReservation
passed_takes settings square_off world order (s, err e) = none
passed_takes settings square_off world order (s, ok u) =
    prepared_takes settings square_off world s (prepare world order)

abbrev pub taken : Settings → Bool → Bool → World → Order → OrderState → Option RiskReservation
taken settings false square_off world order s = none
taken settings true square_off world order s =
    passed_takes settings square_off world order (breaker settings false world s)

answered-Represents :
    (order : Order) (o : Option RiskReservation) (response : Response) (s : OrderState)
    (got : Result Response) (ledger : List RiskReservation)
    → ((r : RiskReservation) → o ≡ some r → IsExact (held (key_of r) ledger))
    → Represents s.engine (with_reservation o ledger)
    → let (t, result) = answered false order o response s in
      Represents t.engine (left_ledger (some got) result o ledger)
unfolding answered kept
answered-Represents order none response s got ledger x h =
    rw (acknowledge-none s.engine (status_of response))
      (elim (Bool-cases (is_terminal (upper (status_of response)))) [
        | inl terminal ↦ rw terminal h
        | inr live ↦ rw live h
      ])
answered-Represents order (some r) response s got ledger x h =
    let a = acknowledge-Represents s.engine [] ledger r (status_of response) (x r refl) h in
    elim (Bool-cases (is_terminal (upper (status_of response)))) [
      | inl terminal ↦ rw terminal (rw terminal at a)
      | inr live ↦ rw live (rw live at a)
    ]

module _ (settings : Settings) (world : World) (order : Order) (o : Option RiskReservation)
    (ledger : List RiskReservation)
    (x : (r : RiskReservation) → o ≡ some r → IsExact (held (key_of r) ledger)) where
  reconciled-Represents :
      (found : Option Response) (s : OrderState) (got : Result Response)
      → Represents s.engine (with_reservation o ledger)
      → let (t, result) = elim found as (λ _. OrderState × Result Response) [
        | none ↦ (s, err (order_error 503 true))
        | some response ↦ answered false order o response s
      ] in
        Represents t.engine (left_ledger (some got) result o ledger)
  unfolding kept is_uncertain
  reconciled-Represents none s got h = h
  reconciled-Represents (some response) s got h =
      answered-Represents order o response s got ledger x h

  send-Represents :
      (answer : Result Response) (s : OrderState)
      → Represents s.engine (with_reservation o ledger)
      → let (t, result) = elim answer as (λ _. OrderState × Result Response) [
        | ok response ↦ answered false order o response s
        | err e ↦
            if not false && is_uncertain e
            then unknown_outcome settings world order o s
            else failed_request settings world o e s
      ] in
        Represents t.engine (left_ledger (some answer) result o ledger)
  send-Represents (ok response) s h =
      answered-Represents order o response s (ok response) ledger x h
  send-Represents (err e) s h = elim (Bool-cases (is_uncertain e)) [
    | inl unknown ↦ rw unknown (
        unfold unknown_outcome in
        reconciled-Represents
          (reconcile_unknown settings.reconciliation_attempts order world.queries)
          (record s { engine = mark_uncertain s.engine o; reconciliations = s.reconciliations + 1 })
          (err e) (mark_uncertain-Represents s.engine o (with_reservation o ledger) h))
    | inr sure ↦
        rw sure (unfold failed_request kept in rw sure (release-Represents s.engine o ledger x h))
  ]

  sent-Represents :
      (answer : Option (Result Response)) (s : OrderState)
      → Represents s.engine (with_reservation o ledger)
      → let (t, result) = elim answer as (λ _. OrderState × Result Response) [
        | none ↦ (s, err (order_error 500 false))
        | some got ↦ elim got as (λ _. OrderState × Result Response) [
          | ok response ↦ answered false order o response s
          | err e ↦
              if not false && is_uncertain e
              then unknown_outcome settings world order o s
              else failed_request settings world o e s
        ]
      ] in
        Represents t.engine (left_ledger answer result o ledger)
  sent-Represents none s h = h
  sent-Represents (some got) s h = send-Represents got s h

refused-engine : (e : Failure) (s : OrderState) → (refused e s).0.engine ≡ s.engine
unfolding refused
refused-engine (order_error code uncertain) s = refl
refused-engine (risk_error not_calculable) s = refl
refused-engine (risk_error notional_exceeds) s = refl
refused-engine (risk_error nothing_unreserved) s = refl
refused-engine (risk_error insufficient_balance) s = refl
refused-engine (risk_error over_utilized) s = refl
refused-engine (risk_error no_live_tick) s = refl
refused-engine (risk_error stale_tick) s = refl
refused-engine (risk_error price_deviation_exceeds) s = refl
refused-engine (risk_error storage_failed) s = refl

same_ledger :
    (engine : RiskEngine) (answer : Option (Result Response)) (result : Result Response)
    (ledger : List RiskReservation)
    → Represents engine ledger
    → Represents engine (left_ledger answer result none ledger)
same_ledger engine none result ledger h = h
same_ledger engine (some answer) result ledger h = elim (Bool-cases (kept result)) [
  | inl stays ↦ rw stays h
  | inr gone ↦ rw gone h
]

-- What a call leaves reserved that took the reservation `o`.
abbrev pub Settles :
    OrderState × Result Response
    → Option (Result Response)
    → Option RiskReservation
    → List RiskReservation
    → Type 0
Settles (t, result) answer o ledger = Represents t.engine (left_ledger answer result o ledger)

unsent-Settles :
    (t : OrderState) (e : Failure) (answer : Option (Result Response))
    (ledger : List RiskReservation)
    → Represents t.engine ledger
    → Settles (t, err e) answer none ledger
unsent-Settles t e answer ledger h = same_ledger t.engine answer (err e) ledger h

module _ (settings : Settings) (world : World) (order : Order) (ledger : List RiskReservation) where
  reserved-Settles :
      (reserved : Result (Option RiskReservation)) (s : OrderState)
      → ((r : RiskReservation) → reserved ≡ ok (some r) → IsExact (held (key_of r) ledger))
      → Represents s.engine (ledger_after reserved ledger)
      → Settles
          (elim reserved as (λ _. OrderState × Result Response) [
            | err e ↦ stopped e s
            | ok reservation ↦ send settings false world order reservation s
          ])
          world.answer
          (reserved_by (s, reserved))
          ledger
  unfolding stopped send
  reserved-Settles (err e) s x h =
      unsent-Settles (refused e s).0 (refused e s).1 world.answer ledger (rw (refused-engine e s) h)
  reserved-Settles (ok none) s x h =
      sent-Represents settings world order none ledger (λ r e. absurd (ground (arith, e)))
        world.answer s h
  reserved-Settles (ok (some r)) s x h =
      sent-Represents settings world order (some r) ledger (λ q e. x q (ap ok e)) world.answer s h

  capital-Settles :
      (square_off : Bool) (rules : Rules) (s : OrderState) (fresh : Result (Unit {0}))
      → FitsLedger s.engine world.user order rules world.account world.price
          (not square_off)
          world.reservation_id
          world.row_saved
          ledger
      → Represents s.engine ledger
      → let (t, reserved) = elim fresh as (λ _. OrderState × Result (Option RiskReservation)) [
        | err e ↦ (s, err e)
        | ok _ ↦
            (let (engine, result) =
                reserve s.engine world.user order rules world.account world.price
                  (not square_off)
                  world.reservation_id
                  world.row_saved in
              (record s { engine = engine }, result))
      ] in
        Settles
          (elim reserved as (λ _. OrderState × Result Response) [
            | err e ↦ stopped e t
            | ok reservation ↦ send settings false world order reservation t
          ])
          world.answer
          (reserved_by (t, reserved))
          ledger
  capital-Settles square_off rules s (err e) x h =
      reserved-Settles (err e) s (λ r q. absurd (ground (arith, q))) h
  capital-Settles square_off rules s (ok u) x h =
      let after =
        reserve s.engine world.user order rules world.account world.price (not square_off)
          world.reservation_id world.row_saved in
      reserved-Settles after.1 (record s { engine = after.0 })
        (λ r q.
          rw
            (reserve-key s.engine world.user order rules world.account world.price (not square_off)
              world.reservation_id world.row_saved r q)
            (x.held_now r.asset))
        (reserve-Represents s.engine world.user order rules world.account world.price
          (not square_off) world.reservation_id world.row_saved ledger x h)

place_prepared-Settles :
    (settings : Settings) (square_off : Bool) (world : World) (order : Order) (rules : Rules)
    (ledger : List RiskReservation) (s : OrderState)
    → FitsLedger s.engine world.user order rules world.account world.price
        (not square_off)
        world.reservation_id
        world.row_saved
        ledger
    → Represents s.engine ledger
    → Settles
        (place_prepared settings false square_off world order rules s)
        world.answer
        (reserved_by (reserve_capital settings world square_off order rules s))
        ledger
unfolding place_prepared reserve_capital
place_prepared-Settles settings square_off world order rules ledger s x h =
    capital-Settles settings world order ledger square_off rules s
      (ensure_market_fresh settings world order) x h

-- The sums that the normal form of the order forms fit in 28 digits.
abbrev pub Fits : World → Bool → Order → List RiskReservation → RiskEngine → Type 0
Fits world square_off order ledger engine =
    (normalized : Order) (rules : Rules)
    → prepare world order ≡ ok (normalized, rules)
    → FitsLedger engine world.user normalized rules world.account world.price (not square_off)
        world.reservation_id world.row_saved ledger

let_through-Settles :
    (settings : Settings) (square_off : Bool) (world : World) (order : Order)
    (ledger : List RiskReservation) (s : OrderState)
    → Fits world square_off order ledger s.engine
    → Represents s.engine ledger
    → Settles
        (place_let_through settings false square_off world order s)
        world.answer
        (prepared_takes settings square_off world s (prepare world order))
        ledger
unfolding place_let_through
let_through-Settles settings square_off world order ledger s x h =
    by_prepared (prepare world order) refl
  where
    by_prepared :
        (w : Result (Order × Rules))
        → prepare world order ≡ w
        → Settles
            (elim w as (λ _. OrderState × Result Response) [
              | err e ↦ (s, err e)
              | ok (normalized, rules) ↦
                  place_prepared settings false square_off world normalized rules s
            ])
            world.answer
            (prepared_takes settings square_off world s w)
            ledger
    by_prepared (err e) q = unsent-Settles s e world.answer ledger h
    by_prepared (ok (normalized, rules)) q =
        place_prepared-Settles settings square_off world normalized rules ledger s
          (x normalized rules q) h

passed-Settles :
    (settings : Settings) (square_off : Bool) (world : World) (order : Order)
    (ledger : List RiskReservation) (s : OrderState) (passed : Result (Unit {0}))
    → Fits world square_off order ledger s.engine
    → Represents s.engine ledger
    → Settles
        (elim passed as (λ _. OrderState × Result Response) [
          | err e ↦ (s, err e)
          | ok _ ↦ place_let_through settings false square_off world order s
        ])
        world.answer
        (passed_takes settings square_off world order (s, passed))
        ledger
passed-Settles settings square_off world order ledger s (err e) x h =
    unsent-Settles s e world.answer ledger h
passed-Settles settings square_off world order ledger s (ok u) x h =
    let_through-Settles settings square_off world order ledger s x h

breaker-engine :
    (settings : Settings) (test : Bool) (world : World) (s : OrderState)
    → s.engine ≡ (breaker settings test world s).0.engine
unfolding breaker
breaker-engine settings test world s = ground arith

-- After a call of `place_order` that is no test, the engine counts exactly the reservations that were
-- outstanding before and, besides, the reservation that the call took just if the exchange answered
-- with a status that is not terminal, if the outcome stays unknown, or if the request ended in another
-- exception than a `BinanceOrderError`, as long as the sums fit in 28 digits: a refusal by the breaker,
-- the filters or the risk engine takes none, and a request that failed for sure gives its own back.
pub place_order-Settles :
    (settings : Settings) (enabled square_off : Bool) (world : World) (order : Order)
    (ledger : List RiskReservation) (s : OrderState)
    → Fits world square_off order ledger s.engine
    → Represents s.engine ledger
    → Settles
        (place_order settings enabled false square_off world order s)
        world.answer
        (taken settings enabled square_off world order s)
        ledger
unfolding place_order
place_order-Settles settings false square_off world order ledger s x h =
    unsent-Settles s (order_error 409 false) world.answer ledger h
place_order-Settles settings true square_off world order ledger s x h =
    let b = breaker settings false world s in
    let same = breaker-engine settings false world s in
    passed-Settles settings square_off world order ledger b.0 b.1
      (subst (λ e. Fits world square_off order ledger e) same x)
      (subst (λ e. Represents e ledger) same h)
