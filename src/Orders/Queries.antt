-- ===== src/Orders/Queries.antt =====
-- services/order_service.py: queries and cancels of one order, `_reconcile_account_reservations` and
-- `_resolve_protectives`. The answers of the exchange are arguments.
pub mod Reconciled
pub mod Protectives
mod Tests
use crypto_trading_system.Base.{
  List, Option, [], false, if◌then◌else◌, is_empty, list_eq, nat_eq, none, option_eq, some, ℕ, ◌++◌,
  ◌==◌, ◌∷◌,
}
use crypto_trading_system.Base.Dict.{get_or}
use crypto_trading_system.Base.Text.{Text, codes}
use crypto_trading_system.Exchange.{Response}
use crypto_trading_system.Exchange.Result.{Result, err, ok, order_error}
use crypto_trading_system.Models.Strategy.{Position}
use crypto_trading_system.Orders.Matches.{MatchBook, record_filled}
use crypto_trading_system.Orders.Placement.{is_given}
use crypto_trading_system.Risk.{
  RiskEngine, RiskReservation, acknowledge, acknowledge_client, pending_reservations,
}

-- What these methods change: the risk engine and the tracked orders; `recorded` are the answers handed
-- to `_record`.
pub record QueryState : Type 0 where
  pub engine : RiskEngine
  pub book : MatchBook
  pub recorded : List Response

pub data Reference : Type 0 where
  by_order : ℕ → Reference
  by_client : Text → Reference

-- `_order_reference`
unfoldable pub order_reference : Option ℕ → Option Text → Result Reference
order_reference (some id) client_id = ok (by_order id)
order_reference none client_id =
    if is_given client_id then ok (by_client (get_or client_id [])) else err (order_error 422 false)

-- `str(response.get("status") or default)`
unfoldable pub status_or : Text → Response → Text
status_or default response = if is_given response.status then get_or response.status [] else default

-- `response.get("clientOrderId") or client_id or ""`
unfoldable pub client_of : Response → Option Text → Text
client_of response client_id =
    if is_given response.client_order_id
    then get_or response.client_order_id []
    else get_or client_id []

-- The answer settles its reservation and is recorded.
unfoldable pub settle : Text → Option ℕ → Text → Option Text → Response → QueryState → QueryState
settle default user symbol client_id response s = record s {
  engine =
      acknowledge_client s.engine user (client_of response client_id) (status_or default response);
  book = record_filled user symbol response.side response s.book;
  recorded = s.recorded ++ response ∷ [];
}

unfoldable pub settled :
    Text
    → Option ℕ
    → Text
    → Option Text
    → Result Response
    → QueryState
    → QueryState × Result Response
settled default user symbol client_id (err e) s = (s, err e)
settled default user symbol client_id (ok response) s =
    (settle default user symbol client_id response s, ok response)

unfoldable pub referred :
    Text
    → Option ℕ
    → Text
    → Option Text
    → Result Response
    → QueryState
    → Result Reference
    → QueryState × Result Response
referred default user symbol client_id answer s (err e) = (s, err e)
referred default user symbol client_id answer s (ok reference) =
    settled default user symbol client_id answer s

unfoldable pub query_order :
    Option ℕ
    → Text
    → Option ℕ
    → Option Text
    → Result Response
    → QueryState
    → QueryState × Result Response
query_order user symbol order_id client_id answer s =
    referred (codes "UNKNOWN") user symbol client_id answer s (order_reference order_id client_id)

unfoldable pub cancel_order :
    Option ℕ
    → Text
    → Option ℕ
    → Option Text
    → Result Response
    → QueryState
    → QueryState × Result Response
cancel_order user symbol order_id client_id answer s =
    referred (codes "CANCELED") user symbol client_id answer s (order_reference order_id client_id)

-- One reservation of `_reconcile_account_reservations`: without a client order id it is passed over, and
-- a query that fails leaves it for later.
unfoldable pub reconcile_answer : RiskReservation → Result Response → RiskEngine → RiskEngine
reconcile_answer r (err e) engine = engine
reconcile_answer r (ok response) engine =
    acknowledge engine (some r) (status_or (codes "UNKNOWN") response)

unfoldable pub reconcile_one :
    (RiskReservation → Result Response) → RiskReservation → RiskEngine → RiskEngine
reconcile_one answers r engine =
    if is_empty r.client_order_id then engine else reconcile_answer r (answers r) engine

unfoldable pub reconcile_each :
    (RiskReservation → Result Response) → List RiskReservation → RiskEngine → RiskEngine
reconcile_each answers [] engine = engine
reconcile_each answers (r ∷ rs) engine = reconcile_each answers rs (reconcile_one answers r engine)

unfoldable pub reconcile_account_reservations :
    (RiskReservation → Result Response) → ℕ → RiskEngine → RiskEngine
reconcile_account_reservations answers user engine =
    reconcile_each answers (pending_reservations engine (some user)) engine

-- The protective orders of a position, the stop loss first.
unfoldable pub protective_ids : Position → List ℕ
protective_ids p = somes (p.stop_loss_order_id ∷ p.take_profit_order_id ∷ [])
  where
    somes : List (Option ℕ) → List ℕ
    somes [] = []
    somes (none ∷ os) = somes os
    somes (some id ∷ os) = id ∷ somes os

-- `filled`: the first answer that is `FILLED`.
unfoldable pub keep_filled : Option Response → Result Response → Option Response
keep_filled (some found) answer = some found
keep_filled none (err e) = none
keep_filled none (ok response) =
    if response.status == some (codes "FILLED") then some response else none

unfoldable pub order_id_of : Option Response → Option ℕ
order_id_of none = none
order_id_of (some response) = response.order_id

module _ (user : Option ℕ) (symbol : Text) (queries cancels : ℕ → Result Response) where
  unfoldable pub query_each : List ℕ → Option Response → QueryState → QueryState × Option Response
  query_each [] found s = (s, found)
  query_each (id ∷ ids) found s =
      query_each ids (keep_filled found (queries id))
        (query_order user symbol (some id) none (queries id) s).0

  -- The survivors are cancelled; the list is what the exchange was asked to cancel.
  unfoldable pub cancel_each : Option ℕ → List ℕ → QueryState → QueryState × List ℕ
  cancel_each filled_id [] s = (s, [])
  cancel_each filled_id (id ∷ ids) s =
      if some id == filled_id
      then cancel_each filled_id ids s
      else (let rest =
            cancel_each filled_id ids (cancel_order user symbol (some id) none (cancels id) s).0 in
          (rest.0, id ∷ rest.1))

  unfoldable pub cancel_rest :
      List ℕ → QueryState × Option Response → QueryState × Option Response × List ℕ
  cancel_rest ids (s, found) =
      let rest = cancel_each (order_id_of found) ids s in (rest.0, found, rest.1)

  unfoldable pub resolve_protectives : Position → QueryState → QueryState × Option Response × List ℕ
  resolve_protectives p s = cancel_rest (protective_ids p) (query_each (protective_ids p) none s)
