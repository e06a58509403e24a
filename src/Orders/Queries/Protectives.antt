-- ===== src/Orders/Queries/Protectives.antt =====
-- Which protective order of a position counts as its exit, and which are cancelled.
use crypto_trading_system.Base.{
  All, Bool, Bool-cases, List, Option, [], ap, false, filter, inl, inr, list_eq, nat_eq, none, not,
  option_beq_iff, option_eq, refl, some, ℕ, ◌++◌, ◌==◌, ◌∙◌, ◌∷◌, ◌≡◌,
}
use crypto_trading_system.Base.Text.{Text, codes}
use crypto_trading_system.Exchange.{Response}
use crypto_trading_system.Exchange.Result.{Result, err, ok}
use crypto_trading_system.Models.Strategy.{Position}
use crypto_trading_system.Orders.Queries.{
  QueryState, cancel_each, cancel_order, cancel_rest, keep_filled, order_id_of, protective_ids,
  query_each, query_order, resolve_protectives,
}

module _ (queries : ℕ → Result Response) where
  abbrev is_filled_answer : Result Response → Bool
  is_filled_answer (err e) = false
  is_filled_answer (ok response) = response.status == some (codes "FILLED")

  -- The answer for the first order that is filled, if one is.
  abbrev pub IsFirstFilled : List ℕ → Option Response → Type 0
  IsFirstFilled ids none = All (λ id. is_filled_answer (queries id) ≡ false) ids
  IsFirstFilled ids (some response) =
      (before : List ℕ) × (id : ℕ) × (behind : List ℕ) × (ids ≡ before ++ id ∷ behind)
      × All (λ i. is_filled_answer (queries i) ≡ false) before
      × (queries id ≡ ok response)
      × (response.status ≡ some (codes "FILLED"))

  -- One order more before the others that is not filled.
  IsFirstFilled-later :
      (id : ℕ) (ids : List ℕ) (found : Option Response)
      → is_filled_answer (queries id) ≡ false
      → IsFirstFilled ids found
      → IsFirstFilled (id ∷ ids) found
  IsFirstFilled-later id ids none h a = (h, a)
  IsFirstFilled-later id ids (some r) h (before, i, behind, e, a, q, st) =
      (id ∷ before, i, behind, ap (λ l. id ∷ l) e, (h, a), q, st)

module _ (user : Option ℕ) (symbol : Text) (queries cancels : ℕ → Result Response) where
  query_each-some :
      (ids : List ℕ) (r : Response) (s : QueryState)
      → (query_each user symbol queries cancels ids (some r) s).1 ≡ some r
  unfolding query_each keep_filled
  query_each-some [] r s = refl
  query_each-some (id ∷ ids) r s =
      query_each-some ids r (query_order user symbol (some id) none (queries id) s).0

  query_answer :
      (id : ℕ) (ids : List ℕ) (s : QueryState) (answer : Result Response)
      → queries id ≡ answer
      → ((s' : QueryState)
          → IsFirstFilled queries ids (query_each user symbol queries cancels ids none s').1)
      → IsFirstFilled queries
          (id ∷ ids)
          (query_each user symbol queries cancels ids (keep_filled none answer) s).1
  unfolding keep_filled
  query_answer id ids s (err e) q rest =
      IsFirstFilled-later queries id ids _ (ap (is_filled_answer queries) q) (rest s)
  query_answer id ids s (ok response) q rest =
      elim (Bool-cases (response.status == some (codes "FILLED"))) [
        | inl is_full ↦ rw is_full (
            rw (query_each-some ids response s) (
              [],
              id,
              ids,
              refl,
              tt,
              q,
              (option_beq_iff response.status (some (codes "FILLED"))).0 is_full,
            ))
        | inr not_filled ↦ rw not_filled (
            IsFirstFilled-later queries id ids _ (ap (is_filled_answer queries) q ∙ not_filled)
              (rest s))
      ]

  query_each-IsFirstFilled :
      (ids : List ℕ) (s : QueryState)
      → IsFirstFilled queries ids (query_each user symbol queries cancels ids none s).1
  unfolding query_each
  query_each-IsFirstFilled [] s = tt
  query_each-IsFirstFilled (id ∷ ids) s =
      query_answer id ids (query_order user symbol (some id) none (queries id) s).0 (queries id)
        refl (query_each-IsFirstFilled ids)

  cancel_each-asks :
      (filled_id : Option ℕ) (ids : List ℕ) (s : QueryState)
      → (cancel_each user symbol queries cancels filled_id ids s).1
        ≡ filter (λ id. not (some id == filled_id)) ids
  unfolding cancel_each
  cancel_each-asks filled_id [] s = refl
  cancel_each-asks filled_id (id ∷ ids) s = elim (Bool-cases (some id == filled_id)) [
    | inl it ↦ rw it (cancel_each-asks filled_id ids s)
    | inr other ↦ rw other (
        ap (λ l. id ∷ l)
          (cancel_each-asks filled_id ids
            (cancel_order user symbol (some id) none (cancels id) s).0))
  ]

  -- The protective order that counts as the exit is the first of the two, the stop loss before the take
  -- profit, whose query answers `FILLED`, and none only if neither does; the exchange is asked to cancel
  -- exactly those with another id than the counted one, all of them if none counts.
  pub resolve_protectives_lem :
      (p : Position) (s : QueryState)
      → let (left, found, asked) = resolve_protectives user symbol queries cancels p s in
        IsFirstFilled queries (protective_ids p) found
        × (asked ≡ filter (λ id. not (some id == order_id_of found)) (protective_ids p))
  unfolding resolve_protectives cancel_rest
  resolve_protectives_lem p s =
      let (asked_state, found) = query_each user symbol queries cancels (protective_ids p) none s in
      (
        query_each-IsFirstFilled (protective_ids p) s,
        cancel_each-asks (order_id_of found) (protective_ids p) asked_state,
      )
