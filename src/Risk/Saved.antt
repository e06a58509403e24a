-- ===== src/Risk/Saved.antt =====
-- The table of reservations stays in step with the engine.
use crypto_trading_system.Base.{
  Bool-cases, List, [], ap, arith, false, if◌then◌else◌, inl, inr, list_beq_iff, list_eq, nat_eq,
  none, option_eq, refl, some, sym, true, ◌++◌, ◌==◌, ◌∙◌, ◌∷◌, ◌≡◌,
}
use crypto_trading_system.Base.Dict.{
  Dict, HasUniqueKeys, erase, erase-HasUniqueKeys, erase-absent, insert, insert-HasUniqueKeys,
  lookup,
}
use crypto_trading_system.Base.Text.{Text, upper}
use crypto_trading_system.Decimal.{IsExact}
use crypto_trading_system.Exchange.Result.{Result, err, risk_error, storage_failed}
use crypto_trading_system.Risk.{
  RiskEngine, RiskReservation, acknowledge_one, acknowledge_saving, delete_row, is_terminal,
  keep_uncertain, key_of, release_one, save_row, status_or_open, written,
}
use crypto_trading_system.Risk.Ledger.{Represents, held}
use crypto_trading_system.Risk.Release.{release_one-Represents}
use crypto_trading_system.Risk.Restart.{IsSaved, stored_of}

-- One row of the table, and the rows around it.
record SplitsAt (id : Text) (r : RiskReservation) (rows : Dict Text (RiskReservation × Text))
    : Type 0 where
  before : List RiskReservation
  behind : List RiskReservation
  around : stored_of rows ≡ before ++ r ∷ behind
  without : stored_of (erase id rows) ≡ before ++ behind
  rewritten : (status : Text) → stored_of (insert id (r, status) rows) ≡ stored_of rows

split-lookup :
    (id status : Text) (r : RiskReservation) (rows : Dict Text (RiskReservation × Text))
    → HasUniqueKeys rows
    → lookup id rows ≡ some (r, status)
    → SplitsAt id r rows
split-lookup id status r [] u h = absurd (ground (arith, h))
split-lookup id status r ((j, row) ∷ rows) u h = elim (Bool-cases (j == id)) [
  | inl same ↦
      let row_is : row ≡ (r, status) = ground (arith, rw same at h) in
      let absent : lookup id rows ≡ none =
        ap (λ i. lookup i rows) (sym ((list_beq_iff j id).0 same)) ∙ u.0 in
      record {
        before = [];
        behind = stored_of rows;
        around = rw row_is refl;
        without = rw same (ap stored_of (erase-absent id rows absent));
        rewritten = λ new. rw same (rw row_is refl);
      }
  | inr other ↦
      let rest = split-lookup id status r rows u.1 (rw other at h) in
      record {
        before = row.0 ∷ rest.before;
        behind = rest.behind;
        around = ap (λ l. row.0 ∷ l) rest.around;
        without = rw other (ap (λ l. row.0 ∷ l) rest.without);
        rewritten = λ new. rw other (ap (λ l. row.0 ∷ l) (rest.rewritten new));
      }
]

release_one-counts :
    (engine : RiskEngine) (r : RiskReservation) (status : Text) (s : IsSaved engine)
    → lookup r.reservation_id s.rows ≡ some (r, status)
    → IsExact (held (key_of r) (stored_of (erase r.reservation_id s.rows)))
    → Represents (release_one engine r) (stored_of (erase r.reservation_id s.rows))
release_one-counts engine r status s h x =
    let at = split-lookup r.reservation_id status r s.rows s.unique h in
    rw at.without (
      release_one-Represents engine at.before at.behind r (rw at.without at x)
        (rw (sym at.around) s.counts))

keep_uncertain-counts :
    (engine : RiskEngine) (r : RiskReservation) (new : Text) (ledger : List RiskReservation)
    → Represents engine ledger
    → Represents (keep_uncertain engine r new) ledger
unfolding keep_uncertain
keep_uncertain-counts engine r new ledger h = record { amounts = h.amounts; positive = h.positive }

release_one-IsSaved :
    (engine : RiskEngine) (r : RiskReservation) (status : Text) (s : IsSaved engine)
    → lookup r.reservation_id s.rows ≡ some (r, status)
    → IsExact (held (key_of r) (stored_of (erase r.reservation_id s.rows)))
    → IsSaved (release_one engine r)
unfolding release_one delete_row
release_one-IsSaved engine r status s h x = record {
  rows = erase r.reservation_id s.rows;
  saved = ap (delete_row r.reservation_id) s.saved;
  unique = erase-HasUniqueKeys r.reservation_id s.rows s.unique;
  counts = release_one-counts engine r status s h x;
}

keep_uncertain-IsSaved :
    (engine : RiskEngine) (r : RiskReservation) (status new : Text) (s : IsSaved engine)
    → lookup r.reservation_id s.rows ≡ some (r, status)
    → IsSaved (keep_uncertain engine r new)
unfolding keep_uncertain save_row
keep_uncertain-IsSaved engine r status new s h =
    let at = split-lookup r.reservation_id status r s.rows s.unique h in
    record {
      rows = insert r.reservation_id (r, new) s.rows;
      saved = ap (save_row new r) s.saved;
      unique = insert-HasUniqueKeys r.reservation_id (r, new) s.rows s.unique;
      counts =
          rw (at.rewritten new) (keep_uncertain-counts engine r new (stored_of s.rows) s.counts);
    }

-- The rows whose capital is still needed behind the status that the exchange told.
abbrev pub needed :
    Text → RiskReservation → Dict Text (RiskReservation × Text) → Dict Text (RiskReservation × Text)
needed told r rows = if is_terminal (upper told) then erase r.reservation_id rows else rows

-- The engine has made its change and the write has raised: the table has the rows from before.
pub record IsAhead (told : Text) (r : RiskReservation) (rows : Dict Text (RiskReservation × Text))
    (left : RiskEngine × Result (Unit {0})) : Type 0 where
  pub raises : left.1 ≡ err (risk_error storage_failed)
  pub counts : Represents left.0 (stored_of (needed told r rows))
  pub table : left.0.repository ≡ some rows

acknowledge_one-IsSaved :
    (engine : RiskEngine) (r : RiskReservation) (status told : Text) (s : IsSaved engine)
    → lookup r.reservation_id s.rows ≡ some (r, status)
    → IsExact (held (key_of r) (stored_of (erase r.reservation_id s.rows)))
    → IsSaved (acknowledge_one engine r told)
unfolding acknowledge_one
acknowledge_one-IsSaved engine r status told s h x = elim (Bool-cases (is_terminal (upper told))) [
  | inl terminal ↦ rw terminal (release_one-IsSaved engine r status s h x)
  | inr live ↦ rw live (keep_uncertain-IsSaved engine r status (status_or_open (upper told)) s h)
]

acknowledge_one-counts :
    (engine : RiskEngine) (r : RiskReservation) (status told : Text) (s : IsSaved engine)
    → lookup r.reservation_id s.rows ≡ some (r, status)
    → IsExact (held (key_of r) (stored_of (erase r.reservation_id s.rows)))
    → Represents (acknowledge_one engine r told) (stored_of (needed told r s.rows))
unfolding acknowledge_one
acknowledge_one-counts engine r status told s h x = elim (Bool-cases (is_terminal (upper told))) [
  | inl terminal ↦ rw terminal (release_one-counts engine r status s h x)
  | inr live ↦
      rw live
        (keep_uncertain-counts engine r (status_or_open (upper told)) (stored_of s.rows) s.counts)
]

written-raises :
    (engine after : RiskEngine) (rows : Dict Text (RiskReservation × Text))
    → engine.repository ≡ some rows
    → written false engine after
      ≡ (record after { repository = some rows }, err (risk_error storage_failed))
written-raises engine after rows e = rw e refl

-- Acknowledging an outstanding order keeps the table and the engine in step, whatever its status says, if
-- the write returns. If the write raises, the engine has made its change all the same: it counts the
-- other reservations, and this one just if the status is not terminal, while the table has its old rows,
-- so that of an order that is over too. Both hold if what the other reservations hold of its account and
-- asset fits in 28 digits.
pub acknowledge-IsSaved :
    (engine : RiskEngine) (r : RiskReservation) (status told : Text) (s : IsSaved engine)
    → lookup r.reservation_id s.rows ≡ some (r, status)
    → IsExact (held (key_of r) (stored_of (erase r.reservation_id s.rows)))
    → IsSaved (acknowledge_saving true engine (some r) told).0
      × IsAhead told r s.rows (acknowledge_saving false engine (some r) told)
unfolding acknowledge_saving
acknowledge-IsSaved engine r status told s h x =
    let counted = acknowledge_one-counts engine r status told s h x in
    (
      acknowledge_one-IsSaved engine r status told s h x,
      rw (written-raises engine (acknowledge_one engine r told) s.rows s.saved) (record {
        raises = refl;
        counts = record { amounts = counted.amounts; positive = counted.positive };
        table = refl;
      }),
    )
