-- ===== src/Database/Reports.antt =====
-- services/db_handler.py: the tables `order_matches` and `risk_reservations`.
use crypto_trading_system.Base.{
  List, Option, [], if◌then◌else◌, list_eq, nat_eq, none, option_eq, some, ℕ, ◌&&◌, ◌==◌, ◌∷◌,
}
use crypto_trading_system.Base.Dict.{Dict, erase, insert, lookup}
use crypto_trading_system.Base.Text.{Text}
use crypto_trading_system.Database.{MatchRow, Stored, Tables, for_user}
use crypto_trading_system.Database.Holdings.{insert_new, is_wanted}
use crypto_trading_system.Database.Newest.{newest}
use crypto_trading_system.Orders.Matches.{MatchKey, match_key_eq}
use crypto_trading_system.Risk.{RiskReservation}

unfoldable pub record_order_match_row : Tables → ℕ → MatchRow → Stored Tables
record_order_match_row db user_id row =
    let m = row.match in
    for_user db user_id (record db {
      order_matches = insert_new (user_id, m.entry_order_id, m.exit_order_id) row db.order_matches;
    })

unfoldable pub matches_of : ℕ → Option Text → Dict MatchKey MatchRow → List MatchRow
matches_of user_id symbol [] = []
matches_of user_id symbol ((key, row) ∷ d) =
    if key.0 == user_id && is_wanted symbol row.match.symbol
    then row ∷ matches_of user_id symbol d
    else matches_of user_id symbol d

unfoldable pub get_order_matches : Tables → ℕ → Option Text → ℕ → List MatchRow
get_order_matches db user_id symbol max_rows =
    newest (λ (r : MatchRow). r.recorded_at) max_rows (matches_of user_id symbol db.order_matches)

-- `DO UPDATE`: the amount and the status of an old row change.
unfoldable pub updated_row :
    RiskReservation → Text → Option (RiskReservation × Text) → RiskReservation × Text
updated_row r status none = (r, status)
updated_row r status (some old) = (record old.0 { amount = r.amount }, status)

unfoldable pub save_risk_reservation : Tables → RiskReservation → Text → Tables
save_risk_reservation db r status = record db {
  risk_reservations =
      insert r.reservation_id (updated_row r status (lookup r.reservation_id db.risk_reservations))
        db.risk_reservations;
}

unfoldable pub delete_risk_reservation : Tables → Text → Tables
delete_risk_reservation db reservation_id = record db {
  risk_reservations = erase reservation_id db.risk_reservations;
}

unfoldable pub load_risk_reservations : Tables → Dict Text (RiskReservation × Text)
load_risk_reservations db = db.risk_reservations
