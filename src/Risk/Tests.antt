-- ===== src/Risk/Tests.antt =====
-- Runs of the pre-trade engine, and the theorems about it at these runs.
use crypto_trading_system.Base.{
  [], arith, false, list_eq, nat_eq, none, option_eq, refl, some, true, ◌∷◌, ◌≡◌,
}
use crypto_trading_system.Base.Dict.{get_or, lookup}
use crypto_trading_system.Base.Int.{◌+ℤ◌, ◌-ℤ◌, ◌≤ℤ◌}
use crypto_trading_system.Base.Text.{codes}
use crypto_trading_system.Decimal.{IsExact, decimal, nought, round_signed}
use crypto_trading_system.Exchange.{free_balance}
use crypto_trading_system.Exchange.Result.{ok}
use crypto_trading_system.Risk.{
  RiskEngine, acknowledge_saving, add_reservation, capital_key_eq, key_of, new_engine, release,
  reserve, save_row,
}
use crypto_trading_system.Risk.Grants.{IsGranted, reserve-IsGranted, reserve_covers}
use crypto_trading_system.Risk.Inserted.{reserve-IsSaved}
use crypto_trading_system.Risk.Ledger.{Represents, held}
use crypto_trading_system.Risk.Release.{release_twice}
use crypto_trading_system.Risk.Reserve.{
  FitsLedger, add_reservation-Represents, ledger_after, reserve-Represents,
}
use crypto_trading_system.Risk.Restart.{IsSaved, restart_counts}
use crypto_trading_system.Risk.Samples.{
  account, buy_order, empty-Represents, empty_engine, fits, granted, required-IsExact, reservation,
  rules, two_held,
}
use crypto_trading_system.Risk.Saved.{IsAhead, acknowledge-IsSaved}

reserve-Represents_example :
    let (engine', result) =
      reserve empty_engine
        (some 1)
        buy_order
        rules
        (ok account)
        (ok (decimal 10))
        true
        (codes "a")
        true in
    Represents engine' (ledger_after result [])
reserve-Represents_example =
    reserve-Represents empty_engine (some 1) buy_order rules (ok account) (ok (decimal 10)) true
      (codes "a") true [] fits empty-Represents

room-IsExact :
    IsExact (free_balance account (codes "USDT") -ℤ held (key_of (reservation (codes "a"))) [])
unfolding free_balance held round_signed ◌-ℤ◌
room-IsExact = refl

reserve_covers_example :
    held (key_of (reservation (codes "a"))) (reservation (codes "a") ∷ [])
    ≤ℤ free_balance account (codes "USDT")
reserve_covers_example =
    reserve_covers empty_engine (some 1) buy_order rules (ok account) (ok (decimal 10)) true
      (codes "a") true [] (reservation (codes "a")) account refl empty-Represents room-IsExact
      granted

reserve-IsGranted_example :
    IsGranted empty_engine
      (some 1)
      buy_order
      rules
      (ok account)
      (ok (decimal 10))
      true
      (codes "a")
      true
      (reservation (codes "a"))
reserve-IsGranted_example =
    reserve-IsGranted empty_engine (some 1) buy_order rules (ok account) (ok (decimal 10)) true
      (codes "a") true (reservation (codes "a")) granted

first-IsExact : IsExact (held (key_of (reservation (codes "b"))) [] +ℤ decimal 20)
unfolding held round_signed ◌+ℤ◌
first-IsExact = refl

second-IsExact :
    IsExact (held (key_of (reservation (codes "a"))) (reservation (codes "b") ∷ []) +ℤ decimal 20)
unfolding held round_signed ◌+ℤ◌ key_of
second-IsExact = refl

rest-IsExact : IsExact (held (key_of (reservation (codes "a"))) (reservation (codes "b") ∷ []))
unfolding held round_signed ◌+ℤ◌ key_of
rest-IsExact = refl

less-IsExact :
    IsExact (held (key_of (reservation (codes "a"))) (reservation (codes "b") ∷ []) -ℤ decimal 20)
unfolding held round_signed ◌+ℤ◌ ◌-ℤ◌ key_of
less-IsExact = refl

enough_held : decimal 20 ≤ℤ held (key_of (reservation (codes "a"))) (reservation (codes "b") ∷ [])
unfolding held ◌+ℤ◌ key_of
enough_held = ground arith

two_held-Represents : Represents two_held (reservation (codes "a") ∷ reservation (codes "b") ∷ [])
two_held-Represents =
    add_reservation-Represents (add_reservation empty_engine (reservation (codes "b")))
      (reservation (codes "b") ∷ []) (reservation (codes "a")) (ground arith) second-IsExact
      (add_reservation-Represents empty_engine [] (reservation (codes "b")) (ground arith)
        first-IsExact empty-Represents)

release_twice_example :
    get_or
      (lookup
        (key_of (reservation (codes "a")))
        (release
          (release two_held (some (reservation (codes "a"))))
          (some (reservation (codes "a")))).reserved)
      nought
    ≡ held (key_of (reservation (codes "a"))) (reservation (codes "b") ∷ []) -ℤ decimal 20
release_twice_example =
    release_twice two_held [] (reservation (codes "b") ∷ []) (reservation (codes "a")) rest-IsExact
      less-IsExact two_held-Represents enough_held

abbrev empty_table : RiskEngine
empty_table = record empty_engine { repository = some [] }

empty_table-Represents : Represents empty_table []
unfolding held
empty_table-Represents = record { amounts = λ k. refl; positive = tt }

empty_table-IsSaved : IsSaved empty_table
empty_table-IsSaved = record {
  rows = [];
  saved = refl;
  unique = tt;
  counts = empty_table-Represents;
}

table_fits :
    FitsLedger empty_table
      (some 1)
      buy_order
      rules
      (ok account)
      (ok (decimal 10))
      true
      (codes "a")
      true
      []
unfolding held round_signed
table_fits = record { sum = required-IsExact; held_now = λ asset. refl }

reserve-IsSaved_example :
    IsSaved
      (reserve empty_table
        (some 1)
        buy_order
        rules
        (ok account)
        (ok (decimal 10))
        true
        (codes "a")
        true).0
unfolding empty_table-IsSaved
reserve-IsSaved_example =
    reserve-IsSaved empty_table (some 1) buy_order rules (ok account) (ok (decimal 10)) true
      (codes "a") true empty_table-IsSaved refl table_fits

-- One reservation, and its row.
abbrev one_stored : RiskEngine
one_stored = add_reservation empty_table (reservation (codes "a"))

one_stored-IsSaved : IsSaved one_stored
unfolding add_reservation save_row key_of
one_stored-IsSaved = record {
  rows = (codes "a", (reservation (codes "a"), codes "PENDING")) ∷ [];
  saved = refl;
  unique = (refl, tt);
  counts =
      add_reservation-Represents empty_table [] (reservation (codes "a")) (ground arith)
        first-IsExact empty_table-Represents;
}

restart_counts_example :
    get_or
      (lookup (some 1, codes "USDT") (new_engine (decimal 100) none one_stored.repository).reserved)
      nought
    ≡ get_or (lookup (some 1, codes "USDT") one_stored.reserved) nought
unfolding one_stored-IsSaved key_of
restart_counts_example =
    restart_counts one_stored one_stored-IsSaved (first-IsExact, tt) (decimal 100) none
      (some 1, codes "USDT")

nothing-IsExact : IsExact (held (key_of (reservation (codes "a"))) [])
unfolding held round_signed
nothing-IsExact = refl

acknowledge-IsSaved_example :
    IsSaved (acknowledge_saving true one_stored (some (reservation (codes "a"))) (codes "filled")).0
    × IsAhead
        (codes "filled")
        (reservation (codes "a"))
        ((codes "a", (reservation (codes "a"), codes "PENDING")) ∷ [])
        (acknowledge_saving false one_stored (some (reservation (codes "a"))) (codes "filled"))
unfolding one_stored-IsSaved
acknowledge-IsSaved_example =
    acknowledge-IsSaved one_stored (reservation (codes "a")) (codes "PENDING") (codes "filled")
      one_stored-IsSaved refl nothing-IsExact
