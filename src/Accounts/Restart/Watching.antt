-- ===== src/Accounts/Restart/Watching.antt =====
-- After a restart the stored open positions are watched again: a tick that reaches the stop or the target
-- of one starts its exit.
use crypto_trading_system.Accounts.Restart.Loaded.{
  empty_book, keep_position, load_both, load_owned, load_shared, restore_positions,
}
use crypto_trading_system.Base.{
  Bool, Bool-cases, Option, [], ap, arith, false, inl, inr, list_beq_iff, list_eq, nat_eq, none,
  option_eq, refl, some, sym, true, ℕ, ◌&&◌, ◌==◌, ◌∙◌, ◌∷◌, ◌≡◌,
}
use crypto_trading_system.Base.Dict.{
  Dict, HasUniqueKeys, add, get_or, lookup, lookup-insert, mem, mem-add,
}
use crypto_trading_system.Base.Text.{Text}
use crypto_trading_system.Database.{
  OwnerKey, Tables, owner_key_beq, owner_key_beq_iff, owner_key_eq,
}
use crypto_trading_system.Database.Holdings.{
  load_positions, load_user_positions, read_after, read_positions,
}
use crypto_trading_system.Database.Owners.{Every}
use crypto_trading_system.Database.Schema.{owned}
use crypto_trading_system.Models.Common.{
  ExitReason, StrategyVariant, is_open, variant_beq_iff, variant_eq,
}
use crypto_trading_system.Models.Market.{Tick}
use crypto_trading_system.Models.Strategy.{Position, position_accepts}
use crypto_trading_system.Positions.{
  process_tick, PositionBook, PositionKey, exit_reason, mark_price, position_key_beq_iff,
  position_key_eq,
}
use crypto_trading_system.Positions.Watch.{keys_of, process_tick-finds}

read_after-same {ℓ} :
    {K : Type ℓ} (k : K) (p : Position) (d : Dict K Position) (o : Option (Dict K Position))
    (read : Dict K Position)
    → read_positions d ≡ o
    → ((rest : Dict K Position) → read_positions d ≡ some rest → d ≡ rest)
    → read_after k p o ≡ some read
    → (k, p) ∷ d ≡ read
unfolding read_after
read_after-same k p d none read q same e = absurd (ground (arith, e))
read_after-same k p d (some rest) read q same e = elim (Bool-cases (position_accepts p)) [
  | inl good ↦ ap (λ l. (k, p) ∷ l) (same rest q) ∙ ground (arith, rw good at e)
  | inr bad ↦ absurd (ground (arith, bad, e))
]

read_positions-same {ℓ} :
    {K : Type ℓ} (d read : Dict K Position) → read_positions d ≡ some read → d ≡ read
unfolding read_positions
read_positions-same [] read h = ground (arith, h)
read_positions-same ((k, p) ∷ d) read h =
    read_after-same k p d (read_positions d) read refl (read_positions-same d) h

-- A row stands under the account, the symbol and the variant of its position.
abbrev pub is_own : OwnerKey → Position → Bool
is_own k q = k.1 == q.symbol && k.2 == q.variant

module _ (user : ℕ) (p : Position) where
  abbrev pub its_key : PositionKey
  its_key = (some user, p.symbol, p.variant)

  -- The book has the position, also under its symbol.
  record IsLoaded (book : PositionBook) : Type 0 where
    stands : lookup its_key book.positions ≡ some p
    indexed : mem its_key (get_or (lookup p.symbol book.positions_by_symbol) []) ≡ true
    idle : book.inflight ≡ []

  keep-its_own :
      (book : PositionBook) → book.inflight ≡ [] → IsLoaded (keep_position its_key p book)
  unfolding keep_position
  keep-its_own book i =
      let self : (its_key == its_key) ≡ true = (position_key_beq_iff its_key its_key).1 refl in
      let symbol_self : (p.symbol == p.symbol) ≡ true = (list_beq_iff p.symbol p.symbol).1 refl in
      record {
        stands = lookup-insert its_key its_key p book.positions ∙ rw self refl;
        indexed =
            rw
              (lookup-insert p.symbol p.symbol
                (add its_key (get_or (lookup p.symbol book.positions_by_symbol) []))
                book.positions_by_symbol)
              (rw symbol_self (
                mem-add its_key its_key (get_or (lookup p.symbol book.positions_by_symbol) [])
                ∙ rw self refl));
        idle = i;
      }

  keep-idle :
      (key : PositionKey) (q : Position) (book : PositionBook)
      → book.inflight ≡ []
      → (keep_position key q book).inflight ≡ []
  unfolding keep_position
  keep-idle key q book i = i

  keep-other :
      (key : PositionKey) (q : Position) (book : PositionBook)
      → (key == its_key) ≡ false
      → IsLoaded book
      → IsLoaded (keep_position key q book)
  unfolding keep_position
  keep-other key q book d h = record {
    stands = lookup-insert key its_key q book.positions ∙ rw d h.stands;
    indexed =
        rw
          (lookup-insert q.symbol p.symbol
            (add key (get_or (lookup q.symbol book.positions_by_symbol) []))
            book.positions_by_symbol)
          (elim (Bool-cases (q.symbol == p.symbol)) [
            | inl same ↦ rw same (
                mem-add key its_key (get_or (lookup q.symbol book.positions_by_symbol) [])
                ∙ rw d (
                    ap (λ s. mem its_key (get_or (lookup s book.positions_by_symbol) []))
                      ((list_beq_iff q.symbol p.symbol).0 same)
                    ∙ h.indexed))
            | inr other ↦ rw other h.indexed
          ]);
    idle = h.idle;
  }

  own_key : (k : OwnerKey) (q : Position) → is_own k q ≡ true → k ≡ (k.0, q.symbol, q.variant)
  own_key (i, s, v) q h =
      let symbols : s ≡ q.symbol = (list_beq_iff s q.symbol).0 (ground (arith, h)) in
      let variants : v ≡ q.variant = (variant_beq_iff v q.variant).0 (ground (arith, h)) in
      ap (λ x. (i, x, v)) symbols ∙ ap (λ x. (i, q.symbol, x)) variants

  other_row :
      (k : OwnerKey) (q : Position) (d : Dict OwnerKey Position)
      → is_own k q ≡ true
      → lookup (user, p.symbol, p.variant) ((k, q) ∷ d) ≡ none
      → ((some k.0, q.symbol, q.variant) == its_key) ≡ false
  other_row k q d h n =
      let row : owner_key_beq k (user, p.symbol, p.variant) ≡ false = ground (arith, n) in
      let moved : owner_key_beq (k.0, q.symbol, q.variant) (user, p.symbol, p.variant) ≡ false =
        ap (λ j. owner_key_beq j (user, p.symbol, p.variant)) (sym (own_key k q h)) ∙ row in
      ground (arith, moved)

  load_owned-keeps :
      (d : Dict OwnerKey Position) (book : PositionBook)
      → Every is_own d
      → lookup (user, p.symbol, p.variant) d ≡ none
      → IsLoaded book
      → IsLoaded (load_owned d book)
  unfolding load_owned
  load_owned-keeps [] book o n h = h
  load_owned-keeps ((k, q) ∷ d) book o n h =
      load_owned-keeps d (keep_position (some k.0, q.symbol, q.variant) q book) o.1
        (ground (arith, n))
        (keep-other (some k.0, q.symbol, q.variant) q book (other_row k q d o.0 n) h)

  load_owned-loads :
      (d : Dict OwnerKey Position) (book : PositionBook)
      → HasUniqueKeys d
      → Every is_own d
      → lookup (user, p.symbol, p.variant) d ≡ some p
      → book.inflight ≡ []
      → IsLoaded (load_owned d book)
  unfolding load_owned
  load_owned-loads [] book u o h i = absurd (ground (arith, h))
  load_owned-loads ((k, q) ∷ d) book u o h i =
      elim (Bool-cases (k == (user, p.symbol, p.variant))) [
        | inl same ↦
            let row : q ≡ p = ground (arith, rw same at h) in
            let k_is : k ≡ (user, p.symbol, p.variant) =
              (owner_key_beq_iff k (user, p.symbol, p.variant)).0 same in
            let none_later : lookup (user, p.symbol, p.variant) d ≡ none =
              ap (λ j. lookup j d) (sym k_is) ∙ u.0 in
            load_owned-keeps d (keep_position (some k.0, q.symbol, q.variant) q book) o.1 none_later
              (rw (row, k_is) (keep-its_own book i))
        | inr other ↦
            load_owned-loads d (keep_position (some k.0, q.symbol, q.variant) q book) u.1 o.1
              (rw other at h) (keep-idle (some k.0, q.symbol, q.variant) q book i)
      ]

load_shared-idle :
    (d : Dict (Text × StrategyVariant) Position) (book : PositionBook)
    → book.inflight ≡ []
    → (load_shared d book).inflight ≡ []
unfolding load_shared keep_position
load_shared-idle [] book i = i
load_shared-idle ((k, q) ∷ d) book i =
    load_shared-idle d (keep_position (none, q.symbol, q.variant) q book) i

restored :
    (db : Tables) (shared : Option (Dict (Text × StrategyVariant) Position))
    (owned : Option (Dict OwnerKey Position)) (book : PositionBook)
    → ((rest : Dict OwnerKey Position) → owned ≡ some rest → db.user_positions ≡ rest)
    → load_both shared owned empty_book ≡ some book
    → (start : PositionBook) × (start.inflight ≡ []) × (load_owned db.user_positions start ≡ book)
unfolding load_both
restored db none owned book same e = absurd (ground (arith, e))
restored db (some d) none book same e = absurd (ground (arith, e))
restored db (some d) (some rest) book same e = (
  load_shared d empty_book,
  load_shared-idle d empty_book refl,
  ap (λ l. load_owned l (load_shared d empty_book)) (same rest refl) ∙ ground (arith, e),
)

-- A new process that could read all stored positions exits a stored open position of an account that may
-- trade at the first tick after the load, if the tick is of its symbol and its price reaches its stop or
-- its target, and if each row stands under the account, the symbol and the variant of its position.
pub restart-watches :
    (db : Tables) (book : PositionBook) (user : ℕ) (p : Position) (enabled : Option ℕ → Bool)
    (tick : Tick) (reason : ExitReason)
    → restore_positions db ≡ some book
    → HasUniqueKeys db.user_positions
    → Every (is_own) db.user_positions
    → lookup (user, p.symbol, p.variant) db.user_positions ≡ some p
    → is_open p.status ≡ true
    → enabled (some user) ≡ true
    → (p.symbol == tick.symbol) ≡ true
    → exit_reason tick.price (mark_price tick.price p) ≡ some reason
    → mem (its_key user p) (keys_of (process_tick enabled tick book).1) ≡ true
unfolding restore_positions load_positions load_user_positions
restart-watches db book user p enabled tick reason loads unique owns stored opened allowed of_symbol
      reaches =
    let (start, quiet, is_book) =
      restored db (read_positions db.positions) (read_positions db.user_positions) book
        (read_positions-same db.user_positions) loads in
    let here = load_owned-loads user p db.user_positions start unique owns stored quiet in
    rw (← is_book) (
      process_tick-finds enabled tick (its_key user p) p reason of_symbol opened allowed reaches
        (load_owned db.user_positions start)
        (ap
            (λ s.
              mem (its_key user p)
                (get_or (lookup s (load_owned db.user_positions start).positions_by_symbol) []))
            (sym ((list_beq_iff p.symbol tick.symbol).0 of_symbol))
          ∙ here.indexed)
        (record { stands = here.stands; idle = ap (mem (its_key user p)) here.idle }))
