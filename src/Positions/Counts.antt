-- ===== src/Positions/Counts.antt =====
-- How many positions of an account are open or about to be, under each write to the book.
use crypto_trading_system.Base.{
  Bool, Bool-cases, List, Option, [], arith, false, if◌then◌else◌, inl, inr, leb, list_eq, nat_eq,
  not, option_beq_iff, option_eq, refl, sym, true, ℕ, ◌&&◌, ◌++◌, ◌+◌, ◌<◌, ◌==◌, ◌∷◌, ◌≡◌, ◌≤◌,
}
use crypto_trading_system.Base.Dict.{Dict, add, discard, insert, lookup, lookup-insert, mem}
use crypto_trading_system.Models.Common.{is_open}
use crypto_trading_system.Models.Strategy.{Position}
use crypto_trading_system.Positions.{
  PositionBook, PositionKey, admit_entry, finish_signal, is_open_position, open_count,
  pending_count, position_key_beq_iff, position_key_eq, start_flow, store_entry,
}

-- Keys whose entry is under way and whose position is not open yet.
unfoldable pub waiting_count : Option ℕ → Dict PositionKey Position → List PositionKey → ℕ
waiting_count owner positions [] = 0
waiting_count owner positions (k ∷ ks) =
    (if k.0 == owner && not (is_open_position (lookup k positions)) then 1 else 0)
    + waiting_count owner positions ks

-- Open positions of the account, and entries under way.
unfoldable pub occupied : Option ℕ → PositionBook → ℕ
occupied owner book =
    open_count owner book.positions + waiting_count owner book.positions book.pending_entries

one_if : Bool → ℕ
one_if true = 1
one_if false = 0

-- The count under a write: the new status counts in place of the old one.
open_count-insert :
    (owner : Option ℕ) (key : PositionKey) (p : Position) (d : Dict PositionKey Position)
    → open_count owner (insert key p d)
        + (if key.0 == owner && is_open_position (lookup key d) then 1 else 0)
      ≡ open_count owner d + (if key.0 == owner && is_open p.status then 1 else 0)
unfolding open_count
open_count-insert owner key p [] = ground arith
open_count-insert owner key p ((j, q) ∷ d) = elim (Bool-cases (j == key)) [
  | inl same ↦ let e = (position_key_beq_iff j key).0 same in rw same (rw e (omega arith))
  | inr other ↦ rw other (omega (arith, open_count-insert owner key p d))
]

waiting-le-pending :
    (owner : Option ℕ) (positions : Dict PositionKey Position) (ks : List PositionKey)
    → waiting_count owner positions ks ≤ pending_count owner ks
unfolding waiting_count pending_count
waiting-le-pending owner positions [] = omega arith
waiting-le-pending owner positions (k ∷ ks) = ground (arith, waiting-le-pending owner positions ks)

waiting_count-append :
    (owner : Option ℕ) (positions : Dict PositionKey Position) (k : PositionKey)
    (ks : List PositionKey)
    → waiting_count owner positions (ks ++ k ∷ [])
      ≤ waiting_count owner positions ks + (if k.0 == owner then 1 else 0)
unfolding waiting_count
waiting_count-append owner positions k [] = ground arith
waiting_count-append owner positions k (j ∷ ks) =
    omega (arith, waiting_count-append owner positions k ks)

waiting_count-add :
    (owner : Option ℕ) (positions : Dict PositionKey Position) (k : PositionKey)
    (ks : List PositionKey)
    → waiting_count owner positions (add k ks)
      ≤ waiting_count owner positions ks + (if k.0 == owner then 1 else 0)
waiting_count-add owner positions k ks = elim (Bool-cases (mem k ks)) [
  | inl e ↦ rw e (omega arith)
  | inr e ↦ rw e (waiting_count-append owner positions k ks)
]

waiting_count-discard :
    (owner : Option ℕ) (positions : Dict PositionKey Position) (k : PositionKey)
    (ks : List PositionKey)
    → waiting_count owner positions (discard k ks) ≤ waiting_count owner positions ks
unfolding waiting_count
waiting_count-discard owner positions k [] = omega arith
waiting_count-discard owner positions k (j ∷ ks) =
    ground (arith, waiting_count-discard owner positions k ks)

-- A position that opens is no longer waited for, so the entry that is under way takes no more room.
waiting_count-open :
    (owner : Option ℕ) (key : PositionKey) (p : Position) (d : Dict PositionKey Position)
    (ks : List PositionKey)
    → is_open p.status ≡ true
    → waiting_count owner (insert key p d) ks
        + (if mem key ks && (key.0 == owner && not (is_open_position (lookup key d))) then 1 else 0)
      ≤ waiting_count owner d ks
unfolding waiting_count
waiting_count-open owner key p d [] h = omega arith
waiting_count-open owner key p d (k ∷ ks) h = elim (Bool-cases (key == k)) [
  | inl same ↦
      (let e = (position_key_beq_iff key k).0 same in
        let s : (k == key) ≡ true = (position_key_beq_iff k key).1 (sym e) in
        rw (lookup-insert key k p d, same, s, h, ← e)
          (ground (arith, waiting_count-open owner key p d ks h)))
  | inr other ↦
      (let s : (k == key) ≡ false =
          ground (arith, position_key_beq_iff k key, position_key_beq_iff key k) in
        rw (lookup-insert key k p d, other, s)
          (omega (arith, waiting_count-open owner key p d ks h)))
]

-- A write that leaves the status as it was leaves what is waited for.
waiting_count-same :
    (owner : Option ℕ) (key : PositionKey) (p : Position) (d : Dict PositionKey Position)
    (ks : List PositionKey)
    → is_open_position (lookup key d) ≡ is_open p.status
    → waiting_count owner (insert key p d) ks ≡ waiting_count owner d ks
unfolding waiting_count
waiting_count-same owner key p d [] h = refl
waiting_count-same owner key p d (k ∷ ks) h = elim (Bool-cases (key == k)) [
  | inl same ↦
      (let e = (position_key_beq_iff key k).0 same in
        rw (lookup-insert key k p d, same, ← e, ← h)
          (omega (arith, waiting_count-same owner key p d ks h)))
  | inr other ↦
      rw (lookup-insert key k p d, other) (omega (arith, waiting_count-same owner key p d ks h))
]

-- A position that closes may be waited for again, at most once for each time that it is listed.
waiting_count-write :
    (owner : Option ℕ) (key : PositionKey) (p : Position) (d : Dict PositionKey Position)
    (ks : List PositionKey)
    → mem key ks ≡ false
    → waiting_count owner (insert key p d) ks ≡ waiting_count owner d ks
unfolding waiting_count
waiting_count-write owner key p d [] h = refl
waiting_count-write owner key p d (k ∷ ks) h = elim (Bool-cases (key == k)) [
  | inl same ↦ absurd (
      let e = (position_key_beq_iff key k).0 same in
      let s = (position_key_beq_iff k key).1 (sym e) in ground (arith, s, h))
  | inr other ↦
      (let rest : mem key ks ≡ false = ground (arith, h) in
        rw (lookup-insert key k p d, other)
          (omega (arith, waiting_count-write owner key p d ks rest)))
]

-- The room that an account takes under each block of the source.
pub occupied-mark :
    (owner : Option ℕ) (key : PositionKey) (p : Position) (book : PositionBook)
    → is_open_position (lookup key book.positions) ≡ is_open p.status
    → occupied owner (record book { positions = insert key p book.positions }) ≡ occupied owner book
unfolding occupied
occupied-mark owner key p book h =
    let a = open_count-insert owner key p book.positions in
    let b = waiting_count-same owner key p book.positions book.pending_entries h in
    ground (arith, a, b, h)

gate-open : (m n : ℕ) → leb m n ≡ false → n < m
gate-open m n h = ground (arith, h)

pub occupied-admit_entry :
    (max_open : ℕ) (owner : Option ℕ) (key : PositionKey) (book : PositionBook)
    → occupied owner book ≤ max_open
    → occupied owner (admit_entry max_open key book).0 ≤ max_open
unfolding occupied admit_entry start_flow
occupied-admit_entry max_open owner key book h =
    elim (Bool-cases
      (leb max_open (open_count key.0 book.positions + pending_count key.0 book.pending_entries))) [
        | inl full ↦ rw full h
        | inr room ↦ rw room (elim (Bool-cases (key.0 == owner)) [
          | inl same ↦
              (let e = (option_beq_iff key.0 owner).0 same in
                let a = waiting_count-add owner book.positions key book.pending_entries in
                let b = waiting-le-pending owner book.positions book.pending_entries in
                let c =
                  gate-open max_open
                    (open_count key.0 book.positions + pending_count key.0 book.pending_entries)
                    room in
                let d : open_count owner book.positions + pending_count owner book.pending_entries
                    < max_open =
                  rw (← e) c in
                ground (arith, a, b, d, same))
          | inr other ↦
              (let a = waiting_count-add owner book.positions key book.pending_entries in
                ground (arith, a, h, other))
        ])
      ]

pub occupied-store_entry :
    (owner who : Option ℕ) (p : Position) (book : PositionBook)
    → is_open p.status ≡ true
    → mem (who, p.symbol, p.variant) book.pending_entries ≡ true
    → occupied owner (store_entry who p book) ≤ occupied owner book
unfolding occupied store_entry
occupied-store_entry owner who p book o m =
    let key : PositionKey = (who, p.symbol, p.variant) in
    let a = open_count-insert owner key p book.positions in
    let b = waiting_count-open owner key p book.positions book.pending_entries o in
    ground (arith, a, b, o, m)

pub occupied-finish_signal :
    (owner : Option ℕ) (key : PositionKey) (book : PositionBook)
    → occupied owner (finish_signal key book) ≤ occupied owner book
unfolding occupied finish_signal
occupied-finish_signal owner key book =
    omega (arith, waiting_count-discard owner book.positions key book.pending_entries)

-- An exit under way makes no room by itself: the position counts until the fill is written.
pub occupied-write :
    (owner : Option ℕ) (key : PositionKey) (p : Position) (book : PositionBook)
    → mem key book.pending_entries ≡ false
    → is_open_position (lookup key book.positions) ≡ true
    → occupied owner (record book { positions = insert key p book.positions }) ≤ occupied owner book
unfolding occupied
occupied-write owner key p book m o =
    let a = open_count-insert owner key p book.positions in
    let b = waiting_count-write owner key p book.positions book.pending_entries m in
    ground (arith, a, b, o)
