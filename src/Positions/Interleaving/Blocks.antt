-- ===== src/Positions/Interleaving/Blocks.antt =====
-- Each locked block of a running flow keeps the invariant: the write of an entry, the write of an
-- exit's fill and the `finally` blocks.
use mathlib.Core.Path.{ap₂, subst}
use crypto_trading_system.Base.{
  Bool-cases, arith, false, inl, inr, list_eq, nat_eq, option_eq, refl, some, sym, true, ℕ, ◌==◌,
  ◌∙◌, ◌∷◌, ◌≡◌,
}
use crypto_trading_system.Base.Dict.{insert, lookup, lookup-insert, mem, mem-discard}
use crypto_trading_system.Models.Strategy.{Position}
use crypto_trading_system.Positions.{
  PositionKey, finish_flow, finish_signal, is_open_position, open_at, position_key_beq_iff,
  position_key_eq, store_entry,
}
use crypto_trading_system.Positions.Counts.{
  occupied, occupied-finish_signal, occupied-store_entry, occupied-write,
}
use crypto_trading_system.Positions.Flows.{
  Flow, Origin, end_flow, entered, entering, entry_runs, entry_runs-end_flow, entry_runs-idle,
  exited_flow, exiting, is_entry,
}
use crypto_trading_system.Positions.Interleaving.{IsEntryFor, System, on_entry}
use crypto_trading_system.Positions.Interleaving.Invariant.{
  IsSafe, ended, entry_runs-of, exits-end, pending-phase, single-end, single-phase,
}

pub entry-IsSafe :
    (max_open : ℕ) (k : PositionKey) (p : Position) (s : System)
    → lookup k s.flows ≡ some entering
    → IsEntryFor k p
    → IsSafe max_open s
    → IsSafe max_open (on_entry k p s)
unfolding on_entry store_entry open_at
entry-IsSafe max_open k p s h q v =
    let key : PositionKey = (k.0, p.symbol, p.variant) in
    let same_key : key ≡ k = ap₂ (λ x y. (k.0, x, y)) q.symbol q.variant in
    let m : mem key s.book.pending_entries ≡ true =
      subst (λ i. mem i s.book.pending_entries ≡ true) (sym same_key)
        (entry_runs-of max_open k entering s h v) in
    record {
      single = λ j. single-phase max_open k j entering entered s h v;
      pending = λ j. pending-phase max_open k j entering entered s h refl v;
      room = λ owner.
          omega (arith, occupied-store_entry owner k.0 p s.book q.is_opened m, v.room owner);
      exits = λ j e. elim (Bool-cases (k == j)) [
        | inl same ↦ absurd (ground (arith, e, same))
        | inr other ↦
            (let other' : (key == j) ≡ false = subst (λ i. (i == j) ≡ false) (sym same_key) other in
              rw (lookup-insert key j p s.book.positions, other')
                (exits-end max_open k j entering s h v (rw other at e)).1)
      ];
    }

pub fill_by :
    (max_open : ℕ) (k : PositionKey) (origin : Origin) (p : Position) (s : System)
    → lookup k s.flows ≡ some (exiting origin)
    → IsSafe max_open s
    → IsSafe max_open (record {
      book = record s.book { positions = insert k p s.book.positions };
      flows = (k, exited_flow origin) ∷ end_flow k s.flows;
    })
unfolding open_at
fill_by max_open k origin p s h v =
    let m : mem k s.book.pending_entries ≡ false =
      entry_runs-of max_open k (exiting origin) s h v in
    let o : is_open_position (lookup k s.book.positions) ≡ true = v.exits k (rw h refl) in
    record {
      single = λ j. single-phase max_open k j (exiting origin) (exited_flow origin) s h v;
      pending = λ j. pending-phase max_open k j (exiting origin) (exited_flow origin) s h refl v;
      room = λ owner. omega (arith, occupied-write owner k p s.book m o, v.room owner);
      exits = λ j e. elim (Bool-cases (k == j)) [
        | inl same ↦ absurd (ground (arith, e, same))
        | inr other ↦
            rw (lookup-insert k j p s.book.positions, other)
              (exits-end max_open k j (exiting origin) s h v (rw other at e)).1
      ];
    }

pub end_signal-IsSafe :
    (max_open : ℕ) (k : PositionKey) (f : Flow) (s : System)
    → lookup k s.flows ≡ some f
    → IsSafe max_open s
    → IsSafe max_open (record { book = finish_signal k s.book; flows = end_flow k s.flows })
unfolding finish_signal open_at
end_signal-IsSafe max_open k f s h v = record {
  single = λ j. single-end max_open k j f s h v;
  pending = λ j. rw (mem-discard k j s.book.pending_entries) (elim (Bool-cases (k == j)) [
    | inl same ↦
        (let e = (position_key_beq_iff k j).0 same in
          rw same (
            sym (
              subst (λ i. entry_runs i (end_flow k s.flows) ≡ false) e
                (entry_runs-idle k (end_flow k s.flows) (ended max_open k f s h v)))))
    | inr other ↦ rw (other, entry_runs-end_flow k j s.flows other) (v.pending j)
  ]);
  room = λ owner. omega (arith, occupied-finish_signal owner k s.book, v.room owner);
  exits = λ j e. (exits-end max_open k j f s h v e).1;
}

pub end_block-IsSafe :
    (max_open : ℕ) (k : PositionKey) (f : Flow) (s : System)
    → lookup k s.flows ≡ some f
    → is_entry f ≡ false
    → IsSafe max_open s
    → IsSafe max_open (record { book = finish_flow k s.book; flows = end_flow k s.flows })
unfolding finish_flow open_at occupied
end_block-IsSafe max_open k f s h q v = record {
  single = λ j. single-end max_open k j f s h v;
  pending = λ j. elim (Bool-cases (k == j)) [
    | inl same ↦
        (let e = (position_key_beq_iff k j).0 same in
          let m : mem k s.book.pending_entries ≡ false = entry_runs-of max_open k f s h v ∙ q in
          subst (λ i. mem i s.book.pending_entries ≡ entry_runs i (end_flow k s.flows)) e
            (m ∙ sym (entry_runs-idle k (end_flow k s.flows) (ended max_open k f s h v))))
    | inr other ↦ rw (entry_runs-end_flow k j s.flows other) (v.pending j)
  ];
  room = v.room;
  exits = λ j e. (exits-end max_open k j f s h v e).1;
}
