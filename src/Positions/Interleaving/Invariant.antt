-- ===== src/Positions/Interleaving/Invariant.antt =====
-- What holds between any two locked blocks of services/order_service.py, and how the start, the
-- next phase and the end of a flow keep it.
use mathlib.Core.Path.{subst}
use crypto_trading_system.Base.{
  Bool-cases, Option, arith, false, if◌then◌else◌, inl, inr, list_eq, nat_eq, none, option_eq, refl,
  some, sym, true, ℕ, ◌==◌, ◌∙◌, ◌∷◌, ◌≡◌, ◌≤◌,
}
use crypto_trading_system.Base.Dict.{
  add, discard, insert, lookup, lookup-insert, mem, mem-add, mem-discard,
}
use crypto_trading_system.Models.Common.{is_open}
use crypto_trading_system.Models.Strategy.{Position}
use crypto_trading_system.Positions.{
  PositionKey, is_open_position, open_at, position_key_beq_iff, position_key_eq, start_flow,
}
use crypto_trading_system.Positions.Counts.{occupied, occupied-mark}
use crypto_trading_system.Positions.Flows.{
  Flow, Origin, end_flow, entering, entry_runs, entry_runs-end_flow, entry_runs-idle,
  entry_runs-single, exiting, is_entry, is_exiting, lookup-end_flow, lookup-idle, running,
  running-end_flow, running-lookup,
}
use crypto_trading_system.Positions.Interleaving.{System}

-- Each key in `_inflight` has exactly one flow and no other key has one, `_pending_entries` are the
-- keys of the entries, no account takes more room than it has, and the position of an exit that has
-- not written its fill is open.
pub record IsSafe (max_open : ℕ) (s : System) : Type 0 where
  pub single : (k : PositionKey) → running k s.flows ≡ (if mem k s.book.inflight then 1 else 0)
  pub pending : (k : PositionKey) → mem k s.book.pending_entries ≡ entry_runs k s.flows
  pub room : (owner : Option ℕ) → occupied owner s.book ≤ max_open
  pub exits : (k : PositionKey) → is_exiting (lookup k s.flows) ≡ true → open_at s.book k ≡ true

-- A key that is not in flight has no flow.
pub idle :
    (max_open : ℕ) (k : PositionKey) (s : System)
    → mem k s.book.inflight ≡ false
    → IsSafe max_open s
    → running k s.flows ≡ 0
idle max_open k s m v = v.single k ∙ (rw m refl)

pub single-begin :
    (max_open : ℕ) (k j : PositionKey) (f : Flow) (s : System)
    → mem k s.book.inflight ≡ false
    → IsSafe max_open s
    → running j ((k, f) ∷ s.flows) ≡ (if mem j (add k s.book.inflight) then 1 else 0)
unfolding running
single-begin max_open k j f s m v = elim (Bool-cases (k == j)) [
  | inl same ↦
      (let e = (position_key_beq_iff k j).0 same in
        let z : running j s.flows ≡ 0 =
          subst (λ i. running i s.flows ≡ 0) e (idle max_open k s m v) in
        rw (mem-add k j s.book.inflight, same, z) refl)
  | inr other ↦ rw (mem-add k j s.book.inflight, other) (omega (arith, v.single j))
]

-- A flow that is no entry begins.
pub begin-IsSafe :
    (max_open : ℕ) (k : PositionKey) (o : Origin) (s : System)
    → mem k s.book.inflight ≡ false
    → open_at s.book k ≡ true
    → IsSafe max_open s
    → IsSafe max_open (record { book = start_flow k s.book; flows = (k, exiting o) ∷ s.flows })
unfolding start_flow open_at occupied
begin-IsSafe max_open k o s m h v = record {
  single = λ j. single-begin max_open k j (exiting o) s m v;
  pending = λ j. v.pending j ∙ (unfold entry_runs in ground arith);
  room = v.room;
  exits = λ j e. elim (Bool-cases (k == j)) [
    | inl same ↦
        subst (λ i. is_open_position (lookup i s.book.positions) ≡ true)
          ((position_key_beq_iff k j).0 same) h
    | inr other ↦ v.exits j (rw other at e)
  ];
}

pub admitted-IsSafe :
    (max_open : ℕ) (k : PositionKey) (s : System)
    → mem k s.book.inflight ≡ false
    → ((owner : Option ℕ)
        → occupied owner (record s.book {
          inflight = add k s.book.inflight;
          pending_entries = add k s.book.pending_entries;
        })
          ≤ max_open)
    → IsSafe max_open s
    → IsSafe max_open (record {
      book = start_flow k (record s.book { pending_entries = add k s.book.pending_entries });
      flows = (k, entering) ∷ s.flows;
    })
unfolding start_flow open_at occupied
admitted-IsSafe max_open k s m r v = record {
  single = λ j. single-begin max_open k j entering s m v;
  pending = λ j.
      mem-add k j s.book.pending_entries ∙ (unfold entry_runs in rw (v.pending j) (ground arith));
  room = r;
  exits = λ j e. elim (Bool-cases (k == j)) [
    | inl same ↦ absurd (ground (arith, e, same))
    | inr other ↦ v.exits j (rw other at e)
  ];
}

-- The write of a price, which leaves every status as it is.
pub mark-IsSafe :
    (max_open : ℕ) (k : PositionKey) (p : Position) (s : System)
    → is_open_position (lookup k s.book.positions) ≡ is_open p.status
    → IsSafe max_open s
    → IsSafe max_open
        (record s { book = record s.book { positions = insert k p s.book.positions } })
unfolding open_at
mark-IsSafe max_open k p s h v = record {
  single = v.single;
  pending = v.pending;
  room = λ owner. rw (occupied-mark owner k p s.book h) (v.room owner);
  exits = λ j e. rw (lookup-insert k j p s.book.positions) (elim (Bool-cases (k == j)) [
    | inl same ↦ rw same (
        sym h
        ∙ subst (λ i. is_open_position (lookup i s.book.positions) ≡ true)
            (sym ((position_key_beq_iff k j).0 same)) (v.exits j e))
    | inr other ↦ rw other (v.exits j e)
  ]);
}

-- The flow of a key that has one runs once.
pub runs_once :
    (max_open : ℕ) (k : PositionKey) (f : Flow) (s : System)
    → lookup k s.flows ≡ some f
    → IsSafe max_open s
    → running k s.flows ≡ 1
runs_once max_open k f s h v = ground (arith, v.single k, running-lookup k f s.flows h)

pub entry_runs-of :
    (max_open : ℕ) (k : PositionKey) (f : Flow) (s : System)
    → lookup k s.flows ≡ some f
    → IsSafe max_open s
    → mem k s.book.pending_entries ≡ is_entry f
entry_runs-of max_open k f s h v =
    v.pending k ∙ entry_runs-single k f s.flows h (runs_once max_open k f s h v)

pub ended :
    (max_open : ℕ) (k : PositionKey) (f : Flow) (s : System)
    → lookup k s.flows ≡ some f
    → IsSafe max_open s
    → running k (end_flow k s.flows) ≡ 0
ended max_open k f s h v =
    let self : (k == k) ≡ true = (position_key_beq_iff k k).1 refl in
    ground (arith, running-end_flow k k f s.flows h, self, runs_once max_open k f s h v)

-- A flow that goes on to its next phase.
pub single-phase :
    (max_open : ℕ) (k j : PositionKey) (f g : Flow) (s : System)
    → lookup k s.flows ≡ some f
    → IsSafe max_open s
    → running j ((k, g) ∷ end_flow k s.flows) ≡ (if mem j s.book.inflight then 1 else 0)
unfolding running
single-phase max_open k j f g s h v = omega (arith, v.single j, running-end_flow k j f s.flows h)

pub pending-phase :
    (max_open : ℕ) (k j : PositionKey) (f g : Flow) (s : System)
    → lookup k s.flows ≡ some f
    → is_entry f ≡ is_entry g
    → IsSafe max_open s
    → mem j s.book.pending_entries ≡ entry_runs j ((k, g) ∷ end_flow k s.flows)
unfolding entry_runs
pending-phase max_open k j f g s h q v = elim (Bool-cases (k == j)) [
  | inl same ↦
      (let e = (position_key_beq_iff k j).0 same in
        let z : entry_runs j (end_flow k s.flows) ≡ false =
          subst (λ i. entry_runs i (end_flow k s.flows) ≡ false) e
            (entry_runs-idle k (end_flow k s.flows) (ended max_open k f s h v)) in
        let m : mem j s.book.pending_entries ≡ is_entry f =
          subst (λ i. mem i s.book.pending_entries ≡ is_entry f) e
            (entry_runs-of max_open k f s h v) in
        rw (same, m, z, q) (ground arith))
  | inr other ↦ rw (other, entry_runs-end_flow k j s.flows other) (v.pending j)
]

-- A flow ends, with either block.
pub single-end :
    (max_open : ℕ) (k j : PositionKey) (f : Flow) (s : System)
    → lookup k s.flows ≡ some f
    → IsSafe max_open s
    → running j (end_flow k s.flows) ≡ (if mem j (discard k s.book.inflight) then 1 else 0)
single-end max_open k j f s h v = elim (Bool-cases (k == j)) [
  | inl same ↦
      (let e = (position_key_beq_iff k j).0 same in
        let z : running j (end_flow k s.flows) ≡ 0 =
          subst (λ i. running i (end_flow k s.flows) ≡ 0) e (ended max_open k f s h v) in
        rw (mem-discard k j s.book.inflight, same, z) refl)
  | inr other ↦
      rw (mem-discard k j s.book.inflight, other)
        (ground (arith, v.single j, running-end_flow k j f s.flows h, other))
]

pub exits-end :
    (max_open : ℕ) (k j : PositionKey) (f : Flow) (s : System)
    → lookup k s.flows ≡ some f
    → IsSafe max_open s
    → is_exiting (lookup j (end_flow k s.flows)) ≡ true
    → ((k == j) ≡ false) × (open_at s.book j ≡ true)
exits-end max_open k j f s h v x = elim (Bool-cases (k == j)) [
  | inl same ↦
      (let e = (position_key_beq_iff k j).0 same in
        let z : lookup j (end_flow k s.flows) ≡ none =
          subst (λ i. lookup i (end_flow k s.flows) ≡ none) e
            (lookup-idle k (end_flow k s.flows) (ended max_open k f s h v)) in
        absurd (ground (arith, x, z)))
  | inr other ↦ (other, v.exits j (rw (lookup-end_flow k j s.flows other) at x))
]
