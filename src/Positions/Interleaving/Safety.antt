-- ===== src/Positions/Interleaving/Safety.antt =====
-- The steps of services/order_service.py keep the invariant, so an interleaving does in which no
-- reconciliation finds its key in flight.
use crypto_trading_system.Base.{
  Bool, Bool-cases, List, Option, Option-cases, [], ap, arith, false, if◌then◌else◌, inl, inr, leb,
  list_eq, nat_eq, none, option_eq, refl, some, sym, true, ℕ, ◌&&◌, ◌++◌, ◌+◌, ◌==◌, ◌∙◌, ◌∷◌, ◌≡◌,
  ◌≤◌,
}
use crypto_trading_system.Base.Dict.{get_or, insert, lookup, lookup-insert, mem, mem-discard}
use crypto_trading_system.Decimal.{Decimal}
use crypto_trading_system.Models.Common.{ExitReason, SignalAction, Timestamp, enter, is_open, leave}
use crypto_trading_system.Models.Market.{Tick}
use crypto_trading_system.Models.Strategy.{Position, Signal, position_accepts}
use crypto_trading_system.Positions.{
  PositionBook, PositionKey, admit_by_action, admit_entry, admit_reconcile, admit_signal,
  admit_square_off, apply_exit, apply_exit_to, exit_reason, exited, finish_flow, is_open_position,
  mark_price, open_at, open_count, pending_count, position_key_beq_iff, position_key_eq,
  process_tick, signal_key, start_flow, tick_each, tick_position, trigger,
}
use crypto_trading_system.Positions.Counts.{occupied, occupied-admit_entry, waiting_count}
use crypto_trading_system.Positions.Flows.{
  Flow, Flows, Origin, end_flow, entered, entering, entry_runs, exited_flow, exiting, from_block,
  from_signal, running,
}
use crypto_trading_system.Positions.Interleaving.{
  FindsFree, IsUndisturbed, Reach, Step, System, begin_if, close_flow, end_step, entry_step,
  fill_step, flow_of, here, launch, next, on_end, on_fill, on_reconcile, on_signal, on_square_off,
  on_tick, reconcile_step, signal_step, square_off_step, tick_step,
}
use crypto_trading_system.Positions.Interleaving.Blocks.{
  end_block-IsSafe, end_signal-IsSafe, entry-IsSafe, fill_by,
}
use crypto_trading_system.Positions.Interleaving.Invariant.{
  IsSafe, admitted-IsSafe, begin-IsSafe, exits-end, mark-IsSafe, pending-phase, single-phase,
}
use mathlib.Core.Path.{subst}

act-IsSafe :
    (max_open : ℕ) (k : PositionKey) (a : SignalAction) (s : System)
    → mem k s.book.inflight ≡ false
    → IsSafe max_open s
    → IsSafe max_open (begin_if k (flow_of a) s.flows (admit_by_action a max_open k s.book))
unfolding admit_by_action admit_entry begin_if flow_of start_flow
act-IsSafe max_open k enter s free v = elim (Bool-cases (open_at s.book k)) [
  | inl opened ↦ rw opened v
  | inr fresh ↦
      rw fresh
        (elim (Bool-cases (
          leb max_open
            (open_count k.0 s.book.positions + pending_count k.0 s.book.pending_entries))) [
              | inl full ↦ rw full v
              | inr room ↦ rw room (
                  admitted-IsSafe max_open k s free
                    (λ o.
                      let w = occupied-admit_entry max_open o k s.book (v.room o) in rw room at w)
                    v)
            ])
]
act-IsSafe max_open k leave s free v = elim (Bool-cases (open_at s.book k)) [
  | inl opened ↦ rw opened (begin-IsSafe max_open k from_signal s free opened v)
  | inr shut ↦ rw shut v
]

signal-IsSafe :
    (max_open : ℕ) (owner : Option ℕ) (sg : Signal) (s : System)
    → IsSafe max_open s
    → IsSafe max_open (on_signal max_open owner sg s)
unfolding on_signal admit_signal begin_if
signal-IsSafe max_open owner sg s v =
    elim (Bool-cases (mem (signal_key owner sg) s.book.inflight)) [
      | inl busy ↦ rw busy v
      | inr free ↦ rw free (act-IsSafe max_open (signal_key owner sg) sg.action s free v)
    ]

trigger-IsSafe :
    (max_open : ℕ) (allowed : Bool) (k : PositionKey) (r : Option ExitReason) (s : System)
    → open_at s.book k ≡ true
    → IsSafe max_open s
    → IsSafe max_open (record {
      book = (trigger allowed k r s.book).0;
      flows = launch (trigger allowed k r s.book).1 s.flows;
    })
unfolding trigger launch
trigger-IsSafe max_open allowed k none s o v = v
trigger-IsSafe max_open false k (some reason) s o v = v
trigger-IsSafe max_open true k (some reason) s o v = elim (Bool-cases (mem k s.book.inflight)) [
  | inl busy ↦ rw busy v
  | inr free ↦ rw free (begin-IsSafe max_open k from_block s free o v)
]

tick_position-IsSafe :
    (max_open : ℕ) (enabled : Option ℕ → Bool) (t : Tick) (k : PositionKey) (p : Option Position)
    (s : System)
    → lookup k s.book.positions ≡ p
    → IsSafe max_open s
    → IsSafe max_open (record {
      book = (tick_position enabled t k p s.book).0;
      flows = launch (tick_position enabled t k p s.book).1 s.flows;
    })
unfolding tick_position launch open_at
tick_position-IsSafe max_open enabled t k none s e v = v
tick_position-IsSafe max_open enabled t k (some p) s e v =
    elim (Bool-cases (k.1 == t.symbol && is_open p.status)) [
      | inr skipped ↦ rw skipped v
      | inl taken ↦
          (let marked = mark_price t.price p in
            let o : is_open p.status ≡ true = ground (arith, taken) in
            let same : is_open_position (lookup k s.book.positions) ≡ is_open marked.status =
              rw e (unfold mark_price in refl) in
            let now : open_at (record s.book { positions = insert k marked s.book.positions }) k
                ≡ true =
              rw (lookup-insert k k marked s.book.positions, (position_key_beq_iff k k).1 refl)
                (unfold mark_price in o) in
            rw taken (
              trigger-IsSafe max_open (enabled k.0) k (exit_reason t.price marked)
                (record s { book = record s.book { positions = insert k marked s.book.positions } })
                now (mark-IsSafe max_open k marked s same v)))
    ]

launch-append :
    (xs ys : List (PositionKey × ExitReason)) (flows : Flows)
    → launch (xs ++ ys) flows ≡ launch ys (launch xs flows)
unfolding launch
launch-append [] ys flows = refl
launch-append ((k, r) ∷ xs) ys flows = launch-append xs ys ((k, exiting from_block) ∷ flows)

tick_each-IsSafe :
    (max_open : ℕ) (enabled : Option ℕ → Bool) (t : Tick) (ks : List PositionKey) (s : System)
    → IsSafe max_open s
    → IsSafe max_open (record {
      book = (tick_each enabled t ks s.book).0;
      flows = launch (tick_each enabled t ks s.book).1 s.flows;
    })
unfolding tick_each
tick_each-IsSafe max_open enabled t [] s v = unfold launch in v
tick_each-IsSafe max_open enabled t (k ∷ ks) s v =
    let one = tick_position enabled t k (lookup k s.book.positions) s.book in
    rw (launch-append one.1 (tick_each enabled t ks one.0).1 s.flows) (
      tick_each-IsSafe max_open enabled t ks (record { book = one.0; flows = launch one.1 s.flows })
        (tick_position-IsSafe max_open enabled t k (lookup k s.book.positions) s refl v))

-- An exit whose fill is not written.
unfilled-IsSafe :
    (max_open : ℕ) (k : PositionKey) (origin : Origin) (s : System)
    → lookup k s.flows ≡ some (exiting origin)
    → IsSafe max_open s
    → IsSafe max_open
        (record { book = s.book; flows = (k, exited_flow origin) ∷ end_flow k s.flows })
unfilled-IsSafe max_open k origin s h v = record {
  single = λ j. single-phase max_open k j (exiting origin) (exited_flow origin) s h v;
  pending = λ j. pending-phase max_open k j (exiting origin) (exited_flow origin) s h refl v;
  room = v.room;
  exits = λ j e. elim (Bool-cases (k == j)) [
    | inl same ↦ absurd (ground (arith, e, same))
    | inr other ↦ (exits-end max_open k j (exiting origin) s h v (rw other at e)).1
  ];
}

fill-IsSafe :
    (max_open : ℕ) (k : PositionKey) (origin : Origin) (executed price : Decimal)
    (timestamp : Timestamp) (id : Option ℕ) (s : System)
    → lookup k s.flows ≡ some (exiting origin)
    → IsSafe max_open s
    → IsSafe max_open (on_fill k origin executed price timestamp id s)
unfolding on_fill apply_exit apply_exit_to open_at
fill-IsSafe max_open k origin executed price timestamp id s h v =
    elim (Option-cases (lookup k s.book.positions)) [
      | inl missing ↦ absurd (let o = v.exits k (rw h refl) in ground (arith, o, missing))
      | inr (p, e) ↦
          rw e (elim (Bool-cases (position_accepts (exited p executed price timestamp id))) [
            | inl good ↦
                rw good (fill_by max_open k origin (exited p executed price timestamp id) s h v)
            | inr bad ↦ rw bad (unfilled-IsSafe max_open k origin s h v)
          ])
    ]

end-IsSafe :
    (max_open : ℕ) (k : PositionKey) (f : Flow) (s : System)
    → lookup k s.flows ≡ some f
    → IsSafe max_open s
    → IsSafe max_open (on_end k f s)
unfolding on_end close_flow
end-IsSafe max_open k entering s h v = end_signal-IsSafe max_open k entering s h v
end-IsSafe max_open k entered s h v = end_signal-IsSafe max_open k entered s h v
end-IsSafe max_open k (exiting from_signal) s h v =
    end_signal-IsSafe max_open k (exiting from_signal) s h v
end-IsSafe max_open k (exited_flow from_signal) s h v =
    end_signal-IsSafe max_open k (exited_flow from_signal) s h v
end-IsSafe max_open k (exiting from_block) s h v =
    end_block-IsSafe max_open k (exiting from_block) s h refl v
end-IsSafe max_open k (exited_flow from_block) s h v =
    end_block-IsSafe max_open k (exited_flow from_block) s h refl v

square_off-IsSafe :
    (max_open : ℕ) (k : PositionKey) (s : System)
    → IsSafe max_open s
    → IsSafe max_open (on_square_off k s)
unfolding on_square_off admit_square_off begin_if
square_off-IsSafe max_open k s v = elim (Bool-cases (open_at s.book k)) [
  | inr shut ↦ rw shut v
  | inl opened ↦ rw opened (elim (Bool-cases (mem k s.book.inflight)) [
    | inl busy ↦ rw busy v
    | inr free ↦ rw free (begin-IsSafe max_open k from_block s free opened v)
  ])
]

-- The `finally` block takes away a key that is not there.
passed_by-IsSafe :
    (max_open : ℕ) (k : PositionKey) (s : System)
    → mem k s.book.inflight ≡ false
    → IsSafe max_open s
    → IsSafe max_open (record { book = finish_flow k s.book; flows = s.flows })
unfolding finish_flow open_at occupied
passed_by-IsSafe max_open k s free v = record {
  single = λ j.
      v.single j
      ∙ ap (λ b. if b then 1 else 0) (sym (mem-discard k j s.book.inflight ∙ discards-nothing j));
  pending = v.pending;
  room = v.room;
  exits = v.exits;
}
  where
    discards-nothing :
        (j : PositionKey)
        → (if k == j then false else mem j s.book.inflight) ≡ mem j s.book.inflight
    discards-nothing j = elim (Bool-cases (k == j)) [
      | inl same ↦ rw same (
          sym (subst (λ i. mem i s.book.inflight ≡ false) ((position_key_beq_iff k j).0 same) free))
      | inr other ↦ rw other refl
    ]

reconcile-IsSafe :
    (max_open : ℕ) (k : PositionKey) (s : System)
    → mem k s.book.inflight ≡ false
    → IsSafe max_open s
    → IsSafe max_open (on_reconcile k s)
unfolding on_reconcile admit_reconcile
reconcile-IsSafe max_open k s free v = elim (Bool-cases (open_at s.book k)) [
  | inr shut ↦ rw shut (passed_by-IsSafe max_open k s free v)
  | inl opened ↦
      rw (opened, free)
        (unfold start_flow open_at occupied in
          let w = begin-IsSafe max_open k from_block s free opened v in
          record { single = w.single; pending = w.pending; room = w.room; exits = w.exits })
]

Step-IsSafe :
    (max_open : ℕ) (s t : System) (m : Step max_open s t)
    → FindsFree max_open s t m
    → IsSafe max_open s
    → IsSafe max_open t
Step-IsSafe max_open s t (signal_step owner sg) w v = signal-IsSafe max_open owner sg s v
Step-IsSafe max_open s t (tick_step enabled k) w v =
    unfold on_tick process_tick in
    tick_each-IsSafe max_open enabled k (get_or (lookup k.symbol s.book.positions_by_symbol) []) s v
Step-IsSafe max_open s t (square_off_step k) w v = square_off-IsSafe max_open k s v
Step-IsSafe max_open s t (reconcile_step k) w v = reconcile-IsSafe max_open k s w v
Step-IsSafe max_open s t (entry_step k p h q) w v = entry-IsSafe max_open k p s h q v
Step-IsSafe max_open s t (fill_step k origin executed price timestamp id h) w v =
    fill-IsSafe max_open k origin executed price timestamp id s h v
Step-IsSafe max_open s t (end_step k f h) w v = end-IsSafe max_open k f s h v

Reach-IsSafe :
    (max_open : ℕ) (s t : System) (r : Reach max_open s t)
    → IsUndisturbed max_open s t r
    → IsSafe max_open s
    → IsSafe max_open t
Reach-IsSafe max_open s t here w v = v
Reach-IsSafe max_open s t (next {t = u} r m) w v =
    Step-IsSafe max_open u t m w.1 (Reach-IsSafe max_open s u r w.0 v)

-- A book in which nothing is under way and no account has more open positions than it may.
pub record IsStart (max_open : ℕ) (book : PositionBook) : Type 0 where
  pub no_inflight : book.inflight ≡ []
  pub no_pending : book.pending_entries ≡ []
  pub limit : (owner : Option ℕ) → open_count owner book.positions ≤ max_open

start-IsSafe :
    (max_open : ℕ) (book : PositionBook)
    → IsStart max_open book
    → IsSafe max_open (record { book = book; flows = [] })
unfolding running entry_runs occupied waiting_count
start-IsSafe max_open book h = record {
  single = λ k. rw h.no_inflight refl;
  pending = λ k. rw h.no_pending refl;
  room = λ owner. rw h.no_pending (omega (arith, h.limit owner));
  exits = λ k e. absurd (ground (arith, e));
}

-- However they interleave, from a book in which nothing is under way and no account has more open
-- positions than `max_open_positions_per_user`, and as long as no reconciliation finds its key in
-- flight when it comes to its guard, the open positions of an account and its entries under way
-- together never exceed that number, so neither do the open positions.
pub within_limit :
    (max_open : ℕ) (book : PositionBook) (t : System)
    → IsStart max_open book
    → (r : Reach max_open (record { book = book; flows = [] }) t)
    → IsUndisturbed max_open (record { book = book; flows = [] }) t r
    → (owner : Option ℕ)
    → (occupied owner t.book ≤ max_open) × (open_count owner t.book.positions ≤ max_open)
unfolding occupied
within_limit max_open book t h r w owner =
    let room = (Reach-IsSafe max_open _ t r w (start-IsSafe max_open book h)).room owner in
    (room, omega arith)
