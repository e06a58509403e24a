-- ===== src/Broadcast/Depth.antt =====
-- Who watches the order book of which symbol: the two dictionaries tell the same.
use mathlib.Core.Path.{subst}
use crypto_trading_system.Base.{
  Bool, Bool-cases, List, Option, [], arith, false, if◌then◌else◌, inl, inr, list_beq_iff, list_eq,
  nat_beq_iff, nat_eq, none, option_eq, refl, some, ℕ, ◌&&◌, ◌==◌, ◌∙◌, ◌∷◌, ◌≡◌,
}
use crypto_trading_system.Base.Dict.{
  Dict, add, discard, get_or, lookup, lookup-erase, lookup-insert, mem, mem-add, mem-discard,
}
use crypto_trading_system.Base.Text.{Text}
use crypto_trading_system.Broadcast.{
  Broadcaster, disconnect, drop_each, drop_from, drop_symbol, drop_symbol_from, drop_watcher,
  keep_symbols, keep_watchers, subscribe_depth, unsubscribe_depth, unsubscribe_from,
}

-- The client is among the watchers of the symbol, by either dictionary.
abbrev pub watches : Dict Text (List ℕ) → ℕ → Text → Bool
watches d client symbol = mem client (get_or (lookup symbol d) [])

abbrev pub asked_for : Dict ℕ (List Text) → ℕ → Text → Bool
asked_for d client symbol = mem symbol (get_or (lookup client d) [])

abbrev pub IsAgreed : Broadcaster → Type 0
IsAgreed b =
    (client : ℕ) (symbol : Text)
    → watches b.depth_clients client symbol ≡ asked_for b.client_depth_symbols client symbol

-- The clients of an entry that is written or dropped.
watches-keep_watchers :
    (client : ℕ) (s symbol : Text) (rest : List ℕ) (d : Dict Text (List ℕ))
    → watches (keep_watchers s rest d) client symbol
      ≡ (if s == symbol then mem client rest else watches d client symbol)
unfolding keep_watchers
watches-keep_watchers client s symbol [] d = rw (lookup-erase s symbol d) (ground arith)
watches-keep_watchers client s symbol (w ∷ rest) d =
    rw (lookup-insert s symbol (w ∷ rest) d) (ground arith)

asked_for-keep_symbols :
    (c client : ℕ) (symbol : Text) (rest : List Text) (d : Dict ℕ (List Text))
    → asked_for (keep_symbols c rest d) client symbol
      ≡ (if c == client then mem symbol rest else asked_for d client symbol)
unfolding keep_symbols
asked_for-keep_symbols c client symbol [] d = rw (lookup-erase c client d) (ground arith)
asked_for-keep_symbols c client symbol (w ∷ rest) d =
    rw (lookup-insert c client (w ∷ rest) d) (ground arith)

watches-drop_from :
    (c client : ℕ) (s symbol : Text) (w : Option (List ℕ)) (d : Dict Text (List ℕ))
    → lookup s d ≡ w
    → watches (drop_from c s w d) client symbol
      ≡ (if c == client && s == symbol then false else watches d client symbol)
unfolding drop_from
watches-drop_from c client s symbol none d e = elim (Bool-cases (s == symbol)) [
  | inl same ↦
      (let z : lookup symbol d ≡ none =
          subst (λ t. lookup t d ≡ none) ((list_beq_iff s symbol).0 same) e in
        rw same (rw z (ground arith)))
  | inr other ↦ rw other (ground arith)
]
watches-drop_from c client s symbol (some w) d e =
    watches-keep_watchers client s symbol (discard c w) d ∙ (elim (Bool-cases (s == symbol)) [
      | inl same ↦
          (let z : lookup symbol d ≡ some w =
              subst (λ t. lookup t d ≡ some w) ((list_beq_iff s symbol).0 same) e in
            rw same (rw (z, mem-discard c client w) (ground arith)))
      | inr other ↦ rw other (ground arith)
    ])

asked_for-drop_from :
    (c client : ℕ) (s symbol : Text) (w : Option (List Text)) (d : Dict ℕ (List Text))
    → lookup c d ≡ w
    → asked_for (drop_symbol_from c s w d) client symbol
      ≡ (if c == client && s == symbol then false else asked_for d client symbol)
unfolding drop_symbol_from
asked_for-drop_from c client s symbol none d e = elim (Bool-cases (c == client)) [
  | inl same ↦
      (let z : lookup client d ≡ none =
          subst (λ t. lookup t d ≡ none) ((nat_beq_iff c client).0 same) e in
        rw same (rw z (ground arith)))
  | inr other ↦ rw other (ground arith)
]
asked_for-drop_from c client s symbol (some w) d e =
    asked_for-keep_symbols c client symbol (discard s w) d ∙ (elim (Bool-cases (c == client)) [
      | inl same ↦
          (let z : lookup client d ≡ some w =
              subst (λ t. lookup t d ≡ some w) ((nat_beq_iff c client).0 same) e in
            rw same (rw (z, mem-discard s symbol w) (ground arith)))
      | inr other ↦ rw other (ground arith)
    ])

watches-drop_each :
    (c client : ℕ) (symbol : Text) (symbols : List Text) (d : Dict Text (List ℕ))
    → watches (drop_each c symbols d) client symbol
      ≡ (if c == client && mem symbol symbols then false else watches d client symbol)
unfolding drop_each drop_watcher
watches-drop_each c client symbol [] d = ground arith
watches-drop_each c client symbol (s ∷ symbols) d = ground (
  arith,
  watches-drop_each c client symbol symbols (drop_from c s (lookup s d) d),
  watches-drop_from c client s symbol (lookup s d) d refl,
)

subscribe-IsAgreed :
    (b : Broadcaster) (c : ℕ) (s : Text) → IsAgreed b → IsAgreed (subscribe_depth b c s).0
unfolding subscribe_depth
subscribe-IsAgreed b c s h client symbol = elim (Bool-cases (c == client)) [
  | inl mine ↦ elim (Bool-cases (s == symbol)) [
    | inl same ↦
        (let e = (nat_beq_iff c client).0 mine in
          let k = (list_beq_iff s symbol).0 same in
          rw
            (
              lookup-insert s symbol (add c (get_or (lookup s b.depth_clients) [])) b.depth_clients,
              lookup-insert c client (add s (get_or (lookup c b.client_depth_symbols) []))
                  b.client_depth_symbols,
              same,
              mine,
              mem-add c client (get_or (lookup s b.depth_clients) []),
              mem-add s symbol (get_or (lookup c b.client_depth_symbols) []),
              same,
              mine,
            )
            refl)
    | inr other ↦
        (let e = (nat_beq_iff c client).0 mine in
          rw
            (
              lookup-insert s symbol (add c (get_or (lookup s b.depth_clients) [])) b.depth_clients,
              lookup-insert c client (add s (get_or (lookup c b.client_depth_symbols) []))
                  b.client_depth_symbols,
              other,
              mine,
              mem-add s symbol (get_or (lookup c b.client_depth_symbols) []),
              other,
              e,
            )
            (h client symbol))
  ]
  | inr stranger ↦ elim (Bool-cases (s == symbol)) [
    | inl same ↦
        (let k = (list_beq_iff s symbol).0 same in
          rw
            (
              lookup-insert s symbol (add c (get_or (lookup s b.depth_clients) [])) b.depth_clients,
              lookup-insert c client (add s (get_or (lookup c b.client_depth_symbols) []))
                  b.client_depth_symbols,
              same,
              stranger,
              mem-add c client (get_or (lookup s b.depth_clients) []),
              stranger,
              k,
            )
            (h client symbol))
    | inr other ↦
        rw
          (
            lookup-insert s symbol (add c (get_or (lookup s b.depth_clients) [])) b.depth_clients,
            lookup-insert c client (add s (get_or (lookup c b.client_depth_symbols) []))
                b.client_depth_symbols,
            other,
            stranger,
          )
          (h client symbol)
  ]
]

unsubscribe-IsAgreed :
    (b : Broadcaster) (c : ℕ) (s : Text) → IsAgreed b → IsAgreed (unsubscribe_depth b c s).0
unfolding unsubscribe_depth unsubscribe_from drop_symbol drop_from
unsubscribe-IsAgreed b c s h client symbol = by_watchers (lookup s b.depth_clients) refl
  where
    by_watchers :
        (w : Option (List ℕ))
        → lookup s b.depth_clients ≡ w
        → watches (unsubscribe_from c s w b).0.depth_clients client symbol
          ≡ asked_for (unsubscribe_from c s w b).0.client_depth_symbols client symbol
    by_watchers none e = h client symbol
    by_watchers (some w) e =
        let x = watches-drop_from c client s symbol (some w) b.depth_clients e in
        let y =
          asked_for-drop_from c client s symbol (lookup c b.client_depth_symbols)
            b.client_depth_symbols refl in
        ground (arith, x, y, h client symbol)

disconnect-IsAgreed : (b : Broadcaster) (c : ℕ) → IsAgreed b → IsAgreed (disconnect b c)
unfolding disconnect
disconnect-IsAgreed b c h client symbol =
    let x =
      watches-drop_each c client symbol (get_or (lookup c b.client_depth_symbols) [])
        b.depth_clients in
    x
    ∙ (rw (lookup-erase c client b.client_depth_symbols) (elim (Bool-cases (c == client)) [
      | inl mine ↦
          (let e = (nat_beq_iff c client).0 mine in
            rw mine (rw e (ground (arith, h client symbol))))
      | inr stranger ↦ rw stranger (h client symbol)
    ]))

-- What a client does to its depth subscriptions.
pub data Visit : Type 0 where
  subscribe_visit unsubscribe_visit : ℕ → Text → Visit
  disconnect_visit : ℕ → Visit

pub visit : Broadcaster → Visit → Broadcaster
visit b (subscribe_visit c s) = (subscribe_depth b c s).0
visit b (unsubscribe_visit c s) = (unsubscribe_depth b c s).0
visit b (disconnect_visit c) = disconnect b c

pub visit_each : Broadcaster → List Visit → Broadcaster
visit_each b [] = b
visit_each b (v ∷ vs) = visit_each (visit b v) vs

-- However clients subscribe, unsubscribe and disconnect, the two dictionaries agree: a book of a
-- symbol goes to exactly the clients that have the symbol among theirs.
pub visit_each-IsAgreed :
    (b : Broadcaster) (vs : List Visit) → IsAgreed b → IsAgreed (visit_each b vs)
unfolding visit_each visit
visit_each-IsAgreed b [] h = h
visit_each-IsAgreed b (subscribe_visit c s ∷ vs) h =
    visit_each-IsAgreed (subscribe_depth b c s).0 vs (subscribe-IsAgreed b c s h)
visit_each-IsAgreed b (unsubscribe_visit c s ∷ vs) h =
    visit_each-IsAgreed (unsubscribe_depth b c s).0 vs (unsubscribe-IsAgreed b c s h)
visit_each-IsAgreed b (disconnect_visit c ∷ vs) h =
    visit_each-IsAgreed (disconnect b c) vs (disconnect-IsAgreed b c h)
