-- ===== src/Base/Dict.antt =====
-- Python's `dict` as an association list in insertion order, and `set` as a list.
use mathlib.Core.Path.{◌≡◌, refl}
use mathlib.Core.Bool.{Bool, false, ◌||◌}
use mathlib.Core.Option.{Option, none, some}
use mathlib.Core.List.{List, [], ◌∷◌, ◌++◌}
use native.Mathlib.Omega.{arith}
use crypto_trading_system.Base.{Bool-cases, ap, inl, inr, Eq, if◌then◌else◌, ◌==◌}

abbrev pub Dict {ℓ κ} : Type ℓ → Type κ → Type (ℓ ⊔ κ)
Dict K V = List (K × V)

-- `d.get(k, v)`
abbrev pub get_or {ℓ} : {V : Type ℓ} → Option V → V → V
get_or none v = v
get_or (some w) v = w

module _ {ℓ κ} {K : Type ℓ} {V : Type κ} where
  abbrev pub values : Dict K V → List V
  values [] = []
  values ((j, v) ∷ d) = v ∷ values d

module _ {ℓ κ} {K : Type ℓ} {V : Type κ} ⦃e : Eq K⦄ where
  -- `d.get(k)`
  abbrev pub lookup : K → Dict K V → Option V
  lookup k [] = none
  lookup k ((j, v) ∷ d) = if j == k then some v else lookup k d

  -- `d[k] = v`: an old key keeps its place.
  abbrev pub insert : K → V → Dict K V → Dict K V
  insert k v [] = (k, v) ∷ []
  insert k v ((j, w) ∷ d) = if j == k then (k, v) ∷ d else (j, w) ∷ insert k v d

  -- `d.pop(k, None)`
  abbrev pub erase : K → Dict K V → Dict K V
  erase k [] = []
  erase k ((j, w) ∷ d) = if j == k then erase k d else (j, w) ∷ erase k d

  pub lookup-insert :
      (k j : K) (v : V) (d : Dict K V)
      → lookup j (insert k v d) ≡ (if k == j then some v else lookup j d)
  lookup-insert k j v [] = refl
  lookup-insert k j v ((i, w) ∷ d) =
      ground (arith, e.beq_iff k j, e.beq_iff i k, e.beq_iff i j, lookup-insert k j v d)

  pub lookup-erase :
      (k j : K) (d : Dict K V) → lookup j (erase k d) ≡ (if k == j then none else lookup j d)
  lookup-erase k j [] = ground arith
  lookup-erase k j ((i, w) ∷ d) =
      ground (arith, e.beq_iff k j, e.beq_iff i k, e.beq_iff i j, lookup-erase k j d)

module _ {ℓ} {K : Type ℓ} ⦃e : Eq K⦄ where
  -- `k in s`
  abbrev pub mem : K → List K → Bool
  mem k [] = false
  mem k (j ∷ s) = j == k || mem k s

  -- `s.add(k)`
  abbrev pub add : K → List K → List K
  add k s = if mem k s then s else s ++ k ∷ []

  -- `s.discard(k)`
  abbrev pub discard : K → List K → List K
  discard k [] = []
  discard k (j ∷ s) = if j == k then discard k s else j ∷ discard k s

  mem-append_one : (k j : K) (s : List K) → mem j (s ++ k ∷ []) ≡ (mem j s || k == j)
  mem-append_one k j [] = ground arith
  mem-append_one k j (i ∷ s) = ground (arith, mem-append_one k j s)

  pub mem-add : (k j : K) (s : List K) → mem j (add k s) ≡ (k == j || mem j s)
  mem-add k j s = ground (arith, mem-append_one k j s, e.beq_iff k j)

  pub mem-discard :
      (k j : K) (s : List K) → mem j (discard k s) ≡ (if k == j then false else mem j s)
  mem-discard k j [] = ground arith
  mem-discard k j (i ∷ s) =
      ground (arith, e.beq_iff k j, e.beq_iff i k, e.beq_iff i j, mem-discard k j s)

module _ {ℓ κ} {K : Type ℓ} {V : Type κ} ⦃e : Eq K⦄ where
  pub erase-absent : (k : K) (d : Dict K V) → lookup k d ≡ none → erase k d ≡ d
  erase-absent k [] h = refl
  erase-absent k ((j, w) ∷ d) h = elim (Bool-cases (j == k)) [
    | inl same ↦ absurd (ground (arith, h, same))
    | inr other ↦ rw other (ap (λ d'. (j, w) ∷ d') (erase-absent k d (rw other at h)))
  ]

-- A dictionary has no key twice.
module _ {ℓ κ} {K : Type ℓ} {V : Type κ} ⦃e : Eq K⦄ where
  abbrev pub HasUniqueKeys : Dict K V → Type κ
  HasUniqueKeys [] = Unit
  HasUniqueKeys ((k, v) ∷ d) = (lookup k d ≡ none) × HasUniqueKeys d

  pub insert-HasUniqueKeys :
      (k : K) (v : V) (d : Dict K V) → HasUniqueKeys d → HasUniqueKeys (insert k v d)
  insert-HasUniqueKeys k v [] h = (refl, tt)
  insert-HasUniqueKeys k v ((j, w) ∷ d) h =
      ground
        (arith, e.beq_iff j k, e.beq_iff k j, insert-HasUniqueKeys k v d h.1, lookup-insert k j v d)

  pub erase-HasUniqueKeys : (k : K) (d : Dict K V) → HasUniqueKeys d → HasUniqueKeys (erase k d)
  erase-HasUniqueKeys k [] h = tt
  erase-HasUniqueKeys k ((j, w) ∷ d) h =
      ground (arith, e.beq_iff j k, e.beq_iff k j, erase-HasUniqueKeys k d h.1, lookup-erase k j d)

  -- Each entry of the items is what the dictionary holds for its key.
  abbrev pub AllHeld : Dict K V → Dict K V → Type κ
  AllHeld d [] = Unit
  AllHeld d ((k, v) ∷ items) = (lookup k d ≡ some v) × AllHeld d items

  AllHeld-skip :
      (j : K) (w : V) (d items : Dict K V)
      → lookup j items ≡ none
      → AllHeld d items
      → AllHeld ((j, w) ∷ d) items
  AllHeld-skip j w d [] n h = tt
  AllHeld-skip j w d ((k, v) ∷ items) n h =
      (ground (arith, e.beq_iff j k, e.beq_iff k j), AllHeld-skip j w d items (ground arith) h.1)

  pub AllHeld-self : (d : Dict K V) → HasUniqueKeys d → AllHeld d d
  AllHeld-self [] h = tt
  AllHeld-self ((k, v) ∷ d) h =
      (ground (arith, e.beq_iff k k), AllHeld-skip k v d d h.0 (AllHeld-self d h.1))

  pub AllHeld-erase :
      (k : K) (d items : Dict K V)
      → lookup k items ≡ none
      → AllHeld d items
      → AllHeld (erase k d) items
  AllHeld-erase k d [] n h = tt
  AllHeld-erase k d ((j, v) ∷ items) n h = (
    ground (arith, e.beq_iff k j, e.beq_iff j k, lookup-erase k j d),
    AllHeld-erase k d items (ground arith) h.1,
  )
