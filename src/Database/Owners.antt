-- ===== src/Database/Owners.antt =====
-- Rows and the accounts that own them: which rows stay when an account's are dropped.
use mathlib.Core.Path.{subst}
use crypto_trading_system.Base.{
  Bool, Bool-cases, Eq, Option, [], ap, arith, if◌then◌else◌, inl, inr, list_eq, nat_eq, none, not,
  option_eq, refl, some, true, ℕ, ◌==◌, ◌∷◌, ◌≡◌,
}
use crypto_trading_system.Base.Dict.{Dict, HasUniqueKeys, erase, insert, lookup}
use crypto_trading_system.Database.Users.{without_user}

module _ {ℓ κ} {K : Type ℓ} {V : Type κ} ⦃e : Eq K⦄ where
  -- Each row satisfies a test.
  abbrev pub Every : (K → V → Bool) → Dict K V → Type 0
  Every p [] = Unit {0}
  Every p ((k, v) ∷ d) = (p k v ≡ true) × Every p d

  pub Every-insert :
      (p : K → V → Bool) (k : K) (v : V) (d : Dict K V)
      → p k v ≡ true
      → Every p d
      → Every p (insert k v d)
  Every-insert p k v [] h a = (h, tt)
  Every-insert p k v ((j, w) ∷ d) h a = elim (Bool-cases (j == k)) [
    | inl same ↦ rw same (h, a.1)
    | inr other ↦ rw other (a.0, Every-insert p k v d h a.1)
  ]

  pub Every-erase : (p : K → V → Bool) (k : K) (d : Dict K V) → Every p d → Every p (erase k d)
  Every-erase p k [] a = tt
  Every-erase p k ((j, w) ∷ d) a = elim (Bool-cases (j == k)) [
    | inl same ↦ rw same (Every-erase p k d a.1)
    | inr other ↦ rw other (a.0, Every-erase p k d a.1)
  ]

  pub Every-lookup :
      (p : K → V → Bool) (k : K) (v : V) (d : Dict K V)
      → Every p d
      → lookup k d ≡ some v
      → p k v ≡ true
  Every-lookup p k v [] a h = absurd (ground (arith, h))
  Every-lookup p k v ((j, w) ∷ d) a h = elim (Bool-cases (j == k)) [
    | inl same ↦
        let here : some w ≡ some v = (rw same at h) in
        ground (arith, here, (e.beq_iff j k).0 same, a.0)
    | inr other ↦ Every-lookup p k v d a.1 (rw other at h)
  ]

  pub Every-imp :
      (p q : K → V → Bool)
      → ((k : K) (v : V) → p k v ≡ true → q k v ≡ true)
      → (d : Dict K V) → Every p d
      → Every q d
  Every-imp p q f [] a = tt
  Every-imp p q f ((k, v) ∷ d) a = (f k v a.0, Every-imp p q f d a.1)

  pub Every-both :
      (p q r : K → V → Bool)
      → ((k : K) (v : V) → p k v ≡ true → q k v ≡ true → r k v ≡ true)
      → (d : Dict K V) → Every p d
      → Every q d
      → Every r d
  Every-both p q r f [] a b = tt
  Every-both p q r f ((k, v) ∷ d) a b = (f k v a.0 b.0, Every-both p q r f d a.1 b.1)

  -- A new row that is taken out again leaves the table as it was.
  pub erase-insert_new :
      (k : K) (v : V) (d : Dict K V) → lookup k d ≡ none → erase k (insert k v d) ≡ d
  erase-insert_new k v [] h = ground (arith, e.beq_iff k k)
  erase-insert_new k v ((j, w) ∷ d) h = elim (Bool-cases (j == k)) [
    | inl same ↦ absurd (ground (arith, h, same))
    | inr other ↦
        rw other (rw other (ap (λ d'. (j, w) ∷ d') (erase-insert_new k v d (rw other at h))))
  ]

  module _ (owner : K → V → ℕ) where
    -- No row of an account.
    abbrev pub Foreign : ℕ → Dict K V → Type 0
    Foreign user_id = Every (λ k v. not (owner k v == user_id))

    pub without_user-Foreign :
        (user_id : ℕ) (d : Dict K V) → Foreign user_id (without_user owner user_id d)
    unfolding without_user
    without_user-Foreign user_id [] = tt
    without_user-Foreign user_id ((k, v) ∷ d) = elim (Bool-cases (owner k v == user_id)) [
      | inl same ↦ rw same (without_user-Foreign user_id d)
      | inr other ↦ rw other (ground (arith, other), without_user-Foreign user_id d)
    ]

    pub without_user-id :
        (user_id : ℕ) (d : Dict K V) → Foreign user_id d → without_user owner user_id d ≡ d
    unfolding without_user
    without_user-id user_id [] a = refl
    without_user-id user_id ((k, v) ∷ d) a = elim (Bool-cases (owner k v == user_id)) [
      | inl same ↦ absurd (ground (arith, same, a.0))
      | inr other ↦ rw other (ap (λ d'. (k, v) ∷ d') (without_user-id user_id d a.1))
    ]

    pub Every-without_user :
        (p : K → V → Bool) (user_id : ℕ) (d : Dict K V)
        → Every p d
        → Every p (without_user owner user_id d)
    unfolding without_user
    Every-without_user p user_id [] a = tt
    Every-without_user p user_id ((k, v) ∷ d) a = elim (Bool-cases (owner k v == user_id)) [
      | inl same ↦ rw same (Every-without_user p user_id d a.1)
      | inr other ↦ rw other (a.0, Every-without_user p user_id d a.1)
    ]

    lookup-without_user-none :
        (user_id : ℕ) (k : K) (d : Dict K V)
        → lookup k d ≡ none
        → lookup k (without_user owner user_id d) ≡ none
    unfolding without_user
    lookup-without_user-none user_id k [] h = refl
    lookup-without_user-none user_id k ((j, w) ∷ d) h =
        ground (arith, h, lookup-without_user-none user_id k d)

    -- What a key that is there once stands for afterwards.
    abbrev pub kept : ℕ → K → Option V → Option V
    kept user_id k none = none
    kept user_id k (some v) = if owner k v == user_id then none else some v

    here :
        (user_id : ℕ) (j : K) (w : V) (d : Dict K V)
        → lookup j (without_user owner user_id d) ≡ none
        → lookup j (without_user owner user_id ((j, w) ∷ d))
          ≡ kept user_id j (lookup j ((j, w) ∷ d))
    unfolding without_user
    here user_id j w d gone =
        let self : (j == j) ≡ true = (e.beq_iff j j).1 refl in
        rw self (elim (Bool-cases (owner j w == user_id)) [
          | inl dropped ↦ rw dropped gone
          | inr stays ↦ rw stays (rw self refl)
        ])

    pub lookup-without_user :
        (user_id : ℕ) (k : K) (d : Dict K V)
        → HasUniqueKeys d
        → lookup k (without_user owner user_id d) ≡ kept user_id k (lookup k d)
    unfolding without_user
    lookup-without_user user_id k [] u = refl
    lookup-without_user user_id k ((j, w) ∷ d) u =
        let rest = lookup-without_user user_id k d u.1 in
        let gone = lookup-without_user-none user_id j d u.0 in
        elim (Bool-cases (j == k)) [
          | inl same ↦
              let jk : j ≡ k = (e.beq_iff j k).0 same in
              subst
                (λ i.
                  lookup i (without_user owner user_id ((j, w) ∷ d))
                  ≡ kept user_id i (lookup i ((j, w) ∷ d)))
                jk (here user_id j w d gone)
          | inr other ↦ rw other (elim (Bool-cases (owner j w == user_id)) [
            | inl dropped ↦ rw dropped rest
            | inr stays ↦ rw stays (rw other rest)
          ])
        ]

module _ {ℓ} {V : Type ℓ} where
  pub erase-Foreign : (id : ℕ) (d : Dict ℕ V) → Foreign (λ k v. k) id (erase id d)
  erase-Foreign id [] = tt
  erase-Foreign id ((k, v) ∷ d) = elim (Bool-cases (k == id)) [
    | inl same ↦ rw same (erase-Foreign id d)
    | inr other ↦ rw other (ground (arith, other), erase-Foreign id d)
  ]

module _ {ℓ κ} {K : Type ℓ} {V : Type κ} ⦃e : Eq K⦄ (owner : K → V → ℕ) where
  pub without_user-HasUniqueKeys :
      (user_id : ℕ) (d : Dict K V) → HasUniqueKeys d → HasUniqueKeys (without_user owner user_id d)
  unfolding without_user
  without_user-HasUniqueKeys user_id [] u = tt
  without_user-HasUniqueKeys user_id ((k, v) ∷ d) u = elim (Bool-cases (owner k v == user_id)) [
    | inl same ↦ rw same (without_user-HasUniqueKeys user_id d u.1)
    | inr other ↦
        rw other
          (lookup-without_user-none owner user_id k d u.0, without_user-HasUniqueKeys user_id d u.1)
  ]
