-- ===== src/Database/Newest.antt =====
-- `ORDER BY … DESC LIMIT ?`: the newest rows of a table by a rank. Of two rows with one rank the later
-- inserted comes first, as `id DESC` asks of the order log; the others leave it open. The ranks are
-- times whose texts end in `+00:00`, which stands before `.`, so they stand as the times do.
use crypto_trading_system.Base.{
  All, Bool, Bool-cases, List, [], arith, count, if◌then◌else◌, inl, inr, leb, leb→le, refl, take,
  ℕ, ◌+◌, ◌∷◌, ◌≡◌, ◌≤◌,
}

module _ {ℓ} {A : Type ℓ} (rank : A → ℕ) where
  unfoldable pub insert_newest : A → List A → List A
  insert_newest x [] = x ∷ []
  insert_newest x (y ∷ ys) =
      let rest = insert_newest x ys in if leb (rank y) (rank x) then x ∷ y ∷ ys else y ∷ rest

  unfoldable pub sort_newest : List A → List A → List A
  sort_newest [] sorted = sorted
  sort_newest (x ∷ xs) sorted = sort_newest xs (insert_newest x sorted)

  unfoldable pub newest : ℕ → List A → List A
  newest max_rows rows = take max_rows (sort_newest rows [])

  -- No row is newer than one before it.
  abbrev pub IsNewestFirst : List A → Type 0
  IsNewestFirst [] = Unit
  IsNewestFirst (x ∷ xs) = All (λ y. rank y ≤ rank x) xs × IsNewestFirst xs

  All-insert_newest :
      (n : ℕ) (x : A) (ys : List A)
      → rank x ≤ n
      → All (λ y. rank y ≤ n) ys
      → All (λ y. rank y ≤ n) (insert_newest x ys)
  unfolding insert_newest
  All-insert_newest n x [] h k = (h, tt)
  All-insert_newest n x (y ∷ ys) h k = ground (arith, h, k.0, k.1, All-insert_newest n x ys h k.1)

  lower-All : (m n : ℕ) (ys : List A) → m ≤ n → All (λ y. rank y ≤ m) ys → All (λ y. rank y ≤ n) ys
  lower-All m n [] h k = tt
  lower-All m n (y ∷ ys) h k = (omega (arith, h, k.0), lower-All m n ys h k.1)

  insert_newest-IsNewestFirst :
      (x : A) (ys : List A) → IsNewestFirst ys → IsNewestFirst (insert_newest x ys)
  unfolding insert_newest
  insert_newest-IsNewestFirst x [] h = (tt, tt)
  insert_newest-IsNewestFirst x (y ∷ ys) h = elim (Bool-cases (leb (rank y) (rank x))) [
    | inl newer ↦ rw newer (
      (
        leb→le (rank y) (rank x) newer,
        lower-All (rank y) (rank x) ys (leb→le (rank y) (rank x) newer) h.0,
      ),
      h,
    )
    | inr older ↦ rw older (
      All-insert_newest (rank y) x ys (ground (arith, older)) h.0,
      insert_newest-IsNewestFirst x ys h.1,
    )
  ]

  sort_newest-IsNewestFirst :
      (xs sorted : List A) → IsNewestFirst sorted → IsNewestFirst (sort_newest xs sorted)
  unfolding sort_newest
  sort_newest-IsNewestFirst [] sorted h = h
  sort_newest-IsNewestFirst (x ∷ xs) sorted h =
      sort_newest-IsNewestFirst xs (insert_newest x sorted) (insert_newest-IsNewestFirst x sorted h)

  count-insert_newest :
      (p : A → Bool) (x : A) (ys : List A)
      → count p (insert_newest x ys) ≡ (if p x then 1 else 0) + count p ys
  unfolding insert_newest
  count-insert_newest p x [] = refl
  count-insert_newest p x (y ∷ ys) = elim (Bool-cases (leb (rank y) (rank x))) [
    | inl newer ↦ rw newer refl
    | inr older ↦ rw older (omega (arith, count-insert_newest p x ys))
  ]

  count-sort_newest :
      (p : A → Bool) (xs sorted : List A)
      → count p (sort_newest xs sorted) ≡ count p xs + count p sorted
  unfolding sort_newest
  count-sort_newest p [] sorted = omega arith
  count-sort_newest p (x ∷ xs) sorted =
      omega (arith, count-sort_newest p xs (insert_newest x sorted), count-insert_newest p x sorted)

  -- A list is the newest of some rows if it is cut off an ordering of exactly these rows.
  pub record AreNewest (max_rows : ℕ) (rows found : List A) : Type ℓ where
    pub ordering : List A
    pub is_ordered : IsNewestFirst ordering
    pub same_rows : (p : A → Bool) → count p ordering ≡ count p rows
    pub cut : found ≡ take max_rows ordering

  pub newest-AreNewest :
      (max_rows : ℕ) (rows : List A) → AreNewest max_rows rows (newest max_rows rows)
  unfolding newest
  newest-AreNewest max_rows rows = record {
    ordering = sort_newest rows [];
    is_ordered = sort_newest-IsNewestFirst rows [] tt;
    same_rows = λ p. omega (arith, count-sort_newest p rows []);
    cut = refl;
  }
