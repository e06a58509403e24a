-- ===== src/Accounts/Passwords.antt =====
-- services/db_handler.py: `hash_password` and `verify_password`. The digest, base 64 and `int` are
-- parameters; what is used of them stands among a theorem's hypotheses.
use crypto_trading_system.Base.{
  Bool, Option, [], ap, arith, false, if◌then◌else◌, list_beq_iff, list_eq, nat_eq, none, option_eq,
  refl, some, sym, true, ℕ, ◌&&◌, ◌++◌, ◌==◌, ◌↔◌, ◌∙◌, ◌∷◌, ◌≡◌,
}
use crypto_trading_system.Base.Dict.{mem}
use crypto_trading_system.Base.Text.{Text, codes}
use crypto_trading_system.Database.Log.{digits_from, str}

-- `_PBKDF2_ITERATIONS`
abbrev pub iterations : ℕ
iterations = 260000

-- The text up to the first dollar sign, and what comes behind it.
unfoldable pub split_once : Text → Text × Option Text
split_once [] = ([], none)
split_once (c ∷ s) =
    let rest = split_once s in if c == 36 then ([], some s) else (c ∷ rest.0, rest.1)

unfoldable pub third_part : Text → Text → Text × Option Text → Option (Text × Text × Text × Text)
third_part a b (c, none) = none
third_part a b (c, some d) = some (a, b, c, d)

unfoldable pub second_part : Text → Text × Option Text → Option (Text × Text × Text × Text)
second_part a (b, none) = none
second_part a (b, some rest) = third_part a b (split_once rest)

unfoldable pub first_part : Text × Option Text → Option (Text × Text × Text × Text)
first_part (a, none) = none
first_part (a, some rest) = second_part a (split_once rest)

-- `stored.split("$", 3)`, if it gives four parts.
unfoldable pub split_stored : Text → Option (Text × Text × Text × Text)
split_stored stored = first_part (split_once stored)

-- PBKDF2 with SHA-256 of a password, a salt and a number of rounds, URL-safe base 64 and `int`.
pub record Digest : Type 0 where
  pub pbkdf2 : Text → Text → ℕ → Text
  pub encode : Text → Text
  -- `none` is a `ValueError`, also that of the digest for a number of rounds below 1.
  pub decode : Text → Option Text
  pub parse_int : Text → Option ℕ

module _ (d : Digest) where
  unfoldable pub hash_password : Text → Text → Text
  hash_password password salt =
      codes "pbkdf2_sha256"
      ++ 36
        ∷ (str iterations
            ++ 36 ∷ (d.encode salt ++ 36 ∷ d.encode (d.pbkdf2 password salt iterations)))

  unfoldable pub same_digest : Text → Text → Option Text → Option ℕ → Bool
  same_digest password digest none rounds = false
  same_digest password digest (some salt) none = false
  same_digest password digest (some salt) (some rounds) =
      d.encode (d.pbkdf2 password salt rounds) == digest

  unfoldable pub verify_parts : Text → Option (Text × Text × Text × Text) → Bool
  verify_parts password none = false
  verify_parts password (some (algorithm, rounds, salt, digest)) =
      algorithm == codes "pbkdf2_sha256"
      && same_digest password digest (d.decode salt) (d.parse_int rounds)

  unfoldable pub verify_password : Text → Text → Bool
  verify_password password stored = verify_parts password (split_stored stored)

split_once-part : (a rest : Text) → mem 36 a ≡ false → split_once (a ++ 36 ∷ rest) ≡ (a, some rest)
unfolding split_once
split_once-part [] rest h = refl
split_once-part (c ∷ a) rest h =
    let other : (c == 36) ≡ false = ground (arith, h) in
    let later : mem 36 a ≡ false = ground (arith, h) in
    rw other (rw (split_once-part a rest later) refl)

module _ (d : Digest) (salt : Text) (no_dollar : mem 36 (d.encode salt) ≡ false) where
  split-hash :
      (password : Text)
      → split_stored (hash_password d password salt)
        ≡ some (
          codes "pbkdf2_sha256",
          str iterations,
          d.encode salt,
          d.encode (d.pbkdf2 password salt iterations),
        )
  unfolding split_stored hash_password first_part second_part third_part str digits_from
  split-hash password =
      let digest = d.encode (d.pbkdf2 password salt iterations) in
      ap first_part (
        split_once-part (codes "pbkdf2_sha256")
          (str iterations ++ 36 ∷ (d.encode salt ++ 36 ∷ digest)) refl)
      ∙ ap (second_part (codes "pbkdf2_sha256"))
          (split_once-part (str iterations) (d.encode salt ++ 36 ∷ digest) refl)
      ∙ ap (third_part (codes "pbkdf2_sha256") (str iterations))
          (split_once-part (d.encode salt) digest no_dollar)

-- Of a stored hash, the password that was hashed is accepted, and any other exactly if its digest with
-- the same salt and rounds is written the same. Base 64 has no dollar sign and `decode` undoes `encode`
-- at the salt, and `int` reads what `str` writes.
pub verify-hash :
    (d : Digest) (salt : Text)
    → mem 36 (d.encode salt) ≡ false
    → d.decode (d.encode salt) ≡ some salt
    → d.parse_int (str iterations) ≡ some iterations
    → (password other : Text)
    → (verify_password d password (hash_password d password salt) ≡ true)
      × ((verify_password d other (hash_password d password salt) ≡ true) ↔ (
          d.encode (d.pbkdf2 other salt iterations) ≡ d.encode (d.pbkdf2 password salt iterations)))
unfolding verify_password verify_parts same_digest
verify-hash d salt no_dollar decodes reads password other =
    let digest : Text → Text = λ (p : Text). d.encode (d.pbkdf2 p salt iterations) in
    let run : (p : Text)
        → verify_password d p (hash_password d password salt) ≡ (digest p == digest password) =
      λ (p : Text). rw (split-hash d salt no_dollar password) (rw (decodes, reads) refl) in
    (
      run password ∙ (list_beq_iff (digest password) (digest password)).1 refl,
      (
        λ e. (list_beq_iff (digest other) (digest password)).0 (sym (run other) ∙ e),
        λ e. run other ∙ (list_beq_iff (digest other) (digest password)).1 e,
      ),
    )
