-- ===== src/Encryption/Ecb.antt =====
-- encrypt_util.go: ECB, and its inverse.
use gosnowflake.Base.{
  ℕ, zero, suc, ◌≡◌, refl, ap, ◌∙◌, List, [], ◌∷◌, ◌++◌, length, take, drop, length-append,
  length-take, length-drop, take-append-drop, arith, ◌≤◌, ◌*◌, true, Bool, replicate, ◌%◌,
  length-replicate, ◌/◌, append-nil, ◌==◌, leb, sym,
}
use gosnowflake.Base.Text.{Bytes}
use gosnowflake.Encryption.{
  Library, each_block, CryptError, overwrite, encrypt_ecb, decrypt_ecb, Outcome, ok, check,
  bad_key_size, ◌>>=◌, not_full_of_blocks, output_too_short,
}

-- What AES, in the key of a size that it takes, does at a block.
pub record IsBlockCipher {E D : Type 0} (lib : Library E D) : Type 0 where
  pub length_encrypted :
      (key block : Bytes) → length block ≡ 16 → length (lib.encrypt_block key block) ≡ 16
  pub decrypted :
      (key block : Bytes)
      → length block ≡ 16
      → lib.decrypt_block key (lib.encrypt_block key block) ≡ block

take_append : {A : Type 0} (n : ℕ) (xs ys : List A) → length xs ≡ n → take n (xs ++ ys) ≡ xs
take_append zero [] ys h = refl
take_append zero (x ∷ xs) ys h = absurd (omega arith)
take_append (suc n) [] ys h = absurd (omega arith)
take_append (suc n) (x ∷ xs) ys h = ap (◌∷◌ x) (take_append n xs ys (omega arith))

drop_append : {A : Type 0} (n : ℕ) (xs ys : List A) → length xs ≡ n → drop n (xs ++ ys) ≡ ys
drop_append zero [] ys h = refl
drop_append zero (x ∷ xs) ys h = absurd (omega arith)
drop_append (suc n) [] ys h = absurd (omega arith)
drop_append (suc n) (x ∷ xs) ys h = drop_append n xs ys (omega arith)

drop-all : {A : Type 0} (n : ℕ) (xs : List A) → length xs ≤ n → drop n xs ≡ []
drop-all zero [] h = refl
drop-all zero (x ∷ xs) h = absurd (omega arith)
drop-all (suc n) [] h = refl
drop-all (suc n) (x ∷ xs) h = drop-all n xs (omega arith)

-- A block, and then the rest.
each_block-step :
    (crypt : Bytes → Bytes) (fuel : ℕ) (xs : Bytes)
    → 16 ≤ length xs
    → each_block crypt (suc fuel) xs ≡ crypt (take 16 xs) ++ each_block crypt fuel (drop 16 xs)
unfolding each_block
each_block-step crypt fuel [] h = absurd (omega arith)
each_block-step crypt fuel (x ∷ xs) h = refl

each_block-nil : (crypt : Bytes → Bytes) (fuel : ℕ) → each_block crypt fuel [] ≡ []
unfolding each_block
each_block-nil crypt zero = refl
each_block-nil crypt (suc fuel) = refl

module _ {E D : Type 0} (lib : Library E D) (h : IsBlockCipher lib) (key : Bytes) where
  -- The rounds of encryption and of decryption, over a number of blocks.
  each_block-length :
      (blocks fuel : ℕ) (xs : Bytes)
      → length xs ≡ 16 * blocks
      → blocks ≤ fuel
      → length (each_block (lib.encrypt_block key) fuel xs) ≡ length xs
  each_block-length zero fuel [] e le = rw (each_block-nil (lib.encrypt_block key) fuel) refl
  each_block-length zero fuel (x ∷ xs) e le = absurd (omega arith)
  each_block-length (suc blocks) zero xs e le = absurd (omega arith)
  each_block-length (suc blocks) (suc fuel) xs e le =
      let first : length (take 16 xs) ≡ 16 = omega (arith, length-take {0} 16 xs) in
      let rest =
        each_block-length blocks fuel (drop 16 xs) (omega (arith, length-drop {0} 16 xs))
          (omega arith) in
      ap length (each_block-step (lib.encrypt_block key) fuel xs (omega arith))
      ∙ omega (
        arith,
        rest,
        length-drop {0} 16 xs,
        h.length_encrypted key (take 16 xs) first,
        length-append {0} (lib.encrypt_block key (take 16 xs))
            (each_block (lib.encrypt_block key) fuel (drop 16 xs)),
      )

  each_block-inverse :
      (blocks fuel fuel' : ℕ) (xs : Bytes)
      → length xs ≡ 16 * blocks
      → blocks ≤ fuel
      → blocks ≤ fuel'
      → each_block (lib.decrypt_block key) fuel' (each_block (lib.encrypt_block key) fuel xs) ≡ xs
  each_block-inverse zero fuel fuel' [] e le le' =
      ap (each_block (lib.decrypt_block key) fuel') (each_block-nil (lib.encrypt_block key) fuel)
      ∙ each_block-nil _ fuel'
  each_block-inverse zero fuel fuel' (x ∷ xs) e le le' = absurd (omega arith)
  each_block-inverse (suc blocks) zero fuel' xs e le le' = absurd (omega arith)
  each_block-inverse (suc blocks) (suc fuel) zero xs e le le' = absurd (omega arith)
  each_block-inverse (suc blocks) (suc fuel) (suc fuel') xs e le le' =
      let first : length (take 16 xs) ≡ 16 = omega (arith, length-take {0} 16 xs) in
      let c = lib.encrypt_block key (take 16 xs) in
      let cs = each_block (lib.encrypt_block key) fuel (drop 16 xs) in
      let full : length c ≡ 16 = h.length_encrypted key (take 16 xs) first in
      ap (each_block (lib.decrypt_block key) (suc fuel'))
        (each_block-step (lib.encrypt_block key) fuel xs (omega arith))
      ∙ each_block-step (lib.decrypt_block key) fuel' (c ++ cs)
          (omega (arith, length-append {0} c cs, full))
      ∙ ap
          (λ (ys : Bytes).
            lib.decrypt_block key ys
            ++ each_block (lib.decrypt_block key) fuel' (drop 16 (c ++ cs)))
          (take_append 16 c cs full)
      ∙ ap (λ (ys : Bytes). lib.decrypt_block key c ++ each_block (lib.decrypt_block key) fuel' ys)
          (drop_append 16 c cs full)
      ∙ ap (λ (ys : Bytes). ys ++ each_block (lib.decrypt_block key) fuel' cs)
          (h.decrypted key (take 16 xs) first)
      ∙ ap (λ (ys : Bytes). take 16 xs ++ ys)
          (each_block-inverse blocks fuel fuel' (drop 16 xs) (omega (arith, length-drop {0} 16 xs))
            (omega arith) (omega arith))
      ∙ take-append-drop 16 xs

pub check-true :
    {A : Type 0} (e : CryptError) {b : Bool} (f : Unit {0} → Outcome A)
    → b ≡ true
    → (check e b >>= f) ≡ f tt
check-true e f h = ap (λ (t : Bool). check e t >>= f) h

overwrite_all : (bytes : Bytes) (n : ℕ) → length bytes ≡ n → overwrite (replicate n 0) bytes ≡ bytes
overwrite_all bytes n h =
    ap (λ (xs : Bytes). bytes ++ xs)
      (drop-all (length bytes) (replicate n 0) (omega (arith, length-replicate {0} {A = ℕ} n 0)))
    ∙ append-nil bytes

-- The cipher text of full blocks.
abbrev pub ecb : {E D : Type 0} → Library E D → Bytes → Bytes → Bytes
ecb lib key xs = each_block (lib.encrypt_block key) (length xs) xs

module _ {E D : Type 0} (lib : Library E D) (h : IsBlockCipher lib) (key : Bytes)
    (valid : lib.is_key_size (length key) ≡ true) where
  pub length-ecb : (xs : Bytes) → length xs % 16 ≡ 0 → length (ecb lib key xs) ≡ length xs
  length-ecb xs full =
      each_block-length lib h key (length xs / 16) (length xs) xs (omega arith) (omega arith)

  pub encrypt_ecb-full :
      (xs : Bytes)
      → length xs % 16 ≡ 0
      → encrypt_ecb lib (replicate (length xs) 0) xs key ≡ ok (ecb lib key xs)
  unfolding encrypt_ecb
  encrypt_ecb-full xs full =
      check-true bad_key_size _ valid
      ∙ check-true not_full_of_blocks {b = length xs % 16 == 0} _ (ground arith)
      ∙ check-true output_too_short {b = leb (length xs) (length (replicate (length xs) 0))} _
          (ground (arith, length-replicate {0} {A = ℕ} (length xs) 0))
      ∙ ap ok (overwrite_all (ecb lib key xs) (length xs) (length-ecb xs full))

  -- `decryptECB` takes back what `encryptECB` has made of full blocks, each in a buffer of the length.
  pub decrypt_ecb-ecb :
      (xs : Bytes)
      → length xs % 16 ≡ 0
      → decrypt_ecb lib (replicate (length (ecb lib key xs)) 0) (ecb lib key xs) key ≡ ok xs
  unfolding decrypt_ecb
  decrypt_ecb-ecb xs full =
      let c = ecb lib key xs in
      let same = length-ecb xs full in
      let back =
        each_block-inverse lib h key (length xs / 16) (length xs) (length c) xs (omega arith)
          (omega arith) (omega (arith, same)) in
      check-true bad_key_size _ valid
      ∙ check-true not_full_of_blocks {b = length c % 16 == 0} _ (ground (arith, same))
      ∙ check-true output_too_short {b = leb (length c) (length (replicate (length c) 0))} _
          (ground (arith, length-replicate {0} {A = ℕ} (length c) 0))
      ∙ ap ok (
          overwrite_all (each_block (lib.decrypt_block key) (length c) c) (length c)
            (ap length back ∙ sym same)
          ∙ back)
