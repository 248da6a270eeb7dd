-- ===== src/Encryption/Cbc.antt =====
-- encrypt_util.go: the loops over the chunks of a stream, for reads that are full of blocks.
use gosnowflake.Base.{
  ℕ, zero, suc, ◌%◌, ◌≡◌, refl, sym, ap, ◌∙◌, true, false, Bool, Bool-cases, Option, some, List, [],
  ◌∷◌, ◌++◌, length, arith, ◌≤◌, append-nil, append_assoc, ◌==◌, ltb, if_true, if_false, inl, inr,
  if◌then◌else◌, ◌⊎◌,
}
use gosnowflake.Base.Text.{Bytes}
use gosnowflake.Chunk.Buffer.{Read, gives, breaks}
use gosnowflake.Encryption.{
  Outcome, ok, Library, block_size, fill_blocks, read_chunk, after_read, encrypt_loop,
  end_encryption, read_fuel, pad_bytes_length, ◌>>=◌,
}
use gosnowflake.Encryption.Padding.{
  pad_bytes_length-append, pad_bytes_length-full, length-pad_bytes_length,
}

-- What a CBC mode does: several calls are as one call on the blocks together, and decryption with the
-- same key and initial vector takes encryption back.
pub record IsCbc {E D : Type 0} (lib : Library E D) : Type 0 where
  pub length_encrypted :
      (m : E) (xs : Bytes) → length xs % 16 ≡ 0 → length (lib.encrypt_blocks m xs).0 ≡ length xs
  pub length_decrypted :
      (m : D) (xs : Bytes) → length xs % 16 ≡ 0 → length (lib.decrypt_blocks m xs).0 ≡ length xs
  pub encrypts_on :
      (m : E) (xs ys : Bytes)
      → length xs % 16 ≡ 0
      → length ys % 16 ≡ 0
      → (lib.encrypt_blocks m (xs ++ ys)).0
        ≡ (lib.encrypt_blocks m xs).0 ++ (lib.encrypt_blocks (lib.encrypt_blocks m xs).1 ys).0
  pub decrypts_on :
      (m : D) (xs ys : Bytes)
      → length xs % 16 ≡ 0
      → length ys % 16 ≡ 0
      → (lib.decrypt_blocks m (xs ++ ys)).0
        ≡ (lib.decrypt_blocks m xs).0 ++ (lib.decrypt_blocks (lib.decrypt_blocks m xs).1 ys).0
  pub decrypted :
      (key iv xs : Bytes)
      → lib.is_key_size (length key) ≡ true
      → length iv ≡ 16
      → length xs % 16 ≡ 0
      → (lib.decrypt_blocks
          (lib.new_decrypter key iv)
          (lib.encrypt_blocks (lib.new_encrypter key iv) xs).0).0
        ≡ xs

-- Reads of at least a byte that fit in the buffer; all but the last are full of blocks.
abbrev pub FullReads : ℕ → List Read → Type 0
FullReads cap [] = Unit {0}
FullReads cap (breaks ∷ rs) = ⊥
FullReads cap (gives [] ∷ rs) = ⊥
FullReads cap (gives (b ∷ bs) ∷ []) = suc (length bs) ≤ cap
FullReads cap (gives (b ∷ bs) ∷ r ∷ rs) =
    (suc (length bs) ≤ cap) × (suc (length bs) % 16 ≡ 0) × FullReads cap (r ∷ rs)

-- All bytes that reads give.
abbrev pub all_bytes : List Read → Bytes
all_bytes [] = []
all_bytes (breaks ∷ rs) = []
all_bytes (gives bs ∷ rs) = bs ++ all_bytes rs

pub fill_blocks-full : (xs : Bytes) → length xs % 16 ≡ 0 → fill_blocks xs ≡ xs
unfolding fill_blocks
fill_blocks-full xs h = if_true {b = length xs % 16 == 0} _ _ (ground arith)

fill_blocks-partial :
    (xs : Bytes) → (length xs % 16 == 0) ≡ false → fill_blocks xs ≡ pad_bytes_length xs block_size
unfolding fill_blocks
fill_blocks-partial xs h = if_false {b = length xs % 16 == 0} _ _ h

pub read_chunk-fits :
    (cap : ℕ) (bs : Bytes) (rs : List Read)
    → length bs ≤ cap
    → read_chunk cap (gives bs ∷ rs) ≡ (some bs, rs)
unfolding read_chunk
read_chunk-fits cap bs rs h = if_false {b = ltb cap (length bs)} _ _ (ground arith)

module _ {E D : Type 0} (lib : Library E D) (h : IsCbc lib) (cap : ℕ) (blocks : cap % 16 ≡ 0)
    (room : 16 ≤ cap) where
  -- A round of encryption with a chunk that fits when it is padded.
  encrypt_loop-round :
      (fuel : ℕ) (mode : E) (b : ℕ) (bs : Bytes) (rs : List Read) (out : Bytes)
      → suc (length bs) ≤ cap
      → encrypt_loop lib (suc fuel) cap cap false mode (gives (b ∷ bs) ∷ rs) out
        ≡ encrypt_loop lib fuel cap
            (if suc (length bs) % 16 == 0 then cap else length (fill_blocks (b ∷ bs)))
            (if suc (length bs) % 16 == 0 then false else true)
            (lib.encrypt_blocks mode (fill_blocks (b ∷ bs))).1
            rs
            (out ++ (lib.encrypt_blocks mode (fill_blocks (b ∷ bs))).0)
  unfolding encrypt_loop after_read
  encrypt_loop-round fuel mode b bs rs out fits =
      ap
        (λ (r : Option Bytes × List Read).
          after_read lib
            (λ cap' padded' mode' out'. encrypt_loop lib fuel cap cap' padded' mode' r.1 out') cap
            cap false mode out r.0)
        (read_chunk-fits cap (b ∷ bs) rs fits)
      ∙ if_false {b = ltb cap (length (fill_blocks (b ∷ bs)))} _ _
          (filled-fits (Bool-cases (suc (length bs) % 16 == 0)))
    where
      filled-fits :
          ((suc (length bs) % 16 == 0) ≡ true) ⊎ ((suc (length bs) % 16 == 0) ≡ false)
          → ltb cap (length (fill_blocks (b ∷ bs))) ≡ false
      filled-fits (inl e) = ground (arith, ap length (fill_blocks-full (b ∷ bs) (ground arith)))
      filled-fits (inr e) =
          ground
            (arith, ap length (fill_blocks-partial (b ∷ bs) e), length-pad_bytes_length (b ∷ bs))

  encrypt_loop-full :
      (fuel : ℕ) (mode : E) (b : ℕ) (bs : Bytes) (rs : List Read) (out : Bytes)
      → suc (length bs) ≤ cap
      → suc (length bs) % 16 ≡ 0
      → encrypt_loop lib (suc fuel) cap cap false mode (gives (b ∷ bs) ∷ rs) out
        ≡ encrypt_loop lib fuel cap cap false
            (lib.encrypt_blocks mode (b ∷ bs)).1
            rs
            (out ++ (lib.encrypt_blocks mode (b ∷ bs)).0)
  encrypt_loop-full fuel mode b bs rs out fits full =
      let test : (suc (length bs) % 16 == 0) ≡ true = ground arith in
      encrypt_loop-round fuel mode b bs rs out fits
      ∙ ap
          (λ (t : Bool).
            encrypt_loop lib fuel cap (if t then cap else length (fill_blocks (b ∷ bs)))
              (if t then false else true) (lib.encrypt_blocks mode (fill_blocks (b ∷ bs))).1 rs
              (out ++ (lib.encrypt_blocks mode (fill_blocks (b ∷ bs))).0))
          test
      ∙ ap
          (λ (xs : Bytes).
            encrypt_loop lib fuel cap cap false (lib.encrypt_blocks mode xs).1 rs
              (out ++ (lib.encrypt_blocks mode xs).0))
          (fill_blocks-full (b ∷ bs) full)

  encrypt_loop-partial :
      (fuel : ℕ) (mode : E) (b : ℕ) (bs : Bytes) (rs : List Read) (out : Bytes)
      → suc (length bs) ≤ cap
      → (suc (length bs) % 16 == 0) ≡ false
      → encrypt_loop lib (suc fuel) cap cap false mode (gives (b ∷ bs) ∷ rs) out
        ≡ encrypt_loop lib fuel cap
            (length (pad_bytes_length (b ∷ bs) block_size))
            true
            (lib.encrypt_blocks mode (pad_bytes_length (b ∷ bs) block_size)).1
            rs
            (out ++ (lib.encrypt_blocks mode (pad_bytes_length (b ∷ bs) block_size)).0)
  encrypt_loop-partial fuel mode b bs rs out fits test =
      encrypt_loop-round fuel mode b bs rs out fits
      ∙ ap
          (λ (t : Bool).
            encrypt_loop lib fuel cap (if t then cap else length (fill_blocks (b ∷ bs)))
              (if t then false else true) (lib.encrypt_blocks mode (fill_blocks (b ∷ bs))).1 rs
              (out ++ (lib.encrypt_blocks mode (fill_blocks (b ∷ bs))).0))
          test
      ∙ ap
          (λ (xs : Bytes).
            encrypt_loop lib fuel cap (length xs) true (lib.encrypt_blocks mode xs).1 rs
              (out ++ (lib.encrypt_blocks mode xs).0))
          (fill_blocks-partial (b ∷ bs) test)

  encrypt_loop-nil :
      (fuel cap' : ℕ) (padded : Bool) (mode : E) (out : Bytes)
      → encrypt_loop lib (suc fuel) cap cap' padded mode [] out ≡ ok (mode, padded, out)
  unfolding encrypt_loop read_chunk after_read
  encrypt_loop-nil fuel cap' padded mode out = refl

  end_encryption-padding :
      (mode : E) (out : Bytes)
      → end_encryption lib cap (mode, false, out)
        ≡ ok (out ++ (lib.encrypt_blocks mode (pad_bytes_length [] block_size)).0)
  unfolding end_encryption pad_bytes_length
  end_encryption-padding mode out = if_false {b = ltb cap block_size} _ _ (ground (arith, room))

  end_encryption-padded :
      (mode : E) (out : Bytes) → end_encryption lib cap (mode, true, out) ≡ ok out
  unfolding end_encryption
  end_encryption-padded mode out = refl

  -- Bytes behind full blocks.
  encrypted_on :
      (mode : E) (out xs ys : Bytes)
      → length xs % 16 ≡ 0
      → ((out ++ (lib.encrypt_blocks mode xs).0)
          ++ (lib.encrypt_blocks (lib.encrypt_blocks mode xs).1 (pad_bytes_length ys block_size)).0)
        ≡ out ++ (lib.encrypt_blocks mode (pad_bytes_length (xs ++ ys) block_size)).0
  encrypted_on mode out xs ys full =
      append_assoc out (lib.encrypt_blocks mode xs).0
        (lib.encrypt_blocks (lib.encrypt_blocks mode xs).1 (pad_bytes_length ys block_size)).0
      ∙ ap (λ (zs : Bytes). out ++ zs)
          (sym (
              h.encrypts_on mode xs (pad_bytes_length ys block_size) full
                (pad_bytes_length-full ys))
            ∙ ap (λ (zs : Bytes). (lib.encrypt_blocks mode zs).0)
                (sym (pad_bytes_length-append xs ys full)))

  -- The rounds and the padding at their end write the cipher text of the padded bytes.
  pub encrypt_loop-all :
      (fuel : ℕ) (mode : E) (reads : List Read) (out : Bytes)
      → read_fuel reads ≤ fuel
      → FullReads cap reads
      → (encrypt_loop lib fuel cap cap false mode reads out >>= end_encryption lib cap)
        ≡ ok (out ++ (lib.encrypt_blocks mode (pad_bytes_length (all_bytes reads) block_size)).0)
  unfolding read_fuel
  encrypt_loop-all zero mode [] out le full = absurd (omega arith)
  encrypt_loop-all zero mode (breaks ∷ rs) out le full = absurd full
  encrypt_loop-all zero mode (gives bs ∷ rs) out le full = absurd (omega arith)
  encrypt_loop-all (suc fuel) mode [] out le full =
      ap (λ (o : Outcome (E × Bool × Bytes)). o >>= end_encryption lib cap)
        (encrypt_loop-nil fuel cap false mode out)
      ∙ end_encryption-padding mode out
  encrypt_loop-all (suc zero) mode (gives (b ∷ bs) ∷ []) out le full = absurd (omega arith)
  encrypt_loop-all (suc (suc fuel)) mode (gives (b ∷ bs) ∷ []) out le full =
      elim (Bool-cases (suc (length bs) % 16 == 0)) [
        | inl test ↦
            let whole : suc (length bs) % 16 ≡ 0 = ground arith in
            ap (λ (o : Outcome (E × Bool × Bytes)). o >>= end_encryption lib cap)
              (encrypt_loop-full (suc fuel) mode b bs [] out full whole
                ∙ encrypt_loop-nil fuel cap false _ _)
            ∙ end_encryption-padding _ _
            ∙ ap ok (encrypted_on mode out (b ∷ bs) [] whole)
        | inr test ↦
            ap (λ (o : Outcome (E × Bool × Bytes)). o >>= end_encryption lib cap)
              (encrypt_loop-partial (suc fuel) mode b bs [] out full test
                ∙ encrypt_loop-nil fuel _ true _ _)
            ∙ end_encryption-padded _ _
            ∙ ap
                (λ (xs : Bytes).
                  ok (out ++ (lib.encrypt_blocks mode (pad_bytes_length xs block_size)).0))
                (sym (append-nil (b ∷ bs)))
      ]
  encrypt_loop-all (suc fuel) mode (gives (b ∷ bs) ∷ r ∷ rs) out le (fits, e, full) =
      ap (λ (o : Outcome (E × Bool × Bytes)). o >>= end_encryption lib cap)
        (encrypt_loop-full fuel mode b bs (r ∷ rs) out fits e)
      ∙ encrypt_loop-all fuel (lib.encrypt_blocks mode (b ∷ bs)).1 (r ∷ rs)
          (out ++ (lib.encrypt_blocks mode (b ∷ bs)).0) (omega arith) full
      ∙ ap ok (encrypted_on mode out (b ∷ bs) (all_bytes (r ∷ rs)) e)
  encrypt_loop-all (suc fuel) mode (breaks ∷ rs) out le full = absurd full
  encrypt_loop-all (suc fuel) mode (gives [] ∷ rs) out le full = absurd full
