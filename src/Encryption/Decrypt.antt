-- ===== src/Encryption/Decrypt.antt =====
-- encrypt_util.go: the loop of `decryptStreamCBC`, for reads that are full of blocks.
use gosnowflake.Base.{
  ℕ, zero, suc, ◌+◌, ◌%◌, ◌≡◌, ◌≢◌, refl, sym, ap, ◌∙◌, Option, none, some, List, [], ◌∷◌, ◌++◌,
  length, length-append, arith, ◌≤◌, append-nil, append_assoc,
}
use gosnowflake.Base.Int.{pos, ◌-ℤ◌}
use gosnowflake.Base.Text.{Bytes}
use gosnowflake.Chunk.Buffer.{Read, gives, breaks}
use gosnowflake.Encryption.{
  Outcome, ok, Library, read_chunk, after_crypted_read, decrypt_loop, end_decryption, read_fuel,
  ◌>>=◌, last_byte, some_or_panic,
}
use gosnowflake.Encryption.Padding.{last_byte-append}
use gosnowflake.Encryption.Cbc.{IsCbc, all_bytes, fill_blocks-full, read_chunk-fits}

-- Reads of at least a byte that fit in the buffer and are full of blocks.
abbrev pub BlockReads : ℕ → List Read → Type 0
BlockReads cap [] = Unit {0}
BlockReads cap (breaks ∷ rs) = ⊥
BlockReads cap (gives [] ∷ rs) = ⊥
BlockReads cap (gives (b ∷ bs) ∷ rs) =
    (suc (length bs) ≤ cap) × (suc (length bs) % 16 ≡ 0) × BlockReads cap rs

pub all_bytes-full : (cap : ℕ) (rs : List Read) → BlockReads cap rs → length (all_bytes rs) % 16 ≡ 0
all_bytes-full cap [] h = refl
all_bytes-full cap (breaks ∷ rs) h = absurd h
all_bytes-full cap (gives [] ∷ rs) h = absurd h
all_bytes-full cap (gives (b ∷ bs) ∷ rs) (fits, e, h) =
    omega (arith, e, all_bytes-full cap rs h, length-append {0} bs (all_bytes rs))

abbrev or_empty : Option Bytes → Bytes
or_empty none = []
or_empty (some xs) = xs

module _ {E D : Type 0} (lib : Library E D) (h : IsCbc lib) (cap : ℕ) where
  decrypt_loop-full :
      (fuel : ℕ) (mode : D) (b : ℕ) (bs : Bytes) (rs : List Read) (total : ℕ) (prev : Option Bytes)
      (out : Bytes)
      → suc (length bs) ≤ cap
      → suc (length bs) % 16 ≡ 0
      → decrypt_loop lib (suc fuel) cap mode (gives (b ∷ bs) ∷ rs) total prev out
        ≡ decrypt_loop lib fuel cap
            (lib.decrypt_blocks mode (b ∷ bs)).1
            rs
            (total + suc (length bs))
            (some (lib.decrypt_blocks mode (b ∷ bs)).0)
            (out ++ (lib.decrypt_blocks mode (b ∷ bs)).0)
  unfolding decrypt_loop after_crypted_read
  decrypt_loop-full fuel mode b bs rs total prev out fits full =
      ap
        (λ (r : Option Bytes × List Read).
          after_crypted_read lib
            (λ mode' total' prev' out'. decrypt_loop lib fuel cap mode' r.1 total' prev' out') mode
            total prev out r.0)
        (read_chunk-fits cap (b ∷ bs) rs fits)
      ∙ ap
          (λ (xs : Bytes).
            decrypt_loop lib fuel cap (lib.decrypt_blocks mode xs).1 rs (total + length xs)
              (some (lib.decrypt_blocks mode xs).0) (out ++ (lib.decrypt_blocks mode xs).0))
          (fill_blocks-full (b ∷ bs) full)

  decrypt_loop-nil :
      (fuel : ℕ) (mode : D) (total : ℕ) (prev : Option Bytes) (out : Bytes)
      → decrypt_loop lib (suc fuel) cap mode [] total prev out ≡ ok (total, prev, out)
  unfolding decrypt_loop read_chunk after_crypted_read
  decrypt_loop-nil fuel mode total prev out = refl

  end_decryption-padding :
      (total k : ℕ) (prev : Option Bytes) (out : Bytes)
      → last_byte (or_empty prev) ≡ some k
      → end_decryption lib (total, prev, out) ≡ ok (pos total -ℤ pos k, out)
  unfolding end_decryption
  end_decryption-padding total k none out e = cc
  end_decryption-padding total k (some xs) out e =
      ap (λ (o : Option ℕ). some_or_panic o >>= λ n. ok (pos total -ℤ pos n, out)) e

  decrypt_blocks-nil : (mode : D) → (lib.decrypt_blocks mode []).0 ≡ []
  decrypt_blocks-nil mode = empty (lib.decrypt_blocks mode []).0 (h.length_decrypted mode [] refl)
    where
      empty : (xs : Bytes) → length xs ≡ 0 → xs ≡ []
      empty [] e = refl
      empty (x ∷ xs) e = absurd (omega arith)

  decrypt_blocks-nonempty :
      (mode : D) (b : ℕ) (bs : Bytes)
      → suc (length bs) % 16 ≡ 0
      → (lib.decrypt_blocks mode (b ∷ bs)).0 ≢ []
  decrypt_blocks-nonempty mode b bs full e =
      absurd (omega (arith, h.length_decrypted mode (b ∷ bs) full, ap length e))

  -- The rounds and their end write the bytes decrypted, and take their last byte off the size.
  pub decrypt_loop-all :
      (fuel k : ℕ) (mode : D) (reads : List Read) (total : ℕ) (prev : Option Bytes) (out : Bytes)
      → read_fuel reads ≤ fuel
      → BlockReads cap reads
      → last_byte (or_empty prev ++ (lib.decrypt_blocks mode (all_bytes reads)).0) ≡ some k
      → (decrypt_loop lib fuel cap mode reads total prev out >>= end_decryption lib)
        ≡ ok (
          pos (total + length (all_bytes reads)) -ℤ pos k,
          out ++ (lib.decrypt_blocks mode (all_bytes reads)).0,
        )
  unfolding read_fuel
  decrypt_loop-all zero k mode [] total prev out le full e = absurd (omega arith)
  decrypt_loop-all zero k mode (breaks ∷ rs) total prev out le full e = absurd full
  decrypt_loop-all zero k mode (gives bs ∷ rs) total prev out le full e = absurd (omega arith)
  decrypt_loop-all (suc fuel) k mode [] total prev out le full e =
      let ends_so : last_byte (or_empty prev) ≡ some k =
        ap last_byte (
          sym (append-nil (or_empty prev))
          ∙ ap (λ (xs : Bytes). or_empty prev ++ xs) (sym (decrypt_blocks-nil mode)))
        ∙ e in
      ap (λ (o : Outcome (ℕ × Option Bytes × Bytes)). o >>= end_decryption lib)
        (decrypt_loop-nil fuel mode total prev out)
      ∙ end_decryption-padding total k prev out ends_so
      ∙ ap (λ (xs : Bytes). ok (pos total -ℤ pos k, xs))
          (sym (append-nil out) ∙ ap (λ (xs : Bytes). out ++ xs) (sym (decrypt_blocks-nil mode)))
      ∙ ap (λ (n : ℕ). ok (pos n -ℤ pos k, out ++ (lib.decrypt_blocks mode []).0)) (omega arith)
  decrypt_loop-all (suc fuel) k mode (gives (b ∷ bs) ∷ rs) total prev out le (fits, whole, full) e =
      let c = lib.decrypt_blocks mode (b ∷ bs) in
      let cs = (lib.decrypt_blocks c.1 (all_bytes rs)).0 in
      let joined : (lib.decrypt_blocks mode (b ∷ bs ++ all_bytes rs)).0 ≡ c.0 ++ cs =
        h.decrypts_on mode (b ∷ bs) (all_bytes rs) whole (all_bytes-full cap rs full) in
      let last : last_byte (c.0 ++ cs) ≡ some k =
        sym (
          last_byte-append (or_empty prev) (c.0 ++ cs)
            (append-nonempty c.0 cs (decrypt_blocks-nonempty mode b bs whole)))
        ∙ ap (λ (xs : Bytes). last_byte (or_empty prev ++ xs)) (sym joined)
        ∙ e in
      ap (λ (o : Outcome (ℕ × Option Bytes × Bytes)). o >>= end_decryption lib)
        (decrypt_loop-full fuel mode b bs rs total prev out fits whole)
      ∙ decrypt_loop-all fuel k c.1 rs (total + suc (length bs)) (some c.0) (out ++ c.0)
          (omega arith) full last
      ∙ ap (λ (n : ℕ). ok (pos n -ℤ pos k, (out ++ c.0) ++ cs))
          (omega (arith, length-append {0} bs (all_bytes rs)))
      ∙ ap (λ (xs : Bytes). ok (pos (total + length (b ∷ bs ++ all_bytes rs)) -ℤ pos k, xs))
          (append_assoc out c.0 cs ∙ ap (λ (xs : Bytes). out ++ xs) (sym joined))
    where
      append-nonempty : (xs ys : Bytes) → xs ≢ [] → xs ++ ys ≢ []
      append-nonempty [] ys ne e = absurd (ne refl)
      append-nonempty (x ∷ xs) ys ne e = cc
  decrypt_loop-all (suc fuel) k mode (breaks ∷ rs) total prev out le full e = absurd full
  decrypt_loop-all (suc fuel) k mode (gives [] ∷ rs) total prev out le full e = absurd full
