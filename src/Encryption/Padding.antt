-- ===== src/Encryption/Padding.antt =====
-- encrypt_util.go: the padding, and its removal.
use gosnowflake.Base.{
  ℕ, zero, suc, ◌+◌, ◌-◌, ◌%◌, ◌≡◌, ◌≢◌, refl, ap, ◌∙◌, some, [], ◌∷◌, ◌++◌, length, take,
  replicate, length-append, length-replicate, arith, ◌≤◌, append_assoc, ◌==◌, if_false, ltb, ◌||◌,
}
use gosnowflake.Base.Text.{Bytes}
use gosnowflake.Encryption.{trim_by, ok, pad_bytes_length, padding_trim, last_byte, block_size}

pub last_byte-append : (xs ys : Bytes) → ys ≢ [] → last_byte (xs ++ ys) ≡ last_byte ys
last_byte-append [] ys h = refl
last_byte-append (x ∷ []) [] h = absurd (h refl)
last_byte-append (x ∷ []) (y ∷ ys) h = refl
last_byte-append (x ∷ x' ∷ xs) ys h = last_byte-append (x' ∷ xs) ys h

last_byte-replicate : (n b : ℕ) → last_byte (replicate (suc n) b) ≡ some b
last_byte-replicate zero b = refl
last_byte-replicate (suc n) b = last_byte-replicate n b

replicate-nonempty : (n b : ℕ) → 1 ≤ n → replicate n b ≢ []
replicate-nonempty zero b h e = absurd (omega arith)
replicate-nonempty (suc n) b h e = cc

-- The length of the padding.
abbrev pub pad_length : Bytes → ℕ
pad_length src = block_size - length src % block_size

pub pad_length-InBlock : (src : Bytes) → (1 ≤ pad_length src) × (pad_length src ≤ 16)
pad_length-InBlock src = (omega arith, omega arith)

pub last_byte-pad_bytes_length :
    (src : Bytes) → last_byte (pad_bytes_length src block_size) ≡ some (pad_length src)
unfolding pad_bytes_length
last_byte-pad_bytes_length src =
    last_byte-append src (replicate (pad_length src) (pad_length src % 256))
      (replicate-nonempty _ _ (pad_length-InBlock src).0)
    ∙ of_size (pad_length src) (pad_length-InBlock src)
  where
    of_size : (n : ℕ) → (1 ≤ n) × (n ≤ 16) → last_byte (replicate n (n % 256)) ≡ some n
    of_size zero h = absurd (omega (arith, h.0))
    of_size (suc n) h =
        let small : suc n % 256 ≡ suc n = omega (arith, h.1) in
        last_byte-replicate n (suc n % 256) ∙ ap some small

pub length-pad_bytes_length :
    (src : Bytes) → length (pad_bytes_length src block_size) ≡ length src + pad_length src
unfolding pad_bytes_length
length-pad_bytes_length src = omega (
  arith,
  length-append {0} src (replicate (pad_length src) (pad_length src % 256)),
  length-replicate {0} (pad_length src) (pad_length src % 256),
)

pub pad_bytes_length-full : (src : Bytes) → length (pad_bytes_length src block_size) % 16 ≡ 0
pad_bytes_length-full src = omega (arith, length-pad_bytes_length src)

-- What stands behind full blocks is padded as if it stood alone.
pub pad_bytes_length-append :
    (xs ys : Bytes)
    → length xs % 16 ≡ 0
    → pad_bytes_length (xs ++ ys) block_size ≡ xs ++ pad_bytes_length ys block_size
unfolding pad_bytes_length
pad_bytes_length-append xs ys h =
    let same : pad_length (xs ++ ys) ≡ pad_length ys = omega (arith, length-append {0} xs ys) in
    ap (λ (n : ℕ). (xs ++ ys) ++ replicate n (n % 256)) same
    ∙ append_assoc xs ys (replicate (pad_length ys) (pad_length ys % 256))

take-length : (xs ys : Bytes) → take (length xs) (xs ++ ys) ≡ xs
take-length [] ys = refl
take-length (x ∷ xs) ys = ap (◌∷◌ x) (take-length xs ys)

pub take-pad_bytes_length :
    (src : Bytes) → take (length src) (pad_bytes_length src block_size) ≡ src
unfolding pad_bytes_length
take-pad_bytes_length src = take-length src (replicate (pad_length src) (pad_length src % 256))

-- `paddingTrim` takes off what `padBytesLength` has added in blocks of 16 bytes, whatever the bytes.
pub padding_trim-pad_bytes_length :
    (src : Bytes) → padding_trim (pad_bytes_length src block_size) ≡ ok src
unfolding padding_trim trim_by
padding_trim-pad_bytes_length src =
    ap (trim_by (pad_bytes_length src block_size)) (last_byte-pad_bytes_length src)
    ∙ if_false
        {b = pad_length src == 0 || ltb (length (pad_bytes_length src block_size)) (pad_length src)}
        _ _ (ground (arith, length-pad_bytes_length src))
    ∙ ap ok (
        ap (λ (n : ℕ). take n (pad_bytes_length src block_size))
          (omega (arith, length-pad_bytes_length src))
        ∙ take-pad_bytes_length src)
