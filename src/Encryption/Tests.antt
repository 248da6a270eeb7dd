-- ===== src/Encryption/Tests.antt =====
-- encrypt_util.go: a stream of two chunks with toy modes, and the theorems applied there.
use gosnowflake.Base.{
  ℕ, zero, suc, ◌≡◌, refl, ap, ◌∙◌, some, List, [], ◌∷◌, ◌++◌, map, length-map, replicate, take,
  ◌==◌, arith,
}
use gosnowflake.Base.Int.{pos}
use gosnowflake.Base.Text.{Bytes}
use gosnowflake.Chunk.Buffer.{gives, Read}
use gosnowflake.Encryption.{Library, ok, encrypt_stream_cbc, decrypt_stream_cbc, pad_bytes_length}
use gosnowflake.Encryption.Padding.{padding_trim-pad_bytes_length}
use gosnowflake.Encryption.{padding_trim}
use gosnowflake.Encryption.Ecb.{IsBlockCipher}
use gosnowflake.Encryption.Cbc.{IsCbc}
use gosnowflake.Encryption.RoundTrip.{decrypt_stream_cbc-encrypt_stream_cbc, metadata_of}

-- The number before.
abbrev back : ℕ → ℕ
back zero = zero
back (suc n) = n

-- A cipher that adds one to each byte, and a base64 that leaves the bytes as they are.
abbrev toy : Library (Unit {0}) (Unit {0})
toy = record {
  decode_base64 = some;
  encode_base64 = λ xs. xs;
  is_key_size = λ n. n == 16;
  encrypt_block = λ key block. map suc block;
  decrypt_block = λ key block. map back block;
  new_encrypter = λ key iv. tt;
  new_decrypter = λ key iv. tt;
  encrypt_blocks = λ m xs. (map suc xs, tt);
  decrypt_blocks = λ m xs. (map back xs, tt);
}

map-back : (xs : Bytes) → map back (map suc xs) ≡ xs
map-back [] = refl
map-back (x ∷ xs) = ap (◌∷◌ x) (map-back xs)

map-append : (f : ℕ → ℕ) (xs ys : Bytes) → map f (xs ++ ys) ≡ map f xs ++ map f ys
map-append f [] ys = refl
map-append f (x ∷ xs) ys = ap (◌∷◌ (f x)) (map-append f xs ys)

toy-IsBlockCipher : IsBlockCipher toy
toy-IsBlockCipher = record {
  length_encrypted = λ key block h. length-map suc block ∙ h;
  decrypted = λ key block h. map-back block;
}

toy-IsCbc : IsCbc toy
toy-IsCbc = record {
  length_encrypted = λ m xs h. length-map suc xs;
  length_decrypted = λ m xs h. length-map back xs;
  encrypts_on = λ m xs ys hx hy. map-append suc xs ys;
  decrypts_on = λ m xs ys hx hy. map-append back xs ys;
  decrypted = λ key iv xs hk hi hx. map-back xs;
}

abbrev key : Bytes
key = replicate 16 7

abbrev block : Bytes
block = replicate 16 65

-- A full block and a chunk of two bytes, and the cipher text in two reads.
abbrev plain_reads : List Read
plain_reads = gives block ∷ gives (1 ∷ 2 ∷ []) ∷ []

abbrev crypted_reads : List Read
crypted_reads = gives (replicate 16 66) ∷ gives (2 ∷ 3 ∷ replicate 14 15) ∷ []

decrypt_stream_cbc-encrypt_stream_cbc_example :
    (encrypt_stream_cbc toy key key key 16 plain_reads
      ≡ ok (metadata_of toy key key key, replicate 16 66 ++ 2 ∷ 3 ∷ replicate 14 15))
    × (out : Bytes) × (decrypt_stream_cbc toy (metadata_of toy key key key) key 0 crypted_reads
        ≡ ok (pos 18, out))
    × (take 18 out ≡ block ++ 1 ∷ 2 ∷ [])
unfolding pad_bytes_length
decrypt_stream_cbc-encrypt_stream_cbc_example =
    decrypt_stream_cbc-encrypt_stream_cbc toy toy-IsBlockCipher toy-IsCbc (λ xs. refl) key key key
      key refl refl refl refl 16 0 plain_reads crypted_reads refl (omega arith, refl, omega arith)
      (omega arith, refl, (omega arith, refl, tt)) refl

-- A short read in the middle is padded where it stands, and nothing is added at the end.
padded_in_the_middle :
    encrypt_stream_cbc toy key key key 16 (gives (1 ∷ 2 ∷ []) ∷ gives block ∷ [])
    ≡ ok (metadata_of toy key key key, (2 ∷ 3 ∷ replicate 14 15) ++ replicate 16 66)
unfolding encrypt_stream_cbc
padded_in_the_middle = refl

padding_trim-pad_bytes_length_example :
    padding_trim (pad_bytes_length (1 ∷ 2 ∷ []) 16) ≡ ok (1 ∷ 2 ∷ [])
padding_trim-pad_bytes_length_example = padding_trim-pad_bytes_length (1 ∷ 2 ∷ [])
