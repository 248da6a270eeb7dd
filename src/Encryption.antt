-- ===== src/Encryption.antt =====
-- encrypt_util.go: the files of a stage in CBC mode, with the file's key in ECB mode.
-- The Go library's base64, AES and CBC modes are a `Library`; what is random is an argument. Bytes
-- are numbers below 256. A reader is the list of what its reads give, and a writer takes all bytes.
use gosnowflake.Base.Int.{ℤ, pos, ◌-ℤ◌}
use gosnowflake.Base.{
  ℕ, zero, suc, ◌+◌, ◌-◌, ◌%◌, Bool, true, false, not, ◌||◌, Option, none, some, if◌then◌else◌,
  List, [], ◌∷◌, ◌++◌, length, take, drop, get_elem?, replicate, ◌==◌, ltb, leb,
}
use gosnowflake.Base.Text.{Bytes}
use gosnowflake.Chunk.Buffer.{Read, gives, breaks}
pub mod Padding
pub mod Ecb
pub mod Cbc
pub mod Decrypt
pub mod RoundTrip
mod Tests

-- The states of an encrypting and of a decrypting block mode are `E` and `D`.
pub record Library (E D : Type 0) : Type 0 where
  pub decode_base64 : Bytes → Option Bytes
  pub encode_base64 : Bytes → Bytes
  pub is_key_size : ℕ → Bool
  pub encrypt_block : Bytes → Bytes → Bytes
  pub decrypt_block : Bytes → Bytes → Bytes
  pub new_encrypter : Bytes → Bytes → E
  pub new_decrypter : Bytes → Bytes → D
  pub encrypt_blocks : E → Bytes → Bytes × E
  pub decrypt_blocks : D → Bytes → Bytes × D

pub data CryptError : Type 0 where
  bad_base64 bad_key_size not_full_of_blocks output_too_short read_failed invalid_padding :
      CryptError

-- `panics` is an index out of range or a buffer that is too small.
pub data Outcome {ℓ} (A : Type ℓ) : Type ℓ where
  ok : A → Outcome A
  err : CryptError → Outcome A
  panics : Outcome A
  out_of_fuel : Outcome A

infixl 5 ◌>>=◌
abbrev pub ◌>>=◌ : {A B : Type 0} → Outcome A → (A → Outcome B) → Outcome B
ok a >>= f = f a
err e >>= f = err e
panics >>= f = panics
out_of_fuel >>= f = out_of_fuel

abbrev pub or_error : {A : Type 0} → CryptError → Option A → Outcome A
or_error e none = err e
or_error e (some a) = ok a

abbrev pub or_panic : Bool → Outcome (Unit {0})
or_panic true = ok tt
or_panic false = panics

-- Nothing, or an error unless the test holds.
abbrev pub check : CryptError → Bool → Outcome (Unit {0})
check e true = ok tt
check e false = err e

abbrev pub block_size : ℕ
block_size = 16

-- `padBytesLength`.
unfoldable pub pad_bytes_length : Bytes → ℕ → Bytes
pad_bytes_length src size =
    let pad_length = size - length src % size in src ++ replicate pad_length (pad_length % 256)

-- The last byte.
abbrev pub last_byte : Bytes → Option ℕ
last_byte [] = none
last_byte (x ∷ []) = some x
last_byte (x ∷ y ∷ xs) = last_byte (y ∷ xs)

-- What `paddingTrim` does at a last byte.
unfoldable pub trim_by : Bytes → Option ℕ → Outcome Bytes
trim_by src none = panics
trim_by src (some n) =
    if n == 0 || ltb (length src) n then err invalid_padding else ok (take (length src - n) src)

-- `paddingTrim`.
unfoldable pub padding_trim : Bytes → Outcome Bytes
unfolding trim_by
padding_trim src = trim_by src (last_byte src)

abbrev pub some_or_panic : Option ℕ → Outcome ℕ
some_or_panic none = panics
some_or_panic (some n) = ok n

-- `paddingOffset`.
abbrev pub padding_offset : Bytes → Outcome ℕ
padding_offset src = some_or_panic (last_byte src)

-- The loop of `encryptECB` and of `decryptECB`, with the length as fuel: every round takes a block.
unfoldable pub each_block : (Bytes → Bytes) → ℕ → Bytes → Bytes
each_block crypt zero src = []
each_block crypt (suc fuel) [] = []
each_block crypt (suc fuel) (x ∷ xs) =
    crypt (take block_size (x ∷ xs)) ++ each_block crypt fuel (drop block_size (x ∷ xs))

-- What is written from the start of a buffer.
abbrev pub overwrite : Bytes → Bytes → Bytes
overwrite buffer bytes = bytes ++ drop (length bytes) buffer

-- `encryptMetadata` without the material descriptor.
pub record EncryptMetadata : Type 0 where
  pub key : Bytes
  pub iv : Bytes

-- A read into a buffer of a size: the bytes, or none if it fails, and what is left.
unfoldable pub read_chunk : ℕ → List Read → Option Bytes × List Read
read_chunk cap [] = (some [], [])
read_chunk cap (breaks ∷ rs) = (none, rs)
read_chunk cap (gives bs ∷ rs) =
    if ltb cap (length bs) then (some (take cap bs), gives (drop cap bs) ∷ rs) else (some bs, rs)

-- A chunk that is not full of blocks is padded.
unfoldable pub fill_blocks : Bytes → Bytes
unfolding pad_bytes_length
fill_blocks bs = if length bs % block_size == 0 then bs else pad_bytes_length bs block_size

abbrev pub default_chunk_size : ℕ → ℕ
default_chunk_size zero = 65536
default_chunk_size (suc n) = suc n

-- The bytes that reads give, and one: as many rounds as the loops can take.
unfoldable pub read_fuel : List Read → ℕ
read_fuel [] = 1
read_fuel (breaks ∷ rs) = 1
read_fuel (gives bs ∷ rs) = length bs + suc (read_fuel rs)

module _ {E D : Type 0} (lib : Library E D) where
  -- `encryptECB`; the result is the buffer.
  unfoldable pub encrypt_ecb : Bytes → Bytes → Bytes → Outcome Bytes
  unfolding each_block
  encrypt_ecb encrypted file_key decoded_key =
      check bad_key_size (lib.is_key_size (length decoded_key)) >>= λ _.
      check not_full_of_blocks (length file_key % block_size == 0) >>= λ _.
      check output_too_short (leb (length file_key) (length encrypted)) >>= λ _.
      ok (
        overwrite encrypted (each_block (lib.encrypt_block decoded_key) (length file_key) file_key))

  -- `decryptECB`; the result is the buffer.
  unfoldable pub decrypt_ecb : Bytes → Bytes → Bytes → Outcome Bytes
  unfolding each_block
  decrypt_ecb decrypted key_bytes decoded_key =
      check bad_key_size (lib.is_key_size (length decoded_key)) >>= λ _.
      check not_full_of_blocks (length key_bytes % block_size == 0) >>= λ _.
      check output_too_short (leb (length key_bytes) (length decrypted)) >>= λ _. ok (
        overwrite decrypted
          (each_block (lib.decrypt_block decoded_key) (length key_bytes) key_bytes))

  -- What the loop of `encryptStreamCBC` does with a read. `cap` is the length of `chunk`, which
  -- padding makes the length of the padded bytes.
  unfoldable pub after_read :
      (ℕ → Bool → E → Bytes → Outcome (E × Bool × Bytes))
      → ℕ
      → ℕ
      → Bool
      → E
      → Bytes
      → Option Bytes
      → Outcome (E × Bool × Bytes)
  unfolding fill_blocks
  after_read rest chunk_size cap padded mode out none = err read_failed
  after_read rest chunk_size cap padded mode out (some []) = ok (mode, padded, out)
  after_read rest chunk_size cap padded mode out (some (b ∷ bs)) =
      let full = length (b ∷ bs) % block_size == 0 in
      let chunk = fill_blocks (b ∷ bs) in
      let crypted = lib.encrypt_blocks mode chunk in
      if ltb chunk_size (length chunk)
      then panics
      else rest (if full then cap else length chunk) (if full then padded else true) crypted.1
          (out ++ crypted.0)

  unfoldable pub encrypt_loop :
      ℕ → ℕ → ℕ → Bool → E → List Read → Bytes → Outcome (E × Bool × Bytes)
  unfolding read_chunk after_read
  encrypt_loop zero chunk_size cap padded mode reads out = out_of_fuel
  encrypt_loop (suc fuel) chunk_size cap padded mode reads out =
      let r = read_chunk cap reads in
      after_read
        (λ cap' padded' mode' out'. encrypt_loop fuel chunk_size cap' padded' mode' r.1 out')
        chunk_size cap padded mode out r.0

  -- The padding that is added if there was none yet; `cipherText`, of the chunk size, has to take it.
  unfoldable pub end_encryption : ℕ → E × Bool × Bytes → Outcome Bytes
  end_encryption chunk_size (mode, padded, out) =
      if padded
      then ok out
      else if ltb chunk_size block_size
      then panics
      else ok (out ++ (lib.encrypt_blocks mode (replicate block_size block_size)).0)

  -- `encryptStreamCBC`, given the master key, the random file key and the random initial vector.
  unfoldable pub encrypt_stream_cbc :
      Bytes → Bytes → Bytes → ℕ → List Read → Outcome (EncryptMetadata × Bytes)
  unfolding encrypt_loop end_encryption read_fuel encrypt_ecb pad_bytes_length
  encrypt_stream_cbc master_key file_key data_iv chunk_size reads =
      or_error bad_base64 (lib.decode_base64 master_key) >>= λ kek.
      check bad_key_size (lib.is_key_size (length file_key)) >>= λ _.
      encrypt_loop (read_fuel reads) (default_chunk_size chunk_size) (default_chunk_size chunk_size)
        false (lib.new_encrypter file_key data_iv) reads []
      >>= λ done. end_encryption (default_chunk_size chunk_size) done >>= λ out.
          let padded_key = pad_bytes_length file_key block_size in
          encrypt_ecb (replicate (length padded_key) 0) padded_key kek >>= λ encrypted.
          ok (record { key = lib.encode_base64 encrypted; iv = lib.encode_base64 data_iv }, out)

  -- `decryptFileKeyECB`.
  unfoldable pub decrypt_file_key_ecb : EncryptMetadata → Bytes → Outcome (Bytes × Bytes)
  unfolding decrypt_ecb padding_trim
  decrypt_file_key_ecb metadata master_key =
      or_error bad_base64 (lib.decode_base64 master_key) >>= λ decoded_key.
      or_error bad_base64 (lib.decode_base64 metadata.key) >>= λ key_bytes.
      or_error bad_base64 (lib.decode_base64 metadata.iv) >>= λ iv_bytes.
      decrypt_ecb (replicate (length key_bytes) 0) key_bytes decoded_key >>= λ decrypted.
      padding_trim decrypted >>= λ key. ok (key, iv_bytes)

  -- What the loop of `decryptStreamCBC` does with a read.
  unfoldable pub after_crypted_read :
      (D → ℕ → Option Bytes → Bytes → Outcome (ℕ × Option Bytes × Bytes))
      → D
      → ℕ
      → Option Bytes
      → Bytes
      → Option Bytes
      → Outcome (ℕ × Option Bytes × Bytes)
  unfolding fill_blocks
  after_crypted_read rest mode total prev out none = err read_failed
  after_crypted_read rest mode total prev out (some []) = ok (total, prev, out)
  after_crypted_read rest mode total prev out (some (b ∷ bs)) =
      let chunk = fill_blocks (b ∷ bs) in
      let plain = lib.decrypt_blocks mode chunk in
      rest plain.1 (total + length chunk) (some plain.0) (out ++ plain.0)

  unfoldable pub decrypt_loop :
      ℕ → ℕ → D → List Read → ℕ → Option Bytes → Bytes → Outcome (ℕ × Option Bytes × Bytes)
  unfolding read_chunk after_crypted_read
  decrypt_loop zero chunk_size mode reads total prev out = out_of_fuel
  decrypt_loop (suc fuel) chunk_size mode reads total prev out =
      let r = read_chunk chunk_size reads in
      after_crypted_read
        (λ mode' total' prev' out'. decrypt_loop fuel chunk_size mode' r.1 total' prev' out') mode
        total prev out r.0

  -- The padding is taken off the size.
  unfoldable pub end_decryption : ℕ × Option Bytes × Bytes → Outcome (ℤ × Bytes)
  end_decryption (total, none, out) = ok (pos total, out)
  end_decryption (total, some prev, out) = padding_offset prev >>= λ n. ok (pos total -ℤ pos n, out)

  -- `decryptStreamCBC`: the size and what is written.
  unfoldable pub decrypt_stream_cbc : EncryptMetadata → Bytes → ℕ → List Read → Outcome (ℤ × Bytes)
  unfolding decrypt_file_key_ecb decrypt_loop end_decryption read_fuel
  decrypt_stream_cbc metadata master_key chunk_size reads =
      decrypt_file_key_ecb metadata master_key >>= λ keys.
      check bad_key_size (lib.is_key_size (length keys.0)) >>= λ _.
      or_panic (length keys.1 == block_size) >>= λ _.
      decrypt_loop (read_fuel reads) (default_chunk_size chunk_size)
        (lib.new_decrypter keys.0 keys.1) reads 0 none []
      >>= λ done. end_decryption done
