-- ===== src/Encryption/RoundTrip.antt =====
-- encrypt_util.go: a stream is encrypted and decrypted again, with the key that goes with it.
use gosnowflake.Base.{
  [], ℕ, zero, suc, ◌+◌, ◌%◌, ◌≡◌, refl, sym, ap, ◌∙◌, true, some, Option, List, length, take,
  arith, ◌==◌, false, ◌≤◌,
}
use gosnowflake.Base.Int.{pos, ◌-ℤ◌, ℤ}
use gosnowflake.Base.Text.{Bytes}
use gosnowflake.Chunk.Buffer.{Read}
use gosnowflake.Encryption.{
  Outcome, err, panics, out_of_fuel, ok, Library, EncryptMetadata, encrypt_stream_cbc,
  decrypt_stream_cbc, decrypt_file_key_ecb, default_chunk_size, encrypt_loop, end_encryption,
  read_fuel, pad_bytes_length, block_size, or_error, bad_base64, bad_key_size, or_panic, ◌>>=◌,
  last_byte,
}
use gosnowflake.Encryption.Padding.{
  pad_bytes_length-full, padding_trim-pad_bytes_length, take-pad_bytes_length,
  last_byte-pad_bytes_length, pad_length, length-pad_bytes_length,
}
use gosnowflake.Encryption.Ecb.{IsBlockCipher, ecb, encrypt_ecb-full, decrypt_ecb-ecb, check-true}
use gosnowflake.Encryption.Cbc.{IsCbc, FullReads, all_bytes, encrypt_loop-all}
use gosnowflake.Encryption.Decrypt.{BlockReads, decrypt_loop-all}

pos-minus : (n k total : ℕ) → total ≡ n + k → pos total -ℤ pos k ≡ pos n
unfolding ◌-ℤ◌
pos-minus n k total e = ground arith

bind_ok : {A B : Type 0} {m : Outcome A} {a : A} (f : A → Outcome B) → m ≡ ok a → (m >>= f) ≡ f a
bind_ok {A} f e = ap (λ (m : Outcome A). m >>= f) e

bind_assoc :
    {A B C : Type 0} (m : Outcome A) (f : A → Outcome B) (g : B → Outcome C)
    → (m >>= λ a. f a >>= g) ≡ ((m >>= f) >>= g)
bind_assoc (ok a) f g = refl
bind_assoc (err e) f g = refl
bind_assoc panics f g = refl
bind_assoc out_of_fuel f g = refl

default_chunk_size-blocks : (n : ℕ) → n % 16 ≡ 0 → default_chunk_size n % 16 ≡ 0
default_chunk_size-blocks zero h = refl
default_chunk_size-blocks (suc n) h = h

default_chunk_size-room : (n : ℕ) → n % 16 ≡ 0 → 16 ≤ default_chunk_size n
default_chunk_size-room zero h = omega arith
default_chunk_size-room (suc n) h = omega (arith, h)

module _ {E D : Type 0} (lib : Library E D) where
  -- What goes with an encrypted stream: the padded file key in ECB mode, and the initial vector.
  abbrev pub metadata_of : Bytes → Bytes → Bytes → EncryptMetadata
  metadata_of kek file_key data_iv = record {
    key = lib.encode_base64 (ecb lib kek (pad_bytes_length file_key block_size));
    iv = lib.encode_base64 data_iv;
  }

  -- The padded bytes in CBC mode.
  abbrev pub cipher_text : Bytes → Bytes → Bytes → Bytes
  cipher_text file_key data_iv plain =
      (lib.encrypt_blocks (lib.new_encrypter file_key data_iv)
        (pad_bytes_length plain block_size)).0

  -- A base64 text is decoded to the bytes that it was made of.
  abbrev pub IsBase64 : Type 0
  IsBase64 = (xs : Bytes) → lib.decode_base64 (lib.encode_base64 xs) ≡ some xs

  module _ (ecb_mode : IsBlockCipher lib) (cbc_mode : IsCbc lib) (base64 : IsBase64)
      (master_key kek file_key data_iv : Bytes) (decoded : lib.decode_base64 master_key ≡ some kek)
      (valid_kek : lib.is_key_size (length kek) ≡ true)
      (valid_key : lib.is_key_size (length file_key) ≡ true) where
    or_error-some :
        {A : Type 0} {o : Option Bytes} {xs : Bytes} (f : Bytes → Outcome A)
        → o ≡ some xs
        → (or_error bad_base64 o >>= f) ≡ f xs
    or_error-some f e = ap (λ (o : Option Bytes). or_error bad_base64 o >>= f) e

    encrypt_stream_cbc-FullReads :
        (chunk_size : ℕ) (reads : List Read)
        → chunk_size % 16 ≡ 0
        → FullReads (default_chunk_size chunk_size) reads
        → encrypt_stream_cbc lib master_key file_key data_iv chunk_size reads
          ≡ ok (metadata_of kek file_key data_iv, cipher_text file_key data_iv (all_bytes reads))
    unfolding encrypt_stream_cbc
    encrypt_stream_cbc-FullReads chunk_size reads blocks full =
        let size = default_chunk_size chunk_size in
        or_error-some _ decoded
        ∙ check-true bad_key_size _ valid_key
        ∙ bind_assoc
            (encrypt_loop lib (read_fuel reads) size size false (lib.new_encrypter file_key data_iv)
              reads [])
            (end_encryption lib size) _
        ∙ bind_ok _ (
            encrypt_loop-all lib cbc_mode size (default_chunk_size-blocks chunk_size blocks)
              (default_chunk_size-room chunk_size blocks) (read_fuel reads)
              (lib.new_encrypter file_key data_iv) reads [] (omega arith) full)
        ∙ bind_ok _ (
            encrypt_ecb-full lib ecb_mode kek valid_kek (pad_bytes_length file_key block_size)
              (pad_bytes_length-full file_key))

    decrypt_file_key_ecb-metadata_of :
        decrypt_file_key_ecb lib (metadata_of kek file_key data_iv) master_key
        ≡ ok (file_key, data_iv)
    unfolding decrypt_file_key_ecb
    decrypt_file_key_ecb-metadata_of =
        let padded = pad_bytes_length file_key block_size in
        or_error-some _ decoded
        ∙ or_error-some _ (base64 (ecb lib kek padded))
        ∙ or_error-some _ (base64 data_iv)
        ∙ bind_ok _
            (decrypt_ecb-ecb lib ecb_mode kek valid_kek padded (pad_bytes_length-full file_key))
        ∙ bind_ok _ (padding_trim-pad_bytes_length file_key)

    module _ (data_iv_block : length data_iv ≡ 16) where
      decrypt_stream_cbc-BlockReads :
          (chunk_size : ℕ) (plain : Bytes) (reads : List Read)
          → BlockReads (default_chunk_size chunk_size) reads
          → all_bytes reads ≡ cipher_text file_key data_iv plain
          → decrypt_stream_cbc lib (metadata_of kek file_key data_iv) master_key chunk_size reads
            ≡ ok (pos (length plain), pad_bytes_length plain block_size)
      unfolding decrypt_stream_cbc
      decrypt_stream_cbc-BlockReads chunk_size plain reads full same =
          let size = default_chunk_size chunk_size in
          let mode = lib.new_decrypter file_key data_iv in
          let back : (lib.decrypt_blocks mode (all_bytes reads)).0
              ≡ pad_bytes_length plain block_size =
            ap (λ (xs : Bytes). (lib.decrypt_blocks mode xs).0) same
            ∙ cbc_mode.decrypted file_key data_iv (pad_bytes_length plain block_size) valid_key
                data_iv_block (pad_bytes_length-full plain) in
          let many : length (all_bytes reads) ≡ length plain + pad_length plain =
            ap length same
            ∙ cbc_mode.length_encrypted (lib.new_encrypter file_key data_iv)
                (pad_bytes_length plain block_size) (pad_bytes_length-full plain)
            ∙ length-pad_bytes_length plain in
          let block : (length data_iv == block_size) ≡ true = ground arith in
          bind_ok _ decrypt_file_key_ecb-metadata_of
          ∙ check-true bad_key_size _ valid_key
          ∙ bind_ok {m = or_panic (length data_iv == block_size)} _ (ap or_panic block)
          ∙ decrypt_loop-all lib cbc_mode size (read_fuel reads) (pad_length plain) mode reads 0 _
              [] (omega arith) full (ap last_byte back ∙ last_byte-pad_bytes_length plain)
          ∙ ap (λ (n : ℤ). ok (n, (lib.decrypt_blocks mode (all_bytes reads)).0))
              (pos-minus (length plain) (pad_length plain) (0 + length (all_bytes reads))
                (omega (arith, many)))
          ∙ ap (λ (xs : Bytes). ok (pos (length plain), xs)) back

      -- A stream read in chunks of which all but the last are full of blocks is encrypted, and what
      -- is written, read in chunks full of blocks, is decrypted with the metadata to a size and
      -- bytes which, cut at that size, are the stream, if AES, CBC and base64 do what they
      -- promise, the keys are of a size that AES takes, the initial vector is a block and the
      -- chunk size of the encryption is full of blocks.
      pub decrypt_stream_cbc-encrypt_stream_cbc :
          (chunk_size chunk_size' : ℕ) (reads reads' : List Read)
          → chunk_size % 16 ≡ 0
          → FullReads (default_chunk_size chunk_size) reads
          → BlockReads (default_chunk_size chunk_size') reads'
          → all_bytes reads' ≡ cipher_text file_key data_iv (all_bytes reads)
          → (encrypt_stream_cbc lib master_key file_key data_iv chunk_size reads
              ≡ ok (metadata_of kek file_key data_iv, all_bytes reads'))
            × (out : Bytes) × (decrypt_stream_cbc lib
                  (metadata_of kek file_key data_iv)
                  master_key
                  chunk_size'
                  reads'
                ≡ ok (pos (length (all_bytes reads)), out))
            × (take (length (all_bytes reads)) out ≡ all_bytes reads)
      decrypt_stream_cbc-encrypt_stream_cbc chunk_size chunk_size' reads reads' blocks full full'
            same =
          (
            encrypt_stream_cbc-FullReads chunk_size reads blocks full
                ∙ ap (λ (xs : Bytes). ok (metadata_of kek file_key data_iv, xs)) (sym same),
            pad_bytes_length (all_bytes reads) block_size,
            decrypt_stream_cbc-BlockReads chunk_size' (all_bytes reads) reads' full' same,
            take-pad_bytes_length (all_bytes reads),
          )
