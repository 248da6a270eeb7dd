-- ===== src/LocalStorage/Overwrite.antt =====
-- local_storage_client.go: what an upload leaves in the stage's file.
use gosnowflake.Base.{
  ℕ, zero, suc, ◌≡◌, refl, ◌∙◌, ap, true, false, Bool, not, ◌&&◌, Option, none, some, List, [], ◌∷◌,
  ◌++◌, length, drop, replicate, append-nil, length-replicate, arith, if_false, ◌≤◌,
}
use gosnowflake.Base.Text.{Bytes}
use gosnowflake.Chunk.Buffer.{Read, gives}
use gosnowflake.Encryption.{read_fuel, read_chunk}
use gosnowflake.Encryption.Cbc.{read_chunk-fits}
use gosnowflake.Storage.{FileMetadata, uploaded}
use gosnowflake.LocalStorage.{
  upload_for, Files, copied, returns, exists_file, bytes_of, put_file, after_read, copy_loop,
  after_copy, upload_to, upload_local_file,
}

drop-all : (n : ℕ) (xs : Bytes) → length xs ≤ n → drop n xs ≡ []
drop-all zero [] h = refl
drop-all zero (x ∷ xs) h = absurd (omega arith)
drop-all (suc n) [] h = refl
drop-all (suc n) (x ∷ xs) h = drop-all n xs (omega arith)

copy_loop-one :
    (fuel b : ℕ) (bs : Bytes)
    → copy_loop (suc (suc fuel)) (replicate (suc (length bs)) 0) (gives (b ∷ bs) ∷ []) []
      ≡ copied (b ∷ bs)
unfolding copy_loop read_chunk after_read
copy_loop-one fuel b bs =
    let size = length-replicate {0} {A = ℕ} (suc (length bs)) 0 in
    ap
      (λ (r : Option Bytes × List Read).
        after_read (λ buffer' written'. copy_loop (suc fuel) buffer' r.1 written')
          (replicate (suc (length bs)) 0) [] r.0)
      (read_chunk-fits (length (replicate (suc (length bs)) 0)) (b ∷ bs) [] (omega (arith, size)))
    ∙ ap (λ (xs : Bytes). copied (b ∷ (bs ++ xs)))
        (drop-all (length bs) (replicate (length bs) 0)
          (omega (arith, length-replicate {0} {A = ℕ} (length bs) 0)))
    ∙ ap (λ (xs : Bytes). copied (b ∷ xs)) (append-nil bs)

module _ {Error : Type 0} (can_open : Bytes → Bool) (expand_user : Bytes → Option Bytes)
    (join : Bytes → Bytes → Bytes) where
  -- If an upload that overwrites finds its stage and can open the file, and the source is read at
  -- once, it is UPLOADED and the source is in the file, followed by what the file held beyond its
  -- length.
  pub upload_local_file-overwrites :
      (location user : Bytes) (b : ℕ) (bs : Bytes) (meta : FileMetadata Error) (files : Files)
      → expand_user location ≡ some user
      → can_open (join user meta.dst_file_name) ≡ true
      → meta.overwrite ≡ true
      → upload_local_file can_open expand_user join
          (some (gives (b ∷ bs) ∷ []))
          location
          (suc (length bs))
          meta
          files
        ≡ returns none
            (record meta { dst_file_size = suc (length bs); res_status = uploaded })
            (put_file
              (join user meta.dst_file_name)
              ((b ∷ bs) ++ drop (suc (length bs)) (bytes_of (files (join user meta.dst_file_name))))
              files)
  unfolding upload_local_file upload_for upload_to read_fuel after_copy
  upload_local_file-overwrites location user b bs meta files found opens over =
      let path = join user meta.dst_file_name in
      let stays : (not meta.overwrite && exists_file (files path)) ≡ false =
        ap (λ (o : Bool). not o && exists_file (files path)) over in
      let fuel : read_fuel (gives (b ∷ bs) ∷ []) ≡ suc (suc (suc (length bs))) = omega arith in
      ap (upload_for can_open expand_user join (gives (b ∷ bs) ∷ []) (suc (length bs)) meta files)
        found
      ∙ if_false {b = not meta.overwrite && exists_file (files path)} _ _ stays
      ∙ if_false {b = not (can_open path)} _ _ (ap not opens)
      ∙ ap
          (λ (n : ℕ).
            after_copy (suc (length bs)) path meta files
              (copy_loop n (replicate (suc (length bs)) 0) (gives (b ∷ bs) ∷ []) []))
          fuel
      ∙ ap (after_copy (suc (length bs)) path meta files) (copy_loop-one (suc (length bs)) b bs)
