-- ===== src/Transfer.antt =====
-- file_transfer_agent.go: the uploads of large files one after the other, over storage_client.go,
-- for a stage in a cloud, for which `getStorageClient` gives the remote client.
-- What the agent does with files and the server is a record of steps. The clients and the presigned
-- URLs, which a renewal replaces for the files that are left, are part of the world. The removal of
-- the temporary directory is left out.
use gosnowflake.Base.{
  ℕ, zero, suc, Bool, true, false, Option, none, some, if◌then◌else◌, List, [], ◌∷◌, ◌++◌,
}
use gosnowflake.Storage.{
  FileMetadata, Call, CloudUtil, TransferError, from_cloud, Outcome, returns, panics, ResultStatus,
  renew_token, renew_presigned_url, upload_one_file_with_retry,
}
pub mod Sequential
mod Tests

-- `os.MkdirTemp`, `compressDataIfRequired`, `updateUploadSize`, `encryptDataIfRequired`,
-- `renewExpiredClient` and `updateFileMetadataWithPresignedURL`.
pub record Steps (World Error : Type 0) : Type 0 where
  pub make_temp_dir : World → Option Error × World
  pub compress_data_if_required : FileMetadata Error → World → Call World Error (Unit {0})
  pub update_upload_size : FileMetadata Error → World → Call World Error (Unit {0})
  pub encrypt_data_if_required : FileMetadata Error → World → Call World Error (Unit {0})
  pub renew_expired_client : World → Option Error × World
  pub update_presigned_urls : World → Option Error × World

-- What `uploadOneFile` returns.
pub data FileResult (World Error : Type 0) : Type 0 where
  finished :
      Option (FileMetadata Error) → Option (TransferError Error) → World → FileResult World Error
  crashes : FileResult World Error

-- What `uploadFilesSequential` comes to, with `sfa.results`; `out_of_fuel` ends the model's loop.
pub data FilesResult (World Error : Type 0) : Type 0 where
  done : List (FileMetadata Error) → World → FilesResult World Error
  stopped : TransferError Error → List (FileMetadata Error) → World → FilesResult World Error
  crashed : FilesResult World Error
  out_of_fuel : FilesResult World Error

abbrev pub is_renew_token : ResultStatus → Bool
is_renew_token renew_token = true
is_renew_token s = false

abbrev pub is_renew_presigned_url : ResultStatus → Bool
is_renew_presigned_url renew_presigned_url = true
is_renew_presigned_url s = false

module _ {World Error : Type 0} where
  -- The end of `uploadOneFile`.
  unfoldable pub file_result : Outcome World Error → FileResult World Error
  file_result panics = crashes
  file_result (returns e meta world) = finished (some meta) e world

  -- A step of `uploadOneFile`, and the rest if it has no error.
  unfoldable pub and_then :
      Call World Error (Unit {0})
      → (FileMetadata Error → World → FileResult World Error)
      → FileResult World Error
  and_then c rest = elim c.error [
    | some e ↦ finished (some c.meta) (some (from_cloud e)) c.world
    | none ↦ rest c.meta c.world
  ]

  -- A renewal, and the rest if it has no error.
  unfoldable pub after_renewal :
      List (FileMetadata Error)
      → (World → FilesResult World Error)
      → Option Error × World
      → FilesResult World Error
  after_renewal results rest (some e, world) = stopped (from_cloud e) results world
  after_renewal results rest (none, world) = rest world

  module _ {Header : Type 0} (steps : Steps World Error) (util : CloudUtil World Error Header) where
    -- `uploadOneFile` in the temporary directory.
    unfoldable pub upload_in_dir : FileMetadata Error → World → FileResult World Error
    unfolding file_result and_then
    upload_in_dir meta world =
        and_then (steps.compress_data_if_required meta world) (λ meta1 world1.
          and_then (steps.update_upload_size meta1 world1) (λ meta2 world2.
            and_then (steps.encrypt_data_if_required meta2 world2)
              (λ meta3 world3. file_result (upload_one_file_with_retry util meta3 world3))))

    -- `uploadOneFile` of the agent.
    unfoldable pub transfer_one_file : FileMetadata Error → World → FileResult World Error
    unfolding upload_in_dir
    transfer_one_file meta world =
        let dir = steps.make_temp_dir world in
        elim dir.0 [
          | some e ↦ finished none (some (from_cloud e)) dir.1
          | none ↦ upload_in_dir (record meta { real_src_file_name = meta.src_file_name }) dir.1
        ]

    -- What the loop does with a result: `again` is the next round at the same file, and `next` the
    -- one at the file behind it.
    unfoldable pub after_file :
        (FileMetadata Error → World → FilesResult World Error)
        → (List (FileMetadata Error) → World → FilesResult World Error)
        → List (FileMetadata Error)
        → FileResult World Error
        → FilesResult World Error
    unfolding after_renewal
    after_file again next results crashes = crashed
    after_file again next results (finished r (some e) world) = stopped e results world
    after_file again next results (finished none none world) = crashed
    after_file again next results (finished (some meta) none world) =
        if is_renew_token meta.res_status
        then after_renewal results (again meta) (steps.renew_expired_client world)
        else if is_renew_presigned_url meta.res_status
        then after_renewal results (again meta) (steps.update_presigned_urls world)
        else next (results ++ meta ∷ []) world

    -- `uploadFilesSequential` at the files that are left, with a bound on the rounds.
    unfoldable pub upload_files_sequential :
        ℕ → List (FileMetadata Error) → List (FileMetadata Error) → World → FilesResult World Error
    unfolding transfer_one_file after_file
    upload_files_sequential fuel [] results world = done results world
    upload_files_sequential zero (meta ∷ metas) results world = out_of_fuel
    upload_files_sequential (suc fuel) (meta ∷ metas) results world =
        after_file (λ meta' world'. upload_files_sequential fuel (meta' ∷ metas) results world')
          (upload_files_sequential fuel metas) results (transfer_one_file meta world)
