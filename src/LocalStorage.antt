-- ===== src/LocalStorage.antt =====
-- local_storage_client.go: uploads to a stage in the local file system.
-- `expandUser`, `filepath.Join` and whether the stage's file can be opened are arguments; so is the
-- source, what the reads of the file or of the stream give, or none if it cannot be opened. The
-- writes take all bytes.
use gosnowflake.Base.{
  ℕ, zero, suc, ◌+◌, Bool, true, false, not, ◌&&◌, Option, none, some, if◌then◌else◌, List, [], ◌∷◌,
  ◌++◌, length, drop, replicate,
}
use gosnowflake.Base.Text.{Bytes, bytes_eq}
use gosnowflake.Chunk.Buffer.{Read}
use gosnowflake.Encryption.{read_chunk, read_fuel}
use gosnowflake.Storage.{FileMetadata, uploaded, skipped}
pub mod Overwrite
mod Tests

-- The files by their paths.
abbrev pub Files : Type 0
Files = Bytes → Option Bytes

pub data LocalError : Type 0 where
  cannot_open_source cannot_expand_user cannot_open_output cannot_read : LocalError

-- What the loop comes to, with what it has written.
pub data Copied : Type 0 where
  copied : Bytes → Copied
  broke : Bytes → Copied
  out_of_fuel : Copied

pub data Outcome (Error : Type 0) : Type 0 where
  returns : Option LocalError → FileMetadata Error → Files → Outcome Error
  endless : Outcome Error

abbrev pub exists_file : Option Bytes → Bool
exists_file none = false
exists_file (some bytes) = true

abbrev pub bytes_of : Option Bytes → Bytes
bytes_of none = []
bytes_of (some bytes) = bytes

unfoldable pub put_file : Bytes → Bytes → Files → Files
put_file path bytes files p = if bytes_eq p path then some bytes else files p

-- A round of the loop: the buffer with the bytes read at its start is written whole.
unfoldable pub after_read : (Bytes → Bytes → Copied) → Bytes → Bytes → Option Bytes → Copied
after_read rest buffer written none = broke written
after_read rest buffer written (some []) = copied written
after_read rest buffer written (some (b ∷ bs)) =
    let filled = (b ∷ bs) ++ drop (length (b ∷ bs)) buffer in rest filled (written ++ filled)

unfoldable pub copy_loop : ℕ → Bytes → List Read → Bytes → Copied
unfolding read_chunk after_read
copy_loop zero buffer reads written = out_of_fuel
copy_loop (suc fuel) buffer reads written =
    let r = read_chunk (length buffer) reads in
    after_read (λ buffer' written'. copy_loop fuel buffer' r.1 written') buffer written r.0

-- What is written from the start of a file that is not truncated.
abbrev pub write_over : Bytes → Bytes → Bytes
write_over old written = written ++ drop (length written) old

module _ {Error : Type 0} where
  -- The end of the upload.
  unfoldable pub after_copy : ℕ → Bytes → FileMetadata Error → Files → Copied → Outcome Error
  unfolding put_file
  after_copy upload_size path meta files (copied written) =
      returns none (record meta { dst_file_size = upload_size; res_status = uploaded })
        (put_file path (write_over (bytes_of (files path)) written) files)
  after_copy upload_size path meta files (broke written) =
      returns (some cannot_read) meta
        (put_file path (write_over (bytes_of (files path)) written) files)
  after_copy upload_size path meta files out_of_fuel = endless

  module _ (can_open : Bytes → Bool) where
    -- The upload to a path.
    unfoldable pub upload_to : ℕ → List Read → Bytes → FileMetadata Error → Files → Outcome Error
    unfolding after_copy copy_loop read_fuel
    upload_to upload_size reads path meta files =
        if not meta.overwrite && exists_file (files path)
        then returns none (record meta { dst_file_size = 0; res_status = skipped }) files
        else if not (can_open path)
        then returns (some cannot_open_output) meta files
        else after_copy upload_size path meta files
            (copy_loop (read_fuel reads) (replicate upload_size 0) reads [])

    module _ (expand_user : Bytes → Option Bytes) (join : Bytes → Bytes → Bytes) where
      -- The upload for a user's directory.
      unfoldable pub upload_for :
          List Read → ℕ → FileMetadata Error → Files → Option Bytes → Outcome Error
      unfolding upload_to
      upload_for reads upload_size meta files none = returns (some cannot_expand_user) meta files
      upload_for reads upload_size meta files (some user) =
          upload_to upload_size reads (join user meta.dst_file_name) meta files

      -- `uploadOneFileWithRetry` of `localUtil`, with the location of the stage.
      unfoldable pub upload_local_file :
          Option (List Read) → Bytes → ℕ → FileMetadata Error → Files → Outcome Error
      unfolding upload_for
      upload_local_file none location upload_size meta files =
          returns (some cannot_open_source) meta files
      upload_local_file (some reads) location upload_size meta files =
          upload_for reads upload_size meta files (expand_user location)
