-- ===== src/LocalStorage/Tests.antt =====
-- local_storage_client.go: a file is overwritten by a shorter one, and the theorem applied there.
use gosnowflake.Base.{ℕ, ◌≡◌, refl, none, some, true, [], ◌∷◌, ◌++◌, drop, Option, false}
use gosnowflake.Base.Text.{Bytes, codes}
use gosnowflake.Chunk.Buffer.{gives}
use gosnowflake.Storage.{FileMetadata, uploaded, err_status}
use gosnowflake.LocalStorage.{Files, Outcome, returns, endless, upload_local_file, put_file}
use gosnowflake.LocalStorage.Overwrite.{upload_local_file-overwrites}

abbrev file : FileMetadata ℕ
file = record {
  src_file_name = codes "src";
  real_src_file_name = codes "src";
  dst_file_name = codes "dst";
  src_file_size = 2;
  dst_file_size = 0;
  overwrite = true;
  parallel = 4;
  last_max_concurrency = 0;
  res_status = err_status;
  last_error = none;
  is_encrypted = false;
  is_presigned = false;
  get_file_to_stream = false;
}

-- Every file holds four bytes.
abbrev files : Files
files path = some (codes "abcd")

abbrev join : Bytes → Bytes → Bytes
join dir name = dir ++ codes "/" ++ name

abbrev left_in : Bytes → Outcome ℕ → Option Bytes
left_in path (returns e meta files') = files' path
left_in path endless = none

upload_local_file-overwrites_example :
    upload_local_file
      (λ path. true)
      some
      join
      (some (gives (codes "xy") ∷ []))
      (codes "stage")
      2
      file
      files
    ≡ returns none
        (record file { dst_file_size = 2; res_status = uploaded })
        (put_file (codes "stage/dst") (codes "xy" ++ drop 2 (codes "abcd")) files)
upload_local_file-overwrites_example =
    upload_local_file-overwrites (λ path. true) some join (codes "stage") (codes "stage") b'x'
      (codes "y") file files refl refl refl

tail_stays :
    left_in (codes "stage/dst") (
      upload_local_file
        (λ path. true)
        some
        join
        (some (gives (codes "xy") ∷ []))
        (codes "stage")
        2
        file
        files)
    ≡ some (codes "xycd")
unfolding upload_local_file gosnowflake.Base.Text.bytes_eq
tail_stays = refl

-- A short read is written with what the buffer holds behind it.
short_reads :
    left_in (codes "stage/dst") (
      upload_local_file
        (λ path. true)
        some
        join
        (some (gives (codes "x") ∷ gives (codes "y") ∷ []))
        (codes "stage")
        2
        file
        (λ path. none))
    ≡ some (b'x' ∷ 0 ∷ b'y' ∷ 0 ∷ [])
unfolding upload_local_file gosnowflake.Base.Text.bytes_eq
short_reads = refl
