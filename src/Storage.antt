-- ===== src/Storage.antt =====
-- storage_client.go: `remoteStorageUtil` over a `CloudUtil`, the interface `cloudUtil`.
-- A call of the interface may change the file's metadata and the world behind it. The sleeps and
-- the logging are left out. `parallel` is not negative.
use gosnowflake.Base.{
  ℕ, zero, suc, ◌+◌, ◌-◌, ◌*◌, ◌/◌, Bool, true, false, not, ◌&&◌, ◌||◌, Option, none, some,
  if◌then◌else◌,
}
use gosnowflake.Base.Text.{Bytes}
use Prim.Native.Nat.{max}
pub mod Upload
pub mod Bounds
pub mod Verify
pub mod Get
pub mod Download
mod Tests

-- `resultStatus` of file_transfer_agent.go.
pub data ResultStatus : Type 0 where
  err_status uploaded downloaded skipped renew_token renew_presigned_url not_found_file need_retry :
      ResultStatus
  need_retry_with_lower_concurrency : ResultStatus

abbrev pub is_uploaded : ResultStatus → Bool
is_uploaded uploaded = true
is_uploaded s = false

abbrev pub is_downloaded : ResultStatus → Bool
is_downloaded downloaded = true
is_downloaded s = false

abbrev pub is_not_found_file : ResultStatus → Bool
is_not_found_file not_found_file = true
is_not_found_file s = false

abbrev pub is_uploaded_or_skipped : ResultStatus → Bool
is_uploaded_or_skipped uploaded = true
is_uploaded_or_skipped skipped = true
is_uploaded_or_skipped s = false

-- Whether `uploadOneFile` leaves its loop.
abbrev pub is_settled : ResultStatus → Bool
is_settled uploaded = true
is_settled renew_token = true
is_settled renew_presigned_url = true
is_settled s = false

-- The fields of `fileMetadata` that the loops use; `is_encrypted` and `is_presigned` are whether
-- `encryptionMaterial` and `presignedURL` are set.
pub record FileMetadata (Error : Type 0) : Type 0 where
  pub src_file_name : Bytes
  pub real_src_file_name : Bytes
  pub dst_file_name : Bytes
  pub src_file_size : ℕ
  pub dst_file_size : ℕ
  pub overwrite : Bool
  pub parallel : ℕ
  pub last_max_concurrency : ℕ
  pub res_status : ResultStatus
  pub last_error : Option Error
  pub is_encrypted : Bool
  pub is_presigned : Bool
  pub get_file_to_stream : Bool

-- What a call leaves behind and returns.
pub record Call (World Error Value : Type 0) : Type 0 where
  pub meta : FileMetadata Error
  pub world : World
  pub value : Value
  pub error : Option Error

-- `cloudUtil`, with the header's content length, and the steps that turn a downloaded file into
-- the file asked for: the decryption with the rename, and the file's size.
pub record CloudUtil (World Error Header : Type 0) : Type 0 where
  pub get_file_header : Bytes → FileMetadata Error → World → Call World Error (Option Header)
  pub upload_file : Bytes → ℕ → FileMetadata Error → World → Call World Error (Unit {0})
  pub native_download_file : ℕ → FileMetadata Error → World → Call World Error (Unit {0})
  pub content_length : Header → ℕ
  pub decrypt : Header → FileMetadata Error → World → Call World Error ℕ
  pub file_size : World → Option ℕ

pub data TransferError (Error : Type 0) : Type 0 where
  from_cloud : Error → TransferError Error
  unknown : TransferError Error

-- What a method comes to; `panics` is the use of a header that is nil.
pub data Outcome (World Error : Type 0) : Type 0 where
  returns : Option (TransferError Error) → FileMetadata Error → World → Outcome World Error
  panics : Outcome World Error

-- The variables of the loop of `uploadOneFile`.
pub record Uploading (World Error : Type 0) : Type 0 where
  pub meta : FileMetadata Error
  pub world : World
  pub max_concurrency : ℕ
  pub last_error : Option Error

-- What a part of a round comes to.
pub data Step (World Error : Type 0) : Type 0 where
  goes_on : Uploading World Error → Step World Error
  ends : Option (TransferError Error) → Uploading World Error → Step World Error

abbrev pub default_concurrency : ℕ
default_concurrency = 1

abbrev pub default_max_retry : ℕ
default_max_retry = 5

-- The error after the last round.
unfoldable pub last_error_or_unknown : {Error : Type 0} → Option Error → TransferError Error
last_error_or_unknown none = unknown
last_error_or_unknown (some e) = from_cloud e

module _ {World Error : Type 0} where
  -- The test for a file that is there already.
  unfoldable pub skip_uploaded :
      {Header : Type 0} → Option Header → Uploading World Error → Step World Error
  skip_uploaded none s = goes_on s
  skip_uploaded (some header) s =
      if is_uploaded s.meta.res_status
      then ends none (record s { meta = record s.meta { dst_file_size = 0; res_status = skipped } })
      else goes_on s

  unfoldable pub lower_concurrency :
      ℕ → ResultStatus → Uploading World Error → Uploading World Error
  lower_concurrency retry need_retry_with_lower_concurrency s =
      let n =
        max default_concurrency (s.meta.parallel - retry * s.meta.parallel / default_max_retry) in
      record s { max_concurrency = n; meta = record s.meta { last_max_concurrency = n } }
  lower_concurrency retry status s = s

  -- The end of a round.
  unfoldable pub judge : ℕ → Uploading World Error → Step World Error
  unfolding lower_concurrency
  judge retry s =
      let s' = lower_concurrency retry s.meta.res_status s in
      if is_settled s.meta.res_status
      then ends none s
      else goes_on (record s' { last_error = s'.meta.last_error })

  -- What follows a round, given the rest of the loop.
  unfoldable pub after_round :
      (Uploading World Error → Outcome World Error) → Step World Error → Outcome World Error
  after_round rest (goes_on s) = rest s
  after_round rest (ends e s) = returns e s.meta s.world

  -- The start of the loop.
  unfoldable pub start_upload : FileMetadata Error → World → Uploading World Error
  start_upload meta world = record {
    meta = meta;
    world = world;
    max_concurrency = meta.parallel;
    last_error = none;
  }

module _ {World Error Header : Type 0} (util : CloudUtil World Error Header) where
  -- A call of `uploadFile`, whose error is only logged.
  unfoldable pub send : Uploading World Error → Uploading World Error
  send s =
      let c = util.upload_file s.meta.real_src_file_name s.max_concurrency s.meta s.world in
      record s { meta = c.meta; world = c.world }

  -- What follows the call of `getFileHeader`.
  unfoldable pub after_header :
      Option Header → Option Error → Uploading World Error → Step World Error
  unfolding send skip_uploaded
  after_header header none s =
      if is_not_found_file s.meta.res_status
      then skip_uploaded header (send s)
      else skip_uploaded header s
  after_header header (some e) s =
      if is_not_found_file s.meta.res_status
      then skip_uploaded header (send s)
      else ends (some (from_cloud e)) s

  unfoldable pub look_first : Uploading World Error → Step World Error
  unfolding after_header
  look_first s =
      let c = util.get_file_header s.meta.dst_file_name s.meta s.world in
      if s.meta.overwrite
      then goes_on s
      else after_header c.value c.error (record s { meta = c.meta; world = c.world })

  unfoldable pub send_if_needed : Uploading World Error → Uploading World Error
  unfolding send
  send_if_needed s = if s.meta.overwrite || is_not_found_file s.meta.res_status then send s else s

  -- What follows the look for the file.
  unfoldable pub after_look : ℕ → Step World Error → Step World Error
  unfolding send_if_needed judge
  after_look retry (goes_on s) = judge retry (send_if_needed s)
  after_look retry (ends e s) = ends e s

  -- A round of the loop of `uploadOneFile`.
  unfoldable pub upload_round : ℕ → Uploading World Error → Step World Error
  unfolding look_first after_look
  upload_round retry s = after_look retry (look_first s)

  -- The rounds that are left, and the number of the next one.
  unfoldable pub upload_rounds : ℕ → ℕ → Uploading World Error → Outcome World Error
  unfolding upload_round last_error_or_unknown after_round
  upload_rounds zero retry s = returns (some (last_error_or_unknown s.last_error)) s.meta s.world
  upload_rounds (suc left) retry s =
      after_round (upload_rounds left (suc retry)) (upload_round retry s)

  -- `uploadOneFile`.
  unfoldable pub upload_one_file : FileMetadata Error → World → Outcome World Error
  unfolding upload_rounds start_upload
  upload_one_file meta world = upload_rounds default_max_retry 0 (start_upload meta world)

  -- What the test of the header comes to: whether to try again, and what it left behind.
  pub record Verified : Type 0 where
    pub retry_inner : Bool
    pub meta : FileMetadata Error
    pub world : World

  -- The inner loop of `uploadOneFileWithRetry`; the status is that before the header is asked for.
  unfoldable pub verify : ℕ → FileMetadata Error → World → Verified
  verify zero meta world = record { retry_inner = true; meta = meta; world = world }
  verify (suc left) meta world =
      let c = util.get_file_header meta.dst_file_name meta world in
      let later = verify left c.meta c.world in
      if is_not_found_file c.meta.res_status then later else record {
        retry_inner = false;
        meta = record c.meta { res_status = meta.res_status };
        world = c.world;
      }

  unfoldable pub verify_if_sent : FileMetadata Error → World → Verified
  unfolding verify
  verify_if_sent meta world =
      if is_uploaded_or_skipped meta.res_status
      then verify 10 meta world
      else record { retry_inner = true; meta = meta; world = world }

  -- What follows a call of `uploadOneFile`, given the rest of the outer loop.
  unfoldable pub after_upload :
      (FileMetadata Error → World → Outcome World Error) → Outcome World Error → Outcome World Error
  unfolding verify_if_sent
  after_upload rest panics = panics
  after_upload rest (returns (some e) meta world) = returns (some e) meta world
  after_upload rest (returns none meta world) =
      let v = verify_if_sent meta world in
      if v.retry_inner then rest v.meta v.world else returns none v.meta v.world

  unfoldable pub upload_times : ℕ → FileMetadata Error → World → Outcome World Error
  unfolding upload_one_file after_upload
  upload_times zero meta world = returns none (record meta { res_status = err_status }) world
  upload_times (suc left) meta world = after_upload (upload_times left) (upload_one_file meta world)

  -- `uploadOneFileWithRetry`.
  unfoldable pub upload_one_file_with_retry : FileMetadata Error → World → Outcome World Error
  unfolding upload_times
  upload_one_file_with_retry meta world = upload_times 10 meta world
