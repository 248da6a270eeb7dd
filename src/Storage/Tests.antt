-- ===== src/Storage/Tests.antt =====
-- storage_client.go: transfers with a cloud that finds a file late, and the theorems applied there.
use gosnowflake.Base.{ℕ, ◌≡◌, refl, none, some, false, true, if◌then◌else◌, leb, [], ◌+◌, arith}
use gosnowflake.Storage.{
  CloudUtil, FileMetadata, uploaded, downloaded, not_found_file, err_status, renew_token, returns,
  upload_one_file, upload_one_file_with_retry, ResultStatus,
}
use gosnowflake.Storage.Get.{download_one_file}
use gosnowflake.Storage.Upload.{upload_one_file_with_retry-status, ReportedOutcome}
use gosnowflake.Storage.Bounds.{SentOutcome, logged, upload_one_file_with_retry-sent}
use gosnowflake.Storage.Verify.{upload_one_file_with_retry-late_header}
use gosnowflake.Storage.Download.{Downloaded, download_one_file-Downloaded}

-- The world is the number of headers asked for; the first two are not found. An upload ends with
-- the given status.
abbrev cloud : ResultStatus → CloudUtil ℕ ℕ ℕ
cloud status = record {
  get_file_header = λ name meta world. record {
    meta = record meta { res_status = if leb world 1 then not_found_file else uploaded };
    world = world + 1;
    value = if leb world 1 then none else some 7;
    error = none;
  };
  upload_file = λ name concurrency meta world. record {
    meta = record meta { res_status = status };
    world = world;
    value = tt;
    error = none;
  };
  native_download_file = λ concurrency meta world. record {
    meta = record meta { res_status = downloaded };
    world = world;
    value = tt;
    error = none;
  };
  content_length = λ header. header;
  decrypt = λ header meta world. record { meta = meta; world = world; value = 5; error = none };
  file_size = λ world. some 9;
}

abbrev file : FileMetadata ℕ
file = record {
  src_file_name = [];
  real_src_file_name = [];
  dst_file_name = [];
  src_file_size = 0;
  dst_file_size = 0;
  overwrite = false;
  parallel = 4;
  last_max_concurrency = 0;
  res_status = err_status;
  last_error = none;
  is_encrypted = false;
  is_presigned = false;
  get_file_to_stream = false;
}

late_header :
    upload_one_file_with_retry (cloud uploaded) file 0
    ≡ returns none (record file { res_status = not_found_file }) 3
unfolding upload_one_file_with_retry
late_header = refl

renewed_token :
    upload_one_file_with_retry (cloud renew_token) (record file { overwrite = true }) 0
    ≡ returns none (record file { overwrite = true; res_status = err_status }) 0
unfolding upload_one_file_with_retry
renewed_token = refl

a_download :
    download_one_file (cloud uploaded) file 5
    ≡ returns none (record file { res_status = downloaded; src_file_size = 7; dst_file_size = 9 }) 6
unfolding download_one_file
a_download = refl

upload_one_file_with_retry-status_example :
    ReportedOutcome (upload_one_file_with_retry (cloud renew_token) file 0)
upload_one_file_with_retry-status_example =
    upload_one_file_with_retry-status (cloud renew_token) file 0

upload_one_file_with_retry-sent_example :
    SentOutcome 4 100 (upload_one_file_with_retry (logged (cloud uploaded)) file (0, []))
upload_one_file_with_retry-sent_example =
    upload_one_file_with_retry-sent (cloud uploaded)
      (record {
        by_header = λ name meta world. refl;
        by_upload = λ name concurrency meta world. refl;
      })
      4 (omega arith) file 0 refl

upload_one_file_with_retry-late_header_example :
    upload_one_file_with_retry (cloud uploaded) file 0
    ≡ returns none (record file { res_status = not_found_file }) 3
unfolding upload_one_file
upload_one_file_with_retry-late_header_example =
    upload_one_file_with_retry-late_header (cloud uploaded) file
      (record file { res_status = uploaded }) 0 1 refl refl refl refl

download_one_file-Downloaded_example : Downloaded (download_one_file (cloud uploaded) file 5)
download_one_file-Downloaded_example =
    download_one_file-Downloaded (cloud uploaded)
      (record { by_header = λ name meta world. refl; by_download = λ concurrency meta world. refl })
      file 5 refl
