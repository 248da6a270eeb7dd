-- ===== src/Transfer/Tests.antt =====
-- file_transfer_agent.go: two uploads to a cloud, one of which fails to be compressed.
use gosnowflake.Base.{ℕ, ◌≡◌, refl, none, some, false, true, [], ◌∷◌, if◌then◌else◌, ◌==◌}
use gosnowflake.Storage.{
  CloudUtil, FileMetadata, uploaded, err_status, renew_token, ResultStatus, from_cloud,
}
use gosnowflake.Transfer.{Steps, done, stopped, upload_files_sequential}
use gosnowflake.Transfer.Sequential.{Ended, upload_files_sequential-Ended}

abbrev cloud : ResultStatus → CloudUtil ℕ ℕ ℕ
cloud status = record {
  get_file_header = λ name meta world. record {
    meta = record meta { res_status = uploaded };
    world = world;
    value = some 7;
    error = none;
  };
  upload_file = λ name concurrency meta world. record {
    meta = record meta { res_status = status };
    world = world;
    value = tt;
    error = none;
  };
  native_download_file =
      λ concurrency meta world. record { meta = meta; world = world; value = tt; error = none };
  content_length = λ header. header;
  decrypt = λ header meta world. record { meta = meta; world = world; value = 5; error = none };
  file_size = λ world. some 9;
}

-- Files of the size 9 cannot be compressed.
abbrev steps : Steps ℕ ℕ
steps = record {
  make_temp_dir = λ world. (none, world);
  compress_data_if_required = λ meta world. record {
    meta = meta;
    world = world;
    value = tt;
    error = if meta.src_file_size == 9 then some 3 else none;
  };
  update_upload_size =
      λ meta world. record { meta = meta; world = world; value = tt; error = none };
  encrypt_data_if_required =
      λ meta world. record { meta = meta; world = world; value = tt; error = none };
  renew_expired_client = λ world. (none, world);
  update_presigned_urls = λ world. (none, world);
}

abbrev file : ℕ → FileMetadata ℕ
file size = record {
  src_file_name = [];
  real_src_file_name = [];
  dst_file_name = [];
  src_file_size = size;
  dst_file_size = 0;
  overwrite = true;
  parallel = 4;
  last_max_concurrency = 0;
  res_status = err_status;
  last_error = none;
  is_encrypted = false;
  is_presigned = false;
  get_file_to_stream = false;
}

stops_at_an_error :
    upload_files_sequential steps (cloud uploaded) 2 (file 1 ∷ file 9 ∷ []) [] 0
    ≡ stopped (from_cloud 3) (record (file 1) { res_status = uploaded } ∷ []) 0
unfolding upload_files_sequential gosnowflake.Storage.upload_one_file_with_retry
stops_at_an_error = refl

token_is_not_renewed :
    upload_files_sequential steps (cloud renew_token) 1 (file 1 ∷ []) [] 0 ≡ done (file 1 ∷ []) 0
unfolding upload_files_sequential gosnowflake.Storage.upload_one_file_with_retry
token_is_not_renewed = refl

upload_files_sequential-Ended_example :
    Ended 2 (upload_files_sequential steps (cloud uploaded) 2 (file 1 ∷ file 9 ∷ []) [] 0)
upload_files_sequential-Ended_example =
    upload_files_sequential-Ended steps (cloud uploaded) (file 1 ∷ file 9 ∷ []) 0
