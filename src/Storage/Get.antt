-- ===== src/Storage/Get.antt =====
-- storage_client.go: `downloadOneFile`, once the directory is there.
use gosnowflake.Base.{ℕ, zero, suc, not, Option, none, some, if◌then◌else◌}
use gosnowflake.Storage.{
  CloudUtil, FileMetadata, Call, Outcome, returns, panics, from_cloud, is_downloaded,
  last_error_or_unknown, default_max_retry,
}

module _ {World Error Header : Type 0} (util : CloudUtil World Error Header) where
  -- The size of the file that was written.
  unfoldable pub set_size : FileMetadata Error → World → Outcome World Error
  set_size meta world =
      if meta.get_file_to_stream then returns none meta world else elim (util.file_size world) [
        | none ↦ returns none meta world
        | some n ↦ returns none (record meta { dst_file_size = n }) world
      ]

  unfoldable pub after_decrypt : Option Error → ℕ → FileMetadata Error → World → Outcome World Error
  unfolding set_size
  after_decrypt (some e) n meta world = returns (some (from_cloud e)) meta world
  after_decrypt none n meta world =
      set_size (if meta.get_file_to_stream then record meta { dst_file_size = n } else meta) world

  unfoldable pub decrypt_with : Option Header → FileMetadata Error → World → Outcome World Error
  unfolding after_decrypt
  decrypt_with none meta world = panics
  decrypt_with (some header) meta world =
      let c = util.decrypt header meta world in after_decrypt c.error c.value c.meta c.world

  unfoldable pub after_second_header : Call World Error (Option Header) → Outcome World Error
  unfolding decrypt_with
  after_second_header c = elim c.error [
    | some e ↦ returns (some (from_cloud e)) c.meta c.world
    | none ↦ decrypt_with c.value c.meta c.world
  ]

  -- What `downloadOneFile` does with a file that is downloaded.
  unfoldable pub finish_download : Option Header → FileMetadata Error → World → Outcome World Error
  unfolding after_second_header
  finish_download header meta world =
      if not meta.is_encrypted
      then set_size meta world
      else if meta.is_presigned
      then after_second_header (util.get_file_header meta.src_file_name meta world)
      else decrypt_with header meta world

  -- The rounds that are left of the loop of `downloadOneFile`, with `maxConcurrency`, and `lastErr`.
  unfoldable pub download_rounds :
      ℕ → ℕ → Option Error → Option Header → FileMetadata Error → World → Outcome World Error
  unfolding finish_download last_error_or_unknown
  download_rounds max_concurrency zero last header meta world =
      returns (some (last_error_or_unknown last)) meta world
  download_rounds max_concurrency (suc left) last header meta world =
      let c = util.native_download_file max_concurrency meta world in
      let again = download_rounds max_concurrency left c.meta.last_error header c.meta c.world in
      elim c.error [
        | some e ↦ returns (some (from_cloud e)) c.meta c.world
        | none ↦
            if is_downloaded c.meta.res_status then finish_download header c.meta c.world else again
      ]

  unfoldable pub set_src_size : Option Header → FileMetadata Error → FileMetadata Error
  set_src_size none meta = meta
  set_src_size (some header) meta = record meta { src_file_size = util.content_length header }

  -- `downloadOneFile`, once the directory is there.
  unfoldable pub download_one_file : FileMetadata Error → World → Outcome World Error
  unfolding set_src_size download_rounds
  download_one_file meta world =
      let c = util.get_file_header meta.src_file_name meta world in
      elim c.error [
        | some e ↦ returns (some (from_cloud e)) c.meta c.world
        | none ↦
            let meta' = set_src_size c.value c.meta in
            download_rounds meta'.parallel default_max_retry none c.value meta' c.world
      ]
