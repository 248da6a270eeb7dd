-- ===== src/Storage/Verify.antt =====
-- storage_client.go: the test of the header after an upload.
use gosnowflake.Base.{◌≡◌, true, false, none, if_true, if_false, ◌∙◌, ap, if◌then◌else◌}
use gosnowflake.Storage.{
  ResultStatus, CloudUtil, FileMetadata, Outcome, returns, not_found_file, is_uploaded_or_skipped,
  is_not_found_file, upload_one_file, upload_one_file_with_retry, upload_times, after_upload,
  verify, verify_if_sent, Verified,
}
use gosnowflake.Storage.Upload.{is_not_found_file-eq}

module _ {World Error Header : Type 0} (util : CloudUtil World Error Header) where
  -- What is left of the outer loop after an upload without an error.
  after_verify :
      (FileMetadata Error → World → Outcome World Error) → Verified util → Outcome World Error
  after_verify rest v = if v.retry_inner then rest v.meta v.world else returns none v.meta v.world

  -- If the file is uploaded or skipped, and its header is found only when it is asked for a second
  -- time, the status that is reported is NOT_FOUND_FILE.
  pub upload_one_file_with_retry-late_header :
      (meta meta1 : FileMetadata Error) (world world1 : World)
      → upload_one_file util meta world ≡ returns none meta1 world1
      → is_uploaded_or_skipped meta1.res_status ≡ true
      → is_not_found_file (util.get_file_header meta1.dst_file_name meta1 world1).meta.res_status
        ≡ true
      → is_not_found_file
          (util.get_file_header
            (util.get_file_header meta1.dst_file_name meta1 world1).meta.dst_file_name
            (util.get_file_header meta1.dst_file_name meta1 world1).meta
            (util.get_file_header meta1.dst_file_name meta1 world1).world).meta.res_status
        ≡ false
      → upload_one_file_with_retry util meta world
        ≡ returns none
            (record (util.get_file_header
              (util.get_file_header meta1.dst_file_name meta1 world1).meta.dst_file_name
              (util.get_file_header meta1.dst_file_name meta1 world1).meta
              (util.get_file_header meta1.dst_file_name meta1 world1).world).meta {
                res_status = not_found_file;
              })
            (util.get_file_header
              (util.get_file_header meta1.dst_file_name meta1 world1).meta.dst_file_name
              (util.get_file_header meta1.dst_file_name meta1 world1).meta
              (util.get_file_header meta1.dst_file_name meta1 world1).world).world
  unfolding upload_one_file_with_retry upload_times after_upload verify_if_sent verify after_verify
  upload_one_file_with_retry-late_header meta meta1 world world1 sent done missing there =
      let rest = upload_times util 9 in
      let c = util.get_file_header meta1.dst_file_name meta1 world1 in
      let c' = util.get_file_header c.meta.dst_file_name c.meta c.world in
      ap (after_upload util rest) sent
      ∙ ap (after_verify rest) (
          if_true {b = is_uploaded_or_skipped meta1.res_status} (verify util 10 meta1 world1) _
            done)
      ∙ ap (after_verify rest) (
          if_true {b = is_not_found_file c.meta.res_status} (verify util 9 c.meta c.world) _
            missing)
      ∙ ap (after_verify rest) (if_false {b = is_not_found_file c'.meta.res_status} _ _ there)
      ∙ ap
          (λ (status : ResultStatus).
            returns none (record c'.meta { res_status = status }) c'.world)
          (is_not_found_file-eq c.meta.res_status missing)
