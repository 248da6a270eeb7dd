-- ===== src/Storage/Download.antt =====
-- storage_client.go: how a download ends.
use gosnowflake.Base.{
  ℕ, zero, suc, ◌≡◌, refl, if_cases, Option, none, some, true, false, not, ◌∙◌, sym, ap,
}
use gosnowflake.Base.Text.{Bytes}
use gosnowflake.Storage.{
  ResultStatus, downloaded, err_status, uploaded, skipped, renew_token, renew_presigned_url,
  not_found_file, need_retry, need_retry_with_lower_concurrency, CloudUtil, FileMetadata, Outcome,
  returns, panics, from_cloud, is_downloaded, default_max_retry,
}
use gosnowflake.Storage.Get.{
  download_one_file, download_rounds, finish_download, set_size, set_src_size,
}

is_downloaded-eq : (s : ResultStatus) → is_downloaded s ≡ true → s ≡ downloaded
is_downloaded-eq err_status e = cc
is_downloaded-eq uploaded e = cc
is_downloaded-eq downloaded e = refl
is_downloaded-eq skipped e = cc
is_downloaded-eq renew_token e = cc
is_downloaded-eq renew_presigned_url e = cc
is_downloaded-eq not_found_file e = cc
is_downloaded-eq need_retry e = cc
is_downloaded-eq need_retry_with_lower_concurrency e = cc

-- A download without an error has the status DOWNLOADED, and there is no panic.
abbrev pub Downloaded : {World Error : Type 0} → Outcome World Error → Type 0
Downloaded (returns none meta world) = meta.res_status ≡ downloaded
Downloaded (returns (some e) meta world) = Unit {0}
Downloaded panics = ⊥

module _ {World Error Header : Type 0} where
  -- The cloud's calls leave `encryptionMaterial` as it is.
  pub record KeepsEncrypted (util : CloudUtil World Error Header) : Type 0 where
    pub by_header :
        (name : Bytes) (meta : FileMetadata Error) (world : World)
        → (util.get_file_header name meta world).meta.is_encrypted ≡ meta.is_encrypted
    pub by_download :
        (concurrency : ℕ) (meta : FileMetadata Error) (world : World)
        → (util.native_download_file concurrency meta world).meta.is_encrypted ≡ meta.is_encrypted

  module _ (util : CloudUtil World Error Header) (keeps : KeepsEncrypted util) where
    set_size-Downloaded :
        (meta : FileMetadata Error) (world : World)
        → meta.res_status ≡ downloaded
        → Downloaded (set_size util meta world)
    unfolding set_size
    set_size-Downloaded meta world h =
        if_cases Downloaded meta.get_file_to_stream _ _ (λ e. h) (λ e. sized (util.file_size world))
      where
        sized :
            (n : Option ℕ)
            → Downloaded (elim n [
              | none ↦ returns none meta world
              | some k ↦ returns none (record meta { dst_file_size = k }) world
            ])
        sized none = h
        sized (some k) = h

    finish_download-Downloaded :
        (header : Option Header) (meta : FileMetadata Error) (world : World)
        → meta.is_encrypted ≡ false
        → meta.res_status ≡ downloaded
        → Downloaded (finish_download util header meta world)
    unfolding finish_download
    finish_download-Downloaded header meta world plain h =
        if_cases Downloaded (not meta.is_encrypted) _ _ (λ e. set_size-Downloaded meta world h)
          (λ e. absurd (true_false (sym (ap not plain) ∙ e)))
      where
        true_false : true ≡ false → ⊥
        true_false e = cc

    by_error :
        (e : Option Error) (meta : FileMetadata Error) (world : World) (o : Outcome World Error)
        → Downloaded o
        → Downloaded (elim e [ some x ↦ returns (some (from_cloud x)) meta world | none ↦ o ])
    by_error none meta world o h = h
    by_error (some x) meta world o h = tt

    set_src_size-is_encrypted :
        (header : Option Header) (meta : FileMetadata Error)
        → (set_src_size util header meta).is_encrypted ≡ meta.is_encrypted
    unfolding set_src_size
    set_src_size-is_encrypted none meta = refl
    set_src_size-is_encrypted (some header) meta = refl

    download_rounds-Downloaded :
        (max_concurrency left : ℕ) (last : Option Error) (header : Option Header)
        (meta : FileMetadata Error) (world : World)
        → meta.is_encrypted ≡ false
        → Downloaded (download_rounds util max_concurrency left last header meta world)
    unfolding download_rounds
    download_rounds-Downloaded max_concurrency zero last header meta world plain = tt
    download_rounds-Downloaded max_concurrency (suc left) last header meta world plain =
        let c = util.native_download_file max_concurrency meta world in
        let plain' : c.meta.is_encrypted ≡ false =
          keeps.by_download max_concurrency meta world ∙ plain in
        by_error c.error c.meta c.world _ (
          if_cases Downloaded (is_downloaded c.meta.res_status) _ _
            (λ e.
              finish_download-Downloaded header c.meta c.world plain'
                (is_downloaded-eq c.meta.res_status e))
            (λ e.
              download_rounds-Downloaded max_concurrency left c.meta.last_error header c.meta
                c.world plain'))

    -- If the cloud's calls leave a file unencrypted, its download returns without a panic, and without
    -- an error only with the status DOWNLOADED.
    pub download_one_file-Downloaded :
        (meta : FileMetadata Error) (world : World)
        → meta.is_encrypted ≡ false
        → Downloaded (download_one_file util meta world)
    unfolding download_one_file
    download_one_file-Downloaded meta world plain =
        let c = util.get_file_header meta.src_file_name meta world in
        by_error c.error c.meta c.world _ (
          download_rounds-Downloaded (set_src_size util c.value c.meta).parallel default_max_retry
            none c.value (set_src_size util c.value c.meta) c.world
            (set_src_size-is_encrypted c.value c.meta
              ∙ keeps.by_header meta.src_file_name meta world
              ∙ plain))
