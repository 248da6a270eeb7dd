-- ===== src/Storage/Upload.antt =====
-- storage_client.go: with what status an upload ends.
use gosnowflake.Base.{ℕ, zero, suc, ◌≡◌, refl, ◌⊎◌, inl, inr, if_cases, Option, none, some, true}
use gosnowflake.Storage.{
  ResultStatus, uploaded, skipped, renew_token, renew_presigned_url, downloaded, need_retry,
  need_retry_with_lower_concurrency, uploaded, renew_token, default_max_retry, start_upload,
  after_look, after_round, not_found_file, err_status, CloudUtil, FileMetadata, Outcome, returns,
  panics, Uploading, Step, goes_on, ends, is_settled, is_uploaded, is_uploaded_or_skipped,
  is_not_found_file, upload_one_file, upload_one_file_with_retry, upload_rounds, upload_round,
  upload_times, after_upload, verify, verify_if_sent, judge, look_first, after_header,
  skip_uploaded, send, send_if_needed, Verified,
}

pub is_not_found_file-eq : (s : ResultStatus) → is_not_found_file s ≡ true → s ≡ not_found_file
is_not_found_file-eq err_status e = cc
is_not_found_file-eq uploaded e = cc
is_not_found_file-eq downloaded e = cc
is_not_found_file-eq skipped e = cc
is_not_found_file-eq renew_token e = cc
is_not_found_file-eq renew_presigned_url e = cc
is_not_found_file-eq not_found_file e = refl
is_not_found_file-eq need_retry e = cc
is_not_found_file-eq need_retry_with_lower_concurrency e = cc

-- The upload is over, or its token or URL has to be renewed.
abbrev pub IsSettled : ResultStatus → Type 0
IsSettled s = (s ≡ skipped) ⊎ (is_settled s ≡ true)

-- The statuses that a caller can see.
abbrev pub IsReported : ResultStatus → Type 0
IsReported s = (is_uploaded_or_skipped s ≡ true) ⊎ (s ≡ not_found_file) ⊎ (s ≡ err_status)

module _ {World Error : Type 0} where
  -- A part of a round that ends the loop without an error leaves a settled status.
  abbrev SettledStep : Step World Error → Type 0
  SettledStep (goes_on s) = Unit {0}
  SettledStep (ends none s) = IsSettled s.meta.res_status
  SettledStep (ends (some e) s) = Unit {0}

  abbrev pub SettledOutcome : Outcome World Error → Type 0
  SettledOutcome (returns none meta world) = IsSettled meta.res_status
  SettledOutcome (returns (some e) meta world) = Unit {0}
  SettledOutcome panics = ⊥

  abbrev pub ReportedOutcome : Outcome World Error → Type 0
  ReportedOutcome (returns none meta world) = IsReported meta.res_status
  ReportedOutcome (returns (some e) meta world) = Unit {0}
  ReportedOutcome panics = ⊥

module _ {World Error Header : Type 0} (util : CloudUtil World Error Header) where
  skip_uploaded-SettledStep :
      (header : Option Header) (s : Uploading World Error) → SettledStep (skip_uploaded header s)
  unfolding skip_uploaded
  skip_uploaded-SettledStep none s = tt
  skip_uploaded-SettledStep (some header) s =
      if_cases SettledStep (is_uploaded s.meta.res_status) _ _ (λ e. inl refl) (λ e. tt)

  after_header-SettledStep :
      (header : Option Header) (e : Option Error) (s : Uploading World Error)
      → SettledStep (after_header util header e s)
  unfolding after_header
  after_header-SettledStep header none s =
      if_cases SettledStep (is_not_found_file s.meta.res_status) _ _
        (λ h. skip_uploaded-SettledStep header (send util s))
        (λ h. skip_uploaded-SettledStep header s)
  after_header-SettledStep header (some e) s =
      if_cases SettledStep (is_not_found_file s.meta.res_status) _ _
        (λ h. skip_uploaded-SettledStep header (send util s)) (λ h. tt)

  look_first-SettledStep : (s : Uploading World Error) → SettledStep (look_first util s)
  unfolding look_first
  look_first-SettledStep s =
      let c = util.get_file_header s.meta.dst_file_name s.meta s.world in
      if_cases SettledStep s.meta.overwrite _ _ (λ h. tt)
        (λ h.
          after_header-SettledStep c.value c.error (record s { meta = c.meta; world = c.world }))

  judge-SettledStep : (retry : ℕ) (s : Uploading World Error) → SettledStep (judge retry s)
  unfolding judge
  judge-SettledStep retry s =
      if_cases SettledStep (is_settled s.meta.res_status) _ _ (λ h. inr h) (λ h. tt)

  after_look-SettledStep :
      (retry : ℕ) (o : Step World Error) → SettledStep o → SettledStep (after_look util retry o)
  unfolding after_look
  after_look-SettledStep retry (goes_on s) h = judge-SettledStep retry (send_if_needed util s)
  after_look-SettledStep retry (ends none s) h = h
  after_look-SettledStep retry (ends (some e) s) h = tt

  after_round-SettledOutcome :
      (rest : Uploading World Error → Outcome World Error)
      → ((s : Uploading World Error) → SettledOutcome (rest s))
      → (o : Step World Error) → SettledStep o
      → SettledOutcome (after_round rest o)
  unfolding after_round
  after_round-SettledOutcome rest ih (goes_on s) h = ih s
  after_round-SettledOutcome rest ih (ends none s) h = h
  after_round-SettledOutcome rest ih (ends (some e) s) h = tt

  upload_rounds-SettledOutcome :
      (left retry : ℕ) (s : Uploading World Error)
      → SettledOutcome (upload_rounds util left retry s)
  unfolding upload_rounds upload_round
  upload_rounds-SettledOutcome zero retry s = tt
  upload_rounds-SettledOutcome (suc left) retry s =
      after_round-SettledOutcome (upload_rounds util left (suc retry))
        (upload_rounds-SettledOutcome left (suc retry)) (upload_round util retry s)
        (after_look-SettledStep retry (look_first util s) (look_first-SettledStep s))

  -- `uploadOneFile` returns, and without an error only if the file is uploaded or skipped, or its
  -- token or its URL has to be renewed.
  pub upload_one_file-SettledOutcome :
      (meta : FileMetadata Error) (world : World) → SettledOutcome (upload_one_file util meta world)
  unfolding upload_one_file
  upload_one_file-SettledOutcome meta world =
      upload_rounds-SettledOutcome default_max_retry 0 (start_upload meta world)

  -- The status that a header found later is given back to.
  abbrev GivenBack : Verified util → Type 0
  GivenBack v = (v.retry_inner ≡ true) ⊎ IsReported v.meta.res_status

  verify-GivenBack :
      (left : ℕ) (meta : FileMetadata Error) (world : World)
      → IsReported meta.res_status
      → GivenBack (verify util left meta world)
  unfolding verify
  verify-GivenBack zero meta world h = inl refl
  verify-GivenBack (suc left) meta world h =
      let c = util.get_file_header meta.dst_file_name meta world in
      if_cases GivenBack (is_not_found_file c.meta.res_status) _ _
        (λ e.
          verify-GivenBack left c.meta c.world
            (inr (inl (is_not_found_file-eq c.meta.res_status e))))
        (λ e. inr h)

  verify_if_sent-GivenBack :
      (meta : FileMetadata Error) (world : World) → GivenBack (verify_if_sent util meta world)
  unfolding verify_if_sent
  verify_if_sent-GivenBack meta world =
      if_cases GivenBack (is_uploaded_or_skipped meta.res_status) _ _
        (λ e. verify-GivenBack 10 meta world (inl e)) (λ e. inl refl)

  after_upload-ReportedOutcome :
      (rest : FileMetadata Error → World → Outcome World Error)
      → ((meta : FileMetadata Error) (world : World) → ReportedOutcome (rest meta world))
      → (o : Outcome World Error) → SettledOutcome o
      → ReportedOutcome (after_upload util rest o)
  unfolding after_upload
  after_upload-ReportedOutcome rest ih (returns (some e) meta world) h = tt
  after_upload-ReportedOutcome rest ih (returns none meta world) h =
      let v = verify_if_sent util meta world in
      if_cases ReportedOutcome v.retry_inner _ _ (λ e. ih v.meta v.world)
        (λ e. elim (verify_if_sent-GivenBack meta world) [ inl again ↦ cc | inr r ↦ r ])
  after_upload-ReportedOutcome rest ih panics h = absurd h

  upload_times-ReportedOutcome :
      (left : ℕ) (meta : FileMetadata Error) (world : World)
      → ReportedOutcome (upload_times util left meta world)
  unfolding upload_times
  upload_times-ReportedOutcome zero meta world = inr (inr refl)
  upload_times-ReportedOutcome (suc left) meta world =
      after_upload-ReportedOutcome (upload_times util left) (upload_times-ReportedOutcome left)
        (upload_one_file util meta world) (upload_one_file-SettledOutcome meta world)

  -- `uploadOneFileWithRetry` returns an error, or one of the statuses UPLOADED, SKIPPED,
  -- NOT_FOUND_FILE and ERROR: a token or a URL that has to be renewed is never reported.
  pub upload_one_file_with_retry-status :
      (meta : FileMetadata Error) (world : World)
      → ReportedOutcome (upload_one_file_with_retry util meta world)
  unfolding upload_one_file_with_retry
  upload_one_file_with_retry-status meta world = upload_times-ReportedOutcome 10 meta world
