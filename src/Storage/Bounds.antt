-- ===== src/Storage/Bounds.antt =====
-- storage_client.go: how often an upload sends the file, and at what concurrency.
use gosnowflake.Base.{
  ◌||◌, ℕ, zero, suc, ◌+◌, ◌*◌, ◌≡◌, ◌≤◌, if_cases, Option, none, some, List, [], ◌∷◌, length, All,
  arith, ◌∙◌,
}
use gosnowflake.Base.Text.{Bytes}
use gosnowflake.Storage.{
  ResultStatus, err_status, uploaded, downloaded, skipped, renew_token, renew_presigned_url,
  not_found_file, need_retry, need_retry_with_lower_concurrency, CloudUtil, FileMetadata, Outcome,
  returns, panics, Uploading, Step, goes_on, ends, is_settled, is_uploaded, is_uploaded_or_skipped,
  is_not_found_file, upload_one_file, upload_one_file_with_retry, upload_rounds, upload_round,
  upload_times, after_upload, verify, verify_if_sent, judge, look_first, after_header,
  skip_uploaded, send, send_if_needed, after_look, after_round, start_upload, lower_concurrency,
  Verified, default_max_retry,
}

-- From one to as many as given.
abbrev pub InRange : ℕ → ℕ → Type 0
InRange p n = (1 ≤ n) × (n ≤ p)

module _ {World Error : Type 0} where
  -- At most so many files were sent, each at a concurrency in the range.
  abbrev pub Sent : ℕ → ℕ → FileMetadata Error → World × List ℕ → Type 0
  Sent p n meta world = (length world.1 ≤ n) × All (InRange p) world.1 × (meta.parallel ≡ p)

  abbrev Going : ℕ → ℕ → Uploading (World × List ℕ) Error → Type 0
  Going p n s = Sent p n s.meta s.world × InRange p s.max_concurrency

  abbrev SentStep : ℕ → ℕ → Step (World × List ℕ) Error → Type 0
  SentStep p n (goes_on s) = Going p n s
  SentStep p n (ends e s) = Going p n s

  abbrev pub SentOutcome : ℕ → ℕ → Outcome (World × List ℕ) Error → Type 0
  SentOutcome p n (returns e meta world) = Sent p n meta world
  SentOutcome p n panics = ⊥

module _ {World Error Header : Type 0} where
  -- A cloud whose world remembers at what concurrency each file was sent, the last one first.
  unfoldable pub logged : CloudUtil World Error Header → CloudUtil (World × List ℕ) Error Header
  logged util = record {
    get_file_header = λ name meta world.
        let c = util.get_file_header name meta world.0 in
        record { meta = c.meta; world = (c.world, world.1); value = c.value; error = c.error };
    upload_file = λ name concurrency meta world.
        let c = util.upload_file name concurrency meta world.0 in
        record {
          meta = c.meta;
          world = (c.world, concurrency ∷ world.1);
          value = c.value;
          error = c.error;
        };
    native_download_file = λ concurrency meta world.
        let c = util.native_download_file concurrency meta world.0 in
        record { meta = c.meta; world = (c.world, world.1); value = c.value; error = c.error };
    content_length = util.content_length;
    decrypt = λ header meta world.
        let c = util.decrypt header meta world.0 in
        record { meta = c.meta; world = (c.world, world.1); value = c.value; error = c.error };
    file_size = λ world. util.file_size world.0;
  }

  -- The cloud's calls leave `parallel` as it is.
  pub record KeepsParallel (util : CloudUtil World Error Header) : Type 0 where
    pub by_header :
        (name : Bytes) (meta : FileMetadata Error) (world : World)
        → (util.get_file_header name meta world).meta.parallel ≡ meta.parallel
    pub by_upload :
        (name : Bytes) (concurrency : ℕ) (meta : FileMetadata Error) (world : World)
        → (util.upload_file name concurrency meta world).meta.parallel ≡ meta.parallel

  module _ (util : CloudUtil World Error Header) (keeps : KeepsParallel util) (p : ℕ) where
    Going-le : (m n : ℕ) (s : Uploading (World × List ℕ) Error) → m ≤ n → Going p m s → Going p n s
    Going-le m n s le h = ((omega (arith, h.0.0), h.0.1, h.0.2), h.1)

    send-Going :
        (n : ℕ) (s : Uploading (World × List ℕ) Error)
        → Going p n s
        → Going p (suc n) (send (logged util) s)
    unfolding send logged
    send-Going n s ((few, all, same), range) = (
      (
        omega (arith, few),
        (range, all),
        keeps.by_upload s.meta.real_src_file_name s.max_concurrency s.meta s.world.0 ∙ same,
      ),
      range,
    )

    skip_uploaded-SentStep :
        (n : ℕ) (header : Option Header) (s : Uploading (World × List ℕ) Error)
        → Going p n s
        → SentStep p n (skip_uploaded header s)
    unfolding skip_uploaded
    skip_uploaded-SentStep n none s h = h
    skip_uploaded-SentStep n (some header) s h =
        if_cases (SentStep p n) (is_uploaded s.meta.res_status) _ _ (λ e. h) (λ e. h)

    after_header-SentStep :
        (n : ℕ) (header : Option Header) (e : Option Error) (s : Uploading (World × List ℕ) Error)
        → Going p n s
        → SentStep p (suc n) (after_header (logged util) header e s)
    unfolding after_header
    after_header-SentStep n header none s h =
        if_cases (SentStep p (suc n)) (is_not_found_file s.meta.res_status) _ _
          (λ e. skip_uploaded-SentStep (suc n) header (send (logged util) s) (send-Going n s h))
          (λ e. skip_uploaded-SentStep (suc n) header s (Going-le n (suc n) s (omega arith) h))
    after_header-SentStep n header (some e) s h =
        if_cases (SentStep p (suc n)) (is_not_found_file s.meta.res_status) _ _
          (λ e. skip_uploaded-SentStep (suc n) header (send (logged util) s) (send-Going n s h))
          (λ e. Going-le n (suc n) s (omega arith) h)

    look_first-SentStep :
        (n : ℕ) (s : Uploading (World × List ℕ) Error)
        → Going p n s
        → SentStep p (suc n) (look_first (logged util) s)
    unfolding look_first logged
    look_first-SentStep n s h =
        let c = util.get_file_header s.meta.dst_file_name s.meta s.world.0 in
        if_cases (SentStep p (suc n)) s.meta.overwrite _ _
          (λ e. Going-le n (suc n) s (omega arith) h)
          (λ e.
            after_header-SentStep n c.value c.error
              (record s { meta = c.meta; world = (c.world, s.world.1) })
              ((h.0.0, h.0.1, keeps.by_header s.meta.dst_file_name s.meta s.world.0 ∙ h.0.2), h.1))

    send_if_needed-Going :
        (n : ℕ) (s : Uploading (World × List ℕ) Error)
        → Going p n s
        → Going p (suc n) (send_if_needed (logged util) s)
    unfolding send_if_needed
    send_if_needed-Going n s h =
        if_cases (Going p (suc n)) (s.meta.overwrite || is_not_found_file s.meta.res_status) _ _
          (λ e. send-Going n s h) (λ e. Going-le n (suc n) s (omega arith) h)

    module _ (some_parallel : 1 ≤ p) where
      lower_concurrency-Going :
          (n retry : ℕ) (status : ResultStatus) (s : Uploading (World × List ℕ) Error)
          → Going p n s
          → Going p n (lower_concurrency retry status s)
      unfolding lower_concurrency
      lower_concurrency-Going n retry need_retry_with_lower_concurrency s h =
          (h.0, ground (arith, h.0.2))
      lower_concurrency-Going n retry err_status s h = h
      lower_concurrency-Going n retry uploaded s h = h
      lower_concurrency-Going n retry downloaded s h = h
      lower_concurrency-Going n retry skipped s h = h
      lower_concurrency-Going n retry renew_token s h = h
      lower_concurrency-Going n retry renew_presigned_url s h = h
      lower_concurrency-Going n retry not_found_file s h = h
      lower_concurrency-Going n retry need_retry s h = h

      judge-SentStep :
          (n retry : ℕ) (s : Uploading (World × List ℕ) Error)
          → Going p n s
          → SentStep p n (judge retry s)
      unfolding judge
      judge-SentStep n retry s h =
          if_cases (SentStep p n) (is_settled s.meta.res_status) _ _ (λ e. h)
            (λ e. lower_concurrency-Going n retry s.meta.res_status s h)

      after_look-SentStep :
          (n retry : ℕ) (o : Step (World × List ℕ) Error)
          → SentStep p (suc n) o
          → SentStep p (suc (suc n)) (after_look (logged util) retry o)
      unfolding after_look
      after_look-SentStep n retry (goes_on s) h =
          judge-SentStep (suc (suc n)) retry (send_if_needed (logged util) s)
            (send_if_needed-Going (suc n) s h)
      after_look-SentStep n retry (ends e s) h = Going-le (suc n) (suc (suc n)) s (omega arith) h

      after_round-SentOutcome :
          (n k : ℕ) (rest : Uploading (World × List ℕ) Error → Outcome (World × List ℕ) Error)
          → n ≤ k
          → ((s : Uploading (World × List ℕ) Error) → Going p n s → SentOutcome p k (rest s))
          → (o : Step (World × List ℕ) Error) → SentStep p n o
          → SentOutcome p k (after_round rest o)
      unfolding after_round
      after_round-SentOutcome n k rest le ih (goes_on s) h = ih s h
      after_round-SentOutcome n k rest le ih (ends e s) h = (Going-le n k s le h).0

      upload_rounds-SentOutcome :
          (left retry n k : ℕ) (s : Uploading (World × List ℕ) Error)
          → n + 2 * left ≤ k
          → Going p n s
          → SentOutcome p k (upload_rounds (logged util) left retry s)
      unfolding upload_rounds upload_round
      upload_rounds-SentOutcome zero retry n k s le h = (Going-le n k s (omega arith) h).0
      upload_rounds-SentOutcome (suc left) retry n k s le h =
          after_round-SentOutcome (suc (suc n)) k (upload_rounds (logged util) left (suc retry))
            (omega arith)
            (λ s' h'.
              upload_rounds-SentOutcome left (suc retry) (suc (suc n)) k s' (omega arith) h')
            (upload_round (logged util) retry s)
            (after_look-SentStep n retry (look_first (logged util) s) (look_first-SentStep n s h))

      upload_one_file-SentOutcome :
          (n k : ℕ) (meta : FileMetadata Error) (world : World × List ℕ)
          → n + 10 ≤ k
          → Sent p n meta world
          → SentOutcome p k (upload_one_file (logged util) meta world)
      unfolding upload_one_file start_upload
      upload_one_file-SentOutcome n k meta world le h =
          upload_rounds-SentOutcome default_max_retry 0 n k (start_upload meta world) (omega arith)
            (h, (omega (arith, h.2), omega (arith, h.2)))

      verify-Sent :
          (left n : ℕ) (meta : FileMetadata Error) (world : World × List ℕ)
          → Sent p n meta world
          → Sent p n
              (verify (logged util) left meta world).meta
              (verify (logged util) left meta world).world
      unfolding verify logged
      verify-Sent zero n meta world h = h
      verify-Sent (suc left) n meta world h =
          let c = util.get_file_header meta.dst_file_name meta world.0 in
          let kept : Sent p n c.meta (c.world, world.1) =
            (h.0, h.1, keeps.by_header meta.dst_file_name meta world.0 ∙ h.2) in
          if_cases (λ (v : Verified (logged util)). Sent p n v.meta v.world)
            (is_not_found_file c.meta.res_status) _ _
            (λ e. verify-Sent left n c.meta (c.world, world.1) kept) (λ e. kept)

      verify_if_sent-Sent :
          (n : ℕ) (meta : FileMetadata Error) (world : World × List ℕ)
          → Sent p n meta world
          → Sent p n
              (verify_if_sent (logged util) meta world).meta
              (verify_if_sent (logged util) meta world).world
      unfolding verify_if_sent
      verify_if_sent-Sent n meta world h =
          if_cases (λ (v : Verified (logged util)). Sent p n v.meta v.world)
            (is_uploaded_or_skipped meta.res_status) _ _ (λ e. verify-Sent 10 n meta world h)
            (λ e. h)

      Sent-le :
          (m n : ℕ) (meta : FileMetadata Error) (world : World × List ℕ)
          → m ≤ n
          → Sent p m meta world
          → Sent p n meta world
      Sent-le m n meta world le h = (omega (arith, h.0), h.1, h.2)

      after_upload-SentOutcome :
          (n k : ℕ) (rest : FileMetadata Error → World × List ℕ → Outcome (World × List ℕ) Error)
          → n ≤ k
          → ((meta : FileMetadata Error) (world : World × List ℕ)
              → Sent p n meta world
              → SentOutcome p k (rest meta world))
          → (o : Outcome (World × List ℕ) Error) → SentOutcome p n o
          → SentOutcome p k (after_upload (logged util) rest o)
      unfolding after_upload
      after_upload-SentOutcome n k rest le ih (returns (some e) meta world) h =
          Sent-le n k meta world le h
      after_upload-SentOutcome n k rest le ih (returns none meta world) h =
          let v = verify_if_sent (logged util) meta world in
          if_cases (SentOutcome p k) v.retry_inner _ _
            (λ e. ih v.meta v.world (verify_if_sent-Sent n meta world h))
            (λ e. Sent-le n k v.meta v.world le (verify_if_sent-Sent n meta world h))
      after_upload-SentOutcome n k rest le ih panics h = absurd h

      upload_times-SentOutcome :
          (left n k : ℕ) (meta : FileMetadata Error) (world : World × List ℕ)
          → n + 10 * left ≤ k
          → Sent p n meta world
          → SentOutcome p k (upload_times (logged util) left meta world)
      unfolding upload_times
      upload_times-SentOutcome zero n k meta world le h = Sent-le n k meta world (omega arith) h
      upload_times-SentOutcome (suc left) n k meta world le h =
          after_upload-SentOutcome (n + 10) k (upload_times (logged util) left) (omega arith)
            (λ m w h'. upload_times-SentOutcome left (n + 10) k m w (omega arith) h')
            (upload_one_file (logged util) meta world)
            (upload_one_file-SentOutcome n (n + 10) meta world (omega arith) h)

      -- If the cloud's calls leave `parallel` as it is and it is not 0, `uploadOneFileWithRetry`
      -- returns after sending the file at most a hundred times, each time at a concurrency from 1
      -- to `parallel`.
      pub upload_one_file_with_retry-sent :
          (meta : FileMetadata Error) (world : World)
          → meta.parallel ≡ p
          → SentOutcome p 100 (upload_one_file_with_retry (logged util) meta (world, []))
      unfolding upload_one_file_with_retry
      upload_one_file_with_retry-sent meta world same =
          upload_times-SentOutcome 10 0 100 meta (world, []) (omega arith) (omega arith, tt, same)
