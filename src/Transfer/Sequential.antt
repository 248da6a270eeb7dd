-- ===== src/Transfer/Sequential.antt =====
-- file_transfer_agent.go: the uploads one after the other end, and nothing is ever renewed.
use gosnowflake.Base.{
  ℕ, zero, suc, ◌+◌, ◌≡◌, refl, ◌≤◌, Option, none, some, List, [], ◌∷◌, ◌++◌, length, All,
  All-append, arith, false, length-append, inl, inr, ◌∙◌, if_false, subst, sym,
}
use gosnowflake.Storage.{
  FileMetadata, Call, CloudUtil, Outcome, returns, panics, upload_one_file_with_retry, ResultStatus,
  err_status, uploaded, downloaded, skipped, renew_token, renew_presigned_url, not_found_file,
  need_retry, need_retry_with_lower_concurrency, from_cloud,
}
use gosnowflake.Storage.Upload.{IsReported, ReportedOutcome, upload_one_file_with_retry-status}
use gosnowflake.Transfer.{
  Steps, FileResult, finished, crashes, FilesResult, done, stopped, crashed, out_of_fuel,
  is_renew_token, is_renew_presigned_url, file_result, and_then, upload_in_dir, transfer_one_file,
  after_file, upload_files_sequential,
}

IsReported-renews :
    (s : ResultStatus)
    → IsReported s
    → (is_renew_token s ≡ false) × (is_renew_presigned_url s ≡ false)
IsReported-renews err_status r = (refl, refl)
IsReported-renews uploaded r = (refl, refl)
IsReported-renews downloaded r = (refl, refl)
IsReported-renews skipped r = (refl, refl)
IsReported-renews renew_token (inl e) = cc
IsReported-renews renew_token (inr (inl e)) = cc
IsReported-renews renew_token (inr (inr e)) = cc
IsReported-renews renew_presigned_url (inl e) = cc
IsReported-renews renew_presigned_url (inr (inl e)) = cc
IsReported-renews renew_presigned_url (inr (inr e)) = cc
IsReported-renews not_found_file r = (refl, refl)
IsReported-renews need_retry r = (refl, refl)
IsReported-renews need_retry_with_lower_concurrency r = (refl, refl)

abbrev pub AllReported : {Error : Type 0} → List (FileMetadata Error) → Type 0
AllReported {Error} = All (λ (meta : FileMetadata Error). IsReported meta.res_status)

module _ {World Error : Type 0} where
  -- A file's upload returns its metadata with a status of the report, or an error.
  abbrev ReportedFile : FileResult World Error → Type 0
  ReportedFile (finished r (some e) world) = Unit {0}
  ReportedFile (finished none none world) = ⊥
  ReportedFile (finished (some meta) none world) = IsReported meta.res_status
  ReportedFile crashes = ⊥

  -- All of a number of files are reported, or there is an error and fewer are.
  abbrev pub Ended : ℕ → FilesResult World Error → Type 0
  Ended n (done results world) = (length results ≡ n) × AllReported results
  Ended n (stopped e results world) = (suc (length results) ≤ n) × AllReported results
  Ended n crashed = ⊥
  Ended n out_of_fuel = ⊥

  file_result-ReportedFile :
      (o : Outcome World Error) → ReportedOutcome o → ReportedFile (file_result o)
  unfolding file_result
  file_result-ReportedFile (returns none meta world) h = h
  file_result-ReportedFile (returns (some e) meta world) h = tt
  file_result-ReportedFile panics h = absurd h

  and_then-ReportedFile :
      (c : Call World Error (Unit {0})) (rest : FileMetadata Error → World → FileResult World Error)
      → ((meta : FileMetadata Error) (world : World) → ReportedFile (rest meta world))
      → ReportedFile (and_then c rest)
  unfolding and_then
  and_then-ReportedFile c rest h = at c.error
    where
      at :
          (e : Option Error)
          → ReportedFile (elim e [
            | some x ↦ finished (some c.meta) (some (from_cloud x)) c.world
            | none ↦ rest c.meta c.world
          ])
      at none = h c.meta c.world
      at (some x) = tt

  module _ {Header : Type 0} (steps : Steps World Error) (util : CloudUtil World Error Header) where
    upload_in_dir-ReportedFile :
        (meta : FileMetadata Error) (world : World)
        → ReportedFile (upload_in_dir steps util meta world)
    unfolding upload_in_dir
    upload_in_dir-ReportedFile meta world =
        and_then-ReportedFile (steps.compress_data_if_required meta world) _ (λ meta1 world1.
          and_then-ReportedFile (steps.update_upload_size meta1 world1) _ (λ meta2 world2.
            and_then-ReportedFile (steps.encrypt_data_if_required meta2 world2) _ (λ meta3 world3.
              file_result-ReportedFile (upload_one_file_with_retry util meta3 world3)
                (upload_one_file_with_retry-status util meta3 world3))))

    transfer_one_file-ReportedFile :
        (meta : FileMetadata Error) (world : World)
        → ReportedFile (transfer_one_file steps util meta world)
    unfolding transfer_one_file
    transfer_one_file-ReportedFile meta world = at (steps.make_temp_dir world).0
      where
        at :
            (e : Option Error)
            → ReportedFile (elim e [
              | some x ↦ finished none (some (from_cloud x)) (steps.make_temp_dir world).1
              | none ↦
                  upload_in_dir steps util
                    (record meta { real_src_file_name = meta.src_file_name })
                    (steps.make_temp_dir world).1
            ])
        at none = upload_in_dir-ReportedFile _ _
        at (some x) = tt

    after_file-Ended :
        (n : ℕ) (again : FileMetadata Error → World → FilesResult World Error)
        (next : List (FileMetadata Error) → World → FilesResult World Error)
        (results : List (FileMetadata Error))
        → suc (length results) ≤ n
        → AllReported results
        → ((results' : List (FileMetadata Error)) (world : World)
            → length results' ≡ suc (length results)
            → AllReported results'
            → Ended n (next results' world))
        → (r : FileResult World Error) → ReportedFile r
        → Ended n (after_file steps util again next results r)
    unfolding after_file
    after_file-Ended n again next results le all ih (finished r (some e) world) h = (le, all)
    after_file-Ended n again next results le all ih (finished none none world) h = absurd h
    after_file-Ended n again next results le all ih (finished (some meta) none world) h =
        let (token, url) = IsReported-renews meta.res_status h in
        let more = results ++ meta ∷ [] in
        subst (Ended n)
          (sym (
            if_false {b = is_renew_token meta.res_status} _ _ token
            ∙ if_false {b = is_renew_presigned_url meta.res_status} _ _ url))
          (ih more world (omega (arith, length-append {0} results (meta ∷ []))) (
            All-append (λ (m : FileMetadata Error). IsReported m.res_status) results (meta ∷ []) all
              (h, tt)))
    after_file-Ended n again next results le all ih crashes h = absurd h

    upload_files_sequential-from :
        (fuel n : ℕ) (metas results : List (FileMetadata Error)) (world : World)
        → length metas ≤ fuel
        → length results + length metas ≡ n
        → AllReported results
        → Ended n (upload_files_sequential steps util fuel metas results world)
    unfolding upload_files_sequential
    upload_files_sequential-from fuel n [] results world le e all = (omega (arith, e), all)
    upload_files_sequential-from zero n (meta ∷ metas) results world le e all = absurd (omega arith)
    upload_files_sequential-from (suc fuel) n (meta ∷ metas) results world le e all =
        after_file-Ended n _ (upload_files_sequential steps util fuel metas) results
          (omega (arith, e)) all
          (λ results' world' e' all'.
            upload_files_sequential-from fuel n metas results' world' (omega arith)
              (omega (arith, e, e')) all')
          (transfer_one_file steps util meta world) (transfer_one_file-ReportedFile meta world)

    -- For a stage in a cloud `uploadFilesSequential` ends within as many rounds as files, without a
    -- crash: with as many results as files, or with an error and fewer, each with one of the
    -- statuses UPLOADED, SKIPPED, NOT_FOUND_FILE and ERROR.
    pub upload_files_sequential-Ended :
        (metas : List (FileMetadata Error)) (world : World)
        → Ended (length metas) (upload_files_sequential steps util (length metas) metas [] world)
    upload_files_sequential-Ended metas world =
        upload_files_sequential-from (length metas) (length metas) metas [] world (omega arith)
          (omega arith) tt
