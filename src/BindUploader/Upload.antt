-- ===== src/BindUploader/Upload.antt =====
-- bind_uploader.go: the commands that `upload` sends.
use gosnowflake.Base.{
  ◌≡◌, refl, Bool, ◌⊎◌, ◌++◌, List, true, false, Option, if◌then◌else◌, [], ℕ, ◌≢◌, ◌∷◌, inr, arith,
  Bool-cases, inl, append-nil, some, none, append_assoc, ◌∙◌, subst, ◌<◌, length, ◌≤◌, suc, zero,
  sym,
}
use gosnowflake.Base.Text.{Bytes}
use gosnowflake.BindUploader.{
  Outcome, ok, err, BindError, Command, create_stage, put, Answer, failed, answered, Uploader,
  concat_rows, fill_file, upload_loop, upload_rows, upload_stream_internal, create_stage_if_needed,
  after_stage, put_file, stage_answer, log, exec_failed, code_not_number, exec_refused,
  stage_name_null, after_file,
}
use gosnowflake.BindUploader.Files.{
  all_rows, IsFiling, files_of, files_of-IsFiling, plan, IsNotOk, fill_file_takes,
}

abbrev setup : Bool → List Command
setup has_stage = if has_stage then [] else create_stage ∷ []

-- One more command behind a list that is in two parts.
joined :
    (xs ys zs : List Command) (c : Command) → xs ≡ ys ++ zs → xs ++ c ∷ [] ≡ ys ++ (zs ++ c ∷ [])
joined xs ys zs c e = rw e (append_assoc ys zs (c ∷ []))

regroup :
    (xs ys zs : List Command) (c : Command) → (xs ++ (ys ++ c ∷ [])) ++ zs ≡ xs ++ (ys ++ c ∷ zs)
regroup xs ys zs c = simp append_assoc

module _ (exec : Command → Answer) where
  -- The stage is there, and what was to be sent for it was sent.
  abbrev Ready : Uploader → Uploader → Type 0
  Ready u v =
      (v.sent ≡ u.sent ++ setup u.has_stage)
      × (v.has_stage ≡ true)
      × (v.file_count ≡ u.file_count)
      × (v.stage_path ≡ u.stage_path)

  abbrev StageCases : Uploader → Outcome (Unit {0}) × Uploader → Type 0
  StageCases u res =
      ((v : Uploader) × (res ≡ (ok tt, v)) × Ready u v)
      ⊎ ((e : BindError) × (v : Uploader) × (res ≡ (err e, v))
          × (v.sent ≡ u.sent ++ setup u.has_stage)
          × (u.has_stage ≡ false)
          × ((code : Option ℕ) → exec create_stage ≢ answered true code))

  stage_answer_cases :
      (a : Answer) (u : Uploader)
      → exec create_stage ≡ a
      → u.has_stage ≡ false
      → StageCases u (stage_answer exec a (log exec create_stage u))
  unfolding stage_answer log
  stage_answer_cases failed u e h =
      inr (exec_failed, _, refl, ground arith, h, λ code f. ground arith)
  stage_answer_cases (answered true code) u e h = inl (_, refl, (ground arith, refl, refl, refl))
  stage_answer_cases (answered false none) u e h =
      inr (code_not_number, _, refl, ground arith, h, λ code f. ground arith)
  stage_answer_cases (answered false (some code)) u e h =
      inr (exec_refused code, _, refl, ground arith, h, λ code f. ground arith)

  create_stage-StageCases : (u : Uploader) → StageCases u (create_stage_if_needed exec u)
  unfolding create_stage_if_needed
  create_stage-StageCases u = elim (Bool-cases u.has_stage) [
    | inl h ↦ inl (u, ground arith, (ground (arith, append-nil u.sent), h, refl, refl))
    | inr h ↦ subst (StageCases u) (needed h) (stage_answer_cases (exec create_stage) u refl h)
  ]
    where
      needed :
          u.has_stage ≡ false
          → stage_answer exec (exec create_stage) (log exec create_stage u)
            ≡ create_stage_if_needed exec u
      needed h = ground arith

  -- What `uploadStreamInternal` does with a file: it is sent behind what its stage needs, or the
  -- call fails with a part of that sent.
  abbrev FileCases : Bytes → ℕ → Uploader → Outcome (Option Answer) × Uploader → Type 0
  FileCases content n u res =
      ((r : Option Answer) × (v : Uploader) × (res ≡ (ok r, v))
        × (v.sent ≡ u.sent ++ (setup u.has_stage ++ put n content ∷ []))
        × (v.has_stage ≡ true)
        × (v.file_count ≡ u.file_count)
        × (v.stage_path ≡ u.stage_path))
      ⊎ ((e : BindError) × (v : Uploader) × (rest : List Command) × (res ≡ (err e, v))
          × (v.sent ++ rest ≡ u.sent ++ (setup u.has_stage ++ put n content ∷ [])))

  put_file_cases :
      (content : Bytes) (n : ℕ) (u v : Uploader) (a : Answer)
      → Ready u v
      → exec (put n content) ≡ a
      → FileCases content n u (put_file exec n content v)
  unfolding put_file
  put_file_cases content n u v failed (s, h, c, p) e = inr (
    exec_failed,
    log exec (put n content) v,
    [],
    rw (e, put_file),
    append-nil _ ∙ joined v.sent u.sent (setup u.has_stage) (put n content) s,
  )
  put_file_cases content n u v (answered b code) (s, h, c, p) e = inl (
    some (answered b code),
    log exec (put n content) v,
    rw (e, put_file),
    joined v.sent u.sent (setup u.has_stage) (put n content) s,
    h,
    c,
    p,
  )

  after_stage_cases :
      (content : Bytes) (n : ℕ) (u v : Uploader) (path : Bytes)
      → v.stage_path ≡ path
      → Ready u v
      → FileCases content n u (after_stage exec n content (ok tt) v)
  unfolding after_stage
  after_stage_cases content n u v [] e (s, h, c, p) = inr (
    stage_name_null,
    v,
    put n content ∷ [],
    ground arith,
    joined v.sent u.sent (setup u.has_stage) (put n content) s,
  )
  after_stage_cases content n u v (x ∷ xs) e r =
      subst (FileCases content n u) opened (put_file_cases content n u v _ r refl)
    where
      opened : put_file exec n content v ≡ after_stage exec n content (ok tt) v
      opened = ground arith

  upload_stream_internal_cases :
      (content : Bytes) (n : ℕ) (u : Uploader)
      → FileCases content n u (upload_stream_internal exec content n u)
  upload_stream_internal_cases content n u = elim (create_stage-StageCases u) [
    | inl (v, e, r) ↦
        unfold upload_stream_internal in rw e (after_stage_cases content n u v v.stage_path refl r)
    | inr (b, v, e, s, _, _) ↦
        unfold upload_stream_internal in
        rw e (
          inr (
            b,
            v,
            put n content ∷ [],
            refl,
            joined v.sent u.sent (setup u.has_stage) (put n content) s,
          ))
  ]

  abbrev LoopCases :
      Uploader → List (List Bytes) → Option (Outcome (Option Answer) × Uploader) → Type 0
  LoopCases u files res =
      (o : Outcome (Option Answer)) × (v : Uploader) × (rest : List Command) × (res ≡ some (o, v))
      × (v.sent ++ rest ≡ u.sent ++ plan u.has_stage u.file_count files)
      × ((rest ≡ []) ⊎ IsNotOk o)

  after_file_cases :
      (u : Uploader) (f : List Bytes) (fs : List (List Bytes))
      (next : Option Answer → Uploader → Option (Outcome (Option Answer) × Uploader))
      (res : Outcome (Option Answer) × Uploader)
      → ((q : Option Answer) (v : Uploader) → LoopCases v fs (next q v))
      → FileCases
          (concat_rows f)
          (suc u.file_count)
          (record u { file_count = suc u.file_count })
          res
      → LoopCases u (f ∷ fs) (after_file next res)
  unfolding after_file
  after_file_cases u f fs next res ih (inl (q, v, e, s, h, c, _)) =
      let (o, w, rest, runs, sent, done) = ih q v in
      (
        o,
        w,
        rest,
        rw e runs,
        sent
            ∙ (rw s (
                rw h (
                  rw c (
                    regroup u.sent (setup u.has_stage) (plan true (suc u.file_count) fs)
                      (put (suc u.file_count) (concat_rows f)))))),
        done,
      )
  after_file_cases u f fs next res ih (inr (b, v, rest, e, s)) = (
    err b,
    v,
    rest ++ plan true (suc u.file_count) fs,
    rw e,
    sym (append_assoc v.sent rest _)
        ∙ (rw s (
            regroup u.sent (setup u.has_stage) (plan true (suc u.file_count) fs)
              (put (suc u.file_count) (concat_rows f)))),
    inr (λ x y. cc),
  )

  upload_loop_cases :
      (limit fuel : ℕ) (rows : List Bytes) (response : Option Answer) (u : Uploader)
      → 0 < limit
      → length rows ≤ fuel
      → LoopCases u (files_of fuel limit rows) (upload_loop exec limit fuel rows response u)
  unfolding upload_loop files_of
  upload_loop_cases limit fuel [] response u h k = (ok response, u, [], refl, refl, inl refl)
  upload_loop_cases limit zero (r ∷ rs) response u h k = absurd (omega arith)
  upload_loop_cases limit (suc fuel) (r ∷ rs) response u h k =
      let file = fill_file limit 0 (r ∷ rs) in
      after_file_cases u file.0 (files_of fuel limit file.1) (upload_loop exec limit fuel file.1) _
        (λ q v.
          upload_loop_cases limit fuel file.1 q v h (omega (arith, fill_file_takes limit r rs h)))
        (upload_stream_internal_cases (concat_rows file.0) (suc u.file_count)
          (record u { file_count = suc u.file_count }))

  -- `upload` ends after at most as many rounds as rows. The rows fall, in order, into files that
  -- each take a row, are below the limit before their last row, and but for the last have reached
  -- it; what is sent is the stage's creation, unless it is there, and the files numbered from 1, or
  -- a beginning of that if the call returns an error.
  pub upload_rows_sends :
      (limit : ℕ) (rows : List Bytes) (u : Uploader)
      → 0 < limit
      → (files : List (List Bytes)) × (o : Outcome (Option Answer)) × (v : Uploader) × (rest : List
          Command)
        × IsFiling limit files
        × (all_rows files ≡ rows)
        × (upload_rows exec limit rows u ≡ some (o, v))
        × (v.sent ++ rest ≡ u.sent ++ plan u.has_stage 0 files)
        × ((rest ≡ []) ⊎ IsNotOk o)
  unfolding upload_rows
  upload_rows_sends limit rows u h =
      let (filing, whole) = files_of-IsFiling (length rows) limit rows h (omega arith) in
      let (o, v, rest, runs, sent, done) =
        upload_loop_cases limit (length rows) rows none (record u { file_count = 0 }) h
          (omega arith) in
      (files_of (length rows) limit rows, o, v, rest, filing, whole, runs, sent, done)
