-- ===== src/Downloader/Order.antt =====
-- chunk_downloader.go: the rows come in order, whatever the downloads do.
use gosnowflake.Base.{
  ℕ, zero, suc, ◌≡◌, refl, false, Option, none, some, List, [], ◌∷◌, ◌++◌, drop, get_elem?, ◌∙◌, ap,
  inl, inr, append-nil, arith, Bool-cases, leb, sym, append_assoc, subst, Option-cases, ◌==◌, ◌≢◌,
  ◌⊎◌, ◌&&◌, length, ◌+◌,
}
use gosnowflake.Downloader.{
  Downloader, Phase, reading, looking, about_to_wait, waiting, Output, row, end_of_rows, failed,
  close_panic, ChunkError, Action, consumer, finishes, finishes_late, fails, Result, goes_on, stops,
  start, run, act, consume, read_row, next_chunk, no_more_data, look, check_error_retry, ends,
  end_download, schedule, schedule_times, put_chunk, store, continue_run, wake, no_retry, is_among,
  min,
}
use gosnowflake.Downloader.InOrder.{
  rows_up_to-le, rows_up_to, Before, SoFar, InOrder, IsBeginning, Told, Kept, schedule-InOrder,
  put_chunk-loaded, detach-loaded,
}

drop-get_elem?-some :
    {A : Type 0} (xs : List A) (i : ℕ) {x : A}
    → get_elem? xs i ≡ some x
    → drop i xs ≡ x ∷ drop (suc i) xs
drop-get_elem?-some [] i e = cc
drop-get_elem?-some (x ∷ xs) zero e = cc
drop-get_elem?-some (x ∷ xs) (suc i) e = drop-get_elem?-some xs i e

drop-get_elem?-none : {A : Type 0} (xs : List A) (i : ℕ) → get_elem? xs i ≡ none → drop i xs ≡ []
drop-get_elem?-none [] zero e = refl
drop-get_elem?-none [] (suc i) e = refl
drop-get_elem?-none (x ∷ xs) zero e = cc
drop-get_elem?-none (x ∷ xs) (suc i) e = drop-get_elem?-none xs i e

module _ {Row : Type 0} (content : ℕ → List Row) (first : List Row) where
  no_more_data-Kept :
      (n : ℕ) (out : List Row) (d : Downloader Row)
      → d.closed ≡ false
      → out ≡ rows_up_to content first n
      → Kept content first n out (no_more_data d)
  unfolding no_more_data
  no_more_data-Kept n out d o e = elim (Bool-cases (d.chunk_metas == 0)) [
    | inl c ↦ rw c e
    | inr c ↦ rw (c, o) e
  ]

  module _ (n : ℕ) (out : List Row) (d : Downloader Row) (h : InOrder content first n out d) where
    next_chunk-Kept :
        out ≡ rows_up_to content first d.current_chunk_index
        → Kept content first n out (next_chunk d.current_chunk_index d)
    unfolding next_chunk
    next_chunk-Kept e = elim (Bool-cases (leb d.chunk_metas d.current_chunk_index)) [
      | inl past ↦
          let all : d.current_chunk_index ≡ n = ground (arith, h.metas, h.not_past) in
          rw past (no_more_data-Kept n out _ h.open_still (e ∙ ap (rows_up_to content first) all))
      | inr left ↦ rw left (record {
        loaded = detach-loaded content first d.chunks d.current_chunk_index h.loaded;
        metas = h.metas;
        not_past = ground (arith, h.metas);
        open_still = h.open_still;
        so_far = (d.current_chunk_index, refl, refl, e);
      })
    ]

    read_row-Kept : d.phase ≡ reading → Kept content first n out (read_row d)
    unfolding read_row
    read_row-Kept p =
        let s : SoFar content first reading out d.current_index
            (drop d.current_index d.current_chunk) d.current_chunk_index =
          subst
            (λ (q : Phase).
              SoFar content first q out d.current_index (drop d.current_index d.current_chunk)
                d.current_chunk_index)
            p h.so_far in
        elim (Option-cases (get_elem? d.current_chunk d.current_index)) [
          | inl e ↦
              let done : out ≡ rows_up_to content first d.current_chunk_index =
                sym (append-nil out)
                ∙ ap (λ (xs : List Row). out ++ xs)
                    (sym (drop-get_elem?-none d.current_chunk d.current_index e))
                ∙ s in
              rw (e, read_row) (next_chunk-Kept done)
          | inr (r, e) ↦
              let left : out ++ r ∷ [] ++ drop (suc d.current_index) d.current_chunk
                  ≡ rows_up_to content first d.current_chunk_index =
                append_assoc out (r ∷ []) (drop (suc d.current_index) d.current_chunk)
                ∙ ap (λ (xs : List Row). out ++ xs)
                    (sym (drop-get_elem?-some d.current_chunk d.current_index e))
                ∙ s in
              rw (e, read_row)
                (record {
                  loaded = h.loaded;
                  metas = h.metas;
                  not_past = h.not_past;
                  open_still = h.open_still;
                  so_far =
                      subst
                        (λ (q : Phase).
                          SoFar content first q (out ++ r ∷ []) (suc d.current_index)
                            (drop (suc d.current_index) d.current_chunk) d.current_chunk_index)
                        (sym p) left;
                })
        ]

    abbrev InPhase : Phase → Type 0
    InPhase q =
        SoFar content first q out d.current_index (drop d.current_index d.current_chunk)
          d.current_chunk_index

    before :
        (p : Phase)
        → d.phase ≡ p
        → p ≢ reading
        → Before content first out d.current_index d.current_chunk_index
    before reading e ne = absurd (ne refl)
    before looking e ne = subst InPhase e h.so_far
    before about_to_wait e ne = subst InPhase e h.so_far
    before waiting e ne = subst InPhase e h.so_far

    check_error_retry-Kept :
        (es : List ChunkError)
        → Before content first out d.current_index d.current_chunk_index
        → Kept content first n out (check_error_retry es d)
    unfolding check_error_retry
    check_error_retry-Kept [] b = record {
      loaded = h.loaded;
      metas = h.metas;
      not_past = h.not_past;
      open_still = h.open_still;
      so_far = b;
    }
    check_error_retry-Kept (e ∷ es) (k, c, i, all) =
        elim (Bool-cases (no_retry d.chunks_error_counter e.error)) [
          | inl gives_up ↦ rw gives_up (
              subst (IsBeginning content first n) (sym all)
                (rows_up_to-le content first k n (omega (arith, h.not_past, c))))
          | inr again ↦ rw again (record {
            loaded = h.loaded;
            metas = h.metas;
            not_past = h.not_past;
            open_still = h.open_still;
            so_far = (k, c, i, all);
          })
        ]

    look-Kept :
        (c : ℕ)
        → d.current_chunk_index ≡ c
        → Before content first out d.current_index d.current_chunk_index
        → Kept content first n out (look c d)
    unfolding look
    look-Kept zero e (k, c, i, all) = absurd (omega (arith, e, c))
    look-Kept (suc k) e (k', c, i, all) = elim (Option-cases (d.chunks k)) [
      | inl missing ↦ rw (missing, look) (check_error_retry-Kept d.chunks_error (k', c, i, all))
      | inr (rows, there) ↦
          let same : k' ≡ k = omega (arith, e, c) in
          let left : out ++ drop d.current_index rows
              ≡ rows_up_to content first d.current_chunk_index =
            ap (λ (j : ℕ). out ++ drop j rows) i
            ∙ ap (λ (xs : List Row). xs ++ rows) (all ∙ ap (rows_up_to content first) same)
            ∙ ap (λ (xs : List Row). rows_up_to content first k ++ xs) (h.loaded k rows there)
            ∙ ap (rows_up_to content first) (sym e) in
          rw (there, look)
            (schedule-InOrder content first n out
              (record d { current_chunk = rows; phase = reading })
              (record {
                loaded = h.loaded;
                metas = h.metas;
                not_past = h.not_past;
                open_still = h.open_still;
                so_far = left;
              }))
    ]

    consume-Kept : (p : Phase) → d.phase ≡ p → Kept content first n out (consume p d)
    unfolding consume
    consume-Kept reading p = read_row-Kept p
    consume-Kept looking p = look-Kept d.current_chunk_index refl (before looking p (λ e. cc))
    consume-Kept about_to_wait p = record {
      loaded = h.loaded;
      metas = h.metas;
      not_past = h.not_past;
      open_still = h.open_still;
      so_far = before about_to_wait p (λ e. cc);
    }
    consume-Kept waiting p = h

    SoFar-wake :
        (p : Phase) (i : ℕ) (left : List Row) (c : ℕ)
        → SoFar content first p out i left c
        → SoFar content first (wake p) out i left c
    SoFar-wake reading i left c s = s
    SoFar-wake looking i left c s = s
    SoFar-wake about_to_wait i left c s = s
    SoFar-wake waiting i left c s = s

    end_download-InOrder :
        (i : ℕ) (stored : Option (List Row)) (errors : List ChunkError)
        → (stored ≡ none) ⊎ (stored ≡ some (content i))
        → InOrder content first n out (end_download i stored errors d)
    unfolding end_download
    end_download-InOrder i stored errors s = record {
      loaded = stores stored s;
      metas = h.metas;
      not_past = h.not_past;
      open_still = h.open_still;
      so_far = SoFar-wake d.phase d.current_index _ d.current_chunk_index h.so_far;
    }
      where
        stores :
            (stored : Option (List Row))
            → (stored ≡ none) ⊎ (stored ≡ some (content i))
            → (j : ℕ) (rows : List Row) → store i stored d.chunks j ≡ some rows
            → rows ≡ content j
        stores none s j rows e = h.loaded j rows e
        stores (some xs) (inl bad) j rows e = cc
        stores (some xs) (inr same) j rows e =
            put_chunk-loaded content first d.chunks i h.loaded j rows
              (ap (λ (v : Option (List Row)). put_chunk i v d.chunks j) (sym same) ∙ e)

    ends-Kept :
        (i : ℕ) (stored : Option (List Row)) (errors : List ChunkError)
        → (stored ≡ none) ⊎ (stored ≡ some (content i))
        → Kept content first n out (ends content i stored errors d)
    unfolding ends
    ends-Kept i stored errors s =
        elim (Bool-cases (
          is_among i d.downloads
          && leb (length d.chunks_error + length errors) d.chunks_error_capacity)) [
            | inl now ↦ rw now (end_download-InOrder i stored errors s)
            | inr not_now ↦ rw not_now h
          ]

    act-Kept : (a : Action) → Kept content first n out (act content a d)
    unfolding act
    act-Kept consumer = consume-Kept d.phase refl
    act-Kept (finishes i) = ends-Kept i (some (content i)) [] (inr refl)
    act-Kept (finishes_late i e) =
        ends-Kept i (some (content i)) (record { index = i; error = e } ∷ []) (inr refl)
    act-Kept (fails i e) = ends-Kept i none (record { index = i; error = e } ∷ []) (inl refl)

  -- What a run says of the rows: those returned are a beginning of all, and they are all at the end.
  abbrev pub Orderly : ℕ → Result content → Type 0
  Orderly n (goes_on out d) = IsBeginning content first n out
  Orderly n (stops out o) = Told content first n out o

  InOrder-IsBeginning :
      (n : ℕ) (out : List Row) (d : Downloader Row)
      → InOrder content first n out d
      → IsBeginning content first n out
  InOrder-IsBeginning n out d h = at d.phase refl
    where
      at_before :
          Before content first out d.current_index d.current_chunk_index
          → IsBeginning content first n out
      at_before (k, c, i, all) =
          subst (IsBeginning content first n) (sym all)
            (rows_up_to-le content first k n (omega (arith, h.not_past, c)))

      at_reading :
          SoFar content first reading out d.current_index
            (drop d.current_index d.current_chunk)
            d.current_chunk_index
          → IsBeginning content first n out
      at_reading e =
          let (rest, all) = rows_up_to-le content first d.current_chunk_index n h.not_past in
          (
            drop d.current_index d.current_chunk ++ rest,
            sym (append_assoc out (drop d.current_index d.current_chunk) rest)
                ∙ ap (λ (xs : List Row). xs ++ rest) e
                ∙ all,
          )

      at : (p : Phase) → d.phase ≡ p → IsBeginning content first n out
      at reading e = at_reading (subst (InPhase n out d h) e h.so_far)
      at looking e = at_before (before n out d h looking e (λ q. cc))
      at about_to_wait e = at_before (before n out d h about_to_wait e (λ q. cc))
      at waiting e = at_before (before n out d h waiting e (λ q. cc))

  continue_run-Orderly :
      (n : ℕ) (out : List Row) (p : Downloader Row × Option (Output Row))
      (rest : List Row → Downloader Row → Result content)
      → ((out' : List Row) (d' : Downloader Row)
          → InOrder content first n out' d'
          → Orderly n (rest out' d'))
      → Kept content first n out p
      → Orderly n (continue_run content rest out p)
  unfolding continue_run
  continue_run-Orderly n out (d, none) rest ih k = ih out d k
  continue_run-Orderly n out (d, some (row r)) rest ih k = ih (out ++ r ∷ []) d k
  continue_run-Orderly n out (d, some end_of_rows) rest ih k = k
  continue_run-Orderly n out (d, some (failed e)) rest ih k = k
  continue_run-Orderly n out (d, some close_panic) rest ih k = k

  run-InOrder :
      (n : ℕ) (actions : List Action) (out : List Row) (d : Downloader Row)
      → InOrder content first n out d
      → Orderly n (run content actions out d)
  unfolding run
  run-InOrder n [] out d h = InOrder-IsBeginning n out d h
  run-InOrder n (a ∷ rest) out d h =
      continue_run-Orderly n out (act content a d) (run content rest)
        (λ out' d' h'. run-InOrder n rest out' d' h') (act-Kept n out d h a)

  schedule_times-InOrder :
      (n : ℕ) (out : List Row) (times : ℕ) (d : Downloader Row)
      → InOrder content first n out d
      → InOrder content first n out (schedule_times times d)
  unfolding schedule_times
  schedule_times-InOrder n out zero d h = h
  schedule_times-InOrder n out (suc times) d h =
      schedule_times-InOrder n out times (schedule d) (schedule-InOrder content first n out d h)

  start-InOrder : (workers n : ℕ) → InOrder content first n [] (start workers first n)
  unfolding start
  start-InOrder workers n = schedule_times-InOrder n [] (min workers n) _ (record {
    loaded = λ i rows e. cc;
    metas = refl;
    not_past = omega arith;
    open_still = refl;
    so_far = refl;
  })

  -- However the downloads end, interleave and are tried again, and with any number of workers, the
  -- rows that `next` has returned are a beginning of the rows of the response followed by those of
  -- the chunks in order; when it returns the end of the rows they are all of them; and its first
  -- return that is no row is no panic.
  pub run-Orderly :
      (workers n : ℕ) (actions : List Action)
      → Orderly n (run content actions [] (start workers first n))
  run-Orderly workers n actions =
      run-InOrder n actions [] (start workers first n) (start-InOrder workers n)
