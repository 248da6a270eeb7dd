-- ===== src/Downloader/InOrder.antt =====
-- chunk_downloader.go: the rows returned, against where the thread and the chunks stand.
use gosnowflake.Base.{
  ℕ, zero, suc, ◌≡◌, false, Option, none, some, List, [], ◌∷◌, ◌++◌, drop, ◌≤◌, ◌∙◌, ap, inl, inr,
  append-nil, arith, Bool-cases, leb, sym, append_assoc,
}
use gosnowflake.Downloader.{
  Downloader, Phase, reading, looking, about_to_wait, waiting, Output, row, end_of_rows, failed,
  close_panic, schedule, put_chunk, detach,
}

module _ {Row : Type 0} (content : ℕ → List Row) (first : List Row) where
  -- The rows of the response and of the chunks below an index, in order.
  abbrev pub rows_up_to : ℕ → List Row
  rows_up_to zero = first
  rows_up_to (suc k) = rows_up_to k ++ content k

  -- Before a chunk, the rows of all chunks below it are returned.
  abbrev pub Before : List Row → ℕ → ℕ → Type 0
  Before out i c = (k : ℕ) × (c ≡ suc k) × (i ≡ 0) × (out ≡ rows_up_to k)

  -- The rows returned, against where the thread stands, with the index of the next row, the rows of
  -- the current chunk from there on, and the index of the next chunk.
  abbrev pub SoFar : Phase → List Row → ℕ → List Row → ℕ → Type 0
  SoFar reading out i left c = out ++ left ≡ rows_up_to c
  SoFar looking out i left c = Before out i c
  SoFar about_to_wait out i left c = Before out i c
  SoFar waiting out i left c = Before out i c

  pub record InOrder (n : ℕ) (out : List Row) (d : Downloader Row) : Type 0 where
    pub loaded : (i : ℕ) (rows : List Row) → d.chunks i ≡ some rows → rows ≡ content i
    pub metas : d.chunk_metas ≡ n
    pub not_past : d.current_chunk_index ≤ n
    pub open_still : d.closed ≡ false
    pub so_far :
        SoFar d.phase out d.current_index
          (drop d.current_index d.current_chunk)
          d.current_chunk_index

  -- Rows that are a beginning of all.
  abbrev pub IsBeginning : ℕ → List Row → Type 0
  IsBeginning n out = (rest : List Row) × (out ++ rest ≡ rows_up_to n)

  -- What a return of `next` says of the rows returned before.
  abbrev pub Told : ℕ → List Row → Output Row → Type 0
  Told n out (row r) = ⊥
  Told n out end_of_rows = out ≡ rows_up_to n
  Told n out (failed e) = IsBeginning n out
  Told n out close_panic = ⊥

  abbrev pub Kept : ℕ → List Row → Downloader Row × Option (Output Row) → Type 0
  Kept n out (d, none) = InOrder n out d
  Kept n out (d, some (row r)) = InOrder n (out ++ r ∷ []) d
  Kept n out (d, some end_of_rows) = Told n out end_of_rows
  Kept n out (d, some (failed e)) = Told n out (failed e)
  Kept n out (d, some close_panic) = ⊥

  pub rows_up_to-le : (k n : ℕ) → k ≤ n → IsBeginning n (rows_up_to k)
  rows_up_to-le zero zero h = ([], append-nil first)
  rows_up_to-le (suc k) zero h = absurd (omega arith)
  rows_up_to-le k (suc n) h = elim (Bool-cases (leb k n)) [
    | inl below ↦
        let (rest, e) = rows_up_to-le k n (ground arith) in
        (
          rest ++ content n,
          sym (append_assoc (rows_up_to k) rest (content n))
              ∙ ap (λ (xs : List Row). xs ++ content n) e,
        )
    | inr above ↦
        let last : k ≡ suc n = ground arith in ([], append-nil (rows_up_to k) ∙ ap rows_up_to last)
  ]

  pub schedule-InOrder :
      (n : ℕ) (out : List Row) (d : Downloader Row) → InOrder n out d → InOrder n out (schedule d)
  unfolding schedule
  schedule-InOrder n out d h = record {
    loaded = h.loaded;
    metas = h.metas;
    not_past = h.not_past;
    open_still = h.open_still;
    so_far = h.so_far;
  }

  pub put_chunk-loaded :
      (chunks : ℕ → Option (List Row)) (i : ℕ)
      → ((j : ℕ) (rows : List Row) → chunks j ≡ some rows → rows ≡ content j)
      → (j : ℕ) (rows : List Row) → put_chunk i (some (content i)) chunks j ≡ some rows
      → rows ≡ content j
  unfolding put_chunk
  put_chunk-loaded chunks i h j rows e = ground (arith, h j rows)

  pub detach-loaded :
      (chunks : ℕ → Option (List Row)) (k : ℕ)
      → ((j : ℕ) (rows : List Row) → chunks j ≡ some rows → rows ≡ content j)
      → (j : ℕ) (rows : List Row) → detach k chunks j ≡ some rows
      → rows ≡ content j
  unfolding detach put_chunk
  detach-loaded chunks zero h j rows e = h j rows e
  detach-loaded chunks (suc k) h j rows e = ground (arith, h j rows)
