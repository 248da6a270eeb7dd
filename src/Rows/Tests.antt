-- ===== src/Rows/Tests.antt =====
-- rows.go: result sets of two statements, and the theorems applied there.
use gosnowflake.Base.{ap, ℕ, ◌≡◌, refl, none, some, true, [], ◌∷◌, Option, arith}
use gosnowflake.Base.Int.{pos, negsuc, pos_part}
use gosnowflake.Base.Text.{codes}
use gosnowflake.Rows.{
  Rows, ResultSet, Column, gives, panics, ready, eof, complete, in_progress, query_failed,
  next_result_set, rows_has_next_result_set, column_type_length, column_type_nullable,
  column_type_precision_scale, columns, wait_for_async_query_status,
}
use gosnowflake.Rows.Chain.{IsAt, next_result_set-stays}
use gosnowflake.Rows.Walk.{InChain, Started, next_result_sets, next_result_sets-visits}
use gosnowflake.Rows.Columns.{Answers, column_types-panic, column_types-Answers}

abbrev column : Column
column = record {
  name = codes "C";
  type_name = codes "text";
  column_length = 8;
  precision = 0;
  scale = 0;
  nullable = true;
}

-- A result set at the end of as many chunks as given.
abbrev result_set : ℕ → Option ℕ → ResultSet
result_set chunks next = record {
  row_type = column ∷ [];
  chunk_metas = chunks;
  current_chunk_index = pos chunks;
  next_downloader = next;
}

abbrev rows : ℕ → Rows ℕ
rows chunks = record {
  downloaders = result_set chunks (some 1) ∷ result_set 0 none ∷ [];
  chunk_downloader = some 0;
  tail_chunk_downloader = some 1;
  status = complete;
  err = none;
  err_channel = [];
}

abbrev start : ResultSet → ResultSet × Option ℕ
start d = (record d { current_chunk_index = negsuc 0 }, none)

names : columns (rows 0) ≡ gives (codes "C" ∷ []) (rows 0)
unfolding columns
names = refl

failed_query :
    wait_for_async_query_status
      (record (rows 0) { status = in_progress; err_channel = some 3 ∷ [] })
    ≡ gives (some 3) (record (rows 0) { status = query_failed; err = some 3 })
unfolding wait_for_async_query_status
failed_query = refl

IsAt-first : (chunks : ℕ) → IsAt 0 (result_set chunks (some 1)) (rows chunks)
IsAt-first chunks = record { over = refl; current = refl; there = refl }

next_result_set-stays_example :
    (rows_has_next_result_set (rows 3) ≡ gives true (rows 3))
    × (next_result_set start (rows 3) ≡ gives eof (rows 3))
next_result_set-stays_example =
    next_result_set-stays start (rows 3) 0 1 (result_set 3 (some 1)) (IsAt-first 3) (omega arith)
      refl refl

-- A result set without chunks is followed by the next one.
moves_on_without_chunks :
    next_result_set start (rows 0)
    ≡ gives ready (record (rows 0) {
      chunk_downloader = some 1;
      downloaders =
          result_set 0 (some 1)
          ∷ record (result_set 0 none) { current_chunk_index = negsuc 0 }
          ∷ [];
    })
unfolding next_result_set
moves_on_without_chunks = refl

starts : (d : ResultSet) → d.chunk_metas ≡ 0 → (x : ResultSet) × (start d ≡ (x, none)) × Started d x
starts d h = (
  record d { current_chunk_index = negsuc 0 },
  refl,
  record { at_first = refl; same_chunks = refl; same_next = refl },
)

next_result_sets-visits_example :
    (rows' : Rows ℕ) × (next_result_sets start 1 (rows 0) ≡ gives (ready ∷ []) rows')
    × InChain 1 2 rows'
    × (next_result_set start rows' ≡ gives eof rows')
next_result_sets-visits_example = next_result_sets-visits start starts 1 0 (rows 0) (record {
  over = refl;
  current = refl;
  all = refl;
  linked = (refl, refl);
  no_chunks = (refl, (refl, tt));
})

column_types-panic_example :
    (column_type_length (pos 1) (rows 0) ≡ panics)
    × (column_type_nullable (pos 1) (rows 0) ≡ panics)
    × (column_type_precision_scale (pos 1) (rows 0) ≡ panics)
column_types-panic_example = column_types-panic 0 (result_set 0 (some 1)) (rows 0) (IsAt-first 0)

column_types-Answers_example :
    Answers (column_type_length (pos 0) (rows 0))
    × Answers (column_type_nullable (pos 0) (rows 0))
    × Answers (column_type_precision_scale (pos 0) (rows 0))
column_types-Answers_example =
    column_types-Answers 0 (result_set 0 (some 1)) (rows 0) (IsAt-first 0) (pos 0)
      (λ e. absurd (omega (arith, ap pos_part e)))
