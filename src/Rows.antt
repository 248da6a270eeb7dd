-- ===== src/Rows.antt =====
-- rows.go: `snowflakeRows` with its chain of chunk downloaders, and `hasNextResultSet` and
-- `nextResultSet` of chunk_downloader.go.
-- The downloaders lie in a heap, in which a pointer is an index. `start` of a downloader is an
-- argument; a channel is the list of what it will give. The logging is left out.
use gosnowflake.Base.{
  ltb, not, ℕ, zero, suc, Bool, true, false, ◌&&◌, ◌||◌, Option, none, some, if◌then◌else◌, List,
  [], ◌∷◌, ◌++◌, length, get_elem?, map, ◌==◌,
}
use gosnowflake.Base.Int.{ℤ, pos, negsuc, ltb_ℤ}
use gosnowflake.Base.Text.{Bytes, bytes_eq, codes}
pub mod Chain
pub mod Columns
pub mod Walk
mod Tests

-- `execResponseRowType`, less the fields that rows.go does not read.
pub record Column : Type 0 where
  pub name : Bytes
  pub type_name : Bytes
  pub column_length : ℕ
  pub precision : ℕ
  pub scale : ℕ
  pub nullable : Bool

-- What rows.go sees of a chunk downloader.
pub record ResultSet : Type 0 where
  pub row_type : List Column
  pub chunk_metas : ℕ
  pub current_chunk_index : ℤ
  pub next_downloader : Option ℕ

-- The statuses that rows.go tells apart.
pub data QueryStatus : Type 0 where
  in_progress complete query_failed other_status : QueryStatus

pub record Rows (Error : Type 0) : Type 0 where
  pub downloaders : List ResultSet
  pub chunk_downloader : Option ℕ
  pub tail_chunk_downloader : Option ℕ
  pub status : QueryStatus
  pub err : Option Error
  pub err_channel : List (Option Error)

-- What a method comes to: a result, a wait that nothing ends, or a panic.
pub data Result (Error : Type 0) (A : Type 0) : Type 0 where
  gives : A → Rows Error → Result Error A
  blocks : Result Error A
  panics : Result Error A

-- What `NextResultSet` returns.
pub data NextSet (Error : Type 0) : Type 0 where
  ready : NextSet Error
  eof : NextSet Error
  fails : Error → NextSet Error

-- The heap with another downloader at an index.
abbrev pub set_at : ℕ → ResultSet → List ResultSet → List ResultSet
set_at i d [] = []
set_at zero d (x ∷ xs) = d ∷ xs
set_at (suc i) d (x ∷ xs) = x ∷ set_at i d xs

-- A call of `setNextChunkDownloader` through a pointer.
unfoldable pub set_next : ℕ → ℕ → List ResultSet → List ResultSet
set_next i next [] = []
set_next zero next (d ∷ ds) = record d { next_downloader = some next } ∷ ds
set_next (suc i) next (d ∷ ds) = d ∷ set_next i next ds

-- Whether chunks are left.
abbrev pub has_chunks_left : ResultSet → Bool
has_chunks_left d = ltb_ℤ d.current_chunk_index (pos d.chunk_metas)

abbrev pub is_set : Option ℕ → Bool
is_set none = false
is_set (some j) = true

-- `hasNextResultSet`.
unfoldable pub has_next_result_set : ResultSet → Bool
has_next_result_set d =
    if d.chunk_metas == 0 && not (is_set d.next_downloader)
    then false
    else has_chunks_left d || is_set d.next_downloader

-- `nextResultSet`; -1 is the index before the first chunk.
unfoldable pub next_result_set_of : {Error : Type 0} → ResultSet → NextSet Error
next_result_set_of d = if has_chunks_left d then ready else eof

-- The tests of the type names.
abbrev pub is_type : Bytes → Column → Bool
is_type t c = bytes_eq c.type_name t

abbrev pub length_of : Column → ℕ × Bool
length_of c =
    if is_type (codes "text") c
      || is_type (codes "variant") c
      || is_type (codes "object") c
      || is_type (codes "array") c
      || is_type (codes "binary") c
    then (c.column_length, true)
    else (0, false)

abbrev pub precision_scale_of : Column → ℕ × ℕ × Bool
precision_scale_of c =
    if is_type (codes "fixed") c
    then (c.precision, c.scale, true)
    else if is_type (codes "time") c || is_type (codes "timestamp") c
    then (c.scale, 0, true)
    else (0, 0, false)

module _ {Error : Type 0} where
  -- `waitForAsyncQueryStatus`, at a status and at what the channel gives.
  unfoldable pub wait_at :
      QueryStatus → List (Option Error) → Rows Error → Result Error (Option Error)
  wait_at in_progress [] rows = blocks
  wait_at in_progress (none ∷ es) rows =
      gives none (record rows { status = complete; err_channel = es })
  wait_at in_progress (some e ∷ es) rows =
      gives (some e) (record rows { status = query_failed; err = some e; err_channel = es })
  wait_at complete es rows = gives none rows
  wait_at query_failed es rows = gives rows.err rows
  wait_at other_status es rows = gives none rows

  -- `waitForAsyncQueryStatus`.
  unfoldable pub wait_for_async_query_status : Rows Error → Result Error (Option Error)
  unfolding wait_at
  wait_for_async_query_status rows = wait_at rows.status rows.err_channel rows

  -- What follows the wait: a return at an error, or the rest.
  unfoldable pub after_wait :
      {A : Type 0}
      → (Error → A)
      → (Rows Error → Result Error A)
      → Result Error (Option Error)
      → Result Error A
  after_wait at_error rest (gives (some e) rows) = gives (at_error e) rows
  after_wait at_error rest (gives none rows) = rest rows
  after_wait at_error rest blocks = blocks
  after_wait at_error rest panics = panics

  -- The downloader is put behind the tail.
  unfoldable pub add_behind : ResultSet → Rows Error → Option ℕ → Option (Rows Error)
  unfolding set_next
  add_behind new rows none = none
  add_behind new rows (some t) = some (record rows {
    downloaders = set_next t (length rows.downloaders) rows.downloaders ++ new ∷ [];
    tail_chunk_downloader = some (length rows.downloaders);
  })

  -- `addDownloader` at the first downloader.
  unfoldable pub add_at : ResultSet → Rows Error → Option ℕ → Option (Rows Error)
  unfolding add_behind
  add_at new rows none = some (record rows {
    downloaders = rows.downloaders ++ new ∷ [];
    chunk_downloader = some (length rows.downloaders);
    tail_chunk_downloader = some (length rows.downloaders);
  })
  add_at new rows (some c) = add_behind new rows rows.tail_chunk_downloader

  -- `addDownloader`; a tail that is nil panics.
  unfoldable pub add_downloader : ResultSet → Rows Error → Option (Rows Error)
  unfolding add_at
  add_downloader new rows = add_at new rows rows.chunk_downloader

  -- A call of a downloader; through nil it panics.
  abbrev pub with_downloader :
      {A : Type 0} → Option ResultSet → (ResultSet → Result Error A) → Result Error A
  with_downloader none f = panics
  with_downloader (some d) f = f d

  -- A call through a pointer.
  abbrev pub with_current :
      {A : Type 0} → Rows Error → Option ℕ → (ResultSet → Result Error A) → Result Error A
  with_current rows none f = panics
  with_current rows (some i) f = with_downloader (get_elem? rows.downloaders i) f

  -- `HasNextResultSet`.
  unfoldable pub rows_has_next_result_set : Rows Error → Result Error Bool
  unfolding wait_for_async_query_status after_wait has_next_result_set
  rows_has_next_result_set rows =
      after_wait (λ e. false)
        (λ rows'.
          with_current rows' rows'.chunk_downloader (λ d. gives (has_next_result_set d) rows'))
        (wait_for_async_query_status rows)

  module _ (start : ResultSet → ResultSet × Option Error) where
    -- After the start of a downloader that is current now.
    unfoldable pub after_start :
        ℕ → Rows Error → ResultSet × Option Error → Result Error (NextSet Error)
    unfolding next_result_set_of
    after_start j rows (d, some e) =
        gives (fails e)
          (record rows { chunk_downloader = some j; downloaders = set_at j d rows.downloaders })
    after_start j rows (d, none) =
        gives (next_result_set_of d)
          (record rows { chunk_downloader = some j; downloaders = set_at j d rows.downloaders })

    -- The step to the next downloader, which is started.
    unfoldable pub move_on : Option ℕ → Rows Error → Result Error (NextSet Error)
    unfolding after_start
    move_on none rows = gives eof rows
    move_on (some j) rows = with_current rows (some j) (λ d. after_start j rows (start d))

    -- `NextResultSet` at the current downloader.
    unfoldable pub next_set_from : Rows Error → ResultSet → Result Error (NextSet Error)
    unfolding move_on
    next_set_from rows d =
        if d.chunk_metas == 0
        then move_on d.next_downloader rows
        else gives (next_result_set_of d) rows

    -- `NextResultSet`.
    unfoldable pub next_result_set : Rows Error → Result Error (NextSet Error)
    unfolding wait_for_async_query_status after_wait next_set_from
    next_result_set rows =
        after_wait fails (λ rows'. with_current rows' rows'.chunk_downloader (next_set_from rows'))
          (wait_for_async_query_status rows)

  -- What is at an index of the slice; out of the slice it panics.
  unfoldable pub column_or_panic :
      {A : Type 0} → (Column → A) → Rows Error → Option Column → Result Error A
  column_or_panic f rows none = panics
  column_or_panic f rows (some c) = gives (f c) rows

  -- A column, behind the guard `index < 0 || index > len(rowType)`.
  unfoldable pub guarded_column :
      {A : Type 0} → ℤ → A → (Column → A) → Rows Error → ResultSet → Result Error A
  unfolding column_or_panic
  guarded_column (negsuc i) refused f rows d = gives refused rows
  guarded_column (pos i) refused f rows d =
      if ltb (length d.row_type) i
      then gives refused rows
      else column_or_panic f rows (get_elem? d.row_type i)

  -- A column behind the wait and the guard.
  unfoldable pub on_column : {A : Type 0} → ℤ → A → (Column → A) → Rows Error → Result Error A
  unfolding wait_for_async_query_status after_wait guarded_column
  on_column index refused f rows =
      after_wait (λ e. refused)
        (λ rows'. with_current rows' rows'.chunk_downloader (guarded_column index refused f rows'))
        (wait_for_async_query_status rows)

  -- `ColumnTypeLength`.
  unfoldable pub column_type_length : ℤ → Rows Error → Result Error (ℕ × Bool)
  unfolding on_column
  column_type_length index rows = on_column index (0, false) length_of rows

  -- `ColumnTypeNullable`.
  unfoldable pub column_type_nullable : ℤ → Rows Error → Result Error (Bool × Bool)
  unfolding on_column
  column_type_nullable index rows = on_column index (false, false) (λ c. (c.nullable, true)) rows

  -- `ColumnTypePrecisionScale`.
  unfoldable pub column_type_precision_scale : ℤ → Rows Error → Result Error (ℕ × ℕ × Bool)
  unfolding on_column
  column_type_precision_scale index rows = on_column index (0, 0, false) precision_scale_of rows

  -- `Columns`.
  unfoldable pub columns : Rows Error → Result Error (List Bytes)
  unfolding wait_for_async_query_status after_wait
  columns rows =
      after_wait (λ e. [])
        (λ rows'.
          with_current rows' rows'.chunk_downloader
            (λ d. gives (map (λ (c : Column). c.name) d.row_type) rows'))
        (wait_for_async_query_status rows)
