-- ===== src/BindUploader.antt =====
-- bind_uploader.go and `escapeForCSV` of util.go: array binds written as CSV rows, gathered into
-- files of about 10 MB and put on a stage.
-- A column is given as `snowflakeArrayToString` of converter.go returns it, a cell of a row is a
-- string or a nil pointer (`none`). `snowflakeConn.exec` is the argument `exec`, which answers a
-- command; every command that is sent is logged in order.
pub mod Csv
pub mod Rows
pub mod Files
pub mod Upload
mod Tests
use gosnowflake.Base.{
  ℕ, suc, ◌||◌, List, [], ◌∷◌, ◌++◌, Option, none, some, length, ◌==◌, if◌then◌else◌, map, Bool,
  ◌*◌, true, ◌+◌, ltb, false, zero,
}
use gosnowflake.Base.Text.{Bytes, contains_byte}

abbrev pub quote : ℕ
quote = b'"'

abbrev pub comma : ℕ
comma = b','

abbrev pub newline : ℕ
newline = 10

abbrev pub backslash : ℕ
backslash = b'\\'

-- `strings.ReplaceAll(value, "\"", "\"\"")`.
pub double_quotes : Bytes → Bytes
double_quotes [] = []
double_quotes (c ∷ s) = if c == quote then quote ∷ quote ∷ double_quotes s else c ∷ double_quotes s

-- `escapeForCSV`.
pub escape_for_csv : Bytes → Bytes
unfolding contains_byte double_quotes
escape_for_csv [] = quote ∷ quote ∷ []
escape_for_csv (c ∷ s) =
    if contains_byte (c ∷ s) quote
      || contains_byte (c ∷ s) newline
      || contains_byte (c ∷ s) comma
      || contains_byte (c ∷ s) backslash
    then quote ∷ (double_quotes (c ∷ s) ++ quote ∷ [])
    else c ∷ s

-- A cell of a row: a nil pointer writes nothing.
abbrev pub cell_text : Option Bytes → Bytes
cell_text none = []
cell_text (some value) = escape_for_csv value

-- The rounds of the loop of `createCSVRecord` from the second on: a comma goes first.
pub later_cells : List (Option Bytes) → Bytes
later_cells [] = newline ∷ []
later_cells (cell ∷ cells) = comma ∷ (cell_text cell ++ later_cells cells)

-- `createCSVRecord`.
pub create_csv_record : List (Option Bytes) → Bytes
unfolding later_cells
create_csv_record [] = newline ∷ []
create_csv_record (cell ∷ cells) = cell_text cell ++ later_cells cells

-- The errors of this file: no value in the first column, columns of unequal lengths (the column
-- index, its length, the number of rows), a column that cannot be written as strings, no stage
-- name, and an error or a refusal of the server.
pub data BindError : Type 0 where
  no_binds : BindError
  column_mismatch : ℕ → ℕ → ℕ → BindError
  array_to_string_failed : BindError
  stage_name_null : BindError
  exec_failed : BindError
  exec_refused : ℕ → BindError
  code_not_number : BindError

-- `panics` is a run-time panic, here an index out of range.
pub data Outcome {ℓ} (A : Type ℓ) : Type ℓ where
  ok : A → Outcome A
  err : BindError → Outcome A
  panics : Outcome A

infixl 5 ◌>>=◌
abbrev pub ◌>>=◌ {ℓ κ} : {A : Type ℓ} {B : Type κ} → Outcome A → (A → Outcome B) → Outcome B
ok a >>= f = f a
err e >>= f = err e
panics >>= f = panics

-- A bound value, as `Value == nil` and `snowflakeArrayToString` see it.
pub data Column : Type 0 where
  nil_value : Column
  unreadable : Column
  cells : List (Option Bytes) → Column

-- `snowflakeArrayToString`: at a nil value `reflect.Value.Interface` panics.
abbrev pub array_to_string : Column → Outcome (List (Option Bytes))
array_to_string nil_value = panics
array_to_string unreadable = err array_to_string_failed
array_to_string (cells cs) = ok cs

abbrev pub Row : Type 0
Row = List (Option Bytes)

-- The cells of the first column, one to a row.
pub first_cells : List (Option Bytes) → List Row
first_cells [] = []
first_cells (c ∷ cs) = (c ∷ []) ∷ first_cells cs

-- The inner loop of the filling: one more cell to each row. The lengths are equal there.
pub add_cells : List Row → List (Option Bytes) → List Row
add_cells [] cs = []
add_cells (r ∷ rs) [] = r ∷ rs
add_cells (r ∷ rs) (c ∷ cs) = (r ++ c ∷ []) ∷ add_cells rs cs

-- The loop over the columns from `colIdx` on.
pub fill_columns : ℕ → ℕ → List Column → List Row → Outcome (List Row)
fill_columns num_rows col_idx [] rows = ok rows
fill_columns num_rows col_idx (column ∷ columns) rows = elim (array_to_string column) [
  | ok cs ↦
      let rest = fill_columns num_rows (suc col_idx) columns (add_cells rows cs) in
      if length cs == num_rows then rest else err (column_mismatch col_idx (length cs) num_rows)
  | err e ↦ err e
  | panics ↦ panics
]

-- The rows of `buildRowsAsBytes` before they are written as CSV.
pub build_rows : List Column → Outcome (List Row)
unfolding fill_columns first_cells
build_rows [] = panics
build_rows (nil_value ∷ columns) = err no_binds
build_rows (unreadable ∷ columns) = err array_to_string_failed
build_rows (cells cs ∷ columns) = fill_columns (length cs) 1 columns (first_cells cs)

-- `buildRowsAsBytes`.
pub build_rows_as_bytes : List Column → Outcome (List Bytes)
unfolding build_rows create_csv_record
build_rows_as_bytes columns = build_rows columns >>= λ rows. ok (map create_csv_record rows)

-- The commands that are sent to the server: the statement that creates the temporary stage, and
-- the PUT of a file, with its number and its contents.
pub data Command : Type 0 where
  create_stage : Command
  put : ℕ → Bytes → Command

-- What `exec` returns: an error, or a response with its `Success` and its `Code`, which
-- `strconv.Atoi` reads or does not.
pub data Answer : Type 0 where
  failed : Answer
  answered : Bool → Option ℕ → Answer

-- `bindUploader`, with the session parameter that it writes and the log of the commands.
pub record Uploader : Type 0 where
  pub stage_path : Bytes
  pub file_count : ℕ
  pub has_stage : Bool
  pub threshold_zeroed : Bool
  pub sent : List Command

-- `inputStreamBufferSize`.
abbrev pub input_stream_buffer_size : ℕ
input_stream_buffer_size = 1024 * 1024 * 10

module _ (exec : Command → Answer) where
  pub log : Command → Uploader → Uploader
  log c u = record u { sent = u.sent ++ c ∷ [] }

  -- What `createStageIfNeeded` makes of the answer.
  pub stage_answer : Answer → Uploader → Outcome (Unit {0}) × Uploader
  stage_answer failed u = (err exec_failed, record u { threshold_zeroed = true })
  stage_answer (answered true code) u = (ok tt, record u { has_stage = true })
  stage_answer (answered false none) u = (err code_not_number, u)
  stage_answer (answered false (some code)) u = (err (exec_refused code), u)

  -- `createStageIfNeeded`.
  pub create_stage_if_needed : Uploader → Outcome (Unit {0}) × Uploader
  unfolding log stage_answer
  create_stage_if_needed u =
      if u.has_stage then (ok tt, u) else stage_answer (exec create_stage) (log create_stage u)

  -- The PUT of `uploadStreamInternal`; its response is not looked at.
  pub put_file : ℕ → Bytes → Uploader → Outcome (Option Answer) × Uploader
  unfolding log
  put_file n content u = elim (exec (put n content)) [
    | failed ↦ (err exec_failed, log (put n content) u)
    | answered b code ↦ (ok (some (answered b code)), log (put n content) u)
  ]

  -- The steps of `uploadStreamInternal` after the creation of the stage.
  pub after_stage : ℕ → Bytes → Outcome (Unit {0}) → Uploader → Outcome (Option Answer) × Uploader
  unfolding put_file
  after_stage n content (ok _) u = elim u.stage_path [
    | [] ↦ (err stage_name_null, u)
    | _ ∷ _ ↦ put_file n content u
  ]
  after_stage n content (err e) u = (err e, u)
  after_stage n content panics u = (panics, u)

  -- `uploadStreamInternal`.
  pub upload_stream_internal : Bytes → ℕ → Uploader → Outcome (Option Answer) × Uploader
  unfolding create_stage_if_needed after_stage
  upload_stream_internal content n u =
      after_stage n content (create_stage_if_needed u).0 (create_stage_if_needed u).1

-- The inner loop of `upload`: rows are taken while the file is below the limit. The rows taken,
-- and those left.
pub fill_file : ℕ → ℕ → List Bytes → List Bytes × List Bytes
fill_file limit num_bytes [] = ([], [])
fill_file limit num_bytes (r ∷ rs) =
    let rest = fill_file limit (num_bytes + length r) rs in
    if ltb num_bytes limit then (r ∷ rest.0, rest.1) else ([], r ∷ rs)

-- `b.Write` of the rows of a file, one after the other.
abbrev pub concat_rows : List Bytes → Bytes
concat_rows [] = []
concat_rows (r ∷ rs) = r ++ concat_rows rs

-- The end of a round of the outer loop: the next round, or the error that is returned.
pub after_file :
    (Option Answer → Uploader → Option (Outcome (Option Answer) × Uploader))
    → Outcome (Option Answer) × Uploader
    → Option (Outcome (Option Answer) × Uploader)
after_file next (ok response, u) = next response u
after_file next (err e, u) = some (err e, u)
after_file next (panics, u) = some (panics, u)

-- The outer loop of `upload`, over the rows that are left; `none` means that the fuel ran out.
pub upload_loop :
    (Command → Answer)
    → ℕ
    → ℕ
    → List Bytes
    → Option Answer
    → Uploader
    → Option (Outcome (Option Answer) × Uploader)
unfolding fill_file after_file
upload_loop exec limit fuel [] response u = some (ok response, u)
upload_loop exec limit zero (r ∷ rs) response u = none
upload_loop exec limit (suc fuel) (r ∷ rs) response u =
    after_file (upload_loop exec limit fuel (fill_file limit 0 (r ∷ rs)).1) (
      upload_stream_internal exec (concat_rows (fill_file limit 0 (r ∷ rs)).0) (suc u.file_count)
        (record u { file_count = suc u.file_count }))

-- `upload`, from the rows of `buildRowsAsBytes` on. Every file takes a row, so there are at most
-- as many rounds as rows.
pub upload_rows :
    (Command → Answer) → ℕ → List Bytes → Uploader → Option (Outcome (Option Answer) × Uploader)
unfolding upload_loop
upload_rows exec limit rows u =
    upload_loop exec limit (length rows) rows none (record u { file_count = 0 })

-- `upload`.
pub upload :
    (Command → Answer) → List Column → Uploader → Option (Outcome (Option Answer) × Uploader)
unfolding build_rows_as_bytes upload_rows
upload exec columns u = elim (build_rows_as_bytes columns) [
  | ok rows ↦ upload_rows exec input_stream_buffer_size rows u
  | err e ↦ some (err e, u)
  | panics ↦ some (panics, u)
]
