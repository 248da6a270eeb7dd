-- ===== src/BindUploader/Tests.antt =====
-- bind_uploader.go: runs at concrete columns, and the theorems applied there.
use gosnowflake.Base.{
  ◌≡◌, refl, false, true, List, some, ◌∷◌, [], none, Option, length, arith, ◌++◌, ℕ, ◌⊎◌,
}
use gosnowflake.Base.Text.{Bytes, codes}
use gosnowflake.BindUploader.{
  Row, cells, ok, err, column_mismatch, Outcome, Command, create_stage, put, Answer, answered,
  Uploader, build_rows, build_rows_as_bytes, upload_rows, upload,
}
use gosnowflake.BindUploader.Rows.{entry, build_rows_transposes, build_rows_mismatch}
use gosnowflake.BindUploader.Files.{all_rows, IsFiling, plan, IsNotOk}
use gosnowflake.BindUploader.Upload.{upload_rows_sends}

abbrev fresh : Uploader
fresh = record {
  stage_path = codes "@SYSTEM$BIND/1";
  file_count = 0;
  has_stage = false;
  threshold_zeroed = false;
  sent = [];
}

abbrev accepts : Command → Answer
accepts c = answered true none

-- A NULL, an empty text and a text with a quote and a comma.
abbrev names : List (Option Bytes)
names = none ∷ some [] ∷ some (codes "a\",b") ∷ []

abbrev ids : List (Option Bytes)
ids = some (codes "1") ∷ some (codes "2") ∷ none ∷ []

csv_rows :
    build_rows_as_bytes (cells names ∷ cells ids ∷ [])
    ≡ ok (
        (codes ",1" ++ 10 ∷ [])
        ∷ (codes "\"\",2" ++ 10 ∷ [])
        ∷ (codes "\"a\"\",b\"," ++ 10 ∷ [])
        ∷ [])
unfolding build_rows_as_bytes gosnowflake.BindUploader.add_cells
    gosnowflake.BindUploader.escape_for_csv
csv_rows = refl

build_rows_transposes_example :
    (rows : List Row) × (build_rows (cells names ∷ cells ids ∷ []) ≡ ok rows)
    × (length rows ≡ 3)
    × ((r c : ℕ) → entry rows r c ≡ entry (names ∷ ids ∷ []) c r)
build_rows_transposes_example = build_rows_transposes names (ids ∷ []) (refl, tt)

build_rows_mismatch_example :
    build_rows (cells names ∷ cells ids ∷ cells (none ∷ []) ∷ cells ids ∷ [])
    ≡ err (column_mismatch 2 1 3)
build_rows_mismatch_example =
    build_rows_mismatch names (ids ∷ []) (none ∷ []) (cells ids ∷ []) (refl, tt) (omega arith)

abbrev three_rows : List Bytes
three_rows = codes "aaa" ∷ codes "bb" ∷ codes "c" ∷ []

two_files :
    upload_rows accepts 4 three_rows fresh
    ≡ some (
      ok (some (answered true none)),
      record fresh {
        file_count = 2;
        has_stage = true;
        sent = create_stage ∷ put 1 (codes "aaabb") ∷ put 2 (codes "c") ∷ [];
      },
    )
unfolding upload_rows gosnowflake.BindUploader.upload_stream_internal
two_files = refl

upload_rows_sends_example :
    (files : List (List Bytes)) × (o : Outcome (Option Answer)) × (v : Uploader) × (rest : List
      Command)
    × IsFiling 4 files
    × (all_rows files ≡ three_rows)
    × (upload_rows accepts 4 three_rows fresh ≡ some (o, v))
    × (v.sent ++ rest ≡ plan false 0 files)
    × ((rest ≡ []) ⊎ IsNotOk o)
upload_rows_sends_example = upload_rows_sends accepts 4 three_rows fresh (omega arith)
