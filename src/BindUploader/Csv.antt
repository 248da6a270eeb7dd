-- ===== src/BindUploader/Csv.antt =====
-- bind_uploader.go and util.go: the CSV rows can be read back.
use gosnowflake.Base.{
  Option, ℕ, ◌∷◌, some, none, if◌then◌else◌, ◌==◌, [], ◌||◌, ◌≡◌, suc, length, ◌⊎◌, zero,
}
use gosnowflake.Base.Text.{Bytes}
use gosnowflake.BindUploader.{quote, comma, newline, backslash, Row}

infixl 5 ◌>>=◌
abbrev ◌>>=◌ : {A B : Type 0} → Option A → (A → Option B) → Option B
none >>= f = none
some a >>= f = f a

-- A character in front of the text read.
abbrev prepend : ℕ → Option (Bytes × Bytes) → Option (Bytes × Bytes)
prepend c r = r >>= λ t. some (c ∷ t.0, t.1)

-- What the file format of the stage, `type=csv field_optionally_enclosed_by='"'`, is documented to
-- mean, as a reader. What follows an opening quote: text up to a quote that is not doubled.
read_quoted : Bytes → Option (Bytes × Bytes)
read_quoted [] = none
read_quoted (c ∷ []) = if c == quote then some ([], []) else none
read_quoted (c ∷ d ∷ s) =
    let escaped = read_quoted s in
    let plain = read_quoted (d ∷ s) in
    if c == quote
    then (if d == quote then prepend quote escaped else some ([], d ∷ s))
    else prepend c plain

-- Text that is not enclosed: up to a comma or a line end that no backslash stands before. A
-- backslash escapes the character behind it, as the format's `escape_unenclosed_field` is the default;
-- what an escape sequence stands for is not told apart, as no written field has one.
read_plain : Bytes → Bytes × Bytes
read_plain [] = ([], [])
read_plain (c ∷ []) = if c == comma || c == newline then ([], c ∷ []) else (c ∷ [], [])
read_plain (c ∷ d ∷ s) =
    let escaped = read_plain s in
    let plain = read_plain (d ∷ s) in
    if c == comma || c == newline
    then ([], c ∷ d ∷ s)
    else if c == backslash
    then (d ∷ escaped.0, escaped.1)
    else (c ∷ plain.0, plain.1)

-- A text of no characters that is not enclosed stands for NULL.
or_null : Bytes × Bytes → Option Bytes × Bytes
or_null ([], rest) = (none, rest)
or_null (c ∷ s, rest) = (some (c ∷ s), rest)

-- One field, and what stands behind it.
read_field : Bytes → Option (Option Bytes × Bytes)
read_field [] = some (none, [])
read_field (c ∷ s) =
    if c == quote
    then (read_quoted s >>= λ r. some (some r.0, r.1))
    else some (or_null (read_plain (c ∷ s)))

-- What follows a field: a comma and the rest of the record, or the end of the line.
after_field : (Bytes → Option (Row × Bytes)) → Option Bytes → Bytes → Option (Row × Bytes)
after_field next cell [] = none
after_field next cell (c ∷ s) =
    if c == comma
    then (next s >>= λ r. some (cell ∷ r.0, r.1))
    else if c == newline
    then some (cell ∷ [], s)
    else none

-- A record of at most so many fields.
read_fields : ℕ → Bytes → Option (Row × Bytes)
read_fields zero s = none
read_fields (suc f) s = read_field s >>= λ r. after_field (read_fields f) r.0 r.1

-- A record, and the text behind its line.
pub read_csv_record : Bytes → Option (Row × Bytes)
unfolding read_fields after_field read_field read_quoted read_plain or_null
read_csv_record s = read_fields (length s) s

abbrev IsEnd : ℕ → Type 0
IsEnd d = (d ≡ comma) ⊎ (d ≡ newline)
