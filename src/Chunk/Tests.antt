-- ===== src/Chunk/Tests.antt =====
-- chunk.go: runs of the decoder.
use gosnowflake.Chunk.Cursor.{Reads, next_byte-Reads}
use gosnowflake.Chunk.RoundTrip.{
  print_rows, print_row, print_sequence, print_tail, print_cell, new_decoder-Holds,
  decode_large_chunk-print_rows, print_rows, print_row, print_sequence, print_tail, print_cell,
}
use gosnowflake.Base.Text.{Bytes, codes}
use gosnowflake.Base.{◌≡◌, refl, List, none, ◌++◌, ◌∷◌, [], some, arith}
use gosnowflake.Chunk.Utf8.{encode_rune}
use gosnowflake.Chunk.Buffer.{Read, gives, next_byte}
use gosnowflake.Chunk.Decode.{decode_large_chunk, rows, panicked, Row, new_decoder}

-- The whole text in one `Read`.
abbrev whole : Bytes → List Read
whole s = gives s ∷ []

-- One byte in each `Read`.
abbrev bytewise : Bytes → List Read
bytewise [] = []
bytewise (c ∷ s) = gives (c ∷ []) ∷ bytewise s

two_cells :
    decode_large_chunk 100 (whole (codes "[[null , \"a\\n\"],[]]"))
    ≡ rows ((none ∷ some (b'a' ∷ 10 ∷ []) ∷ []) ∷ [] ∷ [])
unfolding decode_large_chunk gosnowflake.Chunk.Buffer.next_byte gosnowflake.Base.Int.◌-ℤ◌
    gosnowflake.Base.Int.◌+ℤ◌ gosnowflake.Chunk.Buffer.rewind
two_cells = refl

-- A chunk that ends behind its first bracket makes the decoder index its buffer at -1.
open_bracket : decode_large_chunk 100 (whole (codes "[")) ≡ panicked
unfolding decode_large_chunk gosnowflake.Chunk.Buffer.next_byte gosnowflake.Base.Int.◌-ℤ◌
    gosnowflake.Chunk.Buffer.rewind gosnowflake.Base.Int.◌+ℤ◌
open_bracket = refl

-- A rune of three bytes.
whole_rune :
    decode_large_chunk 100 (whole (codes "[[\"" ++ 0xe2 ∷ 0x82 ∷ 0xac ∷ codes "\"]]"))
    ≡ rows ((some (0xe2 ∷ 0x82 ∷ 0xac ∷ []) ∷ []) ∷ [])
unfolding decode_large_chunk gosnowflake.Chunk.Buffer.next_byte gosnowflake.Base.Int.◌-ℤ◌
    gosnowflake.Base.Int.◌+ℤ◌ gosnowflake.Chunk.Buffer.rewind gosnowflake.Chunk.Buffer.ensure_bytes
    gosnowflake.Chunk.Utf8.decode_rune gosnowflake.Chunk.Utf8.encode_rune
whole_rune = refl

-- The same text read byte by byte: `ensureBytes` reads once, so the rune is cut into bytes that
-- are no runes.
split_rune :
    decode_large_chunk 100 (bytewise (codes "[[\"" ++ 0xe2 ∷ 0x82 ∷ 0xac ∷ codes "\"]]"))
    ≡ rows ((some (encode_rune 0xfffd ++ (encode_rune 0xfffd ++ encode_rune 0xfffd)) ∷ []) ∷ [])
unfolding decode_large_chunk gosnowflake.Chunk.Buffer.next_byte gosnowflake.Base.Int.◌-ℤ◌
    gosnowflake.Chunk.Buffer.rewind gosnowflake.Base.Int.◌+ℤ◌ gosnowflake.Chunk.Buffer.ensure_bytes
    gosnowflake.Chunk.Utf8.decode_rune encode_rune
split_rune = refl

-- A byte read from a reader of two bytes.
next_byte-Reads_example :
    Reads
      (new_decoder (bytewise (codes "ab")))
      b'a'
      (b'b' ∷ [])
      (next_byte (new_decoder (bytewise (codes "ab"))))
next_byte-Reads_example =
    next_byte-Reads (new_decoder (bytewise (codes "ab"))) b'a' (b'b' ∷ [])
      (new_decoder-Holds (bytewise (codes "ab")) (b'a' ∷ b'b' ∷ []) tt refl)

-- Two rows, read byte by byte.
abbrev two_rows : List Row
two_rows = (none ∷ some (b'"' ∷ b'x' ∷ []) ∷ []) ∷ [] ∷ []

decode_large_chunk-print_rows_example :
    decode_large_chunk 30 (bytewise (codes "[[null,\"\\\"x\"],[]]")) ≡ rows two_rows
unfolding print_rows print_row print_sequence print_tail print_cell
    gosnowflake.Chunk.Text.print_chars gosnowflake.Chunk.Text.print_char
decode_large_chunk-print_rows_example =
    decode_large_chunk-print_rows two_rows (bytewise (codes "[[null,\"\\\"x\"],[]]")) [] 30
      ((tt, ((omega arith, (omega arith, tt)), tt)), (tt, tt)) _ refl (omega arith)
