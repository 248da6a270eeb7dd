-- ===== src/Chunk/Decode.antt =====
-- chunk.go: the decoder. Every loop takes fuel; the theorems say how much is enough.
use gosnowflake.Base.Text.{Bytes}
use gosnowflake.Base.{
  ℕ, Bool, ◌++◌, [], ◌==◌, suc, Option, some, drop, if◌then◌else◌, List, ◌||◌, leb, ◌∷◌, ltb,
  replicate, none, ◌&&◌, ◌*◌, length, ◌-◌, ◌+◌, zero, true, false,
}
use gosnowflake.Base.Int.{ℤ, pos, negsuc, ◌-ℤ◌, ◌+ℤ◌}
use gosnowflake.Chunk.Utf8.{replacement_char, decode_rune, encode_rune, is_surrogate, decode_pair}
use gosnowflake.Chunk.Buffer.{
  Read, broken, Decoder, ChunkError, chunk_begin, row_begin, row_boundary, cell_boundary,
  cell_begin, control_character, escape_sequence, Run, ok, err, panics, out_of_fuel, M, ◌>>=◌, ◌>>◌,
  pure, throw, next_byte, rewind, ensure_bytes, default_chunk_buffer_size,
}

-- `sbuf.WriteByte` and `sbuf.WriteRune`, of the bytes that they write.
unfoldable pub write : Bytes → M (Unit {0})
write bs d = ok tt (record d { sbuf = d.sbuf ++ bs })

-- `sbuf.Reset`.
unfoldable pub reset : M (Unit {0})
reset d = ok tt (record d { sbuf = [] })

-- `sbuf.String`.
unfoldable pub contents : M Bytes
contents d = ok d.sbuf d

-- `ptr`.
unfoldable pub cursor : M ℤ
cursor d = ok d.ptr d

abbrev pub is_whitespace : ℕ → Bool
is_whitespace c = c == b' ' || c == 9 || c == 10 || c == 13

-- `nextByteNonWhitespace`.
unfoldable pub next_byte_non_whitespace : ℕ → M ℕ
next_byte_non_whitespace zero d = out_of_fuel
next_byte_non_whitespace (suc f) d =
    (next_byte >>= λ c. elim (is_whitespace c) [
      | true ↦ next_byte_non_whitespace f
      | false ↦ pure c
    ])
      d

-- The value of a hexadecimal digit.
unfoldable pub hex_digit : ℕ → Option ℕ
hex_digit c =
    if leb b'0' c && leb c b'9'
    then some (c - b'0')
    else if leb b'a' c && leb c b'f'
    then some (c - b'a' + 10)
    else if leb b'A' c && leb c b'F'
    then some (c - b'A' + 10)
    else none

-- The loop of `getu4` for the rounds left; -1 is `none`.
unfoldable pub hex_digits : ℕ → ℕ → M (Option ℕ)
hex_digits zero r = pure (some r)
hex_digits (suc n) r =
    next_byte >>= λ c. elim (hex_digit c) [ none ↦ pure none | some v ↦ hex_digits n (r * 16 + v) ]

-- `getu4`.
unfoldable pub getu4 : M (Option ℕ)
unfolding hex_digits
getu4 = hex_digits 4 0

-- How far the cursor has moved since it stood at `start`, with a result.
abbrev pub moved : ℤ → Option ℕ → M (Option ℕ × ℤ)
moved start r = cursor >>= λ p. pure (r, p -ℤ start)

-- `getu4WithPrefix`.
unfoldable pub getu4_with_prefix : M (Option ℕ × ℤ)
unfolding cursor
getu4_with_prefix = do
  ensure_bytes (pos 6)
  start ← cursor
  c ← next_byte
  elim (c == b'\\') [
    | false ↦ moved start none
    | true ↦ next_byte >>= λ u. elim (u == b'u') [
      | false ↦ moved start none
      | true ↦ getu4 >>= moved start
    ]
  ]

-- What is written for the second half of a pair, or the replacement character.
unfoldable pub write_pair : ℕ → Option ℕ × ℤ → M (Unit {0})
unfolding write
write_pair r (none, size) = do rewind size; write (encode_rune replacement_char)
write_pair r (some s, size) =
    if decode_pair r s == replacement_char
    then (rewind size >> write (encode_rune replacement_char))
    else write (encode_rune (decode_pair r s))

-- The case `u` of `decodeEscaped`.
unfoldable pub decode_unicode : Option ℕ → M (Unit {0})
unfolding write_pair write
decode_unicode none = throw escape_sequence
decode_unicode (some r) =
    if is_surrogate r then (getu4_with_prefix >>= write_pair r) else write (encode_rune r)

-- The byte that a one-letter escape stands for.
unfoldable pub simple_escape : ℕ → Option ℕ
simple_escape c =
    if c == b'"' || c == b'\\' || c == b'/' || c == b'\''
    then some c
    else if c == b'b'
    then some 8
    else if c == b'f'
    then some 12
    else if c == b'n'
    then some 10
    else if c == b'r'
    then some 13
    else if c == b't'
    then some 9
    else none

-- The switch of `decodeEscaped`.
unfoldable pub escape_byte : ℕ → M (Unit {0})
unfolding simple_escape decode_unicode
escape_byte c = elim (simple_escape c) [
  | some b ↦ write (b ∷ [])
  | none ↦ if c == b'u' then (getu4 >>= decode_unicode) else throw escape_sequence
]

-- `decodeEscaped`.
unfoldable pub decode_escaped : M (Unit {0})
unfolding escape_byte
decode_escaped = next_byte >>= escape_byte

-- `readRune`: the rune, and the cursor behind it.
unfoldable pub read_rune : M ℕ
read_rune = ensure_bytes (pos 4) >> read
  where
    read : M ℕ
    read d = elim d.ptr [
      | negsuc p ↦ panics
      | pos p ↦
          let rune = decode_rune (drop p d.rbuf) in
          if ltb (length d.rbuf) p
          then panics
          else ok rune.0 (record d { ptr = d.ptr +ℤ pos rune.1; rem = d.rem -ℤ pos rune.1 })
    ]

-- The bytes of `decodeString` that go on with the loop: what is done before the next round.
unfoldable pub string_byte : ℕ → M (Unit {0})
unfolding decode_escaped read_rune write
string_byte c =
    if c == b'\\'
    then decode_escaped
    else if ltb c 0x20
    then throw control_character
    else if ltb c 0x80
    then write (c ∷ [])
    else (rewind (pos 1) >> (read_rune >>= λ r. write (encode_rune r)))

-- The loop of `decodeString`.
unfoldable pub string_loop : ℕ → M (Unit {0})
unfolding string_byte
string_loop zero d = out_of_fuel
string_loop (suc f) d =
    (next_byte >>= λ c. elim (c == b'"') [
      | true ↦ pure tt
      | false ↦ string_byte c >> string_loop f
    ])
      d

-- `decodeString`.
unfoldable pub decode_string : ℕ → M Bytes
unfolding string_loop reset contents
decode_string f = reset >> (string_loop f >> contents)

-- The rest of `null`, of which the `n` is read; a byte that differs is the last one read.
unfoldable pub decode_null : M (Option Bytes)
decode_null = next_byte >>= λ u. elim (u == b'u') [
  | false ↦ throw cell_begin
  | true ↦ next_byte >>= λ l. elim (l == b'l') [
    | false ↦ throw cell_begin
    | true ↦ next_byte >>= λ m. elim (m == b'l') [ false ↦ throw cell_begin | true ↦ pure none ]
  ]
]

-- `decodeCell`.
unfoldable pub decode_cell : ℕ → M (Option Bytes)
unfolding next_byte_non_whitespace decode_string decode_null
decode_cell f = next_byte_non_whitespace f >>= λ c.
    if c == b'"'
    then (decode_string f >>= λ s. pure (some s))
    else if c == b'n'
    then decode_null
    else throw cell_begin

-- A `,`-separated sequence up to its `]`: the loops of `decodeRow` and of `decode`.
unfoldable pub elements : {A : Type 0} → ChunkError → (ℕ → M A) → ℕ → List A → M (List A)
unfolding next_byte_non_whitespace
elements boundary element zero done d = out_of_fuel
elements boundary element (suc f) done d =
    (element f >>= λ x. next_byte_non_whitespace f >>= λ c. elim (c == b',') [
      | true ↦ elements boundary element f (done ++ x ∷ [])
      | false ↦ if c == b']' then pure (done ++ x ∷ []) else throw boundary
    ])
      d

-- The bodies of `decodeRow` and of `decode`: a `[`, and either a `]` or the elements.
unfoldable pub sequence : {A : Type 0} → ChunkError → ChunkError → (ℕ → M A) → ℕ → M (List A)
unfolding elements
sequence begin boundary element f = next_byte_non_whitespace f >>= λ c. elim (c == b'[') [
  | false ↦ throw begin
  | true ↦ next_byte_non_whitespace f >>= λ e. elim (e == b']') [
    | true ↦ pure []
    | false ↦ rewind (pos 1) >> elements boundary element f []
  ]
]

abbrev pub Row : Type 0
Row = List (Option Bytes)

-- `decodeRow`.
unfoldable pub decode_row : ℕ → M Row
unfolding sequence decode_cell
decode_row f = sequence row_begin cell_boundary decode_cell f

-- `decode`.
unfoldable pub decode : ℕ → M (List Row)
unfolding sequence decode_row
decode f = sequence chunk_begin row_boundary decode_row f

-- What `decodeLargeChunk` returns.
pub data ChunkResult : Type 0 where
  rows : List Row → ChunkResult
  io_failure : ChunkResult
  corrupt : ChunkError → ChunkResult
  panicked : ChunkResult
  no_fuel : ChunkResult

-- The end of `decodeLargeChunk`: an error of the reader goes before the decoder's.
unfoldable pub chunk_result : Run (List Row) → ChunkResult
chunk_result (ok rs d) = elim d.io_error [ some broken ↦ io_failure | _ ↦ rows rs ]
chunk_result (err e d) = elim d.io_error [ some broken ↦ io_failure | _ ↦ corrupt e ]
chunk_result panics = panicked
chunk_result out_of_fuel = no_fuel

-- The decoder that `decodeLargeChunk` makes.
abbrev pub new_decoder : List Read → Decoder
new_decoder reader = record {
  reader = reader;
  ptr = pos 0;
  rem = pos 0;
  rbuf = replicate default_chunk_buffer_size 0;
  sbuf = replicate 512 0;
  io_error = none;
}

-- `decodeLargeChunk`.
unfoldable pub decode_large_chunk : ℕ → List Read → ChunkResult
unfolding decode chunk_result
decode_large_chunk f reader = chunk_result (decode f (new_decoder reader))
