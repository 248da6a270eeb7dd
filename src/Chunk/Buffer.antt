-- ===== src/Chunk/Buffer.antt =====
-- chunk.go: the reader, the read buffer and its cursor.
-- A reader is the list of what it has to give: some bytes, or an error other than `io.EOF`. A `Read`
-- takes from the first entry what fits, and returns 0 and `io.EOF` when nothing is left; an entry
-- of no bytes is a `Read` that returns 0 and no error. `ptr` and `rem` are Go's `int`s: a `rewind`
-- can make `ptr` negative, and the next access then panics.
use gosnowflake.Base.Text.{Bytes}
use gosnowflake.Base.{
  ℕ, List, get_elem?, ◌∷◌, Option, if◌then◌else◌, take, some, length, drop, [], ◌++◌, ◌-◌, none,
  ltb, ◌+◌, replicate, ◌==◌,
}
use Prim.Native.Nat.{min}
use gosnowflake.Base.Int.{ℤ, pos, negsuc, ◌-ℤ◌, eqb_ℤ, ◌+ℤ◌, ltb_ℤ}

pub data Read : Type 0 where
  gives : Bytes → Read
  breaks : Read

pub data IoError : Type 0 where
  eof : IoError
  broken : IoError

-- `largeChunkDecoder`, without the two size hints.
pub record Decoder : Type 0 where
  pub reader : List Read
  pub ptr : ℤ
  pub rem : ℤ
  pub rbuf : Bytes
  pub sbuf : Bytes
  pub io_error : Option IoError

-- Where the decoder finds the chunk corrupt.
pub data ChunkError : Type 0 where
  chunk_begin row_begin row_boundary cell_boundary cell_begin : ChunkError
  control_character escape_sequence : ChunkError

-- `panics` is an index or a slice out of range; `out_of_fuel` ends a loop of the model.
pub data Run {ℓ} (A : Type ℓ) : Type ℓ where
  ok : A → Decoder → Run A
  err : ChunkError → Decoder → Run A
  panics : Run A
  out_of_fuel : Run A

abbrev pub M : Type 0 → Type 0
M A = Decoder → Run A

infixl 5 ◌>>=◌ ◌>>◌
abbrev pub ◌>>=◌ : {A B : Type 0} → M A → (A → M B) → M B
◌>>=◌ m f d = elim (m d) [
  | ok a d' ↦ f a d'
  | err e d' ↦ err e d'
  | panics ↦ panics
  | out_of_fuel ↦ out_of_fuel
]

abbrev pub ◌>>◌ : {B : Type 0} → M (Unit {0}) → M B → M B
◌>>◌ m k = m >>= λ _. k

abbrev pub pure : {A : Type 0} → A → M A
pure a d = ok a d

abbrev pub throw : {A : Type 0} → ChunkError → M A
throw e d = err e d

-- `fillBuffer` on a slice of `cap` bytes: the bytes read, and the decoder with the reader and the
-- error that are left.
unfoldable pub fill_buffer : ℕ → List Read → Decoder → Bytes × Decoder
fill_buffer cap [] d = ([], record d { reader = []; io_error = some eof })
fill_buffer cap (breaks ∷ rs) d = ([], record d { reader = rs; io_error = some broken })
fill_buffer cap (gives [] ∷ rs) d = ([], record d { reader = rs; io_error = some eof })
fill_buffer cap (gives (b ∷ bs) ∷ rs) d =
    if cap == 0
    then ([], record d { io_error = some eof })
    else if ltb cap (length (b ∷ bs))
    then (take cap (b ∷ bs), record d { reader = gives (drop cap (b ∷ bs)) ∷ rs })
    else (b ∷ bs, record d { reader = rs })

-- The byte at the cursor, which moves on.
unfoldable pub take_byte : ℤ → M ℕ
take_byte (negsuc p) d = panics
take_byte (pos p) d = elim (get_elem? d.rbuf p) [
  | none ↦ panics
  | some b ↦ ok b (record d { ptr = pos p +ℤ pos 1; rem = d.rem -ℤ pos 1 })
]

-- The buffer after a fill from its start; 0 at the end of the input.
unfoldable pub after_fill : Bytes → M ℕ
unfolding take_byte
after_fill [] d = ok 0 (record d { ptr = pos 0; rem = pos 0 })
after_fill (b ∷ bs) d = take_byte (pos 0) (record d {
  ptr = pos 0;
  rem = pos (length (b ∷ bs));
  rbuf = (b ∷ bs) ++ drop (length (b ∷ bs)) d.rbuf;
})

-- What `nextByte` does at an empty buffer.
unfoldable pub refill_byte : Option IoError → M ℕ
unfolding after_fill fill_buffer
refill_byte (some e) d = ok 0 d
refill_byte none d =
    let filled = fill_buffer (length d.rbuf) d.reader d in after_fill filled.0 filled.1

-- `nextByte`.
unfoldable pub next_byte : M ℕ
unfolding refill_byte take_byte
next_byte d = if eqb_ℤ d.rem (pos 0) then refill_byte d.io_error d else take_byte d.ptr d

-- `rewind`.
unfoldable pub rewind : ℤ → M (Unit {0})
rewind n d = ok tt (record d { ptr = d.ptr -ℤ n; rem = d.rem +ℤ n })

-- `defaultChunkBufferSize`.
abbrev pub default_chunk_buffer_size : ℕ
default_chunk_buffer_size = 8192

-- `ensureBytes`, with `ptr` and `rem` that are not negative and in the buffer; a slice out of
-- range panics.
unfoldable pub move_window : ℕ → ℤ → ℤ → M (Unit {0})
unfolding fill_buffer
move_window size (pos p) (pos r) d =
    let window = take (min r size) (drop p d.rbuf) in
    let filled = fill_buffer (size - length window) d.reader d in
    if ltb (length d.rbuf) (p + r)
    then panics
    else ok tt (record d {
      reader = filled.1.reader;
      io_error = filled.1.io_error;
      ptr = pos 0;
      rem = pos (r + length filled.0);
      rbuf = window ++ (filled.0 ++ replicate (size - (length window + length filled.0)) 0);
    })
move_window size _ _ d = panics

-- `ensureBytes`.
unfoldable pub ensure_bytes : ℤ → M (Unit {0})
unfolding move_window
ensure_bytes n d =
    if ltb_ℤ n d.rem then ok tt d else move_window default_chunk_buffer_size d.ptr d.rem d
