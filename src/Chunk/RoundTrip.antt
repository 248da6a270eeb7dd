-- ===== src/Chunk/RoundTrip.antt =====
-- chunk.go: `decode` reads rows back that were written as JSON, however they are read.
use gosnowflake.Base.{
  ℕ, ◌≡◌, refl, false, ◌∷◌, length, suc, ◌<◌, ◌∙◌, ◌++◌, List, All, [], arith, zero, length-append,
  ◌+◌, ap, append_assoc, subst, ◌==◌, Option, sym, some, none,
}
use gosnowflake.Base.Text.{Bytes}
use gosnowflake.Base.Int.{pos}
use gosnowflake.Chunk.Buffer.{
  Decoder, M, ◌>>=◌, ◌>>◌, ok, Run, next_byte, rewind, ChunkError, cell_boundary, Read, row_begin,
  row_boundary, chunk_begin,
}
use gosnowflake.Chunk.Decode.{
  is_whitespace, next_byte_non_whitespace, elements, sequence, decode_null, decode_cell, Row,
  decode_string, decode_row, decode_large_chunk, new_decoder, rows, chunk_result,
}
use gosnowflake.Chunk.Cursor.{Holds, next_byte-Reads, Reads, Flows, pending}
use gosnowflake.Chunk.Text.{
  after_ok, print_chars, IsAscii, decode_string-print_chars, length-print_chars,
}

-- A result, and the text that is left.
abbrev pub Leaves : {A : Type 0} → Run A → A → Bytes → Type 0
Leaves res a t = (d : Decoder) × (res ≡ ok a d) × Holds d t

Leaves-after :
    {A B : Type 0} (m : M A) (f : A → M B) (d : Decoder) (a : A) (b : B) (s t : Bytes)
    → Leaves (m d) a s
    → ((d' : Decoder) → Holds d' s → Leaves (f a d') b t)
    → Leaves ((m >>= f) d) b t
Leaves-after m f d a b s t (d', e, h) k = rw (after_ok m f d e) (k d' h)

-- A byte that is no white space is read at once.
token :
    (f : ℕ) (d : Decoder) (c : ℕ) (s : Bytes)
    → 0 < f
    → is_whitespace c ≡ false
    → Holds d (c ∷ s)
    → Reads d c s (next_byte_non_whitespace f d)
unfolding next_byte_non_whitespace
token zero d c s z w h = absurd (omega arith)
token (suc f) d c s z w h =
    let (d', e, h', d2, r, back, b) = next_byte-Reads d c s h in
    (d', after_ok next_byte _ d e ∙ (rw w), h', d2, r, back, b)

after_token :
    {A : Type 0} (f : ℕ) (d : Decoder) (c : ℕ) (s : Bytes) (g : ℕ → M A) (a : A) (t : Bytes)
    → 0 < f
    → is_whitespace c ≡ false
    → Holds d (c ∷ s)
    → ((d' : Decoder) → Holds d' s → Leaves (g c d') a t)
    → Leaves ((next_byte_non_whitespace f >>= g) d) a t
after_token f d c s g a t z w h k =
    let (d', e, h', _, _, _, _) = token f d c s z w h in
    rw (after_ok (next_byte_non_whitespace f) g d e) (k d' h')

after_plain :
    {A : Type 0} (d : Decoder) (c : ℕ) (s : Bytes) (g : ℕ → M A) (a : A) (t : Bytes)
    → Holds d (c ∷ s)
    → ((d' : Decoder) → Holds d' s → Leaves (g c d') a t)
    → Leaves ((next_byte >>= g) d) a t
after_plain d c s g a t h k =
    let (d', e, h', _, _, _, _) = next_byte-Reads d c s h in rw (after_ok next_byte g d e) (k d' h')

-- A byte that is looked at and put back.
after_peek :
    {A : Type 0} (f : ℕ) (d : Decoder) (c : ℕ) (s : Bytes) (g : ℕ → M A) (m : M A) (a : A)
    (t : Bytes)
    → 0 < f
    → is_whitespace c ≡ false
    → ((d' : Decoder) → g c d' ≡ (rewind (pos 1) >> m) d')
    → Holds d (c ∷ s)
    → ((d' : Decoder) → Holds d' (c ∷ s) → Leaves (m d') a t)
    → Leaves ((next_byte_non_whitespace f >>= g) d) a t
after_peek f d c s g m a t z w e h k =
    let (d', r, h', d2, puts, back, _) = token f d c s z w h in
    rw (after_ok (next_byte_non_whitespace f) g d r)
      (rw (e d') (rw (after_ok (rewind (pos 1)) (λ _. m) d' puts) (k d2 back)))

-- What follows an element.
unfoldable pub print_tail : {A : Type 0} → (A → Bytes) → List A → Bytes
print_tail print [] = b']' ∷ []
print_tail print (x ∷ xs) = b',' ∷ (print x ++ print_tail print xs)

-- A `[`, the elements with commas between them, and a `]`.
unfoldable pub print_sequence : {A : Type 0} → (A → Bytes) → List A → Bytes
unfolding print_tail
print_sequence print [] = b'[' ∷ b']' ∷ []
print_sequence print (x ∷ xs) = b'[' ∷ (print x ++ print_tail print xs)

module _ {A : Type 0} (element : ℕ → M A) (print : A → Bytes) (boundary : ChunkError)
    (IsFine : A → Type 0)
    (reads : (f : ℕ) (x : A) (d : Decoder) (t : Bytes)
      → IsFine x
      → length (print x) < f
      → Holds d (print x ++ t)
      → Leaves (element f d) x t) where
  elements-print_tail :
      (xs : List A) (x : A) (f : ℕ) (done : List A) (d : Decoder) (t : Bytes)
      → All IsFine (x ∷ xs)
      → length (print x ++ print_tail print xs) < f
      → Holds d (print x ++ (print_tail print xs ++ t))
      → Leaves (elements boundary element f done d) (done ++ x ∷ xs) t
  unfolding elements print_tail
  elements-print_tail xs x zero done d t a l h = absurd (omega arith)
  elements-print_tail [] x (suc f) done d t (fine, _) l h =
      Leaves-after (element f) _ d x (done ++ x ∷ []) (b']' ∷ t) t
        (reads f x d (b']' ∷ t) fine (omega (arith, l, length-append {0} (print x) (b']' ∷ []))) h)
        λ d' h'.
          after_token f d' b']' t _ (done ++ x ∷ []) t
            (omega (arith, l, length-append {0} (print x) (b']' ∷ []))) refl h'
            λ d2 h2. (d2, refl, h2)
  elements-print_tail (y ∷ ys) x (suc f) done d t (fine, others) l h =
      let size : length (print x) + (1 + length (print y ++ print_tail print ys)) < suc f =
        omega (arith, l, length-append {0} (print x) (print_tail print (y ∷ ys))) in
      let next = b',' ∷ (print y ++ (print_tail print ys ++ t)) in
      let regroup : print_tail print (y ∷ ys) ++ t ≡ next =
        ap (◌∷◌ b',') (append_assoc (print y) (print_tail print ys) t) in
      Leaves-after (element f) _ d x (done ++ x ∷ y ∷ ys) next t
        (reads f x d next fine (omega (arith, size))
          (subst (λ (r : Bytes). Holds d (print x ++ r)) regroup h))
        λ d' h'.
          after_token f d' b',' (print y ++ (print_tail print ys ++ t)) _ (done ++ x ∷ y ∷ ys) t
            (omega (arith, size)) refl h'
            λ d2 h2.
              subst (λ (r : List A). Leaves (elements boundary element f (done ++ x ∷ []) d2) r t)
                (append_assoc done (x ∷ []) (y ∷ ys))
                (elements-print_tail ys y f (done ++ x ∷ []) d2 t others (omega (arith, size)) h2)

  -- How an element may begin.
  abbrev Starts : A → Type 0
  Starts x =
      (c : ℕ) × (s : Bytes) × (print x ≡ c ∷ s) × (is_whitespace c ≡ false) × ((c == b']') ≡ false)

  sequence-print_sequence :
      (begin : ChunkError) (xs : List A) (f : ℕ) (d : Decoder) (t : Bytes)
      → All IsFine xs
      → ((x : A) → Starts x)
      → length (print_sequence print xs) < f
      → Holds d (print_sequence print xs ++ t)
      → Leaves (sequence begin boundary element f d) xs t
  unfolding sequence print_sequence
  sequence-print_sequence begin [] f d t a st l h =
      after_token f d b'[' (b']' ∷ t) _ [] t (omega (arith, l)) refl h
        λ d' h'. after_token f d' b']' t _ [] t (omega (arith, l)) refl h' λ d2 h2. (d2, refl, h2)
  sequence-print_sequence begin (x ∷ xs) f d t a st l h =
      let (c, s, e, w, n) = st x in
      let regroup : (print x ++ print_tail print xs) ++ t ≡ c ∷ (s ++ (print_tail print xs ++ t)) =
        append_assoc (print x) (print_tail print xs) t
        ∙ ap (λ (r : Bytes). r ++ (print_tail print xs ++ t)) e in
      after_token f d b'[' ((print x ++ print_tail print xs) ++ t) _ (x ∷ xs) t (omega (arith, l))
        refl h
        λ d' h'.
          after_peek f d' c (s ++ (print_tail print xs ++ t)) _ (elements boundary element f [])
            (x ∷ xs) t (omega (arith, l)) w (λ d2. rw n) (subst (Holds d') regroup h')
            λ d2 h2.
              elements-print_tail xs x f [] d2 t a (omega (arith, l))
                (subst (Holds d2) (ap (λ (r : Bytes). r ++ (print_tail print xs ++ t)) (sym e)) h2)

-- How a cell is written.
unfoldable pub print_cell : Option Bytes → Bytes
print_cell none = b'n' ∷ b'u' ∷ b'l' ∷ b'l' ∷ []
print_cell (some s) = b'"' ∷ print_chars s

-- The characters of the cell are ASCII.
abbrev pub IsAsciiCell : Option Bytes → Type 0
IsAsciiCell none = Unit {0}
IsAsciiCell (some s) = All IsAscii s

decode_null-reads :
    (d : Decoder) (t : Bytes) → Holds d (b'u' ∷ b'l' ∷ b'l' ∷ t) → Leaves (decode_null d) none t
unfolding decode_null
decode_null-reads d t h = after_plain d b'u' (b'l' ∷ b'l' ∷ t) _ none t h λ d1 h1.
    after_plain d1 b'l' (b'l' ∷ t) _ none t h1
      λ d2 h2. after_plain d2 b'l' t _ none t h2 λ d3 h3. (d3, refl, h3)

decode_cell-print_cell :
    (f : ℕ) (x : Option Bytes) (d : Decoder) (t : Bytes)
    → IsAsciiCell x
    → length (print_cell x) < f
    → Holds d (print_cell x ++ t)
    → Leaves (decode_cell f d) x t
unfolding decode_cell print_cell
decode_cell-print_cell f none d t a l h =
    after_token f d b'n' (b'u' ∷ b'l' ∷ b'l' ∷ t) _ none t (omega arith) refl h
      λ d' h'. decode_null-reads d' t h'
decode_cell-print_cell f (some s) d t a l h =
    after_token f d b'"' (print_chars s ++ t) _ (some s) t (omega arith) refl h λ d' h'.
      Leaves-after (decode_string f) _ d' s (some s) t t
        (decode_string-print_chars s f d' t a (omega (arith, l, length-print_chars s)) h')
        λ d2 h2. (d2, refl, h2)

print_cell-Starts :
    (x : Option Bytes)
    → (c : ℕ) × (s : Bytes) × (print_cell x ≡ c ∷ s)
      × (is_whitespace c ≡ false)
      × ((c == b']') ≡ false)
unfolding print_cell
print_cell-Starts none = (b'n', _, refl, refl, refl)
print_cell-Starts (some s) = (b'"', _, refl, refl, refl)

-- How a row and how a chunk is written.
unfoldable pub print_row : Row → Bytes
print_row = print_sequence print_cell

unfoldable pub print_rows : List Row → Bytes
print_rows = print_sequence print_row

abbrev pub IsAsciiRow : Row → Type 0
IsAsciiRow = All IsAsciiCell

decode_row-print_row :
    (f : ℕ) (x : Row) (d : Decoder) (t : Bytes)
    → IsAsciiRow x
    → length (print_row x) < f
    → Holds d (print_row x ++ t)
    → Leaves (decode_row f d) x t
unfolding decode_row print_row
decode_row-print_row f x d t a l h =
    sequence-print_sequence decode_cell print_cell cell_boundary IsAsciiCell decode_cell-print_cell
      row_begin x f d t a print_cell-Starts l h

print_row-Starts :
    (x : Row)
    → (c : ℕ) × (s : Bytes) × (print_row x ≡ c ∷ s)
      × (is_whitespace c ≡ false)
      × ((c == b']') ≡ false)
unfolding print_row print_sequence
print_row-Starts [] = (b'[', _, refl, refl, refl)
print_row-Starts (x ∷ xs) = (b'[', _, refl, refl, refl)

pub new_decoder-Holds :
    (reader : List Read) (t : Bytes)
    → Flows reader
    → pending reader ≡ t
    → Holds (new_decoder reader) t
new_decoder-Holds reader t f e = record {
  at = 0;
  left = 0;
  ptr_at = refl;
  rem_left = refl;
  fits = omega arith;
  room = omega arith;
  no_error = refl;
  flows = f;
  text = e;
}

-- Rows of NULLs and ASCII texts that are written as JSON are decoded to themselves, with fuel above
-- the length of the text, whatever follows them, and however the reader cuts the text into reads, as
-- long as each read gives at least one byte.
pub decode_large_chunk-print_rows :
    (rs : List Row) (reader : List Read) (rest : Bytes) (f : ℕ)
    → All IsAsciiRow rs
    → Flows reader
    → pending reader ≡ print_rows rs ++ rest
    → length (print_rows rs) < f
    → decode_large_chunk f reader ≡ rows rs
unfolding decode_large_chunk print_rows
decode_large_chunk-print_rows rs reader rest f a flows e l =
    let (d, runs, h) =
      sequence-print_sequence decode_row print_row row_boundary IsAsciiRow decode_row-print_row
        chunk_begin rs f (new_decoder reader) rest a print_row-Starts l
        (new_decoder-Holds reader (print_rows rs ++ rest) flows e) in
    rw runs (finish d h.no_error)
  where
    finish : (d : Decoder) → d.io_error ≡ none → chunk_result (ok rs d) ≡ rows rs
    finish d n = ground arith
