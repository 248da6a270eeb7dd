-- ===== src/Chunk/Cursor.antt =====
-- chunk.go: `nextByte` reads the text that is left, however the reader cuts it.
use gosnowflake.Base.{
  ℕ, ◌≡◌, refl, List, ◌+◌, ◌<◌, get_elem?, ◌∷◌, suc, ◌++◌, ◌≤◌, arith, length, some, [], none, drop,
  take, zero, ap, Bool-cases, ◌∙◌, ltb, inl, ◌==◌, false, length-take, inr, append_assoc,
  length-append, take-append-drop, length-drop, sym,
}
use gosnowflake.Base.Text.{Bytes}
use gosnowflake.Base.Int.{ℤ, pos, ◌+ℤ◌, ◌-ℤ◌}
use gosnowflake.Chunk.Buffer.{
  Read, gives, breaks, Decoder, ok, Run, next_byte, rewind, take_byte, fill_buffer, after_fill,
  refill_byte,
}

-- What the reader has still to give.
abbrev pub pending : List Read → Bytes
pending [] = []
pending (gives bs ∷ rs) = bs ++ pending rs
pending (breaks ∷ rs) = []

-- No read fails, and none but at the end returns no byte.
abbrev pub Flows : List Read → Type 0
Flows [] = Unit {0}
Flows (gives [] ∷ rs) = ⊥
Flows (gives (b ∷ bs) ∷ rs) = Flows rs
Flows (breaks ∷ rs) = ⊥

-- The decoder's cursor stands at `at` in its buffer, with `left` bytes behind it, and the text that
-- is left is `s`.
pub record Holds (d : Decoder) (s : Bytes) : Type 0 where
  pub at : ℕ
  pub left : ℕ
  pub ptr_at : d.ptr ≡ pos at
  pub rem_left : d.rem ≡ pos left
  pub fits : at + left ≤ length d.rbuf
  pub room : 0 < length d.rbuf
  pub no_error : d.io_error ≡ none
  pub flows : Flows d.reader
  pub text : take left (drop at d.rbuf) ++ pending d.reader ≡ s

pub pos_add : (a b : ℕ) → pos a +ℤ pos b ≡ pos (a + b)
unfolding ◌+ℤ◌
pos_add a b = ground arith

pub pos_sub_one : (a : ℕ) → pos (suc a) -ℤ pos 1 ≡ pos a
unfolding ◌-ℤ◌
pos_sub_one a = ground arith

there_and_back : (a : ℕ) → pos a +ℤ pos 1 -ℤ pos 1 ≡ pos a
unfolding ◌+ℤ◌ ◌-ℤ◌
there_and_back a = ground arith

back_and_there : (a : ℕ) → pos (suc a) -ℤ pos 1 +ℤ pos 1 ≡ pos (suc a)
unfolding ◌+ℤ◌ ◌-ℤ◌
back_and_there a = ground arith

drop_step :
    (xs : Bytes) (i : ℕ)
    → i < length xs
    → (x : ℕ) × (get_elem? xs i ≡ some x) × (drop i xs ≡ x ∷ drop (suc i) xs)
drop_step [] i h = absurd (omega arith)
drop_step (x ∷ xs) zero h = (x, refl, refl)
drop_step (x ∷ xs) (suc i) h = drop_step xs i (omega arith)

take_byte-pos :
    (d : Decoder) (p : ℕ) {b : ℕ}
    → get_elem? d.rbuf p ≡ some b
    → take_byte (pos p) d ≡ ok b (record d { ptr = pos p +ℤ pos 1; rem = d.rem -ℤ pos 1 })
unfolding take_byte
take_byte-pos d p e = ground arith

cons_head : {c x : ℕ} {s t : Bytes} → c ∷ s ≡ x ∷ t → (c ≡ x) × (s ≡ t)
cons_head e = ground arith

-- The outcome of a read of the byte `c` in front of the text `s`.
abbrev pub Reads : Decoder → ℕ → Bytes → Run ℕ → Type 0
Reads d c s res =
    (d' : Decoder) × (res ≡ ok c d')
    × Holds d' s
    × (d'' : Decoder) × (rewind (pos 1) d' ≡ ok tt d'')
    × Holds d'' (c ∷ s)
    × (d'.sbuf ≡ d.sbuf)

take_byte-Reads :
    (d : Decoder) (p l c : ℕ) (s : Bytes)
    → d.rem ≡ pos (suc l)
    → p + suc l ≤ length d.rbuf
    → d.io_error ≡ none
    → Flows d.reader
    → take (suc l) (drop p d.rbuf) ++ pending d.reader ≡ c ∷ s
    → Reads d c s (take_byte (pos p) d)
unfolding rewind
take_byte-Reads d p l c s er fits no_error flows text =
    let (x, e, split) = drop_step d.rbuf p (omega arith) in
    let (hd, tl) = cons_head (rw split at text) in
    (
      record d { ptr = pos p +ℤ pos 1; rem = d.rem -ℤ pos 1 },
      rw (← hd) (take_byte-pos d p e),
      record {
        at = suc p;
        left = l;
        ptr_at = ground (arith, pos_add p 1);
        rem_left = ground (arith, pos_sub_one l);
        fits = omega arith;
        room = omega arith;
        no_error = no_error;
        flows = flows;
        text = tl;
      },
      record d { ptr = pos p +ℤ pos 1 -ℤ pos 1; rem = d.rem -ℤ pos 1 +ℤ pos 1 },
      refl,
      record {
        at = p;
        left = suc l;
        ptr_at = there_and_back p;
        rem_left = ap (λ (z : ℤ). z -ℤ pos 1 +ℤ pos 1) er ∙ back_and_there l;
        fits = omega arith;
        room = omega arith;
        no_error = no_error;
        flows = flows;
        text = text;
      },
      refl,
    )

take-append_length : (xs ys : Bytes) → take (length xs) (xs ++ ys) ≡ xs
take-append_length [] ys = refl
take-append_length (x ∷ xs) ys = ap (◌∷◌ x) (take-append_length xs ys)

-- What a fill gives of a text that is not over.
abbrev Fills : ℕ → Decoder → ℕ → Bytes → Bytes × Decoder → Type 0
Fills cap d c s res =
    (b : ℕ) × (bs : Bytes) × (rs : List Read) × (res ≡ (b ∷ bs, record d { reader = rs }))
    × Flows rs
    × (length (b ∷ bs) ≤ cap)
    × ((b ∷ bs) ++ pending rs ≡ c ∷ s)

fill_buffer-Fills :
    (cap : ℕ) (rs : List Read) (d : Decoder) (c : ℕ) (s : Bytes)
    → 0 < cap
    → Flows rs
    → pending rs ≡ c ∷ s
    → Fills cap d c s (fill_buffer cap rs d)
unfolding fill_buffer
fill_buffer-Fills cap [] d c s h f e = cc
fill_buffer-Fills cap (breaks ∷ rs) d c s h f e = absurd f
fill_buffer-Fills cap (gives [] ∷ rs) d c s h f e = absurd f
fill_buffer-Fills zero (gives (b ∷ bs) ∷ rs) d c s h f e = absurd (omega arith)
fill_buffer-Fills (suc cap) (gives (b ∷ bs) ∷ rs) d c s h f e =
    elim (Bool-cases (ltb (suc cap) (length (b ∷ bs)))) [
      | inl long ↦
          let positive : (suc cap == 0) ≡ false = ground arith in
          rw positive (
            rw long (
              b,
              take cap bs,
              gives (drop cap bs) ∷ rs,
              refl,
              let (x, _, split) = drop_step bs cap (ground arith) in rw split f,
              ground (arith, length-take cap bs),
              rw (← append_assoc (take cap bs) (drop cap bs) (pending rs))
                  (rw (take-append-drop cap bs) e),
            ))
      | inr short ↦
          let positive : (suc cap == 0) ≡ false = ground arith in
          rw positive (rw short (b, bs, rs, refl, f, ground arith, e))
    ]

after_fill-Reads :
    (d : Decoder) (b : ℕ) (bs : Bytes) (rs : List Read) (c : ℕ) (s : Bytes)
    → length (b ∷ bs) ≤ length d.rbuf
    → d.io_error ≡ none
    → Flows rs
    → (b ∷ bs) ++ pending rs ≡ c ∷ s
    → Reads d c s (after_fill (b ∷ bs) (record d { reader = rs }))
unfolding after_fill
after_fill-Reads d b bs rs c s short no_error flows text =
    take_byte-Reads
      (record d {
        reader = rs;
        ptr = pos 0;
        rem = pos (length (b ∷ bs));
        rbuf = (b ∷ bs) ++ drop (length (b ∷ bs)) d.rbuf;
      })
      0 (length bs) c s refl
      (omega (
        arith,
        length-append {0} (b ∷ bs) (drop (length (b ∷ bs)) d.rbuf),
        length-drop {0} (length (b ∷ bs)) d.rbuf,
      ))
      no_error flows
      (ap (λ (t : Bytes). t ++ pending rs)
          (take-append_length (b ∷ bs) (drop (length (b ∷ bs)) d.rbuf))
        ∙ text)

refill_byte-Reads :
    (d : Decoder) (c : ℕ) (s : Bytes)
    → 0 < length d.rbuf
    → d.io_error ≡ none
    → Flows d.reader
    → pending d.reader ≡ c ∷ s
    → Reads d c s (refill_byte none d)
unfolding refill_byte
refill_byte-Reads d c s room no_error flows e =
    let (b, bs, rs, runs, flows', short, text) =
      fill_buffer-Fills (length d.rbuf) d.reader d c s room flows e in
    rw runs (after_fill-Reads d b bs rs c s short no_error flows' text)

next_byte_empty :
    (d : Decoder) → d.rem ≡ pos 0 → d.io_error ≡ none → next_byte d ≡ refill_byte none d
unfolding next_byte
next_byte_empty d r e = ground arith

next_byte_buffered :
    (d : Decoder) (p l : ℕ)
    → d.ptr ≡ pos p
    → d.rem ≡ pos (suc l)
    → next_byte d ≡ take_byte (pos p) d
unfolding next_byte
next_byte_buffered d p l e r = ground arith

next_byte_at :
    (d : Decoder) (c : ℕ) (s : Bytes) (h : Holds d (c ∷ s)) (l : ℕ)
    → h.left ≡ l
    → Reads d c s (next_byte d)
next_byte_at d c s h zero e = rw (next_byte_empty d (h.rem_left ∙ ap pos e) h.no_error) (
    refill_byte-Reads d c s h.room h.no_error h.flows
      (ap (λ (n : ℕ). take n (drop h.at d.rbuf) ++ pending d.reader) (sym e) ∙ h.text))
next_byte_at d c s h (suc l) e = rw (next_byte_buffered d h.at l h.ptr_at (h.rem_left ∙ ap pos e)) (
    take_byte-Reads d h.at l c s (h.rem_left ∙ ap pos e) (omega (arith, h.fits, e)) h.no_error
      h.flows (ap (λ (n : ℕ). take n (drop h.at d.rbuf) ++ pending d.reader) (sym e) ∙ h.text))

-- `nextByte` reads the first byte of the text that is left, and moves on; a `rewind` by one then
-- puts it back. This holds if no read but the last gives nothing or fails, however the reader cuts
-- the text, and whatever the size of the buffer.
pub next_byte-Reads :
    (d : Decoder) (c : ℕ) (s : Bytes) → Holds d (c ∷ s) → Reads d c s (next_byte d)
next_byte-Reads d c s h = next_byte_at d c s h h.left refl
