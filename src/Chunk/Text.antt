-- ===== src/Chunk/Text.antt =====
-- chunk.go: `decodeString` reads a JSON string back.
use gosnowflake.Base.{
  ℕ, ◌≡◌, refl, ◌∷◌, Option, some, if◌then◌else◌, ◌<◌, ◌++◌, ◌*◌, ltb, ◌==◌, ◌+◌, arith, [], suc,
  ◌∙◌, ◌-◌, ◌||◌, ◌/◌, false, ◌%◌, true, ◌⊎◌, All, length, append-nil, inl, inr, zero, ap, subst,
  append_assoc, length-append,
}
use gosnowflake.Base.Text.{Bytes}
use gosnowflake.Chunk.Utf8.{encode_rune, is_surrogate}
use gosnowflake.Chunk.Buffer.{Decoder, M, ◌>>=◌, ok, Run, next_byte}
use gosnowflake.Chunk.Decode.{
  write, contents, hex_digit, hex_digits, getu4, decode_unicode, escape_byte, string_byte,
  string_loop, decode_string, simple_escape,
}
use gosnowflake.Chunk.Cursor.{Holds, next_byte-Reads}

-- An outcome with a result, the text that is left, and what was collected.
abbrev pub Gives : {A : Type 0} → Run A → A → Bytes → Bytes → Type 0
Gives res a t out = (d : Decoder) × (res ≡ ok a d) × Holds d t × (d.sbuf ≡ out)

-- An action that gives a result is followed by the next one.
pub after_ok :
    {A B : Type 0} (m : M A) (f : A → M B) (d : Decoder) {a : A} {d' : Decoder}
    → m d ≡ ok a d'
    → (m >>= f) d ≡ f a d'
after_ok m f d e = rw (e, ◌>>=◌)

pub Gives-after :
    {A B : Type 0} (m : M A) (f : A → M B) (d : Decoder) (a : A) (b : B) (s t o out : Bytes)
    → Gives (m d) a s o
    → ((d' : Decoder) → Holds d' s → d'.sbuf ≡ o → Gives (f a d') b t out)
    → Gives ((m >>= f) d) b t out
Gives-after m f d a b s t o out (d', e, h, p) k = rw (after_ok m f d e) (k d' h p)

-- To read a byte and go on is to go on behind it.
pub after_byte :
    {A : Type 0} (d : Decoder) (c : ℕ) (s : Bytes) (f : ℕ → M A) (a : A) (t out : Bytes)
    → Holds d (c ∷ s)
    → ((d' : Decoder) → Holds d' s → d'.sbuf ≡ d.sbuf → Gives (f c d') a t out)
    → Gives ((next_byte >>= f) d) a t out
after_byte d c s f a t out h k =
    let (d', e, h', _, _, _, b) = next_byte-Reads d c s h in
    rw (after_ok next_byte f d e) (k d' h' b)

hex_step :
    (d : Decoder) (n r c v : ℕ) (s : Bytes) (a : Option ℕ) (t out : Bytes)
    → hex_digit c ≡ some v
    → Holds d (c ∷ s)
    → ((d' : Decoder)
        → Holds d' s
        → d'.sbuf ≡ d.sbuf
        → Gives (hex_digits n (r * 16 + v) d') a t out)
    → Gives (hex_digits (suc n) r d) a t out
unfolding hex_digits
hex_step d n r c v s a t out e h k = after_byte d c s _ a t out h (λ d' h' b. rw e (k d' h' b))

hex_end :
    (d : Decoder) (r : ℕ) (t out : Bytes)
    → Holds d t
    → d.sbuf ≡ out
    → Gives (hex_digits 0 r d) (some r) t out
unfolding hex_digits
hex_end d r t out h b = (d, refl, h, b)

-- `getu4` reads four hexadecimal digits.
getu4-Gives :
    (d : Decoder) (a b c e v w x y : ℕ) (s : Bytes)
    → hex_digit a ≡ some v
    → hex_digit b ≡ some w
    → hex_digit c ≡ some x
    → hex_digit e ≡ some y
    → Holds d (a ∷ b ∷ c ∷ e ∷ s)
    → Gives (getu4 d) (some ((((0 * 16 + v) * 16 + w) * 16 + x) * 16 + y)) s d.sbuf
unfolding getu4
getu4-Gives d a b c e v w x y s ha hb hc he h =
    hex_step d 3 0 a v (b ∷ c ∷ e ∷ s) _ s d.sbuf ha h λ d1 h1 b1.
      hex_step d1 2 _ b w (c ∷ e ∷ s) _ s d.sbuf hb h1 λ d2 h2 b2.
        hex_step d2 1 _ c x (e ∷ s) _ s d.sbuf hc h2 λ d3 h3 b3.
          hex_step d3 0 _ e y s _ s d.sbuf he h3
            λ d4 h4 b4. hex_end d4 _ s d.sbuf h4 (b4 ∙ (b3 ∙ (b2 ∙ b1)))

-- The last digit of a control character's escape.
abbrev pub low_digit : ℕ → ℕ
low_digit v = if ltb v 10 then b'0' + v else b'a' + (v - 10)

-- How a character of a cell is written: quotes and backslashes escaped, control characters by
-- their number, the others as they are.
unfoldable pub print_char : ℕ → Bytes
print_char c =
    if c == b'"' || c == b'\\'
    then b'\\' ∷ c ∷ []
    else if ltb c 0x20
    then b'\\' ∷ b'u' ∷ b'0' ∷ b'0' ∷ (b'0' + c / 16) ∷ low_digit (c % 16) ∷ []
    else c ∷ []

unfoldable pub print_chars : Bytes → Bytes
unfolding print_char
print_chars [] = b'"' ∷ []
print_chars (c ∷ s) = print_char c ++ print_chars s

hex_high : (c : ℕ) → c < 0x20 → hex_digit (b'0' + c / 16) ≡ some (c / 16)
unfolding hex_digit
hex_high c h = ground arith

hex_low : (v : ℕ) → v < 16 → hex_digit (low_digit v) ≡ some v
unfolding hex_digit
hex_low v h = ground arith

hex_zero : hex_digit b'0' ≡ some 0
unfolding hex_digit
hex_zero = refl

Holds-write : (d : Decoder) (s out : Bytes) → Holds d s → Holds (record d { sbuf = out }) s
Holds-write d s out h = record {
  at = h.at;
  left = h.left;
  ptr_at = h.ptr_at;
  rem_left = h.rem_left;
  fits = h.fits;
  room = h.room;
  no_error = h.no_error;
  flows = h.flows;
  text = h.text;
}

write-Gives : (d : Decoder) (bs t : Bytes) → Holds d t → Gives (write bs d) tt t (d.sbuf ++ bs)
unfolding write
write-Gives d bs t h = (record d { sbuf = d.sbuf ++ bs }, refl, Holds-write d t _ h, refl)

encode_small : (c : ℕ) → c < 0x80 → encode_rune c ≡ c ∷ []
unfolding encode_rune
encode_small c h = ground arith

decode_unicode-small :
    (d : Decoder) (c : ℕ) (t : Bytes)
    → c < 0x80
    → Holds d t
    → Gives (decode_unicode (some c) d) tt t (d.sbuf ++ c ∷ [])
unfolding decode_unicode
decode_unicode-small d c t h k =
    let n : is_surrogate c ≡ false = unfold is_surrogate in ground arith in
    rw n (rw (encode_small c h) (write-Gives d (c ∷ []) t k))

decode_unicode_at :
    (d : Decoder) (v c : ℕ) (t out : Bytes)
    → v ≡ c
    → c < 0x80
    → d.sbuf ≡ out
    → Holds d t
    → Gives (decode_unicode (some v) d) tt t (out ++ c ∷ [])
decode_unicode_at d v c t out e h b k = rw e (rw (← b) (decode_unicode-small d c t h k))

escape_byte-simple :
    (c b : ℕ) (d : Decoder) → simple_escape c ≡ some b → escape_byte c d ≡ write (b ∷ []) d
unfolding escape_byte
escape_byte-simple c b d e = ground arith

simple_escape_self : (c : ℕ) → (c == b'"' || c == b'\\') ≡ true → simple_escape c ≡ some c
unfolding simple_escape
simple_escape_self c e = ground arith

-- The steps of the string loop: a byte that does not end the string is handled, and the loop goes
-- on.
string_loop_step :
    (f : ℕ) (d : Decoder) (c : ℕ) (s u t o out : Bytes)
    → (c == b'"') ≡ false
    → Holds d (c ∷ s)
    → ((d' : Decoder) → Holds d' s → d'.sbuf ≡ d.sbuf → Gives (string_byte c d') tt u o)
    → ((d' : Decoder) → Holds d' u → d'.sbuf ≡ o → Gives (string_loop f d') tt t out)
    → Gives (string_loop (suc f) d) tt t out
unfolding string_loop
string_loop_step f d c s u t o out n h byte rest = after_byte d c s _ tt t out h λ d' h' b.
    rw n (Gives-after (string_byte c) (λ _. string_loop f) d' tt tt u t o out (byte d' h' b) rest)

string_loop_end :
    (f : ℕ) (d : Decoder) (t : Bytes)
    → Holds d (b'"' ∷ t)
    → Gives (string_loop (suc f) d) tt t d.sbuf
unfolding string_loop
string_loop_end f d t h = after_byte d b'"' t _ tt t d.sbuf h λ d' h' b. (d', refl, h', b)

-- A plain character is collected as it is.
string_byte-plain :
    (d : Decoder) (c : ℕ) (t : Bytes)
    → (c == b'\\') ≡ false
    → ltb c 0x20 ≡ false
    → ltb c 0x80 ≡ true
    → Holds d t
    → Gives (string_byte c d) tt t (d.sbuf ++ c ∷ [])
unfolding string_byte
string_byte-plain d c t n l h k = rw n (rw l (rw h (write-Gives d (c ∷ []) t k)))

-- An escaped quote or backslash.
string_byte-escaped :
    (d : Decoder) (c : ℕ) (t : Bytes)
    → (c == b'"' || c == b'\\') ≡ true
    → Holds d (c ∷ t)
    → Gives (string_byte b'\\' d) tt t (d.sbuf ++ c ∷ [])
unfolding string_byte
string_byte-escaped d c t e h = after_byte d c t escape_byte tt t (d.sbuf ++ c ∷ []) h λ d' h' b.
    rw (escape_byte-simple c c d' (simple_escape_self c e))
      (rw (← b) (write-Gives d' (c ∷ []) t h'))

-- An escaped control character.
string_byte-control :
    (d : Decoder) (c : ℕ) (t : Bytes)
    → c < 0x20
    → Holds d (b'u' ∷ b'0' ∷ b'0' ∷ (b'0' + c / 16) ∷ low_digit (c % 16) ∷ t)
    → Gives (string_byte b'\\' d) tt t (d.sbuf ++ c ∷ [])
unfolding string_byte
string_byte-control d c t l h = after_byte d b'u' _ escape_byte tt t (d.sbuf ++ c ∷ []) h λ d' h' b.
    Gives-after getu4 decode_unicode d' _ tt t t d'.sbuf _
      (getu4-Gives d' b'0' b'0' (b'0' + c / 16) (low_digit (c % 16)) 0 0 (c / 16) (c % 16) t
        hex_zero hex_zero (hex_high c l) (hex_low (c % 16) (omega arith)) h')
      λ d2 h2 b2. decode_unicode_at d2 _ c t d.sbuf (omega arith) (omega arith) (b2 ∙ b) h2

-- A character that UTF-8 writes as one byte.
abbrev pub IsAscii : ℕ → Type 0
IsAscii c = c < 0x80

print_char-cases :
    (c : ℕ)
    → (((c == b'"' || c == b'\\') ≡ true) × (print_char c ≡ b'\\' ∷ c ∷ []))
      ⊎ ((c < 0x20)
          × (print_char c ≡ b'\\' ∷ b'u' ∷ b'0' ∷ b'0' ∷ (b'0' + c / 16) ∷ low_digit (c % 16) ∷ []))
      ⊎ (((c == b'"') ≡ false)
          × ((c == b'\\') ≡ false)
          × (ltb c 0x20 ≡ false)
          × (print_char c ≡ c ∷ []))
unfolding print_char
print_char-cases c = ground arith

collected :
    (d d' : Decoder) (c : ℕ) (s : Bytes)
    → d'.sbuf ≡ d.sbuf ++ c ∷ []
    → d'.sbuf ++ s ≡ d.sbuf ++ c ∷ s
collected d d' c s b = ap (λ (o : Bytes). o ++ s) b ∙ append_assoc d.sbuf (c ∷ []) s

-- The string loop collects the characters that were written, and stops behind the closing quote.
string_loop-print_chars :
    (s : Bytes) (f : ℕ) (d : Decoder) (t : Bytes)
    → All IsAscii s
    → length s < f
    → Holds d (print_chars s ++ t)
    → Gives (string_loop f d) tt t (d.sbuf ++ s)
unfolding print_chars
string_loop-print_chars s zero d t a l h = absurd (omega arith)
string_loop-print_chars [] (suc f) d t a l h = rw append-nil (string_loop_end f d t h)
string_loop-print_chars (c ∷ s) (suc f) d t a l h = elim (print_char-cases c) [
  | inl (q, e) ↦
      string_loop_step f d b'\\' (c ∷ (print_chars s ++ t)) (print_chars s ++ t) t
        (d.sbuf ++ c ∷ []) (d.sbuf ++ c ∷ s) refl (rw e at h)
        (λ d' h' b. rw (← b) (string_byte-escaped d' c (print_chars s ++ t) q h'))
        (λ d' h' b.
          subst (Gives (string_loop f d') tt t) (collected d d' c s b)
            (string_loop-print_chars s f d' t a.1 (omega arith) h'))
  | inr (inl (low, e)) ↦
      string_loop_step f d b'\\' _ (print_chars s ++ t) t (d.sbuf ++ c ∷ []) (d.sbuf ++ c ∷ s) refl
        (rw e at h) (λ d' h' b. rw (← b) (string_byte-control d' c (print_chars s ++ t) low h'))
        (λ d' h' b.
          subst (Gives (string_loop f d') tt t) (collected d d' c s b)
            (string_loop-print_chars s f d' t a.1 (omega arith) h'))
  | inr (inr (n, m, k, e)) ↦
      string_loop_step f d c (print_chars s ++ t) (print_chars s ++ t) t (d.sbuf ++ c ∷ [])
        (d.sbuf ++ c ∷ s) n (rw e at h)
        (λ d' h' b.
          rw (← b) (string_byte-plain d' c (print_chars s ++ t) m k (ground (arith, a.0)) h'))
        (λ d' h' b.
          subst (Gives (string_loop f d') tt t) (collected d d' c s b)
            (string_loop-print_chars s f d' t a.1 (omega arith) h'))
]

-- `decodeString`, behind the opening quote.
pub decode_string-print_chars :
    (s : Bytes) (f : ℕ) (d : Decoder) (t : Bytes)
    → All IsAscii s
    → length s < f
    → Holds d (print_chars s ++ t)
    → (d' : Decoder) × (decode_string f d ≡ ok s d') × Holds d' t
unfolding decode_string
decode_string-print_chars s f d t a l h =
    let (d', e, h', b) =
      string_loop-print_chars s f (record d { sbuf = [] }) t a l (Holds-write d _ [] h) in
    (
      d',
      after_ok (string_loop f) (λ _. contents) (record d { sbuf = [] }) e
          ∙ ap (λ (o : Bytes). ok o d') b,
      h',
    )

pub length-print_chars : (s : Bytes) → length s < length (print_chars s)
unfolding print_chars print_char
length-print_chars [] = omega arith
length-print_chars (c ∷ s) =
    ground (arith, length-append {0} (print_char c) (print_chars s), length-print_chars s)
