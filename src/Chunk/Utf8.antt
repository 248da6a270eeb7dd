-- ===== src/Chunk/Utf8.antt =====
-- The parts of the Go library's `unicode/utf8` and `unicode/utf16` that chunk.go calls.
use gosnowflake.Base.Text.{Bytes}
use gosnowflake.Base.{
  ℕ, Bool, leb, if◌then◌else◌, ◌∷◌, ◌+◌, ◌&&◌, ◌==◌, ◌%◌, ltb, ◌/◌, ◌*◌, ◌-◌, [], ◌||◌,
}

-- `unicode.ReplacementChar`, which is also `utf8.RuneError`.
abbrev pub replacement_char : ℕ
replacement_char = 0xfffd

abbrev between : ℕ → ℕ → ℕ → Bool
between lo hi c = leb lo c && leb c hi

abbrev is_continuation : ℕ → Bool
is_continuation c = between 0x80 0xbf c

-- The range of the second byte behind the first.
abbrev second_low : ℕ → ℕ
second_low c = if c == 0xe0 then 0xa0 else if c == 0xf0 then 0x90 else 0x80

abbrev second_high : ℕ → ℕ
second_high c = if c == 0xed then 0x9f else if c == 0xf4 then 0x8f else 0xbf

abbrev invalid : ℕ × ℕ
invalid = (replacement_char, 1)

decode_two : ℕ → Bytes → ℕ × ℕ
decode_two a [] = invalid
decode_two a (b ∷ s) = if is_continuation b then (a % 0x20 * 0x40 + b % 0x40, 2) else invalid

decode_three : ℕ → Bytes → ℕ × ℕ
decode_three a [] = invalid
decode_three a (b ∷ []) = invalid
decode_three a (b ∷ c ∷ s) =
    if between (second_low a) (second_high a) b && is_continuation c
    then (a % 0x10 * 0x1000 + b % 0x40 * 0x40 + c % 0x40, 3)
    else invalid

decode_four : ℕ → Bytes → ℕ × ℕ
decode_four a [] = invalid
decode_four a (b ∷ []) = invalid
decode_four a (b ∷ c ∷ []) = invalid
decode_four a (b ∷ c ∷ d ∷ s) =
    if between (second_low a) (second_high a) b && is_continuation c && is_continuation d
    then (a % 8 * 0x40000 + b % 0x40 * 0x1000 + c % 0x40 * 0x40 + d % 0x40, 4)
    else invalid

-- `utf8.DecodeRune`: the rune and its width.
unfoldable pub decode_rune : Bytes → ℕ × ℕ
unfolding decode_two decode_three decode_four
decode_rune [] = (replacement_char, 0)
decode_rune (a ∷ s) =
    if ltb a 0x80
    then (a, 1)
    else if between 0xc2 0xdf a
    then decode_two a s
    else if between 0xe0 0xef a
    then decode_three a s
    else if between 0xf0 0xf4 a
    then decode_four a s
    else invalid

-- `utf16.IsSurrogate`.
unfoldable pub is_surrogate : ℕ → Bool
is_surrogate r = between 0xd800 0xdfff r

-- `utf16.DecodeRune`.
unfoldable pub decode_pair : ℕ → ℕ → ℕ
decode_pair r s =
    if between 0xd800 0xdbff r && between 0xdc00 0xdfff s
    then (r - 0xd800) * 0x400 + (s - 0xdc00) + 0x10000
    else replacement_char

-- The bytes of a rune of three bytes.
abbrev three_bytes : ℕ → Bytes
three_bytes r = (0xe0 + r / 0x1000) ∷ (0x80 + r / 0x40 % 0x40) ∷ (0x80 + r % 0x40) ∷ []

-- `bytes.Buffer.WriteRune`: the UTF-8 bytes of a rune, those of the replacement character for a
-- surrogate or a number out of range.
unfoldable pub encode_rune : ℕ → Bytes
encode_rune r =
    if ltb r 0x80
    then r ∷ []
    else if ltb r 0x800
    then (0xc0 + r / 0x40) ∷ (0x80 + r % 0x40) ∷ []
    else if between 0xd800 0xdfff r || ltb 0x10ffff r
    then three_bytes replacement_char
    else if ltb r 0x10000
    then three_bytes r
    else (0xf0 + r / 0x40000)
      ∷ (0x80 + r / 0x1000 % 0x40)
      ∷ (0x80 + r / 0x40 % 0x40)
      ∷ (0x80 + r % 0x40)
      ∷ []
