-- ===== src/Uuid.antt =====
-- uuid.go: the 16 bytes of a UUID, and their text.
-- `strconv.ParseUint` is that of base 16 and 8 bits at two characters, with 0 at an error. The
-- random bytes are an argument.
use gosnowflake.Base.{
  ℕ, ◌+◌, ◌-◌, ◌*◌, ◌/◌, ◌%◌, Bool, ◌&&◌, Option, none, some, if◌then◌else◌, List, [], ◌∷◌, ◌++◌,
  length, take, drop, ltb, leb,
}
use Prim.Native.Nat.{bit_and, bit_or}
use gosnowflake.Base.Text.{Bytes}
pub mod RoundTrip
pub mod Bits
mod Tests

-- `UUID`.
pub record Uuid : Type 0 where
  pub b0 : ℕ
  pub b1 : ℕ
  pub b2 : ℕ
  pub b3 : ℕ
  pub b4 : ℕ
  pub b5 : ℕ
  pub b6 : ℕ
  pub b7 : ℕ
  pub b8 : ℕ
  pub b9 : ℕ
  pub b10 : ℕ
  pub b11 : ℕ
  pub b12 : ℕ
  pub b13 : ℕ
  pub b14 : ℕ
  pub b15 : ℕ

abbrev pub uuid_bytes : Uuid → Bytes
uuid_bytes u =
    u.b0 ∷ u.b1 ∷ u.b2 ∷ u.b3 ∷ u.b4 ∷ u.b5 ∷ u.b6 ∷ u.b7 ∷ u.b8 ∷ u.b9 ∷ u.b10 ∷ u.b11 ∷ u.b12
    ∷ u.b13 ∷ u.b14 ∷ u.b15 ∷ []

-- `NewUUID` of random bytes; `4 << 4` is 64.
unfoldable pub new_uuid : Uuid → Uuid
new_uuid u = record u { b8 = bit_and (bit_or u.b8 0x40) 0x7F; b6 = bit_or (bit_and u.b6 0xF) 64 }

-- The value of a digit of base 16.
unfoldable pub hex_value : ℕ → Option ℕ
hex_value c =
    if leb b'0' c && leb c b'9'
    then some (c - b'0')
    else if leb b'a' c && leb c b'f'
    then some (c - b'a' + 10)
    else if leb b'A' c && leb c b'F'
    then some (c - b'A' + 10)
    else none

-- `getChar` at the values of two digits.
abbrev pub byte_of : Option ℕ → Option ℕ → ℕ
byte_of (some h) (some l) = h * 16 + l
byte_of (some h) none = 0
byte_of none l = 0

-- `getChar`.
unfoldable pub get_char : Bytes → ℕ
unfolding hex_value
get_char [] = 0
get_char (h ∷ []) = byte_of (some 0) (hex_value h)
get_char (h ∷ l ∷ cs) = byte_of (hex_value h) (hex_value l)

abbrev pub slice : ℕ → ℕ → Bytes → Bytes
slice a b str = take (b - a) (drop a str)

-- `ParseUUID`; a text that is too short panics.
unfoldable pub parse_uuid : Bytes → Option Uuid
unfolding get_char
parse_uuid str =
    if ltb (length str) 36
    then none
    else some (record {
      b0 = get_char (slice 0 2 str);
      b1 = get_char (slice 2 4 str);
      b2 = get_char (slice 4 6 str);
      b3 = get_char (slice 6 8 str);
      b4 = get_char (slice 9 11 str);
      b5 = get_char (slice 11 13 str);
      b6 = get_char (slice 14 16 str);
      b7 = get_char (slice 16 18 str);
      b8 = get_char (slice 19 21 str);
      b9 = get_char (slice 21 23 str);
      b10 = get_char (slice 24 26 str);
      b11 = get_char (slice 26 28 str);
      b12 = get_char (slice 28 30 str);
      b13 = get_char (slice 30 32 str);
      b14 = get_char (slice 32 34 str);
      b15 = get_char (slice 34 36 str);
    })

-- The digit of a value below 16.
unfoldable pub hex_digit : ℕ → ℕ
hex_digit n = if ltb n 10 then n + b'0' else n - 10 + b'a'

-- `%x` of bytes.
unfoldable pub hex_bytes : Bytes → Bytes
unfolding hex_digit
hex_bytes [] = []
hex_bytes (b ∷ bs) = hex_digit (b / 16) ∷ hex_digit (b % 16) ∷ hex_bytes bs

-- `String`.
unfoldable pub uuid_string : Uuid → Bytes
unfolding hex_bytes
uuid_string u =
    hex_bytes (u.b0 ∷ u.b1 ∷ u.b2 ∷ u.b3 ∷ [])
    ++ b'-' ∷ hex_bytes (u.b4 ∷ u.b5 ∷ [])
    ++ b'-' ∷ hex_bytes (u.b6 ∷ u.b7 ∷ [])
    ++ b'-' ∷ hex_bytes (u.b8 ∷ u.b9 ∷ [])
    ++ b'-' ∷ hex_bytes (u.b10 ∷ u.b11 ∷ u.b12 ∷ u.b13 ∷ u.b14 ∷ u.b15 ∷ [])
