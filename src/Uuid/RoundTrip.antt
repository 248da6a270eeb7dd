-- ===== src/Uuid/RoundTrip.antt =====
-- uuid.go: a UUID is parsed back from its text.
use gosnowflake.Base.{ℕ, ◌/◌, ◌%◌, ◌≡◌, ◌<◌, refl, ◌∙◌, ap, some, Option, [], ◌∷◌, All, arith}
use gosnowflake.Uuid.{
  Uuid, uuid_bytes, parse_uuid, uuid_string, get_char, hex_value, hex_digit, hex_bytes, byte_of,
}

hex_value-hex_digit : (n : ℕ) → n < 16 → hex_value (hex_digit n) ≡ some n
unfolding hex_value hex_digit
hex_value-hex_digit n h = ground arith

get_char-hex_digit : (b : ℕ) → b < 256 → get_char (hex_digit (b / 16) ∷ hex_digit (b % 16) ∷ []) ≡ b
unfolding get_char
get_char-hex_digit b h =
    ap (λ (o : Option ℕ). byte_of o (hex_value (hex_digit (b % 16))))
      (hex_value-hex_digit (b / 16) (omega arith))
    ∙ ap (byte_of (some (b / 16))) (hex_value-hex_digit (b % 16) (omega arith))
    ∙ omega arith

-- The text of a UUID of 16 bytes is parsed back to it.
pub parse_uuid-uuid_string :
    (u : Uuid) → All (λ b. b < 256) (uuid_bytes u) → parse_uuid (uuid_string u) ≡ some u
unfolding parse_uuid uuid_string hex_bytes
parse_uuid-uuid_string u h =
    let e0 = get_char-hex_digit u.b0 h.0 in
    let e1 = get_char-hex_digit u.b1 h.1.0 in
    let e2 = get_char-hex_digit u.b2 h.1.1.0 in
    let e3 = get_char-hex_digit u.b3 h.1.1.1.0 in
    let e4 = get_char-hex_digit u.b4 h.1.1.1.1.0 in
    let e5 = get_char-hex_digit u.b5 h.1.1.1.1.1.0 in
    let e6 = get_char-hex_digit u.b6 h.1.1.1.1.1.1.0 in
    let e7 = get_char-hex_digit u.b7 h.1.1.1.1.1.1.1.0 in
    let e8 = get_char-hex_digit u.b8 h.1.1.1.1.1.1.1.1.0 in
    let e9 = get_char-hex_digit u.b9 h.1.1.1.1.1.1.1.1.1.0 in
    let e10 = get_char-hex_digit u.b10 h.1.1.1.1.1.1.1.1.1.1.0 in
    let e11 = get_char-hex_digit u.b11 h.1.1.1.1.1.1.1.1.1.1.1.0 in
    let e12 = get_char-hex_digit u.b12 h.1.1.1.1.1.1.1.1.1.1.1.1.0 in
    let e13 = get_char-hex_digit u.b13 h.1.1.1.1.1.1.1.1.1.1.1.1.1.0 in
    let e14 = get_char-hex_digit u.b14 h.1.1.1.1.1.1.1.1.1.1.1.1.1.1.0 in
    let e15 = get_char-hex_digit u.b15 h.1.1.1.1.1.1.1.1.1.1.1.1.1.1.1.0 in
    rw (e0, e1, e2, e3, e4, e5, e6, e7, e8, e9, e10, e11, e12, e13, e14, e15) refl
