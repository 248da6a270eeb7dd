-- ===== src/Base/Text.antt =====
-- Go strings as lists of byte values, with what the Go library's `strings` does at one byte.
use Prim.Native.Char.{code}
use Prim.Native.String.{String}
use gosnowflake.Base.{
  ℕ, ◌≡◌, refl, Bool, true, false, ◌&&◌, ◌||◌, List, [], ◌∷◌, ◌==◌, arith, if◌then◌else◌, leb, ◌+◌,
  ◌-◌, Option, length, none, some, drop, suc,
}

abbrev pub Bytes : Type 0
Bytes = List ℕ

-- The code points of a literal: its bytes, as the literals are ASCII.
abbrev pub codes : String → Bytes
codes String.[] = []
codes (String.◌∷◌ c s) = code c ∷ codes s

-- `==` on strings.
unfoldable pub bytes_eq : Bytes → Bytes → Bool
bytes_eq [] [] = true
bytes_eq [] (y ∷ ys) = false
bytes_eq (x ∷ xs) [] = false
bytes_eq (x ∷ xs) (y ∷ ys) = x == y && bytes_eq xs ys

pub bytes_eq_refl : (xs : Bytes) → bytes_eq xs xs ≡ true
unfolding bytes_eq
bytes_eq_refl [] = refl
bytes_eq_refl (x ∷ xs) = ground (arith, bytes_eq_refl xs)

pub bytes_eq_sound : (xs ys : Bytes) → bytes_eq xs ys ≡ true → xs ≡ ys
unfolding bytes_eq
bytes_eq_sound [] [] h = refl
bytes_eq_sound [] (y ∷ ys) h = cc
bytes_eq_sound (x ∷ xs) [] h = cc
bytes_eq_sound (x ∷ xs) (y ∷ ys) h = ground (arith, bytes_eq_sound xs ys)

-- `strings.Contains(s, string(c))` at one byte.
unfoldable pub contains_byte : Bytes → ℕ → Bool
contains_byte [] c = false
contains_byte (x ∷ xs) c = x == c || contains_byte xs c

-- `strings.HasPrefix`.
unfoldable pub has_prefix : Bytes → Bytes → Bool
has_prefix s [] = true
has_prefix [] (p ∷ ps) = false
has_prefix (x ∷ xs) (p ∷ ps) = x == p && has_prefix xs ps

-- `strings.ToLower` on ASCII.
unfoldable pub to_lower : Bytes → Bytes
to_lower [] = []
to_lower (c ∷ s) = (if leb b'A' c && leb c b'Z' then c + 32 else c) ∷ to_lower s

-- `strings.ToUpper` on ASCII.
unfoldable pub to_upper : Bytes → Bytes
to_upper [] = []
to_upper (c ∷ s) = (if leb b'a' c && leb c b'z' then c - 32 else c) ∷ to_upper s

-- `strings.Index` of one byte; -1 is `none`.
unfoldable pub index_byte : Bytes → ℕ → Option ℕ
index_byte [] c = none
index_byte (x ∷ xs) c =
    if x == c then some 0 else elim (index_byte xs c) [ none ↦ none | some i ↦ some (suc i) ]

-- `strings.LastIndex`; -1 is `none`.
unfoldable pub last_index : Bytes → Bytes → Option ℕ
unfolding has_prefix
last_index [] p = if has_prefix [] p then some 0 else none
last_index (x ∷ xs) p = elim (last_index xs p) [
  | some i ↦ some (suc i)
  | none ↦ if has_prefix (x ∷ xs) p then some 0 else none
]

-- `strings.Contains`.
unfoldable pub contains : Bytes → Bytes → Bool
unfolding has_prefix
contains [] p = has_prefix [] p
contains (x ∷ xs) p = has_prefix (x ∷ xs) p || contains xs p

-- `strings.HasSuffix`.
unfoldable pub has_suffix : Bytes → Bytes → Bool
unfolding bytes_eq
has_suffix s p = leb (length p) (length s) && bytes_eq (drop (length s - length p) s) p

-- Whether `strings.Trim(s, " ")` is empty.
unfoldable pub only_spaces : Bytes → Bool
only_spaces [] = true
only_spaces (c ∷ s) = c == b' ' && only_spaces s

-- Whether `strings.TrimSpace(s)` is empty, on ASCII.
unfoldable pub is_blank : Bytes → Bool
is_blank [] = true
is_blank (c ∷ s) = (c == b' ' || leb 9 c && leb c 13) && is_blank s

trim_left : Bytes → Bytes
trim_left [] = []
trim_left (c ∷ s) = if c == b' ' then trim_left s else c ∷ s

trim_right : Bytes → Bytes
unfolding only_spaces
trim_right [] = []
trim_right (c ∷ s) = if only_spaces (c ∷ s) then [] else c ∷ trim_right s

-- `strings.Trim(s, " ")`.
unfoldable pub trim : Bytes → Bytes
unfolding trim_right trim_left
trim s = trim_right (trim_left s)

-- `strings.Split(s, string(c))`.
unfoldable pub split : ℕ → Bytes → List Bytes
split c [] = [] ∷ []
split c (x ∷ xs) = elim (split c xs) [
  | [] ↦ []
  | w ∷ ws ↦ if x == c then [] ∷ w ∷ ws else (x ∷ w) ∷ ws
]
