-- ===== src/Dsn/Scan.antt =====
-- dsn.go: the scan of a text for its slashes, its `@` and its `:`.
use gosnowflake.Base.{
  ℕ, Option, none, some, false, ◌++◌, ◌∷◌, [], take, drop, suc, zero, length, get_elem?, ◌+◌, ◌≡◌,
  ◌∙◌, ◌-◌, ◌<◌, ◌==◌, ◌≤◌, arith, refl, ap, sym,
}
use gosnowflake.Base.Text.{Bytes, index_byte, contains_byte}
use gosnowflake.Dsn.Parse.{slice, is_at, find_slash, find_at, parse_user_password}

get_elem?-drop : (s : Bytes) (n k : ℕ) → get_elem? s (n + k) ≡ get_elem? (drop n s) k
get_elem?-drop s zero k = ap (get_elem? s) (omega arith)
get_elem?-drop [] (suc n) k = refl
get_elem?-drop (x ∷ s) (suc n) k =
    let e : suc n + k ≡ suc (n + k) = omega arith in ap (get_elem? (x ∷ s)) e ∙ get_elem?-drop s n k

drop-nil : (n : ℕ) → drop {A = ℕ} n [] ≡ []
drop-nil zero = refl
drop-nil (suc n) = refl

drop-drop : (n m : ℕ) (s : Bytes) → drop (n + m) s ≡ drop m (drop n s)
drop-drop zero m s = ap (λ (i : ℕ). drop i s) (omega arith)
drop-drop (suc n) m [] = drop-nil (suc n + m) ∙ sym (drop-nil m)
drop-drop (suc n) m (x ∷ s) =
    let e : suc n + m ≡ suc (n + m) = omega arith in
    ap (λ (i : ℕ). drop i (x ∷ s)) e ∙ drop-drop n m s

pub drop-append : (xs ys : Bytes) → drop (length xs) (xs ++ ys) ≡ ys
drop-append [] ys = refl
drop-append (x ∷ xs) ys = drop-append xs ys

pub take-append : (xs ys : Bytes) → take (length xs) (xs ++ ys) ≡ xs
take-append [] ys = refl
take-append (x ∷ xs) ys = ap (◌∷◌ x) (take-append xs ys)

-- What is behind a part.
pub drop_part :
    (s : Bytes) (n : ℕ) (ys zs : Bytes) → drop n s ≡ ys ++ zs → drop (n + length ys) s ≡ zs
drop_part s n ys zs e = drop-drop n (length ys) s ∙ ap (drop (length ys)) e ∙ drop-append ys zs

pub slice_part :
    (s : Bytes) (n : ℕ) (ys zs : Bytes) → drop n s ≡ ys ++ zs → slice n (n + length ys) s ≡ ys
slice_part s n ys zs e =
    let size : n + length ys - n ≡ length ys = omega arith in
    ap (λ (k : ℕ). take k (drop n s)) size ∙ ap (take (length ys)) e ∙ take-append ys zs

-- A byte that a text does not hold is at none of its positions.
is_at-absent :
    (ys zs : Bytes) (c k : ℕ)
    → contains_byte ys c ≡ false
    → k < length ys
    → is_at (ys ++ zs) k c ≡ false
unfolding contains_byte is_at
is_at-absent [] zs c k a l = absurd (omega arith)
is_at-absent (y ∷ ys) zs c zero a l = ground arith
is_at-absent (y ∷ ys) zs c (suc k) a l = is_at-absent ys zs c k (ground arith) (omega arith)

is_at-drop : (s : Bytes) (n k c : ℕ) → is_at s (n + k) c ≡ is_at (drop n s) k c
unfolding is_at
is_at-drop s n k c = rw (get_elem?-drop s n k, is_at) refl

is_at-part :
    (s : Bytes) (n : ℕ) (ys zs : Bytes) (c k : ℕ)
    → drop n s ≡ ys ++ zs
    → contains_byte ys c ≡ false
    → k < length ys
    → is_at s (n + k) c ≡ false
is_at-part s n ys zs c k e a l =
    is_at-drop s n k c ∙ ap (λ (t : Bytes). is_at t k c) e ∙ is_at-absent ys zs c k a l

pub is_at-head : (s : Bytes) (n x c : ℕ) (zs : Bytes) → drop n s ≡ x ∷ zs → is_at s n c ≡ (x == c)
unfolding is_at
is_at-head s n x c zs e =
    let zero_right : n ≡ n + 0 = omega arith in
    ap (λ (i : ℕ). is_at s i c) zero_right ∙ is_at-drop s n 0 c ∙ ap (λ (t : Bytes). is_at t 0 c) e

-- The loops pass a part that holds none of the bytes that they look for.
pub find_slash-part :
    (s : Bytes) (n : ℕ) (ys zs : Bytes) (q k : ℕ)
    → drop n s ≡ ys ++ zs
    → contains_byte ys b'/' ≡ false
    → contains_byte ys b'?' ≡ false
    → k ≤ length ys
    → find_slash s (n + k) q ≡ find_slash s n q
unfolding find_slash
find_slash-part s n ys zs q zero e a b l = ap (λ (i : ℕ). find_slash s i q) (omega arith)
find_slash-part s n ys zs q (suc k) e a b l =
    let next : n + suc k ≡ suc (n + k) = omega arith in
    rw next (
      rw
        (
          is_at-part s n ys zs b'/' k e a (omega arith),
          is_at-part s n ys zs b'?' k e b (omega arith),
          find_slash,
        )
        (find_slash-part s n ys zs q k e a b (omega arith)))

pub find_at-part :
    (s : Bytes) (n : ℕ) (ys zs : Bytes) (second : Option ℕ) (k : ℕ)
    → drop n s ≡ ys ++ zs
    → contains_byte ys b'/' ≡ false
    → contains_byte ys b'@' ≡ false
    → k ≤ length ys
    → find_at s (n + k) second ≡ find_at s n second
unfolding find_at
find_at-part s n ys zs second zero e a b l = ap (λ (i : ℕ). find_at s i second) (omega arith)
find_at-part s n ys zs second (suc k) e a b l =
    let next : n + suc k ≡ suc (n + k) = omega arith in
    rw next (
      rw
        (
          is_at-part s n ys zs b'@' k e b (omega arith),
          is_at-part s n ys zs b'/' k e a (omega arith),
          find_at,
        )
        (find_at-part s n ys zs second k e a b (omega arith)))

pub index_byte-absent : (s : Bytes) (c : ℕ) → contains_byte s c ≡ false → index_byte s c ≡ none
unfolding index_byte contains_byte
index_byte-absent [] c a = refl
index_byte-absent (x ∷ s) c a = rw (index_byte-absent s c (ground arith)) (ground arith)

pub index_byte-first :
    (s t : Bytes) (c : ℕ) → contains_byte s c ≡ false → index_byte (s ++ c ∷ t) c ≡ some (length s)
unfolding index_byte contains_byte
index_byte-first [] t c a = ground arith
index_byte-first (x ∷ s) t c a = rw (index_byte-first s t c (ground arith)) (ground arith)

pub parse_user_password-colon :
    (u p : Bytes) → contains_byte u b':' ≡ false → parse_user_password (u ++ b':' ∷ p) ≡ (u, p)
unfolding parse_user_password
parse_user_password-colon u p a =
    rw (index_byte-first u p b':' a, take-append u (b':' ∷ p), behind u, parse_user_password) refl
  where
    behind : (u : Bytes) → drop (suc (length u)) (u ++ b':' ∷ p) ≡ p
    behind [] = refl
    behind (x ∷ u) = behind u

pub drop_one : (s : Bytes) (n x : ℕ) (zs : Bytes) → drop n s ≡ x ∷ zs → drop (suc n) s ≡ zs
drop_one s n x zs e =
    let next : suc n ≡ n + 1 = omega arith in
    ap (λ (i : ℕ). drop i s) next ∙ drop-drop n 1 s ∙ ap (drop 1) e
