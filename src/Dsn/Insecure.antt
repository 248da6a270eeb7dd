-- ===== src/Dsn/Insecure.antt =====
-- dsn.go: `insecureMode` beside `disableOCSPChecks`.
use gosnowflake.Base.{
  ℕ, some, true, false, List, ◌++◌, ◌∷◌, [], take, drop, suc, length, All, ◌≡◌, ap, refl,
}
use gosnowflake.Base.Text.{Bytes, codes, has_prefix}
use gosnowflake.Dsn.Config.{ok}
use gosnowflake.Dsn.Params.{find_by_prefix, drop_insecure_mode}

find_by_prefix-second :
    (prefix : Bytes) (xs : List Bytes) (p q : Bytes) (ys : List Bytes)
    → All (λ v. has_prefix v prefix ≡ false) xs
    → has_prefix p prefix ≡ false
    → has_prefix q prefix ≡ true
    → find_by_prefix (xs ++ p ∷ q ∷ ys) prefix ≡ some (suc (length xs))
unfolding find_by_prefix
find_by_prefix-second prefix [] p q ys a hp hq = rw (hp, hq) refl
find_by_prefix-second prefix (x ∷ xs) p q ys (hx, a) hp hq =
    rw (hx, find_by_prefix-second prefix xs p q ys a hp hq) refl

take-neighbour : {A : Type 0} (xs ys : List A) → take (length xs) (xs ++ ys) ≡ xs
take-neighbour [] ys = refl
take-neighbour (x ∷ xs) ys = ap (◌∷◌ x) (take-neighbour xs ys)

drop-neighbour :
    {A : Type 0} (xs : List A) (p q : A) (ys : List A)
    → drop (suc (suc (length xs))) (xs ++ p ∷ q ∷ ys) ≡ ys
drop-neighbour [] p q ys = refl
drop-neighbour (x ∷ xs) p q ys = drop-neighbour xs p q ys

-- If `disableOCSPChecks` is given too, then the parameter before the first one that begins with
-- `insecureMode` is dropped together with it.
pub drop_insecure_mode-neighbour :
    (xs : List Bytes) (p q : Bytes) (ys : List Bytes) (d : ℕ)
    → All (λ v. has_prefix v (codes "insecureMode") ≡ false) xs
    → has_prefix p (codes "insecureMode") ≡ false
    → has_prefix q (codes "insecureMode") ≡ true
    → find_by_prefix (xs ++ p ∷ q ∷ ys) (codes "disableOCSPChecks") ≡ some d
    → drop_insecure_mode (xs ++ p ∷ q ∷ ys) ≡ ok (xs ++ ys)
unfolding drop_insecure_mode
drop_insecure_mode-neighbour xs p q ys d a hp hq hd =
    rw (hd, find_by_prefix-second (codes "insecureMode") xs p q ys a hp hq, drop_insecure_mode)
      (rw (take-neighbour xs (p ∷ q ∷ ys), drop-neighbour xs p q ys) refl)
