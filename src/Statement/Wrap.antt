-- ===== src/Statement/Wrap.antt =====
-- multistatement.go: the count that is kept as an `int64`.
use gosnowflake.Base.{◌≡◌, refl, ap, ◌∙◌, arith, Option, none, some, List, [], ◌∷◌}
use gosnowflake.Base.Int.{ℤ, pos, negsuc, ◌+ℤ◌}
use gosnowflake.Statement.{wrap_64}

-- Adding to a count that was wrapped is as adding to the count.
wrap_64-add : (a b : ℤ) → wrap_64 (wrap_64 a +ℤ b) ≡ wrap_64 (a +ℤ b)
unfolding wrap_64 ◌+ℤ◌
wrap_64-add (pos a) (pos b) = ground arith
wrap_64-add (pos a) (negsuc b) = ground arith
wrap_64-add (negsuc a) (pos b) = ground arith
wrap_64-add (negsuc a) (negsuc b) = ground arith

-- The counts added up, each time as an `int64`; a statement that changes no rows has none.
abbrev pub sum_counts : List (Option ℤ) → ℤ → ℤ
sum_counts [] count = count
sum_counts (none ∷ ns) count = sum_counts ns count
sum_counts (some n ∷ ns) count = sum_counts ns (wrap_64 (count +ℤ n))

-- The sum of the counts.
abbrev pub total : List (Option ℤ) → ℤ → ℤ
total [] count = count
total (none ∷ ns) count = total ns count
total (some n ∷ ns) count = total ns (count +ℤ n)

pub sum_counts-wrap_64 :
    (ns : List (Option ℤ)) (count : ℤ) → sum_counts ns (wrap_64 count) ≡ wrap_64 (total ns count)
sum_counts-wrap_64 [] count = refl
sum_counts-wrap_64 (none ∷ ns) count = sum_counts-wrap_64 ns count
sum_counts-wrap_64 (some n ∷ ns) count =
    ap (sum_counts ns) (wrap_64-add count n) ∙ sum_counts-wrap_64 ns (count +ℤ n)
