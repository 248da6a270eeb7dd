-- ===== src/ContextCache/Tests.antt =====
-- htap.go: runs of the cache at concrete entries, and the theorems applied there.
use mathlib.Core.List.{Perm}
use mathlib.Core.List.Perm
use gosnowflake.Base.{
  ◌≡◌, ◌↔◌, refl, [], ◌∷◌, ◌++◌, some, none, Bool-cases, length, ◌≢◌, All, true, false, inl, ◌≤◌,
  inr, arith, ◌⊎◌, if◌then◌else◌,
}
use gosnowflake.Base.Int.{ℤ, pos, negsuc, ltb_ℤ, ◌<ℤ◌, ◌≤ℤ◌}
use gosnowflake.ContextCache.{
  QueryContextEntry, Cache, add, add_one, add_all, IsSort, IsSorted, AllAbove, has_id, has_priority,
}
use gosnowflake.ContextCache.Bounds.{add_keeps_first, add_panics}
use gosnowflake.ContextCache.Fresh.{add_one-All-IsFresh, has_id-add_one, IsFresh}
use gosnowflake.ContextCache.Distinct.{
  count_id, count_priority, IsDistinct, add_one-IsDistinct, count_id-add_one_taken,
}

abbrev entry : ℤ → ℤ → ℤ → QueryContextEntry
entry i t p = record { id = i; timestamp = t; priority = p; context = "ctx" }

-- Insertion sort, a sort as `sort.Slice` documents it.
insert : QueryContextEntry → Cache → Cache
insert e [] = e ∷ []
insert e (x ∷ xs) = if ltb_ℤ x.priority e.priority then x ∷ insert e xs else e ∷ x ∷ xs

insertion_sort : Cache → Cache
unfolding insert
insertion_sort [] = []
insertion_sort (e ∷ es) = insert e (insertion_sort es)

insert-perm : (e : QueryContextEntry) (es : Cache) → Perm (insert e es) (e ∷ es)
unfolding insert
insert-perm e [] = Perm.refl (e ∷ [])
insert-perm e (x ∷ xs) = elim (Bool-cases (ltb_ℤ x.priority e.priority)) [
  | inl before ↦ rw before (Perm.trans (Perm.cons x (insert-perm e xs)) (Perm.swap e x xs))
  | inr after ↦ rw after (Perm.refl (e ∷ x ∷ xs))
]

insertion_sort-perm : (es : Cache) → Perm (insertion_sort es) es
unfolding insertion_sort
insertion_sort-perm [] = Perm.refl []
insertion_sort-perm (e ∷ es) =
    Perm.trans (insert-perm e (insertion_sort es)) (Perm.cons e (insertion_sort-perm es))

AllAbove-mono : (p q : ℤ) (es : Cache) → p ≤ℤ q → AllAbove q es → AllAbove p es
AllAbove-mono p q [] h a = tt
AllAbove-mono p q (e ∷ es) h a = (omega arith, AllAbove-mono p q es h a.1)

AllAbove-insert :
    (p : ℤ) (e : QueryContextEntry) (es : Cache)
    → p ≤ℤ e.priority
    → AllAbove p es
    → AllAbove p (insert e es)
unfolding insert
AllAbove-insert p e [] h a = (h, tt)
AllAbove-insert p e (x ∷ xs) h a = ground (arith, AllAbove-insert p e xs h a.1)

insert-IsSorted : (e : QueryContextEntry) (es : Cache) → IsSorted es → IsSorted (insert e es)
unfolding insert
insert-IsSorted e [] s = (tt, tt)
insert-IsSorted e (x ∷ xs) s = elim (Bool-cases (ltb_ℤ x.priority e.priority)) [
  | inl before ↦
      rw before (AllAbove-insert x.priority e xs (ground arith) s.0, insert-IsSorted e xs s.1)
  | inr after ↦
      rw after ((ground arith, AllAbove-mono e.priority x.priority xs (ground arith) s.0), s)
]

insertion_sort-IsSorted : (es : Cache) → IsSorted (insertion_sort es)
unfolding insertion_sort
insertion_sort-IsSorted [] = tt
insertion_sort-IsSorted (e ∷ es) =
    insert-IsSorted e (insertion_sort es) (insertion_sort-IsSorted es)

insertion_sort-IsSort : IsSort insertion_sort
insertion_sort-IsSort = record {
  sort-perm = insertion_sort-perm;
  sort-IsSorted = insertion_sort-IsSorted;
}

abbrev two_entries : Cache
two_entries = entry (pos 1) (pos 10) (pos 1) ∷ entry (pos 2) (pos 10) (pos 2) ∷ []

-- A newer entry for ID 1 takes over the priority of ID 2.
abbrev clashing : Cache
clashing = entry (pos 1) (pos 11) (pos 2) ∷ entry (pos 2) (pos 10) (pos 2) ∷ []

clash_arises : add_one (entry (pos 1) (pos 11) (pos 2)) two_entries ≡ clashing
unfolding add_one has_id gosnowflake.ContextCache.update_by_id
clash_arises = refl

-- The next new ID of that priority is then stored twice.
stored_twice :
    add_one (entry (pos 3) (pos 12) (pos 2)) clashing
    ≡ entry (pos 3) (pos 12) (pos 2) ∷ entry (pos 3) (pos 12) (pos 2) ∷ []
unfolding add_one has_id has_priority gosnowflake.ContextCache.update_by_priority
stored_twice = refl

add_keeps_first_example :
    (kept : Cache) × (dropped : Cache) × (add insertion_sort
        (pos 1)
        (entry (pos 3) (pos 12) (pos 0) ∷ [])
        two_entries
      ≡ some kept)
    × IsSorted (kept ++ dropped)
    × Perm (kept ++ dropped) (add_all (entry (pos 3) (pos 12) (pos 0) ∷ []) two_entries)
    × (length kept ≤ 1)
    × ((dropped ≡ []) ⊎ (length kept ≡ 1))
add_keeps_first_example =
    add_keeps_first insertion_sort 1 (entry (pos 3) (pos 12) (pos 0)) [] two_entries
      insertion_sort-IsSort

add_panics_example :
    ((add insertion_sort (negsuc 0) two_entries [] ≡ none)
      ↔ ((two_entries ≢ []) × (negsuc 0 <ℤ pos 0)))
    × (add insertion_sort (negsuc 0) [] [] ≡ some [])
add_panics_example = add_panics insertion_sort (negsuc 0) two_entries []

add_one-All-IsFresh_example :
    All
      (IsFresh (entry (pos 1) (pos 11) (pos 2)))
      (add_one (entry (pos 1) (pos 11) (pos 2)) two_entries)
add_one-All-IsFresh_example = add_one-All-IsFresh (entry (pos 1) (pos 11) (pos 2)) two_entries

has_id-add_one_example :
    has_id (pos 3) (add_one (entry (pos 3) (pos 11) (pos 2)) two_entries) ≡ true
has_id-add_one_example = has_id-add_one (entry (pos 3) (pos 11) (pos 2)) two_entries

two_entries-IsDistinct : IsDistinct two_entries
unfolding count_id count_priority
two_entries-IsDistinct = record { ids = λ i. ground arith; priorities = λ p. ground arith }

unknown_three : has_id (pos 3) two_entries ≡ false
unfolding has_id
unknown_three = refl

add_one-IsDistinct_example : IsDistinct (add_one (entry (pos 3) (pos 12) (pos 2)) two_entries)
add_one-IsDistinct_example =
    add_one-IsDistinct (entry (pos 3) (pos 12) (pos 2)) two_entries (inl unknown_three)
      two_entries-IsDistinct

clashing_unknown : has_id (pos 3) clashing ≡ false
unfolding has_id
clashing_unknown = refl

clashing_taken : has_priority (pos 2) clashing ≡ true
unfolding has_priority
clashing_taken = refl

count_id-add_one_taken_example :
    count_id (pos 3) (add_one (entry (pos 3) (pos 12) (pos 2)) clashing)
    ≡ count_priority (pos 2) clashing
count_id-add_one_taken_example =
    count_id-add_one_taken (entry (pos 3) (pos 12) (pos 2)) clashing clashing_unknown clashing_taken
