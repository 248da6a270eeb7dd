-- ===== src/ContextCache/Distinct.antt =====
-- htap.go: when the cache keeps one entry to an ID and to a priority, and when it does not.
use gosnowflake.Base.{
  ℕ, ◌+◌, ◌≤◌, ◌≡◌, ◌≢◌, refl, ◌⊎◌, false, [], ◌∷◌, ◌++◌, arith, All, if◌then◌else◌, Bool-cases,
  inl, true, inr,
}
use gosnowflake.Base.Int.{ℤ, eqb_ℤ, eq_of_parts}
use gosnowflake.ContextCache.{
  QueryContextEntry, Cache, update_by_id, has_id, update_by_priority, has_priority, add_one,
}

-- How many entries have the ID.
unfoldable pub count_id : ℤ → Cache → ℕ
count_id i [] = 0
count_id i (e ∷ es) = (if eqb_ℤ i e.id then 1 else 0) + count_id i es

-- How many entries have the priority.
unfoldable pub count_priority : ℤ → Cache → ℕ
count_priority p [] = 0
count_priority p (e ∷ es) = (if eqb_ℤ p e.priority then 1 else 0) + count_priority p es

count_id-absent : (i : ℤ) (es : Cache) → has_id i es ≡ false → count_id i es ≡ 0
unfolding count_id has_id
count_id-absent i [] h = refl
count_id-absent i (e ∷ es) h = ground (arith, count_id-absent i es)

count_priority-absent : (p : ℤ) (es : Cache) → has_priority p es ≡ false → count_priority p es ≡ 0
unfolding count_priority has_priority
count_priority-absent p [] h = refl
count_priority-absent p (e ∷ es) h = ground (arith, count_priority-absent p es)

count_id-append : (i : ℤ) (es fs : Cache) → count_id i (es ++ fs) ≡ count_id i es + count_id i fs
unfolding count_id
count_id-append i [] fs = omega arith
count_id-append i (e ∷ es) fs = omega (arith, count_id-append i es fs)

count_priority-append :
    (p : ℤ) (es fs : Cache)
    → count_priority p (es ++ fs) ≡ count_priority p es + count_priority p fs
unfolding count_priority
count_priority-append p [] fs = omega arith
count_priority-append p (e ∷ es) fs = omega (arith, count_priority-append p es fs)

count_id-update_by_id :
    (i : ℤ) (new : QueryContextEntry) (es : Cache)
    → count_id i (update_by_id new es) ≡ count_id i es
unfolding count_id update_by_id
count_id-update_by_id i new [] = refl
count_id-update_by_id i new (old ∷ es) = ground (arith, count_id-update_by_id i new es)

count_priority-update_by_priority :
    (p : ℤ) (new : QueryContextEntry) (es : Cache)
    → count_priority p (update_by_priority new es) ≡ count_priority p es
unfolding count_priority update_by_priority
count_priority-update_by_priority p new [] = refl
count_priority-update_by_priority p new (old ∷ es) =
    ground (arith, count_priority-update_by_priority p new es)

count_id-update_by_priority :
    (new : QueryContextEntry) (es : Cache)
    → has_id new.id es ≡ false
    → count_id new.id (update_by_priority new es) ≡ count_priority new.priority es
unfolding count_id count_priority update_by_priority has_id
count_id-update_by_priority new [] h = refl
count_id-update_by_priority new (old ∷ es) h = ground (arith, count_id-update_by_priority new es)

count_id-update_by_priority_other :
    (i : ℤ) (new : QueryContextEntry) (es : Cache)
    → i ≢ new.id
    → count_id i (update_by_priority new es) ≤ count_id i es
unfolding count_id update_by_priority
count_id-update_by_priority_other i new [] h = omega arith
count_id-update_by_priority_other i new (old ∷ es) h =
    ground (arith, count_id-update_by_priority_other i new es h, eq_of_parts i new.id)

-- No entry of another ID has the priority of `new`.
abbrev pub IsFree : QueryContextEntry → Cache → Type 0
IsFree new es = All (λ e. (e.priority ≢ new.priority) ⊎ (e.id ≡ new.id)) es

count_priority-update_by_id :
    (new : QueryContextEntry) (es : Cache)
    → IsFree new es
    → count_priority new.priority (update_by_id new es) ≤ count_id new.id es
unfolding count_id count_priority update_by_id
count_priority-update_by_id new [] h = omega arith
count_priority-update_by_id new (old ∷ es) h = ground (
  arith,
  count_priority-update_by_id new es h.1,
  eq_of_parts old.priority new.priority,
  eq_of_parts old.id new.id,
)

count_priority-update_by_id_other :
    (p : ℤ) (new : QueryContextEntry) (es : Cache)
    → p ≢ new.priority
    → count_priority p (update_by_id new es) ≤ count_priority p es
unfolding count_priority update_by_id
count_priority-update_by_id_other p new [] h = omega arith
count_priority-update_by_id_other p new (old ∷ es) h =
    ground (arith, count_priority-update_by_id_other p new es h, eq_of_parts p new.priority)

-- One entry at most to each ID and to each priority.
pub record IsDistinct (es : Cache) : Type 0 where
  pub ids : (i : ℤ) → count_id i es ≤ 1
  pub priorities : (p : ℤ) → count_priority p es ≤ 1

known-IsDistinct :
    (new : QueryContextEntry) (es : Cache)
    → IsFree new es
    → IsDistinct es
    → IsDistinct (update_by_id new es)
known-IsDistinct new es f d = record {
  ids = λ i. omega (arith, count_id-update_by_id i new es, d.ids i);
  priorities = λ p. elim (Bool-cases (eqb_ℤ p new.priority)) [
    | inl same ↦
        rw (eq_of_parts p new.priority (ground arith))
          (omega (arith, count_priority-update_by_id new es f, d.ids new.id))
    | inr other ↦
        omega
          (arith, count_priority-update_by_id_other p new es (λ e. ground arith), d.priorities p)
  ];
}

taken-IsDistinct :
    (new : QueryContextEntry) (es : Cache)
    → has_id new.id es ≡ false
    → IsDistinct es
    → IsDistinct (update_by_priority new es)
taken-IsDistinct new es absent d = record {
  ids = λ i. elim (Bool-cases (eqb_ℤ i new.id)) [
    | inl same ↦
        rw (eq_of_parts i new.id (ground arith))
          (omega (arith, count_id-update_by_priority new es absent, d.priorities new.priority))
    | inr other ↦
        omega (arith, count_id-update_by_priority_other i new es (λ e. ground arith), d.ids i)
  ];
  priorities = λ p. omega (arith, count_priority-update_by_priority p new es, d.priorities p);
}

count_one :
    (i p : ℤ) (new : QueryContextEntry)
    → (count_id i (new ∷ []) ≡ (if eqb_ℤ i new.id then 1 else 0))
      × (count_priority p (new ∷ []) ≡ (if eqb_ℤ p new.priority then 1 else 0))
unfolding count_id count_priority
count_one i p new = (omega arith, omega arith)

absent-IsDistinct :
    (new : QueryContextEntry) (es : Cache)
    → has_id new.id es ≡ false
    → has_priority new.priority es ≡ false
    → IsDistinct es
    → IsDistinct (es ++ new ∷ [])
absent-IsDistinct new es no_id no_priority d = record {
  ids = λ i. elim (Bool-cases (eqb_ℤ i new.id)) [
    | inl same ↦ rw (eq_of_parts i new.id (ground arith)) (
        ground (
          arith,
          count_id-append new.id es (new ∷ []),
          (count_one new.id new.priority new).0,
          count_id-absent new.id es no_id,
        ))
    | inr other ↦
        ground (arith, count_id-append i es (new ∷ []), (count_one i new.priority new).0, d.ids i)
  ];
  priorities = λ p. elim (Bool-cases (eqb_ℤ p new.priority)) [
    | inl same ↦ rw (eq_of_parts p new.priority (ground arith)) (
        ground (
          arith,
          count_priority-append new.priority es (new ∷ []),
          (count_one new.id new.priority new).1,
          count_priority-absent new.priority es no_priority,
        ))
    | inr other ↦
        ground
          (arith, count_priority-append p es (new ∷ []), (count_one new.id p new).1, d.priorities p)
  ];
}

unknown-IsDistinct :
    (new : QueryContextEntry) (es : Cache)
    → has_id new.id es ≡ false
    → IsDistinct es
    → IsDistinct (add_one new es)
unfolding add_one
unknown-IsDistinct new es absent d = rw absent (elim (Bool-cases (has_priority new.priority es)) [
  | inl taken ↦ rw taken (taken-IsDistinct new es absent d)
  | inr free ↦ rw free (absent-IsDistinct new es absent free d)
])

-- An update whose priority no other ID holds keeps one entry to each ID and to each priority; for
-- an ID that the cache does not hold the priority may also be taken.
pub add_one-IsDistinct :
    (new : QueryContextEntry) (es : Cache)
    → (has_id new.id es ≡ false) ⊎ IsFree new es
    → IsDistinct es
    → IsDistinct (add_one new es)
unfolding add_one
add_one-IsDistinct new es (inl absent) d = unknown-IsDistinct new es absent d
add_one-IsDistinct new es (inr f) d = elim (Bool-cases (has_id new.id es)) [
  | inl known ↦ rw known (known-IsDistinct new es f d)
  | inr absent ↦ unknown-IsDistinct new es absent d
]

-- An entry of an ID that the cache does not hold is stored once for every entry of its priority
-- that the cache holds, so two entries of one priority turn into two entries of one ID.
pub count_id-add_one_taken :
    (new : QueryContextEntry) (es : Cache)
    → has_id new.id es ≡ false
    → has_priority new.priority es ≡ true
    → count_id new.id (add_one new es) ≡ count_priority new.priority es
unfolding add_one
count_id-add_one_taken new es absent taken =
    rw absent (rw taken (count_id-update_by_priority new es absent))
