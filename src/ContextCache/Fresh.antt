-- ===== src/ContextCache/Fresh.antt =====
-- htap.go: the entries under the ID of an update, after it.
use gosnowflake.Base.{
  ◌≡◌, refl, ◌≢◌, ◌⊎◌, inl, inr, true, false, [], ◌∷◌, ◌++◌, arith, ◌||◌, Bool-cases, All,
  All-append, if◌then◌else◌,
}
use gosnowflake.Base.Int.{ℤ, eqb_ℤ, ◌≤ℤ◌}
use gosnowflake.ContextCache.{
  QueryContextEntry, Cache, newer, update_by_id, has_id, update_by_priority, has_priority, add_one,
}

-- The entry has another ID, or is at least as recent as `new`.
abbrev pub IsFresh : QueryContextEntry → QueryContextEntry → Type 0
IsFresh new e = (e.id ≢ new.id) ⊎ (new.timestamp ≤ℤ e.timestamp)

IsFresh-step :
    (new old : QueryContextEntry) → IsFresh new (if eqb_ℤ new.id old.id then newer new old else old)
IsFresh-step new old = elim (Bool-cases (eqb_ℤ new.id old.id)) [
  | inl same ↦ inr (ground arith)
  | inr other ↦ inl (λ h. ground arith)
]

update_by_id-All : (new : QueryContextEntry) (es : Cache) → All (IsFresh new) (update_by_id new es)
unfolding update_by_id
update_by_id-All new [] = tt
update_by_id-All new (old ∷ es) = (IsFresh-step new old, update_by_id-All new es)

absent-All :
    (new : QueryContextEntry) (es : Cache) → has_id new.id es ≡ false → All (IsFresh new) es
unfolding has_id
absent-All new [] h = tt
absent-All new (e ∷ es) h = (inl (λ i. ground arith), absent-All new es (ground arith))

IsFresh-over :
    (new old : QueryContextEntry)
    → eqb_ℤ new.id old.id ≡ false
    → IsFresh new (if eqb_ℤ new.priority old.priority then new else old)
IsFresh-over new old h = elim (Bool-cases (eqb_ℤ new.priority old.priority)) [
  | inl same ↦ inr (ground arith)
  | inr other ↦ inl (λ e. ground arith)
]

update_by_priority-All :
    (new : QueryContextEntry) (es : Cache)
    → has_id new.id es ≡ false
    → All (IsFresh new) (update_by_priority new es)
unfolding update_by_priority has_id
update_by_priority-All new [] h = tt
update_by_priority-All new (e ∷ es) h =
    (IsFresh-over new e (ground arith), update_by_priority-All new es (ground arith))

-- After one update every entry under the ID of the new entry is at least as recent as the new
-- entry, whatever the cache held.
pub add_one-All-IsFresh :
    (new : QueryContextEntry) (es : Cache) → All (IsFresh new) (add_one new es)
unfolding add_one
add_one-All-IsFresh new es = elim (Bool-cases (has_id new.id es)) [
  | inl known ↦ rw known (update_by_id-All new es)
  | inr absent ↦ rw absent (elim (Bool-cases (has_priority new.priority es)) [
    | inl taken ↦ rw taken (update_by_priority-All new es absent)
    | inr free ↦
        rw free (All-append _ es (new ∷ []) (absent-All new es absent) (inr (omega arith), tt))
  ])
]

has_id-update_by_id :
    (i : ℤ) (new : QueryContextEntry) (es : Cache) → has_id i (update_by_id new es) ≡ has_id i es
unfolding has_id update_by_id
has_id-update_by_id i new [] = refl
has_id-update_by_id i new (old ∷ es) = ground (arith, has_id-update_by_id i new es)

has_id-update_by_priority :
    (new : QueryContextEntry) (es : Cache)
    → has_priority new.priority es ≡ true
    → has_id new.id (update_by_priority new es) ≡ true
unfolding has_id update_by_priority has_priority
has_id-update_by_priority new [] h = cc
has_id-update_by_priority new (old ∷ es) h = ground (arith, has_id-update_by_priority new es)

has_id-append : (i : ℤ) (es fs : Cache) → has_id i (es ++ fs) ≡ (has_id i es || has_id i fs)
unfolding has_id
has_id-append i [] fs = refl
has_id-append i (e ∷ es) fs = ground (arith, has_id-append i es fs)

has_id_self : (new : QueryContextEntry) → has_id new.id (new ∷ []) ≡ true
unfolding has_id
has_id_self new = ground arith

-- After one update the cache has an entry under the ID of the new entry.
pub has_id-add_one : (new : QueryContextEntry) (es : Cache) → has_id new.id (add_one new es) ≡ true
unfolding add_one
has_id-add_one new es = elim (Bool-cases (has_id new.id es)) [
  | inl known ↦ rw known (rw has_id-update_by_id known)
  | inr absent ↦ rw absent (elim (Bool-cases (has_priority new.priority es)) [
    | inl taken ↦ rw taken (has_id-update_by_priority new es taken)
    | inr free ↦ rw free (rw has_id-append (ground (arith, has_id_self new)))
  ])
]
