-- ===== src/ContextCache/Bounds.antt =====
-- htap.go: what `add` keeps, and when it panics.
use mathlib.Core.List.{Perm}
use gosnowflake.Base.{
  ℕ, ◌≤◌, ◌≡◌, ◌≢◌, ◌↔◌, refl, List, [], ◌∷◌, ◌++◌, none, some, length, take, drop, ltb, arith,
  Bool-cases, inl, inr, ◌⊎◌, take-append-drop, length-take, append-nil,
}
use gosnowflake.Base.Int.{ℤ, pos, negsuc, ◌<ℤ◌}
use gosnowflake.ContextCache.{QueryContextEntry, Cache, add_all, prune, add, IsSorted, IsSort}

-- An entry list cut at the size, with what was cut off.
prune_split :
    (n : ℕ) (es : Cache)
    → (kept : Cache) × (dropped : Cache) × (prune (pos n) es ≡ some kept)
      × (kept ++ dropped ≡ es)
      × (length kept ≤ n)
      × ((dropped ≡ []) ⊎ (length kept ≡ n))
unfolding prune
prune_split n es = elim (Bool-cases (ltb n (length es))) [
  | inl long ↦ (
    take n es,
    drop n es,
    rw long,
    take-append-drop n es,
    ground (arith, length-take n es),
    inr (ground (arith, length-take n es)),
  )
  | inr fits ↦ (es, [], rw fits, append-nil es, ground arith, inl refl)
]

-- With a size that is not negative, an update with at least one entry succeeds, and what it keeps
-- are the first entries, at most `n` of them, of the merged entries in the order of their
-- priorities: nothing is lost but the dropped tail, and something is dropped only if `n` are kept.
pub add_keeps_first :
    (sort : Cache → Cache) (n : ℕ) (new : QueryContextEntry) (news : List QueryContextEntry)
    (es : Cache)
    → IsSort sort
    → (kept : Cache) × (dropped : Cache) × (add sort (pos n) (new ∷ news) es ≡ some kept)
      × IsSorted (kept ++ dropped)
      × Perm (kept ++ dropped) (add_all (new ∷ news) es)
      × (length kept ≤ n)
      × ((dropped ≡ []) ⊎ (length kept ≡ n))
unfolding add
add_keeps_first sort n new news es s =
    let (kept, dropped, runs, whole, short, full) =
      prune_split n (sort (add_all (new ∷ news) es)) in
    (kept, dropped, runs, rw whole (s.sort-IsSorted _), rw whole (s.sort-perm _), short, full)

add_none : (sort : Cache → Cache) (size : ℤ) (es : Cache) → add sort size [] es ≡ some []
unfolding add prune
add_none sort size [] = refl
add_none sort size (e ∷ es) = ground arith

-- `add` panics exactly if it has entries to merge and the configured size is negative; with no
-- entries it empties the cache whatever the size.
pub add_panics :
    (sort : Cache → Cache) (size : ℤ) (news : List QueryContextEntry) (es : Cache)
    → ((add sort size news es ≡ none) ↔ ((news ≢ []) × (size <ℤ pos 0)))
      × (add sort size [] es ≡ some [])
unfolding add prune
add_panics sort size [] es =
    ((λ h. cc (add_none sort size es), λ h. absurd (h.0 refl)), add_none sort size es)
add_panics sort (pos n) (new ∷ news) es =
    ((λ h. cc, λ h. absurd (omega arith)), add_none sort (pos n) es)
add_panics sort (negsuc n) (new ∷ news) es =
    ((λ h. (λ e. cc, omega arith), λ h. refl), add_none sort (negsuc n) es)
