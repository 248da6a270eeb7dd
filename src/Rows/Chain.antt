-- ===== src/Rows/Chain.antt =====
-- rows.go: the chain of downloaders, and the way along it.
use mathlib.Core.List.{map-append}
use gosnowflake.Base.{
  map, subst, ℕ, zero, suc, ◌+◌, ◌≡◌, refl, ◌≤◌, ◌∙◌, ap, sym, true, false, Bool, Option, none,
  some, List, [], ◌∷◌, ◌++◌, length, length-append, get_elem?, arith, ◌⊎◌, inl, inr, if_false, ◌==◌,
}
use gosnowflake.Base.Int.{pos, ltb_ℤ, ℤ}
use gosnowflake.Rows.{
  with_downloader, is_set, add_at, Rows, ResultSet, Result, gives, NextSet, ready, eof, fails,
  complete, add_downloader, add_behind, set_next, has_next_result_set, next_result_set_of,
  rows_has_next_result_set, next_result_set, next_set_from, with_current, after_wait,
  wait_for_async_query_status, wait_at, QueryStatus,
}

-- Every downloader but the last points to the one behind it, from an index on.
abbrev pub Linked : ℕ → List ResultSet → Type 0
Linked k [] = Unit {0}
Linked k (d ∷ []) = d.next_downloader ≡ none
Linked k (d ∷ d' ∷ ds) = (d.next_downloader ≡ some (suc k)) × Linked (suc k) (d' ∷ ds)

set_next-Linked :
    (k t next : ℕ) (ds : List ResultSet) (new : ResultSet)
    → Linked k ds
    → suc t ≡ length ds
    → next ≡ k + length ds
    → new.next_downloader ≡ none
    → Linked k (set_next t next ds ++ new ∷ [])
unfolding set_next
set_next-Linked k t next [] new l e n h = absurd (omega arith)
set_next-Linked k zero next (d ∷ []) new l e n h = (ap some (omega (arith, n)), h)
set_next-Linked k (suc t) next (d ∷ []) new l e n h = absurd (omega arith)
set_next-Linked k zero next (d ∷ d' ∷ ds) new l e n h = absurd (omega arith)
set_next-Linked k (suc zero) next (d ∷ d' ∷ ds) new l e n h =
    (l.0, set_next-Linked (suc k) zero next (d' ∷ ds) new l.1 (omega arith) (omega (arith, n)) h)
set_next-Linked k (suc (suc t)) next (d ∷ d' ∷ ds) new l e n h =
    (l.0, set_next-Linked (suc k) (suc t) next (d' ∷ ds) new l.1 (omega arith) (omega (arith, n)) h)

length-set_next : (t next : ℕ) (ds : List ResultSet) → length (set_next t next ds) ≡ length ds
unfolding set_next
length-set_next t next [] = refl
length-set_next zero next (d ∷ ds) = refl
length-set_next (suc t) next (d ∷ ds) = ap suc (length-set_next t next ds)

-- There is no downloader, or the first pointer is at one of them and the tail is the last.
abbrev PointsInto : List ResultSet → Option ℕ → Option ℕ → Type 0
PointsInto ds c t =
    ((ds ≡ []) × (c ≡ none))
    ⊎ ((i : ℕ) × (j : ℕ) × (c ≡ some i) × (suc i ≤ length ds) × (t ≡ some j) × (suc j ≡ length ds))

abbrev pub without_next : ResultSet → ResultSet
without_next d = record d { next_downloader = none }

set_next-contents :
    (t next : ℕ) (ds : List ResultSet) → map without_next (set_next t next ds) ≡ map without_next ds
unfolding set_next
set_next-contents t next [] = refl
set_next-contents zero next (d ∷ ds) = refl
set_next-contents (suc t) next (d ∷ ds) = ap (◌∷◌ (without_next d)) (set_next-contents t next ds)

module _ {Error : Type 0} where
  pub record IsLinked (rows : Rows Error) : Type 0 where
    pub linked : Linked 0 rows.downloaders
    pub pointers : PointsInto rows.downloaders rows.chunk_downloader rows.tail_chunk_downloader

  -- A downloader that is added, and the chain after it.
  abbrev pub Added : Rows Error → Option (Rows Error) → Type 0
  Added rows none = ⊥
  Added rows (some rows') =
      IsLinked rows' × (length rows'.downloaders ≡ suc (length rows.downloaders))

  pub add_downloader-IsLinked :
      (new : ResultSet) (rows : Rows Error)
      → new.next_downloader ≡ none
      → IsLinked rows
      → Added rows (add_downloader new rows)
  unfolding add_downloader add_at add_behind
  add_downloader-IsLinked new rows h w = elim w.pointers [
    | inl (e, c) ↦
        let alone : rows.downloaders ++ new ∷ [] ≡ new ∷ [] =
          ap (λ (ds : List ResultSet). ds ++ new ∷ []) e in
        let empty : length rows.downloaders ≡ 0 = ap length e in
        let one : length (rows.downloaders ++ new ∷ []) ≡ 1 = ap length alone in
        subst (λ (c : Option ℕ). Added rows (add_at new rows c)) (sym c)
          (
            record {
              linked = subst (Linked 0) (sym alone) h;
              pointers = inr (
                length rows.downloaders,
                length rows.downloaders,
                refl,
                omega (arith, one, empty),
                refl,
                omega (arith, one, empty),
              );
            },
            omega (arith, one, empty),
          )
    | inr (i, j, c, le, t, last) ↦
        let n = length rows.downloaders in
        let many : length (set_next j n rows.downloaders ++ new ∷ []) ≡ suc n = omega (
          arith,
          length-append {0} (set_next j n rows.downloaders) (new ∷ []),
          length-set_next j n rows.downloaders,
        ) in
        subst (λ (c : Option ℕ). Added rows (add_at new rows c)) (sym c)
          (subst (λ (t : Option ℕ). Added rows (add_behind new rows t)) (sym t)
            (
              record {
                linked = set_next-Linked 0 j n rows.downloaders new w.linked last (omega arith) h;
                pointers = inr (i, n, c, omega (arith, many, le), refl, omega (arith, many));
              },
              many,
            ))
  ]

  -- The downloaders, apart from where they point to.
  abbrev pub contents : Rows Error → List ResultSet
  contents rows = map without_next rows.downloaders

  -- A downloader is added behind those that are there.
  abbrev pub Appended : ResultSet → Rows Error → Option (Rows Error) → Type 0
  Appended new rows none = Unit {0}
  Appended new rows (some rows') = contents rows' ≡ contents rows ++ without_next new ∷ []

  pub add_downloader-Appended :
      (new : ResultSet) (rows : Rows Error) → Appended new rows (add_downloader new rows)
  unfolding add_downloader add_at add_behind
  add_downloader-Appended new rows = at rows.chunk_downloader
    where
      behind : (t : Option ℕ) → Appended new rows (add_behind new rows t)
      behind none = tt
      behind (some j) =
          map-append without_next (set_next j (length rows.downloaders) rows.downloaders) (new ∷ [])
          ∙ ap (λ (ds : List ResultSet). ds ++ without_next new ∷ [])
              (set_next-contents j (length rows.downloaders) rows.downloaders)

      at : (c : Option ℕ) → Appended new rows (add_at new rows c)
      at none = map-append without_next rows.downloaders (new ∷ [])
      at (some i) = behind rows.tail_chunk_downloader

  -- The query is over, and the current downloader is at an index.
  pub record IsAt (i : ℕ) (d : ResultSet) (rows : Rows Error) : Type 0 where
    pub over : rows.status ≡ complete
    pub current : rows.chunk_downloader ≡ some i
    pub there : get_elem? rows.downloaders i ≡ some d

  pub with_current-at :
      {A : Type 0} (i : ℕ) (d : ResultSet) (rows : Rows Error) (f : ResultSet → Result Error A)
      → IsAt i d rows
      → with_current rows rows.chunk_downloader f ≡ f d
  with_current-at i d rows f w =
      ap (λ (p : Option ℕ). with_current rows p f) w.current
      ∙ ap (λ (o : Option ResultSet). with_downloader o f) w.there

  pub after_wait-over :
      {A : Type 0} (i : ℕ) (d : ResultSet) (rows : Rows Error) (at_error : Error → A)
      (f : Rows Error → Result Error A)
      → IsAt i d rows
      → after_wait at_error f (wait_for_async_query_status rows) ≡ f rows
  unfolding after_wait wait_for_async_query_status wait_at
  after_wait-over i d rows at_error f w =
      ap (λ (s : QueryStatus). after_wait at_error f (wait_at s rows.err_channel rows)) w.over

  -- After the last chunk of a result set that has chunks, at a query that is over,
  -- `HasNextResultSet` says that there is another result set if there is another downloader, but
  -- `NextResultSet` returns `io.EOF` and stays where it is.
  pub next_result_set-stays :
      (start : ResultSet → ResultSet × Option Error) (rows : Rows Error) (i j : ℕ) (d : ResultSet)
      → IsAt i d rows
      → 1 ≤ d.chunk_metas
      → d.current_chunk_index ≡ pos d.chunk_metas
      → d.next_downloader ≡ some j
      → (rows_has_next_result_set rows ≡ gives true rows)
        × (next_result_set start rows ≡ gives eof rows)
  unfolding rows_has_next_result_set next_result_set has_next_result_set next_set_from
      next_result_set_of
  next_result_set-stays start rows i j d w some_chunks at_end behind =
      let chunks : (d.chunk_metas == 0) ≡ false = ground arith in
      let past : ltb_ℤ d.current_chunk_index (pos d.chunk_metas) ≡ false =
        ap (λ (n : ℤ). ltb_ℤ n (pos d.chunk_metas)) at_end ∙ (ground arith) in
      let next : is_set d.next_downloader ≡ true = ap is_set behind in
      (
        after_wait-over i d rows (λ e. false) _ w
            ∙ with_current-at i d rows _ w
            ∙ ap (λ (b : Bool). gives b rows) (ground (arith, next, chunks, past)),
        after_wait-over i d rows fails _ w
            ∙ with_current-at i d rows _ w
            ∙ if_false {b = d.chunk_metas == 0} _ _ chunks
            ∙ ap (λ (n : NextSet Error). gives n rows)
                (if_false {b = ltb_ℤ d.current_chunk_index (pos d.chunk_metas)} ready eof past),
      )
