-- ===== src/Rows/Walk.antt =====
-- rows.go: the way along a chain of result sets that have no chunks.
use gosnowflake.Base.{
  ℕ, zero, suc, ◌+◌, ◌≡◌, refl, ◌<◌, ◌∙◌, ap, true, Option, none, some, List, [], ◌∷◌, length,
  get_elem?, arith, if_true, ◌==◌, All, replicate,
}
use gosnowflake.Base.Int.{pos, negsuc, ltb_ℤ, ℤ}
use gosnowflake.Rows.{
  with_downloader, after_start, Rows, ResultSet, Result, gives, blocks, panics, NextSet, ready, eof,
  fails, complete, next_result_set, next_set_from, move_on, set_at, next_result_set_of,
}
use gosnowflake.Rows.Chain.{Linked, IsAt, with_current-at, after_wait-over}

-- The downloader at an index of a chain, and where it points to.
at_index :
    (ds : List ResultSet) (k base : ℕ)
    → k < length ds
    → Linked base ds
    → All (λ (d : ResultSet). d.chunk_metas ≡ 0) ds
    → (d : ResultSet) × (get_elem? ds k ≡ some d)
      × (d.chunk_metas ≡ 0)
      × (suc k < length ds → d.next_downloader ≡ some (base + suc k))
      × (suc k ≡ length ds → d.next_downloader ≡ none)
at_index [] k base h l a = absurd (omega arith)
at_index (d ∷ []) zero base h l a = (d, refl, a.0, λ m. absurd (omega (arith, m)), λ m. l)
at_index (d ∷ []) (suc k) base h l a = absurd (omega arith)
at_index (d ∷ d' ∷ ds) zero base h l a =
    (d, refl, a.0, λ m. l.0 ∙ ap some (omega arith), λ m. absurd (omega (arith, m)))
at_index (d ∷ d' ∷ ds) (suc k) base h l a =
    let (x, there, no_chunks, inner, last) =
      at_index (d' ∷ ds) k (suc base) (omega arith) l.1 a.1 in
    (
      x,
      there,
      no_chunks,
      λ m. inner (omega (arith, m)) ∙ ap some (omega arith),
      λ m. last (omega (arith, m)),
    )

set_at-Linked :
    (ds : List ResultSet) (k base : ℕ) (d x : ResultSet)
    → get_elem? ds k ≡ some d
    → x.next_downloader ≡ d.next_downloader
    → Linked base ds
    → Linked base (set_at k x ds)
set_at-Linked [] k base d x e same l = tt
set_at-Linked (y ∷ []) zero base d x e same l = cc
set_at-Linked (y ∷ []) (suc k) base d x e same l = l
set_at-Linked (y ∷ z ∷ ds) zero base d x e same l = (cc, l.1)
set_at-Linked (y ∷ z ∷ ds) (suc zero) base d x e same l =
    (l.0, set_at-Linked (z ∷ ds) zero (suc base) d x e same l.1)
set_at-Linked (y ∷ z ∷ ds) (suc (suc k)) base d x e same l =
    (l.0, set_at-Linked (z ∷ ds) (suc k) (suc base) d x e same l.1)

length-set_at : (k : ℕ) (x : ResultSet) (ds : List ResultSet) → length (set_at k x ds) ≡ length ds
length-set_at k x [] = refl
length-set_at zero x (y ∷ ds) = refl
length-set_at (suc k) x (y ∷ ds) = ap suc (length-set_at k x ds)

All-set_at :
    (P : ResultSet → Type 0) (k : ℕ) (x : ResultSet) (ds : List ResultSet)
    → P x
    → All P ds
    → All P (set_at k x ds)
All-set_at P k x [] p a = tt
All-set_at P zero x (y ∷ ds) p a = (p, a.1)
All-set_at P (suc k) x (y ∷ ds) p a = (a.0, All-set_at P k x ds p a.1)

-- A downloader that is started is at its beginning, and otherwise as it was.
pub record Started (d x : ResultSet) : Type 0 where
  pub at_first : x.current_chunk_index ≡ negsuc 0
  pub same_chunks : x.chunk_metas ≡ d.chunk_metas
  pub same_next : x.next_downloader ≡ d.next_downloader

module _ {Error : Type 0} where
  -- The result sets of a query that is over are linked and have no chunks, and the current one is at
  -- an index of them.
  pub record InChain (i n : ℕ) (rows : Rows Error) : Type 0 where
    pub over : rows.status ≡ complete
    pub current : rows.chunk_downloader ≡ some i
    pub all : length rows.downloaders ≡ n
    pub linked : Linked 0 rows.downloaders
    pub no_chunks : All (λ (d : ResultSet). d.chunk_metas ≡ 0) rows.downloaders

  recast :
      {i n i' n' : ℕ} {rows : Rows Error} → InChain i n rows → i ≡ i' → n ≡ n' → InChain i' n' rows
  recast w e e' = record {
    over = w.over;
    current = w.current ∙ ap some e;
    all = w.all ∙ e';
    linked = w.linked;
    no_chunks = w.no_chunks;
  }

  module _ (start : ResultSet → ResultSet × Option Error) where
    -- An answer, and those of the calls that follow it.
    abbrev push :
        NextSet Error → Result Error (List (NextSet Error)) → Result Error (List (NextSet Error))
    push s (gives ss rows) = gives (s ∷ ss) rows
    push s blocks = blocks
    push s panics = panics

    abbrev then_call :
        (Rows Error → Result Error (List (NextSet Error)))
        → Result Error (NextSet Error)
        → Result Error (List (NextSet Error))
    then_call rest (gives s rows) = push s (rest rows)
    then_call rest blocks = blocks
    then_call rest panics = panics

    -- So many calls of `NextResultSet`.
    unfoldable pub next_result_sets : ℕ → Rows Error → Result Error (List (NextSet Error))
    next_result_sets zero rows = gives [] rows
    next_result_sets (suc k) rows = then_call (next_result_sets k) (next_result_set start rows)

    module _
        (starts : (d : ResultSet)
          → d.chunk_metas ≡ 0
          → (x : ResultSet) × (start d ≡ (x, none)) × Started d x) where
      move :
          (rows : Rows Error) (i n : ℕ)
          → InChain i n rows
          → suc i < n
          → (rows' : Rows Error) × (next_result_set start rows ≡ gives ready rows')
            × InChain (suc i) n rows'
      unfolding next_result_set next_set_from move_on after_start next_result_set_of
      move rows i n w m =
          let (d, there, no_chunks, inner, _) =
            at_index rows.downloaders i 0 (omega (arith, w.all)) w.linked w.no_chunks in
          let (d', there', no_chunks', _, _) =
            at_index rows.downloaders (suc i) 0 (omega (arith, w.all)) w.linked w.no_chunks in
          let (x, e, s) = starts d' no_chunks' in
          let is_at : IsAt i d rows = record {
            over = w.over;
            current = w.current;
            there = there;
          } in
          let empty : (d.chunk_metas == 0) ≡ true = ground (arith, no_chunks) in
          let left : ltb_ℤ x.current_chunk_index (pos x.chunk_metas) ≡ true =
            ap (λ (k : ℤ). ltb_ℤ k (pos x.chunk_metas)) s.at_first ∙ (ground arith) in
          let behind : d.next_downloader ≡ some (suc i) =
            inner (omega (arith, w.all)) ∙ ap some (omega arith) in
          (
            record rows {
              chunk_downloader = some (suc i);
              downloaders = set_at (suc i) x rows.downloaders;
            },
            after_wait-over i d rows fails _ is_at
                ∙ with_current-at i d rows _ is_at
                ∙ if_true {b = d.chunk_metas == 0} _ _ empty
                ∙ ap (λ (p : Option ℕ). move_on start p rows) behind
                ∙ ap
                    (λ (o : Option ResultSet).
                      with_downloader o (λ y. after_start start (suc i) rows (start y)))
                    there'
                ∙ ap (after_start start (suc i) rows) e
                ∙ ap
                    (λ (r : NextSet Error). gives r (record rows {
                      chunk_downloader = some (suc i);
                      downloaders = set_at (suc i) x rows.downloaders;
                    }))
                    (if_true {b = ltb_ℤ x.current_chunk_index (pos x.chunk_metas)} ready eof left),
            record {
              over = w.over;
              current = refl;
              all = length-set_at (suc i) x rows.downloaders ∙ w.all;
              linked = set_at-Linked rows.downloaders (suc i) 0 d' x there' s.same_next w.linked;
              no_chunks =
                  All-set_at (λ (y : ResultSet). y.chunk_metas ≡ 0) (suc i) x rows.downloaders
                    (s.same_chunks ∙ no_chunks') w.no_chunks;
            },
          )

      stop :
          (rows : Rows Error) (i n : ℕ)
          → InChain i n rows
          → suc i ≡ n
          → next_result_set start rows ≡ gives eof rows
      unfolding next_result_set next_set_from move_on
      stop rows i n w m =
          let (d, there, no_chunks, _, last) =
            at_index rows.downloaders i 0 (omega (arith, w.all)) w.linked w.no_chunks in
          let is_at : IsAt i d rows = record {
            over = w.over;
            current = w.current;
            there = there;
          } in
          let empty : (d.chunk_metas == 0) ≡ true = ground (arith, no_chunks) in
          after_wait-over i d rows fails _ is_at
          ∙ with_current-at i d rows _ is_at
          ∙ if_true {b = d.chunk_metas == 0} _ _ empty
          ∙ ap (λ (p : Option ℕ). move_on start p rows) (last (omega (arith, w.all)))

      -- If starting a downloader without chunks puts it at its beginning and keeps the one behind it,
      -- `NextResultSet` visits the result sets of a linked chain without chunks, at a query that is over:
      -- from the current one each call moves on to the next and is ready, up to the last, where the next
      -- call returns `io.EOF`.
      pub next_result_sets-visits :
          (k i : ℕ) (rows : Rows Error)
          → InChain i (i + suc k) rows
          → (rows' : Rows Error) × (next_result_sets k rows ≡ gives (replicate k ready) rows')
            × InChain (i + k) (i + suc k) rows'
            × (next_result_set start rows' ≡ gives eof rows')
      unfolding next_result_sets
      next_result_sets-visits zero i rows w =
          (rows, refl, recast w (omega arith) refl, stop rows i (i + suc zero) w (omega arith))
      next_result_sets-visits (suc k) i rows w =
          let (rows1, e, w1) = move rows i (i + suc (suc k)) w (omega arith) in
          let (rows2, visits, w2, ends) =
            next_result_sets-visits k (suc i) rows1 (recast w1 refl (omega arith)) in
          (
            rows2,
            ap (then_call (next_result_sets k)) e ∙ ap (push ready) visits,
            recast w2 (omega arith) (omega arith),
            ends,
          )
