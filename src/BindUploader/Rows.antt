-- ===== src/BindUploader/Rows.antt =====
-- bind_uploader.go: `buildRowsAsBytes` transposes the columns.
use gosnowflake.Base.{
  ◌≡◌, refl, List, ℕ, Option, none, All, get_elem?, length, ◌≤◌, ◌∷◌, suc, map, ◌++◌, if◌then◌else◌,
  [], arith, ltb, length-append, ◌-◌, ◌==◌, zero, some, Bool-cases, inl, inr, ◌∙◌, ◌≢◌, ◌+◌,
}
use gosnowflake.Base.Text.{Bytes}
use gosnowflake.BindUploader.{
  Row, Column, cells, ok, err, column_mismatch, first_cells, add_cells, fill_columns, build_rows,
}

-- The cell of a list of lists, `none` where either index is out of range.
abbrev pub entry : {A : Type 0} → List (List A) → ℕ → ℕ → Option A
entry [] i j = none
entry (xs ∷ xss) zero j = get_elem? xs j
entry (xs ∷ xss) (suc i) j = entry xss i j

-- Every row has so many cells.
abbrev IsWide : ℕ → List Row → Type 0
IsWide k = All (λ row. length row ≡ k)

get_elem?-append :
    (row : Row) (c : Option Bytes) (i : ℕ)
    → get_elem? (row ++ c ∷ []) i
      ≡ (if ltb i (length row) then get_elem? row i else if i == length row then some c else none)
get_elem?-append [] c zero = refl
get_elem?-append [] c (suc i) = ground arith
get_elem?-append (x ∷ row) c zero = ground arith
get_elem?-append (x ∷ row) c (suc i) = ground (arith, get_elem?-append row c i)

get_elem?-none : {A : Type 0} (xs : List A) (i : ℕ) → length xs ≤ i → get_elem? xs i ≡ none
get_elem?-none [] i h = refl
get_elem?-none (x ∷ xs) zero h = absurd (omega arith)
get_elem?-none (x ∷ xs) (suc i) h = get_elem?-none xs i (omega arith)

entry-add_cells :
    (rows : List Row) (cs : List (Option Bytes)) (k r c : ℕ)
    → IsWide k rows
    → length cs ≡ length rows
    → entry (add_cells rows cs) r c
      ≡ (if ltb c k then entry rows r c else if c == k then get_elem? cs r else none)
unfolding add_cells
entry-add_cells [] [] k r c w h = ground arith
entry-add_cells [] (x ∷ cs) k r c w h = absurd (omega arith)
entry-add_cells (row ∷ rows) [] k r c w h = absurd (omega arith)
entry-add_cells (row ∷ rows) (x ∷ cs) k zero c w h = rw (← w.0) (get_elem?-append row x c)
entry-add_cells (row ∷ rows) (x ∷ cs) k (suc r) c w h =
    entry-add_cells rows cs k r c w.1 (omega arith)

add_cells-IsWide :
    (rows : List Row) (cs : List (Option Bytes)) (k : ℕ)
    → IsWide k rows
    → length cs ≡ length rows
    → IsWide (suc k) (add_cells rows cs) × (length (add_cells rows cs) ≡ length rows)
unfolding add_cells
add_cells-IsWide [] cs k w h = (tt, refl)
add_cells-IsWide (row ∷ rows) [] k w h = absurd (omega arith)
add_cells-IsWide (row ∷ rows) (x ∷ cs) k w h =
    let ih = add_cells-IsWide rows cs k w.1 (omega arith) in
    ((omega (arith, w.0, length-append {0} row (x ∷ [])), ih.0), omega (arith, ih.1))

entry_wide : (rows : List Row) (k r c : ℕ) → IsWide k rows → k ≤ c → entry rows r c ≡ none
entry_wide [] k r c w h = refl
entry_wide (row ∷ rows) k zero c w h = get_elem?-none row c (omega (arith, w.0))
entry_wide (row ∷ rows) k (suc r) c w h = entry_wide rows k r c w.1 h

abbrev Columns : Type 0
Columns = List (List (Option Bytes))

-- Every column has so many cells.
abbrev pub IsTall : ℕ → Columns → Type 0
IsTall n = All (λ cs. length cs ≡ n)

entry_from :
    (cs : List (Option Bytes)) (css : Columns) (k c r : ℕ)
    → k ≤ c
    → entry (cs ∷ css) (c - k) r ≡ (if c == k then get_elem? cs r else entry css (c - suc k) r)
entry_from cs css k c r h = elim (Bool-cases (c == k)) [
  | inl e ↦ rw e (let z : c - k ≡ 0 = ground arith in rw z refl)
  | inr n ↦ rw n (let z : c - k ≡ suc (c - suc k) = ground arith in rw z refl)
]

fill_columns_lem :
    (css : Columns) (n k : ℕ) (rows : List Row)
    → IsTall n css
    → length rows ≡ n
    → IsWide k rows
    → (rows' : List Row) × (fill_columns n k (map cells css) rows ≡ ok rows')
      × (length rows' ≡ n)
      × ((r c : ℕ) → entry rows' r c ≡ (if ltb c k then entry rows r c else entry css (c - k) r))
unfolding fill_columns
fill_columns_lem [] n k rows t h w = (
  rows,
  refl,
  h,
  λ r c. elim (Bool-cases (ltb c k)) [
    | inl low ↦ rw low
    | inr high ↦ rw high (entry_wide rows k r c w (ground arith))
  ],
)
fill_columns_lem (cs ∷ css) n k rows t h w =
    let (w', h') = add_cells-IsWide rows cs k w (omega (arith, t.0)) in
    let (rows', runs, l, e) =
      fill_columns_lem css n (suc k) (add_cells rows cs) t.1 (omega (arith, h', h)) w' in
    (
      rows',
      ground (arith, t.0, runs),
      l,
      λ r c. ground (
        arith,
        e r c,
        entry-add_cells rows cs k r c w (omega (arith, t.0)),
        entry_from cs css k c r,
      ),
    )

first_cells_lem :
    (cs : List (Option Bytes))
    → (length (first_cells cs) ≡ length cs)
      × IsWide 1 (first_cells cs)
      × ((r : ℕ) → entry (first_cells cs) r 0 ≡ get_elem? cs r)
unfolding first_cells
first_cells_lem [] = (refl, tt, λ r. refl)
first_cells_lem (c ∷ cs) =
    let (l, w, e) = first_cells_lem cs in
    (omega (arith, l), (refl, w), elim [ zero ↦ refl | suc r ↦ e r ])

-- Columns of one length become that many rows, and the cell of row `r` and column `c` is the cell
-- `r` of the column `c`, with none out of range on either side.
pub build_rows_transposes :
    (cs : List (Option Bytes)) (css : Columns)
    → IsTall (length cs) css
    → (rows : List Row) × (build_rows (map cells (cs ∷ css)) ≡ ok rows)
      × (length rows ≡ length cs)
      × ((r c : ℕ) → entry rows r c ≡ entry (cs ∷ css) c r)
unfolding build_rows
build_rows_transposes cs css t =
    let (l, w, e) = first_cells_lem cs in
    let (rows, runs, l', e') = fill_columns_lem css (length cs) 1 (first_cells cs) t l w in
    (
      rows,
      runs,
      l',
      λ r. elim [
        | zero ↦ e' r 0 ∙ e r
        | suc c ↦
            ground
              (arith, e' r (suc c), entry_from cs css 0 (suc c) r, entry_from cs css 1 (suc c) r)
      ],
    )

fill_columns_mismatch :
    (css : Columns) (bad : List (Option Bytes)) (more : List Column) (n k : ℕ) (rows : List Row)
    → IsTall n css
    → length bad ≢ n
    → fill_columns n k (map cells css ++ cells bad ∷ more) rows
      ≡ err (column_mismatch (k + length css) (length bad) n)
unfolding fill_columns
fill_columns_mismatch [] bad more n k rows t h = ground arith
fill_columns_mismatch (cs ∷ css) bad more n k rows t h =
    ground (arith, t.0, fill_columns_mismatch css bad more n (suc k) (add_cells rows cs) t.1 h)

-- The first column whose length differs is reported by its index from 0, with its length and the number
-- of rows, whatever columns follow it.
pub build_rows_mismatch :
    (cs : List (Option Bytes)) (css : Columns) (bad : List (Option Bytes)) (more : List Column)
    → IsTall (length cs) css
    → length bad ≢ length cs
    → build_rows (map cells (cs ∷ css) ++ cells bad ∷ more)
      ≡ err (column_mismatch (length (cs ∷ css)) (length bad) (length cs))
unfolding build_rows
build_rows_mismatch cs css bad more t h =
    ground (arith, fill_columns_mismatch css bad more (length cs) 1 (first_cells cs) t h)
