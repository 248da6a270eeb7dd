-- ===== src/Rows/Columns.antt =====
-- rows.go: the guard of the columns' indices.
use gosnowflake.Base.{
  subst, sym, ℕ, zero, suc, ◌≡◌, ◌≢◌, refl, ◌≤◌, ◌∙◌, ap, true, false, Option, none, some, List, [],
  ◌∷◌, length, get_elem?, arith, if_false, ltb, if_cases, subst, sym,
}
use gosnowflake.Base.Int.{pos, negsuc, ℤ}
use gosnowflake.Rows.{
  Rows, ResultSet, Result, gives, blocks, panics, Column, guarded_column, column_or_panic,
  on_column, column_type_length, column_type_nullable, column_type_precision_scale, length_of,
  precision_scale_of,
}
use gosnowflake.Rows.Chain.{IsAt, after_wait-over, with_current-at}

get_elem?-length : {A : Type 0} (xs : List A) → get_elem? xs (length xs) ≡ none
get_elem?-length [] = refl
get_elem?-length (x ∷ xs) = get_elem?-length xs

get_elem?-below :
    {A : Type 0} (xs : List A) (i : ℕ) → suc i ≤ length xs → (x : A) × (get_elem? xs i ≡ some x)
get_elem?-below [] i h = absurd (omega arith)
get_elem?-below (x ∷ xs) zero h = (x, refl)
get_elem?-below (x ∷ xs) (suc i) h = get_elem?-below xs i (omega arith)

module _ {Error : Type 0} where
  -- The call returns.
  abbrev pub Answers : {A : Type 0} → Result Error A → Type 0
  Answers (gives a rows) = Unit {0}
  Answers blocks = ⊥
  Answers panics = ⊥

  module _ (i : ℕ) (d : ResultSet) (rows : Rows Error) (w : IsAt i d rows) where
    on_column-at :
        {A : Type 0} (index : ℤ) (refused : A) (f : Column → A)
        → on_column index refused f rows ≡ guarded_column index refused f rows d
    unfolding on_column
    on_column-at index refused f =
        after_wait-over i d rows (λ e. refused) _ w
        ∙ with_current-at i d rows (guarded_column index refused f rows) w

    on_column-panics :
        {A : Type 0} (refused : A) (f : Column → A)
        → on_column (pos (length d.row_type)) refused f rows ≡ panics
    unfolding guarded_column column_or_panic
    on_column-panics refused f =
        on_column-at (pos (length d.row_type)) refused f
        ∙ if_false {b = ltb (length d.row_type) (length d.row_type)} _ _ (ground arith)
        ∙ ap (column_or_panic f rows) (get_elem?-length d.row_type)

    guarded_column-Answers :
        {A : Type 0} (index : ℤ) (refused : A) (f : Column → A)
        → index ≢ pos (length d.row_type)
        → Answers (guarded_column index refused f rows d)
    unfolding guarded_column column_or_panic
    guarded_column-Answers (negsuc k) refused f ne = tt
    guarded_column-Answers (pos k) refused f ne =
        if_cases Answers (ltb (length d.row_type) k) _ _ (λ e. tt)
          (λ e. found (get_elem?-below d.row_type k (below e (λ same. ne (ap pos same)))))
      where
        below :
            ltb (length d.row_type) k ≡ false → k ≢ length d.row_type → suc k ≤ length d.row_type
        below e other = ground (arith, other)

        found :
            (c : Column) × (get_elem? d.row_type k ≡ some c)
            → Answers (column_or_panic f rows (get_elem? d.row_type k))
        found (c, there) =
            subst (λ (o : Option Column). Answers (column_or_panic f rows o)) (sym there) tt

    -- At a query that is over, the three methods that look at the type of a column panic for the
    -- index that is the number of columns.
    pub column_types-panic :
        (column_type_length (pos (length d.row_type)) rows ≡ panics)
        × (column_type_nullable (pos (length d.row_type)) rows ≡ panics)
        × (column_type_precision_scale (pos (length d.row_type)) rows ≡ panics)
    unfolding column_type_length column_type_nullable column_type_precision_scale
    column_types-panic = (
      on_column-panics (0, false) length_of,
      on_column-panics (false, false) (λ c. (c.nullable, true)),
      on_column-panics (0, 0, false) precision_scale_of,
    )

    -- At a query that is over, the three methods that look at the type of a column return for every
    -- other index, a negative one included.
    pub column_types-Answers :
        (index : ℤ)
        → index ≢ pos (length d.row_type)
        → Answers (column_type_length index rows)
          × Answers (column_type_nullable index rows)
          × Answers (column_type_precision_scale index rows)
    unfolding column_type_length column_type_nullable column_type_precision_scale
    column_types-Answers index ne = (
      answers (0, false) length_of,
      answers (false, false) (λ c. (c.nullable, true)),
      answers (0, 0, false) precision_scale_of,
    )
      where
        answers :
            {A : Type 0} (refused : A) (f : Column → A) → Answers (on_column index refused f rows)
        answers refused f =
            subst Answers (sym (on_column-at index refused f))
              (guarded_column-Answers index refused f ne)
