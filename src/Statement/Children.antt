-- ===== src/Statement/Children.antt =====
-- multistatement.go: the identifiers and types of the statements.
use gosnowflake.Base.{
  append-nil, map, if◌then◌else◌, ℕ, suc, ◌≡◌, ◌≢◌, refl, ◌≤◌, ◌∙◌, ap, sym, none, some, List, [],
  ◌∷◌, ◌++◌, length, All, arith, if_true, if_false, ◌==◌, false, true,
}
use gosnowflake.Base.Text.{Bytes, split}
use gosnowflake.Statement.{ChildResult, pair_types, get_child_results}

-- Texts with a byte between them.
unfoldable pub join : ℕ → List Bytes → Bytes
join c [] = []
join c (x ∷ []) = x
join c (x ∷ y ∷ xs) = x ++ c ∷ join c (y ∷ xs)

-- A text without a byte.
abbrev pub Lacks : ℕ → Bytes → Type 0
Lacks c = All (λ x. x ≢ c)

-- A text put before the first of others.
abbrev put_first : Bytes → List Bytes → List Bytes
put_first xs [] = []
put_first xs (w ∷ ws) = (xs ++ w) ∷ ws

-- What `split` does with a byte before the rest.
abbrev split_byte : ℕ → ℕ → List Bytes → List Bytes
split_byte c x [] = []
split_byte c x (w ∷ ws) = if x == c then [] ∷ w ∷ ws else (x ∷ w) ∷ ws

split-cons : (c x : ℕ) (xs : Bytes) → split c (x ∷ xs) ≡ split_byte c x (split c xs)
unfolding split
split-cons c x xs = at (split c xs)
  where
    at :
        (ws : List Bytes)
        → (elim ws [ [] ↦ [] | w ∷ ws ↦ if x == c then [] ∷ w ∷ ws else (x ∷ w) ∷ ws ])
          ≡ split_byte c x ws
    at [] = refl
    at (w ∷ ws) = refl

split_byte-other :
    (c x : ℕ) (xs : Bytes) (ws : List Bytes)
    → (x == c) ≡ false
    → split_byte c x (put_first xs ws) ≡ put_first (x ∷ xs) ws
split_byte-other c x xs [] e = refl
split_byte-other c x xs (w ∷ ws) e = if_false {b = x == c} _ _ e

split-append : (c : ℕ) (xs ys : Bytes) → Lacks c xs → split c (xs ++ ys) ≡ put_first xs (split c ys)
split-append c [] ys h = nothing (split c ys)
  where
    nothing : (ws : List Bytes) → ws ≡ put_first [] ws
    nothing [] = refl
    nothing (w ∷ ws) = refl
split-append c (x ∷ xs) ys h =
    let other : (x == c) ≡ false = ground (arith, h.0) in
    split-cons c x (xs ++ ys)
    ∙ ap (split_byte c x) (split-append c xs ys h.1)
    ∙ split_byte-other c x xs (split c ys) other

split-join :
    (c : ℕ) (x : Bytes) (xs : List Bytes)
    → All (Lacks c) (x ∷ xs)
    → split c (join c (x ∷ xs)) ≡ x ∷ xs
unfolding join split
split-join c x [] h = ap (split c) (sym (append-nil x)) ∙ split-append c x [] h.0 ∙ alone
  where
    alone : put_first x (split c []) ≡ x ∷ []
    alone = ap (λ (w : Bytes). w ∷ []) (append-nil x)
split-join c x (y ∷ xs) h =
    let same : (c == c) ≡ true = ground arith in
    split-append c x (c ∷ join c (y ∷ xs)) h.0
    ∙ ap (put_first x) (
        split-cons c c (join c (y ∷ xs))
        ∙ ap (split_byte c c) (split-join c y xs h.1)
        ∙ if_true {b = c == c} ([] ∷ y ∷ xs) ((c ∷ y) ∷ xs) same)
    ∙ ap (λ (w : Bytes). w ∷ y ∷ xs) (append-nil x)

pair_types-map :
    (children : List ChildResult)
    → pair_types
        (map (λ (k : ChildResult). k.id) children)
        (map (λ (k : ChildResult). k.typ) children)
      ≡ some children
unfolding pair_types
pair_types-map [] = refl
pair_types-map (k ∷ children) = rw (pair_types-map children) refl

-- Whether identifiers and types have no comma.
abbrev pub LackCommas : List ChildResult → Type 0
LackCommas children =
    All (Lacks b',') (map (λ (k : ChildResult). k.id) children)
    × All (Lacks b',') (map (λ (k : ChildResult). k.typ) children)

get_child_results-some :
    (ids types : Bytes)
    → ids ≢ []
    → get_child_results ids types ≡ pair_types (split b',' ids) (split b',' types)
unfolding get_child_results
get_child_results-some [] types h = absurd (h refl)
get_child_results-some (c ∷ ids) types h = refl

-- Identifiers and types without commas, joined by commas, are given back in pairs, if the joined
-- identifiers are not empty.
pub get_child_results-join :
    (k : ChildResult) (children : List ChildResult)
    → LackCommas (k ∷ children)
    → join b',' (map (λ (k : ChildResult). k.id) (k ∷ children)) ≢ []
    → get_child_results
        (join b',' (map (λ (k : ChildResult). k.id) (k ∷ children)))
        (join b',' (map (λ (k : ChildResult). k.typ) (k ∷ children)))
      ≡ some (k ∷ children)
get_child_results-join k children h ne =
    get_child_results-some _ _ ne
    ∙ ap
        (λ (ids : List Bytes).
          pair_types ids (split b',' (join b',' (map (λ (k : ChildResult). k.typ) (k ∷ children)))))
        (split-join b',' k.id (map (λ (k : ChildResult). k.id) children) h.0)
    ∙ ap (pair_types (map (λ (k : ChildResult). k.id) (k ∷ children)))
        (split-join b',' k.typ (map (λ (k : ChildResult). k.typ) children) h.1)
    ∙ pair_types-map (k ∷ children)

pair_types-fewer :
    (ids types : List Bytes) → suc (length types) ≤ length ids → pair_types ids types ≡ none
unfolding pair_types
pair_types-fewer [] types h = absurd (omega arith)
pair_types-fewer (i ∷ ids) [] h = refl
pair_types-fewer (i ∷ ids) (t ∷ types) h = rw (pair_types-fewer ids types (omega arith)) refl

-- If the identifiers are not empty and there are fewer types than identifiers between the commas,
-- `getChildResults` panics.
pub get_child_results-fewer :
    (ids types : Bytes)
    → ids ≢ []
    → suc (length (split b',' types)) ≤ length (split b',' ids)
    → get_child_results ids types ≡ none
get_child_results-fewer ids types ne h =
    get_child_results-some ids types ne ∙ pair_types-fewer (split b',' ids) (split b',' types) h
