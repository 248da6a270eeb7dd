-- ===== src/BindUploader/Files.antt =====
-- bind_uploader.go: `upload` sends every row once, in order, in files of bounded size.
use gosnowflake.Base.{
  ◌≡◌, refl, List, ℕ, ◌∷◌, ◌<◌, ◌++◌, length, ◌≢◌, [], ◌+◌, ◌⊎◌, arith, ◌≤◌, inl, Bool-cases, ltb,
  ap, inr, length-append, suc, true, Bool, Option, if◌then◌else◌, zero,
}
use gosnowflake.Base.Text.{Bytes}
use gosnowflake.BindUploader.{
  Outcome, ok, Command, create_stage, put, Answer, concat_rows, fill_file,
}

-- The rows of all files, in order.
abbrev pub all_rows : List (List Bytes) → List Bytes
all_rows [] = []
all_rows (f ∷ fs) = f ++ all_rows fs

-- The bytes of a file without its last row.
abbrev pub size_before_last : List Bytes → ℕ
size_before_last [] = 0
size_before_last (r ∷ []) = 0
size_before_last (r ∷ s ∷ rs) = length r + size_before_last (s ∷ rs)

abbrev size : List Bytes → ℕ
size [] = 0
size (r ∷ rs) = length r + size rs

-- Each file has a row, and is below the limit before its last row; each but the last file has
-- reached the limit.
abbrev pub IsFiling : ℕ → List (List Bytes) → Type 0
IsFiling limit [] = Unit {0}
IsFiling limit (f ∷ fs) =
    (f ≢ [])
    × (size_before_last f < limit)
    × ((fs ≡ []) ⊎ (limit ≤ length (concat_rows f)))
    × IsFiling limit fs

fill_file_lem :
    (limit n : ℕ) (rows : List Bytes)
    → ((fill_file limit n rows).0 ++ (fill_file limit n rows).1 ≡ rows)
      × (((fill_file limit n rows).1 ≡ []) ⊎ (limit ≤ n + size (fill_file limit n rows).0))
      × (length (fill_file limit n rows).1 ≤ length rows)
unfolding fill_file
fill_file_lem limit n [] = (refl, inl refl, omega arith)
fill_file_lem limit n (r ∷ rs) =
    let ih = fill_file_lem limit (n + length r) rs in
    elim (Bool-cases (ltb n limit)) [
      | inl more ↦ rw more (ap (◌∷◌ r) ih.0, ground (arith, ih.1), omega (arith, ih.2))
      | inr full ↦ rw full (refl, inr (ground arith), omega arith)
    ]

cons_bound :
    (limit n : ℕ) (r : Bytes) (f : List Bytes)
    → n < limit
    → (f ≢ [] → n + length r + size_before_last f < limit)
    → n + size_before_last (r ∷ f) < limit
cons_bound limit n r [] h k = omega arith
cons_bound limit n r (s ∷ f) h k = omega (arith, k cc)

size_before_last_bound :
    (limit n : ℕ) (rows : List Bytes)
    → (fill_file limit n rows).0 ≢ []
    → n + size_before_last (fill_file limit n rows).0 < limit
unfolding fill_file
size_before_last_bound limit n [] = λ h. absurd (h refl)
size_before_last_bound limit n (r ∷ rs) = elim (Bool-cases (ltb n limit)) [
  | inl more ↦ rw more λ h.
      cons_bound limit n r (fill_file limit (n + length r) rs).0 (ground arith)
        (size_before_last_bound limit (n + length r) rs)
  | inr full ↦ rw full λ h. absurd (h refl)
]

size-concat_rows : (f : List Bytes) → length (concat_rows f) ≡ size f
size-concat_rows [] = refl
size-concat_rows (r ∷ rs) = omega (arith, length-append {0} r (concat_rows rs), size-concat_rows rs)

-- The files that the rounds of the loop fill.
unfoldable pub files_of : ℕ → ℕ → List Bytes → List (List Bytes)
files_of fuel limit [] = []
files_of zero limit (r ∷ rs) = []
files_of (suc fuel) limit (r ∷ rs) =
    (fill_file limit 0 (r ∷ rs)).0 ∷ files_of fuel limit (fill_file limit 0 (r ∷ rs)).1

-- A round takes a row if the limit is positive.
pub fill_file_takes :
    (limit : ℕ) (r : Bytes) (rs : List Bytes)
    → 0 < limit
    → ((fill_file limit 0 (r ∷ rs)).0 ≢ []) × (length (fill_file limit 0 (r ∷ rs)).1 ≤ length rs)
unfolding fill_file
fill_file_takes limit r rs h =
    let t : ltb 0 limit ≡ true = ground arith in
    rw t (λ e. cc, (fill_file_lem limit (0 + length r) rs).2)

files_of_rest : (fuel limit : ℕ) (rows : List Bytes) → rows ≡ [] → files_of fuel limit rows ≡ []
unfolding files_of
files_of_rest fuel limit rows e = rw e

pub files_of-IsFiling :
    (fuel limit : ℕ) (rows : List Bytes)
    → 0 < limit
    → length rows ≤ fuel
    → IsFiling limit (files_of fuel limit rows) × (all_rows (files_of fuel limit rows) ≡ rows)
unfolding files_of
files_of-IsFiling fuel limit [] h k = (tt, refl)
files_of-IsFiling zero limit (r ∷ rs) h k = absurd (omega arith)
files_of-IsFiling (suc fuel) limit (r ∷ rs) h k =
    let (whole, full, _) = fill_file_lem limit 0 (r ∷ rs) in
    let (taken, short) = fill_file_takes limit r rs h in
    let file = fill_file limit 0 (r ∷ rs) in
    let ih = files_of-IsFiling fuel limit file.1 h (omega (arith, short)) in
    (
      (
        taken,
        omega (arith, size_before_last_bound limit 0 (r ∷ rs) taken),
        elim full [
          | inl e ↦ inl (files_of_rest fuel limit file.1 e)
          | inr l ↦ inr (omega (arith, l, size-concat_rows file.0))
        ],
        ih.0,
      ),
      rw ih.1 whole,
    )

-- The commands that bring the files to the stage, numbered from the file after `n` on; the stage
-- is created before the first of them, unless it is there.
abbrev pub plan : Bool → ℕ → List (List Bytes) → List Command
plan has_stage n [] = []
plan has_stage n (f ∷ fs) =
    (if has_stage then [] else create_stage ∷ [])
    ++ put (suc n) (concat_rows f) ∷ plan true (suc n) fs

abbrev pub IsNotOk : Outcome (Option Answer) → Type 0
IsNotOk o = (r : Option Answer) → o ≢ ok r
