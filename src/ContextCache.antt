-- ===== src/ContextCache.antt =====
-- htap.go: the query context cache of a connection.
-- `Cache` is the slice `entries`; the mutex only serialises the calls. An `int` is an integer
-- of either sign, which is only compared. `sort.Slice` belongs to the Go library: an argument
-- `sort`, of which the theorems ask what its documentation promises (`IsSort`).
pub mod Bounds
pub mod Fresh
pub mod Distinct
mod Tests
use mathlib.Core.List.{Perm}
use Prim.Native.String.{String}
use gosnowflake.Base.{
  Bool, false, List, [], ◌∷◌, ◌++◌, Option, none, some, if◌then◌else◌, ltb, length, take, ◌||◌, not,
  ◌&&◌,
}
use gosnowflake.Base.Int.{ℤ, pos, negsuc, ltb_ℤ, eqb_ℤ, ◌≤ℤ◌}

-- `queryContextEntry`.
pub record QueryContextEntry : Type 0 where
  pub id : ℤ
  pub timestamp : ℤ
  pub priority : ℤ
  pub context : String

abbrev pub Cache : Type 0
Cache = List QueryContextEntry

-- What one pass of the first inner loop writes over an entry with the new entry's ID.
abbrev pub newer : QueryContextEntry → QueryContextEntry → QueryContextEntry
newer new old =
    if ltb_ℤ old.timestamp new.timestamp
    then new
    else if eqb_ℤ new.timestamp old.timestamp && not (eqb_ℤ new.priority old.priority)
    then new
    else old

-- The first inner loop: every entry with the new entry's ID is compared with it.
pub update_by_id : QueryContextEntry → Cache → Cache
update_by_id new [] = []
update_by_id new (old ∷ es) =
    (if eqb_ℤ new.id old.id then newer new old else old) ∷ update_by_id new es

-- `newQceProcessed` after the first inner loop.
pub has_id : ℤ → Cache → Bool
has_id i [] = false
has_id i (e ∷ es) = eqb_ℤ i e.id || has_id i es

-- The second inner loop: every entry with the new entry's priority is overwritten.
pub update_by_priority : QueryContextEntry → Cache → Cache
update_by_priority new [] = []
update_by_priority new (old ∷ es) =
    (if eqb_ℤ new.priority old.priority then new else old) ∷ update_by_priority new es

-- `newQceProcessed` after the second inner loop.
pub has_priority : ℤ → Cache → Bool
has_priority p [] = false
has_priority p (e ∷ es) = eqb_ℤ p e.priority || has_priority p es

-- One round of the outer loop of `add`.
pub add_one : QueryContextEntry → Cache → Cache
add_one new es =
    if has_id new.id es
    then update_by_id new es
    else if has_priority new.priority es
    then update_by_priority new es
    else es ++ new ∷ []

-- The outer loop of `add`.
pub add_all : List QueryContextEntry → Cache → Cache
add_all [] es = es
add_all (new ∷ news) es = add_all news (add_one new es)

-- `prune`: the slice expression `entries[0:size]` panics (`none`) at a negative size.
pub prune : ℤ → Cache → Option Cache
prune (pos n) es = some (if ltb n (length es) then take n es else es)
prune (negsuc n) es = none

abbrev pub default_query_context_cache_size : ℤ
default_query_context_cache_size = pos 5

-- `getQueryContextCacheSize`: the parameter QUERY_CONTEXT_CACHE_SIZE where it is set and
-- `strconv.Atoi` (the argument) reads it, else the default.
pub get_query_context_cache_size : (String → Option ℤ) → Option String → ℤ
get_query_context_cache_size atoi none = default_query_context_cache_size
get_query_context_cache_size atoi (some text) = elim (atoi text) [
  | some size ↦ size
  | none ↦ default_query_context_cache_size
]

-- `add`, with the cache size that `getQueryContextCacheSize` has read.
pub add : (Cache → Cache) → ℤ → List QueryContextEntry → Cache → Option Cache
add sort size [] es = prune (pos 0) es
add sort size (new ∷ news) es = prune size (sort (add_all (new ∷ news) es))

-- Priorities do not fall along the list.
abbrev pub AllAbove : ℤ → Cache → Type 0
AllAbove p [] = Unit {0}
AllAbove p (e ∷ es) = (p ≤ℤ e.priority) × AllAbove p es

abbrev pub IsSorted : Cache → Type 0
IsSorted [] = Unit {0}
IsSorted (e ∷ es) = AllAbove e.priority es × IsSorted es

-- What `sort.Slice` documents for the comparison of priorities.
pub record IsSort (sort : Cache → Cache) : Type 0 where
  pub sort-perm : (es : Cache) → Perm (sort es) es
  pub sort-IsSorted : (es : Cache) → IsSorted (sort es)
