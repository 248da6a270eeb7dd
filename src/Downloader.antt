-- ===== src/Downloader.antt =====
-- chunk_downloader.go: `snowflakeChunkDownloader` and the downloads that run beside it.
-- An `Action` is a step of the thread that calls `next` again and again, or the end of a download.
-- The chunks are those of the JSON formats: `CurrentChunkSize` is the length of `CurrentChunk`. The
-- indices are one more than the source's, which start at -1. A channel is the list of what it
-- holds, and a map is a function.
use gosnowflake.Base.{
  ℕ, zero, suc, ◌+◌, Bool, true, false, ◌||◌, Option, none, some, List, [], ◌∷◌, ◌++◌, ◌==◌, ltb,
  leb, if◌then◌else◌, length, get_elem?, ◌&&◌, drop, take,
}
use Prim.Native.Nat.{min}
pub mod InOrder
pub mod Order
pub mod Retries
mod Tests

-- Whether an error is `context.Canceled` or `context.DeadlineExceeded`, or another.
pub data DownloadError : Type 0 where
  canceled : DownloadError
  deadline_exceeded : DownloadError
  other_error : ℕ → DownloadError

-- `chunkError`.
pub record ChunkError : Type 0 where
  pub index : ℕ
  pub error : DownloadError

-- The default of the variable `MaxChunkDownloadWorkers`, which users may set; it is an argument.
abbrev pub max_chunk_download_workers : ℕ
max_chunk_download_workers = 10

abbrev pub max_chunk_downloader_error_counter : ℕ
max_chunk_downloader_error_counter = 5

-- Where the thread stands in `next`: at the top of its loop, before the test for the chunk, before
-- the wait, or in the wait.
pub data Phase : Type 0 where
  reading : Phase
  looking : Phase
  about_to_wait : Phase
  waiting : Phase

-- `snowflakeChunkDownloader`, with the indices of the downloads that run.
pub record Downloader (Row : Type 0) : Type 0 where
  pub current_chunk : List Row
  pub current_index : ℕ
  pub current_chunk_index : ℕ
  pub chunk_metas : ℕ
  pub chunks : ℕ → Option (List Row)
  pub chunks_chan : List ℕ
  pub chunks_error : List ChunkError
  pub chunks_error_capacity : ℕ
  pub chunks_error_counter : ℕ
  pub chunks_final_errors : List ChunkError
  pub downloads : List ℕ
  pub phase : Phase
  pub closed : Bool

-- What `next` returns; closing a closed channel panics.
pub data Output (Row : Type 0) : Type 0 where
  row : Row → Output Row
  end_of_rows : Output Row
  failed : ChunkError → Output Row
  close_panic : Output Row

-- The element is taken out once.
pub remove : ℕ → List ℕ → List ℕ
remove i [] = []
remove i (j ∷ js) = if i == j then js else j ∷ remove i js

pub is_among : ℕ → List ℕ → Bool
is_among i [] = false
is_among i (j ∷ js) = i == j || is_among i js

-- The indices from one on, as many as given.
unfoldable pub count_from : ℕ → ℕ → List ℕ
count_from i zero = []
count_from i (suc n) = i ∷ count_from (suc i) n

-- Whether `checkErrorRetry` gives up.
unfoldable pub no_retry : ℕ → DownloadError → Bool
no_retry counter canceled = true
no_retry counter deadline_exceeded = true
no_retry counter (other_error e) = leb max_chunk_downloader_error_counter counter

-- A broadcast wakes a thread that waits.
abbrev pub wake : Phase → Phase
wake waiting = looking
wake p = p

module _ {Row : Type 0} where
  -- An assignment to the map.
  unfoldable pub put_chunk : ℕ → Option (List Row) → (ℕ → Option (List Row)) → ℕ → Option (List Row)
  put_chunk i v chunks j = if j == i then v else chunks j

  -- `schedule`.
  unfoldable pub schedule : Downloader Row → Downloader Row
  schedule d = record d {
    chunks_chan = drop 1 d.chunks_chan;
    downloads = d.downloads ++ take 1 d.chunks_chan;
  }

  unfoldable pub schedule_times : ℕ → Downloader Row → Downloader Row
  unfolding schedule
  schedule_times zero d = d
  schedule_times (suc n) d = schedule_times n (schedule d)

  -- `start`, of the number of workers, the rows that came with the response and the number of chunks.
  unfoldable pub start : ℕ → List Row → ℕ → Downloader Row
  unfolding schedule_times count_from
  start workers first n = schedule_times (min workers n) (record {
    current_chunk = first;
    current_index = 0;
    current_chunk_index = 0;
    chunk_metas = n;
    chunks = λ i. none;
    chunks_chan = count_from 0 n;
    chunks_error = [];
    chunks_error_capacity = workers;
    chunks_error_counter = 0;
    chunks_final_errors = [];
    downloads = [];
    phase = reading;
    closed = false;
  })

  -- The end of `next`.
  unfoldable pub no_more_data : Downloader Row → Downloader Row × Option (Output Row)
  no_more_data d =
      if d.chunk_metas == 0
      then (d, some end_of_rows)
      else if d.closed
      then (d, some close_panic)
      else (record d { closed = true }, some end_of_rows)

  -- The chunk before the current one is dropped.
  unfoldable pub detach : ℕ → (ℕ → Option (List Row)) → ℕ → Option (List Row)
  unfolding put_chunk
  detach zero chunks = chunks
  detach (suc k) chunks = put_chunk k none chunks

  -- The step to the chunk of an index.
  unfoldable pub next_chunk : ℕ → Downloader Row → Downloader Row × Option (Output Row)
  unfolding no_more_data detach
  next_chunk k d =
      let d' = record d { current_chunk_index = suc k; current_index = 0 } in
      if leb d.chunk_metas k
      then no_more_data d'
      else (record d' { chunks = detach k d.chunks; phase = looking }, none)

  -- The top of the loop of `next`.
  unfoldable pub read_row : Downloader Row → Downloader Row × Option (Output Row)
  unfolding next_chunk
  read_row d = elim (get_elem? d.current_chunk d.current_index) [
    | some r ↦ (record d { current_index = suc d.current_index }, some (row r))
    | none ↦ next_chunk d.current_chunk_index d
  ]

  -- `checkErrorRetry` at what the error channel holds, and what `next` does with its error.
  unfoldable pub check_error_retry :
      List ChunkError → Downloader Row → Downloader Row × Option (Output Row)
  unfolding no_retry
  check_error_retry [] d = (record d { phase = about_to_wait }, none)
  check_error_retry (e ∷ es) d =
      if no_retry d.chunks_error_counter e.error
      then (
        record d {
          chunks_error = es;
          chunks_final_errors = d.chunks_final_errors ++ e ∷ [];
          phase = reading;
        },
        some (failed e),
      )
      else (
        record d {
          chunks_error = es;
          chunks_error_counter = suc d.chunks_error_counter;
          downloads = d.downloads ++ e.index ∷ [];
          phase = about_to_wait;
        },
        none,
      )

  -- The test of the inner loop of `next`, at the chunk of an index.
  unfoldable pub look : ℕ → Downloader Row → Downloader Row × Option (Output Row)
  unfolding schedule check_error_retry
  look zero d = (d, none)
  look (suc k) d = elim (d.chunks k) [
    | some rows ↦ (schedule (record d { current_chunk = rows; phase = reading }), none)
    | none ↦ check_error_retry d.chunks_error d
  ]

  -- A step of the thread that calls `next`.
  unfoldable pub consume : Phase → Downloader Row → Downloader Row × Option (Output Row)
  unfolding read_row look
  consume reading d = read_row d
  consume looking d = look d.current_chunk_index d
  consume about_to_wait d = (record d { phase = waiting }, none)
  consume waiting d = (d, none)

  -- The chunk is put into the map, if there is one.
  unfoldable pub store : ℕ → Option (List Row) → (ℕ → Option (List Row)) → ℕ → Option (List Row)
  unfolding put_chunk
  store i none chunks = chunks
  store i (some rows) chunks = put_chunk i (some rows) chunks

  -- `downloadChunk`: the chunk is stored, or it is not; an error is sent, or none; then a broadcast.
  unfoldable pub end_download :
      ℕ → Option (List Row) → List ChunkError → Downloader Row → Downloader Row
  unfolding store remove
  end_download i stored errors d = record d {
    chunks = store i stored d.chunks;
    chunks_error = d.chunks_error ++ errors;
    downloads = remove i d.downloads;
    phase = wake d.phase;
  }

-- What happens next: a step of the thread, a download that ends well, one that ends well after the
-- context is done, or one that fails.
pub data Action : Type 0 where
  consumer : Action
  finishes : ℕ → Action
  finishes_late : ℕ → DownloadError → Action
  fails : ℕ → DownloadError → Action

module _ {Row : Type 0} (content : ℕ → List Row) where
  -- The end of a download that runs and that the error channel does not block. The source stores the
  -- chunk under the mutex and broadcasts later. Here both are one step, which may also fall between
  -- the look and the wait of `next`, where the mutex would hold the store up.
  unfoldable pub ends :
      ℕ
      → Option (List Row)
      → List ChunkError
      → Downloader Row
      → Downloader Row × Option (Output Row)
  unfolding end_download is_among
  ends i stored errors d =
      if is_among i d.downloads
        && leb (length d.chunks_error + length errors) d.chunks_error_capacity
      then (end_download i stored errors d, none)
      else (d, none)

  -- One action; `content` is what the server has for each chunk.
  unfoldable pub act : Action → Downloader Row → Downloader Row × Option (Output Row)
  unfolding consume ends
  act consumer d = consume d.phase d
  act (finishes i) d = ends i (some (content i)) [] d
  act (finishes_late i e) d = ends i (some (content i)) (record { index = i; error = e } ∷ []) d
  act (fails i e) d = ends i none (record { index = i; error = e } ∷ []) d

  -- What a run comes to: the rows returned, and how it ended if it did.
  pub data Result : Type 0 where
    goes_on : List Row → Downloader Row → Result
    stops : List Row → Output Row → Result

  -- The rest of a run, after what an action returned.
  unfoldable pub continue_run :
      (List Row → Downloader Row → Result)
      → List Row
      → Downloader Row × Option (Output Row)
      → Result
  continue_run rest out (d, none) = rest out d
  continue_run rest out (d, some (row r)) = rest (out ++ r ∷ []) d
  continue_run rest out (d, some end_of_rows) = stops out end_of_rows
  continue_run rest out (d, some (failed e)) = stops out (failed e)
  continue_run rest out (d, some close_panic) = stops out close_panic

  -- A run up to the first return of `next` that is no row.
  unfoldable pub run : List Action → List Row → Downloader Row → Result
  unfolding act continue_run
  run [] out d = goes_on out d
  run (a ∷ rest) out d = continue_run (run rest) out (act a d)
