-- ===== src/Downloader/Tests.antt =====
-- chunk_downloader.go: runs of the downloader over two chunks, and the theorems applied there.
use gosnowflake.Base.{ℕ, ◌≡◌, refl, List, [], ◌∷◌, none, false, suc, zero, ◌≤◌, arith}
use gosnowflake.Downloader.{
  Downloader, Action, consumer, finishes, fails, other_error, canceled, run, start, about_to_wait,
  max_chunk_download_workers, goes_on, stops, end_of_rows, failed, waiting,
}
use gosnowflake.Downloader.Order.{Orderly, run-Orderly}
use gosnowflake.Downloader.Retries.{retries, retries_few, run-lost_wakeup}

-- The rows of the two chunks.
abbrev content : ℕ → List ℕ
content zero = 20 ∷ 21 ∷ []
content (suc i) = 30 ∷ []

-- The second chunk comes before the first, whose download fails once.
abbrev actions : List Action
actions =
    consumer
    ∷ consumer
    ∷ consumer
    ∷ consumer
    ∷ finishes 1
    ∷ consumer
    ∷ consumer
    ∷ fails 0 (other_error 5)
    ∷ consumer
    ∷ consumer
    ∷ finishes 0
    ∷ consumer
    ∷ consumer
    ∷ consumer
    ∷ consumer
    ∷ consumer
    ∷ consumer
    ∷ consumer
    ∷ consumer
    ∷ []

run_two_chunks :
    run content actions [] (start max_chunk_download_workers (10 ∷ []) 2)
    ≡ stops (10 ∷ 20 ∷ 21 ∷ 30 ∷ []) end_of_rows
unfolding run start
run_two_chunks = refl

run_canceled :
    run content
      (consumer ∷ consumer ∷ fails 0 canceled ∷ consumer ∷ [])
      []
      (start max_chunk_download_workers (10 ∷ []) 2)
    ≡ stops (10 ∷ []) (failed (record { index = 0; error = canceled }))
unfolding run start
run_canceled = refl

run-Orderly_example :
    Orderly content
      (10 ∷ [])
      2
      (run content actions [] (start max_chunk_download_workers (10 ∷ []) 2))
run-Orderly_example = run-Orderly content (10 ∷ []) max_chunk_download_workers 2 actions

-- The failure of the first chunk's download starts it again.
retries_once : retries content actions (start max_chunk_download_workers (10 ∷ []) 2) ≡ 1
unfolding retries start gosnowflake.Downloader.act
retries_once = refl

retries_few_example : retries content actions (start max_chunk_download_workers (10 ∷ []) 2) ≤ 5
retries_few_example = retries_few content max_chunk_download_workers (10 ∷ []) 2 actions

-- One chunk is under way, and the thread has found no error.
abbrev before_wait : Downloader ℕ
before_wait = record {
  current_chunk = [];
  current_index = 0;
  current_chunk_index = 1;
  chunk_metas = 1;
  chunks = λ i. none;
  chunks_chan = [];
  chunks_error = [];
  chunks_error_capacity = 10;
  chunks_error_counter = 0;
  chunks_final_errors = [];
  downloads = 0 ∷ [];
  phase = about_to_wait;
  closed = false;
}

run-lost_wakeup_example :
    run content (fails 0 (other_error 5) ∷ consumer ∷ consumer ∷ []) [] before_wait
    ≡ goes_on [] (record before_wait {
      chunks_error = record { index = 0; error = other_error 5 } ∷ [];
      downloads = [];
      phase = waiting;
    })
run-lost_wakeup_example =
    run-lost_wakeup content 0 (other_error 5) (consumer ∷ []) [] before_wait refl refl refl
      (omega arith)
