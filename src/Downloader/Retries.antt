-- ===== src/Downloader/Retries.antt =====
-- chunk_downloader.go: how often a download is tried again, and a wait that nothing ends.
use gosnowflake.Base.{
  if_false, ℕ, zero, suc, ◌≡◌, refl, true, false, Option, none, some, List, [], ◌∷◌, ◌++◌, ◌≤◌,
  arith, Option-cases, inl, inr, ap, ◌∙◌, ◌&&◌, leb, length, ◌+◌, ◌==◌, ◌-◌, take, Bool-cases, drop,
  length-append, ◌<◌,
}
use gosnowflake.Downloader.{
  Downloader, Phase, reading, looking, about_to_wait, waiting, ChunkError, DownloadError, canceled,
  deadline_exceeded, other_error, Action, consumer, finishes, finishes_late, fails, goes_on, start,
  run, act, consume, read_row, next_chunk, no_more_data, look, check_error_retry, no_retry, ends,
  end_download, remove, is_among, store, schedule, schedule_times, continue_run,
  max_chunk_downloader_error_counter, min,
}

no_retry-false :
    (counter : ℕ) (e : DownloadError)
    → no_retry counter e ≡ false
    → suc counter ≤ max_chunk_downloader_error_counter
unfolding no_retry
no_retry-false counter canceled h = cc
no_retry-false counter deadline_exceeded h = cc
no_retry-false counter (other_error e) h = ground arith

length-remove : (i : ℕ) (js : List ℕ) → length (remove i js) ≤ length js
unfolding remove
length-remove i [] = omega arith
length-remove i (j ∷ js) = ground (arith, length-remove i js)

module _ {Row : Type 0} where
  -- The downloads that run, and the chunks that wait for theirs.
  abbrev in_hand : Downloader Row → ℕ
  in_hand d = length d.downloads + length d.chunks_chan

  -- The downloads that a step starts for chunks that it does not take from the waiting ones.
  abbrev started_again : Downloader Row → Downloader Row → ℕ
  started_again d d' = in_hand d' - in_hand d

  -- What is started again is counted, and the count stays below the limit.
  abbrev Counts : Downloader Row → Downloader Row → Type 0
  Counts d d' =
      (in_hand d' + d.chunks_error_counter ≤ in_hand d + d'.chunks_error_counter)
      × (d.chunks_error_counter ≤ d'.chunks_error_counter)
      × (d.chunks_error_counter ≤ 5 → d'.chunks_error_counter ≤ 5)

  schedule-in_hand : (d : Downloader Row) → in_hand (schedule d) ≡ in_hand d
  unfolding schedule
  schedule-in_hand d = at d.chunks_chan
    where
      at :
          (waits : List ℕ)
          → length (d.downloads ++ take 1 waits) + length (drop 1 waits)
            ≡ length d.downloads + length waits
      at [] = omega (arith, length-append {0} d.downloads [])
      at (i ∷ waits) = omega (arith, length-append {0} d.downloads (i ∷ []))

  schedule-Counts : (d : Downloader Row) → Counts d (schedule d)
  schedule-Counts d = unfold schedule in (omega (arith, schedule-in_hand d), omega arith, λ h. h)

  check_error_retry-Counts :
      (es : List ChunkError) (d : Downloader Row) → Counts d (check_error_retry es d).0
  unfolding check_error_retry
  check_error_retry-Counts [] d = (omega arith, omega arith, λ h. h)
  check_error_retry-Counts (e ∷ es) d =
      elim (Bool-cases (no_retry d.chunks_error_counter e.error)) [
        | inl gives_up ↦ rw gives_up (omega arith, omega arith, λ h. h)
        | inr again ↦ rw again (
          omega (arith, length-append {0} d.downloads (e.index ∷ [])),
          omega arith,
          λ h. no_retry-false d.chunks_error_counter e.error again,
        )
      ]

  read_row-Counts : (d : Downloader Row) → Counts d (read_row d).0
  unfolding read_row next_chunk no_more_data
  read_row-Counts d = ground arith

  look-Counts : (c : ℕ) (d : Downloader Row) → Counts d (look c d).0
  unfolding look
  look-Counts zero d = (omega arith, omega arith, λ h. h)
  look-Counts (suc k) d = elim (Option-cases (d.chunks k)) [
    | inl missing ↦ rw (missing, look) (check_error_retry-Counts d.chunks_error d)
    | inr (rows, there) ↦
        rw (there, look) (schedule-Counts (record d { current_chunk = rows; phase = reading }))
  ]

  consume-Counts : (p : Phase) (d : Downloader Row) → Counts d (consume p d).0
  unfolding consume
  consume-Counts reading d = read_row-Counts d
  consume-Counts looking d = look-Counts d.current_chunk_index d
  consume-Counts about_to_wait d = (omega arith, omega arith, λ h. h)
  consume-Counts waiting d = (omega arith, omega arith, λ h. h)

module _ {Row : Type 0} (content : ℕ → List Row) where
  ends-Counts :
      (i : ℕ) (stored : Option (List Row)) (errors : List ChunkError) (d : Downloader Row)
      → Counts d (ends content i stored errors d).0
  unfolding ends end_download
  ends-Counts i stored errors d = ground (arith, length-remove i d.downloads)

  act-Counts : (a : Action) (d : Downloader Row) → Counts d (act content a d).0
  unfolding act
  act-Counts consumer d = consume-Counts d.phase d
  act-Counts (finishes i) d = ends-Counts i (some (content i)) [] d
  act-Counts (finishes_late i e) d =
      ends-Counts i (some (content i)) (record { index = i; error = e } ∷ []) d
  act-Counts (fails i e) d = ends-Counts i none (record { index = i; error = e } ∷ []) d

  -- How many downloads a sequence of actions starts again.
  unfoldable pub retries : List Action → Downloader Row → ℕ
  retries [] d = 0
  retries (a ∷ rest) d = let d' = (act content a d).0 in started_again d d' + retries rest d'

  retries-counted :
      (actions : List Action) (d : Downloader Row)
      → d.chunks_error_counter ≤ 5
      → retries actions d + d.chunks_error_counter ≤ 5
  unfolding retries
  retries-counted [] d h = omega (arith, h)
  retries-counted (a ∷ rest) d h =
      let (counted, more, bound) = act-Counts a d in
      omega (arith, counted, more, retries-counted rest (act content a d).0 (bound h))

  schedule_times-counter :
      (times : ℕ) (d : Downloader Row)
      → (schedule_times times d).chunks_error_counter ≡ d.chunks_error_counter
  unfolding schedule_times schedule
  schedule_times-counter zero d = refl
  schedule_times-counter (suc times) d = schedule_times-counter times (schedule d)

  start-counter :
      (workers : ℕ) (first : List Row) (n : ℕ) → (start workers first n).chunks_error_counter ≡ 0
  unfolding start
  start-counter workers first n = schedule_times-counter (min workers n) _

  -- However the downloads of a response end and interleave, and however often they fail, no more
  -- than five downloads are started again, that is started for a chunk that is not taken from those
  -- that wait for their first download.
  pub retries_few :
      (workers : ℕ) (first : List Row) (n : ℕ) (actions : List Action)
      → retries actions (start workers first n) ≤ 5
  retries_few workers first n actions =
      let none_yet = start-counter workers first n in
      let bounded = retries-counted actions (start workers first n) (omega (arith, none_yet)) in
      omega (arith, none_yet, bounded)

  -- A thread in its wait with no download under way.
  record IsStuck (d : Downloader Row) : Type 0 where
    in_wait : d.phase ≡ waiting
    no_downloads : d.downloads ≡ []

  ends-stuck :
      (i : ℕ) (stored : Option (List Row)) (errors : List ChunkError) (d : Downloader Row)
      → d.downloads ≡ []
      → ends content i stored errors d ≡ (d, none)
  unfolding ends is_among
  ends-stuck i stored errors d e = if_false _ _ (
      ap
        (λ (js : List ℕ).
          is_among i js && leb (length d.chunks_error + length errors) d.chunks_error_capacity)
        e)

  act-stuck : (a : Action) (d : Downloader Row) → IsStuck d → act content a d ≡ (d, none)
  unfolding act consume
  act-stuck consumer d s = ap (λ (p : Phase). consume p d) s.in_wait
  act-stuck (finishes i) d s = ends-stuck i (some (content i)) [] d s.no_downloads
  act-stuck (finishes_late i e) d s =
      ends-stuck i (some (content i)) (record { index = i; error = e } ∷ []) d s.no_downloads
  act-stuck (fails i e) d s =
      ends-stuck i none (record { index = i; error = e } ∷ []) d s.no_downloads

  run-stuck :
      (actions : List Action) (out : List Row) (d : Downloader Row)
      → IsStuck d
      → run content actions out d ≡ goes_on out d
  unfolding run continue_run
  run-stuck [] out d s = refl
  run-stuck (a ∷ rest) out d s =
      ap (continue_run content (run content rest) out) (act-stuck a d s) ∙ run-stuck rest out d s

  -- The thread on its way to the wait, with one download under way.
  abbrev before_loss : ℕ → Downloader Row → Downloader Row
  before_loss i d = record d { phase = about_to_wait; downloads = i ∷ []; chunks_error = [] }

  before_loss-same :
      (i : ℕ) (d : Downloader Row)
      → d.phase ≡ about_to_wait
      → d.downloads ≡ i ∷ []
      → d.chunks_error ≡ []
      → d ≡ before_loss i d
  before_loss-same i d p w c =
      ap (λ (q : Phase). record d { phase = q }) p
      ∙ ap (λ (js : List ℕ). record d { phase = about_to_wait; downloads = js }) w
      ∙ ap
          (λ (es : List ChunkError). record d {
            phase = about_to_wait;
            downloads = i ∷ [];
            chunks_error = es;
          })
          c

  fails-before_loss :
      (i : ℕ) (e : DownloadError) (d : Downloader Row)
      → 0 < d.chunks_error_capacity
      → act content (fails i e) (before_loss i d) ≡ (
        record d {
          phase = about_to_wait;
          downloads = [];
          chunks_error = record { index = i; error = e } ∷ [];
        },
        none,
      )
  unfolding act ends end_download is_among remove store
  fails-before_loss i e d room =
      let same : (i == i) ≡ true = ground arith in
      let fits : leb 1 d.chunks_error_capacity ≡ true = ground (arith, room) in rw (same, fits) refl

  -- If the last download under way fails after the thread has looked for errors and before it waits,
  -- the broadcast is lost: the thread waits for ever, with the error in the channel. The channel is
  -- empty before, and has room for an error, as it has if there is a worker.
  pub run-lost_wakeup :
      (i : ℕ) (e : DownloadError) (rest : List Action) (out : List Row) (d : Downloader Row)
      → d.phase ≡ about_to_wait
      → d.downloads ≡ i ∷ []
      → d.chunks_error ≡ []
      → 0 < d.chunks_error_capacity
      → run content (fails i e ∷ consumer ∷ rest) out d
        ≡ goes_on out (record d {
          chunks_error = record { index = i; error = e } ∷ [];
          downloads = [];
          phase = waiting;
        })
  unfolding run continue_run act consume
  run-lost_wakeup i e rest out d p w c room =
      ap (run content (fails i e ∷ consumer ∷ rest) out) (before_loss-same i d p w c)
      ∙ ap (continue_run content (run content (consumer ∷ rest)) out) (fails-before_loss i e d room)
      ∙ run-stuck rest out _ (record { in_wait = refl; no_downloads = refl })
