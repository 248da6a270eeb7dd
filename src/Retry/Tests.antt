-- ===== src/Retry/Tests.antt =====
-- retry.go: runs of the loop.
use gosnowflake.Base.{
  ℕ, none, some, ◌≤◌, true, false, List, [], ◌∷◌, suc, length, ◌≡◌, ◌≢◌, arith, refl,
}
use gosnowflake.Base.Text.{Bytes, codes, bytes_eq}
use gosnowflake.Base.Int.{pos}
use gosnowflake.Retry.{
  Options, Round, Loop, Url, Values, put, not_made, execute, unfinished, panicked,
  is_retryable_error, is_query_request, request_guid_key, returned,
}
use gosnowflake.Retry.Ends.{execute-ends, execute-endless}
use gosnowflake.Retry.Guid.{guids, after_retries, guids-after_retries}

abbrev options : Options
options = record {
  max_retry_count = pos 1;
  reason_disabled = false;
  client_start_time = codes "0";
  itoa = λ n. n ∷ [];
  auth_wait = λ n s. s;
}

abbrev no_values : Values
no_values k = []

abbrev query_url : Url
query_url = record {
  path = codes "/queries/v1/query-request";
  values = put request_guid_key (codes "first") no_values;
  malformed = false;
}

abbrev round : ℕ → Bytes → Round
round status guid = record {
  body_fails = false;
  request_fails = false;
  reply = record { status = some status; failed = false };
  draw = 5;
  guid = guid;
  cancelled = false;
}

-- A 503 is tried again, a 200 is returned.
then_ok :
    (execute options
      (round 503 (codes "a") ∷ round 200 (codes "b") ∷ [])
      (pos 60000000000)
      query_url).0
    ≡ returned (record { status = some 200; failed = false })
unfolding execute
then_ok = refl

execute-ends_example :
    ((execute options (round 503 [] ∷ round 503 [] ∷ []) (pos 60000000000) query_url).0
      ≢ unfinished)
    × ((execute options (round 503 [] ∷ round 503 [] ∷ []) (pos 60000000000) query_url).0
        ≢ panicked)
    × (length (execute options (round 503 [] ∷ round 503 [] ∷ []) (pos 60000000000) query_url).1
        ≤ 2)
execute-ends_example =
    execute-ends options (round 503 [] ∷ round 503 [] ∷ []) (pos 60000000000) query_url refl
      (omega arith)

-- Three rounds with one retry allowed, and no timeout.
execute-endless_example :
    ((execute options (round 503 [] ∷ round 503 [] ∷ round 503 [] ∷ []) (pos 0) query_url).0
      ≡ unfinished)
    × (length
          (execute options (round 503 [] ∷ round 503 [] ∷ round 503 [] ∷ []) (pos 0) query_url).1
        ≡ 3)
unfolding is_retryable_error
execute-endless_example =
    execute-endless options (round 503 [] ∷ round 503 [] ∷ round 503 [] ∷ []) (pos 0) query_url refl
      ((refl, refl, refl, refl), ((refl, refl, refl, refl), ((refl, refl, refl, refl), tt)))

abbrev fresh : Loop
fresh = record {
  url = query_url;
  total_timeout = pos 0;
  retry_counter = 0;
  sleep_time = 1000000000;
  guid_replacer = not_made;
  count_updater = not_made;
  sent = [];
}

guids-after_retries_example :
    guids
      (after_retries options
        (round 503 (codes "second") ∷ round 503 (codes "third") ∷ [])
        fresh).url.values
    ≡ codes "second" ∷ []
unfolding is_query_request put bytes_eq gosnowflake.Base.Text.has_prefix
guids-after_retries_example =
    guids-after_retries options (round 503 (codes "second")) (round 503 (codes "third") ∷ []) fresh
      (record {
        guid_not_made = refl;
        count_not_made = refl;
        query = refl;
        well_formed = refl;
        has_guid = refl;
      })
