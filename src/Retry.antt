-- ===== src/Retry.antt =====
-- retry.go: the retries of an HTTP request.
-- A URL's raw query is given as what `url.ParseQuery` makes of it. A `Round` is what the outside does
-- in one round of the loop of `execute`; what the loop does with a list of rounds is its outcome and
-- the URLs that it sent. Durations are in nanoseconds.
use gosnowflake.Base.{
  ℕ, Option, none, some, Bool, false, List, [], ◌∷◌, ◌+◌, ◌-◌, ◌*◌, ◌/◌, ◌%◌, ltb, leb,
  if◌then◌else◌, ◌&&◌, ◌||◌, ◌==◌, ◌++◌, not, suc, true,
}
use gosnowflake.Base.Text.{Bytes, codes, bytes_eq, has_prefix}
use gosnowflake.Base.Int.{ℤ, pos, ltb_ℤ, ◌-ℤ◌}
pub mod Wait
pub mod Ends
pub mod Guid
mod Tests
use Prim.Native.Nat.{min, suc}

-- `url.Values`, with `Del`, `Add`, `Get` and `Has`.
abbrev pub Values : Type 0
Values = Bytes → List Bytes

unfoldable pub del : Bytes → Values → Values
del k v x = if bytes_eq x k then [] else v x

unfoldable pub add : Bytes → Bytes → Values → Values
add k w v x = if bytes_eq x k then v x ++ w ∷ [] else v x

abbrev pub get : Bytes → Values → Bytes
get k v = elim (v k) [ [] ↦ [] | w ∷ ws ↦ w ]

abbrev pub has : Bytes → Values → Bool
has k v = elim (v k) [ [] ↦ false | w ∷ ws ↦ true ]

-- `Del` and then `Add`.
unfoldable pub put : Bytes → Bytes → Values → Values
unfolding del add
put k w v = add k w (del k v)

-- A URL: its path, the parts of its query that can be parsed, and whether there are others.
pub record Url : Type 0 where
  pub path : Bytes
  pub values : Values
  pub malformed : Bool

-- `RawQuery = values.Encode()`.
abbrev pub set_query : Values → Url → Url
set_query v u = record u { values = v; malformed = false }

abbrev pub request_guid_key : Bytes
request_guid_key = codes "request_guid"

abbrev pub retry_count_key : Bytes
retry_count_key = codes "retryCount"

abbrev pub retry_reason_key : Bytes
retry_reason_key = codes "retryReason"

abbrev pub client_start_time_key : Bytes
client_start_time_key = codes "clientStartTime"

-- `isQueryRequest`.
unfoldable pub is_query_request : Url → Bool
is_query_request u = has_prefix u.path (codes "/queries/v1/query-request")

-- `isLoginRequest`.
unfoldable pub is_login_request : Url → Bool
is_login_request u =
    bytes_eq u.path (codes "/session/v1/login-request")
    || bytes_eq u.path (codes "/session/token-request")
    || bytes_eq u.path (codes "/session/authenticator-request")

-- A replacer of the query: not made yet, one that changes nothing, or one with the values that it
-- took when it was made.
pub data Replacer : Type 0 where
  not_made : Replacer
  transient : Replacer
  keeps : Values → Replacer

-- `newRequestGUIDReplace`.
unfoldable pub new_request_guid_replace : Url → Replacer
unfolding bytes_eq
new_request_guid_replace u =
    if u.malformed || bytes_eq (get request_guid_key u.values) [] then transient else keeps u.values

-- `newRetryCountUpdater`.
unfoldable pub new_retry_count_updater : Url → Replacer
unfolding is_query_request
new_retry_count_updater u =
    if is_query_request u && not u.malformed then keeps u.values else transient

-- A replacer that is made where it is not.
abbrev pub made : (Url → Replacer) → Url → Replacer → Replacer
made make u not_made = make u
made make u transient = transient
made make u (keeps v) = keeps v

-- `requestGUIDReplace.replace` and `retryCountUpdate.replaceOrAdd`: the values that the replacer
-- keeps, with the key set anew, become the query, and are kept.
unfoldable pub replace : Bytes → Bytes → Replacer → Url → Url × Replacer
unfolding put
replace k w (keeps v) u = (set_query (put k w v) u, keeps (put k w v))
replace k w r u = (u, r)

-- `newRetryReasonUpdater` and its `replaceOrAdd`.
unfoldable pub put_retry_reason : Bool → Bytes → Url → Url
unfolding is_query_request put
put_retry_reason disabled reason u =
    if is_query_request u && not disabled
    then set_query (put retry_reason_key reason u.values) u
    else u

-- `ensureClientStartTimeIsSet`.
unfoldable pub ensure_client_start_time_is_set : Bytes → Url → Url
unfolding is_query_request add
ensure_client_start_time_is_set time u =
    if is_query_request u && not (has client_start_time_key u.values)
    then set_query (add client_start_time_key time u.values) u
    else u

-- `isRetryableStatus`.
unfoldable pub is_retryable_status : ℕ → Bool
is_retryable_status s = leb 500 s && ltb s 600 || (s == 429 || s == 408)

-- What `client.Do` returns: a response with its status, if any, and whether there is an error.
pub record Reply : Type 0 where
  pub status : Option ℕ
  pub failed : Bool

-- `isRetryableError`, of a request that is not nil.
unfoldable pub is_retryable_error : Reply → Bool
unfolding is_retryable_status
is_retryable_error r = elim r.status [ none ↦ r.failed | some s ↦ is_retryable_status s ]

-- A round: the errors of the body and of the request, the reply, the random number, the new UUID,
-- and whether the context is done while the loop sleeps.
pub record Round : Type 0 where
  pub body_fails : Bool
  pub request_fails : Bool
  pub reply : Reply
  pub draw : ℕ
  pub guid : Bytes
  pub cancelled : Bool

-- The base and the cap of `defaultWaitAlgo`.
abbrev pub base_wait : ℕ
base_wait = 1000000000

abbrev pub cap_wait : ℕ
cap_wait = 16000000000

-- `randMilliSecondDuration`; `Int63n` panics at a bound that is not positive.
unfoldable pub rand_millisecond_duration : ℕ → ℕ → ℕ → Option ℕ
rand_millisecond_duration draw base bound =
    let base_number = base / 1000000 in
    let bound_number = bound / 1000000 in
    if leb bound_number base_number
    then none
    else some ((draw % (bound_number - base_number) + base_number) * 1000000)

-- `calculateWaitBeforeRetry`.
unfoldable pub calculate_wait_before_retry : ℕ → ℕ → Option ℕ
unfolding rand_millisecond_duration
calculate_wait_before_retry draw sleep =
    elim (rand_millisecond_duration draw base_wait (sleep * 3)) [
      | none ↦ none
      | some d ↦ some (min cap_wait d)
    ]

-- What does not change in the loop. `auth_wait` is `calculateWaitBeforeRetryForAuthRequest`, which
-- computes with floating point numbers, of the attempt and the last wait.
pub record Options : Type 0 where
  pub max_retry_count : ℤ
  pub reason_disabled : Bool
  pub client_start_time : Bytes
  pub itoa : ℕ → Bytes
  pub auth_wait : ℕ → ℕ → ℕ

-- The variables of the loop, with the URLs that were sent.
pub record Loop : Type 0 where
  pub url : Url
  pub total_timeout : ℤ
  pub retry_counter : ℕ
  pub sleep_time : ℕ
  pub guid_replacer : Replacer
  pub count_updater : Replacer
  pub sent : List Url

pub data Outcome : Type 0 where
  returned : Reply → Outcome
  body_error : Outcome
  request_error : Outcome
  gave_up : Reply → ℕ → Outcome
  context_done : Reply → Outcome
  panicked : Outcome
  unfinished : Outcome

-- The wait before the next round.
unfoldable pub next_sleep : Options → Round → Loop → Option ℕ
unfolding is_login_request calculate_wait_before_retry
next_sleep o r l =
    if is_login_request l.url
    then some (o.auth_wait (suc l.retry_counter) l.sleep_time)
    else calculate_wait_before_retry r.draw l.sleep_time

-- `retryReason`.
abbrev pub reason_of : Reply → ℕ
reason_of r = elim r.status [ none ↦ 0 | some s ↦ s ]

-- The URL with a new UUID, and the replacer.
unfoldable pub next_guid : Round → Loop → Url × Replacer
unfolding new_request_guid_replace replace
next_guid r l =
    replace request_guid_key r.guid (made new_request_guid_replace l.url l.guid_replacer) l.url

-- The URL with the count of the retries, and the updater.
unfoldable pub next_count : Options → Loop → Url → Url × Replacer
unfolding new_retry_count_updater replace
next_count o l u =
    replace retry_count_key (o.itoa (suc l.retry_counter))
      (made new_retry_count_updater u l.count_updater) u

-- The URL with the reason of the retry and the start time.
unfoldable pub next_reason : Options → Round → Url → Url
unfolding put_retry_reason ensure_client_start_time_is_set
next_reason o r u =
    ensure_client_start_time_is_set o.client_start_time
      (put_retry_reason o.reason_disabled (o.itoa (reason_of r.reply)) u)

-- The query of the next round.
unfoldable pub next_query : Options → Round → Loop → Loop
unfolding next_guid next_count next_reason
next_query o r l =
    let (u1, g) = next_guid r l in
    let (u2, k) = next_count o l u1 in
    record l {
      url = next_reason o r u2;
      guid_replacer = g;
      count_updater = k;
      retry_counter = suc l.retry_counter;
    }

-- Whether the loop gives up after a wait.
unfoldable pub is_over : Options → ℕ → Loop → Bool
unfolding ◌-ℤ◌
is_over o sleep l =
    ltb_ℤ (pos 0) l.total_timeout
    && (not (ltb_ℤ (pos 0) (l.total_timeout -ℤ pos sleep))
        || ltb_ℤ o.max_retry_count (pos (suc l.retry_counter)))

-- The timeout that is left after a wait.
unfoldable pub timeout_left : ℕ → ℤ → ℤ
timeout_left sleep t = if ltb_ℤ (pos 0) t then t -ℤ pos sleep else t

-- The end of a round: an outcome with the URLs sent, or the variables of the next round.
pub data Step : Type 0 where
  stops : Outcome → List Url → Step
  goes_on : Loop → Step

-- The variables, with the URL sent.
abbrev pub send : Loop → Loop
send l = record l { sent = l.sent ++ l.url ∷ [] }

-- The variables of the next round.
unfoldable pub next_loop : Options → Round → ℕ → Loop → Loop
unfolding next_query timeout_left
next_loop o r sleep l = record (next_query o r l) {
  total_timeout = timeout_left sleep l.total_timeout;
  sleep_time = sleep;
}

-- The round from its wait on.
unfoldable pub after_wait : Options → Round → Loop → Option ℕ → Step
unfolding next_loop is_over
after_wait o r l none = stops panicked l.sent
after_wait o r l (some sleep) =
    if is_over o sleep l
    then stops (gave_up r.reply (suc l.retry_counter)) l.sent
    else if r.cancelled
    then stops (context_done r.reply) l.sent
    else goes_on (next_loop o r sleep l)

-- A round of the loop of `execute`.
unfoldable pub step : Options → Round → Loop → Step
unfolding is_retryable_error next_sleep after_wait
step o r l =
    if r.body_fails
    then stops body_error l.sent
    else if r.request_fails
    then stops request_error l.sent
    else if is_retryable_error r.reply
    then after_wait o r (send l) (next_sleep o r l)
    else stops (returned r.reply) (send l).sent

-- The loop of `execute`, for the rounds given.
unfoldable pub execute_loop : Options → List Round → Loop → Outcome × List Url
unfolding step
execute_loop o [] l = (unfinished, l.sent)
execute_loop o (r ∷ rs) l = elim (step o r l) [
  | stops x urls ↦ (x, urls)
  | goes_on l' ↦ execute_loop o rs l'
]

-- `execute`.
unfoldable pub execute : Options → List Round → ℤ → Url → Outcome × List Url
unfolding execute_loop
execute o rs timeout url = execute_loop o rs (record {
  url = url;
  total_timeout = timeout;
  retry_counter = 0;
  sleep_time = 1000000000;
  guid_replacer = not_made;
  count_updater = not_made;
  sent = [];
})
