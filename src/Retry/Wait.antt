-- ===== src/Retry/Wait.antt =====
-- retry.go: the wait stays between its base and its cap, so the loop never panics.
use gosnowflake.Base.{
  ℕ, some, ◌≤◌, true, false, ◌≡◌, leb, ◌⊎◌, inl, refl, inr, ◌*◌, Bool-cases, ◌/◌, arith, ◌%◌, ◌-◌,
  ◌+◌, suc, Bool, ◌∙◌, if◌then◌else◌,
}
use gosnowflake.Retry.{
  base_wait, cap_wait, calculate_wait_before_retry, rand_millisecond_duration, Options, Round, Loop,
  Url, next_sleep, next_query, is_login_request, Replacer, replace, put_retry_reason,
  ensure_client_start_time_is_set, min, Bytes, Values, reason_of, set_query, retry_count_key,
  request_guid_key, next_guid, next_count, next_reason, made, new_request_guid_replace,
  new_retry_count_updater,
}

-- A wait between the base and the cap.
abbrev pub IsWait : ℕ → Type 0
IsWait s = (base_wait ≤ s) × (s ≤ cap_wait)

-- From a wait between the base and the cap the next one is between them, whatever is drawn.
pub calculate_wait_before_retry-IsWait :
    (draw sleep : ℕ)
    → IsWait sleep
    → (s : ℕ) × (calculate_wait_before_retry draw sleep ≡ some s) × IsWait s
unfolding calculate_wait_before_retry rand_millisecond_duration
calculate_wait_before_retry-IsWait draw sleep (low, high) =
    let bound : leb (sleep * 3 / 1000000) 1000 ≡ false = ground arith in
    (
      min cap_wait ((draw % (sleep * 3 / 1000000 - 1000) + 1000) * 1000000),
      rw (bound, calculate_wait_before_retry, rand_millisecond_duration) refl,
      (omega arith, omega arith),
    )

-- The loop's wait is fit for its next computation: the URL is that of a login, or the wait is
-- between the base and the cap.
abbrev pub CanWait : Url → ℕ → Type 0
CanWait u sleep = (is_login_request u ≡ true) ⊎ IsWait sleep

pub next_sleep-CanWait :
    (o : Options) (r : Round) (l : Loop)
    → CanWait l.url l.sleep_time
    → (s : ℕ) × (next_sleep o r l ≡ some s) × CanWait l.url s
unfolding next_sleep
next_sleep-CanWait o r l (inl login) =
    (o.auth_wait (suc l.retry_counter) l.sleep_time, rw login refl, inl login)
next_sleep-CanWait o r l (inr w) = elim (Bool-cases (is_login_request l.url)) [
  | inl login ↦ (o.auth_wait (suc l.retry_counter) l.sleep_time, rw login refl, inl login)
  | inr other ↦
      let (s, e, w') = calculate_wait_before_retry-IsWait r.draw l.sleep_time w in
      (s, rw other e, inr w')
]

replace-path : (k w : Bytes) (p : Replacer) (u : Url) → (replace k w p u).0.path ≡ u.path
unfolding replace
replace-path k w Replacer.not_made u = refl
replace-path k w Replacer.transient u = refl
replace-path k w (Replacer.keeps v) u = refl

if-path : (b : Bool) (v : Values) (u : Url) → (if b then set_query v u else u).path ≡ u.path
if-path true v u = refl
if-path false v u = refl

put_retry_reason-path : (d : Bool) (w : Bytes) (u : Url) → (put_retry_reason d w u).path ≡ u.path
unfolding put_retry_reason
put_retry_reason-path d w u = if-path _ _ u

ensure_client_start_time_is_set-path :
    (t : Bytes) (u : Url) → (ensure_client_start_time_is_set t u).path ≡ u.path
unfolding ensure_client_start_time_is_set
ensure_client_start_time_is_set-path t u = if-path _ _ u

next_guid-path : (r : Round) (l : Loop) → (next_guid r l).0.path ≡ l.url.path
unfolding next_guid
next_guid-path r l =
    replace-path request_guid_key r.guid (made new_request_guid_replace l.url l.guid_replacer) l.url

next_count-path : (o : Options) (l : Loop) (u : Url) → (next_count o l u).0.path ≡ u.path
unfolding next_count
next_count-path o l u =
    replace-path retry_count_key (o.itoa (suc l.retry_counter))
      (made new_retry_count_updater u l.count_updater) u

next_reason-path : (o : Options) (r : Round) (u : Url) → (next_reason o r u).path ≡ u.path
unfolding next_reason
next_reason-path o r u =
    let reasoned = put_retry_reason o.reason_disabled (o.itoa (reason_of r.reply)) u in
    ensure_client_start_time_is_set-path o.client_start_time reasoned
    ∙ put_retry_reason-path o.reason_disabled (o.itoa (reason_of r.reply)) u

pub next_query-path :
    (o : Options) (r : Round) (l : Loop) → (next_query o r l).url.path ≡ l.url.path
unfolding next_query
next_query-path o r l =
    let u1 = (next_guid r l).0 in
    let u2 = (next_count o l u1).0 in
    next_reason-path o r u2 ∙ next_count-path o l u1 ∙ next_guid-path r l
