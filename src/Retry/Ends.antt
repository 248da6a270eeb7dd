-- ===== src/Retry/Ends.antt =====
-- retry.go: how the loop of `execute` ends.
use gosnowflake.Base.{
  ℕ, some, ◌≤◌, ◌<◌, true, false, List, [], ◌∷◌, suc, length, ◌≡◌, ◌⊎◌, ◌≢◌, arith, inl, Bool-cases,
  refl, length-append, ◌∙◌, inr, ◌+◌, subst, sym, ap, Bool, if◌then◌else◌, All,
}
use gosnowflake.Base.Int.{ℤ, pos, ltb_ℤ, pos_part}
use gosnowflake.Retry.{
  Options, Round, Loop, Url, Outcome, unfinished, panicked, Step, stops, goes_on, send, step,
  after_wait, is_over, timeout_left, next_query, execute_loop, execute, is_login_request,
  is_retryable_error, gave_up, body_error, context_done, request_error, returned, next_loop,
  not_made,
}
use gosnowflake.Retry.Wait.{CanWait, next_sleep-CanWait, next_query-path}

-- A round that ends the loop: not by a panic, and with one more URL sent at most.
abbrev Ends : Step → ℕ → Type 0
Ends s n =
    (x : Outcome) × (urls : List Url) × (s ≡ stops x urls)
    × (x ≢ unfinished)
    × (x ≢ panicked)
    × (length urls ≤ suc n)

-- A round after which the loop goes on.
abbrev Continues : Options → Loop → Step → Type 0
Continues o l s =
    (l' : Loop) × (sleep : ℕ) × (s ≡ goes_on l')
    × (l'.retry_counter ≡ suc l.retry_counter)
    × (length l'.sent ≡ suc (length l.sent))
    × CanWait l'.url l'.sleep_time
    × (is_over o sleep l ≡ false)
    × (l'.total_timeout ≡ timeout_left sleep l.total_timeout)

length-send : (l : Loop) → length (send l).sent ≡ suc (length l.sent)
length-send l = omega (arith, length-append l.sent (l.url ∷ []))

login-path : (u u' : Url) → u'.path ≡ u.path → is_login_request u' ≡ is_login_request u
unfolding is_login_request
login-path u u' e = rw e refl

CanWait-path : (u u' : Url) (sleep : ℕ) → u'.path ≡ u.path → CanWait u sleep → CanWait u' sleep
CanWait-path u u' sleep e (inl h) = inl (login-path u u' e ∙ h)
CanWait-path u u' sleep e (inr h) = inr h

after_wait-cases :
    (o : Options) (r : Round) (l : Loop) (sleep : ℕ)
    → CanWait l.url sleep
    → Ends (after_wait o r (send l) (some sleep)) (length l.sent)
      ⊎ Continues o l (after_wait o r (send l) (some sleep))
unfolding after_wait next_loop
after_wait-cases o r l sleep w = elim (Bool-cases (is_over o sleep l)) [
  | inl over ↦ inl (
    gave_up r.reply (suc l.retry_counter),
    (send l).sent,
    rw over refl,
    (λ e. cc),
    (λ e. cc),
    omega (arith, length-send l),
  )
  | inr on ↦ elim (Bool-cases r.cancelled) [
    | inl done ↦ inl (
      context_done r.reply,
      (send l).sent,
      rw (on, done) refl,
      (λ e. cc),
      (λ e. cc),
      omega (arith, length-send l),
    )
    | inr alive ↦ inr (
      next_loop o r sleep (send l),
      sleep,
      rw (on, alive) refl,
      refl,
      length-send l,
      CanWait-path l.url (next_query o r (send l)).url sleep (next_query-path o r (send l)) w,
      on,
      refl,
    )
  ]
]

if_true : {A : Type 0} {b : Bool} (x y : A) → b ≡ true → (if b then x else y) ≡ x
if_true x y e = rw e refl

if_false : {A : Type 0} {b : Bool} (x y : A) → b ≡ false → (if b then x else y) ≡ y
if_false x y e = rw e refl

step-cases :
    (o : Options) (r : Round) (l : Loop)
    → CanWait l.url l.sleep_time
    → Ends (step o r l) (length l.sent) ⊎ Continues o l (step o r l)
unfolding step
step-cases o r l w = elim (Bool-cases r.body_fails) [
  | inl h ↦ inl (body_error, l.sent, rw h refl, (λ e. cc), (λ e. cc), omega arith)
  | inr body ↦ elim (Bool-cases r.request_fails) [
    | inl h ↦ inl (request_error, l.sent, rw (body, h) refl, (λ e. cc), (λ e. cc), omega arith)
    | inr request ↦ elim (Bool-cases (is_retryable_error r.reply)) [
      | inr h ↦ inl (
        returned r.reply,
        (send l).sent,
        rw (body, request, h) refl,
        (λ e. cc),
        (λ e. cc),
        omega (arith, length-send l),
      )
      | inl retry ↦
          let (sleep, e, w') = next_sleep-CanWait o r l w in
          let waited : step o r l ≡ after_wait o r (send l) (some sleep) =
            if_false _ _ body
            ∙ if_false _ _ request
            ∙ if_true _ _ retry
            ∙ ap (after_wait o r (send l)) e in
          subst (λ (s : Step). Ends s (length l.sent) ⊎ Continues o l s) (sym waited)
            (after_wait-cases o r l sleep w')
    ]
  ]
]

-- With a timeout, a round is followed by another only below the number of retries, and with time
-- left.
is_over-false :
    (o : Options) (sleep : ℕ) (l : Loop)
    → ltb_ℤ (pos 0) l.total_timeout ≡ true
    → is_over o sleep l ≡ false
    → (ltb_ℤ (pos 0) (timeout_left sleep l.total_timeout) ≡ true)
      × (suc l.retry_counter ≤ pos_part o.max_retry_count)
unfolding is_over timeout_left
is_over-false o sleep l t h = ground arith

-- A result of the loop: it is one, it is no panic, and it comes with a bounded number of URLs.
abbrev IsResult : Options → Outcome × List Url → Type 0
IsResult o res =
    (res.0 ≢ unfinished) × (res.0 ≢ panicked) × (length res.1 ≤ suc (pos_part o.max_retry_count))

execute_loop-IsResult :
    (o : Options) (rs : List Round) (l : Loop)
    → CanWait l.url l.sleep_time
    → ltb_ℤ (pos 0) l.total_timeout ≡ true
    → l.retry_counter ≤ pos_part o.max_retry_count
    → pos_part o.max_retry_count < l.retry_counter + length rs
    → length l.sent ≡ l.retry_counter
    → IsResult o (execute_loop o rs l)
unfolding execute_loop
execute_loop-IsResult o [] l w t c enough s = absurd (omega arith)
execute_loop-IsResult o (r ∷ rs) l w t c enough s = elim (step-cases o r l w) [
  | inl (x, urls, e, no_unfinished, no_panic, few) ↦
      subst
        (λ (p : Step).
          IsResult o (elim p [ stops x urls ↦ (x, urls) | goes_on l' ↦ execute_loop o rs l' ]))
        (sym e) (no_unfinished, no_panic, omega arith)
  | inr (l', sleep, e, counter, sends, w', on, left) ↦
      let (t', c') = is_over-false o sleep l t on in
      subst
        (λ (p : Step).
          IsResult o (elim p [ stops x urls ↦ (x, urls) | goes_on l' ↦ execute_loop o rs l' ]))
        (sym e)
        (execute_loop-IsResult o rs l' w' (ap (ltb_ℤ (pos 0)) left ∙ t') (omega arith) (omega arith)
          (omega arith))
]

-- With a timeout the request ends in a result within one round more than the number of retries, a
-- negative one counted as 0, and sends no more URLs than that; it never panics.
pub execute-ends :
    (o : Options) (rs : List Round) (timeout : ℤ) (url : Url)
    → ltb_ℤ (pos 0) timeout ≡ true
    → pos_part o.max_retry_count < length rs
    → ((execute o rs timeout url).0 ≢ unfinished)
      × ((execute o rs timeout url).0 ≢ panicked)
      × (length (execute o rs timeout url).1 ≤ suc (pos_part o.max_retry_count))
unfolding execute
execute-ends o rs timeout url t enough =
    execute_loop-IsResult o rs _ (inr (omega arith, omega arith)) t (omega arith) (omega arith) refl

-- A round whose reply asks for a retry.
abbrev pub IsTroubled : Round → Type 0
IsTroubled r =
    (r.body_fails ≡ false)
    × (r.request_fails ≡ false)
    × (is_retryable_error r.reply ≡ true)
    × (r.cancelled ≡ false)

-- Without a timeout such a round is always followed by another.
step-troubled :
    (o : Options) (r : Round) (l : Loop)
    → CanWait l.url l.sleep_time
    → IsTroubled r
    → ltb_ℤ (pos 0) l.total_timeout ≡ false
    → (l' : Loop) × (step o r l ≡ goes_on l')
      × CanWait l'.url l'.sleep_time
      × (ltb_ℤ (pos 0) l'.total_timeout ≡ false)
      × (length l'.sent ≡ suc (length l.sent))
unfolding step after_wait is_over next_loop timeout_left
step-troubled o r l w (body, request, retry, alive) t =
    let (sleep, e, w') = next_sleep-CanWait o r l w in
    let goes : after_wait o r (send l) (some sleep) ≡ goes_on (next_loop o r sleep (send l)) =
      rw (t, alive) refl in
    (
      next_loop o r sleep (send l),
      if_false _ _ body
          ∙ if_false _ _ request
          ∙ if_true _ _ retry
          ∙ ap (after_wait o r (send l)) e
          ∙ goes,
      CanWait-path l.url (next_query o r (send l)).url sleep (next_query-path o r (send l)) w',
      rw t t,
      length-send l,
    )

execute_loop-troubled :
    (o : Options) (rs : List Round) (l : Loop)
    → CanWait l.url l.sleep_time
    → All IsTroubled rs
    → ltb_ℤ (pos 0) l.total_timeout ≡ false
    → ((execute_loop o rs l).0 ≡ unfinished)
      × (length (execute_loop o rs l).1 ≡ length l.sent + length rs)
unfolding execute_loop
execute_loop-troubled o [] l w a t = (refl, omega arith)
execute_loop-troubled o (r ∷ rs) l w (h, a) t =
    let (l', e, w', t', s) = step-troubled o r l w h t in
    let (u, n) = execute_loop-troubled o rs l' w' a t' in
    rw (e, execute_loop) (u, omega (arith, n, s))

-- Without a timeout a request is sent again as long as the replies ask for a retry and the context
-- is not done, whatever the number of retries.
pub execute-endless :
    (o : Options) (rs : List Round) (timeout : ℤ) (url : Url)
    → ltb_ℤ (pos 0) timeout ≡ false
    → All IsTroubled rs
    → ((execute o rs timeout url).0 ≡ unfinished)
      × (length (execute o rs timeout url).1 ≡ length rs)
unfolding execute
execute-endless o rs timeout url t a =
    let (u, n) =
      execute_loop-troubled o rs
        (record {
          url = url;
          total_timeout = timeout;
          retry_counter = 0;
          sleep_time = 1000000000;
          guid_replacer = not_made;
          count_updater = not_made;
          sent = [];
        })
        (inr (omega arith, omega arith)) a t in
    (u, omega (arith, n))
