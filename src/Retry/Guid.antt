-- ===== src/Retry/Guid.antt =====
-- retry.go: the UUID of a query request that is sent again and again.
use gosnowflake.Base.{List, [], ◌∷◌, ◌≡◌, Bool, arith, ◌∙◌, refl, suc, ap, true, false}
use gosnowflake.Base.Text.{Bytes, bytes_eq}
use gosnowflake.Retry.{
  Options, Round, Loop, Url, Values, keeps, put, del, add, request_guid_key, retry_count_key,
  put_retry_reason, ensure_client_start_time_is_set, next_reason, reason_of, next_count, next_query,
  not_made, next_guid, new_retry_count_updater, made, replace, is_query_request,
  new_request_guid_replace, set_query, Replacer, get,
}

-- The values of the key.
abbrev pub guids : Values → List Bytes
guids v = v request_guid_key

-- Other keys leave them alone.
guids-put_count : (w : Bytes) (v : Values) → guids (put retry_count_key w v) ≡ guids v
unfolding put add del bytes_eq
guids-put_count w v = refl

guids-put_guid : (w : Bytes) (v : Values) → guids (put request_guid_key w v) ≡ w ∷ []
unfolding put add del bytes_eq
guids-put_guid w v = refl

guids-put_retry_reason :
    (d : Bool) (w : Bytes) (u : Url) → guids (put_retry_reason d w u).values ≡ guids u.values
unfolding put_retry_reason put add del bytes_eq
guids-put_retry_reason d w u = ground arith

guids-ensure_client_start_time_is_set :
    (t : Bytes) (u : Url) → guids (ensure_client_start_time_is_set t u).values ≡ guids u.values
unfolding ensure_client_start_time_is_set add bytes_eq
guids-ensure_client_start_time_is_set t u = ground arith

guids-next_reason :
    (o : Options) (r : Round) (u : Url) → guids (next_reason o r u).values ≡ guids u.values
unfolding next_reason
guids-next_reason o r u =
    guids-ensure_client_start_time_is_set o.client_start_time
      (put_retry_reason o.reason_disabled (o.itoa (reason_of r.reply)) u)
    ∙ guids-put_retry_reason o.reason_disabled (o.itoa (reason_of r.reply)) u

-- The updater of the count keeps the UUID that it found, and so does the URL.
pub record IsStuck (g : Bytes) (l : Loop) : Type 0 where
  pub kept : Values
  pub updater : l.count_updater ≡ keeps kept
  pub kept_guid : guids kept ≡ g ∷ []
  pub url_guid : guids l.url.values ≡ g ∷ []

-- A count that is kept: the URL and the updater that come of it.
next_count-keeps :
    (o : Options) (l : Loop) (u : Url) (v : Values)
    → made new_retry_count_updater u l.count_updater ≡ keeps v
    → let w = put retry_count_key (o.itoa (suc l.retry_counter)) v in
      next_count o l u ≡ (set_query w u, keeps w)
unfolding next_count replace
next_count-keeps o l u v e =
    ap (λ (p : Replacer). replace retry_count_key (o.itoa (suc l.retry_counter)) p u) e

-- A count that is kept with a UUID leaves that UUID in the URL.
IsStuck-count :
    (o : Options) (r : Round) (l : Loop) (v : Values) (g : Bytes)
    → made new_retry_count_updater (next_guid r l).0 l.count_updater ≡ keeps v
    → guids v ≡ g ∷ []
    → IsStuck g (next_query o r l)
unfolding next_query
IsStuck-count o r l v g e h =
    let u = (next_guid r l).0 in
    let w = put retry_count_key (o.itoa (suc l.retry_counter)) v in
    let counted : next_count o l u ≡ (set_query w u, keeps w) = next_count-keeps o l u v e in
    let guid : guids w ≡ g ∷ [] = guids-put_count (o.itoa (suc l.retry_counter)) v ∙ h in
    record {
      kept = w;
      updater = ap (λ (p : Url × Replacer). p.1) counted;
      kept_guid = guid;
      url_guid =
          guids-next_reason o r (next_count o l u).0
          ∙ ap (λ (p : Url × Replacer). guids p.0.values) counted
          ∙ guid;
    }

-- The URL after a list of retries.
abbrev pub after_retries : Options → List Round → Loop → Loop
after_retries o [] l = l
after_retries o (r ∷ rs) l = after_retries o rs (next_query o r l)

IsStuck-after_retries :
    (o : Options) (rs : List Round) (l : Loop) (g : Bytes)
    → IsStuck g l
    → IsStuck g (after_retries o rs l)
IsStuck-after_retries o [] l g s = s
IsStuck-after_retries o (r ∷ rs) l g s = IsStuck-after_retries o rs (next_query o r l) g (
    IsStuck-count o r l s.kept g (ap (made new_retry_count_updater (next_guid r l).0) s.updater)
      s.kept_guid)

-- Before the first retry.
pub record IsFreshQuery (l : Loop) : Type 0 where
  pub guid_not_made : l.guid_replacer ≡ not_made
  pub count_not_made : l.count_updater ≡ not_made
  pub query : is_query_request l.url ≡ true
  pub well_formed : l.url.malformed ≡ false
  pub has_guid : bytes_eq (get request_guid_key l.url.values) [] ≡ false

-- The first retry of a query request puts its new UUID into the URL.
next_guid-fresh :
    (r : Round) (l : Loop)
    → IsFreshQuery l
    → (next_guid r l).0 ≡ set_query (put request_guid_key r.guid l.url.values) l.url
unfolding next_guid new_request_guid_replace replace
next_guid-fresh r l f =
    let kept : made new_request_guid_replace l.url l.guid_replacer ≡ keeps l.url.values =
      ap (made new_request_guid_replace l.url) f.guid_not_made
      ∙ (rw (f.well_formed, f.has_guid, new_request_guid_replace) refl) in
    ap (λ (p : Replacer). (replace request_guid_key r.guid p l.url).0) kept

new_retry_count_updater-query :
    (u : Url) (v : Values)
    → is_query_request u ≡ true
    → new_retry_count_updater (set_query v u) ≡ keeps v
unfolding new_retry_count_updater is_query_request
new_retry_count_updater-query u v h = rw h refl

-- A query request with a UUID and a query that can be parsed gets a new one at its first retry, and
-- is sent with that one at every later retry, whatever UUIDs are made for them.
pub guids-after_retries :
    (o : Options) (r : Round) (rs : List Round) (l : Loop)
    → IsFreshQuery l
    → guids (after_retries o (r ∷ rs) l).url.values ≡ r.guid ∷ []
guids-after_retries o r rs l f =
    let v = put request_guid_key r.guid l.url.values in
    let updater : made new_retry_count_updater (next_guid r l).0 l.count_updater ≡ keeps v =
      ap (made new_retry_count_updater (next_guid r l).0) f.count_not_made
      ∙ ap new_retry_count_updater (next_guid-fresh r l f)
      ∙ new_retry_count_updater-query l.url v f.query in
    let stuck = IsStuck-count o r l v r.guid updater (guids-put_guid r.guid l.url.values) in
    (IsStuck-after_retries o rs (next_query o r l) r.guid stuck).url_guid
