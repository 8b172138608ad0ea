-- ===== src/Torbox/Api.antt =====
-- apiGet of internal/torbox/client.go: the cache of answers, the attempts and the eviction. net/http,
-- the context and the clock are the record Http over a state of the world. The semaphore admits one
-- caller after the other, and so the calls are in sequence; the waits are transitions of the world.
pub mod Oldest
pub mod Attempts
pub mod Answers
pub mod Retries
use torbox_fuse_go.Base.{
  ℕ, zero, suc, ◌+◌, ◌-◌, ◌*◌, Bool, true, false, Option, none, some, List, [], ◌∷◌, ◌++◌, Str, str,
  str_eq, Str-discrete, if◌then◌else◌, ltb, leb, length, take, Result, ok, err, ◌==◌, lookup,
  insert, delete,
}
use torbox_fuse_go.Catalog.Tree.{str_lt}

pub record CacheEntry : Type 0 where
  pub data_bytes : Str
  pub created_at : ℕ

abbrev pub ApiCache : Type 0
ApiCache = List (Str × CacheEntry)

abbrev pub Params : Type 0
Params = List (Str × Str)

abbrev pub max_cache_entries : ℕ
max_cache_entries = 100

abbrev pub max_api_response_size : ℕ
max_api_response_size = 50 * 1024 * 1024

-- io.LimitReader.
unfoldable pub limit_read : Str → Str
limit_read body = take max_api_response_size body

-- In nanoseconds.
abbrev pub cache_ttl : ℕ
cache_ttl = 5 * 60 * 1000000000

pub data ApiError : Type 0 where
  create_request : ApiError
  request_failed : ApiError
  read_response : ApiError
  context_done : ApiError
  rate_limited : ApiError
  server_error : ApiError
  client_error : ApiError
  unreachable : ApiError

-- What httpClient.Do and the read of the body come to; with bad_request nothing is sent.
pub data Outcome : Type 0 where
  bad_request : Outcome
  no_response : Outcome
  no_body : Outcome
  reply : (status : ℕ) (body : Str) → Outcome

-- `retry_after` waits as long as the header of a response says, and says if the context ended first.
pub record Http (S : Type 0) : Type 0 where
  pub send : S → Str → Params → S × Outcome
  pub retry_after : S → S × Bool
  pub backoff : S → ℕ → S
  pub clock : S → S × ℕ

-- The parameters in the order of their names, and the key made of them.
unfoldable pub insert_param : Str × Str → Params → Params
insert_param p [] = p ∷ []
insert_param p (q ∷ qs) =
    let rest = insert_param p qs in if str_lt q.0 p.0 then q ∷ rest else p ∷ q ∷ qs

unfoldable pub sort_params : Params → Params
sort_params [] = []
sort_params (p ∷ ps) = insert_param p (sort_params ps)

unfoldable pub add_params : Str → Params → Str
add_params key [] = key
add_params key ((k, v) ∷ ps) = add_params (key ++ (str "?" ++ (k ++ (str "=" ++ v)))) ps

unfoldable pub cache_key : Str → Params → Str
cache_key path params = add_params path (sort_params params)

abbrev pub is_bypass : Option Str → Bool
is_bypass none = false
is_bypass (some v) = str_eq v (str "true")

unfoldable pub bypasses : Params → Bool
bypasses params = is_bypass (lookup Str-discrete (str "bypass_cache") params)

-- What an attempt makes of an outcome: it stops, goes on unless it is the last, or has its answer.
pub data Verdict : Type 0 where
  stop : ApiError → Verdict
  again_or : ApiError → Verdict
  wait_or : ApiError → Verdict
  answer : Str → Verdict

unfoldable pub verdict : Outcome → Verdict
verdict bad_request = stop create_request
verdict no_response = again_or request_failed
verdict no_body = stop read_response
verdict (reply status body) =
    if status == 429
    then wait_or rate_limited
    else if leb 500 status
    then again_or server_error
    else if leb 400 status
    then stop client_error
    else answer (limit_read body)

-- The entry that was made first; strict, so that the empty key is left where none is before the time.
unfoldable pub find_oldest : Str → ℕ → ApiCache → Str
find_oldest oldest t [] = oldest
find_oldest oldest t ((k, e) ∷ m) = elim (ltb e.created_at t) [
  | true ↦ find_oldest k e.created_at m
  | false ↦ find_oldest oldest t m
]

abbrev pub remove_oldest : Str → ApiCache → ApiCache
remove_oldest [] cache = cache
remove_oldest (c ∷ cs) cache = delete Str-discrete (c ∷ cs) cache

module _ {S : Type 0} (http : Http S) where
  abbrev pub fresh : ℕ → CacheEntry → Option Str
  fresh now e = if ltb (now - e.created_at) cache_ttl then some e.data_bytes else none

  abbrev pub check_entry : S → Option CacheEntry → S × Option Str
  check_entry s none = (s, none)
  check_entry s (some e) = let (s', now) = http.clock s in (s', fresh now e)

  abbrev pub look_in_cache : S → Bool → Str → ApiCache → S × Option Str
  look_in_cache s true key cache = (s, none)
  look_in_cache s false key cache = check_entry s (lookup Str-discrete key cache)

  -- Behind the request, with what a next attempt does.
  abbrev pub unless_done : (S → S × Result ApiError Str) → ℕ → S × Bool → S × Result ApiError Str
  unless_done next made (s, true) = (s, err context_done)
  unless_done next made (s, false) = next (http.backoff s made)

  abbrev pub after_verdict :
      (S → S × Result ApiError Str) → ℕ → S → Verdict → S × Result ApiError Str
  after_verdict next made s (stop e) = (s, err e)
  after_verdict next made s (answer body) = (s, ok body)
  after_verdict next made s (again_or e) = elim (ltb made 2) [
    | true ↦ next (http.backoff s made)
    | false ↦ (s, err e)
  ]
  after_verdict next made s (wait_or e) = elim (ltb made 2) [
    | true ↦ unless_done next made (http.retry_after s)
    | false ↦ (s, err e)
  ]

  -- The attempts that are left, and how many have been made.
  unfoldable pub attempts : ℕ → ℕ → S → Str → Params → S × Result ApiError Str
  attempts zero made s path params = (s, err unreachable)
  attempts (suc left) made s path params =
      let (s', outcome) = http.send s path params in
      after_verdict (λ z. attempts left (suc made) z path params) made s' (verdict outcome)

  abbrev pub evict_oldest : S → ApiCache → Bool → S × ApiCache
  evict_oldest s cache false = (s, cache)
  evict_oldest s cache true =
      let (s', now) = http.clock s in (s', remove_oldest (find_oldest [] now cache) cache)

  unfoldable pub store_answer : S → Str → Str → ApiCache → S × ApiCache
  store_answer s key body cache =
      let (s', now) = http.clock s in
      let cache' = insert Str-discrete key (record { data_bytes = body; created_at = now }) cache in
      evict_oldest s' cache' (ltb max_cache_entries (length cache'))

  abbrev pub after_attempts :
      Str → ApiCache → S × Result ApiError Str → S × ApiCache × Result ApiError Str
  after_attempts key cache (s, err e) = (s, cache, err e)
  after_attempts key cache (s, ok body) =
      let (s', cache') = store_answer s key body cache in (s', cache', ok body)

  abbrev pub after_look :
      Str → Params → ApiCache → S × Option Str → S × ApiCache × Result ApiError Str
  after_look path params cache (s, some body) = (s, cache, ok body)
  after_look path params cache (s, none) =
      after_attempts (cache_key path params) cache (attempts 3 0 s path params)

  unfoldable pub api_get : S → ApiCache → Str → Params → S × ApiCache × Result ApiError Str
  api_get s cache path params =
      after_look path params cache (look_in_cache s (bypasses params) (cache_key path params) cache)
