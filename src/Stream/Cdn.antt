-- ===== src/Stream/Cdn.antt =====
-- The client of internal/stream/cdn.go: ResolveURL with its cache, InvalidateURL and resolveRedirect;
-- the module Ranges has the requests for a range. The HTTP client and the reference resolution of
-- net/url are arguments. A call of singleflight runs its function once.
pub mod Ranges
pub mod Resolution
mod Tests
use torbox_fuse_go.Base.{
  ℕ, zero, suc, ◌+◌, ◌-◌, Bool, true, false, ◌&&◌, ◌||◌, not, Option, none, some, List, [], ◌∷◌,
  Str, Str-discrete, if◌then◌else◌, ltb, leb, ◌==◌, lookup, insert, delete,
}

abbrev pub max_redirects : ℕ
max_redirects = 5

-- What client.Do returns: an error, or a status and the header Location, which may be empty.
pub data Response : Type 0 where
  no_response : Response
  answered : (status : ℕ) (location : Str) → Response

pub data ResolveError : Type 0 where
  request_failed : ResolveError
  no_location : ResolveError
  bad_location : ResolveError
  rate_limited : ResolveError
  server_error : (status : ℕ) → ResolveError
  too_many_redirects : ResolveError

pub data Resolved : Type 0 where
  resolved : Str → Resolved
  unresolved : ResolveError → Resolved

abbrev pub is_redirect : ℕ → Bool
is_redirect status =
    status == 301 || status == 302 || status == 303 || status == 307 || status == 308

-- What is behind the redirects: an error, or the URL that was asked.
abbrev pub at_last : Str → ℕ → Resolved
at_last url status =
    if status == 429
    then unresolved rate_limited
    else if leb 500 status
    then unresolved (server_error status)
    else resolved url

-- The result, and the number of requests made.
abbrev pub one_more : Resolved × ℕ → Resolved × ℕ
one_more (r, n) = (r, suc n)

module _ (get : Str → Response) (join_url : Str → Str → Option Str) where
  unfoldable pub resolve_redirect : ℕ → Str → Resolved × ℕ
  resolve_redirect zero url = (unresolved too_many_redirects, 0)
  resolve_redirect (suc left) url = elim (get url) [
    | no_response ↦ (unresolved request_failed, 1)
    | answered status location ↦ elim (is_redirect status) [
      | false ↦ (at_last url status, 1)
      | true ↦ elim location [
        | [] ↦ (unresolved no_location, 1)
        | c ∷ cs ↦ elim (join_url url (c ∷ cs)) [
          | none ↦ (unresolved bad_location, 1)
          | some next ↦ one_more (resolve_redirect left next)
        ]
      ]
    ]
  ]

pub record UrlCacheEntry : Type 0 where
  pub resolved_url : Str
  pub resolved_at : ℕ
  pub failed : Bool

-- The client as URL resolution sees it; `requests` counts those that it has made.
pub record CdnClient : Type 0 where
  pub url_cache : List (Str × UrlCacheEntry)
  pub url_cache_ttl : ℕ
  pub rate_limit_cooldown : ℕ
  pub requests : ℕ

pub data Outcome : Type 0 where
  found : Str → Outcome
  backing_off : Outcome
  failed_with : ResolveError → Outcome

-- What the cache answers at a time, if its entry is still good.
abbrev pub from_cache : CdnClient → ℕ → Option UrlCacheEntry → Option Outcome
from_cache c now none = none
from_cache c now (some entry) =
    if entry.failed
    then (if ltb (now - entry.resolved_at) c.rate_limit_cooldown then some backing_off else none)
    else if ltb (now - entry.resolved_at) c.url_cache_ttl
    then some (found entry.resolved_url)
    else none

abbrev pub remember : CdnClient → Str → UrlCacheEntry → ℕ → CdnClient
remember c api_url entry n = record c {
  url_cache = insert Str-discrete api_url entry c.url_cache;
  requests = c.requests + n;
}

abbrev pub store_result : CdnClient → Str → ℕ → Resolved × ℕ → CdnClient × Outcome
store_result c api_url stored_at (resolved url, n) =
    let entry : UrlCacheEntry = record {
      resolved_url = url;
      resolved_at = stored_at;
      failed = false;
    } in
    (remember c api_url entry n, found url)
store_result c api_url stored_at (unresolved e, n) =
    let entry : UrlCacheEntry = record {
      resolved_url = [];
      resolved_at = stored_at;
      failed = true;
    } in
    (remember c api_url entry n, failed_with e)

module _ (get : Str → Response) (join_url : Str → Str → Option Str) where
  -- `now` is the time of the look into the cache, `stored_at` that of the store behind the requests.
  unfoldable pub resolve_url : CdnClient → Str → ℕ → ℕ → CdnClient × Outcome
  resolve_url c api_url now stored_at =
      if leb c.url_cache_ttl 0
      then (c, found api_url)
      else elim (from_cache c now (lookup Str-discrete api_url c.url_cache)) [
        | some outcome ↦ (c, outcome)
        | none ↦
            store_result c api_url stored_at (resolve_redirect get join_url max_redirects api_url)
      ]

unfoldable pub invalidate_url : CdnClient → Str → CdnClient
invalidate_url c api_url = record c { url_cache = delete Str-discrete api_url c.url_cache }
