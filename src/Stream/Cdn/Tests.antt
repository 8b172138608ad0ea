-- ===== src/Stream/Cdn/Tests.antt =====
-- An API whose URL "a" redirects to "b", which answers with 206.
use torbox_fuse_go.Base.{
  ◌-◌, ◌<◌, true, insert, ℕ, lookup, Str-discrete, ◌≤◌, ◌≡◌, refl, Option, none, some, [], Str, str,
  str_eq, arith, if◌then◌else◌,
}
use torbox_fuse_go.Stream.Cdn.{
  found, resolved, from_cache, Response, answered, resolve_redirect, max_redirects, CdnClient,
  resolve_url,
}
use torbox_fuse_go.Stream.Cdn.Ranges.{fetch_range, do_range_request, refused, http_status_error}
use torbox_fuse_go.Stream.Cdn.Ranges.Expiry.{Unrenewed, fetch_range-Unrenewed}
use torbox_fuse_go.Stream.Cdn.Resolution.{
  Settled, repeat, reuse_time, resolve_redirect-Settled, resolve_url_again,
}

abbrev get : Str → Response
get url = if str_eq url (str "a") then answered 302 (str "b") else answered 206 []

abbrev join_url : Str → Str → Option Str
join_url base reference = some reference

resolve_redirect-Settled_example :
    ((resolve_redirect get join_url 5 (str "a")).1 ≤ 5)
    × Settled get join_url (resolve_redirect get join_url 5 (str "a")).0
resolve_redirect-Settled_example = resolve_redirect-Settled get join_url 5 (str "a")

abbrev client : CdnClient
client = record { url_cache = []; url_cache_ttl = 300; rate_limit_cooldown = 10; requests = 0 }

nothing_cached : from_cache client 1 (lookup Str-discrete (str "a") client.url_cache) ≡ none
unfolding lookup
nothing_cached = refl

a_reused : 9 - 2 < reuse_time client (resolve_url get join_url client (str "a") 1 2).1
unfolding resolve_url resolve_redirect lookup insert Str-discrete
a_reused = omega arith

resolve_url_again_example :
    let (c', outcome) = resolve_url get join_url client (str "a") 1 2 in
    resolve_url get join_url c' (str "a") 9 9 ≡ (c', repeat outcome)
resolve_url_again_example =
    resolve_url_again get join_url client (str "a") 1 2 9 9 (omega arith) nothing_cached a_reused

resolve_runs : resolve_redirect get join_url max_redirects (str "a") ≡ (resolved (str "b"), 2)
unfolding resolve_redirect Str-discrete
resolve_runs = refl

-- A CDN on which the URL "b" has expired.
abbrev expired : Str → ℕ → ℕ → Response
expired url start finish = answered 403 []

fetch_range-Unrenewed_example :
    Unrenewed 0
      (resolve_url get join_url client (str "a") 1 2).0
      (fetch_range get get expired join_url client (str "a") 0 9 true 1 2 3 4)
fetch_range-Unrenewed_example =
    fetch_range-Unrenewed get get expired join_url 0 9 3 4 client (str "a") true 1 2

-- The URL that has expired stays in the cache.
expired_runs :
    let f = fetch_range get get expired join_url client (str "a") 0 9 true 1 2 3 4 in
    (f.range_result ≡ refused (http_status_error 403))
    × (from_cache f.client_after 9 (lookup Str-discrete (str "a") f.client_after.url_cache)
        ≡ some (found (str "b")))
unfolding resolve_redirect Str-discrete fetch_range resolve_url do_range_request lookup insert
expired_runs = (refl, refl)
