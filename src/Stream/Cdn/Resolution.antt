-- ===== src/Stream/Cdn/Resolution.antt =====
-- What a resolved URL is, how many requests it takes, and how long its result is reused.
use torbox_fuse_go.Base.{
  List-cases, subst, ℕ, zero, suc, ◌-◌, ◌<◌, ◌≤◌, ◌≡◌, ◌≢◌, refl, sym, ◌∙◌, true, false, Option,
  none, some, [], ◌∷◌, Str, Str-discrete, ltb, leb, ◌==◌, lookup, insert, lookup-insert, if_pos,
  arith, Bool-cases, Option-cases, inl, inr,
}
use torbox_fuse_go.Stream.Cdn.{
  Response, no_response, answered, Resolved, resolved, unresolved, is_redirect, at_last,
  resolve_redirect, max_redirects, UrlCacheEntry, CdnClient, Outcome, found, backing_off,
  failed_with, from_cache, store_result, resolve_url,
}

-- A later call of ResolveURL repeats the outcome; after a failure it only says that it backs off.
abbrev pub repeat : Outcome → Outcome
repeat (found url) = found url
repeat backing_off = backing_off
repeat (failed_with e) = backing_off

-- How long an outcome is reused: a URL for the cache's time, a failure for the cooldown.
abbrev pub reuse_time : CdnClient → Outcome → ℕ
reuse_time c (found url) = c.url_cache_ttl
reuse_time c (failed_with e) = c.rate_limit_cooldown
reuse_time c backing_off = 0

module _ (get : Str → Response) (join_url : Str → Str → Option Str) where
  -- A URL that answers, and not with a redirect, 429 or an error of the server.
  abbrev pub Settled : Resolved → Type 0
  Settled (unresolved e) = Unit
  Settled (resolved url) =
      (status : ℕ) × (location : Str) × (get url ≡ answered status location)
      × (is_redirect status ≡ false)
      × (status ≢ 429)
      × (status < 500)

  at_last-Settled :
      (url location : Str) (status : ℕ)
      → get url ≡ answered status location
      → is_redirect status ≡ false
      → Settled (at_last url status)
  at_last-Settled url location status e last = elim (Bool-cases (status == 429)) [
    | inl limited ↦ rw limited tt
    | inr free ↦ elim (Bool-cases (leb 500 status)) [
      | inl broken ↦ rw (free, broken) tt
      | inr fine ↦ rw (free, fine) (status, location, e, last, (ground arith), (ground arith))
    ]
  ]

  abbrev Bounded : ℕ → Resolved × ℕ → Type 0
  Bounded left r = (r.1 ≤ left) × Settled r.0

  redirect-Bounded :
      (left : ℕ) (url : Str) (r : Response)
      → get url ≡ r
      → ((next : Str) → Bounded left (resolve_redirect get join_url left next))
      → Bounded (suc left) (resolve_redirect get join_url (suc left) url)
  unfolding resolve_redirect
  redirect-Bounded left url no_response e ih = rw (e, resolve_redirect) (omega arith, tt)
  redirect-Bounded left url (answered status location) e ih =
      elim (Bool-cases (is_redirect status)) [
        | inr last ↦
            rw (e, resolve_redirect, last) (omega arith, at_last-Settled url location status e last)
        | inl moved ↦ elim (List-cases location) [
          | inl empty ↦ rw (e, resolve_redirect, moved, empty) (omega arith, tt)
          | inr (c, cs, some_location) ↦ elim (Option-cases (join_url url (c ∷ cs))) [
            | inl bad ↦ rw (e, resolve_redirect, moved, some_location, bad) (omega arith, tt)
            | inr (next, good) ↦
                rw (e, resolve_redirect, moved, some_location, good)
                  (omega (arith, (ih next).0), (ih next).1)
          ]
        ]
      ]

  -- resolveRedirect makes at most as many requests as it may follow redirects, and a URL that it
  -- resolves to is one that answers without redirect, rate limit or server error.
  pub resolve_redirect-Settled :
      (left : ℕ) (url : Str)
      → ((resolve_redirect get join_url left url).1 ≤ left)
        × Settled (resolve_redirect get join_url left url).0
  unfolding resolve_redirect
  resolve_redirect-Settled zero url = (omega arith, tt)
  resolve_redirect-Settled (suc left) url =
      redirect-Bounded left url (get url) refl (λ next. resolve_redirect-Settled left next)

  store_result-again :
      (c : CdnClient) (api_url : Str) (stored_at later : ℕ) (r : Resolved × ℕ)
      → later - stored_at < reuse_time c (store_result c api_url stored_at r).1
      → let (c', outcome) = store_result c api_url stored_at r in
        from_cache c' later (lookup Str-discrete api_url c'.url_cache) ≡ some (repeat outcome)
  store_result-again c api_url stored_at later (resolved url, n) young =
      let entry : UrlCacheEntry = record {
        resolved_url = url;
        resolved_at = stored_at;
        failed = false;
      } in
      let here : lookup Str-discrete api_url (insert Str-discrete api_url entry c.url_cache)
          ≡ some entry =
        lookup-insert Str-discrete api_url api_url entry c.url_cache
        ∙ if_pos (Str-discrete api_url api_url) refl _ _ in
      let in_time : ltb (later - stored_at) c.url_cache_ttl ≡ true = ground arith in
      rw (here, in_time) refl
  store_result-again c api_url stored_at later (unresolved e, n) young =
      let entry : UrlCacheEntry = record {
        resolved_url = [];
        resolved_at = stored_at;
        failed = true;
      } in
      let here : lookup Str-discrete api_url (insert Str-discrete api_url entry c.url_cache)
          ≡ some entry =
        lookup-insert Str-discrete api_url api_url entry c.url_cache
        ∙ if_pos (Str-discrete api_url api_url) refl _ _ in
      let in_time : ltb (later - stored_at) c.rate_limit_cooldown ≡ true = ground arith in
      rw (here, in_time) refl

  second :
      (c : CdnClient) (api_url : Str) (stored_at later later' : ℕ) (r : Resolved × ℕ)
      → leb c.url_cache_ttl 0 ≡ false
      → let p = store_result c api_url stored_at r in
        from_cache p.0 later (lookup Str-discrete api_url p.0.url_cache) ≡ some (repeat p.1)
        → resolve_url get join_url p.0 api_url later later' ≡ (p.0, repeat p.1)
  unfolding resolve_url
  second c api_url stored_at later later' (resolved url, n) on again = rw (on, again) refl
  second c api_url stored_at later later' (unresolved e, n) on again = rw (on, again) refl

  -- A call of ResolveURL that finds no good entry in the cache, with caching enabled, stores its result.
  -- If it has found a URL, every later call within the cache's time has the same URL; if it has failed,
  -- whatever the reason, every later call within the cooldown backs off; and such a call makes no
  -- request and changes nothing.
  pub resolve_url_again :
      (c : CdnClient) (api_url : Str) (now stored_at later later' : ℕ)
      → 0 < c.url_cache_ttl
      → from_cache c now (lookup Str-discrete api_url c.url_cache) ≡ none
      → later - stored_at < reuse_time c (resolve_url get join_url c api_url now stored_at).1
      → let (c', outcome) = resolve_url get join_url c api_url now stored_at in
        resolve_url get join_url c' api_url later later' ≡ (c', repeat outcome)
  unfolding resolve_url
  resolve_url_again c api_url now stored_at later later' enabled missing young =
      let r = resolve_redirect get join_url max_redirects api_url in
      let on : leb c.url_cache_ttl 0 ≡ false = ground arith in
      let first : resolve_url get join_url c api_url now stored_at
          ≡ store_result c api_url stored_at r =
        rw (on, missing) refl in
      let again =
        store_result-again c api_url stored_at later r
          (subst (λ p. later - stored_at < reuse_time c p.1) first young) in
      subst (λ p. resolve_url get join_url p.0 api_url later later' ≡ (p.0, repeat p.1)) (sym first)
        (second c api_url stored_at later later' r on again)
