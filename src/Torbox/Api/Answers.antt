-- ===== src/Torbox/Api/Answers.antt =====
-- The answers of apiGet of internal/torbox/client.go, what it leaves in the cache, and how often it
-- sends its request.
use torbox_fuse_go.Base.{
  ℕ, suc, ◌+◌, ◌≤◌, Bool, true, false, Option, none, some, [], ◌∷◌, Str, Str-discrete, ltb, lookup,
  insert, length, ◌≡◌, ◌≢◌, refl, ◌∙◌, arith, Result, ok, err, All-lookup, if◌then◌else◌, subst,
  ltb→lt, ltb→le, ok-injective,
}
use torbox_fuse_go.Torbox.Api.{
  CacheEntry, ApiCache, Params, ApiError, Http, attempts, store_answer, after_attempts, after_look,
  look_in_cache, check_entry, evict_oldest, api_get, cache_key, add_params, sort_params, bypasses,
  max_cache_entries,
}
use torbox_fuse_go.Torbox.Api.Oldest.{
  CacheOk, CacheOk-later, stored-CacheOk, evicted-CacheOk, lookup-stored,
}
use torbox_fuse_go.Torbox.Api.Attempts.{HttpOk, AttemptsOk, attempts-AttemptsOk}

if_some : (b : Bool) (x y : Str) → (if b then some x else none) ≡ some y → x ≡ y
if_some b x y e = ground arith

add_params_named : (key : Str) (ps : Params) → key ≢ [] → add_params key ps ≢ []
unfolding add_params
add_params_named key [] h = h
add_params_named [] ((k, v) ∷ ps) h = absurd (h refl)
add_params_named (c ∷ cs) ((k, v) ∷ ps) h = add_params_named _ ps (λ e. absurd (cc))

cache_key_named : (path : Str) (params : Params) → path ≢ [] → cache_key path params ≢ []
unfolding cache_key
cache_key_named path params h = add_params_named path (sort_params params) h

module _ {S : Type 0} (http : Http S) (Good : Str → Type 0) (time calls : S → ℕ)
    (laws : HttpOk http Good time calls) where
  -- An answer that is Good, and an entry of the cache for it.
  abbrev pub Entered : ApiCache → Str → Str → Type 0
  Entered cache key body =
      Good body
      × ((e : CacheEntry) × (lookup Str-discrete key cache ≡ some e) × (e.data_bytes ≡ body))

  -- What apiGet leaves: with an error the cache as it was, with an answer an entry for it.
  pub record ApiOk (s : S) (cache : ApiCache) (key : Str) (r : S × ApiCache × Result ApiError Str)
      : Type 0 where
    pub kept : CacheOk Good (suc (time r.0)) r.1
    pub failed : (e : ApiError) → r.2 ≡ err e → r.1 ≡ cache
    pub entry : (body : Str) → r.2 ≡ ok body → Entered r.1 key body
    pub calls_made : calls r.0 ≤ calls s + 3

  record StoredOk (s : S) (key body : Str) (r : S × ApiCache) : Type 0 where
    kept : CacheOk Good (suc (time r.0)) r.1
    entry : Entered r.1 key body
    calls_made : calls r.0 ≡ calls s

  module _ (s : S) (cache : ApiCache) (key body : Str) (c : CacheOk Good (time s) cache)
      (named : key ≢ []) (good : Good body) where
    abbrev clock_now : ℕ
    clock_now = (http.clock s).1

    abbrev with_answer : ApiCache
    with_answer =
        insert Str-discrete key (record { data_bytes = body; created_at = clock_now }) cache

    evict-StoredOk :
        (long : Bool)
        → ltb max_cache_entries (length with_answer) ≡ long
        → StoredOk s key body (evict_oldest http (http.clock s).0 with_answer long)
    evict-StoredOk true e = record {
      kept = evicted.0;
      entry = (good, (_, evicted.1, refl));
      calls_made = laws.clock_calls (http.clock s).0 ∙ laws.clock_calls s;
    }
      where
        evicted :
            CacheOk Good
              (suc (time (http.clock (http.clock s).0).0))
              (evict_oldest http (http.clock s).0 with_answer true).1
            × (lookup Str-discrete key (evict_oldest http (http.clock s).0 with_answer true).1
                ≡ some (record { data_bytes = body; created_at = clock_now }))
        evicted =
            let found =
              evicted-CacheOk Good cache (time s) clock_now key body c named good (laws.reads s).0
                (http.clock (http.clock s).0).1
                (omega (arith, laws.reads s, laws.reads (http.clock s).0))
                (ltb→lt max_cache_entries (length with_answer) e) in
            (
              CacheOk-later Good (suc (http.clock (http.clock s).0).1)
                  (suc (time (http.clock (http.clock s).0).0)) _
                  (omega (arith, laws.reads (http.clock s).0)) found.0,
              found.1,
            )
    evict-StoredOk false e = record {
      kept =
          stored-CacheOk Good cache (time s) clock_now key body c named good (laws.reads s).0
            (suc (time (http.clock s).0)) (omega (arith, laws.reads s))
            (ltb→le max_cache_entries (length with_answer) e);
      entry = (
        good,
        (
          _,
          lookup-stored Good cache (time s) clock_now key body c named good (laws.reads s).0,
          refl,
        ),
      );
      calls_made = laws.clock_calls s;
    }

    store_answer-StoredOk : StoredOk s key body (store_answer http s key body cache)
    unfolding store_answer
    store_answer-StoredOk = evict-StoredOk _ refl

  module _ (s : S) (cache : ApiCache) (path : Str) (params : Params) where
    abbrev look_key : Str
    look_key = cache_key path params

    after_attempts-ApiOk :
        (r : S × Result ApiError Str)
        → CacheOk Good (time s) cache
        → look_key ≢ []
        → AttemptsOk http Good time calls laws s 3 r
        → ApiOk s cache look_key (after_attempts http look_key cache r)
    after_attempts-ApiOk (s', err e) c named h = record {
      kept = CacheOk-later Good (time s) (suc (time s')) cache (omega (arith, h.later)) c;
      failed = λ e q. refl;
      entry = λ b q. absurd (cc);
      calls_made = h.calls_made;
    }
    after_attempts-ApiOk (s', ok body) c named h = record {
      kept = st.kept;
      failed = λ e q. absurd (cc);
      entry = λ b q. subst (Entered _ look_key) (ok-injective body b q) st.entry;
      calls_made = omega (arith, st.calls_made, h.calls_made);
    }
      where
        st : StoredOk s' look_key body (store_answer http s' look_key body cache)
        st =
            store_answer-StoredOk s' cache look_key body
              (CacheOk-later Good (time s) (time s') cache h.later c) named (h.is_good body refl)

    AttemptsOk-from :
        (s' : S) {r : S × Result ApiError Str}
        → time s ≤ time s'
        → calls s' ≡ calls s
        → AttemptsOk http Good time calls laws s' 3 r
        → AttemptsOk http Good time calls laws s 3 r
    AttemptsOk-from s' later sends h = record {
      later = omega (arith, h.later);
      calls_made = omega (arith, h.calls_made);
      is_good = h.is_good;
    }

    after_look-ApiOk :
        (found : S × Option Str)
        → CacheOk Good (time s) cache
        → look_key ≢ []
        → time s ≤ time found.0
        → calls found.0 ≡ calls s
        → ((body : Str) → found.1 ≡ some body → Entered cache look_key body)
        → ApiOk s cache look_key (after_look http path params cache found)
    after_look-ApiOk (s', some body) c named later sends entry = record {
      kept = CacheOk-later Good (time s) (suc (time s')) cache (omega arith) c;
      failed = λ e q. refl;
      entry = λ b q. subst (Entered cache look_key) (ok-injective body b q) (entry body refl);
      calls_made = omega arith;
    }
    after_look-ApiOk (s', none) c named later sends entry =
        after_attempts-ApiOk (attempts http 3 0 s' path params) c named (
          AttemptsOk-from s' later sends
            (attempts-AttemptsOk http Good time calls laws 3 0 s' path params))

    entered :
        (x : CacheEntry)
        → lookup Str-discrete look_key cache ≡ some x
        → CacheOk Good (time s) cache
        → (b : Str) → x.data_bytes ≡ b
        → Entered cache look_key b
    entered x e c b q = (
      subst Good q (All-lookup Str-discrete (λ z. Good z.1.data_bytes) look_key cache c.good e),
      (x, e, q),
    )

    -- With an answer in the cache that is not too old, nothing is calls.
    check_entry-Entered :
        (o : Option CacheEntry)
        → CacheOk Good (time s) cache
        → lookup Str-discrete look_key cache ≡ o
        → (time s ≤ time (check_entry http s o).0)
          × (calls (check_entry http s o).0 ≡ calls s)
          × ((body : Str) → (check_entry http s o).1 ≡ some body → Entered cache look_key body)
    check_entry-Entered none c e = (omega arith, refl, λ b q. absurd (cc))
    check_entry-Entered (some x) c e = (
      omega (arith, laws.reads s),
      laws.clock_calls s,
      λ b q. entered x e c b (if_some _ x.data_bytes b q),
    )

    look_in_cache-Entered :
        (bypass : Bool)
        → CacheOk Good (time s) cache
        → (time s ≤ time (look_in_cache http s bypass look_key cache).0)
          × (calls (look_in_cache http s bypass look_key cache).0 ≡ calls s)
          × ((body : Str)
              → (look_in_cache http s bypass look_key cache).1 ≡ some body
              → Entered cache look_key body)
    look_in_cache-Entered true c = (omega arith, refl, λ b q. absurd (cc))
    look_in_cache-Entered false c = check_entry-Entered (lookup Str-discrete look_key cache) c refl

  -- If the clock is never put back, and the entries of the cache were made before the call began, apiGet
  -- calls Do three times at most. With an error the cache is as it was; an answer is the body of a
  -- response with a status below 400, now or earlier, and has an entry in the cache under its key. The
  -- cache has 100 entries at most, before and after.
  pub api_get-ApiOk :
      (s : S) (cache : ApiCache) (path : Str) (params : Params)
      → CacheOk Good (time s) cache
      → path ≢ []
      → ApiOk s cache (cache_key path params) (api_get http s cache path params)
  unfolding api_get
  api_get-ApiOk s cache path params c h =
      after_look-ApiOk s cache path params
        (look_in_cache http s (bypasses params) (cache_key path params) cache) c
        (cache_key_named path params h) looked.0 looked.1 looked.2
    where
      looked :
          (time s ≤ time (look_in_cache http s (bypasses params) (cache_key path params) cache).0)
          × (calls (look_in_cache http s (bypasses params) (cache_key path params) cache).0
              ≡ calls s)
          × ((body : Str)
              → (look_in_cache http s (bypasses params) (cache_key path params) cache).1 ≡ some body
              → Entered cache (cache_key path params) body)
      looked = look_in_cache-Entered s cache path params (bypasses params) c
