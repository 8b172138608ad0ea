-- ===== src/Torbox/Api/Retries.antt =====
-- apiGet of internal/torbox/client.go when the API answers at one of the attempts, and when the answer
-- is in the cache.
use torbox_fuse_go.Base.{
  ap, ◌∙◌, ◌≤◌, leb, ◌==◌, false, ℕ, zero, suc, ◌-◌, ◌<◌, true, false, some, Str, Str-discrete, ltb,
  lookup, ◌≡◌, refl, arith, Result, ok, err,
}
use torbox_fuse_go.Torbox.Api.{
  Outcome, limit_read, CacheEntry, ApiCache, Params, Http, Verdict, ApiError, verdict, attempts,
  after_attempts, api_get, cache_key, bypasses, cache_ttl,
}

lt→ltb : (a b : ℕ) → a < b → ltb a b ≡ true
lt→ltb a b h = ground arith

verdict_fails :
    (status : ℕ) (body : Str)
    → 500 ≤ status
    → verdict (Outcome.reply status body) ≡ Verdict.again_or ApiError.server_error
unfolding verdict
verdict_fails status body h =
    let other : (status == 429) ≡ false = ground arith in
    let high : leb 500 status ≡ true = ground arith in rw (other, high) refl

verdict_answer :
    (status : ℕ) (body : Str)
    → status < 400
    → verdict (Outcome.reply status body) ≡ Verdict.answer (limit_read body)
unfolding verdict
verdict_answer status body h =
    let other : (status == 429) ≡ false = ground arith in
    let not_server : leb 500 status ≡ false = ground arith in
    let not_client : leb 400 status ≡ false = ground arith in
    rw (other, not_server, not_client) refl

module _ {S : Type 0} (http : Http S) (path : Str) (params : Params) where
  -- The world behind attempts that the API does not answer.
  unfoldable pub after_tries : ℕ → S → S
  after_tries zero s = s
  after_tries (suc n) s = http.backoff (http.send (after_tries n s) path params).0 n

  -- What the API does at an attempt.
  abbrev pub tried : ℕ → S → Outcome
  tried n s = (http.send (after_tries n s) path params).1

  -- A response with an error of the server.
  abbrev pub ServerFails : Outcome → Type 0
  ServerFails o = (status : ℕ) × (body : Str) × (o ≡ Outcome.reply status body) × (500 ≤ status)

  attempts_answer :
      (n : ℕ) (s : S) (body : Str)
      → n < 3
      → ((k : ℕ) → k < n → verdict (tried k s) ≡ Verdict.again_or ApiError.server_error)
      → verdict (tried n s) ≡ Verdict.answer body
      → (attempts http 3 0 s path params).1 ≡ ok body
  unfolding after_tries attempts
  attempts_answer zero s body lt h e = rw (attempts, e) refl
  attempts_answer (suc zero) s body lt h e =
      rw (attempts, h 0 (omega arith)) (rw (attempts, e) refl)
  attempts_answer (suc (suc zero)) s body lt h e =
      rw (attempts, h 0 (omega arith)) (rw (attempts, h 1 (omega arith)) (rw (attempts, e) refl))
  attempts_answer (suc (suc (suc n))) s body lt h e = absurd (omega arith)

  after_attempts_answer :
      (cache : ApiCache) (body : Str) (r : S × Result ApiError Str)
      → r.1 ≡ ok body
      → (after_attempts http (cache_key path params) cache r).2 ≡ ok body
  after_attempts_answer cache body (s, ok b) e = e
  after_attempts_answer cache body (s, err b) e = absurd (cc)

  -- Past the cache, the body of a response with a status below 400 at one of the first three attempts,
  -- up to the limit of what is read of it, is what apiGet returns, if every attempt before it had a
  -- response with a status of 500 or above.
  pub api_get-answer :
      (n : ℕ) (s : S) (cache : ApiCache) (status : ℕ) (body : Str)
      → bypasses params ≡ true
      → n < 3
      → ((k : ℕ) → k < n → ServerFails (tried k s))
      → tried n s ≡ Outcome.reply status body
      → status < 400
      → (api_get http s cache path params).2 ≡ ok (limit_read body)
  unfolding api_get
  api_get-answer n s cache status body b lt h e low =
      rw (api_get, b)
        (after_attempts_answer cache (limit_read body) (attempts http 3 0 s path params) (
          attempts_answer n s (limit_read body) lt
            (λ k before.
              let (st, whole, is, high) = h k before in ap verdict is ∙ verdict_fails st whole high)
            (ap verdict e ∙ verdict_answer status body low)))

  -- An entry of the cache under the key, and not older than the limit, is answered without a request,
  -- unless the parameters ask to go past the cache.
  pub api_get-cached :
      (s : S) (cache : ApiCache) (e : CacheEntry)
      → bypasses params ≡ false
      → lookup Str-discrete (cache_key path params) cache ≡ some e
      → (http.clock s).1 - e.created_at < cache_ttl
      → api_get http s cache path params ≡ ((http.clock s).0, cache, ok e.data_bytes)
  unfolding api_get
  api_get-cached s cache e b l lt = rw (api_get, b, l, lt→ltb _ _ lt) refl
