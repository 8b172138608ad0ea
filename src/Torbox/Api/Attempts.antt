-- ===== src/Torbox/Api/Attempts.antt =====
-- The attempts of apiGet of internal/torbox/client.go: how many requests they send and what they answer.
use torbox_fuse_go.Base.{
  ℕ, zero, suc, ◌+◌, ◌≤◌, ◌<◌, Bool, true, false, Str, ltb, ◌≡◌, refl, arith, Result, ok, err,
  if◌then◌else◌, leb, ◌==◌, subst, ok-injective,
}
use torbox_fuse_go.Torbox.Api.{
  Params, ApiError, Outcome, Http, Verdict, verdict, attempts, limit_read, after_verdict,
  unless_done,
}

if_answer :
    (rate server client : Bool) (whole body : Str)
    → (if rate
        then Verdict.wait_or ApiError.rate_limited
        else if server
        then Verdict.again_or ApiError.server_error
        else if client
        then Verdict.stop ApiError.client_error
        else Verdict.answer whole)
      ≡ Verdict.answer body
    → (client ≡ false) × (whole ≡ body)
if_answer rate server client whole body e = (ground arith, ground arith)

leb→lt : (a b : ℕ) → leb a b ≡ false → b < a
leb→lt a b h = ground arith

-- The clock is never put back; `calls` counts the calls of Do; the body of a response with a status
-- below 400 is Good.
pub record HttpOk {S : Type 0} (http : Http S) (Good : Str → Type 0) (time calls : S → ℕ)
    : Type 0 where
  pub reads : (s : S) → (time s ≤ (http.clock s).1) × ((http.clock s).1 ≤ time (http.clock s).0)
  pub send_time : (s : S) (path : Str) (params : Params) → time s ≤ time (http.send s path params).0
  pub wait_time : (s : S) → time s ≤ time (http.retry_after s).0
  pub backoff_time : (s : S) (n : ℕ) → time s ≤ time (http.backoff s n)
  pub clock_calls : (s : S) → calls (http.clock s).0 ≡ calls s
  pub send_calls :
      (s : S) (path : Str) (params : Params) → calls (http.send s path params).0 ≡ suc (calls s)
  pub wait_calls : (s : S) → calls (http.retry_after s).0 ≡ calls s
  pub backoff_calls : (s : S) (n : ℕ) → calls (http.backoff s n) ≡ calls s
  pub answers :
      (s : S) (path : Str) (params : Params) (status : ℕ) (body : Str)
      → (http.send s path params).1 ≡ Outcome.reply status body
      → status < 400
      → Good (limit_read body)

module _ {S : Type 0} (http : Http S) (Good : Str → Type 0) (time calls : S → ℕ)
    (laws : HttpOk http Good time calls) where
  -- What holds behind attempts.
  pub record AttemptsOk (s : S) (left : ℕ) (r : S × Result ApiError Str) : Type 0 where
    pub later : time s ≤ time r.0
    pub calls_made : calls r.0 ≤ calls s + left
    pub is_good : (body : Str) → r.1 ≡ ok body → Good body

  verdict-Good :
      (outcome : Outcome) {body : Str}
      → ((status : ℕ) (whole : Str)
          → outcome ≡ Outcome.reply status whole
          → status < 400
          → Good (limit_read whole))
      → verdict outcome ≡ Verdict.answer body
      → Good body
  unfolding verdict
  verdict-Good Outcome.bad_request h e = absurd (cc)
  verdict-Good Outcome.no_response h e = absurd (cc)
  verdict-Good Outcome.no_body h e = absurd (cc)
  verdict-Good (Outcome.reply status body) h e =
      let (low, whole) = if_answer (status == 429) (leb 500 status) (leb 400 status) _ _ e in
      subst Good whole (h _ _ refl (leb→lt 400 status low))

  AttemptsOk-err :
      (s s' : S) (left : ℕ) (e : ApiError)
      → time s ≤ time s'
      → calls s' ≤ calls s + left
      → AttemptsOk s left (s', err e)
  AttemptsOk-err s s' left e later calls_made = record {
    later = later;
    calls_made = calls_made;
    is_good = λ b x. absurd (cc);
  }

  AttemptsOk-next :
      (s s' : S) (left : ℕ) (r : S × Result ApiError Str)
      → time s ≤ time s'
      → calls s' ≤ suc (calls s)
      → AttemptsOk s' left r
      → AttemptsOk s (suc left) r
  AttemptsOk-next s s' left r later sends h = record {
    later = omega (arith, h.later);
    calls_made = omega (arith, h.calls_made);
    is_good = h.is_good;
  }

  AttemptsOk-either :
      (s : S) (left : ℕ) (b : Bool) (x y : S × Result ApiError Str)
      → AttemptsOk s left x
      → AttemptsOk s left y
      → AttemptsOk s left (elim b [ true ↦ x | false ↦ y ])
  AttemptsOk-either s left true x y h k = h
  AttemptsOk-either s left false x y h k = k

  module _ (s s' : S) (left made : ℕ) (next : S → S × Result ApiError Str)
      (later : time s ≤ time s') (calls_made : calls s' ≤ suc (calls s))
      (ih : (z : S) → AttemptsOk z left (next z)) where
    unless_done-AttemptsOk :
        (w : S × Bool)
        → time s' ≤ time w.0
        → calls w.0 ≡ calls s'
        → AttemptsOk s (suc left) (unless_done http next made w)
    unless_done-AttemptsOk (w, true) t n =
        AttemptsOk-err s w (suc left) _ (omega arith) (omega arith)
    unless_done-AttemptsOk (w, false) t n =
        AttemptsOk-next s (http.backoff w made) left _ (omega (arith, laws.backoff_time w made))
          (omega (arith, laws.backoff_calls w made)) (ih _)

    after_verdict-AttemptsOk :
        (v : Verdict)
        → ((body : Str) → v ≡ Verdict.answer body → Good body)
        → AttemptsOk s (suc left) (after_verdict http next made s' v)
    after_verdict-AttemptsOk (Verdict.stop e) h =
        AttemptsOk-err s s' (suc left) e later (omega arith)
    after_verdict-AttemptsOk (Verdict.answer body) h = record {
      later = later;
      calls_made = omega arith;
      is_good = λ b e. subst Good (ok-injective _ _ e) (h _ refl);
    }
    after_verdict-AttemptsOk (Verdict.again_or e) h =
        AttemptsOk-either s (suc left) (ltb made 2) _ _
          (AttemptsOk-next s (http.backoff s' made) left _
            (omega (arith, laws.backoff_time s' made)) (omega (arith, laws.backoff_calls s' made))
            (ih _))
          (AttemptsOk-err s s' (suc left) e later (omega arith))
    after_verdict-AttemptsOk (Verdict.wait_or e) h =
        AttemptsOk-either s (suc left) (ltb made 2) _ _
          (unless_done-AttemptsOk (http.retry_after s') (laws.wait_time s') (laws.wait_calls s'))
          (AttemptsOk-err s s' (suc left) e later (omega arith))

  pub attempts-AttemptsOk :
      (left made : ℕ) (s : S) (path : Str) (params : Params)
      → AttemptsOk s left (attempts http left made s path params)
  unfolding attempts
  attempts-AttemptsOk zero made s path params = AttemptsOk-err s s 0 _ (omega arith) (omega arith)
  attempts-AttemptsOk (suc left) made s path params =
      after_verdict-AttemptsOk s (http.send s path params).0 left made _
        (laws.send_time s path params) (omega (arith, laws.send_calls s path params))
        (λ z. attempts-AttemptsOk left (suc made) z path params)
        (verdict (http.send s path params).1) (λ b. verdict-Good _ (laws.answers s path params))
