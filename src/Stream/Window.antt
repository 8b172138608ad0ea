-- ===== src/Stream/Window.antt =====
-- The windows of internal/stream/reader.go: fetchWindow and streamInto, which fill one, and
-- waitForBytes, which reads from one. The context's cancellation, the readings of the clock and the
-- answers of CDNClient.FetchRange are arguments; budget.acquire, maybeReadAhead and the clean-up of
-- the map of windows are the caller's. The length of a window is a natural number: no caller asks for
-- one from the end of the file on, where the code's length would be negative.
pub mod Content
pub mod Fill
pub mod Prefix
pub mod Sane
pub mod Whole
pub mod Passes
pub mod Wait
mod Tests
use torbox_fuse_go.Base.{
  ℕ, zero, suc, ◌+◌, ◌-◌, Bool, true, false, ◌&&◌, ◌||◌, not, ◌⊎◌, inl, inr, Option, none, some,
  List, [], ◌∷◌, ◌++◌, Str, if◌then◌else◌, length, replicate, take, drop, min, ltb, leb, ◌==◌,
}
use torbox_fuse_go.Cache.Types.{RangeCache}
use torbox_fuse_go.Cache.Ops.{copy_to, cached_prefix_len}
use torbox_fuse_go.Cache.Evict.{put_with_priority}

abbrev pub max_retries : ℕ
max_retries = 3

-- What isRetryable tells apart: an HTTPStatusError, the two errors of a context, and any other.
pub data FetchError : Type 0 where
  http_status : (code : ℕ) → FetchError
  deadline_exceeded : FetchError
  context_cancelled : FetchError
  read_failed : (bytes : ℕ) → FetchError
  no_data : FetchError
  other_error : FetchError

unfoldable pub is_retryable : FetchError → Bool
is_retryable (http_status code) = code == 429 || (leb 500 code && ltb code 600)
is_retryable deadline_exceeded = true
is_retryable context_cancelled = false
is_retryable _ = true

-- The body of a response, as its reads return it: bytes without an error, and then whether the
-- context is cancelled, or bytes with io.EOF, or bytes with another error.
pub data Body : Type 0 where
  reads : List ℕ → Bool → Body → Body
  eof : List ℕ → Body
  broken : List ℕ → Body

pub record Window : Type 0 where
  pub start : ℕ
  pub file_size : ℕ
  pub buf : List ℕ
  pub ready_to : ℕ
  pub total : ℕ
  pub err : Option FetchError
  pub done : Bool

-- `if n > 0 { … }`
unfoldable pub append_chunk : ℕ → ℕ → List ℕ → Window → Window
append_chunk buf_off total_read [] win = win
append_chunk buf_off total_read (c ∷ cs) win =
    let buf' = win.buf ++ c ∷ cs in
    record win {
      buf = buf';
      total = length buf';
      ready_to = buf_off + total_read + length (c ∷ cs);
    }

-- The window, the bytes read, and whether the stream ended well.
unfoldable pub stream_into : ℕ → ℕ → Window → Body → Window × ℕ × Bool
stream_into buf_off total_read win (eof bytes) =
    (append_chunk buf_off total_read bytes win, total_read + length bytes, true)
stream_into buf_off total_read win (broken bytes) =
    (append_chunk buf_off total_read bytes win, total_read + length bytes, false)
stream_into buf_off total_read win (reads bytes cancelled body) =
    let win' = append_chunk buf_off total_read bytes win in
    let rest = stream_into buf_off (total_read + length bytes) win' body in
    if cancelled then (win', total_read + length bytes, true) else rest

-- What fetchWindow changes.
pub record Fetch : Type 0 where
  pub cache : RangeCache
  pub window : Window

-- The window's bytes up to `n`, copied out of the cache into a buffer of that length.
unfoldable pub prefill : Str → ℕ → ℕ → Fetch → Fetch
prefill file_key zero now f = record f { window = record (f.window) { buf = [] } }
prefill file_key (suc k) now f =
    let (cache', r) = copy_to f.cache file_key f.window.start (replicate (suc k) 0) now in
    record {
      cache = cache';
      window = record (f.window) {
        buf = take r.n r.dst;
        total = length (take r.n r.dst);
        ready_to = length (take r.n r.dst);
      };
    }

-- The whole window is in the cache: the buffer keeps its length, whatever was copied.
unfoldable pub fill_from_cache : Str → ℕ → ℕ → ℕ → Fetch → Option Fetch
fill_from_cache file_key window_len cache_prio now f =
    let (cache', r) = copy_to f.cache file_key f.window.start (replicate window_len 0) now in
    let win = record (f.window) { buf = r.dst; total = r.n; ready_to = r.n; done = true } in
    elim (put_with_priority cache' file_key win.start win.buf cache_prio now) [
      | none ↦ none
      | some cache'' ↦ some (record { cache = cache''; window = win })
    ]

-- `if cl, ok := …; ok && cl > 0 { cachedLen = cl }`
abbrev pub prefix_or_zero : Option ℕ → ℕ
prefix_or_zero none = 0
prefix_or_zero (some n) = n

-- One pass of the loop of fetchWindow ends the function, or goes on with the next.
pub data Next : Type 0 where
  returns : Fetch → Next
  retries : FetchError → Fetch → Next

abbrev pub fail_with : FetchError → Fetch → Fetch
fail_with e f = record f { window = record (f.window) { err = some e } }

abbrev pub retry_or_fail : ℕ → FetchError → Fetch → Next
retry_or_fail attempt e f =
    if is_retryable e && ltb attempt max_retries then retries e f else returns (fail_with e f)

-- The end of a pass, behind streamInto: the buffer goes into the cache.
abbrev pub settle : ℕ → ℕ → Bool → Fetch → Next
settle attempt fetched success f =
    if success && leb 1 (length f.window.buf)
    then returns (record f { window = record (f.window) { done = true } })
    else retry_or_fail attempt (if success then no_data else read_failed fetched) f

unfoldable pub after_stream : Str → ℕ → ℕ → ℕ → RangeCache → Window × ℕ × Bool → Option Next
after_stream file_key cache_prio now attempt cache (win, fetched, success) =
    elim (put_with_priority cache file_key win.start win.buf cache_prio now) [
      | none ↦ none
      | some cache' ↦
          some (settle attempt fetched success (record { cache = cache'; window = win }))
    ]

-- What a pass meets: whether the context is cancelled in the pause before it, the answer to its
-- request for the bytes from the first to the second offset, and the clock.
pub record Round : Type 0 where
  pub cancelled : Bool
  pub answer : ℕ → ℕ → FetchError ⊎ Body
  pub now : ℕ

-- `winEnd`, the end of the window or of the file.
abbrev pub window_end : ℕ → Window → ℕ
window_end window_size win = min (win.start + window_size) win.file_size

abbrev pub on_answer : Str → ℕ → ℕ → ℕ → ℕ → Fetch → FetchError ⊎ Body → Option Next
on_answer file_key cache_prio now attempt cached_len f (inl e) = some (retry_or_fail attempt e f)
on_answer file_key cache_prio now attempt cached_len f (inr body) =
    after_stream file_key cache_prio now attempt f.cache (stream_into cached_len 0 f.window body)

unfoldable pub attempt_fetch : ℕ → ℕ → Str → ℕ → Round → Fetch → Option Next
attempt_fetch window_size cache_prio file_key attempt round f =
    let win_end = window_end window_size f.window in
    let cached_len = prefix_or_zero (cached_prefix_len f.cache file_key f.window.start) in
    let window_len = win_end - f.window.start in
    let f' = prefill file_key cached_len round.now f in
    if leb window_len cached_len
    then elim (fill_from_cache file_key window_len cache_prio round.now f) [
      | none ↦ none
      | some f'' ↦ some (returns f'')
    ]
    else on_answer file_key cache_prio round.now attempt cached_len f'
        (round.answer (f.window.start + cached_len) (win_end - 1))

-- A retry begins with an empty window, and a pause that the context may end.
abbrev pub reset : Fetch → Fetch
reset f = record f { window = record (f.window) { buf = []; total = 0; ready_to = 0 } }

unfoldable pub fetch_loop : ℕ → ℕ → ℕ → ℕ → Str → (ℕ → Round) → FetchError → Fetch → Option Fetch
fetch_loop zero attempt window_size cache_prio file_key rounds last f = some (fail_with last f)
fetch_loop (suc left) attempt window_size cache_prio file_key rounds last f =
    let round = rounds attempt in
    let f' = if ltb 0 attempt then reset f else f in
    if ltb 0 attempt && round.cancelled
    then some (fail_with context_cancelled f')
    else elim (attempt_fetch window_size cache_prio file_key attempt round f') [
      | none ↦ none
      | some (returns f'') ↦ some f''
      | some (retries e f'') ↦
          fetch_loop left (suc attempt) window_size cache_prio file_key rounds e f''
    ]

-- `acquired` is the error of budget.acquire, if it has one; the deferred call marks the window done.
unfoldable pub fetch_window : ℕ → ℕ → Str → (ℕ → Round) → Option FetchError → Fetch → Option Fetch
fetch_window window_size cache_prio file_key rounds (some e) f =
    some (record f { window = record (f.window) { err = some e; done = true } })
fetch_window window_size cache_prio file_key rounds none f =
    elim (fetch_loop (suc max_retries) 0 window_size cache_prio file_key rounds no_data f) [
      | none ↦ none
      | some f' ↦ some (record f' { window = record (f'.window) { done = true } })
    ]

-- What waitForBytes finds when it looks at the window under its lock: it sleeps, fails, or has the
-- bytes for the front of the reader's buffer.
pub data Look : Type 0 where
  sleeps : Look
  cancelled_read : Look
  fails : FetchError → Look
  nothing_there : Look
  got : (n : ℕ) (bytes : List ℕ) → Look

abbrev pub copy_ready : Window → ℕ → ℕ → Look
copy_ready win off_in_win len =
    let n = min (win.ready_to - off_in_win) len in
    if leb win.ready_to off_in_win then nothing_there else got n (take n (drop off_in_win win.buf))

-- `if win.err != nil { … }`
abbrev pub report : Option FetchError → Window → ℕ → ℕ → Look
report (some e) win off_in_win len = fails e
report none win off_in_win len = copy_ready win off_in_win len

unfoldable pub look_at : Bool → Window → ℕ → ℕ → Look
look_at true win off len = cancelled_read
look_at false win off len =
    let off_in_win = off - win.start in
    if leb (off_in_win + len) win.ready_to || win.done
    then report win.err win off_in_win len
    else sleeps
