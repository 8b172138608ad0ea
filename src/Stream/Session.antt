-- ===== src/Stream/Session.antt =====
-- The access pattern of a file in internal/stream/reader.go, which decides between read-ahead, small
-- reads and the two priorities. The counters are int32: they wrap, and from 2^31 on they are negative.
pub mod Playback
mod Tests
use torbox_fuse_go.Base.{
  ℕ, zero, suc, ◌+◌, ◌-◌, ◌*◌, ◌%◌, ◌^◌, ◌<◌, ◌≤◌, ◌≡◌, refl, ap, ◌∙◌, Bool, true, false, ◌&&◌,
  List, [], ◌∷◌, if◌then◌else◌, length, ltb, leb, ◌==◌, arith, Bool-cases, inl, inr,
}
use torbox_fuse_go.Cache.Types.{priority_low, priority_high}

abbrev pub small_read_threshold : ℕ
small_read_threshold = 256 * 1024

abbrev pub sequential_read_window : ℕ
sequential_read_window = 4 * 1024 * 1024

abbrev pub sequential_reads_required : ℕ
sequential_reads_required = 1

abbrev pub active_read_threshold : ℕ
active_read_threshold = 4

-- Five seconds, in nanoseconds.
abbrev pub recent_read_ttl : ℕ
recent_read_ttl = 5000000000

abbrev pub budget_priority_threshold : ℕ
budget_priority_threshold = 16 * 1024

pub record FileSession : Type 0 where
  pub last_seek : ℕ
  pub last_read_off : ℕ
  pub sequential_reads : ℕ
  pub random_reads : ℕ
  pub recent_reads : ℕ
  pub last_read_time : ℕ
  pub last_known_file_size : ℕ

abbrev pub new_session : FileSession
new_session = record {
  last_seek = 0;
  last_read_off = 0;
  sequential_reads = 0;
  random_reads = 0;
  recent_reads = 0;
  last_read_time = 0;
  last_known_file_size = 0;
}

-- `Add(1)` on an atomic.Int32, and `Load() >= k` for a positive `k`.
abbrev pub incr : ℕ → ℕ
incr n = (n + 1) % 2 ^ 32

abbrev pub at_least_int32 : ℕ → ℕ → Bool
at_least_int32 k n = leb k n && ltb n (2 ^ 31)

unfoldable pub update_access_pattern : ℕ → ℕ → FileSession → FileSession
update_access_pattern off size sess =
    let last_off = sess.last_read_off in
    let sess' = record sess { last_read_off = off + size } in
    let sequential = record sess' { sequential_reads = incr sess.sequential_reads } in
    let random = record sess' { sequential_reads = 0; random_reads = incr sess.random_reads } in
    if last_off == 0
    then (if off == 0 then sequential else sess')
    else if leb (last_off - sequential_read_window) off
        && leb off (last_off + sequential_read_window)
    then sequential
    else random

unfoldable pub is_sequential : FileSession → Bool
is_sequential sess = at_least_int32 sequential_reads_required sess.sequential_reads

-- What ReadAt notes of a read, after its check for a seek.
unfoldable pub note_read : ℕ → ℕ → ℕ → ℕ → FileSession → FileSession
note_read off len file_size now sess =
    let sess' = update_access_pattern off len sess in
    record sess' {
      recent_reads = incr sess'.recent_reads;
      last_read_time = now;
      last_known_file_size =
          if ltb sess'.last_known_file_size file_size
          then file_size
          else sess'.last_known_file_size;
    }

-- Whether ReadAt tries the small read first.
unfoldable pub takes_small_read : ℕ → FileSession → Bool
takes_small_read len sess =
    leb len small_read_threshold
    && at_least_int32 1 sess.random_reads
    && (if is_sequential sess then false else true)

unfoldable pub compute_cache_priority : ℕ → FileSession → ℕ
compute_cache_priority now sess =
    if is_sequential sess
      && at_least_int32 active_read_threshold sess.recent_reads
      && ltb (now - sess.last_read_time) recent_read_ttl
    then priority_high
    else priority_low

unfoldable pub compute_budget_priority : ℕ → FileSession → ℕ → ℕ
compute_budget_priority now sess read_size =
    if compute_cache_priority now sess == priority_high
    then priority_high
    else if ltb budget_priority_threshold read_size
    then priority_high
    else priority_low

-- Reads of the given sizes, one behind the other, each with the clock's reading; ReadAt returns from an
-- empty one before it notes it.
unfoldable pub play : ℕ → ℕ → List (ℕ × ℕ) → FileSession → FileSession
play off file_size [] sess = sess
play off file_size ((zero, now) ∷ rest) sess = play off file_size rest sess
play off file_size ((suc len, now) ∷ rest) sess =
    play (off + suc len) file_size rest (note_read off (suc len) file_size now sess)
