-- ===== src/Stream/Inflight.antt =====
-- The map of windows in flight in internal/stream/reader.go: getOrCreateWindow, the end of a fetch,
-- cleanupWindow, the windows' part of CancelFile, maybeCancelOnSeek and maybeReadAhead. Each call runs
-- on the map without another in between. A window's identity is its number.
pub mod Gauge
pub mod Calls
pub mod Sharing
mod Tests
use torbox_fuse_go.Base.{
  ℕ, zero, suc, ◌+◌, ◌-◌, ◌*◌, ◌/◌, Bool, true, false, not, ◌&&◌, ◌||◌, Option, none, some, List,
  [], ◌∷◌, map, Str, str_eq, Str-discrete, ℕ_discrete, ℤ, pos, ◌+ℤ◌, ◌-ℤ◌, if◌then◌else◌, ltb, leb,
  ◌==◌, lookup, insert, delete,
}
use torbox_fuse_go.Cache.Types.{RangeCache}
use torbox_fuse_go.Cache.Ops.{copy_to}
use torbox_fuse_go.Stream.Session.{FileSession, is_sequential}

pub record InflightKey : Type 0 where
  pub file_key : Str
  pub start : ℕ

unfoldable pub InflightKey-discrete : Discrete InflightKey
unfolding Str-discrete ℕ_discrete
InflightKey-discrete = hlevel ℕ_discrete

-- An inflightWindow as the map's users see it; `failed` is whether its `err` is set.
pub record InflightWindow : Type 0 where
  pub id : ℕ
  pub file_size : ℕ
  pub waiters : ℕ
  pub done : Bool
  pub failed : Bool
  pub cancelled : Bool

abbrev pub Windows : Type 0
Windows = List (InflightKey × InflightWindow)

-- The map, the gauges that its users write, and the fetches begun, each with its priority.
pub record Streams : Type 0 where
  pub inflight : Windows
  pub inflight_windows : Option ℤ
  pub cancelled_stream_count : Option ℤ
  pub next_id : ℕ
  pub fetches : List (ℕ × ℕ)

abbrev pub new_streams : Option ℤ → Streams
new_streams m = record {
  inflight = [];
  inflight_windows = m;
  cancelled_stream_count = m;
  next_id = 0;
  fetches = [];
}

-- `if sr.metrics != nil { ….Add(n) }`
abbrev pub gauge_add : Option ℤ → ℕ → Option ℤ
gauge_add none n = none
gauge_add (some g) n = some (g +ℤ pos n)

abbrev pub gauge_sub : Option ℤ → ℕ → Option ℤ
gauge_sub none n = none
gauge_sub (some g) n = some (g -ℤ pos n)

unfoldable pub remove_window : Streams → InflightKey → Streams
remove_window s key = record s {
  inflight = delete InflightKey-discrete key s.inflight;
  inflight_windows = gauge_sub s.inflight_windows 1;
}

abbrev pub new_window : Streams → ℕ → InflightWindow
new_window s file_size = record {
  id = s.next_id;
  file_size = file_size;
  waiters = 0;
  done = false;
  failed = false;
  cancelled = false;
}

unfoldable pub create_window : Streams → InflightKey → ℕ → ℕ → Streams
create_window s key file_size priority = record s {
  inflight = insert InflightKey-discrete key (new_window s file_size) s.inflight;
  inflight_windows = gauge_add s.inflight_windows 1;
  next_id = suc s.next_id;
  fetches = (s.next_id, priority) ∷ s.fetches;
}

-- The window's number, and whether it is new. A window that failed makes room for a new one.
unfoldable pub get_or_create_window : Streams → InflightKey → ℕ → ℕ → Streams × ℕ × Bool
get_or_create_window s key file_size priority = elim (lookup InflightKey-discrete key s.inflight) [
  | none ↦ (create_window s key file_size priority, s.next_id, true)
  | some win ↦
      if win.done && win.failed
      then (create_window (remove_window s key) key file_size priority, s.next_id, true)
      else (s, win.id, false)
]

-- The deferred call of fetchWindow, and its `win.err = …`.
abbrev pub end_window : ℕ → Bool → InflightKey × InflightWindow → InflightKey × InflightWindow
end_window id failed (key, win) =
    if win.id == id then (key, record win { done = true; failed = failed }) else (key, win)

unfoldable pub end_fetch : Streams → ℕ → Bool → Streams
end_fetch s id failed = record s { inflight = map (end_window id failed) s.inflight }

-- Only the window that is still registered is removed.
unfoldable pub cleanup_window : Streams → InflightKey → ℕ → Streams
cleanup_window s key id = elim (lookup InflightKey-discrete key s.inflight) [
  | none ↦ s
  | some win ↦ if win.id == id then remove_window s key else s
]

-- The first loop of CancelFile: what is left, how many windows were removed, and the largest size.
unfoldable pub drop_windows : Str → Windows → Windows × ℕ × ℕ
drop_windows file_key [] = ([], 0, 0)
drop_windows file_key ((key, win) ∷ ws) =
    let (kept, removed, size) = drop_windows file_key ws in
    if str_eq key.file_key file_key
    then (kept, suc removed, (if ltb size win.file_size then win.file_size else size))
    else ((key, win) ∷ kept, removed, size)

unfoldable pub cancel_windows : Streams → Str → Streams × ℕ
cancel_windows s file_key =
    let (kept, removed, size) = drop_windows file_key s.inflight in
    (
      record s {
        inflight = kept;
        inflight_windows =
            if ltb 0 removed then gauge_sub s.inflight_windows removed else s.inflight_windows;
      },
      size,
    )

abbrev pub distance : ℕ → ℕ → ℕ
distance a b = (a - b) + (b - a)

abbrev pub any_near : Str → ℕ → ℕ → Windows → Bool
any_near file_key off threshold [] = false
any_near file_key off threshold ((key, win) ∷ ws) =
    (str_eq key.file_key file_key && leb (distance off key.start) threshold)
    || any_near file_key off threshold ws

-- Whether a seek cancels the window: it is done, nobody waits for it, and it is far.
abbrev pub seek_cancels : Str → ℕ → ℕ → InflightKey × InflightWindow → Bool
seek_cancels file_key off threshold (key, win) =
    str_eq key.file_key file_key
    && ltb threshold (distance off key.start)
    && win.done
    && win.waiters == 0

abbrev pub seek_window : Str → ℕ → ℕ → InflightKey × InflightWindow → InflightKey × InflightWindow
seek_window file_key off threshold e =
    if seek_cancels file_key off threshold e then (e.0, record (e.1) { cancelled = true }) else e

abbrev pub any_cancelled : Str → ℕ → ℕ → Windows → Bool
any_cancelled file_key off threshold [] = false
any_cancelled file_key off threshold (e ∷ ws) =
    seek_cancels file_key off threshold e || any_cancelled file_key off threshold ws

-- The flag is whether the session's `lastSeek` is set to the present.
unfoldable pub maybe_cancel_on_seek : ℕ → Streams → Str → ℕ → Streams × Bool
maybe_cancel_on_seek window_size s file_key off =
    let threshold = window_size * 4 in
    let cancelled = any_cancelled file_key off threshold s.inflight in
    if any_near file_key off threshold s.inflight then (s, false) else (
      record s {
        inflight = map (seek_window file_key off threshold) s.inflight;
        cancelled_stream_count =
            if cancelled then gauge_add s.cancelled_stream_count 1 else s.cancelled_stream_count;
      },
      cancelled,
    )

abbrev pub is_active : Str → InflightKey × InflightWindow → Bool
is_active file_key (key, win) = str_eq key.file_key file_key && not win.done

abbrev pub active_count : Str → Windows → ℕ
active_count file_key [] = 0
active_count file_key (e ∷ ws) = (if is_active file_key e then 1 else 0) + active_count file_key ws

abbrev pub is_some {ℓ} : {A : Type ℓ} → Option A → Bool
is_some none = false
is_some (some a) = true

-- Two seconds, in nanoseconds.
abbrev pub seek_pause : ℕ
seek_pause = 2000000000

-- The next window is fetched ahead unless one of the checks, in the code's order, ends the call. The
-- fourth of them reads a byte of the cache.
unfoldable pub maybe_read_ahead :
    ℕ → ℕ → RangeCache → Streams → Str → ℕ → ℕ → ℕ → FileSession → ℕ → ℕ → RangeCache × Streams
maybe_read_ahead window_size max_inflight cache s file_key end_off win_start file_size sess priority
      now =
    let next_start = win_start + window_size in
    let key : InflightKey = record { file_key = file_key; start = next_start } in
    let (cache', probe) = copy_to cache file_key next_start (0 ∷ []) now in
    if leb file_size next_start
      || not (is_sequential sess)
      || ltb end_off (win_start + window_size / 2)
      || ltb (now - sess.last_seek) seek_pause
    then (cache, s)
    else if probe.hit
        || is_some (lookup InflightKey-discrete key s.inflight)
        || leb max_inflight (active_count file_key s.inflight)
    then (cache', s)
    else (cache', (get_or_create_window s key file_size priority).0)
