-- ===== src/Stream/Handles.antt =====
-- Open handles and closed files in internal/stream/reader.go: TrackReader, UntrackReader, HasReaders,
-- CancelFile, maybeCleanupSession and cleanupRecentlyClosed. Each call runs without another in between.
pub mod Apart
pub mod Calls
pub mod Readers
mod Tests
use torbox_fuse_go.Base.{
  ℕ, ◌+◌, ◌-◌, Bool, true, false, ◌||◌, Option, none, some, List, [], ◌∷◌, Str, Str-discrete,
  str_eq, ℕ_discrete, ℤ, if◌then◌else◌, length, ltb, ◌==◌, lookup, insert, delete,
}
use torbox_fuse_go.Cache.Types.{RangeCache, BlockInfo}
use torbox_fuse_go.Cache.Blocks.{file_blocks}
use torbox_fuse_go.Stream.Session.{FileSession, new_session}
use torbox_fuse_go.Stream.Inflight.{Windows, Streams, new_streams, cancel_windows}

-- One hour, in nanoseconds.
abbrev pub recently_closed_ttl : ℕ
recently_closed_ttl = 3600000000000

pub record ClosedEntry : Type 0 where
  pub file_size : ℕ
  pub closed_at : ℕ

-- A file's readersMap: the last read offset of each open handle.
abbrev pub Positions : Type 0
Positions = List (ℕ × ℕ)

pub record Handles : Type 0 where
  pub streams : Streams
  pub sessions : List (Str × FileSession)
  pub readers : List (Str × Positions)
  pub recently_closed : List (Str × ClosedEntry)

abbrev pub new_handles : Option ℤ → Handles
new_handles m = record {
  streams = new_streams m;
  sessions = [];
  readers = [];
  recently_closed = [];
}

-- `LoadOrStore` of an empty map.
abbrev pub positions_of : Option Positions → Positions
positions_of none = []
positions_of (some pos) = pos

unfoldable pub track_reader : Handles → Str → ℕ → ℕ → Handles
track_reader h file_key reader_id off =
    let pos = positions_of (lookup Str-discrete file_key h.readers) in
    record h {
      readers = insert Str-discrete file_key (insert ℕ_discrete reader_id off pos) h.readers;
      recently_closed = delete Str-discrete file_key h.recently_closed;
    }

-- The file's map with one handle less; an empty one is removed.
abbrev pub store_positions : Str → Positions → List (Str × Positions) → List (Str × Positions)
store_positions file_key [] readers = delete Str-discrete file_key readers
store_positions file_key (p ∷ pos) readers = insert Str-discrete file_key (p ∷ pos) readers

abbrev pub untrack_from :
    Option Positions → Str → ℕ → List (Str × Positions) → List (Str × Positions)
untrack_from none file_key reader_id readers = readers
untrack_from (some pos) file_key reader_id readers =
    store_positions file_key (delete ℕ_discrete reader_id pos) readers

unfoldable pub untrack_reader : Handles → Str → ℕ → Handles
untrack_reader h file_key reader_id = record h {
  readers = untrack_from (lookup Str-discrete file_key h.readers) file_key reader_id h.readers;
}

unfoldable pub has_readers : Handles → Str → Bool
has_readers h file_key = ltb 0 (length (positions_of (lookup Str-discrete file_key h.readers)))

abbrev pub session_size : Option FileSession → ℕ
session_size none = 0
session_size (some sess) = sess.last_known_file_size

abbrev pub largest_end : List BlockInfo → ℕ
largest_end [] = 0
largest_end (b ∷ bs) = let rest = largest_end bs in if ltb rest b.end then b.end else rest

-- The size of the file: from its windows, or from its session, or from its blocks.
unfoldable pub closing_size : Handles → RangeCache → Str → ℕ → ℕ
closing_size h cache file_key window_size =
    if window_size == 0
    then (if session_size (lookup Str-discrete file_key h.sessions) == 0
        then largest_end (file_blocks cache file_key)
        else session_size (lookup Str-discrete file_key h.sessions))
    else window_size

unfoldable pub cancel_file : Handles → RangeCache → Str → ℕ → Handles
cancel_file h cache file_key now =
    let (streams', window_size) = cancel_windows h.streams file_key in
    let file_size = closing_size h cache file_key window_size in
    record {
      streams = streams';
      sessions = delete Str-discrete file_key h.sessions;
      readers = delete Str-discrete file_key h.readers;
      recently_closed =
          if ltb 0 file_size
          then insert Str-discrete file_key (record { file_size = file_size; closed_at = now })
              h.recently_closed
          else h.recently_closed;
    }

abbrev pub any_window : Str → Windows → Bool
any_window file_key [] = false
any_window file_key ((key, win) ∷ ws) = str_eq key.file_key file_key || any_window file_key ws

unfoldable pub maybe_cleanup_session : Handles → Str → Handles
maybe_cleanup_session h file_key =
    if any_window file_key h.streams.inflight || has_readers h file_key
    then h
    else record h { sessions = delete Str-discrete file_key h.sessions }

unfoldable pub drop_closed : ℕ → List (Str × ClosedEntry) → List (Str × ClosedEntry)
drop_closed cutoff [] = []
drop_closed cutoff ((file_key, entry) ∷ es) =
    let rest = drop_closed cutoff es in
    if ltb entry.closed_at cutoff then rest else (file_key, entry) ∷ rest

unfoldable pub cleanup_recently_closed : Handles → ℕ → Handles
cleanup_recently_closed h now = record h {
  recently_closed = drop_closed (now - recently_closed_ttl) h.recently_closed;
}
