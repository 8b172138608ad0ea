-- ===== src/Stream/Inflight/Calls.antt =====
-- Any sequence of calls on the map of windows.
use torbox_fuse_go.Base.{
  ◌-◌, ◌/◌, not, ◌*◌, ◌||◌, leb, ℕ, ◌+◌, sym, inl, inr, subst, Bool, Option, List, [], ◌∷◌, Str, ℤ,
  lookup, ltb, ◌==◌, Bool-cases, Option-cases, arith,
}
use torbox_fuse_go.Cache.Types.{RangeCache}
use torbox_fuse_go.Stream.Session.{FileSession}
use torbox_fuse_go.Stream.Inflight.{
  active_count, is_some, seek_pause, is_sequential, copy_to, InflightKey, InflightKey-discrete,
  Streams, new_streams, get_or_create_window, end_window, end_fetch, cleanup_window, drop_windows,
  cancel_windows, seek_window, any_near, maybe_cancel_on_seek, maybe_read_ahead,
}
use torbox_fuse_go.Stream.Inflight.Gauge.{
  Shows, Counted, gauge_sub-Shows, remove_window-Counted, get_or_create_window-Counted,
  map-Distinct, map-length, end_window-key, seek_window-key, drop_windows-kept,
}

cleanup_window-Counted :
    (s : Streams) (key : InflightKey) (id : ℕ) → Counted s → Counted (cleanup_window s key id)
unfolding cleanup_window
cleanup_window-Counted s key id c =
    elim (Option-cases (lookup InflightKey-discrete key s.inflight)) [
      | inl e ↦ rw (e, cleanup_window) c
      | inr (win, e) ↦ elim (Bool-cases (win.id == id)) [
        | inl own ↦ rw (e, cleanup_window, own) (remove_window-Counted s key win e c).0
        | inr other ↦ rw (e, cleanup_window, other) c
      ]
    ]

end_fetch-Counted :
    (s : Streams) (id : ℕ) (failed : Bool) → Counted s → Counted (end_fetch s id failed)
unfolding end_fetch
end_fetch-Counted s id failed c = record {
  distinct = map-Distinct (end_window id failed) (end_window-key id failed) s.inflight c.distinct;
  gauge =
      subst (Shows s.inflight_windows)
        (sym (map-length (end_window id failed) (end_window-key id failed) s.inflight)) c.gauge;
}

cancel_windows-Counted :
    (s : Streams) (file_key : Str) → Counted s → Counted (cancel_windows s file_key).0
unfolding cancel_windows
cancel_windows-Counted s file_key c =
    let (d, n) = drop_windows-kept file_key s.inflight c.distinct in
    elim (Bool-cases (ltb 0 (drop_windows file_key s.inflight).1)) [
      | inl some_gone ↦ record {
        distinct = d;
        gauge = rw some_gone (gauge_sub-Shows s.inflight_windows _ _ _ c.gauge n);
      }
      | inr none_gone ↦ record {
        distinct = d;
        gauge = rw none_gone (subst (Shows s.inflight_windows) (ground (arith, n)) c.gauge);
      }
    ]

seek-Counted :
    (window_size : ℕ) (s : Streams) (file_key : Str) (off : ℕ)
    → Counted s
    → Counted (maybe_cancel_on_seek window_size s file_key off).0
unfolding maybe_cancel_on_seek
seek-Counted window_size s file_key off c =
    let threshold = window_size * 4 in
    elim (Bool-cases (any_near file_key off threshold s.inflight)) [
      | inl near ↦ rw near c
      | inr far ↦ rw far (record {
        distinct =
            map-Distinct (seek_window file_key off threshold)
              (seek_window-key file_key off threshold) s.inflight c.distinct;
        gauge =
            subst (Shows s.inflight_windows)
              (sym (
                map-length (seek_window file_key off threshold)
                  (seek_window-key file_key off threshold) s.inflight))
              c.gauge;
      })
    ]

ahead-Counted :
    (window_size max_inflight : ℕ) (cache : RangeCache) (s : Streams) (file_key : Str)
    (end_off win_start file_size : ℕ) (sess : FileSession) (priority now : ℕ)
    → Counted s
    → Counted
        (maybe_read_ahead window_size max_inflight cache s file_key end_off win_start file_size sess
          priority now).1
unfolding maybe_read_ahead
ahead-Counted window_size max_inflight cache s file_key end_off win_start file_size sess priority
      now c =
    let key : InflightKey = record { file_key = file_key; start = win_start + window_size } in
    let probe = (copy_to cache file_key (win_start + window_size) (0 ∷ []) now).1 in
    elim (Bool-cases (
      leb file_size (win_start + window_size)
      || not (is_sequential sess)
      || ltb end_off (win_start + window_size / 2)
      || ltb (now - sess.last_seek) seek_pause)) [
        | inl stop ↦ rw stop c
        | inr go ↦
            elim (Bool-cases (
              probe.hit
              || is_some (lookup InflightKey-discrete key s.inflight)
              || leb max_inflight (active_count file_key s.inflight))) [
                | inl stop ↦ rw (go, stop) c
                | inr free ↦ rw (go, free) (get_or_create_window-Counted s key file_size priority c)
              ]
      ]

-- The calls that change the map, with what each meets.
pub data Event : Type 0 where
  opens : (key : InflightKey) (file_size priority : ℕ) → Event
  ends : (id : ℕ) (failed : Bool) → Event
  cleans : (key : InflightKey) (id : ℕ) → Event
  cancels : (file_key : Str) → Event
  seeks : (file_key : Str) (off : ℕ) → Event
  reads_ahead :
      (max_inflight : ℕ) (cache : RangeCache) (file_key : Str) (end_off win_start file_size : ℕ)
      (sess : FileSession) (priority now : ℕ)
      → Event

unfoldable pub after_event : ℕ → Streams → Event → Streams
after_event window_size s (opens key file_size priority) =
    (get_or_create_window s key file_size priority).0
after_event window_size s (ends id failed) = end_fetch s id failed
after_event window_size s (cleans key id) = cleanup_window s key id
after_event window_size s (cancels file_key) = (cancel_windows s file_key).0
after_event window_size s (seeks file_key off) = (maybe_cancel_on_seek window_size s file_key off).0
after_event window_size s
      (reads_ahead max_inflight cache file_key end_off win_start file_size sess priority now) =
    (maybe_read_ahead window_size max_inflight cache s file_key end_off win_start file_size sess
      priority now).1

unfoldable pub after_events : ℕ → Streams → List Event → Streams
after_events window_size s [] = s
after_events window_size s (e ∷ es) = after_events window_size (after_event window_size s e) es

after_event-Counted :
    (window_size : ℕ) (s : Streams) (e : Event) → Counted s → Counted (after_event window_size s e)
unfolding after_event
after_event-Counted window_size s (opens key file_size priority) c =
    get_or_create_window-Counted s key file_size priority c
after_event-Counted window_size s (ends id failed) c = end_fetch-Counted s id failed c
after_event-Counted window_size s (cleans key id) c = cleanup_window-Counted s key id c
after_event-Counted window_size s (cancels file_key) c = cancel_windows-Counted s file_key c
after_event-Counted window_size s (seeks file_key off) c = seek-Counted window_size s file_key off c
after_event-Counted window_size s
      (reads_ahead max_inflight cache file_key end_off win_start file_size sess priority now) c =
    ahead-Counted window_size max_inflight cache s file_key end_off win_start file_size sess
      priority now c

after_events-Counted :
    (window_size : ℕ) (s : Streams) (es : List Event)
    → Counted s
    → Counted (after_events window_size s es)
unfolding after_events
after_events-Counted window_size s [] c = c
after_events-Counted window_size s (e ∷ es) c =
    after_events-Counted window_size (after_event window_size s e) es
      (after_event-Counted window_size s e c)

-- After any calls, in any order, on a new reader whose metrics, if it has any, are at zero, the gauge
-- InflightWindows is the number of windows in the map, and no two of them have the same file and start.
pub new_streams-Counted :
    (window_size : ℕ) (m : Option ℤ) (es : List Event)
    → Shows m 0
    → Counted (after_events window_size (new_streams m) es)
new_streams-Counted window_size m es zeroed =
    after_events-Counted window_size (new_streams m) es (record { distinct = tt; gauge = zeroed })
