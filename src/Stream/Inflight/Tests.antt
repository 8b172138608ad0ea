-- ===== src/Stream/Inflight/Tests.antt =====
-- Windows of two files: one is opened twice, fails, is opened again, and one file is cancelled.
use torbox_fuse_go.Base.{
  filter, length, get_or, ap, ◌≤◌, ◌≡◌, ◌≢◌, refl, true, false, none, some, List, [], ◌∷◌, str, pos,
  arith,
}
use torbox_fuse_go.Cache.Types.{new_range_cache}
use torbox_fuse_go.Stream.Session.{FileSession, new_session}
use torbox_fuse_go.Stream.Inflight.{
  InflightKey, Streams, new_streams, get_or_create_window, maybe_read_ahead,
}
use torbox_fuse_go.Stream.Inflight.Gauge.{Counted}
use torbox_fuse_go.Stream.Inflight.Calls.{
  Event, opens, ends, cleans, cancels, seeks, reads_ahead, after_events, new_streams-Counted,
}
use torbox_fuse_go.Stream.Inflight.Sharing.{
  running, get_or_create_window-joins, maybe_read_ahead_bounded,
}

abbrev first_key : InflightKey
first_key = record { file_key = str "a"; start = 0 }

abbrev other_key : InflightKey
other_key = record { file_key = str "b"; start = 16 }

abbrev playing : FileSession
playing = record new_session { sequential_reads = 3 }

abbrev events : List Event
events =
    opens first_key 100 1
    ∷ opens first_key 100 0
    ∷ ends 0 true
    ∷ opens first_key 100 1
    ∷ opens other_key 100 0
    ∷ reads_ahead 2 (new_range_cache (pos 100) none) (str "a") 16 0 100 playing 1 5000000000
    ∷ seeks (str "b") 90
    ∷ cleans first_key 1
    ∷ cancels (str "b")
    ∷ []

new_streams-Counted_example : Counted (after_events 16 (new_streams (some (pos 0))) events)
new_streams-Counted_example = new_streams-Counted 16 (some (pos 0)) events refl

abbrev two_files : Streams
two_files =
    (get_or_create_window (get_or_create_window (new_streams none) first_key 100 1).0 other_key 100
      0).0

get_or_create_window-joins_example :
    let first = get_or_create_window two_files first_key 100 1 in
    get_or_create_window first.0 first_key 200 0 ≡ (first.0, first.1, false)
get_or_create_window-joins_example = get_or_create_window-joins two_files first_key 100 1 200 0

two_names : str "a" ≢ str "b"
two_names = λ e. let h : 97 ≡ 98 = ap (λ xs. get_or xs 0 0) e in omega (arith, h)

nothing_runs : length (running (str "a") (new_streams none).inflight) ≤ 2
unfolding filter
nothing_runs = omega arith

maybe_read_ahead_bounded_example :
    length (
      running
        (str "a")
        (maybe_read_ahead 16 2
          (new_range_cache (pos 100) none)
          (new_streams none)
          (str "a")
          16
          0
          100
          playing
          1
          5000000000).1.inflight)
    ≤ 2
maybe_read_ahead_bounded_example =
    maybe_read_ahead_bounded 16 2 (new_range_cache (pos 100) none) (new_streams none) (str "a") 16 0
      100 playing 1 5000000000 nothing_runs
