-- ===== src/Stream/Handles/Tests.antt =====
-- Two handles of a file: one is closed, and then the file is cancelled and opened again.
use torbox_fuse_go.Base.{
  ◌≡◌, refl, true, none, some, List, [], ◌∷◌, str, Str-discrete, ℕ_discrete, lookup, insert, inr,
  pos, arith,
}
use torbox_fuse_go.Cache.Types.{new_range_cache}
use torbox_fuse_go.Stream.Handles.{Handles, new_handles, track_reader, untrack_reader, has_readers}
use torbox_fuse_go.Stream.Handles.Apart.{Apart}
use torbox_fuse_go.Stream.Handles.Calls.{
  Call, tracks, untracks, cancels, cleans_session, cleans_closed, after_calls, new_handles-Apart,
}
use torbox_fuse_go.Stream.Handles.Readers.{position, untrack_reader_keeps}

abbrev calls : List Call
calls =
    tracks (str "a") 1 0
    ∷ tracks (str "a") 2 100
    ∷ untracks (str "a") 1
    ∷ cancels (new_range_cache (pos 100) none) (str "a") 5
    ∷ cleans_session (str "a")
    ∷ tracks (str "a") 3 0
    ∷ cleans_closed 10
    ∷ []

new_handles-Apart_example : Apart (after_calls (new_handles none) calls)
new_handles-Apart_example = new_handles-Apart none calls

abbrev two_open : Handles
two_open = track_reader (track_reader (new_handles none) (str "a") 1 0) (str "a") 2 100

second_open : position two_open (str "a") 2 ≡ some 100
unfolding track_reader lookup insert Str-discrete ℕ_discrete
second_open = refl

untrack_reader_keeps_example :
    (position (untrack_reader two_open (str "a") 1) (str "a") 2 ≡ some 100)
    × (has_readers (untrack_reader two_open (str "a") 1) (str "a") ≡ true)
untrack_reader_keeps_example =
    untrack_reader_keeps two_open (str "a") (str "a") 1 2 100 (inr (λ e. omega (arith, e)))
      second_open
