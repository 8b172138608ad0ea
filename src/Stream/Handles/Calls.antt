-- ===== src/Stream/Handles/Calls.antt =====
-- Any sequence of calls on the open handles and the closed files.
use torbox_fuse_go.Base.{◌||◌, ℕ, ◌-◌, inl, inr, Option, List, [], ◌∷◌, Str, ℤ, All-map, Bool-cases}
use torbox_fuse_go.Cache.Types.{RangeCache}
use torbox_fuse_go.Stream.Handles.{
  recently_closed_ttl, any_window, Handles, new_handles, track_reader, untrack_reader, has_readers,
  cancel_file, drop_closed, cleanup_recently_closed, maybe_cleanup_session,
}
use torbox_fuse_go.Stream.Handles.Apart.{
  NotClosed, Apart, track_reader-Apart, untrack_reader-Apart, cancel_file-Apart,
  drop_closed-Distinct, drop_closed-none,
}

-- The calls on the open handles and the closed files, with what each meets.
pub data Call : Type 0 where
  tracks : (file_key : Str) (reader_id off : ℕ) → Call
  untracks : (file_key : Str) (reader_id : ℕ) → Call
  cancels : (cache : RangeCache) (file_key : Str) (now : ℕ) → Call
  cleans_session : (file_key : Str) → Call
  cleans_closed : (now : ℕ) → Call

unfoldable pub after_call : Handles → Call → Handles
after_call h (tracks file_key reader_id off) = track_reader h file_key reader_id off
after_call h (untracks file_key reader_id) = untrack_reader h file_key reader_id
after_call h (cancels cache file_key now) = cancel_file h cache file_key now
after_call h (cleans_session file_key) = maybe_cleanup_session h file_key
after_call h (cleans_closed now) = cleanup_recently_closed h now

unfoldable pub after_calls : Handles → List Call → Handles
after_calls h [] = h
after_calls h (call ∷ calls) = after_calls (after_call h call) calls

after_call-Apart : (h : Handles) (call : Call) → Apart h → Apart (after_call h call)
unfolding after_call maybe_cleanup_session cleanup_recently_closed
after_call-Apart h (tracks file_key reader_id off) a = track_reader-Apart h file_key reader_id off a
after_call-Apart h (untracks file_key reader_id) a = untrack_reader-Apart h file_key reader_id a
after_call-Apart h (cancels cache file_key now) a = cancel_file-Apart h cache file_key now a
after_call-Apart h (cleans_session file_key) a =
    elim (Bool-cases (any_window file_key h.streams.inflight || has_readers h file_key)) [
      | inl busy ↦ rw (busy, after_call, maybe_cleanup_session) a
      | inr idle ↦
          rw (idle, after_call, maybe_cleanup_session)
            (record {
              open_once = a.open_once;
              closed_once = a.closed_once;
              open_held = a.open_held;
              apart = a.apart;
            })
    ]
after_call-Apart h (cleans_closed now) a =
    let cutoff = now - recently_closed_ttl in
    record {
      open_once = a.open_once;
      closed_once = drop_closed-Distinct cutoff h.recently_closed a.closed_once;
      open_held = a.open_held;
      apart =
          All-map (NotClosed h.recently_closed) (NotClosed (drop_closed cutoff h.recently_closed))
            (λ e. drop_closed-none cutoff e.0 h.recently_closed) h.readers a.apart;
    }

after_calls-Apart : (h : Handles) (calls : List Call) → Apart h → Apart (after_calls h calls)
unfolding after_calls
after_calls-Apart h [] a = a
after_calls-Apart h (call ∷ calls) a =
    after_calls-Apart (after_call h call) calls (after_call-Apart h call a)

-- After any calls, in any order, on a new reader no file with an open handle is among the recently
-- closed ones, each file is among either at most once, and a file is only kept among the open ones
-- while it has a handle.
pub new_handles-Apart :
    (m : Option ℤ) (calls : List Call) → Apart (after_calls (new_handles m) calls)
new_handles-Apart m calls =
    after_calls-Apart (new_handles m) calls
      (record { open_once = tt; closed_once = tt; open_held = tt; apart = tt })
