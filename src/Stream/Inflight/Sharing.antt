-- ===== src/Stream/Inflight/Sharing.antt =====
-- Readers of one window share it; a cancelled file keeps no window; read-ahead stays within its limit.
use torbox_fuse_go.Base.{
  filter, length, subst, ◌<◌, ℕ, suc, ◌+◌, ◌/◌, ◌-◌, ◌≤◌, ◌≡◌, ◌≢◌, refl, sym, ap, ◌∙◌, inl, inr,
  Bool, true, false, ◌&&◌, ◌||◌, not, Option, none, some, [], ◌∷◌, Str, str_eq, str_eq→eq, All,
  lookup, insert, lookup-insert, if_pos, if_neg, ite, leb, ltb, Bool-cases, Option-cases, arith,
}
use torbox_fuse_go.Cache.Types.{RangeCache}
use torbox_fuse_go.Cache.Ops.{copy_to}
use torbox_fuse_go.Stream.Session.{FileSession, is_sequential}
use torbox_fuse_go.Stream.Inflight.{
  InflightKey, InflightKey-discrete, InflightWindow, Windows, Streams, new_window, create_window,
  remove_window, get_or_create_window, drop_windows, cancel_windows, active_count, is_some,
  seek_pause, maybe_read_ahead,
}

create_window-found :
    (s : Streams) (key : InflightKey) (file_size priority : ℕ)
    → lookup InflightKey-discrete key (create_window s key file_size priority).inflight
      ≡ some (new_window s file_size)
unfolding create_window
create_window-found s key file_size priority =
    lookup-insert InflightKey-discrete key key (new_window s file_size) s.inflight
    ∙ if_pos (InflightKey-discrete key key) refl _ _

join_again :
    (s : Streams) (key : InflightKey) (file_size priority : ℕ) (win : InflightWindow)
    → lookup InflightKey-discrete key s.inflight ≡ some win
    → (win.done && win.failed) ≡ false
    → get_or_create_window s key file_size priority ≡ (s, win.id, false)
unfolding get_or_create_window
join_again s key file_size priority win found going = rw (found, get_or_create_window, going) refl

-- A second call for the same window, whatever its file size and priority, changes nothing and has the
-- window of the first call, not a new one.
pub get_or_create_window-joins :
    (s : Streams) (key : InflightKey) (file_size priority file_size' priority' : ℕ)
    → let first = get_or_create_window s key file_size priority in
      get_or_create_window first.0 key file_size' priority' ≡ (first.0, first.1, false)
unfolding get_or_create_window remove_window
get_or_create_window-joins s key file_size priority file_size' priority' =
    let Joins : Streams × ℕ × Bool → Type 0 =
      λ r. (get_or_create_window r.0 key file_size' priority' ≡ (r.0, r.1, false)) in
    elim (Option-cases (lookup InflightKey-discrete key s.inflight)) [
      | inl e ↦
          let first : get_or_create_window s key file_size priority
              ≡ (create_window s key file_size priority, s.next_id, true) =
            rw (e, get_or_create_window) refl in
          subst Joins (sym first) (
            join_again (create_window s key file_size priority) key file_size' priority' _
              (create_window-found s key file_size priority) refl)
      | inr (win, e) ↦ elim (Bool-cases (win.done && win.failed)) [
        | inl over ↦
            let t = remove_window s key in
            let first : get_or_create_window s key file_size priority
                ≡ (create_window t key file_size priority, s.next_id, true) =
              rw (e, get_or_create_window, over) refl in
            subst Joins (sym first) (
              join_again (create_window t key file_size priority) key file_size' priority' _
                (create_window-found t key file_size priority) refl)
        | inr going ↦
            let first = join_again s key file_size priority win e going in
            subst Joins (sym first) (join_again s key file_size' priority' win e going)
      ]
    ]

drop_windows-others :
    (file_key : Str) (ws : Windows)
    → All (λ e. e.0.file_key ≢ file_key) (drop_windows file_key ws).0
unfolding drop_windows
drop_windows-others file_key [] = tt
drop_windows-others file_key ((k, win) ∷ ws) = elim (Bool-cases (str_eq k.file_key file_key)) [
  | inl own ↦ rw own (drop_windows-others file_key ws)
  | inr not_own ↦ rw not_own ((λ e. ground (arith, not_own, e)), drop_windows-others file_key ws)
]

drop_windows-lookup :
    (file_key : Str) (key : InflightKey) (ws : Windows)
    → key.file_key ≢ file_key
    → lookup InflightKey-discrete key (drop_windows file_key ws).0
      ≡ lookup InflightKey-discrete key ws
unfolding drop_windows lookup
drop_windows-lookup file_key key [] other = refl
drop_windows-lookup file_key key ((k, win) ∷ ws) other =
    let later = drop_windows-lookup file_key key ws other in
    elim (Bool-cases (str_eq k.file_key file_key)) [
      | inl own ↦
          let ne : k ≢ key =
            λ e. other (sym (ap (λ (j : InflightKey). j.file_key) e) ∙ str_eq→eq _ _ own) in
          rw own (later ∙ sym (if_neg (InflightKey-discrete k key) ne _ _))
      | inr not_own ↦ rw not_own (ap (ite (InflightKey-discrete k key) (some win)) later)
    ]

-- CancelFile leaves no window of the file in the map, and all windows of other files.
pub cancel_windows_lem :
    (s : Streams) (file_key : Str) (key : InflightKey)
    → key.file_key ≢ file_key
    → All (λ e. e.0.file_key ≢ file_key) (cancel_windows s file_key).0.inflight
      × (lookup InflightKey-discrete key (cancel_windows s file_key).0.inflight
          ≡ lookup InflightKey-discrete key s.inflight)
unfolding cancel_windows
cancel_windows_lem s file_key key other =
    (drop_windows-others file_key s.inflight, drop_windows-lookup file_key key s.inflight other)

active_count-insert :
    (file_key : Str) (key : InflightKey) (win : InflightWindow) (ws : Windows)
    → active_count file_key (insert InflightKey-discrete key win ws)
      ≤ suc (active_count file_key ws)
unfolding insert
active_count-insert file_key key win [] = ground arith
active_count-insert file_key key win ((k, w) ∷ ws) =
    let later = active_count-insert file_key key win ws in
    elim (InflightKey-discrete k key) [
      | yes e ↦ rw (if_pos (InflightKey-discrete k key) e) (ground arith)
      | no ne ↦ rw (if_neg (InflightKey-discrete k key) ne) (ground (arith, later))
    ]

is_some-none {ℓ} : {A : Type ℓ} (o : Option A) → is_some o ≡ false → o ≡ none
is_some-none none e = refl
is_some-none (some a) e = absurd (cc)

begun :
    (s : Streams) (key : InflightKey) (file_size priority : ℕ) (file_key : Str) (limit : ℕ)
    → lookup InflightKey-discrete key s.inflight ≡ none
    → active_count file_key s.inflight < limit
    → active_count file_key (get_or_create_window s key file_size priority).0.inflight ≤ limit
unfolding get_or_create_window create_window
begun s key file_size priority file_key limit absent room =
    let more = active_count-insert file_key key (new_window s file_size) s.inflight in
    rw (absent, get_or_create_window) (omega (arith, more))

-- The windows of a file whose fetch is still running.
abbrev pub running : Str → Windows → Windows
running file_key ws = filter (λ e. str_eq e.0.file_key file_key && not e.1.done) ws

running-active :
    (file_key : Str) (ws : Windows) → length (running file_key ws) ≡ active_count file_key ws
unfolding filter
running-active file_key [] = refl
running-active file_key ((k, w) ∷ ws) =
    elim (Bool-cases (str_eq k.file_key file_key && not w.done)) [
      | inl on ↦ rw (filter, on) (omega (arith, running-active file_key ws))
      | inr off ↦ rw (filter, off) (omega (arith, running-active file_key ws))
    ]

read_ahead_bounded :
    (window_size max_inflight : ℕ) (cache : RangeCache) (s : Streams) (file_key : Str)
    (end_off win_start file_size : ℕ) (sess : FileSession) (priority now : ℕ)
    → active_count file_key s.inflight ≤ max_inflight
    → active_count file_key
        (maybe_read_ahead window_size max_inflight cache s file_key end_off win_start file_size sess
          priority now).1.inflight
      ≤ max_inflight
unfolding maybe_read_ahead
read_ahead_bounded window_size max_inflight cache s file_key end_off win_start file_size sess
      priority now within =
    let key : InflightKey = record { file_key = file_key; start = win_start + window_size } in
    let probe = (copy_to cache file_key (win_start + window_size) (0 ∷ []) now).1 in
    elim (Bool-cases (
      leb file_size (win_start + window_size)
      || not (is_sequential sess)
      || ltb end_off (win_start + window_size / 2)
      || ltb (now - sess.last_seek) seek_pause)) [
        | inl stop ↦ rw stop within
        | inr go ↦
            elim (Bool-cases (
              probe.hit
              || is_some (lookup InflightKey-discrete key s.inflight)
              || leb max_inflight (active_count file_key s.inflight))) [
                | inl stop ↦ rw (go, stop) within
                | inr free ↦
                    rw (go, free)
                      (begun s key file_size priority file_key max_inflight
                        (is_some-none _ (ground (arith, free))) (ground (arith, free)))
              ]
      ]

-- If a file has at most as many windows in the map whose fetch is running as the limit allows, a call
-- of maybeReadAhead with no other call between its count and its new window leaves it at most as many.
pub maybe_read_ahead_bounded :
    (window_size max_inflight : ℕ) (cache : RangeCache) (s : Streams) (file_key : Str)
    (end_off win_start file_size : ℕ) (sess : FileSession) (priority now : ℕ)
    → length (running file_key s.inflight) ≤ max_inflight
    → length (
        running file_key
          (maybe_read_ahead window_size max_inflight cache s file_key end_off win_start file_size
            sess priority now).1.inflight)
      ≤ max_inflight
maybe_read_ahead_bounded window_size max_inflight cache s file_key end_off win_start file_size sess
      priority now within =
    rw (running-active file_key _) (
      read_ahead_bounded window_size max_inflight cache s file_key end_off win_start file_size sess
        priority now (rw (running-active file_key s.inflight) at within))
