-- ===== src/Stream/Window/Wait.antt =====
-- waitForBytes: what a reader gets out of a window.
use torbox_fuse_go.Base.{
  ℕ, ◌+◌, ◌-◌, ◌<◌, ◌≤◌, ◌≡◌, refl, subst, Bool, true, false, ◌||◌, arith, leb, Option, none, some,
  length, length-take, length-drop, take, drop, min, Bool-cases, inl, inr,
}
use torbox_fuse_go.Stream.Window.{
  report, FetchError, Window, Look, sleeps, cancelled_read, fails, nothing_there, got, look_at,
  copy_ready,
}
use torbox_fuse_go.Stream.Window.Content.{Matches, Matches-take, Matches-drop}
use torbox_fuse_go.Stream.Window.Fill.{Faithful}

-- The five outcomes, each with what it says of the window.
abbrev pub LookOk : (ℕ → ℕ) → Bool → Window → ℕ → ℕ → Look → Type 0
LookOk content cancelled win off len sleeps =
    (cancelled ≡ false) × (win.done ≡ false) × (win.ready_to < (off - win.start) + len)
LookOk content cancelled win off len cancelled_read = cancelled ≡ true
LookOk content cancelled win off len (fails e) = (cancelled ≡ false) × (win.err ≡ some e)
LookOk content cancelled win off len nothing_there =
    (cancelled ≡ false) × (win.done ≡ true) × (win.ready_to ≤ off - win.start)
LookOk content cancelled win off len (got n bytes) =
    (cancelled ≡ false)
    × (win.err ≡ none)
    × (n ≡ min (win.ready_to - (off - win.start)) len)
    × (0 < n)
    × (length bytes ≡ n)
    × Matches content off bytes

copy_ready-LookOk :
    (content : ℕ → ℕ) (win : Window) (off len : ℕ)
    → Faithful content win
    → win.start ≤ off
    → 0 < len
    → win.err ≡ none
    → (leb ((off - win.start) + len) win.ready_to || win.done) ≡ true
    → LookOk content false win off len (copy_ready win (off - win.start) len)
copy_ready-LookOk content win off len f above some_len e woken =
    let k = off - win.start in
    let n = min (win.ready_to - k) len in
    elim (Bool-cases (leb win.ready_to k)) [
      | inl short ↦ rw short (refl, ground arith, ground arith)
      | inr long ↦
          let beyond : k < win.ready_to = ground arith in
          let size = length-take n (drop k win.buf) in
          let rest = length-drop k win.buf in
          let bytes =
            Matches-take content n (win.start + k) (drop k win.buf)
              (Matches-drop content k win.start win.buf f.matches) in
          rw long (
            refl,
            e,
            refl,
            omega arith,
            omega (arith, f.ready),
            subst (λ m. Matches content m (take n (drop k win.buf))) (omega arith) bytes,
          )
    ]

report-LookOk :
    (content : ℕ → ℕ) (win : Window) (off len : ℕ) (o : Option FetchError)
    → Faithful content win
    → win.start ≤ off
    → 0 < len
    → win.err ≡ o
    → (leb ((off - win.start) + len) win.ready_to || win.done) ≡ true
    → LookOk content false win off len (report o win (off - win.start) len)
report-LookOk content win off len (some err) f above some_len e woken = (refl, e)
report-LookOk content win off len none f above some_len e woken =
    copy_ready-LookOk content win off len f above some_len e woken

-- A reader of at least one byte, on a window that shows the file's bytes up to readyTo: it sleeps
-- only while the window is not done and its last byte is not ready; it fails with the error of the
-- context or of the window; it finds nothing only in a window that is done before its offset; and
-- otherwise it gets at least one byte, as many as are ready and asked for, and they are the file's
-- at that offset.
pub look_at-LookOk :
    (content : ℕ → ℕ) (cancelled : Bool) (win : Window) (off len : ℕ)
    → Faithful content win
    → win.start ≤ off
    → 0 < len
    → LookOk content cancelled win off len (look_at cancelled win off len)
unfolding look_at
look_at-LookOk content true win off len f above some_len = refl
look_at-LookOk content false win off len f above some_len =
    elim (Bool-cases (leb ((off - win.start) + len) win.ready_to || win.done)) [
      | inr early ↦ rw early (refl, ground arith, ground arith)
      | inl woken ↦ rw woken (report-LookOk content win off len win.err f above some_len refl woken)
    ]
