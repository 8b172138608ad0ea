-- ===== src/Stream/Session/Playback.antt =====
-- How the access pattern tells a playback from a scan.
use torbox_fuse_go.Base.{
  ◌⊎◌, ℕ, zero, suc, All, ◌+◌, ◌-◌, ◌<◌, ◌≤◌, ◌≡◌, ◌≢◌, refl, true, false, List, [], ◌∷◌, length,
  arith, subst,
}
use torbox_fuse_go.Cache.Types.{priority_low, priority_high}
use torbox_fuse_go.Stream.Session.{
  FileSession, new_session, note_read, update_access_pattern, is_sequential, takes_small_read,
  compute_cache_priority, compute_budget_priority, play, small_read_threshold,
  sequential_read_window, recent_read_ttl,
}

-- The state of a playback that has made `n` reads up to the offset.
record Playing (off n time : ℕ) (sess : FileSession) : Type 0 where
  at : sess.last_read_off ≡ off
  streak : sess.sequential_reads ≡ n
  recent : sess.recent_reads ≡ n
  steady : sess.random_reads ≡ 0
  noted : sess.last_read_time ≡ time

note_read-Playing :
    (off n time len file_size now : ℕ) (sess : FileSession)
    → n < 2147483647
    → Playing off n time sess
    → Playing (off + len) (suc n) now (note_read off len file_size now sess)
unfolding note_read update_access_pattern
note_read-Playing off n time len file_size now sess small h = record {
  at = ground arith;
  streak = ground arith;
  recent = ground arith;
  steady = ground arith;
  noted = ground arith;
}

-- When the last of the reads was made.
abbrev pub last_time : ℕ → List (ℕ × ℕ) → ℕ
last_time time [] = time
last_time time ((len, now) ∷ rest) = last_time now rest

play-Playing :
    (off n time file_size : ℕ) (reads : List (ℕ × ℕ)) (sess : FileSession)
    → n + length reads < 2147483648
    → All (λ r. 0 < r.0) reads
    → Playing off n time sess
    → (end : ℕ) × Playing end
        (n + length reads)
        (last_time time reads)
        (play off file_size reads sess)
unfolding play
play-Playing off n time file_size [] sess small full h =
    (off, subst (λ k. Playing off k time sess) (omega arith) h)
play-Playing off n time file_size ((zero, now) ∷ rest) sess small full h =
    absurd (omega (arith, full.0))
play-Playing off n time file_size ((suc len, now) ∷ rest) sess small full h =
    let (end, later) =
      play-Playing (off + suc len) (suc n) now file_size rest
        (note_read off (suc len) file_size now sess) (omega arith) full.1
        (note_read-Playing off n time (suc len) file_size now sess (omega arith) h) in
    (
      end,
      subst
          (λ k.
            Playing end k (last_time now rest)
              (play (off + suc len) file_size rest (note_read off (suc len) file_size now sess)))
          (omega arith) later,
    )

-- Reads of at least one byte from the start of a new file, each where the last one ended, at least four
-- of them and fewer than 2^31: the file is sequential, no read of it takes the small path, and within
-- five seconds of the clock's reading at the last read its cache priority is high, and so is its budget
-- priority, for a read of any size.
pub playback_lem :
    (file_size : ℕ) (reads : List (ℕ × ℕ)) (now size : ℕ)
    → 4 ≤ length reads
    → length reads < 2147483648
    → All (λ r. 0 < r.0) reads
    → now - last_time 0 reads < recent_read_ttl
    → let sess = play 0 file_size reads new_session in
      (is_sequential sess ≡ true)
      × (takes_small_read size sess ≡ false)
      × (compute_cache_priority now sess ≡ priority_high)
      × (compute_budget_priority now sess size ≡ priority_high)
unfolding is_sequential takes_small_read compute_cache_priority compute_budget_priority
playback_lem file_size reads now size many few full soon =
    let (end, h) =
      play-Playing 0 0 0 file_size reads new_session (omega arith) full
        (record { at = refl; streak = refl; recent = refl; steady = refl; noted = refl }) in
    (ground arith, ground arith, ground arith, ground arith)

-- A read more than 4 MiB from the end of the last one, in a file that has been read: the file is not
-- sequential, its cache priority is low, and its small reads take the small path, if there were fewer
-- than 2^31 - 1 such reads before.
pub far_read_lem :
    (off len file_size now next : ℕ) (sess : FileSession)
    → sess.last_read_off ≢ 0
    → next ≤ small_read_threshold
    → sess.random_reads < 2147483647
    → (sess.last_read_off + sequential_read_window < off)
      ⊎ (off + sequential_read_window < sess.last_read_off)
    → let sess' = note_read off len file_size now sess in
      (is_sequential sess' ≡ false)
      × (compute_cache_priority now sess' ≡ priority_low)
      × (takes_small_read next sess' ≡ true)
unfolding note_read update_access_pattern is_sequential takes_small_read compute_cache_priority
far_read_lem off len file_size now next sess read small few far =
    (ground arith, ground arith, ground arith)
