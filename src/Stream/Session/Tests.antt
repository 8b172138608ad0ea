-- ===== src/Stream/Session/Tests.antt =====
-- A playback of four reads, and a probe at the end of a file that was read at its start.
use torbox_fuse_go.Base.{ℕ, ◌<◌, ◌≡◌, true, false, List, [], ◌∷◌, All, arith, inl}
use torbox_fuse_go.Cache.Types.{priority_low, priority_high}
use torbox_fuse_go.Stream.Session.{
  FileSession, new_session, note_read, is_sequential, takes_small_read, compute_cache_priority,
  compute_budget_priority, play,
}
use torbox_fuse_go.Stream.Session.Playback.{playback_lem, far_read_lem}

abbrev four_reads : List (ℕ × ℕ)
four_reads = (100, 1) ∷ (100, 2) ∷ (100, 3) ∷ (100, 4) ∷ []

four_reads_full : All (λ r. 0 < r.0) four_reads
four_reads_full = (omega arith, (omega arith, (omega arith, (omega arith, tt))))

playback_lem_example :
    let sess = play 0 5000 four_reads new_session in
    (is_sequential sess ≡ true)
    × (takes_small_read 100 sess ≡ false)
    × (compute_cache_priority 9 sess ≡ priority_high)
    × (compute_budget_priority 9 sess 100 ≡ priority_high)
playback_lem_example =
    playback_lem 5000 four_reads 9 100 (omega arith) (omega arith) four_reads_full (omega arith)

abbrev begun : FileSession
begun = record new_session { last_read_off = 100; sequential_reads = 1; recent_reads = 1 }

far_read_lem_example :
    let sess' = note_read 90000000 100 90000100 7 begun in
    (is_sequential sess' ≡ false)
    × (compute_cache_priority 7 sess' ≡ priority_low)
    × (takes_small_read 100 sess' ≡ true)
far_read_lem_example =
    far_read_lem 90000000 100 90000100 7 100 begun (omega arith) (omega arith) (omega arith)
      (inl (omega arith))
