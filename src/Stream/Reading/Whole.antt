-- ===== src/Stream/Reading/Whole.antt =====
-- ReadAt of internal/stream/reader.go: how it ends.
use torbox_fuse_go.Base.{
  subst, ℕ, zero, suc, ◌+◌, ◌-◌, ◌<◌, ◌≤◌, ◌≡◌, ◌⊎◌, refl, none, some, List, [], ◌++◌, true, length,
  length-append, min, leb, ◌==◌, arith, Bool-cases, Option, Option-cases, inl, inr,
}
use torbox_fuse_go.Stream.Session.{FileSession, takes_small_read}
use torbox_fuse_go.Stream.Reading.{
  WindowReader, Read, ReadError, end_of_file, read_error, finish_read, with_error, read_loop,
  read_at,
}

module _ {S E : Type 0} (reader : WindowReader S E) (file_size : ℕ) where
  -- The bytes that windows gave, one after the other and each where the last one ended, for lengths
  -- that do not go beyond the end of the file.
  pub data Parts (off : ℕ) : List ℕ → Type 0 where
    nothing : Parts off []
    window :
        {bytes : List ℕ} (s : S) (len : ℕ)
        → Parts off bytes
        → (off + length bytes) + len ≤ file_size
        → Parts off (bytes ++ (reader.read_window s (off + length bytes) len).1.bytes)

  -- A window that gave no bytes and no error for a length that is not zero, in the file.
  abbrev pub Stalled : Type 0
  Stalled =
      (s : S) × (off : ℕ) × (len : ℕ) × (0 < len)
      × (off + len ≤ file_size)
      × ((reader.read_window s off len).1.err ≡ none)
      × (length (reader.read_window s off len).1.bytes ≡ 0)

  abbrev pub WindowFails : E → Type 0
  WindowFails e =
      (s : S) × (off : ℕ) × (len : ℕ) × (off + len ≤ file_size)
      × ((reader.read_window s off len).1.err ≡ some e)

  -- How the loop may end for a read of `len` bytes at `off` of which `n` were read.
  abbrev pub Ended : ℕ → ℕ → ℕ → Option (ReadError E) → Type 0
  Ended off len n (some end_of_file) = file_size ≤ off + n
  Ended off len n (some (read_error e)) = WindowFails e
  Ended off len n none = (off + n < file_size) × ((len ≤ n) ⊎ Stalled)

  -- The bytes are those of a small read that was to be tried, or the loop has ended.
  abbrev pub ReadOk : FileSession → S → ℕ → ℕ → Read S E → Type 0
  ReadOk sess s off len r =
      ((takes_small_read len sess ≡ true)
        × (r.err ≡ none)
        × ((reader.small_read s off len).1 ≡ some r.bytes))
      ⊎ (Parts off r.bytes × Ended off len (length r.bytes) r.err)

  finish_read-Ended :
      (s : S) (off cur len : ℕ) (bytes : List ℕ)
      → off + length bytes ≡ cur
      → (cur < file_size → (len ≤ length bytes) ⊎ Stalled)
      → Ended off len (length bytes) (finish_read reader file_size s cur bytes).err
  finish_read-Ended s off cur len bytes at full = elim (Bool-cases (leb file_size cur)) [
    | inl over ↦ rw over (ground (arith, at))
    | inr inside ↦ rw inside (ground (arith, at), full (ground arith))
  ]

  read_loop-Parts :
      (fuel : ℕ) (s : S) (off cur rem len : ℕ) (bytes : List ℕ)
      → rem < fuel
      → Parts off bytes
      → off + length bytes ≡ cur
      → min len (file_size - off) ≤ length bytes + rem
      → (r : Read S E) × (read_loop reader file_size fuel s cur rem bytes ≡ some r)
        × Parts off r.bytes
        × Ended off len (length r.bytes) r.err
  unfolding read_loop
  read_loop-Parts fuel s off cur zero len bytes enough parts at left = (
    finish_read reader file_size s cur bytes,
    refl,
    parts,
    finish_read-Ended s off cur len bytes at (λ inside. inl (omega (arith, at, left, inside))),
  )
  read_loop-Parts zero s off cur (suc rem) len bytes enough parts at left = elim enough [ ]
  read_loop-Parts (suc fuel) s off cur (suc rem) len bytes enough parts at left =
      let asked = min (suc rem) (file_size - cur) in
      let r = reader.read_window s cur asked in
      let bytes' = bytes ++ r.1.bytes in
      let size = length-append bytes r.1.bytes in
      elim (Bool-cases (leb file_size cur)) [
        | inl over ↦ (
          with_error reader file_size end_of_file s bytes,
          rw over refl,
          parts,
          ground (arith, at),
        )
        | inr inside ↦
            let bound : cur + asked ≤ file_size = ground arith in
            let parts' : Parts off bytes' =
              subst (λ c. Parts off (bytes ++ (reader.read_window s c asked).1.bytes)) at
                (window s asked parts (omega (arith, at, bound))) in
            elim (Option-cases r.1.err) [
              | inr (e, failed) ↦ (
                with_error reader file_size (read_error e) r.0 bytes',
                rw (inside, failed) refl,
                parts',
                (s, cur, asked, bound, failed),
              )
              | inl fine ↦ elim (Bool-cases (length r.1.bytes == 0)) [
                | inl stuck ↦
                    let before : off + length bytes' < file_size = ground (arith, size, at) in
                    let stalled : Stalled =
                      (s, cur, asked, ground arith, bound, fine, ground arith) in
                    (
                      record { state = r.0; bytes = bytes'; err = none },
                      rw (inside, fine, stuck, inside) refl,
                      parts',
                      (before, inr stalled),
                    )
                | inr moved ↦
                    let some_read : 0 < length r.1.bytes = ground arith in
                    let (res, e, parts_res, ended) =
                      read_loop-Parts fuel r.0 off (cur + length r.1.bytes)
                        (asked - length r.1.bytes) len bytes' (omega (arith, some_read)) parts'
                        (omega (arith, size, at)) (ground (arith, size, left, at)) in
                    (res, rw (inside, fine, moved) e, parts_res, ended)
              ]
            ]
      ]

  whole_loop :
      (s : S) (off len : ℕ)
      → (r : Read S E) × (read_loop reader file_size (suc len) s off len [] ≡ some r)
        × Parts off r.bytes
        × Ended off len (length r.bytes) r.err
  whole_loop s off len =
      read_loop-Parts (suc len) s off off len len [] (omega arith) nothing (omega arith)
        (omega arith)

  -- A ReadAt into a buffer that is not empty returns, whatever the windows and the small reads give.
  -- It returns either the bytes of a small read, without error, and this only when the session takes
  -- small reads, or bytes that windows have given, one after the other from the offset on, none of
  -- them asked for more than the file has. Then an end of file is reported only if the bytes reach the
  -- end of the file, any other error is that of a window, and without error the bytes end before the
  -- end of the file, and fill the buffer unless a window gave no bytes and no error.
  pub read_at-ReadOk :
      (sess : FileSession) (s : S) (off len : ℕ)
      → 0 < len
      → (r : Read S E) × (read_at reader file_size sess s off len ≡ some r)
        × ReadOk sess s off len r
  unfolding read_at
  read_at-ReadOk sess s off zero some_len = elim some_len [ ]
  read_at-ReadOk sess s off (suc len) some_len =
      let tried = reader.small_read s off (suc len) in
      elim (Bool-cases (takes_small_read (suc len) sess)) [
        | inr loops ↦
            let (r, runs, parts, ended) = whole_loop s off (suc len) in
            (r, rw loops runs, inr (parts, ended))
        | inl small ↦ elim (Option-cases tried.1) [
          | inl failed ↦
              let (r, runs, parts, ended) = whole_loop tried.0 off (suc len) in
              (r, rw (small, failed) runs, inr (parts, ended))
          | inr (bytes, got) ↦ (
            record { state = tried.0; bytes = bytes; err = none },
            rw (small, got) refl,
            inl (small, refl, got),
          )
        ]
      ]
