-- ===== src/Stream/Reading.antt =====
-- ReadAt of internal/stream/reader.go behind the notes of its session: the small read that it tries,
-- and the loop that fills the caller's buffer window by window, over any readWindow and any smallRead.
pub mod Whole
mod Tests
use torbox_fuse_go.Base.{
  ℕ, zero, suc, ◌+◌, ◌-◌, ◌<◌, ◌≤◌, ◌≡◌, Option, none, some, List, [], ◌∷◌, ◌++◌, Bool, true, false,
  if◌then◌else◌, length, min, leb, ◌==◌,
}
use torbox_fuse_go.Stream.Session.{FileSession, takes_small_read}

-- What readWindow returns: the bytes that it put at the front of the buffer, and its error.
pub record Part (E : Type 0) : Type 0 where
  pub bytes : List ℕ
  pub err : Option E

pub data ReadError (E : Type 0) : Type 0 where
  end_of_file : ReadError E
  read_error : E → ReadError E

-- A reader over a state; each call has an offset and a length. A small read that fails has no bytes
-- that ReadAt looks at.
pub record WindowReader (S E : Type 0) : Type 0 where
  pub read_window : S → ℕ → ℕ → S × Part E
  pub small_read : S → ℕ → ℕ → S × Option (List ℕ)

pub record Read (S E : Type 0) : Type 0 where
  pub state : S
  pub bytes : List ℕ
  pub err : Option (ReadError E)

module _ {S E : Type 0} (reader : WindowReader S E) (file_size : ℕ) where
  -- Behind the loop: `if curOff >= fileSize { return totalN, io.EOF }`.
  abbrev pub finish_read : S → ℕ → List ℕ → Read S E
  finish_read s cur_off bytes = record {
    state = s;
    bytes = bytes;
    err = if leb file_size cur_off then some end_of_file else none;
  }

  abbrev pub with_error : ReadError E → S → List ℕ → Read S E
  with_error e s bytes = record { state = s; bytes = bytes; err = some e }

  -- The loop: `rem` is the length of the buffer that is left, and `bytes` what is read so far; `none`
  -- means that the fuel ran out.
  unfoldable pub read_loop : ℕ → S → ℕ → ℕ → List ℕ → Option (Read S E)
  read_loop fuel s cur_off zero bytes = some (finish_read s cur_off bytes)
  read_loop zero s cur_off (suc rem) bytes = none
  read_loop (suc fuel) s cur_off (suc rem) bytes =
      let len = min (suc rem) (file_size - cur_off) in
      let r = reader.read_window s cur_off len in
      let n = length r.1.bytes in
      let bytes' = bytes ++ r.1.bytes in
      let rest = read_loop fuel r.0 (cur_off + n) (len - n) bytes' in
      if leb file_size cur_off then some (with_error end_of_file s bytes) else elim r.1.err [
        | some e ↦ some (with_error (read_error e) r.0 bytes')
        | none ↦ if n == 0 then some (finish_read r.0 cur_off bytes') else rest
      ]

  -- Behind the small read: its bytes, or the loop if it failed. Each round of the loop but the last
  -- one reads a byte.
  abbrev pub after_small_read : ℕ → ℕ → S × Option (List ℕ) → Option (Read S E)
  after_small_read off len (s, some bytes) = some (record { state = s; bytes = bytes; err = none })
  after_small_read off len (s, none) = read_loop (suc len) s off len []

  -- ReadAt with the session as it stands once the read is noted; for an empty buffer it returns at
  -- once.
  unfoldable pub read_at : FileSession → S → ℕ → ℕ → Option (Read S E)
  read_at sess s off zero = some (record { state = s; bytes = []; err = none })
  read_at sess s off (suc len) =
      if takes_small_read (suc len) sess
      then after_small_read off (suc len) (reader.small_read s off (suc len))
      else read_loop (suc (suc len)) s off (suc len) []
