-- ===== src/Stream/Reading/Tests.antt =====
-- Reads over a reader of windows that gives at most two bytes at a time and counts its calls, and
-- whose small reads work only once.
use torbox_fuse_go.Base.{
  if◌then◌else◌, ◌==◌, ℕ, zero, suc, ◌≡◌, refl, none, some, List, [], ◌∷◌, arith,
}
use torbox_fuse_go.Stream.Session.{FileSession, new_session, takes_small_read, is_sequential}
use torbox_fuse_go.Stream.Reading.{WindowReader, Read, end_of_file, read_loop, read_at}
use torbox_fuse_go.Stream.Reading.Whole.{ReadOk, read_at-ReadOk}

abbrev two_at : ℕ → ℕ → List ℕ
two_at off zero = []
two_at off (suc zero) = off ∷ []
two_at off (suc (suc len)) = off ∷ suc off ∷ []

abbrev counting_reader : WindowReader ℕ ℕ
counting_reader = record {
  read_window = λ calls off len. (suc calls, record { bytes = two_at off len; err = none });
  small_read = λ calls off len. (suc calls, if calls == 0 then some (two_at off len) else none);
}

abbrev random : FileSession
random = record new_session { random_reads = 1 }

read_at-ReadOk_example :
    (r : Read ℕ ℕ) × (read_at counting_reader 10 random 1 7 5 ≡ some r)
    × ReadOk counting_reader 10 random 1 7 5 r
read_at-ReadOk_example = read_at-ReadOk counting_reader 10 random 1 7 5 (omega arith)

-- A small read of two bytes, though the file has three; and the loop behind a small read that fails,
-- which comes to the end of the file.
reads_run :
    (read_at counting_reader 10 random 0 7 5
      ≡ some (record { state = 1; bytes = 7 ∷ 8 ∷ []; err = none }))
    × (read_at counting_reader 10 random 1 7 5
        ≡ some (record { state = 4; bytes = 7 ∷ 8 ∷ 9 ∷ []; err = some end_of_file }))
unfolding read_at read_loop takes_small_read is_sequential
reads_run = (refl, refl)
