-- ===== src/Stream/Window/Fill.antt =====
-- streamInto: what arrives in a window, and where it stands.
use torbox_fuse_go.Base.{
  ℕ, ◌+◌, ◌<◌, ◌≡◌, refl, ap, sym, ◌∙◌, subst, List, [], ◌∷◌, ◌++◌, true, false, arith, length,
  length-append, ◌⊎◌, if◌then◌else◌, inl, inr,
}
use mathlib.Core.List.{append-nil, append_assoc}
use torbox_fuse_go.Stream.Window.{Body, reads, eof, broken, Window, append_chunk, stream_into}
use torbox_fuse_go.Stream.Window.Content.{Matches, Honest, Matches-append}

-- The bytes that streamInto reads of a body: all of them, or those up to a cancellation.
abbrev pub received : Body → List ℕ
received (eof bytes) = bytes
received (broken bytes) = bytes
received (reads bytes cancelled body) = bytes ++ (if cancelled then [] else received body)

-- Where `ready_to` stands after `n` bytes behind the offset `base`: at first it is as it was.
abbrev Ready : ℕ → ℕ → ℕ → ℕ → Type 0
Ready base n before after = ((n ≡ 0) × (after ≡ before)) ⊎ ((0 < n) × (after ≡ base + n))

-- What an append or a stream does to a window: bytes at the end of the buffer, and `ready_to`.
abbrev Filled : ℕ → List ℕ → Window → Window → Type 0
Filled base bytes win win' =
    (win'.buf ≡ win.buf ++ bytes)
    × (win'.start ≡ win.start)
    × (win'.file_size ≡ win.file_size)
    × (win'.err ≡ win.err)
    × (win'.done ≡ win.done)
    × Ready base (length bytes) win.ready_to win'.ready_to

append_chunk-Filled :
    (buf_off total_read : ℕ) (bytes : List ℕ) (win : Window)
    → Filled (buf_off + total_read) bytes win (append_chunk buf_off total_read bytes win)
unfolding append_chunk
append_chunk-Filled buf_off total_read [] win =
    (sym (append-nil win.buf), refl, refl, refl, refl, inl (refl, refl))
append_chunk-Filled buf_off total_read (c ∷ cs) win =
    (refl, refl, refl, refl, refl, inr ((omega arith), refl))

Filled-trans :
    (base : ℕ) (xs ys : List ℕ) (a b c : Window)
    → Filled base xs a b
    → Filled (base + length xs) ys b c
    → Filled base (xs ++ ys) a c
Filled-trans base xs ys a b c (buf, start, fsize, err, done, ready)
      (buf', start', fsize', err', done', ready') =
    (
      buf' ∙ ap (λ zs. zs ++ ys) buf ∙ append_assoc a.buf xs ys,
      start' ∙ start,
      fsize' ∙ fsize,
      err' ∙ err,
      done' ∙ done,
      ground (arith, length-append xs ys, ready, ready'),
    )

stream_into-Filled :
    (buf_off total_read : ℕ) (win : Window) (body : Body)
    → let r = stream_into buf_off total_read win body in
      Filled (buf_off + total_read) (received body) win r.0
      × (r.1 ≡ total_read + length (received body))
unfolding stream_into
stream_into-Filled buf_off total_read win (eof bytes) =
    (append_chunk-Filled buf_off total_read bytes win, refl)
stream_into-Filled buf_off total_read win (broken bytes) =
    (append_chunk-Filled buf_off total_read bytes win, refl)
stream_into-Filled buf_off total_read win (reads bytes true body) = (
  rw (append-nil bytes) (append_chunk-Filled buf_off total_read bytes win),
  rw (append-nil bytes) refl,
)
stream_into-Filled buf_off total_read win (reads bytes false body) =
    let win' = append_chunk buf_off total_read bytes win in
    let now = append_chunk-Filled buf_off total_read bytes win in
    let win'' = (stream_into buf_off (total_read + length bytes) win' body).0 in
    let (later, count) = stream_into-Filled buf_off (total_read + length bytes) win' body in
    (
      Filled-trans (buf_off + total_read) bytes (received body) win win' win'' now
          (subst (λ n. Filled n (received body) win' win'') (omega arith) later),
      count ∙ omega (arith, length-append bytes (received body)),
    )

-- streamInto puts the bytes of the response behind those that the buffer holds, and counts them; it
-- sets readyTo by the offset that it was told instead. If it reads any, readyTo is beyond the end of
-- the buffer by as much as the buffer was shorter than that offset.
pub stream_into_drift :
    (buf_off : ℕ) (win : Window) (body : Body)
    → 0 < length (received body)
    → let r = stream_into buf_off 0 win body in
      (r.0.buf ≡ win.buf ++ received body)
      × (r.1 ≡ length (received body))
      × (r.0.ready_to + length win.buf ≡ buf_off + length r.0.buf)
stream_into_drift buf_off win body some_read =
    let ((buf, _, _, _, _, ready), count) = stream_into-Filled buf_off 0 win body in
    (
      buf,
      (count ∙ omega arith),
      ground (arith, ap length buf, length-append win.buf (received body), ready),
    )

-- A window whose bytes are the file's, with `ready_to` at the end of the buffer.
pub record Faithful (content : ℕ → ℕ) (win : Window) : Type 0 where
  pub matches : Matches content win.start win.buf
  pub ready : win.ready_to ≡ length win.buf

received-Matches :
    (content : ℕ → ℕ) (at : ℕ) (body : Body)
    → Honest content at body
    → Matches content at (received body)
received-Matches content at (eof bytes) h = h
received-Matches content at (broken bytes) h = h
received-Matches content at (reads bytes true body) (h, k) = Matches-append content at bytes [] h tt
received-Matches content at (reads bytes false body) (h, k) =
    Matches-append content at bytes (received body) h
      (received-Matches content (at + length bytes) body k)

-- An honest answer that begins where the buffer ends keeps the window faithful.
pub stream_into-Faithful :
    (content : ℕ → ℕ) (buf_off : ℕ) (win : Window) (body : Body)
    → Faithful content win
    → length win.buf ≡ buf_off
    → Honest content (win.start + buf_off) body
    → Faithful content (stream_into buf_off 0 win body).0
stream_into-Faithful content buf_off win body f len honest =
    let ((buf, start, _, _, _, ready), count) = stream_into-Filled buf_off 0 win body in
    let bytes = received-Matches content _ body honest in
    let all =
      Matches-append content win.start win.buf (received body) f.matches
        (subst (λ n. Matches content n (received body)) (omega arith) bytes) in
    record {
      matches = rw (buf, start) all;
      ready = ground (arith, ap length buf, length-append win.buf (received body), ready, f.ready);
    }

pub stream_into-start :
    (buf_off : ℕ) (win : Window) (body : Body)
    → (stream_into buf_off 0 win body).0.start ≡ win.start
stream_into-start buf_off win body = (stream_into-Filled buf_off 0 win body).0.1
