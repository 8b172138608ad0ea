-- ===== src/Stream/Handles/Readers.antt =====
-- The position of an open handle, and what closing another handle leaves of it.
use torbox_fuse_go.Base.{
  ℕ, ◌<◌, ◌≡◌, ◌≢◌, ◌⊎◌, refl, sym, ◌∙◌, ap, inl, inr, true, Option, some, List, [], ◌∷◌, Str,
  Str-discrete, ℕ_discrete, length, lookup, delete, lookup-insert, lookup-delete_ne, if_pos, if_neg,
  Option-cases, arith,
}
use torbox_fuse_go.Stream.Handles.{
  Handles, Positions, positions_of, store_positions, untrack_reader, has_readers,
}

-- The last read offset of a handle, if it is open.
abbrev pub position : Handles → Str → ℕ → Option ℕ
position h file_key reader_id =
    lookup ℕ_discrete reader_id (positions_of (lookup Str-discrete file_key h.readers))

found-pos :
    (j : ℕ) (pos : Positions) {off : ℕ} → lookup ℕ_discrete j pos ≡ some off → 0 < length pos
unfolding lookup
found-pos j [] e = absurd (cc)
found-pos j (p ∷ pos) e = omega arith

position-has_readers :
    (h : Handles) (g : Str) (j : ℕ) {off : ℕ} → position h g j ≡ some off → has_readers h g ≡ true
unfolding has_readers
position-has_readers h g j e =
    let some_pos = found-pos j (positions_of (lookup Str-discrete g h.readers)) e in ground arith

store_positions-other :
    (f g : Str) (pos : Positions) (readers : List (Str × Positions))
    → f ≢ g
    → lookup Str-discrete g (store_positions f pos readers) ≡ lookup Str-discrete g readers
store_positions-other f g [] readers ne = lookup-delete_ne Str-discrete f g readers ne
store_positions-other f g (p ∷ pos) readers ne =
    lookup-insert Str-discrete f g (p ∷ pos) readers ∙ if_neg (Str-discrete f g) ne _ _

store_positions-own :
    (f : Str) (pos : Positions) (readers : List (Str × Positions))
    → 0 < length pos
    → lookup Str-discrete f (store_positions f pos readers) ≡ some pos
store_positions-own f [] readers h = elim h [ ]
store_positions-own f (p ∷ pos) readers h =
    lookup-insert Str-discrete f f (p ∷ pos) readers ∙ if_pos (Str-discrete f f) refl _ _

untrack_reader-position :
    (h : Handles) (f g : Str) (id j off : ℕ)
    → (f ≢ g) ⊎ (id ≢ j)
    → position h g j ≡ some off
    → position (untrack_reader h f id) g j ≡ some off
unfolding untrack_reader
untrack_reader-position h f g id j off other e =
    elim (Option-cases (lookup Str-discrete f h.readers)) [
      | inl none_open ↦ rw (none_open, untrack_reader) e
      | inr (pos, found) ↦
          let left = delete ℕ_discrete id pos in
          elim (Str-discrete f g) [
            | no ne ↦
                rw (found, untrack_reader)
                  (ap (λ o. lookup ℕ_discrete j (positions_of o))
                      (store_positions-other f g left h.readers ne)
                    ∙ e)
            | yes same ↦
                let ne : id ≢ j = elim other [ inl apart ↦ absurd (apart same) | inr ne ↦ ne ] in
                let here : lookup ℕ_discrete j pos ≡ some off =
                  sym (
                    ap (λ o. lookup ℕ_discrete j (positions_of o))
                      (ap (λ k. lookup Str-discrete k h.readers) (sym same) ∙ found))
                  ∙ e in
                let stays : lookup ℕ_discrete j left ≡ some off =
                  lookup-delete_ne ℕ_discrete id j pos ne ∙ here in
                let own = store_positions-own f left h.readers (found-pos j left stays) in
                let own' =
                  ap (λ k. lookup Str-discrete k (store_positions f left h.readers)) (sym same)
                  ∙ own in
                rw (found, untrack_reader)
                  (ap (λ o. lookup ℕ_discrete j (positions_of o)) own' ∙ stays)
          ]
    ]

-- UntrackReader of one handle leaves every other handle that is tracked, that is one that has been read
-- through and not been released, at its position, and HasReaders still says that its file has readers.
pub untrack_reader_keeps :
    (h : Handles) (f g : Str) (id j off : ℕ)
    → (f ≢ g) ⊎ (id ≢ j)
    → position h g j ≡ some off
    → (position (untrack_reader h f id) g j ≡ some off)
      × (has_readers (untrack_reader h f id) g ≡ true)
untrack_reader_keeps h f g id j off other e =
    let stays = untrack_reader-position h f g id j off other e in
    (stays, position-has_readers (untrack_reader h f id) g j stays)
