-- ===== src/Stream/Handles/Apart.antt =====
-- No file is shown both as open and as recently closed.
use torbox_fuse_go.Base.{
  subst, ℕ, ◌<◌, ◌≡◌, ◌≢◌, refl, sym, ◌∙◌, inl, inr, none, List, [], ◌∷◌, Str, Str-discrete,
  ℕ_discrete, length, ltb, All, All-map, All-zip, All-lookup, All-insert, All-delete, Distinct,
  lookup, insert, delete, lookup-insert, lookup-delete_ne, lookup-delete_self, Distinct-insert,
  Distinct-delete, if_pos, if_neg, Bool-cases, Option-cases, arith,
}
use torbox_fuse_go.Cache.Types.{RangeCache}
use torbox_fuse_go.Stream.Handles.{
  Handles, Positions, ClosedEntry, positions_of, track_reader, store_positions, untrack_reader,
  closing_size, cancel_file, drop_closed,
}
use torbox_fuse_go.Stream.Inflight.{cancel_windows}

abbrev pub NotClosed : List (Str × ClosedEntry) → Str × Positions → Type 0
NotClosed closed e = lookup Str-discrete e.0 closed ≡ none

-- Every file with an open handle has one in its map, and is not among the closed ones.
pub record Apart (h : Handles) : Type 0 where
  pub open_once : Distinct h.readers
  pub closed_once : Distinct h.recently_closed
  pub open_held : All (λ e. 0 < length e.1) h.readers
  pub apart : All (NotClosed h.recently_closed) h.readers

insert-pos : {V : Type 0} (k : ℕ) (v : V) (m : List (ℕ × V)) → 0 < length (insert ℕ_discrete k v m)
unfolding insert
insert-pos k v [] = omega arith
insert-pos k v ((j, w) ∷ m) = elim (ℕ_discrete j k) [
  | yes e ↦ rw (if_pos (ℕ_discrete j k) e) (omega arith)
  | no ne ↦ rw (if_neg (ℕ_discrete j k) ne) (omega arith)
]

NotClosed-delete :
    (file_key : Str) (closed : List (Str × ClosedEntry)) (e : Str × Positions)
    → Distinct closed
    → NotClosed closed e
    → NotClosed (delete Str-discrete file_key closed) e
NotClosed-delete file_key closed e d h = elim (Str-discrete file_key e.0) [
  | yes same ↦
      subst (λ k. lookup Str-discrete k (delete Str-discrete file_key closed) ≡ none) same
        (lookup-delete_self Str-discrete file_key closed d)
  | no ne ↦ lookup-delete_ne Str-discrete file_key e.0 closed ne ∙ h
]

pub track_reader-Apart :
    (h : Handles) (file_key : Str) (reader_id off : ℕ)
    → Apart h
    → Apart (track_reader h file_key reader_id off)
unfolding track_reader
track_reader-Apart h file_key reader_id off a =
    let pos =
      insert ℕ_discrete reader_id off (positions_of (lookup Str-discrete file_key h.readers)) in
    let closed' = delete Str-discrete file_key h.recently_closed in
    record {
      open_once = Distinct-insert Str-discrete file_key pos h.readers a.open_once;
      closed_once = Distinct-delete Str-discrete file_key h.recently_closed a.closed_once;
      open_held =
          All-insert Str-discrete (λ e. 0 < length e.1) file_key pos h.readers
            (insert-pos reader_id off _) a.open_held;
      apart =
          All-insert Str-discrete (NotClosed closed') file_key pos h.readers
            (lookup-delete_self Str-discrete file_key h.recently_closed a.closed_once)
            (All-map (NotClosed h.recently_closed) (NotClosed closed')
              (λ e. NotClosed-delete file_key h.recently_closed e a.closed_once) h.readers a.apart);
    }

store_positions-Apart :
    (h : Handles) (file_key : Str) (pos : Positions)
    → lookup Str-discrete file_key h.recently_closed ≡ none
    → Apart h
    → Apart (record h { readers = store_positions file_key pos h.readers })
store_positions-Apart h file_key [] opened a = record {
  open_once = Distinct-delete Str-discrete file_key h.readers a.open_once;
  closed_once = a.closed_once;
  open_held = All-delete Str-discrete (λ e. 0 < length e.1) file_key h.readers a.open_held;
  apart = All-delete Str-discrete (NotClosed h.recently_closed) file_key h.readers a.apart;
}
store_positions-Apart h file_key (p ∷ pos) opened a = record {
  open_once = Distinct-insert Str-discrete file_key (p ∷ pos) h.readers a.open_once;
  closed_once = a.closed_once;
  open_held =
      All-insert Str-discrete (λ e. 0 < length e.1) file_key (p ∷ pos) h.readers (omega arith)
        a.open_held;
  apart =
      All-insert Str-discrete (NotClosed h.recently_closed) file_key (p ∷ pos) h.readers opened
        a.apart;
}

pub untrack_reader-Apart :
    (h : Handles) (file_key : Str) (reader_id : ℕ)
    → Apart h
    → Apart (untrack_reader h file_key reader_id)
unfolding untrack_reader
untrack_reader-Apart h file_key reader_id a =
    elim (Option-cases (lookup Str-discrete file_key h.readers)) [
      | inl e ↦ rw (e, untrack_reader) a
      | inr (pos, e) ↦
          rw (e, untrack_reader)
            (store_positions-Apart h file_key (delete ℕ_discrete reader_id pos)
              (All-lookup Str-discrete (NotClosed h.recently_closed) file_key h.readers a.apart e)
              a)
    ]

delete-gone :
    {V : Type 0} (k : Str) (m : List (Str × V))
    → Distinct m
    → All (λ e. e.0 ≢ k) (delete Str-discrete k m)
unfolding delete
delete-gone k [] h = tt
delete-gone k ((j, w) ∷ m) (fresh, h) = elim (Str-discrete j k) [
  | yes e ↦ rw (if_pos (Str-discrete j k) e) (subst (λ i. All (λ x. x.0 ≢ i) m) e fresh)
  | no ne ↦ rw (if_neg (Str-discrete j k) ne) (ne, delete-gone k m h)
]

NotClosed-insert :
    (file_key : Str) (entry : ClosedEntry) (closed : List (Str × ClosedEntry)) (e : Str × Positions)
    → e.0 ≢ file_key
    → NotClosed closed e
    → NotClosed (insert Str-discrete file_key entry closed) e
NotClosed-insert file_key entry closed e other h =
    lookup-insert Str-discrete file_key e.0 entry closed
    ∙ if_neg (Str-discrete file_key e.0) (λ same. other (sym same)) _ _
    ∙ h

pub cancel_file-Apart :
    (h : Handles) (cache : RangeCache) (file_key : Str) (now : ℕ)
    → Apart h
    → Apart (cancel_file h cache file_key now)
unfolding cancel_file
cancel_file-Apart h cache file_key now a =
    let size = closing_size h cache file_key (cancel_windows h.streams file_key).1 in
    let entry : ClosedEntry = record { file_size = size; closed_at = now } in
    let left = delete Str-discrete file_key h.readers in
    let gone = delete-gone file_key h.readers a.open_once in
    let apart = All-delete Str-discrete (NotClosed h.recently_closed) file_key h.readers a.apart in
    record {
      open_once = Distinct-delete Str-discrete file_key h.readers a.open_once;
      closed_once = elim (Bool-cases (ltb 0 size)) [
        | inl sized ↦
            rw sized (Distinct-insert Str-discrete file_key entry h.recently_closed a.closed_once)
        | inr empty ↦ rw empty a.closed_once
      ];
      open_held = All-delete Str-discrete (λ e. 0 < length e.1) file_key h.readers a.open_held;
      apart = elim (Bool-cases (ltb 0 size)) [
        | inl sized ↦ rw sized (
            All-zip (λ e. e.0 ≢ file_key) (NotClosed h.recently_closed)
              (NotClosed (insert Str-discrete file_key entry h.recently_closed))
              (λ e. NotClosed-insert file_key entry h.recently_closed e) left gone apart)
        | inr empty ↦ rw empty apart
      ];
    }

module _ (cutoff : ℕ) where
  drop_closed-All :
      (P : Str × ClosedEntry → Type 0) (es : List (Str × ClosedEntry))
      → All P es
      → All P (drop_closed cutoff es)
  unfolding drop_closed
  drop_closed-All P [] h = tt
  drop_closed-All P ((k, entry) ∷ es) (p, h) = elim (Bool-cases (ltb entry.closed_at cutoff)) [
    | inl old ↦ rw old (drop_closed-All P es h)
    | inr young ↦ rw young (p, drop_closed-All P es h)
  ]

  pub drop_closed-Distinct :
      (es : List (Str × ClosedEntry)) → Distinct es → Distinct (drop_closed cutoff es)
  unfolding drop_closed
  drop_closed-Distinct [] h = tt
  drop_closed-Distinct ((k, entry) ∷ es) (fresh, h) =
      elim (Bool-cases (ltb entry.closed_at cutoff)) [
        | inl old ↦ rw old (drop_closed-Distinct es h)
        | inr young ↦ rw young (drop_closed-All (λ e. e.0 ≢ k) es fresh, drop_closed-Distinct es h)
      ]

  pub drop_closed-none :
      (k : Str) (es : List (Str × ClosedEntry))
      → lookup Str-discrete k es ≡ none
      → lookup Str-discrete k (drop_closed cutoff es) ≡ none
  unfolding drop_closed lookup
  drop_closed-none k [] h = refl
  drop_closed-none k ((j, entry) ∷ es) h = elim (Str-discrete j k) [
    | yes e ↦ absurd (ground (arith, h, e))
    | no ne ↦
        let later = drop_closed-none k es (sym (if_neg (Str-discrete j k) ne _ _) ∙ h) in
        elim (Bool-cases (ltb entry.closed_at cutoff)) [
          | inl old ↦ rw old later
          | inr young ↦ rw young (if_neg (Str-discrete j k) ne _ _ ∙ later)
        ]
  ]
