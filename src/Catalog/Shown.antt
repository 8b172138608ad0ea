-- ===== src/Catalog/Shown.antt =====
-- ApplyHides of internal/catalog/tree_from_db.go, step by step: the files that each step leaves.
use mathlib.Core.List.{Perm}
use mathlib.Core.List.Perm
use torbox_fuse_go.Base.{
  lookup-delete_ne, lookup-delete_self, lookup_absent, subst, ◌≢◌, ◌≡◌, refl, sym, ◌∙◌, ap, Bool,
  true, false, none, some, List, [], ◌∷◌, Str, Str-discrete, lookup, delete, lookup-insert,
  Distinct, Distinct-insert, Distinct-delete, All, Bool-cases, Option-cases, List-cases, inl, inr,
  if_pos, if_neg,
}
use torbox_fuse_go.Catalog.Tree.{
  DirEntry, Dirs, entries_at, or_empty, insert_entry, sort_entries, sort_dirs, str_lt,
}
use torbox_fuse_go.Catalog.FromDb.{
  hides, keep_shown, hide_dirs, leads_on, keep_valid, put_valid, prune_dir, prune_dirs,
}
use torbox_fuse_go.Catalog.{File}
use torbox_fuse_go.Catalog.Parents.{leaves_file, leaves_subdir, leaves}
use torbox_fuse_go.Catalog.Listed.{SameLeaves}

module _ (hidden : List (Str × Bool)) where
  pub keep_shown_out :
      (e : DirEntry) (es : List DirEntry)
      → hides hidden e ≡ true
      → keep_shown hidden (e ∷ es) ≡ keep_shown hidden es
  unfolding keep_shown
  keep_shown_out e es out = rw out refl

  pub keep_shown_in :
      (e : DirEntry) (es : List DirEntry)
      → hides hidden e ≡ false
      → keep_shown hidden (e ∷ es) ≡ e ∷ keep_shown hidden es
  unfolding keep_shown
  keep_shown_in e es shown = rw shown refl

  pub subdir_shown : (e : DirEntry) → e.file ≡ none → hides hidden e ≡ false
  subdir_shown e sub = rw sub refl

  pub leaves-keep_shown :
      (es : List DirEntry) → leaves (keep_shown hidden es) ≡ keep_shown hidden (leaves es)
  unfolding keep_shown
  leaves-keep_shown [] = refl
  leaves-keep_shown (e ∷ es) = elim (Option-cases e.file) [
    | inl sub ↦
        ap leaves (keep_shown_in e es (subdir_shown e sub))
        ∙ leaves_subdir e (keep_shown hidden es) sub
        ∙ leaves-keep_shown es
        ∙ sym (ap (keep_shown hidden) (leaves_subdir e es sub))
    | inr (f, there) ↦ elim (Bool-cases (hides hidden e)) [
      | inl out ↦
          ap leaves (keep_shown_out e es out)
          ∙ leaves-keep_shown es
          ∙ sym (ap (keep_shown hidden) (leaves_file e es there) ∙ keep_shown_out e (leaves es) out)
      | inr shown ↦
          ap leaves (keep_shown_in e es shown)
          ∙ leaves_file e (keep_shown hidden es) there
          ∙ ap (λ xs. e ∷ xs) (leaves-keep_shown es)
          ∙ sym
              (ap (keep_shown hidden) (leaves_file e es there) ∙ keep_shown_in e (leaves es) shown)
    ]
  ]

  pub hide_dirs-All :
      (P : Str → Type 0) (dirs : Dirs)
      → All (λ e. P e.0) dirs
      → All (λ e. P e.0) (hide_dirs hidden dirs)
  unfolding hide_dirs
  hide_dirs-All P [] h = tt
  hide_dirs-All P ((p, es) ∷ rest) h = elim (List-cases (keep_shown hidden es)) [
    | inl gone ↦ rw gone (hide_dirs-All P rest h.1)
    | inr (x, xs, left) ↦ rw left (h.0, hide_dirs-All P rest h.1)
  ]

  pub hide_dirs-Distinct : (dirs : Dirs) → Distinct dirs → Distinct (hide_dirs hidden dirs)
  unfolding hide_dirs
  hide_dirs-Distinct [] h = tt
  hide_dirs-Distinct ((p, es) ∷ rest) h = elim (List-cases (keep_shown hidden es)) [
    | inl gone ↦ rw gone (hide_dirs-Distinct rest h.1)
    | inr (x, xs, left) ↦ rw left (hide_dirs-All (λ q. q ≢ p) rest h.0, hide_dirs-Distinct rest h.1)
  ]

  pub entries_at-hide_dirs :
      (q : Str) (dirs : Dirs)
      → Distinct dirs
      → entries_at q (hide_dirs hidden dirs) ≡ keep_shown hidden (entries_at q dirs)
  unfolding hide_dirs lookup keep_shown
  entries_at-hide_dirs q [] h = refl
  entries_at-hide_dirs q ((p, es) ∷ rest) h =
      let later = entries_at-hide_dirs q rest h.1 in
      elim (List-cases (keep_shown hidden es)) [
        | inl gone ↦ elim (Str-discrete p q) [
          | yes same ↦
              rw (gone, if_pos (Str-discrete p q) same, gone)
                (ap or_empty (
                  lookup_absent Str-discrete q (hide_dirs hidden rest) (
                    hide_dirs-All (λ x. x ≢ q) rest
                      (subst (λ y. All (λ e. e.0 ≢ y) rest) same h.0))))
          | no ne ↦ rw (gone, if_neg (Str-discrete p q) ne) later
        ]
        | inr (x, xs, left) ↦ elim (Str-discrete p q) [
          | yes same ↦
              rw (left, if_pos (Str-discrete p q) same, if_pos (Str-discrete p q) same, left) refl
          | no ne ↦ rw (left, if_neg (Str-discrete p q) ne, if_neg (Str-discrete p q) ne) later
        ]
      ]

module _ (dirs : Dirs) (p : Str) where
  keep_valid_in :
      (e : DirEntry) (es : List DirEntry)
      → leads_on dirs p e ≡ true
      → keep_valid dirs p (e ∷ es) ≡ e ∷ keep_valid dirs p es
  unfolding keep_valid
  keep_valid_in e es stays = rw stays refl

  keep_valid_out :
      (e : DirEntry) (es : List DirEntry)
      → leads_on dirs p e ≡ false
      → keep_valid dirs p (e ∷ es) ≡ keep_valid dirs p es
  unfolding keep_valid
  keep_valid_out e es goes = rw goes refl

  file_stays : (e : DirEntry) {f : File} → e.file ≡ some f → leads_on dirs p e ≡ true
  file_stays e there = rw there refl

  leaves-keep_valid : (es : List DirEntry) → leaves (keep_valid dirs p es) ≡ leaves es
  unfolding keep_valid
  leaves-keep_valid [] = refl
  leaves-keep_valid (e ∷ es) = elim (Option-cases e.file) [
    | inr (f, there) ↦
        ap leaves (keep_valid_in e es (file_stays e there))
        ∙ leaves_file e (keep_valid dirs p es) there
        ∙ ap (λ xs. e ∷ xs) (leaves-keep_valid es)
        ∙ sym (leaves_file e es there)
    | inl sub ↦ elim (Bool-cases (leads_on dirs p e)) [
      | inl stays ↦
          ap leaves (keep_valid_in e es stays)
          ∙ leaves_subdir e (keep_valid dirs p es) sub
          ∙ leaves-keep_valid es
          ∙ sym (leaves_subdir e es sub)
      | inr goes ↦
          ap leaves (keep_valid_out e es goes) ∙ leaves-keep_valid es ∙ sym (leaves_subdir e es sub)
    ]
  ]

-- A step of the pass over the directories.
put_valid-leaves :
    (p q : Str) (es : List DirEntry) (dirs : Dirs)
    → Distinct dirs
    → leaves es ≡ leaves (entries_at p dirs)
    → leaves (entries_at q (put_valid p es dirs)) ≡ leaves (entries_at q dirs)
put_valid-leaves p q [] dirs apart none_left = elim (Str-discrete p q) [
  | yes same ↦
      subst (λ x. leaves (entries_at x (delete Str-discrete p dirs)) ≡ leaves (entries_at x dirs))
        same
        (ap (λ o. leaves (or_empty o)) (lookup-delete_self Str-discrete p dirs apart) ∙ none_left)
  | no ne ↦ ap (λ o. leaves (or_empty o)) (lookup-delete_ne Str-discrete p q dirs ne)
]
put_valid-leaves p q (e ∷ es) dirs apart same_files =
    let found = lookup-insert Str-discrete p q (e ∷ es) dirs in
    elim (Str-discrete p q) [
      | yes same ↦
          ap (λ o. leaves (or_empty o)) (found ∙ if_pos (Str-discrete p q) same _ _)
          ∙ same_files
          ∙ ap (λ x. leaves (entries_at x dirs)) same
      | no ne ↦ ap (λ o. leaves (or_empty o)) (found ∙ if_neg (Str-discrete p q) ne _ _)
    ]

put_valid-Distinct :
    (p : Str) (es : List DirEntry) (dirs : Dirs) → Distinct dirs → Distinct (put_valid p es dirs)
put_valid-Distinct p [] dirs h = Distinct-delete Str-discrete p dirs h
put_valid-Distinct p (e ∷ es) dirs h = Distinct-insert Str-discrete p (e ∷ es) dirs h

prune_dir-leaves :
    (p : Str) (dirs : Dirs)
    → Distinct dirs
    → SameLeaves dirs (prune_dir p dirs) × Distinct (prune_dir p dirs)
unfolding prune_dir
prune_dir-leaves p dirs apart = elim (Option-cases (lookup Str-discrete p dirs)) [
  | inl missing ↦ rw (missing, prune_dir) (λ q. refl, apart)
  | inr (es, there) ↦
      let kept = keep_valid dirs p es in
      rw (there, prune_dir)
        (
          λ q.
              put_valid-leaves p q kept dirs apart
                (leaves-keep_valid dirs p es ∙ sym (ap (λ o. leaves (or_empty o)) there)),
          put_valid-Distinct p kept dirs apart,
        )
]

pub prune_dirs-SameLeaves :
    (ps : List Str) (dirs : Dirs)
    → Distinct dirs
    → SameLeaves dirs (prune_dirs ps dirs) × Distinct (prune_dirs ps dirs)
unfolding prune_dirs
prune_dirs-SameLeaves [] dirs apart = (λ q. refl, apart)
prune_dirs-SameLeaves (p ∷ ps) dirs apart =
    let (same, apart') = prune_dir-leaves p dirs apart in
    let (same', apart'') = prune_dirs-SameLeaves ps (prune_dir p dirs) apart' in
    (λ q. same' q ∙ same q, apart'')

insert_entry-perm : (e : DirEntry) (es : List DirEntry) → Perm (insert_entry e es) (e ∷ es)
unfolding insert_entry
insert_entry-perm e [] = Perm.refl (e ∷ [])
insert_entry-perm e (x ∷ xs) = elim (Bool-cases (str_lt x.entry_name e.entry_name)) [
  | inl later ↦ rw later (Perm.trans (Perm.cons x (insert_entry-perm e xs)) (Perm.swap e x xs))
  | inr here ↦ rw here (Perm.refl (e ∷ x ∷ xs))
]

pub sort_entries-perm : (es : List DirEntry) → Perm (sort_entries es) es
unfolding sort_entries
sort_entries-perm [] = Perm.refl []
sort_entries-perm (e ∷ es) =
    Perm.trans (insert_entry-perm e (sort_entries es)) (Perm.cons e (sort_entries-perm es))

pub entries_at-sort_dirs :
    (q : Str) (dirs : Dirs) → entries_at q (sort_dirs dirs) ≡ sort_entries (entries_at q dirs)
unfolding sort_dirs lookup sort_entries
entries_at-sort_dirs q [] = refl
entries_at-sort_dirs q ((p, es) ∷ rest) = elim (Str-discrete p q) [
  | yes same ↦ rw (if_pos (Str-discrete p q) same, if_pos (Str-discrete p q) same) refl
  | no ne ↦
      rw (if_neg (Str-discrete p q) ne, if_neg (Str-discrete p q) ne) (entries_at-sort_dirs q rest)
]
