-- ===== src/Fuse/Removed.antt =====
-- What removeContentKeys of internal/fusefs/fs.go leaves of the tree, and what Unlink does with it.
use torbox_fuse_go.Base.{
  ℕ, Bool, true, false, Option, none, some, List, [], ◌∷◌, ◌++◌, Str, str, if◌then◌else◌, ◌≡◌, ◌≢◌,
  refl, sym, subst, ap, ◌∙◌, Bool-cases, inl, inr,
}
use torbox_fuse_go.Fuse.{
  FileNode, Children, no_children, file_child, dir_child, Pending, Root, remove_content_keys,
  remove_keys_from_dir, prune_empty_dirs, put_pruned, on_category,
}

-- The files of a tree with their paths.
abbrev pub Placed : Type 0
Placed = List Str × FileNode

abbrev pub under : Str → List Placed → List Placed
under name [] = []
under name ((path, f) ∷ fs) = (name ∷ path, f) ∷ under name fs

unfoldable pub files : Children → List Placed
files no_children = []
files (file_child name f rest) = (name ∷ [], f) ∷ files rest
files (dir_child name ino below rest) = under name (files below) ++ files rest

-- Those whose key is not to be removed.
unfoldable pub without : (Str → Bool) → List Placed → List Placed
without keys [] = []
without keys (p ∷ ps) = let rest = without keys ps in if keys p.1.file_key then rest else p ∷ rest

-- No directory without children.
unfoldable pub Full : Children → Type 0
Full no_children = Unit
Full (file_child name f rest) = Full rest
Full (dir_child name ino below rest) = (below ≢ no_children) × (Full below × Full rest)

module _ (keys : Str → Bool) where
  without-append :
      (ps qs : List Placed) → without keys (ps ++ qs) ≡ without keys ps ++ without keys qs
  unfolding without
  without-append [] qs = refl
  without-append (p ∷ ps) qs = elim (Bool-cases (keys p.1.file_key)) [
    | inl e ↦ rw (e, without-append ps qs) refl
    | inr e ↦ rw (e, without-append ps qs) refl
  ]

  without-under :
      (name : Str) (ps : List Placed) → without keys (under name ps) ≡ under name (without keys ps)
  unfolding without
  without-under name [] = refl
  without-under name ((path, f) ∷ ps) = elim (Bool-cases (keys f.file_key)) [
    | inl e ↦ rw (e, without-under name ps) refl
    | inr e ↦ rw (e, without-under name ps) refl
  ]

  remove_keys-files :
      (dir : ℕ) (here : Children)
      → files (remove_keys_from_dir keys dir here).0 ≡ without keys (files here)
  unfolding files without remove_keys_from_dir
  remove_keys-files dir no_children = refl
  remove_keys-files dir (file_child name f rest) = elim (Bool-cases (keys f.file_key)) [
    | inl e ↦ rw (e, remove_keys-files dir rest) refl
    | inr e ↦ rw (e, remove_keys-files dir rest) refl
  ]
  remove_keys-files dir (dir_child name ino below rest) =
      rw
        (
          without-append (under name (files below)) (files rest),
          without-under name (files below),
          remove_keys-files ino below,
          remove_keys-files dir rest,
        )
        refl

put_pruned-files :
    (name : Str) (dir ino : ℕ) (b r : Children × Pending)
    → files (put_pruned name dir ino b r).0 ≡ under name (files b.0) ++ files r.0
unfolding files
put_pruned-files name dir ino (no_children, p) r = refl
put_pruned-files name dir ino (file_child n f more, p) r = refl
put_pruned-files name dir ino (dir_child n i below more, p) r = refl

put_pruned-Full :
    (name : Str) (dir ino : ℕ) (b r : Children × Pending)
    → Full b.0
    → Full r.0
    → Full (put_pruned name dir ino b r).0
unfolding Full
put_pruned-Full name dir ino (no_children, p) r h k = k
put_pruned-Full name dir ino (file_child n f more, p) r h k = (λ e. absurd (cc), (h, k))
put_pruned-Full name dir ino (dir_child n i below more, p) r h k = (λ e. absurd (cc), (h, k))

prune-files : (dir : ℕ) (here : Children) → files (prune_empty_dirs dir here).0 ≡ files here
unfolding files prune_empty_dirs
prune-files dir no_children = refl
prune-files dir (file_child name f rest) = rw (prune-files dir rest) refl
prune-files dir (dir_child name ino below rest) =
    put_pruned-files name dir ino (prune_empty_dirs ino below) (prune_empty_dirs dir rest)
    ∙ ap (λ l. under name l ++ files (prune_empty_dirs dir rest).0) (prune-files ino below)
    ∙ ap (λ l. under name (files below) ++ l) (prune-files dir rest)

prune-Full : (dir : ℕ) (here : Children) → Full (prune_empty_dirs dir here).0
unfolding prune_empty_dirs Full
prune-Full dir no_children = tt
prune-Full dir (file_child name f rest) = prune-Full dir rest
prune-Full dir (dir_child name ino below rest) =
    put_pruned-Full name dir ino (prune_empty_dirs ino below) (prune_empty_dirs dir rest)
      (prune-Full ino below) (prune-Full dir rest)

abbrev pub category_files : Str → Option (ℕ × Children) → List Placed
category_files name none = []
category_files name (some (ino, below)) = under name (files below)

abbrev pub root_files : Root → List Placed
root_files root =
    category_files (str "movies") root.movies
    ++ (category_files (str "series") root.series ++ category_files (str "all") root.all)

abbrev pub CategoryFull : Option (ℕ × Children) → Type 0
CategoryFull none = Unit
CategoryFull (some (ino, below)) = Full below

abbrev pub RootFull : Root → Type 0
RootFull root = CategoryFull root.movies × (CategoryFull root.series × CategoryFull root.all)

module _ (keys : Str → Bool) where
  abbrev removed : Option (ℕ × Children) → Option (ℕ × Children)
  removed o = (on_category prune_empty_dirs (on_category (remove_keys_from_dir keys) o).0).0

  removed-files :
      (name : Str) (o : Option (ℕ × Children))
      → category_files name (removed o) ≡ without keys (category_files name o)
  unfolding without
  removed-files name none = refl
  removed-files name (some (ino, below)) =
      ap (under name) (prune-files ino _ ∙ remove_keys-files keys ino below)
      ∙ sym (without-under keys name (files below))

  removed-Full : (o : Option (ℕ × Children)) → CategoryFull (removed o)
  removed-Full none = tt
  removed-Full (some (ino, below)) = prune-Full ino _

  removed-none : (o : Option (ℕ × Children)) → o ≡ none → removed o ≡ o
  removed-none none e = refl
  removed-none (some b) e = absurd (cc)

  append_removed :
      (root : Root)
      → category_files (str "movies") (removed root.movies)
          ++ (category_files (str "series") (removed root.series)
              ++ category_files (str "all") (removed root.all))
        ≡ without keys (root_files root)
  append_removed root =
      rw
        (
          removed-files (str "movies") root.movies,
          removed-files (str "series") root.series,
          removed-files (str "all") root.all,
          without-append keys (category_files (str "movies") root.movies)
              (category_files (str "series") root.series ++ category_files (str "all") root.all),
          without-append keys (category_files (str "series") root.series)
              (category_files (str "all") root.all),
        )
        refl

  -- removeContentKeys leaves exactly the files whose key is not removed, and no empty directory below
  -- a category, if there is no category "all" unless it is enabled.
  pub remove_content_keys_lem :
      (enabled : Bool) (root : Root)
      → (enabled ≡ false → root.all ≡ none)
      → let root' = (remove_content_keys enabled keys root).0 in
        (root_files root' ≡ without keys (root_files root)) × RootFull root'
  unfolding remove_content_keys
  remove_content_keys_lem true root h = (
    append_removed root,
    (removed-Full root.movies, (removed-Full root.series, removed-Full root.all)),
  )
  remove_content_keys_lem false root h = (
    ap
          (λ o.
            category_files (str "movies") (removed root.movies)
            ++ (category_files (str "series") (removed root.series)
                ++ category_files (str "all") o))
          (sym (removed-none root.all (h refl)))
        ∙ append_removed root,
    (
      removed-Full root.movies,
      (
        removed-Full root.series,
        subst CategoryFull (removed-none root.all (h refl)) (removed-Full root.all),
      ),
    ),
  )
