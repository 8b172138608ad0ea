-- ===== src/Fuse/Ends.antt =====
-- OnAdd of internal/fusefs/fs.go comes to an end, with a fuel of the length of the longest path of the
-- catalog.
use torbox_fuse_go.Base.{
  ℕ, zero, suc, ◌+◌, ◌≤◌, ◌<◌, Bool, Option, none, some, List, [], ◌∷◌, Str, Str-discrete, length,
  length-append, lookup, ◌≡◌, ◌≢◌, refl, ap, ◌∙◌, arith, All, All-map, All-lookup, inl, inr,
  List-cases, Option-cases, Result, ok, err,
}
use torbox_fuse_go.Paths
use torbox_fuse_go.Paths.{slash}
use torbox_fuse_go.Catalog.{File}
use torbox_fuse_go.Catalog.Tree.{DirEntry, Dirs, entries_at, list_dir, longest}
use torbox_fuse_go.Catalog.Listed.{longest-above}
use torbox_fuse_go.State.{Db, Error, Statement}
use torbox_fuse_go.Fuse.{Children, no_children}
use torbox_fuse_go.Fuse.Filled.{
  child_path, Filling, put_dir, make_dir, add_sub_dir_node, add_listed, add_listed_all,
  populate_dir,
}

-- The paths of the subdirectories that a directory lists are clean.
abbrev pub CleanAt : Str → List DirEntry → Type 0
CleanAt path es =
    All
      (λ e.
        (e.file ≡ none) → Paths.clean (child_path path e.entry_name) ≡ child_path path e.entry_name)
      es

-- In every directory but the root, whose subdirectories OnAdd does not name by way of the root.
abbrev pub CleanDirs : Dirs → Type 0
CleanDirs dirs = All (λ d. 1 < length d.0 → CleanAt d.0 d.1) dirs

-- What stands at a path is no longer than the longest path.
no_cons : {e : DirEntry} {es : List DirEntry} → ◌≢◌ {A = List DirEntry} [] (e ∷ es)
no_cons q = absurd (cc)

listed_short :
    (dirs : Dirs) (path : Str) {e : DirEntry} {es : List DirEntry}
    → entries_at path dirs ≡ e ∷ es
    → length path ≤ longest dirs
unfolding lookup
listed_short dirs path h = elim (Option-cases (lookup Str-discrete path dirs)) [
  | inl q ↦ absurd (no_cons (rw q at h))
  | inr (es, q) ↦
      All-lookup Str-discrete (λ d. length d.0 ≤ longest dirs) path dirs (longest-above dirs) q
]

pub clean_at :
    (dirs : Dirs) (path : Str)
    → CleanDirs dirs
    → 1 < length path
    → CleanAt path (entries_at path dirs)
clean_at dirs path h long = elim (Option-cases (lookup Str-discrete path dirs)) [
  | inl q ↦ rw q tt
  | inr (es, q) ↦
      rw q (All-lookup Str-discrete (λ d. 1 < length d.0 → CleanAt d.0 d.1) path dirs h q long)
]

module _ (fails : Statement → Bool) (api_base_url api_key : Str) (dirs : Dirs) where
  module _ (populate : Str → Db → Option Filling) where
    abbrev Ends : Str → DirEntry → Type 0
    Ends path e =
        (e.file ≡ none)
        → (db : Db) → (r : Filling) × (populate (child_path path e.entry_name) db ≡ some r)

    make_dir-ends :
        (path name : Str) (here : Children) (a : Db × Result Error ℕ)
        → ((db : Db) → (r : Filling) × (populate path db ≡ some r))
        → (r : Filling) × (make_dir fails api_base_url api_key dirs populate path name here a
            ≡ some r)
    make_dir-ends path name here (db, err e) ends = ((db, here), refl)
    make_dir-ends path name here (db, ok ino) ends =
        (_, ap (put_dir fails api_base_url api_key dirs name ino here) (ends db).1)

    add_listed-ends :
        (path name : Str) (o : Option File) (s : Filling)
        → ((o ≡ none) → (db : Db) → (r : Filling) × (populate path db ≡ some r))
        → (r : Filling) × (add_listed fails api_base_url api_key dirs populate path name o s
            ≡ some r)
    unfolding add_sub_dir_node
    add_listed-ends path name (some f) s ends = (_, refl)
    add_listed-ends path name none (db, here) ends = make_dir-ends path name here _ (ends refl)

    add_listed_all-Ends :
        (path : Str) (es : List DirEntry) (s : Filling)
        → All (Ends path) es
        → (r : Filling) × (add_listed_all fails api_base_url api_key dirs populate path es (some s)
            ≡ some r)
    unfolding add_listed_all
    add_listed_all-Ends path [] s ends = (s, refl)
    add_listed_all-Ends path (e ∷ es) s ends =
        let first = add_listed-ends (child_path path e.entry_name) e.entry_name e.file s ends.0 in
        let rest = add_listed_all-Ends path es first.0 ends.1 in
        (
          rest.0,
          ap (add_listed_all fails api_base_url api_key dirs populate path es) first.1 ∙ rest.1,
        )

  pub populate_ends :
      (fuel : ℕ) (path : Str) (db : Db)
      → CleanDirs dirs
      → Paths.clean path ≡ path
      → 1 < length path
      → longest dirs < length path + fuel
      → (s : Filling) × (populate_dir fails api_base_url api_key dirs (suc fuel) path db ≡ some s)
  unfolding populate_dir list_dir add_listed_all
  populate_ends zero path db clean_dirs clean_path long h =
      elim (List-cases (entries_at path dirs)) [
        | inl none_listed ↦ rw (clean_path, none_listed) ((db, no_children), refl)
        | inr (e, es, q) ↦ absurd (omega (arith, listed_short dirs path q))
      ]
  populate_ends (suc fuel) path db clean_dirs clean_path long h = rw clean_path (
      add_listed_all-Ends (populate_dir fails api_base_url api_key dirs (suc fuel)) path
        (entries_at path dirs) (db, no_children)
        (All-map
          (λ e.
            (e.file ≡ none)
            → Paths.clean (child_path path e.entry_name) ≡ child_path path e.entry_name)
          (Ends (populate_dir fails api_base_url api_key dirs (suc fuel)) path)
          (λ e clean_child no_file db'.
            populate_ends fuel (child_path path e.entry_name) db' clean_dirs (clean_child no_file)
              (omega (arith, length-append path (slash ∷ e.entry_name)))
              (omega (arith, length-append path (slash ∷ e.entry_name))))
          (entries_at path dirs) (clean_at dirs path clean_dirs long)))
