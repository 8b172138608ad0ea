-- ===== src/Fuse/Mounted.antt =====
-- The tree of inodes behind OnAdd of internal/fusefs/fs.go.
use torbox_fuse_go.Base.{
  ℕ, suc, ◌<◌, Bool, true, false, Option, none, some, List, [], ◌∷◌, Str, str, length, ◌≡◌, refl,
  ap, ◌∙◌, arith, List-cases, inl, inr, Result, ok, err, Str-discrete, if◌then◌else◌,
}
use torbox_fuse_go.Paths
use torbox_fuse_go.Catalog.Tree.{Dirs, entries_at, list_dir, longest}
use torbox_fuse_go.State.{Db, Error, assign_inode, Statement}
use torbox_fuse_go.Fuse.{FileNode, Children, Root}
use torbox_fuse_go.Fuse.Filled.{
  category_dir, add_category_dir, make_category, put_category, dir_key, on_add, with_movies,
  with_series, with_all,
}
use torbox_fuse_go.Fuse.Ends.{CleanDirs, populate_ends}
use torbox_fuse_go.Fuse.Faithful.{fuse_file, catalog_file, populate-Shows, assigned, first_named}

abbrev pub category_at : List Str → Option (ℕ × Children) → Option FileNode
category_at names none = none
category_at names (some (ino, below)) = fuse_file names below

module _ (fails : Statement → Bool) (api_base_url api_key : Str) (dirs : Dirs)
    (fine : (q : Statement) → fails q ≡ false) (clean_dirs : CleanDirs dirs) where
  abbrev CategoryOk : Str → Db → Type 0
  CategoryOk path db =
      (r : Db × Option (ℕ × Children)) × (category_dir fails api_base_url api_key dirs path db
        ≡ some r)
      × ((names : List Str)
          → category_at names r.1 ≡ catalog_file api_base_url api_key dirs path names)

  make_category-Ok :
      (path : Str) (a : Db × Result Error ℕ) (ino : ℕ)
      → Paths.clean path ≡ path
      → 1 < length path
      → a.1 ≡ ok ino
      → (r : Db × Option (ℕ × Children)) × (make_category fails api_base_url api_key dirs
            (suc (longest dirs))
            path
            a
          ≡ some r)
        × ((names : List Str)
            → category_at names r.1 ≡ catalog_file api_base_url api_key dirs path names)
  make_category-Ok path (db, err x) ino clean_path long e = absurd (cc)
  make_category-Ok path (db, ok n) ino clean_path long e =
      let s =
        populate_ends fails api_base_url api_key dirs (longest dirs) path db clean_dirs clean_path
          long (omega arith) in
      (
        _,
        ap (put_category fails api_base_url api_key dirs n) s.1,
        populate-Shows fails api_base_url api_key dirs fine (suc (longest dirs)) path db s.0
            clean_dirs (clean_path, long) s.1,
      )

  no_files :
      (path : Str)
      → entries_at path dirs ≡ []
      → (names : List Str) → none ≡ catalog_file api_base_url api_key dirs path names
  unfolding catalog_file first_named
  no_files path e [] = refl
  no_files path e (n ∷ ns) = rw e refl

  category_dir-Ok :
      (path : Str) (db : Db) → Paths.clean path ≡ path → 1 < length path → CategoryOk path db
  unfolding add_category_dir list_dir
  category_dir-Ok path db clean_path long = elim (List-cases (entries_at path dirs)) [
    | inl e ↦ rw (clean_path, e) ((db, none), refl, no_files path e)
    | inr (x, xs, e) ↦
        rw (clean_path, e)
          (let ino = assigned fails api_base_url api_key dirs fine db (dir_key path) path in
            make_category-Ok path (assign_inode fails db (dir_key path) path) ino.0 clean_path long
              ino.1)
  ]

  -- A lookup below each category finds what the catalog has there; below "all" only if it is enabled.
  pub record MountedOk (all_dir_enabled : Bool) (root : Root) : Type 0 where
    pub in_movies_as :
        (names : List Str)
        → category_at names root.movies
          ≡ catalog_file api_base_url api_key dirs (str "/movies") names
    pub in_series_as :
        (names : List Str)
        → category_at names root.series
          ≡ catalog_file api_base_url api_key dirs (str "/series") names
    pub in_all_as :
        (names : List Str)
        → category_at names root.all ≡ (
            if all_dir_enabled
            then catalog_file api_base_url api_key dirs (str "/all") names
            else none)

  clean_roots :
      (Paths.clean (str "/movies") ≡ str "/movies")
      × (Paths.clean (str "/series") ≡ str "/series")
      × (Paths.clean (str "/all") ≡ str "/all")
  unfolding Paths.clean Paths.join_slash Paths.resolve_all Paths.segments Str-discrete
  clean_roots = (refl, refl, refl)

  -- If AssignInode does not fail and the paths of subdirectories below the root are clean in the
  -- catalog, OnAdd comes to an end, and whatever
  -- path is looked up in the tree of inodes, name by name, the file found is the one that the catalog
  -- has there, with its address, and there is none where the catalog has none.
  pub on_add-MountedOk :
      (all_dir_enabled : Bool) (db : Db)
      → (r : Db × Root) × (on_add fails api_base_url api_key dirs all_dir_enabled db ≡ some r)
        × MountedOk all_dir_enabled r.1
  unfolding on_add
  on_add-MountedOk true db =
      let m = category_dir-Ok (str "/movies") db clean_roots.0 (omega arith) in
      let s = category_dir-Ok (str "/series") m.0.0 clean_roots.1 (omega arith) in
      let a = category_dir-Ok (str "/all") s.0.0 clean_roots.2 (omega arith) in
      (
        _,
        ap (with_movies fails api_base_url api_key dirs true) m.1
            ∙ ap (with_series fails api_base_url api_key dirs true m.0.1) s.1
            ∙ ap (with_all fails api_base_url api_key dirs m.0.1 s.0.1) a.1,
        record { in_movies_as = m.2; in_series_as = s.2; in_all_as = a.2 },
      )
  on_add-MountedOk false db =
      let m = category_dir-Ok (str "/movies") db clean_roots.0 (omega arith) in
      let s = category_dir-Ok (str "/series") m.0.0 clean_roots.1 (omega arith) in
      (
        _,
        ap (with_movies fails api_base_url api_key dirs false) m.1
            ∙ ap (with_series fails api_base_url api_key dirs false m.0.1) s.1,
        record { in_movies_as = m.2; in_series_as = s.2; in_all_as = λ names. refl },
      )
