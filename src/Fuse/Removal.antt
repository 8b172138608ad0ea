-- ===== src/Fuse/Removal.antt =====
-- Unlink, Rmdir and parseContentKey of internal/fusefs/fs.go. `here` is what the children of the
-- directory are; IsDownloadFullyHidden, whose result is only logged, is left out.
use torbox_fuse_go.Base.{
  ℕ, Bool, true, false, Option, none, some, List, [], ◌∷◌, ◌++◌, Str, str_eq, if◌then◌else◌, Result,
  ok, err, ◌==◌,
}
use torbox_fuse_go.State.{Db, Error, hide_file, Statement}
use torbox_fuse_go.Torbox.{permalink_url}
use torbox_fuse_go.Fuse.{
  Children, no_children, file_child, dir_child, Child, a_file, a_dir, get_child, rm_child, Pending,
  Root, remove_content_keys,
}

pub data Errno : Type 0 where
  success : Errno
  erofs : Errno
  enoent : Errno
  eisdir : Errno
  eio : Errno
  -- A type assertion of Go that fails without a second value.
  panic : Errno

abbrev pub add_to_first : ℕ → List Str → List Str
add_to_first c [] = (c ∷ []) ∷ []
add_to_first c (p ∷ ps) = (c ∷ p) ∷ ps

unfoldable pub key_parts : Str → List Str
key_parts [] = [] ∷ []
key_parts (c ∷ cs) = let rest = key_parts cs in if c == b':' then [] ∷ rest else add_to_first c rest

abbrev pub first_three : List Str → Str × Str × Str
first_three (kind ∷ download_id ∷ file_id ∷ more) = (kind, download_id, file_id)
first_three parts = ([], [], [])

unfoldable pub parse_content_key : Str → Str × Str × Str
parse_content_key key = first_three (key_parts key)

-- PermalinkBuilderFromClient
unfoldable pub build_permalink : Str → Str → Str → Str
build_permalink base_url api_key file_key =
    let (kind, download_id, file_id) = parse_content_key file_key in
    permalink_url base_url api_key kind download_id file_id

-- collectFileKeys
unfoldable pub collect_file_keys : Children → List Str
collect_file_keys no_children = []
collect_file_keys (file_child name f rest) = f.file_key ∷ collect_file_keys rest
collect_file_keys (dir_child name ino below rest) =
    collect_file_keys below ++ collect_file_keys rest

unfoldable pub one_of : List Str → Str → Bool
one_of [] key = false
one_of (k ∷ ks) key = let later = one_of ks key in if str_eq k key then true else later

pub data Category : Type 0 where
  in_movies : Category
  in_series : Category
  in_all : Category

-- RmChild in the directory with a path below its category.
unfoldable pub rm_child_at : List Str → Str → Children → Children
rm_child_at [] name here = rm_child name here
rm_child_at (n ∷ ns) name no_children = no_children
rm_child_at (n ∷ ns) name (file_child m f rest) = file_child m f (rm_child_at (n ∷ ns) name rest)
rm_child_at (n ∷ ns) name (dir_child m ino below rest) =
    let below' = rm_child_at ns name below in
    let rest' = rm_child_at (n ∷ ns) name rest in
    if str_eq n m then dir_child m ino below' rest else dir_child m ino below rest'

abbrev pub below_category : (Children → Children) → Option (ℕ × Children) → Option (ℕ × Children)
below_category f none = none
below_category f (some (ino, below)) = some (ino, f below)

abbrev pub rm_in : Root → Category → List Str → Str → Root
rm_in root in_movies names name = record root {
  movies = below_category (rm_child_at names name) root.movies;
}
rm_in root in_series names name = record root {
  series = below_category (rm_child_at names name) root.series;
}
rm_in root in_all names name = record root {
  all = below_category (rm_child_at names name) root.all;
}

pub record FuseState : Type 0 where
  pub root : Root
  pub db : Db
  pub notified : Pending

module _ (fails : Statement → Bool) (writable all_dir_enabled : Bool) where
  -- What the tree loses, and what the kernel hears of it.
  abbrev pub remove_from_tree : (Str → Bool) → FuseState → FuseState
  remove_from_tree keys s =
      let (root', pending) = remove_content_keys all_dir_enabled keys s.root in
      record s { root = root'; notified = s.notified ++ pending }

  abbrev pub after_hide : Str → FuseState → Db × Result Error (Unit {0}) → FuseState × Errno
  after_hide key s (db', err e) = (record s { db = db' }, eio)
  after_hide key s (db', ok _) = (remove_from_tree (str_eq key) (record s { db = db' }), success)

  abbrev pub unlink_child : ℕ → FuseState → Option Child → FuseState × Errno
  unlink_child now s none = (s, enoent)
  unlink_child now s (some (a_dir ino below)) = (s, eisdir)
  unlink_child now s (some (a_file f)) =
      after_hide f.file_key s (hide_file fails s.db f.file_key now)

  unfoldable pub unlink : ℕ → FuseState → Children → Str → FuseState × Errno
  unlink now s here name = if writable then unlink_child now s (get_child name here) else (s, erofs)

  -- A file that cannot be hidden is passed over.
  unfoldable pub hide_each : ℕ → Db → List Str → Db
  hide_each now db [] = db
  hide_each now db (key ∷ keys) = hide_each now (hide_file fails db key now).0 keys

  -- With the keys of the files below the child.
  abbrev pub remove_dir :
      ℕ → FuseState → ℕ → Category → List Str → Str → List Str → FuseState × Errno
  remove_dir now s dir category names name [] = (
    record s {
      root = rm_in s.root category names name;
      notified = s.notified ++ ((dir, name) ∷ []);
    },
    success,
  )
  remove_dir now s dir category names name (key ∷ keys) = (
    remove_from_tree (one_of (key ∷ keys)) (record s { db = hide_each now s.db (key ∷ keys) }),
    success,
  )

  abbrev pub rmdir_child :
      ℕ → FuseState → ℕ → Category → List Str → Str → Option Child → FuseState × Errno
  rmdir_child now s dir category names name none = (s, enoent)
  rmdir_child now s dir category names name (some (a_file f)) = (s, panic)
  rmdir_child now s dir category names name (some (a_dir ino below)) =
      remove_dir now s dir category names name (collect_file_keys below)

  -- In the directory with an inode number and a path below its category.
  unfoldable pub rmdir :
      ℕ → FuseState → ℕ → Category → List Str → Children → Str → FuseState × Errno
  rmdir now s dir category names here name =
      if writable
      then rmdir_child now s dir category names name (get_child name here)
      else (s, erofs)
