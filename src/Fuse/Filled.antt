-- ===== src/Fuse/Filled.antt =====
-- OnAdd of internal/fusefs/fs.go, which fills the tree of inodes from the tree of the catalog. The
-- recursion over subdirectories has fuel, since nothing in the code bounds it; `none` if it runs out.
use torbox_fuse_go.Base.{
  ℕ, zero, suc, Bool, Option, none, some, List, [], ◌∷◌, ◌++◌, Str, str, if◌then◌else◌, Result, ok,
  err,
}
use torbox_fuse_go.Paths.{slash}
use torbox_fuse_go.Catalog.{File, content_key}
use torbox_fuse_go.Catalog.Tree.{DirEntry, Dirs, list_dir, longest}
use torbox_fuse_go.State.{Db, Error, assign_inode, Statement}
use torbox_fuse_go.Fuse.{
  Children, no_children, file_child, dir_child, Child, a_file, a_dir, get_child, Root,
}
use torbox_fuse_go.Fuse.Keys.{file_node}

abbrev pub new_child : Str → Child → Children → Children
new_child name (a_file f) here = file_child name f here
new_child name (a_dir ino below) here = dir_child name ino below here

-- inode.AddChild that does not overwrite.
abbrev pub add_unless : Option Child → Str → Child → Children → Children
add_unless none name c here = new_child name c here
add_unless (some old) name c here = here

unfoldable pub add_child : Str → Child → Children → Children
add_child name c here = add_unless (get_child name here) name c here

abbrev pub child_path : Str → Str → Str
child_path path name = path ++ (slash ∷ name)

abbrev pub dir_key : Str → Str
dir_key path = str "dir:" ++ path

-- The database and the children of the directory that is filled.
abbrev pub Filling : Type 0
Filling = Db × Children

module _ (fails : Statement → Bool) (api_base_url api_key : Str) (dirs : Dirs) where
  abbrev pub put_file : Str → File → Children → Db × Result Error ℕ → Filling
  put_file name f here (db', err e) = (db', here)
  put_file name f here (db', ok ino) =
      (db', add_child name (a_file (file_node api_base_url api_key f)) here)

  unfoldable pub add_file_node : Str → Str → File → Filling → Filling
  add_file_node path name f (db, here) =
      put_file name f here (assign_inode fails db (content_key f) path)

  abbrev pub put_dir : Str → ℕ → Children → Option Filling → Option Filling
  put_dir name ino here none = none
  put_dir name ino here (some (db, below)) = some (db, add_child name (a_dir ino below) here)

  -- With populateDir for what is below.
  module _ (populate : Str → Db → Option Filling) where
    abbrev pub make_dir : Str → Str → Children → Db × Result Error ℕ → Option Filling
    make_dir path name here (db', err e) = some (db', here)
    make_dir path name here (db', ok ino) = put_dir name ino here (populate path db')

    unfoldable pub add_sub_dir_node : Str → Str → Filling → Option Filling
    add_sub_dir_node path name (db, here) =
        make_dir path name here (assign_inode fails db (dir_key path) path)

    abbrev pub add_listed : Str → Str → Option File → Filling → Option Filling
    add_listed path name (some f) s = some (add_file_node path name f s)
    add_listed path name none s = add_sub_dir_node path name s

    unfoldable pub add_listed_all : Str → List DirEntry → Option Filling → Option Filling
    add_listed_all path [] s = s
    add_listed_all path (e ∷ es) none = none
    add_listed_all path (e ∷ es) (some s) =
        add_listed_all path es (add_listed (child_path path e.entry_name) e.entry_name e.file s)

  unfoldable pub populate_dir : ℕ → Str → Db → Option Filling
  populate_dir zero path db = none
  populate_dir (suc fuel) path db =
      add_listed_all (populate_dir fuel) path (list_dir dirs path) (some (db, no_children))

  abbrev pub Added : Type 0
  Added = Db × Option (ℕ × Children)

  abbrev pub put_category : ℕ → Option Filling → Option Added
  put_category ino none = none
  put_category ino (some (db, below)) = some (db, some (ino, below))

  abbrev pub make_category : ℕ → Str → Db × Result Error ℕ → Option Added
  make_category fuel path (db, err e) = some (db, none)
  make_category fuel path (db, ok ino) = put_category ino (populate_dir fuel path db)

  abbrev pub list_category : ℕ → Str → Db → List DirEntry → Option Added
  list_category fuel path db [] = some (db, none)
  list_category fuel path db (e ∷ es) =
      make_category fuel path (assign_inode fails db (dir_key path) path)

  unfoldable pub add_category_dir : ℕ → Str → Db → Option Added
  add_category_dir fuel path db = list_category fuel path db (list_dir dirs path)

  -- The longest path of the catalog bounds the recursion.
  abbrev pub category_dir : Str → Db → Option Added
  category_dir path db = add_category_dir (suc (longest dirs)) path db

  abbrev pub with_all :
      Option (ℕ × Children) → Option (ℕ × Children) → Option Added → Option (Db × Root)
  with_all movies series none = none
  with_all movies series (some (db, all)) =
      some (db, record { movies = movies; series = series; all = all })

  abbrev pub with_series : Bool → Option (ℕ × Children) → Option Added → Option (Db × Root)
  with_series all_dir_enabled movies none = none
  with_series all_dir_enabled movies (some (db, series)) =
      with_all movies series
        (if all_dir_enabled then category_dir (str "/all") db else some (db, none))

  abbrev pub with_movies : Bool → Option Added → Option (Db × Root)
  with_movies all_dir_enabled none = none
  with_movies all_dir_enabled (some (db, movies)) =
      with_series all_dir_enabled movies (category_dir (str "/series") db)

  unfoldable pub on_add : Bool → Db → Option (Db × Root)
  on_add all_dir_enabled db = with_movies all_dir_enabled (category_dir (str "/movies") db)
