-- ===== src/Fuse.antt =====
-- internal/fusefs/fs.go: the tree of inodes, removeContentKeys, Unlink and Rmdir. The children of a
-- directory's inode are the map that GetChild, Children and RmChild of go-fuse work on, in one order in
-- which a loop may visit it; a directory is one that is still in the tree. Notifications of the kernel
-- are collected as pairs of a directory's inode number and a name.
pub mod Removal
pub mod Removed
mod Unlinked
pub mod Keys
pub mod Filled
pub mod Ends
pub mod Faithful
mod Mounted
mod Tests
use torbox_fuse_go.Base.{
  ℕ, Bool, true, false, Option, none, some, List, [], ◌∷◌, ◌++◌, Str, str_eq, if◌then◌else◌, Result,
  ok, err,
}
use torbox_fuse_go.Catalog.{File, content_key}
use torbox_fuse_go.State.{Db, Error, hide_file, Statement}

pub record FileNode : Type 0 where
  pub file_key : Str
  pub permalink : Str
  pub node_size : ℕ

-- The children of a directory; a child that is a directory has its inode number and its own children.
pub data Children : Type 0 where
  no_children : Children
  file_child : (name : Str) → FileNode → Children → Children
  dir_child : (name : Str) (ino : ℕ) (below rest : Children) → Children

pub data Child : Type 0 where
  a_file : FileNode → Child
  a_dir : (ino : ℕ) → Children → Child

-- inode.GetChild
unfoldable pub get_child : Str → Children → Option Child
get_child name no_children = none
get_child name (file_child n f rest) =
    let later = get_child name rest in if str_eq name n then some (a_file f) else later
get_child name (dir_child n ino below rest) =
    let later = get_child name rest in if str_eq name n then some (a_dir ino below) else later

-- inode.RmChild
unfoldable pub rm_child : Str → Children → Children
rm_child name no_children = no_children
rm_child name (file_child n f rest) =
    let rest' = rm_child name rest in if str_eq name n then rest else file_child n f rest'
rm_child name (dir_child n ino below rest) =
    let rest' = rm_child name rest in if str_eq name n then rest else dir_child n ino below rest'

abbrev pub Pending : Type 0
Pending = List (ℕ × Str)

-- removeKeysFromDir, on the directory with an inode number.
unfoldable pub remove_keys_from_dir : (Str → Bool) → ℕ → Children → Children × Pending
remove_keys_from_dir keys dir no_children = (no_children, [])
remove_keys_from_dir keys dir (file_child name f rest) =
    let (rest', pending) = remove_keys_from_dir keys dir rest in
    if keys f.file_key then (rest', (dir, name) ∷ pending) else (file_child name f rest', pending)
remove_keys_from_dir keys dir (dir_child name ino below rest) =
    let (below', pending) = remove_keys_from_dir keys ino below in
    let (rest', later) = remove_keys_from_dir keys dir rest in
    (dir_child name ino below' rest', pending ++ later)

-- A pruned directory with what stands behind it in its parent.
abbrev pub put_pruned : Str → ℕ → ℕ → Children × Pending → Children × Pending → Children × Pending
put_pruned name dir ino (no_children, pending) (rest, later) =
    (rest, pending ++ ((dir, name) ∷ later))
put_pruned name dir ino (file_child n f more, pending) (rest, later) =
    (dir_child name ino (file_child n f more) rest, pending ++ later)
put_pruned name dir ino (dir_child n i below more, pending) (rest, later) =
    (dir_child name ino (dir_child n i below more) rest, pending ++ later)

unfoldable pub prune_empty_dirs : ℕ → Children → Children × Pending
prune_empty_dirs dir no_children = (no_children, [])
prune_empty_dirs dir (file_child name f rest) =
    let (rest', pending) = prune_empty_dirs dir rest in (file_child name f rest', pending)
prune_empty_dirs dir (dir_child name ino below rest) =
    put_pruned name dir ino (prune_empty_dirs ino below) (prune_empty_dirs dir rest)

-- The root with its children: the categories that have been added. `all` is there only when it is
-- enabled.
pub record Root : Type 0 where
  pub movies : Option (ℕ × Children)
  pub series : Option (ℕ × Children)
  pub all : Option (ℕ × Children)

abbrev pub on_category :
    (ℕ → Children → Children × Pending) → Option (ℕ × Children) → Option (ℕ × Children) × Pending
on_category f none = (none, [])
on_category f (some (ino, below)) =
    let (below', pending) = f ino below in (some (ino, below'), pending)

-- A loop over catPaths.
abbrev pub on_categories : Bool → (ℕ → Children → Children × Pending) → Root → Root × Pending
on_categories all_dir_enabled f root =
    let (movies', p) = on_category f root.movies in
    let (series', q) = on_category f root.series in
    let (all', r) = if all_dir_enabled then on_category f root.all else (root.all, []) in
    (record { movies = movies'; series = series'; all = all' }, p ++ (q ++ r))

unfoldable pub remove_content_keys : Bool → (Str → Bool) → Root → Root × Pending
remove_content_keys all_dir_enabled keys root =
    let (removed, pending) = on_categories all_dir_enabled (remove_keys_from_dir keys) root in
    let (pruned, later) = on_categories all_dir_enabled prune_empty_dirs removed in
    (pruned, pending ++ later)
