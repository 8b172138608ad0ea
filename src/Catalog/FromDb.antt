-- ===== src/Catalog/FromDb.antt =====
-- internal/catalog/tree_from_db.go: BuildTreeFromDB and ApplyHides.
use torbox_fuse_go.Base.{
  ℕ, ◌+◌, Bool, true, false, ◌||◌, Option, none, some, List, [], ◌∷◌, ◌++◌, Str, str, Str-discrete,
  str_eq, if◌then◌else◌, ltb, ◌==◌, lookup, insert, delete,
}
use torbox_fuse_go.Paths
use torbox_fuse_go.Paths.{slash, has_prefix, dir, base, join, nonempty}
use torbox_fuse_go.State.{FileRecord}
use torbox_fuse_go.State.Tables.{has_key}
use torbox_fuse_go.Catalog.{File, content_key}
use torbox_fuse_go.Catalog.Tree.{
  DirEntry, Dirs, Seen, mark, entries_at, add_entry, build_parent_dirs, sort_dirs, str_lt,
}

abbrev pub file_of : FileRecord → File
file_of rec = record {
  download_kind = rec.download_kind;
  download_id = rec.download_id;
  file_id = rec.file_id;
  name = base rec.path;
  size = rec.size;
  mime_type = str "video/x-matroska";
  media_type = [];
}

abbrev pub named : Str → File → DirEntry
named name f = record { entry_name = name; file = some f }

abbrev pub add_record : FileRecord → Seen × Dirs → Seen × Dirs
add_record rec (seen, dirs) =
    if seen rec.content_key
    then (seen, dirs)
    else if has_prefix rec.path (str "/all/")
    then (mark rec.content_key seen, dirs)
    else (
      mark rec.content_key seen,
      add_entry (dir rec.path) (named (base rec.path) (file_of rec)) dirs,
    )

unfoldable pub add_records : List FileRecord → Seen × Dirs → Seen × Dirs
add_records [] s = s
add_records (rec ∷ recs) s = add_records recs (add_record rec s)

-- splitPathRaw; `cur` is the part since the last slash.
abbrev pub part : Str → List Str → List Str
part [] ps = ps
part (c ∷ cs) ps = (c ∷ cs) ∷ ps

unfoldable pub split_path_raw : Str → Str → List Str
split_path_raw cur [] = part cur []
split_path_raw cur (c ∷ cs) =
    let cut = part cur (split_path_raw [] cs) in
    let more = split_path_raw (cur ++ (c ∷ [])) cs in if c == slash then cut else more

unfoldable pub split_path : Str → List Str
split_path p =
    let c = Paths.clean p in
    if str_eq c (str "/") || str_eq c (str ".") then [] else nonempty (split_path_raw [] c)

-- The first file of a name.
unfoldable pub first_file : Str → List DirEntry → Option File
first_file name [] = none
first_file name (e ∷ es) =
    let rest = first_file name es in
    if str_eq e.entry_name name then (elim e.file [ some f ↦ some f | none ↦ rest ]) else rest

abbrev pub share : Str → Str → Option File → Dirs → Dirs
share all_dir_path name none dirs = dirs
share all_dir_path name (some f) dirs = add_entry all_dir_path (named name f) dirs

abbrev pub add_all_titled : FileRecord → List Str → Seen × Dirs → Seen × Dirs
add_all_titled rec [] s = s
add_all_titled rec (category ∷ []) s = s
add_all_titled rec (category ∷ title ∷ more) (seen, dirs) =
    let key = str "all:" ++ rec.content_key in
    let name = base rec.path in
    if seen key then (seen, dirs) else (
      mark key seen,
      share (join (str "/all" ∷ title ∷ [])) name (first_file name (entries_at (dir rec.path) dirs))
          dirs,
    )

unfoldable pub add_all_records : List FileRecord → Seen × Dirs → Seen × Dirs
add_all_records [] s = s
add_all_records (rec ∷ recs) s =
    add_all_records recs (add_all_titled rec (split_path (dir rec.path)) s)

unfoldable pub unsorted_from_db : List FileRecord → Bool → Dirs
unsorted_from_db recs all_dir =
    let s = add_records recs (λ key. false, []) in
    if all_dir then (add_all_records recs s).1 else s.1

unfoldable pub build_tree_from_db : List FileRecord → Bool → Option Dirs
build_tree_from_db recs all_dir = elim (build_parent_dirs (unsorted_from_db recs all_dir)) [
  | none ↦ none
  | some dirs ↦ some (sort_dirs dirs)
]

-- hidden[key]
abbrev pub is_true : Option Bool → Bool
is_true none = false
is_true (some b) = b

abbrev pub hides_file : List (Str × Bool) → Option File → Bool
hides_file hidden none = false
hides_file hidden (some f) = is_true (lookup Str-discrete (content_key f) hidden)

abbrev pub hides : List (Str × Bool) → DirEntry → Bool
hides hidden e = hides_file hidden e.file

module _ (hidden : List (Str × Bool)) where
  unfoldable pub keep_shown : List DirEntry → List DirEntry
  keep_shown [] = []
  keep_shown (e ∷ es) = let rest = keep_shown es in if hides hidden e then rest else e ∷ rest

  abbrev pub keep_dir : Str → List DirEntry → Dirs → Dirs
  keep_dir p [] rest = rest
  keep_dir p (e ∷ es) rest = (p, e ∷ es) ∷ rest

  unfoldable pub hide_dirs : Dirs → Dirs
  hide_dirs [] = []
  hide_dirs ((p, es) ∷ rest) = keep_dir p (keep_shown es) (hide_dirs rest)

unfoldable pub count_slashes : Str → ℕ
count_slashes [] = 0
count_slashes (c ∷ cs) = (if c == slash then 1 else 0) + count_slashes cs

-- The order in which ApplyHides visits the directories: the deepest first.
abbrev pub comes_first : Str → Str → Bool
comes_first p q =
    if count_slashes p == count_slashes q
    then str_lt p q
    else ltb (count_slashes q) (count_slashes p)

unfoldable pub insert_path : Str → List Str → List Str
insert_path p [] = p ∷ []
insert_path p (q ∷ qs) =
    let later = q ∷ insert_path p qs in if comes_first q p then later else p ∷ q ∷ qs

unfoldable pub sort_paths : Dirs → List Str
sort_paths [] = []
sort_paths ((p, es) ∷ rest) = insert_path p (sort_paths rest)

abbrev pub child_path : Str → Str → Str
child_path p name = p ++ (slash ∷ name)

abbrev pub leads_on : Dirs → Str → DirEntry → Bool
leads_on dirs p e = elim e.file [ some f ↦ true | none ↦ has_key (child_path p e.entry_name) dirs ]

unfoldable pub keep_valid : Dirs → Str → List DirEntry → List DirEntry
keep_valid dirs p [] = []
keep_valid dirs p (e ∷ es) =
    let rest = keep_valid dirs p es in if leads_on dirs p e then e ∷ rest else rest

abbrev pub put_valid : Str → List DirEntry → Dirs → Dirs
put_valid p [] dirs = delete Str-discrete p dirs
put_valid p (e ∷ es) dirs = insert Str-discrete p (e ∷ es) dirs

unfoldable pub prune_dir : Str → Dirs → Dirs
prune_dir p dirs = elim (lookup Str-discrete p dirs) [
  | none ↦ dirs
  | some es ↦ put_valid p (keep_valid dirs p es) dirs
]

unfoldable pub prune_dirs : List Str → Dirs → Dirs
prune_dirs [] dirs = dirs
prune_dirs (p ∷ ps) dirs = prune_dirs ps (prune_dir p dirs)

abbrev pub finish_hides : Option Dirs → Option Dirs
finish_hides none = none
finish_hides (some dirs) = some (sort_dirs (prune_dirs (sort_paths dirs) dirs))

unfoldable pub apply_hides : Dirs → List (Str × Bool) → Option Dirs
apply_hides tree [] = some tree
apply_hides tree (h ∷ hidden) = finish_hides (build_parent_dirs (hide_dirs (h ∷ hidden) tree))
