-- ===== src/Catalog/Tree.antt =====
-- internal/catalog/tree.go: the tree of directories, and BuildTree. A loop over the map of directories
-- visits it in the order of the list, and sort.Slice keeps the order of entries with one name.
use torbox_fuse_go.Base.{
  ℕ, zero, suc, max, Bool, true, false, not, ◌||◌, ◌&&◌, Option, none, some, List, [], ◌∷◌, ◌++◌,
  Str, str, Str-discrete, str_eq, if◌then◌else◌, ltb, ◌==◌, lookup, insert, length, ℤ, pos, ltb_ℤ,
  ite,
}
use torbox_fuse_go.Paths
use torbox_fuse_go.Paths.{segments, has_prefix, dir, base, join}
use torbox_fuse_go.Catalog.{Text, File, Download, content_key, media_series, media_anime}

-- A leaf has its file, a subdirectory none.
pub record DirEntry : Type 0 where
  pub entry_name : Str
  pub file : Option File

abbrev pub Dirs : Type 0
Dirs = List (Str × List DirEntry)

abbrev pub or_empty {ℓ} : {A : Type ℓ} → Option (List A) → List A
or_empty none = []
or_empty (some es) = es

-- t.dirs[p], and t.dirs[p] = append(t.dirs[p], e)
abbrev pub entries_at : Str → Dirs → List DirEntry
entries_at p dirs = or_empty (lookup Str-discrete p dirs)

unfoldable pub add_entry : Str → DirEntry → Dirs → Dirs
add_entry p e dirs = insert Str-discrete p (entries_at p dirs ++ (e ∷ [])) dirs

-- A map to Boolean values, as `seen` is.
abbrev pub Seen : Type 0
Seen = Str → Bool

abbrev pub mark : Str → Seen → Seen
mark p seen q = ite (Str-discrete p q) true (seen q)

abbrev pub is_video : File → Bool
is_video f = has_prefix f.mime_type (str "video/")

abbrev pub leaf : File → DirEntry
leaf f = record { entry_name = base f.name; file = some f }

module _ (text : Text) where
  unfoldable pub first_segment : List Str → Str
  first_segment [] = []
  first_segment (s ∷ ss) =
      let rest = first_segment ss in
      let seg = text.trim_space s in if str_eq seg [] then rest else seg

  abbrev pub first_path_segment : Str → Str
  first_path_segment p = first_segment (segments p)

  abbrev pub title_of : Str → List File → Str
  title_of name [] = name
  title_of name (f ∷ fs) =
      let seg = first_path_segment f.name in
      if text.hash_re name && not (str_eq seg []) then seg else name

  unfoldable pub download_title : Download → Str
  download_title d = title_of d.download_name d.files

  -- One group of the season's pattern, if it holds a positive number.
  abbrev pub season_group : Str → Option ℤ
  season_group g =
      if str_eq g []
      then none
      else elim (text.atoi g) [ none ↦ none | some n ↦ if ltb_ℤ (pos 0) n then some n else none ]

  unfoldable pub extract_season : Str → ℤ
  extract_season filename = elim (text.season_re filename) [
    | none ↦ pos 1
    | some (first, second) ↦ elim (season_group first) [
      | some n ↦ n
      | none ↦ elim (season_group second) [ some n ↦ n | none ↦ pos 1 ]
    ]
  ]

  abbrev pub is_series : Str → Bool
  is_series media = str_eq media media_anime || str_eq media media_series

  -- The directory of a file.
  unfoldable pub dir_path : Str → File → Str
  dir_path title f =
      if is_series f.media_type
      then join (str "/series" ∷ title ∷ (str "Season " ++ text.itoa (extract_season f.name)) ∷ [])
      else join (str "/movies" ∷ title ∷ [])

  unfoldable pub add_files : Str → List File → Dirs → Dirs
  add_files title [] dirs = dirs
  add_files title (f ∷ fs) dirs =
      add_files title fs (if is_video f then add_entry (dir_path title f) (leaf f) dirs else dirs)

  abbrev pub add_download : Download → Dirs → Dirs
  add_download d dirs = add_files (download_title d) d.files dirs

  unfoldable pub add_downloads : List Download → Dirs → Dirs
  add_downloads [] dirs = dirs
  add_downloads (d ∷ ds) dirs = add_downloads ds (add_download d dirs)

  abbrev pub all_path : Str → Str
  all_path title = join (str "/all" ∷ title ∷ [])

  abbrev pub add_to_all : Str → File → Seen × Dirs → Seen × Dirs
  add_to_all title f (seen, dirs) =
      if not (is_video f) || seen (content_key f)
      then (seen, dirs)
      else (mark (content_key f) seen, add_entry (all_path title) (leaf f) dirs)

  unfoldable pub add_all_files : Str → List File → Seen × Dirs → Seen × Dirs
  add_all_files title [] s = s
  add_all_files title (f ∷ fs) s = add_all_files title fs (add_to_all title f s)

  unfoldable pub add_all_downloads : List Download → Seen × Dirs → Seen × Dirs
  add_all_downloads [] s = s
  add_all_downloads (d ∷ ds) s = add_all_downloads ds (add_all_files (download_title d) d.files s)

  abbrev pub add_all_dir : List Download → Dirs → Dirs
  add_all_dir ds dirs = (add_all_downloads ds (λ key. false, dirs)).1

-- The entry of a subdirectory.
abbrev pub subdir : Str → DirEntry
subdir name = record { entry_name = name; file = none }

abbrev pub is_subdir : Str → DirEntry → Bool
is_subdir name e = elim e.file [ some f ↦ false | none ↦ str_eq e.entry_name name ]

unfoldable pub any_subdir : Str → List DirEntry → Bool
any_subdir name [] = false
any_subdir name (e ∷ es) = is_subdir name e || any_subdir name es

-- The entries that one directory asks for in its parent; `dirs` is the whole map.
abbrev pub addition : Dirs → Str → List (Str × DirEntry)
addition dirs p =
    if str_eq (dir p) p || any_subdir (base p) (entries_at (dir p) dirs)
    then []
    else (dir p, subdir (base p)) ∷ []

-- A pass over the directories: those seen, and the additions.
unfoldable pub scan_dirs : Dirs → Dirs → Seen → Seen × List (Str × DirEntry)
scan_dirs dirs [] seen = (seen, [])
scan_dirs dirs ((p, es) ∷ rest) seen = elim (seen p) [
  | true ↦ scan_dirs dirs rest seen
  | false ↦
      let (seen', more) = scan_dirs dirs rest (mark p seen) in (seen', addition dirs p ++ more)
]

unfoldable pub add_all : List (Str × DirEntry) → Dirs → Dirs
add_all [] dirs = dirs
add_all ((p, e) ∷ rest) dirs = add_all rest (add_entry p e dirs)

-- The loop of buildParentDirs; `none` if the fuel runs out.
unfoldable pub parents_loop : ℕ → Dirs → Seen → Option Dirs
parents_loop zero dirs seen = none
parents_loop (suc fuel) dirs seen =
    let (seen', added) = scan_dirs dirs dirs seen in
    elim added [ [] ↦ some dirs | a ∷ more ↦ parents_loop fuel (add_all (a ∷ more) dirs) seen' ]

-- Each round goes to shorter paths, so the longest path bounds the rounds.
unfoldable pub longest : Dirs → ℕ
longest [] = 0
longest ((p, es) ∷ rest) = max (length p) (longest rest)

unfoldable pub build_parent_dirs : Dirs → Option Dirs
build_parent_dirs dirs = parents_loop (suc (longest dirs)) dirs (λ p. false)

-- Go's order of strings.
unfoldable pub str_lt : Str → Str → Bool
str_lt [] [] = false
str_lt [] (d ∷ ds) = true
str_lt (c ∷ cs) [] = false
str_lt (c ∷ cs) (d ∷ ds) =
    let rest = str_lt cs ds in if ltb c d then true else if c == d then rest else false

unfoldable pub insert_entry : DirEntry → List DirEntry → List DirEntry
insert_entry e [] = e ∷ []
insert_entry e (x ∷ xs) =
    let later = x ∷ insert_entry e xs in
    if str_lt x.entry_name e.entry_name then later else e ∷ x ∷ xs

unfoldable pub sort_entries : List DirEntry → List DirEntry
sort_entries [] = []
sort_entries (e ∷ es) = insert_entry e (sort_entries es)

unfoldable pub sort_dirs : Dirs → Dirs
sort_dirs [] = []
sort_dirs ((p, es) ∷ rest) = (p, sort_entries es) ∷ sort_dirs rest

module _ (text : Text) where
  unfoldable pub unsorted : List Download → Bool → Dirs
  unsorted ds all_dir =
      let dirs = add_downloads text ds [] in if all_dir then add_all_dir text ds dirs else dirs

  unfoldable pub build_tree : List Download → Bool → Option Dirs
  build_tree ds all_dir = elim (build_parent_dirs (unsorted ds all_dir)) [
    | none ↦ none
    | some dirs ↦ some (sort_dirs dirs)
  ]

unfoldable pub list_dir : Dirs → Str → List DirEntry
list_dir dirs p = entries_at (Paths.clean p) dirs

unfoldable pub find_file : Str → List DirEntry → Option File
find_file name [] = none
find_file name (e ∷ es) =
    let rest = find_file name es in
    if str_eq e.entry_name name then (elim e.file [ some f ↦ some f | none ↦ rest ]) else rest

unfoldable pub lookup_path : Dirs → Str → Option File
lookup_path dirs p = let c = Paths.clean p in find_file (base c) (entries_at (dir c) dirs)
