-- ===== src/Catalog/Tests.antt =====
-- Two downloads, and the trees that the catalog makes of them.
use torbox_fuse_go.Base.{
  str_eq, if◌then◌else◌, ◌≡◌, refl, Bool, true, false, Option, none, some, List, [], ◌∷◌, Str, str,
  map, Str-discrete, ℕ_discrete, lookup, insert, delete,
}
use torbox_fuse_go.Paths.{
  has_prefix, join, clean, join_slash, resolve_all, segments, base, dir, last_segment,
  strip_slashes, upto_slash,
}
use torbox_fuse_go.State.{Statement, Db}
use torbox_fuse_go.Catalog.Refresh.{CatalogState}
use torbox_fuse_go.Catalog.Listed.{ParentsOk, build_parent_dirs-ParentsOk}
use torbox_fuse_go.Catalog.Hides.{OnlyShown, apply_hides-OnlyShown}
use torbox_fuse_go.Catalog.{Text, File, Download, media_movie, media_series}
use torbox_fuse_go.Catalog.Tree.{
  build_parent_dirs, parents_loop, scan_dirs, unsorted, add_downloads, add_files, add_entry,
  dir_path, download_title, add_all, any_subdir, insert_entry, longest, sort_dirs, sort_entries,
  str_lt, extract_season, leaf, Dirs, build_tree, list_dir,
}
use torbox_fuse_go.Catalog.FromDb.{
  hide_dirs, keep_shown, sort_paths, insert_path, count_slashes, prune_dirs, prune_dir, keep_valid,
  apply_hides,
}

abbrev text : Text
text = record {
  to_lower = λ s. s;
  trim_space = λ s. s;
  atoi = λ s. none;
  itoa = λ n. str "1";
  season_episode_re = λ s. false;
  hash_re = λ s. false;
  season_re = λ s. none;
}

abbrev film : File
film = record {
  download_kind = str "torrent";
  download_id = str "7";
  file_id = str "1";
  name = str "x/alien.mkv";
  size = 900;
  mime_type = str "video/mp4";
  media_type = media_movie;
}

abbrev episode : File
episode = record film { file_id = str "2"; name = str "ep.mkv"; media_type = media_series }

abbrev download : Download
download = record {
  kind = str "torrent";
  id = str "7";
  download_name = str "Alien";
  hash = [];
  files = film ∷ episode ∷ [];
}

abbrev names_at : Str → Option Dirs → List Str
names_at p none = []
names_at p (some dirs) = map (λ e. e.entry_name) (list_dir dirs p)

build_runs :
    (names_at (str "/") (build_tree text (download ∷ []) false) ≡ str "movies" ∷ str "series" ∷ [])
    × (names_at (str "/movies/Alien") (build_tree text (download ∷ []) false)
        ≡ str "alien.mkv" ∷ [])
unfolding build_tree apply_hides list_dir build_parent_dirs parents_loop scan_dirs unsorted
    add_downloads add_files has_prefix add_entry insert Str-discrete dir_path join clean join_slash
    download_title resolve_all segments ℕ_discrete lookup add_all any_subdir insert_entry longest
    sort_dirs sort_entries str_lt base dir last_segment strip_slashes upto_slash extract_season
build_runs = (refl, refl)

abbrev hide : List (Str × Bool) → Option Dirs → Option Dirs
hide hidden none = none
hide hidden (some dirs) = apply_hides dirs hidden

-- Behind a hide of the episode the film is still there, but the root has lost its directories.
hides_run :
    let tree = hide ((str "torrent:7:2", true) ∷ []) (build_tree text (download ∷ []) false) in
    (names_at (str "/") tree ≡ [])
    × (names_at (str "/movies/Alien") tree ≡ str "alien.mkv" ∷ [])
    × (names_at (str "/series/Alien") tree ≡ [])
unfolding build_tree apply_hides list_dir build_parent_dirs parents_loop scan_dirs unsorted
    add_downloads add_files has_prefix add_entry insert Str-discrete dir_path join clean join_slash
    download_title resolve_all segments ℕ_discrete lookup add_all any_subdir insert_entry longest
    sort_dirs sort_entries str_lt base dir last_segment strip_slashes upto_slash extract_season
    hide_dirs keep_shown sort_paths insert_path count_slashes prune_dirs prune_dir keep_valid delete
hides_run = (refl, refl, refl)

abbrev flat : Dirs
flat = (str "/movies/Alien", []) ∷ []

build_parent_dirs-ParentsOk_example :
    (r : Dirs) × (build_parent_dirs flat ≡ some r) × ParentsOk flat r
build_parent_dirs-ParentsOk_example =
    build_parent_dirs-ParentsOk flat ((str "movies/Alien", refl), tt) (tt, tt)

abbrev filled : Dirs
filled = (str "/movies/Alien", leaf film ∷ leaf episode ∷ []) ∷ []

abbrev hidden_film : List (Str × Bool)
hidden_film = (str "torrent:7:1", true) ∷ []

apply_hides-OnlyShown_example :
    (dirs : Dirs) × (apply_hides filled hidden_film ≡ some dirs) × OnlyShown hidden_film filled dirs
apply_hides-OnlyShown_example =
    apply_hides-OnlyShown filled hidden_film ((str "movies/Alien", refl), tt) (tt, tt)

abbrev list : Str → Option (List Download)
list kind = if str_eq kind (str "torrent") then some (download ∷ []) else some []

abbrev never : Statement → Bool
never s = false

abbrev empty_db : Db
empty_db = record { inodes = []; files = []; hidden = []; next_inode = 1 }

abbrev catalog : CatalogState
catalog = record {
  tree = [];
  refreshing = false;
  all_dir_enabled = false;
  has_client = true;
  db = empty_db;
  counters = none;
  on_refresh = true;
  notified = 0;
}
