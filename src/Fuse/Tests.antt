-- ===== src/Fuse/Tests.antt =====
-- Runs of Unlink and Rmdir, and the theorem on Unlink at a concrete tree.
use torbox_fuse_go.Base.{
  ℕ_discrete, arith, Bool, true, false, none, some, [], ◌∷◌, str, Str-discrete, lookup, insert, ◌≡◌,
  refl,
}
use torbox_fuse_go.State.{Statement, hide_file}
use torbox_fuse_go.Paths
use torbox_fuse_go.Catalog.{File}
use torbox_fuse_go.Paths.{has_prefix}
use torbox_fuse_go.Catalog.{Text, Download}
use torbox_fuse_go.Catalog.Tree.{
  build_tree, build_parent_dirs, parents_loop, scan_dirs, unsorted, add_downloads, add_files,
  add_entry, dir_path, download_title, add_all, any_subdir, insert_entry, longest, sort_dirs,
  sort_entries, str_lt, extract_season, Dirs,
}
use torbox_fuse_go.State.{Db}
use torbox_fuse_go.Fuse.Ends.{CleanDirs}
use torbox_fuse_go.Fuse.Filled.{on_add}
use torbox_fuse_go.Fuse.Mounted.{MountedOk, on_add-MountedOk}
use torbox_fuse_go.Fuse.{
  FileNode, Children, no_children, file_child, dir_child, get_child, Root, remove_content_keys,
  remove_keys_from_dir, prune_empty_dirs,
}
use torbox_fuse_go.Fuse.Removal.{
  FuseState, success, panic, in_series, in_movies, unlink, rmdir, collect_file_keys, hide_each,
  parse_content_key, key_parts,
}
use torbox_fuse_go.Fuse.Unlinked.{UnlinkOk, unlink-UnlinkOk}

abbrev episode : FileNode
episode = record { file_key = str "torrent:1:2"; permalink = str "u"; node_size = 5 }

abbrev film : FileNode
film = record { file_key = str "torrent:1:3"; permalink = str "v"; node_size = 6 }

abbrev season : Children
season = file_child (str "e1.mkv") episode no_children

abbrev tree : Root
tree = record {
  movies = some (2, file_child (str "f.mkv") film no_children);
  series =
      some
        (3, dir_child (str "Show") 4 (dir_child (str "Season 1") 5 season no_children) no_children);
  all = none;
}

abbrev start : FuseState
start = record {
  root = tree;
  db = record { inodes = []; files = []; hidden = []; next_inode = 2 };
  notified = [];
}

abbrev never : Statement → Bool
never s = false

unlink_run :
    let r = unlink never true false 9 start season (str "e1.mkv") in
    (r.1 ≡ success)
    × (r.0.root ≡ record tree { series = some (3, no_children) })
    × (r.0.notified ≡ (5, str "e1.mkv") ∷ (4, str "Season 1") ∷ (3, str "Show") ∷ [])
    × (r.0.db.hidden ≡ (str "torrent:1:2", 9) ∷ [])
unfolding unlink get_child hide_file lookup insert Str-discrete remove_content_keys
    remove_keys_from_dir prune_empty_dirs
unlink_run = (refl, refl, refl, refl)

-- Rmdir of a name that is a file's ends the program.
rmdir_runs :
    ((rmdir never true false 9 start 2 in_movies []
        (file_child (str "f.mkv") film no_children)
        (str "f.mkv")).1
      ≡ panic)
    × ((rmdir never true false 9 start 3 in_series []
          (dir_child (str "Show") 4 season no_children)
          (str "Show")).0.db.hidden
        ≡ (str "torrent:1:2", 9) ∷ [])
unfolding rmdir get_child hide_each hide_file lookup insert Str-discrete collect_file_keys
rmdir_runs = (refl, refl)

parse_runs :
    (parse_content_key (str "torrent:1:2") ≡ (str "torrent", str "1", str "2"))
    × (parse_content_key (str "torrent:1") ≡ ([], [], []))
unfolding parse_content_key key_parts
parse_runs = (refl, refl)

unlink-UnlinkOk_example :
    UnlinkOk never false start season
      (str "e1.mkv")
      (unlink never true false 9 start season (str "e1.mkv"))
unlink-UnlinkOk_example = unlink-UnlinkOk never false true 9 start season (str "e1.mkv") (λ e. refl)

abbrev listed_film : File
listed_film = record {
  download_kind = str "torrent";
  download_id = str "1";
  file_id = str "3";
  name = str "f.mkv";
  size = 6;
  mime_type = str "video/x-matroska";
  media_type = str "movie";
}

abbrev catalog_dirs : Dirs
catalog_dirs =
    (str "/movies/Film", record { entry_name = str "f.mkv"; file = some listed_film } ∷ [])
    ∷ (str "/movies", record { entry_name = str "Film"; file = none } ∷ [])
    ∷ (str "/", record { entry_name = str "movies"; file = none } ∷ [])
    ∷ []

abbrev text : Text
text = record {
  to_lower = λ s. s;
  trim_space = λ s. s;
  atoi = λ s. none;
  itoa = λ n. str "1";
  season_episode_re = λ s. false;
  hash_re = λ s. false;
  season_re = λ s. none;
}

abbrev download : Download
download = record {
  kind = str "torrent";
  id = str "1";
  download_name = str "Film";
  hash = [];
  files = listed_film ∷ [];
}

-- The tree that BuildTree makes of a download with one film.
built : build_tree text (download ∷ []) false ≡ some catalog_dirs
unfolding build_tree build_parent_dirs parents_loop scan_dirs unsorted add_downloads add_files
    has_prefix add_entry insert Str-discrete dir_path Paths.join Paths.clean Paths.join_slash
    download_title Paths.resolve_all Paths.segments ℕ_discrete lookup add_all any_subdir
    insert_entry longest sort_dirs sort_entries str_lt Paths.base Paths.dir Paths.last_segment
    Paths.strip_slashes Paths.upto_slash extract_season
built = refl

catalog_dirs-CleanDirs : CleanDirs catalog_dirs
unfolding Paths.clean Paths.join_slash Paths.resolve_all Paths.segments Str-discrete
catalog_dirs-CleanDirs =
    (λ long. (λ e. absurd (cc), tt), (λ long. (λ e. refl, tt), (λ long. absurd (omega arith), tt)))

on_add-MountedOk_example :
    (r : Db × Root) × (on_add never (str "b") (str "k") catalog_dirs false start.db ≡ some r)
    × MountedOk never (str "b") (str "k") catalog_dirs (λ q. refl) catalog_dirs-CleanDirs false r.1
on_add-MountedOk_example =
    on_add-MountedOk never (str "b") (str "k") catalog_dirs (λ q. refl) catalog_dirs-CleanDirs false
      start.db
