-- ===== src/Catalog/Refresh.antt =====
-- internal/catalog/catalog.go: Refresh, LoadFromDB and SetTree. Downloader is an argument, a function
-- from the kind to the downloads or an error, and `fails` says which statements of the database fail.
-- The result is `none` only if buildParentDirs does not come to an end.
use torbox_fuse_go.Base.{
  ℕ, suc, ◌+◌, Bool, false, Option, none, some, List, [], ◌∷◌, ◌++◌, Str, str, if◌then◌else◌,
  length, Result, ok, err,
}
use torbox_fuse_go.Paths.{slash, has_prefix}
use torbox_fuse_go.State.{
  Statement, Error, FileRecord, Db, assign_inode, replace_files, hidden_set, list_files,
}
use torbox_fuse_go.Catalog.{
  Text, File, Download, content_key, kind_torrent, kind_usenet, kind_web_dl,
}
use torbox_fuse_go.Catalog.Tree.{DirEntry, Dirs, build_tree}
use torbox_fuse_go.Catalog.FromDb.{build_tree_from_db, apply_hides}

pub data RefreshError : Type 0 where
  refresh_in_progress : RefreshError
  fetch_failed : (kind : Str) → RefreshError
  replace_failed : Error → RefreshError
  load_failed : Error → RefreshError

pub record CatalogCounters : Type 0 where
  pub refresh_count : ℕ
  pub api_call_count : ℕ
  pub catalog_items : ℕ

-- `notified` counts the calls of onRefresh, if there is one.
pub record CatalogState : Type 0 where
  pub tree : Dirs
  pub refreshing : Bool
  pub all_dir_enabled : Bool
  pub has_client : Bool
  pub db : Db
  pub counters : Option CatalogCounters
  pub on_refresh : Bool
  pub notified : ℕ

unfoldable pub new_catalog : Bool → Bool → Db → Option CatalogCounters → CatalogState
new_catalog has_client all_dir db counters = record {
  tree = [];
  refreshing = false;
  all_dir_enabled = all_dir;
  has_client = has_client;
  db = db;
  counters = counters;
  on_refresh = false;
  notified = 0;
}

abbrev pub count_refresh : Option CatalogCounters → Option CatalogCounters
count_refresh none = none
count_refresh (some m) = some (record m { refresh_count = suc m.refresh_count })

abbrev pub count_calls : ℕ → Option CatalogCounters → Option CatalogCounters
count_calls n none = none
count_calls n (some m) = some (record m { api_call_count = m.api_call_count + n })

abbrev pub store_items : ℕ → Option CatalogCounters → Option CatalogCounters
store_items n none = none
store_items n (some m) = some (record m { catalog_items = n })

-- The atomic swap of the tree, with the callback.
unfoldable pub set_tree : CatalogState → Dirs → CatalogState
set_tree c shown = record c {
  tree = shown;
  notified = (if c.on_refresh then suc c.notified else c.notified);
}

-- The loop over the kinds, with the number of calls that succeed.
abbrev pub one_call :
    ℕ × Result RefreshError (List Download) → ℕ × Result RefreshError (List Download)
one_call (n, r) = (suc n, r)

unfoldable pub fetch_kinds :
    (Str → Option (List Download))
    → List Str
    → List Download
    → ℕ × Result RefreshError (List Download)
fetch_kinds list [] all = (0, ok all)
fetch_kinds list (kind ∷ kinds) all = elim (list kind) [
  | none ↦ (0, err (fetch_failed kind))
  | some ds ↦ one_call (fetch_kinds list kinds (all ++ ds))
]

abbrev pub kinds : List Str
kinds = kind_torrent ∷ kind_usenet ∷ kind_web_dl ∷ []

abbrev pub record_of : Str → File → FileRecord
record_of file_path f = record {
  content_key = content_key f;
  download_kind = f.download_kind;
  download_id = f.download_id;
  file_id = f.file_id;
  path = file_path;
  size = f.size;
}

module _ (fails : Statement → Bool) where
  -- The body of the walk for a file: without an inode it is not recorded.
  abbrev pub keep_record : FileRecord → List FileRecord → Db × Result Error ℕ → Db × List FileRecord
  keep_record rec files (db, ok n) = (db, files ++ (rec ∷ []))
  keep_record rec files (db, err e) = (db, files)

  abbrev pub record_file : Str → Str → Option File → Db × List FileRecord → Db × List FileRecord
  record_file dir_path name none s = s
  record_file dir_path name (some f) (db, files) =
      let rec = record_of (dir_path ++ (slash ∷ name)) f in
      if has_prefix dir_path (str "/all/")
      then (db, files)
      else keep_record rec files (assign_inode fails db (content_key f) rec.path)

  abbrev pub record_entry : Str → DirEntry → Db × List FileRecord → Db × List FileRecord
  record_entry dir_path e s = record_file dir_path e.entry_name e.file s

  unfoldable pub record_entries : Str → List DirEntry → Db × List FileRecord → Db × List FileRecord
  record_entries dir_path [] s = s
  record_entries dir_path (e ∷ es) s = record_entries dir_path es (record_entry dir_path e s)

  unfoldable pub record_tree : Dirs → Db × List FileRecord → Db × List FileRecord
  record_tree [] s = s
  record_tree ((p, es) ∷ rest) s = record_tree rest (record_entries p es s)

  -- The tree without the hidden files, or the whole tree if they cannot be read.
  abbrev pub shown_tree : Dirs → Result Error (List (Str × Bool)) → Option Dirs
  shown_tree tree (err e) = some tree
  shown_tree tree (ok hidden) = apply_hides tree hidden

  abbrev pub swap_tree :
      CatalogState → ℕ → Option Dirs → Option (CatalogState × Result RefreshError (Unit {0}))
  swap_tree c items none = none
  swap_tree c items (some shown) =
      let c' = set_tree c shown in
      some (record c' { counters = store_items items c'.counters }, ok tt)

  abbrev pub after_replace :
      CatalogState
      → Dirs
      → ℕ
      → Db × Result Error ℕ
      → Option (CatalogState × Result RefreshError (Unit {0}))
  after_replace c tree items (db, err e) = some (record c { db = db }, err (replace_failed e))
  after_replace c tree items (db, ok stale) =
      swap_tree (record c { db = db }) items (shown_tree tree (hidden_set fails db))

  abbrev pub after_walk :
      CatalogState
      → Dirs
      → Db × List FileRecord
      → Option (CatalogState × Result RefreshError (Unit {0}))
  after_walk c tree (db, files) = after_replace c tree (length files) (replace_files fails db files)

  abbrev pub after_build :
      CatalogState → Option Dirs → Option (CatalogState × Result RefreshError (Unit {0}))
  after_build c none = none
  after_build c (some tree) = after_walk c tree (record_tree tree (c.db, []))

  module _ (text : Text) (list : Str → Option (List Download)) where
    abbrev pub after_fetch :
        CatalogState
        → ℕ × Result RefreshError (List Download)
        → Option (CatalogState × Result RefreshError (Unit {0}))
    after_fetch c (n, err e) = some (record c { counters = count_calls n c.counters }, err e)
    after_fetch c (n, ok ds) =
        after_build (record c { counters = count_calls n c.counters })
          (build_tree text ds c.all_dir_enabled)

    -- A whole call; the flag `refreshing` is set only within it.
    unfoldable pub refresh : CatalogState → Option (CatalogState × Result RefreshError (Unit {0}))
    refresh c =
        if c.refreshing
        then some (c, err refresh_in_progress)
        else let c' = record c { counters = count_refresh c.counters } in
          if c.has_client then after_fetch c' (fetch_kinds list kinds []) else some (c', ok tt)

  abbrev pub load_records :
      CatalogState → List FileRecord → Option (CatalogState × Result RefreshError (Unit {0}))
  load_records c [] = some (c, ok tt)
  load_records c (rec ∷ recs) = elim (build_tree_from_db (rec ∷ recs) c.all_dir_enabled) [
    | none ↦ none
    | some tree ↦ swap_tree c (suc (length recs)) (shown_tree tree (hidden_set fails c.db))
  ]

  abbrev pub load_result :
      CatalogState
      → Result Error (List FileRecord)
      → Option (CatalogState × Result RefreshError (Unit {0}))
  load_result c (err e) = some (c, err (load_failed e))
  load_result c (ok recs) = load_records c recs

  unfoldable pub load_from_db :
      CatalogState → Option (CatalogState × Result RefreshError (Unit {0}))
  load_from_db c = load_result c (list_files fails c.db)
