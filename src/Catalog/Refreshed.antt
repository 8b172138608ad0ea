-- ===== src/Catalog/Refreshed.antt =====
-- What a call of Refresh in internal/catalog/catalog.go leaves in the tree and in the database.
use torbox_fuse_go.Base.{
  ℕ, ◌≡◌, Bool, true, false, ◌⊎◌, Option, none, some, List, [], Str, Str-discrete, lookup, map,
  if◌then◌else◌, Result, ok, err,
}
use torbox_fuse_go.State.{Statement, FileRecord, Db, select_hidden}
use torbox_fuse_go.State.Latest.{latest, listed}
use torbox_fuse_go.Catalog.{Text, Download}
use torbox_fuse_go.Catalog.Tree.{Dirs, build_tree}
use torbox_fuse_go.Catalog.Hides.{OnlyShown}
use torbox_fuse_go.Catalog.Walk.{tree_records}
use torbox_fuse_go.Catalog.Refresh.{CatalogState, RefreshError, fetch_kinds, kinds}

-- The walk gives inodes, and leaves the other tables.
abbrev SameTables : Db → Db → Type 0
SameTables db db' = (db'.files ≡ db.files) × (db'.hidden ≡ db.hidden)

module _ (fails : Statement → Bool) where
  -- The files that are hidden, as the database says.
  abbrev pub hidden_keys : Db → List (Str × Bool)
  hidden_keys db = map (λ e. (e.0, true)) db.hidden

  -- The tree that is shown: the whole one only if the hidden files could not be read.
  abbrev pub Shows : Db → Dirs → Dirs → Type 0
  Shows db full shown =
      ((fails select_hidden ≡ true) × (shown ≡ full))
      ⊎ ((fails select_hidden ≡ false) × OnlyShown (hidden_keys db) full shown)

  -- The files of the database are the given ones, the last one of a key, and only those of them that
  -- were hidden are still hidden.
  abbrev pub Stored : Db → List FileRecord → Db → Type 0
  Stored db recs db' =
      ((k : Str) → lookup Str-discrete k db'.files ≡ latest k recs)
      × ((k : Str)
          → lookup Str-discrete k db'.hidden
            ≡ (if listed recs k then lookup Str-discrete k db.hidden else none))

  module _ (text : Text) (list : Str → Option (List Download)) where
    abbrev pub Fetched : CatalogState → CatalogState → Type 0
    Fetched c c' =
        (ds : List Download) × (n : ℕ) × (full : Dirs) × (fetch_kinds list kinds [] ≡ (n, ok ds))
        × (build_tree text ds c.all_dir_enabled ≡ some full)
        × Stored c.db (tree_records fails c.db full) c'.db
        × Shows c'.db full c'.tree

    -- With an error the tree and the tables of files are as before.
    abbrev pub Unchanged : CatalogState → CatalogState → Type 0
    Unchanged c c' = (c'.tree ≡ c.tree) × (c'.notified ≡ c.notified) × SameTables c.db c'.db

    abbrev pub RefreshOk : CatalogState → CatalogState × Result RefreshError (Unit {0}) → Type 0
    RefreshOk c (c', err e) = Unchanged c c'
    RefreshOk c (c', ok _) =
        (c'.refreshing ≡ false) × (((c.has_client ≡ false) × Unchanged c c') ⊎ Fetched c c')

    abbrev Returns : CatalogState → Option (CatalogState × Result RefreshError (Unit {0})) → Type 0
    Returns c o = (r : CatalogState × Result RefreshError (Unit {0})) × (o ≡ some r) × RefreshOk c r
