-- ===== src/State.antt =====
-- internal/state/db.go: the tables of the database and the functions on them. The SQL engine is not
-- modelled: each statement is taken to do what SQL says of its text, on tables as maps by primary
-- key, or to fail, as the argument `fails` says. The column updated_at, which nothing reads, is left
-- out, and so is the bound of uint64 on inode numbers. `like` is the engine's operator LIKE.
pub mod Tables
pub mod Inodes
pub mod Calls
pub mod Replace
pub mod Latest
mod Tests
use torbox_fuse_go.Base.{
  ℕ, suc, ◌+◌, Bool, true, false, not, ◌&&◌, Option, none, some, List, [], ◌∷◌, ◌++◌, map, Str, str,
  Str-discrete, str_eq, if◌then◌else◌, ltb, leb, lookup, insert, delete, max, Result, ok, err,
  ◌>>=◌, ◌>>◌,
}
use torbox_fuse_go.State.Tables.{retain, dropped, has_key}

pub data Statement : Type 0 where
  select_inode insert_inode : Statement
  begin_tx create_keys prepare_keys prepare_files : Statement
  insert_key upsert_file : Str → Statement
  delete_stale rows_affected delete_stale_hidden drop_keys commit : Statement
  select_file select_files hide unhide unhide_download : Statement
  count_hidden count_files select_hidden : Statement

pub data Error : Type 0 where
  failed : Statement → Error
  no_inode : Error

pub record FileRecord : Type 0 where
  pub content_key : Str
  pub download_kind : Str
  pub download_id : Str
  pub file_id : Str
  pub path : Str
  pub size : ℕ

pub record InodeRow : Type 0 where
  pub inode : ℕ
  pub inode_path : Str

-- `hidden` has the column hidden_at, in seconds.
pub record Db : Type 0 where
  pub inodes : List (Str × InodeRow)
  pub files : List (Str × FileRecord)
  pub hidden : List (Str × ℕ)
  pub next_inode : ℕ

-- SELECT MAX(inode) FROM inodes, and one more; 1 in an empty table.
unfoldable pub init_next_inode : List (Str × InodeRow) → ℕ
init_next_inode [] = 1
init_next_inode (e ∷ es) = max (suc e.1.inode) (init_next_inode es)

-- Open on the tables that an earlier process has left.
unfoldable pub open_db : Db → Db
open_db db = record db { next_inode = init_next_inode db.inodes }

module _ (fails : Statement → Bool) where
  abbrev pub exec : Statement → Result Error (Unit {0})
  exec s = if fails s then err (failed s) else ok tt

  -- The insertion of a new inode; the counter has moved on also if it fails.
  abbrev pub allocate : Db → Str → Str → Bool → Db × Result Error ℕ
  allocate db key path true =
      (record db { next_inode = suc db.next_inode }, err (failed insert_inode))
  allocate db key path false =
      let row : InodeRow = record { inode = db.next_inode; inode_path = path } in
      (
        record db {
          inodes = insert Str-discrete key row db.inodes;
          next_inode = suc db.next_inode;
        },
        ok db.next_inode,
      )

  unfoldable pub assign_inode : Db → Str → Str → Db × Result Error ℕ
  assign_inode db key path =
      if fails select_inode
      then (db, err (failed select_inode))
      else elim (lookup Str-discrete key db.inodes) [
        | some row ↦ (db, ok row.inode)
        | none ↦ allocate db key path (fails insert_inode)
      ]

  unfoldable pub lookup_inode : Db → Str → Result Error ℕ
  lookup_inode db key =
      exec select_inode
      >> elim (lookup Str-discrete key db.inodes) [ none ↦ err no_inode | some row ↦ ok row.inode ]

  -- The loop of INSERT OR IGNORE INTO _current_keys.
  unfoldable pub insert_keys :
      List FileRecord → List (Str × Unit {0}) → Result Error (List (Str × Unit {0}))
  insert_keys [] keys = ok keys
  insert_keys (f ∷ fs) keys = exec (insert_key f.content_key) >>= λ _.
      insert_keys fs
        (if has_key f.content_key keys then keys else insert Str-discrete f.content_key tt keys)

  -- The loop of INSERT OR REPLACE INTO files.
  unfoldable pub upsert_all :
      List FileRecord → List (Str × FileRecord) → Result Error (List (Str × FileRecord))
  upsert_all [] table = ok table
  upsert_all (f ∷ fs) table = exec (upsert_file f.content_key) >>= λ _.
      upsert_all fs (insert Str-discrete f.content_key f table)

  -- What a transaction leaves: without the commit, the tables as they were.
  abbrev pub end_tx {ℓ} : {A : Type ℓ} → Db → Result Error (Db × A) → Db × Result Error A
  end_tx db (ok (db', a)) = (db', ok a)
  end_tx db (err e) = (db, err e)

  unfoldable pub upsert_tx : Db → List FileRecord → Result Error (Db × Unit {0})
  upsert_tx db fs = do
    exec begin_tx
    exec prepare_files
    table ← upsert_all fs db.files
    exec commit
    ok (record db { files = table }, tt)

  unfoldable pub upsert_files : Db → List FileRecord → Db × Result Error (Unit {0})
  upsert_files db [] = (db, ok tt)
  upsert_files db (f ∷ fs) = end_tx db (upsert_tx db (f ∷ fs))

  unfoldable pub replace_tx : Db → List FileRecord → Result Error (Db × ℕ)
  replace_tx db fs = do
    exec begin_tx
    exec create_keys
    exec prepare_keys
    keys ← insert_keys fs []
    exec prepare_files
    table ← upsert_all fs db.files
    exec delete_stale
    exec rows_affected
    exec delete_stale_hidden
    exec drop_keys
    exec commit
    let kept = retain (λ k. has_key k keys) table
    ok (
      record db { files = kept; hidden = retain (λ k. has_key k kept) db.hidden },
      dropped (λ k. has_key k keys) table,
    )

  unfoldable pub replace_files : Db → List FileRecord → Db × Result Error ℕ
  replace_files db fs = end_tx db (replace_tx db fs)

  unfoldable pub lookup_file : Db → Str → Result Error (Option FileRecord)
  lookup_file db key = do exec select_file; ok (lookup Str-discrete key db.files)

  unfoldable pub list_files : Db → Result Error (List FileRecord)
  list_files db = do exec select_files; ok (map (λ e. e.1) db.files)

  -- INSERT OR IGNORE INTO hidden_files, at a time.
  unfoldable pub hide_file : Db → Str → ℕ → Db × Result Error (Unit {0})
  hide_file db key now =
      if fails hide
      then (db, err (failed hide))
      else if has_key key db.hidden
      then (db, ok tt)
      else (record db { hidden = insert Str-discrete key now db.hidden }, ok tt)

  unfoldable pub unhide_file : Db → Str → Db × Result Error (Unit {0})
  unhide_file db key =
      if fails unhide
      then (db, err (failed unhide))
      else (record db { hidden = delete Str-discrete key db.hidden }, ok tt)

  unfoldable pub is_hidden : Db → Str → Result Error Bool
  is_hidden db key = do exec count_hidden; ok (has_key key db.hidden)

  unfoldable pub hidden_set : Db → Result Error (List (Str × Bool))
  hidden_set db = do exec select_hidden; ok (map (λ e. (e.0, true)) db.hidden)

abbrev pub download_prefix : Str → Str → Str
download_prefix kind id = kind ++ (b':' ∷ (id ++ (b':' ∷ [])))

abbrev pub of_download : Str → Str → FileRecord → Bool
of_download kind id f = str_eq f.download_kind kind && str_eq f.download_id id

abbrev pub count_if {ℓ} : {A : Type ℓ} → (A → Bool) → List A → ℕ
count_if p [] = 0
count_if p (x ∷ xs) = (if p x then 1 else 0) + count_if p xs

module _ (like : Str → Str → Bool) (fails : Statement → Bool) where
  abbrev pub in_download : Str → Str → Str → Bool
  in_download kind id key = like (download_prefix kind id ++ (b'%' ∷ [])) key

  unfoldable pub unhide_matching : Db → Str → Str → Db × Result Error (Unit {0})
  unhide_matching db kind id =
      if fails unhide_download
      then (db, err (failed unhide_download))
      else (record db { hidden = retain (λ k. not (in_download kind id k)) db.hidden }, ok tt)

  unfoldable pub is_download_fully_hidden : Db → Str → Str → Result Error Bool
  is_download_fully_hidden db kind id = do
    exec fails count_hidden
    let hidden_count = count_if (λ e. in_download kind id e.0) db.hidden
    exec fails count_files
    let total_count = count_if (λ e. of_download kind id e.1) db.files
    ok (ltb 0 total_count && leb total_count hidden_count)
