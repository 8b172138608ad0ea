-- ===== src/Catalog/Walk.antt =====
-- The walk of Refresh in internal/catalog/catalog.go over the tree: the records that it collects.
use mathlib.Core.List.{append-nil, append_assoc}
use torbox_fuse_go.Base.{
  str, subst, ap, ◌++◌, ◌||◌, ◌&&◌, not, Option-cases, ℕ, ◌≡◌, refl, ◌∙◌, sym, Bool, true, false,
  ◌⊎◌, inl, inr, Option, none, some, List, [], ◌∷◌, Str, Str-discrete, lookup, if◌then◌else◌,
  Result, ok, err, Bool-cases,
}
use torbox_fuse_go.State.{
  Statement, select_inode, insert_inode, Error, FileRecord, Db, InodeRow, assign_inode,
}
use torbox_fuse_go.State.Tables.{has_key, is_some}
use torbox_fuse_go.Paths.{has_prefix, slash}
use torbox_fuse_go.Catalog.{content_key, File}
use torbox_fuse_go.Catalog.Tree.{DirEntry, Dirs}
use torbox_fuse_go.Catalog.Refresh.{
  record_of, keep_record, record_file, record_entry, record_entries, record_tree,
}

module _ (fails : Statement → Bool) where
  -- The database can number the key: its inodes can be read, and they have the key or can be added to.
  abbrev pub numbered : Db → Str → Bool
  numbered db key = not (fails select_inode) && (has_key key db.inodes || not (fails insert_inode))

  abbrev pub file_record : Db → Str → Str → Option File → List FileRecord
  file_record db p name none = []
  file_record db p name (some f) =
      if numbered db (content_key f)
      then (record {
        content_key = content_key f;
        download_kind = f.download_kind;
        download_id = f.download_id;
        file_id = f.file_id;
        path = p ++ (slash ∷ name);
        size = f.size;
      })
        ∷ []
      else []

  -- The records of a directory's files, and those of a tree without the directories below /all.
  abbrev pub dir_records : Db → Str → List DirEntry → List FileRecord
  dir_records db p [] = []
  dir_records db p (e ∷ es) = file_record db p e.entry_name e.file ++ dir_records db p es

  abbrev pub tree_records : Db → Dirs → List FileRecord
  tree_records db [] = []
  tree_records db ((p, es) ∷ rest) =
      (if has_prefix p (str "/all/") then [] else dir_records db p es) ++ tree_records db rest

  module _ (db : Db) where
    -- The walk has added no inode if it cannot.
    abbrev Grown : Db → Type 0
    Grown db' = (fails insert_inode ≡ false) ⊎ (db'.inodes ≡ db.inodes)

    abbrev Numbers : Str → Db × Result Error ℕ → Type 0
    Numbers key (db', ok n) = (numbered db key ≡ true) × Grown db'
    Numbers key (db', err e) = (numbered db key ≡ false) × Grown db'

    numbered_insertable :
        (key : Str)
        → fails select_inode ≡ false
        → fails insert_inode ≡ false
        → numbered db key ≡ true
    numbered_insertable key fine free = elim (Bool-cases (has_key key db.inodes)) [
      | inl old ↦ rw (fine, free, old) refl
      | inr new ↦ rw (fine, free, new) refl
    ]

    numbered_full :
        (key : Str)
        → fails select_inode ≡ false
        → fails insert_inode ≡ true
        → numbered db key ≡ has_key key db.inodes
    numbered_full key fine full = elim (Bool-cases (has_key key db.inodes)) [
      | inl old ↦ rw (fine, full, old) refl
      | inr new ↦ rw (fine, full, new) refl
    ]

    same_key :
        (key : Str) (db' : Db) (o : Option InodeRow)
        → db'.inodes ≡ db.inodes
        → lookup Str-discrete key db'.inodes ≡ o
        → has_key key db.inodes ≡ is_some o
    same_key key db' o same e =
        ap (λ m. is_some (lookup Str-discrete key m)) (sym same) ∙ ap is_some e

    numbered_old :
        (key : Str) (db' : Db) (row : InodeRow)
        → Grown db'
        → fails select_inode ≡ false
        → lookup Str-discrete key db'.inodes ≡ some row
        → numbered db key ≡ true
    numbered_old key db' row g fine old = elim (Bool-cases (fails insert_inode)) [
      | inr free ↦ numbered_insertable key fine free
      | inl full ↦ elim g [
        | inl free ↦ numbered_insertable key fine free
        | inr same ↦ numbered_full key fine full ∙ same_key key db' (some row) same old
      ]
    ]

    assign_inode-Numbers :
        (db' : Db) (key path : Str) → Grown db' → Numbers key (assign_inode fails db' key path)
    unfolding assign_inode
    assign_inode-Numbers db' key path g = elim (Bool-cases (fails select_inode)) [
      | inl bad ↦ rw (bad, bad) (refl, g)
      | inr fine ↦ elim (Option-cases (lookup Str-discrete key db'.inodes)) [
        | inr (row, old) ↦
            let there = numbered_old key db' row g fine old in rw (fine, old) (there, g)
        | inl new ↦ elim (Bool-cases (fails insert_inode)) [
          | inr free ↦
              let there = numbered_insertable key fine free in
              rw (fine, new, free) (there, inl free)
          | inl full ↦ elim g [
            | inl free ↦ cc
            | inr same ↦
                let missing = numbered_full key fine full ∙ same_key key db' none same new in
                rw (fine, new, full) (missing, inr same)
          ]
        ]
      ]
    ]

    -- What a part of the walk has done: it has added these records.
    abbrev Walked : List FileRecord → List FileRecord → Db × List FileRecord → Type 0
    Walked files added (db', files') = (files' ≡ files ++ added) × Grown db'

    keep_record-Walked :
        (rec : FileRecord) (files : List FileRecord) (p : Db × Result Error ℕ)
        → Numbers rec.content_key p
        → Walked files
            (if numbered db rec.content_key then rec ∷ [] else [])
            (keep_record fails rec files p)
    keep_record-Walked rec files (db', ok n) h = rw h.0 (refl, h.1)
    keep_record-Walked rec files (db', err e) h = rw h.0 (sym (append-nil files), h.1)

    record_file-Walked :
        (p name : Str) (o : Option File) (s : Db × List FileRecord)
        → has_prefix p (str "/all/") ≡ false
        → Grown s.0
        → Walked s.1 (file_record db p name o) (record_file fails p name o s)
    record_file-Walked p name none (db', files) own g = (sym (append-nil files), g)
    record_file-Walked p name (some f) (db', files) own g =
        let rec = record_of (p ++ (slash ∷ name)) f in
        rw own (
          keep_record-Walked rec files (assign_inode fails db' (content_key f) rec.path)
            (assign_inode-Numbers db' (content_key f) rec.path g))

    record_entries-Walked :
        (p : Str) (es : List DirEntry) (s : Db × List FileRecord)
        → has_prefix p (str "/all/") ≡ false
        → Grown s.0
        → Walked s.1 (dir_records db p es) (record_entries fails p es s)
    unfolding record_entries
    record_entries-Walked p [] s own g = (sym (append-nil s.1), g)
    record_entries-Walked p (e ∷ es) s own g =
        let now = record_file-Walked p e.entry_name e.file s own g in
        let later = record_entries-Walked p es (record_entry fails p e s) own now.1 in
        (
          later.0
              ∙ ap (λ l. l ++ dir_records db p es) now.0
              ∙ append_assoc s.1 (file_record db p e.entry_name e.file) (dir_records db p es),
          later.1,
        )

    record_file_derived :
        (p name : Str) (o : Option File) (s : Db × List FileRecord)
        → has_prefix p (str "/all/") ≡ true
        → record_file fails p name o s ≡ s
    record_file_derived p name none s derived = refl
    record_file_derived p name (some f) (db', files) derived = rw derived refl

    record_entries_derived :
        (p : Str) (es : List DirEntry) (s : Db × List FileRecord)
        → has_prefix p (str "/all/") ≡ true
        → record_entries fails p es s ≡ s
    unfolding record_entries
    record_entries_derived p [] s derived = refl
    record_entries_derived p (e ∷ es) s derived =
        record_entries_derived p es (record_entry fails p e s) derived
        ∙ record_file_derived p e.entry_name e.file s derived

    record_dir-Walked :
        (p : Str) (es : List DirEntry) (s : Db × List FileRecord)
        → Grown s.0
        → Walked s.1
            (if has_prefix p (str "/all/") then [] else dir_records db p es)
            (record_entries fails p es s)
    record_dir-Walked p es s g = elim (Bool-cases (has_prefix p (str "/all/"))) [
      | inr own ↦ rw own (record_entries-Walked p es s own g)
      | inl derived ↦ rw derived (
          subst (Walked s.1 []) (sym (record_entries_derived p es s derived))
            (sym (append-nil s.1), g))
    ]

    record_tree-Walked :
        (tree : Dirs) (s : Db × List FileRecord)
        → Grown s.0
        → Walked s.1 (tree_records db tree) (record_tree fails tree s)
    unfolding record_tree
    record_tree-Walked [] s g = (sym (append-nil s.1), g)
    record_tree-Walked ((p, es) ∷ rest) s g =
        let here = if has_prefix p (str "/all/") then [] else dir_records db p es in
        let now = record_dir-Walked p es s g in
        let later = record_tree-Walked rest (record_entries fails p es s) now.1 in
        (
          later.0
              ∙ ap (λ l. l ++ tree_records db rest) now.0
              ∙ append_assoc s.1 here (tree_records db rest),
          later.1,
        )

    -- The walk from no records on collects those of the tree.
    pub record_tree-tree_records :
        (tree : Dirs) → (record_tree fails tree (db, [])).1 ≡ tree_records db tree
    record_tree-tree_records tree = (record_tree-Walked tree (db, []) (inr refl)).0
