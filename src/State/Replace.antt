-- ===== src/State/Replace.antt =====
-- ReplaceFiles of internal/state/db.go: the tables behind it, and what it counts.
use mathlib.Core.Path.{fun_ext}
use torbox_fuse_go.Base.{
  ◌>>◌, ◌>>=◌, err, Ensures-then, Result, ok, ap, inr, inl, ◌∙◌, Option-cases, insert, Ensures-bind,
  Ensures-ok, lookup, Ensures, ℕ, ◌≡◌, refl, Bool, false, Option, none, List, [], ◌∷◌, Str,
  Str-discrete, if◌then◌else◌,
}
use torbox_fuse_go.State.{
  commit, drop_keys, delete_stale_hidden, rows_affected, delete_stale, prepare_files, prepare_keys,
  create_keys, begin_tx, exec, Statement, insert_key, upsert_file, FileRecord, Db, Error,
  insert_keys, upsert_all, end_tx, replace_tx, replace_files,
}
use torbox_fuse_go.State.Tables.{lookup-retain, is_some, has_key, retain, dropped}
use torbox_fuse_go.State.Latest.{
  latest, listed, or_else, put_key, upsert_all-latest, upsert_all-dropped, insert_keys-listed,
  listed_all, or_false_lem,
}

dropped-congr :
    {V : Type 0} (p q : Str → Bool) (m : List (Str × V))
    → ((k : Str) → p k ≡ q k)
    → dropped p m ≡ dropped q m
dropped-congr p q m h = ap (λ f. dropped f m) (fun_ext h)

-- What ReplaceFiles promises: with an error nothing has changed; otherwise the table holds each key's
-- last record, and no other, the hidden keys are those that it still holds, and the result is the
-- number of records that are gone.
abbrev pub Replaced : Db → List FileRecord → Db × Result Error ℕ → Type 0
Replaced db fs (db', err e) = db' ≡ db
Replaced db fs (db', ok n) =
    ((k : Str) → lookup Str-discrete k db'.files ≡ latest k fs)
    × ((k : Str)
        → lookup Str-discrete k db'.hidden
          ≡ (if listed fs k then lookup Str-discrete k db.hidden else none))
    × (n ≡ dropped (listed fs) db.files)
    × (db'.inodes ≡ db.inodes)
    × (db'.next_inode ≡ db.next_inode)

or_else-listed :
    (k : Str) (fs : List FileRecord) (o : Option FileRecord)
    → (if listed fs k then or_else (latest k fs) o else none) ≡ latest k fs
or_else-listed k fs o = elim (Option-cases (latest k fs)) [
  | inl missing ↦ rw missing refl
  | inr (f, found) ↦ rw found refl
]

module _ (fails : Statement → Bool) (db : Db) (fs : List FileRecord) where
  committed :
      (keys : List (Str × Unit {0})) (table : List (Str × FileRecord))
      → ((k : Str) → has_key k keys ≡ listed fs k)
      → ((k : Str)
          → lookup Str-discrete k table ≡ or_else (latest k fs) (lookup Str-discrete k db.files))
      → dropped (listed fs) table ≡ dropped (listed fs) db.files
      → let kept = retain (λ k. has_key k keys) table in
        Replaced db fs (
          record db { files = kept; hidden = retain (λ k. has_key k kept) db.hidden },
          ok (dropped (λ k. has_key k keys) table),
        )
  committed keys table keys_ok table_ok same =
      let kept = retain (λ k. has_key k keys) table in
      let files = λ (k : Str).
        lookup-retain (λ k. has_key k keys) k table
        ∙ ap (λ b. if b then lookup Str-discrete k table else none) (keys_ok k)
        ∙ ap (λ o. if listed fs k then o else none) (table_ok k)
        ∙ or_else-listed k fs (lookup Str-discrete k db.files) in
      (
        files,
        λ k.
            lookup-retain (λ k. has_key k kept) k db.hidden
            ∙ ap (λ o. if is_some o then lookup Str-discrete k db.hidden else none) (files k),
        dropped-congr (λ k. has_key k keys) (listed fs) table keys_ok ∙ same,
        refl,
        refl,
      )

  replace_tx-Replaced :
      Ensures (λ (p : Db × ℕ). Replaced db fs (p.0, ok p.1)) (replace_tx fails db fs)
  unfolding replace_tx lookup
  replace_tx-Replaced = Ensures-then _ _ λ _. Ensures-then _ _ λ _. Ensures-then _ _ λ _.
      Ensures-bind _ _ λ keys got_keys. Ensures-then _ _ λ _. Ensures-bind _ _ λ table got_table.
        Ensures-then _ _ λ _. Ensures-then _ _ λ _. Ensures-then _ _ λ _. Ensures-then _ _ λ _.
          Ensures-then _ _ λ _. Ensures-ok _ (
            committed keys table
              (λ k.
                (insert_keys-listed fails fs []).holds keys got_keys k ∙ or_false_lem (listed fs k))
              ((upsert_all-latest fails fs db.files).holds table got_table)
              ((upsert_all-dropped (listed fs) fails fs db.files (listed_all fs)).holds table
                got_table))

  end_tx-Replaced :
      (r : Result Error (Db × ℕ))
      → Ensures (λ (p : Db × ℕ). Replaced db fs (p.0, ok p.1)) r
      → Replaced db fs (end_tx fails db r)
  end_tx-Replaced (ok p) h = h.holds p refl
  end_tx-Replaced (err e) h = refl

  -- ReplaceFiles, whichever statement fails: with an error nothing has changed. Otherwise each key has
  -- its last record in the list, and a key that is not in the list has none; a hidden key stays hidden
  -- exactly if it is in the list; the result is the number of records whose key is not in the list; and
  -- the inodes are as before.
  pub replace_files-Replaced : Replaced db fs (replace_files fails db fs)
  unfolding replace_files
  replace_files-Replaced = end_tx-Replaced (replace_tx fails db fs) replace_tx-Replaced

module _ (fails : Statement → Bool) (fine : (s : Statement) → fails s ≡ false) where
  exec_fine : (s : Statement) → exec fails s ≡ ok tt
  exec_fine s = rw (fine s) refl

  insert_keys_returns :
      (fs : List FileRecord) (keys : List (Str × Unit {0}))
      → (out : List (Str × Unit {0})) × (insert_keys fails fs keys ≡ ok out)
  unfolding insert_keys ◌>>=◌
  insert_keys_returns [] keys = (keys, refl)
  insert_keys_returns (f ∷ fs) keys =
      let (out, e) = insert_keys_returns fs (put_key f.content_key keys) in
      (out, rw (exec_fine (insert_key f.content_key)) e)

  upsert_all_returns :
      (fs : List FileRecord) (table : List (Str × FileRecord))
      → (out : List (Str × FileRecord)) × (upsert_all fails fs table ≡ ok out)
  unfolding upsert_all ◌>>=◌
  upsert_all_returns [] table = (table, refl)
  upsert_all_returns (f ∷ fs) table =
      let (out, e) = upsert_all_returns fs (insert Str-discrete f.content_key f table) in
      (out, rw (exec_fine (upsert_file f.content_key)) e)

  -- While no statement fails, ReplaceFiles has a result.
  pub replace_files_returns :
      (db : Db) (fs : List FileRecord) → (n : ℕ) × ((replace_files fails db fs).1 ≡ ok n)
  unfolding replace_files replace_tx ◌>>=◌ ◌>>◌
  replace_files_returns db fs =
      let (keys, e) = insert_keys_returns fs [] in
      let (table, e') = upsert_all_returns fs db.files in
      (
        dropped (λ k. has_key k keys) table,
        rw
            (
              exec_fine begin_tx,
              exec_fine create_keys,
              exec_fine prepare_keys,
              e,
              exec_fine prepare_files,
              e',
              exec_fine delete_stale,
              exec_fine rows_affected,
              exec_fine delete_stale_hidden,
              exec_fine drop_keys,
              exec_fine commit,
            )
            refl,
      )
