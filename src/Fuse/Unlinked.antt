-- ===== src/Fuse/Unlinked.antt =====
-- Unlink of internal/fusefs/fs.go on all its branches.
use torbox_fuse_go.Base.{
  ℕ, Str-discrete, lookup-insert, if_pos, lookup, insert, Bool, true, false, Option, none, some,
  Str, str_eq, ◌≡◌, ◌≢◌, refl, sym, ap, ◌∙◌, Bool-cases, inl, inr, Result, ok, err,
}
use torbox_fuse_go.State.{Db, Error, hide_file, Statement, hide, failed}
use torbox_fuse_go.State.Tables.{has_key, is_some}
use torbox_fuse_go.Fuse.{FileNode, Children, Child, a_file, a_dir, get_child, remove_content_keys}
use torbox_fuse_go.Fuse.Removal.{
  FuseState, Errno, success, erofs, enoent, eisdir, unlink, unlink_child, after_hide,
}
use torbox_fuse_go.Fuse.Removed.{root_files, without, RootFull, remove_content_keys_lem}

err_ne : (x : Error) → ◌≢◌ {A = Result Error (Unit {0})} (err x) (ok tt)
err_ne x e = absurd (cc)

module _ (fails : Statement → Bool) (enabled : Bool) where
  -- Unless it succeeds nothing changes, and success takes the file out of the tree and hides it.
  pub record UnlinkOk (s : FuseState) (here : Children) (name : Str) (r : FuseState × Errno)
      : Type 0 where
    pub unchanged : r.1 ≢ success → r.0 ≡ s
    pub gone :
        r.1 ≡ success
        → (f : FileNode) × (get_child name here ≡ some (a_file f))
          × (has_key f.file_key r.0.db.hidden ≡ true)
          × (root_files r.0.root ≡ without (str_eq f.file_key) (root_files s.root))
          × RootFull r.0.root

  hide_file-hides :
      (db : Db) (key : Str) (now : ℕ)
      → (hide_file fails db key now).1 ≡ ok tt
      → has_key key (hide_file fails db key now).0.hidden ≡ true
  unfolding hide_file lookup insert
  hide_file-hides db key now e = elim (Bool-cases (fails hide)) [
    | inl bad ↦ absurd (err_ne (failed hide) (rw bad at e))
    | inr fine ↦ elim (Bool-cases (has_key key db.hidden)) [
      | inl old ↦ rw (fine, old) old
      | inr new ↦
          rw (fine, new)
            (ap is_some (
              lookup-insert Str-discrete key key now db.hidden
              ∙ if_pos (Str-discrete key key) refl _ _))
    ]
  ]

  hide_file-unchanged :
      (db : Db) (key : Str) (now : ℕ) (x : Error)
      → (hide_file fails db key now).1 ≡ err x
      → (hide_file fails db key now).0 ≡ db
  unfolding hide_file
  hide_file-unchanged db key now x e = elim (Bool-cases (fails hide)) [
    | inl bad ↦ rw bad refl
    | inr fine ↦ elim (Bool-cases (has_key key db.hidden)) [
      | inl old ↦ rw (fine, old) refl
      | inr new ↦ absurd (err_ne x (sym (rw (fine, new) at e)))
    ]
  ]

  after_hide-UnlinkOk :
      (s : FuseState) (here : Children) (name : Str) (f : FileNode)
      (r : Db × Result Error (Unit {0}))
      → (enabled ≡ false → s.root.all ≡ none)
      → get_child name here ≡ some (a_file f)
      → (r.1 ≡ ok tt → has_key f.file_key r.0.hidden ≡ true)
      → ((x : Error) → r.1 ≡ err x → r.0 ≡ s.db)
      → UnlinkOk s here name (after_hide fails true enabled f.file_key s r)
  after_hide-UnlinkOk s here name f (db', err e) no_all there hides same = record {
    unchanged = λ n. ap (λ d. record s { db = d }) (same e refl);
    gone = λ n. absurd (cc);
  }
  after_hide-UnlinkOk s here name f (db', ok _) no_all there hides same = record {
    unchanged = λ n. absurd (n refl);
    gone = λ n. (f, there, hides refl, left.0, left.1);
  }
    where
      left :
          (root_files (remove_content_keys enabled (str_eq f.file_key) s.root).0
            ≡ without (str_eq f.file_key) (root_files s.root))
          × RootFull (remove_content_keys enabled (str_eq f.file_key) s.root).0
      left = remove_content_keys_lem (str_eq f.file_key) enabled s.root no_all

  nothing_done :
      (s : FuseState) (here : Children) (name : Str) (e : Errno)
      → e ≢ success
      → UnlinkOk s here name (s, e)
  nothing_done s here name e bad = record { unchanged = λ n. refl; gone = λ n. absurd (bad n) }

  unlink_child-UnlinkOk :
      (now : ℕ) (s : FuseState) (here : Children) (name : Str) (o : Option Child)
      → (enabled ≡ false → s.root.all ≡ none)
      → get_child name here ≡ o
      → UnlinkOk s here name (unlink_child fails true enabled now s o)
  unlink_child-UnlinkOk now s here name none no_all e =
      nothing_done s here name enoent (λ n. absurd (cc))
  unlink_child-UnlinkOk now s here name (some (a_dir ino below)) no_all e =
      nothing_done s here name eisdir (λ n. absurd (cc))
  unlink_child-UnlinkOk now s here name (some (a_file f)) no_all e =
      after_hide-UnlinkOk s here name f (hide_file fails s.db f.file_key now) no_all e
        (hide_file-hides s.db f.file_key now) (hide_file-unchanged s.db f.file_key now)

  -- Unlink, if there is no category "all" unless it is enabled: unless it succeeds nothing changes. If
  -- it does, the name was that of a file, its key is hidden in the database, the tree has lost exactly
  -- the files with this key, in every category, and no directory below a category is empty.
  pub unlink-UnlinkOk :
      (writable : Bool) (now : ℕ) (s : FuseState) (here : Children) (name : Str)
      → (enabled ≡ false → s.root.all ≡ none)
      → UnlinkOk s here name (unlink fails writable enabled now s here name)
  unfolding unlink
  unlink-UnlinkOk false now s here name no_all = nothing_done s here name erofs (λ n. absurd (cc))
  unlink-UnlinkOk true now s here name no_all =
      unlink_child-UnlinkOk now s here name (get_child name here) no_all refl

  -- In a writable tree Unlink of a file succeeds if its key can be hidden.
  pub unlink_succeeds :
      (now : ℕ) (s : FuseState) (here : Children) (name : Str) (f : FileNode)
      → get_child name here ≡ some (a_file f)
      → fails hide ≡ false
      → (unlink fails true enabled now s here name).1 ≡ success
  unfolding unlink hide_file
  unlink_succeeds now s here name f there fine =
      elim (Bool-cases (has_key f.file_key s.db.hidden)) [
        | inl old ↦ rw (unlink, there, hide_file, fine, old) refl
        | inr new ↦ rw (unlink, there, hide_file, fine, new) refl
      ]
