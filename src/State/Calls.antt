-- ===== src/State/Calls.antt =====
-- Any calls of the database of internal/state/db.go, in any order, and what they do to the inodes.
use torbox_fuse_go.Base.{
  not, delete, Ensures-then, Ensures-ok, Ensures-bind, Ensures, subst, ℕ, ◌≡◌, refl, Bool, false,
  List, [], ◌∷◌, Str, Str-discrete, insert, arith, Bool-cases, inl, inr, Result, ok, err,
}
use torbox_fuse_go.State.{
  in_download, retain, Statement, select_inode, FileRecord, Db, Error, open_db, assign_inode,
  end_tx, upsert_tx, upsert_files, replace_tx, replace_files, hide_file, unhide_file,
  unhide_matching,
}
use torbox_fuse_go.State.Tables.{has_key}
use torbox_fuse_go.State.Inodes.{
  assign_inode_again, assign_inode-row, InodesOk, Keeps, Good, untouched, assign_inode-Good,
  init_next_inode-above,
}

-- The calls that change the database; each may fail at any statement, as `fails` says.
pub data Call : Type 0 where
  assign : (fails : Statement → Bool) (key path : Str) → Call
  upsert : (fails : Statement → Bool) (fs : List FileRecord) → Call
  replace : (fails : Statement → Bool) (fs : List FileRecord) → Call
  hide : (fails : Statement → Bool) (key : Str) (now : ℕ) → Call
  unhide : (fails : Statement → Bool) (key : Str) → Call
  unhide_download : (fails : Statement → Bool) (kind id : Str) → Call
  restart : Call

module _ (like : Str → Str → Bool) where
  unfoldable pub after : Db → Call → Db
  after db (assign fails key path) = (assign_inode fails db key path).0
  after db (upsert fails fs) = (upsert_files fails db fs).0
  after db (replace fails fs) = (replace_files fails db fs).0
  after db (hide fails key now) = (hide_file fails db key now).0
  after db (unhide fails key) = (unhide_file fails db key).0
  after db (unhide_download fails kind id) = (unhide_matching like fails db kind id).0
  after db restart = open_db db

  unfoldable pub after_all : Db → List Call → Db
  after_all db [] = db
  after_all db (c ∷ cs) = after_all (after db c) cs

-- A transaction of writes to the other tables.
end_tx-Good :
    {A : Type 0} (fails : Statement → Bool) (db : Db) (r : Result Error (Db × A))
    → InodesOk db
    → Ensures (λ p. Good db p.0) r
    → Good db (end_tx fails db r).0
end_tx-Good fails db (ok (db', a)) v h = h.holds (db', a) refl
end_tx-Good fails db (err e) v h = (v, λ k r x. x)

upsert_tx-Good :
    (fails : Statement → Bool) (db : Db) (fs : List FileRecord)
    → InodesOk db
    → Ensures (λ (p : Db × Unit {0}). Good db p.0) (upsert_tx fails db fs)
unfolding upsert_tx
upsert_tx-Good fails db fs v = Ensures-then _ _ (λ _. Ensures-then _ _ (λ _.
    Ensures-bind _ _ (λ table _.
      Ensures-then _ _
        (λ _. Ensures-ok _ (untouched db (record db { files = table }) refl refl v)))))

replace_tx-Good :
    (fails : Statement → Bool) (db : Db) (fs : List FileRecord)
    → InodesOk db
    → Ensures (λ (p : Db × ℕ). Good db p.0) (replace_tx fails db fs)
unfolding replace_tx
replace_tx-Good fails db fs v =
    let done = λ (keys : List (Str × Unit {0})) (table : List (Str × FileRecord)).
      let kept = retain (λ k. has_key k keys) table in
      untouched db (record db { files = kept; hidden = retain (λ k. has_key k kept) db.hidden })
        refl refl v in
    Ensures-then _ _ λ _. Ensures-then _ _ λ _. Ensures-then _ _ λ _. Ensures-bind _ _ λ keys _.
      Ensures-then _ _ λ _. Ensures-bind _ _ λ table _. Ensures-then _ _ λ _. Ensures-then _ _ λ _.
        Ensures-then _ _
          λ _. Ensures-then _ _ λ _. Ensures-then _ _ λ _. Ensures-ok _ (done keys table)

upsert_files-Good :
    (fails : Statement → Bool) (db : Db) (fs : List FileRecord)
    → InodesOk db
    → Good db (upsert_files fails db fs).0
unfolding upsert_files
upsert_files-Good fails db [] v = (v, λ k r h. h)
upsert_files-Good fails db (f ∷ fs) v =
    end_tx-Good fails db (upsert_tx fails db (f ∷ fs)) v (upsert_tx-Good fails db (f ∷ fs) v)

hide_file-Good :
    (fails : Statement → Bool) (db : Db) (key : Str) (now : ℕ)
    → InodesOk db
    → Good db (hide_file fails db key now).0
unfolding hide_file
hide_file-Good fails db key now v = elim (Bool-cases (fails Statement.hide)) [
  | inl bad ↦ rw bad (v, λ k r h. h)
  | inr fine ↦ elim (Bool-cases (has_key key db.hidden)) [
    | inl old ↦ rw (fine, old) (v, λ k r h. h)
    | inr new ↦
        rw (fine, new)
          (untouched db (record db { hidden = insert Str-discrete key now db.hidden }) refl refl v)
  ]
]

unhide_file-Good :
    (fails : Statement → Bool) (db : Db) (key : Str)
    → InodesOk db
    → Good db (unhide_file fails db key).0
unfolding unhide_file
unhide_file-Good fails db key v = elim (Bool-cases (fails Statement.unhide)) [
  | inl bad ↦ rw bad (v, λ k r h. h)
  | inr fine ↦
      rw fine (untouched db (record db { hidden = delete Str-discrete key db.hidden }) refl refl v)
]

module _ (like : Str → Str → Bool) where
  unhide_matching-Good :
      (fails : Statement → Bool) (db : Db) (kind id : Str)
      → InodesOk db
      → Good db (unhide_matching like fails db kind id).0
  unfolding unhide_matching
  unhide_matching-Good fails db kind id v = elim (Bool-cases (fails Statement.unhide_download)) [
    | inl bad ↦ rw bad (v, λ k r h. h)
    | inr fine ↦
        let kept = retain (λ k. not (in_download like fails kind id k)) db.hidden in
        rw fine (untouched db (record db { hidden = kept }) refl refl v)
  ]

  after-Good : (db : Db) (c : Call) → InodesOk db → Good db (after like db c)
  unfolding after open_db replace_files
  after-Good db (assign fails key path) v = assign_inode-Good fails db key path v
  after-Good db (upsert fails fs) v = upsert_files-Good fails db fs v
  after-Good db (replace fails fs) v =
      end_tx-Good fails db (replace_tx fails db fs) v (replace_tx-Good fails db fs v)
  after-Good db (hide fails key now) v = hide_file-Good fails db key now v
  after-Good db (unhide fails key) v = unhide_file-Good fails db key v
  after-Good db (unhide_download fails kind id) v = unhide_matching-Good fails db kind id v
  after-Good db restart v = (
    record { distinct = v.distinct; below = init_next_inode-above db.inodes; one_key = v.one_key },
    λ k r h. h,
  )

  -- After any calls, restarts included and with any statement failing, on a database whose inodes are
  -- in order: no two keys have the same inode, every number is below the counter, and each key that
  -- had an inode still has it.
  pub after_all-InodesOk :
      (db : Db) (calls : List Call)
      → InodesOk db
      → InodesOk (after_all like db calls) × Keeps db (after_all like db calls)
  unfolding after_all
  after_all-InodesOk db [] v = (v, λ k r h. h)
  after_all-InodesOk db (c ∷ cs) v =
      let (now, keeps) = after-Good db c v in
      let (later, keeps') = after_all-InodesOk (after like db c) cs now in
      (later, λ k r h. keeps' k r (keeps k r h))

  -- AssignInode gives a key a number once and for all: after any further calls, restarts included and
  -- with any statement failing, it gives the same number for the key, whatever path it is told, and
  -- changes nothing, if its own SELECT does not fail; and any other key that is given a
  -- number then is given another one.
  pub assign_inode-stable :
      (fails fails' : Statement → Bool) (db : Db) (key path path' : Str) (n : ℕ) (calls : List Call)
      → InodesOk db
      → (assign_inode fails db key path).1 ≡ ok n
      → fails' select_inode ≡ false
      → let later = after_all like (assign_inode fails db key path).0 calls in
        (assign_inode fails' later key path' ≡ (later, ok n))
        × ((other path'' : Str) (m : ℕ)
            → (assign_inode fails' later other path'').1 ≡ ok m
            → m ≡ n
            → other ≡ key)
  assign_inode-stable fails fails' db key path path' n calls v got fine =
      let (r, row, number) = assign_inode-row fails db key path got in
      let first = assign_inode-Good fails db key path v in
      let db' = (assign_inode fails db key path).0 in
      let (ok_later, keeps) = after_all-InodesOk db' calls first.0 in
      let later = after_all like db' calls in
      let here = keeps key r row in
      (
        subst (λ (m : ℕ). assign_inode fails' later key path' ≡ (later, ok m)) number
            (assign_inode_again fails' later key path' r fine here),
        λ other path'' m got' same.
            let (s, row', number') = assign_inode-row fails' later other path'' got' in
            let (ok_end, keeps') = assign_inode-Good fails' later other path'' ok_later in
            ok_end.one_key other key s r row' (keeps' key r here)
              (omega (arith, number, number', same)),
      )
