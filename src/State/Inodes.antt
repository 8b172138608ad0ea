-- ===== src/State/Inodes.antt =====
-- The inode numbers of internal/state/db.go over any calls, restarts included.
use torbox_fuse_go.Base.{
  ok-injective, subst, ◌⊎◌, ℕ, ◌≡◌, ◌<◌, refl, sym, ◌∙◌, Bool, true, false, none, some, List, [],
  ◌∷◌, Str, Str-discrete, lookup, insert, arith, if_pos, if_neg, Bool-cases, Option-cases, inl, inr,
  All, All-map, All-insert, All-lookup, Distinct, Distinct-insert, lookup-insert, ok, ap,
  some-injective,
}
use torbox_fuse_go.State.{
  Statement, select_inode, insert_inode, InodeRow, Db, init_next_inode, allocate, assign_inode,
}

-- Each key stands once, its number is below the counter, and no other key has it.
pub record InodesOk (db : Db) : Type 0 where
  pub distinct : Distinct db.inodes
  pub below : All (λ e. e.1.inode < db.next_inode) db.inodes
  pub one_key :
      (k j : Str) (r s : InodeRow)
      → lookup Str-discrete k db.inodes ≡ some r
      → lookup Str-discrete j db.inodes ≡ some s
      → r.inode ≡ s.inode
      → k ≡ j

-- What a call may do to the numbers: those that are given stay.
abbrev pub Keeps : Db → Db → Type 0
Keeps db db' =
    (k : Str) (r : InodeRow)
    → lookup Str-discrete k db.inodes ≡ some r
    → lookup Str-discrete k db'.inodes ≡ some r

abbrev pub Good : Db → Db → Type 0
Good db db' = InodesOk db' × Keeps db db'

-- Calls that leave the inodes and the counter alone.
pub untouched :
    (db db' : Db)
    → db'.inodes ≡ db.inodes
    → db'.next_inode ≡ db.next_inode
    → InodesOk db
    → Good db db'
untouched db db' e n v =
    let rows : List (Str × InodeRow) = db.inodes in
    (
      record {
        distinct = subst (λ m. Distinct m) (sym e) v.distinct;
        below =
            subst (λ (m : List (Str × InodeRow)). All (λ x. x.1.inode < db'.next_inode) m) (sym e)
              (subst (λ (c : ℕ). All (λ (x : Str × InodeRow). x.1.inode < c) db.inodes) (sym n)
                v.below);
        one_key =
            subst
              (λ (m : List (Str × InodeRow)).
                (k j : Str) (r s : InodeRow)
                → lookup Str-discrete k m ≡ some r
                → lookup Str-discrete j m ≡ some s
                → r.inode ≡ s.inode
                → k ≡ j)
              (sym e) v.one_key;
      },
      λ k r h. subst (λ m. lookup Str-discrete k m ≡ some r) (sym e) h,
    )

-- Behind an insertion a key has the new row, or the one that it had.
found_row :
    (key k : Str) (row r : InodeRow) (m : List (Str × InodeRow))
    → lookup Str-discrete k (insert Str-discrete key row m) ≡ some r
    → ((key ≡ k) × (row ≡ r)) ⊎ (lookup Str-discrete k m ≡ some r)
found_row key k row r m h = elim (Str-discrete key k) [
  | yes e ↦ inl (
    e,
    some-injective row r
        (sym (lookup-insert Str-discrete key k row m ∙ if_pos (Str-discrete key k) e _ _) ∙ h),
  )
  | no ne ↦
      inr (sym (lookup-insert Str-discrete key k row m ∙ if_neg (Str-discrete key k) ne _ _) ∙ h)
]

number-lt :
    (db : Db) (k : Str) (r : InodeRow)
    → InodesOk db
    → lookup Str-discrete k db.inodes ≡ some r
    → r.inode < db.next_inode
number-lt db k r v h =
    All-lookup Str-discrete (λ (e : Str × InodeRow). e.1.inode < db.next_inode) k db.inodes v.below
      h

allocate-Good :
    (fails : Statement → Bool) (db : Db) (key path : Str) (fault : Bool)
    → InodesOk db
    → lookup Str-discrete key db.inodes ≡ none
    → Good db (allocate fails db key path fault).0
allocate-Good fails db key path true v new = (
  record {
    distinct = v.distinct;
    below = All-map _ _ (λ e h. omega (arith, h)) db.inodes v.below;
    one_key = v.one_key;
  },
  λ k r h. h,
)
allocate-Good fails db key path false v new =
    let row : InodeRow = record { inode = db.next_inode; inode_path = path } in
    let found = λ (k : Str). lookup-insert Str-discrete key k row db.inodes in
    (
      record {
        distinct = Distinct-insert Str-discrete key row db.inodes v.distinct;
        below =
            All-insert Str-discrete _ key row db.inodes (omega arith)
              (All-map _ _ (λ e h. omega (arith, h)) db.inodes v.below);
        one_key = λ k j r s hk hj e. elim (found_row key k row r db.inodes hk) [
          | inl (kk, rr) ↦ elim (found_row key j row s db.inodes hj) [
            | inl (jj, ss) ↦ sym kk ∙ jj
            | inr old ↦
                absurd (omega (arith, number-lt db j s v old, ap (λ (x : InodeRow). x.inode) rr, e))
          ]
          | inr old ↦ elim (found_row key j row s db.inodes hj) [
            | inl (jj, ss) ↦
                absurd (omega (arith, number-lt db k r v old, ap (λ (x : InodeRow). x.inode) ss, e))
            | inr old' ↦ v.one_key k j r s old old' e
          ]
        ];
      },
      λ k r h.
          found k
          ∙ if_neg (Str-discrete key k)
              (λ e. cc (new, subst (λ x. lookup Str-discrete x db.inodes ≡ some r) (sym e) h)) _ _
          ∙ h,
    )

-- The counter that Open computes is above every number.
pub init_next_inode-above : (m : List (Str × InodeRow)) → All (λ e. e.1.inode < init_next_inode m) m
unfolding init_next_inode
init_next_inode-above [] = tt
init_next_inode-above (e ∷ m) =
    (omega arith, All-map _ _ (λ x h. omega (arith, h)) m (init_next_inode-above m))

pub assign_inode-Good :
    (fails : Statement → Bool) (db : Db) (key path : Str)
    → InodesOk db
    → Good db (assign_inode fails db key path).0
unfolding assign_inode
assign_inode-Good fails db key path v = elim (Bool-cases (fails select_inode)) [
  | inl bad ↦ rw bad (v, λ k r h. h)
  | inr fine ↦ elim (Option-cases (lookup Str-discrete key db.inodes)) [
    | inl new ↦ rw (fine, new) (allocate-Good fails db key path (fails insert_inode) v new)
    | inr (row, old) ↦ rw (fine, old) (v, λ k r h. h)
  ]
]

allocated :
    (fails : Statement → Bool) (db : Db) (key path : Str) (fault : Bool) {n : ℕ}
    → (allocate fails db key path fault).1 ≡ ok n
    → (r : InodeRow) × (lookup Str-discrete key (allocate fails db key path fault).0.inodes
        ≡ some r)
      × (r.inode ≡ n)
allocated fails db key path true got = absurd (cc)
allocated fails db key path false {n} got =
    let row : InodeRow = record { inode = db.next_inode; inode_path = path } in
    (
      row,
      lookup-insert Str-discrete key key row db.inodes ∙ if_pos (Str-discrete key key) refl _ _,
      ok-injective db.next_inode n got,
    )

-- Behind a call that gives a number, the key has it.
pub assign_inode-row :
    (fails : Statement → Bool) (db : Db) (key path : Str) {n : ℕ}
    → (assign_inode fails db key path).1 ≡ ok n
    → (r : InodeRow) × (lookup Str-discrete key (assign_inode fails db key path).0.inodes ≡ some r)
      × (r.inode ≡ n)
unfolding assign_inode
assign_inode-row fails db key path {n} got = elim (Bool-cases (fails select_inode)) [
  | inl bad ↦ absurd (cc (rw bad at got))
  | inr fine ↦ elim (Option-cases (lookup Str-discrete key db.inodes)) [
    | inl new ↦
        rw (fine, new) (allocated fails db key path (fails insert_inode) (rw (fine, new) at got))
    | inr (r, old) ↦ rw (fine, old) (r, old, ok-injective r.inode n (rw (fine, old) at got))
  ]
]

pub assign_inode_again :
    (fails : Statement → Bool) (db : Db) (key path : Str) (r : InodeRow)
    → fails select_inode ≡ false
    → lookup Str-discrete key db.inodes ≡ some r
    → assign_inode fails db key path ≡ (db, ok r.inode)
unfolding assign_inode
assign_inode_again fails db key path r fine old = rw (fine, old) refl
