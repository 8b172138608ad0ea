-- ===== src/Fuse/Faithful.antt =====
-- A lookup in the tree that OnAdd of internal/fusefs/fs.go fills finds the file that the catalog has.
use torbox_fuse_go.Base.{
  arith, All, All-map, length, length-append, ◌<◌, ℕ, zero, suc, Bool, true, false, Option, none,
  some, List, [], ◌∷◌, Str, str_eq, str_eq→eq, lookup, Str-discrete, some-injective, ◌≡◌, ◌≢◌, refl,
  sym, ap, ◌∙◌, if◌then◌else◌, inl, inr, Bool-cases, Option-cases, Result, ok, err,
}
use torbox_fuse_go.Paths
use torbox_fuse_go.Paths.{slash}
use torbox_fuse_go.Catalog.{File, content_key}
use torbox_fuse_go.Catalog.Tree.{DirEntry, Dirs, entries_at, list_dir}
use torbox_fuse_go.State.{Db, Error, assign_inode, Statement, select_inode, insert_inode}
use torbox_fuse_go.Fuse.{FileNode, Children, no_children, Child, a_file, a_dir, get_child}
use torbox_fuse_go.Fuse.Keys.{file_node}
use torbox_fuse_go.Fuse.Filled.{
  new_child, add_child, child_path, dir_key, Filling, put_file, add_file_node, make_dir,
  add_sub_dir_node, add_listed, add_listed_all, populate_dir,
}
use torbox_fuse_go.Fuse.Ends.{CleanDirs, clean_at}

-- A clean path below the root.
abbrev pub Deep : Str → Type 0
Deep path = (Paths.clean path ≡ path) × (1 < length path)

abbrev DeepEntry : Str → DirEntry → Type 0
DeepEntry path e = (e.file ≡ none) → Deep (child_path path e.entry_name)

-- What a lookup name by name finds in the tree of inodes.
abbrev pub enter : (Children → Option FileNode) → List Str → Option Child → Option FileNode
enter deeper names none = none
enter deeper [] (some (a_file f)) = some f
enter deeper (n ∷ ns) (some (a_file f)) = none
enter deeper names (some (a_dir ino below)) = deeper below

unfoldable pub fuse_file : List Str → Children → Option FileNode
fuse_file [] here = none
fuse_file (n ∷ ns) here = enter (λ below. fuse_file ns below) ns (get_child n here)

-- And in the tree of the catalog.
unfoldable pub first_named : Str → List DirEntry → Option DirEntry
first_named name [] = none
first_named name (e ∷ es) =
    let later = first_named name es in if str_eq name e.entry_name then some e else later

abbrev pub pick_file : Option FileNode → List Str → Option FileNode → Option FileNode
pick_file below [] o = o
pick_file below (n ∷ ns) (some f) = none
pick_file below (n ∷ ns) none = below

module _ (api_base_url api_key : Str) (dirs : Dirs) where
  abbrev pub node_of : Option File → Option FileNode
  node_of none = none
  node_of (some f) = some (file_node api_base_url api_key f)

  abbrev pub pick : Option FileNode → List Str → Option DirEntry → Option FileNode
  pick below names none = none
  pick below names (some e) = pick_file below names (node_of e.file)

  unfoldable pub catalog_file : Str → List Str → Option FileNode
  catalog_file path [] = none
  catalog_file path (n ∷ ns) =
      let below = catalog_file (child_path path n) ns in
      pick below ns (first_named n (entries_at path dirs))

abbrev or_else : Option Child → Option Child → Option Child
or_else (some c) d = some c
or_else none d = d

get_child-new_child :
    (m n : Str) (c : Child) (here : Children)
    → get_child m (new_child n c here) ≡ (if str_eq m n then some c else get_child m here)
unfolding get_child
get_child-new_child m n (a_file f) here = refl
get_child-new_child m n (a_dir ino below) here = refl

no_filling : {s : Filling} → ◌≢◌ {A = Option Filling} none (some s)
no_filling q = absurd (cc)

or_else-none : (o : Option Child) → or_else o none ≡ o
or_else-none none = refl
or_else-none (some c) = refl

get_child-add_child :
    (m n : Str) (c : Child) (here : Children)
    → get_child m (add_child n c here)
      ≡ or_else (get_child m here) (if str_eq m n then some c else none)
unfolding add_child
get_child-add_child m n c here = elim (Option-cases (get_child n here)) [
  | inl free ↦ elim (Bool-cases (str_eq m n)) [
    | inl same ↦
        rw
          (
            add_child,
            free,
            get_child-new_child m n c here,
            same,
            ap (λ k. get_child k here) (str_eq→eq m n same) ∙ free,
          )
          refl
    | inr other ↦
        rw (add_child, free, get_child-new_child m n c here, other)
          (sym (or_else-none (get_child m here)))
  ]
  | inr (old, taken) ↦ elim (Bool-cases (str_eq m n)) [
    | inl same ↦
        rw (add_child, taken, same, ap (λ k. get_child k here) (str_eq→eq m n same) ∙ taken) refl
    | inr other ↦ rw (add_child, taken, other) (sym (or_else-none (get_child m here)))
  ]
]

module _ (fails : Statement → Bool) (api_base_url api_key : Str) (dirs : Dirs)
    (fine : (q : Statement) → fails q ≡ false) where
  pub assigned :
      (db : Db) (key path : Str) → (ino : ℕ) × ((assign_inode fails db key path).1 ≡ ok ino)
  unfolding assign_inode
  assigned db key path = elim (Option-cases (lookup Str-discrete key db.inodes)) [
    | inl new ↦ rw (fine select_inode, new, fine insert_inode) (db.next_inode, refl)
    | inr (row, old) ↦ rw (fine select_inode, old) (row.inode, refl)
  ]

  put_file-child :
      (name : Str) (f : File) (here : Children) (a : Db × Result Error ℕ) (ino : ℕ)
      → a.1 ≡ ok ino
      → (put_file fails api_base_url api_key dirs name f here a).1
        ≡ add_child name (a_file (file_node api_base_url api_key f)) here
  put_file-child name f here (db, ok n) ino e = refl
  put_file-child name f here (db, err x) ino e = absurd (cc)

  -- What a lookup below a directory finds, as the catalog has it.
  abbrev pub Shows : Str → Children → Type 0
  Shows path here =
      (names : List Str) → fuse_file names here ≡ catalog_file api_base_url api_key dirs path names

  module _ (populate : Str → Db → Option Filling)
      (deeper : (path : Str) (db : Db) (s : Filling)
        → Deep path
        → populate path db ≡ some s
        → Shows path s.1) where
    make_dir-child :
        (name path : Str) (here : Children) (a : Db × Result Error ℕ) (ino : ℕ) (s' : Filling)
        → a.1 ≡ ok ino
        → Deep path
        → make_dir fails api_base_url api_key dirs populate path name here a ≡ some s'
        → (n : ℕ) × (below : Children) × (s'.1 ≡ add_child name (a_dir n below) here)
          × Shows path below
    make_dir-child name path here (db, err x) ino s' e clean_path made = absurd (cc)
    make_dir-child name path here (db, ok n) ino s' e clean_path made =
        elim (Option-cases (populate path db)) [
          | inl none_left ↦ absurd (no_filling (rw none_left at made))
          | inr (t, filled) ↦ (
            n,
            t.1,
            sym (ap (λ x. x.1) (some-injective _ _ (rw filled at made))),
            deeper path db t clean_path filled,
          )
        ]

    -- The child that an entry becomes, and what a lookup in it finds.
    abbrev Becomes : Str → Str → Option File → Filling → Filling → Type 0
    Becomes path name o s s' =
        (c : Child) × (s'.1 ≡ add_child name c s.1)
        × ((ns : List Str)
            → enter (λ below. fuse_file ns below) ns (some c)
              ≡ pick_file (catalog_file api_base_url api_key dirs path ns) ns
                  (node_of api_base_url api_key dirs o))

    add_listed-Becomes :
        (path name : Str) (o : Option File) (s s' : Filling)
        → (o ≡ none → Deep path)
        → add_listed fails api_base_url api_key dirs populate path name o s ≡ some s'
        → Becomes path name o s s'
    unfolding add_file_node add_sub_dir_node catalog_file fuse_file
    add_listed-Becomes path name (some f) (db, here) s' clean_path added =
        let ino = assigned db (content_key f) path in
        (
          a_file (file_node api_base_url api_key f),
          sym (ap (λ x. x.1) (some-injective _ _ added)) ∙ put_file-child name f here _ ino.0 ino.1,
          λ ns. enter_file ns,
        )
      where
        enter_file :
            (ns : List Str)
            → enter
                (λ below. fuse_file ns below)
                ns
                (some (a_file (file_node api_base_url api_key f)))
              ≡ pick_file
                  (catalog_file api_base_url api_key dirs path ns)
                  ns
                  (some (file_node api_base_url api_key f))
        enter_file [] = refl
        enter_file (n ∷ ns) = refl
    add_listed-Becomes path name none (db, here) s' clean_path added =
        let ino = assigned db (dir_key path) path in
        let made = make_dir-child name path here _ ino.0 s' ino.1 (clean_path refl) added in
        (a_dir made.0 made.1, made.2, λ ns. enter_dir made.1 made.3 ns)
      where
        enter_dir :
            (below : Children)
            → Shows path below
            → (ns : List Str)
            → fuse_file ns below
              ≡ pick_file (catalog_file api_base_url api_key dirs path ns) ns none
        enter_dir below shows [] = refl
        enter_dir below shows (n ∷ ns) = shows (n ∷ ns)

    abbrev found_at : List Str → Option Child → Option FileNode
    found_at ns o = enter (λ below. fuse_file ns below) ns o

    abbrev or_file : Option Child → Option FileNode → Option FileNode → Option FileNode
    or_file (some c) x y = x
    or_file none x y = y

    abbrev listed_file : Str → Str → List Str → Option DirEntry → Option FileNode
    listed_file path n ns e =
        pick api_base_url api_key dirs
          (catalog_file api_base_url api_key dirs (child_path path n) ns) ns e

    add_one :
        (path n : Str) (ns : List Str) (e : DirEntry) (later : Option DirEntry) (c : Child)
        (o : Option Child) (b : Bool)
        → (b ≡ true → found_at ns (some c) ≡ listed_file path n ns (some e))
        → or_file
            (or_else o (if b then some c else none))
            (found_at ns (or_else o (if b then some c else none)))
            (listed_file path n ns later)
          ≡ or_file o (found_at ns o) (listed_file path n ns (if b then some e else later))
    add_one path n ns e later c (some x) b h = refl
    add_one path n ns e later c none true h = h refl
    add_one path n ns e later c none false h = refl

    or_file_same :
        (ns : List Str) (o : Option Child) → found_at ns o ≡ or_file o (found_at ns o) none
    or_file_same ns (some c) = refl
    or_file_same ns none = refl

    nothing_added :
        (path : Str) (es : List DirEntry)
        → add_listed_all fails api_base_url api_key dirs populate path es none ≡ none
    unfolding add_listed_all
    nothing_added path [] = refl
    nothing_added path (e ∷ es) = refl

    add_listed_all-shows :
        (path : Str) (es : List DirEntry) (s r : Filling)
        → All (DeepEntry path) es
        → add_listed_all fails api_base_url api_key dirs populate path es (some s) ≡ some r
        → (n : Str) (ns : List Str)
        → found_at ns (get_child n r.1)
          ≡ or_file
              (get_child n s.1)
              (found_at ns (get_child n s.1))
              (listed_file path n ns (first_named n es))
    unfolding add_listed_all first_named
    add_listed_all-shows path [] s r clean_es added n ns =
        ap (λ t. found_at ns (get_child n t.1)) (sym (some-injective s r added))
        ∙ or_file_same ns (get_child n s.1)
    add_listed_all-shows path (e ∷ es) s r clean_es added n ns =
        elim (Option-cases (
          add_listed fails api_base_url api_key dirs populate (child_path path e.entry_name)
            e.entry_name e.file s)) [
              | inl lost ↦ absurd (no_filling (sym (nothing_added path es) ∙ (rw lost at added)))
              | inr (s', step) ↦
                  let becomes =
                    add_listed-Becomes (child_path path e.entry_name) e.entry_name e.file s s'
                      clean_es.0 step in
                  add_listed_all-shows path es s' r clean_es.1 (rw step at added) n ns
                  ∙ ap (λ o. or_file o (found_at ns o) (listed_file path n ns (first_named n es)))
                      (ap (get_child n) becomes.1
                        ∙ get_child-add_child n e.entry_name becomes.0 s.1)
                  ∙ add_one path n ns e (first_named n es) becomes.0 (get_child n s.1)
                      (str_eq n e.entry_name)
                      (λ same.
                        becomes.2 ns
                        ∙ ap (λ k. listed_file path k ns (some e))
                            (sym (str_eq→eq n e.entry_name same)))
            ]

  child_path-Deep :
      (path : Str) → CleanDirs dirs → Deep path → All (DeepEntry path) (entries_at path dirs)
  child_path-Deep path clean_dirs deep =
      All-map
        (λ e.
          (e.file ≡ none)
          → Paths.clean (child_path path e.entry_name) ≡ child_path path e.entry_name)
        (DeepEntry path)
        (λ e clean_child no_file.
          (clean_child no_file, omega (arith, deep.1, length-append path (slash ∷ e.entry_name))))
        (entries_at path dirs) (clean_at dirs path clean_dirs deep.1)

  pub populate-Shows :
      (fuel : ℕ) (path : Str) (db : Db) (s : Filling)
      → CleanDirs dirs
      → Deep path
      → populate_dir fails api_base_url api_key dirs fuel path db ≡ some s
      → Shows path s.1
  unfolding populate_dir list_dir catalog_file fuse_file get_child
  populate-Shows zero path db s clean_dirs deep filled names = absurd (no_filling filled)
  populate-Shows (suc fuel) path db s clean_dirs deep filled [] = refl
  populate-Shows (suc fuel) path db s clean_dirs deep filled (n ∷ ns) =
      add_listed_all-shows (populate_dir fails api_base_url api_key dirs fuel)
        (λ p d t c f. populate-Shows fuel p d t clean_dirs c f) path (entries_at path dirs)
        (db, no_children) s (child_path-Deep path clean_dirs deep) (rw deep.0 at filled) n ns
