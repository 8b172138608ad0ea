-- ===== src/Catalog/Parents.antt =====
-- buildParentDirs of internal/catalog/tree.go: it comes to an end, lists every directory in its parent,
-- and leaves all files where they are.
use torbox_fuse_go.Base.{
  str_eq_self, ◌∙◌, str_eq→eq, sym, ite, ap, ◌≡◌, refl, Bool, true, false, ◌||◌, ◌⊎◌, inl, inr,
  Option, none, some, List, [], ◌∷◌, ◌++◌, Str, Str-discrete, str_eq, lookup-insert, Bool-cases,
  if_pos, if_neg,
}
use torbox_fuse_go.Paths.{dir, base}
use torbox_fuse_go.Catalog.{File}
use torbox_fuse_go.Catalog.Tree.{
  DirEntry, Dirs, Seen, mark, entries_at, add_entry, subdir, is_subdir, any_subdir, addition,
  add_all,
}

-- A directory is listed in its parent, or is the root.
abbrev pub HasParent : Dirs → Str → Type 0
HasParent dirs p = (dir p ≡ p) ⊎ (any_subdir (base p) (entries_at (dir p) dirs) ≡ true)

abbrev pub keep_leaf : Option File → DirEntry → List DirEntry → List DirEntry
keep_leaf none e es = es
keep_leaf (some f) e es = e ∷ es

-- The entries of files, in their order.
abbrev pub leaves : List DirEntry → List DirEntry
leaves [] = []
leaves (e ∷ es) = keep_leaf e.file e (leaves es)

pub leaves_file :
    (e : DirEntry) (es : List DirEntry) {f : File}
    → e.file ≡ some f
    → leaves (e ∷ es) ≡ e ∷ leaves es
leaves_file e es there = ap (λ o. keep_leaf o e (leaves es)) there

pub leaves_subdir :
    (e : DirEntry) (es : List DirEntry) → e.file ≡ none → leaves (e ∷ es) ≡ leaves es
leaves_subdir e es sub = ap (λ o. keep_leaf o e (leaves es)) sub

keep_leaf-append :
    (o : Option File) (e : DirEntry) (xs ys : List DirEntry)
    → keep_leaf o e xs ++ ys ≡ keep_leaf o e (xs ++ ys)
keep_leaf-append none e xs ys = refl
keep_leaf-append (some f) e xs ys = refl

pub leaves-append : (xs ys : List DirEntry) → leaves (xs ++ ys) ≡ leaves xs ++ leaves ys
leaves-append [] ys = refl
leaves-append (x ∷ xs) ys =
    ap (keep_leaf x.file x) (leaves-append xs ys)
    ∙ sym (keep_leaf-append x.file x (leaves xs) (leaves ys))

any_subdir-append :
    (name : Str) (xs ys : List DirEntry)
    → any_subdir name (xs ++ ys) ≡ (any_subdir name xs || any_subdir name ys)
unfolding any_subdir
any_subdir-append name [] ys = refl
any_subdir-append name (x ∷ xs) ys = elim (Bool-cases (is_subdir name x)) [
  | inl here ↦ rw here refl
  | inr other ↦ rw other (any_subdir-append name xs ys)
]

pub entries_at-add_entry :
    (q p : Str) (e : DirEntry) (dirs : Dirs)
    → entries_at q (add_entry p e dirs)
      ≡ ite (Str-discrete p q) (entries_at q dirs ++ (e ∷ [])) (entries_at q dirs)
unfolding add_entry
entries_at-add_entry q p e dirs =
    let old = entries_at p dirs in
    let found = lookup-insert Str-discrete p q (old ++ (e ∷ [])) dirs in
    elim (Str-discrete p q) [
      | yes same ↦
          rw (found, if_pos (Str-discrete p q) same, if_pos (Str-discrete p q) same, same) refl
      | no ne ↦ rw (found, if_neg (Str-discrete p q) ne, if_neg (Str-discrete p q) ne) refl
    ]

module _ (name q : Str) where
  any_subdir-add_entry :
      (p : Str) (e : DirEntry) (dirs : Dirs)
      → any_subdir name (entries_at q dirs) ≡ true
      → any_subdir name (entries_at q (add_entry p e dirs)) ≡ true
  any_subdir-add_entry p e dirs h = elim (Str-discrete p q) [
    | yes same ↦
        rw
          (
            entries_at-add_entry q p e dirs,
            if_pos (Str-discrete p q) same,
            any_subdir-append name (entries_at q dirs) (e ∷ []),
            h,
          )
          refl
    | no ne ↦ rw (entries_at-add_entry q p e dirs, if_neg (Str-discrete p q) ne) h
  ]

  any_subdir-add_all :
      (added : List (Str × DirEntry)) (dirs : Dirs)
      → any_subdir name (entries_at q dirs) ≡ true
      → any_subdir name (entries_at q (add_all added dirs)) ≡ true
  unfolding add_all
  any_subdir-add_all [] dirs h = h
  any_subdir-add_all ((p, e) ∷ added) dirs h =
      any_subdir-add_all added (add_entry p e dirs) (any_subdir-add_entry p e dirs h)

-- The entry of `p` in its parent is among the additions.
abbrev pub Requested : List (Str × DirEntry) → Str → Type 0
Requested [] p = ⊥
Requested (a ∷ added) p = ((a.0 ≡ dir p) × (a.1 ≡ subdir (base p))) ⊎ Requested added p

-- The path p has its entry, or will have it.
abbrev pub Placed : Dirs → List (Str × DirEntry) → Str → Type 0
Placed dirs added p = HasParent dirs p ⊎ Requested added p

pub HasParent-add_all :
    (p : Str) (added : List (Str × DirEntry)) (dirs : Dirs)
    → HasParent dirs p
    → HasParent (add_all added dirs) p
HasParent-add_all p added dirs (inl root) = inl root
HasParent-add_all p added dirs (inr listed) =
    inr (any_subdir-add_all (base p) (dir p) added dirs listed)

is_subdir_self : (name : Str) → is_subdir name (subdir name) ≡ true
is_subdir_self name = str_eq_self name

or_true_lem : (b : Bool) → (b || true) ≡ true
or_true_lem true = refl
or_true_lem false = refl

listed_now :
    (name q : Str) (dirs : Dirs)
    → any_subdir name (entries_at q (add_entry q (subdir name) dirs)) ≡ true
unfolding any_subdir
listed_now name q dirs =
    rw
      (
        entries_at-add_entry q q (subdir name) dirs,
        if_pos (Str-discrete q q) refl,
        any_subdir-append name (entries_at q dirs) (subdir name ∷ []),
        is_subdir_self name,
      )
      (or_true_lem (any_subdir name (entries_at q dirs)))

Requested-add_all :
    (p : Str) (added : List (Str × DirEntry)) (dirs : Dirs)
    → Requested added p
    → HasParent (add_all added dirs) p
unfolding add_all
Requested-add_all p [] dirs h = absurd h
Requested-add_all p ((q, e) ∷ added) dirs (inr later) =
    Requested-add_all p added (add_entry q e dirs) later
Requested-add_all p ((q, e) ∷ added) dirs (inl (there, entry)) =
    HasParent-add_all p added (add_entry q e dirs)
      (inr (rw (there, entry) (listed_now (base p) (dir p) dirs)))

pub Placed-add_all :
    (p : Str) (added : List (Str × DirEntry)) (dirs : Dirs)
    → Placed dirs added p
    → HasParent (add_all added dirs) p
Placed-add_all p added dirs (inl h) = HasParent-add_all p added dirs h
Placed-add_all p added dirs (inr h) = Requested-add_all p added dirs h

Requested-append :
    (p : Str) (xs ys : List (Str × DirEntry)) → Requested ys p → Requested (xs ++ ys) p
Requested-append p [] ys h = h
Requested-append p (x ∷ xs) ys h = inr (Requested-append p xs ys h)

pub Placed-append :
    (p : Str) (dirs : Dirs) (xs ys : List (Str × DirEntry))
    → Placed dirs ys p
    → Placed dirs (xs ++ ys) p
Placed-append p dirs xs ys (inl h) = inl h
Placed-append p dirs xs ys (inr h) = inr (Requested-append p xs ys h)

-- What a pass asks for places the directory.
pub addition-Placed :
    (dirs : Dirs) (p : Str) (more : List (Str × DirEntry)) → Placed dirs (addition dirs p ++ more) p
addition-Placed dirs p more = elim (Bool-cases (str_eq (dir p) p)) [
  | inl root ↦ inl (inl (str_eq→eq (dir p) p root))
  | inr below ↦ elim (Bool-cases (any_subdir (base p) (entries_at (dir p) dirs))) [
    | inl old ↦ inl (inr old)
    | inr new ↦ rw (below, new) (inr (inl (refl, refl)))
  ]
]

pub mark_self : (p : Str) (seen : Seen) → mark p seen p ≡ true
mark_self p seen = if_pos (Str-discrete p p) refl _ _

pub mark_keeps : (p q : Str) (seen : Seen) → seen q ≡ true → mark p seen q ≡ true
mark_keeps p q seen h = elim (Str-discrete p q) [
  | yes same ↦ if_pos (Str-discrete p q) same _ _
  | no ne ↦ if_neg (Str-discrete p q) ne _ _ ∙ h
]

pub marked : (p q : Str) (seen : Seen) → mark p seen q ≡ true → (p ≡ q) ⊎ (seen q ≡ true)
marked p q seen h = elim (Str-discrete p q) [
  | yes same ↦ inl same
  | no ne ↦ inr (sym (if_neg (Str-discrete p q) ne _ _) ∙ h)
]
