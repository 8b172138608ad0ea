-- ===== src/Catalog/Listed.antt =====
-- buildParentDirs of internal/catalog/tree.go comes to an end, with every directory in its parent.
use mathlib.Core.List.{append-nil}
use torbox_fuse_go.Base.{
  Distinct-insert, Distinct, subst, if_neg, List-cases, All-zip, ◌||◌, All-append, inr, str_eq, ◌∙◌,
  if_pos, All-map, Bool-cases, inl, All-insert, ℕ, zero, suc, ◌≤◌, ◌≡◌, refl, true, false, none,
  some, List, [], ◌∷◌, ◌++◌, Str, Str-discrete, length, max, All, arith,
}
use torbox_fuse_go.Paths.{base, dir, Rooted}
use torbox_fuse_go.Catalog.Tree.{
  any_subdir, mark, addition, DirEntry, Dirs, Seen, entries_at, add_entry, scan_dirs, add_all,
  parents_loop, longest, build_parent_dirs,
}
use torbox_fuse_go.Catalog.Parents.{
  HasParent, Placed, Placed-add_all, leaves, leaves-append, entries_at-add_entry,
}
use torbox_fuse_go.Catalog.Rounds.{scan_all, scan-Placed, scan-Shorter, Fresh, Shorter}

-- The entries of files stay where they are.
abbrev pub SameLeaves : Dirs → Dirs → Type 0
SameLeaves dirs dirs' = (q : Str) → leaves (entries_at q dirs') ≡ leaves (entries_at q dirs)

pub record ParentsOk (dirs dirs' : Dirs) : Type 0 where
  pub listed : All (λ e. HasParent dirs' e.0) dirs'
  pub same : SameLeaves dirs dirs'
  pub rooted : All (λ e. Rooted e.0) dirs'
  pub distinct : Distinct dirs'

abbrev IsSubdir : Str × DirEntry → Type 0
IsSubdir a = a.1.file ≡ none

add_entry-leaves :
    (p q : Str) (e : DirEntry) (dirs : Dirs)
    → e.file ≡ none
    → leaves (entries_at q (add_entry p e dirs)) ≡ leaves (entries_at q dirs)
add_entry-leaves p q e dirs no_file = elim (Str-discrete p q) [
  | yes here ↦
      rw
        (
          entries_at-add_entry q p e dirs,
          if_pos (Str-discrete p q) here,
          leaves-append (entries_at q dirs) (e ∷ []),
          no_file,
        )
        (append-nil (leaves (entries_at q dirs)))
  | no ne ↦ rw (entries_at-add_entry q p e dirs, if_neg (Str-discrete p q) ne) refl
]

add_all-SameLeaves :
    (added : List (Str × DirEntry)) (dirs : Dirs)
    → All IsSubdir added
    → SameLeaves dirs (add_all added dirs)
unfolding add_all
add_all-SameLeaves [] dirs h q = refl
add_all-SameLeaves ((p, e) ∷ added) dirs h q =
    add_all-SameLeaves added (add_entry p e dirs) h.1 q ∙ add_entry-leaves p q e dirs h.0

-- A predicate on the paths of directories.
module _ (P : Str → Type 0) where
  add_all-All :
      (added : List (Str × DirEntry)) (dirs : Dirs)
      → All (λ a. P a.0) added
      → All (λ e. P e.0) dirs
      → All (λ e. P e.0) (add_all added dirs)
  unfolding add_all add_entry
  add_all-All [] dirs h k = k
  add_all-All ((p, e) ∷ added) dirs h k = add_all-All added (add_entry p e dirs) h.1 (
      All-insert Str-discrete (λ (x : Str × List DirEntry). P x.0) p (entries_at p dirs ++ (e ∷ []))
        dirs h.0 k)

add_all-Distinct :
    (added : List (Str × DirEntry)) (dirs : Dirs) → Distinct dirs → Distinct (add_all added dirs)
unfolding add_all add_entry
add_all-Distinct [] dirs h = h
add_all-Distinct ((p, e) ∷ added) dirs h =
    add_all-Distinct added (add_entry p e dirs)
      (Distinct-insert Str-discrete p (entries_at p dirs ++ (e ∷ [])) dirs h)

addition-IsSubdir : (dirs : Dirs) (p : Str) → All IsSubdir (addition dirs p)
addition-IsSubdir dirs p =
    elim (Bool-cases (str_eq (dir p) p || any_subdir (base p) (entries_at (dir p) dirs))) [
      | inl skip ↦ rw skip tt
      | inr new ↦ rw new (refl, tt)
    ]

scan-IsSubdir : (dirs rest : Dirs) (seen : Seen) → All IsSubdir (scan_dirs dirs rest seen).1
unfolding scan_dirs
scan-IsSubdir dirs [] seen = tt
scan-IsSubdir dirs ((p, es) ∷ rest) seen = elim (Bool-cases (seen p)) [
  | inl old ↦ rw (old, scan_dirs) (scan-IsSubdir dirs rest seen)
  | inr new ↦
      rw (new, scan_dirs)
        (All-append IsSubdir (addition dirs p) _ (addition-IsSubdir dirs p)
          (scan-IsSubdir dirs rest (mark p seen)))
]

-- What holds at the start of a round: what is seen has its entry, and the rest is short.
record RoundOk (n : ℕ) (dirs : Dirs) (seen : Seen) : Type 0 where
  placed : (p : Str) → seen p ≡ true → HasParent dirs p
  fresh : All (Fresh dirs n seen) dirs
  all_rooted : All (λ e. Rooted e.0) dirs
  apart : Distinct dirs

scanned-Placed :
    (n : ℕ) (dirs : Dirs) (seen : Seen) (p : Str)
    → RoundOk n dirs seen
    → (scan_dirs dirs dirs seen).0 p ≡ true
    → Placed dirs (scan_dirs dirs dirs seen).1 p
scanned-Placed n dirs seen p r h = elim (scan-Placed dirs dirs seen p h) [
  | inl before ↦ inl (r.placed p before)
  | inr now ↦ now
]

next_round :
    (n : ℕ) (dirs : Dirs) (seen : Seen)
    → RoundOk (suc n) dirs seen
    → let (seen', added) = scan_dirs dirs dirs seen in RoundOk n (add_all added dirs) seen'
next_round n dirs seen r =
    let seen' = (scan_dirs dirs dirs seen).0 in
    let added = (scan_dirs dirs dirs seen).1 in
    let shorter = scan-Shorter dirs (suc n) dirs seen r.fresh in
    let dirs' = add_all added dirs in
    record {
      placed = λ p h. Placed-add_all p added dirs (scanned-Placed (suc n) dirs seen p r h);
      fresh =
          add_all-All (λ p. seen' p ≡ false → Rooted p × (length p ≤ n)) added dirs
            (All-map (Shorter dirs (suc n)) _ (λ a h _. (h.0, omega (arith, h.1))) added shorter)
            (All-map (λ e. seen' e.0 ≡ true) _ (λ e known unknown. absurd (cc)) dirs
              (scan_all dirs dirs seen));
      all_rooted =
          add_all-All Rooted added dirs
            (All-map (Shorter dirs (suc n)) (λ a. Rooted a.0) (λ a h. h.0) added shorter)
            r.all_rooted;
      apart = add_all-Distinct added dirs r.apart;
    }

last_round :
    (n : ℕ) (dirs : Dirs) (seen : Seen)
    → RoundOk n dirs seen
    → (scan_dirs dirs dirs seen).1 ≡ []
    → ParentsOk dirs dirs
last_round n dirs seen r nothing = record {
  listed =
      All-map (λ e. (scan_dirs dirs dirs seen).0 e.0 ≡ true) (λ e. HasParent dirs e.0)
        (λ e known. elim (scanned-Placed n dirs seen e.0 r known) [
          | inl there ↦ there
          | inr asked ↦ absurd (rw nothing at asked)
        ])
        dirs (scan_all dirs dirs seen);
  same = λ q. refl;
  rooted = r.all_rooted;
  distinct = r.apart;
}

loop-ParentsOk :
    (n : ℕ) (dirs : Dirs) (seen : Seen)
    → RoundOk n dirs seen
    → (r : Dirs) × (parents_loop (suc n) dirs seen ≡ some r) × ParentsOk dirs r
unfolding parents_loop
loop-ParentsOk zero dirs seen r = elim (List-cases (scan_dirs dirs dirs seen).1) [
  | inl nothing ↦ (dirs, rw (nothing, parents_loop) refl, last_round zero dirs seen r nothing)
  | inr (a, more, e) ↦
      let shorter = scan-Shorter dirs zero dirs seen r.fresh in
      let one : All (Shorter dirs zero) (a ∷ more) = rw e at shorter in
      absurd (omega (arith, one.0.1))
]
loop-ParentsOk (suc n) dirs seen r = elim (List-cases (scan_dirs dirs dirs seen).1) [
  | inl nothing ↦ (dirs, rw (nothing, parents_loop) refl, last_round (suc n) dirs seen r nothing)
  | inr (a, more, e) ↦
      let seen' = (scan_dirs dirs dirs seen).0 in
      let added = (scan_dirs dirs dirs seen).1 in
      let (res, runs, good) =
        loop-ParentsOk n (add_all added dirs) seen' (next_round n dirs seen r) in
      (
        res,
        rw (e, parents_loop)
            (subst (λ x. parents_loop (suc n) (add_all x dirs) seen' ≡ some res) e runs),
        record {
          listed = good.listed;
          same = λ q. good.same q ∙ add_all-SameLeaves added dirs (scan-IsSubdir dirs dirs seen) q;
          rooted = good.rooted;
          distinct = good.distinct;
        },
      )
]

pub longest-above : (dirs : Dirs) → All (λ e. length e.0 ≤ longest dirs) dirs
unfolding longest
longest-above [] = tt
longest-above ((p, es) ∷ rest) = (
  omega arith,
  All-map (λ e. length e.0 ≤ longest rest) (λ e. length e.0 ≤ max (length p) (longest rest))
      (λ e h. omega (arith, h)) rest (longest-above rest),
)

-- On a map of directories with paths from the root, buildParentDirs returns, and then every directory but the
-- root is listed in its parent, every path is from the root, and each directory has the entries of
-- files that it had, in their order.
pub build_parent_dirs-ParentsOk :
    (dirs : Dirs)
    → All (λ e. Rooted e.0) dirs
    → Distinct dirs
    → (r : Dirs) × (build_parent_dirs dirs ≡ some r) × ParentsOk dirs r
unfolding build_parent_dirs
build_parent_dirs-ParentsOk dirs rooted apart =
    loop-ParentsOk (longest dirs) dirs (λ p. false)
      (record {
        placed = λ p h. absurd (cc);
        fresh =
            All-zip (λ e. Rooted e.0) (λ e. length e.0 ≤ longest dirs)
              (Fresh dirs (longest dirs) (λ p. false)) (λ e a b _. (a, b)) dirs rooted
              (longest-above dirs);
        all_rooted = rooted;
        apart = apart;
      })
