-- ===== src/Catalog/Whole.antt =====
-- BuildTree of internal/catalog/tree.go as a whole.
use mathlib.Core.List.{Perm}
use torbox_fuse_go.Base.{
  ◌≢◌, ◌≡◌, refl, sym, ◌∙◌, ap, Bool, true, false, ◌||◌, some, List, [], ◌∷◌, Str, All, All-map,
  Distinct, Bool-cases, inl, inr, subst,
}
use torbox_fuse_go.Paths.{Rooted, dir, base}
use torbox_fuse_go.Catalog.{Text, Download}
use torbox_fuse_go.Catalog.Tree.{
  DirEntry, Dirs, entries_at, is_subdir, any_subdir, unsorted, str_lt, insert_entry, sort_entries,
  sort_dirs, build_tree,
}
use torbox_fuse_go.Catalog.Parents.{HasParent, leaves}
use torbox_fuse_go.Catalog.Listed.{ParentsOk, build_parent_dirs-ParentsOk}
use torbox_fuse_go.Catalog.Shown.{sort_entries-perm, entries_at-sort_dirs}
use torbox_fuse_go.Catalog.Hides.{leaves-perm}
use torbox_fuse_go.Catalog.Sorted.{ByName, sort_dirs-ByName}
use torbox_fuse_go.Catalog.Built.{DirsOk, unsorted-DirsOk}

-- A predicate on the paths of directories holds behind the sorting.
sort_dirs-All :
    (P : Str → Type 0) (dirs : Dirs) → All (λ e. P e.0) dirs → All (λ e. P e.0) (sort_dirs dirs)
unfolding sort_dirs
sort_dirs-All P [] h = tt
sort_dirs-All P ((p, es) ∷ rest) h = (h.0, sort_dirs-All P rest h.1)

sort_dirs-Distinct : (dirs : Dirs) → Distinct dirs → Distinct (sort_dirs dirs)
unfolding sort_dirs
sort_dirs-Distinct [] h = tt
sort_dirs-Distinct ((p, es) ∷ rest) h =
    (sort_dirs-All (λ q. q ≢ p) rest h.0, sort_dirs-Distinct rest h.1)

or_swap : (a b c : Bool) → (a || (b || c)) ≡ (b || (a || c))
or_swap true true c = refl
or_swap true false c = refl
or_swap false true c = refl
or_swap false false c = refl

module _ (name : Str) where
  any_subdir-insert_entry :
      (e : DirEntry) (es : List DirEntry)
      → any_subdir name (insert_entry e es) ≡ (is_subdir name e || any_subdir name es)
  unfolding any_subdir insert_entry
  any_subdir-insert_entry e [] = refl
  any_subdir-insert_entry e (x ∷ xs) = elim (Bool-cases (str_lt x.entry_name e.entry_name)) [
    | inl later ↦ rw later (
        ap (λ b. is_subdir name x || b) (any_subdir-insert_entry e xs)
        ∙ or_swap (is_subdir name x) (is_subdir name e) (any_subdir name xs))
    | inr here ↦ rw here refl
  ]

  any_subdir-sort_entries :
      (es : List DirEntry) → any_subdir name (sort_entries es) ≡ any_subdir name es
  unfolding any_subdir sort_entries
  any_subdir-sort_entries [] = refl
  any_subdir-sort_entries (e ∷ es) =
      any_subdir-insert_entry e (sort_entries es)
      ∙ ap (λ b. is_subdir name e || b) (any_subdir-sort_entries es)

HasParent-sort_dirs : (dirs : Dirs) (p : Str) → HasParent dirs p → HasParent (sort_dirs dirs) p
HasParent-sort_dirs dirs p (inl root) = inl root
HasParent-sort_dirs dirs p (inr listed) = inr (
    ap (any_subdir (base p)) (entries_at-sort_dirs (dir p) dirs)
    ∙ any_subdir-sort_entries (base p) (entries_at (dir p) dirs)
    ∙ listed)

pub sort_dirs-leaves :
    (q : Str) (dirs : Dirs)
    → Perm (leaves (entries_at q (sort_dirs dirs))) (leaves (entries_at q dirs))
sort_dirs-leaves q dirs =
    subst (λ es. Perm (leaves es) (leaves (entries_at q dirs))) (sym (entries_at-sort_dirs q dirs))
      (leaves-perm _ _ (sort_entries-perm (entries_at q dirs)))

-- A tree made of directories with files.
pub record TreeOk (files dirs : Dirs) : Type 0 where
  pub dirs_ok : DirsOk dirs
  pub by_name : All (λ e. ByName e.1) dirs
  pub listed : All (λ e. HasParent dirs e.0) dirs
  pub same_files : (q : Str) → Perm (leaves (entries_at q dirs)) (leaves (entries_at q files))

pub sort_dirs-TreeOk : (files dirs : Dirs) → ParentsOk files dirs → TreeOk files (sort_dirs dirs)
sort_dirs-TreeOk files dirs h = record {
  dirs_ok = record {
    rooted = sort_dirs-All Rooted dirs h.rooted;
    distinct = sort_dirs-Distinct dirs h.distinct;
  };
  by_name = sort_dirs-ByName dirs;
  listed = sort_dirs-All (HasParent (sort_dirs dirs)) dirs (
      All-map (λ e. HasParent dirs e.0) (λ e. HasParent (sort_dirs dirs) e.0)
        (λ e. HasParent-sort_dirs dirs e.0) dirs h.listed);
  same_files = λ q.
      subst (Perm (leaves (entries_at q (sort_dirs dirs)))) (h.same q) (sort_dirs-leaves q dirs);
}

module _ (text : Text) where
  pub build_tree-TreeOk :
      (ds : List Download) (all_dir : Bool)
      → (dirs : Dirs) × (build_tree text ds all_dir ≡ some dirs)
        × TreeOk (unsorted text ds all_dir) dirs
  unfolding build_tree
  build_tree-TreeOk ds all_dir =
      let start = unsorted-DirsOk text ds all_dir in
      let (dirs, runs, good) =
        build_parent_dirs-ParentsOk (unsorted text ds all_dir) start.rooted start.distinct in
      (
        sort_dirs dirs,
        rw (runs, build_tree) refl,
        sort_dirs-TreeOk (unsorted text ds all_dir) dirs good,
      )
