-- ===== src/Catalog/Hides.antt =====
-- ApplyHides of internal/catalog/tree_from_db.go as a whole.
use mathlib.Core.List.{Perm, filter_map}
use mathlib.Core.List.Perm
use torbox_fuse_go.Base.{
  true, not, filter, filter_in, filter_out, Bool-cases, Str-discrete, lookup, inr, inl,
  Option-cases, subst, ◌≡◌, refl, sym, ◌∙◌, ap, Bool, Option, none, some, List, [], ◌∷◌, Str,
  Distinct, All,
}
use mathlib.Core.Option.{Option-elim}
use torbox_fuse_go.Paths.{Rooted}
use torbox_fuse_go.Catalog.{File, content_key}
use torbox_fuse_go.Catalog.Tree.{DirEntry, Dirs, entries_at, sort_dirs}
use torbox_fuse_go.Catalog.FromDb.{
  is_true, hides_file, keep_shown, hide_dirs, sort_paths, prune_dirs, apply_hides,
}
use torbox_fuse_go.Catalog.Parents.{leaves, keep_leaf}
use torbox_fuse_go.Catalog.Listed.{ParentsOk, build_parent_dirs-ParentsOk}
use torbox_fuse_go.Catalog.Shown.{
  leaves-keep_shown, hide_dirs-All, hide_dirs-Distinct, entries_at-hide_dirs, prune_dirs-SameLeaves,
  keep_shown_in, keep_shown_out, subdir_shown, sort_entries-perm, entries_at-sort_dirs,
}

-- An entry that is shown: a subdirectory, or a file whose key the set of hidden ones does not hold.
abbrev pub unless_held : Option Bool → Bool
unless_held none = true
unless_held (some held) = not held

abbrev pub visible_file : List (Str × Bool) → Option File → Bool
visible_file hidden none = true
visible_file hidden (some f) = unless_held (lookup Str-discrete (content_key f) hidden)

abbrev pub visible : List (Str × Bool) → DirEntry → Bool
visible hidden e = visible_file hidden e.file

unless_held-hides : (hidden : List (Str × Bool)) (o : Option Bool) → unless_held o ≡ not (is_true o)
unless_held-hides hidden none = refl
unless_held-hides hidden (some b) = refl

visible-hides :
    (hidden : List (Str × Bool)) (o : Option File)
    → visible_file hidden o ≡ not (hides_file hidden o)
visible-hides hidden none = refl
visible-hides hidden (some f) =
    unless_held-hides hidden (lookup Str-discrete (content_key f) hidden)

keep_shown-filter :
    (hidden : List (Str × Bool)) (es : List DirEntry)
    → keep_shown hidden es ≡ filter (visible hidden) es
unfolding keep_shown filter
keep_shown-filter hidden [] = refl
keep_shown-filter hidden (e ∷ es) =
    let rest = keep_shown-filter hidden es in
    let shown = visible-hides hidden e.file in
    elim (Bool-cases (hides_file hidden e.file)) [
      | inl out ↦
          keep_shown_out hidden e es out
          ∙ rest
          ∙ sym (filter_out (visible hidden) e es (shown ∙ ap not out))
      | inr stays ↦
          keep_shown_in hidden e es stays
          ∙ ap (λ l. e ∷ l) rest
          ∙ sym (filter_in (visible hidden) e es (shown ∙ ap not stays))
    ]

-- The files of each directory are those that are not hidden.
abbrev pub OnlyShown : List (Str × Bool) → Dirs → Dirs → Type 0
OnlyShown hidden tree dirs =
    (q : Str)
    → Perm (leaves (entries_at q dirs)) (filter (visible hidden) (leaves (entries_at q tree)))

-- The entry, if it has a file.
abbrev keep_entry : Option File → DirEntry → Option DirEntry
keep_entry none e = none
keep_entry (some f) e = some e

abbrev with_file : DirEntry → Option DirEntry
with_file e = keep_entry e.file e

keep_entry-keep_leaf :
    (o : Option File) (e : DirEntry) (es : List DirEntry)
    → Option-elim (keep_entry o e) es (λ b. b ∷ es) ≡ keep_leaf o e es
unfolding Option-elim
keep_entry-keep_leaf none e es = refl
keep_entry-keep_leaf (some f) e es = refl

leaves-filter_map : (es : List DirEntry) → filter_map with_file es ≡ leaves es
unfolding filter_map
leaves-filter_map [] = refl
leaves-filter_map (e ∷ es) =
    keep_entry-keep_leaf e.file e (filter_map with_file es)
    ∙ ap (keep_leaf e.file e) (leaves-filter_map es)

pub leaves-perm : (xs ys : List DirEntry) → Perm xs ys → Perm (leaves xs) (leaves ys)
leaves-perm xs ys h =
    subst (λ l. Perm l (leaves ys)) (leaves-filter_map xs)
      (subst (Perm (filter_map with_file xs)) (leaves-filter_map ys) (Perm.filter_map with_file h))

module _ (hidden : List (Str × Bool)) where
  finish_hides-OnlyShown :
      (h : Str × Bool) (tree dirs : Dirs)
      → Distinct tree
      → ParentsOk (hide_dirs (h ∷ hidden) tree) dirs
      → let all = h ∷ hidden in OnlyShown all tree (sort_dirs (prune_dirs (sort_paths dirs) dirs))
  finish_hides-OnlyShown h tree dirs apart good q =
      let all = h ∷ hidden in
      let pruned = prune_dirs (sort_paths dirs) dirs in
      let sorted : Perm (leaves (entries_at q (sort_dirs pruned))) (leaves (entries_at q pruned)) =
        subst (λ es. Perm (leaves es) (leaves (entries_at q pruned)))
          (sym (entries_at-sort_dirs q pruned))
          (leaves-perm _ _ (sort_entries-perm (entries_at q pruned))) in
      let same : leaves (entries_at q pruned) ≡ filter (visible all) (leaves (entries_at q tree)) =
        (prune_dirs-SameLeaves (sort_paths dirs) dirs good.distinct).0 q
        ∙ good.same q
        ∙ ap leaves (entries_at-hide_dirs all q tree apart)
        ∙ leaves-keep_shown all (entries_at q tree)
        ∙ keep_shown-filter all (leaves (entries_at q tree)) in
      subst (λ es. Perm (leaves (entries_at q (sort_dirs pruned))) es) same sorted

keep_shown_nil : (es : List DirEntry) → keep_shown [] es ≡ es
unfolding keep_shown lookup
keep_shown_nil [] = refl
keep_shown_nil (e ∷ es) = elim (Option-cases e.file) [
  | inl sub ↦ keep_shown_in [] e es (subdir_shown [] e sub) ∙ ap (λ xs. e ∷ xs) (keep_shown_nil es)
  | inr (f, there) ↦
      keep_shown_in [] e es (ap (hides_file []) there) ∙ ap (λ xs. e ∷ xs) (keep_shown_nil es)
]

-- On a tree with paths from the root, ApplyHides returns, and each directory of the result has exactly
-- those files that it had in the tree and whose key the set of hidden keys does not hold, each as often; a directory that is not
-- there has none.
pub apply_hides-OnlyShown :
    (tree : Dirs) (hidden : List (Str × Bool))
    → All (λ e. Rooted e.0) tree
    → Distinct tree
    → (dirs : Dirs) × (apply_hides tree hidden ≡ some dirs) × OnlyShown hidden tree dirs
unfolding apply_hides
apply_hides-OnlyShown tree [] rooted apart = (
  tree,
  refl,
  λ q.
      subst (Perm _)
        (sym (keep_shown_nil (leaves (entries_at q tree)))
          ∙ keep_shown-filter [] (leaves (entries_at q tree)))
        (Perm.refl _),
)
apply_hides-OnlyShown tree (h ∷ hidden) rooted apart =
    let all = h ∷ hidden in
    let (dirs, runs, good) =
      build_parent_dirs-ParentsOk (hide_dirs all tree) (hide_dirs-All all Rooted tree rooted)
        (hide_dirs-Distinct all tree apart) in
    (
      sort_dirs (prune_dirs (sort_paths dirs) dirs),
      rw runs refl,
      finish_hides-OnlyShown hidden h tree dirs apart good,
    )
