-- ===== src/Catalog/Sorted.antt =====
-- The order of the entries of a directory in internal/catalog/tree.go.
use torbox_fuse_go.Base.{
  ◌≡◌, refl, Bool, true, false, List, [], ◌∷◌, Str, All, arith, Bool-cases, inl, inr, subst,
  if◌then◌else◌,
}
use torbox_fuse_go.Catalog.Tree.{DirEntry, Dirs, str_lt, insert_entry, sort_entries, sort_dirs}

-- No entry's name is below that of the entry before it.
abbrev pub ByName : List DirEntry → Type 0
ByName [] = Unit
ByName (x ∷ []) = Unit
ByName (x ∷ y ∷ ys) = (str_lt y.entry_name x.entry_name ≡ false) × ByName (y ∷ ys)

str_lt_asym : (a b : Str) → str_lt a b ≡ true → str_lt b a ≡ false
unfolding str_lt
str_lt_asym [] [] h = refl
str_lt_asym [] (d ∷ ds) h = refl
str_lt_asym (c ∷ cs) [] h = cc
str_lt_asym (c ∷ cs) (d ∷ ds) h = elim (Bool-cases (str_lt cs ds)) [
  | inl less ↦ rw (str_lt_asym cs ds less) (ground (arith, h))
  | inr not_less ↦ ground (arith, h, not_less)
]

abbrev put : DirEntry → DirEntry → List DirEntry → Bool → List DirEntry
put e y ys b = if b then y ∷ insert_entry e ys else e ∷ y ∷ ys

insert_entry-ByName : (e : DirEntry) (es : List DirEntry) → ByName es → ByName (insert_entry e es)
unfolding insert_entry
insert_entry-ByName e [] h = tt
insert_entry-ByName e (x ∷ []) h = elim (Bool-cases (str_lt x.entry_name e.entry_name)) [
  | inl later ↦ rw later (str_lt_asym x.entry_name e.entry_name later, tt)
  | inr here ↦ rw here (here, tt)
]
insert_entry-ByName e (x ∷ y ∷ ys) h =
    let rest = insert_entry-ByName e (y ∷ ys) h.1 in
    elim (Bool-cases (str_lt x.entry_name e.entry_name)) [
      | inr here ↦ rw here (here, h)
      | inl later ↦ elim (Bool-cases (str_lt y.entry_name e.entry_name)) [
        | inl on ↦ rw (later, on) (h.0, subst (λ b. ByName (put e y ys b)) on rest)
        | inr before ↦
            rw (later, before)
              (
                str_lt_asym x.entry_name e.entry_name later,
                subst (λ b. ByName (put e y ys b)) before rest,
              )
      ]
    ]

sort_entries-ByName : (es : List DirEntry) → ByName (sort_entries es)
unfolding sort_entries
sort_entries-ByName [] = tt
sort_entries-ByName (e ∷ es) = insert_entry-ByName e (sort_entries es) (sort_entries-ByName es)

pub sort_dirs-ByName : (dirs : Dirs) → All (λ d. ByName d.1) (sort_dirs dirs)
unfolding sort_dirs
sort_dirs-ByName [] = tt
sort_dirs-ByName ((p, es) ∷ rest) = (sort_entries-ByName es, sort_dirs-ByName rest)
