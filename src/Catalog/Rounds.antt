-- ===== src/Catalog/Rounds.antt =====
-- The rounds of buildParentDirs in internal/catalog/tree.go, and what they leave.
use torbox_fuse_go.Base.{
  ap, str_eq_self, sym, All-map, All-append, subst, str_eq, ℕ, ◌≤◌, ◌<◌, ◌≡◌, refl, true, false,
  ◌⊎◌, inl, inr, List, [], ◌∷◌, ◌++◌, Str, length, All, arith, Bool-cases,
}
use torbox_fuse_go.Paths.{dir, base, Rooted}
use torbox_fuse_go.Paths.Length.{dir-Rooted, dir-shorter}
use torbox_fuse_go.Catalog.Tree.{
  any_subdir, DirEntry, Dirs, Seen, mark, entries_at, addition, scan_dirs,
}
use torbox_fuse_go.Catalog.Parents.{
  Placed, Placed-append, addition-Placed, mark_self, mark_keeps, marked,
}

module _ (dirs : Dirs) where
  scan_keeps :
      (rest : Dirs) (seen : Seen) (q : Str) → seen q ≡ true → (scan_dirs dirs rest seen).0 q ≡ true
  unfolding scan_dirs
  scan_keeps [] seen q h = h
  scan_keeps ((p, es) ∷ rest) seen q h = elim (Bool-cases (seen p)) [
    | inl old ↦ rw (old, scan_dirs) (scan_keeps rest seen q h)
    | inr new ↦ rw (new, scan_dirs) (scan_keeps rest (mark p seen) q (mark_keeps p q seen h))
  ]

  scan_old :
      (p : Str) (es : List DirEntry) (rest : Dirs) (seen : Seen)
      → seen p ≡ true
      → scan_dirs dirs ((p, es) ∷ rest) seen ≡ scan_dirs dirs rest seen
  unfolding scan_dirs
  scan_old p es rest seen old = rw (old, scan_dirs) refl

  scan_new :
      (p : Str) (es : List DirEntry) (rest : Dirs) (seen : Seen)
      → seen p ≡ false
      → scan_dirs dirs ((p, es) ∷ rest) seen ≡ (
        (scan_dirs dirs rest (mark p seen)).0,
        addition dirs p ++ (scan_dirs dirs rest (mark p seen)).1,
      )
  unfolding scan_dirs
  scan_new p es rest seen new = rw (new, scan_dirs) refl

  pub scan_all :
      (rest : Dirs) (seen : Seen) → All (λ e. (scan_dirs dirs rest seen).0 e.0 ≡ true) rest
  unfolding scan_dirs
  scan_all [] seen = tt
  scan_all ((p, es) ∷ rest) seen = elim (Bool-cases (seen p)) [
    | inl old ↦
        subst (λ (r : Seen × List (Str × DirEntry)). All (λ e. r.0 e.0 ≡ true) ((p, es) ∷ rest))
          (sym (scan_old p es rest seen old)) (scan_keeps rest seen p old, scan_all rest seen)
    | inr new ↦
        let later = mark p seen in
        subst (λ (s : Seen). All (λ e. s e.0 ≡ true) ((p, es) ∷ rest))
          (sym (ap (λ (r : Seen × List (Str × DirEntry)). r.0) (scan_new p es rest seen new)))
          (scan_keeps rest later p (mark_self p seen), scan_all rest later)
  ]

  pub scan-Placed :
      (rest : Dirs) (seen : Seen) (q : Str)
      → (scan_dirs dirs rest seen).0 q ≡ true
      → (seen q ≡ true) ⊎ Placed dirs (scan_dirs dirs rest seen).1 q
  unfolding scan_dirs
  scan-Placed [] seen q h = inl h
  scan-Placed ((p, es) ∷ rest) seen q h = elim (Bool-cases (seen p)) [
    | inl old ↦ rw (old, scan_dirs) (scan-Placed rest seen q (rw (old, scan_dirs) at h))
    | inr new ↦
        let more = (scan_dirs dirs rest (mark p seen)).1 in
        rw (new, scan_dirs)
          (elim (scan-Placed rest (mark p seen) q (rw (new, scan_dirs) at h)) [
            | inr placed ↦ inr (Placed-append q dirs (addition dirs p) more placed)
            | inl known ↦ elim (marked p q seen known) [
              | inl same ↦ inr (
                  subst (λ x. Placed dirs (addition dirs p ++ more) x) same
                    (addition-Placed dirs p more))
              | inr before ↦ inl before
            ]
          ])
  ]

  -- The additions are for shorter paths than any that was not seen.
  abbrev pub Fresh : ℕ → Seen → Str × List DirEntry → Type 0
  Fresh n seen e = seen e.0 ≡ false → Rooted e.0 × (length e.0 ≤ n)

  abbrev pub Shorter : ℕ → Str × DirEntry → Type 0
  Shorter n a = Rooted a.0 × (length a.0 < n)

  addition-Shorter : (n : ℕ) (p : Str) → Rooted p → length p ≤ n → All (Shorter n) (addition dirs p)
  addition-Shorter n p rooted size = elim (Bool-cases (str_eq (dir p) p)) [
    | inl root ↦ rw root tt
    | inr below ↦ elim (Bool-cases (any_subdir (base p) (entries_at (dir p) dirs))) [
      | inl old ↦ rw (below, old) tt
      | inr new ↦
          rw (below, new)
            (
              (
                dir-Rooted p rooted,
                (elim (dir-shorter p rooted) [
                  | inl same ↦
                      absurd (cc (below, subst (λ x. str_eq x p ≡ true) (sym same) (str_eq_self p)))
                  | inr less ↦ omega (arith, less, size)
                ]),
              ),
              tt,
            )
    ]
  ]

  pub scan-Shorter :
      (n : ℕ) (rest : Dirs) (seen : Seen)
      → All (Fresh n seen) rest
      → All (Shorter n) (scan_dirs dirs rest seen).1
  unfolding scan_dirs
  scan-Shorter n [] seen h = tt
  scan-Shorter n ((p, es) ∷ rest) seen h = elim (Bool-cases (seen p)) [
    | inl old ↦ rw (old, scan_dirs) (scan-Shorter n rest seen h.1)
    | inr new ↦
        let now = h.0 new in
        rw (new, scan_dirs)
          (All-append (Shorter n) (addition dirs p) _ (addition-Shorter n p now.0 now.1) (
            scan-Shorter n rest (mark p seen) (
              All-map (Fresh n seen) (Fresh n (mark p seen))
                (λ e fresh not_marked. fresh (elim (Bool-cases (seen e.0)) [
                  | inl was ↦ absurd (cc (mark_keeps p e.0 seen was, not_marked))
                  | inr not_seen ↦ not_seen
                ]))
                rest h.1)))
  ]
