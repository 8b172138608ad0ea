-- ===== src/Paths/Length.antt =====
-- path.Dir of a rooted path is rooted, and shorter, except at the root.
use mathlib.Core.List.{reverse-append}
use torbox_fuse_go.Base.{
  str_eq→eq, ◌||◌, Str-discrete, List-cases, ℕ, suc, ◌+◌, ◌-◌, ◌≤◌, ◌<◌, ◌≡◌, refl, sym, ap, ◌∙◌,
  true, List, [], ◌∷◌, ◌++◌, Str, str, str_eq, ◌⊎◌, inl, inr, length, sum_of, length-append, arith,
  Bool-cases, reverse, ◌==◌,
}
use torbox_fuse_go.Paths.{
  slash, push, segments, go_up, resolve, resolve_all, join_slash, clean, keep_slash, upto_slash,
  dir, Rooted,
}

-- The length of the segments, each with a slash.
abbrev weight : List Str → ℕ
weight = sum_of (λ s. suc (length s))

weight-append : (ss ts : List Str) → weight (ss ++ ts) ≡ weight ss + weight ts
weight-append [] ts = omega arith
weight-append (s ∷ ss) ts = omega (arith, weight-append ss ts)

weight-reverse : (ss : List Str) → weight (reverse ss) ≡ weight ss
weight-reverse [] = refl
weight-reverse (s ∷ ss) =
    ap weight (reverse-append (s ∷ []) ss)
    ∙ omega (arith, weight-append (reverse ss) (s ∷ []), weight-reverse ss)

length-join_slash : (ss : List Str) → length (join_slash ss) ≤ weight ss - 1
unfolding join_slash
length-join_slash [] = omega arith
length-join_slash (s ∷ []) = omega arith
length-join_slash (s ∷ t ∷ ss) =
    omega (arith, length-append s (slash ∷ join_slash (t ∷ ss)), length-join_slash (t ∷ ss))

weight-push : (c : ℕ) (ss : List Str) → weight (push c ss) ≤ weight ss + 2
weight-push c [] = omega arith
weight-push c (s ∷ ss) = omega arith

-- The last segment is empty, and there is another one.
abbrev EndsEmpty : List Str → Type 0
EndsEmpty [] = ⊥
EndsEmpty (s ∷ []) = ⊥
EndsEmpty (s ∷ [] ∷ []) = Unit
EndsEmpty (s ∷ (c ∷ cs) ∷ []) = ⊥
EndsEmpty (s ∷ t ∷ u ∷ ss) = EndsEmpty (t ∷ u ∷ ss)

push-EndsEmpty : (c : ℕ) (ss : List Str) → EndsEmpty ss → EndsEmpty (push c ss)
push-EndsEmpty c [] h = h
push-EndsEmpty c (s ∷ []) h = h
push-EndsEmpty c (s ∷ [] ∷ []) h = h
push-EndsEmpty c (s ∷ (d ∷ ds) ∷ []) h = h
push-EndsEmpty c (s ∷ t ∷ u ∷ ss) h = h

cons-EndsEmpty : (s : Str) (ss : List Str) → EndsEmpty ss → EndsEmpty (s ∷ ss)
cons-EndsEmpty s [] h = h
cons-EndsEmpty s (t ∷ []) h = absurd h
cons-EndsEmpty s (t ∷ u ∷ ss) h = h

weight-push_cons : (c : ℕ) (ss : List Str) → 0 < weight ss → weight (push c ss) ≡ suc (weight ss)
weight-push_cons c [] h = elim h [ ]
weight-push_cons c (s ∷ ss) h = omega arith

weight-segments : (p : Str) → weight (segments p) ≡ suc (length p)
unfolding segments
weight-segments [] = omega arith
weight-segments (c ∷ cs) = elim (Bool-cases (c == slash)) [
  | inl cut ↦ rw cut (omega (arith, weight-segments cs))
  | inr more ↦ rw more (
      omega (
        arith,
        weight-push_cons c (segments cs) (omega (arith, weight-segments cs)),
        weight-segments cs,
      ))
]

length-keep_slash : (c : ℕ) (ds : Str) → length (keep_slash c ds) ≤ suc (length ds)
length-keep_slash c [] = ground arith
length-keep_slash c (d ∷ ds) = omega arith

length-upto_slash : (p : Str) → length (upto_slash p) ≤ length p
unfolding upto_slash
length-upto_slash [] = omega arith
length-upto_slash (c ∷ cs) =
    omega (arith, length-keep_slash c (upto_slash cs), length-upto_slash cs)

weight-go_up : (stack : List Str) → weight (go_up true stack) ≤ weight stack + 3
weight-go_up [] = omega arith
weight-go_up (s ∷ ss) = elim (Bool-cases (str_eq s (str ".."))) [
  | inl up ↦ rw up (omega arith)
  | inr name ↦ rw name (omega arith)
]

weight-resolve :
    (stack : List Str) (s : Str) → weight (resolve true stack s) ≤ weight stack + suc (length s)
weight-resolve stack s = elim (Bool-cases (str_eq s [] || str_eq s (str "."))) [
  | inl skip ↦ rw skip (omega arith)
  | inr more ↦ elim (Bool-cases (str_eq s (str ".."))) [
    | inl up ↦
        rw (more, up)
          (omega
            (arith, weight-go_up stack, ap (λ (x : Str). length x) (str_eq→eq s (str "..") up)))
    | inr name ↦ rw (more, name) (omega arith)
  ]
]

upto_slash-EndsEmpty : (p : Str) → (upto_slash p ≡ []) ⊎ EndsEmpty (segments (upto_slash p))
unfolding upto_slash segments
upto_slash-EndsEmpty [] = inl refl
upto_slash-EndsEmpty (c ∷ cs) = elim (List-cases (upto_slash cs)) [
  | inl none_left ↦ elim (Bool-cases (c == slash)) [
    | inl cut ↦ inr (rw (none_left, cut, cut) tt)
    | inr more ↦ inl (rw (none_left, more) refl)
  ]
  | inr (d, ds, e) ↦ elim (upto_slash-EndsEmpty cs) [
    | inl empty ↦ absurd (cc)
    | inr ends ↦
        let ends' : EndsEmpty (segments (d ∷ ds)) = rw e at ends in
        elim (Bool-cases (c == slash)) [
          | inl cut ↦ inr (rw (e, cut) (cons-EndsEmpty [] (segments (d ∷ ds)) ends'))
          | inr more ↦ inr (rw (e, more) (push-EndsEmpty c (segments (d ∷ ds)) ends'))
        ]
  ]
]

weight-resolve_all :
    (stack segs : List Str)
    → EndsEmpty segs
    → suc (weight (resolve_all true stack segs)) ≤ weight stack + weight segs
unfolding resolve_all Str-discrete
weight-resolve_all stack [] h = absurd h
weight-resolve_all stack (s ∷ []) h = absurd h
weight-resolve_all stack (s ∷ [] ∷ []) h = omega (arith, weight-resolve stack s)
weight-resolve_all stack (s ∷ (c ∷ cs) ∷ []) h = absurd h
weight-resolve_all stack (s ∷ t ∷ u ∷ ss) h =
    omega (arith, weight-resolve stack s, weight-resolve_all (resolve true stack s) (t ∷ u ∷ ss) h)

-- What path.Dir gives for a path from the root.
abbrev from_root : Str → Str
from_root q = slash ∷ join_slash (reverse (resolve_all true [] (segments q)))

dir-from_root : (cs : Str) → dir (slash ∷ cs) ≡ from_root (upto_slash cs)
unfolding dir upto_slash clean
dir-from_root cs = elim (List-cases (upto_slash cs)) [
  | inl empty ↦ rw empty refl
  | inr (d, ds, e) ↦ rw e refl
]

length-from_root : (q : Str) → EndsEmpty (segments q) → length (from_root q) ≤ suc (length q - 1)
length-from_root q ends =
    let stack = resolve_all true [] (segments q) in
    omega (
      arith,
      length-join_slash (reverse stack),
      weight-reverse stack,
      weight-resolve_all [] (segments q) ends,
      weight-segments q,
    )

from_root-nil : from_root [] ≡ slash ∷ []
unfolding segments resolve_all join_slash Str-discrete
from_root-nil = refl

no_ends : EndsEmpty (segments []) → ⊥
unfolding segments
no_ends h = h

pub dir-Rooted : (p : Str) → Rooted p → Rooted (dir p)
dir-Rooted p (cs, e) = (
  join_slash (reverse (resolve_all true [] (segments (upto_slash cs)))),
  ap dir e ∙ dir-from_root cs,
)

-- The directory of a path from the root is the path itself, or shorter.
pub dir-shorter : (p : Str) → Rooted p → (dir p ≡ p) ⊎ (length (dir p) < length p)
dir-shorter p (cs, e) =
    let there : dir p ≡ from_root (upto_slash cs) = ap dir e ∙ dir-from_root cs in
    let size : length (dir p) ≡ length (from_root (upto_slash cs)) =
      ap (λ (x : Str). length x) there in
    let whole : length p ≡ suc (length cs) = ap (λ (x : Str). length x) e in
    let part = length-upto_slash cs in
    elim (upto_slash-EndsEmpty cs) [
      | inl empty ↦ elim (List-cases cs) [
        | inl root ↦
            inl (there ∙ ap from_root empty ∙ from_root-nil ∙ sym (e ∙ ap (λ x. slash ∷ x) root))
        | inr (d, ds, more) ↦ inr (
            omega (
              arith,
              size,
              whole,
              ap (λ (x : Str). length x) more,
              ap (λ (x : Str). length x) (ap from_root empty ∙ from_root-nil),
            ))
      ]
      | inr ends ↦ elim (List-cases (upto_slash cs)) [
        | inl empty ↦ absurd (no_ends (rw empty at ends))
        | inr (d, ds, more) ↦ inr (
            omega (
              arith,
              size,
              whole,
              part,
              length-from_root (upto_slash cs) ends,
              ap (λ (x : Str). length x) more,
            ))
      ]
    ]
