-- ===== src/Base/Lists.antt =====
-- Lists measured by native numbers, sums over them, and predicates on all members.
use Prim.Native.Nat.{ℕ, zero, suc, ◌+◌, ◌-◌, ◌≤◌, ◌<◌, min}
use mathlib.Core.Bool.{Bool, true, false}
use mathlib.Core.List.{List, [], ◌∷◌, ◌++◌}
use mathlib.Core.Option.{Option, none, some}
use mathlib.Core.Logic.{ite, if_pos, if_neg}
use mathlib.Core.Path.{◌≡◌, refl, sym, ap, ◌∙◌}
use native.Mathlib.Decide.{ℕ_discrete}
use native.Mathlib.Omega.{arith}

module _ {ℓ} {A : Type ℓ} where
  abbrev pub length : List A → ℕ
  length [] = 0
  length (x ∷ xs) = suc (length xs)

  abbrev pub get_elem? : List A → ℕ → Option A
  get_elem? [] i = none
  get_elem? (x ∷ xs) zero = some x
  get_elem? (x ∷ xs) (suc i) = get_elem? xs i

  abbrev pub get_or : List A → ℕ → A → A
  get_or [] i d = d
  get_or (x ∷ xs) zero d = x
  get_or (x ∷ xs) (suc i) d = get_or xs i d

  -- A write out of bounds changes nothing.
  abbrev pub set : List A → ℕ → A → List A
  set [] i v = []
  set (x ∷ xs) zero v = v ∷ xs
  set (x ∷ xs) (suc i) v = x ∷ set xs i v

  abbrev pub take : ℕ → List A → List A
  take zero xs = []
  take (suc n) [] = []
  take (suc n) (x ∷ xs) = x ∷ take n xs

  abbrev pub drop : ℕ → List A → List A
  drop zero xs = xs
  drop (suc n) [] = []
  drop (suc n) (x ∷ xs) = drop n xs

  abbrev pub replicate : ℕ → A → List A
  replicate zero a = []
  replicate (suc n) a = a ∷ replicate n a

  unfoldable pub filter : (A → Bool) → List A → List A
  filter p [] = []
  filter p (x ∷ xs) = let rest = filter p xs in elim (p x) [ true ↦ x ∷ rest | false ↦ rest ]

  pub filter_in :
      (p : A → Bool) (x : A) (xs : List A) → p x ≡ true → filter p (x ∷ xs) ≡ x ∷ filter p xs
  unfolding filter
  filter_in p x xs e = ap (λ b. elim b [ true ↦ x ∷ filter p xs | false ↦ filter p xs ]) e

  pub filter_out :
      (p : A → Bool) (x : A) (xs : List A) → p x ≡ false → filter p (x ∷ xs) ≡ filter p xs
  unfolding filter
  filter_out p x xs e = ap (λ b. elim b [ true ↦ x ∷ filter p xs | false ↦ filter p xs ]) e

  abbrev pub sum_of : (A → ℕ) → List A → ℕ
  sum_of f [] = 0
  sum_of f (x ∷ xs) = f x + sum_of f xs

  pub length-append : (xs ys : List A) → length (xs ++ ys) ≡ length xs + length ys
  length-append [] ys = omega arith
  length-append (x ∷ xs) ys = omega (arith, length-append xs ys)

  pub length-set : (xs : List A) (i : ℕ) (v : A) → length (set xs i v) ≡ length xs
  length-set [] i v = refl
  length-set (x ∷ xs) zero v = refl
  length-set (x ∷ xs) (suc i) v = ap suc (length-set xs i v)

  pub length-take : (n : ℕ) (xs : List A) → length (take n xs) ≡ min n (length xs)
  length-take zero xs = omega arith
  length-take (suc n) [] = omega arith
  length-take (suc n) (x ∷ xs) = omega (arith, length-take n xs)

  pub length-drop : (n : ℕ) (xs : List A) → length (drop n xs) ≡ length xs - n
  length-drop zero xs = omega arith
  length-drop (suc n) [] = omega arith
  length-drop (suc n) (x ∷ xs) = omega (arith, length-drop n xs)

  pub get_elem?-some : (xs : List A) (i : ℕ) → i < length xs → (x : A) × (get_elem? xs i ≡ some x)
  get_elem?-some [] i h = elim h [ ]
  get_elem?-some (x ∷ xs) zero h = (x, refl)
  get_elem?-some (x ∷ xs) (suc i) h = get_elem?-some xs i (omega arith)

  pub get_or-out : (xs : List A) (i : ℕ) (d : A) → length xs ≤ i → get_or xs i d ≡ d
  get_or-out [] i d h = refl
  get_or-out (x ∷ xs) zero d h = elim h [ ]
  get_or-out (x ∷ xs) (suc i) d h = get_or-out xs i d (omega arith)

  pub get_or-set :
      (xs : List A) (i j : ℕ) (v d : A)
      → i < length xs
      → get_or (set xs i v) j d ≡ ite (ℕ_discrete i j) v (get_or xs j d)
  get_or-set [] i j v d h = elim h [ ]
  get_or-set (x ∷ xs) zero zero v d h = sym (if_pos (ℕ_discrete zero zero) refl v x)
  get_or-set (x ∷ xs) zero (suc j) v d h =
      sym (if_neg (ℕ_discrete zero (suc j)) (λ e. omega arith) _ _)
  get_or-set (x ∷ xs) (suc i) zero v d h =
      sym (if_neg (ℕ_discrete (suc i) zero) (λ e. omega arith) _ _)
  get_or-set (x ∷ xs) (suc i) (suc j) v d h = elim (ℕ_discrete i j) [
    | yes e ↦
        get_or-set xs i j v d (omega arith)
        ∙ if_pos (ℕ_discrete i j) e _ _
        ∙ sym (if_pos (ℕ_discrete (suc i) (suc j)) (omega arith) _ _)
    | no ne ↦
        get_or-set xs i j v d (omega arith)
        ∙ if_neg (ℕ_discrete i j) ne _ _
        ∙ sym (if_neg (ℕ_discrete (suc i) (suc j)) (λ e. ne (omega arith)) _ _)
  ]

module _ {ℓ κ} {A : Type ℓ} where
  abbrev pub All : (A → Type κ) → List A → Type κ
  All P [] = Unit
  All P (x ∷ xs) = P x × All P xs

module _ {ℓ κ} {A : Type ℓ} (P : A → Type κ) where
  pub All-map {μ} : (Q : A → Type μ) → ((x : A) → P x → Q x) → (xs : List A) → All P xs → All Q xs
  All-map Q f [] h = tt
  All-map Q f (x ∷ xs) h = (f x h.0, All-map Q f xs h.1)

  pub All-append : (xs ys : List A) → All P xs → All P ys → All P (xs ++ ys)
  All-append [] ys h k = k
  All-append (x ∷ xs) ys h k = (h.0, All-append xs ys h.1 k)

  pub All-get : (xs : List A) (i : ℕ) {x : A} → All P xs → get_elem? xs i ≡ some x → P x
  All-get [] i h e = absurd (cc)
  All-get (y ∷ xs) zero {x} h e = ground (arith, h.0)
  All-get (y ∷ xs) (suc i) {x} h e = All-get xs i h.1 e

  pub All-set : (xs : List A) (i : ℕ) (v : A) → All P xs → P v → All P (set xs i v)
  All-set [] i v h k = tt
  All-set (x ∷ xs) zero v h k = (k, h.1)
  All-set (x ∷ xs) (suc i) v h k = (h.0, All-set xs i v h.1 k)

  pub All-zip {μ ν} :
      (Q : A → Type μ) (R : A → Type ν)
      → ((x : A) → P x → Q x → R x)
      → (xs : List A) → All P xs
      → All Q xs
      → All R xs
  All-zip Q R f [] h k = tt
  All-zip Q R f (x ∷ xs) h k = (f x h.0 k.0, All-zip Q R f xs h.1 k.1)

module _ {ℓ} {A : Type ℓ} (f : A → ℕ) where
  pub sum_of-set :
      (xs : List A) (i : ℕ) (v d : A)
      → i < length xs
      → sum_of f (set xs i v) + f (get_or xs i d) ≡ sum_of f xs + f v
  sum_of-set [] i v d h = elim h [ ]
  sum_of-set (x ∷ xs) zero v d h = omega arith
  sum_of-set (x ∷ xs) (suc i) v d h = omega (arith, sum_of-set xs i v d (omega arith))

  pub get_or-le-sum_of : (xs : List A) (i : ℕ) (d : A) → f d ≡ 0 → f (get_or xs i d) ≤ sum_of f xs
  get_or-le-sum_of [] i d h = omega arith
  get_or-le-sum_of (x ∷ xs) zero d h = omega arith
  get_or-le-sum_of (x ∷ xs) (suc i) d h = omega (arith, get_or-le-sum_of xs i d h)

module _ {ℓ} {A : Type ℓ} where
  pub get_elem?-lt : (xs : List A) (i : ℕ) {x : A} → get_elem? xs i ≡ some x → i < length xs
  get_elem?-lt [] i e = absurd (cc)
  get_elem?-lt (x ∷ xs) zero e = omega arith
  get_elem?-lt (x ∷ xs) (suc i) e = omega (arith, get_elem?-lt xs i e)

  pub get_or_of_get_elem? :
      (xs : List A) (i : ℕ) (d : A) {x : A} → get_elem? xs i ≡ some x → get_or xs i d ≡ x
  get_or_of_get_elem? [] i d e = absurd (cc)
  get_or_of_get_elem? (x ∷ xs) zero d e = ground (arith, e)
  get_or_of_get_elem? (x ∷ xs) (suc i) d e = get_or_of_get_elem? xs i d e
