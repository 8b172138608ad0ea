-- ===== src/Base/Writes.antt =====
-- A list after a write or a map: its entries and its sums.
use Prim.Native.Nat.{ℕ, zero, suc, ◌+◌}
use mathlib.Core.List.{List, [], ◌∷◌, map}
use mathlib.Core.Option.{some}
use mathlib.Core.Logic.{◌≢◌}
use mathlib.Core.Path.{◌≡◌, refl, ap}
use native.Mathlib.Omega.{arith}
use torbox_fuse_go.Base.Tests.{some-injective}
use torbox_fuse_go.Base.Lists.{
  get_elem?, set, sum_of, sum_of-set, get_elem?-lt, get_or_of_get_elem?,
}

module _ {ℓ} {A : Type ℓ} where
  -- A write moves a sum by what it puts in and what it takes out.
  pub sum_of-set-known :
      (f : A → ℕ) (xs : List A) (i : ℕ) (new : A) {old : A}
      → get_elem? xs i ≡ some old
      → sum_of f (set xs i new) + f old ≡ sum_of f xs + f new
  sum_of-set-known f xs i new {old} e =
      let moved = sum_of-set f xs i new old (get_elem?-lt xs i e) in
      omega (arith, ap f (get_or_of_get_elem? xs i old e))

  pub get_elem?-set :
      (xs : List A) (i : ℕ) (v : A) {x : A}
      → get_elem? xs i ≡ some x
      → get_elem? (set xs i v) i ≡ some v
  get_elem?-set [] i v e = absurd (cc)
  get_elem?-set (x ∷ xs) zero v e = refl
  get_elem?-set (x ∷ xs) (suc i) v e = get_elem?-set xs i v e

  pub get_elem?-set_ne :
      (xs : List A) (i j : ℕ) (v : A) → i ≢ j → get_elem? (set xs i v) j ≡ get_elem? xs j
  get_elem?-set_ne [] i j v ne = refl
  get_elem?-set_ne (x ∷ xs) zero zero v ne = absurd (ne refl)
  get_elem?-set_ne (x ∷ xs) zero (suc j) v ne = refl
  get_elem?-set_ne (x ∷ xs) (suc i) zero v ne = refl
  get_elem?-set_ne (x ∷ xs) (suc i) (suc j) v ne = get_elem?-set_ne xs i j v (λ e. ne (omega arith))

  pub get_elem?-map {κ} :
      {B : Type κ} (f : A → B) (xs : List A) (i : ℕ) {x : A}
      → get_elem? xs i ≡ some x
      → get_elem? (map f xs) i ≡ some (f x)
  get_elem?-map f [] i e = absurd (cc)
  get_elem?-map f (x ∷ xs) zero e = ap some (ap f (some-injective _ _ e))
  get_elem?-map f (x ∷ xs) (suc i) e = get_elem?-map f xs i e

  pub sum_of-map {κ} :
      {B : Type κ} (f : A → B) (g : B → ℕ) (h : A → ℕ)
      → ((x : A) → g (f x) ≡ h x)
      → (xs : List A) → sum_of g (map f xs) ≡ sum_of h xs
  sum_of-map f g h e [] = refl
  sum_of-map f g h e (x ∷ xs) = omega (arith, e x, sum_of-map f g h e xs)
