-- ===== src/Base/Results.antt =====
-- Results of Go functions that return a value and an error, and what holds of a value returned.
use mathlib.Core.Path.{◌≡◌, refl, subst}
use native.Mathlib.Omega.{arith}

pub data Result {ℓ κ} (E : Type κ) (A : Type ℓ) : Type (ℓ ⊔ κ) where
  ok : A → Result E A
  err : E → Result E A

infixl 5 ◌>>=◌ ◌>>◌
unfoldable pub ◌>>=◌ {ℓ κ μ} :
    {E : Type μ} {A : Type ℓ} {B : Type κ} → Result E A → (A → Result E B) → Result E B
ok a >>= f = f a
err e >>= f = err e

unfoldable pub ◌>>◌ {κ μ} :
    {E : Type μ} {B : Type κ} → Result E (Unit {0}) → Result E B → Result E B
ok _ >> k = k
err e >> k = err e

pub ok-injective {ℓ κ} :
    {E : Type κ} {A : Type ℓ} (a b : A) → ◌≡◌ {A = Result E A} (ok a) (ok b) → a ≡ b
ok-injective a b h = ground arith

-- What holds of the value, if there is one.
pub record Ensures {ℓ κ μ} {E : Type κ} {A : Type ℓ} (P : A → Type μ) (r : Result E A)
    : Type (ℓ ⊔ κ ⊔ μ) where
  pub holds : (a : A) → r ≡ ok a → P a

module _ {ℓ κ μ} {E : Type κ} {A : Type ℓ} {P : A → Type μ} where
  pub Ensures-ok : (a : A) → P a → Ensures {E = E} P (ok a)
  Ensures-ok a h = record { holds = λ b e. subst P (ok-injective a b e) h }

  pub Ensures-bind {ν} :
      {C : Type ν} (m : Result E C) (f : C → Result E A)
      → ((c : C) → m ≡ ok c → Ensures P (f c))
      → Ensures P (m >>= f)
  unfolding ◌>>=◌
  Ensures-bind (ok c) f h = h c refl
  Ensures-bind (err e) f h = record { holds = λ a x. absurd (cc) }

module _ {ℓ κ μ} {E : Type κ} {A : Type ℓ} {P : A → Type μ} where
  pub Ensures-then :
      (m : Result E (Unit {0})) (k : Result E A) → (m ≡ ok tt → Ensures P k) → Ensures P (m >> k)
  unfolding ◌>>◌
  Ensures-then (ok _) k h = h refl
  Ensures-then (err e) k h = record { holds = λ a x. absurd (cc) }
