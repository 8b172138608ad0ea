-- ===== src/Base/Dict.antt =====
-- A Go map as an association list. The order of the list is one order in which `range` may visit
-- the map, so a theorem about every list is one about every iteration order.
use Prim.Native.Nat.{ℕ, ◌+◌}
use mathlib.Core.List.{List, [], ◌∷◌}
use mathlib.Core.Logic.{◌≢◌, ite, if_pos, if_neg}
use mathlib.Core.Option.{Option, none, some}
use mathlib.Core.Path.{◌≡◌, refl, sym, ◌∙◌}
use native.Mathlib.Omega.{arith}
use torbox_fuse_go.Base.Lists.{length, sum_of, All, All-zip}

-- No key stands twice.
abbrev pub Distinct {ℓ} : {K V : Type ℓ} → List (K × V) → Type ℓ
Distinct [] = Unit
Distinct {K} {V} ((k, v) ∷ m) = All (λ (e : K × V). e.0 ≢ k) m × Distinct m

abbrev pub count_at {ℓ} : {V : Type ℓ} → Option V → ℕ
count_at none = 0
count_at (some v) = 1

-- A measure of the values, over the whole map and at a result of a lookup.
module _ {ℓ} {V : Type ℓ} (f : V → ℕ) where
  abbrev pub weight : {K : Type ℓ} → List (K × V) → ℕ
  weight = sum_of (λ e. f e.1)

  abbrev pub weight_at : Option V → ℕ
  weight_at none = 0
  weight_at (some v) = f v

module _ {ℓ} {K V : Type ℓ} (dec : Discrete K) where
  -- `v, ok := m[k]`
  unfoldable pub lookup : K → List (K × V) → Option V
  lookup k [] = none
  lookup k ((j, v) ∷ m) = ite (dec j k) (some v) (lookup k m)

  -- `m[k] = v`
  unfoldable pub insert : K → V → List (K × V) → List (K × V)
  insert k v [] = (k, v) ∷ []
  insert k v ((j, w) ∷ m) = ite (dec j k) ((k, v) ∷ m) ((j, w) ∷ insert k v m)

  -- `delete(m, k)`
  unfoldable pub delete : K → List (K × V) → List (K × V)
  delete k [] = []
  delete k ((j, w) ∷ m) = ite (dec j k) m ((j, w) ∷ delete k m)

  pub lookup-insert :
      (k j : K) (v : V) (m : List (K × V))
      → lookup j (insert k v m) ≡ ite (dec k j) (some v) (lookup j m)
  unfolding lookup insert
  lookup-insert k j v [] = refl
  lookup-insert k j v ((i, w) ∷ m) = ground (arith, lookup-insert k j v m)

  pub lookup-delete_ne : (k j : K) (m : List (K × V)) → k ≢ j → lookup j (delete k m) ≡ lookup j m
  unfolding lookup delete
  lookup-delete_ne k j [] h = refl
  lookup-delete_ne k j ((i, w) ∷ m) h = ground (arith, lookup-delete_ne k j m)

  pub lookup_absent : (k : K) (m : List (K × V)) → All (λ e. e.0 ≢ k) m → lookup k m ≡ none
  unfolding lookup
  lookup_absent k [] h = refl
  lookup_absent k ((i, w) ∷ m) h = ground (arith, lookup_absent k m h.1, h.0)

  pub lookup-delete_self : (k : K) (m : List (K × V)) → Distinct m → lookup k (delete k m) ≡ none
  unfolding lookup delete
  lookup-delete_self k [] h = refl
  lookup-delete_self k ((i, w) ∷ m) h =
      ground (arith, lookup_absent i m h.0, lookup-delete_self k m h.1)

  module _ {κ} (P : K × V → Type κ) where
    pub All-lookup : (k : K) (m : List (K × V)) {v : V} → All P m → lookup k m ≡ some v → P (k, v)
    unfolding lookup
    All-lookup k [] h e = absurd (cc)
    All-lookup k ((i, w) ∷ m) {v} h e = elim (dec i k) [
      | yes p ↦ ground (arith, h.0)
      | no p ↦ All-lookup k m h.1 (ground arith)
    ]

    pub All-insert : (k : K) (v : V) (m : List (K × V)) → P (k, v) → All P m → All P (insert k v m)
    unfolding insert
    All-insert k v [] p h = (p, tt)
    All-insert k v ((i, w) ∷ m) p h = elim (dec i k) [
      | yes e ↦ rw (if_pos _ e) (p, h.1)
      | no e ↦ rw (if_neg _ e) (h.0, All-insert k v m p h.1)
    ]

    pub All-delete : (k : K) (m : List (K × V)) → All P m → All P (delete k m)
    unfolding delete
    All-delete k [] h = tt
    All-delete k ((i, w) ∷ m) h = elim (dec i k) [
      | yes e ↦ rw (if_pos _ e) h.1
      | no e ↦ rw (if_neg _ e) (h.0, All-delete k m h.1)
    ]

  pub Distinct-insert : (k : K) (v : V) (m : List (K × V)) → Distinct m → Distinct (insert k v m)
  unfolding insert
  Distinct-insert k v [] h = (tt, tt)
  Distinct-insert k v ((i, w) ∷ m) h = elim (dec i k) [
    | yes e ↦ rw (if_pos _ e) (rw (← e) h)
    | no e ↦
        rw (if_neg _ e)
          (All-insert (λ x. x.0 ≢ i) k v m (λ q. e (sym q)) h.0, Distinct-insert k v m h.1)
  ]

  pub Distinct-delete : (k : K) (m : List (K × V)) → Distinct m → Distinct (delete k m)
  unfolding delete
  Distinct-delete k [] h = tt
  Distinct-delete k ((i, w) ∷ m) h = elim (dec i k) [
    | yes e ↦ rw (if_pos _ e) h.1
    | no e ↦ rw (if_neg _ e) (All-delete (λ x. x.0 ≢ i) k m h.0, Distinct-delete k m h.1)
  ]

  -- In a map each entry is what a lookup of its key finds.
  pub Distinct-lookup : (m : List (K × V)) → Distinct m → All (λ e. lookup e.0 m ≡ some e.1) m
  unfolding lookup
  Distinct-lookup [] h = tt
  Distinct-lookup ((i, w) ∷ m) h = (
    if_pos (dec i i) refl _ _,
    All-zip (λ e. e.0 ≢ i) (λ e. lookup e.0 m ≡ some e.1) _
        (λ x ne eq. if_neg (dec i x.0) (λ q. ne (sym q)) _ _ ∙ eq) m h.0 (Distinct-lookup m h.1),
  )

  module _ (f : V → ℕ) where
    pub weight-insert :
        (k : K) (v : V) (m : List (K × V))
        → weight f (insert k v m) + weight_at f (lookup k m) ≡ weight f m + f v
    unfolding lookup insert
    weight-insert k v [] = omega arith
    weight-insert k v ((i, w) ∷ m) = ground (arith, weight-insert k v m)

    pub weight-delete :
        (k : K) (m : List (K × V)) → weight f (delete k m) + weight_at f (lookup k m) ≡ weight f m
    unfolding lookup delete
    weight-delete k [] = omega arith
    weight-delete k ((i, w) ∷ m) = ground (arith, weight-delete k m)

  pub length-insert :
      (k : K) (v : V) (m : List (K × V))
      → length (insert k v m) + count_at (lookup k m) ≡ length m + 1
  unfolding lookup insert
  length-insert k v [] = omega arith
  length-insert k v ((i, w) ∷ m) = ground (arith, length-insert k v m)

  pub length-delete :
      (k : K) (m : List (K × V)) → length (delete k m) + count_at (lookup k m) ≡ length m
  unfolding lookup delete
  length-delete k [] = omega arith
  length-delete k ((i, w) ∷ m) = ground (arith, length-delete k m)
