-- ===== src/State/Tables.antt =====
-- The DELETE statements of internal/state/db.go on a table, and what a SELECT finds behind them.
use torbox_fuse_go.Base.{
  ℕ, ◌+◌, ◌≡◌, refl, Bool, true, false, Option, none, some, List, [], ◌∷◌, Str, Str-discrete,
  if◌then◌else◌, lookup, insert, arith, Bool-cases, inl, inr, All, Distinct,
}

-- An entry of a primary key is there.
abbrev pub is_some {ℓ} : {A : Type ℓ} → Option A → Bool
is_some none = false
is_some (some a) = true

abbrev pub has_key : {V : Type 0} → Str → List (Str × V) → Bool
has_key k m = is_some (lookup Str-discrete k m)

module _ {V : Type 0} (keep : Str → Bool) where
  -- DELETE FROM m WHERE NOT keep(key), and how many rows it affects.
  unfoldable pub retain : List (Str × V) → List (Str × V)
  retain [] = []
  retain (e ∷ m) = let rest = retain m in if keep e.0 then e ∷ rest else rest

  unfoldable pub dropped : List (Str × V) → ℕ
  dropped [] = 0
  dropped (e ∷ m) = (if keep e.0 then 0 else 1) + dropped m

  pub lookup-retain :
      (k : Str) (m : List (Str × V))
      → lookup Str-discrete k (retain m) ≡ (if keep k then lookup Str-discrete k m else none)
  unfolding lookup retain
  lookup-retain k [] = ground arith
  lookup-retain k ((j, v) ∷ m) = elim (Str-discrete j k) [
    | yes e ↦ elim (Bool-cases (keep j)) [
      | inl h ↦ ground (arith, e, h, lookup-retain k m)
      | inr h ↦ ground (arith, e, h, lookup-retain k m)
    ]
    | no ne ↦ elim (Bool-cases (keep j)) [
      | inl h ↦ ground (arith, ne, h, lookup-retain k m)
      | inr h ↦ ground (arith, ne, h, lookup-retain k m)
    ]
  ]

  pub dropped-insert :
      (k : Str) (v : V) (m : List (Str × V))
      → keep k ≡ true
      → dropped (insert Str-discrete k v m) ≡ dropped m
  unfolding insert dropped
  dropped-insert k v [] h = rw h refl
  dropped-insert k v ((j, w) ∷ m) h = elim (Str-discrete j k) [
    | yes e ↦ ground (arith, e, h)
    | no ne ↦ ground (arith, ne, h, dropped-insert k v m h)
  ]

  pub All-retain {κ} : (P : Str × V → Type κ) (m : List (Str × V)) → All P m → All P (retain m)
  unfolding retain
  All-retain P [] h = tt
  All-retain P (e ∷ m) h = elim (Bool-cases (keep e.0)) [
    | inl k ↦ rw k (h.0, All-retain P m h.1)
    | inr k ↦ rw k (All-retain P m h.1)
  ]

  pub Distinct-retain : (m : List (Str × V)) → Distinct m → Distinct (retain m)
  unfolding retain
  Distinct-retain [] h = tt
  Distinct-retain ((j, v) ∷ m) h = elim (Bool-cases (keep j)) [
    | inl k ↦ rw k (All-retain _ m h.0, Distinct-retain m h.1)
    | inr k ↦ rw k (Distinct-retain m h.1)
  ]
