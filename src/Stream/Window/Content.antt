-- ===== src/Stream/Window/Content.antt =====
-- What it means that bytes are those of a file: a file's content gives the byte at each offset.
use torbox_fuse_go.Base.{
  ◌∙◌, ℕ, zero, suc, ◌+◌, ◌≡◌, ap, subst, List, [], ◌∷◌, ◌++◌, arith, length, take, drop, get_elem?,
  some, ◌<◌, ◌⊎◌, inl, inr,
}
use torbox_fuse_go.Stream.Window.{FetchError, Body, reads, eof, broken}

module _ (content : ℕ → ℕ) where
  -- The bytes are the file's, from the offset on.
  abbrev pub Matches : ℕ → List ℕ → Type 0
  Matches at [] = Unit
  Matches at (b ∷ bs) = (b ≡ content at) × Matches (suc at) bs

  -- A body that gives the file's bytes, from the offset on, however it ends.
  abbrev pub Honest : ℕ → Body → Type 0
  Honest at (eof bytes) = Matches at bytes
  Honest at (broken bytes) = Matches at bytes
  Honest at (reads bytes cancelled body) = Matches at bytes × Honest (at + length bytes) body

  abbrev pub Truthful : ℕ → FetchError ⊎ Body → Type 0
  Truthful at (inl e) = Unit
  Truthful at (inr body) = Honest at body

  pub Matches-append :
      (at : ℕ) (xs ys : List ℕ)
      → Matches at xs
      → Matches (at + length xs) ys
      → Matches at (xs ++ ys)
  Matches-append at [] ys h k = subst (λ n. Matches n ys) (omega arith) k
  Matches-append at (x ∷ xs) ys (e, h) k =
      (e, Matches-append (suc at) xs ys h (subst (λ n. Matches n ys) (omega arith) k))

  pub Matches-take : (n at : ℕ) (xs : List ℕ) → Matches at xs → Matches at (take n xs)
  Matches-take zero at xs h = tt
  Matches-take (suc n) at [] h = tt
  Matches-take (suc n) at (x ∷ xs) (e, h) = (e, Matches-take n (suc at) xs h)

  pub Matches-drop : (n at : ℕ) (xs : List ℕ) → Matches at xs → Matches (at + n) (drop n xs)
  Matches-drop zero at xs h = subst (λ n. Matches n xs) (omega arith) h
  Matches-drop (suc n) at [] h = tt
  Matches-drop (suc n) at (x ∷ xs) (e, h) =
      subst (λ m. Matches m (drop n xs)) (omega arith) (Matches-drop n (suc at) xs h)

  pub Matches-get :
      (at i : ℕ) (xs : List ℕ)
      → i < length xs
      → Matches at xs
      → get_elem? xs i ≡ some (content (at + i))
  Matches-get at i [] lt h = elim lt [ ]
  Matches-get at zero (x ∷ xs) lt (e, h) =
      ap some (ap (λ b. b) e) ∙ ap (λ n. some (content n)) (omega arith)
  Matches-get at (suc i) (x ∷ xs) lt (e, h) =
      Matches-get (suc at) i xs (omega arith) h ∙ ap (λ n. some (content n)) (omega arith)
