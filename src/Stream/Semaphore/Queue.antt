-- ===== src/Stream/Semaphore/Queue.antt =====
-- The queue of waiters: its order, and what enqueue and withdraw do to it.
use torbox_fuse_go.Base.{
  ℕ, ◌≤◌, ◌<◌, ◌≡◌, ◌≢◌, refl, sym, ◌∙◌, ap, ◌⊎◌, inl, inr, true, false, List, [], ◌∷◌, ◌++◌, All,
  All-map, if◌then◌else◌, ltb, ◌==◌, Bool-cases, arith,
}
use torbox_fuse_go.Stream.Semaphore.{Waiter, enqueue, withdraw}

-- Priorities do not rise towards the back.
abbrev pub InOrder : List Waiter → Type 0
InOrder [] = Unit
InOrder (w ∷ ws) = All (λ v. v.priority ≤ w.priority) ws × InOrder ws

abbrev pub Absent : ℕ → List Waiter → Type 0
Absent i = All (λ w. w.caller ≢ i)

abbrev pub NoRepeat : List Waiter → Type 0
NoRepeat [] = Unit
NoRepeat (w ∷ ws) = Absent w.caller ws × NoRepeat ws

abbrev pub Among : ℕ → List Waiter → Type 0
Among i [] = ⊥
Among i (w ∷ ws) = (w.caller ≡ i) ⊎ Among i ws

-- The waiters of priority `p` and above, and those below it, each in the order of the queue.
abbrev pub at_least : ℕ → List Waiter → List Waiter
at_least p [] = []
at_least p (w ∷ ws) = if ltb w.priority p then at_least p ws else w ∷ at_least p ws

abbrev pub below : ℕ → List Waiter → List Waiter
below p [] = []
below p (w ∷ ws) = if ltb w.priority p then w ∷ below p ws else below p ws

split_low :
    (p q : ℕ) (ws : List Waiter)
    → q < p
    → All (λ v. v.priority ≤ q) ws
    → (at_least p ws ≡ []) × (below p ws ≡ ws)
split_low p q [] lt h = (refl, refl)
split_low p q (w ∷ ws) lt (le, h) =
    let (none_left, all_left) = split_low p q ws lt h in
    let low : ltb w.priority p ≡ true = ground arith in
    rw low (none_left, ap (λ vs. w ∷ vs) all_left)

-- A new waiter goes behind all waiters of its priority and above and before all of lower priority,
-- and the others keep their order, if the queue is in order.
pub enqueue_position :
    (w : Waiter) (ws : List Waiter)
    → InOrder ws
    → enqueue w ws ≡ at_least w.priority ws ++ w ∷ below w.priority ws
unfolding enqueue
enqueue_position w [] o = refl
enqueue_position w (v ∷ ws) (le, o) = elim (Bool-cases (ltb v.priority w.priority)) [
  | inl low ↦
      let (none_left, all_left) = split_low w.priority v.priority ws (ground arith) le in
      rw (low, none_left, all_left) refl
  | inr high ↦ rw high (ap (λ vs. v ∷ vs) (enqueue_position w ws o))
]

module _ {ℓ} (P : Waiter → Type ℓ) where
  pub All-enqueue : (w : Waiter) (ws : List Waiter) → P w → All P ws → All P (enqueue w ws)
  unfolding enqueue
  All-enqueue w [] h hs = (h, tt)
  All-enqueue w (v ∷ ws) h (hv, hs) = elim (Bool-cases (ltb v.priority w.priority)) [
    | inl low ↦ rw low (h, (hv, hs))
    | inr high ↦ rw high (hv, All-enqueue w ws h hs)
  ]

  pub All-withdraw : (i : ℕ) (ws : List Waiter) → All P ws → All P (withdraw i ws)
  unfolding withdraw
  All-withdraw i [] h = tt
  All-withdraw i (v ∷ ws) (hv, hs) = elim (Bool-cases (v.caller == i)) [
    | inl same ↦ rw same hs
    | inr other ↦ rw other (hv, All-withdraw i ws hs)
  ]

pub enqueue-InOrder : (w : Waiter) (ws : List Waiter) → InOrder ws → InOrder (enqueue w ws)
unfolding enqueue
enqueue-InOrder w [] o = (tt, tt)
enqueue-InOrder w (v ∷ ws) (le, o) = elim (Bool-cases (ltb v.priority w.priority)) [
  | inl low ↦
      let lt : v.priority < w.priority = ground arith in
      rw low (
        (
          (omega arith),
          All-map (λ u. u.priority ≤ v.priority) (λ u. u.priority ≤ w.priority) (λ u h. omega arith)
              ws le,
        ),
        (le, o),
      )
  | inr high ↦
      let not_lt : w.priority ≤ v.priority = ground arith in
      rw high (All-enqueue (λ u. u.priority ≤ v.priority) w ws not_lt le, enqueue-InOrder w ws o)
]

pub withdraw-InOrder : (i : ℕ) (ws : List Waiter) → InOrder ws → InOrder (withdraw i ws)
unfolding withdraw
withdraw-InOrder i [] o = tt
withdraw-InOrder i (v ∷ ws) (le, o) = elim (Bool-cases (v.caller == i)) [
  | inl same ↦ rw same o
  | inr other ↦
      rw other (All-withdraw (λ u. u.priority ≤ v.priority) i ws le, withdraw-InOrder i ws o)
]

pub enqueue-NoRepeat :
    (w : Waiter) (ws : List Waiter) → Absent w.caller ws → NoRepeat ws → NoRepeat (enqueue w ws)
unfolding enqueue
enqueue-NoRepeat w [] a d = (tt, tt)
enqueue-NoRepeat w (v ∷ ws) (ne, a) (f, d) = elim (Bool-cases (ltb v.priority w.priority)) [
  | inl low ↦ rw low ((ne, a), (f, d))
  | inr high ↦
      rw high
        (All-enqueue (λ u. u.caller ≢ v.caller) w ws (λ e. ne (sym e)) f, enqueue-NoRepeat w ws a d)
]

-- After the removal the caller is not in the queue.
pub withdraw-NoRepeat :
    (i : ℕ) (ws : List Waiter) → NoRepeat ws → NoRepeat (withdraw i ws) × Absent i (withdraw i ws)
unfolding withdraw
withdraw-NoRepeat i [] d = (tt, tt)
withdraw-NoRepeat i (v ∷ ws) (f, d) = elim (Bool-cases (v.caller == i)) [
  | inl same ↦ let e : v.caller ≡ i = ground arith in rw same (d, rw e at f)
  | inr other ↦
      let (d', a) = withdraw-NoRepeat i ws d in
      rw other ((All-withdraw (λ u. u.caller ≢ v.caller) i ws f, d'), (ground arith, a))
]

-- A waiter that leaves at once leaves the queue as it found it.
pub withdraw-enqueue :
    (w : Waiter) (ws : List Waiter) → Absent w.caller ws → withdraw w.caller (enqueue w ws) ≡ ws
unfolding withdraw enqueue
withdraw-enqueue w [] a = let e : (w.caller == w.caller) ≡ true = ground arith in rw e refl
withdraw-enqueue w (v ∷ ws) (ne, a) = elim (Bool-cases (ltb v.priority w.priority)) [
  | inl low ↦ let e : (w.caller == w.caller) ≡ true = ground arith in rw (low, withdraw, e) refl
  | inr high ↦
      let e : (v.caller == w.caller) ≡ false = ground (arith, ne) in
      rw (high, withdraw, e) (ap (λ vs. v ∷ vs) (withdraw-enqueue w ws a))
]

pub enqueue-Among :
    (w : Waiter) (ws : List Waiter)
    → Among w.caller (enqueue w ws) × ((i : ℕ) → Among i ws → Among i (enqueue w ws))
unfolding enqueue
enqueue-Among w [] = (inl refl, λ i h. elim h [ ])
enqueue-Among w (v ∷ ws) =
    let (own, others) = enqueue-Among w ws in
    elim (Bool-cases (ltb v.priority w.priority)) [
      | inl low ↦ rw low (inl refl, λ i h. inr h)
      | inr high ↦ rw high (inr own, λ i h. elim h [ inl e ↦ inl e | inr h' ↦ inr (others i h') ])
    ]

pub withdraw-Among : (i j : ℕ) (ws : List Waiter) → i ≢ j → Among j ws → Among j (withdraw i ws)
unfolding withdraw
withdraw-Among i j [] ne h = elim h [ ]
withdraw-Among i j (v ∷ ws) ne h = elim (Bool-cases (v.caller == i)) [
  | inl same ↦
      let e : v.caller ≡ i = ground arith in
      rw same (elim h [ inl e' ↦ absurd (ne (sym e ∙ e')) | inr h' ↦ h' ])
  | inr other ↦ rw other (elim h [ inl e' ↦ inl e' | inr h' ↦ inr (withdraw-Among i j ws ne h') ])
]
