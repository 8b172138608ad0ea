-- ===== src/Stream/Semaphore/Invariant.antt =====
-- What holds of a semaphore and its callers between two steps.
use torbox_fuse_go.Base.{
  subst, ℕ, ◌≤◌, ◌≡◌, ◌≢◌, sym, ◌∙◌, ap, ◌⊎◌, inl, inr, Bool, true, false, some, List, [], All,
  All-map, All-zip, ℕ_discrete, get_elem?, set, sum_of, get_elem?-set, get_elem?-set_ne,
  some-injective,
}
use torbox_fuse_go.Stream.Semaphore.{Waiter, Sem}
use torbox_fuse_go.Stream.Semaphore.Callers.{Phase, waiting, inside}
use torbox_fuse_go.Stream.Semaphore.Queue.{InOrder, Absent, NoRepeat, Among}

-- A granted slot counts as held from the grant on.
abbrev pub holds : Phase → ℕ
holds inside = 1
holds (waiting p true awake) = 1
holds _ = 0

abbrev pub pending : Phase → Bool
pending (waiting p false awake) = true
pending _ = false

-- Who has been granted a slot is not asleep.
abbrev pub Roused : Phase → Type 0
Roused (waiting p true false) = ⊥
Roused _ = Unit

abbrev pub Queued : List Phase → Waiter → Type 0
Queued phases w =
    (awake : Bool) × (get_elem? phases w.caller ≡ some (waiting w.priority false awake))

abbrev pub Everyone : List Phase → List Waiter → Type 0
Everyone phases ws =
    (i p : ℕ) (awake : Bool) → get_elem? phases i ≡ some (waiting p false awake) → Among i ws

pub record Sound (sem : Sem) (phases : List Phase) : Type 0 where
  pub slots : sem.held ≡ sum_of holds phases
  pub within : sem.held ≤ sem.limit
  pub full : (sem.waiters ≡ []) ⊎ (sem.limit ≤ sem.held)
  pub in_order : InOrder sem.waiters
  pub no_repeat : NoRepeat sem.waiters
  pub queued : All (Queued phases) sem.waiters
  pub everyone : Everyone phases sem.waiters
  pub roused : All Roused phases

module _ (phases : List Phase) (i : ℕ) where
  pub Queued-Absent :
      {phase : Phase} (ws : List Waiter)
      → get_elem? phases i ≡ some phase
      → pending phase ≡ false
      → All (Queued phases) ws
      → Absent i ws
  Queued-Absent {phase} ws e p =
      All-map (Queued phases) (λ w. w.caller ≢ i)
        (λ w (aw, q) same.
          let found : some (waiting w.priority false aw) ≡ some phase =
            sym q ∙ ap (get_elem? phases) same ∙ e in
          let at : waiting w.priority false aw ≡ phase = some-injective _ _ found in
          let clash : true ≡ false = ap pending at ∙ p in absurd (cc))
        ws

  pub Queued-set :
      (v : Phase) (ws : List Waiter)
      → Absent i ws
      → All (Queued phases) ws
      → All (Queued (set phases i v)) ws
  Queued-set v ws =
      All-zip (λ w. w.caller ≢ i) (Queued phases) (Queued (set phases i v))
        (λ w ne (aw, q). (aw, get_elem?-set_ne phases i w.caller v (λ e. ne (sym e)) ∙ q)) ws

  pub Everyone-set :
      {phase : Phase} (v : Phase) (ws ws' : List Waiter)
      → get_elem? phases i ≡ some phase
      → ((pending v ≡ false) ⊎ Among i ws')
      → ((j : ℕ) → i ≢ j → Among j ws → Among j ws')
      → Everyone phases ws
      → Everyone (set phases i v) ws'
  Everyone-set v ws ws' e own others all j p aw f = elim (ℕ_discrete i j) [
    | no ne ↦ others j ne (all j p aw (sym (get_elem?-set_ne phases i j v ne) ∙ f))
    | yes same ↦ elim own [
      | inr among ↦ subst (λ k. Among k ws') same among
      | inl settled ↦
          let at : some v ≡ some (waiting p false aw) =
            sym (get_elem?-set phases i v e) ∙ ap (get_elem? (set phases i v)) same ∙ f in
          let clash : false ≡ true = sym settled ∙ ap pending (some-injective _ _ at) in absurd (cc)
    ]
  ]
