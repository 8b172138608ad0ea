-- ===== src/Stream/Semaphore/Moves.antt =====
-- Steps of one goroutine that leave what holds of a semaphore: it takes or returns a slot, joins the
-- queue, leaves it, or sleeps again.
use torbox_fuse_go.Base.{
  ℕ, ◌+◌, ◌≤◌, ◌≡◌, refl, sym, ◌∙◌, ap, ◌⊎◌, inl, inr, Bool, true, false, some, List, [], All-map,
  All-set, arith, ℕ_discrete, get_elem?, set, sum_of-set-known, get_elem?-set, get_elem?-set_ne,
  some-injective,
}
use torbox_fuse_go.Stream.Semaphore.{Waiter, Sem, enqueue, withdraw}
use torbox_fuse_go.Stream.Semaphore.Callers.{Phase, outside, waiting}
use torbox_fuse_go.Stream.Semaphore.Queue.{
  All-enqueue, All-withdraw, enqueue-InOrder, withdraw-InOrder, enqueue-NoRepeat, withdraw-NoRepeat,
  enqueue-Among, withdraw-Among,
}
use torbox_fuse_go.Stream.Semaphore.Invariant.{
  holds, pending, Roused, Queued, Sound, Queued-Absent, Queued-set, Everyone-set,
}

abbrev pub priority_of : Phase → ℕ
priority_of (waiting p ready awake) = p
priority_of _ = 0

-- A goroutine that is not in the queue, and will not be, takes a slot or leaves none behind.
pub moves-Sound :
    (sem : Sem) (phases : List Phase) (i held' limit' : ℕ) {old : Phase} (new : Phase)
    → get_elem? phases i ≡ some old
    → pending old ≡ false
    → pending new ≡ false
    → Roused new
    → held' + holds old ≡ sem.held + holds new
    → held' ≤ limit'
    → ((sem.waiters ≡ []) ⊎ (limit' ≤ held'))
    → Sound sem phases
    → Sound (record sem { held = held'; limit = limit' }) (set phases i new)
moves-Sound sem phases i held' limit' new e was settled roused same within full s =
    let moved = sum_of-set-known holds phases i new e in
    let absent = Queued-Absent phases i sem.waiters e was s.queued in
    record {
      slots = omega (arith, s.slots);
      within = within;
      full = full;
      in_order = s.in_order;
      no_repeat = s.no_repeat;
      queued = Queued-set phases i new sem.waiters absent s.queued;
      everyone =
          Everyone-set phases i new sem.waiters sem.waiters e (inl settled) (λ j ne h. h)
            s.everyone;
      roused = All-set Roused phases i new s.roused roused;
    }

module _ (sem : Sem) (phases : List Phase) (i p : ℕ) where
  -- A caller joins the queue and sleeps.
  pub joins-Sound :
      get_elem? phases i ≡ some outside
      → ((sem.waiters ≡ []) → sem.limit ≤ sem.held)
      → Sound sem phases
      → Sound
          (record sem { waiters = enqueue (record { caller = i; priority = p }) sem.waiters })
          (set phases i (waiting p false false))
  joins-Sound e busy s =
      let w : Waiter = record { caller = i; priority = p } in
      let new = waiting p false false in
      let moved = sum_of-set-known holds phases i new e in
      let absent = Queued-Absent phases i sem.waiters e refl s.queued in
      let (own, others) = enqueue-Among w sem.waiters in
      record {
        slots = omega (arith, s.slots);
        within = s.within;
        full = inr (elim s.full [ inl idle ↦ busy idle | inr full ↦ full ]);
        in_order = enqueue-InOrder w sem.waiters s.in_order;
        no_repeat = enqueue-NoRepeat w sem.waiters absent s.no_repeat;
        queued =
            All-enqueue (Queued (set phases i new)) w sem.waiters
              (false, get_elem?-set phases i new e)
              (Queued-set phases i new sem.waiters absent s.queued);
        everyone =
            Everyone-set phases i new sem.waiters (enqueue w sem.waiters) e (inr own)
              (λ j ne. others j) s.everyone;
        roused = All-set Roused phases i new s.roused tt;
      }

  -- A caller that waits in vain leaves the queue.
  pub withdraws-Sound :
      (awake : Bool)
      → get_elem? phases i ≡ some (waiting p false awake)
      → Sound sem phases
      → Sound (record sem { waiters = withdraw i sem.waiters }) (set phases i outside)
  unfolding withdraw
  withdraws-Sound awake e s =
      let moved = sum_of-set-known holds phases i outside e in
      let (no_repeat, absent) = withdraw-NoRepeat i sem.waiters s.no_repeat in
      record {
        slots = omega (arith, s.slots);
        within = s.within;
        full = elim s.full [ inl idle ↦ inl (rw idle refl) | inr full ↦ inr full ];
        in_order = withdraw-InOrder i sem.waiters s.in_order;
        no_repeat = no_repeat;
        queued =
            Queued-set phases i outside (withdraw i sem.waiters) absent
              (All-withdraw (Queued phases) i sem.waiters s.queued);
        everyone =
            Everyone-set phases i outside sem.waiters (withdraw i sem.waiters) e (inl refl)
              (λ j ne. withdraw-Among i j sem.waiters ne) s.everyone;
        roused = All-set Roused phases i outside s.roused tt;
      }

  -- A caller that was woken for nothing sleeps again.
  pub sleeps-Sound :
      get_elem? phases i ≡ some (waiting p false true)
      → Sound sem phases
      → Sound sem (set phases i (waiting p false false))
  sleeps-Sound e s =
      let new = waiting p false false in
      let moved = sum_of-set-known holds phases i new e in
      record {
        slots = omega (arith, s.slots);
        within = s.within;
        full = s.full;
        in_order = s.in_order;
        no_repeat = s.no_repeat;
        queued = All-map (Queued phases) (Queued (set phases i new)) still sem.waiters s.queued;
        everyone =
            Everyone-set phases i new sem.waiters sem.waiters e (inr (s.everyone i p true e))
              (λ j ne h. h) s.everyone;
        roused = All-set Roused phases i new s.roused tt;
      }
    where
      still : (w : Waiter) → Queued phases w → Queued (set phases i (waiting p false false)) w
      still w (aw, q) = elim (ℕ_discrete i w.caller) [
        | no ne ↦ (aw, get_elem?-set_ne phases i w.caller _ ne ∙ q)
        | yes same ↦
            let at : waiting p false true ≡ waiting w.priority false aw =
              some-injective _ _ (sym e ∙ ap (get_elem? phases) same ∙ q) in
            let prio : p ≡ w.priority = ap priority_of at in
            (
              false,
              ap (get_elem? (set phases i (waiting p false false))) (sym same)
                  ∙ get_elem?-set phases i _ e
                  ∙ ap (λ k. some (waiting k false false)) prio,
            )
      ]
