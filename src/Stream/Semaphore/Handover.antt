-- ===== src/Stream/Semaphore/Handover.antt =====
-- release: the broadcast, and the slot that goes to the front of the queue.
use torbox_fuse_go.Base.{
  subst, List-cases, ℕ, zero, suc, ◌-◌, ◌≤◌, ◌<◌, ◌≡◌, refl, sym, ◌∙◌, ap, inl, inr, Bool, true,
  false, some, List, [], ◌∷◌, map, All, All-map, All-set, arith, get_elem?, set, sum_of-set-known,
  sum_of-map, get_elem?-map, some-injective,
}
use torbox_fuse_go.Stream.Semaphore.{Waiter, Sem, release}
use torbox_fuse_go.Stream.Semaphore.Callers.{
  Phase, outside, waiting, inside, Callers, wake, leave, make_ready,
}
use torbox_fuse_go.Stream.Semaphore.Queue.{InOrder, NoRepeat}
use torbox_fuse_go.Stream.Semaphore.Invariant.{
  holds, pending, Roused, Queued, Everyone, Sound, Queued-set, Everyone-set,
}
use torbox_fuse_go.Stream.Semaphore.Moves.{moves-Sound, priority_of}

wake-holds : (phase : Phase) → holds (wake phase) ≡ holds phase
wake-holds outside = refl
wake-holds (waiting p true awake) = refl
wake-holds (waiting p false awake) = refl
wake-holds inside = refl

wake-Roused : (phase : Phase) → Roused (wake phase)
wake-Roused outside = tt
wake-Roused (waiting p true awake) = tt
wake-Roused (waiting p false awake) = tt
wake-Roused inside = tt

rouses : (phases : List Phase) → All Roused (map wake phases)
rouses [] = tt
rouses (phase ∷ phases) = (wake-Roused phase, rouses phases)

woken_from :
    (phase : Phase) (p : ℕ) (awake : Bool)
    → wake phase ≡ waiting p false awake
    → (before : Bool) × (phase ≡ waiting p false before)
woken_from outside p awake e = absurd (cc)
woken_from (waiting q true before) p awake e =
    let clash : false ≡ true = ap pending e in absurd (cc)
woken_from (waiting q false before) p awake e =
    (before, ap (λ k. waiting k false before) (ap priority_of e))
woken_from inside p awake e = absurd (cc)

wake-back :
    (phases : List Phase) (i p : ℕ) (awake : Bool)
    → get_elem? (map wake phases) i ≡ some (waiting p false awake)
    → (before : Bool) × (get_elem? phases i ≡ some (waiting p false before))
wake-back [] i p awake e = absurd (cc)
wake-back (phase ∷ phases) zero p awake e =
    let (before, same) = woken_from phase p awake (some-injective _ _ e) in (before, ap some same)
wake-back (phase ∷ phases) (suc i) p awake e = wake-back phases i p awake e

broadcast-Sound : (sem : Sem) (phases : List Phase) → Sound sem phases → Sound sem (map wake phases)
broadcast-Sound sem phases s = record {
  slots = s.slots ∙ sym (sum_of-map wake holds holds wake-holds phases);
  within = s.within;
  full = s.full;
  in_order = s.in_order;
  no_repeat = s.no_repeat;
  queued =
      All-map (Queued phases) (Queued (map wake phases))
        (λ w (aw, q). (true, get_elem?-map wake phases w.caller q)) sem.waiters s.queued;
  everyone = λ i p aw e. let (before, e') = wake-back phases i p aw e in s.everyone i p before e';
  roused = rouses phases;
}

-- The front of the queue gets a slot; the limit that the rest is measured by may be another.
pub grants-Sound :
    (sem : Sem) (phases : List Phase) (w : Waiter) (ws : List Waiter) (limit' : ℕ)
    → sem.waiters ≡ w ∷ ws
    → limit' ≡ suc sem.held
    → Sound sem phases
    → Sound (record { limit = limit'; held = suc sem.held; waiters = ws }) (make_ready phases w)
grants-Sound sem phases w ws limit' front lim s =
    let (first, in_order) : InOrder (w ∷ ws) = subst InOrder front s.in_order in
    let (absent, no_repeat) : NoRepeat (w ∷ ws) = subst NoRepeat front s.no_repeat in
    let ((aw, q), queued) : All (Queued phases) (w ∷ ws) =
      subst (All (Queued phases)) front s.queued in
    let everyone : Everyone phases (w ∷ ws) = subst (Everyone phases) front s.everyone in
    let new = waiting w.priority true true in
    let moved = sum_of-set-known holds phases w.caller new q in
    record {
      slots = omega (arith, s.slots);
      within = omega arith;
      full = inr (omega arith);
      in_order = in_order;
      no_repeat = no_repeat;
      queued = Queued-set phases w.caller new ws absent queued;
      everyone =
          Everyone-set phases w.caller new (w ∷ ws) ws q (inl refl)
            (λ j ne h. elim h [ inl same ↦ absurd (ne same) | inr later ↦ later ]) everyone;
      roused = All-set Roused phases w.caller new s.roused tt;
    }

pub held-positive :
    (sem : Sem) (phases : List Phase) (i : ℕ)
    → get_elem? phases i ≡ some inside
    → Sound sem phases
    → 0 < sem.held
held-positive sem phases i e s =
    let moved = sum_of-set-known holds phases i outside e in omega (arith, s.slots)

pub leave-Sound :
    (s : Callers) (i : ℕ)
    → get_elem? s.phases i ≡ some inside
    → Sound s.sem s.phases
    → Sound (leave s i).sem (leave s i).phases
unfolding leave release
leave-Sound s i e h =
    let positive = held-positive s.sem s.phases i e h in
    let less = s.sem.held - 1 in
    elim (List-cases s.sem.waiters) [
      | inl idle ↦ rw idle (
          rw idle at (
            moves-Sound s.sem s.phases i less s.sem.limit outside e refl refl tt (omega arith)
              (omega (arith, h.within)) (inl idle) h))
      | inr (w, ws, front) ↦
          let full : s.sem.limit ≤ s.sem.held = elim h.full [
            | inl none_left ↦ absurd (cc)
            | inr full ↦ full
          ] in
          let left =
            moves-Sound s.sem s.phases i less less outside e refl refl tt (omega arith)
              (omega arith) (inr (omega arith)) h in
          rw front (
            grants-Sound (record (s.sem) { held = less; limit = less })
              (map wake (set s.phases i outside)) w ws s.sem.limit front (omega (arith, h.within))
              (broadcast-Sound _ _ left))
    ]
