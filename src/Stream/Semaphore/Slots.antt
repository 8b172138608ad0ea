-- ===== src/Stream/Semaphore/Slots.antt =====
-- The slots of a semaphore in every interleaving of its callers.
use torbox_fuse_go.Base.{
  subst, ℕ, zero, suc, ◌≤◌, ◌<◌, ◌≡◌, refl, sym, ◌∙◌, ap, inl, inr, Bool, true, false, ◌&&◌, some,
  List, [], ◌∷◌, map, All, ltb, Bool-cases, arith, get_elem?, set, replicate, sum_of, get_elem?-set,
  get_elem?-set_ne, get_elem?-map,
}
use torbox_fuse_go.Stream.Semaphore.{Waiter, new_budget_sem, enqueue, acquire, release, no_waiters}
use torbox_fuse_go.Stream.Semaphore.Callers.{
  enter_with, outside, waiting, inside, Callers, wake, give_up, enter, resume, leave, Step, enters,
  resumes, leaves, Reach, here, next,
}
use torbox_fuse_go.Stream.Semaphore.Queue.{InOrder, Absent, withdraw-enqueue}
use torbox_fuse_go.Stream.Semaphore.Invariant.{holds, Roused, Queued, Sound, Queued-Absent}
use torbox_fuse_go.Stream.Semaphore.Moves.{moves-Sound, joins-Sound, withdraws-Sound, sleeps-Sound}
use torbox_fuse_go.Stream.Semaphore.Handover.{leave-Sound, held-positive}

no_waiters-nil : (ws : List Waiter) → no_waiters ws ≡ true → ws ≡ []
no_waiters-nil [] e = refl
no_waiters-nil (w ∷ ws) e = absurd (cc)

-- Without a free slot a caller waits, or, if it is cancelled already, turns away.
enter_busy :
    (s : Callers) (i p : ℕ) (done : Bool)
    → get_elem? s.phases i ≡ some outside
    → ((s.sem.waiters ≡ []) → s.sem.limit ≤ s.sem.held)
    → Sound s.sem s.phases
    → let w : Waiter = record { caller = i; priority = p } in
      let after =
        enter_with
          (record (s.sem) { waiters = enqueue w s.sem.waiters }, false)
          s.phases
          i
          p
          done in
      Sound after.sem after.phases
unfolding give_up
enter_busy s i p false e busy h = joins-Sound s.sem s.phases i p e busy h
enter_busy s i p true e busy h =
    let w : Waiter = record { caller = i; priority = p } in
    let absent = Queued-Absent s.phases i s.sem.waiters e refl h.queued in
    rw (withdraw-enqueue w s.sem.waiters absent) (
      moves-Sound s.sem s.phases i s.sem.held s.sem.limit outside e refl refl tt refl h.within
        h.full h)

enter-Sound :
    (s : Callers) (i p : ℕ) (done : Bool)
    → get_elem? s.phases i ≡ some outside
    → Sound s.sem s.phases
    → Sound (enter s i p done).sem (enter s i p done).phases
unfolding enter acquire give_up
enter-Sound s i p done e h =
    elim (Bool-cases (ltb s.sem.held s.sem.limit && no_waiters s.sem.waiters)) [
      | inl free ↦
          let idle = no_waiters-nil s.sem.waiters (ground arith) in
          let slot : s.sem.held < s.sem.limit = ground arith in
          rw free (
            moves-Sound s.sem s.phases i (suc s.sem.held) s.sem.limit inside e refl refl tt
              (omega arith) (omega arith) (inl idle) h)
      | inr busy ↦ rw busy (
          enter_busy s i p done e
            (λ idle.
              let none_left : no_waiters s.sem.waiters ≡ true = ap no_waiters idle in ground arith)
            h)
    ]

resume-Sound :
    (s : Callers) (i p : ℕ) (ready done : Bool)
    → get_elem? s.phases i ≡ some (waiting p ready true)
    → Sound s.sem s.phases
    → Sound (resume s i p ready done).sem (resume s i p ready done).phases
unfolding resume give_up
resume-Sound s i p true done e h =
    moves-Sound s.sem s.phases i s.sem.held s.sem.limit inside e refl refl tt (omega arith) h.within
      h.full h
resume-Sound s i p false true e h = withdraws-Sound s.sem s.phases i p true e h
resume-Sound s i p false false e h = sleeps-Sound s.sem s.phases i p e h

Step-Sound : (s t : Callers) → Step s t → Sound s.sem s.phases → Sound t.sem t.phases
Step-Sound s _ (enters i p done e) h = enter-Sound s i p done e h
Step-Sound s _ (resumes i p ready done e) h = resume-Sound s i p ready done e h
Step-Sound s _ (leaves i e) h = leave-Sound s i e h

-- `n` goroutines that have not called yet.
abbrev pub callers : ℕ → ℕ → Callers
callers limit n = record { sem = new_budget_sem limit; phases = replicate n outside }

new-Sound : (limit n : ℕ) → Sound (new_budget_sem limit) (replicate n outside)
unfolding new_budget_sem
new-Sound limit n = record {
  slots = none_held n;
  within = omega arith;
  full = inl refl;
  in_order = tt;
  no_repeat = tt;
  queued = tt;
  everyone = λ i p aw e. absurd (nobody n i e);
  roused = all_outside n;
}
  where
    none_held : (n : ℕ) → 0 ≡ sum_of holds (replicate n outside)
    none_held zero = refl
    none_held (suc n) = omega (arith, none_held n)

    nobody :
        (n i : ℕ) {p : ℕ} {aw : Bool}
        → get_elem? (replicate n outside) i ≡ some (waiting p false aw)
        → ⊥
    nobody zero i e = cc
    nobody (suc n) zero e = cc
    nobody (suc n) (suc i) e = nobody n i e

    all_outside : (n : ℕ) → All Roused (replicate n outside)
    all_outside zero = tt
    all_outside (suc n) = (tt, all_outside n)

-- In every interleaving of the callers of a new semaphore: the count of held slots is the number of
-- goroutines that hold one or have been granted one, and never above the limit; while anyone waits
-- no slot is free; the queue holds exactly the goroutines that wait without a slot, each once, and
-- by priority; and a goroutine with a granted slot is not asleep.
pub Reach-Sound : (limit n : ℕ) (s : Callers) → Reach (callers limit n) s → Sound s.sem s.phases
Reach-Sound limit n _ here = new-Sound limit n
Reach-Sound limit n _ (next {t} {u} r st) = Step-Sound t u st (Reach-Sound limit n t r)

-- When a goroutine returns a slot while others wait, the waiter at the front has it at once: no other
-- waiter has a higher priority, the number of held slots is as before, the waiter is awake with its
-- slot, and the rest of the queue is as it was.
pub leave_grants :
    (limit n : ℕ) (s : Callers) (i : ℕ) (w : Waiter) (ws : List Waiter)
    → Reach (callers limit n) s
    → get_elem? s.phases i ≡ some inside
    → s.sem.waiters ≡ w ∷ ws
    → All (λ v. v.priority ≤ w.priority) ws
      × ((leave s i).sem.held ≡ s.sem.held)
      × ((leave s i).sem.waiters ≡ ws)
      × (get_elem? (leave s i).phases w.caller ≡ some (waiting w.priority true true))
unfolding leave release
leave_grants limit n s i w ws r e front =
    let h = Reach-Sound limit n s r in
    let (first, _) : InOrder (w ∷ ws) = subst InOrder front h.in_order in
    let absent = Queued-Absent s.phases i s.sem.waiters e refl h.queued in
    let (ne, _) : Absent i (w ∷ ws) = subst (Absent i) front absent in
    let ((aw, q), _) : All (Queued s.phases) (w ∷ ws) =
      subst (All (Queued s.phases)) front h.queued in
    let q' = get_elem?-set_ne s.phases i w.caller outside (λ same. ne (sym same)) ∙ q in
    let positive = held-positive s.sem s.phases i e h in
    rw front (
      first,
      (omega arith),
      refl,
      get_elem?-set (map wake (set s.phases i outside)) w.caller _
          (get_elem?-map wake (set s.phases i outside) w.caller q'),
    )
