-- ===== src/Stream/Semaphore/Tests.antt =====
-- Three callers of a semaphore of limit 1: one holds the slot, two wait for it.
use torbox_fuse_go.Base.{◌≤◌, ◌≡◌, refl, false, true, some, [], ◌∷◌, ◌++◌, All, get_elem?}
use torbox_fuse_go.Stream.Semaphore.{Waiter, new_budget_sem, acquire, enqueue}
use torbox_fuse_go.Stream.Semaphore.Callers.{
  outside, Callers, waiting, inside, enter, leave, enters, Reach, here, next,
}
use torbox_fuse_go.Stream.Semaphore.Queue.{at_least, below, enqueue_position}
use torbox_fuse_go.Stream.Semaphore.Invariant.{Sound}
use torbox_fuse_go.Stream.Semaphore.Slots.{callers, Reach-Sound, leave_grants}
use torbox_fuse_go.Stream.Semaphore.Sleep.{Unreleased, sleeps_until_release}

abbrev one_in : Callers
one_in = enter (callers 1 3) 0 0 false

abbrev low_waits : Callers
low_waits = enter one_in 1 0 false

abbrev both_wait : Callers
both_wait = enter low_waits 2 1 false

abbrev low : Waiter
low = record { caller = 1; priority = 0 }

abbrev high : Waiter
high = record { caller = 2; priority = 1 }

both_wait-reached : Reach (callers 1 3) both_wait
unfolding enter acquire new_budget_sem enqueue
both_wait-reached =
    next (next (next here (enters 0 0 false refl)) (enters 1 0 false refl)) (enters 2 1 false refl)

Reach-Sound_example : Sound both_wait.sem both_wait.phases
Reach-Sound_example = Reach-Sound 1 3 both_wait both_wait-reached

inside_first : get_elem? both_wait.phases 0 ≡ some inside
unfolding enter acquire new_budget_sem enqueue
inside_first = refl

high_in_front : both_wait.sem.waiters ≡ high ∷ low ∷ []
unfolding enter acquire new_budget_sem enqueue
high_in_front = refl

leave_grants_example :
    All (λ v. v.priority ≤ high.priority) (low ∷ [])
    × ((leave both_wait 0).sem.held ≡ both_wait.sem.held)
    × ((leave both_wait 0).sem.waiters ≡ low ∷ [])
    × (get_elem? (leave both_wait 0).phases 2 ≡ some (waiting 1 true true))
leave_grants_example =
    leave_grants 1 3 both_wait 0 high (low ∷ []) both_wait-reached inside_first high_in_front

enqueue_position_example :
    enqueue high (low ∷ []) ≡ at_least 1 (low ∷ []) ++ high ∷ below 1 (low ∷ [])
enqueue_position_example = enqueue_position high (low ∷ []) (tt, tt)

low_asleep : get_elem? low_waits.phases 1 ≡ some (waiting 0 false false)
unfolding enter acquire new_budget_sem enqueue
low_asleep = refl

high_outside : get_elem? low_waits.phases 2 ≡ some outside
unfolding enter acquire new_budget_sem enqueue
high_outside = refl

sleeps_until_release_example : get_elem? both_wait.phases 1 ≡ some (waiting 0 false false)
sleeps_until_release_example =
    sleeps_until_release low_waits both_wait 1 0 low_asleep
      (Unreleased.enters 2 1 false Unreleased.here high_outside)
