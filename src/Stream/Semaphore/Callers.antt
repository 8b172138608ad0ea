-- ===== src/Stream/Semaphore/Callers.antt =====
-- The goroutines at a budgetSem or a hostSem: where each stands in acquire, and their steps. Waiting
-- on the condition variable splits acquire into steps; a broadcast makes every sleeper awake, and
-- only one that is awake takes the mutex again.
use torbox_fuse_go.Base.{
  ℕ, ◌≡◌, Bool, true, false, Option, none, some, List, map, get_elem?, set, if◌then◌else◌,
}
use torbox_fuse_go.Stream.Semaphore.{Waiter, Sem, withdraw, acquire, release}

-- `waiting` is in the loop of acquire: the waiter's priority, its `ready`, and whether the goroutine
-- has been woken since it last slept.
pub data Phase : Type 0 where
  outside : Phase
  waiting : (priority : ℕ) (ready awake : Bool) → Phase
  inside : Phase

pub record Callers : Type 0 where
  pub sem : Sem
  pub phases : List Phase

abbrev pub wake : Phase → Phase
wake (waiting p ready awake) = waiting p ready true
wake phase = phase

-- The end of acquire with an error: the waiter leaves the queue.
unfoldable pub give_up : Callers → ℕ → Callers
give_up s i = record {
  sem = record (s.sem) { waiters = withdraw i s.sem.waiters };
  phases = set s.phases i outside;
}

-- acquire up to its first wait; `done` is whether the context is cancelled.
abbrev pub enter_with : Sem × Bool → List Phase → ℕ → ℕ → Bool → Callers
enter_with (sem, true) phases i p done = record { sem = sem; phases = set phases i inside }
enter_with (sem, false) phases i p done =
    if done
    then give_up (record { sem = sem; phases = phases }) i
    else record { sem = sem; phases = set phases i (waiting p false false) }

unfoldable pub enter : Callers → ℕ → ℕ → Bool → Callers
enter s i p done =
    enter_with (acquire s.sem (record { caller = i; priority = p })) s.phases i p done

-- A round of the loop of acquire, from the return of Wait on: a slot that was granted is taken even
-- if the context is cancelled.
unfoldable pub resume : Callers → ℕ → ℕ → Bool → Bool → Callers
resume s i p true done = record s { phases = set s.phases i inside }
resume s i p false true = give_up s i
resume s i p false false = record s { phases = set s.phases i (waiting p false false) }

-- `w.ready = true`
abbrev pub make_ready : List Phase → Waiter → List Phase
make_ready phases w = set phases w.caller (waiting w.priority true true)

abbrev pub leave_with : Sem × Option Waiter → List Phase → Callers
leave_with (sem, none) phases = record { sem = sem; phases = phases }
leave_with (sem, some w) phases = record { sem = sem; phases = make_ready (map wake phases) w }

-- release by a goroutine that holds a slot, and its broadcast.
unfoldable pub leave : Callers → ℕ → Callers
leave s i = leave_with (release s.sem) (set s.phases i outside)

pub data Step (s : Callers) : Callers → Type 0 where
  enters : (i p : ℕ) (done : Bool) → get_elem? s.phases i ≡ some outside → Step s (enter s i p done)
  resumes :
      (i p : ℕ) (ready done : Bool)
      → get_elem? s.phases i ≡ some (waiting p ready true)
      → Step s (resume s i p ready done)
  leaves : (i : ℕ) → get_elem? s.phases i ≡ some inside → Step s (leave s i)

pub data Reach (s : Callers) : Callers → Type 0 where
  here : Reach s s
  next : {t u : Callers} → Reach s t → Step t u → Reach s u

-- The same at a hostSem.
abbrev pub host_enter : Callers → ℕ → ℕ → Bool → Callers
host_enter = enter

abbrev pub host_resume : Callers → ℕ → ℕ → Bool → Bool → Callers
host_resume = resume

abbrev pub host_leave : Callers → ℕ → Callers
host_leave = leave
