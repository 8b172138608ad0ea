-- ===== src/Stream/Semaphore.antt =====
-- budgetSem of internal/stream/reader.go, which limits the windows in flight, and hostSem of
-- internal/stream/cdn.go, which has the same code and limits the requests to one host. An operation
-- runs with the mutex held, from where it takes it to where it releases it or waits. A waiter's
-- identity is its goroutine; the flag `ready` belongs to the goroutine, in Callers. A goroutine
-- releases only a slot that it holds, so `held` is a natural number.
pub mod Callers
pub mod Queue
pub mod Invariant
pub mod Moves
pub mod Handover
pub mod Slots
pub mod Sleep
mod Tests
use torbox_fuse_go.Base.{
  ℕ, suc, ◌+◌, ◌-◌, Bool, true, false, ◌&&◌, Option, none, some, List, [], ◌∷◌, if◌then◌else◌, ltb,
  ◌==◌,
}

pub record Waiter : Type 0 where
  pub caller : ℕ
  pub priority : ℕ

pub record Sem : Type 0 where
  pub limit : ℕ
  pub held : ℕ
  pub waiters : List Waiter

unfoldable pub new_budget_sem : ℕ → Sem
new_budget_sem limit = record { limit = limit; held = 0; waiters = [] }

-- The insertion before the first waiter of a lower priority.
unfoldable pub enqueue : Waiter → List Waiter → List Waiter
enqueue w [] = w ∷ []
enqueue w (existing ∷ ws) =
    let rest = enqueue w ws in
    if ltb existing.priority w.priority then w ∷ existing ∷ ws else existing ∷ rest

-- The removal of a waiter whose context is cancelled.
unfoldable pub withdraw : ℕ → List Waiter → List Waiter
withdraw i [] = []
withdraw i (existing ∷ ws) =
    let rest = withdraw i ws in if existing.caller == i then ws else existing ∷ rest

abbrev pub no_waiters : List Waiter → Bool
no_waiters [] = true
no_waiters (w ∷ ws) = false

-- `true` is the fast path: the slot is taken at once.
unfoldable pub acquire : Sem → Waiter → Sem × Bool
acquire s w =
    if ltb s.held s.limit && no_waiters s.waiters
    then (record s { held = suc s.held }, true)
    else (record s { waiters = enqueue w s.waiters }, false)

-- The waiter at the front, if there is one, gets the slot.
abbrev pub grant : Sem → List Waiter → Sem × Option Waiter
grant s [] = (s, none)
grant s (w ∷ ws) = (record s { held = suc s.held; waiters = ws }, some w)

unfoldable pub release : Sem → Sem × Option Waiter
release s = grant (record s { held = s.held - 1 }) s.waiters

-- hostSem is the same code over its own names, with `holding` for `held`.
abbrev pub HostSem : Type 0
HostSem = Sem

abbrev pub host_acquire : HostSem → Waiter → HostSem × Bool
host_acquire = acquire

abbrev pub host_release : HostSem → HostSem × Option Waiter
host_release = release
