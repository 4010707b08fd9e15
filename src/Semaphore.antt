-- ===== src/Semaphore.antt =====
-- Counting semaphores: sys/kern/semaphore.c. Every function holds the semaphore's lock over its
-- accesses to the count and to the waiters, so each round is one step; Sched_Scheduler, which
-- Semaphore_Acquire calls behind the lock, is the end of a round that sleeps. The name, the list of
-- all semaphores and the debugger's printout of it are left out. `count` is an `int`: its value is
-- `count` minus 2^31, so that 2^31 stands for 0.
pub mod Permits
mod Tests
use boring_os_ssaha.Prelude.{
  ℕ, ◌+◌, ◌-◌, ◌%◌, ◌^◌, ltb, if◌then◌else◌, Bool, true, false, Option, none, some, List, [], ◌∷◌,
  ◌++◌,
}
use boring_os_ssaha.Sched.{Sched, current, set_waiting, set_runnable, scheduler}
use boring_os_ssaha.Sched as sched

abbrev pub no_permits : ℕ
no_permits = 2147483648

pub record Semaphore : Type 0 where
  pub count : ℕ
  pub waiters : List ℕ

-- Semaphore_Init with a `count` that is not negative.
abbrev pub init : ℕ → Semaphore
init count = record { count = no_permits + count; waiters = [] }

-- One round of the loop of Semaphore_Acquire by the thread `cur` on the CPU `cpu`: true if it has
-- returned, false if the thread sleeps, and will go round again when it is woken.
pub acquire_round : Semaphore → Sched → ℕ → ℕ → ℕ → Option ((Semaphore × Sched) × Bool)
acquire_round sema s cur cpu now =
    if ltb no_permits sema.count
    then elim (sched.release s cur) [
      | none ↦ none
      | some t ↦ some ((record sema { count = sema.count - 1 }, t), true)
    ]
    else elim (set_waiting s cur now) [
      | none ↦ none
      | some t ↦ elim (scheduler t cpu) [
        | none ↦ none
        | some u ↦ some ((record sema { waiters = sema.waiters ++ (cur ∷ []) }, u), false)
      ]
    ]

-- Semaphore_Acquire on the CPU `cpu`, until it returns or sleeps for the first time.
pub acquire : Semaphore → Sched → ℕ → ℕ → Option ((Semaphore × Sched) × Bool)
unfolding acquire_round
acquire sema s cpu now = elim (current s cpu) [
  | none ↦ none
  | some (t, cur) ↦ acquire_round sema t cur cpu now
]

wake_first : List ℕ → Semaphore → Sched → ℕ → Semaphore × Sched
wake_first [] sema s now = (sema, s)
wake_first (thr ∷ rest) sema s now = (record sema { waiters = rest }, set_runnable s thr now)

-- Semaphore_Release
pub release : Semaphore → Sched → ℕ → Semaphore × Sched
unfolding wake_first
release sema s now =
    wake_first sema.waiters (record sema { count = (sema.count + 1) % 2 ^ 32 }) s now

-- Semaphore_TryAcquire
pub try_acquire : Semaphore → Semaphore × Bool
try_acquire sema =
    if ltb no_permits sema.count
    then (record sema { count = sema.count - 1 }, true)
    else (sema, false)
