-- ===== src/WaitChannel.antt =====
-- Wait channels: sys/kern/waitchannel.c. A function holds the channel's lock over its accesses to the
-- queue; WaitChannel_Sleep, which is called with the lock held, calls Sched_Scheduler behind it. The
-- list of all channels and the names are left out.
pub mod Wakeup
mod Tests
use boring_os_ssaha.Prelude.{
  ℕ, ◌+◌, ◌-◌, ◌%◌, ◌^◌, if◌then◌else◌, Bool, true, false, Option, none, some, List, [], ◌∷◌, ◌++◌,
}
use boring_os_ssaha.Sched.{Sched, current, set_waiting, set_runnable, scheduler}
use boring_os_ssaha.Sched as sched

-- The queue of a channel
pub record WaitChannel : Type 0 where
  pub chan_queue : List ℕ

-- WaitChannel_Init
abbrev pub init : WaitChannel
init = record { chan_queue = [] }

-- WaitChannel_Destroy: `none` is its ASSERT.
pub destroy : WaitChannel → Option WaitChannel
destroy wchan = elim wchan.chan_queue [ [] ↦ some wchan | _ ∷ _ ↦ none ]

-- WaitChannel_Sleep on the CPU `cpu`, up to the call of Sched_Scheduler.
pub enqueue : WaitChannel → Sched → ℕ → ℕ → Option (WaitChannel × Sched)
enqueue wchan s cpu now = elim (current s cpu) [
  | none ↦ none
  | some (t, thr) ↦ elim (set_waiting t thr now) [
    | none ↦ none
    | some u ↦ some (record { chan_queue = wchan.chan_queue ++ (thr ∷ []) }, u)
  ]
]

-- WaitChannel_Sleep
pub sleep : WaitChannel → Sched → ℕ → ℕ → Option (WaitChannel × Sched)
unfolding enqueue
sleep wchan s cpu now = elim (enqueue wchan s cpu now) [
  | none ↦ none
  | some (w, t) ↦ elim (scheduler t cpu) [ none ↦ none | some u ↦ some (w, u) ]
]

-- What both functions do with a thread that they take from the queue.
pub wake_thread : Sched → ℕ → ℕ → Option Sched
wake_thread s thr now = sched.release (set_runnable s thr now) thr

pub wake_first : List ℕ → Sched → ℕ → Option (WaitChannel × Sched)
wake_first [] s now = some (record { chan_queue = [] }, s)
wake_first (thr ∷ rest) s now = elim (wake_thread s thr now) [
  | none ↦ none
  | some t ↦ some (record { chan_queue = rest }, t)
]

-- WaitChannel_Wake
pub wake : WaitChannel → Sched → ℕ → Option (WaitChannel × Sched)
wake wchan s now = wake_first wchan.chan_queue s now

pub wake_list : List ℕ → Sched → ℕ → Option Sched
wake_list [] s now = some s
wake_list (thr ∷ rest) s now = elim (wake_thread s thr now) [
  | none ↦ none
  | some t ↦ wake_list rest t now
]

-- WaitChannel_WakeAll
pub wake_all : WaitChannel → Sched → ℕ → Option (WaitChannel × Sched)
unfolding wake_list
wake_all wchan s now = elim (wake_list wchan.chan_queue s now) [
  | none ↦ none
  | some t ↦ some (record { chan_queue = [] }, t)
]
