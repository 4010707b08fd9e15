-- ===== src/Pthread/Cond.antt =====
-- Condition variables. The code takes the internal CoreMutex for each access to the counters, so that
-- each access is one step. A `pthread_cond_t` is a slot: `none` is NULL, and a call on it allocates the
-- object, where `granted` is the answer of malloc. A wait is its parts: the ticket, and the loop that
-- waits for it; between them run the steps of other threads.
pub mod Queue
use boring_os_ssaha.Prelude.{
  ℕ, zero, suc, ◌+◌, ◌-◌, ◌*◌, ◌%◌, ◌^◌, ◌==◌, ltb, if◌then◌else◌, Bool, true, false, Option, none,
  some, List, [], ◌∷◌,
}
use boring_os_ssaha.Pthread.{enomem, etimedout}

-- struct pthread_cond, without its internal lock.
pub record Cond : Type 0 where
  pub enter : ℕ
  pub exit : ℕ

-- The object that pthread_cond_init makes.
abbrev pub fresh : Cond
fresh = record { enter = 0; exit = 0 }

-- pthread_cond_init: the status and the slot.
pub init : Bool → Option Cond → ℕ × Option Cond
init granted slot = if granted then (0, some fresh) else (enomem, slot)

-- pthread_cond_destroy
unfoldable pub destroy : Option Cond → ℕ × Option Cond
destroy slot = (0, none)

-- "if (*cond == NULL)"
pub ensure : Bool → Option Cond → ℕ × Option Cond
unfolding init
ensure granted none = init granted none
ensure granted (some c) = (0, some c)

-- The counters of pthread_cond_wait: the ticket is `level`.
pub take_ticket : Cond → Cond × ℕ
take_ticket c = (record c { enter = (c.enter + 1) % 2 ^ 64 }, c.enter)

-- The test of the loop of pthread_cond_wait: true ends it.
pub is_released : ℕ → Cond → Bool
is_released level c = ltb level c.exit

-- The loop of pthread_cond_timedwait; each round reads `exit`, and the time behind its yield. The
-- result is `rstatus`, or `none` while the thread still waits.
pub timed_loop : ℕ → ℕ → List (ℕ × ℕ) → Option ℕ
timed_loop level endtime [] = none
timed_loop level endtime ((exit, now) ∷ rounds) =
    let rest = timed_loop level endtime rounds in
    if ltb level exit then some 0 else if ltb endtime now then some etimedout else rest

-- The `endtime` of pthread_cond_timedwait.
unfoldable pub end_time : ℕ → ℕ → ℕ
end_time sec nsec = (sec * 1000000000 + nsec) % 2 ^ 64

-- The counters of pthread_cond_signal and pthread_cond_broadcast.
pub signal : Cond → Cond
signal c = record c { exit = (c.exit + 1) % 2 ^ 64 }

pub broadcast : Cond → Cond
broadcast c = record c { exit = c.enter }

-- The two functions on a slot.
on_slot : (Cond → Cond) → ℕ × Option Cond → ℕ × Option Cond
on_slot f (status, none) = (status, none)
on_slot f (status, some c) = (status, some (f c))

unfoldable pub cond_signal : Bool → Option Cond → ℕ × Option Cond
unfolding on_slot ensure
cond_signal granted slot = on_slot signal (ensure granted slot)

unfoldable pub cond_broadcast : Bool → Option Cond → ℕ × Option Cond
unfolding on_slot ensure
cond_broadcast granted slot = on_slot broadcast (ensure granted slot)
