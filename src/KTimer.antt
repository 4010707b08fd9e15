-- ===== src/KTimer.antt =====
-- The timer wheel of the kernel: sys/kern/ktimer.c. A `KTimerEvent *` is a number, with its fields
-- as functions from pointers. `none` is a failed ASSERT. The call `(it->cb)(it->arg)` is recorded
-- in `fired`, in call order, and the objects given back to the slab in `freed`. Each operation
-- runs under `timerLock`; the clock is an argument.
pub mod Slot
pub mod Valid
pub mod Timely
mod Tests
use boring_os_ssaha.Prelude.{
  ℕ, zero, suc, ◌+◌, ◌-◌, ◌%◌, ◌^◌, ◌==◌, leb, if◌then◌else◌, Option, none, some, List, [], ◌∷◌,
  ◌++◌, update, remove,
}

-- TIMER_WHEEL_LENGTH
abbrev pub timer_wheel_length : ℕ
timer_wheel_length = 256

-- The statics of ktimer.c, and the fields of the events.
pub record Wheel : Type 0 where
  pub timer_head : ℕ
  pub timer_now : ℕ
  pub timer_slot : ℕ → List ℕ
  pub timeout : ℕ → ℕ
  pub ref_count : ℕ → ℕ
  pub fired : List ℕ
  pub freed : List ℕ

init_slots : ℕ → ℕ → Wheel → Wheel
init_slots zero i w = w
init_slots (suc n) i w = init_slots n (i + 1) (record w { timer_slot = update w.timer_slot i [] })

-- KTimer_Init, at the epoch that KTime_GetEpoch returns.
pub init : ℕ → Wheel → Wheel
init epoch w = init_slots timer_wheel_length 0 (record w { timer_head = 0; timer_now = epoch })

-- The slot that KTimer_Create computes in uint64_t arithmetic.
abbrev pub slot_for : Wheel → ℕ → ℕ
slot_for w timeout = (w.timer_head + timeout + timer_wheel_length - 1) % 2 ^ 64 % timer_wheel_length

-- KTimer_Create, with the event that KTimerEvent_Alloc returns. The code reads timerNow before it takes the
-- lock; here both are one step.
pub create : Wheel → ℕ → ℕ → Wheel
create w timeout evt =
    let slot = slot_for w timeout in
    record w {
      ref_count = update w.ref_count evt 2;
      timeout = update w.timeout evt ((w.timer_now + timeout) % 2 ^ 64);
      timer_slot = update w.timer_slot slot (evt ∷ w.timer_slot slot);
    }

-- KTimer_Retain
pub retain : Wheel → ℕ → Option Wheel
retain w evt =
    if w.ref_count evt == 0
    then none
    else some (record w { ref_count = update w.ref_count evt ((w.ref_count evt + 1) % 2 ^ 64) })

-- KTimer_Release: the last reference gives the event back.
pub release : Wheel → ℕ → Option Wheel
release w evt =
    if w.ref_count evt == 0
    then none
    else some (record w {
      ref_count = update w.ref_count evt ((w.ref_count evt + 2 ^ 64 - 1) % 2 ^ 64);
      freed = if w.ref_count evt == 1 then w.freed ++ (evt ∷ []) else w.freed;
    })

-- KTimer_Cancel: LIST_REMOVE takes the event out of the slot that it stands in.
pub cancel : Wheel → ℕ → Option Wheel
cancel w evt = release (record w { timer_slot = λ i. remove evt (w.timer_slot i) }) evt

-- The body of the loop over a slot, for an event that is due.
expire : Wheel → ℕ → Option Wheel
unfolding release
expire w it =
    release
      (record w {
        fired = w.fired ++ (it ∷ []);
        timer_slot = update w.timer_slot w.timer_head (remove it (w.timer_slot w.timer_head));
      })
      it

dispatch : ℕ → Wheel → ℕ → Option Wheel
unfolding expire
dispatch now w it = if leb (w.timeout it) now then expire w it else some w

-- LIST_FOREACH_SAFE over the slot at the head, as it stood.
pub process_slot : ℕ → List ℕ → Wheel → Option Wheel
process_slot now [] w = some w
process_slot now (it ∷ its) w = elim (dispatch now w it) [
  | none ↦ none
  | some w' ↦ process_slot now its w'
]

-- "Rotate wheel forward"
pub rotate : Wheel → Wheel
rotate w = record w {
  timer_now = (w.timer_now + 1) % 2 ^ 64;
  timer_head = (w.timer_head + 1) % timer_wheel_length;
}

-- One round of `while (now > timerNow)`.
pub tick : ℕ → Wheel → Option Wheel
tick now w = elim (process_slot now (w.timer_slot w.timer_head) w) [
  | none ↦ none
  | some w' ↦ some (rotate w')
]

-- The rounds of the loop: `timerNow` moves by 1 in each, so there are `now - timerNow`.
pub process_ticks : ℕ → ℕ → Wheel → Option Wheel
process_ticks zero now w = some w
process_ticks (suc n) now w = elim (tick now w) [ none ↦ none | some w' ↦ process_ticks n now w' ]

-- KTimer_Process on the CPU `cpu`, at the epoch `now`.
pub process : ℕ → ℕ → Wheel → Option Wheel
process cpu now w = if cpu == 0 then process_ticks (now - w.timer_now) now w else some w
