-- ===== src/Sched.antt =====
-- The scheduler: sys/kern/sched.c, with the reference counts of sys/kern/thread.c. Threads and
-- processes are pointers, 0 is NULL, and their fields are functions from pointers. Each function
-- holds `schedLock` over all its accesses to the queues, so it is one step on the state; the clock is
-- an argument, and `none` is a failed ASSERT. The switch of stacks and address spaces itself
-- (Sched_Switch) has no effect on this state.
pub mod Queues
pub mod Robin
pub mod Race
mod Tests
use boring_os_ssaha.Prelude.{
  ℕ, zero, suc, ◌+◌, ◌-◌, ◌%◌, ◌^◌, ◌==◌, if◌then◌else◌, Bool, true, false, Option, none, some,
  List, [], ◌∷◌, ◌++◌, update, remove,
}

-- SCHED_STATE_*
pub data ThreadState : Type 0 where
  null runnable running waiting zombie : ThreadState

-- PROC_STATE_*
pub data ProcState : Type 0 where
  fresh ready dead : ProcState

pub record Sched : Type 0 where
  pub wait_queue : List ℕ
  pub runnable_queue : List ℕ
  pub cur_proc : ℕ → ℕ
  -- Threads
  pub sched_state : ℕ → ThreadState
  pub proc : ℕ → ℕ
  pub ref_count : ℕ → ℕ
  pub ctx_switches : ℕ → ℕ
  pub wait_time : ℕ → ℕ
  pub wait_start : ℕ → ℕ
  pub destroyed : List ℕ
  -- Processes
  pub proc_state : ℕ → ProcState
  pub parent : ℕ → ℕ
  pub threads : ℕ → ℕ
  pub children_list : ℕ → List ℕ
  pub zombie_proc : ℕ → List ℕ
  pub zombie_queue : ℕ → List ℕ

abbrev pub is_running : ThreadState → Bool
is_running running = true
is_running _ = false

abbrev pub is_runnable : ThreadState → Bool
is_runnable runnable = true
is_runnable _ = false

abbrev pub is_waiting : ThreadState → Bool
is_waiting waiting = true
is_waiting _ = false

-- Thread_Retain
unfoldable pub retain : Sched → ℕ → Option Sched
retain s thr =
    if s.ref_count thr == 0
    then none
    else some (record s { ref_count = update s.ref_count thr ((s.ref_count thr + 1) % 2 ^ 64) })

-- Thread_Release. What Thread_Destroy does with the last reference, and its ASSERT, are in Process.Threads;
-- here the thread is only recorded.
unfoldable pub release : Sched → ℕ → Option Sched
release s thr =
    if s.ref_count thr == 0
    then none
    else some (record s {
      ref_count = update s.ref_count thr (s.ref_count thr - 1);
      destroyed = if s.ref_count thr == 1 then s.destroyed ++ (thr ∷ []) else s.destroyed;
    })

-- Sched_Current on the CPU `cpu`.
unfoldable pub current : Sched → ℕ → Option (Sched × ℕ)
current s cpu = elim (retain s (s.cur_proc cpu)) [ none ↦ none | some t ↦ some (t, s.cur_proc cpu) ]

unfoldable pub ready_of : ProcState → ProcState
ready_of fresh = ready
ready_of p = p

-- Sched_SetRunnable
unfoldable pub set_runnable : Sched → ℕ → ℕ → Sched
unfolding ready_of
set_runnable s thr now =
    let slept = is_waiting (s.sched_state thr) in
    record s {
      proc_state = update s.proc_state (s.proc thr) (ready_of (s.proc_state (s.proc thr)));
      wait_time =
          if slept
          then update s.wait_time thr
              ((s.wait_time thr + (now + 2 ^ 64 - s.wait_start thr)) % 2 ^ 64)
          else s.wait_time;
      wait_start = if slept then update s.wait_start thr 0 else s.wait_start;
      wait_queue = if slept then remove thr s.wait_queue else s.wait_queue;
      sched_state = update s.sched_state thr runnable;
      runnable_queue = s.runnable_queue ++ (thr ∷ []);
    }

-- Sched_SetWaiting
unfoldable pub set_waiting : Sched → ℕ → ℕ → Option Sched
set_waiting s thr now =
    if is_running (s.sched_state thr)
    then some (record s {
      sched_state = update s.sched_state thr waiting;
      wait_queue = s.wait_queue ++ (thr ∷ []);
      wait_start = update s.wait_start thr now;
    })
    else none

-- The part of Sched_SetZombie for the last thread of a process. The mutex and the condition
-- variables that it uses have empty bodies (sys/kern/mutex.c, sys/kern/cv.c).
bury : Sched → ℕ → Option Sched
bury s proc =
    let parent = s.parent proc in
    if s.threads proc == 1
    then (if parent == 0
        then none
        else some (record s {
          proc_state = update s.proc_state proc dead;
          children_list = update s.children_list parent (remove proc (s.children_list parent));
          zombie_proc = update s.zombie_proc parent (s.zombie_proc parent ++ (proc ∷ []));
        }))
    else some s

-- Sched_SetZombie at the critical level `level`.
unfoldable pub set_zombie : Sched → ℕ → ℕ → Option Sched
unfolding bury
set_zombie s thr level =
    let proc = s.proc thr in
    if level == 0
    then elim (bury s proc) [
      | none ↦ none
      | some t ↦ some (record t {
        sched_state = update t.sched_state thr zombie;
        zombie_queue = update t.zombie_queue proc (t.zombie_queue proc ++ (thr ∷ []));
      })
    ]
    else none

-- Sched_Scheduler behind the choice of `next`: the queue loses it, and gains the old thread if that
-- was running.
pub switch_to : Sched → ℕ → ℕ → Sched
switch_to s cpu next =
    let prev = s.cur_proc cpu in
    let state = update s.sched_state next running in
    let queue = remove next s.runnable_queue in
    let again = is_running (state prev) in
    record s {
      cur_proc = update s.cur_proc cpu next;
      ctx_switches = update s.ctx_switches next ((s.ctx_switches next + 1) % 2 ^ 64);
      sched_state = if again then update state prev runnable else state;
      runnable_queue = if again then queue ++ (prev ∷ []) else queue;
    }

pub schedule_from : List ℕ → Sched → ℕ → Option Sched
schedule_from [] s cpu = if is_running (s.sched_state (s.cur_proc cpu)) then some s else none
schedule_from (next ∷ rest) s cpu =
    if is_runnable (s.sched_state next) then some (switch_to s cpu next) else none

-- Sched_Scheduler on the CPU `cpu`.
unfoldable pub scheduler : Sched → ℕ → Option Sched
unfolding schedule_from switch_to
scheduler s cpu = schedule_from s.runnable_queue s cpu
