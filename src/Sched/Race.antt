-- ===== src/Sched/Race.antt =====
-- A thread that is woken between Sched_SetWaiting and Sched_Scheduler, as Semaphore_Acquire and
-- WaitChannel_Sleep call them.
use boring_os_ssaha.Prelude.{
  ℕ, ◌≡◌, ◌≢◌, refl, sym, ◌∙◌, arith, Option, none, some, [], ◌∷◌, ◌++◌, update,
}
use boring_os_ssaha.Sched.{
  runnable, running, waiting, Sched, set_runnable, set_waiting, switch_to, scheduler,
}
use boring_os_ssaha.Sched.Robin.{scheduler_next}

-- The thread `thr` goes to sleep on its CPU, and before that CPU calls Sched_Scheduler the CPU `b`,
-- which runs another thread, wakes it and calls the scheduler.
pub woken : Sched → ℕ → ℕ → ℕ → ℕ → Option Sched
woken s thr b slept woke = elim (set_waiting s thr slept) [
  | none ↦ none
  | some t ↦ scheduler (set_runnable t thr woke) b
]

-- What Sched_SetWaiting leaves of a running thread.
slept_state : Sched → ℕ → ℕ → Sched
slept_state s thr slept = record s {
  sched_state = update s.sched_state thr waiting;
  wait_queue = s.wait_queue ++ (thr ∷ []);
  wait_start = update s.wait_start thr slept;
}

set_waiting-running :
    (s : Sched) (thr slept : ℕ)
    → s.sched_state thr ≡ running
    → set_waiting s thr slept ≡ some (slept_state s thr slept)
unfolding set_waiting slept_state
set_waiting-running s thr slept r = rw r refl

abbrev woken_state : Sched → ℕ → ℕ → ℕ → Sched
woken_state s thr slept woke = set_runnable (slept_state s thr slept) thr woke

woken_queue :
    (s : Sched) (thr slept woke : ℕ)
    → s.runnable_queue ≡ []
    → (woken_state s thr slept woke).runnable_queue ≡ thr ∷ []
unfolding set_runnable slept_state
woken_queue s thr slept woke e = rw e refl

woken_is_runnable :
    (s : Sched) (thr slept woke : ℕ) → (woken_state s thr slept woke).sched_state thr ≡ runnable
unfolding set_runnable slept_state
woken_is_runnable s thr slept woke = ground arith

woken_cur :
    (s : Sched) (thr slept woke c : ℕ) → (woken_state s thr slept woke).cur_proc c ≡ s.cur_proc c
unfolding set_runnable slept_state
woken_cur s thr slept woke c = refl

switched_cur : (s : Sched) (b next a : ℕ) → a ≢ b → (switch_to s b next).cur_proc a ≡ s.cur_proc a
unfolding switch_to
switched_cur s b next a ne = ground arith

switched_to : (s : Sched) (b next : ℕ) → (switch_to s b next).cur_proc b ≡ next
unfolding switch_to
switched_to s b next = ground arith

switched_running :
    (s : Sched) (b next : ℕ) → s.cur_proc b ≢ next → (switch_to s b next).sched_state next ≡ running
unfolding switch_to
switched_running s b next ne = ground arith

-- A running thread `thr` of CPU `a` goes to sleep, no other thread is runnable, and another CPU `b`
-- that runs another thread wakes it before `a` calls Sched_Scheduler: then `b` runs the thread that
-- `a` has not left yet, so both CPUs have it as their current thread.
pub woken_runs_twice :
    (s : Sched) (thr a b slept woke : ℕ)
    → a ≢ b
    → s.cur_proc a ≡ thr
    → s.cur_proc b ≢ thr
    → s.sched_state thr ≡ running
    → s.runnable_queue ≡ []
    → (t : Sched) × (woken s thr b slept woke ≡ some t)
      × (t.cur_proc a ≡ thr)
      × (t.cur_proc b ≡ thr)
      × (t.sched_state thr ≡ running)
unfolding woken
woken_runs_twice s thr a b slept woke ne ca cb r empty =
    let u = woken_state s thr slept woke in
    (
      switch_to u b thr,
      rw (set_waiting-running s thr slept r, woken)
          (scheduler_next u b thr [] (woken_queue s thr slept woke empty)
            (woken_is_runnable s thr slept woke)),
      switched_cur u b thr a ne ∙ woken_cur s thr slept woke a ∙ ca,
      switched_to u b thr,
      switched_running u b thr (λ q. cb (sym (woken_cur s thr slept woke b) ∙ q)),
    )
