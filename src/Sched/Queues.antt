-- ===== src/Sched/Queues.antt =====
-- The queues of the scheduler agree with the states of the threads.
use boring_os_ssaha.Prelude.{
  ℕ, ◌≡◌, ◌≢◌, refl, arith, if◌then◌else◌, some, [], ◌∷◌, ◌++◌, update, remove, count, count-append,
  count-remove_self, count-remove_ne,
}
use boring_os_ssaha.Sched.{
  runnable, running, waiting, Sched, is_runnable, is_waiting, set_runnable, set_waiting, switch_to,
}

-- A thread stands in the runnable queue, once, exactly when its state is RUNNABLE, and in the wait
-- queue, once, exactly when it is WAITING.
pub record IsSched (s : Sched) : Type 0 where
  pub runs : (t : ℕ) → count t s.runnable_queue ≡ (if is_runnable (s.sched_state t) then 1 else 0)
  pub waits : (t : ℕ) → count t s.wait_queue ≡ (if is_waiting (s.sched_state t) then 1 else 0)

-- Sched_SetRunnable of a thread that is not runnable yet keeps the queues right, and the thread is
-- then the last of the runnable queue.
pub set_runnable-IsSched :
    (s : Sched) (thr now : ℕ)
    → s.sched_state thr ≢ runnable
    → IsSched s
    → IsSched (set_runnable s thr now)
      × ((set_runnable s thr now).runnable_queue ≡ s.runnable_queue ++ (thr ∷ []))
unfolding set_runnable
set_runnable-IsSched s thr now ne v = (
  record {
    runs = λ t. ground (arith, v.runs t, count-append t s.runnable_queue (thr ∷ []));
    waits = λ t.
        ground
          (arith, v.waits t, count-remove_self t s.wait_queue, count-remove_ne t thr s.wait_queue);
  },
  refl,
)

-- Sched_SetWaiting passes its ASSERT exactly for a running thread, and then keeps the queues right and
-- changes no other thread's state.
pub set_waiting-IsSched :
    (s : Sched) (thr now : ℕ)
    → s.sched_state thr ≡ running
    → IsSched s
    → (t : Sched) × (set_waiting s thr now ≡ some t)
      × IsSched t
      × (t.sched_state thr ≡ waiting)
      × ((g : ℕ) → g ≢ thr → t.sched_state g ≡ s.sched_state g)
unfolding set_waiting
set_waiting-IsSched s thr now r v = (
  record s {
    sched_state = update s.sched_state thr waiting;
    wait_queue = s.wait_queue ++ (thr ∷ []);
    wait_start = update s.wait_start thr now;
  },
  rw r refl,
  record {
    runs = λ t. ground (arith, v.runs t);
    waits = λ t. ground (arith, v.waits t, count-append t s.wait_queue (thr ∷ []));
  },
  ground arith,
  λ g ne. ground arith,
)

pub switch_to-IsSched :
    (s : Sched) (cpu next : ℕ)
    → s.sched_state next ≡ runnable
    → s.cur_proc cpu ≢ next
    → IsSched s
    → IsSched (switch_to s cpu next)
unfolding switch_to
switch_to-IsSched s cpu next r ne v = record {
  runs = λ t. ground (
    arith,
    v.runs t,
    v.runs next,
    count-remove_self t s.runnable_queue,
    count-remove_ne t next s.runnable_queue,
    count-append t (remove next s.runnable_queue) (s.cur_proc cpu ∷ []),
  );
  waits = λ t. ground (arith, v.waits t);
}
