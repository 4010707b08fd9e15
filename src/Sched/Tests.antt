-- ===== src/Sched/Tests.antt =====
-- Two CPUs and three threads, and the theorems at them.
use boring_os_ssaha.Prelude.{◌≡◌, refl, arith, some, [], ◌∷◌, update}
use boring_os_ssaha.Sched.{null, runnable, running, ready, Sched}
use boring_os_ssaha.Sched.Queues.{IsSched}
use boring_os_ssaha.Sched.Robin.{schedule_times, line, round_robin}

-- The thread 11 runs on CPU 0, and 12 and 13 are runnable.
abbrev machine : Sched
machine = record {
  wait_queue = [];
  runnable_queue = 12 ∷ 13 ∷ [];
  cur_proc = λ c. 11;
  sched_state = update (update (update (λ t. null) 11 running) 12 runnable) 13 runnable;
  proc = λ t. 5;
  ref_count = λ t. 1;
  ctx_switches = λ t. 0;
  wait_time = λ t. 0;
  wait_start = λ t. 0;
  destroyed = [];
  proc_state = λ p. ready;
  parent = λ p. 0;
  threads = λ p. 3;
  children_list = λ p. [];
  zombie_proc = λ p. [];
  zombie_queue = λ p. [];
}

machine-IsSched : IsSched machine
machine-IsSched = record { runs = λ t. ground arith; waits = λ t. ground arith }

round_robin_example :
    (t : Sched) × (schedule_times 2 machine 0 ≡ some t)
    × (t.sched_state (t.cur_proc 0) ≡ running)
    × (line t 0 ≡ 13 ∷ 11 ∷ 12 ∷ [])
round_robin_example = round_robin 2 machine 0 machine-IsSched refl (omega arith) (omega arith)
