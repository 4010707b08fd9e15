-- ===== src/WaitChannel/Tests.antt =====
-- Two sleepers of a channel are woken.
use boring_os_ssaha.Prelude.{[], ◌∷◌, update}
use boring_os_ssaha.Sched.{null, running, waiting, ready, Sched}
use boring_os_ssaha.WaitChannel.{WaitChannel}

abbrev machine : Sched
machine = record {
  wait_queue = 12 ∷ 13 ∷ [];
  runnable_queue = [];
  cur_proc = λ c. 11;
  sched_state = update (update (update (λ t. null) 11 running) 12 waiting) 13 waiting;
  proc = λ t. 5;
  ref_count = λ t. 2;
  ctx_switches = λ t. 0;
  wait_time = λ t. 0;
  wait_start = λ t. 50;
  destroyed = [];
  proc_state = λ p. ready;
  parent = λ p. 0;
  threads = λ p. 3;
  children_list = λ p. [];
  zombie_proc = λ p. [];
  zombie_queue = λ p. [];
}

abbrev channel : WaitChannel
channel = record { chan_queue = 13 ∷ 12 ∷ [] }
