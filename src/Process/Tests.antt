-- ===== src/Process/Tests.antt =====
-- A process that has one thread, and the theorems at it.
use boring_os_ssaha.Prelude.{ℕ, ◌≡◌, refl, arith, Option, some, none, List, [], ◌∷◌, update}
use boring_os_ssaha.Process.{Procs, create, release, retain, destroy}
use boring_os_ssaha.Process.Threads.{create_thread, release_thread, destroy_thread}
use boring_os_ssaha.Process.Valid.{IsProcs}
use boring_os_ssaha.Process.Trace.{
  new_process, new_thread, drop_process, drop_thread, Reach, start, next, Allowed, step,
  Reach-IsProcs,
}

-- The next process is the third one, since the kernel has the first two.
abbrev empty : Procs
empty = record {
  next_process_id = 3;
  process_list = [];
  pid = λ p. 0;
  ref_count = λ p. 0;
  threads = λ p. 0;
  thread_list = λ p. [];
  next_thread_id = λ p. 0;
  space = λ p. 0;
  ustack_next = λ p. 0;
  parent = λ p. 0;
  children_list = λ p. [];
  zombie_queue = λ p. [];
  tid = λ t. 0;
  thread_ref = λ t. 0;
  proc = λ t. 0;
  kstack = λ t. 0;
  ustack = λ t. 0;
  thread_space = λ t. 0;
  exit_value = λ t. 0;
  freed_procs = [];
  freed_threads = [];
  freed_pages = [];
  freed_spaces = [];
}

abbrev made : Procs
made = (create empty 0 64 8192).0

abbrev running : Option Procs
running = step (new_thread 64 128 12288) made

-- With its creator's reference and its only thread gone, the process goes too.
ended : Option Procs → Option Procs
unfolding create_thread release release_thread destroy_thread retain destroy
ended none = none
ended (some s) = elim (step (drop_process 64) s) [ none ↦ none | some t ↦ step (drop_thread 128) t ]

abbrev freed : Option Procs → Option (List ℕ × List ℕ × List ℕ × List ℕ × List ℕ)
freed none = none
freed (some s) =
    some (s.process_list, s.freed_threads, s.freed_pages, s.freed_procs, s.freed_spaces)

all_freed : freed (ended running) ≡ some ([], 128 ∷ [], 12288 ∷ [], 64 ∷ [], 8192 ∷ [])
unfolding ended create create_thread release release_thread destroy_thread retain destroy
all_freed = refl

abbrev fresh : Allowed (new_process 0 64 8192) (λ p. 0) (λ t. 0) empty
fresh = (omega arith, omega arith, refl)

abbrev reached : Reach empty (update (λ p. 0) 64 1) (λ t. 0) made
reached = next (new_process 0 64 8192) start fresh refl

Reach-IsProcs_example : IsProcs (update (λ p. 0) 64 1) (λ t. 0) made
Reach-IsProcs_example =
    Reach-IsProcs empty (update (λ p. 0) 64 1) (λ t. 0) made (refl, λ p. refl) reached
