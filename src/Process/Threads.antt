-- ===== src/Process/Threads.antt =====
-- The threads of a process: sys/kern/thread.c.
use boring_os_ssaha.Prelude.{
  ℕ, ◌+◌, ◌-◌, ◌%◌, ◌^◌, ◌==◌, if◌then◌else◌, Option, none, some, List, [], ◌∷◌, ◌++◌, update,
  remove,
}
use boring_os_ssaha.Pthread.{eagain}
use boring_os_ssaha.Pthread.Threads.{syscall_pack}
use boring_os_ssaha.Process.{Procs, retain, release, find, stklen}

-- TID_ANY
abbrev tid_any : ℕ
tid_any = 0xffffffff

-- memset, the number of a new thread, and its kernel stack.
abbrev pub blank_thread : Procs → ℕ → ℕ → ℕ → Procs
blank_thread s thr p stack = record s {
  next_thread_id = update s.next_thread_id p ((s.next_thread_id p + 1) % 2 ^ 64);
  tid = update s.tid thr (s.next_thread_id p);
  thread_ref = update s.thread_ref thr 0;
  proc = update s.proc thr 0;
  kstack = update s.kstack thr stack;
  ustack = update s.ustack thr 0;
  thread_space = update s.thread_space thr 0;
  exit_value = update s.exit_value thr 0;
}

-- The rest of Thread_Create, behind Process_Retain.
abbrev pub enter_thread : Procs → ℕ → ℕ → Procs
enter_thread s thr p = record s {
  proc = update s.proc thr p;
  threads = update s.threads p ((s.threads p + 1) % 2 ^ 64);
  thread_list = update s.thread_list p (s.thread_list p ++ (thr ∷ []));
  thread_space = update s.thread_space thr (s.space p);
  ustack = update s.ustack thr (s.ustack_next p);
  ustack_next = update s.ustack_next p ((s.ustack_next p + stklen) % 2 ^ 64);
  thread_ref = update s.thread_ref thr 1;
}

-- Thread_Create, with the answers of Slab_Alloc and PAlloc_AllocPage; 0 is NULL.
unfoldable pub create_thread : Procs → ℕ → ℕ → ℕ → Option (Procs × ℕ)
unfolding retain
create_thread s p thr stack =
    if thr == 0
    then some (s, 0)
    else if p == 0
    then none
    else if stack == 0
    then some
        (record (blank_thread s thr p stack) { freed_threads = s.freed_threads ++ (thr ∷ []) }, 0)
    else elim (retain (blank_thread s thr p stack) p) [
      | none ↦ none
      | some t ↦ some (enter_thread t thr p, thr)
    ]

-- The stack and the space of a new user thread, which come before the process is retained.
abbrev give_stack : Procs → ℕ → ℕ → ℕ → Procs
give_stack s thr p space = record s {
  thread_space = update s.thread_space thr space;
  thread_ref = update s.thread_ref thr 1;
  ustack = update s.ustack thr (s.ustack_next p);
  ustack_next = update s.ustack_next p ((s.ustack_next p + stklen) % 2 ^ 64);
}

abbrev join_process : Procs → ℕ → ℕ → Procs
join_process s thr p = record s {
  proc = update s.proc thr p;
  threads = update s.threads p ((s.threads p + 1) % 2 ^ 64);
  thread_list = update s.thread_list p (s.thread_list p ++ (thr ∷ []));
}

-- Thread_UThreadCreate from the thread `old`; PMap_AllocMap, whose answer is not looked at, maps the stack.
unfoldable create_uthread : Procs → ℕ → ℕ → ℕ → Option (Procs × ℕ)
unfolding retain
create_uthread s old thr stack =
    let p = s.proc old in
    let t = give_stack (blank_thread s thr p stack) thr p (s.thread_space old) in
    if thr == 0
    then some (s, 0)
    else if stack == 0
    then some
        (record (blank_thread s thr p stack) { freed_threads = s.freed_threads ++ (thr ∷ []) }, 0)
    else elim (retain t p) [ none ↦ none | some u ↦ some (join_process u thr p, thr) ]

-- Thread_Destroy, once the last reference is gone.
unfoldable pub destroy_thread : Procs → ℕ → Option Procs
unfolding release
destroy_thread s thr =
    let p = s.proc thr in
    let t = record s {
      threads = update s.threads p ((s.threads p + 2 ^ 64 - 1) % 2 ^ 64);
      thread_list = update s.thread_list p (remove thr (s.thread_list p));
      freed_pages = s.freed_pages ++ (s.kstack thr ∷ []);
    } in
    if s.pid p == 1 then none else elim (release t p) [
      | none ↦ none
      | some u ↦ some (record u { freed_threads = u.freed_threads ++ (thr ∷ []) })
    ]

-- Thread_Retain
unfoldable pub retain_thread : Procs → ℕ → Option Procs
retain_thread s thr =
    if s.thread_ref thr == 0
    then none
    else some (record s { thread_ref = update s.thread_ref thr ((s.thread_ref thr + 1) % 2 ^ 64) })

-- Thread_Release
abbrev pub drop_thread : Procs → ℕ → Procs
drop_thread s thr = record s { thread_ref = update s.thread_ref thr (s.thread_ref thr - 1) }

unfoldable pub release_thread : Procs → ℕ → Option Procs
unfolding destroy_thread
release_thread s thr =
    if s.thread_ref thr == 0
    then none
    else if s.thread_ref thr == 1
    then destroy_thread (drop_thread s thr) thr
    else some (drop_thread s thr)

-- Thread_Lookup
unfoldable pub lookup_thread : Procs → ℕ → ℕ → Option (Procs × ℕ)
unfolding find retain_thread
lookup_thread s p tid =
    let thr = find s.tid tid (s.thread_list p) in
    if thr == 0
    then some (s, 0)
    else elim (retain_thread s thr) [ none ↦ none | some t ↦ some (t, thr) ]

-- Thread_Wait behind the choice of the zombie, which is 0 where there is none; `missing` is the answer
-- then.
reap : Procs → ℕ → ℕ → ℕ → Option (Procs × ℕ)
unfolding release_thread
reap s p thr missing =
    let t = record s { zombie_queue = update s.zombie_queue p (remove thr (s.zombie_queue p)) } in
    if thr == 0 then some (s, missing) else elim (release_thread t thr) [
      | none ↦ none
      | some u ↦ some (u, syscall_pack 0 (s.exit_value thr))
    ]

-- TAILQ_FIRST
abbrev head : List ℕ → ℕ
head [] = 0
head (x ∷ xs) = x

-- Thread_Wait in a thread of the process `p`. An exit value of more than 32 bits is taken whole.
unfoldable wait_thread : Procs → ℕ → ℕ → Option (Procs × ℕ)
unfolding reap find
wait_thread s p tid =
    if p == 0
    then none
    else if tid == tid_any
    then reap s p (head (s.zombie_queue p)) (syscall_pack eagain 0)
    else reap s p (find s.tid tid (s.zombie_queue p)) 0
