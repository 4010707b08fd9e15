-- ===== src/Process.antt =====
-- The life of processes and, in Threads, of their threads: sys/kern/process.c and sys/kern/thread.c. Both
-- are pointers, 0 is NULL, and their fields are functions from pointers. The answers of Slab_Alloc,
-- PMap_NewAS and PAlloc_AllocPage are arguments; what the code gives back to them is recorded in lists.
-- Each function holds the process's lock or procLock where it reads or writes a list. `none` is a failed
-- ASSERT. Handle_Init, and the semaphores, mutexes and condition variables of a process, are not in the
-- state.
pub mod Threads
pub mod Valid
pub mod Spawn
pub mod Release
pub mod Leave
pub mod Trace
mod Tests
use boring_os_ssaha.Prelude.{
  ℕ, zero, suc, ◌+◌, ◌-◌, ◌*◌, ◌%◌, ◌^◌, ◌==◌, if◌then◌else◌, Bool, true, false, Option, none, some,
  List, [], ◌∷◌, ◌++◌, update, remove,
}
use boring_os_ssaha.Pthread.{eagain}
use boring_os_ssaha.Pthread.Threads.{syscall_pack}

-- MEM_USERSPACE_STKBASE, MEM_USERSPACE_STKLEN
abbrev pub stkbase : ℕ
stkbase = 0x70000000

abbrev pub stklen : ℕ
stklen = 0x10000

pub record Procs : Type 0 where
  pub next_process_id : ℕ
  pub process_list : List ℕ
  -- Processes
  pub pid : ℕ → ℕ
  pub ref_count : ℕ → ℕ
  pub threads : ℕ → ℕ
  pub thread_list : ℕ → List ℕ
  pub next_thread_id : ℕ → ℕ
  pub space : ℕ → ℕ
  pub ustack_next : ℕ → ℕ
  pub parent : ℕ → ℕ
  pub children_list : ℕ → List ℕ
  pub zombie_queue : ℕ → List ℕ
  -- Threads
  pub tid : ℕ → ℕ
  pub thread_ref : ℕ → ℕ
  pub proc : ℕ → ℕ
  pub kstack : ℕ → ℕ
  pub ustack : ℕ → ℕ
  pub thread_space : ℕ → ℕ
  pub exit_value : ℕ → ℕ
  -- What Slab_Free, PAlloc_Release and PMap_DestroyAS were called with
  pub freed_procs : List ℕ
  pub freed_threads : List ℕ
  pub freed_pages : List ℕ
  pub freed_spaces : List ℕ

-- memset and the first assignments of Process_Create.
abbrev pub blank_process : Procs → ℕ → Procs
blank_process s p = record s {
  next_process_id = (s.next_process_id + 1) % 2 ^ 64;
  pid = update s.pid p s.next_process_id;
  ref_count = update s.ref_count p 1;
  threads = update s.threads p 0;
  thread_list = update s.thread_list p [];
  next_thread_id = update s.next_thread_id p 0;
  space = update s.space p 0;
  ustack_next = update s.ustack_next p 0;
  parent = update s.parent p 0;
  children_list = update s.children_list p [];
  zombie_queue = update s.zombie_queue p [];
}

-- Process_Create behind PMap_NewAS. The list of children is initialised after the insertion into that
-- of the parent.
abbrev pub enter_process : Procs → ℕ → ℕ → ℕ → Procs
enter_process s p up space =
    let children =
      if up == 0
      then s.children_list
      else update s.children_list up (s.children_list up ++ (p ∷ [])) in
    record s {
      space = update s.space p space;
      ustack_next = update s.ustack_next p stkbase;
      parent = update s.parent p up;
      children_list = update children p [];
      process_list = s.process_list ++ (p ∷ []);
    }

-- Process_Create, with the answers of Slab_Alloc and PMap_NewAS; 0 is NULL.
pub create : Procs → ℕ → ℕ → ℕ → Procs × ℕ
create s up p space =
    if p == 0
    then (s, 0)
    else if space == 0
    then (record (blank_process s p) { freed_procs = s.freed_procs ++ (p ∷ []) }, 0)
    else (enter_process (blank_process s p) p up space, p)

-- Process_Destroy
pub destroy : Procs → ℕ → Procs
destroy s p = record s {
  freed_spaces = s.freed_spaces ++ (s.space p ∷ []);
  process_list = remove p s.process_list;
  freed_procs = s.freed_procs ++ (p ∷ []);
}

-- Process_Retain
pub retain : Procs → ℕ → Option Procs
retain s p =
    if s.ref_count p == 0
    then none
    else some (record s { ref_count = update s.ref_count p ((s.ref_count p + 1) % 2 ^ 64) })

-- Process_Release
abbrev pub drop_process : Procs → ℕ → Procs
drop_process s p = record s { ref_count = update s.ref_count p (s.ref_count p - 1) }

pub release : Procs → ℕ → Option Procs
unfolding destroy
release s p =
    if s.ref_count p == 0
    then none
    else some (if s.ref_count p == 1 then destroy (drop_process s p) p else drop_process s p)

-- The loops of Process_Lookup and Thread_Lookup: the first element of a list with a number; 0 is NULL.
pub find : (ℕ → ℕ) → ℕ → List ℕ → ℕ
find number_of number [] = 0
find number_of number (x ∷ xs) =
    let rest = find number_of number xs in if number_of x == number then x else rest

-- Process_Lookup
pub lookup : Procs → ℕ → Option (Procs × ℕ)
unfolding find retain
lookup s pid =
    let p = find s.pid pid s.process_list in
    if p == 0 then some (s, 0) else elim (retain s p) [ none ↦ none | some t ↦ some (t, p) ]

-- Process_Wait, whose body is a dummy.
unfoldable wait : ℕ → Option ℕ
wait pid = if pid == 0 then none else some (syscall_pack 0 (pid * 2 ^ 16))
