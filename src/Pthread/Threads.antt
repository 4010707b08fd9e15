-- ===== src/Pthread/Threads.antt =====
-- The table of threads of a program. A `struct pthread` is a pointer; what malloc and the kernel answer
-- are arguments, and `none` is a call of abort. The table's CoreMutex is held over each access.
pub mod Table
use boring_os_ssaha.Prelude.{
  ℕ, ◌+◌, ◌*◌, ◌/◌, ◌%◌, ◌^◌, ◌==◌, if◌then◌else◌, Option, none, some, List, [], ◌∷◌, ◌++◌, update,
  remove,
}
use boring_os_ssaha.Pthread.{eagain}

-- THREAD_HASH_SLOTS
abbrev pub thread_hash_slots : ℕ
thread_hash_slots = 32

-- SYSCALL_PACK of a 32-bit value, SYSCALL_ERRCODE, SYSCALL_VALUE
abbrev pub syscall_pack : ℕ → ℕ → ℕ
syscall_pack errcode val = errcode * 2 ^ 32 + val

abbrev pub syscall_errcode : ℕ → ℕ
syscall_errcode result = result / 2 ^ 32

abbrev pub syscall_value : ℕ → ℕ
syscall_value result = result % 2 ^ 32

pub record Threads : Type 0 where
  pub threads : ℕ → List ℕ
  pub tid : ℕ → ℕ
  pub entry : ℕ → ℕ
  pub arg : ℕ → ℕ
  pub result : ℕ → ℕ
  pub freed : List ℕ

abbrev pub slot_of : ℕ → ℕ
slot_of tid = tid % thread_hash_slots

-- TAILQ_INSERT_HEAD into the slot of the thread.
abbrev pub enter : Threads → ℕ → ℕ → Threads
enter s thr tid = record s {
  tid = update s.tid thr tid;
  threads = update s.threads (slot_of tid) (thr ∷ s.threads (slot_of tid));
}

-- __pthread_init
unfoldable pub init : Threads → ℕ → ℕ → Option Threads
init s thr tid =
    if thr == 0
    then none
    else some (
        enter
          (record s { threads = λ i. []; entry = update s.entry thr 0; arg = update s.arg thr 0 })
          thr tid)

pub find_tid : (ℕ → ℕ) → ℕ → List ℕ → Option ℕ
find_tid tid_of tid [] = none
find_tid tid_of tid (thr ∷ rest) =
    let later = find_tid tid_of tid rest in if tid_of thr == tid then some thr else later

-- pthread_self in the thread with the identifier `tid`.
pub self : Threads → ℕ → Option ℕ
unfolding find_tid
self s tid = find_tid s.tid tid (s.threads (slot_of tid))

-- pthread_create, with the object that malloc returns and the status of OSThreadCreate.
pub create : Threads → ℕ → ℕ → ℕ → ℕ → Threads × ℕ
create s thr status start_routine arg =
    let t = record s {
      entry = update s.entry thr start_routine;
      arg = update s.arg thr arg;
      result = update s.result thr 0;
      tid = update s.tid thr 0;
    } in
    if thr == 0
    then (s, eagain)
    else if syscall_errcode status == 0
    then (enter t thr (syscall_value status), 0)
    else (record t { freed = t.freed ++ (thr ∷ []) }, syscall_errcode status)

-- pthread_exit, up to OSThreadExit.
unfoldable pub exit : Threads → ℕ → ℕ → Option Threads
unfolding self
exit s tid value = elim (self s tid) [
  | none ↦ none
  | some thr ↦ some (record s { result = update s.result thr value })
]

-- pthread_join, with the status of OSThreadWait: the table, the `int` that it returns, and what it
-- stores through `value_ptr`.
pub join : Threads → ℕ → ℕ → Threads × (ℕ × Option ℕ)
join s thr status =
    if syscall_errcode status == 0
    then (
      record s {
        threads =
            update s.threads (slot_of (s.tid thr)) (remove thr (s.threads (slot_of (s.tid thr))));
        freed = s.freed ++ (thr ∷ []);
      },
      (0, some (s.result thr)),
    )
    else (s, (status % 2 ^ 32, none))
