-- ===== src/Pthread/Threads/Table.antt =====
-- What the table of threads finds.
use boring_os_ssaha.Prelude.{
  ℕ, ◌%◌, ◌^◌, ◌≡◌, ◌≢◌, refl, arith, ◌==◌, if◌then◌else◌, none, some, List, [], ◌∷◌, count, update,
}
use boring_os_ssaha.Pthread.Threads.{
  Threads, syscall_pack, syscall_errcode, syscall_value, slot_of, find_tid, self, create, join,
}

-- The thread is in no slot of the table.
abbrev pub Unlinked : Threads → ℕ → Type 0
Unlinked s thr = (i : ℕ) → count thr (s.threads i) ≡ 0

find_tid_other :
    (tid_of : ℕ → ℕ) (thr t v : ℕ) (l : List ℕ)
    → count thr l ≡ 0
    → find_tid (update tid_of thr v) t l ≡ find_tid tid_of t l
unfolding find_tid
find_tid_other tid_of thr t v [] h = refl
find_tid_other tid_of thr t v (x ∷ xs) h = ground (arith, find_tid_other tid_of thr t v xs)

find_tid_twice :
    (tid_of : ℕ → ℕ) (thr t v w : ℕ) (l : List ℕ)
    → count thr l ≡ 0
    → find_tid (update (update tid_of thr v) thr w) t l ≡ find_tid tid_of t l
find_tid_twice tid_of thr t v w l h =
    ground
      (arith, find_tid_other tid_of thr t v l h, find_tid_other (update tid_of thr v) thr t w l h)

-- After pthread_create with a new object and a status without an error, pthread_self in the thread of
-- the identifier that the kernel gave finds the new object, and in all other threads what it found.
pub self-create :
    (s : Threads) (thr status start arg t : ℕ)
    → thr ≢ 0
    → syscall_errcode status ≡ 0
    → Unlinked s thr
    → self (create s thr status start arg).0 t
      ≡ (if syscall_value status == t then some thr else self s t)
unfolding self create find_tid
self-create s thr status start arg t nz ok free = ground (
  arith,
  find_tid_twice s.tid thr t 0 (syscall_value status) (s.threads (slot_of t)) (free (slot_of t)),
)

-- When OSThreadWait fails with a packed error code and no value, pthread_join returns 0, as if it had
-- succeeded, has stored no result and leaves the table as it was.
pub join_hides_error :
    (s : Threads) (thr errcode : ℕ)
    → errcode ≢ 0
    → join s thr (syscall_pack errcode 0) ≡ (s, (0, none))
unfolding join
join_hides_error s thr errcode nz =
    let e : syscall_errcode (syscall_pack errcode 0) ≡ errcode = omega arith in
    let v : syscall_pack errcode 0 % 2 ^ 32 ≡ 0 = omega arith in rw (e, v) (ground arith)
