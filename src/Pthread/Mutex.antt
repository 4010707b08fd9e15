-- ===== src/Pthread/Mutex.antt =====
-- Mutexes, over the interleavings of the threads at one `pthread_mutex_t`. `slot` is that variable, 0
-- is NULL, and `lock` has the words of the objects. CoreMutex_Lock and CoreMutex_Unlock of
-- lib/libc/core/mutex.c are the loop and the release on one object.
pub mod Exclusion
pub mod Lazy
use boring_os_ssaha.Prelude.{ℕ, ◌==◌, if◌then◌else◌, ◌≡◌, ◌≢◌, Bool, true, false, update}
use boring_os_ssaha.Pthread.{enomem, ebusy, einval}

-- Where a thread stands in pthread_mutex_lock: outside; in pthread_mutex_init, before malloc and
-- behind it; behind the test for NULL; in the loop on an object; or it has the lock of an object.
pub data Phase : Type 0 where
  outside initing ready : Phase
  made spinning holding : ℕ → Phase

pub record State : Type 0 where
  pub slot : ℕ
  pub lock : ℕ → ℕ
  pub phase : ℕ → Phase

-- "if (*mutex == NULL)"
unfoldable pub check : State → ℕ → State
check s t = record s { phase = update s.phase t (if s.slot == 0 then initing else ready) }

-- The object `obj` of pthread_mutex_init.
pub allocate : State → ℕ → ℕ → State
allocate s t obj = record s { lock = update s.lock obj 0; phase = update s.phase t (made obj) }

-- "*mutex = mtx"
pub publish : State → ℕ → ℕ → State
publish s t obj = record s { slot = obj; phase = update s.phase t ready }

-- "mtx = *mutex"
unfoldable pub read_slot : State → ℕ → State
read_slot s t = record s { phase = update s.phase t (spinning s.slot) }

-- One round of `while (__sync_lock_test_and_set(&mtx->lock, 1) == 1)`.
unfoldable pub test_and_set : State → ℕ → ℕ → State
test_and_set s t obj =
    if s.lock obj == 1
    then s
    else record s { lock = update s.lock obj 1; phase = update s.phase t (holding obj) }

-- The same in pthread_mutex_trylock, which returns EBUSY.
pub try_set : State → ℕ → ℕ → State × ℕ
try_set s t obj =
    if s.lock obj == 1
    then (record s { phase = update s.phase t outside }, ebusy)
    else (record s { lock = update s.lock obj 1; phase = update s.phase t (holding obj) }, 0)

-- pthread_mutex_unlock on a slot that is not NULL.
pub unlock : State → ℕ → State
unlock s t = record s { lock = update s.lock s.slot 0; phase = update s.phase t outside }

-- The status of pthread_mutex_destroy, and whether the object is freed.
unfoldable pub destroy : State → State × ℕ
destroy s =
    if s.slot == 0
    then (s, einval)
    else if s.lock s.slot == 1
    then (s, ebusy)
    else (record s { slot = 0 }, 0)

-- The steps of the threads. A thread unlocks only what it has locked.
pub data Step (s u : State) : Type 0 where
  checks : (t : ℕ) → s.phase t ≡ outside → u ≡ check s t → Step s u
  allocates : (t obj : ℕ) → s.phase t ≡ initing → obj ≢ 0 → u ≡ allocate s t obj → Step s u
  fails :
      (t : ℕ) → s.phase t ≡ initing → u ≡ record s { phase = update s.phase t outside } → Step s u
  publishes : (t obj : ℕ) → s.phase t ≡ made obj → u ≡ publish s t obj → Step s u
  reads : (t : ℕ) → s.phase t ≡ ready → u ≡ read_slot s t → Step s u
  sets : (t obj : ℕ) → s.phase t ≡ spinning obj → u ≡ test_and_set s t obj → Step s u
  tries : (t obj : ℕ) → s.phase t ≡ spinning obj → u ≡ (try_set s t obj).0 → Step s u
  unlocks : (t obj : ℕ) → s.phase t ≡ holding obj → s.slot ≢ 0 → u ≡ unlock s t → Step s u

pub data Reach (s : State) : State → Type 0 where
  here : Reach s s
  next : {t u : State} → Reach s t → Step t u → Reach s u
