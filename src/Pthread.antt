-- ===== src/Pthread.antt =====
-- The threads of user programs: lib/libc/posix/pthread.c, with the spinning lock of
-- lib/libc/core/mutex.c. Condition variables, mutexes and the table of threads are children; the status
-- codes that they share are here.
pub mod Cond
pub mod Mutex
pub mod Threads
mod Tests
use boring_os_ssaha.Prelude.{ℕ}

-- EINVAL, ENOMEM, EAGAIN, EBUSY, ETIMEDOUT
abbrev pub einval : ℕ
einval = 0x1bad0003

abbrev pub enomem : ℕ
enomem = 0x1bad0005

abbrev pub eagain : ℕ
eagain = 0x1bad000a

abbrev pub ebusy : ℕ
ebusy = 0x1bad000b

abbrev pub etimedout : ℕ
etimedout = 0x1bad0010
