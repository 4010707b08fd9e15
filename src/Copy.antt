-- ===== src/Copy.antt =====
-- The copies between the kernel and a user program: sys/kern/copy.c, with the assembler routines of
-- sys/amd64/support.S. The memory is a function from addresses to bytes; `faults` says of an address
-- whether an access to it ends in a page fault that the kernel cannot serve. A result is the memory
-- and the status.
pub mod Guard
pub mod Bytes
mod Tests
use boring_os_ssaha.Prelude.{
  ℕ, zero, suc, ◌+◌, ◌-◌, ◌==◌, ltb, leb, if◌then◌else◌, Bool, true, false, ◌||◌, update,
}

-- EFAULT, ENAMETOOLONG
abbrev pub efault : ℕ
efault = 0x1BAD0004

abbrev pub enametoolong : ℕ
enametoolong = 0x1BAD0008

-- MEM_USERSPACE_TOP
abbrev pub userspace_top : ℕ
userspace_top = 0x800000000000

-- copy_unsafe: `rep movsb`, and the handler of a fault in it.
pub copy_unsafe : (ℕ → Bool) → (ℕ → ℕ) → ℕ → ℕ → ℕ → (ℕ → ℕ) × ℕ
copy_unsafe faults m to from zero = (m, 0)
copy_unsafe faults m to from (suc len) =
    let rest = copy_unsafe faults (update m to (m from)) (to + 1) (from + 1) len in
    if faults from || faults to then (m, efault) else rest

-- copystr_unsafe, with the value of %rcx behind the first `decq`, so one less than the length.
pub copystr_unsafe : (ℕ → Bool) → (ℕ → ℕ) → ℕ → ℕ → ℕ → (ℕ → ℕ) × ℕ
copystr_unsafe faults m to from zero = (m, enametoolong)
copystr_unsafe faults m to from (suc rcx) =
    let rest = copystr_unsafe faults (update m to (m from)) (to + 1) (from + 1) rcx in
    if faults from || faults to
    then (m, efault)
    else if m from == 0
    then (update m to 0, 0)
    else rest

-- Copy_In
pub copy_in : (ℕ → Bool) → (ℕ → ℕ) → ℕ → ℕ → ℕ → (ℕ → ℕ) × ℕ
copy_in faults m fromuser tokernel len =
    if len == 0
    then (m, 0)
    else if leb userspace_top fromuser
    then (m, efault)
    else if ltb (userspace_top - fromuser) len
    then (m, efault)
    else copy_unsafe faults m tokernel fromuser len

-- Copy_Out
pub copy_out : (ℕ → Bool) → (ℕ → ℕ) → ℕ → ℕ → ℕ → (ℕ → ℕ) × ℕ
copy_out faults m fromkernel touser len =
    if len == 0
    then (m, 0)
    else if leb userspace_top touser
    then (m, efault)
    else if ltb (userspace_top - touser) len
    then (m, efault)
    else copy_unsafe faults m touser fromkernel len

-- Copy_StrIn
pub copy_str_in : (ℕ → Bool) → (ℕ → ℕ) → ℕ → ℕ → ℕ → (ℕ → ℕ) × ℕ
copy_str_in faults m fromuser tokernel len =
    if len == 0
    then (m, 0)
    else if leb userspace_top fromuser
    then (m, efault)
    else if ltb (userspace_top - fromuser) len
    then (m, efault)
    else copystr_unsafe faults m tokernel fromuser (len - 1)

-- Copy_StrOut
pub copy_str_out : (ℕ → Bool) → (ℕ → ℕ) → ℕ → ℕ → ℕ → (ℕ → ℕ) × ℕ
copy_str_out faults m fromkernel touser len =
    if len == 0
    then (m, 0)
    else if leb userspace_top touser
    then (m, efault)
    else if ltb (userspace_top - touser) len
    then (m, efault)
    else copystr_unsafe faults m touser fromkernel (len - 1)
