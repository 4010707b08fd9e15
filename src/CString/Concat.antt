-- ===== src/CString/Concat.antt =====
-- strcat and strncat of lib/libc/string.c, which has the functions of sys/kern/libc.c besides.
use boring_os_ssaha.Prelude.{ℕ, zero, suc, ◌+◌, ◌==◌, if◌then◌else◌, Option, none, some, update}
use boring_os_ssaha.CString.{Memory, strlen, strcpy}

-- strcat: to the NUL of `s`, and from there on the copy of `append` with its NUL.
unfoldable strcat : ℕ → Memory → ℕ → ℕ → Option Memory
strcat fuel m s append = elim (strlen fuel m s) [
  | none ↦ none
  | some n ↦ strcpy fuel m (s + n) append
]

-- The second loop of strncat, which has `n` rounds left, and the NUL behind it.
append_bytes : ℕ → Memory → ℕ → ℕ → Memory
append_bytes zero m d s = update m d 0
append_bytes (suc n) m d s =
    let rest = append_bytes n (update m d (m s)) (d + 1) (s + 1) in
    if m s == 0 then update (update m d (m s)) d 0 else rest

-- strncat
unfoldable strncat : ℕ → Memory → ℕ → ℕ → ℕ → Option Memory
unfolding append_bytes
strncat fuel m dst src n =
    if n == 0
    then some m
    else elim (strlen fuel m dst) [ none ↦ none | some k ↦ some (append_bytes n m (dst + k) src) ]
