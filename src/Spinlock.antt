-- ===== src/Spinlock.antt =====
-- Spinlocks: sys/kern/spinlock.c. The state holds one lock, and for each CPU where it stands in
-- Spinlock_Lock or Spinlock_Unlock. The functions are the stretches of that code between two
-- accesses that another CPU can come between: one round of the `while` loop around the atomic
-- swap, the code behind the loop, and the two halves of the unlocking.
pub mod Race
pub mod Exclusion
mod Tests
use boring_os_ssaha.Prelude.{
  ℕ, zero, suc, ◌+◌, ◌-◌, ◌%◌, ◌^◌, ◌<◌, ◌≡◌, ◌==◌, if◌then◌else◌, ◌&&◌, Bool, true, false, Option,
  none, some, List, [], ◌∷◌, ◌++◌, update, remove,
}

-- `lock->type`
pub data Kind : Type 0 where
  normal recursive : Kind

abbrev pub is_recursive : Kind → Bool
is_recursive normal = false
is_recursive recursive = true

-- Where a CPU stands: outside of both functions; in the loop; behind it, the swap won; in the
-- unlocking, with `cpu` cleared and the lock word still set.
pub data Phase : Type 0 where
  outside spinning won leaving : Phase

-- `depth` counts, for each CPU, the calls of Spinlock_Lock that it has not yet undone.
pub record State : Type 0 where
  pub kind : Kind
  pub lock : ℕ
  pub cpu : ℕ
  pub count : ℕ
  pub r_count : ℕ
  pub lock_time : ℕ
  pub wait_time : ℕ
  pub locked_tsc : ℕ
  pub phase : ℕ → Phase
  pub depth : ℕ → ℕ
  pub critical : ℕ → ℕ

-- Spinlock_Init
pub init : Kind → State
init kind = record {
  kind = kind;
  lock = 0;
  cpu = 0;
  count = 0;
  r_count = 0;
  lock_time = 0;
  wait_time = 0;
  locked_tsc = 0;
  phase = λ c. outside;
  depth = λ c. 0;
  critical = λ c. 0;
}

-- The CPU `c` calls Spinlock_Lock: Critical_Enter.
pub enter : State → ℕ → State
enter s c = record s {
  phase = update s.phase c spinning;
  critical = update s.critical c (s.critical c + 1);
}

-- One round: `atomic_swap_uint64(&lock->lock, 1)`, and the `break` of the recursive case.
pub swap : State → ℕ → State
swap s c =
    if s.lock == 1
    then (if is_recursive s.kind && (s.cpu == c)
        then record s { phase = update s.phase c won }
        else s)
    else record s { lock = 1; phase = update s.phase c won }

-- The rest of Spinlock_Lock, with the time stamps `start` and `now`.
pub claim : State → ℕ → ℕ → ℕ → State
claim s c start now = record s {
  wait_time = (s.wait_time + (now + 2 ^ 64 - start)) % 2 ^ 64;
  cpu = c;
  count = (s.count + 1) % 2 ^ 64;
  r_count = (s.r_count + 1) % 2 ^ 64;
  locked_tsc = if (s.r_count + 1) % 2 ^ 64 == 1 then now else s.locked_tsc;
  phase = update s.phase c outside;
  depth = update s.depth c (s.depth c + 1);
}

-- Spinlock_Unlock up to the store to the lock word; `none` is its ASSERT.
pub unlock : State → ℕ → ℕ → Option State
unlock s c now =
    let refs = (s.r_count + 2 ^ 64 - 1) % 2 ^ 64 in
    if s.cpu == c
    then some (
        if refs == 0
        then record s {
          r_count = refs;
          cpu = 0;
          lock_time = (s.lock_time + (now + 2 ^ 64 - s.locked_tsc)) % 2 ^ 64;
          depth = update s.depth c (s.depth c - 1);
          phase = update s.phase c leaving;
        }
        else record s {
          r_count = refs;
          depth = update s.depth c (s.depth c - 1);
          critical = update s.critical c (s.critical c - 1);
        })
    else none

-- `atomic_set_uint64(&lock->lock, 0)` and Critical_Exit.
pub clear : State → ℕ → State
clear s c = record s {
  lock = 0;
  phase = update s.phase c outside;
  critical = update s.critical c (s.critical c - 1);
}

-- Spinlock_IsHeld on the CPU `c`.
pub is_held : State → ℕ → Bool
is_held s c = (s.cpu == c) && (s.lock == 1)

-- The interleavings of the CPUs that `Allowed` names. A CPU unlocks only what it has locked, and
-- locks are not nested 2^64 deep.
pub data Step (Allowed : ℕ → Type 0) (s t : State) : Type 0 where
  enters : (c : ℕ) → Allowed c → s.phase c ≡ outside → t ≡ enter s c → Step Allowed s t
  swaps : (c : ℕ) → s.phase c ≡ spinning → t ≡ swap s c → Step Allowed s t
  claims :
      (c start now : ℕ)
      → s.phase c ≡ won
      → s.r_count + 1 < 2 ^ 64
      → t ≡ claim s c start now
      → Step Allowed s t
  unlocks :
      (c now : ℕ) → s.phase c ≡ outside → 0 < s.depth c → unlock s c now ≡ some t → Step Allowed s t
  clears : (c : ℕ) → s.phase c ≡ leaving → t ≡ clear s c → Step Allowed s t

pub data Reach (Allowed : ℕ → Type 0) (s : State) : State → Type 0 where
  here : Reach Allowed s s
  next : {t u : State} → Reach Allowed s t → Step Allowed t u → Reach Allowed s u
