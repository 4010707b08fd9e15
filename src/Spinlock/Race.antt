-- ===== src/Spinlock/Race.antt =====
-- A recursive lock that CPU 0 and another CPU use: `cpu` is 0 both for CPU 0 and for no CPU.
use boring_os_ssaha.Prelude.{ℕ, ◌≡◌, ◌≢◌, refl, arith}
use boring_os_ssaha.Spinlock.{
  recursive, won, State, init, enter, swap, enters, swaps, Reach, here, next,
}

abbrev raced : ℕ → State
raced c = swap (enter (swap (enter (init recursive) c) c) 0) 0

-- For a recursive lock, whatever the other CPU: some interleaving lets it win the lock word, and then
-- CPU 0 leaves the loop of Spinlock_Lock too, since the field `cpu` still reads 0.
pub recursive_race :
    (Allowed : ℕ → Type 0) (c : ℕ)
    → c ≢ 0
    → Allowed 0
    → Allowed c
    → (t : State) × Reach Allowed (init recursive) t × (t.phase c ≡ won) × (t.phase 0 ≡ won)
unfolding init enter swap
recursive_race Allowed c nz a0 ac = (
  raced c,
  next
      (next (next (next here (enters c ac refl refl)) (swaps c (ground arith) refl))
        (enters 0 a0 (ground arith) refl))
      (swaps 0 (ground arith) refl),
  ground arith,
  ground arith,
)
