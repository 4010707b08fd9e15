-- ===== src/Pthread/Mutex/Lazy.antt =====
-- A mutex that is not initialised: pthread_mutex_lock does it.
use boring_os_ssaha.Prelude.{ℕ, ◌≡◌, ◌≢◌, refl, arith}
use boring_os_ssaha.Pthread.Mutex.{
  State, outside, holding, check, allocate, publish, read_slot, test_and_set, Reach, checks,
  allocates, publishes, reads, sets, here, next,
}

-- PTHREAD_MUTEX_INITIALIZER: the slot is NULL.
abbrev pub lazy : State
lazy = record { slot = 0; lock = λ x. 0; phase = λ t. outside }

-- Both threads see NULL and allocate; the first goes on until it has its lock, then the second.
abbrev both_made : ℕ → ℕ → ℕ → ℕ → State
both_made a b x y = allocate (allocate (check (check lazy a) b) a x) b y

abbrev first_holds : ℕ → ℕ → ℕ → ℕ → State
first_holds a b x y = test_and_set (read_slot (publish (both_made a b x y) a x) a) a x

abbrev both_hold : ℕ → ℕ → ℕ → ℕ → State
both_hold a b x y = test_and_set (read_slot (publish (first_holds a b x y) b y) b) b y

-- On a mutex that is NULL, some interleaving of two calls of pthread_mutex_lock, for any two threads
-- and any two objects that malloc gives them, lets both threads hold the mutex.
pub lazy_init_race :
    (a b x y : ℕ)
    → a ≢ b
    → x ≢ y
    → x ≢ 0
    → y ≢ 0
    → (s : State) × Reach lazy s × (s.phase a ≡ holding x) × (s.phase b ≡ holding y)
unfolding check allocate publish read_slot test_and_set
lazy_init_race a b x y ne nxy nx ny = (
  both_hold a b x y,
  next
      (next
        (next
          (next
            (next
              (next
                (next
                  (next (next (next here (checks a refl refl)) (checks b (ground arith) refl))
                    (allocates a x (ground arith) nx refl))
                  (allocates b y (ground arith) ny refl))
                (publishes a x (ground arith) refl))
              (reads a (ground arith) refl))
            (sets a x (ground arith) refl))
          (publishes b y (ground arith) refl))
        (reads b (ground arith) refl))
      (sets b y (ground arith) refl),
  ground arith,
  ground arith,
)
