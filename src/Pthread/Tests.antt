-- ===== src/Pthread/Tests.antt =====
-- Calls of a few threads, and the theorems at them.
use boring_os_ssaha.Prelude.{ℕ, ◌≡◌, refl, arith, List, [], ◌∷◌}
use boring_os_ssaha.Pthread.Cond.{fresh}
use boring_os_ssaha.Pthread.Cond.Queue.{Op, wait, wake, wake_all, run, run_spec, view, run_refines}
use boring_os_ssaha.Pthread.Mutex.{
  State, holding, check, read_slot, test_and_set, Reach, checks, reads, sets, here, next,
}
use boring_os_ssaha.Pthread.Mutex.Exclusion.{initialised, mutex_exclusion}

abbrev calls : List Op
calls = wait ∷ wait ∷ wake ∷ wake_all ∷ wait ∷ []

run_refines_example : view (run calls fresh) ≡ run_spec calls (view fresh)
run_refines_example = run_refines calls fresh (omega arith)

-- The thread 1 has the lock of the mutex at 64.
abbrev locked : State
locked = test_and_set (read_slot (check (initialised 64) 1) 1) 1 64

locked-Reach : Reach (initialised 64) locked
unfolding check read_slot test_and_set
locked-Reach =
    next (next (next here (checks 1 refl refl)) (reads 1 (ground arith) refl))
      (sets 1 64 (ground arith) refl)

locked_phase : locked.phase 1 ≡ holding 64
unfolding check read_slot test_and_set
locked_phase = ground arith

mutex_exclusion_example : ◌≡◌ {A = ℕ} 1 1
mutex_exclusion_example =
    mutex_exclusion 64 locked 1 1 64 64 (omega arith) locked-Reach locked_phase locked_phase
