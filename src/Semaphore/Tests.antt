-- ===== src/Semaphore/Tests.antt =====
-- A semaphore with two permits.
use boring_os_ssaha.Prelude.{◌+◌, ◌≤◌, ◌≡◌, refl, arith, true, []}
use boring_os_ssaha.Semaphore.{Semaphore, no_permits, try_acquire}
use boring_os_ssaha.Semaphore as sema
use boring_os_ssaha.Semaphore.Permits.{Run, permits}

abbrev one_left : Semaphore
one_left = record { count = no_permits + 1; waiters = [] }

one_left_run : try_acquire (sema.init 2) ≡ (one_left, true)
unfolding try_acquire
one_left_run = refl

permits_example : (one_left.count + 1 ≡ no_permits + 2 + 0) × (1 ≤ 2 + 0)
permits_example = permits 2 1 0 one_left (omega arith) (Run.tries Run.start one_left_run)
