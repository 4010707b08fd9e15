-- ===== src/Semaphore/Permits.antt =====
-- No more permits of a semaphore are taken than there are.
use boring_os_ssaha.Prelude.{ℕ, ◌+◌, ◌%◌, ◌^◌, ◌≤◌, ◌<◌, ◌≡◌, arith, true, false, some}
use boring_os_ssaha.Sched.{Sched}
use boring_os_ssaha.Semaphore.{Semaphore, no_permits, acquire_round, release, try_acquire}
use boring_os_ssaha.Semaphore as sema

-- The semaphores that calls of the three functions make of one that Semaphore_Init has given `n`
-- permits, `taken` of the calls having taken one and `given` of them given one. The state of the
-- scheduler is any at each call, since other code changes it between them.
pub data Run (n : ℕ) : ℕ → ℕ → Semaphore → Type 0 where
  start : Run n 0 0 (sema.init n)
  acquires :
      {taken given : ℕ} {x y : Semaphore} (s t : Sched) (cur cpu now : ℕ)
      → Run n taken given x
      → acquire_round x s cur cpu now ≡ some ((y, t), true)
      → Run n (taken + 1) given y
  sleeps :
      {taken given : ℕ} {x y : Semaphore} (s t : Sched) (cur cpu now : ℕ)
      → Run n taken given x
      → acquire_round x s cur cpu now ≡ some ((y, t), false)
      → Run n taken given y
  releases :
      {taken given : ℕ} {x y : Semaphore} (s t : Sched) (now : ℕ)
      → Run n taken given x
      → release x s now ≡ (y, t)
      → Run n taken (given + 1) y
  tries :
      {taken given : ℕ} {x y : Semaphore}
      → Run n taken given x
      → try_acquire x ≡ (y, true)
      → Run n (taken + 1) given y
  fails :
      {taken given : ℕ} {x y : Semaphore}
      → Run n taken given x
      → try_acquire x ≡ (y, false)
      → Run n taken given y

taken_count :
    (x y : Semaphore) (s t : Sched) (cur cpu now : ℕ)
    → acquire_round x s cur cpu now ≡ some ((y, t), true)
    → (no_permits < x.count) × (y.count + 1 ≡ x.count)
unfolding acquire_round
taken_count x y s t cur cpu now e = ground arith

slept_count :
    (x y : Semaphore) (s t : Sched) (cur cpu now : ℕ)
    → acquire_round x s cur cpu now ≡ some ((y, t), false)
    → y.count ≡ x.count
unfolding acquire_round
slept_count x y s t cur cpu now e = ground arith

released_count :
    (x y : Semaphore) (s t : Sched) (now : ℕ)
    → release x s now ≡ (y, t)
    → y.count ≡ (x.count + 1) % 2 ^ 32
unfolding release
released_count x y s t now e = ground arith

tried_count :
    (x y : Semaphore) → try_acquire x ≡ (y, true) → (no_permits < x.count) × (y.count + 1 ≡ x.count)
unfolding try_acquire
tried_count x y e = ground arith

failed_count : (x y : Semaphore) → try_acquire x ≡ (y, false) → y.count ≡ x.count
unfolding try_acquire
failed_count x y e = ground arith

-- As long as a semaphore has been given fewer than 2^31 permits, those of its start included, no calls
-- of Semaphore_Acquire, Semaphore_TryAcquire and Semaphore_Release take more than it has been given,
-- and its count is the difference: none is lost or made twice.
pub permits :
    (n taken given : ℕ) (x : Semaphore)
    → n + given < 2 ^ 31
    → Run n taken given x
    → (x.count + taken ≡ no_permits + n + given) × (taken ≤ n + given)
permits n _ _ _ h start = (omega arith, omega arith)
permits n _ _ y h (acquires s t cur cpu now run e) =
    ground (arith, permits n _ _ _ h run, taken_count _ y s t cur cpu now e)
permits n _ _ y h (sleeps s t cur cpu now run e) =
    ground (arith, permits n _ _ _ h run, slept_count _ y s t cur cpu now e)
permits n _ _ y h (releases s t now run e) =
    ground (arith, permits n _ _ _ (omega arith) run, released_count _ y s t now e)
permits n _ _ y h (tries run e) = ground (arith, permits n _ _ _ h run, tried_count _ y e)
permits n _ _ y h (fails run e) = ground (arith, permits n _ _ _ h run, failed_count _ y e)
