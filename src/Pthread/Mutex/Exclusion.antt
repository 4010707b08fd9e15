-- ===== src/Pthread/Mutex/Exclusion.antt =====
-- A mutex that is initialised excludes.
use boring_os_ssaha.Prelude.{ℕ, ◌≡◌, ◌≢◌, refl, arith}
use boring_os_ssaha.Pthread.Mutex.{
  State, outside, initing, ready, made, spinning, holding, check, read_slot, test_and_set, try_set,
  unlock, Step, Reach, checks, allocates, fails, publishes, reads, sets, tries, unlocks, here, next,
}

-- The mutex has the object `m`; no thread initialises it or has another object in hand; and the lock
-- word is 1 if a thread holds it, which then is the only one.
pub record IsMutex (m : ℕ) (s : State) : Type 0 where
  pub not_null : m ≢ 0
  pub slot : s.slot ≡ m
  pub made_before : (t : ℕ) → s.phase t ≢ initing
  pub none_made : (t obj : ℕ) → s.phase t ≢ made obj
  pub spins : (t obj : ℕ) → s.phase t ≡ spinning obj → obj ≡ m
  pub holds : (t obj : ℕ) → s.phase t ≡ holding obj → obj ≡ m
  pub locked : (t obj : ℕ) → s.phase t ≡ holding obj → s.lock m ≡ 1
  pub alone : (t u x y : ℕ) → s.phase t ≡ holding x → s.phase u ≡ holding y → t ≡ u

check-IsMutex :
    (m : ℕ) (s : State) (t : ℕ) → s.phase t ≡ outside → IsMutex m s → IsMutex m (check s t)
unfolding check
check-IsMutex m s t p v = record {
  not_null = v.not_null;
  slot = v.slot;
  made_before = λ u e. ground (arith, v.made_before u, v.slot, v.not_null);
  none_made = λ u x e. ground (arith, v.none_made u x);
  spins = λ u x e. ground (arith, v.spins u x);
  holds = λ u x e. ground (arith, v.holds u x);
  locked = λ u x e. ground (arith, v.locked u x);
  alone = λ u w x y a b. ground (arith, v.alone u w x y);
}

read_slot-IsMutex :
    (m : ℕ) (s : State) (t : ℕ) → s.phase t ≡ ready → IsMutex m s → IsMutex m (read_slot s t)
unfolding read_slot
read_slot-IsMutex m s t p v = record {
  not_null = v.not_null;
  slot = v.slot;
  made_before = λ u e. ground (arith, v.made_before u);
  none_made = λ u x e. ground (arith, v.none_made u x);
  spins = λ u x e. ground (arith, v.spins u x, v.slot);
  holds = λ u x e. ground (arith, v.holds u x);
  locked = λ u x e. ground (arith, v.locked u x);
  alone = λ u w x y a b. ground (arith, v.alone u w x y);
}

test_and_set-IsMutex :
    (m : ℕ) (s : State) (t obj : ℕ)
    → s.phase t ≡ spinning obj
    → IsMutex m s
    → IsMutex m (test_and_set s t obj)
unfolding test_and_set
test_and_set-IsMutex m s t obj p v = record {
  not_null = v.not_null;
  slot = ground (arith, v.slot);
  made_before = λ u e. ground (arith, v.made_before u);
  none_made = λ u x e. ground (arith, v.none_made u x);
  spins = λ u x e. ground (arith, v.spins u x);
  holds = λ u x e. ground (arith, v.holds u x, v.spins t obj);
  locked = λ u x e. ground (arith, v.locked u x, v.spins t obj);
  alone = λ u w x y a b. ground (arith, v.alone u w x y, v.locked u x, v.locked w y, v.spins t obj);
}

try_set-IsMutex :
    (m : ℕ) (s : State) (t obj : ℕ)
    → s.phase t ≡ spinning obj
    → IsMutex m s
    → IsMutex m (try_set s t obj).0
unfolding try_set
try_set-IsMutex m s t obj p v = record {
  not_null = v.not_null;
  slot = ground (arith, v.slot);
  made_before = λ u e. ground (arith, v.made_before u);
  none_made = λ u x e. ground (arith, v.none_made u x);
  spins = λ u x e. ground (arith, v.spins u x);
  holds = λ u x e. ground (arith, v.holds u x, v.spins t obj);
  locked = λ u x e. ground (arith, v.locked u x, v.spins t obj);
  alone = λ u w x y a b. ground (arith, v.alone u w x y, v.locked u x, v.locked w y, v.spins t obj);
}

unlock-IsMutex :
    (m : ℕ) (s : State) (t obj : ℕ) → s.phase t ≡ holding obj → IsMutex m s → IsMutex m (unlock s t)
unfolding unlock
unlock-IsMutex m s t obj p v = record {
  not_null = v.not_null;
  slot = v.slot;
  made_before = λ u e. ground (arith, v.made_before u);
  none_made = λ u x e. ground (arith, v.none_made u x);
  spins = λ u x e. ground (arith, v.spins u x);
  holds = λ u x e. ground (arith, v.holds u x);
  locked = λ u x e. ground (arith, v.alone u t x obj);
  alone = λ u w x y a b. ground (arith, v.alone u w x y);
}

Step-IsMutex : (m : ℕ) {s u : State} → Step s u → IsMutex m s → IsMutex m u
Step-IsMutex m {s} (checks t p e) v = rw e (check-IsMutex m s t p v)
Step-IsMutex m {s} (allocates t obj p nz e) v = absurd (v.made_before t p)
Step-IsMutex m {s} (fails t p e) v = absurd (v.made_before t p)
Step-IsMutex m {s} (publishes t obj p e) v = absurd (v.none_made t obj p)
Step-IsMutex m {s} (reads t p e) v = rw e (read_slot-IsMutex m s t p v)
Step-IsMutex m {s} (sets t obj p e) v = rw e (test_and_set-IsMutex m s t obj p v)
Step-IsMutex m {s} (tries t obj p e) v = rw e (try_set-IsMutex m s t obj p v)
Step-IsMutex m {s} (unlocks t obj p nz e) v = rw e (unlock-IsMutex m s t obj p v)

Reach-IsMutex : (m : ℕ) {s u : State} → IsMutex m s → Reach s u → IsMutex m u
Reach-IsMutex m v here = v
Reach-IsMutex m v (next r st) = Step-IsMutex m st (Reach-IsMutex m v r)

-- A mutex that pthread_mutex_init has made, and that no thread is at.
abbrev pub initialised : ℕ → State
initialised m = record { slot = m; lock = λ x. 0; phase = λ t. outside }

outside-not-spinning : (x : ℕ) → outside ≢ spinning x
outside-not-spinning x e = cc

outside-not-holding : (x : ℕ) → outside ≢ holding x
outside-not-holding x e = cc

initialised-IsMutex : (m : ℕ) → m ≢ 0 → IsMutex m (initialised m)
initialised-IsMutex m nz = record {
  not_null = nz;
  slot = refl;
  made_before = λ t e. cc;
  none_made = λ t x e. cc;
  spins = λ t x e. absurd (outside-not-spinning x e);
  holds = λ t x e. absurd (outside-not-holding x e);
  locked = λ t x e. absurd (outside-not-holding x e);
  alone = λ t u x y e f. absurd (outside-not-holding x e);
}

-- From a mutex that is initialised before the threads use it, no interleaving of their calls of
-- pthread_mutex_lock, pthread_mutex_trylock and pthread_mutex_unlock lets two of them hold it.
pub mutex_exclusion :
    (m : ℕ) (s : State) (t u x y : ℕ)
    → m ≢ 0
    → Reach (initialised m) s
    → s.phase t ≡ holding x
    → s.phase u ≡ holding y
    → t ≡ u
mutex_exclusion m s t u x y nz r a b =
    (Reach-IsMutex m (initialised-IsMutex m nz) r).alone t u x y a b
