-- ===== src/Process/Valid.antt =====
-- The references of processes and threads. `held p` and `kept t` are the references that the rest of the
-- kernel has to a process and to a thread: one since its creation, and one for each lookup.
use boring_os_ssaha.Prelude.{
  ℕ, ◌+◌, ◌≤◌, ◌≡◌, ◌≢◌, refl, arith, List, [], ◌∷◌, remove, count, length,
}
use boring_os_ssaha.Process.{Procs}

-- The references to a process are those that are held and one for each of its threads. A process in
-- the list has one; one that is not has none. A thread is in the list of its process only.
pub record IsProcs (held kept : ℕ → ℕ) (s : Procs) : Type 0 where
  pub once : (p : ℕ) → count p s.process_list ≤ 1
  pub refs :
      (p : ℕ) → count p s.process_list ≢ 0 → s.ref_count p ≡ held p + length (s.thread_list p)
  pub alive : (p : ℕ) → count p s.process_list ≢ 0 → s.ref_count p ≢ 0
  pub number : (p : ℕ) → count p s.process_list ≢ 0 → s.threads p ≡ length (s.thread_list p)
  pub gone : (p : ℕ) → count p s.process_list ≡ 0 → (held p ≡ 0) × (length (s.thread_list p) ≡ 0)
  pub thread_once : (p t : ℕ) → count t (s.thread_list p) ≤ 1
  pub owner : (p t : ℕ) → count t (s.thread_list p) ≢ 0 → s.proc t ≡ p
  pub thread_refs :
      (p t : ℕ) → count t (s.thread_list p) ≢ 0 → (s.thread_ref t ≡ kept t) × (kept t ≢ 0)
  pub home : (t : ℕ) → kept t ≢ 0 → count t (s.thread_list (s.proc t)) ≢ 0
  pub not_null : (count 0 s.process_list ≡ 0) × ((p : ℕ) → count 0 (s.thread_list p) ≡ 0)

pub length-remove : (x : ℕ) (l : List ℕ) → count x l ≢ 0 → length (remove x l) + 1 ≡ length l
length-remove x [] h = absurd (h refl)
length-remove x (y ∷ ys) h = ground (arith, length-remove x ys)

pub count-length : (x : ℕ) (l : List ℕ) → length l ≡ 0 → count x l ≡ 0
count-length x [] h = refl
count-length x (y ∷ ys) h = absurd (omega arith)
