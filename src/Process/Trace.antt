-- ===== src/Process/Trace.antt =====
-- Sequences of the operations on processes and threads, each by a caller that owns what it gives back.
use boring_os_ssaha.Prelude.{
  ℕ, ◌+◌, ◌-◌, ◌^◌, ◌<◌, ◌≡◌, ◌≢◌, refl, sym, ap, subst, ◌∙◌, arith, ◌==◌, if◌then◌else◌, true,
  false, Option, none, some, [], update, count, split_eq, inl, inr,
}
use boring_os_ssaha.Process.{Procs, find, create, lookup, release}
use boring_os_ssaha.Process.Threads.{create_thread, lookup_thread, release_thread}
use boring_os_ssaha.Process.Valid.{IsProcs}
use boring_os_ssaha.Process.Spawn.{create-IsProcs, create_thread-some, spawned, spawned-IsProcs}
use boring_os_ssaha.Process.Release.{retain-IsProcs, released, release-some, released-IsProcs}
use boring_os_ssaha.Process.Leave.{retain_thread-IsProcs, release_thread-IsProcs, find-listed}

pub data Op : Type 0 where
  new_process new_thread : ℕ → ℕ → ℕ → Op
  look_process drop_process drop_thread : ℕ → Op
  look_thread : ℕ → ℕ → Op

-- The state behind a call that answers with a pointer too.
abbrev pub state : Option (Procs × ℕ) → Option Procs
state none = none
state (some a) = some a.0

abbrev pub step : Op → Procs → Option Procs
step (new_process up p space) s = some (create s up p space).0
step (new_thread p thr stack) s = state (create_thread s p thr stack)
step (look_process pid) s = state (lookup s pid)
step (drop_process p) s = release s p
step (look_thread p tid) s = state (lookup_thread s p tid)
step (drop_thread thr) s = release_thread s thr

-- The references to processes that callers own, behind an operation.
abbrev pub holds : Op → Procs → (ℕ → ℕ) → ℕ → ℕ
holds (new_process up p space) s held = update held p 1
holds (new_thread p thr stack) s held = held
holds (look_process pid) s held =
    let p = find s.pid pid s.process_list in if p == 0 then held else update held p (held p + 1)
holds (drop_process p) s held = update held p (held p - 1)
holds (look_thread p tid) s held = held
holds (drop_thread thr) s held = held

-- The references to threads that callers own, behind an operation.
abbrev pub keeps : Op → Procs → (ℕ → ℕ) → ℕ → ℕ
keeps (new_process up p space) s kept = kept
keeps (new_thread p thr stack) s kept = update kept thr 1
keeps (look_process pid) s kept = kept
keeps (drop_process p) s kept = kept
keeps (look_thread p tid) s kept =
    let thr = find s.tid tid (s.thread_list p) in
    if thr == 0 then kept else update kept thr (kept thr + 1)
keeps (drop_thread thr) s kept = update kept thr (kept thr - 1)

-- A new object is one that the slab has free; a caller gives back a reference that it owns, and no thread
-- of the kernel ends; counts do not wrap around.
abbrev pub Allowed : Op → (ℕ → ℕ) → (ℕ → ℕ) → Procs → Type 0
Allowed (new_process up p space) held kept s = (p ≢ 0) × (space ≢ 0) × (count p s.process_list ≡ 0)
Allowed (new_thread p thr stack) held kept s =
    (thr ≢ 0)
    × (stack ≢ 0)
    × (count p s.process_list ≢ 0)
    × ((q : ℕ) → count thr (s.thread_list q) ≡ 0)
    × (s.ref_count p + 1 < 2 ^ 64)
Allowed (look_process pid) held kept s = (p : ℕ) → s.ref_count p + 1 < 2 ^ 64
Allowed (drop_process p) held kept s = held p ≢ 0
Allowed (look_thread p tid) held kept s = (thr : ℕ) → kept thr + 1 < 2 ^ 64
Allowed (drop_thread thr) held kept s =
    (kept thr ≢ 0) × (s.pid (s.proc thr) ≢ 1) × (s.ref_count (s.proc thr) < 2 ^ 64)

look_process-IsProcs :
    (pid : ℕ) (held kept : ℕ → ℕ) (s : Procs)
    → Allowed (look_process pid) held kept s
    → IsProcs held kept s
    → (u : Procs) × (state (lookup s pid) ≡ some u)
      × IsProcs (holds (look_process pid) s held) kept u
unfolding lookup
look_process-IsProcs pid held kept s small v =
    let p = find s.pid pid s.process_list in
    elim (split_eq p 0) [
      | inl e ↦ let b : (p == 0) ≡ true = ground arith in rw b (s, refl, v)
      | inr ne ↦
          let b : (p == 0) ≡ false = ground arith in
          let w =
            retain-IsProcs held kept s p (find-listed s.pid pid s.process_list ne).0 (small p) v in
          rw (b, w.1) (w.0, refl, w.2)
    ]

look_thread-IsProcs :
    (p tid : ℕ) (held kept : ℕ → ℕ) (s : Procs)
    → Allowed (look_thread p tid) held kept s
    → IsProcs held kept s
    → (u : Procs) × (state (lookup_thread s p tid) ≡ some u)
      × IsProcs held (keeps (look_thread p tid) s kept) u
unfolding lookup_thread
look_thread-IsProcs p tid held kept s small v =
    let thr = find s.tid tid (s.thread_list p) in
    elim (split_eq thr 0) [
      | inl e ↦ let b : (thr == 0) ≡ true = ground arith in rw b (s, refl, v)
      | inr ne ↦
          let b : (thr == 0) ≡ false = ground arith in
          let inside = (find-listed s.tid tid (s.thread_list p) ne).0 in
          let w =
            retain_thread-IsProcs held kept s thr (v.thread_refs p thr inside).1 (small thr) v in
          rw (b, w.1) (w.0, refl, w.2)
    ]

new_thread-IsProcs :
    (p thr stack : ℕ) (held kept : ℕ → ℕ) (s : Procs)
    → Allowed (new_thread p thr stack) held kept s
    → IsProcs held kept s
    → (u : Procs) × (state (create_thread s p thr stack) ≡ some u)
      × IsProcs held (update kept thr 1) u
new_thread-IsProcs p thr stack held kept s (nt, ns, listed, free, small) v =
    let np : p ≢ 0 = λ e. listed (rw e v.not_null.0) in
    (
      spawned s p thr stack,
      ap state (create_thread-some s p thr stack np nt ns (v.alive p listed)),
      spawned-IsProcs held kept s p thr stack nt listed free small v,
    )

pub step-IsProcs :
    (op : Op) (held kept : ℕ → ℕ) (s : Procs)
    → Allowed op held kept s
    → IsProcs held kept s
    → (u : Procs) × (step op s ≡ some u) × IsProcs (holds op s held) (keeps op s kept) u
step-IsProcs (new_process up p space) held kept s (np, ns, free) v =
    let w = create-IsProcs held kept s up p space np ns free v in
    ((create s up p space).0, refl, w.1)
step-IsProcs (new_thread p thr stack) held kept s a v =
    new_thread-IsProcs p thr stack held kept s a v
step-IsProcs (look_process pid) held kept s a v = look_process-IsProcs pid held kept s a v
step-IsProcs (drop_process p) held kept s a v = (
  released s p,
  release-some s p (v.alive p (λ z. a (v.gone p z).0)),
  released-IsProcs held kept s p a v,
)
step-IsProcs (look_thread p tid) held kept s a v = look_thread-IsProcs p tid held kept s a v
step-IsProcs (drop_thread thr) held kept s (live, user, small) v =
    release_thread-IsProcs held kept s thr live user small v

-- The states that allowed operations lead to, with the references that callers own there.
pub data Reach (s₀ : Procs) : (ℕ → ℕ) → (ℕ → ℕ) → Procs → Type 0 where
  start : Reach s₀ (λ p. 0) (λ t. 0) s₀
  next :
      {held kept : ℕ → ℕ} {s u : Procs}
      → (op : Op) → Reach s₀ held kept s
      → Allowed op held kept s
      → step op s ≡ some u
      → Reach s₀ (holds op s held) (keeps op s kept) u

-- No processes and no threads.
abbrev pub IsEmpty : Procs → Type 0
IsEmpty s = (s.process_list ≡ []) × ((p : ℕ) → s.thread_list p ≡ [])

empty-IsProcs : (s : Procs) → IsEmpty s → IsProcs (λ p. 0) (λ t. 0) s
empty-IsProcs s (none_listed, no_threads) = record {
  once = λ p. rw none_listed (omega arith);
  refs = λ p h. absurd (h (rw none_listed refl));
  alive = λ p h. absurd (h (rw none_listed refl));
  number = λ p h. absurd (h (rw none_listed refl));
  gone = λ p h. (refl, rw (no_threads p) refl);
  thread_once = λ p t. rw (no_threads p) (omega arith);
  owner = λ p t h. absurd (h (rw (no_threads p) refl));
  thread_refs = λ p t h. absurd (h (rw (no_threads p) refl));
  home = λ t h. absurd (h refl);
  not_null = (rw none_listed refl, λ p. rw (no_threads p) refl);
}

some_injective : {A : Type 0} {x y : A} → some x ≡ some y → x ≡ y
some_injective e = cc

-- From no processes and no threads, every sequence of allowed operations ends in a state with counted
-- references: a process is in the list of processes exactly as long as a caller owns a reference to it or it
-- has a thread, its count is the number of both, and each thread is in the list of its process only as long
-- as a caller owns it.
pub Reach-IsProcs :
    (s₀ : Procs) (held kept : ℕ → ℕ) (s : Procs)
    → IsEmpty s₀
    → Reach s₀ held kept s
    → IsProcs held kept s
Reach-IsProcs s₀ held kept s e start = empty-IsProcs s₀ e
Reach-IsProcs s₀ held kept u e (next {held = h} {kept = k} {s = s} op before allowed runs) =
    let w = step-IsProcs op h k s allowed (Reach-IsProcs s₀ h k s e before) in
    subst (λ v. IsProcs (holds op s h) (keeps op s k) v) (some_injective (sym w.1 ∙ runs)) w.2
