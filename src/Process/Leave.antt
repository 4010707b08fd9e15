-- ===== src/Process/Leave.antt =====
-- Threads that are given back, and what is found in the lists.
use boring_os_ssaha.Prelude.{
  ℕ, ◌+◌, ◌-◌, ◌%◌, ◌^◌, ◌<◌, ◌≡◌, ◌≢◌, refl, arith, ◌==◌, true, false, some, List, [], ◌∷◌, ◌++◌,
  update, count, split_eq, inl, inr,
}
use boring_os_ssaha.Process.{Procs, find}
use boring_os_ssaha.Process.Threads.{retain_thread, release_thread, destroy_thread, drop_thread}
use boring_os_ssaha.Process.Valid.{IsProcs, count-length}
use boring_os_ssaha.Process.Release.{released, release-some, left, left-IsProcs, released-IsProcs}

IsProcs-held :
    (held other kept : ℕ → ℕ) (s : Procs)
    → ((q : ℕ) → held q ≡ other q)
    → IsProcs held kept s
    → IsProcs other kept s
IsProcs-held held other kept s e v = record {
  once = v.once;
  refs = λ q h. omega (arith, v.refs q h, e q);
  alive = v.alive;
  number = v.number;
  gone = λ q h. (omega (arith, (v.gone q h).0, e q), (v.gone q h).1);
  thread_once = v.thread_once;
  owner = v.owner;
  thread_refs = v.thread_refs;
  home = v.home;
  not_null = v.not_null;
}

-- The state behind Thread_Destroy.
abbrev departed : Procs → ℕ → Procs
departed s thr =
    let u = released (left s thr) (s.proc thr) in
    record u { freed_threads = u.freed_threads ++ (thr ∷ []) }

destroy_thread-some :
    (s : Procs) (thr : ℕ)
    → s.pid (s.proc thr) ≢ 1
    → s.ref_count (s.proc thr) ≢ 0
    → destroy_thread (drop_thread s thr) thr ≡ some (departed s thr)
unfolding destroy_thread
destroy_thread-some s thr user r =
    let a : (s.pid (s.proc thr) == 1) ≡ false = ground arith in
    rw (a, release-some (left s thr) (s.proc thr) r) refl

IsProcs-freed_threads :
    (held kept : ℕ → ℕ) (s : Procs) (l : List ℕ)
    → IsProcs held kept s
    → IsProcs held kept (record s { freed_threads = l })
IsProcs-freed_threads held kept s l v = record {
  once = v.once;
  refs = v.refs;
  alive = v.alive;
  number = v.number;
  gone = v.gone;
  thread_once = v.thread_once;
  owner = v.owner;
  thread_refs = v.thread_refs;
  home = v.home;
  not_null = v.not_null;
}

departed-IsProcs :
    (held kept : ℕ → ℕ) (s : Procs) (thr : ℕ)
    → kept thr ≡ 1
    → s.ref_count (s.proc thr) < 2 ^ 64
    → IsProcs held kept s
    → IsProcs held (update kept thr 0) (departed s thr)
departed-IsProcs held kept s thr one small v =
    let p = s.proc thr in
    let mid = update held p (held p + 1) in
    let w =
      released-IsProcs mid (update kept thr 0) (left s thr) p (ground arith)
        (left-IsProcs held kept s thr one small v) in
    let u = released (left s thr) p in
    IsProcs-freed_threads held (update kept thr 0) u (u.freed_threads ++ (thr ∷ []))
      (IsProcs-held (update mid p (mid p - 1)) held (update kept thr 0) u (λ q. ground arith) w)

-- Other references to the thread are left.
drop_thread-IsProcs :
    (held kept : ℕ → ℕ) (s : Procs) (thr : ℕ)
    → 1 < kept thr
    → IsProcs held kept s
    → IsProcs held (update kept thr (kept thr - 1)) (drop_thread s thr)
drop_thread-IsProcs held kept s thr many v = record {
  once = v.once;
  refs = v.refs;
  alive = v.alive;
  number = v.number;
  gone = v.gone;
  thread_once = v.thread_once;
  owner = v.owner;
  thread_refs = λ q t h. ground (arith, v.thread_refs q t);
  home = λ t h. ground (arith, v.home t);
  not_null = v.not_null;
}

pub retain_thread-IsProcs :
    (held kept : ℕ → ℕ) (s : Procs) (thr : ℕ)
    → kept thr ≢ 0
    → kept thr + 1 < 2 ^ 64
    → IsProcs held kept s
    → (u : Procs) × (retain_thread s thr ≡ some u) × IsProcs held (update kept thr (kept thr + 1)) u
unfolding retain_thread
retain_thread-IsProcs held kept s thr live small v =
    let r = v.thread_refs (s.proc thr) thr (v.home thr live) in
    let b : (s.thread_ref thr == 0) ≡ false = ground arith in
    (
      record s { thread_ref = update s.thread_ref thr ((s.thread_ref thr + 1) % 2 ^ 64) },
      rw b refl,
      record {
        once = v.once;
        refs = v.refs;
        alive = v.alive;
        number = v.number;
        gone = v.gone;
        thread_once = v.thread_once;
        owner = v.owner;
        thread_refs = λ q t h. ground (arith, v.thread_refs q t);
        home = λ t h. ground (arith, v.home t);
        not_null = v.not_null;
      },
    )

pub release_thread-IsProcs :
    (held kept : ℕ → ℕ) (s : Procs) (thr : ℕ)
    → kept thr ≢ 0
    → s.pid (s.proc thr) ≢ 1
    → s.ref_count (s.proc thr) < 2 ^ 64
    → IsProcs held kept s
    → (u : Procs) × (release_thread s thr ≡ some u)
      × IsProcs held (update kept thr (kept thr - 1)) u
unfolding release_thread
release_thread-IsProcs held kept s thr live user small v =
    let inside = v.home thr live in
    let r = v.thread_refs (s.proc thr) thr inside in
    let listed : count (s.proc thr) s.process_list ≢ 0 =
      λ z. inside (count-length thr (s.thread_list (s.proc thr)) (v.gone (s.proc thr) z).1) in
    let a : (s.thread_ref thr == 0) ≡ false = ground arith in
    elim (split_eq (kept thr) 1) [
      | inl e ↦
          let b : (s.thread_ref thr == 1) ≡ true = ground arith in
          (
            departed s thr,
            rw (a, b) (destroy_thread-some s thr user (v.alive (s.proc thr) listed)),
            rw e (departed-IsProcs held kept s thr e small v),
          )
      | inr ne ↦
          let b : (s.thread_ref thr == 1) ≡ false = ground arith in
          (drop_thread s thr, rw (a, b) refl, drop_thread-IsProcs held kept s thr (omega arith) v)
    ]

pub find-listed :
    (number_of : ℕ → ℕ) (number : ℕ) (l : List ℕ)
    → find number_of number l ≢ 0
    → (count (find number_of number l) l ≢ 0) × (number_of (find number_of number l) ≡ number)
unfolding find
find-listed f n [] h = absurd (h refl)
find-listed f n (x ∷ xs) h = ground (arith, find-listed f n xs)
