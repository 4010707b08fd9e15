-- ===== src/Process/Spawn.antt =====
-- New processes and threads.
use boring_os_ssaha.Prelude.{
  ℕ, ◌+◌, ◌%◌, ◌^◌, ◌<◌, ◌≡◌, ◌≢◌, refl, arith, ◌==◌, false, some, [], ◌∷◌, update, count,
  length-append, count-append,
}
use boring_os_ssaha.Process.{Procs, create, retain}
use boring_os_ssaha.Process.Threads.{create_thread, blank_thread, enter_thread}
use boring_os_ssaha.Process.Valid.{IsProcs, count-length}

-- Process_Create of an object that the slab has free, with a space.
pub create-IsProcs :
    (held kept : ℕ → ℕ) (s : Procs) (up p space : ℕ)
    → p ≢ 0
    → space ≢ 0
    → count p s.process_list ≡ 0
    → IsProcs held kept s
    → ((create s up p space).1 ≡ p) × IsProcs (update held p 1) kept (create s up p space).0
unfolding create
create-IsProcs held kept s up p space np ns free v =
    let a : (p == 0) ≡ false = ground arith in
    let b : (space == 0) ≡ false = ground arith in
    let l = (v.gone p free).1 in
    rw (a, b)
      (
        refl,
        record {
          once = λ q. ground (arith, v.once q, count-append q s.process_list (p ∷ []));
          refs = λ q h. ground (arith, v.refs q, count-append q s.process_list (p ∷ []));
          alive = λ q h. ground (arith, v.alive q, count-append q s.process_list (p ∷ []));
          number = λ q h. ground (arith, v.number q, count-append q s.process_list (p ∷ []));
          gone = λ q h. ground (arith, v.gone q, count-append q s.process_list (p ∷ []));
          thread_once = λ q t. ground (arith, v.thread_once q t);
          owner = λ q t h. ground (arith, v.owner q t);
          thread_refs = λ q t h. ground (arith, v.thread_refs q t);
          home = λ t h. ground (arith, v.home t h, count-length t (s.thread_list p) l);
          not_null = (
            ground (arith, v.not_null, count-append 0 s.process_list (p ∷ [])),
            λ q. ground (arith, v.not_null.1 q),
          );
        },
      )

abbrev retained : Procs → ℕ → Procs
retained s p = record s { ref_count = update s.ref_count p ((s.ref_count p + 1) % 2 ^ 64) }

-- The state behind Thread_Create.
abbrev pub spawned : Procs → ℕ → ℕ → ℕ → Procs
spawned s p thr stack = enter_thread (retained (blank_thread s thr p stack) p) thr p

pub create_thread-some :
    (s : Procs) (p thr stack : ℕ)
    → p ≢ 0
    → thr ≢ 0
    → stack ≢ 0
    → s.ref_count p ≢ 0
    → create_thread s p thr stack ≡ some (spawned s p thr stack, thr)
unfolding create_thread retain
create_thread-some s p thr stack np nt ns r =
    let a : (thr == 0) ≡ false = ground arith in
    let b : (p == 0) ≡ false = ground arith in
    let c : (stack == 0) ≡ false = ground arith in
    let d : (s.ref_count p == 0) ≡ false = ground arith in rw (a, b, c, d) refl

pub spawned-IsProcs :
    (held kept : ℕ → ℕ) (s : Procs) (p thr stack : ℕ)
    → thr ≢ 0
    → count p s.process_list ≢ 0
    → ((q : ℕ) → count thr (s.thread_list q) ≡ 0)
    → s.ref_count p + 1 < 2 ^ 64
    → IsProcs held kept s
    → IsProcs held (update kept thr 1) (spawned s p thr stack)
spawned-IsProcs held kept s p thr stack nt listed free small v =
    let n = length-append (s.thread_list p) (thr ∷ []) in
    let less : s.threads p + 1 < 2 ^ 64 = omega (arith, v.number p listed, v.refs p listed) in
    record {
      once = λ q. v.once q;
      refs = λ q h. ground (arith, v.refs q, n);
      alive = λ q h. ground (arith, v.alive q);
      number = λ q h. ground (arith, v.number q, n);
      gone = λ q h. ground (arith, v.gone q);
      thread_once = λ q t.
          ground (arith, v.thread_once q t, free q, count-append t (s.thread_list p) (thr ∷ []));
      owner =
          λ q t h. ground (arith, v.owner q t, free q, count-append t (s.thread_list p) (thr ∷ []));
      thread_refs = λ q t h.
          ground (arith, v.thread_refs q t, free q, count-append t (s.thread_list p) (thr ∷ []));
      home = λ t h. ground (arith, v.home t, count-append t (s.thread_list p) (thr ∷ []));
      not_null = (
        v.not_null.0,
        λ q. ground (arith, v.not_null.1 q, count-append 0 (s.thread_list p) (thr ∷ [])),
      );
    }
