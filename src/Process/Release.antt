-- ===== src/Process/Release.antt =====
-- References that are taken and given back, and what is destroyed with the last one.
use boring_os_ssaha.Prelude.{
  ℕ, ◌+◌, ◌-◌, ◌%◌, ◌^◌, ◌<◌, ◌≡◌, ◌≢◌, refl, arith, ◌==◌, if◌then◌else◌, false, some, [], ◌∷◌,
  ◌++◌, update, remove, count, count-remove_self, count-remove_ne, split_eq, inl, inr,
}
use boring_os_ssaha.Process.{Procs, retain, release, destroy, drop_process}
use boring_os_ssaha.Process.Valid.{IsProcs, count-length, length-remove}

pub retain-IsProcs :
    (held kept : ℕ → ℕ) (s : Procs) (p : ℕ)
    → count p s.process_list ≢ 0
    → s.ref_count p + 1 < 2 ^ 64
    → IsProcs held kept s
    → (u : Procs) × (retain s p ≡ some u) × IsProcs (update held p (held p + 1)) kept u
unfolding retain
retain-IsProcs held kept s p listed small v =
    let a = v.alive p listed in
    let b : (s.ref_count p == 0) ≡ false = ground arith in
    (
      record s { ref_count = update s.ref_count p ((s.ref_count p + 1) % 2 ^ 64) },
      rw b refl,
      record {
        once = v.once;
        refs = λ q h. ground (arith, v.refs q);
        alive = λ q h. ground (arith, v.alive q);
        number = v.number;
        gone = λ q h. ground (arith, v.gone q);
        thread_once = v.thread_once;
        owner = v.owner;
        thread_refs = v.thread_refs;
        home = v.home;
        not_null = v.not_null;
      },
    )

-- The references of a process go down by one; with the last one it leaves the list and is freed.
abbrev pub released : Procs → ℕ → Procs
released s p = if s.ref_count p == 1 then destroy (drop_process s p) p else drop_process s p

pub release-some : (s : Procs) (p : ℕ) → s.ref_count p ≢ 0 → release s p ≡ some (released s p)
unfolding release
release-some s p h = let b : (s.ref_count p == 0) ≡ false = ground arith in rw b refl

pub released-IsProcs :
    (held kept : ℕ → ℕ) (s : Procs) (p : ℕ)
    → held p ≢ 0
    → IsProcs held kept s
    → IsProcs (update held p (held p - 1)) kept (released s p)
unfolding destroy
released-IsProcs held kept s p h v =
    let listed : count p s.process_list ≢ 0 = λ z. h (v.gone p z).0 in
    let r = v.refs p listed in
    let self = count-remove_self p s.process_list in
    let o = v.once p in
    elim (split_eq (s.ref_count p) 1) [
      | inl e ↦ rw e (record {
        once = λ q. ground (arith, v.once q, self, count-remove_ne q p s.process_list);
        refs = λ q k. ground (arith, v.refs q, self, count-remove_ne q p s.process_list);
        alive = λ q k. ground (arith, v.alive q, self, count-remove_ne q p s.process_list);
        number = λ q k. ground (arith, v.number q, self, count-remove_ne q p s.process_list);
        gone = λ q k. ground (arith, v.gone q, self, count-remove_ne q p s.process_list);
        thread_once = v.thread_once;
        owner = v.owner;
        thread_refs = v.thread_refs;
        home = v.home;
        not_null =
            (ground (arith, v.not_null, self, count-remove_ne 0 p s.process_list), v.not_null.1);
      })
      | inr ne ↦
          let b : (s.ref_count p == 1) ≡ false = ground arith in
          rw b (record {
            once = v.once;
            refs = λ q k. ground (arith, v.refs q);
            alive = λ q k. ground (arith, v.alive q);
            number = v.number;
            gone = λ q k. ground (arith, v.gone q);
            thread_once = v.thread_once;
            owner = v.owner;
            thread_refs = v.thread_refs;
            home = v.home;
            not_null = v.not_null;
          })
    ]

-- The state before the process is released in Thread_Destroy.
abbrev pub left : Procs → ℕ → Procs
left s thr =
    let p = s.proc thr in
    record s {
      thread_ref = update s.thread_ref thr (s.thread_ref thr - 1);
      threads = update s.threads p ((s.threads p + 2 ^ 64 - 1) % 2 ^ 64);
      thread_list = update s.thread_list p (remove thr (s.thread_list p));
      freed_pages = s.freed_pages ++ (s.kstack thr ∷ []);
    }

-- The thread's own reference to its process counts as held there.
pub left-IsProcs :
    (held kept : ℕ → ℕ) (s : Procs) (thr : ℕ)
    → kept thr ≡ 1
    → s.ref_count (s.proc thr) < 2 ^ 64
    → IsProcs held kept s
    → IsProcs (update held (s.proc thr) (held (s.proc thr) + 1)) (update kept thr 0) (left s thr)
left-IsProcs held kept s thr one small v =
    let p = s.proc thr in
    let inside : count thr (s.thread_list p) ≢ 0 = v.home thr (omega arith) in
    let listed : count p s.process_list ≢ 0 =
      λ z. inside (count-length thr (s.thread_list p) (v.gone p z).1) in
    let self = count-remove_self thr (s.thread_list p) in
    let n = length-remove thr (s.thread_list p) inside in
    let o = v.thread_once p thr in
    let r = v.refs p listed in
    let k = v.number p listed in
    record {
      once = v.once;
      refs = λ q h. ground (arith, v.refs q);
      alive = v.alive;
      number = λ q h. ground (arith, v.number q);
      gone = λ q h. ground (arith, v.gone q);
      thread_once =
          λ q t. ground (arith, v.thread_once q t, self, count-remove_ne t thr (s.thread_list p));
      owner = λ q t h. ground (arith, v.owner q t, self, count-remove_ne t thr (s.thread_list p));
      thread_refs = λ q t h.
          ground
            (arith, v.thread_refs q t, v.owner q t, self, count-remove_ne t thr (s.thread_list p));
      home = λ t h. ground (arith, v.home t, count-remove_ne t thr (s.thread_list p));
      not_null = (
        v.not_null.0,
        λ q. ground (arith, v.not_null.1 q, self, count-remove_ne 0 thr (s.thread_list p)),
      );
    }
