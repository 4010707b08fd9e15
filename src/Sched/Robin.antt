-- ===== src/Sched/Robin.antt =====
-- Sched_Scheduler: what it chooses, and that it goes round the runnable threads.
use boring_os_ssaha.Prelude.{
  ℕ, zero, suc, ◌≤◌, ◌<◌, ◌≡◌, ◌≢◌, refl, sym, ◌∙◌, ap, arith, if◌then◌else◌, Option, none, some,
  List, [], ◌∷◌, ◌++◌, count, length, take, drop, length-take, length-append, take-append-drop,
}
use mathlib.Core.List.{append_assoc, append-nil}
use boring_os_ssaha.Sched.{
  ThreadState, runnable, running, Sched, is_running, is_runnable, switch_to, schedule_from,
  scheduler,
}
use boring_os_ssaha.Sched.Queues.{IsSched, switch_to-IsSched}

-- The CPU has switched to `next`, the first of the runnable queue.
pub record Switched (s : Sched) (cpu next : ℕ) (rest : List ℕ) (t : Sched) : Type 0 where
  pub valid : IsSched t
  pub chosen : t.cur_proc cpu ≡ next
  pub runs : t.sched_state next ≡ running
  pub queue : t.runnable_queue ≡ (
      if is_running (s.sched_state (s.cur_proc cpu)) then rest ++ (s.cur_proc cpu ∷ []) else rest)
  pub others : (c : ℕ) → c ≢ cpu → t.cur_proc c ≡ s.cur_proc c

runnable_of :
    (f : ℕ → ThreadState) (t : ℕ) → 0 < (if is_runnable (f t) then 1 else 0) → f t ≡ runnable
runnable_of f t h = ground arith

scheduler_idle :
    (s : Sched) (cpu : ℕ)
    → s.runnable_queue ≡ []
    → scheduler s cpu ≡ (if is_running (s.sched_state (s.cur_proc cpu)) then some s else none)
unfolding scheduler
scheduler_idle s cpu e = rw (e, schedule_from) refl

pub scheduler_next :
    (s : Sched) (cpu next : ℕ) (rest : List ℕ)
    → s.runnable_queue ≡ next ∷ rest
    → s.sched_state next ≡ runnable
    → scheduler s cpu ≡ some (switch_to s cpu next)
unfolding scheduler
scheduler_next s cpu next rest e r = rw (e, schedule_from) (rw r refl)

runnable-next :
    (s : Sched) (next : ℕ) (rest : List ℕ)
    → s.runnable_queue ≡ next ∷ rest
    → IsSched s
    → s.sched_state next ≡ runnable
runnable-next s next rest e v =
    runnable_of s.sched_state next (ground (arith, v.runs next, ap (count next) e))

switch_to-Switched :
    (s : Sched) (cpu next : ℕ) (rest : List ℕ)
    → s.runnable_queue ≡ next ∷ rest
    → s.sched_state (s.cur_proc cpu) ≢ runnable
    → IsSched s
    → Switched s cpu next rest (switch_to s cpu next)
unfolding switch_to
switch_to-Switched s cpu next rest e ne v =
    let r = runnable-next s next rest e v in
    let apart : s.cur_proc cpu ≢ next = λ q. ne (ap s.sched_state q ∙ r) in
    record {
      valid = switch_to-IsSched s cpu next r apart v;
      chosen = ground arith;
      runs = ground arith;
      queue = rw e (ground arith);
      others = λ c h. ground arith;
    }

-- With no runnable thread Sched_Scheduler changes nothing, if the current thread is running, and fails
-- its ASSERT otherwise. With one it switches to the first of the queue, and the old thread goes to the
-- end of the queue if it was running; the other CPUs keep their threads.
pub scheduler_lem :
    (s : Sched) (cpu : ℕ)
    → s.sched_state (s.cur_proc cpu) ≢ runnable
    → IsSched s
    → (s.runnable_queue ≡ []
        → scheduler s cpu ≡ (if is_running (s.sched_state (s.cur_proc cpu)) then some s else none))
      × ((next : ℕ) (rest : List ℕ)
          → s.runnable_queue ≡ next ∷ rest
          → (t : Sched) × (scheduler s cpu ≡ some t) × Switched s cpu next rest t)
scheduler_lem s cpu ne v = (
  λ e. scheduler_idle s cpu e,
  λ next rest e. (
    switch_to s cpu next,
    scheduler_next s cpu next rest e (runnable-next s next rest e v),
    switch_to-Switched s cpu next rest e ne v,
  ),
)

-- `n` calls of Sched_Scheduler on one CPU, with nothing between them.
pub schedule_times : ℕ → Sched → ℕ → Option Sched
schedule_times zero s cpu = some s
schedule_times (suc n) s cpu = elim (scheduler s cpu) [
  | none ↦ none
  | some t ↦ schedule_times n t cpu
]

-- The running thread and behind it those that wait for the CPU.
abbrev pub line : Sched → ℕ → List ℕ
line s cpu = s.cur_proc cpu ∷ s.runnable_queue

abbrev rotate : ℕ → List ℕ → List ℕ
rotate zero l = l
rotate (suc n) [] = []
rotate (suc n) (x ∷ l) = rotate n (l ++ (x ∷ []))

rotate-append : (xs ys : List ℕ) → rotate (length xs) (xs ++ ys) ≡ ys ++ xs
rotate-append [] ys = sym (append-nil ys)
rotate-append (x ∷ xs) ys =
    ap (rotate (length xs)) (append_assoc xs ys (x ∷ []))
    ∙ rotate-append xs (ys ++ (x ∷ []))
    ∙ append_assoc ys (x ∷ []) xs

rotate_lem : (n : ℕ) (l : List ℕ) → n ≤ length l → rotate n l ≡ drop n l ++ take n l
rotate_lem n l h =
    let e : length (take n l) ≡ n = omega (arith, length-take n l) in
    ap (rotate n) (sym (take-append-drop n l))
    ∙ ap (λ k. rotate k (take n l ++ drop n l)) (sym e)
    ∙ rotate-append (take n l) (drop n l)

schedule_times-suc :
    (n : ℕ) (s t : Sched) (cpu : ℕ)
    → scheduler s cpu ≡ some t
    → schedule_times (suc n) s cpu ≡ schedule_times n t cpu
unfolding schedule_times
schedule_times-suc n s t cpu e = rw (e, schedule_times) refl

abbrev Rotated : ℕ → Sched → ℕ → Type 0
Rotated n s cpu =
    (t : Sched) × (schedule_times n s cpu ≡ some t)
    × (t.sched_state (t.cur_proc cpu) ≡ running)
    × (line t cpu ≡ rotate n (line s cpu))

Rotated-suc :
    (n : ℕ) (s : Sched) (cpu : ℕ) (l : List ℕ)
    → s.runnable_queue ≡ l
    → IsSched s
    → s.sched_state (s.cur_proc cpu) ≡ running
    → 0 < length l
    → ((t : Sched)
        → IsSched t
        → t.sched_state (t.cur_proc cpu) ≡ running
        → 0 < length t.runnable_queue
        → Rotated n t cpu)
    → Rotated (suc n) s cpu
Rotated-suc n s cpu [] e v r pos rec = absurd (omega arith)
Rotated-suc n s cpu (next ∷ rest) e v r pos rec =
    let (t, p, k) = (scheduler_lem s cpu (λ q. cc) v).1 next rest e in
    let queue : t.runnable_queue ≡ rest ++ (s.cur_proc cpu ∷ []) = k.queue ∙ rw r refl in
    let (u, q, run, l) =
      rec t k.valid (rw k.chosen k.runs)
        (rw queue (omega (arith, length-append rest (s.cur_proc cpu ∷ [])))) in
    (
      u,
      schedule_times-suc n s t cpu p ∙ q,
      run,
      l ∙ rw (k.chosen, queue) (ap (λ m. rotate (suc n) (s.cur_proc cpu ∷ m)) (sym e)),
    )

schedule_times-Rotated :
    (n : ℕ) (s : Sched) (cpu : ℕ)
    → IsSched s
    → s.sched_state (s.cur_proc cpu) ≡ running
    → 0 < length s.runnable_queue
    → Rotated n s cpu
unfolding schedule_times
schedule_times-Rotated zero s cpu v r pos = (s, refl, r, refl)
schedule_times-Rotated (suc n) s cpu v r pos =
    Rotated-suc n s cpu s.runnable_queue refl v r pos
      (λ t w q p. schedule_times-Rotated n t cpu w q p)

-- Round robin: on a CPU that runs a thread while others are runnable, `n` calls of Sched_Scheduler, up
-- to one for each thread of the line, bring the first `n` threads of the line behind the others, in
-- order. So after one call for each, all have run once and the first runs again.
pub round_robin :
    (n : ℕ) (s : Sched) (cpu : ℕ)
    → IsSched s
    → s.sched_state (s.cur_proc cpu) ≡ running
    → n ≤ length (line s cpu)
    → 0 < length s.runnable_queue
    → (t : Sched) × (schedule_times n s cpu ≡ some t)
      × (t.sched_state (t.cur_proc cpu) ≡ running)
      × (line t cpu ≡ drop n (line s cpu) ++ take n (line s cpu))
round_robin n s cpu v r le pos =
    let (t, p, q, l) = schedule_times-Rotated n s cpu v r pos in
    (t, p, q, l ∙ rotate_lem n (line s cpu) le)
