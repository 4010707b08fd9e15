-- ===== src/WaitChannel/Wakeup.antt =====
-- WaitChannel_WakeAll wakes every sleeper of a channel.
use boring_os_ssaha.Prelude.{
  ℕ, ◌+◌, ◌-◌, ◌≤◌, ◌<◌, ◌≡◌, arith, ◌==◌, if◌then◌else◌, List, [], ◌∷◌, ◌++◌, ◌%◌, ◌^◌, count,
  update, ◌⊎◌,
}
use boring_os_ssaha.Sched.{ThreadState, runnable, waiting, running, Sched, fresh, ready}
use boring_os_ssaha.Sched as sched
use boring_os_ssaha.Sched.Queues.{IsSched}
use boring_os_ssaha.WaitChannel.{WaitChannel}

-- The queue of a channel: its threads are distinct, asleep, and have the reference of Sched_Current
-- beside another one, so that Thread_Release does not destroy them.
pub record IsQueue (l : List ℕ) (s : Sched) : Type 0 where
  pub distinct : (t : ℕ) → count t l ≤ 1
  pub asleep : (t : ℕ) → 0 < count t l → s.sched_state t ≡ waiting
  pub held : (t : ℕ) → 0 < count t l → 1 < s.ref_count t

-- All of them are runnable, in their order, behind the threads that were, have lost one reference, and
-- have their time of waiting up to `now` counted; their processes are no longer new.
pub record Woken (now : ℕ) (l : List ℕ) (s t : Sched) : Type 0 where
  pub valid : IsSched t
  pub queue : t.runnable_queue ≡ s.runnable_queue ++ l
  pub states : (x : ℕ) → 0 < count x l → t.sched_state x ≡ runnable
  pub others : (x : ℕ) → count x l ≡ 0 → t.sched_state x ≡ s.sched_state x
  pub refs : (x : ℕ) → t.ref_count x + count x l ≡ s.ref_count x
  pub waited :
      (x : ℕ)
      → 0 < count x l
      → (t.wait_start x ≡ 0)
        × (t.wait_time x ≡ (s.wait_time x + (now + 2 ^ 64 - s.wait_start x)) % 2 ^ 64)
  pub times :
      (x : ℕ) → count x l ≡ 0 → (t.wait_start x ≡ s.wait_start x) × (t.wait_time x ≡ s.wait_time x)
  pub sleepers : (x : ℕ) → count x l ≡ 0 → count x t.wait_queue ≡ count x s.wait_queue
  pub processes :
      (q : ℕ)
      → (t.proc_state q ≡ s.proc_state q)
        ⊎ ((s.proc_state q ≡ fresh)
            × (t.proc_state q ≡ ready)
            × ((x : ℕ) × (0 < count x l) × (s.proc x ≡ q)))
  pub kept :
      (t.cur_proc ≡ s.cur_proc)
      × (t.proc ≡ s.proc)
      × (t.ctx_switches ≡ s.ctx_switches)
      × (t.destroyed ≡ s.destroyed)
  pub family :
      (t.parent ≡ s.parent)
      × (t.threads ≡ s.threads)
      × (t.children_list ≡ s.children_list)
      × (t.zombie_proc ≡ s.zombie_proc)
      × (t.zombie_queue ≡ s.zombie_queue)

-- What Thread_Release leaves when there is a reference.
released_state : Sched → ℕ → Sched
released_state s thr = record s {
  ref_count = update s.ref_count thr (s.ref_count thr - 1);
  destroyed = if s.ref_count thr == 1 then s.destroyed ++ (thr ∷ []) else s.destroyed;
}

runnable-count : (x thr : ℕ) → 0 < count x (thr ∷ []) → x ≡ thr
runnable-count x thr h = ground arith
