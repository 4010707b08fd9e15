-- ===== src/Pthread/Cond/Queue.antt =====
-- A condition variable as a queue of sleepers.
use boring_os_ssaha.Prelude.{
  ℕ, zero, suc, ◌+◌, ◌-◌, ◌%◌, ◌^◌, ◌≤◌, ◌<◌, ◌≡◌, ◌↔◌, refl, sym, ap, ◌∙◌, arith, ◌==◌, ltb,
  if◌then◌else◌, true, false, List, [], ◌∷◌, ◌++◌, count, length, Option, none, some, Bool-cases,
  inl, inr, ◌⊎◌,
}
use boring_os_ssaha.Pthread.{etimedout}
use boring_os_ssaha.Pthread.Cond.{Cond, take_ticket, is_released, signal, broadcast, timed_loop}

-- The calls of the threads.
pub data Op : Type 0 where
  wait wake wake_all : Op

abbrev apply : Op → Cond → Cond
apply wait c = (take_ticket c).0
apply wake c = signal c
apply wake_all c = broadcast c

abbrev pub run : List Op → Cond → Cond
run [] c = c
run (op ∷ ops) c = run ops (apply op c)

-- What a condition variable promises: a queue of the sleepers, by their tickets, and the number of
-- signals that came when nobody slept, each of which lets a later wait pass.
pub record Sleepers : Type 0 where
  pub next : ℕ
  pub asleep : List ℕ
  pub credit : ℕ

abbrev tail : List ℕ → List ℕ
tail [] = []
tail (x ∷ xs) = xs

abbrev earned : List ℕ → ℕ
earned [] = 1
earned (x ∷ xs) = 0

abbrev pub apply_spec : Op → Sleepers → Sleepers
apply_spec wait s = record {
  next = s.next + 1;
  asleep = if s.credit == 0 then s.asleep ++ (s.next ∷ []) else s.asleep;
  credit = s.credit - 1;
}
apply_spec wake s = record {
  next = s.next;
  asleep = tail s.asleep;
  credit = s.credit + earned s.asleep;
}
apply_spec wake_all s = record { next = s.next; asleep = []; credit = 0 }

abbrev pub run_spec : List Op → Sleepers → Sleepers
run_spec [] s = s
run_spec (op ∷ ops) s = run_spec ops (apply_spec op s)

-- The numbers from `a` on.
abbrev pub range_from : ℕ → ℕ → List ℕ
range_from a zero = []
range_from a (suc n) = a ∷ range_from (a + 1) n

-- The sleepers of a condition variable hold the tickets from `exit` to `enter`.
abbrev pub view : Cond → Sleepers
view c = record {
  next = c.enter;
  asleep = range_from c.exit (c.enter - c.exit);
  credit = c.exit - c.enter;
}

range_from-snoc : (n a : ℕ) → range_from a n ++ ((a + n) ∷ []) ≡ range_from a (suc n)
range_from-snoc zero a = ground arith
range_from-snoc (suc n) a =
    ap (λ (l : List ℕ). a ∷ l)
      (ap (λ (x : ℕ). range_from (a + 1) n ++ (x ∷ [])) (omega arith) ∙ range_from-snoc n (a + 1))

Sleepers-path :
    (s t : Sleepers) → s.next ≡ t.next → s.asleep ≡ t.asleep → s.credit ≡ t.credit → s ≡ t
Sleepers-path s t p q r = ground arith

split_le : (a b : ℕ) → (a ≤ b) ⊎ (b < a)
split_le a b = ground arith

asleep_wait :
    (e x : ℕ)
    → range_from x (e + 1 - x)
      ≡ (if (x - e) == 0 then range_from x (e - x) ++ (e ∷ []) else range_from x (e - x))
asleep_wait e x = elim (split_le x e) [
  | inl le ↦
      let n : e + 1 - x ≡ suc (e - x) = omega arith in
      let z : x - e ≡ 0 = omega arith in
      let last : x + (e - x) ≡ e = omega arith in
      rw (n, z)
        (sym (range_from-snoc (e - x) x) ∙ ap (λ (y : ℕ). range_from x (e - x) ++ (y ∷ [])) last)
  | inr lt ↦
      let n : e + 1 - x ≡ 0 = omega arith in
      let m : e - x ≡ 0 = omega arith in rw (n, m) (ground arith)
]

asleep_wake : (e x : ℕ) → range_from (x + 1) (e - (x + 1)) ≡ tail (range_from x (e - x))
asleep_wake e x = elim (split_le e x) [
  | inl le ↦
      let n : e - (x + 1) ≡ 0 = omega arith in let m : e - x ≡ 0 = omega arith in rw (n, m) refl
  | inr lt ↦ let m : e - x ≡ suc (e - (x + 1)) = omega arith in rw m refl
]

credit_wake : (e x : ℕ) → x + 1 - e ≡ x - e + earned (range_from x (e - x))
credit_wake e x = elim (split_le e x) [
  | inl le ↦ let m : e - x ≡ 0 = omega arith in rw m (omega arith)
  | inr lt ↦ let m : e - x ≡ suc (e - (x + 1)) = omega arith in rw m (omega arith)
]

wait-view : (c : Cond) → c.enter + 1 < 2 ^ 64 → view (apply wait c) ≡ apply_spec wait (view c)
unfolding take_ticket
wait-view c h =
    let n : (c.enter + 1) % 2 ^ 64 ≡ c.enter + 1 = omega arith in
    rw n (Sleepers-path _ _ refl (asleep_wait c.enter c.exit) (omega arith))

wake-view : (c : Cond) → c.exit + 1 < 2 ^ 64 → view (apply wake c) ≡ apply_spec wake (view c)
unfolding signal
wake-view c h =
    let n : (c.exit + 1) % 2 ^ 64 ≡ c.exit + 1 = omega arith in
    rw n (Sleepers-path _ _ refl (asleep_wake c.enter c.exit) (credit_wake c.enter c.exit))

wake_all-view : (c : Cond) → view (apply wake_all c) ≡ apply_spec wake_all (view c)
unfolding broadcast
wake_all-view c = let z : c.enter - c.enter ≡ 0 = omega arith in rw z refl

count-range_from : (n a x : ℕ) → x < a + n → (count x (range_from a n) ≡ 0) ↔ (x < a)
count-range_from zero a x h = (λ e. omega arith, λ l. refl)
count-range_from (suc n) a x h = (
  λ e. ground (arith, (count-range_from n (a + 1) x (omega arith)).0),
  λ l. ground (arith, (count-range_from n (a + 1) x (omega arith)).1),
)

-- The counters stay below 2^64 for as many calls as `n`.
abbrev pub Below : ℕ → Cond → Type 0
Below n c = (c.enter + n < 2 ^ 64) × (c.exit + n < 2 ^ 64)

apply-view :
    (op : Op) (c : Cond) (n : ℕ)
    → Below (suc n) c
    → (view (apply op c) ≡ apply_spec op (view c)) × Below n (apply op c)
unfolding take_ticket signal broadcast
apply-view wait c n b = (wait-view c (omega arith), omega arith)
apply-view wake c n b = (wake-view c (omega arith), omega arith)
apply-view wake_all c n b = (wake_all-view c, omega arith)

-- After any calls of pthread_cond_wait, pthread_cond_signal and pthread_cond_broadcast that keep the
-- counters below 2^64, in any order, the condition variable is the queue that it stands for: a wait
-- goes to its end unless a signal was left over, a signal wakes its first sleeper or is left over, and
-- a broadcast wakes all.
pub run_refines :
    (ops : List Op) (c : Cond) → Below (length ops) c → view (run ops c) ≡ run_spec ops (view c)
run_refines [] c b = refl
run_refines (op ∷ ops) c b =
    let (e, b') = apply-view op c (length ops) b in
    run_refines ops (apply op c) b' ∙ ap (run_spec ops) e

released :
    (c : Cond) (level : ℕ) → level < c.enter → level < c.exit → count level (view c).asleep ≡ 0
released c level h l = elim (split_le c.exit c.enter) [
  | inl le ↦ (count-range_from (c.enter - c.exit) c.exit level (omega arith)).1 l
  | inr lt ↦ let m : c.enter - c.exit ≡ 0 = omega arith in rw m refl
]

waiting :
    (c : Cond) (level : ℕ) → level < c.enter → count level (view c).asleep ≡ 0 → level < c.exit
waiting c level h e = elim (split_le c.exit c.enter) [
  | inl le ↦ (count-range_from (c.enter - c.exit) c.exit level (omega arith)).0 e
  | inr lt ↦ omega arith
]

-- The loop of a wait ends exactly when its ticket is not in the queue.
pub is_released_iff :
    (c : Cond) (level : ℕ)
    → level < c.enter
    → (is_released level c ≡ true) ↔ (count level (view c).asleep ≡ 0)
unfolding is_released
is_released_iff c level h =
    (λ e. released c level h (ground arith), λ e. ground (arith, waiting c level h e))

-- pthread_cond_wait gives up its mutex before it takes its ticket. A broadcast between the two is lost
-- on it: whatever the state, the ticket that it takes then is not released; had it taken it before,
-- the broadcast would have released it.
pub broadcast_lost :
    (c : Cond)
    → c.enter + 1 < 2 ^ 64
    → (is_released (take_ticket (broadcast c)).1 (take_ticket (broadcast c)).0 ≡ false)
      × (is_released (take_ticket c).1 (broadcast (take_ticket c).0) ≡ true)
unfolding take_ticket broadcast is_released
broadcast_lost c h = (ground arith, ground arith)

-- The first round of pthread_cond_timedwait that ends it: it sees the ticket released, or the time over
-- while the ticket is not; no round before it does.
pub data Ended (level endtime : ℕ) : List (ℕ × ℕ) → Option ℕ → Type 0 where
  still : Ended level endtime [] none
  woken :
      {exit now : ℕ} {rounds : List (ℕ × ℕ)}
      → level < exit
      → Ended level endtime ((exit, now) ∷ rounds) (some 0)
  over :
      {exit now : ℕ} {rounds : List (ℕ × ℕ)}
      → exit ≤ level
      → endtime < now
      → Ended level endtime ((exit, now) ∷ rounds) (some etimedout)
  later :
      {exit now : ℕ} {rounds : List (ℕ × ℕ)} {r : Option ℕ}
      → exit ≤ level
      → now ≤ endtime
      → Ended level endtime rounds r
      → Ended level endtime ((exit, now) ∷ rounds) r

pub timed_loop-Ended :
    (level endtime : ℕ) (rounds : List (ℕ × ℕ))
    → Ended level endtime rounds (timed_loop level endtime rounds)
unfolding timed_loop
timed_loop-Ended level endtime [] = Ended.still
timed_loop-Ended level endtime ((exit, now) ∷ rounds) = elim (Bool-cases (ltb level exit)) [
  | inl a ↦ rw a (Ended.woken (ground arith))
  | inr a ↦ elim (Bool-cases (ltb endtime now)) [
    | inl b ↦ rw (a, b) (Ended.over (ground arith) (ground arith))
    | inr b ↦
        rw (a, b)
          (Ended.later (ground arith) (ground arith) (timed_loop-Ended level endtime rounds))
  ]
]
