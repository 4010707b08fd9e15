-- ===== src/KTimer/Valid.antt =====
-- The well-formedness of the timer wheel, and that the operations of ktimer.c keep it.
use boring_os_ssaha.Prelude.{
  ℕ, ◌+◌, ◌-◌, ◌%◌, ◌^◌, ◌≤◌, ◌<◌, ◌≡◌, ◌≢◌, ap, arith, ◌==◌, leb, if◌then◌else◌, some, count,
}
use native.Mathlib.Decide.{ℕ_discrete}
use boring_os_ssaha.KTimer.{Wheel, timer_wheel_length, create, tick, rotate, process_slot}
use boring_os_ssaha.KTimer.Slot.{SlotDone, process_slot-SlotDone}

abbrev pub Linked : Wheel → ℕ → ℕ → Type 0
Linked w i e = 0 < count e (w.timer_slot i)

-- Every event on the wheel lies in the future, in the slot that the head reaches in the second
-- before its timeout.
pub record IsWheel (w : Wheel) : Type 0 where
  pub head_in : w.timer_head < timer_wheel_length
  pub future : (i e : ℕ) → Linked w i e → w.timer_now < w.timeout e
  pub placed :
      (i e : ℕ)
      → Linked w i e
      → i ≡ (w.timer_head + (w.timeout e - w.timer_now - 1)) % timer_wheel_length
  pub once : (i e : ℕ) → count e (w.timer_slot i) ≤ 1
  pub referenced : (i e : ℕ) → Linked w i e → 0 < w.ref_count e
  pub bounded : (e : ℕ) → w.ref_count e < 2 ^ 64

-- KTimer_Create with a positive timeout, and an event that is on no slot, keeps the wheel well
-- formed, as long as the 64-bit sum of the epoch and the timeout does not wrap.
pub create-IsWheel :
    (w : Wheel) (timeout evt : ℕ)
    → 0 < timeout
    → w.timer_now + timeout < 2 ^ 64
    → ((i : ℕ) → count evt (w.timer_slot i) ≡ 0)
    → IsWheel w
    → IsWheel (create w timeout evt)
unfolding create
create-IsWheel w timeout evt pos small free v = record {
  head_in = v.head_in;
  future = λ i e l. ground (arith, v.future i e, free i);
  placed = λ i e l. ground (arith, v.placed i e, free i, v.head_in);
  once = λ i e. ground (arith, v.once i e, free i);
  referenced = λ i e l. ground (arith, v.referenced i e, free i);
  bounded = λ e. ground (arith, v.bounded e);
}

pub tick_lem :
    (now : ℕ) (w w' : Wheel)
    → process_slot now (w.timer_slot w.timer_head) w ≡ some w'
    → tick now w ≡ some (rotate w')
unfolding tick
tick_lem now w w' p = rw (p, tick)

-- An event listed once in the slot at the head has a reference to give up.
listed-le : (w : Wheel) → IsWheel w → (e : ℕ) → count e (w.timer_slot w.timer_head) ≤ w.ref_count e
listed-le w v e = ground (arith, v.once w.timer_head e, v.referenced w.timer_head e)

-- The event stands in no slot but `i`.
abbrev pub Alone : Wheel → ℕ → ℕ → Type 0
Alone w i e = (j : ℕ) → j ≢ i → count e (w.timer_slot j) ≡ 0

-- What rounds of the loop do to the wheel: an event in a slot either stays there, or leaves it and
-- fires once; and none fires before its timeout.
pub record Ticked (now : ℕ) (w w' : Wheel) : Type 0 where
  pub same_timeout : w'.timeout ≡ w.timeout
  pub fate :
      (i e : ℕ)
      → Alone w i e
      → count e w'.fired + count e (w'.timer_slot i) ≡ count e w.fired + count e (w.timer_slot i)
  pub shrinks : (i e : ℕ) → count e (w'.timer_slot i) ≤ count e (w.timer_slot i)
  pub grows : (e : ℕ) → count e w.fired ≤ count e w'.fired
  pub early : (e : ℕ) → count e w.fired < count e w'.fired → w.timeout e ≤ now

module _ (now : ℕ) (w w' : Wheel) (v : IsWheel w) (before : w.timer_now < now) (fits : now < 2 ^ 64)
    (d : SlotDone now (w.timer_slot w.timer_head) w w') where
  -- The pass empties the slot at the head of the events that are due, and leaves the other slots.
  slots_after :
      (i e : ℕ)
      → count e (w'.timer_slot i) ≡ (
          if i == w.timer_head
          then (if leb (w.timeout e) now then 0 else count e (w.timer_slot i))
          else count e (w.timer_slot i))
  slots_after i e = elim (ℕ_discrete i w.timer_head) [
    | yes p ↦ rw p (ground (arith, d.left e))
    | no p ↦ rw (d.others i p) (ground arith)
  ]

  rotate-IsWheel : IsWheel (rotate w')
  unfolding rotate
  rotate-IsWheel = record {
    head_in = omega arith;
    future = λ i e l. ground (
      arith,
      slots_after i e,
      v.future i e,
      v.placed i e,
      v.head_in,
      d.same_now,
      ap (λ f. f e) d.same_timeout,
    );
    placed = λ i e l. ground (
      arith,
      slots_after i e,
      v.future i e,
      v.placed i e,
      v.head_in,
      d.same_now,
      d.same_head,
      ap (λ f. f e) d.same_timeout,
    );
    once = λ i e. ground (arith, slots_after i e, v.once i e);
    referenced = λ i e l. ground (
      arith,
      slots_after i e,
      v.referenced i e,
      d.drops e,
      v.placed i e,
      v.future i e,
      v.placed w.timer_head e,
      v.future w.timer_head e,
      v.head_in,
    );
    bounded = λ e. ground (arith, d.drops e, v.bounded e);
  }

  rotate-Ticked : Ticked now w (rotate w')
  unfolding rotate
  rotate-Ticked = record {
    same_timeout = d.same_timeout;
    fate = λ i e l. ground (arith, slots_after i e, d.fires e, l w.timer_head);
    shrinks = λ i e. ground (arith, slots_after i e);
    grows = λ e. ground (arith, d.fires e);
    early = λ e l. ground (arith, d.fires e);
  }

  rotate-now : (rotate w').timer_now ≡ w.timer_now + 1
  unfolding rotate
  rotate-now = ground (arith, d.same_now)

-- One round runs to its end, keeps the wheel well formed, and does to the events what `Ticked` says.
pub tick-Ticked :
    (now : ℕ) (w : Wheel)
    → IsWheel w
    → w.timer_now < now
    → now < 2 ^ 64
    → (u : Wheel) × (tick now w ≡ some u)
      × IsWheel u
      × Ticked now w u
      × (u.timer_now ≡ w.timer_now + 1)
tick-Ticked now w v before fits =
    let (w', p, d) =
      process_slot-SlotDone now (w.timer_slot w.timer_head) w (listed-le w v) v.bounded in
    (
      rotate w',
      tick_lem now w w' p,
      rotate-IsWheel now w w' v before fits d,
      rotate-Ticked now w w' v before fits d,
      rotate-now now w w' v before fits d,
    )
