-- ===== src/KTimer/Timely.antt =====
-- KTimer_Process: which events fire, and when.
use boring_os_ssaha.Prelude.{
  ℕ, zero, suc, ◌+◌, ◌-◌, ◌%◌, ◌^◌, ◌≤◌, ◌<◌, ◌≡◌, refl, ◌∙◌, ap, arith, some, count,
}
use boring_os_ssaha.KTimer.{Wheel, timer_wheel_length, create, tick, rotate, process_ticks, process}
use boring_os_ssaha.KTimer.Valid.{Linked, Alone, IsWheel, Ticked, tick-Ticked, tick_lem}
use boring_os_ssaha.KTimer.Slot.{process_slot-SlotDone}

Ticked-refl : (now : ℕ) (w : Wheel) → Ticked now w w
Ticked-refl now w = record {
  same_timeout = refl;
  fate = λ i e l. refl;
  shrinks = λ i e. omega arith;
  grows = λ e. omega arith;
  early = λ e l. absurd (omega arith);
}

Ticked-trans : (now : ℕ) (w u t : Wheel) → Ticked now w u → Ticked now u t → Ticked now w t
Ticked-trans now w u t a b = record {
  same_timeout = b.same_timeout ∙ a.same_timeout;
  fate = λ i e l.
      omega (arith, a.fate i e l, b.fate i e (λ j ne. omega (arith, a.shrinks j e, l j ne)));
  shrinks = λ i e. omega (arith, a.shrinks i e, b.shrinks i e);
  grows = λ e. omega (arith, a.grows e, b.grows e);
  early = λ e l.
      ground (arith, a.early e, b.early e, a.grows e, b.grows e, ap (λ f. f e) a.same_timeout);
}

process_ticks-Ticked :
    (n now : ℕ) (w : Wheel)
    → IsWheel w
    → w.timer_now + n ≤ now
    → now < 2 ^ 64
    → (u : Wheel) × (process_ticks n now w ≡ some u)
      × IsWheel u
      × Ticked now w u
      × (u.timer_now ≡ w.timer_now + n)
unfolding process_ticks
process_ticks-Ticked zero now w v le fits = (w, refl, v, Ticked-refl now w, omega arith)
process_ticks-Ticked (suc n) now w v le fits =
    let (u, p, vu, tu, nu) = tick-Ticked now w v (omega arith) fits in
    let (t, q, vt, tt', nt) = process_ticks-Ticked n now u vu (omega arith) fits in
    (t, rw (p, process_ticks) q, vt, Ticked-trans now w u t tu tt', omega arith)

-- What KTimer_Process leaves at the epoch `now`.
pub record Processed (now : ℕ) (w u : Wheel) : Type 0 where
  pub valid : IsWheel u
  pub caught_up : u.timer_now ≡ now
  pub on_time :
      (i e : ℕ)
      → Linked w i e
      → w.timeout e ≤ now
      → (count e u.fired ≡ count e w.fired + 1) × ((j : ℕ) → count e (u.timer_slot j) ≡ 0)
  pub not_early :
      (i e : ℕ)
      → Linked w i e
      → now < w.timeout e
      → (count e u.fired ≡ count e w.fired) × Linked u i e

Linked-Alone : (w : Wheel) (i e : ℕ) → IsWheel w → Linked w i e → Alone w i e
Linked-Alone w i e v l j ne = ground (arith, v.placed i e, v.placed j e)

Ticked-Processed :
    (now : ℕ) (w u : Wheel)
    → IsWheel w
    → IsWheel u
    → Ticked now w u
    → u.timer_now ≡ now
    → Processed now w u
Ticked-Processed now w u v vu t at = record {
  valid = vu;
  caught_up = at;
  on_time = λ i e l due.
      let gone : (j : ℕ) → count e (u.timer_slot j) ≡ 0 =
        λ j. ground (arith, vu.future j e, ap (λ f. f e) t.same_timeout) in
      (omega (arith, t.fate i e (Linked-Alone w i e v l), gone i, v.once i e), gone);
  not_early = λ i e l later. (
    ground (arith, t.early e, t.grows e),
    ground (arith, t.early e, t.grows e, t.fate i e (Linked-Alone w i e v l)),
  );
}

-- On CPU 0, KTimer_Process at an epoch that is not in the past never fails an ASSERT, keeps the
-- wheel well formed and brings it to that epoch. Every event on the wheel whose timeout has come
-- fires exactly once and leaves the wheel; every other stays in its slot and does not fire.
pub process-Processed :
    (now : ℕ) (w : Wheel)
    → IsWheel w
    → w.timer_now ≤ now
    → now < 2 ^ 64
    → (u : Wheel) × (process 0 now w ≡ some u) × Processed now w u
unfolding process
process-Processed now w v le fits =
    let (u, p, vu, t, at) = process_ticks-Ticked (now - w.timer_now) now w v (omega arith) fits in
    (u, p, Ticked-Processed now w u v vu t (omega arith))

-- A timer created with timeout 0 is due at once, but the round of the loop that follows passes over
-- it: it does not fire, and stays in the slot behind the head, which is the last to come round.
pub create_zero_late :
    (w : Wheel) (evt now : ℕ)
    → IsWheel w
    → ((i : ℕ) → count evt (w.timer_slot i) ≡ 0)
    → w.timer_now < now
    → now < 2 ^ 64
    → let c = create w 0 evt in
      (u : Wheel) × (tick now c ≡ some u)
      × (c.timeout evt ≤ now)
      × (count evt u.fired ≡ count evt c.fired)
      × Linked u ((w.timer_head + 255) % timer_wheel_length) evt
unfolding create rotate
create_zero_late w evt now v free before fits =
    let c = create w 0 evt in
    let (w', p, d) =
      process_slot-SlotDone now (c.timer_slot c.timer_head) c
        (λ e.
          ground (
            arith,
            v.once w.timer_head e,
            v.referenced w.timer_head e,
            v.head_in,
            free w.timer_head,
          ))
        (λ e. ground (arith, v.bounded e)) in
    (
      rotate w',
      tick_lem now c w' p,
      ground arith,
      ground (arith, d.fires evt, v.head_in, free w.timer_head),
      rw (d.others ((w.timer_head + 255) % timer_wheel_length) (omega (arith, v.head_in)))
          (ground (arith, v.head_in)),
    )
