-- ===== src/KTimer/Slot.antt =====
-- What one pass over the slot at the head does.
use boring_os_ssaha.Prelude.{
  ℕ, ◌+◌, ◌-◌, ◌%◌, ◌^◌, ◌≤◌, ◌<◌, ◌≡◌, ◌≢◌, refl, ◌∙◌, ap, arith, ◌==◌, leb, Bool-cases, true,
  false, inl, inr, if◌then◌else◌, some, List, [], ◌∷◌, ◌++◌, update, remove, count, count-append,
  count-remove_self, count-remove_ne,
}
use boring_os_ssaha.KTimer.{Wheel, expire, dispatch, process_slot}

-- The number of references and slots that the pass takes from an event listed `n` times.
abbrev pub due : ℕ → Wheel → ℕ → ℕ → ℕ
due now w e n = if leb (w.timeout e) now then n else 0

pub record SlotDone (now : ℕ) (l : List ℕ) (w w' : Wheel) : Type 0 where
  pub same_head : w'.timer_head ≡ w.timer_head
  pub same_now : w'.timer_now ≡ w.timer_now
  pub same_timeout : w'.timeout ≡ w.timeout
  pub others : (j : ℕ) → j ≢ w.timer_head → w'.timer_slot j ≡ w.timer_slot j
  pub left :
      (e : ℕ)
      → count e (w'.timer_slot w.timer_head)
        ≡ count e (w.timer_slot w.timer_head) - due now w e (count e l)
  pub fires : (e : ℕ) → count e w'.fired ≡ count e w.fired + due now w e (count e l)
  pub drops : (e : ℕ) → w'.ref_count e ≡ w.ref_count e - due now w e (count e l)

-- The state after an event that is due has been dispatched.
abbrev expired : Wheel → ℕ → Wheel
expired w it = record w {
  fired = w.fired ++ (it ∷ []);
  timer_slot = update w.timer_slot w.timer_head (remove it (w.timer_slot w.timer_head));
  ref_count = update w.ref_count it ((w.ref_count it + 2 ^ 64 - 1) % 2 ^ 64);
  freed = if w.ref_count it == 1 then w.freed ++ (it ∷ []) else w.freed;
}

expire_lem : (w : Wheel) (it : ℕ) → 0 < w.ref_count it → expire w it ≡ some (expired w it)
unfolding expire
expire_lem w it pos = ground arith

expired-SlotDone :
    (now : ℕ) (w : Wheel) (it : ℕ)
    → leb (w.timeout it) now ≡ true
    → 0 < w.ref_count it
    → w.ref_count it < 2 ^ 64
    → SlotDone now (it ∷ []) w (expired w it)
expired-SlotDone now w it d pos small = record {
  same_head = refl;
  same_now = refl;
  same_timeout = refl;
  others = λ j ne. ground arith;
  left = λ e. ground (
    arith,
    count-remove_self e (w.timer_slot w.timer_head),
    count-remove_ne e it (w.timer_slot w.timer_head),
  );
  fires = λ e. ground (arith, count-append e w.fired (it ∷ []));
  drops = λ e. ground arith;
}

waiting-SlotDone :
    (now : ℕ) (w : Wheel) (it : ℕ) → leb (w.timeout it) now ≡ false → SlotDone now (it ∷ []) w w
waiting-SlotDone now w it d = record {
  same_head = refl;
  same_now = refl;
  same_timeout = refl;
  others = λ j ne. refl;
  left = λ e. ground arith;
  fires = λ e. ground arith;
  drops = λ e. ground arith;
}

dispatch-SlotDone :
    (now : ℕ) (w : Wheel) (it : ℕ)
    → 0 < w.ref_count it
    → w.ref_count it < 2 ^ 64
    → (w' : Wheel) × (dispatch now w it ≡ some w') × SlotDone now (it ∷ []) w w'
unfolding dispatch
dispatch-SlotDone now w it pos small = elim (Bool-cases (leb (w.timeout it) now)) [
  | inl d ↦ (expired w it, rw d (expire_lem w it pos), expired-SlotDone now w it d pos small)
  | inr d ↦ (w, rw d, waiting-SlotDone now w it d)
]

SlotDone-cons :
    (now it : ℕ) (l : List ℕ) (w v u : Wheel)
    → SlotDone now (it ∷ []) w v
    → SlotDone now l v u
    → SlotDone now (it ∷ l) w u
SlotDone-cons now it l w v u a b = record {
  same_head = b.same_head ∙ a.same_head;
  same_now = b.same_now ∙ a.same_now;
  same_timeout = b.same_timeout ∙ a.same_timeout;
  others = λ j ne. b.others j (rw a.same_head ne) ∙ a.others j ne;
  left = λ e. ground (arith, b.left e, a.left e, a.same_head, ap (λ f. f e) a.same_timeout);
  fires = λ e. ground (arith, b.fires e, a.fires e, ap (λ f. f e) a.same_timeout);
  drops = λ e. ground (arith, b.drops e, a.drops e, ap (λ f. f e) a.same_timeout);
}

-- The pass runs to its end if every event listed has a reference for each time that it is listed.
pub process_slot-SlotDone :
    (now : ℕ) (l : List ℕ) (w : Wheel)
    → ((e : ℕ) → count e l ≤ w.ref_count e)
    → ((e : ℕ) → w.ref_count e < 2 ^ 64)
    → (w' : Wheel) × (process_slot now l w ≡ some w') × SlotDone now l w w'
unfolding process_slot
process_slot-SlotDone now [] w h small = (
  w,
  refl,
  record {
    same_head = refl;
    same_now = refl;
    same_timeout = refl;
    others = λ j ne. refl;
    left = λ e. ground arith;
    fires = λ e. ground arith;
    drops = λ e. ground arith;
  },
)
process_slot-SlotDone now (it ∷ its) w h small =
    let (v, p, d) = dispatch-SlotDone now w it (ground (arith, h it)) (small it) in
    let (u, q, e) =
      process_slot-SlotDone now its v (λ k. ground (arith, d.drops k, h k))
        (λ k. omega (arith, d.drops k, small k)) in
    (u, rw (p, process_slot) q, SlotDone-cons now it its w v u d e)
