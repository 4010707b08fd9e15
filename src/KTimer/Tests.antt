-- ===== src/KTimer/Tests.antt =====
-- A wheel with one timer, and the theorems at it.
use boring_os_ssaha.Prelude.{◌≡◌, refl, arith, some, []}
use boring_os_ssaha.KTimer.{Wheel, create, process}
use boring_os_ssaha.KTimer.Valid.{IsWheel, create-IsWheel}
use boring_os_ssaha.KTimer.Timely.{Processed, process-Processed}

-- The wheel in second 1000, with no timer.
abbrev quiet : Wheel
quiet = record {
  timer_head = 3;
  timer_now = 1000;
  timer_slot = λ i. [];
  timeout = λ e. 0;
  ref_count = λ e. 0;
  fired = [];
  freed = [];
}

quiet-IsWheel : IsWheel quiet
quiet-IsWheel = record {
  head_in = omega arith;
  future = λ i e l. absurd (omega arith);
  placed = λ i e l. absurd (omega arith);
  once = λ i e. omega arith;
  referenced = λ i e l. absurd (omega arith);
  bounded = λ e. omega arith;
}

one_timer-IsWheel : IsWheel (create quiet 5 77)
one_timer-IsWheel = create-IsWheel quiet 5 77 (omega arith) (omega arith) (λ i. refl) quiet-IsWheel

process-Processed_example :
    (u : Wheel) × (process 0 1005 (create quiet 5 77) ≡ some u)
    × Processed 1005 (create quiet 5 77) u
process-Processed_example =
    process-Processed 1005 (create quiet 5 77) one_timer-IsWheel (unfold create in (omega arith))
      (omega arith)
