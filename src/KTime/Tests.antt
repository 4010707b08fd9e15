-- ===== src/KTime/Tests.antt =====
-- The theorems on the calendar and on the clock at single times.
use boring_os_ssaha.Prelude.{◌*◌, ◌/◌, ◌≤◌, ◌≡◌, ◌↔◌, refl, arith, true, none, some}
use boring_os_ssaha.KTime.{
  Time, ClockState, is_leap_year, year_days, find_year, find_month, break_down, days_in_month,
  from_epoch, to_epoch, fixup, get_epoch_ns,
}
use boring_os_ssaha.KTime.Calendar.{YearOf}
use boring_os_ssaha.KTime.Roundtrip.{no_yday, to_epoch-from_epoch, from_epoch_overrun_iff}

-- 1970-03-03 04:05:06 is day 61 of its year.
abbrev spring : Time
spring = record {
  sec = 6;
  min = 5;
  hour = 4;
  month = 2;
  year = 1970;
  mday = 2;
  wday = 1;
  yday = some 61;
}

spring_run : from_epoch 5285106 ≡ some spring
unfolding from_epoch find_year find_month break_down days_in_month is_leap_year
spring_run = refl

to_epoch-from_epoch_example :
    (to_epoch spring ≡ some 5285106)
    × (to_epoch (no_yday spring) ≡ some 5285106)
    × (fixup (no_yday spring) ≡ some spring)
to_epoch-from_epoch_example = to_epoch-from_epoch 5285106 spring (omega arith) spring_run

-- The last day of 1972.
leap_end : YearOf 1970 (94608000 / (60 * 60 * 24)) 1972 365
unfolding year_days is_leap_year
leap_end = record {
  later = omega arith;
  within = omega arith;
  adds_up = refl;
  no_later = omega arith;
}

from_epoch_overrun_iff_example :
    (from_epoch 94608000 ≡ none) ↔ ((is_leap_year 1972 ≡ true) × (363 ≤ 365))
from_epoch_overrun_iff_example = from_epoch_overrun_iff 94608000 1972 365 (omega arith) leap_end

abbrev clock : ClockState
clock = record { last_epoch = 500; last_tsc = 1000; ticks_per_second = 2000000 }

ns_last : get_epoch_ns clock 18446744074709 ≡ some 9223872036854000
unfolding get_epoch_ns
ns_last = refl

ns_behind : get_epoch_ns clock 18446744074710 ≡ some 500000000000
unfolding get_epoch_ns
ns_behind = refl
