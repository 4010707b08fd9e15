-- ===== src/LibTime/Tests.antt =====
-- The theorems on the C library's calendar at 1970-03-03 04:05:06.
use boring_os_ssaha.Prelude.{◌≡◌, refl, arith, some}
use boring_os_ssaha.LibTime.{
  Tm, gmtime_r, find_year, find_month, break_down, days_in_month, is_leap_year, mktime,
}
use boring_os_ssaha.LibTime.Agree.{converted, gmtime_r-from_epoch}
use boring_os_ssaha.LibTime.MkTime.{mktime-gmtime_r}
use boring_os_ssaha.KTime

abbrev spring : Tm
spring = record {
  tm_sec = 6;
  tm_min = 5;
  tm_hour = 4;
  tm_mday = 2;
  tm_mon = 2;
  tm_year = 70;
  tm_wday = 1;
  tm_yday = 61;
}

spring_run : gmtime_r 5285106 ≡ some spring
unfolding gmtime_r find_year find_month break_down days_in_month is_leap_year
spring_run = refl

mktime-gmtime_r_example : mktime spring ≡ some 5285106
mktime-gmtime_r_example = mktime-gmtime_r 5285106 spring (omega arith) spring_run (omega arith)

gmtime_r-from_epoch_example : gmtime_r 5285106 ≡ converted (KTime.from_epoch 5285106)
gmtime_r-from_epoch_example = gmtime_r-from_epoch 5285106 (omega arith)
