-- ===== src/LibTime/MkTime.antt =====
-- mktime of the C library against its gmtime_r.
use boring_os_ssaha.Prelude.{
  ℕ, zero, suc, ◌+◌, ◌-◌, ◌*◌, ◌/◌, ◌%◌, ◌^◌, ◌≤◌, ◌<◌, ◌≡◌, sym, ◌∙◌, ap, subst, arith, ◌==◌, ltb,
  leb, ◌&&◌, if◌then◌else◌, Option, some,
}
use boring_os_ssaha.KTime
use boring_os_ssaha.KTime.Calendar.{YearOf}
use boring_os_ssaha.KTime.Roundtrip.{Broken, down, out, from_epoch-Broken, time_at}
use boring_os_ssaha.LibTime.{Tm, is_leap_year, days_of_year, gmtime_r, year_days, mktime}
use boring_os_ssaha.LibTime.Agree.{months_days-eq, converted, gmtime_r-from_epoch, to_tm}

-- Whether the years from `y` on, `n` of them, hold the year 100, which is 2000.
abbrev holds_2000 : ℕ → ℕ → ℕ
holds_2000 n y = if leb y 100 && ltb 100 (y + n) then 1 else 0

leap_shift :
    (y : ℕ)
    → 0 < y
    → y < 400
    → days_of_year y + (if y == 100 then 1 else 0) ≡ KTime.days_of_year (y + 1900)
unfolding is_leap_year KTime.is_leap_year
leap_shift y pos h = ground arith

year_days_shift :
    (n y : ℕ) → 0 < y → y + n ≤ 400 → year_days n y + holds_2000 n y ≡ KTime.year_days n (y + 1900)
unfolding year_days KTime.year_days
year_days_shift zero y pos h = ground arith
year_days_shift (suc n) y pos h =
    let e : y + 1 + 1900 ≡ y + 1900 + 1 = omega arith in
    let r : year_days n (y + 1) + holds_2000 n (y + 1) ≡ KTime.year_days n (y + 1900 + 1) =
      year_days_shift n (y + 1) (omega arith) (omega arith) ∙ ap (KTime.year_days n) e in
    ground (arith, leap_shift y pos (omega arith), r)

-- The days that mktime counts for a year up to 2300: one too few, for the years after 2000.
mktime_days :
    (days y d : ℕ)
    → YearOf 1970 days y d
    → y ≤ 2300
    → year_days (y - 1900 - 70) 70 + d + (if ltb 100 (y - 1900) then 1 else 0) ≡ days
mktime_days days y d v le =
    let e : y - 1900 - 70 ≡ y - 1970 = omega arith in
    rw e (
      ground (
        arith,
        year_days_shift (y - 1970) 70 (omega arith) (omega (arith, v.later)),
        v.adds_up,
        v.later,
      ))

same_time :
    (t y d : ℕ)
    → t < 2 ^ 55
    → YearOf 1970 (t / (60 * 60 * 24)) y d
    → y ≤ 2300
    → let tm = time_at t y d 0 0 in
      (((24 * (year_days (y - 1900 - 70) 70 + d) + tm.hour) * 60 + tm.min) * 60 + tm.sec + 0)
        % 2 ^ 64
      ≡ (if ltb 100 (y - 1900) then t - 86400 else t)
same_time t y d h v le = ground (arith, mktime_days (t / (60 * 60 * 24)) y d v le)

mktime_at :
    (t y d m md s : ℕ)
    → t < 2 ^ 55
    → YearOf 1970 (t / (60 * 60 * 24)) y d
    → y ≤ 2300
    → KTime.months_days m y 0 ≡ some s
    → d ≡ s + md
    → mktime (to_tm (time_at t y d m md) d) ≡ some (if ltb 100 (y - 1900) then t - 86400 else t)
unfolding mktime
mktime_at t y d m md s h v le e q =
    let j : y - 1900 + 1900 ≡ y = omega (arith, v.later) in
    rw (j, mktime)
      (rw (months_days-eq m y 0, mktime)
        (rw (e, mktime) (rw (← q) (ap some (same_time t y d h v le)))))

mktime_of_Broken :
    (t : ℕ) (o : Option KTime.Time) (tm : Tm)
    → t < 2 ^ 55
    → Broken t o
    → converted o ≡ some tm
    → tm.tm_year ≤ 400
    → mktime tm ≡ some (if ltb 100 tm.tm_year then t - 86400 else t)
unfolding converted
mktime_of_Broken t o tm h (down y d m md s k v lt e q f z) p le =
    let same : to_tm (time_at t y d m md) d ≡ tm = cc (p) in
    let le' : y ≤ 2300 = ground (arith, ap (λ x. x.tm_year) same) in
    subst (λ x. mktime x ≡ some (if ltb 100 x.tm_year then t - 86400 else t)) same
      (mktime_at t y d m md s h v le' e q)
mktime_of_Broken t o tm h (out y d s v e q) p le = cc

-- Up to the year 2000, mktime takes the result of gmtime_r back to the time. From 2001 to 2300 it
-- returns a time that is one day too early, since it tests the years counted from 1900 for leap years
-- and so passes over the leap day of 2000.
pub mktime-gmtime_r :
    (t : ℕ) (tm : Tm)
    → t < 2 ^ 55
    → gmtime_r t ≡ some tm
    → tm.tm_year ≤ 400
    → mktime tm ≡ some (if ltb 100 tm.tm_year then t - 86400 else t)
mktime-gmtime_r t tm h e le =
    mktime_of_Broken t (KTime.from_epoch t) tm h (from_epoch-Broken t h)
      (sym (gmtime_r-from_epoch t h) ∙ e) le
