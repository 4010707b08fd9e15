-- ===== src/LibTime/Agree.antt =====
-- gmtime_r of the C library against KTime_FromEpoch of the kernel.
use boring_os_ssaha.Prelude.{
  ℕ, zero, suc, ◌+◌, ◌-◌, ◌*◌, ◌/◌, ◌%◌, ◌^◌, ◌≤◌, ◌<◌, ◌≡◌, refl, arith, ltb, Option, none, some,
  Option-cases, Bool-cases, inl, inr,
}
use boring_os_ssaha.KTime
use boring_os_ssaha.KTime.Calendar.{find_year_total}
use boring_os_ssaha.KTime.Roundtrip.{from_epoch_at}
use boring_os_ssaha.LibTime.{
  Tm, is_leap_year, days_in_month, find_year, find_month, break_down, gmtime_r, months_days,
}

pub is_leap_year-eq : (y : ℕ) → is_leap_year y ≡ KTime.is_leap_year y
unfolding is_leap_year KTime.is_leap_year
is_leap_year-eq y = refl

pub days_in_month-eq : (y m : ℕ) → days_in_month y m ≡ KTime.days_in_month y m
unfolding days_in_month KTime.days_in_month is_leap_year KTime.is_leap_year
days_in_month-eq y m = refl

find_year-eq : (f y d : ℕ) → find_year f y d ≡ KTime.find_year f y d
unfolding find_year KTime.find_year
find_year-eq zero y d = refl
find_year-eq (suc f) y d =
    rw (is_leap_year-eq y) (rw (find_year-eq f (y + 1) (d - KTime.days_of_year y)) refl)

find_month-eq : (n y m d : ℕ) → find_month n y m d ≡ KTime.find_month n y m d
unfolding find_month KTime.find_month
find_month-eq zero y m d = refl
find_month-eq (suc n) y m d = elim (Option-cases (KTime.days_in_month y m)) [
  | inl e ↦ rw (days_in_month-eq y m, find_month, e, KTime.find_month) refl
  | inr (l, e) ↦
      rw (days_in_month-eq y m, find_month, e, KTime.find_month)
        (elim (Bool-cases (ltb d l)) [
          | inl t ↦ rw t refl
          | inr t ↦ rw t (find_month-eq n y (m + 1) (d - l))
        ])
]

pub months_days-eq : (n y m : ℕ) → months_days n y m ≡ KTime.months_days n y m
unfolding months_days KTime.months_days
months_days-eq zero y m = refl
months_days-eq (suc n) y m = elim (Option-cases (KTime.days_in_month y m)) [
  | inl e ↦ rw (days_in_month-eq y m, months_days, e, KTime.months_days) refl
  | inr (l, e) ↦
      rw (days_in_month-eq y m, months_days, e, KTime.months_days)
        (rw (months_days-eq n y (m + 1)) refl)
]

abbrev pub to_tm : KTime.Time → ℕ → Tm
to_tm tm yday = record {
  tm_sec = tm.sec;
  tm_min = tm.min;
  tm_hour = tm.hour;
  tm_mday = tm.mday;
  tm_mon = tm.month;
  tm_year = tm.year - 1900;
  tm_wday = tm.wday;
  tm_yday = yday;
}

with_yday : KTime.Time → Option ℕ → Option Tm
with_yday tm none = none
with_yday tm (some yday) = some (to_tm tm yday)

-- The broken-down time of the C library for that of the kernel: the year counts from 1900.
unfoldable pub converted : Option KTime.Time → Option Tm
unfolding with_yday
converted none = none
converted (some tm) = with_yday tm tm.yday

break_down-eq :
    (t y d : ℕ) (o : Option (ℕ × ℕ))
    → break_down t (y - 1900) d o ≡ converted (KTime.break_down t y d o)
unfolding break_down KTime.break_down converted
break_down-eq t y d none = refl
break_down-eq t y d (some (m, md)) = refl

gmtime_r_at :
    (t y d : ℕ)
    → KTime.find_year (suc (t / (60 * 60 * 24))) 1970 (t / (60 * 60 * 24)) ≡ some (y, d)
    → 1970 ≤ y
    → y < 2 ^ 32
    → gmtime_r t ≡ break_down t (y - 1900) d (KTime.find_month 13 y 0 d)
unfolding gmtime_r
gmtime_r_at t y d e lo hi =
    let k : (y - 1900) % 2 ^ 32 ≡ y - 1900 = omega arith in
    let j : y - 1900 + 1900 ≡ y = omega arith in
    rw (find_year-eq (suc (t / (60 * 60 * 24))) 1970 (t / (60 * 60 * 24)), gmtime_r)
      (rw e (rw k (rw j (rw (find_month-eq 13 y 0 d) refl))))

-- On every time below 2^55, gmtime_r of the C library computes what KTime_FromEpoch of the kernel
-- computes, with the year counted from 1900, and reads behind its table of months where that does.
pub gmtime_r-from_epoch : (t : ℕ) → t < 2 ^ 55 → gmtime_r t ≡ converted (KTime.from_epoch t)
gmtime_r-from_epoch t h =
    let days = t / (60 * 60 * 24) in
    let (y, d, e, v) = find_year_total (suc days) 1970 days (omega arith) in
    rw (gmtime_r_at t y d e v.later (omega (arith, v.no_later))) (
      rw (from_epoch_at t y d e (omega (arith, v.no_later)))
        (break_down-eq t y d (KTime.find_month 13 y 0 d)))
