-- ===== src/LibTime.antt =====
-- Calendar time of the C library: lib/libc/time.c. It has its own copies of the loops of
-- sys/kern/ktime.c, over years counted from 1900. `none` is as in KTime.
pub mod Agree
pub mod MkTime
mod Tests
use boring_os_ssaha.Prelude.{
  ℕ, zero, suc, ◌+◌, ◌-◌, ◌*◌, ◌/◌, ◌%◌, ◌^◌, ◌==◌, ltb, if◌then◌else◌, ◌&&◌, not, Bool, true,
  false, Option, none, some, List, [], ◌∷◌, get_elem?,
}

-- `struct tm`, without `tm_isdst`, which no function of time.c touches.
pub record Tm : Type 0 where
  pub tm_sec : ℕ
  pub tm_min : ℕ
  pub tm_hour : ℕ
  pub tm_mday : ℕ
  pub tm_mon : ℕ
  pub tm_year : ℕ
  pub tm_wday : ℕ
  pub tm_yday : ℕ

-- time and gettimeofday, from the nanoseconds that OSTime returns.
pub time : ℕ → ℕ
time nsec = nsec / 1000000000

pub gettimeofday : ℕ → ℕ × ℕ
gettimeofday nsec = (nsec / 1000000000, nsec % 1000000000 / 1000)

-- Time_IsLeapYear
pub is_leap_year : ℕ → Bool
is_leap_year year =
    if not (year % 4 == 0)
    then false
    else if not (year % 100 == 0)
    then true
    else if not (year % 400 == 0)
    then false
    else true

abbrev pub month_days : List ℕ
month_days = 31 ∷ 28 ∷ 31 ∷ 30 ∷ 31 ∷ 30 ∷ 31 ∷ 31 ∷ 30 ∷ 31 ∷ 30 ∷ 31 ∷ []

-- Time_DaysInMonth
pub days_in_month : ℕ → ℕ → Option ℕ
days_in_month year month =
    if (month == 2) && is_leap_year year then some 29 else get_elem? month_days month

abbrev pub days_of_year : ℕ → ℕ
days_of_year year = if is_leap_year year then 366 else 365

-- The loops of gmtime_r over the years, with fuel, and over the months.
pub find_year : ℕ → ℕ → ℕ → Option (ℕ × ℕ)
find_year zero y days = none
find_year (suc f) y days =
    let rest = find_year f (y + 1) (days - days_of_year y) in
    if ltb days (days_of_year y) then some (y, days) else rest

pub find_month : ℕ → ℕ → ℕ → ℕ → Option (ℕ × ℕ)
find_month zero year m days = none
find_month (suc n) year m days = elim (days_in_month year m) [
  | none ↦ none
  | some d ↦ elim (ltb days d) [
    | true ↦ some (m, days)
    | false ↦ find_month n year (m + 1) (days - d)
  ]
]

pub break_down : ℕ → ℕ → ℕ → Option (ℕ × ℕ) → Option Tm
break_down t year yday none = none
break_down t year yday (some (m, mday)) =
    let secs = t % (60 * 60 * 24) in
    let days = t / (60 * 60 * 24) in
    let mins = secs / 60 in
    some (record {
      tm_sec = secs % 60;
      tm_min = mins % 60;
      tm_hour = mins / 60 % 24;
      tm_mday = mday;
      tm_mon = m;
      tm_year = year;
      tm_wday = (days + 3) % 7;
      tm_yday = yday;
    })

-- gmtime_r. The year is stored in an int, less 1900.
pub gmtime_r : ℕ → Option Tm
unfolding break_down
gmtime_r t =
    let days = t / (60 * 60 * 24) in
    elim (find_year (suc days) 1970 days) [
      | none ↦ none
      | some (y, yday) ↦
          let year = (y - 1900) % 2 ^ 32 in
          break_down t year yday (find_month 13 (year + 1900) 0 yday)
    ]

-- localtime_r, with TZ_OFFSET_SECS 0.
pub localtime_r : ℕ → Option Tm
localtime_r t = gmtime_r (t - 0)

-- The loops of mktime over the years and over the months.
pub year_days : ℕ → ℕ → ℕ
year_days zero y = 0
year_days (suc n) y = days_of_year y + year_days n (y + 1)

pub months_days : ℕ → ℕ → ℕ → Option ℕ
months_days zero year m = some 0
months_days (suc n) year m = elim (days_in_month year m) [
  | none ↦ none
  | some d ↦ elim (months_days n year (m + 1)) [ none ↦ none | some rest ↦ some (d + rest) ]
]

-- mktime. The loop over the years runs from 70, on years counted from 1900.
pub mktime : Tm → Option ℕ
mktime tm = elim (months_days tm.tm_mon (tm.tm_year + 1900) 0) [
  | none ↦ none
  | some yday ↦
      let days = year_days (tm.tm_year - 70) 70 + (yday + tm.tm_mday) in
      some ((((24 * days + tm.tm_hour) * 60 + tm.tm_min) * 60 + tm.tm_sec + 0) % 2 ^ 64)
]
