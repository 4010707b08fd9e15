-- ===== src/KTime.antt =====
-- Calendar time of the kernel: sys/kern/ktime.c. `none` stands for an access behind the table of
-- month lengths, or for a division by zero; in the search for the year it stands for fuel that is
-- used up, which does not happen (`KTime.Calendar.find_year_total`).
pub mod Calendar
pub mod Roundtrip
pub mod Clock
mod Tests
use boring_os_ssaha.Prelude.{
  ℕ, zero, suc, ◌+◌, ◌-◌, ◌*◌, ◌/◌, ◌%◌, ◌^◌, ◌==◌, ltb, if◌then◌else◌, ◌&&◌, not, Bool, true,
  false, Option, none, some, List, [], ◌∷◌, get_elem?,
}

-- A `KTime`; the fields are ints, and the `yday` -1 is `none`.
pub record Time : Type 0 where
  pub sec : ℕ
  pub min : ℕ
  pub hour : ℕ
  pub month : ℕ
  pub year : ℕ
  pub mday : ℕ
  pub wday : ℕ
  pub yday : Option ℕ

-- KTimeIsLeapYear
unfoldable pub is_leap_year : ℕ → Bool
is_leap_year year =
    if not (year % 4 == 0)
    then false
    else if not (year % 100 == 0)
    then true
    else if not (year % 400 == 0)
    then false
    else true

abbrev pub month_days : List ℕ
month_days = 31 ∷ 28 ∷ 31 ∷ 30 ∷ 31 ∷ 30 ∷ 31 ∷ 31 ∷ 30 ∷ 31 ∷ 30 ∷ 31 ∷ []

-- KTimeDaysInMonth
unfoldable pub days_in_month : ℕ → ℕ → Option ℕ
days_in_month year month =
    if (month == 2) && is_leap_year year then some 29 else get_elem? month_days month

-- The days of the year, as the loops over the years choose them.
abbrev pub days_of_year : ℕ → ℕ
days_of_year year = if is_leap_year year then 366 else 365

-- `for (y = y0; y < y0 + n; y++)` of KTime_ToEpoch: the days of `n` years.
unfoldable pub year_days : ℕ → ℕ → ℕ
year_days zero y = 0
year_days (suc n) y = days_of_year y + year_days n (y + 1)

-- `for (m = m0; m < m0 + n; m++)` of KTime_Fixup and KTime_ToEpoch: the days of `n` months.
unfoldable pub months_days : ℕ → ℕ → ℕ → Option ℕ
months_days zero year m = some 0
months_days (suc n) year m = elim (days_in_month year m) [
  | none ↦ none
  | some d ↦ elim (months_days n year (m + 1)) [ none ↦ none | some rest ↦ some (d + rest) ]
]

-- The day of the year from the month and the day of the month, an int.
unfoldable pub yday_of : Time → Option ℕ
yday_of tm = elim (months_days tm.month tm.year 0) [
  | none ↦ none
  | some days ↦ some ((days + tm.mday) % 2 ^ 32)
]

with_yday : Time → Option ℕ → Option Time
with_yday tm none = none
with_yday tm (some d) = some (record tm { yday = some d })

fixup_from : Time → Option ℕ → Option Time
unfolding with_yday
fixup_from tm none = with_yday tm (yday_of tm)
fixup_from tm (some d) = some tm

-- KTime_Fixup
pub fixup : Time → Option Time
unfolding fixup_from
fixup tm = fixup_from tm tm.yday

-- The days of KTime_ToEpoch inside the year.
days_inside : Time → Option ℕ → Option ℕ
days_inside tm none = yday_of tm
days_inside tm (some d) = some d

-- The last lines of KTime_ToEpoch, in uint64_t arithmetic.
unfoldable pub seconds : ℕ → ℕ → ℕ → ℕ → ℕ
seconds days hour min sec = (((24 * days + hour) * 60 + min) * 60 + sec) % 2 ^ 64

-- KTime_ToEpoch
pub to_epoch : Time → Option ℕ
unfolding days_inside
to_epoch tm = elim (days_inside tm tm.yday) [
  | none ↦ none
  | some d ↦ some (seconds (year_days (tm.year - 1970) 1970 + d) tm.hour tm.min tm.sec)
]

-- The search for the year in KTime_FromEpoch, with fuel: the year and the day in it.
unfoldable pub find_year : ℕ → ℕ → ℕ → Option (ℕ × ℕ)
find_year zero y days = none
find_year (suc f) y days =
    let rest = find_year f (y + 1) (days - days_of_year y) in
    if ltb days (days_of_year y) then some (y, days) else rest

-- The search for the month: `n` months are left in the table, and behind it lies no month.
unfoldable pub find_month : ℕ → ℕ → ℕ → ℕ → Option (ℕ × ℕ)
find_month zero year m days = none
find_month (suc n) year m days = elim (days_in_month year m) [
  | none ↦ none
  | some d ↦ elim (ltb days d) [
    | true ↦ some (m, days)
    | false ↦ find_month n year (m + 1) (days - d)
  ]
]

-- The years that can be tried: each takes a day at least.
abbrev pub year_fuel : ℕ → ℕ
year_fuel days = suc days

-- The fields of the result of KTime_FromEpoch, from the month and its day.
unfoldable pub break_down : ℕ → ℕ → ℕ → Option (ℕ × ℕ) → Option Time
break_down epoch y yday none = none
break_down epoch y yday (some (m, mday)) =
    let secs = epoch % (60 * 60 * 24) in
    let days = epoch / (60 * 60 * 24) in
    let mins = secs / 60 in
    some (record {
      sec = secs % 60;
      min = mins % 60;
      hour = mins / 60 % 24;
      month = m;
      year = y;
      mday = mday;
      wday = (days + 3) % 7;
      yday = some yday;
    })

-- KTime_FromEpoch. The year is stored in an int.
pub from_epoch : ℕ → Option Time
from_epoch epoch =
    let days = epoch / (60 * 60 * 24) in
    elim (find_year (year_fuel days) 1970 days) [
      | none ↦ none
      | some (y, yday) ↦ break_down epoch (y % 2 ^ 32) yday (find_month 13 (y % 2 ^ 32) 0 yday)
    ]

-- The statics of ktime.c.
pub record ClockState : Type 0 where
  pub last_epoch : ℕ
  pub last_tsc : ℕ
  pub ticks_per_second : ℕ

-- KTime_Init
pub init : ClockState
init = record { last_epoch = 0; last_tsc = 0; ticks_per_second = 0 }

-- KTime_SetTime
pub set_time : ClockState → ℕ → ℕ → ℕ → ClockState
set_time c epoch tsc tps = record { last_epoch = epoch; last_tsc = tsc; ticks_per_second = tps }

abbrev pub tsc_diff : ClockState → ℕ → ℕ
tsc_diff c tsc = (tsc + 2 ^ 64 - c.last_tsc) % 2 ^ 64

-- KTime_GetEpoch, when Time_GetTSC returns `tsc`.
pub get_epoch : ClockState → ℕ → Option ℕ
get_epoch c tsc =
    if c.ticks_per_second == 0
    then none
    else some ((c.last_epoch + tsc_diff c tsc / c.ticks_per_second) % 2 ^ 64)

-- KTime_GetEpochNS
pub get_epoch_ns : ClockState → ℕ → Option ℕ
get_epoch_ns c tsc =
    if c.ticks_per_second == 0
    then none
    else some (
        (c.last_epoch * 1000000000 + tsc_diff c tsc * 1000000 % 2 ^ 64 / c.ticks_per_second * 1000)
        % 2 ^ 64)

-- KTime_GetTime
pub get_time : ClockState → ℕ → Option Time
get_time c tsc = elim (get_epoch c tsc) [ none ↦ none | some epoch ↦ from_epoch epoch ]
