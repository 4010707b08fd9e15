-- ===== src/KTime/Roundtrip.antt =====
-- KTime_FromEpoch against KTime_ToEpoch and KTime_Fixup, and where it reads behind its table.
use boring_os_ssaha.Prelude.{
  ℕ, zero, suc, ◌+◌, ◌-◌, ◌*◌, ◌/◌, ◌%◌, ◌^◌, ◌≤◌, ◌<◌, ◌≡◌, ◌↔◌, refl, sym, ◌∙◌, ap, subst, arith,
  if◌then◌else◌, true, Option, none, some, inl, inr, Bool-cases,
}
use boring_os_ssaha.KTime.{
  Time, is_leap_year, days_in_month, days_of_year, year_days, months_days, find_year, find_month,
  year_fuel, break_down, from_epoch, to_epoch, yday_of, fixup, seconds,
}
use boring_os_ssaha.KTime.Calendar.{
  YearOf, find_year_total, MonthOf, month, overrun, find_month-MonthOf,
}

-- The broken-down time of an epoch whose day falls on day `d` of year `y`, which is day `md` of month
-- `m`.
abbrev pub time_at : ℕ → ℕ → ℕ → ℕ → ℕ → Time
time_at epoch y d m md = record {
  sec = epoch % (60 * 60 * 24) % 60;
  min = epoch % (60 * 60 * 24) / 60 % 60;
  hour = epoch % (60 * 60 * 24) / 60 / 60 % 24;
  month = m;
  year = y;
  mday = md;
  wday = (epoch / (60 * 60 * 24) + 3) % 7;
  yday = some d;
}

-- What KTime_FromEpoch computes.
pub data Broken (epoch : ℕ) : Option Time → Type 0 where
  down :
      (y d m md s t : ℕ)
      → YearOf 1970 (epoch / (60 * 60 * 24)) y d
      → m < 12
      → months_days m y 0 ≡ some s
      → d ≡ s + md
      → months_days 12 y 0 ≡ some t
      → d < t
      → Broken epoch (some (time_at epoch y d m md))
  out :
      (y d s : ℕ)
      → YearOf 1970 (epoch / (60 * 60 * 24)) y d
      → months_days 12 y 0 ≡ some s
      → s ≤ d
      → Broken epoch none

pub from_epoch_at :
    (epoch y d : ℕ)
    → find_year (year_fuel (epoch / (60 * 60 * 24))) 1970 (epoch / (60 * 60 * 24)) ≡ some (y, d)
    → y < 2 ^ 32
    → from_epoch epoch ≡ break_down epoch y d (find_month 13 y 0 d)
unfolding from_epoch
from_epoch_at epoch y d e h = let k : y % 2 ^ 32 ≡ y = omega arith in rw (e, from_epoch) (rw k refl)

months_zero : (m y s : ℕ) → months_days (m - 0) y 0 ≡ some s → months_days m y 0 ≡ some s
months_zero m y s e = let k : m - 0 ≡ m = omega arith in rw k at e

Broken-MonthOf :
    (epoch y d : ℕ) (r : Option (ℕ × ℕ))
    → YearOf 1970 (epoch / (60 * 60 * 24)) y d
    → MonthOf y 0 d r
    → Broken epoch (break_down epoch y d r)
unfolding break_down
Broken-MonthOf epoch y d r v (month m md s t a b e q f z) =
    down y d m md s t v b (months_zero m y s e) q f z
Broken-MonthOf epoch y d r v (overrun s e q) = out y d s v e q

-- For every epoch below 2^55 the search for the year ends, and the year fits an int.
pub from_epoch-Broken : (epoch : ℕ) → epoch < 2 ^ 55 → Broken epoch (from_epoch epoch)
from_epoch-Broken epoch h =
    let days = epoch / (60 * 60 * 24) in
    let (y, d, e, v) = find_year_total (year_fuel days) 1970 days (omega arith) in
    rw (from_epoch_at epoch y d e (omega (arith, v.no_later)))
      (Broken-MonthOf epoch y d (find_month 13 y 0 d) v (find_month-MonthOf 13 y 0 d (omega arith)))

to_epoch_time_at :
    (epoch y d m md : ℕ)
    → epoch < 2 ^ 64
    → YearOf 1970 (epoch / (60 * 60 * 24)) y d
    → seconds
        (year_days (y - 1970) 1970 + d)
        (time_at epoch y d m md).hour
        (time_at epoch y d m md).min
        (time_at epoch y d m md).sec
      ≡ epoch
unfolding seconds
to_epoch_time_at epoch y d m md h v = omega (arith, v.adds_up)

yday_of_time_at :
    (tm : Time) (s : ℕ)
    → months_days tm.month tm.year 0 ≡ some s
    → s + tm.mday < 2 ^ 32
    → yday_of tm ≡ some (s + tm.mday)
unfolding yday_of
yday_of_time_at tm s e h = rw (e, yday_of) (ap some (omega arith))

-- The time without its day of the year.
abbrev pub no_yday : Time → Time
no_yday tm = record tm { yday = none }

Broken-to_epoch :
    (epoch : ℕ) (o : Option Time) (tm : Time)
    → epoch < 2 ^ 55
    → Broken epoch o
    → o ≡ some tm
    → (to_epoch tm ≡ some epoch)
      × (to_epoch (no_yday tm) ≡ some epoch)
      × (fixup (no_yday tm) ≡ some tm)
unfolding to_epoch fixup
Broken-to_epoch epoch o tm h (down y d m md s t v lt e q f z) p =
    let same : time_at epoch y d m md ≡ tm = cc (p) in
    let days = yday_of_time_at (no_yday (time_at epoch y d m md)) s e (ground (arith, v.within)) in
    subst
      (λ k.
        (to_epoch k ≡ some epoch)
        × (to_epoch (no_yday k) ≡ some epoch)
        × (fixup (no_yday k) ≡ some k))
      same
      (
        ap some (to_epoch_time_at epoch y d m md (omega arith) v),
        rw (days, to_epoch) (rw (← q) (ap some (to_epoch_time_at epoch y d m md (omega arith) v))),
        rw (days, fixup) (rw (← q) refl),
      )
Broken-to_epoch epoch o tm h (out y d s v e q) p = cc

-- Whenever KTime_FromEpoch returns, on an epoch below 2^55, KTime_ToEpoch takes the result back to
-- the epoch, both from its day of the year and from its month and day, and KTime_Fixup computes the
-- same day of the year from these.
pub to_epoch-from_epoch :
    (epoch : ℕ) (tm : Time)
    → epoch < 2 ^ 55
    → from_epoch epoch ≡ some tm
    → (to_epoch tm ≡ some epoch)
      × (to_epoch (no_yday tm) ≡ some epoch)
      × (fixup (no_yday tm) ≡ some tm)
to_epoch-from_epoch epoch tm h e =
    Broken-to_epoch epoch (from_epoch epoch) tm h (from_epoch-Broken epoch h) e

year_table : (y : ℕ) → months_days 12 y 0 ≡ some (if is_leap_year y then 363 else 365)
unfolding months_days days_in_month
year_table y = elim (Bool-cases (is_leap_year y)) [
  | inl t ↦ rw (t, months_days, days_in_month) refl
  | inr t ↦ rw (t, months_days, days_in_month) refl
]

-- A day falls into one year only.
year_days-lt :
    (y d k d' : ℕ) → d < days_of_year y → d' < days_of_year (y + k) → d ≡ year_days k y + d' → k ≡ 0
unfolding year_days
year_days-lt y d zero d' h h' e = refl
year_days-lt y d (suc k) d' h h' e = absurd (omega arith)

year_unique :
    (n k y d d' : ℕ)
    → d < days_of_year (y + n)
    → d' < days_of_year (y + k)
    → year_days n y + d ≡ year_days k y + d'
    → (n ≡ k) × (d ≡ d')
unfolding year_days
year_unique zero zero y d d' h h' e = (refl, omega arith)
year_unique zero (suc k) y d d' h h' e =
    let same : y + 0 ≡ y = omega arith in
    let h₀ : d < days_of_year y = subst (λ z. d < days_of_year z) same h in absurd (omega arith)
year_unique (suc n) zero y d d' h h' e =
    let same : y + 0 ≡ y = omega arith in
    let h₀ : d' < days_of_year y = subst (λ z. d' < days_of_year z) same h' in absurd (omega arith)
year_unique (suc n) (suc k) y d d' h h' e =
    let (p, q) =
      year_unique n k (y + 1) d d' (subst (λ z. d < days_of_year z) (omega arith) h)
        (subst (λ z. d' < days_of_year z) (omega arith) h') (omega arith) in
    (ap suc p, q)

YearOf-unique :
    (days y d y' d' : ℕ) → YearOf 1970 days y d → YearOf 1970 days y' d' → (y ≡ y') × (d ≡ d')
YearOf-unique days y d y' d' v w =
    let a : 1970 + (y - 1970) ≡ y = omega (arith, v.later) in
    let b : 1970 + (y' - 1970) ≡ y' = omega (arith, w.later) in
    let (p, q) =
      year_unique (y - 1970) (y' - 1970) 1970 d d' (rw a v.within) (rw b w.within)
        (sym v.adds_up ∙ w.adds_up) in
    (omega (arith, v.later, w.later), q)

Broken-overrun :
    (epoch y d : ℕ) (o : Option Time)
    → YearOf 1970 (epoch / (60 * 60 * 24)) y d
    → Broken epoch o
    → (o ≡ none) ↔ ((is_leap_year y ≡ true) × (363 ≤ d))
Broken-overrun epoch y d o v (down y' d' m md s t v' lt e q f z) =
    let (p, r) = YearOf-unique _ y d y' d' v v' in
    (
      λ h. cc,
      λ (leap, late).
          let total : some t ≡ some 363 = sym f ∙ rw (← p) (year_table y ∙ rw leap refl) in
          absurd (ground (arith, total)),
    )
Broken-overrun epoch y d o v (out y' d' s v' e q) =
    let (p, r) = YearOf-unique _ y d y' d' v v' in
    let total : some s ≡ some (if is_leap_year y then 363 else 365) =
      sym e ∙ rw (← p) (year_table y) in
    (λ h. ground (arith, total, v.within), λ h. refl)

-- The month table gives a leap year only 363 days, since its extra day goes to March and in its
-- place. KTime_FromEpoch on an epoch below 2^55 reads behind the table exactly for the last three
-- days of a leap year.
pub from_epoch_overrun_iff :
    (epoch y d : ℕ)
    → epoch < 2 ^ 55
    → YearOf 1970 (epoch / (60 * 60 * 24)) y d
    → (from_epoch epoch ≡ none) ↔ ((is_leap_year y ≡ true) × (363 ≤ d))
from_epoch_overrun_iff epoch y d h v =
    Broken-overrun epoch y d (from_epoch epoch) v (from_epoch-Broken epoch h)
