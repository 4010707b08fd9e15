-- ===== src/KTime/Calendar.antt =====
-- The loops of ktime.c over years and months.
use boring_os_ssaha.Prelude.{
  ℕ, zero, suc, ◌+◌, ◌-◌, ◌*◌, ◌≤◌, ◌<◌, ◌≡◌, refl, arith, ◌==◌, ltb, ◌&&◌, true, false, Option,
  none, some, List, [], ◌∷◌, length, get_elem?, inl, inr, Bool-cases,
}
use native.Mathlib.Decide.{ℕ_discrete}
use boring_os_ssaha.KTime.{
  is_leap_year, month_days, days_in_month, days_of_year, year_days, months_days, find_year,
  find_month,
}

-- The day `d` counted from the start of year `y` is the day `d'` of year `y'`.
pub record YearOf (y d y' d' : ℕ) : Type 0 where
  pub later : y ≤ y'
  pub within : d' < days_of_year y'
  pub adds_up : d ≡ year_days (y' - y) y + d'
  pub no_later : 365 * (y' - y) + d' ≤ d

YearOf-suc :
    (y d y' d' : ℕ)
    → days_of_year y ≤ d
    → YearOf (y + 1) (d - days_of_year y) y' d'
    → YearOf y d y' d'
unfolding year_days
YearOf-suc y d y' d' le r =
    let e : y' - y ≡ suc (y' - (y + 1)) = omega (arith, r.later) in
    record {
      later = omega (arith, r.later);
      within = r.within;
      adds_up = rw e (omega (arith, r.adds_up));
      no_later = ground (arith, r.no_later);
    }

year_days_self : (y d : ℕ) → d ≡ year_days (y - y) y + d
unfolding year_days
year_days_self y d = let e : y - y ≡ 0 = omega arith in rw e (omega arith)

-- With more fuel than days the search ends, in the year of the day.
pub find_year_total :
    (f y d : ℕ) → d < f → (y' : ℕ) × (d' : ℕ) × (find_year f y d ≡ some (y', d')) × YearOf y d y' d'
unfolding find_year year_days
find_year_total zero y d h = absurd (omega arith)
find_year_total (suc f) y d h = elim (Bool-cases (ltb d (days_of_year y))) [
  | inl t ↦ (
    y,
    d,
    rw t refl,
    record {
      later = omega arith;
      within = ground arith;
      adds_up = year_days_self y d;
      no_later = omega arith;
    },
  )
  | inr t ↦
      let (y', d', e, r) = find_year_total f (y + 1) (d - days_of_year y) (ground arith) in
      (y', d', rw t e, YearOf-suc y d y' d' (ground arith) r)
]

get_elem?-some : (xs : List ℕ) (i : ℕ) → i < length xs → (x : ℕ) × (get_elem? xs i ≡ some x)
get_elem?-some [] i h = absurd (omega arith)
get_elem?-some (x ∷ xs) zero h = (x, refl)
get_elem?-some (x ∷ xs) (suc i) h = get_elem?-some xs i (omega arith)

days_in_month-some : (year m : ℕ) → m < 12 → (d : ℕ) × (days_in_month year m ≡ some d)
unfolding days_in_month
days_in_month-some year m h = elim (Bool-cases ((m == 2) && is_leap_year year)) [
  | inl t ↦ (29, rw t refl)
  | inr t ↦ let (d, e) = get_elem?-some month_days m h in (d, rw t e)
]

days_in_month-none : (year : ℕ) → days_in_month year 12 ≡ none
unfolding days_in_month
days_in_month-none year = refl

-- The end of the search for a month from month `m` on: the month and the day in it; or, behind the
-- last month, no result, when the days reach past the months that the table gives.
pub data MonthOf (year m d : ℕ) : Option (ℕ × ℕ) → Type 0 where
  month :
      (m' d' s t : ℕ)
      → m ≤ m'
      → m' < 12
      → months_days (m' - m) year m ≡ some s
      → d ≡ s + d'
      → months_days (12 - m) year m ≡ some t
      → d < t
      → MonthOf year m d (some (m', d'))
  overrun : (s : ℕ) → months_days (12 - m) year m ≡ some s → s ≤ d → MonthOf year m d none

pub months_days_step :
    (k year m d s : ℕ)
    → days_in_month year m ≡ some d
    → months_days k year (m + 1) ≡ some s
    → months_days (suc k) year m ≡ some (d + s)
unfolding months_days
months_days_step k year m d s p q = rw (p, months_days) (rw (q, months_days) refl)

months_days-some : (k year m : ℕ) → m + k ≤ 12 → (s : ℕ) × (months_days k year m ≡ some s)
unfolding months_days
months_days-some zero year m h = (0, refl)
months_days-some (suc k) year m h =
    let (d, p) = days_in_month-some year m (omega arith) in
    let (s, q) = months_days-some k year (m + 1) (omega arith) in
    (d + s, months_days_step k year m d s p q)

months_days_self : (year m : ℕ) → months_days (m - m) year m ≡ some 0
unfolding months_days
months_days_self year m = let e : m - m ≡ 0 = omega arith in rw e refl

month_found :
    (year m d l u : ℕ)
    → m < 12
    → days_in_month year m ≡ some l
    → months_days (12 - (m + 1)) year (m + 1) ≡ some u
    → d < l
    → MonthOf year m d (some (m, d))
month_found year m d l u lt p f h =
    let j : 12 - m ≡ suc (12 - (m + 1)) = omega arith in
    month m d 0 (l + u) (omega arith) lt (months_days_self year m) (omega arith)
      (rw j (months_days_step (12 - (m + 1)) year m l u p f)) (omega arith)

MonthOf-suc :
    (year m d l : ℕ) (r : Option (ℕ × ℕ))
    → m < 12
    → days_in_month year m ≡ some l
    → l ≤ d
    → MonthOf year (m + 1) (d - l) r
    → MonthOf year m d r
MonthOf-suc year m d l r lt p le (month m' d' s t a b e q f z) =
    let j : 12 - m ≡ suc (12 - (m + 1)) = omega arith in
    let k : m' - m ≡ suc (m' - (m + 1)) = omega arith in
    month m' d' (l + s) (l + t) (omega arith) b
      (rw k (months_days_step (m' - (m + 1)) year m l s p e)) (omega arith)
      (rw j (months_days_step (12 - (m + 1)) year m l t p f)) (omega arith)
MonthOf-suc year m d l r lt p le (overrun s e q) =
    let k : 12 - m ≡ suc (12 - (m + 1)) = omega arith in
    overrun (l + s) (rw k (months_days_step (12 - (m + 1)) year m l s p e)) (omega arith)

find_month-step :
    (n year m d l : ℕ)
    → days_in_month year m ≡ some l
    → find_month (suc n) year m d ≡ (elim (ltb d l) as (λ b. Option (ℕ × ℕ)) [
      | true ↦ some (m, d)
      | false ↦ find_month n year (m + 1) (d - l)
    ])
unfolding find_month
find_month-step n year m d l p = rw (p, find_month) refl

behind_table :
    (n year m d : ℕ) → 12 ≤ m → m ≤ 13 → find_month n year m d ≡ none → MonthOf year m d none
unfolding months_days
behind_table n year m d lo hi e =
    let k : 12 - m ≡ 0 = omega arith in overrun 0 (rw k refl) (omega arith)

find_month_last : (n year d : ℕ) → find_month n year 12 d ≡ none
unfolding find_month
find_month_last zero year d = refl
find_month_last (suc n) year d = rw (days_in_month-none year, find_month) refl

find_month_end : (year d : ℕ) → find_month 0 year 13 d ≡ none
unfolding find_month
find_month_end year d = refl

-- The search over the months ends as `MonthOf` says.
pub find_month-MonthOf : (n year m d : ℕ) → m + n ≡ 13 → MonthOf year m d (find_month n year m d)
find_month-MonthOf zero year m d h =
    let e : m ≡ 13 = omega arith in
    rw e (
      rw (find_month_end year d)
        (behind_table 0 year 13 d (omega arith) (omega arith) (find_month_end year d)))
find_month-MonthOf (suc n) year m d h = elim (ℕ_discrete m 12) [
  | yes e ↦ rw e (
      rw (find_month_last (suc n) year d) (
        behind_table (suc n) year 12 d (omega arith) (omega arith)
          (find_month_last (suc n) year d)))
  | no ne ↦
      let (l, p) = days_in_month-some year m (omega arith) in
      rw (find_month-step n year m d l p) (elim (Bool-cases (ltb d l)) [
        | inl t ↦
            let (u, f) = months_days-some (12 - (m + 1)) year (m + 1) (omega arith) in
            rw t (month_found year m d l u (omega arith) p f (ground arith))
        | inr t ↦ rw t (
            MonthOf-suc year m d l (find_month n year (m + 1) (d - l)) (omega arith) p
              (ground arith) (find_month-MonthOf n year (m + 1) (d - l) (omega arith)))
      ])
]
