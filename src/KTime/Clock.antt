-- ===== src/KTime/Clock.antt =====
-- The clock of ktime.c: the seconds that it counts, and where its nanoseconds wrap.
use boring_os_ssaha.Prelude.{
  ℕ, ◌+◌, ◌-◌, ◌*◌, ◌/◌, ◌%◌, ◌^◌, ◌≤◌, ◌<◌, ◌≡◌, refl, sym, ◌∙◌, arith, none, some,
}
use boring_os_ssaha.KTime.{ClockState, set_time, get_epoch, get_epoch_ns, tsc_diff}

set_time_diff :
    (c : ClockState) (epoch tsc tps tsc' : ℕ)
    → tsc ≤ tsc'
    → tsc' < 2 ^ 64
    → tsc_diff (set_time c epoch tsc tps) tsc' ≡ tsc' - tsc
unfolding set_time
set_time_diff c epoch tsc tps tsc' le small = omega arith

div_le : (a b : ℕ) → a / b ≤ a
div_le a b = grind arith

-- After KTime_SetTime with a positive rate, KTime_GetEpoch at a later reading of the counter is the
-- epoch set plus the whole seconds since, if that fits; the clock never goes back; and with the rate 0
-- the code divides by zero.
pub get_epoch-set_time :
    (c : ClockState) (epoch tsc tps tsc' : ℕ)
    → tsc ≤ tsc'
    → epoch + tsc' < 2 ^ 64
    → (0 < tps → get_epoch (set_time c epoch tsc tps) tsc' ≡ some (epoch + (tsc' - tsc) / tps))
      × (get_epoch (set_time c epoch tsc 0) tsc' ≡ none)
unfolding get_epoch set_time
get_epoch-set_time c epoch tsc tps tsc' le small = (
  λ pos.
      rw (set_time_diff c epoch tsc tps tsc' le (omega arith), get_epoch)
        (ground (arith, div_le (tsc' - tsc) tps)),
  refl,
)

div_pos : (a b : ℕ) → 0 < b → b ≤ a → 0 < a / b
div_pos a b h l = grind arith

div_bound : (a b m : ℕ) → m ≤ b → a / b * m ≤ a
div_bound a b m h = grind arith

div_small : (a b : ℕ) → a < b → a / b ≡ 0
div_small a b h = grind arith

-- The counter readings, from the last KTime_SetTime on, at which the product in KTime_GetEpochNS is
-- the last to fit 64 bits.
abbrev pub last_ticks : ℕ
last_ticks = 18446744073709

-- The nanoseconds for a product of ticks that has the value `n` in 64 bits.
abbrev stamp : ClockState → ℕ → ℕ
stamp c n = (c.last_epoch * 1000000000 + n / c.ticks_per_second * 1000) % 2 ^ 64

stamp_lem :
    (c : ClockState) (tsc n : ℕ)
    → 0 < c.ticks_per_second
    → tsc_diff c tsc * 1000000 % 2 ^ 64 ≡ n
    → get_epoch_ns c tsc ≡ some (stamp c n)
unfolding get_epoch_ns
stamp_lem c tsc n pos e = rw (e, get_epoch_ns) (ground arith)

-- KTime_GetEpochNS goes back: one tick behind `last_ticks` it returns less than at it, for every rate
-- from 10^6 up to 10^10 ticks a second and every epoch below 10^9 seconds.
pub get_epoch_ns_wraps :
    (c : ClockState) (a b : ℕ)
    → 1000000 ≤ c.ticks_per_second
    → c.ticks_per_second ≤ 10000000000
    → c.last_epoch < 1000000000
    → c.last_tsc + last_ticks + 1 < 2 ^ 64
    → get_epoch_ns c (c.last_tsc + last_ticks) ≡ some a
    → get_epoch_ns c (c.last_tsc + last_ticks + 1) ≡ some b
    → b < a
unfolding get_epoch_ns
get_epoch_ns_wraps c a b lo hi small fits p q =
    let e₀ : tsc_diff c (c.last_tsc + last_ticks) * 1000000 % 2 ^ 64 ≡ 18446744073709000000 =
      omega arith in
    let e₁ : tsc_diff c (c.last_tsc + last_ticks + 1) * 1000000 % 2 ^ 64 ≡ 448384 = omega arith in
    let f₀ : get_epoch_ns c (c.last_tsc + last_ticks) ≡ some (stamp c 18446744073709000000) =
      stamp_lem c (c.last_tsc + last_ticks) 18446744073709000000 (omega arith) e₀ in
    let f₁ : get_epoch_ns c (c.last_tsc + last_ticks + 1) ≡ some (stamp c 448384) =
      stamp_lem c (c.last_tsc + last_ticks + 1) 448384 (omega arith) e₁ in
    let a_is : some a ≡ some (stamp c 18446744073709000000) = sym p ∙ f₀ in
    let b_is : some b ≡ some (stamp c 448384) = sym q ∙ f₁ in
    ground (
      arith,
      a_is,
      b_is,
      div_pos 18446744073709000000 c.ticks_per_second (omega arith) (omega arith),
      div_bound 18446744073709000000 c.ticks_per_second 1000000 lo,
      div_small 448384 c.ticks_per_second (omega arith),
    )
