-- ===== src/Spinlock/Tests.antt =====
-- A normal lock that CPU 2 takes, and the theorems at it.
use boring_os_ssaha.Prelude.{ℕ, ◌≡◌, refl, arith}
use boring_os_ssaha.Spinlock.{
  normal, State, init, enter, swap, claim, enters, swaps, claims, Reach, here, next,
}
use boring_os_ssaha.Spinlock.Exclusion.{mutual_exclusion}

abbrev Everyone : ℕ → Type 0
Everyone c = Unit

abbrev taken : State
taken = claim (swap (enter (init normal) 2) 2) 2 100 130

taken-Reach : Reach Everyone (init normal) taken
unfolding init enter swap claim
taken-Reach =
    next (next (next here (enters 2 tt refl refl)) (swaps 2 (ground arith) refl))
      (claims 2 100 130 (ground arith) (omega arith) refl)

mutual_exclusion_example : ◌≡◌ {A = ℕ} 2 2
unfolding init enter swap claim
mutual_exclusion_example =
    mutual_exclusion Everyone normal taken 2 2 (λ e. cc) taken-Reach (ground arith) (ground arith)
