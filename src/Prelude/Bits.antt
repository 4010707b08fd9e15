-- ===== src/Prelude/Bits.antt =====
-- The bitwise "or" that sets flags in a word with free low bits.
use Prim.Native.Nat.{
  ℕ, zero, suc, ◌+◌, ◌*◌, ◌/◌, ◌%◌, ◌^◌, ◌≤◌, ◌<◌, max, bit_or, digits, bit_or-bitwise,
}
use mathlib.Core.Path.{◌≡◌, refl, ap, ◌∙◌}
use native.Mathlib.Omega.{arith}

abbrev or_digits : ℕ → ℕ → ℕ → ℕ
or_digits n a b = digits (λ b. b) max n a b

or_digits_fuel : (n m a b : ℕ) → a ≤ n → a ≤ m → or_digits n a b ≡ or_digits m a b
or_digits_fuel zero zero a b p q = refl
or_digits_fuel zero (suc m) zero b p q = refl
or_digits_fuel zero (suc m) (suc a) b p q = absurd (omega arith)
or_digits_fuel (suc n) zero zero b p q = refl
or_digits_fuel (suc n) zero (suc a) b p q = absurd (omega arith)
or_digits_fuel (suc n) (suc m) zero b p q = refl
or_digits_fuel (suc n) (suc m) (suc a) b p q =
    omega (arith, or_digits_fuel n m (suc a / 2) (b / 2) (omega arith) (omega arith))

zero-bit_or : (b : ℕ) → bit_or 0 b ≡ b
zero-bit_or b = bit_or-bitwise 0 b

pub bit_or_step : (a b : ℕ) → bit_or a b ≡ bit_or (a / 2) (b / 2) * 2 + max (a % 2) (b % 2)
bit_or_step zero b = omega (arith, zero-bit_or b, zero-bit_or (b / 2))
bit_or_step (suc a) b = omega (
  arith,
  bit_or-bitwise (suc a) b,
  bit_or-bitwise (suc a / 2) (b / 2),
  or_digits_fuel a (suc a / 2) (suc a / 2) (b / 2) (omega arith) (omega arith),
)

bit_or-zero_fuel : (n a : ℕ) → a ≤ n → bit_or a 0 ≡ a
bit_or-zero_fuel n zero h = refl
bit_or-zero_fuel zero (suc a) h = absurd (omega arith)
bit_or-zero_fuel (suc n) (suc a) h =
    omega (arith, bit_or_step (suc a) 0, bit_or-zero_fuel n (suc a / 2) (omega arith))

bit_or-zero : (a : ℕ) → bit_or a 0 ≡ a
bit_or-zero a = bit_or-zero_fuel a a (omega arith)

-- Flags below 2^k leave the digits from k on.
pub bit_or_low :
    (k x c d : ℕ)
    → c < 2 ^ k
    → d < 2 ^ k
    → (bit_or (x * 2 ^ k + c) d ≡ x * 2 ^ k + bit_or c d) × (bit_or c d < 2 ^ k)
bit_or_low zero x c d hc hd =
    let c0 : c ≡ 0 = omega arith in
    let d0 : d ≡ 0 = omega arith in
    rw (c0, d0)
      (omega (arith, bit_or-zero (x * 2 ^ 0 + 0), zero-bit_or 0), omega (arith, zero-bit_or 0))
bit_or_low (suc k) x c d hc hd =
    let p : 2 ^ suc k ≡ 2 ^ k * 2 = omega arith in
    let t : x * 2 ^ suc k ≡ x * 2 ^ k * 2 = ap (λ (y : ℕ). x * y) p ∙ grind arith in
    let (e, l) = bit_or_low k x (c / 2) (d / 2) (omega arith) (omega arith) in
    let half : (x * 2 ^ suc k + c) / 2 ≡ x * 2 ^ k + c / 2 = omega arith in
    let odd : (x * 2 ^ suc k + c) % 2 ≡ c % 2 = omega arith in
    (
      bit_or_step (x * 2 ^ suc k + c) d ∙ rw (half, odd, e) (omega (arith, bit_or_step c d)),
      omega (arith, bit_or_step c d),
    )
