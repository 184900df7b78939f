-- ===== src/Common/Bits.antt =====
-- `bit_or` of a number shifted left and one below the shift is their sum.
use Prim.Native.Nat.{
  ℕ, zero, suc, ◌+◌, ◌*◌, ◌/◌, ◌%◌, ◌^◌, ◌≤◌, ◌<◌, max, bit_or, digits, bit_or-bitwise,
}
use mathlib.Core.Path.{◌≡◌, refl, ap}
use native.Mathlib.Omega.{arith}

abbrev or_digits : ℕ → ℕ → ℕ → ℕ
or_digits n a b = digits (λ k. k) max n a b

or_digits_fuel : (n m a b : ℕ) → a ≤ n → a ≤ m → or_digits n a b ≡ or_digits m a b
or_digits_fuel zero zero a b p q = refl
or_digits_fuel zero (suc m) zero b p q = refl
or_digits_fuel zero (suc m) (suc a) b p q = absurd (omega arith)
or_digits_fuel (suc n) zero zero b p q = refl
or_digits_fuel (suc n) zero (suc a) b p q = absurd (omega arith)
or_digits_fuel (suc n) (suc m) zero b p q = refl
or_digits_fuel (suc n) (suc m) (suc a) b p q =
    omega (arith, or_digits_fuel n m (suc a / 2) (b / 2) (omega arith) (omega arith))

zero-bit_or : (b : ℕ) → bit_or 0 b ≡ b
zero-bit_or b = bit_or-bitwise 0 b

-- The law for the lowest digit.
bit_or_step : (a b : ℕ) → bit_or a b ≡ bit_or (a / 2) (b / 2) * 2 + max (a % 2) (b % 2)
bit_or_step zero b = omega (arith, zero-bit_or b, zero-bit_or (b / 2))
bit_or_step (suc a) b = omega (
  arith,
  bit_or-bitwise (suc a) b,
  bit_or-bitwise (suc a / 2) (b / 2),
  or_digits_fuel a (suc a / 2) (suc a / 2) (b / 2) (omega arith) (omega arith),
)

bit_or-zero_fuel : (n a : ℕ) → a ≤ n → bit_or a 0 ≡ a
bit_or-zero_fuel n zero h = refl
bit_or-zero_fuel zero (suc a) h = absurd (omega arith)
bit_or-zero_fuel (suc n) (suc a) h =
    omega (arith, bit_or_step (suc a) 0, bit_or-zero_fuel n (suc a / 2) (omega arith))

bit_or-zero : (a : ℕ) → bit_or a 0 ≡ a
bit_or-zero a = bit_or-zero_fuel a a (omega arith)

double_pow : (k : ℕ) → 2 ^ suc k ≡ 2 * 2 ^ k
double_pow k = omega arith

doubled_shift : (k a : ℕ) → a * 2 ^ suc k ≡ 2 * (a * 2 ^ k)
doubled_shift k a = omega (arith, ap (λ (t : ℕ). a * t) (double_pow k))

half_double : (n : ℕ) → 2 * n / 2 ≡ n
half_double n = omega arith

-- Bits that do not meet: `|` is `+`.
pub bit_or-shift : (k a b : ℕ) → b < 2 ^ k → bit_or (a * 2 ^ k) b ≡ a * 2 ^ k + b
bit_or-shift zero a zero h = rw (bit_or-zero (a * 2 ^ 0)) (omega arith)
bit_or-shift zero a (suc b) h = absurd (omega arith)
bit_or-shift (suc k) a b h = rw (doubled_shift k a) (
    omega (
      arith,
      bit_or_step (2 * (a * 2 ^ k)) b,
      ap (λ (t : ℕ). bit_or t (b / 2)) (half_double (a * 2 ^ k)),
      bit_or-shift k a (b / 2) (omega (arith, double_pow k)),
    ))

-- The same at a number that is known to be a multiple of the power.
pub bit_or-add : (k a x b : ℕ) → x ≡ a * 2 ^ k → b < 2 ^ k → bit_or x b ≡ x + b
bit_or-add k a x b e h = rw e (bit_or-shift k a b h)
