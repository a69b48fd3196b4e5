-- ===== src/Prelude/Bits.antt =====
-- Bitwise or at numbers whose bits do not meet is a sum: by recursion on the binary digits.
use Prim.Native.Nat.{
  ℕ, zero, suc, ◌+◌, ◌*◌, ◌/◌, ◌%◌, ◌^◌, ◌≤◌, ◌<◌, max, bit_or, digits, bit_or-bitwise,
}
use mathlib.Core.Path.{◌≡◌, refl, ap, ◌∙◌}
use native.Mathlib.Omega.{arith}
use native.Mathlib.Nat.{pow-suc}

abbrev or_digits : ℕ → ℕ → ℕ → ℕ
or_digits n a b = digits (λ c. c) max n a b

-- Any count of digits that reaches the first number's end gives the same.
or_digits_enough : (n m a b : ℕ) → a ≤ n → a ≤ m → or_digits n a b ≡ or_digits m a b
or_digits_enough zero zero a b p q = refl
or_digits_enough zero (suc m) zero b p q = refl
or_digits_enough zero (suc m) (suc a) b p q = absurd (omega arith)
or_digits_enough (suc n) zero zero b p q = refl
or_digits_enough (suc n) zero (suc a) b p q = absurd (omega arith)
or_digits_enough (suc n) (suc m) zero b p q = refl
or_digits_enough (suc n) (suc m) (suc a) b p q =
    omega (arith, or_digits_enough n m (suc a / 2) (b / 2) (omega arith) (omega arith))

zero-bit_or : (b : ℕ) → bit_or 0 b ≡ b
zero-bit_or b = bit_or-bitwise 0 b

bit_or_step : (a b : ℕ) → bit_or a b ≡ bit_or (a / 2) (b / 2) * 2 + max (a % 2) (b % 2)
bit_or_step zero b = omega (arith, zero-bit_or b, zero-bit_or (b / 2))
bit_or_step (suc a) b = omega (
  arith,
  bit_or-bitwise (suc a) b,
  bit_or-bitwise (suc a / 2) (b / 2),
  or_digits_enough a (suc a / 2) (suc a / 2) (b / 2) (omega arith) (omega arith),
)

bit_or-zero_enough : (n a : ℕ) → a ≤ n → bit_or a 0 ≡ a
bit_or-zero_enough n zero h = refl
bit_or-zero_enough zero (suc a) h = absurd (omega arith)
bit_or-zero_enough (suc n) (suc a) h =
    omega (arith, bit_or_step (suc a) 0, bit_or-zero_enough n (suc a / 2) (omega arith))

double : (n k : ℕ) → n * 2 ^ suc k ≡ n * 2 ^ k * 2
double n k = omega (arith, ap (λ t. n * t) (pow-suc 2 k))

-- One more binary digit.
bit_or_double : (a m : ℕ) → bit_or (a / 2) m ≡ a / 2 + m → bit_or a (m * 2) ≡ a + m * 2
bit_or_double a m h =
    let half : m * 2 / 2 ≡ m = omega arith in bit_or_step a (m * 2) ∙ rw half (omega (arith, h))

-- The first number below `2 ^ k`, the second a multiple of it.
pub low-bit_or : (k a n : ℕ) → a < 2 ^ k → bit_or a (n * 2 ^ k) ≡ a + n * 2 ^ k
low-bit_or zero a n h =
    let none : a ≡ 0 = omega arith in rw none (zero-bit_or (n * 1) ∙ omega arith)
low-bit_or (suc k) a n h =
    let e : n * 2 ^ suc k ≡ n * 2 ^ k * 2 = double n k in
    rw e (bit_or_double a (n * 2 ^ k) (low-bit_or k (a / 2) n (omega (arith, pow-suc 2 k))))

-- The other order.
bit_or_double_left : (a m : ℕ) → bit_or m (a / 2) ≡ m + a / 2 → bit_or (m * 2) a ≡ m * 2 + a
bit_or_double_left a m h =
    let half : m * 2 / 2 ≡ m = omega arith in bit_or_step (m * 2) a ∙ rw half (omega (arith, h))

pub bit_or-low : (k n b : ℕ) → b < 2 ^ k → bit_or (n * 2 ^ k) b ≡ n * 2 ^ k + b
bit_or-low zero n b h =
    let none : b ≡ 0 = omega arith in
    rw none (bit_or-zero_enough (n * 1) (n * 1) (omega arith) ∙ omega arith)
bit_or-low (suc k) n b h =
    let e : n * 2 ^ suc k ≡ n * 2 ^ k * 2 = double n k in
    rw e (bit_or_double_left b (n * 2 ^ k) (bit_or-low k n (b / 2) (omega (arith, pow-suc 2 k))))
