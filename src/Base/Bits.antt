-- ===== src/Base/Bits.antt =====
-- `|` of disjoint fields and `&` with the masks of the source, as arithmetic at variables.
use Prim.Native.Nat.{
  ℕ, zero, suc, ◌+◌, ◌-◌, ◌*◌, ◌/◌, ◌%◌, ◌^◌, ◌≤◌, ◌<◌, min, max, digits, bit_and, bit_or,
  bit_and-bitwise, bit_or-bitwise,
}
use mathlib.Core.Path.{◌≡◌, refl, ap}
use native.Mathlib.Omega.{arith}
use native.Mathlib.Nat.{pow-suc}

-- The digit recursion behind the native operations does not depend on its fuel.
module _ (tail : ℕ → ℕ) (digit : ℕ → ℕ → ℕ) where
  fuel_irrelevant :
      (m n a b : ℕ) → a ≤ m → a ≤ n → digits tail digit m a b ≡ digits tail digit n a b
  fuel_irrelevant zero zero a b hm hn = refl
  fuel_irrelevant zero (suc n) zero b hm hn = refl
  fuel_irrelevant zero (suc n) (suc a) b hm hn = absurd (omega arith)
  fuel_irrelevant (suc m) zero zero b hm hn = refl
  fuel_irrelevant (suc m) zero (suc a) b hm hn = absurd (omega arith)
  fuel_irrelevant (suc m) (suc n) zero b hm hn = refl
  fuel_irrelevant (suc m) (suc n) (suc a) b hm hn =
      rw (fuel_irrelevant m n (suc a / 2) (b / 2) (omega arith) (omega arith))

pub bit_or_digit : (a b : ℕ) → bit_or a b ≡ 2 * bit_or (a / 2) (b / 2) + max (a % 2) (b % 2)
bit_or_digit zero b = omega (arith, bit_or-bitwise 0 b, bit_or-bitwise 0 (b / 2))
bit_or_digit (suc a) b = omega (
  arith,
  bit_or-bitwise (suc a) b,
  bit_or-bitwise (suc a / 2) (b / 2),
  fuel_irrelevant (λ y. y) max a (suc a / 2) (suc a / 2) (b / 2) (omega arith) (omega arith),
)

pub bit_and_digit : (a b : ℕ) → bit_and a b ≡ 2 * bit_and (a / 2) (b / 2) + min (a % 2) (b % 2)
bit_and_digit zero b = omega (arith, bit_and-bitwise 0 b, bit_and-bitwise 0 (b / 2))
bit_and_digit (suc a) b = omega (
  arith,
  bit_and-bitwise (suc a) b,
  bit_and-bitwise (suc a / 2) (b / 2),
  fuel_irrelevant (λ y. 0) min a (suc a / 2) (suc a / 2) (b / 2) (omega arith) (omega arith),
)

pub zero-bit_or : (b : ℕ) → bit_or 0 b ≡ b
zero-bit_or b = bit_or-bitwise 0 b

double_shift : (b k : ℕ) → b * 2 ^ suc k ≡ 2 * (b * 2 ^ k)
double_shift b k = omega (arith, ap (λ (t : ℕ). b * t) (pow-suc 2 k))

-- A low field of `k` bits joined with a field that is shifted above it.
pub bit_or_join : (k low high : ℕ) → low < 2 ^ k → bit_or low (high * 2 ^ k) ≡ low + high * 2 ^ k
bit_or_join zero low high h = ground (arith, zero-bit_or high)
bit_or_join (suc k) low high h = ground (
  arith,
  pow-suc 2 k,
  double_shift high k,
  bit_or_digit low (high * 2 ^ suc k),
  bit_or_join k (low / 2) high (omega arith),
)

bit_and-zero : (n a : ℕ) → a ≤ n → bit_and a 0 ≡ 0
bit_and-zero n zero h = refl
bit_and-zero zero (suc a) h = absurd (omega arith)
bit_and-zero (suc n) (suc a) h =
    omega (arith, bit_and_digit (suc a) 0, bit_and-zero n (suc a / 2) (omega arith))

-- A mask of `k` low ones keeps the low field.
pub bit_and_low : (k low high : ℕ) → low < 2 ^ k → bit_and (low + high * 2 ^ k) (2 ^ k - 1) ≡ low
bit_and_low zero low high h =
    ground (arith, bit_and-zero (low + high * 1) (low + high * 1) (omega arith))
bit_and_low (suc k) low high h = ground (
  arith,
  pow-suc 2 k,
  double_shift high k,
  bit_and_digit (low + high * 2 ^ suc k) (2 ^ suc k - 1),
  bit_and_low k (low / 2) high (omega arith),
)

-- A mask whose `k` low digits are zero reads the high field alone.
pub bit_and_high :
    (k low high mask : ℕ)
    → low < 2 ^ k
    → bit_and (low + high * 2 ^ k) (mask * 2 ^ k) ≡ bit_and high mask * 2 ^ k
bit_and_high zero low high mask h = let e : low ≡ 0 = omega arith in rw (e) (ground arith)
bit_and_high (suc k) low high mask h = ground (
  arith,
  pow-suc 2 k,
  double_shift high k,
  double_shift mask k,
  double_shift (bit_and high mask) k,
  bit_and_digit (low + high * 2 ^ suc k) (mask * 2 ^ suc k),
  bit_and_high k (low / 2) high mask (omega arith),
)
