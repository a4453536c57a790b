-- ===== src/Prelude/Bits.antt =====
-- The bitwise or of two disjoint bit fields is their sum, at every width.
use Prim.Native.Nat.{max, digits, bit_or-bitwise}
use native.Mathlib.Nat.{pow-suc}
use ddl.Prelude.{ℕ, zero, suc, ◌+◌, ◌*◌, ◌/◌, ◌%◌, ◌^◌, ◌≤◌, ◌<◌, bit_or, ◌≡◌, refl, ap, arith}

abbrev or_digits : ℕ → ℕ → ℕ → ℕ
or_digits n a b = digits (λ b. b) max n a b

-- The digit recursion needs no more rounds than its first argument has value.
or_digits_fuel : (n m a b : ℕ) → a ≤ n → a ≤ m → or_digits n a b ≡ or_digits m a b
or_digits_fuel (suc n) (suc m) (suc a) b p q =
    omega (arith, or_digits_fuel n m (suc a / 2) (b / 2) (omega arith) (omega arith))
or_digits_fuel (suc n) zero (suc a) b p q = absurd (omega arith)
or_digits_fuel zero m (suc a) b p q = absurd (omega arith)
or_digits_fuel (suc n) (suc m) zero b p q = refl
or_digits_fuel (suc n) zero zero b p q = refl
or_digits_fuel zero (suc m) zero b p q = refl
or_digits_fuel zero zero zero b p q = refl

zero-bit_or : (b : ℕ) → bit_or 0 b ≡ b
zero-bit_or b = bit_or-bitwise 0 b

bit_or_step : (a b : ℕ) → bit_or a b ≡ bit_or (a / 2) (b / 2) * 2 + max (a % 2) (b % 2)
bit_or_step zero b = omega (arith, zero-bit_or b, zero-bit_or (b / 2))
bit_or_step (suc a) b = omega (
  arith,
  bit_or-bitwise (suc a) b,
  bit_or-bitwise (suc a / 2) (b / 2),
  or_digits_fuel a (suc a / 2) (suc a / 2) (b / 2) (omega arith) (omega arith),
)

bit_or-zero_fuel : (n a : ℕ) → a ≤ n → bit_or a 0 ≡ a
bit_or-zero_fuel n zero h = refl
bit_or-zero_fuel zero (suc a) h = absurd (omega arith)
bit_or-zero_fuel (suc n) (suc a) h =
    omega (arith, bit_or_step (suc a) 0, bit_or-zero_fuel n (suc a / 2) (omega arith))

double_shift : (q k : ℕ) → q * 2 ^ suc k ≡ 2 * (q * 2 ^ k)
double_shift q k = omega (arith, ap (λ (t : ℕ). q * t) (pow-suc 2 k))

-- A low field of `k` bits, or'd with one that is shifted by `k`.
pub bit_or-low_high :
    (k low high : ℕ) → low < 2 ^ k → bit_or low (high * 2 ^ k) ≡ low + high * 2 ^ k
bit_or-low_high zero low high fits = ground (arith, zero-bit_or high)
bit_or-low_high (suc k) low high fits = ground (
  arith,
  bit_or_step low (high * 2 ^ suc k),
  double_shift high k,
  bit_or-low_high k (low / 2) high (omega (arith, pow-suc 2 k)),
)

-- The same with the shifted field first.
pub bit_or-high_low :
    (k high low : ℕ) → low < 2 ^ k → bit_or (high * 2 ^ k) low ≡ high * 2 ^ k + low
bit_or-high_low zero high low fits = ground (arith, bit_or-zero_fuel high high)
bit_or-high_low (suc k) high low fits = ground (
  arith,
  bit_or_step (high * 2 ^ suc k) low,
  double_shift high k,
  bit_or-high_low k high (low / 2) (omega (arith, pow-suc 2 k)),
)
