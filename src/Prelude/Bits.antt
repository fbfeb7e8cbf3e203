-- ===== src/Prelude/Bits.antt =====
-- `&` and `|` at variables, for the masks that the code uses: a run of ones at either end.
-- A number is written `q * 2 ^ k + r` with `r` below `2 ^ k`, so that no division is in the way.
use Prim.Native.Nat.{
  ℕ, zero, suc, ◌+◌, ◌-◌, ◌*◌, ◌/◌, ◌%◌, ◌^◌, ◌≤◌, ◌<◌, min, max, bit_and, bit_or, digits,
  bit_and-bitwise, bit_or-bitwise,
}
use Prim.Native.Nat.add
use mathlib.Core.Path.{◌≡◌, refl, ap}
use native.Mathlib.Nat.{pow-suc, one-le-pow}
use native.Mathlib.Omega.{arith}

-- The recursion on digits does not depend on its count, once the count is large enough.
module _ (z : ℕ → ℕ) (f : ℕ → ℕ → ℕ) where
  pub count_of_digits : (n m a b : ℕ) → a ≤ n → a ≤ m → digits z f n a b ≡ digits z f m a b
  count_of_digits zero zero a b p q = refl
  count_of_digits zero (suc m) zero b p q = refl
  count_of_digits (suc n) zero zero b p q = refl
  count_of_digits (suc n) (suc m) zero b p q = refl
  count_of_digits zero m (suc a) b p q = absurd (omega arith)
  count_of_digits (suc n) zero (suc a) b p q = absurd (omega arith)
  count_of_digits (suc n) (suc m) (suc a) b p q =
      omega (arith, count_of_digits n m (suc a / 2) (b / 2) (omega arith) (omega arith))

bit_and-zero_left : (b : ℕ) → bit_and 0 b ≡ 0
bit_and-zero_left b = bit_and-bitwise 0 b

bit_or-zero_left : (b : ℕ) → bit_or 0 b ≡ b
bit_or-zero_left b = bit_or-bitwise 0 b

-- The lowest digit on its own.
pub bit_and_halves : (a b : ℕ) → bit_and a b ≡ bit_and (a / 2) (b / 2) * 2 + min (a % 2) (b % 2)
bit_and_halves zero b = omega (arith, bit_and-zero_left b, bit_and-zero_left (b / 2))
bit_and_halves (suc a) b = omega (
  arith,
  bit_and-bitwise (suc a) b,
  bit_and-bitwise (suc a / 2) (b / 2),
  count_of_digits (λ t. 0) min a (suc a / 2) (suc a / 2) (b / 2) (omega arith) (omega arith),
)

pub bit_or_halves : (a b : ℕ) → bit_or a b ≡ bit_or (a / 2) (b / 2) * 2 + max (a % 2) (b % 2)
bit_or_halves zero b = omega (arith, bit_or-zero_left b, bit_or-zero_left (b / 2))
bit_or_halves (suc a) b = omega (
  arith,
  bit_or-bitwise (suc a) b,
  bit_or-bitwise (suc a / 2) (b / 2),
  count_of_digits (λ t. t) max a (suc a / 2) (suc a / 2) (b / 2) (omega arith) (omega arith),
)

-- A number that halves to itself at zero: both laws go down from `a` to `a / 2`.
bit_and-zero_below : (n a : ℕ) → a ≤ n → bit_and a 0 ≡ 0
bit_and-zero_below n zero h = bit_and-zero_left 0
bit_and-zero_below zero (suc a) h = absurd (omega arith)
bit_and-zero_below (suc n) (suc a) h =
    omega (arith, bit_and_halves (suc a) 0, bit_and-zero_below n (suc a / 2) (omega arith))

bit_or-zero_below : (n a : ℕ) → a ≤ n → bit_or a 0 ≡ a
bit_or-zero_below n zero h = bit_or-zero_left 0
bit_or-zero_below zero (suc a) h = absurd (omega arith)
bit_or-zero_below (suc n) (suc a) h =
    omega (arith, bit_or_halves (suc a) 0, bit_or-zero_below n (suc a / 2) (omega arith))

pub bit_and-zero : (a : ℕ) → bit_and a 0 ≡ 0
bit_and-zero a = bit_and-zero_below a a (omega arith)

pub bit_or-zero : (a : ℕ) → bit_or a 0 ≡ a
bit_or-zero a = bit_or-zero_below a a (omega arith)

double_product : (q k : ℕ) → q * 2 ^ suc k ≡ 2 * (q * 2 ^ k)
double_product q k = omega (arith, ap (λ (t : ℕ). q * t) (pow-suc 2 k))

-- `(q << k) | r` is a sum where `r` fits `k` bits.
pub bit_or_shifted : (k q r : ℕ) → r < 2 ^ k → bit_or (q * 2 ^ k) r ≡ q * 2 ^ k + r
bit_or_shifted zero q r h = ground (arith, bit_or-zero q)
bit_or_shifted (suc k) q r h = ground (
  arith,
  double_product q k,
  pow-suc 2 k,
  bit_or_halves (q * 2 ^ suc k) r,
  bit_or_shifted k q (r / 2) (omega (arith, pow-suc 2 k)),
)

-- `a & (2 ^ k - 1)` keeps the `k` low bits.
bit_and_ones : (k q r : ℕ) → r < 2 ^ k → bit_and (q * 2 ^ k + r) (2 ^ k - 1) ≡ r
bit_and_ones zero q r h = ground (arith, bit_and-zero (q * 1 + r))
bit_and_ones (suc k) q r h = ground (
  arith,
  double_product q k,
  pow-suc 2 k,
  one-le-pow k 2,
  bit_and_halves (q * 2 ^ suc k + r) (2 ^ suc k - 1),
  bit_and_ones k q (r / 2) (omega (arith, pow-suc 2 k)),
)

pub bit_and_low : (k a : ℕ) → bit_and a (2 ^ k - 1) ≡ a % 2 ^ k
bit_and_low k a = ground (arith, one-le-pow k 2, bit_and_ones k (a / 2 ^ k) (a % 2 ^ k))

-- `a | (2 ^ k - 1)` sets the `k` low bits.
pub bit_or_ones :
    (k q r : ℕ) → r < 2 ^ k → bit_or (q * 2 ^ k + r) (2 ^ k - 1) ≡ q * 2 ^ k + (2 ^ k - 1)
bit_or_ones zero q r h = ground (arith, bit_or-zero (q * 1 + r))
bit_or_ones (suc k) q r h = ground (
  arith,
  double_product q k,
  pow-suc 2 k,
  one-le-pow k 2,
  bit_or_halves (q * 2 ^ suc k + r) (2 ^ suc k - 1),
  bit_or_ones k q (r / 2) (omega (arith, pow-suc 2 k)),
)

bit_and_all : (e q : ℕ) → q < 2 ^ e → bit_and q (2 ^ e - 1) ≡ q
bit_and_all e q h = ground (arith, bit_and_ones e 0 q)

-- `a & ((2 ^ e - 1) << k)` clears the `k` low bits of a number of `e + k` bits.
pub bit_and_prefix :
    (k e q r : ℕ)
    → r < 2 ^ k
    → q < 2 ^ e
    → bit_and (q * 2 ^ k + r) ((2 ^ e - 1) * 2 ^ k) ≡ q * 2 ^ k
bit_and_prefix zero e q r h g = ground (arith, bit_and_all e q)
bit_and_prefix (suc k) e q r h g = ground (
  arith,
  double_product q k,
  double_product (2 ^ e - 1) k,
  pow-suc 2 k,
  bit_and_halves (q * 2 ^ suc k + r) ((2 ^ e - 1) * 2 ^ suc k),
  bit_and_prefix k e q (r / 2) (omega (arith, pow-suc 2 k)),
)

pub two-pow-add : (a b : ℕ) → 2 ^ (a + b) ≡ 2 ^ a * 2 ^ b
two-pow-add zero b = omega (arith, ap (λ (t : ℕ). 2 ^ t) (add.zero b))
two-pow-add (suc a) b = omega (
  arith,
  ap (λ (t : ℕ). 2 ^ t) (add.suc a b),
  pow-suc 2 (a + b),
  ap (λ (t : ℕ). t * 2 ^ b) (pow-suc 2 a),
  ap (λ (t : ℕ). t * 2) (two-pow-add a b),
)
