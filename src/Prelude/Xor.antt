-- ===== src/Prelude/Xor.antt =====
-- `^` on numbers: it is its own inverse.
use Prim.Native.Nat.{ℕ, zero, suc, ◌+◌, ◌*◌, ◌/◌, ◌%◌, ◌≤◌, ◌<◌, bit_xor, differ, bit_xor-bitwise}
use mathlib.Core.Path.{◌≡◌, ◌∙◌}
use native.Mathlib.Omega.{arith}
use uscan.Prelude.Bits.{count_of_digits}

bit_xor-zero_left : (b : ℕ) → bit_xor 0 b ≡ b
bit_xor-zero_left b = bit_xor-bitwise 0 b

differ_bits : (p q : ℕ) → p < 2 → q < 2 → differ p q ≡ (p + q) % 2
differ_bits zero zero h g = omega arith
differ_bits zero (suc zero) h g = omega arith
differ_bits (suc zero) zero h g = omega arith
differ_bits (suc zero) (suc zero) h g = omega arith
differ_bits zero (suc (suc q)) h g = absurd (omega arith)
differ_bits (suc zero) (suc (suc q)) h g = absurd (omega arith)
differ_bits (suc (suc p)) q h g = absurd (omega arith)

-- The lowest digit on its own.
bit_xor_halves : (a b : ℕ) → bit_xor a b ≡ bit_xor (a / 2) (b / 2) * 2 + (a % 2 + b % 2) % 2
bit_xor_halves zero b = omega (arith, bit_xor-zero_left b, bit_xor-zero_left (b / 2))
bit_xor_halves (suc a) b = omega (
  arith,
  bit_xor-bitwise (suc a) b,
  bit_xor-bitwise (suc a / 2) (b / 2),
  count_of_digits (λ t. t) differ a (suc a / 2) (suc a / 2) (b / 2) (omega arith) (omega arith),
  differ_bits (suc a % 2) (b % 2) (omega arith) (omega arith),
)

involutive : (fuel a b : ℕ) → a + b ≤ fuel → bit_xor (bit_xor a b) b ≡ a
involutive zero a b h =
    let first : a ≡ 0 = omega arith in
    let second : b ≡ 0 = omega arith in rw (first, second) (bit_xor-zero_left 0)
involutive (suc fuel) a b h =
    let x = bit_xor a b in
    let e = bit_xor_halves a b in
    let high : x / 2 ≡ bit_xor (a / 2) (b / 2) = omega (arith, e) in
    let low : x % 2 ≡ (a % 2 + b % 2) % 2 = omega (arith, e) in
    bit_xor_halves x b
    ∙ rw (high, low) (omega (arith, involutive fuel (a / 2) (b / 2) (omega arith)))

pub bit_xor_involutive : (a b : ℕ) → bit_xor (bit_xor a b) b ≡ a
bit_xor_involutive a b = involutive (a + b) a b (omega arith)
