-- ===== src/Prelude/Bits.antt =====
-- One bit of a machine word: `w | 1<<b` and `w & 1<<b` for a single power of two, from the digit
-- recursion that the native operations stand for.
use Prim.Native.Nat.{
  ℕ, zero, suc, ◌+◌, ◌*◌, ◌/◌, ◌%◌, ◌^◌, ◌≤◌, min, max, bit_and, bit_or, digits, bitwise,
  bit_and-bitwise, bit_or-bitwise,
}
use mathlib.Core.Path.{◌≡◌, refl}
use mathlib.Core.Bool.{Bool, not, ◌||◌}
use native.Mathlib.Omega.{arith}
use native.Mathlib.Nat.{pow-suc, le_refl}
use udplex.Prelude.Tests.{◌==◌}

-- The fuel of the digit recursion does not matter once it covers the number.
module _ (z : ℕ → ℕ) (f : ℕ → ℕ → ℕ) where
  digits-enough : (n m a b : ℕ) → a ≤ n → a ≤ m → digits z f n a b ≡ digits z f m a b
  digits-enough zero zero a b p q = refl
  digits-enough zero (suc m) zero b p q = refl
  digits-enough zero (suc m) (suc a) b p q = absurd (omega arith)
  digits-enough (suc n) zero zero b p q = refl
  digits-enough (suc n) zero (suc a) b p q = absurd (omega arith)
  digits-enough (suc n) (suc m) zero b p q = refl
  digits-enough (suc n) (suc m) (suc a) b p q =
      rw (digits-enough n m (suc a / 2) (b / 2) (omega arith) (omega arith))

  lowest_digit :
      (a b : ℕ)
      → bitwise z f (suc a) b ≡ bitwise z f (suc a / 2) (b / 2) * 2 + f (suc a % 2) (b % 2)
  lowest_digit a b =
      omega (arith, digits-enough a (suc a / 2) (suc a / 2) (b / 2) (omega arith) (le_refl _))

bit_or-halves : (a b : ℕ) → bit_or a b ≡ bit_or (a / 2) (b / 2) * 2 + max (a % 2) (b % 2)
bit_or-halves zero b = simp bit_or-bitwise (omega arith)
bit_or-halves (suc a) b = simp bit_or-bitwise (lowest_digit (λ y. y) max a b)

bit_and-halves : (a b : ℕ) → bit_and a b ≡ bit_and (a / 2) (b / 2) * 2 + min (a % 2) (b % 2)
bit_and-halves zero b = simp bit_and-bitwise (omega arith)
bit_and-halves (suc a) b = simp bit_and-bitwise (lowest_digit (λ y. 0) min a b)

bit_and_none : (n a : ℕ) → a ≤ n → bit_and a 0 ≡ 0
bit_and_none n zero h = refl
bit_and_none zero (suc a) h = absurd (omega arith)
bit_and_none (suc n) (suc a) h =
    omega (arith, bit_and-halves (suc a) 0, bit_and_none n (suc a / 2) (omega arith))

bit_or_none : (n a : ℕ) → a ≤ n → bit_or a 0 ≡ a
bit_or_none n zero h = refl
bit_or_none zero (suc a) h = absurd (omega arith)
bit_or_none (suc n) (suc a) h =
    omega (arith, bit_or-halves (suc a) 0, bit_or_none n (suc a / 2) (omega arith))

-- Bit `b` of a word.
pub has_bit : ℕ → ℕ → Bool
has_bit zero w = w % 2 == 1
has_bit (suc b) w = has_bit b (w / 2)

-- `w & (1 << b) != 0` tests bit `b`.
pub bit_and-has_bit : (b w : ℕ) → (bit_and w (2 ^ b) == 0) ≡ not (has_bit b w)
unfolding has_bit
bit_and-has_bit zero w =
    ground (arith, bit_and-halves w 1, bit_and_none (w / 2) (w / 2) (le_refl _))
bit_and-has_bit (suc b) w =
    ground (arith, bit_and-halves w (2 ^ suc b), pow-suc 2 b, bit_and-has_bit b (w / 2))

-- `w | (1 << b)` sets bit `b` and leaves the other bits.
pub has_bit-bit_or : (b c w : ℕ) → has_bit c (bit_or w (2 ^ b)) ≡ (b == c || has_bit c w)
unfolding has_bit
has_bit-bit_or zero zero w =
    ground (arith, bit_or-halves w 1, bit_or_none (w / 2) (w / 2) (le_refl _))
has_bit-bit_or zero (suc c) w =
    ground (arith, bit_or-halves w 1, bit_or_none (w / 2) (w / 2) (le_refl _))
has_bit-bit_or (suc b) zero w = ground (arith, bit_or-halves w (2 ^ suc b), pow-suc 2 b)
has_bit-bit_or (suc b) (suc c) w =
    ground (arith, bit_or-halves w (2 ^ suc b), pow-suc 2 b, has_bit-bit_or b c (w / 2))

pub has_bit_zero : (b : ℕ) → has_bit b 0 ≡ Bool.false
unfolding has_bit
has_bit_zero zero = refl
has_bit_zero (suc b) = has_bit_zero b

-- `a | 1` and `a & 0x0f`.
pub bit_or_one : (a : ℕ) → bit_or a 1 ≡ a / 2 * 2 + 1
bit_or_one a = omega (arith, bit_or-halves a 1, bit_or_none (a / 2) (a / 2) (le_refl _))

pub bit_and_fifteen : (a : ℕ) → bit_and a 15 ≡ a % 16
bit_and_fifteen a = omega (
  arith,
  bit_and-halves a 15,
  bit_and-halves (a / 2) 7,
  bit_and-halves (a / 2 / 2) 3,
  bit_and-halves (a / 2 / 2 / 2) 1,
  bit_and_none (a / 2 / 2 / 2 / 2) (a / 2 / 2 / 2 / 2) (le_refl _),
)
