-- ===== src/Base/Bits/Step.antt =====
-- One digit of the native bit operations: its lowest digit, and its half.
use Prim.Native.Nat.{ℕ, zero, suc, ◌+◌, ◌*◌, ◌/◌, ◌%◌, ◌≤◌, ◌<◌}
use Prim.Native.Nat.{bit_and, bit_or, bit_xor, min, max, digits, bitwise}
use Prim.Native.Nat.{bit_and-bitwise, bit_or-bitwise, bit_xor-bitwise, differ}
use mathlib.Core.Path.{◌≡◌, refl}
use native.Mathlib.Omega.{arith}
use native.Mathlib.Nat.{le_refl}

module _ (z : ℕ → ℕ) (f : ℕ → ℕ → ℕ) where
  -- Fuel above the first operand makes no difference.
  digits-enough : (m n a c : ℕ) → a ≤ m → a ≤ n → digits z f m a c ≡ digits z f n a c
  digits-enough zero zero a c low high = refl
  digits-enough zero (suc n) zero c low high = refl
  digits-enough zero (suc n) (suc a) c low high = absurd (omega arith)
  digits-enough (suc m) zero zero c low high = refl
  digits-enough (suc m) zero (suc a) c low high = absurd (omega arith)
  digits-enough (suc m) (suc n) zero c low high = refl
  digits-enough (suc m) (suc n) (suc a) c low high =
      rw (digits-enough m n (suc a / 2) (c / 2) (omega arith) (omega arith))

  bitwise-unroll :
      (a b : ℕ)
      → bitwise z f (suc a) b ≡ bitwise z f (suc a / 2) (b / 2) * 2 + f (suc a % 2) (b % 2)
  bitwise-unroll a b =
      omega (arith, digits-enough a (suc a / 2) (suc a / 2) (b / 2) (omega arith) (le_refl _))

and_unroll : (a b : ℕ) → bit_and a b ≡ bit_and (a / 2) (b / 2) * 2 + min (a % 2) (b % 2)
and_unroll zero b = simp bit_and-bitwise (omega arith)
and_unroll (suc a) b = simp bit_and-bitwise (bitwise-unroll (λ y. 0) min a b)

or_unroll : (a b : ℕ) → bit_or a b ≡ bit_or (a / 2) (b / 2) * 2 + max (a % 2) (b % 2)
or_unroll zero b = simp bit_or-bitwise (omega arith)
or_unroll (suc a) b = simp bit_or-bitwise (bitwise-unroll (λ y. y) max a b)

xor_unroll : (a b : ℕ) → bit_xor a b ≡ bit_xor (a / 2) (b / 2) * 2 + differ (a % 2) (b % 2)
xor_unroll zero b = simp bit_xor-bitwise (omega arith)
xor_unroll (suc a) b = simp bit_xor-bitwise (bitwise-unroll (λ y. y) differ a b)

pub bit_and_low : (a b : ℕ) → bit_and a b % 2 ≡ min (a % 2) (b % 2)
bit_and_low a b = omega (arith, and_unroll a b)

pub bit_and_half : (a b : ℕ) → bit_and a b / 2 ≡ bit_and (a / 2) (b / 2)
bit_and_half a b = omega (arith, and_unroll a b)

pub bit_or_low : (a b : ℕ) → bit_or a b % 2 ≡ max (a % 2) (b % 2)
bit_or_low a b = omega (arith, or_unroll a b)

pub bit_or_half : (a b : ℕ) → bit_or a b / 2 ≡ bit_or (a / 2) (b / 2)
bit_or_half a b = omega (arith, or_unroll a b)

differ-digits : (x y : ℕ) → x < 2 → y < 2 → differ x y ≡ (x + y) % 2
differ-digits zero y p q = omega arith
differ-digits (suc zero) zero p q = refl
differ-digits (suc zero) (suc zero) p q = refl
differ-digits (suc zero) (suc (suc y)) p q = absurd (omega arith)
differ-digits (suc (suc x)) y p q = absurd (omega arith)

pub bit_xor_low : (a b : ℕ) → bit_xor a b % 2 ≡ (a % 2 + b % 2) % 2
bit_xor_low a b =
    omega (arith, xor_unroll a b, differ-digits (a % 2) (b % 2) (omega arith) (omega arith))

pub bit_xor_half : (a b : ℕ) → bit_xor a b / 2 ≡ bit_xor (a / 2) (b / 2)
bit_xor_half a b =
    omega (arith, xor_unroll a b, differ-digits (a % 2) (b % 2) (omega arith) (omega arith))
