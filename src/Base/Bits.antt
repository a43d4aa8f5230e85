-- ===== src/Base/Bits.antt =====
-- The binary digits of a number, and what the machine operations do to each of them.
mod Step
use Step.{bit_and_low, bit_and_half, bit_or_low, bit_or_half, bit_xor_low, bit_xor_half}
use Prim.Native.Nat.{ℕ, zero, suc, ◌+◌, ◌-◌, ◌*◌, ◌/◌, ◌%◌, ◌^◌, ◌≤◌, ◌<◌}
use Prim.Native.Nat.{bit_and, bit_or, bit_xor, min, max}
use mathlib.Core.Path.{◌≡◌, refl, sym, ap, ◌∙◌}
use mathlib.Core.Bool.{Bool, true, false, not, ◌&&◌, ◌||◌}
use native.Mathlib.Omega.{arith}
use native.Mathlib.Decide.{dec_lt}
use native.Mathlib.Nat.{
  pow-suc, pow-succ', one-le-pow, div-add-mod, mod-lt, mod-eq_of_lt, mul-add-mod_self_left,
}
use native.Mathlib.Nat.{mod-one, div-one, mul-one, sub-zero, div-div-eq-div-mul, zero-add}
use mathlib.Core.Logic.{inl, inr}
use rafi_1st.Base.Tests.{ltb, leb, ◌==◌, if◌then◌else◌, Bool-cases}

-- Bit `i` of `a`.
pub test_bit : ℕ → ℕ → Bool
test_bit a zero = a % 2 == 1
test_bit a (suc i) = test_bit (a / 2) i

pub test_bit-zero : (i : ℕ) → test_bit 0 i ≡ false
unfolding test_bit
test_bit-zero zero = refl
test_bit-zero (suc i) = test_bit-zero i

pub test_bit-bit_and : (a b i : ℕ) → test_bit (bit_and a b) i ≡ (test_bit a i && test_bit b i)
unfolding test_bit
test_bit-bit_and a b zero = ground (arith, bit_and_low a b)
test_bit-bit_and a b (suc i) =
    ap (λ (t : ℕ). test_bit t i) (bit_and_half a b) ∙ test_bit-bit_and (a / 2) (b / 2) i

pub test_bit-bit_or : (a b i : ℕ) → test_bit (bit_or a b) i ≡ (test_bit a i || test_bit b i)
unfolding test_bit
test_bit-bit_or a b zero = ground (arith, bit_or_low a b)
test_bit-bit_or a b (suc i) =
    ap (λ (t : ℕ). test_bit t i) (bit_or_half a b) ∙ test_bit-bit_or (a / 2) (b / 2) i

pub test_bit-bit_xor :
    (a b i : ℕ)
    → test_bit (bit_xor a b) i ≡ (if test_bit a i then not (test_bit b i) else test_bit b i)
unfolding test_bit
test_bit-bit_xor a b zero = ground (arith, bit_xor_low a b)
test_bit-bit_xor a b (suc i) =
    ap (λ (t : ℕ). test_bit t i) (bit_xor_half a b) ∙ test_bit-bit_xor (a / 2) (b / 2) i

mod-double-low : (p a : ℕ) → a % (p * 2) % 2 ≡ a % 2
mod-double-low p a = omega (arith, div-add-mod a (p * 2))

mod-double-half : (p a : ℕ) → 0 < p → a % (p * 2) / 2 ≡ a / 2 % p
mod-double-half p a pos =
    let q : ℕ = a / (p * 2) in
    let r : ℕ = a % (p * 2) in
    let half : a / 2 ≡ p * q + r / 2 = omega (arith, div-add-mod a (p * 2)) in
    let small : r / 2 < p = omega (arith, mod-lt a {m = p * 2} (omega arith)) in
    omega (
      arith,
      half,
      ap (λ (t : ℕ). t % p) half,
      mul-add-mod_self_left p q (r / 2),
      mod-eq_of_lt {n = r / 2} {m = p} small,
    )

half_double : (p : ℕ) → 2 * p / 2 ≡ p
half_double p = omega arith

suc-sub-suc : (a b : ℕ) → suc a - suc b ≡ a - b
suc-sub-suc a b = omega arith

pub two_pow-pos : (k : ℕ) → 0 < 2 ^ k
two_pow-pos k = one-le-pow k 2 (omega arith)

mul-two_pow-suc : (a k : ℕ) → a * 2 ^ suc k ≡ 2 * (a * 2 ^ k)
mul-two_pow-suc a k = omega (arith, ap (λ (t : ℕ). a * t) (pow-suc 2 k))

pub test_bit-mod : (k a i : ℕ) → test_bit (a % 2 ^ k) i ≡ (ltb i k && test_bit a i)
unfolding test_bit
test_bit-mod zero a i = rw mod-one (ground (arith, test_bit-zero i))
test_bit-mod (suc k) a zero = rw pow-suc (ground (arith, mod-double-low (2 ^ k) a))
test_bit-mod (suc k) a (suc i) =
    rw (pow-suc, mod-double-half (2 ^ k) a (two_pow-pos k), test_bit-mod k (a / 2) i) (ground arith)

pub test_bit-div : (k a i : ℕ) → test_bit (a / 2 ^ k) i ≡ test_bit a (k + i)
unfolding test_bit
test_bit-div zero a i =
    ap (λ (t : ℕ). test_bit t i) (div-one a) ∙ ap (test_bit a) (sym (zero-add i))
test_bit-div (suc k) a i =
    ap (λ (t : ℕ). test_bit t i) (rw (pow-succ', ← div-div-eq-div-mul))
    ∙ test_bit-div k (a / 2) i
    ∙ ap (test_bit a) (let e : suc (k + i) ≡ suc k + i = omega arith in e)

pub test_bit-mul : (k a i : ℕ) → test_bit (a * 2 ^ k) i ≡ (leb k i && test_bit a (i - k))
unfolding test_bit
test_bit-mul zero a i = rw (mul-one, sub-zero) (ground arith)
test_bit-mul (suc k) a zero = ground (arith, mul-two_pow-suc a k)
test_bit-mul (suc k) a (suc i) =
    rw (mul-two_pow-suc a k, half_double (a * 2 ^ k), test_bit-mul k a i, suc-sub-suc i k)
      (ground arith)

pub test_bit-ones : (k i : ℕ) → test_bit (2 ^ k - 1) i ≡ ltb i k
unfolding test_bit
test_bit-ones zero i = ground (arith, test_bit-zero i)
test_bit-ones (suc k) zero = ground (arith, pow-suc 2 k, two_pow-pos k)
test_bit-ones (suc k) (suc i) =
    rw (let e : (2 ^ suc k - 1) / 2 ≡ 2 ^ k - 1 = omega (arith, pow-suc 2 k, two_pow-pos k) in e)
      (test_bit-ones k i ∙ ground arith)

-- Numbers below `2 ^ k` with the same bits are equal.
pub test_bit_ext :
    (k a b : ℕ) → a < 2 ^ k → b < 2 ^ k → ((i : ℕ) → test_bit a i ≡ test_bit b i) → a ≡ b
unfolding test_bit
test_bit_ext zero a b p q h = omega arith
test_bit_ext (suc k) a b p q h = ground (
  arith,
  h 0,
  test_bit_ext k (a / 2) (b / 2) (omega (arith, pow-suc 2 k)) (omega (arith, pow-suc 2 k))
      (λ i. h (suc i)),
)

lt-two_pow : (n : ℕ) → n < 2 ^ n
lt-two_pow zero = omega arith
lt-two_pow (suc n) = omega (arith, lt-two_pow n, pow-suc 2 n)

pub eq_of_bits : (a b : ℕ) → ((i : ℕ) → test_bit a i ≡ test_bit b i) → a ≡ b
eq_of_bits a b h =
    test_bit_ext (a + b) a b (omega (arith, lt-two_pow (a + b))) (omega (arith, lt-two_pow (a + b)))
      h

-- A number below `2 ^ k` has no bit at `k` or above, and only such a number has none.
pub test_bit_high : (k a i : ℕ) → a < 2 ^ k → k ≤ i → test_bit a i ≡ false
test_bit_high k a i small high =
    let whole : a % 2 ^ k ≡ a = mod-eq_of_lt small in
    ap (λ (t : ℕ). test_bit t i) (sym whole) ∙ (test_bit-mod k a i ∙ ground arith)

pub lt_of_bits : (k a : ℕ) → ((i : ℕ) → k ≤ i → test_bit a i ≡ false) → a < 2 ^ k
lt_of_bits k a none_high = omega (arith, low, mod-lt a {m = 2 ^ k} (two_pow-pos k))
  where
    same : (i : ℕ) → test_bit (a % 2 ^ k) i ≡ test_bit a i
    same i = elim (dec_lt i k) [
      | yes p ↦ test_bit-mod k a i ∙ ground arith
      | no p ↦ test_bit-mod k a i ∙ ground (arith, none_high i (omega arith))
    ]

    low : a % 2 ^ k ≡ a
    low = eq_of_bits (a % 2 ^ k) a same

test_bit-one : (i : ℕ) → test_bit 1 i ≡ (i == 0)
unfolding test_bit
test_bit-one zero = refl
test_bit-one (suc i) = test_bit-zero i ∙ ground arith

pub test_bit-two_pow : (k i : ℕ) → test_bit (2 ^ k) i ≡ (i == k)
test_bit-two_pow k i =
    ap (λ (t : ℕ). test_bit t i) (let e : 2 ^ k ≡ 1 * 2 ^ k = omega arith in e)
    ∙ test_bit-mul k 1 i
    ∙ ground (arith, test_bit-one (i - k))

-- `v & (1 << k)` is not 0 exactly when bit `k` is set.
pub bit_and-two_pow : (v k : ℕ) → not (bit_and v (2 ^ k) == 0) ≡ test_bit v k
bit_and-two_pow v k = elim (Bool-cases (test_bit v k)) [
  | inl set ↦ ground (
    arith,
    test_bit-bit_and v (2 ^ k) k,
    test_bit-two_pow k k,
    test_bit-zero k,
    ap (λ (t : ℕ). test_bit t k) {x = bit_and v (2 ^ k)} {y = 0},
  )
  | inr clear ↦ ground (arith, none_left clear)
]
  where
    none_left : test_bit v k ≡ false → bit_and v (2 ^ k) ≡ 0
    none_left clear = eq_of_bits (bit_and v (2 ^ k)) 0 λ i. ground (
      arith,
      test_bit-bit_and v (2 ^ k) i,
      test_bit-two_pow k i,
      test_bit-zero i,
      ap (test_bit v) {x = i} {y = k},
    )

-- The lowest bit.
pub test_bit_zero_lem : (a : ℕ) → test_bit a 0 ≡ (a % 2 == 1)
unfolding test_bit
test_bit_zero_lem a = refl
