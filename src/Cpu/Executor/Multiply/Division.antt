-- ===== src/Cpu/Executor/Multiply/Division.antt =====
-- The divisions of ProcessRV32M and ProcessRV64M (src/bin/rafi-emu/cpu/Executor.cpp) against what a
-- quotient and a remainder are.
use rafi_1st.Base.{
  ℕ, ◌^◌, ◌-◌, ◌<◌, ◌≡◌, ◌%◌, ◌⊎◌, refl, arith, Bool-cases, ◌&&◌, ◌==◌, inl, inr, ok, throw,
  undefined, Result,
}
use native.Mathlib.Nat.{mod-lt}
use rafi_1st.Decoder.Fields.{sign_extend}
use rafi_1st.Cpu.Executor.Integer.{extend_int32}
use rafi_1st.Decoder.Ops.{div, divu, rem, remu, divw}
use rafi_1st.Word.{signed_div, signed_rem}
use rafi_1st.Word.Division.{IsDivision, IsDivided, IsDividedUnsigned}
use rafi_1st.Word.Division.Signed.{signed_div-IsDivision}
use rafi_1st.Word.Division.Guarded.{
  overflow-IsDivision, guarded_div-IsDivided, guarded_udiv-IsDivided,
}
use rafi_1st.Cpu.Executor.Multiply.{multiply32, multiply64, sources_of, WideMultiply}

-- On words of 32 bits, div and rem give the quotient, rounded towards 0, and the remainder of
-- signed division, with their magnitudes and signs; of the most negative number by -1 they give
-- that number and 0. divu and remu give those of unsigned division. By 0, the quotient is all ones
-- and the remainder is the dividend.
pub multiply32-IsDivided :
    (a b : ℕ)
    → a < 2 ^ 32
    → b < 2 ^ 32
    → IsDivided 32 a b (multiply32 div a b a b) (multiply32 rem a b a b)
      × IsDividedUnsigned 32 a b (multiply32 divu a b a b) (multiply32 remu a b a b)
unfolding multiply32
multiply32-IsDivided a b small small_b = (
  guarded_div-IsDivided 32 a b (omega arith) refl small small_b,
  guarded_udiv-IsDivided 32 a b (omega arith) refl small small_b,
)

-- The same holds of ProcessRV64M on words of 64 bits, whatever the low words of the operands are.
pub multiply64-IsDivided :
    (wide : WideMultiply) (a b a32 b32 a32' b32' : ℕ)
    → a < 2 ^ 64
    → b < 2 ^ 64
    → IsDivided 64 a b
        (multiply64 wide div (sources_of a32 b32 a32' b32' a b a b))
        (multiply64 wide rem (sources_of a32 b32 a32' b32' a b a b))
      × IsDividedUnsigned 64 a b
          (multiply64 wide divu (sources_of a32 b32 a32' b32' a b a b))
          (multiply64 wide remu (sources_of a32 b32 a32' b32' a b a b))
unfolding multiply64
multiply64-IsDivided wide a b a32 b32 a32' b32' small small_b = (
  guarded_div-IsDivided 64 a b (omega arith) refl small small_b,
  guarded_udiv-IsDivided 64 a b (omega arith) refl small small_b,
)

-- What divw gives: its answer by 0, an undefined operation, or the extended quotient of the low
-- words
abbrev pub IsWordQuotient : ℕ → ℕ → Result ℕ → Type 0
IsWordQuotient a b result =
    ((b ≡ 0) × (result ≡ ok (2 ^ 64 - 1)))
    ⊎ (((0 < b) × (b % 2 ^ 32 ≡ 0)) × (result ≡ throw undefined))
    ⊎ ((0 < b % 2 ^ 32)
        × (q r : ℕ) × IsDivision 32 (a % 2 ^ 32) (b % 2 ^ 32) q r
        × (result ≡ ok (extend_int32 q)))

-- divw gives the signed quotient of the low words, rounded towards 0 and extended to 64 bits, if
-- the divisor's low word is not 0, and -1 if the whole divisor is 0; a divisor whose low word is 0
-- but which is not 0 is divided by, which is undefined.
pub divw-IsWordQuotient :
    (wide : WideMultiply) (a b : ℕ)
    → IsWordQuotient a b (
        multiply64 wide divw
          (sources_of (a % 2 ^ 32) (b % 2 ^ 32) (a % 2 ^ 32) (b % 2 ^ 32) a b a b))
unfolding multiply64 sign_extend
divw-IsWordQuotient wide a b =
    let al : ℕ = a % 2 ^ 32 in
    let bl : ℕ = b % 2 ^ 32 in
    let small : al < 2 ^ 32 = mod-lt a {m = 2 ^ 32} (omega arith) in
    let small_b : bl < 2 ^ 32 = mod-lt b {m = 2 ^ 32} (omega arith) in
    elim (Bool-cases (al == 2 ^ 31 && bl == 2 ^ 32 - 1)) [
      | inl overflow ↦ simp overflow (
          inr (
            inr (
              ground arith,
              2 ^ 31,
              0,
              overflow-IsDivision 32 al bl (omega arith) refl small small_b (ground arith)
                  (ground arith),
              refl,
            )))
      | inr usual ↦ elim (Bool-cases (b == 0)) [
        | inl zero ↦ simp (usual, zero) (inl (ground arith, refl))
        | inr nonzero ↦ elim (Bool-cases (bl == 0)) [
          | inl zero ↦ simp (usual, nonzero, zero) (inr (inl ((ground arith, ground arith), refl)))
          | inr positive ↦
              simp (usual, nonzero, positive)
                (inr (
                  inr (
                    ground arith,
                    signed_div 32 al bl,
                    signed_rem 32 al bl,
                    signed_div-IsDivision 32 al bl refl small small_b (ground arith),
                    refl,
                  )))
        ]
      ]
    ]
