-- ===== src/Word/Division.antt =====
-- The signed division of C++, which the executor uses for div and rem
-- (src/bin/rafi-emu/cpu/Executor.cpp): what a quotient and a remainder are.
pub mod Product
pub mod Signs
pub mod Signed
pub mod Guarded
pub mod Unique
use rafi_1st.Base.{
  ℕ, ◌+◌, ◌-◌, ◌*◌, ◌/◌, ◌%◌, ◌^◌, ◌<◌, ◌≤◌, ◌≡◌, ◌⊎◌, inl, inr, ◌==◌, ◌&&◌, Result, ok, refl, sym,
  ap, ◌∙◌, arith, Bool, true, false, not, if◌then◌else◌, Bool-cases,
}
use rafi_1st.Base.Bits.{two_pow-pos}
use native.Mathlib.Decide.{dec_lt}
use rafi_1st.Word.{
  is_negative, negate, magnitude, signed_div, signed_rem, checked_div, checked_rem, checked_udiv,
  checked_urem,
}
use native.Mathlib.Nat.{
  div-add-mod, div-le_self, mod-le, mod-lt, mod-eq_of_lt, mul-add-mod_self_left, mod_self,
}

-- The only division whose quotient is out of range: the most negative word by -1.
abbrev pub IsOverflow : ℕ → ℕ → ℕ → Type 0
IsOverflow w a b = (a ≡ 2 ^ (w - 1)) × (b ≡ 2 ^ w - 1)

-- The sign of a quotient
abbrev pub quotient_sign : Bool → Bool → Bool
quotient_sign a_sign b_sign = if b_sign then not a_sign else a_sign

-- The words `q` and `r` are the quotient, rounded towards 0, and the remainder of the signed words
-- `a` and `b`. Their magnitudes are those of the numbers, without wrapping: |a| is |q| * |b| + |r|,
-- and |r| is smaller than |b|. A remainder that is not 0 has the sign of `a`. A quotient that is
-- not 0 is negative when one of `a` and `b` is, except that the overflow gives `a` again. It
-- follows that q * b + r, computed on words, is `a`.
pub record IsDivision (w a b q r : ℕ) : Type 0 where
  pub quotient_fits : q < 2 ^ w
  pub remainder_fits : r < 2 ^ w
  pub magnitudes : magnitude w q * magnitude w b + magnitude w r ≡ magnitude w a
  pub smaller : magnitude w r < magnitude w b
  pub sign : (r ≡ 0) ⊎ (is_negative w r ≡ is_negative w a)
  pub quotient :
      (q ≡ 0)
      ⊎ (is_negative w q ≡ quotient_sign (is_negative w a) (is_negative w b))
      ⊎ (IsOverflow w a b × (q ≡ a))
  pub product : (q * b + r) % 2 ^ w ≡ a

-- What a machine's division gives: its answer by 0, or a quotient and a remainder.
abbrev pub IsDivided : ℕ → ℕ → ℕ → Result ℕ → Result ℕ → Type 0
IsDivided w a b div rem =
    ((b ≡ 0) × (div ≡ ok (2 ^ w - 1)) × (rem ≡ ok a))
    ⊎ ((q r : ℕ) × (div ≡ ok q) × (rem ≡ ok r) × IsDivision w a b q r)

abbrev pub IsDividedUnsigned : ℕ → ℕ → ℕ → Result ℕ → Result ℕ → Type 0
IsDividedUnsigned w a b div rem =
    ((b ≡ 0) × (div ≡ ok (2 ^ w - 1)) × (rem ≡ ok a))
    ⊎ ((q r : ℕ) × (div ≡ ok q) × (rem ≡ ok r) × (q * b + r ≡ a) × (r < b))
