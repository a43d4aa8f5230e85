-- ===== src/Fp/Classes.antt =====
-- ConvertToRvFpClass of src/lib/fp/FpApi.cpp against the table of the classes.
use rafi_1st.Base.{ℕ, ◌^◌, ◌<◌, ◌≤◌, ◌≡◌, arith, ◌&&◌, ◌==◌, not, leb, ltb, if◌then◌else◌}
use rafi_1st.BitField.{get_member}
use rafi_1st.BitField.Laws.{get_member-lt}
use rafi_1st.Fp.Format.{
  Format, fp32, fp64, get_sign, get_exponent, get_fraction, fraction_msb, max_exponent, sign,
  exponent,
}
use rafi_1st.Fp.Api.{convert_to_rv_fp_class}

-- The bit of a number's class, by sign, exponent, fraction and the fraction's highest bit
abbrev pub class_bit : ℕ → ℕ → ℕ → ℕ → ℕ → ℕ
class_bit max s e f msb =
    if e == 0
    then (if f == 0 then (if s == 1 then 3 else 4) else (if s == 1 then 2 else 5))
    else if e == max
    then (if f == 0 then (if s == 1 then 0 else 7) else (if msb == 0 then 8 else 9))
    else if s == 1
    then 1
    else 6

classes :
    (max s e f msb : ℕ)
    → 0 < max
    → s ≤ 1
    → e ≤ max
    → (if s == 1 && (e == max && f == 0)
        then 2 ^ 0
        else if s == 1 && (leb 1 e && ltb e max)
        then 2 ^ 1
        else if s == 1 && (e == 0 && not (f == 0))
        then 2 ^ 2
        else if s == 1 && (e == 0 && f == 0)
        then 2 ^ 3
        else if s == 0 && (e == 0 && f == 0)
        then 2 ^ 4
        else if s == 0 && (e == 0 && not (f == 0))
        then 2 ^ 5
        else if s == 0 && (leb 1 e && ltb e max)
        then 2 ^ 6
        else if s == 0 && (e == max && f == 0)
        then 2 ^ 7
        else if (e == max && not (f == 0)) && msb == 0
        then 2 ^ 8
        else 2 ^ 9)
      ≡ 2 ^ class_bit max s e f msb
classes max s e f msb positive one_bit bounded = ground arith

-- The class mask has exactly the bit of the number's class set: negative or positive, infinite,
-- normal, subnormal or zero, and signaling or quiet not-a-number, at both formats.
pub convert_to_rv_fp_class_lem :
    (format : Format) (x : ℕ)
    → convert_to_rv_fp_class format x
      ≡ 2
        ^ class_bit
            (max_exponent format)
            (get_sign format x)
            (get_exponent format x)
            (get_fraction format x)
            (get_member x (fraction_msb format))
unfolding convert_to_rv_fp_class
convert_to_rv_fp_class_lem fp32 x =
    classes 255 (get_sign fp32 x) (get_exponent fp32 x) (get_fraction fp32 x)
      (get_member x (fraction_msb fp32)) (omega arith) (omega (arith, get_member-lt x (sign fp32)))
      (omega (arith, get_member-lt x (exponent fp32)))
convert_to_rv_fp_class_lem fp64 x =
    classes 2047 (get_sign fp64 x) (get_exponent fp64 x) (get_fraction fp64 x)
      (get_member x (fraction_msb fp64)) (omega arith) (omega (arith, get_member-lt x (sign fp64)))
      (omega (arith, get_member-lt x (exponent fp64)))
