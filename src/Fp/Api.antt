-- ===== src/Fp/Api.antt =====
-- src/lib/fp/FpApi.cpp: the functions that the executor calls. Two overloads are one definition at
-- a format; each clears SoftFloat's flags first.
use rafi_1st.Base.{ℕ, ◌/◌, ◌%◌, ◌^◌, bit_xor, Bool, ◌&&◌, ◌||◌, not, ◌==◌, if◌then◌else◌}
use rafi_1st.Fp.Format.{
  Format, fp32, fp64, get_sign, is_zero, is_inf, is_normal, is_sub_normal, is_nan, is_signaling_nan,
  canonical_quiet_nan, canonical_signaling_nan,
}
use rafi_1st.Fp.SoftFloat.{FloatState, SoftFloat}

abbrev pub cleared : FloatState → FloatState
cleared s = record s { exception_flags = 0 }

-- ToFloat32 and ToFloat64 only change the type.
unfoldable pub negate_float : Format → ℕ → ℕ
negate_float fp32 v = bit_xor v (2 ^ 31)
negate_float fp64 v = bit_xor v (2 ^ 63)

-- `le` is what LeQuiet gives for the two numbers.
unfoldable pub min_impl : Format → Bool → ℕ → ℕ → ℕ
min_impl f le x y =
    if is_zero f x && is_zero f x
    then (if get_sign f x == 1 && get_sign f y == 0 then x else y)
    else if is_nan f x && is_nan f y
    then (if is_signaling_nan f x || is_signaling_nan f y
        then canonical_signaling_nan f
        else canonical_quiet_nan f)
    else if not (is_nan f x) && is_nan f y
    then x
    else if is_nan f x && not (is_nan f y)
    then y
    else if le
    then x
    else y

unfoldable pub max_impl : Format → Bool → ℕ → ℕ → ℕ
max_impl f le x y =
    if is_zero f x && is_zero f y
    then (if get_sign f x == 0 && get_sign f y == 1 then x else y)
    else if is_nan f x && is_nan f y
    then (if is_signaling_nan f x || is_signaling_nan f y
        then canonical_signaling_nan f
        else canonical_quiet_nan f)
    else if not (is_nan f x) && is_nan f y
    then x
    else if is_nan f x && not (is_nan f y)
    then y
    else if le
    then y
    else x

unfoldable pub unbox_float : ℕ → ℕ
unbox_float x = if x / 2 ^ 32 == 0xffff_ffff then x % 2 ^ 32 else canonical_quiet_nan fp32

unfoldable pub convert_to_rv_fp_class : Format → ℕ → ℕ
convert_to_rv_fp_class f x =
    if get_sign f x == 1 && is_inf f x
    then 2 ^ 0
    else if get_sign f x == 1 && is_normal f x
    then 2 ^ 1
    else if get_sign f x == 1 && is_sub_normal f x
    then 2 ^ 2
    else if get_sign f x == 1 && is_zero f x
    then 2 ^ 3
    else if get_sign f x == 0 && is_zero f x
    then 2 ^ 4
    else if get_sign f x == 0 && is_sub_normal f x
    then 2 ^ 5
    else if get_sign f x == 0 && is_normal f x
    then 2 ^ 6
    else if get_sign f x == 0 && is_inf f x
    then 2 ^ 7
    else if is_signaling_nan f x
    then 2 ^ 8
    else 2 ^ 9

module _ (sf : SoftFloat) where
  unfoldable pub add : Format → ℕ → ℕ → FloatState → ℕ × FloatState
  add f x y s = sf.f_add f x y (cleared s)

  unfoldable pub sub : Format → ℕ → ℕ → FloatState → ℕ × FloatState
  sub f x y s = sf.f_sub f x y (cleared s)

  unfoldable pub mul : Format → ℕ → ℕ → FloatState → ℕ × FloatState
  mul f x y s = sf.f_mul f x y (cleared s)

  unfoldable pub div : Format → ℕ → ℕ → FloatState → ℕ × FloatState
  div f x y s = sf.f_div f x y (cleared s)

  unfoldable pub sqrt : Format → ℕ → FloatState → ℕ × FloatState
  sqrt f x s = sf.f_sqrt f x (cleared s)

  unfoldable pub eq : Format → ℕ → ℕ → FloatState → Bool × FloatState
  eq f x y s = sf.f_eq f x y (cleared s)

  unfoldable pub le : Format → ℕ → ℕ → FloatState → Bool × FloatState
  le f x y s = sf.f_le f x y (cleared s)

  unfoldable pub lt : Format → ℕ → ℕ → FloatState → Bool × FloatState
  lt f x y s = sf.f_lt f x y (cleared s)

  unfoldable pub min : Format → ℕ → ℕ → FloatState → ℕ × FloatState
  min f x y s = let (le, s') = sf.f_le_quiet f x y (cleared s) in (min_impl f le x y, s')

  unfoldable pub max : Format → ℕ → ℕ → FloatState → ℕ × FloatState
  max f x y s = let (le, s') = sf.f_le_quiet f x y (cleared s) in (max_impl f le x y, s')

  unfoldable pub mul_add : Format → ℕ → ℕ → ℕ → FloatState → ℕ × FloatState
  mul_add f x y z s = let (p, s') = sf.f_mul f x y (cleared s) in sf.f_add f p z s'

  unfoldable pub mul_sub : Format → ℕ → ℕ → ℕ → FloatState → ℕ × FloatState
  mul_sub f x y z s = let (p, s') = sf.f_mul f x y (cleared s) in sf.f_sub f p z s'

  unfoldable pub neg_mul_add : Format → ℕ → ℕ → ℕ → FloatState → ℕ × FloatState
  neg_mul_add f x y z s =
      let (p, s') = sf.f_mul f x y (cleared s) in sf.f_sub f (negate_float f p) z s'

  unfoldable pub neg_mul_sub : Format → ℕ → ℕ → ℕ → FloatState → ℕ × FloatState
  neg_mul_sub f x y z s =
      let (p, s') = sf.f_mul f x y (cleared s) in sf.f_add f (negate_float f p) z s'

  unfoldable pub to_int32 : Format → ℕ → ℕ → FloatState → ℕ × FloatState
  to_int32 f x round_mode s = sf.f_to_i32 f x round_mode (cleared s)

  unfoldable pub to_int64 : Format → ℕ → ℕ → FloatState → ℕ × FloatState
  to_int64 f x round_mode s = sf.f_to_i64 f x round_mode (cleared s)

  unfoldable pub to_uint32 : Format → ℕ → ℕ → FloatState → ℕ × FloatState
  to_uint32 f x round_mode s = sf.f_to_ui32 f x round_mode (cleared s)

  unfoldable pub to_uint64 : Format → ℕ → ℕ → FloatState → ℕ × FloatState
  to_uint64 f x round_mode s = sf.f_to_ui64 f x round_mode (cleared s)

  unfoldable pub of_int32 : Format → ℕ → FloatState → ℕ × FloatState
  of_int32 f x s = sf.i32_to_f f x (cleared s)

  unfoldable pub of_int64 : Format → ℕ → FloatState → ℕ × FloatState
  of_int64 f x s = sf.i64_to_f f x (cleared s)

  unfoldable pub of_uint32 : Format → ℕ → FloatState → ℕ × FloatState
  of_uint32 f x s = sf.ui32_to_f f x (cleared s)

  unfoldable pub of_uint64 : Format → ℕ → FloatState → ℕ × FloatState
  of_uint64 f x s = sf.ui64_to_f f x (cleared s)

  unfoldable pub double_to_float : ℕ → FloatState → ℕ × FloatState
  double_to_float x s = sf.f64_to_f32 x (cleared s)

  unfoldable pub float_to_double : ℕ → FloatState → ℕ × FloatState
  float_to_double x s = sf.f32_to_f64 x (cleared s)
