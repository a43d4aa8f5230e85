-- ===== src/Fp/SoftFloat.antt =====
-- What src/lib/fp/FpApi.cpp calls of the SoftFloat library, which is not part of the repository.
-- Its functions read the global `softfloat_roundingMode` and raise flags in
-- `softfloat_exceptionFlags`.
use rafi_1st.Base.{ℕ, Bool}
use rafi_1st.Fp.Format.{Format}

pub record FloatState : Type 0 where
  pub exception_flags : ℕ
  pub rounding_mode : ℕ

-- f32_add and f64_add are `f_add` at the two formats, and so on. The conversions to an integer take
-- the rounding mode, and are called with `exact`.
pub record SoftFloat : Type 0 where
  pub f_add : Format → ℕ → ℕ → FloatState → ℕ × FloatState
  pub f_sub : Format → ℕ → ℕ → FloatState → ℕ × FloatState
  pub f_mul : Format → ℕ → ℕ → FloatState → ℕ × FloatState
  pub f_div : Format → ℕ → ℕ → FloatState → ℕ × FloatState
  pub f_sqrt : Format → ℕ → FloatState → ℕ × FloatState
  pub f_eq : Format → ℕ → ℕ → FloatState → Bool × FloatState
  pub f_le : Format → ℕ → ℕ → FloatState → Bool × FloatState
  pub f_lt : Format → ℕ → ℕ → FloatState → Bool × FloatState
  pub f_le_quiet : Format → ℕ → ℕ → FloatState → Bool × FloatState
  pub f_to_i32 : Format → ℕ → ℕ → FloatState → ℕ × FloatState
  pub f_to_i64 : Format → ℕ → ℕ → FloatState → ℕ × FloatState
  pub f_to_ui32 : Format → ℕ → ℕ → FloatState → ℕ × FloatState
  pub f_to_ui64 : Format → ℕ → ℕ → FloatState → ℕ × FloatState
  pub i32_to_f : Format → ℕ → FloatState → ℕ × FloatState
  pub i64_to_f : Format → ℕ → FloatState → ℕ × FloatState
  pub ui32_to_f : Format → ℕ → FloatState → ℕ × FloatState
  pub ui64_to_f : Format → ℕ → FloatState → ℕ × FloatState
  pub f64_to_f32 : ℕ → FloatState → ℕ × FloatState
  pub f32_to_f64 : ℕ → FloatState → ℕ × FloatState
