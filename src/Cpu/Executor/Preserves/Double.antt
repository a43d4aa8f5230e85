-- ===== src/Cpu/Executor/Preserves/Double.antt =====
-- The double-precision instructions of src/bin/rafi-emu/cpu/Executor.cpp keep what their parts
-- keep.
use rafi_1st.Cpu.Executor.Keeps.{Keeps}
use rafi_1st.Cpu.Executor.Machine.{Environment, Machine}
use rafi_1st.Cpu.Executor.Stable.{Stable, stable_rules}
use rafi_1st.Base.{ℕ}
use rafi_1st.Decoder.Ops.{Op, OpClass, OpCode, fcvt_l_d, fcvt_w_d, fld, rv32d}
use rafi_1st.Fp.SoftFloat.{SoftFloat}
use rafi_1st.Cpu.Executor.Float.Double.{
  convert_double32, convert_double64, dispatch_rvd, process_rvd, process_rvd_class,
  process_rvd_compare, process_rvd_compute, process_rvd_convert_fp32_to_fp64,
  process_rvd_convert_fp64_to_fp32, process_rvd_convert_sign, process_rvd_convert_to_int32,
  process_rvd_convert_to_int64, process_rvd_move_to_fp, process_rvd_move_to_int,
  process_rvd_mul_add, rvd_load, rvd_store,
}
use rafi_1st.Cpu.Executor.Preserves.Float.{
  compute_rules, dirty_rules, convert_rules, call_float-Keeps, process_rv32d_load-Keeps,
  process_rv32d_store-Keeps, process_rv64d_load-Keeps, process_rv64d_store-Keeps,
  round_mode_of-Keeps, update_fp_csr-Keeps,
}

module _ {B : Type 0} {P : Machine B → Type 0} ⦃stable : Stable P⦄ where
  pub convert_double32-Keeps :
      (sf : SoftFloat) (code : OpCode) (src : ℕ) (round_mode : ℕ)
      → Keeps P (convert_double32 {B = B} sf code src round_mode)
  unfolding convert_double32
  convert_double32-Keeps sf fcvt_w_d src round_mode = search stable_rules depth 60
  convert_double32-Keeps sf _ src round_mode = search stable_rules depth 60

  pub convert_double64-Keeps :
      (sf : SoftFloat) (code : OpCode) (src : ℕ) (round_mode : ℕ)
      → Keeps P (convert_double64 {B = B} sf code src round_mode)
  unfolding convert_double64
  convert_double64-Keeps sf fcvt_l_d src round_mode = search stable_rules depth 60
  convert_double64-Keeps sf _ src round_mode = search stable_rules depth 60

  pub process_rvd_mul_add-Keeps : (e : Environment B) (op : Op) → Keeps P (process_rvd_mul_add e op)
  unfolding process_rvd_mul_add
  process_rvd_mul_add-Keeps e op = search compute_rules depth 60

  pub process_rvd_compute-Keeps : (e : Environment B) (op : Op) → Keeps P (process_rvd_compute e op)
  unfolding process_rvd_compute
  process_rvd_compute-Keeps e op = search compute_rules depth 60

  pub process_rvd_compare-Keeps : (e : Environment B) (op : Op) → Keeps P (process_rvd_compare e op)
  unfolding process_rvd_compare
  process_rvd_compare-Keeps e op =
      search (stable_rules, call_float-Keeps, update_fp_csr-Keeps) depth 60

  pub process_rvd_class-Keeps : (op : Op) → Keeps P (process_rvd_class {B = B} op)
  unfolding process_rvd_class
  process_rvd_class-Keeps op = search stable_rules depth 60

  pub process_rvd_move_to_int-Keeps : (op : Op) → Keeps P (process_rvd_move_to_int {B = B} op)
  unfolding process_rvd_move_to_int
  process_rvd_move_to_int-Keeps op = search stable_rules depth 60

  pub process_rvd_move_to_fp-Keeps : (op : Op) → Keeps P (process_rvd_move_to_fp {B = B} op)
  unfolding process_rvd_move_to_fp
  process_rvd_move_to_fp-Keeps op = search dirty_rules depth 60

  pub process_rvd_convert_to_int32-Keeps :
      (e : Environment B) (op : Op) → Keeps P (process_rvd_convert_to_int32 e op)
  unfolding process_rvd_convert_to_int32
  process_rvd_convert_to_int32-Keeps e op =
      search (stable_rules, round_mode_of-Keeps, convert_double32-Keeps, update_fp_csr-Keeps) depth
        60

  pub process_rvd_convert_to_int64-Keeps :
      (e : Environment B) (op : Op) → Keeps P (process_rvd_convert_to_int64 e op)
  unfolding process_rvd_convert_to_int64
  process_rvd_convert_to_int64-Keeps e op =
      search (stable_rules, round_mode_of-Keeps, convert_double64-Keeps, update_fp_csr-Keeps) depth
        60

  pub process_rvd_convert_fp32_to_fp64-Keeps :
      (e : Environment B) (op : Op) → Keeps P (process_rvd_convert_fp32_to_fp64 e op)
  unfolding process_rvd_convert_fp32_to_fp64
  process_rvd_convert_fp32_to_fp64-Keeps e op = search convert_rules depth 60

  pub process_rvd_convert_fp64_to_fp32-Keeps :
      (e : Environment B) (op : Op) → Keeps P (process_rvd_convert_fp64_to_fp32 e op)
  unfolding process_rvd_convert_fp64_to_fp32
  process_rvd_convert_fp64_to_fp32-Keeps e op = search convert_rules depth 60

  pub process_rvd_convert_sign-Keeps : (op : Op) → Keeps P (process_rvd_convert_sign {B = B} op)
  unfolding process_rvd_convert_sign
  process_rvd_convert_sign-Keeps op = search convert_rules depth 60

  pub rvd_load-Keeps :
      (e : Environment B) (op_class : OpClass) (op : Op) → Keeps P (rvd_load e op_class op)
  unfolding rvd_load
  rvd_load-Keeps e rv32d op =
      search (stable_rules, process_rv32d_load-Keeps, process_rv64d_load-Keeps) depth 60
  rvd_load-Keeps e _ op =
      search (stable_rules, process_rv32d_load-Keeps, process_rv64d_load-Keeps) depth 60

  pub rvd_store-Keeps :
      (e : Environment B) (op_class : OpClass) (op : Op) → Keeps P (rvd_store e op_class op)
  unfolding rvd_store
  rvd_store-Keeps e rv32d op =
      search (stable_rules, process_rv32d_store-Keeps, process_rv64d_store-Keeps) depth 60
  rvd_store-Keeps e _ op =
      search (stable_rules, process_rv32d_store-Keeps, process_rv64d_store-Keeps) depth 60

  ruleset dispatch_rvd_rules = (
    stable_rules, rvd_load-Keeps, rvd_store-Keeps, process_rvd_mul_add-Keeps,
    process_rvd_compute-Keeps, process_rvd_compare-Keeps, process_rvd_class-Keeps,
    process_rvd_move_to_int-Keeps, process_rvd_move_to_fp-Keeps, process_rvd_convert_to_int32-Keeps,
    process_rvd_convert_to_int64-Keeps, process_rvd_convert_fp64_to_fp32-Keeps,
    process_rvd_convert_fp32_to_fp64-Keeps, process_rvd_convert_sign-Keeps,
  )

  pub dispatch_rvd-Keeps :
      (e : Environment B) (code : OpCode) (op : Op) → Keeps P (dispatch_rvd e code op)
  unfolding dispatch_rvd
  dispatch_rvd-Keeps e fld op = search dispatch_rvd_rules depth 60
  dispatch_rvd-Keeps e _ op = search dispatch_rvd_rules depth 60

  pub process_rvd-Keeps : (e : Environment B) (op : Op) → Keeps P (process_rvd e op)
  unfolding process_rvd
  process_rvd-Keeps e op = search (stable_rules, dispatch_rvd-Keeps) depth 60
