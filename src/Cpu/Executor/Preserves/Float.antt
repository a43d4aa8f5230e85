-- ===== src/Cpu/Executor/Preserves/Float.antt =====
-- The floating-point operations of src/bin/rafi-emu/cpu/Executor.cpp keep what their parts keep.
use rafi_1st.Cpu.Executor.Keeps.{Keeps}
use rafi_1st.Cpu.Executor.Machine.{Environment, Machine}
use rafi_1st.Cpu.Executor.Stable.{Stable, stable_rules}
use rafi_1st.Cpu.Executor.Float.{
  notify_fp_dirty, process_rv32d_load, process_rv32d_store, process_rv32f_load, process_rv32f_store,
  process_rv64d_load, process_rv64d_store, process_rv64f_load, process_rv64f_store, round_mode_of,
  scoped_fp_round, update_fp_csr,
}
use rafi_1st.Base.{Option, none, some, ℕ}
use rafi_1st.Decoder.Ops.{Op, OpClass, OpCode, fcvt_l_s, fcvt_w_s, flw, rv32f}
use rafi_1st.Cpu.Executor.Float.Single.{
  call_float, convert_float32, convert_float64, dispatch_rvf, process_rvf, process_rvf_class,
  process_rvf_compare, process_rvf_compute, process_rvf_convert_sign, process_rvf_convert_to_int32,
  process_rvf_convert_to_int64, process_rvf_move_to_fp, process_rvf_move_to_int,
  process_rvf_mul_add, rvf_load, rvf_store,
}
use rafi_1st.Fp.SoftFloat.{FloatState, SoftFloat}

module _ {B : Type 0} {P : Machine B → Type 0} ⦃stable : Stable P⦄ where
  pub notify_fp_dirty-Keeps : Keeps P (notify_fp_dirty {B = B})
  unfolding notify_fp_dirty
  notify_fp_dirty-Keeps = search stable_rules depth 60

  pub update_fp_csr-Keeps : Keeps P (update_fp_csr {B = B})
  unfolding update_fp_csr
  update_fp_csr-Keeps = search stable_rules depth 60

  pub round_mode_of-Keeps : (funct3 : ℕ) → Keeps P (round_mode_of {B = B} funct3)
  unfolding round_mode_of
  round_mode_of-Keeps funct3 = search stable_rules depth 60

  pub scoped_fp_round-Keeps : (round_mode : ℕ) → Keeps P (scoped_fp_round {B = B} round_mode)
  unfolding scoped_fp_round
  scoped_fp_round-Keeps round_mode = search stable_rules depth 60

  pub ruleset dirty_rules = (stable_rules, notify_fp_dirty-Keeps)

  pub process_rv32f_load-Keeps : (e : Environment B) (op : Op) → Keeps P (process_rv32f_load e op)
  unfolding process_rv32f_load
  process_rv32f_load-Keeps e op = search dirty_rules depth 60

  pub process_rv32f_store-Keeps : (e : Environment B) (op : Op) → Keeps P (process_rv32f_store e op)
  unfolding process_rv32f_store
  process_rv32f_store-Keeps e op = search stable_rules depth 60

  pub process_rv32d_load-Keeps : (e : Environment B) (op : Op) → Keeps P (process_rv32d_load e op)
  unfolding process_rv32d_load
  process_rv32d_load-Keeps e op = search dirty_rules depth 60

  pub process_rv32d_store-Keeps : (e : Environment B) (op : Op) → Keeps P (process_rv32d_store e op)
  unfolding process_rv32d_store
  process_rv32d_store-Keeps e op = search stable_rules depth 60

  pub process_rv64f_load-Keeps : (e : Environment B) (op : Op) → Keeps P (process_rv64f_load e op)
  unfolding process_rv64f_load
  process_rv64f_load-Keeps e op = search dirty_rules depth 60

  pub process_rv64f_store-Keeps : (e : Environment B) (op : Op) → Keeps P (process_rv64f_store e op)
  unfolding process_rv64f_store
  process_rv64f_store-Keeps e op = search stable_rules depth 60

  pub process_rv64d_load-Keeps : (e : Environment B) (op : Op) → Keeps P (process_rv64d_load e op)
  unfolding process_rv64d_load
  process_rv64d_load-Keeps e op = search dirty_rules depth 60

  pub process_rv64d_store-Keeps : (e : Environment B) (op : Op) → Keeps P (process_rv64d_store e op)
  unfolding process_rv64d_store
  process_rv64d_store-Keeps e op = search stable_rules depth 60

  pub call_float-Keeps :
      {A : Type 0} (found : Option (FloatState → A × FloatState))
      → Keeps P (call_float {B = B} found)
  unfolding call_float
  call_float-Keeps none = search stable_rules depth 60
  call_float-Keeps (some f) = search stable_rules depth 60

  pub convert_float32-Keeps :
      (sf : SoftFloat) (code : OpCode) (src : ℕ) (round_mode : ℕ)
      → Keeps P (convert_float32 {B = B} sf code src round_mode)
  unfolding convert_float32
  convert_float32-Keeps sf fcvt_w_s src round_mode = search stable_rules depth 60
  convert_float32-Keeps sf _ src round_mode = search stable_rules depth 60

  pub convert_float64-Keeps :
      (sf : SoftFloat) (code : OpCode) (src : ℕ) (round_mode : ℕ)
      → Keeps P (convert_float64 {B = B} sf code src round_mode)
  unfolding convert_float64
  convert_float64-Keeps sf fcvt_l_s src round_mode = search stable_rules depth 60
  convert_float64-Keeps sf _ src round_mode = search stable_rules depth 60

  pub ruleset compute_rules = (
    stable_rules, round_mode_of-Keeps, scoped_fp_round-Keeps, call_float-Keeps, update_fp_csr-Keeps,
    notify_fp_dirty-Keeps,
  )

  pub process_rvf_mul_add-Keeps : (e : Environment B) (op : Op) → Keeps P (process_rvf_mul_add e op)
  unfolding process_rvf_mul_add
  process_rvf_mul_add-Keeps e op = search compute_rules depth 60

  pub process_rvf_compute-Keeps : (e : Environment B) (op : Op) → Keeps P (process_rvf_compute e op)
  unfolding process_rvf_compute
  process_rvf_compute-Keeps e op = search compute_rules depth 60

  pub process_rvf_compare-Keeps : (e : Environment B) (op : Op) → Keeps P (process_rvf_compare e op)
  unfolding process_rvf_compare
  process_rvf_compare-Keeps e op =
      search (stable_rules, call_float-Keeps, update_fp_csr-Keeps) depth 60

  pub process_rvf_class-Keeps : (op : Op) → Keeps P (process_rvf_class {B = B} op)
  unfolding process_rvf_class
  process_rvf_class-Keeps op = search stable_rules depth 60

  pub process_rvf_move_to_int-Keeps : (op : Op) → Keeps P (process_rvf_move_to_int {B = B} op)
  unfolding process_rvf_move_to_int
  process_rvf_move_to_int-Keeps op = search stable_rules depth 60

  pub process_rvf_move_to_fp-Keeps : (op : Op) → Keeps P (process_rvf_move_to_fp {B = B} op)
  unfolding process_rvf_move_to_fp
  process_rvf_move_to_fp-Keeps op = search dirty_rules depth 60

  pub process_rvf_convert_to_int32-Keeps :
      (e : Environment B) (op : Op) → Keeps P (process_rvf_convert_to_int32 e op)
  unfolding process_rvf_convert_to_int32
  process_rvf_convert_to_int32-Keeps e op =
      search (stable_rules, round_mode_of-Keeps, convert_float32-Keeps, update_fp_csr-Keeps) depth
        60

  pub process_rvf_convert_to_int64-Keeps :
      (e : Environment B) (op : Op) → Keeps P (process_rvf_convert_to_int64 e op)
  unfolding process_rvf_convert_to_int64
  process_rvf_convert_to_int64-Keeps e op =
      search (stable_rules, round_mode_of-Keeps, convert_float64-Keeps, update_fp_csr-Keeps) depth
        60

  pub ruleset convert_rules = (stable_rules, update_fp_csr-Keeps, notify_fp_dirty-Keeps)

  pub process_rvf_convert_sign-Keeps : (op : Op) → Keeps P (process_rvf_convert_sign {B = B} op)
  unfolding process_rvf_convert_sign
  process_rvf_convert_sign-Keeps op = search convert_rules depth 60

  pub rvf_load-Keeps :
      (e : Environment B) (op_class : OpClass) (op : Op) → Keeps P (rvf_load e op_class op)
  unfolding rvf_load
  rvf_load-Keeps e rv32f op =
      search (stable_rules, process_rv32f_load-Keeps, process_rv64f_load-Keeps) depth 60
  rvf_load-Keeps e _ op =
      search (stable_rules, process_rv32f_load-Keeps, process_rv64f_load-Keeps) depth 60

  pub rvf_store-Keeps :
      (e : Environment B) (op_class : OpClass) (op : Op) → Keeps P (rvf_store e op_class op)
  unfolding rvf_store
  rvf_store-Keeps e rv32f op =
      search (stable_rules, process_rv32f_store-Keeps, process_rv64f_store-Keeps) depth 60
  rvf_store-Keeps e _ op =
      search (stable_rules, process_rv32f_store-Keeps, process_rv64f_store-Keeps) depth 60

  ruleset dispatch_rvf_rules = (
    stable_rules, rvf_load-Keeps, rvf_store-Keeps, process_rvf_mul_add-Keeps,
    process_rvf_compute-Keeps, process_rvf_compare-Keeps, process_rvf_class-Keeps,
    process_rvf_move_to_int-Keeps, process_rvf_move_to_fp-Keeps, process_rvf_convert_to_int32-Keeps,
    process_rvf_convert_to_int64-Keeps, process_rvf_convert_sign-Keeps,
  )

  pub dispatch_rvf-Keeps :
      (e : Environment B) (code : OpCode) (op : Op) → Keeps P (dispatch_rvf e code op)
  unfolding dispatch_rvf
  dispatch_rvf-Keeps e flw op = search dispatch_rvf_rules depth 60
  dispatch_rvf-Keeps e _ op = search dispatch_rvf_rules depth 60

  pub process_rvf-Keeps : (e : Environment B) (op : Op) → Keeps P (process_rvf e op)
  unfolding process_rvf
  process_rvf-Keeps e op = search (stable_rules, dispatch_rvf-Keeps) depth 60
