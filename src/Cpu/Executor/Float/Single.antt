-- ===== src/Cpu/Executor/Float/Single.antt =====
-- src/bin/rafi-emu/cpu/Executor.cpp: ProcessRVF and the methods ProcessRVF_*.
use rafi_1st.Cpu.Executor.Float.{
  notify_fp_dirty, process_rv32f_load, process_rv32f_store, process_rv64f_load, process_rv64f_store,
  round_mode_of, scoped_fp_round, update_fp_csr,
}
use rafi_1st.Cpu.Executor.Machine.{Environment, Execution, error, lift, pure, raise, ◌>>=◌, ◌>>◌}
use rafi_1st.Cpu.Executor.Steps.{
  cancel_reservation, get_fp32, get_fp64, get_int32, get_int64, get_uint32, get_uint64, put_fp32,
  put_int64, put_uint64,
}
use rafi_1st.Base.{
  Bool, Option, Result, bit_and, bit_or, bit_xor, exited, none, not_implemented, ok, some, throw, ℕ,
  ◌%◌, ◌-◌, ◌^◌,
}
use rafi_1st.Decoder.Ops.{
  Op, OpClass, OpCode, fadd_s, fclass_s, fcvt_l_s, fcvt_lu_s, fcvt_s_l, fcvt_s_lu, fcvt_s_w,
  fcvt_s_wu, fcvt_w_s, fcvt_wu_s, fdiv_s, feq_s, fle_s, flt_s, flw, fmadd_s, fmax_s, fmin_s,
  fmsub_s, fmul_s, fmv_w_x, fmv_x_w, fnmadd_s, fnmsub_s, fsgnj_s, fsgnjn_s, fsgnjx_s, fsqrt_s,
  fsub_s, fsw, rv32f, rv64f,
}
use rafi_1st.Cpu.Executor.Operands.{as_r, as_r4}
use rafi_1st.Word.{of_bool}
use rafi_1st.Fp.Api.{convert_to_rv_fp_class, unbox_float}
use rafi_1st.Cpu.Executor.MemorySteps.{run_float}
use rafi_1st.Cpu.Executor.Integer.{extend_int32}
use rafi_1st.Decoder.Fields.{sign_extend}
use rafi_1st.Fp.Format.{fp32}
use rafi_1st.Fp.SoftFloat.{FloatState, SoftFloat}
use rafi_1st.Fp.Api

-- The `switch` of each method: the function of fp that it calls
unfoldable pub rvf_mul_add : SoftFloat → OpCode → ℕ → ℕ → ℕ → Option (FloatState → ℕ × FloatState)
rvf_mul_add sf fmadd_s src1 src2 src3 = some (Api.mul_add sf fp32 src1 src2 src3)
rvf_mul_add sf fmsub_s src1 src2 src3 = some (Api.mul_sub sf fp32 src1 src2 src3)
rvf_mul_add sf fnmadd_s src1 src2 src3 = some (Api.neg_mul_add sf fp32 src1 src2 src3)
rvf_mul_add sf fnmsub_s src1 src2 src3 = some (Api.neg_mul_sub sf fp32 src1 src2 src3)
rvf_mul_add sf _ src1 src2 src3 = none

unfoldable pub rvf_compute :
    SoftFloat → OpCode → ℕ → ℕ → ℕ → ℕ → ℕ → ℕ → Option (FloatState → ℕ × FloatState)
rvf_compute sf fadd_s src1 src2 src1_s32 src1_s64 src1_u32 src1_u64 =
    some (Api.add sf fp32 src1 src2)
rvf_compute sf fsub_s src1 src2 src1_s32 src1_s64 src1_u32 src1_u64 =
    some (Api.sub sf fp32 src1 src2)
rvf_compute sf fmul_s src1 src2 src1_s32 src1_s64 src1_u32 src1_u64 =
    some (Api.mul sf fp32 src1 src2)
rvf_compute sf fdiv_s src1 src2 src1_s32 src1_s64 src1_u32 src1_u64 =
    some (Api.div sf fp32 src1 src2)
rvf_compute sf fsqrt_s src1 src2 src1_s32 src1_s64 src1_u32 src1_u64 = some (Api.sqrt sf fp32 src1)
rvf_compute sf fmin_s src1 src2 src1_s32 src1_s64 src1_u32 src1_u64 =
    some (Api.min sf fp32 src1 src2)
rvf_compute sf fmax_s src1 src2 src1_s32 src1_s64 src1_u32 src1_u64 =
    some (Api.max sf fp32 src1 src2)
rvf_compute sf fcvt_s_w src1 src2 src1_s32 src1_s64 src1_u32 src1_u64 =
    some (Api.of_int32 sf fp32 src1_s32)
rvf_compute sf fcvt_s_wu src1 src2 src1_s32 src1_s64 src1_u32 src1_u64 =
    some (Api.of_uint32 sf fp32 src1_u32)
rvf_compute sf fcvt_s_l src1 src2 src1_s32 src1_s64 src1_u32 src1_u64 =
    some (Api.of_int64 sf fp32 src1_s64)
rvf_compute sf fcvt_s_lu src1 src2 src1_s32 src1_s64 src1_u32 src1_u64 =
    some (Api.of_uint64 sf fp32 src1_u64)
rvf_compute sf _ src1 src2 src1_s32 src1_s64 src1_u32 src1_u64 = none

unfoldable pub rvf_compare : SoftFloat → OpCode → ℕ → ℕ → Option (FloatState → Bool × FloatState)
rvf_compare sf feq_s src1 src2 = some (Api.eq sf fp32 src1 src2)
rvf_compare sf flt_s src1 src2 = some (Api.lt sf fp32 src1 src2)
rvf_compare sf fle_s src1 src2 = some (Api.le sf fp32 src1 src2)
rvf_compare sf _ src1 src2 = none

unfoldable pub rvf_sign : OpCode → ℕ → ℕ → Result ℕ
rvf_sign fsgnj_s src1 src2 = ok (bit_or (bit_and src1 (2 ^ 31 - 1)) (bit_and src2 (2 ^ 31)))
rvf_sign fsgnjn_s src1 src2 =
    ok (bit_or (bit_and src1 (2 ^ 31 - 1)) (bit_and (2 ^ 32 - 1 - src2) (2 ^ 31)))
rvf_sign fsgnjx_s src1 src2 = ok (bit_xor src1 (bit_and src2 (2 ^ 31)))
rvf_sign _ src1 src2 = throw exited

module _ {B : Type 0} where
  unfoldable pub call_float : {A : Type 0} → Option (FloatState → A × FloatState) → Execution B A
  call_float none = error
  call_float (some f) = run_float f

  unfoldable pub convert_float32 : SoftFloat → OpCode → ℕ → ℕ → Execution B ℕ
  convert_float32 sf fcvt_w_s src round_mode = do
    v ← run_float (Api.to_int32 sf fp32 src round_mode)
    pure (extend_int32 v)
  convert_float32 sf fcvt_wu_s src round_mode = do
    v ← run_float (Api.to_uint32 sf fp32 src round_mode)
    pure (sign_extend 32 v)
  convert_float32 sf _ src round_mode = error

  -- The argument is cut to a `uint32_t`.
  unfoldable pub convert_float64 : SoftFloat → OpCode → ℕ → ℕ → Execution B ℕ
  convert_float64 sf fcvt_l_s src round_mode =
      run_float (Api.to_int64 sf fp32 (src % 2 ^ 32) round_mode)
  convert_float64 sf fcvt_lu_s src round_mode =
      run_float (Api.to_uint64 sf fp32 (src % 2 ^ 32) round_mode)
  convert_float64 sf _ src round_mode = error

  unfoldable pub process_rvf_mul_add : Environment B → Op → Execution B (Unit {0})
  process_rvf_mul_add e op = do
    o ← as_r4 op.operand
    x1 ← get_fp64 o.rs1
    x2 ← get_fp64 o.rs2
    x3 ← get_fp64 o.rs3
    round_mode ← round_mode_of o.funct3
    scoped_fp_round round_mode
    result ←
        call_float
          (rvf_mul_add e.softfloat op.op_code (unbox_float x1) (unbox_float x2) (unbox_float x3))
    update_fp_csr
    notify_fp_dirty
    put_fp32 o.rd result

  unfoldable pub process_rvf_compute : Environment B → Op → Execution B (Unit {0})
  process_rvf_compute e op = do
    o ← as_r op.operand
    x1 ← get_fp64 o.rs1
    x2 ← get_fp64 o.rs2
    src1_s32 ← get_int32 o.rs1
    src1_s64 ← get_int64 o.rs1
    src1_u32 ← get_uint32 o.rs1
    src1_u64 ← get_uint64 o.rs1
    round_mode ← round_mode_of o.funct3
    scoped_fp_round round_mode
    value ← call_float (
        rvf_compute e.softfloat op.op_code (unbox_float x1) (unbox_float x2) src1_s32 src1_s64
          src1_u32 src1_u64)
    update_fp_csr
    notify_fp_dirty
    put_fp32 o.rd value

  unfoldable pub process_rvf_compare : Environment B → Op → Execution B (Unit {0})
  process_rvf_compare e op = do
    o ← as_r op.operand
    x1 ← get_fp64 o.rs1
    x2 ← get_fp64 o.rs2
    holds ← call_float (rvf_compare e.softfloat op.op_code (unbox_float x1) (unbox_float x2))
    update_fp_csr
    put_int64 o.rd (of_bool holds)

  unfoldable pub process_rvf_class : Op → Execution B (Unit {0})
  process_rvf_class op = do
    o ← as_r op.operand
    src ← get_fp32 o.rs1
    put_uint64 o.rd (convert_to_rv_fp_class fp32 src)

  unfoldable pub process_rvf_move_to_int : Op → Execution B (Unit {0})
  process_rvf_move_to_int op = do
    o ← as_r op.operand
    src ← get_fp32 o.rs1
    put_int64 o.rd (sign_extend 32 src)

  unfoldable pub process_rvf_move_to_fp : Op → Execution B (Unit {0})
  process_rvf_move_to_fp op = do
    o ← as_r op.operand
    value ← get_uint32 o.rs1
    notify_fp_dirty
    put_fp32 o.rd value

  unfoldable pub process_rvf_convert_to_int32 : Environment B → Op → Execution B (Unit {0})
  process_rvf_convert_to_int32 e op = do
    o ← as_r op.operand
    src ← get_fp32 o.rs1
    round_mode ← round_mode_of o.funct3
    value ← convert_float32 e.softfloat op.op_code src round_mode
    update_fp_csr
    put_int64 o.rd value

  unfoldable pub process_rvf_convert_to_int64 : Environment B → Op → Execution B (Unit {0})
  process_rvf_convert_to_int64 e op = do
    o ← as_r op.operand
    src ← get_fp64 o.rs1
    round_mode ← round_mode_of o.funct3
    value ← convert_float64 e.softfloat op.op_code src round_mode
    update_fp_csr
    put_int64 o.rd value

  unfoldable pub process_rvf_convert_sign : Op → Execution B (Unit {0})
  process_rvf_convert_sign op = do
    o ← as_r op.operand
    x1 ← get_fp64 o.rs1
    x2 ← get_fp64 o.rs2
    value ← lift (rvf_sign op.op_code (unbox_float x1) (unbox_float x2))
    update_fp_csr
    notify_fp_dirty
    put_fp32 o.rd value

  -- The loads and stores, by the operation's class
  unfoldable pub rvf_load : Environment B → OpClass → Op → Execution B (Unit {0})
  rvf_load e rv32f op = process_rv32f_load e op
  rvf_load e rv64f op = process_rv64f_load e op
  rvf_load e _ op = raise not_implemented

  unfoldable pub rvf_store : Environment B → OpClass → Op → Execution B (Unit {0})
  rvf_store e rv32f op = process_rv32f_store e op
  rvf_store e rv64f op = process_rv64f_store e op
  rvf_store e _ op = raise not_implemented

  unfoldable pub dispatch_rvf : Environment B → OpCode → Op → Execution B (Unit {0})
  dispatch_rvf e flw op = rvf_load e op.op_class op
  dispatch_rvf e fsw op = rvf_store e op.op_class op
  dispatch_rvf e fmadd_s op = process_rvf_mul_add e op
  dispatch_rvf e fmsub_s op = process_rvf_mul_add e op
  dispatch_rvf e fnmadd_s op = process_rvf_mul_add e op
  dispatch_rvf e fnmsub_s op = process_rvf_mul_add e op
  dispatch_rvf e fadd_s op = process_rvf_compute e op
  dispatch_rvf e fsub_s op = process_rvf_compute e op
  dispatch_rvf e fmul_s op = process_rvf_compute e op
  dispatch_rvf e fdiv_s op = process_rvf_compute e op
  dispatch_rvf e fsqrt_s op = process_rvf_compute e op
  dispatch_rvf e fmin_s op = process_rvf_compute e op
  dispatch_rvf e fmax_s op = process_rvf_compute e op
  dispatch_rvf e fcvt_s_w op = process_rvf_compute e op
  dispatch_rvf e fcvt_s_wu op = process_rvf_compute e op
  dispatch_rvf e fcvt_s_l op = process_rvf_compute e op
  dispatch_rvf e fcvt_s_lu op = process_rvf_compute e op
  dispatch_rvf e feq_s op = process_rvf_compare e op
  dispatch_rvf e flt_s op = process_rvf_compare e op
  dispatch_rvf e fle_s op = process_rvf_compare e op
  dispatch_rvf e fclass_s op = process_rvf_class op
  dispatch_rvf e fmv_x_w op = process_rvf_move_to_int op
  dispatch_rvf e fmv_w_x op = process_rvf_move_to_fp op
  dispatch_rvf e fcvt_w_s op = process_rvf_convert_to_int32 e op
  dispatch_rvf e fcvt_wu_s op = process_rvf_convert_to_int32 e op
  dispatch_rvf e fcvt_l_s op = process_rvf_convert_to_int64 e op
  dispatch_rvf e fcvt_lu_s op = process_rvf_convert_to_int64 e op
  dispatch_rvf e fsgnj_s op = process_rvf_convert_sign op
  dispatch_rvf e fsgnjn_s op = process_rvf_convert_sign op
  dispatch_rvf e fsgnjx_s op = process_rvf_convert_sign op
  dispatch_rvf e _ op = error

  unfoldable pub process_rvf : Environment B → Op → Execution B (Unit {0})
  unfolding dispatch_rvf
  process_rvf e op = do cancel_reservation; dispatch_rvf e op.op_code op
