-- ===== src/Cpu/Executor/Float/Double.antt =====
-- src/bin/rafi-emu/cpu/Executor.cpp: ProcessRVD and the methods ProcessRVD_*.
use rafi_1st.Cpu.Executor.Machine.{Environment, Execution, error, lift, pure, raise, ◌>>=◌, ◌>>◌}
use rafi_1st.Cpu.Executor.Steps.{
  cancel_reservation, get_fp32, get_fp64, get_int32, get_int64, get_uint32, get_uint64, put_fp32,
  put_fp64, put_int64, put_uint64,
}
use rafi_1st.Base.{
  Bool, Option, Result, bit_and, bit_or, bit_xor, exited, none, not_implemented, ok, some, throw, ℕ,
  ◌-◌, ◌^◌,
}
use rafi_1st.Decoder.Ops.{
  Op, OpClass, OpCode, fadd_d, fclass_d, fcvt_d_l, fcvt_d_lu, fcvt_d_s, fcvt_d_w, fcvt_d_wu,
  fcvt_l_d, fcvt_lu_d, fcvt_s_d, fcvt_w_d, fcvt_wu_d, fdiv_d, feq_d, fld, fle_d, flt_d, fmadd_d,
  fmax_d, fmin_d, fmsub_d, fmul_d, fmv_d_x, fmv_x_d, fnmadd_d, fnmsub_d, fsd, fsgnj_d, fsgnjn_d,
  fsgnjx_d, fsqrt_d, fsub_d, rv32d, rv64d,
}
use rafi_1st.Cpu.Executor.Operands.{as_r, as_r4}
use rafi_1st.Cpu.Executor.Float.{
  notify_fp_dirty, process_rv32d_load, process_rv32d_store, process_rv64d_load, process_rv64d_store,
  round_mode_of, scoped_fp_round, update_fp_csr,
}
use rafi_1st.Word.{of_bool}
use rafi_1st.Cpu.Executor.MemorySteps.{run_float}
use rafi_1st.Cpu.Executor.Integer.{extend_int32}
use rafi_1st.Decoder.Fields.{sign_extend}
use rafi_1st.Fp.Format.{fp64}
use rafi_1st.Fp.Api.{convert_to_rv_fp_class}
use rafi_1st.Fp.SoftFloat.{FloatState, SoftFloat}
use rafi_1st.Cpu.Executor.Float.Single.{call_float}
use rafi_1st.Fp.Api

-- The `switch` of each method: the function of fp that it calls
unfoldable pub rvd_mul_add : SoftFloat → OpCode → ℕ → ℕ → ℕ → Option (FloatState → ℕ × FloatState)
rvd_mul_add sf fmadd_d src1 src2 src3 = some (Api.mul_add sf fp64 src1 src2 src3)
rvd_mul_add sf fmsub_d src1 src2 src3 = some (Api.mul_sub sf fp64 src1 src2 src3)
rvd_mul_add sf fnmadd_d src1 src2 src3 = some (Api.neg_mul_add sf fp64 src1 src2 src3)
rvd_mul_add sf fnmsub_d src1 src2 src3 = some (Api.neg_mul_sub sf fp64 src1 src2 src3)
rvd_mul_add sf _ src1 src2 src3 = none

unfoldable pub rvd_compute :
    SoftFloat → OpCode → ℕ → ℕ → ℕ → ℕ → ℕ → ℕ → Option (FloatState → ℕ × FloatState)
rvd_compute sf fadd_d src1 src2 src1_s32 src1_s64 src1_u32 src1_u64 =
    some (Api.add sf fp64 src1 src2)
rvd_compute sf fsub_d src1 src2 src1_s32 src1_s64 src1_u32 src1_u64 =
    some (Api.sub sf fp64 src1 src2)
rvd_compute sf fmul_d src1 src2 src1_s32 src1_s64 src1_u32 src1_u64 =
    some (Api.mul sf fp64 src1 src2)
rvd_compute sf fdiv_d src1 src2 src1_s32 src1_s64 src1_u32 src1_u64 =
    some (Api.div sf fp64 src1 src2)
rvd_compute sf fsqrt_d src1 src2 src1_s32 src1_s64 src1_u32 src1_u64 = some (Api.sqrt sf fp64 src1)
rvd_compute sf fmin_d src1 src2 src1_s32 src1_s64 src1_u32 src1_u64 =
    some (Api.min sf fp64 src1 src2)
rvd_compute sf fmax_d src1 src2 src1_s32 src1_s64 src1_u32 src1_u64 =
    some (Api.max sf fp64 src1 src2)
rvd_compute sf fcvt_d_w src1 src2 src1_s32 src1_s64 src1_u32 src1_u64 =
    some (Api.of_int32 sf fp64 src1_s32)
rvd_compute sf fcvt_d_wu src1 src2 src1_s32 src1_s64 src1_u32 src1_u64 =
    some (Api.of_uint32 sf fp64 src1_u32)
rvd_compute sf fcvt_d_l src1 src2 src1_s32 src1_s64 src1_u32 src1_u64 =
    some (Api.of_int64 sf fp64 src1_s64)
rvd_compute sf fcvt_d_lu src1 src2 src1_s32 src1_s64 src1_u32 src1_u64 =
    some (Api.of_uint64 sf fp64 src1_u64)
rvd_compute sf _ src1 src2 src1_s32 src1_s64 src1_u32 src1_u64 = none

unfoldable pub rvd_compare : SoftFloat → OpCode → ℕ → ℕ → Option (FloatState → Bool × FloatState)
rvd_compare sf feq_d src1 src2 = some (Api.eq sf fp64 src1 src2)
rvd_compare sf flt_d src1 src2 = some (Api.lt sf fp64 src1 src2)
rvd_compare sf fle_d src1 src2 = some (Api.le sf fp64 src1 src2)
rvd_compare sf _ src1 src2 = none

unfoldable pub rvd_sign : OpCode → ℕ → ℕ → Result ℕ
rvd_sign fsgnj_d src1 src2 = ok (bit_or (bit_and src1 (2 ^ 63 - 1)) (bit_and src2 (2 ^ 63)))
rvd_sign fsgnjn_d src1 src2 =
    ok (bit_or (bit_and src1 (2 ^ 63 - 1)) (bit_and (2 ^ 64 - 1 - src2) (2 ^ 63)))
rvd_sign fsgnjx_d src1 src2 = ok (bit_xor src1 (bit_and src2 (2 ^ 63)))
rvd_sign _ src1 src2 = throw exited

module _ {B : Type 0} where
  unfoldable pub convert_double32 : SoftFloat → OpCode → ℕ → ℕ → Execution B ℕ
  convert_double32 sf fcvt_w_d src round_mode = do
    v ← run_float (Api.to_int32 sf fp64 src round_mode)
    pure (extend_int32 v)
  convert_double32 sf fcvt_wu_d src round_mode = do
    v ← run_float (Api.to_uint32 sf fp64 src round_mode)
    pure (sign_extend 32 v)
  convert_double32 sf _ src round_mode = error

  unfoldable pub convert_double64 : SoftFloat → OpCode → ℕ → ℕ → Execution B ℕ
  convert_double64 sf fcvt_l_d src round_mode = run_float (Api.to_int64 sf fp64 src round_mode)
  convert_double64 sf fcvt_lu_d src round_mode = run_float (Api.to_uint64 sf fp64 src round_mode)
  convert_double64 sf _ src round_mode = error

  unfoldable pub process_rvd_mul_add : Environment B → Op → Execution B (Unit {0})
  process_rvd_mul_add e op = do
    o ← as_r4 op.operand
    x1 ← get_fp64 o.rs1
    x2 ← get_fp64 o.rs2
    x3 ← get_fp64 o.rs3
    round_mode ← round_mode_of o.funct3
    scoped_fp_round round_mode
    result ← call_float (rvd_mul_add e.softfloat op.op_code x1 x2 x3)
    update_fp_csr
    notify_fp_dirty
    put_fp64 o.rd result

  unfoldable pub process_rvd_compute : Environment B → Op → Execution B (Unit {0})
  process_rvd_compute e op = do
    o ← as_r op.operand
    x1 ← get_fp64 o.rs1
    x2 ← get_fp64 o.rs2
    src1_s32 ← get_int32 o.rs1
    src1_s64 ← get_int64 o.rs1
    src1_u32 ← get_uint32 o.rs1
    src1_u64 ← get_uint64 o.rs1
    round_mode ← round_mode_of o.funct3
    scoped_fp_round round_mode
    value ←
        call_float (rvd_compute e.softfloat op.op_code x1 x2 src1_s32 src1_s64 src1_u32 src1_u64)
    update_fp_csr
    notify_fp_dirty
    put_fp64 o.rd value

  unfoldable pub process_rvd_compare : Environment B → Op → Execution B (Unit {0})
  process_rvd_compare e op = do
    o ← as_r op.operand
    x1 ← get_fp64 o.rs1
    x2 ← get_fp64 o.rs2
    holds ← call_float (rvd_compare e.softfloat op.op_code x1 x2)
    update_fp_csr
    put_uint64 o.rd (of_bool holds)

  unfoldable pub process_rvd_class : Op → Execution B (Unit {0})
  process_rvd_class op = do
    o ← as_r op.operand
    src ← get_fp64 o.rs1
    put_uint64 o.rd (convert_to_rv_fp_class fp64 src)

  unfoldable pub process_rvd_move_to_int : Op → Execution B (Unit {0})
  process_rvd_move_to_int op = do o ← as_r op.operand; src ← get_fp64 o.rs1; put_uint64 o.rd src

  unfoldable pub process_rvd_move_to_fp : Op → Execution B (Unit {0})
  process_rvd_move_to_fp op = do
    o ← as_r op.operand
    value ← get_uint64 o.rs1
    notify_fp_dirty
    put_fp64 o.rd value

  unfoldable pub process_rvd_convert_to_int32 : Environment B → Op → Execution B (Unit {0})
  process_rvd_convert_to_int32 e op = do
    o ← as_r op.operand
    src ← get_fp64 o.rs1
    round_mode ← round_mode_of o.funct3
    value ← convert_double32 e.softfloat op.op_code src round_mode
    update_fp_csr
    put_int64 o.rd value

  unfoldable pub process_rvd_convert_to_int64 : Environment B → Op → Execution B (Unit {0})
  process_rvd_convert_to_int64 e op = do
    o ← as_r op.operand
    src ← get_fp64 o.rs1
    round_mode ← round_mode_of o.funct3
    value ← convert_double64 e.softfloat op.op_code src round_mode
    update_fp_csr
    put_int64 o.rd value

  unfoldable pub process_rvd_convert_fp32_to_fp64 : Environment B → Op → Execution B (Unit {0})
  process_rvd_convert_fp32_to_fp64 e op = do
    o ← as_r op.operand
    src ← get_fp32 o.rs1
    value ← run_float (Api.float_to_double e.softfloat src)
    update_fp_csr
    notify_fp_dirty
    put_fp64 o.rd value

  unfoldable pub process_rvd_convert_fp64_to_fp32 : Environment B → Op → Execution B (Unit {0})
  process_rvd_convert_fp64_to_fp32 e op = do
    o ← as_r op.operand
    src ← get_fp64 o.rs1
    value ← run_float (Api.double_to_float e.softfloat src)
    update_fp_csr
    notify_fp_dirty
    put_fp32 o.rd value

  unfoldable pub process_rvd_convert_sign : Op → Execution B (Unit {0})
  process_rvd_convert_sign op = do
    o ← as_r op.operand
    x1 ← get_fp64 o.rs1
    x2 ← get_fp64 o.rs2
    value ← lift (rvd_sign op.op_code x1 x2)
    update_fp_csr
    notify_fp_dirty
    put_fp64 o.rd value

  -- The loads and stores, by the operation's class
  unfoldable pub rvd_load : Environment B → OpClass → Op → Execution B (Unit {0})
  rvd_load e rv32d op = process_rv32d_load e op
  rvd_load e rv64d op = process_rv64d_load e op
  rvd_load e _ op = raise not_implemented

  unfoldable pub rvd_store : Environment B → OpClass → Op → Execution B (Unit {0})
  rvd_store e rv32d op = process_rv32d_store e op
  rvd_store e rv64d op = process_rv64d_store e op
  rvd_store e _ op = raise not_implemented

  unfoldable pub dispatch_rvd : Environment B → OpCode → Op → Execution B (Unit {0})
  dispatch_rvd e fld op = rvd_load e op.op_class op
  dispatch_rvd e fsd op = rvd_store e op.op_class op
  dispatch_rvd e fmadd_d op = process_rvd_mul_add e op
  dispatch_rvd e fmsub_d op = process_rvd_mul_add e op
  dispatch_rvd e fnmadd_d op = process_rvd_mul_add e op
  dispatch_rvd e fnmsub_d op = process_rvd_mul_add e op
  dispatch_rvd e fadd_d op = process_rvd_compute e op
  dispatch_rvd e fsub_d op = process_rvd_compute e op
  dispatch_rvd e fmul_d op = process_rvd_compute e op
  dispatch_rvd e fdiv_d op = process_rvd_compute e op
  dispatch_rvd e fsqrt_d op = process_rvd_compute e op
  dispatch_rvd e fmin_d op = process_rvd_compute e op
  dispatch_rvd e fmax_d op = process_rvd_compute e op
  dispatch_rvd e fcvt_d_w op = process_rvd_compute e op
  dispatch_rvd e fcvt_d_wu op = process_rvd_compute e op
  dispatch_rvd e fcvt_d_l op = process_rvd_compute e op
  dispatch_rvd e fcvt_d_lu op = process_rvd_compute e op
  dispatch_rvd e feq_d op = process_rvd_compare e op
  dispatch_rvd e flt_d op = process_rvd_compare e op
  dispatch_rvd e fle_d op = process_rvd_compare e op
  dispatch_rvd e fclass_d op = process_rvd_class op
  dispatch_rvd e fmv_x_d op = process_rvd_move_to_int op
  dispatch_rvd e fmv_d_x op = process_rvd_move_to_fp op
  dispatch_rvd e fcvt_w_d op = process_rvd_convert_to_int32 e op
  dispatch_rvd e fcvt_wu_d op = process_rvd_convert_to_int32 e op
  dispatch_rvd e fcvt_l_d op = process_rvd_convert_to_int64 e op
  dispatch_rvd e fcvt_lu_d op = process_rvd_convert_to_int64 e op
  dispatch_rvd e fcvt_s_d op = process_rvd_convert_fp64_to_fp32 e op
  dispatch_rvd e fcvt_d_s op = process_rvd_convert_fp32_to_fp64 e op
  dispatch_rvd e fsgnj_d op = process_rvd_convert_sign op
  dispatch_rvd e fsgnjn_d op = process_rvd_convert_sign op
  dispatch_rvd e fsgnjx_d op = process_rvd_convert_sign op
  dispatch_rvd e _ op = error

  unfoldable pub process_rvd : Environment B → Op → Execution B (Unit {0})
  unfolding dispatch_rvd
  process_rvd e op = do cancel_reservation; dispatch_rvd e op.op_code op
