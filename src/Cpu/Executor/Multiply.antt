-- ===== src/Cpu/Executor/Multiply.antt =====
-- src/bin/rafi-emu/cpu/Executor.cpp: ProcessRV32M and ProcessRV64M.
pub mod Division
use rafi_1st.Cpu.Executor.Machine.{Environment, Execution, lift, ◌>>=◌, ◌>>◌}
use rafi_1st.Word.{checked_div, checked_rem, checked_udiv, checked_urem, wrap_mul}
use rafi_1st.Decoder.Ops.{
  Op, OpCode, div, divu, divuw, divw, mul, mulh, mulhsu, mulhu, mulw, rem, remu, remuw, remw,
}
use rafi_1st.Base.{Result, exited, if◌then◌else◌, ok, throw, ℕ, ◌%◌, ◌&&◌, ◌-◌, ◌/◌, ◌==◌, ◌^◌}
use rafi_1st.Util.{int32_to_uint64}
use rafi_1st.Cpu.Executor.Integer.{extend_int32, extend_result, extend_unsigned_result}
use rafi_1st.Cpu.Executor.Steps.{
  cancel_reservation, get_int32, get_int64, get_uint32, get_uint64, put_int32, put_int64,
}
use rafi_1st.Decoder.Fields.{sign_extend}
use rafi_1st.Cpu.Executor.Operands.{as_r}
use rafi_1st.Cpu.Executor.Machine.{WideMultiply}

-- The `switch` of ProcessRV32M
unfoldable pub multiply32 : OpCode → ℕ → ℕ → ℕ → ℕ → Result ℕ
multiply32 mul src1 src2 src1_u src2_u = ok (wrap_mul 32 src1 src2)
multiply32 mulh src1 src2 src1_u src2_u =
    ok (wrap_mul 64 (int32_to_uint64 src1) (int32_to_uint64 src2) / 2 ^ 32 % 2 ^ 32)
multiply32 mulhsu src1 src2 src1_u src2_u =
    ok (wrap_mul 64 (int32_to_uint64 src1) src2_u / 2 ^ 32 % 2 ^ 32)
multiply32 mulhu src1 src2 src1_u src2_u = ok (wrap_mul 64 src1_u src2_u / 2 ^ 32 % 2 ^ 32)
multiply32 div src1 src2 src1_u src2_u =
    if src1_u == 2 ^ 31 && src2 == 2 ^ 32 - 1
    then ok (2 ^ 31)
    else if src2 == 0
    then ok (2 ^ 32 - 1)
    else checked_div 32 src1 src2
multiply32 divu src1 src2 src1_u src2_u =
    if src2 == 0 then ok (2 ^ 32 - 1) else checked_udiv src1_u src2_u
multiply32 rem src1 src2 src1_u src2_u =
    if src1_u == 2 ^ 31 && src2 == 2 ^ 32 - 1
    then ok 0
    else if src2 == 0
    then ok src1
    else checked_rem 32 src1 src2
multiply32 remu src1 src2 src1_u src2_u = if src2 == 0 then ok src1 else checked_urem src1_u src2_u
multiply32 _ src1 src2 src1_u src2_u = throw exited

-- The locals of ProcessRV64M: both operands at their four types
pub record Sources : Type 0 where
  pub src1_u32 : ℕ
  pub src2_u32 : ℕ
  pub src1_s32 : ℕ
  pub src2_s32 : ℕ
  pub src1_s64 : ℕ
  pub src2_s64 : ℕ
  pub src1_u64 : ℕ
  pub src2_u64 : ℕ

abbrev pub sources_of : ℕ → ℕ → ℕ → ℕ → ℕ → ℕ → ℕ → ℕ → Sources
sources_of src1_u32 src2_u32 src1_s32 src2_s32 src1_s64 src2_s64 src1_u64 src2_u64 = record {
  src1_u32 = src1_u32;
  src2_u32 = src2_u32;
  src1_s32 = src1_s32;
  src2_s32 = src2_s32;
  src1_s64 = src1_s64;
  src2_s64 = src2_s64;
  src1_u64 = src1_u64;
  src2_u64 = src2_u64;
}

-- The `switch` of ProcessRV64M; the products of 128 bits are the environment's.
unfoldable pub multiply64 : WideMultiply → OpCode → Sources → Result ℕ
multiply64 wide mul s = ok (wrap_mul 64 s.src1_s64 s.src2_s64)
multiply64 wide mulh s = ok (wide.high_signed s.src1_s64 s.src2_s64)
multiply64 wide mulhsu s = ok (wide.high_mixed s.src1_s64 s.src2_u64)
multiply64 wide mulhu s = ok (wide.high_unsigned s.src1_u64 s.src2_u64)
multiply64 wide mulw s = ok (extend_int32 (wrap_mul 32 s.src1_s32 s.src2_s32))
multiply64 wide div s =
    if s.src1_u64 == 2 ^ 63 && s.src2_s64 == 2 ^ 64 - 1
    then ok (2 ^ 63)
    else if s.src2_s64 == 0
    then ok (2 ^ 64 - 1)
    else checked_div 64 s.src1_s64 s.src2_s64
multiply64 wide divu s =
    if s.src2_s64 == 0 then ok (2 ^ 64 - 1) else checked_udiv s.src1_u64 s.src2_u64
multiply64 wide divuw s =
    if s.src2_u32 == 0
    then ok (2 ^ 64 - 1)
    else extend_unsigned_result (checked_udiv s.src1_u32 s.src2_u32)
multiply64 wide divw s =
    if s.src1_u32 == 2 ^ 31 && s.src2_s32 == 2 ^ 32 - 1
    then ok (sign_extend 32 (2 ^ 31))
    else if s.src2_s64 == 0
    then ok (2 ^ 64 - 1)
    else extend_result (checked_div 32 s.src1_s32 s.src2_s32)
multiply64 wide rem s =
    if s.src1_u64 == 2 ^ 63 && s.src2_s64 == 2 ^ 64 - 1
    then ok 0
    else if s.src2_s64 == 0
    then ok s.src1_s64
    else checked_rem 64 s.src1_s64 s.src2_s64
multiply64 wide remu s =
    if s.src2_s64 == 0 then ok s.src1_s64 else checked_urem s.src1_u64 s.src2_u64
multiply64 wide remuw s =
    if s.src2_u32 == 0
    then ok (extend_int32 s.src1_s32)
    else extend_unsigned_result (checked_urem s.src1_u32 s.src2_u32)
multiply64 wide remw s =
    if s.src1_u32 == 2 ^ 31 && s.src2_s32 == 2 ^ 32 - 1
    then ok 0
    else if s.src2_s32 == 0
    then ok (extend_int32 s.src1_s32)
    else extend_result (checked_rem 32 s.src1_s32 s.src2_s32)
multiply64 wide _ s = throw exited

module _ {B : Type 0} where
  unfoldable pub process_rv32m : Op → Execution B (Unit {0})
  unfolding multiply32
  process_rv32m op = do
    cancel_reservation
    o ← as_r op.operand
    src1 ← get_int32 o.rs1
    src2 ← get_int32 o.rs2
    src1_u ← get_uint32 o.rs1
    src2_u ← get_uint32 o.rs2
    dst ← lift (multiply32 op.op_code src1 src2 src1_u src2_u)
    put_int32 o.rd dst

  unfoldable pub process_rv64m : Environment B → Op → Execution B (Unit {0})
  unfolding multiply64
  process_rv64m e op = do
    cancel_reservation
    o ← as_r op.operand
    src1_u32 ← get_uint32 o.rs1
    src2_u32 ← get_uint32 o.rs2
    src1_s32 ← get_int32 o.rs1
    src2_s32 ← get_int32 o.rs2
    src1_s64 ← get_int64 o.rs1
    src2_s64 ← get_int64 o.rs2
    src1_u64 ← get_uint64 o.rs1
    src2_u64 ← get_uint64 o.rs2
    let sources = sources_of src1_u32 src2_u32 src1_s32 src2_s32 src1_s64 src2_s64 src1_u64 src2_u64
    value ← lift (multiply64 e.multiply op.op_code sources)
    put_int64 o.rd value
