-- ===== src/Cpu/Executor/Integer.antt =====
-- src/bin/rafi-emu/cpu/Executor.cpp: the `switch` statements of ProcessRV32I and ProcessRV64I, at a
-- width or on values. A register holds a `w`-bit pattern; an immediate is the 64-bit pattern of its
-- `int64_t`, and sums with a program counter or an immediate are of 64 bits.
pub mod Rv32
pub mod Rv64
use rafi_1st.Decoder.Ops.{
  OpCode, add, addi, addiw, addw, and_, andi, beq, bge, bgeu, blt, bltu, bne, csrrc, csrrci, csrrs,
  csrrsi, csrrw, csrrwi, or_, ori, sll, slli, slliw, sllw, slt, slti, sltiu, sltu, sra, srai, sraiw,
  sraw, srl, srli, srliw, srlw, sub, subw, xor_, xori,
}
use rafi_1st.Base.{
  Bool, Result, bit_and, bit_or, bit_xor, exited, ltb, not, ok, throw, ℕ, ◌-◌, ◌==◌, ◌^◌,
}
use rafi_1st.Word.{
  of_bool, shift_left, shift_right, signed_lt, signed_shift_right, wrap_add, wrap_sub,
}
use rafi_1st.Util.{int32_to_uint64}
use rafi_1st.Decoder.Fields.{sign_extend}

-- The branches, at the width `w`
abbrev pub branch_taken : ℕ → OpCode → ℕ → ℕ → ℕ → ℕ → Result Bool
branch_taken w beq src1 src2 src1_u src2_u = ok (src1 == src2)
branch_taken w bne src1 src2 src1_u src2_u = ok (not (src1 == src2))
branch_taken w blt src1 src2 src1_u src2_u = ok (signed_lt w src1 src2)
branch_taken w bge src1 src2 src1_u src2_u = ok (not (signed_lt w src1 src2))
branch_taken w bltu src1 src2 src1_u src2_u = ok (ltb src1_u src2_u)
branch_taken w bgeu src1 src2 src1_u src2_u = ok (not (ltb src1_u src2_u))
branch_taken w _ src1 src2 src1_u src2_u = throw exited

-- ProcessRV32I_Alu
abbrev pub alu32 : OpCode → ℕ → ℕ → ℕ → ℕ → Result ℕ
alu32 add src1 src2 src1_u src2_u = ok (wrap_add 32 src1 src2)
alu32 sub src1 src2 src1_u src2_u = ok (wrap_sub 32 src1 src2)
alu32 slt src1 src2 src1_u src2_u = ok (of_bool (signed_lt 32 src1 src2))
alu32 sltu src1 src2 src1_u src2_u = ok (of_bool (ltb src1_u src2_u))
alu32 xor_ src1 src2 src1_u src2_u = ok (bit_xor src1 src2)
alu32 or_ src1 src2 src1_u src2_u = ok (bit_or src1 src2)
alu32 and_ src1 src2 src1_u src2_u = ok (bit_and src1 src2)
alu32 _ src1 src2 src1_u src2_u = throw exited

-- ProcessRV32I_AluImm
abbrev pub alu_imm32 : OpCode → ℕ → ℕ → ℕ → ℕ → Result ℕ
alu_imm32 addi src1 imm src1_u imm_u = ok (wrap_add 32 src1 imm)
alu_imm32 slti src1 imm src1_u imm_u = ok (of_bool (signed_lt 32 src1 imm))
alu_imm32 sltiu src1 imm src1_u imm_u = ok (of_bool (ltb src1_u imm_u))
alu_imm32 xori src1 imm src1_u imm_u = ok (bit_xor src1 imm)
alu_imm32 ori src1 imm src1_u imm_u = ok (bit_or src1 imm)
alu_imm32 andi src1 imm src1_u imm_u = ok (bit_and src1 imm)
alu_imm32 _ src1 imm src1_u imm_u = throw exited

-- ProcessRV32I_Shift and ProcessRV32I_ShiftImm
abbrev pub shift32 : OpCode → ℕ → ℕ → ℕ → Result ℕ
shift32 sll src1 src1_u src2 = shift_left 32 src1 src2
shift32 srl src1 src1_u src2 = shift_right 32 src1_u src2
shift32 sra src1 src1_u src2 = signed_shift_right 32 src1 src2
shift32 _ src1 src1_u src2 = throw exited

abbrev pub shift_imm32 : OpCode → ℕ → ℕ → ℕ → Result ℕ
shift_imm32 slli src1 src1_u shamt = shift_left 32 src1 shamt
shift_imm32 srli src1 src1_u shamt = shift_right 32 src1_u shamt
shift_imm32 srai src1 src1_u shamt = signed_shift_right 32 src1 shamt
shift_imm32 _ src1 src1_u shamt = throw exited

-- ProcessRV32I_Csr and ProcessRV32I_CsrImm: the value that is written
abbrev pub csr_value32 : OpCode → ℕ → ℕ → Result ℕ
csr_value32 csrrw src_csr src_int_reg = ok src_int_reg
csr_value32 csrrs src_csr src_int_reg = ok (bit_or src_csr src_int_reg)
csr_value32 csrrc src_csr src_int_reg = ok (bit_and src_csr (2 ^ 32 - 1 - src_int_reg))
csr_value32 _ src_csr src_int_reg = throw exited

abbrev pub csr_imm_value32 : OpCode → ℕ → ℕ → Result ℕ
csr_imm_value32 csrrwi src_csr zimm = ok zimm
csr_imm_value32 csrrsi src_csr zimm = ok (bit_or src_csr zimm)
csr_imm_value32 csrrci src_csr zimm = ok (bit_and src_csr (2 ^ 32 - 1 - zimm))
csr_imm_value32 _ src_csr zimm = throw exited

-- SignExtend<int64_t>(32, x) of an `int32_t`
abbrev pub extend_int32 : ℕ → ℕ
extend_int32 x = sign_extend 32 (int32_to_uint64 x)

-- ProcessRV64I_Alu
abbrev pub alu64 : OpCode → ℕ → ℕ → ℕ → ℕ → ℕ → ℕ → Result ℕ
alu64 add src1 src2 src1_u src2_u src1_s32 src2_s32 = ok (wrap_add 64 src1 src2)
alu64 addw src1 src2 src1_u src2_u src1_s32 src2_s32 =
    ok (extend_int32 (wrap_add 32 src1_s32 src2_s32))
alu64 sub src1 src2 src1_u src2_u src1_s32 src2_s32 = ok (wrap_sub 64 src1 src2)
alu64 subw src1 src2 src1_u src2_u src1_s32 src2_s32 =
    ok (extend_int32 (wrap_sub 32 src1_s32 src2_s32))
alu64 slt src1 src2 src1_u src2_u src1_s32 src2_s32 = ok (of_bool (signed_lt 64 src1 src2))
alu64 sltu src1 src2 src1_u src2_u src1_s32 src2_s32 = ok (of_bool (ltb src1_u src2_u))
alu64 xor_ src1 src2 src1_u src2_u src1_s32 src2_s32 = ok (bit_xor src1 src2)
alu64 or_ src1 src2 src1_u src2_u src1_s32 src2_s32 = ok (bit_or src1 src2)
alu64 and_ src1 src2 src1_u src2_u src1_s32 src2_s32 = ok (bit_and src1 src2)
alu64 _ src1 src2 src1_u src2_u src1_s32 src2_s32 = throw exited

-- ProcessRV64I_AluImm
abbrev pub alu_imm64 : OpCode → ℕ → ℕ → ℕ → ℕ → ℕ → ℕ → Result ℕ
alu_imm64 addi src1 imm src1_u imm_u src1_s32 imm_s32 = ok (wrap_add 64 src1 imm)
alu_imm64 addiw src1 imm src1_u imm_u src1_s32 imm_s32 =
    ok (extend_int32 (wrap_add 32 src1_s32 imm_s32))
alu_imm64 slti src1 imm src1_u imm_u src1_s32 imm_s32 = ok (of_bool (signed_lt 64 src1 imm))
alu_imm64 sltiu src1 imm src1_u imm_u src1_s32 imm_s32 = ok (of_bool (ltb src1_u imm_u))
alu_imm64 xori src1 imm src1_u imm_u src1_s32 imm_s32 = ok (bit_xor src1 imm)
alu_imm64 ori src1 imm src1_u imm_u src1_s32 imm_s32 = ok (bit_or src1 imm)
alu_imm64 andi src1 imm src1_u imm_u src1_s32 imm_s32 = ok (bit_and src1 imm)
alu_imm64 _ src1 imm src1_u imm_u src1_s32 imm_s32 = throw exited

-- The result of a shift of 32 bits, extended
abbrev pub extend_result : Result ℕ → Result ℕ
extend_result (ok v) = ok (extend_int32 v)
extend_result (throw e) = throw e

abbrev pub extend_unsigned_result : Result ℕ → Result ℕ
extend_unsigned_result (ok v) = ok (sign_extend 32 v)
extend_unsigned_result (throw e) = throw e

-- ProcessRV64I_Shift and ProcessRV64I_ShiftImm
abbrev pub shift64 : OpCode → ℕ → ℕ → ℕ → ℕ → ℕ → Result ℕ
shift64 sll src1 src1_u src1_s32 src1_u32 shamt = shift_left 64 src1 shamt
shift64 sllw src1 src1_u src1_s32 src1_u32 shamt = extend_result (shift_left 32 src1_s32 shamt)
shift64 srl src1 src1_u src1_s32 src1_u32 shamt = shift_right 64 src1_u shamt
shift64 srlw src1 src1_u src1_s32 src1_u32 shamt =
    extend_unsigned_result (shift_right 32 src1_u32 shamt)
shift64 sra src1 src1_u src1_s32 src1_u32 shamt = signed_shift_right 64 src1 shamt
shift64 sraw src1 src1_u src1_s32 src1_u32 shamt =
    extend_result (signed_shift_right 32 src1_s32 shamt)
shift64 _ src1 src1_u src1_s32 src1_u32 shamt = throw exited

abbrev pub shift_imm64 : OpCode → ℕ → ℕ → ℕ → ℕ → ℕ → Result ℕ
shift_imm64 slli src1 src1_u src1_s32 src1_u32 shamt = shift_left 64 src1 shamt
shift_imm64 slliw src1 src1_u src1_s32 src1_u32 shamt = extend_result (shift_left 32 src1_s32 shamt)
shift_imm64 srli src1 src1_u src1_s32 src1_u32 shamt = shift_right 64 src1_u shamt
shift_imm64 srliw src1 src1_u src1_s32 src1_u32 shamt =
    extend_unsigned_result (shift_right 32 src1_u32 shamt)
shift_imm64 srai src1 src1_u src1_s32 src1_u32 shamt = signed_shift_right 64 src1 shamt
shift_imm64 sraiw src1 src1_u src1_s32 src1_u32 shamt =
    extend_result (signed_shift_right 32 src1_s32 shamt)
shift_imm64 _ src1 src1_u src1_s32 src1_u32 shamt = throw exited

-- ProcessRV64I_Csr and ProcessRV64I_CsrImm: the value that is written. `zimm` is an `int32_t`.
abbrev pub csr_value64 : OpCode → ℕ → ℕ → Result ℕ
csr_value64 csrrw src_csr src_int_reg = ok src_int_reg
csr_value64 csrrs src_csr src_int_reg = ok (bit_or src_csr src_int_reg)
csr_value64 csrrc src_csr src_int_reg = ok (bit_and src_csr (2 ^ 64 - 1 - src_int_reg))
csr_value64 _ src_csr src_int_reg = throw exited

abbrev pub csr_imm_value64 : OpCode → ℕ → ℕ → Result ℕ
csr_imm_value64 csrrwi src_csr zimm = ok (int32_to_uint64 zimm)
csr_imm_value64 csrrsi src_csr zimm = ok (bit_or src_csr (int32_to_uint64 zimm))
csr_imm_value64 csrrci src_csr zimm = ok (bit_and src_csr (int32_to_uint64 (2 ^ 32 - 1 - zimm)))
csr_imm_value64 _ src_csr zimm = throw exited
