-- ===== src/Cpu/Executor/Compressed.antt =====
-- src/bin/rafi-emu/cpu/Executor.cpp: the `switch` statements of ProcessRV32C_* and ProcessRV64C_*
-- on values. In RV32, an immediate makes the sum one of 64 bits, which is cut when it is stored.
pub mod Rv32
pub mod Rv64
pub mod Expansion
pub mod WordAdd
use rafi_1st.Decoder.Ops.{
  OpCode, c_add, c_addi, c_addiw, c_addw, c_and, c_andi, c_beqz, c_bnez, c_li, c_lui, c_mv, c_or,
  c_slli, c_srai, c_srli, c_sub, c_subw, c_xor,
}
use rafi_1st.Base.{
  Bool, Result, bit_and, bit_or, bit_xor, exited, not, ok, throw, ℕ, ◌%◌, ◌==◌, ◌^◌,
}
use rafi_1st.Util.{int32_to_uint64}
use rafi_1st.Cpu.Executor.Integer.{extend_int32}
use rafi_1st.Word.{shift_left, shift_right, signed_shift_right, wrap_add, wrap_sub}
use rafi_1st.Decoder.Fields.{sign_extend}

abbrev pub c_alu32 : OpCode → ℕ → ℕ → Result ℕ
c_alu32 c_mv src1 src2 = ok src2
c_alu32 c_add src1 src2 = ok (wrap_add 32 src1 src2)
c_alu32 c_sub src1 src2 = ok (wrap_sub 32 src1 src2)
c_alu32 c_and src1 src2 = ok (bit_and src1 src2)
c_alu32 c_or src1 src2 = ok (bit_or src1 src2)
c_alu32 c_xor src1 src2 = ok (bit_xor src1 src2)
c_alu32 _ src1 src2 = throw exited

abbrev pub c_alu_imm32 : OpCode → ℕ → ℕ → ℕ → Result ℕ
c_alu_imm32 c_li src1 src1_u imm = ok (imm % 2 ^ 32)
c_alu_imm32 c_lui src1 src1_u imm = ok (imm % 2 ^ 32)
c_alu_imm32 c_addi src1 src1_u imm = ok (wrap_add 64 (int32_to_uint64 src1) imm % 2 ^ 32)
c_alu_imm32 c_andi src1 src1_u imm = ok (bit_and (int32_to_uint64 src1) imm % 2 ^ 32)
c_alu_imm32 c_srli src1 src1_u imm = shift_right 32 src1_u imm
c_alu_imm32 c_srai src1 src1_u imm = signed_shift_right 32 src1 imm
c_alu_imm32 c_slli src1 src1_u imm = shift_left 32 src1 imm
c_alu_imm32 _ src1 src1_u imm = throw exited

abbrev pub c_branch_taken : OpCode → ℕ → Result Bool
c_branch_taken c_beqz src1 = ok (src1 == 0)
c_branch_taken c_bnez src1 = ok (not (src1 == 0))
c_branch_taken _ src1 = throw exited

abbrev pub c_alu64 : OpCode → ℕ → ℕ → ℕ → ℕ → Result ℕ
c_alu64 c_mv src1 src2 src1_s32 src2_s32 = ok src2
c_alu64 c_add src1 src2 src1_s32 src2_s32 = ok (wrap_add 64 src1 src2)
c_alu64 c_addw src1 src2 src1_s32 src2_s32 = ok (extend_int32 (wrap_add 32 src1_s32 src2_s32))
c_alu64 c_sub src1 src2 src1_s32 src2_s32 = ok (wrap_sub 64 src1 src2)
c_alu64 c_subw src1 src2 src1_s32 src2_s32 = ok (extend_int32 (wrap_sub 32 src1_s32 src2_s32))
c_alu64 c_and src1 src2 src1_s32 src2_s32 = ok (bit_and src1 src2)
c_alu64 c_or src1 src2 src1_s32 src2_s32 = ok (bit_or src1 src2)
c_alu64 c_xor src1 src2 src1_s32 src2_s32 = ok (bit_xor src1 src2)
c_alu64 _ src1 src2 src1_s32 src2_s32 = throw exited

-- The sum of `c_addiw` is an `int64_t`, and is sign-extended without being cut to 32 bits.
abbrev pub c_alu_imm64 : OpCode → ℕ → ℕ → ℕ → ℕ → Result ℕ
c_alu_imm64 c_li src1 src1_u src1_s32 imm = ok imm
c_alu_imm64 c_lui src1 src1_u src1_s32 imm = ok imm
c_alu_imm64 c_addi src1 src1_u src1_s32 imm = ok (wrap_add 64 src1 imm)
c_alu_imm64 c_addiw src1 src1_u src1_s32 imm =
    ok (sign_extend 32 (wrap_add 64 (int32_to_uint64 src1_s32) imm))
c_alu_imm64 c_andi src1 src1_u src1_s32 imm = ok (bit_and src1 imm)
c_alu_imm64 c_srli src1 src1_u src1_s32 imm = shift_right 64 src1_u imm
c_alu_imm64 c_srai src1 src1_u src1_s32 imm = signed_shift_right 64 src1 imm
c_alu_imm64 c_slli src1 src1_u src1_s32 imm = shift_left 64 src1 imm
c_alu_imm64 _ src1 src1_u src1_s32 imm = throw exited
