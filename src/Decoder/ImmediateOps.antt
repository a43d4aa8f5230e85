-- ===== src/Decoder/ImmediateOps.antt =====
-- src/lib/common/Decoder.cpp, DecodeI: branches, loads, stores and operations with an immediate.
use rafi_1st.Base.{ℕ, ◌&&◌, ◌==◌, if◌then◌else◌, Result, ok}
use rafi_1st.RvTypes.{SupportedXlen, rv32, rv64, is_rv32, is_rv64}
use rafi_1st.Decoder.Fields.{pick}
use rafi_1st.Decoder.Ops.{
  OpClass, rv32i, rv64i, Op, op, unknown_op, addi, andi, beq, bge, bgeu, blt, bltu, bne, lb, lbu,
  ld, lh, lhu, lw, lwu, ori, sb, sd, sh, slli, slti, sltiu, srai, srli, sw, xori,
}
use rafi_1st.Decoder.Operands.{
  decode_operand_b, decode_operand_i, decode_operand_s, decode_operand_shift_imm32,
  decode_operand_shift_imm64,
}

abbrev pub i_class : SupportedXlen → OpClass
i_class rv32 = rv32i
i_class rv64 = rv64i

unfoldable pub decode_i_branch : SupportedXlen → ℕ → Result Op
decode_i_branch xlen insn =
    let funct3 = pick insn 12 3 in
    if funct3 == 0
    then ok (op (i_class xlen) beq (decode_operand_b insn))
    else if funct3 == 1
    then ok (op (i_class xlen) bne (decode_operand_b insn))
    else if funct3 == 4
    then ok (op (i_class xlen) blt (decode_operand_b insn))
    else if funct3 == 5
    then ok (op (i_class xlen) bge (decode_operand_b insn))
    else if funct3 == 6
    then ok (op (i_class xlen) bltu (decode_operand_b insn))
    else if funct3 == 7
    then ok (op (i_class xlen) bgeu (decode_operand_b insn))
    else unknown_op (i_class xlen)

unfoldable pub decode_i_load : SupportedXlen → ℕ → Result Op
decode_i_load xlen insn =
    let funct3 = pick insn 12 3 in
    if funct3 == 0
    then ok (op (i_class xlen) lb (decode_operand_i insn))
    else if funct3 == 1
    then ok (op (i_class xlen) lh (decode_operand_i insn))
    else if funct3 == 2
    then ok (op (i_class xlen) lw (decode_operand_i insn))
    else if funct3 == 3 && is_rv64 xlen
    then ok (op (i_class xlen) ld (decode_operand_i insn))
    else if funct3 == 4
    then ok (op (i_class xlen) lbu (decode_operand_i insn))
    else if funct3 == 5
    then ok (op (i_class xlen) lhu (decode_operand_i insn))
    else if funct3 == 6 && is_rv64 xlen
    then ok (op (i_class xlen) lwu (decode_operand_i insn))
    else unknown_op (i_class xlen)

unfoldable pub decode_i_store : SupportedXlen → ℕ → Result Op
decode_i_store xlen insn =
    let funct3 = pick insn 12 3 in
    if funct3 == 0
    then ok (op (i_class xlen) sb (decode_operand_s insn))
    else if funct3 == 1
    then ok (op (i_class xlen) sh (decode_operand_s insn))
    else if funct3 == 2
    then ok (op (i_class xlen) sw (decode_operand_s insn))
    else if funct3 == 3 && is_rv64 xlen
    then ok (op (i_class xlen) sd (decode_operand_s insn))
    else unknown_op (i_class xlen)

unfoldable pub decode_i_op_imm : SupportedXlen → ℕ → Result Op
decode_i_op_imm xlen insn =
    let funct3 = pick insn 12 3 in
    let funct6 = pick insn 26 6 in
    let funct7 = pick insn 25 7 in
    if funct3 == 0
    then ok (op (i_class xlen) addi (decode_operand_i insn))
    else if funct3 == 1 && is_rv32 xlen && funct7 == 0
    then ok (op (i_class xlen) slli (decode_operand_shift_imm32 insn))
    else if funct3 == 1 && is_rv64 xlen && funct6 == 0
    then ok (op (i_class xlen) slli (decode_operand_shift_imm64 insn))
    else if funct3 == 2
    then ok (op (i_class xlen) slti (decode_operand_i insn))
    else if funct3 == 3
    then ok (op (i_class xlen) sltiu (decode_operand_i insn))
    else if funct3 == 4
    then ok (op (i_class xlen) xori (decode_operand_i insn))
    else if funct3 == 5 && is_rv32 xlen && funct7 == 0
    then ok (op (i_class xlen) srli (decode_operand_shift_imm32 insn))
    else if funct3 == 5 && is_rv32 xlen && funct7 == 32
    then ok (op (i_class xlen) srai (decode_operand_shift_imm32 insn))
    else if funct3 == 5 && is_rv64 xlen && funct6 == 0
    then ok (op (i_class xlen) srli (decode_operand_shift_imm64 insn))
    else if funct3 == 5 && is_rv64 xlen && funct6 == 16
    then ok (op (i_class xlen) srai (decode_operand_shift_imm64 insn))
    else if funct3 == 6
    then ok (op (i_class xlen) ori (decode_operand_i insn))
    else if funct3 == 7
    then ok (op (i_class xlen) andi (decode_operand_i insn))
    else unknown_op (i_class xlen)
