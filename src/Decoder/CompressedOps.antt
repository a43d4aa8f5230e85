-- ===== src/Decoder/CompressedOps.antt =====
-- src/lib/common/Decoder.cpp, DecodeC: compressed instructions.
use rafi_1st.Base.{ℕ, true, false, not, ◌&&◌, ◌==◌, if◌then◌else◌, Result, ok}
use rafi_1st.RvTypes.{SupportedXlen, rv32, rv64, is_rv32, is_rv64}
use rafi_1st.Decoder.Fields.{pick}
use rafi_1st.Decoder.Ops.{
  OpClass, rv32c, rv64c, Op, op, op_with, unknown_op, operand_none, c_add, c_addi, c_addi16sp,
  c_addi4spn, c_addiw, c_addw, c_and, c_andi, c_beqz, c_bnez, c_ebreak, c_fld, c_fldsp, c_flw,
  c_flwsp, c_fsd, c_fsdsp, c_fsw, c_fswsp, c_j, c_jal, c_jalr, c_jr, c_ld, c_ldsp, c_li, c_lui,
  c_lw, c_lwsp, c_mv, c_nop, c_or, c_sd, c_sdsp, c_slli, c_srai, c_srli, c_sub, c_subw, c_sw,
  c_swsp, c_xor,
}
use rafi_1st.Decoder.CompressedOperands.{
  decode_operand_cb, decode_operand_ci, decode_operand_ci_addi16_sp, decode_operand_ci_alu_imm,
  decode_operand_ci_load_sp, decode_operand_ci_lui, decode_operand_ciw, decode_operand_cj,
  decode_operand_cl, decode_operand_cr, decode_operand_cr_alu, decode_operand_cs,
  decode_operand_css,
}

abbrev pub c_class : SupportedXlen → OpClass
c_class rv32 = rv32c
c_class rv64 = rv64c

unfoldable pub decode_c_quadrant0 : SupportedXlen → ℕ → Result Op
decode_c_quadrant0 xlen insn =
    let funct3 = pick insn 13 3 in
    if funct3 == 0 && not (pick insn 5 8 == 0)
    then ok (op (c_class xlen) c_addi4spn (decode_operand_ciw insn))
    else if funct3 == 1
    then op_with (c_class xlen) c_fld (decode_operand_cl insn 8)
    else if funct3 == 2
    then op_with (c_class xlen) c_lw (decode_operand_cl insn 4)
    else if funct3 == 3 && is_rv32 xlen
    then op_with (c_class xlen) c_flw (decode_operand_cl insn 4)
    else if funct3 == 3 && is_rv64 xlen
    then op_with (c_class xlen) c_ld (decode_operand_cl insn 8)
    else if funct3 == 5
    then op_with (c_class xlen) c_fsd (decode_operand_cs insn 8)
    else if funct3 == 6
    then op_with (c_class xlen) c_sw (decode_operand_cs insn 4)
    else if funct3 == 7 && is_rv32 xlen
    then op_with (c_class xlen) c_fsw (decode_operand_cs insn 4)
    else if funct3 == 7 && is_rv64 xlen
    then op_with (c_class xlen) c_sd (decode_operand_cs insn 8)
    else unknown_op (c_class xlen)

unfoldable pub decode_c_quadrant1 : SupportedXlen → ℕ → Result Op
decode_c_quadrant1 xlen insn =
    let funct4 = pick insn 12 4 in
    let funct3 = pick insn 13 3 in
    let funct2_rs1 = pick insn 10 2 in
    let funct2_rs2 = pick insn 5 2 in
    let rd = pick insn 7 5 in
    let rs2 = pick insn 2 5 in
    if funct4 == 0 && rd == 0 && rs2 == 0
    then ok (op (c_class xlen) c_nop operand_none)
    else if funct3 == 0
    then ok (op (c_class xlen) c_addi (decode_operand_ci insn true))
    else if funct3 == 1 && is_rv32 xlen
    then ok (op (c_class xlen) c_jal (decode_operand_cj insn))
    else if funct3 == 1 && is_rv64 xlen && not (rd == 0)
    then ok (op (c_class xlen) c_addiw (decode_operand_ci insn true))
    else if funct3 == 2 && not (rd == 0)
    then ok (op (c_class xlen) c_li (decode_operand_ci insn true))
    else if funct3 == 3 && rd == 2
    then ok (op (c_class xlen) c_addi16sp (decode_operand_ci_addi16_sp insn))
    else if funct3 == 3 && not (rd == 0) && not (rd == 2)
    then ok (op (c_class xlen) c_lui (decode_operand_ci_lui insn))
    else if funct3 == 4 && funct2_rs1 == 0
    then ok (op (c_class xlen) c_srli (decode_operand_ci_alu_imm insn false))
    else if funct3 == 4 && funct2_rs1 == 1
    then ok (op (c_class xlen) c_srai (decode_operand_ci_alu_imm insn false))
    else if funct3 == 4 && funct2_rs1 == 2
    then ok (op (c_class xlen) c_andi (decode_operand_ci_alu_imm insn true))
    else if funct4 == 8 && funct2_rs1 == 3 && funct2_rs2 == 0
    then ok (op (c_class xlen) c_sub (decode_operand_cr_alu insn))
    else if funct4 == 8 && funct2_rs1 == 3 && funct2_rs2 == 1
    then ok (op (c_class xlen) c_xor (decode_operand_cr_alu insn))
    else if funct4 == 8 && funct2_rs1 == 3 && funct2_rs2 == 2
    then ok (op (c_class xlen) c_or (decode_operand_cr_alu insn))
    else if funct4 == 8 && funct2_rs1 == 3 && funct2_rs2 == 3
    then ok (op (c_class xlen) c_and (decode_operand_cr_alu insn))
    else if funct4 == 9 && funct2_rs1 == 3 && funct2_rs2 == 0
    then ok (op (c_class xlen) c_subw (decode_operand_cr_alu insn))
    else if funct4 == 9 && funct2_rs1 == 3 && funct2_rs2 == 1
    then ok (op (c_class xlen) c_addw (decode_operand_cr_alu insn))
    else if funct3 == 5
    then ok (op (c_class xlen) c_j (decode_operand_cj insn))
    else if funct3 == 6
    then ok (op (c_class xlen) c_beqz (decode_operand_cb insn))
    else if funct3 == 7
    then ok (op (c_class xlen) c_bnez (decode_operand_cb insn))
    else unknown_op (c_class xlen)

unfoldable pub decode_c_quadrant2 : SupportedXlen → ℕ → Result Op
decode_c_quadrant2 xlen insn =
    let funct4 = pick insn 12 4 in
    let funct3 = pick insn 13 3 in
    let rd = pick insn 7 5 in
    let rs1 = pick insn 7 5 in
    let rs2 = pick insn 2 5 in
    if funct3 == 0
    then ok (op (c_class xlen) c_slli (decode_operand_ci insn true))
    else if funct3 == 1
    then op_with (c_class xlen) c_fldsp (decode_operand_ci_load_sp insn 8)
    else if funct3 == 2 && not (rd == 0)
    then op_with (c_class xlen) c_lwsp (decode_operand_ci_load_sp insn 4)
    else if funct3 == 3 && is_rv32 xlen
    then op_with (c_class xlen) c_flwsp (decode_operand_ci_load_sp insn 4)
    else if funct3 == 3 && is_rv64 xlen && not (rd == 0)
    then op_with (c_class xlen) c_ldsp (decode_operand_ci_load_sp insn 8)
    else if funct4 == 8 && not (rs1 == 0) && rs2 == 0
    then ok (op (c_class xlen) c_jr (decode_operand_cr insn))
    else if funct4 == 8 && not (rd == 0) && not (rs2 == 0)
    then ok (op (c_class xlen) c_mv (decode_operand_cr insn))
    else if funct4 == 9 && rd == 0 && rs2 == 0
    then ok (op (c_class xlen) c_ebreak (decode_operand_cr insn))
    else if funct4 == 9 && not (rs1 == 0) && rs2 == 0
    then ok (op (c_class xlen) c_jalr (decode_operand_cr insn))
    else if funct4 == 9 && not (rs1 == 0) && not (rs2 == 0)
    then ok (op (c_class xlen) c_add (decode_operand_cr insn))
    else if funct3 == 5
    then op_with (c_class xlen) c_fsdsp (decode_operand_css insn 8)
    else if funct3 == 6
    then op_with (c_class xlen) c_swsp (decode_operand_css insn 4)
    else if funct3 == 7 && is_rv32 xlen
    then op_with (c_class xlen) c_fswsp (decode_operand_css insn 4)
    else if funct3 == 7 && is_rv64 xlen
    then op_with (c_class xlen) c_sdsp (decode_operand_css insn 8)
    else unknown_op (c_class xlen)

unfoldable pub decode_c : SupportedXlen → ℕ → Result Op
unfolding decode_c_quadrant0 decode_c_quadrant1 decode_c_quadrant2
decode_c xlen insn =
    let opcode = pick insn 0 2 in
    if opcode == 0
    then decode_c_quadrant0 xlen insn
    else if opcode == 1
    then decode_c_quadrant1 xlen insn
    else if opcode == 2
    then decode_c_quadrant2 xlen insn
    else unknown_op (c_class xlen)
