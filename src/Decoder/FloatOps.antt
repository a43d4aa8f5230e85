-- ===== src/Decoder/FloatOps.antt =====
-- src/lib/common/Decoder.cpp, DecodeF: single-precision instructions.
use rafi_1st.Base.{ℕ, ◌&&◌, ◌==◌, if◌then◌else◌, Result, ok}
use rafi_1st.RvTypes.{SupportedXlen, rv32, rv64, is_rv64}
use rafi_1st.Decoder.Fields.{pick}
use rafi_1st.Decoder.Ops.{
  OpClass, rv32f, rv64f, Op, op, unknown_op, fadd_s, fclass_s, fcvt_l_s, fcvt_lu_s, fcvt_s_l,
  fcvt_s_lu, fcvt_s_w, fcvt_s_wu, fcvt_w_s, fcvt_wu_s, fdiv_s, feq_s, fle_s, flt_s, flw, fmadd_s,
  fmax_s, fmin_s, fmsub_s, fmul_s, fmv_w_x, fmv_x_w, fnmadd_s, fnmsub_s, fsgnj_s, fsgnjn_s,
  fsgnjx_s, fsqrt_s, fsub_s, fsw,
}
use rafi_1st.Decoder.Operands.{
  decode_operand_i, decode_operand_r, decode_operand_r4, decode_operand_s,
}

abbrev pub f_class : SupportedXlen → OpClass
f_class rv32 = rv32f
f_class rv64 = rv64f

unfoldable pub decode_f_op_fp : SupportedXlen → ℕ → Result Op
decode_f_op_fp xlen insn =
    let funct3 = pick insn 12 3 in
    let funct7 = pick insn 25 7 in
    let rs2 = pick insn 20 5 in
    if funct7 == 0
    then ok (op (f_class xlen) fadd_s (decode_operand_r insn))
    else if funct7 == 4
    then ok (op (f_class xlen) fsub_s (decode_operand_r insn))
    else if funct7 == 8
    then ok (op (f_class xlen) fmul_s (decode_operand_r insn))
    else if funct7 == 12
    then ok (op (f_class xlen) fdiv_s (decode_operand_r insn))
    else if funct7 == 44
    then if rs2 == 0
      then ok (op (f_class xlen) fsqrt_s (decode_operand_r insn))
      else unknown_op (f_class xlen)
    else if funct7 == 16
    then if funct3 == 0
      then ok (op (f_class xlen) fsgnj_s (decode_operand_r insn))
      else if funct3 == 1
      then ok (op (f_class xlen) fsgnjn_s (decode_operand_r insn))
      else if funct3 == 2
      then ok (op (f_class xlen) fsgnjx_s (decode_operand_r insn))
      else unknown_op (f_class xlen)
    else if funct7 == 20
    then if funct3 == 0
      then ok (op (f_class xlen) fmin_s (decode_operand_r insn))
      else if funct3 == 1
      then ok (op (f_class xlen) fmax_s (decode_operand_r insn))
      else unknown_op (f_class xlen)
    else if funct7 == 96
    then if rs2 == 0
      then ok (op (f_class xlen) fcvt_w_s (decode_operand_r insn))
      else if rs2 == 1
      then ok (op (f_class xlen) fcvt_wu_s (decode_operand_r insn))
      else if rs2 == 2 && is_rv64 xlen
      then ok (op (f_class xlen) fcvt_l_s (decode_operand_r insn))
      else if rs2 == 3 && is_rv64 xlen
      then ok (op (f_class xlen) fcvt_lu_s (decode_operand_r insn))
      else unknown_op (f_class xlen)
    else if funct7 == 112
    then if rs2 == 0 && funct3 == 0
      then ok (op (f_class xlen) fmv_x_w (decode_operand_r insn))
      else if rs2 == 0 && funct3 == 1
      then ok (op (f_class xlen) fclass_s (decode_operand_r insn))
      else unknown_op (f_class xlen)
    else if funct7 == 80
    then if funct3 == 0
      then ok (op (f_class xlen) fle_s (decode_operand_r insn))
      else if funct3 == 1
      then ok (op (f_class xlen) flt_s (decode_operand_r insn))
      else if funct3 == 2
      then ok (op (f_class xlen) feq_s (decode_operand_r insn))
      else unknown_op (f_class xlen)
    else if funct7 == 104
    then if rs2 == 0
      then ok (op (f_class xlen) fcvt_s_w (decode_operand_r insn))
      else if rs2 == 1
      then ok (op (f_class xlen) fcvt_s_wu (decode_operand_r insn))
      else if rs2 == 2 && is_rv64 xlen
      then ok (op (f_class xlen) fcvt_s_l (decode_operand_r insn))
      else if rs2 == 3 && is_rv64 xlen
      then ok (op (f_class xlen) fcvt_s_lu (decode_operand_r insn))
      else unknown_op (f_class xlen)
    else if funct7 == 120
    then if rs2 == 0 && funct3 == 0
      then ok (op (f_class xlen) fmv_w_x (decode_operand_r insn))
      else unknown_op (f_class xlen)
    else unknown_op (f_class xlen)

unfoldable pub decode_f : SupportedXlen → ℕ → Result Op
unfolding decode_f_op_fp
decode_f xlen insn =
    let opcode = pick insn 0 7 in
    let funct3 = pick insn 12 3 in
    if opcode == 7
    then if funct3 == 2
      then ok (op (f_class xlen) flw (decode_operand_i insn))
      else unknown_op (f_class xlen)
    else if opcode == 39
    then if funct3 == 2
      then ok (op (f_class xlen) fsw (decode_operand_s insn))
      else unknown_op (f_class xlen)
    else if opcode == 67
    then ok (op (f_class xlen) fmadd_s (decode_operand_r4 insn))
    else if opcode == 71
    then ok (op (f_class xlen) fmsub_s (decode_operand_r4 insn))
    else if opcode == 75
    then ok (op (f_class xlen) fnmsub_s (decode_operand_r4 insn))
    else if opcode == 79
    then ok (op (f_class xlen) fnmadd_s (decode_operand_r4 insn))
    else if opcode == 83
    then decode_f_op_fp xlen insn
    else unknown_op (f_class xlen)
