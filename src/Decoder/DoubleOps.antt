-- ===== src/Decoder/DoubleOps.antt =====
-- src/lib/common/Decoder.cpp, DecodeD: double-precision instructions.
use rafi_1st.Base.{ℕ, ◌&&◌, ◌==◌, if◌then◌else◌, Result, ok}
use rafi_1st.RvTypes.{SupportedXlen, rv32, rv64}
use rafi_1st.Decoder.Fields.{pick}
use rafi_1st.Decoder.Ops.{
  OpClass, rv32d, rv64d, Op, op, unknown_op, fadd_d, fclass_d, fcvt_d_l, fcvt_d_lu, fcvt_d_s,
  fcvt_d_w, fcvt_d_wu, fcvt_l_d, fcvt_lu_d, fcvt_s_d, fcvt_w_d, fcvt_wu_d, fdiv_d, feq_d, fld,
  fle_d, flt_d, fmadd_d, fmax_d, fmin_d, fmsub_d, fmul_d, fmv_d_x, fmv_x_d, fnmadd_d, fnmsub_d, fsd,
  fsgnj_d, fsgnjn_d, fsgnjx_d, fsqrt_d, fsub_d,
}
use rafi_1st.Decoder.Operands.{
  decode_operand_i, decode_operand_r, decode_operand_r4, decode_operand_s,
}

abbrev pub d_class : SupportedXlen → OpClass
d_class rv32 = rv32d
d_class rv64 = rv64d

unfoldable pub decode_d_op_fp : SupportedXlen → ℕ → Result Op
decode_d_op_fp xlen insn =
    let funct3 = pick insn 12 3 in
    let funct7 = pick insn 25 7 in
    let rs2 = pick insn 20 5 in
    if funct7 == 1
    then ok (op (d_class xlen) fadd_d (decode_operand_r insn))
    else if funct7 == 5
    then ok (op (d_class xlen) fsub_d (decode_operand_r insn))
    else if funct7 == 9
    then ok (op (d_class xlen) fmul_d (decode_operand_r insn))
    else if funct7 == 13
    then ok (op (d_class xlen) fdiv_d (decode_operand_r insn))
    else if funct7 == 45
    then if rs2 == 0
      then ok (op (d_class xlen) fsqrt_d (decode_operand_r insn))
      else unknown_op (d_class xlen)
    else if funct7 == 17
    then if funct3 == 0
      then ok (op (d_class xlen) fsgnj_d (decode_operand_r insn))
      else if funct3 == 1
      then ok (op (d_class xlen) fsgnjn_d (decode_operand_r insn))
      else if funct3 == 2
      then ok (op (d_class xlen) fsgnjx_d (decode_operand_r insn))
      else unknown_op (d_class xlen)
    else if funct7 == 21
    then if funct3 == 0
      then ok (op (d_class xlen) fmin_d (decode_operand_r insn))
      else if funct3 == 1
      then ok (op (d_class xlen) fmax_d (decode_operand_r insn))
      else unknown_op (d_class xlen)
    else if funct7 == 32
    then if rs2 == 1
      then ok (op (d_class xlen) fcvt_s_d (decode_operand_r insn))
      else unknown_op (d_class xlen)
    else if funct7 == 33
    then if rs2 == 0
      then ok (op (d_class xlen) fcvt_d_s (decode_operand_r insn))
      else unknown_op (d_class xlen)
    else if funct7 == 81
    then if funct3 == 0
      then ok (op (d_class xlen) fle_d (decode_operand_r insn))
      else if funct3 == 1
      then ok (op (d_class xlen) flt_d (decode_operand_r insn))
      else if funct3 == 2
      then ok (op (d_class xlen) feq_d (decode_operand_r insn))
      else unknown_op (d_class xlen)
    else if funct7 == 113
    then if rs2 == 0 && funct3 == 0
      then ok (op (d_class xlen) fmv_x_d (decode_operand_r insn))
      else if rs2 == 0 && funct3 == 1
      then ok (op (d_class xlen) fclass_d (decode_operand_r insn))
      else unknown_op (d_class xlen)
    else if funct7 == 97
    then if rs2 == 0
      then ok (op (d_class xlen) fcvt_w_d (decode_operand_r insn))
      else if rs2 == 1
      then ok (op (d_class xlen) fcvt_wu_d (decode_operand_r insn))
      else if rs2 == 2
      then ok (op (d_class xlen) fcvt_l_d (decode_operand_r insn))
      else if rs2 == 3
      then ok (op (d_class xlen) fcvt_lu_d (decode_operand_r insn))
      else unknown_op (d_class xlen)
    else if funct7 == 105
    then if rs2 == 0
      then ok (op (d_class xlen) fcvt_d_w (decode_operand_r insn))
      else if rs2 == 1
      then ok (op (d_class xlen) fcvt_d_wu (decode_operand_r insn))
      else if rs2 == 2
      then ok (op (d_class xlen) fcvt_d_l (decode_operand_r insn))
      else if rs2 == 3
      then ok (op (d_class xlen) fcvt_d_lu (decode_operand_r insn))
      else unknown_op (d_class xlen)
    else if funct7 == 121
    then if rs2 == 0 && funct3 == 0
      then ok (op (d_class xlen) fmv_d_x (decode_operand_r insn))
      else unknown_op (d_class xlen)
    else unknown_op (d_class xlen)

unfoldable pub decode_d : SupportedXlen → ℕ → Result Op
unfolding decode_d_op_fp
decode_d xlen insn =
    let opcode = pick insn 0 7 in
    let funct3 = pick insn 12 3 in
    if opcode == 7
    then if funct3 == 3
      then ok (op (d_class xlen) fld (decode_operand_i insn))
      else unknown_op (d_class xlen)
    else if opcode == 39
    then if funct3 == 3
      then ok (op (d_class xlen) fsd (decode_operand_s insn))
      else unknown_op (d_class xlen)
    else if opcode == 67
    then ok (op (d_class xlen) fmadd_d (decode_operand_r4 insn))
    else if opcode == 71
    then ok (op (d_class xlen) fmsub_d (decode_operand_r4 insn))
    else if opcode == 75
    then ok (op (d_class xlen) fnmsub_d (decode_operand_r4 insn))
    else if opcode == 79
    then ok (op (d_class xlen) fnmadd_d (decode_operand_r4 insn))
    else if opcode == 83
    then decode_d_op_fp xlen insn
    else unknown_op (d_class xlen)
