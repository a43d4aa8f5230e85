-- ===== src/Decoder/MultiplyOps.antt =====
-- src/lib/common/Decoder.cpp, DecodeM: multiplication and division.
use rafi_1st.Base.{ℕ, ◌&&◌, ◌==◌, if◌then◌else◌, Result, ok, throw, not_implemented}
use rafi_1st.RvTypes.{SupportedXlen, rv32, rv64, is_rv64}
use rafi_1st.Decoder.Fields.{pick}
use rafi_1st.Decoder.Ops.{
  OpClass, rv32m, rv64m, Op, op, unknown, div, divu, divuw, divw, mul, mulh, mulhsu, mulhu, mulw,
  rem, remu, remuw, remw,
}
use rafi_1st.Decoder.Operands.{decode_operand_r}

abbrev pub m_class : SupportedXlen → OpClass
m_class rv32 = rv32m
m_class rv64 = rv64m

unfoldable pub decode_m_op : SupportedXlen → ℕ → Result Op
decode_m_op xlen insn =
    let funct3 = pick insn 12 3 in
    if funct3 == 0
    then ok (op (m_class xlen) mul (decode_operand_r insn))
    else if funct3 == 1
    then ok (op (m_class xlen) mulh (decode_operand_r insn))
    else if funct3 == 2
    then ok (op (m_class xlen) mulhsu (decode_operand_r insn))
    else if funct3 == 3
    then ok (op (m_class xlen) mulhu (decode_operand_r insn))
    else if funct3 == 4
    then ok (op (m_class xlen) div (decode_operand_r insn))
    else if funct3 == 5
    then ok (op (m_class xlen) divu (decode_operand_r insn))
    else if funct3 == 6
    then ok (op (m_class xlen) rem (decode_operand_r insn))
    else ok (op (m_class xlen) remu (decode_operand_r insn))

unfoldable pub decode_m_op_32 : SupportedXlen → ℕ → Result Op
decode_m_op_32 xlen insn =
    let funct3 = pick insn 12 3 in
    if is_rv64 xlen && funct3 == 0
    then ok (op (m_class xlen) mulw (decode_operand_r insn))
    else if is_rv64 xlen && funct3 == 4
    then ok (op (m_class xlen) divw (decode_operand_r insn))
    else if is_rv64 xlen && funct3 == 5
    then ok (op (m_class xlen) divuw (decode_operand_r insn))
    else if is_rv64 xlen && funct3 == 6
    then ok (op (m_class xlen) remw (decode_operand_r insn))
    else if is_rv64 xlen && funct3 == 7
    then ok (op (m_class xlen) remuw (decode_operand_r insn))
    else ok (op (m_class xlen) unknown (decode_operand_r insn))

unfoldable pub decode_m : SupportedXlen → ℕ → Result Op
unfolding decode_m_op decode_m_op_32
decode_m xlen insn =
    let opcode = pick insn 0 7 in
    if opcode == 51
    then decode_m_op xlen insn
    else if opcode == 59
    then decode_m_op_32 xlen insn
    else throw not_implemented
