-- ===== src/Decoder/AtomicOps.antt =====
-- src/lib/common/Decoder.cpp, DecodeA: atomic memory operations.
use rafi_1st.Base.{ℕ, ◌&&◌, ◌==◌, if◌then◌else◌, Result, ok}
use rafi_1st.RvTypes.{SupportedXlen, rv32, rv64, is_rv64}
use rafi_1st.Decoder.Fields.{pick}
use rafi_1st.Decoder.Ops.{
  OpClass, rv32a, rv64a, Op, op, unknown_op, amoadd_d, amoadd_w, amoand_d, amoand_w, amomax_d,
  amomax_w, amomaxu_d, amomaxu_w, amomin_d, amomin_w, amominu_d, amominu_w, amoor_d, amoor_w,
  amoswap_d, amoswap_w, amoxor_d, amoxor_w, lr_d, lr_w, sc_d, sc_w,
}
use rafi_1st.Decoder.Operands.{decode_operand_r}

abbrev pub a_class : SupportedXlen → OpClass
a_class rv32 = rv32a
a_class rv64 = rv64a

unfoldable pub decode_a_word : SupportedXlen → ℕ → Result Op
decode_a_word xlen insn =
    let funct5 = pick insn 27 5 in
    let rs2 = pick insn 20 5 in
    if funct5 == 2 && rs2 == 0
    then ok (op (a_class xlen) lr_w (decode_operand_r insn))
    else if funct5 == 3
    then ok (op (a_class xlen) sc_w (decode_operand_r insn))
    else if funct5 == 1
    then ok (op (a_class xlen) amoswap_w (decode_operand_r insn))
    else if funct5 == 0
    then ok (op (a_class xlen) amoadd_w (decode_operand_r insn))
    else if funct5 == 4
    then ok (op (a_class xlen) amoxor_w (decode_operand_r insn))
    else if funct5 == 12
    then ok (op (a_class xlen) amoand_w (decode_operand_r insn))
    else if funct5 == 8
    then ok (op (a_class xlen) amoor_w (decode_operand_r insn))
    else if funct5 == 16
    then ok (op (a_class xlen) amomin_w (decode_operand_r insn))
    else if funct5 == 20
    then ok (op (a_class xlen) amomax_w (decode_operand_r insn))
    else if funct5 == 24
    then ok (op (a_class xlen) amominu_w (decode_operand_r insn))
    else if funct5 == 28
    then ok (op (a_class xlen) amomaxu_w (decode_operand_r insn))
    else unknown_op (a_class xlen)

unfoldable pub decode_a_double : SupportedXlen → ℕ → Result Op
decode_a_double xlen insn =
    let funct5 = pick insn 27 5 in
    let rs2 = pick insn 20 5 in
    if is_rv64 xlen && funct5 == 2 && rs2 == 0
    then ok (op (a_class xlen) lr_d (decode_operand_r insn))
    else if is_rv64 xlen && funct5 == 3
    then ok (op (a_class xlen) sc_d (decode_operand_r insn))
    else if is_rv64 xlen && funct5 == 1
    then ok (op (a_class xlen) amoswap_d (decode_operand_r insn))
    else if is_rv64 xlen && funct5 == 0
    then ok (op (a_class xlen) amoadd_d (decode_operand_r insn))
    else if is_rv64 xlen && funct5 == 4
    then ok (op (a_class xlen) amoxor_d (decode_operand_r insn))
    else if is_rv64 xlen && funct5 == 12
    then ok (op (a_class xlen) amoand_d (decode_operand_r insn))
    else if is_rv64 xlen && funct5 == 8
    then ok (op (a_class xlen) amoor_d (decode_operand_r insn))
    else if is_rv64 xlen && funct5 == 16
    then ok (op (a_class xlen) amomin_d (decode_operand_r insn))
    else if is_rv64 xlen && funct5 == 20
    then ok (op (a_class xlen) amomax_d (decode_operand_r insn))
    else if is_rv64 xlen && funct5 == 24
    then ok (op (a_class xlen) amominu_d (decode_operand_r insn))
    else if is_rv64 xlen && funct5 == 28
    then ok (op (a_class xlen) amomaxu_d (decode_operand_r insn))
    else unknown_op (a_class xlen)

unfoldable pub decode_a : SupportedXlen → ℕ → Result Op
unfolding decode_a_word decode_a_double
decode_a xlen insn =
    let funct3 = pick insn 12 3 in
    if funct3 == 2
    then decode_a_word xlen insn
    else if funct3 == 3
    then decode_a_double xlen insn
    else unknown_op (a_class xlen)
