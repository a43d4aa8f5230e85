-- ===== src/Decoder/IntegerOps.antt =====
-- src/lib/common/Decoder.cpp, DecodeI: the base integer instructions.
use rafi_1st.Base.{ℕ, ◌&&◌, ◌==◌, if◌then◌else◌, Result, ok}
use rafi_1st.RvTypes.{SupportedXlen, is_rv64}
use rafi_1st.Decoder.Fields.{pick}
use rafi_1st.Decoder.Ops.{
  Op, op, unknown_op, operand_none, add, addiw, addw, and_, auipc, csrrc, csrrci, csrrs, csrrsi,
  csrrw, csrrwi, ebreak, ecall, fence, fence_i, jal, jalr, lui, mret, or_, sfence_vma, sll, slliw,
  sllw, slt, sltu, sra, sraiw, sraw, sret, srl, srliw, srlw, sub, subw, uret, wfi, xor_,
}
use rafi_1st.Decoder.Operands.{
  decode_operand_csr, decode_operand_csr_imm, decode_operand_fence, decode_operand_i,
  decode_operand_j, decode_operand_r, decode_operand_shift_imm32, decode_operand_u,
}
use rafi_1st.Decoder.ImmediateOps.{
  i_class, decode_i_branch, decode_i_load, decode_i_store, decode_i_op_imm,
}

unfoldable pub decode_i_op : SupportedXlen → ℕ → Result Op
decode_i_op xlen insn =
    let funct3 = pick insn 12 3 in
    let funct7 = pick insn 25 7 in
    if funct7 == 0
    then if funct3 == 0
      then ok (op (i_class xlen) add (decode_operand_r insn))
      else if funct3 == 1
      then ok (op (i_class xlen) sll (decode_operand_r insn))
      else if funct3 == 2
      then ok (op (i_class xlen) slt (decode_operand_r insn))
      else if funct3 == 3
      then ok (op (i_class xlen) sltu (decode_operand_r insn))
      else if funct3 == 4
      then ok (op (i_class xlen) xor_ (decode_operand_r insn))
      else if funct3 == 5
      then ok (op (i_class xlen) srl (decode_operand_r insn))
      else if funct3 == 6
      then ok (op (i_class xlen) or_ (decode_operand_r insn))
      else if funct3 == 7
      then ok (op (i_class xlen) and_ (decode_operand_r insn))
      else unknown_op (i_class xlen)
    else if funct7 == 32
    then if funct3 == 0
      then ok (op (i_class xlen) sub (decode_operand_r insn))
      else if funct3 == 5
      then ok (op (i_class xlen) sra (decode_operand_r insn))
      else unknown_op (i_class xlen)
    else unknown_op (i_class xlen)

unfoldable pub decode_i_op_imm_32 : SupportedXlen → ℕ → Result Op
decode_i_op_imm_32 xlen insn =
    let funct3 = pick insn 12 3 in
    let funct7 = pick insn 25 7 in
    if is_rv64 xlen && funct3 == 0
    then ok (op (i_class xlen) addiw (decode_operand_i insn))
    else if is_rv64 xlen && funct3 == 1 && funct7 == 0
    then ok (op (i_class xlen) slliw (decode_operand_shift_imm32 insn))
    else if is_rv64 xlen && funct3 == 5 && funct7 == 0
    then ok (op (i_class xlen) srliw (decode_operand_shift_imm32 insn))
    else if is_rv64 xlen && funct3 == 5 && funct7 == 32
    then ok (op (i_class xlen) sraiw (decode_operand_shift_imm32 insn))
    else unknown_op (i_class xlen)

unfoldable pub decode_i_op_32 : SupportedXlen → ℕ → Result Op
decode_i_op_32 xlen insn =
    let funct3 = pick insn 12 3 in
    let funct7 = pick insn 25 7 in
    if is_rv64 xlen && funct3 == 0 && funct7 == 0
    then ok (op (i_class xlen) addw (decode_operand_r insn))
    else if is_rv64 xlen && funct3 == 0 && funct7 == 32
    then ok (op (i_class xlen) subw (decode_operand_r insn))
    else if is_rv64 xlen && funct3 == 1 && funct7 == 0
    then ok (op (i_class xlen) sllw (decode_operand_r insn))
    else if is_rv64 xlen && funct3 == 5 && funct7 == 0
    then ok (op (i_class xlen) srlw (decode_operand_r insn))
    else if is_rv64 xlen && funct3 == 5 && funct7 == 32
    then ok (op (i_class xlen) sraw (decode_operand_r insn))
    else unknown_op (i_class xlen)

unfoldable pub decode_i_system : SupportedXlen → ℕ → Result Op
decode_i_system xlen insn =
    let funct3 = pick insn 12 3 in
    let funct7 = pick insn 25 7 in
    let funct12 = pick insn 20 12 in
    let rd = pick insn 7 5 in
    let rs1 = pick insn 15 5 in
    if funct3 == 0 && rd == 0
    then if funct7 == 9
      then ok (op (i_class xlen) sfence_vma (decode_operand_r insn))
      else if rs1 == 0
      then if funct12 == 0
        then ok (op (i_class xlen) ecall operand_none)
        else if funct12 == 1
        then ok (op (i_class xlen) ebreak operand_none)
        else if funct12 == 2
        then ok (op (i_class xlen) uret operand_none)
        else if funct12 == 258
        then ok (op (i_class xlen) sret operand_none)
        else if funct12 == 261
        then ok (op (i_class xlen) wfi operand_none)
        else if funct12 == 770
        then ok (op (i_class xlen) mret operand_none)
        else unknown_op (i_class xlen)
      else unknown_op (i_class xlen)
    else if funct3 == 1
    then ok (op (i_class xlen) csrrw (decode_operand_csr insn))
    else if funct3 == 2
    then ok (op (i_class xlen) csrrs (decode_operand_csr insn))
    else if funct3 == 3
    then ok (op (i_class xlen) csrrc (decode_operand_csr insn))
    else if funct3 == 5
    then ok (op (i_class xlen) csrrwi (decode_operand_csr_imm insn))
    else if funct3 == 6
    then ok (op (i_class xlen) csrrsi (decode_operand_csr_imm insn))
    else if funct3 == 7
    then ok (op (i_class xlen) csrrci (decode_operand_csr_imm insn))
    else unknown_op (i_class xlen)

unfoldable pub decode_i : SupportedXlen → ℕ → Result Op
unfolding decode_i_branch decode_i_load decode_i_store decode_i_op_imm decode_i_op
    decode_i_op_imm_32 decode_i_op_32 decode_i_system
decode_i xlen insn =
    let opcode = pick insn 0 7 in
    let funct3 = pick insn 12 3 in
    let funct12 = pick insn 20 12 in
    let rd = pick insn 7 5 in
    let rs1 = pick insn 15 5 in
    if opcode == 55
    then ok (op (i_class xlen) lui (decode_operand_u insn))
    else if opcode == 23
    then ok (op (i_class xlen) auipc (decode_operand_u insn))
    else if opcode == 111
    then ok (op (i_class xlen) jal (decode_operand_j insn))
    else if opcode == 103
    then if funct3 == 0
      then ok (op (i_class xlen) jalr (decode_operand_i insn))
      else unknown_op (i_class xlen)
    else if opcode == 99
    then decode_i_branch xlen insn
    else if opcode == 3
    then decode_i_load xlen insn
    else if opcode == 35
    then decode_i_store xlen insn
    else if opcode == 19
    then decode_i_op_imm xlen insn
    else if opcode == 51
    then decode_i_op xlen insn
    else if opcode == 27
    then decode_i_op_imm_32 xlen insn
    else if opcode == 59
    then decode_i_op_32 xlen insn
    else if opcode == 15
    then if funct3 == 0 && rd == 0 && rs1 == 0 && pick insn 28 4 == 0
      then ok (op (i_class xlen) fence (decode_operand_fence insn))
      else if funct3 == 1 && rd == 0 && rs1 == 0 && funct12 == 0
      then ok (op (i_class xlen) fence_i (decode_operand_fence insn))
      else unknown_op (i_class xlen)
    else if opcode == 115
    then decode_i_system xlen insn
    else unknown_op (i_class xlen)
