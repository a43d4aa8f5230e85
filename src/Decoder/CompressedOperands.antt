-- ===== src/Decoder/CompressedOperands.antt =====
-- src/lib/common/Decoder.cpp: the operands of the compressed formats.
use rafi_1st.Base.{
  ℕ, ◌+◌, ◌*◌, ◌^◌, Bool, ◌==◌, if◌then◌else◌, bit_or, Result, ok, throw, not_implemented,
}
use rafi_1st.Cpu.MemoryAccessUnit.{zero_extend}
use rafi_1st.Decoder.Fields.{pick, sign_extend}
use rafi_1st.Decoder.Ops.{
  Operand, operand_cr, operand_ci, operand_css, operand_ciw, operand_cl, operand_cs, operand_cb,
  operand_cj,
}

unfoldable pub decode_operand_cr : ℕ → Operand
decode_operand_cr insn = operand_cr (pick insn 7 5) (pick insn 7 5) (pick insn 2 5)

unfoldable pub decode_operand_cr_alu : ℕ → Operand
decode_operand_cr_alu insn = operand_cr (pick insn 7 3 + 8) (pick insn 7 3 + 8) (pick insn 2 3 + 8)

unfoldable pub decode_operand_ci : ℕ → Bool → Operand
decode_operand_ci insn imm_signed =
    operand_ci
      (if imm_signed
        then sign_extend 6 (bit_or (pick insn 12 1 * 2 ^ 5) (pick insn 2 5))
        else zero_extend 6 (bit_or (pick insn 12 1 * 2 ^ 5) (pick insn 2 5)))
      (pick insn 7 5) (pick insn 7 5)

unfoldable pub decode_operand_ci_addi16_sp : ℕ → Operand
decode_operand_ci_addi16_sp insn =
    operand_ci
      (sign_extend 10 (
        bit_or
          (bit_or
            (bit_or (bit_or (pick insn 12 1 * 2 ^ 9) (pick insn 6 1 * 2 ^ 4))
              (pick insn 5 1 * 2 ^ 6))
            (pick insn 3 2 * 2 ^ 7))
          (pick insn 2 1 * 2 ^ 5)))
      (pick insn 7 5) (pick insn 7 5)

unfoldable pub decode_operand_ci_alu_imm : ℕ → Bool → Operand
decode_operand_ci_alu_imm insn imm_signed =
    operand_ci
      (if imm_signed
        then sign_extend 6 (bit_or (pick insn 12 1 * 2 ^ 5) (pick insn 2 5))
        else zero_extend 6 (bit_or (pick insn 12 1 * 2 ^ 5) (pick insn 2 5)))
      (pick insn 7 3 + 8) (pick insn 7 3 + 8)

unfoldable pub decode_operand_ci_load_sp : ℕ → ℕ → Result Operand
decode_operand_ci_load_sp insn access_size =
    if access_size == 4
    then ok (
        operand_ci
          (zero_extend 8 (
            bit_or (bit_or (pick insn 12 1 * 2 ^ 5) (pick insn 4 3 * 2 ^ 2))
              (pick insn 2 2 * 2 ^ 6)))
          (pick insn 7 5) (pick insn 7 5))
    else if access_size == 8
    then ok (
        operand_ci
          (zero_extend 9 (
            bit_or (bit_or (pick insn 12 1 * 2 ^ 5) (pick insn 5 2 * 2 ^ 3))
              (pick insn 2 3 * 2 ^ 6)))
          (pick insn 7 5) (pick insn 7 5))
    else if access_size == 16
    then ok (
        operand_ci
          (zero_extend 10 (
            bit_or (bit_or (pick insn 12 1 * 2 ^ 5) (pick insn 6 1 * 2 ^ 4))
              (pick insn 2 4 * 2 ^ 6)))
          (pick insn 7 5) (pick insn 7 5))
    else throw not_implemented

unfoldable pub decode_operand_ci_lui : ℕ → Operand
decode_operand_ci_lui insn =
    operand_ci (sign_extend 18 (bit_or (pick insn 12 1 * 2 ^ 17) (pick insn 2 5 * 2 ^ 12)))
      (pick insn 7 5) (pick insn 7 5)

unfoldable pub decode_operand_css : ℕ → ℕ → Result Operand
decode_operand_css insn access_size =
    if access_size == 4
    then ok (
        operand_css (zero_extend 8 (bit_or (pick insn 9 4 * 2 ^ 2) (pick insn 7 2 * 2 ^ 6)))
          (pick insn 2 5))
    else if access_size == 8
    then ok (
        operand_css (zero_extend 9 (bit_or (pick insn 10 3 * 2 ^ 3) (pick insn 7 3 * 2 ^ 6)))
          (pick insn 2 5))
    else if access_size == 16
    then ok (
        operand_css (zero_extend 10 (bit_or (pick insn 11 2 * 2 ^ 4) (pick insn 7 4 * 2 ^ 6)))
          (pick insn 2 5))
    else throw not_implemented

unfoldable pub decode_operand_ciw : ℕ → Operand
decode_operand_ciw insn =
    operand_ciw
      (zero_extend 10 (
        bit_or
          (bit_or (bit_or (pick insn 11 2 * 2 ^ 4) (pick insn 7 4 * 2 ^ 6)) (pick insn 6 1 * 2 ^ 2))
          (pick insn 5 1 * 2 ^ 3)))
      (pick insn 2 3 + 8)

unfoldable pub decode_operand_cl : ℕ → ℕ → Result Operand
decode_operand_cl insn access_size =
    if access_size == 4
    then ok (
        operand_cl
          (zero_extend 7 (
            bit_or (bit_or (pick insn 10 3 * 2 ^ 3) (pick insn 6 1 * 2 ^ 2))
              (pick insn 5 1 * 2 ^ 6)))
          (pick insn 2 3 + 8) (pick insn 7 3 + 8))
    else if access_size == 8
    then ok (
        operand_cl (zero_extend 8 (bit_or (pick insn 10 3 * 2 ^ 3) (pick insn 5 2 * 2 ^ 6)))
          (pick insn 2 3 + 8) (pick insn 7 3 + 8))
    else if access_size == 16
    then ok (
        operand_cl
          (zero_extend 9 (
            bit_or (bit_or (pick insn 11 2 * 2 ^ 4) (pick insn 10 1 * 2 ^ 8))
              (pick insn 5 2 * 2 ^ 6)))
          (pick insn 2 3 + 8) (pick insn 7 3 + 8))
    else throw not_implemented

unfoldable pub decode_operand_cs : ℕ → ℕ → Result Operand
decode_operand_cs insn access_size =
    if access_size == 4
    then ok (
        operand_cs
          (zero_extend 7 (
            bit_or (bit_or (pick insn 10 3 * 2 ^ 3) (pick insn 6 1 * 2 ^ 2))
              (pick insn 5 1 * 2 ^ 6)))
          (pick insn 7 3 + 8) (pick insn 2 3 + 8))
    else if access_size == 8
    then ok (
        operand_cs (zero_extend 8 (bit_or (pick insn 10 3 * 2 ^ 3) (pick insn 5 2 * 2 ^ 6)))
          (pick insn 7 3 + 8) (pick insn 2 3 + 8))
    else if access_size == 16
    then ok (
        operand_cs
          (zero_extend 9 (
            bit_or (bit_or (pick insn 11 2 * 2 ^ 4) (pick insn 10 1 * 2 ^ 8))
              (pick insn 5 2 * 2 ^ 6)))
          (pick insn 7 3 + 8) (pick insn 2 3 + 8))
    else throw not_implemented

unfoldable pub decode_operand_cb : ℕ → Operand
decode_operand_cb insn =
    operand_cb
      (sign_extend 9 (
        bit_or
          (bit_or
            (bit_or (bit_or (pick insn 12 1 * 2 ^ 8) (pick insn 10 2 * 2 ^ 3))
              (pick insn 5 2 * 2 ^ 6))
            (pick insn 3 2 * 2 ^ 1))
          (pick insn 2 1 * 2 ^ 5)))
      (pick insn 7 3 + 8)

unfoldable pub decode_operand_cj : ℕ → Operand
decode_operand_cj insn = operand_cj (
    sign_extend 12 (
      bit_or
        (bit_or
          (bit_or
            (bit_or
              (bit_or
                (bit_or (bit_or (pick insn 12 1 * 2 ^ 11) (pick insn 11 1 * 2 ^ 4))
                  (pick insn 9 2 * 2 ^ 8))
                (pick insn 8 1 * 2 ^ 10))
              (pick insn 7 1 * 2 ^ 6))
            (pick insn 6 1 * 2 ^ 7))
          (pick insn 3 3 * 2 ^ 1))
        (pick insn 2 1 * 2 ^ 5)))
