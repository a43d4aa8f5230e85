-- ===== src/Decoder/Operands.antt =====
-- src/lib/common/Decoder.cpp: the operands of the 32-bit formats.
use rafi_1st.Base.{ℕ, ◌*◌, ◌^◌, bit_or}
use rafi_1st.Util.{int32_to_uint64}
use rafi_1st.Decoder.Fields.{pick, sign_extend}
use rafi_1st.Decoder.Ops.{
  Operand, operand_r, operand_r4, operand_i, operand_s, operand_b, operand_u, operand_j,
  operand_shift_imm, operand_csr, operand_csr_imm, operand_fence,
}

unfoldable pub decode_operand_r : ℕ → Operand
decode_operand_r insn =
    operand_r (pick insn 7 5) (pick insn 15 5) (pick insn 20 5) (pick insn 12 3) (pick insn 25 5)

unfoldable pub decode_operand_r4 : ℕ → Operand
decode_operand_r4 insn =
    operand_r4 (pick insn 7 5) (pick insn 15 5) (pick insn 20 5) (pick insn 27 5) (pick insn 12 3)
      (pick insn 25 2)

unfoldable pub decode_operand_i : ℕ → Operand
decode_operand_i insn =
    operand_i (sign_extend 12 (pick insn 20 12)) (pick insn 7 5) (pick insn 15 5) (pick insn 12 3)

unfoldable pub decode_operand_s : ℕ → Operand
decode_operand_s insn =
    operand_s (sign_extend 12 (bit_or (pick insn 25 7 * 2 ^ 5) (pick insn 7 5))) (pick insn 15 5)
      (pick insn 20 5) (pick insn 12 3)

unfoldable pub decode_operand_b : ℕ → Operand
decode_operand_b insn =
    operand_b
      (sign_extend 13 (
        bit_or
          (bit_or (bit_or (pick insn 31 1 * 2 ^ 12) (pick insn 25 6 * 2 ^ 5))
            (pick insn 8 4 * 2 ^ 1))
          (pick insn 7 1 * 2 ^ 11)))
      (pick insn 15 5) (pick insn 20 5) (pick insn 12 3)

unfoldable pub decode_operand_u : ℕ → Operand
decode_operand_u insn =
    operand_u (sign_extend 32 (int32_to_uint64 (pick insn 12 20 * 2 ^ 12))) (pick insn 7 5)

unfoldable pub decode_operand_j : ℕ → Operand
decode_operand_j insn =
    operand_j
      (sign_extend 21 (
        bit_or
          (bit_or (bit_or (pick insn 31 1 * 2 ^ 20) (pick insn 21 10 * 2 ^ 1))
            (pick insn 20 1 * 2 ^ 11))
          (pick insn 12 8 * 2 ^ 12)))
      (pick insn 7 5)

unfoldable pub decode_operand_shift_imm32 : ℕ → Operand
decode_operand_shift_imm32 insn =
    operand_shift_imm (pick insn 7 5) (pick insn 15 5) (pick insn 20 5)

unfoldable pub decode_operand_shift_imm64 : ℕ → Operand
decode_operand_shift_imm64 insn =
    operand_shift_imm (pick insn 7 5) (pick insn 15 5) (pick insn 20 6)

unfoldable pub decode_operand_csr : ℕ → Operand
decode_operand_csr insn = operand_csr (pick insn 7 5) (pick insn 15 5) (pick insn 20 12)

unfoldable pub decode_operand_csr_imm : ℕ → Operand
decode_operand_csr_imm insn = operand_csr_imm (pick insn 15 5) (pick insn 7 5) (pick insn 20 12)

unfoldable pub decode_operand_fence : ℕ → Operand
decode_operand_fence insn = operand_fence (pick insn 24 4) (pick insn 20 4)
