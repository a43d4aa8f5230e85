-- ===== src/Decoder/Total.antt =====
-- The decoder (src/lib/common/Decoder.cpp) always returns an operation, whose registers are in
-- range.
use rafi_1st.Base.{ℕ, ◌%◌, ◌^◌, ◌≡◌, refl, Bool, true, false, ◌||◌, ◌&&◌, ◌==◌, if◌then◌else◌}
use rafi_1st.RvTypes.{SupportedXlen}
use rafi_1st.Decoder.{is_compressed_instruction, is_m, is_a, is_f, is_d, decode_uint32}
use rafi_1st.Decoder.Fields.{pick}
use rafi_1st.Decoder.Ops.{
  op, operand_none, auipc, fence, fence_i, fld, flw, fmadd_d, fmadd_s, fmsub_d, fmsub_s, fnmadd_d,
  fnmadd_s, fnmsub_d, fnmsub_s, fsd, fsw, jal, jalr, lui, unknown,
}
use rafi_1st.Decoder.Operands.{
  decode_operand_fence, decode_operand_i, decode_operand_j, decode_operand_r4, decode_operand_s,
  decode_operand_u,
}
use rafi_1st.Decoder.ImmediateOps.{i_class}
use rafi_1st.Decoder.AtomicOps.{a_class}
use rafi_1st.Decoder.FloatOps.{f_class}
use rafi_1st.Decoder.DoubleOps.{d_class}
use rafi_1st.Decoder.CompressedOps.{c_class}
use rafi_1st.Decoder.ImmediateOps.{decode_i_branch, decode_i_load, decode_i_store, decode_i_op_imm}
use rafi_1st.Decoder.IntegerOps.{
  decode_i_op, decode_i_op_imm_32, decode_i_op_32, decode_i_system, decode_i,
}
use rafi_1st.Decoder.MultiplyOps.{decode_m_op, decode_m_op_32, decode_m}
use rafi_1st.Decoder.AtomicOps.{decode_a_word, decode_a_double, decode_a}
use rafi_1st.Decoder.FloatOps.{decode_f_op_fp, decode_f}
use rafi_1st.Decoder.DoubleOps.{decode_d_op_fp, decode_d}
use rafi_1st.Decoder.CompressedOps.{
  decode_c_quadrant0, decode_c_quadrant1, decode_c_quadrant2, decode_c,
}
use rafi_1st.Decoder.Range.{
  Decodes, decodes, either, in_one, operand_rules, operand_none-InRange,
  decode_operand_fence-InRange, decode_operand_i-InRange, decode_operand_j-InRange,
  decode_operand_r4-InRange, decode_operand_s-InRange, decode_operand_u-InRange,
}

decode_i_branch-Decodes : (xlen : SupportedXlen) (insn : ℕ) → Decodes (decode_i_branch xlen insn)
unfolding decode_i_branch
decode_i_branch-Decodes xlen insn = search operand_rules depth 60

decode_i_load-Decodes : (xlen : SupportedXlen) (insn : ℕ) → Decodes (decode_i_load xlen insn)
unfolding decode_i_load
decode_i_load-Decodes xlen insn = search operand_rules depth 60

decode_i_store-Decodes : (xlen : SupportedXlen) (insn : ℕ) → Decodes (decode_i_store xlen insn)
unfolding decode_i_store
decode_i_store-Decodes xlen insn = search operand_rules depth 60

decode_i_op_imm-Decodes : (xlen : SupportedXlen) (insn : ℕ) → Decodes (decode_i_op_imm xlen insn)
unfolding decode_i_op_imm
decode_i_op_imm-Decodes xlen insn = search operand_rules depth 60

decode_i_op-Decodes : (xlen : SupportedXlen) (insn : ℕ) → Decodes (decode_i_op xlen insn)
unfolding decode_i_op
decode_i_op-Decodes xlen insn = search operand_rules depth 60

decode_i_op_imm_32-Decodes :
    (xlen : SupportedXlen) (insn : ℕ) → Decodes (decode_i_op_imm_32 xlen insn)
unfolding decode_i_op_imm_32
decode_i_op_imm_32-Decodes xlen insn = search operand_rules depth 60

decode_i_op_32-Decodes : (xlen : SupportedXlen) (insn : ℕ) → Decodes (decode_i_op_32 xlen insn)
unfolding decode_i_op_32
decode_i_op_32-Decodes xlen insn = search operand_rules depth 60

decode_i_system-Decodes : (xlen : SupportedXlen) (insn : ℕ) → Decodes (decode_i_system xlen insn)
unfolding decode_i_system
decode_i_system-Decodes xlen insn = search operand_rules depth 60

decode_i-Decodes : (xlen : SupportedXlen) (insn : ℕ) → Decodes (decode_i xlen insn)
unfolding decode_i
decode_i-Decodes xlen insn =
    either ((pick insn 0 7) == 55)
      (decodes (op (i_class xlen) lui (decode_operand_u insn)) (decode_operand_u-InRange insn))
      (either ((pick insn 0 7) == 23)
        (decodes (op (i_class xlen) auipc (decode_operand_u insn)) (decode_operand_u-InRange insn))
        (either ((pick insn 0 7) == 111)
          (decodes (op (i_class xlen) jal (decode_operand_j insn)) (decode_operand_j-InRange insn))
          (either ((pick insn 0 7) == 103)
            (either ((pick insn 12 3) == 0)
              (decodes (op (i_class xlen) jalr (decode_operand_i insn))
                (decode_operand_i-InRange insn))
              (decodes (op (i_class xlen) unknown operand_none) operand_none-InRange))
            (either ((pick insn 0 7) == 99) (decode_i_branch-Decodes xlen insn) (
              either ((pick insn 0 7) == 3) (decode_i_load-Decodes xlen insn) (
                either ((pick insn 0 7) == 35) (decode_i_store-Decodes xlen insn) (
                  either ((pick insn 0 7) == 19) (decode_i_op_imm-Decodes xlen insn) (
                    either ((pick insn 0 7) == 51) (decode_i_op-Decodes xlen insn) (
                      either ((pick insn 0 7) == 27) (decode_i_op_imm_32-Decodes xlen insn) (
                        either ((pick insn 0 7) == 59) (decode_i_op_32-Decodes xlen insn) (
                          either ((pick insn 0 7) == 15)
                            (either
                              ((pick insn 12 3) == 0
                                && (pick insn 7 5) == 0
                                && (pick insn 15 5) == 0
                                && pick insn 28 4 == 0)
                              (decodes (op (i_class xlen) fence (decode_operand_fence insn))
                                (decode_operand_fence-InRange insn))
                              (either
                                ((pick insn 12 3) == 1
                                  && (pick insn 7 5) == 0
                                  && (pick insn 15 5) == 0
                                  && (pick insn 20 12) == 0)
                                (decodes (op (i_class xlen) fence_i (decode_operand_fence insn))
                                  (decode_operand_fence-InRange insn))
                                (decodes (op (i_class xlen) unknown operand_none)
                                  operand_none-InRange)))
                            (either ((pick insn 0 7) == 115) (decode_i_system-Decodes xlen insn) (
                              decodes (op (i_class xlen) unknown operand_none)
                                operand_none-InRange)))))))))))))

m_opcode : (insn : ℕ) → is_m insn ≡ true → ((pick insn 0 7 == 51) || (pick insn 0 7 == 59)) ≡ true
unfolding is_m
m_opcode insn h = either_opcode (pick insn 0 7 == 51) (pick insn 0 7 == 59) (pick insn 25 7 == 1) h
  where
    either_opcode : (a b c : Bool) → ((a && c) || (b && c)) ≡ true → (a || b) ≡ true
    either_opcode true b c h = refl
    either_opcode false true c h = refl
    either_opcode false false c h = h

decode_m_op-Decodes : (xlen : SupportedXlen) (insn : ℕ) → Decodes (decode_m_op xlen insn)
unfolding decode_m_op
decode_m_op-Decodes xlen insn = search operand_rules depth 60

decode_m_op_32-Decodes : (xlen : SupportedXlen) (insn : ℕ) → Decodes (decode_m_op_32 xlen insn)
unfolding decode_m_op_32
decode_m_op_32-Decodes xlen insn = search operand_rules depth 60

decode_m-Decodes :
    (xlen : SupportedXlen) (insn : ℕ) → is_m insn ≡ true → Decodes (decode_m xlen insn)
unfolding decode_m
decode_m-Decodes xlen insn h =
    in_one (pick insn 0 7 == 51) (pick insn 0 7 == 59) (decode_m_op xlen insn)
      (decode_m_op_32 xlen insn) _ (m_opcode insn h) (decode_m_op-Decodes xlen insn)
      (decode_m_op_32-Decodes xlen insn)

decode_a_word-Decodes : (xlen : SupportedXlen) (insn : ℕ) → Decodes (decode_a_word xlen insn)
unfolding decode_a_word
decode_a_word-Decodes xlen insn = search operand_rules depth 60

decode_a_double-Decodes : (xlen : SupportedXlen) (insn : ℕ) → Decodes (decode_a_double xlen insn)
unfolding decode_a_double
decode_a_double-Decodes xlen insn = search operand_rules depth 60

decode_a-Decodes : (xlen : SupportedXlen) (insn : ℕ) → Decodes (decode_a xlen insn)
unfolding decode_a
decode_a-Decodes xlen insn = either ((pick insn 12 3) == 2) (decode_a_word-Decodes xlen insn) (
    either ((pick insn 12 3) == 3) (decode_a_double-Decodes xlen insn)
      (decodes (op (a_class xlen) unknown operand_none) operand_none-InRange))

decode_f_op_fp-Decodes : (xlen : SupportedXlen) (insn : ℕ) → Decodes (decode_f_op_fp xlen insn)
unfolding decode_f_op_fp
decode_f_op_fp-Decodes xlen insn = search operand_rules depth 60

decode_f-Decodes : (xlen : SupportedXlen) (insn : ℕ) → Decodes (decode_f xlen insn)
unfolding decode_f
decode_f-Decodes xlen insn =
    either ((pick insn 0 7) == 7)
      (either ((pick insn 12 3) == 2)
        (decodes (op (f_class xlen) flw (decode_operand_i insn)) (decode_operand_i-InRange insn))
        (decodes (op (f_class xlen) unknown operand_none) operand_none-InRange))
      (either ((pick insn 0 7) == 39)
        (either ((pick insn 12 3) == 2)
          (decodes (op (f_class xlen) fsw (decode_operand_s insn)) (decode_operand_s-InRange insn))
          (decodes (op (f_class xlen) unknown operand_none) operand_none-InRange))
        (either ((pick insn 0 7) == 67)
          (decodes (op (f_class xlen) fmadd_s (decode_operand_r4 insn))
            (decode_operand_r4-InRange insn))
          (either ((pick insn 0 7) == 71)
            (decodes (op (f_class xlen) fmsub_s (decode_operand_r4 insn))
              (decode_operand_r4-InRange insn))
            (either ((pick insn 0 7) == 75)
              (decodes (op (f_class xlen) fnmsub_s (decode_operand_r4 insn))
                (decode_operand_r4-InRange insn))
              (either ((pick insn 0 7) == 79)
                (decodes (op (f_class xlen) fnmadd_s (decode_operand_r4 insn))
                  (decode_operand_r4-InRange insn))
                (either ((pick insn 0 7) == 83) (decode_f_op_fp-Decodes xlen insn)
                  (decodes (op (f_class xlen) unknown operand_none) operand_none-InRange)))))))

decode_d_op_fp-Decodes : (xlen : SupportedXlen) (insn : ℕ) → Decodes (decode_d_op_fp xlen insn)
unfolding decode_d_op_fp
decode_d_op_fp-Decodes xlen insn = search operand_rules depth 60

decode_d-Decodes : (xlen : SupportedXlen) (insn : ℕ) → Decodes (decode_d xlen insn)
unfolding decode_d
decode_d-Decodes xlen insn =
    either ((pick insn 0 7) == 7)
      (either ((pick insn 12 3) == 3)
        (decodes (op (d_class xlen) fld (decode_operand_i insn)) (decode_operand_i-InRange insn))
        (decodes (op (d_class xlen) unknown operand_none) operand_none-InRange))
      (either ((pick insn 0 7) == 39)
        (either ((pick insn 12 3) == 3)
          (decodes (op (d_class xlen) fsd (decode_operand_s insn)) (decode_operand_s-InRange insn))
          (decodes (op (d_class xlen) unknown operand_none) operand_none-InRange))
        (either ((pick insn 0 7) == 67)
          (decodes (op (d_class xlen) fmadd_d (decode_operand_r4 insn))
            (decode_operand_r4-InRange insn))
          (either ((pick insn 0 7) == 71)
            (decodes (op (d_class xlen) fmsub_d (decode_operand_r4 insn))
              (decode_operand_r4-InRange insn))
            (either ((pick insn 0 7) == 75)
              (decodes (op (d_class xlen) fnmsub_d (decode_operand_r4 insn))
                (decode_operand_r4-InRange insn))
              (either ((pick insn 0 7) == 79)
                (decodes (op (d_class xlen) fnmadd_d (decode_operand_r4 insn))
                  (decode_operand_r4-InRange insn))
                (either ((pick insn 0 7) == 83) (decode_d_op_fp-Decodes xlen insn)
                  (decodes (op (d_class xlen) unknown operand_none) operand_none-InRange)))))))

decode_c_quadrant0-Decodes :
    (xlen : SupportedXlen) (insn : ℕ) → Decodes (decode_c_quadrant0 xlen insn)
unfolding decode_c_quadrant0
decode_c_quadrant0-Decodes xlen insn = search operand_rules depth 60

decode_c_quadrant1-Decodes :
    (xlen : SupportedXlen) (insn : ℕ) → Decodes (decode_c_quadrant1 xlen insn)
unfolding decode_c_quadrant1
decode_c_quadrant1-Decodes xlen insn = search operand_rules depth 60

decode_c_quadrant2-Decodes :
    (xlen : SupportedXlen) (insn : ℕ) → Decodes (decode_c_quadrant2 xlen insn)
unfolding decode_c_quadrant2
decode_c_quadrant2-Decodes xlen insn = search operand_rules depth 60

decode_c-Decodes : (xlen : SupportedXlen) (insn : ℕ) → Decodes (decode_c xlen insn)
unfolding decode_c
decode_c-Decodes xlen insn = either ((pick insn 0 2) == 0) (decode_c_quadrant0-Decodes xlen insn) (
    either ((pick insn 0 2) == 1) (decode_c_quadrant1-Decodes xlen insn) (
      either ((pick insn 0 2) == 2) (decode_c_quadrant2-Decodes xlen insn)
        (decodes (op (c_class xlen) unknown operand_none) operand_none-InRange)))

-- Every register number in the operand of a decoded instruction, compressed or not, is below 32 on
-- both bases.
pub decode_uint32-Decodes : (xlen : SupportedXlen) (insn : ℕ) → Decodes (decode_uint32 xlen insn)
unfolding decode_uint32
decode_uint32-Decodes xlen insn =
    either (is_compressed_instruction insn) (decode_c-Decodes xlen (insn % 2 ^ 16))
      (multiply (is_m insn) refl)
  where
    others : Decodes (
        if is_a insn
        then decode_a xlen insn
        else if is_f insn
        then decode_f xlen insn
        else if is_d insn
        then decode_d xlen insn
        else decode_i xlen insn)
    others = either (is_a insn) (decode_a-Decodes xlen insn) (
        either (is_f insn) (decode_f-Decodes xlen insn)
          (either (is_d insn) (decode_d-Decodes xlen insn) (decode_i-Decodes xlen insn)))

    multiply :
        (b : Bool)
        → is_m insn ≡ b
        → Decodes (
            if b
            then decode_m xlen insn
            else if is_a insn
            then decode_a xlen insn
            else if is_f insn
            then decode_f xlen insn
            else if is_d insn
            then decode_d xlen insn
            else decode_i xlen insn)
    multiply true h = decode_m-Decodes xlen insn h
    multiply false h = others
