-- ===== src/Examples/Instructions.antt =====
-- Instructions and their decoding (src/lib/common/Decoder.cpp).
use rafi_1st.Base.{ℕ, ◌≡◌, refl, ok, ◌/◌, ◌%◌, ◌^◌, ◌-◌}
use rafi_1st.RvTypes.{rv32}
use rafi_1st.Decoder.{decode_uint32, is_m}
use rafi_1st.Decoder.Fields.{pick}
use rafi_1st.Decoder.Ops.{op, rv32m, mulhu, operand_r, operand_b, operand_j}
use rafi_1st.Decoder.Operands.{decode_operand_r, decode_operand_b, decode_operand_j}
use rafi_1st.Decoder.MultiplyOps.{decode_m, decode_m_op}
use rafi_1st.Decoder.Register.{register_op, r_fields, decode_uint32-register_op}
use rafi_1st.Decoder.Immediates.{
  signed13, branch_offset, decode_operand_b_lem, signed21, jump_offset, decode_operand_j_lem,
}

-- mulhu a0, a1, a2
abbrev mulhu_a0_a1_a2 : ℕ
mulhu_a0_a1_a2 = 0x02c5b533

decode_uint32-register_op_example :
    decode_uint32 rv32 mulhu_a0_a1_a2
    ≡ register_op rv32
        (mulhu_a0_a1_a2 / 2 ^ 25 % 128)
        (mulhu_a0_a1_a2 / 2 ^ 12 % 8)
        (r_fields mulhu_a0_a1_a2)
decode_uint32-register_op_example = decode_uint32-register_op rv32 mulhu_a0_a1_a2 refl

-- The decoder on this word: registers 10, 11 and 12, with the functions 3 and 1
decoded : decode_uint32 rv32 mulhu_a0_a1_a2 ≡ ok (op rv32m mulhu (operand_r 10 11 12 3 1))
unfolding decode_uint32 is_m decode_m decode_m_op pick decode_operand_r
decoded = refl

-- bne with the offset -16 on registers 10 and 15
abbrev bne_back : ℕ
bne_back = 0xfef518e3

decode_operand_b_lem_example :
    decode_operand_b bne_back
    ≡ operand_b
        (signed13 (branch_offset bne_back))
        (bne_back / 2 ^ 15 % 32)
        (bne_back / 2 ^ 20 % 32)
        (bne_back / 2 ^ 12 % 8)
decode_operand_b_lem_example = decode_operand_b_lem bne_back

branch_back : signed13 (branch_offset bne_back) ≡ 2 ^ 64 - 16
branch_back = refl

-- jal ra with the offset -4
abbrev jal_back : ℕ
jal_back = 0xffdff0ef

decode_operand_j_lem_example :
    decode_operand_j jal_back ≡ operand_j (signed21 (jump_offset jal_back)) (jal_back / 2 ^ 7 % 32)
decode_operand_j_lem_example = decode_operand_j_lem jal_back

jump_back : signed21 (jump_offset jal_back) ≡ 2 ^ 64 - 4
jump_back = refl
