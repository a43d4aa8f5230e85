-- ===== src/Decoder/Immediates.antt =====
-- The branch and jump immediates of src/lib/common/Decoder.cpp, against the formats of the
-- architecture.
use rafi_1st.Base.{
  ℕ, ◌+◌, ◌-◌, ◌*◌, ◌/◌, ◌%◌, ◌^◌, ◌<◌, ◌≡◌, inl, inr, refl, ◌∙◌, arith, if◌then◌else◌, bit_or,
  Bool-cases, ltb,
}
use rafi_1st.Base.Bits.{bit_and-two_pow, test_bit-div, test_bit_zero_lem}
use rafi_1st.BitField.{bits, width}
use rafi_1st.BitField.Laws.{Fits, get_member_lem}
use rafi_1st.BitField.Sum.{bit_or-eq-add, bit_or-high}
use rafi_1st.Decoder.Fields.{pick_lem, sign_extend}
use rafi_1st.Decoder.Ops.{operand_b, operand_j}
use rafi_1st.Decoder.Operands.{decode_operand_b, decode_operand_j}

-- The 64-bit pattern of a signed number of 13 bits
abbrev pub signed13 : ℕ → ℕ
signed13 u = if ltb u 4096 then u else u + (2 ^ 64 - 8192)

sign_extend13_lem : (u : ℕ) → u < 8192 → sign_extend 13 u ≡ signed13 u
unfolding sign_extend
sign_extend13_lem u small = elim (Bool-cases (ltb u 4096)) [
  | inl low ↦
      ground (arith, bit_and-two_pow u 12, test_bit-div 12 u 0, test_bit_zero_lem (u / 2 ^ 12))
  | inr high ↦ ground (
    arith,
    bit_and-two_pow u 12,
    test_bit-div 12 u 0,
    test_bit_zero_lem (u / 2 ^ 12),
    bit_or-high 64 u (bits 63 12) (omega arith) refl,
  )
]

-- Where a word holds a branch offset
abbrev pub branch_offset : ℕ → ℕ
branch_offset insn =
    insn / 2 ^ 31 % 2 * 4096
    + insn / 2 ^ 7 % 2 * 2048
    + insn / 2 ^ 25 % 64 * 32
    + insn / 2 ^ 8 % 16 * 2

-- A field put in by a bitwise or, where the word so far has none of its bits
or_field :
    (msb lsb v x : ℕ)
    → Fits (bits msb lsb) 64
    → v < 2 ^ 64
    → v / 2 ^ lsb % 2 ^ width (bits msb lsb) ≡ 0
    → x < 2 ^ width (bits msb lsb)
    → bit_or v (x * 2 ^ lsb) ≡ v + x * 2 ^ lsb
or_field msb lsb v x fits small empty in_range =
    bit_or-eq-add 64 v (bits msb lsb) x small fits (get_member_lem v (bits msb lsb) ∙ empty)
      in_range

offset_lem :
    (a b c d : ℕ)
    → a < 2
    → b < 64
    → c < 16
    → d < 2
    → bit_or (bit_or (bit_or (a * 2 ^ 12) (b * 2 ^ 5)) (c * 2 ^ 1)) (d * 2 ^ 11)
      ≡ a * 4096 + d * 2048 + b * 32 + c * 2
offset_lem a b c d ha hb hc hd =
    rw
      (
        or_field 10 5 (a * 2 ^ 12) b (omega arith) (omega arith) (omega arith) hb,
        or_field 4 1 (a * 2 ^ 12 + b * 2 ^ 5) c (omega arith) (omega arith) (omega arith) hc,
        or_field 11 11 (a * 2 ^ 12 + b * 2 ^ 5 + c * 2 ^ 1) d (omega arith) (omega arith)
            (omega arith) hd,
      )
      (omega arith)

-- The operand of a branch has the offset that the B format spreads over the word, as a signed
-- number of 13 bits with a low bit of 0, and its two registers and function.
pub decode_operand_b_lem :
    (insn : ℕ)
    → decode_operand_b insn
      ≡ operand_b
          (signed13 (branch_offset insn))
          (insn / 2 ^ 15 % 32)
          (insn / 2 ^ 20 % 32)
          (insn / 2 ^ 12 % 8)
unfolding decode_operand_b
decode_operand_b_lem insn = rw (
  pick_lem insn 31 1,
  pick_lem insn 25 6,
  pick_lem insn 8 4,
  pick_lem insn 7 1,
  pick_lem insn 15 5,
  pick_lem insn 20 5,
  pick_lem insn 12 3,
  offset_lem (insn / 2 ^ 31 % 2) (insn / 2 ^ 25 % 64) (insn / 2 ^ 8 % 16) (insn / 2 ^ 7 % 2)
      (omega arith) (omega arith) (omega arith) (omega arith),
  sign_extend13_lem (branch_offset insn) (omega arith),
)

-- The 64-bit pattern of a signed number of 21 bits
abbrev pub signed21 : ℕ → ℕ
signed21 u = if ltb u 1048576 then u else u + (2 ^ 64 - 2097152)

sign_extend21_lem : (u : ℕ) → u < 2097152 → sign_extend 21 u ≡ signed21 u
unfolding sign_extend
sign_extend21_lem u small = elim (Bool-cases (ltb u 1048576)) [
  | inl low ↦
      ground (arith, bit_and-two_pow u 20, test_bit-div 20 u 0, test_bit_zero_lem (u / 2 ^ 20))
  | inr high ↦ ground (
    arith,
    bit_and-two_pow u 20,
    test_bit-div 20 u 0,
    test_bit_zero_lem (u / 2 ^ 20),
    bit_or-high 64 u (bits 63 20) (omega arith) refl,
  )
]

-- Where a word holds a jump offset
abbrev pub jump_offset : ℕ → ℕ
jump_offset insn =
    insn / 2 ^ 31 % 2 * 1048576
    + insn / 2 ^ 12 % 256 * 4096
    + insn / 2 ^ 20 % 2 * 2048
    + insn / 2 ^ 21 % 1024 * 2

jump_parts_lem :
    (a b c d : ℕ)
    → a < 2
    → b < 1024
    → c < 2
    → d < 256
    → bit_or (bit_or (bit_or (a * 2 ^ 20) (b * 2 ^ 1)) (c * 2 ^ 11)) (d * 2 ^ 12)
      ≡ a * 1048576 + d * 4096 + c * 2048 + b * 2
jump_parts_lem a b c d ha hb hc hd =
    rw
      (
        or_field 10 1 (a * 2 ^ 20) b (omega arith) (omega arith) (omega arith) hb,
        or_field 11 11 (a * 2 ^ 20 + b * 2 ^ 1) c (omega arith) (omega arith) (omega arith) hc,
        or_field 19 12 (a * 2 ^ 20 + b * 2 ^ 1 + c * 2 ^ 11) d (omega arith) (omega arith)
            (omega arith) hd,
      )
      (omega arith)

-- The operand of a jump has the offset that the J format spreads over the word, as a signed number
-- of 21 bits with a low bit of 0, and its register.
pub decode_operand_j_lem :
    (insn : ℕ) → decode_operand_j insn ≡ operand_j (signed21 (jump_offset insn)) (insn / 2 ^ 7 % 32)
unfolding decode_operand_j
decode_operand_j_lem insn = rw (
  pick_lem insn 31 1,
  pick_lem insn 21 10,
  pick_lem insn 20 1,
  pick_lem insn 12 8,
  pick_lem insn 7 5,
  jump_parts_lem (insn / 2 ^ 31 % 2) (insn / 2 ^ 21 % 1024) (insn / 2 ^ 20 % 2)
      (insn / 2 ^ 12 % 256) (omega arith) (omega arith) (omega arith) (omega arith),
  sign_extend21_lem (jump_offset insn) (omega arith),
)
