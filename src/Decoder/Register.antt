-- ===== src/Decoder/Register.antt =====
-- The instructions on registers of the base and the M extension (opcode OP), against the table of
-- the architecture.
use rafi_1st.Base.{
  ℕ, ◌+◌, ◌*◌, ◌/◌, ◌%◌, ◌^◌, ◌<◌, ◌≡◌, ◌≢◌, refl, ap, ◌∙◌, sym, arith, Bool, true, false, ◌==◌,
  if◌then◌else◌, bit_and, List, [], ◌∷◌, switch, ==_iff, Bool-cases, inl, inr, Result, ok,
}
use native.Mathlib.Nat.{mod-lt}
use rafi_1st.RvTypes.{SupportedXlen}
use rafi_1st.Cpu.MemoryAccessUnit.{zero_extend_lem}
use rafi_1st.Decoder.{is_m, is_a, is_f, is_d, decode_uint32}
use rafi_1st.Decoder.Fields.{pick, pick_lem}
use rafi_1st.Decoder.Operands.{decode_operand_r}
use rafi_1st.Decoder.Ops.{
  Op, Operand, operand_r, op, unknown_op, add, sub, sll, slt, sltu, xor_, srl, sra, or_, and_, mul,
  mulh, mulhsu, mulhu, div, divu, rem, remu,
}
use rafi_1st.Decoder.ImmediateOps.{i_class}
use rafi_1st.Decoder.IntegerOps.{decode_i_op, decode_i}
use rafi_1st.Decoder.MultiplyOps.{m_class, decode_m_op, decode_m}

-- The functions of the instructions, numbered by funct7 * 8 + funct3
abbrev pub register_table : SupportedXlen → Operand → List (ℕ × Result Op)
register_table xlen r =
    (0, ok (op (i_class xlen) add r))
    ∷ (1, ok (op (i_class xlen) sll r))
    ∷ (2, ok (op (i_class xlen) slt r))
    ∷ (3, ok (op (i_class xlen) sltu r))
    ∷ (4, ok (op (i_class xlen) xor_ r))
    ∷ (5, ok (op (i_class xlen) srl r))
    ∷ (6, ok (op (i_class xlen) or_ r))
    ∷ (7, ok (op (i_class xlen) and_ r))
    ∷ (8, ok (op (m_class xlen) mul r))
    ∷ (9, ok (op (m_class xlen) mulh r))
    ∷ (10, ok (op (m_class xlen) mulhsu r))
    ∷ (11, ok (op (m_class xlen) mulhu r))
    ∷ (12, ok (op (m_class xlen) div r))
    ∷ (13, ok (op (m_class xlen) divu r))
    ∷ (14, ok (op (m_class xlen) rem r))
    ∷ (15, ok (op (m_class xlen) remu r))
    ∷ (256, ok (op (i_class xlen) sub r))
    ∷ (261, ok (op (i_class xlen) sra r))
    ∷ []

abbrev pub register_op : SupportedXlen → ℕ → ℕ → Operand → Result Op
register_op xlen funct7 funct3 r =
    switch (funct7 * 8 + funct3) (register_table xlen r) (unknown_op (i_class xlen))

module _ (xlen : SupportedXlen) (insn : ℕ) where
  base_lem :
      pick insn 25 7 ≡ 0
      → pick insn 12 3 < 8
      → decode_i_op xlen insn ≡ register_op xlen 0 (pick insn 12 3) (decode_operand_r insn)
  unfolding decode_i_op
  base_lem h small = rw h (ground arith)

  alternate_lem :
      pick insn 25 7 ≡ 32
      → pick insn 12 3 < 8
      → decode_i_op xlen insn ≡ register_op xlen 32 (pick insn 12 3) (decode_operand_r insn)
  unfolding decode_i_op
  alternate_lem h small = rw h (ground arith)

  multiply_lem :
      pick insn 12 3 < 8
      → decode_m_op xlen insn ≡ register_op xlen 1 (pick insn 12 3) (decode_operand_r insn)
  unfolding decode_m_op
  multiply_lem small = ground arith

  other_lem :
      (f : ℕ)
      → pick insn 25 7 ≡ f
      → f ≢ 0
      → f ≢ 1
      → f ≢ 32
      → pick insn 12 3 < 8
      → decode_i_op xlen insn ≡ register_op xlen f (pick insn 12 3) (decode_operand_r insn)
  unfolding decode_i_op
  other_lem f h n0 n1 n32 small = rw h (ground arith)

  -- A word with the opcode OP goes to `DecodeM` or to `DecodeI` by its function.
  dispatch_lem :
      pick insn 0 7 ≡ 51
      → (bit_and insn 3 == 3) ≡ true
      → decode_uint32 xlen insn
        ≡ (if pick insn 25 7 == 1 then decode_m_op xlen insn else decode_i_op xlen insn)
  unfolding decode_uint32 is_m is_a is_f is_d decode_m decode_i
  dispatch_lem h full = rw (h, full) (ground arith)

  funct3-lt : pick insn 12 3 < 8
  funct3-lt = omega (arith, pick_lem insn 12 3, mod-lt (insn / 2 ^ 12) {m = 8} (omega arith))

  full_lem : pick insn 0 7 ≡ 51 → (bit_and insn 3 == 3) ≡ true
  full_lem h = ground (arith, pick_lem insn 0 7, zero_extend_lem 2 insn)

  at :
      {f : ℕ}
      → pick insn 25 7 ≡ f
      → register_op xlen f (pick insn 12 3) (decode_operand_r insn)
        ≡ register_op xlen (pick insn 25 7) (pick insn 12 3) (decode_operand_r insn)
  at p = ap (λ (t : ℕ). register_op xlen t (pick insn 12 3) (decode_operand_r insn)) (sym p)

  by_function :
      (b : Bool)
      → (pick insn 25 7 == 1) ≡ b
      → (if b then decode_m_op xlen insn else decode_i_op xlen insn)
        ≡ register_op xlen (pick insn 25 7) (pick insn 12 3) (decode_operand_r insn)
  by_function true e = multiply_lem funct3-lt ∙ at ((==_iff (pick insn 25 7) 1).0 e)
  by_function false e = elim (Bool-cases (pick insn 25 7 == 0)) [
    | inl p ↦
        base_lem ((==_iff (pick insn 25 7) 0).0 p) funct3-lt ∙ at ((==_iff (pick insn 25 7) 0).0 p)
    | inr n0 ↦ elim (Bool-cases (pick insn 25 7 == 32)) [
      | inl p ↦
          alternate_lem ((==_iff (pick insn 25 7) 32).0 p) funct3-lt
          ∙ at ((==_iff (pick insn 25 7) 32).0 p)
      | inr n32 ↦
          other_lem (pick insn 25 7) refl (ground arith) (ground arith) (ground arith) funct3-lt
    ]
  ]

-- The operand of the R format, by the places of its fields: rd at bit 7, rs1 at bit 15, rs2 at bit
-- 20, funct3 at bit 12, and of the seven bits of funct7 at bit 25 the low five.
abbrev pub r_fields : ℕ → Operand
r_fields insn =
    operand_r (insn / 2 ^ 7 % 32) (insn / 2 ^ 15 % 32) (insn / 2 ^ 20 % 32) (insn / 2 ^ 12 % 8)
      (insn / 2 ^ 25 % 32)

r_fields_lem : (insn : ℕ) → decode_operand_r insn ≡ r_fields insn
unfolding decode_operand_r
r_fields_lem insn = rw (
  pick_lem insn 7 5,
  pick_lem insn 15 5,
  pick_lem insn 20 5,
  pick_lem insn 12 3,
  pick_lem insn 25 5,
)

-- An instruction with the opcode OP decodes to the operation that the table gives for its funct7
-- (bits 25 to 31) and funct3 (bits 12 to 14), and to the unknown operation where the table has no
-- entry. Its operand holds rd, rs1, rs2 and funct3 from their places in the R format, and of funct7
-- only the low five bits.
pub decode_uint32-register_op :
    (xlen : SupportedXlen) (insn : ℕ)
    → insn % 128 ≡ 51
    → decode_uint32 xlen insn
      ≡ register_op xlen (insn / 2 ^ 25 % 128) (insn / 2 ^ 12 % 8) (r_fields insn)
decode_uint32-register_op xlen insn h =
    let opcode : pick insn 0 7 ≡ 51 = omega (arith, pick_lem insn 0 7, h) in
    dispatch_lem xlen insn opcode (full_lem xlen insn opcode)
    ∙ by_function xlen insn (pick insn 25 7 == 1) refl
    ∙ rw (r_fields_lem insn, pick_lem insn 25 7, pick_lem insn 12 3)
