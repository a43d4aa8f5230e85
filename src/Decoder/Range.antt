-- ===== src/Decoder/Range.antt =====
-- The register numbers that the operands of src/lib/common/Decoder.cpp hold are below 32, the
-- number of registers.
use rafi_1st.Base.{
  ℕ, ◌+◌, ◌/◌, ◌^◌, ◌<◌, ◌≡◌, arith, Bool, true, false, ◌||◌, if◌then◌else◌, Result, ok,
}
use rafi_1st.Base.Bits.{two_pow-pos}
use native.Mathlib.Nat.{mod-lt}
use rafi_1st.Decoder.Fields.{pick, pick_lem}
use rafi_1st.Decoder.Ops.{
  Op, OpClass, OpCode, op_with, Operand, operand_r, operand_r4, operand_i, operand_s, operand_b,
  operand_u, operand_j, operand_shift_imm, operand_csr, operand_csr_imm, operand_fence, operand_cr,
  operand_ci, operand_css, operand_ciw, operand_cl, operand_cs, operand_cb, operand_cj,
  operand_none,
}
use rafi_1st.Decoder.Operands.{
  decode_operand_r, decode_operand_r4, decode_operand_i, decode_operand_s, decode_operand_b,
  decode_operand_u, decode_operand_j, decode_operand_shift_imm32, decode_operand_shift_imm64,
  decode_operand_csr, decode_operand_csr_imm, decode_operand_fence,
}
use rafi_1st.Decoder.CompressedOperands.{
  decode_operand_cb, decode_operand_ci, decode_operand_ci_addi16_sp, decode_operand_ci_alu_imm,
  decode_operand_ci_load_sp, decode_operand_ci_lui, decode_operand_ciw, decode_operand_cj,
  decode_operand_cl, decode_operand_cr, decode_operand_cr_alu, decode_operand_cs,
  decode_operand_css,
}

abbrev pub Registers : Operand → Type 0
Registers (operand_r rd rs1 rs2 funct3 funct7) = (rd < 32) × (rs1 < 32) × (rs2 < 32)
Registers (operand_r4 rd rs1 rs2 rs3 funct3 funct2) =
    (rd < 32) × (rs1 < 32) × (rs2 < 32) × (rs3 < 32)
Registers (operand_i imm rd rs1 funct3) = (rd < 32) × (rs1 < 32)
Registers (operand_s imm rs1 rs2 funct3) = (rs1 < 32) × (rs2 < 32)
Registers (operand_b imm rs1 rs2 funct3) = (rs1 < 32) × (rs2 < 32)
Registers (operand_u imm rd) = rd < 32
Registers (operand_j imm rd) = rd < 32
Registers (operand_shift_imm rd rs1 shamt) = (rd < 32) × (rs1 < 32)
Registers (operand_csr rd rs1 csr) = (rd < 32) × (rs1 < 32)
Registers (operand_csr_imm zimm rd csr) = rd < 32
Registers (operand_fence predecessor successor) = Unit
Registers (operand_cr rd rs1 rs2) = (rd < 32) × (rs1 < 32) × (rs2 < 32)
Registers (operand_ci imm rd rs1) = (rd < 32) × (rs1 < 32)
Registers (operand_css imm rs2) = rs2 < 32
Registers (operand_ciw imm rd) = rd < 32
Registers (operand_cl imm rd rs1) = (rd < 32) × (rs1 < 32)
Registers (operand_cs imm rs1 rs2) = (rs1 < 32) × (rs2 < 32)
Registers (operand_cb imm rs1) = rs1 < 32
Registers (operand_cj imm) = Unit
Registers operand_none = Unit

-- Every register number of the operand is below 32.
pub record InRange (operand : Operand) : Type 0 where
  pub registers : Registers operand

-- The decoder returns an operation whose register numbers are below 32.
pub data Decodes : Result Op → Type 0 where
  decodes : (o : Op) → InRange o.operand → Decodes (ok o)

pub either : (b : Bool) {m n : Result Op} → Decodes m → Decodes n → Decodes (if b then m else n)
either true p q = p
either false p q = q

pub in_one :
    (b d : Bool) (m n k : Result Op)
    → (b || d) ≡ true
    → Decodes m
    → Decodes n
    → Decodes (if b then m else if d then n else k)
in_one true d m n k h p q = p
in_one false true m n k h p q = q
in_one false false m n k h p q = cc

pick_lt : (insn lsb width : ℕ) → pick insn lsb width < 2 ^ width
pick_lt insn lsb width =
    omega
      (arith, pick_lem insn lsb width, mod-lt (insn / 2 ^ lsb) {m = 2 ^ width} (two_pow-pos width))

-- A field of 5 bits, and one of 3 bits, which numbers the registers from x8
pick5 : (insn lsb : ℕ) → pick insn lsb 5 < 32
pick5 insn lsb = pick_lt insn lsb 5

pick3 : (insn lsb : ℕ) → pick insn lsb 3 + 8 < 32
pick3 insn lsb = omega (arith, pick_lt insn lsb 3)

module _ (insn : ℕ) where
  pub decode_operand_r-InRange : InRange (decode_operand_r insn)
  unfolding decode_operand_r
  decode_operand_r-InRange = record { registers = (pick5 insn 7, pick5 insn 15, pick5 insn 20) }

  pub decode_operand_r4-InRange : InRange (decode_operand_r4 insn)
  unfolding decode_operand_r4
  decode_operand_r4-InRange = record {
    registers = (pick5 insn 7, pick5 insn 15, pick5 insn 20, pick5 insn 27);
  }

  pub decode_operand_i-InRange : InRange (decode_operand_i insn)
  unfolding decode_operand_i
  decode_operand_i-InRange = record { registers = (pick5 insn 7, pick5 insn 15) }

  pub decode_operand_s-InRange : InRange (decode_operand_s insn)
  unfolding decode_operand_s
  decode_operand_s-InRange = record { registers = (pick5 insn 15, pick5 insn 20) }

  pub decode_operand_b-InRange : InRange (decode_operand_b insn)
  unfolding decode_operand_b
  decode_operand_b-InRange = record { registers = (pick5 insn 15, pick5 insn 20) }

  pub decode_operand_u-InRange : InRange (decode_operand_u insn)
  unfolding decode_operand_u
  decode_operand_u-InRange = record { registers = pick5 insn 7 }

  pub decode_operand_j-InRange : InRange (decode_operand_j insn)
  unfolding decode_operand_j
  decode_operand_j-InRange = record { registers = pick5 insn 7 }

  pub decode_operand_shift_imm32-InRange : InRange (decode_operand_shift_imm32 insn)
  unfolding decode_operand_shift_imm32
  decode_operand_shift_imm32-InRange = record { registers = (pick5 insn 7, pick5 insn 15) }

  pub decode_operand_shift_imm64-InRange : InRange (decode_operand_shift_imm64 insn)
  unfolding decode_operand_shift_imm64
  decode_operand_shift_imm64-InRange = record { registers = (pick5 insn 7, pick5 insn 15) }

  pub decode_operand_csr-InRange : InRange (decode_operand_csr insn)
  unfolding decode_operand_csr
  decode_operand_csr-InRange = record { registers = (pick5 insn 7, pick5 insn 15) }

  pub decode_operand_csr_imm-InRange : InRange (decode_operand_csr_imm insn)
  unfolding decode_operand_csr_imm
  decode_operand_csr_imm-InRange = record { registers = pick5 insn 7 }

  pub decode_operand_fence-InRange : InRange (decode_operand_fence insn)
  unfolding decode_operand_fence
  decode_operand_fence-InRange = record { registers = tt }

  pub decode_operand_cr-InRange : InRange (decode_operand_cr insn)
  unfolding decode_operand_cr
  decode_operand_cr-InRange = record { registers = (pick5 insn 7, pick5 insn 7, pick5 insn 2) }

  pub decode_operand_cr_alu-InRange : InRange (decode_operand_cr_alu insn)
  unfolding decode_operand_cr_alu
  decode_operand_cr_alu-InRange = record { registers = (pick3 insn 7, pick3 insn 7, pick3 insn 2) }

  pub decode_operand_ci-InRange : (imm_signed : Bool) → InRange (decode_operand_ci insn imm_signed)
  unfolding decode_operand_ci
  decode_operand_ci-InRange imm_signed = record { registers = (pick5 insn 7, pick5 insn 7) }

  pub decode_operand_ci_addi16_sp-InRange : InRange (decode_operand_ci_addi16_sp insn)
  unfolding decode_operand_ci_addi16_sp
  decode_operand_ci_addi16_sp-InRange = record { registers = (pick5 insn 7, pick5 insn 7) }

  pub decode_operand_ci_alu_imm-InRange :
      (imm_signed : Bool) → InRange (decode_operand_ci_alu_imm insn imm_signed)
  unfolding decode_operand_ci_alu_imm
  decode_operand_ci_alu_imm-InRange imm_signed = record { registers = (pick3 insn 7, pick3 insn 7) }

  pub decode_operand_ci_lui-InRange : InRange (decode_operand_ci_lui insn)
  unfolding decode_operand_ci_lui
  decode_operand_ci_lui-InRange = record { registers = (pick5 insn 7, pick5 insn 7) }

  pub decode_operand_ciw-InRange : InRange (decode_operand_ciw insn)
  unfolding decode_operand_ciw
  decode_operand_ciw-InRange = record { registers = pick3 insn 2 }

  pub decode_operand_cb-InRange : InRange (decode_operand_cb insn)
  unfolding decode_operand_cb
  decode_operand_cb-InRange = record { registers = pick3 insn 7 }

  pub decode_operand_cj-InRange : InRange (decode_operand_cj insn)
  unfolding decode_operand_cj
  decode_operand_cj-InRange = record { registers = tt }

  module _ (op_class : OpClass) (code : OpCode) where
    pub ci_load_sp_4-Decodes : Decodes (op_with op_class code (decode_operand_ci_load_sp insn 4))
    unfolding decode_operand_ci_load_sp
    ci_load_sp_4-Decodes = decodes _ (record { registers = (pick5 insn 7, pick5 insn 7) })

    pub ci_load_sp_8-Decodes : Decodes (op_with op_class code (decode_operand_ci_load_sp insn 8))
    unfolding decode_operand_ci_load_sp
    ci_load_sp_8-Decodes = decodes _ (record { registers = (pick5 insn 7, pick5 insn 7) })

    pub css_4-Decodes : Decodes (op_with op_class code (decode_operand_css insn 4))
    unfolding decode_operand_css
    css_4-Decodes = decodes _ (record { registers = pick5 insn 2 })

    pub css_8-Decodes : Decodes (op_with op_class code (decode_operand_css insn 8))
    unfolding decode_operand_css
    css_8-Decodes = decodes _ (record { registers = pick5 insn 2 })

    pub cl_4-Decodes : Decodes (op_with op_class code (decode_operand_cl insn 4))
    unfolding decode_operand_cl
    cl_4-Decodes = decodes _ (record { registers = (pick3 insn 2, pick3 insn 7) })

    pub cl_8-Decodes : Decodes (op_with op_class code (decode_operand_cl insn 8))
    unfolding decode_operand_cl
    cl_8-Decodes = decodes _ (record { registers = (pick3 insn 2, pick3 insn 7) })

    pub cs_4-Decodes : Decodes (op_with op_class code (decode_operand_cs insn 4))
    unfolding decode_operand_cs
    cs_4-Decodes = decodes _ (record { registers = (pick3 insn 7, pick3 insn 2) })

    pub cs_8-Decodes : Decodes (op_with op_class code (decode_operand_cs insn 8))
    unfolding decode_operand_cs
    cs_8-Decodes = decodes _ (record { registers = (pick3 insn 7, pick3 insn 2) })

pub operand_none-InRange : InRange operand_none
operand_none-InRange = record { registers = tt }

pub ruleset operand_rules = (
  decodes, either, operand_none-InRange, decode_operand_r-InRange, decode_operand_r4-InRange,
  decode_operand_i-InRange, decode_operand_s-InRange, decode_operand_b-InRange,
  decode_operand_u-InRange, decode_operand_j-InRange, decode_operand_shift_imm32-InRange,
  decode_operand_shift_imm64-InRange, decode_operand_csr-InRange, decode_operand_csr_imm-InRange,
  decode_operand_fence-InRange, decode_operand_cr-InRange, decode_operand_cr_alu-InRange,
  decode_operand_ci-InRange, decode_operand_ci_addi16_sp-InRange, decode_operand_ci_alu_imm-InRange,
  decode_operand_ci_lui-InRange, decode_operand_ciw-InRange, decode_operand_cb-InRange,
  decode_operand_cj-InRange, ci_load_sp_4-Decodes, ci_load_sp_8-Decodes, css_4-Decodes,
  css_8-Decodes, cl_4-Decodes, cl_8-Decodes, cs_4-Decodes, cs_8-Decodes,
)
