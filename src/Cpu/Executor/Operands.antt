-- ===== src/Cpu/Executor/Operands.antt =====
-- include/rafi/common/OpDeprecated.h: the operand structures, and `std::get` on the variant.
use rafi_1st.Base.{ℕ, Result, ok, throw, bad_variant_access}
use rafi_1st.Decoder.Ops.{
  Operand, operand_r, operand_r4, operand_i, operand_s, operand_b, operand_u, operand_j,
  operand_shift_imm, operand_csr, operand_csr_imm, operand_cr, operand_ci, operand_css, operand_ciw,
  operand_cl, operand_cs, operand_cb, operand_cj,
}
use rafi_1st.Cpu.Executor.Machine.{Execution, lift}

pub record OperandR : Type 0 where
  pub rd : ℕ
  pub rs1 : ℕ
  pub rs2 : ℕ
  pub funct3 : ℕ
  pub funct7 : ℕ

pub record OperandR4 : Type 0 where
  pub rd : ℕ
  pub rs1 : ℕ
  pub rs2 : ℕ
  pub rs3 : ℕ
  pub funct3 : ℕ
  pub funct2 : ℕ

pub record OperandI : Type 0 where
  pub imm : ℕ
  pub rd : ℕ
  pub rs1 : ℕ
  pub funct3 : ℕ

pub record OperandS : Type 0 where
  pub imm : ℕ
  pub rs1 : ℕ
  pub rs2 : ℕ
  pub funct3 : ℕ

pub record OperandB : Type 0 where
  pub imm : ℕ
  pub rs1 : ℕ
  pub rs2 : ℕ
  pub funct3 : ℕ

pub record OperandU : Type 0 where
  pub imm : ℕ
  pub rd : ℕ

pub record OperandJ : Type 0 where
  pub imm : ℕ
  pub rd : ℕ

pub record OperandShiftImm : Type 0 where
  pub rd : ℕ
  pub rs1 : ℕ
  pub shamt : ℕ

pub record OperandCsr : Type 0 where
  pub rd : ℕ
  pub rs1 : ℕ
  pub csr : ℕ

pub record OperandCsrImm : Type 0 where
  pub zimm : ℕ
  pub rd : ℕ
  pub csr : ℕ

pub record OperandCr : Type 0 where
  pub rd : ℕ
  pub rs1 : ℕ
  pub rs2 : ℕ

pub record OperandCi : Type 0 where
  pub imm : ℕ
  pub rd : ℕ
  pub rs1 : ℕ

pub record OperandCss : Type 0 where
  pub imm : ℕ
  pub rs2 : ℕ

pub record OperandCiw : Type 0 where
  pub imm : ℕ
  pub rd : ℕ

pub record OperandCl : Type 0 where
  pub imm : ℕ
  pub rd : ℕ
  pub rs1 : ℕ

pub record OperandCs : Type 0 where
  pub imm : ℕ
  pub rs1 : ℕ
  pub rs2 : ℕ

pub record OperandCb : Type 0 where
  pub imm : ℕ
  pub rs1 : ℕ

pub record OperandCj : Type 0 where
  pub imm : ℕ

abbrev as_r_result : Operand → Result OperandR
as_r_result (operand_r rd rs1 rs2 funct3 funct7) =
    ok (record { rd = rd; rs1 = rs1; rs2 = rs2; funct3 = funct3; funct7 = funct7 })
as_r_result _ = throw bad_variant_access

unfoldable pub as_r : {B : Type 0} → Operand → Execution B OperandR
unfolding lift
as_r operand = lift (as_r_result operand)

abbrev as_r4_result : Operand → Result OperandR4
as_r4_result (operand_r4 rd rs1 rs2 rs3 funct3 funct2) =
    ok (record { rd = rd; rs1 = rs1; rs2 = rs2; rs3 = rs3; funct3 = funct3; funct2 = funct2 })
as_r4_result _ = throw bad_variant_access

unfoldable pub as_r4 : {B : Type 0} → Operand → Execution B OperandR4
unfolding lift
as_r4 operand = lift (as_r4_result operand)

abbrev as_i_result : Operand → Result OperandI
as_i_result (operand_i imm rd rs1 funct3) =
    ok (record { imm = imm; rd = rd; rs1 = rs1; funct3 = funct3 })
as_i_result _ = throw bad_variant_access

unfoldable pub as_i : {B : Type 0} → Operand → Execution B OperandI
unfolding lift
as_i operand = lift (as_i_result operand)

abbrev as_s_result : Operand → Result OperandS
as_s_result (operand_s imm rs1 rs2 funct3) =
    ok (record { imm = imm; rs1 = rs1; rs2 = rs2; funct3 = funct3 })
as_s_result _ = throw bad_variant_access

unfoldable pub as_s : {B : Type 0} → Operand → Execution B OperandS
unfolding lift
as_s operand = lift (as_s_result operand)

abbrev as_b_result : Operand → Result OperandB
as_b_result (operand_b imm rs1 rs2 funct3) =
    ok (record { imm = imm; rs1 = rs1; rs2 = rs2; funct3 = funct3 })
as_b_result _ = throw bad_variant_access

unfoldable pub as_b : {B : Type 0} → Operand → Execution B OperandB
unfolding lift
as_b operand = lift (as_b_result operand)

abbrev as_u_result : Operand → Result OperandU
as_u_result (operand_u imm rd) = ok (record { imm = imm; rd = rd })
as_u_result _ = throw bad_variant_access

unfoldable pub as_u : {B : Type 0} → Operand → Execution B OperandU
unfolding lift
as_u operand = lift (as_u_result operand)

abbrev as_j_result : Operand → Result OperandJ
as_j_result (operand_j imm rd) = ok (record { imm = imm; rd = rd })
as_j_result _ = throw bad_variant_access

unfoldable pub as_j : {B : Type 0} → Operand → Execution B OperandJ
unfolding lift
as_j operand = lift (as_j_result operand)

abbrev as_shift_imm_result : Operand → Result OperandShiftImm
as_shift_imm_result (operand_shift_imm rd rs1 shamt) =
    ok (record { rd = rd; rs1 = rs1; shamt = shamt })
as_shift_imm_result _ = throw bad_variant_access

unfoldable pub as_shift_imm : {B : Type 0} → Operand → Execution B OperandShiftImm
unfolding lift
as_shift_imm operand = lift (as_shift_imm_result operand)

abbrev as_csr_result : Operand → Result OperandCsr
as_csr_result (operand_csr rd rs1 csr_addr) = ok (record { rd = rd; rs1 = rs1; csr = csr_addr })
as_csr_result _ = throw bad_variant_access

unfoldable pub as_csr : {B : Type 0} → Operand → Execution B OperandCsr
unfolding lift
as_csr operand = lift (as_csr_result operand)

abbrev as_csr_imm_result : Operand → Result OperandCsrImm
as_csr_imm_result (operand_csr_imm zimm rd csr_addr) =
    ok (record { zimm = zimm; rd = rd; csr = csr_addr })
as_csr_imm_result _ = throw bad_variant_access

unfoldable pub as_csr_imm : {B : Type 0} → Operand → Execution B OperandCsrImm
unfolding lift
as_csr_imm operand = lift (as_csr_imm_result operand)

abbrev as_cr_result : Operand → Result OperandCr
as_cr_result (operand_cr rd rs1 rs2) = ok (record { rd = rd; rs1 = rs1; rs2 = rs2 })
as_cr_result _ = throw bad_variant_access

unfoldable pub as_cr : {B : Type 0} → Operand → Execution B OperandCr
unfolding lift
as_cr operand = lift (as_cr_result operand)

abbrev as_ci_result : Operand → Result OperandCi
as_ci_result (operand_ci imm rd rs1) = ok (record { imm = imm; rd = rd; rs1 = rs1 })
as_ci_result _ = throw bad_variant_access

unfoldable pub as_ci : {B : Type 0} → Operand → Execution B OperandCi
unfolding lift
as_ci operand = lift (as_ci_result operand)

abbrev as_css_result : Operand → Result OperandCss
as_css_result (operand_css imm rs2) = ok (record { imm = imm; rs2 = rs2 })
as_css_result _ = throw bad_variant_access

unfoldable pub as_css : {B : Type 0} → Operand → Execution B OperandCss
unfolding lift
as_css operand = lift (as_css_result operand)

abbrev as_ciw_result : Operand → Result OperandCiw
as_ciw_result (operand_ciw imm rd) = ok (record { imm = imm; rd = rd })
as_ciw_result _ = throw bad_variant_access

unfoldable pub as_ciw : {B : Type 0} → Operand → Execution B OperandCiw
unfolding lift
as_ciw operand = lift (as_ciw_result operand)

abbrev as_cl_result : Operand → Result OperandCl
as_cl_result (operand_cl imm rd rs1) = ok (record { imm = imm; rd = rd; rs1 = rs1 })
as_cl_result _ = throw bad_variant_access

unfoldable pub as_cl : {B : Type 0} → Operand → Execution B OperandCl
unfolding lift
as_cl operand = lift (as_cl_result operand)

abbrev as_cs_result : Operand → Result OperandCs
as_cs_result (operand_cs imm rs1 rs2) = ok (record { imm = imm; rs1 = rs1; rs2 = rs2 })
as_cs_result _ = throw bad_variant_access

unfoldable pub as_cs : {B : Type 0} → Operand → Execution B OperandCs
unfolding lift
as_cs operand = lift (as_cs_result operand)

abbrev as_cb_result : Operand → Result OperandCb
as_cb_result (operand_cb imm rs1) = ok (record { imm = imm; rs1 = rs1 })
as_cb_result _ = throw bad_variant_access

unfoldable pub as_cb : {B : Type 0} → Operand → Execution B OperandCb
unfolding lift
as_cb operand = lift (as_cb_result operand)

abbrev as_cj_result : Operand → Result OperandCj
as_cj_result (operand_cj imm) = ok (record { imm = imm })
as_cj_result _ = throw bad_variant_access

unfoldable pub as_cj : {B : Type 0} → Operand → Execution B OperandCj
unfolding lift
as_cj operand = lift (as_cj_result operand)
