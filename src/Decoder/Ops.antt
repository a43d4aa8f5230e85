-- ===== src/Decoder/Ops.antt =====
-- include/rafi/common/OpDeprecated.h: a decoded instruction. An immediate is the 64-bit pattern of
-- its `int64_t`.
use rafi_1st.Base.{ℕ, Result, ok, ◌>>=◌}

-- enum class OpClass
pub data OpClass : Type 0 where
  rv32i rv32m rv32a rv32f rv32d rv32c rv64i rv64m rv64a rv64f rv64d rv64c : OpClass

-- enum class OpCode
pub data OpCode : Type 0 where
  unknown lui auipc jal jalr beq bne blt bge bltu bgeu lb lh lw ld lbu lhu lwu sb sh sw sd addi
        addiw slti sltiu xori ori andi slli slliw srli srliw srai sraiw add addw sub subw sll sllw
        slt sltu xor_ srl srlw sra sraw or_ and_ fence fence_i ecall ebreak csrrw csrrs csrrc csrrwi
        csrrsi csrrci mret sret uret wfi sfence_vma mul mulw mulh mulhsu mulhu div divw divu divuw
        rem remw remu remuw lr_w lr_d sc_w sc_d amoswap_w amoswap_d amoadd_w amoadd_d amoxor_w
        amoxor_d amoand_w amoand_d amoor_w amoor_d amomin_w amomin_d amomax_w amomax_d amominu_w
        amominu_d amomaxu_w amomaxu_d flw fsw fmadd_s fmsub_s fnmsub_s fnmadd_s fadd_s fsub_s fmul_s
        fdiv_s fsqrt_s fsgnj_s fsgnjn_s fsgnjx_s fmin_s fmax_s fcvt_w_s fcvt_wu_s fmv_x_w feq_s
        flt_s fle_s fclass_s fcvt_l_s fcvt_lu_s fcvt_s_w fcvt_s_l fcvt_s_wu fcvt_s_lu fmv_w_x fld
        fsd fmadd_d fmsub_d fnmsub_d fnmadd_d fadd_d fsub_d fmul_d fdiv_d fsqrt_d fsgnj_d fsgnjn_d
        fsgnjx_d fmin_d fmax_d fmv_d_x fmv_x_d feq_d flt_d fle_d fclass_d fcvt_s_d fcvt_w_d
        fcvt_wu_d fcvt_l_d fcvt_lu_d fcvt_d_s fcvt_d_w fcvt_d_wu fcvt_d_l fcvt_d_lu c_addi4spn c_fld
        c_lq c_lw c_flw c_ld c_fsd c_sq c_sw c_fsw c_sd c_nop c_addi c_jal c_addiw c_li c_addi16sp
        c_lui c_srli c_srli64 c_srai c_srai64 c_andi c_sub c_xor c_or c_and c_subw c_addw c_j c_beqz
        c_bnez c_slli c_slli64 c_fldsp c_lqsp c_lwsp c_flwsp c_ldsp c_jr c_mv c_ebreak c_jalr c_add
        c_fsdsp c_sqsp c_swsp c_fswsp c_sdsp :
      OpCode

-- std::variant<OperandR, ...>, with the fields of each structure in their order
pub data Operand : Type 0 where
  operand_r : ℕ → ℕ → ℕ → ℕ → ℕ → Operand
  operand_r4 : ℕ → ℕ → ℕ → ℕ → ℕ → ℕ → Operand
  operand_i : ℕ → ℕ → ℕ → ℕ → Operand
  operand_s : ℕ → ℕ → ℕ → ℕ → Operand
  operand_b : ℕ → ℕ → ℕ → ℕ → Operand
  operand_u : ℕ → ℕ → Operand
  operand_j : ℕ → ℕ → Operand
  operand_shift_imm : ℕ → ℕ → ℕ → Operand
  operand_csr : ℕ → ℕ → ℕ → Operand
  operand_csr_imm : ℕ → ℕ → ℕ → Operand
  operand_fence : ℕ → ℕ → Operand
  operand_cr : ℕ → ℕ → ℕ → Operand
  operand_ci : ℕ → ℕ → ℕ → Operand
  operand_css : ℕ → ℕ → Operand
  operand_ciw : ℕ → ℕ → Operand
  operand_cl : ℕ → ℕ → ℕ → Operand
  operand_cs : ℕ → ℕ → ℕ → Operand
  operand_cb : ℕ → ℕ → Operand
  operand_cj : ℕ → Operand
  operand_none : Operand

-- struct Op
pub record Op : Type 0 where
  pub op_class : OpClass
  pub op_code : OpCode
  pub operand : Operand

abbrev pub op : OpClass → OpCode → Operand → Op
op op_class op_code operand = record { op_class = op_class; op_code = op_code; operand = operand }

-- An operation whose operand is decoded by code that can throw
abbrev pub op_with : OpClass → OpCode → Result Operand → Result Op
op_with op_class op_code decoded = do operand ← decoded; ok (op op_class op_code operand)

-- RAFI_RETURN_UNKNOWN_OP
abbrev pub unknown_op : OpClass → Result Op
unknown_op op_class = ok (op op_class unknown operand_none)
