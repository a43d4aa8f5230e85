-- ===== src/Cpu/Executor/Reads.antt =====
-- The reads of src/bin/rafi-emu/cpu/Executor.cpp change nothing, so they keep every invariant.
use rafi_1st.Base.{ℕ}
use rafi_1st.Decoder.Ops.{Operand}
use rafi_1st.Cpu.Csr.{Csr}
use rafi_1st.Cpu.Executor.Machine.{Machine}
use rafi_1st.Cpu.Executor.Steps.{
  get_csr, get_int32, get_uint32, get_int64, get_uint64, get_fp32, get_fp64,
}
use rafi_1st.Cpu.Executor.Operands.{
  as_r, as_r4, as_i, as_s, as_b, as_u, as_j, as_shift_imm, as_csr, as_csr_imm, as_cr, as_ci, as_css,
  as_ciw, as_cl, as_cs, as_cb, as_cj,
}
use rafi_1st.Cpu.Executor.Keeps.{Keeps, Keeps-lift, Keeps-gets, Keeps-get_value, keeps_rules}

module _ {B : Type 0} {P : Machine B → Type 0} where
  pub get_csr-Keeps : {A : Type 0} (f : Csr → A) → Keeps P (get_csr f)
  unfolding get_csr
  get_csr-Keeps f = Keeps-get_value (λ m. f m.csr)

  pub get_int32-Keeps : (reg_id : ℕ) → Keeps P (get_int32 reg_id)
  unfolding get_int32
  get_int32-Keeps reg_id = Keeps-gets _

  pub get_uint32-Keeps : (reg_id : ℕ) → Keeps P (get_uint32 reg_id)
  unfolding get_uint32
  get_uint32-Keeps reg_id = Keeps-gets _

  pub get_int64-Keeps : (reg_id : ℕ) → Keeps P (get_int64 reg_id)
  unfolding get_int64
  get_int64-Keeps reg_id = Keeps-gets _

  pub get_uint64-Keeps : (reg_id : ℕ) → Keeps P (get_uint64 reg_id)
  unfolding get_uint64
  get_uint64-Keeps reg_id = Keeps-gets _

  pub get_fp32-Keeps : (reg_id : ℕ) → Keeps P (get_fp32 reg_id)
  unfolding get_fp32
  get_fp32-Keeps reg_id = Keeps-gets _

  pub get_fp64-Keeps : (reg_id : ℕ) → Keeps P (get_fp64 reg_id)
  unfolding get_fp64
  get_fp64-Keeps reg_id = Keeps-gets _

  pub as_r-Keeps : (operand : Operand) → Keeps P (as_r operand)
  unfolding as_r
  as_r-Keeps operand = Keeps-lift _

  pub as_r4-Keeps : (operand : Operand) → Keeps P (as_r4 operand)
  unfolding as_r4
  as_r4-Keeps operand = Keeps-lift _

  pub as_i-Keeps : (operand : Operand) → Keeps P (as_i operand)
  unfolding as_i
  as_i-Keeps operand = Keeps-lift _

  pub as_s-Keeps : (operand : Operand) → Keeps P (as_s operand)
  unfolding as_s
  as_s-Keeps operand = Keeps-lift _

  pub as_b-Keeps : (operand : Operand) → Keeps P (as_b operand)
  unfolding as_b
  as_b-Keeps operand = Keeps-lift _

  pub as_u-Keeps : (operand : Operand) → Keeps P (as_u operand)
  unfolding as_u
  as_u-Keeps operand = Keeps-lift _

  pub as_j-Keeps : (operand : Operand) → Keeps P (as_j operand)
  unfolding as_j
  as_j-Keeps operand = Keeps-lift _

  pub as_shift_imm-Keeps : (operand : Operand) → Keeps P (as_shift_imm operand)
  unfolding as_shift_imm
  as_shift_imm-Keeps operand = Keeps-lift _

  pub as_csr-Keeps : (operand : Operand) → Keeps P (as_csr operand)
  unfolding as_csr
  as_csr-Keeps operand = Keeps-lift _

  pub as_csr_imm-Keeps : (operand : Operand) → Keeps P (as_csr_imm operand)
  unfolding as_csr_imm
  as_csr_imm-Keeps operand = Keeps-lift _

  pub as_cr-Keeps : (operand : Operand) → Keeps P (as_cr operand)
  unfolding as_cr
  as_cr-Keeps operand = Keeps-lift _

  pub as_ci-Keeps : (operand : Operand) → Keeps P (as_ci operand)
  unfolding as_ci
  as_ci-Keeps operand = Keeps-lift _

  pub as_css-Keeps : (operand : Operand) → Keeps P (as_css operand)
  unfolding as_css
  as_css-Keeps operand = Keeps-lift _

  pub as_ciw-Keeps : (operand : Operand) → Keeps P (as_ciw operand)
  unfolding as_ciw
  as_ciw-Keeps operand = Keeps-lift _

  pub as_cl-Keeps : (operand : Operand) → Keeps P (as_cl operand)
  unfolding as_cl
  as_cl-Keeps operand = Keeps-lift _

  pub as_cs-Keeps : (operand : Operand) → Keeps P (as_cs operand)
  unfolding as_cs
  as_cs-Keeps operand = Keeps-lift _

  pub as_cb-Keeps : (operand : Operand) → Keeps P (as_cb operand)
  unfolding as_cb
  as_cb-Keeps operand = Keeps-lift _

  pub as_cj-Keeps : (operand : Operand) → Keeps P (as_cj operand)
  unfolding as_cj
  as_cj-Keeps operand = Keeps-lift _

pub ruleset reads_rules = (
  keeps_rules, get_csr-Keeps, get_int32-Keeps, get_uint32-Keeps, get_int64-Keeps, get_uint64-Keeps,
  get_fp32-Keeps, get_fp64-Keeps, as_r-Keeps, as_r4-Keeps, as_i-Keeps, as_s-Keeps, as_b-Keeps,
  as_u-Keeps, as_j-Keeps, as_shift_imm-Keeps, as_csr-Keeps, as_csr_imm-Keeps, as_cr-Keeps,
  as_ci-Keeps, as_css-Keeps, as_ciw-Keeps, as_cl-Keeps, as_cs-Keeps, as_cb-Keeps, as_cj-Keeps,
)
