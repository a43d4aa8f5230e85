-- ===== src/Cpu/Executor/Preserves/Compressed32.antt =====
-- ProcessRV32C of src/bin/rafi-emu/cpu/Executor.cpp keeps what its parts keep.
use rafi_1st.Cpu.Executor.Keeps.{Keeps}
use rafi_1st.Cpu.Executor.Machine.{Environment, Machine}
use rafi_1st.Cpu.Executor.Stable.{Stable, stable_rules}
use rafi_1st.Cpu.Executor.Compressed.Rv32.{
  dispatch_rv32c, process_rv32c, process_rv32c_addi16sp, process_rv32c_addi4spn, process_rv32c_alu,
  process_rv32c_alu_imm, process_rv32c_branch, process_rv32c_fld, process_rv32c_fldsp,
  process_rv32c_flw, process_rv32c_flwsp, process_rv32c_fsd, process_rv32c_fsdsp, process_rv32c_fsw,
  process_rv32c_fswsp, process_rv32c_j, process_rv32c_jal, process_rv32c_jalr, process_rv32c_jr,
  process_rv32c_lw, process_rv32c_lwsp, process_rv32c_sw, process_rv32c_swsp,
}
use rafi_1st.Decoder.Ops.{Op, OpCode, c_nop}
use rafi_1st.Cpu.Executor.Preserves.Rv32.{branch_to-Keeps}
use rafi_1st.Base.{ℕ}

module _ {B : Type 0} {P : Machine B → Type 0} ⦃stable : Stable P⦄ where
  pub process_rv32c_alu-Keeps : (op : Op) → Keeps P (process_rv32c_alu {B = B} op)
  unfolding process_rv32c_alu
  process_rv32c_alu-Keeps op = search stable_rules depth 60

  pub process_rv32c_alu_imm-Keeps : (op : Op) → Keeps P (process_rv32c_alu_imm {B = B} op)
  unfolding process_rv32c_alu_imm
  process_rv32c_alu_imm-Keeps op = search stable_rules depth 60

  pub process_rv32c_branch-Keeps : (op : Op) (pc : ℕ) → Keeps P (process_rv32c_branch {B = B} op pc)
  unfolding process_rv32c_branch
  process_rv32c_branch-Keeps op pc = search (stable_rules, branch_to-Keeps) depth 60

  pub process_rv32c_addi4spn-Keeps : (op : Op) → Keeps P (process_rv32c_addi4spn {B = B} op)
  unfolding process_rv32c_addi4spn
  process_rv32c_addi4spn-Keeps op = search stable_rules depth 60

  pub process_rv32c_addi16sp-Keeps : (op : Op) → Keeps P (process_rv32c_addi16sp {B = B} op)
  unfolding process_rv32c_addi16sp
  process_rv32c_addi16sp-Keeps op = search stable_rules depth 60

  pub process_rv32c_fld-Keeps : (e : Environment B) (op : Op) → Keeps P (process_rv32c_fld e op)
  unfolding process_rv32c_fld
  process_rv32c_fld-Keeps e op = search stable_rules depth 60

  pub process_rv32c_fldsp-Keeps : (e : Environment B) (op : Op) → Keeps P (process_rv32c_fldsp e op)
  unfolding process_rv32c_fldsp
  process_rv32c_fldsp-Keeps e op = search stable_rules depth 60

  pub process_rv32c_flw-Keeps : (e : Environment B) (op : Op) → Keeps P (process_rv32c_flw e op)
  unfolding process_rv32c_flw
  process_rv32c_flw-Keeps e op = search stable_rules depth 60

  pub process_rv32c_flwsp-Keeps : (e : Environment B) (op : Op) → Keeps P (process_rv32c_flwsp e op)
  unfolding process_rv32c_flwsp
  process_rv32c_flwsp-Keeps e op = search stable_rules depth 60

  pub process_rv32c_fsd-Keeps : (e : Environment B) (op : Op) → Keeps P (process_rv32c_fsd e op)
  unfolding process_rv32c_fsd
  process_rv32c_fsd-Keeps e op = search stable_rules depth 60

  pub process_rv32c_fsdsp-Keeps : (e : Environment B) (op : Op) → Keeps P (process_rv32c_fsdsp e op)
  unfolding process_rv32c_fsdsp
  process_rv32c_fsdsp-Keeps e op = search stable_rules depth 60

  pub process_rv32c_fsw-Keeps : (e : Environment B) (op : Op) → Keeps P (process_rv32c_fsw e op)
  unfolding process_rv32c_fsw
  process_rv32c_fsw-Keeps e op = search stable_rules depth 60

  pub process_rv32c_fswsp-Keeps : (e : Environment B) (op : Op) → Keeps P (process_rv32c_fswsp e op)
  unfolding process_rv32c_fswsp
  process_rv32c_fswsp-Keeps e op = search stable_rules depth 60

  pub process_rv32c_j-Keeps : (op : Op) (pc : ℕ) → Keeps P (process_rv32c_j {B = B} op pc)
  unfolding process_rv32c_j
  process_rv32c_j-Keeps op pc = search stable_rules depth 60

  pub process_rv32c_jal-Keeps : (op : Op) (pc : ℕ) → Keeps P (process_rv32c_jal {B = B} op pc)
  unfolding process_rv32c_jal
  process_rv32c_jal-Keeps op pc = search stable_rules depth 60

  pub process_rv32c_jr-Keeps : (op : Op) (pc : ℕ) → Keeps P (process_rv32c_jr {B = B} op pc)
  unfolding process_rv32c_jr
  process_rv32c_jr-Keeps op pc = search stable_rules depth 60

  pub process_rv32c_jalr-Keeps : (op : Op) (pc : ℕ) → Keeps P (process_rv32c_jalr {B = B} op pc)
  unfolding process_rv32c_jalr
  process_rv32c_jalr-Keeps op pc = search stable_rules depth 60

  pub process_rv32c_lw-Keeps : (e : Environment B) (op : Op) → Keeps P (process_rv32c_lw e op)
  unfolding process_rv32c_lw
  process_rv32c_lw-Keeps e op = search stable_rules depth 60

  pub process_rv32c_lwsp-Keeps : (e : Environment B) (op : Op) → Keeps P (process_rv32c_lwsp e op)
  unfolding process_rv32c_lwsp
  process_rv32c_lwsp-Keeps e op = search stable_rules depth 60

  pub process_rv32c_sw-Keeps : (e : Environment B) (op : Op) → Keeps P (process_rv32c_sw e op)
  unfolding process_rv32c_sw
  process_rv32c_sw-Keeps e op = search stable_rules depth 60

  pub process_rv32c_swsp-Keeps : (e : Environment B) (op : Op) → Keeps P (process_rv32c_swsp e op)
  unfolding process_rv32c_swsp
  process_rv32c_swsp-Keeps e op = search stable_rules depth 60

  ruleset dispatch_rv32c_rules = (
    stable_rules, process_rv32c_alu-Keeps, process_rv32c_alu_imm-Keeps, process_rv32c_branch-Keeps,
    process_rv32c_addi4spn-Keeps, process_rv32c_addi16sp-Keeps, process_rv32c_fld-Keeps,
    process_rv32c_fldsp-Keeps, process_rv32c_flw-Keeps, process_rv32c_flwsp-Keeps,
    process_rv32c_fsd-Keeps, process_rv32c_fsdsp-Keeps, process_rv32c_fsw-Keeps,
    process_rv32c_fswsp-Keeps, process_rv32c_j-Keeps, process_rv32c_jal-Keeps,
    process_rv32c_jr-Keeps, process_rv32c_jalr-Keeps, process_rv32c_lw-Keeps,
    process_rv32c_lwsp-Keeps, process_rv32c_sw-Keeps, process_rv32c_swsp-Keeps,
  )

  pub dispatch_rv32c-Keeps :
      (e : Environment B) (code : OpCode) (op : Op) (pc : ℕ) → Keeps P (dispatch_rv32c e code op pc)
  unfolding dispatch_rv32c
  dispatch_rv32c-Keeps e c_nop op pc = search dispatch_rv32c_rules depth 60
  dispatch_rv32c-Keeps e _ op pc = search dispatch_rv32c_rules depth 60

  pub process_rv32c-Keeps : (e : Environment B) (op : Op) (pc : ℕ) → Keeps P (process_rv32c e op pc)
  unfolding process_rv32c
  process_rv32c-Keeps e op pc = search (stable_rules, dispatch_rv32c-Keeps) depth 60
