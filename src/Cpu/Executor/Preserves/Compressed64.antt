-- ===== src/Cpu/Executor/Preserves/Compressed64.antt =====
-- ProcessRV64C of src/bin/rafi-emu/cpu/Executor.cpp keeps what its parts keep.
use rafi_1st.Cpu.Executor.Keeps.{Keeps}
use rafi_1st.Cpu.Executor.Machine.{Environment, Machine}
use rafi_1st.Cpu.Executor.Stable.{Stable, stable_rules}
use rafi_1st.Cpu.Executor.Compressed.Rv64.{
  dispatch_rv64c, process_rv64c, process_rv64c_addi16sp, process_rv64c_addi4spn, process_rv64c_alu,
  process_rv64c_alu_imm, process_rv64c_branch, process_rv64c_fld, process_rv64c_fldsp,
  process_rv64c_fsd, process_rv64c_fsdsp, process_rv64c_j, process_rv64c_jalr, process_rv64c_jr,
  process_rv64c_ld, process_rv64c_ldsp, process_rv64c_lw, process_rv64c_lwsp, process_rv64c_sd,
  process_rv64c_sdsp, process_rv64c_sw, process_rv64c_swsp,
}
use rafi_1st.Decoder.Ops.{Op, OpCode, c_nop}
use rafi_1st.Cpu.Executor.Preserves.Rv32.{branch_to-Keeps}
use rafi_1st.Base.{ℕ}

module _ {B : Type 0} {P : Machine B → Type 0} ⦃stable : Stable P⦄ where
  pub process_rv64c_alu-Keeps : (op : Op) → Keeps P (process_rv64c_alu {B = B} op)
  unfolding process_rv64c_alu
  process_rv64c_alu-Keeps op = search stable_rules depth 60

  pub process_rv64c_alu_imm-Keeps : (op : Op) → Keeps P (process_rv64c_alu_imm {B = B} op)
  unfolding process_rv64c_alu_imm
  process_rv64c_alu_imm-Keeps op = search stable_rules depth 60

  pub process_rv64c_branch-Keeps : (op : Op) (pc : ℕ) → Keeps P (process_rv64c_branch {B = B} op pc)
  unfolding process_rv64c_branch
  process_rv64c_branch-Keeps op pc = search (stable_rules, branch_to-Keeps) depth 60

  pub process_rv64c_addi4spn-Keeps : (op : Op) → Keeps P (process_rv64c_addi4spn {B = B} op)
  unfolding process_rv64c_addi4spn
  process_rv64c_addi4spn-Keeps op = search stable_rules depth 60

  pub process_rv64c_addi16sp-Keeps : (op : Op) → Keeps P (process_rv64c_addi16sp {B = B} op)
  unfolding process_rv64c_addi16sp
  process_rv64c_addi16sp-Keeps op = search stable_rules depth 60

  pub process_rv64c_fld-Keeps : (e : Environment B) (op : Op) → Keeps P (process_rv64c_fld e op)
  unfolding process_rv64c_fld
  process_rv64c_fld-Keeps e op = search stable_rules depth 60

  pub process_rv64c_fldsp-Keeps : (e : Environment B) (op : Op) → Keeps P (process_rv64c_fldsp e op)
  unfolding process_rv64c_fldsp
  process_rv64c_fldsp-Keeps e op = search stable_rules depth 60

  pub process_rv64c_fsd-Keeps : (e : Environment B) (op : Op) → Keeps P (process_rv64c_fsd e op)
  unfolding process_rv64c_fsd
  process_rv64c_fsd-Keeps e op = search stable_rules depth 60

  pub process_rv64c_fsdsp-Keeps : (e : Environment B) (op : Op) → Keeps P (process_rv64c_fsdsp e op)
  unfolding process_rv64c_fsdsp
  process_rv64c_fsdsp-Keeps e op = search stable_rules depth 60

  pub process_rv64c_j-Keeps : (op : Op) (pc : ℕ) → Keeps P (process_rv64c_j {B = B} op pc)
  unfolding process_rv64c_j
  process_rv64c_j-Keeps op pc = search stable_rules depth 60

  pub process_rv64c_jr-Keeps : (op : Op) (pc : ℕ) → Keeps P (process_rv64c_jr {B = B} op pc)
  unfolding process_rv64c_jr
  process_rv64c_jr-Keeps op pc = search stable_rules depth 60

  pub process_rv64c_jalr-Keeps : (op : Op) (pc : ℕ) → Keeps P (process_rv64c_jalr {B = B} op pc)
  unfolding process_rv64c_jalr
  process_rv64c_jalr-Keeps op pc = search stable_rules depth 60

  pub process_rv64c_ld-Keeps : (e : Environment B) (op : Op) → Keeps P (process_rv64c_ld e op)
  unfolding process_rv64c_ld
  process_rv64c_ld-Keeps e op = search stable_rules depth 60

  pub process_rv64c_ldsp-Keeps : (e : Environment B) (op : Op) → Keeps P (process_rv64c_ldsp e op)
  unfolding process_rv64c_ldsp
  process_rv64c_ldsp-Keeps e op = search stable_rules depth 60

  pub process_rv64c_lw-Keeps : (e : Environment B) (op : Op) → Keeps P (process_rv64c_lw e op)
  unfolding process_rv64c_lw
  process_rv64c_lw-Keeps e op = search stable_rules depth 60

  pub process_rv64c_lwsp-Keeps : (e : Environment B) (op : Op) → Keeps P (process_rv64c_lwsp e op)
  unfolding process_rv64c_lwsp
  process_rv64c_lwsp-Keeps e op = search stable_rules depth 60

  pub process_rv64c_sd-Keeps : (e : Environment B) (op : Op) → Keeps P (process_rv64c_sd e op)
  unfolding process_rv64c_sd
  process_rv64c_sd-Keeps e op = search stable_rules depth 60

  pub process_rv64c_sdsp-Keeps : (e : Environment B) (op : Op) → Keeps P (process_rv64c_sdsp e op)
  unfolding process_rv64c_sdsp
  process_rv64c_sdsp-Keeps e op = search stable_rules depth 60

  pub process_rv64c_sw-Keeps : (e : Environment B) (op : Op) → Keeps P (process_rv64c_sw e op)
  unfolding process_rv64c_sw
  process_rv64c_sw-Keeps e op = search stable_rules depth 60

  pub process_rv64c_swsp-Keeps : (e : Environment B) (op : Op) → Keeps P (process_rv64c_swsp e op)
  unfolding process_rv64c_swsp
  process_rv64c_swsp-Keeps e op = search stable_rules depth 60

  ruleset dispatch_rv64c_rules = (
    stable_rules, process_rv64c_alu-Keeps, process_rv64c_alu_imm-Keeps, process_rv64c_branch-Keeps,
    process_rv64c_addi4spn-Keeps, process_rv64c_addi16sp-Keeps, process_rv64c_fld-Keeps,
    process_rv64c_fldsp-Keeps, process_rv64c_fsd-Keeps, process_rv64c_fsdsp-Keeps,
    process_rv64c_j-Keeps, process_rv64c_jr-Keeps, process_rv64c_jalr-Keeps, process_rv64c_ld-Keeps,
    process_rv64c_ldsp-Keeps, process_rv64c_lw-Keeps, process_rv64c_lwsp-Keeps,
    process_rv64c_sd-Keeps, process_rv64c_sdsp-Keeps, process_rv64c_sw-Keeps,
    process_rv64c_swsp-Keeps,
  )

  pub dispatch_rv64c-Keeps :
      (e : Environment B) (code : OpCode) (op : Op) (pc : ℕ) → Keeps P (dispatch_rv64c e code op pc)
  unfolding dispatch_rv64c
  dispatch_rv64c-Keeps e c_nop op pc = search dispatch_rv64c_rules depth 60
  dispatch_rv64c-Keeps e _ op pc = search dispatch_rv64c_rules depth 60

  pub process_rv64c-Keeps : (e : Environment B) (op : Op) (pc : ℕ) → Keeps P (process_rv64c e op pc)
  unfolding process_rv64c
  process_rv64c-Keeps e op pc = search (stable_rules, dispatch_rv64c-Keeps) depth 60
