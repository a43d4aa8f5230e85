-- ===== src/Cpu/Executor/Preserves/Run.antt =====
-- PreCheckTrap and ProcessOp of src/bin/rafi-emu/cpu/Executor.cpp keep what their parts keep.
use rafi_1st.Cpu.Executor.Keeps.{Keeps}
use rafi_1st.Cpu.Executor.Machine.{Environment, Machine}
use rafi_1st.Cpu.Executor.Stable.{Checked, checked_rules, Stable, stable_rules}
use rafi_1st.Cpu.Executor.Preserves.Check.{
  is_fp_enabled-Keeps, pre_check_trap_csr-Keeps, pre_check_trap_csr_imm-Keeps,
  pre_check_trap_fence-Keeps, pre_check_trap_priv-Keeps, pre_check_trap_rv32_atomic-Keeps,
  pre_check_trap_rv32_load-Keeps, pre_check_trap_rv32_load_reserved-Keeps,
  pre_check_trap_rv32_store-Keeps, pre_check_trap_rv32_store_conditional-Keeps,
  pre_check_trap_rv64_atomic-Keeps, pre_check_trap_rv64_load-Keeps,
  pre_check_trap_rv64_load_reserved-Keeps, pre_check_trap_rv64_store-Keeps,
  pre_check_trap_rv64_store_conditional-Keeps, pre_check_trap_wfi-Keeps,
}
use rafi_1st.Decoder.Ops.{
  Op, OpClass, OpCode, lb, rv32a, rv32c, rv32d, rv32f, rv32i, rv32m, rv64a, rv64c, rv64d, rv64f,
  rv64i, rv64m,
}
use rafi_1st.Cpu.Executor.Run.{
  pre_check_trap, pre_check_trap_class, pre_check_trap_code, pre_check_trap_fp, process_class,
  process_op,
}
use rafi_1st.Base.{ℕ}
use rafi_1st.Cpu.Executor.Preserves.Float.{process_rvf-Keeps}
use rafi_1st.Cpu.Executor.Preserves.Rv32.{process_rv32i-Keeps}
use rafi_1st.Cpu.Executor.Preserves.MultiplyAtomic.{
  process_rv32a-Keeps, process_rv32m-Keeps, process_rv64a-Keeps, process_rv64m-Keeps,
}
use rafi_1st.Cpu.Executor.Preserves.Compressed32.{process_rv32c-Keeps}
use rafi_1st.Cpu.Executor.Preserves.Rv64.{process_rv64i-Keeps}
use rafi_1st.Cpu.Executor.Preserves.Compressed64.{process_rv64c-Keeps}
use rafi_1st.Cpu.Executor.Preserves.CheckCompressed.{
  pre_check_trap_rv32c-Keeps, pre_check_trap_rv64c-Keeps,
}
use rafi_1st.Cpu.Executor.Preserves.Double.{process_rvd-Keeps}

ruleset code_rules = (
  checked_rules, pre_check_trap_rv32_load-Keeps, pre_check_trap_rv64_load-Keeps,
  pre_check_trap_rv32_store-Keeps, pre_check_trap_rv64_store-Keeps, pre_check_trap_csr-Keeps,
  pre_check_trap_csr_imm-Keeps, pre_check_trap_wfi-Keeps, pre_check_trap_fence-Keeps,
  pre_check_trap_priv-Keeps, pre_check_trap_rv32_load_reserved-Keeps,
  pre_check_trap_rv64_load_reserved-Keeps, pre_check_trap_rv32_store_conditional-Keeps,
  pre_check_trap_rv64_store_conditional-Keeps, pre_check_trap_rv32_atomic-Keeps,
  pre_check_trap_rv64_atomic-Keeps,
)

ruleset class_rules = (
  stable_rules, process_rv32i-Keeps, process_rv32m-Keeps, process_rv32c-Keeps, process_rv64i-Keeps,
  process_rv64m-Keeps, process_rv64c-Keeps, process_rv32a-Keeps, process_rv64a-Keeps,
  process_rvf-Keeps, process_rvd-Keeps,
)

module _ {B : Type 0} {P : Machine B → Type 0} ⦃checked : Checked P⦄ where
  pub pre_check_trap_code-Keeps :
      (e : Environment B) (code : OpCode) (op : Op) (pc : ℕ) (insn : ℕ)
      → Keeps P (pre_check_trap_code e code op pc insn)
  unfolding pre_check_trap_code
  pre_check_trap_code-Keeps e lb op pc insn = search code_rules depth 60
  pre_check_trap_code-Keeps e _ op pc insn = search code_rules depth 60

  pub pre_check_trap_fp-Keeps :
      (e : Environment B) (op : Op) (pc : ℕ) (insn : ℕ) → Keeps P (pre_check_trap_fp e op pc insn)
  unfolding pre_check_trap_fp
  pre_check_trap_fp-Keeps e op pc insn =
      search (checked_rules, is_fp_enabled-Keeps, pre_check_trap_code-Keeps) depth 60

  ruleset pre_check_trap_class_rules = (
    checked_rules, pre_check_trap_rv32c-Keeps, pre_check_trap_rv64c-Keeps, pre_check_trap_fp-Keeps,
    pre_check_trap_code-Keeps,
  )

  pub pre_check_trap_class-Keeps :
      (e : Environment B) (op_class : OpClass) (op : Op) (pc : ℕ) (insn : ℕ)
      → Keeps P (pre_check_trap_class e op_class op pc insn)
  unfolding pre_check_trap_class
  pre_check_trap_class-Keeps e rv32c op pc insn = search pre_check_trap_class_rules depth 60
  pre_check_trap_class-Keeps e _ op pc insn = search pre_check_trap_class_rules depth 60

  pub pre_check_trap-Keeps :
      (e : Environment B) (op : Op) (pc : ℕ) (insn : ℕ) → Keeps P (pre_check_trap e op pc insn)
  unfolding pre_check_trap
  pre_check_trap-Keeps e op pc insn = search (checked_rules, pre_check_trap_class-Keeps) depth 60

module _ {B : Type 0} {P : Machine B → Type 0} ⦃stable : Stable P⦄ where
  pub process_class-Keeps :
      (e : Environment B) (op_class : OpClass) (op : Op) (pc : ℕ)
      → Keeps P (process_class e op_class op pc)
  unfolding process_class
  process_class-Keeps e rv32i op pc = search class_rules depth 60
  process_class-Keeps e rv32m op pc = search class_rules depth 60
  process_class-Keeps e rv32c op pc = search class_rules depth 60
  process_class-Keeps e rv64i op pc = search class_rules depth 60
  process_class-Keeps e rv64m op pc = search class_rules depth 60
  process_class-Keeps e rv64c op pc = search class_rules depth 60
  process_class-Keeps e rv32a op pc = search class_rules depth 60
  process_class-Keeps e rv64a op pc = search class_rules depth 60
  process_class-Keeps e rv32f op pc = search class_rules depth 60
  process_class-Keeps e rv64f op pc = search class_rules depth 60
  process_class-Keeps e rv32d op pc = search class_rules depth 60
  process_class-Keeps e rv64d op pc = search class_rules depth 60

  pub process_op-Keeps : (e : Environment B) (op : Op) (pc : ℕ) → Keeps P (process_op e op pc)
  unfolding process_op
  process_op-Keeps e op pc = search (stable_rules, process_class-Keeps) depth 60
