-- ===== src/Cpu/Executor/Preserves/Check.antt =====
-- The checks of src/bin/rafi-emu/cpu/Executor.cpp keep what their parts keep.
use rafi_1st.Cpu.Executor.Keeps.{Keeps, Keeps-pure}
use rafi_1st.Cpu.Executor.Machine.{Environment, Execution, Machine}
use rafi_1st.Cpu.Executor.Stable.{Checked, checked_rules}
use rafi_1st.Cpu.Executor.Check.{
  pre_check_trap_rv32_atomic, pre_check_trap_rv32_load, pre_check_trap_rv32_load_reserved,
  pre_check_trap_rv32_store, pre_check_trap_rv32_store_conditional, pre_check_trap_rv64_atomic,
  pre_check_trap_rv64_load, pre_check_trap_rv64_load_reserved, pre_check_trap_rv64_store,
  pre_check_trap_rv64_store_conditional, unless_trap,
}
use rafi_1st.Base.{Option, none, some, ℕ}
use rafi_1st.Cpu.Trap.{Trap}
use rafi_1st.Decoder.Ops.{Op, OpCode, ecall}
use rafi_1st.Cpu.Executor.Check.System.{
  post_check_trap, pre_check_trap_csr, pre_check_trap_csr_imm, pre_check_trap_fence,
  pre_check_trap_priv, pre_check_trap_wfi,
}
use rafi_1st.Cpu.Executor.Float.{is_fp_enabled}

module _ {B : Type 0} {P : Machine B → Type 0} ⦃checked : Checked P⦄ where
  unless_trap-Keeps :
      (trap : Option Trap) (next : Execution B (Option Trap))
      → Keeps P next
      → Keeps P (unless_trap trap next)
  unless_trap-Keeps none next kept = kept
  unless_trap-Keeps (some t) next kept = Keeps-pure (some t)

  pub pre_check_trap_rv32_load-Keeps :
      (e : Environment B) (op : Op) (pc : ℕ) → Keeps P (pre_check_trap_rv32_load e op pc)
  unfolding pre_check_trap_rv32_load
  pre_check_trap_rv32_load-Keeps e op pc = search checked_rules depth 60

  pub pre_check_trap_rv32_load_reserved-Keeps :
      (e : Environment B) (op : Op) (pc : ℕ) → Keeps P (pre_check_trap_rv32_load_reserved e op pc)
  unfolding pre_check_trap_rv32_load_reserved
  pre_check_trap_rv32_load_reserved-Keeps e op pc = search checked_rules depth 60

  pub pre_check_trap_rv32_store-Keeps :
      (e : Environment B) (op : Op) (pc : ℕ) → Keeps P (pre_check_trap_rv32_store e op pc)
  unfolding pre_check_trap_rv32_store
  pre_check_trap_rv32_store-Keeps e op pc = search checked_rules depth 60

  pub pre_check_trap_rv32_store_conditional-Keeps :
      (e : Environment B) (op : Op) (pc : ℕ)
      → Keeps P (pre_check_trap_rv32_store_conditional e op pc)
  unfolding pre_check_trap_rv32_store_conditional
  pre_check_trap_rv32_store_conditional-Keeps e op pc = search checked_rules depth 60

  pub pre_check_trap_rv32_atomic-Keeps :
      (e : Environment B) (op : Op) (pc : ℕ) → Keeps P (pre_check_trap_rv32_atomic e op pc)
  unfolding pre_check_trap_rv32_atomic
  pre_check_trap_rv32_atomic-Keeps e op pc = search (checked_rules, unless_trap-Keeps) depth 60

  pub pre_check_trap_rv64_load-Keeps :
      (e : Environment B) (op : Op) (pc : ℕ) → Keeps P (pre_check_trap_rv64_load e op pc)
  unfolding pre_check_trap_rv64_load
  pre_check_trap_rv64_load-Keeps e op pc = search checked_rules depth 60

  pub pre_check_trap_rv64_load_reserved-Keeps :
      (e : Environment B) (op : Op) (pc : ℕ) → Keeps P (pre_check_trap_rv64_load_reserved e op pc)
  unfolding pre_check_trap_rv64_load_reserved
  pre_check_trap_rv64_load_reserved-Keeps e op pc = search checked_rules depth 60

  pub pre_check_trap_rv64_store-Keeps :
      (e : Environment B) (op : Op) (pc : ℕ) → Keeps P (pre_check_trap_rv64_store e op pc)
  unfolding pre_check_trap_rv64_store
  pre_check_trap_rv64_store-Keeps e op pc = search checked_rules depth 60

  pub pre_check_trap_rv64_store_conditional-Keeps :
      (e : Environment B) (op : Op) (pc : ℕ)
      → Keeps P (pre_check_trap_rv64_store_conditional e op pc)
  unfolding pre_check_trap_rv64_store_conditional
  pre_check_trap_rv64_store_conditional-Keeps e op pc = search checked_rules depth 60

  pub pre_check_trap_rv64_atomic-Keeps :
      (e : Environment B) (op : Op) (pc : ℕ) → Keeps P (pre_check_trap_rv64_atomic e op pc)
  unfolding pre_check_trap_rv64_atomic
  pre_check_trap_rv64_atomic-Keeps e op pc = search (checked_rules, unless_trap-Keeps) depth 60

  pub pre_check_trap_csr-Keeps :
      (op : Op) (pc : ℕ) (insn : ℕ) → Keeps P (pre_check_trap_csr {B = B} op pc insn)
  unfolding pre_check_trap_csr
  pre_check_trap_csr-Keeps op pc insn = search checked_rules depth 60

  pub pre_check_trap_csr_imm-Keeps :
      (op : Op) (pc : ℕ) (insn : ℕ) → Keeps P (pre_check_trap_csr_imm {B = B} op pc insn)
  unfolding pre_check_trap_csr_imm
  pre_check_trap_csr_imm-Keeps op pc insn = search checked_rules depth 60

  pub pre_check_trap_wfi-Keeps : (pc : ℕ) (insn : ℕ) → Keeps P (pre_check_trap_wfi {B = B} pc insn)
  unfolding pre_check_trap_wfi
  pre_check_trap_wfi-Keeps pc insn = search checked_rules depth 60

  pub pre_check_trap_fence-Keeps :
      (pc : ℕ) (insn : ℕ) → Keeps P (pre_check_trap_fence {B = B} pc insn)
  unfolding pre_check_trap_fence
  pre_check_trap_fence-Keeps pc insn = search checked_rules depth 60

  pub pre_check_trap_priv-Keeps :
      (op : Op) (pc : ℕ) (insn : ℕ) → Keeps P (pre_check_trap_priv {B = B} op pc insn)
  unfolding pre_check_trap_priv
  pre_check_trap_priv-Keeps op pc insn = search checked_rules depth 60

  pub post_check_trap-Keeps : (code : OpCode) (pc : ℕ) → Keeps P (post_check_trap {B = B} code pc)
  unfolding post_check_trap
  post_check_trap-Keeps ecall pc = search checked_rules depth 60
  post_check_trap-Keeps _ pc = search checked_rules depth 60

  pub is_fp_enabled-Keeps : Keeps P (is_fp_enabled {B = B})
  unfolding is_fp_enabled
  is_fp_enabled-Keeps = search checked_rules depth 60
