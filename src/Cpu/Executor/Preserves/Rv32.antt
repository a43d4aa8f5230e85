-- ===== src/Cpu/Executor/Preserves/Rv32.antt =====
-- ProcessRV32I of src/bin/rafi-emu/cpu/Executor.cpp keeps what its parts keep.
use rafi_1st.Cpu.Executor.Keeps.{Keeps}
use rafi_1st.Cpu.Executor.Machine.{Environment, Machine}
use rafi_1st.Cpu.Executor.Stable.{Stable, stable_rules}
use rafi_1st.Cpu.Executor.Integer.Rv32.{
  branch_to, dispatch_rv32i, load_value32, process_rv32i, process_rv32i_alu, process_rv32i_alu_imm,
  process_rv32i_auipc, process_rv32i_branch, process_rv32i_csr, process_rv32i_csr_imm,
  process_rv32i_fence, process_rv32i_jal, process_rv32i_jalr, process_rv32i_load, process_rv32i_lui,
  process_rv32i_priv, process_rv32i_shift, process_rv32i_shift_imm, process_rv32i_store, run_priv,
  store_value32,
}
use rafi_1st.Decoder.Ops.{Op, OpCode, ecall, lb, lui, sb}
use rafi_1st.Base.{Bool, ℕ}

module _ {B : Type 0} {P : Machine B → Type 0} ⦃stable : Stable P⦄ where
  pub process_rv32i_lui-Keeps : (op : Op) → Keeps P (process_rv32i_lui {B = B} op)
  unfolding process_rv32i_lui
  process_rv32i_lui-Keeps op = search stable_rules depth 60

  pub process_rv32i_auipc-Keeps : (op : Op) (pc : ℕ) → Keeps P (process_rv32i_auipc {B = B} op pc)
  unfolding process_rv32i_auipc
  process_rv32i_auipc-Keeps op pc = search stable_rules depth 60

  pub process_rv32i_jal-Keeps : (op : Op) (pc : ℕ) → Keeps P (process_rv32i_jal {B = B} op pc)
  unfolding process_rv32i_jal
  process_rv32i_jal-Keeps op pc = search stable_rules depth 60

  pub process_rv32i_jalr-Keeps : (op : Op) (pc : ℕ) → Keeps P (process_rv32i_jalr {B = B} op pc)
  unfolding process_rv32i_jalr
  process_rv32i_jalr-Keeps op pc = search stable_rules depth 60

  pub branch_to-Keeps : (jump : Bool) (pc : ℕ) (imm : ℕ) → Keeps P (branch_to {B = B} jump pc imm)
  unfolding branch_to
  branch_to-Keeps jump pc imm = search stable_rules depth 60

  pub process_rv32i_branch-Keeps : (op : Op) (pc : ℕ) → Keeps P (process_rv32i_branch {B = B} op pc)
  unfolding process_rv32i_branch
  process_rv32i_branch-Keeps op pc = search (stable_rules, branch_to-Keeps) depth 60

  pub load_value32-Keeps :
      (e : Environment B) (code : OpCode) (address : ℕ) → Keeps P (load_value32 e code address)
  unfolding load_value32
  load_value32-Keeps e lb address = search stable_rules depth 60
  load_value32-Keeps e _ address = search stable_rules depth 60

  pub process_rv32i_load-Keeps : (e : Environment B) (op : Op) → Keeps P (process_rv32i_load e op)
  unfolding process_rv32i_load
  process_rv32i_load-Keeps e op = search (stable_rules, load_value32-Keeps) depth 60

  pub store_value32-Keeps :
      (e : Environment B) (code : OpCode) (address : ℕ) (value : ℕ)
      → Keeps P (store_value32 e code address value)
  unfolding store_value32
  store_value32-Keeps e sb address value = search stable_rules depth 60
  store_value32-Keeps e _ address value = search stable_rules depth 60

  pub process_rv32i_store-Keeps : (e : Environment B) (op : Op) → Keeps P (process_rv32i_store e op)
  unfolding process_rv32i_store
  process_rv32i_store-Keeps e op = search (stable_rules, store_value32-Keeps) depth 60

  pub process_rv32i_alu-Keeps : (op : Op) → Keeps P (process_rv32i_alu {B = B} op)
  unfolding process_rv32i_alu
  process_rv32i_alu-Keeps op = search stable_rules depth 60

  pub process_rv32i_alu_imm-Keeps : (op : Op) → Keeps P (process_rv32i_alu_imm {B = B} op)
  unfolding process_rv32i_alu_imm
  process_rv32i_alu_imm-Keeps op = search stable_rules depth 60

  pub process_rv32i_shift-Keeps : (op : Op) → Keeps P (process_rv32i_shift {B = B} op)
  unfolding process_rv32i_shift
  process_rv32i_shift-Keeps op = search stable_rules depth 60

  pub process_rv32i_shift_imm-Keeps : (op : Op) → Keeps P (process_rv32i_shift_imm {B = B} op)
  unfolding process_rv32i_shift_imm
  process_rv32i_shift_imm-Keeps op = search stable_rules depth 60

  pub run_priv-Keeps : (code : OpCode) → Keeps P (run_priv {B = B} code)
  unfolding run_priv
  run_priv-Keeps ecall = search stable_rules depth 60
  run_priv-Keeps _ = search stable_rules depth 60

  pub process_rv32i_priv-Keeps : (op : Op) → Keeps P (process_rv32i_priv {B = B} op)
  unfolding process_rv32i_priv
  process_rv32i_priv-Keeps op = search (stable_rules, run_priv-Keeps) depth 60

  pub process_rv32i_fence-Keeps : Keeps P (process_rv32i_fence {B = B})
  unfolding process_rv32i_fence
  process_rv32i_fence-Keeps = search stable_rules depth 60

  pub process_rv32i_csr-Keeps : (op : Op) → Keeps P (process_rv32i_csr {B = B} op)
  unfolding process_rv32i_csr
  process_rv32i_csr-Keeps op = search stable_rules depth 60

  pub process_rv32i_csr_imm-Keeps : (op : Op) → Keeps P (process_rv32i_csr_imm {B = B} op)
  unfolding process_rv32i_csr_imm
  process_rv32i_csr_imm-Keeps op = search stable_rules depth 60

  ruleset dispatch_rv32i_rules = (
    stable_rules, process_rv32i_lui-Keeps, process_rv32i_auipc-Keeps, process_rv32i_jal-Keeps,
    process_rv32i_jalr-Keeps, process_rv32i_branch-Keeps, process_rv32i_load-Keeps,
    process_rv32i_store-Keeps, process_rv32i_alu_imm-Keeps, process_rv32i_shift-Keeps,
    process_rv32i_shift_imm-Keeps, process_rv32i_alu-Keeps, process_rv32i_priv-Keeps,
    process_rv32i_fence-Keeps, process_rv32i_csr-Keeps, process_rv32i_csr_imm-Keeps,
  )

  pub dispatch_rv32i-Keeps :
      (e : Environment B) (code : OpCode) (op : Op) (pc : ℕ) → Keeps P (dispatch_rv32i e code op pc)
  unfolding dispatch_rv32i
  dispatch_rv32i-Keeps e lui op pc = search dispatch_rv32i_rules depth 60
  dispatch_rv32i-Keeps e _ op pc = search dispatch_rv32i_rules depth 60

  pub process_rv32i-Keeps : (e : Environment B) (op : Op) (pc : ℕ) → Keeps P (process_rv32i e op pc)
  unfolding process_rv32i
  process_rv32i-Keeps e op pc = search (stable_rules, dispatch_rv32i-Keeps) depth 60
