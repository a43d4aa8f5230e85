-- ===== src/Cpu/Executor/Preserves/Rv64.antt =====
-- ProcessRV64I of src/bin/rafi-emu/cpu/Executor.cpp keeps what its parts keep.
use rafi_1st.Cpu.Executor.Keeps.{Keeps}
use rafi_1st.Cpu.Executor.Machine.{Environment, Machine}
use rafi_1st.Cpu.Executor.Stable.{Stable, stable_rules}
use rafi_1st.Cpu.Executor.Integer.Rv64.{
  dispatch_rv64i, load_value64, process_rv64i, process_rv64i_alu, process_rv64i_alu_imm,
  process_rv64i_auipc, process_rv64i_branch, process_rv64i_csr, process_rv64i_csr_imm,
  process_rv64i_fence, process_rv64i_jal, process_rv64i_jalr, process_rv64i_load, process_rv64i_lui,
  process_rv64i_priv, process_rv64i_shift, process_rv64i_shift_imm, process_rv64i_store,
  store_value64,
}
use rafi_1st.Decoder.Ops.{Op, OpCode, lb, lui, sb}
use rafi_1st.Base.{ℕ}
use rafi_1st.Cpu.Executor.Preserves.Rv32.{branch_to-Keeps, run_priv-Keeps}

module _ {B : Type 0} {P : Machine B → Type 0} ⦃stable : Stable P⦄ where
  pub process_rv64i_lui-Keeps : (op : Op) → Keeps P (process_rv64i_lui {B = B} op)
  unfolding process_rv64i_lui
  process_rv64i_lui-Keeps op = search stable_rules depth 60

  pub process_rv64i_auipc-Keeps : (op : Op) (pc : ℕ) → Keeps P (process_rv64i_auipc {B = B} op pc)
  unfolding process_rv64i_auipc
  process_rv64i_auipc-Keeps op pc = search stable_rules depth 60

  pub process_rv64i_jal-Keeps : (op : Op) (pc : ℕ) → Keeps P (process_rv64i_jal {B = B} op pc)
  unfolding process_rv64i_jal
  process_rv64i_jal-Keeps op pc = search stable_rules depth 60

  pub process_rv64i_jalr-Keeps : (op : Op) (pc : ℕ) → Keeps P (process_rv64i_jalr {B = B} op pc)
  unfolding process_rv64i_jalr
  process_rv64i_jalr-Keeps op pc = search stable_rules depth 60

  pub process_rv64i_branch-Keeps : (op : Op) (pc : ℕ) → Keeps P (process_rv64i_branch {B = B} op pc)
  unfolding process_rv64i_branch
  process_rv64i_branch-Keeps op pc = search (stable_rules, branch_to-Keeps) depth 60

  pub load_value64-Keeps :
      (e : Environment B) (code : OpCode) (address : ℕ) → Keeps P (load_value64 e code address)
  unfolding load_value64
  load_value64-Keeps e lb address = search stable_rules depth 60
  load_value64-Keeps e _ address = search stable_rules depth 60

  pub process_rv64i_load-Keeps : (e : Environment B) (op : Op) → Keeps P (process_rv64i_load e op)
  unfolding process_rv64i_load
  process_rv64i_load-Keeps e op = search (stable_rules, load_value64-Keeps) depth 60

  pub store_value64-Keeps :
      (e : Environment B) (code : OpCode) (address : ℕ) (value : ℕ)
      → Keeps P (store_value64 e code address value)
  unfolding store_value64
  store_value64-Keeps e sb address value = search stable_rules depth 60
  store_value64-Keeps e _ address value = search stable_rules depth 60

  pub process_rv64i_store-Keeps : (e : Environment B) (op : Op) → Keeps P (process_rv64i_store e op)
  unfolding process_rv64i_store
  process_rv64i_store-Keeps e op = search (stable_rules, store_value64-Keeps) depth 60

  pub process_rv64i_alu-Keeps : (op : Op) → Keeps P (process_rv64i_alu {B = B} op)
  unfolding process_rv64i_alu
  process_rv64i_alu-Keeps op = search stable_rules depth 60

  pub process_rv64i_alu_imm-Keeps : (op : Op) → Keeps P (process_rv64i_alu_imm {B = B} op)
  unfolding process_rv64i_alu_imm
  process_rv64i_alu_imm-Keeps op = search stable_rules depth 60

  pub process_rv64i_shift-Keeps : (op : Op) → Keeps P (process_rv64i_shift {B = B} op)
  unfolding process_rv64i_shift
  process_rv64i_shift-Keeps op = search stable_rules depth 60

  pub process_rv64i_shift_imm-Keeps : (op : Op) → Keeps P (process_rv64i_shift_imm {B = B} op)
  unfolding process_rv64i_shift_imm
  process_rv64i_shift_imm-Keeps op = search stable_rules depth 60

  pub process_rv64i_priv-Keeps : (op : Op) → Keeps P (process_rv64i_priv {B = B} op)
  unfolding process_rv64i_priv
  process_rv64i_priv-Keeps op = search (stable_rules, run_priv-Keeps) depth 60

  pub process_rv64i_fence-Keeps : Keeps P (process_rv64i_fence {B = B})
  unfolding process_rv64i_fence
  process_rv64i_fence-Keeps = search stable_rules depth 60

  pub process_rv64i_csr-Keeps : (op : Op) → Keeps P (process_rv64i_csr {B = B} op)
  unfolding process_rv64i_csr
  process_rv64i_csr-Keeps op = search stable_rules depth 60

  pub process_rv64i_csr_imm-Keeps : (op : Op) → Keeps P (process_rv64i_csr_imm {B = B} op)
  unfolding process_rv64i_csr_imm
  process_rv64i_csr_imm-Keeps op = search stable_rules depth 60

  ruleset dispatch_rv64i_rules = (
    stable_rules, process_rv64i_lui-Keeps, process_rv64i_auipc-Keeps, process_rv64i_jal-Keeps,
    process_rv64i_jalr-Keeps, process_rv64i_branch-Keeps, process_rv64i_load-Keeps,
    process_rv64i_store-Keeps, process_rv64i_alu_imm-Keeps, process_rv64i_shift-Keeps,
    process_rv64i_shift_imm-Keeps, process_rv64i_alu-Keeps, process_rv64i_priv-Keeps,
    process_rv64i_fence-Keeps, process_rv64i_csr-Keeps, process_rv64i_csr_imm-Keeps,
  )

  pub dispatch_rv64i-Keeps :
      (e : Environment B) (code : OpCode) (op : Op) (pc : ℕ) → Keeps P (dispatch_rv64i e code op pc)
  unfolding dispatch_rv64i
  dispatch_rv64i-Keeps e lui op pc = search dispatch_rv64i_rules depth 60
  dispatch_rv64i-Keeps e _ op pc = search dispatch_rv64i_rules depth 60

  pub process_rv64i-Keeps : (e : Environment B) (op : Op) (pc : ℕ) → Keeps P (process_rv64i e op pc)
  unfolding process_rv64i
  process_rv64i-Keeps e op pc = search (stable_rules, dispatch_rv64i-Keeps) depth 60
