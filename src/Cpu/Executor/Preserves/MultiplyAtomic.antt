-- ===== src/Cpu/Executor/Preserves/MultiplyAtomic.antt =====
-- The multiplications and the atomic operations of src/bin/rafi-emu/cpu/Executor.cpp keep
-- what their parts keep.
use rafi_1st.Cpu.Executor.Keeps.{Keeps}
use rafi_1st.Cpu.Executor.Machine.{Environment, Machine}
use rafi_1st.Cpu.Executor.Stable.{Stable, stable_rules}
use rafi_1st.Cpu.Executor.Multiply.{process_rv32m, process_rv64m}
use rafi_1st.Decoder.Ops.{Op, OpCode, lr_w}
use rafi_1st.Cpu.Executor.Atomic.{
  dispatch_rv32a, dispatch_rv64a, process_rv32a, process_rv32a_atomic, process_rv32a_load,
  process_rv32a_store, process_rv64a, process_rv64a_atomic32, process_rv64a_atomic64,
  process_rv64a_load32, process_rv64a_load64, process_rv64a_store32, process_rv64a_store64,
}

module _ {B : Type 0} {P : Machine B → Type 0} ⦃stable : Stable P⦄ where
  pub process_rv32m-Keeps : (op : Op) → Keeps P (process_rv32m {B = B} op)
  unfolding process_rv32m
  process_rv32m-Keeps op = search stable_rules depth 60

  pub process_rv64m-Keeps : (e : Environment B) (op : Op) → Keeps P (process_rv64m e op)
  unfolding process_rv64m
  process_rv64m-Keeps e op = search stable_rules depth 60

  pub process_rv32a_atomic-Keeps :
      (e : Environment B) (op : Op) → Keeps P (process_rv32a_atomic e op)
  unfolding process_rv32a_atomic
  process_rv32a_atomic-Keeps e op = search stable_rules depth 60

  pub process_rv32a_load-Keeps : (e : Environment B) (op : Op) → Keeps P (process_rv32a_load e op)
  unfolding process_rv32a_load
  process_rv32a_load-Keeps e op = search stable_rules depth 60

  pub process_rv32a_store-Keeps : (e : Environment B) (op : Op) → Keeps P (process_rv32a_store e op)
  unfolding process_rv32a_store
  process_rv32a_store-Keeps e op = search stable_rules depth 60

  pub process_rv64a_atomic32-Keeps :
      (e : Environment B) (op : Op) → Keeps P (process_rv64a_atomic32 e op)
  unfolding process_rv64a_atomic32
  process_rv64a_atomic32-Keeps e op = search stable_rules depth 60

  pub process_rv64a_atomic64-Keeps :
      (e : Environment B) (op : Op) → Keeps P (process_rv64a_atomic64 e op)
  unfolding process_rv64a_atomic64
  process_rv64a_atomic64-Keeps e op = search stable_rules depth 60

  pub process_rv64a_load32-Keeps :
      (e : Environment B) (op : Op) → Keeps P (process_rv64a_load32 e op)
  unfolding process_rv64a_load32
  process_rv64a_load32-Keeps e op = search stable_rules depth 60

  pub process_rv64a_load64-Keeps :
      (e : Environment B) (op : Op) → Keeps P (process_rv64a_load64 e op)
  unfolding process_rv64a_load64
  process_rv64a_load64-Keeps e op = search stable_rules depth 60

  pub process_rv64a_store32-Keeps :
      (e : Environment B) (op : Op) → Keeps P (process_rv64a_store32 e op)
  unfolding process_rv64a_store32
  process_rv64a_store32-Keeps e op = search stable_rules depth 60

  pub process_rv64a_store64-Keeps :
      (e : Environment B) (op : Op) → Keeps P (process_rv64a_store64 e op)
  unfolding process_rv64a_store64
  process_rv64a_store64-Keeps e op = search stable_rules depth 60

  ruleset dispatch_rv32a_rules = (
    stable_rules, process_rv32a_load-Keeps, process_rv32a_store-Keeps, process_rv32a_atomic-Keeps,
  )

  pub dispatch_rv32a-Keeps :
      (e : Environment B) (code : OpCode) (op : Op) → Keeps P (dispatch_rv32a e code op)
  unfolding dispatch_rv32a
  dispatch_rv32a-Keeps e lr_w op = search dispatch_rv32a_rules depth 60
  dispatch_rv32a-Keeps e _ op = search dispatch_rv32a_rules depth 60

  ruleset dispatch_rv64a_rules = (
    stable_rules, process_rv64a_load32-Keeps, process_rv64a_load64-Keeps,
    process_rv64a_store32-Keeps, process_rv64a_store64-Keeps, process_rv64a_atomic32-Keeps,
    process_rv64a_atomic64-Keeps,
  )

  pub dispatch_rv64a-Keeps :
      (e : Environment B) (code : OpCode) (op : Op) → Keeps P (dispatch_rv64a e code op)
  unfolding dispatch_rv64a
  dispatch_rv64a-Keeps e lr_w op = search dispatch_rv64a_rules depth 60
  dispatch_rv64a-Keeps e _ op = search dispatch_rv64a_rules depth 60

  pub process_rv32a-Keeps : (e : Environment B) (op : Op) → Keeps P (process_rv32a e op)
  unfolding process_rv32a
  process_rv32a-Keeps e op = search (stable_rules, dispatch_rv32a-Keeps) depth 60

  pub process_rv64a-Keeps : (e : Environment B) (op : Op) → Keeps P (process_rv64a e op)
  unfolding process_rv64a
  process_rv64a-Keeps e op = search (stable_rules, dispatch_rv64a-Keeps) depth 60
