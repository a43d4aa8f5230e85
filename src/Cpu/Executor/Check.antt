-- ===== src/Cpu/Executor/Check.antt =====
-- src/bin/rafi-emu/cpu/Executor.cpp: PreCheckTrap of the loads, stores and atomic operations. The
-- address of RV32 is a sum of 64 bits, as the store or load makes it.
pub mod Compressed
pub mod System
use rafi_1st.Cpu.Executor.Operands.{as_i, as_r, as_s}
use rafi_1st.Cpu.Executor.Machine.{Environment, Execution, pure, ◌>>=◌, ◌>>◌}
use rafi_1st.Base.{Option, none, some, ℕ}
use rafi_1st.Decoder.Ops.{Op}
use rafi_1st.Cpu.Executor.MemorySteps.{check_access}
use rafi_1st.RvTypes.{load, store}
use rafi_1st.Cpu.Executor.Steps.{get_uint32, get_uint64}
use rafi_1st.Word.{wrap_add}
use rafi_1st.Cpu.Trap.{Trap}

-- The code that follows runs if there is no trap.
abbrev pub unless_trap :
    {B : Type 0} → Option Trap → Execution B (Option Trap) → Execution B (Option Trap)
unless_trap none next = next
unless_trap (some t) next = pure (some t)

module _ {B : Type 0} (e : Environment B) where
  unfoldable pub pre_check_trap_rv32_load : Op → ℕ → Execution B (Option Trap)
  pre_check_trap_rv32_load op pc = do
    o ← as_i op.operand
    base ← get_uint32 o.rs1
    check_access e load pc (wrap_add 64 base o.imm)

  unfoldable pub pre_check_trap_rv32_load_reserved : Op → ℕ → Execution B (Option Trap)
  pre_check_trap_rv32_load_reserved op pc = do
    o ← as_r op.operand
    address ← get_uint32 o.rs1
    check_access e load pc address

  unfoldable pub pre_check_trap_rv32_store : Op → ℕ → Execution B (Option Trap)
  pre_check_trap_rv32_store op pc = do
    o ← as_s op.operand
    base ← get_uint32 o.rs1
    check_access e store pc (wrap_add 64 base o.imm)

  unfoldable pub pre_check_trap_rv32_store_conditional : Op → ℕ → Execution B (Option Trap)
  pre_check_trap_rv32_store_conditional op pc = do
    o ← as_r op.operand
    address ← get_uint32 o.rs1
    check_access e store pc address

  unfoldable pub pre_check_trap_rv32_atomic : Op → ℕ → Execution B (Option Trap)
  pre_check_trap_rv32_atomic op pc = do
    o ← as_r op.operand
    address ← get_uint32 o.rs1
    trap ← check_access e load pc address
    unless_trap trap (check_access e store pc address)

  unfoldable pub pre_check_trap_rv64_load : Op → ℕ → Execution B (Option Trap)
  pre_check_trap_rv64_load op pc = do
    o ← as_i op.operand
    base ← get_uint64 o.rs1
    check_access e load pc (wrap_add 64 base o.imm)

  unfoldable pub pre_check_trap_rv64_load_reserved : Op → ℕ → Execution B (Option Trap)
  pre_check_trap_rv64_load_reserved op pc = do
    o ← as_r op.operand
    address ← get_uint64 o.rs1
    check_access e load pc address

  unfoldable pub pre_check_trap_rv64_store : Op → ℕ → Execution B (Option Trap)
  pre_check_trap_rv64_store op pc = do
    o ← as_s op.operand
    base ← get_uint64 o.rs1
    check_access e store pc (wrap_add 64 base o.imm)

  unfoldable pub pre_check_trap_rv64_store_conditional : Op → ℕ → Execution B (Option Trap)
  pre_check_trap_rv64_store_conditional op pc = do
    o ← as_r op.operand
    address ← get_uint64 o.rs1
    check_access e store pc address

  unfoldable pub pre_check_trap_rv64_atomic : Op → ℕ → Execution B (Option Trap)
  pre_check_trap_rv64_atomic op pc = do
    o ← as_r op.operand
    address ← get_uint64 o.rs1
    trap ← check_access e load pc address
    unless_trap trap (check_access e store pc address)
