-- ===== src/Cpu/Executor/Check/Compressed.antt =====
-- src/bin/rafi-emu/cpu/Executor.cpp: PreCheckTrapRV32C and PreCheckTrapRV64C.
use rafi_1st.Cpu.Executor.Machine.{Environment, Execution, pure, ◌>>=◌}
use rafi_1st.Base.{Option, none, ℕ}
use rafi_1st.Cpu.Executor.MemorySteps.{check_access}
use rafi_1st.Cpu.Executor.Steps.{get_fp32, get_fp64, get_uint32, get_uint64}
use rafi_1st.Cpu.Executor.Operands.{as_ci, as_cl, as_cs, as_css}
use rafi_1st.Decoder.Ops.{
  Op, OpCode, c_fld, c_fldsp, c_flw, c_flwsp, c_fsd, c_fsdsp, c_fsw, c_fswsp, c_ld, c_ldsp, c_lw,
  c_lwsp, c_sd, c_sdsp, c_sw, c_swsp,
}
use rafi_1st.Word.{wrap_add}
use rafi_1st.RvTypes.{load, store}
use rafi_1st.Cpu.Trap.{Trap}

module _ {B : Type 0} (e : Environment B) where
  unfoldable pub pre_check_trap_rv32c_fld : Op → ℕ → Execution B (Option Trap)
  pre_check_trap_rv32c_fld op pc = do
    o ← as_cl op.operand
    base ← get_uint32 o.rs1
    check_access e load pc (wrap_add 64 base o.imm)

  unfoldable pub pre_check_trap_rv32c_fldsp : Op → ℕ → Execution B (Option Trap)
  pre_check_trap_rv32c_fldsp op pc = do
    o ← as_ci op.operand
    sp ← get_uint32 2
    check_access e load pc (wrap_add 64 sp o.imm)

  unfoldable pub pre_check_trap_rv32c_flw : Op → ℕ → Execution B (Option Trap)
  pre_check_trap_rv32c_flw op pc = do
    o ← as_cl op.operand
    base ← get_uint32 o.rs1
    check_access e load pc (wrap_add 64 base o.imm)

  unfoldable pub pre_check_trap_rv32c_flwsp : Op → ℕ → Execution B (Option Trap)
  pre_check_trap_rv32c_flwsp op pc = do
    o ← as_ci op.operand
    sp ← get_uint32 2
    check_access e load pc (wrap_add 64 sp o.imm)

  unfoldable pub pre_check_trap_rv32c_fsd : Op → ℕ → Execution B (Option Trap)
  pre_check_trap_rv32c_fsd op pc = do
    o ← as_cs op.operand
    base ← get_uint32 o.rs1
    value ← get_fp64 o.rs2
    check_access e store pc (wrap_add 64 base o.imm)

  unfoldable pub pre_check_trap_rv32c_fsdsp : Op → ℕ → Execution B (Option Trap)
  pre_check_trap_rv32c_fsdsp op pc = do
    o ← as_css op.operand
    sp ← get_uint32 2
    value ← get_fp64 o.rs2
    check_access e store pc (wrap_add 64 sp o.imm)

  unfoldable pub pre_check_trap_rv32c_fsw : Op → ℕ → Execution B (Option Trap)
  pre_check_trap_rv32c_fsw op pc = do
    o ← as_cs op.operand
    base ← get_uint32 o.rs1
    value ← get_fp32 o.rs2
    check_access e store pc (wrap_add 64 base o.imm)

  unfoldable pub pre_check_trap_rv32c_fswsp : Op → ℕ → Execution B (Option Trap)
  pre_check_trap_rv32c_fswsp op pc = do
    o ← as_css op.operand
    sp ← get_uint32 2
    value ← get_fp32 o.rs2
    check_access e store pc (wrap_add 64 sp o.imm)

  unfoldable pub pre_check_trap_rv32c_lw : Op → ℕ → Execution B (Option Trap)
  pre_check_trap_rv32c_lw op pc = do
    o ← as_cl op.operand
    base ← get_uint32 o.rs1
    check_access e load pc (wrap_add 64 base o.imm)

  unfoldable pub pre_check_trap_rv32c_lwsp : Op → ℕ → Execution B (Option Trap)
  pre_check_trap_rv32c_lwsp op pc = do
    o ← as_ci op.operand
    sp ← get_uint32 2
    check_access e load pc (wrap_add 64 sp o.imm)

  unfoldable pub pre_check_trap_rv32c_sw : Op → ℕ → Execution B (Option Trap)
  pre_check_trap_rv32c_sw op pc = do
    o ← as_cs op.operand
    base ← get_uint32 o.rs1
    check_access e store pc (wrap_add 64 base o.imm)

  unfoldable pub pre_check_trap_rv32c_swsp : Op → ℕ → Execution B (Option Trap)
  pre_check_trap_rv32c_swsp op pc = do
    o ← as_css op.operand
    sp ← get_uint32 2
    check_access e store pc (wrap_add 64 sp o.imm)

  unfoldable pub pre_check_trap_rv64c_fld : Op → ℕ → Execution B (Option Trap)
  pre_check_trap_rv64c_fld op pc = do
    o ← as_cl op.operand
    base ← get_uint64 o.rs1
    check_access e load pc (wrap_add 64 base o.imm)

  unfoldable pub pre_check_trap_rv64c_fldsp : Op → ℕ → Execution B (Option Trap)
  pre_check_trap_rv64c_fldsp op pc = do
    o ← as_ci op.operand
    sp ← get_uint64 2
    check_access e load pc (wrap_add 64 sp o.imm)

  unfoldable pub pre_check_trap_rv64c_fsd : Op → ℕ → Execution B (Option Trap)
  pre_check_trap_rv64c_fsd op pc = do
    o ← as_cs op.operand
    base ← get_uint64 o.rs1
    check_access e store pc (wrap_add 64 base o.imm)

  unfoldable pub pre_check_trap_rv64c_fsdsp : Op → ℕ → Execution B (Option Trap)
  pre_check_trap_rv64c_fsdsp op pc = do
    o ← as_css op.operand
    sp ← get_uint64 2
    check_access e store pc (wrap_add 64 sp o.imm)

  unfoldable pub pre_check_trap_rv64c_ld : Op → ℕ → Execution B (Option Trap)
  pre_check_trap_rv64c_ld op pc = do
    o ← as_cl op.operand
    base ← get_uint64 o.rs1
    check_access e load pc (wrap_add 64 base o.imm)

  unfoldable pub pre_check_trap_rv64c_ldsp : Op → ℕ → Execution B (Option Trap)
  pre_check_trap_rv64c_ldsp op pc = do
    o ← as_ci op.operand
    sp ← get_uint64 2
    check_access e load pc (wrap_add 64 sp o.imm)

  unfoldable pub pre_check_trap_rv64c_lw : Op → ℕ → Execution B (Option Trap)
  pre_check_trap_rv64c_lw op pc = do
    o ← as_cl op.operand
    base ← get_uint64 o.rs1
    check_access e load pc (wrap_add 64 base o.imm)

  unfoldable pub pre_check_trap_rv64c_lwsp : Op → ℕ → Execution B (Option Trap)
  pre_check_trap_rv64c_lwsp op pc = do
    o ← as_ci op.operand
    sp ← get_uint64 2
    check_access e load pc (wrap_add 64 sp o.imm)

  unfoldable pub pre_check_trap_rv64c_sd : Op → ℕ → Execution B (Option Trap)
  pre_check_trap_rv64c_sd op pc = do
    o ← as_cs op.operand
    base ← get_uint64 o.rs1
    check_access e store pc (wrap_add 64 base o.imm)

  unfoldable pub pre_check_trap_rv64c_sdsp : Op → ℕ → Execution B (Option Trap)
  pre_check_trap_rv64c_sdsp op pc = do
    o ← as_css op.operand
    sp ← get_uint64 2
    check_access e store pc (wrap_add 64 sp o.imm)

  unfoldable pub pre_check_trap_rv64c_sw : Op → ℕ → Execution B (Option Trap)
  pre_check_trap_rv64c_sw op pc = do
    o ← as_cs op.operand
    base ← get_uint64 o.rs1
    check_access e store pc (wrap_add 64 base o.imm)

  unfoldable pub pre_check_trap_rv64c_swsp : Op → ℕ → Execution B (Option Trap)
  pre_check_trap_rv64c_swsp op pc = do
    o ← as_css op.operand
    sp ← get_uint64 2
    check_access e store pc (wrap_add 64 sp o.imm)

  unfoldable pub pre_check_trap_rv32c : OpCode → Op → ℕ → Execution B (Option Trap)
  pre_check_trap_rv32c c_fld op pc = pre_check_trap_rv32c_fld op pc
  pre_check_trap_rv32c c_fldsp op pc = pre_check_trap_rv32c_fldsp op pc
  pre_check_trap_rv32c c_flw op pc = pre_check_trap_rv32c_flw op pc
  pre_check_trap_rv32c c_flwsp op pc = pre_check_trap_rv32c_flwsp op pc
  pre_check_trap_rv32c c_fsd op pc = pre_check_trap_rv32c_fsd op pc
  pre_check_trap_rv32c c_fsdsp op pc = pre_check_trap_rv32c_fsdsp op pc
  pre_check_trap_rv32c c_fsw op pc = pre_check_trap_rv32c_fsw op pc
  pre_check_trap_rv32c c_fswsp op pc = pre_check_trap_rv32c_fswsp op pc
  pre_check_trap_rv32c c_lw op pc = pre_check_trap_rv32c_lw op pc
  pre_check_trap_rv32c c_lwsp op pc = pre_check_trap_rv32c_lwsp op pc
  pre_check_trap_rv32c c_sw op pc = pre_check_trap_rv32c_sw op pc
  pre_check_trap_rv32c c_swsp op pc = pre_check_trap_rv32c_swsp op pc
  pre_check_trap_rv32c _ op pc = pure none

  unfoldable pub pre_check_trap_rv64c : OpCode → Op → ℕ → Execution B (Option Trap)
  pre_check_trap_rv64c c_fld op pc = pre_check_trap_rv64c_fld op pc
  pre_check_trap_rv64c c_fldsp op pc = pre_check_trap_rv64c_fldsp op pc
  pre_check_trap_rv64c c_fsd op pc = pre_check_trap_rv64c_fsd op pc
  pre_check_trap_rv64c c_fsdsp op pc = pre_check_trap_rv64c_fsdsp op pc
  pre_check_trap_rv64c c_ld op pc = pre_check_trap_rv64c_ld op pc
  pre_check_trap_rv64c c_ldsp op pc = pre_check_trap_rv64c_ldsp op pc
  pre_check_trap_rv64c c_lw op pc = pre_check_trap_rv64c_lw op pc
  pre_check_trap_rv64c c_lwsp op pc = pre_check_trap_rv64c_lwsp op pc
  pre_check_trap_rv64c c_sd op pc = pre_check_trap_rv64c_sd op pc
  pre_check_trap_rv64c c_sdsp op pc = pre_check_trap_rv64c_sdsp op pc
  pre_check_trap_rv64c c_sw op pc = pre_check_trap_rv64c_sw op pc
  pre_check_trap_rv64c c_swsp op pc = pre_check_trap_rv64c_swsp op pc
  pre_check_trap_rv64c _ op pc = pure none
