-- ===== src/Cpu/Executor/Check/System.antt =====
-- src/bin/rafi-emu/cpu/Executor.cpp: PreCheckTrap of the system instructions, and PostCheckTrap.
use rafi_1st.Cpu.Executor.Machine.{Execution, gets, pure, ◌>>=◌}
use rafi_1st.Base.{
  Bool, Option, Result, false, if◌then◌else◌, none, not, not_implemented, ok, some, throw, true, ℕ,
  ◌==◌,
}
use rafi_1st.Cpu.Csr.{Csr, read_status}
use rafi_1st.Decoder.Ops.{
  Op, OpCode, csrrc, csrrci, csrrs, csrrsi, csrrw, csrrwi, ebreak, ecall, mret, sret,
}
use rafi_1st.Cpu.Csr.Access.{check_trap}
use rafi_1st.RvTypes.{PrivilegeLevel, machine, reserved, supervisor, user}
use rafi_1st.Cpu.Trap.{
  Trap, make_breakpoint_exception, make_environment_call_from_machine_exception,
  make_environment_call_from_supervisor_exception, make_environment_call_from_user_exception,
  make_illegal_instruction_exception,
}
use rafi_1st.Cpu.Executor.Operands.{as_csr, as_csr_imm}
use rafi_1st.Cpu.MemoryAccessUnit.{is_nonzero}
use rafi_1st.BitField.{get_member}
use rafi_1st.Cpu.Executor.Steps.{get_csr}
use rafi_1st.RvCsr.Status

-- Does an instruction write the register? CSRRS and CSRRC write if `rs1` is not x0.
abbrev pub writes_csr : OpCode → ℕ → Bool
writes_csr csrrs rs1 = not (rs1 == 0)
writes_csr csrrc rs1 = not (rs1 == 0)
writes_csr csrrw rs1 = true
writes_csr _ rs1 = false

abbrev pub writes_csr_imm : OpCode → ℕ → Bool
writes_csr_imm csrrsi zimm = not (zimm == 0)
writes_csr_imm csrrci zimm = not (zimm == 0)
writes_csr_imm csrrwi zimm = true
writes_csr_imm _ zimm = false

-- `priv` is User, or Supervisor with the status bit set.
abbrev pub is_refused : PrivilegeLevel → Bool → Bool
is_refused user flag = true
is_refused supervisor flag = flag
is_refused reserved flag = false
is_refused machine flag = false

abbrev pub illegal_if : Bool → ℕ → ℕ → Option Trap
illegal_if refused pc insn =
    if refused then some (make_illegal_instruction_exception pc insn) else none

abbrev pub check_wfi : Csr → ℕ → ℕ → Option Trap
check_wfi c pc insn =
    illegal_if (is_refused c.priv (is_nonzero (get_member (read_status c) Status.tw))) pc insn

abbrev pub check_fence : Csr → ℕ → ℕ → Option Trap
check_fence c pc insn =
    illegal_if (is_refused c.priv (is_nonzero (get_member (read_status c) Status.tvm))) pc insn

abbrev pub check_priv : OpCode → Csr → ℕ → ℕ → Option Trap
check_priv mret c pc insn = illegal_if (is_refused c.priv true) pc insn
check_priv sret c pc insn =
    illegal_if (is_refused c.priv (is_nonzero (get_member (read_status c) Status.tsr))) pc insn
check_priv _ c pc insn = none

abbrev pub environment_call : PrivilegeLevel → ℕ → Result (Option Trap)
environment_call machine pc = ok (some (make_environment_call_from_machine_exception pc))
environment_call supervisor pc = ok (some (make_environment_call_from_supervisor_exception pc))
environment_call user pc = ok (some (make_environment_call_from_user_exception pc))
environment_call reserved pc = throw not_implemented

module _ {B : Type 0} where
  unfoldable pub pre_check_trap_csr : Op → ℕ → ℕ → Execution B (Option Trap)
  unfolding check_trap
  pre_check_trap_csr op pc insn = do
    o ← as_csr op.operand
    gets (λ m. check_trap m.csr o.csr (writes_csr op.op_code o.rs1) pc insn)

  unfoldable pub pre_check_trap_csr_imm : Op → ℕ → ℕ → Execution B (Option Trap)
  unfolding check_trap
  pre_check_trap_csr_imm op pc insn = do
    o ← as_csr_imm op.operand
    gets (λ m. check_trap m.csr o.csr (writes_csr_imm op.op_code o.zimm) pc insn)

  unfoldable pub pre_check_trap_wfi : ℕ → ℕ → Execution B (Option Trap)
  pre_check_trap_wfi pc insn = get_csr (λ c. check_wfi c pc insn)

  unfoldable pub pre_check_trap_fence : ℕ → ℕ → Execution B (Option Trap)
  pre_check_trap_fence pc insn = get_csr (λ c. check_fence c pc insn)

  unfoldable pub pre_check_trap_priv : Op → ℕ → ℕ → Execution B (Option Trap)
  pre_check_trap_priv op pc insn = get_csr (λ c. check_priv op.op_code c pc insn)

  -- PostCheckTrap
  unfoldable pub post_check_trap : OpCode → ℕ → Execution B (Option Trap)
  post_check_trap ecall pc = gets (λ m. environment_call m.csr.priv pc)
  post_check_trap ebreak pc = pure (some (make_breakpoint_exception pc))
  post_check_trap _ pc = pure none
