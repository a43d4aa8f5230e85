-- ===== src/Cpu/Executor/Run.antt =====
-- src/bin/rafi-emu/cpu/Executor.cpp: PreCheckTrap and ProcessOp.
use rafi_1st.Cpu.Executor.Machine.{Environment, Execution, pure, raise, ◌>>=◌}
use rafi_1st.Decoder.Ops.{
  Op, OpClass, OpCode, amoadd_d, amoadd_w, amoand_d, amoand_w, amomax_d, amomax_w, amomaxu_d,
  amomaxu_w, amomin_d, amomin_w, amominu_d, amominu_w, amoor_d, amoor_w, amoswap_d, amoswap_w,
  amoxor_d, amoxor_w, csrrc, csrrci, csrrs, csrrsi, csrrw, csrrwi, fld, flw, fsd, fsw, lb, lbu, ld,
  lh, lhu, lr_d, lr_w, lw, lwu, mret, rv32a, rv32c, rv32d, rv32f, rv32i, rv32m, rv64a, rv64c, rv64d,
  rv64f, rv64i, rv64m, sb, sc_d, sc_w, sd, sfence_vma, sh, sret, sw, uret, wfi,
}
use rafi_1st.Base.{Bool, Option, exited, false, if◌then◌else◌, none, some, true, ℕ}
use rafi_1st.Cpu.Executor.Check.{
  pre_check_trap_rv32_atomic, pre_check_trap_rv32_load, pre_check_trap_rv32_load_reserved,
  pre_check_trap_rv32_store, pre_check_trap_rv32_store_conditional, pre_check_trap_rv64_atomic,
  pre_check_trap_rv64_load, pre_check_trap_rv64_load_reserved, pre_check_trap_rv64_store,
  pre_check_trap_rv64_store_conditional,
}
use rafi_1st.Cpu.Executor.Check.Compressed.{pre_check_trap_rv32c, pre_check_trap_rv64c}
use rafi_1st.Cpu.Executor.Check.System.{
  pre_check_trap_csr, pre_check_trap_csr_imm, pre_check_trap_fence, pre_check_trap_priv,
  pre_check_trap_wfi,
}
use rafi_1st.Cpu.Executor.Multiply.{process_rv32m, process_rv64m}
use rafi_1st.Cpu.Executor.Float.{is_fp_enabled}
use rafi_1st.Cpu.Executor.Float.Single.{process_rvf}
use rafi_1st.Cpu.Executor.Integer.Rv32.{process_rv32i}
use rafi_1st.Cpu.Executor.Integer.Rv64.{process_rv64i}
use rafi_1st.Cpu.Executor.Atomic.{process_rv32a, process_rv64a}
use rafi_1st.Cpu.Executor.Compressed.Rv32.{process_rv32c}
use rafi_1st.Cpu.Trap.{Trap, make_illegal_instruction_exception}
use rafi_1st.Cpu.Executor.Float.Double.{process_rvd}
use rafi_1st.Cpu.Executor.Compressed.Rv64.{process_rv64c}

abbrev pub is_rv32 : OpClass → Bool
is_rv32 rv32i = true
is_rv32 rv32m = true
is_rv32 rv32a = true
is_rv32 rv32f = true
is_rv32 rv32d = true
is_rv32 rv32c = true
is_rv32 _ = false

abbrev pub is_rv64 : OpClass → Bool
is_rv64 rv64i = true
is_rv64 rv64m = true
is_rv64 rv64a = true
is_rv64 rv64f = true
is_rv64 rv64d = true
is_rv64 rv64c = true
is_rv64 _ = false

module _ {B : Type 0} where
  -- `if (IsRV32(op.opClass)) ... else if (IsRV64(op.opClass)) ... else`
  abbrev pub by_base :
      OpClass → Execution B (Option Trap) → Execution B (Option Trap) → Execution B (Option Trap)
  by_base op_class of_rv32 of_rv64 =
      if is_rv32 op_class then of_rv32 else if is_rv64 op_class then of_rv64 else raise exited

  -- The second `switch` of PreCheckTrap, on the operation's code
  unfoldable pub pre_check_trap_code :
      Environment B → OpCode → Op → ℕ → ℕ → Execution B (Option Trap)
  pre_check_trap_code e lb op pc insn =
      by_base op.op_class (pre_check_trap_rv32_load e op pc) (pre_check_trap_rv64_load e op pc)
  pre_check_trap_code e lh op pc insn =
      by_base op.op_class (pre_check_trap_rv32_load e op pc) (pre_check_trap_rv64_load e op pc)
  pre_check_trap_code e lw op pc insn =
      by_base op.op_class (pre_check_trap_rv32_load e op pc) (pre_check_trap_rv64_load e op pc)
  pre_check_trap_code e lbu op pc insn =
      by_base op.op_class (pre_check_trap_rv32_load e op pc) (pre_check_trap_rv64_load e op pc)
  pre_check_trap_code e lhu op pc insn =
      by_base op.op_class (pre_check_trap_rv32_load e op pc) (pre_check_trap_rv64_load e op pc)
  pre_check_trap_code e lwu op pc insn =
      by_base op.op_class (pre_check_trap_rv32_load e op pc) (pre_check_trap_rv64_load e op pc)
  pre_check_trap_code e ld op pc insn =
      by_base op.op_class (pre_check_trap_rv32_load e op pc) (pre_check_trap_rv64_load e op pc)
  pre_check_trap_code e flw op pc insn =
      by_base op.op_class (pre_check_trap_rv32_load e op pc) (pre_check_trap_rv64_load e op pc)
  pre_check_trap_code e fld op pc insn =
      by_base op.op_class (pre_check_trap_rv32_load e op pc) (pre_check_trap_rv64_load e op pc)
  pre_check_trap_code e sb op pc insn =
      by_base op.op_class (pre_check_trap_rv32_store e op pc) (pre_check_trap_rv64_store e op pc)
  pre_check_trap_code e sh op pc insn =
      by_base op.op_class (pre_check_trap_rv32_store e op pc) (pre_check_trap_rv64_store e op pc)
  pre_check_trap_code e sw op pc insn =
      by_base op.op_class (pre_check_trap_rv32_store e op pc) (pre_check_trap_rv64_store e op pc)
  pre_check_trap_code e sd op pc insn =
      by_base op.op_class (pre_check_trap_rv32_store e op pc) (pre_check_trap_rv64_store e op pc)
  pre_check_trap_code e fsw op pc insn =
      by_base op.op_class (pre_check_trap_rv32_store e op pc) (pre_check_trap_rv64_store e op pc)
  pre_check_trap_code e fsd op pc insn =
      by_base op.op_class (pre_check_trap_rv32_store e op pc) (pre_check_trap_rv64_store e op pc)
  pre_check_trap_code e csrrw op pc insn = pre_check_trap_csr op pc insn
  pre_check_trap_code e csrrs op pc insn = pre_check_trap_csr op pc insn
  pre_check_trap_code e csrrc op pc insn = pre_check_trap_csr op pc insn
  pre_check_trap_code e csrrwi op pc insn = pre_check_trap_csr_imm op pc insn
  pre_check_trap_code e csrrsi op pc insn = pre_check_trap_csr_imm op pc insn
  pre_check_trap_code e csrrci op pc insn = pre_check_trap_csr_imm op pc insn
  pre_check_trap_code e wfi op pc insn = pre_check_trap_wfi pc insn
  pre_check_trap_code e sfence_vma op pc insn = pre_check_trap_fence pc insn
  pre_check_trap_code e mret op pc insn = pre_check_trap_priv op pc insn
  pre_check_trap_code e sret op pc insn = pre_check_trap_priv op pc insn
  pre_check_trap_code e uret op pc insn = pre_check_trap_priv op pc insn
  pre_check_trap_code e lr_d op pc insn =
      by_base op.op_class (pre_check_trap_rv32_load_reserved e op pc)
        (pre_check_trap_rv64_load_reserved e op pc)
  pre_check_trap_code e lr_w op pc insn =
      by_base op.op_class (pre_check_trap_rv32_load_reserved e op pc)
        (pre_check_trap_rv64_load_reserved e op pc)
  pre_check_trap_code e sc_d op pc insn =
      by_base op.op_class (pre_check_trap_rv32_store_conditional e op pc)
        (pre_check_trap_rv64_store_conditional e op pc)
  pre_check_trap_code e sc_w op pc insn =
      by_base op.op_class (pre_check_trap_rv32_store_conditional e op pc)
        (pre_check_trap_rv64_store_conditional e op pc)
  pre_check_trap_code e amoswap_d op pc insn =
      by_base op.op_class (pre_check_trap_rv32_atomic e op pc) (pre_check_trap_rv64_atomic e op pc)
  pre_check_trap_code e amoswap_w op pc insn =
      by_base op.op_class (pre_check_trap_rv32_atomic e op pc) (pre_check_trap_rv64_atomic e op pc)
  pre_check_trap_code e amoadd_d op pc insn =
      by_base op.op_class (pre_check_trap_rv32_atomic e op pc) (pre_check_trap_rv64_atomic e op pc)
  pre_check_trap_code e amoadd_w op pc insn =
      by_base op.op_class (pre_check_trap_rv32_atomic e op pc) (pre_check_trap_rv64_atomic e op pc)
  pre_check_trap_code e amoxor_d op pc insn =
      by_base op.op_class (pre_check_trap_rv32_atomic e op pc) (pre_check_trap_rv64_atomic e op pc)
  pre_check_trap_code e amoxor_w op pc insn =
      by_base op.op_class (pre_check_trap_rv32_atomic e op pc) (pre_check_trap_rv64_atomic e op pc)
  pre_check_trap_code e amoand_d op pc insn =
      by_base op.op_class (pre_check_trap_rv32_atomic e op pc) (pre_check_trap_rv64_atomic e op pc)
  pre_check_trap_code e amoand_w op pc insn =
      by_base op.op_class (pre_check_trap_rv32_atomic e op pc) (pre_check_trap_rv64_atomic e op pc)
  pre_check_trap_code e amoor_d op pc insn =
      by_base op.op_class (pre_check_trap_rv32_atomic e op pc) (pre_check_trap_rv64_atomic e op pc)
  pre_check_trap_code e amoor_w op pc insn =
      by_base op.op_class (pre_check_trap_rv32_atomic e op pc) (pre_check_trap_rv64_atomic e op pc)
  pre_check_trap_code e amomax_d op pc insn =
      by_base op.op_class (pre_check_trap_rv32_atomic e op pc) (pre_check_trap_rv64_atomic e op pc)
  pre_check_trap_code e amomax_w op pc insn =
      by_base op.op_class (pre_check_trap_rv32_atomic e op pc) (pre_check_trap_rv64_atomic e op pc)
  pre_check_trap_code e amomin_d op pc insn =
      by_base op.op_class (pre_check_trap_rv32_atomic e op pc) (pre_check_trap_rv64_atomic e op pc)
  pre_check_trap_code e amomin_w op pc insn =
      by_base op.op_class (pre_check_trap_rv32_atomic e op pc) (pre_check_trap_rv64_atomic e op pc)
  pre_check_trap_code e amomaxu_d op pc insn =
      by_base op.op_class (pre_check_trap_rv32_atomic e op pc) (pre_check_trap_rv64_atomic e op pc)
  pre_check_trap_code e amomaxu_w op pc insn =
      by_base op.op_class (pre_check_trap_rv32_atomic e op pc) (pre_check_trap_rv64_atomic e op pc)
  pre_check_trap_code e amominu_d op pc insn =
      by_base op.op_class (pre_check_trap_rv32_atomic e op pc) (pre_check_trap_rv64_atomic e op pc)
  pre_check_trap_code e amominu_w op pc insn =
      by_base op.op_class (pre_check_trap_rv32_atomic e op pc) (pre_check_trap_rv64_atomic e op pc)
  pre_check_trap_code e _ op pc insn = pure none

  -- The class is one of floating point: an operation that is not enabled is illegal.
  unfoldable pub pre_check_trap_fp : Environment B → Op → ℕ → ℕ → Execution B (Option Trap)
  unfolding pre_check_trap_code
  pre_check_trap_fp e op pc insn = do
    enabled ← is_fp_enabled
    (if enabled
        then pre_check_trap_code e op.op_code op pc insn
        else pure (some (make_illegal_instruction_exception pc insn)))

  -- The first `switch`, on the class
  unfoldable pub pre_check_trap_class :
      Environment B → OpClass → Op → ℕ → ℕ → Execution B (Option Trap)
  unfolding pre_check_trap_code pre_check_trap_fp
  pre_check_trap_class e rv32c op pc insn = pre_check_trap_rv32c e op.op_code op pc
  pre_check_trap_class e rv64c op pc insn = pre_check_trap_rv64c e op.op_code op pc
  pre_check_trap_class e rv32f op pc insn = pre_check_trap_fp e op pc insn
  pre_check_trap_class e rv32d op pc insn = pre_check_trap_fp e op pc insn
  pre_check_trap_class e rv64f op pc insn = pre_check_trap_fp e op pc insn
  pre_check_trap_class e rv64d op pc insn = pre_check_trap_fp e op pc insn
  pre_check_trap_class e _ op pc insn = pre_check_trap_code e op.op_code op pc insn

  unfoldable pub pre_check_trap : Environment B → Op → ℕ → ℕ → Execution B (Option Trap)
  unfolding pre_check_trap_class
  pre_check_trap e op pc insn = pre_check_trap_class e op.op_class op pc insn

  -- ProcessOp; every class has its case.
  unfoldable pub process_class : Environment B → OpClass → Op → ℕ → Execution B (Unit {0})
  process_class e rv32i op pc = process_rv32i e op pc
  process_class e rv32m op pc = process_rv32m op
  process_class e rv32c op pc = process_rv32c e op pc
  process_class e rv64i op pc = process_rv64i e op pc
  process_class e rv64m op pc = process_rv64m e op
  process_class e rv64c op pc = process_rv64c e op pc
  process_class e rv32a op pc = process_rv32a e op
  process_class e rv64a op pc = process_rv64a e op
  process_class e rv32f op pc = process_rvf e op
  process_class e rv64f op pc = process_rvf e op
  process_class e rv32d op pc = process_rvd e op
  process_class e rv64d op pc = process_rvd e op

  unfoldable pub process_op : Environment B → Op → ℕ → Execution B (Unit {0})
  unfolding process_class
  process_op e op pc = process_class e op.op_class op pc
