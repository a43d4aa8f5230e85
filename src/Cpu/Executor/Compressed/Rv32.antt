-- ===== src/Cpu/Executor/Compressed/Rv32.antt =====
-- src/bin/rafi-emu/cpu/Executor.cpp: ProcessRV32C and the methods ProcessRV32C_*. Register 2 is the
-- stack pointer (ReadStackPointer32) and register 1 the link register (WriteLinkRegister32).
use rafi_1st.Cpu.Executor.Steps.{
  cancel_reservation, get_fp32, get_fp64, get_int32, get_uint32, jump_to, put_fp32, put_fp64,
  put_int32, put_uint32,
}
use rafi_1st.Cpu.Executor.Machine.{Environment, Execution, error, lift, pure, ◌>>=◌, ◌>>◌}
use rafi_1st.Decoder.Ops.{
  Op, OpCode, c_add, c_addi, c_addi16sp, c_addi4spn, c_and, c_andi, c_beqz, c_bnez, c_fld, c_fldsp,
  c_flw, c_flwsp, c_fsd, c_fsdsp, c_fsw, c_fswsp, c_j, c_jal, c_jalr, c_jr, c_li, c_lui, c_lw,
  c_lwsp, c_mv, c_nop, c_or, c_slli, c_srai, c_srli, c_sub, c_sw, c_swsp, c_xor,
}
use rafi_1st.Cpu.Executor.Operands.{as_cb, as_ci, as_ciw, as_cj, as_cl, as_cr, as_cs, as_css}
use rafi_1st.Cpu.Executor.MemorySteps.{load32, load64, store32, store64}
use rafi_1st.Word.{is_negative, wrap_add}
use rafi_1st.Base.{bit_and, if◌then◌else◌, ltb, ℕ, ◌-◌, ◌^◌}
use rafi_1st.Cpu.Executor.Integer.Rv32.{branch_to}
use rafi_1st.Cpu.Executor.Compressed.{c_alu32, c_alu_imm32, c_branch_taken}

module _ {B : Type 0} where
  unfoldable pub process_rv32c_alu : Op → Execution B (Unit {0})
  process_rv32c_alu op = do
    o ← as_cr op.operand
    src1 ← get_int32 o.rs1
    src2 ← get_int32 o.rs2
    result ← lift (c_alu32 op.op_code src1 src2)
    put_int32 o.rd result

  unfoldable pub process_rv32c_alu_imm : Op → Execution B (Unit {0})
  process_rv32c_alu_imm op = do
    o ← as_ci op.operand
    src1 ← get_int32 o.rs1
    src1_u ← get_uint32 o.rs1
    result ← lift (c_alu_imm32 op.op_code src1 src1_u o.imm)
    put_int32 o.rd result

  unfoldable pub process_rv32c_branch : Op → ℕ → Execution B (Unit {0})
  process_rv32c_branch op pc = do
    o ← as_cb op.operand
    src1 ← get_int32 o.rs1
    taken ← lift (c_branch_taken op.op_code src1)
    branch_to taken pc o.imm

  unfoldable pub process_rv32c_addi4spn : Op → Execution B (Unit {0})
  process_rv32c_addi4spn op = do
    o ← as_ciw op.operand
    sp ← get_uint32 2
    put_uint32 o.rd (wrap_add 64 sp o.imm)

  unfoldable pub process_rv32c_addi16sp : Op → Execution B (Unit {0})
  process_rv32c_addi16sp op = do
    o ← as_ci op.operand
    sp ← get_uint32 2
    put_uint32 o.rd (wrap_add 64 sp o.imm)

  unfoldable pub process_rv32c_fld : Environment B → Op → Execution B (Unit {0})
  process_rv32c_fld e op = do
    o ← as_cl op.operand
    base ← get_uint32 o.rs1
    value ← load64 e (wrap_add 64 base o.imm)
    put_fp64 o.rd value
    cancel_reservation

  unfoldable pub process_rv32c_fldsp : Environment B → Op → Execution B (Unit {0})
  process_rv32c_fldsp e op = do
    o ← as_ci op.operand
    sp ← get_uint32 2
    value ← load64 e (wrap_add 64 sp o.imm)
    put_fp64 o.rd value
    cancel_reservation

  unfoldable pub process_rv32c_flw : Environment B → Op → Execution B (Unit {0})
  process_rv32c_flw e op = do
    o ← as_cl op.operand
    base ← get_uint32 o.rs1
    value ← load32 e (wrap_add 64 base o.imm)
    put_fp32 o.rd value
    cancel_reservation

  unfoldable pub process_rv32c_flwsp : Environment B → Op → Execution B (Unit {0})
  process_rv32c_flwsp e op = do
    o ← as_ci op.operand
    sp ← get_uint32 2
    value ← load32 e (wrap_add 64 sp o.imm)
    put_fp32 o.rd value
    cancel_reservation

  unfoldable pub process_rv32c_fsd : Environment B → Op → Execution B (Unit {0})
  process_rv32c_fsd e op = do
    o ← as_cs op.operand
    base ← get_uint32 o.rs1
    value ← get_fp64 o.rs2
    store64 e (wrap_add 64 base o.imm) value
    cancel_reservation

  unfoldable pub process_rv32c_fsdsp : Environment B → Op → Execution B (Unit {0})
  process_rv32c_fsdsp e op = do
    o ← as_css op.operand
    sp ← get_uint32 2
    value ← get_fp64 o.rs2
    store64 e (wrap_add 64 sp o.imm) value
    cancel_reservation

  unfoldable pub process_rv32c_fsw : Environment B → Op → Execution B (Unit {0})
  process_rv32c_fsw e op = do
    o ← as_cs op.operand
    base ← get_uint32 o.rs1
    value ← get_fp32 o.rs2
    store32 e (wrap_add 64 base o.imm) value
    cancel_reservation

  unfoldable pub process_rv32c_fswsp : Environment B → Op → Execution B (Unit {0})
  process_rv32c_fswsp e op = do
    o ← as_css op.operand
    sp ← get_uint32 2
    value ← get_fp32 o.rs2
    store32 e (wrap_add 64 sp o.imm) value
    cancel_reservation

  unfoldable pub process_rv32c_j : Op → ℕ → Execution B (Unit {0})
  process_rv32c_j op pc = do
    o ← as_cj op.operand
    jump_to (wrap_add 64 pc o.imm)
    (if is_negative 64 o.imm then cancel_reservation else pure tt)

  unfoldable pub process_rv32c_jal : Op → ℕ → Execution B (Unit {0})
  process_rv32c_jal op pc = do
    o ← as_cj op.operand
    jump_to (wrap_add 64 pc o.imm)
    put_uint32 1 (wrap_add 64 pc 2)
    (if is_negative 64 o.imm then cancel_reservation else pure tt)

  unfoldable pub process_rv32c_jr : Op → ℕ → Execution B (Unit {0})
  process_rv32c_jr op pc = do
    o ← as_cr op.operand
    src ← get_uint32 o.rs1
    let address = bit_and (2 ^ 32 - 2) src
    jump_to address
    (if ltb address pc then cancel_reservation else pure tt)

  unfoldable pub process_rv32c_jalr : Op → ℕ → Execution B (Unit {0})
  process_rv32c_jalr op pc = do
    o ← as_cr op.operand
    src ← get_uint32 o.rs1
    let address = bit_and (2 ^ 32 - 2) src
    jump_to address
    put_uint32 1 (wrap_add 64 pc 2)
    (if ltb address pc then cancel_reservation else pure tt)

  unfoldable pub process_rv32c_lw : Environment B → Op → Execution B (Unit {0})
  process_rv32c_lw e op = do
    o ← as_cl op.operand
    base ← get_uint32 o.rs1
    value ← load32 e (wrap_add 64 base o.imm)
    put_uint32 o.rd value
    cancel_reservation

  unfoldable pub process_rv32c_lwsp : Environment B → Op → Execution B (Unit {0})
  process_rv32c_lwsp e op = do
    o ← as_ci op.operand
    sp ← get_uint32 2
    value ← load32 e (wrap_add 64 sp o.imm)
    put_uint32 o.rd value
    cancel_reservation

  unfoldable pub process_rv32c_sw : Environment B → Op → Execution B (Unit {0})
  process_rv32c_sw e op = do
    o ← as_cs op.operand
    base ← get_uint32 o.rs1
    value ← get_uint32 o.rs2
    store32 e (wrap_add 64 base o.imm) value
    cancel_reservation

  unfoldable pub process_rv32c_swsp : Environment B → Op → Execution B (Unit {0})
  process_rv32c_swsp e op = do
    o ← as_css op.operand
    sp ← get_uint32 2
    value ← get_uint32 o.rs2
    store32 e (wrap_add 64 sp o.imm) value
    cancel_reservation

  -- The `switch` of ProcessRV32C
  unfoldable pub dispatch_rv32c : Environment B → OpCode → Op → ℕ → Execution B (Unit {0})
  dispatch_rv32c e c_nop op pc = pure tt
  dispatch_rv32c e c_mv op pc = process_rv32c_alu op
  dispatch_rv32c e c_add op pc = process_rv32c_alu op
  dispatch_rv32c e c_sub op pc = process_rv32c_alu op
  dispatch_rv32c e c_and op pc = process_rv32c_alu op
  dispatch_rv32c e c_or op pc = process_rv32c_alu op
  dispatch_rv32c e c_xor op pc = process_rv32c_alu op
  dispatch_rv32c e c_li op pc = process_rv32c_alu_imm op
  dispatch_rv32c e c_lui op pc = process_rv32c_alu_imm op
  dispatch_rv32c e c_addi op pc = process_rv32c_alu_imm op
  dispatch_rv32c e c_andi op pc = process_rv32c_alu_imm op
  dispatch_rv32c e c_srli op pc = process_rv32c_alu_imm op
  dispatch_rv32c e c_srai op pc = process_rv32c_alu_imm op
  dispatch_rv32c e c_slli op pc = process_rv32c_alu_imm op
  dispatch_rv32c e c_beqz op pc = process_rv32c_branch op pc
  dispatch_rv32c e c_bnez op pc = process_rv32c_branch op pc
  dispatch_rv32c e c_addi4spn op pc = process_rv32c_addi4spn op
  dispatch_rv32c e c_addi16sp op pc = process_rv32c_addi16sp op
  dispatch_rv32c e c_fld op pc = process_rv32c_fld e op
  dispatch_rv32c e c_fldsp op pc = process_rv32c_fldsp e op
  dispatch_rv32c e c_flw op pc = process_rv32c_flw e op
  dispatch_rv32c e c_flwsp op pc = process_rv32c_flwsp e op
  dispatch_rv32c e c_fsd op pc = process_rv32c_fsd e op
  dispatch_rv32c e c_fsdsp op pc = process_rv32c_fsdsp e op
  dispatch_rv32c e c_fsw op pc = process_rv32c_fsw e op
  dispatch_rv32c e c_fswsp op pc = process_rv32c_fswsp e op
  dispatch_rv32c e c_j op pc = process_rv32c_j op pc
  dispatch_rv32c e c_jal op pc = process_rv32c_jal op pc
  dispatch_rv32c e c_jr op pc = process_rv32c_jr op pc
  dispatch_rv32c e c_jalr op pc = process_rv32c_jalr op pc
  dispatch_rv32c e c_lw op pc = process_rv32c_lw e op
  dispatch_rv32c e c_lwsp op pc = process_rv32c_lwsp e op
  dispatch_rv32c e c_sw op pc = process_rv32c_sw e op
  dispatch_rv32c e c_swsp op pc = process_rv32c_swsp e op
  dispatch_rv32c e _ op pc = error

  unfoldable pub process_rv32c : Environment B → Op → ℕ → Execution B (Unit {0})
  unfolding dispatch_rv32c
  process_rv32c e op pc = do cancel_reservation; dispatch_rv32c e op.op_code op pc
