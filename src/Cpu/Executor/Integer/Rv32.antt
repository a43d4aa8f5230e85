-- ===== src/Cpu/Executor/Integer/Rv32.antt =====
-- src/bin/rafi-emu/cpu/Executor.cpp: ProcessRV32I and the methods ProcessRV32I_*.
use rafi_1st.Decoder.Ops.{
  Op, OpCode, add, addi, and_, andi, auipc, beq, bge, bgeu, blt, bltu, bne, csrrc, csrrci, csrrs,
  csrrsi, csrrw, csrrwi, ebreak, ecall, fence, fence_i, jal, jalr, lb, lbu, lh, lhu, lui, lw, mret,
  or_, ori, sb, sfence_vma, sh, sll, slli, slt, slti, sltiu, sltu, sra, srai, sret, srl, srli, sub,
  sw, uret, wfi, xor_, xori,
}
use rafi_1st.Cpu.Executor.Machine.{Environment, Execution, error, lift, pure, ◌>>=◌, ◌>>◌}
use rafi_1st.Cpu.Executor.Operands.{
  as_b, as_csr, as_csr_imm, as_i, as_j, as_r, as_s, as_shift_imm, as_u,
}
use rafi_1st.Cpu.Executor.MemorySteps.{load16, load32, load8, store16, store32, store8, trap_return}
use rafi_1st.Cpu.Executor.Integer.{
  alu32, alu_imm32, branch_taken, csr_imm_value32, csr_value32, shift32, shift_imm32,
}
use rafi_1st.RvTypes.{machine, supervisor, user}
use rafi_1st.Word.{is_negative, sign_cast, wrap_add}
use rafi_1st.Cpu.Executor.Steps.{
  cancel_reservation, get_csr, get_int32, get_uint32, jump_to, put_csr32, put_int32, put_uint32,
}
use rafi_1st.Base.{Bool, bit_and, if◌then◌else◌, ℕ, ◌%◌, ◌-◌, ◌^◌}
use rafi_1st.Util.{int32_to_uint64}
use rafi_1st.Cpu.Csr.Read.{read_uint32}

module _ {B : Type 0} where
  unfoldable pub process_rv32i_lui : Op → Execution B (Unit {0})
  process_rv32i_lui op = do o ← as_u op.operand; put_int32 o.rd o.imm

  unfoldable pub process_rv32i_auipc : Op → ℕ → Execution B (Unit {0})
  process_rv32i_auipc op pc = do o ← as_u op.operand; put_int32 o.rd (wrap_add 64 pc o.imm)

  unfoldable pub process_rv32i_jal : Op → ℕ → Execution B (Unit {0})
  process_rv32i_jal op pc = do
    o ← as_j op.operand
    put_int32 o.rd (wrap_add 64 pc 4)
    jump_to (wrap_add 64 pc o.imm)

  unfoldable pub process_rv32i_jalr : Op → ℕ → Execution B (Unit {0})
  process_rv32i_jalr op pc = do
    o ← as_i op.operand
    src ← get_int32 o.rs1
    let address = bit_and (2 ^ 64 - 2) (wrap_add 64 (int32_to_uint64 src) o.imm)
    put_int32 o.rd (wrap_add 64 pc 4)
    jump_to address

  -- The jump of a branch that is taken; a backward one cancels the reservation.
  unfoldable pub branch_to : Bool → ℕ → ℕ → Execution B (Unit {0})
  branch_to jump pc imm =
      if jump
      then (do
        jump_to (wrap_add 64 pc imm)
        (if is_negative 64 imm then cancel_reservation else pure tt))
      else pure tt

  unfoldable pub process_rv32i_branch : Op → ℕ → Execution B (Unit {0})
  unfolding branch_to
  process_rv32i_branch op pc = do
    o ← as_b op.operand
    src1 ← get_int32 o.rs1
    src2 ← get_int32 o.rs2
    src1_u ← get_uint32 o.rs1
    src2_u ← get_uint32 o.rs2
    jump ← lift (branch_taken 32 op.op_code src1 src2 src1_u src2_u)
    branch_to jump pc o.imm

  -- The `switch` of the loads
  unfoldable pub load_value32 : Environment B → OpCode → ℕ → Execution B ℕ
  load_value32 e lb address = do v ← load8 e address; pure (sign_cast 8 32 v)
  load_value32 e lh address = do v ← load16 e address; pure (sign_cast 16 32 v)
  load_value32 e lw address = load32 e address
  load_value32 e lbu address = load8 e address
  load_value32 e lhu address = load16 e address
  load_value32 e _ address = error

  unfoldable pub process_rv32i_load : Environment B → Op → Execution B (Unit {0})
  unfolding load_value32
  process_rv32i_load e op = do
    cancel_reservation
    o ← as_i op.operand
    base ← get_uint32 o.rs1
    value ← load_value32 e op.op_code (wrap_add 64 base o.imm)
    put_uint32 o.rd value

  -- The `switch` of the stores
  unfoldable pub store_value32 : Environment B → OpCode → ℕ → ℕ → Execution B (Unit {0})
  store_value32 e sb address value = store8 e address (value % 2 ^ 8)
  store_value32 e sh address value = store16 e address (value % 2 ^ 16)
  store_value32 e sw address value = store32 e address (value % 2 ^ 32)
  store_value32 e _ address value = error

  unfoldable pub process_rv32i_store : Environment B → Op → Execution B (Unit {0})
  unfolding store_value32
  process_rv32i_store e op = do
    cancel_reservation
    o ← as_s op.operand
    base ← get_uint32 o.rs1
    value ← get_uint32 o.rs2
    store_value32 e op.op_code (wrap_add 64 base o.imm) value

  unfoldable pub process_rv32i_alu : Op → Execution B (Unit {0})
  process_rv32i_alu op = do
    o ← as_r op.operand
    src1 ← get_int32 o.rs1
    src2 ← get_int32 o.rs2
    src1_u ← get_uint32 o.rs1
    src2_u ← get_uint32 o.rs2
    value ← lift (alu32 op.op_code src1 src2 src1_u src2_u)
    put_int32 o.rd value

  unfoldable pub process_rv32i_alu_imm : Op → Execution B (Unit {0})
  process_rv32i_alu_imm op = do
    o ← as_i op.operand
    let imm = o.imm % 2 ^ 32
    src1 ← get_int32 o.rs1
    src1_u ← get_uint32 o.rs1
    value ← lift (alu_imm32 op.op_code src1 imm src1_u imm)
    put_int32 o.rd value

  unfoldable pub process_rv32i_shift : Op → Execution B (Unit {0})
  process_rv32i_shift op = do
    o ← as_r op.operand
    src1 ← get_int32 o.rs1
    src2 ← get_int32 o.rs2
    src1_u ← get_uint32 o.rs1
    value ← lift (shift32 op.op_code src1 src1_u src2)
    put_int32 o.rd value

  unfoldable pub process_rv32i_shift_imm : Op → Execution B (Unit {0})
  process_rv32i_shift_imm op = do
    o ← as_shift_imm op.operand
    src1 ← get_int32 o.rs1
    src1_u ← get_uint32 o.rs1
    value ← lift (shift_imm32 op.op_code src1 src1_u o.shamt)
    put_int32 o.rd value

  -- The `switch` of the privileged instructions, which both widths have
  unfoldable pub run_priv : OpCode → Execution B (Unit {0})
  run_priv ecall = pure tt
  run_priv ebreak = pure tt
  run_priv mret = trap_return machine
  run_priv sret = trap_return supervisor
  run_priv uret = trap_return user
  run_priv wfi = pure tt
  run_priv _ = error

  unfoldable pub process_rv32i_priv : Op → Execution B (Unit {0})
  unfolding run_priv
  process_rv32i_priv op = do cancel_reservation; run_priv op.op_code

  unfoldable pub process_rv32i_fence : Execution B (Unit {0})
  process_rv32i_fence = cancel_reservation

  unfoldable pub process_rv32i_csr : Op → Execution B (Unit {0})
  process_rv32i_csr op = do
    o ← as_csr op.operand
    src_csr ← get_csr (λ c. read_uint32 c o.csr)
    src_int_reg ← get_int32 o.rs1
    value ← lift (csr_value32 op.op_code src_csr src_int_reg)
    put_csr32 o.csr value
    put_int32 o.rd src_csr

  unfoldable pub process_rv32i_csr_imm : Op → Execution B (Unit {0})
  process_rv32i_csr_imm op = do
    o ← as_csr_imm op.operand
    src_csr ← get_csr (λ c. read_uint32 c o.csr)
    value ← lift (csr_imm_value32 op.op_code src_csr o.zimm)
    put_csr32 o.csr value
    put_int32 o.rd src_csr

  -- The `switch` of ProcessRV32I on the operation's code
  unfoldable pub dispatch_rv32i : Environment B → OpCode → Op → ℕ → Execution B (Unit {0})
  dispatch_rv32i e lui op pc = process_rv32i_lui op
  dispatch_rv32i e auipc op pc = process_rv32i_auipc op pc
  dispatch_rv32i e jal op pc = process_rv32i_jal op pc
  dispatch_rv32i e jalr op pc = process_rv32i_jalr op pc
  dispatch_rv32i e beq op pc = process_rv32i_branch op pc
  dispatch_rv32i e bne op pc = process_rv32i_branch op pc
  dispatch_rv32i e blt op pc = process_rv32i_branch op pc
  dispatch_rv32i e bge op pc = process_rv32i_branch op pc
  dispatch_rv32i e bltu op pc = process_rv32i_branch op pc
  dispatch_rv32i e bgeu op pc = process_rv32i_branch op pc
  dispatch_rv32i e lb op pc = process_rv32i_load e op
  dispatch_rv32i e lh op pc = process_rv32i_load e op
  dispatch_rv32i e lw op pc = process_rv32i_load e op
  dispatch_rv32i e lbu op pc = process_rv32i_load e op
  dispatch_rv32i e lhu op pc = process_rv32i_load e op
  dispatch_rv32i e sb op pc = process_rv32i_store e op
  dispatch_rv32i e sh op pc = process_rv32i_store e op
  dispatch_rv32i e sw op pc = process_rv32i_store e op
  dispatch_rv32i e addi op pc = process_rv32i_alu_imm op
  dispatch_rv32i e slti op pc = process_rv32i_alu_imm op
  dispatch_rv32i e sltiu op pc = process_rv32i_alu_imm op
  dispatch_rv32i e xori op pc = process_rv32i_alu_imm op
  dispatch_rv32i e ori op pc = process_rv32i_alu_imm op
  dispatch_rv32i e andi op pc = process_rv32i_alu_imm op
  dispatch_rv32i e sll op pc = process_rv32i_shift op
  dispatch_rv32i e srl op pc = process_rv32i_shift op
  dispatch_rv32i e sra op pc = process_rv32i_shift op
  dispatch_rv32i e slli op pc = process_rv32i_shift_imm op
  dispatch_rv32i e srli op pc = process_rv32i_shift_imm op
  dispatch_rv32i e srai op pc = process_rv32i_shift_imm op
  dispatch_rv32i e add op pc = process_rv32i_alu op
  dispatch_rv32i e sub op pc = process_rv32i_alu op
  dispatch_rv32i e slt op pc = process_rv32i_alu op
  dispatch_rv32i e sltu op pc = process_rv32i_alu op
  dispatch_rv32i e xor_ op pc = process_rv32i_alu op
  dispatch_rv32i e or_ op pc = process_rv32i_alu op
  dispatch_rv32i e and_ op pc = process_rv32i_alu op
  dispatch_rv32i e ecall op pc = process_rv32i_priv op
  dispatch_rv32i e ebreak op pc = process_rv32i_priv op
  dispatch_rv32i e mret op pc = process_rv32i_priv op
  dispatch_rv32i e sret op pc = process_rv32i_priv op
  dispatch_rv32i e uret op pc = process_rv32i_priv op
  dispatch_rv32i e wfi op pc = process_rv32i_priv op
  dispatch_rv32i e fence op pc = process_rv32i_fence
  dispatch_rv32i e fence_i op pc = process_rv32i_fence
  dispatch_rv32i e sfence_vma op pc = process_rv32i_fence
  dispatch_rv32i e csrrw op pc = process_rv32i_csr op
  dispatch_rv32i e csrrs op pc = process_rv32i_csr op
  dispatch_rv32i e csrrc op pc = process_rv32i_csr op
  dispatch_rv32i e csrrwi op pc = process_rv32i_csr_imm op
  dispatch_rv32i e csrrsi op pc = process_rv32i_csr_imm op
  dispatch_rv32i e csrrci op pc = process_rv32i_csr_imm op
  dispatch_rv32i e _ op pc = error

  unfoldable pub process_rv32i : Environment B → Op → ℕ → Execution B (Unit {0})
  unfolding dispatch_rv32i
  process_rv32i e op pc = dispatch_rv32i e op.op_code op pc
