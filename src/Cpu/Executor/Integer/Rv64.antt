-- ===== src/Cpu/Executor/Integer/Rv64.antt =====
-- src/bin/rafi-emu/cpu/Executor.cpp: ProcessRV64I and the methods ProcessRV64I_*.
use rafi_1st.Decoder.Ops.{
  Op, OpCode, add, addi, addiw, addw, and_, andi, auipc, beq, bge, bgeu, blt, bltu, bne, csrrc,
  csrrci, csrrs, csrrsi, csrrw, csrrwi, ebreak, ecall, fence, fence_i, jal, jalr, lb, lbu, ld, lh,
  lhu, lui, lw, lwu, mret, or_, ori, sb, sd, sfence_vma, sh, sll, slli, slliw, sllw, slt, slti,
  sltiu, sltu, sra, srai, sraiw, sraw, sret, srl, srli, srliw, srlw, sub, subw, sw, uret, wfi, xor_,
  xori,
}
use rafi_1st.Cpu.Executor.Machine.{Environment, Execution, error, lift, pure, ◌>>=◌, ◌>>◌}
use rafi_1st.Cpu.MemoryAccessUnit.{zero_extend}
use rafi_1st.Cpu.Executor.Operands.{
  as_b, as_csr, as_csr_imm, as_i, as_j, as_r, as_s, as_shift_imm, as_u,
}
use rafi_1st.Cpu.Executor.MemorySteps.{
  load16, load32, load64, load8, store16, store32, store64, store8,
}
use rafi_1st.Word.{wrap_add}
use rafi_1st.Cpu.Executor.Integer.{
  alu64, alu_imm64, branch_taken, csr_imm_value64, csr_value64, shift64, shift_imm64,
}
use rafi_1st.Cpu.Csr.Read.{read_uint64}
use rafi_1st.Cpu.Executor.Steps.{
  cancel_reservation, get_csr, get_int32, get_int64, get_uint32, get_uint64, jump_to, put_csr64,
  put_int64, put_uint64,
}
use rafi_1st.Cpu.Executor.Integer.Rv32.{branch_to, run_priv}
use rafi_1st.Decoder.Fields.{sign_extend}
use rafi_1st.Base.{bit_and, ℕ, ◌%◌, ◌-◌, ◌^◌}

module _ {B : Type 0} where
  unfoldable pub process_rv64i_lui : Op → Execution B (Unit {0})
  process_rv64i_lui op = do o ← as_u op.operand; put_int64 o.rd o.imm

  unfoldable pub process_rv64i_auipc : Op → ℕ → Execution B (Unit {0})
  process_rv64i_auipc op pc = do o ← as_u op.operand; put_int64 o.rd (wrap_add 64 pc o.imm)

  unfoldable pub process_rv64i_jal : Op → ℕ → Execution B (Unit {0})
  process_rv64i_jal op pc = do
    o ← as_j op.operand
    put_int64 o.rd (wrap_add 64 pc 4)
    jump_to (wrap_add 64 pc o.imm)

  unfoldable pub process_rv64i_jalr : Op → ℕ → Execution B (Unit {0})
  process_rv64i_jalr op pc = do
    o ← as_i op.operand
    src ← get_int64 o.rs1
    let address = bit_and (2 ^ 64 - 2) (wrap_add 64 src o.imm)
    put_int64 o.rd (wrap_add 64 pc 4)
    jump_to address

  unfoldable pub process_rv64i_branch : Op → ℕ → Execution B (Unit {0})
  unfolding branch_to
  process_rv64i_branch op pc = do
    o ← as_b op.operand
    src1 ← get_int64 o.rs1
    src2 ← get_int64 o.rs2
    src1_u ← get_uint64 o.rs1
    src2_u ← get_uint64 o.rs2
    jump ← lift (branch_taken 64 op.op_code src1 src2 src1_u src2_u)
    branch_to jump pc o.imm

  -- The `switch` of the loads
  unfoldable pub load_value64 : Environment B → OpCode → ℕ → Execution B ℕ
  load_value64 e lb address = do v ← load8 e address; pure (sign_extend 8 v)
  load_value64 e lh address = do v ← load16 e address; pure (sign_extend 16 v)
  load_value64 e lw address = do v ← load32 e address; pure (sign_extend 32 v)
  load_value64 e ld address = do v ← load64 e address; pure (sign_extend 64 v)
  load_value64 e lbu address = do v ← load8 e address; pure (zero_extend 8 v)
  load_value64 e lhu address = do v ← load16 e address; pure (zero_extend 16 v)
  load_value64 e lwu address = do v ← load32 e address; pure (zero_extend 32 v)
  load_value64 e _ address = error

  unfoldable pub process_rv64i_load : Environment B → Op → Execution B (Unit {0})
  unfolding load_value64
  process_rv64i_load e op = do
    o ← as_i op.operand
    base ← get_uint64 o.rs1
    value ← load_value64 e op.op_code (wrap_add 64 base o.imm)
    put_uint64 o.rd value

  -- The `switch` of the stores
  unfoldable pub store_value64 : Environment B → OpCode → ℕ → ℕ → Execution B (Unit {0})
  store_value64 e sb address value = store8 e address (value % 2 ^ 8)
  store_value64 e sh address value = store16 e address (value % 2 ^ 16)
  store_value64 e sw address value = store32 e address (value % 2 ^ 32)
  store_value64 e sd address value = store64 e address value
  store_value64 e _ address value = error

  unfoldable pub process_rv64i_store : Environment B → Op → Execution B (Unit {0})
  unfolding store_value64
  process_rv64i_store e op = do
    o ← as_s op.operand
    base ← get_uint64 o.rs1
    value ← get_uint64 o.rs2
    store_value64 e op.op_code (wrap_add 64 base o.imm) value

  unfoldable pub process_rv64i_alu : Op → Execution B (Unit {0})
  process_rv64i_alu op = do
    o ← as_r op.operand
    src1 ← get_int64 o.rs1
    src2 ← get_int64 o.rs2
    src1_u ← get_uint64 o.rs1
    src2_u ← get_uint64 o.rs2
    src1_s32 ← get_int32 o.rs1
    src2_s32 ← get_int32 o.rs2
    value ← lift (alu64 op.op_code src1 src2 src1_u src2_u src1_s32 src2_s32)
    put_int64 o.rd value

  unfoldable pub process_rv64i_alu_imm : Op → Execution B (Unit {0})
  process_rv64i_alu_imm op = do
    o ← as_i op.operand
    src1 ← get_int64 o.rs1
    src1_u ← get_uint64 o.rs1
    src1_s32 ← get_int32 o.rs1
    value ← lift (alu_imm64 op.op_code src1 o.imm src1_u o.imm src1_s32 (o.imm % 2 ^ 32))
    put_int64 o.rd value

  unfoldable pub process_rv64i_shift : Op → Execution B (Unit {0})
  process_rv64i_shift op = do
    o ← as_r op.operand
    src1 ← get_int64 o.rs1
    src1_u ← get_uint64 o.rs1
    src1_s32 ← get_int32 o.rs1
    src1_u32 ← get_uint32 o.rs1
    count ← get_int64 o.rs2
    value ← lift (shift64 op.op_code src1 src1_u src1_s32 src1_u32 (bit_and count 0x3f))
    put_int64 o.rd value

  unfoldable pub process_rv64i_shift_imm : Op → Execution B (Unit {0})
  process_rv64i_shift_imm op = do
    o ← as_shift_imm op.operand
    src1 ← get_int64 o.rs1
    src1_u ← get_uint64 o.rs1
    src1_s32 ← get_int32 o.rs1
    src1_u32 ← get_uint32 o.rs1
    value ← lift (shift_imm64 op.op_code src1 src1_u src1_s32 src1_u32 o.shamt)
    put_int64 o.rd value

  unfoldable pub process_rv64i_priv : Op → Execution B (Unit {0})
  unfolding run_priv
  process_rv64i_priv op = do cancel_reservation; run_priv op.op_code

  unfoldable pub process_rv64i_fence : Execution B (Unit {0})
  process_rv64i_fence = cancel_reservation

  unfoldable pub process_rv64i_csr : Op → Execution B (Unit {0})
  process_rv64i_csr op = do
    cancel_reservation
    o ← as_csr op.operand
    src_csr ← get_csr (λ c. read_uint64 c o.csr)
    src_int_reg ← get_int64 o.rs1
    value ← lift (csr_value64 op.op_code src_csr src_int_reg)
    put_csr64 o.csr value
    put_int64 o.rd src_csr

  unfoldable pub process_rv64i_csr_imm : Op → Execution B (Unit {0})
  process_rv64i_csr_imm op = do
    cancel_reservation
    o ← as_csr_imm op.operand
    src_csr ← get_csr (λ c. read_uint64 c o.csr)
    value ← lift (csr_imm_value64 op.op_code src_csr o.zimm)
    put_csr64 o.csr value
    put_int64 o.rd src_csr

  -- The `switch` of ProcessRV64I on the operation's code
  unfoldable pub dispatch_rv64i : Environment B → OpCode → Op → ℕ → Execution B (Unit {0})
  dispatch_rv64i e lui op pc = process_rv64i_lui op
  dispatch_rv64i e auipc op pc = process_rv64i_auipc op pc
  dispatch_rv64i e jal op pc = process_rv64i_jal op pc
  dispatch_rv64i e jalr op pc = process_rv64i_jalr op pc
  dispatch_rv64i e beq op pc = process_rv64i_branch op pc
  dispatch_rv64i e bne op pc = process_rv64i_branch op pc
  dispatch_rv64i e blt op pc = process_rv64i_branch op pc
  dispatch_rv64i e bge op pc = process_rv64i_branch op pc
  dispatch_rv64i e bltu op pc = process_rv64i_branch op pc
  dispatch_rv64i e bgeu op pc = process_rv64i_branch op pc
  dispatch_rv64i e lb op pc = process_rv64i_load e op
  dispatch_rv64i e lh op pc = process_rv64i_load e op
  dispatch_rv64i e lw op pc = process_rv64i_load e op
  dispatch_rv64i e ld op pc = process_rv64i_load e op
  dispatch_rv64i e lbu op pc = process_rv64i_load e op
  dispatch_rv64i e lhu op pc = process_rv64i_load e op
  dispatch_rv64i e lwu op pc = process_rv64i_load e op
  dispatch_rv64i e sb op pc = process_rv64i_store e op
  dispatch_rv64i e sh op pc = process_rv64i_store e op
  dispatch_rv64i e sw op pc = process_rv64i_store e op
  dispatch_rv64i e sd op pc = process_rv64i_store e op
  dispatch_rv64i e addi op pc = process_rv64i_alu_imm op
  dispatch_rv64i e addiw op pc = process_rv64i_alu_imm op
  dispatch_rv64i e slti op pc = process_rv64i_alu_imm op
  dispatch_rv64i e sltiu op pc = process_rv64i_alu_imm op
  dispatch_rv64i e xori op pc = process_rv64i_alu_imm op
  dispatch_rv64i e ori op pc = process_rv64i_alu_imm op
  dispatch_rv64i e andi op pc = process_rv64i_alu_imm op
  dispatch_rv64i e sll op pc = process_rv64i_shift op
  dispatch_rv64i e sllw op pc = process_rv64i_shift op
  dispatch_rv64i e srl op pc = process_rv64i_shift op
  dispatch_rv64i e srlw op pc = process_rv64i_shift op
  dispatch_rv64i e sra op pc = process_rv64i_shift op
  dispatch_rv64i e sraw op pc = process_rv64i_shift op
  dispatch_rv64i e slli op pc = process_rv64i_shift_imm op
  dispatch_rv64i e slliw op pc = process_rv64i_shift_imm op
  dispatch_rv64i e srli op pc = process_rv64i_shift_imm op
  dispatch_rv64i e srliw op pc = process_rv64i_shift_imm op
  dispatch_rv64i e srai op pc = process_rv64i_shift_imm op
  dispatch_rv64i e sraiw op pc = process_rv64i_shift_imm op
  dispatch_rv64i e add op pc = process_rv64i_alu op
  dispatch_rv64i e addw op pc = process_rv64i_alu op
  dispatch_rv64i e sub op pc = process_rv64i_alu op
  dispatch_rv64i e subw op pc = process_rv64i_alu op
  dispatch_rv64i e slt op pc = process_rv64i_alu op
  dispatch_rv64i e sltu op pc = process_rv64i_alu op
  dispatch_rv64i e xor_ op pc = process_rv64i_alu op
  dispatch_rv64i e or_ op pc = process_rv64i_alu op
  dispatch_rv64i e and_ op pc = process_rv64i_alu op
  dispatch_rv64i e ecall op pc = process_rv64i_priv op
  dispatch_rv64i e ebreak op pc = process_rv64i_priv op
  dispatch_rv64i e mret op pc = process_rv64i_priv op
  dispatch_rv64i e sret op pc = process_rv64i_priv op
  dispatch_rv64i e uret op pc = process_rv64i_priv op
  dispatch_rv64i e wfi op pc = process_rv64i_priv op
  dispatch_rv64i e fence op pc = process_rv64i_fence
  dispatch_rv64i e fence_i op pc = process_rv64i_fence
  dispatch_rv64i e sfence_vma op pc = process_rv64i_fence
  dispatch_rv64i e csrrw op pc = process_rv64i_csr op
  dispatch_rv64i e csrrs op pc = process_rv64i_csr op
  dispatch_rv64i e csrrc op pc = process_rv64i_csr op
  dispatch_rv64i e csrrwi op pc = process_rv64i_csr_imm op
  dispatch_rv64i e csrrsi op pc = process_rv64i_csr_imm op
  dispatch_rv64i e csrrci op pc = process_rv64i_csr_imm op
  dispatch_rv64i e _ op pc = error

  unfoldable pub process_rv64i : Environment B → Op → ℕ → Execution B (Unit {0})
  unfolding dispatch_rv64i
  process_rv64i e op pc = dispatch_rv64i e op.op_code op pc
